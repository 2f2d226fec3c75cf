-- ===== src/Asset/Supply/Owners.antt =====
-- The checks that a transition and a continuation plan open with, in one statement.
use rgk.Prelude.{ℕ, ◌≡◌, ◌↔◌, true, ok, Result, reject, ◌≟◌, bool_eq, rejected, checked, ◌>>◌}
use rgk.Core.Bytes.{Bytes32}
use rgk.Asset.Errors.{RgkAssetError, zero_previous_state_digest}
use rgk.Asset.Policies.{RgkProofPolicy, is_zero32}
use rgk.Asset.Supply.{
  validate_common, validate_metadata_commitment, validate_owner_commitment,
  validate_ownership_handoff,
}
use rgk.Asset.Supply.Sets.{NonZero}
use rgk.Asset.Supply.Delta.{
  IsCommon, IsHandoff, validate_common_iff, IsHandoff-iff, metadata_iff, owner_iff,
}

module _ (schema asset : Bytes32) (total : ℕ) (lane : Bytes32) (policy : RgkProofPolicy)
    (metadata previous new authorization digest : Bytes32) where
  -- The ids, the owners and their handoff, and the digest that is continued.
  pub record IsOwned : Type 0 where
    pub common : IsCommon schema asset total lane policy
    pub metadata_set : NonZero metadata
    pub previous_owner : NonZero previous
    pub new_owner : NonZero new
    pub handoff : IsHandoff previous new authorization
    pub previous_digest : NonZero digest

  pub owned_iff {ℓ κ} :
      {A : Type ℓ} {Q : Type κ} {k : Result RgkAssetError A} {a : A}
      → (k ≡ ok a) ↔ Q
      → ((validate_common schema asset total lane policy
            >> (validate_metadata_commitment metadata
                >> (validate_owner_commitment previous "previous"
                    >> (validate_owner_commitment new "new"
                        >> (validate_ownership_handoff previous new authorization
                            >> (reject (is_zero32 digest ≟ true) zero_previous_state_digest
                                >> k))))))
          ≡ ok a)
        ↔ (IsOwned × Q)
  owned_iff rest =
      let (there, back) = checked _ (validate_common_iff schema asset total lane policy) (
        checked _ (metadata_iff metadata) (
          checked _ (owner_iff previous "previous") (
            checked _ (owner_iff new "new") (
              checked _ (IsHandoff-iff previous new authorization)
                (rejected (is_zero32 digest ≟ true) _ rest))))) in
      (
        λ h.
            let (c, (m, (p, (n, (o, (d, q)))))) = there h in
            (
              record {
                common = c;
                metadata_set = m;
                previous_owner = p;
                new_owner = n;
                handoff = o;
                previous_digest = d;
              },
              q,
            ),
        λ (w, q). back (
          w.common,
          (w.metadata_set, (w.previous_owner, (w.new_owner, (w.handoff, (w.previous_digest, q))))),
        ),
      )
