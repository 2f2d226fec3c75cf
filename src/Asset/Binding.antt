-- ===== src/Asset/Binding.antt =====
-- What the lane identities bind.
use rgk.Prelude.{
  ℕ, ◌<◌, ◌^◌, ◌≡◌, sym, ap, ◌∙◌, ◌⊎◌, inl, inr, List, ◌++◌, length, append_inj, arith,
}
use rgk.Core.Bytes.{Bytes32}
use rgk.Core.Encoding.{to_le}
use rgk.Core.Encoding.Widths.{length-to_le, to_le-injective}
use rgk.Core.Commit.Binding.{Collision, domain_hash_str_binding}
use rgk.Asset.{
  RgkCovenantAnchor, lane_payload, nullifier_payload, lane_domain, scan_tag_domain,
  nullifier_domain, derive_blinded_lane_id, derive_scan_tag, derive_nullifier,
}

lane_payload-injective :
    (k j a b : Bytes32) (m n : ℕ)
    → length k ≡ length j
    → length a ≡ length b
    → m < 2 ^ 64
    → n < 2 ^ 64
    → lane_payload k a m ≡ lane_payload j b n
    → (k ≡ j) × (a ≡ b) × (m ≡ n)
unfolding lane_payload
lane_payload-injective k j a b m n hk ha hm hn h =
    let (front, back) = append_inj k j (a ++ to_le 8 m) (b ++ to_le 8 n) hk h in
    let (middle, epoch) = append_inj a b (to_le 8 m) (to_le 8 n) ha back in
    (front, middle, to_le-injective 8 m n hm hn epoch)

nullifier_payload-injective :
    (s t : Bytes32) (a b : RgkCovenantAnchor)
    → length s ≡ length t
    → length a.covenant_outpoint.transaction_id ≡ length b.covenant_outpoint.transaction_id
    → a.covenant_outpoint.index < 2 ^ 32
    → b.covenant_outpoint.index < 2 ^ 32
    → nullifier_payload s a ≡ nullifier_payload t b
    → (s ≡ t) × (a.covenant_outpoint ≡ b.covenant_outpoint) × (a.covenant_id ≡ b.covenant_id)
unfolding nullifier_payload
nullifier_payload-injective s t a b hs ht hm hn h =
    let (front, back) = append_inj s t _ _ hs h in
    let (txid, rest) =
      append_inj a.covenant_outpoint.transaction_id b.covenant_outpoint.transaction_id _ _ ht
        back in
    let (index, covenant) =
      append_inj (to_le 4 a.covenant_outpoint.index) (to_le 4 b.covenant_outpoint.index) _ _
        (rw (length-to_le, length-to_le)) rest in
    let number =
      to_le-injective 4 a.covenant_outpoint.index b.covenant_outpoint.index hm hn index in
    (front, cc, covenant)

module _ (sha256 : List ℕ → Bytes32) where
  -- Two derivations of a blinded lane id, or two of a scan tag, that agree come from the same key, the same
  -- asset (or lane) and the same epoch, unless SHA-256 collides; and a blinded lane id is no scan tag without
  -- a collision either. Keys, assets and lanes are 32 bytes and epochs fit 64 bits.
  pub lane_identity_binding :
      (k j a b : Bytes32) (m n : ℕ)
      → length k ≡ 32
      → length j ≡ 32
      → length a ≡ 32
      → length b ≡ 32
      → m < 2 ^ 64
      → n < 2 ^ 64
      → (derive_blinded_lane_id sha256 k a m ≡ derive_blinded_lane_id sha256 j b n
          → ((k ≡ j) × (a ≡ b) × (m ≡ n)) ⊎ Collision sha256)
        × (derive_scan_tag sha256 k a m ≡ derive_scan_tag sha256 j b n
            → ((k ≡ j) × (a ≡ b) × (m ≡ n)) ⊎ Collision sha256)
        × (derive_blinded_lane_id sha256 k a m ≡ derive_scan_tag sha256 j b n → Collision sha256)
  unfolding derive_blinded_lane_id derive_scan_tag
  lane_identity_binding k j a b m n hk hj ha hb hm hn = (
    λ h.
        elim (domain_hash_str_binding sha256 lane_domain lane_domain _ _ (omega arith) (omega arith)
          h) [
            | inl (_, p) ↦
                inl (lane_payload-injective k j a b m n (hk ∙ sym hj) (ha ∙ sym hb) hm hn p)
            | inr c ↦ inr c
          ],
    λ h.
        elim (domain_hash_str_binding sha256 scan_tag_domain scan_tag_domain _ _ (omega arith)
          (omega arith) h) [
            | inl (_, p) ↦
                inl (lane_payload-injective k j a b m n (hk ∙ sym hj) (ha ∙ sym hb) hm hn p)
            | inr c ↦ inr c
          ],
    λ h.
        elim (domain_hash_str_binding sha256 lane_domain scan_tag_domain _ _ (omega arith)
          (omega arith) h) [ inl (d, _) ↦ absurd (omega (arith, ap length d)) | inr c ↦ c ],
  )

  -- Two nullifiers that agree come from the same spend secret, the same covenant outpoint and the same
  -- covenant id, unless SHA-256 collides, where the secrets have one length, the transaction ids have one
  -- length, and the indexes fit 32 bits.
  pub nullifier_binding :
      (s t : Bytes32) (a b : RgkCovenantAnchor)
      → length s ≡ length t
      → length a.covenant_outpoint.transaction_id ≡ length b.covenant_outpoint.transaction_id
      → a.covenant_outpoint.index < 2 ^ 32
      → b.covenant_outpoint.index < 2 ^ 32
      → derive_nullifier sha256 s a ≡ derive_nullifier sha256 t b
      → ((s ≡ t) × (a.covenant_outpoint ≡ b.covenant_outpoint) × (a.covenant_id ≡ b.covenant_id))
        ⊎ Collision sha256
  unfolding derive_nullifier
  nullifier_binding s t a b hs ht hm hn h =
      elim (domain_hash_str_binding sha256 nullifier_domain nullifier_domain _ _ (omega arith)
        (omega arith) h) [
          | inl (_, p) ↦ inl (nullifier_payload-injective s t a b hs ht hm hn p)
          | inr c ↦ inr c
        ]
