-- ===== src/Asset/History.antt =====
-- An asset over its whole life: an issue, then transitions that each continue the state that the one
-- before it left, as the digests say.
use mathlib.Core.List.{Perm, foldr}
use mathlib.Core.List.Perm
use native.Mathlib.Nat.{ℕ_set}
use rgk.Prelude.{
  ℕ, ◌+◌, ◌≡◌, refl, sym, ap, ◌∙◌, ◌⊎◌, inl, inr, List, [], ◌∷◌, ok, length, arith, Distinct,
}
use rgk.Core.Bytes.{Bytes32}
use rgk.Core.Commit.Binding.{Collision}
use rgk.Asset.Policies.{policy_digest}
use rgk.Asset.Records.{
  RgkAllocation, RgkAssetIssue, RgkIssueReport, RgkTransition, RgkTransitionReport,
}
use rgk.Asset.Roots.{RgkStateDigestInput, state_digest_for_allocations}
use rgk.Asset.Roots.Binding.{IsTypedDigestInput, state_digest_binding}
use rgk.Asset.Supply.Sets.{supply, outpoints}
use rgk.Asset.Issues.{issue_state, validate_issue}
use rgk.Asset.Issues.Valid.{validate_issue_iff}
use rgk.Asset.Transitions.{previous_state, new_state, validate_transition}
use rgk.Asset.Transitions.Valid.{validate_transition_iff}

supply-foldr : (xs : List RgkAllocation) → supply xs ≡ foldr (λ a n. a.amount + n) 0 xs
supply-foldr [] = refl
supply-foldr (a ∷ rest) = ap (λ n. a.amount + n) (supply-foldr rest)

-- The supply does not depend on the order.
pub supply-Perm : (xs ys : List RgkAllocation) → Perm xs ys → supply xs ≡ supply ys
supply-Perm xs ys p =
    supply-foldr xs
    ∙ Perm.foldr-eq ℕ_set (λ a n. a.amount + n) (λ a b n. omega arith) p 0
    ∙ sym (supply-foldr ys)

-- A state but for its allocations and its owner.
abbrev pub terms_of : RgkStateDigestInput → RgkStateDigestInput
terms_of s = record s { allocations = []; owner_commitment = [] }

module _ (sha256 : List ℕ → Bytes32) (issue : RgkAssetIssue) where
  abbrev first_state : RgkStateDigestInput
  first_state = issue_state issue (policy_digest sha256 issue.proof_policy)

  abbrev state_before : RgkTransition → RgkStateDigestInput
  state_before t = previous_state t (policy_digest sha256 t.proof_policy)

  abbrev state_after : RgkTransition → RgkStateDigestInput
  state_after t = new_state t (policy_digest sha256 t.proof_policy)

  -- The states that valid steps lead to, and what was burned on the way.
  pub data History : RgkStateDigestInput → ℕ → Type 0 where
    issued :
        (r : RgkIssueReport)
        → validate_issue sha256 issue ≡ ok r
        → IsTypedDigestInput first_state
        → History first_state 0
    moved :
        {s : RgkStateDigestInput} {burned : ℕ} (t : RgkTransition) (r : RgkTransitionReport)
        → History s burned
        → validate_transition sha256 t ≡ ok r
        → t.previous_state_digest ≡ state_digest_for_allocations sha256 s
        → IsTypedDigestInput (state_before t)
        → IsTypedDigestInput (state_after t)
        → History (state_after t) (burned + r.burned_supply)

  -- What every state of a history shares with the issue.
  pub record IsConserved (s : RgkStateDigestInput) (burned : ℕ) : Type 0 where
    pub total : supply s.allocations + burned ≡ issue.total_supply
    pub terms : terms_of s ≡ terms_of first_state
    pub distinct : Distinct (outpoints s.allocations)
    pub typed : IsTypedDigestInput s

  module _ (wide : (x : List ℕ) → length (sha256 x) ≡ 32) where
    moved-IsConserved :
        (s : RgkStateDigestInput) (burned : ℕ) (t : RgkTransition) (r : RgkTransitionReport)
        → IsConserved s burned
        → validate_transition sha256 t ≡ ok r
        → t.previous_state_digest ≡ state_digest_for_allocations sha256 s
        → IsTypedDigestInput (state_before t)
        → IsTypedDigestInput (state_after t)
        → IsConserved (state_after t) (burned + r.burned_supply) ⊎ Collision sha256
    moved-IsConserved s burned t r k valid link typed_before typed_after =
        let (v, report) = (validate_transition_iff sha256 t r).0 valid in
        elim (state_digest_binding sha256 wide (state_before t) s typed_before k.typed v.spent.1.0
          (v.continues ∙ link)) [
            | inl (same, terms) ↦ inl (record {
              total =
                  let gone = ap (λ (q : RgkTransitionReport). q.burned_supply) report in
                  omega (
                    arith,
                    gone,
                    v.conserved,
                    k.total,
                    supply-Perm t.spent_allocations s.allocations same,
                  );
              terms = ap terms_of terms ∙ k.terms;
              distinct = v.created.1.0;
              typed = typed_after;
            })
            | inr c ↦ inr c
          ]

    -- At every point of the life of an asset, what its allocations hold and what was burned on the way add
    -- up to the total supply of the issue, and the asset id, the total supply, the metadata, the policies
    -- and the lane are those of the issue, unless SHA-256 collides: no sequence of valid transitions, each
    -- of which names the digest of the state before it, creates or loses a unit. SHA-256 answers 32 bytes.
    pub History-IsConserved :
        (s : RgkStateDigestInput) (burned : ℕ)
        → History s burned
        → IsConserved s burned ⊎ Collision sha256
    History-IsConserved s burned (issued r valid typed) =
        let (v, _) = (validate_issue_iff sha256 issue r).0 valid in
        inl (record {
          total = omega (arith, v.exact);
          terms = refl;
          distinct = v.allocations.1.0;
          typed = typed;
        })
    History-IsConserved _ _ (moved {s} {burned} t r before valid link typed_before typed_after) =
        elim (History-IsConserved s burned before) [
          | inl k ↦ moved-IsConserved s burned t r k valid link typed_before typed_after
          | inr c ↦ inr c
        ]
