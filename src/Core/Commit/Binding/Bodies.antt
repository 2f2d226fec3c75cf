-- ===== src/Core/Commit/Binding/Bodies.antt =====
-- What the commitments to states, receipts and policy migrations bind.
use rgk.Prelude.{
  ℕ, ◌≤◌, ◌<◌, ◌%◌, ◌^◌, ◌≡◌, sym, ◌∙◌, ◌⊎◌, inl, inr, Option, none, some, List, [], ◌++◌, length,
  append_inj, length-append, append_assoc, append-nil, some_of, arith,
}
use rgk.Core.Bytes.{Bytes32, IsBytes, zero32}
use rgk.Core.Chain.{KaspaChainId, chain_domain_str}
use rgk.Core.Policy.{ReceiptPolicy, ProofMode, policy_domain_str, mode_domain_str, policy_as_u8}
use rgk.Core.Encoding.{to_le, write_blob, write_bytes, write_u32}
use rgk.Core.Types.{RgkStateCommitment, RgkReceipt}
use rgk.Core.Types.Codec.{IsTypedState, IsTypedReceipt}
use rgk.Core.Types.Valid.{IsValidReceipt, validate_state_iff, validate_receipt_iff}
use rgk.Core.Commit.{domain_string, state_body, receipt_body, commit_state, receipt_commitment}
use rgk.Core.Commit.Domains.{domain_string-injective}
use rgk.Core.Commit.Binding.{prefixed-injective, Collision, domain_hash_binding}

length-chain_domain_str-le : (c : KaspaChainId) → length (chain_domain_str c) ≤ 19
unfolding chain_domain_str
length-chain_domain_str-le c = ground arith

length-policy_domain_str-le : (p : ReceiptPolicy) → length (policy_domain_str p) ≤ 14
unfolding policy_domain_str
length-policy_domain_str-le p = ground arith

length-mode_domain_str-le : (m : ProofMode) → length (mode_domain_str m) ≤ 16
unfolding mode_domain_str
length-mode_domain_str-le m = ground arith

length-domain_string :
    (c : KaspaChainId) (p : ReceiptPolicy) (m : Option ProofMode)
    → length (domain_string c p m) < 2 ^ 32
unfolding domain_string
length-domain_string c p none =
    simp length-append (omega (arith, length-chain_domain_str-le c, length-policy_domain_str-le p))
length-domain_string c p (some m) = simp length-append (
    omega (
      arith,
      length-chain_domain_str-le c,
      length-policy_domain_str-le p,
      length-mode_domain_str-le m,
    ))

-- One fixed-width field.
peel :
    (xs zs ys ws : List ℕ)
    → IsBytes 32 xs
    → IsBytes 32 zs
    → xs ++ ys ≡ zs ++ ws
    → (xs ≡ zs) × (ys ≡ ws)
peel xs zs ys ws h k e = append_inj xs zs ys ws (h.width ∙ sym k.width) e

state_body_lem :
    (s : RgkStateCommitment)
    → state_body s
      ≡ to_le 4 (length (domain_string s.chain_id s.receipt_policy none) % 2 ^ 32)
        ++ (domain_string s.chain_id s.receipt_policy none
            ++ (s.covenant_id ++ (s.asset_id ++ (s.state_digest ++ []))))
unfolding state_body write_blob write_u32 write_bytes
state_body_lem s = simp (append_assoc, append-nil)

receipt_body_lem :
    (r : RgkReceipt)
    → receipt_body r
      ≡ to_le 4 (
          length (domain_string r.chain_id r.old_state.receipt_policy (some r.proof_mode)) % 2 ^ 32)
        ++ (domain_string r.chain_id r.old_state.receipt_policy (some r.proof_mode)
            ++ (r.covenant_id
                ++ (r.old_state.state_digest
                    ++ (r.new_state.state_digest
                        ++ (r.transition_digest
                            ++ (r.continuation_commitment ++ (r.replay_nonce ++ [])))))))
unfolding receipt_body write_blob write_u32 write_bytes
receipt_body_lem r = simp (append_assoc, append-nil)

-- States that are valid and in range are determined by their bodies.
state_body-injective :
    (s t : RgkStateCommitment)
    → IsTypedState s
    → IsTypedState t
    → state_body s ≡ state_body t
    → s ≡ t
state_body-injective s t hs ht e =
    let (text, e1) =
      prefixed-injective _ _ _ _ (length-domain_string s.chain_id s.receipt_policy none)
        (length-domain_string t.chain_id t.receipt_policy none)
        (sym (state_body_lem s) ∙ e ∙ state_body_lem t) in
    let (chain, policy, _) = domain_string-injective _ _ _ _ _ _ text in
    let (covenant, e2) = peel _ _ _ _ hs.covenant_id ht.covenant_id e1 in
    let (asset, e3) = peel _ _ _ _ hs.asset_id ht.asset_id e2 in
    let (digest, _) = peel _ _ [] [] hs.state_digest ht.state_digest e3 in
    let vs = ((validate_state_iff s).0 hs.valid).version in
    let vt = ((validate_state_iff t).0 ht.valid).version in
    cc (chain, policy, covenant, asset, digest, vs, vt)

-- The receipt without the asset label of its states.
abbrev forget_label : RgkStateCommitment → RgkStateCommitment
forget_label s = record s { asset_id = zero32 }

abbrev pub forget_asset : RgkReceipt → RgkReceipt
forget_asset r = record r {
  old_state = forget_label r.old_state;
  new_state = forget_label r.new_state;
}

state_parts :
    (s t : RgkStateCommitment)
    → s.version ≡ t.version
    → s.chain_id ≡ t.chain_id
    → s.covenant_id ≡ t.covenant_id
    → s.state_digest ≡ t.state_digest
    → s.receipt_policy ≡ t.receipt_policy
    → forget_label s ≡ forget_label t
state_parts s t v c k d p = cc (v, c, k, d, p)

-- Valid receipts with the same body agree in everything but the asset label.
receipt_body-injective :
    (r q : RgkReceipt)
    → IsTypedReceipt r
    → IsTypedReceipt q
    → receipt_body r ≡ receipt_body q
    → forget_asset r ≡ forget_asset q
receipt_body-injective r q hr hq e =
    let (text, e1) =
      prefixed-injective _ _ _ _
        (length-domain_string r.chain_id r.old_state.receipt_policy (some r.proof_mode))
        (length-domain_string q.chain_id q.old_state.receipt_policy (some q.proof_mode))
        (sym (receipt_body_lem r) ∙ e ∙ receipt_body_lem q) in
    let (chain, policy, mode) = domain_string-injective _ _ _ _ _ _ text in
    let (covenant, e2) = peel _ _ _ _ hr.covenant_id hq.covenant_id e1 in
    let (old, e3) = peel _ _ _ _ hr.old_state.state_digest hq.old_state.state_digest e2 in
    let (new, e4) = peel _ _ _ _ hr.new_state.state_digest hq.new_state.state_digest e3 in
    let (transition, e5) = peel _ _ _ _ hr.transition_digest hq.transition_digest e4 in
    let (continuation, e6) =
      peel _ _ _ _ hr.continuation_commitment hq.continuation_commitment e5 in
    let (nonce, _) = peel _ _ [] [] hr.replay_nonce hq.replay_nonce e6 in
    let a : IsValidReceipt r = (validate_receipt_iff r).0 hr.valid in
    let b : IsValidReceipt q = (validate_receipt_iff q).0 hq.valid in
    let olds : forget_label r.old_state ≡ forget_label q.old_state =
      state_parts r.old_state q.old_state (a.old_state.version ∙ sym b.old_state.version)
        (a.old_chain ∙ chain ∙ sym b.old_chain) (a.old_covenant ∙ covenant ∙ sym b.old_covenant) old
        policy in
    let news : forget_label r.new_state ≡ forget_label q.new_state =
      state_parts r.new_state q.new_state (a.new_state.version ∙ sym b.new_state.version)
        (a.new_chain ∙ chain ∙ sym b.new_chain) (a.new_covenant ∙ covenant ∙ sym b.new_covenant) new
        (sym a.same_policy ∙ policy ∙ b.same_policy) in
    cc (
      a.version ∙ sym b.version,
      chain,
      covenant,
      olds,
      news,
      transition,
      continuation,
      some_of mode,
      nonce,
    )

policy_as_u8-injective : (p q : ReceiptPolicy) → policy_as_u8 p ≡ policy_as_u8 q → p ≡ q
unfolding policy_as_u8
policy_as_u8-injective p q e = ground arith

module _ (sha256 : List ℕ → Bytes32) where
  -- Two states in range and valid with one state commitment are the same state, unless SHA-256 collides.
  pub commit_state_binding :
      (s t : RgkStateCommitment)
      → IsTypedState s
      → IsTypedState t
      → commit_state sha256 s ≡ commit_state sha256 t
      → (s ≡ t) ⊎ Collision sha256
  unfolding commit_state
  commit_state_binding s t hs ht e = elim (domain_hash_binding sha256 _ _ _ _ e) [
    | inl (_, body) ↦ inl (state_body-injective s t hs ht body)
    | inr c ↦ inr c
  ]

  -- Two receipts in range and valid with one receipt id agree in every field but the asset label of their
  -- states, unless SHA-256 collides.
  pub receipt_commitment_binding :
      (r q : RgkReceipt)
      → IsTypedReceipt r
      → IsTypedReceipt q
      → receipt_commitment sha256 r ≡ receipt_commitment sha256 q
      → (forget_asset r ≡ forget_asset q) ⊎ Collision sha256
  unfolding receipt_commitment
  receipt_commitment_binding r q hr hq e = elim (domain_hash_binding sha256 _ _ _ _ e) [
    | inl (_, body) ↦ inl (receipt_body-injective r q hr hq body)
    | inr c ↦ inr c
  ]
