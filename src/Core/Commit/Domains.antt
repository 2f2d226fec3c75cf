-- ===== src/Core/Commit/Domains.antt =====
-- The domain tags and domain strings tell their parts apart.
use rgk.Prelude.{
  append-nil, ℕ, ◌≤◌, ◌≡◌, refl, sym, ap, ◌∙◌, Option, none, some, some_of, List, [], ◌++◌, codes,
  length, get_elem?, drop, drop-append, ◌==◌, if◌then◌else◌, arith,
}
use rgk.Core.Chain.{
  KaspaChainId, kaspa_mainnet, kaspa_testnet, kaspa_simnet, kaspa_devnet, kaspa_local_toccata,
  chain_domain_str,
}
use rgk.Core.Policy.{
  ProofMode, verifier_receipt, zk_receipt, p2mr_ret, ReceiptPolicy, any, verifier_only,
  zk_or_verifier, mode_domain_str, policy_domain_str,
}
use rgk.Core.Commit.{
  DomainTag, state_commitment, receipt, lineage, replay_nonce, policy_migration,
  advanced_covenant_policy, advanced_covenant_execution, ascii, domain_string,
}

abbrev byte_at : List ℕ → ℕ → ℕ
byte_at xs i = elim (get_elem? xs i) [ none ↦ 0 | some b ↦ b ]

-- A tag is known by its length and its seventh byte.
tag_of : ℕ → ℕ → Option DomainTag
tag_of n b =
    if n == 31
    then some advanced_covenant_policy
    else if n == 34
    then some advanced_covenant_execution
    else if b == b'a'
    then some state_commitment
    else if b == b'c'
    then some receipt
    else if b == b'n'
    then some lineage
    else if b == b'p'
    then some replay_nonce
    else some policy_migration

tag_of-ascii : (t : DomainTag) → tag_of (length (ascii t)) (byte_at (ascii t) 6) ≡ some t
unfolding tag_of ascii
tag_of-ascii state_commitment = refl
tag_of-ascii _ = refl

pub ascii-injective : (t u : DomainTag) → ascii t ≡ ascii u → t ≡ u
ascii-injective t u e =
    some_of (sym (tag_of-ascii t) ∙ ap (λ s. tag_of (length s) (byte_at s 6)) e ∙ tag_of-ascii u)

pub length-ascii-le : (t : DomainTag) → length (ascii t) ≤ 34
unfolding ascii
length-ascii-le t = ground arith

-- A chain is known by the byte after "kaspa-", a policy and a mode by their first bytes.
chain_of : ℕ → KaspaChainId
chain_of b =
    if b == b'm'
    then kaspa_mainnet
    else if b == b't'
    then kaspa_testnet
    else if b == b's'
    then kaspa_simnet
    else if b == b'd'
    then kaspa_devnet
    else kaspa_local_toccata

policy_of : ℕ → ReceiptPolicy
policy_of b = if b == b'a' then any else if b == b'v' then verifier_only else zk_or_verifier

mode_of : ℕ → ProofMode
mode_of b = if b == b'v' then verifier_receipt else if b == b'z' then zk_receipt else p2mr_ret

module _ (rest : List ℕ) where
  chain_of-chain_domain_str :
      (c : KaspaChainId) → chain_of (byte_at (chain_domain_str c ++ rest) 6) ≡ c
  unfolding chain_of chain_domain_str
  chain_of-chain_domain_str kaspa_mainnet = refl
  chain_of-chain_domain_str _ = refl

  policy_of-policy_domain_str :
      (p : ReceiptPolicy) → policy_of (byte_at (policy_domain_str p ++ rest) 0) ≡ p
  unfolding policy_of policy_domain_str
  policy_of-policy_domain_str any = refl
  policy_of-policy_domain_str _ = refl

mode_of-mode_domain_str : (m : ProofMode) → mode_of (byte_at (mode_domain_str m) 0) ≡ m
unfolding mode_of mode_domain_str
mode_of-mode_domain_str verifier_receipt = refl
mode_of-mode_domain_str _ = refl

-- A common front can be taken off.
append_cancel : (xs ys zs : List ℕ) → xs ++ ys ≡ xs ++ zs → ys ≡ zs
append_cancel xs ys zs e = sym (drop-append xs ys) ∙ ap (drop (length xs)) e ∙ drop-append xs zs

module _ (c d : KaspaChainId) (xs ys : List ℕ)
    (e : chain_domain_str c ++ xs ≡ chain_domain_str d ++ ys) where
  same_chain : c ≡ d
  same_chain =
      sym (chain_of-chain_domain_str xs c)
      ∙ ap (λ s. chain_of (byte_at s 6)) e
      ∙ chain_of-chain_domain_str ys d

  after_chain : xs ≡ ys
  after_chain =
      append_cancel (chain_domain_str c) xs ys
        (e ∙ ap (λ k. chain_domain_str k ++ ys) (sym same_chain))

module _ (p q : ReceiptPolicy) (xs ys : List ℕ)
    (e : policy_domain_str p ++ xs ≡ policy_domain_str q ++ ys) where
  same_policy : p ≡ q
  same_policy =
      sym (policy_of-policy_domain_str xs p)
      ∙ ap (λ s. policy_of (byte_at s 0)) e
      ∙ policy_of-policy_domain_str ys q

  after_policy : xs ≡ ys
  after_policy =
      append_cancel (policy_domain_str p) xs ys
        (e ∙ ap (λ k. policy_domain_str k ++ ys) (sym same_policy))

mode_text : Option ProofMode → List ℕ
mode_text none = []
mode_text (some m) = codes " | mode=" ++ mode_domain_str m

mode_text-injective : (m n : Option ProofMode) → mode_text m ≡ mode_text n → m ≡ n
unfolding mode_text
mode_text-injective none none e = refl
mode_text-injective none (some n) e = cc
mode_text-injective (some m) none e = cc
mode_text-injective (some m) (some n) e = ap some (
    sym (mode_of-mode_domain_str m)
    ∙ ap (λ s. mode_of (byte_at s 0)) (append_cancel (codes " | mode=") _ _ e)
    ∙ mode_of-mode_domain_str n)

-- The string in one form: the mode's part may be empty.
domain_string_lem :
    (c : KaspaChainId) (p : ReceiptPolicy) (m : Option ProofMode)
    → domain_string c p m
      ≡ codes "rgk:v0 | chain="
        ++ (chain_domain_str c ++ (codes " | policy=" ++ (policy_domain_str p ++ mode_text m)))
unfolding domain_string mode_text
domain_string_lem c p none = rw append-nil
domain_string_lem c p (some m) = refl

-- The domain string determines the chain, the policy and the mode.
pub domain_string-injective :
    (c d : KaspaChainId) (p q : ReceiptPolicy) (m n : Option ProofMode)
    → domain_string c p m ≡ domain_string d q n
    → (c ≡ d) × (p ≡ q) × (m ≡ n)
domain_string-injective c d p q m n e =
    let e1 =
      append_cancel (codes "rgk:v0 | chain=") _ _
        (sym (domain_string_lem c p m) ∙ e ∙ domain_string_lem d q n) in
    let e2 = append_cancel (codes " | policy=") _ _ (after_chain c d _ _ e1) in
    (
      same_chain c d _ _ e1,
      same_policy p q _ _ e2,
      mode_text-injective m n (after_policy p q _ _ e2),
    )
