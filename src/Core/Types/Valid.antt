-- ===== src/Core/Types/Valid.antt =====
-- What `validate_structure` accepts.
use rgk.Prelude.{
  ◌≡◌, true, ok, >>=-eq-ok, passed, avoided, ensure-of, reject-of, ◌≟◌, nat_eq, list_eq, bool_eq,
  ◌↔◌,
}
use rgk.Core.Bytes.{zero32}
use rgk.Core.Chain.{chain_eq}
use rgk.Core.Policy.{policy_eq, admits}
use rgk.Core.Encoding.{encoding_version}
use rgk.Core.Types.{RgkStateCommitment, RgkReceipt, validate_state, validate_receipt}

pub record IsValidState (s : RgkStateCommitment) : Type 0 where
  pub version : s.version ≡ encoding_version
  pub covenant_id : ¬ (s.covenant_id ≡ zero32)
  pub asset_id : ¬ (s.asset_id ≡ zero32)
  pub state_digest : ¬ (s.state_digest ≡ zero32)

-- The structural rules of a receipt: one chain, one covenant, one asset, one policy, a digest that moves.
pub record IsValidReceipt (r : RgkReceipt) : Type 0 where
  pub version : r.version ≡ encoding_version
  pub old_state : IsValidState r.old_state
  pub new_state : IsValidState r.new_state
  pub old_chain : r.old_state.chain_id ≡ r.chain_id
  pub new_chain : r.new_state.chain_id ≡ r.chain_id
  pub old_covenant : r.old_state.covenant_id ≡ r.covenant_id
  pub new_covenant : r.new_state.covenant_id ≡ r.covenant_id
  pub same_asset : r.old_state.asset_id ≡ r.new_state.asset_id
  pub same_policy : r.old_state.receipt_policy ≡ r.new_state.receipt_policy
  pub advances : ¬ (r.old_state.state_digest ≡ r.new_state.state_digest)
  pub transition : ¬ (r.transition_digest ≡ zero32)
  pub continuation : ¬ (r.continuation_commitment ≡ zero32)
  pub admitted : admits r.old_state.receipt_policy r.proof_mode ≡ true

validate_state_sound : (s : RgkStateCommitment) → validate_state s ≡ ok tt → IsValidState s
unfolding validate_state
validate_state_sound s e =
    let (v, e1) = passed (s.version ≟ encoding_version) _ e in
    let (c, e2) = avoided (s.covenant_id ≟ zero32) _ e1 in
    let (a, e3) = avoided (s.asset_id ≟ zero32) _ e2 in
    let (d, _) = avoided (s.state_digest ≟ zero32) _ {k = ok tt} e3 in
    record { version = v; covenant_id = c; asset_id = a; state_digest = d }

validate_state_complete : (s : RgkStateCommitment) → IsValidState s → validate_state s ≡ ok tt
unfolding validate_state
validate_state_complete s h = rw (
  ensure-of (s.version ≟ encoding_version) _ h.version,
  reject-of (s.covenant_id ≟ zero32) _ h.covenant_id,
  reject-of (s.asset_id ≟ zero32) _ h.asset_id,
  reject-of (s.state_digest ≟ zero32) _ h.state_digest,
)

-- A state commitment passes `validate_structure` exactly when it has the current version and none of its
-- three ids is zero.
pub validate_state_iff : (s : RgkStateCommitment) → (validate_state s ≡ ok tt) ↔ IsValidState s
validate_state_iff s = (validate_state_sound s, validate_state_complete s)

validate_receipt_sound : (r : RgkReceipt) → validate_receipt r ≡ ok tt → IsValidReceipt r
unfolding validate_receipt
validate_receipt_sound r e =
    let (v, e1) = passed (r.version ≟ encoding_version) _ e in
    let (_, o, e2) = >>=-eq-ok (validate_state r.old_state) _ e1 in
    let (_, n, e3) = >>=-eq-ok (validate_state r.new_state) _ e2 in
    let (oc, e4) = passed (r.old_state.chain_id ≟ r.chain_id) _ e3 in
    let (nc, e5) = passed (r.new_state.chain_id ≟ r.chain_id) _ e4 in
    let (ov, e6) = passed (r.old_state.covenant_id ≟ r.covenant_id) _ e5 in
    let (nv, e7) = passed (r.new_state.covenant_id ≟ r.covenant_id) _ e6 in
    let (a, e8) = passed (r.old_state.asset_id ≟ r.new_state.asset_id) _ e7 in
    let (p, e9) = passed (r.old_state.receipt_policy ≟ r.new_state.receipt_policy) _ e8 in
    let (d, e10) = avoided (r.old_state.state_digest ≟ r.new_state.state_digest) _ e9 in
    let (t, e11) = avoided (r.transition_digest ≟ zero32) _ e10 in
    let (c, e12) = avoided (r.continuation_commitment ≟ zero32) _ e11 in
    let (m, _) = passed (admits r.old_state.receipt_policy r.proof_mode ≟ true) _ {k = ok tt} e12 in
    record {
      version = v;
      old_state = validate_state_sound r.old_state o;
      new_state = validate_state_sound r.new_state n;
      old_chain = oc;
      new_chain = nc;
      old_covenant = ov;
      new_covenant = nv;
      same_asset = a;
      same_policy = p;
      advances = d;
      transition = t;
      continuation = c;
      admitted = m;
    }

validate_receipt_complete : (r : RgkReceipt) → IsValidReceipt r → validate_receipt r ≡ ok tt
unfolding validate_receipt
validate_receipt_complete r h = rw (
  ensure-of (r.version ≟ encoding_version) _ h.version,
  validate_state_complete r.old_state h.old_state,
  validate_state_complete r.new_state h.new_state,
  ensure-of (r.old_state.chain_id ≟ r.chain_id) _ h.old_chain,
  ensure-of (r.new_state.chain_id ≟ r.chain_id) _ h.new_chain,
  ensure-of (r.old_state.covenant_id ≟ r.covenant_id) _ h.old_covenant,
  ensure-of (r.new_state.covenant_id ≟ r.covenant_id) _ h.new_covenant,
  ensure-of (r.old_state.asset_id ≟ r.new_state.asset_id) _ h.same_asset,
  ensure-of (r.old_state.receipt_policy ≟ r.new_state.receipt_policy) _ h.same_policy,
  reject-of (r.old_state.state_digest ≟ r.new_state.state_digest) _ h.advances,
  reject-of (r.transition_digest ≟ zero32) _ h.transition,
  reject-of (r.continuation_commitment ≟ zero32) _ h.continuation,
  ensure-of (admits r.old_state.receipt_policy r.proof_mode ≟ true) _ h.admitted,
)

-- A receipt passes `validate_structure` exactly when it has the current version, its two states are valid,
-- they agree with it and with each other on chain, covenant, asset and policy, the state digest changes,
-- the transition digest and the continuation commitment are not zero and the policy admits the proof mode.
-- Nothing is asked of the replay nonce: a receipt with the zero nonce passes as well.
pub validate_receipt_iff : (r : RgkReceipt) → (validate_receipt r ≡ ok tt) ↔ IsValidReceipt r
validate_receipt_iff r = (validate_receipt_sound r, validate_receipt_complete r)
