-- ===== src/Indexer/Entry/Apply.antt =====
-- When a spend is accepted.
use rgk.Prelude.{
  ℕ, ◌≡◌, ◌≢◌, ◌↔◌, refl, false, Option, none, some, List, ok, ensure-of, reject-of, passed,
  avoided, >>=-eq-ok, ◌≟◌, nat_eq, list_eq, option_eq, bool_eq, contains,
}
use rgk.Core.Bytes.{Bytes32, zero32}
use rgk.Core.Chain.{chain_eq}
use rgk.Core.Policy.{ReceiptPolicy, policy_eq}
use rgk.Core.Types.{PolicyMigrationProof, outpoint_eq}
use rgk.Core.Commit.{policy_migration_commitment}
use rgk.Indexer.Records.{ContinuationProof, IndexedCovenant}
use rgk.Indexer.Entry.{
  Spend, validate_continuation_proof, validate_policy_migration_proof, check_continuation,
  check_migration, advance_entry, apply_spend_to_entry,
}

-- A continuation proof with none of its digests zero.
pub record IsContinuation (p : ContinuationProof) : Type 0 where
  pub commitment_set : p.commitment ≢ zero32
  pub shape_root_set : p.shape_root ≢ zero32
  pub transition_set : p.transition_digest ≢ zero32

pub validate-IsContinuation_sound :
    (p : ContinuationProof) → validate_continuation_proof p ≡ ok tt → IsContinuation p
unfolding validate_continuation_proof
validate-IsContinuation_sound p e =
    let (a, e1) = avoided (p.commitment ≟ zero32) _ e in
    let (b, e2) = avoided (p.shape_root ≟ zero32) _ e1 in
    let (c, _) = avoided (p.transition_digest ≟ zero32) _ {k = ok tt} e2 in
    record { commitment_set = a; shape_root_set = b; transition_set = c }

pub validate-IsContinuation_complete :
    (p : ContinuationProof) → IsContinuation p → validate_continuation_proof p ≡ ok tt
unfolding validate_continuation_proof
validate-IsContinuation_complete p h = rw (
  reject-of (p.commitment ≟ zero32) _ h.commitment_set,
  reject-of (p.shape_root ≟ zero32) _ h.shape_root_set,
  reject-of (p.transition_digest ≟ zero32) _ h.transition_set,
)

-- The continuation proof, where a spend brings one, is complete.
abbrev pub IsContinued : Option ContinuationProof → Type 0
IsContinued none = Unit {0}
IsContinued (some p) = IsContinuation p

check_continuation_sound :
    (o : Option ContinuationProof) → check_continuation o ≡ ok tt → IsContinued o
unfolding check_continuation
check_continuation_sound none e = tt
check_continuation_sound (some p) e = validate-IsContinuation_sound p e

pub check_continuation_complete :
    (o : Option ContinuationProof) → IsContinued o → check_continuation o ≡ ok tt
unfolding check_continuation
check_continuation_complete none h = refl
check_continuation_complete (some p) h = validate-IsContinuation_complete p h

module _ (sha256 : List ℕ → Bytes32) where
  -- A migration proof that is about this change of policy and carries its own commitment.
  pub record IsMigration (p : PolicyMigrationProof) (previous new : ReceiptPolicy)
      (previous_digest new_digest transition : Bytes32) : Type 0 where
    pub changed : previous ≢ new
    pub previous_same : p.previous_policy ≡ previous
    pub new_same : p.new_policy ≡ new
    pub previous_digest_same : p.previous_state_digest ≡ previous_digest
    pub new_digest_same : p.new_state_digest ≡ new_digest
    pub transition_same : p.transition_digest ≡ transition
    pub authorized : p.authorization_commitment ≢ zero32
    pub committed :
        p.migration_commitment
        ≡ policy_migration_commitment sha256 p.previous_policy p.new_policy p.previous_state_digest
            p.new_state_digest p.transition_digest p.authorization_commitment

  module _ (p : PolicyMigrationProof) (previous new : ReceiptPolicy)
      (previous_digest new_digest transition : Bytes32) where
    pub validate-IsMigration_sound :
        validate_policy_migration_proof sha256 p previous new previous_digest new_digest transition
          ≡ ok tt
        → IsMigration p previous new previous_digest new_digest transition
    unfolding validate_policy_migration_proof
    validate-IsMigration_sound e =
        let (a, e1) = avoided (previous ≟ new) _ e in
        let (b, e2) = passed (p.previous_policy ≟ previous) _ e1 in
        let (c, e3) = passed (p.new_policy ≟ new) _ e2 in
        let (d, e4) = passed (p.previous_state_digest ≟ previous_digest) _ e3 in
        let (f, e5) = passed (p.new_state_digest ≟ new_digest) _ e4 in
        let (g, e6) = passed (p.transition_digest ≟ transition) _ e5 in
        let (h, e7) = avoided (p.authorization_commitment ≟ zero32) _ e6 in
        let (i, _) =
          passed
            (p.migration_commitment
              ≟ policy_migration_commitment sha256 p.previous_policy p.new_policy
                  p.previous_state_digest p.new_state_digest p.transition_digest
                  p.authorization_commitment)
            _ {k = ok tt} e7 in
        record {
          changed = a;
          previous_same = b;
          new_same = c;
          previous_digest_same = d;
          new_digest_same = f;
          transition_same = g;
          authorized = h;
          committed = i;
        }

    pub validate-IsMigration_complete :
        IsMigration p previous new previous_digest new_digest transition
        → validate_policy_migration_proof sha256 p previous new previous_digest new_digest
            transition
          ≡ ok tt
    unfolding validate_policy_migration_proof
    validate-IsMigration_complete h = rw (
      reject-of (previous ≟ new) _ h.changed,
      ensure-of (p.previous_policy ≟ previous) _ h.previous_same,
      ensure-of (p.new_policy ≟ new) _ h.new_same,
      ensure-of (p.previous_state_digest ≟ previous_digest) _ h.previous_digest_same,
      ensure-of (p.new_state_digest ≟ new_digest) _ h.new_digest_same,
      ensure-of (p.transition_digest ≟ transition) _ h.transition_same,
      reject-of (p.authorization_commitment ≟ zero32) _ h.authorized,
      ensure-of
          (p.migration_commitment
            ≟ policy_migration_commitment sha256 p.previous_policy p.new_policy
                p.previous_state_digest p.new_state_digest p.transition_digest
                p.authorization_commitment)
          _ h.committed,
    )

  -- The migration proof, where a spend brings one, is valid and comes with a continuation proof.
  abbrev pub IsMigrated :
      Option PolicyMigrationProof
      → Option ContinuationProof
      → ReceiptPolicy
      → ReceiptPolicy
      → Bytes32
      → Bytes32
      → Type 0
  IsMigrated none continuation previous new previous_digest new_digest = Unit {0}
  IsMigrated (some p) none previous new previous_digest new_digest = ⊥
  IsMigrated (some p) (some c) previous new previous_digest new_digest =
      IsMigration p previous new previous_digest new_digest c.transition_digest

  module _ (previous new : ReceiptPolicy) (previous_digest new_digest : Bytes32) where
    check_migration_sound :
        (o : Option PolicyMigrationProof) (c : Option ContinuationProof)
        → check_migration sha256 o c previous new previous_digest new_digest ≡ ok tt
        → IsMigrated o c previous new previous_digest new_digest
    unfolding check_migration
    check_migration_sound none c e = tt
    check_migration_sound (some p) none e = cc
    check_migration_sound (some p) (some c) e =
        validate-IsMigration_sound p previous new previous_digest new_digest c.transition_digest e

    check_migration_complete :
        (o : Option PolicyMigrationProof) (c : Option ContinuationProof)
        → IsMigrated o c previous new previous_digest new_digest
        → check_migration sha256 o c previous new previous_digest new_digest ≡ ok tt
    unfolding check_migration
    check_migration_complete none c h = refl
    check_migration_complete (some p) none h = absurd h
    check_migration_complete (some p) (some c) h =
        validate-IsMigration_complete p previous new previous_digest new_digest c.transition_digest
          h

  -- What an entry asks of a spend.
  pub record Accepts (e : IndexedCovenant) (s : Spend) : Type 0 where
    pub continued : IsContinued s.continuation
    pub fresh : contains e.accepted_receipts s.receipt_id ≡ false
    pub same_chain : e.chain_id ≡ s.new_state.chain_id
    pub same_covenant : e.covenant_id ≡ s.new_state.covenant_id
    pub same_asset : e.latest_state.asset_id ≡ s.new_state.asset_id
    pub spends_open : e.open_outpoint ≡ some s.spent
    pub advances : e.latest_state.state_digest ≢ s.new_state.state_digest
    pub migrated :
        IsMigrated s.policy_migration s.continuation e.latest_state.receipt_policy
          s.new_state.receipt_policy e.latest_state.state_digest s.new_state.state_digest

  pub apply_sound :
      (e : IndexedCovenant) (s : Spend) {e' : IndexedCovenant}
      → apply_spend_to_entry sha256 e s ≡ ok e'
      → Accepts e s × (e' ≡ advance_entry e s)
  unfolding apply_spend_to_entry
  apply_sound e s h =
      let (_, a, h1) = >>=-eq-ok (check_continuation s.continuation) _ h in
      let (b, h2) = passed (contains e.accepted_receipts s.receipt_id ≟ false) _ h1 in
      let (c, h3) = passed (e.chain_id ≟ s.new_state.chain_id) _ h2 in
      let (d, h4) = passed (e.covenant_id ≟ s.new_state.covenant_id) _ h3 in
      let (f, h5) = passed (e.latest_state.asset_id ≟ s.new_state.asset_id) _ h4 in
      let (g, h6) = passed (e.open_outpoint ≟ some s.spent) _ h5 in
      let (i, h7) = avoided (e.latest_state.state_digest ≟ s.new_state.state_digest) _ h6 in
      let (_, j, h8) =
        >>=-eq-ok
          (check_migration sha256 s.policy_migration s.continuation e.latest_state.receipt_policy
            s.new_state.receipt_policy e.latest_state.state_digest s.new_state.state_digest)
          _ h7 in
      (
        record {
          continued = check_continuation_sound s.continuation a;
          fresh = b;
          same_chain = c;
          same_covenant = d;
          same_asset = f;
          spends_open = g;
          advances = i;
          migrated =
              check_migration_sound e.latest_state.receipt_policy s.new_state.receipt_policy
                e.latest_state.state_digest s.new_state.state_digest s.policy_migration
                s.continuation j;
        },
        cc h8,
      )

  pub apply_complete :
      (e : IndexedCovenant) (s : Spend)
      → Accepts e s
      → apply_spend_to_entry sha256 e s ≡ ok (advance_entry e s)
  unfolding apply_spend_to_entry
  apply_complete e s h = rw (
    check_continuation_complete s.continuation h.continued,
    ensure-of (contains e.accepted_receipts s.receipt_id ≟ false) _ h.fresh,
    ensure-of (e.chain_id ≟ s.new_state.chain_id) _ h.same_chain,
    ensure-of (e.covenant_id ≟ s.new_state.covenant_id) _ h.same_covenant,
    ensure-of (e.latest_state.asset_id ≟ s.new_state.asset_id) _ h.same_asset,
    ensure-of (e.open_outpoint ≟ some s.spent) _ h.spends_open,
    reject-of (e.latest_state.state_digest ≟ s.new_state.state_digest) _ h.advances,
    check_migration_complete e.latest_state.receipt_policy s.new_state.receipt_policy
        e.latest_state.state_digest s.new_state.state_digest s.policy_migration s.continuation
        h.migrated,
  )

-- An entry accepts a spend exactly when the spend's continuation proof, if it has one, has no zero digest,
-- its receipt id is not among the accepted ones, its new state is on the entry's chain, covenant and asset
-- with another digest than the latest state's, it spends the open outpoint, and its migration proof, if it
-- has one, comes with a continuation proof, is for this change of policy and carries the commitment of its
-- fields; the entry is then the one with the spend pushed on the history and the receipt id on the list.
pub apply_spend_iff :
    (sha256 : List ℕ → Bytes32) (e : IndexedCovenant) (s : Spend) (e' : IndexedCovenant)
    → (apply_spend_to_entry sha256 e s ≡ ok e') ↔ (Accepts sha256 e s × (e' ≡ advance_entry e s))
apply_spend_iff sha256 e s e' =
    (apply_sound sha256 e s, λ (h, same). rw same (apply_complete sha256 e s h))
