-- ===== src/Indexer/Entry/Rollback.antt =====
-- Rolling back undoes spends.
use rgk.Prelude.{
  ℕ, zero, suc, ◌+◌, ◌-◌, ◌≤◌, ◌≡◌, refl, sym, ap, ◌∙◌, some, List, [], ◌∷◌, All, length,
  length-append, Result, ok, err, ok_of, err_ok, >>=-eq-ok, ◌>>=◌, ensure-of, ensure-fails, dec_le,
  pop, pop-snoc, pop-eq_some, pop-eq_none, drop_last-snoc, Option-cases, inl, inr, arith,
}
use rgk.Core.Bytes.{Bytes32}
use rgk.Indexer.Records.{IndexerError, rollback_too_deep, SpendEntry, IndexedCovenant}
use rgk.Indexer.Entry.{
  Spend, spend_entry, advance_entry, apply_spend_to_entry, revert_entry, rollback_loop,
  rollback_entry,
}
use rgk.Indexer.Entry.Apply.{Accepts, apply_sound}

-- Spends applied one after the other.
unfoldable pub apply_spends :
    (List ℕ → Bytes32) → List Spend → IndexedCovenant → Result IndexerError IndexedCovenant
apply_spends sha256 [] e = ok e
apply_spends sha256 (s ∷ ss) e = apply_spend_to_entry sha256 e s >>= apply_spends sha256 ss

-- The score that rolling back leaves: the one before the oldest spend taken back.
abbrev pub score_before : List Spend → IndexedCovenant → ℕ
score_before [] e = e.last_update_daa_score
score_before (s ∷ ss) e = s.daa_score - 1

loop-pop :
    (n : ℕ) (e : IndexedCovenant) (rest : List SpendEntry) (s : SpendEntry)
    → pop e.spend_history ≡ some (rest, s)
    → rollback_loop (suc n) e ≡ rollback_loop n (revert_entry e rest s)
unfolding rollback_loop
loop-pop n e rest s p = rw (p, rollback_loop)

-- The loop that runs once more does its last step at the end.
loop-last :
    (n : ℕ) (e e' : IndexedCovenant)
    → rollback_loop n e ≡ ok e'
    → rollback_loop (suc n) e ≡ rollback_loop (suc zero) e'
unfolding rollback_loop
loop-last zero e e' h = rw (ok_of h)
loop-last (suc n) e e' h = elim (Option-cases (pop e.spend_history)) [
  | inl p ↦ absurd (err_ok (rw (p, rollback_loop) at h))
  | inr ((rest, s), p) ↦
      loop-pop (suc n) e rest s p
      ∙ loop-last n (revert_entry e rest s) e' (rw (p, rollback_loop) at h)
]

-- The history and the receipts of what a spend leaves, popped.
revert-advance :
    (sha256 : List ℕ → Bytes32) (e : IndexedCovenant) (s : Spend) (daa : ℕ)
    → Accepts sha256 e s
    → s.new_state.version ≡ e.latest_state.version
    → e.latest_state.chain_id ≡ e.chain_id
    → e.latest_state.covenant_id ≡ e.covenant_id
    → revert_entry
        (record (advance_entry e s) { last_update_daa_score = daa })
        e.spend_history
        (spend_entry e s)
      ≡ record e { last_update_daa_score = s.daa_score - 1 }
unfolding advance_entry revert_entry
revert-advance sha256 e s daa a v c k =
    let ids = drop_last-snoc e.accepted_receipts s.receipt_id in
    let chain = c ∙ a.same_chain in
    let covenant = k ∙ a.same_covenant in
    let outpoint = a.spends_open in let asset = a.same_asset in cc

-- One step takes back one spend, and sets the score.
step-back :
    (sha256 : List ℕ → Bytes32) (e : IndexedCovenant) (s : Spend) (daa : ℕ)
    → Accepts sha256 e s
    → s.new_state.version ≡ e.latest_state.version
    → e.latest_state.chain_id ≡ e.chain_id
    → e.latest_state.covenant_id ≡ e.covenant_id
    → rollback_loop (suc zero) (record (advance_entry e s) { last_update_daa_score = daa })
      ≡ ok (record e { last_update_daa_score = s.daa_score - 1 })
unfolding rollback_loop advance_entry
step-back sha256 e s daa a v c k =
    loop-pop zero (record (advance_entry e s) { last_update_daa_score = daa }) e.spend_history
      (spend_entry e s) (pop-snoc e.spend_history (spend_entry e s))
    ∙ ap ok (revert-advance sha256 e s daa a v c k)

loop-undoes :
    (sha256 : List ℕ → Bytes32) (version : ℕ) (ss : List Spend) (e e' : IndexedCovenant)
    → apply_spends sha256 ss e ≡ ok e'
    → All (λ s. s.new_state.version ≡ version) ss
    → e.latest_state.version ≡ version
    → e.latest_state.chain_id ≡ e.chain_id
    → e.latest_state.covenant_id ≡ e.covenant_id
    → rollback_loop (length ss) e' ≡ ok (record e { last_update_daa_score = score_before ss e })
unfolding apply_spends rollback_loop advance_entry
loop-undoes sha256 version [] e e' h vs v c k = ap ok (sym (ok_of h))
loop-undoes sha256 version (s ∷ ss) e e' h vs v c k =
    let (e1, h1, h2) = >>=-eq-ok (apply_spend_to_entry sha256 e s) _ h in
    let (a, same) = apply_sound sha256 e s h1 in
    let ih =
      loop-undoes sha256 version ss (advance_entry e s) e' (rw same at h2) vs.1 vs.0
        (sym a.same_chain) (sym a.same_covenant) in
    loop-last (length ss) e' _ ih
    ∙ step-back sha256 e s (score_before ss (advance_entry e s)) a (vs.0 ∙ sym v) c k

history-length :
    (sha256 : List ℕ → Bytes32) (ss : List Spend) (e e' : IndexedCovenant)
    → apply_spends sha256 ss e ≡ ok e'
    → length e'.spend_history ≡ length e.spend_history + length ss
unfolding apply_spends advance_entry
history-length sha256 [] e e' h = rw (← ok_of h) (omega arith)
history-length sha256 (s ∷ ss) e e' h =
    let (e1, h1, h2) = >>=-eq-ok (apply_spend_to_entry sha256 e s) _ h in
    let (a, same) = apply_sound sha256 e s h1 in
    let grown = length-append e.spend_history (spend_entry e s ∷ []) in
    let ih = history-length sha256 ss (advance_entry e s) e' (rw same at h2) in
    omega (arith, grown, ih)

-- Spends that are applied one after the other to an entry whose latest state is on its chain and covenant,
-- none of which changes the state's version, are undone by a rollback of their number: it succeeds and
-- gives back every field of the entry but the score, which is one less (or 0) than that of the oldest spend
-- taken back, and the entry's own where there is none.
pub rollback_undoes_spends :
    (sha256 : List ℕ → Bytes32) (ss : List Spend) (e e' : IndexedCovenant)
    → apply_spends sha256 ss e ≡ ok e'
    → All (λ s. s.new_state.version ≡ e.latest_state.version) ss
    → e.latest_state.chain_id ≡ e.chain_id
    → e.latest_state.covenant_id ≡ e.covenant_id
    → rollback_entry (length ss) e' ≡ ok (record e { last_update_daa_score = score_before ss e })
unfolding rollback_entry
rollback_undoes_spends sha256 ss e e' h vs c k =
    let enough : length ss ≤ length e'.spend_history =
      omega (arith, history-length sha256 ss e e' h) in
    rw (ensure-of (dec_le (length ss) (length e'.spend_history)) _ enough)
      (loop-undoes sha256 e.latest_state.version ss e e' h vs refl c k)

-- The loop has an entry for each of its rounds.
loop-total :
    (n : ℕ) (e : IndexedCovenant)
    → n ≤ length e.spend_history
    → (e' : IndexedCovenant) × (rollback_loop n e ≡ ok e')
      × (length e'.spend_history + n ≡ length e.spend_history)
unfolding rollback_loop revert_entry
loop-total zero e h = (e, refl, omega arith)
loop-total (suc n) e h = elim (Option-cases (pop e.spend_history)) [
  | inl p ↦
      let none_left = ap length (pop-eq_none e.spend_history p) in
      absurd (omega (arith, h, none_left))
  | inr ((rest, s), p) ↦
      let one_less = ap length (pop-eq_some e.spend_history p) ∙ length-append rest (s ∷ []) in
      let (e', r, l) = loop-total n (revert_entry e rest s) (omega (arith, one_less)) in
      (e', loop-pop n e rest s p ∙ r, omega (arith, one_less, l))
]

-- A rollback succeeds exactly when it asks for no more spends than the history holds: it then takes that
-- many off, and otherwise it is the error that names both numbers.
pub rollback_entry_total :
    (depth : ℕ) (e : IndexedCovenant)
    → (depth ≤ length e.spend_history
        → (e' : IndexedCovenant) × (rollback_entry depth e ≡ ok e')
          × (length e'.spend_history + depth ≡ length e.spend_history))
      × (¬ (depth ≤ length e.spend_history)
          → rollback_entry depth e ≡ err (rollback_too_deep depth (length e.spend_history)))
unfolding rollback_entry
rollback_entry_total depth e = (
  λ h.
      let (e', r, l) = loop-total depth e h in
      (e', rw (ensure-of (dec_le depth (length e.spend_history)) _ h) r, l),
  λ h. rw (ensure-fails (dec_le depth (length e.spend_history)) _ h),
)
