-- ===== src/Receipt/Replay.antt =====
-- The set of accepted receipt ids.
use rgk.Prelude.{
  ◌+◌, ◌≡◌, ◌≢◌, false, [], ◌∷◌, ◌++◌, length-append, ok, err, contains, contains_absent,
  contains-snoc_self, contains-snoc_ne, Distinct, Distinct-snoc, list_eq, nat_eq, arith,
}
use rgk.Core.Bytes.{Bytes32}
use rgk.Receipt.{ReplaySet, replay, record_id, contains_id, seen_count}

record_id-inv :
    (id : Bytes32) (s t : ReplaySet)
    → record_id id s ≡ ok t
    → (contains s.seen id ≡ false) × (t ≡ record s { seen = s.seen ++ (id ∷ []) })
unfolding record_id
record_id-inv id s t e = ground arith

-- An id that is recorded was new; it is then in the set and is refused as a replay the second time, the
-- set has grown by one, what it says of other ids is unchanged, and it holds no id twice if it held none
-- twice before.
pub record_id_once :
    (id : Bytes32) (s t : ReplaySet)
    → record_id id s ≡ ok t
    → (contains_id s id ≡ false)
      × (record_id id t ≡ err (replay id))
      × ((other : Bytes32) → id ≢ other → contains_id t other ≡ contains_id s other)
      × (seen_count t ≡ seen_count s + 1)
      × (Distinct s.seen → Distinct t.seen)
unfolding record_id contains_id seen_count
record_id_once id s t e =
    let (fresh, same) = record_id-inv id s t e in
    (
      fresh,
      rw (same, contains-snoc_self s.seen id, record_id),
      λ other n. rw same (contains-snoc_ne s.seen other id n),
      rw same (omega (arith, length-append s.seen (id ∷ []))),
      λ d. rw same (Distinct-snoc s.seen id d (contains_absent s.seen id fresh)),
    )
