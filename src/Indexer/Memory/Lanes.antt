-- ===== src/Indexer/Memory/Lanes.antt =====
-- The index of the lanes by scan tag.
use rgk.Prelude.{
  ◌≡◌, ◌≢◌, refl, sym, ap, ◌∙◌, Option, none, some, some_of, none-some, Option-cases, inl, inr, ok,
  ok_of, >>=-eq-ok, passed, avoided, not_rejected, ok_or, ok_or-eq-ok, ◌≟◌, nat_eq, list_eq,
  BTreeMap, get, insert, remove, bytes_ord, ForEach, ForEach-insert, get-insert_self, get-insert_ne,
  get-remove_self, get-remove_ne, arith,
}
use rgk.Core.Bytes.{Bytes32, zero32}
use rgk.Core.Chain.{chain_eq}
use rgk.Indexer.Records.{not_indexed, IndexedCovenant, IndexedLane}
use rgk.Indexer.Memory.{
  InMemoryIndexer, check_tag, validate_indexed_lane, drop_tag, set_tag, register_lane, lane_by_id,
  lane_by_scan_tag,
}

-- A lane is stored under its id, and a tag leads to a lane that has it.
pub record IsLaneIndex (lanes : BTreeMap Bytes32 IndexedLane) (tags : BTreeMap Bytes32 Bytes32)
    : Type 0 where
  pub ids : ForEach (λ id l. l.lane_id ≡ id) lanes
  pub found :
      ForEach (λ t id. (l : IndexedLane) × (get lanes id ≡ some l) × (l.scan_tag ≡ some t)) tags

module _ (lanes : BTreeMap Bytes32 IndexedLane) (tags : BTreeMap Bytes32 Bytes32) (l : IndexedLane)
    (h : IsLaneIndex lanes tags) where
  abbrev Found : Bytes32 → Bytes32 → Type 0
  Found t id =
      (k : IndexedLane) × (get (insert l.lane_id l lanes) id ≡ some k) × (k.scan_tag ≡ some t)

  -- A tag that leads elsewhere than to the lane that is replaced still leads to a lane that has it.
  elsewhere : (t id : Bytes32) → l.lane_id ≢ id → get tags t ≡ some id → Found t id
  elsewhere t id n g =
      let (k, p, q) = h.found t id g in (k, get-insert_ne l.lane_id id l lanes n ∙ p, q)

  -- The lane that is replaced loses its tag.
  dropped-Found :
      (old : Option IndexedLane) → get lanes l.lane_id ≡ old → ForEach Found (drop_tag old tags)
  unfolding drop_tag
  dropped-Found none e t id g = elim (l.lane_id ≟ id) [
    | yes p ↦ let (k, q, _) = h.found t id g in absurd (none-some (sym e ∙ rw (← p) at q))
    | no n ↦ elsewhere t id n g
  ]
  dropped-Found (some old) e t id g = elim (Option-cases old.scan_tag) [
    | inl u ↦
        let g' : get tags t ≡ some id = rw (u, drop_tag) at g in
        elim (l.lane_id ≟ id) [
          | yes p ↦
              let (k, q, r) = h.found t id g' in
              let same : old ≡ k = some_of (sym e ∙ rw (← p) at q) in
              absurd (none-some (sym u ∙ ap (λ x. x.scan_tag) same ∙ r))
          | no n ↦ elsewhere t id n g'
        ]
    | inr (tag, u) ↦
        let g' : get (remove tag tags) t ≡ some id = rw (u, drop_tag) at g in
        elim (tag ≟ t) [
          | yes p ↦ absurd (none-some (sym (get-remove_self tag tags) ∙ rw (← p) at g'))
          | no m ↦
              let g'' : get tags t ≡ some id = sym (get-remove_ne tag t tags m) ∙ g' in
              elim (l.lane_id ≟ id) [
                | yes p ↦
                    let (k, q, r) = h.found t id g'' in
                    let same : old ≡ k = some_of (sym e ∙ rw (← p) at q) in
                    absurd (m (some_of (sym u ∙ ap (λ x. x.scan_tag) same ∙ r)))
                | no n ↦ elsewhere t id n g''
              ]
        ]
  ]

  set-Found :
      (m : BTreeMap Bytes32 Bytes32) (tag : Option Bytes32)
      → l.scan_tag ≡ tag
      → ForEach Found m
      → ForEach Found (set_tag tag l.lane_id m)
  unfolding set_tag
  set-Found m none e f = f
  set-Found m (some t) e f =
      ForEach-insert Found t l.lane_id m f (l, get-insert_self l.lane_id l lanes, e)

  pub register-IsLaneIndex :
      IsLaneIndex
        (insert l.lane_id l lanes)
        (set_tag l.scan_tag l.lane_id (drop_tag (get lanes l.lane_id) tags))
  register-IsLaneIndex = record {
    ids = ForEach-insert (λ id k. k.lane_id ≡ id) l.lane_id l lanes h.ids refl;
    found = set-Found _ l.scan_tag refl (dropped-Found (get lanes l.lane_id) refl);
  }

-- A lane that describes the latest state of its covenant.
pub record IsLaneOf (e : IndexedCovenant) (l : IndexedLane) : Type 0 where
  pub id_set : l.lane_id ≢ zero32
  pub digest_set : l.state_digest ≢ zero32
  pub tag_set : (t : Bytes32) → l.scan_tag ≡ some t → t ≢ zero32
  pub same_chain : l.chain_id ≡ e.chain_id
  pub same_covenant : l.covenant_id ≡ e.covenant_id
  pub same_asset : l.asset_id ≡ e.latest_state.asset_id
  pub same_digest : l.state_digest ≡ e.latest_state.state_digest
  pub same_score : l.last_update_daa_score ≡ e.last_update_daa_score

check_tag_sound :
    (tag : Option Bytes32) → check_tag tag ≡ ok tt → (t : Bytes32) → tag ≡ some t → t ≢ zero32
unfolding check_tag
check_tag_sound none h t e = absurd (none-some e)
check_tag_sound (some u) h t e = rw (← some_of e) (not_rejected (u ≟ zero32) _ h)

pub validate_lane_sound :
    (e : IndexedCovenant) (l : IndexedLane) → validate_indexed_lane e l ≡ ok tt → IsLaneOf e l
unfolding validate_indexed_lane
validate_lane_sound e l h =
    let (a, h1) = avoided (l.lane_id ≟ zero32) _ h in
    let (b, h2) = avoided (l.state_digest ≟ zero32) _ h1 in
    let (_, c, h3) = >>=-eq-ok (check_tag l.scan_tag) _ h2 in
    let (d, h4) = passed (l.chain_id ≟ e.chain_id) _ h3 in
    let (f, h5) = passed (l.covenant_id ≟ e.covenant_id) _ h4 in
    let (g, h6) = passed (l.asset_id ≟ e.latest_state.asset_id) _ h5 in
    let (i, h7) = passed (l.state_digest ≟ e.latest_state.state_digest) _ h6 in
    let (j, _) = passed (l.last_update_daa_score ≟ e.last_update_daa_score) _ {k = ok tt} h7 in
    record {
      id_set = a;
      digest_set = b;
      tag_set = check_tag_sound l.scan_tag c;
      same_chain = d;
      same_covenant = f;
      same_asset = g;
      same_digest = i;
      same_score = j;
    }

pub register_lane-inv :
    (l : IndexedLane) (s : InMemoryIndexer) {t : InMemoryIndexer}
    → register_lane l s ≡ ok t
    → (e : IndexedCovenant) × (get s.map l.covenant_id ≡ some e)
      × IsLaneOf e l
      × (t ≡ record s {
        lanes = insert l.lane_id l s.lanes;
        lane_scan_tags =
            set_tag l.scan_tag l.lane_id (drop_tag (get s.lanes l.lane_id) s.lane_scan_tags);
      })
unfolding register_lane
register_lane-inv l s h =
    let (e, p, h1) = >>=-eq-ok (ok_or (get s.map l.covenant_id) (not_indexed l.covenant_id)) _ h in
    let (_, v, h2) = >>=-eq-ok (validate_indexed_lane e l) _ h1 in
    (e, ok_or-eq-ok _ _ p, validate_lane_sound e l v, sym (ok_of h2))

set_tag-found :
    (tag : Option Bytes32) (t id : Bytes32) (m : BTreeMap Bytes32 Bytes32)
    → tag ≡ some t
    → get (set_tag tag id m) t ≡ some id
unfolding set_tag
set_tag-found none t id m e = absurd (none-some e)
set_tag-found (some u) t id m e = rw (some_of e) (get-insert_self t id m)

lane_by_scan_tag-found :
    (t id : Bytes32) (l : IndexedLane) (s : InMemoryIndexer)
    → get s.lane_scan_tags t ≡ some id
    → get s.lanes id ≡ some l
    → lane_by_scan_tag t s ≡ some l
unfolding lane_by_scan_tag
lane_by_scan_tag-found t id l s e f = ground arith

-- A lane that is registered describes the latest state of its covenant, which is indexed: same chain, asset,
-- digest and score, and no zero id, digest or tag. It is then found by its id and, where it has a tag, by its
-- tag, and every other id finds the lane that it found before.
pub register_lane_lookup :
    (l : IndexedLane) (s t : InMemoryIndexer)
    → register_lane l s ≡ ok t
    → ((e : IndexedCovenant) × (get s.map l.covenant_id ≡ some e) × IsLaneOf e l)
      × (lane_by_id l.lane_id t ≡ some l)
      × ((tag : Bytes32) → l.scan_tag ≡ some tag → lane_by_scan_tag tag t ≡ some l)
      × ((id : Bytes32) → l.lane_id ≢ id → lane_by_id id t ≡ lane_by_id id s)
unfolding lane_by_id
register_lane_lookup l s t h =
    let (e, p, v, same) = register_lane-inv l s h in
    let here = get-insert_self l.lane_id l s.lanes in
    let tags = drop_tag (get s.lanes l.lane_id) s.lane_scan_tags in
    rw same (
      (e, p, v),
      here,
      λ tag q.
          lane_by_scan_tag-found tag l.lane_id l _ (set_tag-found l.scan_tag tag l.lane_id tags q)
            here,
      λ id n. get-insert_ne l.lane_id id l s.lanes n,
    )
