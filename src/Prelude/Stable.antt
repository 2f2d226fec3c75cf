-- ===== src/Prelude/Stable.antt =====
-- The sorted list depends neither on the order nor on the way of sorting, where no two keys are equal.
use mathlib.Core.Path.{◌≡◌, refl, sym, ap, ◌∙◌}
use mathlib.Core.Bool.{true, false, false≢true, Bool-set}
use mathlib.Core.Logic.{◌≢◌, ◌↔◌, inl, inr}
use mathlib.Core.Logic.Or
use mathlib.Core.HLevel.{⊥_prop, ¬_prop}
use mathlib.Core.List.{
  List, [], ◌∷◌, map, Mem, Perm, Nodup, Nodup-cons, Nodup-nil, mem-cons, mem-cons_self, not-mem-nil,
}
use mathlib.Core.List.Perm
use native.Mathlib.Omega.{arith}
use rgk.Prelude.Equality.{PartialEq, ◌≟◌}
use Prim.Native.Nat.{suc}
use rgk.Prelude.Lists.{length, All, All-imp, Bool-cases}
use rgk.Prelude.Contains.{Distinct}
use rgk.Prelude.Maps.{Ord}
use rgk.Prelude.Sorts.{insert_by_key, sort_by_key}
use rgk.Prelude.Linear.{IsLinear}

module _ {ℓ} {A : Type ℓ} where
  -- What holds of all elements holds of each.
  pub All-Mem {κ} :
      {P : A → Type κ}
      → ((x : A) → IsProp (P x))
      → (xs : List A) → All P xs
      → (a : A) → Mem a xs
      → P a
  All-Mem p [] h a m = absurd (not-mem-nil m)
  All-Mem {P} p (x ∷ xs) h a m = Or.elim (p a) (mem-cons.0 m) (λ e. rw e h.0) (All-Mem p xs h.1 a)

  All-of_Mem {κ} : {P : A → Type κ} (xs : List A) → ((a : A) → Mem a xs → P a) → All P xs
  All-of_Mem [] f = tt
  All-of_Mem (x ∷ xs) f = (f x mem-cons_self, All-of_Mem xs (λ a m. f a (mem-cons.1 (Or.inr m))))

  Distinct-Nodup : (xs : List A) → Distinct xs ↔ Nodup xs
  Distinct-Nodup [] = (λ _. Nodup-nil, λ _. tt)
  Distinct-Nodup (x ∷ xs) = (
    λ (n, d). Nodup-cons.1 (λ m. All-Mem (λ y. ¬_prop) xs n x m refl, (Distinct-Nodup xs).0 d),
    λ h.
        let (n, d) = Nodup-cons.0 h in
        (All-of_Mem xs (λ a m e. n (rw e m)), (Distinct-Nodup xs).1 d),
  )

  pub Distinct-perm : {xs ys : List A} → Perm xs ys → Distinct xs → Distinct ys
  Distinct-perm {xs} {ys} p d = (Distinct-Nodup ys).1 (Perm.nodup p ((Distinct-Nodup xs).0 d))

  All-Perm {κ} :
      {P : A → Type κ}
      → ((x : A) → IsProp (P x))
      → {xs ys : List A} → Perm xs ys
      → All P xs
      → All P ys
  All-Perm p {xs} {ys} same h = All-of_Mem ys (λ a m. All-Mem p xs h a ((Perm.mem_iff same).1 m))

module _ {ℓ κ} {A : Type ℓ} {K : Type κ} ⦃o : Ord K⦄ (key : A → K) where
  -- Every element has a smaller key than each that follows.
  abbrev Rising : List A → Type ℓ
  Rising [] = Unit {ℓ}
  Rising (x ∷ xs) = All (λ y. o.lt (key x) (key y) ≡ true) xs × Rising xs

  insert-perm : (x : A) (xs : List A) → Perm (insert_by_key key x xs) (x ∷ xs)
  unfolding insert_by_key
  insert-perm x [] = Perm.rfl
  insert-perm x (y ∷ ys) = elim (Bool-cases (o.lt (key y) (key x))) [
    | inl h ↦ rw h (Perm.trans (Perm.cons y (insert-perm x ys)) (Perm.swap x y ys))
    | inr h ↦ rw h Perm.rfl
  ]

  pub sort-perm : (xs : List A) → Perm (sort_by_key key xs) xs
  unfolding sort_by_key
  sort-perm [] = Perm.rfl
  sort-perm (x ∷ xs) = Perm.trans (insert-perm x (sort_by_key key xs)) (Perm.cons x (sort-perm xs))

  insert-All {μ} :
      (P : A → Type μ) (x : A) (xs : List A) → P x → All P xs → All P (insert_by_key key x xs)
  unfolding insert_by_key
  insert-All P x [] p h = (p, tt)
  insert-All P x (y ∷ ys) p h = elim (Bool-cases (o.lt (key y) (key x))) [
    | inl e ↦ rw e (h.0, insert-All P x ys p h.1)
    | inr e ↦ rw e (p, h)
  ]

  pub sort-All {μ} : (P : A → Type μ) (xs : List A) → All P xs → All P (sort_by_key key xs)
  unfolding sort_by_key
  sort-All P [] h = tt
  sort-All P (x ∷ xs) h = insert-All P x (sort_by_key key xs) h.0 (sort-All P xs h.1)

  length-insert : (x : A) (xs : List A) → length (insert_by_key key x xs) ≡ suc (length xs)
  unfolding insert_by_key
  length-insert x [] = refl
  length-insert x (y ∷ ys) = ground (arith, length-insert x ys)

  pub length-sort : (xs : List A) → length (sort_by_key key xs) ≡ length xs
  unfolding sort_by_key
  length-sort [] = refl
  length-sort (x ∷ xs) = length-insert x (sort_by_key key xs) ∙ ap suc (length-sort xs)

  module _ (linear : IsLinear K) where
    lt_of_ne : (j k : K) → j ≢ k → o.lt k j ≡ false → o.lt j k ≡ true
    lt_of_ne j k n h = elim (Bool-cases (o.lt j k)) [
      | inl e ↦ e
      | inr e ↦ absurd (n (linear.total j k e h))
    ]

    asymm : (j k : K) → o.lt j k ≡ true → o.lt k j ≡ true → ⊥
    asymm j k p q = false≢true (sym (linear.irrefl j) ∙ linear.trans j k j p q)

    insert-Rising :
        (x : A) (xs : List A)
        → All (λ y. key x ≢ key y) xs
        → Rising xs
        → Rising (insert_by_key key x xs)
    unfolding insert_by_key
    insert-Rising x [] n r = (tt, tt)
    insert-Rising x (y ∷ ys) n r = elim (Bool-cases (o.lt (key y) (key x))) [
      | inl h ↦ rw h (
        All-Perm (λ z. Bool-set _ _) (Perm.symm (insert-perm x ys)) (h, r.0),
        insert-Rising x ys n.1 r.1,
      )
      | inr h ↦
          let below = lt_of_ne (key x) (key y) n.0 h in
          rw h ((below, All-imp ys (λ z p. linear.trans (key x) (key y) (key z) below p) r.0), r)
    ]

    sort-Rising : (xs : List A) → Distinct (map key xs) → Rising (sort_by_key key xs)
    unfolding sort_by_key
    sort-Rising [] d = tt
    sort-Rising (x ∷ xs) d =
        insert-Rising x (sort_by_key key xs)
          (All-Perm (λ y. ¬_prop) (Perm.symm (sort-perm xs)) (All-of_map xs d.0))
          (sort-Rising xs d.1)
      where
        All-of_map : (ys : List A) → All (λ k. key x ≢ k) (map key ys) → All (λ y. key x ≢ key y) ys
        All-of_map [] h = tt
        All-of_map (y ∷ ys) h = (h.0, All-of_map ys h.1)

    module _ ⦃e : PartialEq A⦄ where
      -- In two rising lists of the same elements the heads agree.
      same_head :
          (a b : A) (l r : List A) → Rising (a ∷ l) → Rising (b ∷ r) → Perm (a ∷ l) (b ∷ r) → a ≡ b
      same_head a b l r p q same = elim (a ≟ b) [
        | yes h ↦ h
        | no n ↦ absurd (
            Or.elim ⊥_prop (mem-cons.0 ((Perm.mem_iff same).0 mem-cons_self)) (λ h. n h)
              (λ m.
                Or.elim ⊥_prop (mem-cons.0 ((Perm.mem_iff same).1 mem-cons_self)) (λ h. n (sym h))
                  (λ k.
                    asymm (key a) (key b) (All-Mem (λ z. Bool-set _ _) l p.0 b k)
                      (All-Mem (λ z. Bool-set _ _) r q.0 a m))))
      ]

      Rising-unique : (xs ys : List A) → Rising xs → Rising ys → Perm xs ys → xs ≡ ys
      Rising-unique [] ys p q same = Perm.nil-eq same
      Rising-unique (a ∷ l) [] p q same = Perm.eq-nil same
      Rising-unique (a ∷ l) (b ∷ r) p q same =
          let h = same_head a b l r p q same in
          let rest = Perm.cons_inv (rw (← h) at same) in cc (h, Rising-unique l r p.1 q.1 rest)

      -- Two arrangements of the same elements, no two with one key, are sorted to the same list.
      pub sort_by_key-of_Perm :
          (xs ys : List A)
          → Distinct (map key xs)
          → Perm xs ys
          → sort_by_key key xs ≡ sort_by_key key ys
      sort_by_key-of_Perm xs ys d same =
          Rising-unique (sort_by_key key xs) (sort_by_key key ys) (sort-Rising xs d)
            (sort-Rising ys (Distinct-perm (Perm.map key same) d))
            (Perm.trans (sort-perm xs) (Perm.trans same (Perm.symm (sort-perm ys))))
