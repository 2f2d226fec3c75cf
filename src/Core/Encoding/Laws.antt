-- ===== src/Core/Encoding/Laws.antt =====
-- How decoders read: `Reads m a bs` says that `m` reads the value `a` from the bytes `bs` wherever they
-- stand, and `Took r bs r'` that the way from `r` to `r'` went over `bs`.
use rgk.Prelude.{
  ℕ, ◌+◌, ◌≤◌, ◌<◌, ◌≡◌, refl, sym, ap, subst, ◌∙◌, List, [], ◌++◌, some, take, drop, length,
  length-append, length-drop, take-append, drop-append, take-append-drop, length-take, drop-drop,
  append_assoc, All, All-append, All-drop, ok, ok_or, ok_or-eq-ok, passed, ensure-of, dec_le, arith,
}
use rgk.Prelude.Results
use rgk.Core.Error.{eof}
use rgk.Core.Bytes.{IsByte}
use rgk.Core.Encoding.{Reader, Decoder, advance, ◌>>=◌, pure, checked_add, take_bytes, usize_mod}
use mathlib.Core.Logic.{if_pos}
use mathlib.Core.Path.{subst₂}
use native.Mathlib.Nat.{add-zero, add_assoc}

abbrev pub rest_of : Reader → List ℕ
rest_of r = drop r.pos r.buf

-- A slice in memory with the cursor inside it.
pub record IsInMemory (r : Reader) : Type 0 where
  pub inside : r.pos ≤ length r.buf
  pub fits : length r.buf < usize_mod
  pub bytes : All IsByte r.buf

pub record Took (r : Reader) (bs : List ℕ) (r' : Reader) : Type 0 where
  pub went : r' ≡ advance (length bs) r
  pub over : rest_of r ≡ bs ++ rest_of r'
  pub still : IsInMemory r'

advance-zero : (r : Reader) → r ≡ advance 0 r
advance-zero r = ap (λ p. record r { pos = p }) (sym (add-zero r.pos))

pub advance-advance : (m n : ℕ) (r : Reader) → advance n (advance m r) ≡ advance (m + n) r
advance-advance m n r = ap (λ p. record r { pos = p }) (add_assoc r.pos m n)

pub Took-refl : (r : Reader) → IsInMemory r → Took r [] r
Took-refl r h = record { went = advance-zero r; over = refl; still = h }

pub Took-trans : {r s t : Reader} (bs cs : List ℕ) → Took r bs s → Took s cs t → Took r (bs ++ cs) t
Took-trans {r} bs cs p q = record {
  went =
      q.went
      ∙ ap (advance (length cs)) p.went
      ∙ rw length-append (advance-advance (length bs) (length cs) r);
  over = p.over ∙ rw (q.over, append_assoc);
  still = q.still;
}

-- Where `bs` stands next there is room for it.
room :
    (r : Reader) (bs rest : List ℕ)
    → IsInMemory r
    → rest_of r ≡ bs ++ rest
    → r.pos + length bs ≤ length r.buf
room r bs rest h e =
    omega (arith, h.inside, ap length e, length-drop r.pos r.buf, length-append bs rest)

pub rest_of-advance :
    (r : Reader) (bs rest : List ℕ)
    → rest_of r ≡ bs ++ rest
    → rest_of (advance (length bs) r) ≡ rest
rest_of-advance r bs rest e =
    sym (drop-drop r.pos (length bs) r.buf) ∙ ap (drop (length bs)) e ∙ drop-append bs rest

-- Going over what stands next is a `Took`.
pub advance-Took :
    (r : Reader) (bs rest : List ℕ)
    → IsInMemory r
    → rest_of r ≡ bs ++ rest
    → Took r bs (advance (length bs) r)
advance-Took r bs rest h e = record {
  went = refl;
  over = rw (rest_of-advance r bs rest e) e;
  still = record { inside = room r bs rest h e; fits = h.fits; bytes = h.bytes };
}

pub record Reads {ℓ} {A : Type ℓ} (m : Decoder A) (a : A) (bs : List ℕ) : Type ℓ where
  pub at :
      (r : Reader) (rest : List ℕ)
      → IsInMemory r
      → rest_of r ≡ bs ++ rest
      → m r ≡ ok (a, advance (length bs) r)

checked_add-of : (a b : ℕ) → a + b < usize_mod → checked_add a b ≡ some (a + b)
unfolding checked_add
checked_add-of a b h = rw (if_pos _ h)

pub take_bytes-Reads : (bs : List ℕ) → Reads (take_bytes (length bs)) bs bs
unfolding take_bytes
take_bytes-Reads bs = record {
  at = λ r rest h e.
      let fit = room r bs rest h e in
      rw (
        checked_add-of r.pos (length bs) (omega (arith, fit, h.fits)),
        ensure-of (dec_le (r.pos + length bs) (length r.buf)) eof fit,
        e,
        take-append bs rest,
      );
}

checked_add-eq_some : (a b : ℕ) {c : ℕ} → checked_add a b ≡ some c → c ≡ a + b
unfolding checked_add
checked_add-eq_some a b h = ground arith

-- The slice that `take_bytes` cuts out.
slice_lem :
    (n : ℕ) (r : Reader)
    → IsInMemory r
    → r.pos + n ≤ length r.buf
    → let bs = take n (rest_of r) in (length bs ≡ n) × All IsByte bs × Took r bs (advance n r)
slice_lem n r h fit =
    let bs = take n (rest_of r) in
    let wide : length bs ≡ n = length-take n (rest_of r) (omega (arith, length-drop r.pos r.buf)) in
    let split : bs ++ drop n (rest_of r) ≡ rest_of r = take-append-drop n (rest_of r) in
    let all : All IsByte (bs ++ drop n (rest_of r)) =
      rw split (All-drop IsByte r.pos r.buf h.bytes) in
    (
      wide,
      (All-append IsByte bs (drop n (rest_of r)) all).0,
      subst (λ k. Took r bs (advance k r)) wide
          (advance-Took r bs (drop n (rest_of r)) h (sym split)),
    )

pub take_bytes-Took :
    (n : ℕ) (r : Reader) {bs : List ℕ} {r' : Reader}
    → IsInMemory r
    → take_bytes n r ≡ ok (bs, r')
    → (length bs ≡ n) × All IsByte bs × Took r bs r'
unfolding take_bytes
take_bytes-Took n r {bs} {r'} h e =
    let (end, sum, e') = Results.>>=-eq-ok (ok_or (checked_add r.pos n) eof) _ e in
    let (fit, e'') = passed (dec_le end (length r.buf)) eof e' in
    let at : end ≡ r.pos + n =
      checked_add-eq_some r.pos n (ok_or-eq-ok (checked_add r.pos n) eof sum) in
    let same : take n (rest_of r) ≡ bs = cc e'' in
    let next : advance n r ≡ r' = cc e'' in
    subst₂ (λ cs s. (length cs ≡ n) × All IsByte cs × Took r cs s) same next
      (slice_lem n r h (omega arith))

module _ {ℓ κ} {A : Type ℓ} {B : Type κ} where
  pub Reads-bind :
      (m : Decoder A) (k : A → Decoder B) {a : A} {b : B} {bs cs : List ℕ}
      → Reads m a bs
      → Reads (k a) b cs
      → Reads (m >>= k) b (bs ++ cs)
  Reads-bind m k {a} {b} {bs} {cs} p q = record {
    at = λ r rest h e.
        let e' = e ∙ append_assoc bs cs rest in
        rw (p.at r (cs ++ rest) h e') (
          q.at (advance (length bs) r) rest (advance-Took r bs (cs ++ rest) h e').still
            (rest_of-advance r bs (cs ++ rest) e')
          ∙ ap (λ s. ok (b, s)) (rw length-append (advance-advance (length bs) (length cs) r)));
  }

  pub >>=-inv :
      (m : Decoder A) (k : A → Decoder B) (r : Reader) {b : B} {t : Reader}
      → (m >>= k) r ≡ ok (b, t)
      → (a : A) × (s : Reader) × (m r ≡ ok (a, s)) × (k a s ≡ ok (b, t))
  >>=-inv m k r e = let ((a, s), p, q) = Results.>>=-eq-ok (m r) (λ v. k v.0 v.1) e in (a, s, p, q)

pub Reads-pure {ℓ} : {A : Type ℓ} (a : A) → Reads (pure a) a []
Reads-pure a = record { at = λ r rest h e. ap (λ s. ok (a, s)) (advance-zero r) }
