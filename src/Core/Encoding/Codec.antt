-- ===== src/Core/Encoding/Codec.antt =====
-- A codec: on the values that satisfy `P` a decoder reads back what the encoder wrote, and what it
-- accepts is exactly that encoding. Codecs for the primitives, and the rule for a sequence of fields.
use rgk.Prelude.{
  ℕ, ◌<◌, ◌^◌, ◌≡◌, refl, sym, ap, subst, ◌↔◌, append-nil, List, [], ◌∷◌, ◌++◌, Result, ok, arith,
}
use mathlib.Core.Path.{subst₂}
use rgk.Prelude.Results
use rgk.Core.Error.{DecodeError}
use rgk.Core.Bytes.{IsBytes}
use rgk.Core.Encoding.{
  Reader, Decoder, ◌>>=◌, ◌>>◌, pure, take_bytes, read_array, to_le, from_le, read_u8, read_u16,
  read_u32, read_u64,
}
use rgk.Core.Encoding.Widths.{length-to_le, to_le-from_le, from_le-to_le, from_le-lt, to_le-IsByte}
use rgk.Core.Encoding.Laws.{
  IsInMemory, Took, Took-refl, Took-trans, Reads, Reads-bind, Reads-pure, >>=-inv, take_bytes-Reads,
  take_bytes-Took,
}

pub record IsCodec {A : Type 0} (P : A → Type 0) (bytes : A → List ℕ) (m : Decoder A) : Type 0 where
  pub reads : (a : A) → P a → Reads m a (bytes a)
  pub took :
      (r : Reader) {a : A} {r' : Reader}
      → IsInMemory r
      → m r ≡ ok (a, r')
      → P a × Took r (bytes a) r'

pub array-IsCodec : (n : ℕ) → IsCodec (IsBytes n) (λ b. b) (read_array n)
unfolding read_array
array-IsCodec n = record {
  reads = λ b h. subst (λ k. Reads (take_bytes k) b b) h.width (take_bytes-Reads b);
  took = λ r h e. let (w, bs, t) = take_bytes-Took n r h e in (record { width = w; bytes = bs }, t);
}

Reads-from_le : (k v : ℕ) → v < 256 ^ k → Reads (pure (from_le (to_le k v))) v []
Reads-from_le k v h = rw (from_le-to_le k v h) (Reads-pure v)

-- What `from_le` makes of the bytes read is written back as these bytes.
from_le-Took :
    (k : ℕ) (s : List ℕ) (r t : Reader)
    → IsBytes k s
    → Took r s t
    → (from_le s < 256 ^ k) × Took r (to_le k (from_le s)) t
from_le-Took k s r t h went =
    subst (λ j. (from_le s < 256 ^ j) × Took r (to_le j (from_le s)) t) h.width
      (from_le-lt s h.bytes, rw (to_le-from_le s h.bytes) went)

pub le-IsCodec :
    (k : ℕ) → IsCodec (λ v. v < 256 ^ k) (to_le k) (read_array k >>= λ s. pure (from_le s))
le-IsCodec k = record {
  reads = λ v h. subst (Reads (read_array k >>= λ s. pure (from_le s)) v) (append-nil (to_le k v)) (
      Reads-bind (read_array k) (λ s. pure (from_le s))
        ((array-IsCodec k).reads (to_le k v)
          (record { width = length-to_le k v; bytes = to_le-IsByte k v }))
        (Reads-from_le k v h));
  took = λ r {a} {r'} h e.
      let (s, t, p, q) = >>=-inv (read_array k) (λ s. pure (from_le s)) r e in
      let (typed, went) = (array-IsCodec k).took r h p in
      let value : from_le s ≡ a = cc q in
      let left : t ≡ r' = cc q in
      subst₂ (λ v u. (v < 256 ^ k) × Took r (to_le k v) u) value left
        (from_le-Took k s r t typed went);
}

module _ {A B : Type 0} {P : A → Type 0} {f : A → List ℕ} where
  -- One field `proj`, then the others; `R` says what the fields before it were.
  pub field-IsCodec :
      {Q R : B → Type 0} {g : B → List ℕ} (proj : B → A) (m : Decoder A) (k : A → Decoder B)
      → IsCodec P f m
      → ((a : A) → IsCodec (λ b. Q b × (R b × (proj b ≡ a))) g (k a))
      → IsCodec (λ b. (P (proj b) × Q b) × R b) (λ b. f (proj b) ++ g b) (m >>= k)
  field-IsCodec {Q} {R} {g} proj m k c d = record {
    reads =
        λ b h. Reads-bind m k (c.reads (proj b) h.0.0) ((d (proj b)).reads b (h.0.1, (h.1, refl)));
    took = λ r {a = b} {r'} h e.
        let (a, s, p, q) = >>=-inv m k r e in
        let (pa, t) = c.took r h p in
        let ((qb, (rb, same)), t') = (d a).took s t.still q in
        let first : P (proj b) × Took r (f (proj b)) s =
          subst (λ x. P x × Took r (f x) s) (sym same) (pa, t) in
        (((first.0, qb), rb), Took-trans (f (proj b)) (g b) first.1 t');
  }

module _ {A : Type 0} where
  -- After the last field: the value is known, and is returned.
  pub return-IsCodec :
      {R : A → Type 0} (v : A)
      → R v
      → ((a : A) → R a → a ≡ v)
      → IsCodec (λ a. Unit {0} × R a) (λ _. []) (pure v)
  return-IsCodec {R} v rv unique = record {
    reads = λ a h. rw (unique a h.1) (Reads-pure v);
    took = λ r {a} {r'} h e.
        let value : v ≡ a = cc e in
        let left : r ≡ r' = cc e in
        subst₂ (λ x u. (Unit {0} × R x) × Took r [] u) value left ((tt, rv), Took-refl r h);
  }

  -- The value may be checked before it is returned.
  pub check-IsCodec :
      {R : A → Type 0} {check : A → Result DecodeError (Unit {0})} (v : A)
      → R v
      → ((a : A) → R a → a ≡ v)
      → IsCodec (λ a. (check a ≡ ok tt) × R a) (λ _. []) (check v >> pure v)
  check-IsCodec {R} {check} v rv unique = record {
    reads = λ a h.
        let good : check v ≡ ok tt = subst (λ x. check x ≡ ok tt) (unique a h.1) h.0 in
        rw (unique a h.1) (record { at = λ r rest m e. rw good ((Reads-pure v).at r rest m e) });
    took = λ r {a} {r'} h e.
        let (u, good, e') = Results.>>=-eq-ok (check v) _ e in
        let value : v ≡ a = cc e' in
        let left : r ≡ r' = cc e' in
        subst₂ (λ x u. ((check x ≡ ok tt) × R x) × Took r [] u) value left
          ((good, rv), Took-refl r h);
  }

  -- The same codec under an equivalent condition and an equal encoding.
  pub same-IsCodec :
      {P Q : A → Type 0} {f g : A → List ℕ} {m : Decoder A}
      → ((a : A) → P a ↔ Q a)
      → ((a : A) → P a → f a ≡ g a)
      → IsCodec P f m
      → IsCodec Q g m
  same-IsCodec {P} {Q} {f} {g} {m} to eq c = record {
    reads = λ a q. subst (Reads m a) (eq a ((to a).1 q)) (c.reads a ((to a).1 q));
    took = λ r {a} {r'} h e.
        let (p, t) = c.took r h e in ((to a).0 p, subst (λ bs. Took r bs r') (eq a p) t);
  }

same : (P : ℕ → Type 0) (v : ℕ) → P v ↔ P v
same P v = (λ h. h, λ h. h)

one_byte : (v : ℕ) → v < 256 ^ 1 → to_le 1 v ≡ v ∷ []
unfolding to_le
one_byte v h = ap (λ b. b ∷ []) (omega arith)

pub u8-IsCodec : IsCodec (λ v. v < 256 ^ 1) (λ v. v ∷ []) read_u8
unfolding read_u8 read_array
u8-IsCodec = same-IsCodec (same (λ v. v < 256 ^ 1)) one_byte (le-IsCodec 1)

pub u16-IsCodec : IsCodec (λ v. v < 256 ^ 2) (to_le 2) read_u16
unfolding read_u16
u16-IsCodec = le-IsCodec 2

pub u32-IsCodec : IsCodec (λ v. v < 256 ^ 4) (to_le 4) read_u32
unfolding read_u32
u32-IsCodec = le-IsCodec 4

pub u64-IsCodec : IsCodec (λ v. v < 256 ^ 8) (to_le 8) read_u64
unfolding read_u64
u64-IsCodec = le-IsCodec 8
