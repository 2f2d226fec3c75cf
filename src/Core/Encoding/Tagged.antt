-- ===== src/Core/Encoding/Tagged.antt =====
-- Codecs for the enums of the format, and guards inside a decoder.
use rgk.Prelude.{
  ℕ, ◌<◌, ◌≡◌, refl, subst, inl, inr, Option, some, Option-cases, List, [], ◌∷◌, Result, ok, ok_or,
  ensure, ensure-of, passed, ◌≟◌, nat_eq, arith,
}
use mathlib.Core.Path.{subst₂}
use rgk.Prelude.Results
use rgk.Core.Error.{DecodeError, bad_domain_tag}
use rgk.Core.Encoding.{Reader, Decoder, ◌>>=◌, ◌>>◌, lift, read_u8}
use rgk.Core.Encoding.Laws.{Took, Took-trans, Reads, Reads-bind, Reads-pure, >>=-inv}
use rgk.Core.Encoding.Codec.{IsCodec, u8-IsCodec}

module _ {A : Type 0} (g : Result DecodeError (Unit {0})) (m : Decoder A) where
  pub Reads-guard : {a : A} {bs : List ℕ} → g ≡ ok tt → Reads m a bs → Reads (g >> m) a bs
  Reads-guard good h = record { at = λ r rest v e. rw good (h.at r rest v e) }

  pub guard-inv :
      (r : Reader) {a : A} {t : Reader} → (g >> m) r ≡ ok (a, t) → (g ≡ ok tt) × (m r ≡ ok (a, t))
  guard-inv r e = let (u, p, q) = Results.>>=-eq-ok g _ e in (p, q)

-- Codecs for enums: a type tag, then the value's tag.
module _ {A : Type 0} (type_tag : ℕ) (as_u8 : A → ℕ) (from_tag : ℕ → Option A)
    (unknown : ℕ → DecodeError) where
  -- The value's tag is one byte, and `from_tag` inverts it, and nothing else is accepted.
  pub record IsTagged : Type 0 where
    pub small : (a : A) → as_u8 a < 256
    pub known : (a : A) → from_tag (as_u8 a) ≡ some a
    pub only : (v : ℕ) (a : A) → from_tag v ≡ some a → v ≡ as_u8 a

  abbrev pub decode_tagged : Decoder A
  decode_tagged = read_u8 >>= λ tag.
      ensure (tag ≟ type_tag) (bad_domain_tag type_tag tag)
      >> (read_u8 >>= λ val. lift (ok_or (from_tag val) (unknown val)))

  lift-Reads :
      (v : ℕ) (a : A) → from_tag v ≡ some a → Reads (lift (ok_or (from_tag v) (unknown v))) a []
  lift-Reads v a e = rw e (Reads-pure a)

  lift-inv :
      (v : ℕ) (r : Reader) {a : A} {t : Reader}
      → lift (ok_or (from_tag v) (unknown v)) r ≡ ok (a, t)
      → (from_tag v ≡ some a) × (r ≡ t)
  lift-inv v r e = elim (Option-cases (from_tag v)) [
    | inl n ↦ cc (rw n at e)
    | inr (b, s) ↦ (let e' = rw s at e in cc (e', s), cc (rw s at e))
  ]

  pub tagged-IsCodec :
      type_tag < 256
      → IsTagged
      → IsCodec (λ a. Unit {0}) (λ a. type_tag ∷ as_u8 a ∷ []) decode_tagged
  tagged-IsCodec h t = record {
    reads = λ a _. Reads-bind read_u8 _ (u8-IsCodec.reads type_tag (omega arith)) (
        Reads-guard (ensure (type_tag ≟ type_tag) _) _ (ensure-of _ _ refl) (
          Reads-bind read_u8 (λ val. lift (ok_or (from_tag val) (unknown val)))
            (u8-IsCodec.reads (as_u8 a) (omega (arith, t.small a)))
            (lift-Reads (as_u8 a) a (t.known a))));
    took = λ r {a} {r'} m e.
        let (tag, s, p1, q1) = >>=-inv read_u8 _ r e in
        let (_, t1) = u8-IsCodec.took r m p1 in
        let (is_tag, q2) = passed (tag ≟ type_tag) _ q1 in
        let (val, u, p3, q3) = >>=-inv read_u8 _ s q2 in
        let (_, t3) = u8-IsCodec.took s t1.still p3 in
        let (found, same) = lift-inv val u q3 in
        let path : Took r (tag ∷ val ∷ []) u = Took-trans (tag ∷ []) (val ∷ []) t1 t3 in
        (
          tt,
          subst (λ x. Took r (type_tag ∷ as_u8 a ∷ []) x) same
              (subst₂ (λ x y. Took r (x ∷ y ∷ []) u) is_tag (t.only val a found) path),
        );
  }
