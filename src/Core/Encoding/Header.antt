-- ===== src/Core/Encoding/Header.antt =====
-- The framing of `encode_canonical` and `decode_canonical`, for every lawful `Canonical` type.
use rgk.Prelude.{
  ℕ, All-join, ◌+◌, ◌<◌, ◌≡◌, refl, sym, subst, ◌∙◌, List, [], ◌∷◌, ◌++◌, length, All, ok, arith,
  append_assoc, append-nil, ensure, ensure-of, passed, ◌≟◌, nat_eq, list_eq, length-drop,
}
use rgk.Prelude.Results
use rgk.Core.Error.{bad_magic, unknown_version}
use rgk.Core.Bytes.{IsByte, IsBytes}
use rgk.Core.Encoding.{
  Reader, Decoder, Writer, advance, ◌>>=◌, ◌>>◌, reader, read_array, read_u16, to_le, usize_mod,
  domain_magic, encoding_version, ensure_consumed, Canonical, encode_canonical, decode_canonical,
}
use rgk.Core.Encoding.Laws.{IsInMemory, Took, Took-trans, Reads, Reads-bind, >>=-inv, rest_of}
use rgk.Core.Encoding.Tagged.{Reads-guard}
use rgk.Core.Encoding.Codec.{IsCodec, array-IsCodec, u16-IsCodec}

-- What an implementation of the trait owes: the values that it can encode, that it only appends to the
-- writer, and that it is a codec.
pub record IsLawful {A : Type 0} (c : Canonical A) (P : A → Type 0) : Type 0 where
  pub appends : (a : A) (w : Writer) → c.encode a w ≡ w ++ c.encode a []
  pub typed_bytes : (a : A) → P a → All IsByte (c.encode a [])
  pub codec : IsCodec P (λ a. c.encode a []) c.decode

abbrev pub header : List ℕ
header = domain_magic ++ to_le 2 encoding_version

-- The decoder that `decode_canonical` runs before it looks at what is left.
abbrev headed : {A : Type 0} → Decoder A → Decoder A
headed m = read_array 8 >>= λ magic.
    ensure (magic ≟ domain_magic) bad_magic
    >> (read_u16 >>= λ version. ensure (version ≟ encoding_version) (unknown_version version) >> m)

pub header-bytes : All IsByte header
unfolding to_le
header-bytes = omega arith

magic-IsBytes : IsBytes 8 domain_magic
magic-IsBytes = record { width = refl; bytes = omega arith }

empty_of : (xs : List ℕ) → length xs ≡ 0 → xs ≡ []
empty_of [] h = refl
empty_of (x ∷ xs) h = absurd (omega arith)

consumed : (buf : List ℕ) → ensure_consumed (advance (length buf) (reader buf)) ≡ ok tt
unfolding ensure_consumed
consumed buf = ensure-of (0 + length buf ≟ length buf) _ (omega arith)

module _ {A : Type 0} {c : Canonical A} {P : A → Type 0} (l : IsLawful c P) where
  pub framed : (a : A) → encode_canonical ⦃c = c⦄ a ≡ header ++ c.encode a []
  unfolding encode_canonical
  framed a = l.appends a _

  start-IsInMemory :
      (buf : List ℕ) → length buf < usize_mod → All IsByte buf → IsInMemory (reader buf)
  start-IsInMemory buf h b = record { inside = omega arith; fits = h; bytes = b }

  headed-Reads : (a : A) → P a → Reads (headed c.decode) a (header ++ c.encode a [])
  headed-Reads a p =
      subst (Reads (headed c.decode) a)
        (sym (append_assoc domain_magic (to_le 2 encoding_version) (c.encode a [])))
        (Reads-bind (read_array 8) _ ((array-IsCodec 8).reads domain_magic magic-IsBytes) (
          Reads-guard (ensure (domain_magic ≟ domain_magic) bad_magic) _ (ensure-of _ _ refl) (
            Reads-bind read_u16 _ (u16-IsCodec.reads encoding_version (omega arith)) (
              Reads-guard (ensure (encoding_version ≟ encoding_version) _) _ (ensure-of _ _ refl)
                (l.codec.reads a p)))))

  -- A value that is encoded is decoded as itself.
  pub decode-encode :
      (a : A)
      → P a
      → length (encode_canonical ⦃c = c⦄ a) < usize_mod
      → decode_canonical ⦃c = c⦄ (encode_canonical ⦃c = c⦄ a) ≡ ok a
  unfolding decode_canonical ensure_consumed
  decode-encode a p fits =
      let whole = header ++ c.encode a [] in
      let bytes : All IsByte whole =
        All-join IsByte header (c.encode a []) header-bytes (l.typed_bytes a p) in
      let memory : IsInMemory (reader whole) =
        start-IsInMemory whole (subst (λ b. length b < usize_mod) (framed a) fits) bytes in
      rw (
        framed a,
        (headed-Reads a p).at (reader whole) [] memory (sym (append-nil whole)),
        consumed whole,
      )

  headed-Took :
      (r : Reader) {a : A} {t : Reader}
      → IsInMemory r
      → headed c.decode r ≡ ok (a, t)
      → P a × Took r (header ++ c.encode a []) t
  headed-Took r {a} {t} h e =
      let (magic, s, p1, q1) = >>=-inv (read_array 8) _ r e in
      let (_, t1) = (array-IsCodec 8).took r h p1 in
      let (is_magic, q2) = passed (magic ≟ domain_magic) bad_magic q1 in
      let (version, u, p3, q3) = >>=-inv read_u16 _ s q2 in
      let (_, t3) = u16-IsCodec.took s t1.still p3 in
      let (is_version, q4) = passed (version ≟ encoding_version) _ q3 in
      let (pa, t5) = l.codec.took u t3.still q4 in
      let m : Took r domain_magic s = subst (λ b. Took r b s) is_magic t1 in
      let v : Took s (to_le 2 encoding_version) u =
        subst (λ b. Took s (to_le 2 b) u) is_version t3 in
      (
        pa,
        Took-trans header (c.encode a []) (Took-trans domain_magic (to_le 2 encoding_version) m v)
            t5,
      )

  rest_done : (t : Reader) → t.pos ≡ length t.buf → rest_of t ≡ []
  rest_done t e = empty_of (rest_of t) (omega (arith, length-drop t.pos t.buf))

  -- A buffer that is accepted is the encoding of the value that it gives.
  pub decode_exact :
      (buf : List ℕ) {a : A}
      → length buf < usize_mod
      → All IsByte buf
      → decode_canonical ⦃c = c⦄ buf ≡ ok a
      → P a × (encode_canonical ⦃c = c⦄ a ≡ buf)
  unfolding decode_canonical ensure_consumed
  decode_exact buf {a} fits bytes e =
      let ((v, t), p, q) =
        Results.>>=-eq-ok (headed c.decode (reader buf))
          (λ vr. Results.◌>>◌ (ensure_consumed vr.1) (ok vr.0)) e in
      let (pv, went) = headed-Took (reader buf) (start-IsInMemory buf fits bytes) p in
      let (done, q') = passed (t.pos ≟ length t.buf) _ q in
      let value : v ≡ a = cc q' in
      subst (λ x. P x × (encode_canonical ⦃c = c⦄ x ≡ buf)) value
        (pv, framed v ∙ sym (went.over ∙ rw (rest_done t done, append-nil)))
