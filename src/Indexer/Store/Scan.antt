-- ===== src/Indexer/Store/Scan.antt =====
-- Decoding a record of the store: what the readers of the byte format say becomes a storage error, and
-- checks with other errors stand between the fields.
use rgk.Prelude.{
  ℕ, zero, suc, ◌≡◌, refl, ap, subst, ◌∙◌, Bool, true, false, Option, none, some, List, [], ◌∷◌,
  ◌++◌, length, length-append, nat_eq, append_assoc, append-nil, All, All-join, Result, ok, err,
  arith, if◌then◌else◌,
}
unfoldable use rgk.Prelude.{ℕ_discrete}
use rgk.Prelude.Results
use rgk.Core.Error.{DecodeError}
use rgk.Core.Bytes.{IsByte}
use rgk.Core.Encoding.{Reader, Decoder, advance, read_bool, read_u8}
use rgk.Core.Encoding.Codec.{u8-IsCodec}
use rgk.Core.Encoding.Laws.{
  IsInMemory, Reads, Reads-bind, Reads-pure, rest_of, rest_of-advance, advance-advance,
  advance-Took,
}
use rgk.Indexer.Records.{IndexerError, storage, corrupt}

abbrev pub Scan : Type 0 → Type 0
Scan A = Reader → Result IndexerError (A × Reader)

module _ {A B : Type 0} where
  infixl 5 ◌>>=◌
  abbrev pub ◌>>=◌ : Scan A → (A → Scan B) → Scan B
  (m >>= k) r = Results.◌>>=◌ (m r) λ v. k v.0 v.1

module _ {A : Type 0} where
  infixl 5 ◌>>◌
  abbrev pub ◌>>◌ : Result IndexerError (Unit {0}) → Scan A → Scan A
  (g >> m) r = Results.◌>>◌ g (m r)

  abbrev pub pure : A → Scan A
  pure a r = ok (a, r)

  -- `map_err(decode_err)`
  abbrev pub map_err : Result DecodeError (A × Reader) → Result IndexerError (A × Reader)
  map_err (err e) = err (storage (corrupt e))
  map_err (ok v) = ok v

  abbrev pub read : Decoder A → Scan A
  read m r = map_err (m r)

module _ {A : Type 0} where
  -- `if r.read_bool()? { Some(..) } else { None }`
  unfoldable pub optional : Scan A → Scan (Option A)
  optional m = read read_bool >>= λ there. if there then (m >>= λ a. pure (some a)) else pure none

  -- `for _ in 0..n { v.push(..) }`
  unfoldable pub read_list : ℕ → Scan A → Scan (List A)
  read_list zero m = pure []
  read_list (suc n) m = m >>= λ a. read_list n m >>= λ rest. pure (a ∷ rest)

-- `bs` is read back as `a`, wherever it stands.
pub record Restores {A : Type 0} (m : Scan A) (a : A) (bs : List ℕ) : Type 0 where
  pub at :
      (r : Reader) (rest : List ℕ)
      → IsInMemory r
      → rest_of r ≡ bs ++ rest
      → m r ≡ ok (a, advance (length bs) r)
  pub bytes : All IsByte bs

module _ {A : Type 0} where
  pub Restores-pure : (a : A) → Restores (pure a) a []
  Restores-pure a = record {
    at = λ r rest h e. ap (λ p. ok (a, record { buf = r.buf; pos = p })) (omega arith);
    bytes = tt;
  }

  pub Restores-read :
      {m : Decoder A} {a : A} {bs : List ℕ} → Reads m a bs → All IsByte bs → Restores (read m) a bs
  Restores-read h all = record { at = λ r rest v e. rw (h.at r rest v e) refl; bytes = all }

  pub Restores-guard :
      {g : Result IndexerError (Unit {0})} {m : Scan A} {a : A} {bs : List ℕ}
      → g ≡ ok tt
      → Restores m a bs
      → Restores (g >> m) a bs
  Restores-guard good h = record { at = λ r rest v e. rw good (h.at r rest v e); bytes = h.bytes }

module _ {A B : Type 0} where
  pub Restores-bind :
      (m : Scan A) (k : A → Scan B) {a : A} {b : B} {bs cs : List ℕ}
      → Restores m a bs
      → Restores (k a) b cs
      → Restores (m >>= k) b (bs ++ cs)
  Restores-bind m k {a} {b} {bs} {cs} p q = record {
    at = λ r rest h e.
        let e' = e ∙ append_assoc bs cs rest in
        rw (p.at r (cs ++ rest) h e') (
          q.at (advance (length bs) r) rest (advance-Took r bs (cs ++ rest) h e').still
            (rest_of-advance r bs (cs ++ rest) e')
          ∙ ap (λ s. ok (b, s)) (rw length-append (advance-advance (length bs) (length cs) r)));
    bytes = All-join IsByte bs cs p.bytes q.bytes;
  }

abbrev pub bool_bytes : Bool → List ℕ
bool_bytes true = 1 ∷ []
bool_bytes false = 0 ∷ []

read_bool-Reads : (b : Bool) → Reads read_bool b (bool_bytes b)
unfolding read_bool ℕ_discrete
read_bool-Reads true = Reads-bind read_u8 _ (u8-IsCodec.reads 1 (omega arith)) (Reads-pure true)
read_bool-Reads false = Reads-bind read_u8 _ (u8-IsCodec.reads 0 (omega arith)) (Reads-pure false)

pub Restores-bool : (b : Bool) → Restores (read read_bool) b (bool_bytes b)
Restores-bool true = Restores-read (read_bool-Reads true) (omega arith)
Restores-bool false = Restores-read (read_bool-Reads false) (omega arith)

module _ {A : Type 0} (P : A → Type 0) (f : A → List ℕ) where
  abbrev pub option_bytes : Option A → List ℕ
  option_bytes none = 0 ∷ []
  option_bytes (some a) = 1 ∷ f a

  abbrev pub IfSome : Option A → Type 0
  IfSome none = Unit {0}
  IfSome (some a) = P a

  pub Restores-optional :
      (m : Scan A)
      → ((a : A) → P a → Restores m a (f a))
      → (o : Option A) → IfSome o
      → Restores (optional m) o (option_bytes o)
  unfolding optional
  Restores-optional m each none p =
      Restores-bind (read read_bool) _ (Restores-bool false) (Restores-pure none)
  Restores-optional m each (some a) p =
      subst (Restores (optional m) (some a)) (ap (λ bs. 1 ∷ bs) (append-nil (f a))) (
        Restores-bind (read read_bool) _ (Restores-bool true)
          (Restores-bind m (λ a. pure (some a)) (each a p) (Restores-pure (some a))))

  abbrev pub list_bytes : List A → List ℕ
  list_bytes [] = []
  list_bytes (a ∷ rest) = f a ++ list_bytes rest

  pub Restores-list :
      (m : Scan A)
      → ((a : A) → P a → Restores m a (f a))
      → (xs : List A) → All P xs
      → Restores (read_list (length xs) m) xs (list_bytes xs)
  unfolding read_list
  Restores-list m each [] p = Restores-pure []
  Restores-list m each (x ∷ xs) (p, ps) =
      subst (Restores (read_list (length (x ∷ xs)) m) (x ∷ xs))
        (ap (λ bs. f x ++ bs) (append-nil (list_bytes xs)))
        (Restores-bind m _ (each x p) (
          Restores-bind (read_list (length xs) m) (λ rest. pure (x ∷ rest))
            (Restores-list m each xs ps) (Restores-pure (x ∷ xs))))
