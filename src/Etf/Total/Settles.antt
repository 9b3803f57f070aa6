-- ===== src/Etf/Total/Settles.antt =====
-- Postconditions on a read of etf/etf.go, and the rules for its sequences and loops.
use Prim.Native.String.{String}
use mochi_beam.Base.{
  ℕ, zero, suc, ◌+◌, ◌≤◌, ◌<◌, ◌≡◌, refl, ap, sym, ◌∙◌, Bool, true, false, [], ◌∷◌, ◌++◌,
  append_assoc, arith, length, length-append, take, take-append-drop, length-take, ltb, Bool-cases,
  inl, inr, not_ltb→le,
}
use mochi_beam.Etf.Term.{Result, ok, err, bind, map_err, Bytes, Error, Term, Terms}
use mochi_beam.Etf.Decode.{
  Decoder, Read, at, pure, ◌>>=◌, context, byte_, bytes_, uint16, uint32, elems, read_ids,
  expect_atom, creation, atom_length,
}

-- The run kept within its fuel, and `P` holds of its value if it has one.
pub data Settles {ℓ κ} {A : Type ℓ} (P : A → Type κ) : Result A → Type (ℓ ⊔ κ) where
  returned : {a : A} → P a → Settles P (ok a)
  raised : {e : Error} → Settles P (err e)

-- The cursor `d'` stands behind `d`, past some bytes of its rest.
pub record Advances (d d' : Decoder) : Type 0 where
  pub consumed : Bytes
  pub split : d.rest ≡ consumed ++ d'.rest
  pub moved : d'.offset ≡ d.offset + length consumed

pub Advances-refl : (d : Decoder) → Advances d d
Advances-refl d = record { consumed = []; split = refl; moved = omega arith }

pub Advances-trans : (a b c : Decoder) → Advances a b → Advances b c → Advances a c
Advances-trans a b c h k = record {
  consumed = h.consumed ++ k.consumed;
  split =
      h.split ∙ ap (λ r. h.consumed ++ r) k.split ∙ sym (append_assoc h.consumed k.consumed c.rest);
  moved = omega (arith, h.moved, k.moved, length-append h.consumed k.consumed);
}

pub Advances-length : (d d' : Decoder) → Advances d d' → length d'.rest ≤ length d.rest
Advances-length d d' h = omega (arith, ap length h.split, length-append h.consumed d'.rest)

pub Settles-map_err {ℓ κ} :
    {A : Type ℓ} {P : A → Type κ} (g : Error → Error) {r : Result A}
    → Settles P r
    → Settles P (map_err g r)
Settles-map_err g (returned h) = returned h
Settles-map_err g raised = raised

pub Settles-bind {ℓ κ ℓ' κ'} :
    {A : Type ℓ} {P : A → Type κ} {B : Type ℓ'} {Q : B → Type κ'} {r : Result A} (f : A → Result B)
    → Settles P r
    → ((a : A) → P a → Settles Q (f a))
    → Settles Q (bind r f)
Settles-bind f (returned {a} h) k = k a h
Settles-bind f raised k = raised

-- From a cursor where `Q` holds the read settles, and its cursor advances.
abbrev pub Runs {ℓ} : (Decoder → Type 0) → {A : Type ℓ} → Read A → Type ℓ
Runs Q m = (d : Decoder) → Q d → Settles (λ r. Advances d r.1) (m d)

pub Runs-context {ℓ} :
    (Q : Decoder → Type 0) {A : Type ℓ} (g : Error → Error) (m : Read A)
    → Runs Q m
    → Runs Q (context g m)
Runs-context Q g m h d q = Settles-map_err g (h d q)

pub Runs-pure {ℓ} : (Q : Decoder → Type 0) {A : Type ℓ} (a : A) → Runs Q (pure a)
Runs-pure Q a d q = returned (Advances-refl d)

pub Runs-bytes_ : (Q : Decoder → Type 0) (n : ℕ) → Runs Q (bytes_ n)
unfolding bytes_
Runs-bytes_ Q n d q = elim (Bool-cases (ltb (length d.rest) n)) [
  | inl short ↦ rw short raised
  | inr long ↦ rw long (
      returned (record {
        consumed = take n d.rest;
        split = sym (take-append-drop n d.rest);
        moved = omega (arith, length-take n d.rest, not_ltb→le (length d.rest) n long);
      }))
]

-- A byte that was read makes the rest shorter.
pub byte_-shorter :
    (d : Decoder) → Settles (λ r. Advances d r.1 × (length r.1.rest < length d.rest)) (byte_ d)
unfolding byte_
byte_-shorter d = go d.rest d.offset
  where
    go :
        (bs : Bytes) (p : ℕ)
        → Settles (λ r. Advances (at bs p) r.1 × (length r.1.rest < length bs)) (byte_ (at bs p))
    go [] p = raised
    go (b ∷ bs) p =
        returned (record { consumed = b ∷ []; split = refl; moved = omega arith }, omega arith)

pub Settles-weaken {ℓ κ ℓ'} :
    {A : Type ℓ} {P : A → Type κ} {Q : A → Type ℓ'} {r : Result A}
    → Settles P r
    → ((a : A) → P a → Q a)
    → Settles Q r
Settles-weaken (returned {a} h) k = returned (k a h)
Settles-weaken raised k = raised

pub Runs-byte_ : (Q : Decoder → Type 0) → Runs Q byte_
Runs-byte_ Q d q = Settles-weaken (byte_-shorter d) (λ r h. h.0)

-- `Q` goes on to hold as the cursor advances.
abbrev pub IsClosed : (Decoder → Type 0) → Type 0
IsClosed Q = (d d' : Decoder) → Advances d d' → Q d → Q d'

module _ (Q : Decoder → Type 0) (closed : IsClosed Q) where
  pub Runs-bind {ℓ κ} :
      {A : Type ℓ} {B : Type κ} (m : Read A) (f : A → Read B)
      → Runs Q m
      → ((a : A) → Runs Q (f a))
      → Runs Q (m >>= f)
  Runs-bind m f h k d q =
      Settles-bind (λ r. f r.0 r.1) (h d q)
        λ r s. Settles-weaken (k r.0 r.1 (closed d r.1 s q)) λ t u. Advances-trans d r.1 t.1 s u

  pub Runs-uint16 : Runs Q uint16
  unfolding uint16
  Runs-uint16 = Runs-bind _ _ (Runs-bytes_ Q 2) λ b. Runs-pure Q _

  pub Runs-uint32 : Runs Q uint32
  unfolding uint32
  Runs-uint32 = Runs-bind _ _ (Runs-bytes_ Q 4) λ b. Runs-pure Q _

  pub Runs-creation : (new : Bool) → Runs Q (creation new)
  unfolding creation
  Runs-creation true = Runs-uint32
  Runs-creation false = Runs-byte_ Q

  pub Runs-atom_length : (small : Bool) → Runs Q (atom_length small)
  unfolding atom_length
  Runs-atom_length true = Runs-byte_ Q
  Runs-atom_length false = Runs-uint16

  pub Runs-expect_atom : (e : Error) (v : Term) → Runs Q (expect_atom e v)
  Runs-expect_atom e (Term.atom a) = Runs-pure Q a
  Runs-expect_atom e _ = λ d q. raised

  pub Runs-read_ids : (n i : ℕ) → Runs Q (read_ids n i)
  unfolding read_ids
  Runs-read_ids zero i = Runs-pure Q []
  Runs-read_ids (suc n) i =
      Runs-bind _ _ (Runs-context Q _ uint32 Runs-uint32)
        λ x. Runs-bind _ _ (Runs-read_ids n (i + 1)) λ xs. Runs-pure Q (x ∷ xs)

  module _ (t : Read Term) (inner : Runs Q t) where
    pub Runs-elems : (what : String) (n i : ℕ) → Runs Q (elems t what n i)
    unfolding elems
    Runs-elems what zero i = Runs-pure Q Terms.done
    Runs-elems what (suc n) i =
        Runs-bind _ _ (Runs-context Q _ t inner)
          λ v. Runs-bind _ _ (Runs-elems what n (i + 1)) λ vs. Runs-pure Q (Terms.more v vs)
