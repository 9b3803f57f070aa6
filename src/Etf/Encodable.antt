-- ===== src/Etf/Encodable.antt =====
-- etf/etf.go: which values `Encode` accepts.
use Prim.Native.String.{String}
use mochi_beam.Base.{
  ℕ, ◌+◌, ◌≡◌, refl, Bool, true, false, ◌&&◌, arith, leb, if◌then◌else◌, length, le→not_ltb,
}
use mathlib.Core.Path.{ap₂, ◌∙◌}
use mochi_beam.Base.Int.{ℤ}
use mochi_beam.Etf.Term.{
  Result, ok, err, bind, map_err, Atom, Error, Term, Terms, done, more, wrap_at,
}
use mochi_beam.Etf.Wire.{digits, abs_of}
use mochi_beam.Etf.Encode.{
  enc_term, enc_elems, enc_atom, enc_int64, enc_big, enc_binary, enc_float, enc_pid, enc_port,
  enc_reference, encode, true_atom, false_atom, fits_byte, fits_int32,
}
use mochi_beam.Etf.RoundTrip.Fields.{length-digits_le}

abbrev pub is_ok {ℓ} : {A : Type ℓ} → Result A → Bool
is_ok (ok a) = true
is_ok _ = false

-- An atom has at most 65535 bytes, as the package comment says, and a `*big.Int` has no encoding,
-- although the package comment lists it.
unfoldable mutual
  pub encodable : Term → Bool
  encodable (Term.big_int v) = false
  encodable (Term.atom a) = leb (length a) 65535
  encodable (Term.tuple ts) = all_encodable ts
  encodable (Term.list ts) = all_encodable ts
  encodable (Term.pid p) = leb (length p.node) 65535
  encodable (Term.port p) = leb (length p.node) 65535
  encodable (Term.reference r) = leb (length r.node) 65535
  encodable _ = true

  pub all_encodable : Terms → Bool
  all_encodable done = true
  all_encodable (more t ts) = encodable t && all_encodable ts

is_ok-bind_ok {ℓ κ} :
    {A : Type ℓ} {B : Type κ} (m : Result A) (g : A → B) → is_ok (bind m (λ a. ok (g a))) ≡ is_ok m
is_ok-bind_ok (ok a) g = refl
is_ok-bind_ok (err e) g = refl
is_ok-bind_ok Result.out_of_fuel g = refl

is_ok-map_err {ℓ} : {A : Type ℓ} (g : Error → Error) (m : Result A) → is_ok (map_err g m) ≡ is_ok m
is_ok-map_err g (ok a) = refl
is_ok-map_err g (err e) = refl
is_ok-map_err g Result.out_of_fuel = refl

-- Two writes in a row are both made exactly if both succeed.
is_ok-bind_both {ℓ κ} :
    {A B : Type ℓ} {C : Type κ} (m : Result A) (n : Result B) (g : A → B → C)
    → is_ok (bind m (λ a. bind n (λ b. ok (g a b)))) ≡ (is_ok m && is_ok n)
is_ok-bind_both (ok a) n g = is_ok-bind_ok n (g a)
is_ok-bind_both (err e) n g = refl
is_ok-bind_both Result.out_of_fuel n g = refl

is_ok-enc_atom : (a : Atom) → is_ok (enc_atom a) ≡ leb (length a) 65535
unfolding enc_atom
is_ok-enc_atom a = ground arith

is_ok-if {ℓ} :
    {A : Type ℓ} (a : Bool) (x y : Result A)
    → is_ok x ≡ true
    → is_ok y ≡ true
    → is_ok (if a then x else y) ≡ true
is_ok-if true x y h k = h
is_ok-if false x y h k = k

is_ok-enc_int64 : (v : ℤ) → is_ok (enc_int64 v) ≡ true
unfolding enc_int64 enc_big
is_ok-enc_int64 v =
    let short = length-digits_le 8 (abs_of v) in
    is_ok-if (fits_byte v) _ _ refl (
      is_ok-if (fits_int32 v) _ _ refl
        (rw (le→not_ltb 255 (length (digits 8 (abs_of v))) (omega arith))))

mutual
  unfolding encodable enc_term enc_float enc_binary enc_pid enc_port enc_reference

  is_ok-enc_term : (v : Term) → is_ok (enc_term v) ≡ encodable v
  is_ok-enc_term Term.nil = refl
  is_ok-enc_term (Term.bool true) = is_ok-enc_atom true_atom
  is_ok-enc_term (Term.bool false) = is_ok-enc_atom false_atom
  is_ok-enc_term (Term.int v) = is_ok-enc_int64 v
  is_ok-enc_term (Term.int64 v) = is_ok-enc_int64 v
  is_ok-enc_term (Term.big_int v) = refl
  is_ok-enc_term (Term.float64 bits) = refl
  is_ok-enc_term (Term.atom a) = is_ok-enc_atom a
  is_ok-enc_term (Term.string b) = refl
  is_ok-enc_term (Term.binary b) = refl
  is_ok-enc_term (Term.tuple ts) =
      is_ok-bind_ok (enc_elems ts "etf: tuple" 0) _ ∙ is_ok-enc_elems ts "etf: tuple" 0
  is_ok-enc_term (Term.list done) = refl
  is_ok-enc_term (Term.list (more t ts)) =
      is_ok-bind_both (map_err (wrap_at "etf: list" 0) (enc_term t)) (enc_elems ts "etf: list" 1) _
      ∙ ap₂ ◌&&◌ (is_ok-map_err (wrap_at "etf: list" 0) (enc_term t) ∙ is_ok-enc_term t)
          (is_ok-enc_elems ts "etf: list" 1)
  is_ok-enc_term (Term.pid p) = is_ok-bind_ok (enc_atom p.node) _ ∙ is_ok-enc_atom p.node
  is_ok-enc_term (Term.port p) = is_ok-bind_ok (enc_atom p.node) _ ∙ is_ok-enc_atom p.node
  is_ok-enc_term (Term.reference r) = is_ok-bind_ok (enc_atom r.node) _ ∙ is_ok-enc_atom r.node

  is_ok-enc_elems :
      (ts : Terms) (what : String) (i : ℕ) → is_ok (enc_elems ts what i) ≡ all_encodable ts
  is_ok-enc_elems done what i = refl
  is_ok-enc_elems (more t ts) what i =
      is_ok-bind_both (map_err (wrap_at what i) (enc_term t)) (enc_elems ts what (i + 1)) _
      ∙ ap₂ ◌&&◌ (is_ok-map_err (wrap_at what i) (enc_term t) ∙ is_ok-enc_term t)
          (is_ok-enc_elems ts what (i + 1))

-- `Encode` returns bytes exactly for the values with no `*big.Int` in them and no atom above 65535
-- bytes; for all others it returns an error.
pub is_ok-encode : (v : Term) → is_ok (encode v) ≡ encodable v
unfolding encode
is_ok-encode v = is_ok-bind_ok (enc_term v) _ ∙ is_ok-enc_term v
