-- ===== src/Toml/Reading/Tables.antt =====
-- internal/toml/parser.go: keys set in tables, and the last table of an array of tables.
use mochi_beam.Base.{
  ◌≡◌, refl, sym, ap, ◌∙◌, subst, Bool, true, false, not, ◌&&◌, ◌||◌, [], ◌∷◌, Option, some, none,
  List, Bool-cases, inl, inr, if◌then◌else◌, arith,
}
use mochi_beam.Text.Chars.{Text, text_eq, text_eq→eq, text_eq_refl}
use mochi_beam.Toml.Values.{Value, Table, empty, entry, lookup, set}

module _ (k : Text) (v : Value) (t : Table) (j : Text) where
  lookup-here : text_eq k j ≡ true → lookup (entry k v t) j ≡ some v
  unfolding lookup
  lookup-here h = rw (h)

  lookup-there : text_eq k j ≡ false → lookup (entry k v t) j ≡ lookup t j
  unfolding lookup
  lookup-there h = rw (h)

  set-here : (u : Value) → text_eq k j ≡ true → set (entry k v t) j u ≡ entry k u t
  unfolding set
  set-here u h = rw (h)

  set-there : (u : Value) → text_eq k j ≡ false → set (entry k v t) j u ≡ entry k v (set t j u)
  unfolding set
  set-there u h = rw (h)

pub lookup-set : (t : Table) (k : Text) (u : Value) → lookup (set t k u) k ≡ some u
lookup-set empty k u = unfold set in lookup-here k u empty k (text_eq_refl k)
lookup-set (entry j v t) k u = elim (Bool-cases (text_eq j k)) [
  | inl h ↦ ap (λ z. lookup z k) (set-here j v t k u h) ∙ lookup-here j u t k h
  | inr h ↦
      ap (λ z. lookup z k) (set-there j v t k u h)
      ∙ (lookup-there j v (set t k u) k h ∙ lookup-set t k u)
]

pub lookup-set_other :
    (t : Table) (k i : Text) (u : Value) → text_eq k i ≡ false → lookup (set t k u) i ≡ lookup t i
lookup-set_other empty k i u d = unfold set in lookup-there k u empty i d
lookup-set_other (entry j v t) k i u d = elim (Bool-cases (text_eq j k)) [
  | inl h ↦
      let n = subst (λ z. text_eq z i ≡ false) (sym (text_eq→eq j k h)) d in
      ap (λ z. lookup z i) (set-here j v t k u h)
      ∙ (lookup-there j u t i n ∙ sym (lookup-there j v t i n))
  | inr h ↦ ap (λ z. lookup z i) (set-there j v t k u h) ∙ elim (Bool-cases (text_eq j i)) [
    | inl e ↦ lookup-here j v (set t k u) i e ∙ sym (lookup-here j v t i e)
    | inr e ↦
        lookup-there j v (set t k u) i e
        ∙ (lookup-set_other t k i u d ∙ sym (lookup-there j v t i e))
  ]
]

-- A field that may be left out.
abbrev pub set_given : Table → Text → Option Value → Table
set_given t k none = t
set_given t k (some v) = set t k v

abbrev pub Fields : Type 0
Fields = List (Text × Option Value)

unfoldable pub set_all : Table → Fields → Table
set_all t [] = t
set_all t (f ∷ fs) = set_all (set_given t f.0 f.1) fs

abbrev pub is_key : Fields → Text → Bool
is_key [] k = false
is_key (f ∷ fs) k = text_eq f.0 k || is_key fs k

abbrev pub are_distinct : Fields → Bool
are_distinct [] = true
are_distinct (f ∷ fs) = not (is_key fs f.0) && are_distinct fs

-- The value of the key in the fields.
abbrev pub field_value : Fields → Text → Option Value
field_value [] k = none
field_value (f ∷ fs) k = let rest = field_value fs k in if text_eq f.0 k then f.1 else rest

-- None of the fields' keys is in the table.
abbrev pub IsFresh : Table → Fields → Type 0
IsFresh t fs = (k : Text) → is_key fs k ≡ true → lookup t k ≡ none

lookup-set_given :
    (t : Table) (k i : Text) (o : Option Value)
    → text_eq k i ≡ false
    → lookup (set_given t k o) i ≡ lookup t i
lookup-set_given t k i none d = refl
lookup-set_given t k i (some v) d = lookup-set_other t k i v d

pub IsFresh-set_given :
    (t : Table) (f : Text × Option Value) (fs : Fields)
    → are_distinct (f ∷ fs) ≡ true
    → IsFresh t (f ∷ fs)
    → IsFresh (set_given t f.0 f.1) fs
IsFresh-set_given t f fs d fresh k h = elim (Bool-cases (text_eq f.0 k)) [
  | inl e ↦
      let q : is_key fs f.0 ≡ true = subst (λ z. is_key fs z ≡ true) (sym (text_eq→eq f.0 k e)) h in
      ground arith
  | inr e ↦ lookup-set_given t f.0 k f.1 e ∙ fresh k (ground arith)
]

lookup-set_given_here :
    (t : Table) (k : Text) (o : Option Value) → lookup t k ≡ none → lookup (set_given t k o) k ≡ o
lookup-set_given_here t k none h = h
lookup-set_given_here t k (some v) h = lookup-set t k v

lookup-set_all_other :
    (t : Table) (fs : Fields) (k : Text)
    → is_key fs k ≡ false
    → lookup (set_all t fs) k ≡ lookup t k
unfolding set_all
lookup-set_all_other t [] k h = refl
lookup-set_all_other t (f ∷ fs) k h =
    lookup-set_all_other (set_given t f.0 f.1) fs k (ground arith)
    ∙ lookup-set_given t f.0 k f.1 (ground arith)

-- What the fields leave at one of their keys.
pub lookup-set_all :
    (t : Table) (fs : Fields) (k : Text)
    → are_distinct fs ≡ true
    → IsFresh t fs
    → is_key fs k ≡ true
    → lookup (set_all t fs) k ≡ field_value fs k
unfolding set_all
lookup-set_all t [] k d fresh h = cc
lookup-set_all t (f ∷ fs) k d fresh h = elim (Bool-cases (text_eq f.0 k)) [
  | inl e ↦
      let same = text_eq→eq f.0 k e in
      let only : is_key fs k ≡ false = subst (λ z. is_key fs z ≡ false) same (ground arith) in
      let bound =
        subst (λ z. lookup (set_given t f.0 f.1) z ≡ f.1) same
          (lookup-set_given_here t f.0 f.1
            (fresh f.0 (subst (λ z. is_key (f ∷ fs) z ≡ true) (sym same) h))) in
      let q : f.1 ≡ field_value (f ∷ fs) k = rw (e) in
      lookup-set_all_other (set_given t f.0 f.1) fs k only ∙ (bound ∙ q)
  | inr e ↦
      let q : field_value fs k ≡ field_value (f ∷ fs) k = rw (e) in
      lookup-set_all (set_given t f.0 f.1) fs k (ground arith) (IsFresh-set_given t f fs d fresh)
        (ground arith)
      ∙ q
]
