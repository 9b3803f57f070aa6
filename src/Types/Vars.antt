-- ===== src/Types/Vars.antt =====
-- internal/types/subst.go: the variables of a type, and what a walk of `occurs` has looked at.
use mochi_beam.Base.{
  ◌≡◌, refl, sym, subst, ◌∙◌, Bool, true, false, Option, none, some, ◌⊎◌, inl, inr,
}
use mochi_beam.Text.Chars.{Text}
use mochi_beam.Types.Kinds as Kinds
use mochi_beam.Types.Kinds.{
  Ty, Tys, Opt, Fields, plain, wrap, pair, struct, union, func, var, more, nil, given, no_fields,
  field,
}
use mochi_beam.Types.Subst.{is_searched, or_else, search, search_all, search_opt, search_fields}

-- The variable stands in the type, outside of the variants of unions.
abbrev mutual
  pub HasVar : Text → Ty → Type 0
  HasVar y (plain a) = ⊥
  HasVar y (wrap k a) = HasVar y a
  HasVar y (pair k a b) = HasVar y a ⊎ HasVar y b
  HasVar y (struct n fs) = FieldsHaveVar y fs
  HasVar y (union n vs) = ⊥
  HasVar y (func ps v r e q) = HaveVar y ps ⊎ (OptHasVar y v ⊎ OptHasVar y r)
  HasVar y (var n) = y ≡ n

  pub HaveVar : Text → Tys → Type 0
  HaveVar y Kinds.none = ⊥
  HaveVar y (more a ts) = HasVar y a ⊎ HaveVar y ts

  pub OptHasVar : Text → Opt → Type 0
  OptHasVar y nil = ⊥
  OptHasVar y (given a) = HasVar y a

  pub FieldsHaveVar : Text → Fields → Type 0
  FieldsHaveVar y no_fields = ⊥
  FieldsHaveVar y (field n a fs) = HasVar y a ⊎ FieldsHaveVar y fs

-- No channel, stream, subscriber or future stands in the type, outside of the variants of unions.
abbrev mutual
  pub IsOpen : Ty → Type 0
  IsOpen (plain a) = Unit
  IsOpen (wrap k a) = (is_searched k ≡ true) × IsOpen a
  IsOpen (pair k a b) = IsOpen a × IsOpen b
  IsOpen (struct n fs) = FieldsAreOpen fs
  IsOpen (union n vs) = Unit
  IsOpen (func ps v r e q) = AreOpen ps × (OptIsOpen v × OptIsOpen r)
  IsOpen (var n) = Unit

  pub AreOpen : Tys → Type 0
  AreOpen Kinds.none = Unit
  AreOpen (more a ts) = IsOpen a × AreOpen ts

  pub OptIsOpen : Opt → Type 0
  OptIsOpen nil = Unit
  OptIsOpen (given a) = IsOpen a

  pub FieldsAreOpen : Fields → Type 0
  FieldsAreOpen no_fields = Unit
  FieldsAreOpen (field n a fs) = IsOpen a × FieldsAreOpen fs

pub or_else-false :
    (x y : Option Bool) → or_else x y ≡ some false → (x ≡ some false) × (y ≡ some false)
or_else-false none y h = cc
or_else-false (some true) y h = cc
or_else-false (some false) y h = (refl, h)

-- A search that found nothing has looked at every variable of an open type.
mutual
  unfolding search search_all search_opt search_fields

  pub search-false :
      (at : Text → Option Bool) (t : Ty) (y : Text)
      → IsOpen t
      → search at t ≡ some false
      → HasVar y t
      → at y ≡ some false
  search-false at (plain a) y o h v = absurd v
  search-false at (wrap k a) y o h v =
      search-false at a y o.1 (let q : search at (wrap k a) ≡ search at a = rw (o.0) in sym q ∙ h) v
  search-false at (pair k a b) y o h (inl v) =
      search-false at a y o.0 (or_else-false (search at a) (search at b) h).0 v
  search-false at (pair k a b) y o h (inr v) =
      search-false at b y o.1 (or_else-false (search at a) (search at b) h).1 v
  search-false at (struct n fs) y o h v = fields-false at fs y o h v
  search-false at (union n vs) y o h v = absurd v
  search-false at (func ps w r e q) y o h v =
      let (hp, h2) =
        or_else-false (search_all at ps) (or_else (search_opt at w) (search_opt at r)) h in
      let (hw, hr) = or_else-false (search_opt at w) (search_opt at r) h2 in
      elim v [
        | inl p ↦ all-false at ps y o.0 hp p
        | inr x ↦ elim x [
          | inl p ↦ opt-false at w y o.1.0 hw p
          | inr p ↦ opt-false at r y o.1.1 hr p
        ]
      ]
  search-false at (var n) y o h v = subst (λ x. at x ≡ some false) (sym v) h

  all-false :
      (at : Text → Option Bool) (t : Tys) (y : Text)
      → AreOpen t
      → search_all at t ≡ some false
      → HaveVar y t
      → at y ≡ some false
  all-false at Kinds.none y o h v = absurd v
  all-false at (more a ts) y o h (inl v) =
      search-false at a y o.0 (or_else-false (search at a) (search_all at ts) h).0 v
  all-false at (more a ts) y o h (inr v) =
      all-false at ts y o.1 (or_else-false (search at a) (search_all at ts) h).1 v

  opt-false :
      (at : Text → Option Bool) (t : Opt) (y : Text)
      → OptIsOpen t
      → search_opt at t ≡ some false
      → OptHasVar y t
      → at y ≡ some false
  opt-false at nil y o h v = absurd v
  opt-false at (given a) y o h v = search-false at a y o h v

  fields-false :
      (at : Text → Option Bool) (t : Fields) (y : Text)
      → FieldsAreOpen t
      → search_fields at t ≡ some false
      → FieldsHaveVar y t
      → at y ≡ some false
  fields-false at no_fields y o h v = absurd v
  fields-false at (field n a fs) y o h (inl v) =
      search-false at a y o.0 (or_else-false (search at a) (search_fields at fs) h).0 v
  fields-false at (field n a fs) y o h (inr v) =
      fields-false at fs y o.1 (or_else-false (search at a) (search_fields at fs) h).1 v
