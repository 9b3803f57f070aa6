-- ===== src/Types/Opened.antt =====
-- internal/types/subst.go: `Apply` keeps types open, and leaves no bound variable at the top.
use mochi_beam.Base.{
  ℕ, zero, suc, ◌≡◌, refl, sym, ap, subst, ◌∙◌, Option, none, some, ◌⊎◌, inl, inr,
}
use mochi_beam.Text.Chars.{Text}
use mochi_beam.Types.Kinds as Kinds
use mochi_beam.Types.Kinds.{
  Ty, Tys, Opt, Fields, plain, wrap, pair, struct, union, func, var, more, nil, given, no_fields,
  field,
}
use mochi_beam.Types.Vars.{IsOpen, AreOpen, OptIsOpen, FieldsAreOpen}
use mochi_beam.Types.Acyclic.{ImagesAreOpen}
use mochi_beam.Types.Subst.{Subst, get, walk, walk_all, walk_opt, walk_fields, image, apply, ◌>>=◌}

pub >>=-some {ℓ κ} :
    {A : Type ℓ} {B : Type κ} (o : Option A) (f : A → Option B) (b : B)
    → (o >>= f) ≡ some b
    → (a : A) × (o ≡ some a) × (f a ≡ some b)
>>=-some none f b h = cc
>>=-some (some a) f b h = (a, refl, h)

-- A walk that leaves open types at the variables of an open type leaves an open type.
module _ (at : Text → Option Ty) (open_at : (y : Text) (r : Ty) → at y ≡ some r → IsOpen r) where
  mutual
    unfolding walk walk_all walk_opt walk_fields

    walk-IsOpen : (t r : Ty) → IsOpen t → walk at t ≡ some r → IsOpen r
    walk-IsOpen (plain a) r o h = let q : plain a ≡ r = cc in subst IsOpen q tt
    walk-IsOpen (wrap k a) r o h =
        let (x, e, d) = >>=-some (walk at a) (λ x. some (wrap k x)) r h in
        let q : wrap k x ≡ r = cc in subst IsOpen q (o.0, walk-IsOpen a x o.1 e)
    walk-IsOpen (pair k a b) r o h =
        let (x, e, d) = >>=-some (walk at a) (λ x. walk at b >>= (λ y. some (pair k x y))) r h in
        let (y, f, c) = >>=-some (walk at b) (λ y. some (pair k x y)) r d in
        let q : pair k x y ≡ r = cc in subst IsOpen q (walk-IsOpen a x o.0 e, walk-IsOpen b y o.1 f)
    walk-IsOpen (struct n fs) r o h =
        let (x, e, d) = >>=-some (walk_fields at fs) (λ gs. some (struct n gs)) r h in
        let q : struct n x ≡ r = cc in subst IsOpen q (fields-IsOpen fs x o e)
    walk-IsOpen (union n vs) r o h = let q : union n vs ≡ r = cc in subst IsOpen q tt
    walk-IsOpen (func ps v c f ns) r o h =
        let (x, e, d) = >>=-some (walk_all at ps) _ r h in
        let (y, e2, d2) = >>=-some (walk_opt at c) _ r d in
        let (z, e3, d3) = >>=-some (walk_opt at v) _ r d2 in
        let q : func x z y f ns ≡ r = cc in
        subst IsOpen q (all-IsOpen ps x o.0 e, (opt-IsOpen v z o.1.0 e3, opt-IsOpen c y o.1.1 e2))
    walk-IsOpen (var n) r o h = open_at n r h

    all-IsOpen : (t r : Tys) → AreOpen t → walk_all at t ≡ some r → AreOpen r
    all-IsOpen Kinds.none r o h = let q : Kinds.none ≡ r = cc in subst AreOpen q tt
    all-IsOpen (more a ts) r o h =
        let (x, e, d) = >>=-some (walk at a) _ r h in
        let (y, f, c) = >>=-some (walk_all at ts) _ r d in
        let q : more x y ≡ r = cc in subst AreOpen q (walk-IsOpen a x o.0 e, all-IsOpen ts y o.1 f)

    opt-IsOpen : (t r : Opt) → OptIsOpen t → walk_opt at t ≡ some r → OptIsOpen r
    opt-IsOpen nil r o h = let q : nil ≡ r = cc in subst OptIsOpen q tt
    opt-IsOpen (given a) r o h =
        let (x, e, d) = >>=-some (walk at a) (λ x. some (given x)) r h in
        let q : given x ≡ r = cc in subst OptIsOpen q (walk-IsOpen a x o e)

    fields-IsOpen : (t r : Fields) → FieldsAreOpen t → walk_fields at t ≡ some r → FieldsAreOpen r
    fields-IsOpen no_fields r o h = let q : no_fields ≡ r = cc in subst FieldsAreOpen q tt
    fields-IsOpen (field n a fs) r o h =
        let (x, e, d) = >>=-some (walk at a) _ r h in
        let (y, f, c) = >>=-some (walk_fields at fs) _ r d in
        let q : field n x y ≡ r = cc in
        subst FieldsAreOpen q (walk-IsOpen a x o.0 e, fields-IsOpen fs y o.1 f)

-- What `Apply` does at a variable.
image-cases :
    (go : Ty → Option Ty) (y : Text) (o : Option Ty) (r : Ty)
    → image go y o ≡ some r
    → ((o ≡ none) × (r ≡ var y)) ⊎ ((u : Ty) × (o ≡ some u) × (go u ≡ some r))
unfolding image
image-cases go y none r h = inl (refl, let q : var y ≡ r = cc in sym q)
image-cases go y (some u) r h = inr (u, refl, h)

module _ (s : Subst) (os : ImagesAreOpen s) where
  pub apply-IsOpen : (n : ℕ) (t r : Ty) → IsOpen t → apply n s t ≡ some r → IsOpen r
  unfolding apply
  apply-IsOpen zero =
      walk-IsOpen (λ n. image (λ u. none) n (get s n))
        (λ y r h. elim (image-cases (λ u. none) y (get s y) r h) [
          | inl c ↦ subst IsOpen (sym c.1) tt
          | inr c ↦ let q = c.2 in cc
        ])
  apply-IsOpen (suc n) =
      walk-IsOpen (λ n'. image (apply n s) n' (get s n'))
        (λ y r h. elim (image-cases (apply n s) y (get s y) r h) [
          | inl c ↦ subst IsOpen (sym c.1) tt
          | inr c ↦ apply-IsOpen n c.0 r (os y c.0 c.1) c.2
        ])

-- A walk that leaves a variable started at one.
walk-var :
    (at : Text → Option Ty) (t : Ty) (x : Text)
    → walk at t ≡ some (var x)
    → (y : Text) × (t ≡ var y) × (at y ≡ some (var x))
unfolding walk
walk-var at (plain a) x h = cc
walk-var at (wrap k a) x h =
    let (y, e, d) = >>=-some (walk at a) (λ x. some (wrap k x)) (var x) h in cc
walk-var at (pair k a b) x h =
    let (y, e, d) = >>=-some (walk at a) (λ x. walk at b >>= (λ y. some (pair k x y))) (var x) h in
    let (z, f, c) = >>=-some (walk at b) _ (var x) d in cc
walk-var at (struct n fs) x h =
    let (y, e, d) = >>=-some (walk_fields at fs) (λ gs. some (struct n gs)) (var x) h in cc
walk-var at (union n vs) x h = cc
walk-var at (func ps v c f ns) x h =
    let (y, e, d) = >>=-some (walk_all at ps) _ (var x) h in
    let (z, e2, d2) = >>=-some (walk_opt at c) _ (var x) d in
    let (w, e3, d3) = >>=-some (walk_opt at v) _ (var x) d2 in cc
walk-var at (var n) x h = (n, refl, h)

pub apply-unbound :
    (n : ℕ) (s : Subst) (t : Ty) (x : Text) → apply n s t ≡ some (var x) → get s x ≡ none
unfolding apply
apply-unbound zero s t x h =
    let (y, e, d) = walk-var (λ n. image (λ u. none) n (get s n)) t x h in
    elim (image-cases (λ u. none) y (get s y) (var x) d) [
      | inl c ↦ let q : x ≡ y = (let g = c.1 in cc) in ap (get s) q ∙ c.0
      | inr c ↦ let q = c.2 in cc
    ]
apply-unbound (suc n) s t x h =
    let (y, e, d) = walk-var (λ n'. image (apply n s) n' (get s n')) t x h in
    elim (image-cases (apply n s) y (get s y) (var x) d) [
      | inl c ↦ let q : x ≡ y = (let g = c.1 in cc) in ap (get s) q ∙ c.0
      | inr c ↦ apply-unbound n s c.0 x c.2
    ]
