-- ===== src/Types/Free.antt =====
-- internal/types/poly.go: the free variables of a type under bindings are those of what `Apply` makes
-- of it.
use mathlib.Core.Path.{ap₂}
use mathlib.Core.Option.{some-injective}
use mochi_beam.Base.{ℕ, zero, suc, ◌≡◌, refl, ap, ◌∙◌, List, [], Option, none, some}
use mochi_beam.Base.Sort.{sort}
use mochi_beam.Text.Chars.{Text}
use mochi_beam.Text.Order.{text_lt}
use mochi_beam.Types.Kinds as Kinds
use mochi_beam.Types.Kinds.{
  Ty, Tys, Opt, Fields, plain, wrap, pair, struct, union, func, var, more, nil, given, no_fields,
  field,
}
use mochi_beam.Types.Subst.{Subst, get, walk, walk_all, walk_opt, walk_fields, image, apply, ◌>>=◌}
use mochi_beam.Types.Opened.{>>=-some}
use mochi_beam.Types.Poly.{
  Visit, visit, visit_all, visit_opt, visit_fields, see, see_image, collect_free_vars,
  free_type_vars,
}

>>=-congruent {ℓ κ} :
    {A : Type ℓ} {B : Type κ} (o p : Option A) (f g : A → Option B)
    → o ≡ p
    → ((a : A) → f a ≡ g a)
    → (o >>= f) ≡ (p >>= g)
>>=-congruent o p f g q h = ap₂ ◌>>=◌ q (λ i a. h a i)

some-image {ℓ κ} : {A : Type ℓ} {B : Type κ} (f : A → B) {a b : A} → some a ≡ some b → f a ≡ f b
some-image f {a = a} {b = b} h = ap f (some-injective a b h)

-- If each variable is visited as its image is, a type is visited as what its walk makes of it.
module _ (at : Text → Option Ty) (go here : Visit)
    (level : (n : Text) (u : Ty) → at n ≡ some u → (s : List Text) → go n s ≡ visit here u s) where
  mutual
    unfolding walk walk_all walk_opt walk_fields visit visit_all visit_opt visit_fields

    visit-walk : (t r : Ty) → walk at t ≡ some r → (s : List Text) → visit go t s ≡ visit here r s
    visit-walk (plain a) r h s = some-image (λ z. visit here z s) h
    visit-walk (wrap k a) r h s =
        let (x, e, d) = >>=-some (walk at a) (λ x. some (wrap k x)) r h in
        visit-walk a x e s ∙ some-image (λ z. visit here z s) d
    visit-walk (pair k a b) r h s =
        let (x, e, d) = >>=-some (walk at a) (λ x. walk at b >>= (λ y. some (pair k x y))) r h in
        let (y, f, c) = >>=-some (walk at b) (λ y. some (pair k x y)) r d in
        >>=-congruent (visit go a s) (visit here x s) _ _ (visit-walk a x e s) (visit-walk b y f)
        ∙ some-image (λ z. visit here z s) c
    visit-walk (struct n fs) r h s =
        let (x, e, d) = >>=-some (walk_fields at fs) (λ gs. some (struct n gs)) r h in
        visit_fields-walk fs x e s ∙ some-image (λ z. visit here z s) d
    visit-walk (union n vs) r h s = some-image (λ z. visit here z s) h
    visit-walk (func ps v c g q) r h s =
        let (x, e, d) = >>=-some (walk_all at ps) _ r h in
        let (y, e2, d2) = >>=-some (walk_opt at c) _ r d in
        let (z, e3, d3) = >>=-some (walk_opt at v) _ r d2 in
        >>=-congruent (visit_all go ps s) (visit_all here x s) _ _ (visit_all-walk ps x e s) (λ w.
          >>=-congruent (visit_opt go v w) (visit_opt here z w) _ _ (visit_opt-walk v z e3 w)
            (visit_opt-walk c y e2))
        ∙ some-image (λ z. visit here z s) d3
    visit-walk (var n) r h s = level n r h s

    visit_all-walk :
        (t r : Tys)
        → walk_all at t ≡ some r
        → (s : List Text) → visit_all go t s ≡ visit_all here r s
    visit_all-walk Kinds.none r h s = some-image (λ z. visit_all here z s) h
    visit_all-walk (more a ts) r h s =
        let (x, e, d) = >>=-some (walk at a) _ r h in
        let (y, f, c) = >>=-some (walk_all at ts) _ r d in
        >>=-congruent (visit go a s) (visit here x s) _ _ (visit-walk a x e s)
          (visit_all-walk ts y f)
        ∙ some-image (λ z. visit_all here z s) c

    visit_opt-walk :
        (t r : Opt)
        → walk_opt at t ≡ some r
        → (s : List Text) → visit_opt go t s ≡ visit_opt here r s
    visit_opt-walk nil r h s = some-image (λ z. visit_opt here z s) h
    visit_opt-walk (given a) r h s =
        let (x, e, d) = >>=-some (walk at a) (λ x. some (given x)) r h in
        visit-walk a x e s ∙ some-image (λ z. visit_opt here z s) d

    visit_fields-walk :
        (t r : Fields)
        → walk_fields at t ≡ some r
        → (s : List Text) → visit_fields go t s ≡ visit_fields here r s
    visit_fields-walk no_fields r h s = some-image (λ z. visit_fields here z s) h
    visit_fields-walk (field n a fs) r h s =
        let (x, e, d) = >>=-some (walk at a) _ r h in
        let (y, f, c) = >>=-some (walk_fields at fs) _ r d in
        >>=-congruent (visit go a s) (visit here x s) _ _ (visit-walk a x e s)
          (visit_fields-walk fs y f)
        ∙ some-image (λ z. visit_fields here z s) c

at_variable :
    (f : Ty → Option Ty) (go : Ty → List Text → Option (List Text)) (y : Text) (o : Option Ty)
    (u : Ty)
    → image f y o ≡ some u
    → ((v w : Ty) → f v ≡ some w → (l : List Text) → go v l ≡ collect_free_vars 0 [] w l)
    → (l : List Text) → see_image go y o l ≡ collect_free_vars 0 [] u l
unfolding image see_image
at_variable f go y none u h k l =
    let q : some (see y l) ≡ collect_free_vars 0 [] (var y) l =
      unfold collect_free_vars visit see_image get in refl in
    q ∙ some-image (λ z. collect_free_vars 0 [] z l) h
at_variable f go y (some v) u h k l = k v u h l

collect_free_vars-apply :
    (n : ℕ) (s : Subst) (t r : Ty)
    → apply n s t ≡ some r
    → (seen : List Text) → collect_free_vars n s t seen ≡ collect_free_vars 0 [] r seen
unfolding apply collect_free_vars
collect_free_vars-apply zero s t r h seen =
    visit-walk _ _ _
      (λ y u k seen. at_variable (λ u. none) (λ u x. none) y (get s y) u k (λ v w l x. cc) seen) t r
      h seen
collect_free_vars-apply (suc n) s t r h seen =
    visit-walk _ _ _
      (λ y u k seen.
        at_variable (apply n s) (collect_free_vars n s) y (get s y) u k
          (λ v w l x. collect_free_vars-apply n s v w l x) seen)
      t r h seen

-- What `FreeTypeVars` finds in a type under bindings, it finds without them in the type that `Apply`
-- makes of it, where `Apply` ends.
pub free_type_vars-apply :
    (n : ℕ) (s : Subst) (t r : Ty)
    → apply n s t ≡ some r
    → free_type_vars n t s ≡ free_type_vars 0 r []
unfolding free_type_vars
free_type_vars-apply n s t r h =
    ap (λ o. o >>= (λ seen. some (sort text_lt seen))) (collect_free_vars-apply n s t r h [])
