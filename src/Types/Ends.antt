-- ===== src/Types/Ends.antt =====
-- internal/types/subst.go: `Apply` ends on bindings of which no chain goes on for ever.
use mathlib.Core.WellFounded.{Acc}
use mochi_beam.Base.{
  ℕ, zero, suc, ◌+◌, ◌≡◌, refl, sym, subst, Option, none, some, ◌⊎◌, inl, inr, Option-cases, arith,
}
use mochi_beam.Text.Chars.{Text}
use mochi_beam.Types.Kinds as Kinds
use mochi_beam.Types.Kinds.{
  Ty, Tys, Opt, Fields, plain, wrap, pair, struct, union, func, var, more, nil, given, no_fields,
  field,
}
use mochi_beam.Types.Vars.{HasVar, HaveVar, OptHasVar, FieldsHaveVar}
use mochi_beam.Types.Subst.{Subst, get, walk, walk_all, walk_opt, walk_fields, image, apply, ◌>>=◌}
use mochi_beam.Types.Acyclic.{Below, IsAcyclic}

abbrev Ended {ℓ} : {A : Type ℓ} → Option A → Type ℓ
Ended {A = A} o = (a : A) × (o ≡ some a)

>>=-Ended {ℓ κ} :
    {A : Type ℓ} {B : Type κ} (o : Option A) (f : A → Option B)
    → Ended o
    → ((a : A) → Ended (f a))
    → Ended (o >>= f)
>>=-Ended o f (a, e) g = subst (λ z. Ended (z >>= f)) (sym e) (g a)

-- A walk ends where it ends at every variable of the type.
module _ (at : Text → Option Ty) where
  mutual
    unfolding walk walk_all walk_opt walk_fields

    walk-Ended : (t : Ty) → ((y : Text) → HasVar y t → Ended (at y)) → Ended (walk at t)
    walk-Ended (plain a) f = (plain a, refl)
    walk-Ended (wrap k a) f =
        >>=-Ended (walk at a) (λ x. some (wrap k x)) (walk-Ended a f) (λ x. (wrap k x, refl))
    walk-Ended (pair k a b) f =
        >>=-Ended (walk at a) (λ x. walk at b >>= (λ y. some (pair k x y)))
          (walk-Ended a (λ y v. f y (inl v)))
          (λ x.
            >>=-Ended (walk at b) (λ y. some (pair k x y)) (walk-Ended b (λ y v. f y (inr v)))
              (λ y. (pair k x y, refl)))
    walk-Ended (struct n fs) f =
        >>=-Ended (walk_fields at fs) (λ gs. some (struct n gs)) (fields-Ended fs f)
          (λ gs. (struct n gs, refl))
    walk-Ended (union n vs) f = (union n vs, refl)
    walk-Ended (func ps v r e q) f =
        >>=-Ended (walk_all at ps) _ (all-Ended ps (λ y u. f y (inl u))) (λ qs.
          >>=-Ended (walk_opt at r) _ (opt-Ended r (λ y u. f y (inr (inr u)))) (λ s.
            >>=-Ended (walk_opt at v) _ (opt-Ended v (λ y u. f y (inr (inl u))))
              (λ w. (func qs w s e q, refl))))
    walk-Ended (var n) f = f n refl

    all-Ended : (t : Tys) → ((y : Text) → HaveVar y t → Ended (at y)) → Ended (walk_all at t)
    all-Ended Kinds.none f = (Kinds.none, refl)
    all-Ended (more a ts) f = >>=-Ended (walk at a) _ (walk-Ended a (λ y v. f y (inl v))) (λ x.
        >>=-Ended (walk_all at ts) _ (all-Ended ts (λ y v. f y (inr v))) (λ y. (more x y, refl)))

    opt-Ended : (t : Opt) → ((y : Text) → OptHasVar y t → Ended (at y)) → Ended (walk_opt at t)
    opt-Ended nil f = (nil, refl)
    opt-Ended (given a) f = >>=-Ended (walk at a) _ (walk-Ended a f) (λ x. (given x, refl))

    fields-Ended :
        (t : Fields) → ((y : Text) → FieldsHaveVar y t → Ended (at y)) → Ended (walk_fields at t)
    fields-Ended no_fields f = (no_fields, refl)
    fields-Ended (field n a fs) f =
        >>=-Ended (walk at a) _ (walk-Ended a (λ y v. f y (inl v))) (λ x.
          >>=-Ended (walk_fields at fs) _ (fields-Ended fs (λ y v. f y (inr v)))
            (λ y. (field n x y, refl)))

-- Every chain of bindings from the variable has at most so many.
abbrev IsShallow : Subst → ℕ → Text → Type 0
IsShallow s zero x = get s x ≡ none
IsShallow s (suc n) x = (y : Text) → Below s y x → IsShallow s n y

IsShallow-suc : (s : Subst) (n : ℕ) (x : Text) → IsShallow s n x → IsShallow s (suc n) x
IsShallow-suc s zero x h y b = let e = b.1 in cc
IsShallow-suc s (suc n) x h y b = IsShallow-suc s n y (h y b)

IsShallow-add : (s : Subst) (n k : ℕ) (x : Text) → IsShallow s n x → IsShallow s (k + n) x
IsShallow-add s n zero x h = subst (λ z. IsShallow s z x) (omega arith) h
IsShallow-add s n (suc k) x h =
    subst (λ z. IsShallow s z x) {x = suc (k + n)} (omega arith)
      (IsShallow-suc s (k + n) x (IsShallow-add s n k x h))

-- One bound for all the variables of a type.
module _ (s : Subst) where
  abbrev Bound : (Text → Type 0) → Type 0
  Bound In = (n : ℕ) × ((y : Text) → In y → IsShallow s n y)

  no_vars : {In : Text → Type 0} → ((y : Text) → ¬ In y) → Bound In
  no_vars f = (0, λ y v. absurd (f y v))

  both : {In Out : Text → Type 0} → Bound In → Bound Out → Bound (λ y. In y ⊎ Out y)
  both (n, f) (m, g) = (
    n + m,
    λ y v. elim v [
      | inl u ↦ subst (λ z. IsShallow s z y) (omega arith) (IsShallow-add s n m y (f y u))
      | inr u ↦ IsShallow-add s m n y (g y u)
    ],
  )

  mutual
    bound :
        (t : Ty) → ((y : Text) → HasVar y t → (n : ℕ) × IsShallow s n y) → Bound (λ y. HasVar y t)
    bound (plain a) f = no_vars (λ y v. v)
    bound (wrap k a) f = bound a f
    bound (pair k a b) f = both (bound a (λ y v. f y (inl v))) (bound b (λ y v. f y (inr v)))
    bound (struct n fs) f = bound_fields fs f
    bound (union n vs) f = no_vars (λ y v. v)
    bound (func ps v r e q) f =
        both (bound_all ps (λ y u. f y (inl u)))
          (both (bound_opt v (λ y u. f y (inr (inl u)))) (bound_opt r (λ y u. f y (inr (inr u)))))
    bound (var n) f = let (m, h) = f n refl in (m, λ y v. subst (IsShallow s m) (sym v) h)

    bound_all :
        (t : Tys)
        → ((y : Text) → HaveVar y t → (n : ℕ) × IsShallow s n y)
        → Bound (λ y. HaveVar y t)
    bound_all Kinds.none f = no_vars (λ y v. v)
    bound_all (more a ts) f =
        both (bound a (λ y v. f y (inl v))) (bound_all ts (λ y v. f y (inr v)))

    bound_opt :
        (t : Opt)
        → ((y : Text) → OptHasVar y t → (n : ℕ) × IsShallow s n y)
        → Bound (λ y. OptHasVar y t)
    bound_opt nil f = no_vars (λ y v. v)
    bound_opt (given a) f = bound a f

    bound_fields :
        (t : Fields)
        → ((y : Text) → FieldsHaveVar y t → (n : ℕ) × IsShallow s n y)
        → Bound (λ y. FieldsHaveVar y t)
    bound_fields no_fields f = no_vars (λ y v. v)
    bound_fields (field n a fs) f =
        both (bound a (λ y v. f y (inl v))) (bound_fields fs (λ y v. f y (inr v)))

  shallow : (x : Text) → Acc (Below s) x → (n : ℕ) × IsShallow s n x
  shallow x (Acc.intro _ smaller) = elim (Option-cases (get s x)) [
    | inl e ↦ (0, e)
    | inr (t, e) ↦
        let (n, h) = bound t (λ y v. shallow y (smaller y (t, e, v))) in
        (suc n, λ y b. let q : b.0 ≡ t = (let g = b.1 in cc) in h y (subst (HasVar y) q b.2))
  ]

  apply-Ended : (n : ℕ) (t : Ty) → ((y : Text) → HasVar y t → IsShallow s n y) → Ended (apply n s t)
  unfolding apply image
  apply-Ended zero t f =
      walk-Ended (λ n. image (λ u. none) n (get s n)) t
        (λ y v. subst (λ z. Ended (image (λ u. none) y z)) (sym (f y v)) (var y, refl))
  apply-Ended (suc n) t f =
      walk-Ended (λ n'. image (apply n s) n' (get s n')) t
        (λ y v. elim (Option-cases (get s y)) [
          | inl e ↦ subst (λ z. Ended (image (apply n s) y z)) (sym e) (var y, refl)
          | inr (u, e) ↦
              subst (λ z. Ended (image (apply n s) y z)) (sym e)
                (apply-Ended n u (λ z w. f y v z (u, e, w)))
        ])

-- `Apply` ends: on bindings of which no chain goes on for ever there is, for every type, a number of
-- nested bindings that is enough for `Apply` to return a type.
pub apply-terminates :
    (s : Subst) (t : Ty) → IsAcyclic s → (n : ℕ) × (r : Ty) × (apply n s t ≡ some r)
apply-terminates s t acyclic =
    let (n, h) = bound s t (λ y v. shallow s y (acyclic y)) in
    let (r, e) = apply-Ended s n t h in (n, r, e)
