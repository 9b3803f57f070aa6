-- ===== src/Types/Grow.antt =====
-- internal/types/subst.go: `Unify` only adds bindings, and adds none that closes a cycle.
use mochi_beam.Base.{
  ℕ, zero, suc, ◌≡◌, refl, sym, ap, subst, ◌∙◌, Bool, true, false, Option, none, some, inl, inr,
  Bool-cases, ◌&&◌, ◌==◌, if◌then◌else◌,
}
use mochi_beam.Base.Results.{ok, err}
use mochi_beam.Text.Chars.{Text, text_eq, text_eq→eq}
use mochi_beam.Types.Kinds as Kinds
use mochi_beam.Types.Kinds.{
  Ty, Tys, Opt, Fields, plain, wrap, pair, struct, union, func, var, more, nil, given, no_fields,
  field, Plain, same_wrap, same_pair,
}
use mochi_beam.Types.Vars.{IsOpen, AreOpen, OptIsOpen}
use mochi_beam.Types.Acyclic.{
  IsAcyclic, ImagesAreOpen, get-put_other, bind_var-cases, bind_var-IsAcyclic,
}
use mochi_beam.Types.Opened.{>>=-some, apply-IsOpen, apply-unbound}
use mochi_beam.Types.Subst.{Subst, get, apply, bind_var, ◌>>=◌}
use mochi_beam.Types.Unify.{
  UnifyOutcome, then_on, is_any_type, same_atomic, count_types, same_flag, is_nil, unify_all,
  unify_variadic, unify_results, against_nil, unify_kinds, unify_step, unify_into, differ,
}

-- No chain of bindings goes on for ever, and no image has a channel, stream, subscriber or future.
abbrev pub IsSound : Subst → Type 0
IsSound s = IsAcyclic s × ImagesAreOpen s

abbrev pub Extends : Subst → Subst → Type 0
Extends r s = (x : Text) (t : Ty) → get s x ≡ some t → get r x ≡ some t

-- If the outcome is bindings, these are sound and extend those before.
abbrev pub Keeps : Subst → UnifyOutcome → Type 0
Keeps s o = (r : Subst) → o ≡ some (ok r) → IsSound r × Extends r s

Keeps-same : (s : Subst) → IsSound s → Keeps s (some (ok s))
Keeps-same s g r e = let q : s ≡ r = cc in subst (λ z. IsSound z × Extends z s) q (g, λ x t h. h)

Keeps-differ : (s : Subst) (a b : Ty) → Keeps s (differ a b)
Keeps-differ s a b r e = cc

Keeps-then_on :
    (s : Subst) (o : UnifyOutcome) (f : Subst → UnifyOutcome)
    → Keeps s o
    → ((r : Subst) → IsSound r → Keeps r (f r))
    → Keeps s (then_on o f)
unfolding then_on
Keeps-then_on s none f h g r e = cc
Keeps-then_on s (some (err x)) f h g r e = cc
Keeps-then_on s (some (ok m)) f h g r e =
    let first = h m refl in
    let second = g m first.0 r e in (second.0, λ x t b. second.1 x t (first.1 x t b))

Keeps-if :
    (s : Subst) (b : Bool) (x y : UnifyOutcome)
    → Keeps s x
    → Keeps s y
    → Keeps s (if b then x else y)
Keeps-if s true x y f g = f
Keeps-if s false x y f g = g

bind_var-Extends :
    (n : ℕ) (s r : Subst) (x : Text) (t : Ty)
    → get s x ≡ none
    → bind_var n s x t ≡ some (ok r)
    → Extends r s
bind_var-Extends n s r x t free h y u g = elim (bind_var-cases n s r x t h) [
  | inl same ↦ subst (λ z. get z y ≡ some u) same g
  | inr (_, same) ↦ elim (Bool-cases (text_eq x y)) [
    | inl e ↦ let q : get s y ≡ none = ap (get s) (sym (text_eq→eq x y e)) ∙ free in cc
    | inr d ↦ subst (λ z. get z y ≡ some u) same (get-put_other s x y t d ∙ g)
  ]
]

abbrev KeepsAll : (Subst → Ty → Ty → UnifyOutcome) → Type 0
KeepsAll go = (s : Subst) (a b : Ty) → IsSound s → IsOpen a → IsOpen b → Keeps s (go s a b)

module _ (app : Subst → Ty → Option Ty) (go : Subst → Ty → Ty → UnifyOutcome)
    (keeps : KeepsAll go) where
  Keeps-unify_all :
      (s : Subst) (a b : Tys) → IsSound s → AreOpen a → AreOpen b → Keeps s (unify_all go s a b)
  unfolding unify_all
  Keeps-unify_all s Kinds.none b g o p = Keeps-same s g
  Keeps-unify_all s (more a ts) Kinds.none g o p = Keeps-same s g
  Keeps-unify_all s (more a ts) (more b us) g o p =
      Keeps-then_on s (go s a b) (λ r. unify_all go r ts us) (keeps s a b g o.0 p.0)
        (λ r g'. Keeps-unify_all r ts us g' o.1 p.1)

  Keeps-unify_variadic :
      (s : Subst) (a b : Opt)
      → IsSound s
      → OptIsOpen a
      → OptIsOpen b
      → Keeps s (unify_variadic go s a b)
  unfolding unify_variadic
  Keeps-unify_variadic s nil b g o p = Keeps-same s g
  Keeps-unify_variadic s (given a) nil g o p = Keeps-same s g
  Keeps-unify_variadic s (given a) (given b) g o p = keeps s a b g o p

  Keeps-against_nil : (s : Subst) (x y : Opt) (t : Ty) → IsSound s → Keeps s (against_nil x y t s)
  unfolding against_nil
  Keeps-against_nil s x y (var n) g = λ r e. cc
  Keeps-against_nil s x y (plain Kinds.any) g = Keeps-same s g
  Keeps-against_nil s x y t g = λ r e. cc

  Keeps-bound :
      (s : Subst) (o : Option Ty) (f : Ty → UnifyOutcome)
      → ((t : Ty) → Keeps s (f t))
      → Keeps s (o >>= f)
  Keeps-bound s none f h = λ r e. cc
  Keeps-bound s (some a) f h = h a

  Keeps-unify_results :
      (s : Subst) (a b : Opt)
      → IsSound s
      → OptIsOpen a
      → OptIsOpen b
      → Keeps s (unify_results app go s a b)
  unfolding unify_results
  Keeps-unify_results s nil nil g o p = λ r e. cc
  Keeps-unify_results s (given a) nil g o p =
      Keeps-bound s (app s a) (λ t. against_nil (given t) nil t s)
        (λ t. Keeps-against_nil s (given t) nil t g)
  Keeps-unify_results s nil (given b) g o p =
      Keeps-bound s (app s b) (λ t. against_nil nil (given t) t s)
        (λ t. Keeps-against_nil s nil (given t) t g)
  Keeps-unify_results s (given a) (given b) g o p = keeps s a b g o p

  Keeps-unify_kinds :
      (s : Subst) (a b : Ty) → IsSound s → IsOpen a → IsOpen b → Keeps s (unify_kinds app go s a b)
  unfolding unify_kinds
  Keeps-unify_kinds s (wrap k a) (wrap l b) g o p =
      Keeps-if s (same_wrap k l) _ _ (keeps s a b g o.1 p.1) (Keeps-differ s (wrap k a) (wrap l b))
  Keeps-unify_kinds s (pair k a b) (pair l c d) g o p =
      Keeps-if s (same_pair k l) _ _
        (Keeps-then_on s (go s a c) (λ r. go r b d) (keeps s a c g o.0 p.0)
          (λ r g'. keeps r b d g' o.1 p.1))
        (Keeps-differ s (pair k a b) (pair l c d))
  Keeps-unify_kinds s (func ps v r e q) (func qs w t d c) g o p =
      Keeps-if s (count_types ps == count_types qs && same_flag (is_nil v) (is_nil w)) _ _
        (Keeps-then_on s (unify_all go s ps qs) _ (Keeps-unify_all s ps qs g o.0 p.0) (λ s1 g1.
          Keeps-then_on s1 (unify_variadic go s1 v w) _ (Keeps-unify_variadic s1 v w g1 o.1.0 p.1.0)
            (λ s2 g2. Keeps-unify_results s2 r t g2 o.1.1 p.1.1)))
        (Keeps-differ s (func ps v r e q) (func qs w t d c))
  Keeps-unify_kinds s (struct n fs) (struct m gs) g o p =
      Keeps-if s (text_eq n m) _ _ (Keeps-same s g) (Keeps-differ s (struct n fs) (struct m gs))
  Keeps-unify_kinds s (union n fs) (union m gs) g o p =
      Keeps-if s (text_eq n m) _ _ (Keeps-same s g) (Keeps-differ s (union n fs) (union m gs))
  Keeps-unify_kinds s (plain a) (plain b) g o p =
      Keeps-if s (same_atomic a b) _ _ (Keeps-same s g) (Keeps-differ s (plain a) (plain b))
  Keeps-unify_kinds s a b g o p = λ r e. cc

-- `Bind` on a variable that has no binding.
Keeps-bind_var :
    (n : ℕ) (s : Subst) (x : Text) (t : Ty)
    → IsSound s
    → IsOpen t
    → get s x ≡ none
    → Keeps s (bind_var n s x t)
Keeps-bind_var n s x t g o free r e =
    (bind_var-IsAcyclic n s r x t g.1 o g.0 e, bind_var-Extends n s r x t free e)

Keeps-unify_step :
    (n : ℕ) (go : Subst → Ty → Ty → UnifyOutcome)
    → KeepsAll go
    → (s : Subst) (a b : Ty) → IsSound s
    → IsOpen a
    → IsOpen b
    → ((x : Text) → a ≡ var x → get s x ≡ none)
    → ((x : Text) → b ≡ var x → get s x ≡ none)
    → Keeps s (unify_step (apply n) (bind_var n) go s a b)
unfolding unify_step
Keeps-unify_step n go k s (var x) b g o p f h = Keeps-bind_var n s x b g p (f x refl)
Keeps-unify_step n go k s a (var x) g o p f h = Keeps-bind_var n s x a g o (h x refl)
Keeps-unify_step n go k s a b g o p f h =
    Keeps-if s (is_any_type a) _ _ (Keeps-same s g) (
      Keeps-if s (is_any_type b) _ _ (Keeps-same s g)
        (Keeps-unify_kinds (apply n) go k s a b g o p))

Keeps-unify_into : (n : ℕ) → KeepsAll (unify_into n)
unfolding unify_into
Keeps-unify_into zero s a b g o p r e = cc
Keeps-unify_into (suc n) s a b g o p r e =
    let (x, q, e1) =
      >>=-some (apply n s a)
        (λ x. apply n s b >>= (λ y. unify_step (apply n) (bind_var n) (unify_into n) s x y)) (ok r)
        e in
    let (y, q2, e2) =
      >>=-some (apply n s b) (λ y. unify_step (apply n) (bind_var n) (unify_into n) s x y) (ok r)
        e1 in
    Keeps-unify_step n (unify_into n) (Keeps-unify_into n) s x y g (apply-IsOpen s g.1 n a x o q)
      (apply-IsOpen s g.1 n b y p q2)
      (λ z i. apply-unbound n s a z (subst (λ w. apply n s a ≡ some w) i q))
      (λ z i. apply-unbound n s b z (subst (λ w. apply n s b ≡ some w) i q2)) r e2

-- `Unify` only adds bindings, and none that closes a cycle: if the bindings it starts from and both
-- types are without channels, streams, subscribers and futures, and no chain of the bindings goes on
-- for ever, then all of this holds of the bindings that it returns, and these keep every earlier one.
pub unify_into-IsSound :
    (n : ℕ) (s r : Subst) (a b : Ty)
    → IsSound s
    → IsOpen a
    → IsOpen b
    → unify_into n s a b ≡ some (ok r)
    → IsSound r × Extends r s
unify_into-IsSound n s r a b g o p e = Keeps-unify_into n s a b g o p r e
