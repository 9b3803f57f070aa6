-- ===== src/Types/Unify.antt =====
-- internal/types/subst.go: `Unify`, which extends bindings until two types agree under `Apply`.
use mochi_beam.Base.{
  ℕ, zero, suc, Bool, true, false, Option, some, none, if◌then◌else◌, ◌==◌, ◌&&◌, not,
}
use mochi_beam.Base.Results.{Result, ok, err}
use mochi_beam.Text.Chars.{Text, text_eq}
use mochi_beam.Types.Kinds as Kinds
use mochi_beam.Types.Kinds.{
  Plain, Wrap, Ty, Tys, Opt, Fields, plain, wrap, pair, struct, union, func, var, more, nil, given,
  any, value, same_plain, same_wrap, same_pair,
}
use mochi_beam.Types.Subst.{Subst, apply, bind_var, UnifyError, mismatch, ◌>>=◌}

-- What `unifyInto` leaves: the bindings or the error. `none` stands for a run that does not end
-- within the fuel, and for the one case in which a variable is bound to a nil result type.
abbrev pub UnifyOutcome : Type 0
UnifyOutcome = Option (Result {0, 0} UnifyError Subst)

-- `if err := …; err != nil { return err }`, and go on with the bindings.
unfoldable pub then_on : UnifyOutcome → (Subst → UnifyOutcome) → UnifyOutcome
then_on none f = none
then_on (some (err e)) f = some (err e)
then_on (some (ok s)) f = f s

abbrev pub is_any_type : Ty → Bool
is_any_type (plain any) = true
is_any_type _ = false

abbrev pub differ : Ty → Ty → UnifyOutcome
differ a b = some (err (mismatch (given a) (given b)))

-- `sameAtomic`.
abbrev pub is_atomic : Plain → Bool
is_atomic any = false
is_atomic value = false
is_atomic _ = true

unfoldable pub same_atomic : Plain → Plain → Bool
same_atomic p q = is_atomic p && same_plain p q

unfoldable pub count_types : Tys → ℕ
count_types Kinds.none = 0
count_types (more a ts) = suc (count_types ts)

abbrev pub is_nil : Opt → Bool
is_nil nil = true
is_nil (given a) = false

abbrev pub same_flag : Bool → Bool → Bool
same_flag true b = b
same_flag false b = not b

unfoldable pub unify_all : (Subst → Ty → Ty → UnifyOutcome) → Subst → Tys → Tys → UnifyOutcome
unify_all go s Kinds.none ys = some (ok s)
unify_all go s (more a ts) Kinds.none = some (ok s)
unify_all go s (more a ts) (more b us) = then_on (go s a b) (λ r. unify_all go r ts us)

unfoldable pub unify_variadic : (Subst → Ty → Ty → UnifyOutcome) → Subst → Opt → Opt → UnifyOutcome
unify_variadic go s (given a) (given b) = go s a b
unify_variadic go s (given a) nil = some (ok s)
unify_variadic go s nil w = some (ok s)

-- `unifyInto` where one of the two types is nil, on the other one after `Apply`.
unfoldable pub against_nil : Opt → Opt → Ty → Subst → UnifyOutcome
against_nil x y (var n) s = none
against_nil x y (plain any) s = some (ok s)
against_nil x y t s = some (err (mismatch x y))

unfoldable pub unify_results :
    (Subst → Ty → Option Ty) → (Subst → Ty → Ty → UnifyOutcome) → Subst → Opt → Opt → UnifyOutcome
unify_results app go s (given x) (given y) = go s x y
unify_results app go s nil nil = some (err (mismatch nil nil))
unify_results app go s (given x) nil = app s x >>= (λ t. against_nil (given t) nil t s)
unify_results app go s nil (given y) = app s y >>= (λ t. against_nil nil (given t) t s)

-- The switch of `unifyInto` over two types that are neither variables nor any.
unfoldable pub unify_kinds :
    (Subst → Ty → Option Ty) → (Subst → Ty → Ty → UnifyOutcome) → Subst → Ty → Ty → UnifyOutcome
unify_kinds app go s (wrap k a) (wrap l b) =
    if same_wrap k l then go s a b else differ (wrap k a) (wrap l b)
unify_kinds app go s (pair k a b) (pair l c d) =
    if same_pair k l then then_on (go s a c) (λ r. go r b d) else differ (pair k a b) (pair l c d)
unify_kinds app go s (func ps v r e q) (func qs w t d p) =
    if count_types ps == count_types qs && same_flag (is_nil v) (is_nil w)
    then then_on (unify_all go s ps qs)
        (λ s1. then_on (unify_variadic go s1 v w) (λ s2. unify_results app go s2 r t))
    else differ (func ps v r e q) (func qs w t d p)
unify_kinds app go s (struct n fs) (struct m gs) =
    if text_eq n m then some (ok s) else differ (struct n fs) (struct m gs)
unify_kinds app go s (union n vs) (union m us) =
    if text_eq n m then some (ok s) else differ (union n vs) (union m us)
unify_kinds app go s (plain p) (plain q) =
    if same_atomic p q then some (ok s) else differ (plain p) (plain q)
unify_kinds app go s a b = differ a b

-- `unifyInto` after both types have had the bindings applied.
unfoldable pub unify_step :
    (Subst → Ty → Option Ty)
    → (Subst → Text → Ty → UnifyOutcome)
    → (Subst → Ty → Ty → UnifyOutcome)
    → Subst
    → Ty
    → Ty
    → UnifyOutcome
unify_step app binds go s (var n) b = binds s n b
unify_step app binds go s a (var m) = binds s m a
unify_step app binds go s a b =
    if is_any_type a
    then some (ok s)
    else if is_any_type b
    then some (ok s)
    else unify_kinds app go s a b

-- `unifyInto`. The fuel bounds the depth of the recursion and is handed to `Apply` and `Bind`.
unfoldable pub unify_into : ℕ → Subst → Ty → Ty → UnifyOutcome
unify_into zero s a b = none
unify_into (suc n) s a b =
    apply n s a
    >>= (λ x. apply n s b >>= (λ y. unify_step (apply n) (bind_var n) (unify_into n) s x y))
