-- ===== src/Types/UnifyTests.antt =====
-- Runs of internal/types/subst.go, and instances of the theorems.
use mathlib.Core.WellFounded.Acc as Acc
use mochi_beam.Base.{ℕ, arith, ◌≡◌, ◌≢◌, refl, [], ◌∷◌, some, none}
use mochi_beam.Base.Results.{ok, err}
use mochi_beam.Base.Sort.{sort, insert}
use mochi_beam.Text.Chars.{Text, codes, text_eq}
use mochi_beam.Text.Decimal.{decimal, decimal_from}
use mochi_beam.Text.Order.{text_lt, compare_text}
use mochi_beam.Types.Kinds.{Ty, plain, wrap, pair, var, int, list, chan, map, same_wrap}
use mochi_beam.Types.Subst.{
  Subst, get, put, apply, walk, image, bind_var, occurs, search, hit, occurs_check,
}
use mochi_beam.Types.Acyclic.{bind_var-IsAcyclic}
use mochi_beam.Types.Ends.{apply-terminates}
use mochi_beam.Types.Unify.{unify_into, unify_step, unify_kinds}
use mochi_beam.Types.Grow.{IsSound, Extends, unify_into-IsSound}
use mochi_beam.Types.Loops.{apply-bind_loop}
use mochi_beam.Types.Free.{free_type_vars-apply}
use mochi_beam.Types.Fresh.{fresh_type_var_distinct}
use mochi_beam.Types.Poly.{
  instantiate, fresh_bindings, fresh_type_var, free_type_vars, collect_free_vars, visit, see_image,
  see, is_seen, generalise, env_free_vars, without,
}

abbrev t_name : Text
t_name = codes "T"

abbrev u_name : Text
u_name = codes "U"

-- `T ↦ [U]`.
abbrev one_binding : Subst
one_binding = (t_name, wrap list (var u_name)) ∷ []

empty-IsSound : IsSound []
unfolding get
empty-IsSound = (λ x. Acc.intro x (λ y b. let q = b.1 in cc), λ x t e. cc)

bind_list : bind_var 3 [] t_name (wrap list (var u_name)) ≡ some (ok one_binding)
unfolding bind_var put occurs search hit text_eq get
bind_list = refl

one_binding-IsSound : IsSound one_binding
one_binding-IsSound =
    bind_var-IsAcyclic 3 [] one_binding t_name (wrap list (var u_name)) empty-IsSound.1 (refl, tt)
      empty-IsSound.0 bind_list

apply-terminates_example :
    (n : ℕ) × (r : Ty) × (apply n one_binding (pair map (var t_name) (var u_name)) ≡ some r)
apply-terminates_example =
    apply-terminates one_binding (pair map (var t_name) (var u_name)) one_binding-IsSound.0

apply_chases :
    apply 1 one_binding (pair map (var t_name) (var u_name))
    ≡ some (pair map (wrap list (var u_name)) (var u_name))
unfolding apply walk image get text_eq
apply_chases = refl

-- `U ↦ int` is added by the unification of `[U]` and `[int]`.
abbrev two_bindings : Subst
two_bindings = (t_name, wrap list (var u_name)) ∷ (u_name, plain int) ∷ []

unify_lists : unify_into 3 one_binding (var t_name) (wrap list (plain int)) ≡ some (ok two_bindings)
unfolding unify_into unify_step unify_kinds apply walk image get put text_eq same_wrap bind_var
    occurs search hit
unify_lists = refl

unify_into-IsSound_example : IsSound two_bindings × Extends two_bindings one_binding
unify_into-IsSound_example =
    unify_into-IsSound 3 one_binding two_bindings (var t_name) (wrap list (plain int))
      one_binding-IsSound tt (refl, tt) unify_lists

apply-bind_loop_example :
    (r : Subst) × (bind_var 2 [] t_name (wrap chan (var t_name)) ≡ some (ok r))
    × (apply 5 r (var t_name) ≡ none)
apply-bind_loop_example = apply-bind_loop chan t_name 2 5 refl

bind_refuses :
    bind_var 2 [] t_name (wrap list (var t_name))
    ≡ some (err (occurs_check t_name (wrap list (var t_name))))
unfolding bind_var occurs search hit text_eq get
bind_refuses = refl

free_type_vars-apply_example :
    free_type_vars 1 (pair map (var t_name) (var t_name)) one_binding
    ≡ free_type_vars 0 (pair map (wrap list (var u_name)) (wrap list (var u_name))) []
free_type_vars-apply_example =
    free_type_vars-apply 1 one_binding (pair map (var t_name) (var t_name))
      (pair map (wrap list (var u_name)) (wrap list (var u_name)))
      (unfold apply walk image get text_eq in refl)

-- The second variable is captured from the environment.
generalise_leaves :
    generalise (pair map (var u_name) (var t_name)) (some (wrap list (var u_name) ∷ []))
    ≡ some (t_name ∷ [])
unfolding generalise free_type_vars collect_free_vars visit see_image see is_seen env_free_vars
    without get text_eq sort insert text_lt compare_text
generalise_leaves = refl

instantiate_renames :
    instantiate 1 (pair map (var u_name) (var t_name)) (t_name ∷ []) 6
    ≡ some (pair map (var u_name) (var (codes "T#7")), (t_name, var (codes "T#7")) ∷ [], 7)
unfolding instantiate fresh_bindings fresh_type_var apply walk image get put text_eq decimal
    decimal_from
instantiate_renames = refl

fresh_type_var_distinct_example : (fresh_type_var [] 6).0 ≢ (fresh_type_var t_name 17).0
fresh_type_var_distinct_example =
    fresh_type_var_distinct [] t_name 6 17 (omega arith) (omega arith) (λ h. omega (arith, h))
