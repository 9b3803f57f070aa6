-- ===== src/Types/Poly.antt =====
-- internal/types/poly.go: fresh variables, instances of a scheme, and free variables.
use mochi_beam.Base.{
  ℕ, zero, suc, ◌+◌, ◌^◌, ◌%◌, Bool, true, false, [], ◌∷◌, ◌++◌, ◌==◌, List, Option, some, none,
  length, if◌then◌else◌,
}
use mochi_beam.Base.Sort.{sort}
use mochi_beam.Text.Chars.{Text, codes, text_eq}
use mochi_beam.Text.Decimal.{decimal}
use mochi_beam.Text.Order.{text_lt}
use mochi_beam.Types.Kinds as Kinds
use mochi_beam.Types.Kinds.{
  Ty, Tys, Opt, Fields, plain, wrap, pair, struct, union, func, var, more, nil, given, no_fields,
  field,
}
use mochi_beam.Types.Subst.{Subst, get, put, apply, ◌>>=◌}

-- `freshCounter`, a `uint64`, is passed on: each function that counts gives its next value.
abbrev pub Counter : Type 0
Counter = ℕ

-- `FreshTypeVar`: the name of the variable.
unfoldable pub fresh_type_var : Text → Counter → Text × Counter
fresh_type_var base counter =
    let n = (counter + 1) % 2 ^ 64 in
    let name = if length base == 0 then codes "T" else base in (name ++ (codes "#" ++ decimal n), n)

-- The loop of `Instantiate` over the parameters.
unfoldable pub fresh_bindings : List Text → Subst → Counter → Subst × Counter
fresh_bindings [] s counter = (s, counter)
fresh_bindings (p ∷ ps) s counter =
    let (name, next) = fresh_type_var p counter in fresh_bindings ps (put s p (var name)) next

-- `Instantiate`, with the fuel of `Apply`.
unfoldable pub instantiate : ℕ → Ty → List Text → Counter → Option (Ty × Subst × Counter)
instantiate fuel t [] counter = some (t, [], counter)
instantiate fuel t (p ∷ ps) counter =
    let (s, next) = fresh_bindings (p ∷ ps) [] counter in
    apply fuel s t >>= (λ r. some (r, s, next))

-- `seen[name] = struct{}{}`: the keys of the map, in the order in which they were set.
unfoldable pub is_seen : List Text → Text → Bool
is_seen [] n = false
is_seen (m ∷ ms) n = let rest = is_seen ms n in if text_eq m n then true else rest

unfoldable pub see : Text → List Text → List Text
see n seen = if is_seen seen n then seen else seen ++ n ∷ []

-- The walk of `collectFreeVars`, with `at` for what it does at a variable.
abbrev pub Visit : Type 0
Visit = Text → List Text → Option (List Text)

unfoldable mutual
  pub visit : Visit → Ty → List Text → Option (List Text)
  visit at (plain a) seen = some seen
  visit at (wrap k a) seen = visit at a seen
  visit at (pair k a b) seen = visit at a seen >>= (λ x. visit at b x)
  visit at (struct n fs) seen = visit_fields at fs seen
  visit at (union n vs) seen = some seen
  visit at (func ps v r e q) seen =
      visit_all at ps seen >>= (λ x. visit_opt at v x >>= (λ y. visit_opt at r y))
  visit at (var n) seen = at n seen

  pub visit_all : Visit → Tys → List Text → Option (List Text)
  visit_all at Kinds.none seen = some seen
  visit_all at (more a ts) seen = visit at a seen >>= (λ x. visit_all at ts x)

  pub visit_opt : Visit → Opt → List Text → Option (List Text)
  visit_opt at nil seen = some seen
  visit_opt at (given a) seen = visit at a seen

  pub visit_fields : Visit → Fields → List Text → Option (List Text)
  visit_fields at no_fields seen = some seen
  visit_fields at (field n a fs) seen = visit at a seen >>= (λ x. visit_fields at fs x)

-- At a variable, `collectFreeVars` goes on in its image, or sees it.
unfoldable pub see_image :
    (Ty → List Text → Option (List Text)) → Text → Option Ty → List Text → Option (List Text)
see_image go n none seen = some (see n seen)
see_image go n (some u) seen = go u seen

-- `collectFreeVars`, with the same fuel as `apply`.
unfoldable pub collect_free_vars : ℕ → Subst → Ty → List Text → Option (List Text)
collect_free_vars zero s t seen = visit (λ n. see_image (λ u x. none) n (get s n)) t seen
collect_free_vars (suc fuel) s t seen =
    visit (λ n. see_image (collect_free_vars fuel s) n (get s n)) t seen

-- `FreeTypeVars`.
unfoldable pub free_type_vars : ℕ → Ty → Subst → Option (List Text)
free_type_vars fuel t s = collect_free_vars fuel s t [] >>= (λ seen. some (sort text_lt seen))

-- `envFreeVars`, on the types of the environment and of its parents.
unfoldable pub env_free_vars : List Ty → List Text → Option (List Text)
env_free_vars [] seen = some seen
env_free_vars (t ∷ ts) seen = collect_free_vars zero [] t seen >>= (λ x. env_free_vars ts x)

unfoldable pub without : List Text → List Text → List Text
without captured [] = []
without captured (n ∷ ns) =
    let rest = without captured ns in if is_seen captured n then rest else n ∷ rest

-- `Generalise`: the names. The environment is nil or the types of its bindings.
unfoldable pub generalise : Ty → Option (List Ty) → Option (List Text)
generalise t none = free_type_vars zero t []
generalise t (some env) =
    free_type_vars zero t []
    >>= (λ free. env_free_vars env [] >>= (λ captured. some (without captured free)))
