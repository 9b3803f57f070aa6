-- ===== src/Types/Subst.antt =====
-- internal/types/subst.go: substitutions, `Apply`, `Compose`, the occurs check and `Bind`.
use mochi_beam.Base.{
  ℕ, zero, suc, Bool, true, false, List, [], ◌∷◌, Option, none, some, if◌then◌else◌,
}
use mochi_beam.Base.Results.{Result, ok, err}
use mochi_beam.Text.Chars.{Text, text_eq}
use mochi_beam.Types.Kinds.{
  Wrap, set, list, option, chan, stream, sub, future, Ty, Tys, Opt, Fields, plain, wrap, pair,
  struct, union, func, var, more, nil, given, no_fields, field,
}
use mochi_beam.Types.Kinds as Kinds

-- `Subst`: the bindings of a map, in the order in which they were made.
abbrev pub Subst : Type 0
Subst = List (Text × Ty)

unfoldable pub get : Subst → Text → Option Ty
get [] name = none
get (e ∷ es) name = let rest = get es name in if text_eq e.0 name then some e.1 else rest

-- `sub[name] = t`.
unfoldable pub put : Subst → Text → Ty → Subst
put [] name t = (name, t) ∷ []
put (e ∷ es) name t =
    let rest = put es name t in if text_eq e.0 name then (name, t) ∷ es else e ∷ rest

infixl 5 ◌>>=◌
abbrev pub ◌>>=◌ {ℓ κ} : {A : Type ℓ} {B : Type κ} → Option A → (A → Option B) → Option B
none >>= f = none
some a >>= f = f a

-- The walk of `Apply` over a type, with `at` for what it does at a variable. `none` is a walk that
-- does not end within the fuel.
unfoldable mutual
  pub walk : (Text → Option Ty) → Ty → Option Ty
  walk at (plain a) = some (plain a)
  walk at (wrap k a) = walk at a >>= (λ x. some (wrap k x))
  walk at (pair k a b) = walk at a >>= (λ x. walk at b >>= (λ y. some (pair k x y)))
  walk at (struct n fs) = walk_fields at fs >>= (λ gs. some (struct n gs))
  walk at (union n vs) = some (union n vs)
  walk at (func ps v r e q) =
      walk_all at ps
      >>= (λ qs. walk_opt at r >>= (λ s. walk_opt at v >>= (λ w. some (func qs w s e q))))
  walk at (var n) = at n

  pub walk_all : (Text → Option Ty) → Tys → Option Tys
  walk_all at Kinds.none = some Kinds.none
  walk_all at (more a ts) = walk at a >>= (λ x. walk_all at ts >>= (λ xs. some (more x xs)))

  pub walk_opt : (Text → Option Ty) → Opt → Option Opt
  walk_opt at nil = some nil
  walk_opt at (given a) = walk at a >>= (λ x. some (given x))

  pub walk_fields : (Text → Option Ty) → Fields → Option Fields
  walk_fields at no_fields = some no_fields
  walk_fields at (field n a fs) =
      walk at a >>= (λ x. walk_fields at fs >>= (λ gs. some (field n x gs)))

-- At a variable, `Apply` goes on in its image.
unfoldable pub image : (Ty → Option Ty) → Text → Option Ty → Option Ty
image go n none = some (var n)
image go n (some u) = go u

-- `Subst.Apply`. The fuel counts the bindings that are followed one inside the other.
unfoldable pub apply : ℕ → Subst → Ty → Option Ty
apply zero s t = walk (λ n. image (λ u. none) n (get s n)) t
apply (suc fuel) s t = walk (λ n. image (apply fuel s) n (get s n)) t

-- `Subst.Compose`: `other` with `sub` applied to its images, then the bindings of `sub`.
unfoldable pub put_all : Subst → Subst → Subst
put_all out [] = out
put_all out (e ∷ es) = put_all (put out e.0 e.1) es

unfoldable pub apply_all : ℕ → Subst → Subst → Option Subst
apply_all fuel s [] = some []
apply_all fuel s (e ∷ es) =
    apply fuel s e.1 >>= (λ t. apply_all fuel s es >>= (λ rest. some ((e.0, t) ∷ rest)))

unfoldable pub compose : ℕ → Subst → Subst → Option Subst
compose fuel s other = apply_all fuel s other >>= (λ out. some (put_all out s))

-- The kinds into whose element `occurs` looks.
abbrev pub is_searched : Wrap → Bool
is_searched set = true
is_searched list = true
is_searched option = true
is_searched _ = false

-- `a || b`, where `b` is not run if `a` is true.
abbrev pub or_else : Option Bool → Option Bool → Option Bool
or_else none y = none
or_else (some true) y = some true
or_else (some false) y = y

-- The walk of `occurs`, with `at` for what it does at a variable.
unfoldable mutual
  pub search : (Text → Option Bool) → Ty → Option Bool
  search at (plain a) = some false
  search at (wrap k a) = let inner = search at a in if is_searched k then inner else some false
  search at (pair k a b) = or_else (search at a) (search at b)
  search at (struct n fs) = search_fields at fs
  search at (union n vs) = some false
  search at (func ps v r e q) =
      or_else (search_all at ps) (or_else (search_opt at v) (search_opt at r))
  search at (var n) = at n

  pub search_all : (Text → Option Bool) → Tys → Option Bool
  search_all at Kinds.none = some false
  search_all at (more a ts) = or_else (search at a) (search_all at ts)

  pub search_opt : (Text → Option Bool) → Opt → Option Bool
  search_opt at nil = some false
  search_opt at (given a) = search at a

  pub search_fields : (Text → Option Bool) → Fields → Option Bool
  search_fields at no_fields = some false
  search_fields at (field n a fs) = or_else (search at a) (search_fields at fs)

-- At a variable, `occurs` compares its name and goes on in its image.
unfoldable pub hit : (Ty → Option Bool) → Bool → Option Ty → Option Bool
hit go true u = some true
hit go false none = some false
hit go false (some u) = go u

-- `occurs`, with the same fuel as `apply`.
unfoldable pub occurs : ℕ → Text → Subst → Ty → Option Bool
occurs zero name s t = search (λ n. hit (λ u. none) (text_eq n name) (get s n)) t
occurs (suc fuel) name s t = search (λ n. hit (occurs fuel name s) (text_eq n name) (get s n)) t

pub data UnifyError : Type 0 where
  occurs_check : Text → Ty → UnifyError
  mismatch : Opt → Opt → UnifyError

-- `t` is the variable `name`.
abbrev pub is_var : Text → Ty → Bool
is_var name (var n) = text_eq n name
is_var name _ = false

-- `Subst.Bind`; the map after it, or the error.
unfoldable pub bind_var : ℕ → Subst → Text → Ty → Option (Result UnifyError Subst)
bind_var fuel s name t =
    if is_var name t
    then some (ok s)
    else occurs fuel name s t
      >>= (λ b. some (if b then err (occurs_check name t) else ok (put s name t)))
