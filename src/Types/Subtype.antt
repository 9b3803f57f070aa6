-- ===== src/Types/Subtype.antt =====
-- internal/types/subtype.go: `Subtype` and `Assignable`.
use mochi_beam.Base.{Bool, true, false, ◌&&◌, ◌||◌, not, if◌then◌else◌}
use mochi_beam.Text.Chars.{Text, text_eq}
use mochi_beam.Types.Kinds.{
  Plain, Wrap, Pair, Ty, Tys, Opt, Variants, plain, wrap, pair, struct, union, func, none, more,
  nil, given, no_variants, variant, any, int, int64, big_int, big_rat, float, set, list, option,
  future, group, same_wrap, same_pair,
}
use mochi_beam.Types.Equal.{equal_kinds, is_future, is_named}

abbrev pub is_any : Ty → Bool
is_any (plain any) = true
is_any _ = false

-- The cases of the numeric kinds.
abbrev pub widens : Plain → Plain → Bool
widens int int64 = true
widens int big_int = true
widens int big_rat = true
widens int64 big_int = true
widens int64 big_rat = true
widens big_int big_rat = true
widens float big_rat = true
widens _ _ = false

abbrev pub is_covariant : Wrap → Bool
is_covariant set = true
is_covariant list = true
is_covariant option = true
is_covariant _ = false

-- `_, ok := tv.Variants[name]`.
unfoldable pub has_variant : Text → Variants → Bool
has_variant n no_variants = false
has_variant n (variant m fs vs) = text_eq m n || has_variant n vs

-- `Subtype` calls itself on the parameters with its arguments swapped. `flows forth s t` is
-- `Subtype(s, t)` and `flows back s t` is `Subtype(t, s)`, so that the recursion is on the first.
pub data Direction : Type 0 where
  forth back : Direction

abbrev pub flip : Direction → Direction
flip forth = back
flip back = forth

-- A relation read in a direction.
abbrev pub along {ℓ κ} : {A : Type ℓ} {B : Type κ} → Direction → (A → A → B) → A → A → B
along forth f a b = f a b
along back f a b = f b a

-- The two tests before the switch.
abbrev pub at_top : Ty → Ty → Bool
at_top s t = equal_kinds s t || is_any t

-- A struct and a union: a variant is below its union, and nothing is below a struct.
abbrev pub is_variant : Ty → Ty → Bool
is_variant (struct n fs) (union m vs) = has_variant n vs
is_variant _ _ = false

abbrev pub same_name : Text → Text → Bool
same_name n m = is_named n && text_eq n m

unfoldable mutual
  pub flows : Direction → Ty → Ty → Bool
  flows d (plain a) (plain b) = along d at_top (plain a) (plain b) || along d widens a b
  flows d (wrap k a) (wrap l b) =
      let below = flows d a b in
      along d at_top (wrap k a) (wrap l b)
      || (same_wrap k l
          && (if is_covariant k then below else not (is_future k) && along d equal_kinds a b))
  flows d (pair k a1 a2) (pair l b1 b2) =
      along d at_top (pair k a1 a2) (pair l b1 b2)
      || (same_pair k l && along d equal_kinds a1 b1 && along d equal_kinds a2 b2)
  flows d (struct n fs) (struct m gs) =
      along d at_top (struct n fs) (struct m gs) || along d same_name n m
  flows d (union n vs) (union m ws) =
      along d at_top (union n vs) (union m ws) || along d same_name n m
  flows d (func ps v r e q) (func ps' v' r' e' q') =
      along d at_top (func ps v r e q) (func ps' v' r' e' q')
      || (flows_all (flip d) ps ps' && flows_opt (flip d) v v' && flows_opt d r r')
  flows d s t = along d at_top s t || along d is_variant s t

  pub flows_all : Direction → Tys → Tys → Bool
  flows_all d none none = true
  flows_all d (more a as') (more b bs) = flows d a b && flows_all d as' bs
  flows_all d _ _ = false

  pub flows_opt : Direction → Opt → Opt → Bool
  flows_opt d nil nil = true
  flows_opt d (given a) (given b) = flows d a b
  flows_opt d _ _ = false

-- `Subtype`.
unfoldable pub subtype : Ty → Ty → Bool
subtype s t = flows forth s t

-- The kinds on whose elements `assignableAt` goes on.
abbrev pub descends : Wrap → Bool
descends set = false
descends future = false
descends _ = true

abbrev pub is_option : Wrap → Bool
is_option option = true
is_option _ = false

abbrev pub is_group : Pair → Bool
is_group group = true
is_group _ = false

-- `assignableAt`.
unfoldable pub assignable_at : Ty → Ty → Bool → Bool
assignable_at (wrap k a) (wrap l b) elems =
    let inner = assignable_at a b true in
    let unwrapped = assignable_at (wrap k a) b elems in
    if same_wrap k l && descends k
    then inner
    else if is_option l && not (is_option k)
    then unwrapped
    else subtype (wrap k a) (wrap l b)
assignable_at (pair k a1 a2) (pair l b1 b2) elems =
    let inner = assignable_at a1 b1 true && assignable_at a2 b2 true in
    if same_pair k l && not (is_group k) then inner else subtype (pair k a1 a2) (pair l b1 b2)
assignable_at s (wrap l b) elems =
    let unwrapped = assignable_at s b elems in
    if elems && is_any s then true else if is_option l then unwrapped else subtype s (wrap l b)
assignable_at s t elems = if is_any t || (elems && is_any s) then true else subtype s t

-- `Assignable`.
unfoldable pub assignable : Ty → Ty → Bool
assignable src dst = assignable_at src dst false
