-- ===== src/Types/Equal.antt =====
-- internal/types/subtype.go: `equalKinds`.
use mochi_beam.Base.{Bool, true, false, [], ◌∷◌, ◌&&◌, ◌||◌, not, if◌then◌else◌}
use mochi_beam.Text.Chars.{Text, text_eq}
use mochi_beam.Types.Kinds.{
  Wrap, Ty, Tys, Opt, Fields, plain, wrap, pair, struct, union, func, var, none, more, nil, given,
  no_fields, field, future, same_plain, same_wrap, same_pair,
}

abbrev pub is_future : Wrap → Bool
is_future future = true
is_future _ = false

abbrev pub is_named : Text → Bool
is_named [] = false
is_named (c ∷ s) = true

-- Two structs are compared by name if one of them has a name, else by their fields.
abbrev pub by_name : Text → Text → Bool → Bool
by_name n m fields = if is_named n || is_named m then text_eq n m else fields

-- `equalKinds`, which has no case for a future. Parameters are compared after their number.
unfoldable mutual
  pub equal_kinds : Ty → Ty → Bool
  equal_kinds (plain a) (plain b) = same_plain a b
  equal_kinds (wrap k a) (wrap l b) = not (is_future k) && same_wrap k l && equal_kinds a b
  equal_kinds (pair k a1 a2) (pair l b1 b2) =
      same_pair k l && equal_kinds a1 b1 && equal_kinds a2 b2
  equal_kinds (struct n fs) (struct m gs) = by_name n m (equal_fields fs gs)
  equal_kinds (union n vs) (union m ws) = text_eq n m
  equal_kinds (func ps v r e q) (func ps' v' r' e' q') =
      equal_all ps ps' && equal_opt v v' && equal_opt r r'
  equal_kinds (var n) (var m) = text_eq n m
  equal_kinds _ _ = false

  pub equal_all : Tys → Tys → Bool
  equal_all none none = true
  equal_all (more a as') (more b bs) = equal_kinds a b && equal_all as' bs
  equal_all _ _ = false

  pub equal_opt : Opt → Opt → Bool
  equal_opt nil nil = true
  equal_opt (given a) (given b) = equal_kinds a b
  equal_opt _ _ = false

  pub equal_fields : Fields → Fields → Bool
  equal_fields no_fields no_fields = true
  equal_fields (field n a fs) (field m b gs) = text_eq n m && equal_kinds a b && equal_fields fs gs
  equal_fields _ _ = false
