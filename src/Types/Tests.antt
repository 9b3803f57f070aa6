-- ===== src/Types/Tests.antt =====
-- Runs of internal/types/subtype.go, and instances of the theorems.
use mochi_beam.Base.{◌≡◌, refl, true, false}
use mochi_beam.Text.Chars.{Text, codes, text_eq}
use mochi_beam.Types.Kinds.{
  option, struct, union, no_fields, variant, no_variants, Variants, Ty, plain, wrap, int, big_rat,
  list, future, same_wrap, same_plain,
}
use mochi_beam.Types.Equal.{equal_kinds}
use mochi_beam.Types.Subtype.{has_variant, subtype, assignable_at, flows}
use mochi_beam.Types.Equivalence.{equal_kinds_equivalence}
use mochi_beam.Types.Reflexive.{no_future, subtype_self}
use mochi_beam.Types.Assign.{assignable_at-subtype}
use mochi_beam.Types.Transitive.{subtype_transitive}

abbrev ints : Ty
ints = wrap list (plain int)

abbrev later : Ty
later = wrap list (wrap future (plain int))

subtype_self_example :
    (equal_kinds later later ≡ no_future later) × (subtype later later ≡ no_future later)
subtype_self_example = subtype_self later

later_not_below_itself : subtype later later ≡ false
unfolding subtype flows equal_kinds same_wrap same_plain
later_not_below_itself = refl

ints-below : subtype ints (wrap list (plain big_rat)) ≡ true
unfolding subtype flows equal_kinds same_wrap same_plain
ints-below = refl

assignable_at-subtype_example : assignable_at ints (wrap list (plain big_rat)) false ≡ true
assignable_at-subtype_example =
    assignable_at-subtype ints (wrap list (plain big_rat)) false ints-below

equal_kinds_equivalence_example :
    (equal_kinds ints later ≡ equal_kinds later ints)
    × (equal_kinds ints later ≡ true → equal_kinds later ints ≡ true → equal_kinds ints ints ≡ true)
equal_kinds_equivalence_example = equal_kinds_equivalence ints later ints

-- The declared variants of every union: `A` and `B`.
abbrev shapes : Variants
shapes = variant (codes "A") no_fields (variant (codes "B") no_fields no_variants)

abbrev declared : Text → Variants
declared n = shapes

abbrev shape : Ty
shape = wrap option (union (codes "U") shapes)

abbrev maybe_a : Ty
maybe_a = wrap option (struct (codes "A") no_fields)

maybe_a-below : subtype maybe_a shape ≡ true
unfolding subtype flows equal_kinds same_wrap has_variant text_eq
maybe_a-below = refl

shape-below : subtype shape shape ≡ true
unfolding subtype flows equal_kinds same_wrap has_variant text_eq
shape-below = refl

subtype_transitive_example : subtype maybe_a shape ≡ true
subtype_transitive_example =
    subtype_transitive declared maybe_a shape shape tt refl refl maybe_a-below shape-below
