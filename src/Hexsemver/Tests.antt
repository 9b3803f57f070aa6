-- ===== src/Hexsemver/Tests.antt =====
-- Runs of hexsemver/hexsemver.go, and its theorems at concrete inputs.
use mochi_beam.Base.{◌≡◌, ◌↔◌, ◌⊎◌, refl, true, false, List, [], ◌∷◌, some, none, arith, All}
use mochi_beam.Base.Int.{pos}
use mochi_beam.Base.Results.{ok, err}
use mochi_beam.Text.Chars.{codes, is_space, is_digit, has_prefix}
use mochi_beam.Text.Order.{below, same, flip}
use mochi_beam.Text.Cut.{split_on, cut_at, count_of}
use mochi_beam.Text.Trim.{trim_space, trim_left, trim_right}
use mochi_beam.Text.Decimal.{
  range_error, atoi, unsigned, parse_digits, digits_value, decimal, decimal_from, decimal_ℤ,
}
use mochi_beam.Hexsemver.Version.{Version, parse_version, version_text, compare_version}
use mochi_beam.Hexsemver.Constraint.{
  Constraint, pessimistic, at_least, less, matches, satisfies, best_match, best_from, better,
  parse_constraint, constraint_text, parse_requirements,
}
use mochi_beam.Hexsemver.Order.{compare_version_total_order}
use mochi_beam.Hexsemver.Resolve.{IsBest, best_match_lem}
use mochi_beam.Hexsemver.Ranges.{release, constraint, matches-pessimistic}
use mochi_beam.Hexsemver.Printed.{
  plain, constraint_of, parse_version-version_text, parse_constraint-constraint_text,
}
use mochi_beam.Hexsemver.Reprint.{constraint_text-narrows}

-- The number has more than 64 bits before the character that is no digit.
out_of_range : atoi (codes "99999999999999999999x") ≡ err range_error
unfolding atoi unsigned parse_digits is_digit
out_of_range = refl

parsed : parse_version (codes " 2.13.4-rc.1 ") ≡ ok (plain 2 13 4 (codes "rc.1"))
unfolding parse_version trim_space trim_left trim_right is_space cut_at split_on atoi unsigned
    parse_digits is_digit digits_value
parsed = refl

-- The patch may be left out, and a plus sign may stand in front of a number.
parsed_short : parse_version (codes "+2.1") ≡ ok (plain 2 1 0 [])
unfolding parse_version trim_space trim_left trim_right is_space cut_at split_on atoi unsigned
    parse_digits is_digit digits_value
parsed_short = refl

printed : version_text (plain 2 13 4 (codes "rc.1")) ≡ codes "2.13.4-rc.1"
unfolding version_text decimal_ℤ decimal decimal_from
printed = refl

requirements :
    parse_requirements (codes ">= 2.0.0, ~> 2.1,")
    ≡ ok (
        constraint_of at_least true (plain 2 0 0 [])
        ∷ constraint_of pessimistic false (plain 2 1 0 [])
        ∷ [])
unfolding parse_requirements parse_constraint parse_version trim_space trim_left trim_right is_space
    cut_at split_on atoi unsigned parse_digits is_digit digits_value has_prefix count_of
requirements = refl

compare_version_total_order_example :
    (compare_version (plain 2 0 0 []) (plain 2 0 0 (codes "rc.1"))
      ≡ flip (compare_version (plain 2 0 0 (codes "rc.1")) (plain 2 0 0 [])))
    × ((compare_version (plain 2 0 0 (codes "rc.1")) (plain 2 0 0 []) ≡ same)
        ↔ (plain 2 0 0 (codes "rc.1") ≡ plain 2 0 0 []))
    × (compare_version (plain 2 0 0 (codes "rc.1")) (plain 2 0 0 []) ≡ below
        → compare_version (plain 2 0 0 []) (plain 2 0 1 []) ≡ below
        → compare_version (plain 2 0 0 (codes "rc.1")) (plain 2 0 1 []) ≡ below)
compare_version_total_order_example =
    compare_version_total_order (plain 2 0 0 (codes "rc.1")) (plain 2 0 0 []) (plain 2 0 1 [])

abbrev series : List Constraint
series = constraint_of pessimistic false (plain 2 1 0 []) ∷ []

abbrev published : List Version
published = plain 2 1 4 [] ∷ plain 3 0 0 [] ∷ plain 2 9 0 [] ∷ plain 2 10 0 (codes "rc") ∷ []

best_match_lem_example :
    ((best : Version) × (best_match series published ≡ some best) × IsBest series published best)
    ⊎ ((best_match series published ≡ none) × All (λ v. satisfies series v ≡ false) published)
best_match_lem_example = best_match_lem series published

best_run : best_match series published ≡ some (plain 2 9 0 [])
unfolding best_match best_from better satisfies matches compare_version
best_run = refl

matches-pessimistic_example :
    matches (constraint_of pessimistic false (plain 2 1 0 [])) (release (pos 2) 9 0)
    ≡ satisfies
        (constraint at_least (plain 2 1 0 []) ∷ constraint less (plain 3 0 0 []) ∷ [])
        (release (pos 2) 9 0)
matches-pessimistic_example = matches-pessimistic false (plain 2 1 0 []) (pos 2) 9 0

-- A pre-release of a later major version, for a constraint that names another pre-release.
later_pre_release :
    matches (constraint_of at_least true (plain 2 0 0 (codes "rc"))) (plain 3 0 0 (codes "beta"))
    ≡ true
unfolding matches compare_version
later_pre_release = refl

parse_version-version_text_example :
    parse_version (version_text (plain 2 13 4 (codes "rc.1"))) ≡ ok (plain 2 13 4 (codes "rc.1"))
parse_version-version_text_example =
    parse_version-version_text 2 13 4 (codes "rc.1") (omega arith) (omega arith) (omega arith)
      (unfold is_space in refl)

parse_constraint-constraint_text_example :
    parse_constraint (constraint_text (constraint_of at_least true (plain 2 13 4 [])))
    ≡ ok (constraint_of at_least true (plain 2 13 4 []))
parse_constraint-constraint_text_example =
    parse_constraint-constraint_text at_least true 2 13 4 [] (omega arith) (omega arith)
      (omega arith) tt

constraint_text-narrows_example :
    (c : Constraint) × (parse_constraint
        (constraint_text (constraint_of pessimistic false (plain 2 1 0 [])))
      ≡ ok c)
    × (matches (constraint_of pessimistic false (plain 2 1 0 [])) (release (pos 2) 9 0) ≡ true)
    × (matches c (release (pos 2) 9 0) ≡ false)
constraint_text-narrows_example =
    constraint_text-narrows 2 1 0 9 0 (omega arith) (omega arith) (omega arith) (omega arith)
