-- ===== src/Hexsemver/Reprint.antt =====
-- hexsemver/hexsemver.go: printing a constraint and parsing it again changes what `~>` accepts.
use mochi_beam.Base.{ℕ, not, ◌^◌, ◌<◌, ◌≡◌, Bool, true, false, [], arith}
use mochi_beam.Base.Int.{pos}
use mochi_beam.Base.Results.{ok}
use mochi_beam.Hexsemver.Version.{compare_version}
use mochi_beam.Hexsemver.Constraint.{
  Constraint, pessimistic, matches, parse_constraint, constraint_text,
}
use mochi_beam.Hexsemver.Printed.{plain, constraint_of, parse_constraint-constraint_text}
use mochi_beam.Hexsemver.Ranges.{release}

later_minor :
    (p : Bool) (a m q m' q' : ℕ)
    → m < m'
    → matches (constraint_of pessimistic p (plain a m q [])) (release (pos a) m' q') ≡ not p
unfolding matches compare_version
later_minor p a m q m' q' h = ground arith

-- The constraint `~> a.m` accepts every later minor release of the same major version. `String`
-- prints it as `~> a.m.q`, and what `ParseConstraint` makes of that accepts none of them.
pub constraint_text-narrows :
    (a m q m' q' : ℕ)
    → a < 2 ^ 63
    → m < 2 ^ 63
    → q < 2 ^ 63
    → m < m'
    → (c : Constraint) × (parse_constraint
          (constraint_text (constraint_of pessimistic false (plain a m q [])))
        ≡ ok c)
      × (matches (constraint_of pessimistic false (plain a m q [])) (release (pos a) m' q') ≡ true)
      × (matches c (release (pos a) m' q') ≡ false)
constraint_text-narrows a m q m' q' ha hm hq h = (
  constraint_of pessimistic true (plain a m q []),
  parse_constraint-constraint_text pessimistic false a m q [] ha hm hq tt,
  later_minor false a m q m' q' h,
  later_minor true a m q m' q' h,
)
