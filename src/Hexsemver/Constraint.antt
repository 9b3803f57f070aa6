-- ===== src/Hexsemver/Constraint.antt =====
-- hexsemver/hexsemver.go: constraints and requirements.
use mochi_beam.Base.{
  Bool, true, false, ◌&&◌, not, List, [], ◌∷◌, ◌++◌, Option, none, some, if◌then◌else◌, leb, drop,
  length,
}
use mochi_beam.Base.Int.{ℤ}
use mochi_beam.Base.Results.{Result, ok, ◌>>=◌, map_err}
use mochi_beam.Text.Chars.{Text, codes, has_prefix}
use mochi_beam.Text.Cut.{split_on, cut_at, count_of}
use mochi_beam.Text.Trim.{trim_space}
use mochi_beam.Text.Order.{Sign, below, same, above, lt_ℤ}
use mochi_beam.Hexsemver.Version.{
  Version, VersionError, in_constraint, parse_version, version_text, compare_version, is_release,
}

-- The values of the field `op`, in the order in which `ParseConstraint` tries them.
pub data Op : Type 0 where
  pessimistic at_least at_most greater less exactly : Op

unfoldable pub op_text : Op → Text
op_text pessimistic = codes "~>"
op_text at_least = codes ">="
op_text at_most = codes "<="
op_text greater = codes ">"
op_text less = codes "<"
op_text exactly = codes "=="

pub record Constraint : Type 0 where
  pub op : Op
  pub version : Version
  pub has_patch : Bool

abbrev pub candidates : List Op
candidates = pessimistic ∷ at_least ∷ at_most ∷ greater ∷ less ∷ exactly ∷ []

-- The loop over the candidates: the operator found, and the text of the version.
unfoldable pub find_op : Text → List Op → Op × Text
find_op s [] = (exactly, s)
find_op s (o ∷ os) =
    let rest = find_op s os in
    if has_prefix s (op_text o) then (o, trim_space (drop (length (op_text o)) s)) else rest

-- `ParseConstraint`.
unfoldable pub parse_constraint : Text → Result VersionError Constraint
unfolding find_op op_text
parse_constraint text =
    let found = find_op (trim_space text) candidates in
    do
      v ← map_err (in_constraint (trim_space text)) (parse_version found.1)
      ok (record {
        op = found.0;
        version = v;
        has_patch = leb 2 (count_of b'.' (cut_at b'-' found.1).0);
      })

abbrev pub is_exact : Op → Bool
is_exact exactly = true
is_exact _ = false

abbrev pub is_below : Sign → Bool
is_below below = true
is_below _ = false

abbrev pub is_same : Sign → Bool
is_same same = true
is_same _ = false

abbrev pub is_above : Sign → Bool
is_above above = true
is_above _ = false

-- `a == b` on `int`.
abbrev pub eq_ℤ : ℤ → ℤ → Bool
eq_ℤ a b = not (lt_ℤ a b) && not (lt_ℤ b a)

-- The switch on the operator, after the filter on pre-releases.
unfoldable pub holds : Op → Bool → Version → Version → Sign → Bool
holds exactly p v w cmp = is_same cmp
holds greater p v w cmp = is_above cmp
holds at_least p v w cmp = not (is_below cmp)
holds less p v w cmp = is_below cmp
holds at_most p v w cmp = not (is_above cmp)
holds pessimistic p v w cmp =
    if is_below cmp
    then false
    else if not p
    then eq_ℤ v.major w.major
    else eq_ℤ v.major w.major && eq_ℤ v.minor w.minor

-- `Constraint.Matches`.
unfoldable pub matches : Constraint → Version → Bool
unfolding holds
matches c v =
    if not (is_release v.pre) && (not (is_exact c.op) && is_release c.version.pre)
    then false
    else holds c.op c.has_patch v c.version (compare_version v c.version)

-- `Constraint.String`.
unfoldable pub constraint_text : Constraint → Text
unfolding op_text
constraint_text c = op_text c.op ++ b' ' ∷ version_text c.version

-- `Requirements.Satisfies`.
unfoldable pub satisfies : List Constraint → Version → Bool
satisfies [] v = true
satisfies (c ∷ cs) v = if not (matches c v) then false else satisfies cs v

-- The loop of `ParseRequirements`; empty parts are skipped.
abbrev is_blank : Text → Bool
is_blank [] = true
is_blank (c ∷ s) = false

parse_each : List Text → Result VersionError (List Constraint)
parse_each [] = ok []
parse_each (p ∷ ps) =
    let rest = parse_each ps in
    if is_blank (trim_space p)
    then rest
    else parse_constraint (trim_space p) >>= (λ c. rest >>= (λ cs. ok (c ∷ cs)))

unfoldable pub parse_requirements : Text → Result VersionError (List Constraint)
unfolding parse_each
parse_requirements s = parse_each (split_on b',' s)

-- One round of the loop of `BestMatch`: the best version so far, if one was found.
unfoldable pub better : List Constraint → Option Version → Version → Option Version
better r none v = if satisfies r v then some v else none
better r (some best) v =
    if satisfies r v && is_above (compare_version v best) then some v else some best

unfoldable pub best_from : List Constraint → Option Version → List Version → Option Version
best_from r best [] = best
best_from r best (v ∷ vs) = best_from r (better r best v) vs

-- `Requirements.BestMatch`; `none` is the zero version with `false`.
unfoldable pub best_match : List Constraint → List Version → Option Version
best_match r candidates = best_from r none candidates
