-- ===== src/Hexsemver/Version.antt =====
-- hexsemver/hexsemver.go: versions, how they are parsed, printed and compared.
use mochi_beam.Base.{Bool, true, false, List, [], ◌∷◌, ◌++◌, Option, none, some, if◌then◌else◌}
use mochi_beam.Base.Int.{ℤ, pos}
use mochi_beam.Base.Results.{Result, ok, err, ◌>>=◌, map_err}
use mochi_beam.Text.Chars.{Text}
use mochi_beam.Text.Cut.{split_on, cut_at}
use mochi_beam.Text.Trim.{trim_space}
use mochi_beam.Text.Decimal.{NumError, atoi, decimal_ℤ}
use mochi_beam.Text.Order.{Sign, below, same, above, lt_ℤ, compare_text}

pub record Version : Type 0 where
  pub major : ℤ
  pub minor : ℤ
  pub patch : ℤ
  pub pre : Text

pub data VersionError : Type 0 where
  invalid_version : Text → VersionError
  invalid_major : Text → NumError → VersionError
  invalid_minor : Text → NumError → VersionError
  invalid_patch : Text → NumError → VersionError
  in_constraint : Text → VersionError → VersionError

abbrev or_empty : Option Text → Text
or_empty none = []
or_empty (some t) = t

-- The parts between the dots: two of them, or three.
parse_parts : Text → Text → List Text → Result VersionError Version
parse_parts s pre (a ∷ b ∷ []) = do
  major ← map_err (invalid_major s) (atoi a)
  minor ← map_err (invalid_minor s) (atoi b)
  ok (record { major = major; minor = minor; patch = pos 0; pre = pre })
parse_parts s pre (a ∷ b ∷ c ∷ []) = do
  major ← map_err (invalid_major s) (atoi a)
  minor ← map_err (invalid_minor s) (atoi b)
  patch ← map_err (invalid_patch s) (atoi c)
  ok (record { major = major; minor = minor; patch = patch; pre = pre })
parse_parts s pre _ = err (invalid_version s)

-- `ParseVersion`.
unfoldable pub parse_version : Text → Result VersionError Version
unfolding parse_parts
parse_version text =
    let cut = cut_at b'-' (trim_space text) in
    parse_parts cut.0 (or_empty cut.1) (split_on b'.' cut.0)

abbrev pub is_release : Text → Bool
is_release [] = true
is_release (c ∷ s) = false

unfoldable pub base_text : Version → Text
base_text v = decimal_ℤ v.major ++ b'.' ∷ (decimal_ℤ v.minor ++ b'.' ∷ decimal_ℤ v.patch)

-- `Version.String`.
unfoldable pub version_text : Version → Text
unfolding base_text
version_text v = if is_release v.pre then base_text v else base_text v ++ b'-' ∷ v.pre

abbrev pub cmp_int : ℤ → ℤ → Sign
cmp_int a b = if lt_ℤ a b then below else if lt_ℤ b a then above else same

abbrev pub cmp_pre : Text → Text → Sign
cmp_pre [] [] = same
cmp_pre (c ∷ s) [] = below
cmp_pre [] (d ∷ t) = above
cmp_pre (c ∷ s) (d ∷ t) = compare_text (c ∷ s) (d ∷ t)

-- `if a != b { return cmpInt(a, b) }`, and what follows otherwise.
abbrev pub then_by : Sign → Sign → Sign
then_by same rest = rest
then_by below rest = below
then_by above rest = above

-- `Version.Compare`.
unfoldable pub compare_version : Version → Version → Sign
compare_version v w =
    then_by (cmp_int v.major w.major)
      (then_by (cmp_int v.minor w.minor) (then_by (cmp_int v.patch w.patch) (cmp_pre v.pre w.pre)))
