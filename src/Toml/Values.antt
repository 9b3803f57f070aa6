-- ===== src/Toml/Values.antt =====
-- internal/toml: the tree of values that the parser builds, and its errors.
use mochi_beam.Base.{
  ℕ, Bool, List, Option, none, some, if◌then◌else◌, [], ◌∷◌, ◌==◌, ◌-◌, length, take, suc,
}
use mochi_beam.Base.Int.{ℤ}
use mochi_beam.Base.Results.{Result}
use mochi_beam.Text.Chars.{Text, text_eq}
use mochi_beam.Text.Decimal.{NumError}

-- A float is the decimal that was read, its sign, its digits and its power of ten, before it is
-- rounded to the nearest `float64`. A table has its keys in the order in which they were set.
mutual
  pub data Value : Type 0 where
    string : Text → Value
    int : ℤ → Value
    float : Bool → ℕ → ℤ → Value
    bool : Bool → Value
    array : Values → Value
    tables : Tables → Value
    table : Table → Value

  pub data Values : Type 0 where
    no_values : Values
    value : Value → Values → Values

  pub data Tables : Type 0 where
    no_tables : Tables
    one_table : Table → Tables → Tables

  pub data Table : Type 0 where
    empty : Table
    entry : Text → Value → Table → Table

-- `m[key]`.
unfoldable pub lookup : Table → Text → Option Value
lookup empty key = none
lookup (entry k v t) key = let rest = lookup t key in if text_eq k key then some v else rest

-- `m[key] = value`.
unfoldable pub set : Table → Text → Value → Table
set empty key u = entry key u empty
set (entry k v t) key u =
    let rest = set t key u in if text_eq k key then entry k u t else entry k v rest

pub data Number : Type 0 where
  syntax range : Number

-- What is wrong. A character is the byte at hand, and 0 at the end of the text. `duplicate_key` has
-- what was left to read where its line began.
pub data Cause : Type 0 where
  trailing_garbage expected_key unexpected_start expected_digit : ℕ → Cause
  expected_array_header_end expected_header_end : ℕ → Cause
  dotted_key : Text → Cause
  expected_equals : Text → ℕ → Cause
  expected_inline_equals expected_inline_end expected_array_end : ℕ → Cause
  duplicate_key : Text → Text → Cause
  duplicate_inline_key : Text → Cause
  end_in_value multiline unterminated_string newline_in_string unterminated_escape : Cause
  short_escape : Cause
  bad_escape : Text → Cause
  unknown_escape : ℕ → Cause
  unterminated_array expected_bool non_decimal empty_path : Cause
  bad_float : Text → Number → Cause
  bad_int : Text → NumError → Cause
  empty_tables : List Text → Cause
  not_a_table : Text → List Text → Cause
  not_tables : Text → Cause

-- An error has what was left to read where it was made. `unfinished` is no error of the code: it
-- stands for a run that the fuel cuts off.
pub data Failure : Type 0 where
  unfinished : Failure
  at : Text → Cause → Failure

abbrev pub Parsed : Type 0 → Type 0
Parsed A = Result {0, 0} Failure A

-- `p.line` and `p.col`, from the text and what is left of it: every character that `advance` passes
-- is counted, a line break begins a line.
unfoldable pub line_col : ℕ → ℕ → Text → ℕ × ℕ
line_col line col [] = (line, col)
line_col line col (c ∷ s) =
    let new_line = c == b'\n' in
    line_col (if new_line then suc line else line) (if new_line then 1 else suc col) s

unfoldable pub position : Text → Text → ℕ × ℕ
position src rest = line_col 1 1 (take (length src - length rest) src)
