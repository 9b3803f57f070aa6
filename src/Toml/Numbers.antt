-- ===== src/Toml/Numbers.antt =====
-- internal/toml/parser.go: `parseNumber` and `parseBool`.
use mochi_beam.Base.{
  ℕ, suc, ◌+◌, ◌*◌, ◌-◌, ◌^◌, Bool, true, false, [], ◌∷◌, ◌++◌, ◌==◌, ◌||◌, ◌&&◌, leb, ltb, length,
  if◌then◌else◌, drop,
}
use mochi_beam.Base.Int.{ℤ, pos, neg_ℕ}
use mochi_beam.Base.Results.{Result, ok, err}
use mochi_beam.Text.Chars.{Text, is_digit, has_prefix, codes}
use mochi_beam.Text.Decimal.{NumError, atoi, digits_value}
use mochi_beam.Toml.Values.{
  Value, int, float, bool, Parsed, at, expected_digit, expected_bool, non_decimal, bad_int,
  bad_float, Number, syntax, range,
}
use mochi_beam.Toml.Scan.{peek, advance, span}

unfoldable pub is_sign : ℕ → Bool
is_sign c = (c == b'+') || (c == b'-')

-- The loop over the digits; an underscore is passed over after the first digit.
unfoldable pub number_digits : Bool → Text → Text × Text
number_digits seen [] = ([], [])
number_digits seen (c ∷ s) =
    let (w, r) = number_digits (seen || is_digit c) s in
    if is_digit c then (c ∷ w, r) else if (c == b'_') && seen then (w, r) else ([], c ∷ s)

unfoldable pub is_base : ℕ → Bool
is_base c = (c == b'x') || (c == b'o') || (c == b'b') || (c == b'X') || (c == b'O') || (c == b'B')

-- The digits after a `.`, if there is one, and what is left.
unfoldable pub fraction : Text → (Bool × Text) × Text
fraction s =
    if peek s == b'.'
    then (let (w, r) = span is_digit (advance s) in ((true, w), r))
    else ((false, []), s)

-- The sign of the exponent.
unfoldable pub sign_of_number : Text → Text × Text
sign_of_number s = if is_sign (peek s) then (peek s ∷ [], advance s) else ([], s)

-- The exponent, if there is one: its sign and its digits.
unfoldable pub exponent : Text → (Bool × Text × Text) × Text
exponent s =
    if (peek s == b'e') || (peek s == b'E')
    then (let (w, r) = sign_of_number (advance s) in
        let (d, r2) = span is_digit r in ((true, w, d), r2))
    else ((false, [], []), s)

-- The exponent that `strconv.ParseFloat` reads: it stops counting at 10000.
unfoldable pub saturating : ℕ → Text → ℕ
saturating n [] = n
saturating n (c ∷ s) = saturating (if ltb n 10000 then n * 10 + (c - 48) else n) s

-- The decimal is a power of two that `float64` has no room for, after rounding.
unfoldable pub overflows : ℕ → ℤ → Bool
overflows m (pos e) = leb (2 ^ 1024 - 2 ^ 970) (m * 10 ^ e)
overflows m (ℤ.negsuc e) = leb ((2 ^ 1024 - 2 ^ 970) * 10 ^ suc e) m

-- `up - down`.
abbrev pub minus : ℕ → ℕ → ℤ
minus up down = if leb down up then pos (up - down) else neg_ℕ (down - up)

-- `strconv.ParseFloat` on a sign, digits, the digits of the fraction, and an exponent.
unfoldable pub parse_float : Text → Text → Text → Bool × Text × Text → Result {0, 0} Number Value
parse_float sign w f e =
    let m = digits_value 0 (w ++ f) in
    let n = saturating 0 e.2 in
    let p = if peek e.1 == b'-' then neg_ℕ (n + length f) else minus n (length f) in
    if e.0 && (length e.2 == 0)
    then err syntax
    else if overflows m p
    then err range
    else ok (float (peek sign == b'-') m p)

abbrev pub float_result : Text → Text → Result {0, 0} Number Value → Parsed (Value × Text)
float_result raw r (ok v) = ok (v, r)
float_result raw r (err e) = err (at r (bad_float raw e))

abbrev pub int_result : Text → Text → Result {0, 0} NumError ℤ → Parsed (Value × Text)
int_result raw r (ok v) = ok (int v, r)
int_result raw r (err e) = err (at r (bad_int raw e))

abbrev pub dot_text : Bool → Text
dot_text b = if b then b'.' ∷ [] else []

-- The end of `parseNumber`, after the digits `w`, with `s` left. The letter of the exponent, `c`, is
-- in the text of the literal only.
unfoldable pub number_end : Text → Text → Text → Parsed (Value × Text)
number_end sign w s =
    let (f, r) = fraction s in
    let c = peek r in
    let (e, r2) = exponent r in
    let exponent_text = if e.0 then c ∷ e.1 ++ e.2 else [] in
    let raw = sign ++ w ++ dot_text f.0 ++ f.1 ++ exponent_text in
    if is_base (peek s)
    then err (at s non_decimal)
    else if f.0 || e.0
    then float_result raw r2 (parse_float sign w f.1 e)
    else int_result raw r2 (atoi (sign ++ w))

unfoldable pub parse_number : Text → Parsed (Value × Text)
parse_number s =
    let (sign, r) = sign_of_number s in
    let (w, r2) = number_digits false r in
    if length w == 0 then err (at r2 (expected_digit (peek r2))) else number_end sign w r2

unfoldable pub parse_bool : Text → Parsed (Value × Text)
parse_bool s =
    if has_prefix s (codes "true")
    then ok (bool true, drop 4 s)
    else if has_prefix s (codes "false")
    then ok (bool false, drop 5 s)
    else err (at s expected_bool)
