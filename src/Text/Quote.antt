-- ===== src/Text/Quote.antt =====
-- The verb `%q` of `fmt`, `strconv.Quote`.
use mochi_beam.Base.{ℕ, [], ◌∷◌, ◌++◌, ◌==◌, ◌||◌, ltb, ◌/◌, ◌%◌, ◌+◌, ◌-◌, if◌then◌else◌}
use mochi_beam.Text.Chars.{Text}

abbrev hex_char : ℕ → ℕ
hex_char n = if ltb n 10 then b'0' + n else b'a' + (n - 10)

-- One character. Those above 0x7f are kept; `strconv.Quote` escapes those that do not print.
unfoldable pub quote_char : ℕ → Text
quote_char c =
    if (c == b'"') || (c == b'\\')
    then b'\\' ∷ c ∷ []
    else if c == 7
    then b'\\' ∷ b'a' ∷ []
    else if c == 8
    then b'\\' ∷ b'b' ∷ []
    else if c == 9
    then b'\\' ∷ b't' ∷ []
    else if c == 10
    then b'\\' ∷ b'n' ∷ []
    else if c == 11
    then b'\\' ∷ b'v' ∷ []
    else if c == 12
    then b'\\' ∷ b'f' ∷ []
    else if c == 13
    then b'\\' ∷ b'r' ∷ []
    else if ltb c 0x20 || (c == 0x7f)
    then b'\\' ∷ b'x' ∷ hex_char (c / 16) ∷ hex_char (c % 16) ∷ []
    else c ∷ []

unfoldable pub quote_chars : Text → Text
quote_chars [] = []
quote_chars (c ∷ s) = quote_char c ++ quote_chars s

unfoldable pub quote : Text → Text
quote s = b'"' ∷ quote_chars s ++ b'"' ∷ []
