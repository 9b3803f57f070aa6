-- ===== src/Toml/Strings.antt =====
-- internal/toml/parser.go: `parseString`.
use mochi_beam.Base.{
  ℕ, zero, suc, ◌+◌, ◌*◌, ◌-◌, ◌/◌, ◌%◌, [], ◌∷◌, ◌++◌, ◌==◌, ◌||◌, ◌&&◌, leb, ltb, length, Option,
  none, some, if◌then◌else◌,
}
use mochi_beam.Base.Results.{ok, err}
use mochi_beam.Text.Chars.{Text}
use mochi_beam.Toml.Values.{
  Parsed, Failure, at, multiline, unterminated_string, newline_in_string, unterminated_escape,
  short_escape, bad_escape, unknown_escape,
}
use mochi_beam.Toml.Scan.{peek, advance}

-- Where the loop stands: between characters, after a backslash, or in the digits of `\u`, with the
-- digits read and the count of those to come after the next one.
pub data Mode : Type 0 where
  plain escaped : Mode
  hex : Text → ℕ → Mode

-- One turn of the loop: the string ends, the parser fails, or bytes are written.
pub data Move : Type 0 where
  done : Move
  fail : Failure → Move
  write : Text → Mode → Move

-- `strconv.ParseUint(hex, 16, 32)` on four bytes.
abbrev hex_digit : ℕ → Option ℕ
hex_digit c =
    if leb b'0' c && leb c b'9'
    then some (c - b'0')
    else if leb b'a' c && leb c b'f'
    then some (c - b'a' + 10)
    else if leb b'A' c && leb c b'F'
    then some (c - b'A' + 10)
    else none

abbrev next_digit : Option ℕ → Option ℕ → Option ℕ
next_digit (some n) (some d) = some (n * 16 + d)
next_digit _ _ = none

unfoldable pub hex_value : Option ℕ → Text → Option ℕ
hex_value n [] = n
hex_value n (c ∷ s) = hex_value (next_digit n (hex_digit c)) s

-- `WriteRune` below 0x10000: UTF-8, with U+FFFD for a surrogate.
unfoldable pub utf8 : ℕ → Text
utf8 n =
    if ltb n 0x80
    then n ∷ []
    else if ltb n 0x800
    then (0xc0 + n / 64) ∷ (0x80 + n % 64) ∷ []
    else if leb 0xd800 n && leb n 0xdfff
    then 0xef ∷ 0xbf ∷ 0xbd ∷ []
    else (0xe0 + n / 4096) ∷ (0x80 + n / 64 % 64) ∷ (0x80 + n % 64) ∷ []

unfoldable pub write_hex : Text → Text → Option ℕ → Move
write_hex s digits (some n) = write (utf8 n) plain
write_hex s digits none = fail (at s (bad_escape digits))

-- The switch over the character after a backslash, with `s` after it.
unfoldable pub escape : ℕ → Text → Move
escape c s =
    if (c == b'"') || (c == b'\\') || (c == b'/')
    then write (c ∷ []) plain
    else if c == b'n'
    then write (10 ∷ []) plain
    else if c == b't'
    then write (9 ∷ []) plain
    else if c == b'r'
    then write (13 ∷ []) plain
    else if c == b'b'
    then write (8 ∷ []) plain
    else if c == b'f'
    then write (12 ∷ []) plain
    else if c == b'u'
    then if ltb (length s) 4 then fail (at s short_escape) else write [] (hex [] 3)
    else fail (at s (unknown_escape c))

unfoldable pub move : ℕ → Mode → ℕ → Text → Move
move quote plain c s =
    if c == quote
    then done
    else if c == b'\n'
    then fail (at s newline_in_string)
    else if (quote == b'"') && (c == b'\\')
    then if length s == 0 then fail (at s unterminated_escape) else write [] escaped
    else write (c ∷ []) plain
move quote escaped c s = escape c s
move quote (hex digits (suc n)) c s = write [] (hex (digits ++ c ∷ []) n)
move quote (hex digits zero) c s =
    let word = digits ++ c ∷ [] in write_hex s word (hex_value (some 0) word)

unfoldable pub prefixed : Text → Parsed (Text × Text) → Parsed (Text × Text)
prefixed w (ok (t, r)) = ok (w ++ t, r)
prefixed w (err e) = err e

unfoldable pub resume : Text → Move → (Mode → Parsed (Text × Text)) → Parsed (Text × Text)
resume s done f = ok ([], s)
resume s (fail e) f = err e
resume s (write w m) f = prefixed w (f m)

-- The loop of `parseString`: the string and what is left after its closing quote.
unfoldable pub string_loop : ℕ → Mode → Text → Parsed (Text × Text)
string_loop quote m [] = err (at [] unterminated_string)
string_loop quote m (c ∷ s) = resume s (move quote m c s) (λ m'. string_loop quote m' s)

-- `parseString`, after the quote with which it begins.
unfoldable pub parse_string : ℕ → Text → Parsed (Text × Text)
parse_string quote s =
    if peek s == quote
    then if peek (advance s) == quote then err (at (advance s) multiline) else ok ([], advance s)
    else string_loop quote plain s
