-- ===== src/Toml/Parse.antt =====
-- internal/toml/parser.go: keys, values, arrays and inline tables.
use mochi_beam.Base.{
  ℕ, zero, suc, Bool, [], ◌∷◌, ◌==◌, ◌||◌, Option, some, none, length, if◌then◌else◌,
}
use mochi_beam.Base.Results.{ok, err, ◌>>=◌}
use mochi_beam.Text.Chars.{Text, is_digit}
use mochi_beam.Toml.Values as Values
use mochi_beam.Toml.Values.{
  Value, Tables, Table, array, tables, table, no_values, value, no_tables, one_table, empty, lookup,
  set, string, Parsed, at, unfinished, expected_key, unexpected_start, end_in_value,
  unterminated_array, expected_array_end, expected_inline_equals, expected_inline_end,
  duplicate_inline_key,
}
use mochi_beam.Toml.Scan.{peek, advance, skip_inline_ws, skip_ws, is_bare, span}
use mochi_beam.Toml.Strings.{parse_string}
use mochi_beam.Toml.Numbers.{parse_number, parse_bool, is_sign}

unfoldable pub is_quote : ℕ → Bool
is_quote c = (c == b'"') || (c == b'\'')

-- `parseKey`.
unfoldable pub parse_key : Text → Parsed (Text × Text)
parse_key s =
    let (w, r) = span is_bare s in
    if is_quote (peek s)
    then parse_string (peek s) (advance s)
    else if length w == 0
    then err (at s (expected_key (peek s)))
    else ok (w, r)

-- What the first character of a value says of it.
pub data Start : Type 0 where
  quoted opened braced boolean number other : Start

unfoldable pub start : ℕ → Start
start c =
    if is_quote c
    then quoted
    else if c == b'['
    then opened
    else if c == b'{'
    then braced
    else if (c == b't') || (c == b'f')
    then boolean
    else if is_sign c || is_digit c
    then number
    else other

-- An array whose members are all tables is an array of tables, unless it is empty.
abbrev pub add_table : Value → Option Tables → Option Tables
add_table (table t) (some ts) = some (one_table t ts)
add_table _ _ = none

unfoldable pub all_tables : Values.Values → Option Tables
all_tables no_values = some no_tables
all_tables (value v vs) = add_table v (all_tables vs)

abbrev pub array_or_tables : Values.Values → Option Tables → Value
array_or_tables vs (some (one_table t ts)) = tables (one_table t ts)
array_or_tables vs _ = array vs

unfoldable pub finished : Values.Values → Value
finished vs = array_or_tables vs (all_tables vs)

abbrev pub and_then_value : Value → Parsed (Values.Values × Text) → Parsed (Values.Values × Text)
and_then_value v (ok (vs, r)) = ok (value v vs, r)
and_then_value v (err e) = err e

-- After a value of an array: a comma and more, the end, or an error. `more` is the rest of the loop.
unfoldable pub after_item :
    Value → (Text → Parsed (Values.Values × Text)) → Text → Parsed (Values.Values × Text)
after_item v more s =
    if peek s == b','
    then and_then_value v (more (advance s))
    else if peek s == b']'
    then ok (value v no_values, advance s)
    else err (at s (expected_array_end (peek s)))

-- One turn of the loop of `parseArray`, on what is left after white space.
unfoldable pub item :
    (Text → Parsed (Value × Text))
    → (Text → Parsed (Values.Values × Text))
    → Text
    → Parsed (Values.Values × Text)
item parse more [] = err (at [] unterminated_array)
item parse more (c ∷ s) =
    if c == b']'
    then ok (no_values, s)
    else parse (c ∷ s) >>= (λ x. after_item x.0 more (skip_ws x.1))

-- The loop of `parseArray`, with `parse` for `parseValue`.
unfoldable pub items : ℕ → (Text → Parsed (Value × Text)) → Text → Parsed (Values.Values × Text)
items zero parse s = err unfinished
items (suc n) parse s = item parse (items n parse) (skip_ws s)

-- After a value of an inline table.
unfoldable pub after_pair :
    Table → (Table → Text → Parsed (Table × Text)) → Text → Parsed (Table × Text)
after_pair t more s =
    if peek s == b','
    then more t (advance s)
    else if peek s == b'}'
    then ok (t, advance s)
    else err (at s (expected_inline_end (peek s)))

-- `if _, ok := t[k]; ok`, else `t[k] = val`.
unfoldable pub add_key : Table → Text → Value → Text → Option Value → Parsed (Table × Text)
add_key t k v r (some u) = err (at r (duplicate_inline_key k))
add_key t k v r none = ok (set t k v, r)

unfoldable pub pair_value : (Text → Parsed (Value × Text)) → Text → Parsed (Value × Text)
pair_value parse s =
    if peek s == b'='
    then parse (skip_inline_ws (advance s))
    else err (at s (expected_inline_equals (peek s)))

-- The loop of `parseInlineTable`.
unfoldable pub pairs : ℕ → (Text → Parsed (Value × Text)) → Table → Text → Parsed (Table × Text)
pairs zero parse t s = err unfinished
pairs (suc n) parse t s = parse_key (skip_inline_ws s) >>= (λ k.
    pair_value parse (skip_inline_ws k.1) >>= (λ v.
      add_key t k.0 v.0 v.1 (lookup t k.0)
      >>= (λ x. after_pair x.0 (pairs n parse) (skip_inline_ws x.1))))

unfoldable pub inline_table : ℕ → (Text → Parsed (Value × Text)) → Text → Parsed (Table × Text)
inline_table n parse s =
    if peek (skip_inline_ws s) == b'}'
    then ok (empty, advance (skip_inline_ws s))
    else pairs n parse empty (skip_inline_ws s)

-- `parseValue` by the first character, with `s` from that character on.
unfoldable pub value_from :
    ℕ → (Text → Parsed (Value × Text)) → Start → Text → Parsed (Value × Text)
value_from n parse quoted s = parse_string (peek s) (advance s) >>= (λ x. ok (string x.0, x.1))
value_from n parse opened s = items n parse (advance s) >>= (λ x. ok (finished x.0, x.1))
value_from n parse braced s = inline_table n parse (advance s) >>= (λ x. ok (table x.0, x.1))
value_from n parse boolean s = parse_bool s
value_from n parse number s = parse_number s
value_from n parse other s = err (at s (unexpected_start (peek s)))

-- `parseValue`. The fuel bounds the depth of the values and the rounds of their loops.
unfoldable pub parse_value : ℕ → Text → Parsed (Value × Text)
parse_value zero s = err unfinished
parse_value (suc n) [] = err (at [] end_in_value)
parse_value (suc n) (c ∷ s) = value_from n (parse_value n) (start c) (c ∷ s)
