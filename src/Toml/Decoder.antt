-- ===== src/Toml/Decoder.antt =====
-- internal/toml/decoder.go: the typed accessors of a table.
use mochi_beam.Base.{ℕ, Bool, [], ◌∷◌, Option, some, none, List, zero, suc}
use mochi_beam.Base.Int.{ℤ}
use mochi_beam.Base.Results.{Result, ok, err, ◌>>=◌}
use mochi_beam.Text.Chars.{Text}
use mochi_beam.Toml.Values as Values
use mochi_beam.Toml.Values.{
  Value, Tables, Table, table, tables, array, string, int, bool, no_tables, one_table, no_values,
  value, lookup,
}

-- The errors: a value of another type, at an index of an array, or no value.
pub data DecodeError : Type 0 where
  wrong_type : Text → Value → DecodeError
  wrong_member : Text → ℕ → Value → DecodeError
  missing_key : Text → DecodeError

-- The result of an accessor: nothing is at the key, a value, or an error.
abbrev pub Access : Type 0 → Type 0
Access A = Result {0, 0} DecodeError (Option A)

unfoldable pub string_of : Text → Option Value → Access Text
string_of key none = ok none
string_of key (some (string s)) = ok (some s)
string_of key (some v) = err (wrong_type key v)

-- `Decoder.String`.
unfoldable pub get_string : Table → Text → Access Text
get_string t key = string_of key (lookup t key)

unfoldable pub required : Text → Option Text → Result {0, 0} DecodeError Text
required key none = err (missing_key key)
required key (some s) = ok s

-- `Decoder.StringRequired`.
unfoldable pub get_string_required : Table → Text → Result {0, 0} DecodeError Text
get_string_required t key = get_string t key >>= required key

unfoldable pub int_of : Text → Option Value → Access ℤ
int_of key none = ok none
int_of key (some (int n)) = ok (some n)
int_of key (some v) = err (wrong_type key v)

-- `Decoder.Int`.
unfoldable pub get_int : Table → Text → Access ℤ
get_int t key = int_of key (lookup t key)

unfoldable pub bool_of : Text → Option Value → Access Bool
bool_of key none = ok none
bool_of key (some (bool b)) = ok (some b)
bool_of key (some v) = err (wrong_type key v)

-- `Decoder.Bool`.
unfoldable pub get_bool : Table → Text → Access Bool
get_bool t key = bool_of key (lookup t key)

unfoldable pub table_of : Text → Option Value → Access Table
table_of key none = ok none
table_of key (some (table u)) = ok (some u)
table_of key (some v) = err (wrong_type key v)

-- `Decoder.Table`.
unfoldable pub get_table : Table → Text → Access Table
get_table t key = table_of key (lookup t key)

unfoldable pub list_of_tables : Tables → List Table
list_of_tables no_tables = []
list_of_tables (one_table t ts) = t ∷ list_of_tables ts

unfoldable pub tables_of : Text → Option Value → Access (List Table)
tables_of key none = ok none
tables_of key (some (tables ts)) = ok (some (list_of_tables ts))
tables_of key (some v) = err (wrong_type key v)

-- `Decoder.TableArray`.
unfoldable pub get_tables : Table → Text → Access (List Table)
get_tables t key = tables_of key (lookup t key)

-- The loop of `Decoder.StringArray` from index `i` on.
unfoldable pub strings_from : Text → ℕ → Values.Values → Result {0, 0} DecodeError (List Text)
strings_from key i no_values = ok []
strings_from key i (value (string s) vs) = strings_from key (suc i) vs >>= (λ ss. ok (s ∷ ss))
strings_from key i (value v vs) = err (wrong_member key i v)

unfoldable pub strings_of : Text → Option Value → Access (List Text)
strings_of key none = ok none
strings_of key (some (array vs)) = strings_from key zero vs >>= (λ ss. ok (some ss))
strings_of key (some v) = err (wrong_type key v)

-- `Decoder.StringArray`.
unfoldable pub get_strings : Table → Text → Access (List Text)
get_strings t key = strings_of key (lookup t key)
