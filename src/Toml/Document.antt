-- ===== src/Toml/Document.antt =====
-- internal/toml/parser.go: the document, its tables and its arrays of tables.
use mochi_beam.Base.{
  ℕ, zero, suc, Bool, true, false, [], ◌∷◌, ◌++◌, ◌==◌, Option, some, none, length, if◌then◌else◌,
  List,
}
use mochi_beam.Base.Results.{Result, ok, err, ◌>>=◌, map_err}
use mochi_beam.Text.Chars.{Text}
use mochi_beam.Toml.Values.{
  Value, Tables, Table, table, tables, no_tables, one_table, empty, lookup, set, Cause, Parsed, at,
  unfinished, expected_equals, dotted_key, duplicate_key, expected_array_header_end,
  expected_header_end, empty_path, empty_tables, not_a_table, not_tables,
}
use mochi_beam.Toml.Scan.{peek, advance, skip_inline_ws, skip_ws, skip_line_end}
use mochi_beam.Toml.Parse.{parse_key, parse_value}

-- `parseKeyPath`: keys with dots between them.
unfoldable pub after_key :
    Text → (Text → Parsed (List Text × Text)) → Text → Parsed (List Text × Text)
after_key k more s =
    if peek s == b'.' then more (advance s) >>= (λ x. ok (k ∷ x.0, x.1)) else ok (k ∷ [], s)

unfoldable pub key_path : ℕ → Text → Parsed (List Text × Text)
key_path zero s = err unfinished
key_path (suc n) s =
    parse_key (skip_inline_ws s) >>= (λ k. after_key k.0 (key_path n) (skip_inline_ws k.1))

abbrev pub Changed : Type 0 → Type 0
Changed A = Result {0, 0} Cause A

-- A change of the last table of an array of tables.
unfoldable pub change_last : (Table → Changed Table) → List Text → Tables → Changed Tables
change_last f path no_tables = err (empty_tables path)
change_last f path (one_table t no_tables) = f t >>= (λ u. ok (one_table u no_tables))
change_last f path (one_table t (one_table u ts)) =
    change_last f path (one_table u ts) >>= (λ us. ok (one_table t us))

-- One step of `descendTable` with `create`: what stands at the key, changed by `f`.
unfoldable pub change_entry :
    (Table → Changed Table) → List Text → Text → Option Value → Changed Value
change_entry f path k none = f empty >>= (λ u. ok (table u))
change_entry f path k (some (table t)) = f t >>= (λ u. ok (table u))
change_entry f path k (some (tables ts)) = change_last f path ts >>= (λ us. ok (tables us))
change_entry f path k (some v) = err (not_a_table k path)

-- `descendTable` from the table at hand to the end of the path, and a change of the table there.
-- `seen` is the part of the path before.
unfoldable pub change_at : (Table → Changed Table) → List Text → List Text → Table → Changed Table
change_at f seen [] t = f t
change_at f seen (k ∷ ks) t =
    let here = seen ++ k ∷ [] in
    change_entry (change_at f here ks) here k (lookup t k) >>= (λ v. ok (set t k v))

abbrev pub append_table : Tables → Table → Tables
append_table no_tables u = one_table u no_tables
append_table (one_table t ts) u = one_table t (append_table ts u)

-- `parent[last] = append(arr, tbl)`.
unfoldable pub append_entry : Text → Option Value → Changed Value
append_entry k none = ok (tables (one_table empty no_tables))
append_entry k (some (tables ts)) = ok (tables (append_table ts empty))
append_entry k (some v) = err (not_tables k)

-- `appendArrayOfTables` of an empty table. The path is split before its last key.
unfoldable pub append_at : List Text → List Text → Table → Changed Table
append_at before [] t = err empty_path
append_at before (k ∷ []) t =
    change_at (λ u. append_entry k (lookup u k) >>= (λ v. ok (set u k v))) [] before t
append_at before (k ∷ l ∷ ks) t = append_at (before ++ k ∷ []) (l ∷ ks) t

-- `p.errf("%v", err)`.
abbrev pub at_rest : Text → Changed Table → Parsed Table
at_rest s c = map_err (at s) c

unfoldable pub put_key : Text → Text → Value → Table → Option Value → Changed Table
put_key line k v t (some u) = err (duplicate_key k line)
put_key line k v t none = ok (set t k v)

unfoldable pub equals : Text → Text → Parsed Text
equals k s =
    if peek s == b'.'
    then err (at s (dotted_key k))
    else if peek s == b'='
    then ok (skip_inline_ws (advance s))
    else err (at s (expected_equals k (peek s)))

-- `parseKeyValueLine`. `current` is the path of the table that the code holds a reference to.
unfoldable pub key_value_line : ℕ → List Text → Table → Text → Parsed (Table × Text)
key_value_line n current root s = parse_key s >>= (λ k. equals k.0 (skip_inline_ws k.1) >>= (λ a.
    parse_value n a >>= (λ v.
      at_rest v.1 (change_at (λ t. put_key s k.0 v.0 t (lookup t k.0)) [] current root)
      >>= (λ root'. skip_line_end v.1 >>= (λ r. ok (root', r))))))

unfoldable pub last_bracket : Text → Parsed Text
last_bracket s =
    if peek s == b']' then ok (advance s) else err (at s (expected_header_end (peek s)))

unfoldable pub header_end : Bool → Text → Parsed Text
header_end false s = last_bracket s
header_end true s =
    if peek s == b']'
    then last_bracket (advance s)
    else err (at s (expected_array_header_end (peek s)))

-- The line of a header after its brackets: the tree with the table, the path of the table, and what
-- is left.
unfoldable pub header : ℕ → Bool → Table → Text → Parsed (Table × List Text × Text)
header n is_array root s = key_path n s >>= (λ p. header_end is_array p.1 >>= (λ a.
    skip_line_end a >>= (λ r.
      at_rest r (if is_array then append_at [] p.0 root else change_at (λ t. ok t) [] p.0 root)
      >>= (λ root'. ok (root', p.0, r)))))

-- One turn of the loop of `parseDocument`, at a character that is neither space nor comment.
unfoldable pub document_line : ℕ → List Text → Table → ℕ → Text → Parsed (Table × List Text × Text)
document_line n current root c s =
    if c == b'['
    then if peek (advance s) == b'['
      then header n true root (advance (advance s))
      else header n false root (advance s)
    else key_value_line n current root s >>= (λ x. ok (x.0, current, x.1))

unfoldable pub document_turn :
    ℕ → (List Text → Table → Text → Parsed Table) → List Text → Table → Text → Parsed Table
document_turn n more current root [] = ok root
document_turn n more current root (c ∷ s) =
    document_line n current root c (c ∷ s) >>= (λ x. more x.1 x.0 x.2)

-- The loop of `parseDocument`, with the fuel of its parts and its own.
unfoldable pub document : ℕ → ℕ → List Text → Table → Text → Parsed Table
document n zero current root s = err unfinished
document n (suc m) current root s = document_turn n (document n m) current root (skip_ws s)

-- `Parse`, before errors are given their line and column. The fuel is above the length of the text.
unfoldable pub parse : Text → Parsed Table
parse src = document (suc (length src)) (suc (length src)) [] empty src
