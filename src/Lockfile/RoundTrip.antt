-- ===== src/Lockfile/RoundTrip.antt =====
-- lockfile: `ParseTOML` reads what `RenderTOML` wrote.
use mochi_beam.Base.{
  ℕ, zero, suc, ◌≡◌, refl, ap, ◌∙◌, true, false, [], ◌∷◌, ◌++◌, length, arith, append_assoc, List,
  map, ◌⊎◌, inl, inr, length-append,
}
use mochi_beam.Base.Int.{pos}
use mochi_beam.Base.Results.{ok, ◌>>=◌, map_err}
use mochi_beam.Base.Sort.{sort, IsSorted, sort-IsSorted, sort-fixes, sort-All}
use mochi_beam.Text.Chars.{Text, codes, text_eq, is_digit}
use mochi_beam.Text.Decimal.{
  decimal_ℤ, decimal, decimal_from, atoi, unsigned, parse_digits, digits_value,
}
use mochi_beam.Toml.Values.{Table, Tables, empty, lookup, set, no_tables, one_table}
use mochi_beam.Toml.Document.{
  document, document_turn, document_line, key_value_line, equals, change_at, put_key, parse,
  append_table,
}
use mochi_beam.Toml.Numbers.{
  parse_number, number_end, sign_of_number, is_sign, number_digits, is_base, fraction, exponent,
}
use mochi_beam.Toml.Parse.{parse_key, is_quote, parse_value, value_from, start}
use mochi_beam.Toml.Scan.{
  skip_ws, skip_from, is_inline_space, span, is_bare, skip_line_end, line_end, skip_inline_ws, peek,
  advance,
}
use mochi_beam.Toml.Decoder.{list_of_tables, get_int, int_of, get_tables, tables_of}
use mochi_beam.Lockfile.Entry.{Entry, Manifest, sorted, sort_entries, entry_lt}
use mochi_beam.Text.Order.{text_lt_asymmetric}
use mochi_beam.Lockfile.Render.{render_toml, render_entries, head_comment, schema_of}
use mochi_beam.Lockfile.Read.{parse_toml, read_tree, decode_entries, check_schema, in_text}
use mochi_beam.Lockfile.Lines.{root}
use mochi_beam.Lockfile.Normal.{entry_table, normal, decode_entry-entry_table}
use mochi_beam.Lockfile.Trees.{
  AreReadableEntries, document-blank, IsReadableEntry, bare, grown, tree_of, all_entries,
}

-- The comments and the line of the schema.
document-comments :
    (n m : ℕ) (r : Text) → document n m [] empty (head_comment ++ r) ≡ document n m [] empty r
unfolding document skip_ws skip_from is_inline_space head_comment
document-comments n zero r = refl
document-comments n (suc m) r = refl

document-schema :
    (n m : ℕ) (r : Text)
    → document (suc n) (suc m) [] empty (codes "erlang-lockfile-schema = 1\n\n" ++ r)
      ≡ document (suc n) m [] bare (10 ∷ r)
unfolding document document_turn document_line key_value_line equals parse_key span is_bare is_quote
    skip_line_end line_end skip_inline_ws skip_ws skip_from is_inline_space peek advance change_at
    put_key lookup set text_eq parse_value value_from start parse_number number_end sign_of_number
    is_sign number_digits is_base fraction exponent is_digit atoi unsigned parse_digits digits_value
document-schema n m r = refl

list_of_tables-append_table :
    (ts : Tables) (t : Table) → list_of_tables (append_table ts t) ≡ list_of_tables ts ++ t ∷ []
unfolding list_of_tables
list_of_tables-append_table no_tables t = refl
list_of_tables-append_table (one_table x ts) t = ap (λ z. x ∷ z) (list_of_tables-append_table ts t)

-- The tree of entries has the schema, and the tables of the entries in turn.
grown-root :
    (ts : Tables) (t : Table) (es : List Entry)
    → (us : Tables) × (u : Table) × (grown ts t es ≡ root us u)
      × (list_of_tables (append_table us u) ≡ list_of_tables ts ++ t ∷ map entry_table es)
grown-root ts t [] = (ts, t, refl, list_of_tables-append_table ts t)
grown-root ts t (e ∷ es) =
    let (us, u, q, l) = grown-root (append_table ts t) (entry_table e) es in
    let x = ap (λ z. z ++ entry_table e ∷ map entry_table es) (list_of_tables-append_table ts t) in
    (
      us,
      u,
      q,
      l ∙ (x ∙ append_assoc (list_of_tables ts) (t ∷ []) (entry_table e ∷ map entry_table es)),
    )

decode_entries-entry_tables :
    (i : ℕ) (es : List Entry) → decode_entries i (map entry_table es) ≡ ok (map normal es)
unfolding decode_entries
decode_entries-entry_tables i [] = refl
decode_entries-entry_tables i (e ∷ es) =
    rw (decode_entry-entry_table e, decode_entries-entry_tables (suc i) es)

read_tree-root :
    (us : Tables) (u : Table) (es : List Entry)
    → list_of_tables (append_table us u) ≡ map entry_table es
    → read_tree (root us u) ≡ ok (sorted (record { schema = pos 1; entries = map normal es }))
unfolding read_tree root get_int get_tables lookup text_eq int_of tables_of check_schema
read_tree-root us u es h = rw (h, decode_entries-entry_tables 0 es)

read_tree-tree_of :
    (es : List Entry)
    → read_tree (tree_of es) ≡ ok (sorted (record { schema = pos 1; entries = map normal es }))
read_tree-tree_of [] =
    unfold read_tree get_int get_tables lookup text_eq int_of tables_of check_schema
      decode_entries in
    refl
read_tree-tree_of (e ∷ es) =
    let (us, u, q, l) = grown-root no_tables (entry_table e) es in
    ap read_tree q ∙ read_tree-root us u (e ∷ es) (unfold list_of_tables in l)

entry_lt_asymmetric : (a b : Entry) → entry_lt a b ≡ true → entry_lt b a ≡ false
unfolding entry_lt
entry_lt_asymmetric a b = text_lt_asymmetric a.name b.name

map_normal-IsSorted : (es : List Entry) → IsSorted entry_lt es → IsSorted entry_lt (map normal es)
unfolding entry_lt normal
map_normal-IsSorted [] s = tt
map_normal-IsSorted (x ∷ []) s = tt
map_normal-IsSorted (x ∷ y ∷ es) s = (s.0, map_normal-IsSorted (y ∷ es) s.1)

-- A manifest as it is written: with the current schema, its entries sorted and each in its normal
-- form.
unfoldable pub normal_manifest : Manifest → Manifest
normal_manifest m = record { schema = pos 1; entries = map normal (sort_entries m.entries) }

sorted-normal :
    (m : Manifest)
    → sorted (record { schema = pos 1; entries = map normal (sort_entries m.entries) })
      ≡ normal_manifest m
unfolding sorted normal_manifest sort_entries
sorted-normal m =
    let s = sort-IsSorted entry_lt entry_lt_asymmetric m.entries in
    ap (λ z. record { schema = pos 1; entries = z })
      (sort-fixes entry_lt (map normal (sort entry_lt m.entries))
        (map_normal-IsSorted (sort entry_lt m.entries) s))

-- The text of a manifest whose schema is 1 or not given.
render_toml-schema :
    (m : Manifest)
    → schema_of m.schema ≡ pos 1
    → render_toml m
      ≡ head_comment
        ++ (codes "erlang-lockfile-schema = 1\n\n" ++ render_entries (sort_entries m.entries))
unfolding render_toml decimal_ℤ decimal decimal_from
render_toml-schema m h = rw (h)

-- The tree of the text of sorted entries.
parse-entries :
    (es : List Entry)
    → AreReadableEntries es
    → parse (head_comment ++ (codes "erlang-lockfile-schema = 1\n\n" ++ render_entries es))
      ≡ ok (tree_of es)
unfolding parse
parse-entries es h =
    let r = codes "erlang-lockfile-schema = 1\n\n" ++ render_entries es in
    let n = length (head_comment ++ r) in
    let long = length-append head_comment r in
    document-comments (suc n) (suc n) r
    ∙ (document-schema n n (render_entries es)
        ∙ (document-blank (suc n) n [] bare (render_entries es)
            ∙ all_entries (suc n) n es h (omega arith) (omega arith)))

-- `ParseTOML` reads back what `RenderTOML` wrote: for a manifest whose schema is 0 or 1 and whose
-- texts are of ASCII characters that print, or are backspaces, tabs, line feeds, form feeds or
-- carriage returns, it gives the manifest with schema 1, with its entries sorted by their names, with
-- the default registry where none is given, and without the applications that have their package's
-- name.
pub parse_toml-render_toml :
    (m : Manifest)
    → (m.schema ≡ pos 0) ⊎ (m.schema ≡ pos 1)
    → AreReadableEntries m.entries
    → parse_toml (render_toml m) ≡ ok (normal_manifest m)
unfolding parse_toml
parse_toml-render_toml m v h =
    let es = sort_entries m.entries in
    let current : schema_of m.schema ≡ pos 1 = elim v [
      | inl e ↦ ap schema_of e
      | inr e ↦ ap schema_of e
    ] in
    let readable : AreReadableEntries es =
      unfold sort_entries in sort-All entry_lt IsReadableEntry m.entries h in
    let parsed = ap parse (render_toml-schema m current) ∙ parse-entries es readable in
    ap (λ z. map_err in_text z >>= read_tree) parsed
    ∙ (read_tree-tree_of es ∙ ap ok (sorted-normal m))
