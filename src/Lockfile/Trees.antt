-- ===== src/Lockfile/Trees.antt =====
-- lockfile: the parser on the entries that `RenderTOML` writes.
use mochi_beam.Base.{
  ℕ, zero, suc, ◌+◌, ◌<◌, ◌≡◌, refl, ap, ◌∙◌, [], ◌∷◌, ◌++◌, length, All, arith, append_assoc, List,
  length-append,
}
use mochi_beam.Base.Int.{pos}
use mochi_beam.Base.Results.{ok}
use mochi_beam.Text.Chars.{Text, codes, text_eq}
use mochi_beam.Toml.Values.{Table, Tables, int, empty, entry, lookup, set, no_tables}
use mochi_beam.Toml.Document.{
  document, document_turn, document_line, header, key_path, after_key, header_end, last_bracket,
  append_at, append_entry, change_at, append_table,
}
use mochi_beam.Toml.Parse.{parse_key, is_quote}
use mochi_beam.Toml.Scan.{
  skip_ws, skip_from, is_inline_space, span, is_bare, skip_line_end, line_end, skip_inline_ws, peek,
  advance,
}
use mochi_beam.Lockfile.Entry.{Entry}
use mochi_beam.Lockfile.Render.{render_entry, render_entries, entry_lines, written}
use mochi_beam.Lockfile.Lines.{GoesOn, root, line_text, package_key, schema_key}
use mochi_beam.Lockfile.Steps.{all_lines, are_key_words_lem, texts, AreReadableLines}
use mochi_beam.Lockfile.Normal.{lines_of, entry_table}

-- All texts of the entry can be read back.
abbrev pub IsReadableEntry : Entry → Type 0
IsReadableEntry e = AreReadableLines (lines_of e)

-- The text at which an entry's lines begin.
abbrev pub heading : Text
heading = codes "[[erlang-package]]\n"

-- The tree after the schema.
abbrev pub bare : Table
bare = entry schema_key (int (pos 1)) empty

heading-bare :
    (n m : ℕ) (current : List Text) (r : Text)
    → document (suc n) (suc m) current bare (heading ++ r)
      ≡ document (suc n) m (package_key ∷ []) (root no_tables empty) r
unfolding document document_turn document_line header key_path after_key parse_key span is_bare
    is_quote header_end last_bracket skip_line_end line_end skip_inline_ws skip_ws skip_from
    is_inline_space peek advance append_at append_entry change_at lookup set text_eq root
heading-bare n m current r = refl

heading-root :
    (n m : ℕ) (current : List Text) (ts : Tables) (t : Table) (r : Text)
    → document (suc n) (suc m) current (root ts t) (heading ++ r)
      ≡ document (suc n) m (package_key ∷ []) (root (append_table ts t) empty) r
unfolding document document_turn document_line header key_path after_key parse_key span is_bare
    is_quote header_end last_bracket skip_line_end line_end skip_inline_ws skip_ws skip_from
    is_inline_space peek advance append_at append_entry change_at lookup set text_eq root
heading-root n m current ts t r = refl

-- A blank line is passed over.
pub document-blank :
    (n m : ℕ) (current : List Text) (t : Table) (r : Text)
    → document n m current t (10 ∷ r) ≡ document n m current t r
unfolding document skip_ws skip_from is_inline_space
document-blank n zero current t r = refl
document-blank n (suc m) current t r = refl

entry_lines-texts : (e : Entry) → entry_lines e ≡ texts (lines_of e)
unfolding entry_lines lines_of line_text
entry_lines-texts e = refl

-- The text of an entry, split before what follows its heading.
render_entry-append :
    (e : Entry) (r : Text)
    → render_entry e ++ r ≡ heading ++ (written (texts (lines_of e)) ++ 10 ∷ r)
unfolding render_entry
render_entry-append e r =
    let w = written (entry_lines e) in
    append_assoc heading (w ++ 10 ∷ []) r
    ∙ (ap (λ z. heading ++ z) (append_assoc w (10 ∷ []) r)
        ∙ ap (λ z. heading ++ (written z ++ 10 ∷ r)) (entry_lines-texts e))

-- The lines of an entry after its heading, and the blank line.
after_heading :
    (n m : ℕ) (ts : Tables) (e : Entry) (r : Text)
    → IsReadableEntry e
    → length (written (texts (lines_of e)) ++ 10 ∷ r) < n
    → length (written (texts (lines_of e)) ++ 10 ∷ r) < m
    → GoesOn n m
        (package_key ∷ [])
        (root ts empty)
        (written (texts (lines_of e)) ++ 10 ∷ r)
        (package_key ∷ [])
        (root ts (entry_table e))
        r
unfolding lines_of entry_table text_eq lookup is_bare is_quote peek
after_heading n m ts e r h bn bm =
    let (m1, b1, e1) =
      all_lines n m ts empty (lines_of e) (10 ∷ r) (are_key_words_lem (lines_of e) refl) h refl
        (λ k _. refl) bn bm in
    (m1, omega arith, e1 ∙ document-blank n m1 (package_key ∷ []) (root ts (entry_table e)) r)

-- The tree after more entries.
abbrev pub grown : Tables → Table → List Entry → Table
grown ts t [] = root ts t
grown ts t (e ∷ es) = grown (append_table ts t) (entry_table e) es

abbrev pub AreReadableEntries : List Entry → Type 0
AreReadableEntries = All IsReadableEntry

length-heading : (x : Text) → length (heading ++ x) ≡ 19 + length x
length-heading x = omega arith

more_entries :
    (n m : ℕ) (ts : Tables) (t : Table) (es : List Entry)
    → AreReadableEntries es
    → length (render_entries es) < n
    → length (render_entries es) < m
    → document n m (package_key ∷ []) (root ts t) (render_entries es) ≡ ok (grown ts t es)
unfolding render_entries
more_entries n zero ts t es h bn bm = absurd (omega arith)
more_entries n (suc m) ts t [] h bn bm = unfold document skip_ws skip_from document_turn in refl
more_entries zero (suc m) ts t (e ∷ es) h bn bm = absurd (omega arith)
more_entries (suc n) (suc m) ts t (e ∷ es) h bn bm =
    let body = written (texts (lines_of e)) ++ 10 ∷ render_entries es in
    let split = render_entry-append e (render_entries es) in
    let long = ap length split in
    let longer = length-append (written (texts (lines_of e))) (10 ∷ render_entries es) in
    let (m1, b1, e1) =
      after_heading (suc n) m (append_table ts t) e (render_entries es) h.0 (omega arith)
        (omega arith) in
    ap (document (suc n) (suc m) (package_key ∷ []) (root ts t)) split
    ∙ (heading-root n m (package_key ∷ []) ts t body
        ∙ (e1
            ∙ more_entries (suc n) m1 (append_table ts t) (entry_table e) es h.1 (omega arith) b1))

-- The tree of all entries.
abbrev pub tree_of : List Entry → Table
tree_of [] = bare
tree_of (e ∷ es) = grown no_tables (entry_table e) es

pub all_entries :
    (n m : ℕ) (es : List Entry)
    → AreReadableEntries es
    → length (render_entries es) < n
    → length (render_entries es) < m
    → document n m [] bare (render_entries es) ≡ ok (tree_of es)
unfolding render_entries
all_entries n zero es h bn bm = absurd (omega arith)
all_entries n (suc m) [] h bn bm = unfold document skip_ws skip_from document_turn in refl
all_entries zero (suc m) (e ∷ es) h bn bm = absurd (omega arith)
all_entries (suc n) (suc m) (e ∷ es) h bn bm =
    let body = written (texts (lines_of e)) ++ 10 ∷ render_entries es in
    let split = render_entry-append e (render_entries es) in
    let long = ap length split in
    let longer = length-append (written (texts (lines_of e))) (10 ∷ render_entries es) in
    let (m1, b1, e1) =
      after_heading (suc n) m no_tables e (render_entries es) h.0 (omega arith) (omega arith) in
    ap (document (suc n) (suc m) [] bare) split
    ∙ (heading-bare n m [] body
        ∙ (e1 ∙ more_entries (suc n) m1 no_tables (entry_table e) es h.1 (omega arith) b1))
