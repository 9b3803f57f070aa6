-- ===== src/Lockfile/Lines.antt =====
-- lockfile: the parser on the lines that `renderEntry` writes.
use mochi_beam.Base.{
  ℕ, suc, ◌<◌, ◌≡◌, true, false, [], ◌∷◌, ◌++◌, ◌==◌, length, All, arith, List, Option, none, some,
  if◌then◌else◌,
}
use mochi_beam.Base.Int.{pos}
use mochi_beam.Base.Results.{ok}
use mochi_beam.Text.Chars.{Text, codes, text_eq}
use mochi_beam.Toml.Values.{
  Value, Table, Tables, string, array, value, int, tables, empty, entry, lookup, set, no_tables,
  one_table,
}
use mochi_beam.Toml.Scan.{is_bare, is_inline_space, skip_ws, skip_from, skip_inline_ws}
use mochi_beam.Toml.Parse.{parse_value}
use mochi_beam.Toml.Document.{
  document, document_turn, document_line, key_value_line, append_table, change_at, change_last,
  change_entry, put_key, Changed,
}
use mochi_beam.Toml.Reading.Strings.{IsReadable}
use mochi_beam.Toml.Reading.Keys.{IsKey, key_value_line-append}
use mochi_beam.Lockfile.Members.{AreReadable, strings}
use mochi_beam.Lockfile.Render.{line, optional, array_line}

-- The document goes on at `s'` with the current table and the tree of the second line.
abbrev pub GoesOn : ℕ → ℕ → List Text → Table → Text → List Text → Table → Text → Type 0
GoesOn n m current root s current' root' s' =
    (m' : ℕ) × (length s' < m') × (document n m current root s ≡ document n m' current' root' s')

is_bare-cases :
    (c : ℕ)
    → is_bare c ≡ true
    → (is_inline_space c ≡ false)
      × ((c == 10) ≡ false)
      × ((c == 13) ≡ false)
      × ((c == 35) ≡ false)
      × ((c == 91) ≡ false)
unfolding is_bare is_inline_space
is_bare-cases c h = ground arith

document-key :
    (n m : ℕ) (current : List Text) (root root' : Table) (w x r : Text)
    → IsKey w
    → key_value_line n current root (w ++ x) ≡ ok (root', r)
    → document n (suc m) current root (w ++ x) ≡ document n m current root' r
unfolding document document_turn document_line skip_ws skip_from
document-key n m current root root' [] x r key h = cc
document-key n m current root root' (c ∷ w) x r key h =
    let (a, b, d, e, f) = is_bare-cases c key.1.0 in rw (a, b, d, e, f, h)

-- The tree under way: the schema, and the tables of the entries before and of the one at hand.
abbrev pub package_key : Text
package_key = codes "erlang-package"

abbrev pub schema_key : Text
schema_key = codes "erlang-lockfile-schema"

unfoldable pub root : Tables → Table → Table
root ts t = entry schema_key (int (pos 1)) (entry package_key (tables (append_table ts t)) empty)

change_last-append_table :
    (f : Table → Changed Table) (path : List Text) (ts : Tables) (t u : Table)
    → f t ≡ ok u
    → change_last f path (append_table ts t) ≡ ok (append_table ts u)
unfolding change_last
change_last-append_table f path no_tables t u h = rw (h)
change_last-append_table f path (one_table x no_tables) t u h = rw (h)
change_last-append_table f path (one_table x (one_table y ts)) t u h =
    rw (change_last-append_table f path (one_table y ts) t u h)

pub change_at-root :
    (f : Table → Changed Table) (ts : Tables) (t u : Table)
    → f t ≡ ok u
    → change_at f [] (package_key ∷ []) (root ts t) ≡ ok (root ts u)
unfolding change_at change_entry lookup set root text_eq
change_at-root f ts t u h = rw (change_last-append_table f (package_key ∷ []) ts t u h)

-- A line of an entry: of a string, of a string that may be empty, or of an array.
pub data Line : Type 0 where
  must maybe : Text → Line
  many : List Text → Line

unfoldable pub line_text : Text → Line → Text
line_text k (must v) = line k v
line_text k (maybe v) = optional k v
line_text k (many vs) = array_line k vs

unfoldable pub line_value : Line → Option Value
line_value (must v) = some (string v)
line_value (maybe v) = if length v == 0 then none else some (string v)
line_value (many []) = none
line_value (many (v ∷ vs)) = some (array (value (string v) (strings vs)))

abbrev pub IsReadableLine : Line → Type 0
IsReadableLine (must v) = All IsReadable v
IsReadableLine (maybe v) = All IsReadable v
IsReadableLine (many vs) = AreReadable vs

-- The text of a line whose value `x` the parser reads.
module _ (n m : ℕ) (ts : Tables) (t : Table) (k : Text) (key : IsKey k)
    (fresh : lookup t k ≡ none) where
  put-fresh :
      (v : Value) (l : Text)
      → change_at (λ u. put_key l k v u (lookup u k)) [] (package_key ∷ []) (root ts t)
        ≡ ok (root ts (set t k v))
  put-fresh v l =
      change_at-root (λ u. put_key l k v u (lookup u k)) ts t (set t k v)
        (unfold put_key in (rw (fresh)))

  pub value_line :
      (x r : Text) (v : Value)
      → skip_inline_ws x ≡ x
      → parse_value n x ≡ ok (v, 10 ∷ r)
      → length r < m
      → GoesOn n
          (suc m)
          (package_key ∷ [])
          (root ts t)
          (k ++ 32 ∷ 61 ∷ 32 ∷ x)
          (package_key ∷ [])
          (root ts (set t k v))
          r
  value_line x r v solid parsed b = (
    m,
    b,
    document-key n m (package_key ∷ []) (root ts t) (root ts (set t k v)) k (32 ∷ 61 ∷ 32 ∷ x) r key
        (key_value_line-append n (package_key ∷ []) (root ts t) (root ts (set t k v)) k x r v key
          solid parsed (put-fresh v)),
  )
