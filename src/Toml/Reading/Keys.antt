-- ===== src/Toml/Reading/Keys.antt =====
-- internal/toml/parser.go: the lines of a document, one by one.
use mochi_beam.Base.{
  ℕ, suc, ◌≡◌, refl, ap, ◌∙◌, Bool, true, false, not, ◌&&◌, [], ◌∷◌, ◌++◌, ◌==◌, length, All, arith,
  append_assoc, List, suc-==-zero,
}
use mochi_beam.Base.Results.{ok, ◌>>=◌}
use mochi_beam.Text.Chars.{Text}
use mochi_beam.Text.Quote.{quote, quote_chars}
use mochi_beam.Toml.Values.{Value, string, Table, lookup}
use mochi_beam.Toml.Scan.{
  peek, advance, span, is_bare, is_inline_space, skip_inline_ws, skip_line_end, line_end,
}
use mochi_beam.Toml.Strings.{parse_string}
use mochi_beam.Toml.Parse.{parse_key, is_quote, parse_value, value_from, start}
use mochi_beam.Toml.Document.{key_value_line, equals, change_at, put_key}
use mochi_beam.Toml.Reading.Strings.{IsReadable, parse_string-quote_chars}

pub span-append :
    (test : ℕ → Bool) (w : Text) (c : ℕ) (r : Text)
    → All (λ x. test x ≡ true) w
    → test c ≡ false
    → span test (w ++ c ∷ r) ≡ (w, c ∷ r)
unfolding span
span-append test [] c r h e = rw (e)
span-append test (x ∷ w) c r h e = rw (h.0, span-append test w c r h.1 e)

-- A bare key is a word of the characters of a bare key.
abbrev pub IsKey : Text → Type 0
IsKey w = (length w == 0 ≡ false) × All (λ x. is_bare x ≡ true) w × (is_quote (peek w) ≡ false)

-- The test for a bare key.
abbrev all_bare : Text → Bool
all_bare [] = true
all_bare (c ∷ w) = is_bare c && all_bare w

abbrev pub is_key_word : Text → Bool
is_key_word w = not (length w == 0) && all_bare w && not (is_quote (peek w))

all_bare_lem : (w : Text) → all_bare w ≡ true → All (λ x. is_bare x ≡ true) w
all_bare_lem [] h = tt
all_bare_lem (c ∷ w) h = (ground arith, all_bare_lem w (ground arith))

pub is_key_word_lem : (w : Text) → is_key_word w ≡ true → IsKey w
is_key_word_lem w h = (ground arith, all_bare_lem w (ground arith), ground arith)

pub parse_key-append :
    (w : Text) (c : ℕ) (r : Text)
    → IsKey w
    → is_bare c ≡ false
    → parse_key (w ++ c ∷ r) ≡ ok (w, c ∷ r)
unfolding parse_key peek
parse_key-append [] c r h e = cc
parse_key-append (x ∷ w) c r h e =
    rw (span-append is_bare (x ∷ w) c r h.1 e, h.2, suc-==-zero (length w))

-- A quoted text, before a character that is no quote.
pub parse_value-quote :
    (n : ℕ) (s r : Text)
    → All IsReadable s
    → (peek r == 34) ≡ false
    → parse_value (suc n) (quote s ++ r) ≡ ok (string s, r)
unfolding parse_value quote value_from start is_quote peek advance
parse_value-quote n s r h p =
    let split : (quote_chars s ++ 34 ∷ []) ++ r ≡ quote_chars s ++ 34 ∷ r =
      append_assoc (quote_chars s) (34 ∷ []) r in
    ap (λ z. parse_string 34 z >>= (λ x. ok (string x.0, x.1))) split
    ∙ ap (λ z. z >>= (λ x. ok (string x.0, x.1))) (parse_string-quote_chars s r h p)

-- `key = value`, to the end of its line.
pub key_value_line-append :
    (n : ℕ) (current : List Text) (root root' : Table) (w x r : Text) (v : Value)
    → IsKey w
    → skip_inline_ws x ≡ x
    → parse_value n x ≡ ok (v, 10 ∷ r)
    → ((line : Text) → change_at (λ t. put_key line w v t (lookup t w)) [] current root ≡ ok root')
    → key_value_line n current root (w ++ 32 ∷ 61 ∷ 32 ∷ x) ≡ ok (root', r)
unfolding key_value_line equals peek advance skip_inline_ws is_inline_space skip_line_end line_end
    is_bare
key_value_line-append n current root root' w x r v key solid parsed changed =
    rw
      (parse_key-append w 32 (61 ∷ 32 ∷ x) key refl, solid, parsed, changed (w ++ 32 ∷ 61 ∷ 32 ∷ x))
