-- ===== src/Toml/Reading/Strings.antt =====
-- internal/toml/parser.go: `parseString` on what the verb `%q` prints.
use mochi_beam.Base.{
  ℕ, ◌≤◌, ◌<◌, ◌≡◌, ◌≢◌, refl, sym, ap, ◌∙◌, subst, Bool, true, false, [], ◌∷◌, ◌++◌, ◌==◌, ◌||◌,
  ◌&&◌, leb, ltb, length, All, inl, inr, ne→not_==, suc-==-zero, arith, append_assoc, ◌⊎◌,
}
use mochi_beam.Base.Results.{ok, err}
use mochi_beam.Text.Chars.{Text}
use mochi_beam.Text.Quote.{quote_char, quote_chars}
use mochi_beam.Toml.Values.{Parsed}
use mochi_beam.Toml.Scan.{peek, advance}
use mochi_beam.Toml.Strings.{
  plain, escaped, move, escape, prefixed, resume, string_loop, parse_string, write,
}

-- The ASCII characters that `%q` prints in a form the parser knows: those that print, and backspace,
-- tab, line feed, form feed and carriage return.
unfoldable pub is_readable : ℕ → Bool
is_readable c = (leb 32 c && ltb c 127) || (leb 8 c && leb c 10) || (leb 12 c && leb c 13)

abbrev pub IsReadable : ℕ → Type 0
IsReadable c = is_readable c ≡ true

special-cases :
    (c : ℕ)
    → IsReadable c
    → (c ≡ 34)
      ⊎ (c ≡ 92)
      ⊎ (c ≡ 8)
      ⊎ (c ≡ 9)
      ⊎ (c ≡ 10)
      ⊎ (c ≡ 12)
      ⊎ (c ≡ 13)
      ⊎ ((32 ≤ c) × (c < 127) × (c ≢ 34) × (c ≢ 92))
unfolding is_readable
special-cases c h = ground arith

prefixed-nil : (o : Parsed (Text × Text)) → prefixed [] o ≡ o
unfolding prefixed
prefixed-nil (ok x) = refl
prefixed-nil (err e) = refl

-- The two characters of an escape.
loop-escape :
    (c w : ℕ) (t : Text)
    → escape c t ≡ write (w ∷ []) plain
    → string_loop 34 plain (92 ∷ c ∷ t) ≡ prefixed (w ∷ []) (string_loop 34 plain t)
unfolding string_loop move resume prefixed
loop-escape c w t h =
    let q : move 34 plain 92 (c ∷ t) ≡ write [] escaped = rw (suc-==-zero (length t)) in
    ap (λ z. resume (c ∷ t) z (λ m'. string_loop 34 m' (c ∷ t))) q
    ∙ (prefixed-nil (string_loop 34 escaped (c ∷ t))
        ∙ ap (λ z. resume t z (λ m'. string_loop 34 m' t)) h)

-- A character that is neither a quote nor a backslash nor a line break.
loop-plain :
    (c : ℕ) (t : Text)
    → c ≢ 34
    → c ≢ 92
    → c ≢ 10
    → string_loop 34 plain (c ∷ t) ≡ prefixed (c ∷ []) (string_loop 34 plain t)
unfolding string_loop move resume
loop-plain c t a b d = rw (ne→not_== c 34 a, ne→not_== c 92 b, ne→not_== c 10 d)

-- The loop reads what `%q` prints for the character.
abbrev Reads : Text → ℕ → Type 0
Reads t c = string_loop 34 plain (quote_char c ++ t) ≡ prefixed (c ∷ []) (string_loop 34 plain t)

Reads-plain : (t : Text) (c : ℕ) → 32 ≤ c → c < 127 → c ≢ 34 → c ≢ 92 → Reads t c
unfolding quote_char
Reads-plain t c low high a b =
    let q : quote_char c ≡ c ∷ [] = ground arith in
    ap (λ z. string_loop 34 plain (z ++ t)) q ∙ loop-plain c t a b (omega arith)

loop-quote_char : (c : ℕ) (t : Text) → IsReadable c → Reads t c
unfolding quote_char escape
loop-quote_char c t h = elim (special-cases c h) [
  | inl e ↦ subst (Reads t) (sym e) (loop-escape 34 34 t refl)
  | inr (inl e) ↦ subst (Reads t) (sym e) (loop-escape 92 92 t refl)
  | inr (inr (inl e)) ↦ subst (Reads t) (sym e) (loop-escape 98 8 t refl)
  | inr (inr (inr (inl e))) ↦ subst (Reads t) (sym e) (loop-escape 116 9 t refl)
  | inr (inr (inr (inr (inl e)))) ↦ subst (Reads t) (sym e) (loop-escape 110 10 t refl)
  | inr (inr (inr (inr (inr (inl e))))) ↦ subst (Reads t) (sym e) (loop-escape 102 12 t refl)
  | inr (inr (inr (inr (inr (inr (inl e)))))) ↦ subst (Reads t) (sym e) (loop-escape 114 13 t refl)
  | inr (inr (inr (inr (inr (inr (inr (low, high, a, b))))))) ↦ Reads-plain t c low high a b
]

loop-quote_chars :
    (s r : Text) → All IsReadable s → string_loop 34 plain (quote_chars s ++ 34 ∷ r) ≡ ok (s, r)
unfolding quote_chars prefixed
loop-quote_chars [] r h = unfold string_loop move resume in refl
loop-quote_chars (c ∷ s) r h =
    ap (string_loop 34 plain) (append_assoc (quote_char c) (quote_chars s) (34 ∷ r))
    ∙ (loop-quote_char c (quote_chars s ++ 34 ∷ r) h.0
        ∙ ap (prefixed (c ∷ [])) (loop-quote_chars s r h.1))

-- What `%q` prints for a character begins with no quote.
peek-quote_char : (c : ℕ) (t : Text) → (peek (quote_char c ++ t) == 34) ≡ false
unfolding quote_char peek
peek-quote_char c t = ground arith

parse_string-loop : (s : Text) → (peek s == 34) ≡ false → parse_string 34 s ≡ string_loop 34 plain s
unfolding parse_string
parse_string-loop s h = rw (h)

-- `parseString` gives back what `%q` printed.
pub parse_string-quote_chars :
    (s r : Text)
    → All IsReadable s
    → (peek r == 34) ≡ false
    → parse_string 34 (quote_chars s ++ 34 ∷ r) ≡ ok (s, r)
unfolding parse_string quote_chars peek advance
parse_string-quote_chars [] r h p = rw (p)
parse_string-quote_chars (c ∷ s) r h p =
    let split = append_assoc (quote_char c) (quote_chars s) (34 ∷ r) in
    let e = ap (λ z. peek z == 34) split ∙ peek-quote_char c (quote_chars s ++ 34 ∷ r) in
    parse_string-loop (quote_chars (c ∷ s) ++ 34 ∷ r) e ∙ loop-quote_chars (c ∷ s) r h
