-- ===== src/Lockfile/Members.antt =====
-- lockfile: the parser on the arrays that `renderEntry` writes.
use mochi_beam.Base.{
  ℕ, zero, suc, ◌≤◌, ◌≡◌, refl, ap, ◌∙◌, false, [], ◌∷◌, ◌++◌, ◌==◌, length, All, arith,
  append_assoc, List,
}
use mochi_beam.Base.Results.{ok, ◌>>=◌}
use mochi_beam.Text.Chars.{Text}
use mochi_beam.Text.Quote.{quote}
use mochi_beam.Toml.Values as Values
use mochi_beam.Toml.Values.{Parsed, Value, string, array, value, no_values}
use mochi_beam.Toml.Scan.{peek, advance, is_inline_space, skip_ws, skip_from}
use mochi_beam.Toml.Parse.{
  parse_value, value_from, start, is_quote, items, item, after_item, finished, all_tables,
  and_then_value,
}
use mochi_beam.Toml.Reading.Strings.{IsReadable}
use mochi_beam.Toml.Reading.Keys.{parse_value-quote}
use mochi_beam.Lockfile.Render.{more_members}

abbrev pub strings : List Text → Values.Values
strings [] = no_values
strings (v ∷ vs) = value (string v) (strings vs)

abbrev pub AreReadable : List Text → Type 0
AreReadable = All (All IsReadable)

peek-more_members : (vs : List Text) (r : Text) → (peek ((more_members vs ++ r)) == 34) ≡ false
unfolding more_members peek
peek-more_members [] r = refl
peek-more_members (v ∷ vs) r = refl

item-quote :
    (parse : Text → Parsed (Value × Text)) (more : Text → Parsed (Values.Values × Text))
    (v x : Text)
    → item parse more (quote v ++ x)
      ≡ (parse (quote v ++ x) >>= (λ y. after_item y.0 more (skip_ws y.1)))
unfolding item quote
item-quote parse more v x = refl

-- One turn of the loop at a quoted member.
items-quote :
    (n m : ℕ) (v x : Text)
    → All IsReadable v
    → (peek x == 34) ≡ false
    → items (suc n) (parse_value (suc m)) (quote v ++ x)
      ≡ after_item (string v) (items n (parse_value (suc m))) (skip_ws x)
unfolding items item
items-quote n m v x h p =
    let q : skip_ws (quote v ++ x) ≡ quote v ++ x =
      unfold quote skip_ws skip_from is_inline_space in refl in
    let e = parse_value-quote m v x h p in
    ap (item (parse_value (suc m)) (items n (parse_value (suc m)))) q
    ∙ (item-quote (parse_value (suc m)) (items n (parse_value (suc m))) v x
        ∙ ap (λ z. z >>= (λ y. after_item y.0 (items n (parse_value (suc m))) (skip_ws y.1))) e)

items-space :
    (n : ℕ) (parse : Text → Parsed (Value × Text)) (x : Text)
    → items n parse (32 ∷ x) ≡ items n parse x
unfolding items skip_ws skip_from is_inline_space
items-space zero parse x = refl
items-space (suc n) parse x = refl

after_item-comma :
    (v : Value) (more : Text → Parsed (Values.Values × Text)) (x : Text)
    → after_item v more (skip_ws (44 ∷ 32 ∷ x)) ≡ and_then_value v (more (32 ∷ x))
unfolding skip_ws skip_from is_inline_space after_item peek advance
after_item-comma v more x = refl

pub items-members :
    (n m : ℕ) (v : Text) (vs : List Text) (r : Text)
    → All IsReadable v
    → AreReadable vs
    → length vs ≤ n
    → items (suc n) (parse_value (suc m)) (quote v ++ (more_members vs ++ r))
      ≡ ok (value (string v) (strings vs), 10 ∷ r)
items-members n m v [] r h hs b =
    items-quote n m v (more_members [] ++ r) h (peek-more_members [] r)
    ∙ (unfold more_members skip_ws skip_from is_inline_space after_item peek advance in refl)
items-members zero m v (w ∷ vs) r h hs b = absurd (omega arith)
items-members (suc n) m v (w ∷ vs) r h hs b =
    let parse = parse_value (suc m) in
    let split : more_members (w ∷ vs) ++ r ≡ 44 ∷ 32 ∷ (quote w ++ (more_members vs ++ r)) =
      unfold more_members in ap (λ z. 44 ∷ 32 ∷ z) (append_assoc (quote w) (more_members vs) r) in
    items-quote (suc n) m v (more_members (w ∷ vs) ++ r) h (peek-more_members (w ∷ vs) r)
    ∙ (ap (λ z. after_item (string v) (items (suc n) parse) (skip_ws z)) split
        ∙ (after_item-comma (string v) (items (suc n) parse) (quote w ++ (more_members vs ++ r))
            ∙ ap (and_then_value (string v)) (
                items-space (suc n) parse (quote w ++ (more_members vs ++ r))
                ∙ items-members n m w vs r hs.0 hs.1 (omega arith))))

-- The value of an array line.
pub parse_value-members :
    (n : ℕ) (v : Text) (vs : List Text) (r : Text)
    → All IsReadable v
    → AreReadable vs
    → length vs ≤ n
    → parse_value (suc (suc n)) (91 ∷ (quote v ++ (more_members vs ++ r)))
      ≡ ok (array (value (string v) (strings vs)), 10 ∷ r)
unfolding parse_value value_from start is_quote peek advance finished all_tables
parse_value-members n v vs r h hs b =
    ap (λ z. z >>= (λ x. ok (finished x.0, x.1))) (items-members n n v vs r h hs b)
