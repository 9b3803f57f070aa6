-- ===== src/Toml/Finish/Loops.antt =====
-- internal/toml/parser.go: values end within the fuel, and leave less than they got.
use mochi_beam.Base.{ℕ, zero, suc, ◌≤◌, ◌<◌, [], ◌∷◌, ◌==◌, length, arith, Option, none, some}
use mochi_beam.Base.Results.{ok, err, ◌>>=◌}
use mochi_beam.Text.Chars.{Text}
use mochi_beam.Toml.Values as Values
use mochi_beam.Toml.Values.{
  Parsed, Failure, at, unfinished, Value, Table, lookup, set, empty, string, table, no_values,
  value, expected_array_end, unterminated_array, expected_inline_equals, expected_inline_end,
  duplicate_inline_key, unexpected_start, end_in_value,
}
use mochi_beam.Toml.Scan.{peek, advance, skip_inline_ws, skip_ws}
use mochi_beam.Toml.Strings.{parse_string}
use mochi_beam.Toml.Parse.{
  parse_key, Start, quoted, opened, braced, boolean, number, other, start, after_item, item, items,
  and_then_value, finished, after_pair, add_key, pair_value, pairs, inline_table, value_from,
  parse_value,
}
use mochi_beam.Toml.Finish.Consumes.{
  Ends, Ends-at, Ends->>=, Ends-if, Ends-up, left, rest, length-advance, length-skip_inline_ws,
  length-skip_ws, parse_string-Ends,
}
use mochi_beam.Toml.Finish.Values.{parse_key-Ends, parse_number-Ends, parse_bool-Ends}

-- The values within a length are parsed.
abbrev Within : ℕ → (Text → Parsed (Value × Text)) → Type 0
Within k parse = (s : Text) → length s ≤ k → Ends left (length s) (parse s)

and_then_value-Ends :
    (v : Value) (n : ℕ) (o : Parsed (Values.Values × Text))
    → Ends rest n o
    → Ends rest n (and_then_value v o)
and_then_value-Ends v n (ok x) h = h
and_then_value-Ends v n (err e) h = h

after_item-Ends :
    (v : Value) (more : Text → Parsed (Values.Values × Text)) (s : Text)
    → Ends rest (length (advance s)) (more (advance s))
    → Ends rest (length s) (after_item v more s)
unfolding after_item
after_item-Ends v more s h =
    let a = length-advance s in
    Ends-if rest (length s) (peek s == 44) _ _
      (λ _.
        Ends-up rest (length (advance s)) (length s) _ a
          (and_then_value-Ends v _ (more (advance s)) h))
      (λ _.
        Ends-if rest (length s) (peek s == 93) _ _ (λ _. a)
          (λ _. Ends-at (rest {A = Values.Values}) (length s) s (expected_array_end (peek s))))

item-Ends :
    (k : ℕ) (parse : Text → Parsed (Value × Text)) (more : Text → Parsed (Values.Values × Text))
    (s : Text)
    → Within k parse
    → length s ≤ k
    → ((r : Text) → length r < length s → Ends rest (length r) (more r))
    → Ends rest (length s) (item parse more s)
unfolding item
item-Ends k parse more [] w b f = Ends-at (rest {A = Values.Values}) 0 [] unterminated_array
item-Ends k parse more (c ∷ s) w b f =
    Ends-if rest (suc (length s)) (c == 93) _ _ (λ _. omega arith)
      (λ _.
        Ends->>= left rest (suc (length s)) (suc (length s)) (parse (c ∷ s)) _ (w (c ∷ s) b) (λ x h.
          let a = length-skip_ws x.1 in
          let d = length-advance (skip_ws x.1) in
          Ends-up rest (length (skip_ws x.1)) (suc (length s)) (after_item x.0 more (skip_ws x.1))
            (omega arith)
            (after_item-Ends x.0 more (skip_ws x.1) (f (advance (skip_ws x.1)) (omega arith)))))

items-Ends :
    (n k : ℕ) (parse : Text → Parsed (Value × Text)) (s : Text)
    → Within k parse
    → length s < n
    → length s ≤ k
    → Ends rest (length s) (items n parse s)
unfolding items
items-Ends zero k parse s w b c = absurd (omega arith)
items-Ends (suc n) k parse s w b c =
    let a = length-skip_ws s in
    Ends-up rest (length (skip_ws s)) (length s) (item parse (items n parse) (skip_ws s)) a (
      item-Ends k parse (items n parse) (skip_ws s) w (omega arith)
        (λ r h. items-Ends n k parse r w (omega arith) (omega arith)))

after_pair-Ends :
    (t : Table) (more : Table → Text → Parsed (Table × Text)) (s : Text)
    → ((r : Text) → suc (length r) ≤ length s → Ends rest (length r) (more t r))
    → Ends rest (length s) (after_pair t more s)
unfolding after_pair
after_pair-Ends t more [] h =
    unfold peek advance in (Ends-at (rest {A = Table}) 0 [] (expected_inline_end 0))
after_pair-Ends t more (c ∷ s) h =
    let a = length-advance (c ∷ s) in
    let shorter : suc (length (advance (c ∷ s))) ≤ suc (length s) =
      unfold advance in (omega arith) in
    Ends-if rest (suc (length s)) (peek (c ∷ s) == 44) _ _
      (λ _.
        Ends-up rest (length (advance (c ∷ s))) (suc (length s)) _ a (h (advance (c ∷ s)) shorter))
      (λ _.
        Ends-if rest (suc (length s)) (peek (c ∷ s) == 125) _ _ (λ _. a)
          (λ _.
            Ends-at (rest {A = Table}) (suc (length s)) (c ∷ s)
              (expected_inline_end (peek (c ∷ s)))))

add_key-Ends :
    (t : Table) (k : Text) (v : Value) (r : Text) (o : Option Value)
    → Ends rest (length r) (add_key t k v r o)
unfolding add_key
add_key-Ends t k v r none = omega arith
add_key-Ends t k v r (some u) = Ends-at (rest {A = Table}) (length r) r (duplicate_inline_key k)

pair_value-Ends :
    (k : ℕ) (parse : Text → Parsed (Value × Text)) (s : Text)
    → Within k parse
    → length s ≤ k
    → Ends left (length s) (pair_value parse s)
unfolding pair_value
pair_value-Ends k parse s w b =
    let a = length-advance s in
    let c = length-skip_inline_ws (advance s) in
    Ends-if left (length s) (peek s == 61) _ _
      (λ _.
        Ends-up left (length (skip_inline_ws (advance s))) (length s) _ (omega arith)
          (w (skip_inline_ws (advance s)) (omega arith)))
      (λ _. Ends-at (left {A = Value}) (length s) s (expected_inline_equals (peek s)))

pairs-Ends :
    (n k : ℕ) (parse : Text → Parsed (Value × Text)) (t : Table) (s : Text)
    → Within k parse
    → length s < n
    → length s ≤ k
    → Ends rest (length s) (pairs n parse t s)
unfolding pairs
pairs-Ends zero k parse t s w b c = absurd (omega arith)
pairs-Ends (suc n) k parse t s w b c =
    let a = skip_inline_ws s in
    let ha = length-skip_inline_ws s in
    Ends->>= left rest (length a) (length s) (parse_key a) _ (parse_key-Ends a) (λ x hx.
      let d = skip_inline_ws x.1 in
      let hd = length-skip_inline_ws x.1 in
      Ends->>= left rest (length d) (length s) (pair_value parse d) _
        (pair_value-Ends k parse d w (omega arith))
        (λ v hv.
          Ends->>= rest rest (length v.1) (length s) (add_key t x.0 v.0 v.1 (lookup t x.0)) _
            (add_key-Ends t x.0 v.0 v.1 (lookup t x.0))
            (λ y hy.
              let e = skip_inline_ws y.1 in
              let he = length-skip_inline_ws y.1 in
              Ends-up rest (length e) (length s) (after_pair y.0 (pairs n parse) e) (omega arith) (
                after_pair-Ends y.0 (pairs n parse) e
                  (λ r hr. pairs-Ends n k parse y.0 r w (omega arith) (omega arith))))))

inline_table-Ends :
    (n k : ℕ) (parse : Text → Parsed (Value × Text)) (s : Text)
    → Within k parse
    → length s < n
    → length s ≤ k
    → Ends rest (length s) (inline_table n parse s)
unfolding inline_table
inline_table-Ends n k parse s w b c =
    let a = skip_inline_ws s in
    let ha = length-skip_inline_ws s in
    let hb = length-advance a in
    Ends-if rest (length s) (peek a == 125) _ _ (λ _. omega arith)
      (λ _.
        Ends-up rest (length a) (length s) (pairs n parse empty a) ha
          (pairs-Ends n k parse empty a w (omega arith) (omega arith)))

-- The end of a value that began with a bracket, a brace or a quote.
closing-Ends :
    {A : Type 0} (o : Parsed (A × Text)) (f : A → Value) (n : ℕ)
    → Ends rest n o
    → Ends left (suc n) (o >>= (λ x. ok (f x.0, x.1)))
closing-Ends o f n h = Ends->>= rest left n (suc n) o _ h (λ x hx. omega arith)

value_from-Ends :
    (n k : ℕ) (parse : Text → Parsed (Value × Text)) (b : Start) (c : ℕ) (s : Text)
    → Within k parse
    → length s < n
    → length s ≤ k
    → Ends left (suc (length s)) (value_from n parse b (c ∷ s))
unfolding value_from advance peek
value_from-Ends n k parse quoted c s w h g =
    closing-Ends (parse_string c s) string (length s) (parse_string-Ends c s)
value_from-Ends n k parse opened c s w h g =
    closing-Ends (items n parse s) finished (length s) (items-Ends n k parse s w h g)
value_from-Ends n k parse braced c s w h g =
    closing-Ends (inline_table n parse s) table (length s) (inline_table-Ends n k parse s w h g)
value_from-Ends n k parse boolean c s w h g = parse_bool-Ends (c ∷ s)
value_from-Ends n k parse number c s w h g = parse_number-Ends (c ∷ s)
value_from-Ends n k parse other c s w h g =
    Ends-at (left {A = Value}) (suc (length s)) (c ∷ s) (unexpected_start c)

pub parse_value-Ends : (n : ℕ) (s : Text) → length s < n → Ends left (length s) (parse_value n s)
unfolding parse_value
parse_value-Ends zero s h = absurd (omega arith)
parse_value-Ends (suc n) [] h = Ends-at (left {A = Value}) 0 [] end_in_value
parse_value-Ends (suc n) (c ∷ s) h =
    value_from-Ends n (length s) (parse_value n) (start c) c s
      (λ r b. parse_value-Ends n r (omega arith)) (omega arith) (omega arith)
