-- ===== src/Toml/Finish/Document.antt =====
-- internal/toml/parser.go: `Parse` always ends.
use mochi_beam.Base.{
  ℕ, zero, suc, ◌<◌, ◌≡◌, ◌≢◌, Bool, true, false, [], ◌∷◌, ◌==◌, length, arith, List,
}
use mochi_beam.Base.Results.{ok, err}
use mochi_beam.Text.Chars.{Text}
use mochi_beam.Toml.Values.{
  Parsed, unfinished, Table, empty, dotted_key, expected_equals, expected_header_end,
  expected_array_header_end,
}
use mochi_beam.Toml.Scan.{peek, advance, skip_inline_ws, skip_ws, skip_line_end}
use mochi_beam.Toml.Parse.{parse_key, parse_value}
use mochi_beam.Toml.Document.{
  after_key, key_path, Changed, at_rest, equals, key_value_line, last_bracket, header_end, header,
  document_line, document_turn, document, parse,
}
use mochi_beam.Toml.Finish.Consumes.{
  Ends, Ends-at, Ends->>=, Ends-if, Ends-up, left, rest, length-advance, length-skip_inline_ws,
  length-skip_ws, skip_line_end-Ends,
}
use mochi_beam.Toml.Finish.Values.{parse_key-Ends}
use mochi_beam.Toml.Finish.Loops.{parse_value-Ends}

abbrev all_left : Text → ℕ
all_left r = length r

abbrev path_left : Table × List Text × Text → ℕ
path_left x = suc (length x.2)

after_key-Ends :
    (k : Text) (more : Text → Parsed (List Text × Text)) (s : Text)
    → Ends rest (length (advance s)) (more (advance s))
    → Ends rest (length s) (after_key k more s)
unfolding after_key
after_key-Ends k more s h =
    let a = length-advance s in
    Ends-if rest (length s) (peek s == 46) _ _
      (λ _.
        Ends->>= rest rest (length (advance s)) (length s) (more (advance s)) _ h
          (λ x hx. omega arith))
      (λ _. omega arith)

key_path-Ends : (n : ℕ) (s : Text) → length s < n → Ends rest (length s) (key_path n s)
unfolding key_path
key_path-Ends zero s h = absurd (omega arith)
key_path-Ends (suc n) s h =
    let a = length-skip_inline_ws s in
    Ends->>= left rest (length (skip_inline_ws s)) (length s) (parse_key (skip_inline_ws s)) _
      (parse_key-Ends (skip_inline_ws s))
      (λ k hk.
        let b = length-skip_inline_ws k.1 in
        let c = length-advance (skip_inline_ws k.1) in
        Ends-up rest (length (skip_inline_ws k.1)) (length s)
          (after_key k.0 (key_path n) (skip_inline_ws k.1)) (omega arith)
          (after_key-Ends k.0 (key_path n) (skip_inline_ws k.1)
            (key_path-Ends n (advance (skip_inline_ws k.1)) (omega arith))))

at_rest-Ends : (s : Text) (c : Changed Table) (n : ℕ) → Ends (λ t. n) n (at_rest s c)
at_rest-Ends s (ok t) n = omega arith
at_rest-Ends s (err c) n = Ends-at {A = Table} (λ t. n) n s c

equals-Ends : (k s : Text) → Ends all_left (length s) (equals k s)
unfolding equals
equals-Ends k s =
    let a = length-advance s in
    let b = length-skip_inline_ws (advance s) in
    Ends-if all_left (length s) (peek s == 46) _ _
      (λ _. Ends-at all_left (length s) s (dotted_key k))
      (λ _.
        Ends-if all_left (length s) (peek s == 61) _ _ (λ _. omega arith)
          (λ _. Ends-at all_left (length s) s (expected_equals k (peek s))))

key_value_line-Ends :
    (n : ℕ) (current : List Text) (root : Table) (s : Text)
    → length s < n
    → Ends left (length s) (key_value_line n current root s)
unfolding key_value_line
key_value_line-Ends n current root s h =
    Ends->>= left left (length s) (length s) (parse_key s) _ (parse_key-Ends s) (λ k hk.
      let a = length-skip_inline_ws k.1 in
      Ends->>= all_left left (length (skip_inline_ws k.1)) (length s)
        (equals k.0 (skip_inline_ws k.1)) _ (equals-Ends k.0 (skip_inline_ws k.1))
        (λ b hb.
          Ends->>= left left (length b) (length s) (parse_value n b) _
            (parse_value-Ends n b (omega arith))
            (λ v hv.
              Ends->>= (λ t. 0) left 0 (length s) (at_rest v.1 _) _ (at_rest-Ends v.1 _ 0)
                (λ t ht.
                  Ends->>= all_left left (length v.1) (length s) (skip_line_end v.1)
                    (λ r. ok (t, r)) (skip_line_end-Ends v.1) (λ r hr. omega arith)))))

last_bracket-Ends : (s : Text) → Ends all_left (length s) (last_bracket s)
unfolding last_bracket
last_bracket-Ends s =
    Ends-if all_left (length s) (peek s == 93) _ _ (λ _. length-advance s)
      (λ _. Ends-at all_left (length s) s (expected_header_end (peek s)))

header_end-Ends : (b : Bool) (s : Text) → Ends all_left (length s) (header_end b s)
unfolding header_end
header_end-Ends false s = last_bracket-Ends s
header_end-Ends true s =
    Ends-if all_left (length s) (peek s == 93) _ _
      (λ _.
        Ends-up all_left (length (advance s)) (length s) _ (length-advance s)
          (last_bracket-Ends (advance s)))
      (λ _. Ends-at all_left (length s) s (expected_array_header_end (peek s)))

header-Ends :
    (n : ℕ) (b : Bool) (root : Table) (s : Text)
    → length s < n
    → Ends path_left (suc (length s)) (header n b root s)
unfolding header
header-Ends n b root s h =
    Ends->>= rest path_left (length s) (suc (length s)) (key_path n s) _ (key_path-Ends n s h)
      (λ p hp.
        Ends->>= all_left path_left (length p.1) (suc (length s)) (header_end b p.1) _
          (header_end-Ends b p.1)
          (λ a ha.
            Ends->>= all_left path_left (length a) (suc (length s)) (skip_line_end a) _
              (skip_line_end-Ends a)
              (λ r hr.
                Ends->>= (λ t. 0) path_left 0 (suc (length s)) (at_rest r _) (λ t. ok (t, p.0, r))
                  (at_rest-Ends r _ 0) (λ t ht. omega arith))))

document_line-Ends :
    (n : ℕ) (current : List Text) (root : Table) (c : ℕ) (s : Text)
    → suc (length s) < n
    → Ends path_left (suc (length s)) (document_line n current root c (c ∷ s))
unfolding document_line advance
document_line-Ends n current root c s h =
    let a = length-advance s in
    Ends-if path_left (suc (length s)) (c == 91) _ _
      (λ _.
        Ends-if path_left (suc (length s)) (peek s == 91) _ _
          (λ _.
            Ends-up path_left (suc (length (advance s))) (suc (length s))
              (header n true root (advance s)) (omega arith)
              (header-Ends n true root (advance s) (omega arith)))
          (λ _. header-Ends n false root s (omega arith)))
      (λ _.
        Ends->>= left path_left (suc (length s)) (suc (length s))
          (key_value_line n current root (c ∷ s)) (λ x. ok (x.0, current, x.1))
          (key_value_line-Ends n current root (c ∷ s) h) (λ x hx. hx))

-- A result of any size.
abbrev whole : Table → ℕ
whole t = 0

document_turn-Ends :
    (n : ℕ) (more : List Text → Table → Text → Parsed Table) (current : List Text) (root : Table)
    (s : Text)
    → length s < n
    → ((p : List Text) (t : Table) (r : Text) → length r < length s → Ends whole 0 (more p t r))
    → Ends whole 0 (document_turn n more current root s)
unfolding document_turn
document_turn-Ends n more current root [] h f = omega arith
document_turn-Ends n more current root (c ∷ s) h f =
    Ends->>= path_left whole (suc (length s)) 0 (document_line n current root c (c ∷ s)) _
      (document_line-Ends n current root c s h) (λ x hx. f x.1 x.0 x.2 hx)

document-Ends :
    (n m : ℕ) (current : List Text) (root : Table) (s : Text)
    → length s < n
    → length s < m
    → Ends whole 0 (document n m current root s)
unfolding document
document-Ends n zero current root s h g = absurd (omega arith)
document-Ends n (suc m) current root s h g =
    let a = length-skip_ws s in
    document_turn-Ends n (document n m) current root (skip_ws s) (omega arith)
      (λ p t r b. document-Ends n m p t r (omega arith) (omega arith))

Ends-ne-unfinished : (o : Parsed Table) → Ends whole 0 o → o ≢ err unfinished
Ends-ne-unfinished (ok t) h e = cc
Ends-ne-unfinished (err f) h e = h (let q : f ≡ unfinished = cc in q)

-- `Parse` ends on every text: with a fuel of one more than its length no part of the parser runs
-- out, so the result is a tree or an error of the code.
pub parse-ne-unfinished : (src : Text) → parse src ≢ err unfinished
unfolding parse
parse-ne-unfinished src =
    Ends-ne-unfinished _
      (document-Ends (suc (length src)) (suc (length src)) [] empty src (omega arith) (omega arith))
