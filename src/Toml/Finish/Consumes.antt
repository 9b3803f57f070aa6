-- ===== src/Toml/Finish/Consumes.antt =====
-- internal/toml/parser.go: what the parts of the parser leave is no longer than what they got.
use mochi_beam.Base.{
  ℕ, zero, suc, ◌+◌, ◌≤◌, ◌≡◌, ◌≢◌, refl, Bool, true, false, [], ◌∷◌, ◌++◌, ◌==◌, ◌||◌, ◌&&◌, ltb,
  length, arith, if◌then◌else◌, Option, none, some,
}
use mochi_beam.Base.Results.{ok, err, ◌>>=◌}
use mochi_beam.Text.Chars.{Text}
use mochi_beam.Toml.Values.{
  Parsed, Cause, at, unfinished, unterminated_string, multiline, bad_escape, short_escape,
  unknown_escape, newline_in_string, unterminated_escape,
}
use mochi_beam.Toml.Scan.{
  peek, advance, span, skip_inline_ws, skip_ws, skip_from, skip_comment, skip_line_end, line_end,
}
use mochi_beam.Toml.Strings.{
  Mode, plain, escaped, hex, Move, done, fail, write, move, escape, write_hex, hex_value, prefixed,
  resume, string_loop, parse_string,
}

-- The run ends, in an error of the code or in a result of at most this size.
abbrev pub Ends : {A : Type 0} → (A → ℕ) → ℕ → Parsed A → Type 0
Ends size n (ok a) = size a ≤ n
Ends size n (err e) = e ≢ unfinished

pub Ends-at :
    {A : Type 0} (size : A → ℕ) (n : ℕ) (s : Text) (c : Cause) → Ends {A = A} size n (err (at s c))
Ends-at size n s c h = cc

pub Ends->>= :
    {A B : Type 0} (size : A → ℕ) (size' : B → ℕ) (n n' : ℕ) (o : Parsed A) (f : A → Parsed B)
    → Ends size n o
    → ((a : A) → size a ≤ n → Ends size' n' (f a))
    → Ends size' n' (o >>= f)
Ends->>= size size' n n' (ok a) f h g = g a h
Ends->>= size size' n n' (err e) f h g = h

pub Ends-if :
    {A : Type 0} (size : A → ℕ) (n : ℕ) (b : Bool) (x y : Parsed A)
    → (b ≡ true → Ends size n x)
    → (b ≡ false → Ends size n y)
    → Ends size n (if b then x else y)
Ends-if size n true x y f g = f refl
Ends-if size n false x y f g = g refl

pub if_le :
    {A : Type 0} (size : A → ℕ) (n : ℕ) (b : Bool) (x y : A)
    → size x ≤ n
    → size y ≤ n
    → size (if b then x else y) ≤ n
if_le size n true x y f g = f
if_le size n false x y f g = g

-- What is left has less than the text, by `suc`.
abbrev pub left : {A : Type 0} → A × Text → ℕ
left x = suc (length x.1)

abbrev pub rest : {A : Type 0} → A × Text → ℕ
rest x = length x.1

pub length-advance : (s : Text) → length (advance s) ≤ length s
unfolding advance
length-advance [] = omega arith
length-advance (c ∷ s) = omega arith

pub length-skip_inline_ws : (s : Text) → length (skip_inline_ws s) ≤ length s
unfolding skip_inline_ws
length-skip_inline_ws [] = omega arith
length-skip_inline_ws (c ∷ s) = ground (arith, length-skip_inline_ws s)

length-skip_from : (b : Bool) (s : Text) → length (skip_from b s) ≤ length s
unfolding skip_from
length-skip_from b [] = omega arith
length-skip_from true (c ∷ s) =
    let h = length-skip_from (if c == 10 then false else true) s in omega arith
length-skip_from false (c ∷ s) = ground (arith, length-skip_from (c == 35) s)

pub length-skip_ws : (s : Text) → length (skip_ws s) ≤ length s
unfolding skip_ws
length-skip_ws s = length-skip_from false s

length-skip_comment : (s : Text) → length (skip_comment s) ≤ length s
unfolding skip_comment
length-skip_comment [] = omega arith
length-skip_comment (c ∷ s) = ground (arith, length-skip_comment s)

line_end-Ends : (s : Text) → Ends (λ r. length r) (length s) (line_end s)
unfolding line_end
line_end-Ends [] = omega arith
line_end-Ends (c ∷ s) =
    Ends-if (λ r. length r) (length (c ∷ s)) (c == 10) _ _ (λ _. omega arith) (λ _ h. cc)

pub Ends-up :
    {A : Type 0} (size : A → ℕ) (n m : ℕ) (o : Parsed A) → n ≤ m → Ends size n o → Ends size m o
Ends-up size n m (ok a) h e = omega arith
Ends-up size n m (err e) h x = x

pub skip_line_end-Ends : (s : Text) → Ends (λ r. length r) (length s) (skip_line_end s)
unfolding skip_line_end
skip_line_end-Ends s =
    let a = skip_inline_ws s in
    let b = if peek a == 35 then skip_comment a else a in
    let c = if peek b == 13 then advance b else b in
    let ha = length-skip_inline_ws s in
    let hb : length b ≤ length a = ground (arith, length-skip_comment a) in
    let hc : length c ≤ length b = ground (arith, length-advance b) in
    Ends-up (λ r. length r) (length c) (length s) (line_end c) (omega arith) (line_end-Ends c)

pub span-length :
    (test : ℕ → Bool) (s : Text) → length (span test s).0 + length (span test s).1 ≡ length s
unfolding span
span-length test [] = omega arith
span-length test (c ∷ s) = ground (arith, span-length test s)

-- A turn of the loop of a string fails only in errors of the code.
abbrev Fails : Move → Type 0
Fails (fail e) = e ≢ unfinished
Fails _ = Unit

Fails-if : (b : Bool) (x y : Move) → Fails x → Fails y → Fails (if b then x else y)
Fails-if true x y f g = f
Fails-if false x y f g = g

Fails-at : (s : Text) (c : Cause) → Fails (fail (at s c))
Fails-at s c h = cc

write_hex-Fails : (s w : Text) (o : Option ℕ) → Fails (write_hex s w o)
unfolding write_hex
write_hex-Fails s w none = Fails-at s (bad_escape w)
write_hex-Fails s w (some n) = tt

escape-Fails : (c : ℕ) (s : Text) → Fails (escape c s)
unfolding escape
escape-Fails c s = Fails-if ((c == 34) || (c == 92) || (c == 47)) _ _ tt (
    Fails-if (c == 110) _ _ tt (
      Fails-if (c == 116) _ _ tt (
        Fails-if (c == 114) _ _ tt (
          Fails-if (c == 98) _ _ tt (
            Fails-if (c == 102) _ _ tt (
              Fails-if (c == 117) _ _ (Fails-if (ltb (length s) 4) _ _ (Fails-at s short_escape) tt)
                (Fails-at s (unknown_escape c))))))))

move-Fails : (q : ℕ) (m : Mode) (c : ℕ) (s : Text) → Fails (move q m c s)
unfolding move
move-Fails q plain c s = Fails-if (c == q) _ _ tt (
    Fails-if (c == 10) _ _ (Fails-at s newline_in_string) (
      Fails-if ((q == 34) && (c == 92)) _ _
        (Fails-if (length s == 0) _ _ (Fails-at s unterminated_escape) tt) tt))
move-Fails q escaped c s = escape-Fails c s
move-Fails q (hex d (suc n)) c s = tt
move-Fails q (hex d zero) c s = write_hex-Fails s (d ++ c ∷ []) (hex_value (some 0) (d ++ c ∷ []))

prefixed-Ends :
    (w : Text) (n : ℕ) (o : Parsed (Text × Text)) → Ends rest n o → Ends rest n (prefixed w o)
unfolding prefixed
prefixed-Ends w n (ok x) h = h
prefixed-Ends w n (err e) h = h

resume-Ends :
    (s : Text) (x : Move) (f : Mode → Parsed (Text × Text))
    → Fails x
    → ((m : Mode) → Ends rest (length s) (f m))
    → Ends rest (length s) (resume s x f)
unfolding resume
resume-Ends s done f h g = omega arith
resume-Ends s (fail e) f h g = h
resume-Ends s (write w m) f h g = prefixed-Ends w (length s) (f m) (g m)

string_loop-Ends : (q : ℕ) (m : Mode) (s : Text) → Ends rest (length s) (string_loop q m s)
unfolding string_loop
string_loop-Ends q m [] = Ends-at (rest {A = Text}) 0 [] unterminated_string
string_loop-Ends q m (c ∷ s) =
    Ends-up rest (length s) (suc (length s)) (string_loop q m (c ∷ s)) (omega arith) (
      resume-Ends s (move q m c s) (λ m'. string_loop q m' s) (move-Fails q m c s)
        (λ m'. string_loop-Ends q m' s))

pub parse_string-Ends : (q : ℕ) (s : Text) → Ends rest (length s) (parse_string q s)
unfolding parse_string
parse_string-Ends q s =
    Ends-if rest (length s) (peek s == q) _ _
      (λ _.
        Ends-if rest (length s) (peek (advance s) == q) _ _
          (λ _. Ends-at (rest {A = Text}) (length s) (advance s) multiline) (λ _. length-advance s))
      (λ _. string_loop-Ends q plain s)
