-- ===== src/Toml/Scan.antt =====
-- internal/toml/parser.go: the characters, the white space, the comments and the ends of lines.
use mochi_beam.Base.{ℕ, Bool, true, false, [], ◌∷◌, ◌==◌, ◌||◌, ◌&&◌, leb, if◌then◌else◌}
use mochi_beam.Base.Results.{ok, err}
use mochi_beam.Text.Chars.{Text}
use mochi_beam.Toml.Values.{Parsed, at, trailing_garbage}

-- The state of the parser is the text that is left. `peek` is 0 at its end.
unfoldable pub peek : Text → ℕ
peek [] = 0
peek (c ∷ s) = c

unfoldable pub advance : Text → Text
advance [] = []
advance (c ∷ s) = s

unfoldable pub is_inline_space : ℕ → Bool
is_inline_space c = (c == b' ') || (c == b'\t')

-- `skipInlineWS`.
unfoldable pub skip_inline_ws : Text → Text
skip_inline_ws [] = []
skip_inline_ws (c ∷ s) = let rest = skip_inline_ws s in if is_inline_space c then rest else c ∷ s

-- `skipWSAndComments`; the Boolean says that a comment is being skipped.
unfoldable pub skip_from : Bool → Text → Text
skip_from comment [] = []
skip_from true (c ∷ s) = skip_from (if c == b'\n' then false else true) s
skip_from false (c ∷ s) =
    let rest = skip_from (c == b'#') s in
    if is_inline_space c || (c == b'\n') || (c == b'\r') || (c == b'#') then rest else c ∷ s

unfoldable pub skip_ws : Text → Text
skip_ws = skip_from false

-- The loop over a comment in `skipLineEnd`: it stops before the line break.
unfoldable pub skip_comment : Text → Text
skip_comment [] = []
skip_comment (c ∷ s) = let rest = skip_comment s in if c == b'\n' then c ∷ s else rest

unfoldable pub line_end : Text → Parsed Text
line_end [] = ok []
line_end (c ∷ s) = if c == b'\n' then ok s else err (at (c ∷ s) (trailing_garbage c))

-- `skipLineEnd`.
unfoldable pub skip_line_end : Text → Parsed Text
skip_line_end s =
    let a = skip_inline_ws s in
    let b = if peek a == b'#' then skip_comment a else a in
    line_end (if peek b == b'\r' then advance b else b)

-- The characters of a bare key.
unfoldable pub is_bare : ℕ → Bool
is_bare c =
    (leb b'a' c && leb c b'z')
    || (leb b'A' c && leb c b'Z')
    || (leb b'0' c && leb c b'9')
    || (c == b'_')
    || (c == b'-')

-- The longest start of the text whose characters pass the test, and what is left.
unfoldable pub span : (ℕ → Bool) → Text → Text × Text
span test [] = ([], [])
span test (c ∷ s) = let (w, r) = span test s in if test c then (c ∷ w, r) else ([], c ∷ s)
