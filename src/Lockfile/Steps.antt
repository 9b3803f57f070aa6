-- ===== src/Lockfile/Steps.antt =====
-- lockfile: the parser on all lines of an entry.
use mochi_beam.Base.{
  ℕ, zero, suc, ◌≤◌, ◌<◌, ◌≡◌, refl, sym, ap, ◌∙◌, subst, Bool, true, ◌&&◌, [], ◌∷◌, ◌++◌, length,
  All, arith, append_assoc, List, length-append, none, suc-==-zero,
}
use mochi_beam.Text.Chars.{Text, text_eq_refl}
use mochi_beam.Text.Quote.{quote}
use mochi_beam.Toml.Values.{Table, Tables, lookup}
use mochi_beam.Toml.Scan.{peek, is_inline_space, skip_inline_ws}
use mochi_beam.Toml.Document.{document}
use mochi_beam.Toml.Reading.Strings.{IsReadable}
use mochi_beam.Toml.Reading.Keys.{IsKey, is_key_word, is_key_word_lem, parse_value-quote}
use mochi_beam.Toml.Reading.Tables.{
  set_given, set_all, Fields, IsFresh, IsFresh-set_given, are_distinct,
}
use mochi_beam.Lockfile.Members.{AreReadable, parse_value-members}
use mochi_beam.Lockfile.Render.{line, optional, array_line, more_members, written}
use mochi_beam.Lockfile.Lines.{
  GoesOn, package_key, root, Line, must, maybe, many, line_text, line_value, IsReadableLine,
  value_line,
}

line-append : (k v r : Text) → line k v ++ r ≡ k ++ 32 ∷ 61 ∷ 32 ∷ (quote v ++ 10 ∷ r)
unfolding line
line-append k v r =
    append_assoc k (32 ∷ 61 ∷ 32 ∷ (quote v ++ 10 ∷ [])) r
    ∙ ap (λ z. k ++ 32 ∷ 61 ∷ 32 ∷ z) (append_assoc (quote v) (10 ∷ []) r)

array_line-append :
    (k v : Text) (vs : List Text) (r : Text)
    → array_line k (v ∷ vs) ++ r ≡ k ++ 32 ∷ 61 ∷ 32 ∷ 91 ∷ (quote v ++ (more_members vs ++ r))
unfolding array_line
array_line-append k v vs r =
    append_assoc k (32 ∷ 61 ∷ 32 ∷ 91 ∷ (quote v ++ more_members vs)) r
    ∙ ap (λ z. k ++ 32 ∷ 61 ∷ 32 ∷ 91 ∷ z) (append_assoc (quote v) (more_members vs) r)

length-more_members : (vs : List Text) → length vs ≤ length (more_members vs)
unfolding more_members
length-more_members [] = omega arith
length-more_members (v ∷ vs) =
    omega (arith, length-append (quote v) (more_members vs), length-more_members vs)

-- From one text to an equal one.
GoesOn-along :
    (n m : ℕ) (c d : List Text) (a b : Table) (s t r : Text)
    → s ≡ t
    → GoesOn n m c a t d b r
    → GoesOn n m c a s d b r
GoesOn-along n m c d a b s t r e (k, h, q) = (k, h, ap (document n m c a) e ∙ q)

module _ (ts : Tables) (t : Table) (k : Text) (key : IsKey k) (fresh : lookup t k ≡ none) where
  must_line :
      (n m : ℕ) (v r : Text)
      → All IsReadable v
      → length (line k v ++ r) < n
      → length (line k v ++ r) < m
      → GoesOn n m
          (package_key ∷ [])
          (root ts t)
          (line k v ++ r)
          (package_key ∷ [])
          (root ts (set_given t k (line_value (must v))))
          r
  unfolding line_value
  must_line zero m v r h bn bm = absurd (omega arith)
  must_line (suc n) zero v r h bn bm = absurd (omega arith)
  must_line (suc n) (suc m) v r h bn bm =
      let solid : skip_inline_ws (quote v ++ 10 ∷ r) ≡ quote v ++ 10 ∷ r =
        unfold skip_inline_ws is_inline_space quote in refl in
      let parsed = parse_value-quote n v (10 ∷ r) h (unfold peek in refl) in
      let le : length r < m =
        (let a = ap length (line-append k v r) in
          let b = length-append k (32 ∷ 61 ∷ 32 ∷ (quote v ++ 10 ∷ r)) in
          let c = length-append (quote v) (10 ∷ r) in omega arith) in
      GoesOn-along (suc n) (suc m) (package_key ∷ []) (package_key ∷ []) (root ts t) _
        (line k v ++ r) _ r (line-append k v r)
        (value_line (suc n) m ts t k key fresh (quote v ++ 10 ∷ r) r _ solid parsed le)

  many_line :
      (n m : ℕ) (v : Text) (vs : List Text) (r : Text)
      → AreReadable (v ∷ vs)
      → length (array_line k (v ∷ vs) ++ r) < n
      → length (array_line k (v ∷ vs) ++ r) < m
      → GoesOn n m
          (package_key ∷ [])
          (root ts t)
          (array_line k (v ∷ vs) ++ r)
          (package_key ∷ [])
          (root ts (set_given t k (line_value (many (v ∷ vs)))))
          r
  unfolding line_value
  many_line zero m v vs r h bn bm = absurd (omega arith)
  many_line (suc zero) m v vs r h bn bm = absurd (
      let a = ap length (array_line-append k v vs r) in
      let b = length-append k (32 ∷ 61 ∷ 32 ∷ 91 ∷ (quote v ++ (more_members vs ++ r))) in
      omega arith)
  many_line (suc (suc n)) zero v vs r h bn bm = absurd (omega arith)
  many_line (suc (suc n)) (suc m) v vs r h bn bm =
      let solid : skip_inline_ws (91 ∷ (quote v ++ (more_members vs ++ r)))
          ≡ 91 ∷ (quote v ++ (more_members vs ++ r)) =
        unfold skip_inline_ws is_inline_space in refl in
      let a = ap length (array_line-append k v vs r) in
      let b = length-append k (32 ∷ 61 ∷ 32 ∷ 91 ∷ (quote v ++ (more_members vs ++ r))) in
      let c = length-append (quote v) (more_members vs ++ r) in
      let d = length-append (more_members vs) r in
      let le : length r < m = omega arith in
      let few : length vs ≤ n = omega (arith, length-more_members vs) in
      let parsed = parse_value-members n v vs r h.0 h.1 few in
      GoesOn-along (suc (suc n)) (suc m) (package_key ∷ []) (package_key ∷ []) (root ts t) _
        (array_line k (v ∷ vs) ++ r) _ r (array_line-append k v vs r)
        (value_line (suc (suc n)) m ts t k key fresh (91 ∷ (quote v ++ (more_members vs ++ r))) r _
          solid parsed le)

  one_line :
      (n m : ℕ) (l : Line) (r : Text)
      → IsReadableLine l
      → length (line_text k l ++ r) < n
      → length (line_text k l ++ r) < m
      → GoesOn n m
          (package_key ∷ [])
          (root ts t)
          (line_text k l ++ r)
          (package_key ∷ [])
          (root ts (set_given t k (line_value l)))
          r
  unfolding line_text line_value optional
  one_line n m (must v) r h bn bm = must_line n m v r h bn bm
  one_line n m (maybe []) r h bn bm = (m, bm, refl)
  one_line n m (maybe (c ∷ v)) r h bn bm =
      let e : optional k (c ∷ v) ≡ line k (c ∷ v) = rw (suc-==-zero (length v)) in
      let w : line_value (maybe (c ∷ v)) ≡ line_value (must (c ∷ v)) =
        rw (suc-==-zero (length v)) in
      let go =
        must_line n m (c ∷ v) r h (subst (λ z. length (z ++ r) < n) e bn)
          (subst (λ z. length (z ++ r) < m) e bm) in
      subst
        (λ z.
          GoesOn n m (package_key ∷ []) (root ts t) (optional k (c ∷ v) ++ r) (package_key ∷ [])
            (root ts (set_given t k z)) r)
        (sym w)
        (GoesOn-along n m (package_key ∷ []) (package_key ∷ []) (root ts t) _
          (optional k (c ∷ v) ++ r) _ r (ap (λ z. z ++ r) e) go)
  one_line n m (many []) r h bn bm = unfold array_line in (m, bm, refl)
  one_line n m (many (v ∷ vs)) r h bn bm = many_line n m v vs r h bn bm

-- The lines of an entry with their keys.
abbrev pub Lines : Type 0
Lines = List (Text × Line)

abbrev pub texts : Lines → List Text
texts [] = []
texts (l ∷ ls) = line_text l.0 l.1 ∷ texts ls

abbrev pub fields : Lines → Fields
fields [] = []
fields (l ∷ ls) = (l.0, line_value l.1) ∷ fields ls

abbrev pub AreKeys : Lines → Type 0
AreKeys [] = Unit
AreKeys (l ∷ ls) = IsKey l.0 × AreKeys ls

abbrev pub are_key_words : Lines → Bool
are_key_words [] = true
are_key_words (l ∷ ls) = is_key_word l.0 && are_key_words ls

pub are_key_words_lem : (ls : Lines) → are_key_words ls ≡ true → AreKeys ls
are_key_words_lem [] h = tt
are_key_words_lem (l ∷ ls) h =
    (is_key_word_lem l.0 (ground arith), are_key_words_lem ls (ground arith))

abbrev pub AreReadableLines : Lines → Type 0
AreReadableLines [] = Unit
AreReadableLines (l ∷ ls) = IsReadableLine l.1 × AreReadableLines ls

pub all_lines :
    (n m : ℕ) (ts : Tables) (t : Table) (ls : Lines) (r : Text)
    → AreKeys ls
    → AreReadableLines ls
    → are_distinct (fields ls) ≡ true
    → IsFresh t (fields ls)
    → length (written (texts ls) ++ r) < n
    → length (written (texts ls) ++ r) < m
    → GoesOn n m
        (package_key ∷ [])
        (root ts t)
        (written (texts ls) ++ r)
        (package_key ∷ [])
        (root ts (set_all t (fields ls)))
        r
unfolding written set_all
all_lines n m ts t [] r ks hs d fresh bn bm = (m, bm, refl)
all_lines n m ts t (l ∷ ls) r ks hs d fresh bn bm =
    let x = line_text l.0 l.1 in
    let rest = written (texts ls) ++ r in
    let split : (x ++ written (texts ls)) ++ r ≡ x ++ rest =
      append_assoc x (written (texts ls)) r in
    let long = ap length split in
    let free = fresh l.0 (rw (text_eq_refl l.0)) in
    let (m1, b1, e1) = one_line ts t l.0 ks.0 free n m l.1 rest hs.0 (omega arith) (omega arith) in
    let (m2, b2, e2) =
      all_lines n m1 ts (set_given t l.0 (line_value l.1)) ls r ks.1 hs.1 (ground arith)
        (IsFresh-set_given t (l.0, line_value l.1) (fields ls) d fresh)
        (omega (arith, length-append x rest)) b1 in
    (m2, b2, ap (document n m (package_key ∷ []) (root ts t)) split ∙ (e1 ∙ e2))
