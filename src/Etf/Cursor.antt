-- ===== src/Etf/Cursor.antt =====
-- The read cursor of etf/etf.go: a method takes it and returns its value with the new cursor.
use mochi_beam.Base.{ℕ, ◌+◌, ◌%◌, ◌^◌, [], ◌∷◌, ltb, if◌then◌else◌, length, take, drop}
use mochi_beam.Etf.Term
use mochi_beam.Etf.Term.{
  Bytes, Atom, Pid, ErlPort, Reference, Term, Terms, Tag, tag_of, version_magic, Error, Result, ok,
  err, out_of_fuel, map_err, too_short, bad_magic, unexpected_eof, unsupported_tag, zlib_failed,
  not_atom, wrap, wrap_at, done, more,
}
use mochi_beam.Etf.Wire.{big_endian}

-- `buf` and `pos`: the bytes from `pos` on, and `pos`.
pub record Decoder : Type 0 where
  pub rest : Bytes
  pub offset : ℕ

abbrev pub at : Bytes → ℕ → Decoder
at bs p = record { rest = bs; offset = p }

abbrev pub Read {ℓ} : Type ℓ → Type ℓ
Read A = Decoder → Result (A × Decoder)

abbrev pub pure {ℓ} : {A : Type ℓ} → A → Read A
pure a d = ok (a, d)

abbrev pub fail {ℓ} : {A : Type ℓ} → Error → Read A
fail e d = err e

infixl 5 ◌>>=◌ ◌>>◌
abbrev pub ◌>>=◌ {ℓ κ} : {A : Type ℓ} {B : Type κ} → Read A → (A → Read B) → Read B
◌>>=◌ m f d = Term.bind (m d) (λ r. f r.0 r.1)

abbrev pub ◌>>◌ {ℓ κ} : {A : Type ℓ} {B : Type κ} → Read A → Read B → Read B
m >> k = m >>= λ _. k

-- A call whose error is returned with more context.
abbrev pub context {ℓ} : {A : Type ℓ} → (Error → Error) → Read A → Read A
context g m d = map_err g (m d)

byte_at : Bytes → ℕ → Result (ℕ × Decoder)
byte_at [] p = err unexpected_eof
byte_at (b ∷ bs) p = ok (b, at bs (p + 1))

unfoldable pub byte_ : Read ℕ
unfolding byte_at
byte_ d = byte_at d.rest d.offset

unfoldable pub bytes_ : ℕ → Read Bytes
bytes_ n d =
    if ltb (length d.rest) n
    then err unexpected_eof
    else ok (take n d.rest, at (drop n d.rest) (d.offset + n))

unfoldable pub uint16 : Read ℕ
uint16 = do b ← bytes_ 2; pure (big_endian 0 b % 2 ^ 16)

unfoldable pub uint32 : Read ℕ
uint32 = do b ← bytes_ 4; pure (big_endian 0 b % 2 ^ 32)
