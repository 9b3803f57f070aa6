-- ===== src/Etf/RoundTrip/Fields.antt =====
-- Each fixed-width field of etf/etf.go is read back from what was written, whatever follows.
use mochi_beam.Base.{
  ℕ, zero, suc, ◌+◌, ◌*◌, ◌/◌, ◌^◌, ◌≤◌, ◌<◌, ◌≡◌, refl, ap, ◌∙◌, [], ◌∷◌, ◌++◌, reverse, arith,
  length, length-append, take-length_append, drop-length_append, le→not_ltb,
}
use mochi_beam.Base.Int.{ℤ, pos, negsuc}
use mochi_beam.Etf.Term.{Bytes, ok}
use mochi_beam.Etf.Wire.{
  put_uint16, put_uint32, put_uint64, big_endian, little_endian, digits, of_uint32, to_uint32,
}
use native.Mathlib.Nat.{mod-eq_of_lt, pow-suc}
use mathlib.Core.List.{reverse-append}
use mochi_beam.Etf.Decode.{at, bytes_, uint16, uint32}

pub big_endian-put_uint16 : (n : ℕ) → n < 2 ^ 16 → big_endian 0 (put_uint16 n) ≡ n
unfolding big_endian put_uint16
big_endian-put_uint16 n h = omega arith

pub big_endian-put_uint32 : (n : ℕ) → n < 2 ^ 32 → big_endian 0 (put_uint32 n) ≡ n
unfolding big_endian put_uint32
big_endian-put_uint32 n h = omega arith

pub big_endian-put_uint64 : (n : ℕ) → n < 2 ^ 64 → big_endian 0 (put_uint64 n) ≡ n
unfolding big_endian put_uint64
big_endian-put_uint64 n h = omega arith

-- Bytes that were written before `more` are read as they are.
pub bytes_-append :
    (bs more : Bytes) (p : ℕ)
    → bytes_ (length bs) (at (bs ++ more) p) ≡ ok (bs, at more (p + length bs))
unfolding bytes_
bytes_-append bs more p = rw (
  le→not_ltb (length (bs ++ more)) (length bs) (omega (arith, length-append bs more)),
  take-length_append bs more,
  drop-length_append bs more,
)

pub uint16-put_uint16 :
    (n : ℕ) (more : Bytes) (p : ℕ)
    → n < 2 ^ 16
    → uint16 (at (put_uint16 n ++ more) p) ≡ ok (n, at more (p + 2))
unfolding uint16 put_uint16
uint16-put_uint16 n more p h =
    rw (bytes_-append (unfold put_uint16 in put_uint16 n) more p)
      (rw (big_endian-put_uint16 n h, mod-eq_of_lt h))

pub uint32-put_uint32 :
    (n : ℕ) (more : Bytes) (p : ℕ)
    → n < 2 ^ 32
    → uint32 (at (put_uint32 n ++ more) p) ≡ ok (n, at more (p + 4))
unfolding uint32 put_uint32
uint32-put_uint32 n more p h =
    rw (bytes_-append (unfold put_uint32 in put_uint32 n) more p)
      (rw (big_endian-put_uint32 n h, mod-eq_of_lt h))

-- The four bytes of an int32 give that integer.
pub of_uint32-to_uint32_pos : (n : ℕ) → n < 2 ^ 31 → of_uint32 (to_uint32 (pos n)) ≡ pos n
unfolding of_uint32 to_uint32
of_uint32-to_uint32_pos n h = ground arith

pub of_uint32-to_uint32_negsuc : (n : ℕ) → n < 2 ^ 31 → of_uint32 (to_uint32 (negsuc n)) ≡ negsuc n
unfolding of_uint32 to_uint32
of_uint32-to_uint32_negsuc n h = ground arith

pub to_uint32-lt : (v : ℤ) → to_uint32 v < 2 ^ 32
unfolding to_uint32
to_uint32-lt (pos n) = omega arith
to_uint32-lt (negsuc n) = omega arith

pub little_endian-digits : (r n : ℕ) → n < 256 ^ r → little_endian (digits r n) ≡ n
unfolding little_endian digits
little_endian-digits zero n h = omega arith
little_endian-digits (suc r) n h =
    ground (arith, little_endian-digits r (n / 2 ^ 8) (omega (arith, pow-suc 256 r)))

pub length-digits_le : (r n : ℕ) → length (digits r n) ≤ r
unfolding digits
length-digits_le zero n = omega arith
length-digits_le (suc r) n = ground (arith, length-digits_le r (n / 2 ^ 8))

big_endian-append :
    (acc b : ℕ) (bs : Bytes) → big_endian acc (bs ++ b ∷ []) ≡ big_endian acc bs * 256 + b
unfolding big_endian
big_endian-append acc b [] = refl
big_endian-append acc b (c ∷ bs) = big_endian-append (acc * 256 + c) b bs

-- Reversed, the digits are read by `SetBytes` as the number that they stand for.
pub big_endian-reverse : (ds : Bytes) → big_endian 0 (reverse ds) ≡ little_endian ds
unfolding little_endian
big_endian-reverse [] = unfold big_endian in refl
big_endian-reverse (b ∷ bs) =
    ap (big_endian 0) (reverse-append (b ∷ []) bs)
    ∙ big_endian-append 0 b (reverse bs)
    ∙ omega (arith, big_endian-reverse bs)

pub length-put_uint16 : (n : ℕ) → length (put_uint16 n) ≡ 2
unfolding put_uint16
length-put_uint16 n = refl

pub length-put_uint32 : (n : ℕ) → length (put_uint32 n) ≡ 4
unfolding put_uint32
length-put_uint32 n = refl

pub length-append_bytes : (xs ys : Bytes) → length (xs ++ ys) ≡ length xs + length ys
length-append_bytes = length-append

-- The sizes of what an encoder writes, for `omega`.
pub ruleset sizes = (arith, length-append_bytes, length-put_uint16, length-put_uint32)
