-- ===== src/Etf/Wire.antt =====
-- Big-endian fields (`encoding/binary`), the digits of a big integer, and the integer types of
-- etf/etf.go.
use mochi_beam.Base.{
  ℕ, zero, suc, ◌+◌, ◌-◌, ◌*◌, ◌/◌, ◌%◌, ◌^◌, ◌<◌, Bool, [], ◌∷◌, reverse, ltb, ◌==◌, if◌then◌else◌,
}
use mochi_beam.Base.Int.{ℤ, pos, negsuc, neg}
use mochi_beam.Etf.Term.{Bytes}

-- `binary.BigEndian.PutUint16`, `PutUint32` and `PutUint64`.
unfoldable pub put_uint16 : ℕ → Bytes
put_uint16 n = n / 2 ^ 8 % 256 ∷ n % 256 ∷ []

unfoldable pub put_uint32 : ℕ → Bytes
put_uint32 n = n / 2 ^ 24 % 256 ∷ n / 2 ^ 16 % 256 ∷ n / 2 ^ 8 % 256 ∷ n % 256 ∷ []

unfoldable pub put_uint64 : ℕ → Bytes
put_uint64 n =
    n / 2 ^ 56 % 256
    ∷ n / 2 ^ 48 % 256
    ∷ n / 2 ^ 40 % 256
    ∷ n / 2 ^ 32 % 256
    ∷ n / 2 ^ 24 % 256
    ∷ n / 2 ^ 16 % 256
    ∷ n / 2 ^ 8 % 256
    ∷ n % 256
    ∷ []

-- The number that bytes stand for, the most significant first.
unfoldable pub big_endian : ℕ → Bytes → ℕ
big_endian acc [] = acc
big_endian acc (b ∷ bs) = big_endian (acc * 256 + b) bs

-- The number that digits stand for, the least significant first.
unfoldable pub little_endian : Bytes → ℕ
little_endian [] = 0
little_endian (b ∷ bs) = b + 256 * little_endian bs

-- `for abs > 0 { digits = append(digits, byte(abs&0xff)); abs >>= 8 }`. Eight rounds use up a
-- 64-bit number.
unfoldable pub digits : ℕ → ℕ → Bytes
digits zero abs = []
digits (suc rounds) abs =
    let rest = abs % 256 ∷ digits rounds (abs / 2 ^ 8) in if ltb 0 abs then rest else []

abbrev pub IsInt64 : ℤ → Type 0
IsInt64 (pos n) = n < 2 ^ 63
IsInt64 (negsuc n) = n < 2 ^ 63

-- `big.Int.IsInt64`.
abbrev pub is_int64 : ℤ → Bool
is_int64 (pos n) = ltb n (2 ^ 63)
is_int64 (negsuc n) = ltb n (2 ^ 63)

-- `int64(int32(u))` for a uint32 `u`.
unfoldable pub of_uint32 : ℕ → ℤ
of_uint32 u = if ltb u (2 ^ 31) then pos u else negsuc (2 ^ 32 - 1 - u)

-- `uint32(int32(v))`: the low 32 bits.
unfoldable pub to_uint32 : ℤ → ℕ
to_uint32 (pos n) = n % 2 ^ 32
to_uint32 (negsuc n) = 2 ^ 32 - 1 - n % 2 ^ 32

-- `abs` and `sign` of `encInt64`: `uint64(v)`, or `uint64(-v)` with its wrap-around.
unfoldable pub sign_of : ℤ → ℕ
sign_of (pos n) = 0
sign_of (negsuc n) = 1

unfoldable pub abs_of : ℤ → ℕ
abs_of (pos n) = n % 2 ^ 64
abs_of (negsuc n) = (n + 1) % 2 ^ 64

-- `new(big.Int).SetBytes(rev)`, negated if the sign byte is not 0.
unfoldable pub big_of : ℕ → Bytes → ℤ
big_of sign ds = let n = big_endian 0 (reverse ds) in if sign == 0 then pos n else neg (pos n)
