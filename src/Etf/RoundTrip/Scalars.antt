-- ===== src/Etf/RoundTrip/Scalars.antt =====
-- Integers, floats, atoms and binaries of etf/etf.go are read back by `decoder.term`.
use mochi_beam.Base.{
  ℕ, suc, ◌+◌, ◌%◌, ◌^◌, ◌≤◌, ◌<◌, ◌≡◌, refl, ap, true, [], ◌∷◌, ◌++◌, append_assoc, arith, ltb,
  leb, length, Bool-cases, inl, inr, le→not_ltb, lt→ltb, leb→le, subst, not_ltb→le,
}
use mochi_beam.Base.Int.{ℤ, pos, negsuc}
use mochi_beam.Etf.Term.{
  Result, Bytes, Atom, Term, ok, tag_of, tag_small_integer, tag_integer, tag_small_big,
  tag_new_float, tag_small_atom_utf8, tag_atom_utf8,
}
use mochi_beam.Etf.Wire.{
  IsInt64, put_uint16, put_uint32, put_uint64, digits, of_uint32, to_uint32, abs_of, sign_of,
  is_int64, big_of,
}
use mochi_beam.Etf.Decode.{
  Inflate, Decoder, atom_utf8, atom_length, new_float, read_binary, at, byte_, term, dispatch,
  big_int,
}
use mochi_beam.Etf.Encode.{enc_big, enc_int64, enc_atom, enc_binary}
use mochi_beam.Etf.RoundTrip.Fields.{
  uint16-put_uint16, uint32-put_uint32, bytes_-append, length-digits_le, little_endian-digits,
  big_endian-reverse, big_endian-put_uint32, to_uint32-lt, of_uint32-to_uint32_pos,
  of_uint32-to_uint32_negsuc, big_endian-put_uint64,
}
use native.Mathlib.Nat.{mod-eq_of_lt}
use native.Mathlib.Numerals.{add-one}

-- From the bytes `bs`, whatever follows and wherever they stand, `term` reads `v`.
abbrev pub Reads : Inflate → ℕ → Bytes → Term → Type 0
Reads inflate f bs v =
    (more : Bytes) (p : ℕ) → term inflate f (at (bs ++ more) p) ≡ ok (v, at more (p + length bs))

pub mod_small : (n m : ℕ) → n < m → n % m ≡ n
mod_small n m h = mod-eq_of_lt h

pub ok-injective {ℓ} : {A : Type ℓ} {a b : A} → Result.ok a ≡ Result.ok b → a ≡ b
ok-injective {a} e = ap (elim [ Result.ok x ↦ x | Result.err _ ↦ a | Result.out_of_fuel ↦ a ]) e

-- The cursor is named by an equal offset.
abbrev pub landed {ℓ} : {A : Type ℓ} → A → Bytes → ℕ → Result (A × Decoder)
landed v more p = ok (v, at more p)

pub lands {ℓ} :
    {A : Type ℓ} {v : A} {more : Bytes} (p q : ℕ) → p ≡ q → landed v more p ≡ landed v more q
lands {v} {more} p q e = ap (landed v more) e

big_of-digits_pos :
    (n : ℕ) → n < 2 ^ 63 → big_of (sign_of (pos n)) (digits 8 (abs_of (pos n))) ≡ pos n
unfolding big_of sign_of abs_of
big_of-digits_pos n h = rw (
  mod_small n (2 ^ 64) (omega arith),
  big_endian-reverse (digits 8 n),
  little_endian-digits 8 n (omega arith),
)

big_of-digits_negsuc :
    (n : ℕ) → n < 2 ^ 63 → big_of (sign_of (negsuc n)) (digits 8 (abs_of (negsuc n))) ≡ negsuc n
unfolding big_of sign_of abs_of
big_of-digits_negsuc n h =
    rw
      (
        mod_small (n + 1) (2 ^ 64) (omega arith),
        big_endian-reverse (digits 8 (n + 1)),
        little_endian-digits 8 (n + 1) (omega arith),
      )
      (rw add-one)

-- `term` reads the tag and hands over to the tag's method.
pub term_step :
    (inflate : Inflate) (f b : ℕ) (bs : Bytes) (p : ℕ)
    → term inflate (suc f) (at (b ∷ bs) p)
      ≡ dispatch inflate (term inflate f) (tag_of b) b (at bs (p + 1))
unfolding term byte_
term_step inflate f b bs p = refl

module _ (inflate : Inflate) (f : ℕ) where
  byte_Reads :
      (n : ℕ)
      → n < 256
      → Reads inflate (suc f) (tag_small_integer ∷ n % 256 ∷ []) (Term.int64 (pos n))
  unfolding term dispatch tag_of byte_
  byte_Reads n h more p = rw (mod-eq_of_lt h) (lands (p + 1 + 1) (p + 2) (omega arith))

  int32_Reads :
      (v : ℤ)
      → of_uint32 (to_uint32 v) ≡ v
      → Reads inflate (suc f) (tag_integer ∷ put_uint32 (to_uint32 v)) (Term.int64 v)
  unfolding term dispatch tag_of byte_ put_uint32
  int32_Reads v h more p =
      rw (bytes_-append (unfold put_uint32 in put_uint32 (to_uint32 v)) more (p + 1)) (
        rw (big_endian-put_uint32 (to_uint32 v) (to_uint32-lt v), mod-eq_of_lt (to_uint32-lt v), h)
          (lands (p + 1 + 4) (p + 5) (omega arith)))

  big_int_Reads :
      (v : ℤ) (s : ℕ) (ds : Bytes)
      → length ds < 256
      → big_of s ds ≡ v
      → is_int64 v ≡ true
      → Reads inflate (suc f) (tag_small_big ∷ length ds % 256 ∷ s ∷ ds) (Term.int64 v)
  unfolding term dispatch tag_of byte_ big_int
  big_int_Reads v s ds l h i more p =
      rw (mod-eq_of_lt l, bytes_-append ds more (p + 1 + 1 + 1), h)
        (rw i (lands (p + 1 + 1 + 1 + length ds) (p + suc (suc (suc (length ds)))) (omega arith)))

  enc_big-Reads :
      (v : ℤ) (bs : Bytes)
      → big_of (sign_of v) (digits 8 (abs_of v)) ≡ v
      → is_int64 v ≡ true
      → enc_big (sign_of v) (digits 8 (abs_of v)) ≡ ok bs
      → Reads inflate (suc f) bs (Term.int64 v)
  unfolding enc_big
  enc_big-Reads v bs h i e =
      let short = length-digits_le 8 (abs_of v) in
      subst (λ b. Reads inflate (suc f) b (Term.int64 v))
        (ok-injective (rw (le→not_ltb 255 (length (digits 8 (abs_of v))) (omega arith)) at e))
        (big_int_Reads v (sign_of v) (digits 8 (abs_of v)) (omega arith) h i)

  pub enc_int64-Reads :
      (v : ℤ) (bs : Bytes)
      → IsInt64 v
      → enc_int64 v ≡ ok bs
      → Reads inflate (suc f) bs (Term.int64 v)
  unfolding enc_int64
  enc_int64-Reads (pos n) bs h e = elim (Bool-cases (leb n 255)) [
    | inl small ↦
        subst (λ b. Reads inflate (suc f) b (Term.int64 (pos n))) (ok-injective (rw small at e))
          (byte_Reads n (omega (arith, leb→le n 255 small)))
    | inr large ↦ elim (Bool-cases (leb n 2147483647)) [
      | inl fits ↦
          subst (λ b. Reads inflate (suc f) b (Term.int64 (pos n)))
            (ok-injective (rw (large, fits) at e))
            (int32_Reads (pos n)
              (of_uint32-to_uint32_pos n (omega (arith, leb→le n 2147483647 fits))))
      | inr wide ↦
          enc_big-Reads (pos n) bs (big_of-digits_pos n h) (lt→ltb n (2 ^ 63) h)
            (rw (large, wide) at e)
    ]
  ]
  enc_int64-Reads (negsuc n) bs h e = elim (Bool-cases (leb n 2147483647)) [
    | inl fits ↦
        subst (λ b. Reads inflate (suc f) b (Term.int64 (negsuc n))) (ok-injective (rw fits at e))
          (int32_Reads (negsuc n)
            (of_uint32-to_uint32_negsuc n (omega (arith, leb→le n 2147483647 fits))))
    | inr wide ↦
        enc_big-Reads (negsuc n) bs (big_of-digits_negsuc n h) (lt→ltb n (2 ^ 63) h) (rw wide at e)
  ]

  pub float_Reads :
      (bits : ℕ)
      → bits < 2 ^ 64
      → Reads inflate (suc f) (tag_new_float ∷ put_uint64 bits) (Term.float64 bits)
  unfolding term dispatch tag_of byte_ new_float put_uint64
  float_Reads bits h more p =
      rw (bytes_-append (unfold put_uint64 in put_uint64 bits) more (p + 1)) (
        rw (big_endian-put_uint64 bits h, mod-eq_of_lt h) (lands (p + 1 + 8) (p + 9) (omega arith)))

  short_atom_Reads :
      (a : Atom)
      → length a ≤ 255
      → Reads inflate (suc f) (tag_small_atom_utf8 ∷ length a % 256 ∷ a) (Term.atom a)
  unfolding term dispatch tag_of byte_ atom_utf8 atom_length
  short_atom_Reads a h more p =
      rw (mod_small (length a) 256 (omega arith), bytes_-append a more (p + 1 + 1))
        (lands (p + 1 + 1 + length a) (p + suc (suc (length a))) (omega arith))

  long_atom_Reads :
      (a : Atom)
      → length a ≤ 65535
      → Reads inflate (suc f) (tag_atom_utf8 ∷ put_uint16 (length a % 2 ^ 16) ++ a) (Term.atom a)
  unfolding term dispatch tag_of byte_ atom_utf8 atom_length
  long_atom_Reads a h more p =
      rw
        (
          mod_small (length a) (2 ^ 16) (omega arith),
          append_assoc (put_uint16 (length a)) a more,
          uint16-put_uint16 (length a) (a ++ more) (p + 1) (omega arith),
          bytes_-append a more (p + 1 + 2),
        )
        (lands (p + 1 + 2 + length a) (p + suc (length (put_uint16 (length a) ++ a)))
          (unfold put_uint16 in omega arith))

  pub enc_atom-Reads : (a bs : Bytes) → enc_atom a ≡ ok bs → Reads inflate (suc f) bs (Term.atom a)
  unfolding enc_atom
  enc_atom-Reads a bs e = elim (Bool-cases (ltb 65535 (length a))) [
    | inl long ↦ cc (rw long at e)
    | inr ok_length ↦ elim (Bool-cases (leb (length a) 255)) [
      | inl short ↦
          subst (λ b. Reads inflate (suc f) b (Term.atom a))
            (ok-injective (rw (ok_length, short) at e))
            (short_atom_Reads a (leb→le (length a) 255 short))
      | inr other ↦
          subst (λ b. Reads inflate (suc f) b (Term.atom a))
            (ok-injective (rw (ok_length, other) at e))
            (long_atom_Reads a (not_ltb→le 65535 (length a) ok_length))
    ]
  ]

  pub enc_binary-Reads :
      (b bs : Bytes)
      → length b < 2 ^ 32
      → enc_binary b ≡ ok bs
      → Reads inflate (suc f) bs (Term.binary b)
  unfolding enc_binary term dispatch tag_of byte_ read_binary
  enc_binary-Reads b bs h e =
      subst (λ c. Reads inflate (suc f) c (Term.binary b)) (ok-injective e)
        λ more p.
          rw
            (
              mod_small (length b) (2 ^ 32) h,
              append_assoc (put_uint32 (length b)) b more,
              uint32-put_uint32 (length b) (b ++ more) (p + 1) h,
              bytes_-append b more (p + 1 + 4),
            )
            (lands (p + 1 + 4 + length b) (p + suc (length (put_uint32 (length b) ++ b)))
              (unfold put_uint32 in omega arith))
