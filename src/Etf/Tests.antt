-- ===== src/Etf/Tests.antt =====
-- Runs of the codec of etf/etf.go, and its theorems at concrete inputs.
use mochi_beam.Base.{
  ℕ, ◌^◌, ◌≡◌, ◌≢◌, refl, false, none, some, [], ◌∷◌, ◌++◌, arith, length, ◌==◌, if◌then◌else◌,
  Bool-cases, inl, inr, subst, sym, ==→eq,
}
use mochi_beam.Base.Int.{pos, negsuc}
use mochi_beam.Text.Chars.{codes}
use mochi_beam.Etf.Term.{ok, out_of_fuel, Bytes, Reference, Term, done, more, tag_of}
use mochi_beam.Etf.Wire.{put_uint32, to_uint32, big_endian, of_uint32}
use mochi_beam.Etf.Decode.{
  Inflate, at, decode, term, dispatch, byte_, bytes_, uint32, atom_utf8, atom_length, tuple_elems,
  elems, read_binary, decompress,
}
use mochi_beam.Etf.Encode.{encode, enc_term, enc_atom, enc_int64, enc_binary, tuple_header}
use mochi_beam.Etf.RoundTrip.Shape.{normal, height}
use mochi_beam.Etf.RoundTrip.Terms.{decode-encode}
use mochi_beam.Etf.Total.Settles.{Settles, Advances}
use mochi_beam.Etf.Total.Fuel.{IsNested, term-Settles, decode-ne-out_of_fuel}
use mochi_beam.Etf.Encodable.{is_ok, encodable, is_ok-encode}

-- Nothing inflates.
abbrev no_zlib : Inflate
no_zlib payload n = none

-- {ok, -70000, "hi"} with the last part as a Go string.
abbrev sample : Term
sample = Term.tuple (
    more (Term.atom (codes "ok"))
      (more (Term.int (negsuc 69999)) (more (Term.string (codes "hi")) done)))

abbrev sample_bytes : Bytes
sample_bytes =
    131 ∷ 104 ∷ 3 ∷ 119 ∷ 2 ∷ b'o' ∷ b'k' ∷ 98 ∷ 255 ∷ 254 ∷ 238 ∷ 144 ∷ 109 ∷ 0 ∷ 0 ∷ 0 ∷ 2 ∷ b'h'
    ∷ b'i' ∷ []

sample_encoded : encode sample ≡ ok sample_bytes
unfolding encode enc_term enc_atom enc_int64 enc_binary tuple_header put_uint32 to_uint32
sample_encoded = refl

sample_decoded : decode no_zlib 2 sample_bytes ≡ ok (normal sample)
unfolding decode term dispatch tag_of byte_ bytes_ uint32 tuple_elems elems atom_utf8 atom_length
    read_binary big_endian of_uint32 normal
sample_decoded = refl

decode-encode_example : decode no_zlib 2 sample_bytes ≡ ok (normal sample)
decode-encode_example =
    decode-encode no_zlib sample 2 sample_bytes (unfold height in omega arith) (omega arith)
      sample_encoded

-- One payload inflates, to the encoding of the empty list.
abbrev toy_zlib : Inflate
toy_zlib [] n = none
toy_zlib (c ∷ []) n = if c == 9 then (if n == 1 then some (106 ∷ []) else none) else none
toy_zlib (c ∷ d ∷ cs) n = none

nil_not-IsNested : IsNested toy_zlib 0 (106 ∷ [])
nil_not-IsNested = go
  where
    go : (xs ys : Bytes) (n : ℕ) → 106 ∷ [] ≡ xs ++ ys → toy_zlib ys n ≡ none
    go xs [] n e = refl
    go xs (y ∷ z ∷ ys) n e = refl
    go [] (y ∷ []) n e = ground arith
    go (x ∷ []) (y ∷ []) n e = cc
    go (x ∷ w ∷ xs) (y ∷ []) n e = cc

toy-IsNested : (bs : Bytes) → IsNested toy_zlib 1 bs
toy-IsNested bs xs [] plain n e h = cc
toy-IsNested bs xs (c ∷ d ∷ cs) plain n e h = cc
toy-IsNested bs xs (c ∷ []) plain n e h = elim (Bool-cases (c == 9)) [
  | inl y ↦ elim (Bool-cases (n == 1)) [
    | inl one ↦
        let same : some (106 ∷ []) ≡ some plain = rw (y, one) at h in
        let plain_nil : 106 ∷ [] ≡ plain = cc in
        subst (λ p. (length p ≡ n) × IsNested toy_zlib 0 p) plain_nil
          (sym (==→eq n 1 one), nil_not-IsNested)
    | inr z ↦ cc (rw (y, z) at h)
  ]
  | inr z ↦ cc (rw z at h)
]

decode-ne-out_of_fuel_example :
    decode toy_zlib (2 ^ 33) (131 ∷ 80 ∷ 0 ∷ 0 ∷ 0 ∷ 1 ∷ 9 ∷ []) ≢ out_of_fuel
decode-ne-out_of_fuel_example =
    decode-ne-out_of_fuel toy_zlib (2 ^ 33) (131 ∷ 80 ∷ 0 ∷ 0 ∷ 0 ∷ 1 ∷ 9 ∷ []) 1
      (toy-IsNested (131 ∷ 80 ∷ 0 ∷ 0 ∷ 0 ∷ 1 ∷ 9 ∷ [])) (omega arith)

term-Settles_example :
    Settles
      (λ r. Advances (at (80 ∷ 0 ∷ 0 ∷ 0 ∷ 1 ∷ 9 ∷ []) 1) r.1)
      (term toy_zlib (2 ^ 33) (at (80 ∷ 0 ∷ 0 ∷ 0 ∷ 1 ∷ 9 ∷ []) 1))
term-Settles_example =
    term-Settles toy_zlib (2 ^ 33) (at (80 ∷ 0 ∷ 0 ∷ 0 ∷ 1 ∷ 9 ∷ []) 1) 1
      (toy-IsNested (80 ∷ 0 ∷ 0 ∷ 0 ∷ 1 ∷ 9 ∷ [])) (omega arith)

compressed_run : decode toy_zlib 3 (131 ∷ 80 ∷ 0 ∷ 0 ∷ 0 ∷ 1 ∷ 9 ∷ []) ≡ ok (Term.list done)
unfolding decode term dispatch tag_of byte_ bytes_ uint32 big_endian decompress
compressed_run = refl

is_ok-encode_example : is_ok (encode (Term.list (more (Term.big_int (pos (2 ^ 70))) done))) ≡ false
unfolding encodable
is_ok-encode_example = is_ok-encode (Term.list (more (Term.big_int (pos (2 ^ 70))) done))

abbrev some_ref : Reference
some_ref = record { node = codes "a@b"; creation = 7; ids = 1 ∷ 2 ∷ [] }

abbrev ref_bytes : Bytes
ref_bytes =
    131 ∷ 90 ∷ 0 ∷ 2 ∷ 119 ∷ 3 ∷ b'a' ∷ b'@' ∷ b'b' ∷ 0 ∷ 0 ∷ 0 ∷ 7 ∷ 0 ∷ 0 ∷ 0 ∷ 1 ∷ 0 ∷ 0 ∷ 0 ∷ 2
    ∷ []
