-- ===== src/Etf/Encode.antt =====
-- The encoder of etf/etf.go. What a function writes into the buffer is its result.
use mochi_beam.Base.{
  ℕ, suc, ◌+◌, ◌^◌, ◌%◌, Bool, false, List, [], ◌∷◌, ◌++◌, ltb, leb, if◌then◌else◌, length,
}
use mochi_beam.Base.Int.{ℤ, pos, negsuc}
use mochi_beam.Etf.Term.{
  Bytes, Atom, Pid, ErlPort, Reference, Term, Terms, done, more, Result, ok, err, bind, map_err,
  atom_too_long, unsupported_type, int64_too_large, wrap_at, version_magic, tag_new_float,
  tag_small_integer, tag_integer, tag_small_tuple, tag_large_tuple, tag_nil, tag_list, tag_binary,
  tag_small_big, tag_atom_utf8, tag_small_atom_utf8, tag_new_pid, tag_new_port, tag_newer_reference,
}
use mochi_beam.Etf.Wire.{put_uint16, put_uint32, put_uint64, digits, to_uint32, sign_of, abs_of}
use Prim.Native.String.{String}

-- `v >= 0 && v <= 255`.
abbrev pub fits_byte : ℤ → Bool
fits_byte (pos n) = leb n 255
fits_byte (negsuc n) = false

-- `v >= -2147483648 && v <= 2147483647`.
abbrev pub fits_int32 : ℤ → Bool
fits_int32 (pos n) = leb n 2147483647
fits_int32 (negsuc n) = leb n 2147483647

abbrev pub low_byte : ℤ → ℕ
low_byte (pos n) = n % 256
low_byte (negsuc n) = 255

unfoldable pub enc_big : ℕ → Bytes → Result Bytes
enc_big sign ds =
    if ltb 255 (length ds)
    then err int64_too_large
    else ok (tag_small_big ∷ length ds % 256 ∷ sign ∷ ds)

unfoldable pub enc_int64 : ℤ → Result Bytes
unfolding enc_big
enc_int64 v =
    if fits_byte v
    then ok (tag_small_integer ∷ low_byte v ∷ [])
    else if fits_int32 v
    then ok (tag_integer ∷ put_uint32 (to_uint32 v))
    else enc_big (sign_of v) (digits 8 (abs_of v))

unfoldable pub enc_atom : Atom → Result Bytes
enc_atom b =
    if ltb 65535 (length b)
    then err (atom_too_long (length b))
    else if leb (length b) 255
    then ok (tag_small_atom_utf8 ∷ length b % 256 ∷ b)
    else ok (tag_atom_utf8 ∷ put_uint16 (length b % 2 ^ 16) ++ b)

unfoldable pub enc_binary : Bytes → Result Bytes
enc_binary b = ok (tag_binary ∷ put_uint32 (length b % 2 ^ 32) ++ b)

unfoldable pub enc_float : ℕ → Result Bytes
enc_float bits = ok (tag_new_float ∷ put_uint64 bits)

unfoldable pub enc_pid : Pid → Result Bytes
enc_pid p = bind (enc_atom p.node) (λ a.
    ok (tag_new_pid ∷ (a ++ (put_uint32 p.id ++ (put_uint32 p.serial ++ put_uint32 p.creation)))))

unfoldable pub enc_port : ErlPort → Result Bytes
enc_port p =
    bind (enc_atom p.node)
      (λ a. ok (tag_new_port ∷ (a ++ (put_uint32 p.id ++ put_uint32 p.creation))))

unfoldable pub enc_ids : List ℕ → Bytes
enc_ids [] = []
enc_ids (i ∷ is) = put_uint32 i ++ enc_ids is

unfoldable pub enc_reference : Reference → Result Bytes
unfolding enc_ids
enc_reference r = bind (enc_atom r.node) (λ a. ok (
    tag_newer_reference
    ∷ (put_uint16 (length r.ids % 2 ^ 16) ++ (a ++ (put_uint32 r.creation ++ enc_ids r.ids)))))

abbrev pub count : Terms → ℕ
count done = 0
count (more t ts) = suc (count ts)

abbrev pub true_atom : Atom
true_atom = b't' ∷ b'r' ∷ b'u' ∷ b'e' ∷ []

abbrev pub false_atom : Atom
false_atom = b'f' ∷ b'a' ∷ b'l' ∷ b's' ∷ b'e' ∷ []

unfoldable pub tuple_header : ℕ → Bytes
tuple_header n =
    if leb n 255 then tag_small_tuple ∷ n % 256 ∷ [] else tag_large_tuple ∷ put_uint32 (n % 2 ^ 32)

-- `encTerm`, and the loops of `encTuple` and `encList` over the elements from index `i` on.
unfoldable mutual
  pub enc_term : Term → Result Bytes
  enc_term Term.nil = ok (tag_nil ∷ [])
  enc_term (Term.bool b) = enc_atom (if b then true_atom else false_atom)
  enc_term (Term.int v) = enc_int64 v
  enc_term (Term.int64 v) = enc_int64 v
  enc_term (Term.big_int v) = err unsupported_type
  enc_term (Term.float64 bits) = enc_float bits
  enc_term (Term.atom a) = enc_atom a
  enc_term (Term.string b) = enc_binary b
  enc_term (Term.binary b) = enc_binary b
  enc_term (Term.tuple ts) =
      bind (enc_elems ts "etf: tuple" 0) (λ es. ok (tuple_header (count ts) ++ es))
  enc_term (Term.list done) = ok (tag_nil ∷ [])
  enc_term (Term.list (more t ts)) = bind (map_err (wrap_at "etf: list" 0) (enc_term t)) (λ e.
      bind (enc_elems ts "etf: list" 1) (λ es.
        ok (tag_list ∷ (put_uint32 (suc (count ts) % 2 ^ 32) ++ ((e ++ es) ++ (tag_nil ∷ []))))))
  enc_term (Term.pid p) = enc_pid p
  enc_term (Term.port p) = enc_port p
  enc_term (Term.reference r) = enc_reference r

  pub enc_elems : Terms → String → ℕ → Result Bytes
  enc_elems done what i = ok []
  enc_elems (more t ts) what i =
      bind (map_err (wrap_at what i) (enc_term t))
        (λ e. bind (enc_elems ts what (i + 1)) (λ es. ok (e ++ es)))

-- `Encode`.
unfoldable pub encode : Term → Result Bytes
encode v = bind (enc_term v) (λ b. ok (version_magic ∷ b))
