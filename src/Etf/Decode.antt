-- ===== src/Etf/Decode.antt =====
-- The decoder of etf/etf.go. A method takes the cursor and returns its value with the new cursor.
use Prim.Native.String.{String}
use mochi_beam.Base.{
  ℕ, zero, suc, ◌+◌, ◌-◌, ◌/◌, ◌%◌, ◌^◌, Bool, true, false, Option, none, some, List, [], ◌∷◌, ◌++◌,
  ltb, ◌==◌, if◌then◌else◌, length,
}
use mochi_beam.Base.Int.{pos}
use mochi_beam.Etf.Term
use mochi_beam.Etf.Term.{
  Bytes, Atom, Pid, ErlPort, Reference, Term, Terms, Tag, tag_of, version_magic, Error, Result, ok,
  err, out_of_fuel, map_err, too_short, bad_magic, unexpected_eof, unsupported_tag, zlib_failed,
  not_atom, wrap, wrap_at, done, more,
}
use mochi_beam.Etf.Wire.{big_endian, of_uint32, big_of, is_int64}
pub use mochi_beam.Etf.Cursor.{Decoder}
unfoldable pub use mochi_beam.Etf.Cursor.{
  at, Read, pure, fail, ◌>>=◌, ◌>>◌, context, byte_, bytes_, uint16, uint32,
}

unfoldable pub new_float : Read Term
new_float = do
  b ← context (wrap "etf: new_float") (bytes_ 8)
  pure (Term.float64 (big_endian 0 b % 2 ^ 64))

-- The `length` that `atomLatin1` and `atomUTF8` begin with.
unfoldable pub atom_length : Bool → Read ℕ
atom_length small = if small then byte_ else uint16

-- `string(runes)` for the code points 0 to 255: their UTF-8.
unfoldable pub utf8_of_latin1 : Bytes → Bytes
utf8_of_latin1 [] = []
utf8_of_latin1 (c ∷ cs) =
    (if ltb c 128 then c ∷ [] else (192 + c / 64) ∷ (128 + c % 64) ∷ []) ++ utf8_of_latin1 cs

unfoldable pub atom_latin1 : Bool → Read Term
atom_latin1 small = do
  n ← atom_length small
  b ← context (wrap "etf: atom_latin1") (bytes_ n)
  pure (Term.atom (utf8_of_latin1 b))

unfoldable pub atom_utf8 : Bool → Read Term
atom_utf8 small = do
  n ← atom_length small
  b ← context (wrap "etf: atom_utf8") (bytes_ n)
  pure (Term.atom b)

-- A list of `int64`, one for each byte.
unfoldable pub char_list : Bytes → Terms
char_list [] = done
char_list (c ∷ cs) = more (Term.int64 (pos c)) (char_list cs)

unfoldable pub string_ext : Read Term
string_ext = do
  n ← uint16
  b ← context (wrap "etf: string_ext") (bytes_ n)
  pure (Term.list (char_list b))

unfoldable pub read_binary : Read Term
read_binary = do n ← uint32; b ← context (wrap "etf: binary") (bytes_ n); pure (Term.binary b)

unfoldable pub big_int : ℕ → Read Term
big_int n = do
  sign ← byte_
  ds ← context (wrap "etf: big_ext: digits") (bytes_ n)
  let z = big_of sign ds
  pure (if is_int64 z then Term.int64 z else Term.big_int z)

-- `node.(Atom)`.
abbrev pub as_atom : Term → Option Atom
as_atom (Term.atom a) = some a
as_atom _ = none

abbrev pub expect_atom : Error → Term → Read Atom
expect_atom e v = elim (as_atom v) [ some a ↦ pure a | none ↦ fail e ]

-- `creation`, a uint32 in the new formats and a byte in the old ones.
unfoldable pub creation : Bool → Read ℕ
creation new = if new then uint32 else byte_

infixr 67 ◌+++◌
abbrev pub ◌+++◌ : Terms → Terms → Terms
done +++ us = us
more t ts +++ us = more t (ts +++ us)

-- What `list` makes of the elements and the tail term.
unfoldable pub with_tail : Terms → Term → Terms
with_tail es (Term.list done) = es
with_tail es (Term.list (more t ts)) = es +++ more t ts
with_tail es t = es +++ more t done

-- The methods that call `term`, over that call `t`.
module _ (t : Read Term) where
  -- `for i := 0; i < n; i++`, with `i` counting up from the second argument.
  unfoldable pub elems : String → ℕ → ℕ → Read Terms
  elems what zero i = pure done
  elems what (suc n) i = do
    v ← context (wrap_at what i) t
    vs ← elems what n (i + 1)
    pure (more v vs)

  unfoldable pub tuple_elems : ℕ → Read Term
  tuple_elems n = do vs ← elems "etf: tuple" n 0; pure (Term.tuple vs)

  unfoldable pub read_list : Read Term
  read_list = do
    n ← uint32
    es ← elems "etf: list" n 0
    tail ← context (wrap "etf: list tail") t
    pure (Term.list (with_tail es tail))

  unfoldable pub read_pid : Bool → Read Term
  read_pid new = do
    v ← context (wrap "etf: pid node") t
    na ← expect_atom (not_atom "etf: pid node not atom") v
    i ← uint32
    s ← uint32
    c ← context (wrap "etf: pid creation") (creation new)
    pure (Term.pid (record { node = na; id = i; serial = s; creation = c }))

  unfoldable pub read_port : Bool → Read Term
  read_port new = do
    v ← context (wrap "etf: port node") t
    na ← expect_atom (not_atom "etf: port node not atom") v
    i ← uint32
    c ← context (wrap "etf: port creation") (creation new)
    pure (Term.port (record { node = na; id = i; creation = c }))

  unfoldable pub reference_old : Read Term
  reference_old = do
    v ← t
    na ← expect_atom (not_atom "etf: reference node not atom") v
    i ← uint32
    c ← byte_
    pure (Term.reference (record { node = na; creation = c; ids = i ∷ [] }))

unfoldable pub read_ids : ℕ → ℕ → Read (List ℕ)
read_ids zero i = pure []
read_ids (suc n) i = do
  x ← context (wrap_at "etf: reference id" i) uint32
  xs ← read_ids n (i + 1)
  pure (x ∷ xs)

module _ (t : Read Term) where
  unfoldable pub new_reference : Bool → Read Term
  new_reference newer = do
    n ← uint16
    v ← t
    na ← expect_atom (not_atom "etf: reference node not atom") v
    c ← context (wrap "etf: reference creation") (creation newer)
    xs ← read_ids n 0
    pure (Term.reference (record { node = na; creation = c; ids = xs }))

-- `zlib.NewReader` over these bytes and `io.ReadFull` of so many bytes from it: `none` for an error.
abbrev pub Inflate : Type 0
Inflate = Bytes → ℕ → Option Bytes

module _ (inflate : Inflate) (t : Read Term) where
  -- The inner decoder starts afresh on the plain bytes, and what it leaves is dropped.
  unfoldable pub decompress : Read Term
  decompress = do
    n ← context (wrap "etf: compressed: uncompressed length") uint32
    λ d. elim (inflate d.rest n) [
      | none ↦ err zlib_failed
      | some plain ↦ Term.bind (t (at plain 0)) (λ r. ok (r.0, at [] (d.offset + length d.rest)))
    ]

  unfoldable pub dispatch : Tag → ℕ → Read Term
  dispatch Tag.compressed b = decompress
  dispatch Tag.new_float b = new_float
  dispatch Tag.small_integer b = do v ← byte_; pure (Term.int64 (pos v))
  dispatch Tag.integer b = do v ← bytes_ 4; pure (Term.int64 (of_uint32 (big_endian 0 v % 2 ^ 32)))
  dispatch Tag.atom_ext b = atom_latin1 false
  dispatch Tag.small_atom b = atom_latin1 true
  dispatch Tag.atom_utf8 b = atom_utf8 false
  dispatch Tag.small_atom_utf8 b = atom_utf8 true
  dispatch Tag.small_tuple b = do ar ← byte_; tuple_elems t ar
  dispatch Tag.large_tuple b = do ar ← uint32; tuple_elems t ar
  dispatch Tag.nil_ext b = pure (Term.list done)
  dispatch Tag.string_ext b = string_ext
  dispatch Tag.list_ext b = read_list t
  dispatch Tag.binary_ext b = read_binary
  dispatch Tag.small_big b = do n ← byte_; big_int n
  dispatch Tag.large_big b = do n ← uint32; big_int n
  dispatch Tag.pid_ext b = read_pid t false
  dispatch Tag.new_pid b = read_pid t true
  dispatch Tag.port_ext b = read_port t false
  dispatch Tag.new_port b = read_port t true
  dispatch Tag.reference_ext b = reference_old t
  dispatch Tag.new_reference b = new_reference t false
  dispatch Tag.newer_reference b = new_reference t true
  dispatch Tag.unsupported b = λ d. err (unsupported_tag b (d.offset - 1))

-- `decoder.term`. A nested term costs one unit of fuel.
unfoldable pub term : Inflate → ℕ → Read Term
term inflate zero d = out_of_fuel
term inflate (suc fuel) d =
    Term.bind (map_err (wrap "etf: read tag") (byte_ d))
      (λ r. dispatch inflate (term inflate fuel) (tag_of r.0) r.0 r.1)

decode_from : Inflate → ℕ → Bytes → Result Term
decode_from inflate fuel [] = err (too_short 0)
decode_from inflate fuel (b ∷ bs) =
    if length bs == 0
    then err (too_short 1)
    else if b == version_magic
    then Term.bind (term inflate fuel (at bs 1)) (λ r. ok r.0)
    else err (bad_magic b)

-- `Decode`.
unfoldable pub decode : Inflate → ℕ → Bytes → Result Term
unfolding decode_from
decode inflate fuel bs = decode_from inflate fuel bs
