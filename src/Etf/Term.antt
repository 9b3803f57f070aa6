-- ===== src/Etf/Term.antt =====
-- The Go values that `Decode` returns and `Encode` accepts (`interface{}` in etf/etf.go), the
-- tag bytes, and the errors.
use Prim.Native.String.{String}
use mochi_beam.Base.{ℕ, Bool, List, ◌==◌, if◌then◌else◌}
use mochi_beam.Base.Int.{ℤ}

abbrev pub Bytes : Type 0
Bytes = List ℕ

-- An atom's text is its bytes, as in a Go string.
abbrev pub Atom : Type 0
Atom = Bytes

pub record Pid : Type 0 where
  pub node : Atom
  pub id : ℕ
  pub serial : ℕ
  pub creation : ℕ

pub record ErlPort : Type 0 where
  pub node : Atom
  pub id : ℕ
  pub creation : ℕ

pub record Reference : Type 0 where
  pub node : Atom
  pub creation : ℕ
  pub ids : List ℕ

-- `float64` holds the 64 bits of the number. `Terms` is the slice inside a tuple or a list.
mutual
  pub data Term : Type 0 where
    nil : Term
    bool : Bool → Term
    int : ℤ → Term
    int64 : ℤ → Term
    big_int : ℤ → Term
    float64 : ℕ → Term
    atom : Atom → Term
    string : Bytes → Term
    binary : Bytes → Term
    tuple : Terms → Term
    list : Terms → Term
    pid : Pid → Term
    port : ErlPort → Term
    reference : Reference → Term

  pub data Terms : Type 0 where
    done : Terms
    more : Term → Terms → Terms

-- The tag bytes that the decoder's switch knows, and the default case.
pub data Tag : Type 0 where
  compressed new_float small_integer integer atom_ext pid_ext small_tuple large_tuple : Tag
  nil_ext string_ext list_ext binary_ext small_big large_big reference_ext new_reference : Tag
  small_atom atom_utf8 small_atom_utf8 port_ext new_pid new_port newer_reference : Tag
  unsupported : Tag

abbrev pub version_magic : ℕ
version_magic = 131

abbrev pub tag_compressed : ℕ
tag_compressed = 80

abbrev pub tag_new_float : ℕ
tag_new_float = 70

abbrev pub tag_small_integer : ℕ
tag_small_integer = 97

abbrev pub tag_integer : ℕ
tag_integer = 98

abbrev pub tag_small_tuple : ℕ
tag_small_tuple = 104

abbrev pub tag_large_tuple : ℕ
tag_large_tuple = 105

abbrev pub tag_nil : ℕ
tag_nil = 106

abbrev pub tag_list : ℕ
tag_list = 108

abbrev pub tag_binary : ℕ
tag_binary = 109

abbrev pub tag_small_big : ℕ
tag_small_big = 110

abbrev pub tag_atom_utf8 : ℕ
tag_atom_utf8 = 118

abbrev pub tag_small_atom_utf8 : ℕ
tag_small_atom_utf8 = 119

abbrev pub tag_new_pid : ℕ
tag_new_pid = 88

abbrev pub tag_new_port : ℕ
tag_new_port = 89

abbrev pub tag_newer_reference : ℕ
tag_newer_reference = 90

-- The switch of `decoder.term`, from a byte to the case that it takes.
unfoldable pub tag_of : ℕ → Tag
tag_of b =
    if b == tag_compressed
    then compressed
    else if b == tag_new_float
    then new_float
    else if b == tag_small_integer
    then small_integer
    else if b == tag_integer
    then integer
    else if b == 100
    then atom_ext
    else if b == 115
    then small_atom
    else if b == tag_atom_utf8
    then atom_utf8
    else if b == tag_small_atom_utf8
    then small_atom_utf8
    else if b == tag_small_tuple
    then small_tuple
    else if b == tag_large_tuple
    then large_tuple
    else if b == tag_nil
    then nil_ext
    else if b == 107
    then string_ext
    else if b == tag_list
    then list_ext
    else if b == tag_binary
    then binary_ext
    else if b == tag_small_big
    then small_big
    else if b == 111
    then large_big
    else if b == 103
    then pid_ext
    else if b == tag_new_pid
    then new_pid
    else if b == 102
    then port_ext
    else if b == tag_new_port
    then new_port
    else if b == 101
    then reference_ext
    else if b == 114
    then new_reference
    else if b == tag_newer_reference
    then newer_reference
    else unsupported

-- `wrap` and `wrap_at` are `fmt.Errorf` with `%w`, the latter with an index.
pub data Error : Type 0 where
  too_short : ℕ → Error
  bad_magic : ℕ → Error
  unexpected_eof : Error
  unsupported_tag : ℕ → ℕ → Error
  zlib_failed : Error
  not_atom : String → Error
  atom_too_long : ℕ → Error
  unsupported_type : Error
  int64_too_large : Error
  wrap : String → Error → Error
  wrap_at : String → ℕ → Error → Error

-- What a call gives. `out_of_fuel` has no counterpart in the program.
pub data Result {ℓ} (A : Type ℓ) : Type ℓ where
  ok : A → Result A
  err : Error → Result A
  out_of_fuel : Result A

abbrev pub bind {ℓ κ} : {A : Type ℓ} {B : Type κ} → Result A → (A → Result B) → Result B
bind (ok a) f = f a
bind (err e) f = err e
bind out_of_fuel f = out_of_fuel

-- `if err != nil { return …, fmt.Errorf("…: %w", err) }`.
abbrev pub map_err {ℓ} : {A : Type ℓ} → (Error → Error) → Result A → Result A
map_err g (ok a) = ok a
map_err g (err e) = err (g e)
map_err g out_of_fuel = out_of_fuel
