-- ===== src/Typemap/Names.antt =====
-- typemap/typemap.go: the atoms of a type term, and the names of the built-in types.
use mochi_beam.Base.{ℕ, zero, suc, ◌||◌, [], ◌++◌, if◌then◌else◌}
use mochi_beam.Text.Chars.{Text, codes, text_eq}
use mochi_beam.Etf.Term.{Term, Terms, done, more, tuple, list, atom}
use mochi_beam.Etf.Term as Term
use mochi_beam.Typemap.Reasons.{
  SkipReason, skip_any_term, skip_bitstring, skip_charlist, skip_iodata,
}
use mochi_beam.Typemap.Types.{mochi_unit, mochi_string, TranslateResult, scalar, list_t}

-- The term at an index, which is below the length where the code reads it.
unfoldable pub term_at : Terms → ℕ → Term.Term
term_at done i = Term.nil
term_at (more t ts) zero = t
term_at (more t ts) (suc i) = term_at ts i

-- `t.(etf.Atom)` and `t.(etf.List)` with a zero value for a term of another type.
abbrev pub atom_or_empty : Term.Term → Text
atom_or_empty (atom a) = a
atom_or_empty _ = []

abbrev pub list_or_empty : Term.Term → Terms
list_or_empty (list ts) = ts
list_or_empty _ = done

-- The names of the built-in types, by what is done with them.
pub data Builtin : Type 0 where
  simple : TranslateResult → Builtin
  left_out : SkipReason → Text → Builtin
  tuple_type map_type fun_type union_type : Builtin
  list_type : Text → Builtin

unfoldable pub builtin_of : Text → Builtin
builtin_of n =
    if text_eq n (codes "boolean")
    then simple (scalar (codes "bool"))
    else if text_eq n (codes "integer")
        || text_eq n (codes "non_neg_integer")
        || text_eq n (codes "pos_integer")
        || text_eq n (codes "neg_integer")
    then simple (scalar (codes "int"))
    else if text_eq n (codes "float")
    then simple (scalar (codes "float"))
    else if text_eq n (codes "atom")
    then simple (scalar mochi_string)
    else if text_eq n (codes "binary")
    then simple (scalar (codes "bytes"))
    else if text_eq n (codes "pid")
    then simple (scalar (codes "extern \"erlang.Pid\""))
    else if text_eq n (codes "port")
    then simple (scalar (codes "extern \"erlang.Port\""))
    else if text_eq n (codes "reference")
    then simple (scalar (codes "extern \"erlang.Reference\""))
    else if text_eq n (codes "any") || text_eq n (codes "term")
    then left_out skip_any_term (n ++ codes "()")
    else if text_eq n (codes "iodata") || text_eq n (codes "iolist")
    then left_out skip_iodata (n ++ codes "()")
    else if text_eq n (codes "bitstring")
    then left_out skip_bitstring (codes "bitstring()")
    else if text_eq n (codes "string")
    then left_out skip_charlist (codes "string() is charlist in Erlang")
    else if text_eq n (codes "tuple")
    then tuple_type
    else if text_eq n (codes "map")
    then map_type
    else if text_eq n (codes "fun")
    then fun_type
    else if text_eq n (codes "list")
    then list_type (codes "list() (untyped)")
    else if text_eq n (codes "nil")
    then simple (list_t mochi_unit)
    else if text_eq n (codes "union")
    then union_type
    else if text_eq n (codes "ok")
    then simple (scalar mochi_unit)
    else if text_eq n (codes "nonempty_list")
    then list_type (codes "nonempty_list() (untyped)")
    else if text_eq n (codes "maybe_improper_list")
        || text_eq n (codes "nonempty_improper_list")
        || text_eq n (codes "nonempty_maybe_improper_list")
    then left_out skip_iodata (n ++ codes "()")
    else left_out skip_any_term (codes "unknown built-in type: " ++ n)

-- An atom in the position of a type.
unfoldable pub translate_atom : Text → TranslateResult
translate_atom a =
    if text_eq a (codes "true") || text_eq a (codes "false")
    then scalar (codes "bool")
    else if text_eq a (codes "ok") || text_eq a (codes "undefined")
    then scalar mochi_unit
    else scalar mochi_string
