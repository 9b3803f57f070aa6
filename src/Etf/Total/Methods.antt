-- ===== src/Etf/Total/Methods.antt =====
-- The methods of the decoder in etf/etf.go settle where `term` does.
use mochi_beam.Base.{ℕ, Bool, true, false}
use mochi_beam.Etf.Term.{Term, Tag}
use mochi_beam.Etf.Decode.{
  Decoder, Read, Inflate, dispatch, atom_latin1, atom_utf8, new_float, string_ext, read_binary,
  big_int, tuple_elems, read_list, read_pid, read_port, reference_old, new_reference, decompress,
}
use mochi_beam.Etf.Total.Settles.{
  raised, Runs, Runs-bind, Runs-pure, Runs-context, Runs-bytes_, Runs-byte_, Runs-uint16,
  Runs-uint32, Runs-creation, Runs-atom_length, Runs-expect_atom, Runs-read_ids, Runs-elems,
  IsClosed,
}

module _ (Q : Decoder → Type 0) (closed : IsClosed Q) where
  Runs-atom_latin1 : (small : Bool) → Runs Q (atom_latin1 small)
  unfolding atom_latin1
  Runs-atom_latin1 small =
      Runs-bind Q closed _ _ (Runs-atom_length Q closed small)
        λ n. Runs-bind Q closed _ _ (Runs-context Q _ _ (Runs-bytes_ Q n)) λ b. Runs-pure Q _

  Runs-atom_utf8 : (small : Bool) → Runs Q (atom_utf8 small)
  unfolding atom_utf8
  Runs-atom_utf8 small =
      Runs-bind Q closed _ _ (Runs-atom_length Q closed small)
        λ n. Runs-bind Q closed _ _ (Runs-context Q _ _ (Runs-bytes_ Q n)) λ b. Runs-pure Q _

  Runs-big_int : (n : ℕ) → Runs Q (big_int n)
  unfolding big_int
  Runs-big_int n =
      Runs-bind Q closed _ _ (Runs-byte_ Q)
        λ s. Runs-bind Q closed _ _ (Runs-context Q _ _ (Runs-bytes_ Q n)) λ b. Runs-pure Q _

  Runs-string_ext : Runs Q string_ext
  unfolding string_ext
  Runs-string_ext =
      Runs-bind Q closed _ _ (Runs-uint16 Q closed)
        λ n. Runs-bind Q closed _ _ (Runs-context Q _ _ (Runs-bytes_ Q n)) λ b. Runs-pure Q _

  Runs-read_binary : Runs Q read_binary
  unfolding read_binary
  Runs-read_binary =
      Runs-bind Q closed _ _ (Runs-uint32 Q closed)
        λ n. Runs-bind Q closed _ _ (Runs-context Q _ _ (Runs-bytes_ Q n)) λ b. Runs-pure Q _

  Runs-new_float : Runs Q new_float
  unfolding new_float
  Runs-new_float = Runs-bind Q closed _ _ (Runs-context Q _ _ (Runs-bytes_ Q 8)) λ b. Runs-pure Q _

  module _ (t : Read Term) (inner : Runs Q t) where
    Runs-tuple_elems : (n : ℕ) → Runs Q (tuple_elems t n)
    unfolding tuple_elems
    Runs-tuple_elems n =
        Runs-bind Q closed _ _ (Runs-elems Q closed t inner "etf: tuple" n 0) λ vs. Runs-pure Q _

    Runs-read_list : Runs Q (read_list t)
    unfolding read_list
    Runs-read_list = Runs-bind Q closed _ _ (Runs-uint32 Q closed) λ n.
        Runs-bind Q closed _ _ (Runs-elems Q closed t inner "etf: list" n 0)
          λ es. Runs-bind Q closed _ _ (Runs-context Q _ t inner) λ v. Runs-pure Q _

    Runs-read_pid : (new : Bool) → Runs Q (read_pid t new)
    unfolding read_pid
    Runs-read_pid new = Runs-bind Q closed _ _ (Runs-context Q _ t inner) λ v.
        Runs-bind Q closed _ _ (Runs-expect_atom Q closed _ v) λ a.
          Runs-bind Q closed _ _ (Runs-uint32 Q closed) λ i.
            Runs-bind Q closed _ _ (Runs-uint32 Q closed) λ s.
              Runs-bind Q closed _ _ (Runs-context Q _ _ (Runs-creation Q closed new))
                λ c. Runs-pure Q _

    Runs-read_port : (new : Bool) → Runs Q (read_port t new)
    unfolding read_port
    Runs-read_port new = Runs-bind Q closed _ _ (Runs-context Q _ t inner) λ v.
        Runs-bind Q closed _ _ (Runs-expect_atom Q closed _ v) λ a.
          Runs-bind Q closed _ _ (Runs-uint32 Q closed) λ i.
            Runs-bind Q closed _ _ (Runs-context Q _ _ (Runs-creation Q closed new))
              λ c. Runs-pure Q _

    Runs-reference_old : Runs Q (reference_old t)
    unfolding reference_old
    Runs-reference_old = Runs-bind Q closed _ _ inner λ v.
        Runs-bind Q closed _ _ (Runs-expect_atom Q closed _ v) λ a.
          Runs-bind Q closed _ _ (Runs-uint32 Q closed)
            λ i. Runs-bind Q closed _ _ (Runs-byte_ Q) λ c. Runs-pure Q _

    Runs-new_reference : (newer : Bool) → Runs Q (new_reference t newer)
    unfolding new_reference
    Runs-new_reference newer = Runs-bind Q closed _ _ (Runs-uint16 Q closed) λ n.
        Runs-bind Q closed _ _ inner λ v.
          Runs-bind Q closed _ _ (Runs-expect_atom Q closed _ v) λ a.
            Runs-bind Q closed _ _ (Runs-context Q _ _ (Runs-creation Q closed newer))
              λ c. Runs-bind Q closed _ _ (Runs-read_ids Q closed n 0) λ is. Runs-pure Q _

    pub Runs-dispatch :
        (inflate : Inflate)
        → Runs Q (decompress inflate t)
        → (tag : Tag) (b : ℕ) → Runs Q (dispatch inflate t tag b)
    unfolding dispatch
    Runs-dispatch inflate z Tag.compressed b = z
    Runs-dispatch inflate z Tag.new_float b = Runs-new_float
    Runs-dispatch inflate z Tag.small_integer b =
        Runs-bind Q closed _ _ (Runs-byte_ Q) λ v. Runs-pure Q _
    Runs-dispatch inflate z Tag.integer b =
        Runs-bind Q closed _ _ (Runs-bytes_ Q 4) λ v. Runs-pure Q _
    Runs-dispatch inflate z Tag.atom_ext b = Runs-atom_latin1 false
    Runs-dispatch inflate z Tag.small_atom b = Runs-atom_latin1 true
    Runs-dispatch inflate z Tag.atom_utf8 b = Runs-atom_utf8 false
    Runs-dispatch inflate z Tag.small_atom_utf8 b = Runs-atom_utf8 true
    Runs-dispatch inflate z Tag.small_tuple b =
        Runs-bind Q closed _ _ (Runs-byte_ Q) Runs-tuple_elems
    Runs-dispatch inflate z Tag.large_tuple b =
        Runs-bind Q closed _ _ (Runs-uint32 Q closed) Runs-tuple_elems
    Runs-dispatch inflate z Tag.nil_ext b = Runs-pure Q _
    Runs-dispatch inflate z Tag.string_ext b = Runs-string_ext
    Runs-dispatch inflate z Tag.list_ext b = Runs-read_list
    Runs-dispatch inflate z Tag.binary_ext b = Runs-read_binary
    Runs-dispatch inflate z Tag.small_big b = Runs-bind Q closed _ _ (Runs-byte_ Q) Runs-big_int
    Runs-dispatch inflate z Tag.large_big b =
        Runs-bind Q closed _ _ (Runs-uint32 Q closed) Runs-big_int
    Runs-dispatch inflate z Tag.pid_ext b = Runs-read_pid false
    Runs-dispatch inflate z Tag.new_pid b = Runs-read_pid true
    Runs-dispatch inflate z Tag.port_ext b = Runs-read_port false
    Runs-dispatch inflate z Tag.new_port b = Runs-read_port true
    Runs-dispatch inflate z Tag.reference_ext b = Runs-reference_old
    Runs-dispatch inflate z Tag.new_reference b = Runs-new_reference false
    Runs-dispatch inflate z Tag.newer_reference b = Runs-new_reference true
    Runs-dispatch inflate z Tag.unsupported b = λ d q. raised
