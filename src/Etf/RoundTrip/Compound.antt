-- ===== src/Etf/RoundTrip/Compound.antt =====
-- Identifiers, tuples and lists of etf/etf.go are read back once their parts are.
use mochi_beam.Base.{
  ℕ, suc, ◌+◌, ◌^◌, ◌%◌, ◌<◌, ◌≡◌, refl, List, [], ◌∷◌, ◌++◌, append_assoc, arith, leb, length,
  Bool-cases, inl, inr, leb→le, All,
}
use Prim.Native.String.{String}
use mochi_beam.Etf.Term.{
  Error, tag_new_pid, tag_new_port, tag_newer_reference, Result, Bytes, Pid, ErlPort, Reference,
  Term, Terms, done, more, ok, bind, map_err, tag_of, tag_list, tag_nil,
}
use mochi_beam.Etf.Wire.{put_uint16, put_uint32}
use mochi_beam.Etf.Decode.{
  Inflate, at, byte_, term, dispatch, elems, tuple_elems, read_list, with_tail, read_pid, read_port,
  new_reference, read_ids, creation,
}
use mochi_beam.Etf.Encode.{enc_atom, enc_ids, tuple_header, count}
use mochi_beam.Etf.RoundTrip.Fields.{sizes, uint16-put_uint16, uint32-put_uint32}
use mochi_beam.Etf.RoundTrip.Scalars.{Reads, term_step, lands, mod_small, enc_atom-Reads}
use mochi_beam.Etf.RoundTrip.Shape.{IsUint32, IsSized, normal, normal_elems}

pub bind-ok {ℓ κ} :
    {A : Type ℓ} {B : Type κ} (m : Result A) (g : A → Result B) {b : B}
    → bind m g ≡ ok b
    → (a : A) × (m ≡ ok a) × (g a ≡ ok b)
bind-ok (ok a) g h = (a, refl, h)
bind-ok (Result.err e) g h = cc
bind-ok Result.out_of_fuel g h = cc

pub map_err-ok {ℓ} :
    {A : Type ℓ} (g : Error → Error) (m : Result A) {a : A} → map_err g m ≡ ok a → m ≡ ok a
map_err-ok g (ok a) h = h
map_err-ok g (Result.err e) h = cc
map_err-ok g Result.out_of_fuel h = cc

pub read_ids-enc_ids :
    (is : List ℕ) (i : ℕ) (rest : Bytes) (p : ℕ)
    → All IsUint32 is
    → read_ids (length is) i (at (enc_ids is ++ rest) p)
      ≡ ok (is, at rest (p + length (enc_ids is)))
unfolding read_ids enc_ids
read_ids-enc_ids [] i rest p h = lands p (p + 0) (omega arith)
read_ids-enc_ids (x ∷ is) i rest p h =
    rw
      (
        append_assoc (put_uint32 x) (enc_ids is) rest,
        uint32-put_uint32 x (enc_ids is ++ rest) p h.0,
        read_ids-enc_ids is (i + 1) rest (p + 4) h.1,
      )
      (lands (p + 4 + length (enc_ids is)) (p + length (put_uint32 x ++ enc_ids is))
        (unfold put_uint32 in omega arith))

module _ (inflate : Inflate) (f : ℕ) where
  pub pid_Reads :
      (q : Pid) (a : Bytes)
      → IsSized (Term.pid q)
      → enc_atom q.node ≡ ok a
      → Reads inflate
          (suc (suc f))
          (tag_new_pid ∷ (a ++ (put_uint32 q.id ++ (put_uint32 q.serial ++ put_uint32 q.creation))))
          (Term.pid q)
  unfolding dispatch tag_of read_pid creation
  pid_Reads q a h e rest p = rw (term_step inflate (suc f)) (
      simp append_assoc (
        rw
          (
            enc_atom-Reads inflate f q.node a e,
            uint32-put_uint32 q.id,
            h.0,
            uint32-put_uint32 q.serial,
            h.1,
            uint32-put_uint32 q.creation,
            h.2,
          )
          (lands (p + 1 + length a + 4 + 4 + 4) _ (omega sizes))))

  pub port_Reads :
      (q : ErlPort) (a : Bytes)
      → IsSized (Term.port q)
      → enc_atom q.node ≡ ok a
      → Reads inflate
          (suc (suc f))
          (tag_new_port ∷ (a ++ (put_uint32 q.id ++ put_uint32 q.creation)))
          (Term.port q)
  unfolding dispatch tag_of read_port creation
  port_Reads q a h e rest p = rw (term_step inflate (suc f)) (
      simp append_assoc (
        rw
          (
            enc_atom-Reads inflate f q.node a e,
            uint32-put_uint32 q.id,
            h.0,
            uint32-put_uint32 q.creation,
            h.1,
          )
          (lands (p + 1 + length a + 4 + 4) _ (omega sizes))))

  pub reference_Reads :
      (q : Reference) (a : Bytes)
      → IsSized (Term.reference q)
      → enc_atom q.node ≡ ok a
      → Reads inflate
          (suc (suc f))
          (tag_newer_reference
            ∷ (put_uint16 (length q.ids % 2 ^ 16)
                ++ (a ++ (put_uint32 q.creation ++ enc_ids q.ids))))
          (Term.reference q)
  unfolding dispatch tag_of new_reference creation
  reference_Reads q a h e rest p =
      rw (term_step inflate (suc f), mod_small (length q.ids) (2 ^ 16) h.1)
        (simp append_assoc (
          rw
            (
              uint16-put_uint16 (length q.ids),
              h.1,
              enc_atom-Reads inflate f q.node a e,
              uint32-put_uint32 q.creation,
              h.0,
              read_ids-enc_ids q.ids,
              h.2,
            )
            (lands (p + 1 + 2 + length a + 4 + length (enc_ids q.ids)) _
              (unfold put_uint16 put_uint32 in omega sizes))))

-- The loop over elements reads back a slice, however it is numbered in errors.
abbrev pub ReadsElems : Inflate → ℕ → Bytes → Terms → Type 0
ReadsElems inflate f bs vs =
    (what : String) (i : ℕ) (more : Bytes) (p : ℕ)
    → elems (term inflate f) what (count vs) i (at (bs ++ more) p)
      ≡ ok (normal_elems vs, at more (p + length bs))

module _ (inflate : Inflate) where
  pub tuple_Reads :
      (f : ℕ) (ts : Terms) (es : Bytes)
      → count ts < 2 ^ 32
      → ReadsElems inflate f es ts
      → Reads inflate (suc f) (tuple_header (count ts) ++ es) (Term.tuple (normal_elems ts))
  unfolding dispatch tag_of tuple_elems tuple_header byte_
  tuple_Reads f ts es h r rest p = elim (Bool-cases (leb (count ts) 255)) [
    | inl small ↦
        rw
          (
            small,
            term_step inflate f,
            mod_small (count ts) 256 (omega (arith, leb→le (count ts) 255 small)),
            r "etf: tuple" 0 rest (p + 1 + 1),
          )
          (lands (p + 1 + 1 + length es) _ (omega arith))
    | inr large ↦
        rw (large, term_step inflate f, mod_small (count ts) (2 ^ 32) h)
          (simp append_assoc (
            rw (uint32-put_uint32 (count ts), h, r "etf: tuple" 0 rest (p + 1 + 4))
              (lands (p + 1 + 4 + length es) _ (unfold put_uint32 in omega sizes))))
  ]

  pub list_Reads :
      (f : ℕ) (t : Term) (ts : Terms) (es : Bytes)
      → count (more t ts) < 2 ^ 32
      → ReadsElems inflate (suc f) es (more t ts)
      → Reads inflate
          (suc (suc f))
          (tag_list ∷ (put_uint32 (count (more t ts) % 2 ^ 32) ++ (es ++ (tag_nil ∷ []))))
          (Term.list (normal_elems (more t ts)))
  unfolding dispatch tag_of read_list byte_ with_tail
  list_Reads f t ts es h r rest p =
      rw (term_step inflate (suc f), mod_small (count (more t ts)) (2 ^ 32) h)
        (simp append_assoc (
          rw
            (
              uint32-put_uint32 (count (more t ts)),
              h,
              r "etf: list" 0 (tag_nil ∷ rest) (p + 1 + 4),
              term_step inflate f,
            )
            (lands (p + 1 + 4 + length es + 1) _ (unfold put_uint32 in omega sizes))))

  pub nil_Reads : (f : ℕ) → Reads inflate (suc f) (tag_nil ∷ []) (Term.list done)
  unfolding dispatch tag_of
  nil_Reads f rest p = rw (term_step inflate f)

  pub more_Reads :
      (f : ℕ) (t : Term) (ts : Terms) (e es : Bytes)
      → Reads inflate f e (normal t)
      → ReadsElems inflate f es ts
      → ReadsElems inflate f (e ++ es) (more t ts)
  unfolding elems normal_elems
  more_Reads f t ts e es r rs what i rest p =
      rw (append_assoc e es rest, r (es ++ rest) p, rs what (i + 1) rest (p + length e))
        (lands (p + length e + length es) _ (omega sizes))
