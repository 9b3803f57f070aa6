-- ===== src/Etf/RoundTrip/Terms.antt =====
-- The round trip of etf/etf.go for whole terms.
use mochi_beam.Base.{
  ℕ, zero, suc, ◌+◌, ◌^◌, ◌%◌, ◌≤◌, ◌<◌, ◌≡◌, [], ◌∷◌, ◌++◌, append-nil, suc-==-zero, arith, length,
  subst,
}
use Prim.Native.String.{String}
use mochi_beam.Etf.Term.{
  version_magic, Bytes, Atom, Pid, ErlPort, Reference, Term, Terms, done, more, ok, bind, map_err,
  wrap_at, tag_list, tag_nil,
}
use mochi_beam.Etf.Wire.{put_uint32}
use mochi_beam.Etf.Decode.{Inflate, at, byte_, term, elems, decode}
use mochi_beam.Etf.Encode.{
  enc_float, enc_term, enc_atom, enc_elems, enc_pid, enc_port, enc_reference, tuple_header, count,
  encode,
}
use mochi_beam.Etf.RoundTrip.Scalars.{
  Reads, lands, ok-injective, enc_int64-Reads, enc_atom-Reads, enc_binary-Reads, float_Reads,
}
use mochi_beam.Etf.RoundTrip.Shape.{IsSized, AreSized, normal, normal_elems, height, heights}
use mochi_beam.Etf.RoundTrip.Compound.{
  bind-ok, map_err-ok, pid_Reads, port_Reads, reference_Reads, ReadsElems, tuple_Reads, list_Reads,
  nil_Reads, more_Reads,
}

-- The bytes that an encoding was found to be.
Reads-at :
    (inflate : Inflate) (f : ℕ) (v : Term) (c bs : Bytes)
    → ok c ≡ ok bs
    → Reads inflate f c v
    → Reads inflate f bs v
Reads-at inflate f v c bs e r = subst (λ b. Reads inflate f b v) (ok-injective e) r

-- A term that holds an atom, by the method that reads back what follows the atom.
Reads-node :
    (inflate : Inflate) (f : ℕ) (a : Atom) (v : Term) (g : Bytes → Bytes) (bs : Bytes)
    → bind (enc_atom a) (λ b. ok (g b)) ≡ ok bs
    → ((b : Bytes) → enc_atom a ≡ ok b → Reads inflate f (g b) v)
    → Reads inflate f bs v
Reads-node inflate f a v g bs e r =
    let (b, eb, ec) = bind-ok (enc_atom a) (λ b. ok (g b)) e in
    Reads-at inflate f v (g b) bs ec (r b eb)

height-le_head : (t : Term) (ts : Terms) → height t ≤ heights (more t ts)
unfolding heights
height-le_head t ts = omega arith

heights-le_tail : (t : Term) (ts : Terms) → heights ts ≤ heights (more t ts)
unfolding heights
heights-le_tail t ts = omega arith

enc_pid-Reads :
    (inflate : Inflate) (f : ℕ) (q : Pid) (bs : Bytes)
    → IsSized (Term.pid q)
    → enc_pid q ≡ ok bs
    → Reads inflate (suc (suc f)) bs (Term.pid q)
unfolding enc_pid
enc_pid-Reads inflate f q bs s e =
    Reads-node inflate (suc (suc f)) q.node (Term.pid q) _ bs e
      (λ a ea. pid_Reads inflate f q a s ea)

enc_port-Reads :
    (inflate : Inflate) (f : ℕ) (q : ErlPort) (bs : Bytes)
    → IsSized (Term.port q)
    → enc_port q ≡ ok bs
    → Reads inflate (suc (suc f)) bs (Term.port q)
unfolding enc_port
enc_port-Reads inflate f q bs s e =
    Reads-node inflate (suc (suc f)) q.node (Term.port q) _ bs e
      (λ a ea. port_Reads inflate f q a s ea)

enc_reference-Reads :
    (inflate : Inflate) (f : ℕ) (q : Reference) (bs : Bytes)
    → IsSized (Term.reference q)
    → enc_reference q ≡ ok bs
    → Reads inflate (suc (suc f)) bs (Term.reference q)
unfolding enc_reference
enc_reference-Reads inflate f q bs s e =
    Reads-node inflate (suc (suc f)) q.node (Term.reference q) _ bs e
      (λ a ea. reference_Reads inflate f q a s ea)

enc_float-Reads :
    (inflate : Inflate) (f bits : ℕ) (bs : Bytes)
    → bits < 2 ^ 64
    → enc_float bits ≡ ok bs
    → Reads inflate (suc f) bs (Term.float64 bits)
unfolding enc_float
enc_float-Reads inflate f bits bs h e =
    Reads-at inflate (suc f) _ _ bs e (float_Reads inflate f bits h)

done_Reads : (inflate : Inflate) (f : ℕ) (bs : Bytes) → ok [] ≡ ok bs → ReadsElems inflate f bs done
unfolding elems normal_elems
done_Reads inflate f bs e =
    subst (λ b. ReadsElems inflate f b done) (ok-injective e)
      (λ what i rest p. lands p (p + 0) (omega arith))

mutual
  unfolding enc_term normal height

  enc_term-Reads :
      (inflate : Inflate) (v : Term) (f : ℕ) (bs : Bytes)
      → height v < f
      → IsSized v
      → enc_term v ≡ ok bs
      → Reads inflate f bs (normal v)
  enc_term-Reads inflate v zero bs h s e = absurd (omega arith)
  enc_term-Reads inflate Term.nil (suc f) bs h s e =
      Reads-at inflate (suc f) _ _ bs e (nil_Reads inflate f)
  enc_term-Reads inflate (Term.bool b) (suc f) bs h s e = enc_atom-Reads inflate f _ bs e
  enc_term-Reads inflate (Term.int v) (suc f) bs h s e = enc_int64-Reads inflate f v bs s e
  enc_term-Reads inflate (Term.int64 v) (suc f) bs h s e = enc_int64-Reads inflate f v bs s e
  enc_term-Reads inflate (Term.big_int v) (suc f) bs h s e = cc
  enc_term-Reads inflate (Term.float64 bits) (suc f) bs h s e =
      enc_float-Reads inflate f bits bs s e
  enc_term-Reads inflate (Term.atom a) (suc f) bs h s e = enc_atom-Reads inflate f a bs e
  enc_term-Reads inflate (Term.string b) (suc f) bs h s e = enc_binary-Reads inflate f b bs s e
  enc_term-Reads inflate (Term.binary b) (suc f) bs h s e = enc_binary-Reads inflate f b bs s e
  enc_term-Reads inflate (Term.tuple ts) (suc f) bs h s e =
      let (es, ee, eb) =
        bind-ok (enc_elems ts "etf: tuple" 0) (λ es. ok (tuple_header (count ts) ++ es)) e in
      Reads-at inflate (suc f) _ _ bs eb (
        tuple_Reads inflate f ts es s.0
          (enc_elems-Reads inflate ts f "etf: tuple" 0 es (omega arith) s.1 ee))
  enc_term-Reads inflate (Term.list done) (suc f) bs h s e =
      Reads-at inflate (suc f) _ _ bs e (nil_Reads inflate f)
  enc_term-Reads inflate (Term.list (more t ts)) (suc zero) bs h s e = absurd (omega arith)
  enc_term-Reads inflate (Term.list (more t ts)) (suc (suc f)) bs h s e =
      let finish : Bytes → Bytes → Bytes = λ x es.
        tag_list ∷ (put_uint32 (suc (count ts) % 2 ^ 32) ++ ((x ++ es) ++ (tag_nil ∷ []))) in
      let (x, ex, er) =
        bind-ok (map_err (wrap_at "etf: list" 0) (enc_term t))
          (λ x. bind (enc_elems ts "etf: list" 1) (λ es. ok (finish x es))) e in
      let (es, ee, eb) = bind-ok (enc_elems ts "etf: list" 1) (λ es. ok (finish x es)) er in
      Reads-at inflate (suc (suc f)) _ _ bs eb (
        list_Reads inflate f t ts (x ++ es) s.0 (
          more_Reads inflate (suc f) t ts x es
            (enc_term-Reads inflate t (suc f) x (omega (arith, height-le_head t ts)) s.1.0
              (map_err-ok _ (enc_term t) ex))
            (enc_elems-Reads inflate ts (suc f) "etf: list" 1 es
              (omega (arith, heights-le_tail t ts)) s.1.1 ee)))
  enc_term-Reads inflate (Term.pid q) (suc zero) bs h s e = absurd (omega arith)
  enc_term-Reads inflate (Term.pid q) (suc (suc f)) bs h s e = enc_pid-Reads inflate f q bs s e
  enc_term-Reads inflate (Term.port q) (suc zero) bs h s e = absurd (omega arith)
  enc_term-Reads inflate (Term.port q) (suc (suc f)) bs h s e = enc_port-Reads inflate f q bs s e
  enc_term-Reads inflate (Term.reference q) (suc zero) bs h s e = absurd (omega arith)
  enc_term-Reads inflate (Term.reference q) (suc (suc f)) bs h s e =
      enc_reference-Reads inflate f q bs s e

  enc_elems-Reads :
      (inflate : Inflate) (ts : Terms) (f : ℕ) (what : String) (i : ℕ) (bs : Bytes)
      → heights ts < f
      → AreSized ts
      → enc_elems ts what i ≡ ok bs
      → ReadsElems inflate f bs ts
  enc_elems-Reads inflate done f what i bs h s e = done_Reads inflate f bs e
  enc_elems-Reads inflate (more t ts) f what i bs h s e =
      let (x, ex, er) =
        bind-ok (map_err (wrap_at what i) (enc_term t))
          (λ x. bind (enc_elems ts what (i + 1)) (λ es. ok (x ++ es))) e in
      let (es, ee, eb) = bind-ok (enc_elems ts what (i + 1)) (λ es. ok (x ++ es)) er in
      subst (λ b. ReadsElems inflate f b (more t ts)) (ok-injective eb)
        (more_Reads inflate f t ts x es
          (enc_term-Reads inflate t f x (omega (arith, height-le_head t ts)) s.0
            (map_err-ok _ (enc_term t) ex))
          (enc_elems-Reads inflate ts f what (i + 1) es (omega (arith, heights-le_tail t ts)) s.1
            ee))

-- A term read back from its encoding is the term up to `normal`, and nothing else of the input is
-- read.
pub term-enc_term :
    (inflate : Inflate) (v : Term) (f : ℕ) (bs rest : Bytes) (p : ℕ)
    → height v < f
    → IsSized v
    → enc_term v ≡ ok bs
    → term inflate f (at (bs ++ rest) p) ≡ ok (normal v, at rest (p + length bs))
term-enc_term inflate v f bs rest p h s e = enc_term-Reads inflate v f bs h s e rest p

decode-Reads :
    (inflate : Inflate) (f : ℕ) (v : Term) (b : Bytes)
    → Reads inflate f b v
    → decode inflate f (version_magic ∷ b) ≡ ok v
unfolding decode
decode-Reads inflate zero v [] r = unfold term in cc (r [] 1)
decode-Reads inflate (suc f) v [] r = unfold term byte_ in cc (r [] 1)
decode-Reads inflate f v (c ∷ cs) r = rw (rw append-nil at (r [] 1), suc-==-zero (length cs))

-- Decoding what `Encode` wrote gives the value back, up to the types that have no encoding of their
-- own, at every fuel above the nesting of the value, if the value keeps to the sizes of its fields:
-- every integer, float and ID is in the range of its Go type, every string, binary, tuple and list
-- has less than 2 ^ 32 elements, and every reference has less than 2 ^ 16 IDs.
pub decode-encode :
    (inflate : Inflate) (v : Term) (f : ℕ) (bs : Bytes)
    → height v < f
    → IsSized v
    → encode v ≡ ok bs
    → decode inflate f bs ≡ ok (normal v)
unfolding encode
decode-encode inflate v f bs h s e =
    let (b, eb, ec) = bind-ok (enc_term v) (λ b. ok (version_magic ∷ b)) e in
    subst (λ c. decode inflate f c ≡ ok (normal v)) (ok-injective ec)
      (decode-Reads inflate f (normal v) b (enc_term-Reads inflate v f b h s eb))
