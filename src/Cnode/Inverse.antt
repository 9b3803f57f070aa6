-- ===== src/Cnode/Inverse.antt =====
-- cnode/cnode.go: what a call that returned a result has read and written.
use mochi_beam.Base.{
  ℕ, zero, suc, ◌%◌, ◌^◌, ◌≡◌, refl, ap, sym, ◌∙◌, [], ◌++◌, append_assoc, arith, ltb, inl, inr,
  length, take, drop, length-take, take-append-drop, not_ltb→le, Bool-cases,
}
use mochi_beam.Etf.Term.{Bytes}
use mochi_beam.Etf.Wire.{big_endian, put_uint16}
use mochi_beam.Cnode.Conn.{
  Error, Outcome, ok, err, panic, Conn, Run, and_then, write_within, write, write_frame,
  frame_header, frame_body, read_full, read_frame,
}
use mochi_beam.Cnode.Frames.{conn, frame}

-- A chain that returns a result has returned one at each step.
pub and_then-inverse {ℓ κ} :
    {A : Type ℓ} {B : Type κ} (r : Outcome A × Conn) (f : A → Run B) (b : B) (c' : Conn)
    → and_then r f ≡ (ok b, c')
    → (a : A) × (c1 : Conn) × (r ≡ (ok a, c1)) × (f a c1 ≡ (ok b, c'))
and_then-inverse (ok a, c) f b c' h = (a, c, refl, h)
and_then-inverse (err e, c) f b c' h = cc
and_then-inverse (panic, c) f b c' h = cc

write_within-inverse :
    (n : ℕ) (bs : Bytes) (c c' : Conn)
    → write_within n bs c ≡ (ok tt, c')
    → (c'.incoming ≡ c.incoming) × (c'.outgoing ≡ c.outgoing ++ bs)
unfolding write_within
write_within-inverse zero bs c c' h = cc
write_within-inverse (suc n) bs c c' h =
    (ap (λ r. r.1.incoming) (sym h), ap (λ r. r.1.outgoing) (sym h))

pub write-inverse :
    (bs : Bytes) (c c' : Conn)
    → write bs c ≡ (ok tt, c')
    → (c'.incoming ≡ c.incoming) × (c'.outgoing ≡ c.outgoing ++ bs)
unfolding write
write-inverse bs c c' h = write_within-inverse c.writes bs c c' h

pub write_frame-inverse :
    (body : Bytes) (c c' : Conn)
    → write_frame body c ≡ (ok tt, c')
    → (c'.incoming ≡ c.incoming) × (c'.outgoing ≡ c.outgoing ++ frame body)
unfolding write_frame
write_frame-inverse body c c' h =
    let (a, c1, h1, h2) =
      and_then-inverse (write (put_uint16 (length body % 2 ^ 16)) c) (λ u. write body) tt c' h in
    let w1 = write-inverse (put_uint16 (length body % 2 ^ 16)) c c1 h1 in
    let w2 = write-inverse body c1 c' h2 in
    (
      w2.0 ∙ w1.0,
      rw (w2.1, w1.1) (append_assoc c.outgoing (put_uint16 (length body % 2 ^ 16)) body),
    )

pub read_full-inverse :
    (n : ℕ) (e : Error) (bs : Bytes) (c c' : Conn)
    → read_full n e c ≡ (ok bs, c')
    → (length bs ≡ n) × (c.incoming ≡ bs ++ c'.incoming) × (c'.outgoing ≡ c.outgoing)
unfolding read_full
read_full-inverse n e bs c c' h = elim (Bool-cases (ltb (length c.incoming) n)) [
  | inl short ↦ let q : read_full n e c ≡ (err e, conn [] c.outgoing c.writes) = rw (short) in cc
  | inr fits ↦
      let q : read_full n e c
          ≡ (ok (take n c.incoming), conn (drop n c.incoming) c.outgoing c.writes) =
        rw (fits) in
      let t : take n c.incoming ≡ bs = cc in
      let d : conn (drop n c.incoming) c.outgoing c.writes ≡ c' = ap (λ r. r.1) (sym q ∙ h) in
      (
        rw (sym t) (omega (arith, length-take n c.incoming, not_ltb→le (length c.incoming) n fits)),
        rw (sym t, sym d) (sym (take-append-drop n c.incoming)),
        ap (λ k. k.outgoing) (sym d),
      )
]

-- A frame that was read: the two bytes of its length, and its body.
pub read_frame-inverse :
    (body : Bytes) (c c' : Conn)
    → read_frame c ≡ (ok body, c')
    → (hdr : Bytes) × (length hdr ≡ 2)
      × (length body ≡ big_endian 0 hdr)
      × (c.incoming ≡ hdr ++ (body ++ c'.incoming))
      × (c'.outgoing ≡ c.outgoing)
unfolding read_frame
read_frame-inverse body c c' h =
    let (hdr, c1, h1, h2) =
      and_then-inverse (read_full 2 frame_header c) (λ hdr. read_full (big_endian 0 hdr) frame_body)
        body c' h in
    let r1 = read_full-inverse 2 frame_header hdr c c1 h1 in
    let r2 = read_full-inverse (big_endian 0 hdr) frame_body body c1 c' h2 in
    (hdr, r1.0, r2.0, r1.1 ∙ ap (λ l. hdr ++ l) r2.1, r2.2 ∙ r1.2)
