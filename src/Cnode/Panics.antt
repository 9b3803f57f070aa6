-- ===== src/Cnode/Panics.antt =====
-- cnode/cnode.go: which messages make a handshake panic.
use mochi_beam.Base.{
  ℕ, suc, ◌+◌, ◌^◌, ◌<◌, All, ◌≡◌, ◌≢◌, ◌↔◌, refl, ap, ◌∙◌, subst, subst, Bool, true, false, [],
  ◌∷◌, ◌++◌, arith, ltb, inl, inr, length, take, drop, not_ltb→le, le→not_ltb, Bool-cases,
  if◌then◌else◌, ◌==◌,
}
use mochi_beam.Text.Chars.{text_eq}
use mochi_beam.Etf.Term.{Bytes}
use mochi_beam.Etf.Wire.{big_endian}
use mochi_beam.Cnode.Conn.{
  Error, Outcome, ok, err, panic, Conn, Run, and_then, frame_header, frame_body, read_full,
  read_frame, expected_status, expected_ack, fail, pure, digest_mismatch, unexpected_challenge,
  unexpected_challenge, name_truncated, new_challenge_short, old_challenge_short,
}
use mochi_beam.Cnode.Handshake.{
  index, slice, lacks_tag, status_of, check_ack, recv_status, new_challenge, old_challenge,
  challenge_of, recv_challenge, recv_challenge_ack,
}
use mochi_beam.Cnode.Frames.{conn}
use native.Mathlib.Nat.{mod-eq_of_lt}
use mochi_beam.Cnode.Inverse.{read_frame-inverse}

-- The bytes of a connection.
abbrev pub IsByte : ℕ → Type 0
IsByte n = n < 256

read_full-ne-panic : (n : ℕ) (e : Error) (c : Conn) → (read_full n e c).0 ≢ panic
unfolding read_full
read_full-ne-panic n e c h = elim (Bool-cases (ltb (length c.incoming) n)) [
  | inl short ↦ let q : read_full n e c ≡ (err e, conn [] c.outgoing c.writes) = rw (short) in cc
  | inr fits ↦
      let q : read_full n e c
          ≡ (ok (take n c.incoming), conn (drop n c.incoming) c.outgoing c.writes) =
        rw (fits) in
      cc
]

and_then-ne-panic {ℓ κ} :
    {A : Type ℓ} {B : Type κ} (r : Outcome A × Conn) (f : A → Run B)
    → r.0 ≢ panic
    → ((a : A) (c : Conn) → (f a c).0 ≢ panic)
    → (and_then r f).0 ≢ panic
and_then-ne-panic (ok a, c) f h k = k a c
and_then-ne-panic (err e, c) f h k = λ q. cc
and_then-ne-panic (panic, c) f h k = λ q. h refl

read_frame-ne-panic : (c : Conn) → (read_frame c).0 ≢ panic
unfolding read_frame
read_frame-ne-panic c =
    and_then-ne-panic (read_full 2 frame_header c) _ (read_full-ne-panic 2 frame_header c)
      (λ hdr k. read_full-ne-panic (big_endian 0 hdr) frame_body k)

-- A panic after a frame is a panic of the step on its body.
panics-framed {ℓ} :
    {A : Type ℓ} (f : Bytes → Run A) (r : Outcome Bytes × Conn)
    → r.0 ≢ panic
    → ((body : Bytes) (c : Conn) → (f body c).0 ≡ panic → body ≡ [])
    → (and_then r f).0 ≡ panic
    → (c' : Conn) × (r ≡ (ok [], c'))
panics-framed f (ok body, c) h k p = (c, ap (λ b. (ok b, c)) (k body c p))
panics-framed f (err e, c) h k p = cc
panics-framed f (panic, c) h k p = elim (h refl) [ ]

status_of-panic : (body : Bytes) (c : Conn) → (status_of body c).0 ≡ panic → body ≡ []
unfolding status_of lacks_tag index slice
status_of-panic [] c h = refl
status_of-panic (b ∷ bs) c h =
    let n = suc (length bs) in
    elim (Bool-cases (lacks_tag 2 b's' (b ∷ bs))) [
      | inl e ↦ let q : status_of (b ∷ bs) c ≡ (err (expected_status b), c) = rw (e) in cc
      | inr e ↦
          let q : status_of (b ∷ bs) c ≡ (ok (take (length bs) bs), c) =
            rw (e, le→not_ltb n 1 (omega arith), le→not_ltb n n (omega arith)) in
          cc
    ]

check_ack-panic : (d body : Bytes) (c : Conn) → (check_ack d body c).0 ≡ panic → body ≡ []
unfolding check_ack lacks_tag index slice
check_ack-panic d [] c h = refl
check_ack-panic d (b ∷ bs) c h = elim (Bool-cases (lacks_tag 17 b'a' (b ∷ bs))) [
  | inl e ↦ let q : check_ack d (b ∷ bs) c ≡ (err (expected_ack b), c) = rw (e) in cc
  | inr e ↦
      let long : ltb (suc (length bs)) 17 ≡ false = ground arith in
      let got = take 16 bs in
      let q : check_ack d (b ∷ bs) c ≡ (if text_eq got d then pure tt else fail digest_mismatch) c =
        rw (e, long) in
      elim (Bool-cases (text_eq got d)) [
        | inl t ↦ let k : check_ack d (b ∷ bs) c ≡ (ok tt, c) = q ∙ rw (t) in cc
        | inr t ↦ let k : check_ack d (b ∷ bs) c ≡ (err digest_mismatch, c) = q ∙ rw (t) in cc
      ]
]

pub new_challenge-ne-panic :
    (body : Bytes) (c : Conn) → length body < 2 ^ 16 → (new_challenge body c).0 ≢ panic
unfolding new_challenge slice
new_challenge-ne-panic body c hn h =
    let n = length body in
    let l = big_endian 0 (drop 17 (take 19 body)) in
    elim (Bool-cases (ltb n 19)) [
      | inl short ↦
          let q : new_challenge body c ≡ (err (new_challenge_short n), c) = rw (short) in cc
      | inr long ↦
          let h13 : ltb n 13 ≡ false = le→not_ltb n 13 (omega (arith, not_ltb→le n 19 long)) in
          elim (Bool-cases (ltb n (19 + l))) [
            | inl short ↦
                let q : new_challenge body c ≡ (err name_truncated, c) = rw (long, h13, short) in cc
            | inr fits ↦
                let hm : 19 + l < 2 ^ 16 = omega (arith, not_ltb→le n (19 + l) fits) in
                let q : new_challenge body c
                    ≡ (ok (big_endian 0 (drop 9 (take 13 body)), drop 19 (take (19 + l) body)), c) =
                  rw (
                    long,
                    h13,
                    fits,
                    mod-eq_of_lt hm,
                    le→not_ltb (19 + l) 19 (omega arith),
                    fits,
                  ) in
                cc
          ]
    ]

old_challenge-ne-panic : (body : Bytes) (c : Conn) → (old_challenge body c).0 ≢ panic
unfolding old_challenge slice
old_challenge-ne-panic body c h =
    let n = length body in
    elim (Bool-cases (ltb n 11)) [
      | inl short ↦
          let q : old_challenge body c ≡ (err (old_challenge_short n), c) = rw (short) in cc
      | inr fits ↦
          let q : old_challenge body c
              ≡ (ok (big_endian 0 (drop 7 (take 11 body)), drop 11 (take n body)), c) =
            rw (fits, le→not_ltb n n (omega arith)) in
          cc
    ]

recv_status-panics :
    (c : Conn) → ((recv_status c).0 ≡ panic) ↔ ((c' : Conn) × (read_frame c ≡ (ok [], c')))
unfolding recv_status
recv_status-panics c = (
  panics-framed status_of (read_frame c) (read_frame-ne-panic c) status_of-panic,
  λ p. unfold status_of lacks_tag index in rw (p.1),
)

-- `recvStatus` and `recvChallengeAck` each panic exactly if the frame that they read is empty.
pub recv_challenge_ack-panics :
    (d : Bytes) (c : Conn)
    → (((recv_status c).0 ≡ panic) ↔ ((c' : Conn) × (read_frame c ≡ (ok [], c'))))
      × (((recv_challenge_ack d c).0 ≡ panic) ↔ ((c' : Conn) × (read_frame c ≡ (ok [], c'))))
unfolding recv_challenge_ack
recv_challenge_ack-panics d c = (
  recv_status-panics c,
  (
    panics-framed (check_ack d) (read_frame c) (read_frame-ne-panic c) (check_ack-panic d),
    λ p. unfold check_ack lacks_tag index in rw (p.1),
  ),
)

if-ne-panic {ℓ} :
    {A : Type ℓ} (b : Bool) (m k : Run A) (c : Conn)
    → (m c).0 ≢ panic
    → (k c).0 ≢ panic
    → ((if b then m else k) c).0 ≢ panic
if-ne-panic true m k c hm hk = hm
if-ne-panic false m k c hm hk = hk

challenge_of-ne-panic :
    (body : Bytes) (c : Conn) → length body < 2 ^ 16 → (challenge_of body c).0 ≢ panic
unfolding challenge_of
challenge_of-ne-panic [] c hn = λ h. cc
challenge_of-ne-panic (b ∷ bs) c hn =
    if-ne-panic (b == b'N') (new_challenge (b ∷ bs)) _ c (new_challenge-ne-panic (b ∷ bs) c hn) (
      if-ne-panic (b == b'n') (old_challenge (b ∷ bs)) (fail (unexpected_challenge b)) c
        (old_challenge-ne-panic (b ∷ bs) c) (λ h. cc))

framed-ne-panic {ℓ} :
    {A : Type ℓ} (f : Bytes → Run A) (r : Outcome Bytes × Conn)
    → r.0 ≢ panic
    → ((body : Bytes) (c : Conn) → r ≡ (ok body, c) → (f body c).0 ≢ panic)
    → (and_then r f).0 ≢ panic
framed-ne-panic f (ok body, c) h k = k body c refl
framed-ne-panic f (err e, c) h k = λ q. cc
framed-ne-panic f (panic, c) h k = λ q. h refl

-- Two bytes stand for a number of 16 bits.
big_endian-lt : (hdr t : Bytes) → length hdr ≡ 2 → All IsByte (hdr ++ t) → big_endian 0 hdr < 2 ^ 16
unfolding big_endian
big_endian-lt [] t h hb = omega arith
big_endian-lt (a ∷ []) t h hb = omega arith
big_endian-lt (a ∷ b ∷ []) t h hb = omega (arith, hb.0, hb.1)
big_endian-lt (a ∷ b ∷ c ∷ r) t h hb = omega arith

-- On bytes, `recvChallenge` never panics: the end of the name cannot wrap around.
pub recv_challenge-ne-panic : (c : Conn) → All IsByte c.incoming → (recv_challenge c).0 ≢ panic
unfolding recv_challenge
recv_challenge-ne-panic c hb =
    framed-ne-panic challenge_of (read_frame c) (read_frame-ne-panic c) (λ body c1 h.
      let (hdr, l1, l2, i, o) = read_frame-inverse body c c1 h in
      let small = big_endian-lt hdr (body ++ c1.incoming) l1 (subst (All IsByte) i hb) in
      challenge_of-ne-panic body c1 (rw (l2) small))
