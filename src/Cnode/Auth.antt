-- ===== src/Cnode/Auth.antt =====
-- cnode/cnode.go: what a handshake that succeeded has read and written.
use mochi_beam.Base.{
  ℕ, ◌≡◌, refl, ap, sym, ◌∙◌, subst, Bool, true, false, List, [], ◌∷◌, ◌++◌, append_assoc, arith,
  ltb, ◌⊎◌, inl, inr, length, take, drop, take-length, Bool-cases, not, ◌&&◌, ◌||◌, if◌then◌else◌,
}
use mochi_beam.Text.Chars.{codes, text_eq, text_eq→eq}
use mochi_beam.Etf.Term.{Bytes}
use mochi_beam.Etf.Wire.{big_endian, put_uint32}
use mochi_beam.Cnode.Conn.{
  Error, ok, err, panic, Conn, Run, and_then, read_frame, expected_status, expected_ack, fail, pure,
  digest_mismatch, unexpected_status, ◌>>=◌,
}
use mochi_beam.Cnode.Handshake.{
  index, slice, compute_digest, name_message, send_name, lacks_tag, status_of, check_ack,
  recv_status, challenge_of, recv_challenge, send_challenge_reply, recv_challenge_ack, agree,
  handshake,
}
use mochi_beam.Cnode.Frames.{frame}
use mochi_beam.Cnode.Session.{our_bytes}
use mochi_beam.Cnode.Quiet.{IsQuiet, challenge_of-IsQuiet, status_of-IsQuiet, check_ack-IsQuiet}
use mochi_beam.Cnode.Inverse.{and_then-inverse, write_frame-inverse, read_frame-inverse}

-- `Frames bytes bodies rest`: the bytes are these frames, one after the other, and then the rest.
abbrev pub Frames : Bytes → List Bytes → Bytes → Type 0
Frames bytes [] rest = bytes ≡ rest
Frames bytes (body ∷ bodies) rest =
    (hdr : Bytes) × (more : Bytes) × (length hdr ≡ 2)
    × (length body ≡ big_endian 0 hdr)
    × (bytes ≡ hdr ++ (body ++ more))
    × Frames more bodies rest

-- A step on a body leaves the connection as it is, whenever it returns a result.
slice-inverse :
    (i j : ℕ) (b r : Bytes) (c c' : Conn)
    → slice i j b c ≡ (ok r, c')
    → (c' ≡ c) × (r ≡ drop i (take j b))
unfolding slice
slice-inverse i j b r c c' h = elim (Bool-cases (ltb j i || ltb (length b) j)) [
  | inl out ↦ let q : slice i j b c ≡ (panic, c) = rw (out) in cc
  | inr fits ↦
      let q : slice i j b c ≡ (ok (drop i (take j b)), c) = rw (fits) in
      (ap (λ k. k.1) (sym h ∙ q), cc)
]

status_of-inverse :
    (body s : Bytes) (c c' : Conn) → status_of body c ≡ (ok s, c') → (c' ≡ c) × (body ≡ b's' ∷ s)
unfolding status_of lacks_tag index
status_of-inverse [] s c c' h = cc
status_of-inverse (b ∷ bs) s c c' h = elim (Bool-cases (lacks_tag 2 b's' (b ∷ bs))) [
  | inl e ↦ let q : status_of (b ∷ bs) c ≡ (err (expected_status b), c) = rw (e) in cc
  | inr e ↦
      let q : status_of (b ∷ bs) c ≡ slice 1 (length (b ∷ bs)) (b ∷ bs) c = rw (e) in
      let r = slice-inverse 1 (length (b ∷ bs)) (b ∷ bs) s c c' (sym q ∙ h) in
      let t : b ≡ b's' = ground arith in (r.0, rw (r.1, take-length bs, t))
]

-- An acknowledgement that is accepted starts with its tag and the digest.
check_ack-inverse :
    (d body : Bytes) (c c' : Conn)
    → check_ack d body c ≡ (ok tt, c')
    → (c' ≡ c) × (take 17 body ≡ b'a' ∷ d)
unfolding check_ack lacks_tag index
check_ack-inverse d [] c c' h = cc
check_ack-inverse d (b ∷ bs) c c' h = elim (Bool-cases (lacks_tag 17 b'a' (b ∷ bs))) [
  | inl e ↦ let q : check_ack d (b ∷ bs) c ≡ (err (expected_ack b), c) = rw (e) in cc
  | inr e ↦
      let f : Bytes → Run {0} Unit =
        λ got. if text_eq got d then pure tt else fail digest_mismatch in
      let q : check_ack d (b ∷ bs) c ≡ and_then (slice 1 17 (b ∷ bs) c) f = rw (e) in
      let (got, c1, h1, h2) = and_then-inverse (slice 1 17 (b ∷ bs) c) f tt c' (sym q ∙ h) in
      let r = slice-inverse 1 17 (b ∷ bs) got c c1 h1 in
      let t : b ≡ b'a' = ground arith in
      elim (Bool-cases (text_eq got d)) [
        | inl same ↦
            let k : f got c1 ≡ (ok tt, c1) = rw (same) in
            (
              ap (λ p. p.1) (sym h2 ∙ k) ∙ r.0,
              rw (t) (ap (λ l. b'a' ∷ l) (sym r.1 ∙ text_eq→eq got d same)),
            )
        | inr other ↦ let k : f got c1 ≡ (err digest_mismatch, c1) = rw (other) in cc
      ]
]

-- One frame, then a step that neither reads nor writes.
framed-inverse {ℓ} :
    {A : Type ℓ} (f : Bytes → Run A) (a : A) (c c' : Conn)
    → ((body : Bytes) → IsQuiet (f body))
    → (read_frame >>= f) c ≡ (ok a, c')
    → (body : Bytes) × ((k : Conn) → f body k ≡ (ok a, k))
      × (c'.outgoing ≡ c.outgoing)
      × ((bodies : List Bytes) (rest : Bytes)
          → Frames c'.incoming bodies rest
          → Frames c.incoming (body ∷ bodies) rest)
framed-inverse f a c c' q h =
    let (body, c1, h1, h2) = and_then-inverse (read_frame c) f a c' h in
    let (hdr, l1, l2, i, o) = read_frame-inverse body c c1 h1 in
    let (r, hr) = q body in
    let e : (r, c1) ≡ (ok a, c') = sym (hr c1) ∙ h2 in
    let d : c1 ≡ c' = ap (λ p. p.1) e in
    (
      body,
      (λ k. hr k ∙ ap (λ p. (p.0, k)) e),
      ap (λ k. k.outgoing) (sym d) ∙ o,
      λ bodies rest more.
          (hdr, c'.incoming, l1, l2, i ∙ ap (λ k. hdr ++ (body ++ k.incoming)) d, more),
    )

agree-inverse :
    (md5 : Bytes → Bytes) (ours : ℕ) (cookie peer : Bytes) (c c' : Conn)
    → agree md5 ours cookie c ≡ (ok peer, c')
    → (m a : Bytes) × (theirs : ℕ) × Frames c.incoming (m ∷ a ∷ []) c'.incoming
      × ((k : Conn) → challenge_of m k ≡ (ok (theirs, peer), k))
      × (take 17 a ≡ b'a' ∷ compute_digest md5 cookie ours)
      × (c'.outgoing
          ≡ c.outgoing ++ frame (b'r' ∷ put_uint32 ours ++ compute_digest md5 cookie theirs))
unfolding agree recv_challenge send_challenge_reply recv_challenge_ack
agree-inverse md5 ours cookie peer c c' h =
    let (theirs, c1, h1, h2) = and_then-inverse (recv_challenge c) _ peer c' h in
    let (u, c2, h3, h4) =
      and_then-inverse (send_challenge_reply ours (compute_digest md5 cookie theirs.0) c1) _ peer c'
        h2 in
    let (v, c3, h5, h6) =
      and_then-inverse (recv_challenge_ack (compute_digest md5 cookie ours) c2) _ peer c' h4 in
    let reply = b'r' ∷ put_uint32 ours ++ compute_digest md5 cookie theirs.0 in
    let d : c3 ≡ c' = ap (λ p. p.1) h6 in
    let same : theirs.1 ≡ peer = cc in
    let (m, hm, o1, fr1) = framed-inverse challenge_of theirs c c1 challenge_of-IsQuiet h1 in
    let (i2, o2) = write_frame-inverse reply c1 c2 h3 in
    let (a, ha, o3, fr3) =
      framed-inverse (check_ack (compute_digest md5 cookie ours)) tt c2 c3
        (check_ack-IsQuiet (compute_digest md5 cookie ours)) h5 in
    let two : Frames c1.incoming (a ∷ []) c'.incoming =
      subst (λ b. Frames b (a ∷ []) c'.incoming) i2 (fr3 [] c'.incoming (ap (λ k. k.incoming) d)) in
    (
      m,
      a,
      theirs.0,
      fr1 (a ∷ []) c'.incoming two,
      (λ k. hm k ∙ ap (λ p. (ok (theirs.0, p), k)) same),
      (check_ack-inverse (compute_digest md5 cookie ours) a c c (ha c)).1,
      ap (λ k. k.outgoing) (sym d) ∙ (o3 ∙ (o2 ∙ ap (λ o. o ++ frame reply) o1)),
    )

-- The check of the status.
refused-inverse :
    (a b : Bool) (e : Error) (k : Run Bytes) (peer : Bytes) (c c' : Conn)
    → (if not a && not b then fail e else k) c ≡ (ok peer, c')
    → ((a ≡ true) ⊎ (b ≡ true)) × (k c ≡ (ok peer, c'))
refused-inverse true b e k peer c c' h = (inl refl, h)
refused-inverse false true e k peer c c' h = (inr refl, h)
refused-inverse false false e k peer c c' h = cc

accepted-inverse :
    (s : Bytes) (k : Run Bytes) (peer : Bytes) (c c' : Conn)
    → (if not (text_eq s (codes "ok")) && not (text_eq s (codes "ok_simultaneous"))
          then fail (unexpected_status s)
          else k)
        c
      ≡ (ok peer, c')
    → ((s ≡ codes "ok") ⊎ (s ≡ codes "ok_simultaneous")) × (k c ≡ (ok peer, c'))
accepted-inverse s k peer c c' h =
    let (w, hk) =
      refused-inverse (text_eq s (codes "ok")) (text_eq s (codes "ok_simultaneous"))
        (unexpected_status s) k peer c c' h in
    (
      elim w [
        | inl e ↦ inl (text_eq→eq s (codes "ok") e)
        | inr e ↦ inr (text_eq→eq s (codes "ok_simultaneous") e)
      ],
      hk,
    )

-- A handshake that succeeds has read a status of `ok` or `ok_simultaneous`, a challenge that names
-- the peer, and a message that starts with the digest of the cookie and our challenge; it has
-- written our name, and our challenge with the digest of the peer's, and nothing else.
pub handshake-authentic :
    (md5 : Bytes → Bytes) (ours : ℕ) (name cookie peer : Bytes) (c c' : Conn)
    → handshake md5 ours name cookie c ≡ (ok peer, c')
    → (s m a : Bytes) × (theirs : ℕ) × Frames c.incoming ((b's' ∷ s) ∷ m ∷ a ∷ []) c'.incoming
      × ((s ≡ codes "ok") ⊎ (s ≡ codes "ok_simultaneous"))
      × ((challenge_of m c).0 ≡ ok (theirs, peer))
      × (take 17 a ≡ b'a' ∷ compute_digest md5 cookie ours)
      × (c'.outgoing ≡ c.outgoing ++ our_bytes md5 name cookie ours theirs)
unfolding handshake send_name recv_status
handshake-authentic md5 ours name cookie peer c c' h =
    let (u, c1, h1, h2) = and_then-inverse (send_name name c) _ peer c' h in
    let (i1, o1) = write_frame-inverse (name_message name) c c1 h1 in
    let (s, c2, h3, h4) = and_then-inverse (recv_status c1) _ peer c' h2 in
    let (st, hst, o2, fr2) = framed-inverse status_of s c1 c2 status_of-IsQuiet h3 in
    let (ok_s, h5) = accepted-inverse s (agree md5 ours cookie) peer c2 c' h4 in
    let (m, a, theirs, fr, hm, ha, o3) = agree-inverse md5 ours cookie peer c2 c' h5 in
    let body : st ≡ b's' ∷ s = (status_of-inverse st s c c (hst c)).1 in
    let three : Frames c1.incoming (st ∷ m ∷ a ∷ []) c'.incoming =
      fr2 (m ∷ a ∷ []) c'.incoming fr in
    (
      s,
      m,
      a,
      theirs,
      subst (λ b. Frames b ((b's' ∷ s) ∷ m ∷ a ∷ []) c'.incoming) i1
          (subst (λ b. Frames c1.incoming (b ∷ m ∷ a ∷ []) c'.incoming) body three),
      ok_s,
      ap (λ p. p.0) (hm c),
      ha,
      o3
          ∙ (ap (λ o. o ++ frame (b'r' ∷ put_uint32 ours ++ compute_digest md5 cookie theirs))
                (o2 ∙ o1)
              ∙ (append_assoc c.outgoing (frame (name_message name))
                  (frame (b'r' ∷ put_uint32 ours ++ compute_digest md5 cookie theirs)))),
    )
