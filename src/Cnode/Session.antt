-- ===== src/Cnode/Session.antt =====
-- cnode/cnode.go: the handshake with a peer that follows the protocol.
use mochi_beam.Base.{
  ℕ, suc, ◌+◌, ◌^◌, ◌<◌, ◌≤◌, ◌≡◌, refl, Bool, true, false, [], ◌∷◌, ◌++◌, append_assoc, arith,
  length, length-take, if◌then◌else◌, length-append, take-length_append, drop-length_append,
  le→not_ltb, take-length, not, ◌&&◌,
}
use mochi_beam.Text.Chars.{codes, text_eq, text_eq_refl}
use mochi_beam.Etf.Term.{Bytes}
use mochi_beam.Etf.Wire.{put_uint16, put_uint32, put_uint64}
use mochi_beam.Etf.RoundTrip.Fields.{big_endian-put_uint16, big_endian-put_uint32}
use native.Mathlib.Nat.{mod-eq_of_lt}
use mochi_beam.Cnode.Conn.{ok, Conn}
use mochi_beam.Cnode.Handshake.{
  zeros, length-zeros, slice, compute_digest, name_message, send_name, lacks_tag, status_of,
  check_ack, recv_status, new_challenge, old_challenge, challenge_of, recv_challenge,
  send_challenge_reply, recv_challenge_ack, agree, handshake,
}
use mochi_beam.Cnode.Frames.{conn, frame, write_frame_lem, read_frame_lem}

-- What the peer says: the challenge in the new format and in the old one.
pub data Challenge : Type 0 where
  new_format : ℕ → ℕ → Challenge
  old_format : ℕ → ℕ → Challenge

abbrev pub challenge_message : Challenge → ℕ → Bytes → Bytes
challenge_message (new_format flags creation) challenge name =
    b'N' ∷ put_uint64 flags
    ++ put_uint32 challenge
    ++ put_uint32 creation
    ++ put_uint16 (length name)
    ++ name
challenge_message (old_format version flags) challenge name =
    b'n' ∷ put_uint16 version ++ put_uint32 flags ++ put_uint32 challenge ++ name

-- The tail of a message from an index on, and the bytes between two indices.
slice-rest :
    (i j : ℕ) (a b : Bytes) (c : Conn)
    → i ≡ length a
    → j ≡ length (a ++ b)
    → slice i j (a ++ b) c ≡ (ok b, c)
unfolding slice
slice-rest i j a b c hi hj = rw (
  hi,
  hj,
  le→not_ltb (length (a ++ b)) (length a) (omega (arith, length-append a b)),
  le→not_ltb (length (a ++ b)) (length (a ++ b)) (omega arith),
  take-length (a ++ b),
  drop-length_append a b,
)

slice-middle :
    (i j : ℕ) (a b t : Bytes) (c : Conn)
    → i ≡ length a
    → j ≡ length (a ++ b)
    → slice i j ((a ++ b) ++ t) c ≡ (ok b, c)
unfolding slice
slice-middle i j a b t c hi hj = rw (
  hi,
  hj,
  le→not_ltb (length (a ++ b)) (length a) (omega (arith, length-append a b)),
  le→not_ltb (length ((a ++ b) ++ t)) (length (a ++ b)) (omega (arith, length-append (a ++ b) t)),
  take-length_append (a ++ b) t,
  drop-length_append a b,
)

recv_status_lem :
    (b : ℕ) (s rest o : Bytes) (w : ℕ)
    → length s + 2 < 2 ^ 16
    → recv_status (conn (frame (b's' ∷ b ∷ s) ++ rest) o w) ≡ (ok (b ∷ s), conn rest o w)
unfolding recv_status status_of lacks_tag
recv_status_lem b s rest o w h =
    rw
      (
        read_frame_lem (b's' ∷ b ∷ s) rest o w (omega arith),
        le→not_ltb (suc (suc (length s))) 2 (omega arith),
      )
      (slice-rest 1 (suc (suc (length s))) (b's' ∷ []) (b ∷ s) (conn rest o w) refl refl)

new_challenge_lem :
    (flags creation ch : ℕ) (name : Bytes) (c : Conn)
    → ch < 2 ^ 32
    → length name + 19 < 2 ^ 16
    → new_challenge (challenge_message (new_format flags creation) ch name) c ≡ (ok (ch, name), c)
unfolding new_challenge put_uint16 put_uint32 put_uint64
new_challenge_lem flags creation ch name c h hn =
    let n = length (challenge_message (new_format flags creation) ch name) in
    let hm : 19 + length name < 2 ^ 16 = omega arith in
    rw (
      le→not_ltb n 19 (omega arith),
      slice-middle 9 13 (b'N' ∷ put_uint64 flags) (put_uint32 ch)
          (put_uint32 creation ++ (put_uint16 (length name) ++ name)) c refl refl,
      slice-middle 17 19 (b'N' ∷ (put_uint64 flags ++ (put_uint32 ch ++ put_uint32 creation)))
          (put_uint16 (length name)) name c refl refl,
      big_endian-put_uint16 (length name) (omega arith),
      le→not_ltb n (19 + length name) (omega arith),
      mod-eq_of_lt hm,
      slice-rest 19 (19 + length name)
          (b'N'
            ∷ (put_uint64 flags
                ++ (put_uint32 ch ++ (put_uint32 creation ++ put_uint16 (length name)))))
          name c refl (omega arith),
      big_endian-put_uint32 ch h,
    )

old_challenge_lem :
    (version flags ch : ℕ) (name : Bytes) (c : Conn)
    → ch < 2 ^ 32
    → old_challenge (challenge_message (old_format version flags) ch name) c ≡ (ok (ch, name), c)
unfolding old_challenge put_uint16 put_uint32
old_challenge_lem version flags ch name c h =
    let n = length (challenge_message (old_format version flags) ch name) in
    rw (
      le→not_ltb n 11 (omega arith),
      slice-middle 7 11 (b'n' ∷ (put_uint16 version ++ put_uint32 flags)) (put_uint32 ch) name c
          refl refl,
      slice-rest 11 n (b'n' ∷ (put_uint16 version ++ (put_uint32 flags ++ put_uint32 ch))) name c
          refl refl,
      big_endian-put_uint32 ch h,
    )

-- The body of a challenge in either format gives the challenge and the name.
challenge_of_lem :
    (f : Challenge) (ch : ℕ) (name : Bytes) (c : Conn)
    → ch < 2 ^ 32
    → length name + 19 < 2 ^ 16
    → challenge_of (challenge_message f ch name) c ≡ (ok (ch, name), c)
unfolding challenge_of
challenge_of_lem (new_format flags creation) ch name c h hn =
    new_challenge_lem flags creation ch name c h hn
challenge_of_lem (old_format version flags) ch name c h hn =
    old_challenge_lem version flags ch name c h

length-challenge_message :
    (f : Challenge) (ch : ℕ) (name : Bytes)
    → length (challenge_message f ch name) ≤ length name + 19
unfolding put_uint16 put_uint32 put_uint64
length-challenge_message (new_format flags creation) ch name = omega arith
length-challenge_message (old_format version flags) ch name = omega arith

recv_challenge_lem :
    (f : Challenge) (ch : ℕ) (name rest o : Bytes) (w : ℕ)
    → ch < 2 ^ 32
    → length name + 19 < 2 ^ 16
    → recv_challenge (conn (frame (challenge_message f ch name) ++ rest) o w)
      ≡ (ok (ch, name), conn rest o w)
unfolding recv_challenge
recv_challenge_lem f ch name rest o w h hn =
    rw
      (read_frame_lem (challenge_message f ch name) rest o w
        (omega (arith, length-challenge_message f ch name)))
      (challenge_of_lem f ch name (conn rest o w) h hn)

recv_challenge_ack_lem :
    (d rest o : Bytes) (w : ℕ)
    → length d ≡ 16
    → recv_challenge_ack d (conn (frame (b'a' ∷ d) ++ rest) o w) ≡ (ok tt, conn rest o w)
unfolding recv_challenge_ack check_ack lacks_tag
recv_challenge_ack_lem d rest o w h = rw (
  read_frame_lem (b'a' ∷ d) rest o w (omega arith),
  le→not_ltb (length (b'a' ∷ d)) 17 (omega arith),
  slice-rest 1 17 (b'a' ∷ []) d (conn rest o w) refl (omega arith),
  text_eq_refl d,
)

length-compute_digest :
    (md5 : Bytes → Bytes) (cookie : Bytes) (ch : ℕ) → length (compute_digest md5 cookie ch) ≡ 16
unfolding compute_digest
length-compute_digest md5 cookie ch =
    let sum = md5 (cookie ++ put_uint32 ch) in
    omega (arith, length-take 16 (sum ++ zeros 16), length-append sum (zeros 16), length-zeros 16)

-- The status that the peer sends: `ok`, or `ok_simultaneous`.
abbrev pub status : Bool → Bytes
status simultaneous = if simultaneous then codes "ok_simultaneous" else codes "ok"

status_lem :
    (simultaneous : Bool) (rest o : Bytes) (w : ℕ)
    → recv_status (conn (frame (b's' ∷ status simultaneous) ++ rest) o w)
      ≡ (ok (status simultaneous), conn rest o w)
status_lem true rest o w = recv_status_lem b'o' (codes "k_simultaneous") rest o w (omega arith)
status_lem false rest o w = recv_status_lem b'o' (codes "k") rest o w (omega arith)

status-accepted :
    (simultaneous : Bool)
    → (not (text_eq (status simultaneous) (codes "ok"))
        && not (text_eq (status simultaneous) (codes "ok_simultaneous")))
      ≡ false
unfolding text_eq
status-accepted true = refl
status-accepted false = refl

-- The bytes that a peer sends in one handshake, in order.
abbrev pub peer_bytes : (Bytes → Bytes) → Bytes → ℕ → Bool → Challenge → ℕ → Bytes → Bytes → Bytes
peer_bytes md5 cookie ours simultaneous f theirs peer rest =
    frame (b's' ∷ status simultaneous)
    ++ (frame (challenge_message f theirs peer)
        ++ (frame (b'a' ∷ compute_digest md5 cookie ours) ++ rest))

-- The bytes that we send: our name, then our challenge with the digest of the peer's challenge.
abbrev pub our_bytes : (Bytes → Bytes) → Bytes → Bytes → ℕ → ℕ → Bytes
our_bytes md5 name cookie ours theirs =
    frame (name_message name) ++ frame (b'r' ∷ put_uint32 ours ++ compute_digest md5 cookie theirs)

-- With a peer that sends `ok` or `ok_simultaneous`, a challenge in either format with a name of
-- less than 65517 bytes, and the digest of the cookie and our challenge, `Handshake` returns the
-- peer's name, has read exactly these frames, and has sent our name and then our challenge with the
-- digest of the cookie and the peer's challenge, if the four writes succeed.
pub handshake_lem :
    (md5 : Bytes → Bytes) (ours theirs w : ℕ) (name cookie peer rest o : Bytes)
    (simultaneous : Bool) (f : Challenge)
    → theirs < 2 ^ 32
    → length peer + 19 < 2 ^ 16
    → handshake md5 ours name cookie (
        conn
          (peer_bytes md5 cookie ours simultaneous f theirs peer rest)
          o
          (suc (suc (suc (suc w)))))
      ≡ (ok peer, conn rest (o ++ our_bytes md5 name cookie ours theirs) w)
unfolding handshake agree send_name send_challenge_reply
handshake_lem md5 ours theirs w name cookie peer rest o simultaneous f h hp =
    let ack = frame (b'a' ∷ compute_digest md5 cookie ours) ++ rest in
    let hello = o ++ frame (name_message name) in
    rw (
      write_frame_lem (name_message name)
          (peer_bytes md5 cookie ours simultaneous f theirs peer rest) o (suc (suc w)),
      status_lem simultaneous (frame (challenge_message f theirs peer) ++ ack) hello (suc (suc w)),
      status-accepted simultaneous,
      recv_challenge_lem f theirs peer ack hello (suc (suc w)) h hp,
      write_frame_lem (b'r' ∷ (put_uint32 ours ++ compute_digest md5 cookie theirs)) ack hello w,
      recv_challenge_ack_lem (compute_digest md5 cookie ours) rest
          (hello ++ frame (b'r' ∷ (put_uint32 ours ++ compute_digest md5 cookie theirs))) w
          (length-compute_digest md5 cookie ours),
      append_assoc o (frame (name_message name))
          (frame (b'r' ∷ (put_uint32 ours ++ compute_digest md5 cookie theirs))),
    )
