-- ===== src/Cnode/Handshake.antt =====
-- cnode/cnode.go: the messages of the distribution handshake.
use mochi_beam.Base.{
  ℕ, zero, suc, ◌≡◌, refl, ap, ◌+◌, ◌%◌, ◌^◌, Bool, true, [], ◌∷◌, ◌++◌, ◌&&◌, ◌||◌, not, ltb, ◌==◌,
  if◌then◌else◌, length, take, drop,
}
use mochi_beam.Text.Chars.{codes, text_eq}
use mochi_beam.Etf.Term.{Bytes}
use mochi_beam.Etf.Wire.{big_endian, put_uint16, put_uint32, put_uint64}
use mochi_beam.Cnode.Conn.{
  Run, pure, fail, fault, ◌>>=◌, ◌>>◌, write_frame, read_frame, expected_status, expected_ack,
  unexpected_challenge, unexpected_status, empty_challenge, new_challenge_short,
  old_challenge_short, name_truncated, digest_mismatch,
}

-- `b[i]`, which panics if `i` is not an index.
unfoldable pub index : ℕ → Bytes → Run ℕ
index i [] = fault
index zero (b ∷ bs) = pure b
index (suc i) (b ∷ bs) = index i bs

-- `b[i:j]`, which panics unless `i <= j <= len(b)`.
unfoldable pub slice : ℕ → ℕ → Bytes → Run Bytes
slice i j b = if ltb j i || ltb (length b) j then fault else pure (drop i (take j b))

-- `computeDigest`, with `md5` for the hash of the concatenated writes; `copy` fills 16 bytes.
unfoldable pub zeros : ℕ → Bytes
zeros zero = []
zeros (suc n) = 0 ∷ zeros n

pub length-zeros : (n : ℕ) → length (zeros n) ≡ n
unfolding zeros
length-zeros zero = refl
length-zeros (suc n) = ap suc (length-zeros n)

unfoldable pub compute_digest : (Bytes → Bytes) → Bytes → ℕ → Bytes
unfolding zeros
compute_digest md5 cookie challenge = take 16 (md5 (cookie ++ put_uint32 challenge) ++ zeros 16)

-- `sendName`.
unfoldable pub name_message : Bytes → Bytes
name_message name =
    b'N' ∷ put_uint64 1073741824 ++ put_uint32 1 ++ put_uint16 (length name % 2 ^ 16) ++ name

unfoldable pub send_name : Bytes → Run {0} Unit
send_name name = write_frame (name_message name)

-- The guard of `recvStatus` and `recvChallengeAck`: too short, or another first byte.
unfoldable pub lacks_tag : ℕ → ℕ → Bytes → Bool
lacks_tag n tag [] = true
lacks_tag n tag (b ∷ bs) = ltb (suc (length bs)) n || not (b == tag)

-- `recvStatus`, after and with the frame.
unfoldable pub status_of : Bytes → Run Bytes
status_of body =
    if lacks_tag 2 b's' body
    then index 0 body >>= (λ b. fail (expected_status b))
    else slice 1 (length body) body

unfoldable pub recv_status : Run Bytes
recv_status = read_frame >>= status_of

-- `recvChallenge`: the case of the new format, that of the old one, and the switch.
unfoldable pub new_challenge : Bytes → Run (ℕ × Bytes)
new_challenge body = if ltb (length body) 19 then fail (new_challenge_short (length body)) else do
  challenge ← slice 9 13 body
  name_len ← slice 17 19 body
  if ltb (length body) (19 + big_endian 0 name_len) then fail name_truncated else do
    name ← slice 19 ((19 + big_endian 0 name_len) % 2 ^ 16) body
    pure (big_endian 0 challenge, name)

unfoldable pub old_challenge : Bytes → Run (ℕ × Bytes)
old_challenge body = if ltb (length body) 11 then fail (old_challenge_short (length body)) else do
  challenge ← slice 7 11 body
  name ← slice 11 (length body) body
  pure (big_endian 0 challenge, name)

unfoldable pub challenge_of : Bytes → Run (ℕ × Bytes)
challenge_of [] = fail empty_challenge
challenge_of (b ∷ bs) =
    if b == b'N'
    then new_challenge (b ∷ bs)
    else if b == b'n'
    then old_challenge (b ∷ bs)
    else fail (unexpected_challenge b)

unfoldable pub recv_challenge : Run (ℕ × Bytes)
recv_challenge = read_frame >>= challenge_of

-- `sendChallengeReply`.
unfoldable pub send_challenge_reply : ℕ → Bytes → Run {0} Unit
send_challenge_reply our_challenge digest = write_frame (b'r' ∷ put_uint32 our_challenge ++ digest)

-- `recvChallengeAck`, after and with the frame.
unfoldable pub check_ack : Bytes → Bytes → Run {0} Unit
check_ack expected body =
    if lacks_tag 17 b'a' body
    then index 0 body >>= (λ b. fail (expected_ack b))
    else do got ← slice 1 17 body; if text_eq got expected then pure tt else fail digest_mismatch

unfoldable pub recv_challenge_ack : Bytes → Run {0} Unit
recv_challenge_ack expected = read_frame >>= check_ack expected

-- Steps 3 to 5 of `Handshake`; `our_challenge` is the number from `rand.Uint32`.
unfoldable pub agree : (Bytes → Bytes) → ℕ → Bytes → Run Bytes
agree md5 our_challenge cookie = do
  theirs ← recv_challenge
  send_challenge_reply our_challenge (compute_digest md5 cookie theirs.0)
  recv_challenge_ack (compute_digest md5 cookie our_challenge)
  pure theirs.1

-- `Handshake`, which returns the peer's name.
unfoldable pub handshake : (Bytes → Bytes) → ℕ → Bytes → Bytes → Run Bytes
handshake md5 our_challenge our_name cookie = do
  send_name our_name
  status ← recv_status
  if not (text_eq status (codes "ok")) && not (text_eq status (codes "ok_simultaneous"))
      then fail (unexpected_status status)
      else agree md5 our_challenge cookie
