-- ===== src/Cnode/Conn.antt =====
-- cnode/cnode.go: a connection, the outcomes of a call, and the frames of the handshake.
use mochi_beam.Base.{ℕ, zero, suc, ◌%◌, ◌^◌, [], ◌++◌, ltb, if◌then◌else◌, length, take, drop}
use mochi_beam.Etf.Term.{Bytes}
use mochi_beam.Etf.Term as Term
use mochi_beam.Etf.Wire.{big_endian, put_uint16}

pub data Error : Type 0 where
  read_failed write_failed : Error
  frame_header frame_body : Error
  expected_status expected_ack unexpected_challenge : ℕ → Error
  unexpected_status : Bytes → Error
  empty_challenge : Error
  new_challenge_short old_challenge_short : ℕ → Error
  name_truncated digest_mismatch : Error
  epmd_tag epmd_not_found : ℕ → Error
  invalid_node_name connect_failed : Bytes → Error
  encode_control encode_message : Term.Error → Error

-- What a call gives: a result, an error value, or a run-time panic of Go.
pub data Outcome {ℓ} (A : Type ℓ) : Type ℓ where
  ok : A → Outcome A
  err : Error → Outcome A
  panic : Outcome A

-- The bytes that the peer has sent and we have not read, the bytes that we have written, and how
-- many further calls of `Write` succeed.
pub record Conn : Type 0 where
  pub incoming : Bytes
  pub outgoing : Bytes
  pub writes : ℕ

abbrev pub Run {ℓ} : Type ℓ → Type ℓ
Run A = Conn → Outcome A × Conn

abbrev pub pure {ℓ} : {A : Type ℓ} → A → Run A
pure a c = (ok a, c)

abbrev pub fail {ℓ} : {A : Type ℓ} → Error → Run A
fail e c = (err e, c)

abbrev pub fault {ℓ} : {A : Type ℓ} → Run A
fault c = (panic, c)

abbrev pub and_then {ℓ κ} :
    {A : Type ℓ} {B : Type κ} → Outcome A × Conn → (A → Run B) → Outcome B × Conn
and_then (ok a, c) f = f a c
and_then (err e, c) f = (err e, c)
and_then (panic, c) f = (panic, c)

infixl 5 ◌>>=◌ ◌>>◌
abbrev pub ◌>>=◌ {ℓ κ} : {A : Type ℓ} {B : Type κ} → Run A → (A → Run B) → Run B
◌>>=◌ m f c = and_then (m c) f

abbrev pub ◌>>◌ {ℓ κ} : {A : Type ℓ} {B : Type κ} → Run A → Run B → Run B
m >> k = m >>= λ _. k

-- `io.ReadFull` into a buffer of `n` bytes, its error replaced by `e`.
unfoldable pub read_full : ℕ → Error → Run Bytes
read_full n e c =
    if ltb (length c.incoming) n
    then (err e, record { incoming = []; outgoing = c.outgoing; writes = c.writes })
    else (
      ok (take n c.incoming),
      record { incoming = drop n c.incoming; outgoing = c.outgoing; writes = c.writes },
    )

-- `conn.Write`.
unfoldable pub write_within : ℕ → Bytes → Run {0} Unit
write_within zero bs c = (err write_failed, c)
write_within (suc n) bs c =
    (ok tt, record { incoming = c.incoming; outgoing = c.outgoing ++ bs; writes = n })

unfoldable pub write : Bytes → Run {0} Unit
unfolding write_within
write bs c = write_within c.writes bs c

-- `writeFrame`.
unfoldable pub write_frame : Bytes → Run {0} Unit
write_frame body = do write (put_uint16 (length body % 2 ^ 16)); write body

-- `readFrame`.
unfoldable pub read_frame : Run Bytes
read_frame = do hdr ← read_full 2 frame_header; read_full (big_endian 0 hdr) frame_body
