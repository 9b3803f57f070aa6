-- ===== src/Cnode/Frames.antt =====
-- cnode/cnode.go: what `writeFrame` wrote `readFrame` reads back.
use mochi_beam.Base.{
  ℕ, suc, ◌%◌, ◌^◌, ◌<◌, ◌≡◌, ◌++◌, append_assoc, arith, length, length-append, take-length_append,
  drop-length_append, le→not_ltb,
}
use mochi_beam.Etf.Term.{Bytes}
use mochi_beam.Etf.Wire.{put_uint16}
use mochi_beam.Etf.RoundTrip.Fields.{big_endian-put_uint16}
use native.Mathlib.Nat.{mod-eq_of_lt}
use mochi_beam.Cnode.Conn.{
  frame_header, frame_body, Error, ok, Conn, write, write_frame, read_full, read_frame,
}

abbrev pub conn : Bytes → Bytes → ℕ → Conn
conn i o w = record { incoming = i; outgoing = o; writes = w }

-- The bytes of one frame.
abbrev pub frame : Bytes → Bytes
frame body = put_uint16 (length body % 2 ^ 16) ++ body

pub read_full-append :
    (bs rest o : Bytes) (w : ℕ) (e : Error)
    → read_full (length bs) e (conn (bs ++ rest) o w) ≡ (ok bs, conn rest o w)
unfolding read_full
read_full-append bs rest o w e = rw (
  le→not_ltb (length (bs ++ rest)) (length bs) (omega (arith, length-append bs rest)),
  take-length_append bs rest,
  drop-length_append bs rest,
)

pub write_frame_lem :
    (body i o : Bytes) (w : ℕ)
    → write_frame body (conn i o (suc (suc w))) ≡ (ok tt, conn i (o ++ frame body) w)
unfolding write_frame write
write_frame_lem body i o w = rw (append_assoc o (put_uint16 (length body % 2 ^ 16)) body)

pub read_frame_lem :
    (body rest o : Bytes) (w : ℕ)
    → length body < 2 ^ 16
    → read_frame (conn (frame body ++ rest) o w) ≡ (ok body, conn rest o w)
unfolding read_frame put_uint16
read_frame_lem body rest o w h =
    rw
      (read_full-append (unfold put_uint16 in put_uint16 (length body % 2 ^ 16)) (body ++ rest) o w
        frame_header)
      (rw (big_endian-put_uint16 (length body % 2 ^ 16) (omega arith), mod-eq_of_lt h)
        (read_full-append body rest o w frame_body))
