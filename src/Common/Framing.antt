-- ===== src/Common/Framing.antt =====
-- cpcluster_common/src/lib.rs: `write_length_prefixed` and `read_length_prefixed`, over a stream that
-- accepts `room` more bytes before it breaks, and one that holds the bytes that are left to read.
pub mod RoundTrip
use cpcluster.Prelude.{
  ℕ, ◌+◌, ◌-◌, ◌*◌, ◌/◌, ◌%◌, ◌^◌, [], ◌∷◌, ◌++◌, List, zero, suc, leb, if◌then◌else◌, length, take,
  drop, Result, ok, err, io_error,
}
use cpcluster.Prelude.Action.{Action, ◌>>=◌, ◌>>◌, pure}
use cpcluster.Common.Protocol.{Bytes}

-- An `AsyncWrite`: what the peer was given, and how many bytes it still takes.
pub record Sink : Type 0 where
  pub sent : Bytes
  pub room : ℕ

-- `write_all`: at the end of the room the write fails, part of it done.
unfoldable pub write_all : Bytes → Action Sink (Unit {0})
write_all b s =
    if leb (length b) s.room
    then (ok tt, record { sent = s.sent ++ b; room = s.room - length b })
    else (err io_error, record { sent = s.sent ++ take s.room b; room = 0 })

-- `read_exact` into a buffer of `n` bytes.
unfoldable pub read_exact : ℕ → Action Bytes Bytes
read_exact n s = if leb n (length s) then (ok (take n s), drop n s) else (err io_error, [])

-- `u32::to_be_bytes` and `u32::from_be_bytes`
unfoldable pub to_be_bytes : ℕ → Bytes
to_be_bytes n = n / 2 ^ 24 % 256 ∷ n / 2 ^ 16 % 256 ∷ n / 2 ^ 8 % 256 ∷ n % 256 ∷ []

unfoldable pub from_be_bytes : Bytes → ℕ
from_be_bytes (a ∷ b ∷ c ∷ d ∷ _) = a * 2 ^ 24 + b * 2 ^ 16 + c * 2 ^ 8 + d
from_be_bytes _ = 0

unfoldable pub write_length_prefixed : Bytes → Action Sink (Unit {0})
write_length_prefixed payload = do
  let len = length payload % 2 ^ 32
  write_all (to_be_bytes len)
  write_all payload

unfoldable pub read_length_prefixed : Action Bytes Bytes
read_length_prefixed = do len_buf ← read_exact 4; read_exact (from_be_bytes len_buf)

-- What `write_length_prefixed` gives to a stream that does not break.
unfoldable pub frame : Bytes → Bytes
frame payload = to_be_bytes (length payload % 2 ^ 32) ++ payload

-- Several frames in a row, and their reading one after the other.
unfoldable pub frames : List Bytes → Bytes
frames [] = []
frames (b ∷ bs) = frame b ++ frames bs

unfoldable pub write_frames : List Bytes → Action Sink (Unit {0})
write_frames [] = pure tt
write_frames (b ∷ bs) = do write_length_prefixed b; write_frames bs

unfoldable pub read_frames : ℕ → Action Bytes (List Bytes)
read_frames zero = pure []
read_frames (suc n) = do b ← read_length_prefixed; bs ← read_frames n; pure (b ∷ bs)
