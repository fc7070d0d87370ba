-- ===== src/Common/Wire.antt =====
-- Messages as frames: serde_json is a parameter, and a socket is seen at the level of whole frames
-- (cpcluster_common/src/lib.rs frames them; `Framing` shows that the peer reads the same frames).
use cpcluster.Prelude.{ℕ, zero, suc, String, Option, List, [], ◌∷◌, ◌++◌, Result, ok, err, io_error}
use cpcluster.Common.Protocol.{Bytes, NodeMessage}

-- `serde_json::to_vec` and `from_slice` at `NodeMessage`, and `String::from_utf8`.
pub record Wire : Type 0 where
  pub to_vec : NodeMessage → Bytes
  pub from_slice : Bytes → Option NodeMessage
  pub from_utf8 : Bytes → Option String

-- A stream at the level of frames: those that were sent, and how many more it takes before it
-- breaks.
pub record Socket : Type 0 where
  pub sent : List Bytes
  pub room : ℕ

-- One `write_length_prefixed`.
unfoldable pub send_frame : Bytes → Socket → Result (Unit {0}) × Socket
send_frame b s = elim s.room [
  | zero ↦ (err io_error, s)
  | suc r ↦ (ok tt, record { sent = s.sent ++ b ∷ []; room = r })
]
