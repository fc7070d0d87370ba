-- ===== src/Common/Framing/RoundTrip.antt =====
-- What the reader makes of the frames that the writer sends.
use mathlib.Core.List.{append_assoc, append-nil}
use cpcluster.Prelude.{
  ℕ, ◌+◌, ◌-◌, ◌%◌, ◌^◌, ◌≤◌, ◌<◌, ◌≡◌, ◌≢◌, refl, ap, sym, ◌∙◌, [], ◌∷◌, ◌++◌, List, suc, length,
  take, ok, err, io_error, arith, length-append, take-append, drop-append, All, length-take,
}
use cpcluster.Common.Protocol.{Bytes}
use cpcluster.Common.Framing.{
  Sink, write_all, read_exact, to_be_bytes, from_be_bytes, write_length_prefixed,
  read_length_prefixed, frame, frames, write_frames, read_frames,
}

length-to_be_bytes : (n : ℕ) → length (to_be_bytes n) ≡ 4
unfolding to_be_bytes
length-to_be_bytes n = refl

from_be_bytes-to_be_bytes : (n : ℕ) → n < 2 ^ 32 → from_be_bytes (to_be_bytes n) ≡ n
unfolding to_be_bytes from_be_bytes
from_be_bytes-to_be_bytes n h = omega arith

-- The buffer is filled with what comes first, whatever stands behind it.
read_exact-append : (n : ℕ) (xs ys : Bytes) → length xs ≡ n → read_exact n (xs ++ ys) ≡ (ok xs, ys)
unfolding read_exact
read_exact-append n xs ys e =
    rw (← e) (ground (arith, length-append xs ys, take-append xs ys, drop-append xs ys))

read_exact_short : (n : ℕ) (s : Bytes) → length s < n → read_exact n s ≡ (err io_error, [])
unfolding read_exact
read_exact_short n s h = ground arith

read_exact-length : (n : ℕ) (s b : Bytes) → (read_exact n s).0 ≡ ok b → length b ≡ n
unfolding read_exact
read_exact-length n s b h = ground (arith, length-take n s)

-- The reader of any stream that begins with a header.
read-header :
    (n : ℕ) (s : Bytes) → n < 2 ^ 32 → read_length_prefixed (to_be_bytes n ++ s) ≡ read_exact n s
unfolding read_length_prefixed
read-header n s h =
    rw (read_exact-append 4 (to_be_bytes n) s (length-to_be_bytes n), from_be_bytes-to_be_bytes n h)

-- A frame of less than 4 GiB is read back whole, and the rest of the stream is left.
pub read-frame :
    (payload rest : Bytes)
    → length payload < 2 ^ 32
    → read_length_prefixed (frame payload ++ rest) ≡ (ok payload, rest)
unfolding frame
read-frame payload rest h =
    rw append_assoc (read-header _ _ (omega arith) ∙ read_exact-append _ payload rest (omega arith))

-- A frame cut short is an error, and never another message.
read-take-frame_body :
    (payload : Bytes) (k : ℕ)
    → length payload < 2 ^ 32
    → k < length payload
    → read_length_prefixed (to_be_bytes (length payload % 2 ^ 32) ++ take k payload)
      ≡ (err io_error, [])
read-take-frame_body payload k h lt =
    read-header _ _ (omega arith) ∙ read_exact_short _ _ (omega (arith, length-take k payload))

read_short : (s : Bytes) → length s < 4 → read_length_prefixed s ≡ (err io_error, [])
unfolding read_length_prefixed
read_short s h = rw (read_exact_short 4 s h)

pub read-take-frame :
    (payload : Bytes) (k : ℕ)
    → length payload < 2 ^ 32
    → k < length (frame payload)
    → read_length_prefixed (take k (frame payload)) ≡ (err io_error, [])
unfolding frame to_be_bytes
read-take-frame payload (suc (suc (suc (suc k)))) h lt =
    unfold to_be_bytes in read-take-frame_body payload k h (omega arith)
read-take-frame payload k h lt = read_short _ (omega arith)

read_frames-frames :
    (bs : List Bytes) (rest : Bytes)
    → All (λ b. length b < 2 ^ 32) bs
    → read_frames (length bs) (frames bs ++ rest) ≡ (ok bs, rest)
unfolding frames read_frames
read_frames-frames [] rest h = refl
read_frames-frames (b ∷ bs) rest h = rw (
  append_assoc,
  read-frame b (frames bs ++ rest) h.0,
  read_frames,
  read_frames-frames bs rest h.1,
)

-- With room for it the writer sends one frame.
pub write-frame :
    (payload : Bytes) (s : Sink)
    → 4 + length payload ≤ s.room
    → write_length_prefixed payload s
      ≡ (ok tt, record { sent = s.sent ++ frame payload; room = s.room - (4 + length payload) })
unfolding write_length_prefixed frame write_all
write-frame payload s h = ground (
  arith,
  length-to_be_bytes (length payload % 2 ^ 32),
  append_assoc s.sent (to_be_bytes (length payload % 2 ^ 32)) payload,
)

read-frame_oversize :
    (payload rest : Bytes)
    → 2 ^ 32 ≤ length payload
    → (read_length_prefixed (frame payload ++ rest)).0 ≢ ok payload
unfolding frame
read-frame_oversize payload rest h e =
    absurd (omega (arith, read_exact-length _ _ payload (read-oversize payload rest ∙ e)))
  where
    read-oversize :
        (payload rest : Bytes)
        → (read_exact (length payload % 2 ^ 32) (payload ++ rest)).0
          ≡ (read_length_prefixed ((to_be_bytes (length payload % 2 ^ 32) ++ payload) ++ rest)).0
    read-oversize payload rest =
        rw append_assoc (ap (λ r. r.0) (sym (read-header _ _ (omega arith))))

-- What one frame takes of the room.
abbrev pub frames_length : List Bytes → ℕ
frames_length bs = length (frames bs)

length-frame : (payload : Bytes) → length (frame payload) ≡ 4 + length payload
unfolding frame
length-frame payload = ground (
  arith,
  length-to_be_bytes (length payload % 2 ^ 32),
  length-append (to_be_bytes (length payload % 2 ^ 32)) payload,
)

write_frames_lem :
    (bs : List Bytes) (s : Sink)
    → frames_length bs ≤ s.room
    → ((write_frames bs s).0 ≡ ok tt) × ((write_frames bs s).1.sent ≡ s.sent ++ frames bs)
unfolding frames write_frames
write_frames_lem [] s h = (refl, sym (append-nil s.sent))
write_frames_lem (b ∷ bs) s h =
    let room : 4 + length b + frames_length bs ≤ s.room =
      omega (arith, h, length-frame b, length-append (frame b) (frames bs)) in
    let sent : Sink = record { sent = s.sent ++ frame b; room = s.room - (4 + length b) } in
    let rest = write_frames_lem bs sent (omega (arith, room)) in
    rw (write-frame b s (omega (arith, room)))
      (rest.0, rest.1 ∙ append_assoc s.sent (frame b) (frames bs))

-- Payloads of less than 4 GiB that are written one after the other, to a stream with room for them and
-- four bytes each, are read one after the other by as many reads of what was sent, and what comes after
-- them is left.
pub read_frames-write_frames :
    (bs : List Bytes) (room : ℕ) (rest : Bytes)
    → All (λ b. length b < 2 ^ 32) bs
    → frames_length bs ≤ room
    → let written = write_frames bs (record { sent = []; room = room }) in
      (written.0 ≡ ok tt) × (read_frames (length bs) (written.1.sent ++ rest) ≡ (ok bs, rest))
read_frames-write_frames bs room rest small fits =
    let written = write_frames_lem bs (record { sent = []; room = room }) fits in
    (written.0, rw written.1 (read_frames-frames bs rest small))

-- A payload of 4 GiB or more is written to a stream with room for it without an error, but announced
-- with its length modulo 2 ^ 32: what was sent, whatever comes after it, is not read as that payload.
pub read-write_oversize :
    (payload rest : Bytes) (room : ℕ)
    → 2 ^ 32 ≤ length payload
    → 4 + length payload ≤ room
    → let written = write_length_prefixed payload (record { sent = []; room = room }) in
      (written.0 ≡ ok tt) × ((read_length_prefixed (written.1.sent ++ rest)).0 ≢ ok payload)
read-write_oversize payload rest room large fits =
    rw (write-frame payload (record { sent = []; room = room }) fits)
      (refl, read-frame_oversize payload rest large)
