-- ===== src/Common/Tests.antt =====
-- Runs of the definitions of cpcluster_common, and its theorems at concrete inputs.
mod Arguments
use cpcluster.Prelude.{
  ◌≤◌, ℕ, zero, suc, length, ap, ◌^◌, ◌≢◌, ◌≢◌, ◌≡◌, ◌↔◌, ◌++◌, refl, String, true, false, none,
  some, [], ◌∷◌, arith, done, failed, ok, err, io_error, if◌then◌else◌, str_eq,
}
use cpcluster.Prelude.Files.{Files}
use cpcluster.Prelude.Text.{trim}
use cpcluster.Common.Protocol.{Bytes, compute, get_storage, number, error}
use cpcluster.Common.Framing.{
  write_frames, Sink, write_all, read_exact, to_be_bytes, from_be_bytes, write_length_prefixed,
  read_length_prefixed, frame, frames, read_frames,
}
use cpcluster.Common.Framing.RoundTrip.{
  read-frame, frames_length, read_frames-write_frames, read-write_oversize,
}
use cpcluster.Common.Address.{v4, v6, is_local_addr, is_local_ip}
use cpcluster.Common.Address.Blocks.{InPrivateBlock, is_local_addr_iff}
use cpcluster.Common.Config.{Format, default, load, save}
use cpcluster.Common.Config.Reload.{load-save}
use cpcluster.Common.Execute.{Services, execute_task}

framing : Unit {0}
unfolding write_all read_exact to_be_bytes from_be_bytes write_length_prefixed read_length_prefixed
    frame frames read_frames
framing = tt

abbrev hello : Bytes
hello = 104 ∷ 105 ∷ []

abbrev sink : Sink
sink = record { sent = 7 ∷ []; room = 64 }

written_bytes :
    write_length_prefixed hello sink
    ≡ (ok tt, record { sent = 7 ∷ 0 ∷ 0 ∷ 0 ∷ 2 ∷ 104 ∷ 105 ∷ []; room = 58 })
unfolding framing
written_bytes = refl

no_room : (write_length_prefixed hello (record { sent = []; room = 5 })).0 ≡ err io_error
unfolding framing
no_room = refl

read-frame_example : read_length_prefixed (frame hello ++ 1 ∷ []) ≡ (ok hello, 1 ∷ [])
read-frame_example = read-frame hello (1 ∷ []) (omega arith)

room_99 : frames_length (hello ∷ [] ∷ []) ≤ 99
unfolding frames frame to_be_bytes
room_99 = omega arith

read_frames-write_frames_example :
    let written = write_frames (hello ∷ [] ∷ []) (record { sent = []; room = 99 }) in
    (written.0 ≡ ok tt)
    × (read_frames 2 (written.1.sent ++ 9 ∷ []) ≡ (ok (hello ∷ [] ∷ []), 9 ∷ []))
read_frames-write_frames_example =
    read_frames-write_frames (hello ∷ [] ∷ []) 99 (9 ∷ []) (omega arith) room_99

-- Not an `abbrev`: its length is known by a lemma, and it is never computed.
replicate : ℕ → ℕ → Bytes
replicate zero b = []
replicate (suc n) b = b ∷ replicate n b

length-replicate : (n b : ℕ) → length (replicate n b) ≡ n
unfolding replicate
length-replicate zero b = refl
length-replicate (suc n) b = ap suc (length-replicate n b)

read-write_oversize_example :
    let payload = replicate (2 ^ 32) 0 in
    let written = write_length_prefixed payload (record { sent = []; room = 2 ^ 33 }) in
    (written.0 ≡ ok tt) × ((read_length_prefixed (written.1.sent ++ [])).0 ≢ ok payload)
read-write_oversize_example =
    read-write_oversize (replicate (2 ^ 32) 0) [] (2 ^ 33)
      (omega (arith, length-replicate (2 ^ 32) 0)) (omega (arith, length-replicate (2 ^ 32) 0))

-- The unit tests of the crate, on parsed addresses.
local_tests :
    (is_local_addr (v4 10 1 2 3) ≡ true)
    × (is_local_addr (v4 172 16 0 1) ≡ true)
    × (is_local_addr (v4 192 168 5 6) ≡ true)
    × (is_local_addr (v4 127 0 0 1) ≡ true)
    × (is_local_addr (v4 8 8 8 8) ≡ false)
    × (is_local_addr (v6 0 0 0 0 0 0 0 1) ≡ true)
    × (is_local_addr (v6 0xfc00 0 0 0 0 0 0 1) ≡ true)
    × (is_local_addr (v6 0x2001 0x4860 0x4860 0 0 0 0 0x8888) ≡ false)
unfolding is_local_addr
local_tests = (refl, refl, refl, refl, refl, refl, refl, refl)

not_an_address : is_local_ip (λ s. none) "localhost" ≡ false
unfolding is_local_ip
not_an_address = refl

is_local_addr_iff_example : (is_local_addr (v4 172 31 0 1) ≡ true) ↔ InPrivateBlock (v4 172 31 0 1)
is_local_addr_iff_example = is_local_addr_iff (v4 172 31 0 1) (omega arith)

trimmed : trim "  MASTER_SYNC\n" ≡ "MASTER_SYNC"
unfolding trim
trimmed = refl

-- A format that knows the default configuration.
abbrev default_format : Format
default_format = record { to_string_pretty = λ c. "{}"; from_str = λ t. some default }

abbrev disk_files : Files String
disk_files = record { contents = ("a", "{}") ∷ []; accepts = λ p. true; remains = λ p. none }

abbrev services : Services
services = record {
  eval_str = λ e. if str_eq e "1+1" then done 2 else failed "bad";
  Reply = ℕ;
  get = λ u. failed "offline";
  text = λ r. done "";
}

executed :
    (execute_task services (compute "1+1") ≡ number 2)
    × (execute_task services get_storage ≡ error "Unsupported task")
unfolding execute_task
executed = (refl, refl)
