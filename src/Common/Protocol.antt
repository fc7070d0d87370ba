-- ===== src/Common/Protocol.antt =====
-- cpcluster_common/src/lib.rs: the roles, tasks, results and messages.
use cpcluster.Prelude.{ℕ, String, Bool, true, false, List, [], ◌∷◌, ◌≡◌, ◌↔◌, arith}

-- `Vec<u8>` and `&[u8]`
abbrev pub Bytes : Type 0
Bytes = List ℕ

-- An `f64` by its 64 bits; its arithmetic is a parameter where it is used.
abbrev pub F64 : Type 0
F64 = ℕ

pub data NodeRole : Type 0 where
  worker disk internet : NodeRole

-- The derived `PartialEq`.
abbrev pub role_eq : NodeRole → NodeRole → Bool
role_eq worker worker = true
role_eq disk disk = true
role_eq internet internet = true
role_eq _ _ = false

pub role_eq_iff : (a b : NodeRole) → (role_eq a b ≡ true) ↔ (a ≡ b)
role_eq_iff worker b = ground arith
role_eq_iff disk b = ground arith
role_eq_iff internet b = ground arith

pub record JoinInfo : Type 0 where
  pub token : String
  pub ip : String
  pub port : ℕ

pub data Task : Type 0 where
  compute : (expression : String) → Task
  http_request : (url : String) → Task
  tcp udp : (addr : String) (payload : Bytes) → Task
  complex_math : (expression : String) → Task
  store_data : (key : String) (payload : Bytes) → Task
  retrieve_data : (key : String) → Task
  disk_write : (path : String) (payload : Bytes) → Task
  disk_read : (path : String) → Task
  get_global_ram get_storage : Task

pub data TaskResult : Type 0 where
  number : F64 → TaskResult
  response : String → TaskResult
  bytes : Bytes → TaskResult
  stored written : TaskResult
  error : String → TaskResult

pub data NodeMessage : Type 0 where
  request_connection : (target_id : String) → NodeMessage
  connection_info : (target : String) (port : ℕ) → NodeMessage
  get_connected_nodes : NodeMessage
  connected_nodes : List String → NodeMessage
  submit_task : (id : String) (task : Task) → NodeMessage
  get_task_result : (id : String) → NodeMessage
  disconnect heartbeat heartbeat_ack : NodeMessage
  assign_task : (id : String) (task : Task) → NodeMessage
  task_result : (id : String) (result : TaskResult) → NodeMessage
  task_accepted : (id : String) → NodeMessage
  direct_message : String → NodeMessage
  register_role : NodeRole → NodeMessage

-- The byte strings b"OK", b"Invalid token" and b"MASTER_SYNC".
abbrev pub ok_frame : Bytes
ok_frame = b'O' ∷ b'K' ∷ []

abbrev pub invalid_token : Bytes
invalid_token =
    b'I' ∷ b'n' ∷ b'v' ∷ b'a' ∷ b'l' ∷ b'i' ∷ b'd' ∷ 0x20 ∷ b't' ∷ b'o' ∷ b'k' ∷ b'e' ∷ b'n' ∷ []

abbrev pub master_sync : Bytes
master_sync = b'M' ∷ b'A' ∷ b'S' ∷ b'T' ∷ b'E' ∷ b'R' ∷ b'_' ∷ b'S' ∷ b'Y' ∷ b'N' ∷ b'C' ∷ []
