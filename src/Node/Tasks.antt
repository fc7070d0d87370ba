-- ===== src/Node/Tasks.antt =====
-- CPCluster_node/src/lib.rs: `execute_node_task`. The network and the path functions of the operating
-- system are parameters; the files are a table that the disk store shares.
pub mod Network
pub mod Paths
pub mod Confined
pub mod Replies
use Prim.Native.String
use cpcluster.Prelude.{
  ℕ, String, Option, none, some, List, [], ◌∷◌, Result, ok, err, Error, Outcome, done, failed, Ran,
  returned, panicked,
}
use cpcluster.Prelude.Files.{Files}
use cpcluster.Prelude.Text.{decimal}
use cpcluster.Common.Protocol.{
  Bytes, Task, compute, http_request, tcp, udp, complex_math, store_data, retrieve_data, disk_write,
  disk_read, get_global_ram, get_storage, TaskResult, response, bytes, stored, error,
}
use cpcluster.Common.Execute.{Services, execute_task}
use cpcluster.Node.Memory.{MemoryStore}
use cpcluster.Node.Memory
use cpcluster.Node.Disk.{DiskStore, free}
use cpcluster.Node.Disk
use cpcluster.Node.Ports.{InternetPorts, tcp_port, udp_socket}
use cpcluster.Node.Complex.{Complex, Library, eval_complex}
use Network.{NetworkCalls, tcp_task, udp_task}
use Paths.{PathCalls, write_task, read_task}

-- The libraries and the operating system.
pub record Environment : Type 1 where
  pub services : Services
  pub math : Library
  pub show_complex : Complex → String
  pub network : NetworkCalls
  pub paths : PathCalls
  -- `read_dir` of the directory of a store, with the sizes of its files.
  pub list_dir : String → Files Bytes → Outcome (List (String × ℕ))

abbrev pub show_entries : List (String × ℕ) → String
show_entries [] = ""
show_entries ((id, size) ∷ rest) =
    String.◌++◌ id
      (String.◌++◌ ": " (String.◌++◌ (decimal size) (String.◌++◌ " bytes\n" (show_entries rest))))

abbrev pub entries_or_none : List (String × ℕ) → String
entries_or_none [] = "No entries found\n"
entries_or_none (e ∷ rest) = show_entries (e ∷ rest)

abbrev pub stored_or_error : (Error → String) → Result (Unit {0}) → TaskResult
stored_or_error message (ok u) = stored
stored_or_error message (err e) = error (message e)

abbrev pub found_or_error : Option Bytes → TaskResult
found_or_error none = error "Key not found"
found_or_error (some b) = bytes b

module _ (env : Environment) where
  open env use {services, math, show_complex, network, paths, list_dir}

  -- What a task is executed on. The file system is kept here, and lent to the disk store.
  pub record WorkerState : Type 1 where
    pub files : Files Bytes
    pub memory : MemoryStore
    pub disk : Option DiskStore
    pub internet : Option (InternetPorts network.sockets)

  abbrev pub lend : WorkerState → DiskStore → DiskStore
  lend w d = record d { files = w.files }

  abbrev pub complex_result : Outcome Complex → TaskResult
  complex_result (done c) = response (show_complex c)
  complex_result (failed e) = error e

  unfoldable pub store_task : String → Bytes → WorkerState → TaskResult × WorkerState
  store_task key payload w = elim w.disk [
    | none ↦ (stored, record w { memory = Memory.store key payload w.memory })
    | some d ↦
        let after = Disk.store key payload (lend w d) in
        (
          stored_or_error paths.message after.0,
          record w { disk = some after.1; files = after.1.files },
        )
  ]

  unfoldable pub retrieve_task : String → WorkerState → TaskResult
  retrieve_task key w = elim w.disk [
    | none ↦ found_or_error (Memory.load key w.memory)
    | some d ↦ found_or_error (Disk.load key (lend w d))
  ]

  unfoldable pub ram_task : WorkerState → TaskResult
  ram_task w = response (entries_or_none (Memory.stats w.memory))

  abbrev pub storage_report : ℕ → Outcome (List (String × ℕ)) → TaskResult
  storage_report left (failed e) = error e
  storage_report left (done entries) = response (
      String.◌++◌ "free: "
        (String.◌++◌ (decimal left) (String.◌++◌ " bytes\n" (entries_or_none entries))))

  unfoldable pub storage_task : WorkerState → TaskResult
  storage_task w = elim w.disk [
    | none ↦ error "No disk store configured"
    | some d ↦ storage_report (free d) (list_dir d.dir w.files)
  ]

  -- `internet.and_then(|i| i.tcp_port())`, which moves the counter on.
  unfoldable pub next_tcp_port : WorkerState → Option ℕ × WorkerState
  next_tcp_port w = elim w.internet [
    | none ↦ (none, w)
    | some i ↦
        let after = tcp_port network.sockets i in (after.0, record w { internet = some after.1 })
  ]

  unfoldable pub next_udp_socket : WorkerState → Option network.sockets.UdpSocket × WorkerState
  next_udp_socket w = elim w.internet [
    | none ↦ (none, w)
    | some i ↦
        let after = udp_socket network.sockets i in (after.0, record w { internet = some after.1 })
  ]

  unfoldable pub execute_node_task : Task → WorkerState → Ran TaskResult × WorkerState
  execute_node_task (compute expression) w =
      (returned (execute_task services (compute expression)), w)
  execute_node_task (http_request url) w = (returned (execute_task services (http_request url)), w)
  execute_node_task (tcp addr payload) w =
      let port = next_tcp_port w in (tcp_task network port.0 addr payload, port.1)
  execute_node_task (udp addr payload) w =
      let sock = next_udp_socket w in (returned (udp_task network sock.0 addr payload), sock.1)
  execute_node_task (complex_math expression) w =
      (returned (complex_result (eval_complex math expression)), w)
  execute_node_task (store_data key payload) w =
      let after = store_task key payload w in (returned after.0, after.1)
  execute_node_task (retrieve_data key) w = (returned (retrieve_task key w), w)
  execute_node_task (disk_write path payload) w =
      let after = write_task paths path payload w.files in (after.0, record w { files = after.1 })
  execute_node_task (disk_read path) w = (returned (read_task paths path w.files), w)
  execute_node_task get_global_ram w = (returned (ram_task w), w)
  execute_node_task get_storage w = (returned (storage_task w), w)
