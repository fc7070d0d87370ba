-- ===== src/Node/Tests/Tasks.antt =====
-- Runs of the tasks of a node.
use cpcluster.Prelude.{
  ℕ, ◌≡◌, refl, true, false, none, some, [], ◌∷◌, arith, if◌then◌else◌, str_eq, done, failed,
  returned, panicked,
}
use cpcluster.Prelude.Dict
use cpcluster.Prelude.Dict.{Dict, get}
use cpcluster.Prelude.Files.{Files, read}
use cpcluster.Prelude.Text.{decimal}
use cpcluster.Common.Protocol.{
  Bytes, bytes, stored, error, response, store_data, retrieve_data, get_storage, get_global_ram,
  tcp, disk_write, written,
}
use cpcluster.Common.Execute.{Services}
use cpcluster.Node.Memory
use cpcluster.Node.Disk
use cpcluster.Node.Ports.{tcp_port}
use cpcluster.Node.Tasks.{
  Environment, WorkerState, execute_node_task, store_task, retrieve_task, ram_task, storage_task,
  next_tcp_port,
}
use cpcluster.Node.Tasks.Network.{NetworkCalls, tcp_task, connect_from}
use cpcluster.Node.Tasks.Paths.{PathCalls, write_task, read_task, checked_write, canonical_of}
use cpcluster.Node.Tasks.Confined.{write_task_outside}
use cpcluster.Node.Tasks.Replies.{retrieve_after_store}
use cpcluster.Node.Tests.{disk_a, payload_a, sockets, ports, library}
use text.Mathlib.Text.{starts_with}

abbrev pub network : NetworkCalls
network = record {
  sockets = sockets;
  TcpSocket = ℕ;
  TcpStream = ℕ;
  SocketAddr = ℕ;
  parse = λ s. if str_eq s "10.0.0.1:80" then some 80 else none;
  new_v4 = done 0;
  bind_socket = λ s p. true;
  connect_socket = λ s a. done a;
  connect = λ a. failed "refused";
  write_all = λ s b. done s;
  read_1024 = λ s. done (s ∷ []);
  bind_any_udp = done 3;
  send_to = λ s b a. done s;
  recv_1024 = λ s. done [];
}

-- A directory `s` in which every path is canonical.
abbrev pub paths : PathCalls
paths = record {
  storage_dir = "s";
  create_dir_all = λ p files. done files;
  canonicalize = λ files p. done p;
  exists = λ files p. true;
  opened = λ files p. p;
  parent = λ p. some "s";
  file_name = λ p. some "x";
  starts_with = λ p base. starts_with p base;
  message = λ e. "error";
}

abbrev services : Services
services = record {
  eval_str = λ e. done 2;
  Reply = ℕ;
  get = λ u. failed "offline";
  text = λ r. done "";
}

abbrev pub environment : Environment
environment = record {
  services = services;
  math = library;
  show_complex = λ c. "c";
  network = network;
  paths = paths;
  list_dir = λ d files. done (("a", 3) ∷ []);
}

abbrev files : Files Bytes
files = record { contents = ("s/x", payload_a) ∷ []; accepts = λ p. true; remains = λ p. none }

abbrev pub worker_a : WorkerState environment
worker_a = record {
  files = disk_a.files;
  memory = Memory.new;
  disk = some disk_a;
  internet = some ports;
}

unfoldable pub running : Unit {0}
unfolding execute_node_task store_task retrieve_task ram_task storage_task next_tcp_port tcp_port
    tcp_task connect_from write_task read_task checked_write canonical_of Memory.store Memory.load
    Memory.stats Disk.store Disk.write_file Disk.load Disk.free Disk.join decimal get Dict.insert
running = tt

worker_runs :
    ((execute_node_task environment get_storage worker_a).0
      ≡ returned (response "free: 2 bytes\na: 3 bytes\n"))
    × ((execute_node_task environment get_global_ram worker_a).0
        ≡ returned (response "No entries found\n"))
    × ((execute_node_task environment (tcp "10.0.0.1:80" []) worker_a).0
        ≡ returned (bytes (80 ∷ [])))
    × ((execute_node_task environment (tcp "localhost:80" []) worker_a).0 ≡ panicked)
    × ((execute_node_task environment (disk_write "/etc/x" []) worker_a).0
        ≡ returned (error "Invalid path"))
    × ((execute_node_task environment (disk_write "y" []) worker_a).0 ≡ returned written)
unfolding running
worker_runs = (refl, refl, refl, refl, refl, refl)

write_task_outside_example :
    read "/etc/x" (write_task paths "/etc/x" [] files).1 ≡ read "/etc/x" files
write_task_outside_example =
    write_task_outside paths (λ p q f c h. ground (arith, h)) "/etc/x" "s" "/etc/x" [] files files
      refl refl refl (λ f p r h. refl) (λ f p r name a b c d. refl)

-- In the storage directory `link` points to `/etc/y`, which is not there yet.
abbrev linked : PathCalls
linked = record paths {
  exists = λ files p. false;
  opened = λ files p. "/etc/y";
  file_name = λ p. some "link";
}

read_x : read_task paths "x" files ≡ bytes payload_a
unfolding running
read_x = refl

stored_b : (execute_node_task environment (store_data "b" (4 ∷ [])) worker_a).0 ≡ returned stored
unfolding running
stored_b = refl

retrieve_after_store_example :
    (execute_node_task environment
      (retrieve_data "b")
      (execute_node_task environment (store_data "b" (4 ∷ [])) worker_a).1).0
    ≡ returned (bytes (4 ∷ []))
retrieve_after_store_example = retrieve_after_store environment "b" (4 ∷ []) worker_a stored_b
