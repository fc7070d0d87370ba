-- ===== src/Node/Tests.antt =====
-- Runs of the definitions of CPCluster_node, and its theorems at concrete inputs.
mod Tasks
mod Loop
mod Opening
mod Pipeline
use cpcluster.Prelude.{
  inl, ℕ, zero, suc, length, ◌+◌, ◌-◌, ◌*◌, ◌/◌, ◌≤◌, ◌<◌, ◌^◌, ◌%◌, ◌≢◌, ◌≡◌, ◌⊎◌, ◌++◌, refl,
  String, Bool, true, false, Option, none, some, List, [], ◌∷◌, arith, ok, err, io_error,
  if◌then◌else◌, str_eq, done, failed, returned, panicked, get_elem?, is_some,
}
use cpcluster.Prelude.Dict
use cpcluster.Prelude.Dict.{Dict, get}
use cpcluster.Prelude.Files.{Files, read}
use cpcluster.Common.Protocol.{
  Bytes, TaskResult, bytes, stored, error, response, store_data, retrieve_data, get_storage,
  get_global_ram, tcp, disk_write, disk_read, written, NodeMessage, task_result, assign_task,
  heartbeat, heartbeat_ack, get_connected_nodes,
}
use cpcluster.Common.Wire.{Wire, Socket, send_frame}
use cpcluster.Common.Config.{Config, default}
use cpcluster.Common.Execute.{Services}
use cpcluster.Node.Memory
use cpcluster.Node.Disk
use cpcluster.Node.Disk.{DiskStore, join}
use cpcluster.Node.Disk.Quota.{WithinQuota, total, store-WithinQuota}
use cpcluster.Node.Disk.Stored.{load-store, free-store_shrunk}
use cpcluster.Node.DirectorySize.{
  Entries, end, unreadable, file, folder, directory_size_sync, walk, scan, folders, folders_of,
}
use cpcluster.Node.DirectorySize.Total.{bytes_in, is_readable, directory_size_sync_total}
use cpcluster.Node.Ports.{Sockets, InternetPorts, bind, tcp_port, udp_socket}
use cpcluster.Node.Ports.Turns.{after, udp_socket-after}
use cpcluster.Node.Complex.{
  Complex, Library, Token, number, var, binary, unary, plus, times, real, eval_complex, run, step,
}
use cpcluster.Node.Complex.Postfix.{
  Expr, literal, unit_i, operate, postfix_onto, value, eval_complex-postfix, is_unknown,
  eval_complex_unknown,
}
use text.Mathlib.Text.{starts_with}

abbrev pub payload_a : Bytes
payload_a = 1 ∷ 2 ∷ 3 ∷ []

abbrev pub disk_a : DiskStore
disk_a = record {
  dir = "d";
  quota_bytes = 5;
  usage = 3;
  files = record { contents = ("d/a", payload_a) ∷ []; accepts = λ p. true; remains = λ p. none };
}

disk_runs :
    ((Disk.store "b" (9 ∷ 9 ∷ []) disk_a).0 ≡ ok tt)
    × ((Disk.store "b" (9 ∷ 9 ∷ 9 ∷ []) disk_a).0 ≡ err io_error)
    × ((Disk.store "a" (9 ∷ 9 ∷ 9 ∷ 9 ∷ []) disk_a).1.usage ≡ 4)
    × ((Disk.store "/d" (7 ∷ []) disk_a).1.files.contents
        ≡ ("d/a", payload_a) ∷ ("/d", 7 ∷ []) ∷ [])
    × (Disk.join "d" "/etc/x" ≡ "/etc/x")
unfolding Disk.store Disk.write_file Disk.load Disk.join get Dict.insert
disk_runs = (refl, refl, refl, refl, refl)

disk_a-WithinQuota : WithinQuota (λ p. starts_with p "d/") disk_a
unfolding total
disk_a-WithinQuota = record { counted = omega arith; bounded = omega arith; word = omega arith }

store-WithinQuota_example : WithinQuota (λ p. starts_with p "d/") (Disk.store "b" (9 ∷ []) disk_a).1
store-WithinQuota_example =
    store-WithinQuota (λ p. starts_with p "d/") disk_a "b" (9 ∷ []) disk_a-WithinQuota (omega arith)
      (inl refl)

load_a : Disk.load "a" disk_a ≡ some payload_a
unfolding Disk.load Disk.join get
load_a = refl

free-store_shrunk_example : Disk.free (Disk.store "a" [] disk_a).1 ≡ Disk.free disk_a
free-store_shrunk_example =
    free-store_shrunk disk_a "a" [] payload_a load_a (omega arith) (omega arith)

abbrev tree : Entries
tree = file 3 (folder (file 4 (folder (file 5 end) end)) (file 1 end))

tree_size :
    (directory_size_sync true tree ≡ ok 13)
    × (directory_size_sync true (folder unreadable end) ≡ err io_error)
    × (directory_size_sync false tree ≡ ok 0)
unfolding directory_size_sync walk scan folders folders_of
tree_size = (refl, refl, refl)

directory_size_sync_total_example : directory_size_sync true tree ≡ (
    if true then if is_readable tree then ok (bytes_in tree % 2 ^ 64) else err io_error else ok 0)
directory_size_sync_total_example = directory_size_sync_total true tree

abbrev pub sockets : Sockets
sockets = record {
  TcpListener = ℕ;
  UdpSocket = ℕ;
  bind_tcp = λ p. some p;
  bind_udp = λ p. some p;
  local_port = λ l. some l;
}

abbrev pub ports : InternetPorts sockets
ports = record { tcp = 5 ∷ []; udp = 7 ∷ 8 ∷ 9 ∷ []; tcp_idx = 0; udp_idx = 2 }

udp_nonempty : ports.udp ≢ []
udp_nonempty h = ground (arith, h)

-- Arithmetic on numbers in place of floating-point numbers.
abbrev pub library : Library
library = record {
  tokenize = λ s.
      if str_eq s "2*i" then done (number 2 ∷ binary times ∷ var "i" ∷ []) else done (var "x" ∷ []);
  to_rpn = λ ts. elim ts [
    | (var v ∷ rest) ↦ done (var v ∷ rest)
    | _ ↦ done (number 2 ∷ var "i" ∷ binary times ∷ [])
  ];
  add = λ a b. record { re = a.re + b.re; im = a.im + b.im };
  sub = λ a b. record { re = a.re - b.re; im = a.im - b.im };
  mul = λ a b. record { re = a.re * b.re - a.im * b.im; im = a.re * b.im + a.im * b.re };
  quotient = λ a b. a;
  powc = λ a b. a;
  neg = λ a. a;
  fmod = λ a b. a % b;
}

abbrev two_i : Expr
two_i = operate times (literal 2) unit_i

two_i_rpn : library.to_rpn (number 2 ∷ binary times ∷ var "i" ∷ []) ≡ done (postfix_onto two_i [])
unfolding postfix_onto
two_i_rpn = refl

eval_complex-postfix_example : eval_complex library "2*i" ≡ done (value library two_i)
eval_complex-postfix_example =
    eval_complex-postfix library "2*i" (number 2 ∷ binary times ∷ var "i" ∷ []) two_i refl two_i_rpn
