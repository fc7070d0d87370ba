-- ===== src/Master/Tests/Sessions.antt =====
-- Runs of sessions, synchronisations and saved states, and their theorems at concrete inputs.
use cpcluster.Prelude.{
  ◌++◌, ℕ, ◌+◌, ◌≡◌, refl, String, true, false, none, some, [], ◌∷◌, arith, ok, if◌then◌else◌, ◌==◌,
  eq_iff, count,
}
use cpcluster.Prelude.Dict
use cpcluster.Prelude.Dict.{Dict, get, contains_key}
use cpcluster.Prelude.Files.{Files}
use cpcluster.Prelude.Text.{trim}
use cpcluster.Common.Protocol.{master_sync, get_storage}
use cpcluster.Master.State.{PendingTask, MasterNode, Format, snapshot}
use cpcluster.Master.Connection.{Connection}
use cpcluster.Master.Merge.{PeerState}
use cpcluster.Master.Session.{
  Arrival, PeerFormat, serve_rest, handle_peer_connection, sync_with_peer, handle_connection,
}
use cpcluster.Master.Session.PeerSync.{Agree, sync-Agree}
use cpcluster.Master.Session.Leave.{broken_connection_loses}
use cpcluster.Master.Session.Results.{refusal, handle_connection_refuses}
use cpcluster.Master.Invariant.{held}
use cpcluster.Master.Dispatch.{is_active}
use cpcluster.Master.Tests.{
  first_byte, wire, sums, worker_node, for_any, busy, open_socket, at_busy, definitions,
  busy-IsSound,
}

broken_connection_loses_example :
    let after = (serve_rest wire "w1" [] at_busy).1.master in
    (count 55001 after.available_ports + held 55001 after.connected_nodes ≡ 0)
    × (contains_key "t1" after.pending_tasks ≡ false)
    × (is_active "t1" after.connected_nodes ≡ false)
    × (contains_key "t1" after.completed_tasks ≡ false)
unfolding Dict.get
broken_connection_loses_example =
    broken_connection_loses wire "w1" at_busy worker_node 55001 "t1" sums busy-IsSound refl refl
      refl refl refl

abbrev no_peers : PeerFormat
no_peers = record { to_vec = λ s. []; from_slice = λ b. none }

abbrev stranger : Arrival
stranger = record { payload = []; now = 5 }

handle_connection_refuses_example :
    let after = handle_connection wire no_peers "other" "c1" (stranger ∷ []) at_busy in
    (after.1.master ≡ busy) × (after ≡ refusal (some "secret") at_busy)
unfolding trim
handle_connection_refuses_example =
    handle_connection_refuses wire no_peers "other" "c1" stranger [] at_busy (
      (λ e. ground (arith, eq_iff "secret" "MASTER_SYNC")),
      (λ e. ground (arith, eq_iff "secret" "other")),
    )

abbrev idle : MasterNode
idle = record busy { connected_nodes = []; pending_tasks = ("t9", for_any sums) ∷ [] }

-- A format that tells the two states of the synchronisation apart by their pending tasks.
abbrev merged : PeerState
merged = record {
  connected_nodes = busy.connected_nodes;
  pending_tasks = ("t2", for_any sums) ∷ ("t3", for_any get_storage) ∷ ("t9", for_any sums) ∷ [];
  completed_tasks = [];
}

abbrev mine : PeerState
mine = record { connected_nodes = []; pending_tasks = idle.pending_tasks; completed_tasks = [] }

abbrev tag_of : Dict PendingTask → ℕ
tag_of (a ∷ b ∷ _) = 2
tag_of _ = 1

abbrev peers : PeerFormat
peers = record {
  to_vec = λ s. tag_of s.pending_tasks ∷ [];
  from_slice = λ b. if first_byte b == 2 then some merged else some mine;
}

abbrev at_idle : Connection
at_idle = record { master = idle; socket = open_socket }

sync-Agree_example :
    let request : Arrival = record { payload = 1 ∷ []; now = 5 } in
    let answered = handle_peer_connection wire peers (request ∷ []) at_busy in
    let synced = sync_with_peer wire peers (some (2 ∷ [])) at_idle in
    (answered.0 ≡ ok tt)
    × (answered.1.socket.sent ≡ (2 ∷ []) ∷ [])
    × (synced.0 ≡ ok tt)
    × (synced.1.socket.sent ≡ at_idle.socket.sent ++ master_sync ∷ (1 ∷ []) ∷ [])
    × Agree answered.1.master synced.1.master
unfolding definitions
sync-Agree_example = sync-Agree wire peers at_busy at_idle 5 8 7 refl refl refl refl

abbrev state_format : Format
state_format = record { to_string_pretty = λ s. some "state"; from_str = λ t. some (snapshot busy) }

abbrev files : Files String
files = record { contents = []; accepts = λ p. true; remains = λ p. none }
