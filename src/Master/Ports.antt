-- ===== src/Master/Ports.antt =====
-- CPCluster_masterNode/src/lib.rs: `allocate_port` and `release_port`.
use cpcluster.Prelude.{ℕ, String, Option, none, some, List, [], ◌∷◌, ◌++◌}
use cpcluster.Prelude.Dict
use cpcluster.Master.State.{NodeInfo, MasterNode, spawn_save_state}

-- `ports.pop_front()`, and a save if there was one.
unfoldable pub allocate_port : MasterNode → Option ℕ × MasterNode
unfolding spawn_save_state
allocate_port m = elim m.available_ports [
  | [] ↦ (none, m)
  | port ∷ rest ↦ (some port, spawn_save_state (record m { available_ports = rest }))
]

-- `info.port`, of a node that may be missing.
abbrev pub port_of : Option NodeInfo → Option ℕ
port_of none = none
port_of (some info) = info.port

-- `info.port.take()` leaves none behind.
abbrev pub without_port : NodeInfo → NodeInfo
without_port info = record info { port = none }

abbrev pub give_back_port : Option ℕ → List ℕ → List ℕ
give_back_port none ports = ports
give_back_port (some p) ports = ports ++ p ∷ []

unfoldable pub release_port : String → MasterNode → MasterNode
unfolding spawn_save_state
release_port addr m = spawn_save_state (record m {
  connected_nodes = Dict.and_modify addr without_port m.connected_nodes;
  available_ports = give_back_port (port_of (Dict.get addr m.connected_nodes)) m.available_ports;
})
