-- ===== src/Master/Startup.antt =====
-- CPCluster_masterNode/src/lib.rs: the master that `run` starts with.
use cpcluster.Prelude.{ℕ, zero, suc, ◌+◌, ◌-◌, List, [], ◌∷◌}
use cpcluster.Common.Config.{Config}
use cpcluster.Master.State.{MasterNode}

-- `lo..` for so many numbers.
unfoldable pub range : ℕ → ℕ → List ℕ
range lo zero = []
range lo (suc n) = lo ∷ range (suc lo) n

-- `(config.min_port..=config.max_port).collect()`, which is empty where the bounds are swapped.
unfoldable pub port_range : Config → List ℕ
port_range config = range config.min_port (config.max_port + 1 - config.min_port)

unfoldable pub initial : Config → MasterNode
initial config = record {
  connected_nodes = [];
  available_ports = port_range config;
  failover_timeout_ms = config.failover_timeout_ms;
  pending_tasks = [];
  completed_tasks = [];
  state_file = config.state_file;
  spawned_saves = 0;
}
