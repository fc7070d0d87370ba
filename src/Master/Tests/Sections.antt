-- ===== src/Master/Tests/Sections.antt =====
-- Sections of the master at concrete inputs.
use cpcluster.Prelude.{◌≤◌, ◌≡◌, refl, [], ◌∷◌}
use cpcluster.Common.Config.{default}
use cpcluster.Master.Startup.{initial, port_range, range}
use cpcluster.Master.Sections.{Between, pops, Sections, stay, onward}
use cpcluster.Master.Sections.Ports.{started, uses, ports_between_locks}

-- The first port is in the hands of a task.
first_port : (initial default).available_ports ≡ 55001 ∷ range 55002 998
unfolding initial port_range range
first_port = refl

abbrev popped : Between
popped = record (started default) {
  master = record (initial default) { available_ports = range 55002 998 };
  ports = 55001 ∷ [];
}

popping : Sections (started default) popped
popping = onward (pops 55001 (range 55002 998) (started default) first_port) (stay popped)

ports_between_locks_example : uses 55001 popped ≤ 1
ports_between_locks_example = ports_between_locks default popped popping 55001
