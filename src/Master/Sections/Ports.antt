-- ===== src/Master/Sections/Ports.antt =====
-- Ports between two locks.
use cpcluster.Prelude.{
  ℕ, ◌+◌, ◌≤◌, ◌≡◌, refl, none, some, List, [], ◌∷◌, ◌++◌, ◌==◌, arith, count, count-append, Option,
}
use cpcluster.Prelude.Dict.{get}
use cpcluster.Common.Config.{Config}
use cpcluster.Master.Startup.{initial}
use cpcluster.Master.Cluster.Reachable.{initial-IsSound}
use cpcluster.Master.Ports.{port_of}
use cpcluster.Master.Dispatch.{take_next, assign, add_active, remove_active}
use cpcluster.Master.Session.{set_role, beat}
use cpcluster.Master.Invariant.{one, has_port, held}
use cpcluster.Master.Invariant.Measures.{
  held-remove-le, held-and_modify_same, held-set_port-le, held-without_port, held-insert_new-le,
}
use cpcluster.Master.State.{spawn_save_state}
use cpcluster.Master.Sections.{
  Between, hand, Section, saves, at_rest, enters, registers, beats, pops, records, takes_port,
  gives_back, leaves, finds_dead, looks_up, stops, removes_dead, requeues, submits, gives_up, takes,
  assigns, delivers, puts_back, unassigns, ends_active, ends_pending, completes, fetches, Sections,
  stay, onward,
}

-- How often the port `p` is free, held by a node, or in the hands of a task.
abbrev pub uses : ℕ → Between → ℕ
uses p b = count p b.master.available_ports + held p b.master.connected_nodes + count p b.ports

count-hand :
    (p : ℕ) (o : Option ℕ) (ports : List ℕ)
    → count p (hand o ports) ≡ count p ports + one (has_port p o)
count-hand p none ports = omega arith
count-hand p (some q) ports = ground arith

count_single : (p q : ℕ) → count p (q ∷ []) ≡ one (q == p)
count_single p q = ground arith

-- One port out of the middle of a list.
count_middle :
    (p q : ℕ) (before after ports : List ℕ)
    → ports ≡ before ++ q ∷ after
    → count p (before ++ after) + one (q == p) ≡ count p ports
count_middle p q before after ports e =
    rw e (ground (arith, count-append p before after, count-append p before (q ∷ after)))

-- No section makes a port out of nothing.
uses-Section-le : (p : ℕ) {a b : Between} → Section a b → uses p b ≤ uses p a
unfolding take_next assign spawn_save_state
uses-Section-le p (saves b) = omega arith
uses-Section-le p (enters addr now b) =
    omega (arith, held-insert_new-le p addr now addr b.master.connected_nodes)
uses-Section-le p (registers addr role b) =
    omega (arith, held-and_modify_same p addr (set_role role) b.master.connected_nodes (λ n. refl))
uses-Section-le p (beats addr now b) =
    omega (arith, held-and_modify_same p addr (beat now) b.master.connected_nodes (λ n. refl))
uses-Section-le p (pops q rest b e) = rw e (ground arith)
uses-Section-le p (records addr q before after b e) = omega (
  arith,
  count_middle p q before after b.ports e,
  held-set_port-le p addr q b.master.connected_nodes,
)
uses-Section-le p (takes_port addr b) = omega (
  arith,
  held-without_port p addr b.master.connected_nodes,
  count-hand p (port_of (get addr b.master.connected_nodes)) b.ports,
)
uses-Section-le p (gives_back q before after b e) = omega (
  arith,
  count_middle p q before after b.ports e,
  count-append p b.master.available_ports (q ∷ []),
  count_single p q,
)
uses-Section-le p (leaves addr b) = omega (arith, held-remove-le p addr b.master.connected_nodes)
uses-Section-le p (removes_dead addr before after b e) =
    omega (arith, held-remove-le p addr b.master.connected_nodes)
uses-Section-le p (assigns f before after b e) = omega (
  arith,
  held-and_modify_same p f.addr (add_active f.id f.pending.task) b.master.connected_nodes
      (λ n. refl),
)
uses-Section-le p (unassigns f before after b e) =
    omega (
      arith,
      held-and_modify_same p f.addr (remove_active f.id) b.master.connected_nodes (λ n. refl),
    )
uses-Section-le p (ends_active addr id b) =
    omega
      (arith, held-and_modify_same p addr (remove_active id) b.master.connected_nodes (λ n. refl))
uses-Section-le p (requeues tasks before after b e) = omega arith
uses-Section-le p (submits id q b) = omega arith
uses-Section-le p (gives_up id b) = omega arith
uses-Section-le p (takes addr id role q before after b w e) = omega arith
uses-Section-le p (looks_up addr role b e) = omega arith
uses-Section-le p (stops d before after b e) = omega arith
uses-Section-le p (finds_dead now b) = omega arith
uses-Section-le p (delivers f before after b e) = omega arith
uses-Section-le p (puts_back f before after b e) = omega arith
uses-Section-le p (ends_pending id b) = omega arith
uses-Section-le p (completes id result b) = omega arith
uses-Section-le p (fetches id b) = omega arith

uses-Sections-le : (p : ℕ) {a b : Between} → Sections a b → uses p b ≤ uses p a
uses-Sections-le p (stay b) = omega arith
uses-Sections-le p (onward k s) = omega (arith, uses-Section-le p k, uses-Sections-le p s)

-- A master that has just started, and no task with anything in hand.
abbrev pub started : Config → Between
started config = at_rest (initial config)

-- From the fresh tables of `run`, at whatever moment between two locks, and in whatever order the
-- sections of the handlers, the removals of dead nodes and the shell have come: no port is twice among
-- the free ones, held by nodes and in the hands of tasks together.
pub ports_between_locks :
    (config : Config) (b : Between) → Sections (started config) b → (p : ℕ) → uses p b ≤ 1
ports_between_locks config b s p =
    omega (arith, uses-Sections-le p s, (initial-IsSound config).ports p)
