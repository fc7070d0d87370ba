-- ===== src/Master/Invariant/Measures.antt =====
-- How the operations on the table of nodes change the numbers of the invariant.
use cpcluster.Prelude.{
  List, none, some, Option, count, count-append, ℕ, ◌+◌, ◌≤◌, ◌≡◌, refl, String, false, [], ◌∷◌,
  ◌==◌, arith, str_eq,
}
use cpcluster.Prelude.Dict
use cpcluster.Prelude.Dict.{Dict, get-insert, get-remove}
use cpcluster.Common.Protocol.{Task}
use cpcluster.Master.State.{NodeInfo}
use cpcluster.Master.Ports.{give_back_port, port_of, without_port}
use cpcluster.Master.Dispatch.{is_active, add_active, remove_active}
use cpcluster.Master.Session.{set_port, new_node}
use cpcluster.Master.Invariant.{one, has_port, held, runs}

module _ (p : ℕ) (k : String) where
  pub held-remove-le : (nodes : Dict NodeInfo) → held p (Dict.remove k nodes) ≤ held p nodes
  unfolding held Dict.remove
  held-remove-le [] = omega arith
  held-remove-le ((a, n) ∷ nodes) = ground (arith, held-remove-le nodes)

  pub held-and_modify_same :
      (f : NodeInfo → NodeInfo) (nodes : Dict NodeInfo)
      → ((n : NodeInfo) → (f n).port ≡ n.port)
      → held p (Dict.and_modify k f nodes) ≡ held p nodes
  unfolding held Dict.and_modify
  held-and_modify_same f [] h = refl
  held-and_modify_same f ((a, n) ∷ nodes) h = ground (arith, h n, held-and_modify_same f nodes h)

  pub held-set_port-le :
      (q : ℕ) (nodes : Dict NodeInfo)
      → held p (Dict.and_modify k (set_port q) nodes) ≤ held p nodes + one (q == p)
  unfolding held Dict.and_modify
  held-set_port-le q [] = omega arith
  held-set_port-le q ((a, n) ∷ nodes) = ground (arith, held-set_port-le q nodes)

  pub held-without_port :
      (nodes : Dict NodeInfo)
      → held p (Dict.and_modify k without_port nodes)
          + one (has_port p (port_of (Dict.get k nodes)))
        ≡ held p nodes
  unfolding held Dict.and_modify Dict.get
  held-without_port [] = omega arith
  held-without_port ((a, n) ∷ nodes) = ground (arith, held-without_port nodes)

  pub held-insert_new-le :
      (now : ℕ) (addr : String) (nodes : Dict NodeInfo)
      → held p (Dict.insert k (new_node addr now) nodes) ≤ held p nodes
  unfolding held Dict.insert
  held-insert_new-le now addr [] = omega arith
  held-insert_new-le now addr ((a, n) ∷ nodes) = ground (arith, held-insert_new-le now addr nodes)

module _ (id k : String) where
  pub runs-remove-le : (nodes : Dict NodeInfo) → runs id (Dict.remove k nodes) ≤ runs id nodes
  unfolding runs Dict.remove
  runs-remove-le [] = omega arith
  runs-remove-le ((a, n) ∷ nodes) = ground (arith, runs-remove-le nodes)

  pub runs-and_modify_same :
      (f : NodeInfo → NodeInfo) (nodes : Dict NodeInfo)
      → ((n : NodeInfo) → (f n).active_tasks ≡ n.active_tasks)
      → runs id (Dict.and_modify k f nodes) ≡ runs id nodes
  unfolding runs Dict.and_modify
  runs-and_modify_same f [] h = refl
  runs-and_modify_same f ((a, n) ∷ nodes) h = ground (arith, h n, runs-and_modify_same f nodes h)

  pub runs-add_active-le :
      (j : String) (task : Task) (nodes : Dict NodeInfo)
      → runs id (Dict.and_modify k (add_active j task) nodes) ≤ runs id nodes + one (str_eq j id)
  unfolding runs Dict.and_modify
  runs-add_active-le j task [] = omega arith
  runs-add_active-le j task ((a, n) ∷ nodes) =
      ground (arith, get-insert j id task n.active_tasks, runs-add_active-le j task nodes)

  pub runs-remove_active-le :
      (j : String) (nodes : Dict NodeInfo)
      → runs id (Dict.and_modify k (remove_active j) nodes) ≤ runs id nodes
  unfolding runs Dict.and_modify
  runs-remove_active-le j [] = omega arith
  runs-remove_active-le j ((a, n) ∷ nodes) =
      ground (arith, get-remove j id n.active_tasks, runs-remove_active-le j nodes)

  pub runs-insert_new-le :
      (now : ℕ) (addr : String) (nodes : Dict NodeInfo)
      → runs id (Dict.insert k (new_node addr now) nodes) ≤ runs id nodes
  unfolding runs Dict.insert Dict.get
  runs-insert_new-le now addr [] = omega arith
  runs-insert_new-le now addr ((a, n) ∷ nodes) = ground (arith, runs-insert_new-le now addr nodes)

pub runs_inactive :
    (id : String) (nodes : Dict NodeInfo) → is_active id nodes ≡ false → runs id nodes ≡ 0
unfolding runs
runs_inactive id [] h = refl
runs_inactive id ((a, n) ∷ nodes) h = ground (arith, runs_inactive id nodes)

pub count-give_back_port :
    (p : ℕ) (o : Option ℕ) (ports : List ℕ)
    → count p (give_back_port o ports) ≡ count p ports + one (has_port p o)
count-give_back_port p none ports = omega arith
count-give_back_port p (some q) ports = ground (arith, count-append p ports (q ∷ []))
