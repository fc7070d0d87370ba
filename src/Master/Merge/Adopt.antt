-- ===== src/Master/Merge/Adopt.antt =====
-- What `merge_state` leaves in each table.
use cpcluster.Prelude.{◌≡◌, String, Option, none, some, [], ◌∷◌, arith}
use cpcluster.Prelude.Dict.{Dict, get, or_insert, get-or_insert}
use cpcluster.Master.State.{MasterNode}
use cpcluster.Master.Merge.{PeerState, adopt, merge_state}

-- `a`, or `b` where there is no `a`.
abbrev pub or_else {ℓ} : {V : Type ℓ} → Option V → Option V → Option V
or_else none b = b
or_else (some a) b = some a

pub get-adopt {ℓ} :
    {V : Type ℓ} (theirs ours : Dict V) (k : String)
    → get k (adopt theirs ours) ≡ or_else (get k ours) (get k theirs)
unfolding adopt get
get-adopt [] ours k = ground arith
get-adopt ((j, v) ∷ theirs) ours k =
    ground (arith, get-adopt theirs (or_insert j v ours) k, get-or_insert j k v ours)

-- At every key a merge keeps the master's own entry, and takes the peer's where it has none.
pub get-merge_state :
    (state : PeerState) (m : MasterNode) (k : String)
    → let merged = merge_state state m in
      (get k merged.connected_nodes
        ≡ or_else (get k m.connected_nodes) (get k state.connected_nodes))
      × (get k merged.pending_tasks ≡ or_else (get k m.pending_tasks) (get k state.pending_tasks))
      × (get k merged.completed_tasks
          ≡ or_else (get k m.completed_tasks) (get k state.completed_tasks))
unfolding merge_state
get-merge_state state m k = (
  get-adopt state.connected_nodes m.connected_nodes k,
  get-adopt state.pending_tasks m.pending_tasks k,
  get-adopt state.completed_tasks m.completed_tasks k,
)
