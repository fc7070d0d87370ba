-- ===== src/Master/Session/PeerSync.antt =====
-- A synchronisation of two masters, both sides of it.
use mathlib.Core.List.{append_assoc}
use cpcluster.Prelude.{
  ℕ, suc, ◌≡◌, refl, String, Option, none, some, [], ◌∷◌, ◌++◌, arith, ok, is_some,
}
use cpcluster.Prelude.Dict.{Dict, get, contains_key}
use cpcluster.Common.Protocol.{Bytes, master_sync}
use cpcluster.Common.Wire.{Wire, send_frame}
use cpcluster.Master.State.{MasterNode}
use cpcluster.Master.Connection.{Connection, send}
use cpcluster.Master.Merge.{PeerState, collect_state, merge_state, adopt}
use cpcluster.Master.Merge.Adopt.{or_else, get-adopt}
use cpcluster.Master.Session.{Arrival, PeerFormat, handle_peer_connection, sync_with_peer}

-- The two tables have the same keys.
abbrev pub SameKeys {ℓ} : {V : Type ℓ} → Dict V → Dict V → Type 0
SameKeys a b = (k : String) → contains_key k a ≡ contains_key k b

-- The masters know of the same nodes and the same tasks.
pub record Agree (a b : MasterNode) : Type 0 where
  pub nodes : SameKeys a.connected_nodes b.connected_nodes
  pub pending : SameKeys a.pending_tasks b.pending_tasks
  pub completed : SameKeys a.completed_tasks b.completed_tasks

is_some-or_else {ℓ} :
    {V : Type ℓ} (a b : Option V) → is_some (or_else a b) ≡ is_some (or_else b (or_else a b))
is_some-or_else none none = refl
is_some-or_else none (some b) = refl
is_some-or_else (some a) none = refl
is_some-or_else (some a) (some b) = refl

SameKeys-adopt {ℓ} : {V : Type ℓ} (a b : Dict V) → SameKeys (adopt b a) (adopt (adopt b a) b)
SameKeys-adopt a b k =
    rw (get-adopt (adopt b a) b k, get-adopt b a k) (is_some-or_else (get k a) (get k b))

merge-Agree :
    (a b : MasterNode)
    → Agree
        (merge_state (collect_state b) a)
        (merge_state (collect_state (merge_state (collect_state b) a)) b)
unfolding merge_state collect_state
merge-Agree a b = record {
  nodes = SameKeys-adopt a.connected_nodes b.connected_nodes;
  pending = SameKeys-adopt a.pending_tasks b.pending_tasks;
  completed = SameKeys-adopt a.completed_tasks b.completed_tasks;
}

module _ (wire : Wire) (peers : PeerFormat) where
  -- The master that answers merges first, and sends what it has then.
  handle_peer_connection_lem :
      (a : Connection) (request : Arrival) (state : PeerState) (r : ℕ)
      → peers.from_slice request.payload ≡ some state
      → a.socket.room ≡ suc r
      → handle_peer_connection wire peers (request ∷ []) a ≡ (
        ok tt,
        record {
          master = merge_state state a.master;
          socket = record {
            sent = a.socket.sent ++ peers.to_vec (collect_state (merge_state state a.master)) ∷ [];
            room = r;
          };
        },
      )
  unfolding handle_peer_connection send send_frame
  handle_peer_connection_lem a request state r e ra = ground arith

  sync_with_peer_lem :
      (b : Connection) (reply : Bytes) (state : PeerState) (r : ℕ)
      → peers.from_slice reply ≡ some state
      → b.socket.room ≡ suc (suc r)
      → ((sync_with_peer wire peers (some reply) b).0 ≡ ok tt)
        × ((sync_with_peer wire peers (some reply) b).1.master ≡ merge_state state b.master)
        × ((sync_with_peer wire peers (some reply) b).1.socket.sent
            ≡ b.socket.sent ++ master_sync ∷ peers.to_vec (collect_state b.master) ∷ [])
  unfolding sync_with_peer send send_frame
  sync_with_peer_lem b reply state r e rb = ground (
    arith,
    append_assoc b.socket.sent (master_sync ∷ []) (peers.to_vec (collect_state b.master) ∷ []),
  )

-- The master `b` sends its state to `a`, which merges it and answers with what it has then; `b`
-- merges the answer. Where the format reads back both states and the two streams take the frames,
-- both sides succeed, what `a` was given is what `b` sent, and afterwards they agree on the keys of all three tables.
pub sync-Agree :
    (wire : Wire) (peers : PeerFormat) (a b : Connection) (now r r' : ℕ)
    → let mine = collect_state b.master in
      let theirs = collect_state (merge_state mine a.master) in
      peers.from_slice (peers.to_vec mine) ≡ some mine
      → peers.from_slice (peers.to_vec theirs) ≡ some theirs
      → a.socket.room ≡ suc r
      → b.socket.room ≡ suc (suc r')
      → let request : Arrival = record { payload = peers.to_vec mine; now = now } in
        let answered = handle_peer_connection wire peers (request ∷ []) a in
        let synced = sync_with_peer wire peers (some (peers.to_vec theirs)) b in
        (answered.0 ≡ ok tt)
        × (answered.1.socket.sent ≡ a.socket.sent ++ peers.to_vec theirs ∷ [])
        × (synced.0 ≡ ok tt)
        × (synced.1.socket.sent ≡ b.socket.sent ++ master_sync ∷ request.payload ∷ [])
        × Agree answered.1.master synced.1.master
sync-Agree wire peers a b now r r' read_mine read_theirs ra rb =
    let mine = collect_state b.master in
    let theirs = collect_state (merge_state mine a.master) in
    let request : Arrival = record { payload = peers.to_vec mine; now = now } in
    let answered = handle_peer_connection_lem wire peers a request mine r read_mine ra in
    let synced = sync_with_peer_lem wire peers b (peers.to_vec theirs) theirs r' read_theirs rb in
    rw (answered, synced.0, synced.1, synced.2)
      (refl, refl, refl, refl, merge-Agree a.master b.master)
