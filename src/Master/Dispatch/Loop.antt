-- ===== src/Master/Dispatch/Loop.antt =====
-- The loop of `send_pending_tasks`: its rounds, that it ends, and what it leaves.
use cpcluster.Prelude.{
  ℕ, zero, suc, ◌<◌, ◌≡◌, ◌≢◌, String, none, some, [], ◌∷◌, ◌++◌, ok, err, io_error, out_of_fuel,
  inl, inr, arith, length, Option-cases, ℕ-cases, Result,
}
use cpcluster.Prelude.Dict
use cpcluster.Prelude.Dict.Table.{length-remove_found}
use cpcluster.Common.Protocol.{Bytes, NodeRole, assign_task}
use cpcluster.Common.Wire.{Wire, Socket, send_frame}
use cpcluster.Master.State.{PendingTask, MasterNode}
use cpcluster.Master.Connection.{Connection, send}
use cpcluster.Master.Dispatch.{
  eligible_task, take_next, assign, unassign, worker_role, send_loop, enough_fuel,
  send_pending_tasks,
}

-- The master after a task was taken and assigned, before it is sent.
abbrev pub taken : String → String → PendingTask → MasterNode → MasterNode
taken addr id p m =
    assign addr id p.task (record m { pending_tasks = Dict.remove id m.pending_tasks })

-- The master after the write failed.
abbrev pub returned : String → String → PendingTask → MasterNode → MasterNode
returned addr id p m = unassign addr id p (taken addr id p m)

-- The socket after one more frame.
abbrev pub pushed : Bytes → ℕ → Socket → Socket
pushed b r s = record { sent = s.sent ++ b ∷ []; room = r }

module _ (wire : Wire) (addr : String) (role : NodeRole) where
  abbrev pub delivered : String → PendingTask → ℕ → Connection → Connection
  delivered id p r c = record {
    master = taken addr id p c.master;
    socket = pushed (wire.to_vec (assign_task id p.task)) r c.socket;
  }

  -- A round that finds no task ends the loop.
  pub send_loop-none :
      (f : ℕ) (c : Connection)
      → eligible_task addr role c.master ≡ none
      → send_loop wire (suc f) addr role c ≡ (ok tt, c)
  unfolding send_loop take_next
  send_loop-none f c e = ground arith

  module _ (f : ℕ) (c : Connection) (id : String) (p : PendingTask)
      (found : eligible_task addr role c.master ≡ some (id, p)) where
    pub send_loop_sent :
        (r : ℕ)
        → c.socket.room ≡ suc r
        → send_loop wire (suc f) addr role c ≡ send_loop wire f addr role (delivered id p r c)
    unfolding send_loop take_next send send_frame
    send_loop_sent r e = ground arith

    pub send_loop_broken :
        c.socket.room ≡ zero
        → send_loop wire (suc f) addr role c
          ≡ (err io_error, record { master = returned addr id p c.master; socket = c.socket })
    unfolding send_loop take_next send send_frame
    send_loop_broken e = ground arith

  -- A property of the connection that one round keeps, sent or not, the loop keeps. The index of the
  -- property is free, so that it can speak of the result as well.
  pub send_loop_inv {ℓ} :
      (P : Connection → Type ℓ)
      → ((c : Connection) (id : String) (p : PendingTask) (r : ℕ)
          → P c
          → eligible_task addr role c.master ≡ some (id, p)
          → P (delivered id p r c))
      → ((c : Connection) (id : String) (p : PendingTask)
          → P c
          → eligible_task addr role c.master ≡ some (id, p)
          → P (record { master = returned addr id p c.master; socket = c.socket }))
      → (f : ℕ) (c : Connection) → P c
      → P (send_loop wire f addr role c).1
  send_loop_inv P keep undo zero c h = unfold send_loop in h
  send_loop_inv P keep undo (suc f) c h = elim (Option-cases (eligible_task addr role c.master)) [
    | inl e ↦ rw (send_loop-none f c e) h
    | inr ((id, p), e) ↦ elim (ℕ-cases c.socket.room) [
      | inl z ↦ rw (send_loop_broken f c id p e z) (undo c id p h e)
      | inr (r, s) ↦
          rw (send_loop_sent f c id p e r s) (send_loop_inv P keep undo f _ (keep c id p r h e))
    ]
  ]

  -- With more fuel than pending tasks the loop does not run out of it, and where it succeeds no
  -- pending task is left that the node could take.
  abbrev Finished : (Result (Unit {0}) × Connection) → Type 0
  Finished r = (r.0 ≢ err out_of_fuel) × (r.0 ≡ ok tt → eligible_task addr role r.1.master ≡ none)

  send_loop-Finished :
      (f : ℕ) (c : Connection)
      → length c.master.pending_tasks < f
      → Finished (send_loop wire f addr role c)
  send_loop-Finished zero c h = elim h [ ]
  send_loop-Finished (suc f) c h = elim (Option-cases (eligible_task addr role c.master)) [
    | inl e ↦ rw (send_loop-none f c e) ((λ q. cc), (λ q. e))
    | inr ((id, p), e) ↦ elim (ℕ-cases c.socket.room) [
      | inl z ↦ rw (send_loop_broken f c id p e z) ((λ q. cc), (λ q. cc))
      | inr (r, s) ↦ rw (send_loop_sent f c id p e r s) (
          send_loop-Finished f _
            (unfold assign in omega (arith, length-remove_found _ c.master.pending_tasks id p e)))
    ]
  ]

module _ (wire : Wire) (addr : String) (c : Connection) where
  -- `send_pending_tasks` always ends: it needs at most one round more than there are pending tasks.
  pub send_pending_tasks_ends : (send_pending_tasks wire addr c).0 ≢ err out_of_fuel
  unfolding send_pending_tasks
  send_pending_tasks_ends =
      elim (Option-cases (worker_role (Dict.get addr c.master.connected_nodes))) [
        | inl e ↦ rw (e, send_pending_tasks) (λ q. cc)
        | inr (role, e) ↦
            rw (e, send_pending_tasks)
              (send_loop-Finished wire addr role (enough_fuel c.master) c (omega arith)).0
      ]

  -- After a run of `send_pending_tasks` for a worker in which every write succeeded, no pending task
  -- is left that this worker could take.
  pub send_pending_tasks_drains :
      (role : NodeRole)
      → worker_role (Dict.get addr c.master.connected_nodes) ≡ some role
      → (send_pending_tasks wire addr c).0 ≡ ok tt
      → eligible_task addr role (send_pending_tasks wire addr c).1.master ≡ none
  unfolding send_pending_tasks
  send_pending_tasks_drains role e =
      rw (e, send_pending_tasks)
        (send_loop-Finished wire addr role (enough_fuel c.master) c (omega arith)).1
