-- ===== src/Master/Dispatch/Progress.antt =====
-- A pending task does not wait for ever: the next run of `send_pending_tasks` for a node that it suits
-- sends it.
use cpcluster.Prelude.{
  ℕ, zero, suc, ◌≤◌, ◌<◌, ◌≡◌, refl, ◌∙◌, subst, sym, ap, String, true, false, none, some, List, [],
  ◌∷◌, ◌++◌, ◌⊎◌, inl, inr, ok, arith, length, eq_iff, str_eq, Option-cases, ℕ-cases, Bool-cases,
}
use cpcluster.Prelude.Dict
use cpcluster.Prelude.Dict.{Dict, get, get-insert, get-remove}
use cpcluster.Prelude.Dict.Table.{
  IsTable, remove-IsTable, length-remove_found, get_found, find-none_get,
}
use cpcluster.Common.Protocol.{Bytes, NodeRole, Task, role_eq_iff, assign_task}
use cpcluster.Common.Wire.{Wire}
use cpcluster.Master.State.{NodeInfo, PendingTask}
use cpcluster.Master.Connection.{Connection}
use cpcluster.Master.Dispatch.{
  is_active, is_for, is_eligible, eligible_task, role_for_task, assign, add_active, worker_role,
  send_loop, send_pending_tasks, enough_fuel,
}
use cpcluster.Master.Dispatch.Loop.{delivered, send_loop_inv, send_loop-none, send_loop_sent}

-- Whether a frame was sent.
abbrev pub Has : Bytes → List Bytes → Type 0
Has b [] = ⊥
Has b (f ∷ frames) = (f ≡ b) ⊎ Has b frames

Has-append : (b : Bytes) (frames more : List Bytes) → Has b frames → Has b (frames ++ more)
Has-append b (f ∷ frames) more (inl e) = inl e
Has-append b (f ∷ frames) more (inr h) = inr (Has-append b frames more h)
Has-append b [] more h = absurd h

Has-self : (b : Bytes) (frames : List Bytes) → Has b (frames ++ b ∷ [])
Has-self b [] = inl refl
Has-self b (f ∷ frames) = inr (Has-self b frames)

-- To enter one task leaves the others as active as they were.
is_active-add_active :
    (addr id other : String) (task : Task) (nodes : Dict NodeInfo)
    → str_eq other id ≡ false
    → is_active id (Dict.and_modify addr (add_active other task) nodes) ≡ is_active id nodes
unfolding Dict.and_modify
is_active-add_active addr id other task [] h = refl
is_active-add_active addr id other task ((a, n) ∷ nodes) h = ground (
  arith,
  h,
  get-insert other id task n.active_tasks,
  is_active-add_active addr id other task nodes h,
)

module _ (wire : Wire) (addr : String) (role : NodeRole) where
  -- The socket takes a frame for each pending task.
  abbrev HasRoom : Connection → Type 0
  HasRoom c = length c.master.pending_tasks ≤ c.socket.room

  delivered-HasRoom :
      (c : Connection) (id : String) (p : PendingTask) (r : ℕ)
      → eligible_task addr role c.master ≡ some (id, p)
      → c.socket.room ≡ suc r
      → HasRoom c
      → HasRoom (delivered wire addr role id p r c)
  unfolding assign
  delivered-HasRoom c id p r found more h =
      omega (arith, length-remove_found _ c.master.pending_tasks id p found)

  send_loop_succeeds :
      (f : ℕ) (c : Connection)
      → length c.master.pending_tasks < f
      → HasRoom c
      → (send_loop wire f addr role c).0 ≡ ok tt
  send_loop_succeeds zero c h room = elim h [ ]
  send_loop_succeeds (suc f) c h room = elim (Option-cases (eligible_task addr role c.master)) [
    | inl e ↦ rw (send_loop-none wire addr role f c e) refl
    | inr ((id, p), e) ↦ elim (ℕ-cases c.socket.room) [
      | inl z ↦ absurd (omega (arith, length-remove_found _ c.master.pending_tasks id p e))
      | inr (r, more) ↦ rw (send_loop_sent wire addr role f c id p e r more) (
          send_loop_succeeds f _
            (unfold assign in omega (arith, length-remove_found _ c.master.pending_tasks id p e))
            (delivered-HasRoom c id p r e more room))
    ]
  ]

  module _ (id : String) (p : PendingTask) (suits : role_for_task p.task ≡ role)
      (meant : is_for addr p.target ≡ true) where
    abbrev Waits : Connection → Type 0
    Waits c =
        IsTable c.master.pending_tasks
        × (get id c.master.pending_tasks ≡ some p)
        × (is_active id c.master.connected_nodes ≡ false)

    abbrev frame_of : Bytes
    frame_of = wire.to_vec (assign_task id p.task)

    Sent : Connection → Type 0
    Sent c = Has frame_of c.socket.sent

    found_some : (c : Connection) → Waits c → eligible_task addr role c.master ≡ none → ⊥
    unfolding is_eligible
    found_some c w e = ground (
      arith,
      w,
      suits,
      meant,
      find-none_get (is_eligible addr role c.master.connected_nodes) c.master.pending_tasks id p e
          w.1,
      role_eq_iff (role_for_task p.task) role,
    )

    stays-Sent : (f : ℕ) (c : Connection) → Sent c → Sent (send_loop wire f addr role c).1
    unfolding Sent
    stays-Sent f c h =
        send_loop_inv wire addr role Sent
          (λ c' id' p' r s e. Has-append frame_of c'.socket.sent _ s) (λ c' id' p' s e. s) f c h

    delivered-Waits :
        (c : Connection) (id' : String) (p' : PendingTask) (r : ℕ)
        → str_eq id' id ≡ false
        → Waits c
        → Waits (delivered wire addr role id' p' r c)
    unfolding assign
    delivered-Waits c id' p' r other w = (
      remove-IsTable id' _ w.0,
      ground (arith, other, w.1, get-remove id' id c.master.pending_tasks),
      is_active-add_active addr id id' p'.task c.master.connected_nodes other ∙ w.2,
    )

    delivered-Sent :
        (c : Connection) (id' : String) (p' : PendingTask) (r : ℕ)
        → str_eq id' id ≡ true
        → Waits c
        → eligible_task addr role c.master ≡ some (id', p')
        → Sent (delivered wire addr role id' p' r c)
    unfolding Sent
    delivered-Sent c id' p' r same w e =
        let same_id : id' ≡ id = (eq_iff id' id).0 same in
        let held : get id' c.master.pending_tasks ≡ some p' =
          get_found (is_eligible addr role c.master.connected_nodes) c.master.pending_tasks id' p'
            w.0 e in
        let same_task : p' ≡ p = ground (arith, same_id, held, w.1) in
        let same_frame : wire.to_vec (assign_task id' p'.task) ≡ frame_of =
          cc (same_id, ap (λ q. q.task) same_task) in
        subst (λ b. Has frame_of (c.socket.sent ++ b ∷ [])) (sym same_frame)
          (Has-self frame_of c.socket.sent)

    send_loop-Sent :
        (f : ℕ) (c : Connection)
        → length c.master.pending_tasks < f
        → HasRoom c
        → Waits c
        → Sent (send_loop wire f addr role c).1
    send_loop-Sent zero c h room w = elim h [ ]
    send_loop-Sent (suc f) c h room w = elim (Option-cases (eligible_task addr role c.master)) [
      | inl e ↦ absurd (found_some c w e)
      | inr ((id', p'), e) ↦ elim (ℕ-cases c.socket.room) [
        | inl z ↦ absurd (omega (arith, length-remove_found _ c.master.pending_tasks id' p' e))
        | inr (r, more) ↦ elim (Bool-cases (str_eq id' id)) [
          | inl same ↦
              rw (send_loop_sent wire addr role f c id' p' e r more)
                (stays-Sent f _ (delivered-Sent c id' p' r same w e))
          | inr other ↦ rw (send_loop_sent wire addr role f c id' p' e r more) (
              send_loop-Sent f _
                (unfold assign in
                  omega (arith, length-remove_found _ c.master.pending_tasks id' p' e))
                (delivered-HasRoom c id' p' r e more room) (delivered-Waits c id' p' r other w))
        ]
      ]
    ]

-- A pending task that is not active, of the role of a worker and meant for it or for any node, is sent
-- to that worker by the next run of `send_pending_tasks` for it, which succeeds, if its socket
-- takes a frame for each pending task.
pub send_pending_tasks-Has :
    (wire : Wire) (addr id : String) (p : PendingTask) (c : Connection)
    → IsTable c.master.pending_tasks
    → length c.master.pending_tasks ≤ c.socket.room
    → get id c.master.pending_tasks ≡ some p
    → is_active id c.master.connected_nodes ≡ false
    → worker_role (Dict.get addr c.master.connected_nodes) ≡ some (role_for_task p.task)
    → is_for addr p.target ≡ true
    → ((send_pending_tasks wire addr c).0 ≡ ok tt)
      × Has (wire.to_vec (assign_task id p.task)) (send_pending_tasks wire addr c).1.socket.sent
unfolding send_pending_tasks Sent
send_pending_tasks-Has wire addr id p c table room pending idle works meant =
    rw (works, send_pending_tasks)
      (
        send_loop_succeeds wire addr (role_for_task p.task) (enough_fuel c.master) c (omega arith)
            room,
        send_loop-Sent wire addr (role_for_task p.task) id p refl meant (enough_fuel c.master) c
            (omega arith) room (table, pending, idle),
      )
