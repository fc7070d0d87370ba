-- ===== src/Master/Cluster/Sessions.antt =====
-- The session of a client, as `handle_connection` composes it, goes by the steps of the cluster.
use cpcluster.Prelude.{String, ℕ, List, [], ◌∷◌, Option-cases, inl, inr}
use cpcluster.Prelude.Action.{Action, proceed_inv}
use cpcluster.Common.Wire.{Wire}
use cpcluster.Master.State.{MasterNode}
use cpcluster.Master.Connection.{Connection, modify}
use cpcluster.Master.Dispatch.{send_pending_tasks}
use cpcluster.Master.Session.{
  Arrival, Flow, go_on, stop, accept_node, remove_node, handle_message, serve, serve_rest,
  serve_client, unless_stopped,
}
use cpcluster.Master.Cluster.{Step, accepts, handles, dispatches, leaves, Steps, stay, onward}

module _ (wire : Wire) where
  then-Step : {a b c : MasterNode} → Steps wire a b → Step wire b c → Steps wire a c
  then-Step (stay m) k = onward k (stay _)
  then-Step (onward h t) k = onward h (then-Step t k)

  module _ (addr : String) (a : MasterNode) where
    CameFrom : Connection → Type 0
    CameFrom c = Steps wire a c.master

    unless_stopped-CameFrom :
        (flow : Flow) (rest : Action Connection (Unit {0})) (c : Connection)
        → Steps wire a c.master
        → Steps wire a (rest c).1.master
        → Steps wire a (unless_stopped flow rest c).1.master
    unless_stopped-CameFrom stop rest c s t = s
    unless_stopped-CameFrom go_on rest c s t = t

    serve-Steps :
        (incoming : List Arrival) (c : Connection)
        → Steps wire a c.master
        → Steps wire a (serve wire addr incoming c).1.master
    unfolding serve CameFrom
    serve-Steps [] c s = s
    serve-Steps (x ∷ incoming) c s = elim (Option-cases (wire.from_slice x.payload)) [
      | inl e ↦ rw (e, serve) s
      | inr (msg, e) ↦
          let handled = handle_message wire addr x.now msg c in
          let t : Steps wire a handled.1.master =
            then-Step s (handles addr x.now msg c.master c.socket) in
          rw (e, serve)
            (proceed_inv CameFrom _ handled.0 _ t (λ flow q. unless_stopped-CameFrom flow _ _ t (
              serve-Steps incoming _
                (then-Step t (dispatches addr handled.1.master handled.1.socket)))))
    ]

    serve_rest-Steps :
        (incoming : List Arrival) (c : Connection)
        → Steps wire a c.master
        → Steps wire a (serve_rest wire addr incoming c).1.master
    unfolding serve_rest CameFrom
    serve_rest-Steps incoming c s =
        let served = serve wire addr incoming c in
        let u : Steps wire a served.1.master = serve-Steps incoming c s in
        proceed_inv CameFrom (λ (_ : Unit {0}). modify (remove_node addr)) served.0 served.1 u
          (λ _ _. then-Step u (leaves addr served.1.master))

  -- Whatever an authenticated client sends, and wherever its writes begin to fail, its session changes
  -- the master by steps of the cluster only.
  pub serve_client-Steps :
      (addr : String) (now : ℕ) (incoming : List Arrival) (c : Connection)
      → Steps wire c.master (serve_client wire addr now incoming c).1.master
  unfolding serve_client
  serve_client-Steps addr now incoming c =
      let opened : Connection = record c { master = accept_node addr now c.master } in
      serve_rest-Steps addr c.master incoming (send_pending_tasks wire addr opened).1 (
        onward (accepts addr now c.master)
          (onward (dispatches addr opened.master c.socket) (stay _)))
