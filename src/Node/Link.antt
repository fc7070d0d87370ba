-- ===== src/Node/Link.antt =====
-- CPCluster_node/src/node.rs: `connect_to_master` and `reconnect`. Whether a connection (`connect`, with
-- or without TLS) comes about is up to the network: a parameter that knows the number of the attempt.
pub mod Attempts
pub mod Greeting
use cpcluster.Prelude.{
  ℕ, zero, suc, ◌+◌, ◌*◌, ◌==◌, ◌&&◌, String, Bool, true, false, Option, none, some, List, [], ◌∷◌,
  Result, ok, err, Error, io_error,
}
use cpcluster.Prelude.Action.{Action, ◌>>=◌, ◌>>◌, pure}
use cpcluster.Prelude.Dict.{Dict}
use cpcluster.Common.Protocol.{
  Bytes, invalid_token, NodeRole, NodeMessage, register_role, get_connected_nodes, connected_nodes,
  request_connection,
}
use cpcluster.Common.Wire.{Wire, Socket, send_frame}

-- An open connection: the frames that the master will send before it ends, and what was sent to it.
pub record Link : Type 0 where
  pub incoming : List Bytes
  pub socket : Socket

-- `write_length_prefixed`
unfoldable pub send : Bytes → Action Link (Unit {0})
send b l = ((send_frame b l.socket).0, record l { socket = (send_frame b l.socket).1 })

-- `read_length_prefixed`
unfoldable pub receive : Action Link Bytes
receive l = elim l.incoming [
  | [] ↦ (err io_error, l)
  | b ∷ rest ↦ (ok b, record l { incoming = rest })
]

abbrev pub same_bytes : Bytes → Bytes → Bool
same_bytes [] [] = true
same_bytes (a ∷ xs) (b ∷ ys) = a == b && same_bytes xs ys
same_bytes _ _ = false

-- What `if let Err(e)` makes of a step.
abbrev pub is_ok {ℓ} : {A : Type ℓ} → Result A → Bool
is_ok (ok a) = true
is_ok (err e) = false

-- The step is over, whatever it returned.
abbrev pub ignoring : {A : Type 0} → Action Link A → Action Link (Unit {0})
ignoring m l = (ok tt, (m l).1)

-- A visit of one address: a connection, a refusal (the next address is tried), or an error that `?`
-- passes on.
pub data Visit : Type 0 where
  joined : Link → Visit
  refused : Visit
  broken : Error → Visit

module _ (wire : Wire) where
  abbrev pub send_message : NodeMessage → Action Link (Unit {0})
  send_message msg = send (wire.to_vec msg)

  -- The token is sent, and the answer read; `false` for an invalid token.
  unfoldable pub login : Bytes → Action Link Bool
  login token = do send token; answer ← receive; pure (same_bytes answer invalid_token)

  -- `nodes.first()`
  abbrev pub request_first : List String → Action Link (Unit {0})
  request_first [] = pure tt
  request_first (peer ∷ nodes) = send_message (request_connection peer)

  abbrev pub answer_nodes : Option NodeMessage → Action Link (Unit {0})
  answer_nodes (some (connected_nodes nodes)) = request_first nodes
  answer_nodes _ = pure tt

  abbrev pub on_nodes : Result Bytes → Action Link (Unit {0})
  on_nodes (ok b) = answer_nodes (wire.from_slice b)
  on_nodes (err e) = pure tt

  -- After a login of `connect_to_master`.
  unfoldable pub introduce : NodeRole → Action Link (Unit {0})
  introduce role = do
    send_message (register_role role)
    send_message get_connected_nodes
    λ l. on_nodes (receive l).0 (receive l).1

  -- `for task in tasks.values()`, where a failure is only logged.
  unfoldable pub resend : Dict NodeMessage → Link → Link
  resend [] l = l
  resend ((id, msg) ∷ tasks) l = resend tasks (send_message msg l).1

  -- `if let Err(e) = send_message(GetConnectedNodes) … else if let Ok(buf) = read…`
  abbrev pub ask_nodes : Link → Link
  ask_nodes l = elim (is_ok (send_message get_connected_nodes l).0) [
    | true ↦ (receive (send_message get_connected_nodes l).1).1
    | false ↦ (send_message get_connected_nodes l).1
  ]

  -- After a login of `reconnect`.
  unfoldable pub resume : Dict NodeMessage → Action Link (Unit {0})
  resume open_tasks l = (ok tt, resend open_tasks (ask_nodes l))

  abbrev pub greeted : Result (Unit {0}) → Link → Visit
  greeted (ok u) l = joined l
  greeted (err e) l = broken e

  abbrev pub logged_in : Action Link (Unit {0}) → Result Bool → Link → Visit
  logged_in greet (err e) l = broken e
  logged_in greet (ok true) l = refused
  logged_in greet (ok false) l = greeted (greet l).0 (greet l).1

  -- One address, where `connect` gave a stream or an error.
  abbrev pub visit : Bytes → Action Link (Unit {0}) → Option Link → Visit
  visit token greet none = refused
  visit token greet (some l) = logged_in greet (login token l).0 (login token l).1

-- Only after a refusal the other addresses are tried.
abbrev pub tried {ℓ} : {T : Type ℓ} → Visit → T → Visit × T → Visit × T
tried (joined l) t rest = (joined l, t)
tried (broken e) t rest = (broken e, t)
tried refused t rest = rest

-- What a round over the addresses ends with; only a round of refusals is followed by another.
abbrev pub ended {ℓ} : {T : Type ℓ} → Visit → T → Result Link × T → Result Link × T
ended (joined l) t again = (ok l, t)
ended (broken e) t again = (err e, t)
ended refused t again = again

-- How far the attempts are: how many connections were tried, at which addresses, the last one first, and
-- the time that was slept.
pub record Trace : Type 0 where
  pub dials : ℕ
  pub dialled_at : List String
  pub slept_ms : ℕ

abbrev pub dialled : String → Trace → Trace
dialled addr t = record t { dials = t.dials + 1; dialled_at = addr ∷ t.dialled_at }

module _ (wire : Wire) (dial : ℕ → String → Option Link) (token : Bytes)
    (greet : Action Link (Unit {0})) where
  -- A connection that is tried, and its entry.
  abbrev pub dial_at : String → Trace → Option Link × Trace
  dial_at addr t = (dial t.dials addr, dialled addr t)

  abbrev slept : ℕ → Trace → Trace
  slept delay t = record t { slept_ms = t.slept_ms + delay }

  -- `for addr in &config.master_addresses`
  unfoldable pub round : List String → Trace → Visit × Trace
  round [] t = (refused, t)
  round (addr ∷ addrs) t =
      let tried_at = dial_at addr t in
      let rest = round addrs tried_at.1 in tried (visit wire token greet tried_at.0) tried_at.1 rest

  -- The loop on `attempt`, with the number of retries that are left; `delay` doubles.
  unfoldable pub attempts : ℕ → ℕ → List String → Trace → Result Link × Trace
  attempts zero delay addrs t =
      ended (round addrs t).0 (round addrs t).1 (err io_error, (round addrs t).1)
  attempts (suc left) delay addrs t =
      let again = attempts left (2 * delay) addrs (slept delay (round addrs t).1) in
      ended (round addrs t).0 (round addrs t).1 again

abbrev pub start : Trace
start = record { dials = 0; dialled_at = []; slept_ms = 0 }

module _ (wire : Wire) (dial : ℕ → String → Option Link) (token : Bytes) (max_retries : ℕ)
    (master_addresses : List String) where
  unfoldable pub connect_to_master : NodeRole → Result Link × Trace
  connect_to_master role =
      attempts wire dial token (introduce wire role) max_retries 100 master_addresses start

  unfoldable pub reconnect : Dict NodeMessage → Result Link × Trace
  reconnect open_tasks =
      attempts wire dial token (resume wire open_tasks) max_retries 100 master_addresses start
