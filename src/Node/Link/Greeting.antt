-- ===== src/Node/Link/Greeting.antt =====
-- What a node sends on a connection that it has joined.
use cpcluster.Prelude.{
  ℕ, zero, suc, ◌+◌, ◌≤◌, ◌≡◌, refl, ◌∙◌, sym, ap, String, Bool, true, false, Option, none, some,
  List, [], ◌∷◌, ◌++◌, Result, ok, err, arith, length,
}
use mathlib.Core.List.{append_assoc, append-nil}
use cpcluster.Prelude.Action.{Action}
use cpcluster.Prelude.Dict.{Dict}
use cpcluster.Common.Protocol.{Bytes, NodeMessage, get_connected_nodes}
use cpcluster.Common.Wire.{Wire, send_frame}
use cpcluster.Node.Link.{
  Link, Visit, joined, refused, broken, send, receive, login, ask_nodes, resend, resume, logged_in,
  visit, ended, tried, Trace, start, round, attempts, reconnect,
}

module _ (wire : Wire) where
  -- The frames of the results that are open.
  abbrev pub result_frames : Dict NodeMessage → List Bytes
  result_frames [] = []
  result_frames ((id, msg) ∷ tasks) = wire.to_vec msg ∷ result_frames tasks

  send_sent :
      (b : Bytes) (l : Link) (n : ℕ)
      → suc n ≤ l.socket.room
      → ((send b l).0 ≡ ok tt)
        × ((send b l).1.socket.sent ≡ l.socket.sent ++ b ∷ [])
        × (n ≤ (send b l).1.socket.room)
  unfolding send send_frame
  send_sent b l n h = ground (arith, h)

  resend_sent :
      (tasks : Dict NodeMessage) (l : Link)
      → length tasks ≤ l.socket.room
      → (resend wire tasks l).socket.sent ≡ l.socket.sent ++ result_frames tasks
  unfolding resend
  resend_sent [] l h = sym (append-nil l.socket.sent)
  resend_sent ((id, msg) ∷ tasks) l h =
      let one = send_sent (wire.to_vec msg) l (length tasks) h in
      resend_sent tasks (send (wire.to_vec msg) l).1 one.2
      ∙ ap (λ xs. xs ++ result_frames tasks) one.1
      ∙ append_assoc l.socket.sent (wire.to_vec msg ∷ []) (result_frames tasks)

  ask_nodes_sent :
      (l : Link) (n : ℕ)
      → suc n ≤ l.socket.room
      → ((ask_nodes wire l).socket.sent ≡ l.socket.sent ++ wire.to_vec get_connected_nodes ∷ [])
        × (n ≤ (ask_nodes wire l).socket.room)
  unfolding receive send send_frame
  ask_nodes_sent l n h = ground (arith, h)

  login_sent :
      (token : Bytes) (l : Link) (n : ℕ)
      → suc n ≤ l.socket.room
      → ((login wire token l).1.socket.sent ≡ l.socket.sent ++ token ∷ [])
        × (n ≤ (login wire token l).1.socket.room)
  unfolding login receive send send_frame
  login_sent token l n h = ground (arith, h)

  module _ (token : Bytes) (tasks : Dict NodeMessage) where
    logged_in-joined :
        (r : Result Bool) (m l : Link)
        → logged_in wire (resume wire tasks) r m ≡ joined l
        → resend wire tasks (ask_nodes wire m) ≡ l
    unfolding resume
    logged_in-joined (ok true) m l h = ground (arith, h)
    logged_in-joined (ok false) m l h = ground (arith, h)
    logged_in-joined (err e) m l h = ground (arith, h)

    visit-resume_sent :
        (l0 l : Link)
        → visit wire token (resume wire tasks) (some l0) ≡ joined l
        → suc (suc (length tasks)) ≤ l0.socket.room
        → l.socket.sent
          ≡ l0.socket.sent ++ token ∷ wire.to_vec get_connected_nodes ∷ result_frames tasks
    visit-resume_sent l0 l h room =
        let entry = login_sent token l0 (suc (length tasks)) room in
        let asked = ask_nodes_sent (login wire token l0).1 (length tasks) entry.1 in
        ap (λ m. m.socket.sent)
          (sym (logged_in-joined (login wire token l0).0 (login wire token l0).1 l h))
        ∙ resend_sent tasks (ask_nodes wire (login wire token l0).1) asked.1
        ∙ ap (λ xs. xs ++ result_frames tasks)
            (asked.0 ∙ ap (λ xs. xs ++ wire.to_vec get_connected_nodes ∷ []) entry.0)
        ∙ append_assoc (l0.socket.sent ++ token ∷ []) (wire.to_vec get_connected_nodes ∷ [])
            (result_frames tasks)
        ∙ append_assoc l0.socket.sent (token ∷ [])
            (wire.to_vec get_connected_nodes ∷ result_frames tasks)

module _ (wire : Wire) (dial : ℕ → String → Option Link) (token : Bytes)
    (greet : Action Link (Unit {0})) where
  -- A connection that came about and was joined as this one.
  record Joined (l : Link) : Type 0 where
    attempt : ℕ
    addr : String
    fresh : Link
    came_about : dial attempt addr ≡ some fresh
    visited : visit wire token greet (some fresh) ≡ joined l

  visit-Joined :
      (n : ℕ) (a : String) (o : Option Link) (l : Link)
      → dial n a ≡ o
      → visit wire token greet o ≡ joined l
      → Joined l
  visit-Joined n a none l d h = ground (arith, h)
  visit-Joined n a (some l0) l d h = record {
    attempt = n;
    addr = a;
    fresh = l0;
    came_about = d;
    visited = h;
  }

  tried-Joined :
      {T : Type 0} (v : Visit) (t : T) (rest : Visit × T) (l : Link)
      → (v ≡ joined l → Joined l)
      → (rest.0 ≡ joined l → Joined l)
      → (tried v t rest).0 ≡ joined l
      → Joined l
  tried-Joined (joined m) t rest l h k e = h e
  tried-Joined (broken m) t rest l h k e = h e
  tried-Joined refused t rest l h k e = k e

  ended-Joined :
      {T : Type 0} (v : Visit) (t : T) (again : Result Link × T) (l : Link)
      → (v ≡ joined l → Joined l)
      → (again.0 ≡ ok l → Joined l)
      → (ended v t again).0 ≡ ok l
      → Joined l
  ended-Joined (joined m) t again l h k e = h (ground (arith, e))
  ended-Joined (broken m) t again l h k e = ground (arith, e)
  ended-Joined refused t again l h k e = k e

  round-Joined :
      (addrs : List String) (t : Trace) (l : Link)
      → (round wire dial token greet addrs t).0 ≡ joined l
      → Joined l
  unfolding round
  round-Joined [] t l h = ground (arith, h)
  round-Joined (addr ∷ addrs) t l h =
      tried-Joined _ _ _ l (visit-Joined t.dials addr (dial t.dials addr) l refl)
        (round-Joined addrs _ l) h

  attempts-Joined :
      (retries delay : ℕ) (addrs : List String) (t : Trace) (l : Link)
      → (attempts wire dial token greet retries delay addrs t).0 ≡ ok l
      → Joined l
  unfolding attempts
  attempts-Joined zero delay addrs t l h =
      ended-Joined _ _ _ l (round-Joined addrs t l) (λ e. ground (arith, e)) h
  attempts-Joined (suc left) delay addrs t l h =
      ended-Joined _ _ _ l (round-Joined addrs t l) (attempts-Joined left _ addrs _ l) h

module _ (wire : Wire) (dial : ℕ → String → Option Link) (token : Bytes) (max_retries : ℕ)
    (master_addresses : List String) (open_tasks : Dict NodeMessage) where
  -- Where every connection that comes about is fresh and has room, a node that has reconnected has sent
  -- its token, the question for the nodes, and then every result that was open, in the order of its
  -- table; nothing else, so not its role.
  pub reconnect_resends :
      (l : Link)
      → ((n : ℕ) (addr : String) (l0 : Link)
          → dial n addr ≡ some l0
          → (l0.socket.sent ≡ []) × (2 + length open_tasks ≤ l0.socket.room))
      → (reconnect wire dial token max_retries master_addresses open_tasks).0 ≡ ok l
      → l.socket.sent ≡ token ∷ wire.to_vec get_connected_nodes ∷ result_frames wire open_tasks
  unfolding reconnect
  reconnect_resends l fresh h =
      let j =
        attempts-Joined wire dial token (resume wire open_tasks) max_retries 100 master_addresses
          start l h in
      let f = fresh j.attempt j.addr j.fresh j.came_about in
      visit-resume_sent wire token open_tasks j.fresh l j.visited (omega (arith, f.1))
      ∙ ap (λ xs. xs ++ token ∷ wire.to_vec get_connected_nodes ∷ result_frames wire open_tasks) f.0
