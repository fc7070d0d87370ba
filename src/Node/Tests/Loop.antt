-- ===== src/Node/Tests/Loop.antt =====
-- Runs of reconnections and the loop of a node.
use cpcluster.Prelude.{
  List, ℕ, zero, suc, ◌+◌, ◌≤◌, ◌≡◌, ◌⊎◌, ◌++◌, refl, String, Option, none, some, [], ◌∷◌, arith,
  ok,
}
use cpcluster.Prelude.Dict.{Dict, get}
use cpcluster.Common.Protocol.{
  Bytes, stored, tcp, written, NodeMessage, task_result, assign_task, heartbeat,
  get_connected_nodes,
}
use cpcluster.Common.Wire.{Wire, send_frame}
use cpcluster.Common.Config.{default}
use cpcluster.Node.Link.{Link, reconnect, attempts, round, resume, login, send, receive, resend}
use cpcluster.Node.Link.Greeting.{result_frames, reconnect_resends}
use cpcluster.Node.Loop.{
  Event, try_reconnect, Setting, NodeState, tick, readable, crashed, report, on_event, on_tick,
  on_message, on_assign, run_loop,
}
use cpcluster.Node.Loop.Results.{
  report_keeps_result, run_loop_keeps_open, run_loop-IsPoisoned, IsPoisoned, IsSpared,
}
use cpcluster.Node.Tests.Tasks.{environment, worker_a, running}

-- Results are one byte, and every frame assigns a task that cannot be parsed.
abbrev encode : NodeMessage → Bytes
encode (task_result id result) = 5 ∷ []
encode get_connected_nodes = 2 ∷ []
encode heartbeat = 1 ∷ []
encode _ = []

abbrev wire : Wire
wire = record {
  to_vec = encode;
  from_slice = λ b. some (assign_task "t" (tcp "localhost:80" []));
  from_utf8 = λ b. none;
}

abbrev deaf : Wire
deaf = record { to_vec = encode; from_slice = λ b. none; from_utf8 = λ b. none }

abbrev fresh : Link
fresh = record { incoming = (79 ∷ 75 ∷ []) ∷ [] ∷ []; socket = record { sent = []; room = 4 } }

-- The second connection comes about.
abbrev dial : ℕ → String → Option Link
dial zero addr = none
dial (suc n) addr = some fresh

abbrev open_results : Dict NodeMessage
open_results = ("t", task_result "t" stored) ∷ []

abbrev resumed : Link
resumed = record {
  incoming = [];
  socket = record { sent = (1 ∷ []) ∷ (2 ∷ []) ∷ (5 ∷ []) ∷ []; room = 1 };
}

reconnected : (reconnect wire dial (1 ∷ []) 3 ("a" ∷ []) open_results).0 ≡ ok resumed
unfolding reconnect attempts round resume login send receive resend send_frame
reconnected = refl

dial_fresh :
    (n : ℕ) (addr : String) (l0 : Link)
    → dial n addr ≡ some l0
    → (l0.socket.sent ≡ []) × (2 + 1 ≤ l0.socket.room)
dial_fresh zero addr l0 h = ground (arith, h)
dial_fresh (suc n) addr l0 h = ground (arith, h)

reconnect_resends_example :
    resumed.socket.sent
    ≡ (1 ∷ []) ∷ wire.to_vec get_connected_nodes ∷ result_frames wire open_results
reconnect_resends_example =
    reconnect_resends wire dial (1 ∷ []) 3 ("a" ∷ []) open_results resumed dial_fresh reconnected

abbrev setting : Wire → Setting
setting w = record { env = environment; wire = w; config = default; token = []; dials = λ k. dial }

abbrev node : (w : Wire) → NodeState (setting w)
node w = record {
  link = fresh;
  open_tasks = open_results;
  worker = worker_a;
  reconnects = 0;
  spawned = [];
}

report_keeps_result_example :
    ((report (setting wire) "u" written (node wire)).link.socket.sent ≡ [] ++ (5 ∷ []) ∷ [])
    ⊎ (get "u" (report (setting wire) "u" written (node wire)).open_tasks
        ≡ some (task_result "u" written))
report_keeps_result_example = report_keeps_result (setting wire) "u" written (node wire)

abbrev events : List Event
events = tick ∷ readable ∷ readable ∷ readable ∷ []

spared : IsSpared (setting deaf) "t" events (node deaf)
unfolding running on_event on_tick on_message on_assign send receive send_frame try_reconnect
    reconnect attempts round resume login resend
spared = (refl, (refl, (refl, (refl, tt))))

run_loop_keeps_open_example :
    get "t" (run_loop (setting deaf) events (node deaf)).1.open_tasks ≡ get "t" open_results
run_loop_keeps_open_example = run_loop_keeps_open (setting deaf) "t" events (node deaf) spared

crashes : (run_loop (setting wire) (tick ∷ readable ∷ []) (node wire)).0 ≡ crashed
unfolding running run_loop on_event on_tick on_message on_assign send receive send_frame
crashes = refl

run_loop-IsPoisoned_example : IsPoisoned (setting wire) (tick ∷ readable ∷ []) (node wire)
run_loop-IsPoisoned_example =
    run_loop-IsPoisoned (setting wire) (tick ∷ readable ∷ []) (node wire) crashes
