-- ===== src/Examples/Servers.antt =====
-- Servers and their workers.
use oysterpack.Prelude.{
  ℕ, ◌+◌, ◌*◌, ◌≡◌, refl, sym, subst, true, none, some, List, [], ◌∷◌, ◌++◌, ok, err, if◌then◌else◌,
  ◌==◌, nat_eq, list_eq,
}
use oysterpack.Examples.Sockets.{options, endpoint, peer}
use oysterpack.Nng.Server.Worker.{receiving, Backend, recv, on_event}
use oysterpack.Nng.Server.Worker.Serves.{Peers, IsReliable, Served, run, serve, events, run-Served}
use oysterpack.Nng.Server.Worker.Live.{
  receive, watched, Watched, runs, after, reported, report, Reach, start, next, Live, Reach-Live,
}
use oysterpack.Nng.Server.Listener.{ListenerConfig}
use oysterpack.Nng.Server.Handles.{
  ServerHandle, Servers, Answers, spawn, stop_async, run_stop, get_handle,
}
use oysterpack.Nng.Server.Handles.Alive
use oysterpack.Nng.Server.Handles.Alive.{
  Looked, at_start, spawned, stopped, stop_sent, get_handle-Reach,
}

-- The service doubles a request that is not zero, and fails on zero; it counts its calls.
abbrev doubling : Backend ℕ
doubling = record {
  State = ℕ;
  Failure = Unit {0};
  send_recv = λ m n. (if m == 0 then err tt else ok (2 * m), n + 1);
}

abbrev peers : Peers peer
peers = record { requests = λ s. s.0; replies = λ s. s.1; reported = λ s. s }

abbrev Reports : List ℕ → List ℕ × List ℕ → ℕ → List ℕ → Type 0
Reports requests s m ms =
    (peer.result s ≡ some (ok tt))
    × ((peer.get_msg (requests, s.1)).0 ≡ some m)
    × ((peer.get_msg (requests, s.1)).1.0 ≡ ms)
    × ((peer.get_msg (requests, s.1)).1.1 ≡ s.1)

peer-IsReliable : IsReliable peer peers
peer-IsReliable = record {
  received =
      λ s m ms e. subst (λ requests. Reports requests s m ms) (sym e) (refl, refl, refl, refl);
  sent = λ s m. (refl, refl, refl, refl);
  cancelled = λ s. (refl, refl);
}

abbrev requests : List ℕ
requests = 3 ∷ 0 ∷ 5 ∷ []

abbrev waiting : List ℕ × List ℕ
waiting = (requests, [])

run-Served_example :
    Served peer doubling peers
      (run peer doubling peers
        (events peer doubling peers requests 0)
        receiving
        (record { nng = (peer.recv waiting).1; service = 0 }))
      (peers.replies waiting ++ (serve peer doubling peers requests 0).0)
      (serve peer doubling peers requests 0).1
run-Served_example = run-Served peer doubling peers peer-IsReliable requests waiting 0 refl

-- A worker that has started, and the one after its first request has been reported.
abbrev new_worker : Watched peer doubling
new_worker = record { nng = record { inner = waiting; pending = none }; service = 0 }

abbrev listening : Watched peer doubling
listening = record { nng = record { inner = waiting; pending = some receive }; service = 0 }

listening-Reach : Reach peer doubling (runs receiving listening)
unfolding recv
listening-Reach = start new_worker refl

Reach-Live_example : Live peer doubling (
    after peer doubling
      (on_event (watched peer) doubling receiving (reported peer doubling waiting listening)))
Reach-Live_example =
    Reach-Live peer doubling (next listening-Reach (report receive waiting (ok tt) refl refl))

abbrev answers : Answers options endpoint
answers = record {
  socket = ok [];
  pipe_notify = λ s. ok s;
  context = λ i. ok tt;
  aio = λ i. ok tt;
  spawn_worker = λ i. ok tt;
  spawn_controller = ok tt;
}

abbrev listener : ListenerConfig
listener = record {
  url = [];
  recv_max_size = none;
  no_delay = none;
  keep_alive = none;
  non_blocking = true;
  parallelism = 2;
}

abbrev no_servers : Servers
no_servers = record { handles = []; running = []; stopping = [] }

abbrev one_server : Servers
one_server = (spawn options endpoint 5 none listener 9 answers no_servers).1

one_server-Reach : Alive.Reach options endpoint one_server
one_server-Reach = spawned 5 none listener 9 answers at_start refl

-- The server after it was signalled to stop, and the task of that has run.
abbrev handle : ServerHandle
handle = record { id = 5; url = []; reqrep_id = 9; parallelism = 2; server_command_channel = true }

abbrev signalled : Servers
signalled = run_stop 5 (stop_async (ok tt) handle one_server).2

signalled-Reach : Alive.Reach options endpoint signalled
signalled-Reach = stop_sent 5 (stopped (ok tt) handle one_server-Reach)

get_handle-Reach_example : Looked 5 signalled (get_handle 5 signalled)
get_handle-Reach_example = get_handle-Reach options endpoint 5 signalled-Reach
