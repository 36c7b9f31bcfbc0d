-- ===== src/Examples/Clients.antt =====
-- Clients.
use oysterpack.Prelude.{
  ℕ, ◌≡◌, refl, ◌≢◌, ◌↔◌, Bool, true, false, Option, none, some, ◌*◌, List, [], ◌∷◌, arith, Result,
  ok, err, ltb, nat_eq, list_eq, nat_beq_iff,
}
use oysterpack.Examples.Sockets.{options, endpoint}
use oysterpack.Nng.Context.{Context}
use oysterpack.Nng.Client.Config.{DialerConfig, create_socket, configured, start_dialer}
use oysterpack.Nng.Client.Pool.{process}
use oysterpack.Nng.Client.Pool
use oysterpack.Nng.Client.Pool.Lost.{Reach, created, process-none_iff}
use oysterpack.Nng.Client.Registry.{
  ClientRegistrationError, client_already_registered, Client, Answers, Registry, register_client,
  unregister_client, client, destroy, new_client, inserted, registered, started, prepare,
  create_context, start_workers, start_worker,
}
use oysterpack.Nng.Client.Registry.Lookup.{Registers, register_client-Registers}
use oysterpack.Nng.Client.Registry.Destroy.{Closes, destroy-register_client}

abbrev doubled : Option ℕ → Option ℕ
doubled none = none
doubled (some m) = some (2 * m)

-- A context with its last request, and the reply that has been received; the peer doubles.
abbrev echo : Context ℕ
echo = record {
  State = Option ℕ × Option ℕ;
  recv = λ s. (ok tt, (s.0, doubled s.0));
  send = λ m s. (ok tt, (some m, none));
  cancel = λ s. s;
  result = λ s. some (ok tt);
  get_msg = λ s. (s.1, (none, none));
}

abbrev wait : Option ℕ × Option ℕ → Bool × (Option ℕ × Option ℕ)
wait s = (true, s)

-- Two workers, of which the second is first in the pool; neither has been asked.
abbrev two_workers : Pool.Client echo wait
two_workers = record {
  pool = 1 ∷ 0 ∷ [];
  alive = λ i. ltb i 2;
  context = λ i. (none, none);
  serving = true;
}

abbrev messages : List ℕ
messages = 4 ∷ 5 ∷ 6 ∷ []

abbrev one_worker : Pool.Client echo wait
one_worker = record two_workers { pool = 0 ∷ []; alive = λ i. ltb i 1 }

one_worker-Reach : Reach echo wait 1 one_worker
one_worker-Reach = created one_worker (λ j. ground (arith, nat_beq_iff 0 j)) (λ j. refl) refl

process-none_iff_example :
    (process echo wait 4 one_worker ≡ none)
    ↔ ((one_worker.serving ≡ true) × ((j : ℕ) → one_worker.alive j ≡ false))
process-none_iff_example = process-none_iff echo wait 1 4 one_worker-Reach

abbrev answers : Answers options endpoint
answers = record {
  socket = ok [];
  context = λ i. ok tt;
  aio = λ i. ok tt;
  pool_return = λ i. ok tt;
  spawn = λ i. ok tt;
  spawn_pool = ok tt;
  start_service = ok tt;
}

abbrev no_clients : Registry options endpoint
no_clients = record {
  clients = [];
  contexts = [];
  closed_sockets = [];
  stopped_pools = [];
  next = 0;
}

abbrev dialer : DialerConfig
dialer = record {
  url = [];
  parallelism = 2;
  recv_max_size = none;
  no_delay = none;
  keep_alive = none;
  reconnect_min_time = none;
  reconnect_max_time = none;
}

abbrev registration :
    Registry options endpoint → Result Client ClientRegistrationError × Registry options endpoint
registration r = register_client options endpoint 3 none dialer answers r

register_client-Registers_example :
    (client options endpoint 3 no_clients ≢ none
      → registration no_clients ≡ (err (client_already_registered 3), no_clients))
    × (client options endpoint 3 no_clients ≡ none
        → Registers options endpoint 3 no_clients (registration no_clients))
register_client-Registers_example =
    register_client-Registers options endpoint 3 none dialer answers no_clients

abbrev first_client : Client
first_client = record { id = 3; instance_id = 0 }

abbrev second_client : Client
second_client = record { id = 3; instance_id = 1 }

abbrev unregistered : Registry options endpoint
unregistered = (unregister_client options endpoint 3 (registration no_clients).1).1

first_registered : (registration no_clients).0 ≡ ok first_client
unfolding register_client new_client inserted registered started prepare create_context
    start_workers start_worker create_socket configured start_dialer
first_registered = refl

second_registered : (registration unregistered).0 ≡ ok second_client
unfolding register_client new_client inserted registered started prepare create_context
    start_workers start_worker create_socket configured start_dialer unregister_client
second_registered = refl

destroy-register_client_example :
    let r = (registration unregistered).1 in
    Closes options endpoint first_client 0 unregistered
      (destroy options endpoint first_client unregistered)
    × Closes options endpoint first_client 1 r (destroy options endpoint first_client r)
    × (second_client.instance_id ≢ first_client.instance_id)
    × (client options endpoint 3 (destroy options endpoint first_client r) ≡ some second_client)
destroy-register_client_example =
    destroy-register_client options endpoint 3 none none dialer dialer answers answers no_clients
      first_client second_client first_registered second_registered
