-- ===== src/Nng/Server/Handles.antt =====
-- `spawn`, the controller task and `ServerHandle` of oysterpack-trust-nng/src/reqrep/server.rs, with
-- the registry `SERVER_HANDLES`. A server is named by the ULID that it is given; its workers are in
-- `Worker`.
use oysterpack.Prelude.{
  ℕ, zero, suc, ◌+◌, ◌-◌, ◌*◌, ◌/◌, ◌%◌, ◌^◌, ◌≤◌, ◌<◌, ◌≡◌, refl, sym, ap, ◌∙◌, subst, ◌≢◌, ◌↔◌,
  ◌⊎◌, inl, inr, Bool, true, false, not, ◌&&◌, ◌||◌, Option, none, some, List, [], ◌∷◌, ◌++◌, map,
  arith, Result, ok, err, ◌>>=◌, ◌>>◌, map_err, is_ok, >>=-eq-ok, ok-injective, Result-cases,
  Outcome, returns, panics, ltb, leb, if◌then◌else◌, Bool-cases, Option-cases, length, is_empty,
  filter, any, all, All, In, first, flat_map, filter_map, All-map, All-In, All-of_In, List-cases,
  length-append, ◌==◌, Eq, nat_eq, list_eq, nat_beq_iff, list_beq_iff, contains, HashMap, get,
  insert, remove, contains_key, keys, values, get-insert, get-remove, contains_key-get,
  contains_key-is_some, contains_key-of_get, is_some,
}
use oysterpack.Text.{Str}
use oysterpack.Nng.Types.{NngError, Options, Endpoint}
use oysterpack.Nng.Config.{SocketConfig, SocketConfigError, apply}
use oysterpack.Nng.Server.Listener.{ListenerConfig, ListenerConfigError, start_listener}
pub mod Alive

-- The Boolean says whether the executor is shut down.
pub data SpawnError : Type 0 where
  socket_create_failure : NngError → SpawnError
  listener_options_create_failure : NngError → SpawnError
  context_create_failure : NngError → SpawnError
  aio_create_with_callback_failure : NngError → SpawnError
  executor_spawn_error : Bool → SpawnError
  listener_start_failure : ListenerConfigError → SpawnError
  socket_config_apply_failed : SocketConfigError → SpawnError

pub data ServerCommand : Type 0 where
  ping_command : ServerCommand
  stop_command : ServerCommand

-- `ServerHandle`; `server_command_channel` says whether the handle has its sender still.
pub record ServerHandle : Type 0 where
  pub id : ℕ
  pub url : Str
  pub reqrep_id : ℕ
  pub parallelism : ℕ
  pub server_command_channel : Bool

-- The registry; the controllers that run, each with the commands that it has yet to take; and the
-- tasks of `stop_async` that have yet to send their `Stop`, each as the id of its server.
pub record Servers : Type 0 where
  pub handles : HashMap ℕ ServerHandle
  pub running : HashMap ℕ (List ServerCommand)
  pub stopping : List ℕ

module _ (options : Options) (listeners : Endpoint options.State) where
  -- What nng and the executor answer in a call of `spawn`: for the socket, for its notifications,
  -- for the context, the Aio and the task of each worker, and for the task of the controller.
  pub record Answers : Type 0 where
    pub socket : Result options.State NngError
    pub pipe_notify : options.State → Result options.State NngError
    pub context : ℕ → Result (Unit {0}) NngError
    pub aio : ℕ → Result (Unit {0}) NngError
    pub spawn_worker : ℕ → Result (Unit {0}) Bool
    pub spawn_controller : Result (Unit {0}) Bool

  configured : Option SocketConfig → options.State → Result options.State SpawnError
  configured none socket = ok socket
  configured (some c) socket = map_err socket_config_apply_failed (apply options c socket)

  -- The closure `create_socket`.
  unfoldable pub create_socket : Option SocketConfig → Answers → Result options.State SpawnError
  unfolding configured
  create_socket c a = do
    socket ← map_err socket_create_failure a.socket
    socket ← map_err socket_create_failure (a.pipe_notify socket)
    configured c socket

  -- A round of the loop of the closure `create_workers`, and the rounds from number i on.
  unfoldable pub create_worker : Answers → ℕ → Result (Unit {0}) SpawnError
  create_worker a i = do
    map_err context_create_failure (a.context i)
    map_err aio_create_with_callback_failure (a.aio i)
    map_err executor_spawn_error (a.spawn_worker i)

  unfoldable pub create_workers : Answers → ℕ → ℕ → Result (Unit {0}) SpawnError
  unfolding create_worker
  create_workers a i zero = ok tt
  create_workers a i (suc n) = create_worker a i >> create_workers a (i + 1) n

  -- What `spawn` does before the controller runs.
  unfoldable pub prepare :
      Option SocketConfig → ListenerConfig → Answers → Result (Unit {0}) SpawnError
  unfolding create_socket create_workers
  prepare socket_config listener_config a = do
    socket ← create_socket socket_config a
    create_workers a 0 listener_config.parallelism
    listener ← map_err listener_start_failure (start_listener listeners listener_config socket)
    map_err executor_spawn_error a.spawn_controller

  -- `NonZeroUsize::new(parallelism).unwrap()`, and the registration of the handle. The panic drops
  -- the sender of the commands and the handle of the controller, which ends before any command.
  registered :
      ℕ
      → ListenerConfig
      → ℕ
      → Servers
      → Result (Unit {0}) SpawnError
      → Outcome (Result ServerHandle SpawnError) × Servers
  registered id c reqrep_id w (err e) = (returns (err e), w)
  registered id c reqrep_id w (ok _) =
      let h : ServerHandle = record {
        id = id;
        url = c.url;
        reqrep_id = reqrep_id;
        parallelism = c.parallelism;
        server_command_channel = true;
      } in
      if c.parallelism == 0 then (panics, w) else (
        returns (ok h),
        record w { handles = insert id h w.handles; running = insert id [] w.running },
      )

  -- `spawn`, given the ULID that it generates and the id of the service.
  unfoldable pub spawn :
      ℕ
      → Option SocketConfig
      → ListenerConfig
      → ℕ
      → Answers
      → Servers
      → Outcome (Result ServerHandle SpawnError) × Servers
  unfolding prepare registered
  spawn id socket_config listener_config reqrep_id a w =
      registered id listener_config reqrep_id w (prepare socket_config listener_config a)

-- `Stop`: the controller leaves its loop, and unregisters the server.
unfoldable pub shut_down : ℕ → Servers → Servers
shut_down id w = record w { handles = remove id w.handles; running = remove id w.running }

take_command : ℕ → Servers → Option (List ServerCommand) → Servers
unfolding shut_down
take_command id w none = w
take_command id w (some []) = w
take_command id w (some (ping_command ∷ cs)) = record w { running = insert id cs w.running }
take_command id w (some (stop_command ∷ cs)) = shut_down id w

-- The loop of the controller takes its next command.
unfoldable pub control : ℕ → Servers → Servers
unfolding take_command
control id w = take_command id w (get id w.running)

unfoldable pub is_stop : ServerCommand → Bool
is_stop ping_command = false
is_stop stop_command = true

pinged : ℕ → Servers → Option (List ServerCommand) → Bool × Servers
unfolding shut_down is_stop
pinged id w none = (false, w)
pinged id w (some cs) =
    if any is_stop cs
    then (false, shut_down id w)
    else (true, record w { running = insert id [] w.running })

-- `ServerHandle::ping`, which waits for the controller to take the commands before it, and either
-- its own or the stop.
unfoldable pub ping : ServerHandle → Servers → Bool × Servers
unfolding pinged
ping h w = if h.server_command_channel then pinged h.id w (get h.id w.running) else (false, w)

send_stop : ℕ → Servers → Option (List ServerCommand) → Servers
send_stop id w none = w
send_stop id w (some cs) = record w { running = insert id (cs ++ stop_command ∷ []) w.running }

-- One task less for the server.
without : ℕ → List ℕ → List ℕ
without id [] = []
without id (i ∷ is) = let rest = without id is in if i == id then is else i ∷ rest

-- A task of `stop_async` for the server runs: `c.send(ServerCommand::Stop)`, whose result is ignored.
unfoldable pub run_stop : ℕ → Servers → Servers
unfolding send_stop without
run_stop id w =
    if contains id w.stopping
    then send_stop id (record w { stopping = without id w.stopping }) (get id w.running)
    else w

-- `ServerHandle::stop_async`, which spawns the task, given what the executor answers to the spawn (an
-- error says whether it is shut down): the answer, the handle, which has given its channel away, and
-- the servers.
unfoldable pub stop_async :
    Result (Unit {0}) Bool → ServerHandle → Servers → Result Bool Bool × ServerHandle × Servers
stop_async spawned h w =
    if h.server_command_channel
    then (elim spawned [
      | err shutdown ↦ (err shutdown, record h { server_command_channel = false }, w)
      | ok _ ↦ (
        ok true,
        record h { server_command_channel = false },
        record w { stopping = h.id ∷ w.stopping },
      )
    ])
    else (ok false, h, w)

-- `ServerHandle::stop_signalled`.
unfoldable pub stop_signalled : ServerHandle → Bool
stop_signalled h = not h.server_command_channel

-- `ServerHandle::get`: a server that does not answer is unregistered.
kept : ℕ → ServerHandle → Bool × Servers → Option ServerHandle × Servers
kept id h (true, w) = (some h, w)
kept id h (false, w) = (none, record w { handles = remove id w.handles })

found : ℕ → Servers → Option ServerHandle → Option ServerHandle × Servers
unfolding kept ping
found id w none = (none, w)
found id w (some h) = kept id h (ping h w)

unfoldable pub get_handle : ℕ → Servers → Option ServerHandle × Servers
unfolding found
get_handle id w = found id w (get id w.handles)

-- `ServerHandle::all`, `ids` and `get_by_reqrep_id`.
unfoldable pub all_handles : Servers → List ServerHandle
all_handles w = values w.handles

unfoldable pub ids : Servers → List (ℕ × ℕ)
ids w = map (λ (h : ServerHandle). (h.id, h.reqrep_id)) (values w.handles)

unfoldable pub get_by_reqrep_id : ℕ → Servers → List ServerHandle
get_by_reqrep_id reqrep_id w =
    filter (λ (h : ServerHandle). h.reqrep_id == reqrep_id) (values w.handles)
