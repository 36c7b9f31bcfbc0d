-- ===== src/Nng/Client/Registry.antt =====
-- `NngClient::new`, its `destroy`, and the two registries of oysterpack-trust-nng/src/reqrep/client.rs,
-- `CLIENTS` and `CLIENT_CONTEXTS`. A started service with its `NngClient` has a number, its instance.
use oysterpack.Prelude.{
  ℕ, zero, suc, ◌+◌, ◌-◌, ◌*◌, ◌/◌, ◌%◌, ◌^◌, ◌≤◌, ◌<◌, ◌≡◌, refl, sym, ap, ◌∙◌, subst, ◌≢◌, ◌↔◌,
  ◌⊎◌, inl, inr, Bool, true, false, not, ◌&&◌, ◌||◌, Option, none, some, List, [], ◌∷◌, ◌++◌, map,
  arith, Result, ok, err, ◌>>=◌, ◌>>◌, map_err, is_ok, >>=-eq-ok, ok-injective, Result-cases,
  Outcome, returns, panics, ltb, leb, if◌then◌else◌, Bool-cases, Option-cases, length, is_empty,
  filter, any, all, All, In, first, flat_map, filter_map, All-map, All-In, All-of_In, List-cases,
  length-append, ◌==◌, Eq, nat_eq, list_eq, nat_beq_iff, list_beq_iff, contains, HashMap, get,
  insert, remove, contains_key, keys, values, get-insert, get-remove, contains_key-get,
  contains_key-is_some, contains_key-of_get, is_some,
}
use oysterpack.Nng.Types.{NngError, Options, Endpoint}
use oysterpack.Nng.Config.{SocketConfigError}
use oysterpack.Nng.Client.Config.{
  SocketConfig, DialerConfig, DialerConfigError, create_socket, start_dialer,
}
pub mod Lookup
pub mod Destroy

-- The Boolean says whether the executor is shut down.
pub data NngClientError : Type 0 where
  socket_create_failure : SocketConfigError → NngClientError
  dialer_start_error : DialerConfigError → NngClientError
  nng_context_create_failed : NngError → NngClientError
  nng_aio_create_failed : NngError → NngClientError
  aio_context_pool_channel_closed : NngClientError
  aio_context_task_spawn_error : Bool → NngClientError
  reqrep_service_start_failed : Bool → NngClientError

pub data ClientRegistrationError : Type 0 where
  client_already_registered : ℕ → ClientRegistrationError
  nng_error : NngClientError → ClientRegistrationError

-- `Client`: the front end of an instance.
pub record Client : Type 0 where
  pub id : ℕ
  pub instance_id : ℕ

module _ (options : Options) (dialers : Endpoint options.State) where
  -- What nng and the executor answer in a call: for the socket, for the context, the Aio, the pool's
  -- channel and the task of each worker, for the task of the pool, and for the service.
  pub record Answers : Type 0 where
    pub socket : Result options.State NngError
    pub context : ℕ → Result (Unit {0}) NngError
    pub aio : ℕ → Result (Unit {0}) NngError
    pub pool_return : ℕ → Result (Unit {0}) (Unit {0})
    pub spawn : ℕ → Result (Unit {0}) Bool
    pub spawn_pool : Result (Unit {0}) Bool
    pub start_service : Result (Unit {0}) Bool

  -- Without its id, which is its key in the map, and the sender of its pool.
  pub record NngClientContext : Type 0 where
    pub socket : options.State
    pub dialer : dialers.Handle
    pub owner : ℕ

  -- The two registries, what has been closed, and the instance that is made next.
  pub record Registry : Type 0 where
    pub clients : HashMap ℕ Client
    pub contexts : HashMap ℕ NngClientContext
    pub closed_sockets : List ℕ
    pub stopped_pools : List ℕ
    pub next : ℕ

  -- The closure `create_context`.
  unfoldable pub create_context :
      Option SocketConfig → DialerConfig → Answers → ℕ → Result NngClientContext NngClientError
  create_context socket_config dialer_config a owner = do
    socket ← map_err socket_create_failure (create_socket options a.socket socket_config)
    dialer ← map_err dialer_start_error (start_dialer dialers dialer_config socket)
    ok (record { socket = socket; dialer = dialer; owner = owner })

  -- A round of the loop of the closure `start_workers`.
  unfoldable pub start_worker : Answers → ℕ → Result (Unit {0}) NngClientError
  start_worker a i = do
    map_err nng_context_create_failed (a.context i)
    map_err nng_aio_create_failed (a.aio i)
    map_err (λ _. aio_context_pool_channel_closed) (a.pool_return i)
    map_err aio_context_task_spawn_error (a.spawn i)

  -- The rounds from number i on, n of them.
  unfoldable pub start_workers : Answers → ℕ → ℕ → Result (Unit {0}) NngClientError
  unfolding start_worker
  start_workers a i zero = ok tt
  start_workers a i (suc n) = start_worker a i >> start_workers a (i + 1) n

  -- `NngClient::new` up to its end, where the context is inserted.
  unfoldable pub prepare :
      Option SocketConfig → DialerConfig → Answers → ℕ → Result NngClientContext NngClientError
  unfolding create_context start_workers
  prepare socket_config dialer_config a owner = do
    ctx ← create_context socket_config dialer_config a owner
    start_workers a 0 dialer_config.parallelism
    map_err aio_context_task_spawn_error a.spawn_pool
    ok ctx

  unfoldable pub inserted :
      ℕ
      → Registry
      → Result NngClientContext NngClientError
      → Result Client NngClientError × Registry
  inserted id r (err e) = (err e, record r { next = r.next + 1 })
  inserted id r (ok ctx) = (
    ok (record { id = id; instance_id = r.next }),
    record r { contexts = insert id ctx r.contexts; next = r.next + 1 },
  )

  -- `NngClient::new`.
  unfoldable pub new_client :
      ℕ
      → Option SocketConfig
      → DialerConfig
      → Answers
      → Registry
      → Result Client NngClientError × Registry
  unfolding inserted prepare
  new_client id socket_config dialer_config a r =
      inserted id r (prepare socket_config dialer_config a r.next)

  -- What follows `start_service`.
  unfoldable pub started :
      Result (Unit {0}) Bool → Client → Registry → Result Client ClientRegistrationError × Registry
  started (err shutdown) c r = (err (nng_error (reqrep_service_start_failed shutdown)), r)
  started (ok _) c r = (ok c, record r { clients = insert c.id c r.clients })

  unfoldable pub registered :
      Answers
      → Result Client NngClientError × Registry
      → Result Client ClientRegistrationError × Registry
  unfolding started
  registered a (err e, r) = (err (nng_error e), r)
  registered a (ok c, r) = started a.start_service c r

  unfoldable pub register_client :
      ℕ
      → Option SocketConfig
      → DialerConfig
      → Answers
      → Registry
      → Result Client ClientRegistrationError × Registry
  unfolding new_client registered
  register_client id socket_config dialer_config a r =
      if contains_key id r.clients
      then (err (client_already_registered id), r)
      else registered a (new_client id socket_config dialer_config a r)

  unfoldable pub unregister_client : ℕ → Registry → Option Client × Registry
  unregister_client id r = (get id r.clients, record r { clients = remove id r.clients })

  unfoldable pub client : ℕ → Registry → Option Client
  client id r = get id r.clients

  unfoldable pub registered_client_ids : Registry → List ℕ
  registered_client_ids r = keys r.clients

  -- `destroy`, which the service of an instance runs when all its front ends are gone.
  unfoldable pub destroy : Client → Registry → Registry
  destroy c r = elim (get c.id r.contexts) [
    | none ↦ r
    | some ctx ↦ record r {
      contexts = remove c.id r.contexts;
      closed_sockets = ctx.owner ∷ r.closed_sockets;
      stopped_pools = c.instance_id ∷ r.stopped_pools;
    }
  ]
