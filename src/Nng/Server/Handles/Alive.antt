-- ===== src/Nng/Server/Handles/Alive.antt =====
-- The registry knows exactly the servers that run.
use oysterpack.Prelude.{
  ℕ, ◌≡◌, refl, sym, ap, ◌∙◌, subst, inl, inr, Bool, true, false, not, Option, none, some, List, [],
  ◌∷◌, arith, Result, ok, err, if◌then◌else◌, Bool-cases, Option-cases, any, ◌==◌, nat_eq, list_eq,
  nat_beq_iff, get, insert, remove, get-insert, get-remove, is_some, contains,
}
use oysterpack.Nng.Types.{Options, Endpoint}
use oysterpack.Nng.Config.{SocketConfig}
use oysterpack.Nng.Server.Listener.{ListenerConfig}
use oysterpack.Nng.Server.Handles.{
  SpawnError, ServerCommand, ping_command, stop_command, ServerHandle, Servers, Answers, prepare,
  registered, spawn, shut_down, take_command, control, is_stop, pinged, ping, send_stop, without,
  run_stop, stop_async, kept, found, get_handle,
}

-- A server runs if and only if it is registered; its handle has its id, and a sender.
pub record IsSynced (w : Servers) : Type 0 where
  pub synced : (id : ℕ) → is_some (get id w.handles) ≡ is_some (get id w.running)
  pub own :
      (id : ℕ) (h : ServerHandle)
      → get id w.handles ≡ some h
      → (h.id ≡ id) × (h.server_command_channel ≡ true)

queued-IsSynced :
    (id : ℕ) (cs ds : List ServerCommand) (w : Servers)
    → get id w.running ≡ some cs
    → IsSynced w
    → IsSynced (record w { running = insert id ds w.running })
queued-IsSynced id cs ds w e v = record {
  synced =
      λ j. ground (arith, get-insert id j ds w.running, v.synced j, v.synced id, nat_beq_iff id j);
  own = v.own;
}

shut_down-IsSynced : (id : ℕ) (w : Servers) → IsSynced w → IsSynced (shut_down id w)
unfolding shut_down
shut_down-IsSynced id w v = record {
  synced = λ j. ground (arith, get-remove id j w.running, get-remove id j w.handles, v.synced j);
  own = λ j h e. v.own j h (ground (arith, get-remove id j w.handles));
}

unregistered-IsSynced :
    (id : ℕ) (w : Servers)
    → get id w.running ≡ none
    → IsSynced w
    → IsSynced (record w { handles = remove id w.handles })
unregistered-IsSynced id w e v = record {
  synced = λ j. ground (arith, get-remove id j w.handles, v.synced j, nat_beq_iff id j);
  own = λ j h e. v.own j h (ground (arith, get-remove id j w.handles));
}

control-IsSynced : (id : ℕ) (w : Servers) → IsSynced w → IsSynced (control id w)
unfolding control take_command
control-IsSynced id w v = go (get id w.running) refl
  where
    go : (o : Option (List ServerCommand)) → get id w.running ≡ o → IsSynced (take_command id w o)
    go none e = v
    go (some []) e = v
    go (some (ping_command ∷ cs)) e = queued-IsSynced id (ping_command ∷ cs) cs w e v
    go (some (stop_command ∷ cs)) e = shut_down-IsSynced id w v

-- A ping that is not answered leaves no such server.
pinged-IsSynced :
    (id : ℕ) (w : Servers) (o : Option (List ServerCommand))
    → get id w.running ≡ o
    → IsSynced w
    → let (answered, w') = pinged id w o in
      IsSynced w' × (answered ≡ false → get id w'.running ≡ none)
unfolding pinged shut_down
pinged-IsSynced id w none e v = (v, λ _. e)
pinged-IsSynced id w (some cs) e v = elim (Bool-cases (any is_stop cs)) [
  | inl k ↦ rw k (
    shut_down-IsSynced id w v,
    λ _. get-remove id id w.running ∙ ground (arith, nat_beq_iff id id),
  )
  | inr k ↦ rw k (queued-IsSynced id cs [] w e v, λ f. absurd (ground arith))
]

send_stop-IsSynced :
    (id : ℕ) (w : Servers) (o : Option (List ServerCommand))
    → get id w.running ≡ o
    → IsSynced w
    → IsSynced (send_stop id w o)
unfolding send_stop
send_stop-IsSynced id w none e v = v
send_stop-IsSynced id w (some cs) e v = queued-IsSynced id cs _ w e v

stopping-IsSynced : (is : List ℕ) (w : Servers) → IsSynced w → IsSynced (record w { stopping = is })
stopping-IsSynced is w v = record { synced = v.synced; own = v.own }

run_stop-IsSynced : (id : ℕ) (w : Servers) → IsSynced w → IsSynced (run_stop id w)
unfolding run_stop
run_stop-IsSynced id w v = elim (Bool-cases (contains id w.stopping)) [
  | inl k ↦ rw k (
      send_stop-IsSynced id (record w { stopping = without id w.stopping }) (get id w.running) refl
        (stopping-IsSynced (without id w.stopping) w v))
  | inr k ↦ rw k v
]

stop_async-IsSynced :
    (spawned : Result (Unit {0}) Bool) (h : ServerHandle) (w : Servers)
    → IsSynced w
    → IsSynced (stop_async spawned h w).2
unfolding stop_async
stop_async-IsSynced (err x) h w v = elim (Bool-cases h.server_command_channel) [
  | inl k ↦ rw k v
  | inr k ↦ rw k v
]
stop_async-IsSynced (ok _) h w v = elim (Bool-cases h.server_command_channel) [
  | inl k ↦ rw k (stopping-IsSynced (h.id ∷ w.stopping) w v)
  | inr k ↦ rw k v
]

ping-IsSynced : (h : ServerHandle) (w : Servers) → IsSynced w → IsSynced (ping h w).1
unfolding ping
ping-IsSynced h w v = elim (Bool-cases h.server_command_channel) [
  | inl k ↦ rw k (pinged-IsSynced h.id w (get h.id w.running) refl v).0
  | inr k ↦ rw k v
]

-- Whether a controller would still answer a ping.
abbrev pub answers : Option (List ServerCommand) → Bool
answers none = false
answers (some cs) = not (any is_stop cs)

-- What a lookup answers and leaves of the server.
abbrev pub Looked : ℕ → Servers → Option ServerHandle × Servers → Type 0
Looked id w (o, w') =
    (answers (get id w.running) ≡ true
      → (h : ServerHandle) × (o ≡ some h) × (get id w.handles ≡ some h) × (h.id ≡ id))
    × (answers (get id w.running) ≡ false
        → (o ≡ none) × (get id w'.handles ≡ none) × (get id w'.running ≡ none))

kept-Looked :
    (id : ℕ) (h : ServerHandle) (w : Servers) (o : Option (List ServerCommand))
    → get id w.running ≡ o
    → get id w.handles ≡ some h
    → IsSynced w
    → IsSynced (kept id h (pinged id w o)).1 × Looked id w (kept id h (pinged id w o))
unfolding kept pinged shut_down
kept-Looked id h w none e f v = absurd (ground (arith, v.synced id))
kept-Looked id h w (some cs) e f v = elim (Bool-cases (any is_stop cs)) [
  | inl k ↦
      let gone : get id (remove id w.running) ≡ none =
        get-remove id id w.running ∙ ground (arith, nat_beq_iff id id) in
      let removed = remove id w.handles in
      rw k (
        unregistered-IsSynced id (shut_down id w) gone (shut_down-IsSynced id w v),
        (
          λ t. absurd (ground (arith, e, k)),
          λ _. (refl, get-remove id id removed ∙ ground (arith, nat_beq_iff id id), gone),
        ),
      )
  | inr k ↦ rw k (
    queued-IsSynced id cs [] w e v,
    (λ _. (h, refl, f, (v.own id h f).0), λ t. absurd (ground (arith, e, k))),
  )
]

get_handle-Looked :
    (id : ℕ) (w : Servers)
    → IsSynced w
    → IsSynced (get_handle id w).1 × Looked id w (get_handle id w)
unfolding get_handle found ping
get_handle-Looked id w v = elim (Option-cases (get id w.handles)) [
  | inl e ↦
      let dead : get id w.running ≡ none = ground (arith, e, v.synced id) in
      rw e (v, (λ t. absurd (ground (arith, dead)), λ _. (refl, e, dead)))
  | inr (h, e) ↦
      let (i, c) = v.own id h e in
      let answer : ping h w ≡ pinged id w (get id w.running) =
        ap (λ b. if b then pinged h.id w (get h.id w.running) else (false, w)) c
        ∙ ap (λ i. pinged i w (get i w.running)) i in
      subst (λ r. IsSynced r.1 × Looked id w r)
        (ap (kept id h) (sym answer) ∙ ap (found id w) (sym e))
        (kept-Looked id h w (get id w.running) refl e v)
]

registered_new :
    (id : ℕ) (h : ServerHandle) (w : Servers)
    → get id w.running ≡ none
    → h.id ≡ id
    → h.server_command_channel ≡ true
    → IsSynced w
    → IsSynced (record w { handles = insert id h w.handles; running = insert id [] w.running })
registered_new id h w fresh i c v = record {
  synced =
      λ j. ground (arith, get-insert id j [] w.running, get-insert id j h w.handles, v.synced j);
  own = λ j k e. ground (arith, get-insert id j h w.handles, nat_beq_iff id j, v.own j k, i, c);
}

module _ (options : Options) (listeners : Endpoint options.State) where
  spawn-IsSynced :
      (id : ℕ) (s : Option SocketConfig) (c : ListenerConfig) (reqrep_id : ℕ)
      (a : Answers options listeners) (w : Servers)
      → get id w.running ≡ none
      → IsSynced w
      → IsSynced (spawn options listeners id s c reqrep_id a w).1
  unfolding spawn registered
  spawn-IsSynced id s c reqrep_id a w fresh v = go (prepare options listeners s c a)
    where
      go :
          (r : Result (Unit {0}) SpawnError)
          → IsSynced (registered options listeners id c reqrep_id w r).1
      go (err e) = v
      go (ok _) = elim (Bool-cases (c.parallelism == 0)) [
        | inl k ↦ rw k v
        | inr k ↦ rw k (registered_new id _ w fresh refl refl v)
      ]

  -- What calls, tasks and controllers do to the servers, in any order. The ULID of a server is new.
  pub data Reach : Servers → Type 0 where
    at_start : Reach (record { handles = []; running = []; stopping = [] })
    spawned :
        {w : Servers} (id : ℕ) (s : Option SocketConfig) (c : ListenerConfig) (reqrep_id : ℕ)
        (a : Answers options listeners)
        → Reach w
        → get id w.running ≡ none
        → Reach (spawn options listeners id s c reqrep_id a w).1
    controlled : {w : Servers} (id : ℕ) → Reach w → Reach (control id w)
    was_pinged : {w : Servers} (h : ServerHandle) → Reach w → Reach (ping h w).1
    stopped :
        {w : Servers} (e : Result (Unit {0}) Bool) (h : ServerHandle)
        → Reach w
        → Reach (stop_async e h w).2
    stop_sent : {w : Servers} (id : ℕ) → Reach w → Reach (run_stop id w)
    looked_up : {w : Servers} (id : ℕ) → Reach w → Reach (get_handle id w).1

  Reach-IsSynced : {w : Servers} → Reach w → IsSynced w
  Reach-IsSynced at_start = record { synced = λ id. refl; own = λ id h e. absurd (ground arith) }
  Reach-IsSynced (spawned id s c q a k fresh) = spawn-IsSynced id s c q a _ fresh (Reach-IsSynced k)
  Reach-IsSynced (controlled id k) = control-IsSynced id _ (Reach-IsSynced k)
  Reach-IsSynced (was_pinged h k) = ping-IsSynced h _ (Reach-IsSynced k)
  Reach-IsSynced (stopped e h k) = stop_async-IsSynced e h _ (Reach-IsSynced k)
  Reach-IsSynced (stop_sent id k) = run_stop-IsSynced id _ (Reach-IsSynced k)
  Reach-IsSynced (looked_up id k) = (get_handle-Looked id _ (Reach-IsSynced k)).0

  -- After any history of `spawn`, `ping`, `stop_async`, lookups, commands that controllers take and
  -- stops that the tasks of `stop_async` send:
  -- `ServerHandle::get` answers the registered handle, with the id, of a server that runs and has
  -- no `Stop` to take; for any other id it answers none, and then no such server runs or is
  -- registered any more.
  pub get_handle-Reach : {w : Servers} (id : ℕ) → Reach w → Looked id w (get_handle id w)
  get_handle-Reach id k = (get_handle-Looked id _ (Reach-IsSynced k)).1
