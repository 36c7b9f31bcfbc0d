-- ===== src/Nng/Client/Registry/Lookup.antt =====
-- Which clients are registered.
use oysterpack.Prelude.{
  ℕ, ◌+◌, ◌≡◌, refl, sym, ap, ◌∙◌, subst, ◌≢◌, inl, inr, Bool, false, Option, none, some, arith,
  Result, ok, err, map_err, >>=-eq-ok, ok-injective, if◌then◌else◌, Bool-cases, Option-cases, ◌==◌,
  nat_eq, list_eq, nat_beq_iff, get, insert, contains_key, get-insert, contains_key-get,
  contains_key-is_some,
}
use oysterpack.Nng.Types.{Options, Endpoint}
use oysterpack.Nng.Client.Config.{SocketConfig, DialerConfig, create_socket, start_dialer}
use oysterpack.Nng.Client.Registry.{
  ClientRegistrationError, client_already_registered, NngClientError, Client, Answers,
  NngClientContext, Registry, create_context, prepare, inserted, socket_create_failure,
  dialer_start_error, new_client, registered, started, register_client, client,
}

module _ (options : Options) (dialers : Endpoint options.State) where
  -- What a registration does: an error leaves the clients as they are, and a client is new, with a
  -- context of its own, and is all that is new.
  abbrev pub Registers :
      ℕ
      → Registry options dialers
      → Result Client ClientRegistrationError × Registry options dialers
      → Type 0
  Registers id r (err x, r') = r'.clients ≡ r.clients
  Registers id r (ok c, r') =
      (c.id ≡ id)
      × (c.instance_id ≡ r.next)
      × (r'.next ≡ r.next + 1)
      × (client options dialers id r ≡ none)
      × ((j : ℕ)
          → client options dialers j r' ≡ (if id == j then some c else client options dialers j r))
      × ((ctx : NngClientContext options dialers) × (get id r'.contexts ≡ some ctx)
          × (ctx.owner ≡ c.instance_id))

  prepare-owner :
      (s : Option SocketConfig) (d : DialerConfig) (a : Answers options dialers) (owner : ℕ)
      (ctx : NngClientContext options dialers)
      → prepare options dialers s d a owner ≡ ok ctx
      → ctx.owner ≡ owner
  unfolding prepare create_context
  prepare-owner s d a owner ctx h =
      let (c, e, f) = >>=-eq-ok (create_context options dialers s d a owner) _ h in
      let (x, k, g) =
        >>=-eq-ok (map_err socket_create_failure (create_socket options a.socket s)) _ e in
      let (y, l, q) = >>=-eq-ok (map_err dialer_start_error (start_dialer dialers d x)) _ g in
      let o : c.owner ≡ owner =
        ap (λ (t : NngClientContext options dialers). t.owner) (sym (ok-injective q)) in
      let same : c ≡ ctx = ground (arith, f) in
      ap (λ (t : NngClientContext options dialers). t.owner) (sym same) ∙ o

  started-Registers :
      (id : ℕ) (r : Registry options dialers) (o : Result (Unit {0}) Bool)
      (ctx : NngClientContext options dialers)
      → contains_key id r.clients ≡ false
      → ctx.owner ≡ r.next
      → Registers id r (
          started options dialers o
            (record { id = id; instance_id = r.next })
            (record r { contexts = insert id ctx r.contexts; next = r.next + 1 }))
  unfolding started client
  started-Registers id r (err shutdown) ctx k own = refl
  started-Registers id r (ok _) ctx k own = (
    refl,
    refl,
    refl,
    contains_key-get id r.clients k,
    λ j. get-insert id j _ r.clients,
    (ctx, get-insert id id ctx r.contexts ∙ ground (arith, nat_beq_iff id id), own),
  )

  registered-Registers :
      (id : ℕ) (r : Registry options dialers) (a : Answers options dialers)
      (p : Result (NngClientContext options dialers) NngClientError)
      → contains_key id r.clients ≡ false
      → ((ctx : NngClientContext options dialers) → p ≡ ok ctx → ctx.owner ≡ r.next)
      → Registers id r (registered options dialers a (inserted options dialers id r p))
  unfolding registered inserted
  registered-Registers id r a (err e) k own = refl
  registered-Registers id r a (ok ctx) k own =
      started-Registers id r a.start_service ctx k (own ctx refl)

  -- A call of `register_client` with the id of a registered client is refused and changes nothing.
  -- With any other id, whatever nng and the executor answer: an error leaves the clients as they
  -- are; a client that is answered has the id, is found under it from then on, while every other
  -- lookup is unchanged, has an instance of its own, and `CLIENT_CONTEXTS` has its context.
  pub register_client-Registers :
      (id : ℕ) (s : Option SocketConfig) (d : DialerConfig) (a : Answers options dialers)
      (r : Registry options dialers)
      → let result = register_client options dialers id s d a r in
        (client options dialers id r ≢ none → result ≡ (err (client_already_registered id), r))
        × (client options dialers id r ≡ none → Registers id r result)
  unfolding register_client client new_client
  register_client-Registers id s d a r = (
    λ n. elim (Bool-cases (contains_key id r.clients)) [
      | inl k ↦ rw k refl
      | inr k ↦ absurd (n (contains_key-get id r.clients k))
    ],
    λ n. elim (Bool-cases (contains_key id r.clients)) [
      | inl k ↦ absurd (ground (arith, contains_key-is_some id r.clients))
      | inr k ↦
          subst
            (λ b. Registers id r (
              if b
              then (err (client_already_registered id), r)
              else registered options dialers a (new_client options dialers id s d a r)))
            (sym k)
            (registered-Registers id r a (prepare options dialers s d a r.next) k
              (prepare-owner s d a r.next))
    ],
  )

  -- What is known once a registration has answered a client.
  abbrev pub IsRegistered :
      ℕ → Registry options dialers → Client → Registry options dialers → Type 0
  IsRegistered id r c r' = Registers id r (ok c, r')

  of_answer :
      (id : ℕ) (r : Registry options dialers) (c : Client)
      (result : Result Client ClientRegistrationError × Registry options dialers)
      → result.0 ≡ ok c
      → Registers id r result
      → IsRegistered id r c result.1
  of_answer id r c (err x, r') e k = absurd (ground arith)
  of_answer id r c (ok d, r') e k = subst (λ d. IsRegistered id r d r') (ok-injective e) k

  pub register_client-ok :
      (id : ℕ) (s : Option SocketConfig) (d : DialerConfig) (a : Answers options dialers)
      (r : Registry options dialers) (c : Client)
      → (register_client options dialers id s d a r).0 ≡ ok c
      → IsRegistered id r c (register_client options dialers id s d a r).1
  register_client-ok id s d a r c e =
      let (known, fresh) = register_client-Registers id s d a r in
      elim (Option-cases (client options dialers id r)) [
        | inl n ↦ of_answer id r c (register_client options dialers id s d a r) e (fresh n)
        | inr (c', n) ↦
            let q = known (λ m. ground (arith, n, m)) in
            absurd (ground (arith, sym (ap (λ p. p.0) q) ∙ e))
      ]
