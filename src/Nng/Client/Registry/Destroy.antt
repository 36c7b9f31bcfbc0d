-- ===== src/Nng/Client/Registry/Destroy.antt =====
-- Which socket the service of a client closes at its end.
use oysterpack.Prelude.{
  ℕ, ◌≡◌, refl, sym, ap, ◌∙◌, subst, ◌≢◌, Option, none, some, ◌∷◌, arith, ok, nat_eq, list_eq,
  nat_beq_iff, get, remove, get-remove,
}
use oysterpack.Nng.Types.{Options, Endpoint}
use oysterpack.Nng.Client.Config.{SocketConfig, DialerConfig}
use oysterpack.Nng.Client.Registry.{
  Client, Answers, NngClientContext, Registry, register_client, unregister_client, client, destroy,
}
use oysterpack.Nng.Client.Registry.Lookup.{register_client-ok}

module _ (options : Options) (dialers : Endpoint options.State) where
  -- `destroy` of a client that finds a context.
  destroy-some :
      (c : Client) (ctx : NngClientContext options dialers) (r : Registry options dialers)
      → get c.id r.contexts ≡ some ctx
      → destroy options dialers c r ≡ record r {
        contexts = remove c.id r.contexts;
        closed_sockets = ctx.owner ∷ r.closed_sockets;
        stopped_pools = c.instance_id ∷ r.stopped_pools;
      }
  unfolding destroy
  destroy-some c ctx r e = rw (e, destroy) refl

  -- What `destroy` of `c` has closed: the socket of that instance, and the pool of `c`.
  abbrev pub Closes : Client → ℕ → Registry options dialers → Registry options dialers → Type 0
  Closes c owner r r' =
      (r'.closed_sockets ≡ owner ∷ r.closed_sockets)
      × (r'.stopped_pools ≡ c.instance_id ∷ r.stopped_pools)
      × (get c.id r'.contexts ≡ none)
      × (r'.clients ≡ r.clients)

  destroy-Closes :
      (c : Client) (ctx : NngClientContext options dialers) (r : Registry options dialers)
      → get c.id r.contexts ≡ some ctx
      → Closes c ctx.owner r (destroy options dialers c r)
  destroy-Closes c ctx r e =
      subst (Closes c ctx.owner r) (sym (destroy-some c ctx r e))
        (refl, refl, get-remove c.id c.id r.contexts ∙ ground (arith, nat_beq_iff c.id c.id), refl)

  -- A client is registered, unregistered while a front end of it is left, and registered again under
  -- its id, with success both times. Had the service of the first ended in between, it would have
  -- closed its own socket; but once the second is registered, the end of the first closes the socket
  -- of the second, which stays registered without a context, and not its own.
  pub destroy-register_client :
      (id : ℕ) (s t : Option SocketConfig) (d e : DialerConfig) (a b : Answers options dialers)
      (r : Registry options dialers) (c c' : Client)
      → (register_client options dialers id s d a r).0 ≡ ok c
      → let r1 = (register_client options dialers id s d a r).1 in
        let r2 = (unregister_client options dialers id r1).1 in
        (register_client options dialers id t e b r2).0 ≡ ok c'
        → let r3 = (register_client options dialers id t e b r2).1 in
          Closes c c.instance_id r2 (destroy options dialers c r2)
          × Closes c c'.instance_id r3 (destroy options dialers c r3)
          × (c'.instance_id ≢ c.instance_id)
          × (client options dialers id (destroy options dialers c r3) ≡ some c')
  unfolding unregister_client client
  destroy-register_client id s t d e a b r c c' h k =
      let r1 = (register_client options dialers id s d a r).1 in
      let r2 = (unregister_client options dialers id r1).1 in
      let r3 = (register_client options dialers id t e b r2).1 in
      let (i, n, m, _, _, (ctx, g, o)) = register_client-ok options dialers id s d a r c h in
      let (i', n', m', _, f', (ctx', g', o')) =
        register_client-ok options dialers id t e b r2 c' k in
      let own = destroy-Closes c ctx r2 (ap (λ j. get j r1.contexts) i ∙ g) in
      let other = destroy-Closes c ctx' r3 (ap (λ j. get j r3.contexts) i ∙ g') in
      (
        subst (λ x. Closes c x r2 (destroy options dialers c r2)) o own,
        subst (λ x. Closes c x r3 (destroy options dialers c r3)) o' other,
        λ q. omega (arith, q, n, m, n'),
        ap (get id) other.3 ∙ f' id ∙ ground (arith, nat_beq_iff id id),
      )
