-- ===== src/Security/Tamper.antt =====
-- What the signatures of a domain bind.
use oysterpack.Prelude.{
  ℕ, ◌≡◌, refl, sym, ap, ◌∙◌, subst, ◌↔◌, true, none, some, ◌++◌, arith, length, nat_eq, list_eq,
}
use oysterpack.Uid.{
  Ulids, Bytes, to_bytes, IsFaithful, append-injective, length-to_bytes, to_bytes-injective,
}
use oysterpack.Security.{
  Signatures, SigningDomain, SigningService, SigningSubject, domain_data, service_data,
  instance_data, client_data, new_child_domain, new_service, verify_domain, verify_service,
  new_service_instance, verify_instance, new_client, verify_client,
}

-- What sodiumoxide promises: a signature of a secret key verifies for the data that were signed,
-- with the public key of that key, and (as it cannot be forged) for no other data.
pub record IsUnforgeable (signs : Signatures) : Type 0 where
  pub verifies :
      (d : Bytes) (k : ℕ)
      → signs.verify_detached (signs.sign_detached d k) d (signs.public_key k) ≡ true
  pub binds :
      (d e : Bytes) (k : ℕ)
      → signs.verify_detached (signs.sign_detached d k) e (signs.public_key k) ≡ true
      → d ≡ e

module _ (u : Ulids) (faithful : IsFaithful u) where
  domain_data-injective :
      (i j : ℕ) (k l : Bytes) → domain_data u i k ≡ domain_data u j l → (i ≡ j) × (k ≡ l)
  unfolding domain_data
  domain_data-injective i j k l e =
      let (p, q) =
        append-injective (to_bytes u i) (to_bytes u j) k l
          (length-to_bytes u faithful i ∙ sym (length-to_bytes u faithful j)) e in
      (to_bytes-injective u faithful i j p, q)

  service_data-injective :
      (i j d f : ℕ) (k l : Bytes)
      → service_data u i d k ≡ service_data u j f l
      → (i ≡ j) × (d ≡ f) × (k ≡ l)
  unfolding service_data
  service_data-injective i j d f k l e =
      let (p, q) =
        append-injective (to_bytes u i) (to_bytes u j) (to_bytes u d ++ k) (to_bytes u f ++ l)
          (length-to_bytes u faithful i ∙ sym (length-to_bytes u faithful j)) e in
      let (r, s) =
        append-injective (to_bytes u d) (to_bytes u f) k l
          (length-to_bytes u faithful d ∙ sym (length-to_bytes u faithful f)) q in
      (to_bytes-injective u faithful i j p, to_bytes-injective u faithful d f r, s)

  instance_data-injective :
      (a b : Bytes) (i j : ℕ)
      → length a ≡ length b
      → instance_data u a i ≡ instance_data u b j
      → (a ≡ b) × (i ≡ j)
  unfolding instance_data
  instance_data-injective a b i j h e =
      let (p, q) = append-injective a b (to_bytes u i) (to_bytes u j) h e in
      (p, to_bytes-injective u faithful i j q)

  client_data-injective :
      (a b : Bytes) (i j m n : ℕ)
      → length a ≡ length b
      → client_data u a i m ≡ client_data u b j n
      → (a ≡ b) × (i ≡ j) × (m ≡ n)
  unfolding client_data
  client_data-injective a b i j m n h e =
      let (p, q) =
        append-injective a b (to_bytes u i ++ to_bytes u m) (to_bytes u j ++ to_bytes u n) h e in
      let (r, s) =
        append-injective (to_bytes u i) (to_bytes u j) (to_bytes u m) (to_bytes u n)
          (length-to_bytes u faithful i ∙ sym (length-to_bytes u faithful j)) q in
      (p, to_bytes-injective u faithful i j r, to_bytes-injective u faithful m n s)

  module _ (signs : Signatures) (unforgeable : IsUnforgeable signs) where
    verify_iff :
        (d e : Bytes) (k : ℕ)
        → (signs.verify_detached (signs.sign_detached d k) e (signs.public_key k) ≡ true) ↔ (d ≡ e)
    verify_iff d e k = (
      unforgeable.binds d e k,
      λ h.
          subst (λ e. signs.verify_detached (signs.sign_detached d k) e (signs.public_key k) ≡ true)
            h (unforgeable.verifies d k),
    )

    verify_domain_iff :
        (self : SigningDomain) (id secret id' : ℕ) (key' : Bytes)
        → let child = (new_child_domain u signs id secret self).domain in
          (verify_domain u signs
              (record child { id = id'; signing_public_key = key' })
              (signs.public_key self.signing_secret_key)
            ≡ true)
          ↔ ((id ≡ id') × (signs.public_key secret ≡ key'))
    unfolding verify_domain new_child_domain
    verify_domain_iff self id secret id' key' =
        let (f, g) =
          verify_iff (domain_data u id (signs.public_key secret)) (domain_data u id' key')
            self.signing_secret_key in
        (
          λ h. domain_data-injective id id' (signs.public_key secret) key' (f h),
          λ (p, q).
              g (ap (λ i. domain_data u i (signs.public_key secret)) p ∙ ap (domain_data u id') q),
        )

    verify_service_iff :
        (self : SigningDomain) (id secret id' domain' : ℕ) (key' : Bytes)
        → let made = (new_service u signs id secret self).service in
          (verify_service u signs
              (record made { id = id'; domain_id = domain'; signing_public_key = key' })
              (signs.public_key self.signing_secret_key)
            ≡ true)
          ↔ ((id ≡ id') × (self.domain.id ≡ domain') × (signs.public_key secret ≡ key'))
    unfolding verify_service new_service
    verify_service_iff self id secret id' domain' key' =
        let public = signs.public_key secret in
        let (f, g) =
          verify_iff (service_data u id self.domain.id public) (service_data u id' domain' key')
            self.signing_secret_key in
        (
          λ h. service_data-injective id id' self.domain.id domain' public key' (f h),
          λ (p, q, r). g (
              ap (λ i. service_data u i self.domain.id public) p
              ∙ ap (λ d. service_data u id' d public) q
              ∙ ap (service_data u id' domain') r),
        )

    verify_instance_iff :
        (service : SigningService) (address address' : Bytes) (id' : ℕ)
        → length address ≡ length address'
        → let made = new_service_instance u signs address service in
          (verify_instance u signs
              (record made { address = address'; service_id = id' })
              (signs.public_key service.signing_secret_key)
            ≡ true)
          ↔ ((address ≡ address') × (service.service.id ≡ id'))
    unfolding verify_instance new_service_instance
    verify_instance_iff service address address' id' l =
        let (f, g) =
          verify_iff (instance_data u address service.service.id) (instance_data u address' id')
            service.signing_secret_key in
        (
          λ h. instance_data-injective address address' service.service.id id' l (f h),
          λ (p, q).
              g (
                ap (λ a. instance_data u a service.service.id) p ∙ ap (instance_data u address') q),
        )

    verify_client_iff :
        (subject : SigningSubject) (service : SigningService) (address address' : Bytes)
        (subject' service' : ℕ)
        → length address ≡ length address'
        → let made = new_client u signs address subject service in
          (verify_client u signs
              (record made { address = address'; subject_id = subject'; service_id = service' })
              (signs.public_key subject.signing_secret_key)
              (signs.public_key service.signing_secret_key)
            ≡ true)
          ↔ ((address ≡ address')
              × (subject.subject.id ≡ subject')
              × (service.service.id ≡ service'))
    unfolding verify_client new_client
    verify_client_iff subject service address address' subject' service' l =
        let content = client_data u address subject.subject.id service.service.id in
        let (f, g) =
          verify_iff content (client_data u address' subject' service')
            subject.signing_secret_key in
        let own =
          unforgeable.verifies (signs.sign_detached content subject.signing_secret_key)
            service.signing_secret_key in
        (
          λ h.
              client_data-injective address address' subject.subject.id subject' service.service.id
                service' l (f (ground (arith, h, own))),
          λ (p, q, r). rw own (
              g (
                ap (λ a. client_data u a subject.subject.id service.service.id) p
                ∙ ap (λ i. client_data u address' i service.service.id) q
                ∙ ap (client_data u address' subject') r)),
        )

    -- The child domain, the service, the instance and the client that are made verify with the keys
    -- of their makers exactly while the ids, keys and addresses that were signed (an address for one
    -- of the same length) are unchanged, if signatures cannot be forged. But a domain that names a
    -- parent and whose signature has been taken away verifies with every key, whatever its id and
    -- key have become.
    pub verify_signed_iff :
        (self : SigningDomain) (service : SigningService) (subject : SigningSubject)
        (id secret id' domain' : ℕ) (key' address address' any_key : Bytes)
        → length address ≡ length address'
        → let parent_key = signs.public_key self.signing_secret_key in
          let service_key = signs.public_key service.signing_secret_key in
          let subject_key = signs.public_key subject.signing_secret_key in
          let child = (new_child_domain u signs id secret self).domain in
          let made = (new_service u signs id secret self).service in
          let instanced = new_service_instance u signs address service in
          let client = new_client u signs address subject service in
          let changed = record child { id = id'; signing_public_key = key' } in
          ((verify_domain u signs changed parent_key ≡ true)
            ↔ ((id ≡ id') × (signs.public_key secret ≡ key')))
          × ((verify_service u signs
                  (record made { id = id'; domain_id = domain'; signing_public_key = key' })
                  parent_key
                ≡ true)
              ↔ ((id ≡ id') × (self.domain.id ≡ domain') × (signs.public_key secret ≡ key')))
          × ((verify_instance u signs
                  (record instanced { address = address'; service_id = id' })
                  service_key
                ≡ true)
              ↔ ((address ≡ address') × (service.service.id ≡ id')))
          × ((verify_client u signs
                  (record client { address = address'; subject_id = id'; service_id = domain' })
                  subject_key
                  service_key
                ≡ true)
              ↔ ((address ≡ address')
                  × (subject.subject.id ≡ id')
                  × (service.service.id ≡ domain')))
          × (changed.parent_domain_id ≡ some self.domain.id)
          × (verify_domain u signs (record changed { parent_domain_signature = none }) any_key
              ≡ true)
    unfolding verify_domain new_child_domain
    verify_signed_iff self service subject id secret id' domain' key' address address' any_key l = (
      verify_domain_iff self id secret id' key',
      verify_service_iff self id secret id' domain' key',
      verify_instance_iff service address address' id' l,
      verify_client_iff subject service address address' id' domain' l,
      refl,
      refl,
    )
