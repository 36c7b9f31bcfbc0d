-- ===== src/Examples/Domains.antt =====
-- Domains, with signatures that show their key.
use oysterpack.Prelude.{
  ℕ, ◌+◌, ◌/◌, ◌%◌, ◌^◌, ◌≡◌, refl, ap, ◌↔◌, true, none, some, [], ◌∷◌, ◌++◌, arith, ◌==◌, nat_eq,
  list_eq, list_beq_iff,
}
use oysterpack.Uid.{Ulids, Bytes, IsFaithful}
use oysterpack.Security.{
  Signatures, SigningDomain, SigningService, SigningSubject, new_child_domain, new_service,
  new_service_instance, new_client, verify_domain, verify_service, verify_instance, verify_client,
}
use oysterpack.Security.Tamper.{IsUnforgeable, verify_signed_iff}

abbrev ulids : Ulids
ulids = record {
  halves = λ n. (n / 2 ^ 64, n % 2 ^ 64);
  from_array = λ b. 0;
  generate = 0;
  increment = λ n. n + 1;
  write_u64 = λ n. n ∷ 0 ∷ 0 ∷ 0 ∷ 0 ∷ 0 ∷ 0 ∷ 0 ∷ [];
}

ulids-IsFaithful : IsFaithful ulids
ulids-IsFaithful = record {
  halves_differ = λ a b e. omega (arith, ap (λ (p : ℕ × ℕ). p.0) e, ap (λ (p : ℕ × ℕ). p.1) e);
  eight_bytes = λ n. refl;
  bytes_differ = λ a b e. ground (arith, e);
}

abbrev signs : Signatures
signs = record {
  sign_detached = λ d k. k ∷ d;
  verify_detached = λ s d public. s == public ++ d;
  public_key = λ k. k ∷ [];
}

signs-IsUnforgeable : IsUnforgeable signs
signs-IsUnforgeable = record {
  verifies = λ d k. (list_beq_iff (k ∷ d) (k ∷ d)).1 refl;
  binds = λ d e k h. let same = (list_beq_iff (k ∷ d) (k ∷ e)).0 h in ground (arith, same);
}

abbrev root : SigningDomain
root = record {
  domain = record {
    id = 1;
    signing_public_key = 50 ∷ [];
    parent_domain_id = none;
    parent_domain_signature = none;
  };
  signing_secret_key = 50;
}

abbrev service : SigningService
service = record {
  service = record { id = 2; domain_id = 1; domain_signature = []; signing_public_key = 60 ∷ [] };
  signing_secret_key = 60;
}

abbrev subject : SigningSubject
subject = record {
  subject = record { id = 3; signing_public_key = 70 ∷ [] };
  signing_secret_key = 70;
}

verify_signed_iff_example :
    let child = (new_child_domain ulids signs 4 80 root).domain in
    let made = (new_service ulids signs 4 80 root).service in
    let instanced = new_service_instance ulids signs (9 ∷ []) service in
    let client = new_client ulids signs (9 ∷ []) subject service in
    let changed = record child { id = 5; signing_public_key = 80 ∷ [] } in
    ((verify_domain ulids signs changed (50 ∷ []) ≡ true)
      ↔ ((◌≡◌ {A = ℕ} 4 5) × (signs.public_key 80 ≡ 80 ∷ [])))
    × ((verify_service ulids signs
            (record made { id = 5; domain_id = 1; signing_public_key = 80 ∷ [] })
            (50 ∷ [])
          ≡ true)
        ↔ ((◌≡◌ {A = ℕ} 4 5) × (root.domain.id ≡ 1) × (signs.public_key 80 ≡ 80 ∷ [])))
    × ((verify_instance ulids signs
            (record instanced { address = 8 ∷ []; service_id = 5 })
            (60 ∷ [])
          ≡ true)
        ↔ ((◌≡◌ {A = Bytes} (9 ∷ []) (8 ∷ [])) × (service.service.id ≡ 5)))
    × ((verify_client ulids signs
            (record client { address = 8 ∷ []; subject_id = 5; service_id = 1 })
            (70 ∷ [])
            (60 ∷ [])
          ≡ true)
        ↔ ((◌≡◌ {A = Bytes} (9 ∷ []) (8 ∷ []))
            × (subject.subject.id ≡ 5)
            × (service.service.id ≡ 1)))
    × (changed.parent_domain_id ≡ some root.domain.id)
    × (verify_domain ulids signs (record changed { parent_domain_signature = none }) (90 ∷ [])
        ≡ true)
verify_signed_iff_example =
    verify_signed_iff ulids ulids-IsFaithful signs signs-IsUnforgeable root service subject 4 80 5 1
      (80 ∷ []) (9 ∷ []) (8 ∷ []) (90 ∷ []) refl
