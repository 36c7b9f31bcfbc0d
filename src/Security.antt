-- ===== src/Security.antt =====
-- Domains, services, their instances and clients of oysterpack-message/src/security.rs: what is
-- signed, by whom, and how it is verified. The signatures of sodiumoxide are a parameter; new ids and
-- key pairs are given to the functions that generate them. Keys of a `box_` and of a `sign` are their
-- 32 bytes.
use oysterpack.Prelude.{
  map_err-ok, some-injective, ℕ, zero, suc, ◌+◌, ◌-◌, ◌*◌, ◌/◌, ◌%◌, ◌^◌, ◌≤◌, ◌<◌, ◌≡◌, refl, sym,
  ap, ◌∙◌, subst, ◌≢◌, ◌↔◌, ◌⊎◌, inl, inr, Bool, true, false, not, ◌&&◌, ◌||◌, Option, none, some,
  List, [], ◌∷◌, ◌++◌, map, arith, Result, ok, err, ◌>>=◌, ◌>>◌, map_err, is_ok, >>=-eq-ok,
  ok-injective, Result-cases, Outcome, returns, panics, ltb, leb, if◌then◌else◌, Bool-cases,
  Option-cases, length, is_empty, filter, any, all, All, In, first, flat_map, filter_map, All-map,
  All-In, All-of_In, List-cases, length-append, ◌==◌, Eq, nat_eq, list_eq, nat_beq_iff,
  list_beq_iff, contains, HashMap, get, insert, remove, contains_key, keys, values, get-insert,
  get-remove, contains_key-get, contains_key-is_some, contains_key-of_get, is_some,
}
use oysterpack.Uid.{Ulids, Bytes, to_bytes}
pub mod Tamper

-- `crypto::sign`: a secret key is a number.
pub record Signatures : Type 0 where
  pub sign_detached : Bytes → (secret_key : ℕ) → Bytes
  pub verify_detached : (signature content : Bytes) → (public_key : Bytes) → Bool
  pub public_key : ℕ → Bytes

-- `sign::gen_keypair`, of the secret key.
abbrev pub key_pair : Signatures → ℕ → Bytes × ℕ
key_pair signs secret = (signs.public_key secret, secret)

pub record Domain : Type 0 where
  pub id : ℕ
  pub signing_public_key : Bytes
  pub parent_domain_id : Option ℕ
  pub parent_domain_signature : Option Bytes

pub record SigningDomain : Type 0 where
  pub domain : Domain
  pub signing_secret_key : ℕ

pub record Service : Type 0 where
  pub id : ℕ
  pub domain_id : ℕ
  pub domain_signature : Bytes
  pub signing_public_key : Bytes

pub record SigningService : Type 0 where
  pub service : Service
  pub signing_secret_key : ℕ

pub record ServiceInstance : Type 0 where
  pub address : Bytes
  pub service_id : ℕ
  pub service_signature : Bytes

pub record Subject : Type 0 where
  pub id : ℕ
  pub signing_public_key : Bytes

pub record SigningSubject : Type 0 where
  pub subject : Subject
  pub signing_secret_key : ℕ

pub record ServiceClient : Type 0 where
  pub address : Bytes
  pub subject_id : ℕ
  pub service_id : ℕ
  pub subject_signature : Bytes
  pub service_signature : Bytes

pub record SignedAddress : Type 0 where
  pub address : Bytes
  pub signer : Bytes
  pub signature : Bytes

pub data SecurityError : Type 0 where
  domain_must_be_child : ℕ → ℕ → SecurityError
  service_not_owned_by_domain : ℕ → ℕ → SecurityError

module _ (u : Ulids) where
  -- The four `signing_data`.
  unfoldable pub domain_data : ℕ → Bytes → Bytes
  domain_data id key = to_bytes u id ++ key

  unfoldable pub service_data : ℕ → ℕ → Bytes → Bytes
  service_data id domain_id key = to_bytes u id ++ (to_bytes u domain_id ++ key)

  unfoldable pub instance_data : Bytes → ℕ → Bytes
  instance_data address service_id = address ++ to_bytes u service_id

  unfoldable pub client_data : Bytes → ℕ → ℕ → Bytes
  client_data address subject_id service_id =
      address ++ (to_bytes u subject_id ++ to_bytes u service_id)

module _ (u : Ulids) (signs : Signatures) where
  -- `SigningDomain::new_root_domain`.
  unfoldable pub new_root_domain : (id secret : ℕ) → SigningDomain
  new_root_domain id secret =
      let (public, secret_key) = key_pair signs secret in
      record {
        domain = record {
          id = id;
          parent_domain_id = none;
          parent_domain_signature = none;
          signing_public_key = public;
        };
        signing_secret_key = secret_key;
      }

  -- `SigningDomain::new_child_domain`.
  unfoldable pub new_child_domain : (id secret : ℕ) → SigningDomain → SigningDomain
  new_child_domain id secret self =
      let (public, secret_key) = key_pair signs secret in
      record {
        domain = record {
          id = id;
          parent_domain_id = some self.domain.id;
          parent_domain_signature =
              some (signs.sign_detached (domain_data u id public) self.signing_secret_key);
          signing_public_key = public;
        };
        signing_secret_key = secret_key;
      }

  -- `SigningDomain::with_new_keys`.
  unfoldable pub with_new_keys : (secret : ℕ) → SigningDomain → SigningDomain
  with_new_keys secret self =
      let (public, secret_key) = key_pair signs secret in
      record {
        domain = record (self.domain) { signing_public_key = public };
        signing_secret_key = secret_key;
      }

  -- `Domain::is_child`.
  unfoldable pub is_child : Domain → Domain → Bool
  is_child self domain = elim domain.parent_domain_id [ none ↦ false | some id ↦ id == self.id ]

  -- `SigningDomain::sign_domain`.
  unfoldable pub sign_domain : SigningDomain → Domain → Result Domain SecurityError
  unfolding is_child
  sign_domain self child =
      if is_child self.domain child
      then ok (record {
        id = child.id;
        parent_domain_id = some self.domain.id;
        parent_domain_signature = some (
            signs.sign_detached (domain_data u child.id child.signing_public_key)
              self.signing_secret_key);
        signing_public_key = child.signing_public_key;
      })
      else err (domain_must_be_child self.domain.id child.id)

  -- `SigningDomain::new_service`.
  unfoldable pub new_service : (id secret : ℕ) → SigningDomain → SigningService
  new_service id secret self =
      let (public, secret_key) = key_pair signs secret in
      record {
        service = record {
          id = id;
          domain_id = self.domain.id;
          domain_signature =
              signs.sign_detached (service_data u id self.domain.id public) self.signing_secret_key;
          signing_public_key = public;
        };
        signing_secret_key = secret_key;
      }

  -- `SigningDomain::sign_service`.
  unfoldable pub sign_service : SigningDomain → Service → Result Service SecurityError
  sign_service self service =
      if self.domain.id == service.domain_id
      then ok (record {
        id = service.id;
        domain_id = self.domain.id;
        domain_signature =
            signs.sign_detached
              (service_data u service.id self.domain.id service.signing_public_key)
              self.signing_secret_key;
        signing_public_key = service.signing_public_key;
      })
      else err (service_not_owned_by_domain self.domain.id service.id)

  -- `Domain::verify`.
  unfoldable pub verify_domain : Domain → (parent_domain_key : Bytes) → Bool
  verify_domain self key = elim self.parent_domain_signature [
    | none ↦ true
    | some signature ↦
        signs.verify_detached signature (domain_data u self.id self.signing_public_key) key
  ]

  -- `Domain::is_root_domain`.
  unfoldable pub is_root_domain : Domain → Bool
  is_root_domain self = not (is_some self.parent_domain_id)

  -- `Service::verify`.
  unfoldable pub verify_service : Service → (domain_key : Bytes) → Bool
  verify_service self key =
      signs.verify_detached self.domain_signature
        (service_data u self.id self.domain_id self.signing_public_key) key

  -- `SigningService::new_service_instance`.
  unfoldable pub new_service_instance : Bytes → SigningService → ServiceInstance
  new_service_instance address self = record {
    address = address;
    service_id = self.service.id;
    service_signature =
        signs.sign_detached (instance_data u address self.service.id) self.signing_secret_key;
  }

  -- `ServiceInstance::verify`.
  unfoldable pub verify_instance : ServiceInstance → (service_key : Bytes) → Bool
  verify_instance self key =
      signs.verify_detached self.service_signature (instance_data u self.address self.service_id)
        key

  -- `SigningSubject::generate`.
  unfoldable pub generate_subject : (id secret : ℕ) → SigningSubject
  generate_subject id secret =
      let (public, secret_key) = key_pair signs secret in
      record {
        subject = record { id = id; signing_public_key = public };
        signing_secret_key = secret_key;
      }

  -- `ServiceClient::new`.
  unfoldable pub new_client : Bytes → SigningSubject → SigningService → ServiceClient
  new_client address subject service =
      let subject_signature =
        signs.sign_detached (client_data u address subject.subject.id service.service.id)
          subject.signing_secret_key in
      record {
        address = address;
        subject_id = subject.subject.id;
        service_id = service.service.id;
        subject_signature = subject_signature;
        service_signature = signs.sign_detached subject_signature service.signing_secret_key;
      }

  -- `ServiceClient::verify`.
  unfoldable pub verify_client : ServiceClient → (subject_key service_key : Bytes) → Bool
  verify_client self subject_key service_key =
      signs.verify_detached self.service_signature self.subject_signature service_key
      && signs.verify_detached self.subject_signature
          (client_data u self.address self.subject_id self.service_id) subject_key

  -- `Address::sign` and `SignedAddress::verify`.
  unfoldable pub sign_address : Bytes → (public_key : Bytes) → (secret_key : ℕ) → SignedAddress
  sign_address address public secret = record {
    address = address;
    signer = public;
    signature = signs.sign_detached address secret;
  }

  unfoldable pub verify_address : SignedAddress → Bool
  verify_address self = signs.verify_detached self.signature self.address self.signer
