-- ===== src/Prelude/Results.antt =====
-- `Result<A, E>` with the `?` operator as bind.
use mathlib.Core.Path.{◌≡◌, refl, ap}
use mathlib.Core.Logic.{◌⊎◌, inl, inr}
use mathlib.Core.Bool.{Bool, true, false}

pub data Result {ℓ κ} (A : Type ℓ) (E : Type κ) : Type (ℓ ⊔ κ) where
  ok : A → Result A E
  err : E → Result A E

module _ {ℓ} {E : Type ℓ} where
  -- `?`: an error ends the computation.
  infixl 5 ◌>>=◌ ◌>>◌
  abbrev pub ◌>>=◌ {κ μ} : {A : Type κ} {B : Type μ} → Result A E → (A → Result B E) → Result B E
  err failure >>= rest = err failure
  ok value >>= rest = rest value

  -- `?` on a check, which answers nothing.
  abbrev pub ◌>>◌ {κ} : {B : Type κ} → Result (Unit {0}) E → Result B E → Result B E
  err failure >> rest = err failure
  ok _ >> rest = rest

  -- `Result::map_err`.
  abbrev pub map_err {κ μ} : {A : Type κ} {F : Type μ} → (E → F) → Result A E → Result A F
  map_err f (ok a) = ok a
  map_err f (err e) = err (f e)

  abbrev pub is_ok {κ} : {A : Type κ} → Result A E → Bool
  is_ok (ok a) = true
  is_ok (err e) = false

  -- A computation succeeds only if its first part does.
  pub >>=-eq-ok {κ μ} :
      {A : Type κ} {B : Type μ} (first : Result A E) (rest : A → Result B E) {answer : B}
      → (first >>= rest) ≡ ok answer
      → (value : A) × (first ≡ ok value) × (rest value ≡ ok answer)
  >>=-eq-ok (err failure) rest stuck = cc
  >>=-eq-ok (ok value) rest done = (value, refl, done)

-- What a call does that may panic: `unwrap`, indexing, an explicit `panic!`.
pub data Outcome {ℓ} (A : Type ℓ) : Type ℓ where
  returns : A → Outcome A
  panics : Outcome A

module _ {ℓ κ} {A : Type ℓ} {E : Type κ} where
  abbrev ok_or : A → Result A E → A
  ok_or d (ok a) = a
  ok_or d (err e) = d

  pub ok-injective : {a b : A} → ◌≡◌ {A = Result A E} (ok a) (ok b) → a ≡ b
  ok-injective {a} h = ap (ok_or a) h

  pub Result-cases : (r : Result A E) → ((a : A) × (r ≡ ok a)) ⊎ ((e : E) × (r ≡ err e))
  Result-cases (ok a) = inl (a, refl)
  Result-cases (err e) = inr (e, refl)

  -- An error that is turned into another is one.
  pub map_err-ok {μ} :
      {F : Type μ} (f : E → F) (r : Result A E) {a : A} → map_err f r ≡ ok a → r ≡ ok a
  map_err-ok f (ok b) h = cc
  map_err-ok f (err e) h = cc
