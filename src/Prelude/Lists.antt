-- ===== src/Prelude/Lists.antt =====
-- Lists measured and indexed by native numbers, Boolean filters and tests.
use Prim.Native.Nat.{ℕ, zero, suc, ◌+◌}
use mathlib.Core.Path.{◌≡◌, refl, ap, sym, subst}
use mathlib.Core.Logic.{◌⊎◌, inl, inr}
use mathlib.Core.Bool.{Bool, true, false}
use mathlib.Core.List.{List, [], ◌∷◌, ◌++◌}
use mathlib.Core.Option.{Option, none, some}
use native.Mathlib.Omega.{arith}
use oysterpack.Prelude.Tests.{if◌then◌else◌, Bool-cases}

module _ {ℓ} {A : Type ℓ} where
  abbrev pub length : List A → ℕ
  length [] = 0
  length (x ∷ xs) = suc (length xs)

  abbrev pub get_elem? : List A → ℕ → Option A
  get_elem? [] i = none
  get_elem? (x ∷ xs) zero = some x
  get_elem? (x ∷ xs) (suc i) = get_elem? xs i

  -- `Vec::remove(i)`; out of bounds (where the source would panic) nothing changes.
  abbrev pub remove_at : List A → ℕ → List A
  remove_at [] i = []
  remove_at (x ∷ xs) zero = xs
  remove_at (x ∷ xs) (suc i) = x ∷ remove_at xs i

  -- `Vec::first`.
  abbrev pub first : List A → Option A
  first [] = none
  first (x ∷ xs) = some x

  -- `Vec::is_empty`.
  abbrev pub is_empty : List A → Bool
  is_empty [] = true
  is_empty (x ∷ xs) = false

  -- `Iterator::filter` with a Boolean test.
  abbrev pub filter : (A → Bool) → List A → List A
  filter p [] = []
  filter p (x ∷ xs) = let rest = filter p xs in if p x then x ∷ rest else rest

  -- `Iterator::any`, `Iterator::all`.
  abbrev pub any : (A → Bool) → List A → Bool
  any p [] = false
  any p (x ∷ xs) = let rest = any p xs in if p x then true else rest

  abbrev pub all : (A → Bool) → List A → Bool
  all p [] = true
  all p (x ∷ xs) = let rest = all p xs in if p x then rest else false

  abbrev pub All {κ} : (A → Type κ) → List A → Type κ
  All P [] = Unit
  All P (x ∷ xs) = P x × All P xs

  pub length-append : (xs ys : List A) → length (xs ++ ys) ≡ length xs + length ys
  length-append [] ys = omega arith
  length-append (x ∷ xs) ys = omega (arith, length-append xs ys)

abbrev pub keep_some {ℓ} : {A : Type ℓ} → Option A → List A → List A
keep_some none ys = ys
keep_some (some y) ys = y ∷ ys

module _ {ℓ κ} {A : Type ℓ} {B : Type κ} where
  -- `Iterator::flat_map`.
  abbrev pub flat_map : (A → List B) → List A → List B
  flat_map f [] = []
  flat_map f (x ∷ xs) = f x ++ flat_map f xs

  -- `Iterator::filter_map`.
  abbrev pub filter_map : (A → Option B) → List A → List B
  filter_map f [] = []
  filter_map f (x ∷ xs) = keep_some (f x) (filter_map f xs)

-- Membership by recursion, which the tactics take apart.
abbrev pub In : {A : Type 0} → A → List A → Type 0
In a [] = ⊥
In a (x ∷ xs) = (a ≡ x) ⊎ In a xs

module _ {ℓ} {A : Type 0} (P : A → Type ℓ) where
  pub All-In : (xs : List A) {a : A} → All P xs → In a xs → P a
  All-In [] h m = elim m [ ]
  All-In (x ∷ xs) h (inl e) = subst P (sym e) h.0
  All-In (x ∷ xs) h (inr m) = All-In xs h.1 m

  pub All-of_In : (xs : List A) → ((a : A) → In a xs → P a) → All P xs
  All-of_In [] h = tt
  All-of_In (x ∷ xs) h = (h x (inl refl), All-of_In xs (λ a m. h a (inr m)))

module _ {ℓ} {A : Type ℓ} where
  pub get_elem?-middle :
      (done : List A) (p : A) (rest : List A) → get_elem? (done ++ p ∷ rest) (length done) ≡ some p
  get_elem?-middle [] p rest = refl
  get_elem?-middle (d ∷ done) p rest = get_elem?-middle done p rest

  pub get_elem?-after :
      (done : List A) (p x : A) (rest : List A)
      → get_elem? (done ++ p ∷ x ∷ rest) (suc (length done)) ≡ some x
  get_elem?-after [] p x rest = refl
  get_elem?-after (d ∷ done) p x rest = get_elem?-after done p x rest

  pub remove_at-after :
      (done : List A) (p x : A) (rest : List A)
      → remove_at (done ++ p ∷ x ∷ rest) (suc (length done)) ≡ done ++ p ∷ rest
  remove_at-after [] p x rest = refl
  remove_at-after (d ∷ done) p x rest = ap (◌∷◌ d) (remove_at-after done p x rest)

module _ {ℓ κ μ} {A : Type ℓ} (P : A → Type κ) (Q : A → Type μ) where
  pub All-map : ((a : A) → P a → Q a) → (xs : List A) → All P xs → All Q xs
  All-map f [] h = tt
  All-map f (x ∷ xs) h = (f x h.0, All-map f xs h.1)

module _ {ℓ} {A : Type ℓ} where
  pub filter-nil : (p : A → Bool) (xs : List A) → filter p xs ≡ [] → All (λ x. p x ≡ false) xs
  filter-nil p [] h = tt
  filter-nil p (x ∷ xs) h = ground (arith, filter-nil p xs)

  pub filter-of_none : (p : A → Bool) (xs : List A) → All (λ x. p x ≡ false) xs → filter p xs ≡ []
  filter-of_none p [] h = refl
  filter-of_none p (x ∷ xs) h = ground (arith, filter-of_none p xs h.1)

  pub filter-append :
      (p : A → Bool) (xs ys : List A) → filter p (xs ++ ys) ≡ filter p xs ++ filter p ys
  filter-append p [] ys = refl
  filter-append p (x ∷ xs) ys = elim (Bool-cases (p x)) [
    | inl e ↦ rw e (ap (◌∷◌ x) (filter-append p xs ys))
    | inr e ↦ rw e (filter-append p xs ys)
  ]

  pub any_mono :
      (p q : A → Bool)
      → ((x : A) → p x ≡ true → q x ≡ true)
      → (xs : List A) → any p xs ≡ true
      → any q xs ≡ true
  any_mono p q f [] h = cc
  any_mono p q f (x ∷ xs) h = elim (Bool-cases (p x)) [
    | inl e ↦ rw (f x e) refl
    | inr e ↦ ground (arith, any_mono p q f xs)
  ]

  pub filter-congr :
      (p q : A → Bool) → ((x : A) → p x ≡ q x) → (xs : List A) → filter p xs ≡ filter q xs
  filter-congr p q f [] = refl
  filter-congr p q f (x ∷ xs) = rw (f x, filter-congr p q f xs) refl

  pub List-cases : (xs : List A) → (xs ≡ []) ⊎ ((x : A) × (ys : List A) × (xs ≡ x ∷ ys))
  List-cases [] = inl refl
  List-cases (x ∷ xs) = inr (x, xs, refl)
