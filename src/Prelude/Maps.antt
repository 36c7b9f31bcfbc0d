-- ===== src/Prelude/Maps.antt =====
-- `HashMap<K, V>` as an association list. The order of the list is the map's iteration order, which
-- is unspecified: what is stated of a map holds for every order.
use mathlib.Core.Path.{◌≡◌, refl}
use mathlib.Core.Bool.{Bool, true, false}
use mathlib.Core.List.{List, [], ◌∷◌, map}
use mathlib.Core.Option.{Option, none, some}
use native.Mathlib.Omega.{arith}
use oysterpack.Prelude.Tests.{if◌then◌else◌}
use oysterpack.Prelude.Classes.{Eq, ◌==◌, contains}

abbrev pub HashMap {ℓ κ} : Type ℓ → Type κ → Type (ℓ ⊔ κ)
HashMap K V = List (K × V)

module _ {ℓ κ} {K : Type ℓ} {V : Type κ} ⦃e : Eq K⦄ where
  -- `HashMap::get`.
  abbrev pub get : K → HashMap K V → Option V
  get k [] = none
  get k ((j, v) ∷ m) = let rest = get k m in if j == k then some v else rest

  -- `HashMap::insert`, which replaces the value of a key that is there.
  abbrev pub insert : K → V → HashMap K V → HashMap K V
  insert k v [] = (k, v) ∷ []
  insert k v ((j, w) ∷ m) = let rest = insert k v m in if j == k then (k, v) ∷ m else (j, w) ∷ rest

  -- `HashMap::remove`.
  abbrev pub remove : K → HashMap K V → HashMap K V
  remove k [] = []
  remove k ((j, w) ∷ m) = let rest = remove k m in if j == k then rest else (j, w) ∷ rest

  -- `HashMap::contains_key`.
  abbrev pub contains_key : K → HashMap K V → Bool
  contains_key k [] = false
  contains_key k ((j, v) ∷ m) = let rest = contains_key k m in if j == k then true else rest

  abbrev pub keys : HashMap K V → List K
  keys m = map (λ (p : K × V). p.0) m

  abbrev pub values : HashMap K V → List V
  values m = map (λ (p : K × V). p.1) m

  pub get-insert :
      (k j : K) (v : V) (m : HashMap K V)
      → get j (insert k v m) ≡ (if k == j then some v else get j m)
  get-insert k j v [] = refl
  get-insert k j v ((i, w) ∷ m) =
      ground (arith, e.beq_iff k j, e.beq_iff i k, e.beq_iff i j, get-insert k j v m)

  pub get-remove :
      (k j : K) (m : HashMap K V) → get j (remove k m) ≡ (if k == j then none else get j m)
  get-remove k j [] = ground arith
  get-remove k j ((i, w) ∷ m) =
      ground (arith, e.beq_iff k j, e.beq_iff i k, e.beq_iff i j, get-remove k j m)

  pub contains_key-get : (k : K) (m : HashMap K V) → contains_key k m ≡ false → get k m ≡ none
  contains_key-get k [] h = refl
  contains_key-get k ((j, v) ∷ m) h = ground (arith, contains_key-get k m)

-- `Option::is_some`.
abbrev pub is_some {ℓ} : {V : Type ℓ} → Option V → Bool
is_some none = false
is_some (some v) = true

-- `Option::or`.
abbrev pub or_else {ℓ} : {V : Type ℓ} → Option V → Option V → Option V
or_else none o = o
or_else (some v) o = some v

module _ {ℓ κ} {K : Type ℓ} {V : Type κ} ⦃e : Eq K⦄ where
  abbrev pub insert_some : K → Option V → HashMap K V → HashMap K V
  insert_some k none m = m
  insert_some k (some v) m = insert k v m

  -- A fold over keys that inserts what a lookup finds for each.
  abbrev pub insert_found : (K → Option V) → List K → HashMap K V → HashMap K V
  insert_found found [] m = m
  insert_found found (k ∷ ks) m = insert_found found ks (insert_some k (found k) m)

  get-insert_some :
      (k j : K) (o : Option V) (m : HashMap K V)
      → get j (insert_some k o m) ≡ (if k == j then or_else o (get j m) else get j m)
  get-insert_some k j none m = ground arith
  get-insert_some k j (some v) m = get-insert k j v m

  pub get-insert_found :
      (found : K → Option V) (ks : List K) (m : HashMap K V) (j : K)
      → get j (insert_found found ks m)
        ≡ (if contains j ks then or_else (found j) (get j m) else get j m)
  get-insert_found found [] m j = refl
  get-insert_found found (k ∷ ks) m j = ground (
    arith,
    e.beq_iff k j,
    get-insert_found found ks (insert_some k (found k) m) j,
    get-insert_some k j (found k) m,
  )

  pub contains_key-of_get :
      (k : K) (m : HashMap K V) {v : V} → get k m ≡ some v → contains_key k m ≡ true
  contains_key-of_get k [] h = cc
  contains_key-of_get k ((j, w) ∷ m) {v} h = ground (arith, contains_key-of_get k m {v = v})

  pub contains_key-is_some : (k : K) (m : HashMap K V) → contains_key k m ≡ is_some (get k m)
  contains_key-is_some k [] = refl
  contains_key-is_some k ((j, w) ∷ m) = ground (arith, contains_key-is_some k m)
