-- ===== src/Metrics/Buckets/Sweep.antt =====
-- One pass of `dedupe`, by index, is a sweep over the list: a bucket that is not above its
-- predecessor goes, and the one behind it is not looked at in this pass.
use mathlib.Core.List.{append_assoc}
use oysterpack.Prelude.{
  ℕ, zero, suc, ◌+◌, ◌-◌, ◌≤◌, ◌<◌, ◌≡◌, refl, ap, Bool, true, false, ◌||◌, or-true, or-false, List,
  [], ◌∷◌, ◌++◌, if◌then◌else◌, length, arith, lt→ltb, ge→ltb, Bool-cases, inl, inr, length-append,
  get_elem?-middle, get_elem?-after, remove_at-after,
}
use oysterpack.Metrics.Buckets.Defs.{less_at, dedupe_pass}

module _ {F : Type 0} (lt : F → F → Bool) where
  -- What a pass leaves of `p ∷ rest`, where `p` stays.
  abbrev pub sweep : F → List F → List F
  sweep p [] = p ∷ []
  sweep p (x ∷ []) = if lt p x then p ∷ x ∷ [] else p ∷ []
  sweep p (x ∷ y ∷ rest) =
      let on = sweep x (y ∷ rest) in let skip = sweep y rest in if lt p x then p ∷ on else p ∷ skip

  -- Does a pass over `p ∷ rest` remove something?
  abbrev pub drops : F → List F → Bool
  drops p [] = false
  drops p (x ∷ []) = if lt p x then false else true
  drops p (x ∷ y ∷ rest) = let on = drops x (y ∷ rest) in if lt p x then on else true

  less_at-middle :
      (done : List F) (p x : F) (rest : List F)
      → less_at lt (done ++ p ∷ x ∷ rest) (suc (length done)) ≡ lt p x
  unfolding less_at
  less_at-middle done p x rest =
      let e : suc (length done) - 1 ≡ length done = omega arith in
      rw (e, get_elem?-middle done p (x ∷ rest), get_elem?-after done p x rest)

  -- At the end of the vector the loop stops.
  pass-end :
      (fuel : ℕ) (buckets : List F) (i : ℕ) (found : Bool)
      → length buckets ≤ i
      → dedupe_pass lt fuel buckets i found ≡ (buckets, found)
  unfolding dedupe_pass
  pass-end zero buckets i found h = refl
  pass-end (suc fuel) buckets i found h = rw (ge→ltb i (length buckets) h, dedupe_pass)

  pass-step :
      (fuel : ℕ) (done : List F) (p x : F) (rest : List F) (found : Bool)
      → dedupe_pass lt (suc fuel) (done ++ p ∷ x ∷ rest) (suc (length done)) found ≡ (
          if lt p x
          then dedupe_pass lt fuel (done ++ p ∷ x ∷ rest) (suc (length done) + 1) found
          else dedupe_pass lt fuel (done ++ p ∷ rest) (suc (length done) + 1) true)
  unfolding dedupe_pass
  pass-step fuel done p x rest found =
      let room : suc (length done) < length (done ++ p ∷ x ∷ rest) =
        omega (arith, length-append done (p ∷ x ∷ rest)) in
      rw (lt→ltb (suc (length done)) (length (done ++ p ∷ x ∷ rest)) room, dedupe_pass)
        (rw (less_at-middle done p x rest, dedupe_pass)
          (elim (Bool-cases (lt p x)) [
            | inl e ↦ rw e refl
            | inr e ↦ rw e (
                ap (λ b. dedupe_pass lt fuel b (suc (length done) + 1) true)
                  (remove_at-after done p x rest))
          ]))

  -- What is claimed of a pass that stands at `p`, with `done` in front of it.
  abbrev Sweeps : ℕ → List F → F → List F → Bool → Type 0
  Sweeps fuel done p rest found =
      dedupe_pass lt fuel (done ++ p ∷ rest) (suc (length done)) found
      ≡ (done ++ sweep p rest, found || drops p rest)

  Sweeps-next :
      (fuel : ℕ) (done : List F) (p q : F) (rest : List F) (found : Bool)
      → Sweeps fuel (done ++ p ∷ []) q rest found
      → dedupe_pass lt fuel (done ++ p ∷ q ∷ rest) (suc (length done) + 1) found
        ≡ (done ++ p ∷ sweep q rest, found || drops q rest)
  Sweeps-next fuel done p q rest found ih =
      let e : suc (length (done ++ p ∷ [])) ≡ suc (length done) + 1 =
        omega (arith, length-append done (p ∷ [])) in
      rw (e, append_assoc done (p ∷ []) (q ∷ rest), append_assoc done (p ∷ []) (sweep q rest)) at ih

  -- The pass from any place on.
  dedupe_pass-Sweeps :
      (fuel : ℕ) (done : List F) (p : F) (rest : List F) (found : Bool)
      → length rest ≤ fuel
      → Sweeps fuel done p rest found
  dedupe_pass-Sweeps fuel done p [] found h = rw or-false (
      pass-end fuel (done ++ p ∷ []) (suc (length done)) found
        (omega (arith, length-append done (p ∷ []))))
  dedupe_pass-Sweeps zero done p (x ∷ rest) found h = elim h [ ]
  dedupe_pass-Sweeps (suc fuel) done p (x ∷ []) found h =
      rw (pass-step fuel done p x [] found) (elim (Bool-cases (lt p x)) [
        | inl e ↦
            rw (e, or-false)
              (pass-end fuel (done ++ p ∷ x ∷ []) (suc (length done) + 1) found
                (omega (arith, length-append done (p ∷ x ∷ []))))
        | inr e ↦
            rw (e, or-true)
              (pass-end fuel (done ++ p ∷ []) (suc (length done) + 1) true
                (omega (arith, length-append done (p ∷ []))))
      ])
  dedupe_pass-Sweeps (suc fuel) done p (x ∷ y ∷ rest) found h =
      rw (pass-step fuel done p x (y ∷ rest) found) (elim (Bool-cases (lt p x)) [
        | inl e ↦ rw e (
            Sweeps-next fuel done p x (y ∷ rest) found
              (dedupe_pass-Sweeps fuel (done ++ p ∷ []) x (y ∷ rest) found (omega arith)))
        | inr e ↦
            rw (e, or-true)
              (Sweeps-next fuel done p y rest true
                (dedupe_pass-Sweeps fuel (done ++ p ∷ []) y rest true (omega arith)))
      ])

  -- The loop of `dedupe`, with a round for each bucket, is the sweep.
  pub dedupe_pass-sweep :
      (p : F) (rest : List F)
      → dedupe_pass lt (length (p ∷ rest)) (p ∷ rest) 1 false ≡ (sweep p rest, drops p rest)
  dedupe_pass-sweep p rest = dedupe_pass-Sweeps (length (p ∷ rest)) [] p rest false (omega arith)
