-- ===== src/Metrics/Buckets/Cover.antt =====
-- `check_buckets` loses no bound: each bucket that was given is among the result, or is equal to one
-- that is.
use oysterpack.Prelude.{
  ℕ, zero, suc, ◌≡◌, refl, sym, Bool, false, List, [], ◌∷◌, ok, length, Bool-cases, inl, inr, In,
  subst, ok-injective,
}
use oysterpack.Metrics.Buckets.Defs.{dedupe_rounds, check_buckets}
use oysterpack.Metrics.Buckets.Sweep.{sweep, drops}
use oysterpack.Metrics.Buckets.Rising.{dedupe_rounds-step}

module _ {F : Type 0} (lt : F → F → Bool) where
  -- No bucket is above the next.
  abbrev pub Sorted : List F → Type 0
  Sorted [] = Unit
  Sorted (a ∷ []) = Unit
  Sorted (a ∷ b ∷ xs) = (lt b a ≡ false) × Sorted (b ∷ xs)

  -- Neither is below the other.
  abbrev pub Equal : F → F → Type 0
  Equal a b = (lt a b ≡ false) × (lt b a ≡ false)

  abbrev pub Covered : F → List F → Type 0
  Covered a xs = (b : F) × In b xs × Equal a b

  module _ (not_lt_self : (a : F) → lt a a ≡ false)
      (not_lt_trans : (a b c : F) → lt a b ≡ false → lt b c ≡ false → lt a c ≡ false) where
    Covered-cons : {a : F} (b : F) (xs : List F) → Covered a xs → Covered a (b ∷ xs)
    Covered-cons b xs (c, m, e) = (c, inr m, e)

    Covered-here : (a : F) (xs : List F) → Covered a (a ∷ xs)
    Covered-here a xs = (a, inl refl, (not_lt_self a, not_lt_self a))

    Equal-trans : {a b c : F} → Equal a b → Equal b c → Equal a c
    Equal-trans {a} {b} {c} h k = (not_lt_trans a b c h.0 k.0, not_lt_trans c b a k.1 h.1)

    sweep-head : (p : F) (rest : List F) → (t : List F) × (sweep lt p rest ≡ p ∷ t)
    sweep-head p [] = ([], refl)
    sweep-head p (x ∷ []) = elim (Bool-cases (lt p x)) [
      | inl e ↦ (x ∷ [], rw e refl)
      | inr e ↦ ([], rw e refl)
    ]
    sweep-head p (x ∷ y ∷ rest) = elim (Bool-cases (lt p x)) [
      | inl e ↦ (sweep lt x (y ∷ rest), rw e refl)
      | inr e ↦ (sweep lt y rest, rw e refl)
    ]

    head-Covered : (p : F) (rest : List F) (a : F) → Equal a p → Covered a (sweep lt p rest)
    head-Covered p rest a e =
        let (t, h) = sweep-head p rest in subst (Covered a) (sym h) (p, inl refl, e)

    refl-Equal : {a p : F} → a ≡ p → Equal a p
    refl-Equal {a} {p} e = rw e (not_lt_self p, not_lt_self p)

    -- A sweep over a sorted list drops only what is equal to a bucket that stays.
    sweep-Covered :
        (p : F) (rest : List F) (a : F)
        → Sorted (p ∷ rest)
        → In a (p ∷ rest)
        → Covered a (sweep lt p rest)
    sweep-Covered p rest a s (inl e) = head-Covered p rest a (refl-Equal e)
    sweep-Covered p [] a s (inr m) = elim m [ ]
    sweep-Covered p (x ∷ []) a s (inr m) = elim (Bool-cases (lt p x)) [
      | inl e ↦ rw e (Covered-cons p (x ∷ []) (sweep-Covered x [] a tt m))
      | inr e ↦ rw e (p, inl refl, elim m [ inl q ↦ rw q (s.0, e) | inr n ↦ elim n [ ] ])
    ]
    sweep-Covered p (x ∷ y ∷ rest) a s (inr m) =
        let on = sweep-Covered x (y ∷ rest) a s.1 m in
        elim (Bool-cases (lt p x)) [
          | inl e ↦ rw e (Covered-cons p (sweep lt x (y ∷ rest)) on)
          | inr e ↦ rw e (elim m [
            | inl q ↦ (p, inl refl, rw q (s.0, e))
            | inr n ↦ Covered-cons p (sweep lt y rest) (sweep-Covered y rest a s.1.1 n)
          ])
        ]

    Sorted-cons :
        (p x : F) (rest : List F)
        → lt x p ≡ false
        → Sorted (sweep lt x rest)
        → Sorted (p ∷ sweep lt x rest)
    Sorted-cons p x rest h s =
        let (t, e) = sweep-head x rest in subst (λ l. Sorted (p ∷ l)) (sym e) (h, subst Sorted e s)

    sweep-Sorted : (p : F) (rest : List F) → Sorted (p ∷ rest) → Sorted (sweep lt p rest)
    sweep-Sorted p [] s = tt
    sweep-Sorted p (x ∷ []) s = elim (Bool-cases (lt p x)) [
      | inl e ↦ rw e (s.0, tt)
      | inr e ↦ rw e tt
    ]
    sweep-Sorted p (x ∷ y ∷ rest) s = elim (Bool-cases (lt p x)) [
      | inl e ↦ rw e (Sorted-cons p x (y ∷ rest) s.0 (sweep-Sorted x (y ∷ rest) s.1))
      | inr e ↦
          rw e (Sorted-cons p y rest (not_lt_trans y x p s.1.0 s.0) (sweep-Sorted y rest s.1.1))
    ]

    Covered-trans :
        {a : F} (xs ys : List F) → ((b : F) → In b xs → Covered b ys) → Covered a xs → Covered a ys
    Covered-trans xs ys h (b, m, e) = let (c, n, f) = h b m in (c, n, Equal-trans e f)

    dedupe_rounds-Covered :
        (fuel : ℕ) (buckets : List F) (a : F)
        → Sorted buckets
        → In a buckets
        → Covered a (dedupe_rounds lt fuel buckets)
    dedupe_rounds-Covered zero buckets a s m = unfold dedupe_rounds in (a, m, refl-Equal refl)
    dedupe_rounds-Covered (suc fuel) [] a s m = elim m [ ]
    dedupe_rounds-Covered (suc fuel) (p ∷ []) a s m =
        unfold dedupe_rounds in (a, m, refl-Equal refl)
    dedupe_rounds-Covered (suc fuel) (p ∷ x ∷ rest) a s m =
        let swept = sweep lt p (x ∷ rest) in
        rw (dedupe_rounds-step lt fuel p x rest) (elim (Bool-cases (drops lt p (x ∷ rest))) [
          | inl e ↦ rw e (
              Covered-trans swept (dedupe_rounds lt fuel swept)
                (λ b n. dedupe_rounds-Covered fuel swept b (sweep-Sorted p (x ∷ rest) s) n)
                (sweep-Covered p (x ∷ rest) a s m))
          | inr e ↦ rw e (a, m, refl-Equal refl)
        ])

    -- Where `<` is the order of numbers other than NaN and the sort sorts and loses nothing, each
    -- bucket that is given is equal to one of the result.
    pub check_buckets-Covered :
        (sort : List F → List F)
        → ((xs : List F) → Sorted (sort xs))
        → ((x : F) (xs : List F) → In x xs → In x (sort xs))
        → (buckets out : List F) → check_buckets lt sort buckets ≡ ok out
        → (a : F) → In a buckets
        → Covered a out
    unfolding check_buckets
    check_buckets-Covered sort sorts keeps [] out h a m = elim m [ ]
    check_buckets-Covered sort sorts keeps (b ∷ buckets) out h a m =
        let xs = sort (b ∷ buckets) in
        subst (Covered a) (ok-injective h)
          (dedupe_rounds-Covered (length xs) xs a (sorts (b ∷ buckets)) (keeps a (b ∷ buckets) m))
