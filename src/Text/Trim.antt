-- ===== src/Text/Trim.antt =====
-- Laws of `str::trim`.
use mathlib.Core.List.{reverse, reverse-reverse, reverse-cons, reverse-append}
use oysterpack.Prelude.{
  ◌+◌, ◌≤◌, ◌≡◌, refl, sym, ap, ◌∙◌, inl, inr, false, [], ◌∷◌, ◌++◌, arith, Bool-cases, subst,
}
use oysterpack.Text.Defs.{Str, str_len, is_whitespace, trim_start, trim}

-- No white space at the front.
abbrev pub TrimmedStart : Str → Type 0
TrimmedStart [] = Unit
TrimmedStart (c ∷ s) = is_whitespace c ≡ false

trim_start-TrimmedStart : (s : Str) → TrimmedStart (trim_start s)
unfolding trim_start
trim_start-TrimmedStart [] = tt
trim_start-TrimmedStart (c ∷ s) = elim (Bool-cases (is_whitespace c)) [
  | inl w ↦ rw w (trim_start-TrimmedStart s)
  | inr b ↦ rw b b
]

pub trim_start-of_TrimmedStart : (s : Str) → TrimmedStart s → trim_start s ≡ s
unfolding trim_start
trim_start-of_TrimmedStart [] h = refl
trim_start-of_TrimmedStart (c ∷ s) h = rw h refl

str_len-append : (s t : Str) → str_len (s ++ t) ≡ str_len s + str_len t
str_len-append [] t = omega arith
str_len-append (c ∷ s) t = omega (arith, str_len-append s t)

str_len-reverse : (s : Str) → str_len (reverse s) ≡ str_len s
str_len-reverse [] = refl
str_len-reverse (c ∷ s) =
    omega
      (arith, ap str_len (reverse-cons c s), str_len-append (reverse s) (c ∷ []), str_len-reverse s)

str_len-trim_start : (s : Str) → str_len (trim_start s) ≤ str_len s
unfolding trim_start
str_len-trim_start [] = omega arith
str_len-trim_start (c ∷ s) = elim (Bool-cases (is_whitespace c)) [
  | inl w ↦ rw w (omega (arith, str_len-trim_start s))
  | inr b ↦ rw b (omega arith)
]

-- Trimming lengthens no string.
pub str_len-trim : (s : Str) → str_len (trim s) ≤ str_len s
unfolding trim
str_len-trim s = omega (
  arith,
  str_len-reverse (trim_start (reverse (trim_start s))),
  str_len-trim_start (reverse (trim_start s)),
  str_len-reverse (trim_start s),
  str_len-trim_start s,
)

-- `trim_start` cuts a prefix off.
trim_start-IsSuffix : (s : Str) → (p : Str) × (s ≡ p ++ trim_start s)
unfolding trim_start
trim_start-IsSuffix [] = ([], refl)
trim_start-IsSuffix (c ∷ s) = elim (Bool-cases (is_whitespace c)) [
  | inl w ↦ let (p, e) = trim_start-IsSuffix s in (c ∷ p, rw w (ap (◌∷◌ c) e))
  | inr b ↦ ([], rw b refl)
]

TrimmedStart-append : (s t : Str) → TrimmedStart (s ++ t) → TrimmedStart s
TrimmedStart-append [] t h = tt
TrimmedStart-append (c ∷ s) t h = h

TrimmedStart-trim_end : (s : Str) → TrimmedStart s → TrimmedStart (reverse (trim_start (reverse s)))
TrimmedStart-trim_end s h =
    let (p, e) = trim_start-IsSuffix (reverse s) in
    TrimmedStart-append (reverse (trim_start (reverse s))) (reverse p) (
      subst TrimmedStart
        (sym (reverse-reverse s) ∙ ap reverse e ∙ reverse-append p (trim_start (reverse s))) h)

-- Trimming twice is trimming once.
pub trim-trim : (s : Str) → trim (trim s) ≡ trim s
unfolding trim
trim-trim s =
    let t = trim_start (reverse (trim_start s)) in
    let front = TrimmedStart-trim_end (trim_start s) (trim_start-TrimmedStart s) in
    rw (trim_start-of_TrimmedStart (reverse t) front, reverse-reverse t)
      (rw (trim_start-of_TrimmedStart t (trim_start-TrimmedStart (reverse (trim_start s)))))
