-- ===== src/ReqRep/Gauge.antt =====
-- `prometheus::IntGauge` as an integer that is counted up and down.
use oysterpack.Prelude.{ℕ, zero, suc, ◌≡◌, refl, arith}

-- `negsuc n` is -(n + 1).
pub data ℤ : Type 0 where
  pos : ℕ → ℤ
  negsuc : ℕ → ℤ

abbrev pub inc : ℤ → ℤ
inc (pos n) = pos (suc n)
inc (negsuc zero) = pos 0
inc (negsuc (suc n)) = negsuc n

abbrev pub dec : ℤ → ℤ
dec (pos zero) = negsuc 0
dec (pos (suc n)) = pos n
dec (negsuc n) = negsuc (suc n)

pub dec-inc : (z : ℤ) → dec (inc z) ≡ z
dec-inc (pos n) = refl
dec-inc (negsuc zero) = refl
dec-inc (negsuc (suc n)) = refl

-- Counting down changes the gauge.
pub dec-ne_self : (z : ℤ) → dec z ≡ z → ⊥
dec-ne_self (pos zero) h = cc
dec-ne_self (pos (suc n)) h = ground arith
dec-ne_self (negsuc n) h = ground arith
