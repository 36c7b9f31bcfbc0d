-- ===== src/ReqRep/Counts.antt =====
-- The counts of service instances in oysterpack-trust/src/concurrent/messaging/reqrep/metrics.rs,
-- read from the map of the metrics of all services.
use oysterpack.Prelude.{
  ℕ, ◌-◌, ◌%◌, ◌^◌, ◌≡◌, refl, false, [], ◌∷◌, Option, none, some, HashMap, get, insert,
  contains_key, contains_key-get, contains_key-is_some, get-insert, or_else, if◌then◌else◌, nat_eq,
  nat_beq_iff, arith,
}
use oysterpack.ReqRep.Gauge.{ℤ, pos, negsuc}
use oysterpack.ReqRep.Service.{ReqRepServiceMetrics}

-- `as u64`, of the `i64` of a gauge.
unfoldable pub as_u64 : ℤ → ℕ
as_u64 (pos n) = n % 2 ^ 64
as_u64 (negsuc n) = 2 ^ 64 - 1 - n % 2 ^ 64

-- `.map(|m| m.service_count.get() as u64).unwrap_or(0)`
count_or_zero : Option ReqRepServiceMetrics → ℕ
unfolding as_u64
count_or_zero none = 0
count_or_zero (some m) = as_u64 m.service_count

unfoldable pub service_instance_count : ℕ → HashMap ℕ ReqRepServiceMetrics → ℕ
unfolding count_or_zero
service_instance_count reqrep_id metrics = count_or_zero (get reqrep_id metrics)

-- The fold of `service_instance_counts`.
insert_counts : HashMap ℕ ReqRepServiceMetrics → HashMap ℕ ℕ → HashMap ℕ ℕ
unfolding as_u64
insert_counts [] counts = counts
insert_counts ((k, v) ∷ metrics) counts =
    insert_counts metrics (insert k (as_u64 v.service_count) counts)

unfoldable pub service_instance_counts : HashMap ℕ ReqRepServiceMetrics → HashMap ℕ ℕ
unfolding insert_counts
service_instance_counts metrics = insert_counts metrics []

-- No key stands twice, as in every map.
abbrev pub IsMap : HashMap ℕ ReqRepServiceMetrics → Type 0
IsMap [] = Unit
IsMap ((k, v) ∷ m) = (contains_key k m ≡ false) × IsMap m

abbrev counted : Option ReqRepServiceMetrics → Option ℕ
counted none = none
counted (some m) = some (as_u64 m.service_count)

get-insert_counts :
    (id : ℕ) (metrics : HashMap ℕ ReqRepServiceMetrics) (counts : HashMap ℕ ℕ)
    → IsMap metrics
    → get id (insert_counts metrics counts) ≡ or_else (counted (get id metrics)) (get id counts)
unfolding insert_counts
get-insert_counts id [] counts h = refl
get-insert_counts id ((k, v) ∷ metrics) counts h = ground (
  arith,
  nat_beq_iff k id,
  contains_key-get k metrics h.0,
  get-insert k id (as_u64 v.service_count) counts,
  get-insert_counts id metrics (insert k (as_u64 v.service_count) counts) h.1,
)

-- The map of `service_instance_counts` has an entry for each service that has metrics and no other,
-- and the entry is what `service_instance_count` answers; without an entry, that answers 0.
pub service_instance_counts-get :
    (id : ℕ) (metrics : HashMap ℕ ReqRepServiceMetrics)
    → IsMap metrics
    → (get id (service_instance_counts metrics)
        ≡ (if contains_key id metrics then some (service_instance_count id metrics) else none))
      × (contains_key id metrics ≡ false → service_instance_count id metrics ≡ 0)
unfolding service_instance_counts service_instance_count count_or_zero
service_instance_counts-get id metrics h = (
  ground (arith, get-insert_counts id metrics [] h, contains_key-is_some id metrics),
  λ n. ground (arith, contains_key-get id metrics n),
)
