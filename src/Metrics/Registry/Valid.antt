-- ===== src/Metrics/Registry/Valid.antt =====
-- What the checks of `MetricRegistry::register` let in.
use oysterpack.Prelude.{
  ◌≤◌, ◌≡◌, ◌≢◌, refl, ap, ◌↔◌, Bool, true, false, List, [], ◌∷◌, Result, ok, is_ok, ltb, is_empty,
  All, All-map, filter-nil, filter-of_none, arith, filter, filter_map,
}
use oysterpack.Text.{Str, str_len, trim}
use oysterpack.Metrics.Types.{
  LabelPair, Desc, Error, DescIssue, label_value_blank, const_label_name_too_long,
  variable_label_name_too_long, const_label_value_too_long,
}
use oysterpack.Metrics.Checks.{check_help, help_max_len, label_name_len, label_value_len}
use oysterpack.Metrics.Checks.Laws.{Fits}
use oysterpack.Metrics.Registry.{
  to_result, issue, refused, validate_help, check_label_values_not_blank,
  check_const_label_name_length, check_variable_label_name_length,
  check_variable_label_value_length, validate,
}

-- A descriptor that meets the limits of the registry.
pub record IsValidDesc (d : Desc) : Type 0 where
  pub help_fits : Fits help_max_len d.help
  pub values_not_blank : All (λ (p : LabelPair). trim p.value ≢ []) d.const_label_pairs
  pub names_fit : All (λ (p : LabelPair). str_len p.name ≤ label_name_len) d.const_label_pairs
  pub variables_fit : All (λ (l : Str). str_len l ≤ label_name_len) d.variable_labels
  pub values_fit : All (λ (p : LabelPair). str_len p.value ≤ label_value_len) d.const_label_pairs

-- A check that collects issues succeeds exactly when no descriptor has one.
module _ (names : Desc → List Str) (kind : Str → List Str → DescIssue) where
  collected-none :
      (descs : List Desc)
      → is_ok (to_result (filter_map (λ d. issue kind d (names d)) descs)) ≡ true
      → All (λ d. names d ≡ []) descs
  unfolding to_result issue
  collected-none [] h = tt
  collected-none (d ∷ descs) h = ground (arith, collected-none descs)

  collected-of_none :
      (descs : List Desc)
      → All (λ d. names d ≡ []) descs
      → is_ok (to_result (filter_map (λ d. issue kind d (names d)) descs)) ≡ true
  unfolding to_result issue
  collected-of_none [] h = refl
  collected-of_none (d ∷ descs) h = rw h.0 (collected-of_none descs h.1)

refused-none :
    (bad : LabelPair → Bool) (pairs : List LabelPair)
    → refused bad pairs ≡ []
    → All (λ p. bad p ≡ false) pairs
unfolding refused
refused-none bad [] h = tt
refused-none bad (p ∷ pairs) h = ground (arith, refused-none bad pairs)

refused-of_none :
    (bad : LabelPair → Bool) (pairs : List LabelPair)
    → All (λ p. bad p ≡ false) pairs
    → refused bad pairs ≡ []
unfolding refused
refused-of_none bad pairs h = rw (filter-of_none bad pairs h) refl

-- The checks on constant labels, at their tests.
abbrev Passes : (LabelPair → Bool) → Desc → Type 0
Passes bad d = All (λ p. bad p ≡ false) d.const_label_pairs

module _ (bad : LabelPair → Bool) (kind : Str → List Str → DescIssue) where
  abbrev checked : List Desc → Result (Unit {0}) Error
  checked descs =
      to_result (filter_map (λ (d : Desc). issue kind d (refused bad d.const_label_pairs)) descs)

  checked-Passes : (descs : List Desc) → is_ok (checked descs) ≡ true → All (Passes bad) descs
  checked-Passes descs h =
      All-map (λ d. refused bad d.const_label_pairs ≡ []) (Passes bad)
        (λ d e. refused-none bad d.const_label_pairs e) descs
        (collected-none (λ d. refused bad d.const_label_pairs) kind descs h)

  Passes-checked : (descs : List Desc) → All (Passes bad) descs → is_ok (checked descs) ≡ true
  Passes-checked descs h =
      collected-of_none (λ d. refused bad d.const_label_pairs) kind descs
        (All-map (Passes bad) (λ d. refused bad d.const_label_pairs ≡ [])
          (λ d e. refused-of_none bad d.const_label_pairs e) descs h)

validate_help-ok :
    (descs : List Desc)
    → is_ok (validate_help descs) ≡ true
    → All (λ (d : Desc). Fits help_max_len d.help) descs
unfolding validate_help check_help
validate_help-ok [] h = tt
validate_help-ok (d ∷ descs) h = ground (arith, validate_help-ok descs)

validate_help-of_Fits :
    (descs : List Desc)
    → All (λ (d : Desc). Fits help_max_len d.help) descs
    → is_ok (validate_help descs) ≡ true
unfolding validate_help check_help
validate_help-of_Fits [] h = refl
validate_help-of_Fits (d ∷ descs) h = ground (arith, validate_help-of_Fits descs h.1)

-- The five checks, taken apart.
abbrev Checked : List Desc → Type 0
Checked descs =
    (is_ok (validate_help descs) ≡ true)
    × (is_ok (check_label_values_not_blank descs) ≡ true)
    × (is_ok (check_const_label_name_length descs) ≡ true)
    × (is_ok (check_variable_label_name_length descs) ≡ true)
    × (is_ok (check_variable_label_value_length descs) ≡ true)

validate-Checked : (descs : List Desc) → is_ok (validate descs) ≡ true → Checked descs
unfolding validate
validate-Checked descs h = ground arith

Checked-validate : (descs : List Desc) → Checked descs → validate descs ≡ ok tt
unfolding validate
Checked-validate descs h = ground arith

abbrev blank : LabelPair → Bool
blank p = is_empty (trim p.value)

abbrev long_name : LabelPair → Bool
long_name p = ltb label_name_len (str_len p.name)

abbrev long_value : LabelPair → Bool
long_value p = ltb label_value_len (str_len p.value)

abbrev long_label : Str → Bool
long_label l = ltb label_name_len (str_len l)

abbrev Accepted : Desc → Type 0
Accepted d =
    Fits help_max_len d.help
    × Passes blank d
    × Passes long_name d
    × All (λ l. long_label l ≡ false) d.variable_labels
    × Passes long_value d

Accepted-IsValidDesc : (d : Desc) → Accepted d → IsValidDesc d
Accepted-IsValidDesc d h = record {
  help_fits = h.0;
  values_not_blank = All-map _ _ (λ p e. ground arith) d.const_label_pairs h.1;
  names_fit = All-map _ _ (λ p e. ground arith) d.const_label_pairs h.2;
  variables_fit = All-map _ _ (λ l e. ground arith) d.variable_labels h.3;
  values_fit = All-map _ _ (λ p e. ground arith) d.const_label_pairs h.4;
}

IsValidDesc-Accepted : (d : Desc) → IsValidDesc d → Accepted d
IsValidDesc-Accepted d v = (
  v.help_fits,
  All-map _ _ (λ p e. ground arith) d.const_label_pairs v.values_not_blank,
  All-map _ _ (λ p e. ground arith) d.const_label_pairs v.names_fit,
  All-map _ _ (λ l e. ground arith) d.variable_labels v.variables_fit,
  All-map _ _ (λ p e. ground arith) d.const_label_pairs v.values_fit,
)

zip_Accepted :
    (descs : List Desc)
    → All (λ d. Fits help_max_len d.help) descs
    → All (Passes blank) descs
    → All (Passes long_name) descs
    → All (λ d. All (λ l. long_label l ≡ false) d.variable_labels) descs
    → All (Passes long_value) descs
    → All Accepted descs
zip_Accepted [] a b c v e = tt
zip_Accepted (d ∷ descs) a b c v e =
    ((a.0, b.0, c.0, v.0, e.0), zip_Accepted descs a.1 b.1 c.1 v.1 e.1)

Checked-Accepted : (descs : List Desc) → Checked descs → All Accepted descs
unfolding check_label_values_not_blank check_const_label_name_length
    check_variable_label_name_length check_variable_label_value_length
Checked-Accepted descs h =
    zip_Accepted descs (validate_help-ok descs h.0)
      (checked-Passes blank label_value_blank descs h.1)
      (checked-Passes long_name const_label_name_too_long descs h.2)
      (All-map _ _ (λ d e. filter-nil long_label d.variable_labels e) descs
        (collected-none (λ d. filter long_label d.variable_labels) variable_label_name_too_long
          descs h.3))
      (checked-Passes long_value const_label_value_too_long descs h.4)

Accepted-Checked : (descs : List Desc) → All Accepted descs → Checked descs
unfolding check_label_values_not_blank check_const_label_name_length
    check_variable_label_name_length check_variable_label_value_length
Accepted-Checked descs h = (
  validate_help-of_Fits descs (All-map _ _ (λ d a. a.0) descs h),
  Passes-checked blank label_value_blank descs (All-map _ _ (λ d a. a.1) descs h),
  Passes-checked long_name const_label_name_too_long descs (All-map _ _ (λ d a. a.2) descs h),
  collected-of_none (λ d. filter long_label d.variable_labels) variable_label_name_too_long descs
      (All-map _ _ (λ d a. filter-of_none long_label d.variable_labels a.3) descs h),
  Passes-checked long_value const_label_value_too_long descs (All-map _ _ (λ d a. a.4) descs h),
)

-- The checks pass exactly when every descriptor meets the limits.
pub validate-ok_iff : (descs : List Desc) → (is_ok (validate descs) ≡ true) ↔ All IsValidDesc descs
validate-ok_iff descs = (
  λ h. All-map _ _ Accepted-IsValidDesc descs (Checked-Accepted descs (validate-Checked descs h)),
  λ h.
      ap is_ok (
        Checked-validate descs (Accepted-Checked descs (All-map _ _ IsValidDesc-Accepted descs h))),
)
