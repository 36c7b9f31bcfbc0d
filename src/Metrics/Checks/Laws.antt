-- ===== src/Metrics/Checks/Laws.antt =====
-- What the checks accept.
use oysterpack.Prelude.{
  ℕ, ◌≤◌, ◌≡◌, ◌≢◌, refl, ◌↔◌, true, [], ◌∷◌, some, ok, is_ok, All, arith, HashMap, insert, nat_eq,
  list_eq,
}
use oysterpack.Text.{Str, str_len, trim}
use oysterpack.Text.Trim.{trim-trim}
use oysterpack.Metrics.Ids.Codec.{RustyUlid}
use oysterpack.Metrics.Ids.LabelId
use oysterpack.Metrics.Checks.Defs.{
  check_help, help_max_len, label_value_len, trim_labels, check_const_labels,
}

-- A text within a limit once it is trimmed.
abbrev pub Fits : ℕ → Str → Type 0
Fits limit s = (trim s ≢ []) × (str_len (trim s) ≤ limit)

-- `check_help` accepts what fits, answers it trimmed, and accepts its own answer.
pub check_help-ok :
    (help : Str) {h : Str}
    → check_help help ≡ ok h
    → (h ≡ trim help) × Fits help_max_len help × (check_help h ≡ ok h)
unfolding check_help
check_help-ok help {h} e = ground (arith, trim-trim help)

pub check_help-Fits : (help : Str) → Fits help_max_len help → check_help help ≡ ok (trim help)
unfolding check_help
check_help-Fits help f = ground arith

module _ (ulids : RustyUlid) where
  trim_labels_ok :
      (labels : HashMap ℕ Str) (trimmed : HashMap Str Str)
      → All (λ (p : ℕ × Str). Fits label_value_len p.1) labels
      → is_ok (trim_labels ulids labels trimmed) ≡ true
  unfolding trim_labels
  trim_labels_ok [] trimmed h = refl
  trim_labels_ok ((k, v) ∷ labels) trimmed h =
      ground (arith, trim_labels_ok labels (insert (LabelId.name ulids k) (trim v) trimmed))

  trim_labels-Fits :
      (labels : HashMap ℕ Str) (trimmed : HashMap Str Str)
      → is_ok (trim_labels ulids labels trimmed) ≡ true
      → All (λ (p : ℕ × Str). Fits label_value_len p.1) labels
  unfolding trim_labels
  trim_labels-Fits [] trimmed h = tt
  trim_labels-Fits ((k, v) ∷ labels) trimmed h =
      ground (arith, trim_labels-Fits labels (insert (LabelId.name ulids k) (trim v) trimmed))

  -- `check_const_labels` accepts exactly the maps of which each value, trimmed, is not blank and has
  -- 120 bytes at most, whatever the order of iteration.
  pub check_const_labels-ok_iff :
      (labels : HashMap ℕ Str)
      → (is_ok (check_const_labels ulids (some labels)) ≡ true)
        ↔ All (λ (p : ℕ × Str). Fits label_value_len p.1) labels
  unfolding check_const_labels
  check_const_labels-ok_iff labels = (
    λ h. trim_labels-Fits labels [] (ground arith),
    λ h. ground (arith, trim_labels_ok labels [] h),
  )
