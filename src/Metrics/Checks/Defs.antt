-- ===== src/Metrics/Checks/Defs.antt =====
-- `check_help`, `check_const_labels` and `check_variable_labels` of
-- oysterpack-trust/src/metrics.rs.
use oysterpack.Prelude.{
  ℕ, List, [], ◌∷◌, map, Option, none, some, Result, ok, err, ltb, if◌then◌else◌, is_empty, list_eq,
  nat_eq, HashMap, insert,
}
use oysterpack.Text.{Str, str_len, trim}
use oysterpack.Metrics.Types.{
  Error, msg, help_blank, help_too_long, const_label_blank, const_label_too_long,
  no_variable_labels,
}
use oysterpack.Metrics.Ids.Codec.{RustyUlid}
use oysterpack.Metrics.Ids.LabelId

-- `DESC_HELP_MAX_LEN`, `DESC_LABEL_NAME_LEN` and `DESC_LABEL_VALUE_LEN`.
abbrev pub help_max_len : ℕ
help_max_len = 250

abbrev pub label_name_len : ℕ
label_name_len = 30

abbrev pub label_value_len : ℕ
label_value_len = 120

unfoldable pub check_help : Str → Result Str Error
check_help help =
    let help' = trim help in
    if is_empty help'
    then err (msg help_blank)
    else if ltb help_max_len (str_len help')
    then err (msg (help_too_long (str_len help')))
    else ok help'

module _ (ulids : RustyUlid) where
  -- The loop of `check_const_labels`, in the map's order of iteration.
  unfoldable pub trim_labels : HashMap ℕ Str → HashMap Str Str → Result (HashMap Str Str) Error
  trim_labels [] trimmed = ok trimmed
  trim_labels ((key, value) ∷ rest) trimmed =
      let value' = trim value in
      let next = trim_labels rest (insert (LabelId.name ulids key) value' trimmed) in
      if is_empty value'
      then err (msg const_label_blank)
      else if ltb label_value_len (str_len value')
      then err (msg (const_label_too_long (str_len value')))
      else next

  unfoldable pub check_const_labels :
      Option (HashMap ℕ Str) → Result (Option (HashMap Str Str)) Error
  unfolding trim_labels
  check_const_labels none = ok none
  check_const_labels (some const_labels) = elim (trim_labels const_labels []) [
    | ok trimmed ↦ ok (some trimmed)
    | err e ↦ err e
  ]

  unfoldable pub check_variable_labels : List ℕ → Result (List Str) Error
  check_variable_labels label_names =
      if is_empty label_names
      then err (msg no_variable_labels)
      else ok (map (λ id. LabelId.name ulids id) label_names)
