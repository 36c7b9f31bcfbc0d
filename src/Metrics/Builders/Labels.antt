-- ===== src/Metrics/Builders/Labels.antt =====
-- `with_label` of the builders: the labels, with one more.
use oysterpack.Prelude.{ℕ, [], Option, none, some, HashMap, insert, nat_eq}
use oysterpack.Text.{Str}

-- `const_labels.take().unwrap_or_else(HashMap::default)`, then `insert`.
unfoldable pub add_label : ℕ → Str → Option (HashMap ℕ Str) → Option (HashMap ℕ Str)
add_label id value none = some (insert id value [])
add_label id value (some labels) = some (insert id value labels)
