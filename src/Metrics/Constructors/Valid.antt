-- ===== src/Metrics/Constructors/Valid.antt =====
-- What the constructors make passes the checks of `MetricRegistry::register`.
use oysterpack.Prelude.{
  ℕ, ◌^◌, ◌≤◌, ◌<◌, ◌≡◌, ◌≢◌, refl, ap, sym, subst, ◌∙◌, true, List, [], ◌∷◌, ◌++◌, map, Option,
  none, some, ok, is_ok, >>=-eq-ok, ok-injective, ltb, is_empty, HashMap, insert, list_eq, nat_eq,
  All, All-In, All-of_In, All-map, In, arith, inl, inr, Bool-cases,
}
use oysterpack.Text.{Str, str_len, trim}
use oysterpack.Text.Trim.{trim-trim}
use oysterpack.Metrics.Types.{LabelPair, Desc, Opts}
use oysterpack.Metrics.Ids.Codec.{RustyUlid}
use oysterpack.Metrics.Ids.LabelId
use oysterpack.Metrics.Ids.MetricId
use oysterpack.Metrics.Checks.{
  check_help, help_max_len, label_name_len, label_value_len, trim_labels, check_const_labels,
  check_variable_labels,
}
use oysterpack.Metrics.Checks.Laws.{Fits, check_help-ok}
use oysterpack.Metrics.Constructors.{MetricTypes, new_counter_vec}
use oysterpack.Metrics.Constructors.Checked.{checked_opts, with_const_labels}
use oysterpack.Metrics.Registry.{Prometheus, MetricRegistry, register}
use oysterpack.Metrics.Registry.Register.{IsValid, register-IsValid}
use oysterpack.Metrics.Registry.Valid.{IsValidDesc}
use oysterpack.Metrics.Registry.Typed.{register_counter_vec, register_metric-ok}

-- What the crate documents of a descriptor: its help, labels and names are those of the options.
pub record Describes (o : Opts) (variable_labels : List Str) (d : Desc) : Type 0 where
  pub same_help : d.help ≡ o.help
  pub same_variables : d.variable_labels ≡ variable_labels
  pub some_const : (p : LabelPair) → In p d.const_label_pairs → In (p.name, p.value) o.const_labels

-- A label that the checks of the registry accept.
abbrev Accepted : Str × Str → Type 0
Accepted p = (str_len p.0 ≤ label_name_len) × (trim p.1 ≢ []) × (str_len p.1 ≤ label_value_len)

All-insert :
    (k v : Str) (m : HashMap Str Str)
    → Accepted (k, v)
    → All Accepted m
    → All Accepted (insert k v m)
All-insert k v [] a h = (a, tt)
All-insert k v ((j, w) ∷ m) a h = elim (Bool-cases (list_eq.beq j k)) [
  | inl e ↦ rw e (a, h.1)
  | inr e ↦ rw e (h.0, All-insert k v m a h.1)
]

module _ (ulids : RustyUlid) where
  str_len-label : (id : ℕ) → id < 2 ^ 128 → str_len (LabelId.name ulids id) ≤ label_name_len
  unfolding LabelId.name
  str_len-label id h = ground (arith, ulids.to_string_len id h)

  trim_labels-Accepted :
      (labels : HashMap ℕ Str) (trimmed out : HashMap Str Str)
      → All (λ (p : ℕ × Str). p.0 < 2 ^ 128) labels
      → All Accepted trimmed
      → trim_labels ulids labels trimmed ≡ ok out
      → All Accepted out
  unfolding trim_labels
  trim_labels-Accepted [] trimmed out b a h = subst (All Accepted) (ok-injective h) a
  trim_labels-Accepted ((k, v) ∷ labels) trimmed out b a h = elim (Bool-cases (is_empty (trim v))) [
    | inl e ↦ absurd (ground arith)
    | inr e ↦ elim (Bool-cases (ltb label_value_len (str_len (trim v)))) [
      | inl l ↦ absurd (ground arith)
      | inr l ↦
          trim_labels-Accepted labels (insert (LabelId.name ulids k) (trim v) trimmed) out b.1
            (All-insert (LabelId.name ulids k) (trim v) trimmed
              (str_len-label k b.0, (λ q. ground (arith, trim-trim v)), ground arith) a)
            (ground arith)
    ]
  ]

  names-fit :
      (ids : List ℕ)
      → All (λ id. id < 2 ^ 128) ids
      → All (λ (l : Str). str_len l ≤ label_name_len) (map (λ id. LabelId.name ulids id) ids)
  names-fit [] h = tt
  names-fit (id ∷ ids) h = (str_len-label id h.0, names-fit ids h.1)

  check_variable_labels-fit :
      (ids : List ℕ) (names : List Str)
      → All (λ id. id < 2 ^ 128) ids
      → check_variable_labels ulids ids ≡ ok names
      → All (λ (l : Str). str_len l ≤ label_name_len) names
  unfolding check_variable_labels
  check_variable_labels-fit [] names h e = cc
  check_variable_labels-fit (id ∷ ids) names h e =
      subst (All (λ (l : Str). str_len l ≤ label_name_len)) (ok-injective e)
        (names-fit (id ∷ ids) h)

  -- The labels that are given, if any.
  abbrev pub given : Option (HashMap ℕ Str) → HashMap ℕ Str
  given none = []
  given (some labels) = labels

  check_const_labels-Accepted :
      (labels : Option (HashMap ℕ Str)) (out : Option (HashMap Str Str)) (o : Opts)
      → All (λ (p : ℕ × Str). p.0 < 2 ^ 128) (given labels)
      → check_const_labels ulids labels ≡ ok out
      → All Accepted o.const_labels
      → All Accepted (with_const_labels out o).const_labels
  unfolding check_const_labels with_const_labels
  check_const_labels-Accepted none out o b h a =
      subst (λ t. All Accepted (with_const_labels t o).const_labels) (ok-injective h) a
  check_const_labels-Accepted (some labels) none o b h a = a
  check_const_labels-Accepted (some labels) (some out) o b h a =
      trim_labels-Accepted labels [] out b tt (ground arith)

  with_const_labels-help :
      (l : Option (HashMap Str Str)) (o : Opts) → (with_const_labels l o).help ≡ o.help
  unfolding with_const_labels
  with_const_labels-help none o = refl
  with_const_labels-help (some l) o = refl

  checked_opts-Accepted :
      (id : ℕ) (help : Str) (labels : Option (HashMap ℕ Str)) (o : Opts)
      → All (λ (p : ℕ × Str). p.0 < 2 ^ 128) (given labels)
      → checked_opts ulids id help labels ≡ ok o
      → Fits help_max_len o.help × All Accepted o.const_labels
  unfolding checked_opts
  checked_opts-Accepted id help labels o b h =
      let (help', h1, k1) = >>=-eq-ok (check_help help) _ h in
      let (out, h2, k2) = >>=-eq-ok (check_const_labels ulids labels) _ k1 in
      let plain : Opts = record {
        name = MetricId.name ulids id;
        help = help';
        const_labels = [];
      } in
      let (same, fits, _) = check_help-ok help h1 in
      let e : with_const_labels out plain ≡ o = ok-injective k2 in
      let fits' : Fits help_max_len help' = rw (same, trim-trim help) fits in
      (
        subst (Fits help_max_len)
            (sym (with_const_labels-help out plain) ∙ ap (λ (o : Opts). o.help) e) fits',
        subst (λ (o : Opts). All Accepted o.const_labels) e
            (check_const_labels-Accepted labels out plain b h2 tt),
      )

  checked_opts-IsValidDesc :
      (o : Opts) (names : List Str) (d : Desc)
      → Fits help_max_len o.help × All Accepted o.const_labels
      → All (λ (l : Str). str_len l ≤ label_name_len) names
      → Describes o names d
      → IsValidDesc d
  checked_opts-IsValidDesc o names d (fits, a) n s =
      let each : (p : LabelPair) → In p d.const_label_pairs → Accepted (p.name, p.value) =
        λ p i. All-In Accepted o.const_labels a (s.some_const p i) in
      record {
        help_fits = subst (Fits help_max_len) (sym s.same_help) fits;
        values_not_blank = All-of_In _ d.const_label_pairs (λ p i. (each p i).1);
        names_fit = All-of_In _ d.const_label_pairs (λ p i. (each p i).0);
        variables_fit =
            subst (All (λ (l : Str). str_len l ≤ label_name_len)) (sym s.same_variables) n;
        values_fit = All-of_In _ d.const_label_pairs (λ p i. (each p i).2);
      }

  module _ {F : Type 0} (types : MetricTypes F) (prometheus : Prometheus F) where
    new_counter_vec-IsValidDesc :
        (id : ℕ) (help : Str) (ids : List ℕ) (labels : Option (HashMap ℕ Str))
        (metric : types.CounterVec)
        → ((o : Opts) (names : List Str) (m : types.CounterVec)
            → types.counter_vec o names ≡ ok m
            → All (Describes o names) (types.counter_vec_collector m).desc)
        → All (λ id. id < 2 ^ 128) ids
        → All (λ (p : ℕ × Str). p.0 < 2 ^ 128) (given labels)
        → new_counter_vec types ulids id help ids labels ≡ ok metric
        → All IsValidDesc (types.counter_vec_collector metric).desc
    unfolding new_counter_vec
    new_counter_vec-IsValidDesc id help ids labels metric documented bi bl h =
        let (names, h1, k1) = >>=-eq-ok (check_variable_labels ulids ids) _ h in
        let (o, h2, k2) = >>=-eq-ok (checked_opts ulids id help labels) _ k1 in
        All-map (Describes o names) IsValidDesc
          (λ d s.
            checked_opts-IsValidDesc o names d (checked_opts-Accepted id help labels o bl h2)
              (check_variable_labels-fit ids names bi h1) s)
          (types.counter_vec_collector metric).desc (documented o names metric k2)

    -- A counter vector that `new_counter_vec` makes from ids of 128 bits is refused by no check of
    -- `register`, where the crate describes it by its options as documented: if prometheus accepts
    -- it, `register_counter_vec` answers it, and it is the last of the collectors.
    pub register_counter_vec-ok :
        (id : ℕ) (help : Str) (ids : List ℕ) (labels : Option (HashMap ℕ Str))
        (metric : types.CounterVec) (r : MetricRegistry prometheus)
        → ((o : Opts) (names : List Str) (m : types.CounterVec)
            → types.counter_vec o names ≡ ok m
            → All (Describes o names) (types.counter_vec_collector m).desc)
        → All (λ id. id < 2 ^ 128) ids
        → All (λ (p : ℕ × Str). p.0 < 2 ^ 128) (given labels)
        → new_counter_vec types ulids id help ids labels ≡ ok metric
        → is_ok (prometheus.register (types.counter_vec_collector metric) r.registry).0 ≡ true
        → IsValid prometheus r
        → ((register_counter_vec prometheus types ulids id help ids labels r).0 ≡ ok metric)
          × ((register_counter_vec prometheus types ulids id help ids labels r).1.metric_collectors
              ≡ r.metric_collectors ++ types.counter_vec_collector metric ∷ [])
    unfolding register_counter_vec
    register_counter_vec-ok id help ids labels metric r documented bi bl h a v =
        let c = types.counter_vec_collector metric in
        let valid = new_counter_vec-IsValidDesc id help ids labels metric documented bi bl h in
        let (_, succeeds, last, _) = register-IsValid prometheus c r v in
        let accepted : is_ok (register prometheus c r).0 ≡ true = succeeds.1 (valid, a) in
        let e =
          register_metric-ok prometheus types.counter_vec_collector metric
            (new_counter_vec types ulids id help ids labels) r h accepted in
        (ap (λ x. x.0) e, ap (λ x. x.1.metric_collectors) e ∙ last accepted)
