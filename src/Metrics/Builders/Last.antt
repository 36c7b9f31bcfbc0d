-- ===== src/Metrics/Builders/Last.antt =====
-- A chain of `with_label` on a builder, and what it builds.
use oysterpack.Prelude.{
  ℕ, ◌≡◌, refl, ap, ◌∙◌, List, [], ◌∷◌, Option, none, some, HashMap, get, get-insert, or_else,
  if◌then◌else◌, ◌==◌, nat_eq, arith,
}
use oysterpack.Text.{Str}
use oysterpack.Metrics.Ids.Codec.{RustyUlid}
use oysterpack.Metrics.Constructors.{MetricTypes, new_counter}
use oysterpack.Metrics.Builders.Labels.{add_label}
use oysterpack.Metrics.Builders.Counter.{CounterBuilder, new, with_label, build}

-- The labels of a builder, as a map.
abbrev pub labels_of : Option (HashMap ℕ Str) → HashMap ℕ Str
labels_of none = []
labels_of (some labels) = labels

-- The value that a label was given last.
abbrev pub last : ℕ → List (ℕ × Str) → Option Str
last id [] = none
last id ((k, v) ∷ ls) = or_else (last id ls) (if k == id then some v else none)

-- `b.with_label(..).with_label(..)..`
abbrev pub label_all : List (ℕ × Str) → CounterBuilder → CounterBuilder
label_all [] b = b
label_all ((k, v) ∷ ls) b = label_all ls (with_label k v b)

abbrev add_all : List (ℕ × Str) → Option (HashMap ℕ Str) → Option (HashMap ℕ Str)
add_all [] o = o
add_all ((k, v) ∷ ls) o = add_all ls (add_label k v o)

label_all-add_all :
    (ls : List (ℕ × Str)) (b : CounterBuilder)
    → label_all ls b ≡ record b { const_labels = add_all ls b.const_labels }
label_all-add_all [] b = refl
label_all-add_all ((k, v) ∷ ls) b =
    label_all-add_all ls (with_label k v b) ∙ (unfold with_label in refl)

get-add_label :
    (id k : ℕ) (v : Str) (o : Option (HashMap ℕ Str))
    → get id (labels_of (add_label k v o))
      ≡ or_else (if k == id then some v else none) (get id (labels_of o))
unfolding add_label
get-add_label id k v none = ground arith
get-add_label id k v (some labels) = ground (arith, get-insert k id v labels)

or_else_assoc : (a b c : Option Str) → or_else a (or_else b c) ≡ or_else (or_else a b) c
or_else_assoc none b c = refl
or_else_assoc (some a) b c = refl

get-add_all :
    (id : ℕ) (ls : List (ℕ × Str)) (o : Option (HashMap ℕ Str))
    → get id (labels_of (add_all ls o)) ≡ or_else (last id ls) (get id (labels_of o))
get-add_all id [] o = refl
get-add_all id ((k, v) ∷ ls) o =
    get-add_all id ls (add_label k v o)
    ∙ ap (or_else (last id ls)) (get-add_label id k v o)
    ∙ or_else_assoc (last id ls) (if k == id then some v else none) (get id (labels_of o))

build-new_counter :
    {F : Type 0} (types : MetricTypes F) (ulids : RustyUlid) (b : CounterBuilder)
    → build types ulids b ≡ new_counter types ulids b.metric_id b.help b.const_labels
unfolding build
build-new_counter types ulids b =
    elim b.const_labels
      as (λ o.
        elim o [
          | some labels ↦ new_counter types ulids b.metric_id b.help (some labels)
          | none ↦ new_counter types ulids b.metric_id b.help none
        ]
        ≡ new_counter types ulids b.metric_id b.help o) [ some labels ↦ refl | none ↦ refl ]

or_else-none : (o : Option Str) → or_else o none ≡ o
or_else-none none = refl
or_else-none (some v) = refl

-- What a `CounterBuilder` builds after any chain of `with_label` is the counter of its id, its help
-- and the labels of the chain, where each label has the value that it was given last, and a label
-- that the chain does not name has none.
pub build-label_all :
    {F : Type 0} (types : MetricTypes F) (ulids : RustyUlid) (metric_id : ℕ) (help : Str)
    (ls : List (ℕ × Str))
    → (labels : Option (HashMap ℕ Str)) × (build types ulids (label_all ls (new metric_id help))
        ≡ new_counter types ulids metric_id help labels)
      × ((id : ℕ) → get id (labels_of labels) ≡ last id ls)
build-label_all types ulids metric_id help ls =
    let b = new metric_id help in
    (
      add_all ls none,
      build-new_counter types ulids (label_all ls b)
          ∙ ap (λ (b : CounterBuilder). new_counter types ulids b.metric_id b.help b.const_labels)
              (label_all-add_all ls b)
          ∙ (unfold new in refl),
      λ id. get-add_all id ls none ∙ or_else-none (last id ls),
    )
