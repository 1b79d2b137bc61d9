-- ===== src/Publishable.antt =====
-- Publishable.cpp, Publishable.h and Device.cpp: what a node and its devices have in common, a set of
-- metrics, a publish timer and the state of the current publication. Times are int32_t values.
-- The pointer that Device::setPublisher keeps is read by nothing, and is left out.
pub mod State
pub mod Timer
pub mod Messages
pub mod Lifecycle
pub mod Naming
pub mod Receivers
use cpp_sparkplug.Prelude.{
  ℕ, suc, zero, Bytes, Bool, true, false, ◌||◌, ◌&&◌, not, Option, none, some, List, [], ◌∷◌, ◌++◌,
  map, reverse, any, same, if◌then◌else◌,
}
use cpp_sparkplug.Prelude.Int.{ℤ, pos, ◌-ℤ◌, leb_ℤ}
use cpp_sparkplug.Tahu.{Tahu}
use cpp_sparkplug.Metric.{Metric, Call, on_command}
use cpp_sparkplug.Metric
use State.{PublishableState, idle}

pub record Publishable : Type 0 where
  pub name : Option Bytes
  pub publish_period : ℤ
  pub next_publish : ℤ
  pub state : PublishableState
  -- The head is the metric that was added last, as in the forward_list.
  pub metrics : List Metric

abbrev pub get_state : Publishable → PublishableState
get_state p = p.state

abbrev pub set_state : PublishableState → Publishable → Publishable
set_state s p = record p { state = s }

abbrev pub get_name : Publishable → Option Bytes
get_name p = p.name

-- Publishable(name, publishPeriod)
unfoldable pub new : Option Bytes → ℤ → Publishable
new name period = record {
  name = name;
  publish_period = period;
  next_publish = period;
  state = idle;
  metrics = [];
}

-- Publishable(), which Node and Device start from.
unfoldable pub new_default : Publishable
unfolding new
new_default = new none (pos 30)

unfoldable pub add_metric : Metric → Publishable → Publishable
add_metric m p = record p { metrics = m ∷ p.metrics }

unfoldable pub add_metrics : List Metric → Publishable → Publishable
unfolding add_metric
add_metrics [] p = p
add_metrics (m ∷ ms) p = add_metrics ms (add_metric m p)

unfoldable pub set_publish_period : ℤ → Publishable → Publishable
set_publish_period period p = record p { publish_period = period; next_publish = period }

-- `update` when the state is IDLE.
count_down : ℤ → Publishable → Publishable × ℤ
count_down elapsed p =
    let next = p.next_publish -ℤ elapsed in
    if leb_ℤ next (pos 0)
    then (
      record (set_state PublishableState.can_publish p) { next_publish = p.publish_period },
      p.publish_period,
    )
    else (record p { next_publish = next }, next)

-- The timer after `elapsed`, and the time that `update` returns.
unfoldable pub update : ℤ → Publishable → Publishable × ℤ
unfolding count_down
update elapsed p = elim (get_state p) [
  | PublishableState.idle ↦ count_down elapsed p
  | PublishableState.can_publish ↦ (p, p.publish_period)
  | PublishableState.publishing ↦ (p, p.publish_period)
]

-- Publishable::published, called back for a delivered and for an undelivered message.
unfoldable pub published : Publishable → Publishable
published p = record (set_state idle p) { metrics = map Metric.published p.metrics }

unfoldable pub publishing : Publishable → Publishable
publishing p = set_state PublishableState.publishing p

unfoldable pub any_dirty : List Metric → Bool
any_dirty ms = any (λ m. m.dirty) ms

unfoldable pub can_publish : Publishable → Bool
unfolding any_dirty
can_publish p = elim (get_state p) [
  | PublishableState.idle ↦ false
  | PublishableState.can_publish ↦ any_dirty p.metrics
  | PublishableState.publishing ↦ false
]

-- The metric that a name finds: the first of the list.
unfoldable pub find_metric : Bytes → List Metric → Option Metric
find_metric name [] = none
find_metric name (m ∷ ms) = if same m.name name then some m else find_metric name ms

module _ (t : Tahu) where
  open t use {Payload, PayloadMetric, decode_payload, metric_name}

  -- The loop of `addToPayload`. `clock i` is the time read at the i-th metric.
  unfoldable pub add_metrics_to_payload : (ℕ → ℕ) → ℕ → Bool → List Metric → Payload → Payload
  add_metrics_to_payload clock i birth [] out = out
  add_metrics_to_payload clock i birth (m ∷ ms) out =
      add_metrics_to_payload clock (suc i) birth ms (Metric.add_to_payload t (clock i) birth m out)

  unfoldable pub add_to_payload : (ℕ → ℕ) → Bool → Publishable → Payload → Publishable × Payload
  unfolding add_metrics_to_payload
  add_to_payload clock birth p out = (
    record p { next_publish = p.publish_period },
    add_metrics_to_payload clock 0 birth p.metrics out,
  )

  -- The calls for one metric of a command. Without metrics of its own a publishable compares no name;
  -- `none` is strcmp on a NULL name.
  command : List Metric → PayloadMetric → Option (List (Call PayloadMetric))
  command [] c = some []
  command (m ∷ ms) c = elim (metric_name c) [
    | none ↦ none
    | some name ↦ elim (find_metric name (m ∷ ms)) [
      | none ↦ some []
      | some found ↦ some (on_command found c)
    ]
  ]

  -- The loop of `handleCommand` over the metrics of the payload, here in the order of the loop.
  commands : List Metric → List PayloadMetric → Option (List (Call PayloadMetric))
  unfolding command
  commands ms [] = some []
  commands ms (c ∷ cs) =
      let later = commands ms cs in
      elim (command ms c) [
        | none ↦ none
        | some now ↦ elim later [ none ↦ none | some l ↦ some (now ++ l) ]
      ]

  -- The calls to handlers and callbacks that a received payload makes, in their order: the metrics of
  -- the payload are taken from the last to the first. A payload that does not decode makes none.
  unfoldable pub handle_command : Bytes → Publishable → Option (List (Call PayloadMetric))
  unfolding commands
  handle_command payload p = elim (decode_payload payload) [
    | none ↦ some []
    | some cs ↦ commands p.metrics (reverse cs)
  ]

-- Device(name, publishPeriod) and Device()
unfoldable pub new_device : Bytes → ℤ → Publishable
unfolding new
new_device name period = new (some name) period
