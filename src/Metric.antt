-- ===== src/Metric.antt =====
-- src/metrics/Metric.cpp, metrics/Metric.h and metrics/simple/SimpleMetric.h, StringMetric.h: metrics,
-- which hold a value, a dirty flag, properties and the receivers of commands. The time of a call is an
-- argument `now`.
pub mod Simple
pub mod Changes
pub mod Commands
pub mod Reports
use cpp_sparkplug.Prelude.{
  ℕ, ◌+◌, Bytes, codes, Bool, true, false, ◌||◌, Option, none, some, List, [], ◌∷◌, ◌++◌, length,
  take, ◌==◌, if◌then◌else◌,
}
use cpp_sparkplug.Memory.{differs, memcpy, c_str, strdup, read_string}
use cpp_sparkplug.Tahu.{DataType, Tahu}
use cpp_sparkplug.Property.{Property, Properties, nil, cons, push_back, mark_published, add_all}
use cpp_sparkplug.Property.Simple.{boolean_property}

-- What a command callback does: the one that Node installs asks for a birth, and the others are the
-- application's.
pub data Callback : Type 0 where
  rebirth : Callback
  user : ℕ → Callback

pub record Metric : Type 0 where
  pub name : Bytes
  pub alias : ℕ
  pub data_type : DataType
  pub handler : Option ℕ
  pub callback : Option Callback
  pub is_read_only : Bool
  pub changed_time : ℕ
  pub properties : Properties
  pub size : ℕ
  pub dirty : Bool
  pub block : Bytes

-- Metric(name, data, size, dataType)
unfoldable pub new : Bytes → Bytes → ℕ → DataType → Metric
new name source size data_type = record {
  name = name;
  alias = 0;
  data_type = data_type;
  handler = none;
  callback = none;
  is_read_only = true;
  changed_time = 0;
  properties = nil;
  size = size;
  dirty = false;
  block = take size source;
}

unfoldable pub set_value : Bytes → ℕ → Metric → Metric
set_value source now m =
    if m.dirty || differs source m.block m.size
    then record m { dirty = true; block = memcpy m.block source m.size; changed_time = now }
    else m

-- StringMetric::setValue
unfoldable pub set_string : Bytes → ℕ → Metric → Metric
set_string value now m =
    let dirty' = m.dirty || differs (c_str value) m.block m.size in
    if m.size == length value + 1
    then record m {
      dirty = dirty';
      block = if dirty' then memcpy m.block (c_str value) m.size else m.block;
      changed_time = now;
    }
    else record m {
      dirty = true;
      size = length value + 1;
      block = strdup value;
      changed_time = now;
    }

-- StringMetric::getValue; `none` is a read past the block.
unfoldable pub get_string : Metric → Option Bytes
unfolding read_string
get_string m = read_string m.block

-- The loop of Metric::published over the properties.
unfoldable pub publish_all : Properties → Properties
unfolding mark_published
publish_all nil = nil
publish_all (cons p ps) = cons (mark_published p) (publish_all ps)

unfoldable pub published : Metric → Metric
unfolding publish_all
published m = record m { dirty = false; properties = publish_all m.properties }

unfoldable pub add_property : Property → Metric → Metric
unfolding push_back
add_property p m = record m { properties = push_back m.properties p }

unfoldable pub add_properties : List Property → Metric → Metric
unfolding add_property
add_properties [] m = m
add_properties (p ∷ ps) m = add_properties ps (add_property p m)

-- BooleanProperty::create("writable", true)
abbrev pub writable : ℕ → Property
writable unset = boolean_property unset (codes "writable") (1 ∷ [])

-- The common part of setCommandHandler and setCommandCallback.
allow_commands : ℕ → Metric → Metric
unfolding add_property
allow_commands unset m =
    if m.is_read_only then add_property (writable unset) (record m { is_read_only = false }) else m

unfoldable pub set_command_handler : ℕ → ℕ → Metric → Metric
unfolding allow_commands
set_command_handler unset h m = record (allow_commands unset m) { handler = some h }

unfoldable pub set_command_callback : ℕ → Callback → Metric → Metric
unfolding allow_commands
set_command_callback unset f m = record (allow_commands unset m) { callback = some f }

-- The calls that a command makes, with the metric of the received payload.
pub data Call (P : Type 0) : Type 0 where
  to_handler : ℕ → P → Call P
  to_callback : Callback → P → Call P

unfoldable pub on_command : {P : Type 0} → Metric → P → List (Call P)
on_command m payload =
    elim m.handler [ none ↦ [] | some h ↦ to_handler h payload ∷ [] ]
    ++ elim m.callback [ none ↦ [] | some f ↦ to_callback f payload ∷ [] ]

module _ (t : Tahu) where
  open t use {
    Payload, PayloadMetric, init_metric, set_timestamp, empty_set, add_propertyset_to_metric,
    add_metric_to_payload,
  }

  -- The property set of a metric in a message, attached if something was added to it.
  attach_properties : Bool → Properties → PayloadMetric → PayloadMetric
  attach_properties birth nil out = out
  attach_properties birth (cons p ps) out =
      let (s, added) = add_all t birth empty_set false (cons p ps) in
      if added then add_propertyset_to_metric out s else out

  -- The payload's metric that `addToPayload` fills in.
  unfoldable pub report : ℕ → Bool → Metric → PayloadMetric
  unfolding attach_properties
  report now birth m = attach_properties birth m.properties (
      set_timestamp (init_metric m.name m.alias m.data_type m.block m.size)
        (if birth then now else m.changed_time))

  unfoldable pub add_to_payload : ℕ → Bool → Metric → Payload → Payload
  unfolding report
  add_to_payload now birth m out =
      if m.dirty || birth then add_metric_to_payload out (report now birth m) else out
