-- ===== src/Tahu.antt =====
-- The tahu library, which is not part of the repository: its structures and functions are the
-- parameter `Tahu` of all definitions that use them. The data types are the constants
-- METRIC_DATA_TYPE_* and PROPERTY_DATA_TYPE_* that the sources name.
use cpp_sparkplug.Prelude.{ℕ, Bytes, Bool, Option, List}

pub data DataType : Type 0 where
  int8 int16 int32 int64 uint8 uint16 uint32 uint64 float double boolean string date_time
        property_set :
      DataType

pub record Tahu : Type 1 where
  pub Payload : Type 0
  pub PayloadMetric : Type 0
  pub PayloadSet : Type 0
  -- A zeroed structure, with the time and the sequence number that `initializePayload` writes.
  pub new_payload : ℕ → Option ℕ → Payload
  pub empty_set : PayloadSet
  -- init_metric(name, alias, type, data, size): has an alias, is neither historical nor transient.
  pub init_metric : Bytes → ℕ → DataType → Bytes → ℕ → PayloadMetric
  -- metric.timestamp = time; metric.has_timestamp = true
  pub set_timestamp : PayloadMetric → ℕ → PayloadMetric
  -- add_property_to_set, and whether it returned 0; for a value, and for a nested set.
  pub add_property_to_set : PayloadSet → Bytes → DataType → Bytes → ℕ → PayloadSet × Bool
  pub add_nested_to_set : PayloadSet → Bytes → PayloadSet → PayloadSet × Bool
  pub add_propertyset_to_metric : PayloadMetric → PayloadSet → PayloadMetric
  pub add_metric_to_payload : Payload → PayloadMetric → Payload
  -- The two calls of encode_payload: the encoded bytes.
  pub encode_payload : Payload → Bytes
  -- decode_payload: the metrics of the payload, or `none` for a negative result.
  pub decode_payload : Bytes → Option (List PayloadMetric)
  -- metric.name, which may be NULL, and metric.value.boolean_value
  pub metric_name : PayloadMetric → Option Bytes
  pub boolean_value : PayloadMetric → Bool

-- sizeof(T) of the type that the class of a data type is instantiated with.
abbrev pub size_of : DataType → ℕ
size_of int8 = 1
size_of int16 = 2
size_of int32 = 4
size_of int64 = 8
size_of uint8 = 1
size_of uint16 = 2
size_of uint32 = 4
size_of uint64 = 8
size_of float = 4
size_of double = 8
size_of boolean = 1
size_of date_time = 8
size_of string = 0
size_of property_set = 0
