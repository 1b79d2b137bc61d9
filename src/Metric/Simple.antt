-- ===== src/Metric/Simple.antt =====
-- src/metrics/simple: the class of each data type, and StringMetric. A value is given by its object
-- representation.
use cpp_sparkplug.Prelude.{Bytes, length, ◌≡◌, ◌+◌, ap, ◌∙◌, sym, take, take-length}
use cpp_sparkplug.Memory.{c_str, length-c_str}
use cpp_sparkplug.Tahu.{
  DataType, int8, int16, int32, int64, uint8, uint16, uint32, uint64, float, double, boolean,
  date_time, string, size_of,
}
use cpp_sparkplug.Metric.{Metric, new}

-- SimpleMetric(name, data, dataType), for a value of sizeof(T) bytes.
unfoldable pub simple : DataType → Bytes → Bytes → Metric
unfolding new
simple type name value = new name value (size_of type) type

unfoldable pub int8_metric : Bytes → Bytes → Metric
unfolding simple
int8_metric name value = simple int8 name value

unfoldable pub int16_metric : Bytes → Bytes → Metric
unfolding simple
int16_metric name value = simple int16 name value

unfoldable pub int32_metric : Bytes → Bytes → Metric
unfolding simple
int32_metric name value = simple int32 name value

unfoldable pub int64_metric : Bytes → Bytes → Metric
unfolding simple
int64_metric name value = simple int64 name value

unfoldable pub uint8_metric : Bytes → Bytes → Metric
unfolding simple
uint8_metric name value = simple uint8 name value

unfoldable pub uint16_metric : Bytes → Bytes → Metric
unfolding simple
uint16_metric name value = simple uint16 name value

unfoldable pub uint32_metric : Bytes → Bytes → Metric
unfolding simple
uint32_metric name value = simple uint32 name value

unfoldable pub uint64_metric : Bytes → Bytes → Metric
unfolding simple
uint64_metric name value = simple uint64 name value

unfoldable pub float_metric : Bytes → Bytes → Metric
unfolding simple
float_metric name value = simple float name value

unfoldable pub double_metric : Bytes → Bytes → Metric
unfolding simple
double_metric name value = simple double name value

unfoldable pub boolean_metric : Bytes → Bytes → Metric
unfolding simple
boolean_metric name value = simple boolean name value

unfoldable pub date_time_metric : Bytes → Bytes → Metric
unfolding simple
date_time_metric name value = simple date_time name value

unfoldable pub string_metric : Bytes → Bytes → Metric
unfolding new
string_metric name value = new name (c_str value) (length value + 1) string

-- The blocks of new metrics have the sizes that are kept beside them.
pub simple_block :
    (type : DataType) (name value : Bytes)
    → length value ≡ size_of type
    → ((simple type name value).block ≡ value)
      × (length (simple type name value).block ≡ (simple type name value).size)
unfolding simple
simple_block type name value e =
    let whole : take (size_of type) value ≡ value =
      ap (λ n. take n value) (sym e) ∙ take-length value in
    (whole, ap length whole ∙ e)

pub string_block : (name value : Bytes) → (string_metric name value).block ≡ c_str value
unfolding string_metric
string_block name value =
    ap (λ n. take n (c_str value)) (sym (length-c_str value)) ∙ take-length (c_str value)
