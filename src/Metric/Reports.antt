-- ===== src/Metric/Reports.antt =====
-- src/metrics/Metric.cpp, addToPayload: what a message says of a metric.
use cpp_sparkplug.Prelude.{ℕ, Bool, if◌then◌else◌}
use cpp_sparkplug.Tahu.{Tahu}
use cpp_sparkplug.Property.{Properties, plain, set, nil, cons}
use cpp_sparkplug.Property
use cpp_sparkplug.Metric.{Metric}
use cpp_sparkplug.Metric

module _ (t : Tahu) where
  open t use {PayloadMetric, init_metric, set_timestamp, empty_set, add_propertyset_to_metric}

  -- The metric of a message before its properties: all its fields, and the time of the birth or of the
  -- last change.
  abbrev pub plain_report : ℕ → Bool → Metric → PayloadMetric
  plain_report now birth m =
      set_timestamp (init_metric m.name m.alias m.data_type m.block m.size)
        (if birth then now else m.changed_time)

-- The property sets among properties.
abbrev pub sets_of : Properties → Properties
sets_of nil = nil
sets_of (cons (plain c) ps) = sets_of ps
sets_of (cons (set c qs) ps) = cons (set c qs) (sets_of ps)

module _ (t : Tahu) where
  open t use {PayloadMetric, empty_set, add_propertyset_to_metric}

  -- A metric with the property set that was filled, if something was added to it.
  abbrev with_set : PayloadMetric → t.PayloadSet × Bool → PayloadMetric
  with_set out x = if x.1 then add_propertyset_to_metric out x.0 else out
