-- ===== src/Tests/Values.antt =====
-- Uri, Property and Metric at concrete inputs.
use cpp_sparkplug.Prelude.{
  ℕ, Bytes, codes, same, true, false, some, List, [], ◌∷◌, ◌≡◌, refl, arith, length, ◌++◌, ◌<◌,
}
use cpp_sparkplug.Prelude.Int.{pos}
use cpp_sparkplug.Uri.{Uri, init, print}
use cpp_sparkplug.Uri.RoundTrip.{init-print}
use cpp_sparkplug.Memory.{c_str}
use cpp_sparkplug.Tahu.{int8, string}
use cpp_sparkplug.Register.{Action, write, publish}
use cpp_sparkplug.Property.{Cell, Properties, plain, set, nil, cons}
use cpp_sparkplug.Metric.{Metric, Call, to_handler, to_callback, user, on_command}
use cpp_sparkplug.Metric
use cpp_sparkplug.Metric.Simple.{simple, string_metric}
use cpp_sparkplug.Metric.Changes.{
  run_metric, run_string, run_metric-last_published, run_string-last_published, set_string_overrun,
}

abbrev broker : Uri
broker = record { protocol = codes "tcp://"; address = codes "localhost"; port = pos 1883 }

init-print_example : init (print broker) ≡ some broker
init-print_example =
    init-print (codes "tcp") broker 1883
      (record { scheme_plain = ground arith; protocol_lem = refl; address_plain = ground arith })
      refl (omega arith) (omega arith)

-- A property of one byte.
abbrev gauge : Cell
gauge = record { name = codes "gauge"; data_type = int8; size = 1; dirty = false; block = 3 ∷ [] }

abbrev dirty_gauge : Cell
dirty_gauge = record gauge { dirty = true }

abbrev unit_text : Cell
unit_text = record {
  name = codes "unit";
  data_type = string;
  size = 2;
  dirty = false;
  block = c_str (codes "m");
}

-- A write of 4, a publication, and a write of 4 again.
abbrev four_twice : List Action
four_twice = write (4 ∷ []) ∷ publish ∷ write (4 ∷ []) ∷ []

abbrev feet : List Action
feet = write (codes "ft") ∷ publish ∷ write (codes "ft") ∷ []

abbrev members : Properties
members = cons (plain gauge) (cons (plain dirty_gauge) nil)

-- The same actions at given times.
abbrev four_at_times : List (ℕ × Action)
four_at_times = (100, write (4 ∷ [])) ∷ (200, publish) ∷ (300, write (4 ∷ [])) ∷ []

abbrev feet_at_times : List (ℕ × Action)
feet_at_times = (100, write (codes "ft")) ∷ (200, publish) ∷ (300, write (codes "ft")) ∷ []

run_metric-last_published_example :
    (run_metric four_at_times (simple int8 (codes "level") (3 ∷ []))).block ≡ 4 ∷ []
unfolding run_metric Metric.set_value Metric.published cpp_sparkplug.Memory.differs same simple
    cpp_sparkplug.Memory.memcpy
run_metric-last_published_example =
    run_metric-last_published int8 (codes "level") (3 ∷ []) four_at_times refl (refl, (refl, tt))
      refl

run_string-last_published_example :
    Metric.get_string (run_string feet_at_times (string_metric (codes "unit") (codes "m")))
    ≡ some (codes "ft")
unfolding run_string Metric.set_string Metric.published string_metric cpp_sparkplug.Memory.differs
    same cpp_sparkplug.Memory.strdup cpp_sparkplug.Memory.before_nul
run_string-last_published_example =
    run_string-last_published (codes "unit") (codes "m") feet_at_times (ground arith)
      (ground arith, (ground arith, tt)) refl

abbrev there_and_back : List (ℕ × Bytes)
there_and_back = (100, 4 ∷ []) ∷ (200, 3 ∷ []) ∷ []

abbrev one_text : List (ℕ × Bytes)
one_text = (100, codes "m") ∷ []

set_string_overrun_example :
    let m' =
      Metric.set_string
        (codes "a" ++ 0 ∷ codes "b")
        100
        (string_metric (codes "unit") (codes "m")) in
    length m'.block < m'.size
unfolding string_metric
set_string_overrun_example =
    set_string_overrun (codes "a") (codes "b") 100 (string_metric (codes "unit") (codes "m"))
      (omega arith)

-- A metric with a property and a set, whose members were written.
abbrev described : Metric
described = record (Metric.new (7 ∷ []) (41 ∷ []) 1 int8) {
  dirty = true;
  properties = cons (plain dirty_gauge) (cons (set dirty_gauge members) nil);
}
