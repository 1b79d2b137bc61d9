-- ===== src/Tests/Commands.antt =====
-- Commands to a node and its devices at concrete inputs.
use cpp_sparkplug.Prelude.{codes, true, some, [], ◌∷◌, ◌++◌, ◌≡◌, ◌≢◌, refl, arith}
use cpp_sparkplug.Metric.{Call, to_handler, set_command_handler}
use cpp_sparkplug.Node.World.{World, single}
use cpp_sparkplug.Node.Events.{on_message}
use cpp_sparkplug.Node.Commands.{with_calls, on_message-device}
use cpp_sparkplug.Node.Misrouted.{on_message-ncmd}
use cpp_sparkplug.Publishable.Receivers.{Receives}
use cpp_sparkplug.Clients.State.{device, same_source}
use cpp_sparkplug.Prelude.{if◌then◌else◌}
use cpp_sparkplug.Prelude.{ℕ, List}
use cpp_sparkplug.Publishable.{Publishable}
use cpp_sparkplug.Tests.Data.{SmallMetric, small_tahu, tank, level}
use cpp_sparkplug.Tests.Nodes.{failing_driver, options, world}

-- A device whose metric has handler 12.
abbrev valve : Publishable
valve = record tank { metrics = set_command_handler 0 12 level ∷ [] }

abbrev plant : World ℕ SmallMetric
plant = record world { publishables = λ s. valve }

abbrev received : List (Call SmallMetric)
received =
    to_handler 12 (record { name = some (7 ∷ []); block = 7 ∷ []; time = 0; properties = [] }) ∷ []

-- The first device of that name is the second of the list.
abbrev works : World ℕ SmallMetric
works = record plant {
  node = record (plant.node) { devices = 4 ∷ 0 ∷ [] };
  publishables = λ s.
      if same_source s (device 4) then record valve { name = some (codes "boiler") } else valve;
}

on_message-device_example :
    (calls : List (Call SmallMetric)) × (on_message small_tahu failing_driver 0
        (codes "spBv1.0/g/DCMD/n/tank")
        (7 ∷ [])
        works
      ≡ some (with_calls calls works, tt))
    × Receives small_tahu valve.metrics
        (record { name = some (7 ∷ []); block = 7 ∷ []; time = 0; properties = [] } ∷ [])
        calls
unfolding cpp_sparkplug.Node.Setup.new cpp_sparkplug.Prelude.Text.find set_command_handler
    cpp_sparkplug.Metric.Simple.int8_metric
on_message-device_example =
    on_message-device small_tahu failing_driver options single 0 (codes "tank") (7 ∷ []) 0 0
      (4 ∷ []) [] (record { name = some (7 ∷ []); block = 7 ∷ []; time = 0; properties = [] } ∷ [])
      works (ground arith) (ground arith) refl refl refl (omega arith) refl refl
      ((codes "boiler", refl, ground arith), tt) refl refl ((7 ∷ [], refl), tt) (ground arith, tt)
      refl

-- The calls at that input.
on_message_runs :
    on_message small_tahu failing_driver 0 (codes "spBv1.0/g/DCMD/n/tank") (7 ∷ []) works
    ≡ some (with_calls received works, tt)
unfolding on_message cpp_sparkplug.Publishable.handle_command cpp_sparkplug.Publishable.find_metric
    set_command_handler cpp_sparkplug.Metric.Simple.int8_metric cpp_sparkplug.Metric.on_command
    cpp_sparkplug.Prelude.Text.find cpp_sparkplug.Prelude.same cpp_sparkplug.Node.Events.find_device
on_message_runs = refl

on_message-ncmd_example :
    on_message small_tahu failing_driver 0 (codes "spBv1.0/g/DCMD/n/NCMD1") (7 ∷ []) works
    ≡ some (works, tt)
unfolding cpp_sparkplug.Node.Setup.new
on_message-ncmd_example =
    on_message-ncmd small_tahu failing_driver options single 0 [] (codes "1") (7 ∷ []) 0 works
      (ground arith) (ground arith) refl refl refl
