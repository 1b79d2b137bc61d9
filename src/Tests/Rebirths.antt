-- ===== src/Tests/Rebirths.antt =====
-- A rebirth command at a concrete input.
use cpp_sparkplug.Prelude.{ℕ, codes, Option, none, some, [], ◌∷◌, ◌≡◌, refl, arith}
use cpp_sparkplug.Tahu.{Tahu}
use cpp_sparkplug.Metric.{to_callback, rebirth}
use cpp_sparkplug.Publishable.{Publishable}
use cpp_sparkplug.Clients.State.{success}
use cpp_sparkplug.Node.World.{Driver, World, single}
use cpp_sparkplug.Node.Drivers.{async_driver}
use cpp_sparkplug.Node.Setup.{rebirth_metric}
use cpp_sparkplug.Node.Publishing.{publish_birth}
use cpp_sparkplug.Node.Events.{on_message}
use cpp_sparkplug.Node.Commands.{with_calls}
use cpp_sparkplug.Node.Rebirth.{on_message-rebirth}
use cpp_sparkplug.Tests.Data.{SmallMetric, small_tahu, low_byte, tank, async_library}
use cpp_sparkplug.Tests.Nodes.{client_options, options, world}

abbrev command : SmallMetric
command = record {
  name = some (codes "Node Control/Rebirth");
  block = 1 ∷ [];
  time = 0;
  properties = [] ∷ [];
}

-- Every payload decodes to that one metric.
abbrev one_metric : Tahu
one_metric = record small_tahu { decode_payload = λ s. some (command ∷ []) }

abbrev sending : Driver ℕ
sending = async_driver small_tahu low_byte client_options 100 (async_library success)

abbrev ready : World ℕ SmallMetric
ready = record world { publishables = λ s. record tank { metrics = rebirth_metric 0 ∷ [] } }

abbrev after : Option (World ℕ SmallMetric × Unit {0}) → World ℕ SmallMetric
after none = ready
after (some x) = x.0

abbrev born : World ℕ SmallMetric
born = after (publish_birth sending ready)

born_lem : publish_birth sending ready ≡ some (born, tt)
unfolding publish_birth cpp_sparkplug.Publishable.can_publish cpp_sparkplug.Clients.Queue.request
    cpp_sparkplug.Clients.PahoAsync.transport cpp_sparkplug.Clients.prepare
    cpp_sparkplug.Metric.add_to_payload cpp_sparkplug.Metric.Simple.int64_metric
    cpp_sparkplug.Publishable.add_to_payload cpp_sparkplug.Publishable.publishing
    cpp_sparkplug.Metric.set_command_callback cpp_sparkplug.Metric.Simple.boolean_metric
born_lem = refl

born_host : born.node.client_topics.primary_host_topic ≡ []
unfolding publish_birth cpp_sparkplug.Publishable.can_publish cpp_sparkplug.Clients.Queue.request
    cpp_sparkplug.Clients.PahoAsync.transport cpp_sparkplug.Clients.prepare
    cpp_sparkplug.Metric.add_to_payload cpp_sparkplug.Metric.Simple.int64_metric
    cpp_sparkplug.Publishable.add_to_payload cpp_sparkplug.Publishable.publishing
    cpp_sparkplug.Metric.set_command_callback cpp_sparkplug.Metric.Simple.boolean_metric
born_host = refl

on_message-rebirth_example :
    on_message one_metric sending 0 (codes "spBv1.0/g/NCMD/n") (1 ∷ []) ready
    ≡ some (with_calls (to_callback rebirth command ∷ []) born, tt)
unfolding cpp_sparkplug.Node.Setup.new
on_message-rebirth_example =
    on_message-rebirth one_metric sending options single 0 (1 ∷ []) 0 command ready born
      (ground arith) (ground arith) refl refl refl refl refl refl born_lem born_host
