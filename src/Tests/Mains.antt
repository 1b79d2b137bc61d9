-- ===== src/Tests/Mains.antt =====
-- The CPU example's main program at a concrete input: it returns from a round of its loop, in which it
-- has sent a message of a CPU.
use cpp_sparkplug.Prelude.{
  ℕ, ◌≤◌, Bytes, codes, Option, none, some, List, [], ◌∷◌, ◌≡◌, refl, arith,
}
use cpp_sparkplug.Publishable.State.{PublishableState}
use cpp_sparkplug.Clients.State.{device, success}
use cpp_sparkplug.Node.World.{Driver, pure}
use cpp_sparkplug.Node.Drivers.{async_driver}
use cpp_sparkplug.Examples.Cpu.{Reading, no_reading}
use cpp_sparkplug.Examples.Main.{Program, main}
use cpp_sparkplug.Tests.Data.{SmallMetric, small_tahu, low_byte, async_library}
use cpp_sparkplug.Tests.Nodes.{client_options, world}
use cpp_sparkplug.Tests.Cpus.{whole, reading, fresh}

abbrev driver : Driver ℕ
driver = async_driver small_tahu low_byte client_options 100 (async_library success)

abbrev scanned : Bytes → Reading → Option Reading
scanned line r = some (reading 1 3)

abbrev start : Program ℕ SmallMetric
start = record { world = world; cpus = fresh ∷ [] }

abbrev program : ℕ → Option (Program ℕ SmallMetric)
program rounds =
    main small_tahu driver whole scanned no_reading (λ i. codes "cpu 1" ∷ []) (λ i j. j)
      (λ i. pure tt) (λ i. pure tt) 5 rounds start

abbrev ended : Option (Program ℕ SmallMetric) → Program ℕ SmallMetric
ended none = start
ended (some p) = p

program_lem : program 1 ≡ some (ended (program 1))
unfolding main cpp_sparkplug.Node.Setup.enable cpp_sparkplug.Clients.configure
    cpp_sparkplug.Clients.PahoAsync.configure_client cpp_sparkplug.Node.Events.is_active
    cpp_sparkplug.Node.Events.sync cpp_sparkplug.Clients.execute
    cpp_sparkplug.Node.Events.process_events cpp_sparkplug.Examples.Main.measure
    cpp_sparkplug.Prelude.Text.find cpp_sparkplug.Node.Events.execute
    cpp_sparkplug.Publishable.can_publish cpp_sparkplug.Publishable.update
    cpp_sparkplug.Prelude.Int.◌-ℤ◌ cpp_sparkplug.Metric.Simple.int8_metric
    cpp_sparkplug.Metric.set_value cpp_sparkplug.Memory.differs cpp_sparkplug.Clients.Queue.request
    cpp_sparkplug.Clients.PahoAsync.transport cpp_sparkplug.Clients.prepare
    cpp_sparkplug.Metric.add_to_payload cpp_sparkplug.Metric.Simple.int64_metric
    cpp_sparkplug.Publishable.add_to_payload cpp_sparkplug.Prelude.same
    cpp_sparkplug.Publishable.publishing
program_lem = refl

still_publishing :
    ((ended (program 1)).world.publishables (device 0)).state ≡ PublishableState.publishing
unfolding main cpp_sparkplug.Node.Setup.enable cpp_sparkplug.Clients.configure
    cpp_sparkplug.Clients.PahoAsync.configure_client cpp_sparkplug.Node.Events.is_active
    cpp_sparkplug.Node.Events.sync cpp_sparkplug.Clients.execute
    cpp_sparkplug.Node.Events.process_events cpp_sparkplug.Examples.Main.measure
    cpp_sparkplug.Prelude.Text.find cpp_sparkplug.Node.Events.execute
    cpp_sparkplug.Publishable.can_publish cpp_sparkplug.Publishable.update
    cpp_sparkplug.Prelude.Int.◌-ℤ◌ cpp_sparkplug.Metric.Simple.int8_metric
    cpp_sparkplug.Metric.set_value cpp_sparkplug.Memory.differs cpp_sparkplug.Clients.Queue.request
    cpp_sparkplug.Clients.PahoAsync.transport cpp_sparkplug.Clients.prepare
    cpp_sparkplug.Metric.add_to_payload cpp_sparkplug.Metric.Simple.int64_metric
    cpp_sparkplug.Publishable.add_to_payload cpp_sparkplug.Prelude.same
    cpp_sparkplug.Publishable.publishing
still_publishing = refl
