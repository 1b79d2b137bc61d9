-- ===== src/Tests/Runs.antt =====
-- Runs of a client and of a node at concrete inputs: the asynchronous Paho client over a library that
-- accepts, or refuses, every call.
use cpp_sparkplug.Prelude.{
  Option, ℕ, ◌<◌, ◌≤◌, ◌⊎◌, true, false, some, none, List, [], ◌∷◌, ◌++◌, ◌≡◌, refl, arith, inl,
  inr, codes, if◌then◌else◌,
}
use cpp_sparkplug.Prelude.Int.{ℤ, pos, negsuc}
use cpp_sparkplug.Publishable.State.{PublishableState}
use cpp_sparkplug.Publishable.Timer.{IsTimed}
use cpp_sparkplug.Clients.State.{node, success, other_code}
use cpp_sparkplug.Clients.{Context}
use cpp_sparkplug.Clients.PahoAsync
use cpp_sparkplug.Clients.PahoSync
use cpp_sparkplug.Clients.CppMqtt
use cpp_sparkplug.Clients.PahoAsync.{Notice, delivery_complete}
use cpp_sparkplug.Clients.Flow.{sources, publishers}
use cpp_sparkplug.Clients.Moves.Async.{on_notice-Flow}
use cpp_sparkplug.Node.World.{Driver, World, pure, with_client, no_result}
use cpp_sparkplug.Node.Drivers.{sync_driver, async_driver, cpp_driver}
use cpp_sparkplug.Node.Contract.{Conserves, async_driver-Conserves}
use cpp_sparkplug.Node.Runs.{
  Run, noticed, requested, sync_driver-requests, async_driver-requests, cpp_driver-requests,
}
use cpp_sparkplug.Node.Ledger.{outstanding}
use cpp_sparkplug.Node.Sound.{Sound, Leads-some}
use cpp_sparkplug.Node.Reach.{Reach, later, notices, requests, Reach-outstanding}
use cpp_sparkplug.Node.Delay.{IsDelay, execute-IsDelay}
use cpp_sparkplug.Node.Begin.{begin, AreDelays, begin-AreDelays}
use cpp_sparkplug.Node.Events.{execute}
use cpp_sparkplug.Node.Publishing.{request_publish}
use cpp_sparkplug.Tests.Data.{
  SmallMetric, small_tahu, low_byte, birth, tank, context_with, sync_library, async_library,
  cpp_library,
}
use cpp_sparkplug.Tests.Nodes.{client_options, world}

async_driver-Conserves_example :
    Conserves (async_driver small_tahu low_byte client_options 100 (async_library success))
async_driver-Conserves_example =
    async_driver-Conserves small_tahu low_byte client_options 100 (async_library success)

abbrev pub accepting : PahoAsync.PahoLibrary ℕ
accepting = async_library success

abbrev pub accepting_driver : Driver ℕ
accepting_driver = async_driver small_tahu low_byte client_options 100 accepting

pub accepting_lem : Conserves accepting_driver
accepting_lem = async_driver-Conserves small_tahu low_byte client_options 100 accepting

abbrev on_accepted : Notice → Context ℕ → Option (Context ℕ)
on_accepted = PahoAsync.on_notice accepting small_tahu low_byte 100

abbrev returned : Option (Context ℕ) → Context ℕ
returned none = context_with []
returned (some c) = c

-- A birth is sent, a second one waits behind it, and the first is delivered.
abbrev sent : Context ℕ
sent = returned (accepting_driver.request birth (context_with []))

abbrev waiting : Context ℕ
waiting = returned (accepting_driver.request birth sent)

abbrev told : Context ℕ
told = returned (on_accepted (delivery_complete (pos 0)) waiting)

sent_lem : accepting_driver.request birth (context_with []) ≡ some sent
unfolding cpp_sparkplug.Clients.Queue.request PahoAsync.transport cpp_sparkplug.Clients.prepare
    cpp_sparkplug.Metric.add_to_payload cpp_sparkplug.Metric.Simple.int64_metric
    cpp_sparkplug.Publishable.add_to_payload cpp_sparkplug.Metric.Simple.int8_metric
sent_lem = refl

waiting_lem : accepting_driver.request birth sent ≡ some waiting
unfolding cpp_sparkplug.Clients.Queue.request PahoAsync.transport cpp_sparkplug.Clients.prepare
    cpp_sparkplug.Metric.add_to_payload cpp_sparkplug.Metric.Simple.int64_metric
    cpp_sparkplug.Publishable.add_to_payload cpp_sparkplug.Metric.Simple.int8_metric
waiting_lem = refl

told_lem : on_accepted (delivery_complete (pos 0)) waiting ≡ some told
unfolding PahoAsync.on_notice cpp_sparkplug.Clients.Queue.on_delivery
    cpp_sparkplug.Clients.Queue.request cpp_sparkplug.Clients.prepare
    cpp_sparkplug.Metric.add_to_payload cpp_sparkplug.Metric.Simple.int64_metric
    cpp_sparkplug.Publishable.add_to_payload cpp_sparkplug.Metric.Simple.int8_metric
    cpp_sparkplug.Clients.delivered
told_lem = refl

async_driver-requests_example :
    node ∷ node ∷ [] ≡ sources told.events ++ publishers told.client.publish_queue
async_driver-requests_example =
    async_driver-requests small_tahu low_byte client_options 100 accepting (context_with []) told
      (node ∷ node ∷ []) refl refl
      (noticed (delivery_complete (pos 0))
        (requested birth (requested birth Run.start sent_lem) waiting_lem) told_lem)

abbrev cpp_sent : Context ℕ
cpp_sent = returned (
    (cpp_driver small_tahu low_byte client_options 100 cpp_library).request birth (context_with []))

cpp_sent_lem :
    (cpp_driver small_tahu low_byte client_options 100 cpp_library).request birth (context_with [])
    ≡ some cpp_sent
unfolding cpp_sparkplug.Clients.Queue.request CppMqtt.transport cpp_sparkplug.Clients.prepare
    cpp_sparkplug.Metric.add_to_payload cpp_sparkplug.Metric.Simple.int64_metric
    cpp_sparkplug.Publishable.add_to_payload cpp_sparkplug.Metric.Simple.int8_metric
cpp_sent_lem = refl

abbrev cpp_failed : Context ℕ
cpp_failed =
    returned (CppMqtt.on_notice cpp_library small_tahu low_byte 100 CppMqtt.disconnection cpp_sent)

cpp_failed_lem :
    CppMqtt.on_notice cpp_library small_tahu low_byte 100 CppMqtt.disconnection cpp_sent
    ≡ some cpp_failed
unfolding CppMqtt.on_notice
cpp_failed_lem = refl

-- The connection is lost while a birth is on its way.
cpp_driver-requests_example :
    node ∷ [] ≡ sources cpp_failed.events ++ publishers cpp_failed.client.publish_queue
cpp_driver-requests_example =
    cpp_driver-requests small_tahu low_byte client_options 100 cpp_library (context_with [])
      cpp_failed (node ∷ []) refl refl
      (noticed CppMqtt.disconnection (requested birth Run.start cpp_sent_lem) cpp_failed_lem)

abbrev sync_refusing : Driver ℕ
sync_refusing = sync_driver small_tahu low_byte client_options 100 (sync_library other_code) 3

abbrev sync_failed : Context ℕ
sync_failed = returned (sync_refusing.request birth (context_with []))

sync_failed_lem : sync_refusing.request birth (context_with []) ≡ some sync_failed
unfolding cpp_sparkplug.Clients.Queue.request PahoSync.transport cpp_sparkplug.Clients.prepare
    cpp_sparkplug.Metric.add_to_payload cpp_sparkplug.Metric.Simple.int64_metric
    cpp_sparkplug.Publishable.add_to_payload cpp_sparkplug.Metric.Simple.int8_metric
    cpp_sparkplug.Clients.undelivered
sync_failed_lem = refl

-- Every attempt to send a birth is refused.
sync_driver-requests_example :
    node ∷ [] ≡ sources sync_failed.events ++ publishers sync_failed.client.publish_queue
sync_driver-requests_example =
    sync_driver-requests small_tahu low_byte client_options 100 (sync_library other_code) 3
      (context_with []) sync_failed (node ∷ []) refl refl
      (requested birth Run.start sync_failed_lem)

-- A node asks for a birth, whose delivery then comes in.
abbrev came : Option (World ℕ SmallMetric × Unit {0}) → World ℕ SmallMetric
came none = world
came (some x) = x.0

abbrev asked : World ℕ SmallMetric
asked = came (request_publish accepting_driver node true world)

abbrev run : World ℕ SmallMetric
run = came (with_client 0 (no_result (on_accepted (delivery_complete (pos 0)))) asked)

asked_lem : request_publish accepting_driver node true world ≡ some (asked, tt)
unfolding request_publish cpp_sparkplug.Publishable.can_publish cpp_sparkplug.Clients.Queue.request
    PahoAsync.transport cpp_sparkplug.Clients.prepare cpp_sparkplug.Metric.add_to_payload
    cpp_sparkplug.Metric.Simple.int64_metric cpp_sparkplug.Publishable.add_to_payload
    cpp_sparkplug.Publishable.publishing cpp_sparkplug.Metric.Simple.int8_metric
asked_lem = refl

run_lem : with_client 0 (no_result (on_accepted (delivery_complete (pos 0)))) asked ≡ some (run, tt)
unfolding with_client request_publish cpp_sparkplug.Publishable.can_publish
    cpp_sparkplug.Clients.Queue.request PahoAsync.transport cpp_sparkplug.Clients.prepare
    cpp_sparkplug.Metric.add_to_payload cpp_sparkplug.Metric.Simple.int64_metric
    cpp_sparkplug.Publishable.add_to_payload cpp_sparkplug.Publishable.publishing
    cpp_sparkplug.Metric.Simple.int8_metric PahoAsync.on_notice
    cpp_sparkplug.Clients.Queue.on_delivery cpp_sparkplug.Clients.delivered
run_lem = refl

pub IsTimed-tank : IsTimed tank
IsTimed-tank = ground arith

still_publishing : (run.publishables node).state ≡ PublishableState.publishing
unfolding with_client request_publish cpp_sparkplug.Publishable.can_publish
    cpp_sparkplug.Clients.Queue.request PahoAsync.transport cpp_sparkplug.Clients.prepare
    cpp_sparkplug.Metric.add_to_payload cpp_sparkplug.Metric.Simple.int64_metric
    cpp_sparkplug.Publishable.add_to_payload cpp_sparkplug.Publishable.publishing
    cpp_sparkplug.Metric.Simple.int8_metric PahoAsync.on_notice
    cpp_sparkplug.Clients.Queue.on_delivery cpp_sparkplug.Clients.delivered
still_publishing = refl

Reach-outstanding_example : 1 ≤ outstanding node run
Reach-outstanding_example =
    Reach-outstanding small_tahu accepting_driver on_accepted (λ k. Unit {0}) accepting_lem
      (on_notice-Flow accepting small_tahu low_byte 100) (λ s. ground arith) (λ s. IsTimed-tank)
      (later (later Reach.start (requests node true asked_lem))
        (notices 0 (delivery_complete (pos 0)) run_lem))
      node still_publishing

world_lem : Sound true [] world
world_lem = record {
  enabled_lem = refl;
  waiting_lem = λ s e. ground (arith, e);
  timed_lem = λ s. IsTimed-tank;
}

abbrev passed : Option (World ℕ SmallMetric × ℤ) → World ℕ SmallMetric × ℤ
passed none = (world, pos 0)
passed (some x) = x

abbrev ran : World ℕ SmallMetric × ℤ
ran = passed (execute small_tahu accepting_driver 5 (pos 20) world)

ran_lem : execute small_tahu accepting_driver 5 (pos 20) world ≡ some (ran.0, ran.1)
unfolding execute cpp_sparkplug.Node.Events.is_active cpp_sparkplug.Node.Events.sync
    cpp_sparkplug.Clients.execute cpp_sparkplug.Node.Events.process_events
    cpp_sparkplug.Publishable.can_publish cpp_sparkplug.Publishable.update
    cpp_sparkplug.Prelude.Int.◌-ℤ◌ cpp_sparkplug.Metric.Simple.int8_metric
ran_lem = refl

execute-IsDelay_example : IsDelay ran.1
execute-IsDelay_example =
    execute-IsDelay small_tahu accepting_driver accepting_lem 5 20 world ran.0 ran.1 (omega arith)
      world_lem ran_lem

abbrev slept : Option (World ℕ SmallMetric × List ℤ) → World ℕ SmallMetric × List ℤ
slept none = (world, [])
slept (some x) = x

abbrev begun : World ℕ SmallMetric × List ℤ
begun = slept (begin small_tahu accepting_driver (λ i. pure tt) 5 2 world)

begun_lem : begin small_tahu accepting_driver (λ i. pure tt) 5 2 world ≡ some (begun.0, begun.1)
unfolding begin execute cpp_sparkplug.Node.Events.is_active cpp_sparkplug.Node.Events.sync
    cpp_sparkplug.Clients.execute cpp_sparkplug.Node.Events.process_events
    cpp_sparkplug.Publishable.can_publish cpp_sparkplug.Publishable.update
    cpp_sparkplug.Prelude.Int.◌-ℤ◌ cpp_sparkplug.Metric.Simple.int8_metric
begun_lem = refl

begun_sleeps : begun.1 ≡ pos 5 ∷ pos 10 ∷ []
unfolding begin execute cpp_sparkplug.Node.Events.is_active cpp_sparkplug.Node.Events.sync
    cpp_sparkplug.Clients.execute cpp_sparkplug.Node.Events.process_events
    cpp_sparkplug.Publishable.can_publish cpp_sparkplug.Publishable.update
    cpp_sparkplug.Prelude.Int.◌-ℤ◌ cpp_sparkplug.Metric.Simple.int8_metric
begun_sleeps = refl

begin-AreDelays_example : AreDelays begun.1
begin-AreDelays_example =
    begin-AreDelays small_tahu accepting_driver (λ i. pure tt) 5 accepting_lem
      (λ i w h. Leads-some w tt h) 2 world begun.0 begun.1 world_lem begun_lem
