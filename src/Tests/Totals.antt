-- ===== src/Tests/Totals.antt =====
-- A node at concrete inputs whose methods return: its event loop, its rounds, and a lost connection.
use cpp_sparkplug.Prelude.{
  ℕ, ◌+◌, ◌≤◌, codes, true, some, List, [], ◌∷◌, ◌≡◌, ◌≢◌, refl, subst, arith, All,
}
use cpp_sparkplug.Publishable.{publishing}
use cpp_sparkplug.Publishable.Naming.{IsNamed}
use cpp_sparkplug.Publishable.State.{PublishableState}
use cpp_sparkplug.Publishable.Timer.{IsTimed}
use cpp_sparkplug.Clients.State.{
  Source, node, device, Event, client_message, client_connected, client_disconnected, client_active,
}
use cpp_sparkplug.Clients.{put}
use cpp_sparkplug.Clients.Queue.{on_disconnect}
use cpp_sparkplug.Node.World.{World, context, leave}
use cpp_sparkplug.Node.Events.{process_events}
use cpp_sparkplug.Node.Ledger.{outstanding}
use cpp_sparkplug.Node.Sound.{Sound}
use cpp_sparkplug.Node.Answers.{Answers, async_driver-Answers}
use cpp_sparkplug.Node.Total.{Names}
use cpp_sparkplug.Node.Total.Events.{process_events-Drains}
use cpp_sparkplug.Node.Total.Idle.{on_disconnect-idle}
use cpp_sparkplug.Clients.PahoAsync
use cpp_sparkplug.Clients.Flow.{sources}
use cpp_sparkplug.Node.Ledger.{count, untagged, in_queues}
use cpp_sparkplug.Node.Publishing.{publish_birth}
use cpp_sparkplug.Node.BirthOrder.{births, Sends}
use cpp_sparkplug.Node.BirthOrder.Publishing.{publish_birth-births}
use cpp_sparkplug.Node.Destroying.{destroy, destroy-reports, async_destroy-empty}
use cpp_sparkplug.Tests.Data.{SmallMetric, small_tahu, low_byte, birth, tank, context_with}
use cpp_sparkplug.Tests.Nodes.{client_options, world}
use cpp_sparkplug.Tests.Runs.{accepting, accepting_driver, accepting_lem, IsTimed-tank}

answering_lem : Answers accepting_driver
answering_lem = async_driver-Answers small_tahu low_byte client_options 100 (omega arith) accepting

-- The other client connects and becomes the active one, a command comes, and both lose their connection.
abbrev busy : List (ℕ × Event)
busy =
    (1, client_connected)
    ∷ (1, client_active)
    ∷ (1, client_message (codes "spBv1.0/g/NCMD/n") (7 ∷ []))
    ∷ (0, client_disconnected)
    ∷ (1, client_disconnected)
    ∷ []

named_payload : Names small_tahu (7 ∷ [])
named_payload cs e =
    let one : SmallMetric = record {
      name = some (7 ∷ []);
      block = 7 ∷ [];
      time = 0;
      properties = [];
    } in
    let same : one ∷ [] ≡ cs = ground (arith, e) in
    subst (All (IsNamed small_tahu)) same ((7 ∷ [], refl), tt)

abbrev busy_world : World ℕ SmallMetric
busy_world = record world { node = record (world.node) { event_queue = busy } }

process_events-Drains_example :
    (fuel : ℕ) × (w' : World ℕ SmallMetric) × ((more : ℕ)
      → fuel ≤ more
      → process_events small_tahu accepting_driver more busy_world ≡ some (w', tt))
    × (w'.node.event_queue ≡ [])
process_events-Drains_example =
    process_events-Drains small_tahu accepting_driver accepting_lem answering_lem busy_world
      ((codes "tank", refl), tt) (omega arith)
      (omega arith, (omega arith, (omega arith, named_payload, (omega arith, (omega arith, tt)))))

-- A node with one client, in whose queue a birth of the node waits.
abbrev lone : World ℕ SmallMetric
lone = record world {
  clients = ((context_with (birth ∷ [])).client, 0) ∷ [];
  publishables = put world.publishables node (publishing tank);
}

lone_lem : Sound true [] lone
unfolding publishing
lone_lem = record { enabled_lem = refl; waiting_lem = λ s. waits s; timed_lem = λ s. timed s }
  where
    waits :
        (s : Source)
        → (lone.publishables s).state ≡ PublishableState.publishing
        → 1 ≤ outstanding s lone + 0
    waits node e = omega arith
    waits (device d) e = cc e

    timed : (s : Source) → IsTimed (lone.publishables s)
    timed node = ground (arith, IsTimed-tank)
    timed (device d) = IsTimed-tank

on_disconnect-idle_example :
    (fuel : ℕ) × (w' : World ℕ SmallMetric) × ((more : ℕ)
      → fuel ≤ more
      → process_events small_tahu accepting_driver more
          (leave 0 (on_disconnect (context lone ((context_with (birth ∷ [])).client, 0))) lone)
        ≡ some (w', tt))
    × ((s : Source) → (w'.publishables s).state ≢ PublishableState.publishing)
on_disconnect-idle_example =
    on_disconnect-idle small_tahu accepting_driver accepting_lem answering_lem true lone
      ((context_with (birth ∷ [])).client, 0) refl lone_lem refl tt

-- The birth of the node, and that of its device.
publish_birth-births_example :
    (w' : World ℕ SmallMetric) × (publish_birth accepting_driver world ≡ some (w', tt))
    × Sends 0
        ((context_with []).client, 0)
        (births (codes "spBv1.0/g/") (codes "n") (λ s. some (codes "tank")) (0 ∷ []))
        world
        w'
publish_birth-births_example =
    publish_birth-births accepting_driver small_tahu low_byte (PahoAsync.transport accepting) 100
      refl 0 (codes "spBv1.0/g/") (codes "n") (λ s. some (codes "tank")) world
      ((context_with []).client, 0) refl refl refl (λ s. refl) ((codes "tank", refl), tt) refl
      (omega arith)

births_runs :
    births (codes "spBv1.0/g/") (codes "n") (λ s. some (codes "tank")) (0 ∷ [])
    ≡ birth ∷ record birth { publisher = device 0; topic = codes "spBv1.0/g/DBIRTH/n/tank" } ∷ []
births_runs = refl

-- A node is destroyed while a birth of it waits.
destroy-reports_example :
    (w' : World ℕ SmallMetric) × (destroy accepting_driver lone ≡ some (w', tt))
    × ((s : Source) → count s (sources (untagged w'.node.event_queue)) ≡ outstanding s lone)
    × ((s : Source) → in_queues s w'.clients ≡ 0)
destroy-reports_example =
    destroy-reports accepting_driver accepting_lem (async_destroy-empty accepting) lone
