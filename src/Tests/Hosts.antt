-- ===== src/Tests/Hosts.antt =====
-- A node that waits for its primary host, at concrete inputs.
use cpp_sparkplug.Prelude.{
  ℕ, suc, ◌≤◌, length, codes, Bytes, true, false, Option, none, some, List, [], ◌∷◌, ◌≡◌, refl,
  arith,
}
use cpp_sparkplug.Clients.State.{ClientState, Source, client_message, success}
use cpp_sparkplug.Clients.{Client, Context}
use cpp_sparkplug.Clients.PahoAsync
use cpp_sparkplug.Clients.PahoAsync.{Notice, connection_success, message_arrived}
use cpp_sparkplug.Node.World.{World, Driver, primary_host, with_client, no_result}
use cpp_sparkplug.Node.Events.{sync, process_events}
use cpp_sparkplug.Node.Drivers.{sync_driver}
use cpp_sparkplug.Node.BirthOrder.{births}
use cpp_sparkplug.Node.Waiting.Online.{Begins, sync_driver-host_births}
use cpp_sparkplug.Node.Ledger.{in_queues}
use cpp_sparkplug.Node.Reach.{start, later, notices, syncs}
use cpp_sparkplug.Node.Waiting.{IsIdle}
use cpp_sparkplug.Node.Waiting.Drivers.{IsOffline, async_driver-Waits, async_on_notice-IsUnheard}
use cpp_sparkplug.Node.Waiting.Reach.{Reach-waiting}
use cpp_sparkplug.Tests.Data.{SmallMetric, small_tahu, low_byte, topics, context_with, sync_library}
use cpp_sparkplug.Tests.Nodes.{client_options, world}
use cpp_sparkplug.Tests.Runs.{accepting, accepting_driver}

abbrev host : Bytes
host = codes "spBv1.0/STATE/h"

abbrev idle_client : Client
idle_client = record ((context_with []).client) {
  is_primary = false;
  state = ClientState.connecting;
  topics = record topics { primary_host_topic = host };
}

abbrev hosted : World ℕ SmallMetric
hosted = record world {
  node = record (world.node) {
    active_client = none;
    host_mode = primary_host;
    client_topics = record topics { primary_host_topic = host };
  };
  clients = (idle_client, 0) ∷ [];
}

abbrev Word : Type 0
Word = (n : Notice) × IsOffline host n

abbrev on_word : Word → Context ℕ → Option (Context ℕ)
on_word n = PahoAsync.on_notice accepting small_tahu low_byte 100 n.0

abbrev came : Option (World ℕ SmallMetric × Unit {0}) → World ℕ SmallMetric
came none = hosted
came (some x) = x.0

abbrev offline : Notice
offline = message_arrived host (codes "{\"online\": false}")

offline_lem : IsOffline host offline
unfolding cpp_sparkplug.Prelude.same cpp_sparkplug.Prelude.Text.find
offline_lem = refl

-- The client connects and hears that the host is offline.
abbrev told : Word
told = (offline, offline_lem)

abbrev connected : World ℕ SmallMetric
connected = came (with_client 0 (no_result (on_word (connection_success, tt))) hosted)

abbrev heard : World ℕ SmallMetric
heard = came (with_client 0 (no_result (on_word told)) connected)

abbrev synced : World ℕ SmallMetric
synced = came (sync small_tahu accepting_driver 5 heard)

connected_lem :
    with_client 0 (no_result (on_word (connection_success, tt))) hosted ≡ some (connected, tt)
unfolding with_client PahoAsync.on_notice
connected_lem = refl

heard_lem : with_client 0 (no_result (on_word told)) connected ≡ some (heard, tt)
unfolding with_client PahoAsync.on_notice
heard_lem = refl

synced_lem : sync small_tahu accepting_driver 5 heard ≡ some (synced, tt)
unfolding sync PahoAsync.on_notice cpp_sparkplug.Clients.execute
    cpp_sparkplug.Node.Events.process_events cpp_sparkplug.Clients.connected
    cpp_sparkplug.Node.Events.process_event cpp_sparkplug.Clients.message_received
    cpp_sparkplug.Prelude.same cpp_sparkplug.Prelude.Text.find
synced_lem = refl

Reach-waiting_example :
    (synced.node.active_client ≡ none) × ((s : Source) → in_queues s synced.clients ≡ 0)
Reach-waiting_example =
    Reach-waiting small_tahu accepting_driver on_word (λ k. IsIdle k.0) host
      (async_driver-Waits host small_tahu low_byte client_options 100 accepting) (λ k new. new)
      (λ n c c' e h.
        async_on_notice-IsUnheard host small_tahu low_byte client_options 100 accepting n.0 c c' n.1
          e h)
      (record {
        mode_lem = refl;
        host_lem = refl;
        active_lem = refl;
        queue_lem = refl;
        clients_lem = ((refl, refl), tt);
      })
      (later
        (later (later start (notices 0 (connection_success, tt) connected_lem))
          (notices 0 told heard_lem))
        (syncs 5 synced_lem))

-- The client is connected, and the host says that it is online.
abbrev online : Bytes
online = codes "{\"online\": true}"

abbrev ready : Client
ready = record idle_client { state = ClientState.connected }

abbrev greeted : World ℕ SmallMetric
greeted = record hosted {
  node = record (hosted.node) { event_queue = (0, client_message host online) ∷ [] };
  clients = (ready, 0) ∷ [];
}

abbrev synchronous : Driver ℕ
synchronous = sync_driver small_tahu low_byte client_options 100 (sync_library success) 5

sync_driver-host_births_example :
    (w' : World ℕ SmallMetric) × (p : Begins 0
      (ready, 0)
      (births (codes "spBv1.0/g/") (codes "n") (λ s. some (codes "tank")) (0 ∷ []))
      w')
    × ((more : ℕ)
        → length p.dropped ≤ more
        → process_events small_tahu synchronous (suc (suc more)) greeted ≡ some (w', tt))
unfolding cpp_sparkplug.Prelude.same cpp_sparkplug.Prelude.Text.find
sync_driver-host_births_example =
    sync_driver-host_births small_tahu low_byte client_options 100 (sync_library success) 5 0
      (codes "spBv1.0/g/") (codes "n") (λ s. some (codes "tank")) host online greeted (ready, 0)
      refl refl refl refl refl refl refl refl refl refl (λ s. refl) ((codes "tank", refl), tt)
      (omega arith)
