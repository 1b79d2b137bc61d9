-- ===== src/Tests/Nodes.antt =====
-- Node at concrete inputs: a node with two clients and a device.
use cpp_sparkplug.Prelude.{ℕ, codes, true, false, none, some, List, [], ◌∷◌, ◌≡◌, refl, arith}
use cpp_sparkplug.Prelude.Int.{pos}
use cpp_sparkplug.Publishable.{published, publishing}
use cpp_sparkplug.Clients.State.{node, device}
use cpp_sparkplug.Node.World.{Driver, World, single}
use cpp_sparkplug.Node.Setup.{NodeOptions, new}
use cpp_sparkplug.Node.Publishing.{topic, publish}
use cpp_sparkplug.Node.Events.{process_events}
use cpp_sparkplug.Node.Topics.{topic-new}
use cpp_sparkplug.Node.Loop.{Outcome, delivery, outcome_events, settled, process_events-outcomes}
use cpp_sparkplug.Node.Delivery.{begun, publish-Accounts}
use cpp_sparkplug.Node.Drivers.{sync_driver}
use cpp_sparkplug.Clients.State.{ClientOptions, other_code}
use cpp_sparkplug.Clients.PahoSync
use cpp_sparkplug.Clients.Accounts.{Accounts}
use cpp_sparkplug.Clients.Queue.{set_queue}
use cpp_sparkplug.Clients.{Context}
use cpp_sparkplug.Node.World.{context, leave}
use cpp_sparkplug.Tests.Data.{
  SmallMetric, small_tahu, low_byte, birth, tank, topics, context_with, sync_library,
}

abbrev pub client_options : ClientOptions
client_options = record {
  address = record { protocol = codes "tcp://"; address = codes "localhost"; port = pos 1883 };
  client_id = codes "n";
  username = none;
  password = none;
  connect_timeout = 10;
  keep_alive_interval = 20;
}

-- The synchronous Paho client over a library that is connected and refuses every call.
abbrev pub failing_driver : Driver ℕ
failing_driver = sync_driver small_tahu low_byte client_options 100 (sync_library other_code) 3

abbrev pub options : NodeOptions
options = record {
  group_id = codes "g";
  node_id = codes "n";
  primary_host = [];
  publish_period = pos 10;
  enabled_commands = 0;
}

abbrev pub world : World ℕ SmallMetric
world = record {
  node = record {
    group_base_topic = codes "spBv1.0/g/";
    node_id = codes "n";
    client_topics = topics;
    topics_configured = true;
    running = false;
    enabled = true;
    active_client = some 0;
    host_mode = single;
    devices = 0 ∷ [];
    event_queue = [];
  };
  clients = ((context_with []).client, 0) ∷ ((context_with []).client, 0) ∷ [];
  publishables = λ s. tank;
  clock = λ i. i;
  calls = [];
}

abbrev leaderless : World ℕ SmallMetric
leaderless = record world { node = record (world.node) { active_client = none } }

topic-new_example :
    let n = (new single 0 (some options)).0 in
    (topic n node none true ≡ some (codes "spBv1.0/g/NBIRTH/n"))
    × (topic n (device 0) (some (codes "tank")) true ≡ some (codes "spBv1.0/g/DBIRTH/n/tank"))
topic-new_example = topic-new options single 0 0 (codes "tank") true (ground arith) (ground arith)

abbrev outcomes : List Outcome
outcomes = delivery 0 node true ∷ delivery 0 (device 0) false ∷ []

process_events-outcomes_example :
    process_events small_tahu failing_driver 2
      (record world { node = record (world.node) { event_queue = outcome_events outcomes } })
    ≡ some (settled outcomes [] world, tt)
process_events-outcomes_example =
    process_events-outcomes small_tahu failing_driver outcomes 2
      (record world { node = record (world.node) { event_queue = outcome_events outcomes } }) refl
      (omega arith)

publish-Accounts_example :
    let c = context (begun failing_driver node world) ((context_with []).client, 0) in
    (c' : Context ℕ) × (publish failing_driver node true world
      ≡ some (leave 0 c' (begun failing_driver node world), tt))
    × Accounts (set_queue (birth ∷ []) c) c'
unfolding topic cpp_sparkplug.Publishable.can_publish
publish-Accounts_example =
    publish-Accounts failing_driver small_tahu low_byte
      (PahoSync.transport (sync_library other_code)) 100 node true world 0
      ((context_with []).client, 0) (codes "spBv1.0/g/NBIRTH/n") refl refl refl refl refl
      (omega arith)
