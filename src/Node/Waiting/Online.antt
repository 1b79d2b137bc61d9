-- ===== src/Node/Waiting/Online.antt =====
-- src/Node.cpp: the end of the wait, when the primary host comes online.
use cpp_sparkplug.Prelude.{
  Bytes, List, Option, [], ap, arith, false, length, none, null, refl, some, suc, true, ℕ, ◌*◌,
  ◌++◌, ◌+◌, ◌∙◌, ◌∷◌, ◌≡◌, ◌≤◌,
}
use cpp_sparkplug.Node.Drivers.{sync_driver}
use cpp_sparkplug.Node.Waiting.{is_online}
use cpp_sparkplug.Clients.PahoSync
use cpp_sparkplug.Tahu.{Tahu}
use cpp_sparkplug.Clients.State.{
  ReturnCode, Source, PublishRequest, client_active, client_message, ClientOptions, is_success,
}
use cpp_sparkplug.Clients.{Client, activate, activated, set_primary}
use cpp_sparkplug.Clients.Queue.{Transport, request}
use cpp_sparkplug.Clients.Accounts.{labels, reports, total}
use cpp_sparkplug.Node.World.{Driver, Node, World, get_client, tagged, set_client, context}
use cpp_sparkplug.Node.Publishing.{set_active_client, publish_birth, activate_client}
use cpp_sparkplug.Node.Events.{process_event, process_events, on_message, host_state}
use cpp_sparkplug.Node.Loop.{
  Outcome, delivery, outcome_events, settled, process_round, process_events-outcomes,
}
use cpp_sparkplug.Node.Total.{HaveNames}
use cpp_sparkplug.Node.BirthOrder.{get-set_client, births}
use cpp_sparkplug.Node.BirthOrder.Publishing.{publish_birth-births}

-- The failures of client i for the requests that it gave up.
abbrev pub lost : ℕ → List PublishRequest → List Outcome
lost i [] = []
lost i (r ∷ rs) = delivery i r.publisher false ∷ lost i rs

tagged-reports :
    (i : ℕ) (rs : List PublishRequest) → tagged i (reports rs) ≡ outcome_events (lost i rs)
tagged-reports i [] = refl
tagged-reports i (r ∷ rs) = rw (tagged-reports i rs) refl

length-lost : (i : ℕ) (rs : List PublishRequest) → length (lost i rs) ≡ length rs
length-lost i [] = refl
length-lost i (r ∷ rs) = omega (arith, length-lost i rs)

-- From client k of number i to a world in which that client is active and has `rs` at the end of its
-- queue, but for the requests at the front that it gave up, with no event left.
pub record Begins {S P : Type 0} (i : ℕ) (k : Client × S) (rs : List PublishRequest) (w : World S P)
    : Type 0 where
  pub active_lem : w.node.active_client ≡ some i
  pub events_lem : w.node.event_queue ≡ []
  pub after : Client × S
  pub after_lem : get_client i w.clients ≡ some after
  pub dropped : List PublishRequest
  pub queue_lem :
      labels (k.0.publish_queue ++ rs) ≡ labels dropped ++ labels (after.0.publish_queue)

module _ (t : Tahu) {S : Type 0} (driver : Driver S) (int64_bytes : ℕ → Bytes) (net : Transport S)
    (fuel : ℕ) (queued : driver.request ≡ request t int64_bytes net fuel) (i : ℕ) (base id : Bytes)
    (names : Source → Option Bytes) where
  abbrev Begin : Client × S → List PublishRequest → World S t.PayloadMetric → (ℕ → ℕ) → Type 0
  Begin k rs w fuel_for =
      (w' : World S t.PayloadMetric) × (p : Begins i k rs w') × ((more : ℕ)
        → length p.dropped ≤ more
        → process_events t driver (fuel_for more) w ≡ some (w', tt))

  abbrev chosen : World S t.PayloadMetric → World S t.PayloadMetric
  chosen w = record w { node = record (w.node) { event_queue = []; active_client = some i } }

  chosen_lem :
      (w : World S t.PayloadMetric)
      → w.node.active_client ≡ none
      → process_event t driver i client_active
          (record w { node = record (w.node) { event_queue = [] } })
        ≡ publish_birth driver (chosen w)
  unfolding process_event set_active_client
  chosen_lem w a = ground (arith, a)

  active-Begin :
      (w : World S t.PayloadMetric) (k : Client × S)
      → w.node.event_queue ≡ (i, client_active) ∷ []
      → w.node.active_client ≡ none
      → w.node.group_base_topic ≡ base
      → w.node.node_id ≡ id
      → ((s : Source) → (w.publishables s).name ≡ names s)
      → HaveNames names w.node.devices
      → get_client i w.clients ≡ some k
      → total k.0.publish_queue + 6 * (1 + length w.node.devices) ≤ fuel
      → Begin k (births base id names w.node.devices) w suc
  active-Begin w k q a b c named has g le =
      let (x, done, p) =
        publish_birth-births driver t int64_bytes net fuel queued i base id names (chosen w) k refl
          b c named has g le in
      let os = lost i p.dropped in
      let events : x.node.event_queue ≡ outcome_events os =
        ap (λ (n : Node). n.event_queue) p.node_lem ∙ tagged-reports i p.dropped in
      (
        settled os [] x,
        record {
          active_lem = ap (λ (n : Node). n.active_client) p.node_lem;
          events_lem = refl;
          after = p.after;
          after_lem = p.after_lem;
          dropped = p.dropped;
          queue_lem = p.queue_lem;
        },
        λ more enough.
            process_round t driver more w x i client_active [] q (chosen_lem w a ∙ done)
            ∙ process_events-outcomes t driver os more x events
                (omega (arith, length-lost i p.dropped, enough)),
      )

  -- The client as it is when its subscription is accepted.
  abbrev primary : Client × S → S → Client × S
  primary k s = (record (k.0) { is_primary = true }, s)

  -- The world after the message of the host.
  abbrev told : World S t.PayloadMetric → Client × S → S → World S t.PayloadMetric
  told w k s = record w {
    node = record (w.node) { event_queue = (i, client_active) ∷ [] };
    clients = set_client i (primary k s) w.clients;
  }

  abbrev Accepts : World S t.PayloadMetric → Client × S → S → Type 0
  Accepts w k s =
      (driver.activate (context w k)).0
      ≡ record (context w k) { client = (primary k s).0; library = s; events = client_active ∷ [] }

  told_lem :
      (host payload : Bytes) (w : World S t.PayloadMetric) (k : Client × S) (s : S)
      → w.node.active_client ≡ none
      → w.node.client_topics.primary_host_topic ≡ host
      → null host ≡ false
      → is_online host host payload ≡ true
      → get_client i w.clients ≡ some k
      → Accepts w k s
      → process_event t driver i
          (client_message host payload)
          (record w { node = record (w.node) { event_queue = [] } })
        ≡ some (told w k s, tt)
  unfolding process_event on_message host_state activate_client
  told_lem host payload w k s a h filled on g granted = ground (arith, a, h, filled, on, g, granted)

  host-Begin :
      (host payload : Bytes) (w : World S t.PayloadMetric) (k : Client × S) (s : S)
      → w.node.event_queue ≡ (i, client_message host payload) ∷ []
      → w.node.active_client ≡ none
      → w.node.client_topics.primary_host_topic ≡ host
      → null host ≡ false
      → is_online host host payload ≡ true
      → Accepts w k s
      → w.node.group_base_topic ≡ base
      → w.node.node_id ≡ id
      → ((x : Source) → (w.publishables x).name ≡ names x)
      → HaveNames names w.node.devices
      → get_client i w.clients ≡ some k
      → total k.0.publish_queue + 6 * (1 + length w.node.devices) ≤ fuel
      → Begin (primary k s) (births base id names w.node.devices) w (λ more. suc (suc more))
  host-Begin host payload w k s q a h filled on granted b c named has g le =
      let (w', p, runs) =
        active-Begin (told w k s) (primary k s) refl a b c named has
          (get-set_client i k (primary k s) w.clients g) le in
      (
        w',
        p,
        λ more enough.
            process_round t driver (suc more) w (told w k s) i (client_message host payload) [] q
              (told_lem host payload w k s a h filled on g granted)
            ∙ runs more enough,
      )

module _ (t : Tahu) {S : Type 0} (int64_bytes : ℕ → Bytes) (options : ClientOptions) (fuel : ℕ)
    (lib : PahoSync.PahoLibrary S) (messages : ℕ) where
  abbrev the_driver : Driver S
  the_driver = sync_driver t int64_bytes options fuel lib messages

  -- What the library returns for the subscription to the commands.
  abbrev subscribed : Client × S → S × ReturnCode
  subscribed k =
      lib.subscribe_many k.0.topics.node_command_topic k.0.topics.device_command_topic k.1

  sync_Accepts :
      (w : World S t.PayloadMetric) (k : Client × S)
      → k.0.is_primary ≡ false
      → is_success (subscribed k).1 ≡ true
      → (the_driver.activate (context w k)).0 ≡ record (context w k) {
        client = record (k.0) { is_primary = true };
        library = (subscribed k).0;
        events = client_active ∷ [];
      }
  unfolding activate activated set_primary PahoSync.subscribe_to_commands
  sync_Accepts w k idle granted = ground (arith, idle, granted)

  -- The one event before a node without an active client, whose devices have names, is the message of
  -- its primary host that it is online, to a synchronous client that is not primary and whose library
  -- accepts the subscription to the commands. With fuel in the queue for the attempts that it has left,
  -- and six for each birth, and fuel in processEvents for the message, the activation, and the requests
  -- that the queue gives up at once, processEvents returns with no event left; the client is then the
  -- active one, and its queue, with the requests given up before it, is that of before with the birth
  -- of the node and then those of the devices, in the order of their list, at its end.
  pub sync_driver-host_births :
      (i : ℕ) (base id : Bytes) (names : Source → Option Bytes) (host payload : Bytes)
      (w : World S t.PayloadMetric) (k : Client × S)
      → w.node.event_queue ≡ (i, client_message host payload) ∷ []
      → w.node.active_client ≡ none
      → w.node.client_topics.primary_host_topic ≡ host
      → null host ≡ false
      → is_online host host payload ≡ true
      → get_client i w.clients ≡ some k
      → k.0.is_primary ≡ false
      → is_success (subscribed k).1 ≡ true
      → w.node.group_base_topic ≡ base
      → w.node.node_id ≡ id
      → ((x : Source) → (w.publishables x).name ≡ names x)
      → HaveNames names w.node.devices
      → total k.0.publish_queue + 6 * (1 + length w.node.devices) ≤ fuel
      → (w' : World S t.PayloadMetric) × (p : Begins i k (births base id names w.node.devices) w')
        × ((more : ℕ)
            → length p.dropped ≤ more
            → process_events t the_driver (suc (suc more)) w ≡ some (w', tt))
  sync_driver-host_births i base id names host payload w k q a h filled on g idle granted b c named
        has le =
      let (w', p, runs) =
        host-Begin t the_driver int64_bytes (PahoSync.transport lib) fuel refl i base id names host
          payload w k (subscribed k).0 q a h filled on (sync_Accepts w k idle granted) b c named has
          g le in
      (
        w',
        record {
          active_lem = p.active_lem;
          events_lem = p.events_lem;
          after = p.after;
          after_lem = p.after_lem;
          dropped = p.dropped;
          queue_lem = p.queue_lem;
        },
        runs,
      )
