-- ===== src/Node/Events.antt =====
-- src/Node.cpp: messages and events from the clients, and the execution of the node.
use cpp_sparkplug.Prelude.{
  ℕ, zero, suc, ◌+◌, ◌-◌, ◌%◌, ◌^◌, Bytes, codes, Bool, true, false, not, null, same, Option, none,
  some, List, [], ◌∷◌, ◌++◌, ltb, if◌then◌else◌, length, drop,
}
use cpp_sparkplug.Prelude.Int.{ℤ, pos, negsuc, min_ℤ}
use cpp_sparkplug.Prelude.Text.{contains}
use cpp_sparkplug.Tahu.{Tahu}
use cpp_sparkplug.Metric.{Call, to_handler, to_callback, rebirth, user}
use cpp_sparkplug.Publishable.{Publishable, can_publish, published, handle_command}
use cpp_sparkplug.Publishable
use cpp_sparkplug.Clients.State.{
  Source, node, device, Event, client_message, client_connected, client_disconnected, client_active,
  client_deactive, client_delivered, client_undelivered,
}
use cpp_sparkplug.Clients.{Client}
use cpp_sparkplug.Node.World.{
  Driver, single, primary_host, M, ◌>>=◌, ◌>>◌, pure, fault, read, modify, modify_publishable,
  with_client, always, no_result,
}
use cpp_sparkplug.Node.Publishing.{
  publish, publish_birth, set_active_client, activate_client, deactivate_client, same_client,
}

-- EXECUTE_IDLE_DELAY
abbrev pub execute_idle_delay : ℤ
execute_idle_delay = pos 1

-- The device of a name: the inner `none` if there is none, and the outer for a device without a name
-- that is compared.
unfoldable pub find_device : (Source → Publishable) → Bytes → List ℕ → Option (Option ℕ)
find_device store name [] = some none
find_device store name (d ∷ ds) =
    let rest = find_device store name ds in
    elim (store (device d)).name [
      | none ↦ none
      | some n ↦ if same name n then some (some d) else rest
    ]

module _ (t : Tahu) {S : Type 0} (driver : Driver S) where
  -- What the handlers and callbacks do: the rebirth callback publishes a birth if the received value
  -- is true, and the others, which are the application's, are written down.
  unfoldable pub perform : List (Call t.PayloadMetric) → M S t.PayloadMetric (Unit {0})
  unfolding publish_birth
  perform [] = pure tt
  perform (to_handler h p ∷ rest) =
      modify (λ w. record w { calls = w.calls ++ to_handler h p ∷ [] }) >> perform rest
  perform (to_callback (user f) p ∷ rest) =
      modify (λ w. record w { calls = w.calls ++ to_callback (user f) p ∷ [] }) >> perform rest
  perform (to_callback rebirth p ∷ rest) =
      (if t.boolean_value p then publish_birth driver else pure tt)
      >> modify (λ w. record w { calls = w.calls ++ to_callback rebirth p ∷ [] })
      >> perform rest

  -- Publishable::handleCommand, with its calls.
  unfoldable pub command : Source → Bytes → M S t.PayloadMetric (Unit {0})
  unfolding perform
  command source payload = do
    p ← read (λ w. w.publishables source)
    elim (handle_command t payload p) [ none ↦ fault | some calls ↦ perform calls ]

  -- The commands of `onMessage`, from the active client. `false` returns from `onMessage` at once.
  unfoldable pub commands : Bytes → Bytes → M S t.PayloadMetric Bool
  unfolding command find_device
  commands topic payload = do
    n ← read (λ w. w.node)
    store ← read (λ w. w.publishables)
    if contains (codes "NCMD") topic
        then if same topic n.client_topics.node_command_topic
          then (command node payload >> pure true)
          else pure true
        else if not (contains (codes "DCMD") topic)
        then pure true
        else if null n.devices
        then pure false
        else (let size = (length n.client_topics.device_command_topic + 2 ^ 64 - 1) % 2 ^ 64 in
            if not (ltb size (length topic))
            then pure true
            else elim (find_device store (drop size topic) n.devices) [
              | none ↦ fault
              | some found ↦ elim found [
                | none ↦ pure true
                | some d ↦ command (device d) payload >> pure true
              ]
            ])

  -- The messages of the primary host in `onMessage`.
  unfoldable pub host_state : ℕ → Bytes → Bytes → M S t.PayloadMetric (Unit {0})
  unfolding activate_client deactivate_client
  host_state client topic payload = do
    n ← read (λ w. w.node)
    if null n.client_topics.primary_host_topic
        then pure tt
        else if not (same topic n.client_topics.primary_host_topic)
        then pure tt
        else if contains (codes "\"online\": true") payload
        then (if same_client n.active_client (some client)
            then pure tt
            else activate_client driver client)
        else if contains (codes "\"online\": false") payload
        then (if same_client n.active_client (some client)
            then deactivate_client driver client
            else pure tt)
        else pure tt

  unfoldable pub on_message : ℕ → Bytes → Bytes → M S t.PayloadMetric (Unit {0})
  unfolding commands host_state
  on_message client topic payload = do
    active ← read (λ w. w.node.active_client)
    goes_on ← if same_client (some client) active then commands topic payload else pure true
    if goes_on then host_state client topic payload else pure tt

  -- The switch of `processEvents`.
  unfoldable pub process_event : ℕ → Event → M S t.PayloadMetric (Unit {0})
  unfolding on_message activate_client deactivate_client set_active_client
  process_event i (client_delivered s) = modify_publishable s published
  process_event i (client_undelivered s) = modify_publishable s published
  process_event i (client_message topic payload) = on_message i topic payload
  process_event i client_connected = do
    mode ← read (λ w. w.node.host_mode)
    elim mode [ single ↦ activate_client driver i | primary_host ↦ pure tt ]
  process_event i client_disconnected = deactivate_client driver i
  process_event i client_active = set_active_client driver (some i)
  process_event i client_deactive = pure tt

  -- The loop of `processEvents`: `none` also when the fuel runs out.
  unfoldable pub process_events : ℕ → M S t.PayloadMetric (Unit {0})
  process_events zero w = if null w.node.event_queue then some (w, tt) else none
  process_events (suc fuel) w = elim w.node.event_queue [
    | [] ↦ some (w, tt)
    | (i, e) ∷ rest ↦
        elim (process_event i e (record w { node = record (w.node) { event_queue = rest } })) [
          | none ↦ none
          | some (w', done) ↦ process_events fuel w'
        ]
  ]

  -- The loop of `sync` over the clients from number i on.
  unfoldable pub execute_clients : ℕ → List (Client × S) → M S t.PayloadMetric (Unit {0})
  unfolding with_client
  execute_clients i [] = pure tt
  execute_clients i (k ∷ ks) =
      with_client i (no_result driver.execute) >> execute_clients (i + 1) ks

  unfoldable pub sync : ℕ → M S t.PayloadMetric (Unit {0})
  unfolding execute_clients
  sync fuel = do clients ← read (λ w. w.clients); execute_clients 0 clients; process_events fuel

  unfoldable pub is_active : ℕ → M S t.PayloadMetric Bool
  unfolding with_client
  is_active fuel = do
    enabled ← read (λ w. w.node.enabled)
    if not enabled then pure false else do
      sync fuel
      active ← read (λ w. w.node.active_client)
      elim active [
        | none ↦ pure false
        | some i ↦ with_client i (λ c. some (c, driver.is_connected c))
      ]

  -- One publishable in `execute`: its timer, and a message if it can publish. The result is the time
  -- that `update` returns.
  unfoldable pub tick : ℤ → Source → M S t.PayloadMetric ℤ
  unfolding publish
  tick time s = do
    p ← read (λ w. w.publishables s)
    modify_publishable s (λ q. (Publishable.update time q).0)
    ready ← read (λ w. can_publish (w.publishables s))
    if ready then publish driver s false else pure tt
    pure (Publishable.update time p).1

  -- The loop of `execute` over the devices.
  unfoldable pub tick_devices : ℤ → ℤ → List ℕ → M S t.PayloadMetric ℤ
  unfolding tick
  tick_devices time next [] = pure next
  tick_devices time next (d ∷ ds) = do
    left ← tick time (device d)
    tick_devices time (min_ℤ left next) ds

  unfoldable pub execute : ℕ → ℤ → M S t.PayloadMetric ℤ
  unfolding tick_devices
  execute fuel time = do
    enabled ← read (λ w. w.node.enabled)
    if not enabled then pure (negsuc 0) else do
      active ← is_active fuel
      if not active then pure execute_idle_delay else do
        left ← tick time node
        devices ← read (λ w. w.node.devices)
        tick_devices time (min_ℤ left (pos 0xffff)) devices

  -- The loop of `stop` over the clients from number i on.
  unfoldable pub stop_clients : ℕ → List (Client × S) → M S t.PayloadMetric (Unit {0})
  unfolding with_client
  stop_clients i [] = pure tt
  stop_clients i (k ∷ ks) = do
    with_client i (always driver.deactivate)
    with_client i (always driver.disconnect)
    stop_clients (i + 1) ks

  unfoldable pub stop : M S t.PayloadMetric (Unit {0})
  unfolding stop_clients
  stop = do clients ← read (λ w. w.clients); stop_clients 0 clients
