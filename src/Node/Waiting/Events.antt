-- ===== src/Node/Waiting/Events.antt =====
-- src/Node.cpp: a waiting node handles its events and the application's calls, and publishes nothing.
use cpp_sparkplug.Prelude.{
  ℕ, zero, suc, ◌+◌, Bytes, Bool, true, false, ◌&&◌, not, null, Option, none, some, List, [], ◌∷◌,
  ◌≡◌, refl, ap, sym, ◌∙◌, arith, Bool-cases, inl, inr, then_some, any, ◌==◌,
}
use cpp_sparkplug.Prelude.Int.{ℤ, negsuc}
use cpp_sparkplug.Tahu.{Tahu}
use cpp_sparkplug.Publishable.{published, can_publish}
use cpp_sparkplug.Clients.State.{
  Source, node, device, Event, client_message, client_connected, client_disconnected, client_active,
  client_deactive, client_delivered, client_undelivered,
}
use cpp_sparkplug.Clients.{Client}
use cpp_sparkplug.Node.World.{Driver, World, M, SparkplugClientMode, single, primary_host, pure}
use cpp_sparkplug.Node.Publishing.{
  topic, same_client, send, publish, request_publish, activate_client, deactivate_client,
}
use cpp_sparkplug.Node.Events.{
  host_state, on_message, process_event, process_events, execute_clients, sync, is_active, execute,
  execute_idle_delay, stop_clients, stop,
}
use cpp_sparkplug.Node.Ledger.{untagged}
use cpp_sparkplug.Node.Only.{Only, Only-some, Only-none, Only-then, Only-if, Only-elim}
use cpp_sparkplug.Node.Waiting.{is_online, silent, Waits, IsWaiting}
use cpp_sparkplug.Node.Waiting.Calls.{Only-client, no_result-Unheard, always-Unheard}

same_none : (i : ℕ) (a : Option ℕ) → a ≡ none → same_client (some i) a ≡ false
same_none i none e = refl
same_none i (some j) e = absurd cc e

silent-cons :
    (host : Bytes) (e : Event) (es : List Event)
    → silent host (e ∷ es) ≡ true
    → (silent host (e ∷ []) ≡ true) × (silent host es ≡ true)
silent-cons host (client_message topic payload) es h = ground (arith, h)
silent-cons host client_connected es h = (refl, h)
silent-cons host client_disconnected es h = (refl, h)
silent-cons host client_active es h = absurd cc h
silent-cons host client_deactive es h = (refl, h)
silent-cons host (client_delivered s) es h = (refl, h)
silent-cons host (client_undelivered s) es h = (refl, h)

module _ (t : Tahu) {S : Type 0} (driver : Driver S) (host : Bytes)
    (waits : Waits host driver) where
  -- What a call leaves, if it returns.
  abbrev pub StillWaits : {A : Type 0} → World S t.PayloadMetric × A → Type 0
  StillWaits y = IsWaiting host y.0

  put-IsWaiting :
      (store : Source → cpp_sparkplug.Publishable.Publishable) (w : World S t.PayloadMetric)
      → IsWaiting host w
      → IsWaiting host (record w { publishables = store })
  put-IsWaiting store w h = record {
    mode_lem = h.mode_lem;
    host_lem = h.host_lem;
    active_lem = h.active_lem;
    queue_lem = h.queue_lem;
    clients_lem = h.clients_lem;
  }

  -- A message that is not the host's word that it is online changes nothing.
  message_lem :
      (i : ℕ) (topic payload : Bytes) (w : World S t.PayloadMetric)
      → is_online host topic payload ≡ false
      → w.node.active_client ≡ none
      → w.node.client_topics.primary_host_topic ≡ host
      → on_message t driver i topic payload w ≡ some (w, tt)
  unfolding on_message host_state
  message_lem i topic payload w off a e = ground (arith, off, a, e)

  event_lem :
      (i : ℕ) (e : Event) (w : World S t.PayloadMetric)
      → silent host (e ∷ []) ≡ true
      → IsWaiting host w
      → Only StillWaits (process_event t driver i e w)
  unfolding process_event deactivate_client
  event_lem i (client_delivered s) w k h = Only-some _ _ (put-IsWaiting _ w h)
  event_lem i (client_undelivered s) w k h = Only-some _ _ (put-IsWaiting _ w h)
  event_lem i (client_message topic payload) w k h = λ x r.
      Only-some StillWaits (w, tt) h x
        (sym (message_lem i topic payload w (ground (arith, k)) h.active_lem h.host_lem) ∙ r)
  event_lem i client_connected w k h = connected_mode w.node.host_mode h.mode_lem
    where
      connected_mode :
          (mode : SparkplugClientMode)
          → mode ≡ primary_host
          → Only StillWaits (
              (elim mode as (λ x. M S t.PayloadMetric (Unit {0})) [
                | single ↦ activate_client driver i
                | primary_host ↦ pure tt
              ])
                w)
      connected_mode single e = absurd cc e
      connected_mode primary_host e = Only-some StillWaits (w, tt) h
  event_lem i client_disconnected w k h =
      Only-if (same_client (some i) w.node.active_client) _ _ w
        (λ mine. absurd cc (sym mine ∙ same_none i w.node.active_client h.active_lem))
        (λ _. Only-some StillWaits (w, tt) h)
  event_lem i client_active w k h = absurd cc k
  event_lem i client_deactive w k h = Only-some StillWaits (w, tt) h

  taken-IsWaiting :
      (i : ℕ) (e : Event) (q : List (ℕ × Event)) (w : World S t.PayloadMetric)
      → w.node.event_queue ≡ (i, e) ∷ q
      → IsWaiting host w
      → (silent host (e ∷ []) ≡ true)
        × IsWaiting host (record w { node = record (w.node) { event_queue = q } })
  taken-IsWaiting i e q w s h =
      let all = sym (ap (λ (l : List (ℕ × Event)). silent host (untagged l)) s) ∙ h.queue_lem in
      let (one, rest) = silent-cons host e (untagged q) all in
      (
        one,
        record {
          mode_lem = h.mode_lem;
          host_lem = h.host_lem;
          active_lem = h.active_lem;
          queue_lem = rest;
          clients_lem = h.clients_lem;
        },
      )

  events_lem :
      (fuel : ℕ) (q : List (ℕ × Event)) (w : World S t.PayloadMetric)
      → w.node.event_queue ≡ q
      → IsWaiting host w
      → Only StillWaits (process_events t driver fuel w)
  unfolding process_events
  events_lem zero q w e h = λ x s. elim (Bool-cases (null w.node.event_queue)) [
    | inl over ↦ Only-some StillWaits (w, tt) h x (ground (arith, over, s))
    | inr more ↦ absurd (ground (arith, more, s))
  ]
  events_lem (suc fuel) [] w e h = λ x s. Only-some StillWaits (w, tt) h x (ground (arith, e, s))
  events_lem (suc fuel) ((i, e) ∷ q) w s h = λ x r.
      let v : World S t.PayloadMetric = record w { node = record (w.node) { event_queue = q } } in
      let (one, p) = taken-IsWaiting i e q w s h in
      let (y, first, later) =
        then_some (process_event t driver i e v) (λ y. process_events t driver fuel y.0) x
          (ground (arith, s, r)) in
      events_lem fuel y.0.node.event_queue y.0 refl (event_lem i e v one p y first) x later

  execute_clients_lem :
      (i : ℕ) (ks : List (Client × S)) (w : World S t.PayloadMetric)
      → IsWaiting host w
      → Only StillWaits (execute_clients t driver i ks w)
  unfolding execute_clients
  execute_clients_lem i [] w h = Only-some StillWaits (w, tt) h
  execute_clients_lem i (k ∷ ks) w h =
      Only-then (Only-client host i _ (no_result-Unheard host driver.execute waits.execute_lem) w h)
        (λ x p. execute_clients_lem (i + 1) ks x.0 p)

  pub sync-StillWaits :
      (fuel : ℕ) (w : World S t.PayloadMetric)
      → IsWaiting host w
      → Only StillWaits (sync t driver fuel w)
  unfolding sync
  sync-StillWaits fuel w h =
      Only-then (execute_clients_lem 0 w.clients w h)
        (λ x p. events_lem fuel x.0.node.event_queue x.0 refl p)

  -- The node is not active.
  pub is_active-StillWaits :
      (fuel : ℕ) (w : World S t.PayloadMetric)
      → IsWaiting host w
      → Only
          (λ (y : World S t.PayloadMetric × Bool). IsWaiting host y.0 × (y.1 ≡ false))
          (is_active t driver fuel w)
  unfolding is_active
  is_active-StillWaits fuel w h =
      Only-if (not w.node.enabled) _ _ w (λ _. Only-some _ (w, false) (h, refl))
        (λ _. Only-then (sync-StillWaits fuel w h) (λ x p.
          Only-elim x.0.node.active_client _ _ x.0 (λ _. Only-some _ (x.0, false) (p, refl))
            (λ i e. absurd cc (sym e ∙ p.active_lem))))

  pub execute-StillWaits :
      (fuel : ℕ) (time : ℤ) (w : World S t.PayloadMetric)
      → IsWaiting host w
      → Only StillWaits (execute t driver fuel time w)
  unfolding execute
  execute-StillWaits fuel time w h =
      Only-if (not w.node.enabled) _ _ w (λ _. Only-some StillWaits (w, negsuc 0) h)
        (λ _. Only-then (is_active-StillWaits fuel w h) (λ x p.
          Only-if (not x.1) _ _ x.0 (λ _. Only-some StillWaits (x.0, execute_idle_delay) p.0)
            (λ active. absurd (ground (arith, active, p.1)))))

  stop_clients_lem :
      (i : ℕ) (ks : List (Client × S)) (w : World S t.PayloadMetric)
      → IsWaiting host w
      → Only StillWaits (stop_clients t driver i ks w)
  unfolding stop_clients
  stop_clients_lem i [] w h = Only-some StillWaits (w, tt) h
  stop_clients_lem i (k ∷ ks) w h =
      Only-then
        (Only-client host i _ (always-Unheard host driver.deactivate waits.deactivate_lem) w h)
        (λ x p.
          Only-then
            (Only-client host i _ (always-Unheard host driver.disconnect waits.disconnect_lem) x.0
              p)
            (λ y q. stop_clients_lem (i + 1) ks y.0 q))

  pub stop-StillWaits :
      (w : World S t.PayloadMetric) → IsWaiting host w → Only StillWaits (stop t driver w)
  unfolding stop
  stop-StillWaits w h = stop_clients_lem 0 w.clients w h

  publish-StillWaits :
      (s : Source) (is_birth : Bool) (w : World S t.PayloadMetric)
      → IsWaiting host w
      → Only StillWaits (publish driver s is_birth w)
  unfolding publish send
  publish-StillWaits s is_birth w h =
      Only-if (not (can_publish (w.publishables s)) && not is_birth) _ _ w
        (λ _. Only-some StillWaits (w, tt) h)
        (λ _.
          Only-elim (topic w.node s (w.publishables s).name is_birth) _ _ _
            (λ _. Only-none StillWaits)
            (λ name _.
              Only-elim w.node.active_client _ _ _ (λ _. Only-none StillWaits)
                (λ i e. absurd cc (sym e ∙ h.active_lem))))

  -- A request of the application: nothing to publish, or a fault.
  pub request_publish-StillWaits :
      (s : Source) (is_birth : Bool) (w : World S t.PayloadMetric)
      → IsWaiting host w
      → Only StillWaits (request_publish driver s is_birth w)
  unfolding request_publish
  request_publish-StillWaits node is_birth w h = publish-StillWaits node is_birth w h
  request_publish-StillWaits (device d) is_birth w h =
      Only-if (any (λ e. e == d) w.node.devices) _ _ w
        (λ _. publish-StillWaits (device d) is_birth w h) (λ _. Only-some StillWaits (w, tt) h)
