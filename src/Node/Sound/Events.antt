-- ===== src/Node/Sound/Events.antt =====
-- src/Node.cpp: the events of the clients, and the execution of the node, keep it sound.
use cpp_sparkplug.Prelude.{
  ℕ, zero, suc, ◌+◌, ◌<◌, ◌^◌, Bool, false, not, null, some, List, [], ◌∷◌, ◌≡◌, refl, ap, arith,
  inl, inr, then_some, Bool-cases,
}
use cpp_sparkplug.Prelude.Int.{ℤ, pos, negsuc, min_ℤ}
use cpp_sparkplug.Tahu.{Tahu}
use cpp_sparkplug.Publishable.{can_publish, published, handle_command}
use cpp_sparkplug.Publishable
use cpp_sparkplug.Publishable.State.{PublishableState}
use cpp_sparkplug.Publishable.Timer.{update-IsTimed}
use cpp_sparkplug.Clients.State.{
  Source, node, device, Event, client_message, client_connected, client_disconnected, client_active,
  client_deactive, client_delivered, client_undelivered,
}
use cpp_sparkplug.Clients.{Client, put}
use cpp_sparkplug.Clients.Flow.{sources, Flow_refl, sources-append}
use cpp_sparkplug.Node.World.{Driver, World, M, SparkplugClientMode, single, primary_host}
use cpp_sparkplug.Node.Events.{
  process_event, process_events, execute_clients, sync, is_active, tick, tick_devices, execute,
  stop_clients, stop, execute_idle_delay,
}
use cpp_sparkplug.Node.Contract.{Conserves}
use cpp_sparkplug.Node.Ledger.{count, count-append, untagged}
use cpp_sparkplug.Node.Sound.{
  Sound, Leads, Leads-some, Leads-then, Leads-if, Leads-elim, with_client_lem, Sound-put,
}
use cpp_sparkplug.Node.Sound.Publishing.{
  always-Flow, no_result-Flow, publish-Sound, set_active_client-Sound, activate_client-Sound,
  deactivate_client-Sound,
}
use cpp_sparkplug.Node.Sound.Messages.{on_message-Sound}

update_waits :
    (elapsed : ℤ) (p : Publishable.Publishable)
    → (Publishable.update elapsed p).0.state ≡ PublishableState.publishing
    → p.state ≡ PublishableState.publishing
unfolding Publishable.update
update_waits elapsed p e = ground (arith, e)

module _ (t : Tahu) {S : Type 0} (driver : Driver S) (conserves : Conserves driver)
    {on : Bool} where
  told-Sound :
      (s : Source) (w : World S t.PayloadMetric)
      → Sound on (s ∷ []) w
      → Sound on []
          (record w { publishables = put w.publishables s (published (w.publishables s)) })
  unfolding published
  told-Sound s w h =
      Sound-put w s (published (w.publishables s)) (ground (arith, h.timed_lem s)) (λ e. cc)
        (λ x e. ground (arith, e)) h

  Leads-mode :
      (mode : SparkplugClientMode) (m n : M S t.PayloadMetric (Unit {0}))
      (w : World S t.PayloadMetric)
      → Leads on [] (m w)
      → Leads on [] (n w)
      → Leads on []
          ((elim mode as (λ x. M S t.PayloadMetric (Unit {0})) [ single ↦ m | primary_host ↦ n ]) w)
  Leads-mode single m n w p q = p
  Leads-mode primary_host m n w p q = q

  process_event-Sound :
      (i : ℕ) (e : Event) (w : World S t.PayloadMetric)
      → Sound on (sources (e ∷ [])) w
      → Leads on [] (process_event t driver i e w)
  unfolding process_event
  process_event-Sound i (client_delivered s) w h = Leads-some _ tt (told-Sound s w h)
  process_event-Sound i (client_undelivered s) w h = Leads-some _ tt (told-Sound s w h)
  process_event-Sound i (client_message topic payload) w h =
      on_message-Sound t driver conserves i topic payload w h
  process_event-Sound i client_connected w h =
      Leads-mode w.node.host_mode _ _ w (activate_client-Sound driver conserves i w h)
        (Leads-some w tt h)
  process_event-Sound i client_disconnected w h = deactivate_client-Sound driver conserves i w h
  process_event-Sound i client_active w h = set_active_client-Sound driver conserves (some i) w h
  process_event-Sound i client_deactive w h = Leads-some w tt h

  -- The event that the loop takes out is owed until it is processed.
  taken-Sound :
      (w : World S t.PayloadMetric) (i : ℕ) (e : Event) (rest : List (ℕ × Event))
      → w.node.event_queue ≡ (i, e) ∷ rest
      → Sound on [] w
      → Sound on (sources (e ∷ [])) (record w { node = record (w.node) { event_queue = rest } })
  taken-Sound w i e rest q h = record {
    enabled_lem = h.enabled_lem;
    waiting_lem = λ s b. omega (
      arith,
      h.waiting_lem s b,
      ap (λ (l : List (ℕ × Event)). count s (sources (untagged l))) q,
      ap (count s) (sources-append (e ∷ []) (untagged rest)),
      count-append s (sources (e ∷ [])) (sources (untagged rest)),
    );
    timed_lem = h.timed_lem;
  }

  events-Sound :
      (fuel : ℕ) (q : List (ℕ × Event)) (w : World S t.PayloadMetric)
      → w.node.event_queue ≡ q
      → Sound on [] w
      → Leads on [] (process_events t driver fuel w)
  unfolding process_events
  events-Sound zero q w e h = λ x s. elim (Bool-cases (null w.node.event_queue)) [
    | inl over ↦ Leads-some w tt h x (ground (arith, over, s))
    | inr more ↦ absurd (ground (arith, more, s))
  ]
  events-Sound (suc fuel) [] w e h = λ x s. Leads-some w tt h x (ground (arith, e, s))
  events-Sound (suc fuel) ((i, e) ∷ rest) w q h = λ x s.
      let w' : World S t.PayloadMetric = record w {
        node = record (w.node) { event_queue = rest };
      } in
      let (y, first, later) =
        then_some (process_event t driver i e w') (λ y. process_events t driver fuel y.0) x
          (ground (arith, q, s)) in
      events-Sound fuel y.0.node.event_queue y.0 refl
        (process_event-Sound i e w' (taken-Sound w i e rest q h) y first) x later

  pub process_events-Sound :
      (fuel : ℕ) (w : World S t.PayloadMetric)
      → Sound on [] w
      → Leads on [] (process_events t driver fuel w)
  process_events-Sound fuel w = events-Sound fuel w.node.event_queue w refl

  execute_clients-Sound :
      (i : ℕ) (ks : List (Client × S)) (w : World S t.PayloadMetric)
      → Sound on [] w
      → Leads on [] (execute_clients t driver i ks w)
  unfolding execute_clients
  execute_clients-Sound i [] w h = Leads-some w tt h
  execute_clients-Sound i (k ∷ ks) w h =
      Leads-then (with_client_lem i _ (no_result-Flow driver.execute conserves.execute_lem) w h)
        (λ x p. execute_clients-Sound (i + 1) ks x.0 p)

  pub sync-Sound :
      (fuel : ℕ) (w : World S t.PayloadMetric) → Sound on [] w → Leads on [] (sync t driver fuel w)
  unfolding sync
  sync-Sound fuel w h =
      Leads-then (execute_clients-Sound 0 w.clients w h) (λ x p. process_events-Sound fuel x.0 p)

  pub is_active-Sound :
      (fuel : ℕ) (w : World S t.PayloadMetric)
      → Sound on [] w
      → Leads on [] (is_active t driver fuel w)
  unfolding is_active
  is_active-Sound fuel w h = Leads-if (not w.node.enabled) _ _ w (Leads-some w false h) (
      Leads-then (sync-Sound fuel w h) (λ x p.
        Leads-elim x.0.node.active_client _ _ x.0 (Leads-some x.0 false p) (λ i.
          with_client_lem i _ (always-Flow (λ c. (c, driver.is_connected c)) Flow_refl) x.0 p)))

  timer_lem :
      (elapsed : ℕ) (s : Source) (w : World S t.PayloadMetric)
      → elapsed < 2 ^ 31
      → Sound on [] w
      → Sound on [] (record w {
        publishables = put w.publishables s (Publishable.update (pos elapsed) (w.publishables s)).0;
      })
  timer_lem elapsed s w lt h =
      Sound-put w s _ (update-IsTimed elapsed (w.publishables s) lt (h.timed_lem s)).0
        (λ e. h.waiting_lem s (update_waits (pos elapsed) (w.publishables s) e))
        (λ x n. omega arith) h

  pub tick-Sound :
      (elapsed : ℕ) (s : Source) (w : World S t.PayloadMetric)
      → elapsed < 2 ^ 31
      → Sound on [] w
      → Leads on [] (tick t driver (pos elapsed) s w)
  unfolding tick
  tick-Sound elapsed s w lt h =
      let w' : World S t.PayloadMetric = record w {
        publishables = put w.publishables s (Publishable.update (pos elapsed) (w.publishables s)).0;
      } in
      let p : Sound on [] w' = timer_lem elapsed s w lt h in
      Leads-then
        (Leads-if (can_publish (w'.publishables s)) _ _ w'
          (publish-Sound driver conserves s false w' p) (Leads-some w' tt p))
        (λ x q. Leads-some x.0 _ q)

  tick_devices-Sound :
      (elapsed : ℕ) (next : ℤ) (ds : List ℕ) (w : World S t.PayloadMetric)
      → elapsed < 2 ^ 31
      → Sound on [] w
      → Leads on [] (tick_devices t driver (pos elapsed) next ds w)
  unfolding tick_devices
  tick_devices-Sound elapsed next [] w lt h = Leads-some w next h
  tick_devices-Sound elapsed next (d ∷ ds) w lt h =
      Leads-then (tick-Sound elapsed (device d) w lt h)
        (λ x p. tick_devices-Sound elapsed (min_ℤ x.1 next) ds x.0 lt p)

  pub execute-Sound :
      (fuel elapsed : ℕ) (w : World S t.PayloadMetric)
      → elapsed < 2 ^ 31
      → Sound on [] w
      → Leads on [] (execute t driver fuel (pos elapsed) w)
  unfolding execute
  execute-Sound fuel elapsed w lt h =
      Leads-if (not w.node.enabled) _ _ w (Leads-some w (negsuc 0) h) (
        Leads-then (is_active-Sound fuel w h) (λ x p.
          Leads-if (not x.1) _ _ x.0 (Leads-some x.0 execute_idle_delay p) (
            Leads-then (tick-Sound elapsed node x.0 lt p) (λ y q.
              tick_devices-Sound elapsed (min_ℤ y.1 (pos 0xffff)) y.0.node.devices y.0 lt q))))

  stop_clients-Sound :
      (i : ℕ) (ks : List (Client × S)) (w : World S t.PayloadMetric)
      → Sound on [] w
      → Leads on [] (stop_clients t driver i ks w)
  unfolding stop_clients
  stop_clients-Sound i [] w h = Leads-some w tt h
  stop_clients-Sound i (k ∷ ks) w h =
      Leads-then (with_client_lem i _ (always-Flow driver.deactivate conserves.deactivate_lem) w h)
        (λ x p.
          Leads-then
            (with_client_lem i _ (always-Flow driver.disconnect conserves.disconnect_lem) x.0 p)
            (λ y q. stop_clients-Sound (i + 1) ks y.0 q))

  pub stop-Sound : (w : World S t.PayloadMetric) → Sound on [] w → Leads on [] (stop t driver w)
  unfolding stop
  stop-Sound w h = stop_clients-Sound 0 w.clients w h
