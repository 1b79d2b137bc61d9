-- ===== src/Node/Total/Executing.antt =====
-- src/Node.cpp, execute and begin: they return as often as they are called, and do not fault.
use cpp_sparkplug.Prelude.{
  ℕ, ◌+◌, ◌<◌, ◌≤◌, Bool, true, false, not, Option, none, some, List, [], ◌∷◌, length, ◌≡◌, refl,
  sym, subst, arith,
}
use cpp_sparkplug.Prelude.Int.{ℤ, pos, negsuc, min_ℤ}
use cpp_sparkplug.Tahu.{Tahu}
use cpp_sparkplug.Publishable.{can_publish}
use cpp_sparkplug.Publishable
use cpp_sparkplug.Clients.State.{Source, node, device}
use cpp_sparkplug.Clients.{Client, Context, put}
use cpp_sparkplug.Clients.Flow.{Flow_refl}
use cpp_sparkplug.Node.World.{Driver, World, M, with_client, no_result, pure, context, leave}
use cpp_sparkplug.Node.Events.{
  execute_clients, sync, is_active, tick, tick_devices, execute, execute_idle_delay,
}
use cpp_sparkplug.Node.Answers.{Answers, IsQuiet, prompts, switches}
use cpp_sparkplug.Node.Contract.{Conserves}
use cpp_sparkplug.Node.Total.{
  Setting, HaveNames, IsOne, Served, Keeps, EventsName, Sure, Sure-some, Sure-then, Sure-if,
}
use cpp_sparkplug.Node.Total.Eventually.{
  Eventually, Eventually-sure, Eventually-then, Eventually-if,
}
use cpp_sparkplug.Node.Total.Calls.{client_of, leave-Served, Sure-quiet}
use cpp_sparkplug.Node.Total.Publishing.{HasTopic, publish-Stays}
use cpp_sparkplug.Node.Total.Events.{Served-Drains}

-- `execute` of a client returns, and the payloads that it receives name their metrics; and `disconnect`
-- raises outcomes only.
pub record Executes (t : Tahu) {S : Type 0} (driver : Driver S) : Type 0 where
  pub execute_lem :
      (c : Context S)
      → EventsName t c.events
      → (c' : Context S) × (driver.execute c ≡ some c') × EventsName t c'.events
  pub disconnect_lem : (c : Context S) → IsQuiet c (driver.disconnect c).0

module _ (t : Tahu) {S : Type 0} (driver : Driver S) (conserves : Conserves driver)
    (answers : Answers driver) (executes : Executes t driver) (g : Setting)
    (named : HaveNames g.names g.devices) where
  executed :
      (i : ℕ) (a : Option ℕ) (k l : ℕ) (w : World S t.PayloadMetric)
      → i < g.clients
      → Served t g a k l w
      → Sure
          (λ (y : World S t.PayloadMetric × Unit {0}). (k' : ℕ) × (l' : ℕ) × Served t g a k' l' y.0)
          (with_client i (no_result driver.execute) w)
  unfolding with_client
  executed i a k l w lt h =
      let (x, found) = client_of t i w lt h in
      let (c, called, names) = executes.execute_lem (context w x) tt in
      (
        (leave i c w, tt),
        ground (arith, found, called),
        (
          k + prompts c.events,
          l + switches c.events,
          leave-Served t i x c w lt (conserves.execute_lem (context w x) c called) names h,
        ),
      )

  execute_clients-Served :
      (i : ℕ) (ks : List (Client × S)) (a : Option ℕ) (k l : ℕ) (w : World S t.PayloadMetric)
      → i + length ks ≤ g.clients
      → Served t g a k l w
      → Sure
          (λ (y : World S t.PayloadMetric × Unit {0}). (k' : ℕ) × (l' : ℕ) × Served t g a k' l' y.0)
          (execute_clients t driver i ks w)
  unfolding execute_clients
  execute_clients-Served i [] a k l w le h = Sure-some (w, tt) (k, l, h)
  execute_clients-Served i (x ∷ ks) a k l w le h =
      Sure-then (executed i a k l w (omega (arith, le)) h)
        (λ y p. execute_clients-Served (i + 1) ks a p.0 p.1 y.0 (omega (arith, le)) p.2)

  sync-Keeps :
      (w : World S t.PayloadMetric)
      → Keeps t g w
      → Eventually (λ fuel. sync t driver fuel w) (λ y. Keeps t g y.0)
  unfolding sync
  sync-Keeps w (a, one, k, l, h) =
      Eventually-then
        (Eventually-sure
          (execute_clients-Served 0 w.clients a k l w (omega (arith, h.count_lem)) h))
        (λ x p.
          let (fuel, y, r, (done, kept)) =
            Served-Drains t driver conserves answers g named p.0 p.1 x.0 a one p.2 in
          (fuel, y, r, kept))

  -- What `isActive` leaves: if it is true, an active client.
  abbrev IsActive : World S t.PayloadMetric × Bool → Type 0
  IsActive y =
      (a : Option ℕ) × IsOne g.clients a
      × (k : ℕ) × (l : ℕ) × Served t g a k l y.0
      × (y.1 ≡ true → (i : ℕ) × (a ≡ some i))

  asked :
      (a : Option ℕ) (k l : ℕ) (w : World S t.PayloadMetric)
      → IsOne g.clients a
      → Served t g a k l w
      → Sure IsActive (
          (elim a as (λ x. M S t.PayloadMetric Bool) [
            | none ↦ pure false
            | some i ↦ with_client i (λ c. some (c, driver.is_connected c))
          ])
            w)
  asked none k l w one h = Sure-some (w, false) (none, tt, k, l, h, λ e. absurd cc e)
  asked (some i) k l w one h =
      let (y, e, q) =
        Sure-quiet t i (λ c. some (c, driver.is_connected c)) one
          (λ c. ((c, driver.is_connected c), refl, Flow_refl c, refl, refl)) w h in
      (y, e, (some i, one, k, l, q, λ _. (i, refl)))

  idle : (w : World S t.PayloadMetric) → Keeps t g w → Eventually (λ fuel. some (w, false)) IsActive
  idle w (a, one, k, l, h) =
      Eventually-sure (Sure-some (w, false) (a, one, k, l, h, λ e. absurd cc e))

  is_active-IsActive :
      (w : World S t.PayloadMetric)
      → Keeps t g w
      → Eventually (λ fuel. is_active t driver fuel w) IsActive
  unfolding is_active
  is_active-IsActive w h =
      Eventually-if (not w.node.enabled) _ _ w (λ off. idle w h)
        (λ on. Eventually-then (sync-Keeps w h) (λ x (a, one, k, l, p). Eventually-sure (
          subst
            (λ o. Sure IsActive (
              (elim o as (λ y. M S t.PayloadMetric Bool) [
                | none ↦ pure false
                | some i ↦ with_client i (λ c. some (c, driver.is_connected c))
              ])
                x.0))
            (sym p.active_lem) (asked a k l x.0 one p))))

  update-name :
      (time : ℤ) (p : Publishable.Publishable) → (Publishable.update time p).0.name ≡ p.name
  unfolding Publishable.update
  update-name time p = ground arith

  timed-Served :
      {a : Option ℕ} {k l : ℕ} (time : ℤ) (s : Source) (w : World S t.PayloadMetric)
      → Served t g a k l w
      → Served t g a k l (record w {
        publishables = put w.publishables s (Publishable.update time (w.publishables s)).0;
      })
  timed-Served time s w h = record {
    count_lem = h.count_lem;
    active_lem = h.active_lem;
    queue_lem = h.queue_lem;
    names_lem =
        λ x. ground (arith, h.names_lem x, h.names_lem s, update-name time (w.publishables s));
    devices_lem = h.devices_lem;
    enabled_lem = h.enabled_lem;
    running_lem = h.running_lem;
    prompts_lem = h.prompts_lem;
    switches_lem = h.switches_lem;
  }

  module _ {i k l : ℕ} (lt : i < g.clients) where
    tick-Served :
        (time : ℤ) (s : Source) (w : World S t.PayloadMetric)
        → HasTopic g s
        → Served t g (some i) k l w
        → Sure
            (λ (y : World S t.PayloadMetric × ℤ). Served t g (some i) k l y.0)
            (tick t driver time s w)
    unfolding tick
    tick-Served time s w has h =
        let w' : World S t.PayloadMetric = record w {
          publishables = put w.publishables s (Publishable.update time (w.publishables s)).0;
        } in
        let p = timed-Served time s w h in
        Sure-then
          (Sure-if (can_publish (w'.publishables s)) _ _ w'
            (λ _. publish-Stays t driver conserves answers g named s false i w' has lt p)
            (λ _. Sure-some (w', tt) p))
          (λ x q. Sure-some (x.0, _) q)

    tick_devices-Served :
        (time next : ℤ) (ds : List ℕ) (w : World S t.PayloadMetric)
        → HaveNames g.names ds
        → Served t g (some i) k l w
        → Sure
            (λ (y : World S t.PayloadMetric × ℤ). Served t g (some i) k l y.0)
            (tick_devices t driver time next ds w)
    unfolding tick_devices
    tick_devices-Served time next [] w has h = Sure-some (w, next) h
    tick_devices-Served time next (d ∷ ds) w (name, has) h =
        Sure-then (tick-Served time (device d) w name h)
          (λ x p. tick_devices-Served time (min_ℤ x.1 next) ds x.0 has p)

    ticked :
        (time : ℤ) (w : World S t.PayloadMetric)
        → Served t g (some i) k l w
        → Sure
            (λ (y : World S t.PayloadMetric × ℤ). Served t g (some i) k l y.0)
            (elim (tick t driver time node w) [
              | none ↦ none
              | some y ↦ tick_devices t driver time (min_ℤ y.1 (pos 0xffff)) y.0.node.devices y.0
            ])
    ticked time w h = Sure-then (tick-Served time node w tt h) (λ x p.
        tick_devices-Served time (min_ℤ x.1 (pos 0xffff)) x.0.node.devices x.0
          (subst (HaveNames g.names) (sym p.devices_lem) named) p)

  ticked-Keeps :
      (time : ℤ) (w : World S t.PayloadMetric)
      → ((a : Option ℕ) × IsOne g.clients a
          × (k : ℕ) × (l : ℕ) × Served t g a k l w
          × ((i : ℕ) × (a ≡ some i)))
      → Sure
          (λ (y : World S t.PayloadMetric × ℤ). Keeps t g y.0)
          (elim (tick t driver time node w) [
            | none ↦ none
            | some y ↦ tick_devices t driver time (min_ℤ y.1 (pos 0xffff)) y.0.node.devices y.0
          ])
  ticked-Keeps time w (none, one, k, l, h, (i, e)) = absurd cc e
  ticked-Keeps time w (some j, one, k, l, h, (i, e)) =
      let (y, r, p) = ticked one time w h in (y, r, (some j, one, k, l, p))

  pub execute-Keeps :
      (time : ℤ) (w : World S t.PayloadMetric)
      → Keeps t g w
      → Eventually (λ fuel. execute t driver fuel time w) (λ y. Keeps t g y.0)
  unfolding execute
  execute-Keeps time w h =
      Eventually-if (not w.node.enabled) _ _ w (λ off. Eventually-sure (Sure-some (w, negsuc 0) h))
        (λ on. Eventually-then (is_active-IsActive w h) (λ x (a, one, k, l, p, act).
          Eventually-sure (
            Sure-if (not x.1) _ _ x.0
              (λ idle. Sure-some (x.0, execute_idle_delay) (a, one, k, l, p))
              (λ busy. ticked-Keeps time x.0 (a, one, k, l, p, act (ground (arith, busy)))))))
