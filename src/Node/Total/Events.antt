-- ===== src/Node/Total/Events.antt =====
-- src/Node.cpp, processEvents: the loop ends, whatever the events.
use cpp_sparkplug.Prelude.{
  ℕ, zero, suc, ◌+◌, ◌<◌, ◌≤◌, Option, some, List, [], ◌∷◌, length, ◌≡◌, refl, ap, ◌∙◌, arith,
}
use cpp_sparkplug.Tahu.{Tahu}
use cpp_sparkplug.Publishable.{published}
use cpp_sparkplug.Clients.State.{
  Source, Event, client_message, client_connected, client_disconnected, client_active,
  client_deactive, client_delivered, client_undelivered,
}
use cpp_sparkplug.Clients.{put}
use cpp_sparkplug.Node.World.{Driver, World, M, SparkplugClientMode, single, primary_host}
use cpp_sparkplug.Node.Events.{process_event, process_events}
use cpp_sparkplug.Node.Loop.{process_round, process_none}
use cpp_sparkplug.Node.Answers.{Answers, prompts, switches}
use cpp_sparkplug.Node.Contract.{Conserves}
use cpp_sparkplug.Node.Ledger.{untagged}
use cpp_sparkplug.Node.Total.{Setting, HaveNames, IsOne, AreServed, Served, Keeps, Sure, Sure-some}
use cpp_sparkplug.Node.Total.Eventually.{Eventually}
use cpp_sparkplug.Node.Total.Publishing.{
  set_active_client-Stays, activate_client-Served, deactivate_client-Served,
}
use cpp_sparkplug.Node.Total.Messages.{on_message-Moves}

module _ (t : Tahu) {S : Type 0} (driver : Driver S) where
  -- The world in which the loop handles the front event.
  abbrev pub without : List (ℕ × Event) → World S t.PayloadMetric → World S t.PayloadMetric
  without q w = record w { node = record (w.node) { event_queue = q } }

  -- One round of the loop, and the rest of it.
  pub next_round :
      {Q : World S t.PayloadMetric × Unit {0} → Type 0} (w w' : World S t.PayloadMetric) (i : ℕ)
      (e : Event) (q : List (ℕ × Event))
      → w.node.event_queue ≡ (i, e) ∷ q
      → process_event t driver i e (without q w) ≡ some (w', tt)
      → Eventually (λ fuel. process_events t driver fuel w') Q
      → Eventually (λ fuel. process_events t driver fuel w) Q
  next_round {Q} w w' i e q s p (fuel, v, r, done) = (suc fuel, v, again, done)
    where
      again : (more : ℕ) → suc fuel ≤ more → process_events t driver more w ≡ some v
      again zero le = absurd (omega (arith, le))
      again (suc more) le = process_round t driver more w w' i e q s p ∙ r more (omega (arith, le))

module _ (t : Tahu) {S : Type 0} (driver : Driver S) (conserves : Conserves driver)
    (answers : Answers driver) (g : Setting) (named : HaveNames g.names g.devices) where
  abbrev pub After : ℕ → World S t.PayloadMetric → Type 0
  After k w = (a : Option ℕ) × IsOne g.clients a × (m : ℕ) × Served t g a k m w

  told-Served :
      {a : Option ℕ} {k l : ℕ} (s : Source) (w : World S t.PayloadMetric)
      → Served t g a k l w
      → Served t g a k l
          (record w { publishables = put w.publishables s (published (w.publishables s)) })
  unfolding published
  told-Served s w h = record {
    count_lem = h.count_lem;
    active_lem = h.active_lem;
    queue_lem = h.queue_lem;
    names_lem = λ x. ground (arith, h.names_lem x, h.names_lem s);
    devices_lem = h.devices_lem;
    enabled_lem = h.enabled_lem;
    running_lem = h.running_lem;
    prompts_lem = h.prompts_lem;
    switches_lem = h.switches_lem;
  }

  taken-Served :
      {a : Option ℕ} {k l k' l' : ℕ} (w : World S t.PayloadMetric) (i : ℕ) (e : Event)
      (q : List (ℕ × Event))
      → w.node.event_queue ≡ (i, e) ∷ q
      → k + prompts (e ∷ untagged q) ≡ k' + prompts (untagged q)
      → l + switches (e ∷ untagged q) ≡ l' + switches (untagged q)
      → AreServed t g.clients q
      → Served t g a k' l' w
      → Served t g a k l (without t driver q w)
  taken-Served w i e q s p r served h = record {
    count_lem = h.count_lem;
    active_lem = h.active_lem;
    queue_lem = served;
    names_lem = h.names_lem;
    devices_lem = h.devices_lem;
    enabled_lem = h.enabled_lem;
    running_lem = h.running_lem;
    prompts_lem =
        omega (arith, p, h.prompts_lem, ap (λ (x : List (ℕ × Event)). prompts (untagged x)) s);
    switches_lem =
        omega (arith, r, h.switches_lem, ap (λ (x : List (ℕ × Event)). switches (untagged x)) s);
  }

  abbrev pub Drains : World S t.PayloadMetric → Type 0
  Drains w =
      Eventually (λ fuel. process_events t driver fuel w)
        (λ y. (y.0.node.event_queue ≡ []) × Keeps t g y.0)

  connected-Sure :
      (i k l : ℕ) (a : Option ℕ) (w : World S t.PayloadMetric)
      → i < g.clients
      → IsOne g.clients a
      → Served t g a k l w
      → Sure
          (λ (y : World S t.PayloadMetric × Unit {0}). After k y.0)
          (process_event t driver i client_connected w)
  unfolding process_event
  connected-Sure i k l a w lt one h = connected_mode w.node.host_mode
    where
      connected_mode :
          (mode : SparkplugClientMode)
          → Sure
              (λ (y : World S t.PayloadMetric × Unit {0}). After k y.0)
              ((elim mode as (λ x. M S t.PayloadMetric (Unit {0})) [
                | single ↦ cpp_sparkplug.Node.Publishing.activate_client driver i
                | primary_host ↦ cpp_sparkplug.Node.World.pure tt
              ])
                w)
      connected_mode single =
          let (x, e, (m, q)) =
            activate_client-Served t driver conserves answers g named i a w lt h in
          (x, e, (a, one, m, q))
      connected_mode primary_host = Sure-some (w, tt) (a, one, l, h)

  -- By lexicographic recursion on the prompts, the switches and all the events before the node.
  events-Drains :
      (k l m : ℕ) (q : List (ℕ × Event)) (w : World S t.PayloadMetric) (a : Option ℕ)
      → w.node.event_queue ≡ q
      → length q ≡ m
      → AreServed t g.clients q
      → IsOne g.clients a
      → Served t g a k l w
      → Drains w
  unfolding process_event
  events-Drains k l m [] w a s e served one h =
      (0, (w, tt), λ more _. process_none t driver more w s, (s, (a, one, k, l, h)))
  events-Drains k l zero (x ∷ q) w a s e served one h = absurd (omega (arith, e))
  events-Drains k l (suc m) ((i, client_delivered x) ∷ q) w a s e (lt, served) one h =
      let p = told-Served x _ (taken-Served w i _ q s refl refl served h) in
      next_round t driver w _ i _ q s refl
        (events-Drains k l m q _ a refl (omega (arith, e)) served one p)
  events-Drains k l (suc m) ((i, client_undelivered x) ∷ q) w a s e (lt, served) one h =
      let p = told-Served x _ (taken-Served w i _ q s refl refl served h) in
      next_round t driver w _ i _ q s refl
        (events-Drains k l m q _ a refl (omega (arith, e)) served one p)
  events-Drains k l (suc m) ((i, client_deactive) ∷ q) w a s e (lt, served) one h =
      let p = taken-Served w i _ q s refl refl served h in
      next_round t driver w _ i _ q s refl
        (events-Drains k l m q _ a refl (omega (arith, e)) served one p)
  events-Drains k zero (suc m) ((i, client_active) ∷ q) w a s e (lt, served) one h =
      absurd (omega (arith, h.switches_lem, ap (λ (y : List (ℕ × Event)). switches (untagged y)) s))
  events-Drains k (suc l) (suc m) ((i, client_active) ∷ q) w a s e (lt, served) one h =
      let (x, r, p) =
        set_active_client-Stays t driver conserves answers g named (some i) a (without t driver q w)
          lt one (taken-Served w i _ q s refl (omega arith) served h) in
      next_round t driver w x.0 i _ q s r
        (events-Drains k l _ x.0.node.event_queue x.0 (some i) refl refl p.queue_lem lt p)
  events-Drains k zero (suc m) ((i, client_disconnected) ∷ q) w a s e (lt, served) one h =
      absurd (omega (arith, h.switches_lem, ap (λ (y : List (ℕ × Event)). switches (untagged y)) s))
  events-Drains k (suc l) (suc m) ((i, client_disconnected) ∷ q) w a s e (lt, served) one h =
      let (x, r, (b, other, p)) =
        deactivate_client-Served t driver conserves answers g named i a (without t driver q w) one
          (taken-Served w i _ q s refl (omega arith) served h) in
      next_round t driver w x.0 i _ q s r
        (events-Drains k l _ x.0.node.event_queue x.0 b refl refl p.queue_lem other p)
  events-Drains zero l (suc m) ((i, client_connected) ∷ q) w a s e (lt, served) one h =
      absurd (omega (arith, h.prompts_lem, ap (λ (y : List (ℕ × Event)). prompts (untagged y)) s))
  events-Drains (suc k) l (suc m) ((i, client_connected) ∷ q) w a s e (lt, served) one h =
      let (x, r, (b, other, n, p)) =
        connected-Sure i k l a (without t driver q w) lt one
          (taken-Served w i _ q s (omega arith) refl served h) in
      next_round t driver w x.0 i _ q s r
        (events-Drains k n _ x.0.node.event_queue x.0 b refl refl p.queue_lem other p)
  events-Drains zero l (suc m) ((i, client_message topic payload) ∷ q) w a s e (lt, names, served)
        one h =
      absurd (omega (arith, h.prompts_lem, ap (λ (y : List (ℕ × Event)). prompts (untagged y)) s))
  events-Drains (suc k) l (suc m) ((i, client_message topic payload) ∷ q) w a s e
        (lt, names, served) one h =
      let (x, r, (b, other, n, p)) =
        on_message-Moves t driver conserves answers g named i topic payload a (without t driver q w)
          lt names one (taken-Served w i _ q s (omega arith) refl served h) in
      next_round t driver w x.0 i _ q s r
        (events-Drains k n _ x.0.node.event_queue x.0 b refl refl p.queue_lem other p)

  pub Served-Drains :
      (k l : ℕ) (w : World S t.PayloadMetric) (a : Option ℕ)
      → IsOne g.clients a
      → Served t g a k l w
      → Drains w
  Served-Drains k l w a one h =
      events-Drains k l _ w.node.event_queue w a refl refl h.queue_lem one h

-- A world as it is, with its setting.
abbrev pub setting : {S P : Type 0} → World S P → Setting
setting w = record {
  clients = length w.clients;
  names = λ s. (w.publishables s).name;
  devices = w.node.devices;
  enabled = w.node.enabled;
  running = w.node.running;
}

pub setting-Served :
    (t : Tahu) {S P : Type 0} (w : World S P)
    → AreServed t (length w.clients) w.node.event_queue
    → Served t
        (setting w)
        w.node.active_client
        (prompts (untagged w.node.event_queue))
        (switches (untagged w.node.event_queue))
        w
setting-Served t w served = record {
  count_lem = refl;
  active_lem = refl;
  queue_lem = served;
  names_lem = λ s. refl;
  devices_lem = refl;
  enabled_lem = refl;
  running_lem = refl;
  prompts_lem = refl;
  switches_lem = refl;
}

module _ (t : Tahu) {S : Type 0} (driver : Driver S) (conserves : Conserves driver)
    (answers : Answers driver) where
  -- With clients that keep their contract, whose `request` returns, and whose answers to the node are
  -- outcomes or, from `activate`, that the client is active: the loop of processEvents ends with an
  -- empty queue, whatever events are in it and however many its handlers add, without a fault, and
  -- with any larger fuel in the same way; given that the devices have names, that the active client and
  -- those of the events are clients of the node, and that received metrics have names.
  pub process_events-Drains :
      (w : World S t.PayloadMetric)
      → HaveNames (λ s. (w.publishables s).name) w.node.devices
      → IsOne (length w.clients) w.node.active_client
      → AreServed t (length w.clients) w.node.event_queue
      → (fuel : ℕ) × (w' : World S t.PayloadMetric) × ((more : ℕ)
          → fuel ≤ more
          → process_events t driver more w ≡ some (w', tt))
        × (w'.node.event_queue ≡ [])
  process_events-Drains w named one served =
      let (fuel, x, r, (done, kept)) =
        Served-Drains t driver conserves answers (setting w) named _ _ w w.node.active_client one
          (setting-Served t w served) in
      (fuel, x.0, r, done)
