-- ===== src/Node/Loop.antt =====
-- src/Node.cpp, processEvents and deactivateClient: the event loop, and the active client.
use cpp_sparkplug.Prelude.{
  ℕ, zero, suc, ◌≤◌, Bytes, Bool, true, false, null, Option, none, some, List, [], ◌∷◌,
  if◌then◌else◌, length, ◌≡◌, refl, ap, ◌∙◌, arith, Bool-cases, inl, inr,
}
use cpp_sparkplug.Tahu.{Tahu}
use cpp_sparkplug.Publishable.{Publishable, published}
use cpp_sparkplug.Clients.State.{Source, Event, client_delivered, client_undelivered}
use cpp_sparkplug.Clients.{Client, put}
use cpp_sparkplug.Node.World.{Driver, World, get_client, leave, context}
use cpp_sparkplug.Node.Publishing.{set_active_client, deactivate_client, same_client}
use cpp_sparkplug.Node.Events.{process_event, process_events, on_message}

-- The result of a message: which client it is from, which publishable it is of, and whether it was
-- delivered.
pub data Outcome : Type 0 where
  delivery : ℕ → Source → Bool → Outcome

abbrev pub outcome_event : Outcome → ℕ × Event
outcome_event (delivery i s ok) = (i, (if ok then client_delivered s else client_undelivered s))

abbrev pub outcome_events : List Outcome → List (ℕ × Event)
outcome_events [] = []
outcome_events (o ∷ os) = outcome_event o ∷ outcome_events os

-- The publishables after the outcomes: each is told once for each of its outcomes, whichever it is.
abbrev pub settle_all : List Outcome → (Source → Publishable) → Source → Publishable
settle_all [] store = store
settle_all (delivery i s ok ∷ os) store = settle_all os (put store s (published (store s)))

abbrev pub settled : List Outcome → List (ℕ × Event) → {S P : Type 0} → World S P → World S P
settled os q w = record w {
  node = record (w.node) { event_queue = q };
  publishables = settle_all os w.publishables;
}

module _ (t : Tahu) {S : Type 0} (driver : Driver S) where
  outcome_step :
      (o : Outcome) (w : World S t.PayloadMetric) (q : List (ℕ × Event))
      → process_event t driver
          (outcome_event o).0
          (outcome_event o).1
          (record w { node = record (w.node) { event_queue = q } })
        ≡ some (settled (o ∷ []) q w, tt)
  unfolding process_event
  outcome_step (delivery i s true) w q = refl
  outcome_step (delivery i s false) w q = refl

  pub process_round :
      (fuel : ℕ) (w w' : World S t.PayloadMetric) (i : ℕ) (e : Event) (rest : List (ℕ × Event))
      → w.node.event_queue ≡ (i, e) ∷ rest
      → process_event t driver i e (record w { node = record (w.node) { event_queue = rest } })
        ≡ some (w', tt)
      → process_events t driver (suc fuel) w ≡ process_events t driver fuel w'
  unfolding process_events
  process_round fuel w w' i e rest q h = rw (q, process_events, h)

  pub process_none :
      (fuel : ℕ) (w : World S t.PayloadMetric)
      → w.node.event_queue ≡ []
      → process_events t driver fuel w ≡ some (w, tt)
  unfolding process_events
  process_none zero w e = ground arith
  process_none (suc fuel) w e = ground arith

  emptied : (w : World S t.PayloadMetric) → w.node.event_queue ≡ [] → w ≡ settled [] [] w
  emptied w e = λ i. record w { node = record (w.node) { event_queue = e i } }

  -- With fuel for its length, the loop empties a queue of deliveries and failures, and each publishable
  -- is called back once for each of its messages, in the same way for both.
  pub process_events-outcomes :
      (os : List Outcome) (fuel : ℕ) (w : World S t.PayloadMetric)
      → w.node.event_queue ≡ outcome_events os
      → length os ≤ fuel
      → process_events t driver fuel w ≡ some (settled os [] w, tt)
  process_events-outcomes [] fuel w e le =
      process_none fuel w e ∙ ap (λ (x : World S t.PayloadMetric). some (x, tt)) (emptied w e)
  process_events-outcomes (o ∷ os) zero w e le = absurd (omega arith)
  process_events-outcomes (delivery i s ok ∷ os) (suc fuel) w e le =
      let w' : World S t.PayloadMetric = settled (delivery i s ok ∷ []) (outcome_events os) w in
      process_round fuel w w' i _ (outcome_events os) e
        (outcome_step (delivery i s ok) w (outcome_events os))
      ∙ process_events-outcomes os fuel w' refl (omega arith)

  -- A message from a client that is not the active one changes nothing, where the node has no primary
  -- host.
  on_message-inactive :
      (i : ℕ) (topic payload : Bytes) (w : World S t.PayloadMetric)
      → same_client (some i) w.node.active_client ≡ false
      → w.node.client_topics.primary_host_topic ≡ []
      → on_message t driver i topic payload w ≡ some (w, tt)
  unfolding on_message
  on_message-inactive i topic payload w a h = rw (a, ap null h)

  pub same_active : (i : ℕ) (a : Option ℕ) → same_client (some i) a ≡ true → a ≡ some i
  same_active i none h = cc
  same_active i (some j) h = ground arith

  -- The world after the active client was deactivated.
  abbrev pub retired : ℕ → Client × S → World S t.PayloadMetric → World S t.PayloadMetric
  retired i k w =
      let w' : World S t.PayloadMetric = leave i (driver.deactivate (context w k)).0 w in
      record w' { node = record (w'.node) { active_client = none } }

  pub retire_lem :
      (i : ℕ) (k : Client × S) (w : World S t.PayloadMetric)
      → get_client i w.clients ≡ some k
      → w.node.active_client ≡ some i
      → set_active_client driver none w ≡ some (retired i k w, tt)
  unfolding set_active_client
  retire_lem i k w e a = ground arith

  -- Deactivating a client of the node returns, whatever the client answers; the node then has no active
  -- client if it was that one, and else the one that it had.
  deactivate_client-active :
      (i : ℕ) (k : Client × S) (w : World S t.PayloadMetric)
      → get_client i w.clients ≡ some k
      → (w' : World S t.PayloadMetric) × (deactivate_client driver i w ≡ some (w', tt))
        × (w'.node.active_client
            ≡ (if same_client (some i) w.node.active_client then none else w.node.active_client))
  unfolding deactivate_client
  deactivate_client-active i k w e = elim (Bool-cases (same_client (some i) w.node.active_client)) [
    | inr other ↦ (w, rw other, rw other)
    | inl mine ↦ (
      retired i k w,
      rw mine (retire_lem i k w e (same_active i w.node.active_client mine)),
      rw mine,
    )
  ]
