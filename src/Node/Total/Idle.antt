-- ===== src/Node/Total/Idle.antt =====
-- src/Node.cpp: after a loss of the connection no publishable waits.
use cpp_sparkplug.Prelude.{
  ℕ, zero, suc, ◌<◌, ◌≤◌, Bool, true, false, some, List, [], ◌∷◌, length, ◌≡◌, ◌≢◌, refl, ap, sym,
  subst, ◌∙◌, arith, Bool-cases, inl, inr,
}
use cpp_sparkplug.Tahu.{Tahu}
use cpp_sparkplug.Publishable.State.{PublishableState}
use cpp_sparkplug.Clients.State.{
  Source, PublishRequest, Event, client_message, client_connected, client_disconnected,
  client_active, client_deactive, client_delivered, client_undelivered,
}
use cpp_sparkplug.Clients.{Client, Context}
use cpp_sparkplug.Clients.Queue.{on_disconnect}
use cpp_sparkplug.Clients.Receiving.{on_disconnect-empty}
use cpp_sparkplug.Clients.Flow.{sources, publishers, Flow_of}
use cpp_sparkplug.Clients.Moves.{on_disconnect-Flow}
use cpp_sparkplug.Node.World.{
  Driver, World, get_client, set_client, with_client, no_result, context, leave,
}
use cpp_sparkplug.Node.Publishing.{same_client, deactivate_client}
use cpp_sparkplug.Node.Events.{process_event, process_events}
use cpp_sparkplug.Node.Loop.{process_none, retired, retire_lem, same_active}
use cpp_sparkplug.Node.Answers.{Answers, switches}
use cpp_sparkplug.Node.Contract.{Conserves}
use cpp_sparkplug.Node.Ledger.{count, untagged, in_queues}
use cpp_sparkplug.Node.Sound.{Sound, with_client_lem}
use cpp_sparkplug.Node.Sound.Publishing.{no_result-Flow}
use cpp_sparkplug.Node.Sound.Events.{process_events-Sound}
use cpp_sparkplug.Node.Total.{AreServed, get_client-some, length-set_client}
use cpp_sparkplug.Node.Total.Eventually.{Eventually}
use cpp_sparkplug.Node.Total.Events.{without, next_round}
use cpp_sparkplug.Node.Total.Calls.{AreServed-tagged, unprompted, switches-tagged}
use cpp_sparkplug.Node.Total.Calm.{
  calm, calm_of, prompts-calm, calm-tagged, NoRequests, NoRequests-leave, on_disconnect-calm,
}

module _ (t : Tahu) {S : Type 0} (driver : Driver S) (conserves : Conserves driver)
    (answers : Answers driver) where
  abbrev Rested : World S t.PayloadMetric → Type 0
  Rested w =
      Eventually (λ fuel. process_events t driver fuel w)
        (λ y. (y.0.node.event_queue ≡ []) × NoRequests y.0)

  -- The call that deactivates the client i, and what it adds to the queue.
  retired-calm :
      (i : ℕ) (k : Client × S) (w : World S t.PayloadMetric)
      → calm (untagged w.node.event_queue) ≡ true
      → calm (untagged (retired t driver i k w).node.event_queue) ≡ true
  retired-calm i k w h =
      let q = answers.deactivate_lem (context w k) in
      calm-tagged i w.node.event_queue _ h
        (calm_of (driver.deactivate (context w k)).0.events q.0 q.1)

  left_alone :
      (i : ℕ) (v : World S t.PayloadMetric)
      → same_client (some i) v.node.active_client ≡ false
      → deactivate_client driver i v ≡ some (v, tt)
  unfolding deactivate_client
  left_alone i v other = rw other

  retires :
      (i : ℕ) (k : Client × S) (v : World S t.PayloadMetric)
      → get_client i v.clients ≡ some k
      → same_client (some i) v.node.active_client ≡ true
      → deactivate_client driver i v ≡ some (retired t driver i k v, tt)
  unfolding deactivate_client
  retires i k v found mine =
      rw mine (retire_lem t driver i k v found (same_active t driver i v.node.active_client mine))

  -- By lexicographic recursion on the disconnections and all the events before the node.
  calm-Rested :
      (n l m : ℕ) (q : List (ℕ × Event)) (w : World S t.PayloadMetric)
      → w.node.event_queue ≡ q
      → length q ≡ m
      → switches (untagged q) ≡ l
      → length w.clients ≡ n
      → calm (untagged q) ≡ true
      → AreServed t n q
      → NoRequests w
      → Rested w
  unfolding process_event
  calm-Rested n l m [] w s e b c quiet served h =
      (0, (w, tt), λ more _. process_none t driver more w s, (s, h))
  calm-Rested n l zero (x ∷ q) w s e b c quiet served h = absurd (omega (arith, e))
  calm-Rested n l (suc m) ((i, client_message topic payload) ∷ q) w s e b c quiet served h =
      cc quiet
  calm-Rested n l (suc m) ((i, client_connected) ∷ q) w s e b c quiet served h = cc quiet
  calm-Rested n l (suc m) ((i, client_active) ∷ q) w s e b c quiet served h = cc quiet
  calm-Rested n l (suc m) ((i, client_deactive) ∷ q) w s e b c quiet (lt, served) h =
      next_round t driver w _ i _ q s refl
        (calm-Rested n l m q _ refl (omega (arith, e)) b c quiet served h)
  calm-Rested n l (suc m) ((i, client_delivered x) ∷ q) w s e b c quiet (lt, served) h =
      next_round t driver w _ i _ q s refl
        (calm-Rested n l m q _ refl (omega (arith, e)) b c quiet served h)
  calm-Rested n l (suc m) ((i, client_undelivered x) ∷ q) w s e b c quiet (lt, served) h =
      next_round t driver w _ i _ q s refl
        (calm-Rested n l m q _ refl (omega (arith, e)) b c quiet served h)
  calm-Rested n zero (suc m) ((i, client_disconnected) ∷ q) w s e b c quiet (lt, served) h =
      absurd (omega (arith, b))
  calm-Rested n (suc l) (suc m) ((i, client_disconnected) ∷ q) w s e b c quiet (lt, served) h =
      let v = without t driver q w in
      elim (Bool-cases (same_client (some i) w.node.active_client)) [
        | inr other ↦
            next_round t driver w v i _ q s (left_alone i v other)
              (calm-Rested n l _ q v refl refl (omega (arith, b)) c quiet served h)
        | inl mine ↦
            let (k, found) = get_client-some i w.clients (subst (λ x. i < x) (sym c) lt) in
            let done = driver.deactivate (context v k) in
            let (p, r) = answers.deactivate_lem (context v k) in
            let u = retired t driver i k v in
            next_round t driver w u i _ q s (retires i k v found mine) (
              calm-Rested n l _ u.node.event_queue u refl refl
                (omega (arith, b, r, switches-tagged i q done.0.events))
                (length-set_client i (done.0.client, done.0.library) w.clients ∙ c)
                (retired-calm i k v quiet)
                (AreServed-tagged t n i q done.0.events lt (unprompted t done.0.events p) served)
                (NoRequests-leave i k done.0 v found (conserves.deactivate_lem (context v k)) h))
      ]

  lost-Sound :
      (on : Bool) (w : World S t.PayloadMetric) (k : Client × S)
      → get_client 0 w.clients ≡ some k
      → Sound on [] w
      → Sound on [] (leave 0 (on_disconnect (context w k)) w)
  unfolding with_client
  lost-Sound on w k found h =
      with_client_lem 0 (no_result (λ c. some (on_disconnect c)))
        (no_result-Flow (λ c. some (on_disconnect c))
          (λ c c' e. Flow_of e refl (on_disconnect-Flow c)))
        w h (leave 0 (on_disconnect (context w k)) w, tt) (ground (arith, found))

  -- A node with one client, whose connection is lost when only outcomes and disconnections are before
  -- the node, and at rest otherwise: the loop of processEvents returns, and then no publishable is
  -- PUBLISHING, whatever was sent and waited.
  pub on_disconnect-idle :
      (on : Bool) (w : World S t.PayloadMetric) (k : Client × S)
      → w.clients ≡ k ∷ []
      → Sound on [] w
      → calm (untagged w.node.event_queue) ≡ true
      → AreServed t 1 w.node.event_queue
      → (fuel : ℕ) × (w' : World S t.PayloadMetric) × ((more : ℕ)
          → fuel ≤ more
          → process_events t driver more (leave 0 (on_disconnect (context w k)) w) ≡ some (w', tt))
        × ((s : Source) → (w'.publishables s).state ≢ PublishableState.publishing)
  on_disconnect-idle on w k one h quiet served =
      let c : Context S = on_disconnect (context w k) in
      let w1 : World S t.PayloadMetric = leave 0 c w in
      let found : get_client 0 w.clients ≡ some k = ap (get_client 0) one in
      let es_calm : calm c.events ≡ true = on_disconnect-calm (context w k) refl in
      let sound = lost-Sound on w k found h in
      let (fuel, x, r, (done, none_left)) =
        calm-Rested 1 _ _ w1.node.event_queue w1 refl refl refl
          (length-set_client 0 (c.client, c.library) w.clients ∙ ap length one)
          (calm-tagged 0 w.node.event_queue c.events quiet es_calm)
          (AreServed-tagged t 1 0 w.node.event_queue c.events (omega arith)
            (unprompted t c.events (prompts-calm c.events es_calm)) served)
          (λ s. omega (
            arith,
            ap (λ (ks : List (Client × S)). in_queues s (set_client 0 (c.client, c.library) ks))
                one,
            ap (λ (q : List PublishRequest). count s (publishers q))
                (on_disconnect-empty (context w k)),
          )) in
      let after = process_events-Sound t driver conserves fuel w1 sound x (r fuel (omega arith)) in
      (
        fuel,
        x.0,
        r,
        λ s waits. absurd (
            omega (
              arith,
              after.waiting_lem s waits,
              none_left s,
              ap (λ (q : List (ℕ × Event)). count s (sources (untagged q))) done,
            )),
      )
