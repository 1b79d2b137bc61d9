-- ===== src/Node/Total/Messages.antt =====
-- src/Node.cpp, onMessage: messages whose metrics have names are handled without a fault.
use cpp_sparkplug.Prelude.{
  ℕ, ◌+◌, ◌-◌, ◌^◌, ◌%◌, ◌<◌, Bytes, codes, true, false, not, null, same, ltb, length, drop, Option,
  none, some, List, [], ◌∷◌, ◌≡◌, refl, sym, subst, ◌∙◌, arith, Bool-cases, inl, inr,
}
use cpp_sparkplug.Prelude.Text.{contains}
use cpp_sparkplug.Tahu.{Tahu}
use cpp_sparkplug.Metric.{Call, to_handler, to_callback, rebirth, user}
use cpp_sparkplug.Publishable.{Publishable, handle_command}
use cpp_sparkplug.Publishable.Naming.{handle_command-named}
use cpp_sparkplug.Clients.State.{Source, node, device}
use cpp_sparkplug.Node.World.{Driver, World}
use cpp_sparkplug.Node.Publishing.{same_client}
use cpp_sparkplug.Node.Events.{find_device, perform, command, commands, host_state, on_message}
use cpp_sparkplug.Node.Answers.{Answers}
use cpp_sparkplug.Node.Contract.{Conserves}
use cpp_sparkplug.Node.Total.{
  Setting, HaveNames, IsOne, Names, Served, Sure, Sure-some, Sure-then, Sure-if, Sure-elim,
}
use cpp_sparkplug.Node.Total.Publishing.{
  Stays, publish_birth-Stays, activate_client-Served, deactivate_client-Served,
}

same_active : (i : ℕ) (a : Option ℕ) → same_client (some i) a ≡ true → a ≡ some i
same_active i none h = cc
same_active i (some j) h = ground arith

module _ (t : Tahu) {S : Type 0} (driver : Driver S) (conserves : Conserves driver)
    (answers : Answers driver) (g : Setting) (named : HaveNames g.names g.devices) where
  found_lem :
      (store : Source → Publishable) (name : Bytes) (ds : List ℕ)
      → ((s : Source) → (store s).name ≡ g.names s)
      → HaveNames g.names ds
      → (found : Option ℕ) × (find_device store name ds ≡ some found)
  unfolding find_device
  found_lem store name [] e h = (none, refl)
  found_lem store name (d ∷ ds) e ((n, has), h) =
      let own : (store (device d)).name ≡ some n = e (device d) ∙ has in
      let (rest, s) = found_lem store name ds e h in
      elim (Bool-cases (same name n)) [
        | inl mine ↦ (some d, ground (arith, own, mine))
        | inr other ↦ (rest, ground (arith, own, other, s))
      ]

  -- What a handled message leaves: some active client, and switches of it.
  abbrev pub Moves : {A : Type 0} → ℕ → World S t.PayloadMetric × A → Type 0
  Moves k y = (a : Option ℕ) × IsOne g.clients a × (m : ℕ) × Served t g a k m y.0

  module _ {k l : ℕ} where
    called-Served :
        {a : Option ℕ} (w : World S t.PayloadMetric) (calls : List (Call t.PayloadMetric))
        → Served t g a k l w
        → Served t g a k l (record w { calls = calls })
    called-Served w calls h = record {
      count_lem = h.count_lem;
      active_lem = h.active_lem;
      queue_lem = h.queue_lem;
      names_lem = h.names_lem;
      devices_lem = h.devices_lem;
      enabled_lem = h.enabled_lem;
      running_lem = h.running_lem;
      prompts_lem = h.prompts_lem;
      switches_lem = h.switches_lem;
    }

    perform-Stays :
        (calls : List (Call t.PayloadMetric)) (i : ℕ) (w : World S t.PayloadMetric)
        → i < g.clients
        → Served t g (some i) k l w
        → Sure (Stays t driver conserves answers g named (some i) k l) (perform t driver calls w)
    unfolding perform
    perform-Stays [] i w lt h = Sure-some (w, tt) h
    perform-Stays (to_handler f p ∷ rest) i w lt h = perform-Stays rest i _ lt (called-Served w _ h)
    perform-Stays (to_callback (user f) p ∷ rest) i w lt h =
        perform-Stays rest i _ lt (called-Served w _ h)
    perform-Stays (to_callback rebirth p ∷ rest) i w lt h =
        Sure-then
          (Sure-then
            (Sure-if (t.boolean_value p) _ _ w
              (λ e. publish_birth-Stays t driver conserves answers g named i w lt h)
              (λ e. Sure-some (w, tt) h))
            (λ x q. Sure-some _ (called-Served x.0 _ q)))
          (λ x q. perform-Stays rest i x.0 lt q)

    command-Stays :
        (s : Source) (payload : Bytes) (i : ℕ) (w : World S t.PayloadMetric)
        → Names t payload
        → i < g.clients
        → Served t g (some i) k l w
        → Sure
            (Stays t driver conserves answers g named (some i) k l)
            (command t driver s payload w)
    unfolding command
    command-Stays s payload i w names lt h =
        let (calls, e) = handle_command-named t payload (w.publishables s) names in
        Sure-elim (handle_command t payload (w.publishables s)) _ _ w
          (λ bad. absurd cc (sym bad ∙ e)) (λ c _. perform-Stays c i w lt h)

    commands-Stays :
        (topic payload : Bytes) (i : ℕ) (w : World S t.PayloadMetric)
        → Names t payload
        → i < g.clients
        → Served t g (some i) k l w
        → Sure
            (Stays t driver conserves answers g named (some i) k l)
            (commands t driver topic payload w)
    unfolding commands
    commands-Stays topic payload i w names lt h =
        let n = w.node in
        let size = (length n.client_topics.device_command_topic + 2 ^ 64 - 1) % 2 ^ 64 in
        let goes_on = Sure-some (w, true) h in
        let (f, s) =
          found_lem w.publishables (drop size topic) n.devices h.names_lem
            (subst (HaveNames g.names) (sym h.devices_lem) named) in
        Sure-if (contains (codes "NCMD") topic) _ _ w
          (λ _.
            Sure-if (same topic n.client_topics.node_command_topic) _ _ w
              (λ _.
                Sure-then (command-Stays node payload i w names lt h)
                  (λ x p. Sure-some (x.0, true) p))
              (λ _. goes_on))
          (λ _.
            Sure-if (not (contains (codes "DCMD") topic)) _ _ w (λ _. goes_on)
              (λ _.
                Sure-if (null n.devices) _ _ w (λ _. Sure-some (w, false) h)
                  (λ _.
                    Sure-if (not (ltb size (length topic))) _ _ w (λ _. goes_on)
                      (λ _.
                        Sure-elim (find_device w.publishables (drop size topic) n.devices) _ _ w
                          (λ bad. absurd cc (sym bad ∙ s))
                          (λ found _.
                            Sure-elim found _ _ w (λ _. goes_on)
                              (λ d _.
                                Sure-then (command-Stays (device d) payload i w names lt h)
                                  (λ x p. Sure-some (x.0, true) p)))))))

    host_state-Moves :
        (i : ℕ) (topic payload : Bytes) (a : Option ℕ) (w : World S t.PayloadMetric)
        → i < g.clients
        → IsOne g.clients a
        → Served t g a k l w
        → Sure (Moves k) (host_state t driver i topic payload w)
    unfolding host_state
    host_state-Moves i topic payload a w lt one h =
        let n = w.node in
        let same_world = Sure-some {Q = Moves k} (w, tt) (a, one, l, h) in
        let mine = same_client n.active_client (some i) in
        Sure-if (null n.client_topics.primary_host_topic) _ _ w (λ _. same_world)
          (λ _.
            Sure-if (not (same topic n.client_topics.primary_host_topic)) _ _ w (λ _. same_world)
              (λ _.
                Sure-if (contains (codes "\"online\": true") payload) _ _ w
                  (λ _.
                    Sure-if mine _ _ w (λ _. same_world)
                      (λ _.
                        let (x, e, (m, q)) =
                          activate_client-Served t driver conserves answers g named i a w lt h in
                        (x, e, (a, one, m, q))))
                  (λ _.
                    Sure-if (contains (codes "\"online\": false") payload) _ _ w
                      (λ _.
                        Sure-if mine _ _ w
                          (λ _.
                            let (x, e, (b, other, q)) =
                              deactivate_client-Served t driver conserves answers g named i a w one
                                h in
                            (x, e, (b, other, l, q)))
                          (λ _. same_world))
                      (λ _. same_world))))

    pub on_message-Moves :
        (i : ℕ) (topic payload : Bytes) (a : Option ℕ) (w : World S t.PayloadMetric)
        → i < g.clients
        → Names t payload
        → IsOne g.clients a
        → Served t g a k l w
        → Sure (Moves k) (on_message t driver i topic payload w)
    unfolding on_message
    on_message-Moves i topic payload a w lt names one h =
        Sure-then
          (Sure-if (same_client (some i) w.node.active_client) _ _ w
            (λ mine.
              let same_one : a ≡ some i =
                sym h.active_lem ∙ same_active i w.node.active_client mine in
              subst
                (λ b.
                  Sure (Stays t driver conserves answers g named b k l)
                    (commands t driver topic payload w))
                (sym same_one)
                (commands-Stays topic payload i w names lt
                  (subst (λ b. Served t g b k l w) same_one h)))
            (λ _. Sure-some (w, true) h))
          (λ x p.
            Sure-if x.1 _ _ x.0 (λ _. host_state-Moves i topic payload a x.0 lt one p)
              (λ _. Sure-some (x.0, tt) (a, one, l, p)))
