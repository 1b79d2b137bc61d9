-- ===== src/Node/Total/Publishing.antt =====
-- src/Node.cpp: publish requests, births and the change of the active client return, and do not fault.
use cpp_sparkplug.Prelude.{
  ℕ, ◌<◌, Bytes, Bool, ◌&&◌, true, not, Option, none, some, List, [], ◌∷◌, ◌≡◌, refl, sym, subst,
  ◌∙◌, arith,
}
use cpp_sparkplug.Tahu.{Tahu}
use cpp_sparkplug.Publishable.{can_publish, publishing}
use cpp_sparkplug.Clients.State.{Source, node, device, PublishRequest}
use cpp_sparkplug.Clients.{Context, put}
use cpp_sparkplug.Clients.Flow.{Flow}
use cpp_sparkplug.Node.World.{Driver, Node, World, always, no_result}
use cpp_sparkplug.Node.Publishing.{
  topic, same_client, send, publish, publish_devices, publish_birth, retire, set_active_client,
  activate_client, deactivate_client,
}
use cpp_sparkplug.Node.Answers.{Answers, prompts, switches}
use cpp_sparkplug.Node.Contract.{Conserves}
use cpp_sparkplug.Node.Total.{
  Setting, HaveNames, IsOne, Served, Sure, Sure-some, Sure-then, Sure-if, Sure-elim,
}
use cpp_sparkplug.Node.Total.Calls.{Sure-quiet, Sure-unprompted}

-- The publishable has a topic.
abbrev pub HasTopic : Setting → Source → Type 0
HasTopic g node = Unit {0}
HasTopic g (device d) = (n : Bytes) × (g.names (device d) ≡ some n)

topic_lem :
    (g : Setting) (n : Node) (s : Source) (name : Option Bytes) (is_birth : Bool)
    → HasTopic g s
    → name ≡ g.names s
    → (r : Bytes) × (topic n s name is_birth ≡ some r)
unfolding topic
topic_lem g n node name is_birth h e = (_, refl)
topic_lem g n (device d) none is_birth (x, h) e = absurd cc (e ∙ h)
topic_lem g n (device d) (some name) is_birth h e = (_, refl)

module _ {S : Type 0} (driver : Driver S) (conserves : Conserves driver)
    (answers : Answers driver) where
  request_total :
      (r : PublishRequest) (c : Context S)
      → (x : Context S × Unit {0}) × (no_result (driver.request r) c ≡ some x)
        × Flow (r.publisher ∷ []) c x.0
        × (prompts x.0.events ≡ prompts c.events)
        × (switches x.0.events ≡ switches c.events)
  request_total r c =
      let (c', e, (p, s)) = answers.request_lem r c in
      ((c', tt), ground (arith, e), conserves.request_lem r c c' e, p, s)

module _ (t : Tahu) {S P : Type 0} (driver : Driver S) (conserves : Conserves driver)
    (answers : Answers driver) (g : Setting) (named : HaveNames g.names g.devices) where
  -- What calls leave that raise outcomes only.
  abbrev pub Stays : {A : Type 0} → Option ℕ → ℕ → ℕ → World S P × A → Type 0
  Stays a k l y = Served t g a k l y.0

  module _ {k l : ℕ} where
    send-Stays :
        (r : PublishRequest) (i : ℕ) (w : World S P)
        → i < g.clients
        → Served t g (some i) k l w
        → Sure (Stays (some i) k l) (send driver r w)
    unfolding send
    send-Stays r i w lt h =
        Sure-elim w.node.active_client _ _ w (λ e. absurd cc (sym e ∙ h.active_lem))
          (λ j e.
            let same : i ≡ j = ground (arith, h.active_lem, e) in
            Sure-quiet t j _ (subst (λ x. x < g.clients) same lt)
              (request_total driver conserves answers r) w h)

    put-Served :
        (s : Source) (w : World S P) {a : Option ℕ}
        → Served t g a k l w
        → Served t g a k l
            (record w { publishables = put w.publishables s (publishing (w.publishables s)) })
    unfolding publishing
    put-Served s w h = record {
      count_lem = h.count_lem;
      active_lem = h.active_lem;
      queue_lem = h.queue_lem;
      names_lem = λ x. ground (arith, h.names_lem x, h.names_lem s);
      devices_lem = h.devices_lem;
      enabled_lem = h.enabled_lem;
      running_lem = h.running_lem;
      prompts_lem = h.prompts_lem;
      switches_lem = h.switches_lem;
    }

    pub publish-Stays :
        (s : Source) (is_birth : Bool) (i : ℕ) (w : World S P)
        → HasTopic g s
        → i < g.clients
        → Served t g (some i) k l w
        → Sure (Stays (some i) k l) (publish driver s is_birth w)
    unfolding publish
    publish-Stays s is_birth i w has lt h =
        Sure-if (not (can_publish (w.publishables s)) && not is_birth) _ _ w
          (λ e. Sure-some (w, tt) h)
          (λ e.
            let (r, named) =
              topic_lem g w.node s (w.publishables s).name is_birth has (h.names_lem s) in
            Sure-elim (topic w.node s (w.publishables s).name is_birth) _ _ _
              (λ none_lem. absurd cc (sym none_lem ∙ named))
              (λ name _. send-Stays _ i _ lt (put-Served s w h)))

    publish_devices-Stays :
        (ds : List ℕ) (i : ℕ) (w : World S P)
        → HaveNames g.names ds
        → i < g.clients
        → Served t g (some i) k l w
        → Sure (Stays (some i) k l) (publish_devices driver ds w)
    unfolding publish_devices
    publish_devices-Stays [] i w names lt h = Sure-some (w, tt) h
    publish_devices-Stays (d ∷ ds) i w (name, names) lt h =
        Sure-then (publish-Stays (device d) true i w name lt h)
          (λ x p. publish_devices-Stays ds i x.0 names lt p)

    pub publish_birth-Stays :
        (i : ℕ) (w : World S P)
        → i < g.clients
        → Served t g (some i) k l w
        → Sure (Stays (some i) k l) (publish_birth driver w)
    unfolding publish_birth
    publish_birth-Stays i w lt h = Sure-then (publish-Stays node true i w tt lt h) (λ x p.
        publish_devices-Stays x.0.node.devices i x.0
          (subst (HaveNames g.names) (sym p.devices_lem) named) lt p)

    retire-Stays :
        (new old : Option ℕ) (w : World S P)
        → IsOne g.clients old
        → Served t g old k l w
        → Sure (Stays old k l) (retire driver new old w)
    unfolding retire
    retire-Stays new none w lt h = Sure-some (w, tt) h
    retire-Stays new (some i) w lt h =
        Sure-if (same_client new (some i)) _ _ w (λ e. Sure-some (w, tt) h)
          (λ e.
            Sure-then
              (Sure-quiet t i (always driver.deactivate) lt
                (λ c.
                  let q = answers.deactivate_lem c in
                  (driver.deactivate c, refl, conserves.deactivate_lem c, q.0, q.1))
                w h)
              (λ x p. Sure-some (x.0, tt) p))

    switched-Served :
        (old new : Option ℕ) (w : World S P)
        → Served t g old k l w
        → Served t g new k l (record w { node = record (w.node) { active_client = new } })
    switched-Served old new w h = record {
      count_lem = h.count_lem;
      active_lem = refl;
      queue_lem = h.queue_lem;
      names_lem = h.names_lem;
      devices_lem = h.devices_lem;
      enabled_lem = h.enabled_lem;
      running_lem = h.running_lem;
      prompts_lem = h.prompts_lem;
      switches_lem = h.switches_lem;
    }

    retire_now :
        (new old : Option ℕ) (w : World S P)
        → IsOne g.clients old
        → Served t g old k l w
        → Sure (Stays old k l) (retire driver new w.node.active_client w)
    retire_now new old w lt h =
        subst (λ o. Sure (Stays old k l) (retire driver new o w)) (sym h.active_lem)
          (retire-Stays new old w lt h)

    born :
        (new : Option ℕ) (i : ℕ) (w : World S P)
        → new ≡ some i
        → IsOne g.clients new
        → Served t g new k l w
        → Sure (Stays new k l) (publish_birth driver w)
    born none i w e lt h = absurd cc e
    born (some j) i w e lt h = publish_birth-Stays j w lt h

    pub set_active_client-Stays :
        (new old : Option ℕ) (w : World S P)
        → IsOne g.clients new
        → IsOne g.clients old
        → Served t g old k l w
        → Sure (Stays new k l) (set_active_client driver new w)
    unfolding set_active_client
    set_active_client-Stays new old w lt lt' h = Sure-then (retire_now new old w lt' h) (λ x p.
        Sure-elim new _ _ (record (x.0) { node = record (x.0.node) { active_client = new } })
          (λ e. Sure-some _ (switched-Served old new x.0 p))
          (λ i e. born new i _ e lt (switched-Served old new x.0 p)))

    pub deactivate_client-Served :
        (i : ℕ) (a : Option ℕ) (w : World S P)
        → IsOne g.clients a
        → Served t g a k l w
        → Sure
            (λ (y : World S P × Unit {0}).
              (b : Option ℕ) × IsOne g.clients b × Served t g b k l y.0)
            (deactivate_client driver i w)
    unfolding deactivate_client
    deactivate_client-Served i a w lt h =
        Sure-if (same_client (some i) w.node.active_client) _ _ w
          (λ e. let (x, r, p) = set_active_client-Stays none a w tt lt h in (x, r, (none, tt, p)))
          (λ e. Sure-some (w, tt) (a, lt, h))

    pub activate_client-Served :
        (i : ℕ) (a : Option ℕ) (w : World S P)
        → i < g.clients
        → Served t g a k l w
        → Sure
            (λ (y : World S P × Unit {0}). (m : ℕ) × Served t g a k m y.0)
            (activate_client driver i w)
    unfolding activate_client
    activate_client-Served i a w lt h =
        Sure-then
          (Sure-unprompted t i (always driver.activate) lt
            (λ c. (driver.activate c, refl, conserves.activate_lem c, answers.activate_lem c)) w h)
          (λ x p. Sure-some (x.0, tt) p)
