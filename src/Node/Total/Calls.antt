-- ===== src/Node/Total/Calls.antt =====
-- src/Node.cpp: a call of a client, from a node whose methods return.
use cpp_sparkplug.Prelude.{
  ℕ, ◌+◌, ◌<◌, Option, some, List, [], ◌∷◌, ◌++◌, ◌≡◌, refl, ap, sym, subst, ◌∙◌, arith,
}
use cpp_sparkplug.Tahu.{Tahu}
use cpp_sparkplug.Clients.State.{
  Source, Event, client_message, client_connected, client_disconnected, client_active,
  client_deactive, client_delivered, client_undelivered,
}
use cpp_sparkplug.Clients.{Client, Context}
use cpp_sparkplug.Clients.Flow.{Flow}
use cpp_sparkplug.Node.World.{World, get_client, with_client, context, leave, tagged}
use cpp_sparkplug.Node.Answers.{prompts, switches}
use cpp_sparkplug.Node.Ledger.{untagged}
use cpp_sparkplug.Node.Total.{
  Setting, Sure, AreServed, EventsName, Served, Kept-name, get_client-some, length-set_client,
}

prompts-tagged :
    (i : ℕ) (q : List (ℕ × Event)) (es : List Event)
    → prompts (untagged (q ++ tagged i es)) ≡ prompts (untagged q) + prompts es
prompts-tagged i [] [] = refl
prompts-tagged i [] (client_message topic payload ∷ es) = omega (arith, prompts-tagged i [] es)
prompts-tagged i [] (client_connected ∷ es) = omega (arith, prompts-tagged i [] es)
prompts-tagged i [] (client_disconnected ∷ es) = prompts-tagged i [] es
prompts-tagged i [] (client_active ∷ es) = prompts-tagged i [] es
prompts-tagged i [] (client_deactive ∷ es) = prompts-tagged i [] es
prompts-tagged i [] (client_delivered s ∷ es) = prompts-tagged i [] es
prompts-tagged i [] (client_undelivered s ∷ es) = prompts-tagged i [] es
prompts-tagged i ((j, client_message topic payload) ∷ q) es = omega (arith, prompts-tagged i q es)
prompts-tagged i ((j, client_connected) ∷ q) es = omega (arith, prompts-tagged i q es)
prompts-tagged i ((j, client_disconnected) ∷ q) es = prompts-tagged i q es
prompts-tagged i ((j, client_active) ∷ q) es = prompts-tagged i q es
prompts-tagged i ((j, client_deactive) ∷ q) es = prompts-tagged i q es
prompts-tagged i ((j, client_delivered s) ∷ q) es = prompts-tagged i q es
prompts-tagged i ((j, client_undelivered s) ∷ q) es = prompts-tagged i q es

pub switches-tagged :
    (i : ℕ) (q : List (ℕ × Event)) (es : List Event)
    → switches (untagged (q ++ tagged i es)) ≡ switches (untagged q) + switches es
switches-tagged i [] [] = refl
switches-tagged i [] (client_message topic payload ∷ es) = switches-tagged i [] es
switches-tagged i [] (client_connected ∷ es) = switches-tagged i [] es
switches-tagged i [] (client_disconnected ∷ es) = omega (arith, switches-tagged i [] es)
switches-tagged i [] (client_active ∷ es) = omega (arith, switches-tagged i [] es)
switches-tagged i [] (client_deactive ∷ es) = switches-tagged i [] es
switches-tagged i [] (client_delivered s ∷ es) = switches-tagged i [] es
switches-tagged i [] (client_undelivered s ∷ es) = switches-tagged i [] es
switches-tagged i ((j, client_message topic payload) ∷ q) es = switches-tagged i q es
switches-tagged i ((j, client_connected) ∷ q) es = switches-tagged i q es
switches-tagged i ((j, client_disconnected) ∷ q) es = omega (arith, switches-tagged i q es)
switches-tagged i ((j, client_active) ∷ q) es = omega (arith, switches-tagged i q es)
switches-tagged i ((j, client_deactive) ∷ q) es = switches-tagged i q es
switches-tagged i ((j, client_delivered s) ∷ q) es = switches-tagged i q es
switches-tagged i ((j, client_undelivered s) ∷ q) es = switches-tagged i q es

module _ (t : Tahu) where
  pub AreServed-tagged :
      (n i : ℕ) (q : List (ℕ × Event)) (es : List Event)
      → i < n
      → EventsName t es
      → AreServed t n q
      → AreServed t n (q ++ tagged i es)
  AreServed-tagged n i [] [] lt h s = tt
  AreServed-tagged n i [] (client_message topic payload ∷ es) lt (h, hs) s =
      (lt, h, AreServed-tagged n i [] es lt hs tt)
  AreServed-tagged n i [] (client_connected ∷ es) lt h s = (lt, AreServed-tagged n i [] es lt h tt)
  AreServed-tagged n i [] (client_disconnected ∷ es) lt h s =
      (lt, AreServed-tagged n i [] es lt h tt)
  AreServed-tagged n i [] (client_active ∷ es) lt h s = (lt, AreServed-tagged n i [] es lt h tt)
  AreServed-tagged n i [] (client_deactive ∷ es) lt h s = (lt, AreServed-tagged n i [] es lt h tt)
  AreServed-tagged n i [] (client_delivered x ∷ es) lt h s =
      (lt, AreServed-tagged n i [] es lt h tt)
  AreServed-tagged n i [] (client_undelivered x ∷ es) lt h s =
      (lt, AreServed-tagged n i [] es lt h tt)
  AreServed-tagged n i ((j, client_message topic payload) ∷ q) es lt h (b, m, s) =
      (b, m, AreServed-tagged n i q es lt h s)
  AreServed-tagged n i ((j, client_connected) ∷ q) es lt h (b, s) =
      (b, AreServed-tagged n i q es lt h s)
  AreServed-tagged n i ((j, client_disconnected) ∷ q) es lt h (b, s) =
      (b, AreServed-tagged n i q es lt h s)
  AreServed-tagged n i ((j, client_active) ∷ q) es lt h (b, s) =
      (b, AreServed-tagged n i q es lt h s)
  AreServed-tagged n i ((j, client_deactive) ∷ q) es lt h (b, s) =
      (b, AreServed-tagged n i q es lt h s)
  AreServed-tagged n i ((j, client_delivered x) ∷ q) es lt h (b, s) =
      (b, AreServed-tagged n i q es lt h s)
  AreServed-tagged n i ((j, client_undelivered x) ∷ q) es lt h (b, s) =
      (b, AreServed-tagged n i q es lt h s)

  pub unprompted : (es : List Event) → prompts es ≡ 0 → EventsName t es
  unprompted [] e = tt
  unprompted (client_message topic payload ∷ es) e = absurd (omega (arith, e))
  unprompted (client_connected ∷ es) e = absurd (omega (arith, e))
  unprompted (client_disconnected ∷ es) e = unprompted es e
  unprompted (client_active ∷ es) e = unprompted es e
  unprompted (client_deactive ∷ es) e = unprompted es e
  unprompted (client_delivered s ∷ es) e = unprompted es e
  unprompted (client_undelivered s ∷ es) e = unprompted es e

  module _ {S P : Type 0} {g : Setting} {a : Option ℕ} {k l : ℕ} where
    -- The events of the call come after those before it.
    pub leave-Served :
        {rs : List Source} (i : ℕ) (x : Client × S) (c : Context S) (w : World S P)
        → i < g.clients
        → Flow rs (context w x) c
        → EventsName t c.events
        → Served t g a k l w
        → Served t g a (k + prompts c.events) (l + switches c.events) (leave i c w)
    leave-Served i x c w lt f named h = record {
      count_lem = length-set_client i (c.client, c.library) w.clients ∙ h.count_lem;
      active_lem = h.active_lem;
      queue_lem = AreServed-tagged g.clients i w.node.event_queue c.events lt named h.queue_lem;
      names_lem = λ s. Kept-name (f.kept_lem s) ∙ h.names_lem s;
      devices_lem = h.devices_lem;
      enabled_lem = h.enabled_lem;
      running_lem = h.running_lem;
      prompts_lem =
          prompts-tagged i w.node.event_queue c.events
          ∙ ap (λ j. j + prompts c.events) h.prompts_lem;
      switches_lem =
          switches-tagged i w.node.event_queue c.events
          ∙ ap (λ j. j + switches c.events) h.switches_lem;
    }

    -- The client of a number.
    pub client_of :
        (i : ℕ) (w : World S P)
        → i < g.clients
        → Served t g a k l w
        → (x : Client × S) × (get_client i w.clients ≡ some x)
    client_of i w lt h = get_client-some i w.clients (subst (λ m. i < m) (sym h.count_lem) lt)

    -- A call that raises outcomes only.
    pub Sure-quiet :
        {A : Type 0} {rs : List Source} (i : ℕ) (f : Context S → Option (Context S × A))
        → i < g.clients
        → ((c : Context S)
            → (x : Context S × A) × (f c ≡ some x)
              × Flow rs c x.0
              × (prompts x.0.events ≡ prompts c.events)
              × (switches x.0.events ≡ switches c.events))
        → (w : World S P) → Served t g a k l w
        → Sure (λ (y : World S P × A). Served t g a k l y.0) (with_client i f w)
    unfolding with_client
    Sure-quiet i f lt total w h =
        let (x, found) = client_of i w lt h in
        let (y, called, flow, p, s) = total (context w x) in
        let first : k + prompts y.0.events ≡ k = omega (arith, p) in
        let second : l + switches y.0.events ≡ l = omega (arith, s) in
        (
          (leave i y.0 w, y.1),
          ground (arith, found, called),
          subst (λ b. Served t g a k b (leave i y.0 w)) second
              (subst (λ b. Served t g a b (l + switches y.0.events) (leave i y.0 w)) first
                (leave-Served i x y.0 w lt flow (unprompted y.0.events p) h)),
        )

    -- A call that may also say that the client is active.
    pub Sure-unprompted :
        {A : Type 0} {rs : List Source} (i : ℕ) (f : Context S → Option (Context S × A))
        → i < g.clients
        → ((c : Context S)
            → (x : Context S × A) × (f c ≡ some x)
              × Flow rs c x.0
              × (prompts x.0.events ≡ prompts c.events))
        → (w : World S P) → Served t g a k l w
        → Sure (λ (y : World S P × A). (m : ℕ) × Served t g a k m y.0) (with_client i f w)
    unfolding with_client
    Sure-unprompted i f lt total w h =
        let (x, found) = client_of i w lt h in
        let (y, called, flow, p) = total (context w x) in
        let first : k + prompts y.0.events ≡ k = omega (arith, p) in
        (
          (leave i y.0 w, y.1),
          ground (arith, found, called),
          (
            l + switches y.0.events,
            subst (λ b. Served t g a b (l + switches y.0.events) (leave i y.0 w)) first
                (leave-Served i x y.0 w lt flow (unprompted y.0.events p) h),
          ),
        )
