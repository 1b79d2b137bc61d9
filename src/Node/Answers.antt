-- ===== src/Node/Answers.antt =====
-- src/Node.cpp, processEvents: the events by what the node does at them; and what a node needs of a
-- client for its event loop to end: calls that return, and raise no event that would begin anew.
use cpp_sparkplug.Prelude.{
  ℕ, suc, ◌≤◌, Bytes, true, ◌&&◌, ◌==◌, some, List, [], ◌∷◌, ◌++◌, length, ◌≡◌, refl, ap, ◌∙◌,
  arith, Bool-cases, inl, inr,
}
use cpp_sparkplug.Prelude.Int.{ℤ}
use cpp_sparkplug.Tahu.{Tahu}
use cpp_sparkplug.Clients.State.{
  PublishRequest, ClientOptions, Event, client_message, client_connected, client_disconnected,
  client_active, client_deactive, client_delivered, client_undelivered,
}
use cpp_sparkplug.Clients.{Context, set_primary, activate, activated, deactivate}
use cpp_sparkplug.Clients.Queue.{Transport, set_queue, request}
use cpp_sparkplug.Clients.Accounts.{reports, Accounts, total}
use cpp_sparkplug.Clients.Termination.{request-Accounts}
use cpp_sparkplug.Clients.PahoSync
use cpp_sparkplug.Clients.PahoAsync
use cpp_sparkplug.Clients.CppMqtt
use cpp_sparkplug.Node.World.{Driver}
use cpp_sparkplug.Node.Drivers.{sync_driver, async_driver, cpp_driver}

-- The events at which the node may activate a client, or obey a command.
abbrev pub prompts : List Event → ℕ
prompts [] = 0
prompts (client_message topic payload ∷ es) = suc (prompts es)
prompts (client_connected ∷ es) = suc (prompts es)
prompts (client_disconnected ∷ es) = prompts es
prompts (client_active ∷ es) = prompts es
prompts (client_deactive ∷ es) = prompts es
prompts (client_delivered s ∷ es) = prompts es
prompts (client_undelivered s ∷ es) = prompts es

-- The events at which the node changes its active client.
abbrev pub switches : List Event → ℕ
switches [] = 0
switches (client_message topic payload ∷ es) = switches es
switches (client_connected ∷ es) = switches es
switches (client_disconnected ∷ es) = suc (switches es)
switches (client_active ∷ es) = suc (switches es)
switches (client_deactive ∷ es) = switches es
switches (client_delivered s ∷ es) = switches es
switches (client_undelivered s ∷ es) = switches es

prompts-reports :
    (es : List Event) (q : List PublishRequest) → prompts (es ++ reports q) ≡ prompts es
prompts-reports [] [] = refl
prompts-reports [] (r ∷ q) = prompts-reports [] q
prompts-reports (client_message topic payload ∷ es) q = ap suc (prompts-reports es q)
prompts-reports (client_connected ∷ es) q = ap suc (prompts-reports es q)
prompts-reports (client_disconnected ∷ es) q = prompts-reports es q
prompts-reports (client_active ∷ es) q = prompts-reports es q
prompts-reports (client_deactive ∷ es) q = prompts-reports es q
prompts-reports (client_delivered s ∷ es) q = prompts-reports es q
prompts-reports (client_undelivered s ∷ es) q = prompts-reports es q

switches-reports :
    (es : List Event) (q : List PublishRequest) → switches (es ++ reports q) ≡ switches es
switches-reports [] [] = refl
switches-reports [] (r ∷ q) = switches-reports [] q
switches-reports (client_message topic payload ∷ es) q = switches-reports es q
switches-reports (client_connected ∷ es) q = switches-reports es q
switches-reports (client_disconnected ∷ es) q = ap suc (switches-reports es q)
switches-reports (client_active ∷ es) q = ap suc (switches-reports es q)
switches-reports (client_deactive ∷ es) q = switches-reports es q
switches-reports (client_delivered s ∷ es) q = switches-reports es q
switches-reports (client_undelivered s ∷ es) q = switches-reports es q

-- From c to c' only outcomes were raised.
abbrev pub IsQuiet : {S : Type 0} → Context S → Context S → Type 0
IsQuiet c c' = (prompts c'.events ≡ prompts c.events) × (switches c'.events ≡ switches c.events)

-- `request` returns, and it and `deactivate` raise outcomes only; `activate` may also say that the
-- client is active.
pub record Answers {S : Type 0} (driver : Driver S) : Type 0 where
  pub activate_lem : (c : Context S) → prompts (driver.activate c).0.events ≡ prompts c.events
  pub deactivate_lem : (c : Context S) → IsQuiet c (driver.deactivate c).0
  pub request_lem :
      (r : PublishRequest) (c : Context S)
      → (c' : Context S) × (driver.request r c ≡ some c') × IsQuiet c c'

prompts-active : (es : List Event) → prompts (es ++ client_active ∷ []) ≡ prompts es
prompts-active [] = refl
prompts-active (client_message topic payload ∷ es) = ap suc (prompts-active es)
prompts-active (client_connected ∷ es) = ap suc (prompts-active es)
prompts-active (client_disconnected ∷ es) = prompts-active es
prompts-active (client_active ∷ es) = prompts-active es
prompts-active (client_deactive ∷ es) = prompts-active es
prompts-active (client_delivered s ∷ es) = prompts-active es
prompts-active (client_undelivered s ∷ es) = prompts-active es

module _ {S : Type 0} where
  activated-prompts : (c : Context S) → prompts (activated c).events ≡ prompts c.events
  unfolding activated
  activated-prompts c = ground (arith, prompts-active c.events)

  activate-prompts :
      (f : Context S → Context S × ℤ)
      → ((c : Context S) → prompts (f c).0.events ≡ prompts c.events)
      → (c : Context S) → prompts (activate f c).0.events ≡ prompts c.events
  unfolding activate set_primary
  activate-prompts f h c =
      ground (arith, h (record c { client = record (c.client) { is_primary = true } }))

  deactivate-IsQuiet :
      (f : Context S → Context S × ℤ)
      → ((c : Context S) → IsQuiet c (f c).0)
      → (c : Context S) → IsQuiet c (deactivate f c).0
  unfolding deactivate set_primary
  deactivate-IsQuiet f h c = ground (arith, h c)

  module _ (t : Tahu) (int64_bytes : ℕ → Bytes) (net : Transport S) where
    Accounts-IsQuiet : {c c' : Context S} → Accounts c c' → IsQuiet c c'
    Accounts-IsQuiet {c} {c'} a = (
      ap prompts a.events_lem ∙ prompts-reports c.events a.dropped,
      ap switches a.events_lem ∙ switches-reports c.events a.dropped,
    )

    -- Only a request that finds the queue empty is sent within the call.
    alone : (q : List PublishRequest) (r : PublishRequest) → length (q ++ r ∷ []) ≡ 1 → q ≡ []
    alone [] r e = refl
    alone (x ∷ []) r e = absurd (omega (arith, e))
    alone (x ∷ y ∷ q) r e = absurd (omega (arith, e))

    request-Returns :
        (fuel : ℕ)
        → 6 ≤ fuel
        → (r : PublishRequest) (c : Context S)
        → (c' : Context S) × (request t int64_bytes net fuel r c ≡ some c') × IsQuiet c c'
    unfolding request
    request-Returns fuel le r c =
        elim (Bool-cases
          (length (c.client.publish_queue ++ r ∷ []) == 1 && net.is_connected c.library)) [
            | inr wait ↦ (set_queue (c.client.publish_queue ++ r ∷ []) c, rw wait, (refl, refl))
            | inl first ↦
                let empty : c.client.publish_queue ≡ [] =
                  alone c.client.publish_queue r (ground (arith, first)) in
                let (c', e, a) =
                  request-Accounts t int64_bytes net fuel r c
                    (omega (arith, ap (λ (q : List PublishRequest). total (q ++ r ∷ [])) empty)) in
                (c', e, Accounts-IsQuiet a)
          ]

module _ (t : Tahu) (int64_bytes : ℕ → Bytes) {S : Type 0} (options : ClientOptions) (fuel : ℕ)
    (enough : 6 ≤ fuel) where
  pub sync_driver-Answers :
      (lib : PahoSync.PahoLibrary S) (messages : ℕ)
      → Answers (sync_driver t int64_bytes options fuel lib messages)
  unfolding PahoSync.subscribe_to_commands PahoSync.unsubscribe_to_commands
  sync_driver-Answers lib messages = record {
    activate_lem = activate-prompts _ (λ c.
        let topics = c.client.topics in
        let called =
          lib.subscribe_many topics.node_command_topic topics.device_command_topic c.library in
        ground (arith, activated-prompts (record c { library = called.0 })));
    deactivate_lem = deactivate-IsQuiet _ (λ c. ground arith);
    request_lem = request-Returns t int64_bytes (PahoSync.transport lib) fuel enough;
  }

  pub async_driver-Answers :
      (lib : PahoAsync.PahoLibrary S) → Answers (async_driver t int64_bytes options fuel lib)
  unfolding PahoAsync.subscribe_to_commands PahoAsync.unsubscribe_to_commands
  async_driver-Answers lib = record {
    activate_lem = activate-prompts _ (λ c. ground arith);
    deactivate_lem = deactivate-IsQuiet _ (λ c. ground arith);
    request_lem = request-Returns t int64_bytes (PahoAsync.transport lib) fuel enough;
  }

  pub cpp_driver-Answers :
      (lib : CppMqtt.MqttLibrary S) → Answers (cpp_driver t int64_bytes options fuel lib)
  unfolding CppMqtt.subscribe_to_commands CppMqtt.unsubscribe_to_commands
  cpp_driver-Answers lib = record {
    activate_lem = activate-prompts _ (λ c. ground arith);
    deactivate_lem = deactivate-IsQuiet _ (λ c. (refl, refl));
    request_lem = request-Returns t int64_bytes (CppMqtt.transport lib) fuel enough;
  }
