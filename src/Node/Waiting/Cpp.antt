-- ===== src/Node/Waiting/Cpp.antt =====
-- src/clients/CppMqttClient.cpp: the client waits, with the calls of its handler.
use cpp_sparkplug.Prelude.{
  ℕ, Bytes, false, zero, suc, none, some, ◌≡◌, refl, subst, arith, if◌then◌else◌,
}
use cpp_sparkplug.Tahu.{Tahu}
use cpp_sparkplug.Clients.State.{ClientState, client_message, ClientOptions}
use cpp_sparkplug.Clients.{Context, message_received, get_will_payload}
use cpp_sparkplug.Clients.CppMqtt
use cpp_sparkplug.Node.Drivers.{cpp_driver}
use cpp_sparkplug.Node.Waiting.{is_online, IsUnheard, Waits}
use cpp_sparkplug.Node.Waiting.Clients.{
  Unheards, set_state-IsUnheard, raise-IsUnheard, on_disconnect-IsUnheard, connected-IsUnheard,
  activated-IsUnheard, returned-IsUnheard, disconnect-IsUnheard, deactivate-IsUnheard,
  configure-IsUnheard, execute-IsUnheard,
}
use cpp_sparkplug.Clients.Moves.Cpp.{sync_next}
use cpp_sparkplug.Prelude.{Option, true, Bool}
use cpp_sparkplug.Prelude.Int.{eq_ℤ}
use cpp_sparkplug.Node.Waiting.Drivers.{no_front, no_failure}

-- A call of the handler that is no message of the host that it is online.
abbrev pub IsOfflineCpp : Bytes → CppMqtt.Notice → Type 0
IsOfflineCpp host (CppMqtt.message topic payload) = is_online host topic payload ≡ false
IsOfflineCpp host _ = Unit {0}

module _ {S : Type 0} (host : Bytes) (t : Tahu) (int64_bytes : ℕ → Bytes) (options : ClientOptions)
    (fuel : ℕ) where
  chosen :
      (b : Bool) (c d : Context S)
      → IsUnheard host c
      → IsUnheard host d
      → IsUnheard host (if b then c else d)
  chosen true c d h k = h
  chosen false c d h k = k

  module _ (lib : CppMqtt.MqttLibrary S) where
    cpp_subscribed-Unheards : Unheards host (CppMqtt.subscribe_to_primary_host lib)
    unfolding CppMqtt.subscribe_to_primary_host
    cpp_subscribed-Unheards c h = ground (arith, h)

    pub cpp_on_notice-IsUnheard :
        (n : CppMqtt.Notice) (c c' : Context S)
        → IsOfflineCpp host n
        → CppMqtt.on_notice lib t int64_bytes fuel n c ≡ some c'
        → IsUnheard host c
        → IsUnheard host c'
    unfolding CppMqtt.on_notice message_received
    cpp_on_notice-IsUnheard (CppMqtt.delivery_complete token) c c' o e h =
        no_front host t int64_bytes options fuel (CppMqtt.transport lib) token
          c.client.publish_queue c c' refl h.0.1 e
    cpp_on_notice-IsUnheard (CppMqtt.delivery_failure token) c c' o e h =
        no_failure host t int64_bytes options fuel (CppMqtt.transport lib) token c c' e h
    cpp_on_notice-IsUnheard (CppMqtt.message topic payload) c c' o e h =
        returned-IsUnheard host e
          (raise-IsUnheard host (client_message topic payload) c (ground (arith, o)) h)
    cpp_on_notice-IsUnheard CppMqtt.disconnection c c' o e h =
        returned-IsUnheard host e (on_disconnect-IsUnheard host c h)
    cpp_on_notice-IsUnheard CppMqtt.connection_success c c' o e h = returned-IsUnheard host e (
        connected-IsUnheard host (CppMqtt.subscribe_to_primary_host lib) cpp_subscribed-Unheards c
          h)
    cpp_on_notice-IsUnheard CppMqtt.connection_failure c c' o e h =
        returned-IsUnheard host e (set_state-IsUnheard host ClientState.disconnected c h)
    cpp_on_notice-IsUnheard (CppMqtt.subscribe_result token) c c' o e h =
        returned-IsUnheard host e
          (chosen (eq_ℤ c.client.subscription_token token) _ c (activated-IsUnheard host c h) h)
    cpp_on_notice-IsUnheard CppMqtt.unsubscribe_result c c' o e h = returned-IsUnheard host e h

    module _
        (never : (s : S) (n : CppMqtt.Notice) → (lib.sync s).1 ≡ some n → IsOfflineCpp host n) where
      cpp_synced :
          (calls : ℕ) (c c' : Context S) (o : Option CppMqtt.Notice)
          → ((d : Context S)
              → CppMqtt.sync lib t int64_bytes fuel calls d ≡ some c'
              → IsUnheard host d
              → IsUnheard host c')
          → (lib.sync c.library).1 ≡ o
          → CppMqtt.sync lib t int64_bytes fuel (suc calls) c ≡ some c'
          → IsUnheard host c
          → IsUnheard host c'
      unfolding CppMqtt.sync
      cpp_synced calls c c' none later o e h =
          let d : Context S = record c { library = (lib.sync c.library).0 } in
          let same : d ≡ c' = ground (arith, o, e) in subst (IsUnheard host) same h
      cpp_synced calls c c' (some n) later o e h =
          let (x, first, rest) = sync_next lib t int64_bytes fuel calls n c c' o e in
          later x rest (cpp_on_notice-IsUnheard n _ x (never c.library n o) first h)

      cpp_sync-IsUnheard :
          (calls : ℕ) (c c' : Context S)
          → CppMqtt.sync lib t int64_bytes fuel calls c ≡ some c'
          → IsUnheard host c
          → IsUnheard host c'
      unfolding CppMqtt.sync
      cpp_sync-IsUnheard zero c c' e h = absurd cc e
      cpp_sync-IsUnheard (suc calls) c c' e h =
          cpp_synced calls c c' (lib.sync c.library).1 (λ d. cpp_sync-IsUnheard calls d c') refl e h

      pub cpp_driver-Waits : Waits host (cpp_driver t int64_bytes options fuel lib)
      unfolding CppMqtt.configure_client CppMqtt.client_disconnect CppMqtt.client_connect
          get_will_payload
      cpp_driver-Waits = record {
        configure_lem = configure-IsUnheard host _ (λ c h. h);
        deactivate_lem = deactivate-IsUnheard host _;
        disconnect_lem =
            disconnect-IsUnheard host _
              (λ c h. ground (arith, h, set_state-IsUnheard host ClientState.disconnecting c h));
        execute_lem =
            execute-IsUnheard host _ _ (λ c h. ground (arith, h)) (cpp_sync-IsUnheard fuel);
      }
