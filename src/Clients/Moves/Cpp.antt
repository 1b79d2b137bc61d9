-- ===== src/Clients/Moves/Cpp.antt =====
-- src/clients/CppMqttClient.cpp: the flow of requests through its methods and callbacks.
use cpp_sparkplug.Prelude.{
  ℕ, zero, suc, Bytes, Option, none, some, subst, arith, then_some, ap, sym, ◌∙◌, [], ◌≡◌, refl,
}
use cpp_sparkplug.Prelude.Int.{negsuc, eq_ℤ}
use cpp_sparkplug.Tahu.{Tahu}
use cpp_sparkplug.Clients.State.{ClientState, ClientOptions}
use cpp_sparkplug.Clients.{Context, set_state, get_will_payload}
use cpp_sparkplug.Clients.Flow.{Flow, Flow_trans, Flow_silent, Flow_refl, Flow_of}
use cpp_sparkplug.Clients.Moves.{
  Flows, Flow_if, Flow_if_pair, set_state-Flow, activated-Flow, connected-Flow,
  message_received-Flow, on_disconnect-Flow, on_delivery-Flow, on_delivery_failure-Flow,
}
use cpp_sparkplug.Clients.CppMqtt
use cpp_sparkplug.Clients.CppMqtt.{
  MqttLibrary, Notice, connection_success, connection_failure, disconnection, unsubscribe_result,
  message, delivery_complete, delivery_failure, subscribe_result,
}

module _ {S : Type 0} (lib : MqttLibrary S) where
  library-Flow : (c : Context S) (s : S) → Flow [] c (record c { library = s })
  library-Flow c s = Flow_silent (refl, refl, refl)

  pub client_connect-Flow : (o : ClientOptions) → Flows (CppMqtt.client_connect lib o)
  unfolding CppMqtt.client_connect
  client_connect-Flow o c = Flow_if_pair _ _ _ (library-Flow c _) (library-Flow c _)

  pub client_disconnect-Flow : Flows (CppMqtt.client_disconnect lib)
  unfolding CppMqtt.client_disconnect
  client_disconnect-Flow c =
      let d = set_state ClientState.disconnecting c in
      Flow_if_pair _ _ _ (Flow_refl c)
        (Flow_trans (set_state-Flow ClientState.disconnecting c) (library-Flow d _))

  pub subscribe_to_primary_host-Flow : Flows (CppMqtt.subscribe_to_primary_host lib)
  unfolding CppMqtt.subscribe_to_primary_host
  subscribe_to_primary_host-Flow c = Flow_if_pair _ _ _ (library-Flow c _) (library-Flow c _)

  pub subscribe_to_commands-Flow : Flows (CppMqtt.subscribe_to_commands lib)
  unfolding CppMqtt.subscribe_to_commands
  subscribe_to_commands-Flow c =
      let called =
        lib.subscribe_commands c.client.topics.node_command_topic
          c.client.topics.device_command_topic c.library in
      Flow_if_pair (eq_ℤ called.1 (negsuc 0)) _ _ (library-Flow c _)
        (Flow_silent (refl, refl, refl))

  pub unsubscribe_to_commands-Flow : Flows (CppMqtt.unsubscribe_to_commands lib)
  unfolding CppMqtt.unsubscribe_to_commands
  unsubscribe_to_commands-Flow c = Flow_refl c

  pub destroy-Flow : (c : Context S) → Flow [] c (CppMqtt.destroy lib c)
  unfolding CppMqtt.destroy
  destroy-Flow c = Flow_refl c

  pub configure_client-Flow :
      (t : Tahu) (int64_bytes : ℕ → Bytes) (o : ClientOptions)
      → Flows (CppMqtt.configure_client lib t int64_bytes o)
  unfolding CppMqtt.configure_client get_will_payload
  configure_client-Flow t b o c = Flow_silent (refl, refl, refl)

  pub on_notice-Flow :
      (t : Tahu) (int64_bytes : ℕ → Bytes) (fuel : ℕ) (n : Notice) (c c' : Context S)
      → CppMqtt.on_notice lib t int64_bytes fuel n c ≡ some c'
      → Flow [] c c'
  unfolding CppMqtt.on_notice
  on_notice-Flow t b fuel connection_success c c' e =
      Flow_of e refl (connected-Flow _ subscribe_to_primary_host-Flow c)
  on_notice-Flow t b fuel connection_failure c c' e =
      Flow_of e refl (set_state-Flow ClientState.disconnected c)
  on_notice-Flow t b fuel disconnection c c' e = Flow_of e refl (on_disconnect-Flow c)
  on_notice-Flow t b fuel (message topic payload) c c' e =
      Flow_of e refl (message_received-Flow topic payload c)
  on_notice-Flow t b fuel (delivery_complete token) c c' e =
      on_delivery-Flow t b _ fuel token c c' e
  on_notice-Flow t b fuel (delivery_failure token) c c' e =
      on_delivery_failure-Flow t b _ fuel token c c' e
  on_notice-Flow t b fuel (subscribe_result token) c c' e =
      Flow_of e refl (Flow_if _ (activated-Flow c) (Flow_refl c))
  on_notice-Flow t b fuel unsubscribe_result c c' e = Flow_of e refl (Flow_refl c)

  -- A call of the handler in `sync`, and the rest of it.
  pub sync_next :
      (t : Tahu) (int64_bytes : ℕ → Bytes) (fuel calls : ℕ) (n : Notice) (c c' : Context S)
      → (lib.sync c.library).1 ≡ some n
      → CppMqtt.sync lib t int64_bytes fuel (suc calls) c ≡ some c'
      → let d : Context S = record c { library = (lib.sync c.library).0 } in
        (x : Context S) × (CppMqtt.on_notice lib t int64_bytes fuel n d ≡ some x)
        × (CppMqtt.sync lib t int64_bytes fuel calls x ≡ some c')
  unfolding CppMqtt.sync
  sync_next t b fuel calls n c c' o e =
      let d : Context S = record c { library = (lib.sync c.library).0 } in
      let opened =
        ap
          (λ (x : Option Notice). elim x as (λ y. Option (Context S)) [
            | none ↦ some d
            | some m ↦ elim (CppMqtt.on_notice lib t b fuel m d) [
              | none ↦ none
              | some y ↦ CppMqtt.sync lib t b fuel calls y
            ]
          ])
          o in
      then_some (CppMqtt.on_notice lib t b fuel n d) (CppMqtt.sync lib t b fuel calls) c'
        (sym opened ∙ e)

  synced :
      (t : Tahu) (int64_bytes : ℕ → Bytes) (fuel calls : ℕ) (c c' : Context S) (o : Option Notice)
      → ((d : Context S) → CppMqtt.sync lib t int64_bytes fuel calls d ≡ some c' → Flow [] d c')
      → (lib.sync c.library).1 ≡ o
      → CppMqtt.sync lib t int64_bytes fuel (suc calls) c ≡ some c'
      → Flow [] c c'
  unfolding CppMqtt.sync
  synced t b fuel calls c c' none later o e =
      let d : Context S = record c { library = (lib.sync c.library).0 } in
      let same : d ≡ c' = ground (arith, o, e) in subst (Flow [] c) same (library-Flow c _)
  synced t b fuel calls c c' (some n) later o e =
      let d : Context S = record c { library = (lib.sync c.library).0 } in
      let (x, first, rest) = sync_next t b fuel calls n c c' o e in
      Flow_trans (library-Flow c _)
        (Flow_trans (on_notice-Flow t b fuel n d x first) (later x rest))

  pub sync-Flow :
      (t : Tahu) (int64_bytes : ℕ → Bytes) (fuel calls : ℕ) (c c' : Context S)
      → CppMqtt.sync lib t int64_bytes fuel calls c ≡ some c'
      → Flow [] c c'
  unfolding CppMqtt.sync
  sync-Flow t b fuel zero c c' e = cc e
  sync-Flow t b fuel (suc calls) c c' e =
      synced t b fuel calls c c' (lib.sync c.library).1 (λ d. sync-Flow t b fuel calls d c') refl e
