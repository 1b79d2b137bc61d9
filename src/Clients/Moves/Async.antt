-- ===== src/Clients/Moves/Async.antt =====
-- src/clients/PahoAsyncClient.cpp: the flow of requests through its methods and callbacks.
use cpp_sparkplug.Prelude.{ℕ, Bytes, not, some, [], ◌≡◌, refl}
use cpp_sparkplug.Tahu.{Tahu}
use cpp_sparkplug.Clients.State.{ClientState, same_state, ClientOptions, is_success}
use cpp_sparkplug.Clients.{Context, set_state}
use cpp_sparkplug.Clients.Flow.{Flow, Flow_trans, Flow_silent, Flow_refl, Flow_of}
use cpp_sparkplug.Clients.Moves.{
  Flows, Flow_if_pair, set_state-Flow, activated-Flow, connected-Flow, message_received-Flow,
  on_disconnect-Flow, dump_queue-Flow, on_delivery-Flow, on_delivery_failure-Flow,
}
use cpp_sparkplug.Clients.PahoAsync
use cpp_sparkplug.Clients.PahoAsync.{
  PahoLibrary, Notice, delivery_complete, delivery_failure, message_arrived, connection_lost,
  connection_success, connection_failure, command_subscribed, ignored,
}

module _ {S : Type 0} (lib : PahoLibrary S) where
  library-Flow : (c : Context S) (s : S) → Flow [] c (record c { library = s })
  library-Flow c s = Flow_silent (refl, refl, refl)

  pub destroy-Flow : (c : Context S) → Flow [] c (PahoAsync.destroy lib c)
  unfolding PahoAsync.destroy
  destroy-Flow c =
      Flow_trans (library-Flow c _) (Flow_trans (dump_queue-Flow _) (dump_queue-Flow _))

  pub subscribe_to_primary_host-Flow : Flows (PahoAsync.subscribe_to_primary_host lib)
  unfolding PahoAsync.subscribe_to_primary_host
  subscribe_to_primary_host-Flow c = Flow_if_pair _ _ _ (library-Flow c _) (library-Flow c _)

  pub subscribe_to_commands-Flow : Flows (PahoAsync.subscribe_to_commands lib)
  unfolding PahoAsync.subscribe_to_commands
  subscribe_to_commands-Flow c = Flow_if_pair _ _ _ (library-Flow c _) (library-Flow c _)

  pub unsubscribe_to_commands-Flow : Flows (PahoAsync.unsubscribe_to_commands lib)
  unfolding PahoAsync.unsubscribe_to_commands
  unsubscribe_to_commands-Flow c = Flow_if_pair _ _ _ (library-Flow c _) (library-Flow c _)

  pub configure_client-Flow : (o : ClientOptions) → Flows (PahoAsync.configure_client lib o)
  unfolding PahoAsync.configure_client
  configure_client-Flow o c =
      let made = lib.create o.address.address o.client_id c.library in
      let called = lib.set_callbacks made.0 in
      Flow_if_pair (not (is_success made.1)) _ _ (library-Flow c _)
        (Flow_if_pair (is_success called.1) _ _ (library-Flow c _) (library-Flow c _))

  pub client_connect-Flow : Flows (PahoAsync.client_connect lib)
  unfolding PahoAsync.client_connect
  client_connect-Flow c =
      let d = set_state ClientState.connecting c in
      let p : Flow [] c (record d { library = (lib.connect d.library).0 }) =
        Flow_trans (set_state-Flow ClientState.connecting c) (library-Flow d _) in
      Flow_if_pair (not (same_state c.client.state ClientState.disconnected)) _ _ (Flow_refl c)
        (Flow_if_pair (is_success (lib.connect d.library).1) _ _ p p)

  pub client_disconnect-Flow : Flows (PahoAsync.client_disconnect lib)
  unfolding PahoAsync.client_disconnect
  client_disconnect-Flow c =
      let d = set_state ClientState.disconnecting c in
      let p : Flow [] c (record d { library = (lib.disconnect d.library).0 }) =
        Flow_trans (set_state-Flow ClientState.disconnecting c) (library-Flow d _) in
      Flow_if_pair _ _ _ p p

  pub on_notice-Flow :
      (t : Tahu) (int64_bytes : ℕ → Bytes) (fuel : ℕ) (n : Notice) (c c' : Context S)
      → PahoAsync.on_notice lib t int64_bytes fuel n c ≡ some c'
      → Flow [] c c'
  unfolding PahoAsync.on_notice
  on_notice-Flow t b fuel (delivery_complete token) c c' e =
      on_delivery-Flow t b _ fuel token c c' e
  on_notice-Flow t b fuel (delivery_failure token) c c' e =
      on_delivery_failure-Flow t b _ fuel token c c' e
  on_notice-Flow t b fuel (message_arrived topic payload) c c' e =
      Flow_of e refl (message_received-Flow topic payload c)
  on_notice-Flow t b fuel connection_lost c c' e = Flow_of e refl (on_disconnect-Flow c)
  on_notice-Flow t b fuel connection_success c c' e =
      Flow_of e refl (connected-Flow _ subscribe_to_primary_host-Flow c)
  on_notice-Flow t b fuel connection_failure c c' e =
      Flow_of e refl (set_state-Flow ClientState.disconnected c)
  on_notice-Flow t b fuel command_subscribed c c' e = Flow_of e refl (activated-Flow c)
  on_notice-Flow t b fuel ignored c c' e = Flow_of e refl (Flow_refl c)
