-- ===== src/Clients/Connection.antt =====
-- clients/SparkplugClient.cpp with PahoSyncClient.cpp and PahoAsyncClient.cpp: what the results of the
-- virtual methods do to connect, activate and deactivate. The methods of the Paho clients report a
-- failure by EXIT_FAILURE, which is 1, and the base class looks for a negative result.
use cpp_sparkplug.Prelude.{
  ℕ, Bytes, true, false, some, ◌≡◌, refl, ap, ◌∙◌, arith, if◌then◌else◌, Bool-cases, inl, inr,
}
use cpp_sparkplug.Prelude.Int.{pos}
use cpp_sparkplug.Tahu.{Tahu}
use cpp_sparkplug.Clients.State.{ClientState, same_state, is_success}
use cpp_sparkplug.Clients.{Context, connect, activate, deactivate, execute}
use cpp_sparkplug.Clients.Queue.{Transport, publish_from_queue, settle}
use cpp_sparkplug.Clients.PahoSync
use cpp_sparkplug.Clients.PahoAsync

module _ {S : Type 0} where
  -- A configured PahoSyncClient that is disconnected ends a call of connect as CONNECTING and
  -- returns 0, whether the library connects or not.
  connect-PahoSync :
      (lib : PahoSync.PahoLibrary S) (c : Context S)
      → c.client.state ≡ ClientState.disconnected
      → c.client.configured ≡ true
      → ((connect (PahoSync.client_connect lib) c).0.client.state ≡ ClientState.connecting)
        × ((connect (PahoSync.client_connect lib) c).1 ≡ pos 0)
  unfolding connect PahoSync.client_connect
  connect-PahoSync lib c s k = ground arith

  refused :
      (lib : PahoAsync.PahoLibrary S) (c : Context S)
      → c.client.state ≡ ClientState.disconnected
      → c.client.configured ≡ true
      → is_success (lib.connect c.library).1 ≡ false
      → (connect (PahoAsync.client_connect lib) c).0.client.state ≡ ClientState.connecting
  unfolding connect PahoAsync.client_connect
  refused lib c s k f = ground arith

  -- When the library of a configured PahoAsyncClient refuses to connect, `execute` leaves the client
  -- CONNECTING, and from then on `execute` does nothing.
  pub execute-PahoAsync :
      (lib : PahoAsync.PahoLibrary S) (c : Context S)
      → c.client.state ≡ ClientState.disconnected
      → c.client.configured ≡ true
      → is_success (lib.connect c.library).1 ≡ false
      → (c' : Context S) × (execute (PahoAsync.client_connect lib) (PahoAsync.sync lib) c ≡ some c')
        × (c'.client.state ≡ ClientState.connecting)
        × (execute (PahoAsync.client_connect lib) (PahoAsync.sync lib) c' ≡ some c')
  unfolding execute
  execute-PahoAsync lib c s k f =
      let c1 : Context S = (connect (PahoAsync.client_connect lib) c).0 in
      let state : c1.client.state ≡ ClientState.connecting = refused lib c s k f in
      (
        c1,
        ap (λ b. some (if b then c1 else c)) (ap (λ x. same_state x ClientState.disconnected) s),
        state,
        ap
            (λ x. some (
              if same_state x ClientState.disconnected
              then (connect (PahoAsync.client_connect lib) c1).0
              else c1))
            state,
      )

  -- Activating a PahoSyncClient that is not primary returns 0 and makes it primary, also when the
  -- library refuses the subscription; then nothing tells the handler.
  activate-PahoSync :
      (lib : PahoSync.PahoLibrary S) (c : Context S)
      → c.client.is_primary ≡ false
      → let topics = c.client.topics in
        is_success
            (lib.subscribe_many topics.node_command_topic topics.device_command_topic c.library).1
          ≡ false
        → let (c', code) = activate (PahoSync.subscribe_to_commands lib) c in
          (c'.client.is_primary ≡ true) × (code ≡ pos 0) × (c'.events ≡ c.events)
  unfolding activate PahoSync.subscribe_to_commands
  activate-PahoSync lib c p f = ground arith

  deactivated :
      (lib : PahoSync.PahoLibrary S) (c : Context S)
      → c.client.is_primary ≡ true
      → let topics = c.client.topics in
        is_success
            (lib.unsubscribe_many topics.node_command_topic topics.device_command_topic c.library).1
          ≡ true
        → let (c', code) = deactivate (PahoSync.unsubscribe_to_commands lib) c in
          (code ≡ pos 0)
          × (c'.client.is_primary ≡ false)
          × (c'.client.publish_queue ≡ c.client.publish_queue)
          × (c'.events ≡ c.events)
  unfolding deactivate PahoSync.unsubscribe_to_commands
  deactivated lib c p u = ground arith

  passive_publish :
      (t : Tahu) (int64_bytes : ℕ → Bytes) (net : Transport S) (fuel : ℕ) (c : Context S)
      → c.client.is_primary ≡ false
      → (d : Context S) × (publish_from_queue t int64_bytes net fuel c ≡ some d)
        × (d.client.publish_queue ≡ c.client.publish_queue)
        × (d.library ≡ c.library)
        × (d.events ≡ c.events)
  unfolding publish_from_queue settle
  passive_publish t int64_bytes net fuel c p = elim (Bool-cases (net.is_connected c.library)) [
    | inr down ↦ (c, ground arith, refl, refl, refl)
    | inl up ↦ (settle c, ground arith, ground arith, ground arith, ground arith)
  ]

  -- Deactivating a primary PahoSyncClient from which the library takes the subscriptions leaves its
  -- queue as it is and reports none of its requests; and publishFromQueue then sends nothing of the
  -- queue, and reports nothing either.
  pub deactivate-PahoSync :
      (t : Tahu) (int64_bytes : ℕ → Bytes) (lib : PahoSync.PahoLibrary S) (fuel : ℕ) (c : Context S)
      → c.client.is_primary ≡ true
      → let topics = c.client.topics in
        is_success
            (lib.unsubscribe_many topics.node_command_topic topics.device_command_topic c.library).1
          ≡ true
        → let c' = (deactivate (PahoSync.unsubscribe_to_commands lib) c).0 in
          (c'.client.publish_queue ≡ c.client.publish_queue)
          × (c'.events ≡ c.events)
          × ((d : Context S) × (publish_from_queue t int64_bytes (PahoSync.transport lib) fuel c'
                ≡ some d)
              × (d.client.publish_queue ≡ c.client.publish_queue)
              × (d.library ≡ c'.library)
              × (d.events ≡ c.events))
  deactivate-PahoSync t int64_bytes lib fuel c p u =
      let (_, passive, queue, events) = deactivated lib c p u in
      let c' = (deactivate (PahoSync.unsubscribe_to_commands lib) c).0 in
      let (d, s, q, l, e) =
        passive_publish t int64_bytes (PahoSync.transport lib) fuel c' passive in
      (queue, events, (d, s, q ∙ queue, l, e ∙ events))
