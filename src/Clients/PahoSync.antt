-- ===== src/Clients/PahoSync.antt =====
-- src/clients/PahoSyncClient.cpp: the client over the synchronous Paho library. Its functions
-- MQTTClient_* are the parameter `PahoLibrary`.
use cpp_sparkplug.Prelude.{
  ℕ, zero, suc, Bytes, Bool, true, false, Option, none, some, List, [], ◌∷◌, if◌then◌else◌, not,
}
use cpp_sparkplug.Prelude.Int.{ℤ, pos}
use cpp_sparkplug.Tahu.{Tahu}
use cpp_sparkplug.Clients.State.{
  ClientOptions, ConnectOptions, connect_options, ClientState, same_state, PublishRequest,
  ReturnCode, is_success, is_disconnected_code,
}
use cpp_sparkplug.Clients.{Context, set_state, connected, activated, delivered, message_received}
use cpp_sparkplug.Clients.Queue
use cpp_sparkplug.Clients.Queue.{Transport, set_queue, on_disconnect, publish_from_queue}

-- MQTTClient_receive: a message, or none; `failed` has the code of neither.
pub data Received : Type 0 where
  message : Bytes → Bytes → Received
  empty : Received
  failed : ReturnCode → Received

pub record PahoLibrary (S : Type 0) : Type 0 where
  -- MQTTClient_create(address, client id), and the members that MQTTClient_connect reads
  pub create : Bytes → Bytes → S → S × ReturnCode
  pub set_options : ConnectOptions → S → S
  -- MQTTClient_connect and MQTTClient_disconnect
  pub connect : S → S × ReturnCode
  pub disconnect : S → S × ReturnCode
  -- MQTTClient_subscribe, MQTTClient_subscribeMany and MQTTClient_unsubscribeMany
  pub subscribe : Bytes → S → S × ReturnCode
  pub subscribe_many : Bytes → Bytes → S → S × ReturnCode
  pub unsubscribe_many : Bytes → Bytes → S → S × ReturnCode
  -- MQTTClient_publish: the topic, the buffer and the token before, and the code and token after.
  pub publish : Bytes → Bytes → ℤ → S → S × ReturnCode × ℤ
  -- MQTTClient_waitForCompletion, for a token
  pub wait_for_completion : ℤ → S → S × ReturnCode
  -- MQTTClient_getPendingDeliveryTokens: the tokens, none for NULL, before the -1 at their end.
  pub pending_tokens : S → S × ReturnCode × Option (List ℤ)
  pub receive : S → S × Received
  pub is_connected : S → Bool
  -- MQTTClient_destroy
  pub destroy : S → S

abbrev exit_failure : ℤ
exit_failure = pos 1

module _ {S : Type 0} (lib : PahoLibrary S) where
  -- A call of the library, whose code is 0 or EXIT_FAILURE for the callers.
  abbrev with_library : (S → S × ReturnCode) → Context S → Context S × ReturnCode
  with_library f c = let (s, code) = f c.library in (record c { library = s }, code)

  -- publishMessage: a code other than success calls onDeliveryFailure.
  unfoldable pub transport : Transport S
  transport = record {
    is_connected = lib.is_connected;
    send = λ topic buffer token s.
        let (s', code, token') = lib.publish topic buffer token s in
        (s', record { token = token'; failed = not (is_success code) });
  }

  unfoldable pub subscribe_to_primary_host : Context S → Context S × ℤ
  subscribe_to_primary_host c =
      let (c', code) = with_library (lib.subscribe c.client.topics.primary_host_topic) c in
      if is_success code then (c', pos 0) else (c', exit_failure)

  unfoldable pub subscribe_to_commands : Context S → Context S × ℤ
  unfolding activated
  subscribe_to_commands c =
      let topics = c.client.topics in
      let (c', code) =
        with_library (lib.subscribe_many topics.node_command_topic topics.device_command_topic) c in
      if is_success code then (activated c', pos 0) else (c', exit_failure)

  unfoldable pub unsubscribe_to_commands : Context S → Context S × ℤ
  unsubscribe_to_commands c =
      let topics = c.client.topics in
      let (c', code) =
        with_library (lib.unsubscribe_many topics.node_command_topic topics.device_command_topic)
          c in
      if is_success code then (c', pos 0) else (c', exit_failure)

  unfoldable pub client_connect : Context S → Context S × ℤ
  unfolding set_state connected on_disconnect subscribe_to_primary_host
  client_connect c =
      let (c', code) = with_library lib.connect (set_state ClientState.connecting c) in
      if not (same_state c.client.state ClientState.disconnected)
      then (c, pos 0)
      else if is_success code
      then (connected subscribe_to_primary_host c', pos 0)
      else (on_disconnect c', exit_failure)

  unfoldable pub configure_client : ClientOptions → Context S → Context S × ℤ
  configure_client options c =
      let (c', code) = with_library (lib.create options.address.address options.client_id) c in
      if is_success code
      then (
        record c' {
          library = lib.set_options (connect_options options c.client.topics) c'.library;
        },
        pos 0,
      )
      else (c', exit_failure)

  unfoldable pub client_disconnect : Context S → Context S × ℤ
  unfolding set_state
  client_disconnect c =
      let (c', code) = with_library lib.disconnect (set_state ClientState.disconnecting c) in
      if is_success code then (set_state ClientState.disconnected c', pos 0) else (c', exit_failure)

  -- The loop of `sync` that receives messages: `none` is out of fuel.
  unfoldable pub receive_all : ℕ → Context S → Option (Context S)
  unfolding on_disconnect message_received
  receive_all zero c = none
  receive_all (suc fuel) c =
      let (s, received) = lib.receive c.library in
      let c' : Context S = record c { library = s } in
      elim received [
        | message topic payload ↦ receive_all fuel (message_received topic payload c')
        | empty ↦ some c'
        | failed code ↦ some (if is_disconnected_code code then on_disconnect c' else c')
      ]

  -- ~PahoSyncClient, and then ~PahoClient
  unfoldable pub destroy : Context S → Context S
  unfolding Queue.destroy
  destroy c = Queue.destroy (record c { library = lib.destroy c.library })

  module _ (t : Tahu) (int64_bytes : ℕ → Bytes) where
    -- The tokens in flight: none but a -1 starts the queue anew. `true` goes on to the messages.
    unfoldable pub check_pending : ℕ → Context S → Option (Context S × Bool)
    check_pending fuel c =
        let (s, code, tokens) = lib.pending_tokens c.library in
        let c' : Context S = record c { library = s } in
        elim tokens [
          | none ↦
              some (if is_disconnected_code code then (on_disconnect c', false) else (c', true))
          | some l ↦ elim l [
            | [] ↦ elim (publish_from_queue t int64_bytes transport fuel c') [
              | none ↦ none
              | some d ↦ some (d, true)
            ]
            | _ ∷ _ ↦ some (c', true)
          ]
        ]

    -- The front of the queue in `sync`: its completion, and then the tokens in flight.
    unfoldable pub check_front : ℕ → List PublishRequest → Context S → Option (Context S × Bool)
    unfolding check_pending
    check_front fuel [] c = some (c, true)
    check_front fuel (r ∷ q) c =
        let (c', code) = with_library (lib.wait_for_completion r.token) c in
        if is_success code
        then elim (publish_from_queue t int64_bytes transport fuel (delivered r (set_queue q c'))) [
          | none ↦ none
          | some d ↦ check_pending fuel d
        ]
        else if is_disconnected_code code
        then some (on_disconnect c', false)
        else check_pending fuel c'

    unfoldable pub sync : ℕ → ℕ → Context S → Option (Context S)
    unfolding check_front
    sync fuel messages c = elim (check_front fuel c.client.publish_queue c) [
      | none ↦ none
      | some (d, goes_on) ↦ if goes_on then receive_all messages d else some d
    ]
