-- ===== src/Clients/PahoAsync.antt =====
-- src/clients/PahoAsyncClient.cpp: the client over the asynchronous Paho library, whose functions
-- MQTTAsync_* are the parameter `PahoLibrary`. Its callbacks are the notices that the client handles.
use cpp_sparkplug.Prelude.{ℕ, Bytes, Bool, false, Option, some, if◌then◌else◌, not}
use cpp_sparkplug.Prelude.Int.{ℤ, pos}
use cpp_sparkplug.Tahu.{Tahu}
use cpp_sparkplug.Clients.State.{
  ClientOptions, ConnectOptions, connect_options, ClientState, same_state, ReturnCode, is_success,
}
use cpp_sparkplug.Clients.{Context, set_state, connected, activated, message_received}
use cpp_sparkplug.Clients.Queue
use cpp_sparkplug.Clients.Queue.{
  Transport, dump_queue, on_disconnect, on_delivery, on_delivery_failure,
}

pub record PahoLibrary (S : Type 0) : Type 0 where
  -- MQTTAsync_create(address, client id), and the members that MQTTAsync_connect reads
  pub create : Bytes → Bytes → S → S × ReturnCode
  -- MQTTAsync_setCallbacks
  pub set_callbacks : S → S × ReturnCode
  pub set_options : ConnectOptions → S → S
  -- MQTTAsync_connect and MQTTAsync_disconnect
  pub connect : S → S × ReturnCode
  pub disconnect : S → S × ReturnCode
  -- MQTTAsync_subscribe, MQTTAsync_subscribeMany and MQTTAsync_unsubscribeMany
  pub subscribe : Bytes → S → S × ReturnCode
  pub subscribe_many : Bytes → Bytes → S → S × ReturnCode
  pub unsubscribe_many : Bytes → Bytes → S → S × ReturnCode
  -- MQTTAsync_send: the code, and the token of the response options.
  pub send : Bytes → Bytes → S → S × ReturnCode × ℤ
  pub is_connected : S → Bool
  -- MQTTAsync_destroy
  pub destroy : S → S

abbrev exit_failure : ℤ
exit_failure = pos 1

-- The callbacks: deliveryComplete, deliveryFailure, messageArrived, connectionLost, connectionSuccess,
-- connectionFailure, onCommandSubscribeSuccess, and those that do nothing.
pub data Notice : Type 0 where
  delivery_complete delivery_failure : ℤ → Notice
  message_arrived : Bytes → Bytes → Notice
  connection_lost connection_success connection_failure command_subscribed ignored : Notice

module _ {S : Type 0} (lib : PahoLibrary S) where
  abbrev with_library : (S → S × ReturnCode) → Context S → Context S × ReturnCode
  with_library f c = let (s, code) = f c.library in (record c { library = s }, code)

  -- publishMessage writes the token on success, and otherwise does nothing about the failure.
  unfoldable pub transport : Transport S
  transport = record {
    is_connected = lib.is_connected;
    send = λ topic buffer token s.
        let (s', code, token') = lib.send topic buffer s in
        (s', record { token = if is_success code then token' else token; failed = false });
  }

  unfoldable pub subscribe_to_primary_host : Context S → Context S × ℤ
  subscribe_to_primary_host c =
      let (c', code) = with_library (lib.subscribe c.client.topics.primary_host_topic) c in
      if is_success code then (c', pos 0) else (c', exit_failure)

  unfoldable pub subscribe_to_commands : Context S → Context S × ℤ
  subscribe_to_commands c =
      let topics = c.client.topics in
      let (c', code) =
        with_library (lib.subscribe_many topics.node_command_topic topics.device_command_topic) c in
      if is_success code then (c', pos 0) else (c', exit_failure)

  unfoldable pub unsubscribe_to_commands : Context S → Context S × ℤ
  unsubscribe_to_commands c =
      let topics = c.client.topics in
      let (c', code) =
        with_library (lib.unsubscribe_many topics.node_command_topic topics.device_command_topic)
          c in
      if is_success code then (c', pos 0) else (c', exit_failure)

  unfoldable pub client_connect : Context S → Context S × ℤ
  unfolding set_state
  client_connect c =
      let (c', code) = with_library lib.connect (set_state ClientState.connecting c) in
      if not (same_state c.client.state ClientState.disconnected)
      then (c, pos 0)
      else if is_success code
      then (c', pos 0)
      else (c', exit_failure)

  unfoldable pub configure_client : ClientOptions → Context S → Context S × ℤ
  configure_client options c =
      let (c1, created) = with_library (lib.create options.address.address options.client_id) c in
      let (c2, code) = with_library lib.set_callbacks c1 in
      if not (is_success created)
      then (c1, exit_failure)
      else if is_success code
      then (
        record c2 {
          library = lib.set_options (connect_options options c.client.topics) c2.library;
        },
        pos 0,
      )
      else (c2, exit_failure)

  unfoldable pub client_disconnect : Context S → Context S × ℤ
  unfolding set_state
  client_disconnect c =
      let (c', code) = with_library lib.disconnect (set_state ClientState.disconnecting c) in
      if is_success code then (c', pos 0) else (c', exit_failure)

  -- ~PahoAsyncClient, and then ~PahoClient
  unfoldable pub destroy : Context S → Context S
  unfolding Queue.destroy dump_queue
  destroy c = Queue.destroy (dump_queue (record c { library = lib.destroy c.library }))

  -- `sync` is empty.
  abbrev pub sync : Context S → Option (Context S)
  sync c = some c

  -- onDelivery, onDeliveryFailure, onMessage, onDisconnect, onConnect, onConnectFailure and
  -- onCommandSubscription; `none` is out of fuel, or a delivery with nothing in the queue.
  unfoldable pub on_notice : Tahu → (ℕ → Bytes) → ℕ → Notice → Context S → Option (Context S)
  unfolding transport subscribe_to_primary_host
  on_notice t int64_bytes fuel (delivery_complete token) c =
      on_delivery t int64_bytes transport fuel token c
  on_notice t int64_bytes fuel (delivery_failure token) c =
      on_delivery_failure t int64_bytes transport fuel token c
  on_notice t int64_bytes fuel (message_arrived topic payload) c =
      some (message_received topic payload c)
  on_notice t int64_bytes fuel connection_lost c = some (on_disconnect c)
  on_notice t int64_bytes fuel connection_success c = some (connected subscribe_to_primary_host c)
  on_notice t int64_bytes fuel connection_failure c = some (set_state ClientState.disconnected c)
  on_notice t int64_bytes fuel command_subscribed c = some (activated c)
  on_notice t int64_bytes fuel ignored c = some c
