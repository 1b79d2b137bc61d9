-- ===== src/Clients/CppMqtt.antt =====
-- src/clients/CppMqttClient.cpp: the client over the CppMqtt library, whose class MqttClient is the
-- parameter `MqttLibrary`. The methods of MqttClientHandler are the notices that the client handles.
-- A token below 0 is a failure; other results of the library are -1 or not.
use cpp_sparkplug.Prelude.{ℕ, zero, suc, Bytes, Bool, Option, none, some, if◌then◌else◌, not}
use cpp_sparkplug.Prelude.Int.{ℤ, pos, negsuc, ltb_ℤ, eq_ℤ}
use cpp_sparkplug.Tahu.{Tahu}
use cpp_sparkplug.Clients.State.{ClientState, ClientOptions, PublishRequest}
use cpp_sparkplug.Clients.{
  Context, set_state, connected, activated, message_received, get_will_payload, update_client,
}
use cpp_sparkplug.Clients.Queue
use cpp_sparkplug.Clients.Queue.{Transport, on_disconnect, on_delivery, on_delivery_failure}

-- The methods of the handler, with what they use of their arguments.
pub data Notice : Type 0 where
  connection_success connection_failure disconnection unsubscribe_result : Notice
  message : Bytes → Bytes → Notice
  delivery_complete delivery_failure subscribe_result : ℤ → Notice

pub record MqttLibrary (S : Type 0) : Type 0 where
  -- connect(address, port, timeout), disconnect(DISCONNECT_WITH_WILL_MESSAGE)
  pub connect : Bytes → ℤ → ℕ → S → S × ℤ
  pub disconnect : S → S × ℤ
  -- subscribe of the primary host topic, and of the two command topics
  pub subscribe : Bytes → S → S × ℤ
  pub subscribe_commands : Bytes → Bytes → S → S × ℤ
  -- publish(topic, payload, QoS::ZERO): the token
  pub publish : Bytes → Bytes → S → S × ℤ
  -- A new MqttClient with the client id, the user name and password, the interval, a clean start, and
  -- the will's topic and payload.
  pub create : ClientOptions → Bytes → Bytes → S
  -- The next method of the handler that sync() calls, or none when it returns.
  pub sync : S → S × Option Notice
  pub connected : S → Bool

module _ {S : Type 0} (lib : MqttLibrary S) where
  abbrev with_library : (S → S × ℤ) → Context S → Context S × ℤ
  with_library f c = let (s, code) = f c.library in (record c { library = s }, code)

  abbrev is_minus_one : ℤ → Bool
  is_minus_one code = eq_ℤ code (negsuc 0)

  -- publishMessage. After a failure it returns the token through a pointer into the request, which the
  -- failure handler may have deleted; its caller does not use the result.
  unfoldable pub transport : Transport S
  transport = record {
    is_connected = lib.connected;
    send = λ topic buffer token s.
        let (s', token') = lib.publish topic buffer s in
        (s', record { token = token'; failed = ltb_ℤ token' (pos 0) });
  }

  -- The protocol of the address is compared, and then ignored.
  unfoldable pub client_connect : ClientOptions → Context S → Context S × ℤ
  client_connect options c =
      let (c', code) =
        with_library
          (lib.connect options.address.address options.address.port options.connect_timeout) c in
      if is_minus_one code then (c', negsuc 0) else (c', pos 0)

  unfoldable pub client_disconnect : Context S → Context S × ℤ
  unfolding set_state
  client_disconnect c =
      let (c', code) = with_library lib.disconnect (set_state ClientState.disconnecting c) in
      if not (lib.connected c.library) then (c, negsuc 0) else (c', pos 0)

  unfoldable pub subscribe_to_primary_host : Context S → Context S × ℤ
  subscribe_to_primary_host c =
      let (c', code) = with_library (lib.subscribe c.client.topics.primary_host_topic) c in
      if is_minus_one code then (c', code) else (c', pos 0)

  unfoldable pub subscribe_to_commands : Context S → Context S × ℤ
  subscribe_to_commands c =
      let topics = c.client.topics in
      let (c', code) =
        with_library (lib.subscribe_commands topics.node_command_topic topics.device_command_topic)
          c in
      if is_minus_one code
      then (c', code)
      else (update_client (λ k. record k { subscription_token = code }) c', pos 0)

  unfoldable pub unsubscribe_to_commands : Context S → Context S × ℤ
  unsubscribe_to_commands c = (c, pos 0)

  -- ~CppMqttClient, which deletes the will; its queue is not dumped.
  unfoldable pub destroy : Context S → Context S
  destroy c = c

  module _ (t : Tahu) (int64_bytes : ℕ → Bytes) where
    unfoldable pub configure_client : ClientOptions → Context S → Context S × ℤ
    unfolding get_will_payload
    configure_client options c =
        let (c', will) = get_will_payload t int64_bytes c in
        (record c' { library = lib.create options c.client.topics.node_death_topic will }, pos 0)

    -- `none` is out of fuel, or a delivery with nothing in the queue.
    unfoldable pub on_notice : ℕ → Notice → Context S → Option (Context S)
    unfolding transport subscribe_to_primary_host
    on_notice fuel connection_success c = some (connected subscribe_to_primary_host c)
    on_notice fuel connection_failure c = some (set_state ClientState.disconnected c)
    on_notice fuel disconnection c = some (on_disconnect c)
    on_notice fuel (message topic payload) c = some (message_received topic payload c)
    on_notice fuel (delivery_complete token) c = on_delivery t int64_bytes transport fuel token c
    on_notice fuel (delivery_failure token) c =
        on_delivery_failure t int64_bytes transport fuel token c
    on_notice fuel (subscribe_result token) c =
        some (if eq_ℤ c.client.subscription_token token then activated c else c)
    on_notice fuel unsubscribe_result c = some c

    -- sync, which calls the handler: the second fuel is for these calls.
    unfoldable pub sync : ℕ → ℕ → Context S → Option (Context S)
    unfolding on_notice
    sync fuel zero c = none
    sync fuel (suc calls) c =
        let (s, next) = lib.sync c.library in
        let c' : Context S = record c { library = s } in
        elim next [
          | none ↦ some c'
          | some n ↦ elim (on_notice fuel n c') [ none ↦ none | some d ↦ sync fuel calls d ]
        ]

    -- The methods that CppMqttClient has of its own, word for word those of PahoClient.
    abbrev pub publish_from_queue : ℕ → Context S → Option (Context S)
    publish_from_queue = Queue.publish_from_queue t int64_bytes transport

    abbrev pub request : ℕ → PublishRequest → Context S → Option (Context S)
    request fuel = Queue.request t int64_bytes transport fuel

  abbrev pub dump_queue : Context S → Context S
  dump_queue = Queue.dump_queue

  abbrev pub set_primary : Bool → Context S → Context S
  set_primary = Queue.set_primary_and_dump
