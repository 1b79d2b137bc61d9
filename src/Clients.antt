-- ===== src/Clients.antt =====
-- src/clients/SparkplugClient.cpp: the base of all clients. A virtual method of the code is an argument
-- here, and the library of an MQTT client is a state of type S that only the virtual methods change.
-- What a client does beside its own fields, raise events and let publishables fill a payload, is
-- part of the context that its operations pass on.
pub mod State
pub mod Queue
pub mod PahoSync
pub mod PahoAsync
pub mod CppMqtt
pub mod Accounts
pub mod Retries
pub mod Termination
pub mod Receiving
pub mod Flow
pub mod Moves
pub mod Connection
pub mod Sequence
use cpp_sparkplug.Prelude.{
  ℕ, suc, ◌+◌, ◌%◌, Bytes, codes, Bool, true, false, ◌&&◌, Option, none, some, List, [], ◌∷◌, ◌++◌,
  length, null, if◌then◌else◌, ◌==◌, not,
}
use cpp_sparkplug.Prelude.Int.{ℤ, pos, negsuc, ltb_ℤ}
use cpp_sparkplug.Tahu.{Tahu}
use cpp_sparkplug.Metric
use cpp_sparkplug.Metric.Simple.{int64_metric}
use cpp_sparkplug.Publishable.{Publishable, add_to_payload}
use State.{
  ClientState, same_state, Source, same_source, is_node, PublishRequest, Event, client_message,
  client_connected, client_disconnected, client_active, client_delivered, client_undelivered,
  ClientTopicOptions,
}

-- The fields of SparkplugClient, and of its subclasses: the publish queue of PahoClient and of
-- CppMqttClient, and the subscription token of the latter.
pub record Client : Type 0 where
  pub configured : Bool
  pub state : ClientState
  pub is_primary : Bool
  pub bd_seq : ℕ
  pub payload_sequence : ℕ
  pub topics : ClientTopicOptions
  pub publish_queue : List PublishRequest
  pub subscription_token : ℤ

-- `events` are those passed to the handler, oldest first; `clock i` is the i-th time read from now on.
pub record Context (S : Type 0) : Type 0 where
  pub client : Client
  pub library : S
  pub events : List Event
  pub publishables : Source → Publishable
  pub clock : ℕ → ℕ

-- A new client; the topics are set by `configure`.
unfoldable pub new : ClientTopicOptions → Client
new topics = record {
  configured = false;
  state = ClientState.disconnected;
  is_primary = false;
  bd_seq = 255;
  payload_sequence = 0;
  topics = topics;
  publish_queue = [];
  subscription_token = negsuc 0;
}

module _ {S : Type 0} where
  abbrev pub update_client : (Client → Client) → Context S → Context S
  update_client f c = record c { client = f c.client }

  abbrev pub raise : Event → Context S → Context S
  raise e c = record c { events = c.events ++ e ∷ [] }

  unfoldable pub set_primary : Bool → Context S → Context S
  set_primary b = update_client (λ k. record k { is_primary = b })

  -- setState. Its call of setPrimary is that of the base class, since the method is not virtual.
  unfoldable pub set_state : ClientState → Context S → Context S
  unfolding set_primary
  set_state s c =
      if same_state c.client.state s
      then c
      else if same_state s ClientState.disconnected
      then update_client (λ k. record k { state = s }) (set_primary false c)
      else update_client (λ k. record k { state = s }) c

  -- `configureClient` is the argument.
  unfoldable pub configure :
      (Context S → Context S × ℤ) → Option ClientTopicOptions → Context S → Context S × ℤ
  configure configure_client none c = (c, negsuc 0)
  configure configure_client (some topics) c =
      let (c', code) = configure_client (update_client (λ k. record k { topics = topics }) c) in
      if ltb_ℤ code (pos 0)
      then (c', code)
      else (update_client (λ k. record k { configured = true }) c', pos 0)

  -- `subscribeToCommands` is the argument.
  unfoldable pub activate : (Context S → Context S × ℤ) → Context S → Context S × ℤ
  unfolding set_primary
  activate subscribe_to_commands c =
      let (c', code) = subscribe_to_commands (set_primary true c) in
      if c.client.is_primary
      then (c, pos 0)
      else if ltb_ℤ code (pos 0)
      then (set_primary false c', code)
      else (c', pos 0)

  -- `unsubscribeToCommands` is the argument.
  unfoldable pub deactivate : (Context S → Context S × ℤ) → Context S → Context S × ℤ
  unfolding set_primary
  deactivate unsubscribe_to_commands c =
      let (c', code) = unsubscribe_to_commands c in
      if not c.client.is_primary
      then (c, pos 0)
      else if ltb_ℤ code (pos 0)
      then (c', code)
      else (set_primary false c', pos 0)

  -- `clientConnect` is the argument.
  unfoldable pub connect : (Context S → Context S × ℤ) → Context S → Context S × ℤ
  unfolding set_state
  connect client_connect c =
      let (c', code) = client_connect c in
      if not (same_state c.client.state ClientState.disconnected)
      then (c, pos 0)
      else if not c.client.configured
      then (c, negsuc 0)
      else if ltb_ℤ code (pos 0)
      then (set_state ClientState.disconnected c', code)
      else (set_state ClientState.connecting c', pos 0)

  -- `clientDisconnect` is the argument; its result is ignored.
  unfoldable pub disconnect : (Context S → Context S × ℤ) → Context S → Context S × ℤ
  disconnect client_disconnect c =
      let (c', code) = client_disconnect c in
      if same_state c.client.state ClientState.disconnected then (c, pos 0) else (c', pos 0)

  unfoldable pub reset_sequence : Context S → Context S
  reset_sequence = update_client (λ k. record k { payload_sequence = 0 })

  unfoldable pub increment_bd_seq : Context S → Context S
  increment_bd_seq =
      update_client (λ k. record k { bd_seq = if k.bd_seq == 255 then 0 else k.bd_seq + 1 })

  unfoldable pub activated : Context S → Context S
  activated c = if not c.client.is_primary then c else raise client_active c

  -- `subscribeToPrimaryHost` is the argument; its result is ignored.
  unfoldable pub connected : (Context S → Context S × ℤ) → Context S → Context S
  unfolding set_state
  connected subscribe_to_primary_host c =
      let c' = raise client_connected (set_state ClientState.connected c) in
      let (c'', code) = subscribe_to_primary_host c' in
      if not (null c.client.topics.primary_host_topic) then c'' else c'

  unfoldable pub disconnected : Context S → Context S
  unfolding set_state
  disconnected c = raise client_disconnected (set_state ClientState.disconnected c)

  unfoldable pub delivered : PublishRequest → Context S → Context S
  delivered r = raise (client_delivered r.publisher)

  unfoldable pub undelivered : PublishRequest → Context S → Context S
  undelivered r = raise (client_undelivered r.publisher)

  unfoldable pub message_received : Bytes → Bytes → Context S → Context S
  message_received topic payload = raise (client_message topic payload)

  -- `clientConnect` and `sync` are the arguments; `none` is `sync` out of fuel.
  unfoldable pub execute :
      (Context S → Context S × ℤ)
      → (Context S → Option (Context S))
      → Context S
      → Option (Context S)
  unfolding connect
  execute client_connect sync c = sync (
      if same_state c.client.state ClientState.disconnected
      then (connect client_connect c).0
      else c)

-- What a publishable does to its place in the store.
abbrev pub put : (Source → Publishable) → Source → Publishable → Source → Publishable
put store s p s' = if same_source s s' then p else store s'

abbrev pub is_node_birth : PublishRequest → Bool
is_node_birth r = is_node r.publisher && r.is_birth

-- Int64Metric::create("bdSeq", bdSeq)->addToPayload(payload, true)
unfoldable pub add_bd_seq : (t : Tahu) → (ℕ → Bytes) → ℕ → ℕ → t.Payload → t.Payload
add_bd_seq t int64_bytes now bd_seq out =
    Metric.add_to_payload t now true (int64_metric (codes "bdSeq") (int64_bytes bd_seq)) out

-- The payload of a request. `int64_bytes` is the object representation of an int64_t.
module _ (t : Tahu) (int64_bytes : ℕ → Bytes) {S : Type 0} where
  open t use {Payload, new_payload, encode_payload}

  -- initializePayload(true): the time and the sequence number, a uint8_t, which then counts up.
  unfoldable pub initialize_payload : Context S → Context S × Payload
  initialize_payload c = (
    record c {
      client = record (c.client) { payload_sequence = (c.client.payload_sequence + 1) % 256 };
      clock = λ i. c.clock (suc i);
    },
    new_payload (c.clock 0) (some c.client.payload_sequence),
  )

  -- getWillPayload: the bdSeq counts up, and is the only metric of a payload without sequence number.
  unfoldable pub get_will_payload : Context S → Context S × Bytes
  unfolding increment_bd_seq add_bd_seq
  get_will_payload c =
      let c' = increment_bd_seq c in
      (
        record c' { clock = λ i. c.clock (suc (suc i)) },
        encode_payload
            (add_bd_seq t int64_bytes (c.clock 1) c'.client.bd_seq (new_payload (c.clock 0) none)),
      )

  -- processRequest up to its call of publishMessage, for a client that is not disconnected: the
  -- encoded payload. The i-th metric of the publishable reads the i-th time after the payload's.
  unfoldable pub prepare : PublishRequest → Context S → Context S × Bytes
  unfolding set_state reset_sequence initialize_payload add_bd_seq
  prepare r c =
      let c1 = set_state ClientState.publishing_payload c in
      let c2 = if is_node_birth r then reset_sequence c1 else c1 in
      let (c3, payload) = initialize_payload c2 in
      let (p, filled) =
        add_to_payload t c3.clock r.is_birth (c3.publishables r.publisher) payload in
      let used = length (c3.publishables r.publisher).metrics in
      let whole =
        if is_node_birth r
        then add_bd_seq t int64_bytes (c3.clock used) c3.client.bd_seq filled
        else filled in
      (
        record c3 {
          publishables = put c3.publishables r.publisher p;
          clock = λ i. c3.clock (i + used + 1);
        },
        encode_payload whole,
      )
