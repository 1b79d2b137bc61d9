-- ===== src/Clients/State.antt =====
-- src/clients/SparkplugClient.h and CommonTypes.h: the states of a client, the requests and events that
-- pass between a client and its node, and the topics. The publishables are named by `Source`.
use cpp_sparkplug.Prelude.{◌≡◌, refl, arith, ℕ, Bytes, Option, Bool, true, false, ◌==◌}
use cpp_sparkplug.Prelude.Int.{ℤ}
use cpp_sparkplug.Uri.{Uri}

pub data ClientState : Type 0 where
  connected connecting disconnected disconnecting publishing_payload : ClientState

abbrev pub same_state : ClientState → ClientState → Bool
same_state ClientState.connected ClientState.connected = true
same_state ClientState.connecting ClientState.connecting = true
same_state ClientState.disconnected ClientState.disconnected = true
same_state ClientState.disconnecting ClientState.disconnecting = true
same_state ClientState.publishing_payload ClientState.publishing_payload = true
same_state _ _ = false

-- A Publishable *: the node, or one of its devices.
pub data Source : Type 0 where
  node : Source
  device : ℕ → Source

abbrev pub same_source : Source → Source → Bool
same_source node node = true
same_source (device i) (device j) = i == j
same_source _ _ = false

pub same_source→eq : (a b : Source) → same_source a b ≡ true → a ≡ b
same_source→eq node node h = refl
same_source→eq node (device j) h = cc
same_source→eq (device i) node h = cc
same_source→eq (device i) (device j) h = ground arith

pub same_source_refl : (a : Source) → same_source a a ≡ true
same_source_refl node = refl
same_source_refl (device i) = ground arith

-- Publishable::isNode
abbrev pub is_node : Source → Bool
is_node node = true
is_node (device i) = false

pub record PublishRequest : Type 0 where
  pub is_birth : Bool
  pub publisher : Source
  pub topic : Bytes
  pub token : ℤ
  pub retry_count : ℕ

-- EventType, with the data that accompanies an event.
pub data Event : Type 0 where
  client_message : Bytes → Bytes → Event
  client_connected client_disconnected client_active client_deactive : Event
  client_delivered : Source → Event
  client_undelivered : Source → Event

pub record ClientTopicOptions : Type 0 where
  pub node_command_topic : Bytes
  pub node_death_topic : Bytes
  pub device_command_topic : Bytes
  pub primary_host_topic : Bytes

-- The ClientOptions; NULL is `none`.
pub record ClientOptions : Type 0 where
  pub address : Uri
  pub client_id : Bytes
  pub username : Option Bytes
  pub password : Option Bytes
  pub connect_timeout : ℕ
  pub keep_alive_interval : ℕ

abbrev pub publish_retries : ℕ
publish_retries = 5

-- What configureClient of the Paho clients sets in the members `connectionOptions` and `will`; the
-- rest of them is constant.
pub record ConnectOptions : Type 0 where
  pub username : Option Bytes
  pub password : Option Bytes
  pub connect_timeout : ℕ
  pub keep_alive_interval : ℕ
  pub will_topic : Bytes

abbrev pub connect_options : ClientOptions → ClientTopicOptions → ConnectOptions
connect_options o topics = record {
  username = o.username;
  password = o.password;
  connect_timeout = o.connect_timeout;
  keep_alive_interval = o.keep_alive_interval;
  will_topic = topics.node_death_topic;
}

-- What the clients read of a return code of an MQTT library: which of its constants it is.
pub data ReturnCode : Type 0 where
  success disconnected_code other_code : ReturnCode

abbrev pub is_success : ReturnCode → Bool
is_success success = true
is_success _ = false

abbrev pub is_disconnected_code : ReturnCode → Bool
is_disconnected_code disconnected_code = true
is_disconnected_code _ = false
