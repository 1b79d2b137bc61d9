-- ===== src/Tests/Data.antt =====
-- Concrete values for the parameters of the model: a small encoding of payloads, libraries of MQTT
-- clients, clients with their contexts, metrics and publishables.
use cpp_sparkplug.Prelude.{
  ℕ, zero, suc, Bytes, codes, true, false, Option, none, some, List, [], ◌∷◌, ◌++◌, null, not,
}
use cpp_sparkplug.Prelude.Int.{pos, negsuc}
use cpp_sparkplug.Tahu.{Tahu}
use cpp_sparkplug.Metric.{Metric}
use cpp_sparkplug.Metric.Simple.{int8_metric}
use cpp_sparkplug.Publishable.{Publishable}
use cpp_sparkplug.Publishable.State.{PublishableState}
use cpp_sparkplug.Clients.State.{
  ClientState, node, device, PublishRequest, ClientTopicOptions, ReturnCode,
}
use cpp_sparkplug.Clients.{Context}
use cpp_sparkplug.Clients.Queue.{Transport}
use cpp_sparkplug.Clients.PahoSync
use cpp_sparkplug.Clients.PahoAsync
use cpp_sparkplug.Clients.CppMqtt

-- A metric of a payload, and its encoding as the bytes of its value.
pub record SmallMetric : Type 0 where
  pub name : Option Bytes
  pub block : Bytes
  pub time : ℕ
  pub properties : List Bytes

abbrev encoded : List SmallMetric → Bytes
encoded [] = []
encoded (m ∷ ms) = m.block ++ encoded ms

-- Each byte of a payload is the name and the value of a metric; a 0 stands for a missing name.
abbrev decoded : Bytes → List SmallMetric
decoded [] = []
decoded (zero ∷ s) = record { name = none; block = 0 ∷ []; time = 0; properties = [] } ∷ decoded s
decoded (suc k ∷ s) =
    record { name = some (suc k ∷ []); block = suc k ∷ []; time = 0; properties = [] } ∷ decoded s

abbrev sequence_bytes : Option ℕ → Bytes
sequence_bytes none = []
sequence_bytes (some k) = k ∷ []

abbrev pub small_tahu : Tahu
small_tahu = record {
  Payload = Option ℕ × List SmallMetric;
  PayloadMetric = SmallMetric;
  PayloadSet = List Bytes;
  new_payload = λ time seq. (seq, []);
  empty_set = [];
  init_metric = λ name alias type block size. record {
    name = some name;
    block = block;
    time = 0;
    properties = [];
  };
  set_timestamp = λ m time. record m { time = time };
  add_property_to_set = λ out name type block size. (out ++ name ∷ [], true);
  add_nested_to_set = λ out name s. (out ++ name ∷ s, true);
  add_propertyset_to_metric = λ m s. record m { properties = s };
  add_metric_to_payload = λ p m. (p.0, p.1 ++ m ∷ []);
  encode_payload = λ p. sequence_bytes p.0 ++ encoded p.1;
  decode_payload = λ s. some (decoded s);
  metric_name = λ m. m.name;
  boolean_value = λ m. not (null m.properties);
}

abbrev pub low_byte : ℕ → Bytes
low_byte n = n ∷ 0 ∷ 0 ∷ 0 ∷ 0 ∷ 0 ∷ 0 ∷ 0 ∷ []

abbrev pub level : Metric
level = int8_metric (7 ∷ []) (40 ∷ [])

abbrev pub dirty_level : Metric
dirty_level = record level { dirty = true; block = 41 ∷ [] }

-- An idle publishable with five seconds left of ten, and one metric.
abbrev pub tank : Publishable
tank = record {
  name = some (codes "tank");
  publish_period = pos 10;
  next_publish = pos 5;
  state = PublishableState.idle;
  metrics = level ∷ [];
}

abbrev pub topics : ClientTopicOptions
topics = record {
  node_command_topic = codes "spBv1.0/g/NCMD/n";
  node_death_topic = codes "spBv1.0/g/NDEATH/n";
  device_command_topic = codes "spBv1.0/g/DCMD/n/+";
  primary_host_topic = [];
}

abbrev pub birth : PublishRequest
birth = record {
  is_birth = true;
  publisher = node;
  topic = codes "spBv1.0/g/NBIRTH/n";
  token = negsuc 0;
  retry_count = 0;
}

abbrev pub data_message : PublishRequest
data_message = record {
  is_birth = false;
  publisher = device 0;
  topic = codes "spBv1.0/g/DDATA/n/tank";
  token = negsuc 0;
  retry_count = 0;
}

-- A connected primary client with a queue. Its library counts the calls.
abbrev pub context_with : List PublishRequest → Context ℕ
context_with queue = record {
  client = record {
    configured = true;
    state = ClientState.connected;
    is_primary = true;
    bd_seq = 255;
    payload_sequence = 9;
    topics = topics;
    publish_queue = queue;
    subscription_token = negsuc 0;
  };
  library = 0;
  events = [];
  publishables = λ s. tank;
  clock = λ i. i;
}

-- A transport on which every send fails.
abbrev pub failing : Transport ℕ
failing = record {
  is_connected = λ s. true;
  send = λ topic buffer token s. (suc s, record { token = pos s; failed = true });
}

-- Libraries that refuse, or accept, every call.
abbrev pub sync_library : ReturnCode → PahoSync.PahoLibrary ℕ
sync_library code = record {
  create = λ a b s. (suc s, code);
  set_options = λ o s. s;
  connect = λ s. (suc s, code);
  disconnect = λ s. (suc s, code);
  subscribe = λ topic s. (suc s, code);
  subscribe_many = λ a b s. (suc s, code);
  unsubscribe_many = λ a b s. (suc s, code);
  publish = λ topic buffer token s. (suc s, code, pos s);
  wait_for_completion = λ token s. (suc s, code);
  pending_tokens = λ s. (suc s, code, none);
  receive = λ s. (suc s, PahoSync.empty);
  is_connected = λ s. true;
  destroy = λ s. s;
}

abbrev pub async_library : ReturnCode → PahoAsync.PahoLibrary ℕ
async_library code = record {
  set_callbacks = λ s. (suc s, code);
  create = λ a b s. (suc s, code);
  set_options = λ o s. s;
  connect = λ s. (suc s, code);
  disconnect = λ s. (suc s, code);
  subscribe = λ topic s. (suc s, code);
  subscribe_many = λ a b s. (suc s, code);
  unsubscribe_many = λ a b s. (suc s, code);
  send = λ topic buffer s. (suc s, code, pos s);
  is_connected = λ s. true;
  destroy = λ s. s;
}

abbrev pub cpp_library : CppMqtt.MqttLibrary ℕ
cpp_library = record {
  connect = λ a port time s. (suc s, pos 0);
  disconnect = λ s. (suc s, pos 0);
  subscribe = λ topic s. (suc s, pos s);
  subscribe_commands = λ a b s. (suc s, pos s);
  publish = λ topic payload s. (suc s, pos s);
  create = λ o topic will. 0;
  sync = λ s. (suc s, none);
  connected = λ s. true;
}
