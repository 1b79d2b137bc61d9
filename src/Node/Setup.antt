-- ===== src/Node/Setup.antt =====
-- src/Node.cpp: the constructor, the topics, `enable`, and the adding of devices and clients.
use cpp_sparkplug.Prelude.{
  ℕ, ◌+◌, ◌%◌, Bytes, codes, Bool, true, false, ◌&&◌, not, null, Option, none, some, List, [], ◌∷◌,
  ◌++◌, ◌==◌, if◌then◌else◌,
}
use cpp_sparkplug.Prelude.Int.{ℤ, pos, eq_ℤ}
use cpp_sparkplug.Metric.{Metric, rebirth, set_command_callback}
use cpp_sparkplug.Metric.Simple.{boolean_metric}
use cpp_sparkplug.Publishable.{Publishable, new_default, set_publish_period, add_metric}
use cpp_sparkplug.Clients.State.{ClientTopicOptions}
use cpp_sparkplug.Clients.{Client}
use cpp_sparkplug.Node.World.{
  Driver, Node, World, SparkplugClientMode, single, primary_host, M, ◌>>=◌, ◌>>◌, pure, read,
  modify_node, with_client, always,
}

pub record NodeOptions : Type 0 where
  pub group_id : Bytes
  pub node_id : Bytes
  pub primary_host : Bytes
  pub publish_period : ℤ
  pub enabled_commands : ℕ

abbrev pub slash : Bytes
slash = codes "/"

abbrev pub sparkplug_namespace : Bytes
sparkplug_namespace = codes "spBv1.0"

abbrev pub no_topics : ClientTopicOptions
no_topics = record {
  node_command_topic = [];
  node_death_topic = [];
  device_command_topic = [];
  primary_host_topic = [];
}

-- The members before the constructor runs; it leaves `hostMode` to `configureTopics`, and `unset` is
-- what the memory holds there.
abbrev pub blank : SparkplugClientMode → Node
blank unset = record {
  group_base_topic = [];
  node_id = [];
  client_topics = no_topics;
  topics_configured = false;
  running = false;
  enabled = false;
  active_client = none;
  host_mode = unset;
  devices = [];
  event_queue = [];
}

unfoldable pub configure_topics : Bytes → Bytes → Bytes → Node → Node
configure_topics group_id node_id host n =
    let base = n.group_base_topic ++ (sparkplug_namespace ++ (slash ++ (group_id ++ slash))) in
    if not (null group_id) && not (null node_id)
    then record n {
      group_base_topic = base;
      node_id = node_id;
      host_mode = if not (null host) then primary_host else single;
      client_topics = record {
        node_command_topic = base ++ (codes "NCMD" ++ (slash ++ node_id));
        node_death_topic = base ++ (codes "NDEATH" ++ (slash ++ node_id));
        device_command_topic = base ++ (codes "DCMD" ++ (slash ++ (node_id ++ codes "/+")));
        primary_host_topic =
            if not (null host) then sparkplug_namespace ++ (codes "/STATE/" ++ host) else [];
      };
      topics_configured = true;
    }
    else n

-- The metric "Node Control/Rebirth", with the callback that asks for a birth.
abbrev pub rebirth_metric : ℕ → Metric
rebirth_metric unset =
    set_command_callback unset rebirth (boolean_metric (codes "Node Control/Rebirth") (0 ∷ []))

-- Node(options), with the publishable that it is; `commands & NODE_CONTROL_REBIRTH` is the lowest bit.
unfoldable pub new : SparkplugClientMode → ℕ → Option NodeOptions → Node × Publishable
unfolding configure_topics
new unset_mode unset none = (blank unset_mode, new_default)
new unset_mode unset (some o) =
    let p = set_publish_period o.publish_period new_default in
    (
      configure_topics o.group_id o.node_id o.primary_host (blank unset_mode),
      if o.enabled_commands % 2 == 1 then add_metric (rebirth_metric unset) p else p,
    )

pub data EnableResult : Type 0 where
  enable_success enable_invalid_topics enable_no_clients enable_client_config_fail : EnableResult

module _ {S P : Type 0} (driver : Driver S) where
  -- The loop of `enable` over the clients from number i on: whether all were configured.
  unfoldable pub configure_all : ℕ → List (Client × S) → M S P Bool
  unfolding with_client
  configure_all i [] = pure true
  configure_all i (k ∷ ks) =
      let rest = configure_all (i + 1) ks in
      do
        topics ← read (λ w. w.node.client_topics)
        code ← with_client i (always (driver.configure (some topics)))
        if eq_ℤ code (pos 0) then rest else pure false

  unfoldable pub enable : M S P EnableResult
  unfolding configure_all
  enable w =
      if not w.node.topics_configured
      then some (w, enable_invalid_topics)
      else if null w.clients
      then some (w, enable_no_clients)
      else (do
        configured ← configure_all 0 w.clients
        if configured
            then (modify_node (λ n. record n { enabled = true }) >> pure enable_success)
            else pure enable_client_config_fail)
          w

-- addDevice and addClient
unfoldable pub add_device : {S P : Type 0} → ℕ → World S P → World S P
add_device d w = record w { node = record (w.node) { devices = d ∷ w.node.devices } }

unfoldable pub add_client : {S P : Type 0} → Client × S → World S P → World S P
add_client k w = record w { clients = w.clients ++ k ∷ [] }
