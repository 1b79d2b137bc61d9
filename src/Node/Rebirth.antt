-- ===== src/Node/Rebirth.antt =====
-- src/Node.cpp: the metric "Node Control/Rebirth", from its command to the births.
use cpp_sparkplug.Prelude.{
  ℕ, Bytes, codes, true, same, same_refl, Option, none, some, List, [], ◌∷◌, ◌++◌, ◌≡◌, ◌≢◌, refl,
  ap, sym, ◌∙◌, arith, append_assoc,
}
use cpp_sparkplug.Prelude.Text.{contains, contains-append}
use cpp_sparkplug.Tahu.{Tahu}
use cpp_sparkplug.Metric.{Call, to_callback, rebirth, on_command, set_command_callback}
use cpp_sparkplug.Metric.Simple.{boolean_metric}
use cpp_sparkplug.Publishable.{Publishable, handle_command, find_metric}
use cpp_sparkplug.Clients.State.{node}
use cpp_sparkplug.Node.World.{Driver, World, M, fault, SparkplugClientMode}
use cpp_sparkplug.Node.Setup.{NodeOptions, rebirth_metric, new, slash, sparkplug_namespace}
use cpp_sparkplug.Node.Publishing.{publish_birth}
use cpp_sparkplug.Node.Events.{perform, command, commands, on_message}
use cpp_sparkplug.Node.Topics.{null-false, levels}
use cpp_sparkplug.Node.Commands.{with_calls, on_message_host}

pub node_topic :
    (o : NodeOptions) (unset_mode : SparkplugClientMode) (unset : ℕ)
    → o.group_id ≢ []
    → o.node_id ≢ []
    → (new unset_mode unset (some o)).0.client_topics.node_command_topic
      ≡ levels (sparkplug_namespace ∷ o.group_id ∷ codes "NCMD" ∷ o.node_id ∷ [])
unfolding new
node_topic o unset_mode unset g n =
    let flat : (new unset_mode unset (some o)).0.client_topics.node_command_topic
        ≡ (sparkplug_namespace ++ (slash ++ (o.group_id ++ slash)))
          ++ (codes "NCMD" ++ (slash ++ o.node_id)) =
      ground (arith, null-false o.group_id g, null-false o.node_id n) in
    flat ∙ simp append_assoc

node_topic_contains :
    (o : NodeOptions)
    → contains
        (codes "NCMD")
        (levels (sparkplug_namespace ∷ o.group_id ∷ codes "NCMD" ∷ o.node_id ∷ []))
      ≡ true
node_topic_contains o =
    let whole : levels (sparkplug_namespace ∷ o.group_id ∷ codes "NCMD" ∷ o.node_id ∷ [])
        ≡ (sparkplug_namespace ++ (slash ++ (o.group_id ++ slash)))
          ++ (codes "NCMD" ++ (slash ++ o.node_id)) =
      simp append_assoc in
    ap (contains (codes "NCMD")) whole
    ∙ contains-append (codes "NCMD") (sparkplug_namespace ++ (slash ++ (o.group_id ++ slash)))
        (slash ++ o.node_id)

rebirth_found :
    (unset : ℕ)
    → find_metric (codes "Node Control/Rebirth") (rebirth_metric unset ∷ [])
      ≡ some (rebirth_metric unset)
unfolding find_metric same set_command_callback boolean_metric
rebirth_found unset = refl

rebirth_called :
    {P : Type 0} (unset : ℕ) (p : P)
    → on_command (rebirth_metric unset) p ≡ to_callback rebirth p ∷ []
unfolding on_command set_command_callback boolean_metric
rebirth_called unset p = refl

module _ (t : Tahu) {S : Type 0} (driver : Driver S) where
  commands_node :
      (topic payload : Bytes) (w w' : World S t.PayloadMetric)
      → contains (codes "NCMD") topic ≡ true
      → topic ≡ w.node.client_topics.node_command_topic
      → command t driver node payload w ≡ some (w', tt)
      → commands t driver topic payload w ≡ some (w', true)
  unfolding commands
  commands_node topic payload w w' in_it mine done =
      let same_topic : same topic w.node.client_topics.node_command_topic ≡ true =
        ap (same topic) (sym mine) ∙ same_refl topic in
      ground (arith, in_it, same_topic, done)

  -- What the metric that the constructor adds makes of a command with one metric.
  rebirth_calls :
      (payload : Bytes) (unset : ℕ) (p : t.PayloadMetric) (n : Publishable)
      → n.metrics ≡ rebirth_metric unset ∷ []
      → t.decode_payload payload ≡ some (p ∷ [])
      → t.metric_name p ≡ some (codes "Node Control/Rebirth")
      → handle_command t payload n ≡ some (to_callback rebirth p ∷ [])
  unfolding handle_command
  rebirth_calls payload unset p n m decoded name =
      ground (arith, m, decoded, name, rebirth_found unset, rebirth_called unset p)

  rebirth_lem :
      (payload : Bytes) (p : t.PayloadMetric) (w w' : World S t.PayloadMetric)
      → handle_command t payload (w.publishables node) ≡ some (to_callback rebirth p ∷ [])
      → t.boolean_value p ≡ true
      → publish_birth driver w ≡ some (w', tt)
      → command t driver node payload w ≡ some (with_calls (to_callback rebirth p ∷ []) w', tt)
  unfolding command perform
  rebirth_lem payload p w w' e b born =
      ap
        (λ (o : Option (List (Call t.PayloadMetric))).
          (elim o as (λ x. M S t.PayloadMetric (Unit {0})) [
            | none ↦ fault
            | some l ↦ perform t driver l
          ])
            w)
        e
      ∙ ground (arith, b, born)

  -- A message from the active client on the node's own command topic, whose payload decodes to a single
  -- metric, "Node Control/Rebirth" with the value true, to a node with a group and a name, not empty, no
  -- primary host, before and after, and no metric but the one that the constructor adds: where
  -- publishBirth returns, onMessage returns too, in the world that publishBirth comes to, with the call
  -- of the callback written down.
  pub on_message-rebirth :
      (o : NodeOptions) (unset_mode : SparkplugClientMode) (unset : ℕ) (payload : Bytes) (i : ℕ)
      (p : t.PayloadMetric) (w w' : World S t.PayloadMetric)
      → o.group_id ≢ []
      → o.node_id ≢ []
      → w.node.client_topics ≡ (new unset_mode unset (some o)).0.client_topics
      → (w.publishables node).metrics ≡ rebirth_metric unset ∷ []
      → t.decode_payload payload ≡ some (p ∷ [])
      → t.metric_name p ≡ some (codes "Node Control/Rebirth")
      → t.boolean_value p ≡ true
      → w.node.active_client ≡ some i
      → publish_birth driver w ≡ some (w', tt)
      → w'.node.client_topics.primary_host_topic ≡ []
      → on_message t driver i
          (levels (sparkplug_namespace ∷ o.group_id ∷ codes "NCMD" ∷ o.node_id ∷ []))
          payload
          w
        ≡ some (with_calls (to_callback rebirth p ∷ []) w', tt)
  on_message-rebirth o unset_mode unset payload i p w w' g n topics metrics decoded name b active
        born host =
      let topic = levels (sparkplug_namespace ∷ o.group_id ∷ codes "NCMD" ∷ o.node_id ∷ []) in
      let mine : w.node.client_topics.node_command_topic ≡ topic =
        ap (λ c. c.node_command_topic) topics ∙ node_topic o unset_mode unset g n in
      on_message_host t driver i topic payload w (with_calls (to_callback rebirth p ∷ []) w') active
        (commands_node topic payload w _ (node_topic_contains o) (sym mine) (
          rebirth_lem payload p w w'
            (rebirth_calls payload unset p (w.publishables node) metrics decoded name) b born))
        host
