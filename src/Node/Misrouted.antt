-- ===== src/Node/Misrouted.antt =====
-- src/Node.cpp, onMessage: commands for a device that are taken for commands of the node.
use cpp_sparkplug.Prelude.{
  Bytes, ℕ, codes, true, false, same, some, [], ◌∷◌, ◌++◌, ◌≡◌, ◌≢◌, refl, ap, ◌∙◌, arith,
  append_assoc,
}
use cpp_sparkplug.Prelude.Text.{contains, contains-append}
use cpp_sparkplug.Tahu.{Tahu}
use cpp_sparkplug.Node.World.{Driver, World, SparkplugClientMode}
use cpp_sparkplug.Node.Setup.{NodeOptions, new, slash, sparkplug_namespace}
use cpp_sparkplug.Node.Events.{commands, on_message}
use cpp_sparkplug.Node.Topics.{levels}
use cpp_sparkplug.Node.Commands.{on_message_host}
use cpp_sparkplug.Node.Rebirth.{node_topic}

same_prefix : (p a b : Bytes) → same (p ++ a) (p ++ b) ≡ same a b
unfolding same
same_prefix [] a b = refl
same_prefix (x ∷ p) a b = ground (arith, same_prefix p a b)

abbrev device_command : NodeOptions → Bytes → Bytes
device_command o name =
    levels (sparkplug_namespace ∷ o.group_id ∷ codes "DCMD" ∷ o.node_id ∷ name ∷ [])

not_mine :
    (o : NodeOptions) (name : Bytes)
    → same
        (device_command o name)
        (levels (sparkplug_namespace ∷ o.group_id ∷ codes "NCMD" ∷ o.node_id ∷ []))
      ≡ false
unfolding same
not_mine o name =
    let a = codes "DCMD" ++ (slash ++ (o.node_id ++ (slash ++ name))) in
    let b = codes "NCMD" ++ (slash ++ o.node_id) in
    same_prefix sparkplug_namespace (slash ++ (o.group_id ++ (slash ++ a)))
      (slash ++ (o.group_id ++ (slash ++ b)))
    ∙ same_prefix o.group_id (slash ++ a) (slash ++ b)

named_contains :
    (o : NodeOptions) (before after : Bytes)
    → contains (codes "NCMD") (device_command o (before ++ (codes "NCMD" ++ after))) ≡ true
named_contains o before after =
    let start : Bytes =
      sparkplug_namespace
      ++ (slash
          ++ (o.group_id
              ++ (slash ++ (codes "DCMD" ++ (slash ++ (o.node_id ++ (slash ++ before))))))) in
    let whole : device_command o (before ++ (codes "NCMD" ++ after))
        ≡ start ++ (codes "NCMD" ++ after) =
      simp append_assoc in
    ap (contains (codes "NCMD")) whole ∙ contains-append (codes "NCMD") start after

module _ (t : Tahu) {S : Type 0} (driver : Driver S) where
  -- A message of the active client on the topic spBv1.0/GROUP/DCMD/NODE/DEVICE, for a node of that
  -- group and name, neither empty, without a primary host: if DEVICE has NCMD in it, then onMessage
  -- does nothing, whatever devices the node has and whatever the payload is. So a device of that name
  -- gets no commands.
  pub on_message-ncmd :
      (o : NodeOptions) (unset_mode : SparkplugClientMode) (unset : ℕ)
      (before after payload : Bytes) (i : ℕ) (w : World S t.PayloadMetric)
      → o.group_id ≢ []
      → o.node_id ≢ []
      → w.node.client_topics ≡ (new unset_mode unset (some o)).0.client_topics
      → w.node.client_topics.primary_host_topic ≡ []
      → w.node.active_client ≡ some i
      → on_message t driver i
          (levels (
            sparkplug_namespace
            ∷ o.group_id
            ∷ codes "DCMD"
            ∷ o.node_id
            ∷ (before ++ (codes "NCMD" ++ after))
            ∷ []))
          payload
          w
        ≡ some (w, tt)
  unfolding commands
  on_message-ncmd o unset_mode unset before after payload i w g n topics host active =
      let name = before ++ (codes "NCMD" ++ after) in
      let mine = ap (λ c. c.node_command_topic) topics ∙ node_topic o unset_mode unset g n in
      let other : same (device_command o name) w.node.client_topics.node_command_topic ≡ false =
        ap (same (device_command o name)) mine ∙ not_mine o name in
      on_message_host t driver i (device_command o name) payload w w active
        (ground (arith, named_contains o before after, other)) host
