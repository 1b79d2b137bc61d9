-- ===== src/Node/Topics.antt =====
-- Node.cpp, configureTopics, publish and onMessage: topics of messages and the device that one names.
use cpp_sparkplug.Prelude.{
  ℕ, ◌+◌, ◌-◌, ◌%◌, ◌^◌, ◌<◌, Bytes, codes, Bool, true, false, not, null, none, some, List, [], ◌∷◌,
  ◌++◌, ltb, if◌then◌else◌, length, drop, ◌≡◌, ◌≢◌, refl, ap, ap₂, ◌∙◌, arith, length-append,
  drop-append, append_assoc,
}
use cpp_sparkplug.Clients.State.{node, device}
use cpp_sparkplug.Node.World.{SparkplugClientMode}
use cpp_sparkplug.Node.Setup.{NodeOptions, new, slash, sparkplug_namespace}
use cpp_sparkplug.Node.Publishing.{topic}

-- A text of the topic's levels, with slashes between them.
abbrev pub levels : List Bytes → Bytes
levels [] = []
levels (l ∷ []) = l
levels (l ∷ m ∷ rest) = l ++ (slash ++ levels (m ∷ rest))

pub null-false : (s : Bytes) → s ≢ [] → null s ≡ false
null-false [] h = absurd (h refl)
null-false (c ∷ s) h = refl

configured :
    (o : NodeOptions) (unset_mode : SparkplugClientMode) (unset : ℕ)
    → o.group_id ≢ []
    → o.node_id ≢ []
    → let n = (new unset_mode unset (some o)).0 in
      (n.topics_configured ≡ true)
      × (n.node_id ≡ o.node_id)
      × (n.group_base_topic ≡ sparkplug_namespace ++ (slash ++ (o.group_id ++ slash)))
      × (n.client_topics.device_command_topic
          ≡ (sparkplug_namespace ++ (slash ++ (o.group_id ++ slash)))
            ++ (codes "DCMD" ++ (slash ++ (o.node_id ++ codes "/+"))))
unfolding new
configured o unset_mode unset g n = ground (arith, null-false o.group_id g, null-false o.node_id n)

-- The messages of a node with a group and a name go to spBv1.0/GROUP/NBIRTH/NODE and NDATA, and
-- those of its named devices to spBv1.0/GROUP/DBIRTH/NODE/DEVICE and DDATA.
pub topic-new :
    (o : NodeOptions) (unset_mode : SparkplugClientMode) (unset : ℕ) (d : ℕ) (name : Bytes)
    (is_birth : Bool)
    → o.group_id ≢ []
    → o.node_id ≢ []
    → let n = (new unset_mode unset (some o)).0 in
      (topic n node none is_birth
        ≡ some (
            levels (
              sparkplug_namespace
              ∷ o.group_id
              ∷ (if is_birth then codes "NBIRTH" else codes "NDATA")
              ∷ o.node_id
              ∷ [])))
      × (topic n (device d) (some name) is_birth
          ≡ some (
              levels (
                sparkplug_namespace
                ∷ o.group_id
                ∷ (if is_birth then codes "DBIRTH" else codes "DDATA")
                ∷ o.node_id
                ∷ name
                ∷ [])))
unfolding topic
topic-new o unset_mode unset d name is_birth g n =
    let (_, i, b, _) = configured o unset_mode unset g n in
    (rw (i, b) (simp append_assoc), rw (i, b) (simp append_assoc))

-- The text of a device command topic before the name of the device.
abbrev pub command_prefix : NodeOptions → Bytes
command_prefix o =
    (sparkplug_namespace ++ (slash ++ (o.group_id ++ slash)))
    ++ (codes "DCMD" ++ (slash ++ (o.node_id ++ slash)))

subscription :
    (o : NodeOptions) (unset_mode : SparkplugClientMode) (unset : ℕ)
    → o.group_id ≢ []
    → o.node_id ≢ []
    → (new unset_mode unset (some o)).0.client_topics.device_command_topic
      ≡ command_prefix o ++ codes "+"
subscription o unset_mode unset g n =
    let (_, _, _, d) = configured o unset_mode unset g n in rw d (simp append_assoc)

pub addressed :
    (o : NodeOptions) (name : Bytes)
    → levels (sparkplug_namespace ∷ o.group_id ∷ codes "DCMD" ∷ o.node_id ∷ name ∷ [])
      ≡ command_prefix o ++ name
addressed o name = simp append_assoc

longer : (s u : Bytes) → ltb (length s) (length (s ++ u)) ≡ not (null u)
longer s [] = ground (arith, length-append s [])
longer s (c ∷ u) = ground (arith, length-append s (c ∷ u))

-- A command for a device, on the topic spBv1.0/GROUP/DCMD/NODE/DEVICE, is longer than the size at which
-- `onMessage` cuts it exactly if the device's name is not empty, and what is cut off is the name. The
-- size is that of the subscription less one, as a size_t.
pub drop-device_command_topic :
    (o : NodeOptions) (unset_mode : SparkplugClientMode) (unset : ℕ) (name : Bytes)
    → o.group_id ≢ []
    → o.node_id ≢ []
    → let n = (new unset_mode unset (some o)).0 in
      let size = (length n.client_topics.device_command_topic + 2 ^ 64 - 1) % 2 ^ 64 in
      let received =
        levels (sparkplug_namespace ∷ o.group_id ∷ codes "DCMD" ∷ o.node_id ∷ name ∷ []) in
      length n.client_topics.device_command_topic < 2 ^ 64
      → (drop size received ≡ name) × (ltb size (length received) ≡ not (null name))
drop-device_command_topic o unset_mode unset name g n small =
    let d = (new unset_mode unset (some o)).0.client_topics.device_command_topic in
    let long : length d ≡ length (command_prefix o) + 1 =
      ap length (subscription o unset_mode unset g n)
      ∙ length-append (command_prefix o) (codes "+") in
    let size : (length d + 2 ^ 64 - 1) % 2 ^ 64 ≡ length (command_prefix o) = omega (arith, long) in
    (
      ap₂ drop size (addressed o name) ∙ drop-append (command_prefix o) name,
      ap₂ (λ k l. ltb k (length l)) size (addressed o name) ∙ longer (command_prefix o) name,
    )
