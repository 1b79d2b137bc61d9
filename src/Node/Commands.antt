-- ===== src/Node/Commands.antt =====
-- src/Node.cpp, onMessage: the way of a command to the handlers of the node's and the devices' metrics.
use cpp_sparkplug.Prelude.{
  subst, Bool-cases, inl, inr, same→eq, same_refl, reverse, ℕ, ◌+◌, ◌-◌, ◌%◌, ◌^◌, ◌<◌, Bytes,
  codes, true, false, not, null, same, All, Option, none, some, List, [], ◌∷◌, ◌++◌, ltb, length,
  drop, ◌≡◌, ◌≢◌, refl, ap, sym, ◌∙◌, arith, append-nil, append_assoc,
}
use cpp_sparkplug.Prelude.Text.{contains, contains-append}
use cpp_sparkplug.Tahu.{Tahu}
use cpp_sparkplug.Metric.{Call, to_handler, to_callback, rebirth, user}
use cpp_sparkplug.Publishable.{Publishable, handle_command}
use cpp_sparkplug.Publishable.Naming.{IsNamed}
use cpp_sparkplug.Publishable.Receivers.{
  Receives, IsUsers, is_application, Receives-users, handle_command-Receives,
}
use cpp_sparkplug.Clients.State.{Source, device}
use cpp_sparkplug.Node.World.{Driver, World, M, fault, SparkplugClientMode}
use cpp_sparkplug.Node.Setup.{NodeOptions, new, slash, sparkplug_namespace}
use cpp_sparkplug.Node.Publishing.{same_client}
use cpp_sparkplug.Node.Events.{find_device, perform, command, commands, host_state, on_message}
use cpp_sparkplug.Node.Topics.{levels, drop-device_command_topic}

-- The world in which calls were made.
abbrev pub with_calls : {S P : Type 0} → List (Call P) → World S P → World S P
with_calls calls w = record w { calls = w.calls ++ calls }

differs : (a b : Bytes) → a ≢ b → same a b ≡ false
differs a b other = elim (Bool-cases (same a b)) [
  | inl is ↦ absurd (other (same→eq a b is))
  | inr no_match ↦ no_match
]

null-middle : (before : List ℕ) (d : ℕ) (after : List ℕ) → null (before ++ d ∷ after) ≡ false
null-middle [] d after = refl
null-middle (k ∷ before) d after = refl

-- The device that a name finds: the first of that name.
find_device_first :
    (store : Source → Publishable) (name : Bytes) (before after : List ℕ) (d : ℕ)
    → All (λ k. (n : Bytes) × ((store (device k)).name ≡ some n) × (n ≢ name)) before
    → (store (device d)).name ≡ some name
    → find_device store name (before ++ d ∷ after) ≡ some (some d)
unfolding find_device
find_device_first store name [] after d h e = ground (arith, e, same_refl name)
find_device_first store name (k ∷ before) after d ((n, named, other), hs) e = ground (
  arith,
  named,
  differs name n (λ same. other (sym same)),
  find_device_first store name before after d hs e,
)

module _ (t : Tahu) {S : Type 0} (driver : Driver S) where
  perform_lem :
      (calls : List (Call t.PayloadMetric)) (w : World S t.PayloadMetric)
      → All (λ c. is_application c ≡ true) calls
      → perform t driver calls w ≡ some (with_calls calls w, tt)
  unfolding perform
  perform_lem [] w h = ap (λ l. some (record w { calls = l }, tt)) (sym (append-nil w.calls))
  perform_lem (to_handler f p ∷ rest) w (h, hs) =
      perform_lem rest (record w { calls = w.calls ++ to_handler f p ∷ [] }) hs
      ∙ ap (λ l. some (record w { calls = l }, tt)) (append_assoc w.calls _ rest)
  perform_lem (to_callback (user f) p ∷ rest) w (h, hs) =
      perform_lem rest (record w { calls = w.calls ++ to_callback (user f) p ∷ [] }) hs
      ∙ ap (λ l. some (record w { calls = l }, tt)) (append_assoc w.calls _ rest)
  perform_lem (to_callback rebirth p ∷ rest) w (h, hs) = cc h

  command_lem :
      (s : Source) (payload : Bytes) (calls : List (Call t.PayloadMetric))
      (w : World S t.PayloadMetric)
      → handle_command t payload (w.publishables s) ≡ some calls
      → All (λ c. is_application c ≡ true) calls
      → command t driver s payload w ≡ some (with_calls calls w, tt)
  unfolding command
  command_lem s payload calls w e h =
      ap
        (λ (o : Option (List (Call t.PayloadMetric))).
          (elim o as (λ x. M S t.PayloadMetric (Unit {0})) [
            | none ↦ fault
            | some l ↦ perform t driver l
          ])
            w)
        e
      ∙ perform_lem calls w h

  quiet_host :
      (i : ℕ) (topic payload : Bytes) (w : World S t.PayloadMetric)
      → w.node.client_topics.primary_host_topic ≡ []
      → host_state t driver i topic payload w ≡ some (w, tt)
  unfolding host_state
  quiet_host i topic payload w e = rw (ap null e) refl

  -- A command that finds its device.
  commands_device :
      (topic payload name : Bytes) (d : ℕ) (calls : List (Call t.PayloadMetric))
      (w : World S t.PayloadMetric)
      → contains (codes "NCMD") topic ≡ false
      → contains (codes "DCMD") topic ≡ true
      → null w.node.devices ≡ false
      → let size = (length w.node.client_topics.device_command_topic + 2 ^ 64 - 1) % 2 ^ 64 in
        drop size topic ≡ name
        → ltb size (length topic) ≡ true
        → find_device w.publishables name w.node.devices ≡ some (some d)
        → handle_command t payload (w.publishables (device d)) ≡ some calls
        → All (λ c. is_application c ≡ true) calls
        → commands t driver topic payload w ≡ some (with_calls calls w, true)
  unfolding commands
  commands_device topic payload name d calls w no_node device_command some_device cut long found e
        h =
      let done = command_lem (device d) payload calls w e h in
      let found' = ap (λ n. find_device w.publishables n w.node.devices) cut ∙ found in
      ground (arith, no_node, device_command, some_device, long, found', done)

  pub on_message_host :
      (i : ℕ) (topic payload : Bytes) (w w' : World S t.PayloadMetric)
      → w.node.active_client ≡ some i
      → commands t driver topic payload w ≡ some (w', true)
      → w'.node.client_topics.primary_host_topic ≡ []
      → on_message t driver i topic payload w ≡ some (w', tt)
  unfolding on_message
  on_message_host i topic payload w w' active e host =
      let mine : same_client (some i) w.node.active_client ≡ true = ground (arith, active) in
      ground (arith, mine, e, quiet_host i topic payload w' host)

  command_topic :
      (o : NodeOptions) (name : Bytes)
      → contains
          (codes "DCMD")
          (levels (sparkplug_namespace ∷ o.group_id ∷ codes "DCMD" ∷ o.node_id ∷ name ∷ []))
        ≡ true
  command_topic o name =
      let whole : levels (sparkplug_namespace ∷ o.group_id ∷ codes "DCMD" ∷ o.node_id ∷ name ∷ [])
          ≡ (sparkplug_namespace ++ (slash ++ (o.group_id ++ slash)))
            ++ (codes "DCMD" ++ (slash ++ (o.node_id ++ (slash ++ name)))) =
        simp append_assoc in
      ap (contains (codes "DCMD")) whole
      ∙ contains-append (codes "DCMD") (sparkplug_namespace ++ (slash ++ (o.group_id ++ slash)))
          (slash ++ (o.node_id ++ (slash ++ name)))

  on_message_found :
      (o : NodeOptions) (unset_mode : SparkplugClientMode) (unset : ℕ) (name payload : Bytes)
      (i d : ℕ) (calls : List (Call t.PayloadMetric)) (w : World S t.PayloadMetric)
      → o.group_id ≢ []
      → o.node_id ≢ []
      → null name ≡ false
      → w.node.client_topics ≡ (new unset_mode unset (some o)).0.client_topics
      → w.node.client_topics.primary_host_topic ≡ []
      → length w.node.client_topics.device_command_topic < 2 ^ 64
      → w.node.active_client ≡ some i
      → null w.node.devices ≡ false
      → find_device w.publishables name w.node.devices ≡ some (some d)
      → handle_command t payload (w.publishables (device d)) ≡ some calls
      → All (λ c. is_application c ≡ true) calls
      → let topic =
          levels (sparkplug_namespace ∷ o.group_id ∷ codes "DCMD" ∷ o.node_id ∷ name ∷ []) in
        contains (codes "NCMD") topic ≡ false
        → on_message t driver i topic payload w ≡ some (with_calls calls w, tt)
  on_message_found o unset_mode unset name payload i d calls w g n named topics host small active
        some_device found e h no_node =
      let topic =
        levels (sparkplug_namespace ∷ o.group_id ∷ codes "DCMD" ∷ o.node_id ∷ name ∷ []) in
      let subscribed = ap (λ c. c.device_command_topic) topics in
      let cut =
        drop-device_command_topic o unset_mode unset name g n
          (subst (λ s. length s < 2 ^ 64) subscribed small) in
      let size : (length w.node.client_topics.device_command_topic + 2 ^ 64 - 1) % 2 ^ 64
          ≡ (length (new unset_mode unset (some o)).0.client_topics.device_command_topic
              + 2 ^ 64
              - 1)
            % 2 ^ 64 =
        ap (λ s. (length s + 2 ^ 64 - 1) % 2 ^ 64) subscribed in
      on_message_host i topic payload w (with_calls calls w) active
        (commands_device topic payload name d calls w no_node (command_topic o name) some_device
          (ap (λ k. drop k topic) size ∙ cut.0)
          (ap (λ k. ltb k (length topic)) size ∙ cut.1 ∙ ap not named) found e h)
        host

  -- A message of the active client on the topic spBv1.0/GROUP/DCMD/NODE/DEVICE, without NCMD in it, for
  -- a node of that group and name, neither empty, without a primary host. Where DEVICE is not empty, and
  -- some device of that name stands in the node's list, before which all have other names; where the
  -- payload decodes to metrics that all have names; where the subscribed topic has fewer than 2^64
  -- bytes; and where no metric of the device has the callback
  -- of a rebirth: onMessage returns, and what it changes are the calls that it makes. These are, from
  -- the payload's last metric to its first, the handler and then the callback of the first metric of
  -- that name of the first device of that name.
  pub on_message-device :
      (o : NodeOptions) (unset_mode : SparkplugClientMode) (unset : ℕ) (name payload : Bytes)
      (i d : ℕ) (before after : List ℕ) (cs : List t.PayloadMetric) (w : World S t.PayloadMetric)
      → o.group_id ≢ []
      → o.node_id ≢ []
      → null name ≡ false
      → w.node.client_topics ≡ (new unset_mode unset (some o)).0.client_topics
      → w.node.client_topics.primary_host_topic ≡ []
      → length w.node.client_topics.device_command_topic < 2 ^ 64
      → w.node.active_client ≡ some i
      → w.node.devices ≡ before ++ d ∷ after
      → All (λ k. (n : Bytes) × ((w.publishables (device k)).name ≡ some n) × (n ≢ name)) before
      → (w.publishables (device d)).name ≡ some name
      → t.decode_payload payload ≡ some cs
      → All (IsNamed t) cs
      → All IsUsers (w.publishables (device d)).metrics
      → let topic =
          levels (sparkplug_namespace ∷ o.group_id ∷ codes "DCMD" ∷ o.node_id ∷ name ∷ []) in
        contains (codes "NCMD") topic ≡ false
        → (calls : List (Call t.PayloadMetric)) × (on_message t driver i topic payload w
            ≡ some (with_calls calls w, tt))
          × Receives t (w.publishables (device d)).metrics (reverse cs) calls
  on_message-device o unset_mode unset name payload i d before after cs w g n named topics host
        small active listed others called decoded names users no_node =
      let (calls, e, r) =
        handle_command-Receives t payload (w.publishables (device d)) cs decoded names in
      (
        calls,
        on_message_found o unset_mode unset name payload i d calls w g n named topics host small
            active (ap null listed ∙ null-middle before d after)
            (ap (find_device w.publishables name) listed
              ∙ find_device_first w.publishables name before after d others called)
            e (Receives-users t (w.publishables (device d)).metrics (reverse cs) calls users r)
            no_node,
        r,
      )
