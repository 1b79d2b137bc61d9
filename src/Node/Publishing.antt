-- ===== src/Node/Publishing.antt =====
-- src/Node.cpp: publish requests and births, and the client that they go to.
use cpp_sparkplug.Prelude.{
  ℕ, Bytes, codes, Bool, true, false, ◌&&◌, not, Option, none, some, List, [], ◌∷◌, ◌++◌, ◌==◌,
  if◌then◌else◌, any,
}
use cpp_sparkplug.Prelude.Int.{negsuc}
use cpp_sparkplug.Publishable.{can_publish, publishing}
use cpp_sparkplug.Clients.State.{Source, node, device, PublishRequest}
use cpp_sparkplug.Node.World.{
  Driver, Publisher, Node, M, ◌>>=◌, ◌>>◌, pure, fault, read, modify_node, modify_publishable,
  with_client, always, no_result,
}
use cpp_sparkplug.Node.Setup.{slash}

-- The topic of a message; a device without a name is a fault.
unfoldable pub topic : Node → Source → Option Bytes → Bool → Option Bytes
topic n node name is_birth = some (
    n.group_base_topic
    ++ ((if is_birth then codes "NBIRTH" else codes "NDATA") ++ (slash ++ n.node_id)))
topic n (device d) none is_birth = none
topic n (device d) (some name) is_birth = some (
    n.group_base_topic
    ++ ((if is_birth then codes "DBIRTH" else codes "DDATA")
        ++ (slash ++ (n.node_id ++ (slash ++ name)))))

abbrev pub same_client : Option ℕ → Option ℕ → Bool
same_client none none = true
same_client (some i) (some j) = i == j
same_client _ _ = false

module _ {S P : Type 0} (driver : Driver S) where
  -- getActiveClient()->request(…): without an active client this follows a NULL pointer.
  unfoldable pub send : PublishRequest → M S P (Unit {0})
  unfolding with_client
  send r = do
    active ← read (λ w. w.node.active_client)
    elim active [ none ↦ fault | some i ↦ with_client i (no_result (driver.request r)) ]

  -- publish, which returns the 0 of `request`
  unfoldable pub publish : Source → Bool → M S P (Unit {0})
  unfolding topic send
  publish source is_birth = do
    p ← read (λ w. w.publishables source)
    if not (can_publish p) && not is_birth then pure tt else do
      modify_publishable source publishing
      n ← read (λ w. w.node)
      elim (topic n source p.name is_birth) [
        | none ↦ fault
        | some name ↦ send (record {
          is_birth = is_birth;
          publisher = source;
          topic = name;
          token = negsuc 0;
          retry_count = 0;
        })
      ]

  -- The loop of publishBirth over the devices.
  unfoldable pub publish_devices : List ℕ → M S P (Unit {0})
  unfolding publish
  publish_devices [] = pure tt
  publish_devices (d ∷ ds) = publish (device d) true >> publish_devices ds

  unfoldable pub publish_birth : M S P (Unit {0})
  unfolding publish_devices
  publish_birth = do
    publish node true
    devices ← read (λ w. w.node.devices)
    publish_devices devices

  -- requestPublish, from a device that the node may not have
  unfoldable pub request_publish : Source → Bool → M S P (Unit {0})
  unfolding publish
  request_publish node is_birth = publish node is_birth
  request_publish (device d) is_birth = do
    devices ← read (λ w. w.node.devices)
    if any (λ e. e == d) devices then publish (device d) is_birth else pure tt

  -- The old client is deactivated if there is one, and another than the new one.
  unfoldable pub retire : Option ℕ → Option ℕ → M S P (Unit {0})
  unfolding with_client
  retire new none = pure tt
  retire new (some old) =
      if same_client new (some old)
      then pure tt
      else with_client old (always driver.deactivate) >> pure tt

  unfoldable pub set_active_client : Option ℕ → M S P (Unit {0})
  unfolding retire publish_birth
  set_active_client new = do
    old ← read (λ w. w.node.active_client)
    retire new old
    modify_node (λ n. record n { active_client = new })
    elim new [ none ↦ pure tt | some _ ↦ publish_birth ]

  unfoldable pub activate_client : ℕ → M S P (Unit {0})
  unfolding with_client
  activate_client i = with_client i (always driver.activate) >> pure tt

  unfoldable pub deactivate_client : ℕ → M S P (Unit {0})
  unfolding set_active_client
  deactivate_client i = do
    active ← read (λ w. w.node.active_client)
    if same_client (some i) active then set_active_client none else pure tt

  -- The node as the Publisher of its devices.
  unfoldable pub node_publisher : Publisher S P
  unfolding request_publish
  node_publisher = record { request = request_publish }
