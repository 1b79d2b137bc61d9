-- ===== src/Node/BirthOrder/Publishing.antt =====
-- src/Node.cpp, publishBirth: it returns, with the births in their order.
use cpp_sparkplug.Prelude.{
  ℕ, ◌+◌, ◌*◌, ◌≤◌, Bytes, codes, true, Option, some, List, [], ◌∷◌, ◌++◌, length, ◌≡◌, refl, ap,
  sym, subst, ◌∙◌, arith,
}
use cpp_sparkplug.Tahu.{Tahu}
use cpp_sparkplug.Publishable.{publishing}
use cpp_sparkplug.Clients.State.{Source, node, device, PublishRequest}
use cpp_sparkplug.Clients.{Client}
use cpp_sparkplug.Clients.Queue.{Transport, request}
use cpp_sparkplug.Clients.Accounts.{total}
use cpp_sparkplug.Node.World.{Driver, Node, World, get_client, tagged, leave}
use cpp_sparkplug.Node.Setup.{slash}
use cpp_sparkplug.Node.Publishing.{topic, publish, publish_devices, publish_birth}
use cpp_sparkplug.Node.Delivery.{new_request, begun, publish-Accounts}
use cpp_sparkplug.Node.Total.{HaveNames, Kept-name}
use cpp_sparkplug.Node.BirthOrder.{
  device_births, births, totals-append, get-set_client, Sends, Sends-refl, Sends-trans,
}

device_topic :
    (base id : Bytes) (n : Node) (d : ℕ) (o : Option Bytes) (name : Bytes)
    → o ≡ some name
    → n.group_base_topic ≡ base
    → n.node_id ≡ id
    → topic n (device d) o true
      ≡ some (base ++ (codes "DBIRTH" ++ (slash ++ (id ++ (slash ++ name)))))
unfolding topic
device_topic base id n d o name e b c = rw (e, b, c) refl

node_topic :
    (base id : Bytes) (n : Node) (o : Option Bytes)
    → n.group_base_topic ≡ base
    → n.node_id ≡ id
    → topic n node o true ≡ some (base ++ (codes "NBIRTH" ++ (slash ++ id)))
unfolding topic
node_topic base id n o b c = rw (b, c) refl

module _ {S P : Type 0} (driver : Driver S) (t : Tahu) (int64_bytes : ℕ → Bytes) (net : Transport S)
    (fuel : ℕ) (queued : driver.request ≡ request t int64_bytes net fuel) where
  -- A birth of one publishable.
  begun-name :
      (s x : Source) (w : World S P)
      → ((begun driver s w).publishables x).name ≡ (w.publishables x).name
  unfolding publishing
  begun-name s x w = ground arith

  publish-Sends :
      (s : Source) (w : World S P) (i : ℕ) (k : Client × S) (name : Bytes)
      → w.node.active_client ≡ some i
      → get_client i w.clients ≡ some k
      → topic w.node s (w.publishables s).name true ≡ some name
      → total k.0.publish_queue + 6 ≤ fuel
      → (w' : World S P) × (publish driver s true w ≡ some (w', tt))
        × Sends i k (new_request s true name ∷ []) w w'
  publish-Sends s w i k name a g e le =
      let (c, done, accounts) =
        publish-Accounts driver t int64_bytes net fuel s true w i k name queued a g e (ground arith)
          le in
      (
        leave i c (begun driver s w),
        done,
        record {
          after = (c.client, c.library);
          after_lem = get-set_client i k (c.client, c.library) w.clients g;
          dropped = accounts.dropped;
          node_lem = λ j. record (w.node) {
            event_queue = w.node.event_queue ++ tagged i (accounts.events_lem j);
          };
          queue_lem = accounts.queue_lem;
          total_lem = accounts.total_lem;
          names_lem = λ x. Kept-name (accounts.kept_lem x) ∙ begun-name s x w;
        },
      )

  module _ (i : ℕ) (base id : Bytes) (names : Source → Option Bytes) where
    -- What the node needs for a birth, and keeps.
    pub record CanBear (w : World S P) : Type 0 where
      pub active_lem : w.node.active_client ≡ some i
      pub base_lem : w.node.group_base_topic ≡ base
      pub id_lem : w.node.node_id ≡ id
      pub names_lem : (s : Source) → (w.publishables s).name ≡ names s

    Sends-CanBear :
        {k : Client × S} {rs : List PublishRequest} {w w' : World S P}
        → Sends i k rs w w'
        → CanBear w
        → CanBear w'
    Sends-CanBear p h = record {
      active_lem = ap (λ (n : Node). n.active_client) p.node_lem ∙ h.active_lem;
      base_lem = ap (λ (n : Node). n.group_base_topic) p.node_lem ∙ h.base_lem;
      id_lem = ap (λ (n : Node). n.node_id) p.node_lem ∙ h.id_lem;
      names_lem = λ s. p.names_lem s ∙ h.names_lem s;
    }

    abbrev Bears :
        Client × S → List PublishRequest → World S P → Option (World S P × Unit {0}) → Type 0
    Bears k rs w o = (w' : World S P) × (o ≡ some (w', tt)) × Sends i k rs w w'

    devices-Bears :
        (ds : List ℕ) (w : World S P) (k : Client × S)
        → HaveNames names ds
        → get_client i w.clients ≡ some k
        → CanBear w
        → total k.0.publish_queue + 6 * length ds ≤ fuel
        → Bears k (device_births base id names ds) w (publish_devices driver ds w)
    unfolding publish_devices
    devices-Bears [] w k has g h le = (w, refl, Sends-refl i k w g)
    devices-Bears (d ∷ ds) w k ((name, e), has) g h le =
        let r =
          new_request (device d) true
            (base ++ (codes "DBIRTH" ++ (slash ++ (id ++ (slash ++ name))))) in
        let (x, done, p) =
          publish-Sends (device d) w i k _ h.active_lem g
            (device_topic base id w.node d (w.publishables (device d)).name name
              (h.names_lem (device d) ∙ e) h.base_lem h.id_lem)
            (omega (arith, le)) in
        let (y, later, q) =
          devices-Bears ds x p.after has p.after_lem (Sends-CanBear p h)
            (omega (arith, le, p.total_lem, totals-append k.0.publish_queue (r ∷ []))) in
        let list : device_births base id names (d ∷ ds) ≡ r ∷ device_births base id names ds =
          rw (e, device_births) refl in
        subst (λ rs. Bears k rs w (publish_devices driver (d ∷ ds) w)) (sym list)
          (
            y,
            ground (arith, done, later),
            Sends-trans i k (r ∷ []) (device_births base id names ds) w x y p q,
          )

    -- A node with an active client and devices with names, over clients whose requests are those of
    -- a queue: with fuel for the attempts that the queue has left, and six for each birth,
    -- publishBirth returns; the requests that come to the end of the queue are the birth of the node
    -- and then those of the devices, in the order of their list, with their topics; each request that
    -- leaves the queue is reported to the node as undelivered, in order, and nothing else; and the
    -- rest of the node is as before.
    pub publish_birth-births :
        (w : World S P) (k : Client × S)
        → w.node.active_client ≡ some i
        → w.node.group_base_topic ≡ base
        → w.node.node_id ≡ id
        → ((s : Source) → (w.publishables s).name ≡ names s)
        → HaveNames names w.node.devices
        → get_client i w.clients ≡ some k
        → total k.0.publish_queue + 6 * (1 + length w.node.devices) ≤ fuel
        → (w' : World S P) × (publish_birth driver w ≡ some (w', tt))
          × Sends i k (births base id names w.node.devices) w w'
    unfolding publish_birth
    publish_birth-births w k a b c named has g le =
        let h : CanBear w = record {
          active_lem = a;
          base_lem = b;
          id_lem = c;
          names_lem = named;
        } in
        let r = new_request node true (base ++ (codes "NBIRTH" ++ (slash ++ id))) in
        let (x, done, p) =
          publish-Sends node w i k _ a g (node_topic base id w.node (w.publishables node).name b c)
            (omega (arith, le)) in
        let same = ap (λ (n : Node). n.devices) p.node_lem in
        let (y, later, q) =
          devices-Bears w.node.devices x p.after has p.after_lem (Sends-CanBear p h)
            (omega (arith, le, p.total_lem, totals-append k.0.publish_queue (r ∷ []))) in
        (
          y,
          ground (arith, done, same, later),
          Sends-trans i k (r ∷ []) (device_births base id names w.node.devices) w x y p q,
        )
