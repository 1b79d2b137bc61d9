-- ===== src/Node/BirthOrder.antt =====
-- src/Node.cpp, publishBirth: the births of a node and its devices, in the queue of the active client.
pub mod Publishing
use cpp_sparkplug.Prelude.{
  ℕ, zero, suc, ◌+◌, ◌*◌, ◌≤◌, Bytes, codes, true, Option, none, some, List, [], ◌∷◌, ◌++◌, length,
  ◌≡◌, refl, ap, sym, subst, ◌∙◌, arith, append-nil, append_assoc,
}
use cpp_sparkplug.Tahu.{Tahu}
use cpp_sparkplug.Publishable.{publishing}
use cpp_sparkplug.Clients.State.{Source, node, device, PublishRequest, Event}
use cpp_sparkplug.Clients.{Client}
use cpp_sparkplug.Clients.Queue.{Transport, request}
use cpp_sparkplug.Clients.Accounts.{labels, labels-append, reports, reports-append, total}
use cpp_sparkplug.Node.World.{Driver, Node, World, get_client, set_client, tagged, leave}
use cpp_sparkplug.Node.Setup.{slash}
use cpp_sparkplug.Node.Publishing.{topic, publish, publish_devices, publish_birth}
use cpp_sparkplug.Node.Delivery.{new_request, begun, publish-Accounts}
use cpp_sparkplug.Node.Total.{HaveNames, Kept-name}

-- What a birth asks for, in a node with a base topic and an id: the node first, and then the devices.
abbrev pub device_births : Bytes → Bytes → (Source → Option Bytes) → List ℕ → List PublishRequest
device_births base id names [] = []
device_births base id names (d ∷ ds) = elim (names (device d)) [
  | none ↦ device_births base id names ds
  | some name ↦
      new_request (device d) true (base ++ (codes "DBIRTH" ++ (slash ++ (id ++ (slash ++ name)))))
      ∷ device_births base id names ds
]

abbrev pub births : Bytes → Bytes → (Source → Option Bytes) → List ℕ → List PublishRequest
births base id names ds =
    new_request node true (base ++ (codes "NBIRTH" ++ (slash ++ id)))
    ∷ device_births base id names ds

pub totals-append : (a b : List PublishRequest) → total (a ++ b) ≡ total a + total b
totals-append [] b = omega arith
totals-append (r ∷ a) b = omega (arith, totals-append a b)

pub get-set_client :
    {S : Type 0} (i : ℕ) (k x : Client × S) (ks : List (Client × S))
    → get_client i ks ≡ some k
    → get_client i (set_client i x ks) ≡ some x
get-set_client i k x [] e = cc e
get-set_client zero k x (y ∷ ks) e = refl
get-set_client (suc i) k x (y ∷ ks) e = get-set_client i k x ks e

tagged-append : (i : ℕ) (a b : List Event) → tagged i (a ++ b) ≡ tagged i a ++ tagged i b
tagged-append i [] b = refl
tagged-append i (e ∷ a) b = ap (◌∷◌ (i, e)) (tagged-append i a b)

-- From w to w' the requests `rs` came to the end of the queue of client i, each request that left the
-- front was reported to the node as undelivered, in order, and nothing else; and the node is as before.
pub record Sends {S P : Type 0} (i : ℕ) (k : Client × S) (rs : List PublishRequest)
    (w w' : World S P) : Type 0 where
  pub after : Client × S
  pub after_lem : get_client i w'.clients ≡ some after
  pub dropped : List PublishRequest
  pub node_lem :
      w'.node ≡ record (w.node) { event_queue = w.node.event_queue ++ tagged i (reports dropped) }
  pub queue_lem :
      labels (k.0.publish_queue ++ rs) ≡ labels dropped ++ labels (after.0.publish_queue)
  pub total_lem : total (after.0.publish_queue) ≤ total (k.0.publish_queue ++ rs)
  pub names_lem : (s : Source) → (w'.publishables s).name ≡ (w.publishables s).name

module _ {S P : Type 0} where
  pub Sends-refl :
      (i : ℕ) (k : Client × S) (w : World S P) → get_client i w.clients ≡ some k → Sends i k [] w w
  Sends-refl i k w e = record {
    after = k;
    after_lem = e;
    dropped = [];
    node_lem = λ j. record (w.node) { event_queue = sym (append-nil w.node.event_queue) j };
    queue_lem = ap labels (append-nil k.0.publish_queue);
    total_lem = omega (arith, ap total (append-nil k.0.publish_queue));
    names_lem = λ s. refl;
  }

  pub Sends-trans :
      (i : ℕ) (k : Client × S) (rs ss : List PublishRequest) (a b c : World S P)
      (p : Sends i k rs a b)
      → Sends i p.after ss b c
      → Sends i k (rs ++ ss) a c
  Sends-trans i k rs ss a b c p q = record {
    after = q.after;
    after_lem = q.after_lem;
    dropped = p.dropped ++ q.dropped;
    node_lem =
        q.node_lem
        ∙ ap
            (λ (n : Node). record n { event_queue = n.event_queue ++ tagged i (reports q.dropped) })
            p.node_lem
        ∙ ap (λ (l : List (ℕ × Event)). record (a.node) { event_queue = l })
            (append_assoc a.node.event_queue (tagged i (reports p.dropped))
                (tagged i (reports q.dropped))
              ∙ ap (◌++◌ a.node.event_queue) (
                  sym (tagged-append i (reports p.dropped) (reports q.dropped))
                  ∙ ap (tagged i) (sym (reports-append p.dropped q.dropped))));
    queue_lem =
        ap labels (sym (append_assoc k.0.publish_queue rs ss))
        ∙ labels-append (k.0.publish_queue ++ rs) ss
        ∙ ap (λ (l : List PublishRequest). l ++ labels ss) p.queue_lem
        ∙ append_assoc (labels p.dropped) (labels p.after.0.publish_queue) (labels ss)
        ∙ ap (◌++◌ (labels p.dropped))
            (sym (labels-append p.after.0.publish_queue ss) ∙ q.queue_lem)
        ∙ sym (append_assoc (labels p.dropped) (labels q.dropped) (labels q.after.0.publish_queue))
        ∙ ap (λ (l : List PublishRequest). l ++ labels q.after.0.publish_queue)
            (sym (labels-append p.dropped q.dropped));
    total_lem = omega (
      arith,
      p.total_lem,
      q.total_lem,
      totals-append k.0.publish_queue (rs ++ ss),
      totals-append rs ss,
      totals-append k.0.publish_queue rs,
      totals-append p.after.0.publish_queue ss,
    );
    names_lem = λ s. q.names_lem s ∙ p.names_lem s;
  }
