-- ===== src/Node/Ledger.antt =====
-- src/Node.cpp: the requests of a publishable that wait in the clients' queues, and the outcomes that
-- wait in the node's event queue.
use cpp_sparkplug.Prelude.{
  ℕ, zero, suc, ◌+◌, some, List, [], ◌∷◌, ◌++◌, ◌≡◌, refl, ap, arith, if◌then◌else◌,
}
use cpp_sparkplug.Clients.State.{
  Source, same_source, Event, client_message, client_connected, client_disconnected, client_active,
  client_deactive, client_delivered, client_undelivered,
}
use cpp_sparkplug.Clients.{Client, Context}
use cpp_sparkplug.Clients.Flow.{sources, publishers, Flow}
use cpp_sparkplug.Node.World.{World, get_client, set_client, tagged, context, leave}

-- How often a publishable occurs.
abbrev pub count : Source → List Source → ℕ
count s [] = 0
count s (x ∷ xs) = (if same_source x s then 1 else 0) + count s xs

abbrev pub untagged : List (ℕ × Event) → List Event
untagged [] = []
untagged ((i, e) ∷ es) = e ∷ untagged es

abbrev pub in_queues : {S : Type 0} → Source → List (Client × S) → ℕ
in_queues s [] = 0
in_queues s ((k, l) ∷ ks) = count s (publishers k.publish_queue) + in_queues s ks

-- The outcomes of a publishable's messages that the node has yet to see.
abbrev pub outstanding : {S P : Type 0} → Source → World S P → ℕ
outstanding s w = count s (sources (untagged w.node.event_queue)) + in_queues s w.clients

pub count-append : (s : Source) (a b : List Source) → count s (a ++ b) ≡ count s a + count s b
count-append s [] b = omega arith
count-append s (x ∷ a) b = omega (arith, count-append s a b)

pub untagged-tagged :
    (i : ℕ) (q : List (ℕ × Event)) (es : List Event)
    → untagged (q ++ tagged i es) ≡ untagged q ++ es
untagged-tagged i [] [] = refl
untagged-tagged i [] (e ∷ es) = ap (◌∷◌ e) (untagged-tagged i [] es)
untagged-tagged i ((j, e) ∷ q) es = ap (◌∷◌ e) (untagged-tagged i q es)

count_queue :
    (s : Source) (i : ℕ) (q : List (ℕ × Event)) (es : List Event)
    → count s (sources (untagged (q ++ tagged i es)))
      ≡ count s (sources (untagged q)) + count s (sources es)
count_queue s i [] [] = refl
count_queue s i [] (client_delivered x ∷ es) = omega (arith, count_queue s i [] es)
count_queue s i [] (client_undelivered x ∷ es) = omega (arith, count_queue s i [] es)
count_queue s i [] (client_message topic payload ∷ es) = count_queue s i [] es
count_queue s i [] (client_connected ∷ es) = count_queue s i [] es
count_queue s i [] (client_disconnected ∷ es) = count_queue s i [] es
count_queue s i [] (client_active ∷ es) = count_queue s i [] es
count_queue s i [] (client_deactive ∷ es) = count_queue s i [] es
count_queue s i ((j, client_delivered x) ∷ q) es = omega (arith, count_queue s i q es)
count_queue s i ((j, client_undelivered x) ∷ q) es = omega (arith, count_queue s i q es)
count_queue s i ((j, client_message topic payload) ∷ q) es = count_queue s i q es
count_queue s i ((j, client_connected) ∷ q) es = count_queue s i q es
count_queue s i ((j, client_disconnected) ∷ q) es = count_queue s i q es
count_queue s i ((j, client_active) ∷ q) es = count_queue s i q es
count_queue s i ((j, client_deactive) ∷ q) es = count_queue s i q es

pub in_queues-set_client :
    {S : Type 0} (s : Source) (i : ℕ) (k k' : Client × S) (ks : List (Client × S))
    → get_client i ks ≡ some k
    → in_queues s (set_client i k' ks) + count s (publishers k.0.publish_queue)
      ≡ in_queues s ks + count s (publishers k'.0.publish_queue)
in_queues-set_client s i k k' [] e = cc
in_queues-set_client s zero k k' (x ∷ ks) e =
    let same : x ≡ k = ground (arith, e) in
    omega (arith, ap (λ (y : Client × _). count s (publishers y.0.publish_queue)) same)
in_queues-set_client s (suc i) k k' (x ∷ ks) e = omega (arith, in_queues-set_client s i k k' ks e)

pub in_queues-append :
    {S : Type 0} (s : Source) (ks : List (Client × S)) (k : Client × S)
    → in_queues s (ks ++ k ∷ []) ≡ in_queues s ks + count s (publishers k.0.publish_queue)
in_queues-append s [] k = omega arith
in_queues-append s (x ∷ ks) k = omega (arith, in_queues-append s ks k)

-- A call of a client adds the requests that it takes in, and none gets lost.
pub outstanding-leave :
    {S P : Type 0} {rs : List Source} (s : Source) (i : ℕ) (k : Client × S) (w : World S P)
    (c : Context S)
    → get_client i w.clients ≡ some k
    → Flow rs (context w k) c
    → outstanding s (leave i c w) ≡ outstanding s w + count s rs
outstanding-leave {S} {P} {rs} s i k w c g f = omega (
  arith,
  count_queue s i w.node.event_queue c.events,
  in_queues-set_client s i k (c.client, c.library) w.clients g,
  ap (λ (l : List Event). count s (sources l)) f.events_lem,
  ap (count s) f.flow_lem,
  count-append s (publishers k.0.publish_queue) rs,
  count-append s (sources f.raised) (publishers c.client.publish_queue),
)
