-- ===== src/Node/Delivery.antt =====
-- src/Node.cpp, publish: the way of a request into the queue of the active client, and back as events.
use cpp_sparkplug.Prelude.{
  ℕ, ◌+◌, ◌≤◌, Bytes, Bool, true, ◌||◌, some, List, [], ◌∷◌, ◌++◌, ◌≡◌, ap, ◌∙◌, arith,
}
use cpp_sparkplug.Prelude.Int.{negsuc}
use cpp_sparkplug.Tahu.{Tahu}
use cpp_sparkplug.Publishable.{can_publish, publishing}
use cpp_sparkplug.Clients.State.{Source, PublishRequest}
use cpp_sparkplug.Clients.{Client, Context, put}
use cpp_sparkplug.Clients.Queue.{Transport, set_queue, request}
use cpp_sparkplug.Clients.Accounts.{Accounts, total}
use cpp_sparkplug.Clients.Termination.{request-Accounts}
use cpp_sparkplug.Node.World.{Driver, World, get_client, context, leave, with_client}
use cpp_sparkplug.Node.Publishing.{topic, send, publish}

-- The request that a publishable hands to the active client.
abbrev pub new_request : Source → Bool → Bytes → PublishRequest
new_request s is_birth name = record {
  is_birth = is_birth;
  publisher = s;
  topic = name;
  token = negsuc 0;
  retry_count = 0;
}

pub total-append :
    (q : List PublishRequest) (r : PublishRequest) → total (q ++ r ∷ []) ≡ total q + total (r ∷ [])
total-append [] r = omega arith
total-append (x ∷ q) r = omega (arith, total-append q r)

module _ {S P : Type 0} (driver : Driver S) where
  -- The world once the publishable is PUBLISHING.
  abbrev pub begun : Source → World S P → World S P
  begun s w = record w { publishables = put w.publishables s (publishing (w.publishables s)) }

  send_lem :
      (r : PublishRequest) (w : World S P) (i : ℕ) (k : Client × S) (c' : Context S)
      → w.node.active_client ≡ some i
      → get_client i w.clients ≡ some k
      → driver.request r (context w k) ≡ some c'
      → send driver r w ≡ some (leave i c' w, tt)
  unfolding send with_client
  send_lem r w i k c' a g e = ground arith

  publish_lem :
      (s : Source) (is_birth : Bool) (w : World S P) (name : Bytes)
      → topic w.node s (w.publishables s).name is_birth ≡ some name
      → can_publish (w.publishables s) || is_birth ≡ true
      → publish driver s is_birth w ≡ send driver (new_request s is_birth name) (begun s w)
  unfolding publish
  publish_lem s is_birth w name e ready = ground arith

  -- A driver whose requests are those of a queue over `net`, with `fuel`.
  module _ (t : Tahu) (int64_bytes : ℕ → Bytes) (net : Transport S) (fuel : ℕ) where
    -- A birth, or a data message of a publishable that can publish, whose topic exists, with an
    -- active client and a driver whose requests are those of a queue: with fuel for the attempts
    -- that the client's queue has left and for six of the new request, `publish` returns. The
    -- publishable is PUBLISHING before its payload is built, the request goes to the end of the
    -- queue, and each request that leaves the queue is reported to the node as undelivered, in
    -- order, and nothing else; the queue gains no attempts, and of the publishables only timers
    -- begin anew.
    pub publish-Accounts :
        (s : Source) (is_birth : Bool) (w : World S P) (i : ℕ) (k : Client × S) (name : Bytes)
        → driver.request ≡ request t int64_bytes net fuel
        → w.node.active_client ≡ some i
        → get_client i w.clients ≡ some k
        → topic w.node s (w.publishables s).name is_birth ≡ some name
        → can_publish (w.publishables s) || is_birth ≡ true
        → total k.0.publish_queue + 6 ≤ fuel
        → let c = context (begun s w) k in
          (c' : Context S) × (publish driver s is_birth w ≡ some (leave i c' (begun s w), tt))
          × Accounts (set_queue (k.0.publish_queue ++ new_request s is_birth name ∷ []) c) c'
    publish-Accounts s is_birth w i k name d a g e ready le =
        let r = new_request s is_birth name in
        let enough : total (k.0.publish_queue ++ r ∷ []) ≤ fuel =
          omega (arith, total-append k.0.publish_queue r) in
        let (c', sent, accounts) =
          request-Accounts t int64_bytes net fuel r (context (begun s w) k) enough in
        (
          c',
          publish_lem s is_birth w name e ready
              ∙ send_lem r (begun s w) i k c' a g (ap (λ f. f r (context (begun s w) k)) d ∙ sent),
          accounts,
        )
