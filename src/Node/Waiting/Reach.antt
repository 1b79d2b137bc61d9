-- ===== src/Node/Waiting/Reach.antt =====
-- src/Node.h: a node with a primary host, in any order of calls and callbacks before the host is online.
use cpp_sparkplug.Prelude.{
  ℕ, ◌+◌, Bytes, Bool, true, false, null, not, Option, none, some, List, [], ◌∷◌, ◌++◌, ◌≡◌, refl,
  ap, arith,
}
use cpp_sparkplug.Prelude.Int.{pos, eq_ℤ}
use cpp_sparkplug.Tahu.{Tahu}
use cpp_sparkplug.Clients.State.{Source, PublishRequest}
use cpp_sparkplug.Clients.{Client, Context}
use cpp_sparkplug.Clients.Flow.{publishers}
use cpp_sparkplug.Node.World.{Driver, World}
use cpp_sparkplug.Node.Setup.{
  EnableResult, enable_success, enable_invalid_topics, enable_no_clients, enable_client_config_fail,
  enable, configure_all, add_client, add_device,
}
use cpp_sparkplug.Node.Ledger.{count, in_queues}
use cpp_sparkplug.Node.Only.{Only, Only-some, Only-then, Only-if, Only-choose}
use cpp_sparkplug.Node.Reach.{
  Step, Reach, start, later, enables, executes, syncs, asks_active, stops, requests, adds_device,
  adds_client, changes, notices,
}
use cpp_sparkplug.Node.Waiting.{IsIdle, IsUnheard, AreIdle, Waits, IsWaiting}
use cpp_sparkplug.Node.Waiting.Calls.{Only-client, no_result-Unheard, always-Unheard}
use cpp_sparkplug.Node.Waiting.Events.{
  sync-StillWaits, is_active-StillWaits, execute-StillWaits, stop-StillWaits,
  request_publish-StillWaits,
}

AreIdle-append :
    {S : Type 0} (ks : List (Client × S)) (k : Client × S)
    → AreIdle ks
    → IsIdle k.0
    → AreIdle (ks ++ k ∷ [])
AreIdle-append [] k h p = (p, tt)
AreIdle-append (x ∷ ks) k (h, hs) p = (h, AreIdle-append ks k hs p)

in_queues-AreIdle :
    {S : Type 0} (s : Source) (ks : List (Client × S)) → AreIdle ks → in_queues s ks ≡ 0
in_queues-AreIdle s [] h = refl
in_queues-AreIdle s (x ∷ ks) (h, hs) =
    omega (
      arith,
      ap (λ (q : List PublishRequest). count s (publishers q)) h.1,
      in_queues-AreIdle s ks hs,
    )

module _ (t : Tahu) {S N : Type 0} (driver : Driver S)
    (on_notice : N → Context S → Option (Context S)) (added : Client × S → Type 0) (host : Bytes)
    (waits : Waits host driver) where
  configure_all-StillWaits :
      (i : ℕ) (ks : List (Client × S)) (w : World S t.PayloadMetric)
      → IsWaiting host w
      → Only
          (λ (y : World S t.PayloadMetric × Bool). IsWaiting host y.0)
          (configure_all driver i ks w)
  unfolding configure_all
  configure_all-StillWaits i [] w h = Only-some _ (w, true) h
  configure_all-StillWaits i (k ∷ ks) w h =
      Only-then
        (Only-client host i _
          (always-Unheard host (driver.configure (some w.node.client_topics))
            (waits.configure_lem (some w.node.client_topics)))
          w h)
        (λ x p.
          Only-if (eq_ℤ x.1 (pos 0)) _ _ x.0 (λ _. configure_all-StillWaits (i + 1) ks x.0 p)
            (λ _. Only-some _ (x.0, false) p))

  switched-IsWaiting :
      (w : World S t.PayloadMetric)
      → IsWaiting host w
      → IsWaiting host (record w { node = record (w.node) { enabled = true } })
  switched-IsWaiting w h = record {
    mode_lem = h.mode_lem;
    host_lem = h.host_lem;
    active_lem = h.active_lem;
    queue_lem = h.queue_lem;
    clients_lem = h.clients_lem;
  }

  abbrev Enabled : World S t.PayloadMetric × EnableResult → Type 0
  Enabled y = IsWaiting host y.0

  enable-StillWaits :
      (w : World S t.PayloadMetric) → IsWaiting host w → Only Enabled (enable driver w)
  unfolding enable
  enable-StillWaits w h =
      Only-choose (not w.node.topics_configured) _ _
        (Only-some Enabled (w, enable_invalid_topics) h)
        (Only-choose (null w.clients) _ _ (Only-some Enabled (w, enable_no_clients) h) (
          Only-then (configure_all-StillWaits 0 w.clients w h) (λ x p.
            Only-if x.1 _ _ x.0
              (λ _. Only-some Enabled (_, enable_success) (switched-IsWaiting x.0 p))
              (λ _. Only-some Enabled (x.0, enable_client_config_fail) p))))

  module _ (added_lem : (k : Client × S) → added k → IsIdle k.0)
      (notice_lem : (n : N) (c c' : Context S)
        → on_notice n c ≡ some c'
        → IsUnheard host c
        → IsUnheard host c') where
    Step-IsWaiting :
        {w w' : World S t.PayloadMetric}
        → Step t driver on_notice added w w'
        → IsWaiting host w
        → IsWaiting host w'
    unfolding add_device add_client
    Step-IsWaiting {w} {w'} (enables r e) h = enable-StillWaits w h (w', r) e
    Step-IsWaiting {w} {w'} (executes fuel elapsed next lt e) h =
        execute-StillWaits t driver host waits fuel (pos elapsed) w h (w', next) e
    Step-IsWaiting {w} {w'} (syncs fuel e) h =
        sync-StillWaits t driver host waits fuel w h (w', tt) e
    Step-IsWaiting {w} {w'} (asks_active fuel b e) h =
        (is_active-StillWaits t driver host waits fuel w h (w', b) e).0
    Step-IsWaiting {w} {w'} (stops e) h = stop-StillWaits t driver host waits w h (w', tt) e
    Step-IsWaiting {w} {w'} (requests s is_birth e) h =
        request_publish-StillWaits t driver host waits s is_birth w h (w', tt) e
    Step-IsWaiting {w} (adds_device d) h = record {
      mode_lem = h.mode_lem;
      host_lem = h.host_lem;
      active_lem = h.active_lem;
      queue_lem = h.queue_lem;
      clients_lem = h.clients_lem;
    }
    Step-IsWaiting {w} (adds_client k new) h = record {
      mode_lem = h.mode_lem;
      host_lem = h.host_lem;
      active_lem = h.active_lem;
      queue_lem = h.queue_lem;
      clients_lem = AreIdle-append w.clients k h.clients_lem (added_lem k new);
    }
    Step-IsWaiting {w} (changes s p timed same) h = record {
      mode_lem = h.mode_lem;
      host_lem = h.host_lem;
      active_lem = h.active_lem;
      queue_lem = h.queue_lem;
      clients_lem = h.clients_lem;
    }
    Step-IsWaiting {w} {w'} (notices i n e) h =
        Only-client host i _ (no_result-Unheard host (on_notice n) (notice_lem n)) w h (w', tt) e

    Reach-IsWaiting :
        {w w' : World S t.PayloadMetric}
        → Reach t driver on_notice added w w'
        → IsWaiting host w
        → IsWaiting host w'
    Reach-IsWaiting start h = h
    Reach-IsWaiting (later r s) h = Step-IsWaiting s (Reach-IsWaiting r h)

    -- A node with a primary host, over clients that raise no activation unless they are primary, and
    -- whose callbacks do not say that the host is online: from a world on without an active client, with
    -- idle clients and no word of the host among its events, whatever the application calls and the
    -- libraries call back, in any order, no client becomes the active one, and no request gets into a
    -- queue, where the clients that are added are idle too.
    pub Reach-waiting :
        {w w' : World S t.PayloadMetric}
        → IsWaiting host w
        → Reach t driver on_notice added w w'
        → (w'.node.active_client ≡ none) × ((s : Source) → in_queues s w'.clients ≡ 0)
    Reach-waiting {w} {w'} h r =
        let p = Reach-IsWaiting r h in
        (p.active_lem, λ s. in_queues-AreIdle s w'.clients p.clients_lem)
