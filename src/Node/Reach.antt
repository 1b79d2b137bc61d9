-- ===== src/Node/Reach.antt =====
-- src/Node.h: a node that an application configures, runs and changes, while the libraries of its
-- clients call back, in any order.
use cpp_sparkplug.Prelude.{
  ℕ, ◌<◌, ◌≤◌, ◌^◌, Bool, Option, some, [], ◌≡◌, ◌≢◌, refl, sym, ◌∙◌, arith,
}
use cpp_sparkplug.Prelude.Int.{ℤ, pos}
use cpp_sparkplug.Tahu.{Tahu}
use cpp_sparkplug.Publishable.{Publishable}
use cpp_sparkplug.Publishable.State.{PublishableState}
use cpp_sparkplug.Publishable.Timer.{IsTimed}
use cpp_sparkplug.Clients.State.{Source}
use cpp_sparkplug.Clients.{Client, Context, put}
use cpp_sparkplug.Clients.Flow.{Flow}
use cpp_sparkplug.Node.World.{Driver, World, with_client, no_result}
use cpp_sparkplug.Node.Setup.{EnableResult, enable, add_device, add_client}
use cpp_sparkplug.Node.Publishing.{request_publish}
use cpp_sparkplug.Node.Events.{is_active, sync, execute, stop}
use cpp_sparkplug.Node.Contract.{Conserves}
use cpp_sparkplug.Node.Ledger.{outstanding}
use cpp_sparkplug.Node.Sound.{with_client_lem, Sound-node, Sound-put}
use cpp_sparkplug.Node.Sound.Publishing.{no_result-Flow, request_publish-Sound}
use cpp_sparkplug.Node.Sound.Events.{is_active-Sound, sync-Sound, execute-Sound, stop-Sound}
use cpp_sparkplug.Node.Sound.Enabling.{Rests, enable-Rests, add_client-Sound}

-- `added` says which clients the application may add.
module _ (t : Tahu) {S N : Type 0} (driver : Driver S)
    (on_notice : N → Context S → Option (Context S)) (added : Client × S → Type 0) where
  -- A call from the application that returns, a change that it makes to a publishable's metrics or
  -- period, or a callback to a client.
  pub data Step (w : World S t.PayloadMetric) : World S t.PayloadMetric → Type 0 where
    enables :
        {w' : World S t.PayloadMetric} (r : EnableResult)
        → enable driver w ≡ some (w', r)
        → Step w w'
    executes :
        {w' : World S t.PayloadMetric} (fuel elapsed : ℕ) (next : ℤ)
        → elapsed < 2 ^ 31
        → execute t driver fuel (pos elapsed) w ≡ some (w', next)
        → Step w w'
    syncs :
        {w' : World S t.PayloadMetric} (fuel : ℕ) → sync t driver fuel w ≡ some (w', tt) → Step w w'
    asks_active :
        {w' : World S t.PayloadMetric} (fuel : ℕ) (b : Bool)
        → is_active t driver fuel w ≡ some (w', b)
        → Step w w'
    stops : {w' : World S t.PayloadMetric} → stop t driver w ≡ some (w', tt) → Step w w'
    requests :
        {w' : World S t.PayloadMetric} (s : Source) (is_birth : Bool)
        → request_publish driver s is_birth w ≡ some (w', tt)
        → Step w w'
    adds_device : (d : ℕ) → Step w (add_device d w)
    adds_client : (k : Client × S) → added k → Step w (add_client k w)
    changes :
        (s : Source) (p : Publishable)
        → IsTimed p
        → p.state ≡ (w.publishables s).state
        → Step w (record w { publishables = put w.publishables s p })
    notices :
        {w' : World S t.PayloadMetric} (i : ℕ) (n : N)
        → with_client i (no_result (on_notice n)) w ≡ some (w', tt)
        → Step w w'

  pub data Reach (w : World S t.PayloadMetric) : World S t.PayloadMetric → Type 0 where
    start : Reach w w
    later : {v u : World S t.PayloadMetric} → Reach w v → Step v u → Reach w u

  module _ (conserves : Conserves driver)
      (notice_lem : (n : N) (c c' : Context S) → on_notice n c ≡ some c' → Flow [] c c') where
    Step-Rests :
        {w w' : World S t.PayloadMetric}
        → Step w w'
        → Rests t driver conserves w
        → Rests t driver conserves w'
    unfolding add_device
    Step-Rests {w} {w'} (enables r e) (on, h) = enable-Rests t driver conserves w (w', r) h e
    Step-Rests {w} {w'} (executes fuel elapsed next lt e) (on, h) =
        (on, execute-Sound t driver conserves fuel elapsed w lt h (w', next) e)
    Step-Rests {w} {w'} (syncs fuel e) (on, h) =
        (on, sync-Sound t driver conserves fuel w h (w', tt) e)
    Step-Rests {w} {w'} (asks_active fuel b e) (on, h) =
        (on, is_active-Sound t driver conserves fuel w h (w', b) e)
    Step-Rests {w} {w'} (stops e) (on, h) = (on, stop-Sound t driver conserves w h (w', tt) e)
    Step-Rests {w} {w'} (requests s is_birth e) (on, h) =
        (on, request_publish-Sound driver conserves s is_birth w h (w', tt) e)
    Step-Rests {w} (adds_device d) (on, h) = (on, Sound-node w _ refl refl h)
    Step-Rests {w} (adds_client k new) (on, h) = (on, add_client-Sound t driver conserves k w h)
    Step-Rests {w} (changes s p timed same) (on, h) =
        (on, Sound-put w s p timed (λ e. h.waiting_lem s (sym same ∙ e)) (λ x n. omega arith) h)
    Step-Rests {w} {w'} (notices i n e) (on, h) =
        (on, with_client_lem i _ (no_result-Flow (on_notice n) (notice_lem n)) w h (w', tt) e)

    Reach-Rests :
        {w w' : World S t.PayloadMetric}
        → Reach w w'
        → Rests t driver conserves w
        → Rests t driver conserves w'
    Reach-Rests start h = h
    Reach-Rests (later r s) h = Step-Rests s (Reach-Rests r h)

    -- With clients that keep their contract, and callbacks that take no request in and drop none
    -- unreported: from a node none of whose publishables is PUBLISHING, and whose timers run, on,
    -- whatever the application does and the libraries call back, in any order, a publishable that
    -- is PUBLISHING still has a request in the queue of a client or an outcome in the queue of
    -- events.
    pub Reach-outstanding :
        {w w' : World S t.PayloadMetric}
        → ((s : Source) → (w.publishables s).state ≢ PublishableState.publishing)
        → ((s : Source) → IsTimed (w.publishables s))
        → Reach w w'
        → (s : Source) → (w'.publishables s).state ≡ PublishableState.publishing
        → 1 ≤ outstanding s w'
    Reach-outstanding {w} idle timed r s b =
        let (on, h) = Reach-Rests r (
          w.node.enabled,
          record { enabled_lem = refl; waiting_lem = λ x e. absurd (idle x e); timed_lem = timed },
        ) in
        let waits : 1 ≤ _ = h.waiting_lem s b in omega (arith, waits)
