-- ===== src/Node/Runs.antt =====
-- src/clients: a client under any calls of its node and any callbacks of its library, in any order.
use cpp_sparkplug.Prelude.{
  ℕ, Bytes, subst, Option, none, some, List, [], ◌∷◌, ◌++◌, ◌≡◌, ap, sym, ◌∙◌, append-nil,
}
use cpp_sparkplug.Clients.State.{Source, PublishRequest, ClientTopicOptions}
use cpp_sparkplug.Clients.{Context}
use cpp_sparkplug.Clients.Flow.{sources, publishers, Flow, Flow_trans, Flow_refl}
use cpp_sparkplug.Node.World.{Driver}
use cpp_sparkplug.Tahu.{Tahu}
use cpp_sparkplug.Clients.State.{ClientOptions}
use cpp_sparkplug.Clients.PahoAsync
use cpp_sparkplug.Clients.CppMqtt
use cpp_sparkplug.Clients.Moves.Async
use cpp_sparkplug.Clients.Moves.Cpp
use cpp_sparkplug.Clients.PahoSync
use cpp_sparkplug.Node.Drivers.{sync_driver, async_driver, cpp_driver}
use cpp_sparkplug.Node.Contract.{
  Conserves, sync_driver-Conserves, async_driver-Conserves, cpp_driver-Conserves,
}

module _ {S N : Type 0} (driver : Driver S) (on_notice : N → Context S → Option (Context S)) where
  -- From c the client comes to a context, with the requests that it was given on the way.
  pub data Run (c : Context S) : List Source → Context S → Type 0 where
    start : Run c [] c
    configured :
        {rs : List Source} {d : Context S} (topics : Option ClientTopicOptions)
        → Run c rs d
        → Run c rs (driver.configure topics d).0
    activated : {rs : List Source} {d : Context S} → Run c rs d → Run c rs (driver.activate d).0
    deactivated : {rs : List Source} {d : Context S} → Run c rs d → Run c rs (driver.deactivate d).0
    disconnected :
        {rs : List Source} {d : Context S} → Run c rs d → Run c rs (driver.disconnect d).0
    executed :
        {rs : List Source} {d d' : Context S}
        → Run c rs d
        → driver.execute d ≡ some d'
        → Run c rs d'
    noticed :
        {rs : List Source} {d d' : Context S} (n : N)
        → Run c rs d
        → on_notice n d ≡ some d'
        → Run c rs d'
    requested :
        {rs : List Source} {d d' : Context S} (r : PublishRequest)
        → Run c rs d
        → driver.request r d ≡ some d'
        → Run c (rs ++ r.publisher ∷ []) d'

  module _ (conserves : Conserves driver)
      (notice_lem : (n : N) (c c' : Context S) → on_notice n c ≡ some c' → Flow [] c c') where
    -- A call that takes no request in, after others.
    after : {rs : List Source} {c d e : Context S} → Flow rs c d → Flow [] d e → Flow rs c e
    after {rs} {c} {d} {e} p q =
        subst (λ (l : List Source). Flow l c e) (append-nil rs) (Flow_trans p q)

    Run-Flow : {c d : Context S} {rs : List Source} → Run c rs d → Flow rs c d
    Run-Flow {c} start = Flow_refl c
    Run-Flow (configured topics r) = after (Run-Flow r) (conserves.configure_lem topics _)
    Run-Flow (activated r) = after (Run-Flow r) (conserves.activate_lem _)
    Run-Flow (deactivated r) = after (Run-Flow r) (conserves.deactivate_lem _)
    Run-Flow (disconnected r) = after (Run-Flow r) (conserves.disconnect_lem _)
    Run-Flow (executed r e) = after (Run-Flow r) (conserves.execute_lem _ _ e)
    Run-Flow (noticed n r e) = after (Run-Flow r) (notice_lem n _ _ e)
    Run-Flow (requested q r e) = Flow_trans (Run-Flow r) (conserves.request_lem q _ _ e)

    -- From an empty queue on, the requests so far are those reported, and those in the queue.
    Run-requests :
        {c d : Context S} {rs : List Source}
        → c.client.publish_queue ≡ []
        → c.events ≡ []
        → Run c rs d
        → rs ≡ sources d.events ++ publishers d.client.publish_queue
    Run-requests {c} {d} {rs} q e r =
        let f = Run-Flow r in
        ap (λ (l : List PublishRequest). publishers l ++ rs) (sym q)
        ∙ f.flow_lem
        ∙ ap (λ (l : List _). sources l ++ publishers d.client.publish_queue)
            (sym (f.events_lem ∙ ap (λ (l : List _). l ++ f.raised) e))

module _ (t : Tahu) (int64_bytes : ℕ → Bytes) {S : Type 0} (options : ClientOptions)
    (fuel : ℕ) where
  -- Whatever methods the node calls on a PahoAsyncClient and whatever its library answers and calls
  -- back, in any order: from an empty queue on, the requests made so far are, in the order they
  -- were made, those whose outcome was reported, followed by those in the queue; none is lost,
  -- reported twice or overtaken.
  pub async_driver-requests :
      (lib : PahoAsync.PahoLibrary S) (c d : Context S) (rs : List Source)
      → c.client.publish_queue ≡ []
      → c.events ≡ []
      → Run
          (async_driver t int64_bytes options fuel lib)
          (PahoAsync.on_notice lib t int64_bytes fuel)
          c
          rs
          d
      → rs ≡ sources d.events ++ publishers d.client.publish_queue
  async_driver-requests lib c d rs q e r =
      Run-requests (async_driver t int64_bytes options fuel lib)
        (PahoAsync.on_notice lib t int64_bytes fuel)
        (async_driver-Conserves t int64_bytes options fuel lib)
        (Async.on_notice-Flow lib t int64_bytes fuel) q e r

  -- Whatever methods the node calls on a CppMqttClient and whatever its library answers and calls
  -- back, in any order: from an empty queue on, the requests made so far are, in the order they
  -- were made, those whose outcome was reported, followed by those in the queue.
  pub cpp_driver-requests :
      (lib : CppMqtt.MqttLibrary S) (c d : Context S) (rs : List Source)
      → c.client.publish_queue ≡ []
      → c.events ≡ []
      → Run
          (cpp_driver t int64_bytes options fuel lib)
          (CppMqtt.on_notice lib t int64_bytes fuel)
          c
          rs
          d
      → rs ≡ sources d.events ++ publishers d.client.publish_queue
  cpp_driver-requests lib c d rs q e r =
      Run-requests (cpp_driver t int64_bytes options fuel lib)
        (CppMqtt.on_notice lib t int64_bytes fuel)
        (cpp_driver-Conserves t int64_bytes options fuel lib)
        (Cpp.on_notice-Flow lib t int64_bytes fuel) q e r

  -- Whatever methods the node calls on a PahoSyncClient and whatever its library answers, in any order,
  -- as long as they return: from an empty queue on, the requests made so far are, in the order they were
  -- made, those whose outcome was reported, followed by those in the queue. It has no callbacks.
  pub sync_driver-requests :
      (lib : PahoSync.PahoLibrary S) (messages : ℕ) (c d : Context S) (rs : List Source)
      → c.client.publish_queue ≡ []
      → c.events ≡ []
      → Run (sync_driver t int64_bytes options fuel lib messages) (λ (n : Unit {0}) c. none) c rs d
      → rs ≡ sources d.events ++ publishers d.client.publish_queue
  sync_driver-requests lib messages c d rs q e r =
      Run-requests (sync_driver t int64_bytes options fuel lib messages) (λ n c. none)
        (sync_driver-Conserves t int64_bytes options fuel lib messages) (λ n c c' h. cc h) q e r
