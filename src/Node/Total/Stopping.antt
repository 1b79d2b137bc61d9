-- ===== src/Node/Total/Stopping.antt =====
-- src/Node.cpp, stop: it returns, and leaves the node enabled and in its loop.
use cpp_sparkplug.Prelude.{ℕ, ◌+◌, ◌≤◌, List, [], ◌∷◌, length, refl, arith}
use cpp_sparkplug.Tahu.{Tahu}
use cpp_sparkplug.Clients.{Client}
use cpp_sparkplug.Node.World.{Driver, World, always}
use cpp_sparkplug.Node.Events.{stop_clients, stop}
use cpp_sparkplug.Node.Answers.{Answers}
use cpp_sparkplug.Node.Contract.{Conserves}
use cpp_sparkplug.Node.Total.{Setting, Served, Keeps, Sure, Sure-some, Sure-then}
use cpp_sparkplug.Node.Total.Calls.{Sure-quiet}
use cpp_sparkplug.Node.Total.Executing.{Executes}

module _ (t : Tahu) {S : Type 0} (driver : Driver S) (conserves : Conserves driver)
    (answers : Answers driver) (executes : Executes t driver) (g : Setting) where
  stop_clients-Served :
      {k l : ℕ} (i : ℕ) (ks : List (Client × S)) (a : _) (w : World S t.PayloadMetric)
      → i + length ks ≤ g.clients
      → Served t g a k l w
      → Sure
          (λ (y : World S t.PayloadMetric × Unit {0}). Served t g a k l y.0)
          (stop_clients t driver i ks w)
  unfolding stop_clients
  stop_clients-Served i [] a w le h = Sure-some (w, tt) h
  stop_clients-Served i (x ∷ ks) a w le h =
      Sure-then
        (Sure-quiet t i (always driver.deactivate) (omega (arith, le))
          (λ c.
            let q = answers.deactivate_lem c in
            (driver.deactivate c, refl, conserves.deactivate_lem c, q.0, q.1))
          w h)
        (λ y p.
          Sure-then
            (Sure-quiet t i (always driver.disconnect) (omega (arith, le))
              (λ c.
                let q = executes.disconnect_lem c in
                (driver.disconnect c, refl, conserves.disconnect_lem c, q.0, q.1))
              y.0 p)
            (λ z q. stop_clients-Served (i + 1) ks a z.0 (omega (arith, le)) q))

  pub stop-Keeps :
      (w : World S t.PayloadMetric)
      → Keeps t g w
      → Sure (λ (y : World S t.PayloadMetric × Unit {0}). Keeps t g y.0) (stop t driver w)
  unfolding stop
  stop-Keeps w (a, one, k, l, h) =
      let (y, e, p) = stop_clients-Served 0 w.clients a w (omega (arith, h.count_lem)) h in
      (y, e, (a, one, k, l, p))
