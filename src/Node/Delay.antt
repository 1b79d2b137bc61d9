-- ===== src/Node/Delay.antt =====
-- src/Node.cpp, execute: the time that it returns, for which the application may wait.
use cpp_sparkplug.Prelude.{
  subst, ℕ, ◌<◌, ◌^◌, Bool, false, not, none, List, [], ◌∷◌, some, ◌≡◌, arith, inl, inr,
  if◌then◌else◌, then_some, Bool-cases,
}
use cpp_sparkplug.Prelude.Int.{ℤ, pos, negsuc, min_ℤ, ◌<ℤ◌, ◌≤ℤ◌}
use cpp_sparkplug.Tahu.{Tahu}
use cpp_sparkplug.Publishable.{can_publish}
use cpp_sparkplug.Publishable
use cpp_sparkplug.Publishable.Timer.{update-IsTimed}
use cpp_sparkplug.Clients.State.{Source, node, device}
use cpp_sparkplug.Clients.{put}
use cpp_sparkplug.Node.World.{Driver, World, pure}
use cpp_sparkplug.Node.Publishing.{publish}
use cpp_sparkplug.Node.Events.{is_active, tick, tick_devices, execute, execute_idle_delay}
use cpp_sparkplug.Node.Contract.{Conserves}
use cpp_sparkplug.Node.Sound.{Sound}
use cpp_sparkplug.Node.Sound.Events.{is_active-Sound, tick-Sound}

-- A delay that `execute` may ask for.
abbrev pub IsDelay : ℤ → Type 0
IsDelay d = (pos 0 <ℤ d) × (d ≤ℤ pos 0xffff)

min_ℤ-IsDelay : (a b : ℤ) → pos 0 <ℤ a → IsDelay b → IsDelay (min_ℤ a b)
min_ℤ-IsDelay a b p q = ground (arith, p, q)

min_ℤ-0xffff : (a : ℤ) → pos 0 <ℤ a → IsDelay (min_ℤ a (pos 0xffff))
min_ℤ-0xffff a p = ground (arith, p)

module _ (t : Tahu) {S : Type 0} (driver : Driver S) (conserves : Conserves driver)
    {on : Bool} where
  tick-positive :
      (elapsed : ℕ) (s : Source) (w : World S t.PayloadMetric) (x : World S t.PayloadMetric × ℤ)
      → elapsed < 2 ^ 31
      → Sound on [] w
      → tick t driver (pos elapsed) s w ≡ some x
      → pos 0 <ℤ x.1
  unfolding tick
  tick-positive elapsed s w x lt h e =
      let p = w.publishables s in
      let w' : World S t.PayloadMetric = record w {
        publishables = put w.publishables s (Publishable.update (pos elapsed) p).0;
      } in
      let (y, first, rest) =
        then_some ((if can_publish (w'.publishables s) then publish driver s false else pure tt) w')
          (λ y. some (y.0, (Publishable.update (pos elapsed) p).1)) x e in
      let same : (Publishable.update (pos elapsed) p).1 ≡ x.1 = ground (arith, rest) in
      subst (λ d. pos 0 <ℤ d) same (update-IsTimed elapsed p lt (h.timed_lem s)).1

  tick_devices-IsDelay :
      (elapsed : ℕ) (next : ℤ) (ds : List ℕ) (w : World S t.PayloadMetric)
      (x : World S t.PayloadMetric × ℤ)
      → elapsed < 2 ^ 31
      → Sound on [] w
      → IsDelay next
      → tick_devices t driver (pos elapsed) next ds w ≡ some x
      → IsDelay x.1
  unfolding tick_devices
  tick_devices-IsDelay elapsed next [] w x lt h d e =
      let same : next ≡ x.1 = ground (arith, e) in subst IsDelay same d
  tick_devices-IsDelay elapsed next (i ∷ ds) w x lt h d e =
      let (y, first, rest) =
        then_some (tick t driver (pos elapsed) (device i) w)
          (λ y. tick_devices t driver (pos elapsed) (min_ℤ y.1 next) ds y.0) x e in
      tick_devices-IsDelay elapsed (min_ℤ y.1 next) ds y.0 x lt
        (tick-Sound t driver conserves elapsed (device i) w lt h y first)
        (min_ℤ-IsDelay y.1 next (tick-positive elapsed (device i) w y lt h first) d) rest

  active-IsDelay :
      (elapsed : ℕ) (w : World S t.PayloadMetric) (x : World S t.PayloadMetric × ℤ)
      → elapsed < 2 ^ 31
      → Sound on [] w
      → (elim (tick t driver (pos elapsed) node w) [
        | none ↦ none
        | some y ↦ tick_devices t driver (pos elapsed) (min_ℤ y.1 (pos 0xffff)) y.0.node.devices y.0
      ])
        ≡ some x
      → IsDelay x.1
  active-IsDelay elapsed w x lt h e =
      let (y, first, rest) =
        then_some (tick t driver (pos elapsed) node w)
          (λ y. tick_devices t driver (pos elapsed) (min_ℤ y.1 (pos 0xffff)) y.0.node.devices y.0) x
          e in
      tick_devices-IsDelay elapsed (min_ℤ y.1 (pos 0xffff)) y.0.node.devices y.0 x lt
        (tick-Sound t driver conserves elapsed node w lt h y first)
        (min_ℤ-0xffff y.1 (tick-positive elapsed node w y lt h first)) rest

  -- With clients that keep their contract, an elapsed time that is a nonnegative int32_t, and a
  -- world in which the timers run and what is PUBLISHING waits for an outcome: an `execute` that
  -- returns gives -1 where the node is not enabled, and else a positive time of at most 0xffff
  -- seconds.
  pub execute-IsDelay :
      (fuel elapsed : ℕ) (w w' : World S t.PayloadMetric) (next : ℤ)
      → elapsed < 2 ^ 31
      → Sound on [] w
      → execute t driver fuel (pos elapsed) w ≡ some (w', next)
      → if w.node.enabled then IsDelay next else (next ≡ negsuc 0)
  unfolding execute
  execute-IsDelay fuel elapsed w w' next lt h e = elim (Bool-cases w.node.enabled) [
    | inr off ↦ simp off (ground (arith, off, e))
    | inl runs ↦
        let (x, first, rest) =
          then_some (is_active t driver fuel w)
            (λ x.
              (if not x.1 then pure execute_idle_delay else (λ v.
                  elim (tick t driver (pos elapsed) node v) [
                    | none ↦ none
                    | some y ↦
                        tick_devices t driver (pos elapsed) (min_ℤ y.1 (pos 0xffff))
                          y.0.node.devices y.0
                  ]))
                x.0)
            (w', next) (ground (arith, runs, e)) in
        let p : Sound on [] x.0 = is_active-Sound t driver conserves fuel w h x first in
        simp runs (elim (Bool-cases x.1) [
          | inl active ↦ active-IsDelay elapsed x.0 (w', next) lt p (ground (arith, active, rest))
          | inr idle ↦
              let same : execute_idle_delay ≡ next = ground (arith, idle, rest) in
              subst IsDelay same (ground arith)
        ])
  ]
