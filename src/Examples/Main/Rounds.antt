-- ===== src/Examples/Main/Rounds.antt =====
-- examples/cpu/main.cpp: the program's rounds keep its node sound.
use cpp_sparkplug.Prelude.{
  ℕ, zero, suc, ◌+◌, ◌≤◌, Bytes, Bool, Option, none, some, List, [], ◌∷◌, ◌≡◌, ◌≢◌, refl, ap, sym,
  subst, ◌∙◌, arith, inl, inr, then_some, Bool-cases, codes,
}
use cpp_sparkplug.Prelude.Int.{pos}
use cpp_sparkplug.Prelude.Text.{contains}
use cpp_sparkplug.Tahu.{Tahu}
use cpp_sparkplug.Publishable.{Publishable}
use cpp_sparkplug.Publishable.State.{PublishableState}
use cpp_sparkplug.Publishable.Timer.{IsTimed}
use cpp_sparkplug.Clients.State.{Source, device, same_source, same_source→eq}
use cpp_sparkplug.Clients.{put}
use cpp_sparkplug.Node.World.{Driver, World, M, ◌>>◌}
use cpp_sparkplug.Node.Setup.{enable}
use cpp_sparkplug.Node.Events.{execute}
use cpp_sparkplug.Node.Contract.{Conserves}
use cpp_sparkplug.Node.Ledger.{outstanding}
use cpp_sparkplug.Node.Sound.{Sound, Leads, Leads-some, Leads-then, Leads-if}
use cpp_sparkplug.Node.Sound.Events.{is_active-Sound, sync-Sound, execute-Sound}
use cpp_sparkplug.Node.Sound.Enabling.{enable-Rests}
use cpp_sparkplug.Examples.Cpu.{Double, Reading, Cpu, update, update_at, update_values}
use cpp_sparkplug.Examples.Main.{
  Program, measure, wait_active, round, run_rounds, main, max_retries,
}

-- Publishables of which only metrics have changed.
abbrev SameTimers : (Source → Publishable) → (Source → Publishable) → Type 0
SameTimers f g =
    (s : Source)
    → ((g s).state ≡ (f s).state)
      × ((g s).next_publish ≡ (f s).next_publish)
      × ((g s).publish_period ≡ (f s).publish_period)

SameTimers-trans : (f g h : Source → Publishable) → SameTimers f g → SameTimers g h → SameTimers f h
SameTimers-trans f g h p q s =
    let (a, b, c) = p s in let (a', b', c') = q s in (a' ∙ a, b' ∙ b, c' ∙ c)

SameTimers-put :
    (f : Source → Publishable) (s : Source) (p : Publishable)
    → (p.state ≡ (f s).state)
      × (p.next_publish ≡ (f s).next_publish)
      × (p.publish_period ≡ (f s).publish_period)
    → SameTimers f (put f s p)
SameTimers-put f s p same x = elim (Bool-cases (same_source s x)) [
  | inl here ↦ rw here (
      subst
        (λ y.
          (p.state ≡ (f y).state)
          × (p.next_publish ≡ (f y).next_publish)
          × (p.publish_period ≡ (f y).publish_period))
        (same_source→eq s x here) same)
  | inr there ↦ rw there (refl, refl, refl)
]

SameTimers-Sound :
    {S P : Type 0} {on : Bool} {owed : List Source} (w : World S P) (g : Source → Publishable)
    → SameTimers w.publishables g
    → Sound on owed w
    → Sound on owed (record w { publishables = g })
SameTimers-Sound w g same h = record {
  enabled_lem = h.enabled_lem;
  waiting_lem = λ s e. h.waiting_lem s (sym (same s).0 ∙ e);
  timed_lem = λ s. let t = h.timed_lem s in ground (arith, same s, t);
}

module _ {D : Type 0} (d : Double D) where
  update-SameTimers :
      (r : Reading) (now now' : ℕ) (c : Cpu) (f : Source → Publishable)
      → SameTimers f (update d r now now' c f).1
  unfolding update
  update-SameTimers r now now' c f = SameTimers-put f (device c.number) _ (refl, refl, refl)

  update_at-SameTimers :
      (i : ℕ) (r : Reading) (now now' : ℕ) (cs : List Cpu) (f : Source → Publishable)
      (x : List Cpu × (Source → Publishable))
      → update_at d i r now now' cs f ≡ some x
      → SameTimers f x.1
  unfolding update_at
  update_at-SameTimers i r now now' [] f x e = cc
  update_at-SameTimers zero r now now' (c ∷ cs) f x e =
      let (c', g) = update d r now now' c f in
      let same : (c' ∷ cs, g) ≡ x = cc e in
      subst (λ (y : List Cpu × (Source → Publishable)). SameTimers f y.1) same
        (update-SameTimers r now now' c f)
  update_at-SameTimers (suc i) r now now' (c ∷ cs) f x e =
      let (y, first, rest) =
        then_some (update_at d i r now now' cs f) (λ y. some (c ∷ y.0, y.1)) x e in
      let same : (c ∷ y.0, y.1) ≡ x = cc rest in
      subst (λ (z : List Cpu × (Source → Publishable)). SameTimers f z.1) same
        (update_at-SameTimers i r now now' cs f y first)

  update_values-SameTimers :
      (scan : Bytes → Reading → Option Reading) (clock : ℕ → ℕ) (lines : List Bytes) (count : ℕ)
      (r : Reading) (cs : List Cpu) (f : Source → Publishable)
      (x : List Cpu × (Source → Publishable))
      → update_values d scan clock lines count r cs f ≡ some x
      → SameTimers f x.1
  unfolding update_values
  update_values-SameTimers scan clock [] count r cs f x e =
      let same : (cs, f) ≡ x = cc e in
      subst (λ (z : List Cpu × (Source → Publishable)). SameTimers f z.1) same
        (λ s. (refl, refl, refl))
  update_values-SameTimers scan clock (line ∷ lines) count r cs f x e =
      elim (Bool-cases (contains (codes "cpu") line)) [
        | inr other ↦ update_values-SameTimers scan clock lines count r cs f x (simp other at e)
        | inl cpu ↦
            let next = λ (r' : Reading) (y : List Cpu × (Source → Publishable)).
              update_values d scan clock lines (count + 1) r' y.0 y.1 in
            let updated = λ (r' : Reading).
              update_at d count r' (clock (count + count)) (clock (count + count + 1)) cs f in
            let (r', scanned, rest) =
              then_some (scan line r) (λ r'. elim (updated r') [ none ↦ none | some y ↦ next r' y ])
                x (simp cpu at e) in
            let (y, first, rest') = then_some (updated r') (next r') x rest in
            SameTimers-trans f y.1 x.1 (update_at-SameTimers count r' _ _ cs f y first)
              (update_values-SameTimers scan clock lines (count + 1) r' y.0 y.1 x rest')
      ]

module _ (t : Tahu) {S D : Type 0} (driver : Driver S) (d : Double D)
    (scan : Bytes → Reading → Option Reading) (unset : Reading) (file : ℕ → List Bytes)
    (times : ℕ → ℕ → ℕ) (waiting meanwhile : ℕ → M S t.PayloadMetric (Unit {0})) (fuel : ℕ)
    (conserves : Conserves driver)
    (waiting_lem : (on : Bool) (i : ℕ) (w : World S t.PayloadMetric)
      → Sound on [] w
      → Leads on [] (waiting i w))
    (meanwhile_lem : (on : Bool) (i : ℕ) (w : World S t.PayloadMetric)
      → Sound on [] w
      → Leads on [] (meanwhile i w)) where
  measure-Sound :
      {on : Bool} (i : ℕ) (p q : Program S t.PayloadMetric)
      → measure t driver d scan unset file times waiting meanwhile fuel i p ≡ some q
      → Sound on [] p.world
      → Sound on [] q.world
  unfolding measure
  measure-Sound {on} i p q e h =
      let (y, first, rest) =
        then_some (update_values d scan (times i) (file i) 0 unset p.cpus p.world.publishables)
          (λ y. some (record { world = record (p.world) { publishables = y.1 }; cpus = y.0 })) q
          e in
      let same : record (p.world) { publishables = y.1 } ≡ q.world =
        ap
          (λ (o : Option (Program S t.PayloadMetric)). elim o [ none ↦ p.world | some z ↦ z.world ])
          rest in
      subst (λ (w : World S t.PayloadMetric). Sound on [] w) same
        (SameTimers-Sound p.world y.1
          (update_values-SameTimers d scan (times i) (file i) 0 unset p.cpus p.world.publishables y
            first)
          h)

  round-Sound :
      {on : Bool} (i : ℕ) (p q : Program S t.PayloadMetric)
      → round t driver d scan unset file times waiting meanwhile fuel i p ≡ some q
      → Sound on [] p.world
      → Sound on [] q.world
  unfolding round
  round-Sound {on} i p q e h =
      let (m, measured, rest) =
        then_some (measure t driver d scan unset file times waiting meanwhile fuel i p)
          (λ m. elim ((execute t driver fuel (pos 1000) >> meanwhile i) m.world) [
            | none ↦ none
            | some x ↦ some (record m { world = x.0 })
          ])
          q e in
      let (x, ran, done) =
        then_some ((execute t driver fuel (pos 1000) >> meanwhile i) m.world)
          (λ x. some (record m { world = x.0 })) q rest in
      let same : x.0 ≡ q.world =
        ap (λ (o : Option (Program S t.PayloadMetric)). elim o [ none ↦ x.0 | some z ↦ z.world ])
          done in
      subst (λ (w : World S t.PayloadMetric). Sound on [] w) same
        (Leads-then
          (execute-Sound t driver conserves fuel 1000 m.world (omega arith)
            (measure-Sound i p m measured h))
          (λ y k. meanwhile_lem on i y.0 k) x ran)

  run_rounds-Sound :
      {on : Bool} (rounds i : ℕ) (p q : Program S t.PayloadMetric)
      → run_rounds t driver d scan unset file times waiting meanwhile fuel rounds i p ≡ some q
      → Sound on [] p.world
      → Sound on [] q.world
  unfolding run_rounds
  run_rounds-Sound {on} zero i p q e h =
      let same : p.world ≡ q.world =
        ap
          (λ (o : Option (Program S t.PayloadMetric)). elim o [ none ↦ p.world | some z ↦ z.world ])
          e in
      subst (λ (w : World S t.PayloadMetric). Sound on [] w) same h
  run_rounds-Sound (suc rounds) i p q e h =
      let (m, first, rest) =
        then_some (round t driver d scan unset file times waiting meanwhile fuel i p)
          (run_rounds t driver d scan unset file times waiting meanwhile fuel rounds (i + 1)) q e in
      run_rounds-Sound rounds (i + 1) m q rest (round-Sound i p m first h)

  wait_active-Sound :
      {on : Bool} (retries : ℕ) (w : World S t.PayloadMetric)
      → Sound on [] w
      → Leads on [] (wait_active t driver d scan unset file times waiting meanwhile fuel retries w)
  unfolding wait_active
  wait_active-Sound zero w h =
      Leads-then (is_active-Sound t driver conserves fuel w h) (λ x p. Leads-some x.0 tt p)
  wait_active-Sound {on} (suc retries) w h =
      Leads-then (is_active-Sound t driver conserves fuel w h) (λ x p.
        Leads-if x.1 _ _ x.0 (Leads-some x.0 tt p) (
          Leads-then
            (Leads-then (sync-Sound t driver conserves fuel x.0 p)
              (λ y k. waiting_lem on retries y.0 k))
            (λ z l. wait_active-Sound retries z.0 l)))

  -- With a client that keeps its contract, and callbacks that keep the node sound: from a node none
  -- of whose publishables is PUBLISHING, and whose timers run, on, however many rounds main makes
  -- and whatever the file says, in each world that it comes to, a CPU that is PUBLISHING has a
  -- request in the client's queue or an outcome in the queue of events.
  main-outstanding :
      (rounds : ℕ) (p q : Program S t.PayloadMetric)
      → ((s : Source) → (p.world.publishables s).state ≢ PublishableState.publishing)
      → ((s : Source) → IsTimed (p.world.publishables s))
      → main t driver d scan unset file times waiting meanwhile fuel rounds p ≡ some q
      → (s : Source) → (q.world.publishables s).state ≡ PublishableState.publishing
      → 1 ≤ outstanding s q.world
  unfolding main
  main-outstanding rounds p q idle timed e s b =
      let start : Sound p.world.node.enabled [] p.world = record {
        enabled_lem = refl;
        waiting_lem = λ x b. absurd (idle x b);
        timed_lem = timed;
      } in
      let (x, waited, rest) =
        then_some
          ((enable driver
              >> wait_active t driver d scan unset file times waiting meanwhile fuel max_retries)
            p.world)
          (λ x.
            run_rounds t driver d scan unset file times waiting meanwhile fuel rounds 2
              (record p { world = x.0 }))
          q e in
      let (y, enabled, rest') =
        then_some (enable driver p.world)
          (λ y. wait_active t driver d scan unset file times waiting meanwhile fuel max_retries y.0)
          x waited in
      let (on, h) = enable-Rests t driver conserves p.world y start enabled in
      let h' =
        run_rounds-Sound rounds 2 (record p { world = x.0 }) q rest
          (wait_active-Sound max_retries y.0 h x rest') in
      let waits : 1 ≤ _ = h'.waiting_lem s b in omega (arith, waits)
