-- ===== src/Node/Begin.antt =====
-- src/Node.cpp, begin: the loop that executes the node and sleeps for the time that `execute`
-- returns; and the small methods beside it.
use cpp_sparkplug.Prelude.{
  subst, ℕ, zero, suc, ◌^◌, ◌<◌, Bool, true, not, Option, none, some, List, [], ◌∷◌, ◌≡◌, refl,
  arith, inl, inr, if◌then◌else◌, then_some, Bool-cases,
}
use cpp_sparkplug.Prelude.Int.{ℤ, pos, negsuc}
use cpp_sparkplug.Tahu.{Tahu}
use cpp_sparkplug.Node.World.{
  Driver, World, M, SparkplugClientMode, ◌>>=◌, ◌>>◌, pure, read, modify_node,
}
use cpp_sparkplug.Node.Events.{execute}
use cpp_sparkplug.Node.Contract.{Conserves}
use cpp_sparkplug.Node.Sound.{Sound, Leads}
use cpp_sparkplug.Node.Sound.Events.{execute-Sound}
use cpp_sparkplug.Node.Delay.{IsDelay, execute-IsDelay}

-- setClientMode and getClientMode, and getActiveClient
unfoldable pub set_client_mode : {S P : Type 0} → SparkplugClientMode → M S P (Unit {0})
set_client_mode mode = modify_node (λ n. record n { host_mode = mode })

abbrev pub get_client_mode : {S P : Type 0} → World S P → SparkplugClientMode
get_client_mode w = w.node.host_mode

abbrev pub get_active_client : {S P : Type 0} → World S P → Option ℕ
get_active_client w = w.node.active_client

-- `meanwhile i` is what the callbacks of the clients do while the i-th sleep from the end lasts.
module _ (t : Tahu) {S : Type 0} (driver : Driver S)
    (meanwhile : ℕ → M S t.PayloadMetric (Unit {0})) (fuel : ℕ) where
  -- The first rounds of the loop, with the times for which they sleep: fewer if the loop returns.
  unfoldable pub begin_rounds : ℕ → ℤ → M S t.PayloadMetric (List ℤ)
  begin_rounds zero next = pure []
  begin_rounds (suc rounds) next = do
    running ← read (λ w. w.node.running)
    if not running then pure [] else do
      delay ← execute t driver fuel next
      meanwhile rounds
      later ← begin_rounds rounds delay
      pure (delay ∷ later)

  unfoldable pub begin : ℕ → M S t.PayloadMetric (List ℤ)
  unfolding begin_rounds
  begin rounds = do
    enabled ← read (λ w. w.node.enabled)
    if not enabled
        then pure []
        else do modify_node (λ n. record n { running = true }); begin_rounds rounds (pos 0)

-- Times that are all positive and at most 0xffff.
abbrev pub AreDelays : List ℤ → Type 0
AreDelays [] = Unit {0}
AreDelays (d ∷ ds) = IsDelay d × AreDelays ds

delay_of : (d : ℤ) → IsDelay d → (n : ℕ) × (d ≡ pos n) × (n < 2 ^ 31)
delay_of (pos n) h = (n, refl, omega (arith, h.1))
delay_of (negsuc n) h = absurd (omega (arith, h.0))

slept : (b : Bool) (d : ℤ) → b ≡ true → (if b then IsDelay d else (d ≡ negsuc 0)) → IsDelay d
slept b d e h = simp e at h

module _ (t : Tahu) {S : Type 0} (driver : Driver S)
    (meanwhile : ℕ → M S t.PayloadMetric (Unit {0})) (fuel : ℕ) (conserves : Conserves driver)
    (meanwhile_lem : (i : ℕ) (w : World S t.PayloadMetric)
      → Sound true [] w
      → Leads true [] (meanwhile i w)) where
  rounds-AreDelays :
      (rounds elapsed : ℕ) (w : World S t.PayloadMetric) (x : World S t.PayloadMetric × List ℤ)
      → elapsed < 2 ^ 31
      → Sound true [] w
      → begin_rounds t driver meanwhile fuel rounds (pos elapsed) w ≡ some x
      → AreDelays x.1
  unfolding begin_rounds
  rounds-AreDelays zero elapsed w x lt h e =
      let same : (w, []) ≡ x = ground (arith, e) in
      subst (λ (u : World S t.PayloadMetric × List ℤ). AreDelays u.1) same tt
  rounds-AreDelays (suc rounds) elapsed w x lt h e = elim (Bool-cases w.node.running) [
    | inr over ↦
        let same : (w, []) ≡ x = ground (arith, over, e) in
        subst (λ (u : World S t.PayloadMetric × List ℤ). AreDelays u.1) same tt
    | inl runs ↦
        let (y, first, rest) =
          then_some (execute t driver fuel (pos elapsed) w)
            (λ y. elim (meanwhile rounds y.0) [
              | none ↦ none
              | some z ↦ elim (begin_rounds t driver meanwhile fuel rounds y.1 z.0) [
                | none ↦ none
                | some v ↦ some (v.0, y.1 ∷ v.1)
              ]
            ])
            x (ground (arith, runs, e)) in
        let (z, second, rest') =
          then_some (meanwhile rounds y.0)
            (λ z. elim (begin_rounds t driver meanwhile fuel rounds y.1 z.0) [
              | none ↦ none
              | some v ↦ some (v.0, y.1 ∷ v.1)
            ])
            x rest in
        let (v, third, done) =
          then_some (begin_rounds t driver meanwhile fuel rounds y.1 z.0)
            (λ v. some (v.0, y.1 ∷ v.1)) x rest' in
        let p = execute-Sound t driver conserves fuel elapsed w lt h y first in
        let q = meanwhile_lem rounds y.0 p z second in
        let d =
          slept w.node.enabled y.1 h.enabled_lem
            (execute-IsDelay t driver conserves fuel elapsed w y.0 y.1 lt h first) in
        let (n, number, small) = delay_of y.1 d in
        let same : (v.0, y.1 ∷ v.1) ≡ x = ground (arith, done) in
        subst (λ (u : World S t.PayloadMetric × List ℤ). AreDelays u.1) same
          (
            d,
            rounds-AreDelays rounds n z.0 v small q (
                subst (λ m. begin_rounds t driver meanwhile fuel rounds m z.0 ≡ some v) number
                  third),
          )
  ]

  -- With clients that keep their contract, whose callbacks while the node sleeps keep it sound:
  -- from a world on in which the timers run and what is PUBLISHING waits for an outcome, however
  -- many rounds `begin` makes, each of its sleeps is for a positive time of at most 0xffff.
  pub begin-AreDelays :
      (rounds : ℕ) (w w' : World S t.PayloadMetric) (sleeps : List ℤ)
      → Sound w.node.enabled [] w
      → begin t driver meanwhile fuel rounds w ≡ some (w', sleeps)
      → AreDelays sleeps
  unfolding begin
  begin-AreDelays rounds w w' sleeps h e = elim (Bool-cases w.node.enabled) [
    | inr off ↦ let none_yet : [] ≡ sleeps = ground (arith, off, e) in subst AreDelays none_yet tt
    | inl on ↦
        rounds-AreDelays rounds 0 (record w { node = record (w.node) { running = true } })
          (w', sleeps) (omega arith)
          (record { enabled_lem = on; waiting_lem = h.waiting_lem; timed_lem = h.timed_lem })
          (ground (arith, on, e))
  ]
