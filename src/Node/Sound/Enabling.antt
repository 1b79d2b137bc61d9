-- ===== src/Node/Sound/Enabling.antt =====
-- src/Node.cpp: enable and addClient keep the node sound.
use cpp_sparkplug.Prelude.{
  ℕ, ◌+◌, Bool, true, false, null, some, List, [], ◌∷◌, ◌≡◌, refl, arith, inl, inr, if◌then◌else◌,
  then_some, Bool-cases,
}
use cpp_sparkplug.Prelude.Int.{pos, eq_ℤ}
use cpp_sparkplug.Tahu.{Tahu}
use cpp_sparkplug.Clients.{Client}
use cpp_sparkplug.Node.World.{Driver, World, modify_node, pure, ◌>>◌}
use cpp_sparkplug.Node.Setup.{
  EnableResult, enable_success, enable_invalid_topics, enable_no_clients, enable_client_config_fail,
  enable, configure_all, add_client,
}
use cpp_sparkplug.Node.Contract.{Conserves}
use cpp_sparkplug.Node.Ledger.{in_queues-append}
use cpp_sparkplug.Node.Sound.{Sound, Leads, Leads-some, Leads-then, Leads-if, with_client_lem}
use cpp_sparkplug.Node.Sound.Publishing.{always-Flow}

module _ (t : Tahu) {S : Type 0} (driver : Driver S) (conserves : Conserves driver) where
  configure_all-Sound :
      {on : Bool} (i : ℕ) (ks : List (Client × S)) (w : World S t.PayloadMetric)
      → Sound on [] w
      → Leads on [] (configure_all driver i ks w)
  unfolding configure_all
  configure_all-Sound i [] w h = Leads-some w true h
  configure_all-Sound i (k ∷ ks) w h =
      Leads-then
        (with_client_lem i _
          (always-Flow (driver.configure (some w.node.client_topics))
            (conserves.configure_lem (some w.node.client_topics)))
          w h)
        (λ x p.
          Leads-if (eq_ℤ x.1 (pos 0)) _ _ x.0 (configure_all-Sound (i + 1) ks x.0 p)
            (Leads-some x.0 false p))

  -- Between calls, enabled or not.
  abbrev pub Rests : World S t.PayloadMetric → Type 0
  Rests w = (on : Bool) × Sound on [] w

  Rests-of :
      {on : Bool} (w : World S t.PayloadMetric)
      → Sound on [] w
      → {r : EnableResult} (x : World S t.PayloadMetric × EnableResult) → some (w, r) ≡ some x
      → Rests x.0
  Rests-of {on} w h {r} x e = (on, Leads-some w r h x e)

  switched-Sound :
      {on : Bool} (w : World S t.PayloadMetric)
      → Sound on [] w
      → Sound true [] (record w { node = record (w.node) { enabled = true } })
  switched-Sound w h = record {
    enabled_lem = refl;
    waiting_lem = h.waiting_lem;
    timed_lem = h.timed_lem;
  }

  pub enable-Rests :
      {on : Bool} (w : World S t.PayloadMetric) (x : World S t.PayloadMetric × EnableResult)
      → Sound on [] w
      → enable driver w ≡ some x
      → Rests x.0
  unfolding enable
  enable-Rests w x h e = elim (Bool-cases w.node.topics_configured) [
    | inr off ↦ Rests-of w h {r = enable_invalid_topics} x (ground (arith, off, e))
    | inl set ↦ elim (Bool-cases (null w.clients)) [
      | inl alone ↦ Rests-of w h {r = enable_no_clients} x (ground (arith, set, alone, e))
      | inr served ↦
          let (y, first, rest) =
            then_some (configure_all driver 0 w.clients w)
              (λ y.
                (if y.1
                    then modify_node (λ n. record n { enabled = true }) >> pure enable_success
                    else pure enable_client_config_fail)
                  y.0)
              x (ground (arith, set, served, e)) in
          let p = configure_all-Sound 0 w.clients w h y first in
          elim (Bool-cases y.1) [
            | inl all ↦
                Rests-of _ (switched-Sound y.0 p) {r = enable_success} x (ground (arith, all, rest))
            | inr some_not ↦
                Rests-of y.0 p {r = enable_client_config_fail} x (ground (arith, some_not, rest))
          ]
    ]
  ]

  pub add_client-Sound :
      {on : Bool} (k : Client × S) (w : World S t.PayloadMetric)
      → Sound on [] w
      → Sound on [] (add_client k w)
  unfolding add_client
  add_client-Sound k w h = record {
    enabled_lem = h.enabled_lem;
    waiting_lem = λ s e. omega (arith, h.waiting_lem s e, in_queues-append s w.clients k);
    timed_lem = h.timed_lem;
  }
