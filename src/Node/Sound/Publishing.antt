-- ===== src/Node/Sound/Publishing.antt =====
-- src/Node.cpp: publish requests, births and the active client keep the node sound.
use cpp_sparkplug.Prelude.{
  subst, ℕ, Bool, true, ◌&&◌, not, any, ◌==◌, Option, none, some, List, [], ◌∷◌, ◌≡◌, refl, ap,
  arith, if◌then◌else◌, then_some,
}
use cpp_sparkplug.Publishable.{can_publish, publishing}
use cpp_sparkplug.Clients.State.{Source, node, device, PublishRequest, same_source_refl}
use cpp_sparkplug.Clients.{Context, put}
use cpp_sparkplug.Clients.Flow.{Flow}
use cpp_sparkplug.Node.World.{Driver, World, always, no_result}
use cpp_sparkplug.Node.Publishing.{
  topic, same_client, send, publish, publish_devices, publish_birth, request_publish, retire,
  set_active_client, activate_client, deactivate_client,
}
use cpp_sparkplug.Node.Contract.{Conserves}
use cpp_sparkplug.Node.Sound.{
  Leads-elim, Sound, Leads, Leads-some, Leads-none, Leads-then, Leads-if, with_client_lem,
  Sound-node, Sound-put,
}

-- A call without requests, with its result.
pub always-Flow :
    {S A : Type 0} (f : Context S → Context S × A)
    → ((c : Context S) → Flow [] c (f c).0)
    → (c : Context S) (x : Context S × A) → always f c ≡ some x
    → Flow [] c x.0
always-Flow f h c x e =
    let same : f c ≡ x = ground (arith, e) in
    subst (λ (y : Context _ × _). Flow [] c y.0) same (h c)

pub no_result-Flow :
    {S : Type 0} {owed : List Source} (f : Context S → Option (Context S))
    → ((c c' : Context S) → f c ≡ some c' → Flow owed c c')
    → (c : Context S) (x : Context S × Unit {0}) → no_result f c ≡ some x
    → Flow owed c x.0
no_result-Flow {S} {owed} f h c x e =
    let (c', called, done) = then_some (f c) (λ d. some (d, tt)) x e in
    let same : (c', tt) ≡ x = ground (arith, done) in
    subst (λ (y : Context S × Unit {0}). Flow owed c y.0) same (h c c' called)

module _ {S P : Type 0} (driver : Driver S) (conserves : Conserves driver) {on : Bool} where
  pub send-Sound :
      (r : PublishRequest) (w : World S P)
      → Sound on (r.publisher ∷ []) w
      → Leads on [] (send driver r w)
  unfolding send
  send-Sound r w h =
      Leads-elim w.node.active_client _ _ w Leads-none
        (λ i. with_client_lem i _ (no_result-Flow (driver.request r) (conserves.request_lem r)) w h)

  begun-Sound :
      (s : Source) (w : World S P)
      → Sound on [] w
      → Sound on
          (s ∷ [])
          (record w { publishables = put w.publishables s (publishing (w.publishables s)) })
  unfolding publishing
  begun-Sound s w h =
      Sound-put w s (publishing (w.publishables s)) (ground (arith, h.timed_lem s))
        (λ e. omega (arith, ap {B = ℕ} (λ (b : Bool). if b then 1 else 0) (same_source_refl s)))
        (λ x n. omega arith) h

  pub publish-Sound :
      (s : Source) (is_birth : Bool) (w : World S P)
      → Sound on [] w
      → Leads on [] (publish driver s is_birth w)
  unfolding publish
  publish-Sound s is_birth w h =
      Leads-if (not (can_publish (w.publishables s)) && not is_birth) _ _ w (Leads-some w tt h) (
        Leads-elim (topic w.node s (w.publishables s).name is_birth) _ _ _ Leads-none
          (λ name. send-Sound _ _ (begun-Sound s w h)))

  publish_devices-Sound :
      (ds : List ℕ) (w : World S P) → Sound on [] w → Leads on [] (publish_devices driver ds w)
  unfolding publish_devices
  publish_devices-Sound [] w h = Leads-some w tt h
  publish_devices-Sound (d ∷ ds) w h =
      Leads-then (publish-Sound (device d) true w h) (λ x p. publish_devices-Sound ds x.0 p)

  pub publish_birth-Sound : (w : World S P) → Sound on [] w → Leads on [] (publish_birth driver w)
  unfolding publish_birth
  publish_birth-Sound w h =
      Leads-then (publish-Sound node true w h) (λ x p. publish_devices-Sound x.0.node.devices x.0 p)

  pub request_publish-Sound :
      (s : Source) (is_birth : Bool) (w : World S P)
      → Sound on [] w
      → Leads on [] (request_publish driver s is_birth w)
  unfolding request_publish
  request_publish-Sound node is_birth w h = publish-Sound node is_birth w h
  request_publish-Sound (device d) is_birth w h =
      Leads-if (any (λ e. e == d) w.node.devices) _ _ w (publish-Sound (device d) is_birth w h)
        (Leads-some w tt h)

  retire-Sound :
      (new old : Option ℕ) (w : World S P) → Sound on [] w → Leads on [] (retire driver new old w)
  unfolding retire
  retire-Sound new none w h = Leads-some w tt h
  retire-Sound new (some i) w h = Leads-if (same_client new (some i)) _ _ w (Leads-some w tt h) (
      Leads-then (with_client_lem i _ (always-Flow driver.deactivate conserves.deactivate_lem) w h)
        (λ x p. Leads-some x.0 tt p))

  pub set_active_client-Sound :
      (new : Option ℕ) (w : World S P)
      → Sound on [] w
      → Leads on [] (set_active_client driver new w)
  unfolding set_active_client
  set_active_client-Sound new w h = Leads-then (retire-Sound new w.node.active_client w h) (λ x p.
      let w' : World S P = record (x.0) { node = record (x.0.node) { active_client = new } } in
      let q : Sound on [] w' = Sound-node x.0 _ refl refl p in
      Leads-elim new _ _ w' (Leads-some w' tt q) (λ i. publish_birth-Sound w' q))

  pub activate_client-Sound :
      (i : ℕ) (w : World S P) → Sound on [] w → Leads on [] (activate_client driver i w)
  unfolding activate_client
  activate_client-Sound i w h =
      Leads-then (with_client_lem i _ (always-Flow driver.activate conserves.activate_lem) w h)
        (λ x p. Leads-some x.0 tt p)

  pub deactivate_client-Sound :
      (i : ℕ) (w : World S P) → Sound on [] w → Leads on [] (deactivate_client driver i w)
  unfolding deactivate_client
  deactivate_client-Sound i w h =
      Leads-if (same_client (some i) w.node.active_client) _ _ w (set_active_client-Sound none w h)
        (Leads-some w tt h)
