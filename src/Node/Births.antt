-- ===== src/Node/Births.antt =====
-- src/Node.cpp, publish and requestPublish: when a request reaches a client.
use cpp_sparkplug.Prelude.{
  ℕ, ◌<◌, true, false, none, some, List, ◌≡◌, ap, ◌∙◌, arith, Bool-cases, inl, inr,
}
use cpp_sparkplug.Prelude.Int.{pos}
use cpp_sparkplug.Publishable.{Publishable, published, can_publish}
use cpp_sparkplug.Publishable.Timer.{updates}
use cpp_sparkplug.Publishable.Lifecycle.{can_publish-published}
use cpp_sparkplug.Clients.State.{Source, node}
use cpp_sparkplug.Node.World.{Driver, World}
use cpp_sparkplug.Node.Publishing.{publish, publish_birth, request_publish}

module _ {S P : Type 0} (driver : Driver S) where
  quiet :
      (s : Source) (w : World S P)
      → can_publish (w.publishables s) ≡ false
      → publish driver s false w ≡ some (w, tt)
  unfolding publish
  quiet s w h = rw h

  -- Once the outcome of its message is known, a publishable with a positive time left asks for no
  -- data message, however much time passes, while no metric is written: `publish` returns and
  -- changes nothing.
  publish-published :
      (s : Source) (w : World S P) (p : Publishable) (es : List ℕ) (left : ℕ)
      → p.next_publish ≡ pos left
      → 0 < left
      → w.publishables s ≡ updates es (published p)
      → publish driver s false w ≡ some (w, tt)
  publish-published s w p es left n h e =
      quiet s w (ap can_publish e ∙ can_publish-published es p left n h)

  unsent : (w : World S P) → w.node.active_client ≡ none → publish driver node true w ≡ none
  unfolding publish
  unsent w a = elim (Bool-cases (can_publish (w.publishables node))) [
    | inl e ↦ ground (arith, a)
    | inr e ↦ ground (arith, a)
  ]

  -- Without an active client a request for a birth of the node follows a NULL pointer, and so does the
  -- birth of the node with its devices.
  request_publish-birth :
      (w : World S P)
      → w.node.active_client ≡ none
      → (request_publish driver node true w ≡ none) × (publish_birth driver w ≡ none)
  unfolding request_publish publish_birth
  request_publish-birth w a = (unsent w a, ground (arith, unsent w a))
