-- ===== src/Node/Total/Calm.antt =====
-- src/Node.cpp: events at which the node publishes nothing, and clients without requests.
use cpp_sparkplug.Prelude.{
  ℕ, Bool, true, false, some, List, [], ◌∷◌, ◌++◌, ◌≡◌, refl, ap, ◌∙◌, arith,
}
use cpp_sparkplug.Clients.State.{
  ClientState, Source, PublishRequest, Event, client_message, client_connected, client_disconnected,
  client_active, client_deactive, client_delivered, client_undelivered,
}
use cpp_sparkplug.Clients.{Client, Context, disconnected, undelivered, set_state, set_primary}
use cpp_sparkplug.Clients.Queue.{dump, dump_queue, on_disconnect}
use cpp_sparkplug.Clients.Flow.{sources, publishers, Flow}
use cpp_sparkplug.Node.World.{World, get_client, context, leave, tagged}
use cpp_sparkplug.Node.Answers.{prompts, switches}
use cpp_sparkplug.Node.Ledger.{
  count, count-append, untagged, untagged-tagged, in_queues, in_queues-set_client,
}

-- Outcomes and disconnections, at which the node publishes nothing.
abbrev pub calm : List Event → Bool
calm [] = true
calm (client_message topic payload ∷ es) = false
calm (client_connected ∷ es) = false
calm (client_disconnected ∷ es) = calm es
calm (client_active ∷ es) = false
calm (client_deactive ∷ es) = calm es
calm (client_delivered s ∷ es) = calm es
calm (client_undelivered s ∷ es) = calm es

calm-append : (a b : List Event) → calm a ≡ true → calm b ≡ true → calm (a ++ b) ≡ true
calm-append [] b h k = k
calm-append (client_message topic payload ∷ a) b h k = cc h
calm-append (client_connected ∷ a) b h k = cc h
calm-append (client_disconnected ∷ a) b h k = calm-append a b h k
calm-append (client_active ∷ a) b h k = cc h
calm-append (client_deactive ∷ a) b h k = calm-append a b h k
calm-append (client_delivered s ∷ a) b h k = calm-append a b h k
calm-append (client_undelivered s ∷ a) b h k = calm-append a b h k

pub calm_of : (es : List Event) → prompts es ≡ 0 → switches es ≡ 0 → calm es ≡ true
calm_of [] p s = refl
calm_of (client_message topic payload ∷ es) p s = absurd (omega (arith, p))
calm_of (client_connected ∷ es) p s = absurd (omega (arith, p))
calm_of (client_disconnected ∷ es) p s = absurd (omega (arith, s))
calm_of (client_active ∷ es) p s = absurd (omega (arith, s))
calm_of (client_deactive ∷ es) p s = calm_of es p s
calm_of (client_delivered x ∷ es) p s = calm_of es p s
calm_of (client_undelivered x ∷ es) p s = calm_of es p s

pub prompts-calm : (es : List Event) → calm es ≡ true → prompts es ≡ 0
prompts-calm [] h = refl
prompts-calm (client_message topic payload ∷ es) h = cc h
prompts-calm (client_connected ∷ es) h = cc h
prompts-calm (client_disconnected ∷ es) h = prompts-calm es h
prompts-calm (client_active ∷ es) h = cc h
prompts-calm (client_deactive ∷ es) h = prompts-calm es h
prompts-calm (client_delivered s ∷ es) h = prompts-calm es h
prompts-calm (client_undelivered s ∷ es) h = prompts-calm es h

pub calm-tagged :
    (i : ℕ) (q : List (ℕ × Event)) (es : List Event)
    → calm (untagged q) ≡ true
    → calm es ≡ true
    → calm (untagged (q ++ tagged i es)) ≡ true
calm-tagged i q es h k = ap calm (untagged-tagged i q es) ∙ calm-append (untagged q) es h k

-- The queues of the clients of a node hold no request.
abbrev pub NoRequests : {S P : Type 0} → World S P → Type 0
NoRequests w = (s : Source) → in_queues s w.clients ≡ 0

module _ {S P : Type 0} where
  -- A call that takes no request in leaves no more of them.
  pub NoRequests-leave :
      (i : ℕ) (k : Client × S) (c : Context S) (w : World S P)
      → get_client i w.clients ≡ some k
      → Flow [] (context w k) c
      → NoRequests w
      → NoRequests (leave i c w)
  NoRequests-leave i k c w found f h s = omega (
    arith,
    h s,
    in_queues-set_client s i k (c.client, c.library) w.clients found,
    ap (count s) f.flow_lem,
    count-append s (publishers k.0.publish_queue) [],
    count-append s (sources f.raised) (publishers c.client.publish_queue),
  )

module _ {S : Type 0} where
  dump-calm :
      (q : List PublishRequest) (c : Context S)
      → calm c.events ≡ true
      → calm (dump q c).events ≡ true
  unfolding dump undelivered
  dump-calm [] c h = h
  dump-calm (r ∷ q) c h = dump-calm q (undelivered r c) (calm-append c.events _ h refl)

  pub on_disconnect-calm :
      (c : Context S) → calm c.events ≡ true → calm (on_disconnect c).events ≡ true
  unfolding on_disconnect dump_queue disconnected set_state set_primary
  on_disconnect-calm c h =
      let d = dump-calm c.client.publish_queue c h in
      let same : (set_state ClientState.disconnected (dump_queue c)).events
          ≡ (dump_queue c).events =
        ground arith in
      calm-append (set_state ClientState.disconnected (dump_queue c)).events
        (client_disconnected ∷ []) (ap calm same ∙ d) refl
