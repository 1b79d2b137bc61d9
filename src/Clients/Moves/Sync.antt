-- ===== src/Clients/Moves/Sync.antt =====
-- src/clients/PahoSyncClient.cpp: the flow of requests through its methods.
use cpp_sparkplug.Prelude.{
  ℕ, zero, suc, Bytes, Bool, true, false, not, Option, none, some, List, [], ◌∷◌, ◌≡◌, refl, arith,
  if◌then◌else◌, Bool-cases, inl, inr, then_some,
}
use cpp_sparkplug.Prelude.Int.{ℤ}
use cpp_sparkplug.Tahu.{Tahu}
use cpp_sparkplug.Clients.State.{
  ClientState, same_state, PublishRequest, ClientOptions, is_success, is_disconnected_code,
}
use cpp_sparkplug.Clients.{Context, set_state, delivered, message_received}
use cpp_sparkplug.Clients.Queue.{set_queue, on_disconnect, publish_from_queue}
use cpp_sparkplug.Clients.Flow.{
  Flow, Flow_trans, Flow_silent, Flow_refl, Flow_of, Flow_pair, delivered-Flow,
}
use cpp_sparkplug.Clients.Moves.{
  Flows, Flow_if, Flow_if_pair, set_state-Flow, activated-Flow, connected-Flow,
  message_received-Flow, on_disconnect-Flow, dump_queue-Flow, publish_from_queue-Flow,
}
use cpp_sparkplug.Clients.PahoSync
use cpp_sparkplug.Clients.PahoSync.{PahoLibrary, Received, message, empty, failed}

module _ {S : Type 0} (lib : PahoLibrary S) where
  library-Flow : (c : Context S) (s : S) → Flow [] c (record c { library = s })
  library-Flow c s = Flow_silent (refl, refl, refl)

  pub subscribe_to_primary_host-Flow : Flows (PahoSync.subscribe_to_primary_host lib)
  unfolding PahoSync.subscribe_to_primary_host
  subscribe_to_primary_host-Flow c = Flow_if_pair _ _ _ (library-Flow c _) (library-Flow c _)

  pub subscribe_to_commands-Flow : Flows (PahoSync.subscribe_to_commands lib)
  unfolding PahoSync.subscribe_to_commands
  subscribe_to_commands-Flow c =
      Flow_if_pair _ _ _ (Flow_trans (library-Flow c _) (activated-Flow _)) (library-Flow c _)

  pub unsubscribe_to_commands-Flow : Flows (PahoSync.unsubscribe_to_commands lib)
  unfolding PahoSync.unsubscribe_to_commands
  unsubscribe_to_commands-Flow c = Flow_if_pair _ _ _ (library-Flow c _) (library-Flow c _)

  pub configure_client-Flow : (o : ClientOptions) → Flows (PahoSync.configure_client lib o)
  unfolding PahoSync.configure_client
  configure_client-Flow o c = Flow_if_pair _ _ _ (library-Flow c _) (library-Flow c _)

  pub client_connect-Flow : Flows (PahoSync.client_connect lib)
  unfolding PahoSync.client_connect
  client_connect-Flow c =
      let d = set_state ClientState.connecting c in
      let d' : Context S = record d { library = (lib.connect d.library).0 } in
      let p : Flow [] c d' =
        Flow_trans (set_state-Flow ClientState.connecting c) (library-Flow d _) in
      Flow_if_pair (not (same_state c.client.state ClientState.disconnected)) _ _ (Flow_refl c) (
        Flow_if_pair (is_success (lib.connect d.library).1) _ _
          (Flow_trans p (
            connected-Flow (PahoSync.subscribe_to_primary_host lib) subscribe_to_primary_host-Flow
              d'))
          (Flow_trans p (on_disconnect-Flow d')))

  pub client_disconnect-Flow : Flows (PahoSync.client_disconnect lib)
  unfolding PahoSync.client_disconnect
  client_disconnect-Flow c =
      let p : Flow [] c (record (set_state ClientState.disconnecting c) { library = _ }) =
        Flow_trans (set_state-Flow ClientState.disconnecting c)
          (library-Flow (set_state ClientState.disconnecting c) _) in
      Flow_if_pair _ _ _ (Flow_trans p (set_state-Flow ClientState.disconnected _)) p

  pub destroy-Flow : (c : Context S) → Flow [] c (PahoSync.destroy lib c)
  unfolding PahoSync.destroy
  destroy-Flow c = Flow_trans (library-Flow c _) (dump_queue-Flow _)

  received-Flow :
      (n : ℕ) (c c' : Context S) (x : Received)
      → ((d : Context S) → PahoSync.receive_all lib n d ≡ some c' → Flow [] d c')
      → (lib.receive c.library).1 ≡ x
      → PahoSync.receive_all lib (suc n) c ≡ some c'
      → Flow [] c c'
  unfolding PahoSync.receive_all
  received-Flow n c c' (message topic payload) later e s =
      let d : Context S = record c { library = (lib.receive c.library).0 } in
      Flow_trans (library-Flow c _) (
        Flow_trans (message_received-Flow topic payload d)
          (later (message_received topic payload d) (ground (arith, e, s))))
  received-Flow n c c' empty later e s =
      let d : Context S = record c { library = (lib.receive c.library).0 } in
      Flow_of {b = d} s (ground (arith, e)) (library-Flow c _)
  received-Flow n c c' (failed code) later e s =
      let d : Context S = record c { library = (lib.receive c.library).0 } in
      Flow_of {b = if is_disconnected_code code then on_disconnect d else d} s (ground (arith, e)) (
        Flow_if (is_disconnected_code code) (Flow_trans (library-Flow c _) (on_disconnect-Flow d))
          (library-Flow c _))

  receive_all-Flow :
      (n : ℕ) (c c' : Context S) → PahoSync.receive_all lib n c ≡ some c' → Flow [] c c'
  unfolding PahoSync.receive_all
  receive_all-Flow zero c c' s = cc s
  receive_all-Flow (suc n) c c' s =
      received-Flow n c c' (lib.receive c.library).1 (λ d. receive_all-Flow n d c') refl s

  module _ (t : Tahu) (int64_bytes : ℕ → Bytes) (fuel : ℕ) where
    -- The queue that starts anew when no tokens are in flight.
    started-Flow :
        (tokens : Option (List ℤ)) (c : Context S) (x : Context S × Bool)
        → (lib.pending_tokens c.library).2 ≡ tokens
        → PahoSync.check_pending lib t int64_bytes fuel c ≡ some x
        → Flow [] c x.0
    unfolding PahoSync.check_pending
    started-Flow none c x e s =
        let pending = lib.pending_tokens c.library in
        let d : Context S = record c { library = pending.0 } in
        let y : Context S × Bool =
          if is_disconnected_code pending.1 then (on_disconnect d, false) else (d, true) in
        Flow_pair {y = y} s (ground (arith, e)) (
          Flow_if_pair (is_disconnected_code pending.1) _ _
            (Flow_trans (library-Flow c _) (on_disconnect-Flow d)) (library-Flow c _))
    started-Flow (some []) c x e s =
        let d : Context S = record c { library = (lib.pending_tokens c.library).0 } in
        let (d', called, rest) =
          then_some (publish_from_queue t int64_bytes (PahoSync.transport lib) fuel d)
            (λ d'. some (d', true)) x (ground (arith, e, s)) in
        Flow_pair rest refl
          (Flow_trans (library-Flow c _) (publish_from_queue-Flow t int64_bytes _ fuel d d' called))
    started-Flow (some (token ∷ tokens)) c x e s =
        let d : Context S = record c { library = (lib.pending_tokens c.library).0 } in
        Flow_pair {y = (d, true)} s (ground (arith, e)) (library-Flow c _)

    check_pending-Flow :
        (c : Context S) (x : Context S × Bool)
        → PahoSync.check_pending lib t int64_bytes fuel c ≡ some x
        → Flow [] c x.0
    check_pending-Flow c x = started-Flow (lib.pending_tokens c.library).2 c x refl

    front-Flow :
        (q : List PublishRequest) (c : Context S) (x : Context S × Bool)
        → c.client.publish_queue ≡ q
        → PahoSync.check_front lib t int64_bytes fuel q c ≡ some x
        → Flow [] c x.0
    unfolding PahoSync.check_front
    front-Flow [] c x e s = Flow_pair s refl (Flow_refl c)
    front-Flow (r ∷ q) c x e s =
        let waited = lib.wait_for_completion r.token c.library in
        let d : Context S = record c { library = waited.0 } in
        elim (Bool-cases (is_success waited.1)) [
          | inl ok ↦
              let (d', called, rest) =
                then_some
                  (publish_from_queue t int64_bytes (PahoSync.transport lib) fuel
                    (delivered r (set_queue q d)))
                  (PahoSync.check_pending lib t int64_bytes fuel) x (ground (arith, ok, s)) in
              Flow_trans (library-Flow c _) (
                Flow_trans (delivered-Flow r d q e) (
                  Flow_trans (publish_from_queue-Flow t int64_bytes _ fuel _ d' called)
                    (check_pending-Flow d' x rest)))
          | inr bad ↦ elim (Bool-cases (is_disconnected_code waited.1)) [
            | inl gone ↦
                Flow_pair {y = (on_disconnect d, false)} s (ground (arith, bad, gone))
                  (Flow_trans (library-Flow c _) (on_disconnect-Flow d))
            | inr kept ↦
                Flow_trans (library-Flow c _)
                  (check_pending-Flow d x (ground (arith, bad, kept, s)))
          ]
        ]

    pub sync-Flow :
        (messages : ℕ) (c c' : Context S)
        → PahoSync.sync lib t int64_bytes fuel messages c ≡ some c'
        → Flow [] c c'
    unfolding PahoSync.sync
    sync-Flow messages c c' s =
        let ((d, goes_on), front, rest) =
          then_some (PahoSync.check_front lib t int64_bytes fuel c.client.publish_queue c)
            (λ y. if y.1 then PahoSync.receive_all lib messages y.0 else some y.0) c' s in
        Flow_trans (front-Flow c.client.publish_queue c (d, goes_on) refl front)
          (elim (Bool-cases goes_on) [
            | inl on ↦ receive_all-Flow messages d c' (ground (arith, on, rest))
            | inr off ↦ Flow_of {b = d} rest (ground (arith, off)) (Flow_refl d)
          ])
