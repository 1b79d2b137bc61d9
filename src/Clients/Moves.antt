-- ===== src/Clients/Moves.antt =====
-- src/clients/SparkplugClient.cpp and the queue: the flow of requests through each method.
pub mod Sync
pub mod Async
pub mod Cpp
use cpp_sparkplug.Prelude.{
  ℕ, Bytes, Bool, true, false, not, null, Option, none, some, List, [], ◌∷◌, ◌++◌, ◌≡◌, refl, ap,
  sym, ◌∙◌, arith, append-nil, append_assoc, if◌then◌else◌, Bool-cases, inl, inr,
}
use cpp_sparkplug.Prelude.Int.{ℤ, pos, negsuc, ltb_ℤ, eq_ℤ}
use cpp_sparkplug.Tahu.{Tahu}
use cpp_sparkplug.Clients.State.{
  ClientState, same_state, PublishRequest, Event, client_message, client_connected,
  client_disconnected, client_active, ClientTopicOptions,
}
use cpp_sparkplug.Clients.{
  Client, Context, update_client, raise, set_primary, set_state, configure, activate, deactivate,
  connect, disconnect, activated, connected, disconnected, message_received, execute, delivered,
  undelivered,
}
use cpp_sparkplug.Clients.Queue.{
  Transport, set_queue, request, on_delivery, on_delivery_failure, publish_from_queue,
  on_disconnect, dump_queue, dump,
}
use cpp_sparkplug.Clients.Accounts.{reports, Handled-partial}
use cpp_sparkplug.Clients.Termination.{
  publish_from_queue-Handled, on_delivery_failure-Handled, request-Handled, on_delivery-Handled,
}
use cpp_sparkplug.Clients.Flow.{
  sources, publishers, Flow, Flow_trans, Flow_silent, Flow_raise, Flow_refl, Flow_of, Accounts-Flow,
  enqueue-Flow, delivered-Flow, sources-append, sources-reports,
}

module _ (t : Tahu) (int64_bytes : ℕ → Bytes) {S : Type 0} (net : Transport S) (fuel : ℕ) where
  pub publish_from_queue-Flow :
      (c c' : Context S) → publish_from_queue t int64_bytes net fuel c ≡ some c' → Flow [] c c'
  publish_from_queue-Flow c c' e =
      Accounts-Flow (Handled-partial fuel _ (publish_from_queue-Handled t int64_bytes net fuel c) e)

  pub on_delivery_failure-Flow :
      (token : ℤ) (c c' : Context S)
      → on_delivery_failure t int64_bytes net fuel token c ≡ some c'
      → Flow [] c c'
  on_delivery_failure-Flow token c c' e =
      Accounts-Flow
        (Handled-partial _ _ (on_delivery_failure-Handled t int64_bytes net fuel token c) e)

  pub request-Flow :
      (r : PublishRequest) (c c' : Context S)
      → request t int64_bytes net fuel r c ≡ some c'
      → Flow (r.publisher ∷ []) c c'
  request-Flow r c c' e =
      Flow_trans (enqueue-Flow r c)
        (Accounts-Flow (Handled-partial fuel _ (request-Handled t int64_bytes net fuel r c) e))

  delivery_of :
      (token : ℤ) (c c' : Context S) (q : List PublishRequest)
      → c.client.publish_queue ≡ q
      → on_delivery t int64_bytes net fuel token c ≡ some c'
      → Flow [] c c'
  unfolding on_delivery
  delivery_of token c c' [] e s = absurd (ground (arith, e, s))
  delivery_of token c c' (r ∷ q) e s = elim (Bool-cases (eq_ℤ r.token token)) [
    | inl mine ↦
        Flow_trans (delivered-Flow r c q e)
          (publish_from_queue-Flow (delivered r (set_queue q c)) c' (ground (arith, e, mine, s)))
    | inr other ↦ Flow_of s (ground (arith, e, other)) (Flow_refl c)
  ]

  pub on_delivery-Flow :
      (token : ℤ) (c c' : Context S)
      → on_delivery t int64_bytes net fuel token c ≡ some c'
      → Flow [] c c'
  on_delivery-Flow token c c' = delivery_of token c c' c.client.publish_queue refl

module _ {S : Type 0} where
  dump_lem :
      (q : List PublishRequest) (c : Context S)
      → ((dump q c).events ≡ c.events ++ reports q)
        × ((dump q c).client.publish_queue ≡ [])
        × ((dump q c).publishables ≡ c.publishables)
  unfolding dump undelivered
  dump_lem [] c = (sym (append-nil c.events), refl, refl)
  dump_lem (r ∷ q) c =
      let (e, d, p) = dump_lem q (undelivered r c) in
      (e ∙ append_assoc c.events _ (reports q), d, p)

  pub dump_queue-Flow : (c : Context S) → Flow [] c (dump_queue c)
  unfolding dump_queue
  dump_queue-Flow c =
      let (e, d, p) = dump_lem c.client.publish_queue c in
      record {
        raised = reports c.client.publish_queue;
        events_lem = e;
        flow_lem =
            ap (λ (l : List _). l ++ []) (sym (sources-reports c.client.publish_queue))
            ∙ ap
                (λ (l : List PublishRequest).
                  sources (reports c.client.publish_queue) ++ publishers l)
                (sym d);
        kept_lem = λ s. inl (ap (λ (f : _ → _). f s) p);
      }

  pub set_state-Flow : (x : ClientState) (c : Context S) → Flow [] c (set_state x c)
  unfolding set_state
  set_state-Flow x c = Flow_silent (ground arith)

  pub on_disconnect-Flow : (c : Context S) → Flow [] c (on_disconnect c)
  unfolding on_disconnect disconnected
  on_disconnect-Flow c = Flow_trans (dump_queue-Flow c) (
      Flow_trans (set_state-Flow ClientState.disconnected (dump_queue c))
        (Flow_raise client_disconnected (set_state ClientState.disconnected (dump_queue c)) refl))

  pub Flow_if :
      (b : Bool) {a x y : Context S} → Flow [] a x → Flow [] a y → Flow [] a (if b then x else y)
  Flow_if true p q = p
  Flow_if false p q = q

  pub Flow_if_pair :
      (b : Bool) {A : Type 0} {a : Context S} (x y : Context S × A)
      → Flow [] a x.0
      → Flow [] a y.0
      → Flow [] a (if b then x else y).0
  Flow_if_pair true x y p q = p
  Flow_if_pair false x y p q = q

  pub activated-Flow : (c : Context S) → Flow [] c (activated c)
  unfolding activated
  activated-Flow c =
      Flow_if (not c.client.is_primary) (Flow_refl c) (Flow_raise client_active c refl)

  pub message_received-Flow :
      (topic payload : Bytes) (c : Context S) → Flow [] c (message_received topic payload c)
  unfolding message_received
  message_received-Flow topic payload c = Flow_raise (client_message topic payload) c refl

  pub update-Flow :
      (f : Client → Client) (c : Context S)
      → (f c.client).publish_queue ≡ c.client.publish_queue
      → Flow [] c (update_client f c)
  update-Flow f c q = Flow_silent (refl, q, refl)

  -- A method with a result, from any context on.
  abbrev pub Flows : {A : Type 0} → (Context S → Context S × A) → Type 0
  Flows f = (c : Context S) → Flow [] c (f c).0

  pub connected-Flow :
      (f : Context S → Context S × ℤ) → Flows f → (c : Context S) → Flow [] c (connected f c)
  unfolding connected
  connected-Flow f h c =
      let c1 : Context S = set_state ClientState.connected c in
      let p : Flow [] c (raise client_connected c1) =
        Flow_trans (set_state-Flow ClientState.connected c) (Flow_raise client_connected c1 refl) in
      Flow_if (not (null c.client.topics.primary_host_topic))
        (Flow_trans p (h (raise client_connected c1))) p

  pub configure-Flow :
      (f : Context S → Context S × ℤ)
      → Flows f
      → (o : Option ClientTopicOptions) → Flows (configure f o)
  unfolding configure
  configure-Flow f h none c = Flow_refl c
  configure-Flow f h (some topics) c =
      let c1 : Context S = update_client (λ k. record k { topics = topics }) c in
      let p : Flow [] c (f c1).0 =
        Flow_trans (update-Flow (λ k. record k { topics = topics }) c refl) (h c1) in
      Flow_if_pair (ltb_ℤ (f c1).1 (pos 0)) _ _ p
        (Flow_trans p (update-Flow (λ k. record k { configured = true }) (f c1).0 refl))

  set_primary-Flow : (b : Bool) (c : Context S) → Flow [] c (set_primary b c)
  unfolding set_primary
  set_primary-Flow b c = update-Flow (λ k. record k { is_primary = b }) c refl

  pub activate-Flow : (f : Context S → Context S × ℤ) → Flows f → Flows (activate f)
  unfolding activate
  activate-Flow f h c =
      let c1 : Context S = set_primary true c in
      let p : Flow [] c (f c1).0 = Flow_trans (set_primary-Flow true c) (h c1) in
      Flow_if_pair c.client.is_primary _ _ (Flow_refl c) (
        Flow_if_pair (ltb_ℤ (f c1).1 (pos 0)) _ _ (Flow_trans p (set_primary-Flow false (f c1).0))
          p)

  pub deactivate-Flow : (f : Context S → Context S × ℤ) → Flows f → Flows (deactivate f)
  unfolding deactivate
  deactivate-Flow f h c = Flow_if_pair (not c.client.is_primary) _ _ (Flow_refl c) (
      Flow_if_pair (ltb_ℤ (f c).1 (pos 0)) _ _ (h c)
        (Flow_trans (h c) (set_primary-Flow false (f c).0)))

  pub connect-Flow : (f : Context S → Context S × ℤ) → Flows f → Flows (connect f)
  unfolding connect
  connect-Flow f h c =
      Flow_if_pair (not (same_state c.client.state ClientState.disconnected)) _ _ (Flow_refl c) (
        Flow_if_pair (not c.client.configured) _ _ (Flow_refl c) (
          Flow_if_pair (ltb_ℤ (f c).1 (pos 0)) _ _
            (Flow_trans (h c) (set_state-Flow ClientState.disconnected (f c).0))
            (Flow_trans (h c) (set_state-Flow ClientState.connecting (f c).0))))

  pub disconnect-Flow : (f : Context S → Context S × ℤ) → Flows f → Flows (disconnect f)
  unfolding disconnect
  disconnect-Flow f h c =
      Flow_if_pair (same_state c.client.state ClientState.disconnected) _ _ (Flow_refl c) (h c)

  pub execute-Flow :
      (f : Context S → Context S × ℤ) (sync : Context S → Option (Context S))
      → Flows f
      → ((c c' : Context S) → sync c ≡ some c' → Flow [] c c')
      → (c c' : Context S) → execute f sync c ≡ some c'
      → Flow [] c c'
  unfolding execute
  execute-Flow f sync h k c c' e =
      Flow_trans
        (Flow_if (same_state c.client.state ClientState.disconnected) (connect-Flow f h c)
          (Flow_refl c))
        (k _ c' e)
