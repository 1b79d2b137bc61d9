-- ===== src/Clients/Retries.antt =====
-- src/clients/PahoClient.cpp and clients/CppMqttClient.cpp: the recursion between processRequest and
-- onDeliveryFailure, by induction on the attempts that are left.
use cpp_sparkplug.Prelude.{
  ℕ, zero, suc, ◌≤◌, Bytes, true, false, ◌||◌, Option, some, List, [], ◌∷◌, null, if◌then◌else◌,
  leb, not, ◌≡◌, refl, ap, sym, ◌∙◌, arith, Bool-cases, inl, inr,
}
use cpp_sparkplug.Prelude.Int.{ℤ, eq_ℤ}
use cpp_sparkplug.Tahu.{Tahu}
use cpp_sparkplug.Publishable.{Publishable, add_to_payload}
use cpp_sparkplug.Clients.State.{
  Source, same_source, same_source→eq, ClientState, same_state, PublishRequest, publish_retries,
}
use cpp_sparkplug.Clients.{Context, prepare, undelivered}
use cpp_sparkplug.Clients.Accounts.{
  Kept, Handled, Handled-done, Handled-trans, labels, Accounts, total, Accounts-none, settle_frame,
  undelivered_queue, drop-Accounts,
}
use cpp_sparkplug.Clients.Queue.{
  Transport, set_queue, change_front, again, settle, publish_next, fail_front, process_request,
  send_front,
}

module _ (t : Tahu) (int64_bytes : ℕ → Bytes) {S : Type 0} where
  prepare_frame :
      (r : PublishRequest) (c : Context S)
      → ((prepare t int64_bytes r c).0.events ≡ c.events)
        × ((prepare t int64_bytes r c).0.client.publish_queue ≡ c.client.publish_queue)
        × ((prepare t int64_bytes r c).0.library ≡ c.library)
        × ((prepare t int64_bytes r c).0.client.is_primary ≡ c.client.is_primary)
  unfolding prepare
  prepare_frame r c = ground arith

  prepare_publishables :
      (r : PublishRequest) (c : Context S) (s : Source)
      → let p = c.publishables r.publisher in
        (prepare t int64_bytes r c).0.publishables s ≡ (
          if same_source r.publisher s
          then record p { next_publish = p.publish_period }
          else c.publishables s)
  unfolding prepare add_to_payload
  prepare_publishables r c s = ground arith

  prepare-Kept :
      (r : PublishRequest) (c : Context S) (s : Source)
      → Kept (c.publishables s) ((prepare t int64_bytes r c).0.publishables s)
  prepare-Kept r c s = elim (Bool-cases (same_source r.publisher s)) [
    | inl mine ↦ inr (
        prepare_publishables r c s
        ∙ rw mine (
            ap
              (λ (x : Source). record (c.publishables x) {
                next_publish = (c.publishables x).publish_period;
              })
              (same_source→eq r.publisher s mine)))
    | inr other ↦ inl (prepare_publishables r c s ∙ rw other)
  ]

  -- What a send that is given `fuel` promises of a request at the front of a queue.
  abbrev pub Serves : ℕ → (PublishRequest → Context S → Option (Context S)) → Type 0
  Serves fuel process =
      (r : PublishRequest) (c : Context S) (q : List PublishRequest)
      → c.client.publish_queue ≡ r ∷ q
      → Handled fuel (total (r ∷ q)) c (process r c)

  module _ (net : Transport S) where
    settle-Accounts : (c : Context S) → Accounts c (settle c)
    settle-Accounts c =
        Accounts-none (settle_frame c).0 (ap labels (sym (settle_frame c).1))
          (omega (arith, ap total (settle_frame c).1))
          (λ s. inl (ap (λ (f : Source → Publishable). f s) (settle_frame c).2))

    next_queue :
        (fuel : ℕ) (process : PublishRequest → Context S → Option (Context S)) (c : Context S)
        (q : List PublishRequest)
        → Serves fuel process
        → net.is_connected c.library ≡ true
        → c.client.is_primary ≡ true
        → c.client.publish_queue ≡ q
        → Handled fuel (total q) c (publish_next t int64_bytes net process c)
    unfolding publish_next
    next_queue fuel process c [] serves up primary e =
        Handled-done fuel 0 (settle c) (ground arith) (settle-Accounts c)
    next_queue fuel process c (r ∷ q) serves up primary e =
        Handled-trans fuel (total (r ∷ q)) fuel (total (r ∷ q))
          (Accounts-none refl refl (omega arith) (λ s. inl refl)) (ground arith) (λ lt. lt)
          (serves r c q e)

    pub next_lem :
        (fuel : ℕ) (process : PublishRequest → Context S → Option (Context S)) (c : Context S)
        → Serves fuel process
        → Handled fuel (total c.client.publish_queue) c (publish_next t int64_bytes net process c)
    unfolding publish_next
    next_lem fuel process c serves = elim (Bool-cases (net.is_connected c.library)) [
      | inr down ↦
          Handled-done fuel _ c (ground arith)
            (Accounts-none refl refl (omega arith) (λ s. inl refl))
      | inl up ↦ elim (Bool-cases c.client.is_primary) [
        | inr passive ↦ Handled-done fuel _ (settle c) (ground arith) (settle-Accounts c)
        | inl primary ↦ next_queue fuel process c _ serves up primary refl
      ]
    ]

    fail_spent :
        (process : PublishRequest → Context S → Option (Context S)) (token : ℤ) (c : Context S)
        (r : PublishRequest) (q : List PublishRequest)
        → c.client.publish_queue ≡ r ∷ q
        → eq_ℤ r.token token ≡ true
        → leb publish_retries r.retry_count || not (net.is_connected c.library) ≡ true
        → fail_front t int64_bytes net process token c
          ≡ publish_next t int64_bytes net process (undelivered r (set_queue q c))
    unfolding fail_front
    fail_spent process token c r q e mine spent = ground arith

    fail_again :
        (process : PublishRequest → Context S → Option (Context S)) (token : ℤ) (c : Context S)
        (r : PublishRequest) (q : List PublishRequest)
        → c.client.publish_queue ≡ r ∷ q
        → eq_ℤ r.token token ≡ true
        → leb publish_retries r.retry_count || not (net.is_connected c.library) ≡ false
        → fail_front t int64_bytes net process token c
          ≡ process (again r) (set_queue (again r ∷ q) c)
    unfolding fail_front
    fail_again process token c r q e mine left = ground arith

    total-again :
        (c : Context S) (r : PublishRequest) (q : List PublishRequest)
        → c.client.publish_queue ≡ r ∷ q
        → total (again r ∷ q) ≤ total c.client.publish_queue
    total-again c r q e = omega (arith, ap total e)

    pub fail_lem :
        (fuel : ℕ) (process : PublishRequest → Context S → Option (Context S)) (token : ℤ)
        (c : Context S) (r : PublishRequest) (q : List PublishRequest)
        → Serves fuel process
        → c.client.publish_queue ≡ r ∷ q
        → Handled (suc fuel) (total (r ∷ q)) c (fail_front t int64_bytes net process token c)
    unfolding fail_front
    fail_lem fuel process token c r q serves e = elim (Bool-cases (eq_ℤ r.token token)) [
      | inr other ↦
          Handled-done (suc fuel) _ c (ground arith)
            (Accounts-none refl refl (omega arith) (λ s. inl refl))
      | inl mine ↦
          elim (Bool-cases
            (leb publish_retries r.retry_count || not (net.is_connected c.library))) [
              | inl spent ↦
                  let c' : Context S = undelivered r (set_queue q c) in
                  let left = ap total (undelivered_queue r (set_queue q c)) in
                  Handled-trans fuel (total c'.client.publish_queue) (suc fuel) (total (r ∷ q))
                    (drop-Accounts c r q e) (fail_spent process token c r q e mine spent)
                    (λ lt. omega (arith, left)) (next_lem fuel process c' serves)
              | inr left ↦
                  let less : suc (total (again r ∷ q)) ≡ total (r ∷ q) = ground arith in
                  Handled-trans fuel (total (again r ∷ q)) (suc fuel) (total (r ∷ q))
                    (Accounts-none refl (ap labels e) (total-again c r q e) (λ s. inl refl))
                    (fail_again process token c r q e mine left) (λ lt. omega (arith, less))
                    (serves (again r) (set_queue (again r ∷ q) c) q refl)
            ]
    ]

    send_frame :
        (r : PublishRequest) (buffer : Bytes) (c : Context S) (q : List PublishRequest)
        → c.client.publish_queue ≡ r ∷ q
        → let (c', sent) = send_front t int64_bytes net r buffer c in
          (c'.events ≡ c.events) × (c'.client.publish_queue ≡ record r { token = sent.token } ∷ q)
    unfolding send_front
    send_frame r buffer c q e = (refl, ap (change_front _) e)

    -- One round of processRequest, over the payload that is prepared and the send.
    pub process_round :
        (fuel : ℕ) (r : PublishRequest) (c : Context S)
        → let c1 = (prepare t int64_bytes r c).0 in
          let buffer = (prepare t int64_bytes r c).1 in
          let c2 = (send_front t int64_bytes net r buffer c1).0 in
          let sent = (send_front t int64_bytes net r buffer c1).1 in
          process_request t int64_bytes net (suc fuel) r c ≡ (
            if same_state c.client.state ClientState.disconnected
            then some c
            else if null buffer
            then some c1
            else if sent.failed
            then fail_front t int64_bytes net (process_request t int64_bytes net fuel) sent.token c2
            else some c2)
    unfolding process_request
    process_round fuel r c = refl

    sent-Accounts :
        (r : PublishRequest) (c : Context S) (q : List PublishRequest)
        → c.client.publish_queue ≡ r ∷ q
        → Accounts c
            (send_front t int64_bytes net r
              (prepare t int64_bytes r c).1
              (prepare t int64_bytes r c).0).0
    unfolding send_front
    sent-Accounts r c q e =
        let (events, queue, _, _) = prepare_frame r c in
        let (events', queue') =
          send_frame r (prepare t int64_bytes r c).1 (prepare t int64_bytes r c).0 q (queue ∙ e) in
        Accounts-none (events' ∙ events) (ap labels e ∙ sym (ap labels queue'))
          (omega (arith, ap total e, ap total queue')) (prepare-Kept r c)

    pub process_lem : (fuel : ℕ) → Serves fuel (process_request t int64_bytes net fuel)
    unfolding process_request
    process_lem zero r c q e = inl (refl, omega arith)
    process_lem (suc fuel) r c q e =
        let (c1, buffer) = prepare t int64_bytes r c in
        let (events, queue, _, _) = prepare_frame r c in
        let (c2, sent) = send_front t int64_bytes net r buffer c1 in
        let (_, queue') = send_frame r buffer c1 q (queue ∙ e) in
        let round = process_round fuel r c in
        elim (Bool-cases (same_state c.client.state ClientState.disconnected)) [
          | inl off ↦
              Handled-done (suc fuel) _ c (round ∙ rw off)
                (Accounts-none refl refl (omega arith) (λ s. inl refl))
          | inr on ↦ elim (Bool-cases (null buffer)) [
            | inl empty ↦ Handled-done (suc fuel) _ c1 (round ∙ rw (on, empty)) (
                Accounts-none events (ap labels (sym queue)) (omega (arith, ap total queue))
                  (prepare-Kept r c))
            | inr full ↦ elim (Bool-cases sent.failed) [
              | inr done ↦
                  Handled-done (suc fuel) _ c2 (round ∙ rw (on, full, done)) (sent-Accounts r c q e)
              | inl failed ↦
                  Handled-trans (suc fuel) _ (suc fuel) _ (sent-Accounts r c q e)
                    (round ∙ rw (on, full, failed)) (λ lt. lt)
                    (fail_lem fuel (process_request t int64_bytes net fuel) sent.token c2
                      (record r { token = sent.token }) q (process_lem fuel) queue')
            ]
          ]
        ]
