-- ===== src/Clients/Termination.antt =====
-- clients/PahoClient.cpp and clients/CppMqttClient.cpp: the operations of the queue, whether they
-- return and what becomes of each request.
use cpp_sparkplug.Prelude.{
  ap, ℕ, suc, ◌≤◌, Bytes, ◌&&◌, some, List, [], ◌∷◌, ◌++◌, ◌==◌, length, ◌≡◌, refl, arith,
  Bool-cases, inl, inr,
}
use cpp_sparkplug.Prelude.Int.{ℤ, eq_ℤ_refl}
use cpp_sparkplug.Tahu.{Tahu}
use cpp_sparkplug.Clients.State.{PublishRequest}
use cpp_sparkplug.Clients.{Context, delivered}
use cpp_sparkplug.Clients.Accounts.{
  Handled, Handled-done, Handled-trans, Handled-total, Accounts, total, Accounts-none,
  delivered_queue,
}
use cpp_sparkplug.Clients.Queue.{
  Transport, set_queue, fail_front, process_request, publish_from_queue, on_delivery_failure,
  request, on_delivery,
}
use cpp_sparkplug.Clients.Retries.{next_lem, fail_lem, process_lem}

module _ (t : Tahu) (int64_bytes : ℕ → Bytes) {S : Type 0} where
  module _ (net : Transport S) where
    pub publish_from_queue-Handled :
        (fuel : ℕ) (c : Context S)
        → Handled fuel
            (total c.client.publish_queue)
            c
            (publish_from_queue t int64_bytes net fuel c)
    unfolding publish_from_queue
    publish_from_queue-Handled fuel c =
        next_lem t int64_bytes net fuel _ c (process_lem t int64_bytes net fuel)

    -- With fuel for the attempts that the queue has left, publishFromQueue returns, and each request
    -- that it takes off the queue it reports as undelivered, in order, and nothing else;
    -- the queue gains no attempts, and
    -- of the publishables only timers begin anew.
    pub publish_from_queue-Accounts :
        (fuel : ℕ) (c : Context S)
        → total c.client.publish_queue ≤ fuel
        → (c' : Context S) × (publish_from_queue t int64_bytes net fuel c ≡ some c') × Accounts c c'
    publish_from_queue-Accounts fuel c le =
        Handled-total fuel _ (publish_from_queue-Handled fuel c) le

    fail_any :
        (fuel : ℕ) (token : ℤ) (c : Context S) (q : List PublishRequest)
        → c.client.publish_queue ≡ q
        → Handled
            (suc fuel)
            (total q)
            c
            (fail_front t int64_bytes net (process_request t int64_bytes net fuel) token c)
    unfolding fail_front
    fail_any fuel token c [] e =
        Handled-done (suc fuel) 0 c (ground arith)
          (Accounts-none refl refl (omega arith) (λ s. inl refl))
    fail_any fuel token c (r ∷ q) e =
        fail_lem t int64_bytes net fuel (process_request t int64_bytes net fuel) token c r q
          (process_lem t int64_bytes net fuel) e

    pub on_delivery_failure-Handled :
        (fuel : ℕ) (token : ℤ) (c : Context S)
        → Handled
            (suc fuel)
            (total c.client.publish_queue)
            c
            (on_delivery_failure t int64_bytes net fuel token c)
    unfolding on_delivery_failure
    on_delivery_failure-Handled fuel token c = fail_any fuel token c _ refl

    -- With fuel for the attempts that the queue has left, less one, onDeliveryFailure returns for any
    -- token, and each request that it takes off the queue it reports as undelivered, in order, and
    -- nothing else; the queue gains no attempts, and
    -- of the publishables only timers begin anew.
    pub on_delivery_failure-Accounts :
        (fuel : ℕ) (token : ℤ) (c : Context S)
        → total c.client.publish_queue ≤ suc fuel
        → (c' : Context S) × (on_delivery_failure t int64_bytes net fuel token c ≡ some c')
          × Accounts c c'
    on_delivery_failure-Accounts fuel token c le =
        Handled-total (suc fuel) _ (on_delivery_failure-Handled fuel token c) le

    pub request-Handled :
        (fuel : ℕ) (r : PublishRequest) (c : Context S)
        → Handled fuel
            (total (c.client.publish_queue ++ r ∷ []))
            (set_queue (c.client.publish_queue ++ r ∷ []) c)
            (request t int64_bytes net fuel r c)
    unfolding request
    request-Handled fuel r c =
        let queued : Context S = set_queue (c.client.publish_queue ++ r ∷ []) c in
        elim (Bool-cases
          (length (c.client.publish_queue ++ r ∷ []) == 1 && net.is_connected c.library)) [
            | inr wait ↦
                Handled-done fuel _ queued (rw wait)
                  (Accounts-none refl refl (omega arith) (λ s. inl refl))
            | inl first ↦
                Handled-trans fuel _ fuel _ (Accounts-none refl refl (omega arith) (λ s. inl refl))
                  (rw first) (λ lt. lt) (publish_from_queue-Handled fuel queued)
          ]

    -- With fuel for the attempts that the queue has left with the new request at its end, `request`
    -- returns, and each request that it takes off that queue it reports as undelivered, in order, and
    -- nothing else; the queue gains no attempts, and
    -- of the publishables only timers begin anew.
    pub request-Accounts :
        (fuel : ℕ) (r : PublishRequest) (c : Context S)
        → total (c.client.publish_queue ++ r ∷ []) ≤ fuel
        → (c' : Context S) × (request t int64_bytes net fuel r c ≡ some c')
          × Accounts (set_queue (c.client.publish_queue ++ r ∷ []) c) c'
    request-Accounts fuel r c le = Handled-total fuel _ (request-Handled fuel r c) le

    taken :
        (fuel : ℕ) (c : Context S) (r : PublishRequest) (q : List PublishRequest)
        → c.client.publish_queue ≡ r ∷ q
        → on_delivery t int64_bytes net fuel r.token c
          ≡ publish_from_queue t int64_bytes net fuel (delivered r (set_queue q c))
    unfolding on_delivery
    taken fuel c r q e = rw (e, on_delivery, eq_ℤ_refl r.token)

    pub on_delivery-Handled :
        (fuel : ℕ) (c : Context S) (r : PublishRequest) (q : List PublishRequest)
        → c.client.publish_queue ≡ r ∷ q
        → Handled fuel
            (total q)
            (delivered r (set_queue q c))
            (on_delivery t int64_bytes net fuel r.token c)
    on_delivery-Handled fuel c r q e =
        let c' : Context S = delivered r (set_queue q c) in
        let left = ap total (delivered_queue r (set_queue q c)) in
        Handled-trans fuel (total c'.client.publish_queue) fuel (total q)
          (Accounts-none refl refl (omega arith) (λ s. inl refl)) (taken fuel c r q e)
          (λ lt. omega (arith, left)) (publish_from_queue-Handled fuel c')

    -- With fuel for the attempts of the requests behind the front one, the delivery of the front
    -- request returns: that request leaves the queue and is reported as delivered, and after it
    -- each request that leaves the queue is reported as undelivered, in order, and nothing else;
    -- the queue gains no attempts, and of the publishables only timers begin anew.
    pub on_delivery-Accounts :
        (fuel : ℕ) (c : Context S) (r : PublishRequest) (q : List PublishRequest)
        → c.client.publish_queue ≡ r ∷ q
        → total q ≤ fuel
        → (c' : Context S) × (on_delivery t int64_bytes net fuel r.token c ≡ some c')
          × Accounts (delivered r (set_queue q c)) c'
    on_delivery-Accounts fuel c r q e le =
        Handled-total fuel _ (on_delivery-Handled fuel c r q e) le
