-- ===== src/Clients/Queue.antt =====
-- src/clients/PahoClient.cpp, and the same methods of clients/CppMqttClient.cpp: the queue of publish
-- requests, of which the front is under way. A send that fails at once calls the failure handler, which
-- sends again or goes on to the next request, within the same call: that recursion takes fuel.
use cpp_sparkplug.Prelude.{
  ℕ, zero, suc, ◌+◌, Bytes, Bool, ◌&&◌, ◌||◌, Option, none, some, List, [], ◌∷◌, ◌++◌, null,
  if◌then◌else◌, ◌==◌, leb, not, length,
}
use cpp_sparkplug.Prelude.Int.{ℤ, eq_ℤ}
use cpp_sparkplug.Tahu.{Tahu}
use cpp_sparkplug.Clients.State.{ClientState, same_state, PublishRequest, publish_retries}
use cpp_sparkplug.Clients.{
  Context, update_client, prepare, set_state, set_primary, undelivered, delivered, disconnected,
}

-- What the queue needs of an MQTT library: whether it is connected, and how publishMessage sends. The
-- result of a send is the token that it leaves in the request, given the one before, and whether
-- publishMessage calls onDeliveryFailure. The return code of publishMessage is read by no caller.
pub record Sent : Type 0 where
  pub token : ℤ
  pub failed : Bool

pub record Transport (S : Type 0) : Type 0 where
  pub is_connected : S → Bool
  pub send : Bytes → Bytes → ℤ → S → S × Sent

-- `*token = …` and `retryCount++` write through the pointer that is the front of the queue.
abbrev pub change_front :
    (PublishRequest → PublishRequest) → List PublishRequest → List PublishRequest
change_front f [] = []
change_front f (r ∷ q) = f r ∷ q

-- retryCount++
abbrev pub again : PublishRequest → PublishRequest
again r = record r { retry_count = r.retry_count + 1 }

module _ {S : Type 0} where
  abbrev pub set_queue : List PublishRequest → Context S → Context S
  set_queue q = update_client (λ k. record k { publish_queue = q })

  abbrev pub write_token : ℤ → Context S → Context S
  write_token k c = set_queue (change_front (λ r. record r { token = k }) c.client.publish_queue) c

  -- `dumpQueue`
  unfoldable pub dump : List PublishRequest → Context S → Context S
  dump [] c = set_queue [] c
  dump (r ∷ q) c = dump q (undelivered r c)

  unfoldable pub dump_queue : Context S → Context S
  unfolding dump undelivered
  dump_queue c = dump c.client.publish_queue c

  -- PahoClient::setPrimary, which hides the method of the base class.
  unfoldable pub set_primary_and_dump : Bool → Context S → Context S
  unfolding set_primary dump_queue
  set_primary_and_dump b c = if b then set_primary b c else dump_queue (set_primary b c)

  -- The end of publishFromQueue, when there is nothing to publish.
  unfoldable pub settle : Context S → Context S
  unfolding set_state
  settle c =
      if same_state c.client.state ClientState.publishing_payload
      then set_state ClientState.connected c
      else c

  -- ~PahoClient
  unfoldable pub destroy : Context S → Context S
  unfolding dump_queue
  destroy c = dump_queue c

  unfoldable pub on_disconnect : Context S → Context S
  unfolding dump_queue disconnected
  on_disconnect c = disconnected (dump_queue c)

module _ (t : Tahu) (int64_bytes : ℕ → Bytes) {S : Type 0} (net : Transport S) where
  -- publishFromQueue, with processRequest as the argument.
  unfoldable pub publish_next :
      (PublishRequest → Context S → Option (Context S)) → Context S → Option (Context S)
  unfolding settle
  publish_next process c =
      if not (net.is_connected c.library)
      then some c
      else if not c.client.is_primary
      then some (settle c)
      else elim c.client.publish_queue [ [] ↦ some (settle c) | r ∷ q ↦ process r c ]

  -- onDeliveryFailure, with processRequest as the argument.
  unfoldable pub fail_front :
      (PublishRequest → Context S → Option (Context S)) → ℤ → Context S → Option (Context S)
  unfolding publish_next
  fail_front process token c = elim c.client.publish_queue [
    | [] ↦ some c
    | r ∷ q ↦
        if eq_ℤ r.token token
        then if leb publish_retries r.retry_count || not (net.is_connected c.library)
          then publish_next process (undelivered r (set_queue q c))
          else process (again r) (set_queue (again r ∷ q) c)
        else some c
  ]

  -- The call of the library in publishMessage, and the token that it leaves in the front request.
  unfoldable pub send_front : PublishRequest → Bytes → Context S → Context S × Sent
  send_front r buffer c =
      let (s, sent) = net.send r.topic buffer r.token c.library in
      (write_token sent.token (record c { library = s }), sent)

  -- processRequest of the front of the queue, with the publishMessage of the client: `none` is out of
  -- fuel. Its return code is read by no caller.
  unfoldable pub process_request : ℕ → PublishRequest → Context S → Option (Context S)
  unfolding fail_front send_front
  process_request zero r c = none
  process_request (suc fuel) r c =
      let (c1, buffer) = prepare t int64_bytes r c in
      let (c2, sent) = send_front r buffer c1 in
      let failure = fail_front (process_request fuel) sent.token c2 in
      if same_state c.client.state ClientState.disconnected
      then some c
      else if null buffer
      then some c1
      else if sent.failed
      then failure
      else some c2

  unfoldable pub publish_from_queue : ℕ → Context S → Option (Context S)
  unfolding publish_next process_request
  publish_from_queue fuel = publish_next (process_request fuel)

  unfoldable pub on_delivery_failure : ℕ → ℤ → Context S → Option (Context S)
  unfolding fail_front process_request
  on_delivery_failure fuel = fail_front (process_request fuel)

  -- request
  unfoldable pub request : ℕ → PublishRequest → Context S → Option (Context S)
  unfolding publish_from_queue
  request fuel r c =
      let c' = set_queue (c.client.publish_queue ++ r ∷ []) c in
      if length c'.client.publish_queue == 1 && net.is_connected c'.library
      then publish_from_queue fuel c'
      else some c'

  -- onDelivery and onDeliveryComplete: `none` also for the front of an empty queue.
  unfoldable pub on_delivery : ℕ → ℤ → Context S → Option (Context S)
  unfolding publish_from_queue
  on_delivery fuel token c = elim c.client.publish_queue [
    | [] ↦ none
    | r ∷ q ↦
        if eq_ℤ r.token token then publish_from_queue fuel (delivered r (set_queue q c)) else some c
  ]
