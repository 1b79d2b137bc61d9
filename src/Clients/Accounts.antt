-- ===== src/Clients/Accounts.antt =====
-- src/clients/PahoClient.cpp and clients/CppMqttClient.cpp: what becomes of the requests of a queue.
use cpp_sparkplug.Prelude.{
  ℕ, suc, ◌+◌, ◌-◌, ◌≤◌, ◌<◌, ◌⊎◌, inl, inr, Option, none, some, List, [], ◌∷◌, ◌++◌, ◌≡◌, refl, ap,
  sym, ◌∙◌, arith, append-nil, append_assoc,
}
use cpp_sparkplug.Prelude.Int.{pos}
use cpp_sparkplug.Publishable.{Publishable}
use cpp_sparkplug.Clients.State.{Source, PublishRequest, Event, client_undelivered, publish_retries}
use cpp_sparkplug.Clients.{Context, undelivered, delivered}
use cpp_sparkplug.Clients.Queue.{set_queue, settle}

-- What a request stands for, whatever its token and its count of retries.
abbrev pub label : PublishRequest → PublishRequest
label r = record r { token = pos 0; retry_count = 0 }

abbrev pub labels : List PublishRequest → List PublishRequest
labels [] = []
labels (r ∷ q) = label r ∷ labels q

abbrev pub reports : List PublishRequest → List Event
reports [] = []
reports (r ∷ q) = client_undelivered r.publisher ∷ reports q

-- How often a request is sent at most, and the requests of a queue together.
abbrev pub attempts : PublishRequest → ℕ
attempts r = suc (publish_retries - r.retry_count)

abbrev pub total : List PublishRequest → ℕ
total [] = 0
total (r ∷ q) = attempts r + total q

-- Only the timer of a publishable may have begun anew, as in a payload that is built.
abbrev pub Kept : Publishable → Publishable → Type 0
Kept p p' = (p' ≡ p) ⊎ (p' ≡ record p { next_publish = p.publish_period })

pub Kept-trans : {p q r : Publishable} → Kept p q → Kept q r → Kept p r
Kept-trans (inl a) (inl b) = inl (b ∙ a)
Kept-trans {p} {q} {r} (inl a) (inr b) =
    inr (b ∙ ap (λ (x : Publishable). record x { next_publish = x.publish_period }) a)
Kept-trans (inr a) (inl b) = inr (b ∙ a)
Kept-trans {p} {q} {r} (inr a) (inr b) =
    inr (b ∙ ap (λ (x : Publishable). record x { next_publish = x.publish_period }) a)

-- From c to c' each request that left the front of the queue was reported as undelivered, in order,
-- and nothing else was reported or left; no attempts were gained, and the publishables were kept.
pub record Accounts {S : Type 0} (c c' : Context S) : Type 0 where
  pub dropped : List PublishRequest
  pub events_lem : c'.events ≡ c.events ++ reports dropped
  pub queue_lem : labels c.client.publish_queue ≡ labels dropped ++ labels c'.client.publish_queue
  pub total_lem : total c'.client.publish_queue ≤ total c.client.publish_queue
  pub kept_lem : (s : Source) → Kept (c.publishables s) (c'.publishables s)

pub reports-append : (q r : List PublishRequest) → reports (q ++ r) ≡ reports q ++ reports r
reports-append [] r = refl
reports-append (x ∷ q) r = ap (◌∷◌ (client_undelivered x.publisher)) (reports-append q r)

pub labels-append : (q r : List PublishRequest) → labels (q ++ r) ≡ labels q ++ labels r
labels-append [] r = refl
labels-append (x ∷ q) r = ap (◌∷◌ (label x)) (labels-append q r)

module _ {S : Type 0} where
  pub Accounts-trans : {a b c : Context S} → Accounts a b → Accounts b c → Accounts a c
  Accounts-trans {a} {b} {c} p q = record {
    dropped = p.dropped ++ q.dropped;
    events_lem =
        q.events_lem
        ∙ ap (λ (l : List Event). l ++ reports q.dropped) p.events_lem
        ∙ append_assoc a.events (reports p.dropped) (reports q.dropped)
        ∙ ap (◌++◌ a.events) (sym (reports-append p.dropped q.dropped));
    queue_lem =
        p.queue_lem
        ∙ ap (◌++◌ (labels p.dropped)) q.queue_lem
        ∙ sym (append_assoc (labels p.dropped) (labels q.dropped) (labels c.client.publish_queue))
        ∙ ap (λ (l : List PublishRequest). l ++ labels c.client.publish_queue)
            (sym (labels-append p.dropped q.dropped));
    total_lem = omega (arith, p.total_lem, q.total_lem);
    kept_lem = λ s. Kept-trans (p.kept_lem s) (q.kept_lem s);
  }

  -- Nothing left the queue and nothing was reported.
  pub Accounts-none :
      {a b : Context S}
      → b.events ≡ a.events
      → labels a.client.publish_queue ≡ labels b.client.publish_queue
      → total b.client.publish_queue ≤ total a.client.publish_queue
      → ((s : Source) → Kept (a.publishables s) (b.publishables s))
      → Accounts a b
  Accounts-none {a} e q le kept = record {
    dropped = [];
    events_lem = e ∙ sym (append-nil a.events);
    queue_lem = q;
    total_lem = le;
    kept_lem = kept;
  }

  pub settle_frame :
      (c : Context S)
      → ((settle c).events ≡ c.events)
        × ((settle c).client.publish_queue ≡ c.client.publish_queue)
        × ((settle c).publishables ≡ c.publishables)
  unfolding settle
  settle_frame c = ground arith

  pub delivered_queue :
      (r : PublishRequest) (c : Context S)
      → (delivered r c).client.publish_queue ≡ c.client.publish_queue
  unfolding delivered
  delivered_queue r c = refl

  pub undelivered_queue :
      (r : PublishRequest) (c : Context S)
      → (undelivered r c).client.publish_queue ≡ c.client.publish_queue
  unfolding undelivered
  undelivered_queue r c = refl

  -- The front leaves the queue as undelivered.
  pub drop-Accounts :
      (c : Context S) (r : PublishRequest) (q : List PublishRequest)
      → c.client.publish_queue ≡ r ∷ q
      → Accounts c (undelivered r (set_queue q c))
  unfolding undelivered
  drop-Accounts c r q e = record {
    dropped = r ∷ [];
    events_lem = refl;
    queue_lem = ap labels e;
    total_lem = omega (arith, ap total e);
    kept_lem = λ s. inl refl;
  }

  -- A call that runs out of its fuel only where that is less than the attempts n, and else accounts for
  -- every request.
  abbrev pub Handled : ℕ → ℕ → Context S → Option (Context S) → Type 0
  Handled fuel n c o =
      ((o ≡ none) × (fuel < n)) ⊎ ((c' : Context S) × (o ≡ some c') × Accounts c c')

  pub Handled-done :
      (fuel n : ℕ) {c : Context S} {o : Option (Context S)} (c' : Context S)
      → o ≡ some c'
      → Accounts c c'
      → Handled fuel n c o
  Handled-done fuel n c' e a = inr (c', e, a)

  pub Handled-trans :
      (fuel n fuel' m : ℕ) {a b : Context S} {o o' : Option (Context S)}
      → Accounts a b
      → o' ≡ o
      → (fuel < n → fuel' < m)
      → Handled fuel n b o
      → Handled fuel' m a o'
  Handled-trans fuel n fuel' m p e less (inl (out, lt)) = inl (e ∙ out, less lt)
  Handled-trans fuel n fuel' m p e less (inr (c', s, q)) = inr (c', e ∙ s, Accounts-trans p q)

  -- With fuel for the attempts the call returns.
  pub Handled-total :
      (fuel n : ℕ) {c : Context S} {o : Option (Context S)}
      → Handled fuel n c o
      → n ≤ fuel
      → (c' : Context S) × (o ≡ some c') × Accounts c c'
  Handled-total fuel n (inl (out, lt)) le = absurd (omega arith)
  Handled-total fuel n (inr done) le = done

  -- Whatever its fuel, what it returns is right.
  pub Handled-partial :
      (fuel n : ℕ) {c c' : Context S} {o : Option (Context S)}
      → Handled fuel n c o
      → o ≡ some c'
      → Accounts c c'
  Handled-partial fuel n (inl (out, lt)) s = cc
  Handled-partial fuel n {c} (inr (d, e, a)) s = ground (arith, e, s, a)
