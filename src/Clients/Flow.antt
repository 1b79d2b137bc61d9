-- ===== src/Clients/Flow.antt =====
-- src/clients: what any call of a client does with requests, their outcomes and the publishables.
use cpp_sparkplug.Prelude.{
  Option, some, List, [], ◌∷◌, ◌++◌, ◌≡◌, refl, ap, sym, subst, ◌∙◌, arith, append-nil,
  append_assoc, inl,
}
use cpp_sparkplug.Clients.State.{
  Source, PublishRequest, Event, client_message, client_connected, client_disconnected,
  client_active, client_deactive, client_delivered, client_undelivered,
}
use cpp_sparkplug.Clients.{Context, raise, delivered}
use cpp_sparkplug.Clients.Queue.{set_queue}
use cpp_sparkplug.Clients.Accounts.{labels, reports, Kept, Kept-trans, Accounts}

-- The publishables whose outcome some events report, in order.
abbrev pub sources : List Event → List Source
sources [] = []
sources (client_delivered s ∷ es) = s ∷ sources es
sources (client_undelivered s ∷ es) = s ∷ sources es
sources (client_message topic payload ∷ es) = sources es
sources (client_connected ∷ es) = sources es
sources (client_disconnected ∷ es) = sources es
sources (client_active ∷ es) = sources es
sources (client_deactive ∷ es) = sources es

abbrev pub publishers : List PublishRequest → List Source
publishers [] = []
publishers (r ∷ q) = r.publisher ∷ publishers q

pub sources-append : (a b : List Event) → sources (a ++ b) ≡ sources a ++ sources b
sources-append [] b = refl
sources-append (client_delivered s ∷ es) b = ap (◌∷◌ s) (sources-append es b)
sources-append (client_undelivered s ∷ es) b = ap (◌∷◌ s) (sources-append es b)
sources-append (client_message topic payload ∷ es) b = sources-append es b
sources-append (client_connected ∷ es) b = sources-append es b
sources-append (client_disconnected ∷ es) b = sources-append es b
sources-append (client_active ∷ es) b = sources-append es b
sources-append (client_deactive ∷ es) b = sources-append es b

publishers-append : (a b : List PublishRequest) → publishers (a ++ b) ≡ publishers a ++ publishers b
publishers-append [] b = refl
publishers-append (r ∷ a) b = ap (◌∷◌ r.publisher) (publishers-append a b)

pub sources-reports : (q : List PublishRequest) → sources (reports q) ≡ publishers q
sources-reports [] = refl
sources-reports (r ∷ q) = ap (◌∷◌ r.publisher) (sources-reports q)

publishers-labels : (q : List PublishRequest) → publishers (labels q) ≡ publishers q
publishers-labels [] = refl
publishers-labels (r ∷ q) = ap (◌∷◌ r.publisher) (publishers-labels q)

-- From c to c' the requests of `rs` come in at the end of the queue, and what leaves its front is
-- reported, in order, by the events that are raised; the publishables are kept.
pub record Flow {S : Type 0} (rs : List Source) (c c' : Context S) : Type 0 where
  pub raised : List Event
  pub events_lem : c'.events ≡ c.events ++ raised
  pub flow_lem :
      publishers c.client.publish_queue ++ rs ≡ sources raised ++ publishers c'.client.publish_queue
  pub kept_lem : (s : Source) → Kept (c.publishables s) (c'.publishables s)

module _ {S : Type 0} where
  pub Flow_trans :
      {rs ss : List Source} {a b c : Context S} → Flow rs a b → Flow ss b c → Flow (rs ++ ss) a c
  Flow_trans {rs} {ss} {a} {b} {c} p q = record {
    raised = p.raised ++ q.raised;
    events_lem =
        q.events_lem
        ∙ ap (λ (l : List Event). l ++ q.raised) p.events_lem
        ∙ append_assoc a.events p.raised q.raised;
    flow_lem =
        sym (append_assoc (publishers a.client.publish_queue) rs ss)
        ∙ ap (λ (l : List Source). l ++ ss) p.flow_lem
        ∙ append_assoc (sources p.raised) (publishers b.client.publish_queue) ss
        ∙ ap (◌++◌ (sources p.raised)) q.flow_lem
        ∙ sym
            (append_assoc (sources p.raised) (sources q.raised) (publishers c.client.publish_queue))
        ∙ ap (λ (l : List Source). l ++ publishers c.client.publish_queue)
            (sym (sources-append p.raised q.raised));
    kept_lem = λ s. Kept-trans (p.kept_lem s) (q.kept_lem s);
  }

  -- A call that reports no outcome, and leaves the queue and the publishables as they are.
  pub Flow_quiet :
      {a b : Context S} (es : List Event)
      → b.events ≡ a.events ++ es
      → sources es ≡ []
      → b.client.publish_queue ≡ a.client.publish_queue
      → b.publishables ≡ a.publishables
      → Flow [] a b
  Flow_quiet {a} {b} es e n q p = record {
    raised = es;
    events_lem = e;
    flow_lem =
        append-nil (publishers a.client.publish_queue)
        ∙ ap (λ (l : List PublishRequest). publishers l) (sym q)
        ∙ ap (λ (l : List Source). l ++ publishers b.client.publish_queue) (sym n);
    kept_lem = λ s. inl (ap (λ (f : Source → _). f s) p);
  }

  -- What calls without events leave as it is.
  abbrev pub SameQueue : Context S → Context S → Type 0
  SameQueue a b =
      (b.events ≡ a.events)
      × (b.client.publish_queue ≡ a.client.publish_queue)
      × (b.publishables ≡ a.publishables)

  pub Flow_silent : {a b : Context S} → SameQueue a b → Flow [] a b
  Flow_silent {a} (e, q, p) = Flow_quiet [] (e ∙ sym (append-nil a.events)) refl q p

  pub Flow_raise : (e : Event) (a : Context S) → sources (e ∷ []) ≡ [] → Flow [] a (raise e a)
  Flow_raise e a n = Flow_quiet (e ∷ []) refl n refl refl

  pub Flow_refl : (a : Context S) → Flow [] a a
  Flow_refl a = Flow_quiet [] (sym (append-nil a.events)) refl refl refl

  pub Accounts-Flow : {a b : Context S} → Accounts a b → Flow [] a b
  Accounts-Flow {a} {b} p = record {
    raised = reports p.dropped;
    events_lem = p.events_lem;
    flow_lem =
        append-nil (publishers a.client.publish_queue)
        ∙ sym (publishers-labels a.client.publish_queue)
        ∙ ap (λ (l : List PublishRequest). publishers l) p.queue_lem
        ∙ publishers-append (labels p.dropped) (labels b.client.publish_queue)
        ∙ ap (λ (l : List Source). l ++ publishers (labels b.client.publish_queue))
            (publishers-labels p.dropped ∙ sym (sources-reports p.dropped))
        ∙ ap (◌++◌ (sources (reports p.dropped))) (publishers-labels b.client.publish_queue);
    kept_lem = p.kept_lem;
  }

  -- The request at the end of the queue.
  pub enqueue-Flow :
      (r : PublishRequest) (c : Context S)
      → Flow (r.publisher ∷ []) c (set_queue (c.client.publish_queue ++ r ∷ []) c)
  enqueue-Flow r c = record {
    raised = [];
    events_lem = sym (append-nil c.events);
    flow_lem = sym (publishers-append c.client.publish_queue (r ∷ []));
    kept_lem = λ s. inl refl;
  }

  -- The front leaves as delivered.
  pub delivered-Flow :
      (r : PublishRequest) (c : Context S) (q : List PublishRequest)
      → c.client.publish_queue ≡ r ∷ q
      → Flow [] c (delivered r (set_queue q c))
  unfolding delivered
  delivered-Flow r c q e = record {
    raised = client_delivered r.publisher ∷ [];
    events_lem = refl;
    flow_lem =
        append-nil (publishers c.client.publish_queue)
        ∙ ap (λ (l : List PublishRequest). publishers l) e;
    kept_lem = λ s. inl refl;
  }

  -- The context that a call returns, named by an equation.
  pub Flow_of :
      {rs : List Source} {a b c : Context S} {o : Option (Context S)}
      → o ≡ some c
      → o ≡ some b
      → Flow rs a b
      → Flow rs a c
  Flow_of {rs} {a} {b} {c} e s p = subst (λ x. Flow rs a x) (cc (e, s)) p

  pub Flow_pair :
      {A : Type 0} {rs : List Source} {a : Context S} {x y : Context S × A}
      {o : Option (Context S × A)}
      → o ≡ some x
      → o ≡ some y
      → Flow rs a y.0
      → Flow rs a x.0
  Flow_pair {A} {rs} {a} {x} {y} e s p =
      let same : y ≡ x = ground (arith, e, s) in subst (λ (z : Context S × A). Flow rs a z.0) same p
