-- ===== src/Node/Sound.antt =====
-- src/Node.cpp: what holds between the calls of a node, and what of it a call may break for some
-- publishables meanwhile.
pub mod Publishing
pub mod Messages
pub mod Events
pub mod Enabling
use cpp_sparkplug.Prelude.{
  ℕ, ◌+◌, ◌<◌, ◌≤◌, Bool, true, false, Option, none, some, List, [], ◌∷◌, ◌≡◌, refl, ap, sym, subst,
  ◌∙◌, arith, inl, inr, if◌then◌else◌, then_some, Bool-cases,
}
use cpp_sparkplug.Publishable.{Publishable}
use cpp_sparkplug.Publishable.State.{PublishableState}
use cpp_sparkplug.Publishable.Timer.{IsTimed}
use cpp_sparkplug.Clients.State.{Source, same_source, same_source→eq}
use cpp_sparkplug.Clients.{Client, Context, put}
use cpp_sparkplug.Clients.Accounts.{Kept}
use cpp_sparkplug.Clients.Flow.{sources, Flow}
use cpp_sparkplug.Node.World.{Node, World, M, get_client, with_client, context, leave}
use cpp_sparkplug.Node.Only.{Only, Only-some, Only-none, Only-then, Only-if, Only-elim}
use cpp_sparkplug.Node.Ledger.{count, untagged, outstanding, outstanding-leave}

-- A publishable that is PUBLISHING waits for an outcome that the node has yet to see, or is one of
-- `owed`; and the timers run.
pub record Sound {S P : Type 0} (on : Bool) (owed : List Source) (w : World S P) : Type 0 where
  pub enabled_lem : w.node.enabled ≡ on
  pub waiting_lem :
      (s : Source)
      → (w.publishables s).state ≡ PublishableState.publishing
      → 1 ≤ outstanding s w + count s owed
  pub timed_lem : (s : Source) → IsTimed (w.publishables s)

-- What a computation leads to, if it has a result.
abbrev pub Leads : {S P A : Type 0} → Bool → List Source → Option (World S P × A) → Type 0
Leads {S} {P} {A} on owed o = Only (λ (x : World S P × A). Sound on owed x.0) o

Kept-state : {p q : Publishable} → Kept p q → q.state ≡ p.state
Kept-state (inl e) = ap (λ (x : Publishable). x.state) e
Kept-state (inr e) = ap (λ (x : Publishable). x.state) e

restarted : (p : Publishable) → IsTimed p → IsTimed (record p { next_publish = p.publish_period })
restarted p t = ground (arith, t)

Kept-IsTimed : {p q : Publishable} → Kept p q → IsTimed p → IsTimed q
Kept-IsTimed (inl e) t = subst IsTimed (sym e) t
Kept-IsTimed {p} (inr e) t = subst IsTimed (sym e) (restarted p t)

module _ {S P : Type 0} {on : Bool} where
  pub Leads-some :
      {A : Type 0} {owed : List Source} (w : World S P) (a : A)
      → Sound on owed w
      → Leads on owed (some (w, a))
  Leads-some {A} {owed} w a h = Only-some (λ (x : World S P × A). Sound on owed x.0) (w, a) h

  pub Leads-none : {A : Type 0} {owed : List Source} → Leads {S = S} {P = P} {A = A} on owed none
  Leads-none {A} {owed} = Only-none (λ (x : World S P × A). Sound on owed x.0)

  pub Leads-then :
      {A B : Type 0} {owed due : List Source} {o : Option (World S P × A)}
      {g : World S P × A → Option (World S P × B)}
      → Leads on owed o
      → ((x : World S P × A) → Sound on owed x.0 → Leads on due (g x))
      → Leads on due (elim o [ none ↦ none | some x ↦ g x ])
  Leads-then h k = Only-then h k

  pub Leads-if :
      {A : Type 0} {owed : List Source} (b : Bool) (m n : M S P A) (w : World S P)
      → Leads on owed (m w)
      → Leads on owed (n w)
      → Leads on owed ((if b then m else n) w)
  Leads-if b m n w p q = Only-if b m n w (λ _. p) (λ _. q)

  pub Leads-elim :
      {A B : Type 0} {owed : List Source} (o : Option B) (m : M S P A) (f : B → M S P A)
      (w : World S P)
      → Leads on owed (m w)
      → ((b : B) → Leads on owed (f b w))
      → Leads on owed ((elim o as (λ x. M S P A) [ none ↦ m | some b ↦ f b ]) w)
  Leads-elim o m f w p q = Only-elim o m f w (λ _. p) (λ b _. q b)

  -- What a client takes in is owed no longer.
  Sound-leave :
      {owed : List Source} (i : ℕ) (k : Client × S) (w : World S P) (c : Context S)
      → get_client i w.clients ≡ some k
      → Flow owed (context w k) c
      → Sound on owed w
      → Sound on [] (leave i c w)
  Sound-leave {owed} i k w c g f h = record {
    enabled_lem = h.enabled_lem;
    waiting_lem = λ s e.
        let before = h.waiting_lem s (sym (Kept-state (f.kept_lem s)) ∙ e) in
        omega (arith, before, outstanding-leave s i k w c g f);
    timed_lem = λ s. Kept-IsTimed (f.kept_lem s) (h.timed_lem s);
  }

  -- A call of a client that takes in the requests owed.
  pub with_client_lem :
      {A : Type 0} {owed : List Source} (i : ℕ) (f : Context S → Option (Context S × A))
      → ((c : Context S) (x : Context S × A) → f c ≡ some x → Flow owed c x.0)
      → (w : World S P) → Sound on owed w
      → Leads on [] (with_client i f w)
  unfolding with_client
  with_client_lem i f flow w h y e =
      let (k, found, rest) =
        then_some (get_client i w.clients)
          (λ k. elim (f (context w k)) [ none ↦ none | some (c, a) ↦ some (leave i c w, a) ]) y e in
      let ((c, a), called, done) =
        then_some (f (context w k)) (λ (x : Context S × _). some (leave i x.0 w, x.1)) y rest in
      Leads-some (leave i c w) a (Sound-leave i k w c found (flow (context w k) (c, a) called) h) y
        done

  -- A change of the node that leaves the queue of its events.
  pub Sound-node :
      {owed : List Source} (w : World S P) (n : Node)
      → n.enabled ≡ w.node.enabled
      → n.event_queue ≡ w.node.event_queue
      → Sound on owed w
      → Sound on owed (record w { node = n })
  Sound-node w n same e h = record {
    enabled_lem = same ∙ h.enabled_lem;
    waiting_lem = λ s b.
        omega
          (arith, h.waiting_lem s b, ap (λ (q : List (ℕ × _)). count s (sources (untagged q))) e);
    timed_lem = h.timed_lem;
  }

  -- A publishable that is not PUBLISHING, or is owed from then on; for the others no less is owed.
  pub Sound-put :
      {due owed : List Source} (w : World S P) (s : Source) (p : Publishable)
      → IsTimed p
      → (p.state ≡ PublishableState.publishing → 1 ≤ outstanding s w + count s owed)
      → ((x : Source) → same_source s x ≡ false → count x due ≤ count x owed)
      → Sound on due w
      → Sound on owed (record w { publishables = put w.publishables s p })
  Sound-put {due} {owed} w s p t waits less h = record {
    enabled_lem = h.enabled_lem;
    waiting_lem = λ x e. elim (Bool-cases (same_source s x)) [
      | inl here ↦
          let same : s ≡ x = same_source→eq s x here in
          subst (λ (y : Source). 1 ≤ outstanding y w + count y owed) same
            (waits (ground (arith, here, e)))
      | inr there ↦
          let before : 1 ≤ outstanding x w + count x due =
            h.waiting_lem x (ground (arith, there, e)) in
          omega (arith, before, less x there)
    ];
    timed_lem = λ x. elim (Bool-cases (same_source s x)) [
      | inl here ↦ rw here t
      | inr there ↦ rw there (h.timed_lem x)
    ];
  }
