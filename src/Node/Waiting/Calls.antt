-- ===== src/Node/Waiting/Calls.antt =====
-- src/Node.cpp: the calls of clients from a node that waits.
use cpp_sparkplug.Prelude.{
  ℕ, zero, suc, Bytes, Option, none, some, List, [], ◌∷◌, ◌≡◌, refl, ap, subst, ◌∙◌, arith,
}
use cpp_sparkplug.Clients.{Client, Context}
use cpp_sparkplug.Node.World.{
  World, get_client, set_client, with_client, always, no_result, context, leave,
}
use cpp_sparkplug.Node.Ledger.{untagged, untagged-tagged}
use cpp_sparkplug.Node.Only.{Only}
use cpp_sparkplug.Node.Waiting.{silent, IsIdle, IsUnheard, AreIdle, IsWaiting}
use cpp_sparkplug.Node.Waiting.Clients.{silent-append}

get-AreIdle :
    {S : Type 0} (i : ℕ) (k : Client × S) (ks : List (Client × S))
    → AreIdle ks
    → get_client i ks ≡ some k
    → IsIdle k.0
get-AreIdle i k [] h e = absurd cc e
get-AreIdle zero k (x ∷ ks) (h, hs) e =
    let one : x ≡ k = ground (arith, e) in subst (λ (y : Client × _). IsIdle y.0) one h
get-AreIdle (suc i) k (x ∷ ks) (h, hs) e = get-AreIdle i k ks hs e

set-AreIdle :
    {S : Type 0} (i : ℕ) (k : Client × S) (ks : List (Client × S))
    → AreIdle ks
    → IsIdle k.0
    → AreIdle (set_client i k ks)
set-AreIdle i k [] h p = tt
set-AreIdle zero k (x ∷ ks) (h, hs) p = (p, hs)
set-AreIdle (suc i) k (x ∷ ks) (h, hs) p = (h, set-AreIdle i k ks hs p)

module _ {S P : Type 0} (host : Bytes) where
  leave-IsWaiting :
      (i : ℕ) (c : Context S) (w : World S P)
      → IsUnheard host c
      → IsWaiting host w
      → IsWaiting host (leave i c w)
  leave-IsWaiting i c w u h = record {
    mode_lem = h.mode_lem;
    host_lem = h.host_lem;
    active_lem = h.active_lem;
    queue_lem =
        ap (silent host) (untagged-tagged i w.node.event_queue c.events)
        ∙ silent-append host (untagged w.node.event_queue) c.events h.queue_lem u.1;
    clients_lem = set-AreIdle i (c.client, c.library) w.clients h.clients_lem u.0;
  }

  pub Only-client :
      {A : Type 0} (i : ℕ) (f : Context S → Option (Context S × A))
      → ((c : Context S) (x : Context S × A) → f c ≡ some x → IsUnheard host c → IsUnheard host x.0)
      → (w : World S P) → IsWaiting host w
      → Only (λ (y : World S P × A). IsWaiting host y.0) (with_client i f w)
  unfolding with_client
  Only-client i f keeps w h y e = found (get_client i w.clients) refl e
    where
      left :
          (o : Option (Context S × _)) (k : Client × S)
          → get_client i w.clients ≡ some k
          → f (context w k) ≡ o
          → (elim o [ none ↦ none | some (c, a) ↦ some (leave i c w, a) ]) ≡ some y
          → IsWaiting host y.0
      left none k g s r = absurd cc r
      left (some x) k g s r =
          let u = keeps (context w k) x s (get-AreIdle i k w.clients h.clients_lem g, refl) in
          let one : leave i x.0 w ≡ y.0 = ground (arith, r) in
          subst (IsWaiting host) one (leave-IsWaiting i x.0 w u h)

      found :
          (o : Option (Client × S))
          → get_client i w.clients ≡ o
          → (elim o [
            | none ↦ none
            | some k ↦ elim (f (context w k)) [ none ↦ none | some (c, a) ↦ some (leave i c w, a) ]
          ])
            ≡ some y
          → IsWaiting host y.0
      found none g r = absurd cc r
      found (some k) g r = left (f (context w k)) k g refl r

module _ {S : Type 0} (host : Bytes) where
  pub no_result-Unheard :
      (f : Context S → Option (Context S))
      → ((c c' : Context S) → f c ≡ some c' → IsUnheard host c → IsUnheard host c')
      → (c : Context S) (x : Context S × Unit {0}) → no_result f c ≡ some x
      → IsUnheard host c
      → IsUnheard host x.0
  no_result-Unheard f keeps c x e h = given (f c) refl e
    where
      given :
          (o : Option (Context S))
          → f c ≡ o
          → (elim o as (λ y. Option (Context S × Unit {0})) [
            | none ↦ none
            | some c' ↦ some (c', tt)
          ])
            ≡ some x
          → IsUnheard host x.0
      given none s r = absurd cc r
      given (some c') s r =
          let one : c' ≡ x.0 = ground (arith, r) in subst (IsUnheard host) one (keeps c c' s h)

  pub always-Unheard :
      {A : Type 0} (f : Context S → Context S × A)
      → ((c : Context S) → IsUnheard host c → IsUnheard host (f c).0)
      → (c : Context S) (x : Context S × A) → always f c ≡ some x
      → IsUnheard host c
      → IsUnheard host x.0
  always-Unheard f keeps c x e h =
      let one : f c ≡ x = ground (arith, e) in
      subst (λ (y : Context S × _). IsUnheard host y.0) one (keeps c h)
