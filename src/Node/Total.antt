-- ===== src/Node/Total.antt =====
-- src/Node.cpp: a node whose methods return, and do not fault; the events that it has before it.
pub mod Calls
pub mod Publishing
pub mod Messages
pub mod Events
pub mod Eventually
pub mod Executing
pub mod Stopping
pub mod Rounds
pub mod Calm
pub mod Idle
use cpp_sparkplug.Prelude.{
  All, ℕ, zero, suc, ◌+◌, ◌<◌, Bytes, Bool, true, false, Option, none, some, List, [], ◌∷◌, ◌++◌,
  length, ◌≡◌, refl, ap, sym, subst, ◌∙◌, arith, if◌then◌else◌, inl, inr,
}
use cpp_sparkplug.Tahu.{Tahu}
use cpp_sparkplug.Publishable.Naming.{IsNamed}
use cpp_sparkplug.Publishable.{Publishable}
use cpp_sparkplug.Clients.State.{
  Source, device, Event, client_message, client_connected, client_disconnected, client_active,
  client_deactive, client_delivered, client_undelivered,
}
use cpp_sparkplug.Clients.{Client, Context}
use cpp_sparkplug.Clients.Accounts.{Kept}
use cpp_sparkplug.Node.World.{World, M, get_client, set_client, with_client, context, leave, tagged}
use cpp_sparkplug.Node.Answers.{prompts, switches, IsQuiet}
use cpp_sparkplug.Node.Ledger.{untagged}

-- A computation that returns, and what holds of its result.
abbrev pub Sure : {S P A : Type 0} → (World S P × A → Type 0) → Option (World S P × A) → Type 0
Sure {S} {P} {A} Q o = (x : World S P × A) × (o ≡ some x) × Q x

module _ {S P : Type 0} where
  pub Sure-some :
      {A : Type 0} {Q : World S P × A → Type 0} (x : World S P × A) → Q x → Sure Q (some x)
  Sure-some x h = (x, refl, h)

  pub Sure-then :
      {A B : Type 0} {Q : World S P × A → Type 0} {R : World S P × B → Type 0}
      {o : Option (World S P × A)} {g : World S P × A → Option (World S P × B)}
      → Sure Q o
      → ((x : World S P × A) → Q x → Sure R (g x))
      → Sure R (elim o [ none ↦ none | some x ↦ g x ])
  Sure-then {A} {B} {Q} {R} {o} {g} (x, e, q) k =
      let (y, s, r) = k x q in (y, ground (arith, e, s), r)

  pub Sure-if :
      {A : Type 0} {Q : World S P × A → Type 0} (b : Bool) (m n : M S P A) (w : World S P)
      → (b ≡ true → Sure Q (m w))
      → (b ≡ false → Sure Q (n w))
      → Sure Q ((if b then m else n) w)
  Sure-if true m n w p q = p refl
  Sure-if false m n w p q = q refl

  pub Sure-elim :
      {A B : Type 0} {Q : World S P × A → Type 0} (o : Option B) (m : M S P A) (f : B → M S P A)
      (w : World S P)
      → (o ≡ none → Sure Q (m w))
      → ((b : B) → o ≡ some b → Sure Q (f b w))
      → Sure Q ((elim o as (λ x. M S P A) [ none ↦ m | some b ↦ f b ]) w)
  Sure-elim none m f w p q = p refl
  Sure-elim (some b) m f w p q = q b refl

-- What the calls of a node leave as it is: how many clients it has, the names of the publishables, its
-- devices, and whether it is enabled and runs.
pub record Setting : Type 0 where
  pub clients : ℕ
  pub names : Source → Option Bytes
  pub devices : List ℕ
  pub enabled : Bool
  pub running : Bool

-- Each device has a name.
abbrev pub HaveNames : (Source → Option Bytes) → List ℕ → Type 0
HaveNames names [] = Unit {0}
HaveNames names (d ∷ ds) = ((n : Bytes) × (names (device d) ≡ some n)) × HaveNames names ds

-- An active client, if there is one, is one of n.
abbrev pub IsOne : ℕ → Option ℕ → Type 0
IsOne n none = Unit {0}
IsOne n (some i) = i < n

-- A payload that names each of its metrics, or does not decode.
abbrev pub Names : Tahu → Bytes → Type 0
Names t payload =
    (cs : List t.PayloadMetric) → t.decode_payload payload ≡ some cs → All (IsNamed t) cs

-- Each event is from one of n clients, and each payload names its metrics.
abbrev pub AreServed : Tahu → ℕ → List (ℕ × Event) → Type 0
AreServed t n [] = Unit {0}
AreServed t n ((i, client_message topic payload) ∷ q) = (i < n) × Names t payload × AreServed t n q
AreServed t n ((i, client_connected) ∷ q) = (i < n) × AreServed t n q
AreServed t n ((i, client_disconnected) ∷ q) = (i < n) × AreServed t n q
AreServed t n ((i, client_active) ∷ q) = (i < n) × AreServed t n q
AreServed t n ((i, client_deactive) ∷ q) = (i < n) × AreServed t n q
AreServed t n ((i, client_delivered s) ∷ q) = (i < n) × AreServed t n q
AreServed t n ((i, client_undelivered s) ∷ q) = (i < n) × AreServed t n q

-- A node with a setting, whose active client is `a`, and with k prompts and l switches among the events
-- before it.
pub record Served (t : Tahu) {S P : Type 0} (g : Setting) (a : Option ℕ) (k l : ℕ) (w : World S P)
    : Type 0 where
  pub count_lem : length w.clients ≡ g.clients
  pub active_lem : w.node.active_client ≡ a
  pub queue_lem : AreServed t g.clients w.node.event_queue
  pub names_lem : (s : Source) → (w.publishables s).name ≡ g.names s
  pub devices_lem : w.node.devices ≡ g.devices
  pub enabled_lem : w.node.enabled ≡ g.enabled
  pub running_lem : w.node.running ≡ g.running
  pub prompts_lem : prompts (untagged w.node.event_queue) ≡ k
  pub switches_lem : switches (untagged w.node.event_queue) ≡ l

-- A node of a setting, whose active client is one of its own.
abbrev pub Keeps : Tahu → {S P : Type 0} → Setting → World S P → Type 0
Keeps t g w = (a : Option ℕ) × IsOne g.clients a × (k : ℕ) × (l : ℕ) × Served t g a k l w

pub Kept-name : {p q : Publishable} → Kept p q → q.name ≡ p.name
Kept-name (inl e) = ap (λ (x : Publishable). x.name) e
Kept-name (inr e) = ap (λ (x : Publishable). x.name) e

pub get_client-some :
    {S : Type 0} (i : ℕ) (ks : List (Client × S))
    → i < length ks
    → (k : Client × S) × (get_client i ks ≡ some k)
get_client-some i [] lt = absurd (omega (arith, lt))
get_client-some zero (k ∷ ks) lt = (k, refl)
get_client-some (suc i) (k ∷ ks) lt = get_client-some i ks (omega (arith, lt))

pub length-set_client :
    {S : Type 0} (i : ℕ) (k : Client × S) (ks : List (Client × S))
    → length (set_client i k ks) ≡ length ks
length-set_client i k [] = refl
length-set_client zero k (x ∷ ks) = refl
length-set_client (suc i) k (x ∷ ks) = omega (arith, length-set_client i k ks)

-- The payloads of events name their metrics.
abbrev pub EventsName : Tahu → List Event → Type 0
EventsName t [] = Unit {0}
EventsName t (client_message topic payload ∷ es) = Names t payload × EventsName t es
EventsName t (client_connected ∷ es) = EventsName t es
EventsName t (client_disconnected ∷ es) = EventsName t es
EventsName t (client_active ∷ es) = EventsName t es
EventsName t (client_deactive ∷ es) = EventsName t es
EventsName t (client_delivered s ∷ es) = EventsName t es
EventsName t (client_undelivered s ∷ es) = EventsName t es
