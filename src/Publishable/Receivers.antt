-- ===== src/Publishable/Receivers.antt =====
-- src/Publishable.cpp, handleCommand: which handlers and callbacks a command reaches.
use cpp_sparkplug.Prelude.{
  ℕ, sym, subst, Bytes, Bool, true, false, same, same_refl, same→eq, All, Option, none, some, List,
  [], ◌∷◌, ◌++◌, reverse, ◌≡◌, ◌≢◌, refl, ap, ◌∙◌, arith, Bool-cases, inl, inr,
}
use cpp_sparkplug.Tahu.{Tahu}
use cpp_sparkplug.Metric.{
  Metric, Callback, rebirth, user, Call, to_handler, to_callback, on_command,
}
use cpp_sparkplug.Publishable.{Publishable, find_metric, command, commands, handle_command}
use cpp_sparkplug.Publishable.Naming.{All-append, IsNamed, All-reverse}

-- What a name finds: the first metric of that name, if there is one.
pub data Finds (name : Bytes) (ms : List Metric) : Option Metric → Type 0 where
  first_found :
      (before after : List Metric) (m : Metric)
      → ms ≡ before ++ m ∷ after
      → m.name ≡ name
      → All (λ (k : Metric). k.name ≢ name) before
      → Finds name ms (some m)
  missing : All (λ (k : Metric). k.name ≢ name) ms → Finds name ms none

Finds-cons :
    (name : Bytes) (m : Metric) (ms : List Metric) (o : Option Metric)
    → m.name ≢ name
    → Finds name ms o
    → Finds name (m ∷ ms) o
Finds-cons name m ms _ other (first_found before after k e is others) =
    first_found (m ∷ before) after k (ap (◌∷◌ m) e) is (other, others)
Finds-cons name m ms _ other (missing others) = missing (other, others)

pub differ : (a b : Bytes) → same a b ≡ false → a ≢ b
differ a b other e = let is : same a b ≡ true = ap (same a) (sym e) ∙ same_refl a in cc (is, other)

find_metric-Finds : (name : Bytes) (ms : List Metric) → Finds name ms (find_metric name ms)
unfolding find_metric
find_metric-Finds name [] = missing tt
find_metric-Finds name (m ∷ ms) = elim (Bool-cases (same m.name name)) [
  | inl is ↦ rw is (first_found [] ms m refl (same→eq m.name name is) tt)
  | inr other ↦ rw other (
      Finds-cons name m ms (find_metric name ms) (differ m.name name other)
        (find_metric-Finds name ms))
]

-- The calls of a handler, and then of a callback, with the received metric.
abbrev pub calls_of : {P : Type 0} → Option ℕ → Option Callback → P → List (Call P)
calls_of none none c = []
calls_of none (some f) c = to_callback f c ∷ []
calls_of (some h) none c = to_handler h c ∷ []
calls_of (some h) (some f) c = to_handler h c ∷ to_callback f c ∷ []

abbrev pub receivers : {P : Type 0} → Option Metric → P → List (Call P)
receivers none c = []
receivers (some m) c = calls_of m.handler m.callback c

on_command_lem : {P : Type 0} (m : Metric) (c : P) → on_command m c ≡ receivers (some m) c
unfolding on_command
on_command_lem m c = ground arith

-- Calls to the application, and not of the rebirth callback.
abbrev pub is_application : {P : Type 0} → Call P → Bool
is_application (to_handler h p) = true
is_application (to_callback (user f) p) = true
is_application (to_callback rebirth p) = false

-- A metric that only has receivers of the application.
abbrev pub IsUsers : Metric → Type 0
IsUsers m = m.callback ≢ some rebirth

module _ (t : Tahu) where
  open t use {PayloadMetric, decode_payload, metric_name}

  -- The calls that received metrics make, one after the other: for each the receivers of the first
  -- metric of its name.
  pub data Receives (ms : List Metric)
      : List PayloadMetric → List (Call PayloadMetric) → Type 0 where
    nothing : Receives ms [] []
    next :
        (c : PayloadMetric) (cs : List PayloadMetric) (name : Bytes) (o : Option Metric)
        (later : List (Call PayloadMetric))
        → metric_name c ≡ some name
        → Finds name ms o
        → Receives ms cs later
        → Receives ms (c ∷ cs) (receivers o c ++ later)

  called :
      (o : Option Metric) (c : PayloadMetric)
      → (elim o [ none ↦ some [] | some m ↦ some (on_command m c) ]) ≡ some (receivers o c)
  called none c = refl
  called (some m) c = ap some (on_command_lem m c)

  command_named :
      (ms : List Metric) (c : PayloadMetric) (name : Bytes)
      → metric_name c ≡ some name
      → command t ms c ≡ some (receivers (find_metric name ms) c)
  unfolding command find_metric
  command_named [] c name e = refl
  command_named (m ∷ ms) c name e = rw (command, e) (called (find_metric name (m ∷ ms)) c)

  commands-Receives :
      (ms : List Metric) (cs : List PayloadMetric)
      → All (IsNamed t) cs
      → (calls : List (Call PayloadMetric)) × (commands t ms cs ≡ some calls) × Receives ms cs calls
  unfolding commands
  commands-Receives ms [] h = ([], refl, nothing)
  commands-Receives ms (c ∷ cs) ((name, e), hs) =
      let (later, s, r) = commands-Receives ms cs hs in
      let now = command_named ms c name e in
      (
        receivers (find_metric name ms) c ++ later,
        ground (arith, now, s),
        next c cs name (find_metric name ms) later e (find_metric-Finds name ms) r,
      )

  -- A command whose metrics all have names returns, and calls, from its last metric to its first, the
  -- handler and then the callback of the first metric of the same name; an unknown name calls nothing.
  pub handle_command-Receives :
      (payload : Bytes) (p : Publishable) (cs : List PayloadMetric)
      → decode_payload payload ≡ some cs
      → All (IsNamed t) cs
      → (calls : List (Call PayloadMetric)) × (handle_command t payload p ≡ some calls)
        × Receives p.metrics (reverse cs) calls
  unfolding handle_command
  handle_command-Receives payload p cs e h =
      let (calls, s, r) = commands-Receives p.metrics (reverse cs) (All-reverse (IsNamed t) cs h) in
      (calls, ground (arith, e, s), r)

  calls_users :
      (h : Option ℕ) (f : Option Callback) (c : t.PayloadMetric)
      → f ≢ some rebirth
      → All (λ x. is_application x ≡ true) (calls_of h f c)
  calls_users none none c u = tt
  calls_users none (some rebirth) c u = absurd (u refl)
  calls_users none (some (user k)) c u = (refl, tt)
  calls_users (some h) none c u = (refl, tt)
  calls_users (some h) (some rebirth) c u = absurd (u refl)
  calls_users (some h) (some (user k)) c u = (refl, (refl, tt))

  receivers_users :
      (m : Metric) (c : t.PayloadMetric)
      → IsUsers m
      → All (λ x. is_application x ≡ true) (receivers (some m) c)
  receivers_users m c h = calls_users m.handler m.callback c h

  member :
      (P : Metric → Type 0) (before after : List Metric) (m : Metric)
      → All P (before ++ m ∷ after)
      → P m
  member P [] after m h = h.0
  member P (k ∷ before) after m h = member P before after m h.1

  found_users :
      (ms : List Metric) (name : Bytes) (o : Option Metric) (c : t.PayloadMetric)
      → All IsUsers ms
      → Finds name ms o
      → All (λ x. is_application x ≡ true) (receivers o c)
  found_users ms name _ c h (first_found before after m e is others) =
      receivers_users m c (member IsUsers before after m (subst (All IsUsers) e h))
  found_users ms name _ c h (missing others) = tt

  pub Receives-users :
      (ms : List Metric) (cs : List t.PayloadMetric) (calls : List (Call t.PayloadMetric))
      → All IsUsers ms
      → Receives ms cs calls
      → All (λ x. is_application x ≡ true) calls
  Receives-users ms _ _ h nothing = tt
  Receives-users ms _ _ h (next c cs name o later e f r) =
      All-append (λ x. is_application x ≡ true) (receivers o c) later (found_users ms name o c h f)
        (Receives-users ms cs later h r)
