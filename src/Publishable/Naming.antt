-- ===== src/Publishable/Naming.antt =====
-- src/Publishable.cpp, handleCommand: a command whose metrics have names.
use cpp_sparkplug.Prelude.{
  sym, subst, All, Bytes, Option, none, some, List, [], ◌∷◌, ◌++◌, reverse, ◌≡◌, refl, arith,
}
use mathlib.Core.List.{reverse-cons}
use cpp_sparkplug.Tahu.{Tahu}
use cpp_sparkplug.Metric.{Metric, Call, on_command}
use cpp_sparkplug.Publishable.{Publishable, find_metric, command, commands, handle_command}

-- A received metric with a name, and not only an alias.
abbrev pub IsNamed : (t : Tahu) → t.PayloadMetric → Type 0
IsNamed t c = (n : Bytes) × (t.metric_name c ≡ some n)

pub All-append {ℓ κ} :
    {A : Type ℓ} (P : A → Type κ) (xs ys : List A) → All P xs → All P ys → All P (xs ++ ys)
All-append P [] ys h k = k
All-append P (x ∷ xs) ys (h, hs) k = (h, All-append P xs ys hs k)

pub All-reverse {ℓ κ} : {A : Type ℓ} (P : A → Type κ) (xs : List A) → All P xs → All P (reverse xs)
All-reverse P [] h = h
All-reverse P (x ∷ xs) (h, hs) =
    subst (All P) (sym (reverse-cons x xs))
      (All-append P (reverse xs) (x ∷ []) (All-reverse P xs hs) (h, tt))

module _ (t : Tahu) where
  open t use {PayloadMetric}

  found_lem :
      (o : Option Metric) (c : PayloadMetric)
      → (calls : List (Call PayloadMetric)) × ((elim o [
        | none ↦ some []
        | some found ↦ some (on_command found c)
      ])
          ≡ some calls)
  found_lem none c = ([], refl)
  found_lem (some m) c = (on_command m c, refl)

  command-named :
      (ms : List Metric) (c : PayloadMetric)
      → IsNamed t c
      → (calls : List (Call PayloadMetric)) × (command t ms c ≡ some calls)
  unfolding command
  command-named [] c h = ([], refl)
  command-named (m ∷ ms) c (n, e) =
      let (calls, s) = found_lem (find_metric n (m ∷ ms)) c in (calls, ground (arith, e, s))

  commands-named :
      (ms : List Metric) (cs : List PayloadMetric)
      → All (IsNamed t) cs
      → (calls : List (Call PayloadMetric)) × (commands t ms cs ≡ some calls)
  unfolding commands
  commands-named ms [] h = ([], refl)
  commands-named ms (c ∷ cs) (h, hs) =
      let (now, e) = command-named ms c h in
      let (later, s) = commands-named ms cs hs in (now ++ later, ground (arith, e, s))

  decoded_lem :
      (o : Option (List PayloadMetric)) (ms : List Metric)
      → ((cs : List PayloadMetric) → o ≡ some cs → All (IsNamed t) cs)
      → (calls : List (Call PayloadMetric)) × ((elim o [
        | none ↦ some []
        | some cs ↦ commands t ms (reverse cs)
      ])
          ≡ some calls)
  decoded_lem none ms h = ([], refl)
  decoded_lem (some cs) ms h =
      commands-named ms (reverse cs) (All-reverse (IsNamed t) cs (h cs refl))

  -- A command each of whose metrics has a name makes its calls, and no fault.
  pub handle_command-named :
      (payload : Bytes) (p : Publishable)
      → ((cs : List PayloadMetric) → t.decode_payload payload ≡ some cs → All (IsNamed t) cs)
      → (calls : List (Call PayloadMetric)) × (handle_command t payload p ≡ some calls)
  unfolding handle_command
  handle_command-named payload p h = decoded_lem (t.decode_payload payload) p.metrics h
