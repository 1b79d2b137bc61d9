-- ===== src/Metric/Commands.antt =====
-- src/metrics/Metric.cpp: the receivers of commands, and the property that says a metric is writable.
use cpp_sparkplug.Prelude.{
  ℕ, true, false, List, [], ◌∷◌, ◌≡◌, refl, ap₂, ◌∙◌, Option, none, some, arith,
}
use cpp_sparkplug.Property.{push_back}
use cpp_sparkplug.Metric.{
  Metric, Callback, Call, to_handler, to_callback, set_command_handler, set_command_callback,
  on_command, writable,
}

pub data Registration : Type 0 where
  as_handler : ℕ → Registration
  as_callback : Callback → Registration

unfoldable pub register : ℕ → Registration → Metric → Metric
unfolding set_command_handler set_command_callback
register unset (as_handler h) m = set_command_handler unset h m
register unset (as_callback f) m = set_command_callback unset f m

unfoldable pub register_all : ℕ → List Registration → Metric → Metric
register_all unset [] m = m
register_all unset (r ∷ rs) m = register_all unset rs (register unset r m)

register_read_only :
    (unset : ℕ) (r : Registration) (m : Metric)
    → m.is_read_only ≡ true
    → ((register unset r m).is_read_only ≡ false)
      × ((register unset r m).properties ≡ push_back m.properties (writable unset))
unfolding register
register_read_only unset (as_handler h) m e = ground arith
register_read_only unset (as_callback f) m e = ground arith

register_writable :
    (unset : ℕ) (r : Registration) (m : Metric)
    → m.is_read_only ≡ false
    → ((register unset r m).is_read_only ≡ false) × ((register unset r m).properties ≡ m.properties)
unfolding register
register_writable unset (as_handler h) m e = ground arith
register_writable unset (as_callback f) m e = ground arith

register_all_writable :
    (unset : ℕ) (rs : List Registration) (m : Metric)
    → m.is_read_only ≡ false
    → (register_all unset rs m).properties ≡ m.properties
unfolding register_all
register_all_writable unset [] m e = refl
register_all_writable unset (r ∷ rs) m e =
    let (w, p) = register_writable unset r m e in
    register_all_writable unset rs (register unset r m) w ∙ p

-- However many handlers and callbacks a read-only metric is given, it gets the property "writable"
-- once, behind the properties that it has.
register_all-properties :
    (unset : ℕ) (r : Registration) (rs : List Registration) (m : Metric)
    → m.is_read_only ≡ true
    → (register_all unset (r ∷ rs) m).properties ≡ push_back m.properties (writable unset)
unfolding register_all
register_all-properties unset r rs m e =
    let (w, p) = register_read_only unset r m e in
    register_all_writable unset rs (register unset r m) w ∙ p

-- The receivers after the registrations: the last handler, and the last callback.
abbrev pub last_handler : List Registration → Option ℕ → Option ℕ
last_handler [] h = h
last_handler (as_handler h' ∷ rs) h = last_handler rs (some h')
last_handler (as_callback f ∷ rs) h = last_handler rs h

abbrev pub last_callback : List Registration → Option Callback → Option Callback
last_callback [] f = f
last_callback (as_handler h ∷ rs) f = last_callback rs f
last_callback (as_callback f' ∷ rs) f = last_callback rs (some f')

abbrev pub calls : {P : Type 0} → Option ℕ → Option Callback → P → List (Call P)
calls none none p = []
calls (some h) none p = to_handler h p ∷ []
calls none (some f) p = to_callback f p ∷ []
calls (some h) (some f) p = to_handler h p ∷ to_callback f p ∷ []

receivers :
    (unset : ℕ) (rs : List Registration) (m : Metric)
    → ((register_all unset rs m).handler ≡ last_handler rs m.handler)
      × ((register_all unset rs m).callback ≡ last_callback rs m.callback)
unfolding register_all register
receivers unset [] m = (refl, refl)
receivers unset (as_handler h ∷ rs) m =
    ground (arith, receivers unset rs (set_command_handler unset h m))
receivers unset (as_callback f ∷ rs) m =
    ground (arith, receivers unset rs (set_command_callback unset f m))

calls-on_command : {P : Type 0} (m : Metric) (p : P) → on_command m p ≡ calls m.handler m.callback p
unfolding on_command
calls-on_command m p = ground arith

-- A command calls the handler registered last and then the callback registered last, each once.
on_command-register_all :
    {P : Type 0} (unset : ℕ) (rs : List Registration) (m : Metric) (p : P)
    → on_command (register_all unset rs m) p
      ≡ calls (last_handler rs m.handler) (last_callback rs m.callback) p
on_command-register_all unset rs m p =
    let (h, f) = receivers unset rs m in
    calls-on_command (register_all unset rs m) p ∙ ap₂ (λ a b. calls a b p) h f
