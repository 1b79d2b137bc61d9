-- ===== src/Node/Total/Rounds.antt =====
-- src/Node.cpp, begin: the loop of an enabled node goes on, round after round.
use cpp_sparkplug.Prelude.{ℕ, Bytes, true, some, ◌≡◌, refl, sym, ◌∙◌, arith, subst, if◌then◌else◌}
use cpp_sparkplug.Prelude.Int.{ℤ}
use cpp_sparkplug.Tahu.{Tahu}
use cpp_sparkplug.Clients.State.{ClientState, ClientOptions, same_state}
use cpp_sparkplug.Clients.{Context, execute, connect, disconnect, set_state, set_primary}
use cpp_sparkplug.Clients.PahoAsync
use cpp_sparkplug.Node.World.{World}
use cpp_sparkplug.Node.Drivers.{async_driver}
use cpp_sparkplug.Node.Answers.{Answers, IsQuiet}
use cpp_sparkplug.Node.Total.{EventsName}
use cpp_sparkplug.Node.Total.Eventually.{Eventually}
use cpp_sparkplug.Node.Total.Executing.{Executes}

connect-events :
    {S : Type 0} (f : Context S → Context S × ℤ)
    → ((c : Context S) → (f c).0.events ≡ c.events)
    → (c : Context S) → (connect f c).0.events ≡ c.events
unfolding connect set_state set_primary
connect-events f h c = ground (arith, h c)

-- A client whose connection and sync raise no event.
execute-events :
    (t : Tahu) {S : Type 0} (f : Context S → Context S × ℤ)
    → ((c : Context S) → (f c).0.events ≡ c.events)
    → (sync : Context S → Context S) → ((c : Context S) → (sync c).events ≡ c.events)
    → (c : Context S) → EventsName t c.events
    → (c' : Context S) × (execute f (λ d. some (sync d)) c ≡ some c') × EventsName t c'.events
unfolding execute
execute-events t f h sync s c e =
    let start = if same_state c.client.state ClientState.disconnected then (connect f c).0 else c in
    let same : start.events ≡ c.events = ground (arith, connect-events f h c) in
    (sync start, refl, subst (EventsName t) (sym (s start ∙ same)) e)

module _ (t : Tahu) (int64_bytes : ℕ → Bytes) {S : Type 0} (options : ClientOptions)
    (fuel : ℕ) where
  disconnect-IsQuiet :
      (f : Context S → Context S × ℤ)
      → ((c : Context S) → (f c).0.events ≡ c.events)
      → (c : Context S) → IsQuiet c (disconnect f c).0
  unfolding disconnect
  disconnect-IsQuiet f h c = ground (arith, h c)

  pub async_driver-Executes :
      (lib : PahoAsync.PahoLibrary S) → Executes t (async_driver t int64_bytes options fuel lib)
  unfolding PahoAsync.client_connect PahoAsync.client_disconnect set_state set_primary
  async_driver-Executes lib = record {
    execute_lem = execute-events t _ (λ c. ground arith) (λ c. c) (λ c. refl);
    disconnect_lem = disconnect-IsQuiet _ (λ c. ground arith);
  }

-- The world in which the loop of `begin` starts.
abbrev pub begun : {S P : Type 0} → World S P → World S P
begun w = record w { node = record (w.node) { running = true } }
