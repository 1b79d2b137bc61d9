-- ===== src/Node/Waiting/Clients.antt =====
-- src/clients: the calls and callbacks of a client that is not primary.
use cpp_sparkplug.Prelude.{
  Bytes, Bool, true, false, Option, none, some, List, [], ◌∷◌, ◌++◌, ◌≡◌, refl, subst, arith,
  if◌then◌else◌,
}
use cpp_sparkplug.Prelude.Int.{ℤ}
use cpp_sparkplug.Clients.State.{
  ClientState, same_state, Event, client_message, client_connected, client_disconnected,
  client_active, client_deactive, client_delivered, client_undelivered, ClientTopicOptions,
  PublishRequest,
}
use cpp_sparkplug.Clients.{
  Context, set_primary, set_state, raise, connected, disconnected, activated, configure, deactivate,
  connect, disconnect, execute,
}
use cpp_sparkplug.Clients.Queue.{on_disconnect, dump_queue, dump}
use cpp_sparkplug.Node.Waiting.{silent, IsUnheard}

pub silent-append :
    (host : Bytes) (a b : List Event)
    → silent host a ≡ true
    → silent host b ≡ true
    → silent host (a ++ b) ≡ true
silent-append host [] b h k = k
silent-append host (client_message topic payload ∷ a) b h k =
    ground (arith, h, silent-append host a b)
silent-append host (client_connected ∷ a) b h k = silent-append host a b h k
silent-append host (client_disconnected ∷ a) b h k = silent-append host a b h k
silent-append host (client_active ∷ a) b h k = cc h
silent-append host (client_deactive ∷ a) b h k = silent-append host a b h k
silent-append host (client_delivered s ∷ a) b h k = silent-append host a b h k
silent-append host (client_undelivered s ∷ a) b h k = silent-append host a b h k

module _ {S : Type 0} (host : Bytes) where
  pub set_state-IsUnheard :
      (s : ClientState) (c : Context S) → IsUnheard host c → IsUnheard host (set_state s c)
  unfolding set_state set_primary
  set_state-IsUnheard s c h = ground (arith, h)

  pub raise-IsUnheard :
      (e : Event) (c : Context S)
      → silent host (e ∷ []) ≡ true
      → IsUnheard host c
      → IsUnheard host (raise e c)
  raise-IsUnheard e c k h = (h.0, silent-append host c.events (e ∷ []) h.1 k)

  pub dump-IsUnheard :
      (q : List PublishRequest) (c : Context S)
      → q ≡ []
      → IsUnheard host c
      → IsUnheard host (dump q c)
  unfolding dump
  dump-IsUnheard [] c e h = ((h.0.0, refl), h.1)
  dump-IsUnheard (r ∷ q) c e h = absurd cc e

  pub on_disconnect-IsUnheard :
      (c : Context S) → IsUnheard host c → IsUnheard host (on_disconnect c)
  unfolding on_disconnect disconnected dump_queue
  on_disconnect-IsUnheard c h =
      raise-IsUnheard client_disconnected (set_state ClientState.disconnected (dump_queue c)) refl (
        set_state-IsUnheard ClientState.disconnected (dump_queue c)
          (dump-IsUnheard c.client.publish_queue c h.0.1 h))

  -- A method that changes the library, and answers.
  abbrev pub Unheards : (Context S → Context S × ℤ) → Type 0
  Unheards f = (c : Context S) → IsUnheard host c → IsUnheard host (f c).0

  pub connected-IsUnheard :
      (f : Context S → Context S × ℤ)
      → Unheards f
      → (c : Context S) → IsUnheard host c
      → IsUnheard host (connected f c)
  unfolding connected
  connected-IsUnheard f k c h =
      let p =
        raise-IsUnheard client_connected (set_state ClientState.connected c) refl
          (set_state-IsUnheard ClientState.connected c h) in
      ground (arith, p, k (raise client_connected (set_state ClientState.connected c)) p)

  pub returned-IsUnheard :
      {c c' : Context S} → some c ≡ some c' → IsUnheard host c → IsUnheard host c'
  returned-IsUnheard {c} {c'} e h =
      let same : c ≡ c' = ground (arith, e) in subst (IsUnheard host) same h

  pub activated-IsUnheard : (c : Context S) → IsUnheard host c → IsUnheard host (activated c)
  unfolding activated
  activated-IsUnheard c h = ground (arith, h)

  pub connect-IsUnheard : (f : Context S → Context S × ℤ) → Unheards f → Unheards (connect f)
  unfolding connect
  connect-IsUnheard f k c h =
      let p = k c h in
      ground (
        arith,
        h,
        p,
        set_state-IsUnheard ClientState.disconnected (f c).0 p,
        set_state-IsUnheard ClientState.connecting (f c).0 p,
      )

  pub disconnect-IsUnheard : (f : Context S → Context S × ℤ) → Unheards f → Unheards (disconnect f)
  unfolding disconnect
  disconnect-IsUnheard f k c h = ground (arith, h, k c h)

  -- A client that is not primary is not deactivated.
  pub deactivate-IsUnheard : (f : Context S → Context S × ℤ) → Unheards (deactivate f)
  unfolding deactivate
  deactivate-IsUnheard f c h = ground (arith, h)

  pub configure-IsUnheard :
      (f : Context S → Context S × ℤ)
      → Unheards f
      → (topics : Option ClientTopicOptions) → Unheards (configure f topics)
  unfolding configure
  configure-IsUnheard f k none c h = h
  configure-IsUnheard f k (some topics) c h =
      let d : Context S = record c { client = record (c.client) { topics = topics } } in
      ground (arith, k d h)

  pub execute-IsUnheard :
      (f : Context S → Context S × ℤ) (sync : Context S → Option (Context S))
      → Unheards f
      → ((c c' : Context S) → sync c ≡ some c' → IsUnheard host c → IsUnheard host c')
      → (c c' : Context S) → execute f sync c ≡ some c'
      → IsUnheard host c
      → IsUnheard host c'
  unfolding execute
  execute-IsUnheard f sync k s c c' e h =
      s _ c' e (started (same_state c.client.state ClientState.disconnected))
    where
      started : (b : Bool) → IsUnheard host (if b then (connect f c).0 else c)
      started true = connect-IsUnheard f k c h
      started false = h
