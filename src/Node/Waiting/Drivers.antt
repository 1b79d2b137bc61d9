-- ===== src/Node/Waiting/Drivers.antt =====
-- src/clients: the two clients over Paho wait, with the callbacks of their libraries.
use cpp_sparkplug.Prelude.{
  ℕ, Bytes, false, zero, suc, none, some, List, [], ◌∷◌, ◌≡◌, refl, subst, arith, if◌then◌else◌,
  Bool-cases, inl, inr,
}
use cpp_sparkplug.Prelude.Int.{ℤ}
use cpp_sparkplug.Tahu.{Tahu}
use cpp_sparkplug.Clients.State.{
  ClientState, client_message, ClientOptions, PublishRequest, is_disconnected_code,
}
use cpp_sparkplug.Clients.{Context, set_state, message_received}
use cpp_sparkplug.Clients.Queue
use cpp_sparkplug.Clients.Queue.{on_delivery, on_delivery_failure, on_disconnect, dump_queue, dump}
use cpp_sparkplug.Clients.PahoSync
use cpp_sparkplug.Clients.PahoAsync
use cpp_sparkplug.Node.Drivers.{sync_driver, async_driver}
use cpp_sparkplug.Node.Waiting.{is_online, IsUnheard, Waits}
use cpp_sparkplug.Node.Waiting.Clients.{
  Unheards, set_state-IsUnheard, raise-IsUnheard, on_disconnect-IsUnheard, connected-IsUnheard,
  activated-IsUnheard, returned-IsUnheard, disconnect-IsUnheard, deactivate-IsUnheard,
  configure-IsUnheard, execute-IsUnheard,
}

-- No message of the library says that the host is online.
abbrev pub NeverOnline : {S : Type 0} → Bytes → PahoSync.PahoLibrary S → Type 0
NeverOnline {S} host lib =
    (s : S) (topic payload : Bytes)
    → (lib.receive s).1 ≡ PahoSync.message topic payload
    → is_online host topic payload ≡ false

-- A notice that is no message of the host that it is online.
abbrev pub IsOffline : Bytes → PahoAsync.Notice → Type 0
IsOffline host (PahoAsync.message_arrived topic payload) = is_online host topic payload ≡ false
IsOffline host _ = Unit {0}

module _ {S : Type 0} (host : Bytes) (t : Tahu) (int64_bytes : ℕ → Bytes) (options : ClientOptions)
    (fuel : ℕ) where
  module _ (lib : PahoSync.PahoLibrary S) (messages : ℕ) (never : NeverOnline host lib) where
    sync_connect-IsUnheard : Unheards host (PahoSync.client_connect lib)
    unfolding PahoSync.client_connect PahoSync.subscribe_to_primary_host
    sync_connect-IsUnheard c h =
        let d : Context S = record (set_state ClientState.connecting c) {
          library = (lib.connect (set_state ClientState.connecting c).library).0;
        } in
        let p : IsUnheard host d = set_state-IsUnheard host ClientState.connecting c h in
        ground (
          arith,
          h,
          connected-IsUnheard host (PahoSync.subscribe_to_primary_host lib)
              (λ x q. ground (arith, q)) d p,
          on_disconnect-IsUnheard host d p,
        )

    received :
        (n : ℕ) (c c' : Context S) (x : PahoSync.Received)
        → ((d : Context S)
            → PahoSync.receive_all lib n d ≡ some c'
            → IsUnheard host d
            → IsUnheard host c')
        → (lib.receive c.library).1 ≡ x
        → PahoSync.receive_all lib (suc n) c ≡ some c'
        → IsUnheard host c
        → IsUnheard host c'
    unfolding PahoSync.receive_all message_received
    received n c c' (PahoSync.message topic payload) later e s h =
        let d : Context S = record c { library = (lib.receive c.library).0 } in
        let off = never c.library topic payload e in
        later (message_received topic payload d) (ground (arith, e, s))
          (raise-IsUnheard host (client_message topic payload) d (ground (arith, off)) h)
    received n c c' PahoSync.empty later e s h =
        let d : Context S = record c { library = (lib.receive c.library).0 } in
        let same : d ≡ c' = ground (arith, e, s) in subst (IsUnheard host) same h
    received n c c' (PahoSync.failed code) later e s h =
        let d : Context S = record c { library = (lib.receive c.library).0 } in
        elim (Bool-cases (is_disconnected_code code)) [
          | inl down ↦
              let same : on_disconnect d ≡ c' = ground (arith, e, s, down) in
              subst (IsUnheard host) same (on_disconnect-IsUnheard host d h)
          | inr up ↦ let same : d ≡ c' = ground (arith, e, s, up) in subst (IsUnheard host) same h
        ]

    receive_all-IsUnheard :
        (n : ℕ) (c c' : Context S)
        → PahoSync.receive_all lib n c ≡ some c'
        → IsUnheard host c
        → IsUnheard host c'
    unfolding PahoSync.receive_all
    receive_all-IsUnheard zero c c' s h = absurd cc s
    receive_all-IsUnheard (suc n) c c' s h =
        received n c c' (lib.receive c.library).1 (λ d. receive_all-IsUnheard n d c') refl s h

    sync-IsUnheard :
        (c c' : Context S)
        → PahoSync.sync lib t int64_bytes fuel messages c ≡ some c'
        → IsUnheard host c
        → IsUnheard host c'
    unfolding PahoSync.sync PahoSync.check_front
    sync-IsUnheard c c' s h = front c.client.publish_queue h.0.1 s
      where
        front :
            (q : List PublishRequest)
            → q ≡ []
            → (elim (PahoSync.check_front lib t int64_bytes fuel q c) [
              | none ↦ none
              | some (d, goes_on) ↦ if goes_on then PahoSync.receive_all lib messages d else some d
            ])
              ≡ some c'
            → IsUnheard host c'
        front [] e r = receive_all-IsUnheard messages c c' r h
        front (x ∷ q) e r = absurd cc e

    pub sync_driver-Waits : Waits host (sync_driver t int64_bytes options fuel lib messages)
    unfolding PahoSync.configure_client PahoSync.client_disconnect
    sync_driver-Waits = record {
      configure_lem = configure-IsUnheard host _ (λ c h. ground (arith, h));
      deactivate_lem = deactivate-IsUnheard host _;
      disconnect_lem = disconnect-IsUnheard host _ (λ c h. ground (
        arith,
        set_state-IsUnheard host ClientState.disconnecting c h,
        set_state-IsUnheard host ClientState.disconnected
            (record (set_state ClientState.disconnecting c) {
              library = (lib.disconnect (set_state ClientState.disconnecting c).library).0;
            })
            (set_state-IsUnheard host ClientState.disconnecting c h),
      ));
      execute_lem = execute-IsUnheard host _ _ sync_connect-IsUnheard sync-IsUnheard;
    }

  pub async_driver-Waits :
      (lib : PahoAsync.PahoLibrary S) → Waits host (async_driver t int64_bytes options fuel lib)
  unfolding PahoAsync.configure_client PahoAsync.client_disconnect PahoAsync.client_connect
  async_driver-Waits lib = record {
    configure_lem = configure-IsUnheard host _ (λ c h. ground (arith, h));
    deactivate_lem = deactivate-IsUnheard host _;
    disconnect_lem =
        disconnect-IsUnheard host _
          (λ c h. ground (arith, h, set_state-IsUnheard host ClientState.disconnecting c h));
    execute_lem =
        execute-IsUnheard host _ _
          (λ c h. ground (arith, h, set_state-IsUnheard host ClientState.connecting c h))
          (λ c c' e h. returned-IsUnheard host e h);
  }

  pub no_front :
      (net : Queue.Transport S) (token : ℤ) (q : List PublishRequest) (c c' : Context S)
      → c.client.publish_queue ≡ q
      → q ≡ []
      → on_delivery t int64_bytes net fuel token c ≡ some c'
      → IsUnheard host c'
  unfolding on_delivery
  no_front net token [] c c' e f s = absurd (ground (arith, e, s))
  no_front net token (r ∷ q) c c' e f s = absurd cc f

  pub no_failure :
      (net : Queue.Transport S) (token : ℤ) (c c' : Context S)
      → on_delivery_failure t int64_bytes net fuel token c ≡ some c'
      → IsUnheard host c
      → IsUnheard host c'
  unfolding on_delivery_failure Queue.fail_front
  no_failure net token c c' s h =
      let same : c ≡ c' = ground (arith, s, h) in subst (IsUnheard host) same h

  subscribed-Unheards :
      (lib : PahoAsync.PahoLibrary S) → Unheards host (PahoAsync.subscribe_to_primary_host lib)
  unfolding PahoAsync.subscribe_to_primary_host
  subscribed-Unheards lib c h = ground (arith, h)

  pub async_on_notice-IsUnheard :
      (lib : PahoAsync.PahoLibrary S) (n : PahoAsync.Notice) (c c' : Context S)
      → IsOffline host n
      → PahoAsync.on_notice lib t int64_bytes fuel n c ≡ some c'
      → IsUnheard host c
      → IsUnheard host c'
  unfolding PahoAsync.on_notice message_received
  async_on_notice-IsUnheard lib (PahoAsync.delivery_complete token) c c' o e h =
      no_front (PahoAsync.transport lib) token c.client.publish_queue c c' refl h.0.1 e
  async_on_notice-IsUnheard lib (PahoAsync.delivery_failure token) c c' o e h =
      no_failure (PahoAsync.transport lib) token c c' e h
  async_on_notice-IsUnheard lib (PahoAsync.message_arrived topic payload) c c' o e h =
      returned-IsUnheard host e
        (raise-IsUnheard host (client_message topic payload) c (ground (arith, o)) h)
  async_on_notice-IsUnheard lib PahoAsync.connection_lost c c' o e h =
      returned-IsUnheard host e (on_disconnect-IsUnheard host c h)
  async_on_notice-IsUnheard lib PahoAsync.connection_success c c' o e h =
      returned-IsUnheard host e (
        connected-IsUnheard host (PahoAsync.subscribe_to_primary_host lib) (subscribed-Unheards lib)
          c h)
  async_on_notice-IsUnheard lib PahoAsync.connection_failure c c' o e h =
      returned-IsUnheard host e (set_state-IsUnheard host ClientState.disconnected c h)
  async_on_notice-IsUnheard lib PahoAsync.command_subscribed c c' o e h =
      returned-IsUnheard host e (activated-IsUnheard host c h)
  async_on_notice-IsUnheard lib PahoAsync.ignored c c' o e h = returned-IsUnheard host e h
