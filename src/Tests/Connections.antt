-- ===== src/Tests/Connections.antt =====
-- The Paho clients at concrete inputs.
use cpp_sparkplug.Prelude.{zero, suc, codes, ℕ, false, some, [], ◌∷◌, ◌≡◌, refl}
use cpp_sparkplug.Clients.State.{ClientState, success, other_code}
use cpp_sparkplug.Clients.{Context, execute, deactivate}
use cpp_sparkplug.Clients.Queue.{publish_from_queue}
use cpp_sparkplug.Clients.PahoSync
use cpp_sparkplug.Clients.PahoAsync
use cpp_sparkplug.Clients.Connection.{execute-PahoAsync, deactivate-PahoSync}
use cpp_sparkplug.Tests.Data.{
  small_tahu, low_byte, birth, context_with, sync_library, async_library,
}

abbrev offline : Context ℕ
offline =
    let c : Context ℕ = context_with [] in
    record c { client = record (c.client) { state = ClientState.disconnected; is_primary = false } }

abbrev pending : Context ℕ
pending = context_with (birth ∷ [])

-- A library that hands over the messages that it holds, as many as its state.
abbrev holding : PahoSync.PahoLibrary ℕ
holding = record (sync_library success) {
  receive = λ s. elim s [
    | zero ↦ (zero, PahoSync.empty)
    | suc k ↦ (k, PahoSync.message (codes "spBv1.0/g/NCMD/n") (7 ∷ []))
  ];
}

execute-PahoAsync_example :
    (c' : Context ℕ) × (execute
        (PahoAsync.client_connect (async_library other_code))
        (PahoAsync.sync (async_library other_code))
        offline
      ≡ some c')
    × (c'.client.state ≡ ClientState.connecting)
    × (execute
          (PahoAsync.client_connect (async_library other_code))
          (PahoAsync.sync (async_library other_code))
          c'
        ≡ some c')
execute-PahoAsync_example = execute-PahoAsync (async_library other_code) offline refl refl refl

deactivate-PahoSync_example :
    let c' = (deactivate (PahoSync.unsubscribe_to_commands (sync_library success)) pending).0 in
    (c'.client.publish_queue ≡ birth ∷ [])
    × (c'.events ≡ [])
    × ((d : Context ℕ) × (publish_from_queue small_tahu low_byte
            (PahoSync.transport (sync_library success))
            0
            c'
          ≡ some d)
        × (d.client.publish_queue ≡ birth ∷ [])
        × (d.library ≡ c'.library)
        × (d.events ≡ []))
deactivate-PahoSync_example =
    deactivate-PahoSync small_tahu low_byte (sync_library success) 0 pending refl refl
