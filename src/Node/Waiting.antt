-- ===== src/Node/Waiting.antt =====
-- src/Node.cpp: a node that waits for its primary host, over clients that it has not activated.
pub mod Clients
pub mod Drivers
pub mod Cpp
pub mod Calls
pub mod Events
pub mod Reach
pub mod Online
use cpp_sparkplug.Prelude.{
  ℕ, Bytes, codes, Bool, true, false, ◌&&◌, not, same, Option, none, some, List, [], ◌∷◌, ◌++◌, ◌≡◌,
}
use cpp_sparkplug.Prelude.Int.{ℤ}
use cpp_sparkplug.Prelude.Text.{contains}
use cpp_sparkplug.Clients.State.{
  Event, client_message, client_connected, client_disconnected, client_active, client_deactive,
  client_delivered, client_undelivered, ClientTopicOptions,
}
use cpp_sparkplug.Clients.{Client, Context}
use cpp_sparkplug.Node.World.{Driver, World, SparkplugClientMode}
use cpp_sparkplug.Node.Ledger.{untagged}

-- A message of the primary host that says that it is online.
abbrev pub is_online : Bytes → Bytes → Bytes → Bool
is_online host topic payload = same topic host && contains (codes "\"online\": true") payload

-- No such message, and no client that was activated.
abbrev pub silent : Bytes → List Event → Bool
silent host [] = true
silent host (client_message topic payload ∷ es) =
    not (is_online host topic payload) && silent host es
silent host (client_connected ∷ es) = silent host es
silent host (client_disconnected ∷ es) = silent host es
silent host (client_active ∷ es) = false
silent host (client_deactive ∷ es) = silent host es
silent host (client_delivered s ∷ es) = silent host es
silent host (client_undelivered s ∷ es) = silent host es

-- A client that is not primary, and has nothing to publish.
abbrev pub IsIdle : Client → Type 0
IsIdle k = (k.is_primary ≡ false) × (k.publish_queue ≡ [])

abbrev pub IsUnheard : {S : Type 0} → Bytes → Context S → Type 0
IsUnheard host c = IsIdle c.client × (silent host c.events ≡ true)

abbrev pub AreIdle : {S : Type 0} → List (Client × S) → Type 0
AreIdle [] = Unit {0}
AreIdle ((k, s) ∷ ks) = IsIdle k × AreIdle ks

-- Without activation, the calls of a client leave it so.
pub record Waits {S : Type 0} (host : Bytes) (driver : Driver S) : Type 0 where
  pub configure_lem :
      (topics : Option ClientTopicOptions) (c : Context S)
      → IsUnheard host c
      → IsUnheard host (driver.configure topics c).0
  pub deactivate_lem : (c : Context S) → IsUnheard host c → IsUnheard host (driver.deactivate c).0
  pub disconnect_lem : (c : Context S) → IsUnheard host c → IsUnheard host (driver.disconnect c).0
  pub execute_lem :
      (c c' : Context S) → driver.execute c ≡ some c' → IsUnheard host c → IsUnheard host c'

-- A node with a primary host, no active client, and no word of the host among the events before it.
pub record IsWaiting {S P : Type 0} (host : Bytes) (w : World S P) : Type 0 where
  pub mode_lem : w.node.host_mode ≡ SparkplugClientMode.primary_host
  pub host_lem : w.node.client_topics.primary_host_topic ≡ host
  pub active_lem : w.node.active_client ≡ none
  pub queue_lem : silent host (untagged w.node.event_queue) ≡ true
  pub clients_lem : AreIdle w.clients
