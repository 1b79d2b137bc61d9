-- ===== src/Clients/Receiving.antt =====
-- src/clients/PahoSyncClient.cpp, sync: its end, and the attempts that it leaves.
use cpp_sparkplug.Prelude.{
  ℕ, zero, suc, ◌≤◌, Bytes, Bool, true, false, Option, some, List, [], ◌∷◌, ◌≡◌, refl, arith,
}
use cpp_sparkplug.Tahu.{Tahu}
use cpp_sparkplug.Clients.State.{PublishRequest}
use cpp_sparkplug.Clients.{Context, undelivered}
use cpp_sparkplug.Clients.Queue.{dump, on_disconnect}
use cpp_sparkplug.Clients.Accounts.{total}
use cpp_sparkplug.Clients.PahoSync.{PahoLibrary, message, empty, failed}

module _ {S : Type 0} where
  pub dump-empty : (q : List PublishRequest) (c : Context S) → (dump q c).client.publish_queue ≡ []
  unfolding dump undelivered
  dump-empty [] c = refl
  dump-empty (r ∷ q) c = dump-empty q (undelivered r c)

  pub on_disconnect-empty : (c : Context S) → (on_disconnect c).client.publish_queue ≡ []
  unfolding on_disconnect
  on_disconnect-empty c = ground (arith, dump-empty c.client.publish_queue c)

  -- A result of a call that returns, with no attempts gained.
  abbrev pub Returns : Context S → Option (Context S) → Type 0
  Returns c o =
      (c' : Context S) × (o ≡ some c')
      × (total c'.client.publish_queue ≤ total c.client.publish_queue)

module _ {S : Type 0} (lib : PahoLibrary S) where
  -- From state s the library hands over fewer than n messages before it has none, or fails.
  abbrev pub drains : ℕ → S → Bool
  drains zero s = false
  drains (suc n) s =
      let rest = drains n (lib.receive s).0 in
      elim (lib.receive s).1 [ message topic payload ↦ rest | empty ↦ true | failed code ↦ true ]

  module _ (t : Tahu) (int64_bytes : ℕ → Bytes) where
    -- A part of `sync` that returns, and whether to go on.
    abbrev pub Continues : Context S → Option (Context S × Bool) → Type 0
    Continues c o =
        (c' : Context S) × (b : Bool) × (o ≡ some (c', b))
        × (total c'.client.publish_queue ≤ total c.client.publish_queue)
