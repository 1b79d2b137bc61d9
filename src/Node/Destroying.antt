-- ===== src/Node/Destroying.antt =====
-- src/Node.cpp, ~Node, with the destructors of the clients.
use cpp_sparkplug.Prelude.{
  ℕ, zero, suc, ◌+◌, ◌<◌, some, List, [], ◌∷◌, length, ◌≡◌, refl, ap, sym, subst, ◌∙◌, arith,
}
use cpp_sparkplug.Clients.State.{Source, PublishRequest}
use cpp_sparkplug.Clients.{Client, Context}
use cpp_sparkplug.Clients.Queue.{dump_queue}
use cpp_sparkplug.Clients.Receiving.{dump-empty}
use cpp_sparkplug.Clients.Flow.{sources, publishers}
use cpp_sparkplug.Clients.PahoSync
use cpp_sparkplug.Clients.PahoAsync
use cpp_sparkplug.Clients.CppMqtt
use cpp_sparkplug.Node.World.{
  Driver, World, M, ◌>>=◌, ◌>>◌, pure, read, get_client, set_client, with_client, context, leave,
}
use cpp_sparkplug.Node.Contract.{Conserves}
use cpp_sparkplug.Node.Ledger.{count, untagged, in_queues, outstanding, outstanding-leave}
use cpp_sparkplug.Node.Total.{get_client-some, length-set_client}

module _ {S P : Type 0} (driver : Driver S) where
  -- The loop of ~Node over the clients from number i on.
  unfoldable pub destroy_clients : ℕ → List (Client × S) → M S P (Unit {0})
  unfolding with_client
  destroy_clients i [] = pure tt
  destroy_clients i (k ∷ ks) =
      with_client i (λ c. some (driver.destroy c, tt)) >> destroy_clients (i + 1) ks

  unfoldable pub destroy : M S P (Unit {0})
  unfolding destroy_clients
  destroy = do clients ← read (λ w. w.clients); destroy_clients 0 clients

-- The clients before number i have empty queues.
abbrev AreEmpty : {S : Type 0} → ℕ → List (Client × S) → Type 0
AreEmpty {S} i ks =
    (j : ℕ) (k : Client × S) → j < i → get_client j ks ≡ some k → k.0.publish_queue ≡ []

tail-AreEmpty :
    {S : Type 0} (i : ℕ) (x : Client × S) (ks : List (Client × S))
    → AreEmpty (suc i) (x ∷ ks)
    → AreEmpty i ks
tail-AreEmpty i x ks h j k lt e = h (suc j) k (omega (arith, lt)) e

in_queues-AreEmpty :
    {S : Type 0} (s : Source) (ks : List (Client × S))
    → AreEmpty (length ks) ks
    → in_queues s ks ≡ 0
in_queues-AreEmpty s [] h = refl
in_queues-AreEmpty s (x ∷ ks) h = omega (
  arith,
  ap (λ (q : List PublishRequest). count s (publishers q)) (h 0 x (omega arith) refl),
  in_queues-AreEmpty s ks (tail-AreEmpty (length ks) x ks h),
)

AreEmpty-set_client :
    {S : Type 0} (i : ℕ) (x : Client × S) (ks : List (Client × S))
    → x.0.publish_queue ≡ []
    → AreEmpty i ks
    → AreEmpty (i + 1) (set_client i x ks)
AreEmpty-set_client i x [] e h j k lt g = cc g
AreEmpty-set_client zero x (y ∷ ks) e h zero k lt g =
    let same : x ≡ k = ground (arith, g) in
    ap (λ (z : Client × _). z.0.publish_queue) (sym same) ∙ e
AreEmpty-set_client zero x (y ∷ ks) e h (suc j) k lt g = absurd (omega (arith, lt))
AreEmpty-set_client (suc i) x (y ∷ ks) e h zero k lt g = h 0 k (omega arith) g
AreEmpty-set_client (suc i) x (y ∷ ks) e h (suc j) k lt g =
    AreEmpty-set_client i x ks e (tail-AreEmpty i y ks h) j k (omega (arith, lt)) g

module _ {S P : Type 0} (driver : Driver S) (conserves : Conserves driver)
    (dumps : (c : Context S) → (driver.destroy c).client.publish_queue ≡ []) where
  clients_lem :
      (i : ℕ) (ks : List (Client × S)) (w : World S P)
      → length w.clients ≡ i + length ks
      → AreEmpty i w.clients
      → (w' : World S P) × (destroy_clients driver i ks w ≡ some (w', tt))
        × ((s : Source) → outstanding s w' ≡ outstanding s w)
        × ((s : Source) → in_queues s w'.clients ≡ 0)
  unfolding destroy_clients with_client
  clients_lem i [] w n h = (
    w,
    refl,
    λ s. refl,
    λ s. in_queues-AreEmpty s w.clients (subst (λ m. AreEmpty m w.clients) (omega (arith, n)) h),
  )
  clients_lem i (x ∷ ks) w n h =
      let (k, found) = get_client-some i w.clients (omega (arith, n)) in
      let c = driver.destroy (context w k) in
      let v : World S P = leave i c w in
      let (w', e, o, q) =
        clients_lem (i + 1) ks v
          (length-set_client i (c.client, c.library) w.clients ∙ omega (arith, n))
          (AreEmpty-set_client i (c.client, c.library) w.clients (dumps (context w k)) h) in
      (
        w',
        ground (arith, found, e),
        λ s.
            omega
              (arith, o s, outstanding-leave s i k w c found (conserves.destroy_lem (context w k))),
        q,
      )

  -- With clients that keep their contract and whose destructors empty their queues: ~Node returns, each
  -- request that was in a queue is reported to it before, none twice, and none is left.
  pub destroy-reports :
      (w : World S P)
      → (w' : World S P) × (destroy driver w ≡ some (w', tt))
        × ((s : Source) → count s (sources (untagged w'.node.event_queue)) ≡ outstanding s w)
        × ((s : Source) → in_queues s w'.clients ≡ 0)
  unfolding destroy
  destroy-reports w =
      let (w', e, o, q) =
        clients_lem 0 w.clients w (omega arith) (λ j k lt. absurd (omega (arith, lt))) in
      (w', e, λ s. omega (arith, o s, q s), q)

module _ {S : Type 0} where
  dump_queue-empty : (c : Context S) → (dump_queue c).client.publish_queue ≡ []
  unfolding dump_queue
  dump_queue-empty c = dump-empty c.client.publish_queue c

  -- The destructors of both Paho clients empty the queue; that of CppMqttClient keeps it.
  pub sync_destroy-empty :
      (lib : PahoSync.PahoLibrary S) (c : Context S)
      → (PahoSync.destroy lib c).client.publish_queue ≡ []
  unfolding PahoSync.destroy
  sync_destroy-empty lib c = dump_queue-empty (record c { library = lib.destroy c.library })

  pub async_destroy-empty :
      (lib : PahoAsync.PahoLibrary S) (c : Context S)
      → (PahoAsync.destroy lib c).client.publish_queue ≡ []
  unfolding PahoAsync.destroy
  async_destroy-empty lib c =
      dump_queue-empty (dump_queue (record c { library = lib.destroy c.library }))

  cpp_destroy_keeps :
      (lib : CppMqtt.MqttLibrary S) (c : Context S)
      → ((CppMqtt.destroy lib c).client.publish_queue ≡ c.client.publish_queue)
        × ((CppMqtt.destroy lib c).events ≡ c.events)
  unfolding CppMqtt.destroy
  cpp_destroy_keeps lib c = (refl, refl)
