-- ===== src/Node/Contract.antt =====
-- src/clients: what Node relies on in a SparkplugClient, and that each of the three clients keeps
-- to it.
use cpp_sparkplug.Prelude.{ℕ, Bytes, Option, some, [], ◌∷◌, ◌≡◌, refl}
use cpp_sparkplug.Tahu.{Tahu}
use cpp_sparkplug.Clients.State.{PublishRequest, ClientOptions, ClientTopicOptions}
use cpp_sparkplug.Clients.{Context}
use cpp_sparkplug.Clients.PahoSync
use cpp_sparkplug.Clients.PahoAsync
use cpp_sparkplug.Clients.CppMqtt
use cpp_sparkplug.Clients.Flow.{Flow, Flow_of, Flow_refl}
use cpp_sparkplug.Clients.Moves.{
  Flows, configure-Flow, activate-Flow, deactivate-Flow, disconnect-Flow, execute-Flow,
  request-Flow,
}
use cpp_sparkplug.Clients.Moves.Sync
use cpp_sparkplug.Clients.Moves.Async
use cpp_sparkplug.Clients.Moves.Cpp
use cpp_sparkplug.Node.World.{Driver}
use cpp_sparkplug.Node.Drivers.{sync_driver, async_driver, cpp_driver}

-- Only `request` takes a request in, at the end of the queue; every request that leaves the queue
-- leaves its front and is reported, in order, and nothing else is reported as delivered or
-- undelivered; and the publishables are kept.
pub record Conserves {S : Type 0} (driver : Driver S) : Type 0 where
  pub configure_lem : (topics : Option ClientTopicOptions) → Flows (driver.configure topics)
  pub activate_lem : Flows driver.activate
  pub deactivate_lem : Flows driver.deactivate
  pub disconnect_lem : Flows driver.disconnect
  pub destroy_lem : (c : Context S) → Flow [] c (driver.destroy c)
  pub execute_lem : (c c' : Context S) → driver.execute c ≡ some c' → Flow [] c c'
  pub request_lem :
      (r : PublishRequest) (c c' : Context S)
      → driver.request r c ≡ some c'
      → Flow (r.publisher ∷ []) c c'

module _ (t : Tahu) (int64_bytes : ℕ → Bytes) {S : Type 0} (options : ClientOptions)
    (fuel : ℕ) where
  -- PahoSyncClient, whatever its library does, takes a request in only by `request`, at the end of
  -- its queue; in every method that returns, what leaves the queue leaves its front and is
  -- reported, in order, nothing else is reported as delivered or undelivered, and the publishables
  -- are kept, but that timers may begin anew.
  pub sync_driver-Conserves :
      (lib : PahoSync.PahoLibrary S) (messages : ℕ)
      → Conserves (sync_driver t int64_bytes options fuel lib messages)
  sync_driver-Conserves lib messages = record {
    configure_lem = configure-Flow _ (Sync.configure_client-Flow lib options);
    activate_lem = activate-Flow _ (Sync.subscribe_to_commands-Flow lib);
    deactivate_lem = deactivate-Flow _ (Sync.unsubscribe_to_commands-Flow lib);
    disconnect_lem = disconnect-Flow _ (Sync.client_disconnect-Flow lib);
    destroy_lem = Sync.destroy-Flow lib;
    execute_lem =
        execute-Flow _ _ (Sync.client_connect-Flow lib)
          (Sync.sync-Flow lib t int64_bytes fuel messages);
    request_lem = request-Flow t int64_bytes (PahoSync.transport lib) fuel;
  }

  -- PahoAsyncClient, whatever its library does, takes a request in only by `request`, at the end of
  -- its queue; in every method that returns, what leaves the queue leaves its front and is
  -- reported, in order, nothing else is reported as delivered or undelivered, and the publishables
  -- are kept, but that timers may begin anew.
  pub async_driver-Conserves :
      (lib : PahoAsync.PahoLibrary S) → Conserves (async_driver t int64_bytes options fuel lib)
  async_driver-Conserves lib = record {
    configure_lem = configure-Flow _ (Async.configure_client-Flow lib options);
    activate_lem = activate-Flow _ (Async.subscribe_to_commands-Flow lib);
    deactivate_lem = deactivate-Flow _ (Async.unsubscribe_to_commands-Flow lib);
    disconnect_lem = disconnect-Flow _ (Async.client_disconnect-Flow lib);
    destroy_lem = Async.destroy-Flow lib;
    execute_lem =
        execute-Flow _ _ (Async.client_connect-Flow lib) (λ c c' e. Flow_of e refl (Flow_refl c));
    request_lem = request-Flow t int64_bytes (PahoAsync.transport lib) fuel;
  }

  -- CppMqttClient, whatever its library does, takes a request in only by `request`, at the end of
  -- its queue; in every method that returns, what leaves the queue leaves its front and is
  -- reported, in order, nothing else is reported as delivered or undelivered, and the publishables
  -- are kept, but that timers may begin anew.
  pub cpp_driver-Conserves :
      (lib : CppMqtt.MqttLibrary S) → Conserves (cpp_driver t int64_bytes options fuel lib)
  cpp_driver-Conserves lib = record {
    configure_lem = configure-Flow _ (Cpp.configure_client-Flow lib t int64_bytes options);
    activate_lem = activate-Flow _ (Cpp.subscribe_to_commands-Flow lib);
    deactivate_lem = deactivate-Flow _ (Cpp.unsubscribe_to_commands-Flow lib);
    disconnect_lem = disconnect-Flow _ (Cpp.client_disconnect-Flow lib);
    destroy_lem = Cpp.destroy-Flow lib;
    execute_lem =
        execute-Flow _ _ (Cpp.client_connect-Flow lib options)
          (Cpp.sync-Flow lib t int64_bytes fuel fuel);
    request_lem = request-Flow t int64_bytes (CppMqtt.transport lib) fuel;
  }
