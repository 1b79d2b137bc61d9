-- ===== src/Node/Drivers.antt =====
-- The three clients as the interface that Node uses. `fuel` is for the sends of one call, and
-- `messages` for the messages of one call of PahoSyncClient::sync. The callbacks of PahoAsyncClient and
-- CppMqttClient are notices, and come from outside of these methods.
use cpp_sparkplug.Prelude.{ℕ, Bytes}
use cpp_sparkplug.Tahu.{Tahu}
use cpp_sparkplug.Clients.State.{ClientOptions}
use cpp_sparkplug.Clients.{configure, activate, deactivate, disconnect, execute}
use cpp_sparkplug.Clients.Queue.{request}
use cpp_sparkplug.Clients.PahoSync
use cpp_sparkplug.Clients.PahoAsync
use cpp_sparkplug.Clients.CppMqtt
use cpp_sparkplug.Node.World.{Driver}

module _ (t : Tahu) (int64_bytes : ℕ → Bytes) {S : Type 0} (options : ClientOptions)
    (fuel : ℕ) where
  abbrev pub sync_driver : PahoSync.PahoLibrary S → ℕ → Driver S
  sync_driver lib messages = record {
    configure = configure (PahoSync.configure_client lib options);
    activate = activate (PahoSync.subscribe_to_commands lib);
    deactivate = deactivate (PahoSync.unsubscribe_to_commands lib);
    disconnect = disconnect (PahoSync.client_disconnect lib);
    execute = execute (PahoSync.client_connect lib) (PahoSync.sync lib t int64_bytes fuel messages);
    request = request t int64_bytes (PahoSync.transport lib) fuel;
    is_connected = λ c. lib.is_connected c.library;
    destroy = PahoSync.destroy lib;
  }

  abbrev pub async_driver : PahoAsync.PahoLibrary S → Driver S
  async_driver lib = record {
    configure = configure (PahoAsync.configure_client lib options);
    activate = activate (PahoAsync.subscribe_to_commands lib);
    deactivate = deactivate (PahoAsync.unsubscribe_to_commands lib);
    disconnect = disconnect (PahoAsync.client_disconnect lib);
    execute = execute (PahoAsync.client_connect lib) (PahoAsync.sync lib);
    request = request t int64_bytes (PahoAsync.transport lib) fuel;
    is_connected = λ c. lib.is_connected c.library;
    destroy = PahoAsync.destroy lib;
  }

  abbrev pub cpp_driver : CppMqtt.MqttLibrary S → Driver S
  cpp_driver lib = record {
    configure = configure (CppMqtt.configure_client lib t int64_bytes options);
    activate = activate (CppMqtt.subscribe_to_commands lib);
    deactivate = deactivate (CppMqtt.unsubscribe_to_commands lib);
    disconnect = disconnect (CppMqtt.client_disconnect lib);
    execute =
        execute (CppMqtt.client_connect lib options) (CppMqtt.sync lib t int64_bytes fuel fuel);
    request = CppMqtt.request lib t int64_bytes fuel;
    is_connected = λ c. lib.connected c.library;
    destroy = CppMqtt.destroy lib;
  }
