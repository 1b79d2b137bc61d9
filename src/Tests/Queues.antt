-- ===== src/Tests/Queues.antt =====
-- The publish queue and the payloads of a client at concrete inputs: a queue on a transport on which
-- every send fails.
use cpp_sparkplug.Prelude.{ℕ, some, [], ◌∷◌, ◌≡◌, refl, arith}
use cpp_sparkplug.Prelude.Int.{negsuc}
use cpp_sparkplug.Clients.{Context, delivered}
use cpp_sparkplug.Clients.Queue.{request, on_delivery, on_delivery_failure}
use cpp_sparkplug.Clients.Accounts.{Accounts}
use cpp_sparkplug.Clients.Termination.{
  request-Accounts, on_delivery_failure-Accounts, on_delivery-Accounts,
}
use cpp_sparkplug.Clients.Sequence.{messages, messages-numbered}
use cpp_sparkplug.Tests.Data.{small_tahu, low_byte, birth, data_message, context_with, failing}

-- Six attempts of the request, all of which fail.
request-Accounts_example :
    (c' : Context ℕ) × (request small_tahu low_byte failing 6 birth (context_with []) ≡ some c')
    × Accounts (context_with (birth ∷ [])) c'
request-Accounts_example =
    request-Accounts small_tahu low_byte failing 6 birth (context_with []) (omega arith)

on_delivery_failure-Accounts_example :
    (c' : Context ℕ) × (on_delivery_failure small_tahu low_byte failing 11
        (negsuc 0)
        (context_with (birth ∷ data_message ∷ []))
      ≡ some c')
    × Accounts (context_with (birth ∷ data_message ∷ [])) c'
on_delivery_failure-Accounts_example =
    on_delivery_failure-Accounts small_tahu low_byte failing 11 (negsuc 0)
      (context_with (birth ∷ data_message ∷ [])) (omega arith)

on_delivery-Accounts_example :
    (c' : Context ℕ) × (on_delivery small_tahu low_byte failing 6
        (negsuc 0)
        (context_with (birth ∷ data_message ∷ []))
      ≡ some c')
    × Accounts (delivered birth (context_with (data_message ∷ []))) c'
on_delivery-Accounts_example =
    on_delivery-Accounts small_tahu low_byte failing 6 (context_with (birth ∷ data_message ∷ []))
      birth (data_message ∷ []) refl (omega arith)

-- The sequence number 0, the value of the one metric, and the birth number 255; and the next numbers.
messages-numbered_example :
    messages small_tahu low_byte (birth ∷ data_message ∷ data_message ∷ []) (context_with [])
    ≡ (0 ∷ 40 ∷ 255 ∷ 0 ∷ 0 ∷ 0 ∷ 0 ∷ 0 ∷ 0 ∷ 0 ∷ []) ∷ (1 ∷ []) ∷ (2 ∷ []) ∷ []
unfolding cpp_sparkplug.Metric.Simple.int8_metric cpp_sparkplug.Metric.report
messages-numbered_example =
    messages-numbered small_tahu low_byte birth (data_message ∷ data_message ∷ []) (context_with [])
      refl (refl, (refl, tt))
