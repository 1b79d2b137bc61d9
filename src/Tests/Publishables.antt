-- ===== src/Tests/Publishables.antt =====
-- Publishable at concrete inputs.
use cpp_sparkplug.Prelude.{
  ℕ, suc, Bytes, codes, Bool, true, false, not, Option, none, some, List, [], ◌∷◌, ◌≡◌, ◌≢◌, refl,
  arith, ◌++◌, if◌then◌else◌, ◌<◌, foldl, ◌^◌,
}
use cpp_sparkplug.Prelude.Int.{pos, ◌-ℤ◌}
use cpp_sparkplug.Metric.{Metric, Call, to_handler, set_command_handler}
use cpp_sparkplug.Metric.Simple.{int8_metric}
use cpp_sparkplug.Publishable.{
  Publishable, update, published, publishing, can_publish, add_to_payload, handle_command,
}
use cpp_sparkplug.Publishable.State.{PublishableState}
use cpp_sparkplug.Publishable.Timer.{IsTimed, updates}
use cpp_sparkplug.Publishable.Messages.{add_to_payload-reported}
use cpp_sparkplug.Publishable.Receivers.{Receives, handle_command-Receives}
use cpp_sparkplug.Publishable.Lifecycle.{
  get_elem?, write_metric, Reach, here, next, elapse, begin, build, finish, can_publish-updates,
  write_metric_lost,
}
use cpp_sparkplug.Tests.Data.{SmallMetric, small_tahu, level, dirty_level, tank}

abbrev dirty_tank : Publishable
dirty_tank = record tank { metrics = dirty_level ∷ [] }

abbrev ready_tank : Publishable
ready_tank = record dirty_tank { state = PublishableState.can_publish }

IsTimed-tank : IsTimed tank
IsTimed-tank = ground arith

can_publish-updates_example : can_publish (updates (2 ∷ 4 ∷ []) dirty_tank) ≡ true
unfolding cpp_sparkplug.Publishable.any_dirty
can_publish-updates_example = can_publish-updates (2 ∷ 4 ∷ []) dirty_tank 5 refl refl (omega arith)

-- A tank that counts down, publishes, and is called back.
cycle :
    Reach tank (published (record (publishing (update (pos 7) tank).0) { next_publish = pos 10 }))
unfolding publishing update ◌-ℤ◌
cycle = next (next (next (next here (elapse 7 (omega arith))) begin) build) finish

write_metric_lost_example :
    let q = published (write_metric 0 (50 ∷ []) 900 (publishing tank)) in
    (m' : Metric) × (get_elem? q.metrics 0 ≡ some m')
    × (m'.block ≡ 50 ∷ [])
    × (m'.block ≢ level.block)
    × (m'.dirty ≡ false)
    × (can_publish (updates (20 ∷ []) q) ≡ false)
unfolding int8_metric
write_metric_lost_example =
    write_metric_lost 0 (50 ∷ []) 900 (20 ∷ []) tank level 5 refl refl refl (ground arith) refl
      (omega arith)

add_to_payload-reported_example :
    add_to_payload small_tahu (λ i. 100) false dirty_tank (some 1, []) ≡ (
      record dirty_tank { next_publish = pos 10 },
      (some 1, record { name = some (7 ∷ []); block = 41 ∷ []; time = 0; properties = [] } ∷ []),
    )
unfolding int8_metric cpp_sparkplug.Metric.report
add_to_payload-reported_example =
    add_to_payload-reported small_tahu (λ i. 100) false dirty_tank (some 1, [])

abbrev seen : ℕ → SmallMetric
seen k = record { name = some (k ∷ []); block = k ∷ []; time = 0; properties = [] }

-- A tank whose metric has a handler.
abbrev commanded_tank : Publishable
commanded_tank = record tank { metrics = set_command_handler 0 12 level ∷ [] }

handle_command-Receives_example :
    (calls : List (Call SmallMetric)) × (handle_command small_tahu (7 ∷ 8 ∷ []) commanded_tank
      ≡ some calls)
    × Receives small_tahu commanded_tank.metrics (seen 8 ∷ seen 7 ∷ []) calls
handle_command-Receives_example =
    handle_command-Receives small_tahu (7 ∷ 8 ∷ []) commanded_tank (seen 7 ∷ seen 8 ∷ []) refl
      ((7 ∷ [], refl), ((8 ∷ [], refl), tt))

handle_command_runs :
    handle_command small_tahu (7 ∷ 8 ∷ []) commanded_tank ≡ some (to_handler 12 (seen 7) ∷ [])
unfolding set_command_handler int8_metric cpp_sparkplug.Publishable.handle_command
    cpp_sparkplug.Publishable.find_metric cpp_sparkplug.Prelude.same cpp_sparkplug.Metric.on_command
handle_command_runs = refl
