-- ===== src/Publishable/Messages.antt =====
-- src/Publishable.cpp, addToPayload and handleCommand: what goes into a message, and which receivers a
-- command reaches.
use cpp_sparkplug.Prelude.{
  ℕ, suc, Bytes, Bool, true, false, ◌||◌, none, some, List, [], ◌∷◌, ◌++◌, ◌≡◌, ◌≢◌, refl, ap, ◌∙◌,
  arith, if◌then◌else◌, reverse, inl, inr, Bool-cases, foldl, append_assoc,
}
use mathlib.Core.List.{reverse-append, reverse-cons}
use cpp_sparkplug.Tahu.{Tahu}
use cpp_sparkplug.Metric.{Metric, Call, on_command, report}
use cpp_sparkplug.Metric
use cpp_sparkplug.Publishable.{
  Publishable, any_dirty, can_publish, add_metrics_to_payload, add_to_payload, command, commands,
  handle_command,
}

module _ (t : Tahu) where
  open t use {Payload, PayloadMetric, add_metric_to_payload, decode_payload, metric_name}

  -- What a message says: of each dirty metric, and in a birth of each metric, in the order of the list.
  abbrev pub reported : (ℕ → ℕ) → ℕ → Bool → List Metric → List PayloadMetric
  reported clock i birth [] = []
  reported clock i birth (m ∷ ms) =
      if m.dirty || birth
      then report t (clock i) birth m ∷ reported clock (suc i) birth ms
      else reported clock (suc i) birth ms

  add_metrics_lem :
      (clock : ℕ → ℕ) (i : ℕ) (birth : Bool) (ms : List Metric) (out : Payload)
      → add_metrics_to_payload t clock i birth ms out
        ≡ foldl add_metric_to_payload out (reported clock i birth ms)
  unfolding add_metrics_to_payload Metric.add_to_payload
  add_metrics_lem clock i birth [] out = refl
  add_metrics_lem clock i birth (m ∷ ms) out = elim (Bool-cases (m.dirty || birth)) [
    | inl e ↦ rw e (add_metrics_lem clock (suc i) birth ms _)
    | inr e ↦ rw e (add_metrics_lem clock (suc i) birth ms out)
  ]

  -- A message gets exactly the reports of the dirty metrics, and in a birth of all metrics, in order;
  -- the publish timer begins anew, and the state, the metrics and their flags stay.
  pub add_to_payload-reported :
      (clock : ℕ → ℕ) (birth : Bool) (p : Publishable) (out : Payload)
      → add_to_payload t clock birth p out ≡ (
        record p { next_publish = p.publish_period },
        foldl add_metric_to_payload out (reported clock 0 birth p.metrics),
      )
  unfolding add_to_payload
  add_to_payload-reported clock birth p out =
      ap (λ (q : Payload). (record p { next_publish = p.publish_period }, q))
        (add_metrics_lem clock 0 birth p.metrics out)

  reported_dirty :
      (clock : ℕ → ℕ) (i : ℕ) (ms : List Metric)
      → any_dirty ms ≡ true
      → reported clock i false ms ≢ []
  unfolding any_dirty
  reported_dirty clock i [] h = λ _. cc
  reported_dirty clock i (m ∷ ms) h = ground (arith, reported_dirty clock (suc i) ms)

  dirty_of_can_publish : (p : Publishable) → can_publish p ≡ true → any_dirty p.metrics ≡ true
  unfolding can_publish
  dirty_of_can_publish p h = ground arith

  -- A publishable that can publish has something to say.
  can_publish-reported :
      (clock : ℕ → ℕ) (p : Publishable)
      → can_publish p ≡ true
      → reported clock 0 false p.metrics ≢ []
  can_publish-reported clock p h = reported_dirty clock 0 p.metrics (dirty_of_can_publish p h)

  command_nameless :
      (m : Metric) (ms : List Metric) (c : PayloadMetric)
      → metric_name c ≡ none
      → command t (m ∷ ms) c ≡ none
  unfolding command
  command_nameless m ms c h = ground arith

  commands_nameless :
      (m : Metric) (ms : List Metric) (before after : List PayloadMetric) (c : PayloadMetric)
      → metric_name c ≡ none
      → commands t (m ∷ ms) (before ++ c ∷ after) ≡ none
  unfolding commands
  commands_nameless m ms [] after c h = ground (arith, command_nameless m ms c h)
  commands_nameless m ms (b ∷ before) after c h =
      ground (arith, commands_nameless m ms before after c h)

  -- A command with a nameless metric, sent to a publishable that has metrics, is a fault.
  handle_command_nameless :
      (payload : Bytes) (p : Publishable) (m : Metric) (ms : List Metric)
      (before after : List PayloadMetric) (c : PayloadMetric)
      → decode_payload payload ≡ some (before ++ c ∷ after)
      → p.metrics ≡ m ∷ ms
      → metric_name c ≡ none
      → handle_command t payload p ≡ none
  unfolding handle_command
  handle_command_nameless payload p m ms before after c e l h =
      let turned : reverse (before ++ c ∷ after) ≡ reverse after ++ (c ∷ reverse before) =
        reverse-append before (c ∷ after)
        ∙ ap (λ (r : List PayloadMetric). r ++ reverse before) (reverse-cons c after)
        ∙ append_assoc (reverse after) (c ∷ []) (reverse before) in
      ground (
        arith,
        ap (commands t p.metrics) turned,
        commands_nameless m ms (reverse after) (reverse before) c h,
      )
