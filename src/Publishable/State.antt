-- ===== src/Publishable/State.antt =====
-- src/Publishable.h, enum PublishableState.
pub data PublishableState : Type 0 where
  idle can_publish publishing : PublishableState
