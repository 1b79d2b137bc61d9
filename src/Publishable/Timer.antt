-- ===== src/Publishable/Timer.antt =====
-- src/Publishable.cpp, update: the publish timer.
use cpp_sparkplug.Prelude.{
  ℕ, ◌+◌, ◌-◌, ◌<◌, ◌^◌, List, [], ◌∷◌, ◌≡◌, refl, arith, inl, inr, Bool-cases, leb, if◌then◌else◌,
  ◌∙◌,
}
use cpp_sparkplug.Prelude.Int.{pos, ◌-ℤ◌, ◌≤ℤ◌, ◌<ℤ◌, FitsInt32}
use cpp_sparkplug.Publishable.State.{PublishableState, idle}
use cpp_sparkplug.Publishable.{Publishable, update}

-- A timer that is running: the period is positive, and the time left is within it.
pub record IsTimed (p : Publishable) : Type 0 where
  pub positive : pos 0 <ℤ p.next_publish
  pub within : p.next_publish ≤ℤ p.publish_period
  pub fits : FitsInt32 p.publish_period

-- With a running timer and an elapsed time that is a nonnegative int32_t, `update` keeps the timer
-- running, returns a positive time within the period, and its subtraction does not overflow.
pub update-IsTimed :
    (elapsed : ℕ) (p : Publishable)
    → elapsed < 2 ^ 31
    → IsTimed p
    → IsTimed (update (pos elapsed) p).0
      × (pos 0 <ℤ (update (pos elapsed) p).1)
      × ((update (pos elapsed) p).1 ≤ℤ p.publish_period)
      × FitsInt32 (p.next_publish -ℤ pos elapsed)
unfolding update ◌-ℤ◌
update-IsTimed elapsed p h t = ground arith

-- The timer under several updates.
unfoldable pub updates : List ℕ → Publishable → Publishable
updates [] p = p
updates (e ∷ es) p = updates es (update (pos e) p).0

abbrev pub sum : List ℕ → ℕ
sum [] = 0
sum (e ∷ es) = e + sum es

-- The timer that has run out: it can publish, and the period begins anew.
abbrev pub expired : Publishable → Publishable
expired p = record p { state = PublishableState.can_publish; next_publish = p.publish_period }

abbrev pub left_over : ℕ → Publishable → Publishable
left_over left p = record p { next_publish = pos left }

update_expired :
    (e : ℕ) (p : Publishable) → p.state ≡ PublishableState.can_publish → (update (pos e) p).0 ≡ p
unfolding update
update_expired e p h = ground arith

updates_expired :
    (es : List ℕ) (p : Publishable) → p.state ≡ PublishableState.can_publish → updates es p ≡ p
unfolding updates
updates_expired [] p h = refl
updates_expired (e ∷ es) p h = rw (update_expired e p h) (updates_expired es p h)

update_idle :
    (e : ℕ) (p : Publishable) (left : ℕ)
    → p.state ≡ idle
    → p.next_publish ≡ pos left
    → (update (pos e) p).0 ≡ (if leb left e then expired p else left_over (left - e) p)
unfolding update ◌-ℤ◌
update_idle e p left s n = ground arith

-- An idle timer with a positive time left has run out exactly when the times that elapsed add up to
-- that time, and else has what is left of it; nothing else changes.
pub updates_idle :
    (es : List ℕ) (p : Publishable) (left : ℕ)
    → p.state ≡ idle
    → p.next_publish ≡ pos left
    → 0 < left
    → updates es p ≡ (if leb left (sum es) then expired p else left_over (left - sum es) p)
unfolding updates
updates_idle [] p left s n h = ground arith
updates_idle (e ∷ es) p left s n h = elim (Bool-cases (leb left e)) [
  | inl out ↦
      rw (update_idle e p left s n, out) (updates_expired es (expired p) refl ∙ ground arith)
  | inr running ↦
      rw (update_idle e p left s n, running)
        (updates_idle es (left_over (left - e) p) (left - e) s refl (ground arith) ∙ ground arith)
]
