-- ===== src/Publishable/Lifecycle.antt =====
-- Publishable.cpp: the states of a publication, from the timer to the callback of the client, and what
-- becomes of a value that changes meanwhile.
use cpp_sparkplug.Prelude.{
  ℕ, zero, suc, ◌<◌, ◌^◌, Bytes, false, ◌&&◌, Option, none, some, List, [], ◌∷◌, ◌≡◌, ◌≢◌, refl, ap,
  sym, ◌∙◌, arith, map, leb, length, same→eq,
}
use cpp_sparkplug.Prelude.Int.{pos}
use mathlib.Core.Option
use cpp_sparkplug.Memory.{differs_iff, memcpy_whole}
use cpp_sparkplug.Metric.{Metric}
use cpp_sparkplug.Metric
use cpp_sparkplug.Publishable.State.{idle}
use cpp_sparkplug.Publishable.{Publishable, update, publishing, published, any_dirty, can_publish}
use cpp_sparkplug.Publishable.Timer.{IsTimed, update-IsTimed, updates, updates_idle, sum}

-- An idle publishable with a positive time left can publish after some updates exactly if the time has
-- run out and a metric is dirty.
pub can_publish-updates :
    (es : List ℕ) (p : Publishable) (left : ℕ)
    → p.state ≡ idle
    → p.next_publish ≡ pos left
    → 0 < left
    → can_publish (updates es p) ≡ leb left (sum es) && any_dirty p.metrics
unfolding can_publish
can_publish-updates es p left s n h = ap can_publish (updates_idle es p left s n h) ∙ ground arith

any_dirty-published : (ms : List Metric) → any_dirty (map Metric.published ms) ≡ false
unfolding any_dirty Metric.published
any_dirty-published [] = refl
any_dirty-published (m ∷ ms) = any_dirty-published ms

-- An application's change of one metric, by its place in the list.
abbrev pub modify : ℕ → (Metric → Metric) → List Metric → List Metric
modify i f [] = []
modify zero f (m ∷ ms) = f m ∷ ms
modify (suc i) f (m ∷ ms) = m ∷ modify i f ms

abbrev pub get_elem? {ℓ} : {A : Type ℓ} → List A → ℕ → Option A
get_elem? [] i = none
get_elem? (x ∷ xs) zero = some x
get_elem? (x ∷ xs) (suc i) = get_elem? xs i

abbrev pub write_metric : ℕ → Bytes → ℕ → Publishable → Publishable
write_metric i v now p = record p { metrics = modify i (Metric.set_value v now) p.metrics }

get_elem?-modify :
    (f : Metric → Metric) (i : ℕ) (m : Metric) (ms : List Metric)
    → get_elem? ms i ≡ some m
    → get_elem? (map Metric.published (modify i f ms)) i ≡ some (Metric.published (f m))
get_elem?-modify f i m [] e = cc
get_elem?-modify f zero m (x ∷ ms) e =
    ap (λ (o : Option Metric). Option.map (λ a. Metric.published (f a)) o) e
get_elem?-modify f (suc i) m (x ∷ ms) e = get_elem?-modify f i m ms e

-- After the callback nothing is published, however much time passes, until a metric is written.
pub can_publish-published :
    (es : List ℕ) (p : Publishable) (left : ℕ)
    → p.next_publish ≡ pos left
    → 0 < left
    → can_publish (updates es (published p)) ≡ false
unfolding published
can_publish-published es p left n h =
    can_publish-updates es (published p) left refl n h
    ∙ ap (λ b. leb left (sum es) && b) (any_dirty-published p.metrics)
    ∙ ground arith

set_value_block :
    (v : Bytes) (now : ℕ) (m : Metric)
    → length m.block ≡ m.size
    → length v ≡ m.size
    → (Metric.published (Metric.set_value v now m)).block ≡ v
unfolding Metric.published Metric.set_value
set_value_block v now m hm hv = ground (
  arith,
  differs_iff v m.block m.size hv hm,
  memcpy_whole m.block v m.size hm hv,
  same→eq v m.block,
)

published_clean : (m : Metric) → (Metric.published m).dirty ≡ false
unfolding Metric.published
published_clean m = refl

-- A value written while a message is under way is lost to the next ones: when the client calls back,
-- for a delivery or a failure, the metric holds the new value, is not dirty, and nothing is published
-- however much time passes.
pub write_metric_lost :
    (i : ℕ) (v : Bytes) (now : ℕ) (es : List ℕ) (p : Publishable) (m : Metric) (left : ℕ)
    → get_elem? p.metrics i ≡ some m
    → length m.block ≡ m.size
    → length v ≡ m.size
    → v ≢ m.block
    → p.next_publish ≡ pos left
    → 0 < left
    → let q = published (write_metric i v now (publishing p)) in
      (m' : Metric) × (get_elem? q.metrics i ≡ some m')
      × (m'.block ≡ v)
      × (m'.block ≢ m.block)
      × (m'.dirty ≡ false)
      × (can_publish (updates es q) ≡ false)
unfolding publishing published
write_metric_lost i v now es p m left e hm hv ne n h =
    let block = set_value_block v now m hm hv in
    (
      Metric.published (Metric.set_value v now m),
      get_elem?-modify (Metric.set_value v now) i m p.metrics e,
      block,
      (λ s. ne (sym block ∙ s)),
      published_clean (Metric.set_value v now m),
      can_publish-published es (write_metric i v now (publishing p)) left n h,
    )

-- What may happen to a publishable: time passes, a message begins, is built and is called back for,
-- and the application writes a metric.
pub data Step : Publishable → Publishable → Type 0 where
  elapse : {p : Publishable} (e : ℕ) → e < 2 ^ 31 → Step p (update (pos e) p).0
  begin : {p : Publishable} → Step p (publishing p)
  build : {p : Publishable} → Step p (record p { next_publish = p.publish_period })
  finish : {p : Publishable} → Step p (published p)
  change :
      {p : Publishable} (i : ℕ) (f : Metric → Metric)
      → Step p (record p { metrics = modify i f p.metrics })

pub data Reach (p : Publishable) : Publishable → Type 0 where
  here : Reach p p
  next : {q r : Publishable} → Reach p q → Step q r → Reach p r

period_update : (e : ℕ) (p : Publishable) → (update (pos e) p).0.publish_period ≡ p.publish_period
unfolding update
period_update e p = ground arith

Step-IsTimed : {p q : Publishable} → Step p q → IsTimed p → IsTimed q
unfolding publishing published
Step-IsTimed (elapse {p} e lt) t = (update-IsTimed e p lt t).0
Step-IsTimed begin t = ground arith
Step-IsTimed build t = ground arith
Step-IsTimed finish t = ground arith
Step-IsTimed (change i f) t = ground arith

Step-period : {p q : Publishable} → Step p q → q.publish_period ≡ p.publish_period
unfolding publishing published
Step-period (elapse {p} e lt) = period_update e p
Step-period begin = refl
Step-period build = refl
Step-period finish = refl
Step-period (change i f) = refl

-- From a publishable whose timer runs, every reachable one has a running timer of the same period.
Reach-IsTimed :
    {p q : Publishable} → Reach p q → IsTimed p → IsTimed q × (q.publish_period ≡ p.publish_period)
Reach-IsTimed here t = (t, refl)
Reach-IsTimed (next r s) t = let (u, e) = Reach-IsTimed r t in (Step-IsTimed s u, Step-period s ∙ e)
