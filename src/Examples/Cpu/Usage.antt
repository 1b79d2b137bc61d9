-- ===== src/Examples/Cpu/Usage.antt =====
-- examples/cpu/CPU.cpp, update: the percentages that it writes, from the readings alone.
use cpp_sparkplug.Prelude.{
  subst, sym, ◌||◌, ℕ, ◌+◌, ◌-◌, ◌≤◌, ◌<◌, ◌^◌, Bool, true, false, List, [], ◌∷◌, ◌≡◌, refl, ap₂,
  ◌∙◌, arith, ltb,
}
use cpp_sparkplug.Examples.Cpu.{
  Double, Reading, Cpu, total, sub_uint64, went_back, percentages, remember,
}

abbrev pub sum : Reading → ℕ
sum r = r.user + r.user_low + r.sys + r.idle + r.io_wait + r.irq + r.soft_irq

-- By how much the counters grew together.
abbrev pub growth : Reading → Reading → ℕ
growth l r =
    (r.user - l.user)
    + (r.user_low - l.user_low)
    + (r.sys - l.sys)
    + (r.idle - l.idle)
    + (r.io_wait - l.io_wait)
    + (r.irq - l.irq)
    + (r.soft_irq - l.soft_irq)

-- The total that is kept is that of the reading that is kept.
abbrev pub IsBalanced : Cpu → Type 0
IsBalanced c = c.last_total ≡ total c.last

abbrev pub remember_all : {D : Type 0} → Double D → List Reading → Cpu → Cpu
remember_all d [] c = c
remember_all d (r ∷ rs) c = remember_all d rs (remember d r c)

-- Readings that do not go back.
abbrev pub AreForward : Reading → List Reading → Type 0
AreForward l [] = Unit {0}
AreForward l (r ∷ rs) = (went_back l r ≡ false) × AreForward r rs

or_false : (a b : Bool) → a || b ≡ false → (a ≡ false) × (b ≡ false)
or_false a b h = ground (arith, h)

not_less : (a b : ℕ) → ltb a b ≡ false → b ≤ a
not_less a b h = ground (arith, h)

-- Each counter is at least what it was.
record IsForward (l r : Reading) : Type 0 where
  user_lem : l.user ≤ r.user
  user_low_lem : l.user_low ≤ r.user_low
  sys_lem : l.sys ≤ r.sys
  idle_lem : l.idle ≤ r.idle
  io_wait_lem : l.io_wait ≤ r.io_wait
  irq_lem : l.irq ≤ r.irq
  soft_irq_lem : l.soft_irq ≤ r.soft_irq

went_back-IsForward : (l r : Reading) → went_back l r ≡ false → IsForward l r
went_back-IsForward l r h =
    let (h1, g) = or_false _ (ltb r.soft_irq l.soft_irq) h in
    let (h2, f) = or_false _ (ltb r.irq l.irq) h1 in
    let (h3, e) = or_false _ (ltb r.io_wait l.io_wait) h2 in
    let (h4, d) = or_false _ (ltb r.idle l.idle) h3 in
    let (h5, c) = or_false _ (ltb r.sys l.sys) h4 in
    let (a, b) = or_false (ltb r.user l.user) (ltb r.user_low l.user_low) h5 in
    record {
      user_lem = not_less r.user l.user a;
      user_low_lem = not_less r.user_low l.user_low b;
      sys_lem = not_less r.sys l.sys c;
      idle_lem = not_less r.idle l.idle d;
      io_wait_lem = not_less r.io_wait l.io_wait e;
      irq_lem = not_less r.irq l.irq f;
      soft_irq_lem = not_less r.soft_irq l.soft_irq g;
    }

forward_sums : (l r : Reading) → IsForward l r → sum l + growth l r ≡ sum r
forward_sums l r f = omega (
  arith, f.user_lem, f.user_low_lem, f.sys_lem, f.idle_lem, f.io_wait_lem, f.irq_lem,
  f.soft_irq_lem,
)

module _ {D : Type 0} (d : Double D) where
  -- The percentages of a growth, of which `idle` was idle.
  abbrev pub shares : ℕ → ℕ → D × D
  shares n idle =
      let usage =
        d.divided (d.times (d.minus (d.of_uint64 n) (d.of_uint64 idle)) (d.of_uint64 100))
          (d.of_uint64 n) in
      (usage, d.minus (d.of_uint64 100) usage)

  remember-IsBalanced :
      (r : Reading) (c : Cpu)
      → went_back c.last r ≡ false
      → IsBalanced (remember d r c) × ((remember d r c).last ≡ r)
  unfolding remember
  remember-IsBalanced r c h = ground (arith, h)

  remember_all-IsBalanced :
      (rs : List Reading) (c : Cpu)
      → IsBalanced c
      → AreForward c.last rs
      → IsBalanced (remember_all d rs c)
  remember_all-IsBalanced [] c b f = b
  remember_all-IsBalanced (r ∷ rs) c b (h, f) =
      let (b', same) = remember-IsBalanced r c h in
      remember_all-IsBalanced rs (remember d r c) b'
        (subst (λ (l : Reading). AreForward l rs) (sym same) f)

  growth_lem :
      (r : Reading) (c : Cpu)
      → IsBalanced c
      → IsForward c.last r
      → sum r < 2 ^ 64
      → sub_uint64 (total r) c.last_total ≡ growth c.last r
  growth_lem r c b f lt = omega (arith, b, forward_sums c.last r f, lt)

  idle_lem :
      (l r : Reading) → IsForward l r → sum r < 2 ^ 64 → sub_uint64 r.idle l.idle ≡ r.idle - l.idle
  idle_lem l r f lt = omega (arith, f.idle_lem, lt)

  percentages_forward :
      (r : Reading) (c : Cpu)
      → went_back c.last r ≡ false
      → percentages d r c
        ≡ shares (sub_uint64 (total r) c.last_total) (sub_uint64 r.idle c.last.idle)
  unfolding percentages
  percentages_forward r c h = rw h

  -- From a CPU whose total is that of its reading, as it is made, and after any readings that do
  -- not go back, a further reading that does not go back, and whose sum fits in 64 bits, gives the
  -- percentages of what the counters grew by since the reading before, of which no more than that
  -- growth was idle.
  pub percentages-remember_all :
      (rs : List Reading) (c : Cpu) (r : Reading)
      → IsBalanced c
      → AreForward c.last rs
      → let l = (remember_all d rs c).last in
        went_back l r ≡ false
        → sum r < 2 ^ 64
        → (percentages d r (remember_all d rs c) ≡ shares (growth l r) (r.idle - l.idle))
          × (r.idle - l.idle ≤ growth l r)
  percentages-remember_all rs c r b fs h lt =
      let c' = remember_all d rs c in
      let f = went_back-IsForward c'.last r h in
      (
        percentages_forward r c' h
            ∙ ap₂ shares (growth_lem r c' (remember_all-IsBalanced rs c b fs) f lt)
                (idle_lem c'.last r f lt),
        omega arith,
      )

  -- After a reading that goes back, the next percentages are not of the growth since that reading,
  -- but of the difference to the total before it, modulo 2 ^ 64.
  percentages-went_back :
      (back r : Reading) (c : Cpu)
      → went_back c.last back ≡ true
      → went_back back r ≡ false
      → percentages d r (remember d back c)
        ≡ shares (sub_uint64 (total r) c.last_total) (sub_uint64 r.idle back.idle)
  unfolding remember
  percentages-went_back back r c h h' = percentages_forward r (remember d back c) h' ∙ rw h refl
