-- ===== src/Examples/Cpu.antt =====
-- examples/cpu/CPU.cpp and CPU.h: the load of each CPU of a computer as the metrics of a device. The
-- arithmetic of double, the text that sscanf reads and the lines of /proc/stat are parameters.
pub mod Building
pub mod Usage
use cpp_sparkplug.Prelude.{
  null, ℕ, zero, suc, ◌+◌, ◌-◌, ◌%◌, ◌^◌, Bytes, codes, Bool, ◌||◌, Option, none, some, List, [],
  ◌∷◌, ◌++◌, ltb, ◌==◌, if◌then◌else◌,
}
use cpp_sparkplug.Prelude.Int.{pos}
use cpp_sparkplug.Prelude.Text.{contains, to_string}
use cpp_sparkplug.Metric.Simple.{double_metric}
use cpp_sparkplug.Publishable.{Publishable, new_device, add_metric}
use cpp_sparkplug.Publishable.Lifecycle.{write_metric}
use cpp_sparkplug.Clients.State.{Source, device}
use cpp_sparkplug.Clients.{put}

-- What the code does with doubles, and their object representation.
pub record Double (D : Type 0) : Type 0 where
  pub of_uint64 : ℕ → D
  pub minus : D → D → D
  pub times : D → D → D
  pub divided : D → D → D
  pub bytes : D → Bytes

-- A line of /proc/stat, each number a uint64_t.
pub record Reading : Type 0 where
  pub user : ℕ
  pub user_low : ℕ
  pub sys : ℕ
  pub idle : ℕ
  pub io_wait : ℕ
  pub irq : ℕ
  pub soft_irq : ℕ

-- class CPU: the last reading and its total, and the device, whose metrics are "idle" and "usage",
-- the one that was added last in front.
pub record Cpu : Type 0 where
  pub last : Reading
  pub last_total : ℕ
  pub number : ℕ

abbrev pub no_reading : Reading
no_reading = record {
  user = 0;
  user_low = 0;
  sys = 0;
  idle = 0;
  io_wait = 0;
  irq = 0;
  soft_irq = 0;
}

abbrev pub usage_place : ℕ
usage_place = 1

abbrev pub idle_place : ℕ
idle_place = 0

-- The sum in uint64_t.
abbrev pub total : Reading → ℕ
total r = (r.user + r.user_low + r.sys + r.idle + r.io_wait + r.irq + r.soft_irq) % 2 ^ 64

-- A difference of two uint64_t.
abbrev pub sub_uint64 : ℕ → ℕ → ℕ
sub_uint64 a b = (a + 2 ^ 64 - b) % 2 ^ 64

-- A counter that is less than it was.
abbrev pub went_back : Reading → Reading → Bool
went_back l r =
    ltb r.user l.user
    || ltb r.user_low l.user_low
    || ltb r.sys l.sys
    || ltb r.idle l.idle
    || ltb r.io_wait l.io_wait
    || ltb r.irq l.irq
    || ltb r.soft_irq l.soft_irq

-- The lines of buildCpuList that contain "cpu".
unfoldable pub count_cpus : List Bytes → ℕ
count_cpus [] = 0
count_cpus (line ∷ lines) =
    if contains (codes "cpu") line then 1 + count_cpus lines else count_cpus lines

unfoldable pub cpu_name : ℕ → Bytes
cpu_name i = if i == 0 then codes "cpuTotal" else codes "cpu" ++ to_string (pos (i - 1))

module _ {D : Type 0} (d : Double D) where
  -- CPU(name)
  unfoldable pub new_cpu : Bytes → ℕ → Cpu × Publishable
  unfolding new_device add_metric double_metric
  new_cpu name i = (
    record { last = no_reading; last_total = 0; number = i },
    add_metric (double_metric (codes "idle") (d.bytes (d.of_uint64 0))) (
        add_metric (double_metric (codes "usage") (d.bytes (d.of_uint64 0)))
          (new_device name (pos 1000))),
  )

  -- usagePercent and idlePercent of `update`
  unfoldable pub percentages : Reading → Cpu → D × D
  percentages r c =
      if went_back c.last r
      then (d.of_uint64 0, d.of_uint64 0)
      else (let delta = d.of_uint64 (sub_uint64 (total r) c.last_total) in
          let idle = d.of_uint64 (sub_uint64 r.idle c.last.idle) in
          let used = d.minus delta idle in
          let usage = d.divided (d.times used (d.of_uint64 100)) delta in
          (usage, d.minus (d.of_uint64 100) usage))

  -- The members that `update` changes.
  unfoldable pub remember : Reading → Cpu → Cpu
  remember r c = record c {
    last = r;
    last_total = if went_back c.last r then c.last_total else total r;
  }

  -- update; `now` and `now'` are the times that setValue reads.
  unfoldable pub update :
      Reading → ℕ → ℕ → Cpu → (Source → Publishable) → Cpu × (Source → Publishable)
  unfolding percentages remember
  update r now now' c store =
      let (usage, idle) = percentages r c in
      let s = device c.number in
      (
        remember r c,
        put store s (
            write_metric idle_place (d.bytes idle) now'
              (write_metric usage_place (d.bytes usage) now (store s))),
      )

  -- The element of `cpus` at a place is updated; at() throws where there is none.
  unfoldable pub update_at :
      ℕ
      → Reading
      → ℕ
      → ℕ
      → List Cpu
      → (Source → Publishable)
      → Option (List Cpu × (Source → Publishable))
  unfolding update
  update_at i r now now' [] store = none
  update_at zero r now now' (c ∷ cs) store =
      let (c', store') = update r now now' c store in some (c' ∷ cs, store')
  update_at (suc i) r now now' (c ∷ cs) store = elim (update_at i r now now' cs store) [
    | none ↦ none
    | some (cs', store') ↦ some (c ∷ cs', store')
  ]

  -- updateValues over the lines of the file. `scan` is sscanf, from the values that the variables
  -- have, and `none` where the name does not fit the six bytes of its buffer; `clock` are the times
  -- that are read.
  unfoldable pub update_values :
      (Bytes → Reading → Option Reading)
      → (ℕ → ℕ)
      → List Bytes
      → ℕ
      → Reading
      → List Cpu
      → (Source → Publishable)
      → Option (List Cpu × (Source → Publishable))
  unfolding update_at
  update_values scan clock [] count r cs store = some (cs, store)
  update_values scan clock (line ∷ lines) count r cs store =
      let skipped = update_values scan clock lines count r cs store in
      if contains (codes "cpu") line
      then elim (scan line r) [
        | none ↦ none
        | some r' ↦
            elim (update_at count r' (clock (count + count)) (clock (count + count + 1)) cs store) [
              | none ↦ none
              | some (cs', store') ↦ update_values scan clock lines (count + 1) r' cs' store'
            ]
      ]
      else skipped

  -- The second loop of buildCpuList, whose counter is a uint8_t: `none` is out of fuel.
  unfoldable pub build_cpus : ℕ → ℕ → ℕ → Option (List (Cpu × Publishable))
  unfolding new_cpu cpu_name
  build_cpus zero i count = none
  build_cpus (suc fuel) i count =
      let rest = build_cpus fuel ((i + 1) % 256) count in
      if ltb i count
      then elim rest [ none ↦ none | some l ↦ some (new_cpu (cpu_name i) i ∷ l) ]
      else some []

  unfoldable pub build_cpu_list : ℕ → List Bytes → Option (List (Cpu × Publishable))
  unfolding build_cpus count_cpus
  build_cpu_list fuel lines = build_cpus fuel 0 (count_cpus lines)

  -- getCpus, with the static list of CPUs, which is built if it is empty: the numbers of the devices.
  unfoldable pub get_cpus :
      ℕ → List Bytes → List (Cpu × Publishable) → Option (List (Cpu × Publishable))
  unfolding build_cpu_list
  get_cpus fuel lines cpus = if null cpus then build_cpu_list fuel lines else some cpus
