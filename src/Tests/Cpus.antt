-- ===== src/Tests/Cpus.antt =====
-- The CPU example at concrete inputs, with whole numbers for doubles.
use cpp_sparkplug.Prelude.{
  ℕ, zero, suc, ◌+◌, ◌-◌, ◌*◌, ◌/◌, ◌≤◌, ◌<◌, Bytes, codes, true, false, Option, none, some, List,
  [], ◌∷◌, ◌++◌, ◌≡◌, refl, arith,
}
use cpp_sparkplug.Prelude.{length}
use cpp_sparkplug.Publishable.{Publishable}
use cpp_sparkplug.Prelude.Text.{contains}
use cpp_sparkplug.Examples.Cpu.{
  Double, Reading, Cpu, no_reading, percentages, remember, count_cpus, cpu_name, build_cpu_list,
}
use cpp_sparkplug.Examples.Cpu.Building.{
  StartsWithTotal, build_cpu_list-numbered, build_cpu_list-endless,
}
use cpp_sparkplug.Examples.Cpu.Usage.{remember_all, percentages-remember_all}
use cpp_sparkplug.Tests.Data.{low_byte}

abbrev pub whole : Double ℕ
whole = record {
  of_uint64 = λ n. n;
  minus = λ a b. a - b;
  times = λ a b. a * b;
  divided = λ a b. a / b;
  bytes = low_byte;
}

abbrev pub reading : ℕ → ℕ → Reading
reading user idle = record no_reading { user = user; idle = idle }

abbrev pub fresh : Cpu
fresh = record { last = no_reading; last_total = 0; number = 0 }

percentages-remember_all_example :
    (percentages whole (reading 60 140) (remember_all whole (reading 30 70 ∷ []) fresh) ≡ (30, 70))
    × (70 ≤ 100)
unfolding remember
percentages-remember_all_example =
    percentages-remember_all whole (reading 30 70 ∷ []) fresh (reading 60 140) refl (refl, tt) refl
      (omega arith)

abbrev lines : ℕ → List Bytes
lines zero = []
lines (suc n) = codes "cpu 1 2 3" ∷ lines n

found : contains (codes "cpu") (codes "cpu 1 2 3") ≡ true
unfolding cpp_sparkplug.Prelude.Text.find
found = refl

count_cpus-lines : (n : ℕ) → count_cpus (lines n) ≡ n
unfolding count_cpus
count_cpus-lines zero = refl
count_cpus-lines (suc n) = ground (arith, found, count_cpus-lines n)

names : (cpu_name 0 ≡ codes "cpuTotal") × (cpu_name 3 ≡ codes "cpu2")
unfolding cpu_name cpp_sparkplug.Prelude.Text.to_string
names = (refl, refl)

abbrev stat : List Bytes
stat = codes "cpu 9" ∷ codes "cpu0 4" ∷ codes "intr 8" ∷ codes "cpu1 5" ∷ []

build_cpu_list-numbered_example :
    (cpus : List (Cpu × Publishable)) × (build_cpu_list whole 4 stat ≡ some cpus)
    × (length cpus ≡ 3)
    × StartsWithTotal whole cpus
unfolding count_cpus cpp_sparkplug.Prelude.Text.find
build_cpu_list-numbered_example = build_cpu_list-numbered whole stat (omega arith)

build_cpu_list-endless_example : build_cpu_list whole 1000 (lines 256) ≡ none
build_cpu_list-endless_example =
    build_cpu_list-endless whole (lines 256) 1000 (omega (arith, count_cpus-lines 256))
