-- ===== src/Examples/Cpu/Building.antt =====
-- examples/cpu/CPU.cpp, buildCpuList: which devices it makes, and when it returns.
use cpp_sparkplug.Prelude.{
  ℕ, zero, suc, ◌+◌, ◌%◌, ◌≤◌, ◌<◌, Bytes, some, none, List, [], ◌∷◌, ◌≡◌, refl, ap, ◌∙◌, ltb, true,
  arith,
}
use cpp_sparkplug.Prelude.{subst, codes, length, take, false, ◌++◌, ◌-◌}
use cpp_sparkplug.Prelude.Int.{pos}
use cpp_sparkplug.Prelude.Text.{to_string}
use cpp_sparkplug.Tahu.{double}
use cpp_sparkplug.Property.{nil}
use cpp_sparkplug.Metric.{Metric}
use cpp_sparkplug.Metric
use cpp_sparkplug.Metric.Simple.{double_metric}
use cpp_sparkplug.Publishable.{Publishable, new_device, add_metric}
use cpp_sparkplug.Examples.Cpu.{
  Double, Cpu, no_reading, new_cpu, cpu_name, count_cpus, build_cpus, build_cpu_list,
}

module _ {D : Type 0} (d : Double D) where
  -- The CPUs with numbers from i on.
  abbrev numbered : ℕ → ℕ → List (Cpu × Publishable)
  numbered i zero = []
  numbered i (suc n) = new_cpu d (cpu_name i) i ∷ numbered (i + 1) n

  -- A metric of double with the value 0, as it is created.
  abbrev zeroed : Bytes → Metric
  zeroed name = record {
    name = name;
    alias = 0;
    data_type = double;
    handler = none;
    callback = none;
    is_read_only = true;
    changed_time = 0;
    properties = nil;
    size = 8;
    dirty = false;
    block = take 8 (d.bytes (d.of_uint64 0));
  }

  -- A device with a number and a name, of period 1000, without a reading, and with the metrics "idle"
  -- and "usage", of value 0, of which the one that was added last is first.
  pub record IsCpu (i : ℕ) (name : Bytes) (x : Cpu × Publishable) : Type 0 where
    pub number_lem : x.0 ≡ record { last = no_reading; last_total = 0; number = i }
    pub name_lem : x.1.name ≡ some name
    pub period_lem : x.1.publish_period ≡ pos 1000
    pub metrics_lem : x.1.metrics ≡ zeroed (codes "idle") ∷ zeroed (codes "usage") ∷ []

  -- The CPUs of number i and later: cpu0 for 1, cpu1 for 2 and so on.
  abbrev pub AreCpus : ℕ → List (Cpu × Publishable) → Type 0
  AreCpus i [] = Unit {0}
  AreCpus i (x ∷ xs) = IsCpu (suc i) (codes "cpu" ++ to_string (pos i)) x × AreCpus (suc i) xs

  -- The list of the total and the single CPUs.
  abbrev pub StartsWithTotal : List (Cpu × Publishable) → Type 0
  StartsWithTotal [] = Unit {0}
  StartsWithTotal (x ∷ xs) = IsCpu 0 (codes "cpuTotal") x × AreCpus 0 xs

  new_cpu-IsCpu : (name : Bytes) (i : ℕ) → IsCpu i name (new_cpu d name i)
  unfolding new_cpu Metric.new double_metric new_device add_metric
  new_cpu-IsCpu name i = record {
    number_lem = refl;
    name_lem = refl;
    period_lem = refl;
    metrics_lem = refl;
  }

  numbered-AreCpus : (n i : ℕ) → AreCpus i (numbered (suc i) n)
  unfolding cpu_name
  numbered-AreCpus zero i = tt
  numbered-AreCpus (suc n) i =
      let next : suc (suc i) ≡ suc i + 1 = omega arith in
      let place : suc i - 1 ≡ i = omega arith in
      let name : cpu_name (suc i) ≡ codes "cpu" ++ to_string (pos i) =
        ground (arith) ∙ ap (λ k. codes "cpu" ++ to_string (pos k)) place in
      (
        subst (λ (l : Bytes). IsCpu (suc i) l (new_cpu d (cpu_name (suc i)) (suc i))) name
            (new_cpu-IsCpu (cpu_name (suc i)) (suc i)),
        subst (λ k. AreCpus (suc i) (numbered k n)) next (numbered-AreCpus n (suc i)),
      )

  numbered-StartsWithTotal : (n : ℕ) → StartsWithTotal (numbered 0 n)
  unfolding cpu_name
  numbered-StartsWithTotal zero = tt
  numbered-StartsWithTotal (suc n) = (new_cpu-IsCpu _ 0, numbered-AreCpus n 0)

  numbered-length : (n i : ℕ) → length (numbered i n) ≡ n
  numbered-length zero i = refl
  numbered-length (suc n) i = omega (arith, numbered-length n (i + 1))

  build_next :
      (fuel i count : ℕ) (l : List (Cpu × Publishable))
      → ltb i count ≡ true
      → build_cpus d fuel ((i + 1) % 256) count ≡ some l
      → build_cpus d (suc fuel) i count ≡ some (new_cpu d (cpu_name i) i ∷ l)
  unfolding build_cpus
  build_next fuel i count l h e = ground (arith, h, e)

  build_from :
      (n i count : ℕ)
      → i + n ≡ count
      → count ≤ 255
      → build_cpus d (suc n) i count ≡ some (numbered i n)
  unfolding build_cpus
  build_from zero i count e le = ground (arith, e)
  build_from (suc n) i count e le =
      let number : (i + 1) % 256 ≡ i + 1 = omega (arith, e, le) in
      build_next (suc n) i count _ (ground (arith, e)) (
        ap (λ j. build_cpus d (suc n) j count) number
        ∙ build_from n (i + 1) count (omega (arith, e)) le)

  -- With at most 255 lines that contain "cpu", the loop ends with one round more than there are such
  -- lines, and makes a device for each: cpuTotal with number 0, cpu0 with 1, cpu1 with 2 and so on,
  -- with a period of 1000 and the metrics "idle" and "usage", which are 0.
  pub build_cpu_list-numbered :
      (lines : List Bytes)
      → count_cpus lines ≤ 255
      → (cpus : List (Cpu × Publishable)) × (build_cpu_list d (suc (count_cpus lines)) lines
          ≡ some cpus)
        × (length cpus ≡ count_cpus lines)
        × StartsWithTotal cpus
  unfolding build_cpu_list
  build_cpu_list-numbered lines le =
      let n = count_cpus lines in
      (
        numbered 0 n,
        build_from n 0 n (omega arith) le,
        numbered-length n 0,
        numbered-StartsWithTotal n,
      )

  build_endless : (fuel i count : ℕ) → i < 256 → 255 < count → build_cpus d fuel i count ≡ none
  unfolding build_cpus
  build_endless zero i count lt more = refl
  build_endless (suc fuel) i count lt more =
      ground (arith, lt, more, build_endless fuel ((i + 1) % 256) count (omega arith) more)

  -- With more than 255 lines that contain "cpu" the loop does not end, whatever its fuel: its
  -- counter is a uint8_t.
  pub build_cpu_list-endless :
      (lines : List Bytes) (fuel : ℕ) → 255 < count_cpus lines → build_cpu_list d fuel lines ≡ none
  unfolding build_cpu_list
  build_cpu_list-endless lines fuel more =
      build_endless fuel 0 (count_cpus lines) (omega arith) more
