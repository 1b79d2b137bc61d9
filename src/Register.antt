-- ===== src/Register.antt =====
-- The abstract value that Metric and Property promise: a value, and whether it changed since it was
-- last published. Their detailed versions are over blocks of memory.
use cpp_sparkplug.Prelude.{
  Bytes, Bool, false, not, ◌||◌, List, [], ◌∷◌, ◌≡◌, refl, arith, same, same→eq,
}

pub record Register : Type 0 where
  pub value : Bytes
  pub changed : Bool

pub data Action : Type 0 where
  write : Bytes → Action
  publish : Action

unfoldable pub act : Action → Register → Register
act (write v) r = record { value = v; changed = r.changed || not (same v r.value) }
act publish r = record r { changed = false }

unfoldable pub run : List Action → Register → Register
run [] r = r
run (a ∷ rest) r = run rest (act a r)

-- The value at the last publish, or at the beginning if there is none.
abbrev pub last_published : List Action → Bytes → Bytes → Bytes
last_published [] value last = last
last_published (write v ∷ rest) value last = last_published rest v last
last_published (publish ∷ rest) value last = last_published rest value value

-- Some write of the list, taken one after the other, differs from the value before it.
abbrev pub differ : List Bytes → Bytes → Bool
differ [] value = false
differ (v ∷ vs) value = not (same v value) || differ vs v

abbrev pub writes : List Bytes → List Action
writes [] = []
writes (v ∷ vs) = write v ∷ writes vs

clean_value :
    (rest : List Action) (r : Register) (last : Bytes)
    → (r.changed ≡ false → r.value ≡ last)
    → (run rest r).changed ≡ false
    → (run rest r).value ≡ last_published rest r.value last
unfolding run act
clean_value [] r last h e = h e
clean_value (write v ∷ rest) r last h e =
    clean_value rest (act (write v) r) last (λ c. ground (arith, same→eq v r.value, h)) e
clean_value (publish ∷ rest) r last h e = clean_value rest (act publish r) r.value (λ _. refl) e

-- A register that shows no change holds the value that was published last.
pub run-last_published :
    (actions : List Action) (r : Register)
    → r.changed ≡ false
    → (run actions r).changed ≡ false
    → (run actions r).value ≡ last_published actions r.value r.value
run-last_published actions r c e = clean_value actions r r.value (λ _. refl) e

-- After writes alone the change is shown exactly if some write differed.
pub run-writes :
    (vs : List Bytes) (r : Register) → (run (writes vs) r).changed ≡ r.changed || differ vs r.value
unfolding run act
run-writes [] r = ground arith
run-writes (v ∷ vs) r = ground (arith, run-writes vs (act (write v) r))
