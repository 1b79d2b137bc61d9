-- ===== src/Property/Changes.antt =====
-- src/properties/Property.cpp and StringProperty.h: a property and the abstract register.
use cpp_sparkplug.Prelude.{
  ℕ, ◌+◌, Bytes, true, false, List, [], ◌∷◌, ◌≡◌, refl, ap, sym, ◌∙◌, some, arith, length, same,
  same→eq, Bool-cases, inl, inr, ◌==◌,
}
use cpp_sparkplug.Prelude.Text.{Lacks}
use cpp_sparkplug.Memory.{
  c_str, read_string, differs_iff, memcpy_whole, length-c_str, strdup-Lacks, read_string-c_str,
  same-c_str,
}
use cpp_sparkplug.Register.{
  Register, Action, write, publish, act, run, last_published, run-last_published,
}
use cpp_sparkplug.Property.{Cell, set_value, set_string, get_string, published}

-- The cell holds the register's value as its block, of the size that it keeps.
pub record Holds (c : Cell) (r : Register) : Type 0 where
  pub sized : length c.block ≡ c.size
  pub block_lem : c.block ≡ r.value
  pub dirty_lem : c.dirty ≡ r.changed

-- The cell holds the register's value as a C string.
pub record HoldsText (c : Cell) (r : Register) : Type 0 where
  pub size_lem : c.size ≡ length r.value + 1
  pub block_lem : c.block ≡ c_str r.value
  pub plain : Lacks 0 r.value
  pub dirty_lem : c.dirty ≡ r.changed

pub set_value-Holds :
    (v : Bytes) (c : Cell) (r : Register)
    → length v ≡ c.size
    → Holds c r
    → Holds (set_value v c) (act (write v) r)
unfolding set_value act
set_value-Holds v c r e h = ground (
  arith,
  differs_iff v c.block c.size e h.sized,
  memcpy_whole c.block v c.size h.sized e,
  same→eq v r.value,
)

pub published-Holds : (c : Cell) (r : Register) → Holds c r → Holds (published c) (act publish r)
unfolding published act
published-Holds c r h = ground arith

same_lengths : (v w : Bytes) → same v w ≡ true → length v ≡ length w
same_lengths v w h = ap length (same→eq v w h)

pub set_string-HoldsText :
    (v : Bytes) (c : Cell) (r : Register)
    → Lacks 0 v
    → HoldsText c r
    → HoldsText (set_string v c) (act (write v) r)
unfolding set_string act
set_string-HoldsText v c r l h = elim (Bool-cases (c.size == length v + 1)) [
  | inl fits ↦ ground (
    arith,
    fits,
    differs_iff (c_str v) c.block c.size,
    memcpy_whole c.block (c_str v) c.size,
    same-c_str v r.value,
    length-c_str v,
    length-c_str r.value,
    ap length h.block_lem,
    same→eq v r.value,
  )
  | inr other ↦ ground (arith, other, strdup-Lacks v l, same_lengths v r.value)
]

pub published-HoldsText :
    (c : Cell) (r : Register) → HoldsText c r → HoldsText (published c) (act publish r)
unfolding published act
published-HoldsText c r h = ground arith

-- A property under a list of actions: writes through setValue, and calls of published.
unfoldable pub run_cell : List Action → Cell → Cell
run_cell [] c = c
run_cell (write v ∷ rest) c = run_cell rest (set_value v c)
run_cell (publish ∷ rest) c = run_cell rest (published c)

-- The same for a StringProperty.
unfoldable pub run_text : List Action → Cell → Cell
run_text [] c = c
run_text (write v ∷ rest) c = run_text rest (set_string v c)
run_text (publish ∷ rest) c = run_text rest (published c)

-- Every value written satisfies P.
abbrev pub Writes {ℓ} : (Bytes → Type ℓ) → List Action → Type ℓ
Writes P [] = Unit
Writes P (write v ∷ rest) = P v × Writes P rest
Writes P (publish ∷ rest) = Writes P rest

set_value_size : (v : Bytes) (c : Cell) → (set_value v c).size ≡ c.size
unfolding set_value
set_value_size v c = refl

published_size : (c : Cell) → (published c).size ≡ c.size
unfolding published
published_size c = refl

-- A sized property under writes of its size behaves as the register does.
pub run_cell-Holds :
    (size : ℕ) (actions : List Action) (c : Cell) (r : Register)
    → c.size ≡ size
    → Writes (λ v. length v ≡ size) actions
    → Holds c r
    → Holds (run_cell actions c) (run actions r)
unfolding run_cell run
run_cell-Holds size [] c r e w h = h
run_cell-Holds size (write v ∷ rest) c r e w h =
    run_cell-Holds size rest (set_value v c) (act (write v) r) (set_value_size v c ∙ e) w.1
      (set_value-Holds v c r (w.0 ∙ sym e) h)
run_cell-Holds size (publish ∷ rest) c r e w h =
    run_cell-Holds size rest (published c) (act publish r) (published_size c ∙ e) w
      (published-Holds c r h)

pub run_text-HoldsText :
    (actions : List Action) (c : Cell) (r : Register)
    → Writes (Lacks 0) actions
    → HoldsText c r
    → HoldsText (run_text actions c) (run actions r)
unfolding run_text run
run_text-HoldsText [] c r w h = h
run_text-HoldsText (write v ∷ rest) c r w h =
    run_text-HoldsText rest (set_string v c) (act (write v) r) w.1
      (set_string-HoldsText v c r w.0 h)
run_text-HoldsText (publish ∷ rest) c r w h =
    run_text-HoldsText rest (published c) (act publish r) w (published-HoldsText c r h)

-- A sized property that is not dirty, after any writes of its size and publications, holds the value
-- of its last publication, or its first value if there was none.
pub run_cell-last_published :
    (actions : List Action) (c : Cell)
    → length c.block ≡ c.size
    → c.dirty ≡ false
    → Writes (λ v. length v ≡ c.size) actions
    → (run_cell actions c).dirty ≡ false
    → (run_cell actions c).block ≡ last_published actions c.block c.block
run_cell-last_published actions c s d w e =
    let r : Register = record { value = c.block; changed = false } in
    let h =
      run_cell-Holds c.size actions c r refl w
        (record { sized = s; block_lem = refl; dirty_lem = d }) in
    h.block_lem ∙ run-last_published actions r refl (sym h.dirty_lem ∙ e)

-- A string property that holds the C string of a text without NULs, and is not dirty before and after
-- any writes of such texts and publications, is read back as the text of its last publication, or as
-- its first text if there was none.
pub run_text-last_published :
    (actions : List Action) (c : Cell) (s : Bytes)
    → HoldsText c (record { value = s; changed = false })
    → Writes (Lacks 0) actions
    → (run_text actions c).dirty ≡ false
    → get_string (run_text actions c) ≡ some (last_published actions s s)
unfolding get_string
run_text-last_published actions c s h w e =
    let r : Register = record { value = s; changed = false } in
    let k = run_text-HoldsText actions c r w h in
    ap read_string k.block_lem
    ∙ read_string-c_str (run actions r).value k.plain
    ∙ ap some (run-last_published actions r refl (sym k.dirty_lem ∙ e))
