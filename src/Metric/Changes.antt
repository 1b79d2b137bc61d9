-- ===== src/Metric/Changes.antt =====
-- src/metrics/Metric.cpp and StringMetric.h: the value, the dirty flag and the time of a metric.
use cpp_sparkplug.Prelude.{
  ℕ, ◌+◌, ◌<◌, ◌≢◌, ◌++◌, All, Bytes, false, List, [], ◌∷◌, ◌≡◌, refl, ap, sym, ◌∙◌, some, arith,
  length,
}
use cpp_sparkplug.Prelude.Text.{Lacks}
use cpp_sparkplug.Memory.{read_string, strdup_short}
use cpp_sparkplug.Tahu.{DataType, size_of}
use cpp_sparkplug.Register.{
  Register, Action, write, publish, last_published, differ, writes, run-writes,
}
use cpp_sparkplug.Property.{Cell}
use cpp_sparkplug.Property
use cpp_sparkplug.Property.Changes.{
  HoldsText, Writes, run_cell, run_text, run_cell-last_published, run_text-last_published,
  run_cell-Holds, run_text-HoldsText,
}
use cpp_sparkplug.Metric.{Metric, set_value, set_string, get_string, published}
use cpp_sparkplug.Metric.Simple.{simple, string_metric, simple_block, string_block}

-- A metric has the fields of a property, and treats them as a property does.
abbrev pub cell : Metric → Cell
cell m = record {
  name = m.name;
  data_type = m.data_type;
  size = m.size;
  dirty = m.dirty;
  block = m.block;
}

set_value-cell :
    (v : Bytes) (now : ℕ) (m : Metric) → cell (set_value v now m) ≡ Property.set_value v (cell m)
unfolding set_value Property.set_value
set_value-cell v now m = ground arith

set_string-cell :
    (v : Bytes) (now : ℕ) (m : Metric) → cell (set_string v now m) ≡ Property.set_string v (cell m)
unfolding set_string Property.set_string
set_string-cell v now m = ground arith

published-cell : (m : Metric) → cell (published m) ≡ Property.published (cell m)
unfolding published Property.published
published-cell m = refl

-- A metric under a list of timed actions: writes through setValue, and calls of published.
unfoldable pub run_metric : List (ℕ × Action) → Metric → Metric
run_metric [] m = m
run_metric ((now, write v) ∷ rest) m = run_metric rest (set_value v now m)
run_metric ((now, publish) ∷ rest) m = run_metric rest (published m)

-- The same for a StringMetric.
unfoldable pub run_string : List (ℕ × Action) → Metric → Metric
run_string [] m = m
run_string ((now, write v) ∷ rest) m = run_string rest (set_string v now m)
run_string ((now, publish) ∷ rest) m = run_string rest (published m)

abbrev pub untimed : List (ℕ × Action) → List Action
untimed [] = []
untimed ((now, a) ∷ rest) = a ∷ untimed rest

run_metric-cell :
    (actions : List (ℕ × Action)) (m : Metric)
    → cell (run_metric actions m) ≡ run_cell (untimed actions) (cell m)
unfolding run_metric run_cell
run_metric-cell [] m = refl
run_metric-cell ((now, write v) ∷ rest) m =
    run_metric-cell rest (set_value v now m) ∙ ap (run_cell (untimed rest)) (set_value-cell v now m)
run_metric-cell ((now, publish) ∷ rest) m =
    run_metric-cell rest (published m) ∙ ap (run_cell (untimed rest)) (published-cell m)

run_string-cell :
    (actions : List (ℕ × Action)) (m : Metric)
    → cell (run_string actions m) ≡ run_text (untimed actions) (cell m)
unfolding run_string run_text
run_string-cell [] m = refl
run_string-cell ((now, write v) ∷ rest) m =
    run_string-cell rest (set_string v now m)
    ∙ ap (run_text (untimed rest)) (set_string-cell v now m)
run_string-cell ((now, publish) ∷ rest) m =
    run_string-cell rest (published m) ∙ ap (run_text (untimed rest)) (published-cell m)

-- A new metric with a first value of the size of its type, after any writes of values of that size and
-- publications at any times: if it is not dirty, it holds the value of its last publication, or its
-- first value if there was none.
pub run_metric-last_published :
    (type : DataType) (name value : Bytes) (actions : List (ℕ × Action))
    → length value ≡ size_of type
    → Writes (λ v. length v ≡ size_of type) (untimed actions)
    → (run_metric actions (simple type name value)).dirty ≡ false
    → (run_metric actions (simple type name value)).block
      ≡ last_published (untimed actions) value value
unfolding simple
run_metric-last_published type name value actions e w d =
    let m = simple type name value in
    let (b, s) = simple_block type name value e in
    let same_cell = run_metric-cell actions m in
    ap (λ (c : Cell). c.block) same_cell
    ∙ run_cell-last_published (untimed actions) (cell m) s refl w
        (ap (λ (c : Cell). c.dirty) (sym same_cell) ∙ d)
    ∙ ap (λ u. last_published (untimed actions) u u) b

new-HoldsText :
    (name value : Bytes)
    → Lacks 0 value
    → HoldsText (cell (string_metric name value)) (record { value = value; changed = false })
unfolding string_metric
new-HoldsText name value h = record {
  size_lem = refl;
  block_lem = string_block name value;
  plain = h;
  dirty_lem = refl;
}

-- A new StringMetric with a text without NULs, after any writes of such texts and publications at any
-- times: if it is not dirty, it is read back as the text of its last publication, or as its first text
-- if there was none.
pub run_string-last_published :
    (name value : Bytes) (actions : List (ℕ × Action))
    → Lacks 0 value
    → Writes (Lacks 0) (untimed actions)
    → (run_string actions (string_metric name value)).dirty ≡ false
    → get_string (run_string actions (string_metric name value))
      ≡ some (last_published (untimed actions) value value)
unfolding get_string Property.get_string
run_string-last_published name value actions h w d =
    let m = string_metric name value in
    let same_cell = run_string-cell actions m in
    ap (λ (c : Cell). read_string c.block) same_cell
    ∙ run_text-last_published (untimed actions) (cell m) value (new-HoldsText name value h) w
        (ap (λ (c : Cell). c.dirty) (sym same_cell) ∙ d)

writes-Writes {ℓ} : (P : Bytes → Type ℓ) (vs : List Bytes) → All P vs → Writes P (writes vs)
writes-Writes P [] h = tt
writes-Writes P (v ∷ vs) h = (h.0, writes-Writes P vs h.1)

-- Writes at given times, with no publication between them.
abbrev pub timed : List (ℕ × Bytes) → List (ℕ × Action)
timed [] = []
timed ((now, v) ∷ rest) = (now, write v) ∷ timed rest

abbrev pub values : List (ℕ × Bytes) → List Bytes
values [] = []
values ((now, v) ∷ rest) = v ∷ values rest

untimed-timed : (ws : List (ℕ × Bytes)) → untimed (timed ws) ≡ writes (values ws)
untimed-timed [] = refl
untimed-timed ((now, v) ∷ rest) = ap (◌∷◌ (write v)) (untimed-timed rest)

-- After writes alone, all of values of the size of its type, as its first value is, a new metric is
-- dirty exactly if some value written differs from the one before.
run_metric-dirty :
    (type : DataType) (name value : Bytes) (ws : List (ℕ × Bytes))
    → length value ≡ size_of type
    → All (λ v. length v ≡ size_of type) (values ws)
    → (run_metric (timed ws) (simple type name value)).dirty ≡ differ (values ws) value
unfolding simple
run_metric-dirty type name value ws e h =
    let m = simple type name value in
    let (b, s) = simple_block type name value e in
    let r : Register = record { value = value; changed = false } in
    let held =
      run_cell-Holds (size_of type) (writes (values ws)) (cell m) r refl
        (writes-Writes (λ v. length v ≡ size_of type) (values ws) h)
        (record { sized = s; block_lem = b; dirty_lem = refl }) in
    ap (λ (c : Cell). c.dirty) (run_metric-cell (timed ws) m)
    ∙ ap (λ (l : List Action). (run_cell l (cell m)).dirty) (untimed-timed ws)
    ∙ held.dirty_lem
    ∙ run-writes (values ws) r

-- After writes alone of texts without NULs, a new StringMetric with such a text is dirty exactly if
-- some text written differs from the one before.
run_string-dirty :
    (name value : Bytes) (ws : List (ℕ × Bytes))
    → Lacks 0 value
    → All (Lacks 0) (values ws)
    → (run_string (timed ws) (string_metric name value)).dirty ≡ differ (values ws) value
run_string-dirty name value ws l h =
    let m = string_metric name value in
    let r : Register = record { value = value; changed = false } in
    let held =
      run_text-HoldsText (writes (values ws)) (cell m) r (writes-Writes (Lacks 0) (values ws) h)
        (new-HoldsText name value l) in
    ap (λ (c : Cell). c.dirty) (run_string-cell (timed ws) m)
    ∙ ap (λ (a : List Action). (run_text a (cell m)).dirty) (untimed-timed ws)
    ∙ held.dirty_lem
    ∙ run-writes (values ws) r

-- A text with a NUL inside leaves a StringMetric of another size with a size beyond its block.
pub set_string_overrun :
    (a b : Bytes) (now : ℕ) (m : Metric)
    → m.size ≢ length (a ++ 0 ∷ b) + 1
    → let m' = set_string (a ++ 0 ∷ b) now m in length m'.block < m'.size
unfolding set_string
set_string_overrun a b now m h = ground (arith, strdup_short a b)
