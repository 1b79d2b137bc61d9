-- ===== src/Memory.antt =====
-- Blocks of memory as lists of bytes, for Metric, Property and their string classes:
-- memcmp, memcpy, std::string::c_str, strdup and the reading of a C string. NULL is the empty block.
-- Sizes are kept beside a block, as in the code; a size beyond the block is a fault of the program,
-- and the lemmas below ask for the sizes that the program means to keep.
use cpp_sparkplug.Prelude.{
  ℕ, ◌+◌, ◌≤◌, ◌<◌, ◌≡◌, refl, ap, ◌∙◌, sym, Bool, not, Option, none, some, [], ◌∷◌, ◌++◌, arith,
  Bytes, length, take, drop, same, take-length, drop-length, append-nil, ◌==◌, if◌then◌else◌,
  length-append,
}
use cpp_sparkplug.Prelude.Text.{Lacks}

-- memcmp(a, b, size) != 0
unfoldable pub differs : Bytes → Bytes → ℕ → Bool
differs a b size = not (same (take size a) (take size b))

-- The block `to` after memcpy(to, from, size).
unfoldable pub memcpy : Bytes → Bytes → ℕ → Bytes
memcpy to from size = take size from ++ drop size to

-- The bytes before the first NUL, which strlen counts.
unfoldable pub before_nul : Bytes → Bytes
before_nul [] = []
before_nul (c ∷ s) = let rest = before_nul s in if c == 0 then [] else c ∷ rest

-- The block behind s.c_str().
abbrev pub c_str : Bytes → Bytes
c_str s = s ++ 0 ∷ []

-- strdup stops at the first NUL.
unfoldable pub strdup : Bytes → Bytes
strdup s = before_nul s ++ 0 ∷ []

-- std::string((char *)block); `none` when the block ends before a NUL.
unfoldable pub read_string : Bytes → Option Bytes
read_string [] = none
read_string (c ∷ s) =
    let rest = read_string s in
    if c == 0 then some [] else elim rest [ none ↦ none | some t ↦ some (c ∷ t) ]

pub differs_iff :
    (a b : Bytes) (size : ℕ)
    → length a ≡ size
    → length b ≡ size
    → (differs a b size ≡ not (same a b))
unfolding differs
differs_iff a b size ha hb =
    let ea : take size a ≡ a = ap (λ n. take n a) (sym ha) ∙ take-length a in
    let eb : take size b ≡ b = ap (λ n. take n b) (sym hb) ∙ take-length b in rw (ea, eb)

-- A whole block is replaced.
pub memcpy_whole :
    (to from : Bytes) (size : ℕ)
    → length to ≡ size
    → length from ≡ size
    → memcpy to from size ≡ from
unfolding memcpy
memcpy_whole to from size ht hf =
    let ef : take size from ≡ from = ap (λ n. take n from) (sym hf) ∙ take-length from in
    let et : drop size to ≡ [] = ap (λ n. drop n to) (sym ht) ∙ drop-length to in
    rw (ef, et, append-nil from)

pub length-c_str : (s : Bytes) → length (c_str s) ≡ length s + 1
length-c_str s = length-append s (0 ∷ [])

pub before_nul-Lacks : (s : Bytes) → Lacks 0 s → before_nul s ≡ s
unfolding before_nul
before_nul-Lacks [] h = refl
before_nul-Lacks (c ∷ s) h = ground (arith, before_nul-Lacks s h.1)

pub strdup-Lacks : (s : Bytes) → Lacks 0 s → strdup s ≡ c_str s
unfolding strdup
strdup-Lacks s h = rw (before_nul-Lacks s h)

-- A text without NULs is read back from its C string.
pub read_string-c_str : (s : Bytes) → Lacks 0 s → read_string (c_str s) ≡ some s
unfolding read_string
read_string-c_str [] h = refl
read_string-c_str (c ∷ s) h = ground (arith, read_string-c_str s h.1)

pub read_string-Lacks : (s : Bytes) → Lacks 0 s → read_string s ≡ none
unfolding read_string
read_string-Lacks [] h = refl
read_string-Lacks (c ∷ s) h = ground (arith, read_string-Lacks s h.1)

-- A text with a NUL inside makes a shorter copy than its length says.
pub length-strdup-le : (s : Bytes) → length (strdup s) ≡ length (before_nul s) + 1
unfolding strdup
length-strdup-le s = length-append (before_nul s) (0 ∷ [])

-- C strings compare as their texts do.
pub same-c_str : (s t : Bytes) → same (c_str s) (c_str t) ≡ same s t
unfolding same
same-c_str [] [] = refl
same-c_str [] (y ∷ []) = ground arith
same-c_str [] (y ∷ z ∷ t) = ground arith
same-c_str (x ∷ []) [] = ground arith
same-c_str (x ∷ w ∷ s) [] = ground arith
same-c_str (x ∷ s) (y ∷ t) = ground (arith, same-c_str s t)

before_nul-le : (a b : Bytes) → length (before_nul (a ++ 0 ∷ b)) ≤ length a
unfolding before_nul
before_nul-le [] b = omega arith
before_nul-le (c ∷ a) b = ground (arith, before_nul-le a b)

-- The copy of a text with a NUL inside is shorter than the text's C string.
pub strdup_short : (a b : Bytes) → length (strdup (a ++ 0 ∷ b)) < length (a ++ 0 ∷ b) + 1
strdup_short a b =
    omega (arith, length-strdup-le (a ++ 0 ∷ b), before_nul-le a b, length-append a (0 ∷ b))
