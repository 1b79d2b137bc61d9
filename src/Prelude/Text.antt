-- ===== src/Prelude/Text.antt =====
-- What the sources use of std::string and of the C library's number conversions.
-- `none` stands for std::string::npos, and for the exception that std::stoi throws.
use Prim.Native.Nat.{◌<◌, ℕ, zero, suc, ◌+◌, ◌-◌, ◌*◌, ◌/◌, ◌%◌, ◌^◌}
use mathlib.Core.Path.{◌≡◌, refl, ap, ◌∙◌, sym}
use mathlib.Core.Logic.{◌≢◌, inl, inr}
use mathlib.Core.Bool.{Bool, true, false, ◌&&◌, ◌||◌}
use mathlib.Core.Option.{Option, none, some}
use mathlib.Core.List.{[], ◌∷◌, ◌++◌}
use native.Mathlib.Nat.{pow-suc}
use native.Mathlib.Omega.{arith}
use cpp_sparkplug.Prelude.Tests.{ltb, leb, ◌==◌, if◌then◌else◌, Bool-cases, ltb→lt}
use cpp_sparkplug.Prelude.Lists.{Bytes, length, take, drop, All, drop-append}
use cpp_sparkplug.Prelude.Int.{ℤ, pos, negsuc}

abbrev pub Lacks : ℕ → Bytes → Type 0
Lacks c = All (λ x. x ≢ c)

pub starts_with : Bytes → Bytes → Bool
starts_with [] s = true
starts_with (c ∷ p) [] = false
starts_with (c ∷ p) (x ∷ s) = x == c && starts_with p s

-- The search from index `i`, where the text `s` that is left begins.
find_from : Bytes → Bytes → ℕ → Option ℕ
find_from p [] i = if starts_with p [] then some i else none
find_from p (x ∷ s) i =
    let rest = find_from p s (suc i) in if starts_with p (x ∷ s) then some i else rest

-- s.find(p, start)
unfoldable pub find : Bytes → Bytes → ℕ → Option ℕ
unfolding find_from starts_with
find p s start = find_from p (drop start s) start

abbrev pub contains : Bytes → Bytes → Bool
contains p s = elim (find p s 0) [ none ↦ false | some _ ↦ true ]

-- s.substr(start, count)
abbrev pub substr : Bytes → ℕ → ℕ → Bytes
substr s start count = take count (drop start s)

pub is_digit : ℕ → Bool
is_digit c = leb b'0' c && leb c b'9'

-- The digits at the head of a text, read onto `acc`.
pub scan : ℕ → Bytes → ℕ
scan acc [] = acc
scan acc (c ∷ s) = let rest = scan (acc * 10 + (c - b'0')) s in if is_digit c then rest else acc

is_space : ℕ → Bool
is_space c = c == b' ' || (leb 9 c && leb c 13)

skip_spaces : Bytes → Bytes
skip_spaces [] = []
skip_spaces (c ∷ s) = let rest = skip_spaces s in if is_space c then rest else c ∷ s

-- An int from the digits, if there is one and the value fits.
digits_to_int : Bool → Bytes → Option ℤ
digits_to_int neg [] = none
digits_to_int neg (c ∷ s) =
    let n = scan 0 (c ∷ s) in
    if is_digit c
    then if neg
      then if leb n (2 ^ 31) then some (if n == 0 then pos 0 else negsuc (n - 1)) else none
      else if ltb n (2 ^ 31)
      then some (pos n)
      else none
    else none

signed : Bytes → Option ℤ
signed [] = none
signed (c ∷ s) =
    if c == b'-'
    then digits_to_int true s
    else if c == b'+'
    then digits_to_int false s
    else digits_to_int false (c ∷ s)

-- std::stoi
unfoldable pub stoi : Bytes → Option ℤ
unfolding is_digit scan is_space skip_spaces digits_to_int signed
stoi s = signed (skip_spaces s)

-- The decimal digits of a number below 10 ^ fuel.
pub decimal : ℕ → ℕ → Bytes
decimal zero n = []
decimal (suc fuel) n =
    let rest = decimal fuel (n / 10) in
    if ltb n 10 then (b'0' + n) ∷ [] else rest ++ (b'0' + n % 10) ∷ []

-- std::to_string of an int, whose magnitude has at most ten digits.
unfoldable pub to_string : ℤ → Bytes
unfolding decimal
to_string (pos n) = decimal 10 n
to_string (negsuc n) = b'-' ∷ decimal 10 (suc n)

starts_with-append : (p s : Bytes) → starts_with p (p ++ s) ≡ true
unfolding starts_with
starts_with-append [] s = refl
starts_with-append (c ∷ p) s = ground (arith, starts_with-append p s)

-- A pattern is found behind a text that lacks the pattern's first byte.
find_from-append :
    (c : ℕ) (p s t : Bytes) (i : ℕ)
    → Lacks c s
    → find_from (c ∷ p) (s ++ (c ∷ (p ++ t))) i ≡ some (i + length s)
unfolding find_from starts_with
find_from-append c p [] t i h = ground (arith, starts_with-append p t)
find_from-append c p (x ∷ s) t i h = ground (arith, find_from-append c p s t (suc i) h.1)

pub find-append :
    (c : ℕ) (p s t : Bytes) → Lacks c s → find (c ∷ p) (s ++ (c ∷ (p ++ t))) 0 ≡ some (length s)
unfolding find
find-append c p s t h = find_from-append c p s t 0 h ∙ ap some (omega arith)

find_from-Lacks : (c : ℕ) (p s : Bytes) (i : ℕ) → Lacks c s → find_from (c ∷ p) s i ≡ none
unfolding find_from starts_with
find_from-Lacks c p [] i h = refl
find_from-Lacks c p (x ∷ s) i h = ground (arith, find_from-Lacks c p s (suc i) h.1)

find_from_here :
    (p s : Bytes) (i : ℕ) → starts_with p s ≡ true → (k : ℕ) × (find_from p s i ≡ some k)
unfolding find_from
find_from_here p [] i h = (i, rw h refl)
find_from_here p (x ∷ s) i h = (i, rw h refl)

find_from_within : (p a b : Bytes) (i : ℕ) → (k : ℕ) × (find_from p (a ++ (p ++ b)) i ≡ some k)
unfolding find_from
find_from_within p [] b i = find_from_here p (p ++ b) i (starts_with-append p b)
find_from_within p (x ∷ a) b i = elim (Bool-cases (starts_with p (x ∷ (a ++ (p ++ b))))) [
  | inl here ↦ (i, rw here refl)
  | inr later ↦ let (k, e) = find_from_within p a b (suc i) in (k, rw later e)
]

-- A text contains each of its parts.
pub contains-append : (p a b : Bytes) → contains p (a ++ (p ++ b)) ≡ true
unfolding find
contains-append p a b =
    let (k, e) = find_from_within p a b 0 in
    ap (λ (o : Option ℕ). elim o [ none ↦ false | some _ ↦ true ]) e

-- The same two facts for a search that begins behind a prefix.
pub find-append_behind :
    (c : ℕ) (p pre s t : Bytes)
    → Lacks c s
    → find (c ∷ p) (pre ++ (s ++ (c ∷ (p ++ t)))) (length pre) ≡ some (length pre + length s)
unfolding find
find-append_behind c p pre s t h =
    rw (drop-append pre (s ++ (c ∷ (p ++ t)))) (find_from-append c p s t (length pre) h)

pub find-Lacks_behind :
    (c : ℕ) (p pre s : Bytes) → Lacks c s → find (c ∷ p) (pre ++ s) (length pre) ≡ none
unfolding find
find-Lacks_behind c p pre s h = rw (drop-append pre s) (find_from-Lacks c p s (length pre) h)

abbrev Digits : Bytes → Type 0
Digits = All (λ c. is_digit c ≡ true)

Digits-snoc : (s : Bytes) (d : ℕ) → d < 10 → Digits s → Digits (s ++ (b'0' + d) ∷ [])
unfolding is_digit
Digits-snoc [] d lt h = (ground arith, tt)
Digits-snoc (x ∷ s) d lt h = (h.0, Digits-snoc s d lt h.1)

scan-snoc :
    (acc : ℕ) (s : Bytes) (d : ℕ)
    → d < 10
    → Digits s
    → scan acc (s ++ (b'0' + d) ∷ []) ≡ scan acc s * 10 + d
unfolding scan is_digit
scan-snoc acc [] d lt h = ground arith
scan-snoc acc (x ∷ s) d lt h = ground (arith, scan-snoc (acc * 10 + (x - b'0')) s d lt h.1)

decimal-Digits : (fuel n : ℕ) → Digits (decimal fuel n)
unfolding decimal
decimal-Digits zero n = tt
decimal-Digits (suc fuel) n = elim (Bool-cases (ltb n 10)) [
  | inl small ↦ rw small (Digits-snoc [] n (ltb→lt n 10 small) tt)
  | inr large ↦
      rw large
        (Digits-snoc (decimal fuel (n / 10)) (n % 10) (omega arith) (decimal-Digits fuel (n / 10)))
]

-- Reading the digits of a number gives the number back.
pub scan-decimal : (fuel n : ℕ) → n < 10 ^ fuel → scan 0 (decimal fuel n) ≡ n
unfolding decimal scan is_digit
scan-decimal zero n h = omega arith
scan-decimal (suc fuel) n h =
    let smaller : n / 10 < 10 ^ fuel = omega (arith, pow-suc 10 fuel) in
    ground (
      arith,
      scan-snoc 0 (decimal fuel (n / 10)) (n % 10) (omega arith) (decimal-Digits fuel (n / 10)),
      scan-decimal fuel (n / 10) smaller,
    )

decimal_head :
    (fuel n : ℕ) → (c : ℕ) × (s : Bytes) × (decimal (suc fuel) n ≡ c ∷ s) × (is_digit c ≡ true)
unfolding decimal is_digit
decimal_head zero n = elim (Bool-cases (ltb n 10)) [
  | inl small ↦ (b'0' + n, [], rw small, ground arith)
  | inr large ↦ (b'0' + n % 10, [], rw large, ground arith)
]
decimal_head (suc fuel) n = elim (Bool-cases (ltb n 10)) [
  | inl small ↦ (b'0' + n, [], rw small, ground arith)
  | inr large ↦
      let (c, s, e, d) = decimal_head fuel (n / 10) in
      (c, s ++ (b'0' + n % 10) ∷ [], rw large (ap (λ (t : Bytes). t ++ (b'0' + n % 10) ∷ []) e), d)
]

stoi_digits :
    (c : ℕ) (s : Bytes)
    → is_digit c ≡ true
    → scan 0 (c ∷ s) < 2 ^ 31
    → stoi (c ∷ s) ≡ some (pos (scan 0 (c ∷ s)))
unfolding stoi
stoi_digits c s d h = ground arith

-- A nonnegative int survives printing and reading.
pub stoi-to_string : (n : ℕ) → n < 2 ^ 31 → stoi (to_string (pos n)) ≡ some (pos n)
unfolding to_string
stoi-to_string n h =
    let (c, s, e, d) = decimal_head 9 n in
    let value : scan 0 (c ∷ s) ≡ n = ap (scan 0) (sym e) ∙ scan-decimal 10 n (omega arith) in
    ap stoi e ∙ stoi_digits c s d (omega arith) ∙ ap (λ k. some (pos k)) value
