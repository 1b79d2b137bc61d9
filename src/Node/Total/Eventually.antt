-- ===== src/Node/Total/Eventually.antt =====
-- src/Node.cpp: computations that return with all fuel from some amount on, with one result.
use cpp_sparkplug.Prelude.{
  ℕ, ◌+◌, ◌≤◌, Bool, true, false, Option, none, some, ◌≡◌, refl, arith, if◌then◌else◌,
}
use cpp_sparkplug.Node.World.{World}
use cpp_sparkplug.Node.Total.{Sure}

abbrev pub Eventually :
    {S P A : Type 0} → (ℕ → Option (World S P × A)) → (World S P × A → Type 0) → Type 0
Eventually {S} {P} {A} f Q =
    (fuel : ℕ) × (x : World S P × A) × ((more : ℕ) → fuel ≤ more → f more ≡ some x) × Q x

module _ {S P : Type 0} where
  -- A computation without fuel.
  pub Eventually-sure :
      {A : Type 0} {Q : World S P × A → Type 0} {o : Option (World S P × A)}
      → Sure Q o
      → Eventually (λ fuel. o) Q
  Eventually-sure (x, e, q) = (0, x, λ more _. e, q)

  -- With fuel for both, the one after the other returns.
  pub Eventually-then :
      {A B : Type 0} {Q : World S P × A → Type 0} {R : World S P × B → Type 0}
      {f : ℕ → Option (World S P × A)} {g : World S P × A → ℕ → Option (World S P × B)}
      → Eventually f Q
      → ((x : World S P × A) → Q x → Eventually (g x) R)
      → Eventually (λ fuel. elim (f fuel) [ none ↦ none | some x ↦ g x fuel ]) R
  Eventually-then {A} {B} {Q} {R} {f} {g} (n, x, e, q) k =
      let (m, y, s, r) = k x q in
      (
        n + m,
        y,
        λ more le. ground (arith, e more (omega (arith, le)), s more (omega (arith, le))),
        r,
      )

  pub Eventually-if :
      {A : Type 0} {Q : World S P × A → Type 0} (b : Bool)
      (m n : ℕ → World S P → Option (World S P × A)) (w : World S P)
      → (b ≡ true → Eventually (λ fuel. m fuel w) Q)
      → (b ≡ false → Eventually (λ fuel. n fuel w) Q)
      → Eventually (λ fuel. (if b then m fuel else n fuel) w) Q
  Eventually-if true m n w p q = p refl
  Eventually-if false m n w p q = q refl
