-- ===== src/Node/Only.antt =====
-- src/Node.cpp: combinators for what holds of the result of a method of the node, if it returns.
use cpp_sparkplug.Prelude.{
  Bool, true, false, Option, none, some, ◌≡◌, refl, arith, subst, if◌then◌else◌, then_some,
}
use cpp_sparkplug.Node.World.{World, M}

abbrev pub Only : {S P A : Type 0} → (World S P × A → Type 0) → Option (World S P × A) → Type 0
Only {S} {P} {A} Q o = (x : World S P × A) → o ≡ some x → Q x

module _ {S P : Type 0} where
  pub Only-some :
      {A : Type 0} (Q : World S P × A → Type 0) (y : World S P × A) → Q y → Only Q (some y)
  Only-some Q y h x e = let same : y ≡ x = ground (arith, e) in subst Q same h

  pub Only-none : {A : Type 0} (Q : World S P × A → Type 0) → Only Q none
  Only-none Q x e = cc

  pub Only-then :
      {A B : Type 0} {Q : World S P × A → Type 0} {R : World S P × B → Type 0}
      {o : Option (World S P × A)} {g : World S P × A → Option (World S P × B)}
      → Only Q o
      → ((x : World S P × A) → Q x → Only R (g x))
      → Only R (elim o [ none ↦ none | some x ↦ g x ])
  Only-then {A} {B} {Q} {R} {o} {g} h k y e =
      let (x, first, rest) = then_some o g y e in k x (h x first) y rest

  pub Only-if :
      {A : Type 0} {Q : World S P × A → Type 0} (b : Bool) (m n : M S P A) (w : World S P)
      → (b ≡ true → Only Q (m w))
      → (b ≡ false → Only Q (n w))
      → Only Q ((if b then m else n) w)
  Only-if true m n w p q = p refl
  Only-if false m n w p q = q refl

  pub Only-elim :
      {A B : Type 0} {Q : World S P × A → Type 0} (o : Option B) (m : M S P A) (f : B → M S P A)
      (w : World S P)
      → (o ≡ none → Only Q (m w))
      → ((b : B) → o ≡ some b → Only Q (f b w))
      → Only Q ((elim o as (λ x. M S P A) [ none ↦ m | some b ↦ f b ]) w)
  Only-elim none m f w p q = p refl
  Only-elim (some b) m f w p q = q b refl

  pub Only-choose :
      {A : Type 0} {Q : World S P × A → Type 0} (b : Bool) (o p : Option (World S P × A))
      → Only Q o
      → Only Q p
      → Only Q (if b then o else p)
  Only-choose true o p h k = h
  Only-choose false o p h k = k
