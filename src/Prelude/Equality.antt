-- ===== src/Prelude/Equality.antt =====
-- Equality tests on flags, optional values, pairs; and `Counter`.
use Prim.Native.Nat.{ℕ, suc, ◌<◌}
use mathlib.Core.Path.{◌≡◌}
use mathlib.Core.Logic.{◌↔◌, inl, inr}
use mathlib.Core.Bool.{Bool, true, false, ◌&&◌}
use mathlib.Core.Option.{Option, none, some}
use mathlib.Core.List.{List, [], ◌∷◌, Memᴰ}
use native.Mathlib.Omega.{arith}
use alr_tw.Prelude.Tests.{Eq, ◌==◌, if◌then◌else◌, Bool-cases}

abbrev bool_beq : Bool → Bool → Bool
bool_beq true b = b
bool_beq false true = false
bool_beq false false = true

pub bool_beq_iff : (a b : Bool) → (bool_beq a b ≡ true) ↔ (a ≡ b)
bool_beq_iff a b = ground arith

instance abbrev pub bool_eq : Eq Bool
bool_eq = record { test = bool_beq; test_iff = bool_beq_iff }

module _ {ℓ} {A : Type ℓ} ⦃e : Eq A⦄ where
  abbrev option_beq : Option A → Option A → Bool
  option_beq none none = true
  option_beq (some a) (some b) = a == b
  option_beq _ _ = false

  pub option_beq_iff : (a b : Option A) → (option_beq a b ≡ true) ↔ (a ≡ b)
  option_beq_iff none none = ground arith
  option_beq_iff none (some b) = ground arith
  option_beq_iff (some a) none = ground arith
  option_beq_iff (some a) (some b) = ground (arith, e.test_iff a b)

  instance abbrev pub option_eq : Eq (Option A)
  option_eq = record { test = option_beq; test_iff = option_beq_iff }

  unfoldable pub list_beq : List A → List A → Bool
  list_beq [] [] = true
  list_beq (x ∷ xs) (y ∷ ys) = let rest = list_beq xs ys in if x == y then rest else false
  list_beq _ _ = false

  pub list_beq_iff : (xs ys : List A) → (list_beq xs ys ≡ true) ↔ (xs ≡ ys)
  unfolding list_beq
  list_beq_iff [] [] = ground arith
  list_beq_iff [] (y ∷ ys) = ground arith
  list_beq_iff (x ∷ xs) [] = ground arith
  list_beq_iff (x ∷ xs) (y ∷ ys) = ground (arith, e.test_iff x y, list_beq_iff xs ys)

  instance abbrev pub list_eq : Eq (List A)
  list_eq = record { test = list_beq; test_iff = list_beq_iff }

  -- how often a value occurs
  unfoldable pub count : A → List A → ℕ
  count a [] = 0
  count a (x ∷ xs) = let rest = count a xs in if a == x then suc rest else rest

  pub count-pos : (a : A) (xs : List A) → 0 < count a xs → Memᴰ a xs
  unfolding count
  count-pos a [] h = absurd (omega arith)
  count-pos a (x ∷ xs) h = elim (Bool-cases (a == x)) [
    | inl q ↦ Memᴰ.head ((e.test_iff a x).0 q)
    | inr q ↦ Memᴰ.tail (count-pos a xs (ground arith))
  ]

  pub mem-count : (a : A) (xs : List A) → Memᴰ a xs → 0 < count a xs
  unfolding count
  mem-count a (x ∷ xs) (Memᴰ.head q) = ground (arith, e.test_iff a x)
  mem-count a (x ∷ xs) (Memᴰ.tail i) = ground (arith, mem-count a xs i)
  mem-count a [] i = elim i [ ]

module _ {ℓ κ} {A : Type ℓ} {B : Type κ} ⦃e : Eq A⦄ ⦃d : Eq B⦄ where
  abbrev pair_beq : A × B → A × B → Bool
  pair_beq (a, b) (a', b') = (a == a') && (b == b')

  pub pair_beq_iff : (p q : A × B) → (pair_beq p q ≡ true) ↔ (p ≡ q)
  pair_beq_iff (a, b) (a', b') = ground (arith, e.test_iff a a', d.test_iff b b')

  instance abbrev pub pair_eq : Eq (A × B)
  pair_eq = record { test = pair_beq; test_iff = pair_beq_iff }
