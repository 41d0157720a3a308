-- ===== src/Prelude/Distinct.antt =====
-- Duplicate-free lists, and what `set` and `sorted` keep.
use alr_tw.Prelude.Tests.{Eq, ◌==◌, if◌then◌else◌, nat_eq, string_eq, Bool-cases}
use alr_tw.Prelude.Lists.{
  any, contains, contains_iff, dedup, unique, length, non_empty, take, mem-take, filter, in-filter,
  filter-in, all, all-true, all-of_every,
}
use alr_tw.Prelude.Text.{insert_sorted, sort, sorted, sorted_set}
use Prim.Native.Nat.{ℕ, zero, suc, ◌≤◌}
use Prim.Native.String.{String}
use mathlib.Core.Path.{◌≡◌, refl, sym, ap, ◌∙◌}
use mathlib.Core.Logic.{◌↔◌, inl, inr}
use mathlib.Core.Bool.{Bool, true, false, not, ◌||◌}
use mathlib.Core.List.{List, [], ◌∷◌, ◌++◌, Memᴰ}
use native.Mathlib.Omega.{arith}

module _ {ℓ} {A : Type ℓ} ⦃e : Eq A⦄ where
  unfoldable pub distinct : List A → Bool
  distinct [] = true
  distinct (x ∷ xs) = if contains xs x then false else distinct xs

  contains-dedup : (xs : List A) (a : A) → contains (dedup xs) a ≡ contains xs a
  unfolding contains any dedup
  contains-dedup [] a = refl
  contains-dedup (x ∷ xs) a = ground (arith, contains-dedup xs a, e.test_iff a x, e.test_iff x x)

  distinct-dedup : (xs : List A) → distinct (dedup xs) ≡ true
  unfolding dedup distinct
  distinct-dedup [] = refl
  distinct-dedup (x ∷ xs) = ground (arith, contains-dedup xs x, distinct-dedup xs)

  length-dedup-le : (xs : List A) → length (dedup xs) ≤ length xs
  unfolding dedup
  length-dedup-le [] = omega arith
  length-dedup-le (x ∷ xs) = ground (arith, length-dedup-le xs)

  pub unique-eq-distinct : (xs : List A) → unique xs ≡ distinct xs
  unfolding unique distinct dedup
  unique-eq-distinct [] = refl
  unique-eq-distinct (x ∷ xs) = ground (arith, length-dedup-le xs, unique-eq-distinct xs)

-- A text is tested from either side alike.
eq_symm : (s t : String) → (s == t) ≡ (t == s)
eq_symm s t = ground (arith, string_eq.test_iff s t, string_eq.test_iff t s)

contains-insert_sorted :
    (x : String) (ys : List String) (a : String)
    → contains (insert_sorted x ys) a ≡ contains (x ∷ ys) a
unfolding contains any insert_sorted
contains-insert_sorted x [] a = refl
contains-insert_sorted x (y ∷ ys) a = ground (arith, contains-insert_sorted x ys a)

distinct-insert_sorted :
    (x : String) (ys : List String)
    → distinct (insert_sorted x ys) ≡ (if contains ys x then false else distinct ys)
unfolding insert_sorted distinct contains
distinct-insert_sorted x [] = refl
distinct-insert_sorted x (y ∷ ys) =
    ground (arith, contains-insert_sorted x ys y, distinct-insert_sorted x ys, eq_symm x y)

contains-sort : (xs : List String) (a : String) → contains (sort xs) a ≡ contains xs a
unfolding sort contains
contains-sort [] a = refl
contains-sort (x ∷ xs) a = ground (arith, contains-insert_sorted x (sort xs) a, contains-sort xs a)

distinct-sort : (xs : List String) → distinct (sort xs) ≡ distinct xs
unfolding sort distinct
distinct-sort [] = refl
distinct-sort (x ∷ xs) =
    ground (arith, distinct-insert_sorted x (sort xs), contains-sort xs x, distinct-sort xs)

contains-sorted_set : (xs : List String) (a : String) → contains (sorted_set xs) a ≡ contains xs a
unfolding sorted_set
contains-sorted_set xs a = contains-sort (dedup xs) a ∙ contains-dedup xs a

-- `sorted(set(xs))` repeats nothing.
pub unique-sorted_set : (xs : List String) → unique (sorted_set xs) ≡ true
unfolding sorted_set
unique-sorted_set xs =
    unique-eq-distinct (sorted_set xs) ∙ distinct-sort (dedup xs) ∙ distinct-dedup xs

pub mem-sorted_set : (xs : List String) (a : String) → Memᴰ a (sorted_set xs) ↔ Memᴰ a xs
mem-sorted_set xs a = (
  (λ i. (contains_iff xs a).0 (sym (contains-sorted_set xs a) ∙ (contains_iff _ a).1 i)),
  (λ i. (contains_iff _ a).0 (contains-sorted_set xs a ∙ (contains_iff xs a).1 i)),
)

pub mem-sorted : (xs : List String) (a : String) → Memᴰ a (sorted xs) ↔ Memᴰ a xs
unfolding sorted
mem-sorted xs a = (
  (λ i. (contains_iff xs a).0 (sym (contains-sort xs a) ∙ (contains_iff _ a).1 i)),
  (λ i. (contains_iff _ a).0 (contains-sort xs a ∙ (contains_iff xs a).1 i)),
)

pub all-sorted_set : (p : String → Bool) (xs : List String) → all p (sorted_set xs) ≡ all p xs
all-sorted_set p xs = elim (Bool-cases (all p xs)) [
  | inl h ↦ all-of_every p _ (λ x i. all-true p xs h x ((mem-sorted_set xs x).0 i)) ∙ sym h
  | inr h ↦ elim (Bool-cases (all p (sorted_set xs))) [
    | inl g ↦
        absurd
          (let k = all-of_every p xs (λ x i. all-true p _ g x ((mem-sorted_set xs x).1 i)) in cc)
    | inr g ↦ g ∙ sym h
  ]
]

non_empty-of_contains : (xs : List String) (a : String) → contains xs a ≡ true → non_empty xs ≡ true
unfolding contains
non_empty-of_contains [] a h = cc
non_empty-of_contains (x ∷ xs) a h = refl

contains_head : (x : String) (xs : List String) → contains (x ∷ xs) x ≡ true
contains_head x xs = (contains_iff _ x).1 (Memᴰ.head refl)

pub non_empty-sorted_set : (xs : List String) → non_empty (sorted_set xs) ≡ non_empty xs
non_empty-sorted_set [] = unfold sorted_set in refl
non_empty-sorted_set (x ∷ xs) =
    non_empty-of_contains _ x (contains-sorted_set (x ∷ xs) x ∙ contains_head x xs)

module _ {ℓ} {A : Type ℓ} ⦃e : Eq A⦄ where
  mem-dedup : (xs : List A) (a : A) → Memᴰ a xs → Memᴰ a (dedup xs)
  mem-dedup xs a i = (contains_iff _ a).0 (contains-dedup xs a ∙ (contains_iff xs a).1 i)

  dedup-mem : (xs : List A) (a : A) → Memᴰ a (dedup xs) → Memᴰ a xs
  dedup-mem xs a i = (contains_iff xs a).0 (sym (contains-dedup xs a) ∙ (contains_iff _ a).1 i)

  one_value : (xs : List A) (a b : A) → length xs ≤ 1 → Memᴰ a xs → Memᴰ b xs → a ≡ b
  one_value [] a b h i j = elim i [ ]
  one_value (x ∷ []) a b h (Memᴰ.head p) (Memᴰ.head q) = p ∙ sym q
  one_value (x ∷ []) a b h (Memᴰ.tail i) j = elim i [ ]
  one_value (x ∷ []) a b h i (Memᴰ.tail j) = elim j [ ]
  one_value (x ∷ y ∷ xs) a b h i j = absurd (omega arith)

  distinct_head : (xs : List A) (x : A) → distinct (x ∷ xs) ≡ true → contains xs x ≡ true → ⊥
  unfolding distinct
  distinct_head xs x d s = ground arith

  two_values :
      (xs : List A)
      → distinct xs ≡ true
      → ((a b : A) → Memᴰ a xs → Memᴰ b xs → a ≡ b)
      → length xs ≤ 1
  two_values [] d h = omega arith
  two_values (x ∷ []) d h = omega arith
  two_values (x ∷ y ∷ xs) d h =
      let same : x ≡ y = h x y (Memᴰ.head refl) (Memᴰ.tail (Memᴰ.head refl)) in
      let seen : contains (y ∷ xs) x ≡ true = (contains_iff (y ∷ xs) x).1 (Memᴰ.head same) in
      absurd (distinct_head (y ∷ xs) x d seen)

  -- A set has at most one element exactly when all the elements of the list are equal.
  pub length-dedup-le_one :
      (xs : List A) → (length (dedup xs) ≤ 1) ↔ ((a b : A) → Memᴰ a xs → Memᴰ b xs → a ≡ b)
  length-dedup-le_one xs = (
    (λ h a b i j. one_value (dedup xs) a b h (mem-dedup xs a i) (mem-dedup xs b j)),
    (λ h.
        two_values (dedup xs) (distinct-dedup xs)
          (λ a b i j. h a b (dedup-mem xs a i) (dedup-mem xs b j))),
  )

  contains_of-false : (xs : List A) (a : A) → (Memᴰ a xs → ⊥) → contains xs a ≡ false
  contains_of-false xs a h = elim (Bool-cases (contains xs a)) [
    | inl e ↦ absurd (h ((contains_iff xs a).0 e))
    | inr e ↦ e
  ]

  pub distinct-take : (n : ℕ) (xs : List A) → distinct xs ≡ true → distinct (take n xs) ≡ true
  unfolding distinct
  distinct-take zero xs d = refl
  distinct-take (suc n) [] d = refl
  distinct-take (suc n) (x ∷ xs) d = ground (
    arith,
    contains_of-false (take n xs) x
        (λ i. distinct_head xs x d ((contains_iff xs x).1 (mem-take n xs x i))),
    distinct-take n xs,
  )

  contains-append :
      (xs : List A) (y a : A) → contains (xs ++ y ∷ []) a ≡ (contains xs a || (a == y))
  unfolding contains
  contains-append [] y a = ground arith
  contains-append (x ∷ xs) y a = ground (arith, contains-append xs y a)

  pub distinct-append :
      (xs : List A) (y : A)
      → contains xs y ≡ false
      → distinct xs ≡ true
      → distinct (xs ++ y ∷ []) ≡ true
  unfolding distinct contains
  distinct-append [] y c d = refl
  distinct-append (x ∷ xs) y c d =
      ground (arith, contains-append xs y x, distinct-append xs y, e.test_iff x y, e.test_iff y x)

pub unique-sorted : (xs : List String) → unique (sorted xs) ≡ unique xs
unfolding sorted
unique-sorted xs = unique-eq-distinct (sort xs) ∙ distinct-sort xs ∙ sym (unique-eq-distinct xs)

length-insert_sorted :
    (x : String) (ys : List String) → length (insert_sorted x ys) ≡ suc (length ys)
unfolding insert_sorted
length-insert_sorted x [] = refl
length-insert_sorted x (y ∷ ys) = ground (arith, length-insert_sorted x ys)

length-sort : (xs : List String) → length (sort xs) ≡ length xs
unfolding sort
length-sort [] = refl
length-sort (x ∷ xs) = omega (arith, length-insert_sorted x (sort xs), length-sort xs)

pub length-sorted : (xs : List String) → length (sorted xs) ≡ length xs
unfolding sorted
length-sorted xs = length-sort xs

module _ {ℓ} {A : Type ℓ} ⦃e : Eq A⦄ where
  -- `list(dict.fromkeys(xs))`: the first of each
  unfoldable pub firsts : List A → List A
  unfolding filter
  firsts [] = []
  firsts (x ∷ xs) = x ∷ filter (λ y. not (y == x)) (firsts xs)

  pub mem-firsts : (xs : List A) (a : A) → Memᴰ a (firsts xs) ↔ Memᴰ a xs
  unfolding firsts
  mem-firsts [] a = ((λ i. i), (λ i. i))
  mem-firsts (x ∷ xs) a = step (mem-firsts xs a)
    where
      step :
          Memᴰ a (firsts xs) ↔ Memᴰ a xs
          → Memᴰ a (x ∷ filter (λ y. not (y == x)) (firsts xs)) ↔ Memᴰ a (x ∷ xs)
      step rest = (
        elim [
          | Memᴰ.head q ↦ Memᴰ.head q
          | Memᴰ.tail i ↦
              let (j, _) = in-filter (λ y. not (y == x)) (firsts xs) a i in Memᴰ.tail (rest.0 j)
        ],
        elim [
          | Memᴰ.head q ↦ Memᴰ.head q
          | Memᴰ.tail i ↦ elim (Bool-cases (a == x)) [
            | inl q ↦ Memᴰ.head ((e.test_iff a x).0 q)
            | inr q ↦ Memᴰ.tail (filter-in (λ y. not (y == x)) (firsts xs) a (rest.1 i) (ap not q))
          ]
        ],
      )

  absent-filter :
      (p : A → Bool) (xs : List A) (a : A)
      → contains xs a ≡ false
      → contains (filter p xs) a ≡ false
  unfolding contains any filter
  absent-filter p [] a h = refl
  absent-filter p (x ∷ xs) a h = ground (arith, absent-filter p xs a)

  distinct-filter :
      (p : A → Bool) (xs : List A) → distinct xs ≡ true → distinct (filter p xs) ≡ true
  unfolding distinct filter
  distinct-filter p [] h = refl
  distinct-filter p (x ∷ xs) h = ground (arith, distinct-filter p xs, absent-filter p xs x)

  removed : (xs : List A) (x : A) → contains (filter (λ y. not (y == x)) xs) x ≡ false
  unfolding contains any filter
  removed [] x = refl
  removed (z ∷ xs) x = ground (arith, removed xs x, e.test_iff z x, e.test_iff x z, e.test_iff x x)

  pub distinct-firsts : (xs : List A) → distinct (firsts xs) ≡ true
  unfolding firsts distinct
  distinct-firsts [] = refl
  distinct-firsts (x ∷ xs) = rw (removed (firsts xs) x) (distinct-filter _ _ (distinct-firsts xs))
