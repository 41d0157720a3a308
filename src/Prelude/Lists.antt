-- ===== src/Prelude/Lists.antt =====
-- Lists under Boolean tests: what the program's comprehensions, `in` and `set` compute.
use Prim.Native.Nat.{ℕ, zero, suc, min}
use mathlib.Core.Path.{◌≡◌, refl, sym, subst, ap}
use mathlib.Core.Logic.{◌≢◌, ◌↔◌, ◌⊎◌, inl, inr}
use mathlib.Core.Bool.{Bool, true, false, ◌&&◌, ◌||◌}
use mathlib.Core.List.{List, [], ◌∷◌, ◌++◌, map, Memᴰ}
use native.Mathlib.Omega.{arith}
use alr_tw.Prelude.Tests.{if◌then◌else◌, Eq, ◌==◌, Bool-cases, nat_eq}

module _ {ℓ} {A : Type ℓ} where
  abbrev pub length : List A → ℕ
  length [] = 0
  length (x ∷ xs) = suc (length xs)

  abbrev pub take : ℕ → List A → List A
  take zero xs = []
  take (suc n) [] = []
  take (suc n) (x ∷ xs) = x ∷ take n xs

  abbrev pub drop : ℕ → List A → List A
  drop zero xs = xs
  drop (suc n) [] = []
  drop (suc n) (x ∷ xs) = drop n xs

  -- Python's `bool(xs)`
  abbrev pub non_empty : List A → Bool
  non_empty [] = false
  non_empty (x ∷ xs) = true

  pub non_empty-false : (xs : List A) → non_empty xs ≡ false → xs ≡ []
  non_empty-false [] h = refl
  non_empty-false (x ∷ xs) h = cc

  pub non_empty-of_ne : (xs : List A) → xs ≢ [] → non_empty xs ≡ true
  non_empty-of_ne [] h = absurd (h refl)
  non_empty-of_ne (x ∷ xs) h = refl

  -- `[x for x in xs if p(x)]`
  unfoldable pub filter : (A → Bool) → List A → List A
  filter p [] = []
  filter p (x ∷ xs) = let rest = filter p xs in if p x then x ∷ rest else rest

  -- `any(p(x) for x in xs)`
  unfoldable pub any : (A → Bool) → List A → Bool
  any p [] = false
  any p (x ∷ xs) = let rest = any p xs in if p x then true else rest

  -- `all(p(x) for x in xs)`
  unfoldable pub all : (A → Bool) → List A → Bool
  all p [] = true
  all p (x ∷ xs) = let rest = all p xs in if p x then rest else false

  pub non_empty-filter : (p : A → Bool) (xs : List A) → non_empty (filter p xs) ≡ any p xs
  unfolding filter any
  non_empty-filter p [] = refl
  non_empty-filter p (x ∷ xs) = ground (arith, non_empty-filter p xs)

  pub any-false :
      (p : A → Bool) (xs : List A) → any p xs ≡ false → (x : A) → Memᴰ x xs → p x ≡ false
  unfolding any
  any-false p [] h x i = elim i [ ]
  any-false p (y ∷ ys) h x (Memᴰ.head e) = ground arith
  any-false p (y ∷ ys) h x (Memᴰ.tail i) = any-false p ys (ground arith) x i

  pub any-of_none :
      (p : A → Bool) (xs : List A) → ((x : A) → Memᴰ x xs → p x ≡ false) → any p xs ≡ false
  unfolding any
  any-of_none p [] h = refl
  any-of_none p (y ∷ ys) h =
      ground (arith, h y (Memᴰ.head refl), any-of_none p ys (λ x i. h x (Memᴰ.tail i)))

  pub any-true : (p : A → Bool) (xs : List A) → any p xs ≡ true → (x : A) × Memᴰ x xs × (p x ≡ true)
  unfolding any
  any-true p [] h = cc
  any-true p (y ∷ ys) h = elim (Bool-cases (p y)) [
    | inl e ↦ (y, Memᴰ.head refl, e)
    | inr e ↦ (let (x, i, q) = any-true p ys (ground arith) in (x, Memᴰ.tail i, q))
  ]

  pub any-of_some : (p : A → Bool) (xs : List A) (x : A) → Memᴰ x xs → p x ≡ true → any p xs ≡ true
  unfolding any
  any-of_some p [] x i q = elim i [ ]
  any-of_some p (y ∷ ys) x (Memᴰ.head e) q = ground arith
  any-of_some p (y ∷ ys) x (Memᴰ.tail i) q = ground (arith, any-of_some p ys x i q)

  pub all-append : (p : A → Bool) (xs ys : List A) → all p (xs ++ ys) ≡ (all p xs && all p ys)
  unfolding all
  all-append p [] ys = refl
  all-append p (x ∷ xs) ys = ground (arith, all-append p xs ys)

  pub all-true : (p : A → Bool) (xs : List A) → all p xs ≡ true → (x : A) → Memᴰ x xs → p x ≡ true
  unfolding all
  all-true p [] h x i = elim i [ ]
  all-true p (y ∷ ys) h x (Memᴰ.head e) = ground arith
  all-true p (y ∷ ys) h x (Memᴰ.tail i) = all-true p ys (ground arith) x i

  pub all-of_every :
      (p : A → Bool) (xs : List A) → ((x : A) → Memᴰ x xs → p x ≡ true) → all p xs ≡ true
  unfolding all
  all-of_every p [] h = refl
  all-of_every p (y ∷ ys) h =
      ground (arith, h y (Memᴰ.head refl), all-of_every p ys (λ x i. h x (Memᴰ.tail i)))

  abbrev filtered : Bool → A → List A → List A
  filtered b x rest = if b then x ∷ rest else rest

  filtered_step :
      (p : A → Bool) (b : Bool) (x y : A) (ys rest : List A)
      → p y ≡ b
      → (Memᴰ x rest → Memᴰ x ys × (p x ≡ true))
      → Memᴰ x (filtered b y rest)
      → Memᴰ x (y ∷ ys) × (p x ≡ true)
  filtered_step p true x y ys rest e ih (Memᴰ.head r) = (Memᴰ.head r, rw r e)
  filtered_step p true x y ys rest e ih (Memᴰ.tail i) = let (j, q) = ih i in (Memᴰ.tail j, q)
  filtered_step p false x y ys rest e ih i = let (j, q) = ih i in (Memᴰ.tail j, q)

  pub in-filter :
      (p : A → Bool) (xs : List A) (x : A) → Memᴰ x (filter p xs) → Memᴰ x xs × (p x ≡ true)
  unfolding filter
  in-filter p [] x i = elim i [ ]
  in-filter p (y ∷ ys) x i = filtered_step p (p y) x y ys (filter p ys) refl (in-filter p ys x) i

  pub filter-in :
      (p : A → Bool) (xs : List A) (x : A) → Memᴰ x xs → p x ≡ true → Memᴰ x (filter p xs)
  unfolding filter
  filter-in p [] x i q = elim i [ ]
  filter-in p (y ∷ ys) x (Memᴰ.head e) q =
      let here : p y ≡ true = rw e at q in rw here (Memᴰ.head e)
  filter-in p (y ∷ ys) x (Memᴰ.tail i) q = elim (Bool-cases (p y)) [
    | inl e ↦ rw e (Memᴰ.tail (filter-in p ys x i q))
    | inr e ↦ rw e (filter-in p ys x i q)
  ]

module _ {ℓ} {A : Type ℓ} ⦃e : Eq A⦄ where
  -- `a in xs`
  unfoldable pub contains : List A → A → Bool
  unfolding any
  contains xs a = any (λ x. a == x) xs

  pub contains_iff : (xs : List A) (a : A) → (contains xs a ≡ true) ↔ Memᴰ a xs
  unfolding contains
  contains_iff xs a = (to, λ i. any-of_some _ xs a i ((e.test_iff a a).1 refl))
    where
      to : any (λ x. a == x) xs ≡ true → Memᴰ a xs
      to h =
          let (x, i, q) = any-true (λ x. a == x) xs h in
          subst (λ z. Memᴰ z xs) (sym ((e.test_iff a x).0 q)) i

  -- `set(xs)`: which of several equal elements is kept does not show
  unfoldable pub dedup : List A → List A
  unfolding contains any
  dedup [] = []
  dedup (x ∷ xs) = let rest = dedup xs in if contains xs x then rest else x ∷ rest

  -- `len(xs) == len(set(xs))`
  unfoldable pub unique : List A → Bool
  unfolding dedup
  unique xs = length xs == length (dedup xs)

module _ {ℓ κ} {A : Type ℓ} {B : Type κ} where
  pub non_empty-map : (f : A → B) (xs : List A) → non_empty (map f xs) ≡ non_empty xs
  non_empty-map f [] = refl
  non_empty-map f (x ∷ xs) = refl

module _ {ℓ} {A : Type ℓ} where
  pub non_empty-append : (xs ys : List A) → non_empty (xs ++ ys) ≡ (non_empty xs || non_empty ys)
  non_empty-append [] ys = refl
  non_empty-append (x ∷ xs) ys = refl

module _ {ℓ κ} {A : Type ℓ} (P : A → Type κ) where
  -- every element has the property
  abbrev pub All : List A → Type κ
  All [] = Unit
  All (x ∷ xs) = P x × All xs

module _ {ℓ} {A : Type ℓ} where
  pub mem-append_left : (x : A) (xs ys : List A) → Memᴰ x xs → Memᴰ x (xs ++ ys)
  mem-append_left x [] ys i = elim i [ ]
  mem-append_left x (z ∷ xs) ys (Memᴰ.head e) = Memᴰ.head e
  mem-append_left x (z ∷ xs) ys (Memᴰ.tail i) = Memᴰ.tail (mem-append_left x xs ys i)

  pub mem-append_cases : (x : A) (xs ys : List A) → Memᴰ x (xs ++ ys) → Memᴰ x xs ⊎ Memᴰ x ys
  mem-append_cases x [] ys i = inr i
  mem-append_cases x (z ∷ xs) ys (Memᴰ.head e) = inl (Memᴰ.head e)
  mem-append_cases x (z ∷ xs) ys (Memᴰ.tail i) = elim (mem-append_cases x xs ys i) [
    | inl j ↦ inl (Memᴰ.tail j)
    | inr j ↦ inr j
  ]

  pub mem-append_right : (x : A) (xs ys : List A) → Memᴰ x ys → Memᴰ x (xs ++ ys)
  mem-append_right x [] ys i = i
  mem-append_right x (z ∷ xs) ys i = Memᴰ.tail (mem-append_right x xs ys i)

module _ {ℓ κ} {A : Type ℓ} {B : Type κ} where
  pub mem-map : (f : A → B) (x : A) (xs : List A) → Memᴰ x xs → Memᴰ (f x) (map f xs)
  mem-map f x [] i = elim i [ ]
  mem-map f x (z ∷ xs) (Memᴰ.head e) = Memᴰ.head (ap f e)
  mem-map f x (z ∷ xs) (Memᴰ.tail i) = Memᴰ.tail (mem-map f x xs i)

  pub map-mem :
      (f : A → B) (y : B) (xs : List A) → Memᴰ y (map f xs) → (x : A) × Memᴰ x xs × (y ≡ f x)
  map-mem f y [] i = elim i [ ]
  map-mem f y (z ∷ xs) (Memᴰ.head e) = (z, Memᴰ.head refl, e)
  map-mem f y (z ∷ xs) (Memᴰ.tail i) = let (x, j, q) = map-mem f y xs i in (x, Memᴰ.tail j, q)

module _ {ℓ} {A : Type ℓ} where
  pub length-take : (n : ℕ) (xs : List A) → length (take n xs) ≡ min n (length xs)
  length-take zero xs = omega arith
  length-take (suc n) [] = omega arith
  length-take (suc n) (x ∷ xs) = omega (arith, length-take n xs)

  pub mem-take : (n : ℕ) (xs : List A) (x : A) → Memᴰ x (take n xs) → Memᴰ x xs
  mem-take zero xs x i = elim i [ ]
  mem-take (suc n) [] x i = elim i [ ]
  mem-take (suc n) (y ∷ xs) x (Memᴰ.head e) = Memᴰ.head e
  mem-take (suc n) (y ∷ xs) x (Memᴰ.tail i) = Memᴰ.tail (mem-take n xs x i)
