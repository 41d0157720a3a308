-- ===== src/Service/Remaining.antt =====
-- What a step of the research leaves to do: `replace_obligation` and what is outstanding.
use alr_tw.Prelude.{
  ◌≤◌, ◌<◌, Bool, true, false, ◌≡◌, refl, ap, List, [], ◌∷◌, ◌==◌, length, filter, Memᴰ, arith,
  if◌then◌else◌,
}
use alr_tw.Research.Kinds.{kind_eq}
use alr_tw.Research.Run.{ResearchObligation}
use alr_tw.Service.Advance.{is_outstanding, outstanding, replace_obligation}

-- `[u if test(x) else x for x in xs]`, of which `replace_obligation` is the case
module _ {ℓ} {A : Type ℓ} (test : A → Bool) (u : A) where
  substituted : List A → List A
  substituted [] = []
  substituted (x ∷ xs) = (if test x then u else x) ∷ substituted xs

  module _ (p : A → Bool) (done : p u ≡ false) where
    substituted-le : (xs : List A) → length (filter p (substituted xs)) ≤ length (filter p xs)
    unfolding filter substituted
    substituted-le [] = omega arith
    substituted-le (x ∷ xs) = ground (arith, substituted-le xs, done)

    substituted-lt :
        (x : A) (xs : List A)
        → test x ≡ true
        → p x ≡ true
        → Memᴰ x xs
        → length (filter p (substituted xs)) < length (filter p xs)
    unfolding filter substituted
    substituted-lt x [] t h i = elim i [ ]
    substituted-lt x (y ∷ ys) t h (Memᴰ.head e) =
        let t' : test y ≡ true = rw e at t in
        let h' : p y ≡ true = rw e at h in ground (arith, substituted-le ys, done)
    substituted-lt x (y ∷ ys) t h (Memᴰ.tail i) = ground (arith, substituted-lt x ys t h i, done)

  mem-substituted : (x : A) (xs : List A) → test x ≡ true → Memᴰ x xs → Memᴰ u (substituted xs)
  unfolding substituted
  mem-substituted x [] t i = elim i [ ]
  mem-substituted x (y ∷ ys) t (Memᴰ.head e) =
      let t' : test y ≡ true = rw e at t in rw t' (Memᴰ.head refl)
  mem-substituted x (y ∷ ys) t (Memᴰ.tail i) = Memᴰ.tail (mem-substituted x ys t i)

module _ (updated : ResearchObligation) where
  replace-eq :
      (items : List ResearchObligation)
      → replace_obligation updated items
        ≡ substituted (λ item. item.kind == updated.kind) updated items
  unfolding replace_obligation substituted
  replace-eq [] = refl
  replace-eq (item ∷ items) =
      ap (λ rest. (if item.kind == updated.kind then updated else item) ∷ rest) (replace-eq items)

  module _ (item : ResearchObligation) (items : List ResearchObligation)
      (same : (item.kind == updated.kind) ≡ true) (i : Memᴰ item items) where
    -- An obligation that is done is taken off what is outstanding.
    pub outstanding-replace-lt :
        is_outstanding updated ≡ false
        → is_outstanding item ≡ true
        → length (outstanding (replace_obligation updated items)) < length (outstanding items)
    unfolding outstanding
    outstanding-replace-lt done h = rw (replace-eq items) (
        substituted-lt (λ item. item.kind == updated.kind) updated is_outstanding done item items
          same h i)

    -- The updated obligation stands among those that replace it.
    pub mem-replace_obligation : Memᴰ updated (replace_obligation updated items)
    mem-replace_obligation =
        rw (replace-eq items)
          (mem-substituted (λ item. item.kind == updated.kind) updated item items same i)
