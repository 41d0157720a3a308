-- ===== src/Storage/Integrity/References.antt =====
-- How references fare when rows are inserted, updated and deleted.
use alr_tw.Prelude.{
  Bool, true, false, not, ◌||◌, ◌≡◌, sym, ◌∙◌, ap, List, [], ◌∷◌, ◌++◌, arith, Eq, ◌==◌,
  if◌then◌else◌, filter, Bool-cases, inl, inr,
}
use alr_tw.Storage.Tables.{
  delete_where, update_where, has, cascade, has-filter, has-kept, has-filter-key, has-append,
  has-update,
}
use alr_tw.Storage.Integrity.{Refers}

module _ {ℓ κ} {A : Type ℓ} {K : Type κ} ⦃e : Eq K⦄ (key : A → K) where
  pub Refers-filter :
      (p : A → Bool) (rows : List A) (parent : K → Bool)
      → Refers (has key rows) parent
      → Refers (has key (filter p rows)) parent
  Refers-filter p rows parent h k i = h k (has-filter key p rows k i)

  pub Refers-insert :
      (r : A) (rows : List A) (parent : K → Bool)
      → Refers (has key rows) parent
      → parent (key r) ≡ true
      → Refers (has key (r ∷ rows)) parent
  unfolding has
  Refers-insert r rows parent h there k i = elim (Bool-cases (k == key r)) [
    | inl q ↦ ap parent ((e.test_iff k (key r)).0 q) ∙ there
    | inr q ↦ h k (ground arith)
  ]

  pub Refers-upsert :
      (b : Bool) (r : A) (rows : List A) (parent : K → Bool)
      → Refers (has key rows) parent
      → parent (key r) ≡ true
      → Refers (has key (if b then rows else r ∷ rows)) parent
  Refers-upsert true r rows parent h there = h
  Refers-upsert false r rows parent h there = Refers-insert r rows parent h there

  -- the rows of one key value, put in front of others
  pub Refers-append :
      (xs ys : List A) (parent : K → Bool)
      → Refers (has key xs) parent
      → Refers (has key ys) parent
      → Refers (has key (xs ++ ys)) parent
  Refers-append xs ys parent hx hy k i = elim (Bool-cases (has key xs k)) [
    | inl q ↦ hx k q
    | inr q ↦ hy k (ground (arith, has-append key xs ys k))
  ]

  pub Refers-update :
      (p : A → Bool) (set : A → A) (rows : List A) (parent : K → Bool)
      → ((r : A) → p r ≡ true → key (set r) ≡ key r)
      → Refers (has key rows) parent
      → Refers (has key (update_where p set rows)) parent
  Refers-update p set rows parent same h k i = h k (sym (has-update key p set rows k same) ∙ i)

  has-replaced :
      (p : A → Bool) (row : A) (rows : List A) (k : K)
      → has key (update_where p (λ r. row) rows) k ≡ true
      → (has key rows k || (k == key row)) ≡ true
  unfolding has update_where
  has-replaced p row [] k h = cc
  has-replaced p row (r ∷ rows) k h = ground (arith, has-replaced p row rows k)

  pub Refers-replace :
      (p : A → Bool) (row : A) (rows : List A) (parent : K → Bool)
      → Refers (has key rows) parent
      → parent (key row) ≡ true
      → Refers (has key (update_where p (λ r. row) rows)) parent
  Refers-replace p row rows parent h there k i = elim (Bool-cases (k == key row)) [
    | inl q ↦ ap parent ((e.test_iff k (key row)).0 q) ∙ there
    | inr q ↦ h k (ground (arith, has-replaced p row rows k i))
  ]

  -- a parent that grows still has its rows
  pub parent_insert :
      (child : K → Bool) (r : A) (rows : List A)
      → Refers child (has key rows)
      → Refers child (has key (r ∷ rows))
  unfolding has
  parent_insert child r rows h k i = ground (arith, h k i)

  pub parent_upsert :
      (b : Bool) (child : K → Bool) (r : A) (rows : List A)
      → Refers child (has key rows)
      → Refers child (has key (if b then rows else r ∷ rows))
  parent_upsert true child r rows h = h
  parent_upsert false child r rows h = parent_insert child r rows h

  pub parent-update :
      (child : K → Bool) (p : A → Bool) (set : A → A) (rows : List A)
      → ((r : A) → p r ≡ true → key (set r) ≡ key r)
      → Refers child (has key rows)
      → Refers child (has key (update_where p set rows))
  parent-update child p set rows same h k i = has-update key p set rows k same ∙ h k i

module _ {ℓ κ μ} {A : Type ℓ} {B : Type κ} {K : Type μ} ⦃e : Eq K⦄ (key : A → K)
    (parent : B → K) where
  -- The rows that a deletion takes along are those that would refer to nothing.
  pub Refers-cascade :
      (p : B → Bool) (children : List A) (parents : List B)
      → Refers (has key children) (has parent parents)
      → Refers
          (has key (cascade key (has parent (filter p parents)) children))
          (has parent (delete_where p parents))
  unfolding cascade
  Refers-cascade p children parents h k i =
      let found = has-filter-key key (λ j. not (has parent (filter p parents) j)) children k in
      has-kept parent p parents k (h k (ground arith)) (ground arith)

-- Children and parents of which the same keys are kept.
module _ {ℓ κ μ} {A : Type ℓ} {B : Type κ} {K : Type μ} ⦃e : Eq K⦄ (key : A → K)
    (parent : B → K) where
  pub Refers-together :
      (q : K → Bool) (children : List A) (parents : List B)
      → Refers (has key children) (has parent parents)
      → Refers
          (has key (filter (λ r. q (key r)) children))
          (has parent (filter (λ r. q (parent r)) parents))
  Refers-together q children parents h k i = elim (Bool-cases (has key children k)) [
    | inl there ↦
        ground
          (arith, has-filter-key key q children k, has-filter-key parent q parents k, h k there)
    | inr absent ↦ ground (arith, has-filter-key key q children k)
  ]
