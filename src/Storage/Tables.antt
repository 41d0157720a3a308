-- ===== src/Storage/Tables.antt =====
-- Tables as lists of rows: the statements of SQL that src/alr_tw/storage/sqlite_store.py uses. The
-- order of the rows of a table is not observed but through ORDER BY.
use alr_tw.Prelude.{
  ℕ, ◌+◌, ◌≤◌, Bool, true, false, not, ◌&&◌, ◌||◌, ◌≡◌, refl, Option, none, some, List, [], ◌∷◌,
  arith, Eq, ◌==◌, if◌then◌else◌, filter, Bool-cases, inl, inr, ◌++◌, map, ap, contains, any,
  distinct,
}

module _ {ℓ} {A : Type ℓ} where
  -- `DELETE FROM rows WHERE p`
  unfoldable pub delete_where : (A → Bool) → List A → List A
  unfolding filter
  delete_where p rows = filter (λ r. not (p r)) rows

  -- `UPDATE rows SET … WHERE p`
  unfoldable pub update_where : (A → Bool) → (A → A) → List A → List A
  update_where p set [] = []
  update_where p set (r ∷ rows) = (if p r then set r else r) ∷ update_where p set rows

module _ {ℓ κ} {A : Type ℓ} {K : Type κ} ⦃e : Eq K⦄ (key : A → K) where
  -- `SELECT 1 FROM rows WHERE key = k`
  unfoldable pub has : List A → K → Bool
  has [] k = false
  has (r ∷ rows) k = (k == key r) || has rows k

  -- the row of a key
  unfoldable pub find : K → List A → Option A
  find k [] = none
  find k (r ∷ rows) = if k == key r then some r else find k rows

  -- `SELECT … WHERE key = k`
  unfoldable pub select : K → List A → List A
  unfolding filter
  select k rows = filter (λ r. k == key r) rows

  -- ON DELETE CASCADE: the rows whose key is not among those deleted
  unfoldable pub cascade : (K → Bool) → List A → List A
  unfolding filter
  cascade gone rows = filter (λ r. not (gone (key r))) rows

  -- PRIMARY KEY and UNIQUE: no two rows have one key
  unfoldable pub keyed : List A → Bool
  keyed [] = true
  keyed (r ∷ rows) = not (has rows (key r)) && keyed rows

  pub has-filter :
      (p : A → Bool) (rows : List A) (k : K) → has (filter p rows) k ≡ true → has rows k ≡ true
  unfolding has filter
  has-filter p [] k h = h
  has-filter p (r ∷ rows) k h = ground (arith, has-filter p rows k)

  pub find-none : (k : K) (rows : List A) → find k rows ≡ none → has rows k ≡ false
  unfolding find has
  find-none k [] h = refl
  find-none k (r ∷ rows) h = ground (arith, find-none k rows)

  pub find-some :
      (k : K) (rows : List A) (r : A) → find k rows ≡ some r → (has rows k ≡ true) × (key r ≡ k)
  unfolding find has
  find-some k [] r h = cc
  find-some k (x ∷ rows) r h = ground (arith, find-some k rows r, e.test_iff k (key x))

  pub keyed-filter :
      (p : A → Bool) (rows : List A) → keyed rows ≡ true → keyed (filter p rows) ≡ true
  unfolding keyed filter
  keyed-filter p [] h = refl
  keyed-filter p (r ∷ rows) h = ground (arith, keyed-filter p rows, has-filter p rows (key r))

  pub has-kept :
      (p : A → Bool) (rows : List A) (k : K)
      → has rows k ≡ true
      → has (filter p rows) k ≡ false
      → has (delete_where p rows) k ≡ true
  unfolding has filter delete_where
  has-kept p [] k h g = h
  has-kept p (r ∷ rows) k h g = ground (arith, has-kept p rows k)

  pub has-update :
      (p : A → Bool) (set : A → A) (rows : List A) (k : K)
      → ((r : A) → p r ≡ true → key (set r) ≡ key r)
      → has (update_where p set rows) k ≡ has rows k
  unfolding has update_where
  has-update p set [] k same = refl
  has-update p set (r ∷ rows) k same = ground (arith, same r, has-update p set rows k same)

  pub keyed-update :
      (p : A → Bool) (set : A → A) (rows : List A)
      → ((r : A) → p r ≡ true → key (set r) ≡ key r)
      → keyed (update_where p set rows) ≡ keyed rows
  unfolding keyed update_where
  keyed-update p set [] same = refl
  keyed-update p set (r ∷ rows) same =
      ground (arith, same r, keyed-update p set rows same, has-update p set rows (key r) same)

  -- A selection by the key itself.
  pub has-filter-key :
      (q : K → Bool) (rows : List A) (k : K)
      → has (filter (λ r. q (key r)) rows) k ≡ (has rows k && q k)
  unfolding has filter
  has-filter-key q [] k = refl
  has-filter-key q (r ∷ rows) k = elim (Bool-cases (k == key r)) [
    | inl eq ↦
        (let same : k ≡ key r = (e.test_iff k (key r)).0 eq in
          ground (arith, has-filter-key q rows k, same, ap q same))
    | inr ne ↦ ground (arith, has-filter-key q rows k)
  ]

  pub has-append : (xs ys : List A) (k : K) → has (xs ++ ys) k ≡ (has xs k || has ys k)
  unfolding has
  has-append [] ys k = refl
  has-append (x ∷ xs) ys k = ground (arith, has-append xs ys k)

  pub keyed-append :
      (xs ys : List A)
      → keyed xs ≡ true
      → keyed ys ≡ true
      → ((k : K) → has xs k ≡ true → has ys k ≡ false)
      → keyed (xs ++ ys) ≡ true
  unfolding keyed has
  keyed-append [] ys hx hy apart = hy
  keyed-append (x ∷ xs) ys hx hy apart = ground (
    arith,
    has-append xs ys (key x),
    apart (key x) (ground (arith, e.test_iff (key x) (key x))),
    keyed-append xs ys (ground arith) hy (λ k h. apart k (ground (arith, h))),
  )

  pub keyed_insert :
      (r : A) (rows : List A)
      → keyed rows ≡ true
      → keyed (if has rows (key r) then rows else r ∷ rows) ≡ true
  unfolding keyed
  keyed_insert r rows h = ground arith

  pub has_insert :
      (r : A) (rows : List A) (k : K)
      → has (if has rows (key r) then rows else r ∷ rows) k ≡ (has rows k || (k == key r))
  unfolding has
  has_insert r rows k = elim (Bool-cases (has rows (key r))) [
    | inl old ↦ elim (Bool-cases (k == key r)) [
      | inl eq ↦
          (let same : k ≡ key r = (e.test_iff k (key r)).0 eq in
            ground (arith, same, old, ap (has rows) same))
      | inr ne ↦ ground arith
    ]
    | inr new ↦ ground arith
  ]

module _ {ℓ κ μ} {A : Type ℓ} {B : Type κ} {K : Type μ} ⦃e : Eq K⦄ (key : B → K) (row : A → B) where
  pub has-map : (xs : List A) (k : K) → has key (map row xs) k ≡ has (λ x. key (row x)) xs k
  unfolding has
  has-map [] k = refl
  has-map (x ∷ xs) k = ground (arith, has-map xs k)

  pub keyed-map : (xs : List A) → keyed key (map row xs) ≡ keyed (λ x. key (row x)) xs
  unfolding keyed
  keyed-map [] = refl
  keyed-map (x ∷ xs) = ground (arith, has-map xs (key (row x)), keyed-map xs)

module _ {ℓ κ} {A : Type ℓ} {K : Type κ} ⦃e : Eq K⦄ (key : A → K) where
  pub contains-map : (xs : List A) (k : K) → contains (map key xs) k ≡ has key xs k
  unfolding contains any has
  contains-map [] k = refl
  contains-map (x ∷ xs) k = ground (arith, contains-map xs k)

  pub distinct-map : (xs : List A) → distinct (map key xs) ≡ keyed key xs
  unfolding distinct keyed
  distinct-map [] = refl
  distinct-map (x ∷ xs) = ground (arith, contains-map xs (key x), distinct-map xs)

module _ {ℓ} {A : Type ℓ} where
  -- how many rows pass a test
  unfoldable pub count_where : (A → Bool) → List A → ℕ
  count_where p [] = 0
  count_where p (r ∷ rows) = (if p r then 1 else 0) + count_where p rows

  pub count-zero : (p : A → Bool) (rows : List A) → any p rows ≡ false → count_where p rows ≡ 0
  unfolding count_where any
  count-zero p [] h = refl
  count-zero p (r ∷ rows) h = ground (arith, count-zero p rows)

  pub zero-count : (p : A → Bool) (rows : List A) → count_where p rows ≡ 0 → any p rows ≡ false
  unfolding count_where any
  zero-count p [] h = refl
  zero-count p (r ∷ rows) h = ground (arith, zero-count p rows)

  pub count-filter :
      (p q : A → Bool) (rows : List A) → count_where p (filter q rows) ≤ count_where p rows
  unfolding count_where filter
  count-filter p q [] = omega arith
  count-filter p q (r ∷ rows) = ground (arith, count-filter p q rows)

  -- An update after which a row passes no test it did not pass before.
  pub count-update :
      (p q : A → Bool) (set : A → A) (rows : List A)
      → ((r : A) → q r ≡ true → p (set r) ≡ true → p r ≡ true)
      → count_where p (update_where q set rows) ≤ count_where p rows
  unfolding count_where update_where
  count-update p q set [] h = omega arith
  count-update p q set (r ∷ rows) h = ground (arith, count-update p q set rows h, h r)

  pub any-kept :
      (p q : A → Bool) (set : A → A) (rows : List A)
      → ((r : A) → p (set r) ≡ false)
      → any p rows ≡ false
      → any p (update_where q set rows) ≡ false
  unfolding any update_where
  any-kept p q set [] h none_pass = refl
  any-kept p q set (r ∷ rows) h none_pass = ground (arith, any-kept p q set rows h, h r)

  pub any-update :
      (p q : A → Bool) (set : A → A) (rows : List A)
      → ((r : A) → q r ≡ true → p (set r) ≡ false)
      → ((r : A) → q r ≡ false → p r ≡ false)
      → any p (update_where q set rows) ≡ false
  unfolding any update_where
  any-update p q set [] h g = refl
  any-update p q set (r ∷ rows) h g = ground (arith, any-update p q set rows h g, h r, g r)

module _ {ℓ κ} {A : Type ℓ} {K : Type κ} ⦃e : Eq K⦄ (key : A → K) where
  -- A row that is not updated is found as it was.
  pub find-update :
      (p : A → Bool) (set : A → A) (rows : List A) (k : K) (r : A)
      → ((x : A) → p x ≡ true → key (set x) ≡ key x)
      → p r ≡ false
      → find key k rows ≡ some r
      → find key k (update_where p set rows) ≡ some r
  unfolding find update_where
  find-update p set [] k r same h f = cc
  find-update p set (x ∷ rows) k r same h f =
      ground (arith, same x, find-update p set rows k r same h)

  -- A row that is updated is found with its update, where no other row has its key.
  pub find-updated :
      (p : A → Bool) (set : A → A) (rows : List A) (k : K) (r : A)
      → ((x : A) → p x ≡ true → key (set x) ≡ key x)
      → p r ≡ true
      → find key k rows ≡ some r
      → find key k (update_where p set rows) ≡ some (set r)
  unfolding find update_where
  find-updated p set [] k r same h f = cc
  find-updated p set (x ∷ rows) k r same h f =
      ground (arith, same x, find-updated p set rows k r same h)

  -- Rows are kept or taken away by their key.
  pub find-filter-key :
      (q : K → Bool) (rows : List A) (k : K)
      → find key k (filter (λ r. q (key r)) rows) ≡ (if q k then find key k rows else none)
  unfolding find filter
  find-filter-key q [] k = ground arith
  find-filter-key q (x ∷ rows) k = elim (Bool-cases (k == key x)) [
    | inl eq ↦
        (let same : k ≡ key x = (e.test_iff k (key x)).0 eq in
          ground (arith, find-filter-key q rows k, same, ap q same))
    | inr ne ↦ ground (arith, find-filter-key q rows k)
  ]
