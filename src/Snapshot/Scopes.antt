-- ===== src/Snapshot/Scopes.antt =====
-- What the tests on receipts mean: equal as multisets, the server's, one pair for each provider.
use alr_tw.Prelude.{
  Option, none, ◌<◌, ◌≤◌, ℕ, ◌≤◌, String, Bool, true, false, not, ◌&&◌, ◌||◌, ◌≡◌, ◌≢◌, ◌↔◌, inl,
  inr, refl, sym, ap, ◌∙◌, subst, none, some, List, [], ◌∷◌, ◌++◌, map, Memᴰ, arith, ◌==◌,
  string_eq, nat_eq, option_eq, pair_eq, length, any, contains, dedup, distinct, unique, filter,
  count, non_empty, non_empty-append, non_empty-sorted_set, sorted_set, any-false, any-of_none,
  in-filter, filter-in, count-pos, Bool-cases, ltb, mem-append_left, mem-append_right, mem-map,
  map-mem, length-dedup-le_one,
}
use native.Mathlib.Decide.{dec_lt}
use alr_tw.Research.Run.{Datetime}
use alr_tw.Snapshot.{
  ProviderSnapshotReceipt, SnapshotReceiptStatus, expires_after, receipt_eq, is_current,
  is_consistent, one_if, pairs_of, mixes_generations, receipt_ids, scope_reasons, server_by_id,
  is_foreign, sets_differ, binding_reasons, snapshot_reasons, foreign_codes, status_of,
  assess_receipts,
}

abbrev pub Receipts : Type 0
Receipts = List ProviderSnapshotReceipt

abbrev LastsAfter : ℕ → Option Datetime → Type 0
LastsAfter now none = Unit
LastsAfter now (some at) = now < at.micros

-- Verified, issued by now, and not yet expired.
pub record IsUsable (now : ℕ) (r : ProviderSnapshotReceipt) : Type 0 where
  pub verified : r.status ≡ SnapshotReceiptStatus.verified
  pub issued : r.issued_at.micros ≤ now
  pub lasting : LastsAfter now r.expires_at

lasts_iff : (now : ℕ) (o : Option Datetime) → (expires_after now o ≡ true) ↔ LastsAfter now o
unfolding expires_after
lasts_iff now none = ground arith
lasts_iff now (some at) = ground arith

pub is_current_iff :
    (now : ℕ) (r : ProviderSnapshotReceipt) → (is_current now r ≡ true) ↔ IsUsable now r
unfolding is_current
is_current_iff now r = (
  (λ h. record {
    verified = ground arith;
    issued = ground arith;
    lasting = (lasts_iff now r.expires_at).0 (ground arith);
  }),
  (λ u. ground (arith, u.verified, u.issued, (lasts_iff now r.expires_at).1 u.lasting)),
)

-- The receipts are the server's, each as often, all usable now, each id once, and no provider has
-- two snapshots or two generations.
pub record IsOneSnapshot (now : ℕ) (values server : Receipts) : Type 0 where
  pub present : values ≢ []
  pub same : (r : ProviderSnapshotReceipt) → count r values ≡ count r server
  pub current : (r : ProviderSnapshotReceipt) → Memᴰ r values → IsUsable now r
  pub ids : unique (receipt_ids values) ≡ true
  pub server_ids : unique (receipt_ids server) ≡ true
  pub one_generation :
      (a b : ProviderSnapshotReceipt)
      → Memᴰ a values
      → Memᴰ b values
      → a.provider_id ≡ b.provider_id
      → (a.snapshot_id ≡ b.snapshot_id) × (a.generation ≡ b.generation)

non_empty-one_if : (b : Bool) (code : String) → non_empty (one_if b code) ≡ b
non_empty-one_if true code = refl
non_empty-one_if false code = refl

status_of-consistent :
    (reasons : List String) → is_consistent (status_of reasons) ≡ not (non_empty reasons)
unfolding status_of any contains
status_of-consistent [] = refl
status_of-consistent (r ∷ rs) = elim (Bool-cases (any (contains (r ∷ rs)) foreign_codes)) [
  | inl e ↦ rw e
  | inr e ↦ rw e
]

-- The tests of one set of receipts.
unfoldable pub scope_fails : ℕ → Receipts → Bool
scope_fails now values =
    not (unique (receipt_ids values))
    || any (λ item. not (is_current now item)) values
    || mixes_generations values

non_empty-scope_reasons :
    (duplicate current generation : String) (now : ℕ) (values : Receipts)
    → non_empty (scope_reasons duplicate current generation now values) ≡ scope_fails now values
unfolding scope_reasons scope_fails
non_empty-scope_reasons duplicate current generation now values =
    simp (non_empty-append, non_empty-one_if) (ground arith)

non_empty-binding_reasons :
    (now : ℕ) (values server : Receipts)
    → non_empty (binding_reasons now values (some server))
      ≡ (scope_fails now server || any (is_foreign server) values || sets_differ values server)
unfolding binding_reasons
non_empty-binding_reasons now values server =
    simp (non_empty-append, non_empty-one_if, non_empty-scope_reasons) (ground arith)

abbrev pub fails : ℕ → Receipts → Receipts → Bool
fails now values server =
    scope_fails now values
    || scope_fails now server
    || any (is_foreign server) values
    || sets_differ values server

non_empty-snapshot_reasons :
    (now : ℕ) (values server : Receipts)
    → non_empty (snapshot_reasons now values (some server)) ≡ fails now values server
unfolding snapshot_reasons
non_empty-snapshot_reasons now values server =
    simp (non_empty-append, non_empty-scope_reasons, non_empty-binding_reasons) (ground arith)

pub consistent_test :
    (now : ℕ) (values server : Receipts)
    → (assess_receipts now values (some server)).consistent
      ≡ ((non_empty values || non_empty server) && not (fails now values server))
unfolding assess_receipts
consistent_test now values server = ground (
  arith,
  status_of-consistent (sorted_set (snapshot_reasons now values (some server))),
  non_empty-sorted_set (snapshot_reasons now values (some server)),
  non_empty-snapshot_reasons now values server,
)

-- The counters are equal exactly when every receipt occurs as often in both.
pub sets_differ_iff :
    (values server : Receipts)
    → (sets_differ values server ≡ false)
      ↔ ((r : ProviderSnapshotReceipt) → count r values ≡ count r server)
unfolding sets_differ
sets_differ_iff values server =
    (to, λ h. any-of_none _ (values ++ server) (λ r i. ground (arith, h r)))
  where
    counts : ProviderSnapshotReceipt → Bool
    counts r = not (count r values == count r server)

    listed :
        sets_differ values server ≡ false
        → (r : ProviderSnapshotReceipt) → Memᴰ r (values ++ server)
        → count r values ≡ count r server
    listed h r i = let same = any-false counts (values ++ server) h r i in ground arith

    to :
        sets_differ values server ≡ false
        → (r : ProviderSnapshotReceipt) → count r values ≡ count r server
    to h r = elim (dec_lt 0 (count r values)) [
      | yes p ↦ listed h r (mem-append_left r values server (count-pos r values p))
      | no n ↦ elim (dec_lt 0 (count r server)) [
        | yes q ↦ listed h r (mem-append_right r values server (count-pos r server q))
        | no m ↦ omega arith
      ]
    ]

string_eq_refl : (s : String) → (s == s) ≡ true
string_eq_refl s = (string_eq.test_iff s s).1 refl

by_id_none :
    (server : Receipts) (id : String)
    → contains (receipt_ids server) id ≡ false
    → server_by_id server id ≡ none
unfolding server_by_id receipt_ids contains
by_id_none [] id h = refl
by_id_none (r ∷ rest) id h = ground (
  arith,
  by_id_none rest id,
  string_eq.test_iff id r.receipt_id,
  string_eq.test_iff r.receipt_id id,
)

by_id_head :
    (x : ProviderSnapshotReceipt) (rest : Receipts)
    → distinct (receipt_ids (x ∷ rest)) ≡ true
    → server_by_id (x ∷ rest) x.receipt_id ≡ some x
unfolding server_by_id receipt_ids distinct
by_id_head x rest d = ground (arith, by_id_none rest x.receipt_id, string_eq_refl x.receipt_id)

-- With each id once, the dictionary by id finds each of the server's receipts.
pub by_id_found :
    (server : Receipts) (r : ProviderSnapshotReceipt)
    → distinct (receipt_ids server) ≡ true
    → Memᴰ r server
    → server_by_id server r.receipt_id ≡ some r
unfolding server_by_id receipt_ids distinct
by_id_found [] r d i = elim i [ ]
by_id_found (x ∷ rest) r d (Memᴰ.head e) =
    subst (λ (k : ProviderSnapshotReceipt). server_by_id (x ∷ rest) k.receipt_id ≡ some k) (sym e)
      (by_id_head x rest d)
by_id_found (x ∷ rest) r d (Memᴰ.tail i) = ground (arith, by_id_found rest r (ground arith) i)

abbrev pair_of : ProviderSnapshotReceipt → String × String
pair_of r = (r.snapshot_id, r.generation)

abbrev provider_pairs : String → Receipts → List (String × String)
provider_pairs provider values = map pair_of (filter (λ item. item.provider_id == provider) values)

few_pairs :
    (provider : String) (values : Receipts)
    → ltb 1 (length (pairs_of provider values)) ≡ false
    → length (dedup (provider_pairs provider values)) ≤ 1
unfolding pairs_of
few_pairs provider values h = ground arith

many_pairs :
    (provider : String) (values : Receipts)
    → length (dedup (provider_pairs provider values)) ≤ 1
    → ltb 1 (length (pairs_of provider values)) ≡ false
unfolding pairs_of
many_pairs provider values h = ground arith

pair_listed :
    (provider : String) (r : ProviderSnapshotReceipt) (values : Receipts)
    → Memᴰ r values
    → r.provider_id ≡ provider
    → Memᴰ (pair_of r) (provider_pairs provider values)
pair_listed provider r values i e =
    mem-map pair_of r _ (filter-in _ values r i ((string_eq.test_iff r.provider_id provider).1 e))

listed_pair :
    (provider : String) (p : String × String) (values : Receipts)
    → Memᴰ p (provider_pairs provider values)
    → (r : ProviderSnapshotReceipt) × (Memᴰ r values × (r.provider_id ≡ provider)) × (p ≡ pair_of r)
listed_pair provider p values i =
    let (r, j, e) = map-mem pair_of p _ i in
    let (k, q) = in-filter _ values r j in
    (r, (k, (string_eq.test_iff r.provider_id provider).0 q), e)

pair_path : {a a' b b' : String} → a ≡ a' → b ≡ b' → ◌≡◌ {A = String × String} (a, b) (a', b')
pair_path p q = λ i. (p i, q i)

pub mixes_iff :
    (values : Receipts)
    → (mixes_generations values ≡ false) ↔ (
        (a b : ProviderSnapshotReceipt)
        → Memᴰ a values
        → Memᴰ b values
        → a.provider_id ≡ b.provider_id
        → (a.snapshot_id ≡ b.snapshot_id) × (a.generation ≡ b.generation))
unfolding mixes_generations
mixes_iff values = (to, from)
  where
    several : ProviderSnapshotReceipt → Bool
    several r = ltb 1 (length (pairs_of r.provider_id values))

    to :
        mixes_generations values ≡ false
        → (a b : ProviderSnapshotReceipt) → Memᴰ a values
        → Memᴰ b values
        → a.provider_id ≡ b.provider_id
        → (a.snapshot_id ≡ b.snapshot_id) × (a.generation ≡ b.generation)
    to h a b i j p =
        let few = any-false several values h a i in
        let same =
          (length-dedup-le_one (provider_pairs a.provider_id values)).0
            (few_pairs a.provider_id values few) (pair_of a) (pair_of b)
            (pair_listed a.provider_id a values i refl)
            (pair_listed a.provider_id b values j (sym p)) in
        (ap (λ q. q.0) same, ap (λ q. q.1) same)

    from :
        ((a b : ProviderSnapshotReceipt)
          → Memᴰ a values
          → Memᴰ b values
          → a.provider_id ≡ b.provider_id
          → (a.snapshot_id ≡ b.snapshot_id) × (a.generation ≡ b.generation))
        → mixes_generations values ≡ false
    from h = any-of_none several values (λ r i. many_pairs r.provider_id values (
        (length-dedup-le_one (provider_pairs r.provider_id values)).1 (λ p q i j.
          let (a, k, e) = listed_pair r.provider_id p values i in
          let (b, l, f) = listed_pair r.provider_id q values j in
          let (m, n) = h a b k.0 l.0 (k.1 ∙ sym l.1) in e ∙ pair_path m n ∙ sym f)))
