-- ===== src/Storage/Integrity/Replacement.antt =====
-- Replacing the receipts of a run keeps the tables sound.
use alr_tw.Prelude.{
  String, true, false, not, ◌≡◌, refl, sym, ◌∙◌, ap, List, [], ◌∷◌, ◌++◌, map, arith, Ensures,
  returned, Ensures-unless, ◌==◌, string_eq, pair_eq, filter, any, Bool-cases, inl, inr, unique,
  unique-eq-distinct,
}
use alr_tw.Snapshot.{ProviderSnapshotReceipt}
use alr_tw.Storage.Tables.{
  delete_where, has, keyed, keyed-filter, keyed-append, has-filter-key, has-map, keyed-map,
  distinct-map,
}
use alr_tw.Storage.Rows.{SnapshotRow, snapshot_key, Database, Codecs}
use alr_tw.Storage.Runs.{require_run}
use alr_tw.Storage.Receipts.{
  replace_provider_snapshot_receipts, snapshot_row, other_snapshots, is_receipt_taken,
}
use alr_tw.Storage.Deletion.{run_key}
use alr_tw.Storage.Integrity.{IsSnapshots, IsSound}
use alr_tw.Storage.Integrity.References.{Refers-filter, Refers-append}
use alr_tw.Storage.Integrity.Records.{with_snapshots}

abbrev provider_of : ProviderSnapshotReceipt → String
provider_of item = item.provider_id

abbrev receipt_of : ProviderSnapshotReceipt → String
receipt_of item = item.receipt_id

-- a row's two columns: one that is the same for all, and another
abbrev paired : {A : Type 0} → (A → String) → String → A → String × String
paired key c x = (c, key x)

abbrev row_receipt : SnapshotRow → String
row_receipt r = r.receipt_id

abbrev row_run : SnapshotRow → String
row_run r = r.run_id

unique-keyed :
    {A : Type 0} (key : A → String) (xs : List A)
    → not (unique (map key xs)) ≡ false
    → keyed key xs ≡ true
unique-keyed key xs h =
    sym (distinct-map key xs) ∙ sym (unique-eq-distinct (map key xs)) ∙ ground arith

-- one part of a pair is the same for all
has-paired :
    {A : Type 0} (key : A → String) (c : String) (xs : List A) (k : String × String)
    → has (paired key c) xs k ≡ true
    → (k.0 ≡ c) × (has key xs k.1 ≡ true)
unfolding has
has-paired key c [] k h = cc
has-paired key c (x ∷ xs) k h = ground (arith, has-paired key c xs k, string_eq.test_iff (k.0) c)

keyed-paired :
    {A : Type 0} (key : A → String) (c : String) (xs : List A)
    → keyed key xs ≡ true
    → keyed (paired key c) xs ≡ true
unfolding keyed
keyed-paired key c [] h = refl
keyed-paired key c (x ∷ xs) h =
    ground (arith, keyed-paired key c xs, has-paired key c xs (c, key x))

module _ (codec : Codecs) (run_id : String) where
  rows_of : List ProviderSnapshotReceipt → List SnapshotRow
  rows_of receipts = map (snapshot_row codec run_id) receipts

  rows-own :
      (receipts : List ProviderSnapshotReceipt) (k : String)
      → has row_run (rows_of receipts) k ≡ true
      → k ≡ run_id
  unfolding rows_of has snapshot_row
  rows-own [] k h = cc
  rows-own (r ∷ rs) k h = ground (arith, rows-own rs k, string_eq.test_iff k run_id)

  not_taken :
      (receipts : List ProviderSnapshotReceipt) (others : List SnapshotRow) (k : String)
      → any (λ (item : ProviderSnapshotReceipt). has row_receipt others item.receipt_id) receipts
        ≡ false
      → has receipt_of receipts k ≡ true
      → has row_receipt others k ≡ false
  unfolding any has
  not_taken [] others k h i = cc
  not_taken (r ∷ rs) others k h i = elim (Bool-cases (k == r.receipt_id)) [
    | inl q ↦ ap (has row_receipt others) ((string_eq.test_iff k r.receipt_id).0 q) ∙ ground arith
    | inr q ↦ not_taken rs others k (ground arith) (ground arith)
  ]

  own_apart :
      (others : List SnapshotRow) (k : String × String)
      → k.0 ≡ run_id
      → has snapshot_key (filter (λ (r : SnapshotRow). not (r.run_id == run_id)) others) k ≡ false
  own_apart others k h = ground (
    arith,
    has-filter-key snapshot_key (λ (j : String × String). not (j.0 == run_id)) others k,
    string_eq.test_iff (k.0) run_id,
  )

  replaced :
      (receipts : List ProviderSnapshotReceipt) (db : Database)
      → keyed provider_of receipts ≡ true
      → keyed receipt_of receipts ≡ true
      → has run_key db.runs run_id ≡ true
      → is_receipt_taken codec run_id receipts db ≡ false
      → IsSnapshots db.runs db.snapshots
      → IsSnapshots db.runs (rows_of receipts ++ other_snapshots codec run_id db)
  unfolding other_snapshots is_receipt_taken delete_where
  replaced receipts db providers ids known free h = (
    keyed-append snapshot_key (rows_of receipts) _
        (unfold rows_of snapshot_row in
          keyed-map snapshot_key (snapshot_row codec run_id) receipts
          ∙ keyed-paired provider_of run_id receipts providers)
        (keyed-filter snapshot_key _ db.snapshots h.0)
        (λ k i. own_apart _ k (
          (has-paired provider_of run_id receipts k (
            unfold rows_of snapshot_row in
            sym (has-map snapshot_key (snapshot_row codec run_id) receipts k) ∙ i)).0)),
    keyed-append row_receipt (rows_of receipts) _
        (unfold rows_of snapshot_row in
          keyed-map row_receipt (snapshot_row codec run_id) receipts ∙ ids)
        (keyed-filter row_receipt _ db.snapshots h.1)
        (λ k i. not_taken receipts _ k free (
          unfold rows_of snapshot_row in
          sym (has-map row_receipt (snapshot_row codec run_id) receipts k) ∙ i)),
    Refers-append row_run (rows_of receipts) _ _
        (λ k i. ap (has run_key db.runs) (rows-own receipts k i) ∙ known)
        (Refers-filter row_run _ db.snapshots _ h.2),
  )

  pub replace-IsSound :
      (receipts : List ProviderSnapshotReceipt) (db : Database)
      → IsSound db
      → Ensures IsSound (replace_provider_snapshot_receipts codec run_id receipts db)
  unfolding replace_provider_snapshot_receipts require_run rows_of
  replace-IsSound receipts db h =
      Ensures-unless (not (unique (map provider_of receipts))) _ λ providers.
        Ensures-unless (not (unique (map receipt_of receipts))) _ λ ids.
          Ensures-unless (not (has run_key db.runs run_id)) _ λ known.
            Ensures-unless (is_receipt_taken codec run_id receipts db) _ λ free. returned (
              with_snapshots db h _ (
                replaced receipts db (unique-keyed provider_of receipts providers)
                  (unique-keyed receipt_of receipts ids) (ground arith) free h.snapshots))
