-- ===== src/Storage/Lifecycle/Open.antt =====
-- How many operations of a run are in progress at a time.
use alr_tw.Prelude.{
  ℕ, ◌≤◌, String, Bool, true, false, ◌&&◌, ◌≡◌, refl, subst, Option, none, some, List, ◌∷◌, arith,
  Result, ok, err, Ensures, returned, raised, ensured, Ensures-unless, ◌==◌, string_eq, pair_eq,
  any, Bool-cases, inl, inr, ◌>>=◌,
}
use alr_tw.Storage.Tables.{
  has, find, cascade, update_where, count_where, count-zero, count-filter, count-update,
}
use alr_tw.Storage.Rows.{Object, OperationRow, operation_key, Database, empty_database, Codecs}
use alr_tw.Storage.Runs.{require_run}
use alr_tw.Storage.Operations.{
  OperationRecordResult, is_given, is_in_progress, is_open, interrupted, failed, set_result,
  recover, close_claim, operation_result, insert_operation, known_operation, record_operation,
  complete_operation,
}
use alr_tw.Storage.Deletion.{
  run_key, delete_runs, delete_sources, cleanup_expired, without_run, purge_run,
}
use alr_tw.Storage.Unaffected.{
  create_run-operations, save_run-operations, save_source-operations, save_evidence-operations,
  save_cache_entry-operations, save_candidate-operations, save_relation-operations,
  replace-operations,
}
use alr_tw.Storage.Integrity.Histories.{Write}

abbrev pub open_count : String → Database → ℕ
open_count run_id db = count_where (is_open run_id) db.operations

-- at most one operation of a run is in progress
abbrev pub IsOneOpen : Database → Type 0
IsOneOpen db = (run_id : String) → open_count run_id db ≤ 1

-- Every operation is recorded with its request, and completed with a result that is not in progress,
-- as src/alr_tw/research/service.py does.
abbrev pub IsRequested : {codec : Codecs} {db db' : Database} → Write codec db db' → Type 0
IsRequested (Write.operation_recorded id op result request now managed e) = is_given request ≡ true
IsRequested (Write.operation_completed id op result e) = is_in_progress result ≡ false
IsRequested _ = Unit

pub data Served (codec : Codecs) (db : Database) : Database → Type 0 where
  start : Served codec db db
  next :
      {db' db'' : Database}
      → Served codec db db'
      → (w : Write codec db' db'') → IsRequested w
      → Served codec db db''

same_open : (db db' : Database) → db'.operations ≡ db.operations → IsOneOpen db → IsOneOpen db'
same_open db db' e h run_id = rw e (h run_id)

closed_by :
    (p : OperationRow → Bool) (result : Object) (run_id : String) (rows : List OperationRow)
    → is_in_progress result ≡ false
    → count_where (is_open run_id) (update_where p (set_result result) rows)
      ≤ count_where (is_open run_id) rows
closed_by p result run_id rows e =
    count-update (is_open run_id) p (set_result result) rows
      (λ r q i. unfold is_open in ground arith)

updated_open :
    (p : OperationRow → Bool) (result : Object) (db : Database)
    → is_in_progress result ≡ false
    → IsOneOpen db
    → IsOneOpen (record db { operations = update_where p (set_result result) db.operations })
updated_open p result db e h run_id =
    omega (arith, closed_by p result run_id db.operations e, h run_id)

interrupted_closed : is_in_progress interrupted ≡ false
unfolding is_in_progress
interrupted_closed = refl

failed_closed : is_in_progress failed ≡ false
unfolding is_in_progress
failed_closed = refl

recover-open : (db : Database) → IsOneOpen db → IsOneOpen (recover db)
unfolding recover
recover-open db h = updated_open _ interrupted db interrupted_closed h

close_claim-open :
    (claim : String × String) (db : Database) → IsOneOpen db → IsOneOpen (close_claim claim db)
unfolding close_claim
close_claim-open claim db h = updated_open _ failed db failed_closed h

delete_runs-open :
    (p : _) (db : Database) (run_id : String)
    → open_count run_id (delete_runs p db) ≤ open_count run_id db
unfolding delete_runs cascade
delete_runs-open p db run_id = count-filter (is_open run_id) _ db.operations

delete_sources-operations :
    (p : _) (db : Database) → (delete_sources p db).operations ≡ db.operations
unfolding delete_sources
delete_sources-operations p db = refl

cleanup-open :
    (cutoff : String) (db : Database) (run_id : String)
    → open_count run_id (cleanup_expired cutoff db).1 ≤ open_count run_id db
unfolding cleanup_expired delete_sources
cleanup-open cutoff db run_id = delete_runs-open _ db run_id

purge-open :
    (id : String) (db : Database) (run_id : String)
    → open_count run_id (purge_run id db).1 ≤ open_count run_id db
unfolding purge_run
purge-open id db run_id = elim (Bool-cases (has run_key db.runs id)) [
  | inl there ↦ rw there (unfold without_run delete_sources in delete_runs-open _ db run_id)
  | inr absent ↦ rw absent (omega arith)
]

-- the database in what a call returns
abbrev OneOpenResult : OperationRecordResult × Database → Type 0
OneOpenResult (r, db') = IsOneOpen db'

new_open :
    (row : OperationRow) (rows : List OperationRow) (run_id : String)
    → any (is_open row.run_id) rows ≡ false
    → count_where (is_open run_id) rows ≤ 1
    → count_where (is_open run_id) (row ∷ rows) ≤ 1
new_open row rows run_id free h = elim (Bool-cases (row.run_id == run_id)) [
  | inl q ↦
      (let same : row.run_id ≡ run_id = (string_eq.test_iff row.run_id run_id).0 q in
        let none_open : count_where (is_open run_id) rows ≡ 0 =
          count-zero (is_open run_id) rows (subst (λ x. any (is_open x) rows ≡ false) same free) in
        unfold count_where in ground (arith, none_open))
  | inr q ↦ unfold count_where is_open in ground (arith, h)
]

module _ (codec : Codecs) where
  insert-open :
      (run_id operation_id : String) (result : Object) (request : Option Object) (now : String)
      (managed : Bool) (db : Database)
      → is_given request ≡ true
      → IsOneOpen db
      → Ensures OneOpenResult
          (insert_operation codec run_id operation_id result request now managed db)
  unfolding insert_operation
  insert-open run_id operation_id result request now managed db given h =
      Ensures-unless (is_given request && any (is_open run_id) db.operations) _
        λ free. returned (λ id. new_open _ db.operations id (ground arith) (h id))

  record-open :
      (run_id operation_id : String) (result : Object) (request : Option Object) (now : String)
      (managed : Bool) (db : Database)
      → is_given request ≡ true
      → IsOneOpen db
      → Ensures OneOpenResult
          (record_operation codec run_id operation_id result request now managed db)
  unfolding record_operation require_run
  record-open run_id operation_id result request now managed db given h =
      Ensures-unless _ _ λ known. by_row (find operation_key (run_id, operation_id) db.operations)
    where
      returned_same :
          (m : Result Object)
          → Ensures OneOpenResult (m >>= λ r. ok (record { created = false; result = r }, db))
      returned_same (ok r) = returned h
      returned_same (err message) = raised

      by_row :
          (row : Option OperationRow)
          → Ensures OneOpenResult (
              known_operation codec row request db
                (insert_operation codec run_id operation_id result request now managed db))
      by_row none = insert-open run_id operation_id result request now managed db given h
      by_row (some row) = returned_same (operation_result codec row request)

  complete-open :
      (run_id operation_id : String) (result : Object) (db : Database)
      → is_in_progress result ≡ false
      → IsOneOpen db
      → Ensures OneOpenResult (complete_operation run_id operation_id result db)
  unfolding complete_operation
  complete-open run_id operation_id result db e h =
      search (Ensures-unless, returned, updated_open _ result db e h)

  Write-IsOneOpen :
      {db db' : Database} (w : Write codec db db') → IsRequested w → IsOneOpen db → IsOneOpen db'
  Write-IsOneOpen {db} {db'} (Write.run_created run e) _ h =
      same_open db db' (ensured (create_run-operations codec run db) e) h
  Write-IsOneOpen {db} {db'} (Write.run_saved run e) _ h =
      same_open db db' (ensured (save_run-operations codec run db) e) h
  Write-IsOneOpen {db} {db'} (Write.source_saved id source e) _ h =
      same_open db db' (ensured (save_source-operations codec id source db) e) h
  Write-IsOneOpen {db} {db'} (Write.evidence_saved id span e) _ h =
      same_open db db' (ensured (save_evidence-operations codec id span db) e) h
  Write-IsOneOpen {db} {db'} (Write.entry_cached key source spans e) _ h =
      same_open db db' (ensured (save_cache_entry-operations codec key source spans db) e) h
  Write-IsOneOpen {db} {db'} (Write.candidate_saved id candidate at e) _ h =
      same_open db db' (ensured (save_candidate-operations codec id candidate at db) e) h
  Write-IsOneOpen {db} {db'} (Write.relation_saved receipt e) _ h =
      same_open db db' (ensured (save_relation-operations codec receipt db) e) h
  Write-IsOneOpen {db} {db'} (Write.receipts_replaced id receipts e) _ h =
      same_open db db' (ensured (replace-operations codec id receipts db) e) h
  Write-IsOneOpen {db} {db'} (Write.operation_recorded id op result request now managed e) given h =
      ensured (record-open id op result request now managed _ given h) e
  Write-IsOneOpen {db} {db'} (Write.operation_completed id op result e) closed h =
      ensured (complete-open id op result _ closed h) e
  Write-IsOneOpen {db} {db'} Write.interrupted_failed _ h = recover-open _ h
  Write-IsOneOpen {db} {db'} (Write.claim_closed claim) _ h = close_claim-open claim _ h
  Write-IsOneOpen {db} {db'} (Write.expired_removed cutoff) _ h =
      λ id. omega (arith, cleanup-open cutoff db id, h id)
  Write-IsOneOpen {db} {db'} (Write.run_purged run_id) _ h =
      λ id. omega (arith, purge-open run_id db id, h id)
  Write-IsOneOpen {db} {db'} Write.all_purged _ h = λ id. unfold count_where in omega arith

  -- When every operation is recorded with its request and completed with a result that is not in
  -- progress, at most one operation of a run is in progress at any time, whatever else is written.
  pub Served-IsOneOpen : {db : Database} → Served codec empty_database db → IsOneOpen db
  Served-IsOneOpen start = λ id. unfold count_where in omega arith
  Served-IsOneOpen (next r w q) = Write-IsOneOpen w q (Served-IsOneOpen r)
