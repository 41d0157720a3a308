-- ===== src/Storage/Lifecycle/Finished.antt =====
-- What has been completed stays, is replayed, and does not block.
use alr_tw.Prelude.{
  String, Bool, false, not, ◌≡◌, ◌⊎◌, refl, sym, ◌∙◌, ap, subst, Option, none, some, ◌∷◌, arith,
  Result, ok, err, Ensures, returned, raised, ensured, Ensures-unless, ◌==◌, string_eq, pair_eq,
  option_eq, filter, Bool-cases, inl, inr, ◌>>=◌,
}
use alr_tw.Storage.Tables.{
  has, find, cascade, update_where, find-some, find-none, find-update, find-filter-key,
}
use alr_tw.Storage.Rows.{Object, OperationRow, operation_key, RunRow, Database, Codecs}
use alr_tw.Storage.Runs.{require_run}
use alr_tw.Storage.Operations.{
  OperationRecordResult, is_in_progress, interrupted, failed, set_result, recover, close_claim,
  is_claim, operation_result, insert_operation, known_operation, record_operation,
  complete_operation, is_finished,
}
use alr_tw.Storage.Deletion.{
  run_key, delete_runs, delete_sources, cleanup_expired, without_run, purge_run,
}
use alr_tw.Storage.Unaffected.{
  create_run-operations, save_run-operations, save_source-operations, save_evidence-operations,
  save_cache_entry-operations, save_candidate-operations, save_relation-operations,
  replace-operations,
}
use alr_tw.Storage.Integrity.Histories.{Write}

-- the row of a key, as it was or gone
abbrev pub Stays : String × String → OperationRow → Database → Type 0
Stays k r db =
    (find operation_key k db.operations ≡ some r) ⊎ (has operation_key db.operations k ≡ false)

-- Rows in progress alone are updated.
Stays-updated :
    (p : OperationRow → Bool) (result : Object) (db : Database) (k : String × String)
    (r : OperationRow)
    → p r ≡ false
    → find operation_key k db.operations ≡ some r
    → Stays k r (record db { operations = update_where p (set_result result) db.operations })
Stays-updated p result db k r h f =
    inl (find-update operation_key p (set_result result) db.operations k r (λ x q. refl) h f)

module _ (k : String × String) (r : OperationRow) (done : is_in_progress r.result ≡ false) where
  recover-Stays :
      (db : Database) → find operation_key k db.operations ≡ some r → Stays k r (recover db)
  unfolding recover
  recover-Stays db f = Stays-updated _ interrupted db k r (ground arith) f

  close_claim-Stays :
      (claim : String × String) (db : Database)
      → find operation_key k db.operations ≡ some r
      → Stays k r (close_claim claim db)
  unfolding close_claim
  close_claim-Stays claim db f = Stays-updated _ failed db k r (unfold is_claim in ground arith) f

  delete_runs-Stays :
      (p : RunRow → Bool) (db : Database)
      → find operation_key k db.operations ≡ some r
      → Stays k r (delete_runs p db)
  unfolding delete_runs cascade
  delete_runs-Stays p db f = elim (Bool-cases (has run_key (filter p db.runs) k.0)) [
    | inl gone ↦ inr (
        find-none operation_key k _ (
          find-filter-key operation_key
            (λ (j : String × String). not (has run_key (filter p db.runs) j.0)) db.operations k
          ∙ ground arith))
    | inr kept ↦ inl (
        find-filter-key operation_key
          (λ (j : String × String). not (has run_key (filter p db.runs) j.0)) db.operations k
        ∙ ground arith)
  ]

  cleanup-Stays :
      (cutoff : String) (db : Database)
      → find operation_key k db.operations ≡ some r
      → Stays k r (cleanup_expired cutoff db).1
  unfolding cleanup_expired delete_sources
  cleanup-Stays cutoff db f = delete_runs-Stays _ db f

  purge-Stays :
      (id : String) (db : Database)
      → find operation_key k db.operations ≡ some r
      → Stays k r (purge_run id db).1
  unfolding purge_run
  purge-Stays id db f = elim (Bool-cases (has run_key db.runs id)) [
    | inl there ↦ rw there (unfold without_run delete_sources in delete_runs-Stays _ db f)
    | inr absent ↦ rw absent (inl f)
  ]

  abbrev StaysResult : OperationRecordResult × Database → Type 0
  StaysResult (_, db') = Stays k r db'

  -- the row that an operation of this id would complete is another
  other_key :
      (run_id operation_id : String) (db : Database)
      → find operation_key k db.operations ≡ some r
      → is_finished (find operation_key (run_id, operation_id) db.operations) ≡ false
      → (operation_key r == (run_id, operation_id)) ≡ false
  other_key run_id operation_id db f h =
      elim (Bool-cases (operation_key r == (run_id, operation_id))) [
        | inl q ↦
            (let here : k ≡ (run_id, operation_id) =
                sym ((find-some operation_key k db.operations r f).1)
                ∙ ((pair_eq {A = String} {B = String}).test_iff _ _).0 q in
              let same : find operation_key (run_id, operation_id) db.operations ≡ some r =
                subst (λ j. find operation_key j db.operations ≡ some r) here f in
              ground (arith, same, ap is_finished same))
        | inr q ↦ q
      ]

  complete-stays :
      (run_id operation_id : String) (result : Object) (db : Database)
      → find operation_key k db.operations ≡ some r
      → Ensures StaysResult (complete_operation run_id operation_id result db)
  unfolding complete_operation
  complete-stays run_id operation_id result db f =
      Ensures-unless (is_finished (find operation_key (run_id, operation_id) db.operations)) _
        λ pending. search (
          Ensures-unless,
          returned,
          Stays-updated (λ (x : OperationRow). operation_key x == (run_id, operation_id)) result db
              k r (other_key run_id operation_id db f pending) f,
        )

  insert-stays :
      (codec : Codecs) (run_id operation_id : String) (result : Object) (request : Option Object)
      (now : String) (managed : Bool) (db : Database)
      → find operation_key k db.operations ≡ some r
      → find operation_key (run_id, operation_id) db.operations ≡ none
      → Ensures StaysResult
          (insert_operation codec run_id operation_id result request now managed db)
  unfolding insert_operation
  insert-stays codec run_id operation_id result request now managed db f new =
      search (Ensures-unless, returned, pushed _)
    where
      pushed :
          (row : OperationRow)
          → operation_key row ≡ (run_id, operation_id)
          → Stays k r (record db { operations = row ∷ db.operations })
      pushed row e = elim (Bool-cases (k == operation_key row)) [
        | inl q ↦
            (let here : k ≡ (run_id, operation_id) =
                ((pair_eq {A = String} {B = String}).test_iff _ _).0 q ∙ e in
              let absent : find operation_key k db.operations ≡ none =
                subst (λ j. find operation_key j db.operations ≡ none) (sym here) new in
              absurd (cc))
        | inr q ↦ inl (unfold find in rw q f)
      ]

  record-stays :
      (codec : Codecs) (run_id operation_id : String) (result : Object) (request : Option Object)
      (now : String) (managed : Bool) (db : Database)
      → find operation_key k db.operations ≡ some r
      → Ensures StaysResult
          (record_operation codec run_id operation_id result request now managed db)
  unfolding record_operation require_run
  record-stays codec run_id operation_id result request now managed db f =
      Ensures-unless _ _
        λ known. by_row (find operation_key (run_id, operation_id) db.operations) refl
    where
      returned_same :
          (m : Result Object)
          → Ensures StaysResult (m >>= λ x. ok (record { created = false; result = x }, db))
      returned_same (ok x) = returned (inl f)
      returned_same (err message) = raised

      by_row :
          (row : Option OperationRow)
          → find operation_key (run_id, operation_id) db.operations ≡ row
          → Ensures StaysResult (
              known_operation codec row request db
                (insert_operation codec run_id operation_id result request now managed db))
      by_row none e = insert-stays codec run_id operation_id result request now managed db f e
      by_row (some row) e = returned_same (operation_result codec row request)

same-Stays :
    (k : String × String) (r : OperationRow) (db db' : Database)
    → db'.operations ≡ db.operations
    → find operation_key k db.operations ≡ some r
    → Stays k r db'
same-Stays k r db db' e f = inl (ap (find operation_key k) e ∙ f)

pub finished_stays :
    (codec : Codecs) {db db' : Database} (k : String × String) (r : OperationRow)
    → Write codec db db'
    → find operation_key k db.operations ≡ some r
    → is_in_progress r.result ≡ false
    → (find operation_key k db'.operations ≡ some r) ⊎ (has operation_key db'.operations k ≡ false)
finished_stays codec {db} {db'} k r (Write.run_created run e) f d =
    same-Stays k r db db' (ensured (create_run-operations codec run db) e) f
finished_stays codec {db} {db'} k r (Write.run_saved run e) f d =
    same-Stays k r db db' (ensured (save_run-operations codec run db) e) f
finished_stays codec {db} {db'} k r (Write.source_saved id source e) f d =
    same-Stays k r db db' (ensured (save_source-operations codec id source db) e) f
finished_stays codec {db} {db'} k r (Write.evidence_saved id span e) f d =
    same-Stays k r db db' (ensured (save_evidence-operations codec id span db) e) f
finished_stays codec {db} {db'} k r (Write.entry_cached key source spans e) f d =
    same-Stays k r db db' (ensured (save_cache_entry-operations codec key source spans db) e) f
finished_stays codec {db} {db'} k r (Write.candidate_saved id candidate at e) f d =
    same-Stays k r db db' (ensured (save_candidate-operations codec id candidate at db) e) f
finished_stays codec {db} {db'} k r (Write.relation_saved receipt e) f d =
    same-Stays k r db db' (ensured (save_relation-operations codec receipt db) e) f
finished_stays codec {db} {db'} k r (Write.receipts_replaced id receipts e) f d =
    same-Stays k r db db' (ensured (replace-operations codec id receipts db) e) f
finished_stays codec {db} {db'} k r (Write.operation_recorded id op result request now managed e) f
      d =
    ensured (record-stays k r d codec id op result request now managed db f) e
finished_stays codec {db} {db'} k r (Write.operation_completed id op result e) f d =
    ensured (complete-stays k r d id op result db f) e
finished_stays codec {db} {db'} k r Write.interrupted_failed f d = recover-Stays k r d db f
finished_stays codec {db} {db'} k r (Write.claim_closed claim) f d =
    close_claim-Stays k r d claim db f
finished_stays codec {db} {db'} k r (Write.expired_removed cutoff) f d =
    cleanup-Stays k r d cutoff db f
finished_stays codec {db} {db'} k r (Write.run_purged id) f d = purge-Stays k r d id db f
finished_stays codec {db} {db'} k r Write.all_purged f d = inr (unfold has in refl)
