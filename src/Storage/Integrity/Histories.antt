-- ===== src/Storage/Integrity/Histories.antt =====
-- Any sequence of the calls that write to the store.
use alr_tw.Prelude.{String, Bool, ◌≡◌, Option, List, ok, ensured, string_eq}
use alr_tw.Research.Run.{ResearchRun, Datetime}
use alr_tw.Snapshot.{ProviderSnapshotReceipt}
use alr_tw.Sources.{SourceRecord, EvidenceSpan}
use alr_tw.Storage.Rows.{
  Object, Database, empty_database, Codecs, ProviderCandidate, CounterAuthorityRelationReceipt,
}
use alr_tw.Storage.Runs.{create_run, save_run}
use alr_tw.Storage.Materials.{save_source, save_evidence, save_cache_entry}
use alr_tw.Storage.Receipts.{
  save_candidate, save_counter_authority_relation_receipt, replace_provider_snapshot_receipts,
}
use alr_tw.Storage.Operations.{
  OperationRecordResult, recover, close_claim, record_operation, complete_operation,
}
use alr_tw.Storage.Deletion.{cleanup_expired, purge_run}
use alr_tw.Storage.Integrity.{IsSound, empty-IsSound}
use alr_tw.Storage.Integrity.Writes.{
  create_run-IsSound, save_run-IsSound, save_source-IsSound, save_evidence-IsSound,
}
use alr_tw.Storage.Integrity.Records.{
  recover-IsSound, close_claim-IsSound, complete_operation-IsSound, record_operation-IsSound,
  save_cache_entry-IsSound, save_candidate-IsSound, save_relation-IsSound,
}
use alr_tw.Storage.Integrity.Replacement.{replace-IsSound}
use alr_tw.Storage.Integrity.Deletions.{cleanup_expired-IsSound, purge_run-IsSound}

-- what one transaction of the store may commit
pub data Write (codec : Codecs) (db : Database) : Database → Type 0 where
  run_created :
      (run : ResearchRun) {db' : Database} → create_run codec run db ≡ ok db' → Write codec db db'
  run_saved :
      (run : ResearchRun) {db' : Database} → save_run codec run db ≡ ok db' → Write codec db db'
  source_saved :
      (run_id : String) (source : SourceRecord) {db' : Database}
      → save_source codec run_id source db ≡ ok db'
      → Write codec db db'
  evidence_saved :
      (run_id : String) (span : EvidenceSpan) {db' : Database}
      → save_evidence codec run_id span db ≡ ok db'
      → Write codec db db'
  entry_cached :
      (cache_key : String) (source : SourceRecord) (spans : List EvidenceSpan) {db' : Database}
      → save_cache_entry codec cache_key source spans db ≡ ok db'
      → Write codec db db'
  candidate_saved :
      (run_id : String) (candidate : ProviderCandidate) (expires_at : Datetime) {db' : Database}
      → save_candidate codec run_id candidate expires_at db ≡ ok db'
      → Write codec db db'
  relation_saved :
      (receipt : CounterAuthorityRelationReceipt) {db' : Database}
      → save_counter_authority_relation_receipt codec receipt db ≡ ok db'
      → Write codec db db'
  receipts_replaced :
      (run_id : String) (receipts : List ProviderSnapshotReceipt) {db' : Database}
      → replace_provider_snapshot_receipts codec run_id receipts db ≡ ok db'
      → Write codec db db'
  operation_recorded :
      (run_id operation_id : String) (result : Object) (request : Option Object) (now : String)
      (managed : Bool) {r : OperationRecordResult} {db' : Database}
      → record_operation codec run_id operation_id result request now managed db ≡ ok (r, db')
      → Write codec db db'
  operation_completed :
      (run_id operation_id : String) (result : Object) {r : OperationRecordResult} {db' : Database}
      → complete_operation run_id operation_id result db ≡ ok (r, db')
      → Write codec db db'
  interrupted_failed : Write codec db (recover db)
  claim_closed : (claim : String × String) → Write codec db (close_claim claim db)
  expired_removed : (cutoff : String) → Write codec db ((cleanup_expired cutoff db).1)
  run_purged : (run_id : String) → Write codec db ((purge_run run_id db).1)
  all_purged : Write codec db empty_database

pub data Reached (codec : Codecs) (db : Database) : Database → Type 0 where
  start : Reached codec db db
  next : {db' db'' : Database} → Reached codec db db' → Write codec db' db'' → Reached codec db db''

module _ (codec : Codecs) where
  pub Write-IsSound : {db db' : Database} → Write codec db db' → IsSound db → IsSound db'
  Write-IsSound (run_created run e) h = ensured (create_run-IsSound codec run _ h) e
  Write-IsSound (run_saved run e) h = ensured (save_run-IsSound codec run _ h) e
  Write-IsSound (source_saved id source e) h = ensured (save_source-IsSound codec id source _ h) e
  Write-IsSound (evidence_saved id span e) h = ensured (save_evidence-IsSound codec id span _ h) e
  Write-IsSound (entry_cached key source spans e) h =
      ensured (save_cache_entry-IsSound codec key source spans _ h) e
  Write-IsSound (candidate_saved id candidate at e) h =
      ensured (save_candidate-IsSound codec id candidate at _ h) e
  Write-IsSound (relation_saved receipt e) h = ensured (save_relation-IsSound codec receipt _ h) e
  Write-IsSound (receipts_replaced id receipts e) h =
      ensured (replace-IsSound codec id receipts _ h) e
  Write-IsSound (operation_recorded id op result request now managed e) h =
      ensured (record_operation-IsSound codec id op result request now managed _ h) e
  Write-IsSound (operation_completed id op result e) h =
      ensured (complete_operation-IsSound _ h id op result) e
  Write-IsSound interrupted_failed h = recover-IsSound _ h
  Write-IsSound (claim_closed claim) h = close_claim-IsSound _ h claim
  Write-IsSound (expired_removed cutoff) h = cleanup_expired-IsSound cutoff _ h
  Write-IsSound (run_purged run_id) h = purge_run-IsSound run_id _ h
  Write-IsSound all_purged h = empty-IsSound

  -- After any sequence of writes to an empty store no key stands twice in a table, every row refers
  -- to a run and a source that are there, and every span of evidence stands on a source that its
  -- run is linked to.
  pub reached-IsSound : {db : Database} → Reached codec empty_database db → IsSound db
  reached-IsSound start = empty-IsSound
  reached-IsSound (next r w) = Write-IsSound w (reached-IsSound r)
