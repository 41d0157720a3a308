-- ===== src/Storage/Unaffected.antt =====
-- The writes of src/alr_tw/storage/sqlite_store.py that leave the operations alone.
use alr_tw.Prelude.{String, ◌≡◌, List, Ensures, returned, Ensures-unless, string_eq, pair_eq}
use alr_tw.Research.Run.{ResearchRun, Datetime}
use alr_tw.Snapshot.{ProviderSnapshotReceipt}
use alr_tw.Sources.{SourceRecord, EvidenceSpan}
use alr_tw.Storage.Rows.{Database, Codecs, ProviderCandidate, CounterAuthorityRelationReceipt}
use alr_tw.Storage.Runs.{require_run, write_obligations, create_run, save_run}
use alr_tw.Storage.Materials.{save_source, save_evidence, save_cache_entry}
use alr_tw.Storage.Receipts.{
  save_candidate, save_counter_authority_relation_receipt, replace_provider_snapshot_receipts,
}

module _ (codec : Codecs) where
  abbrev pub SameOperations : Database → Database → Type 0
  SameOperations db db' = db'.operations ≡ db.operations

  pub create_run-operations :
      (run : ResearchRun) (db : Database) → Ensures (SameOperations db) (create_run codec run db)
  unfolding create_run write_obligations
  create_run-operations run db = search (Ensures-unless, returned)

  pub save_run-operations :
      (run : ResearchRun) (db : Database) → Ensures (SameOperations db) (save_run codec run db)
  unfolding save_run write_obligations
  save_run-operations run db = search (Ensures-unless, returned)

  pub save_source-operations :
      (id : String) (source : SourceRecord) (db : Database)
      → Ensures (SameOperations db) (save_source codec id source db)
  unfolding save_source require_run
  save_source-operations id source db = search (Ensures-unless, returned)

  pub save_evidence-operations :
      (id : String) (span : EvidenceSpan) (db : Database)
      → Ensures (SameOperations db) (save_evidence codec id span db)
  unfolding save_evidence require_run
  save_evidence-operations id span db = search (Ensures-unless, returned)

  pub save_cache_entry-operations :
      (key : String) (source : SourceRecord) (spans : List EvidenceSpan) (db : Database)
      → Ensures (SameOperations db) (save_cache_entry codec key source spans db)
  unfolding save_cache_entry
  save_cache_entry-operations key source spans db = search (Ensures-unless, returned)

  pub save_candidate-operations :
      (id : String) (candidate : ProviderCandidate) (at : Datetime) (db : Database)
      → Ensures (SameOperations db) (save_candidate codec id candidate at db)
  unfolding save_candidate require_run
  save_candidate-operations id candidate at db = search (Ensures-unless, returned)

  pub save_relation-operations :
      (receipt : CounterAuthorityRelationReceipt) (db : Database)
      → Ensures (SameOperations db) (save_counter_authority_relation_receipt codec receipt db)
  unfolding save_counter_authority_relation_receipt require_run
  save_relation-operations receipt db = search (Ensures-unless, returned)

  pub replace-operations :
      (id : String) (receipts : List ProviderSnapshotReceipt) (db : Database)
      → Ensures (SameOperations db) (replace_provider_snapshot_receipts codec id receipts db)
  unfolding replace_provider_snapshot_receipts require_run
  replace-operations id receipts db = search (Ensures-unless, returned)
