-- ===== src/Storage/Deletion.antt =====
-- What takes rows away: `cleanup_expired`, `purge_run` and the cascades of the schema, of
-- src/alr_tw/storage/sqlite_store.py, and the purge service of src/alr_tw/storage/purge.py.
use alr_tw.Prelude.{
  ℕ, ◌-◌, String, Bool, true, false, not, ◌||◌, Option, none, List, [], ◌==◌, string_eq,
  if◌then◌else◌, filter, length,
}
use alr_tw.Storage.Tables.{delete_where, has, cascade}
use alr_tw.Storage.Rows.{
  RunRow, ObligationRow, OperationRow, SourceRow, LinkRow, EvidenceRow, CandidateRow, CacheRow,
  RelationRow, SnapshotRow, Database,
}
use alr_tw.Storage.Materials.{text_le}

pub record CleanupResult : Type 0 where
  pub expired_runs : ℕ
  pub deleted_sources : ℕ

pub record PurgeResult : Type 0 where
  pub success : Bool
  pub scope : String
  pub already_absent : Bool
  pub deleted_runs : ℕ
  pub deleted_sources : ℕ
  pub failures : List String
  pub error_code : Option String

abbrev pub run_key : RunRow → String
run_key r = r.run_id

abbrev pub source_key : SourceRow → String
source_key r = r.source_id

-- `DELETE FROM research_runs WHERE p`, with the rows that refer to a run deleted
unfoldable pub delete_runs : (RunRow → Bool) → Database → Database
unfolding delete_where cascade has filter
delete_runs p db =
    let gone = has run_key (filter p db.runs) in
    record db {
      runs = delete_where p db.runs;
      obligations = cascade (λ (r : ObligationRow). r.run_id) gone db.obligations;
      operations = cascade (λ (r : OperationRow). r.run_id) gone db.operations;
      links = cascade (λ (r : LinkRow). r.run_id) gone db.links;
      evidence = cascade (λ (r : EvidenceRow). r.run_id) gone db.evidence;
      candidates = cascade (λ (r : CandidateRow). r.run_id) gone db.candidates;
      relations = cascade (λ (r : RelationRow). r.run_id) gone db.relations;
      snapshots = cascade (λ (r : SnapshotRow). r.run_id) gone db.snapshots;
    }

-- `DELETE FROM source_records WHERE p`
unfoldable pub delete_sources : (SourceRow → Bool) → Database → Database
unfolding delete_where cascade has filter
delete_sources p db =
    let gone = has source_key (filter p db.sources) in
    record db {
      sources = delete_where p db.sources;
      links = cascade (λ (r : LinkRow). r.source_id) gone db.links;
      evidence = cascade (λ (r : EvidenceRow). r.source_id) gone db.evidence;
      caches = cascade (λ (r : CacheRow). r.source_id) gone db.caches;
    }

-- a source that no run refers to
unfoldable pub is_orphan : List LinkRow → SourceRow → Bool
unfolding has
is_orphan links r = not (has (λ (l : LinkRow). l.source_id) links r.source_id)

abbrev pub is_expired_run : String → RunRow → Bool
is_expired_run cutoff r = text_le r.expires_at cutoff

abbrev pub is_stale_source : String → List LinkRow → SourceRow → Bool
is_stale_source cutoff links r = text_le r.expires_at cutoff || is_orphan links r

-- `cutoff` is `now.isoformat()`
unfoldable pub cleanup_expired : String → Database → CleanupResult × Database
unfolding delete_runs delete_sources is_orphan delete_where text_le filter
cleanup_expired cutoff db =
    let without_runs = delete_runs (is_expired_run cutoff) db in
    let cleaned = delete_sources (is_stale_source cutoff without_runs.links) without_runs in
    (
      record {
        expired_runs = length (filter (is_expired_run cutoff) db.runs);
        deleted_sources = length without_runs.sources - length cleaned.sources;
      },
      record cleaned {
        caches = delete_where (λ (r : CacheRow). text_le r.expires_at cutoff) cleaned.caches;
        candidates =
            delete_where (λ (r : CandidateRow). text_le r.expires_at cutoff) cleaned.candidates;
      },
    )

-- the database once the run is gone, with the sources that nothing refers to any more
unfoldable pub without_run : String → Database → Database
unfolding delete_runs delete_sources is_orphan
without_run run_id db =
    let rest = delete_runs (λ (r : RunRow). r.run_id == run_id) db in
    delete_sources (is_orphan rest.links) rest

unfoldable pub purge_run : String → Database → PurgeResult × Database
unfolding without_run has
purge_run run_id db =
    if has run_key db.runs run_id
    then (
      record {
        success = true;
        scope = "run";
        already_absent = false;
        deleted_runs = 1;
        deleted_sources = length db.sources - length (without_run run_id db).sources;
        failures = [];
        error_code = none;
      },
      without_run run_id db,
    )
    else (
      record {
        success = true;
        scope = "run";
        already_absent = true;
        deleted_runs = 0;
        deleted_sources = 0;
        failures = [];
        error_code = none;
      },
      db,
    )
