-- ===== src/Storage/Integrity/Deletions.antt =====
-- What a deletion takes along keeps the tables sound.
use alr_tw.Prelude.{String, Bool, not, filter, string_eq, pair_eq, Bool-cases, inl, inr}
use alr_tw.Storage.Tables.{delete_where, has, cascade, keyed-filter}
use alr_tw.Storage.Rows.{
  RunRow, ObligationRow, obligation_key, OperationRow, operation_key, SourceRow, LinkRow, link_key,
  evidence_key, evidence_link, CandidateRow, candidate_key, CacheRow, RelationRow, SnapshotRow,
  snapshot_key, Database,
}
use alr_tw.Storage.Deletion.{
  run_key, source_key, delete_runs, delete_sources, cleanup_expired, without_run, purge_run,
}
use alr_tw.Storage.Integrity.{IsSound}
use alr_tw.Storage.Integrity.References.{Refers-filter, Refers-cascade, Refers-together}

pub delete_runs-IsSound :
    (p : RunRow → Bool) (db : Database) → IsSound db → IsSound (delete_runs p db)
unfolding delete_runs
delete_runs-IsSound p db h =
    let gone = has run_key (filter p db.runs) in
    record {
      runs = unfold delete_where in keyed-filter run_key _ db.runs h.runs;
      sources = h.sources;
      obligations = (
        (unfold cascade in keyed-filter obligation_key _ db.obligations h.obligations.0),
        Refers-cascade (λ (r : ObligationRow). r.run_id) run_key p db.obligations db.runs
            h.obligations.1,
      );
      operations = (
        (unfold cascade in keyed-filter operation_key _ db.operations h.operations.0),
        Refers-cascade (λ (r : OperationRow). r.run_id) run_key p db.operations db.runs
            h.operations.1,
      );
      links = (
        (unfold cascade in keyed-filter link_key _ db.links h.links.0),
        Refers-cascade (λ (r : LinkRow). r.run_id) run_key p db.links db.runs h.links.1,
        (unfold cascade in Refers-filter (λ (r : LinkRow). r.source_id) _ db.links _ h.links.2),
      );
      evidence = (
        (unfold cascade in keyed-filter evidence_key _ db.evidence h.evidence.0),
        (unfold cascade in
            Refers-together evidence_link link_key (λ (k : String × String). not (gone k.0))
              db.evidence db.links h.evidence.1),
      );
      candidates = (
        (unfold cascade in keyed-filter candidate_key _ db.candidates h.candidates.0),
        Refers-cascade (λ (r : CandidateRow). r.run_id) run_key p db.candidates db.runs
            h.candidates.1,
      );
      caches = h.caches;
      relations = (
        (unfold cascade in
            keyed-filter (λ (r : RelationRow). r.receipt_id) _ db.relations h.relations.0),
        Refers-cascade (λ (r : RelationRow). r.run_id) run_key p db.relations db.runs h.relations.1,
      );
      snapshots = (
        (unfold cascade in keyed-filter snapshot_key _ db.snapshots h.snapshots.0),
        (unfold cascade in
            keyed-filter (λ (r : SnapshotRow). r.receipt_id) _ db.snapshots h.snapshots.1),
        Refers-cascade (λ (r : SnapshotRow). r.run_id) run_key p db.snapshots db.runs h.snapshots.2,
      );
    }

pub delete_sources-IsSound :
    (p : SourceRow → Bool) (db : Database) → IsSound db → IsSound (delete_sources p db)
unfolding delete_sources
delete_sources-IsSound p db h =
    let gone = has source_key (filter p db.sources) in
    record {
      runs = h.runs;
      sources = unfold delete_where in keyed-filter source_key _ db.sources h.sources;
      obligations = h.obligations;
      operations = h.operations;
      links = (
        (unfold cascade in keyed-filter link_key _ db.links h.links.0),
        (unfold cascade in Refers-filter (λ (r : LinkRow). r.run_id) _ db.links _ h.links.1),
        Refers-cascade (λ (r : LinkRow). r.source_id) source_key p db.links db.sources h.links.2,
      );
      evidence = (
        (unfold cascade in keyed-filter evidence_key _ db.evidence h.evidence.0),
        (unfold cascade in
            Refers-together evidence_link link_key (λ (k : String × String). not (gone k.1))
              db.evidence db.links h.evidence.1),
      );
      candidates = h.candidates;
      caches = (
        (unfold cascade in keyed-filter (λ (r : CacheRow). r.cache_key) _ db.caches h.caches.0),
        Refers-cascade (λ (r : CacheRow). r.source_id) source_key p db.caches db.sources h.caches.1,
      );
      relations = h.relations;
      snapshots = h.snapshots;
    }

-- rows of caches and candidates that nothing refers to
dropped :
    (p : CacheRow → Bool) (q : CandidateRow → Bool) (db : Database)
    → IsSound db
    → IsSound
        (record db { caches = delete_where p db.caches; candidates = delete_where q db.candidates })
unfolding delete_where
dropped p q db h = record {
  runs = h.runs;
  sources = h.sources;
  obligations = h.obligations;
  operations = h.operations;
  links = h.links;
  evidence = h.evidence;
  candidates = (
    keyed-filter candidate_key _ db.candidates h.candidates.0,
    Refers-filter (λ (r : CandidateRow). r.run_id) _ db.candidates _ h.candidates.1,
  );
  caches = (
    keyed-filter (λ (r : CacheRow). r.cache_key) _ db.caches h.caches.0,
    Refers-filter (λ (r : CacheRow). r.source_id) _ db.caches _ h.caches.1,
  );
  relations = h.relations;
  snapshots = h.snapshots;
}

pub cleanup_expired-IsSound :
    (cutoff : String) (db : Database) → IsSound db → IsSound (cleanup_expired cutoff db).1
unfolding cleanup_expired
cleanup_expired-IsSound cutoff db h =
    dropped _ _ _ (delete_sources-IsSound _ _ (delete_runs-IsSound _ db h))

pub purge_run-IsSound :
    (run_id : String) (db : Database) → IsSound db → IsSound (purge_run run_id db).1
unfolding purge_run
purge_run-IsSound run_id db h = elim (Bool-cases (has run_key db.runs run_id)) [
  | inl there ↦
      rw there (unfold without_run in delete_sources-IsSound _ _ (delete_runs-IsSound _ db h))
  | inr absent ↦ rw absent h
]
