-- ===== src/Storage/Integrity/Records.antt =====
-- Cache entries, candidates, receipts and operations keep the tables sound.
use alr_tw.Prelude.{
  String, Bool, true, false, not, ◌≡◌, refl, sym, ◌∙◌, Option, none, some, List, ◌∷◌, arith, ok,
  err, Ensures, returned, raised, Ensures-unless, ◌==◌, string_eq, pair_eq, strip, Bool-cases, inl,
  inr, Result, ◌>>=◌,
}
use alr_tw.Research.Run.{Datetime}
use alr_tw.Sources.{SourceRecord, EvidenceSpan}
use alr_tw.Storage.Tables.{update_where, has, find, keyed, keyed_insert, keyed-update, find-none}
use alr_tw.Storage.Rows.{
  Object, OperationRow, operation_key, SourceRow, CandidateRow, candidate_key, CacheRow,
  RelationRow, SnapshotRow, Database, Codecs, ProviderCandidate, CounterAuthorityRelationReceipt,
}
use alr_tw.Storage.Runs.{require_run}
use alr_tw.Storage.Materials.{save_cache_entry, upsert_cache, cache_row, is_foreign_span}
use alr_tw.Storage.Receipts.{
  save_candidate, insert_candidate, candidate_row, save_counter_authority_relation_receipt,
  insert_relation, relation_row,
}
use alr_tw.Storage.Operations.{
  OperationRecordResult, recover, close_claim, set_result, operation_result, record_operation,
  insert_operation, known_operation, complete_operation,
}
use alr_tw.Storage.Deletion.{run_key, source_key}
use alr_tw.Storage.Integrity.{
  IsOperations, IsCandidates, IsCaches, IsRelations, IsSnapshots, IsSound,
}
use alr_tw.Storage.Integrity.References.{
  Refers-insert, Refers-upsert, Refers-update, Refers-replace,
}

-- the database in what a call returns
abbrev pub SoundResult {ℓ} : {A : Type ℓ} → A × Database → Type 0
SoundResult (a, db') = IsSound db'

module _ (db : Database) (h : IsSound db) where
  with_operations :
      (rows : List OperationRow)
      → IsOperations db.runs rows
      → IsSound (record db { operations = rows })
  with_operations rows o = record {
    runs = h.runs;
    sources = h.sources;
    obligations = h.obligations;
    operations = o;
    links = h.links;
    evidence = h.evidence;
    candidates = h.candidates;
    caches = h.caches;
    relations = h.relations;
    snapshots = h.snapshots;
  }

  with_caches :
      (rows : List CacheRow) → IsCaches db.sources rows → IsSound (record db { caches = rows })
  with_caches rows c = record {
    runs = h.runs;
    sources = h.sources;
    obligations = h.obligations;
    operations = h.operations;
    links = h.links;
    evidence = h.evidence;
    candidates = h.candidates;
    caches = c;
    relations = h.relations;
    snapshots = h.snapshots;
  }

  with_candidates :
      (rows : List CandidateRow)
      → IsCandidates db.runs rows
      → IsSound (record db { candidates = rows })
  with_candidates rows c = record {
    runs = h.runs;
    sources = h.sources;
    obligations = h.obligations;
    operations = h.operations;
    links = h.links;
    evidence = h.evidence;
    candidates = c;
    caches = h.caches;
    relations = h.relations;
    snapshots = h.snapshots;
  }

  with_relations :
      (rows : List RelationRow)
      → IsRelations db.runs rows
      → IsSound (record db { relations = rows })
  with_relations rows r = record {
    runs = h.runs;
    sources = h.sources;
    obligations = h.obligations;
    operations = h.operations;
    links = h.links;
    evidence = h.evidence;
    candidates = h.candidates;
    caches = h.caches;
    relations = r;
    snapshots = h.snapshots;
  }

  pub with_snapshots :
      (rows : List SnapshotRow)
      → IsSnapshots db.runs rows
      → IsSound (record db { snapshots = rows })
  with_snapshots rows s = record {
    runs = h.runs;
    sources = h.sources;
    obligations = h.obligations;
    operations = h.operations;
    links = h.links;
    evidence = h.evidence;
    candidates = h.candidates;
    caches = h.caches;
    relations = h.relations;
    snapshots = s;
  }

  -- an update of operations that keeps their keys
  updated_operations :
      (p : OperationRow → Bool) (result : Object)
      → IsSound (record db { operations = update_where p (set_result result) db.operations })
  updated_operations p result = with_operations _ (
    keyed-update operation_key p (set_result result) db.operations (λ r q. refl) ∙ h.operations.0,
    Refers-update (λ (r : OperationRow). r.run_id) p (set_result result) db.operations _
        (λ r q. refl) h.operations.1,
  )

  pub recover-IsSound : IsSound (recover db)
  unfolding recover
  recover-IsSound = updated_operations _ _

  pub close_claim-IsSound : (claim : String × String) → IsSound (close_claim claim db)
  unfolding close_claim
  close_claim-IsSound claim = updated_operations _ _

  pub complete_operation-IsSound :
      (run_id operation_id : String) (result : Object)
      → Ensures
          (SoundResult {A = OperationRecordResult})
          (complete_operation run_id operation_id result db)
  unfolding complete_operation
  complete_operation-IsSound run_id operation_id result =
      search (Ensures-unless, returned, updated_operations)

new_operation :
    (row : OperationRow) (db : Database)
    → has run_key db.runs row.run_id ≡ true
    → has operation_key db.operations (operation_key row) ≡ false
    → IsSound db
    → IsSound (record db { operations = row ∷ db.operations })
unfolding keyed
new_operation row db known new h = with_operations db h _ (
  ground (arith, h.operations.0),
  Refers-insert (λ (r : OperationRow). r.run_id) row db.operations _ h.operations.1 known,
)

module _ (codec : Codecs) where
  inserted_operation :
      (run_id operation_id : String) (result : Object) (request : Option Object) (now : String)
      (managed : Bool) (db : Database)
      → has run_key db.runs run_id ≡ true
      → has operation_key db.operations (run_id, operation_id) ≡ false
      → IsSound db
      → Ensures
          (SoundResult {A = OperationRecordResult})
          (insert_operation codec run_id operation_id result request now managed db)
  unfolding insert_operation
  inserted_operation run_id operation_id result request now managed db known new h =
      search (Ensures-unless, returned, new_operation _ db known new h)

  pub record_operation-IsSound :
      (run_id operation_id : String) (result : Object) (request : Option Object) (now : String)
      (managed : Bool) (db : Database)
      → IsSound db
      → Ensures
          (SoundResult {A = OperationRecordResult})
          (record_operation codec run_id operation_id result request now managed db)
  unfolding record_operation require_run
  record_operation-IsSound run_id operation_id result request now managed db h =
      Ensures-unless (not (has run_key db.runs run_id)) _ λ known.
        by_row (find operation_key (run_id, operation_id) db.operations) refl (ground arith)
    where
      returned_same :
          (m : Result Object)
          → Ensures
              (SoundResult {A = OperationRecordResult})
              (m >>= λ r. ok (record { created = false; result = r }, db))
      returned_same (ok r) = returned h
      returned_same (err message) = raised

      by_row :
          (row : Option OperationRow)
          → find operation_key (run_id, operation_id) db.operations ≡ row
          → has run_key db.runs run_id ≡ true
          → Ensures (SoundResult {A = OperationRecordResult}) (
              known_operation codec row request db
                (insert_operation codec run_id operation_id result request now managed db))
      by_row none e known =
          inserted_operation run_id operation_id result request now managed db known
            (find-none operation_key _ db.operations e) h
      by_row (some row) e known = returned_same (operation_result codec row request)

  abbrev cache_key : CacheRow → String
  cache_key r = r.cache_key

  upsert_cache-IsCaches :
      (sources : List SourceRow) (row : CacheRow) (rows : List CacheRow)
      → has source_key sources row.source_id ≡ true
      → IsCaches sources rows
      → IsCaches sources (upsert_cache codec row rows)
  unfolding upsert_cache
  upsert_cache-IsCaches sources row rows there h =
      elim (Bool-cases (has cache_key rows row.cache_key)) [
        | inl old ↦ rw old (
          (keyed-update cache_key _ _ rows (λ r q. sym ((string_eq.test_iff _ _).0 q)) ∙ h.0),
          Refers-replace (λ (r : CacheRow). r.source_id) _ row rows _ h.1 there,
        )
        | inr new ↦ rw new (
          (unfold keyed in ground (arith, h.0)),
          Refers-insert (λ (r : CacheRow). r.source_id) row rows _ h.1 there,
        )
      ]

  pub save_cache_entry-IsSound :
      (cache_key : String) (source : SourceRecord) (spans : List EvidenceSpan) (db : Database)
      → IsSound db
      → Ensures IsSound (save_cache_entry codec cache_key source spans db)
  unfolding save_cache_entry cache_row
  save_cache_entry-IsSound cache_key source spans db h =
      Ensures-unless (strip cache_key == "") _ λ given.
        Ensures-unless (is_foreign_span codec source spans) _ λ own.
          Ensures-unless (not (has source_key db.sources source.source_id)) _ λ there. returned (
            with_caches db h _ (
              upsert_cache-IsCaches db.sources (cache_row codec cache_key source spans) db.caches
                (ground arith) h.caches))

  inserted_candidate :
      (row : CandidateRow) (db : Database)
      → has run_key db.runs row.run_id ≡ true
      → IsSound db
      → IsSound (record db { candidates = insert_candidate codec row db.candidates })
  unfolding insert_candidate
  inserted_candidate row db known h = with_candidates db h _ (
    keyed_insert candidate_key row db.candidates h.candidates.0,
    Refers-upsert (λ (r : CandidateRow). r.run_id) _ row db.candidates _ h.candidates.1 known,
  )

  inserted_relation :
      (row : RelationRow) (db : Database)
      → has run_key db.runs row.run_id ≡ true
      → IsSound db
      → IsSound (record db { relations = insert_relation codec row db.relations })
  unfolding insert_relation
  inserted_relation row db known h = with_relations db h _ (
    keyed_insert (λ (r : RelationRow). r.receipt_id) row db.relations h.relations.0,
    Refers-upsert (λ (r : RelationRow). r.run_id) _ row db.relations _ h.relations.1 known,
  )

  pub save_candidate-IsSound :
      (run_id : String) (candidate : ProviderCandidate) (expires_at : Datetime) (db : Database)
      → IsSound db
      → Ensures IsSound (save_candidate codec run_id candidate expires_at db)
  unfolding save_candidate require_run candidate_row
  save_candidate-IsSound run_id candidate expires_at db h =
      Ensures-unless (not (has run_key db.runs run_id)) _ λ known. search (
        Ensures-unless,
        returned,
        inserted_candidate (candidate_row codec run_id candidate expires_at) db (ground arith) h,
      )

  pub save_relation-IsSound :
      (receipt : CounterAuthorityRelationReceipt) (db : Database)
      → IsSound db
      → Ensures IsSound (save_counter_authority_relation_receipt codec receipt db)
  unfolding save_counter_authority_relation_receipt require_run relation_row
  save_relation-IsSound receipt db h =
      Ensures-unless (not (has run_key db.runs receipt.run_id)) _ λ known. search (
        Ensures-unless,
        returned,
        inserted_relation (relation_row codec receipt) db (ground arith) h,
      )
