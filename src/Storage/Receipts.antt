-- ===== src/Storage/Receipts.antt =====
-- Candidates and the two kinds of receipts in the store, of src/alr_tw/storage/sqlite_store.py. A
-- call that raises commits nothing.
use alr_tw.Prelude.{
  String, Bool, not, Option, none, some, List, [], ◌∷◌, ◌++◌, map, Result, ok, ◌>>◌, raise_if, ◌==◌,
  string_eq, pair_eq, if◌then◌else◌, any, unique,
}
use alr_tw.Research.Run.{Datetime}
use alr_tw.Snapshot.{ProviderSnapshotReceipt}
use alr_tw.RunReceipts.{sorted_by}
use alr_tw.Storage.Tables.{delete_where, has, find, select}
use alr_tw.Storage.Rows.{
  SourceRow, EvidenceRow, CandidateRow, candidate_key, RelationRow, SnapshotRow, Database, Codecs,
  ProviderCandidate, CounterAuthorityRelationReceipt, load_all,
}
use alr_tw.Storage.Runs.{require_run}
use alr_tw.Storage.Materials.{differs, candidate_payload, relation_payload, linked_sources}

abbrev optional_time : (Datetime → String) → Option Datetime → Option String
optional_time isoformat none = none
optional_time isoformat (some at) = some (isoformat at)

module _ (codec : Codecs) where
  unfoldable pub candidate_row : String → ProviderCandidate → Datetime → CandidateRow
  candidate_row run_id candidate expires_at = record {
    run_id = run_id;
    candidate_id = candidate.candidate_id;
    payload_json = codec.dump_candidate candidate;
    expires_at = codec.isoformat expires_at;
  }

  unfoldable pub insert_candidate : CandidateRow → List CandidateRow → List CandidateRow
  unfolding has
  insert_candidate row rows =
      if has candidate_key rows (candidate_key row) then rows else row ∷ rows

  unfoldable pub save_candidate : String → ProviderCandidate → Datetime → Database → Result Database
  unfolding candidate_row insert_candidate find
  save_candidate run_id candidate expires_at db =
      let existing = find candidate_key (run_id, candidate.candidate_id) db.candidates in
      do
        require_run db run_id
        raise_if (differs (candidate_payload existing) (codec.dump_candidate candidate))
            "candidate_id is immutable and already has different content"
        ok (record db {
          candidates = insert_candidate (candidate_row run_id candidate expires_at) db.candidates;
        })

  unfoldable pub list_candidates : String → Database → Result (List ProviderCandidate)
  unfolding select sorted_by load_all
  list_candidates run_id db = load_all codec.load_candidate (
      map (λ (r : CandidateRow). r.payload_json)
        (sorted_by (λ (r : CandidateRow). r.candidate_id)
          (select (λ (r : CandidateRow). r.run_id) run_id db.candidates)))

  unfoldable pub relation_row : CounterAuthorityRelationReceipt → RelationRow
  relation_row receipt = record {
    receipt_id = receipt.receipt_id;
    run_id = receipt.run_id;
    payload_json = codec.dump_relation receipt;
    validated_at = codec.isoformat receipt.validated_at;
  }

  unfoldable pub insert_relation : RelationRow → List RelationRow → List RelationRow
  unfolding has
  insert_relation row rows =
      if has (λ (r : RelationRow). r.receipt_id) rows row.receipt_id then rows else row ∷ rows

  unfoldable pub save_counter_authority_relation_receipt :
      CounterAuthorityRelationReceipt → Database → Result Database
  unfolding relation_row insert_relation find
  save_counter_authority_relation_receipt receipt db =
      let existing = find (λ (r : RelationRow). r.receipt_id) receipt.receipt_id db.relations in
      do
        require_run db receipt.run_id
        raise_if (differs (relation_payload existing) (codec.dump_relation receipt))
            "relation receipt ID is immutable"
        ok (record db { relations = insert_relation (relation_row receipt) db.relations })

  -- ORDER BY validated_at, receipt_id
  unfoldable pub list_counter_authority_relation_receipts :
      String → Database → Result (List CounterAuthorityRelationReceipt)
  unfolding select sorted_by load_all
  list_counter_authority_relation_receipts run_id db = load_all codec.load_relation (
      map (λ (r : RelationRow). r.payload_json)
        (sorted_by (λ (r : RelationRow). r.validated_at)
          (sorted_by (λ (r : RelationRow). r.receipt_id)
            (select (λ (r : RelationRow). r.run_id) run_id db.relations))))

  unfoldable pub snapshot_row : String → ProviderSnapshotReceipt → SnapshotRow
  snapshot_row run_id item = record {
    run_id = run_id;
    provider_id = item.provider_id;
    receipt_id = item.receipt_id;
    payload_json = codec.dump_snapshot item;
    issued_at = codec.isoformat item.issued_at;
    expires_at = optional_time codec.isoformat item.expires_at;
  }

  -- the receipts of the other runs
  unfoldable pub other_snapshots : String → Database → List SnapshotRow
  unfolding delete_where
  other_snapshots run_id db = delete_where (λ (r : SnapshotRow). r.run_id == run_id) db.snapshots

  -- a receipt of another run has one of the ids
  unfoldable pub is_receipt_taken : String → List ProviderSnapshotReceipt → Database → Bool
  unfolding any has other_snapshots
  is_receipt_taken run_id receipts db =
      any
        (λ (item : ProviderSnapshotReceipt).
          has (λ (r : SnapshotRow). r.receipt_id) (other_snapshots run_id db) item.receipt_id)
        receipts

  unfoldable pub replace_provider_snapshot_receipts :
      String → List ProviderSnapshotReceipt → Database → Result Database
  unfolding snapshot_row is_receipt_taken other_snapshots unique
  replace_provider_snapshot_receipts run_id receipts db = do
    raise_if (not (unique (map (λ (i : ProviderSnapshotReceipt). i.provider_id) receipts)))
        "snapshot receipt provider IDs must be unique per run"
    raise_if (not (unique (map (λ (i : ProviderSnapshotReceipt). i.receipt_id) receipts)))
        "snapshot receipt IDs must be unique"
    require_run db run_id
    raise_if (is_receipt_taken run_id receipts db) "UNIQUE constraint failed"
    ok (record db { snapshots = map (snapshot_row run_id) receipts ++ other_snapshots run_id db })

  -- ORDER BY provider_id, receipt_id; a run has one receipt of a provider
  unfoldable pub list_provider_snapshot_receipts :
      String → Database → Result (List ProviderSnapshotReceipt)
  unfolding select sorted_by load_all
  list_provider_snapshot_receipts run_id db = load_all codec.load_snapshot (
      map (λ (r : SnapshotRow). r.payload_json)
        (sorted_by (λ (r : SnapshotRow). r.provider_id)
          (sorted_by (λ (r : SnapshotRow). r.receipt_id)
            (select (λ (r : SnapshotRow). r.run_id) run_id db.snapshots))))

  -- the three lists of payloads that the digest of a validation covers
  unfoldable pub validation_material : String → Database → List (List String)
  unfolding linked_sources select sorted_by
  validation_material run_id db =
      map (λ (r : SourceRow). r.payload_json) (linked_sources codec run_id db)
      ∷ map (λ (r : EvidenceRow). r.payload_json)
          (sorted_by (λ (r : EvidenceRow). r.evidence_id)
            (select (λ (r : EvidenceRow). r.run_id) run_id db.evidence))
      ∷ map (λ (r : SnapshotRow). r.payload_json)
          (sorted_by (λ (r : SnapshotRow). r.provider_id)
            (select (λ (r : SnapshotRow). r.run_id) run_id db.snapshots))
      ∷ []
