-- ===== src/Storage/Integrity.antt =====
-- What the schema of src/alr_tw/storage/sqlite_store.py promises of the tables, and what `save_evidence`
-- adds: keys are not repeated, a row refers to a run and a source that are there, and a span stands
-- on a source that its run is linked to.
pub mod References
pub mod Writes
pub mod Records
pub mod Deletions
pub mod Replacement
pub mod Histories
use alr_tw.Prelude.{String, Bool, true, ◌≡◌, refl, List, [], ◌∷◌, arith, Eq, string_eq, pair_eq}
use alr_tw.Storage.Tables.{has, keyed}
use alr_tw.Storage.Rows.{
  RunRow, ObligationRow, obligation_key, OperationRow, operation_key, SourceRow, LinkRow, link_key,
  EvidenceRow, evidence_key, evidence_link, CandidateRow, candidate_key, CacheRow, RelationRow,
  SnapshotRow, snapshot_key, Database, empty_database,
}
use alr_tw.Storage.Deletion.{run_key, source_key}

-- every key on the left is one on the right
abbrev pub Refers {ℓ} : {K : Type ℓ} → (K → Bool) → (K → Bool) → Type ℓ
Refers {K} child parent = (k : K) → child k ≡ true → parent k ≡ true

abbrev pub IsRuns : List RunRow → Type 0
IsRuns rows = keyed run_key rows ≡ true

abbrev pub IsSources : List SourceRow → Type 0
IsSources rows = keyed source_key rows ≡ true

module _ (runs : List RunRow) where
  abbrev pub IsObligations : List ObligationRow → Type 0
  IsObligations rows =
      (keyed obligation_key rows ≡ true)
      × Refers (has (λ (r : ObligationRow). r.run_id) rows) (has run_key runs)

  abbrev pub IsOperations : List OperationRow → Type 0
  IsOperations rows =
      (keyed operation_key rows ≡ true)
      × Refers (has (λ (r : OperationRow). r.run_id) rows) (has run_key runs)

  abbrev pub IsCandidates : List CandidateRow → Type 0
  IsCandidates rows =
      (keyed candidate_key rows ≡ true)
      × Refers (has (λ (r : CandidateRow). r.run_id) rows) (has run_key runs)

  abbrev pub IsRelations : List RelationRow → Type 0
  IsRelations rows =
      (keyed (λ (r : RelationRow). r.receipt_id) rows ≡ true)
      × Refers (has (λ (r : RelationRow). r.run_id) rows) (has run_key runs)

  abbrev pub IsSnapshots : List SnapshotRow → Type 0
  IsSnapshots rows =
      (keyed snapshot_key rows ≡ true)
      × (keyed (λ (r : SnapshotRow). r.receipt_id) rows ≡ true)
      × Refers (has (λ (r : SnapshotRow). r.run_id) rows) (has run_key runs)

  abbrev pub IsLinks : List SourceRow → List LinkRow → Type 0
  IsLinks sources rows =
      (keyed link_key rows ≡ true)
      × Refers (has (λ (r : LinkRow). r.run_id) rows) (has run_key runs)
      × Refers (has (λ (r : LinkRow). r.source_id) rows) (has source_key sources)

abbrev pub IsEvidence : List LinkRow → List EvidenceRow → Type 0
IsEvidence links rows =
    (keyed evidence_key rows ≡ true) × Refers (has evidence_link rows) (has link_key links)

abbrev pub IsCaches : List SourceRow → List CacheRow → Type 0
IsCaches sources rows =
    (keyed (λ (r : CacheRow). r.cache_key) rows ≡ true)
    × Refers (has (λ (r : CacheRow). r.source_id) rows) (has source_key sources)

pub record IsSound (db : Database) : Type 0 where
  pub runs : IsRuns db.runs
  pub sources : IsSources db.sources
  pub obligations : IsObligations db.runs db.obligations
  pub operations : IsOperations db.runs db.operations
  pub links : IsLinks db.runs db.sources db.links
  pub evidence : IsEvidence db.links db.evidence
  pub candidates : IsCandidates db.runs db.candidates
  pub caches : IsCaches db.sources db.caches
  pub relations : IsRelations db.runs db.relations
  pub snapshots : IsSnapshots db.runs db.snapshots

pub empty-IsSound : IsSound empty_database
unfolding keyed has
empty-IsSound = record {
  runs = refl;
  sources = refl;
  obligations = (refl, λ k h. cc);
  operations = (refl, λ k h. cc);
  links = (refl, (λ k h. cc), (λ k h. cc));
  evidence = (refl, λ k h. cc);
  candidates = (refl, λ k h. cc);
  caches = (refl, λ k h. cc);
  relations = (refl, λ k h. cc);
  snapshots = (refl, refl, λ k h. cc);
}
