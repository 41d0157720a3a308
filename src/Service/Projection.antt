-- ===== src/Service/Projection.antt =====
-- What a finalization decision sees of a run: `_run_with_eligible_refs`,
-- `_assessed_finalization_runs`, `_snapshot_receipts_for_finalization` and
-- `get_finalization_contract` of src/alr_tw/research/service.py, on what the store lists for the run.
use alr_tw.Prelude.{
  ℕ, String, Bool, not, ◌&&◌, ◌||◌, none, List, [], ◌∷◌, ◌++◌, map, filter, any, contains, sorted,
  sorted_set, ltb, non_empty, Result, ok, ◌>>=◌, ◌>>◌, raise_if, ◌==◌, string_eq, if◌then◌else◌,
}
use alr_tw.Research.Run.{ResearchRun, ResearchBlocker}
use alr_tw.Sources.{SourceRecord, EvidenceSpan}
use alr_tw.Snapshot.{ProviderSnapshotReceipt}
use alr_tw.RunReceipts.{Payload, is_evidence_eligible}
use alr_tw.RunReceipts.Issue.{check_run_snapshot_receipts, mark_receipts_inconsistent}
use alr_tw.Finalization.Contract.{FinalizationContract}
use alr_tw.Finalization.FromRun.{build_finalization_from_run}
use alr_tw.Service.Outcomes.{minus}
use alr_tw.Service.Advance.{is_expired, refresh_sufficiency}
use alr_tw.Service.Execution.{with_refs}

-- what the store lists for the run
pub record Material : Type 0 where
  pub sources : List SourceRecord
  pub evidence : List EvidenceSpan
  pub receipts : List ProviderSnapshotReceipt

abbrev pub ids_of_sources : List SourceRecord → List String
ids_of_sources sources = map (λ (s : SourceRecord). s.source_id) sources

abbrev pub ids_of_evidence : List EvidenceSpan → List String
ids_of_evidence evidence = map (λ (e : EvidenceSpan). e.evidence_id) evidence

abbrev pub is_current_source : ℕ → SourceRecord → Bool
is_current_source now item =
    is_evidence_eligible item.trust_status && ltb now item.expires_at.micros

-- the keys of `eligible_sources`
unfoldable pub eligible_source_ids : ℕ → List SourceRecord → List String
unfolding filter
eligible_source_ids now sources = ids_of_sources (filter (is_current_source now) sources)

unfoldable pub eligible_evidence : ℕ → Material → List EvidenceSpan
unfolding filter contains eligible_source_ids
eligible_evidence now material =
    filter
      (λ (e : EvidenceSpan).
        e.eligible_for_claim_support
        && contains (eligible_source_ids now material.sources) e.source_id)
      material.evidence

-- `dropped_evidence or dropped_sources`
unfoldable pub is_dropped : ℕ → Material → ResearchRun → Bool
unfolding minus eligible_evidence eligible_source_ids
is_dropped now material run =
    non_empty (minus run.evidence_ids (ids_of_evidence (eligible_evidence now material)))
    || non_empty (minus run.source_ids (eligible_source_ids now material.sources))

unfoldable pub stale_limitations : Bool → List String → List String
unfolding contains
stale_limitations dropped limitations =
    if dropped && not (contains limitations "SERVER_EVIDENCE_STALE_OR_INELIGIBLE")
    then limitations ++ "SERVER_EVIDENCE_STALE_OR_INELIGIBLE" ∷ []
    else limitations

unfoldable pub unavailable_blockers : Bool → List ResearchBlocker → List ResearchBlocker
unfolding any
unavailable_blockers unavailable blockers =
    if unavailable && not (any (λ item. item.code == "SERVER_EVIDENCE_UNAVAILABLE") blockers)
    then blockers
      ++ (record {
        code = "SERVER_EVIDENCE_UNAVAILABLE";
        message = "研究仍保留 server evidence 參照，但目前沒有同時具備 EVIDENCE_ELIGIBLE、未過期且正確連結的 evidence。";
        obligation = none;
      })
        ∷ []
    else blockers

-- `_run_with_eligible_refs`
unfoldable pub with_eligible_refs : ℕ → Material → ResearchRun → ResearchRun
unfolding eligible_evidence eligible_source_ids is_dropped stale_limitations unavailable_blockers
    sorted sorted_set
with_eligible_refs now material run =
    let eligible = eligible_evidence now material in
    record run {
      source_ids = sorted_set (eligible_source_ids now material.sources);
      evidence_ids = sorted (ids_of_evidence eligible);
      coverage = record run.coverage {
        limitations = stale_limitations (is_dropped now material run) run.coverage.limitations;
      };
      blockers =
          unavailable_blockers (non_empty run.evidence_ids && not (non_empty eligible))
            run.blockers;
    }

-- the first of `_assessed_finalization_runs`
unfoldable pub full_run : Material → ResearchRun → ResearchRun
unfolding with_refs
full_run material run =
    with_refs run (ids_of_sources material.sources) (ids_of_evidence material.evidence)

-- the second of `_assessed_finalization_runs`
unfoldable pub assessed_run : ℕ → Material → ResearchRun → Result ResearchRun
unfolding full_run with_eligible_refs refresh_sufficiency
assessed_run now material run =
    refresh_sufficiency (with_eligible_refs now material (full_run material run))

module _ (digest : List String → String) (seal : Payload → String) (sha256 : String → String) where
  -- `_snapshot_receipts_for_finalization`
  unfoldable pub receipts_for_finalization :
      ℕ → Material → ResearchRun → List ProviderSnapshotReceipt
  unfolding check_run_snapshot_receipts mark_receipts_inconsistent
  receipts_for_finalization now material run =
      let check =
        check_run_snapshot_receipts seal sha256 run material.sources material.evidence
          material.receipts now in
      if check.valid then material.receipts else mark_receipts_inconsistent material.receipts

  -- `get_finalization_contract`: the run that is saved before the contract is built, and what the
  -- building comes to
  unfoldable pub get_finalization_contract :
      ℕ → Material → ResearchRun → Result (ResearchRun × Result FinalizationContract)
  unfolding assessed_run full_run receipts_for_finalization build_finalization_from_run
  get_finalization_contract now material run =
      raise_if (is_expired run now) "RESEARCH_RUN_EXPIRED"
      >> (assessed_run now material run >>= (λ assessed. ok (
        record (full_run material run) {
          workflow_complete = assessed.workflow_complete;
          research_sufficiency = assessed.research_sufficiency;
          answer_mode = assessed.answer_mode;
        },
        build_finalization_from_run digest assessed (record {
          snapshot_receipts = receipts_for_finalization now material assessed;
          claim_support_summary = none;
          privacy_allowed = none;
          now = now;
        }),
      )))
