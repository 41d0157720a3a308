-- ===== src/Finalization/FromRun.antt =====
-- `build_finalization_from_run` of src/alr_tw/contracts/finalization.py.
use alr_tw.Prelude.{
  ℕ, String, Bool, false, not, ◌&&◌, ◌||◌, Option, none, some, List, [], ◌∷◌, Result, ok, ◌>>=◌,
  ◌>>◌, non_empty, if◌then◌else◌,
}
use alr_tw.Research.Kinds.{ObligationKind}
use alr_tw.Research.Coverage.{scope_has_text}
use alr_tw.Research.Run.{ResearchRun, ResearchBlocker}
use alr_tw.Research.Sufficiency.{is_required_kind, evaluate_research_sufficiency}
use alr_tw.Snapshot.{ProviderSnapshotReceipt}
use alr_tw.Finalization.Gates.{
  FinalizationBlocker, CounterAuthorityGate, AbsenceClaimGate, check_blocker, check_counter_gate,
  check_absence_gate,
}
use alr_tw.Finalization.Contract.{FinalizationContract}
use alr_tw.Finalization.Build.{Facts, blocker, build_finalization_contract}

-- the split receipt if it was written, else the aggregate flag
split_or_aggregate : Option Bool → Bool → Bool
split_or_aggregate none aggregate = aggregate
split_or_aggregate (some split) aggregate = split

unfoldable pub counter_complete : ResearchRun → Bool
unfolding split_or_aggregate
counter_complete run =
    not (is_required_kind run ObligationKind.counter_authority)
    || (run.coverage.counter_authority_checked
        && split_or_aggregate run.coverage.counter_authority_coverage_complete
            run.coverage.coverage_complete)

unfoldable pub time_context_complete : ResearchRun → Bool
time_context_complete run =
    not (is_required_kind run ObligationKind.legal_time_context)
    || run.coverage.time_context_checked

unfoldable pub run_counter_gate : ResearchRun → CounterAuthorityGate
run_counter_gate run = record {
  required = is_required_kind run ObligationKind.counter_authority;
  coverage_complete = counter_complete run;
  consensus_claim_requested = false;
  consensus_claim_allowed = false;
  limitations = run.coverage.limitations;
}

unfoldable pub run_absence_gate : ResearchRun → AbsenceClaimGate
run_absence_gate run =
    let allowed =
      run.coverage.absence_claim_allowed && scope_has_text run.coverage.bounded_query_scope in
    record {
      requested = false;
      allowed = allowed;
      scope = run.coverage.bounded_query_scope;
      reason_codes =
          if allowed
          then []
          else (if run.coverage.absence_claim_allowed
              then "ABSENCE_CLAIM_SCOPE_MISSING"
              else "ABSENCE_CLAIM_NOT_ESTABLISHED")
            ∷ [];
    }

-- `FinalizationBlocker(code=item.code, message=item.message)` for each blocker of the run
unfoldable pub run_blockers : List ResearchBlocker → Result (List FinalizationBlocker)
run_blockers [] = ok []
run_blockers (item ∷ rest) = do
  first ← check_blocker (blocker item.code item.message)
  others ← run_blockers rest
  ok (first ∷ others)

-- What the caller adds to the run.
pub record Extras : Type 0 where
  pub snapshot_receipts : List ProviderSnapshotReceipt
  pub claim_support_summary : Option (Option Bool)
  pub privacy_allowed : Option Bool
  pub now : ℕ

-- the arguments that are passed on
unfoldable pub run_facts : ResearchRun → Extras → List FinalizationBlocker → Facts
run_facts run extras blockers =
    let assessment = evaluate_research_sufficiency run in
    record {
      run_id = run.run_id;
      workflow_complete = assessment.workflow_complete;
      research_sufficiency = assessment.research_sufficiency;
      allowed_source_ids = run.source_ids;
      allowed_evidence_ids = run.evidence_ids;
      coverage_complete = run.coverage.coverage_complete;
      time_context_complete = time_context_complete run;
      authority_complete = run.coverage.coverage_complete;
      required_evidence_available = non_empty run.evidence_ids;
      counter_authority = run_counter_gate run;
      absence_claim = run_absence_gate run;
      required_qualification = assessment.reason_codes;
      pending_support = [];
      pending_lookups = [];
      blockers = blockers;
      safe_next_actions = [];
      retryable = false;
      snapshot_receipts = extras.snapshot_receipts;
      server_source_ids = some run.source_ids;
      server_evidence_ids = some run.evidence_ids;
      server_snapshot_receipts = some extras.snapshot_receipts;
      research_schema_version = "alr-tw.research-run/v1";
      claim_support_summary = extras.claim_support_summary;
      privacy_allowed = extras.privacy_allowed;
      now = extras.now;
    }

module _ (digest : List String → String) where
  -- `build_finalization_from_run`
  unfoldable pub build_finalization_from_run : ResearchRun → Extras → Result FinalizationContract
  build_finalization_from_run run extras = do
    check_counter_gate (run_counter_gate run)
    check_absence_gate (run_absence_gate run)
    blockers ← run_blockers run.blockers
    build_finalization_contract digest (run_facts run extras blockers)
