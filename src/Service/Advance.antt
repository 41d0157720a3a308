-- ===== src/Service/Advance.antt =====
-- One step of the research: the pure part of `ResearchService.continue_run` of
-- src/alr_tw/research/service.py, from the outcome of the executor to the run that is saved, and
-- `_refresh_sufficiency`. The progress of a bounded counter-authority search, which is passed
-- through, is left out.
use alr_tw.Prelude.{
  ℕ, leb, String, Bool, true, false, not, ◌&&◌, ◌||◌, Option, none, some, List, [], ◌∷◌, ◌++◌, any,
  filter, contains, sorted, sorted_set, non_empty, Result, ok, ◌>>=◌, ◌==◌, string_eq, nat_eq,
  list_eq, bool_eq, if◌then◌else◌, all,
}
use alr_tw.Research.Kinds.{
  ResearchState, ObligationKind, ObligationStatus, PrivacyStatus, kind_eq, state_eq, is_hybrid,
  is_server_managed,
}
use alr_tw.Research.Coverage.{CoverageState, scope_has_text, validate_coverage_receipt}
use alr_tw.Research.Run.{ResearchObligation, ResearchRun, Datetime}
use alr_tw.Research.Sufficiency.{is_final_validation, evaluate_research_sufficiency}
use alr_tw.Research.Transitions.{transition_run}
use alr_tw.Service.Outcomes.{
  Outcome, OutcomeMetadata, upper_codes, is_among, is_retryable_derived_code,
  retryable_outcome_codes, filter_optional_tlr_retry_codes, nonblocking_recall_codes,
  required_coverage_complete, minus, apply_outcome_coverage,
}

abbrev pub is_pending_status : ObligationStatus → Bool
is_pending_status ObligationStatus.pending = true
is_pending_status _ = false

abbrev is_registered : Option String → Bool
is_registered none = false
is_registered (some plan) = true

-- `run.expires_at <= timestamp`
abbrev pub is_expired : ResearchRun → ℕ → Bool
is_expired run now = leb run.expires_at.micros now

abbrev pub awaits_plan : ResearchRun → Bool
awaits_plan run =
    not (is_server_managed run.discovery_mode) && not (is_registered run.registered_plan)

-- what `continue_run` has still to do
unfoldable pub is_outstanding : ResearchObligation → Bool
is_outstanding item = is_pending_status item.status && not (is_final_validation item.kind)

unfoldable pub outstanding : List ResearchObligation → List ResearchObligation
unfolding filter is_outstanding
outstanding items = filter is_outstanding items

unfoldable pub start_research : ResearchRun → Datetime → Result ResearchRun
unfolding transition_run
start_research run at =
    if run.state == ResearchState.planning
    then transition_run run ResearchState.researching at
    else ok run

abbrev is_counter : ResearchObligation → Bool
is_counter item = item.kind == ObligationKind.counter_authority

abbrev pub is_recall_complete : ResearchRun → ResearchObligation → Bool
is_recall_complete run item =
    (item.kind == ObligationKind.judgment_recall) && not run.judgment_recall_incomplete

-- The codes for which the obligation is to be tried again: `before` is the run that was given to the
-- executor, `run` the run with the updates of the executor.
unfoldable pub with_derived : ResearchRun → ResearchRun → List String → List String
unfolding filter minus is_retryable_derived_code sorted_set
with_derived before run codes =
    if non_empty codes
    then sorted_set (
        codes
        ++ filter is_retryable_derived_code
            (minus run.coverage.limitations before.coverage.limitations))
    else codes

unfoldable pub with_semantic : ResearchRun → Outcome → List String → List String
unfolding is_among upper_codes any sorted_set
with_semantic before outcome codes =
    if non_empty codes
      && not before.semantic_recall_degraded
      && is_among outcome.warnings (upper_codes "SEMANTIC_RECALL_DEGRADED")
    then sorted_set (codes ++ "SEMANTIC_RECALL_DEGRADED" ∷ [])
    else codes

unfoldable pub retry_codes : ResearchRun → ResearchRun → ResearchObligation → Outcome → List String
unfolding with_derived with_semantic retryable_outcome_codes filter_optional_tlr_retry_codes
retry_codes before run item outcome = with_semantic before outcome (
    with_derived before run (
      filter_optional_tlr_retry_codes outcome (retryable_outcome_codes outcome)
        (is_recall_complete run item)))

unfoldable pub diagnostic_codes : ResearchObligation → Option OutcomeMetadata → List String
unfolding filter sorted_set
diagnostic_codes item none = []
diagnostic_codes item (some metadata) =
    if is_counter item
    then sorted_set (filter (λ code. not (code == "")) metadata.reason_codes)
    else []

-- `updated_obligation`
unfoldable pub updated_obligation :
    ResearchObligation → List String → List String → ResearchObligation
updated_obligation item [] diagnostics = record item {
  status = ObligationStatus.completed;
  reason = "";
  blocker_code = none;
  retryable_reason_codes = [];
  counter_authority_diagnostic_codes =
      if is_counter item then [] else item.counter_authority_diagnostic_codes;
}
updated_obligation item (code ∷ codes) diagnostics = record item {
  status = ObligationStatus.pending;
  reason = "retryable provider outcome; retry with a new operation_id";
  blocker_code = some code;
  retryable_reason_codes = code ∷ codes;
  counter_authority_diagnostic_codes =
      if is_counter item then diagnostics else item.counter_authority_diagnostic_codes;
}

-- every obligation of the kind is replaced
unfoldable pub replace_obligation :
    ResearchObligation → List ResearchObligation → List ResearchObligation
replace_obligation updated [] = []
replace_obligation updated (item ∷ items) =
    (if item.kind == updated.kind then updated else item) ∷ replace_obligation updated items

abbrev is_verifying_kind : ObligationKind → Bool
is_verifying_kind kind =
    (kind == ObligationKind.judgment_official_verification)
    || (kind == ObligationKind.evidence_sufficiency)

-- the transitions after a step
unfoldable pub next_state :
    ResearchRun → ResearchObligation → List String → Datetime → Result ResearchRun
unfolding outstanding transition_run
next_state run item codes at =
    if not (non_empty (outstanding run.obligations))
    then transition_run run ResearchState.verifying at
      >>= (λ run. transition_run run ResearchState.ready_for_draft at)
    else if not (non_empty codes)
        && is_verifying_kind item.kind
        && (run.state == ResearchState.researching)
    then transition_run run ResearchState.verifying at
    else ok run

abbrev is_screened : PrivacyStatus → Bool
is_screened PrivacyStatus.safe = true
is_screened PrivacyStatus.redacted_safe = true
is_screened _ = false

-- a retry that went well takes the degradation back that the first try had noted
unfoldable pub restore_recall : ResearchRun → ResearchObligation → List String → ResearchRun
unfolding contains
restore_recall run item codes =
    if not (non_empty codes) && contains item.retryable_reason_codes "SEMANTIC_RECALL_DEGRADED"
    then record run {
      semantic_recall_degraded = false;
      effective_mode =
          if is_hybrid run.requested_mode && is_screened run.privacy_status
          then run.requested_mode
          else run.effective_mode;
    }
    else run

abbrev has_no_gaps : CoverageState → Bool
has_no_gaps c =
    not (non_empty c.limitations)
    && not (non_empty c.partial_reason_codes)
    && not (non_empty c.error_reason_codes)
    && not (non_empty c.timeout_reason_codes)

-- `coverage_complete` of `_refresh_sufficiency`
unfoldable pub is_coverage_complete : ResearchRun → Bool
unfolding required_coverage_complete evaluate_research_sufficiency
is_coverage_complete run =
    (evaluate_research_sufficiency run).workflow_complete
    && non_empty run.evidence_ids
    && required_coverage_complete run
    && has_no_gaps run.coverage
    && not run.semantic_recall_degraded
    && not run.judgment_recall_incomplete

-- `absence_claim_allowed`
unfoldable pub is_absence_allowed : CoverageState → Bool
unfolding all contains scope_has_text
is_absence_allowed c =
    c.coverage_complete
    && c.counter_authority_checked
    && scope_has_text c.bounded_query_scope
    && non_empty c.selected_provider_scope
    && all (contains c.successful_provider_scope) c.selected_provider_scope
    && has_no_gaps c

-- the coverage with the two flags derived anew
unfoldable pub derived_coverage : ResearchRun → CoverageState
unfolding is_coverage_complete is_absence_allowed
derived_coverage run =
    let c = record run.coverage { coverage_complete = is_coverage_complete run } in
    record c { absence_claim_allowed = is_absence_allowed c }

abbrev is_coverage_changed : ResearchRun → Bool
is_coverage_changed run =
    not (run.coverage.coverage_complete == (derived_coverage run).coverage_complete)
    || not (run.coverage.absence_claim_allowed == (derived_coverage run).absence_claim_allowed)

-- The assessment is written into the run; a changed coverage is validated again.
unfoldable pub assess : ResearchRun → ResearchRun
unfolding evaluate_research_sufficiency
assess run =
    let assessment = evaluate_research_sufficiency run in
    record run {
      workflow_complete = assessment.workflow_complete;
      research_sufficiency = assessment.research_sufficiency;
      answer_mode = assessment.answer_mode;
    }

-- `_refresh_sufficiency`
unfoldable pub refresh_sufficiency : ResearchRun → Result ResearchRun
unfolding derived_coverage assess validate_coverage_receipt
refresh_sufficiency run =
    if is_coverage_changed run
    then validate_coverage_receipt (derived_coverage run)
      >>= (λ coverage. ok (assess (record run { coverage = coverage })))
    else ok (assess run)

-- the run once the obligation is updated and the references are those of the store
unfoldable pub with_outcome :
    ResearchRun
    → ResearchObligation
    → List String
    → Outcome
    → List String
    → List String
    → Datetime
    → ResearchRun
unfolding updated_obligation replace_obligation diagnostic_codes sorted
with_outcome run item codes outcome source_ids evidence_ids at = record run {
  obligations =
      replace_obligation (updated_obligation item codes (diagnostic_codes item outcome.metadata))
        run.obligations;
  updated_at = at;
  source_ids = sorted source_ids;
  evidence_ids = sorted evidence_ids;
}

-- the codes that a new try of the obligation takes back
unfoldable pub cleared_codes : ResearchObligation → List String
cleared_codes item =
    item.retryable_reason_codes
    ++ (if is_counter item then item.counter_authority_diagnostic_codes else [])

-- From the executor's outcome to the run that is saved. `before` is the run that the executor was
-- given, `run` that run with the budget and the updates of the executor; `source_ids` and
-- `evidence_ids` are those of the store.
unfoldable pub advance :
    ResearchRun
    → ResearchRun
    → ResearchObligation
    → Outcome
    → List String
    → List String
    → Datetime
    → Result ResearchRun
unfolding with_outcome next_state apply_outcome_coverage restore_recall refresh_sufficiency
    cleared_codes nonblocking_recall_codes
advance before run item outcome source_ids evidence_ids at =
    let codes = retry_codes before run item outcome in
    next_state (with_outcome run item codes outcome source_ids evidence_ids at) item codes at
    >>= (λ moved. refresh_sufficiency (
        restore_recall
          (apply_outcome_coverage moved outcome (cleared_codes item)
            (nonblocking_recall_codes outcome (is_recall_complete run item)))
          item codes))
