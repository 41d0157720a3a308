-- ===== src/Research/Sufficiency.antt =====
-- `evaluate_research_sufficiency` of src/alr_tw/contracts/research.py, in the order of its text.
use alr_tw.Prelude.{
  String, ◌<>◌, Bool, true, false, not, ◌&&◌, ◌||◌, Option, none, some, List, [], ◌∷◌, ◌++◌, map,
  codes, is_infix, non_empty, filter, any, upper_contains, sorted_set, ◌==◌, if◌then◌else◌,
}
use alr_tw.Research.Kinds.{
  ResearchSufficiency, AnswerMode, ObligationKind, is_completed, is_blocked, is_synthetic, kind_eq,
  kind_value,
}
use alr_tw.Research.Coverage.{CoverageState}
use alr_tw.Research.Run.{ResearchObligation, ResearchRun}

pub record ResearchSufficiencyAssessment : Type 0 where
  pub research_sufficiency : ResearchSufficiency
  pub answer_mode : AnswerMode
  pub workflow_complete : Bool
  pub reason_codes : List String
  pub missing_obligations : List ObligationKind

unfoldable is_retryable_reason : String → Bool
unfolding upper_contains any
is_retryable_reason code =
    any (upper_contains code)
      ("UNAVAILABLE" ∷ "TIMEOUT" ∷ "TEMPORARY" ∷ "RATE_LIMIT" ∷ "RETRY" ∷ [])

abbrev pub is_final_validation : ObligationKind → Bool
is_final_validation kind = kind == ObligationKind.final_answer_validation

unfoldable pub non_final : ResearchRun → List ResearchObligation
unfolding filter
non_final run = filter (λ item. not (is_final_validation item.kind)) run.obligations

unfoldable pub is_pending : ResearchObligation → Bool
is_pending item = item.required && not (is_completed item.status)

unfoldable pub pending : ResearchRun → List ResearchObligation
unfolding non_final is_pending
pending run = filter is_pending (non_final run)

unfoldable pub blocked : ResearchRun → List ResearchObligation
unfolding pending
blocked run = filter (λ item. is_blocked item.status) (pending run)

abbrev or_empty : Option String → String
or_empty none = ""
or_empty (some code) = code

unfoldable is_retryable : ResearchObligation → Bool
unfolding is_retryable_reason
is_retryable item =
    is_retryable_reason (or_empty item.blocker_code) || is_retryable_reason item.reason

unfoldable pub retryable_blocked : ResearchRun → List ResearchObligation
unfolding blocked is_retryable
retryable_blocked run = filter is_retryable (blocked run)

-- `item not in retryable_blocked`: equal items are retryable alike
unfoldable pub nonretryable_blocked : ResearchRun → List ResearchObligation
unfolding blocked is_retryable
nonretryable_blocked run = filter (λ item. not (is_retryable item)) (blocked run)

unfoldable pub transient_codes : CoverageState → List String
unfolding is_retryable_reason filter
transient_codes coverage =
    coverage.timeout_reason_codes ++ filter is_retryable_reason coverage.error_reason_codes

-- `prefix + item.kind.value` for each item
unfoldable pub kind_reasons : String → List ObligationKind → List String
unfolding kind_value
kind_reasons prefix kinds = map (λ kind. prefix <> kind_value kind) kinds

abbrev pub kinds_of : List ResearchObligation → List ObligationKind
kinds_of items = map (λ item. item.kind) items

-- one code if the test holds
abbrev pub reason_if : Bool → String → List String
reason_if true code = code ∷ []
reason_if false code = []

-- the reasons about the workflow
unfoldable pub workflow_reasons : ResearchRun → List String
workflow_reasons run =
    reason_if (non_empty (pending run)) "RESEARCH_REQUIRED_OBLIGATION_PENDING"
    ++ (reason_if (non_empty (blocked run)) "RESEARCH_REQUIRED_OBLIGATION_BLOCKED"
        ++ kind_reasons "NON_RETRYABLE_BLOCKED:" (kinds_of (nonretryable_blocked run)))

unfoldable pub retry_reasons : ResearchRun → List String
retry_reasons run =
    kind_reasons "RETRY_REQUIRED:" (kinds_of (retryable_blocked run))
    ++ map (λ code. "RETRY_REQUIRED:" <> code) (transient_codes run.coverage)

-- `kind in required_kinds`
unfoldable pub is_required_kind : ResearchRun → ObligationKind → Bool
unfolding non_final any
is_required_kind run kind = any (λ item. item.required && (item.kind == kind)) (non_final run)

-- the dictionary `required_coverage`; the other kinds have no coverage flag
unfoldable pub required_coverage : CoverageState → ObligationKind → Bool
required_coverage c ObligationKind.law_research = c.law_checked
required_coverage c ObligationKind.judgment_recall = c.judgment_checked
required_coverage c ObligationKind.judgment_official_verification = c.judgment_checked
required_coverage c ObligationKind.constitutional_research = c.constitutional_checked
required_coverage c ObligationKind.counter_authority = c.counter_authority_checked
required_coverage c ObligationKind.legal_time_context = c.time_context_checked
required_coverage c _ = true

-- its keys, in the order of their values, which is that of the sorted result
abbrev covered_kinds : List ObligationKind
covered_kinds =
    ObligationKind.constitutional_research ∷ ObligationKind.counter_authority
    ∷ ObligationKind.judgment_official_verification ∷ ObligationKind.judgment_recall
    ∷ ObligationKind.law_research ∷ ObligationKind.legal_time_context ∷ []

unfoldable pub is_missing : ResearchRun → ObligationKind → Bool
unfolding is_required_kind required_coverage
is_missing run kind = is_required_kind run kind && not (required_coverage run.coverage kind)

unfoldable missing_coverage : ResearchRun → List ObligationKind
unfolding is_missing filter
missing_coverage run = filter (is_missing run) covered_kinds

unfoldable pub soft_missing_coverage : ResearchRun → List ObligationKind
unfolding missing_coverage
soft_missing_coverage run =
    filter (λ kind. kind == ObligationKind.counter_authority) (missing_coverage run)

unfoldable pub hard_missing_coverage : ResearchRun → List ObligationKind
unfolding missing_coverage
hard_missing_coverage run =
    filter (λ kind. not (kind == ObligationKind.counter_authority)) (missing_coverage run)

-- `"HISTORICAL_LAW_VERSION_UNSUPPORTED" in code`, for any code of the receipt
unfoldable pub history_unsupported : CoverageState → Bool
unfolding any
history_unsupported c =
    any (λ code. is_infix (codes "HISTORICAL_LAW_VERSION_UNSUPPORTED") (codes code))
      (c.limitations ++ (c.partial_reason_codes ++ c.error_reason_codes))

unfoldable pub hard_incomplete_reasons : ResearchRun → List String
unfolding is_required_kind history_unsupported
hard_incomplete_reasons run =
    reason_if
      (is_required_kind run ObligationKind.judgment_official_verification
        && run.judgment_recall_incomplete)
      "REQUIRED_COVERAGE_INCOMPLETE:judgment_official_verification"
    ++ reason_if
        (is_required_kind run ObligationKind.legal_time_context && history_unsupported run.coverage)
        "REQUIRED_COVERAGE_INCOMPLETE:legal_time_context"

-- the reasons about coverage, from `COVERAGE_ERROR` on
unfoldable pub coverage_reasons : ResearchRun → List String
coverage_reasons run =
    map (λ code. "COVERAGE_ERROR:" <> code) run.coverage.error_reason_codes
    ++ (reason_if (is_synthetic run.effective_mode) "SYNTHETIC_MODE_NO_LIVE_EVIDENCE"
        ++ (reason_if (not (non_empty run.evidence_ids)) "NO_SERVER_VERIFIED_EVIDENCE"
            ++ (kind_reasons "SOFT_COVERAGE_MISSING:" (soft_missing_coverage run)
                ++ (kind_reasons "REQUIRED_COVERAGE_MISSING:" (hard_missing_coverage run)
                    ++ hard_incomplete_reasons run))))

unfoldable pub has_gaps : ResearchRun → Bool
has_gaps run =
    non_empty run.coverage.partial_reason_codes
    || non_empty run.coverage.timeout_reason_codes
    || non_empty run.coverage.limitations
    || run.semantic_recall_degraded
    || run.judgment_recall_incomplete
    || not run.coverage.coverage_complete
    || non_empty (soft_missing_coverage run)
    || non_empty (hard_missing_coverage run)
    || non_empty (hard_incomplete_reasons run)

-- the test of the third `return`
unfoldable pub is_unsupported : ResearchRun → Bool
is_unsupported run =
    is_synthetic run.effective_mode
    || not (non_empty run.evidence_ids)
    || non_empty run.coverage.error_reason_codes
    || non_empty (hard_missing_coverage run)
    || non_empty (hard_incomplete_reasons run)

-- `if transient_codes or retryable_blocked`
unfoldable pub needs_retry : ResearchRun → Bool
needs_retry run = non_empty (transient_codes run.coverage) || non_empty (retryable_blocked run)

unfoldable pub evaluate_research_sufficiency : ResearchRun → ResearchSufficiencyAssessment
evaluate_research_sufficiency run =
    let workflow_complete = not (non_empty (pending run)) in
    let reasons = workflow_reasons run ++ coverage_reasons run in
    if needs_retry run
    then record {
      research_sufficiency = ResearchSufficiency.retry_required;
      answer_mode = AnswerMode.refusal_only;
      workflow_complete = workflow_complete;
      reason_codes = sorted_set (workflow_reasons run ++ retry_reasons run);
      missing_obligations = kinds_of (pending run);
    }
    else if not workflow_complete
    then record {
      research_sufficiency = ResearchSufficiency.insufficient;
      answer_mode = AnswerMode.refusal_only;
      workflow_complete = false;
      reason_codes = sorted_set reasons;
      missing_obligations = kinds_of (pending run);
    }
    else if is_unsupported run
    then record {
      research_sufficiency = ResearchSufficiency.insufficient;
      answer_mode = AnswerMode.refusal_only;
      workflow_complete = true;
      reason_codes = sorted_set reasons;
      missing_obligations = [];
    }
    else if has_gaps run
    then record {
      research_sufficiency = ResearchSufficiency.qualified;
      answer_mode = AnswerMode.conditional;
      workflow_complete = true;
      reason_codes = sorted_set (reasons ++ "RESEARCH_COVERAGE_QUALIFIED" ∷ []);
      missing_obligations = [];
    }
    else record {
      research_sufficiency = ResearchSufficiency.sufficient;
      answer_mode = AnswerMode.ordinary;
      workflow_complete = true;
      reason_codes = sorted_set reasons;
      missing_obligations = [];
    }
