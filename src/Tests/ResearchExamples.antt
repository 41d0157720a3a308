-- ===== src/Tests/ResearchExamples.antt =====
-- The research theorems at a run that is fully covered.
use alr_tw.Prelude.{
  ◌≡◌, ◌≢◌, ◌↔◌, ◌⊎◌, ◌<◌, refl, inl, not, non_empty, map, contains, any, ok, string_eq,
}
use mathlib.Core.List.{Sublistᴰ}
use alr_tw.Research.Kinds.{ResearchState, AnswerMode, DataMode}
use alr_tw.Research.Run.{ResearchRun}
use alr_tw.Research.Sufficiency.{
  evaluate_research_sufficiency, kinds_of, pending, needs_retry, transient_codes, retryable_blocked,
  is_unsupported, hard_missing_coverage, hard_incomplete_reasons, has_gaps, soft_missing_coverage,
}
use alr_tw.Research.Posture.{IsSupported, HasNoGaps, presentable_iff, ordinary_iff}
use alr_tw.Research.Reasons.{assessment_agrees, mode_of}
use alr_tw.Research.Transitions.{transition_run, allowed_transitions}
use alr_tw.Research.Paths.{plan, ⟶-accepted, apply_requests, stage}
use alr_tw.Research.Routes.{apply_requests-stage, answered_route, route}
use alr_tw.Tests.Samples.{sample_run, workflow, instant}

presentable_iff_example :
    ((evaluate_research_sufficiency sample_run).answer_mode ≢ AnswerMode.refusal_only)
    ↔ IsSupported sample_run
presentable_iff_example = presentable_iff sample_run

ordinary_iff_example :
    ((evaluate_research_sufficiency sample_run).answer_mode ≡ AnswerMode.ordinary)
    ↔ (IsSupported sample_run × HasNoGaps sample_run)
ordinary_iff_example = ordinary_iff sample_run

-- The run of the samples is supported and has no gap.
sample_ordinary : (evaluate_research_sufficiency sample_run).answer_mode ≡ AnswerMode.ordinary
unfolding evaluate_research_sufficiency needs_retry transient_codes retryable_blocked is_unsupported
    hard_missing_coverage hard_incomplete_reasons has_gaps soft_missing_coverage
sample_ordinary = refl

-- In the synthetic mode it is refused.
synthetic_refused :
    (evaluate_research_sufficiency
      (record sample_run { effective_mode = DataMode.synthetic })).answer_mode
    ≡ AnswerMode.refusal_only
unfolding evaluate_research_sufficiency needs_retry transient_codes retryable_blocked is_unsupported
    hard_missing_coverage hard_incomplete_reasons has_gaps soft_missing_coverage
synthetic_refused = refl

assessment_agrees_example :
    ((evaluate_research_sufficiency sample_run).answer_mode
      ≡ mode_of (evaluate_research_sufficiency sample_run).research_sufficiency)
    × ((evaluate_research_sufficiency sample_run).workflow_complete
        ≡ not (non_empty (pending sample_run)))
    × ((evaluate_research_sufficiency sample_run).missing_obligations
        ≡ kinds_of (pending sample_run))
assessment_agrees_example = assessment_agrees sample_run

abbrev planned : ResearchRun
planned = record sample_run { state = ResearchState.planning; updated_at = instant 3 }

sample_planned : transition_run sample_run ResearchState.planning (instant 3) ≡ ok planned
unfolding transition_run allowed_transitions contains any
sample_planned = refl

⟶-accepted_example : transition_run sample_run ResearchState.planning (instant 3) ≡ ok planned
⟶-accepted_example = ⟶-accepted sample_run ResearchState.planning (instant 3) plan

-- The early request for a validated answer raises, the rest go through.
sample_validated : (apply_requests sample_run workflow).state ≡ ResearchState.validated
unfolding apply_requests transition_run allowed_transitions contains any
sample_validated = refl

apply_requests-stage_example :
    ((apply_requests sample_run workflow).state ≡ sample_run.state)
    ⊎ (stage sample_run.state < stage (apply_requests sample_run workflow).state)
apply_requests-stage_example = apply_requests-stage sample_run workflow

answered_route_example :
    Sublistᴰ (route ResearchState.validated sample_run.state) (map (λ r. r.target) workflow)
answered_route_example =
    answered_route ResearchState.validated sample_run workflow (inl refl) sample_validated
