-- ===== src/Research/Posture.antt =====
-- When a run supports an answer: `evaluate_research_sufficiency` against the facts of the run.
use alr_tw.Prelude.{
  String, Bool, true, false, ◌||◌, ◌≡◌, ◌≢◌, ◌↔◌, refl, List, [], ◌∷◌, ◌++◌, arith, non_empty,
  non_empty-false,
}
use alr_tw.Research.Kinds.{AnswerMode, DataMode, is_synthetic, kind_eq}
use alr_tw.Research.Coverage.{CoverageState}
use alr_tw.Research.Run.{ResearchRun}
use alr_tw.Research.Sufficiency.{
  pending, retryable_blocked, transient_codes, soft_missing_coverage, hard_missing_coverage,
  hard_incomplete_reasons, has_gaps, is_unsupported, needs_retry, evaluate_research_sufficiency,
}
use alr_tw.Research.Obligations.{
  IsSettled, pending_iff, IsCovered, IsCounterCovered, hard_missing_iff, soft_missing_iff,
  IsComplete, hard_incomplete_iff,
}

-- Everything that an answer of any kind rests on.
pub record IsSupported (run : ResearchRun) : Type 0 where
  pub settled : IsSettled run
  pub no_timeouts : run.coverage.timeout_reason_codes ≡ []
  pub no_errors : run.coverage.error_reason_codes ≡ []
  pub live : run.effective_mode ≢ DataMode.synthetic
  pub evidence : run.evidence_ids ≢ []
  pub covered : IsCovered run
  pub complete : IsComplete run

-- What an unqualified answer needs besides.
pub record HasNoGaps (run : ResearchRun) : Type 0 where
  pub no_partial : run.coverage.partial_reason_codes ≡ []
  pub no_limitations : run.coverage.limitations ≡ []
  pub recall_sound : run.semantic_recall_degraded ≡ false
  pub recall_complete : run.judgment_recall_incomplete ≡ false
  pub whole : run.coverage.coverage_complete ≡ true
  pub counter : IsCounterCovered run

refused_test : (run : ResearchRun) → Bool
refused_test run = needs_retry run || non_empty (pending run) || is_unsupported run

ordinary_test :
    (run : ResearchRun)
    → ((evaluate_research_sufficiency run).answer_mode ≡ AnswerMode.ordinary)
      ↔ ((refused_test run ≡ false) × (has_gaps run ≡ false))
unfolding evaluate_research_sufficiency refused_test
ordinary_test run = ground arith

presentable_test :
    (run : ResearchRun)
    → ((evaluate_research_sufficiency run).answer_mode ≢ AnswerMode.refusal_only)
      ↔ (refused_test run ≡ false)
unfolding evaluate_research_sufficiency refused_test
presentable_test run = ground arith

transient-nil :
    (c : CoverageState)
    → c.timeout_reason_codes ≡ []
    → c.error_reason_codes ≡ []
    → transient_codes c ≡ []
unfolding transient_codes
transient-nil c t e = rw (t, e)

retryable-nil : (run : ResearchRun) → pending run ≡ [] → non_empty (retryable_blocked run) ≡ false
unfolding retryable_blocked
retryable-nil run e = rw e

append-nil_left : (xs ys : List String) → xs ++ ys ≡ [] → xs ≡ []
append-nil_left [] ys h = refl
append-nil_left (x ∷ xs) ys h = cc

no_transient :
    (c : CoverageState) → non_empty (transient_codes c) ≡ false → c.timeout_reason_codes ≡ []
unfolding transient_codes
no_transient c h = append-nil_left c.timeout_reason_codes _ (non_empty-false _ h)

refused_test_parts :
    (run : ResearchRun)
    → refused_test run ≡ false
    → (non_empty (transient_codes run.coverage) ≡ false)
      × (non_empty (pending run) ≡ false)
      × (is_synthetic run.effective_mode ≡ false)
      × (non_empty run.evidence_ids ≡ true)
      × (non_empty run.coverage.error_reason_codes ≡ false)
      × (non_empty (hard_missing_coverage run) ≡ false)
      × (non_empty (hard_incomplete_reasons run) ≡ false)
unfolding refused_test needs_retry is_unsupported
refused_test_parts run h = ground arith

refused_test_of_parts :
    (run : ResearchRun)
    → non_empty (transient_codes run.coverage) ≡ false
    → non_empty (retryable_blocked run) ≡ false
    → non_empty (pending run) ≡ false
    → run.effective_mode ≢ DataMode.synthetic
    → run.evidence_ids ≢ []
    → run.coverage.error_reason_codes ≡ []
    → non_empty (hard_missing_coverage run) ≡ false
    → non_empty (hard_incomplete_reasons run) ≡ false
    → refused_test run ≡ false
unfolding refused_test needs_retry is_unsupported
refused_test_of_parts run t b p m e r hm hi = ground arith

supported→not_refused : (run : ResearchRun) → IsSupported run → refused_test run ≡ false
supported→not_refused run s =
    let idle = (pending_iff run).1 s.settled in
    refused_test_of_parts run (rw (transient-nil run.coverage s.no_timeouts s.no_errors))
      (retryable-nil run (non_empty-false _ idle)) idle s.live s.evidence s.no_errors
      ((hard_missing_iff run).1 s.covered) ((hard_incomplete_iff run).1 s.complete)

not_refused→supported : (run : ResearchRun) → refused_test run ≡ false → IsSupported run
not_refused→supported run h =
    let (t, p, m, e, r, hm, hi) = refused_test_parts run h in
    record {
      settled = (pending_iff run).0 p;
      no_timeouts = no_transient run.coverage t;
      no_errors = non_empty-false _ r;
      live = ground arith;
      evidence = λ q. ground arith;
      covered = (hard_missing_iff run).0 hm;
      complete = (hard_incomplete_iff run).0 hi;
    }

-- A run gets an answer mode other than refusal exactly when every due obligation is completed, no
-- timeout and no error is recorded, the mode is not synthetic, evidence is present, and every
-- required kind but counter-authority is covered and complete.
pub presentable_iff :
    (run : ResearchRun)
    → ((evaluate_research_sufficiency run).answer_mode ≢ AnswerMode.refusal_only) ↔ IsSupported run
presentable_iff run = (
  (λ h. not_refused→supported run ((presentable_test run).0 h)),
  (λ s. (presentable_test run).1 (supported→not_refused run s)),
)

no_gaps_parts :
    (run : ResearchRun)
    → run.coverage.timeout_reason_codes ≡ []
    → non_empty (hard_missing_coverage run) ≡ false
    → non_empty (hard_incomplete_reasons run) ≡ false
    → (has_gaps run ≡ false) ↔ (
        (run.coverage.partial_reason_codes ≡ [])
        × (run.coverage.limitations ≡ [])
        × (run.semantic_recall_degraded ≡ false)
        × (run.judgment_recall_incomplete ≡ false)
        × (run.coverage.coverage_complete ≡ true)
        × (non_empty (soft_missing_coverage run) ≡ false))
unfolding has_gaps
no_gaps_parts run t hm hi = ground arith

no_gaps_iff : (run : ResearchRun) → IsSupported run → (has_gaps run ≡ false) ↔ HasNoGaps run
no_gaps_iff run s =
    let parts =
      no_gaps_parts run s.no_timeouts ((hard_missing_iff run).1 s.covered)
        ((hard_incomplete_iff run).1 s.complete) in
    (
      (λ h.
          let (p, l, d, j, w, m) = parts.0 h in
          record {
            no_partial = p;
            no_limitations = l;
            recall_sound = d;
            recall_complete = j;
            whole = w;
            counter = (soft_missing_iff run).0 m;
          }),
      (λ g. parts.1 (
        g.no_partial,
        g.no_limitations,
        g.recall_sound,
        g.recall_complete,
        g.whole,
        (soft_missing_iff run).1 g.counter,
      )),
    )

-- A run gets the ordinary mode exactly when it is supported and has no gap of any kind.
pub ordinary_iff :
    (run : ResearchRun)
    → ((evaluate_research_sufficiency run).answer_mode ≡ AnswerMode.ordinary)
      ↔ (IsSupported run × HasNoGaps run)
ordinary_iff run = (to, from)
  where
    to :
        (evaluate_research_sufficiency run).answer_mode ≡ AnswerMode.ordinary
        → IsSupported run × HasNoGaps run
    to h =
        let (r, g) = (ordinary_test run).0 h in
        let s = not_refused→supported run r in (s, (no_gaps_iff run s).0 g)

    from :
        IsSupported run × HasNoGaps run
        → (evaluate_research_sufficiency run).answer_mode ≡ AnswerMode.ordinary
    from (s, g) = (ordinary_test run).1 (supported→not_refused run s, (no_gaps_iff run s).1 g)
