-- ===== src/Research/Reasons.antt =====
-- What an assessment says of itself: its reasons, its missing obligations and its two verdicts.
use alr_tw.Prelude.{
  String, Bool, true, false, not, ◌&&◌, ◌||◌, ◌≡◌, refl, List, [], ◌∷◌, ◌++◌, arith, non_empty,
  unique, sorted_set, non_empty-false, non_empty-map, non_empty-append, Bool-cases, inl, inr, ◌↔◌,
  string_eq, unique-sorted_set, non_empty-sorted_set, if◌then◌else◌,
}
use alr_tw.Research.Kinds.{ResearchSufficiency, AnswerMode, ObligationKind, is_ordinary}
use alr_tw.Research.Run.{ResearchRun}
use alr_tw.Research.Sufficiency.{
  pending, blocked, nonretryable_blocked, kind_reasons, kinds_of, reason_if, workflow_reasons,
  retry_reasons, coverage_reasons, soft_missing_coverage, has_gaps, is_unsupported, needs_retry,
  evaluate_research_sufficiency,
}

-- The posture that goes with a verdict on sufficiency.
abbrev pub mode_of : ResearchSufficiency → AnswerMode
mode_of ResearchSufficiency.sufficient = AnswerMode.ordinary
mode_of ResearchSufficiency.qualified = AnswerMode.conditional
mode_of _ = AnswerMode.refusal_only

-- The two verdicts of an assessment agree, its workflow flag says that nothing is pending, and the
-- missing obligations are the kinds of the pending ones, on every branch.
pub assessment_agrees :
    (run : ResearchRun)
    → let a = evaluate_research_sufficiency run in
      (a.answer_mode ≡ mode_of a.research_sufficiency)
      × (a.workflow_complete ≡ not (non_empty (pending run)))
      × (a.missing_obligations ≡ kinds_of (pending run))
unfolding evaluate_research_sufficiency
assessment_agrees run = elim (Bool-cases (non_empty (pending run))) [
  | inl p ↦ (ground arith, ground arith, ground arith)
  | inr p ↦ (let e = non_empty-false _ p in (ground arith, ground arith, (ground (arith, e))))
]

-- The reason codes of an assessment are pairwise different, on every branch.
pub reason_codes-unique :
    (run : ResearchRun) → unique (evaluate_research_sufficiency run).reason_codes ≡ true
unfolding evaluate_research_sufficiency
reason_codes-unique run = ground (
  arith,
  unique-sorted_set (workflow_reasons run ++ retry_reasons run),
  unique-sorted_set (workflow_reasons run ++ coverage_reasons run),
  unique-sorted_set
      ((workflow_reasons run ++ coverage_reasons run) ++ "RESEARCH_COVERAGE_QUALIFIED" ∷ []),
)

non_empty-reason_if : (b : Bool) (code : String) → non_empty (reason_if b code) ≡ b
non_empty-reason_if true code = refl
non_empty-reason_if false code = refl

non_empty-kind_reasons :
    (prefix : String) (kinds : List ObligationKind)
    → non_empty (kind_reasons prefix kinds) ≡ non_empty kinds
unfolding kind_reasons
non_empty-kind_reasons prefix kinds = non_empty-map _ kinds

non_empty-retry_reasons : (run : ResearchRun) → non_empty (retry_reasons run) ≡ needs_retry run
unfolding retry_reasons needs_retry
non_empty-retry_reasons run =
    simp (non_empty-append, non_empty-kind_reasons, non_empty-map) (ground arith)

pending→workflow_reasons :
    (run : ResearchRun) → non_empty (pending run) ≡ true → non_empty (workflow_reasons run) ≡ true
unfolding workflow_reasons
pending→workflow_reasons run h = simp (non_empty-append, h)

workflow_reasons-nil : (run : ResearchRun) → pending run ≡ [] → workflow_reasons run ≡ []
unfolding workflow_reasons nonretryable_blocked blocked kind_reasons
workflow_reasons-nil run e = rw e

non_empty-workflow_reasons :
    (run : ResearchRun) → non_empty (pending run) ≡ false → non_empty (workflow_reasons run) ≡ false
non_empty-workflow_reasons run h = rw (workflow_reasons-nil run (non_empty-false _ h))

-- The reasons about coverage are there exactly when something is unsupported or a counter-authority
-- search is missing.
non_empty-coverage_reasons :
    (run : ResearchRun)
    → non_empty (coverage_reasons run)
      ≡ (is_unsupported run || non_empty (soft_missing_coverage run))
unfolding coverage_reasons is_unsupported
non_empty-coverage_reasons run =
    simp (non_empty-append, non_empty-reason_if, non_empty-kind_reasons, non_empty-map)
      (ground arith)

non_empty_after : (xs ys : List String) → non_empty ys ≡ true → non_empty (xs ++ ys) ≡ true
non_empty_after xs ys h = rw (non_empty-append, h) (ground arith)

-- The codes before they are sorted, on the branch that the run takes.
unfoldable raw_reasons : ResearchRun → List String
raw_reasons run =
    if needs_retry run
    then workflow_reasons run ++ retry_reasons run
    else if non_empty (pending run) || is_unsupported run || not (has_gaps run)
    then workflow_reasons run ++ coverage_reasons run
    else (workflow_reasons run ++ coverage_reasons run) ++ "RESEARCH_COVERAGE_QUALIFIED" ∷ []

reason_codes-eq :
    (run : ResearchRun)
    → (evaluate_research_sufficiency run).reason_codes ≡ sorted_set (raw_reasons run)
unfolding evaluate_research_sufficiency raw_reasons
reason_codes-eq run = ground arith

is_answer_ordinary : (run : ResearchRun) → Bool
is_answer_ordinary run =
    not (needs_retry run)
    && not (non_empty (pending run))
    && not (is_unsupported run)
    && not (has_gaps run)

ordinary-eq :
    (run : ResearchRun)
    → is_ordinary (evaluate_research_sufficiency run).answer_mode ≡ is_answer_ordinary run
unfolding evaluate_research_sufficiency is_answer_ordinary
ordinary-eq run = ground arith

soft-has_gaps :
    (run : ResearchRun) → has_gaps run ≡ false → non_empty (soft_missing_coverage run) ≡ false
unfolding has_gaps
soft-has_gaps run h = ground arith

last_code : (xs : List String) (code : String) → non_empty (xs ++ code ∷ []) ≡ true
last_code xs code = non_empty_after xs (code ∷ []) refl

non_empty-raw_reasons :
    (run : ResearchRun) → non_empty (raw_reasons run) ≡ not (is_answer_ordinary run)
unfolding raw_reasons is_answer_ordinary
non_empty-raw_reasons run = ground (
  arith,
  non_empty-append (workflow_reasons run) (retry_reasons run),
  non_empty-append (workflow_reasons run) (coverage_reasons run),
  last_code (workflow_reasons run ++ coverage_reasons run) "RESEARCH_COVERAGE_QUALIFIED",
  non_empty-retry_reasons run,
  pending→workflow_reasons run,
  non_empty-workflow_reasons run,
  non_empty-coverage_reasons run,
  soft-has_gaps run,
)

-- An assessment names a reason exactly when it is not the ordinary one.
pub explained_iff :
    (run : ResearchRun)
    → ((evaluate_research_sufficiency run).reason_codes ≡ [])
      ↔ ((evaluate_research_sufficiency run).answer_mode ≡ AnswerMode.ordinary)
explained_iff run = ground (
  arith,
  reason_codes-eq run,
  non_empty-sorted_set (raw_reasons run),
  non_empty-raw_reasons run,
  ordinary-eq run,
)
