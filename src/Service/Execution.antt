-- ===== src/Service/Execution.antt =====
-- `ResearchService.continue_run` and `execute_run_to_completion` of
-- src/alr_tw/research/service.py, on the run that is stored, for an executor that is given: an
-- `ObligationExecutor`. The operation under which a step is recorded is that of Storage/Sessions;
-- the budget is that of Budget.
use alr_tw.Prelude.{
  ℕ, zero, suc, String, Bool, not, ◌&&◌, Option, none, some, List, [], ◌∷◌, Result, ok, ◌>>=◌, ◌>>◌,
  raise_if, non_empty, leb, sorted, if◌then◌else◌,
}
use alr_tw.Research.Kinds.{DataMode, PrivacyStatus, kind_value}
use alr_tw.Research.Coverage.{CoverageState}
use alr_tw.Research.Run.{ResearchObligation, ResearchRun, Datetime}
use alr_tw.Service.Outcomes.{Outcome}
use alr_tw.Service.Advance.{
  is_expired, awaits_plan, outstanding, start_research, retry_codes, advance,
}

-- `_run_updates`: the keys that an executor may set
pub record Updates : Type 0 where
  pub coverage : Option CoverageState
  pub privacy_status : Option PrivacyStatus
  pub effective_mode : Option DataMode
  pub semantic_recall_degraded : Option Bool
  pub judgment_recall_incomplete : Option Bool

abbrev set_to {ℓ} : {A : Type ℓ} → Option A → A → A
set_to none old = old
set_to (some new) old = new

-- `run.model_copy(update=run_updates)`
unfoldable pub apply_updates : Updates → ResearchRun → ResearchRun
apply_updates updates run = record run {
  coverage = set_to updates.coverage run.coverage;
  privacy_status = set_to updates.privacy_status run.privacy_status;
  effective_mode = set_to updates.effective_mode run.effective_mode;
  semantic_recall_degraded = set_to updates.semantic_recall_degraded run.semantic_recall_degraded;
  judgment_recall_incomplete =
      set_to updates.judgment_recall_incomplete run.judgment_recall_incomplete;
}

-- What the call of the executor comes to, and the sources and the evidence that the store lists for
-- the run after it; `exhausted` is the exception `BudgetExceeded`.
pub data Answer : Type 0 where
  answered : Updates → Outcome → (source_ids evidence_ids : List String) → Answer
  exhausted : (source_ids evidence_ids : List String) → Answer

abbrev pub Executor : Type 0
Executor = ResearchRun → ResearchObligation → Answer

-- `SyntheticObligationExecutor.execute`
unfoldable pub synthetic_execute : Executor
unfolding kind_value
synthetic_execute run item =
    Answer.answered
      (record {
        coverage = none;
        privacy_status = none;
        effective_mode = none;
        semantic_recall_degraded = none;
        judgment_recall_incomplete = none;
      })
      (record {
        status = "completed";
        obligation = kind_value item.kind;
        warnings = "SYNTHETIC_MODE_NO_LIVE_EVIDENCE" ∷ [];
        error_code = none;
        provider_calls = [];
        metadata = none;
      })
      run.source_ids run.evidence_ids

-- how a step ends: nothing was left to do, the budget ended, or the outcome is to be retried or not
pub data StepEnd : Type 0 where
  idle out_of_budget retryable settled : StepEnd

-- `_run_with_server_refs`
unfoldable pub with_refs : ResearchRun → List String → List String → ResearchRun
unfolding sorted
with_refs run source_ids evidence_ids = record run {
  source_ids = sorted source_ids;
  evidence_ids = sorted evidence_ids;
}

-- the answer to a run that was started
unfoldable pub conclude_step :
    ResearchRun → ResearchObligation → Datetime → Answer → Result (ResearchRun × StepEnd)
unfolding apply_updates with_refs advance retry_codes
conclude_step started item at (Answer.exhausted source_ids evidence_ids) =
    ok (with_refs started source_ids evidence_ids, StepEnd.out_of_budget)
conclude_step started item at (Answer.answered updates outcome source_ids evidence_ids) =
    let run = apply_updates updates started in
    advance started run item outcome source_ids evidence_ids at >>= (λ saved. ok (
      saved,
      if non_empty (retry_codes started run item outcome)
          then StepEnd.retryable
          else StepEnd.settled,
    ))

unfoldable pub run_step :
    Executor → ResearchRun → Datetime → List ResearchObligation → Result (ResearchRun × StepEnd)
unfolding start_research conclude_step
run_step execute run at [] = ok (run, StepEnd.idle)
run_step execute run at (item ∷ items) =
    start_research run at >>= (λ started. conclude_step started item at (execute started item))

-- `continue_run`
unfoldable pub continue_run : Executor → Datetime → ResearchRun → Result (ResearchRun × StepEnd)
unfolding run_step outstanding
continue_run execute at run = do
  raise_if (is_expired run at.micros) "RESEARCH_RUN_EXPIRED"
  raise_if (awaits_plan run) "EXTERNAL_RESEARCH_PLAN_REQUIRED"
  run_step execute run at (outstanding run.obligations)

pub data StopReason : Type 0 where
  ready_for_draft retry_required budget_exhausted max_steps_reached awaiting_external_plan :
      StopReason

-- the run that is stored at the end, why the loop stopped, and the number of steps
pub record Execution : Type 0 where
  pub run : ResearchRun
  pub stop_reason : StopReason
  pub step_count : ℕ

abbrev stopped : ResearchRun → StopReason → ℕ → Execution
stopped run reason count = record { run = run; stop_reason = reason; step_count = count }

-- what follows a step: `more` is the rest of the loop
unfoldable pub after_step :
    (ResearchRun → Result Execution) → ResearchRun → StepEnd → Result Execution
after_step more run StepEnd.out_of_budget = ok (stopped run StopReason.budget_exhausted 1)
after_step more run StepEnd.retryable = ok (stopped run StopReason.retry_required 1)
after_step more run StepEnd.settled =
    more run >>= (λ end. ok (record end { step_count = suc end.step_count }))
after_step more run StepEnd.idle =
    more run >>= (λ end. ok (record end { step_count = suc end.step_count }))

-- the loop, with the steps that are left
unfoldable pub execute_steps : Executor → Datetime → ℕ → ResearchRun → Result Execution
unfolding continue_run after_step outstanding
execute_steps execute at zero run = ok (
    stopped run
      (if non_empty (outstanding run.obligations)
        then StopReason.max_steps_reached
        else StopReason.ready_for_draft)
      0)
execute_steps execute at (suc left) run =
    if non_empty (outstanding run.obligations)
    then continue_run execute at run
      >>= (λ step. after_step (execute_steps execute at left) step.0 step.1)
    else ok (stopped run StopReason.ready_for_draft 0)

-- `execute_run_to_completion`
unfoldable pub execute_run_to_completion : Executor → Datetime → ℕ → ResearchRun → Result Execution
unfolding execute_steps
execute_run_to_completion execute at max_steps run = do
  raise_if (not (leb 1 max_steps && leb max_steps 32))
      "max_steps must be an integer between 1 and 32"
  raise_if (is_expired run at.micros) "RESEARCH_RUN_EXPIRED"
  if awaits_plan run
      then ok (stopped run StopReason.awaiting_external_plan 0)
      else execute_steps execute at max_steps run
