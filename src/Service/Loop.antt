-- ===== src/Service/Loop.antt =====
-- The loop of `execute_run_to_completion` of src/alr_tw/research/service.py, for an executor that
-- keeps the receipt of the coverage well formed.
use alr_tw.Prelude.{
  ℕ, zero, suc, ◌+◌, ◌≤◌, ◌<◌, true, false, ◌&&◌, ◌≡◌, ◌≢◌, ◌↔◌, ◌⊎◌, refl, sym, ◌∙◌, ap, subst,
  List, [], ◌∷◌, Result, ok, length, Memᴰ, non_empty, Bool-cases, inl, inr, arith, leb,
}
use alr_tw.Research.Kinds.{ResearchState}
use alr_tw.Research.Run.{ResearchObligation, ResearchRun, Datetime}
use alr_tw.Service.Advance.{outstanding}
use alr_tw.Service.Execution.{
  Executor, run_step, continue_run, StepEnd, StopReason, Execution, after_step, execute_steps,
  execute_run_to_completion,
}
use alr_tw.Service.Totality.{IsUnderway}
use alr_tw.Service.Completion.{IsLawful, Stage, IsActive, Ended, Steps, answered, starts}

module _ (execute : Executor) (law : IsLawful execute) (at : Datetime) where
  stepped :
      (run : ResearchRun) (items : List ResearchObligation)
      → outstanding run.obligations ≡ items
      → non_empty items ≡ true
      → (run.state ≡ ResearchState.planning) ⊎ IsUnderway run.state
      → IsActive run at
      → Steps run at (run_step execute run at items)
  unfolding run_step
  stepped run [] q h stage active = absurd (cc)
  stepped run (item ∷ items) q h stage active =
      let (started, e, kept, c, underway) = starts run at stage in
      let there : Memᴰ item (outstanding started.obligations) =
        subst (λ xs. Memᴰ item (outstanding xs)) (sym kept.0)
          (subst (Memᴰ item) (sym q) (Memᴰ.head refl)) in
      let (saved, end, e', ended) =
        answered started item at (execute started item) (law started item (rw c active.0)) there
          underway (kept.4 at.micros ∙ active.1, kept.5 ∙ active.2) in
      (saved, end, (rw e e'), by_end started saved end kept.0 ended)
    where
      by_end :
          (started saved : ResearchRun) (end : StepEnd)
          → started.obligations ≡ run.obligations
          → Ended started saved end at
          → Ended run saved end at
      by_end started saved StepEnd.idle same h = h
      by_end started saved StepEnd.out_of_budget same h = h
      by_end started saved StepEnd.retryable same h = h
      by_end started saved StepEnd.settled same (less, rest) = (
        subst (λ xs. length (outstanding saved.obligations) < length (outstanding xs)) same less,
        rest,
      )

  continued :
      (run : ResearchRun)
      → non_empty (outstanding run.obligations) ≡ true
      → IsActive run at
      → Steps run at (continue_run execute at run)
  unfolding continue_run
  continued run h active =
      rw active.1
        (rw active.2 (stepped run (outstanding run.obligations) refl h (stage active.3) active))
    where
      stage : Stage run → (run.state ≡ ResearchState.planning) ⊎ IsUnderway run.state
      stage (inl s) = s.0
      stage (inr s) =
          absurd (let e : non_empty (outstanding run.obligations) ≡ false = ap non_empty s.0 in cc)

-- how a loop of at most so many steps ends
abbrev pub Completes : ResearchRun → ℕ → Execution → Type 0
Completes run left end =
    (end.step_count ≤ left)
    × ((end.stop_reason ≡ StopReason.ready_for_draft) ↔ (outstanding end.run.obligations ≡ []))
    × (end.stop_reason ≡ StopReason.ready_for_draft → end.run.state ≡ ResearchState.ready_for_draft)
    × (end.stop_reason ≡ StopReason.max_steps_reached
        → length (outstanding end.run.obligations) + left ≤ length (outstanding run.obligations))

abbrev Loops : ResearchRun → ℕ → Result Execution → Type 0
Loops run left m = (end : Execution) × (m ≡ ok end) × Completes run left end

abbrev ends : ResearchRun → StopReason → ℕ → Execution
ends run reason count = record { run = run; stop_reason = reason; step_count = count }

-- nothing is outstanding: the loop stops at once
at_rest :
    (run : ResearchRun) (left : ℕ)
    → non_empty (outstanding run.obligations) ≡ false
    → Stage run
    → Completes run left (ends run StopReason.ready_for_draft 0)
at_rest run left h (inl s) = absurd (cc)
at_rest run left h (inr (none_left, state)) =
    ((omega arith), ((λ e. none_left), (λ e. refl)), (λ e. state), (λ e. absurd (cc)))

-- something is outstanding and the loop stops for another reason
stops :
    (run saved : ResearchRun) (left count : ℕ) (reason : StopReason)
    → non_empty (outstanding saved.obligations) ≡ true
    → reason ≢ StopReason.ready_for_draft
    → count ≤ left
    → (reason ≡ StopReason.max_steps_reached
        → length (outstanding saved.obligations) + left ≤ length (outstanding run.obligations))
    → Completes run left (ends saved reason count)
stops run saved left count reason h other bound most = (
  bound,
  (
    (λ e. absurd (other e)),
    (λ e.
        absurd (let g : non_empty (outstanding saved.obligations) ≡ false = ap non_empty e in cc)),
  ),
  (λ e. absurd (other e)),
  most,
)

one_more :
    (run saved : ResearchRun) (left : ℕ) (end : Execution)
    → length (outstanding saved.obligations) < length (outstanding run.obligations)
    → Completes saved left end
    → Completes run (suc left) (record end { step_count = suc end.step_count })
one_more run saved left end less (bound, ready, state, most) =
    ((omega arith), ready, state, (λ e. let m = most e in omega arith))

module _ (execute : Executor) (law : IsLawful execute) (at : Datetime) where
  after :
      (run saved : ResearchRun) (end : StepEnd) (left : ℕ) (more : ResearchRun → Result Execution)
      → ((next : ResearchRun) → IsActive next at → Loops next left (more next))
      → Ended run saved end at
      → Loops run (suc left) (after_step more saved end)
  unfolding after_step
  after run saved StepEnd.idle left more ih h = absurd h
  after run saved StepEnd.out_of_budget left more ih h = (
    ends saved StopReason.budget_exhausted 1,
    refl,
    stops run saved (suc left) 1 StopReason.budget_exhausted h (λ e. absurd (cc)) (omega arith)
        (λ e. absurd (cc)),
  )
  after run saved StepEnd.retryable left more ih h = (
    ends saved StopReason.retry_required 1,
    refl,
    stops run saved (suc left) 1 StopReason.retry_required h (λ e. absurd (cc)) (omega arith)
        (λ e. absurd (cc)),
  )
  after run saved StepEnd.settled left more ih (less, active) =
      let (end, e, c) = ih saved active in
      (
        record end { step_count = suc end.step_count },
        (rw e refl),
        one_more run saved left end less c,
      )

  loops :
      (left : ℕ) (run : ResearchRun)
      → IsActive run at
      → Loops run left (execute_steps execute at left run)
  unfolding execute_steps
  loops zero run active = elim (Bool-cases (non_empty (outstanding run.obligations))) [
    | inl h ↦ (
      ends run StopReason.max_steps_reached 0,
      (rw h refl),
      stops run run 0 0 StopReason.max_steps_reached h (λ e. absurd (cc)) (omega arith)
          (λ e. omega arith),
    )
    | inr h ↦ (ends run StopReason.ready_for_draft 0, (rw h refl), at_rest run 0 h active.3)
  ]
  loops (suc left) run active = elim (Bool-cases (non_empty (outstanding run.obligations))) [
    | inl h ↦
        (let (saved, end, e, ended) = continued execute law at run h active in
          let (end', e', c) =
            after run saved end left (execute_steps execute at left) (loops left) ended in
          (end', (rw h (rw e e')), c))
    | inr h ↦
        (ends run StopReason.ready_for_draft 0, (rw h refl), at_rest run (suc left) h active.3)
  ]

length-zero : (items : List ResearchObligation) → length items ≡ 0 → items ≡ []
length-zero [] h = refl
length-zero (item ∷ items) h = absurd (omega arith)

pub execution-Completes :
    (execute : Executor) (law : IsLawful execute) (at : Datetime) (max_steps : ℕ)
    (run : ResearchRun)
    → 1 ≤ max_steps
    → max_steps ≤ 32
    → IsActive run at
    → (end : Execution) × (execute_run_to_completion execute at max_steps run ≡ ok end)
      × Completes run max_steps end
      × (length (outstanding run.obligations) ≤ max_steps
          → end.stop_reason ≢ StopReason.max_steps_reached)
unfolding execute_run_to_completion
execution-Completes execute law at max_steps run low high active =
    let (end, e, c) = loops execute law at max_steps run active in
    let in_range : (leb 1 max_steps && leb max_steps 32) ≡ true = ground arith in
    (end, (rw in_range (rw active.1 (rw active.2 e))), c, enough end c)
  where
    enough :
        (end : Execution)
        → Completes run max_steps end
        → length (outstanding run.obligations) ≤ max_steps
        → end.stop_reason ≢ StopReason.max_steps_reached
    enough end (bound, ready, state, most) few q =
        let none_left : length (outstanding end.run.obligations) ≡ 0 =
          (let m = most q in omega arith) in
        let stopped = ready.1 (length-zero (outstanding end.run.obligations) none_left) in
        absurd (cc)
