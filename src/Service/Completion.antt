-- ===== src/Service/Completion.antt =====
-- The step that the loop of `execute_run_to_completion` of src/alr_tw/research/service.py makes, for
-- an executor that keeps the receipt of the coverage well formed.
use alr_tw.Prelude.{
  ◌<◌, String, true, false, ◌≡◌, ◌⊎◌, refl, sym, ◌∙◌, ap, subst, List, [], ◌∷◌, contains, any,
  Result, ok, ◌>>=◌, ensured, length, Memᴰ, in-filter, filter-in, non_empty, non_empty-false,
  Bool-cases, inl, inr, if◌then◌else◌,
}
use alr_tw.Research.Kinds.{ResearchState, state_eq}
use alr_tw.Research.Run.{ResearchObligation, ResearchRun, Datetime}
use alr_tw.Research.Transitions.{transition_run, allowed_transitions}
use alr_tw.Service.Outcomes.{Outcome}
use alr_tw.Service.Advance.{
  is_expired, awaits_plan, is_outstanding, outstanding, start_research, retry_codes, with_outcome,
  advance,
}
use alr_tw.Service.Execution.{Answer, Executor, apply_updates, conclude_step, StepEnd, with_refs}
use alr_tw.Service.Progress.{transition-Keeps, Moved, Keeps, advance-Moved}
use alr_tw.Service.Totality.{transition-Accepted, IsUnderway, IsReceipt, are_calls_valid}
use alr_tw.Service.Steps.{step_progresses, Waits}

abbrev pub IsLawfulAnswer : ResearchRun → Answer → Type 0
IsLawfulAnswer run (Answer.exhausted source_ids evidence_ids) = Unit {0}
IsLawfulAnswer run (Answer.answered updates outcome source_ids evidence_ids) =
    IsReceipt (apply_updates updates run).coverage × (are_calls_valid outcome ≡ true)

-- What the service relies on: the coverage that the executor hands back is well formed if the one
-- that it was given is, and the calls name well-formed providers.
abbrev pub IsLawful : Executor → Type 0
IsLawful execute =
    (run : ResearchRun) (item : ResearchObligation)
    → IsReceipt run.coverage
    → IsLawfulAnswer run (execute run item)

-- Either something is outstanding and the research may go on, or nothing is and the draft may begin.
abbrev pub Stage : ResearchRun → Type 0
Stage run =
    (((run.state ≡ ResearchState.planning) ⊎ IsUnderway run.state)
      × (non_empty (outstanding run.obligations) ≡ true))
    ⊎ ((outstanding run.obligations ≡ []) × (run.state ≡ ResearchState.ready_for_draft))

-- the run may be continued at the time
abbrev pub IsActive : ResearchRun → Datetime → Type 0
IsActive run at =
    IsReceipt run.coverage
    × (is_expired run at.micros ≡ false)
    × (awaits_plan run ≡ false)
    × Stage run

abbrev pub Ended : ResearchRun → ResearchRun → StepEnd → Datetime → Type 0
Ended run saved StepEnd.idle at = ⊥
Ended run saved StepEnd.out_of_budget at = non_empty (outstanding saved.obligations) ≡ true
Ended run saved StepEnd.retryable at = non_empty (outstanding saved.obligations) ≡ true
Ended run saved StepEnd.settled at =
    (length (outstanding saved.obligations) < length (outstanding run.obligations))
    × IsActive saved at

abbrev pub Steps : ResearchRun → Datetime → Result (ResearchRun × StepEnd) → Type 0
Steps run at m =
    (saved : ResearchRun) × (end : StepEnd) × (m ≡ ok (saved, end)) × Ended run saved end at

non_empty-of_mem :
    (x : ResearchObligation) (xs : List ResearchObligation) → Memᴰ x xs → non_empty xs ≡ true
non_empty-of_mem x [] i = elim i [ ]
non_empty-of_mem x (y ∷ ys) i = refl

Waits-non_empty :
    (item : ResearchObligation) (items : List ResearchObligation) (code : String)
    (codes : List String)
    → Waits item items code codes
    → non_empty (outstanding items) ≡ true
unfolding outstanding
Waits-non_empty item items code codes (waiting, i, h, same, blocker, retried) =
    non_empty-of_mem waiting _ (filter-in is_outstanding items waiting i h)

-- where a run is that the step has moved on
Moved-Stage :
    (written saved : ResearchRun) → IsUnderway written.state → Moved written saved → Stage saved
Moved-Stage written saved underway moved =
    elim (Bool-cases (non_empty (outstanding saved.obligations))) [
      | inl q ↦ inl (
        inr (later (moved.2 (ap (λ items. non_empty (outstanding items)) (sym moved.0.0) ∙ q))),
        q,
      )
      | inr q ↦ inr (
        non_empty-false _ q,
        moved.1 (ap (λ items. non_empty (outstanding items)) (sym moved.0.0) ∙ q),
      )
    ]
  where
    later :
        (saved.state ≡ written.state) ⊎ (saved.state ≡ ResearchState.verifying)
        → IsUnderway saved.state
    later (inl q) = subst IsUnderway (sym q) underway
    later (inr q) = inr q

module _ (started run : ResearchRun) (item : ResearchObligation) (outcome : Outcome)
    (source_ids evidence_ids : List String) (at : Datetime) where
  -- the step on an outcome that is not to be retried, and on one that is
  concluded :
      (codes : List String)
      → retry_codes started run item outcome ≡ codes
      → Memᴰ item run.obligations
      → is_outstanding item ≡ true
      → IsUnderway run.state
      → IsReceipt run.coverage
      → (is_expired run at.micros ≡ false) × (awaits_plan run ≡ false)
      → are_calls_valid outcome ≡ true
      → Steps run at (
          advance started run item outcome source_ids evidence_ids at
          >>= (λ saved. ok (saved, if non_empty codes then StepEnd.retryable else StepEnd.settled)))
  unfolding with_outcome
  concluded [] q i h underway receipt guards valid =
      let (saved, e, receipt', fewer, waits, ready) =
        step_progresses started run item outcome source_ids evidence_ids at i h underway receipt
          valid in
      let moved = ensured (advance-Moved started run item outcome source_ids evidence_ids at) e in
      (
        saved,
        StepEnd.settled,
        (rw e refl),
        (
          fewer q,
          (
            receipt',
            moved.0.4 at.micros ∙ guards.0,
            moved.0.5 ∙ guards.1,
            Moved-Stage
                (with_outcome run item (retry_codes started run item outcome) outcome source_ids
                  evidence_ids at)
                saved underway moved,
          ),
        ),
      )
  concluded (code ∷ codes) q i h underway receipt guards valid =
      let (saved, e, receipt', fewer, waits, ready) =
        step_progresses started run item outcome source_ids evidence_ids at i h underway receipt
          valid in
      (
        saved,
        StepEnd.retryable,
        (rw e refl),
        Waits-non_empty item saved.obligations code codes (waits code codes q),
      )

-- the step from the answer of a lawful executor
pub answered :
    (started : ResearchRun) (item : ResearchObligation) (at : Datetime) (answer : Answer)
    → IsLawfulAnswer started answer
    → Memᴰ item (outstanding started.obligations)
    → IsUnderway started.state
    → (is_expired started at.micros ≡ false) × (awaits_plan started ≡ false)
    → Steps started at (conclude_step started item at answer)
unfolding conclude_step apply_updates outstanding with_refs
answered started item at (Answer.exhausted source_ids evidence_ids) law i underway guards = (
  with_refs started source_ids evidence_ids,
  StepEnd.out_of_budget,
  refl,
  non_empty-of_mem item _ i,
)
answered started item at (Answer.answered updates outcome source_ids evidence_ids) law i underway
      guards =
    let (j, h) = in-filter is_outstanding started.obligations item i in
    let run = apply_updates updates started in
    concluded started run item outcome source_ids evidence_ids at
      (retry_codes started run item outcome) refl j h underway law.0 guards law.1

-- the research begins from the planning state, and is under way after
abbrev pub Starts : ResearchRun → Result ResearchRun → Type 0
Starts run m =
    (started : ResearchRun) × (m ≡ ok started)
    × Keeps run started
    × (started.coverage ≡ run.coverage)
    × IsUnderway started.state

from_planning :
    contains (allowed_transitions ResearchState.planning) ResearchState.researching ≡ true
unfolding allowed_transitions contains any
from_planning = refl

begin :
    (run : ResearchRun) (at : Datetime)
    → run.state ≡ ResearchState.planning
    → start_research run at ≡ transition_run run ResearchState.researching at
unfolding start_research
begin run at h = rw h refl

pub starts :
    (run : ResearchRun) (at : Datetime)
    → (run.state ≡ ResearchState.planning) ⊎ IsUnderway run.state
    → Starts run (start_research run at)
unfolding start_research
starts run at (inl h) =
    let (started, e, c) =
      transition-Accepted run ResearchState.researching at (rw h from_planning) in
    let kept = ensured (transition-Keeps run ResearchState.researching at) e in
    (started, begin run at h ∙ e, kept.0, c, inl kept.1)
starts run at (inr (inl h)) =
    (run, (rw h refl), (refl, refl, refl, refl, (λ now. refl), refl), refl, inl h)
starts run at (inr (inr h)) =
    (run, (rw h refl), (refl, refl, refl, refl, (λ now. refl), refl), refl, inr h)
