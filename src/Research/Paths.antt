-- ===== src/Research/Paths.antt =====
-- What the state machine permits over any sequence of requested transitions.
use alr_tw.Prelude.{
  ℕ, ◌<◌, true, false, ◌≡◌, ◌⊎◌, refl, List, [], ◌∷◌, Result, ok, err, arith, ◌==◌, ◌||◌, contains,
}
use alr_tw.Research.Kinds.{ResearchState, state_eq, state_beq_iff}
use alr_tw.Research.Run.{Datetime, ResearchRun}
use alr_tw.Research.Transitions.{allowed_transitions, transition_run}

-- A request that raises leaves the run as it was.
abbrev pub run_after : ResearchRun → Result ResearchRun → ResearchRun
run_after run (ok next) = next
run_after run (err message) = run

pub record Request : Type 0 where
  pub target : ResearchState
  pub at : Datetime

unfoldable pub apply_requests : ResearchRun → List Request → ResearchRun
apply_requests run [] = run
apply_requests run (r ∷ rest) =
    apply_requests (run_after run (transition_run run r.target r.at)) rest

-- The edges of the diagram, as a relation.
infix 40 ◌⟶◌
pub data ◌⟶◌ : ResearchState → ResearchState → Type 0 where
  plan : ResearchState.created ⟶ ResearchState.planning
  research : ResearchState.planning ⟶ ResearchState.researching
  verify : ResearchState.researching ⟶ ResearchState.verifying
  ready : ResearchState.verifying ⟶ ResearchState.ready_for_draft
  validate : ResearchState.ready_for_draft ⟶ ResearchState.validating
  pass : ResearchState.validating ⟶ ResearchState.validated
  qualify : ResearchState.validating ⟶ ResearchState.qualified
  block_research : ResearchState.researching ⟶ ResearchState.blocked
  block_verify : ResearchState.verifying ⟶ ResearchState.blocked
  block_validate : ResearchState.validating ⟶ ResearchState.blocked
  purge_created : ResearchState.created ⟶ ResearchState.purged
  purge_planning : ResearchState.planning ⟶ ResearchState.purged
  purge_researching : ResearchState.researching ⟶ ResearchState.purged
  purge_verifying : ResearchState.verifying ⟶ ResearchState.purged
  purge_ready : ResearchState.ready_for_draft ⟶ ResearchState.purged
  purge_validating : ResearchState.validating ⟶ ResearchState.purged
  expire_validated : ResearchState.validated ⟶ ResearchState.expired
  expire_qualified : ResearchState.qualified ⟶ ResearchState.expired
  expire_blocked : ResearchState.blocked ⟶ ResearchState.expired

-- How far a state is along the workflow.
abbrev pub stage : ResearchState → ℕ
stage ResearchState.created = 0
stage ResearchState.planning = 1
stage ResearchState.researching = 2
stage ResearchState.verifying = 3
stage ResearchState.ready_for_draft = 4
stage ResearchState.validating = 5
stage ResearchState.validated = 6
stage ResearchState.qualified = 6
stage ResearchState.blocked = 6
stage ResearchState.purged = 7
stage ResearchState.expired = 7

ruleset edges = (
  plan, research, verify, ready, validate, pass, qualify, block_research, block_verify,
  block_validate, purge_created, purge_planning, purge_researching, purge_verifying, purge_ready,
  purge_validating, expire_validated, expire_qualified, expire_blocked,
)

accepted_lem :
    (run next : ResearchRun) (target : ResearchState) (at : Datetime)
    → transition_run run target at ≡ ok next
    → next ≡ record run { state = target; updated_at = at }
unfolding transition_run
accepted_lem run next target at h = ground (arith, state_beq_iff target run.state)

accepted_test :
    (run next : ResearchRun) (target : ResearchState) (at : Datetime)
    → transition_run run target at ≡ ok next
    → ((target == run.state) || contains (allowed_transitions run.state) target) ≡ true
unfolding transition_run
accepted_test run next target at h = ground arith

accepted_edge :
    (s t : ResearchState)
    → ((t == s) || contains (allowed_transitions s) t) ≡ true
    → (t ≡ s) ⊎ (s ⟶ t)
unfolding allowed_transitions contains
accepted_edge ResearchState.created t h = grind (arith, edges)
accepted_edge _ t h = grind (arith, edges)

-- An accepted request keeps the state or follows an edge, and writes the state and the time alone.
pub accepted-⟶ :
    (run next : ResearchRun) (target : ResearchState) (at : Datetime)
    → transition_run run target at ≡ ok next
    → (next ≡ record run { state = target; updated_at = at })
      × ((target ≡ run.state) ⊎ (run.state ⟶ target))
accepted-⟶ run next target at h = (
  accepted_lem run next target at h,
  accepted_edge run.state target (accepted_test run next target at h),
)

edge_test : {s t : ResearchState} → s ⟶ t → contains (allowed_transitions s) t ≡ true
unfolding allowed_transitions contains
edge_test plan = refl
edge_test _ = refl

edge_moves : {s t : ResearchState} → s ⟶ t → (t == s) ≡ false
edge_moves plan = refl
edge_moves _ = refl

edge_accepted :
    (run : ResearchRun) (target : ResearchState) (at : Datetime)
    → contains (allowed_transitions run.state) target ≡ true
    → (target == run.state) ≡ false
    → transition_run run target at ≡ ok (record run { state = target; updated_at = at })
unfolding transition_run
edge_accepted run target at e n = rw (n, e)

pub ⟶-accepted :
    (run : ResearchRun) (target : ResearchState) (at : Datetime)
    → run.state ⟶ target
    → transition_run run target at ≡ ok (record run { state = target; updated_at = at })
⟶-accepted run target at e = edge_accepted run target at (edge_test e) (edge_moves e)

pub stage-⟶ : {s t : ResearchState} → s ⟶ t → stage s < stage t
stage-⟶ plan = omega arith
stage-⟶ _ = omega arith
