-- ===== src/Research/Transitions.antt =====
-- The state machine of a run: src/alr_tw/research/state_machine.py.
use alr_tw.Prelude.{List, [], ◌∷◌, Result, ok, err, contains, ◌==◌, if◌then◌else◌}
use alr_tw.Research.Kinds.{ResearchState, state_eq}
use alr_tw.Research.Run.{Datetime, ResearchRun}

-- `ALLOWED_TRANSITIONS`
unfoldable pub allowed_transitions : ResearchState → List ResearchState
allowed_transitions ResearchState.created = ResearchState.planning ∷ ResearchState.purged ∷ []
allowed_transitions ResearchState.planning = ResearchState.researching ∷ ResearchState.purged ∷ []
allowed_transitions ResearchState.researching =
    ResearchState.verifying ∷ ResearchState.blocked ∷ ResearchState.purged ∷ []
allowed_transitions ResearchState.verifying =
    ResearchState.ready_for_draft ∷ ResearchState.blocked ∷ ResearchState.purged ∷ []
allowed_transitions ResearchState.ready_for_draft =
    ResearchState.validating ∷ ResearchState.purged ∷ []
allowed_transitions ResearchState.validating =
    ResearchState.validated ∷ ResearchState.qualified ∷ ResearchState.blocked ∷ ResearchState.purged
    ∷ []
allowed_transitions ResearchState.validated = ResearchState.expired ∷ []
allowed_transitions ResearchState.qualified = ResearchState.expired ∷ []
allowed_transitions ResearchState.blocked = ResearchState.expired ∷ []
allowed_transitions ResearchState.purged = []
allowed_transitions ResearchState.expired = []

-- `transition_run`; the message of the exception without the two states
unfoldable pub transition_run : ResearchRun → ResearchState → Datetime → Result ResearchRun
transition_run run target updated_at =
    if target == run.state
    then ok (record run { updated_at = updated_at })
    else if contains (allowed_transitions run.state) target
    then ok (record run { state = target; updated_at = updated_at })
    else err "invalid research transition"
