-- ===== src/Research/Run.antt =====
-- Obligations, blockers and the run: src/alr_tw/contracts/research.py.
use alr_tw.Prelude.{
  ℕ, String, Bool, true, false, not, ◌&&◌, ◌||◌, Option, none, some, List, Result, ok, ◌>>◌,
  raise_if, ltb, leb, if◌then◌else◌,
}
use alr_tw.Research.Kinds.{
  ResearchDepth, PrivacyStatus, ResearchState, ResearchSufficiency, AnswerMode, ObligationKind,
  ObligationStatus, DataMode, DiscoveryMode, is_hybrid, is_server_managed,
}
use alr_tw.Research.Coverage.{CoverageState}

pub record ResearchObligation : Type 0 where
  pub kind : ObligationKind
  pub status : ObligationStatus
  pub required : Bool
  pub reason : String
  pub blocker_code : Option String
  pub retryable_reason_codes : List String
  pub counter_authority_diagnostic_codes : List String

pub record ResearchBlocker : Type 0 where
  pub code : String
  pub message : String
  pub obligation : Option ObligationKind

-- a `datetime`: whether it has a timezone, and its microseconds on the UTC line
pub record Datetime : Type 0 where
  pub aware : Bool
  pub micros : ℕ

pub record ResearchRun : Type 0 where
  pub run_id : String
  pub query : String
  pub created_at : Datetime
  pub updated_at : Datetime
  pub expires_at : Datetime
  pub requested_mode : DataMode
  pub effective_mode : DataMode
  pub research_depth : ResearchDepth
  pub max_judgment_verifications : ℕ
  pub include_counter_authority : Bool
  pub ephemeral : Bool
  pub as_of_date : Option ℕ
  pub privacy_status : PrivacyStatus
  pub state : ResearchState
  pub obligations : List ResearchObligation
  pub coverage : CoverageState
  pub blockers : List ResearchBlocker
  pub source_ids : List String
  pub evidence_ids : List String
  pub semantic_recall_degraded : Bool
  pub judgment_recall_incomplete : Bool
  pub discovery_mode : DiscoveryMode
  -- the plan's id stands for the registered plan
  pub registered_plan : Option String
  pub workflow_complete : Bool
  pub research_sufficiency : ResearchSufficiency
  pub answer_mode : AnswerMode

abbrev is_some : Option String → Bool
is_some none = false
is_some (some _) = true

-- the states in which a run is structurally complete
is_structurally_complete : ResearchState → Bool
is_structurally_complete ResearchState.ready_for_draft = true
is_structurally_complete ResearchState.validating = true
is_structurally_complete ResearchState.validated = true
is_structurally_complete ResearchState.qualified = true
is_structurally_complete _ = false

hydrate : ResearchRun → ResearchRun
unfolding is_structurally_complete
hydrate run =
    if is_structurally_complete run.state then record run { workflow_complete = true } else run

-- `ResearchRun.validate_timestamps_and_modes`
unfoldable validate_timestamps_and_modes : ResearchRun → Result ResearchRun
unfolding hydrate
validate_timestamps_and_modes run = do
  raise_if (not run.created_at.aware || not run.updated_at.aware || not run.expires_at.aware)
      "research timestamps must be timezone-aware"
  raise_if (ltb run.updated_at.micros run.created_at.micros)
      "updated_at must not precede created_at"
  raise_if (leb run.expires_at.micros run.created_at.micros)
      "expires_at must be later than created_at"
  raise_if (is_hybrid run.effective_mode && not (is_hybrid run.requested_mode))
      "effective mode cannot silently enable external semantic recall"
  raise_if (is_server_managed run.discovery_mode && is_some run.registered_plan)
      "registered plans require client-assisted discovery"
  ok (hydrate run)
