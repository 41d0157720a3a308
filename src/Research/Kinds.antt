-- ===== src/Research/Kinds.antt =====
-- The enumerations of src/alr_tw/contracts/research.py, contracts/providers.py and contracts/interop.py.
use alr_tw.Prelude.{ℕ, String, Bool, ◌≡◌, ◌↔◌, true, false, arith, Eq, ◌==◌, nat_eq}

pub data ResearchDepth : Type 0 where
  quick standard deep : ResearchDepth

pub data PrivacyStatus : Type 0 where
  not_required safe redacted_safe sensitive uncertain : PrivacyStatus

pub data ResearchState : Type 0 where
  created planning researching verifying ready_for_draft validating validated : ResearchState
  qualified blocked purged expired : ResearchState

pub data ResearchSufficiency : Type 0 where
  sufficient qualified insufficient retry_required : ResearchSufficiency

pub data AnswerMode : Type 0 where
  ordinary conditional refusal_only : AnswerMode

pub data ObligationStatus : Type 0 where
  pending in_progress completed blocked : ObligationStatus

pub data DataMode : Type 0 where
  synthetic official_only hybrid_verified : DataMode

pub data DiscoveryMode : Type 0 where
  server_managed client_assisted : DiscoveryMode

pub data ObligationKind : Type 0 where
  external_plan_review query_understanding privacy_screen law_research : ObligationKind
  judgment_recall judgment_official_verification constitutional_research : ObligationKind
  counter_authority legal_time_context evidence_sufficiency : ObligationKind
  final_answer_validation : ObligationKind

-- `.value` of a kind
unfoldable pub kind_value : ObligationKind → String
kind_value ObligationKind.external_plan_review = "external_plan_review"
kind_value ObligationKind.query_understanding = "query_understanding"
kind_value ObligationKind.privacy_screen = "privacy_screen"
kind_value ObligationKind.law_research = "law_research"
kind_value ObligationKind.judgment_recall = "judgment_recall"
kind_value ObligationKind.judgment_official_verification = "judgment_official_verification"
kind_value ObligationKind.constitutional_research = "constitutional_research"
kind_value ObligationKind.counter_authority = "counter_authority"
kind_value ObligationKind.legal_time_context = "legal_time_context"
kind_value ObligationKind.evidence_sufficiency = "evidence_sufficiency"
kind_value ObligationKind.final_answer_validation = "final_answer_validation"

abbrev kind_ordinal : ObligationKind → ℕ
kind_ordinal ObligationKind.external_plan_review = 0
kind_ordinal ObligationKind.query_understanding = 1
kind_ordinal ObligationKind.privacy_screen = 2
kind_ordinal ObligationKind.law_research = 3
kind_ordinal ObligationKind.judgment_recall = 4
kind_ordinal ObligationKind.judgment_official_verification = 5
kind_ordinal ObligationKind.constitutional_research = 6
kind_ordinal ObligationKind.counter_authority = 7
kind_ordinal ObligationKind.legal_time_context = 8
kind_ordinal ObligationKind.evidence_sufficiency = 9
kind_ordinal ObligationKind.final_answer_validation = 10

abbrev kind_beq : ObligationKind → ObligationKind → Bool
kind_beq k j = kind_ordinal k == kind_ordinal j

pub kind_beq_iff : (k j : ObligationKind) → (kind_beq k j ≡ true) ↔ (k ≡ j)
kind_beq_iff k j = ground arith

instance abbrev pub kind_eq : Eq ObligationKind
kind_eq = record { test = kind_beq; test_iff = kind_beq_iff }

abbrev state_ordinal : ResearchState → ℕ
state_ordinal ResearchState.created = 0
state_ordinal ResearchState.planning = 1
state_ordinal ResearchState.researching = 2
state_ordinal ResearchState.verifying = 3
state_ordinal ResearchState.ready_for_draft = 4
state_ordinal ResearchState.validating = 5
state_ordinal ResearchState.validated = 6
state_ordinal ResearchState.qualified = 7
state_ordinal ResearchState.blocked = 8
state_ordinal ResearchState.purged = 9
state_ordinal ResearchState.expired = 10

abbrev state_beq : ResearchState → ResearchState → Bool
state_beq s t = state_ordinal s == state_ordinal t

pub state_beq_iff : (s t : ResearchState) → (state_beq s t ≡ true) ↔ (s ≡ t)
state_beq_iff s t = ground arith

instance abbrev pub state_eq : Eq ResearchState
state_eq = record { test = state_beq; test_iff = state_beq_iff }

-- The members that the code compares with, as tests.
abbrev pub is_completed : ObligationStatus → Bool
is_completed ObligationStatus.completed = true
is_completed _ = false

abbrev pub is_blocked : ObligationStatus → Bool
is_blocked ObligationStatus.blocked = true
is_blocked _ = false

abbrev pub is_synthetic : DataMode → Bool
is_synthetic DataMode.synthetic = true
is_synthetic _ = false

abbrev pub is_hybrid : DataMode → Bool
is_hybrid DataMode.hybrid_verified = true
is_hybrid _ = false

abbrev pub is_server_managed : DiscoveryMode → Bool
is_server_managed DiscoveryMode.server_managed = true
is_server_managed _ = false

abbrev pub is_ordinary : AnswerMode → Bool
is_ordinary AnswerMode.ordinary = true
is_ordinary _ = false

abbrev pub is_conditional : AnswerMode → Bool
is_conditional AnswerMode.conditional = true
is_conditional _ = false

abbrev pub is_refusal_only : AnswerMode → Bool
is_refusal_only AnswerMode.refusal_only = true
is_refusal_only _ = false

abbrev pub is_sufficient : ResearchSufficiency → Bool
is_sufficient ResearchSufficiency.sufficient = true
is_sufficient _ = false

abbrev pub is_insufficient : ResearchSufficiency → Bool
is_insufficient ResearchSufficiency.insufficient = true
is_insufficient _ = false

abbrev pub is_retry_required : ResearchSufficiency → Bool
is_retry_required ResearchSufficiency.retry_required = true
is_retry_required _ = false
