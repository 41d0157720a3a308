-- ===== src/Tests/Samples.antt =====
-- Test data.
use alr_tw.Prelude.{ℕ, String, true, false, none, some, List, [], ◌∷◌}
use alr_tw.Research.Kinds.{
  ResearchDepth, PrivacyStatus, ResearchState, ResearchSufficiency, AnswerMode, ObligationKind,
  ObligationStatus, DataMode, DiscoveryMode,
}
use alr_tw.Research.Coverage.{CoverageState}
use alr_tw.Research.Run.{ResearchObligation, Datetime, ResearchRun}
use alr_tw.Research.Paths.{Request}
use alr_tw.Budget.{ResearchBudget, BudgetScope}
use alr_tw.Snapshot.{ProviderSnapshotReceipt, SnapshotReceiptStatus}
use alr_tw.Finalization.FromRun.{Extras}
use alr_tw.Citations.Policy.{SourceRecord, SourceTier, IdentifierResolution}
use alr_tw.Citations.Validator.{Citation}

abbrev pub instant : ℕ → Datetime
instant micros = record { aware = true; micros = micros }

abbrev pub done : ObligationKind → ResearchObligation
done kind = record {
  kind = kind;
  status = ObligationStatus.completed;
  required = true;
  reason = "";
  blocker_code = none;
  retryable_reason_codes = [];
  counter_authority_diagnostic_codes = [];
}

abbrev full_coverage : CoverageState
full_coverage = record {
  law_checked = true;
  judgment_checked = true;
  constitutional_checked = true;
  counter_authority_checked = true;
  counter_authority_status = "completed";
  counter_authority_coverage_complete = some true;
  counter_authority_relation_receipt_ids = [];
  time_context_checked = true;
  limitations = [];
  coverage_complete = true;
  absence_claim_allowed = false;
  partial_reason_codes = [];
  error_reason_codes = [];
  timeout_reason_codes = [];
  selected_provider_scope = [];
  successful_provider_scope = [];
  bounded_time_scope = none;
  bounded_query_scope = none;
  snapshot_id = none;
  receipt_reference = none;
}

abbrev pub sample_run : ResearchRun
sample_run = record {
  run_id = "run-1";
  query = "civil code article 184";
  created_at = instant 1;
  updated_at = instant 2;
  expires_at = instant 100;
  requested_mode = DataMode.official_only;
  effective_mode = DataMode.official_only;
  research_depth = ResearchDepth.standard;
  max_judgment_verifications = 5;
  include_counter_authority = true;
  ephemeral = false;
  as_of_date = none;
  privacy_status = PrivacyStatus.safe;
  state = ResearchState.created;
  obligations = done ObligationKind.law_research ∷ done ObligationKind.counter_authority ∷ [];
  coverage = full_coverage;
  blockers = [];
  source_ids = "src-1" ∷ [];
  evidence_ids = "ev-1" ∷ "ev-2" ∷ [];
  semantic_recall_degraded = false;
  judgment_recall_incomplete = false;
  discovery_mode = DiscoveryMode.server_managed;
  registered_plan = none;
  workflow_complete = false;
  research_sufficiency = ResearchSufficiency.insufficient;
  answer_mode = AnswerMode.refusal_only;
}

-- the whole workflow, as requests
abbrev ask : ResearchState → ℕ → Request
ask target at = record { target = target; at = instant at }

abbrev pub workflow : List Request
workflow =
    ask ResearchState.planning 3
    ∷ ask ResearchState.validated 4
    ∷ ask ResearchState.researching 5
    ∷ ask ResearchState.verifying 6
    ∷ ask ResearchState.ready_for_draft 7
    ∷ ask ResearchState.validating 8
    ∷ ask ResearchState.validated 9
    ∷ []

abbrev sample_budget : ResearchBudget
sample_budget = record {
  max_micros = 1000;
  max_http_requests = 2;
  deadline_at = none;
  used_http_requests = 0;
  exhausted_reason = none;
  used_total_tokens = none;
}

abbrev pub open_scope : BudgetScope
open_scope = record { budget = sample_budget; deadline = 1000; persisted = [] }

abbrev pub exhausted_scope : BudgetScope
exhausted_scope = record open_scope {
  budget = record sample_budget { exhausted_reason = some "TIMEOUT_BUDGET_EXHAUSTED" };
}

abbrev pub receipt : String → String → ProviderSnapshotReceipt
receipt id provider = record {
  receipt_id = id;
  provider_id = provider;
  snapshot_id = "snap-1";
  generation = "gen-1";
  status = SnapshotReceiptStatus.verified;
  issued_at = instant 10;
  expires_at = none;
  content_digest = none;
}

abbrev pub receipts : List ProviderSnapshotReceipt
receipts = receipt "r-1" "laws" ∷ receipt "r-2" "judgments" ∷ []

abbrev pub extras : Extras
extras = record {
  snapshot_receipts = receipts;
  claim_support_summary = none;
  privacy_allowed = none;
  now = 20;
}

-- a stand-in for SHA-256, of the right length
abbrev pub fixed_digest : List String → String
fixed_digest ids = "0000000000000000000000000000000000000000000000000000000000000000"

abbrev pub cited : Citation
cited = record {
  citation_id = some "c-1";
  source_id = some "s-1";
  source_tier = some "official";
  official_url = some "https://law.example/1";
  official_identifier = none;
  official_hash = none;
  verified_at = none;
  source_label = none;
  legal_material_type = none;
  identifier_resolution = some "hash_match";
}

abbrev pub cached_judgment : SourceRecord
cached_judgment = record {
  source_id = "s-2";
  source_tier = SourceTier.verified_cache;
  official_url = none;
  official_identifier = some "JID-1";
  official_hash = some "sha256:abc";
  verified_at = some "2024-01-01";
  source_label = none;
  legal_material_type = some "judgment";
  identifier_resolution = IdentifierResolution.not_attempted;
}
