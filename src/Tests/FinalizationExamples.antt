-- ===== src/Tests/FinalizationExamples.antt =====
-- The finalization theorems at a run that is fully covered.
use alr_tw.Prelude.{
  true, false, ◌≡◌, ◌≢◌, ◌↔◌, ◌⊎◌, refl, ap, ◌∙◌, none, some, [], ◌∷◌, ok, unique, string_eq,
  sorted_set, list_beq,
}
use alr_tw.Research.Kinds.{AnswerMode, ResearchSufficiency}
use alr_tw.Research.Sufficiency.{
  evaluate_research_sufficiency, needs_retry, transient_codes, retryable_blocked, is_unsupported,
  hard_missing_coverage, hard_incomplete_reasons, has_gaps, soft_missing_coverage, workflow_reasons,
  kind_reasons, nonretryable_blocked, coverage_reasons,
}
use alr_tw.Research.Coverage.{is_provider_scope_id}
use alr_tw.Snapshot.{
  assess_receipts, status_of, snapshot_reasons, scope_reasons, receipt_ids, is_current,
  mixes_generations, binding_reasons, is_foreign, receipt_beq, sets_differ,
}
use alr_tw.Snapshot.Scopes.{IsOneSnapshot}
use alr_tw.Finalization.Gates.{
  CounterAuthorityGate, AbsenceClaimGate, check_counter_gate, check_absence_gate, evidence_preview,
  evidence_summary,
}
use alr_tw.Finalization.Contract.{FinalizationContract, lengths_fit}
use alr_tw.Finalization.Build.{
  Facts, all_ordinary_gates, build_blockers, bind_server, block_research, block_results,
  add_blocker, block_if, qualify_if, add_qualification, build_qualification, has_foreign,
  final_qualification, final_actions, assess_facts, blocker, build_mode, contract_of,
  build_finalization_contract,
}
use alr_tw.Finalization.FromRun.{
  time_context_complete, run_counter_gate, run_absence_gate, run_blockers, run_facts,
  counter_complete, build_finalization_from_run,
}
use alr_tw.Finalization.Modes.{IsUnblocked, IsOrdinary, IsUnblocked-iff, ordinary_gates_iff}
use alr_tw.Finalization.RunModes.{NothingObjected, run_presentable_iff, run_ordinary_iff}
use alr_tw.Finalization.Totality.{IsWellFormed, build_total}
use alr_tw.Finalization.Validate.{
  FinalizationValidationResult, ServerFacts, same_set, same_sufficiency, ordinary_fields,
  block_server, block_with_run, block_references, block_empty, block_summary, block_run_facts,
  block_posture, block_snapshot, block_ordinary, server_extras, conclude, validate_finalization,
}
use alr_tw.Finalization.Drafting.{IsCleared, safe_to_draft_iff}
use alr_tw.Finalization.NoRun.{no_run_refused}
use alr_tw.Finalization.Refusal.{
  StructuredRefusal, Refusable, view, build_structured_refusal, IsRefusal, IsRefusal-iff,
}
use alr_tw.Tests.Samples.{sample_run, extras, receipts, fixed_digest}

abbrev counter_gate : CounterAuthorityGate
counter_gate = record {
  required = true;
  coverage_complete = true;
  consensus_claim_requested = false;
  consensus_claim_allowed = false;
  limitations = [];
}

abbrev absence_gate : AbsenceClaimGate
absence_gate = record {
  requested = false;
  allowed = false;
  scope = none;
  reason_codes = "ABSENCE_CLAIM_NOT_ESTABLISHED" ∷ [];
}

-- what the finalization reads of the run of the samples
abbrev sample_facts : Facts
sample_facts = record {
  run_id = "run-1";
  workflow_complete = true;
  research_sufficiency = ResearchSufficiency.sufficient;
  allowed_source_ids = "src-1" ∷ [];
  allowed_evidence_ids = "ev-1" ∷ "ev-2" ∷ [];
  coverage_complete = true;
  time_context_complete = true;
  authority_complete = true;
  required_evidence_available = true;
  counter_authority = counter_gate;
  absence_claim = absence_gate;
  required_qualification = [];
  pending_support = [];
  pending_lookups = [];
  blockers = [];
  safe_next_actions = [];
  retryable = false;
  snapshot_receipts = receipts;
  server_source_ids = some ("src-1" ∷ []);
  server_evidence_ids = some ("ev-1" ∷ "ev-2" ∷ []);
  server_snapshot_receipts = some receipts;
  research_schema_version = "alr-tw.research-run/v1";
  claim_support_summary = none;
  privacy_allowed = none;
  now = 20;
}

-- the contract that they give
abbrev expected : FinalizationContract
expected = record {
  run_id = "run-1";
  research_schema_version = "alr-tw.research-run/v1";
  workflow_complete = true;
  research_sufficiency = ResearchSufficiency.sufficient;
  answer_mode = AnswerMode.ordinary;
  allowed_source_ids = "src-1" ∷ [];
  allowed_evidence_ids = "ev-1" ∷ "ev-2" ∷ [];
  evidence_authorization = some (record {
    authorized_count = 2;
    evidence_ids_digest = fixed_digest [];
    preview_count = 2;
    preview_complete = true;
  });
  required_qualification = [];
  pending_support = [];
  pending_lookups = [];
  blockers = [];
  safe_next_actions = [];
  retryable = false;
  counter_authority = counter_gate;
  absence_claim = absence_gate;
  snapshot_receipts = receipts;
  snapshot_consistency = some (assess_receipts 20 receipts (some receipts));
  answer_draft = none;
  claim_support_summary = none;
  privacy_allowed = none;
}

IsUnblocked-iff_example :
    (build_mode sample_facts ≢ AnswerMode.refusal_only) ↔ IsUnblocked sample_facts
IsUnblocked-iff_example = IsUnblocked-iff sample_facts

ordinary_gates_iff_example :
    (build_mode sample_facts ≡ AnswerMode.ordinary)
    ↔ (IsUnblocked sample_facts × IsOrdinary sample_facts)
ordinary_gates_iff_example = ordinary_gates_iff sample_facts

run_presentable_iff_example :
    (build_mode (run_facts sample_run extras []) ≢ AnswerMode.refusal_only) ↔ (
      ((evaluate_research_sufficiency sample_run).answer_mode ≢ AnswerMode.refusal_only)
      × NothingObjected extras []
      × ((receipts ≡ []) ⊎ IsOneSnapshot 20 receipts receipts))
run_presentable_iff_example = run_presentable_iff sample_run extras []

run_ordinary_iff_example : (build_mode (run_facts sample_run extras []) ≡ AnswerMode.ordinary) ↔ (
    ((evaluate_research_sufficiency sample_run).answer_mode ≡ AnswerMode.ordinary)
    × (counter_complete sample_run ≡ true)
    × (sample_run.source_ids ≢ [])
    × NothingObjected extras []
    × IsOneSnapshot 20 receipts receipts)
run_ordinary_iff_example = run_ordinary_iff sample_run extras []

sample_facts_eq : run_facts sample_run extras [] ≡ sample_facts
unfolding run_facts evaluate_research_sufficiency needs_retry transient_codes retryable_blocked
    is_unsupported hard_missing_coverage hard_incomplete_reasons has_gaps soft_missing_coverage
    workflow_reasons kind_reasons nonretryable_blocked coverage_reasons counter_complete
    time_context_complete run_counter_gate run_absence_gate sorted_set
sample_facts_eq = refl

sample_contract_eq : contract_of fixed_digest sample_facts ≡ expected
unfolding contract_of build_mode all_ordinary_gates build_blockers bind_server block_research
    block_results add_blocker block_if qualify_if add_qualification build_qualification has_foreign
    final_qualification final_actions assess_facts assess_receipts evidence_preview evidence_summary
    status_of sorted_set snapshot_reasons scope_reasons unique receipt_ids is_current
    mixes_generations binding_reasons is_foreign receipt_beq sets_differ
sample_contract_eq = refl

sample-IsWellFormed : IsWellFormed fixed_digest sample_facts
sample-IsWellFormed = record {
  run_id = unfold is_provider_scope_id in refl;
  sources = unfold unique in refl;
  evidence = unfold unique in refl;
  qualification = unfold unique in refl;
  support = unfold unique in refl;
  lookups = unfold unique in refl;
  actions = unfold unique in refl;
  fits = rw sample_contract_eq (unfold lengths_fit in refl);
}

build_total_example :
    build_finalization_contract fixed_digest sample_facts
    ≡ ok (contract_of fixed_digest sample_facts)
build_total_example = build_total fixed_digest sample_facts sample-IsWellFormed

sample_built : build_finalization_contract fixed_digest sample_facts ≡ ok expected
sample_built = build_total fixed_digest sample_facts sample-IsWellFormed ∙ ap ok sample_contract_eq

abbrev server : ServerFacts
server = record {
  run_id = "run-1";
  source_ids = "src-1" ∷ [];
  evidence_ids = "ev-1" ∷ "ev-2" ∷ [];
  snapshot_receipts = some receipts;
  run = some sample_run;
  now = 20;
}

sample_expected :
    build_finalization_from_run fixed_digest sample_run (server_extras server) ≡ ok expected
unfolding build_finalization_from_run server_extras check_counter_gate check_absence_gate
    run_blockers run_counter_gate run_absence_gate
sample_expected = ap (build_finalization_contract fixed_digest) sample_facts_eq ∙ sample_built

abbrev result : FinalizationValidationResult
result = conclude expected server (assess_receipts 20 receipts (some receipts)) []

sample_validated : validate_finalization fixed_digest expected server ≡ ok result
unfolding validate_finalization block_server block_with_run block_references block_empty
    block_summary block_run_facts block_posture block_snapshot block_ordinary ordinary_fields
    has_foreign same_set same_sufficiency list_beq block_if assess_receipts evidence_preview
    evidence_summary add_blocker status_of sorted_set snapshot_reasons scope_reasons unique
    receipt_ids is_current mixes_generations binding_reasons is_foreign receipt_beq sets_differ
sample_validated = rw sample_expected refl

safe_to_draft_iff_example :
    (result.safe_to_draft ≡ true) ↔ IsCleared fixed_digest expected server sample_run expected
safe_to_draft_iff_example =
    safe_to_draft_iff fixed_digest expected server sample_run expected result refl sample_expected
      sample_validated

-- A draft may begin on the run of the samples.
sample_safe : result.safe_to_draft ≡ true
unfolding conclude
sample_safe = refl

abbrev runless : ServerFacts
runless = record server { run = none }

no_run_refused_example :
    (r : FinalizationValidationResult) × (validate_finalization fixed_digest expected runless
      ≡ ok r)
    × (r.safe_to_draft ≡ false)
    × (r.answer_mode ≡ AnswerMode.refusal_only)
no_run_refused_example = no_run_refused fixed_digest expected runless refl

abbrev blocked : Refusable
blocked =
    Refusable.of_contract
      (record expected { blockers = blocker "A" "first" ∷ blocker "A" "again" ∷ [] })

IsRefusal-iff_example :
    ((p : StructuredRefusal) × (build_structured_refusal blocked ≡ ok p)) ↔ IsRefusal (view blocked)
IsRefusal-iff_example = IsRefusal-iff blocked

abbrev refused : StructuredRefusal
refused = record {
  run_id = "run-1";
  reason_codes = "A" ∷ [];
  safe_next_actions = "完成必要研究後重新驗證" ∷ [];
  retryable = false;
}

sample_refused : build_structured_refusal blocked ≡ ok refused
unfolding build_structured_refusal
sample_refused = refl
