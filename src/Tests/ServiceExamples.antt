-- ===== src/Tests/ServiceExamples.antt =====
-- Examples of the steps and the execution of src/alr_tw/research/service.py.
use alr_tw.Prelude.{
  Ensures, contains, Result, ◌≤◌, ◌<◌, String, true, ◌≡◌, ◌≢◌, ◌↔◌, refl, some, none, List, [], ◌∷◌,
  ok, length, Memᴰ, inl, inr, arith, filter, list_beq, all, unique,
}
use alr_tw.Research.Kinds.{AnswerMode, ResearchState, ObligationKind, ObligationStatus}
use alr_tw.Research.Coverage.{is_provider_scope_id}
use alr_tw.Research.Run.{ResearchObligation, ResearchRun}
use alr_tw.Service.Outcomes.{
  Bucket, raw_codes, bucket_of, is_retryable_outcome_code, Outcome, ProviderCall,
  outcome_reason_codes, retryable_outcome_codes,
}
use alr_tw.Service.Advance.{is_outstanding, outstanding, retry_codes, advance}
use alr_tw.Service.Execution.{
  Execution, StopReason, synthetic_execute, apply_updates, execute_run_to_completion,
}
use alr_tw.Service.Totality.{IsUnderway, IsReceipt, are_calls_valid}
use alr_tw.Service.Steps.{Waits, step_progresses}
use alr_tw.Service.Completion.{IsLawful, IsActive}
use alr_tw.Service.Codes.{listed, codes_iff}
use alr_tw.Service.Loop.{Completes, execution-Completes}
use alr_tw.Finalization.Contract.{FinalizationContract}
use alr_tw.Service.Outcomes.{minus}
use alr_tw.Service.Execution.{with_refs}
use alr_tw.Service.Projection.{
  Material, eligible_source_ids, is_dropped, full_run, get_finalization_contract,
}
use alr_tw.Service.Eligibility.{IsEligibleSource, IsEligibleEvidence}
use alr_tw.Service.Decision.{AllEligible, contract_rests}
use alr_tw.Tests.ReceiptExamples.{zeros, sealed, sample_source, sample_span}
use alr_tw.Tests.Samples.{instant, done, sample_run}

abbrev todo : ObligationKind → ResearchObligation
todo kind = record (done kind) { status = ObligationStatus.pending }

abbrev laws : ResearchObligation
laws = todo ObligationKind.law_research

abbrev open_run : ResearchRun
open_run = record sample_run {
  state = ResearchState.researching;
  obligations =
      laws
      ∷ todo ObligationKind.counter_authority
      ∷ todo ObligationKind.final_answer_validation
      ∷ [];
}

-- a provider that timed out
abbrev late_call : ProviderCall
late_call = record {
  provider_id = some "laws";
  status = some "error";
  error_code = some "LAW_TIMEOUT";
}

abbrev late : Outcome
late = record {
  status = "completed";
  obligation = "law_research";
  warnings = "PARTIAL_TEXT" ∷ [];
  error_code = none;
  provider_calls = late_call ∷ [];
  metadata = none;
}

late_codes : retryable_outcome_codes late ≡ "LAW_TIMEOUT" ∷ []
unfolding retryable_outcome_codes list_beq
late_codes = refl

-- a good answer, and a step that is to be retried
abbrev clean : Outcome
clean = record late { warnings = []; provider_calls = [] }

open-IsUnderway : IsUnderway open_run.state
open-IsUnderway = inl refl

open-IsReceipt : IsReceipt open_run.coverage
unfolding is_provider_scope_id all unique
open-IsReceipt = (refl, refl)

late_valid : are_calls_valid late ≡ true
unfolding is_provider_scope_id all
late_valid = refl

laws_open : is_outstanding laws ≡ true
unfolding is_outstanding
laws_open = refl

step_progresses_example :
    (run' : ResearchRun) × (advance open_run open_run laws late ("src-1" ∷ []) [] (instant 5)
      ≡ ok run')
    × IsReceipt run'.coverage
    × (retry_codes open_run open_run laws late ≡ []
        → length (outstanding run'.obligations) < length (outstanding open_run.obligations))
    × ((code : String) (codes : List String)
        → retry_codes open_run open_run laws late ≡ code ∷ codes
        → Waits laws run'.obligations code codes)
    × ((outstanding run'.obligations ≡ []) ↔ (run'.state ≡ ResearchState.ready_for_draft))
step_progresses_example =
    step_progresses open_run open_run laws late ("src-1" ∷ []) [] (instant 5) (Memᴰ.head refl)
      laws_open open-IsUnderway open-IsReceipt late_valid

-- The synthetic executor hands nothing back that is not well formed.
synthetic-IsLawful : IsLawful synthetic_execute
unfolding synthetic_execute apply_updates all
synthetic-IsLawful run item receipt = (receipt, refl)

open-IsActive : IsActive open_run (instant 5)
unfolding outstanding is_outstanding filter
open-IsActive = (open-IsReceipt, refl, refl, inl (inr (inl refl), refl))

two_open : outstanding open_run.obligations ≡ laws ∷ todo ObligationKind.counter_authority ∷ []
unfolding outstanding is_outstanding filter
two_open = refl

execution-Completes_example :
    (end : Execution) × (execute_run_to_completion synthetic_execute (instant 5) 12 open_run
      ≡ ok end)
    × Completes open_run 12 end
    × (length (outstanding open_run.obligations) ≤ 12
        → end.stop_reason ≢ StopReason.max_steps_reached)
execution-Completes_example =
    execution-Completes synthetic_execute synthetic-IsLawful (instant 5) 12 open_run (omega arith)
      (omega arith) open-IsActive

codes_iff_example :
    ((bucket : Bucket)
      → Memᴰ "LAW_TIMEOUT" (listed (outcome_reason_codes late) bucket)
        ↔ (Memᴰ "LAW_TIMEOUT" (raw_codes late) × (bucket_of late.metadata "LAW_TIMEOUT" ≡ bucket)))
    × (Memᴰ "LAW_TIMEOUT" (retryable_outcome_codes late)
        ↔ (Memᴰ "LAW_TIMEOUT" (raw_codes late) × (is_retryable_outcome_code "LAW_TIMEOUT" ≡ true)))
codes_iff_example = codes_iff late "LAW_TIMEOUT"

-- what is stored, and the same at a time when the source has expired
abbrev stored : Material
stored = record { sources = sample_source ∷ []; evidence = sample_span ∷ []; receipts = [] }

still_eligible : eligible_source_ids 50 stored.sources ≡ "src-1" ∷ []
unfolding eligible_source_ids filter
still_eligible = refl

expired_dropped : is_dropped 95 stored (full_run stored open_run) ≡ true
unfolding is_dropped minus filter contains full_run with_refs
expired_dropped = refl

abbrev no_digest : List String → String
no_digest ids = "0000000000000000000000000000000000000000000000000000000000000000"

contract_rests_example :
    Ensures
      (λ ((saved, built) : ResearchRun × Result FinalizationContract).
        Ensures
          (λ contract.
            ((id : String) → Memᴰ id contract.allowed_source_ids → IsEligibleSource 50 stored id)
            × ((id : String)
                → Memᴰ id contract.allowed_evidence_ids
                → IsEligibleEvidence 50 stored id)
            × (contract.answer_mode ≡ AnswerMode.ordinary → AllEligible 50 stored open_run))
          built)
      (get_finalization_contract no_digest sealed zeros 50 stored open_run)
contract_rests_example = contract_rests no_digest sealed zeros 50 stored open_run
