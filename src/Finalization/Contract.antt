-- ===== src/Finalization/Contract.antt =====
-- `FinalizationContract` and its validator: src/alr_tw/contracts/finalization.py.
use alr_tw.Prelude.{
  ℕ, String, Bool, true, false, not, ◌&&◌, ◌||◌, Option, none, some, List, Result, ok, ◌>>◌,
  raise_if, ◌==◌, nat_eq, string_eq, leb, length, unique, non_empty, if◌then◌else◌,
}
use alr_tw.Research.Kinds.{
  ResearchSufficiency, AnswerMode, is_ordinary, is_conditional, is_refusal_only, is_sufficient,
}
use alr_tw.Research.Coverage.{is_provider_scope_id}
use alr_tw.Snapshot.{ProviderSnapshotReceipt, SnapshotConsistencyResult}
use alr_tw.Finalization.Gates.{
  FinalizationBlocker, CounterAuthorityGate, AbsenceClaimGate, EvidenceAuthorizationSummary,
  max_finalization_evidence_preview,
}

pub record FinalizationContract : Type 0 where
  pub run_id : String
  pub research_schema_version : String
  pub workflow_complete : Bool
  pub research_sufficiency : ResearchSufficiency
  pub answer_mode : AnswerMode
  pub allowed_source_ids : List String
  pub allowed_evidence_ids : List String
  pub evidence_authorization : Option EvidenceAuthorizationSummary
  pub required_qualification : List String
  pub pending_support : List String
  pub pending_lookups : List String
  pub blockers : List FinalizationBlocker
  pub safe_next_actions : List String
  pub retryable : Bool
  pub counter_authority : CounterAuthorityGate
  pub absence_claim : AbsenceClaimGate
  pub snapshot_receipts : List ProviderSnapshotReceipt
  pub snapshot_consistency : Option SnapshotConsistencyResult
  pub answer_draft : Option String
  -- the one entry that is read, `semantic_safe_to_present`, of a summary that is given
  pub claim_support_summary : Option (Option Bool)
  pub privacy_allowed : Option Bool

abbrev at_most : ℕ → ℕ → Bool
at_most limit n = leb n limit

-- the `max_length` of each list
unfoldable pub lengths_fit : FinalizationContract → Bool
lengths_fit c =
    at_most 256 (length c.allowed_source_ids)
    && at_most max_finalization_evidence_preview (length c.allowed_evidence_ids)
    && at_most 64 (length c.required_qualification)
    && at_most 128 (length c.pending_support)
    && at_most 128 (length c.pending_lookups)
    && at_most 64 (length c.blockers)
    && at_most 32 (length c.safe_next_actions)
    && at_most 64 (length c.snapshot_receipts)

-- the first loop of the validator
unfoldable pub ids_unique : FinalizationContract → Bool
unfolding unique
ids_unique c =
    unique c.allowed_source_ids
    && unique c.allowed_evidence_ids
    && unique c.required_qualification
    && unique c.pending_support
    && unique c.pending_lookups
    && unique c.safe_next_actions

unfoldable pub preview_agrees : FinalizationContract → Bool
preview_agrees c = elim c.evidence_authorization [
  | none ↦ true
  | some summary ↦ summary.preview_count == length c.allowed_evidence_ids
]

abbrev pub is_given : Option String → Bool
is_given none = false
is_given (some _) = true

abbrev is_consistent_result : Option SnapshotConsistencyResult → Bool
is_consistent_result none = false
is_consistent_result (some result) = result.consistent

unfoldable has_pending_or_blockers : FinalizationContract → Bool
has_pending_or_blockers c =
    non_empty c.pending_support || non_empty c.pending_lookups || non_empty c.blockers

-- the block of `AnswerMode.ORDINARY`
unfoldable pub check_ordinary : FinalizationContract → Result (Unit {0})
unfolding has_pending_or_blockers
check_ordinary c = do
  raise_if (not (is_sufficient c.research_sufficiency))
      "ordinary finalization requires sufficient research"
  raise_if (not c.workflow_complete) "ordinary finalization requires workflow completion"
  raise_if (not (non_empty c.allowed_source_ids) || not (non_empty c.allowed_evidence_ids))
      "ordinary finalization requires server evidence references"
  raise_if (has_pending_or_blockers c)
      "ordinary finalization cannot contain pending work or blockers"
  raise_if (c.counter_authority.required && not c.counter_authority.coverage_complete)
      "ordinary finalization requires counter-authority coverage"
  raise_if
      (c.counter_authority.consensus_claim_requested
        && not c.counter_authority.consensus_claim_allowed)
      "ordinary finalization cannot authorize an unqualified consensus claim"
  raise_if (c.absence_claim.requested && not c.absence_claim.allowed)
      "ordinary finalization cannot authorize an unsupported absence claim"
  raise_if (not (is_consistent_result c.snapshot_consistency))
      "ordinary finalization requires a consistent snapshot receipt"

-- `FinalizationContract.validate_ids_and_posture`
unfoldable pub validate_ids_and_posture : FinalizationContract → Result FinalizationContract
validate_ids_and_posture c = do
  raise_if (not (ids_unique c)) "values must be unique"
  raise_if (not (preview_agrees c)) "evidence authorization preview count mismatch"
  raise_if ((is_refusal_only c.answer_mode || non_empty c.blockers) && is_given c.answer_draft)
      "blocked/refusal finalization cannot carry an answer draft"
  raise_if (is_conditional c.answer_mode && not (non_empty c.required_qualification))
      "conditional finalization requires an explicit qualification"
  if is_ordinary c.answer_mode then check_ordinary c else ok tt
  ok c

-- the construction of a contract: the constraints on the fields, `discard_answer_body`, and the
-- validator
unfoldable pub construct_contract : FinalizationContract → Result FinalizationContract
construct_contract c = do
  raise_if (not (is_provider_scope_id c.run_id)) "run_id does not match its pattern"
  raise_if (not (lengths_fit c)) "too many items"
  validate_ids_and_posture (record c { answer_draft = none })
