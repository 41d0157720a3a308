-- ===== src/Finalization/Validate.antt =====
-- `validate_finalization` of src/alr_tw/contracts/finalization.py, in the order of its text.
use alr_tw.Prelude.{
  ℕ, String, Bool, true, false, not, ◌&&◌, ◌||◌, Option, none, some, List, [], ◌∷◌, ◌++◌, Result,
  ok, ◌>>=◌, ◌==◌, nat_eq, string_eq, option_eq, list_eq, bool_eq, any, contains, unique, dedup,
  ltb, length, non_empty, if◌then◌else◌,
}
use alr_tw.Research.Kinds.{
  ResearchSufficiency, AnswerMode, is_ordinary, is_conditional, is_refusal_only, is_sufficient,
}
use alr_tw.Research.Run.{ResearchRun}
use alr_tw.Snapshot.{
  ProviderSnapshotReceipt, SnapshotConsistency, SnapshotConsistencyResult, assess_receipts,
}
use alr_tw.Finalization.Gates.{
  FinalizationBlocker, counter_gate_eq, absence_gate_eq, summary_eq, evidence_preview,
  evidence_summary, max_finalization_evidence_preview,
}
use alr_tw.Finalization.Contract.{FinalizationContract, is_given}
use alr_tw.Finalization.Build.{
  blocker, block_if, has_foreign, counter_open, consensus_open, absence_open, is_legacy,
}
use alr_tw.Finalization.FromRun.{Extras, build_finalization_from_run}

pub record FinalizationValidationResult : Type 0 where
  pub run_id : String
  pub valid : Bool
  pub answer_mode : AnswerMode
  pub safe_to_draft : Bool
  pub answer_draft : Option String
  pub required_qualification : List String
  pub blockers : List FinalizationBlocker
  pub safe_next_actions : List String
  pub retryable : Bool
  pub snapshot_consistency : SnapshotConsistencyResult

-- The server's side of a validation.
pub record ServerFacts : Type 0 where
  pub run_id : String
  pub source_ids : List String
  pub evidence_ids : List String
  pub snapshot_receipts : Option (List ProviderSnapshotReceipt)
  pub run : Option ResearchRun
  pub now : ℕ

abbrev pub Blockers : Type 0
Blockers = List FinalizationBlocker

-- the run, the draft, and the references
unfoldable pub block_references : FinalizationContract → ServerFacts → Blockers → Blockers
block_references c s blockers =
    let after_run =
      block_if (not (c.run_id == s.run_id))
        (blocker "FINALIZATION_RUN_NOT_SERVER_OWNED"
          "Finalization run_id does not match the server-owned research run.")
        blockers in
    let after_draft =
      block_if (is_given c.answer_draft)
        (blocker "FINALIZATION_DRAFT_NOT_ALLOWED"
          "Finalization is a pre-draft posture and cannot carry answer content.")
        after_run in
    let after_sources =
      block_if (has_foreign c.allowed_source_ids s.source_ids)
        (blocker "FINALIZATION_SOURCE_NOT_SERVER_OWNED"
          "Finalization contains source references outside this run.")
        after_draft in
    let after_evidence =
      block_if (has_foreign c.allowed_evidence_ids s.evidence_ids)
        (blocker "FINALIZATION_EVIDENCE_NOT_SERVER_OWNED"
          "Finalization contains evidence references outside this run.")
        after_sources in
    block_if (not (unique s.evidence_ids))
      (blocker "FINALIZATION_SERVER_EVIDENCE_FACTS_INVALID"
        "Server evidence references contain duplicate IDs.")
      after_evidence

abbrev pub presentable_mode : AnswerMode → Bool
presentable_mode mode = is_ordinary mode || is_conditional mode

-- the two checks of a presentable mode before the run is looked at
unfoldable pub block_empty : FinalizationContract → ServerFacts → Blockers → Blockers
block_empty c s blockers =
    let after_contract =
      block_if
        (presentable_mode c.answer_mode
          && (not (non_empty c.allowed_source_ids) || not (non_empty c.allowed_evidence_ids)))
        (blocker "FINALIZATION_SERVER_EVIDENCE_REQUIRED"
          "A presentable finalization must carry server-owned source and evidence IDs.")
        blockers in
    block_if
      (presentable_mode c.answer_mode
        && (not (non_empty s.source_ids) || not (non_empty s.evidence_ids)))
      (blocker "FINALIZATION_SERVER_EVIDENCE_REQUIRED"
        "The server run must contain source and evidence IDs before presentation.")
      after_contract

-- equal as sets
unfoldable pub same_set : List String → List String → Bool
same_set xs ys = not (has_foreign xs ys) && not (has_foreign ys xs)

-- the identity of the run's snapshot
unfoldable pub block_run_facts : ServerFacts → ResearchRun → Blockers → Blockers
block_run_facts s run blockers =
    let after_run =
      block_if (not (run.run_id == s.run_id))
        (blocker "FINALIZATION_SERVER_RUN_FACTS_MISMATCH"
          "Server run facts do not match the requested run.")
        blockers in
    let after_sources =
      block_if (not (same_set run.source_ids s.source_ids))
        (blocker "FINALIZATION_SERVER_SOURCE_FACTS_MISMATCH"
          "Server source references do not match the server run snapshot.")
        after_run in
    block_if (not (same_set run.evidence_ids s.evidence_ids))
      (blocker "FINALIZATION_SERVER_EVIDENCE_FACTS_MISMATCH"
        "Server evidence references do not match the server run snapshot.")
      after_sources

abbrev sufficiency_tag : ResearchSufficiency → ℕ
sufficiency_tag ResearchSufficiency.sufficient = 0
sufficiency_tag ResearchSufficiency.qualified = 1
sufficiency_tag ResearchSufficiency.insufficient = 2
sufficiency_tag ResearchSufficiency.retry_required = 3

unfoldable pub same_sufficiency : ResearchSufficiency → ResearchSufficiency → Bool
same_sufficiency a b = sufficiency_tag a == sufficiency_tag b

-- a presentable contract `c` against the contract `e` that the server builds from its run
unfoldable pub block_posture : FinalizationContract → FinalizationContract → Blockers → Blockers
block_posture c e blockers =
    let after_workflow =
      block_if (not (c.workflow_complete == e.workflow_complete))
        (blocker "FINALIZATION_WORKFLOW_FACTS_MISMATCH"
          "Caller workflow status does not match the server-owned run.")
        blockers in
    let after_sufficiency =
      block_if (not (same_sufficiency c.research_sufficiency e.research_sufficiency))
        (blocker "FINALIZATION_SUFFICIENCY_FACTS_MISMATCH"
          "Caller sufficiency does not match the server-owned run.")
        after_workflow in
    let after_refusal =
      block_if (is_refusal_only e.answer_mode)
        (blocker "FINALIZATION_SERVER_REFUSAL"
          "The server-owned run is not eligible for a presentable answer.")
        after_sufficiency in
    let after_mode =
      block_if
        (not (is_refusal_only e.answer_mode)
          && is_ordinary c.answer_mode
          && not (is_ordinary e.answer_mode))
        (blocker "FINALIZATION_SERVER_POSTURE_NOT_ORDINARY"
          "Ordinary posture is not authorized by the server-owned run.")
        after_refusal in
    let after_qualification =
      block_if (has_foreign e.required_qualification c.required_qualification)
        (blocker "FINALIZATION_SERVER_QUALIFICATION_MISSING"
          "Caller finalization omitted a server-required qualification.")
        after_mode in
    let after_counter =
      block_if (not (c.counter_authority == e.counter_authority))
        (blocker "FINALIZATION_COUNTER_GATE_NOT_SERVER_OWNED"
          "Counter-authority gate does not match the server-owned run.")
        after_qualification in
    block_if (not (c.absence_claim == e.absence_claim))
      (blocker "FINALIZATION_ABSENCE_GATE_NOT_SERVER_OWNED"
        "Absence-claim gate does not match the server-owned run.")
      after_counter

abbrev pub is_foreign_status : SnapshotConsistency → Bool
is_foreign_status SnapshotConsistency.foreign_receipt = true
is_foreign_status _ = false

abbrev pub is_mismatch : SnapshotConsistency → Bool
is_mismatch SnapshotConsistency.mismatch = true
is_mismatch _ = false

unfoldable pub block_snapshot : SnapshotConsistencyResult → Blockers → Blockers
block_snapshot result blockers =
    block_if (is_mismatch result.status)
      (blocker "SNAPSHOT_RECEIPT_MISMATCH" "Snapshot receipts are inconsistent or stale.")
      (block_if (is_foreign_status result.status)
        (blocker "SNAPSHOT_RECEIPT_NOT_SERVER_OWNED"
          "Snapshot receipt is not issued for this server-owned run.")
        blockers)

-- the guard tests for a code that is no message; what is appended is a message
unfoldable pub legacy_qualification : SnapshotConsistencyResult → List String → List String
legacy_qualification result qualification =
    if is_legacy result.status && not (contains qualification "SNAPSHOT_RECEIPT_MISSING_LEGACY")
    then qualification ++ "資料 snapshot receipt 未提供；本次結果不得視為完整世代驗證。" ∷ []
    else qualification

-- `all(ordinary_fields)`
unfoldable pub ordinary_fields : FinalizationContract → SnapshotConsistencyResult → Bool
ordinary_fields c result =
    c.workflow_complete
    && is_sufficient c.research_sufficiency
    && not (non_empty c.required_qualification)
    && not (non_empty c.pending_support)
    && not (non_empty c.pending_lookups)
    && not (counter_open c.counter_authority)
    && not (consensus_open c.counter_authority)
    && not (absence_open c.absence_claim)
    && result.consistent

unfoldable pub block_ordinary :
    FinalizationContract → SnapshotConsistencyResult → Blockers → Blockers
block_ordinary c result blockers =
    block_if (is_ordinary c.answer_mode && not (ordinary_fields c result))
      (blocker "ORDINARY_GATE_NOT_SATISFIED"
        "Ordinary answer mode does not satisfy all server finalization gates.")
      blockers

-- a dictionary entry: the first place of a code, its last value
put_blocker : FinalizationBlocker → Blockers → Blockers
put_blocker b [] = b ∷ []
put_blocker b (x ∷ rest) =
    let others = put_blocker b rest in if x.code == b.code then b ∷ rest else x ∷ others

-- `{item.code: item for item in blockers}`
unique_blockers : Blockers → Blockers → Blockers
unique_blockers seen [] = seen
unique_blockers seen (b ∷ rest) = unique_blockers (put_blocker b seen) rest

abbrev or_retry : List String → List String
or_retry [] = "完成必要研究後重新驗證" ∷ []
or_retry actions = actions

-- the result, once the blockers are known
unfoldable pub conclude :
    FinalizationContract
    → ServerFacts
    → SnapshotConsistencyResult
    → Blockers
    → FinalizationValidationResult
unfolding unique_blockers put_blocker
conclude c s result blockers =
    let refused = non_empty blockers || is_refusal_only c.answer_mode in
    let final_blockers = unique_blockers [] blockers in
    record {
      run_id = s.run_id;
      valid = not (non_empty final_blockers);
      answer_mode = if refused then AnswerMode.refusal_only else c.answer_mode;
      safe_to_draft = if refused then false else presentable_mode c.answer_mode;
      answer_draft = none;
      required_qualification = legacy_qualification result c.required_qualification;
      blockers = final_blockers;
      safe_next_actions =
          if non_empty final_blockers then or_retry c.safe_next_actions else c.safe_next_actions;
      retryable = c.retryable || any (λ item. item.retryable) final_blockers;
      snapshot_consistency = result;
    }

or_none : Option (List ProviderSnapshotReceipt) → List ProviderSnapshotReceipt
or_none none = []
or_none (some receipts) = receipts

-- what the server passes on when it builds its own contract
unfoldable pub server_extras : ServerFacts → Extras
unfolding or_none
server_extras s = record {
  snapshot_receipts = or_none s.snapshot_receipts;
  claim_support_summary = none;
  privacy_allowed = none;
  now = s.now;
}

module _ (digest : List String → String) where
  -- the summary against that of the server's ids, as a set
  unfoldable pub block_summary : FinalizationContract → ServerFacts → Blockers → Blockers
  unfolding dedup
  block_summary c s blockers = elim c.evidence_authorization [
    | some summary ↦
        block_if (not (c.allowed_evidence_ids == evidence_preview (dedup s.evidence_ids)))
          (blocker "FINALIZATION_EVIDENCE_PREVIEW_MISMATCH"
            "Finalization evidence preview does not match this server run.")
          (block_if
            (not (unique s.evidence_ids)
              || not (summary == evidence_summary digest (dedup s.evidence_ids)))
            (blocker "FINALIZATION_EVIDENCE_SET_MISMATCH"
              "Finalization evidence-set summary does not match this server run.")
            blockers)
    | none ↦
        block_if (ltb max_finalization_evidence_preview (length s.evidence_ids))
          (blocker "FINALIZATION_EVIDENCE_SET_SUMMARY_REQUIRED"
            "Large server evidence sets require a digest-bound authorization summary.")
          blockers
  ]

  unfoldable pub block_with_run :
      FinalizationContract → ServerFacts → Option ResearchRun → Blockers → Result Blockers
  block_with_run c s none blockers = ok (
      block_if (presentable_mode c.answer_mode)
        (blocker "FINALIZATION_SERVER_FACTS_REQUIRED"
          "Workflow and sufficiency must be checked against a server-owned run.")
        blockers)
  block_with_run c s (some run) blockers = do
    expected ← build_finalization_from_run digest run (server_extras s)
    let after_facts = block_run_facts s run blockers
    ok (
        if presentable_mode c.answer_mode
        then block_posture c expected after_facts
        else after_facts)

  -- the blockers before the snapshot is assessed
  unfoldable pub block_server : FinalizationContract → ServerFacts → Result Blockers
  unfolding block_with_run
  block_server c s =
      block_with_run c s s.run
        (block_empty c s (block_summary c s (block_references c s c.blockers)))

  -- `validate_finalization`
  unfoldable pub validate_finalization :
      FinalizationContract → ServerFacts → Result FinalizationValidationResult
  validate_finalization c s = do
    blockers ← block_server c s
    let result = assess_receipts s.now c.snapshot_receipts s.snapshot_receipts
    ok (conclude c s result (block_ordinary c result (block_snapshot result blockers)))
