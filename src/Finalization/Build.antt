-- ===== src/Finalization/Build.antt =====
-- `build_finalization_contract` of src/alr_tw/contracts/finalization.py, in the order of its text.
use alr_tw.Prelude.{
  ℕ, String, Bool, true, false, not, ◌&&◌, ◌||◌, Option, none, some, List, [], ◌∷◌, ◌++◌, Result,
  ◌>>◌, ◌==◌, string_eq, any, contains, non_empty, if◌then◌else◌,
}
use alr_tw.Research.Kinds.{
  ResearchSufficiency, AnswerMode, is_sufficient, is_insufficient, is_retry_required,
}
use alr_tw.Snapshot.{
  ProviderSnapshotReceipt, SnapshotConsistency, SnapshotConsistencyResult, assess_receipts,
}
use alr_tw.Finalization.Gates.{
  FinalizationBlocker, CounterAuthorityGate, AbsenceClaimGate, evidence_preview, evidence_summary,
  summarize_evidence_authorization,
}
use alr_tw.Finalization.Contract.{FinalizationContract, construct_contract}

-- The arguments of `build_finalization_contract`; of the two names of a gate one is kept.
pub record Facts : Type 0 where
  pub run_id : String
  pub workflow_complete : Bool
  pub research_sufficiency : ResearchSufficiency
  pub allowed_source_ids : List String
  pub allowed_evidence_ids : List String
  pub coverage_complete : Bool
  pub time_context_complete : Bool
  pub authority_complete : Bool
  pub required_evidence_available : Bool
  pub counter_authority : CounterAuthorityGate
  pub absence_claim : AbsenceClaimGate
  pub required_qualification : List String
  pub pending_support : List String
  pub pending_lookups : List String
  pub blockers : List FinalizationBlocker
  pub safe_next_actions : List String
  pub retryable : Bool
  pub snapshot_receipts : List ProviderSnapshotReceipt
  pub server_source_ids : Option (List String)
  pub server_evidence_ids : Option (List String)
  pub server_snapshot_receipts : Option (List ProviderSnapshotReceipt)
  pub research_schema_version : String
  pub claim_support_summary : Option (Option Bool)
  pub privacy_allowed : Option Bool
  pub now : ℕ

-- `add_blocker`
unfoldable pub add_blocker :
    FinalizationBlocker → List FinalizationBlocker → List FinalizationBlocker
add_blocker b blockers =
    if any (λ item. item.code == b.code) blockers then blockers else blockers ++ b ∷ []

-- `add_qualification`
unfoldable pub add_qualification : String → List String → List String
add_qualification message qualification =
    if contains qualification message then qualification else qualification ++ message ∷ []

-- `if test: add_blocker(…)`
unfoldable pub block_if :
    Bool → FinalizationBlocker → List FinalizationBlocker → List FinalizationBlocker
block_if true b blockers = add_blocker b blockers
block_if false b blockers = blockers

-- `if test: add_qualification(…)`
unfoldable pub qualify_if : Bool → String → List String → List String
qualify_if true message qualification = add_qualification message qualification
qualify_if false message qualification = qualification

abbrev pub blocker : String → String → FinalizationBlocker
blocker code message = record { code = code; message = message; retryable = false }

-- `bool(set(values) - set(server))`
unfoldable pub has_foreign : List String → List String → Bool
unfolding any contains
has_foreign values server = any (λ value. not (contains server value)) values

unfoldable pub bind_ids :
    FinalizationBlocker
    → FinalizationBlocker
    → List String
    → Option (List String)
    → List FinalizationBlocker
    → List FinalizationBlocker
unfolding has_foreign block_if
bind_ids foreign unbound values none blockers = add_blocker unbound blockers
bind_ids foreign unbound values (some server) blockers =
    block_if (has_foreign values server) foreign blockers

-- the checks of the two bindings
unfoldable pub bind_server : Facts → List FinalizationBlocker → List FinalizationBlocker
unfolding bind_ids
bind_server f blockers =
    bind_ids
      (blocker "FINALIZATION_EVIDENCE_NOT_SERVER_OWNED"
        "Finalization contains evidence references outside the server-owned run.")
      (blocker "FINALIZATION_SERVER_BINDING_REQUIRED"
        "Finalization requires an explicit server-owned evidence binding.")
      f.allowed_evidence_ids f.server_evidence_ids
      (bind_ids
        (blocker "FINALIZATION_SOURCE_NOT_SERVER_OWNED"
          "Finalization contains source references outside the server-owned run.")
        (blocker "FINALIZATION_SERVER_BINDING_REQUIRED"
          "Finalization requires an explicit server-owned source binding.")
        f.allowed_source_ids f.server_source_ids blockers)

-- from `WORKFLOW_INCOMPLETE` to `SERVER_EVIDENCE_REQUIRED`
unfoldable pub block_research : Facts → List FinalizationBlocker → List FinalizationBlocker
block_research f blockers =
    let after_workflow =
      block_if (not f.workflow_complete) (blocker "WORKFLOW_INCOMPLETE" "必要研究流程尚未完成。") blockers in
    let after_retry =
      block_if (is_retry_required f.research_sufficiency)
        (record {
          code = "RESEARCH_RETRY_REQUIRED";
          message = "研究 provider 回報可重試錯誤。";
          retryable = true;
        })
        after_workflow in
    let after_sufficiency =
      block_if (is_insufficient f.research_sufficiency)
        (blocker "RESEARCH_INSUFFICIENT" "目前研究不足以安全產生法律答案。") after_retry in
    let after_support =
      block_if (non_empty f.pending_support)
        (blocker "PENDING_CLAIM_SUPPORT" "仍有 claim support 尚待完成。") after_sufficiency in
    let after_lookups =
      block_if (non_empty f.pending_lookups) (blocker "PENDING_SUPPORT_LOOKUP" "仍有必要的法源查詢尚待完成。")
        after_support in
    block_if (not f.required_evidence_available || not (non_empty f.allowed_evidence_ids))
      (blocker "SERVER_EVIDENCE_REQUIRED" "缺少可供最終答案使用的 server-owned evidence。") after_lookups

abbrev pub is_legacy : SnapshotConsistency → Bool
is_legacy SnapshotConsistency.legacy_no_receipt = true
is_legacy _ = false

unfoldable pub assess_facts : Facts → SnapshotConsistencyResult
assess_facts f = assess_receipts f.now f.snapshot_receipts f.server_snapshot_receipts

abbrev pub says_false : Option Bool → Bool
says_false (some false) = true
says_false _ = false

-- `summary is not None and summary.get("semantic_safe_to_present") is False`
abbrev pub claims_unsafe : Option (Option Bool) → Bool
claims_unsafe none = false
claims_unsafe (some entry) = says_false entry

-- the last three blockers
unfoldable pub block_results : Facts → List FinalizationBlocker → List FinalizationBlocker
block_results f blockers =
    let snapshot = assess_facts f in
    let after_snapshot =
      block_if (not (is_legacy snapshot.status) && not snapshot.consistent)
        (blocker "SNAPSHOT_RECEIPT_MISMATCH" "同一研究混用不一致或非現行 provider snapshot。") blockers in
    let after_claims =
      block_if (claims_unsafe f.claim_support_summary)
        (blocker "CLAIM_SUPPORT_UNSAFE" "既有 claim-support validator 未允許呈現。") after_snapshot in
    block_if (says_false f.privacy_allowed)
      (blocker "ANSWER_PRIVACY_NOT_ALLOWED" "既有 output-privacy validator 未允許呈現。") after_claims

unfoldable pub build_blockers : Facts → List FinalizationBlocker
build_blockers f = block_results f (block_research f (bind_server f f.blockers))

abbrev pub counter_open : CounterAuthorityGate → Bool
counter_open g = g.required && not g.coverage_complete

abbrev pub consensus_open : CounterAuthorityGate → Bool
consensus_open g = g.consensus_claim_requested && not g.consensus_claim_allowed

abbrev pub absence_open : AbsenceClaimGate → Bool
absence_open g = g.requested && not g.allowed

-- the qualifications, from that of the coverage to that of the snapshot
unfoldable pub build_qualification : Facts → List String
build_qualification f =
    let coverage =
      qualify_if (not f.coverage_complete) "法源涵蓋範圍未完整確認，結論僅限已驗證範圍。" f.required_qualification in
    let time = qualify_if (not f.time_context_complete) "法律時點或版本覆蓋未完整確認。" coverage in
    let authority = qualify_if (not f.authority_complete) "法源權威層級或效力尚未完整確認。" time in
    let counter =
      qualify_if (counter_open f.counter_authority) "反向／相反裁判搜尋未完成，不得宣稱實務見解不存在或一致。" authority in
    let consensus = qualify_if (consensus_open f.counter_authority) "目前不得作成實務見解一致的結論。" counter in
    let absence = qualify_if (absence_open f.absence_claim) "目前搜尋範圍不足以支持不存在反面見解的主張。" consensus in
    qualify_if (is_legacy (assess_facts f).status) "此流程沒有 provider snapshot receipt，資料世代只能視為未知。"
      absence

-- `all_ordinary_gates`
unfoldable pub all_ordinary_gates : Facts → Bool
all_ordinary_gates f =
    f.workflow_complete
    && is_sufficient f.research_sufficiency
    && f.coverage_complete
    && f.time_context_complete
    && f.authority_complete
    && f.required_evidence_available
    && non_empty f.allowed_source_ids
    && non_empty f.allowed_evidence_ids
    && not (non_empty f.pending_support)
    && not (non_empty f.pending_lookups)
    && not (non_empty (build_blockers f))
    && not (counter_open f.counter_authority)
    && not (consensus_open f.counter_authority)
    && not (absence_open f.absence_claim)
    && (assess_facts f).consistent

unfoldable pub build_mode : Facts → AnswerMode
build_mode f =
    if all_ordinary_gates f
    then AnswerMode.ordinary
    else if non_empty (build_blockers f)
    then AnswerMode.refusal_only
    else AnswerMode.conditional

abbrev or_default : List String → String → List String
or_default [] message = message ∷ []
or_default values message = values

-- the qualification once the mode is known
unfoldable pub final_qualification : AnswerMode → List String → List String
final_qualification AnswerMode.ordinary qualification = []
final_qualification AnswerMode.refusal_only qualification = qualification
final_qualification AnswerMode.conditional qualification =
    or_default qualification "本次結論僅能以已揭露限制的條件式方式呈現。"

unfoldable pub final_actions : AnswerMode → List String → List String
final_actions AnswerMode.ordinary actions = actions
final_actions AnswerMode.refusal_only actions = or_default actions "完成必要研究 obligation 後重新驗證"
final_actions AnswerMode.conditional actions = or_default actions "保留限制並逐項確認缺失法源"

module _ (digest : List String → String) where
  -- the arguments of the constructor at the end
  unfoldable pub contract_of : Facts → FinalizationContract
  contract_of f = record {
    run_id = f.run_id;
    research_schema_version = f.research_schema_version;
    workflow_complete = f.workflow_complete;
    research_sufficiency = f.research_sufficiency;
    answer_mode = build_mode f;
    allowed_source_ids = f.allowed_source_ids;
    allowed_evidence_ids = evidence_preview f.allowed_evidence_ids;
    evidence_authorization = some (evidence_summary digest f.allowed_evidence_ids);
    required_qualification = final_qualification (build_mode f) (build_qualification f);
    pending_support = f.pending_support;
    pending_lookups = f.pending_lookups;
    blockers = build_blockers f;
    safe_next_actions = final_actions (build_mode f) f.safe_next_actions;
    retryable = f.retryable || any (λ item. item.retryable) (build_blockers f);
    counter_authority = f.counter_authority;
    absence_claim = f.absence_claim;
    snapshot_receipts = f.snapshot_receipts;
    snapshot_consistency = some (assess_facts f);
    answer_draft = none;
    claim_support_summary = f.claim_support_summary;
    privacy_allowed = f.privacy_allowed;
  }

  -- `build_finalization_contract`
  unfoldable pub build_finalization_contract : Facts → Result FinalizationContract
  unfolding contract_of
  build_finalization_contract f = do
    summarize_evidence_authorization digest f.allowed_evidence_ids
    construct_contract (contract_of f)
