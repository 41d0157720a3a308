-- ===== src/Finalization/NoRun.antt =====
-- `validate_finalization` without a run of the server.
use alr_tw.Prelude.{
  String, ap, false, ◌≡◌, none, List, arith, ok, ◌>>=◌, nat_eq, string_eq, list_eq,
}
use alr_tw.Research.Kinds.{AnswerMode}
use alr_tw.Snapshot.{assess_receipts}
use alr_tw.Finalization.Gates.{FinalizationBlocker, summary_eq}
use alr_tw.Finalization.Contract.{FinalizationContract}
use alr_tw.Finalization.Build.{blocker, block_if}
use alr_tw.Finalization.Modes.{non_empty-block_if}
use alr_tw.Finalization.Binding.{non_empty-block_snapshot, non_empty-block_ordinary}
use alr_tw.Finalization.Validate.{
  FinalizationValidationResult, ServerFacts, block_references, block_empty, block_snapshot,
  block_ordinary, presentable_mode, conclude, block_summary, block_server, block_with_run,
  validate_finalization,
}
use alr_tw.Finalization.Conclusion.{safe-conclude, mode-conclude}

no_facts : FinalizationBlocker
no_facts =
    blocker "FINALIZATION_SERVER_FACTS_REQUIRED"
      "Workflow and sufficiency must be checked against a server-owned run."

module _ (digest : List String → String) where
  no_run_result : FinalizationContract → ServerFacts → FinalizationValidationResult
  no_run_result c s =
      let result = assess_receipts s.now c.snapshot_receipts s.snapshot_receipts in
      conclude c s result (
        block_ordinary c result (
          block_snapshot result (
            block_if (presentable_mode c.answer_mode) no_facts
              (block_empty c s (block_summary digest c s (block_references c s c.blockers))))))

  validated_none :
      (c : FinalizationContract) (s : ServerFacts)
      → s.run ≡ none
      → validate_finalization digest c s ≡ ok (no_run_result c s)
  unfolding validate_finalization block_server block_with_run no_run_result no_facts
  validated_none c s h =
      ap
        (λ found.
          block_with_run digest c s found
            (block_empty c s (block_summary digest c s (block_references c s c.blockers)))
          >>= (λ items. ok (
              conclude c s (assess_receipts s.now c.snapshot_receipts s.snapshot_receipts) (
                block_ordinary c (assess_receipts s.now c.snapshot_receipts s.snapshot_receipts) (
                  block_snapshot (assess_receipts s.now c.snapshot_receipts s.snapshot_receipts)
                    items)))))
        h

  no_run_blocks :
      (c : FinalizationContract) (s : ServerFacts)
      → ((no_run_result c s).safe_to_draft ≡ false)
        × ((no_run_result c s).answer_mode ≡ AnswerMode.refusal_only)
  unfolding no_run_result
  no_run_blocks c s =
      let result = assess_receipts s.now c.snapshot_receipts s.snapshot_receipts in
      let before = block_empty c s (block_summary digest c s (block_references c s c.blockers)) in
      let items = block_if (presentable_mode c.answer_mode) no_facts before in
      let all = block_ordinary c result (block_snapshot result items) in
      ground (
        arith,
        safe-conclude c s result all,
        mode-conclude c s result all,
        non_empty-block_ordinary c result (block_snapshot result items),
        non_empty-block_snapshot result items,
        non_empty-block_if (presentable_mode c.answer_mode) no_facts before,
      )

  -- Without a run of the server the validation returns a result, and the result lets no draft begin
  -- and keeps no mode but the refusal.
  pub no_run_refused :
      (c : FinalizationContract) (s : ServerFacts)
      → s.run ≡ none
      → (r : FinalizationValidationResult) × (validate_finalization digest c s ≡ ok r)
        × (r.safe_to_draft ≡ false)
        × (r.answer_mode ≡ AnswerMode.refusal_only)
  no_run_refused c s h =
      let (safe, mode) = no_run_blocks c s in (no_run_result c s, validated_none c s h, safe, mode)
