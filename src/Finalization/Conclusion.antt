-- ===== src/Finalization/Conclusion.antt =====
-- What `conclude` of `validate_finalization` returns in a result.
use alr_tw.Prelude.{not, ◌&&◌, ◌≡◌, arith, nat_eq, string_eq, list_eq, non_empty, if◌then◌else◌}
use alr_tw.Research.Kinds.{AnswerMode}
use alr_tw.Snapshot.{SnapshotConsistencyResult}
use alr_tw.Finalization.Gates.{summary_eq}
use alr_tw.Finalization.Contract.{FinalizationContract}
use alr_tw.Finalization.Validate.{ServerFacts, Blockers, presentable_mode, conclude}

pub safe-conclude :
    (c : FinalizationContract) (s : ServerFacts) (result : SnapshotConsistencyResult)
    (items : Blockers)
    → (conclude c s result items).safe_to_draft
      ≡ (not (non_empty items) && presentable_mode c.answer_mode)
unfolding conclude
safe-conclude c s result items = ground arith

pub mode-conclude :
    (c : FinalizationContract) (s : ServerFacts) (result : SnapshotConsistencyResult)
    (items : Blockers)
    → (conclude c s result items).answer_mode
      ≡ (if non_empty items then AnswerMode.refusal_only else c.answer_mode)
unfolding conclude
mode-conclude c s result items = ground arith
