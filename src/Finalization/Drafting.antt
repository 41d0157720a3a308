-- ===== src/Finalization/Drafting.antt =====
-- `safe_to_draft` of `validate_finalization`.
use alr_tw.Prelude.{
  String, ap, Bool, true, false, not, ◌&&◌, ◌||◌, ◌≡◌, ◌≢◌, ◌↔◌, refl, sym, ◌∙◌, some, List, [],
  arith, Result, ok, err, ◌>>=◌, nat_eq, string_eq, list_eq, non_empty, non_empty-false,
}
use alr_tw.Research.Kinds.{AnswerMode, is_ordinary}
use alr_tw.Research.Run.{ResearchRun}
use alr_tw.Snapshot.{SnapshotConsistency, SnapshotConsistencyResult, assess_receipts}
use alr_tw.Finalization.Gates.{summary_eq}
use alr_tw.Finalization.Contract.{FinalizationContract}
use alr_tw.Finalization.FromRun.{build_finalization_from_run}
use alr_tw.Finalization.Binding.{
  IsReferenced, IsFactual, IsAuthorized, references_block, run_facts_block, posture_block,
  empty_block, non_empty-block_references, non_empty-block_empty, non_empty-block_run_facts,
  non_empty-block_posture, non_empty-block_snapshot, non_empty-block_ordinary, referenced,
  referenced-tests, IsFactual-iff, IsAuthorized-iff, not_mismatch, not_foreign,
}
use alr_tw.Finalization.Validate.{
  FinalizationValidationResult, ServerFacts, Blockers, block_references, block_empty,
  block_run_facts, block_posture, block_snapshot, is_mismatch, is_foreign_status, ordinary_fields,
  block_ordinary, presentable_mode, conclude, server_extras, block_summary, block_server,
  block_with_run, validate_finalization,
}
use alr_tw.Finalization.Conclusion.{safe-conclude}
use alr_tw.Finalization.Summary.{
  IsSummarized, IsSummarized-iff, summary_block, non_empty-block_summary,
}

module _ (digest : List String → String) where
  -- What lets a draft begin, with the run of the server and the contract `e` built from it.
  pub record IsCleared (c : FinalizationContract) (s : ServerFacts) (run : ResearchRun)
      (e : FinalizationContract) : Type 0 where
    pub presentable : c.answer_mode ≢ AnswerMode.refusal_only
    pub no_blockers : c.blockers ≡ []
    pub references : IsReferenced c s
    summarized : IsSummarized digest c s
    factual : IsFactual s run
    pub authorized : IsAuthorized c e
    no_mismatch :
        (assess_receipts s.now c.snapshot_receipts s.snapshot_receipts).status
        ≢ SnapshotConsistency.mismatch
    no_foreign :
        (assess_receipts s.now c.snapshot_receipts s.snapshot_receipts).status
        ≢ SnapshotConsistency.foreign_receipt
    pub ordinary :
        c.answer_mode ≡ AnswerMode.ordinary
        → ordinary_fields c (assess_receipts s.now c.snapshot_receipts s.snapshot_receipts) ≡ true

  mode_presentable : (m : AnswerMode) → (presentable_mode m ≡ true) ↔ (m ≢ AnswerMode.refusal_only)
  mode_presentable m = ground arith

  -- Every test of the validation of a presentable contract, in one disjunction.
  some_block : FinalizationContract → ServerFacts → ResearchRun → FinalizationContract → Bool
  some_block c s run e =
      let result = assess_receipts s.now c.snapshot_receipts s.snapshot_receipts in
      (is_ordinary c.answer_mode && not (ordinary_fields c result))
      || is_mismatch result.status
      || is_foreign_status result.status
      || posture_block c e
      || run_facts_block s run
      || empty_block c s
      || summary_block digest c s
      || references_block c s
      || non_empty c.blockers

  unblocked→cleared :
      (c : FinalizationContract) (s : ServerFacts) (run : ResearchRun) (e : FinalizationContract)
      → presentable_mode c.answer_mode ≡ true
      → some_block c s run e ≡ false
      → IsCleared c s run e
  unfolding some_block
  unblocked→cleared c s run e p h =
      let r = referenced c s p (ground arith) (ground arith) in
      record {
        presentable = (mode_presentable _).0 p;
        no_blockers = non_empty-false _ (ground arith);
        references = r;
        summarized = (IsSummarized-iff digest c s r.distinct_evidence).0 (ground arith);
        factual = (IsFactual-iff s run).0 (ground arith);
        authorized = (IsAuthorized-iff c e).0 (ground arith);
        no_mismatch = (not_mismatch _).0 (ground arith);
        no_foreign = (not_foreign _).0 (ground arith);
        ordinary = λ o. ground arith;
      }

  cleared→unblocked :
      (c : FinalizationContract) (s : ServerFacts) (run : ResearchRun) (e : FinalizationContract)
      → IsCleared c s run e
      → some_block c s run e ≡ false
  unfolding some_block
  cleared→unblocked c s run e k = ground (
    arith,
    k.no_blockers,
    referenced-tests c s k.references,
    (IsSummarized-iff digest c s k.references.distinct_evidence).1 k.summarized,
    (IsFactual-iff s run).1 k.factual,
    (IsAuthorized-iff c e).1 k.authorized,
    (not_mismatch _).1 k.no_mismatch,
    (not_foreign _).1 k.no_foreign,
    k.ordinary,
  )

  with_run :
      (c : FinalizationContract) (s : ServerFacts) (run : ResearchRun) (e : FinalizationContract)
      (items : Blockers)
      → presentable_mode c.answer_mode ≡ true
      → build_finalization_from_run digest run (server_extras s) ≡ ok e
      → block_with_run digest c s (some run) items
        ≡ ok (block_posture c e (block_run_facts s run items))
  unfolding block_with_run
  with_run c s run e items p b = rw (b, p) refl

  all_blockers : FinalizationContract → ServerFacts → ResearchRun → FinalizationContract → Blockers
  all_blockers c s run e =
      let result = assess_receipts s.now c.snapshot_receipts s.snapshot_receipts in
      block_ordinary c result (
        block_snapshot result (
          block_posture c e (
            block_run_facts s run
              (block_empty c s (block_summary digest c s (block_references c s c.blockers))))))

  validated :
      (c : FinalizationContract) (s : ServerFacts) (run : ResearchRun) (e : FinalizationContract)
      → presentable_mode c.answer_mode ≡ true
      → s.run ≡ some run
      → build_finalization_from_run digest run (server_extras s) ≡ ok e
      → validate_finalization digest c s
        ≡ ok (
            conclude c s
              (assess_receipts s.now c.snapshot_receipts s.snapshot_receipts)
              (all_blockers c s run e))
  unfolding validate_finalization block_server all_blockers
  validated c s run e p h b =
      ap
        (λ found. found >>= (λ items. ok (
          conclude c s (assess_receipts s.now c.snapshot_receipts s.snapshot_receipts) (
            block_ordinary c (assess_receipts s.now c.snapshot_receipts s.snapshot_receipts) (
              block_snapshot (assess_receipts s.now c.snapshot_receipts s.snapshot_receipts)
                items)))))
        (ap
            (λ found.
              block_with_run digest c s found
                (block_empty c s (block_summary digest c s (block_references c s c.blockers))))
            h
          ∙ with_run c s run e
              (block_empty c s (block_summary digest c s (block_references c s c.blockers))) p b)

  non_empty-all_blockers :
      (c : FinalizationContract) (s : ServerFacts) (run : ResearchRun) (e : FinalizationContract)
      → non_empty (all_blockers c s run e) ≡ some_block c s run e
  unfolding all_blockers some_block
  non_empty-all_blockers c s run e =
      simp
        (
          non_empty-block_ordinary,
          non_empty-block_snapshot,
          non_empty-block_posture,
          non_empty-block_run_facts,
          non_empty-block_empty,
          non_empty-block_summary digest,
          non_empty-block_references,
        )
        (ground arith)

  ok-injective : {A : Type 0} {a b : A} → ok a ≡ ok b → a ≡ b
  ok-injective e = cc

  safe-validated :
      (c : FinalizationContract) (s : ServerFacts) (run : ResearchRun) (e : FinalizationContract)
      (r : FinalizationValidationResult)
      → presentable_mode c.answer_mode ≡ true
      → s.run ≡ some run
      → build_finalization_from_run digest run (server_extras s) ≡ ok e
      → validate_finalization digest c s ≡ ok r
      → r.safe_to_draft ≡ not (some_block c s run e)
  safe-validated c s run e r p h b v = ground (
    arith,
    ap (λ x. x.safe_to_draft) (ok-injective (sym v ∙ validated c s run e p h b)),
    safe-conclude c s (assess_receipts s.now c.snapshot_receipts s.snapshot_receipts)
        (all_blockers c s run e),
    non_empty-all_blockers c s run e,
    p,
  )

  drawn_presentable :
      (c : FinalizationContract) (s : ServerFacts) (result : SnapshotConsistencyResult)
      (r : FinalizationValidationResult)
      → (found : Result Blockers) (more : Blockers → Blockers)
      → (found >>= (λ items. ok (conclude c s result (more items)))) ≡ ok r
      → r.safe_to_draft ≡ true
      → presentable_mode c.answer_mode ≡ true
  drawn_presentable c s result r (ok items) more e t =
      ground (
        arith,
        ap (λ x. x.safe_to_draft) (ok-injective e),
        safe-conclude c s result (more items),
        t,
      )
  drawn_presentable c s result r (err message) more e t = cc

  safe_presentable :
      (c : FinalizationContract) (s : ServerFacts) (r : FinalizationValidationResult)
      → validate_finalization digest c s ≡ ok r
      → r.safe_to_draft ≡ true
      → presentable_mode c.answer_mode ≡ true
  unfolding validate_finalization
  safe_presentable c s r v t =
      drawn_presentable c s (assess_receipts s.now c.snapshot_receipts s.snapshot_receipts) r
        (block_server digest c s)
        (λ items.
          block_ordinary c (assess_receipts s.now c.snapshot_receipts s.snapshot_receipts)
            (block_snapshot (assess_receipts s.now c.snapshot_receipts s.snapshot_receipts) items))
        v t

  -- With a server-owned run from which the server builds its contract `e`, a draft may begin exactly
  -- when the contract is presentable and carries no blocker, its run and references are the
  -- server's, its summary is that of the server's evidence, the server's facts are those of the run,
  -- the posture is authorized by `e`, the receipts are neither foreign nor inconsistent, and an
  -- ordinary contract meets every ordinary field.
  pub safe_to_draft_iff :
      (c : FinalizationContract) (s : ServerFacts) (run : ResearchRun) (e : FinalizationContract)
      (r : FinalizationValidationResult)
      → s.run ≡ some run
      → build_finalization_from_run digest run (server_extras s) ≡ ok e
      → validate_finalization digest c s ≡ ok r
      → (r.safe_to_draft ≡ true) ↔ IsCleared c s run e
  safe_to_draft_iff c s run e r h b v = (to, from)
    where
      safe : presentable_mode c.answer_mode ≡ true → r.safe_to_draft ≡ not (some_block c s run e)
      safe p = safe-validated c s run e r p h b v

      to : r.safe_to_draft ≡ true → IsCleared c s run e
      to t =
          let p = safe_presentable c s r v t in
          unblocked→cleared c s run e p (ground (arith, safe p, t))

      from : IsCleared c s run e → r.safe_to_draft ≡ true
      from k =
          ground (arith, safe ((mode_presentable _).1 k.presentable), cleared→unblocked c s run e k)
