-- ===== src/Service/Decision.antt =====
-- What a finalization decision lets through: `get_finalization_contract` of
-- src/alr_tw/research/service.py.
use alr_tw.Prelude.{
  ℕ, String, Bool, true, false, not, ◌&&◌, ◌≡◌, refl, sym, ◌∙◌, ap, subst, List, [], ◌∷◌, ◌++◌,
  Memᴰ, contains, contains_iff, any, any-false, non_empty-filter, mem-sorted, mem-sorted_set,
  mem-take, mem-map, Result, Ensures, Ensures-then, Ensures-bind, Ensures-mono, raise_if, returned,
  non_empty, arith, if◌then◌else◌, string_eq,
}
use alr_tw.Research.Kinds.{AnswerMode}
use alr_tw.Research.Run.{ResearchRun}
use alr_tw.Research.Posture.{ordinary_iff}
use alr_tw.Finalization.Contract.{FinalizationContract}
use alr_tw.Finalization.Gates.{evidence_preview, max_finalization_evidence_preview}
use alr_tw.RunReceipts.{Payload}
use alr_tw.Sources.{SourceRecord, EvidenceSpan}
use alr_tw.Service.Outcomes.{minus}
use alr_tw.Service.Advance.{is_expired}
use alr_tw.Service.Execution.{with_refs}
use alr_tw.Service.Projection.{
  Material, ids_of_sources, ids_of_evidence, is_dropped, stale_limitations, with_eligible_refs,
  full_run, assessed_run, get_finalization_contract,
}
use alr_tw.Service.Eligibility.{
  IsEligibleSource, IsEligibleEvidence, Kept, refresh-Kept, mem-eligible_source_ids,
  mem-eligible_evidence, built_from_run,
}

none_stale :
    (b : Bool) (limitations : List String) → stale_limitations b limitations ≡ [] → b ≡ false
unfolding stale_limitations contains any
none_stale false limitations h = refl
none_stale true [] h = absurd (cc)
none_stale true (x ∷ xs) h = absurd (
    let g : non_empty (stale_limitations true (x ∷ xs)) ≡ false = ap non_empty h in
    some_stale (contains (x ∷ xs) "SERVER_EVIDENCE_STALE_OR_INELIGIBLE") g)
  where
    some_stale :
        (b : Bool)
        → non_empty (
            if true && not b
            then x ∷ (xs ++ "SERVER_EVIDENCE_STALE_OR_INELIGIBLE" ∷ [])
            else x ∷ xs)
          ≡ false
        → ⊥
    some_stale true h = cc
    some_stale false h = cc

none_dropped :
    (xs ys : List String) (x : String) → non_empty (minus xs ys) ≡ false → Memᴰ x xs → Memᴰ x ys
unfolding minus
none_dropped xs ys x h i =
    let g = any-false (λ x. not (contains ys x)) xs (sym (non_empty-filter _ xs) ∙ h) x i in
    (contains_iff ys x).0 (ground arith)

module _ (now : ℕ) (material : Material) (run : ResearchRun) where
  -- all that is stored for the run is eligible
  abbrev pub AllEligible : Type 0
  AllEligible =
      ((source : SourceRecord)
        → Memᴰ source material.sources
        → IsEligibleSource now material source.source_id)
      × ((span : EvidenceSpan)
          → Memᴰ span material.evidence
          → IsEligibleEvidence now material span.evidence_id)

  all_eligible : is_dropped now material (full_run material run) ≡ false → AllEligible
  unfolding is_dropped full_run with_refs
  all_eligible h = (
    (λ source i. mem-eligible_source_ids now material source.source_id (
        none_dropped (full_run material run).source_ids _ source.source_id (ground arith) (
          (mem-sorted (ids_of_sources material.sources) source.source_id).1
            (mem-map (λ (s : SourceRecord). s.source_id) source material.sources i)))),
    (λ span i. mem-eligible_evidence now material span.evidence_id (
        none_dropped (full_run material run).evidence_ids _ span.evidence_id (ground arith) (
          (mem-sorted (ids_of_evidence material.evidence) span.evidence_id).1
            (mem-map (λ (s : EvidenceSpan). s.evidence_id) span material.evidence i)))),
  )

  abbrev Assessed : ResearchRun → Type 0
  Assessed assessed = Kept (with_eligible_refs now material (full_run material run)) assessed

  ordinary_all :
      (assessed : ResearchRun)
      → Assessed assessed
      → assessed.coverage.limitations ≡ []
      → AllEligible
  unfolding with_eligible_refs full_run with_refs
  ordinary_all assessed kept h =
      all_eligible (none_stale _ run.coverage.limitations (sym kept.2 ∙ h))

-- A contract that is returned allows no source and no span but those that are stored for the run and are eligible at
-- the time: of a source the trust and the expiry, of a span the flag and the source. If its
-- answer mode is the ordinary one then all that is stored for the run is eligible.
pub contract_rests :
    (digest : List String → String) (seal : Payload → String) (sha256 : String → String) (now : ℕ)
    (material : Material) (run : ResearchRun)
    → Ensures
        (λ ((saved, built) : ResearchRun × Result FinalizationContract).
          Ensures
            (λ contract.
              ((id : String)
                → Memᴰ id contract.allowed_source_ids
                → IsEligibleSource now material id)
              × ((id : String)
                  → Memᴰ id contract.allowed_evidence_ids
                  → IsEligibleEvidence now material id)
              × (contract.answer_mode ≡ AnswerMode.ordinary → AllEligible now material run))
            built)
        (get_finalization_contract digest seal sha256 now material run)
unfolding get_finalization_contract assessed_run with_eligible_refs evidence_preview
contract_rests digest seal sha256 now material run =
    Ensures-then (raise_if (is_expired run now) "RESEARCH_RUN_EXPIRED") (
      Ensures-bind _ (refresh-Kept (with_eligible_refs now material (full_run material run)))
        (λ assessed kept. returned (
          Ensures-mono
            (λ contract (sources, evidence, ordinary). (
              (λ id i.
                  mem-eligible_source_ids now material id
                    ((mem-sorted_set _ id).0 (subst (Memᴰ id) (sources ∙ kept.0) i))),
              (λ id i. mem-eligible_evidence now material id (
                  (mem-sorted _ id).0 (
                    subst (Memᴰ id) kept.1 (
                      (mem-sorted _ id).0 (
                        mem-take max_finalization_evidence_preview _ id
                          (subst (Memᴰ id) evidence i)))))),
              (λ h.
                  ordinary_all now material run assessed kept
                    ((ordinary_iff assessed).0 (ordinary h)).1.no_limitations),
            ))
            (built_from_run digest assessed _))))
