-- ===== src/Service/Eligibility.antt =====
-- The material on which a finalization decision rests: the parts of `get_finalization_contract` of
-- src/alr_tw/research/service.py.
use alr_tw.Prelude.{
  ℕ, String, Bool, true, false, ◌≡◌, refl, sym, ◌∙◌, ap, List, Memᴰ, contains, contains_iff,
  map-mem, in-filter, Result, ok, err, ◌>>=◌, Ensures, Ensures-then, Ensures-bind, Ensures-mono,
  returned, raised, arith, if◌then◌else◌, string_eq,
}
use alr_tw.Research.Kinds.{AnswerMode}
use alr_tw.Research.Coverage.{CoverageState, accepted}
use alr_tw.Research.Run.{ResearchRun}
use alr_tw.Research.Sufficiency.{evaluate_research_sufficiency}
use alr_tw.Finalization.Contract.{
  FinalizationContract, construct_contract, validate_ids_and_posture,
}
use alr_tw.Finalization.Build.{Facts, contract_of, build_finalization_contract}
use alr_tw.Finalization.FromRun.{
  Extras, run_facts, run_counter_gate, run_absence_gate, run_blockers, build_finalization_from_run,
}
use alr_tw.Finalization.Gates.{
  evidence_preview, FinalizationBlocker, check_counter_gate, check_absence_gate,
}
use alr_tw.Finalization.RunModes.{run_ordinary_iff}
use alr_tw.Sources.{SourceRecord, EvidenceSpan}
use alr_tw.Service.Advance.{refresh_sufficiency, assess, derived_coverage}
use alr_tw.Service.Projection.{
  Material, is_current_source, ids_of_evidence, eligible_source_ids, eligible_evidence,
}

-- A contract that is built is that of its facts.
module _ (digest : List String → String) where
  built :
      (f : Facts) → Ensures (λ c. c ≡ contract_of digest f) (build_finalization_contract digest f)
  unfolding build_finalization_contract construct_contract validate_ids_and_posture contract_of
  built f = search (Ensures-then, same) depth 12
    where
      same : Ensures (λ c. c ≡ contract_of digest f) (ok (contract_of digest f))
      same = returned refl

  pub built_from_run :
      (run : ResearchRun) (extras : Extras)
      → Ensures
          (λ c.
            (c.allowed_source_ids ≡ run.source_ids)
            × (c.allowed_evidence_ids ≡ evidence_preview run.evidence_ids)
            × (c.answer_mode ≡ AnswerMode.ordinary
                → (evaluate_research_sufficiency run).answer_mode ≡ AnswerMode.ordinary))
          (build_finalization_from_run digest run extras)
  unfolding build_finalization_from_run contract_of run_facts
  built_from_run run extras = Ensures-then (check_counter_gate (run_counter_gate run)) (
      Ensures-then (check_absence_gate (run_absence_gate run))
        (with_blockers (run_blockers run.blockers)))
    where
      with_blockers :
          (m : Result (List FinalizationBlocker))
          → Ensures
              (λ c.
                (c.allowed_source_ids ≡ run.source_ids)
                × (c.allowed_evidence_ids ≡ evidence_preview run.evidence_ids)
                × (c.answer_mode ≡ AnswerMode.ordinary
                    → (evaluate_research_sufficiency run).answer_mode ≡ AnswerMode.ordinary))
              (m >>= (λ blockers.
                build_finalization_contract digest (run_facts run extras blockers)))
      with_blockers (ok blockers) =
          Ensures-mono
            (λ c e. (
              ap (λ (c : FinalizationContract). c.allowed_source_ids) e,
              ap (λ (c : FinalizationContract). c.allowed_evidence_ids) e,
              (λ h.
                  ((run_ordinary_iff run extras blockers).0
                    (sym (ap (λ (c : FinalizationContract). c.answer_mode) e) ∙ h)).0),
            ))
            (built (run_facts run extras blockers))
      with_blockers (err message) = raised

-- the references and the limitations that the assessment leaves alone
abbrev pub Kept : ResearchRun → ResearchRun → Type 0
Kept run run' =
    (run'.source_ids ≡ run.source_ids)
    × (run'.evidence_ids ≡ run.evidence_ids)
    × (run'.coverage.limitations ≡ run.coverage.limitations)

pub refresh-Kept : (run : ResearchRun) → Ensures (Kept run) (refresh_sufficiency run)
unfolding refresh_sufficiency assess derived_coverage
refresh-Kept run = by_change _ (accepted (derived_coverage run))
  where
    by_change :
        (b : Bool) {m : Result CoverageState}
        → Ensures (λ c. c ≡ derived_coverage run) m
        → Ensures (Kept run) (
            if b
            then m >>= (λ coverage. ok (assess (record run { coverage = coverage })))
            else ok (assess run))
    by_change true h =
        Ensures-bind _ h
          (λ coverage e. returned (refl, refl, ap (λ (c : CoverageState). c.limitations) e))
    by_change false h = returned (refl, refl, refl)

-- a stored source of the identifier is eligible at the time
abbrev pub IsEligibleSource : ℕ → Material → String → Type 0
IsEligibleSource now material id =
    (source : SourceRecord) × Memᴰ source material.sources
    × (id ≡ source.source_id)
    × (is_current_source now source ≡ true)

-- a stored span of the identifier may support a claim, and its source is eligible
abbrev pub IsEligibleEvidence : ℕ → Material → String → Type 0
IsEligibleEvidence now material id =
    (span : EvidenceSpan) × Memᴰ span material.evidence
    × (id ≡ span.evidence_id)
    × (span.eligible_for_claim_support ≡ true)
    × IsEligibleSource now material span.source_id

module _ (now : ℕ) (material : Material) (id : String) where
  pub mem-eligible_source_ids :
      Memᴰ id (eligible_source_ids now material.sources) → IsEligibleSource now material id
  unfolding eligible_source_ids
  mem-eligible_source_ids i =
      let (source, j, e) = map-mem (λ (s : SourceRecord). s.source_id) id _ i in
      let (k, h) = in-filter (is_current_source now) material.sources source j in (source, k, e, h)

module _ (now : ℕ) (material : Material) (id : String) where
  pub mem-eligible_evidence :
      Memᴰ id (ids_of_evidence (eligible_evidence now material))
      → IsEligibleEvidence now material id
  unfolding eligible_evidence
  mem-eligible_evidence i =
      let (span, j, e) = map-mem (λ (s : EvidenceSpan). s.evidence_id) id _ i in
      let (k, h) = in-filter _ material.evidence span j in
      let supports : span.eligible_for_claim_support ≡ true = ground arith in
      let there : contains (eligible_source_ids now material.sources) span.source_id ≡ true =
        ground arith in
      (
        span,
        k,
        e,
        supports,
        mem-eligible_source_ids now material span.source_id
            ((contains_iff _ span.source_id).0 there),
      )
