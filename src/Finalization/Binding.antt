-- ===== src/Finalization/Binding.antt =====
-- When `validate_finalization` lets a draft begin: what the server's own facts must say.
use alr_tw.Prelude.{
  String, Bool, true, false, not, ◌&&◌, ◌||◌, ◌≡◌, ◌≢◌, ◌↔◌, refl, Option, none, some, List, [],
  ◌∷◌, Memᴰ, arith, ◌==◌, nat_eq, string_eq, bool_eq, list_eq, unique, non_empty, non_empty-of_ne,
}
use alr_tw.Research.Kinds.{ResearchSufficiency, AnswerMode, is_refusal_only, is_ordinary}
use alr_tw.Research.Run.{ResearchRun}
use alr_tw.Snapshot.{SnapshotConsistency, SnapshotConsistencyResult}
use alr_tw.Finalization.Gates.{counter_gate_eq, absence_gate_eq, summary_eq}
use alr_tw.Finalization.Contract.{FinalizationContract, is_given}
use alr_tw.Finalization.Build.{has_foreign}
use alr_tw.Finalization.Modes.{non_empty-block_if, IsBound, has_foreign_iff}
use alr_tw.Finalization.Validate.{
  ServerFacts, Blockers, block_references, block_empty, same_set, block_run_facts, same_sufficiency,
  block_posture, block_snapshot, is_foreign_status, is_mismatch, ordinary_fields, block_ordinary,
  presentable_mode,
}

same_sufficiency_iff : (a b : ResearchSufficiency) → (same_sufficiency a b ≡ true) ↔ (a ≡ b)
unfolding same_sufficiency
same_sufficiency_iff a b = ground arith

pub not_mismatch :
    (s : SnapshotConsistency) → (is_mismatch s ≡ false) ↔ (s ≢ SnapshotConsistency.mismatch)
not_mismatch s = ground arith

pub not_foreign :
    (s : SnapshotConsistency)
    → (is_foreign_status s ≡ false) ↔ (s ≢ SnapshotConsistency.foreign_receipt)
not_foreign s = ground arith

draft_none : (o : Option String) → (is_given o ≡ false) ↔ (o ≡ none)
draft_none o = ground arith

-- Equal as sets.
abbrev IsSameSet : List String → List String → Type 0
IsSameSet xs ys = (x : String) → (Memᴰ x xs ↔ Memᴰ x ys)

same_set_iff : (xs ys : List String) → (same_set xs ys ≡ true) ↔ IsSameSet xs ys
unfolding same_set
same_set_iff xs ys = (
  (λ h x. ((has_foreign_iff xs ys).0 (ground arith) x, (has_foreign_iff ys xs).0 (ground arith) x)),
  (λ h.
      ground (
        arith,
        (has_foreign_iff xs ys).1 (λ x. (h x).0),
        (has_foreign_iff ys xs).1 (λ x. (h x).1),
      )),
)

-- The references are those of the server's run.
pub record IsReferenced (c : FinalizationContract) (s : ServerFacts) : Type 0 where
  pub run_id : c.run_id ≡ s.run_id
  pub no_draft : c.answer_draft ≡ none
  pub sources : IsBound c.allowed_source_ids (some s.source_ids)
  pub evidence : IsBound c.allowed_evidence_ids (some s.evidence_ids)
  pub distinct_evidence : unique s.evidence_ids ≡ true
  pub has_sources : c.allowed_source_ids ≢ []
  pub has_evidence : c.allowed_evidence_ids ≢ []

-- The server's facts are those of its run.
pub record IsFactual (s : ServerFacts) (run : ResearchRun) : Type 0 where
  pub run_id : run.run_id ≡ s.run_id
  pub sources : IsSameSet run.source_ids s.source_ids
  pub evidence : IsSameSet run.evidence_ids s.evidence_ids

-- The posture is no better than that of the contract `e` that the server builds.
pub record IsAuthorized (c e : FinalizationContract) : Type 0 where
  pub workflow : c.workflow_complete ≡ e.workflow_complete
  pub sufficiency : c.research_sufficiency ≡ e.research_sufficiency
  pub presentable : e.answer_mode ≢ AnswerMode.refusal_only
  pub ordinary : c.answer_mode ≡ AnswerMode.ordinary → e.answer_mode ≡ AnswerMode.ordinary
  pub qualification :
      (q : String) → Memᴰ q e.required_qualification → Memᴰ q c.required_qualification
  pub counter : c.counter_authority ≡ e.counter_authority
  pub absence : c.absence_claim ≡ e.absence_claim

pub references_block : FinalizationContract → ServerFacts → Bool
references_block c s =
    not (c.run_id == s.run_id)
    || is_given c.answer_draft
    || has_foreign c.allowed_source_ids s.source_ids
    || has_foreign c.allowed_evidence_ids s.evidence_ids
    || not (unique s.evidence_ids)

pub run_facts_block : ServerFacts → ResearchRun → Bool
run_facts_block s run =
    not (run.run_id == s.run_id)
    || not (same_set run.source_ids s.source_ids)
    || not (same_set run.evidence_ids s.evidence_ids)

pub posture_block : FinalizationContract → FinalizationContract → Bool
posture_block c e =
    not (c.workflow_complete == e.workflow_complete)
    || not (same_sufficiency c.research_sufficiency e.research_sufficiency)
    || is_refusal_only e.answer_mode
    || (not (is_refusal_only e.answer_mode)
        && is_ordinary c.answer_mode
        && not (is_ordinary e.answer_mode))
    || has_foreign e.required_qualification c.required_qualification
    || not (c.counter_authority == e.counter_authority)
    || not (c.absence_claim == e.absence_claim)

pub empty_block : FinalizationContract → ServerFacts → Bool
empty_block c s =
    presentable_mode c.answer_mode
    && (not (non_empty c.allowed_source_ids)
        || not (non_empty c.allowed_evidence_ids)
        || not (non_empty s.source_ids)
        || not (non_empty s.evidence_ids))

pub non_empty-block_references :
    (c : FinalizationContract) (s : ServerFacts) (items : Blockers)
    → non_empty (block_references c s items) ≡ (references_block c s || non_empty items)
unfolding block_references references_block
non_empty-block_references c s items = simp non_empty-block_if (ground arith)

pub non_empty-block_empty :
    (c : FinalizationContract) (s : ServerFacts) (items : Blockers)
    → non_empty (block_empty c s items) ≡ (empty_block c s || non_empty items)
unfolding block_empty empty_block
non_empty-block_empty c s items = simp non_empty-block_if (ground arith)

pub non_empty-block_run_facts :
    (s : ServerFacts) (run : ResearchRun) (items : Blockers)
    → non_empty (block_run_facts s run items) ≡ (run_facts_block s run || non_empty items)
unfolding block_run_facts run_facts_block
non_empty-block_run_facts s run items = simp non_empty-block_if (ground arith)

pub non_empty-block_posture :
    (c e : FinalizationContract) (items : Blockers)
    → non_empty (block_posture c e items) ≡ (posture_block c e || non_empty items)
unfolding block_posture posture_block
non_empty-block_posture c e items = simp non_empty-block_if (ground arith)

pub non_empty-block_snapshot :
    (result : SnapshotConsistencyResult) (items : Blockers)
    → non_empty (block_snapshot result items)
      ≡ (is_mismatch result.status || is_foreign_status result.status || non_empty items)
unfolding block_snapshot
non_empty-block_snapshot result items = simp non_empty-block_if (ground arith)

pub non_empty-block_ordinary :
    (c : FinalizationContract) (result : SnapshotConsistencyResult) (items : Blockers)
    → non_empty (block_ordinary c result items)
      ≡ ((is_ordinary c.answer_mode && not (ordinary_fields c result)) || non_empty items)
unfolding block_ordinary
non_empty-block_ordinary c result items = simp non_empty-block_if refl

pub referenced :
    (c : FinalizationContract) (s : ServerFacts)
    → presentable_mode c.answer_mode ≡ true
    → references_block c s ≡ false
    → empty_block c s ≡ false
    → IsReferenced c s
unfolding references_block empty_block
referenced c s p r n = record {
  run_id = (string_eq.test_iff _ _).0 (ground arith);
  no_draft = (draft_none _).0 (ground arith);
  sources = (has_foreign_iff _ _).0 (ground arith);
  evidence = (has_foreign_iff _ _).0 (ground arith);
  distinct_evidence = ground arith;
  has_sources = λ e. ground arith;
  has_evidence = λ e. ground arith;
}

bound_non_empty : (xs ys : List String) → xs ≢ [] → IsBound xs (some ys) → non_empty ys ≡ true
bound_non_empty [] ys n b = absurd (n refl)
bound_non_empty (x ∷ xs) [] n b = elim (b x (Memᴰ.head refl)) [ ]
bound_non_empty (x ∷ xs) (y ∷ ys) n b = refl

pub referenced-tests :
    (c : FinalizationContract) (s : ServerFacts)
    → IsReferenced c s
    → (references_block c s ≡ false) × (empty_block c s ≡ false)
unfolding references_block empty_block
referenced-tests c s r = ground (
  arith,
  (string_eq.test_iff _ _).1 r.run_id,
  (draft_none _).1 r.no_draft,
  (has_foreign_iff _ _).1 r.sources,
  (has_foreign_iff _ _).1 r.evidence,
  r.distinct_evidence,
  non_empty-of_ne _ r.has_sources,
  non_empty-of_ne _ r.has_evidence,
  bound_non_empty _ _ r.has_sources r.sources,
  bound_non_empty _ _ r.has_evidence r.evidence,
)

pub IsFactual-iff :
    (s : ServerFacts) (run : ResearchRun) → (run_facts_block s run ≡ false) ↔ IsFactual s run
unfolding run_facts_block
IsFactual-iff s run = (
  (λ h. record {
    run_id = (string_eq.test_iff _ _).0 (ground arith);
    sources = (same_set_iff _ _).0 (ground arith);
    evidence = (same_set_iff _ _).0 (ground arith);
  }),
  (λ f. ground (
    arith,
    (string_eq.test_iff _ _).1 f.run_id,
    (same_set_iff _ _).1 f.sources,
    (same_set_iff _ _).1 f.evidence,
  )),
)

pub IsAuthorized-iff : (c e : FinalizationContract) → (posture_block c e ≡ false) ↔ IsAuthorized c e
unfolding posture_block
IsAuthorized-iff c e = (
  (λ h. record {
    workflow = (bool_eq.test_iff _ _).0 (ground arith);
    sufficiency = (same_sufficiency_iff _ _).0 (ground arith);
    presentable = ground arith;
    ordinary = λ o. ground arith;
    qualification = (has_foreign_iff _ _).0 (ground arith);
    counter = (counter_gate_eq.test_iff _ _).0 (ground arith);
    absence = (absence_gate_eq.test_iff _ _).0 (ground arith);
  }),
  (λ a. ground (
    arith,
    (bool_eq.test_iff _ _).1 a.workflow,
    (same_sufficiency_iff _ _).1 a.sufficiency,
    a.presentable,
    a.ordinary,
    (has_foreign_iff _ _).1 a.qualification,
    (counter_gate_eq.test_iff _ _).1 a.counter,
    (absence_gate_eq.test_iff _ _).1 a.absence,
  )),
)
