-- ===== src/Finalization/Summary.antt =====
-- The authorization summary that `validate_finalization` tests.
use alr_tw.Prelude.{
  ◌≤◌, String, Option-cases, inl, inr, Bool, true, false, not, ◌||◌, ◌≡◌, ◌↔◌, Option, none, some,
  List, arith, ◌==◌, nat_eq, string_eq, list_eq, unique, dedup, length, ltb, non_empty,
}
use alr_tw.Finalization.Gates.{
  EvidenceAuthorizationSummary, summary_eq, evidence_preview, evidence_summary,
  max_finalization_evidence_preview,
}
use alr_tw.Finalization.Contract.{FinalizationContract}
use alr_tw.Finalization.Modes.{non_empty-block_if}
use alr_tw.Finalization.Validate.{ServerFacts, Blockers, block_summary}

module _ (digest : List String → String) where
  -- The summary, if there is one, is that of all the server's evidence, and the references are its
  -- preview; without one the evidence fits the preview.
  abbrev SummaryFits : Option EvidenceAuthorizationSummary → List String → List String → Type 0
  SummaryFits none allowed server = length server ≤ max_finalization_evidence_preview
  SummaryFits (some summary) allowed server =
      (summary ≡ evidence_summary digest (dedup server))
      × (allowed ≡ evidence_preview (dedup server))

  abbrev pub IsSummarized : FinalizationContract → ServerFacts → Type 0
  IsSummarized c s = SummaryFits c.evidence_authorization c.allowed_evidence_ids s.evidence_ids

  abbrev summary_fails : Option EvidenceAuthorizationSummary → List String → List String → Bool
  summary_fails none allowed server = ltb max_finalization_evidence_preview (length server)
  summary_fails (some summary) allowed server =
      not (allowed == evidence_preview (dedup server))
      || not (unique server)
      || not (summary == evidence_summary digest (dedup server))

  pub summary_block : FinalizationContract → ServerFacts → Bool
  summary_block c s = summary_fails c.evidence_authorization c.allowed_evidence_ids s.evidence_ids

  pub non_empty-block_summary :
      (c : FinalizationContract) (s : ServerFacts) (items : Blockers)
      → non_empty (block_summary digest c s items) ≡ (summary_block c s || non_empty items)
  unfolding block_summary summary_block
  non_empty-block_summary c s items = elim (Option-cases c.evidence_authorization) [
    | inl e ↦ rw e (non_empty-block_if _ _ _)
    | inr (summary, e) ↦ rw e (simp non_empty-block_if (ground arith))
  ]

  SummaryFits-iff :
      (o : Option EvidenceAuthorizationSummary) (allowed server : List String)
      → unique server ≡ true
      → (summary_fails o allowed server ≡ false) ↔ SummaryFits o allowed server
  SummaryFits-iff none allowed server u = ground arith
  SummaryFits-iff (some summary) allowed server u =
      both u ((list_eq {A = String}).test_iff _ _) (summary_eq.test_iff _ _)
    where
      both :
          {a b u : Bool} {P Q : Type 0}
          → u ≡ true
          → (a ≡ true) ↔ P
          → (b ≡ true) ↔ Q
          → ((not a || not u || not b) ≡ false) ↔ (Q × P)
      both h p q = ground (arith, h, p, q)

  pub IsSummarized-iff :
      (c : FinalizationContract) (s : ServerFacts)
      → unique s.evidence_ids ≡ true
      → (summary_block c s ≡ false) ↔ IsSummarized c s
  unfolding summary_block
  IsSummarized-iff c s u =
      SummaryFits-iff c.evidence_authorization c.allowed_evidence_ids s.evidence_ids u
