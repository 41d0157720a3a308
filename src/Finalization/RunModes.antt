-- ===== src/Finalization/RunModes.antt =====
-- The mode that a run's own finalization has, from the run and its receipts.
use alr_tw.Prelude.{
  true, false, not, ◌||◌, ◌≡◌, ◌≢◌, ◌↔◌, ◌⊎◌, inl, inr, refl, sym, ap, ◌∙◌, subst, some, List, [],
  arith, non_empty-of_ne, Bool-cases,
}
use alr_tw.Research.Kinds.{ResearchSufficiency, AnswerMode, ObligationKind}
use alr_tw.Research.Run.{ResearchRun}
use alr_tw.Research.Sufficiency.{is_required_kind, required_coverage, evaluate_research_sufficiency}
use alr_tw.Research.Obligations.{pending_iff, is_required_kind→due}
use alr_tw.Research.Posture.{IsSupported, presentable_iff, ordinary_iff}
use alr_tw.Research.Reasons.{mode_of, assessment_agrees}
use alr_tw.Snapshot.{ProviderSnapshotReceipt, SnapshotConsistency}
use alr_tw.Snapshot.Consistency
use alr_tw.Snapshot.Scopes.{IsOneSnapshot}
use alr_tw.Snapshot.Consistency.{consistent_iff}
use alr_tw.Finalization.Gates.{FinalizationBlocker}
use alr_tw.Finalization.Build.{Facts, build_mode, assess_facts, counter_open}
use alr_tw.Finalization.FromRun.{
  Extras, counter_complete, time_context_complete, run_counter_gate, run_absence_gate, run_facts,
}
use alr_tw.Finalization.Modes.{IsUnblocked-iff, ordinary_gates_iff}

-- What the caller of the finalization may still object to.
pub record NothingObjected (extras : Extras) (blockers : List FinalizationBlocker) : Type 0 where
  pub no_blockers : blockers ≡ []
  pub claims : extras.claim_support_summary ≢ some (some false)
  pub privacy : extras.privacy_allowed ≢ some false

module _ (run : ResearchRun) (extras : Extras) (blockers : List FinalizationBlocker) where
  abbrev mode : AnswerMode
  mode = (evaluate_research_sufficiency run).answer_mode

  abbrev receipts : List ProviderSnapshotReceipt
  receipts = extras.snapshot_receipts

  presentable-sufficiency :
      mode ≢ AnswerMode.refusal_only
      → ((run_facts run extras blockers).research_sufficiency ≡ ResearchSufficiency.sufficient)
        ⊎ ((run_facts run extras blockers).research_sufficiency ≡ ResearchSufficiency.qualified)
  unfolding run_facts
  presentable-sufficiency h = ground (arith, (assessment_agrees run).0)

  sufficiency-presentable :
      ((run_facts run extras blockers).research_sufficiency ≡ ResearchSufficiency.sufficient)
        ⊎ ((run_facts run extras blockers).research_sufficiency ≡ ResearchSufficiency.qualified)
      → mode ≢ AnswerMode.refusal_only
  unfolding run_facts
  sufficiency-presentable h = ground (arith, (assessment_agrees run).0)

  workflow_done : IsSupported run → (evaluate_research_sufficiency run).workflow_complete ≡ true
  workflow_done s = ground (arith, (assessment_agrees run).1, (pending_iff run).1 s.settled)

  legacy_receipts_iff :
      ((assess_facts (run_facts run extras blockers)).status
        ≡ SnapshotConsistency.legacy_no_receipt)
      ↔ (receipts ≡ [])
  unfolding run_facts assess_facts
  legacy_receipts_iff = (
    (λ h. ((Consistency.legacy_iff extras.now receipts receipts).0 h).0),
    (λ e. (Consistency.legacy_iff extras.now receipts receipts).1 (e, e)),
  )

  snapshot_iff :
      ((assess_facts (run_facts run extras blockers)).consistent ≡ true)
      ↔ IsOneSnapshot extras.now receipts receipts
  unfolding run_facts assess_facts
  snapshot_iff = consistent_iff extras.now receipts receipts

  -- A run's own finalization is no refusal exactly when its assessment is none, the run and the
  -- validators raise no blocker, and its receipts are one snapshot or there are none.
  pub run_presentable_iff :
      (build_mode (run_facts run extras blockers) ≢ AnswerMode.refusal_only) ↔ (
        (mode ≢ AnswerMode.refusal_only)
        × NothingObjected extras blockers
        × ((receipts ≡ []) ⊎ IsOneSnapshot extras.now receipts receipts))
  unfolding run_facts
  run_presentable_iff = (to, from)
    where
      to :
          build_mode (run_facts run extras blockers) ≢ AnswerMode.refusal_only
          → (mode ≢ AnswerMode.refusal_only)
            × NothingObjected extras blockers
            × ((receipts ≡ []) ⊎ IsOneSnapshot extras.now receipts receipts)
      to h =
          let u = (IsUnblocked-iff (run_facts run extras blockers)).0 h in
          (
            sufficiency-presentable u.sufficiency,
            record { no_blockers = u.no_blockers; claims = u.claims; privacy = u.privacy },
            (elim u.snapshot [
              | inl l ↦ inl (legacy_receipts_iff.0 l)
              | inr c ↦ inr (snapshot_iff.0 c)
            ]),
          )

      from :
          (mode ≢ AnswerMode.refusal_only)
            × NothingObjected extras blockers
            × ((receipts ≡ []) ⊎ IsOneSnapshot extras.now receipts receipts)
          → build_mode (run_facts run extras blockers) ≢ AnswerMode.refusal_only
      from (m, n, r) =
          let s = (presentable_iff run).0 m in
          (IsUnblocked-iff (run_facts run extras blockers)).1 (record {
            no_blockers = n.no_blockers;
            sources_bound = λ v i. i;
            evidence_bound = λ v i. i;
            workflow = workflow_done s;
            sufficiency = presentable-sufficiency m;
            no_support = refl;
            no_lookups = refl;
            available = non_empty-of_ne run.evidence_ids s.evidence;
            evidence = s.evidence;
            snapshot = elim r [
              | inl e ↦ inl (legacy_receipts_iff.1 e)
              | inr c ↦ inr (snapshot_iff.1 c)
            ];
            claims = n.claims;
            privacy = n.privacy;
          })

  time_covered : IsSupported run → time_context_complete run ≡ true
  unfolding time_context_complete
  time_covered s = elim (Bool-cases (is_required_kind run ObligationKind.legal_time_context)) [
    | inl r ↦
        (let (item, d, e) = is_required_kind→due run ObligationKind.legal_time_context r in
          let covered : required_coverage run.coverage item.kind ≡ true =
            s.covered item d (λ q. time-ne-counter (sym e ∙ q)) in
          flagged (subst (λ k. required_coverage run.coverage k ≡ true) e covered))
    | inr r ↦ ground arith
  ]
    where
      time-ne-counter : ObligationKind.legal_time_context ≢ ObligationKind.counter_authority
      time-ne-counter e = cc

      flagged :
          required_coverage run.coverage ObligationKind.legal_time_context ≡ true
          → (not (is_required_kind run ObligationKind.legal_time_context)
              || run.coverage.time_context_checked)
            ≡ true
      flagged h = unfold required_coverage in ground arith

  counter_closed_iff : (counter_open (run_counter_gate run) ≡ false) ↔ (counter_complete run ≡ true)
  unfolding run_counter_gate counter_complete
  counter_closed_iff = ground arith

  -- A run's own finalization is ordinary exactly when its assessment is ordinary, the counter search
  -- is complete by its own receipt, there are sources, nobody objects, and the receipts are one
  -- snapshot.
  pub run_ordinary_iff : (build_mode (run_facts run extras blockers) ≡ AnswerMode.ordinary) ↔ (
      (mode ≡ AnswerMode.ordinary)
      × (counter_complete run ≡ true)
      × (run.source_ids ≢ [])
      × NothingObjected extras blockers
      × IsOneSnapshot extras.now receipts receipts)
  unfolding run_facts
  run_ordinary_iff = (to, from)
    where
      facts : Facts
      facts = run_facts run extras blockers

      to :
          build_mode (run_facts run extras blockers) ≡ AnswerMode.ordinary
          → (mode ≡ AnswerMode.ordinary)
            × (counter_complete run ≡ true)
            × (run.source_ids ≢ [])
            × NothingObjected extras blockers
            × IsOneSnapshot extras.now receipts receipts
      to h =
          let (u, o) = (ordinary_gates_iff (run_facts run extras blockers)).0 h in
          (
            (assessment_agrees run).0 ∙ ap mode_of o.sufficient,
            counter_closed_iff.0 o.counter,
            o.sources,
            record { no_blockers = u.no_blockers; claims = u.claims; privacy = u.privacy },
            snapshot_iff.0 o.snapshot,
          )

      from :
          (mode ≡ AnswerMode.ordinary)
            × (counter_complete run ≡ true)
            × (run.source_ids ≢ [])
            × NothingObjected extras blockers
            × IsOneSnapshot extras.now receipts receipts
          → build_mode (run_facts run extras blockers) ≡ AnswerMode.ordinary
      from (m, c, sources, n, r) =
          let (s, g) = (ordinary_iff run).0 m in
          let presentable : mode ≢ AnswerMode.refusal_only = (λ e. ground arith) in
          let open_mode = run_presentable_iff.1 (presentable, n, inr r) in
          (ordinary_gates_iff (run_facts run extras blockers)).1 (
            (IsUnblocked-iff (run_facts run extras blockers)).0 open_mode,
            record {
              sufficient = ground (arith, (assessment_agrees run).0);
              coverage = g.whole;
              time = time_covered s;
              authority = g.whole;
              sources = sources;
              counter = counter_closed_iff.1 c;
              consensus = unfold run_counter_gate in refl;
              absence = unfold run_absence_gate in refl;
              snapshot = snapshot_iff.1 r;
            },
          )
