-- ===== src/Finalization/Modes.antt =====
-- Which mode `build_finalization_contract` gives, from the facts alone.
use alr_tw.Prelude.{
  String, Bool, true, false, not, ◌&&◌, ◌||◌, ◌≡◌, ◌≢◌, ◌↔◌, ◌⊎◌, inl, inr, refl, sym, ◌∙◌, Option,
  none, some, List, [], ◌∷◌, Memᴰ, arith, ◌==◌, string_eq, any, any-false, any-of_none, contains,
  contains_iff, non_empty, non_empty-false, non_empty-of_ne, Bool-cases,
}
use alr_tw.Research.Kinds.{
  ResearchSufficiency, AnswerMode, is_sufficient, is_insufficient, is_retry_required,
}
use alr_tw.Snapshot.{SnapshotConsistency}
use alr_tw.Finalization.Gates.{FinalizationBlocker}
use alr_tw.Finalization.Build.{
  Facts, add_blocker, block_if, has_foreign, bind_ids, bind_server, block_research, block_results,
  build_blockers, is_legacy, assess_facts, says_false, claims_unsafe, counter_open, consensus_open,
  absence_open, all_ordinary_gates, build_mode,
}

-- Adding a blocker leaves one; so a conditional blocker is there if its test holds.
pub non_empty-block_if :
    (b : Bool) (item : FinalizationBlocker) (items : List FinalizationBlocker)
    → non_empty (block_if b item items) ≡ (b || non_empty items)
unfolding block_if add_blocker any
non_empty-block_if true item [] = refl
non_empty-block_if true item (x ∷ items) =
    elim (Bool-cases (any (λ i. i.code == item.code) (x ∷ items))) [ inl e ↦ rw e | inr e ↦ rw e ]
non_empty-block_if false item items = refl

-- Every id is the server's.
abbrev pub IsBound : List String → Option (List String) → Type 0
IsBound values none = ⊥
IsBound values (some server) = (value : String) → Memᴰ value values → Memᴰ value server

pub has_foreign_iff :
    (values server : List String)
    → (has_foreign values server ≡ false) ↔ IsBound values (some server)
unfolding has_foreign
has_foreign_iff values server = (
  (λ h v i. (contains_iff server v).0 (not_false (contains server v) (any-false _ values h v i))),
  (λ h. any-of_none _ values (λ v i. ground (arith, (contains_iff server v).1 (h v i)))),
)
  where
    not_false : (b : Bool) → not b ≡ false → b ≡ true
    not_false b h = ground arith

unbound : List String → Option (List String) → Bool
unbound values none = true
unbound values (some server) = has_foreign values server

unbound_iff :
    (values : List String) (server : Option (List String))
    → (unbound values server ≡ false) ↔ IsBound values server
unfolding unbound
unbound_iff values none = ((λ h. cc), (λ h. absurd h))
unbound_iff values (some server) = has_foreign_iff values server

non_empty-bind_ids :
    (foreign missing : FinalizationBlocker) (values : List String) (server : Option (List String))
    (items : List FinalizationBlocker)
    → non_empty (bind_ids foreign missing values server items)
      ≡ (unbound values server || non_empty items)
unfolding bind_ids unbound
non_empty-bind_ids foreign missing values none items = non_empty-block_if true missing items
non_empty-bind_ids foreign missing values (some server) items = non_empty-block_if _ foreign items

-- A verdict on the snapshot that blocks: neither consistent nor legacy.
abbrev snapshot_fails : Facts → Bool
snapshot_fails f = not (is_legacy (assess_facts f).status) && not (assess_facts f).consistent

non_empty-block_research :
    (f : Facts) (items : List FinalizationBlocker)
    → non_empty (block_research f items) ≡ (
        not f.workflow_complete
        || is_retry_required f.research_sufficiency
        || is_insufficient f.research_sufficiency
        || non_empty f.pending_support
        || non_empty f.pending_lookups
        || not f.required_evidence_available
        || not (non_empty f.allowed_evidence_ids)
        || non_empty items)
unfolding block_research
non_empty-block_research f items = simp non_empty-block_if (ground arith)

non_empty-block_results :
    (f : Facts) (items : List FinalizationBlocker)
    → non_empty (block_results f items) ≡ (
        snapshot_fails f
        || claims_unsafe f.claim_support_summary
        || says_false f.privacy_allowed
        || non_empty items)
unfolding block_results
non_empty-block_results f items = simp non_empty-block_if (ground arith)

non_empty-bind_server :
    (f : Facts) (items : List FinalizationBlocker)
    → non_empty (bind_server f items) ≡ (
        unbound f.allowed_evidence_ids f.server_evidence_ids
        || unbound f.allowed_source_ids f.server_source_ids
        || non_empty items)
unfolding bind_server
non_empty-bind_server f items = simp non_empty-bind_ids (ground arith)

-- What every answer needs: nothing blocks.
pub record IsUnblocked (f : Facts) : Type 0 where
  pub no_blockers : f.blockers ≡ []
  pub sources_bound : IsBound f.allowed_source_ids f.server_source_ids
  pub evidence_bound : IsBound f.allowed_evidence_ids f.server_evidence_ids
  pub workflow : f.workflow_complete ≡ true
  pub sufficiency :
      (f.research_sufficiency ≡ ResearchSufficiency.sufficient)
      ⊎ (f.research_sufficiency ≡ ResearchSufficiency.qualified)
  pub no_support : f.pending_support ≡ []
  pub no_lookups : f.pending_lookups ≡ []
  pub available : f.required_evidence_available ≡ true
  pub evidence : f.allowed_evidence_ids ≢ []
  pub snapshot :
      ((assess_facts f).status ≡ SnapshotConsistency.legacy_no_receipt)
      ⊎ ((assess_facts f).consistent ≡ true)
  pub claims : f.claim_support_summary ≢ some (some false)
  pub privacy : f.privacy_allowed ≢ some false

-- Everything that can block.
blocks : Facts → Bool
blocks f =
    (snapshot_fails f || claims_unsafe f.claim_support_summary || says_false f.privacy_allowed)
    || ((not f.workflow_complete
          || is_retry_required f.research_sufficiency
          || is_insufficient f.research_sufficiency
          || non_empty f.pending_support
          || non_empty f.pending_lookups
          || not f.required_evidence_available
          || not (non_empty f.allowed_evidence_ids))
        || (unbound f.allowed_evidence_ids f.server_evidence_ids
            || unbound f.allowed_source_ids f.server_source_ids
            || non_empty f.blockers))

non_empty-build_blockers : (f : Facts) → non_empty (build_blockers f) ≡ blocks f
unfolding build_blockers blocks
non_empty-build_blockers f =
    simp (non_empty-block_results, non_empty-block_research, non_empty-bind_server) (ground arith)

-- The ordinary gates, as one conjunction.
pub record IsOrdinary (f : Facts) : Type 0 where
  pub sufficient : f.research_sufficiency ≡ ResearchSufficiency.sufficient
  pub coverage : f.coverage_complete ≡ true
  pub time : f.time_context_complete ≡ true
  pub authority : f.authority_complete ≡ true
  pub sources : f.allowed_source_ids ≢ []
  pub counter : counter_open f.counter_authority ≡ false
  pub consensus : consensus_open f.counter_authority ≡ false
  pub absence : absence_open f.absence_claim ≡ false
  pub snapshot : (assess_facts f).consistent ≡ true

gates_unblocked : (f : Facts) → all_ordinary_gates f ≡ true → non_empty (build_blockers f) ≡ false
unfolding all_ordinary_gates
gates_unblocked f h = ground arith

mode_test :
    (f : Facts) → (build_mode f ≢ AnswerMode.refusal_only) ↔ (non_empty (build_blockers f) ≡ false)
unfolding build_mode
mode_test f = ground (arith, gates_unblocked f)

ordinary_mode_test :
    (f : Facts) → (build_mode f ≡ AnswerMode.ordinary) ↔ (all_ordinary_gates f ≡ true)
unfolding build_mode
ordinary_mode_test f = ground arith

blocks→unblocked : (f : Facts) → blocks f ≡ false → IsUnblocked f
unfolding blocks
blocks→unblocked f h = record {
  no_blockers = non_empty-false _ (ground arith);
  sources_bound = (unbound_iff _ _).0 (ground arith);
  evidence_bound = (unbound_iff _ _).0 (ground arith);
  workflow = ground arith;
  sufficiency = ground arith;
  no_support = non_empty-false _ (ground arith);
  no_lookups = non_empty-false _ (ground arith);
  available = ground arith;
  evidence = λ e. ground arith;
  snapshot = ground arith;
  claims = λ e. ground arith;
  privacy = λ e. ground arith;
}

claims_allow : (s : Option (Option Bool)) → s ≢ some (some false) → claims_unsafe s ≡ false
claims_allow s h = ground arith

says_nothing : (s : Option Bool) → s ≢ some false → says_false s ≡ false
says_nothing s h = ground arith

sufficiency_allows :
    (s : ResearchSufficiency)
    → (s ≡ ResearchSufficiency.sufficient) ⊎ (s ≡ ResearchSufficiency.qualified)
    → (is_retry_required s ≡ false) × (is_insufficient s ≡ false)
sufficiency_allows s h = ground arith

snapshot_allows :
    (f : Facts)
    → ((assess_facts f).status ≡ SnapshotConsistency.legacy_no_receipt)
      ⊎ ((assess_facts f).consistent ≡ true)
    → snapshot_fails f ≡ false
snapshot_allows f h = ground arith

unblocked→blocks : (f : Facts) → IsUnblocked f → blocks f ≡ false
unfolding blocks
unblocked→blocks f u = ground (
  arith,
  (unbound_iff f.allowed_source_ids f.server_source_ids).1 u.sources_bound,
  (unbound_iff f.allowed_evidence_ids f.server_evidence_ids).1 u.evidence_bound,
  non_empty-of_ne f.allowed_evidence_ids u.evidence,
  claims_allow f.claim_support_summary u.claims,
  says_nothing f.privacy_allowed u.privacy,
  sufficiency_allows f.research_sufficiency u.sufficiency,
  snapshot_allows f u.snapshot,
)

-- The built contract refuses unless nothing blocks: no blocker is passed in, the references are the
-- server's, the workflow is complete, the research sufficient or qualified, nothing is pending,
-- evidence is there, the receipts are consistent or absent, and no validator objects.
pub IsUnblocked-iff : (f : Facts) → (build_mode f ≢ AnswerMode.refusal_only) ↔ IsUnblocked f
IsUnblocked-iff f = (
  (λ m. blocks→unblocked f (sym (non_empty-build_blockers f) ∙ (mode_test f).0 m)),
  (λ u. (mode_test f).1 (non_empty-build_blockers f ∙ unblocked→blocks f u)),
)

gates→ordinary : (f : Facts) → all_ordinary_gates f ≡ true → IsOrdinary f
unfolding all_ordinary_gates
gates→ordinary f h = record {
  sufficient = ground arith;
  coverage = ground arith;
  time = ground arith;
  authority = ground arith;
  sources = λ e. ground arith;
  counter = ground arith;
  consensus = ground arith;
  absence = ground arith;
  snapshot = ground arith;
}

sufficient_is :
    (s : ResearchSufficiency) → s ≡ ResearchSufficiency.sufficient → is_sufficient s ≡ true
sufficient_is s h = ground arith

ordinary→gates :
    (f : Facts)
    → non_empty (build_blockers f) ≡ false
    → IsUnblocked f
    → IsOrdinary f
    → all_ordinary_gates f ≡ true
unfolding all_ordinary_gates
ordinary→gates f n u o = ground (
  arith,
  non_empty-of_ne f.allowed_evidence_ids u.evidence,
  non_empty-of_ne f.allowed_source_ids o.sources,
  sufficient_is f.research_sufficiency o.sufficient,
)

-- The built contract is ordinary exactly when nothing blocks and, besides, the research is
-- sufficient, coverage, time and authority are complete, sources are there, the three claim gates
-- are closed, and the receipts are consistent.
pub ordinary_gates_iff :
    (f : Facts) → (build_mode f ≡ AnswerMode.ordinary) ↔ (IsUnblocked f × IsOrdinary f)
ordinary_gates_iff f = (to, from)
  where
    to : build_mode f ≡ AnswerMode.ordinary → IsUnblocked f × IsOrdinary f
    to m =
        let g = (ordinary_mode_test f).0 m in
        (
          blocks→unblocked f (sym (non_empty-build_blockers f) ∙ gates_unblocked f g),
          gates→ordinary f g,
        )

    from : IsUnblocked f × IsOrdinary f → build_mode f ≡ AnswerMode.ordinary
    from (u, o) =
        (ordinary_mode_test f).1
          (ordinary→gates f (non_empty-build_blockers f ∙ unblocked→blocks f u) u o)
