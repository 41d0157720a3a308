-- ===== src/Service/Progress.antt =====
-- What a step of the research does to the obligations and to the state.
use alr_tw.Prelude.{
  ℕ, String, Bool, true, false, ◌≡◌, ◌⊎◌, refl, sym, ◌∙◌, List, Result, ok, err, ◌>>=◌, Ensures,
  Ensures-mono, Ensures-bind, returned, raised, ◌==◌, non_empty, if◌then◌else◌, Bool-cases, inl,
  inr, contains, string_eq,
}
use alr_tw.Research.Kinds.{ResearchState, kind_eq, state_eq, DataMode}
use alr_tw.Research.Coverage.{CoverageState, validate_coverage_receipt}
use alr_tw.Research.Run.{ResearchObligation, ResearchRun, Datetime}
use alr_tw.Research.Transitions.{transition_run, allowed_transitions}
use alr_tw.Service.Outcomes.{Outcome, apply_outcome_coverage, nonblocking_recall_codes}
use alr_tw.Service.Advance.{
  is_expired, awaits_plan, outstanding, with_outcome, next_state, restore_recall,
  refresh_sufficiency, assess, cleared_codes, retry_codes, advance, is_recall_complete,
  derived_coverage,
}

-- The steps after the obligations are written leave them, and the references, alone.
abbrev pub Keeps : ResearchRun → ResearchRun → Type 0
Keeps run run' =
    (run'.obligations ≡ run.obligations)
    × (run'.evidence_ids ≡ run.evidence_ids)
    × (run'.source_ids ≡ run.source_ids)
    × (run'.run_id ≡ run.run_id)
    × ((now : ℕ) → is_expired run' now ≡ is_expired run now)
    × (awaits_plan run' ≡ awaits_plan run)

abbrev pub Transits : ResearchRun → ResearchState → ResearchRun → Type 0
Transits run target run' = Keeps run run' × (run'.state ≡ target)

Keeps-trans : (a b c : ResearchRun) → Keeps a b → Keeps b c → Keeps a c
Keeps-trans a b c h g =
    (g.0 ∙ h.0, g.1 ∙ h.1, g.2 ∙ h.2, g.3 ∙ h.3, (λ now. g.4 now ∙ h.4 now), g.5 ∙ h.5)

pub transition-Keeps :
    (run : ResearchRun) (target : ResearchState) (at : Datetime)
    → Ensures (Transits run target) (transition_run run target at)
unfolding transition_run
transition-Keeps run target at = elim (Bool-cases (target == run.state)) [
  | inl q ↦
      rw q (
        returned ((refl, refl, refl, refl, (λ now. refl), refl), sym ((state_eq.test_iff _ _).0 q)))
  | inr q ↦ rw q (allowed (contains (allowed_transitions run.state) target))
]
  where
    allowed :
        (b : Bool)
        → Ensures (Transits run target) (
            if b
            then ok (record run { state = target; updated_at = at })
            else err "invalid research transition")
    allowed true = returned ((refl, refl, refl, refl, (λ now. refl), refl), refl)
    allowed false = raised

-- the state after a step: drafting may begin exactly when nothing is outstanding
abbrev pub Moved : ResearchRun → ResearchRun → Type 0
Moved run run' =
    Keeps run run'
    × (non_empty (outstanding run.obligations) ≡ false → run'.state ≡ ResearchState.ready_for_draft)
    × (non_empty (outstanding run.obligations) ≡ true
        → (run'.state ≡ run.state) ⊎ (run'.state ≡ ResearchState.verifying))

next_state-Moved :
    (run : ResearchRun) (item : ResearchObligation) (codes : List String) (at : Datetime)
    → Ensures (Moved run) (next_state run item codes at)
unfolding next_state
next_state-Moved run item codes at = elim (Bool-cases (non_empty (outstanding run.obligations))) [
  | inl q ↦ rw q (stays q _)
  | inr q ↦ rw q (
      Ensures-bind (λ run. transition_run run ResearchState.ready_for_draft at)
        (transition-Keeps run ResearchState.verifying at)
        (λ run' h.
          Ensures-mono
            (λ run'' g. (Keeps-trans run run' run'' h.0 g.0, (λ e. g.1), (λ e. absurd (cc))))
            (transition-Keeps run' ResearchState.ready_for_draft at)))
]
  where
    stays :
        non_empty (outstanding run.obligations) ≡ true
        → (b : Bool)
        → Ensures (Moved run) (if b then transition_run run ResearchState.verifying at else ok run)
    stays q true =
        Ensures-mono (λ run' h. (h.0, (λ e. absurd (cc)), (λ e. inr h.1)))
          (transition-Keeps run ResearchState.verifying at)
    stays q false =
        returned
          ((refl, refl, refl, refl, (λ now. refl), refl), (λ e. absurd (cc)), (λ e. inl refl))

-- What is derived from the coverage leaves the state, too.
abbrev KeepsAll : ResearchRun → ResearchRun → Type 0
KeepsAll run run' = Keeps run run' × (run'.state ≡ run.state)

refresh-Keeps : (run : ResearchRun) → Ensures (KeepsAll run) (refresh_sufficiency run)
unfolding refresh_sufficiency assess
refresh-Keeps run = by_change _ (validate_coverage_receipt (derived_coverage run))
  where
    by_change :
        (b : Bool) (m : Result CoverageState)
        → Ensures (KeepsAll run) (
            if b
            then m >>= (λ coverage. ok (assess (record run { coverage = coverage })))
            else ok (assess run))
    by_change true (ok coverage) = returned ((refl, refl, refl, refl, (λ now. refl), refl), refl)
    by_change true (err message) = raised
    by_change false m = returned ((refl, refl, refl, refl, (λ now. refl), refl), refl)

restore-Keeps :
    (run : ResearchRun) (item : ResearchObligation) (codes : List String)
    → KeepsAll run (restore_recall run item codes)
unfolding restore_recall
restore-Keeps run item codes = by_test _ _
  where
    by_test :
        (b : Bool) (mode : DataMode)
        → KeepsAll run (
            if b
            then record run { semantic_recall_degraded = false; effective_mode = mode }
            else run)
    by_test true mode = ((refl, refl, refl, refl, (λ now. refl), refl), refl)
    by_test false mode = ((refl, refl, refl, refl, (λ now. refl), refl), refl)

Moved-later : (a b c : ResearchRun) → Moved a b → KeepsAll b c → Moved a c
Moved-later a b c h g = (Keeps-trans a b c h.0 g.0, (λ e. g.1 ∙ h.1 e), (λ e. same (h.2 e)))
  where
    same :
        (b.state ≡ a.state) ⊎ (b.state ≡ ResearchState.verifying)
        → (c.state ≡ a.state) ⊎ (c.state ≡ ResearchState.verifying)
    same (inl q) = inl (g.1 ∙ q)
    same (inr q) = inr (g.1 ∙ q)

KeepsAll-trans : (a b c : ResearchRun) → KeepsAll a b → KeepsAll b c → KeepsAll a c
KeepsAll-trans a b c h g = (Keeps-trans a b c h.0 g.0, g.1 ∙ h.1)

apply-Keeps :
    (run : ResearchRun) (outcome : Outcome) (clear demote : List String)
    → KeepsAll run (apply_outcome_coverage run outcome clear demote)
unfolding apply_outcome_coverage
apply-Keeps run outcome clear demote = ((refl, refl, refl, refl, (λ now. refl), refl), refl)

-- The run that a step saves has the obligations and the references that were written, and the
-- state to which they lead.
pub advance-Moved :
    (before run : ResearchRun) (item : ResearchObligation) (outcome : Outcome)
    (source_ids evidence_ids : List String) (at : Datetime)
    → Ensures
        (Moved (
          with_outcome run item
            (retry_codes before run item outcome)
            outcome
            source_ids
            evidence_ids
            at))
        (advance before run item outcome source_ids evidence_ids at)
unfolding advance
advance-Moved before run item outcome source_ids evidence_ids at =
    let codes = retry_codes before run item outcome in
    let written = with_outcome run item codes outcome source_ids evidence_ids at in
    Ensures-bind _ (next_state-Moved written item codes at) (λ moved h.
      let applied =
        apply_outcome_coverage moved outcome (cleared_codes item)
          (nonblocking_recall_codes outcome (is_recall_complete run item)) in
      let restored = restore_recall applied item codes in
      Ensures-mono
        (λ run' g. Moved-later written moved run' h (
          KeepsAll-trans moved restored run'
            (KeepsAll-trans moved applied restored
              (apply-Keeps moved outcome (cleared_codes item)
                (nonblocking_recall_codes outcome (is_recall_complete run item)))
              (restore-Keeps applied item codes))
            g))
        (refresh-Keeps restored))
