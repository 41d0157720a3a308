-- ===== src/Service/Totality.antt =====
-- Whether a step of the research raises: the transitions and the receipt of the coverage, of
-- src/alr_tw/research/service.py.
use alr_tw.Prelude.{
  String, Bool, true, false, not, ◌&&◌, ◌||◌, ◌≡◌, ◌⊎◌, refl, sym, ◌∙◌, ap, subst, List, ◌++◌,
  arith, Result, err, sorted_set, ensured, any, all-append, string_eq, ok, ◌>>=◌, ◌==◌, all, unique,
  unique-sorted_set, all-sorted_set, inl, inr, non_empty, if◌then◌else◌, contains,
}
use alr_tw.Research.Kinds.{ResearchState, DataMode, state_eq}
use alr_tw.Research.Coverage.{
  CoverageState, validated, is_provider_scope_id, is_without_repeats, are_scopes_valid, is_bounded,
  is_without_gaps,
}
use alr_tw.Research.Run.{ResearchObligation, ResearchRun, Datetime}
use alr_tw.Research.Transitions.{transition_run, allowed_transitions}
use alr_tw.Service.Progress.{transition-Keeps}
use alr_tw.Service.Outcomes.{
  Outcome, apply_outcome_coverage, nonblocking_recall_codes, selected_of, successful_of,
}
use alr_tw.Service.Advance.{
  outstanding, next_state, restore_recall, refresh_sufficiency, derived_coverage,
  is_absence_allowed, assess, is_coverage_complete, advance, with_outcome, retry_codes,
  cleared_codes, is_recall_complete,
}

-- a step is made from here; `continue_run` leaves the planning state before
abbrev pub IsUnderway : ResearchState → Type 0
IsUnderway state = (state ≡ ResearchState.researching) ⊎ (state ≡ ResearchState.verifying)

-- the transition is accepted, and the coverage is left alone
abbrev pub Accepted : ResearchRun → Result ResearchRun → Type 0
Accepted run m = (run' : ResearchRun) × (m ≡ ok run') × (run'.coverage ≡ run.coverage)

abbrev pub is_allowed : ResearchState → ResearchState → Bool
is_allowed state target = (target == state) || contains (allowed_transitions state) target

pub transition-Accepted :
    (run : ResearchRun) (target : ResearchState) (at : Datetime)
    → is_allowed run.state target ≡ true
    → Accepted run (transition_run run target at)
unfolding transition_run
transition-Accepted run target at h =
    by_tests (target == run.state) (contains (allowed_transitions run.state) target) h
  where
    by_tests :
        (same allowed : Bool)
        → (same || allowed) ≡ true
        → Accepted run (
            if same
            then ok (record run { updated_at = at })
            else if allowed
            then ok (record run { state = target; updated_at = at })
            else err "invalid research transition")
    by_tests true allowed h = (record run { updated_at = at }, refl, refl)
    by_tests false true h = (record run { state = target; updated_at = at }, refl, refl)
    by_tests false false h = absurd (cc)

to_verifying :
    (state : ResearchState) → IsUnderway state → is_allowed state ResearchState.verifying ≡ true
unfolding allowed_transitions contains any
to_verifying state (inl h) = rw h refl
to_verifying state (inr h) = rw h refl

from_verifying : is_allowed ResearchState.verifying ResearchState.ready_for_draft ≡ true
unfolding allowed_transitions contains any
from_verifying = refl

next_state-Accepted :
    (run : ResearchRun) (item : ResearchObligation) (codes : List String) (at : Datetime)
    → IsUnderway run.state
    → Accepted run (next_state run item codes at)
unfolding next_state
next_state-Accepted run item codes at h = by_tests (not (non_empty (outstanding run.obligations))) _
  where
    verified : Accepted run (transition_run run ResearchState.verifying at)
    verified = transition-Accepted run ResearchState.verifying at (to_verifying run.state h)

    drafting :
        (m : Result ResearchRun)
        → m ≡ transition_run run ResearchState.verifying at
        → Accepted run m
        → Accepted run (m >>= (λ run. transition_run run ResearchState.ready_for_draft at))
    drafting m q (run', e, c) =
        let r = ensured (transition-Keeps run ResearchState.verifying at) (sym q ∙ e) in
        let (run'', e', c') = transition-Accepted run' ResearchState.ready_for_draft at (
          subst (λ s. is_allowed s ResearchState.ready_for_draft ≡ true) (sym r.1)
            from_verifying) in
        (
          run'',
          ap (λ m. m >>= (λ run. transition_run run ResearchState.ready_for_draft at)) e ∙ e',
          c' ∙ c,
        )

    by_tests :
        (b b' : Bool)
        → Accepted run (
            if b
            then transition_run run ResearchState.verifying at
              >>= (λ run. transition_run run ResearchState.ready_for_draft at)
            else if b'
            then transition_run run ResearchState.verifying at
            else ok run)
    by_tests true b' = drafting _ refl verified
    by_tests false true = verified
    by_tests false false = (run, refl, refl)

-- What is derived is a receipt again.
derived_bounded :
    (c : CoverageState)
    → is_absence_allowed c ≡ true
    → (c.coverage_complete && is_without_gaps c && is_bounded c) ≡ true
unfolding is_absence_allowed
derived_bounded c h = ground arith

-- the receipt of the coverage is well formed
abbrev pub IsReceipt : CoverageState → Type 0
IsReceipt c = (unique c.counter_authority_relation_receipt_ids ≡ true) × (are_scopes_valid c ≡ true)

refreshed :
    (run : ResearchRun)
    → is_without_repeats run.coverage ≡ true
    → IsReceipt run.coverage
    → (run' : ResearchRun) × (refresh_sufficiency run ≡ ok run') × IsReceipt run'.coverage
unfolding refresh_sufficiency derived_coverage assess
refreshed run repeats receipt = by_change _ (
    validated (derived_coverage run) repeats receipt.1
      (derived_bounded (record run.coverage { coverage_complete = is_coverage_complete run })))
  where
    by_change :
        (b : Bool) {m : Result CoverageState}
        → m ≡ ok (derived_coverage run)
        → (run' : ResearchRun) × ((if b
              then m >>= (λ coverage. ok (assess (record run { coverage = coverage })))
              else ok (assess run))
            ≡ ok run')
          × IsReceipt run'.coverage
    by_change true q = (
      _,
      ap (λ m. m >>= (λ coverage. ok (assess (record run { coverage = coverage })))) q,
      receipt,
    )
    by_change false q = (_, refl, receipt)

-- The provider identifiers of the calls are well formed.
abbrev pub are_calls_valid : Outcome → Bool
are_calls_valid outcome =
    all is_provider_scope_id (selected_of outcome.provider_calls)
    && all is_provider_scope_id (successful_of outcome.provider_calls)

all_unique :
    (us vs xs ys zs : List String) (last : Bool)
    → last ≡ true
    → (unique (sorted_set us)
        && unique (sorted_set vs)
        && unique (sorted_set xs)
        && unique (sorted_set ys)
        && unique (sorted_set zs)
        && last)
      ≡ true
all_unique us vs xs ys zs last h = rw (unique-sorted_set us) (
    rw (unique-sorted_set vs)
      (rw (unique-sorted_set xs) (rw (unique-sorted_set ys) (rw (unique-sorted_set zs) h))))

both_valid :
    (p : String → Bool) (us vs xs ys : List String)
    → (all p us && all p vs && all p xs && all p ys) ≡ true
    → (all p (sorted_set (us ++ xs)) && all p (sorted_set (vs ++ ys))) ≡ true
both_valid p us vs xs ys h =
    let first : all p (sorted_set (us ++ xs)) ≡ (all p us && all p xs) =
      all-sorted_set p (us ++ xs) ∙ all-append p us xs in
    let second : all p (sorted_set (vs ++ ys)) ≡ (all p vs && all p ys) =
      all-sorted_set p (vs ++ ys) ∙ all-append p vs ys in
    ground arith

module _ (run : ResearchRun) (outcome : Outcome) (clear demote : List String) where
  applied_unique :
      unique run.coverage.counter_authority_relation_receipt_ids ≡ true
      → is_without_repeats (apply_outcome_coverage run outcome clear demote).coverage ≡ true
  unfolding apply_outcome_coverage
  applied_unique h = search all_unique

  applied_valid :
      are_scopes_valid run.coverage ≡ true
      → are_calls_valid outcome ≡ true
      → are_scopes_valid (apply_outcome_coverage run outcome clear demote).coverage ≡ true
  unfolding apply_outcome_coverage
  applied_valid h g =
      both_valid is_provider_scope_id run.coverage.selected_provider_scope
        run.coverage.successful_provider_scope (selected_of outcome.provider_calls)
        (successful_of outcome.provider_calls) (ground arith)

restored-coverage :
    (run : ResearchRun) (item : ResearchObligation) (codes : List String)
    → (restore_recall run item codes).coverage ≡ run.coverage
unfolding restore_recall
restored-coverage run item codes = by_test _ _
  where
    by_test :
        (b : Bool) (mode : DataMode)
        → (if b
            then record run { semantic_recall_degraded = false; effective_mode = mode }
            else run).coverage
          ≡ run.coverage
    by_test true mode = refl
    by_test false mode = refl

pub advance-total :
    (before run : ResearchRun) (item : ResearchObligation) (outcome : Outcome)
    (source_ids evidence_ids : List String) (at : Datetime)
    → IsUnderway run.state
    → IsReceipt run.coverage
    → are_calls_valid outcome ≡ true
    → (run' : ResearchRun) × (advance before run item outcome source_ids evidence_ids at ≡ ok run')
      × IsReceipt run'.coverage
unfolding advance with_outcome apply_outcome_coverage
advance-total before run item outcome source_ids evidence_ids at underway receipt valid =
    let codes = retry_codes before run item outcome in
    let written = with_outcome run item codes outcome source_ids evidence_ids at in
    let (moved, e, c) = next_state-Accepted written item codes at underway in
    let demote = nonblocking_recall_codes outcome (is_recall_complete run item) in
    let applied = apply_outcome_coverage moved outcome (cleared_codes item) demote in
    let same : (restore_recall applied item codes).coverage ≡ applied.coverage =
      restored-coverage applied item codes in
    let kept : IsReceipt moved.coverage = rw c receipt in
    let (run', e', receipt') =
      refreshed (restore_recall applied item codes)
        (rw same (applied_unique moved outcome (cleared_codes item) demote kept.0))
        (rw same (kept.0, applied_valid moved outcome (cleared_codes item) demote kept.1 valid)) in
    (run', rw e e', receipt')
