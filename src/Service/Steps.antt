-- ===== src/Service/Steps.antt =====
-- A step of the research on a run that is under way: what `continue_run` of
-- src/alr_tw/research/service.py saves once the executor has answered.
use alr_tw.Prelude.{
  ◌<◌, String, true, false, ◌≡◌, ◌≢◌, ◌↔◌, ◌⊎◌, refl, sym, ◌∙◌, ap, subst, some, List, [], ◌∷◌, ok,
  ensured, ◌==◌, length, Memᴰ, non_empty, non_empty-false, string_eq, Bool-cases, inl, inr, arith,
}
use alr_tw.Research.Kinds.{ResearchState, kind_eq}
use alr_tw.Research.Run.{ResearchObligation, ResearchRun, Datetime}
use alr_tw.Service.Outcomes.{Outcome}
use alr_tw.Service.Advance.{
  is_outstanding, outstanding, updated_obligation, with_outcome, diagnostic_codes, retry_codes,
  advance,
}
use alr_tw.Service.Progress.{Moved, advance-Moved}
use alr_tw.Service.Remaining.{outstanding-replace-lt, mem-replace_obligation}
use alr_tw.Service.Totality.{IsUnderway, IsReceipt, are_calls_valid, advance-total}

module _ (item : ResearchObligation) (diagnostics : List String) where
  updated-kind :
      (codes : List String) → (item.kind == (updated_obligation item codes diagnostics).kind) ≡ true
  unfolding updated_obligation
  updated-kind [] = (kind_eq.test_iff _ _).1 refl
  updated-kind (code ∷ codes) = (kind_eq.test_iff _ _).1 refl

  completed : is_outstanding (updated_obligation item [] diagnostics) ≡ false
  unfolding updated_obligation is_outstanding
  completed = refl

  unfinished :
      (code : String) (codes : List String)
      → is_outstanding item ≡ true
      → is_outstanding (updated_obligation item (code ∷ codes) diagnostics) ≡ true
  unfolding updated_obligation is_outstanding
  unfinished code codes h = ground arith

-- the obligation waits for another try, and says why
abbrev pub Waits : ResearchObligation → List ResearchObligation → String → List String → Type 0
Waits item items code codes =
    (waiting : ResearchObligation) × Memᴰ waiting items
    × (is_outstanding waiting ≡ true)
    × (waiting.kind ≡ item.kind)
    × (waiting.blocker_code ≡ some code)
    × (waiting.retryable_reason_codes ≡ code ∷ codes)

IsUnderway-not_ready :
    (state : ResearchState) → IsUnderway state → state ≢ ResearchState.ready_for_draft
IsUnderway-not_ready state (inl e) q = absurd (cc)
IsUnderway-not_ready state (inr e) q = absurd (cc)

ready :
    (written run' : ResearchRun)
    → Moved written run'
    → IsUnderway written.state
    → (outstanding run'.obligations ≡ []) ↔ (run'.state ≡ ResearchState.ready_for_draft)
ready written run' moved underway = (
  (λ e. moved.1 (ap non_empty (sym (ap outstanding moved.0.0) ∙ e))),
  (λ e. elim (Bool-cases (non_empty (outstanding written.obligations))) [
    | inl q ↦ absurd (not_ready (moved.2 q) e)
    | inr q ↦ ap outstanding moved.0.0 ∙ non_empty-false _ q
  ]),
)
  where
    not_ready :
        (run'.state ≡ written.state) ⊎ (run'.state ≡ ResearchState.verifying)
        → run'.state ≡ ResearchState.ready_for_draft
        → ⊥
    not_ready (inl q) e = IsUnderway-not_ready written.state underway (sym q ∙ e)
    not_ready (inr q) e = absurd (cc)

module _ (before run : ResearchRun) (item : ResearchObligation) (outcome : Outcome)
    (source_ids evidence_ids : List String) (at : Datetime) (i : Memᴰ item run.obligations)
    (h : is_outstanding item ≡ true) where
  fewer :
      length (outstanding (with_outcome run item [] outcome source_ids evidence_ids at).obligations)
      < length (outstanding run.obligations)
  unfolding with_outcome
  fewer =
      let diagnostics = diagnostic_codes item outcome.metadata in
      outstanding-replace-lt (updated_obligation item [] diagnostics) item run.obligations
        (updated-kind item diagnostics []) i (completed item diagnostics) h

  waits :
      (code : String) (codes : List String)
      → Waits item
          (with_outcome run item (code ∷ codes) outcome source_ids evidence_ids at).obligations
          code
          codes
  unfolding with_outcome updated_obligation is_outstanding
  waits code codes =
      let diagnostics = diagnostic_codes item outcome.metadata in
      let updated = updated_obligation item (code ∷ codes) diagnostics in
      (
        updated,
        mem-replace_obligation updated item run.obligations
            (updated-kind item diagnostics (code ∷ codes)) i,
        unfinished item diagnostics code codes h,
        refl,
        refl,
        refl,
      )

  pub step_progresses :
      IsUnderway run.state
      → IsReceipt run.coverage
      → are_calls_valid outcome ≡ true
      → (run' : ResearchRun) × (advance before run item outcome source_ids evidence_ids at
          ≡ ok run')
        × IsReceipt run'.coverage
        × (retry_codes before run item outcome ≡ []
            → length (outstanding run'.obligations) < length (outstanding run.obligations))
        × ((code : String) (codes : List String)
            → retry_codes before run item outcome ≡ code ∷ codes
            → Waits item run'.obligations code codes)
        × ((outstanding run'.obligations ≡ []) ↔ (run'.state ≡ ResearchState.ready_for_draft))
  unfolding with_outcome
  step_progresses underway receipt valid =
      let codes = retry_codes before run item outcome in
      let (run', e, receipt') =
        advance-total before run item outcome source_ids evidence_ids at underway receipt valid in
      let moved = ensured (advance-Moved before run item outcome source_ids evidence_ids at) e in
      let written = moved.0.0 in
      (
        run',
        e,
        receipt',
        (λ none_left.
            subst (λ items. length (outstanding items) < length (outstanding run.obligations))
              (sym written)
              (subst
                (λ cs.
                  length (
                    outstanding
                      (with_outcome run item cs outcome source_ids evidence_ids at).obligations)
                  < length (outstanding run.obligations))
                (sym none_left) fewer)),
        (λ code rest some_left.
            subst (λ items. Waits item items code rest) (sym written)
              (subst
                (λ cs.
                  Waits item
                    (with_outcome run item cs outcome source_ids evidence_ids at).obligations code
                    rest)
                (sym some_left) (waits code rest))),
        ready (with_outcome run item codes outcome source_ids evidence_ids at) run' moved underway,
      )
