-- ===== src/Research/Obligations.antt =====
-- What the tests of `evaluate_research_sufficiency` on obligations and coverage mean.
use alr_tw.Prelude.{
  true, false, ◌≡◌, ◌≢◌, ◌↔◌, sym, ◌∙◌, Memᴰ, arith, non_empty, any, non_empty-filter, any-false,
  any-of_none, any-true, any-of_some, in-filter, filter-in, Bool-cases, inl, inr, subst,
}
use alr_tw.Research.Kinds.{ObligationKind, ObligationStatus, kind_eq, kind_beq_iff}
use alr_tw.Research.Run.{ResearchObligation, ResearchRun}
use alr_tw.Research.Sufficiency.{
  is_final_validation, non_final, is_pending, pending, is_required_kind, required_coverage,
  is_missing, soft_missing_coverage, hard_missing_coverage, history_unsupported,
  hard_incomplete_reasons,
}

-- An obligation of the run that must be done before the answer is validated.
pub record IsDue (run : ResearchRun) (item : ResearchObligation) : Type 0 where
  pub listed : Memᴰ item run.obligations
  pub required : item.required ≡ true
  pub before_answer : item.kind ≢ ObligationKind.final_answer_validation

abbrev pub IsSettled : ResearchRun → Type 0
IsSettled run =
    (item : ResearchObligation) → IsDue run item → item.status ≡ ObligationStatus.completed

is_final_iff :
    (k : ObligationKind)
    → (is_final_validation k ≡ false) ↔ (k ≢ ObligationKind.final_answer_validation)
is_final_iff k = ground arith

due-in_non_final :
    (run : ResearchRun) (item : ResearchObligation) → IsDue run item → Memᴰ item (non_final run)
unfolding non_final
due-in_non_final run item d =
    filter-in _ run.obligations item d.listed
      (ground (arith, (is_final_iff item.kind).1 d.before_answer))

non_final-IsDue :
    (run : ResearchRun) (item : ResearchObligation)
    → Memᴰ item (non_final run)
    → item.required ≡ true
    → IsDue run item
unfolding non_final
non_final-IsDue run item i r =
    let (j, q) = in-filter _ run.obligations item i in
    record { listed = j; required = r; before_answer = (is_final_iff item.kind).0 (ground arith) }

pending_test :
    (item : ResearchObligation)
    → item.required ≡ true
    → is_pending item ≡ false
    → item.status ≡ ObligationStatus.completed
unfolding is_pending
pending_test item r h = ground arith

not_pending :
    (item : ResearchObligation)
    → (item.required ≡ true → item.status ≡ ObligationStatus.completed)
    → is_pending item ≡ false
unfolding is_pending
not_pending item h = ground arith

any-pending : (run : ResearchRun) → non_empty (pending run) ≡ any is_pending (non_final run)
unfolding pending
any-pending run = non_empty-filter is_pending (non_final run)

-- Nothing is pending exactly when every due obligation is completed.
pub pending_iff : (run : ResearchRun) → (non_empty (pending run) ≡ false) ↔ IsSettled run
pending_iff run = (to, from)
  where
    to : non_empty (pending run) ≡ false → IsSettled run
    to h item d = pending_test item d.required (
        any-false is_pending (non_final run) (sym (any-pending run) ∙ h) item
          (due-in_non_final run item d))

    from : IsSettled run → non_empty (pending run) ≡ false
    from s =
        any-pending run
        ∙ any-of_none is_pending (non_final run)
            (λ item i. not_pending item (λ r. s item (non_final-IsDue run item i r)))

-- A kind is required exactly when a due obligation has it.
pub is_required_kind→due :
    (run : ResearchRun) (k : ObligationKind)
    → is_required_kind run k ≡ true
    → (item : ResearchObligation) × IsDue run item × (item.kind ≡ k)
unfolding is_required_kind
is_required_kind→due run k h =
    let (item, i, q) = any-true _ (non_final run) h in
    (item, non_final-IsDue run item i (ground arith), ground (arith, kind_beq_iff item.kind k))

due→is_required_kind :
    (run : ResearchRun) (item : ResearchObligation)
    → IsDue run item
    → is_required_kind run item.kind ≡ true
unfolding is_required_kind
due→is_required_kind run item d =
    any-of_some _ (non_final run) item (due-in_non_final run item d)
      (ground (arith, d.required, kind_beq_iff item.kind item.kind))

abbrev pub IsCovered : ResearchRun → Type 0
IsCovered run =
    (item : ResearchObligation)
    → IsDue run item
    → item.kind ≢ ObligationKind.counter_authority
    → required_coverage run.coverage item.kind ≡ true

-- The counter-authority search may be missing: that is a gap, and no refusal.
abbrev pub IsCounterCovered : ResearchRun → Type 0
IsCounterCovered run =
    (item : ResearchObligation)
    → IsDue run item
    → item.kind ≡ ObligationKind.counter_authority
    → run.coverage.counter_authority_checked ≡ true

not_missing :
    (run : ResearchRun) (k : ObligationKind)
    → non_empty (hard_missing_coverage run) ≡ false
    → k ≢ ObligationKind.counter_authority
    → is_required_kind run k ≡ true
    → required_coverage run.coverage k ≡ true
unfolding hard_missing_coverage required_coverage is_missing
not_missing run k h n r = ground arith

covered_kind :
    (run : ResearchRun) (k : ObligationKind)
    → IsCovered run
    → k ≢ ObligationKind.counter_authority
    → is_missing run k ≡ false
unfolding is_missing
covered_kind run k c n = elim (Bool-cases (is_required_kind run k)) [
  | inl r ↦
      (let (item, d, e) = is_required_kind→due run k r in
        let covered : required_coverage run.coverage item.kind ≡ true =
          c item d (λ q. n (sym e ∙ q)) in
        ground (arith, e, covered))
  | inr r ↦ ground arith
]

none_missing :
    (run : ResearchRun)
    → ((k : ObligationKind) → k ≢ ObligationKind.counter_authority → is_missing run k ≡ false)
    → non_empty (hard_missing_coverage run) ≡ false
unfolding hard_missing_coverage
none_missing run h = ground (
  arith,
  h ObligationKind.law_research,
  h ObligationKind.judgment_recall,
  h ObligationKind.judgment_official_verification,
  h ObligationKind.constitutional_research,
  h ObligationKind.legal_time_context,
)

pub hard_missing_iff :
    (run : ResearchRun) → (non_empty (hard_missing_coverage run) ≡ false) ↔ IsCovered run
hard_missing_iff run = (
  (λ h item d n. not_missing run item.kind h n (due→is_required_kind run item d)),
  (λ c. none_missing run (λ k n. covered_kind run k c n)),
)

counter_covered :
    (run : ResearchRun)
    → non_empty (soft_missing_coverage run) ≡ false
    → is_required_kind run ObligationKind.counter_authority ≡ true
    → run.coverage.counter_authority_checked ≡ true
unfolding soft_missing_coverage required_coverage is_missing
counter_covered run h r = ground arith

counter_not_missing :
    (run : ResearchRun)
    → (is_required_kind run ObligationKind.counter_authority ≡ true
        → run.coverage.counter_authority_checked ≡ true)
    → non_empty (soft_missing_coverage run) ≡ false
unfolding soft_missing_coverage required_coverage is_missing
counter_not_missing run h = ground arith

pub soft_missing_iff :
    (run : ResearchRun) → (non_empty (soft_missing_coverage run) ≡ false) ↔ IsCounterCovered run
soft_missing_iff run = (to, from)
  where
    to : non_empty (soft_missing_coverage run) ≡ false → IsCounterCovered run
    to h item d e =
        counter_covered run h
          (subst (λ k. is_required_kind run k ≡ true) e (due→is_required_kind run item d))

    from : IsCounterCovered run → non_empty (soft_missing_coverage run) ≡ false
    from c = counter_not_missing run (λ r.
        let (item, d, e) = is_required_kind→due run ObligationKind.counter_authority r in
        c item d e)

-- A required judgment check does not rest on an incomplete recall, nor a required time context on
-- an unsupported version of the law.
pub record IsComplete (run : ResearchRun) : Type 0 where
  pub recall :
      (item : ResearchObligation)
      → IsDue run item
      → item.kind ≡ ObligationKind.judgment_official_verification
      → run.judgment_recall_incomplete ≡ false
  pub history :
      (item : ResearchObligation)
      → IsDue run item
      → item.kind ≡ ObligationKind.legal_time_context
      → history_unsupported run.coverage ≡ false

incomplete_parts :
    (run : ResearchRun)
    → (non_empty (hard_incomplete_reasons run) ≡ false) ↔ (
        (is_required_kind run ObligationKind.judgment_official_verification ≡ true
          → run.judgment_recall_incomplete ≡ false)
        × (is_required_kind run ObligationKind.legal_time_context ≡ true
            → history_unsupported run.coverage ≡ false))
unfolding hard_incomplete_reasons
incomplete_parts run = ground arith

pub hard_incomplete_iff :
    (run : ResearchRun) → (non_empty (hard_incomplete_reasons run) ≡ false) ↔ IsComplete run
hard_incomplete_iff run = (to, from)
  where
    recall_needs : ObligationKind → Type 0
    recall_needs k = is_required_kind run k ≡ true

    to : non_empty (hard_incomplete_reasons run) ≡ false → IsComplete run
    to h =
        let (a, b) = (incomplete_parts run).0 h in
        record {
          recall = λ item d e. a (subst recall_needs e (due→is_required_kind run item d));
          history = λ item d e. b (subst recall_needs e (due→is_required_kind run item d));
        }

    from : IsComplete run → non_empty (hard_incomplete_reasons run) ≡ false
    from c = (incomplete_parts run).1 (
      (λ r. let (item, d, e) = is_required_kind→due run _ r in c.recall item d e),
      (λ r. let (item, d, e) = is_required_kind→due run _ r in c.history item d e),
    )
