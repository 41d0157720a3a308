-- ===== src/Finalization/Totality.antt =====
-- The contract that `build_finalization_contract` describes passes the contract's own validator.
use alr_tw.Prelude.{
  ◌<◌, String, Bool, true, false, not, ◌&&◌, ◌||◌, ◌≡◌, inl, inr, refl, sym, ap, ◌∙◌, none, List,
  [], ◌∷◌, ◌++◌, arith, ok, nat_eq, string_eq, bool_eq, length, take, min, contains, unique,
  non_empty, sorted, Bool-cases, if◌then◌else◌, length-take, distinct-take, distinct-append,
  unique-eq-distinct, unique-sorted, length-sorted,
}
use alr_tw.Research.Kinds.{AnswerMode, is_ordinary, is_conditional, is_refusal_only}
use alr_tw.Research.Coverage.{is_provider_scope_id}
use alr_tw.Finalization.Gates.{
  evidence_preview, evidence_summary, check_summary, summarize_evidence_authorization,
  max_finalization_evidence_preview,
}
use alr_tw.Finalization.Contract.{
  lengths_fit, ids_unique, preview_agrees, is_given, check_ordinary, validate_ids_and_posture,
  construct_contract,
}
use alr_tw.Finalization.Build.{
  Facts, add_qualification, qualify_if, build_qualification, all_ordinary_gates, build_mode,
  final_qualification, final_actions, contract_of, build_finalization_contract,
}

unique-add_qualification :
    (message : String) (q : List String)
    → unique q ≡ true
    → unique (add_qualification message q) ≡ true
unfolding add_qualification
unique-add_qualification message q u = elim (Bool-cases (contains q message)) [
  | inl e ↦ rw e u
  | inr e ↦ rw e (
      unique-eq-distinct (q ++ message ∷ [])
      ∙ distinct-append q message e (sym (unique-eq-distinct q) ∙ u))
]

unique-qualify_if :
    (b : Bool) (message : String) (q : List String)
    → unique q ≡ true
    → unique (qualify_if b message q) ≡ true
unfolding qualify_if
unique-qualify_if true message q u = unique-add_qualification message q u
unique-qualify_if false message q u = u

unique-build_qualification :
    (f : Facts) → unique f.required_qualification ≡ true → unique (build_qualification f) ≡ true
unfolding build_qualification
unique-build_qualification f u = unique-qualify_if _ _ _ (
    unique-qualify_if _ _ _ (
      unique-qualify_if _ _ _ (
        unique-qualify_if _ _ _
          (unique-qualify_if _ _ _ (unique-qualify_if _ _ _ (unique-qualify_if _ _ _ u))))))

unique_one : (message : String) → unique (message ∷ []) ≡ true
unique_one message = unfold unique in refl

unique-final_qualification :
    (mode : AnswerMode) (q : List String)
    → unique q ≡ true
    → unique (final_qualification mode q) ≡ true
unfolding final_qualification unique
unique-final_qualification AnswerMode.ordinary q u = refl
unique-final_qualification AnswerMode.refusal_only q u = u
unique-final_qualification AnswerMode.conditional [] u = refl
unique-final_qualification AnswerMode.conditional (x ∷ q) u = u

unique-final_actions :
    (mode : AnswerMode) (actions : List String)
    → unique actions ≡ true
    → unique (final_actions mode actions) ≡ true
unfolding final_actions unique
unique-final_actions AnswerMode.ordinary actions u = u
unique-final_actions AnswerMode.refusal_only [] u = refl
unique-final_actions AnswerMode.refusal_only (x ∷ actions) u = u
unique-final_actions AnswerMode.conditional [] u = refl
unique-final_actions AnswerMode.conditional (x ∷ actions) u = u

non_empty-final_qualification :
    (q : List String) → non_empty (final_qualification AnswerMode.conditional q) ≡ true
unfolding final_qualification
non_empty-final_qualification [] = refl
non_empty-final_qualification (x ∷ q) = refl

unique-evidence_preview :
    (ids : List String) → unique ids ≡ true → unique (evidence_preview ids) ≡ true
unfolding evidence_preview
unique-evidence_preview ids u =
    unique-eq-distinct (take max_finalization_evidence_preview (sorted ids))
    ∙ distinct-take max_finalization_evidence_preview (sorted ids)
        (sym (unique-eq-distinct (sorted ids)) ∙ unique-sorted ids ∙ u)

length-evidence_preview :
    (ids : List String)
    → length (evidence_preview ids) ≡ min max_finalization_evidence_preview (length ids)
unfolding evidence_preview
length-evidence_preview ids =
    length-take max_finalization_evidence_preview (sorted ids)
    ∙ ap (min max_finalization_evidence_preview) (length-sorted ids)

non_empty-evidence_preview :
    (ids : List String) → non_empty ids ≡ true → non_empty (evidence_preview ids) ≡ true
non_empty-evidence_preview ids h =
    by_length (evidence_preview ids) (omega (arith, length-evidence_preview ids, some_length ids h))
  where
    by_length : (xs : List String) → 0 < length xs → non_empty xs ≡ true
    by_length [] p = absurd (omega arith)
    by_length (x ∷ xs) p = refl

    some_length : (xs : List String) → non_empty xs ≡ true → 0 < length xs
    some_length [] p = cc
    some_length (x ∷ xs) p = omega arith

module _ (digest : List String → String) where
  summary_counts :
      (ids : List String)
      → (evidence_summary digest ids).preview_count ≡ length (evidence_preview ids)
  unfolding evidence_summary
  summary_counts ids = omega (arith, length-evidence_preview ids, length-sorted ids)

  summary_valid :
      (ids : List String)
      → check_summary (evidence_summary digest ids) ≡ ok (evidence_summary digest ids)
  unfolding check_summary evidence_summary
  summary_valid ids = ground (arith, length-sorted ids)

  summarize_ok :
      (ids : List String)
      → unique ids ≡ true
      → summarize_evidence_authorization digest ids ≡ ok (evidence_summary digest ids)
  unfolding summarize_evidence_authorization
  summarize_ok ids u = rw u (summary_valid ids)

  -- The arguments repeat no value and keep the sizes that the contract admits.
  pub record IsWellFormed (f : Facts) : Type 0 where
    pub run_id : is_provider_scope_id f.run_id ≡ true
    pub sources : unique f.allowed_source_ids ≡ true
    pub evidence : unique f.allowed_evidence_ids ≡ true
    pub qualification : unique f.required_qualification ≡ true
    pub support : unique f.pending_support ≡ true
    pub lookups : unique f.pending_lookups ≡ true
    pub actions : unique f.safe_next_actions ≡ true
    pub fits : lengths_fit (contract_of digest f) ≡ true

  contract_ids_unique : (f : Facts) → IsWellFormed f → ids_unique (contract_of digest f) ≡ true
  unfolding ids_unique contract_of
  contract_ids_unique f w = ground (
    arith,
    w.sources,
    unique-evidence_preview f.allowed_evidence_ids w.evidence,
    unique-final_qualification (build_mode f) (build_qualification f)
        (unique-build_qualification f w.qualification),
    w.support,
    w.lookups,
    unique-final_actions (build_mode f) f.safe_next_actions w.actions,
  )

  contract_preview_agrees : (f : Facts) → preview_agrees (contract_of digest f) ≡ true
  unfolding preview_agrees contract_of
  contract_preview_agrees f = ground (arith, summary_counts f.allowed_evidence_ids)

  contract_qualified :
      (f : Facts)
      → (is_conditional (build_mode f)
          && not (non_empty (final_qualification (build_mode f) (build_qualification f))))
        ≡ false
  contract_qualified f = by_mode (build_mode f)
    where
      by_mode :
          (mode : AnswerMode)
          → (is_conditional mode
              && not (non_empty (final_qualification mode (build_qualification f))))
            ≡ false
      by_mode AnswerMode.ordinary = refl
      by_mode AnswerMode.refusal_only = refl
      by_mode AnswerMode.conditional = rw (non_empty-final_qualification (build_qualification f))

  contract_ordinary :
      (f : Facts) → all_ordinary_gates f ≡ true → check_ordinary (contract_of digest f) ≡ ok tt
  unfolding check_ordinary contract_of all_ordinary_gates
  contract_ordinary f g = ground (arith, non_empty-evidence_preview f.allowed_evidence_ids)

  ordinary_gated : (f : Facts) → is_ordinary (build_mode f) ≡ true → all_ordinary_gates f ≡ true
  unfolding build_mode
  ordinary_gated f h = ground arith

  ordinary_checked :
      (f : Facts)
      → (if is_ordinary (build_mode f) then check_ordinary (contract_of digest f) else ok tt)
        ≡ ok tt
  ordinary_checked f = elim (Bool-cases (is_ordinary (build_mode f))) [
    | inl e ↦ rw e (contract_ordinary f (ordinary_gated f e))
    | inr e ↦ rw e
  ]

  contract_draft :
      (f : Facts)
      → ((is_refusal_only (contract_of digest f).answer_mode
            || non_empty (contract_of digest f).blockers)
          && is_given (contract_of digest f).answer_draft)
        ≡ false
  unfolding contract_of
  contract_draft f = ground arith

  contract_conditional :
      (f : Facts)
      → (is_conditional (contract_of digest f).answer_mode
          && not (non_empty (contract_of digest f).required_qualification))
        ≡ false
  unfolding contract_of
  contract_conditional f = contract_qualified f

  contract_checked :
      (f : Facts)
      → (if is_ordinary (contract_of digest f).answer_mode
          then check_ordinary (contract_of digest f)
          else ok tt)
        ≡ ok tt
  unfolding contract_of
  contract_checked f = ordinary_checked f

  contract_scope :
      (f : Facts) → IsWellFormed f → is_provider_scope_id (contract_of digest f).run_id ≡ true
  unfolding contract_of
  contract_scope f w = w.run_id

  without_draft :
      (f : Facts) → record (contract_of digest f) { answer_draft = none } ≡ contract_of digest f
  unfolding contract_of
  without_draft f = refl

  validated_contract :
      (f : Facts)
      → ids_unique (contract_of digest f) ≡ true
      → preview_agrees (contract_of digest f) ≡ true
      → validate_ids_and_posture (contract_of digest f) ≡ ok (contract_of digest f)
  unfolding validate_ids_and_posture
  validated_contract f u p = rw (u, p, contract_draft f, contract_conditional f, contract_checked f)

  constructed_contract :
      (f : Facts)
      → IsWellFormed f
      → construct_contract (contract_of digest f) ≡ ok (contract_of digest f)
  unfolding construct_contract
  constructed_contract f w =
      rw (contract_scope f w, w.fits)
        (ap validate_ids_and_posture (without_draft f)
          ∙ validated_contract f (contract_ids_unique f w) (contract_preview_agrees f))

  pub build_total :
      (f : Facts)
      → IsWellFormed f
      → build_finalization_contract digest f ≡ ok (contract_of digest f)
  unfolding build_finalization_contract
  build_total f w = rw (summarize_ok f.allowed_evidence_ids w.evidence) (constructed_contract f w)
