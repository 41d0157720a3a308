-- ===== src/Finalization/Refusal.antt =====
-- `StructuredRefusal` and `build_structured_refusal` of src/alr_tw/contracts/finalization.py.
use alr_tw.Prelude.{
  ◌≤◌, String, Bool, true, false, not, ◌&&◌, ◌≡◌, ◌≢◌, ◌↔◌, ◌⊎◌, inl, inr, refl, ◌∙◌, ap, List, [],
  ◌∷◌, map, Memᴰ, arith, subst, non_empty-of_ne, firsts, mem-firsts, distinct-firsts,
  unique-eq-distinct, Result, ok, ◌>>◌, raise_if, string_eq, unique, leb, length, non_empty,
}
use alr_tw.Research.Kinds.{AnswerMode, is_refusal_only}
use alr_tw.Research.Coverage.{is_provider_scope_id}
use alr_tw.Finalization.Gates.{FinalizationBlocker}
use alr_tw.Finalization.Contract.{FinalizationContract}
use alr_tw.Finalization.Validate.{FinalizationValidationResult}

pub record StructuredRefusal : Type 0 where
  pub run_id : String
  pub reason_codes : List String
  pub safe_next_actions : List String
  pub retryable : Bool

-- The two shapes that the refusal is built from.
pub data Refusable : Type 0 where
  of_contract : FinalizationContract → Refusable
  of_result : FinalizationValidationResult → Refusable

-- What the function reads of either.
pub record View : Type 0 where
  pub run_id : String
  pub blockers : List FinalizationBlocker
  pub actions : List String
  pub retryable : Bool
  pub mode : AnswerMode

unfoldable pub view : Refusable → View
view (Refusable.of_contract c) = record {
  run_id = c.run_id;
  blockers = c.blockers;
  actions = c.safe_next_actions;
  retryable = c.retryable;
  mode = c.answer_mode;
}
view (Refusable.of_result r) = record {
  run_id = r.run_id;
  blockers = r.blockers;
  actions = r.safe_next_actions;
  retryable = r.retryable;
  mode = r.answer_mode;
}

abbrev or_refusal : List String → List String
or_refusal [] = "FINALIZATION_REFUSAL" ∷ []
or_refusal codes = codes

abbrev or_complete : List String → List String
or_complete [] = "完成必要研究後重新驗證" ∷ []
or_complete actions = actions

unfoldable pub reason_codes_of : List FinalizationBlocker → List String
unfolding firsts
reason_codes_of blockers = or_refusal (firsts (map (λ item. item.code) blockers))

-- the constraints on the fields of `StructuredRefusal`
unfoldable check_refusal : StructuredRefusal → Result StructuredRefusal
unfolding is_provider_scope_id
check_refusal p = do
  raise_if (not (is_provider_scope_id p.run_id)) "run_id does not match its pattern"
  raise_if (not (non_empty p.reason_codes && leb (length p.reason_codes) 64))
      "reason_codes out of range"
  raise_if (not (leb (length p.safe_next_actions) 32)) "too many safe_next_actions"
  ok p

unfoldable pub build_structured_refusal : Refusable → Result StructuredRefusal
unfolding view reason_codes_of check_refusal
build_structured_refusal result = do
  raise_if (not (is_refusal_only (view result).mode) && not (non_empty (view result).blockers))
      "structured refusal requires refusal_only or blocked validation"
  check_refusal (record {
    run_id = (view result).run_id;
    reason_codes = reason_codes_of (view result).blockers;
    safe_next_actions = or_complete (view result).actions;
    retryable = (view result).retryable;
  })

or_refusal-unique : (codes : List String) → unique codes ≡ true → unique (or_refusal codes) ≡ true
unfolding unique
or_refusal-unique [] u = refl
or_refusal-unique (x ∷ codes) u = u

unique-reason_codes_of :
    (blockers : List FinalizationBlocker) → unique (reason_codes_of blockers) ≡ true
unfolding reason_codes_of
unique-reason_codes_of blockers =
    or_refusal-unique _ (unique-eq-distinct _ ∙ distinct-firsts (map (λ item. item.code) blockers))

-- The codes of the payload: those of the blockers, or the default where there is no blocker.
abbrev IsReasonOf : List FinalizationBlocker → String → Type 0
IsReasonOf blockers code =
    Memᴰ code (map (λ item. item.code) blockers)
    ⊎ ((blockers ≡ []) × (code ≡ "FINALIZATION_REFUSAL"))

reason_codes_of_iff :
    (blockers : List FinalizationBlocker) (code : String)
    → Memᴰ code (reason_codes_of blockers) ↔ IsReasonOf blockers code
unfolding reason_codes_of firsts
reason_codes_of_iff [] code = (to, from)
  where
    to : Memᴰ code (reason_codes_of []) → IsReasonOf [] code
    to (Memᴰ.head q) = inr (refl, q)
    to (Memᴰ.tail i) = elim i [ ]

    from : IsReasonOf [] code → Memᴰ code (reason_codes_of [])
    from (inl i) = elim i [ ]
    from (inr (_, q)) = Memᴰ.head q
reason_codes_of_iff (b ∷ blockers) code = (to, from)
  where
    to : Memᴰ code (reason_codes_of (b ∷ blockers)) → IsReasonOf (b ∷ blockers) code
    to i = inl ((mem-firsts (map (λ item. item.code) (b ∷ blockers)) code).0 i)

    from : IsReasonOf (b ∷ blockers) code → Memᴰ code (reason_codes_of (b ∷ blockers))
    from (inl i) = (mem-firsts (map (λ item. item.code) (b ∷ blockers)) code).1 i
    from (inr (e, _)) = cc

non_empty-reason_codes_of :
    (blockers : List FinalizationBlocker) → non_empty (reason_codes_of blockers) ≡ true
unfolding reason_codes_of firsts
non_empty-reason_codes_of [] = refl
non_empty-reason_codes_of (b ∷ blockers) = refl

-- What may be refused: a refusal, or anything that carries a blocker.
abbrev IsRefusable : View → Type 0
IsRefusable v = (v.mode ≡ AnswerMode.refusal_only) ⊎ (v.blockers ≢ [])

-- The payload of a refusal.
pub record IsPayloadOf (v : View) (p : StructuredRefusal) : Type 0 where
  pub run_id : p.run_id ≡ v.run_id
  pub distinct_codes : unique p.reason_codes ≡ true
  pub codes : (code : String) → Memᴰ code p.reason_codes ↔ IsReasonOf v.blockers code
  pub actions : non_empty p.safe_next_actions ≡ true
  pub retryable : p.retryable ≡ v.retryable

payload : View → StructuredRefusal
payload v = record {
  run_id = v.run_id;
  reason_codes = reason_codes_of v.blockers;
  safe_next_actions = or_complete v.actions;
  retryable = v.retryable;
}

payload-IsPayloadOf : (v : View) → IsPayloadOf v (payload v)
unfolding payload
payload-IsPayloadOf v = record {
  run_id = refl;
  distinct_codes = unique-reason_codes_of v.blockers;
  codes = reason_codes_of_iff v.blockers;
  actions = some_action v.actions;
  retryable = refl;
}
  where
    some_action : (actions : List String) → non_empty (or_complete actions) ≡ true
    some_action [] = refl
    some_action (a ∷ actions) = refl

IsRefusable-iff :
    (v : View)
    → ((not (is_refusal_only v.mode) && not (non_empty v.blockers)) ≡ false) ↔ IsRefusable v
IsRefusable-iff v = ((λ h. ground arith), (λ h. ground (arith, non_empty-of_ne v.blockers)))

codes_fit : View → Bool
codes_fit v = leb (length (reason_codes_of v.blockers)) 64

actions_fit : View → Bool
actions_fit v = leb (length (or_complete v.actions)) 32

built :
    (r : Refusable)
    → build_structured_refusal r ≡ (do
      raise_if
          (not (is_refusal_only (view r).mode) && not (non_empty (view r).blockers))
          "structured refusal requires refusal_only or blocked validation"
      raise_if (not (is_provider_scope_id (view r).run_id)) "run_id does not match its pattern"
      raise_if (not (codes_fit (view r))) "reason_codes out of range"
      raise_if (not (actions_fit (view r))) "too many safe_next_actions"
      ok (payload (view r)))
unfolding build_structured_refusal check_refusal payload codes_fit actions_fit
built r = rw (non_empty-reason_codes_of (view r).blockers) refl

tests :
    (a b c d : Bool) (m₁ m₂ m₃ m₄ : String) (x p : StructuredRefusal)
    → ((raise_if a m₁ >> (raise_if b m₂ >> (raise_if c m₃ >> (raise_if d m₄ >> ok x)))) ≡ ok p)
      ↔ ((a ≡ false) × (b ≡ false) × (c ≡ false) × (d ≡ false) × (x ≡ p))
tests a b c d m₁ m₂ m₃ m₄ x p = ground arith

tested :
    (r : Refusable) (p : StructuredRefusal)
    → (build_structured_refusal r ≡ ok p) ↔ (
        ((not (is_refusal_only (view r).mode) && not (non_empty (view r).blockers)) ≡ false)
        × (not (is_provider_scope_id (view r).run_id) ≡ false)
        × (not (codes_fit (view r)) ≡ false)
        × (not (actions_fit (view r)) ≡ false)
        × (payload (view r) ≡ p))
tested r p = rw (built r) (tests _ _ _ _ _ _ _ _ _ _)

codes_fit_iff :
    (v : View) → (not (codes_fit v) ≡ false) ↔ (length (reason_codes_of v.blockers) ≤ 64)
unfolding codes_fit
codes_fit_iff v = ground arith

actions_fit_iff : (v : View) → (not (actions_fit v) ≡ false) ↔ (length v.actions ≤ 32)
unfolding actions_fit
actions_fit_iff v = by_actions v.actions
  where
    by_actions :
        (actions : List String)
        → (not (leb (length (or_complete actions)) 32) ≡ false) ↔ (length actions ≤ 32)
    by_actions [] = ground arith
    by_actions (a ∷ actions) = ground arith

-- A result that can be refused, whose run has an id of the pattern and whose lists fit.
pub record IsRefusal (v : View) : Type 0 where
  pub refusable : IsRefusable v
  pub run_id : is_provider_scope_id v.run_id ≡ true
  pub codes : length (reason_codes_of v.blockers) ≤ 64
  pub actions : length v.actions ≤ 32

-- A refusal is built whenever there is something to refuse, the run has an id of the pattern, and
-- the distinct codes are at most 64 and the actions at most 32; and only then.
pub IsRefusal-iff :
    (r : Refusable)
    → ((p : StructuredRefusal) × (build_structured_refusal r ≡ ok p)) ↔ IsRefusal (view r)
IsRefusal-iff r = (to, from)
  where
    to : (p : StructuredRefusal) × (build_structured_refusal r ≡ ok p) → IsRefusal (view r)
    to (p, h) =
        let (refused, scope, codes, actions, _) = (tested r p).0 h in
        record {
          refusable = (IsRefusable-iff (view r)).0 refused;
          run_id = ground (arith, scope);
          codes = (codes_fit_iff (view r)).0 codes;
          actions = (actions_fit_iff (view r)).0 actions;
        }

    from : IsRefusal (view r) → (p : StructuredRefusal) × (build_structured_refusal r ≡ ok p)
    from k = (
      payload (view r),
      (tested r (payload (view r))).1 (
        (IsRefusable-iff (view r)).1 k.refusable,
        ap not k.run_id,
        (codes_fit_iff (view r)).1 k.codes,
        (actions_fit_iff (view r)).1 k.actions,
        refl,
      ),
    )

-- What is built carries the run's id, the blockers' codes, each once, or the default code where
-- there is no blocker, and at least one action.
pub refusal_payload :
    (r : Refusable) (p : StructuredRefusal)
    → build_structured_refusal r ≡ ok p
    → IsPayloadOf (view r) p
refusal_payload r p h =
    let (_, _, _, _, same) = (tested r p).0 h in
    subst (IsPayloadOf (view r)) same (payload-IsPayloadOf (view r))
