-- ===== src/Citations/Gate.antt =====
-- The two gates over the citations that a caller supplies.
use alr_tw.Prelude.{String, true, false, ◌≡◌, refl, List, [], ◌∷◌, Memᴰ, arith, any, string_eq}
use alr_tw.Citations.Policy.{default_source_policy_config}
use alr_tw.Citations.Validator.{Citation, is_final_citation}
use alr_tw.Citations.Finality.{untrusted_never_final}
use alr_tw.Citations.Answer.{
  ValidationSummary, FinalAction, Coverage, failure_reasons, validated_citations, summarize,
  answer_with_validation, evaluate_trust_gate,
}

none_final :
    (citations : List Citation) → any is_final_citation (validated_citations citations) ≡ false
unfolding any validated_citations
none_final [] = refl
none_final (c ∷ citations) =
    ground (arith, untrusted_never_final c true default_source_policy_config, none_final citations)

-- A validated answer over the caller's citations has no final citation, and is neither presented nor
-- passed on to a reviewer.
pub answer_never_final :
    (answer : String) (citations : List Citation)
    → ((answer_with_validation answer citations).validation_summary.has_final_citation ≡ false)
      × ((answer_with_validation answer citations).validation_summary.safe_to_present ≡ false)
      × ((answer_with_validation answer citations).validation_summary.human_review_required ≡ false)
unfolding answer_with_validation summarize
answer_never_final answer citations = ground (arith, none_final citations)

no_final-reported :
    (summary : ValidationSummary) (coverage : Coverage)
    → summary.has_final_citation ≡ false
    → Memᴰ "NO_FINAL_CITATION" (failure_reasons summary coverage)
unfolding failure_reasons
no_final-reported summary coverage h = rw h (Memᴰ.head refl)

-- The trust gate refuses every answer over the caller's citations; it always gives the reason that no
-- citation is final.
pub trust_gate_refuses :
    (answer : String) (citations : List Citation) (coverage : Coverage)
    → ((evaluate_trust_gate answer citations coverage).safe_to_present ≡ false)
      × ((evaluate_trust_gate answer citations coverage).recommended_action ≡ FinalAction.refuse)
      × Memᴰ "NO_FINAL_CITATION" (evaluate_trust_gate answer citations coverage).failure_reasons
unfolding evaluate_trust_gate summarize
trust_gate_refuses answer citations coverage =
    (refl, refl, no_final-reported _ coverage (none_final citations))
