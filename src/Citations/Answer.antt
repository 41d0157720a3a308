-- ===== src/Citations/Answer.antt =====
-- src/tw_legal_rag_mcp/verification/answer_validation.py and trust_gates.py, with the actions and the
-- reasons of src/alr_tw/harness/constants.py.
use alr_tw.Prelude.{
  String, Bool, true, false, not, ◌&&◌, ◌||◌, Option, none, some, List, [], ◌∷◌, ◌++◌, map, any,
  all, non_empty, ◌==◌, string_eq, if◌then◌else◌,
}
use alr_tw.Citations.Policy.{CitationUse, default_source_policy_config}
use alr_tw.Citations.Validator.{
  Citation, CitationStatus, Validation, validate_untrusted_citation, is_final_citation,
}

pub record ValidationSummary : Type 0 where
  pub has_final_citation : Bool
  pub has_rejected_citation : Bool
  pub has_unverifiable_citation : Bool
  pub demo_only : Bool
  pub safe_to_present : Bool
  pub human_review_required : Bool

pub record AnswerValidation : Type 0 where
  pub answer : String
  pub citations : List Validation
  pub validation_summary : ValidationSummary

abbrev is_reject : CitationUse → Bool
is_reject CitationUse.reject = true
is_reject _ = false

abbrev is_demo_only : CitationUse → Bool
is_demo_only CitationUse.demo_only = true
is_demo_only _ = false

abbrev is_unverifiable : CitationStatus → Bool
is_unverifiable CitationStatus.unverifiable = true
is_unverifiable _ = false

unfoldable pub validated_citations : List Citation → List Validation
validated_citations citations =
    map (λ citation. validate_untrusted_citation citation true default_source_policy_config)
      citations

unfoldable pub summarize : List Validation → ValidationSummary
unfolding any all is_final_citation
summarize validated =
    let has_final = any is_final_citation validated in
    let has_rejected = any (λ item. is_reject item.citation_use) validated in
    let has_unverifiable = any (λ item. is_unverifiable item.status) validated in
    let demo_only = non_empty validated && all (λ item. is_demo_only item.citation_use) validated in
    record {
      has_final_citation = has_final;
      has_rejected_citation = has_rejected;
      has_unverifiable_citation = has_unverifiable;
      demo_only = demo_only;
      safe_to_present = false;
      human_review_required =
          has_final && not has_rejected && not has_unverifiable && not demo_only;
    }

unfoldable pub answer_with_validation : String → List Citation → AnswerValidation
answer_with_validation text citations =
    let validated = validated_citations citations in
    record { answer = text; citations = validated; validation_summary = summarize validated }

pub data FinalAction : Type 0 where
  answer : FinalAction
  refuse : FinalAction
  human_review_required : FinalAction

-- a field of the coverage with its state, which a nested mapping may lack
abbrev pub Coverage : Type 0
Coverage = List (String × Option String)

abbrev is_low_trust : Option String → Bool
is_low_trust none = false
is_low_trust (some state) = (state == "absent") || (state == "low_confidence")

unfoldable coverage_reason : String × Option String → List String
coverage_reason (field, state) =
    if is_low_trust state && ((field == "has_laws") || (field == "has_judgments"))
    then (if field == "has_laws" then "LAWS_COVERAGE_LOW" else "JUDGMENTS_COVERAGE_LOW") ∷ []
    else []

unfoldable pub coverage_reasons : Coverage → List String
unfolding coverage_reason
coverage_reasons [] = []
coverage_reasons (entry ∷ coverage) = coverage_reason entry ++ coverage_reasons coverage

abbrev reason_if : Bool → String → List String
reason_if true reason = reason ∷ []
reason_if false reason = []

unfoldable pub failure_reasons : ValidationSummary → Coverage → List String
unfolding coverage_reasons
failure_reasons summary coverage =
    reason_if (not summary.has_final_citation) "NO_FINAL_CITATION"
    ++ reason_if summary.has_rejected_citation "REJECTED_CITATION"
    ++ reason_if summary.has_unverifiable_citation "UNVERIFIABLE_CITATION"
    ++ coverage_reasons coverage

pub record TrustGate : Type 0 where
  pub safe_to_present : Bool
  pub failure_reasons : List String
  pub validation_summary : ValidationSummary
  pub recommended_action : FinalAction

unfoldable pub evaluate_trust_gate : String → List Citation → Coverage → TrustGate
unfolding answer_with_validation
evaluate_trust_gate text citations coverage =
    let summary = (answer_with_validation text citations).validation_summary in
    let reasons = failure_reasons summary coverage in
    let safe = summary.safe_to_present && not (non_empty reasons) in
    record {
      safe_to_present = safe;
      failure_reasons = reasons;
      validation_summary = summary;
      recommended_action = if safe then FinalAction.answer else FinalAction.refuse;
    }
