-- ===== src/Citations/Validator.antt =====
-- src/tw_legal_rag_mcp/verification/citation_validator.py. A citation is a mapping whose values are
-- texts; a missing key and `None` are both `none`.
use alr_tw.Prelude.{
  String, Bool, true, false, not, ◌&&◌, ◌||◌, Option, none, some, ◌==◌, string_eq, if◌then◌else◌,
}
use alr_tw.Citations.Policy.{
  CitationUse, IdentifierResolution, SourceTier, SourceRecord, SourcePolicyConfig,
  SourcePolicyDecision, is_set, coerce_source_tier, coerce_identifier_resolution,
  evaluate_citation_use,
}

pub record Citation : Type 0 where
  pub citation_id : Option String
  pub source_id : Option String
  pub source_tier : Option String
  pub official_url : Option String
  pub official_identifier : Option String
  pub official_hash : Option String
  pub verified_at : Option String
  pub source_label : Option String
  pub legal_material_type : Option String
  pub identifier_resolution : Option String

pub data CitationStatus : Type 0 where
  exists : CitationStatus
  not_found : CitationStatus
  unverifiable : CitationStatus

pub data CitationSupport : Type 0 where
  supported : CitationSupport
  unsupported : CitationSupport
  not_checked : CitationSupport

pub data CitationEligibility : Type 0 where
  final_eligible : CitationEligibility
  candidate_only : CitationEligibility
  demo_only : CitationEligibility
  rejected : CitationEligibility
  missing : CitationEligibility

pub record Validation : Type 0 where
  pub citation_id : String
  pub status : CitationStatus
  pub support : CitationSupport
  pub citation_eligibility : CitationEligibility
  pub source_tier : SourceTier
  pub citation_use : CitationUse
  pub official_url : Option String
  pub official_identifier : Option String
  pub identifier_resolution : IdentifierResolution
  pub reason : String
  pub error_code : Option String
  pub human_review_required : Bool

abbrev text_of : Option String → String
text_of none = ""
text_of (some text) = text

-- `str(first or second or "")`
unfoldable pub first_set : Option String → Option String → String
first_set first second = if is_set first then text_of first else text_of second

-- `_source_from_mapping`
unfoldable pub source_from_mapping : Citation → SourceRecord
unfolding first_set coerce_source_tier coerce_identifier_resolution
source_from_mapping citation = record {
  source_id = first_set citation.source_id citation.citation_id;
  source_tier = coerce_source_tier citation.source_tier;
  official_url = citation.official_url;
  official_identifier = citation.official_identifier;
  official_hash = citation.official_hash;
  verified_at = citation.verified_at;
  source_label = citation.source_label;
  legal_material_type = citation.legal_material_type;
  identifier_resolution = coerce_identifier_resolution citation.identifier_resolution;
}

abbrev pub is_allow_final : CitationUse → Bool
is_allow_final CitationUse.allow_final = true
is_allow_final _ = false

abbrev is_hash_match : IdentifierResolution → Bool
is_hash_match IdentifierResolution.hash_match = true
is_hash_match _ = false

abbrev pub is_exists : CitationStatus → Bool
is_exists CitationStatus.exists = true
is_exists _ = false

-- the decision after the test of a caller's provenance
unfoldable pub governed_decision : Bool → SourceRecord → SourcePolicyConfig → SourcePolicyDecision
governed_decision caller_controlled source config =
    let decision = evaluate_citation_use source config in
    if caller_controlled
      && is_allow_final decision.citation_use
      && not (is_hash_match source.identifier_resolution)
    then record {
      citation_use = CitationUse.reject;
      reason_code = some "CALLER_ATTESTED_SOURCE";
      reason = "caller-supplied provenance cannot establish final citation eligibility";
    }
    else decision

-- What the branches of the validator set.
pub record Verdict : Type 0 where
  pub status : CitationStatus
  pub support : CitationSupport
  pub eligibility : CitationEligibility
  pub reason : String
  pub error_code : Option String

abbrev or_text : String → String → String
or_text text default = if text == "" then default else text

abbrev or_code : Option String → String → String
or_code none default = default
or_code (some code) default = or_text code default

abbrev verdict_by_use : CitationUse → SourcePolicyDecision → Bool → Verdict
verdict_by_use CitationUse.allow_final decision require_final = record {
  status = CitationStatus.exists;
  support = CitationSupport.not_checked;
  eligibility = CitationEligibility.final_eligible;
  reason = "source tier is eligible for final citation";
  error_code = none;
}
verdict_by_use CitationUse.demo_only decision require_final = record {
  status = CitationStatus.exists;
  support = CitationSupport.not_checked;
  eligibility = CitationEligibility.demo_only;
  reason = "synthetic source exists for demo only";
  error_code = some "SYNTHETIC_DEMO_ONLY";
}
verdict_by_use CitationUse.allow_candidate_only decision require_final = record {
  status = if require_final then CitationStatus.unverifiable else CitationStatus.exists;
  support = CitationSupport.not_checked;
  eligibility = CitationEligibility.candidate_only;
  reason = "source tier is candidate-only and not allowed as final citation";
  error_code = if require_final then some "CANDIDATE_ONLY_SOURCE" else none;
}
verdict_by_use CitationUse.reject decision require_final = record {
  status = CitationStatus.unverifiable;
  support = CitationSupport.not_checked;
  eligibility = CitationEligibility.rejected;
  reason = or_text decision.reason "source tier is rejected or unknown";
  error_code = some (or_code decision.reason_code "SOURCE_REJECTED_OR_UNKNOWN");
}

unfoldable pub verdict_of : String → SourcePolicyDecision → Bool → Verdict
verdict_of citation_id decision require_final =
    if citation_id == ""
    then record {
      status = CitationStatus.not_found;
      support = CitationSupport.unsupported;
      eligibility = CitationEligibility.missing;
      reason = "citation_id is missing";
      error_code = some "CITATION_ID_MISSING";
    }
    else verdict_by_use decision.citation_use decision require_final

unfoldable pub validate_citation : Citation → Bool → SourcePolicyConfig → Bool → Validation
unfolding first_set source_from_mapping governed_decision verdict_of
validate_citation citation require_final config caller_controlled =
    let citation_id = first_set citation.citation_id citation.source_id in
    let source = source_from_mapping citation in
    let decision = governed_decision caller_controlled source config in
    let verdict = verdict_of citation_id decision require_final in
    record {
      citation_id = citation_id;
      status = verdict.status;
      support = verdict.support;
      citation_eligibility = verdict.eligibility;
      source_tier = source.source_tier;
      citation_use = decision.citation_use;
      official_url = source.official_url;
      official_identifier = source.official_identifier;
      identifier_resolution = source.identifier_resolution;
      reason = verdict.reason;
      error_code = verdict.error_code;
      human_review_required =
          not (is_exists verdict.status) || not (is_allow_final decision.citation_use);
    }

unfoldable pub validate_untrusted_citation : Citation → Bool → SourcePolicyConfig → Validation
unfolding validate_citation
validate_untrusted_citation citation require_final config =
    validate_citation (record citation { identifier_resolution = none }) require_final config true

unfoldable pub is_final_citation : Validation → Bool
is_final_citation validation = is_exists validation.status && is_allow_final validation.citation_use
