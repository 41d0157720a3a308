-- ===== src/Citations/Policy.antt =====
-- src/tw_legal_rag_mcp/verification/source_policy.py: what a source may be cited for.
use alr_tw.Prelude.{
  ℕ, String, Bool, false, not, ◌&&◌, ◌+◌, Option, none, some, List, [], ◌∷◌, map, ◌==◌, nat_eq,
  string_eq, list_eq, leb, any, codes, non_empty, if◌then◌else◌,
}
use alr_tw.Research.Coverage.{is_space}

pub data CitationUse : Type 0 where
  allow_final : CitationUse
  allow_candidate_only : CitationUse
  demo_only : CitationUse
  reject : CitationUse

pub data IdentifierResolution : Type 0 where
  not_attempted : IdentifierResolution
  hash_match : IdentifierResolution
  hash_mismatch : IdentifierResolution
  unresolved : IdentifierResolution

-- `SourceTier` of src/alr_tw/contracts/sources.py
pub data SourceTier : Type 0 where
  official : SourceTier
  verified_cache : SourceTier
  staging : SourceTier
  external_semantic_recall : SourceTier
  synthetic : SourceTier
  unknown : SourceTier

pub record SourcePolicyConfig : Type 0 where
  pub identifier_backed_verified_cache : Bool

abbrev pub default_source_policy_config : SourcePolicyConfig
default_source_policy_config = record { identifier_backed_verified_cache = false }

strip_start : List ℕ → List ℕ
strip_start [] = []
strip_start (c ∷ cs) = let rest = strip_start cs in if is_space c then rest else c ∷ cs

strip_end : List ℕ → List ℕ
strip_end [] = []
strip_end (c ∷ cs) =
    let rest = strip_end cs in if is_space c && not (non_empty rest) then [] else c ∷ rest

-- `str.lower` on one code point, for ASCII; no other letter has one of the values below.
lower : ℕ → ℕ
lower c = if leb b'A' c && leb c b'Z' then c + 32 else c

-- `raw.strip().lower()`
unfoldable normalized : String → List ℕ
unfolding strip_start strip_end lower is_space
normalized raw = map lower (strip_end (strip_start (codes raw)))

or_blank : Option String → String
or_blank none = ""
or_blank (some raw) = raw

-- from the value of ALR_TW_IDENTIFIER_BACKED_VERIFIED_CACHE, if it is set
unfoldable source_policy_config_from_env : Option String → SourcePolicyConfig
unfolding normalized or_blank any
source_policy_config_from_env value = record {
  identifier_backed_verified_cache =
      any (λ accepted. codes accepted == normalized (or_blank value))
        ("1" ∷ "true" ∷ "yes" ∷ "on" ∷ []);
}

pub record SourceRecord : Type 0 where
  pub source_id : String
  pub source_tier : SourceTier
  pub official_url : Option String
  pub official_identifier : Option String
  pub official_hash : Option String
  pub verified_at : Option String
  pub source_label : Option String
  pub legal_material_type : Option String
  pub identifier_resolution : IdentifierResolution

pub record SourcePolicyDecision : Type 0 where
  pub citation_use : CitationUse
  pub reason_code : Option String
  pub reason : String

-- the truth of an optional text
abbrev pub is_set : Option String → Bool
is_set none = false
is_set (some text) = not (text == "")

unfoldable pub coerce_source_tier : Option String → SourceTier
coerce_source_tier none = SourceTier.unknown
coerce_source_tier (some value) =
    if value == "official"
    then SourceTier.official
    else if value == "verified_cache"
    then SourceTier.verified_cache
    else if value == "staging"
    then SourceTier.staging
    else if value == "external_semantic_recall"
    then SourceTier.external_semantic_recall
    else if value == "synthetic"
    then SourceTier.synthetic
    else SourceTier.unknown

unfoldable pub coerce_identifier_resolution : Option String → IdentifierResolution
coerce_identifier_resolution none = IdentifierResolution.not_attempted
coerce_identifier_resolution (some value) =
    if value == "hash_match"
    then IdentifierResolution.hash_match
    else if value == "hash_mismatch"
    then IdentifierResolution.hash_mismatch
    else if value == "unresolved"
    then IdentifierResolution.unresolved
    else IdentifierResolution.not_attempted

unfoldable pub rejected : String → String → SourcePolicyDecision
rejected code reason = record {
  citation_use = CitationUse.reject;
  reason_code = some code;
  reason = reason;
}

unfoldable pub allowed : CitationUse → String → SourcePolicyDecision
allowed use_as reason = record { citation_use = use_as; reason_code = none; reason = reason }

abbrev pub is_eligible_material : Option String → Bool
is_eligible_material none = false
is_eligible_material (some material) = material == "judgment"

unfoldable pub decide_resolution : IdentifierResolution → SourcePolicyDecision
unfolding rejected allowed
decide_resolution IdentifierResolution.hash_match =
    allowed CitationUse.allow_final
      "official identifier resolved to a local original record with matching hash"
decide_resolution IdentifierResolution.hash_mismatch =
    rejected "IDENTIFIER_HASH_MISMATCH"
      "recomputed content hash of the resolved original record does not match"
decide_resolution _ =
    rejected "IDENTIFIER_UNRESOLVED"
      "official identifier was not resolved against a local original record"

-- `_evaluate_verified_cache`
unfoldable pub evaluate_verified_cache : SourceRecord → SourcePolicyConfig → SourcePolicyDecision
unfolding rejected allowed decide_resolution
evaluate_verified_cache source config =
    if not (is_set source.official_hash && is_set source.verified_at)
    then rejected "VERIFIED_CACHE_INCOMPLETE"
        "verified cache is missing official hash or verification time"
    else if is_set source.official_url
    then allowed CitationUse.allow_final
        "verified cache has official URL, hash, and verification time"
    else if not (is_set source.official_identifier)
    then rejected "VERIFIED_CACHE_INCOMPLETE" "verified cache is missing an official URL"
    else if not config.identifier_backed_verified_cache
    then rejected "IDENTIFIER_BACKED_DISABLED"
        "identifier-backed verified cache is an opt-in capability and is disabled"
    else if not (is_eligible_material source.legal_material_type)
    then rejected "IDENTIFIER_MATERIAL_NOT_ELIGIBLE"
        "identifier-backed verified cache is limited to judgment records"
    else decide_resolution source.identifier_resolution

unfoldable pub by_tier : SourceTier → SourcePolicyDecision → SourcePolicyDecision
by_tier SourceTier.official cached = record {
  citation_use = CitationUse.allow_final;
  reason_code = none;
  reason = "official source tier";
}
by_tier SourceTier.verified_cache cached = cached
by_tier SourceTier.staging cached = record {
  citation_use = CitationUse.allow_candidate_only;
  reason_code = none;
  reason = "candidate-only source tier";
}
by_tier SourceTier.external_semantic_recall cached = record {
  citation_use = CitationUse.allow_candidate_only;
  reason_code = none;
  reason = "candidate-only source tier";
}
by_tier SourceTier.synthetic cached = record {
  citation_use = CitationUse.demo_only;
  reason_code = none;
  reason = "synthetic demo fixture";
}
by_tier SourceTier.unknown cached = record {
  citation_use = CitationUse.reject;
  reason_code = some "SOURCE_REJECTED_OR_UNKNOWN";
  reason = "unknown source tier";
}

unfoldable pub evaluate_citation_use : SourceRecord → SourcePolicyConfig → SourcePolicyDecision
unfolding evaluate_verified_cache
evaluate_citation_use source config =
    by_tier source.source_tier (evaluate_verified_cache source config)

unfoldable pub classify_citation_use : SourceRecord → SourcePolicyConfig → CitationUse
unfolding evaluate_citation_use
classify_citation_use source config = (evaluate_citation_use source config).citation_use
