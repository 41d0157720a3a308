-- ===== src/Citations/Resolver.antt =====
-- src/tw_legal_rag_mcp/verification/identifier_resolver.py. SHA-256 and the deployer's resolver are
-- parameters.
use alr_tw.Prelude.{
  String, Bool, true, false, not, ◌||◌, Option, none, some, List, [], ◌∷◌, ◌==◌, string_eq, ◌<>◌,
  if◌then◌else◌,
}
use alr_tw.Citations.Policy.{IdentifierResolution, SourceTier, SourceRecord, is_set}

pub record ResolvedOfficialRecord : Type 0 where
  pub identifier : String
  pub canonical_text : String
  pub source_label : Option String

-- `IdentifierResolver.resolve`
abbrev pub IdentifierResolver : Type 0
IdentifierResolver = String → Option ResolvedOfficialRecord

lookup : String → List (String × String) → Option String
lookup key [] = none
lookup key ((k, value) ∷ rest) =
    let found = lookup key rest in if k == key then some value else found

labelled : String → Option String → Option ResolvedOfficialRecord
labelled identifier none = none
labelled identifier (some canonical_text) = some (record {
  identifier = identifier;
  canonical_text = canonical_text;
  source_label = some "synthetic-official-archive";
})

-- `SyntheticIdentifierResolver.resolve` over its records
unfoldable synthetic_resolve : List (String × String) → IdentifierResolver
unfolding lookup labelled
synthetic_resolve records identifier = labelled identifier (lookup identifier records)

abbrev is_verified_cache : SourceTier → Bool
is_verified_cache SourceTier.verified_cache = true
is_verified_cache _ = false

module _ (sha256 : String → String) where
  unfoldable pub compute_content_hash : String → String
  compute_content_hash canonical_text = "sha256:" <> sha256 canonical_text

  -- `declared_hash == compute_content_hash(text)`
  abbrev pub hash_agrees : Option String → String → Bool
  hash_agrees none canonical_text = false
  hash_agrees (some declared) canonical_text = declared == compute_content_hash canonical_text

  abbrev pub status_of : Option String → Option ResolvedOfficialRecord → IdentifierResolution
  status_of declared_hash none = IdentifierResolution.unresolved
  status_of declared_hash (some resolved) =
      if hash_agrees declared_hash resolved.canonical_text
      then IdentifierResolution.hash_match
      else IdentifierResolution.hash_mismatch

  unfoldable pub resolve_identifier_status :
      String → Option String → IdentifierResolver → IdentifierResolution
  resolve_identifier_status identifier declared_hash resolver =
      status_of declared_hash (resolver identifier)

  abbrev resolved_as : SourceRecord → Option String → IdentifierResolver → SourceRecord
  resolved_as source none resolver = source
  resolved_as source (some identifier) resolver = record source {
    identifier_resolution = resolve_identifier_status identifier source.official_hash resolver;
  }

  unfoldable pub resolve_identifier_citation : SourceRecord → IdentifierResolver → SourceRecord
  unfolding resolve_identifier_status compute_content_hash
  resolve_identifier_citation source resolver =
      if not (is_verified_cache source.source_tier) || not (is_set source.official_identifier)
      then source
      else resolved_as source source.official_identifier resolver
