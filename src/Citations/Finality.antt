-- ===== src/Citations/Finality.antt =====
-- Which sources and citations are final.
use alr_tw.Prelude.{
  String, Bool, true, false, not, ◌≡◌, ◌≢◌, ◌↔◌, ◌⊎◌, inr, refl, ap, Option, none, some, arith,
  ◌==◌, string_eq,
}
use alr_tw.Citations.Policy.{
  CitationUse, IdentifierResolution, SourceTier, SourceRecord, SourcePolicyConfig,
  SourcePolicyDecision, is_set, is_eligible_material, coerce_identifier_resolution, rejected,
  allowed, decide_resolution, evaluate_verified_cache, by_tier, evaluate_citation_use,
  classify_citation_use,
}
use alr_tw.Citations.Resolver.{
  ResolvedOfficialRecord, IdentifierResolver, compute_content_hash, hash_agrees, status_of,
  resolve_identifier_status, resolve_identifier_citation,
}
use alr_tw.Citations.Validator.{
  Citation, first_set, source_from_mapping, is_allow_final, is_exists, governed_decision,
  verdict_of, validate_citation, validate_untrusted_citation, is_final_citation,
}

-- A cached record that may be final: hash and time are there, and either an official URL is, or the
-- deployment accepts identifiers and the identifier of a judgment was matched by its hash.
pub record IsBacked (source : SourceRecord) (config : SourcePolicyConfig) : Type 0 where
  pub hash : is_set source.official_hash ≡ true
  pub time : is_set source.verified_at ≡ true
  pub reference :
      (is_set source.official_url ≡ true)
      ⊎ ((is_set source.official_identifier ≡ true)
          × (config.identifier_backed_verified_cache ≡ true)
          × (source.legal_material_type ≡ some "judgment")
          × (source.identifier_resolution ≡ IdentifierResolution.hash_match))

material_iff : (m : Option String) → (is_eligible_material m ≡ true) ↔ (m ≡ some "judgment")
material_iff none = ground arith
material_iff (some material) = ground (arith, string_eq.test_iff material "judgment")

resolution_final :
    (r : IdentifierResolution)
    → ((decide_resolution r).citation_use ≡ CitationUse.allow_final)
      ↔ (r ≡ IdentifierResolution.hash_match)
unfolding decide_resolution rejected allowed
resolution_final r = ground arith

cache_final_iff :
    (source : SourceRecord) (config : SourcePolicyConfig)
    → ((evaluate_verified_cache source config).citation_use ≡ CitationUse.allow_final)
      ↔ IsBacked source config
unfolding evaluate_verified_cache rejected allowed
cache_final_iff source config = (
  (λ h. record {
    hash = ground arith;
    time = ground arith;
    reference = ground (
      arith,
      (material_iff source.legal_material_type).0,
      (resolution_final source.identifier_resolution).0,
      h,
    );
  }),
  (λ b. ground (
    arith,
    b.hash,
    b.time,
    b.reference,
    (material_iff source.legal_material_type).1,
    (resolution_final source.identifier_resolution).1,
  )),
)

-- A source may be cited as final exactly when it is official, or it is a cached record that is backed.
pub final_use_iff :
    (source : SourceRecord) (config : SourcePolicyConfig)
    → (classify_citation_use source config ≡ CitationUse.allow_final) ↔ (
        (source.source_tier ≡ SourceTier.official)
        ⊎ ((source.source_tier ≡ SourceTier.verified_cache) × IsBacked source config))
unfolding classify_citation_use evaluate_citation_use by_tier
final_use_iff source config = ground (arith, cache_final_iff source config)

allow_final_iff : (u : CitationUse) → (is_allow_final u ≡ true) ↔ (u ≡ CitationUse.allow_final)
allow_final_iff u = ground arith

pub governed_final :
    (caller : Bool) (source : SourceRecord) (config : SourcePolicyConfig)
    → (is_allow_final (governed_decision caller source config).citation_use ≡ true) ↔ (
        (classify_citation_use source config ≡ CitationUse.allow_final)
        × ((caller ≡ false) ⊎ (source.identifier_resolution ≡ IdentifierResolution.hash_match)))
unfolding governed_decision classify_citation_use
governed_final caller source config = ground arith

verdict_exists :
    (id : String) (d : SourcePolicyDecision) (require_final : Bool)
    → is_allow_final d.citation_use ≡ true
    → is_exists (verdict_of id d require_final).status ≡ not (id == "")
unfolding verdict_of
verdict_exists id d require_final h = ground arith

-- A validated citation is final exactly when it has an id, its source may be cited as final, and, if
-- a caller supplied it, its identifier was matched by its hash.
pub final_citation_iff :
    (citation : Citation) (require_final : Bool) (config : SourcePolicyConfig) (caller : Bool)
    → (is_final_citation (validate_citation citation require_final config caller) ≡ true) ↔ (
        (first_set citation.citation_id citation.source_id ≢ "")
        × (classify_citation_use (source_from_mapping citation) config ≡ CitationUse.allow_final)
        × ((caller ≡ false)
            ⊎ ((source_from_mapping citation).identifier_resolution
                ≡ IdentifierResolution.hash_match)))
unfolding is_final_citation validate_citation
final_citation_iff citation require_final config caller =
    let id = first_set citation.citation_id citation.source_id in
    let d = governed_decision caller (source_from_mapping citation) config in
    ground (
      arith,
      governed_final caller (source_from_mapping citation) config,
      verdict_exists id d require_final,
      string_eq.test_iff id "",
    )

unresolved_mapping :
    (citation : Citation)
    → (source_from_mapping (record citation { identifier_resolution = none })).identifier_resolution
      ≡ IdentifierResolution.not_attempted
unfolding source_from_mapping coerce_identifier_resolution
unresolved_mapping citation = refl

-- What a caller says of a source never makes it final, whatever it says and whatever is required
-- or configured.
pub untrusted_never_final :
    (citation : Citation) (require_final : Bool) (config : SourcePolicyConfig)
    → (is_final_citation (validate_untrusted_citation citation require_final config) ≡ false)
      × ((validate_untrusted_citation citation require_final config).citation_use
          ≢ CitationUse.allow_final)
unfolding validate_untrusted_citation is_final_citation validate_citation
untrusted_never_final citation require_final config =
    let bare = record citation { identifier_resolution = none } in
    ground
      (arith, governed_final true (source_from_mapping bare) config, unresolved_mapping citation)

module _ (sha256 : String → String) where
  -- The resolver found a record whose text has the declared hash.
  abbrev IsMatched : Option String → Option ResolvedOfficialRecord → Type 0
  IsMatched declared none = ⊥
  IsMatched declared (some found) =
      declared ≡ some (compute_content_hash sha256 found.canonical_text)

  hash_agrees_iff :
      (declared : Option String) (text : String)
      → (hash_agrees sha256 declared text ≡ true)
        ↔ (declared ≡ some (compute_content_hash sha256 text))
  hash_agrees_iff none text = ground arith
  hash_agrees_iff (some hash) text =
      ground (arith, string_eq.test_iff hash (compute_content_hash sha256 text))

  status_match_iff :
      (declared : Option String) (found : Option ResolvedOfficialRecord)
      → (status_of sha256 declared found ≡ IdentifierResolution.hash_match)
        ↔ IsMatched declared found
  status_match_iff declared none = ground arith
  status_match_iff declared (some found) =
      ground (arith, hash_agrees_iff declared found.canonical_text)

  -- What a cached judgment without a URL needs to be final once its identifier is resolved.
  pub record IsResolved (source : SourceRecord) (config : SourcePolicyConfig)
      (found : Option ResolvedOfficialRecord) : Type 0 where
    pub hash : is_set source.official_hash ≡ true
    pub time : is_set source.verified_at ≡ true
    enabled : config.identifier_backed_verified_cache ≡ true
    pub judgment : source.legal_material_type ≡ some "judgment"
    pub matched : IsMatched source.official_hash found

  resolved_source :
      (source : SourceRecord) (identifier : String) (resolver : IdentifierResolver)
      → source.source_tier ≡ SourceTier.verified_cache
      → source.official_identifier ≡ some identifier
      → identifier ≢ ""
      → resolve_identifier_citation sha256 source resolver ≡ (record source {
        identifier_resolution = status_of sha256 source.official_hash (resolver identifier);
      })
  unfolding resolve_identifier_citation resolve_identifier_status
  resolved_source source identifier resolver t i n =
      ground (arith, t, i, n, string_eq.test_iff identifier "")

  IsResolved-IsBacked :
      (source : SourceRecord) (config : SourcePolicyConfig) (identifier : String)
      (found : Option ResolvedOfficialRecord)
      → is_set source.official_url ≡ false
      → is_set source.official_identifier ≡ true
      → IsBacked
          (record source { identifier_resolution = status_of sha256 source.official_hash found })
          config
        ↔ IsResolved source config found
  IsResolved-IsBacked source config identifier found u i = (
    (λ b. record {
      hash = b.hash;
      time = b.time;
      enabled = ground (arith, b.reference);
      judgment = ground (arith, b.reference);
      matched = (status_match_iff source.official_hash found).0 (ground (arith, b.reference));
    }),
    (λ r. record {
      hash = r.hash;
      time = r.time;
      reference =
          inr (i, r.enabled, r.judgment, (status_match_iff source.official_hash found).1 r.matched);
    }),
  )

  -- A cached record without an official URL, resolved by its identifier, is final exactly when hash
  -- and time are there, identifiers are accepted, it is a judgment, and the resolver finds a record
  -- whose text has the declared hash.
  pub IsResolved-final_iff :
      (source : SourceRecord) (config : SourcePolicyConfig) (identifier : String)
      (resolver : IdentifierResolver)
      → source.source_tier ≡ SourceTier.verified_cache
      → is_set source.official_url ≡ false
      → source.official_identifier ≡ some identifier
      → identifier ≢ ""
      → (classify_citation_use (resolve_identifier_citation sha256 source resolver) config
          ≡ CitationUse.allow_final)
        ↔ IsResolved source config (resolver identifier)
  IsResolved-final_iff source config identifier resolver t u i n = ground (
    arith,
    ap (λ x. classify_citation_use x config) (resolved_source source identifier resolver t i n),
    final_use_iff
        (record source {
          identifier_resolution = status_of sha256 source.official_hash (resolver identifier);
        })
        config,
    IsResolved-IsBacked source config identifier (resolver identifier) u
        (ground (arith, i, n, string_eq.test_iff identifier "")),
    t,
  )
