-- ===== src/Sources.antt =====
-- Sources and evidence spans: src/alr_tw/contracts/sources.py. SHA-256 is the parameter `sha256`.
use alr_tw.Prelude.{
  ℕ, ◌≤◌, ◌≢◌, subst, String, Bool, true, false, not, ◌&&◌, ◌||◌, ◌≡◌, ◌↔◌, refl, sym, ◌∙◌, Option,
  none, some, arith, Result, ok, ◌>>◌, raise_if, ◌==◌, string_eq, bool_eq, leb, ltb, ◌<>◌,
}
use alr_tw.Research.Run.{Datetime}
use alr_tw.Citations.Policy.{SourceTier, is_set}
use alr_tw.Snapshot.{is_digest}

pub data TrustStatus : Type 0 where
  external_candidate official_fetched official_verified evidence_eligible : TrustStatus
  stale verification_failed purged : TrustStatus

pub data MaterialType : Type 0 where
  law judgment constitutional : MaterialType

pub data EvidenceSectionType : Type 0 where
  law_text holding disposition court_reasoning court_holding party_argument : EvidenceSectionType
  facts procedure mixed unknown concurring_opinion dissenting_opinion other : EvidenceSectionType

-- without the metadata and the warnings
pub record SourceRecord : Type 0 where
  pub source_id : String
  pub source_key : String
  pub source_version_id : String
  pub material_type : MaterialType
  pub provider_id : String
  pub source_tier : SourceTier
  pub trust_status : TrustStatus
  pub official_identifier : Option String
  pub official_url : Option String
  pub citation : String
  pub title : Option String
  pub fetched_at : Datetime
  pub verified_at : Option Datetime
  pub expires_at : Datetime
  pub content_hash : String
  pub normalized_content_hash : String
  pub normalized_text : String

abbrev aware_if_given : Option Datetime → Bool
aware_if_given none = true
aware_if_given (some at) = at.aware

abbrev is_given_time : Option Datetime → Bool
is_given_time none = false
is_given_time (some at) = true

abbrev is_trusted : TrustStatus → Bool
is_trusted TrustStatus.official_verified = true
is_trusted TrustStatus.evidence_eligible = true
is_trusted _ = false

abbrev is_recall : SourceTier → Bool
is_recall SourceTier.external_semantic_recall = true
is_recall _ = false

abbrev may_be_recalled : TrustStatus → Bool
may_be_recalled TrustStatus.external_candidate = true
may_be_recalled TrustStatus.stale = true
may_be_recalled TrustStatus.verification_failed = true
may_be_recalled _ = false

-- `SourceRecord.validate_timestamps_and_trust`
unfoldable validate_timestamps_and_trust : SourceRecord → Result SourceRecord
validate_timestamps_and_trust s = do
  raise_if (not s.fetched_at.aware || not s.expires_at.aware || not (aware_if_given s.verified_at))
      "source timestamps must be timezone-aware"
  raise_if (leb s.expires_at.micros s.fetched_at.micros) "expires_at must be later than fetched_at"
  raise_if (is_trusted s.trust_status && not (is_given_time s.verified_at))
      "verified sources require verified_at"
  raise_if
      (is_trusted s.trust_status && not (is_set s.official_identifier || is_set s.official_url))
      "verified sources require an official identifier or URL"
  raise_if (is_recall s.source_tier && not (may_be_recalled s.trust_status))
      "external semantic recall cannot be evidence eligible"
  ok s

pub record EvidenceSpan : Type 0 where
  pub evidence_id : String
  pub source_id : String
  pub section_id : String
  pub section_type : EvidenceSectionType
  pub exact_text : String
  pub text_hash : String
  pub start_offset : Option ℕ
  pub end_offset : Option ℕ
  pub eligible_for_claim_support : Bool

abbrev is_offset : Option ℕ → Bool
is_offset none = false
is_offset (some n) = true

abbrev precedes : Option ℕ → Option ℕ → Bool
precedes (some end) (some start) = ltb end start
precedes _ _ = false

-- What the constructor of a span is given: all fields but the hash.
pub record SpanArguments : Type 0 where
  pub evidence_id : String
  pub source_id : String
  pub section_id : String
  pub section_type : EvidenceSectionType
  pub exact_text : String
  pub start_offset : Option ℕ
  pub end_offset : Option ℕ
  pub eligible_for_claim_support : Bool

-- the `min_length` of the texts
has_texts : EvidenceSpan → Bool
has_texts span =
    not (span.evidence_id == "")
    && not (span.source_id == "")
    && not (span.section_id == "")
    && not (span.exact_text == "")

-- Both offsets or neither, and the end not before the start.
abbrev OffsetsAgree : Option ℕ → Option ℕ → Type 0
OffsetsAgree none none = Unit
OffsetsAgree (some start) (some end) = start ≤ end
OffsetsAgree _ _ = ⊥

module _ (sha256 : String → String) where
  unfoldable pub hash_text : String → String
  hash_text text = "sha256:" <> sha256 text

  unfoldable pub verify_text : EvidenceSpan → String → Bool
  unfolding hash_text
  verify_text span text = span.text_hash == hash_text text

  -- the constraints on the fields and `EvidenceSpan.validate_offsets_and_hash`
  unfoldable pub construct_span : EvidenceSpan → Result EvidenceSpan
  unfolding has_texts
  construct_span span = do
    raise_if (not (has_texts span)) "String should have at least 1 character"
    raise_if (not (is_digest span.text_hash)) "text_hash does not match its pattern"
    raise_if (not (is_offset span.start_offset == is_offset span.end_offset))
        "start_offset and end_offset must be provided together"
    raise_if (precedes span.end_offset span.start_offset) "end_offset must not precede start_offset"
    raise_if (not (verify_text span span.exact_text)) "text_hash does not match exact_text"
    ok span

  unfoldable pub from_exact_text : SpanArguments → Result EvidenceSpan
  from_exact_text a = construct_span (record {
    evidence_id = a.evidence_id;
    source_id = a.source_id;
    section_id = a.section_id;
    section_type = a.section_type;
    exact_text = a.exact_text;
    text_hash = hash_text a.exact_text;
    start_offset = a.start_offset;
    end_offset = a.end_offset;
    eligible_for_claim_support = a.eligible_for_claim_support;
  })

  constructed_same : (span built : EvidenceSpan) → construct_span span ≡ ok built → span ≡ built
  unfolding construct_span
  constructed_same span built h = ground arith

  constructed_verified :
      (span built : EvidenceSpan)
      → construct_span span ≡ ok built
      → verify_text span span.exact_text ≡ true
  unfolding construct_span
  constructed_verified span built h = ground arith

  verify_text_eq :
      (span : EvidenceSpan) (text : String)
      → (verify_text span text ≡ true) ↔ (span.text_hash ≡ hash_text text)
  unfolding verify_text
  verify_text_eq span text = string_eq.test_iff span.text_hash (hash_text text)

  -- However a span was constructed, it verifies its own text, and of other texts exactly those with
  -- the same hash.
  pub verify_text_iff :
      (span built : EvidenceSpan) (text : String)
      → construct_span span ≡ ok built
      → (verify_text built built.exact_text ≡ true)
        × ((verify_text built text ≡ true) ↔ (hash_text text ≡ hash_text built.exact_text))
  verify_text_iff span built text h =
      let same = constructed_same span built h in
      let own =
        subst (λ x. verify_text x x.exact_text ≡ true) same (constructed_verified span built h) in
      let hashed = (verify_text_eq built built.exact_text).0 own in
      (
        own,
        (
          (λ v. sym ((verify_text_eq built text).0 v) ∙ hashed),
          (λ e. (verify_text_eq built text).1 (hashed ∙ sym e)),
        ),
      )

  span_of : SpanArguments → EvidenceSpan
  span_of a = record {
    evidence_id = a.evidence_id;
    source_id = a.source_id;
    section_id = a.section_id;
    section_type = a.section_type;
    exact_text = a.exact_text;
    text_hash = hash_text a.exact_text;
    start_offset = a.start_offset;
    end_offset = a.end_offset;
    eligible_for_claim_support = a.eligible_for_claim_support;
  }

  own_verified : (a : SpanArguments) → verify_text (span_of a) a.exact_text ≡ true
  unfolding span_of
  own_verified a = (verify_text_eq (span_of a) a.exact_text).1 refl

  offset_tests :
      (start end : Option ℕ)
      → OffsetsAgree start end
      → (not (is_offset start == is_offset end) ≡ false) × (precedes end start ≡ false)
  offset_tests start end o = ground (arith, o)

  span_texts :
      (a : SpanArguments)
      → (a.evidence_id ≢ "") × (a.source_id ≢ "") × (a.section_id ≢ "") × (a.exact_text ≢ "")
      → has_texts (span_of a) ≡ true
  unfolding has_texts span_of
  span_texts a (e, s, n, t) = ground (
    arith,
    e,
    s,
    n,
    t,
    string_eq.test_iff a.evidence_id "",
    string_eq.test_iff a.source_id "",
    string_eq.test_iff a.section_id "",
    string_eq.test_iff a.exact_text "",
  )

  same_text : (a : SpanArguments) → (span_of a).exact_text ≡ a.exact_text
  unfolding span_of
  same_text a = refl

  constructed :
      (a : SpanArguments)
      → (a.evidence_id ≢ "") × (a.source_id ≢ "") × (a.section_id ≢ "") × (a.exact_text ≢ "")
      → is_digest (hash_text a.exact_text) ≡ true
      → OffsetsAgree a.start_offset a.end_offset
      → from_exact_text a ≡ ok (span_of a)
  unfolding from_exact_text construct_span span_of
  constructed a texts digest offsets =
      let (given, ordered) = offset_tests a.start_offset a.end_offset offsets in
      rw (span_texts a texts, digest, given, ordered, own_verified a)

  -- Given texts that are not empty, a digest of the right form and offsets that agree, the span of an
  -- exact text is constructed, and it is that text's.
  pub from_exact_text-verified :
      (a : SpanArguments)
      → (a.evidence_id ≢ "") × (a.source_id ≢ "") × (a.section_id ≢ "") × (a.exact_text ≢ "")
      → is_digest (hash_text a.exact_text) ≡ true
      → OffsetsAgree a.start_offset a.end_offset
      → (span : EvidenceSpan) × (from_exact_text a ≡ ok span)
        × (span.exact_text ≡ a.exact_text)
        × (verify_text span a.exact_text ≡ true)
  from_exact_text-verified a texts digest offsets =
      (span_of a, constructed a texts digest offsets, same_text a, own_verified a)
