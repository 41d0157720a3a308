-- ===== src/RunReceipts.antt =====
-- The receipts of one run: src/alr_tw/research/snapshot_receipts.py. SHA-256 of a text is the
-- parameter `sha256`, that of the canonical JSON of a provider's material the parameter `seal`.
pub mod Issue
pub mod Binding
pub mod Checks
use alr_tw.Prelude.{
  ℕ, zero, suc, String, Bool, true, false, not, ◌&&◌, ◌||◌, Option, none, some, List, [], ◌∷◌, ◌++◌,
  map, Result, ok, err, ◌>>=◌, ◌==◌, string_eq, option_eq, ltb, leb, filter, any, all, contains,
  unique, dedup, sorted_set, non_empty, length, if◌then◌else◌, ◌<>◌,
}
use Prim.Native.Nat.{Ordering}
use Prim.Native.String.{compare}
use alr_tw.Research.Run.{Datetime, ResearchRun}
use alr_tw.Citations.Policy.{SourceTier}
use alr_tw.Sources.{SourceRecord, EvidenceSpan, EvidenceSectionType, TrustStatus}
use alr_tw.Snapshot.{
  ProviderSnapshotReceipt, SnapshotReceiptStatus, datetime_eq, validate_receipt, is_current,
}

pub record ProviderMaterial : Type 0 where
  pub provider_id : String
  pub content_digest : String
  pub snapshot_id : String
  pub generation : String
  pub receipt_id : String
  pub expires_at : Datetime

-- what the payload holds of a source and of a span
pub record SealedSource : Type 0 where
  pub source_id : String
  pub source_version_id : String
  pub content_hash : String
  pub normalized_content_hash : String
  pub verified_at : Option Datetime
  pub expires_at : Datetime

pub record SealedEvidence : Type 0 where
  pub evidence_id : String
  pub source_id : String
  pub section_id : String
  pub section_type : EvidenceSectionType
  pub text_hash : String

pub record Payload : Type 0 where
  pub provider_id : String
  pub sources : List SealedSource
  pub evidence : List SealedEvidence

abbrev is_receipt_tier : SourceTier → Bool
is_receipt_tier SourceTier.official = true
is_receipt_tier SourceTier.verified_cache = true
is_receipt_tier _ = false

abbrev pub is_evidence_eligible : TrustStatus → Bool
is_evidence_eligible TrustStatus.evidence_eligible = true
is_evidence_eligible _ = false

-- the condition of `eligible_sources`
unfoldable pub is_eligible : ResearchRun → ℕ → SourceRecord → Bool
is_eligible run now item =
    contains run.source_ids item.source_id
    && is_receipt_tier item.source_tier
    && is_evidence_eligible item.trust_status
    && ltb now item.expires_at.micros

-- the values of a dictionary by id: of each id the last one; their order is lost in the sorting below
unfoldable pub last_of_each : List SourceRecord → List SourceRecord
last_of_each [] = []
last_of_each (s ∷ rest) =
    let others = last_of_each rest in
    if any (λ item. item.source_id == s.source_id) rest then others else s ∷ others

unfoldable pub eligible_sources : ResearchRun → ℕ → List SourceRecord → List SourceRecord
eligible_sources run now sources = last_of_each (filter (is_eligible run now) sources)

-- `eligible_sources.get(item.source_id)` has the provider
unfoldable pub backs : ResearchRun → List SourceRecord → String → EvidenceSpan → Bool
backs run eligible provider item =
    any (λ s. (s.source_id == item.source_id) && (s.provider_id == provider)) eligible
    && contains run.evidence_ids item.evidence_id
    && item.eligible_for_claim_support

-- `evidence_by_provider[provider]`
unfoldable pub evidence_of :
    ResearchRun → List SourceRecord → List EvidenceSpan → String → List EvidenceSpan
evidence_of run eligible evidence provider = filter (backs run eligible provider) evidence

-- `sources_by_provider[provider]`
unfoldable pub sources_of :
    ResearchRun → List SourceRecord → List EvidenceSpan → String → List SourceRecord
sources_of run eligible evidence provider =
    if non_empty (evidence_of run eligible evidence provider)
    then filter (λ s. s.provider_id == provider) eligible
    else []

module _ {ℓ} {A : Type ℓ} (by : A → String) where
  insert_by : A → List A → List A
  insert_by x [] = x ∷ []
  insert_by x (y ∷ ys) = elim (compare (by x) (by y)) [
    | Ordering.gt ↦ y ∷ insert_by x ys
    | _ ↦ x ∷ y ∷ ys
  ]

  -- `sorted(xs, key=by)`, which is stable
  unfoldable pub sorted_by : List A → List A
  unfolding insert_by
  sorted_by [] = []
  sorted_by (x ∷ xs) = insert_by x (sorted_by xs)

unfoldable pub seal_source : SourceRecord → SealedSource
seal_source item = record {
  source_id = item.source_id;
  source_version_id = item.source_version_id;
  content_hash = item.content_hash;
  normalized_content_hash = item.normalized_content_hash;
  verified_at = item.verified_at;
  expires_at = item.expires_at;
}

unfoldable pub seal_evidence : EvidenceSpan → SealedEvidence
seal_evidence item = record {
  evidence_id = item.evidence_id;
  source_id = item.source_id;
  section_id = item.section_id;
  section_type = item.section_type;
  text_hash = item.text_hash;
}

abbrev earlier : Datetime → Datetime → Datetime
earlier a b = if ltb b.micros a.micros then b else a

-- `min(run.expires_at, *…)`
unfoldable pub earliest : Datetime → List SourceRecord → Datetime
earliest at [] = at
earliest at (s ∷ sources) = earliest (earlier at s.expires_at) sources

-- the keys of `sources_by_provider`, sorted
unfoldable pub provider_ids : ResearchRun → List SourceRecord → List EvidenceSpan → List String
provider_ids run eligible evidence = sorted_set (
    filter (λ provider. non_empty (sources_of run eligible evidence provider))
      (map (λ s. s.provider_id) eligible))

-- `text[:n]`
take_text : ℕ → String → String
take_text zero text = ""
take_text (suc n) String.[] = ""
take_text (suc n) (String.◌∷◌ c text) = String.◌∷◌ c (take_text n text)

module _ (seal : Payload → String) (sha256 : String → String) where
  -- the body of the loop over the providers
  unfoldable pub material_of :
      ResearchRun → List SourceRecord → List EvidenceSpan → String → ProviderMaterial
  unfolding take_text
  material_of run eligible evidence provider =
      let sources = sorted_by (λ s. s.source_id) (sources_of run eligible evidence provider) in
      let spans = sorted_by (λ e. e.evidence_id) (evidence_of run eligible evidence provider) in
      let sealed = seal (record {
        provider_id = provider;
        sources = map seal_source sources;
        evidence = map seal_evidence spans;
      }) in
      record {
        provider_id = provider;
        content_digest = "sha256:" <> sealed;
        snapshot_id = "snap:" <> take_text 32 sealed;
        generation = "gen:" <> take_text 32 (sha256 (run.run_id <> ("\0" <> provider)));
        receipt_id =
            "rcpt:"
            <> take_text 32
                (sha256 (run.run_id <> ("\0" <> (provider <> ("\0" <> ("sha256:" <> sealed))))));
        expires_at = earliest run.expires_at sources;
      }

  -- `_provider_materials`, in the order of the dictionary
  unfoldable pub provider_materials :
      ResearchRun → List SourceRecord → List EvidenceSpan → ℕ → List ProviderMaterial
  provider_materials run sources evidence now =
      let eligible = eligible_sources run now sources in
      map (material_of run eligible evidence) (provider_ids run eligible evidence)
