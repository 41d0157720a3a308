-- ===== src/Tests/ReceiptExamples.antt =====
-- The theorems on sources and on the receipts of a run, at one judgment with one span.
use alr_tw.Prelude.{
  String, true, ◌≡◌, ◌≢◌, ◌↔◌, refl, none, some, List, [], ◌∷◌, Memᴰ, arith, ok, unique, string_eq,
  sorted_set, filter, is_infix, begins_with,
}
use alr_tw.Citations.Policy.{SourceTier}
use alr_tw.Snapshot.{
  ProviderSnapshotReceipt, is_digest, check_expiry, is_opaque_id, validate_receipt,
  has_layout_marker,
}
use alr_tw.Research.Coverage.{is_provider_scope_id}
use alr_tw.Sources.{
  SourceRecord, EvidenceSpan, EvidenceSectionType, MaterialType, TrustStatus, SpanArguments,
  hash_text, verify_text, construct_span, from_exact_text, verify_text_iff,
  from_exact_text-verified,
}
use alr_tw.RunReceipts.{
  ProviderMaterial, Payload, provider_materials, material_of, eligible_sources, provider_ids,
  last_of_each, is_eligible, sources_of, evidence_of, backs, earliest, seal_source, seal_evidence,
  sorted_by,
}
use alr_tw.RunReceipts.Issue.{
  issue_receipts, receipt_for, fresh_receipt, receipt_providers, material_providers,
  issue_run_snapshot_receipts, check_run_snapshot_receipts,
}
use alr_tw.RunReceipts.Binding.{issued_valid}
use alr_tw.RunReceipts.Checks.{IsBoundTo, valid_binding}
use alr_tw.Tests.Samples.{sample_run, instant}

-- stand-ins for SHA-256, of the right length
abbrev pub zeros : String → String
zeros text = "0000000000000000000000000000000000000000000000000000000000000000"

abbrev pub sealed : Payload → String
sealed payload = "0000000000000000000000000000000000000000000000000000000000000000"

abbrev pub sample_source : SourceRecord
sample_source = record {
  source_id = "src-1";
  source_key = "key-1";
  source_version_id = "v1";
  material_type = MaterialType.judgment;
  provider_id = "judgments";
  source_tier = SourceTier.official;
  trust_status = TrustStatus.evidence_eligible;
  official_identifier = some "JID-1";
  official_url = none;
  citation = "113-1";
  title = none;
  fetched_at = instant 1;
  verified_at = some (instant 2);
  expires_at = instant 90;
  content_hash = hash_text zeros "";
  normalized_content_hash = hash_text zeros "";
  normalized_text = "text";
}

abbrev span_arguments : SpanArguments
span_arguments = record {
  evidence_id = "ev-1";
  source_id = "src-1";
  section_id = "s-1";
  section_type = EvidenceSectionType.court_reasoning;
  exact_text = "text";
  start_offset = some 0;
  end_offset = some 4;
  eligible_for_claim_support = true;
}

abbrev pub sample_span : EvidenceSpan
sample_span = record {
  evidence_id = "ev-1";
  source_id = "src-1";
  section_id = "s-1";
  section_type = EvidenceSectionType.court_reasoning;
  exact_text = "text";
  text_hash = hash_text zeros "text";
  start_offset = some 0;
  end_offset = some 4;
  eligible_for_claim_support = true;
}

sample_constructed : construct_span zeros sample_span ≡ ok sample_span
unfolding construct_span verify_text hash_text is_digest begins_with
sample_constructed = refl

verify_text_iff_example :
    (verify_text zeros sample_span sample_span.exact_text ≡ true)
    × ((verify_text zeros sample_span "other" ≡ true)
        ↔ (hash_text zeros "other" ≡ hash_text zeros sample_span.exact_text))
verify_text_iff_example = verify_text_iff zeros sample_span sample_span "other" sample_constructed

ev_given : ◌≢◌ {A = String} "ev-1" ""
ev_given e = ground (arith, (string_eq.test_iff "ev-1" "").1 e)

src_given : ◌≢◌ {A = String} "src-1" ""
src_given e = ground (arith, (string_eq.test_iff "src-1" "").1 e)

section_given : ◌≢◌ {A = String} "s-1" ""
section_given e = ground (arith, (string_eq.test_iff "s-1" "").1 e)

text_given : ◌≢◌ {A = String} "text" ""
text_given e = ground (arith, (string_eq.test_iff "text" "").1 e)

sample_digest : is_digest (hash_text zeros "text") ≡ true
unfolding is_digest hash_text begins_with
sample_digest = refl

from_exact_text-verified_example :
    (span : EvidenceSpan) × (from_exact_text zeros span_arguments ≡ ok span)
    × (span.exact_text ≡ "text")
    × (verify_text zeros span "text" ≡ true)
from_exact_text-verified_example =
    from_exact_text-verified zeros span_arguments (ev_given, src_given, section_given, text_given)
      sample_digest (omega arith)

abbrev issued : List ProviderSnapshotReceipt
issued =
    fresh_receipt 20
      (material_of sealed zeros sample_run (sample_source ∷ []) (sample_span ∷ []) "judgments")
    ∷ []

sample_issued :
    issue_run_snapshot_receipts sealed zeros sample_run
      (sample_source ∷ [])
      (sample_span ∷ [])
      []
      20
    ≡ ok issued
unfolding issue_run_snapshot_receipts issue_receipts provider_materials provider_ids sorted_set
    filter eligible_sources last_of_each is_eligible sources_of evidence_of backs receipt_for
    validate_receipt is_opaque_id fresh_receipt material_of is_infix has_layout_marker
    is_provider_scope_id is_digest check_expiry begins_with earliest seal_source seal_evidence
    sorted_by
sample_issued = refl

issued_valid_example :
    (check_run_snapshot_receipts sealed zeros sample_run
      (sample_source ∷ [])
      (sample_span ∷ [])
      issued
      20).valid
    ≡ true
issued_valid_example =
    issued_valid sealed zeros sample_run (sample_source ∷ []) (sample_span ∷ []) [] issued 20
      sample_issued

sample_valid :
    (check_run_snapshot_receipts sealed zeros sample_run
      (sample_source ∷ [])
      (sample_span ∷ [])
      issued
      20).valid
    ≡ true
sample_valid =
    issued_valid sealed zeros sample_run (sample_source ∷ []) (sample_span ∷ []) [] issued 20
      sample_issued

valid_binding_example :
    (unique (receipt_providers issued) ≡ true)
    × ((r : ProviderSnapshotReceipt)
        → Memᴰ r issued
        → Memᴰ r.provider_id (
            material_providers (
              provider_materials sealed zeros sample_run
                (sample_source ∷ [])
                (sample_span ∷ [])
                20)))
    × ((m : ProviderMaterial)
        → Memᴰ m
            (provider_materials sealed zeros sample_run (sample_source ∷ []) (sample_span ∷ []) 20)
        → (r : ProviderSnapshotReceipt) × Memᴰ r issued × IsBoundTo 20 m r)
valid_binding_example =
    valid_binding sealed zeros sample_run (sample_source ∷ []) (sample_span ∷ []) issued 20
      sample_valid
