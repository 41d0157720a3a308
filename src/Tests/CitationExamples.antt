-- ===== src/Tests/CitationExamples.antt =====
-- The citation theorems at an official source and a cached judgment.
use alr_tw.Prelude.{
  ◌≤◌, ◌+◌, String, true, false, ◌≡◌, ◌≢◌, ◌↔◌, ◌⊎◌, refl, none, some, [], ◌∷◌, Memᴰ, arith,
  string_eq, length,
}
use alr_tw.Citations.Policy.{
  CitationUse, IdentifierResolution, SourcePolicyConfig, default_source_policy_config,
  evaluate_citation_use, by_tier, classify_citation_use,
}
use alr_tw.Citations.Resolver.{IdentifierResolver, resolve_identifier_citation}
use alr_tw.Citations.Validator.{
  Citation, first_set, source_from_mapping, validate_citation, validate_untrusted_citation,
  is_final_citation,
}
use alr_tw.Citations.Answer.{FinalAction, evaluate_trust_gate}
use alr_tw.Citations.Batch.{
  source_key, sort_entries, dedup_records, validate_entry, run_source_verification_batch,
}
use alr_tw.Citations.Finality.{
  final_citation_iff, untrusted_never_final, IsResolved, IsResolved-final_iff,
}
use alr_tw.Citations.Gate.{trust_gate_refuses}
use alr_tw.Citations.Batches.{batch_counts, batch_final_ids}
use alr_tw.Tests.Samples.{cited, cached_judgment}

abbrev accepting : SourcePolicyConfig
accepting = record { identifier_backed_verified_cache = true }

final_citation_iff_example :
    (is_final_citation (validate_citation cited true accepting true) ≡ true) ↔ (
      (first_set cited.citation_id cited.source_id ≢ "")
      × (classify_citation_use (source_from_mapping cited) accepting ≡ CitationUse.allow_final)
      × ((true ≡ false)
          ⊎ ((source_from_mapping cited).identifier_resolution ≡ IdentifierResolution.hash_match)))
final_citation_iff_example = final_citation_iff cited true accepting true

untrusted_never_final_example :
    (is_final_citation (validate_untrusted_citation cited true accepting) ≡ false)
    × ((validate_untrusted_citation cited true accepting).citation_use ≢ CitationUse.allow_final)
untrusted_never_final_example = untrusted_never_final cited true accepting

-- a stand-in for SHA-256
abbrev fixed_sha256 : String → String
fixed_sha256 text = "abc"

abbrev archive : IdentifierResolver
archive identifier =
    some (record { identifier = identifier; canonical_text = "judgment text"; source_label = none })

not_blank : ◌≢◌ {A = String} "JID-1" ""
not_blank e = ground (arith, (string_eq.test_iff "JID-1" "").1 e)

IsResolved-final_iff_example :
    (classify_citation_use
        (resolve_identifier_citation fixed_sha256 cached_judgment archive)
        accepting
      ≡ CitationUse.allow_final)
    ↔ IsResolved fixed_sha256 cached_judgment accepting (archive "JID-1")
IsResolved-final_iff_example =
    IsResolved-final_iff fixed_sha256 cached_judgment accepting "JID-1" archive refl refl refl
      not_blank

trust_gate_refuses_example :
    ((evaluate_trust_gate "an answer" (cited ∷ []) []).safe_to_present ≡ false)
    × ((evaluate_trust_gate "an answer" (cited ∷ []) []).recommended_action ≡ FinalAction.refuse)
    × Memᴰ "NO_FINAL_CITATION" (evaluate_trust_gate "an answer" (cited ∷ []) []).failure_reasons
trust_gate_refuses_example = trust_gate_refuses "an answer" (cited ∷ []) []

batch_counts_example :
    (length (run_source_verification_batch (cited ∷ cited ∷ [])).validations
      ≡ (run_source_verification_batch (cited ∷ cited ∷ [])).deduped_count)
    × ((run_source_verification_batch (cited ∷ cited ∷ [])).deduped_count
        ≤ (run_source_verification_batch (cited ∷ cited ∷ [])).input_count)
    × ((run_source_verification_batch (cited ∷ cited ∷ [])).allow_final_count
          + (run_source_verification_batch (cited ∷ cited ∷ [])).candidate_only_count
        ≤ (run_source_verification_batch (cited ∷ cited ∷ [])).deduped_count)
batch_counts_example = batch_counts (cited ∷ cited ∷ [])

sample_final : Memᴰ "c-1" (run_source_verification_batch (cited ∷ [])).final_source_ids
unfolding run_source_verification_batch sort_entries dedup_records validate_entry validate_citation
    evaluate_citation_use by_tier
sample_final = Memᴰ.head refl

batch_final_ids_example :
    (r : Citation) × Memᴰ r (cited ∷ [])
    × (source_key r ≢ "")
    × ("c-1" ≡ first_set r.citation_id r.source_id)
    × (classify_citation_use (source_from_mapping r) default_source_policy_config
        ≡ CitationUse.allow_final)
batch_final_ids_example = batch_final_ids (cited ∷ []) "c-1" sample_final
