-- ===== src/Citations/Batch.antt =====
-- src/tw_legal_rag_mcp/verification/batch.py.
use alr_tw.Prelude.{
  ℕ, String, Bool, true, false, not, Option, none, some, List, [], ◌∷◌, map, filter, length, ◌==◌,
  string_eq, if◌then◌else◌,
}
use Prim.Native.Nat.{Ordering}
use Prim.Native.String.{compare}
use alr_tw.Citations.Policy.{CitationUse, default_source_policy_config}
use alr_tw.Citations.Validator.{Citation, Validation, first_set, is_allow_final, validate_citation}

-- `str(record.get("source_id") or record.get("citation_id") or "")`
unfoldable pub source_key : Citation → String
unfolding first_set
source_key record_ = first_set record_.source_id record_.citation_id

-- an entry of `deduped`
abbrev pub Entry : Type 0
Entry = String × Citation

abbrev pub key : Entry → String
key (source_id, _) = source_id

-- the loop over the records: the first record of each key, in their order
unfoldable pub dedup_records : List Citation → List Entry
unfolding source_key filter
dedup_records [] = []
dedup_records (record_ ∷ records) =
    let rest = dedup_records records in
    if source_key record_ == ""
    then rest
    else (source_key record_, record_)
      ∷ filter (λ entry. not (key entry == source_key record_)) rest

unfoldable pub insert_entry : Entry → List Entry → List Entry
insert_entry entry [] = entry ∷ []
insert_entry entry (other ∷ entries) = elim (compare (key entry) (key other)) [
  | Ordering.gt ↦ other ∷ insert_entry entry entries
  | _ ↦ entry ∷ other ∷ entries
]

-- `sorted(deduped.items())`; the keys are distinct, so that two records are never compared
unfoldable pub sort_entries : List Entry → List Entry
unfolding insert_entry
sort_entries [] = []
sort_entries (entry ∷ entries) = insert_entry entry (sort_entries entries)

abbrev pub or_key : Option String → String → Option String
or_key none source_id = some source_id
or_key (some id) source_id = some id

-- `{"citation_id": source_id, **record}`
unfoldable pub merged : Entry → Citation
merged entry = record (entry.1) { citation_id = or_key (entry.1).citation_id (entry.0) }

abbrev pub is_candidate_only : CitationUse → Bool
is_candidate_only CitationUse.allow_candidate_only = true
is_candidate_only _ = false

pub record SourceBatch : Type 0 where
  pub input_count : ℕ
  pub deduped_count : ℕ
  pub allow_final_count : ℕ
  pub candidate_only_count : ℕ
  pub final_source_ids : List String
  pub validations : List Validation

unfoldable pub validate_entry : Entry → Validation
unfolding merged
validate_entry entry = validate_citation (merged entry) true default_source_policy_config false

unfoldable pub run_source_verification_batch : List Citation → SourceBatch
unfolding filter
run_source_verification_batch records =
    let entries = sort_entries (dedup_records records) in
    let validations = map validate_entry entries in
    let final_source_ids =
      map (λ item. item.citation_id)
        (filter (λ item. is_allow_final item.citation_use) validations) in
    record {
      input_count = length records;
      deduped_count = length (dedup_records records);
      allow_final_count = length final_source_ids;
      candidate_only_count =
          length (filter (λ item. is_candidate_only item.citation_use) validations);
      final_source_ids = final_source_ids;
      validations = validations;
    }
