-- ===== src/Citations/Batches.antt =====
-- What a batch of source records reports.
use alr_tw.Prelude.{
  ◌≤◌, ◌+◌, String, Bool, true, false, not, ◌≡◌, ◌≢◌, refl, sym, ◌∙◌, ap, subst, Option, none, some,
  List, [], ◌∷◌, map, filter, length, Memᴰ, arith, ◌==◌, string_eq, if◌then◌else◌, in-filter,
  map-mem,
}
use Prim.Native.Nat.{Ordering}
use Prim.Native.String.{compare}
use alr_tw.Citations.Policy.{
  CitationUse, evaluate_citation_use, evaluate_verified_cache, classify_citation_use,
  default_source_policy_config,
}
use alr_tw.Citations.Validator.{
  Citation, Validation, first_set, source_from_mapping, is_allow_final, validate_citation,
}
use alr_tw.Citations.Finality.{governed_final}
use alr_tw.Citations.Batch.{
  or_key, Entry, key, source_key, dedup_records, insert_entry, sort_entries, merged,
  is_candidate_only, validate_entry, run_source_verification_batch,
}

length-insert_entry : (e : Entry) (es : List Entry) → length (insert_entry e es) ≡ 1 + length es
unfolding insert_entry
length-insert_entry e [] = omega arith
length-insert_entry e (x ∷ es) = ground (arith, length-insert_entry e es)

length-sort_entries : (es : List Entry) → length (sort_entries es) ≡ length es
unfolding sort_entries
length-sort_entries [] = omega arith
length-sort_entries (e ∷ es) =
    omega (arith, length-insert_entry e (sort_entries es), length-sort_entries es)

mem-insert_entry :
    (e : Entry) (es : List Entry) (a : Entry) → Memᴰ a (insert_entry e es) → Memᴰ a (e ∷ es)
unfolding insert_entry
mem-insert_entry e [] a i = i
mem-insert_entry e (x ∷ es) a i = by_order (compare (key e) (key x)) i (mem-insert_entry e es a)
  where
    by_order :
        (o : Ordering)
        → Memᴰ a (elim o [ Ordering.gt ↦ x ∷ insert_entry e es | _ ↦ e ∷ x ∷ es ])
        → (Memᴰ a (insert_entry e es) → Memᴰ a (e ∷ es))
        → Memᴰ a (e ∷ x ∷ es)
    by_order Ordering.gt (Memᴰ.head q) rest = Memᴰ.tail (Memᴰ.head q)
    by_order Ordering.gt (Memᴰ.tail i) rest = swap (rest i)
      where
        swap : Memᴰ a (e ∷ es) → Memᴰ a (e ∷ x ∷ es)
        swap (Memᴰ.head q) = Memᴰ.head q
        swap (Memᴰ.tail i) = Memᴰ.tail (Memᴰ.tail i)
    by_order Ordering.eq i rest = i
    by_order Ordering.lt i rest = i

mem-sort_entries : (es : List Entry) (a : Entry) → Memᴰ a (sort_entries es) → Memᴰ a es
unfolding sort_entries
mem-sort_entries [] a i = i
mem-sort_entries (e ∷ es) a i =
    step (mem-insert_entry e (sort_entries es) a i) (mem-sort_entries es a)
  where
    step : Memᴰ a (e ∷ sort_entries es) → (Memᴰ a (sort_entries es) → Memᴰ a es) → Memᴰ a (e ∷ es)
    step (Memᴰ.head q) rest = Memᴰ.head q
    step (Memᴰ.tail i) rest = Memᴰ.tail (rest i)

-- An entry is a record of the input under its own key.
abbrev IsEntryOf : List Citation → Entry → Type 0
IsEntryOf records entry =
    (r : Citation) × Memᴰ r records × (entry ≡ (source_key r, r)) × (source_key r ≢ "")

entry_of :
    (records : List Citation) (a : Entry) → Memᴰ a (dedup_records records) → IsEntryOf records a
unfolding dedup_records
entry_of [] a i = elim i [ ]
entry_of (x ∷ records) a i = by_key (source_key x == "") refl i (entry_of records a)
  where
    older : IsEntryOf records a → IsEntryOf (x ∷ records) a
    older (r, j, q, n) = (r, Memᴰ.tail j, q, n)

    by_key :
        (b : Bool)
        → (source_key x == "") ≡ b
        → Memᴰ a (
            if b
            then dedup_records records
            else (source_key x, x)
              ∷ filter (λ entry. not (key entry == source_key x)) (dedup_records records))
        → (Memᴰ a (dedup_records records) → IsEntryOf records a)
        → IsEntryOf (x ∷ records) a
    by_key true q i rest = older (rest i)
    by_key false q (Memᴰ.head e) rest =
        (x, Memᴰ.head refl, e, λ n. ground (arith, q, (string_eq.test_iff (source_key x) "").1 n))
    by_key false q (Memᴰ.tail i) rest = let (j, _) = in-filter _ _ _ i in older (rest j)

length-filter_le : {A : Type 0} (p : A → Bool) (xs : List A) → length (filter p xs) ≤ length xs
unfolding filter
length-filter_le p [] = omega arith
length-filter_le p (x ∷ xs) = ground (arith, length-filter_le p xs)

length-dedup_records : (records : List Citation) → length (dedup_records records) ≤ length records
unfolding dedup_records
length-dedup_records [] = omega arith
length-dedup_records (r ∷ records) = ground (
  arith,
  length-dedup_records records,
  length-filter_le (λ entry. not (key entry == source_key r)) (dedup_records records),
)

length-map : {A B : Type 0} (f : A → B) (xs : List A) → length (map f xs) ≡ length xs
length-map f [] = omega arith
length-map f (x ∷ xs) = omega (arith, length-map f xs)

final_or_candidate :
    (vs : List Validation)
    → length (filter (λ item. is_allow_final item.citation_use) vs)
        + length (filter (λ item. is_candidate_only item.citation_use) vs)
      ≤ length vs
unfolding filter
final_or_candidate [] = omega arith
final_or_candidate (v ∷ vs) = ground (arith, final_or_candidate vs)

pub batch_counts :
    (records : List Citation)
    → (length (run_source_verification_batch records).validations
        ≡ (run_source_verification_batch records).deduped_count)
      × ((run_source_verification_batch records).deduped_count
          ≤ (run_source_verification_batch records).input_count)
      × ((run_source_verification_batch records).allow_final_count
            + (run_source_verification_batch records).candidate_only_count
          ≤ (run_source_verification_batch records).deduped_count)
unfolding run_source_verification_batch
batch_counts records =
    let entries = sort_entries (dedup_records records) in
    let vs = map validate_entry entries in
    let finals = filter (λ item. is_allow_final item.citation_use) vs in
    let all : length vs ≡ length (dedup_records records) =
      length-map validate_entry entries ∙ length-sort_entries (dedup_records records) in
    (
      all,
      length-dedup_records records,
      omega (arith, all, final_or_candidate vs, length-map (λ item. item.citation_id) finals),
    )

merged_id :
    (r : Citation)
    → first_set (merged (source_key r, r)).citation_id (merged (source_key r, r)).source_id
      ≡ first_set r.citation_id r.source_id
unfolding merged source_key first_set
merged_id r = by_id r.citation_id r.source_id
  where
    by_id :
        (id source : Option String)
        → first_set (or_key id (first_set source id)) source ≡ first_set id source
    by_id (some id) source = refl
    by_id none none = ground arith
    by_id none (some source) = ground (arith, string_eq.test_iff source "")

merged_use :
    (entry : Entry)
    → classify_citation_use (source_from_mapping (merged entry)) default_source_policy_config
      ≡ classify_citation_use (source_from_mapping (entry.1)) default_source_policy_config
unfolding classify_citation_use evaluate_citation_use evaluate_verified_cache source_from_mapping
    merged
merged_use entry = refl

validated_id :
    (r : Citation)
    → (validate_entry (source_key r, r)).citation_id ≡ first_set r.citation_id r.source_id
unfolding validate_entry validate_citation
validated_id r = merged_id r

validated_use :
    (entry : Entry)
    → is_allow_final (validate_entry entry).citation_use ≡ true
    → classify_citation_use (source_from_mapping (entry.1)) default_source_policy_config
      ≡ CitationUse.allow_final
unfolding validate_entry validate_citation
validated_use entry h =
    sym (merged_use entry)
    ∙ ((governed_final false (source_from_mapping (merged entry)) default_source_policy_config).0
        h).0

-- Every id that a batch reports as final is that of an input record with a key, whose source may be
-- cited as final.
pub batch_final_ids :
    (records : List Citation) (id : String)
    → Memᴰ id (run_source_verification_batch records).final_source_ids
    → (r : Citation) × Memᴰ r records
      × (source_key r ≢ "")
      × (id ≡ first_set r.citation_id r.source_id)
      × (classify_citation_use (source_from_mapping r) default_source_policy_config
          ≡ CitationUse.allow_final)
unfolding run_source_verification_batch
batch_final_ids records id i =
    let (v, in_finals, same_id) = map-mem (λ item. item.citation_id) id _ i in
    let (in_all, final) = in-filter (λ item. is_allow_final item.citation_use) _ v in_finals in
    let (entry, in_entries, validated) = map-mem validate_entry v _ in_all in
    let (r, in_records, entered, keyed) =
      entry_of records entry (mem-sort_entries (dedup_records records) entry in_entries) in
    let is_v : v ≡ validate_entry (source_key r, r) = validated ∙ ap validate_entry entered in
    (
      r,
      in_records,
      keyed,
      same_id ∙ ap (λ x. x.citation_id) is_v ∙ validated_id r,
      validated_use (source_key r, r)
          (subst (λ x. is_allow_final x.citation_use ≡ true) is_v final),
    )
