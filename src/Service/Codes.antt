-- ===== src/Service/Codes.antt =====
-- Which codes of an outcome are reported where, and which are to be retried:
-- `_outcome_reason_codes` and `_retryable_outcome_codes` of src/alr_tw/research/service.py.
use alr_tw.Prelude.{
  String, Bool, true, ◌≡◌, refl, ◌↔◌, inl, inr, List, ◌++◌, Memᴰ, filter, in-filter, filter-in,
  mem-sorted_set, sorted_set, mem-append_left, mem-append_cases, mem-append_right,
}
use alr_tw.Service.Outcomes.{
  Outcome, Bucket, ReasonCodes, raw_codes, bucket_of, is_partial, is_failure, is_timeout,
  outcome_reason_codes, retryable_outcome_codes, is_retryable_outcome_code,
}

abbrev pub listed : ReasonCodes → Bucket → List String
listed reasons Bucket.partial = reasons.partial
listed reasons Bucket.failure = reasons.errors
listed reasons Bucket.timeout = reasons.timeouts

abbrev is_bucket : Bucket → Bucket → Bool
is_bucket Bucket.partial found = is_partial found
is_bucket Bucket.failure found = is_failure found
is_bucket Bucket.timeout found = is_timeout found

is_bucket_iff : (bucket found : Bucket) → (is_bucket bucket found ≡ true) ↔ (found ≡ bucket)
is_bucket_iff Bucket.partial Bucket.partial = ((λ e. refl), (λ e. refl))
is_bucket_iff Bucket.partial Bucket.failure = ((λ e. absurd (cc)), (λ e. absurd (cc)))
is_bucket_iff Bucket.partial Bucket.timeout = ((λ e. absurd (cc)), (λ e. absurd (cc)))
is_bucket_iff Bucket.failure Bucket.partial = ((λ e. absurd (cc)), (λ e. absurd (cc)))
is_bucket_iff Bucket.failure Bucket.failure = ((λ e. refl), (λ e. refl))
is_bucket_iff Bucket.failure Bucket.timeout = ((λ e. absurd (cc)), (λ e. absurd (cc)))
is_bucket_iff Bucket.timeout Bucket.partial = ((λ e. absurd (cc)), (λ e. absurd (cc)))
is_bucket_iff Bucket.timeout Bucket.failure = ((λ e. absurd (cc)), (λ e. absurd (cc)))
is_bucket_iff Bucket.timeout Bucket.timeout = ((λ e. refl), (λ e. refl))

-- `sorted({code for code in codes if p(code)})`
mem-selected :
    (p : String → Bool) (codes : List String) (code : String)
    → Memᴰ code (sorted_set (filter p codes)) ↔ (Memᴰ code codes × (p code ≡ true))
mem-selected p codes code = (
  (λ i. in-filter p codes code ((mem-sorted_set (filter p codes) code).0 i)),
  (λ (i, h). (mem-sorted_set (filter p codes) code).1 (filter-in p codes code i h)),
)

module _ (outcome : Outcome) (code : String) where
  in_bucket :
      (bucket : Bucket)
      → Memᴰ code (listed (outcome_reason_codes outcome) bucket) ↔ (
          Memᴰ code (raw_codes outcome)
          × (is_bucket bucket (bucket_of outcome.metadata code) ≡ true))
  unfolding outcome_reason_codes
  in_bucket Bucket.partial = mem-selected _ (raw_codes outcome) code
  in_bucket Bucket.failure = mem-selected _ (raw_codes outcome) code
  in_bucket Bucket.timeout = mem-selected _ (raw_codes outcome) code

  by_bucket :
      (bucket : Bucket)
      → Memᴰ code (listed (outcome_reason_codes outcome) bucket)
        ↔ (Memᴰ code (raw_codes outcome) × (bucket_of outcome.metadata code ≡ bucket))
  by_bucket bucket = (
    (λ i. let (j, h) = (in_bucket bucket).0 i in (j, (is_bucket_iff bucket _).0 h)),
    (λ (j, h). (in_bucket bucket).1 (j, (is_bucket_iff bucket _).1 h)),
  )

  collected :
      Memᴰ code (
        (outcome_reason_codes outcome).partial
        ++ ((outcome_reason_codes outcome).errors ++ (outcome_reason_codes outcome).timeouts))
      ↔ Memᴰ code (raw_codes outcome)
  collected = (
    (λ i. elim (mem-append_cases code _ _ i) [
      | inl j ↦ ((by_bucket Bucket.partial).0 j).0
      | inr j ↦ elim (mem-append_cases code _ _ j) [
        | inl k ↦ ((by_bucket Bucket.failure).0 k).0
        | inr k ↦ ((by_bucket Bucket.timeout).0 k).0
      ]
    ]),
    (λ i. in_some (bucket_of outcome.metadata code) i refl),
  )
    where
      in_some :
          (bucket : Bucket)
          → Memᴰ code (raw_codes outcome)
          → bucket_of outcome.metadata code ≡ bucket
          → Memᴰ code (
              (outcome_reason_codes outcome).partial
              ++ ((outcome_reason_codes outcome).errors ++ (outcome_reason_codes outcome).timeouts))
      in_some Bucket.partial i e = mem-append_left code _ _ ((by_bucket Bucket.partial).1 (i, e))
      in_some Bucket.failure i e =
          mem-append_right code _ _ (mem-append_left code _ _ ((by_bucket Bucket.failure).1 (i, e)))
      in_some Bucket.timeout i e =
          mem-append_right code _ _
            (mem-append_right code _ _ ((by_bucket Bucket.timeout).1 (i, e)))

  pub codes_iff :
      ((bucket : Bucket)
        → Memᴰ code (listed (outcome_reason_codes outcome) bucket)
          ↔ (Memᴰ code (raw_codes outcome) × (bucket_of outcome.metadata code ≡ bucket)))
      × (Memᴰ code (retryable_outcome_codes outcome)
          ↔ (Memᴰ code (raw_codes outcome) × (is_retryable_outcome_code code ≡ true)))
  unfolding retryable_outcome_codes
  codes_iff =
      let (there, back) =
        mem-selected is_retryable_outcome_code
          ((outcome_reason_codes outcome).partial
            ++ ((outcome_reason_codes outcome).errors ++ (outcome_reason_codes outcome).timeouts))
          code in
      (
        by_bucket,
        ((λ i. let (j, h) = there i in (collected.0 j, h)), (λ (i, h). back (collected.1 i, h))),
      )
