-- ===== src/Service/Outcomes.antt =====
-- The diagnostics of an outcome: `_outcome_reason_codes` and the functions after it, up to
-- `_required_coverage_complete`, of src/alr_tw/research/service.py, and `_apply_outcome_coverage`.
-- An outcome is a dictionary there; the keys that are read are the fields here.
use alr_tw.Prelude.{
  ℕ, String, Bool, true, false, not, ◌&&◌, ◌||◌, Option, none, some, List, [], ◌∷◌, ◌++◌, map, any,
  all, filter, contains, codes, upper, is_infix, begins_with, sorted_set, ltb, ◌==◌, string_eq,
  nat_eq, list_eq, if◌then◌else◌,
}
use alr_tw.Research.Kinds.{ObligationKind, kind_eq, kind_value}
use alr_tw.Research.Run.{ResearchRun}
use alr_tw.Research.Sufficiency.{is_required_kind, required_coverage}

pub record ProviderCall : Type 0 where
  pub provider_id : Option String
  pub status : Option String
  pub error_code : Option String

pub record OutcomeMetadata : Type 0 where
  pub status : Option String
  pub verified_source_count : ℕ
  pub failed_reason_codes : List String
  pub reason_codes : List String

pub record Outcome : Type 0 where
  pub status : String
  pub obligation : String
  pub warnings : List String
  pub error_code : Option String
  pub provider_calls : List ProviderCall
  pub metadata : Option OutcomeMetadata

-- `value.upper()`, as code points
unfoldable pub upper_codes : String → List ℕ
unfolding upper
upper_codes value = map upper (codes value)

-- `code in codes`, on upper-case codes
unfoldable pub is_among : List String → List ℕ → Bool
unfolding any upper_codes
is_among names code = any (λ name. upper_codes name == code) names

-- `any(marker in code for marker in markers)`
unfoldable pub has_marker : List String → List ℕ → Bool
unfolding any is_infix
has_marker markers code = any (λ marker. is_infix (codes marker) code) markers

abbrev is_set : String → Bool
is_set value = not (value == "")

-- `[value] if value else []`
abbrev given : Option String → List String
given none = []
given (some value) = if is_set value then value ∷ [] else []

abbrev is_text : Option String → String → Bool
is_text none name = false
is_text (some value) name = value == name

-- the warnings that are no degradation
unfoldable pub informational_codes : Option OutcomeMetadata → List String
informational_codes none = "EXACT_JUDGMENT_IDENTIFIER_WILL_USE_OFFICIAL_PROVIDER" ∷ []
informational_codes (some metadata) =
    if is_text metadata.status "not_found_in_scope"
    then "EXACT_JUDGMENT_IDENTIFIER_WILL_USE_OFFICIAL_PROVIDER"
      ∷ "COUNTER_AUTHORITY_NOT_FOUND_IN_SCOPE" ∷ []
    else "EXACT_JUDGMENT_IDENTIFIER_WILL_USE_OFFICIAL_PROVIDER" ∷ []

unfoldable pub verified_subset_failure_codes : Option OutcomeMetadata → List String
unfolding filter
verified_subset_failure_codes none = []
verified_subset_failure_codes (some metadata) =
    if ltb 0 metadata.verified_source_count then filter is_set metadata.failed_reason_codes else []

abbrev errors_of : List ProviderCall → List String
errors_of [] = []
errors_of (call ∷ calls) = given call.error_code ++ errors_of calls

-- the codes of an outcome: its warnings, its error and those of the calls
unfoldable pub raw_codes : Outcome → List String
unfolding filter informational_codes is_among
raw_codes outcome =
    filter (λ code. not (is_among (informational_codes outcome.metadata) (upper_codes code)))
      (filter is_set outcome.warnings)
    ++ (given outcome.error_code ++ errors_of outcome.provider_calls)

pub data Bucket : Type 0 where
  partial failure timeout : Bucket

abbrev pub partial_markers : List String
partial_markers =
    "INCOMPLETE" ∷ "NOT_IMPLEMENTED" ∷ "REQUIRE_EXACT_LOOKUP" ∷ "TRUNCATED" ∷ "PARTIAL" ∷ "MISSING"
    ∷ "UNRESOLVED" ∷ "DEGRADED" ∷ "SYNTHETIC_MODE" ∷ "UNSUPPORTED" ∷ "CANDIDATE_ONLY"
    ∷ "NOT_FOUND_IN_SCOPE" ∷ "NOT_FOUND" ∷ []

-- the branches of the loop over the codes
unfoldable pub bucket_of : Option OutcomeMetadata → String → Bucket
unfolding has_marker is_among upper_codes verified_subset_failure_codes
bucket_of metadata raw_code =
    let code = upper_codes raw_code in
    if has_marker ("TIMEOUT" ∷ "TIMED_OUT" ∷ []) code
    then Bucket.timeout
    else if is_among (verified_subset_failure_codes metadata) code
    then Bucket.partial
    else if is_among ("TLR_UNAVAILABLE" ∷ []) code
    then Bucket.partial
    else if is_among ("QUICK_JUDGMENT_RECALL_BOUNDED" ∷ []) code
    then Bucket.partial
    else if has_marker partial_markers code
    then Bucket.partial
    else Bucket.failure

abbrev pub is_partial : Bucket → Bool
is_partial Bucket.partial = true
is_partial _ = false

abbrev pub is_failure : Bucket → Bool
is_failure Bucket.failure = true
is_failure _ = false

abbrev pub is_timeout : Bucket → Bool
is_timeout Bucket.timeout = true
is_timeout _ = false

pub record ReasonCodes : Type 0 where
  pub partial : List String
  pub errors : List String
  pub timeouts : List String

unfoldable pub outcome_reason_codes : Outcome → ReasonCodes
unfolding raw_codes bucket_of filter sorted_set
outcome_reason_codes outcome =
    let found = raw_codes outcome in
    let bucket = bucket_of outcome.metadata in
    record {
      partial = sorted_set (filter (λ code. is_partial (bucket code)) found);
      errors = sorted_set (filter (λ code. is_failure (bucket code)) found);
      timeouts = sorted_set (filter (λ code. is_timeout (bucket code)) found);
    }

unfoldable pub is_retryable_outcome_code : String → Bool
unfolding has_marker upper_codes
is_retryable_outcome_code code =
    has_marker ("TIMEOUT" ∷ "TIMED_OUT" ∷ "UNAVAILABLE" ∷ "TEMPORARY" ∷ "RATE_LIMIT" ∷ "RETRY" ∷ [])
      (upper_codes code)

unfoldable pub is_retryable_derived_code : String → Bool
unfolding is_retryable_outcome_code
is_retryable_derived_code code =
    is_retryable_outcome_code code || has_marker ("INCOMPLETE" ∷ "DEGRADED" ∷ []) (upper_codes code)

unfoldable pub retryable_outcome_codes : Outcome → List String
unfolding outcome_reason_codes is_retryable_outcome_code filter sorted_set
retryable_outcome_codes outcome =
    let found = outcome_reason_codes outcome in
    sorted_set
      (filter is_retryable_outcome_code (found.partial ++ (found.errors ++ found.timeouts)))

-- the error codes of the calls that failed
unfoldable pub provider_error_codes : List ProviderCall → List String
provider_error_codes [] = []
provider_error_codes (call ∷ calls) =
    (if is_text call.status "error" then given call.error_code else [])
    ++ provider_error_codes calls

abbrev is_recall : Outcome → Bool
is_recall outcome = outcome.obligation == kind_value ObligationKind.judgment_recall

unfoldable pub is_tlr_code : List String → String → Bool
unfolding contains begins_with
is_tlr_code errors code =
    (code == "TLR_UNAVAILABLE") || (contains errors code && begins_with (codes "TLR_") (codes code))

-- `_filter_optional_tlr_retry_codes`
unfoldable pub filter_optional_tlr_retry_codes : Outcome → List String → Bool → List String
unfolding provider_error_codes is_tlr_code filter contains kind_value
filter_optional_tlr_retry_codes outcome retry_codes recall_complete =
    let errors = provider_error_codes outcome.provider_calls in
    if not (is_recall outcome)
    then retry_codes
    else if recall_complete
    then filter (λ code. not (contains errors code)) retry_codes
    else filter (λ code. not (is_tlr_code errors code)) retry_codes

-- `_nonblocking_recall_codes`
unfoldable pub nonblocking_recall_codes : Outcome → Bool → List String
unfolding provider_error_codes kind_value
nonblocking_recall_codes outcome recall_complete =
    if not recall_complete || not (is_recall outcome)
    then []
    else provider_error_codes outcome.provider_calls

-- the kinds that have a coverage flag
abbrev checked_kinds : List ObligationKind
checked_kinds =
    ObligationKind.law_research ∷ ObligationKind.judgment_recall
    ∷ ObligationKind.judgment_official_verification ∷ ObligationKind.constitutional_research
    ∷ ObligationKind.counter_authority ∷ ObligationKind.legal_time_context ∷ []

-- `_required_coverage_complete`: the kinds with no flag count as covered
unfoldable pub required_coverage_complete : ResearchRun → Bool
unfolding is_required_kind required_coverage all
required_coverage_complete run =
    all (λ kind. not (is_required_kind run kind) || required_coverage run.coverage kind)
      checked_kinds

abbrev is_answered : Option String → Bool
is_answered none = false
is_answered (some status) = (status == "found") || (status == "not_found") || (status == "partial")

abbrev pub selected_of : List ProviderCall → List String
selected_of [] = []
selected_of (call ∷ calls) = given call.provider_id ++ selected_of calls

abbrev pub successful_of : List ProviderCall → List String
successful_of [] = []
successful_of (call ∷ calls) =
    (if is_answered call.status then given call.provider_id else []) ++ successful_of calls

-- `set(xs) - set(ys)`
unfoldable pub minus : List String → List String → List String
unfolding filter contains
minus xs ys = filter (λ x. not (contains ys x)) xs

-- `_apply_outcome_coverage`
unfoldable pub apply_outcome_coverage :
    ResearchRun → Outcome → List String → List String → ResearchRun
unfolding outcome_reason_codes minus sorted_set
apply_outcome_coverage run outcome clear_codes demote_codes =
    let found = outcome_reason_codes outcome in
    let c = run.coverage in
    record run {
      coverage = record c {
        limitations = sorted_set (minus c.limitations clear_codes);
        partial_reason_codes =
            sorted_set
              (minus c.partial_reason_codes clear_codes ++ (found.partial ++ demote_codes));
        error_reason_codes =
            sorted_set (minus c.error_reason_codes clear_codes ++ minus found.errors demote_codes);
        timeout_reason_codes =
            sorted_set
              (minus c.timeout_reason_codes clear_codes ++ minus found.timeouts demote_codes);
        selected_provider_scope =
            sorted_set (c.selected_provider_scope ++ selected_of outcome.provider_calls);
        successful_provider_scope =
            sorted_set (c.successful_provider_scope ++ successful_of outcome.provider_calls);
      };
    }
