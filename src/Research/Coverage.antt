-- ===== src/Research/Coverage.antt =====
-- The coverage receipt of a research run: `CoverageState` of src/alr_tw/contracts/research.py.
use alr_tw.Prelude.{
  refl, Ensures, Ensures-then, returned, ℕ, String, Bool, true, false, ◌≡◌, inl, inr, Bool-cases,
  arith, not, ◌&&◌, ◌||◌, Option, none, some, List, [], ◌∷◌, Result, ok, ◌>>◌, raise_if, non_empty,
  any, all, contains, unique, codes, leb, ◌==◌, nat_eq, string_eq, if◌then◌else◌, length, ◌<>◌,
}

pub record CoverageState : Type 0 where
  pub law_checked : Bool
  pub judgment_checked : Bool
  pub constitutional_checked : Bool
  pub counter_authority_checked : Bool
  pub counter_authority_status : String
  pub counter_authority_coverage_complete : Option Bool
  pub counter_authority_relation_receipt_ids : List String
  pub time_context_checked : Bool
  pub limitations : List String
  pub coverage_complete : Bool
  pub absence_claim_allowed : Bool
  pub partial_reason_codes : List String
  pub error_reason_codes : List String
  pub timeout_reason_codes : List String
  pub selected_provider_scope : List String
  pub successful_provider_scope : List String
  pub bounded_time_scope : Option String
  pub bounded_query_scope : Option String
  pub snapshot_id : Option String
  pub receipt_reference : Option String

-- `str.isspace` on one code point
unfoldable pub is_space : ℕ → Bool
is_space c =
    (leb 9 c && leb c 13)
    || (leb 28 c && leb c 32)
    || (c == 0x85)
    || (c == 0xa0)
    || (c == 0x1680)
    || (leb 0x2000 c && leb c 0x200a)
    || (c == 0x2028)
    || (c == 0x2029)
    || (c == 0x202f)
    || (c == 0x205f)
    || (c == 0x3000)

-- `bool(text.strip())`
unfoldable has_text : String → Bool
unfolding is_space any
has_text text = any (λ c. not (is_space c)) (codes text)

-- `bool(scope and scope.strip())`
unfoldable pub scope_has_text : Option String → Bool
unfolding has_text
scope_has_text none = false
scope_has_text (some scope) = has_text scope

is_alnum : ℕ → Bool
is_alnum c = (leb b'A' c && leb c b'Z') || (leb b'a' c && leb c b'z') || (leb b'0' c && leb c b'9')

-- the character class `[A-Za-z0-9._:-]`
is_id_char : ℕ → Bool
unfolding is_alnum
is_id_char c = is_alnum c || (c == b'.') || (c == b'_') || (c == b':') || (c == b'-')

-- `^[A-Za-z0-9][A-Za-z0-9._:-]{0,127}$` under `fullmatch`
matches_id : List ℕ → Bool
unfolding is_id_char all
matches_id [] = false
matches_id (c ∷ cs) = is_alnum c && all is_id_char cs && leb (length cs) 127

unfoldable pub is_provider_scope_id : String → Bool
unfolding matches_id
is_provider_scope_id text = matches_id (codes text)

-- `selected.issubset(successful)`
unfoldable is_subset : List String → List String → Bool
unfolding all contains
is_subset xs ys = all (contains ys) xs

-- a field's values must be unique
check_unique : String → List String → Result (Unit {0})
unfolding unique
check_unique field values = raise_if (not (unique values)) (field <> " values must be unique")

check_gaps : CoverageState → Result (Unit {0})
check_gaps c =
    raise_if
      (c.absence_claim_allowed
        && (not c.coverage_complete
            || non_empty c.limitations
            || non_empty c.partial_reason_codes
            || non_empty c.error_reason_codes
            || non_empty c.timeout_reason_codes))
      "absence_claim_allowed requires complete coverage without gaps or errors"

-- the block under the second `if self.absence_claim_allowed`
check_absence : CoverageState → Result (Unit {0})
unfolding scope_has_text is_provider_scope_id is_subset
check_absence c = do
  raise_if (not c.counter_authority_checked)
      "absence_claim_allowed requires counter-authority coverage"
  raise_if (not (scope_has_text c.bounded_query_scope))
      "absence_claim_allowed requires bounded query scope"
  raise_if
      (not (
        all is_provider_scope_id c.selected_provider_scope
        && all is_provider_scope_id c.successful_provider_scope))
      "absence_claim_allowed requires valid provider scope identifiers"
  raise_if
      (not (
        non_empty c.selected_provider_scope
        && is_subset c.selected_provider_scope c.successful_provider_scope))
      "absence_claim_allowed requires successful selected provider scope"

-- `CoverageState.validate_coverage_receipt`
unfoldable pub validate_coverage_receipt : CoverageState → Result CoverageState
unfolding check_unique check_gaps check_absence
validate_coverage_receipt c = do
  check_unique "partial_reason_codes" c.partial_reason_codes
  check_unique "error_reason_codes" c.error_reason_codes
  check_unique "timeout_reason_codes" c.timeout_reason_codes
  check_unique "selected_provider_scope" c.selected_provider_scope
  check_unique "successful_provider_scope" c.successful_provider_scope
  check_unique "counter_authority_relation_receipt_ids" c.counter_authority_relation_receipt_ids
  check_gaps c
  if c.absence_claim_allowed then check_absence c else ok tt
  ok c

-- no gap of any kind
abbrev pub is_without_gaps : CoverageState → Bool
is_without_gaps c =
    not (non_empty c.limitations)
    && not (non_empty c.partial_reason_codes)
    && not (non_empty c.error_reason_codes)
    && not (non_empty c.timeout_reason_codes)

-- the lists that must not repeat a value
abbrev pub is_without_repeats : CoverageState → Bool
is_without_repeats c =
    unique c.partial_reason_codes
    && unique c.error_reason_codes
    && unique c.timeout_reason_codes
    && unique c.selected_provider_scope
    && unique c.successful_provider_scope
    && unique c.counter_authority_relation_receipt_ids

-- what an absence claim needs
abbrev pub is_bounded : CoverageState → Bool
is_bounded c =
    c.counter_authority_checked
    && scope_has_text c.bounded_query_scope
    && non_empty c.selected_provider_scope
    && all (contains c.successful_provider_scope) c.selected_provider_scope

abbrev pub are_scopes_valid : CoverageState → Bool
are_scopes_valid c =
    all is_provider_scope_id c.selected_provider_scope
    && all is_provider_scope_id c.successful_provider_scope

pub validated :
    (c : CoverageState)
    → is_without_repeats c ≡ true
    → are_scopes_valid c ≡ true
    → (c.absence_claim_allowed ≡ true
        → (c.coverage_complete && is_without_gaps c && is_bounded c) ≡ true)
    → validate_coverage_receipt c ≡ ok c
unfolding validate_coverage_receipt check_unique check_gaps check_absence is_subset
validated c repeats scopes h = elim (Bool-cases c.absence_claim_allowed) [
  | inl q ↦ (let g = h q in ground arith)
  | inr q ↦ ground arith
]

-- A receipt that is accepted is not changed.
pub accepted : (c : CoverageState) → Ensures (λ c'. c' ≡ c) (validate_coverage_receipt c)
unfolding validate_coverage_receipt
accepted c = search (Ensures-then, same) depth 12
  where
    same : Ensures (λ c'. c' ≡ c) (ok c)
    same = returned refl
