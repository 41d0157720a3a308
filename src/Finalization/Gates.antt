-- ===== src/Finalization/Gates.antt =====
-- Blockers, the two claim gates and the evidence summary, with their validators.
use alr_tw.Prelude.{
  ℕ, String, Bool, true, not, ◌&&◌, ◌≡◌, ◌↔◌, Option, none, some, List, arith, Result, ok, ◌>>◌,
  raise_if, Eq, ◌==◌, nat_eq, string_eq, bool_eq, option_eq, list_eq, leb, ltb, length, take,
  unique, sorted, min, codes,
}
use alr_tw.Research.Coverage.{scope_has_text, is_provider_scope_id}

pub record FinalizationBlocker : Type 0 where
  pub code : String
  pub message : String
  pub retryable : Bool

pub record CounterAuthorityGate : Type 0 where
  pub required : Bool
  pub coverage_complete : Bool
  pub consensus_claim_requested : Bool
  pub consensus_claim_allowed : Bool
  pub limitations : List String

pub record AbsenceClaimGate : Type 0 where
  pub requested : Bool
  pub allowed : Bool
  pub scope : Option String
  pub reason_codes : List String

pub record EvidenceAuthorizationSummary : Type 0 where
  pub authorized_count : ℕ
  pub evidence_ids_digest : String
  pub preview_count : ℕ
  pub preview_complete : Bool

-- the constraints on a blocker's fields
unfoldable pub check_blocker : FinalizationBlocker → Result FinalizationBlocker
unfolding is_provider_scope_id
check_blocker b = do
  raise_if (not (is_provider_scope_id b.code)) "code does not match its pattern"
  raise_if (not (leb 1 (length (codes b.message)) && leb (length (codes b.message)) 500))
      "message must have 1 to 500 characters"
  ok b

-- `CounterAuthorityGate.reject_unverifiable_consensus`
unfoldable pub check_counter_gate : CounterAuthorityGate → Result CounterAuthorityGate
check_counter_gate g = do
  raise_if (ltb 32 (length g.limitations)) "limitations has at most 32 items"
  raise_if g.consensus_claim_allowed
      "Current finalization cannot authorize an unqualified consensus claim"
  ok g

abbrev scope_fits : Option String → Bool
scope_fits none = true
scope_fits (some scope) = leb (length (codes scope)) 500

-- `AbsenceClaimGate.require_bounded_scope_when_allowed`
unfoldable pub check_absence_gate : AbsenceClaimGate → Result AbsenceClaimGate
unfolding scope_has_text
check_absence_gate g = do
  raise_if (not (scope_fits g.scope)) "scope has at most 500 characters"
  raise_if (ltb 32 (length g.reason_codes)) "reason_codes has at most 32 items"
  raise_if (g.allowed && not (scope_has_text g.scope))
      "an allowed absence claim requires a bounded scope"
  ok g

abbrev pub max_finalization_evidence_preview : ℕ
max_finalization_evidence_preview = 512

-- `EvidenceAuthorizationSummary.validate_preview`
unfoldable pub check_summary : EvidenceAuthorizationSummary → Result EvidenceAuthorizationSummary
check_summary s = do
  raise_if (ltb s.authorized_count s.preview_count)
      "evidence preview cannot exceed the authorized set"
  raise_if (not (s.preview_complete == (s.preview_count == s.authorized_count)))
      "evidence preview completeness does not match its counts"
  ok s

-- the first 512 ids in order
unfoldable pub evidence_preview : List String → List String
unfolding sorted
evidence_preview values = take max_finalization_evidence_preview (sorted values)

-- `digest` is the SHA-256 of the JSON text of the sorted ids
module _ (digest : List String → String) where
  unfoldable pub evidence_summary : List String → EvidenceAuthorizationSummary
  unfolding sorted
  evidence_summary values =
      let canonical = sorted values in
      let preview_count = min (length canonical) max_finalization_evidence_preview in
      record {
        authorized_count = length canonical;
        evidence_ids_digest = digest canonical;
        preview_count = preview_count;
        preview_complete = preview_count == length canonical;
      }

  -- `summarize_evidence_authorization`
  unfoldable pub summarize_evidence_authorization :
      List String → Result EvidenceAuthorizationSummary
  unfolding evidence_summary check_summary unique
  summarize_evidence_authorization values = do
    raise_if (not (unique values)) "allowed_evidence_ids values must be unique"
    check_summary (evidence_summary values)

abbrev counter_gate_beq : CounterAuthorityGate → CounterAuthorityGate → Bool
counter_gate_beq a b =
    (a.required == b.required)
    && (a.coverage_complete == b.coverage_complete)
    && (a.consensus_claim_requested == b.consensus_claim_requested)
    && (a.consensus_claim_allowed == b.consensus_claim_allowed)
    && (a.limitations == b.limitations)

abbrev absence_gate_beq : AbsenceClaimGate → AbsenceClaimGate → Bool
absence_gate_beq a b =
    (a.requested == b.requested)
    && (a.allowed == b.allowed)
    && (a.scope == b.scope)
    && (a.reason_codes == b.reason_codes)

abbrev summary_beq : EvidenceAuthorizationSummary → EvidenceAuthorizationSummary → Bool
summary_beq a b =
    (a.authorized_count == b.authorized_count)
    && (a.evidence_ids_digest == b.evidence_ids_digest)
    && (a.preview_count == b.preview_count)
    && (a.preview_complete == b.preview_complete)

pub counter_gate_beq_iff : (a b : CounterAuthorityGate) → (counter_gate_beq a b ≡ true) ↔ (a ≡ b)
counter_gate_beq_iff a b = ground (
  arith,
  bool_eq.test_iff a.required b.required,
  bool_eq.test_iff a.coverage_complete b.coverage_complete,
  bool_eq.test_iff a.consensus_claim_requested b.consensus_claim_requested,
  bool_eq.test_iff a.consensus_claim_allowed b.consensus_claim_allowed,
  (list_eq {A = String}).test_iff a.limitations b.limitations,
)

pub absence_gate_beq_iff : (a b : AbsenceClaimGate) → (absence_gate_beq a b ≡ true) ↔ (a ≡ b)
absence_gate_beq_iff a b = ground (
  arith,
  bool_eq.test_iff a.requested b.requested,
  bool_eq.test_iff a.allowed b.allowed,
  (option_eq {A = String}).test_iff a.scope b.scope,
  (list_eq {A = String}).test_iff a.reason_codes b.reason_codes,
)

pub summary_beq_iff : (a b : EvidenceAuthorizationSummary) → (summary_beq a b ≡ true) ↔ (a ≡ b)
summary_beq_iff a b = ground (
  arith,
  string_eq.test_iff a.evidence_ids_digest b.evidence_ids_digest,
  bool_eq.test_iff a.preview_complete b.preview_complete,
)

instance abbrev pub counter_gate_eq : Eq CounterAuthorityGate
counter_gate_eq = record { test = counter_gate_beq; test_iff = counter_gate_beq_iff }

instance abbrev pub absence_gate_eq : Eq AbsenceClaimGate
absence_gate_eq = record { test = absence_gate_beq; test_iff = absence_gate_beq_iff }

instance abbrev pub summary_eq : Eq EvidenceAuthorizationSummary
summary_eq = record { test = summary_beq; test_iff = summary_beq_iff }
