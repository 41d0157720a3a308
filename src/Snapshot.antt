-- ===== src/Snapshot.antt =====
-- Snapshot receipts: src/alr_tw/contracts/provider_snapshot.py. `schema_version`, `issuer` and
-- `server_owned` admit one value each and are left out.
pub mod Scopes
pub mod Consistency
use alr_tw.Prelude.{
  ℕ, ◌<◌, ◌-◌, String, Bool, true, false, not, ◌&&◌, ◌||◌, ◌≡◌, ◌↔◌, Option, none, some, List, [],
  ◌∷◌, ◌++◌, map, arith, Result, ok, err, ◌>>=◌, ◌>>◌, raise_if, Eq, ◌==◌, nat_eq, string_eq,
  bool_eq, option_eq, pair_eq, leb, ltb, length, any, all, contains, unique, dedup, filter, count,
  sorted_set, non_empty, codes, is_infix, begins_with, drop, ◌+◌, if◌then◌else◌,
}
use alr_tw.Research.Run.{Datetime}
use alr_tw.Research.Coverage.{is_provider_scope_id}

pub data SnapshotReceiptStatus : Type 0 where
  verified unknown stale inconsistent : SnapshotReceiptStatus

pub data SnapshotConsistency : Type 0 where
  consistent legacy_no_receipt mismatch foreign_receipt : SnapshotConsistency

pub record ProviderSnapshotReceipt : Type 0 where
  pub receipt_id : String
  pub provider_id : String
  pub snapshot_id : String
  pub generation : String
  pub status : SnapshotReceiptStatus
  pub issued_at : Datetime
  pub expires_at : Option Datetime
  pub content_digest : Option String

pub record SnapshotConsistencyResult : Type 0 where
  pub status : SnapshotConsistency
  pub consistent : Bool
  pub receipt_count : ℕ
  pub reason_codes : List String
  pub provider_generations : List (String × String)

abbrev is_verified : SnapshotReceiptStatus → Bool
is_verified SnapshotReceiptStatus.verified = true
is_verified _ = false

abbrev pub is_consistent : SnapshotConsistency → Bool
is_consistent SnapshotConsistency.consistent = true
is_consistent _ = false

abbrev status_ordinal : SnapshotReceiptStatus → ℕ
status_ordinal SnapshotReceiptStatus.verified = 0
status_ordinal SnapshotReceiptStatus.unknown = 1
status_ordinal SnapshotReceiptStatus.stale = 2
status_ordinal SnapshotReceiptStatus.inconsistent = 3

abbrev datetime_beq : Datetime → Datetime → Bool
datetime_beq a b = (a.aware == b.aware) && (a.micros == b.micros)

pub datetime_beq_iff : (a b : Datetime) → (datetime_beq a b ≡ true) ↔ (a ≡ b)
datetime_beq_iff a b = ground arith

instance abbrev pub datetime_eq : Eq Datetime
datetime_eq = record { test = datetime_beq; test_iff = datetime_beq_iff }

-- `receipt == other`, which compares what `_receipt_signature` lists
unfoldable pub receipt_beq : ProviderSnapshotReceipt → ProviderSnapshotReceipt → Bool
receipt_beq a b =
    (a.receipt_id == b.receipt_id)
    && (a.provider_id == b.provider_id)
    && (a.snapshot_id == b.snapshot_id)
    && (a.generation == b.generation)
    && (status_ordinal a.status == status_ordinal b.status)
    && (a.issued_at == b.issued_at)
    && (a.expires_at == b.expires_at)
    && (a.content_digest == b.content_digest)

pub receipt_beq_iff : (a b : ProviderSnapshotReceipt) → (receipt_beq a b ≡ true) ↔ (a ≡ b)
unfolding receipt_beq
receipt_beq_iff a b = ground (
  arith,
  string_eq.test_iff a.receipt_id b.receipt_id,
  string_eq.test_iff a.provider_id b.provider_id,
  string_eq.test_iff a.snapshot_id b.snapshot_id,
  string_eq.test_iff a.generation b.generation,
  (option_eq {A = Datetime}).test_iff a.expires_at b.expires_at,
  (option_eq {A = String}).test_iff a.content_digest b.content_digest,
)

instance abbrev pub receipt_eq : Eq ProviderSnapshotReceipt
receipt_eq = record { test = receipt_beq; test_iff = receipt_beq_iff }

-- `str.casefold` on one code point of an identifier, which is ASCII
lower : ℕ → ℕ
lower c = if leb b'A' c && leb c b'Z' then c + 32 else c

-- `ProviderSnapshotReceipt.reject_private_layout_markers`
unfoldable pub has_layout_marker : String → Bool
unfolding lower any
has_layout_marker value =
    any (λ marker. is_infix (codes marker) (map lower (codes value)))
      ("manifest" ∷ "catalog" ∷ "sqlite" ∷ "chroma" ∷ "postgres" ∷ "deployment" ∷ "topology"
        ∷ "data/" ∷ "private/" ∷ [])

unfoldable pub is_opaque_id : String → Bool
unfolding has_layout_marker is_provider_scope_id
is_opaque_id value = is_provider_scope_id value && not (has_layout_marker value)

is_hex : ℕ → Bool
is_hex c = (leb b'0' c && leb c b'9') || (leb b'a' c && leb c b'f')

-- `^sha256:[0-9a-f]{64}$`
unfoldable pub is_digest : String → Bool
unfolding is_hex all
is_digest text =
    begins_with (codes "sha256:") (codes text)
    && all is_hex (drop 7 (codes text))
    && (length (codes text) == 71)

abbrev pub optional_digest : Option String → Bool
optional_digest none = true
optional_digest (some text) = is_digest text

unfoldable pub check_expiry : Datetime → Option Datetime → Result (Unit {0})
check_expiry issued none = ok tt
check_expiry issued (some at) = do
  raise_if (not at.aware) "snapshot receipt expires_at must be timezone-aware"
  raise_if (leb at.micros issued.micros) "snapshot receipt expires_at must follow issued_at"

-- the construction of a receipt: the patterns, then the validators
unfoldable pub validate_receipt : ProviderSnapshotReceipt → Result ProviderSnapshotReceipt
validate_receipt r = do
  raise_if
      (not (
        is_opaque_id r.receipt_id
        && is_opaque_id r.provider_id
        && is_opaque_id r.snapshot_id
        && is_opaque_id r.generation))
      "snapshot receipt identifiers must remain opaque"
  raise_if (not (optional_digest r.content_digest)) "content_digest does not match its pattern"
  raise_if (not r.issued_at.aware) "snapshot receipt issued_at must be timezone-aware"
  check_expiry r.issued_at r.expires_at
  ok r

expires_after : ℕ → Option Datetime → Bool
expires_after now none = true
expires_after now (some at) = ltb now at.micros

-- `ProviderSnapshotReceipt.is_current`, at an instant
unfoldable pub is_current : ℕ → ProviderSnapshotReceipt → Bool
unfolding expires_after
is_current now r =
    is_verified r.status && not (ltb now r.issued_at.micros) && expires_after now r.expires_at

-- the snapshot and generation pairs of one provider, as a set
unfoldable pub pairs_of : String → List ProviderSnapshotReceipt → List (String × String)
unfolding filter dedup
pairs_of provider values = dedup (
    map (λ item. (item.snapshot_id, item.generation))
      (filter (λ item. item.provider_id == provider) values))

unfoldable pub mixes_generations : List ProviderSnapshotReceipt → Bool
unfolding pairs_of any
mixes_generations values = any (λ item. ltb 1 (length (pairs_of item.provider_id values))) values

-- `generations.setdefault`: the first generation of each provider
unfoldable pub first_generations :
    List (String × String) → List ProviderSnapshotReceipt → List (String × String)
first_generations seen [] = seen
first_generations seen (item ∷ rest) =
    first_generations
      (if contains (map (λ p. p.0) seen) item.provider_id
        then seen
        else seen ++ (item.provider_id, item.generation) ∷ [])
      rest

unfoldable pub receipt_ids : List ProviderSnapshotReceipt → List String
receipt_ids values = map (λ item. item.receipt_id) values

abbrev pub one_if : Bool → String → List String
one_if true code = code ∷ []
one_if false code = []

-- the reasons that `_append_scope_diagnostics` appends, with its three codes
unfoldable pub scope_reasons :
    String → String → String → ℕ → List ProviderSnapshotReceipt → List String
scope_reasons duplicate current generation now values =
    one_if (not (unique (receipt_ids values))) duplicate
    ++ (one_if (any (λ item. not (is_current now item)) values) current
        ++ one_if (mixes_generations values) generation)

abbrev values_reasons : ℕ → List ProviderSnapshotReceipt → List String
values_reasons =
    scope_reasons "SNAPSHOT_RECEIPT_ID_DUPLICATED" "SNAPSHOT_RECEIPT_NOT_CURRENT"
      "SNAPSHOT_GENERATION_MISMATCH"

abbrev server_reasons : ℕ → List ProviderSnapshotReceipt → List String
server_reasons =
    scope_reasons "SNAPSHOT_SERVER_RECEIPT_ID_DUPLICATED" "SNAPSHOT_SERVER_RECEIPT_NOT_CURRENT"
      "SNAPSHOT_SERVER_GENERATION_MISMATCH"

-- `{item.receipt_id: item for item in server_values}.get(id)`: the last one wins
unfoldable pub server_by_id : List ProviderSnapshotReceipt → String → Option ProviderSnapshotReceipt
server_by_id [] id = none
server_by_id (item ∷ rest) id = elim (server_by_id rest id) [
  | some later ↦ some later
  | none ↦ if item.receipt_id == id then some item else none
]

-- `owned is None or owned != item`
unfoldable pub is_foreign : List ProviderSnapshotReceipt → ProviderSnapshotReceipt → Bool
unfolding server_by_id
is_foreign server item = not (server_by_id server item.receipt_id == some item)

-- `provided_set != server_set`, for the counters of the two lists
unfoldable pub sets_differ : List ProviderSnapshotReceipt → List ProviderSnapshotReceipt → Bool
unfolding any count
sets_differ values server =
    any (λ item. not (count item values == count item server)) (values ++ server)

-- `bool(xs - ys)` on counters
unfoldable pub set_exceeds : List ProviderSnapshotReceipt → List ProviderSnapshotReceipt → Bool
unfolding any count
set_exceeds xs ys = any (λ item. ltb (count item ys) (count item xs)) xs

-- the reasons of the comparison with the server's receipts
unfoldable pub binding_reasons :
    ℕ → List ProviderSnapshotReceipt → Option (List ProviderSnapshotReceipt) → List String
binding_reasons now values none = "SNAPSHOT_RECEIPT_SERVER_BINDING_REQUIRED" ∷ []
binding_reasons now values (some server) =
    server_reasons now server
    ++ (one_if (any (is_foreign server) values) "SNAPSHOT_RECEIPT_NOT_SERVER_OWNED"
        ++ (one_if (sets_differ values server) "SNAPSHOT_RECEIPT_SET_MISMATCH"
            ++ (one_if (sets_differ values server && set_exceeds server values)
                  "SNAPSHOT_RECEIPT_SERVER_SET_MISSING"
                ++ one_if (sets_differ values server && set_exceeds values server)
                    "SNAPSHOT_RECEIPT_SERVER_SET_EXTRA")))

abbrev pub foreign_codes : List String
foreign_codes =
    "SNAPSHOT_RECEIPT_NOT_SERVER_OWNED" ∷ "SNAPSHOT_RECEIPT_SERVER_BINDING_REQUIRED"
    ∷ "SNAPSHOT_RECEIPT_SET_MISMATCH" ∷ "SNAPSHOT_RECEIPT_SERVER_SET_MISSING"
    ∷ "SNAPSHOT_RECEIPT_SERVER_SET_EXTRA" ∷ []

unfoldable pub status_of : List String → SnapshotConsistency
status_of reasons =
    if any (contains reasons) foreign_codes
    then SnapshotConsistency.foreign_receipt
    else if non_empty reasons
    then SnapshotConsistency.mismatch
    else SnapshotConsistency.consistent

unfoldable pub snapshot_reasons :
    ℕ → List ProviderSnapshotReceipt → Option (List ProviderSnapshotReceipt) → List String
snapshot_reasons now values server = values_reasons now values ++ binding_reasons now values server

abbrev has_receipts : Option (List ProviderSnapshotReceipt) → Bool
has_receipts none = false
has_receipts (some server) = non_empty server

-- `assess_snapshot_consistency` at an instant
unfoldable pub assess_receipts :
    ℕ
    → List ProviderSnapshotReceipt
    → Option (List ProviderSnapshotReceipt)
    → SnapshotConsistencyResult
assess_receipts now values server =
    let reasons = sorted_set (snapshot_reasons now values server) in
    if not (non_empty values) && not (has_receipts server)
    then record {
      status = SnapshotConsistency.legacy_no_receipt;
      consistent = false;
      receipt_count = 0;
      reason_codes = "SNAPSHOT_RECEIPT_MISSING_LEGACY" ∷ [];
      provider_generations = [];
    }
    else record {
      status = status_of reasons;
      consistent = is_consistent (status_of reasons);
      receipt_count = length values;
      reason_codes = reasons;
      provider_generations = first_generations [] values;
    }

-- `assess_snapshot_consistency` with its test of the clock
unfoldable assess_snapshot_consistency :
    Datetime
    → List ProviderSnapshotReceipt
    → Option (List ProviderSnapshotReceipt)
    → Result SnapshotConsistencyResult
unfolding assess_receipts
assess_snapshot_consistency now values server = do
  raise_if (not now.aware) "now must be timezone-aware"
  ok (assess_receipts now.micros values server)
