-- ===== src/RunReceipts/Issue.antt =====
-- `issue_run_snapshot_receipts`, `check_run_snapshot_receipts` and `mark_receipts_inconsistent`.
use alr_tw.Prelude.{
  ℕ, String, Bool, true, false, not, ◌&&◌, ◌||◌, Option, none, some, List, [], ◌∷◌, ◌++◌, map,
  Result, ok, ◌>>=◌, ◌==◌, string_eq, option_eq, any, contains, unique, sorted_set, non_empty,
  if◌then◌else◌,
}
use alr_tw.Research.Run.{ResearchRun}
use alr_tw.Sources.{SourceRecord, EvidenceSpan}
use alr_tw.Snapshot.{
  ProviderSnapshotReceipt, SnapshotReceiptStatus, datetime_eq, validate_receipt, is_current,
}
use alr_tw.RunReceipts.{ProviderMaterial, Payload, provider_materials}

pub record RunSnapshotReceiptCheck : Type 0 where
  pub valid : Bool
  pub reason_codes : List String

-- `{item.provider_id: item for item in receipts}.get(provider)`: the last one
unfoldable pub receipt_for : String → List ProviderSnapshotReceipt → Option ProviderSnapshotReceipt
receipt_for provider [] = none
receipt_for provider (r ∷ rest) =
    let later = receipt_for provider rest in
    elim later [
      | some found ↦ some found
      | none ↦ if r.provider_id == provider then some r else none
    ]

unfoldable pub matches_material : ProviderSnapshotReceipt → ProviderMaterial → Bool
matches_material r m =
    (r.receipt_id == m.receipt_id)
    && (r.snapshot_id == m.snapshot_id)
    && (r.generation == m.generation)
    && (r.content_digest == some m.content_digest)
    && (r.expires_at == some m.expires_at)

-- a receipt as it is newly constructed
unfoldable pub fresh_receipt : ℕ → ProviderMaterial → ProviderSnapshotReceipt
fresh_receipt now m = record {
  receipt_id = m.receipt_id;
  provider_id = m.provider_id;
  snapshot_id = m.snapshot_id;
  generation = m.generation;
  status = SnapshotReceiptStatus.verified;
  issued_at = record { aware = true; micros = now };
  expires_at = some m.expires_at;
  content_digest = some m.content_digest;
}

abbrev pub issue_from :
    ℕ → ProviderMaterial → Option ProviderSnapshotReceipt → Result ProviderSnapshotReceipt
issue_from now m none = validate_receipt (fresh_receipt now m)
issue_from now m (some previous) =
    if matches_material previous m && is_current now previous
    then ok previous
    else validate_receipt (fresh_receipt now m)

-- the loop over the materials
unfoldable pub issue_receipts :
    ℕ → List ProviderSnapshotReceipt → List ProviderMaterial → Result (List ProviderSnapshotReceipt)
issue_receipts now existing [] = ok []
issue_receipts now existing (m ∷ materials) = do
  receipt ← issue_from now m (receipt_for m.provider_id existing)
  others ← issue_receipts now existing materials
  ok (receipt ∷ others)

abbrev pub code_if : Bool → String → List String
code_if true code = code ∷ []
code_if false code = []

abbrev pub material_reasons : ℕ → ProviderMaterial → Option ProviderSnapshotReceipt → List String
material_reasons now m none = "RUN_SNAPSHOT_RECEIPT_MISSING" ∷ []
material_reasons now m (some receipt) =
    code_if (not (matches_material receipt m)) "RUN_SNAPSHOT_RECEIPT_MATERIAL_MISMATCH"
    ++ code_if (not (is_current now receipt)) "RUN_SNAPSHOT_RECEIPT_NOT_CURRENT"

-- the loop of the check
unfoldable pub all_material_reasons :
    ℕ → List ProviderSnapshotReceipt → List ProviderMaterial → List String
all_material_reasons now receipts [] = []
all_material_reasons now receipts (m ∷ materials) =
    material_reasons now m (receipt_for m.provider_id receipts)
    ++ all_material_reasons now receipts materials

unfoldable pub receipt_providers : List ProviderSnapshotReceipt → List String
receipt_providers receipts = map (λ r. r.provider_id) receipts

unfoldable pub material_providers : List ProviderMaterial → List String
material_providers materials = map (λ m. m.provider_id) materials

-- `set(xs) != set(ys)`
unfoldable pub sets_unequal : List String → List String → Bool
sets_unequal xs ys = any (λ x. not (contains ys x)) xs || any (λ y. not (contains xs y)) ys

unfoldable pub check_reasons :
    ℕ → List ProviderSnapshotReceipt → List ProviderMaterial → List String
check_reasons now receipts materials =
    code_if (not (unique (receipt_providers receipts))) "RUN_SNAPSHOT_RECEIPT_PROVIDER_DUPLICATED"
    ++ (code_if (sets_unequal (receipt_providers receipts) (material_providers materials))
          "RUN_SNAPSHOT_RECEIPT_PROVIDER_SET_MISMATCH"
        ++ all_material_reasons now receipts materials)

-- the status that keeps corrupt receipts from the later gate
unfoldable pub mark_receipts_inconsistent :
    List ProviderSnapshotReceipt → List ProviderSnapshotReceipt
mark_receipts_inconsistent [] = []
mark_receipts_inconsistent (r ∷ receipts) =
    (record r { status = SnapshotReceiptStatus.inconsistent }) ∷ mark_receipts_inconsistent receipts

module _ (seal : Payload → String) (sha256 : String → String) where
  unfoldable pub issue_run_snapshot_receipts :
      ResearchRun
      → List SourceRecord
      → List EvidenceSpan
      → List ProviderSnapshotReceipt
      → ℕ
      → Result (List ProviderSnapshotReceipt)
  issue_run_snapshot_receipts run sources evidence existing now =
      issue_receipts now existing (provider_materials seal sha256 run sources evidence now)

  unfoldable pub check_run_snapshot_receipts :
      ResearchRun
      → List SourceRecord
      → List EvidenceSpan
      → List ProviderSnapshotReceipt
      → ℕ
      → RunSnapshotReceiptCheck
  check_run_snapshot_receipts run sources evidence receipts now =
      let reasons =
        check_reasons now receipts (provider_materials seal sha256 run sources evidence now) in
      record { valid = not (non_empty reasons); reason_codes = sorted_set reasons }
