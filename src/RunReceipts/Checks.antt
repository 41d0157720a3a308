-- ===== src/RunReceipts/Checks.antt =====
-- What passes the check of a run's receipts.
use alr_tw.Prelude.{
  ℕ, String, Bool, true, false, not, ◌≡◌, inl, inr, refl, sym, some, List, [], ◌∷◌, ◌++◌, map, Memᴰ,
  arith, subst, string_eq, option_eq, any-false, contains, contains_iff, unique, non_empty,
  non_empty-append, Option-cases, mem-map,
}
use alr_tw.Research.Run.{Datetime, ResearchRun}
use alr_tw.Sources.{SourceRecord, EvidenceSpan}
use alr_tw.Snapshot.{ProviderSnapshotReceipt, datetime_eq, is_current}
use alr_tw.Snapshot.Scopes.{IsUsable, is_current_iff}
use alr_tw.RunReceipts.{ProviderMaterial, Payload, provider_materials}
use alr_tw.RunReceipts.Issue.{
  receipt_for, matches_material, material_reasons, all_material_reasons, receipt_providers,
  material_providers, sets_unequal, check_reasons, code_if, check_run_snapshot_receipts,
}
use alr_tw.RunReceipts.Binding.{receipt_for-provider}

-- The receipt carries the material's own marks, and is usable now.
pub record IsBoundTo (now : ℕ) (m : ProviderMaterial) (r : ProviderSnapshotReceipt) : Type 0 where
  pub provider : r.provider_id ≡ m.provider_id
  pub receipt_id : r.receipt_id ≡ m.receipt_id
  pub snapshot_id : r.snapshot_id ≡ m.snapshot_id
  pub generation : r.generation ≡ m.generation
  pub digest : r.content_digest ≡ some m.content_digest
  pub expiry : r.expires_at ≡ some m.expires_at
  pub usable : IsUsable now r

matched-IsBoundTo :
    (now : ℕ) (m : ProviderMaterial) (r : ProviderSnapshotReceipt)
    → r.provider_id ≡ m.provider_id
    → matches_material r m ≡ true
    → is_current now r ≡ true
    → IsBoundTo now m r
unfolding matches_material
matched-IsBoundTo now m r p h c = record {
  provider = p;
  receipt_id = (string_eq.test_iff _ _).0 (ground (arith, h));
  snapshot_id = (string_eq.test_iff _ _).0 (ground (arith, h));
  generation = (string_eq.test_iff _ _).0 (ground (arith, h));
  digest = ((option_eq {A = String}).test_iff _ _).0 (ground (arith, h));
  expiry = ((option_eq {A = Datetime}).test_iff _ _).0 (ground (arith, h));
  usable = (is_current_iff now r).0 c;
}

code_if-false : (b : Bool) (code : String) → non_empty (code_if b code) ≡ b
code_if-false true code = refl
code_if-false false code = refl

matched_parts :
    (now : ℕ) (m : ProviderMaterial) (r : ProviderSnapshotReceipt)
    → non_empty (material_reasons now m (some r)) ≡ false
    → (matches_material r m ≡ true) × (is_current now r ≡ true)
matched_parts now m r h = ground (
  arith,
  h,
  non_empty-append (code_if (not (matches_material r m)) "RUN_SNAPSHOT_RECEIPT_MATERIAL_MISMATCH")
      (code_if (not (is_current now r)) "RUN_SNAPSHOT_RECEIPT_NOT_CURRENT"),
  code_if-false (not (matches_material r m)) "RUN_SNAPSHOT_RECEIPT_MATERIAL_MISMATCH",
  code_if-false (not (is_current now r)) "RUN_SNAPSHOT_RECEIPT_NOT_CURRENT",
)

bound_one :
    (now : ℕ) (receipts : List ProviderSnapshotReceipt) (m : ProviderMaterial)
    → non_empty (material_reasons now m (receipt_for m.provider_id receipts)) ≡ false
    → (r : ProviderSnapshotReceipt) × Memᴰ r receipts × IsBoundTo now m r
bound_one now receipts m h = elim (Option-cases (receipt_for m.provider_id receipts)) [
  | inl e ↦ (let bad : true ≡ false = rw e at h in absurd (ground (arith, bad)))
  | inr (r, e) ↦
      let (i, p) = receipt_for-provider m.provider_id receipts r e in
      let clean : non_empty (material_reasons now m (some r)) ≡ false = rw e at h in
      let (matched, current) = matched_parts now m r clean in
      (r, i, matched-IsBoundTo now m r p matched current)
]

bound_each :
    (now : ℕ) (receipts : List ProviderSnapshotReceipt) (ms : List ProviderMaterial)
    → non_empty (all_material_reasons now receipts ms) ≡ false
    → (m : ProviderMaterial) → Memᴰ m ms
    → (r : ProviderSnapshotReceipt) × Memᴰ r receipts × IsBoundTo now m r
unfolding all_material_reasons
bound_each now receipts [] h m i = elim i [ ]
bound_each now receipts (x ∷ ms) h m i =
    let whole =
      non_empty-append (material_reasons now x (receipt_for x.provider_id receipts))
        (all_material_reasons now receipts ms) in
    elim i [
      | Memᴰ.head q ↦ bound_at q (ground (arith, whole, h))
      | Memᴰ.tail j ↦ bound_each now receipts ms (ground (arith, whole, h)) m j
    ]
  where
    bound_at :
        m ≡ x
        → non_empty (material_reasons now x (receipt_for x.provider_id receipts)) ≡ false
        → (r : ProviderSnapshotReceipt) × Memᴰ r receipts × IsBoundTo now m r
    bound_at q f =
        subst (λ z. (r : ProviderSnapshotReceipt) × Memᴰ r receipts × IsBoundTo now z r) (sym q)
          (bound_one now receipts x f)

known_provider :
    (receipts : List ProviderSnapshotReceipt) (ms : List ProviderMaterial)
    → sets_unequal (receipt_providers receipts) (material_providers ms) ≡ false
    → (r : ProviderSnapshotReceipt) → Memᴰ r receipts
    → Memᴰ r.provider_id (material_providers ms)
unfolding sets_unequal receipt_providers
known_provider receipts ms h r i =
    let listed =
      any-false (λ x. not (contains (material_providers ms) x))
        (map (λ (z : ProviderSnapshotReceipt). z.provider_id) receipts) (ground (arith, h))
        r.provider_id (mem-map (λ (z : ProviderSnapshotReceipt). z.provider_id) r receipts i) in
    (contains_iff (material_providers ms) r.provider_id).0 (ground (arith, listed))

check_parts :
    (now : ℕ) (receipts : List ProviderSnapshotReceipt) (ms : List ProviderMaterial)
    → non_empty (check_reasons now receipts ms) ≡ false
    → (unique (receipt_providers receipts) ≡ true)
      × (sets_unequal (receipt_providers receipts) (material_providers ms) ≡ false)
      × (non_empty (all_material_reasons now receipts ms) ≡ false)
unfolding check_reasons
check_parts now receipts ms h =
    let twice =
      code_if (not (unique (receipt_providers receipts)))
        "RUN_SNAPSHOT_RECEIPT_PROVIDER_DUPLICATED" in
    let unequal =
      code_if (sets_unequal (receipt_providers receipts) (material_providers ms))
        "RUN_SNAPSHOT_RECEIPT_PROVIDER_SET_MISMATCH" in
    ground (
      arith,
      h,
      non_empty-append twice (unequal ++ all_material_reasons now receipts ms),
      non_empty-append unequal (all_material_reasons now receipts ms),
      code_if-false (not (unique (receipt_providers receipts)))
          "RUN_SNAPSHOT_RECEIPT_PROVIDER_DUPLICATED",
      code_if-false (sets_unequal (receipt_providers receipts) (material_providers ms))
          "RUN_SNAPSHOT_RECEIPT_PROVIDER_SET_MISMATCH",
    )

module _ (seal : Payload → String) (sha256 : String → String) where
  -- Receipts that pass the check name each provider once and no provider without material, and every
  -- material of the run has among them a receipt that carries its marks and is usable now.
  pub valid_binding :
      (run : ResearchRun) (sources : List SourceRecord) (evidence : List EvidenceSpan)
      (receipts : List ProviderSnapshotReceipt) (now : ℕ)
      → (check_run_snapshot_receipts seal sha256 run sources evidence receipts now).valid ≡ true
      → (unique (receipt_providers receipts) ≡ true)
        × ((r : ProviderSnapshotReceipt)
            → Memᴰ r receipts
            → Memᴰ r.provider_id
                (material_providers (provider_materials seal sha256 run sources evidence now)))
        × ((m : ProviderMaterial)
            → Memᴰ m (provider_materials seal sha256 run sources evidence now)
            → (r : ProviderSnapshotReceipt) × Memᴰ r receipts × IsBoundTo now m r)
  unfolding check_run_snapshot_receipts
  valid_binding run sources evidence receipts now h =
      let ms = provider_materials seal sha256 run sources evidence now in
      let (once, equal, clean) = check_parts now receipts ms (ground (arith, h)) in
      (once, known_provider receipts ms equal, bound_each now receipts ms clean)
