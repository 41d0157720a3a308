-- ===== src/RunReceipts/Binding.antt =====
-- Issued receipts pass the check, and what passes the check is bound to the run's material.
use alr_tw.Prelude.{
  ℕ, ◌<◌, String, Bool, true, false, not, ◌&&◌, ◌≡◌, inl, inr, refl, sym, ap, ◌∙◌, subst, Option,
  none, some, List, [], ◌∷◌, map, Memᴰ, arith, Result, ok, err, ◌>>=◌, ◌>>◌, raise_if, ◌==◌,
  string_eq, option_eq, any, any-of_none, contains, contains_iff, unique, distinct,
  unique-eq-distinct, unique-sorted_set, non_empty, Bool-cases, Option-cases,
}
use alr_tw.Research.Run.{Datetime, ResearchRun}
use alr_tw.Sources.{SourceRecord, EvidenceSpan}
use alr_tw.Snapshot.{
  ProviderSnapshotReceipt, datetime_eq, is_opaque_id, optional_digest, check_expiry,
  validate_receipt, is_current,
}
use alr_tw.Snapshot.Scopes.{is_current_iff}
use alr_tw.RunReceipts.{
  ProviderMaterial, Payload, eligible_sources, provider_ids, material_of, provider_materials,
}
use alr_tw.RunReceipts.Issue.{
  receipt_for, matches_material, fresh_receipt, issue_from, issue_receipts, all_material_reasons,
  receipt_providers, material_providers, sets_unequal, check_reasons, issue_run_snapshot_receipts,
  check_run_snapshot_receipts,
}

-- The receipt is the material's own, and is usable now.
record IsReceiptOf (now : ℕ) (m : ProviderMaterial) (r : ProviderSnapshotReceipt) : Type 0 where
  pub provider : r.provider_id ≡ m.provider_id
  pub matched : matches_material r m ≡ true
  pub usable : is_current now r ≡ true

pub receipt_for-provider :
    (provider : String) (rs : List ProviderSnapshotReceipt) (r : ProviderSnapshotReceipt)
    → receipt_for provider rs ≡ some r
    → Memᴰ r rs × (r.provider_id ≡ provider)
unfolding receipt_for
receipt_for-provider provider [] r h = cc
receipt_for-provider provider (x ∷ rs) r h = elim (Option-cases (receipt_for provider rs)) [
  | inl e ↦ elim (Bool-cases (x.provider_id == provider)) [
    | inl q ↦
        let same : some x ≡ some r = rw (e, q) at h in
        let here : x ≡ r = cc in
        (
          Memᴰ.head (sym here),
          ap (λ (z : ProviderSnapshotReceipt). z.provider_id) (sym here)
              ∙ (string_eq.test_iff x.provider_id provider).0 q,
        )
    | inr q ↦ absurd (ground (arith, e, q, h))
  ]
  | inr (found, e) ↦
      let same : some found ≡ some r = rw e at h in
      let here : found ≡ r = cc in
      let (i, p) = receipt_for-provider provider rs r (e ∙ ap some here) in (Memᴰ.tail i, p)
]

chain :
    (a b c : Bool) (m₁ m₂ m₃ : String) (rest : Result (Unit {0})) (x r : ProviderSnapshotReceipt)
    → (raise_if a m₁ >> (raise_if b m₂ >> (raise_if c m₃ >> (rest >> ok x)))) ≡ ok r
    → (rest ≡ ok tt) × (x ≡ r)
chain a b c m₁ m₂ m₃ rest x r h = ground arith

later_expiry :
    (issued expires : Datetime)
    → check_expiry issued (some expires) ≡ ok tt
    → issued.micros < expires.micros
unfolding check_expiry
later_expiry issued expires h = ground arith

receipt_checked :
    (x r : ProviderSnapshotReceipt)
    → validate_receipt x ≡ ok r
    → (check_expiry x.issued_at x.expires_at ≡ ok tt) × (x ≡ r)
unfolding validate_receipt
receipt_checked x r h =
    chain
      (not (
        is_opaque_id x.receipt_id
        && is_opaque_id x.provider_id
        && is_opaque_id x.snapshot_id
        && is_opaque_id x.generation))
      (not (optional_digest x.content_digest)) (not x.issued_at.aware)
      "snapshot receipt identifiers must remain opaque" "content_digest does not match its pattern"
      "snapshot receipt issued_at must be timezone-aware" (check_expiry x.issued_at x.expires_at) x
      r h

fresh_checked :
    (now : ℕ) (m : ProviderMaterial) (r : ProviderSnapshotReceipt)
    → validate_receipt (fresh_receipt now m) ≡ ok r
    → (r ≡ fresh_receipt now m) × (now < m.expires_at.micros)
unfolding fresh_receipt
fresh_checked now m r h =
    let (expiry, same) = receipt_checked (fresh_receipt now m) r h in
    (sym same, later_expiry (record { aware = true; micros = now }) m.expires_at expiry)

fresh-IsReceiptOf :
    (now : ℕ) (m : ProviderMaterial)
    → now < m.expires_at.micros
    → IsReceiptOf now m (fresh_receipt now m)
unfolding fresh_receipt
fresh-IsReceiptOf now m h = record {
  provider = refl;
  matched =
      unfold matches_material in
      ground (
        arith,
        string_eq.test_iff m.receipt_id m.receipt_id,
        string_eq.test_iff m.snapshot_id m.snapshot_id,
        string_eq.test_iff m.generation m.generation,
        string_eq.test_iff m.content_digest m.content_digest,
        datetime_eq.test_iff m.expires_at m.expires_at,
      );
  usable =
      (is_current_iff now (fresh_receipt now m)).1
        (record { verified = refl; issued = omega arith; lasting = h });
}

issued_one :
    (now : ℕ) (m : ProviderMaterial) (o : Option ProviderSnapshotReceipt)
    (r : ProviderSnapshotReceipt)
    → ((previous : ProviderSnapshotReceipt)
        → o ≡ some previous
        → previous.provider_id ≡ m.provider_id)
    → issue_from now m o ≡ ok r
    → IsReceiptOf now m r
issued_one now m none r p h =
    let (same, later) = fresh_checked now m r h in
    subst (IsReceiptOf now m) (sym same) (fresh-IsReceiptOf now m later)
issued_one now m (some previous) r p h =
    elim (Bool-cases (matches_material previous m && is_current now previous)) [
      | inl q ↦
          let kept : ok previous ≡ ok r = rw q at h in
          let same : previous ≡ r = cc in
          subst (IsReceiptOf now m) same (record {
            provider = p previous refl;
            matched = ground (arith, q);
            usable = ground (arith, q);
          })
      | inr q ↦
          let fresh : validate_receipt (fresh_receipt now m) ≡ ok r = rw q at h in
          let (same, later) = fresh_checked now m r fresh in
          subst (IsReceiptOf now m) (sym same) (fresh-IsReceiptOf now m later)
    ]

-- One receipt for each material, in order.
abbrev AreIssued : ℕ → List ProviderMaterial → List ProviderSnapshotReceipt → Type 0
AreIssued now [] [] = Unit
AreIssued now (m ∷ ms) (r ∷ rs) = IsReceiptOf now m r × AreIssued now ms rs
AreIssued now _ _ = ⊥

issued_all :
    (now : ℕ) (existing : List ProviderSnapshotReceipt) (ms : List ProviderMaterial)
    (rs : List ProviderSnapshotReceipt)
    → issue_receipts now existing ms ≡ ok rs
    → AreIssued now ms rs
unfolding issue_receipts
issued_all now existing [] rs h = let e : [] ≡ rs = cc in subst (AreIssued now []) e tt
issued_all now existing (m ∷ ms) rs h =
    by_first (issue_from now m (receipt_for m.provider_id existing)) refl
      (issue_receipts now existing ms) refl h (issued_all now existing ms)
  where
    by_first :
        (one : Result ProviderSnapshotReceipt)
        → issue_from now m (receipt_for m.provider_id existing) ≡ one
        → (others : Result (List ProviderSnapshotReceipt)) → issue_receipts now existing ms ≡ others
        → (one >>= (λ receipt. others >>= (λ rest. ok (receipt ∷ rest)))) ≡ ok rs
        → ((rest : List ProviderSnapshotReceipt)
            → issue_receipts now existing ms ≡ ok rest
            → AreIssued now ms rest)
        → AreIssued now (m ∷ ms) rs
    by_first (err message) e others f g ih = cc
    by_first (ok one) e (err message) f g ih = cc
    by_first (ok one) e (ok rest) f g ih =
        let same : one ∷ rest ≡ rs = cc in
        subst (AreIssued now (m ∷ ms)) same (
          issued_one now m (receipt_for m.provider_id existing) one
              (λ previous q. (receipt_for-provider m.provider_id existing previous q).1) e,
          ih rest f,
        )

issued-providers :
    (now : ℕ) (ms : List ProviderMaterial) (rs : List ProviderSnapshotReceipt)
    → AreIssued now ms rs
    → receipt_providers rs ≡ material_providers ms
unfolding receipt_providers material_providers
issued-providers now [] [] h = refl
issued-providers now [] (r ∷ rs) h = absurd h
issued-providers now (m ∷ ms) [] h = absurd h
issued-providers now (m ∷ ms) (r ∷ rs) (one, rest) =
    ground (arith, one.provider, issued-providers now ms rs rest)

absent_for :
    (provider : String) (rs : List ProviderSnapshotReceipt)
    → contains (receipt_providers rs) provider ≡ false
    → receipt_for provider rs ≡ none
unfolding receipt_for receipt_providers contains any
absent_for provider [] h = refl
absent_for provider (r ∷ rs) h = ground (
  arith,
  absent_for provider rs,
  string_eq.test_iff r.provider_id provider,
  string_eq.test_iff provider r.provider_id,
)

-- In a list without repeated providers each receipt is found.
found_for :
    (rs : List ProviderSnapshotReceipt) (r : ProviderSnapshotReceipt)
    → distinct (receipt_providers rs) ≡ true
    → Memᴰ r rs
    → receipt_for r.provider_id rs ≡ some r
unfolding receipt_for receipt_providers distinct
found_for [] r d i = elim i [ ]
found_for (x ∷ rs) r d (Memᴰ.head q) =
    subst (λ z. receipt_for z.provider_id (x ∷ rs) ≡ some z) (sym q)
      (ground (arith, absent_for x.provider_id rs, string_eq.test_iff x.provider_id x.provider_id))
found_for (x ∷ rs) r d (Memᴰ.tail i) = ground (arith, found_for rs r, i)

no_material_reasons :
    (now : ℕ) (all : List ProviderSnapshotReceipt) (ms : List ProviderMaterial)
    (rs : List ProviderSnapshotReceipt)
    → AreIssued now ms rs
    → ((r : ProviderSnapshotReceipt) → Memᴰ r rs → receipt_for r.provider_id all ≡ some r)
    → all_material_reasons now all ms ≡ []
unfolding all_material_reasons
no_material_reasons now all [] rs h f = refl
no_material_reasons now all (m ∷ ms) [] h f = absurd h
no_material_reasons now all (m ∷ ms) (r ∷ rs) (one, rest) f =
    let found : receipt_for m.provider_id all ≡ some r =
      ap (λ p. receipt_for p all) (sym one.provider) ∙ f r (Memᴰ.head refl) in
    rw (found, one.matched, one.usable)
      (no_material_reasons now all ms rs rest (λ x i. f x (Memᴰ.tail i)))

sets_unequal-same : (xs : List String) → sets_unequal xs xs ≡ false
unfolding sets_unequal
sets_unequal-same xs =
    let inside =
      any-of_none (λ x. not (contains xs x)) xs (λ x i. ap not ((contains_iff xs x).1 i)) in
    rw inside refl

no_check_reasons :
    (now : ℕ) (ms : List ProviderMaterial) (rs : List ProviderSnapshotReceipt)
    → unique (material_providers ms) ≡ true
    → AreIssued now ms rs
    → check_reasons now rs ms ≡ []
unfolding check_reasons
no_check_reasons now ms rs u h =
    let same = issued-providers now ms rs h in
    let once : unique (receipt_providers rs) ≡ true = ap unique same ∙ u in
    let d = sym (unique-eq-distinct (receipt_providers rs)) ∙ once in
    let equal : sets_unequal (receipt_providers rs) (material_providers ms) ≡ false =
      ap (λ ps. sets_unequal ps (material_providers ms)) same
      ∙ sets_unequal-same (material_providers ms) in
    rw (once, equal, no_material_reasons now rs ms rs h (λ r i. found_for rs r d i)) refl

module _ (seal : Payload → String) (sha256 : String → String) where
  providers-material_of :
      (run : ResearchRun) (eligible : List SourceRecord) (evidence : List EvidenceSpan)
      (ids : List String)
      → material_providers (map (material_of seal sha256 run eligible evidence) ids) ≡ ids
  unfolding material_providers material_of
  providers-material_of run eligible evidence [] = refl
  providers-material_of run eligible evidence (p ∷ ids) =
      ap (◌∷◌ p) (providers-material_of run eligible evidence ids)

  unique-provider_materials :
      (run : ResearchRun) (sources : List SourceRecord) (evidence : List EvidenceSpan) (now : ℕ)
      → unique (material_providers (provider_materials seal sha256 run sources evidence now)) ≡ true
  unfolding provider_materials provider_ids
  unique-provider_materials run sources evidence now =
      ap unique (providers-material_of run (eligible_sources run now sources) evidence _)
      ∙ unique-sorted_set _

  -- What the server issues for a run, from any receipts that exist already, passes its own check of
  -- the same material at the same time.
  pub issued_valid :
      (run : ResearchRun) (sources : List SourceRecord) (evidence : List EvidenceSpan)
      (existing receipts : List ProviderSnapshotReceipt) (now : ℕ)
      → issue_run_snapshot_receipts seal sha256 run sources evidence existing now ≡ ok receipts
      → (check_run_snapshot_receipts seal sha256 run sources evidence receipts now).valid ≡ true
  unfolding issue_run_snapshot_receipts check_run_snapshot_receipts
  issued_valid run sources evidence existing receipts now h =
      let ms = provider_materials seal sha256 run sources evidence now in
      ap (λ reasons. not (non_empty reasons))
        (no_check_reasons now ms receipts (unique-provider_materials run sources evidence now)
          (issued_all now existing ms receipts h))
