-- ===== src/Snapshot/Consistency.antt =====
-- When receipts certify one snapshot of the data, for every list of receipts.
use alr_tw.Prelude.{
  ℕ, String, Bool, true, false, not, ◌&&◌, ◌||◌, ◌≡◌, ◌≢◌, ◌↔◌, refl, sym, ◌∙◌, subst, some, List,
  [], ◌∷◌, Memᴰ, arith, ◌==◌, string_eq, nat_eq, option_eq, pair_eq, any, unique, count, non_empty,
  sorted_set, any-false, any-of_none, mem-count, count-pos, unique-eq-distinct,
}
use alr_tw.Snapshot.{
  ProviderSnapshotReceipt, SnapshotConsistency, receipt_eq, is_current, mixes_generations,
  receipt_ids, server_by_id, is_foreign, sets_differ, snapshot_reasons, status_of, assess_receipts,
}
use alr_tw.Snapshot.Scopes.{
  Receipts, is_current_iff, IsOneSnapshot, scope_fails, fails, consistent_test, sets_differ_iff,
  by_id_found, mixes_iff,
}

abbrev ScopeHolds : ℕ → Receipts → Type 0
ScopeHolds now values =
    (unique (receipt_ids values) ≡ true)
    × (any (λ item. not (is_current now item)) values ≡ false)
    × (mixes_generations values ≡ false)

scope_parts :
    (now : ℕ) (values : Receipts) → (scope_fails now values ≡ false) ↔ ScopeHolds now values
unfolding scope_fails
scope_parts now values = ground arith

same_mem :
    (values server : Receipts)
    → ((r : ProviderSnapshotReceipt) → count r values ≡ count r server)
    → (r : ProviderSnapshotReceipt) → Memᴰ r server
    → Memᴰ r values
same_mem values server same r i = count-pos r values (omega (arith, same r, mem-count r server i))

all_current :
    (now : ℕ) (values : Receipts)
    → (any (λ item. not (is_current now item)) values ≡ false)
      ↔ ((r : ProviderSnapshotReceipt) → Memᴰ r values → is_current now r ≡ true)
all_current now values = (
  (λ h r i. let c = any-false (λ item. not (is_current now item)) values h r i in ground arith),
  (λ h. any-of_none _ values (λ r i. ground (arith, h r i))),
)

none_foreign :
    (values server : Receipts)
    → unique (receipt_ids server) ≡ true
    → ((r : ProviderSnapshotReceipt) → Memᴰ r values → Memᴰ r server)
    → any (is_foreign server) values ≡ false
unfolding is_foreign
none_foreign values server u sub = any-of_none _ values (λ r i.
    found r (by_id_found server r (sym (unique-eq-distinct (receipt_ids server)) ∙ u) (sub r i)))
  where
    found :
        (r : ProviderSnapshotReceipt)
        → server_by_id server r.receipt_id ≡ some r
        → not (server_by_id server r.receipt_id == some r) ≡ false
    found r e = ground (
      arith,
      (option_eq {A = ProviderSnapshotReceipt}).test_iff (server_by_id server r.receipt_id)
          (some r),
    )

-- The tests that `assess_receipts` makes fail nowhere exactly when the receipts are one snapshot.
holds_iff :
    (now : ℕ) (values server : Receipts)
    → values ≢ []
    → (fails now values server ≡ false) ↔ IsOneSnapshot now values server
holds_iff now values server p = (to, from)
  where
    parts :
        fails now values server ≡ false
        → (scope_fails now values ≡ false)
          × (scope_fails now server ≡ false)
          × (sets_differ values server ≡ false)
    parts h = (ground arith, ground arith, ground arith)

    to : fails now values server ≡ false → IsOneSnapshot now values server
    to h =
        let (v, s, d) = parts h in
        let (ids, current, mixed) = (scope_parts now values).0 v in
        let (server_ids, fresh, unmixed) = (scope_parts now server).0 s in
        record {
          present = p;
          same = (sets_differ_iff values server).0 d;
          current = λ r i. (is_current_iff now r).0 ((all_current now values).0 current r i);
          ids = ids;
          server_ids = server_ids;
          one_generation = (mixes_iff values).0 mixed;
        }

    from : IsOneSnapshot now values server → fails now values server ≡ false
    from o =
        let back = same_mem values server o.same in
        let forth = same_mem server values (λ r. sym (o.same r)) in
        let v = (scope_parts now values).1 (
          o.ids,
          (all_current now values).1 (λ r i. (is_current_iff now r).1 (o.current r i)),
          (mixes_iff values).1 o.one_generation,
        ) in
        let s = (scope_parts now server).1 (
          o.server_ids,
          (all_current now server).1 (λ r i. (is_current_iff now r).1 (o.current r (back r i))),
          (mixes_iff server).1 (λ a b i j. o.one_generation a b (back a i) (back b j)),
        ) in
        let d = (sets_differ_iff values server).1 o.same in
        let f = none_foreign values server o.server_ids forth in ground arith

both : (a b : Bool) → (a && not b) ≡ true → (a ≡ true) × (b ≡ false)
both a b h = ground arith

non_empty_of : (values : Receipts) → values ≢ [] → non_empty values ≡ true
non_empty_of [] p = absurd (p refl)
non_empty_of (r ∷ rest) p = refl

nil_same : (server : Receipts) → non_empty server ≡ true → sets_differ [] server ≡ false → ⊥
nil_same [] n d = cc
nil_same (r ∷ rest) n d = absurd (
    omega (
      arith,
      (sets_differ_iff [] (r ∷ rest)).0 d r,
      mem-count r (r ∷ rest) (Memᴰ.head refl),
      count_none r,
    ))
  where
    count_none : (r : ProviderSnapshotReceipt) → count r [] ≡ 0
    count_none r = unfold count in refl

present :
    (now : ℕ) (values server : Receipts)
    → (non_empty values || non_empty server) ≡ true
    → fails now values server ≡ false
    → values ≢ []
present now values server p f e =
    nil_same server (ground (arith, e)) (subst (λ v. sets_differ v server ≡ false) e (last_test f))
  where
    last_test : fails now values server ≡ false → sets_differ values server ≡ false
    last_test h = ground arith

-- An assessment against the server's receipts is consistent exactly when there are receipts, they
-- are the server's as multisets, all are verified, issued by now and unexpired, ids are not shared,
-- and each provider has one snapshot and one generation.
pub consistent_iff :
    (now : ℕ) (values server : Receipts)
    → ((assess_receipts now values (some server)).consistent ≡ true)
      ↔ IsOneSnapshot now values server
consistent_iff now values server = (
  (λ h.
      let (p, f) = parts_of h in (holds_iff now values server (present now values server p f)).0 f),
  (λ o.
      consistent_test now values server
      ∙ whole (non_empty_of values o.present) ((holds_iff now values server o.present).1 o)),
)
  where
    parts_of :
        (assess_receipts now values (some server)).consistent ≡ true
        → ((non_empty values || non_empty server) ≡ true) × (fails now values server ≡ false)
    parts_of h =
        both (non_empty values || non_empty server) (fails now values server)
          (sym (consistent_test now values server) ∙ h)

    whole :
        non_empty values ≡ true
        → fails now values server ≡ false
        → ((non_empty values || non_empty server) && not (fails now values server)) ≡ true
    whole p f = rw (p, f)

status_of-not_legacy :
    (reasons : List String) → status_of reasons ≢ SnapshotConsistency.legacy_no_receipt
unfolding status_of
status_of-not_legacy reasons h = ground arith

-- The legacy verdict means that there are no receipts on either side, and nothing else.
pub legacy_iff :
    (now : ℕ) (values server : Receipts)
    → ((assess_receipts now values (some server)).status ≡ SnapshotConsistency.legacy_no_receipt)
      ↔ ((values ≡ []) × (server ≡ []))
unfolding assess_receipts
legacy_iff now values server =
    ground (arith, status_of-not_legacy (sorted_set (snapshot_reasons now values (some server))))
