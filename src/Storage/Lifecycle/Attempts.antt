-- ===== src/Storage/Lifecycle/Attempts.antt =====
-- What `operation_attempt` of src/alr_tw/storage/sqlite_store.py leaves behind when a call raises.
use alr_tw.Prelude.{
  String, Bool, true, false, ◌&&◌, ◌≡◌, ◌⊎◌, refl, ◌∙◌, ap, some, List, [], ◌∷◌, arith, Result, ok,
  err, ◌==◌, string_eq, pair_eq, any, Memᴰ, Bool-cases, inl, inr,
}
use alr_tw.Storage.Tables.{find, update_where, any-update, any-kept}
use alr_tw.Storage.Rows.{OperationRow, operation_key, Database}
use alr_tw.Storage.Operations.{is_in_progress, failed, set_result, is_claim, close_claim}
use alr_tw.Storage.Sessions.{
  Access, Claim, Store, Action, writer_attempt, claims_of, close_claims, after_attempt,
  operation_attempt,
}

failed_closed : is_in_progress failed ≡ false
unfolding is_in_progress
failed_closed = refl

set_closed : (c : Claim) (r : OperationRow) → is_claim c (set_result failed r) ≡ false
unfolding is_claim
set_closed c r = rw failed_closed (and_false (operation_key r == c))
  where
    and_false : (b : Bool) → (b && false) ≡ false
    and_false true = refl
    and_false false = refl

-- No claim is open that was closed, and none opens.
closed_self :
    (c : Claim) (rows : List OperationRow)
    → any (is_claim c) (update_where (is_claim c) (set_result failed) rows) ≡ false
closed_self c rows =
    any-update (is_claim c) (is_claim c) (set_result failed) rows (λ r q. set_closed c r) (λ r q. q)

closed_other :
    (c d : Claim) (rows : List OperationRow)
    → any (is_claim c) rows ≡ false
    → any (is_claim c) (update_where (is_claim d) (set_result failed) rows) ≡ false
closed_other c d rows h =
    any-kept (is_claim c) (is_claim d) (set_result failed) rows (set_closed c) h

-- another operation is found as it was
found_other :
    (c d : Claim) (rows : List OperationRow)
    → (c == d) ≡ false
    → find operation_key c (update_where (is_claim d) (set_result failed) rows)
      ≡ find operation_key c rows
unfolding find update_where is_claim
found_other c d [] h = refl
found_other c d (r ∷ rows) h = elim (Bool-cases (operation_key r == d)) [
  | inl q ↦
      (let same : operation_key r ≡ d = ((pair_eq {A = String} {B = String}).test_iff _ _).0 q in
        let apart : (c == operation_key r) ≡ false = ap (λ k. c == k) same ∙ h in
        ground (arith, found_other c d rows h, apart))
  | inr q ↦ ground (arith, found_other c d rows h)
]

module _ (closing : Claim → Access) (granted : (c : Claim) → closing c ≡ Access.granted) where
  close_one :
      (c : Claim) (claims : List Claim) (db : Database)
      → close_claims closing (c ∷ claims) false db
        ≡ close_claims closing claims false (close_claim c db)
  unfolding close_claims
  close_one c claims db = rw (granted c) refl

  stay_closed :
      (c : Claim) (claims : List Claim) (db : Database)
      → any (is_claim c) db.operations ≡ false
      → any (is_claim c) (close_claims closing claims false db).operations ≡ false
  stay_closed c [] db h = unfold close_claims in h
  stay_closed c (d ∷ claims) db h =
      ap (λ x. any (is_claim c) x.operations) (close_one d claims db)
      ∙ stay_closed c claims (close_claim d db)
          (unfold close_claim in closed_other c d db.operations h)

  all_closed :
      (claims : List Claim) (db : Database) (c : Claim)
      → Memᴰ c claims
      → any (is_claim c) (close_claims closing claims false db).operations ≡ false
  all_closed [] db c i = elim i [ ]
  all_closed (d ∷ claims) db c (Memᴰ.head e) =
      ap (λ x. any (is_claim c) x.operations) (close_one d claims db)
      ∙ stay_closed c claims (close_claim d db)
          (unfold close_claim in rw e (closed_self d db.operations))
  all_closed (d ∷ claims) db c (Memᴰ.tail i) =
      ap (λ x. any (is_claim c) x.operations) (close_one d claims db)
      ∙ all_closed claims (close_claim d db) c i

  others_found :
      (claims : List Claim) (db : Database) (c : Claim)
      → (Memᴰ c claims → ⊥)
      → find operation_key c (close_claims closing claims false db).operations
        ≡ find operation_key c db.operations
  others_found [] db c h = unfold close_claims in refl
  others_found (d ∷ claims) db c h =
      ap (λ x. find operation_key c x.operations) (close_one d claims db)
      ∙ others_found claims (close_claim d db) c (λ i. h (Memᴰ.tail i))
      ∙ (unfold close_claim in found_other c d db.operations (differ (Bool-cases (c == d))))
    where
      differ : ((c == d) ≡ true) ⊎ ((c == d) ≡ false) → (c == d) ≡ false
      differ (inl q) =
          absurd (h (Memᴰ.head (((pair_eq {A = String} {B = String}).test_iff c d).0 q)))
      differ (inr q) = q

module _ {A : Type 0} where
  -- the outcome of the call inside the attempt
  abbrev inner : Access → Action A → Store → Result A × Store
  inner access body s = writer_attempt access body (record s { claims = some [] })

  -- When a call raises and its claims can be written, the exception goes on, the claims of the
  -- surrounding call are put back, none of the operations that the call claimed is still in
  -- progress, and every other operation is as the call left it.
  pub failed_attempt_closes :
      (access : Access) (closing : Claim → Access) (body : Action A) (s : Store) (message : String)
      → (inner access body s).0 ≡ err message
      → (inner access body s).1.purged ≡ false
      → ((c : Claim) → closing c ≡ Access.granted)
      → let left = (inner access body s).1 in
        let (r, s') = operation_attempt access closing body s in
        (r ≡ err message)
        × (s'.claims ≡ s.claims)
        × ((c : Claim)
            → Memᴰ c (claims_of left.claims)
            → any (is_claim c) s'.database.operations ≡ false)
        × ((c : Claim)
            → (Memᴰ c (claims_of left.claims) → ⊥)
            → find operation_key c s'.database.operations
              ≡ find operation_key c left.database.operations)
  unfolding operation_attempt
  failed_attempt_closes access closing body s message raised alive granted =
      outcome (inner access body s) raised alive
    where
      outcome :
          (x : Result A × Store)
          → x.0 ≡ err message
          → x.1.purged ≡ false
          → let (r, s') = after_attempt closing s.claims x in
            (r ≡ err message)
            × (s'.claims ≡ s.claims)
            × ((c : Claim)
                → Memᴰ c (claims_of x.1.claims)
                → any (is_claim c) s'.database.operations ≡ false)
            × ((c : Claim)
                → (Memᴰ c (claims_of x.1.claims) → ⊥)
                → find operation_key c s'.database.operations
                  ≡ find operation_key c x.1.database.operations)
      outcome (ok a, t) e p = absurd (cc)
      outcome (err m, t) e p = (
        e,
        refl,
        (λ c i. rw p (all_closed closing granted (claims_of t.claims) t.database c i)),
        (λ c i. rw p (others_found closing granted (claims_of t.claims) t.database c i)),
      )
