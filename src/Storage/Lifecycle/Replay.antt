-- ===== src/Storage/Lifecycle/Replay.antt =====
-- A call that is repeated gets the answer of the first, and an interruption does not block the run.
use alr_tw.Prelude.{
  String, Bool, true, false, not, ◌&&◌, ◌≡◌, refl, ◌∙◌, ap, Option, none, some, List, [], ◌∷◌,
  arith, ok, ◌==◌, string_eq, pair_eq, option_eq, any, ◌>>◌, raise_if,
}
use alr_tw.Storage.Tables.{has, find, update_where, find-some, find-updated, has-update}
use alr_tw.Storage.Rows.{Object, OperationRow, operation_key, Database, Codecs, status_is}
use alr_tw.Storage.Runs.{require_run}
use alr_tw.Storage.Operations.{
  is_given, is_in_progress, is_open, interrupted, set_result, recover, operation_result,
  insert_operation, record_operation, complete_operation, request_digest, get_operation,
}
use alr_tw.Storage.Deletion.{run_key}
use alr_tw.Storage.Integrity.{IsSound}

run_of_key :
    (run_id operation_id : String) (rows : List OperationRow)
    → has operation_key rows (run_id, operation_id) ≡ true
    → has (λ (r : OperationRow). r.run_id) rows run_id ≡ true
unfolding has
run_of_key run_id operation_id [] h = cc
run_of_key run_id operation_id (r ∷ rows) h = ground (arith, run_of_key run_id operation_id rows)

-- the store once the operation is completed
unfoldable completed : String → String → Object → Database → Database
completed run_id operation_id result db = record db {
  operations =
      update_where (λ (r : OperationRow). operation_key r == (run_id, operation_id))
        (set_result result) db.operations;
}

module _ (codec : Codecs) (run_id operation_id : String) (db : Database) (row : OperationRow)
    (f : find operation_key (run_id, operation_id) db.operations ≡ some row) where
  found_completed :
      (result : Object)
      → find operation_key
          (run_id, operation_id)
          (completed run_id operation_id result db).operations
        ≡ some (set_result result row)
  unfolding completed
  found_completed result =
      find-updated operation_key _ (set_result result) db.operations _ row (λ x q. refl)
        (((pair_eq {A = String} {B = String}).test_iff _ _).1
          ((find-some operation_key _ db.operations row f).1))
        f

  completes :
      (result : Object)
      → is_in_progress row.result ≡ true
      → complete_operation run_id operation_id result db
        ≡ ok (record { created = true; result = result }, completed run_id operation_id result db)
  unfolding complete_operation completed
  completes result open_ =
      ground (arith, f, (find-some operation_key (run_id, operation_id) db.operations row f).0)

  result_given :
      (result : Object) (request : Option Object)
      → row.request_digest ≡ request_digest codec request
      → is_in_progress result ≡ false
      → status_is "failed" result ≡ false
      → operation_result codec (set_result result row) request ≡ ok result
  unfolding operation_result
  result_given result request same closed sound =
      let digest : (row.request_digest == request_digest codec request) ≡ true =
        ((option_eq {A = String}).test_iff row.request_digest (request_digest codec request)).1
          same in
      rw (digest, closed, sound) (by_request (is_given request))
    where
      by_request :
          (b : Bool)
          → (raise_if (b && false) "OPERATION_REQUEST_MISMATCH"
              >> (raise_if (b && false) "OPERATION_IN_PROGRESS"
                  >> (raise_if (b && false) "OPERATION_FAILED" >> ok result)))
            ≡ ok result
      by_request true = refl
      by_request false = refl

  pub completed_replays :
      (result claim : Object) (request : Option Object) (now : String) (managed : Bool)
      → IsSound db
      → is_in_progress row.result ≡ true
      → row.request_digest ≡ request_digest codec request
      → is_in_progress result ≡ false
      → status_is "failed" result ≡ false
      → (db' : Database) × (complete_operation run_id operation_id result db
          ≡ ok (record { created = true; result = result }, db'))
        × (get_operation codec run_id operation_id request db' ≡ ok (some result))
        × (record_operation codec run_id operation_id claim request now managed db'
            ≡ ok (record { created = false; result = result }, db'))
  completed_replays result claim request now managed h open_ same closed sound =
      let db' = completed run_id operation_id result db in
      let found = found_completed result in
      let given = result_given result request same closed sound in
      let known : has run_key db'.runs run_id ≡ true =
        unfold completed in
        h.operations.1 run_id (
          run_of_key run_id operation_id db.operations
            ((find-some operation_key _ db.operations row f).0)) in
      (
        db',
        completes result open_,
        (unfold get_operation in rw (found, given) refl),
        (unfold record_operation require_run in rw (known, found, given) refl),
      )

none_found :
    (k : String × String) (rows : List OperationRow)
    → has operation_key rows k ≡ false
    → find operation_key k rows ≡ none
unfolding has find
none_found k [] h = refl
none_found k (r ∷ rows) h = ground (arith, none_found k rows)

interrupted_closed : is_in_progress interrupted ≡ false
unfolding is_in_progress
interrupted_closed = refl

-- After the recovery nothing of the run is in progress, if all that was was managed.
recovered_closed :
    (run_id : String) (rows : List OperationRow)
    → any (λ (r : OperationRow). is_open run_id r && not r.recovery_managed) rows ≡ false
    → any (is_open run_id) (
        update_where
          (λ (r : OperationRow). r.recovery_managed && is_in_progress r.result)
          (set_result interrupted)
          rows)
      ≡ false
unfolding any update_where is_open
recovered_closed run_id [] h = refl
recovered_closed run_id (r ∷ rows) h =
    ground (arith, recovered_closed run_id rows, interrupted_closed)

recover_operations :
    (db : Database)
    → (recover db).operations
      ≡ update_where
          (λ (r : OperationRow). r.recovery_managed && is_in_progress r.result)
          (set_result interrupted)
          db.operations
unfolding recover
recover_operations db = refl

module _ (codec : Codecs) where
  -- After the recovery a new operation of a run can be recorded, if the operations of the run that
  -- were in progress were managed ones.
  pub recovered_records :
      (run_id operation_id : String) (result : Object) (request : Option Object) (now : String)
      (managed : Bool) (db : Database)
      → has run_key db.runs run_id ≡ true
      → has operation_key db.operations (run_id, operation_id) ≡ false
      → any (λ (r : OperationRow). is_open run_id r && not r.recovery_managed) db.operations ≡ false
      → (db' : Database) × (record_operation codec run_id operation_id result request now managed
            (recover db)
          ≡ ok (record { created = true; result = result }, db'))
        × (find operation_key (run_id, operation_id) db'.operations
            ≡ some (record {
              run_id = run_id;
              operation_id = operation_id;
              result = result;
              created_at = now;
              request_digest = request_digest codec request;
              recovery_managed = managed;
            }))
  recovered_records run_id operation_id result request now managed db known new managed_all =
      let row : OperationRow = record {
        run_id = run_id;
        operation_id = operation_id;
        result = result;
        created_at = now;
        request_digest = request_digest codec request;
        recovery_managed = managed;
      } in
      let there : has run_key (recover db).runs run_id ≡ true = unfold recover in known in
      let absent : find operation_key (run_id, operation_id) (recover db).operations ≡ none =
        none_found _ _ (
          ap (λ rows. has operation_key rows (run_id, operation_id)) (recover_operations db)
          ∙ has-update operation_key _ (set_result interrupted) db.operations _ (λ r q. refl)
          ∙ new) in
      let closed : any (is_open run_id) (recover db).operations ≡ false =
        ap (any (is_open run_id)) (recover_operations db)
        ∙ recovered_closed run_id db.operations managed_all in
      (
        record (recover db) { operations = row ∷ (recover db).operations },
        (unfold record_operation require_run insert_operation in
            rw (there, absent, closed) (by_request (is_given request) _)),
        (unfold find in
            rw
              (((pair_eq {A = String} {B = String}).test_iff (run_id, operation_id)
                  (operation_key row)).1
                refl)
              refl),
      )
    where
      by_request :
          {A : Type 0} (b : Bool) (a : A)
          → (raise_if (b && false) "OPERATION_IN_PROGRESS" >> ok a) ≡ ok a
      by_request true a = refl
      by_request false a = refl
