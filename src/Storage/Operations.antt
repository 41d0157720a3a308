-- ===== src/Storage/Operations.antt =====
-- The operations of a run in the store: `get_operation`, `record_operation`, `complete_operation`,
-- the recovery of interrupted ones and the closing of failed ones, of
-- src/alr_tw/storage/sqlite_store.py.
use alr_tw.Prelude.{
  String, Bool, true, false, not, ◌&&◌, Option, none, some, [], ◌∷◌, Result, ok, ◌>>=◌, ◌>>◌,
  raise_if, ◌==◌, string_eq, option_eq, pair_eq, any,
}
use alr_tw.Storage.Tables.{update_where, has, find}
use alr_tw.Storage.Rows.{
  JsonValue, Object, status_is, OperationRow, operation_key, Database, Codecs,
}
use alr_tw.Storage.Runs.{require_run}

pub record OperationRecordResult : Type 0 where
  pub created : Bool
  pub result : Object

abbrev pub is_given : Option Object → Bool
is_given none = false
is_given (some request) = true

unfoldable pub is_in_progress : Object → Bool
unfolding status_is
is_in_progress result = status_is "in_progress" result

-- an operation of the run that is in progress
unfoldable pub is_open : String → OperationRow → Bool
unfolding is_in_progress
is_open run_id r = (r.run_id == run_id) && is_in_progress r.result

abbrev pub interrupted : Object
interrupted =
    ("status", JsonValue.json_text "failed")
    ∷ ("error_code", JsonValue.json_text "OPERATION_INTERRUPTED")
    ∷ ("next_action", JsonValue.json_text "resume_with_new_operation_id")
    ∷ []

abbrev pub failed : Object
failed =
    ("status", JsonValue.json_text "failed")
    ∷ ("error_code", JsonValue.json_text "OPERATION_FAILED")
    ∷ []

abbrev pub set_result : Object → OperationRow → OperationRow
set_result result r = record r { result = result }

-- What a writer does first: the managed operations that are in progress were interrupted.
unfoldable pub recover : Database → Database
unfolding update_where is_in_progress
recover db = record db {
  operations =
      update_where (λ (r : OperationRow). r.recovery_managed && is_in_progress r.result)
        (set_result interrupted) db.operations;
}

-- the operation (run_id, operation_id), if it is in progress
unfoldable pub is_claim : String × String → OperationRow → Bool
unfolding is_in_progress
is_claim claim r = (operation_key r == claim) && is_in_progress r.result

-- What `operation_attempt` does to one claim after a failure.
unfoldable pub close_claim : String × String → Database → Database
unfolding update_where is_claim
close_claim claim db = record db {
  operations = update_where (is_claim claim) (set_result failed) db.operations;
}

module _ (codec : Codecs) where
  -- `_request_digest`: an empty request has none
  unfoldable pub request_digest : Option Object → Option String
  request_digest none = none
  request_digest (some []) = none
  request_digest (some (item ∷ items)) = some (codec.digest (item ∷ items))

  -- `_operation_result`
  unfoldable pub operation_result : OperationRow → Option Object → Result Object
  unfolding request_digest is_in_progress status_is
  operation_result row request = do
    raise_if (is_given request && not (row.request_digest == request_digest request))
        "OPERATION_REQUEST_MISMATCH"
    raise_if (is_given request && is_in_progress row.result) "OPERATION_IN_PROGRESS"
    raise_if (is_given request && status_is "failed" row.result) "OPERATION_FAILED"
    ok row.result

  abbrev pub result_of : Option Object → Option OperationRow → Result (Option Object)
  result_of request none = ok none
  result_of request (some row) = operation_result row request >>= λ result. ok (some result)

  unfoldable pub get_operation : String → String → Option Object → Database → Result (Option Object)
  unfolding find operation_result
  get_operation run_id operation_id request db =
      result_of request (find operation_key (run_id, operation_id) db.operations)

  -- A new operation. `now` is the time of the insertion, `managed` whether this store is writing.
  unfoldable pub insert_operation :
      String
      → String
      → Object
      → Option Object
      → String
      → Bool
      → Database
      → Result (OperationRecordResult × Database)
  unfolding any is_open request_digest
  insert_operation run_id operation_id result request now managed db =
      let row : OperationRow = record {
        run_id = run_id;
        operation_id = operation_id;
        result = result;
        created_at = now;
        request_digest = request_digest request;
        recovery_managed = managed;
      } in
      do
        raise_if (is_given request && any (is_open run_id) db.operations) "OPERATION_IN_PROGRESS"
        ok (
          record { created = true; result = result },
          record db { operations = row ∷ db.operations },
        )

  abbrev pub known_operation :
      Option OperationRow
      → Option Object
      → Database
      → Result (OperationRecordResult × Database)
      → Result (OperationRecordResult × Database)
  known_operation none request db insert = insert
  known_operation (some row) request db insert = operation_result row request >>= λ result.
      ok (record { created = false; result = result }, db)

  unfoldable pub record_operation :
      String
      → String
      → Object
      → Option Object
      → String
      → Bool
      → Database
      → Result (OperationRecordResult × Database)
  unfolding find operation_result insert_operation
  record_operation run_id operation_id result request now managed db =
      let existing = find operation_key (run_id, operation_id) db.operations in
      do
        require_run db run_id
        known_operation existing request db
            (insert_operation run_id operation_id result request now managed db)

abbrev pub is_finished : Option OperationRow → Bool
is_finished none = false
is_finished (some r) = not (is_in_progress r.result)

unfoldable pub complete_operation :
    String → String → Object → Database → Result (OperationRecordResult × Database)
unfolding find has update_where is_in_progress
complete_operation run_id operation_id result db =
    let existing = find operation_key (run_id, operation_id) db.operations in
    do
      raise_if (is_finished existing) "OPERATION_ALREADY_COMPLETED"
      raise_if (not (has operation_key db.operations (run_id, operation_id))) "operation not found"
      ok (
        record { created = true; result = result },
        record db {
          operations =
              update_where (λ (r : OperationRow). operation_key r == (run_id, operation_id))
                (set_result result) db.operations;
        },
      )
