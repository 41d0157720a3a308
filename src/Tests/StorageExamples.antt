-- ===== src/Tests/StorageExamples.antt =====
-- The theorems on the store, at a store with one run and one operation.
use alr_tw.Prelude.{
  true, false, not, ◌&&◌, ◌≡◌, ◌⊎◌, refl, none, some, [], ◌∷◌, Memᴰ, ok, err, any, string_eq,
  pair_eq,
}
use alr_tw.Research.Run.{ResearchRun}
use alr_tw.Storage.Tables.{has, find, keyed, delete_where}
use alr_tw.Storage.Rows.{
  JsonValue, Object, OperationRow, operation_key, Database, empty_database, Codecs, status_is,
}
use alr_tw.Storage.Runs.{create_run, write_obligations, run_row, require_run}
use alr_tw.Storage.Operations.{
  is_in_progress, is_open, is_claim, recover, record_operation, insert_operation,
  complete_operation, get_operation, request_digest,
}
use alr_tw.Storage.Sessions.{
  Access, Claim, Store, Action, operation_attempt, writer_attempt, claims_of,
}
use alr_tw.Storage.Deletion.{run_key, purge_run}
use alr_tw.Storage.Integrity.{IsSound}
use alr_tw.Storage.Integrity.Histories.{Write, Reached, reached-IsSound}
use alr_tw.Storage.Lifecycle.Open.{Served, IsOneOpen, Served-IsOneOpen}
use alr_tw.Storage.Lifecycle.Finished.{finished_stays}
use alr_tw.Storage.Lifecycle.Replay.{completed_replays, recovered_records}
use alr_tw.Storage.Lifecycle.Attempts.{failed_attempt_closes}
use alr_tw.Storage.Purging.{IsPurged, purge_exact}
use alr_tw.Tests.Samples.{sample_run}

abbrev stored_run : ResearchRun
stored_run = record sample_run { obligations = [] }

-- every model is printed as one text, which is read as the sample
abbrev plain_codec : Codecs
plain_codec = record {
  isoformat = λ at. "2026-01-01T00:00:00+00:00";
  dump_run = λ run. "run";
  load_run = λ text. ok stored_run;
  dump_obligation = λ item. "obligation";
  dump_source = λ source. "source";
  load_source = λ text. err "no source";
  dump_evidence = λ span. "span";
  load_evidence = λ text. err "no span";
  dump_spans = λ spans. "spans";
  load_spans = λ text. ok [];
  dump_candidate = λ candidate. "candidate";
  load_candidate = λ text. err "no candidate";
  dump_relation = λ receipt. "relation";
  load_relation = λ text. err "no relation";
  dump_snapshot = λ receipt. "receipt";
  load_snapshot = λ text. err "no receipt";
  digest = λ request. "digest";
}

abbrev in_progress : Object
in_progress = ("status", JsonValue.json_text "in_progress") ∷ []

abbrev lookup_request : Object
lookup_request = ("tool", JsonValue.json_text "lookup_source") ∷ []

abbrev answer : Object
answer = ("status", JsonValue.json_text "found") ∷ []

abbrev operation : Object → OperationRow
operation result = record {
  run_id = "run-1";
  operation_id = "op-1";
  result = result;
  created_at = "2026-01-01T00:00:00+00:00";
  request_digest = some "digest";
  recovery_managed = true;
}

abbrev with_run : Database
with_run = record empty_database { runs = run_row plain_codec stored_run ∷ [] }

abbrev with_operation : Object → Database
with_operation result = record with_run { operations = operation result ∷ [] }

run_stored : create_run plain_codec stored_run empty_database ≡ ok with_run
unfolding create_run write_obligations run_row has keyed delete_where
run_stored = refl

operation_stored :
    record_operation plain_codec "run-1" "op-1" in_progress
      (some lookup_request)
      "2026-01-01T00:00:00+00:00"
      true
      with_run
    ≡ ok (record { created = true; result = in_progress }, with_operation in_progress)
unfolding record_operation insert_operation require_run request_digest has find run_row any is_open
operation_stored = refl

abbrev operation_reached : Reached plain_codec empty_database (with_operation in_progress)
operation_reached =
    Reached.next (Reached.next Reached.start (Write.run_created stored_run run_stored)) (
      Write.operation_recorded "run-1" "op-1" in_progress (some lookup_request)
        "2026-01-01T00:00:00+00:00" true operation_stored)

reached-IsSound_example : IsSound (with_operation in_progress)
reached-IsSound_example = reached-IsSound plain_codec operation_reached

Served-IsOneOpen_example : IsOneOpen (with_operation in_progress)
Served-IsOneOpen_example = Served-IsOneOpen plain_codec (
    Served.next (Served.next Served.start (Write.run_created stored_run run_stored) tt)
      (Write.operation_recorded "run-1" "op-1" in_progress (some lookup_request)
        "2026-01-01T00:00:00+00:00" true operation_stored)
      refl)

answer_stored :
    find operation_key ("run-1", "op-1") (with_operation answer).operations
    ≡ some (operation answer)
unfolding find
answer_stored = refl

claim_stored :
    find operation_key ("run-1", "op-1") (with_operation in_progress).operations
    ≡ some (operation in_progress)
unfolding find
claim_stored = refl

answer_closed : is_in_progress answer ≡ false
unfolding is_in_progress
answer_closed = refl

claim_open : is_in_progress in_progress ≡ true
unfolding is_in_progress
claim_open = refl

answer_sound : status_is "failed" answer ≡ false
unfolding status_is
answer_sound = refl

finished_stays_example :
    (find operation_key ("run-1", "op-1") (recover (with_operation answer)).operations
      ≡ some (operation answer))
    ⊎ (has operation_key (recover (with_operation answer)).operations ("run-1", "op-1") ≡ false)
finished_stays_example =
    finished_stays plain_codec ("run-1", "op-1") (operation answer) Write.interrupted_failed
      answer_stored answer_closed

digest_stored :
    (operation in_progress).request_digest ≡ request_digest plain_codec (some lookup_request)
unfolding request_digest
digest_stored = refl

sample-IsSound : IsSound (with_operation in_progress)
sample-IsSound = reached-IsSound plain_codec operation_reached

completed_replays_example :
    (db' : Database) × (complete_operation "run-1" "op-1" answer (with_operation in_progress)
      ≡ ok (record { created = true; result = answer }, db'))
    × (get_operation plain_codec "run-1" "op-1" (some lookup_request) db' ≡ ok (some answer))
    × (record_operation plain_codec "run-1" "op-1" in_progress
          (some lookup_request)
          "later"
          true
          db'
        ≡ ok (record { created = false; result = answer }, db'))
completed_replays_example =
    completed_replays plain_codec "run-1" "op-1" (with_operation in_progress)
      (operation in_progress) claim_stored answer in_progress (some lookup_request) "later" true
      sample-IsSound claim_open digest_stored answer_closed answer_sound

run_there : has run_key (with_operation in_progress).runs "run-1" ≡ true
unfolding has run_row
run_there = refl

second_new : has operation_key (with_operation in_progress).operations ("run-1", "op-2") ≡ false
unfolding has
second_new = refl

all_managed :
    any
      (λ (r : OperationRow). is_open "run-1" r && not r.recovery_managed)
      (with_operation in_progress).operations
    ≡ false
unfolding any is_open
all_managed = refl

recovered_records_example :
    (db' : Database) × (record_operation plain_codec "run-1" "op-2" in_progress
        (some lookup_request)
        "later"
        true
        (recover (with_operation in_progress))
      ≡ ok (record { created = true; result = in_progress }, db'))
    × (find operation_key ("run-1", "op-2") db'.operations
        ≡ some (record {
          run_id = "run-1";
          operation_id = "op-2";
          result = in_progress;
          created_at = "later";
          request_digest = request_digest plain_codec (some lookup_request);
          recovery_managed = true;
        }))
recovered_records_example =
    recovered_records plain_codec "run-1" "op-2" in_progress (some lookup_request) "later" true
      (with_operation in_progress) run_there second_new all_managed

-- a call that claims an operation and raises
abbrev raises : Action (Unit {0})
raises s = (
  err "provider unavailable",
  record s { database = with_operation in_progress; claims = some (("run-1", "op-1") ∷ []) },
)

abbrev idle : Store
idle = record { database = with_run; purged = false; writing = false; claims = none }

abbrev all_granted : Claim → Access
all_granted claim = Access.granted

raised_inner :
    (writer_attempt Access.granted raises (record idle { claims = some [] })).0
    ≡ err "provider unavailable"
unfolding writer_attempt
raised_inner = refl

alive_inner :
    (writer_attempt Access.granted raises (record idle { claims = some [] })).1.purged ≡ false
unfolding writer_attempt
alive_inner = refl

failed_attempt_closes_example :
    let left = (writer_attempt Access.granted raises (record idle { claims = some [] })).1 in
    let (r, s') = operation_attempt Access.granted all_granted raises idle in
    (r ≡ err "provider unavailable")
    × (s'.claims ≡ idle.claims)
    × ((c : Claim)
        → Memᴰ c (claims_of left.claims)
        → any (is_claim c) s'.database.operations ≡ false)
    × ((c : Claim)
        → (Memᴰ c (claims_of left.claims) → ⊥)
        → find operation_key c s'.database.operations
          ≡ find operation_key c left.database.operations)
failed_attempt_closes_example =
    failed_attempt_closes Access.granted all_granted raises idle "provider unavailable" raised_inner
      alive_inner (λ c. refl)

purge_exact_example :
    IsPurged "run-1" (with_operation in_progress) (purge_run "run-1" (with_operation in_progress)).1
purge_exact_example = purge_exact "run-1" (with_operation in_progress) sample-IsSound run_there
