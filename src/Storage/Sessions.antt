-- ===== src/Storage/Sessions.antt =====
-- The store as an object: `_storage_attempt`, `_connection`, `_writer_attempt`, `operation_attempt`
-- and `purge_all` of src/alr_tw/storage/sqlite_store.py, and `PurgeService.purge` of
-- src/alr_tw/storage/purge.py. What the file system and the other holders of the locks do to one
-- attempt is an argument, `Access`; the calls that get through run one after the other.
use alr_tw.Prelude.{
  String, Bool, true, false, not, ◌++◌, Option, none, some, List, [], ◌∷◌, Result, ok, err, ◌==◌,
  string_eq, if◌then◌else◌, strip, non_empty, contains,
}
use alr_tw.Storage.Rows.{Object, Database, Codecs, empty_database}
use alr_tw.Storage.Operations.{
  OperationRecordResult, recover, close_claim, record_operation, complete_operation,
}
use alr_tw.Storage.Deletion.{PurgeResult, purge_run}

-- The thread lock is held by another, the rest succeeds, or the paths or the file lock refuse.
pub data Access : Type 0 where
  locked : Access
  granted : Access
  denied : String → Access

abbrev pub Claim : Type 0
Claim = String × String

-- `writing` is whether `_ACTIVE_WRITER` is this store, `claims` is `_ACTIVE_CLAIMS`.
pub record Store : Type 0 where
  pub database : Database
  pub purged : Bool
  pub writing : Bool
  pub claims : Option (List Claim)

-- A call returns or raises, and what it has committed stays.
abbrev pub Action : Type 0 → Type 0
Action A = Store → Result A × Store

abbrev pub entry : Access → Bool → Result (Unit {0})
entry Access.locked purged = err "OPERATION_IN_PROGRESS"
entry Access.granted purged = if purged then err "STORAGE_PURGED" else ok tt
entry (Access.denied message) purged = if purged then err "STORAGE_PURGED" else err message

module _ {A : Type 0} where
  abbrev committed : Result (A × Database) → Action A
  committed (ok (a, db)) s = (ok a, record s { database = db })
  committed (err message) s = (err message, s)

  -- one transaction: it commits as a whole or not at all
  unfoldable pub transaction : Access → (Database → Result (A × Database)) → Action A
  transaction access body s = elim (entry access s.purged) [
    | ok _ ↦ committed (body s.database) s
    | err message ↦ (err message, s)
  ]

  abbrev stop_writing : Result A × Store → Result A × Store
  stop_writing (r, s) = (r, record s { writing = false })

  -- `_writer_attempt`
  unfoldable pub writer_attempt : Access → Action A → Action A
  unfolding recover
  writer_attempt access body s = if s.writing then body s else elim (entry access s.purged) [
    | ok _ ↦ stop_writing (body (record s { database = recover s.database; writing = true }))
    | err message ↦ (err message, s)
  ]

-- the claims that a call has made
abbrev pub claims_of : Option (List Claim) → List Claim
claims_of none = []
claims_of (some claims) = claims

-- Each claim is closed in a transaction of its own; one that is refused is passed over.
unfoldable pub close_claims : (Claim → Access) → List Claim → Bool → Database → Database
unfolding close_claim
close_claims access [] purged db = db
close_claims access (claim ∷ claims) purged db =
    close_claims access claims purged
      (elim (entry (access claim) purged) [ ok _ ↦ close_claim claim db | err _ ↦ db ])

module _ {A : Type 0} where
  abbrev pub after_attempt :
      (Claim → Access) → Option (List Claim) → Result A × Store → Result A × Store
  after_attempt access outer (ok a, s) = (ok a, record s { claims = outer })
  after_attempt access outer (err message, s) = (
    err message,
    record s {
      database = close_claims access (claims_of s.claims) s.purged s.database;
      claims = outer;
    },
  )

  -- `operation_attempt`: the first access is the writer's, the others are those of the claims
  unfoldable pub operation_attempt : Access → (Claim → Access) → Action A → Action A
  unfolding writer_attempt close_claims
  operation_attempt access closing body s =
      after_attempt closing s.claims (writer_attempt access body (record s { claims = some [] }))

abbrev add_claim : Claim → Option (List Claim) → Option (List Claim)
add_claim claim none = none
add_claim claim (some claims) = some (claims ++ claim ∷ [])

abbrev claimed :
    Claim → Result (OperationRecordResult) × Store → Result (OperationRecordResult) × Store
claimed claim (err message, s) = (err message, s)
claimed claim (ok r, s) =
    (ok r, if r.created then record s { claims = add_claim claim s.claims } else s)

-- `record_operation` on the store: the claim of a new operation is noted.
unfoldable pub claim_operation :
    Codecs
    → Access
    → String
    → String
    → Object
    → Option Object
    → String
    → Action OperationRecordResult
unfolding transaction record_operation
claim_operation codec access run_id operation_id result request now s =
    claimed (run_id, operation_id)
      (transaction access (record_operation codec run_id operation_id result request now s.writing)
        s)

unfoldable pub finish_operation : Access → String → String → Object → Action OperationRecordResult
unfolding transaction complete_operation
finish_operation access run_id operation_id result =
    transaction access (complete_operation run_id operation_id result)

abbrev database_name : String
database_name = "alr_tw_storage.sqlite3"

-- `purge_all`: `failures` names the files, and the directory `tmp`, that could not be removed.
unfoldable pub purge_all : Access → List String → Action PurgeResult
unfolding contains
purge_all access failures s = elim (entry access s.purged) [
  | ok _ ↦ (
    ok (record {
      success = not (non_empty failures);
      scope = "all";
      already_absent = false;
      deleted_runs = 0;
      deleted_sources = 0;
      failures = failures;
      error_code = if non_empty failures then some "PURGE_PARTIAL_FAILURE" else none;
    }),
    record s {
      database = if contains failures database_name then s.database else empty_database;
      purged = not (non_empty failures);
    },
  )
  | err message ↦ (err message, s)
]

abbrev pub or_blank : Option String → String
or_blank none = ""
or_blank (some run_id) = run_id

abbrev pub is_present : Option String → Bool
is_present none = false
is_present (some run_id) = true

-- `PurgeService.purge`
unfoldable pub purge : Access → List String → String → Option String → Bool → Action PurgeResult
unfolding transaction purge_run purge_all strip
purge access failures scope run_id confirmed s =
    if not confirmed
    then (err "PURGE_CONFIRMATION_REQUIRED", s)
    else if scope == "run"
    then (if strip (or_blank run_id) == ""
        then (err "run_id is required for run purge", s)
        else transaction access (λ db. ok (purge_run (strip (or_blank run_id)) db)) s)
    else if scope == "all"
    then (if is_present run_id
        then (err "run_id is not allowed for all purge", s)
        else purge_all access failures s)
    else (err "scope must be run or all", s)
