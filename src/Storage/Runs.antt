-- ===== src/Storage/Runs.antt =====
-- Runs in the store: `create_run`, `save_run` and `get_run` of
-- src/alr_tw/storage/sqlite_store.py. A call that raises commits nothing, so it returns no database.
use alr_tw.Prelude.{
  String, Bool, not, ◌&&◌, Option, none, some, ◌∷◌, map, Result, ok, ◌>>◌, raise_if, ◌==◌,
  string_eq, pair_eq, ◌++◌, any,
}
use alr_tw.Research.Kinds.{kind_value}
use alr_tw.Research.Run.{ResearchObligation, ResearchRun}
use alr_tw.Storage.Tables.{delete_where, update_where, has, find, keyed}
use alr_tw.Storage.Rows.{RunRow, ObligationRow, obligation_key, Database, Codecs, load_one}

-- `_require_run`
unfoldable pub require_run : Database → String → Result (Unit {0})
unfolding has
require_run db run_id =
    raise_if (not (has (λ (r : RunRow). r.run_id) db.runs run_id)) "research run not found"

module _ (codec : Codecs) where
  unfoldable pub run_row : ResearchRun → RunRow
  run_row run = record {
    run_id = run.run_id;
    payload_json = codec.dump_run run;
    created_at = codec.isoformat run.created_at;
    updated_at = codec.isoformat run.updated_at;
    expires_at = codec.isoformat run.expires_at;
  }

  unfoldable pub obligation_row : String → ResearchObligation → ObligationRow
  unfolding kind_value
  obligation_row run_id item = record {
    run_id = run_id;
    kind = kind_value item.kind;
    payload_json = codec.dump_obligation item;
  }

  -- The obligations of the run are written anew; two of one kind break the primary key.
  unfoldable pub write_obligations : ResearchRun → Database → Result Database
  unfolding obligation_row keyed has delete_where
  write_obligations run db =
      let rows = map (obligation_row run.run_id) run.obligations in
      let others = delete_where (λ (r : ObligationRow). r.run_id == run.run_id) db.obligations in
      do
        raise_if (not (keyed obligation_key rows)) "UNIQUE constraint failed"
        ok (record db { obligations = rows ++ others })

  abbrev pub is_row_of : ResearchRun → RunRow → Bool
  is_row_of run r = (r.run_id == run.run_id) && (r.created_at == codec.isoformat run.created_at)

  abbrev pub set_run : ResearchRun → RunRow → RunRow
  set_run run r = record r {
    payload_json = codec.dump_run run;
    updated_at = codec.isoformat run.updated_at;
    expires_at = codec.isoformat run.expires_at;
  }

  unfoldable pub create_run : ResearchRun → Database → Result Database
  unfolding run_row has
  create_run run db = do
    raise_if (has (λ (r : RunRow). r.run_id) db.runs run.run_id) "UNIQUE constraint failed"
    write_obligations run (record db { runs = run_row run ∷ db.runs })

  -- A run that was deleted or replaced is not brought back.
  unfoldable pub save_run : ResearchRun → Database → Result Database
  unfolding update_where any
  save_run run db = do
    raise_if (not (any (is_row_of run) db.runs)) "RESEARCH_RUN_NOT_FOUND_OR_REPLACED"
    write_obligations run (record db { runs = update_where (is_row_of run) (set_run run) db.runs })

  abbrev payload_of : Option RunRow → Option String
  payload_of none = none
  payload_of (some r) = some r.payload_json

  unfoldable pub get_run : String → Database → Result (Option ResearchRun)
  unfolding find load_one
  get_run run_id db =
      load_one codec.load_run (payload_of (find (λ (r : RunRow). r.run_id) run_id db.runs))
