-- ===== src/Storage/Materials.antt =====
-- Sources, evidence, cache entries, candidates and receipts in the store, of
-- src/alr_tw/storage/sqlite_store.py. A call that raises commits nothing.
use alr_tw.Prelude.{
  String, Bool, true, false, not, ◌&&◌, Option, none, some, List, [], ◌∷◌, map, Result, ok, ◌>>=◌,
  ◌>>◌, raise_if, ◌==◌, string_eq, pair_eq, if◌then◌else◌, filter, any, strip,
}
use Prim.Native.Nat.{Ordering}
use Prim.Native.String.{compare}
use alr_tw.Research.Run.{Datetime}
use alr_tw.Sources.{SourceRecord, EvidenceSpan}
use alr_tw.RunReceipts.{sorted_by}
use alr_tw.Storage.Tables.{update_where, has, find, select}
use alr_tw.Storage.Rows.{
  SourceRow, LinkRow, link_key, EvidenceRow, evidence_key, CandidateRow, CacheRow, RelationRow,
  Database, Codecs, load_all, load_one,
}
use alr_tw.Storage.Runs.{require_run}

-- `a <= b` on texts, as SQLite compares them
unfoldable pub text_le : String → String → Bool
text_le a b = elim (compare a b) [ Ordering.gt ↦ false | _ ↦ true ]

-- a row that is there with another payload
abbrev pub differs : Option String → String → Bool
differs none payload = false
differs (some old) payload = not (old == payload)

abbrev pub source_payload : Option SourceRow → Option String
source_payload none = none
source_payload (some r) = some r.payload_json

abbrev pub evidence_payload : Option EvidenceRow → Option String
evidence_payload none = none
evidence_payload (some r) = some r.payload_json

abbrev pub candidate_payload : Option CandidateRow → Option String
candidate_payload none = none
candidate_payload (some r) = some r.payload_json

abbrev pub relation_payload : Option RelationRow → Option String
relation_payload none = none
relation_payload (some r) = some r.payload_json

module _ (codec : Codecs) where
  unfoldable pub source_row : SourceRecord → SourceRow
  source_row source = record {
    source_id = source.source_id;
    payload_json = codec.dump_source source;
    expires_at = codec.isoformat source.expires_at;
  }

  -- INSERT … ON CONFLICT DO NOTHING, of the source and of its link
  unfoldable pub insert_source : SourceRecord → List SourceRow → List SourceRow
  unfolding source_row has
  insert_source source rows =
      if has (λ (r : SourceRow). r.source_id) rows source.source_id
      then rows
      else source_row source ∷ rows

  unfoldable pub insert_link : LinkRow → List LinkRow → List LinkRow
  unfolding has
  insert_link row rows = if has link_key rows (link_key row) then rows else row ∷ rows

  unfoldable pub save_source : String → SourceRecord → Database → Result Database
  unfolding insert_source insert_link find
  save_source run_id source db =
      let existing = find (λ (r : SourceRow). r.source_id) source.source_id db.sources in
      do
        require_run db run_id
        raise_if (differs (source_payload existing) (codec.dump_source source))
            "source_id is immutable and already has different content"
        ok (record db {
          sources = insert_source source db.sources;
          links = insert_link (record { run_id = run_id; source_id = source.source_id }) db.links;
        })

  unfoldable pub get_source : String → Database → Result (Option SourceRecord)
  unfolding find load_one
  get_source source_id db =
      load_one codec.load_source
        (source_payload (find (λ (r : SourceRow). r.source_id) source_id db.sources))

  -- the sources linked to a run, ORDER BY source_id
  unfoldable pub linked_sources : String → Database → List SourceRow
  unfolding filter has sorted_by
  linked_sources run_id db =
      sorted_by (λ (r : SourceRow). r.source_id)
        (filter (λ (r : SourceRow). has link_key db.links (run_id, r.source_id)) db.sources)

  unfoldable pub list_sources : String → Database → Result (List SourceRecord)
  unfolding linked_sources load_all
  list_sources run_id db =
      load_all codec.load_source
        (map (λ (r : SourceRow). r.payload_json) (linked_sources run_id db))

  unfoldable pub evidence_row : String → EvidenceSpan → EvidenceRow
  evidence_row run_id span = record {
    evidence_id = span.evidence_id;
    run_id = run_id;
    source_id = span.source_id;
    payload_json = codec.dump_evidence span;
  }

  unfoldable pub insert_evidence : EvidenceRow → List EvidenceRow → List EvidenceRow
  unfolding has
  insert_evidence row rows = if has evidence_key rows (evidence_key row) then rows else row ∷ rows

  unfoldable pub save_evidence : String → EvidenceSpan → Database → Result Database
  unfolding evidence_row insert_evidence find has
  save_evidence run_id span db =
      let existing = find evidence_key (run_id, span.evidence_id) db.evidence in
      do
        require_run db run_id
        raise_if (not (has link_key db.links (run_id, span.source_id)))
            "evidence source must be linked to the research run"
        raise_if (differs (evidence_payload existing) (codec.dump_evidence span))
            "evidence_id is immutable and already has different content"
        ok (record db { evidence = insert_evidence (evidence_row run_id span) db.evidence })

  -- the first row by the run's id
  abbrev first_row : List EvidenceRow → Option EvidenceRow
  first_row [] = none
  first_row (r ∷ rows) = some r

  abbrev evidence_of_run : String → Option String → Database → Option EvidenceRow
  evidence_of_run evidence_id none db = first_row (
      sorted_by (λ (r : EvidenceRow). r.run_id)
        (select (λ (r : EvidenceRow). r.evidence_id) evidence_id db.evidence))
  evidence_of_run evidence_id (some run_id) db = find evidence_key (run_id, evidence_id) db.evidence

  unfoldable pub get_evidence : String → Option String → Database → Result (Option EvidenceSpan)
  unfolding find select sorted_by load_one
  get_evidence evidence_id run_id db =
      load_one codec.load_evidence (evidence_payload (evidence_of_run evidence_id run_id db))

  unfoldable pub evidence_rows : String → Database → List EvidenceRow
  unfolding select sorted_by
  evidence_rows run_id db =
      sorted_by (λ (r : EvidenceRow). r.evidence_id)
        (select (λ (r : EvidenceRow). r.run_id) run_id db.evidence)

  unfoldable pub list_evidence : String → Database → Result (List EvidenceSpan)
  unfolding evidence_rows load_all
  list_evidence run_id db =
      load_all codec.load_evidence
        (map (λ (r : EvidenceRow). r.payload_json) (evidence_rows run_id db))

  unfoldable pub cache_row : String → SourceRecord → List EvidenceSpan → CacheRow
  cache_row cache_key source spans = record {
    cache_key = cache_key;
    source_id = source.source_id;
    payload_json = codec.dump_spans spans;
    expires_at = codec.isoformat source.expires_at;
  }

  -- INSERT … ON CONFLICT(cache_key) DO UPDATE
  unfoldable pub upsert_cache : CacheRow → List CacheRow → List CacheRow
  unfolding has update_where
  upsert_cache row rows =
      if has (λ (r : CacheRow). r.cache_key) rows row.cache_key
      then update_where (λ (r : CacheRow). r.cache_key == row.cache_key) (λ r. row) rows
      else row ∷ rows

  -- whether any span is of another source
  unfoldable pub is_foreign_span : SourceRecord → List EvidenceSpan → Bool
  unfolding any
  is_foreign_span source spans =
      any (λ (e : EvidenceSpan). not (e.source_id == source.source_id)) spans

  unfoldable pub save_cache_entry :
      String → SourceRecord → List EvidenceSpan → Database → Result Database
  unfolding cache_row upsert_cache is_foreign_span has strip
  save_cache_entry cache_key source spans db = do
    raise_if (strip cache_key == "") "cache_key is required"
    raise_if (is_foreign_span source spans) "cached evidence must belong to the cached source"
    raise_if (not (has (λ (r : SourceRow). r.source_id) db.sources source.source_id))
        "cached source must be persisted before cache linkage"
    ok (record db { caches = upsert_cache (cache_row cache_key source spans) db.caches })

  -- the source of a cache entry, where both outlive the cutoff
  abbrev fresh_source : String → CacheRow → Option SourceRow → Option SourceRow
  fresh_source cutoff entry none = none
  fresh_source cutoff entry (some r) =
      if not (text_le entry.expires_at cutoff) && not (text_le r.expires_at cutoff)
      then some r
      else none

  abbrev checked_spans :
      SourceRecord → List EvidenceSpan → Result (Option (SourceRecord × List EvidenceSpan))
  checked_spans source spans = do
    raise_if (is_foreign_span source spans) "cached evidence/source mismatch"
    ok (some (source, spans))

  abbrev load_entry :
      CacheRow → Option SourceRow → Result (Option (SourceRecord × List EvidenceSpan))
  load_entry entry none = ok none
  load_entry entry (some r) =
      codec.load_source r.payload_json
      >>= (λ source. codec.load_spans entry.payload_json >>= checked_spans source)

  abbrev fresh_entry :
      String → Option CacheRow → Database → Result (Option (SourceRecord × List EvidenceSpan))
  fresh_entry cutoff none db = ok none
  fresh_entry cutoff (some entry) db =
      load_entry entry (
        fresh_source cutoff entry
          (find (λ (r : SourceRow). r.source_id) entry.source_id db.sources))

  unfoldable pub get_fresh_cache_entry :
      String → Datetime → Database → Result (Option (SourceRecord × List EvidenceSpan))
  unfolding find is_foreign_span text_le
  get_fresh_cache_entry cache_key now db =
      fresh_entry (codec.isoformat now) (find (λ (r : CacheRow). r.cache_key) cache_key db.caches)
        db

  unfoldable pub has_cache_entry : String → Database → Bool
  unfolding has
  has_cache_entry cache_key db = has (λ (r : CacheRow). r.cache_key) db.caches cache_key
