-- ===== src/Storage/Integrity/Writes.antt =====
-- Every write of the store keeps the tables sound.
use alr_tw.Prelude.{
  String, true, false, not, ◌≡◌, refl, ◌∙◌, ap, List, [], ◌∷◌, map, arith, Ensures, returned,
  Ensures-unless, ◌==◌, string_eq, pair_eq, any,
}
use alr_tw.Research.Run.{ResearchObligation, ResearchRun}
use alr_tw.Sources.{SourceRecord, EvidenceSpan}
use alr_tw.Storage.Tables.{
  delete_where, update_where, has, keyed, keyed-filter, keyed-append, keyed_insert, has-filter-key,
  keyed-update, has_insert,
}
use alr_tw.Storage.Rows.{
  RunRow, ObligationRow, obligation_key, link_key, EvidenceRow, evidence_key, evidence_link,
  Database, Codecs,
}
use alr_tw.Storage.Runs.{
  require_run, run_row, obligation_row, write_obligations, is_row_of, set_run, create_run, save_run,
}
use alr_tw.Storage.Materials.{
  save_source, insert_source, insert_link, source_row, save_evidence, insert_evidence, evidence_row,
}
use alr_tw.Storage.Deletion.{run_key, source_key}
use alr_tw.Storage.Integrity.{Refers, IsRuns, IsObligations, IsSound}
use alr_tw.Storage.Integrity.References.{
  Refers-filter, Refers-upsert, Refers-append, parent_insert, parent_upsert, parent-update,
}

-- The tables that refer to runs, when the runs still hold all their keys.
module _ (db : Database) (runs : List RunRow)
    (kept : Refers (has run_key db.runs) (has run_key runs)) where
  move {ℓ} :
      {A : Type ℓ} (key : A → String) (rows : List A)
      → Refers (has key rows) (has run_key db.runs)
      → Refers (has key rows) (has run_key runs)
  move key rows h k i = kept k (h k i)

  with_runs :
      (obligations : List ObligationRow)
      → IsSound db
      → IsRuns runs
      → IsObligations runs obligations
      → IsSound (record db { runs = runs; obligations = obligations })
  with_runs obligations h fresh o = record {
    runs = fresh;
    sources = h.sources;
    obligations = o;
    operations = (h.operations.0, move _ _ h.operations.1);
    links = (h.links.0, move _ _ h.links.1, h.links.2);
    evidence = h.evidence;
    candidates = (h.candidates.0, move _ _ h.candidates.1);
    caches = h.caches;
    relations = (h.relations.0, move _ _ h.relations.1);
    snapshots = (h.snapshots.0, h.snapshots.1, move _ _ h.snapshots.2);
  }

module _ (codec : Codecs) where
  -- the obligations of one run
  own_obligations :
      (run_id : String) (items : List ResearchObligation) (k : String)
      → has (λ (r : ObligationRow). r.run_id) (map (obligation_row codec run_id) items) k ≡ true
      → k ≡ run_id
  unfolding has obligation_row
  own_obligations run_id [] k h = cc
  own_obligations run_id (item ∷ items) k h =
      ground (arith, own_obligations run_id items k, string_eq.test_iff k run_id)

  own_keys :
      (run_id : String) (items : List ResearchObligation) (k : String × String)
      → has obligation_key (map (obligation_row codec run_id) items) k ≡ true
      → k.0 ≡ run_id
  unfolding has obligation_row
  own_keys run_id [] k h = cc
  own_keys run_id (item ∷ items) k h =
      ground (arith, own_keys run_id items k, string_eq.test_iff (k.0) run_id)

  own_apart :
      (run_id : String) (items : List ResearchObligation) (others : List ObligationRow)
      (k : String × String)
      → has obligation_key (map (obligation_row codec run_id) items) k ≡ true
      → has obligation_key (delete_where (λ (r : ObligationRow). r.run_id == run_id) others) k
        ≡ false
  unfolding delete_where
  own_apart run_id items others k h = ground (
    arith,
    has-filter-key obligation_key (λ (j : String × String). not (j.0 == run_id)) others k,
    own_keys run_id items k h,
    string_eq.test_iff (k.0) run_id,
  )

  write_obligations-IsSound :
      (run : ResearchRun) (db : Database) (runs : List RunRow)
      → Refers (has run_key db.runs) (has run_key runs)
      → has run_key runs run.run_id ≡ true
      → IsRuns runs
      → IsSound db
      → Ensures IsSound (write_obligations codec run (record db { runs = runs }))
  unfolding write_obligations
  write_obligations-IsSound run db runs kept there fresh h =
      let rows = map (obligation_row codec run.run_id) run.obligations in
      Ensures-unless (not (keyed obligation_key rows)) _ λ unique. returned (
        with_runs db runs kept _ h fresh (
          keyed-append obligation_key rows _ (ground arith)
              (unfold delete_where in keyed-filter obligation_key _ db.obligations h.obligations.0)
              (own_apart run.run_id run.obligations db.obligations),
          Refers-append (λ (r : ObligationRow). r.run_id) rows _ _
              (λ k i.
                ap (has run_key runs) (own_obligations run.run_id run.obligations k i) ∙ there)
              (unfold delete_where in
                Refers-filter (λ (r : ObligationRow). r.run_id) _ db.obligations _
                  (λ k i. kept k (h.obligations.1 k i))),
        ))

  pub create_run-IsSound :
      (run : ResearchRun) (db : Database) → IsSound db → Ensures IsSound (create_run codec run db)
  unfolding create_run
  create_run-IsSound run db h = Ensures-unless (has run_key db.runs run.run_id) _ λ absent.
      write_obligations-IsSound run db (run_row codec run ∷ db.runs)
        (parent_insert run_key (has run_key db.runs) (run_row codec run) db.runs (λ k i. i))
        (unfold has run_row in ground (arith, string_eq.test_iff run.run_id run.run_id))
        (unfold keyed run_row in ground (arith, h.runs)) h

  has-any :
      (run : ResearchRun) (rows : List RunRow)
      → any (is_row_of codec run) rows ≡ true
      → has run_key rows run.run_id ≡ true
  unfolding any has
  has-any run [] h = cc
  has-any run (r ∷ rows) h = ground (
    arith,
    has-any run rows,
    string_eq.test_iff r.run_id run.run_id,
    string_eq.test_iff run.run_id r.run_id,
  )

  pub save_run-IsSound :
      (run : ResearchRun) (db : Database) → IsSound db → Ensures IsSound (save_run codec run db)
  unfolding save_run
  save_run-IsSound run db h =
      let kept : Refers (has run_key db.runs)
          (has run_key (update_where (is_row_of codec run) (set_run codec run) db.runs)) =
        parent-update run_key (has run_key db.runs) (is_row_of codec run) (set_run codec run)
          db.runs (λ r q. refl) (λ k i. i) in
      Ensures-unless (not (any (is_row_of codec run) db.runs)) _ λ found.
        write_obligations-IsSound run db _ kept
          (kept run.run_id (has-any run db.runs (ground arith)))
          (keyed-update run_key _ _ db.runs (λ r q. refl) ∙ h.runs) h

  saved_source :
      (run_id : String) (source : SourceRecord) (db : Database)
      → has run_key db.runs run_id ≡ true
      → IsSound db
      → IsSound (record db {
        sources = insert_source codec source db.sources;
        links =
            insert_link codec (record { run_id = run_id; source_id = source.source_id }) db.links;
      })
  unfolding insert_source insert_link source_row
  saved_source run_id source db known h =
      let there : has source_key (insert_source codec source db.sources) source.source_id ≡ true =
        has_insert source_key (source_row codec source) db.sources source.source_id
        ∙ ground (arith, string_eq.test_iff source.source_id source.source_id) in
      record {
        runs = h.runs;
        sources = keyed_insert source_key (source_row codec source) db.sources h.sources;
        obligations = h.obligations;
        operations = h.operations;
        links = (
          keyed_insert link_key _ db.links h.links.0,
          Refers-upsert _ _ _ db.links _ h.links.1 known,
          Refers-upsert _ _ _ db.links _ (parent_upsert source_key _ _ _ db.sources h.links.2)
              there,
        );
        evidence = (h.evidence.0, parent_upsert link_key _ _ _ db.links h.evidence.1);
        candidates = h.candidates;
        caches = (h.caches.0, parent_upsert source_key _ _ _ db.sources h.caches.1);
        relations = h.relations;
        snapshots = h.snapshots;
      }

  pub save_source-IsSound :
      (run_id : String) (source : SourceRecord) (db : Database)
      → IsSound db
      → Ensures IsSound (save_source codec run_id source db)
  unfolding save_source require_run
  save_source-IsSound run_id source db h =
      Ensures-unless (not (has run_key db.runs run_id)) _
        λ known. search (Ensures-unless, returned, saved_source run_id source db (ground arith) h)

  saved_evidence :
      (row : EvidenceRow) (db : Database)
      → has link_key db.links (evidence_link row) ≡ true
      → IsSound db
      → IsSound (record db { evidence = insert_evidence codec row db.evidence })
  unfolding insert_evidence
  saved_evidence row db linked h = record {
    runs = h.runs;
    sources = h.sources;
    obligations = h.obligations;
    operations = h.operations;
    links = h.links;
    evidence = (
      keyed_insert evidence_key row db.evidence h.evidence.0,
      Refers-upsert evidence_link _ row db.evidence _ h.evidence.1 linked,
    );
    candidates = h.candidates;
    caches = h.caches;
    relations = h.relations;
    snapshots = h.snapshots;
  }

  pub save_evidence-IsSound :
      (run_id : String) (span : EvidenceSpan) (db : Database)
      → IsSound db
      → Ensures IsSound (save_evidence codec run_id span db)
  unfolding save_evidence require_run evidence_row
  save_evidence-IsSound run_id span db h =
      Ensures-unless (not (has run_key db.runs run_id)) _ λ known.
        Ensures-unless (not (has link_key db.links (run_id, span.source_id))) _ λ linked. search (
          Ensures-unless,
          returned,
          saved_evidence (evidence_row codec run_id span) db (ground arith) h,
        )
