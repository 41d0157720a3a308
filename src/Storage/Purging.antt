-- ===== src/Storage/Purging.antt =====
-- What a purge of one run takes away and what it keeps, of src/alr_tw/storage/sqlite_store.py.
use alr_tw.Prelude.{
  String, Bool, true, false, not, ◌&&◌, ◌≡◌, refl, sym, ◌∙◌, ap, subst, none, List, [], ◌∷◌, arith,
  ◌==◌, string_eq, pair_eq, if◌then◌else◌, filter, Bool-cases, inl, inr, Memᴰ, Eq,
}
use alr_tw.Storage.Tables.{has, find, cascade, delete_where, has-filter-key, find-filter-key}
use alr_tw.Storage.Rows.{
  RunRow, obligation_key, operation_key, LinkRow, link_key, evidence_key, evidence_link,
  candidate_key, snapshot_key, Database,
}
use alr_tw.Storage.Deletion.{
  run_key, source_key, is_orphan, delete_runs, delete_sources, without_run, purge_run,
}
use alr_tw.Storage.Integrity.{IsSound}
use alr_tw.Storage.Integrity.Deletions.{delete_runs-IsSound}

module _ {ℓ} {A : Type ℓ} where
  filter-all :
      (p : A → Bool) (rows : List A) → ((r : A) → Memᴰ r rows → p r ≡ true) → filter p rows ≡ rows
  unfolding filter
  filter-all p [] h = refl
  filter-all p (r ∷ rows) h =
      rw (h r (Memᴰ.head refl)) (ap (λ x. r ∷ x) (filter-all p rows (λ x i. h x (Memᴰ.tail i))))

module _ {ℓ κ} {A : Type ℓ} {K : Type κ} ⦃e : Eq K⦄ (key : A → K) where
  has-mem : (rows : List A) (r : A) → Memᴰ r rows → has key rows (key r) ≡ true
  unfolding has
  has-mem [] r i = elim i [ ]
  has-mem (x ∷ rows) r (Memᴰ.head q) =
      ground (arith, ap key q, (e.test_iff (key r) (key x)).1 (ap key q))
  has-mem (x ∷ rows) r (Memᴰ.tail i) = ground (arith, has-mem rows r i)

-- the links' sources are those of their keys
has_source :
    (links : List LinkRow) (k : String × String)
    → has link_key links k ≡ true
    → has (λ (l : LinkRow). l.source_id) links k.1 ≡ true
unfolding has
has_source [] k h = cc
has_source (l ∷ links) k h = ground (arith, has_source links k)

module _ (run_id : String) (db : Database) (there : has run_key db.runs run_id ≡ true) where
  abbrev is_run : RunRow → Bool
  is_run r = r.run_id == run_id

  abbrev rest : Database
  rest = delete_runs is_run db

  -- the runs that go are the one
  gone_run : (k : String) → has run_key (filter is_run db.runs) k ≡ (k == run_id)
  gone_run k = elim (Bool-cases (k == run_id)) [
    | inl q ↦
        (let same : k ≡ run_id = (string_eq.test_iff k run_id).0 q in
          has-filter-key run_key (λ j. j == run_id) db.runs k
          ∙ ground (arith, ap (has run_key db.runs) same))
    | inr q ↦ has-filter-key run_key (λ j. j == run_id) db.runs k ∙ ground arith
  ]

  not_gone : (k : String) → not (has run_key (filter is_run db.runs) k) ≡ not (k == run_id)
  not_gone k = ap not (gone_run k)

  found_rest :
      {A : Type 0} (key : A → String × String) (rows : List A) (k : String × String)
      → find key k (filter (λ r. not (has run_key (filter is_run db.runs) (key r).0)) rows)
        ≡ (if k.0 == run_id then none else find key k rows)
  found_rest key rows k =
      find-filter-key key (λ (j : String × String). not (has run_key (filter is_run db.runs) j.0))
        rows k
      ∙ ground (arith, not_gone k.0)

  module _ (h : IsSound db) where
    linked_source :
        (k : String × String)
        → has link_key rest.links k ≡ true
        → has source_key (filter (is_orphan rest.links) rest.sources) k.1 ≡ false
    unfolding is_orphan
    linked_source k i =
        has-filter-key source_key (λ s. not (has (λ (l : LinkRow). l.source_id) rest.links s))
          rest.sources k.1
        ∙ ground (arith, has_source rest.links k i)

    -- The sources that go take no link and no span along.
    links_stay : (without_run run_id db).links ≡ rest.links
    unfolding without_run delete_sources cascade
    links_stay =
        filter-all _ rest.links
          (λ r i. ap not (linked_source (link_key r) (has-mem link_key rest.links r i)))

    evidence_stays : (without_run run_id db).evidence ≡ rest.evidence
    unfolding without_run delete_sources cascade
    evidence_stays = filter-all _ rest.evidence (λ r i. ap not (
        linked_source (evidence_link r) (
          (delete_runs-IsSound is_run db h).evidence.1 (evidence_link r)
            (has-mem evidence_link rest.evidence r i))))

-- what a table with a run in its key holds afterwards
abbrev WithoutRun : String → {A : Type 0} → (A → String × String) → List A → List A → Type 0
WithoutRun run_id key before after =
    (k : String × String) → find key k after ≡ (if k.0 == run_id then none else find key k before)

pub record IsPurged (run_id : String) (db db' : Database) : Type 0 where
  runs : (k : String) → has run_key db'.runs k ≡ (has run_key db.runs k && not (k == run_id))
  obligations : WithoutRun run_id obligation_key db.obligations db'.obligations
  operations : WithoutRun run_id operation_key db.operations db'.operations
  links : WithoutRun run_id link_key db.links db'.links
  evidence : WithoutRun run_id evidence_key db.evidence db'.evidence
  candidates : WithoutRun run_id candidate_key db.candidates db'.candidates
  snapshots : WithoutRun run_id snapshot_key db.snapshots db'.snapshots
  sources :
      (s : String)
      → has source_key db'.sources s
        ≡ (has source_key db.sources s && has (λ (l : LinkRow). l.source_id) db'.links s)

purged_sources :
    (run_id : String) (db : Database) (s : String)
    → has source_key (without_run run_id db).sources s ≡ (
        has source_key db.sources s
        && has
            (λ (l : LinkRow). l.source_id)
            (delete_runs (λ (r : RunRow). r.run_id == run_id) db).links
            s)
unfolding without_run delete_sources delete_where is_orphan delete_runs
purged_sources run_id db s =
    has-filter-key source_key
      (λ j. not (
        not (
          has (λ (l : LinkRow). l.source_id)
            (delete_runs (λ (r : RunRow). r.run_id == run_id) db).links j)))
      db.sources s
    ∙ double _ _
  where
    double : (a b : Bool) → (a && not (not b)) ≡ (a && b)
    double a true = refl
    double a false = refl

module _ (run_id : String) (db : Database) (there : has run_key db.runs run_id ≡ true) where
  purged_run : (purge_run run_id db).1 ≡ without_run run_id db
  unfolding purge_run
  purged_run = rw there refl

  purged_keyed :
      {A : Type 0} (key : A → String × String) (before after : List A)
      → after
        ≡ filter (λ r. not (has run_key (filter (is_run run_id db there) db.runs) (key r).0)) before
      → WithoutRun run_id key before after
  purged_keyed key before after e k = ap (find key k) e ∙ found_rest run_id db there key before k

  without-IsPurged : IsSound db → IsPurged run_id db (without_run run_id db)
  unfolding without_run delete_sources delete_runs cascade delete_where
  without-IsPurged h = record {
    runs = has-filter-key run_key (λ j. not (j == run_id)) db.runs;
    obligations = purged_keyed obligation_key db.obligations _ refl;
    operations = purged_keyed operation_key db.operations _ refl;
    links = purged_keyed link_key db.links _ (links_stay run_id db there h);
    evidence = purged_keyed evidence_key db.evidence _ (evidence_stays run_id db there h);
    candidates = purged_keyed candidate_key db.candidates _ refl;
    snapshots = purged_keyed snapshot_key db.snapshots _ refl;
    sources = λ s.
        purged_sources run_id db s
        ∙ ap (λ links. has source_key db.sources s && has (λ (l : LinkRow). l.source_id) links s)
            (sym (links_stay run_id db there h));
  }

-- After the purge of a run of a sound store nothing of the run is left in any table that has the
-- run in its key; what the other runs have there is found as it was, their evidence and its links
-- included; and of the sources exactly those are kept that another run is linked to.
pub purge_exact :
    (run_id : String) (db : Database)
    → IsSound db
    → has run_key db.runs run_id ≡ true
    → IsPurged run_id db (purge_run run_id db).1
purge_exact run_id db h there =
    subst (IsPurged run_id db) (sym (purged_run run_id db there))
      (without-IsPurged run_id db there h)
