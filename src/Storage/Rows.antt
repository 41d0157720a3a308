-- ===== src/Storage/Rows.antt =====
-- The tables of src/alr_tw/storage/sqlite_store.py and the store that holds them. Rows hold the JSON
-- texts and the ISO times that the code writes: how a model becomes a text and back (pydantic), and
-- how a time is printed, are the fields of `Codecs`.
use alr_tw.Prelude.{
  String, Bool, false, Option, none, some, List, [], ◌∷◌, Result, ok, err, ◌==◌, string_eq,
  if◌then◌else◌,
}
use alr_tw.Research.Run.{Datetime, ResearchObligation, ResearchRun}
use alr_tw.Snapshot.{ProviderSnapshotReceipt}
use alr_tw.Sources.{SourceRecord, EvidenceSpan}

-- a JSON value: a text, or any other value as its JSON text
pub data JsonValue : Type 0 where
  json_text json_other : String → JsonValue

abbrev pub Object : Type 0
Object = List (String × JsonValue)

-- `d.get(name)`
unfoldable pub get_item : String → Object → Option JsonValue
get_item name [] = none
get_item name ((k, v) ∷ rest) = if name == k then some v else get_item name rest

abbrev is_text : String → Option JsonValue → Bool
is_text name (some (JsonValue.json_text value)) = value == name
is_text name _ = false

-- `d.get("status") == name`
unfoldable pub status_is : String → Object → Bool
unfolding get_item
status_is name fields = is_text name (get_item "status" fields)

pub record RunRow : Type 0 where
  pub run_id : String
  pub payload_json : String
  pub created_at : String
  pub updated_at : String
  pub expires_at : String

pub record ObligationRow : Type 0 where
  pub run_id : String
  pub kind : String
  pub payload_json : String

-- `result_json` as the dictionary that it holds
pub record OperationRow : Type 0 where
  pub run_id : String
  pub operation_id : String
  pub result : Object
  pub created_at : String
  pub request_digest : Option String
  pub recovery_managed : Bool

pub record SourceRow : Type 0 where
  pub source_id : String
  pub payload_json : String
  pub expires_at : String

pub record LinkRow : Type 0 where
  pub run_id : String
  pub source_id : String

pub record EvidenceRow : Type 0 where
  pub evidence_id : String
  pub run_id : String
  pub source_id : String
  pub payload_json : String

pub record CandidateRow : Type 0 where
  pub run_id : String
  pub candidate_id : String
  pub payload_json : String
  pub expires_at : String

pub record CacheRow : Type 0 where
  pub cache_key : String
  pub source_id : String
  pub payload_json : String
  pub expires_at : String

pub record RelationRow : Type 0 where
  pub receipt_id : String
  pub run_id : String
  pub payload_json : String
  pub validated_at : String

pub record SnapshotRow : Type 0 where
  pub run_id : String
  pub provider_id : String
  pub receipt_id : String
  pub payload_json : String
  pub issued_at : String
  pub expires_at : Option String

pub record Database : Type 0 where
  pub runs : List RunRow
  pub obligations : List ObligationRow
  pub operations : List OperationRow
  pub sources : List SourceRow
  pub links : List LinkRow
  pub evidence : List EvidenceRow
  pub candidates : List CandidateRow
  pub caches : List CacheRow
  pub relations : List RelationRow
  pub snapshots : List SnapshotRow

abbrev pub empty_database : Database
empty_database = record {
  runs = [];
  obligations = [];
  operations = [];
  sources = [];
  links = [];
  evidence = [];
  candidates = [];
  caches = [];
  relations = [];
  snapshots = [];
}

-- the primary keys of two columns
abbrev pub obligation_key : ObligationRow → String × String
obligation_key r = (r.run_id, r.kind)

abbrev pub operation_key : OperationRow → String × String
operation_key r = (r.run_id, r.operation_id)

abbrev pub link_key : LinkRow → String × String
link_key r = (r.run_id, r.source_id)

abbrev pub evidence_key : EvidenceRow → String × String
evidence_key r = (r.run_id, r.evidence_id)

abbrev pub candidate_key : CandidateRow → String × String
candidate_key r = (r.run_id, r.candidate_id)

abbrev pub snapshot_key : SnapshotRow → String × String
snapshot_key r = (r.run_id, r.provider_id)

-- the link that a span of evidence stands on
abbrev pub evidence_link : EvidenceRow → String × String
evidence_link r = (r.run_id, r.source_id)

-- a candidate of a provider, as far as the store reads it
pub record ProviderCandidate : Type 0 where
  pub candidate_id : String
  pub provider_id : String
  pub excerpt : Option String

-- a receipt for a relation, as far as the store reads it
pub record CounterAuthorityRelationReceipt : Type 0 where
  pub receipt_id : String
  pub run_id : String
  pub source_id : String
  pub evidence_ids : List String
  pub validated_at : Datetime

pub record Codecs : Type 0 where
  pub isoformat : Datetime → String
  pub dump_run : ResearchRun → String
  pub load_run : String → Result ResearchRun
  pub dump_obligation : ResearchObligation → String
  pub dump_source : SourceRecord → String
  pub load_source : String → Result SourceRecord
  pub dump_evidence : EvidenceSpan → String
  pub load_evidence : String → Result EvidenceSpan
  pub dump_spans : List EvidenceSpan → String
  pub load_spans : String → Result (List EvidenceSpan)
  pub dump_candidate : ProviderCandidate → String
  pub load_candidate : String → Result ProviderCandidate
  pub dump_relation : CounterAuthorityRelationReceipt → String
  pub load_relation : String → Result CounterAuthorityRelationReceipt
  pub dump_snapshot : ProviderSnapshotReceipt → String
  pub load_snapshot : String → Result ProviderSnapshotReceipt
  -- SHA-256 of the JSON text of a request
  pub digest : Object → String

-- `[load(row) for row in rows]`
unfoldable pub load_all {ℓ} : {A : Type ℓ} → (String → Result A) → List String → Result (List A)
load_all load [] = ok []
load_all load (text ∷ texts) = elim (load text) [
  | ok a ↦ elim (load_all load texts) [ ok rest ↦ ok (a ∷ rest) | err m ↦ err m ]
  | err m ↦ err m
]

-- one optional row
unfoldable pub load_one {ℓ} : {A : Type ℓ} → (String → Result A) → Option String → Result (Option A)
load_one load none = ok none
load_one load (some text) = elim (load text) [ ok a ↦ ok (some a) | err m ↦ err m ]
