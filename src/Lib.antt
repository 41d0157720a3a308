-- ===== src/Lib.antt =====
-- The verification library of alr-tw, a server that researches Taiwanese law and decides whether an
-- answer may be drafted. A definition models the function, class or block of code of the same name.
--
-- Paths are from the repository's root.
--
-- Prelude and its children: the library names that all files share, Boolean tests and equality tests
--   by instance, Python's lists, sets, counters and sorting on lists, texts as code points, and
--   `Result`, whose `err` holds the message of an exception.
-- Research: a research run and its assessment.
--   Kinds, Coverage, Run: the records and the validators of src/alr_tw/contracts/research.py.
--   Sufficiency: `evaluate_research_sufficiency`, one definition for each local of the function.
--   Posture, Reasons: when an answer mode is given, and why not.
--   Transitions: src/alr_tw/research/state_machine.py. Paths and Routes: any sequence of requested
--   transitions; a request that raises leaves the run as it was.
-- Budget: src/alr_tw/budget.py and src/alr_tw/contracts/budget.py. The scope is passed on as a state,
--   with the list of what the callback `persist` was given; every reading of the clock is an
--   argument. A provider's coroutine is a function from the time left and the scope to the scope, its
--   outcome and whether the timer expired. Charges: the limits.
-- Snapshot: src/alr_tw/contracts/provider_snapshot.py. Consistency: when receipts certify one
--   snapshot.
-- Sources: src/alr_tw/contracts/sources.py, the source records and evidence spans of a run.
-- RunReceipts: src/alr_tw/research/snapshot_receipts.py, the receipts that the server issues for the
--   official material of a run. The parent gathers the material, Issue issues and checks; Binding and
--   Checks: what passes the check.
-- Finalization: src/alr_tw/contracts/finalization.py.
--   Gates, Contract: the records and their validators. Build: `build_finalization_contract`.
--   FromRun: `build_finalization_from_run`, which assesses the run. Validate: `validate_finalization`,
--   which builds the server's own contract and compares. Refusal: `build_structured_refusal`.
--   Modes, RunModes, Totality, Binding, Summary, Conclusion, Drafting, NoRun: what they decide.
-- Citations: src/tw_legal_rag_mcp/verification. Policy, Resolver, Validator, Answer, Batch: one file
--   for each module of the program, Answer for both answer_validation.py and trust_gates.py.
--   Finality, Gate, Batches: which citations are final.
-- Storage: src/alr_tw/storage/sqlite_store.py and purge.py, with src/alr_tw/contracts/storage.py. The
--   state is a `Database`, a list of rows for each table of the schema.
--   Tables: SQL on lists of rows. Rows: the schema. Runs, Materials, Receipts, Operations: the methods
--   of the store by what they keep; an error leaves the database as it was. Deletion: the cascades,
--   `cleanup_expired` and `purge_run`. Sessions: the attempts of a writer and of a call around
--   these, and `PurgeService.purge`.
--   Integrity: References says what every row refers to, Writes is the relation of the writes, Records,
--   Deletions and Replacement keep the references, Histories any sequence of writes. Unaffected: what a
--   write leaves alone. Lifecycle: Open, Finished, Replay and Attempts follow an operation from its
--   claim to its end. Purging: what a purge removes.
-- Service: src/alr_tw/research/service.py. Outcomes: the codes of an executor's outcome and how they
--   enter the coverage. Advance: the pure part of `continue_run`, from the outcome to the run that is
--   saved. Execution: `continue_run` and `execute_run_to_completion` on the stored run. Projection:
--   `get_finalization_contract` on what the store lists for the run, with RunReceipts and Finalization.
--   Codes: where a code is reported. Progress: what a step leaves alone, and the state after it.
--   Remaining: what is outstanding after it. Totality: whether it raises. Steps joins these;
--   Completion and Loop follow the steps to the end of an execution. Eligibility and Decision: what a
--   contract lets through. The service uses Research for
--   the assessment and the transitions; its store and its budget are Storage and Budget.
-- Tests: test data and the theorems applied to it.
--
-- Representation. Numbers are natural numbers and times are microseconds; a `datetime` keeps whether
-- it has a timezone. Fields that admit one value (`schema_version`, `issuer`, `server_owned`) are left
-- out, and of a run its budget, its schema version and its counter-authority progress, which the code
-- modelled here passes on unread; the registered plan is its id. `str.upper`, `str.lower` and `casefold`
-- act on ASCII letters. The dictionary of required coverage is listed in the order of its keys'
-- values, in which the code sorts what it selects. An exception is its message; that of a refused
-- transition is without the names of the two states, and that of a repeated value without the
-- field's name. Raw inputs that pydantic would coerce are given as the records they become. A
-- citation's mapping has texts as values; a missing key and `None` are both `none`.
--
-- Parameters. SHA-256 is `digest : List String → String` on the sorted ids of an evidence set, and
-- `sha256 : String → String` on a text; that of the canonical JSON of a provider's
-- material is `seal`; the deployer's identifier resolver is a function.
-- No law of these is assumed. The codecs of the store (pydantic's JSON, `isoformat`, SHA-256 of a
-- request) and the checks of paths and file locks around an attempt are given to the store. The
-- executor of the service is a function from a run and an obligation to an answer; that it keeps the
-- receipt of the coverage well formed is a hypothesis, which the synthetic executor of the source
-- meets. Loops are structural recursion; the only fuel is `max_steps`, the bound of the source.
--
-- Not modelled: of the service, the plan of obligations, the lookups, the
-- validation of a final answer and the results as JSON; the provider executor, the providers and their HTTP clients,
-- the claim-support and privacy validators, the MCP server, the evaluation and the command line.
mod Prelude
pub mod Research
pub mod Budget
pub mod Snapshot
pub mod Finalization
pub mod Citations
pub mod Sources
pub mod RunReceipts
pub mod Storage
pub mod Service
mod Tests
