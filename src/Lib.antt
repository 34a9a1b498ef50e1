-- ===== src/Lib.antt =====
-- OpenCode Gateway: the write side of the AFK Run tables, the projections over them, and the
-- replay merge of usage events.
--
-- An AFK Run (a lifecycle) is provisioned from a webhook batch, executed by AWX jobs, and bound to
-- one change request. The repository methods of afk_outcomes/repository run in a transaction on
-- PostgreSQL; a reconciliation pass ends executions whose job never called back; a status is
-- projected from the outcomes of the executions. A correlation engine reconstructs a run from
-- entities and events by rules. Closure episodes are projected from the facts of
-- issues and change requests. Separately, a usage event that is delivered again corrects its row,
-- the totals of its session and a daily rollup; the events come from a Kafka consumer that posts
-- each message to the API and sends what is rejected to a DLQ, which an operator sweeps.
--
-- The files:
--   Prelude: names of the libraries, Boolean tests (Prelude/Tests), lists (Prelude/Lists),
--     integers (Prelude/Int).
--   Domain: the enumerations of afk_outcomes/models.py.
--   Store: the tables of app/db/models/afk.py as lists of rows, and the shared SELECTs.
--   Result: what a method that may raise returns.
--   Lifecycle: afk_outcomes/repository/lifecycle.py: update_afk_run,
--     _apply_change_request_binding, bind_change_request, get_afk_run_by_change_request. Children:
--     the 1:1 rule (Ownership), the lookup (Lookup), what a binding keeps (Frame).
--   Provisioning: provision_afk_run of the same file, with its delivery batches. Children: the
--     replay (Replay), the uniqueness rules (Keys).
--   Executions: the session columns and links of afk_outcomes/repository/executions.py and
--     crud.py (Executions/SessionLinks: the links that stay).
--   Creation: create_or_replay_afk_execution_binding. Terminal:
--     update_execution_binding_terminal (Terminal/Transition: what it does; Terminal/Kept: what
--     it may overwrite). Checkpoints: the recovery checkpoints and the reads.
--   History: a sequence of calls of those methods, as an indexed data type (Reach), with an
--     induction principle (IsKept, Reach_induction). Children: the table of bindings alone
--     (Bindings), the uniqueness rules (Keys), the owner of a change request (Ownership), terminal
--     rows (Terminal), the lifecycle authority (Authority).
--   RunStatus: afk_outcomes/run_status.py.
--   MergePolicy: app/core/merge_policy.py. ReplayMerge: apply_replay_merge of
--     app/core/reconciliation.py.
--   Reconciler: afk_outcomes/service/execution_reconciliation.py.
--   Associations: afk_outcomes/associations.py.
--   Closure: afk_outcomes/closure_episodes.py. Children: the snapshots of one time (Snapshot), the
--     link states (Links), the episodes of an issue (Episodes); what a link goes through (LinkLaws),
--     webhooks against backfills (Webhook), merges (Merges), the intervals and the order of the
--     episodes (Intervals, Timeline), candidates and attributions (Candidates, Attribution).
--   Correlation: afk_outcomes/correlation.py. Children: the rules (Rules), the locks of the engine
--     (Engine), the copies and the links (Links), sessions, unresolved records and outcome
--     (Outcome), CorrelationEngine.resolve (Resolve); what the locks keep (Locks), the copies
--     (Copies), one link for an entity (LinkCounts, OneLink).
--   Consumer: _process_message of app/consumer/consumer.py. Children: one reply (Replies), the
--     retries (Retry).
--   AfkConsumer: app/consumer/afk_consumer.py: validation and mapping of the events. Children: what
--     becomes of a message (Process), the commit frontier (Frontier); that what is valid maps
--     (Mapping), one message (Steps), what is committed (Commit).
--   DlqSweep: app/consumer/dlq_sweep.py. Children: the report (Report), the offsets of a chunk
--     (Commit), one batch (Limits), the loop (Loop).
--   Envelope: app/core/envelope.py (Envelope/Once: one envelope). Pagination:
--     app/api/pagination.py.
--   Tests: examples at concrete tables.
--
-- State is passed explicitly: a method is a function from the tables to the tables and its result.
-- A raise carries no tables, since the transaction rolls back. Isolation is READ COMMITTED: where a
-- method has a branch for a race, what other transactions commit between its statements is an
-- argument (`between`), and in a history it may be any further history. A row that a method holds
-- with FOR UPDATE is a hypothesis on that argument where a theorem relies on it (IsLocked).
-- Every function is structurally recursive but the loop of the DLQ sweep, which runs on fuel: its
-- topic has no end, so the loop need not end. One round more than the number of the first poll that
-- times out is enough, and where no record is corrupt one more than the limit. A timestamp is a
-- natural number of microseconds, a Decimal cost an integer in a fixed small unit.
--
-- Arguments for code outside the repository: Python's int and str on job ids, str.strip and
-- str.lower, the AWX lookup, the ULID of a new lifecycle, the JSON and base64 codecs, UUID,
-- datetime.fromisoformat, SHA-256, regular expressions, pydantic's validation and the replies of the HTTP client.
--
-- Not modelled: columns that only hold now(), and the age filter that reads one; the decoding of
-- rows into pydantic models; save_execution_binding, which nothing calls, so no history contains
-- it; the advisory locks and the rebuild of historical usage; the
-- tables of the closure projection; the HTTP handlers, the poll loop of
-- the usage consumer, what its argument-less commit covers, and the start and stop of both consumers
-- (they only drive aiokafka), exceptions of its HTTP client other than a RequestError, the waits,
-- the metrics and the scheduled reconciliation of the AFK event consumer, the providers, migrations
-- and the frontend.
pub mod Prelude
pub mod Domain
pub mod Store
pub mod Result
pub mod Lifecycle
pub mod Provisioning
pub mod Executions
pub mod Creation
pub mod Terminal
pub mod Checkpoints
pub mod History
pub mod RunStatus
pub mod MergePolicy
pub mod ReplayMerge
pub mod Reconciler
pub mod Associations
pub mod Closure
pub mod Consumer
pub mod DlqSweep
pub mod Envelope
pub mod Pagination
pub mod Correlation
pub mod AfkConsumer
mod Tests
