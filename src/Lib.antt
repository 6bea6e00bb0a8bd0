-- ===== src/Lib.antt =====
-- Bridle coordinates agents that change a project under test: a node of the project's plan goes
-- through a gate of test contract, red run, implementation and final verification before its change
-- is published, and agents exchange durable mail. This library models the parts that must not go
-- wrong when processes crash, race or repeat themselves.
--
-- Workflow: backend/src/bridle/agent/runtime/modification_workflow.py and the tables that it keeps
-- in backend/src/bridle/features/project_map/store.py.
--   Workflow.Machine     the states, the events and `_TRANSITIONS`
--   Workflow.Store       the tables as lists of rows, `_connect`, `_record_change`, the readers
--   Workflow.Transition  `apply_modification_transition` and `ModificationWorkflow.apply`
--   Workflow.Contracts   `freeze_test_contract`, `invalidate_test_contract`
--   Workflow.Runs        `enqueue_`, `claim_`, `complete_verification_run`,
--                        `renew_verification_lease`, `next_verification_retry_at`
--   Workflow.Defer       `defer_verification_run` and the blocking of a workflow
--   Workflow.Audit       the trail of events as a run of the state machine
--   Workflow.History     every sequence of these calls
-- Mailbox: backend/src/bridle/agent/runtime/persistent_mailbox.py with the values of mailbox.py.
--   Mailbox.Table        the rows of `mail_messages`, envelopes and results
--   Mailbox.Delivery     `enqueue`, `claim`
--   Mailbox.Leases       `renew`, `ack`, `nack`, `close`
--   Mailbox.Waiting      `has_pending`, `is_empty_at_version`, `_next_due_delay`
--   Mailbox.Effects      what each operation has done to the table, for the proofs
--   Mailbox.History      every sequence of calls by any number of consumers
-- RedRun: backend/src/bridle/agent/container/red_classification.py, whose verdict picks the event
-- that the workflow takes after a red run.
--   RedRun.Evidence      the contract and the manifest as they are read
--   RedRun.Classify      `classify_red_verification`, `event_for_red_classification`
-- Authorization: backend/src/bridle/agent/runtime/authorization.py, which decides what an agent
-- may do and what it may pass on.
--   Authorization.Paths      `_normalize_relative_path` over `posixpath.normpath`, `_path_contains`
--   Authorization.Grants     the records of a grant
--   Authorization.Normalize  the normalization of scopes, tools, skills, budgets and identities
--   Authorization.Tokens     `RevocationToken`, `ContinuationStartReservation`, and any schedule of
--                            the threads that use them
--   Authorization.Payload    the JSON that a grant is hashed over
--   Authorization.Decide     `_build_grant`, `resolve`, `authorize`
--   Authorization.Derive     `derive` and its checks, chains of derivations
--   Authorization.Execute    `execute_authorized`
-- Diff: backend/src/bridle/agent/tools/unified_diff.py, the patches by which agents change files.
--   Diff.Lines           `str.splitlines` and prefixes
--   Diff.Hunks           `DiffHunk`, `dry_run_apply`
--   Diff.Parse           `parse_unified_diff`, `_parse_hunk`
--   Diff.Validate        `validate_patch_for_path` with the paths of the headers
-- Events: backend/src/bridle/events/bus.py, which tells its subscribers what happened.
--   Events.Bus           `EventBus`; a subscriber is a generator that runs up to its
--                        next suspension
--   Events.Order         every order of publications and runs on one event loop
--   Events.Sound         what these steps keep, for the proofs
--   Events.Replay        a replay with and without a publication
--
-- A table is a list of rows in the order of insertion. A transaction maps the tables to new tables
-- and a reply, or raises: SQLite runs the transactions of all processes one after another, commits
-- what returns and rolls back what raises, so a history is a sequence of transactions. SELECT,
-- UPDATE and COUNT are `select_one`, `update_where` and `rowcount` of Prelude. A unique index is a
-- test that raises `integrity_error` where the code has not looked before it inserts.
--
-- Numbers are natural, but for the counts of a budget, which are integers. Times and durations are
-- counts of microseconds, the resolution that the mailbox stores; the rounding of floating-point
-- seconds is left out, but not their overflow: from 1025 attempts on the delay of a retry is no
-- float, and `nack` and `defer_verification_run` raise.
-- The loops are structural recursions, so no definition needs fuel.
--
-- The clock, fresh tokens and the lock of the database are arguments. So are the reader of a
-- snapshot's version and its SHA-256. The tuples of case ids that a verdict lists stand unsorted.
-- Addresses are compared as triples and not as texts. Columns that only record the time of a row,
-- log lines and the payloads of `change_events` are left out. In Authorization, `json.dumps`,
-- SHA-256 and the texts of numbers are arguments (`Encoding`); a frozenset is the sorted list of its
-- members, a token is known by a number as by `id`, and a float of a budget is kept as the bit
-- pattern of its double. In Diff, error texts are constructors, the hints for a recovery are left
-- out, and the digits of a hunk header are those of ASCII. A thread's work under the locks of a
-- lineage is one step. Not modelled are the loop of `receive` with its wake signal, the rest of
-- store.py, the gateway and the containers, the other tools, the indexers and the HTTP application.
pub mod Prelude
pub mod Errors
pub mod Workflow
pub mod RedRun
pub mod Mailbox
pub mod Authorization
pub mod Diff
pub mod Events
