-- ===== src/Lib.antt =====
-- Verification of the run core of imece-ide, a desktop environment in which agents plan, write, verify
-- and review changes of a project. A task is worked on in runs. What happens in a run is a log of
-- events in an SQLite store; the run's record (status, phase, tokens, times) is the projection of the
-- log. The layers above decide by the log: the completion gate settles a run only on the evidence of
-- its events, and the fix loop lets a worker try again, within bounds, until verification and review
-- agree. The pipeline composes planner, worker, verification, review and fix loop into the life of a
-- run. These are modelled:
--
--   Base        texts, lists, tests, and results: an exception is its class, without its message
--   Json        run_runtime/jsonutil.py: JSON values and their validation
--   Run         run_runtime: the log and what is decided by it
--     Models      models.py: statuses, phases, the record of a run
--     Events      events.py: event types, specs, events and their validation
--     Projector   projector.py: project_run, one handler for each type of event
--     Store       store.py, schema.py: create_task, create_run, get_run, append_event, append_events
--     History     store.py events, readmodels.py load_full_event_history: the log in pages
--     Runtime     service.py: record and record_many, with the clock and the identifiers
--     Tail        service.py DurableEventTail: reading on, and waiting for what is not yet there
--     Bus         bus.py: subscriptions, notices, and whom the bus wakes
--     Completion  completion.py: the evidence, complete_verified, complete_reviewed, fail_execution,
--                 fail_verification, fail_fix_loop (Kinds, Checks and Gate hold the code)
--     Recovery    recovery.py: what is unfinished in a history (Drafts), and the closing of one run
--                 (Scan)
--   Verification verification_runtime: checks, plans, results, reports (Models), the runner (Runner)
--   Review      review_runtime/models.py: reports and requests
--   Decision    decision_runtime: policy.py, the action table of triage.py, the guard of gate.py
--   Fix         fix_runtime, run_runtime/fix_loop.py: triggers, requests and reports (Models), the
--               recorder (Recorder), the state and exception monad (Task), the collaborators (Ports),
--               their wrappers (Calls), the branches of an attempt (Branches), one attempt and the
--               loop (Runner), run (Loop)
--   Planner     planner_runtime/models.py: plans and their validation
--   Pipeline    pipeline_runtime, run_runtime/pipeline.py: the recorder (Recorder), the reports
--               (Models), the collaborators (Ports) and their wrappers (Calls), the ways to end (Ends), a run and
--               the follow-up on a proposal (Runner), the task of a review (Feedback)
--   Collab      collab_runtime: scopes of tasks (Scopes), the state of a shared session and its parser
--               (Models), GitStore.publish and fetch_state of store.py (Hub), coordinator.py
--               (Coordinator), and the replay of published states (Replay)
--   Process     process_runtime/capture.py: the bounded capture of an output
--   Acp         acp_runtime/permission_policy.py: the permission policy of the worker
--
-- The state of a store is its tables: lists of tasks, runs and event rows, in insertion order, with
-- the keys that the schema declares checked by every insert. An operation returns the new store or
-- an exception, and a transaction that raises leaves the store as it was. The run runtime adds a
-- tick, from which the environment (a parameter) makes times and identifiers. The fix loop runs in a
-- world of the runtime, its recorder and the state of the outside; what it changed before it raised
-- stays changed.
--
-- Numbers are natural numbers. A time is a number. A non-negative float is the number of its bits,
-- and its sum a parameter (FloatOps); non-negative floats are ordered as these numbers. An SQLite
-- integer is not bounded here.
--
-- Loops. `load_full_event_history` runs on fuel, one unit for each page: a run with n events has at
-- most n pages that are not empty, so n are enough (Run/History/Pages). The loop over the
-- attempts of a fix loop runs on the number of attempts left, which its range bounds (Fix/Enough).
-- All other loops follow a list.
--
-- Parameters: the planner, the detection of a verification plan, the clock and identifiers, the
-- process runner, the sinks of verification events, the collaborators of the fix loop and the pipeline
-- (worker, verification, reviewer, change provider, decision gate, rendering of the prompt), and
-- `realpath` and `isabs` of the operating system. Where a theorem over a fix loop asks that its
-- collaborators leave a consistent store consistent, that is what they do that write to it by its own
-- operations. Git is a parameter of a shared session: the state that a revision holds, the revision
-- made of a state and its parent, ancestry, and the lines of rev-list; so is SHA-256. What other
-- clients did to the hub during a call is an argument of the call.
--
-- A bus is a dictionary and the subscriptions that were made, and each of its calls is one step: a
-- publication takes its snapshot of the subscribers and wakes them at once. A wait is one pass of its
-- loop. A shared session is what its revisions hold; each call of the coordinator fetches it anew.
--
-- Not modelled: connections and PRAGMAs of SQLite, decoding of damaged rows, the texts of error
-- messages, list_runs and active_runs, the import of old files, the other recorders, the prompts and
-- parsers of planner and reviewer, the native agent and its providers, the ACP client beyond its
-- policy, child processes beyond the capture of their output, workspaces and git, the collaboration
-- runtime beyond the shared session, and the user interface.
pub mod Acp
pub mod Base
pub mod Collab
pub mod Decision
pub mod Fix
pub mod Json
pub mod Pipeline
pub mod Planner
pub mod Process
pub mod Review
pub mod Run
pub mod Verification
