-- ===== src/Run/Store.antt =====
-- run_runtime/store.py: the three tables, and the transactions that write them. A transaction that
-- raises is rolled back, so it returns no new store. Rows that cannot be decoded, and a database
-- that fails, are not modelled.
pub mod Rows
pub mod Consistency
pub mod Concurrency
pub mod Reachability
use imece_ide.Base.{
  ℕ, ◌+◌, String, Bool, true, false, not, ◌&&◌, ◌||◌, ◌==◌, str_eq, Option, none, some, List, [],
  ◌∷◌, ◌++◌, Result, ok, err, run_not_found, event_validation, event_sequence, event_conflict,
  run_store, task_not_found, ◌>>=◌, ◌>>◌, guard, refuse, if◌then◌else◌, any,
}
use imece_ide.Json.{Dict, validate_json_dict}
use imece_ide.Run.Models.{FloatOps, RunRecord, new_run}
use imece_ide.Run.Events.{RunEvent, RunEventSpec, build_event}
use imece_ide.Run.Projector.{project_run}

pub record TaskRecord : Type 0 where
  pub task_id : String
  pub project_root : String
  pub prompt : String
  pub created_at : ℕ

pub record Store : Type 0 where
  pub tasks : List TaskRecord
  pub runs : List RunRecord
  pub events : List RunEvent

-- The rows of one run, in order of insertion.
unfoldable pub rows_of : String → List RunEvent → List RunEvent
rows_of k [] = []
rows_of k (e ∷ es) = let rest = rows_of k es in if str_eq e.run_id k then e ∷ rest else rest

-- SELECT * FROM runs WHERE run_id = ?
unfoldable pub find_run : String → List RunRecord → Option RunRecord
find_run k [] = none
find_run k (r ∷ rs) = if str_eq r.run_id k then some r else find_run k rs

-- The columns that `_update_run` leaves alone stay those of the row.
unfoldable pub set_columns : RunRecord → RunRecord → RunRecord
set_columns row r = record r {
  run_id = row.run_id;
  task_id = row.task_id;
  created_at = row.created_at;
}

-- _update_run
unfoldable pub update_run : RunRecord → List RunRecord → List RunRecord
unfolding set_columns
update_run r [] = []
update_run r (row ∷ rows) =
    (if str_eq row.run_id r.run_id then set_columns row r else row) ∷ update_run r rows

-- PRIMARY KEY (event_id) and UNIQUE (run_id, seq)
unfoldable pub conflicts : RunEvent → List RunEvent → Bool
conflicts e rows =
    any (λ row. str_eq row.event_id e.event_id || str_eq row.run_id e.run_id && row.seq == e.seq)
      rows

unfoldable pub get_run : String → Store → Result RunRecord
unfolding find_run
get_run run_id s = elim (find_run run_id s.runs) [ none ↦ err run_not_found | some r ↦ ok r ]

unfoldable pub create_task : TaskRecord → Store → Result Store
create_task t s = do
  refuse (any (λ row. str_eq row.task_id t.task_id) s.tasks) run_store
  ok (record s { tasks = s.tasks ++ t ∷ [] })

-- `retry_of_run_id REFERENCES runs(run_id)`, where the row that is inserted counts
retry_exists : Option String → List RunRecord → Bool
retry_exists none rows = true
retry_exists (some k) rows = any (λ row. str_eq row.run_id k) rows

optional_json : Option Dict → Result (Unit {0})
optional_json none = ok tt
optional_json (some d) = validate_json_dict d

-- RunRecord validates the dicts that it stores.
validate_run : RunRecord → Result (Unit {0})
unfolding optional_json
validate_run r = do
  validate_json_dict r.routing
  optional_json r.budget
  optional_json r.workspace_snapshot

-- The transaction of `create_run`: the task exists, the key is new, the retried run exists.
unfoldable pub insert_run : RunRecord → Store → Result (RunRecord × Store)
unfolding retry_exists validate_run
insert_run r s = do
  validate_run r
  guard (any (λ row. str_eq row.task_id r.task_id) s.tasks) task_not_found
  refuse (any (λ row. str_eq row.run_id r.run_id) s.runs) run_store
  guard (retry_exists r.retry_of_run_id (r ∷ s.runs)) run_store
  ok (r, record s { runs = s.runs ++ r ∷ [] })

unfoldable pub create_run :
    String
    → String
    → ℕ
    → Option String
    → Dict
    → Option Dict
    → Option Dict
    → ℕ
    → Store
    → Result (RunRecord × Store)
unfolding insert_run new_run
create_run run_id task_id attempt retry_of routing budget snapshot now s =
    insert_run (new_run run_id task_id attempt retry_of routing budget snapshot now) s

-- The optimistic precondition.
unfoldable pub is_stale : Option ℕ → RunRecord → Bool
is_stale none current = false
is_stale (some n) current = not (current.last_event_seq == n)

module _ ⦃fp : FloatOps⦄ where
  -- Number, build, project and insert one event: the body that `append_event` and the loop of
  -- `append_events` share.
  unfoldable pub append_row :
      RunRecord → RunEventSpec → Store → Result (RunEvent × RunRecord × Store)
  append_row current spec s = do
    event ← build_event current.run_id (current.last_event_seq + 1) spec
    projected ← project_run current event
    refuse (conflicts event s.events) event_conflict
    let updated = record projected { last_event_seq = event.seq }
    ok (
      event,
      updated,
      record s { runs = update_run updated s.runs; events = s.events ++ event ∷ [] },
    )

  unfoldable pub append_event :
      String → RunEventSpec → Option ℕ → Store → Result (RunEvent × RunRecord × Store)
  unfolding append_row is_stale
  append_event run_id spec expected s = do
    validate_json_dict spec.payload
    current ← get_run run_id s
    refuse (is_stale expected current) event_sequence
    append_row current spec s

  -- The loop of `append_events`, inside its transaction.
  unfoldable pub append_rows :
      RunRecord → List RunEventSpec → Store → Result (List RunEvent × RunRecord × Store)
  append_rows current [] s = ok ([], current, s)
  append_rows current (spec ∷ specs) s = do
    (event, updated, s1) ← append_row current spec s
    (events, last, s2) ← append_rows updated specs s1
    ok (event ∷ events, last, s2)

  is_empty : List RunEventSpec → Bool
  is_empty [] = true
  is_empty (_ ∷ _) = false

  unfoldable pub append_events :
      String → List RunEventSpec → Option ℕ → Store → Result (List RunEvent × RunRecord × Store)
  unfolding append_rows is_stale is_empty
  append_events run_id specs expected s = do
    refuse (is_empty specs) event_validation
    current ← get_run run_id s
    refuse (is_stale expected current) event_sequence
    append_rows current specs s
