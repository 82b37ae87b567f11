-- ===== src/Run/Samples.antt =====
-- A concrete environment, a run and its log, for the tests and the instances of the theorems.
use imece_ide.Base.{
  is_sha256, ℕ, zero, suc, ◌+◌, String, Option, none, some, List, [], ◌∷◌, ◌++◌, Result, ok, err,
}
use imece_ide.Json.{end, validate_json_dict, holds_text}
use imece_ide.Run.Models.{FloatOps}
use imece_ide.Run.Events.{RunEventType, RunEventSpec, build_event, check_event, make_event}
use imece_ide.Run.Runtime.{Environment, RunRuntime, texts, current_run, record_event, record_two}
use imece_ide.Run.Store.{
  TaskRecord, Store, get_run, append_event, append_events, create_run, create_task, conflicts,
  update_run, rows_of,
}
use imece_ide.Run.Projector.{project_run}
use imece_ide.Run.History.{load_full_event_history, events, select_rows}
use imece_ide.Run.Completion.Kinds.{
  is_execution_lifecycle, is_verification_started, is_verification_terminal,
  is_verification_interrupted, is_verification_completed, is_execution_completed, is_review_started,
  is_review_terminal, is_review_completed,
}
use imece_ide.Run.Completion.Checks.{
  verified_execution, require_latest_verification, settled_execution, has_newer_execution_activity,
  execution_id_of, approved_review,
}
use imece_ide.Run.Completion.Gate.{evidence, settle, complete_verified, complete_reviewed}
use imece_ide.Run.Store.Reachability.{Operation, task, run, event, batch, empty_store, steps, step}

-- Only 0.0 is added in the tests.
instance abbrev pub sample_floats : FloatOps
sample_floats = record { add = λ a b. a + b; of_int = λ n. some 0 }

abbrev pub marks : ℕ → String
marks zero = "z"
marks (suc n) = String.◌∷◌ "e" (marks n)

instance abbrev pub sample_environment : Environment
sample_environment = record { utcnow = λ n. n; new_event_id = marks; new_id = marks }

abbrev pub sample_spec :
    String → RunEventType → Option String → List (String × String) → RunEventSpec
sample_spec id type execution_id payload = record {
  type = type;
  payload = texts payload;
  schema_version = 1;
  execution_id = execution_id;
  turn_id = none;
  item_id = none;
  causation_id = none;
  correlation_id = none;
  source = "test";
  created_at = 7;
  event_id = id;
}

abbrev pub sample_task : TaskRecord
sample_task = record { task_id = "t"; project_root = "/p"; prompt = "do it"; created_at = 1 }

abbrev pub opening : List Operation
opening =
    task sample_task
    ∷ run "r" "t" 1 none end none none 1
    ∷ event "r" (sample_spec "a" RunEventType.run_started none []) (some 0)
    ∷ []

-- An execution that completed, and a verification that passed.
abbrev pub verified_specs : List RunEventSpec
verified_specs =
    sample_spec "b" RunEventType.execution_started (some "x") []
    ∷ sample_spec "c" RunEventType.execution_completed (some "x") []
    ∷ sample_spec "d" RunEventType.verification_started none (("verification_id", "v") ∷ [])
    ∷ sample_spec "f" RunEventType.verification_completed none
        (("verification_id", "v") ∷ ("status", "pass") ∷ [])
    ∷ []

abbrev pub sha : String
sha = "0123456789abcdef0123456789abcdef0123456789abcdef0123456789abcdef"

-- A review that approved.
abbrev pub approved_specs : List RunEventSpec
approved_specs =
    sample_spec "g" RunEventType.review_started none (("review_id", "w") ∷ [])
    ∷ sample_spec "h" RunEventType.review_completed none (
        ("review_id", "w")
        ∷ ("verdict", "APPROVED")
        ∷ ("verification_id", "v")
        ∷ ("verification_status", "pass")
        ∷ ("diff_sha256", sha)
        ∷ [])
    ∷ []

-- What a test of the code has to see through.
unfoldable pub opened : Store
unfolding steps step get_run append_event append_events validate_json_dict create_run create_task
    build_event check_event project_run make_event conflicts update_run rows_of
opened = steps opening empty_store

abbrev pub reviewed_script : List Operation
reviewed_script =
    opening ++ batch "r" verified_specs (some 1) ∷ batch "r" approved_specs (some 5) ∷ []

unfoldable pub reviewed_runtime : RunRuntime
unfolding opened current_run evidence load_full_event_history events select_rows verified_execution
    require_latest_verification settled_execution has_newer_execution_activity execution_id_of
    holds_text is_execution_lifecycle is_verification_started is_verification_terminal
    is_verification_interrupted is_verification_completed is_execution_completed is_review_started
    is_review_terminal is_review_completed approved_review is_sha256 settle record_event record_two
    complete_verified complete_reviewed
reviewed_runtime = record { store = steps reviewed_script empty_store; tick = 0 }

abbrev pub from_ok {ℓ} : {A : Type ℓ} → A → Result A → A
from_ok d (ok a) = a
from_ok d (err _) = d
