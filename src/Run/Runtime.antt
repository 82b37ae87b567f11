-- ===== src/Run/Runtime.antt =====
-- run_runtime/service.py: `RunRuntime`, the store with its clock and its source of identifiers.
-- The notice that follows a committed append is not modelled: it carries no state of the run.
pub mod Recorded
use imece_ide.Base.{ℕ, ◌+◌, String, Option, some, List, [], ◌∷◌, Result, ok, ◌>>=◌}
use imece_ide.Json.{Dict, Value, end, entry}
use imece_ide.Run.Models.{FloatOps, RunRecord}
use imece_ide.Run.Events.{RunEventType, RunEvent, RunEventSpec}
use imece_ide.Run.Store.{Store, get_run, append_event, append_events}

-- `utcnow` and the fresh identifiers, by the number of the call.
pub record Environment : Type 0 where
  pub utcnow : ℕ → ℕ
  pub new_event_id : ℕ → String
  pub new_id : ℕ → String

pub record RunRuntime : Type 0 where
  pub store : Store
  pub tick : ℕ

abbrev pub current_schema_version : ℕ
current_schema_version = 1

-- {"key": "text", …}
abbrev pub texts : List (String × String) → Dict
texts [] = end
texts ((k, v) ∷ r) = entry k (Value.str v) (texts r)

-- The latest record of a run, as callers read it before they write.
unfoldable pub current_run : String → RunRuntime → Result RunRecord
current_run run_id rt = get_run run_id rt.store

module _ ⦃fp : FloatOps⦄ ⦃env : Environment⦄ where
  unfoldable pub spec_of :
      RunEventType → Dict → Option String → Option String → String → ℕ → RunEventSpec
  spec_of type payload execution_id correlation_id source tick = record {
    type = type;
    payload = payload;
    schema_version = current_schema_version;
    execution_id = execution_id;
    turn_id = Option.none;
    item_id = Option.none;
    causation_id = Option.none;
    correlation_id = correlation_id;
    source = source;
    created_at = env.utcnow tick;
    event_id = env.new_event_id tick;
  }

  -- RunRuntime.record
  unfoldable pub record_event :
      String
      → RunEventType
      → Dict
      → Option String
      → Option String
      → String
      → Option ℕ
      → RunRuntime
      → Result RunRuntime
  unfolding spec_of
  record_event run_id type payload execution_id correlation_id source expected rt = do
    (event, run, store) ←
        append_event run_id (spec_of type payload execution_id correlation_id source rt.tick)
          expected rt.store
    ok (record { store = store; tick = rt.tick + 1 })

  -- RunRuntime.record_many, of two events
  unfoldable pub record_two :
      String
      → RunEventType
      → Dict
      → RunEventType
      → Dict
      → Option String
      → String
      → Option ℕ
      → RunRuntime
      → Result RunRuntime
  unfolding spec_of
  record_two run_id type payload type2 payload2 correlation_id source expected rt = do
    (events, run, store) ←
        append_events run_id
          (spec_of type payload Option.none correlation_id source rt.tick
            ∷ spec_of type2 payload2 Option.none correlation_id source (rt.tick + 1)
            ∷ [])
          expected rt.store
    ok (record { store = store; tick = rt.tick + 2 })
