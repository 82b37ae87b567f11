-- ===== src/Run/Events.antt =====
-- run_runtime/events.py: the event types, events, and their validation. The type of an event is a
-- text in the source: `custom` holds the texts that name no member of `RunEventType`.
use imece_ide.Base.{
  ℕ, String, Bool, str_eq, Option, Result, ok, event_validation, ◌>>◌, refuse, ◌==◌,
}
use imece_ide.Json.{Dict, validate_json_dict}

pub data RunEventType : Type 0 where
  run_created run_started run_phase_changed run_waiting_user run_completed : RunEventType
  run_failed run_cancelled run_interrupted run_resumed : RunEventType
  turn_started turn_completed model_started model_completed model_failed : RunEventType
  tool_requested tool_started tool_completed tool_failed tool_interrupted : RunEventType
  permission_requested permission_resolved : RunEventType
  execution_started execution_output execution_completed execution_failed : RunEventType
  plan_started plan_completed plan_failed plan_interrupted : RunEventType
  usage_recorded agent_activity : RunEventType
  change_proposed proposal_ready proposal_applied proposal_rejected : RunEventType
  review_started review_completed review_failed review_interrupted : RunEventType
  verification_started verification_check_started verification_check_completed : RunEventType
  verification_check_failed verification_check_interrupted : RunEventType
  verification_completed verification_interrupted : RunEventType
  checkpoint_created checkpoint_restored : RunEventType
  fix_loop_started fix_attempt_started fix_attempt_completed fix_attempt_interrupted : RunEventType
  fix_loop_completed fix_loop_exhausted fix_loop_failed fix_loop_interrupted : RunEventType
  decision_made : RunEventType
  custom : String → RunEventType

pub record RunEventSpec : Type 0 where
  pub type : RunEventType
  pub payload : Dict
  pub schema_version : ℕ
  pub execution_id : Option String
  pub turn_id : Option String
  pub item_id : Option String
  pub causation_id : Option String
  pub correlation_id : Option String
  pub source : String
  pub created_at : ℕ
  pub event_id : String

pub record RunEvent : Type 0 where
  pub event_id : String
  pub run_id : String
  pub seq : ℕ
  pub type : RunEventType
  pub schema_version : ℕ
  pub created_at : ℕ
  pub execution_id : Option String
  pub turn_id : Option String
  pub item_id : Option String
  pub causation_id : Option String
  pub correlation_id : Option String
  pub source : String
  pub payload : Dict

is_empty_type : RunEventType → Bool
is_empty_type (custom t) = str_eq t ""
is_empty_type _ = Bool.false

-- The checks of `build_event`, in their order.
unfoldable pub check_event : String → ℕ → RunEventSpec → Result (Unit {0})
unfolding is_empty_type
check_event run_id seq spec = do
  refuse (str_eq run_id "") event_validation
  refuse (is_empty_type spec.type) event_validation
  refuse (str_eq spec.source "") event_validation
  refuse (seq == 0) event_validation
  refuse (spec.schema_version == 0) event_validation
  validate_json_dict spec.payload

unfoldable pub make_event : String → ℕ → RunEventSpec → RunEvent
make_event run_id seq spec = record {
  event_id = spec.event_id;
  run_id = run_id;
  seq = seq;
  type = spec.type;
  schema_version = spec.schema_version;
  created_at = spec.created_at;
  execution_id = spec.execution_id;
  turn_id = spec.turn_id;
  item_id = spec.item_id;
  causation_id = spec.causation_id;
  correlation_id = spec.correlation_id;
  source = spec.source;
  payload = spec.payload;
}

-- build_event
unfoldable pub build_event : String → ℕ → RunEventSpec → Result RunEvent
build_event run_id seq spec = do check_event run_id seq spec; ok (make_event run_id seq spec)
