-- ===== src/Run/Recovery/Scan.antt =====
-- The families of unfinished work in run_runtime/recovery.py, and the closing of one run.
use imece_ide.Base.{
  ℕ, suc, ◌+◌, String, Bool, true, false, not, ◌&&◌, if◌then◌else◌, str_eq, any, length, Option,
  none, some, List, [], ◌∷◌, ◌++◌, Error, event_sequence, Result, ok, err, ◌>>=◌,
}
use imece_ide.Json.{Value}
use imece_ide.Run.Models.{FloatOps, RunRecord}
use imece_ide.Run.Events.{RunEventType, RunEvent, RunEventSpec}
use imece_ide.Run.Store.{append_events}
use imece_ide.Run.History.{load_full_event_history}
use imece_ide.Run.Runtime.{
  Environment, RunRuntime, current_run, current_schema_version, record_event,
}
use imece_ide.Run.Recovery.Drafts.{
  Draft, fields, value_of, reason, unknown, is_given, same_item, or_id, started_items, tool_drafts,
  belongs, Family, family_drafts,
}

unfoldable pub is_check_started : RunEventType → Bool
is_check_started RunEventType.verification_check_started = true
is_check_started _ = false

unfoldable pub is_check_terminal : RunEventType → Bool
is_check_terminal RunEventType.verification_check_completed = true
is_check_terminal RunEventType.verification_check_failed = true
is_check_terminal RunEventType.verification_check_interrupted = true
is_check_terminal _ = false

-- The checks of a verification that have not ended.
unfoldable pub check_drafts :
    List RunEvent → String → Option ℕ → RunEvent → List RunEvent → List Draft
check_drafts history id next started [] = []
check_drafts history id next started (e ∷ events) =
    let rest = check_drafts history id next started events in
    if is_check_started e.type
      && is_given e.item_id
      && belongs "verification_id" id next started.seq e
      && not (
          any
            (λ x.
              same_item x.item_id e.item_id
              && is_check_terminal x.type
              && belongs "verification_id" id next e.seq x)
            history)
    then record {
      type = RunEventType.verification_check_interrupted;
      payload = fields (
          ("verification_id", Value.str id)
          ∷ ("check_id", value_of "check_id" e.payload)
          ∷ reason
          ∷ unknown
          ∷ []);
      execution_id = none;
      turn_id = e.turn_id;
      item_id = e.item_id;
      correlation_id = e.correlation_id;
    }
      ∷ rest
    else rest

unfoldable pub is_attempt_started : RunEventType → Bool
is_attempt_started RunEventType.fix_attempt_started = true
is_attempt_started _ = false

unfoldable pub is_attempt_terminal : RunEventType → Bool
is_attempt_terminal RunEventType.fix_attempt_completed = true
is_attempt_terminal RunEventType.fix_attempt_interrupted = true
is_attempt_terminal _ = false

-- `==` on two identifiers, each a text or None
abbrev same_identifier : Value → Value → Bool
same_identifier (Value.str a) (Value.str b) = str_eq a b
same_identifier Value.null Value.null = true
same_identifier _ _ = false

-- payload.get("fix_attempt_id") of two events
abbrev same_attempt : RunEvent → RunEvent → Bool
same_attempt x e =
    same_identifier (value_of "fix_attempt_id" x.payload) (value_of "fix_attempt_id" e.payload)

-- The attempts of a fix loop that have not ended.
unfoldable pub attempt_drafts :
    List RunEvent → String → Option ℕ → RunEvent → List RunEvent → List Draft
attempt_drafts history id next started [] = []
attempt_drafts history id next started (e ∷ events) =
    let rest = attempt_drafts history id next started events in
    if is_attempt_started e.type
      && belongs "fix_loop_id" id next started.seq e
      && not (
          any
            (λ x.
              same_attempt x e
              && is_attempt_terminal x.type
              && belongs "fix_loop_id" id next e.seq x)
            history)
    then record {
      type = RunEventType.fix_attempt_interrupted;
      payload = fields (
          ("fix_loop_id", Value.str id)
          ∷ ("fix_attempt_id", value_of "fix_attempt_id" e.payload)
          ∷ ("attempt_index", value_of "attempt_index" e.payload)
          ∷ ("worker_execution_id", value_of "worker_execution_id" e.payload)
          ∷ reason
          ∷ unknown
          ∷ []);
      execution_id = none;
      turn_id = none;
      item_id = none;
      correlation_id = some id;
    }
      ∷ rest
    else rest

unfoldable pub plans : Family
plans = record {
  key = "plan_id";
  starts = λ t. elim t [ RunEventType.plan_started ↦ true | _ ↦ false ];
  ends = λ t. elim t [
    | RunEventType.plan_completed ↦ true
    | RunEventType.plan_failed ↦ true
    | RunEventType.plan_interrupted ↦ true
    | _ ↦ false
  ];
  interrupted = RunEventType.plan_interrupted;
  correlates = λ e id. or_id e.correlation_id id;
  parts = λ history id next e. [];
}

unfoldable pub verifications : Family
verifications = record {
  key = "verification_id";
  starts = λ t. elim t [ RunEventType.verification_started ↦ true | _ ↦ false ];
  ends = λ t. elim t [
    | RunEventType.verification_completed ↦ true
    | RunEventType.verification_interrupted ↦ true
    | _ ↦ false
  ];
  interrupted = RunEventType.verification_interrupted;
  correlates = λ e id. or_id e.correlation_id id;
  parts = λ history id next e. check_drafts history id next e history;
}

unfoldable pub reviews : Family
reviews = record {
  key = "review_id";
  starts = λ t. elim t [ RunEventType.review_started ↦ true | _ ↦ false ];
  ends = λ t. elim t [
    | RunEventType.review_completed ↦ true
    | RunEventType.review_failed ↦ true
    | RunEventType.review_interrupted ↦ true
    | _ ↦ false
  ];
  interrupted = RunEventType.review_interrupted;
  correlates = λ e id. or_id e.correlation_id id;
  parts = λ history id next e. [];
}

unfoldable pub fix_loops : Family
fix_loops = record {
  key = "fix_loop_id";
  starts = λ t. elim t [ RunEventType.fix_loop_started ↦ true | _ ↦ false ];
  ends = λ t. elim t [
    | RunEventType.fix_loop_completed ↦ true
    | RunEventType.fix_loop_exhausted ↦ true
    | RunEventType.fix_loop_failed ↦ true
    | RunEventType.fix_loop_interrupted ↦ true
    | _ ↦ false
  ];
  interrupted = RunEventType.fix_loop_interrupted;
  correlates = λ e id. some id;
  parts = λ history id next e. attempt_drafts history id next e history;
}

-- specs, before `run.interrupted` is added
unfoldable pub unfinished : List RunEvent → List Draft
unfinished history =
    tool_drafts history (started_items [] history)
    ++ family_drafts plans history history
    ++ family_drafts verifications history history
    ++ family_drafts reviews history history
    ++ family_drafts fix_loops history history

abbrev pub interruption : Draft
interruption = record {
  type = RunEventType.run_interrupted;
  payload = fields (reason ∷ []);
  execution_id = none;
  turn_id = none;
  item_id = none;
  correlation_id = none;
}

abbrev pub is_stale_error : Error → Bool
is_stale_error event_sequence = true
is_stale_error _ = false

module _ ⦃fp : FloatOps⦄ ⦃env : Environment⦄ where
  -- RunEventSpec(…), with the time and the identifier that its defaults make
  abbrev pub spec_of_draft : Draft → ℕ → RunEventSpec
  spec_of_draft d tick = record {
    type = d.type;
    payload = d.payload;
    schema_version = current_schema_version;
    execution_id = d.execution_id;
    turn_id = d.turn_id;
    item_id = d.item_id;
    causation_id = none;
    correlation_id = d.correlation_id;
    source = "recovery";
    created_at = env.utcnow tick;
    event_id = env.new_event_id tick;
  }

  unfoldable pub stamped : List Draft → ℕ → List RunEventSpec
  stamped [] tick = []
  stamped (d ∷ drafts) tick = spec_of_draft d tick ∷ stamped drafts (tick + 1)

  -- `record` of one event where nothing is unfinished, `record_many` of all of them with the run's last
  unfoldable pub record_drafts : RunRecord → List Draft → RunRuntime → Result RunRuntime
  record_drafts candidate [] rt =
      record_event candidate.run_id RunEventType.run_interrupted (fields (reason ∷ [])) none none
        "recovery" (some candidate.last_event_seq) rt
  record_drafts candidate (d ∷ drafts) rt = do
    (events, run, store) ←
        append_events candidate.run_id (stamped ((d ∷ drafts) ++ interruption ∷ []) rt.tick)
          (some candidate.last_event_seq) rt.store
    ok (record { store = store; tick = rt.tick + length (d ∷ drafts) + 1 })

  -- The history of a run, over as many pages as it has.
  unfoldable pub whole_history : String → RunRuntime → Result (List RunEvent)
  whole_history run_id rt = do
    run ← current_run run_id rt
    load_full_event_history (suc run.last_event_seq) run_id 200 none rt.store

  -- The body of `for candidate in candidates`, which tells whether the run was interrupted or skipped. The
  -- candidate was read before, so the run may have moved on.
  unfoldable pub recover_run : RunRecord → RunRuntime → Result (Bool × RunRuntime)
  recover_run candidate rt = do
    history ← whole_history candidate.run_id rt
    elim (record_drafts candidate (unfinished history) rt) [
      | ok after ↦ ok (true, after)
      | err e ↦
          if is_stale_error e
          then (current_run candidate.run_id rt >>= λ _. ok (false, rt))
          else err e
    ]
