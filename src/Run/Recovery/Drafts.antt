-- ===== src/Run/Recovery/Drafts.antt =====
-- What recover_running_runs of run_runtime/recovery.py finds unfinished in a run's history, as the events
-- that close it. An identifier of an attempt is a text or missing.
use imece_ide.Base.{
  ℕ, String, Bool, true, false, not, ◌&&◌, ltb, if◌then◌else◌, str_eq, any, Option, none, some,
  List, [], ◌∷◌, ◌++◌,
}
use imece_ide.Json.{Dict, Value, get, end, entry, holds_text}
use imece_ide.Run.Events.{RunEventType, RunEvent}

-- A RunEventSpec before it has its time and its identifier.
pub record Draft : Type 0 where
  pub type : RunEventType
  pub payload : Dict
  pub execution_id : Option String
  pub turn_id : Option String
  pub item_id : Option String
  pub correlation_id : Option String

abbrev pub fields : List (String × Value) → Dict
fields [] = end
fields (e ∷ es) = entry e.0 e.1 (fields es)

-- payload.get(key)
abbrev pub value_of : String → Dict → Value
value_of key d = elim (get key d) [ none ↦ Value.null | some v ↦ v ]

abbrev pub reason : String × Value
reason = ("reason", Value.str "process_restart")

abbrev pub unknown : String × Value
unknown = ("outcome_unknown", Value.bool true)

abbrev pub is_given : Option String → Bool
is_given none = false
is_given (some s) = not (str_eq s "")

abbrev pub same_item : Option String → Option String → Bool
same_item (some a) (some b) = str_eq a b
same_item none none = true
same_item _ _ = false

-- correlation_id or id
abbrev pub or_id : Option String → String → Option String
or_id none id = some id
or_id (some s) id = if str_eq s "" then some id else some s

unfoldable pub is_tool_started : RunEventType → Bool
is_tool_started RunEventType.tool_started = true
is_tool_started _ = false

unfoldable pub is_tool_terminal : RunEventType → Bool
is_tool_terminal RunEventType.tool_completed = true
is_tool_terminal RunEventType.tool_failed = true
is_tool_terminal RunEventType.tool_interrupted = true
is_tool_terminal _ = false

-- started_items[event.item_id] = event: the place of the first, the value of the last
unfoldable pub put_item : RunEvent → List RunEvent → List RunEvent
put_item e [] = e ∷ []
put_item e (x ∷ items) =
    let rest = put_item e items in if same_item x.item_id e.item_id then e ∷ items else x ∷ rest

unfoldable pub started_items : List RunEvent → List RunEvent → List RunEvent
started_items items [] = items
started_items items (e ∷ history) =
    if is_tool_started e.type && is_given e.item_id
    then started_items (put_item e items) history
    else started_items items history

unfoldable pub tool_drafts : List RunEvent → List RunEvent → List Draft
tool_drafts history [] = []
tool_drafts history (e ∷ items) =
    let rest = tool_drafts history items in
    if any (λ x. is_tool_terminal x.type && is_given x.item_id && same_item x.item_id e.item_id)
      history
    then rest
    else record {
      type = RunEventType.tool_interrupted;
      payload = fields (
          reason
          ∷ unknown
          ∷ ("call_id", value_of "call_id" e.payload)
          ∷ ("tool_name", value_of "tool_name" e.payload)
          ∷ []);
      execution_id = e.execution_id;
      turn_id = e.turn_id;
      item_id = e.item_id;
      correlation_id = e.correlation_id;
    }
      ∷ rest

-- isinstance(payload.get(key), str)
unfoldable pub text_at : String → Dict → Option String
text_at key d = elim (get key d) [ some (Value.str s) ↦ some s | _ ↦ none ]

-- The seq of the next start with the same identifier.
unfoldable pub next_start_seq : (RunEvent → Bool) → String → String → List RunEvent → Option ℕ
next_start_seq is_start key id [] = none
next_start_seq is_start key id (e ∷ later) =
    if is_start e && holds_text key e.payload id
    then some e.seq
    else next_start_seq is_start key id later

abbrev before : ℕ → Option ℕ → Bool
before seq none = true
before seq (some next) = ltb seq next

-- in_attempt, in_loop: after a seq, before the next start, with the same identifier
abbrev pub belongs : String → String → Option ℕ → ℕ → RunEvent → Bool
belongs key id next after e = ltb after e.seq && before e.seq next && holds_text key e.payload id

unfoldable pub is_closed :
    (RunEventType → Bool) → String → String → Option ℕ → ℕ → List RunEvent → Bool
is_closed ends key id next after history =
    any (λ e. belongs key id next after e && ends e.type) history

-- The draft that closes a plan, a verification, a review or a fix loop.
abbrev pub close : RunEventType → String → String → Option String → Draft
close type key id correlation_id = record {
  type = type;
  payload = fields ((key, Value.str id) ∷ reason ∷ []);
  execution_id = none;
  turn_id = none;
  item_id = none;
  correlation_id = correlation_id;
}

-- A kind of work with a start, an identifier and terminals; `parts` are the drafts of what is
-- unfinished inside it.
pub record Family : Type 0 where
  pub key : String
  pub starts : RunEventType → Bool
  pub ends : RunEventType → Bool
  pub interrupted : RunEventType
  pub correlates : RunEvent → String → Option String
  pub parts : List RunEvent → String → Option ℕ → RunEvent → List Draft

-- for index, started in enumerate(starts)
unfoldable pub family_drafts : Family → List RunEvent → List RunEvent → List Draft
family_drafts f history [] = []
family_drafts f history (e ∷ later) =
    let rest = family_drafts f history later in
    if f.starts e.type
    then elim (text_at f.key e.payload) [
      | none ↦ rest
      | some id ↦
          let next = next_start_seq (λ x. f.starts x.type) f.key id later in
          f.parts history id next e
          ++ (if is_closed f.ends f.key id next e.seq history
              then rest
              else close f.interrupted f.key id (f.correlates e id) ∷ rest)
    ]
    else rest
