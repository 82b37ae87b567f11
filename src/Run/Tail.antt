-- ===== src/Run/Tail.antt =====
-- `DurableEventTail` of run_runtime/service.py: a reader of a run's log that keeps a cursor and waits for
-- what is not yet there.
pub mod Rows
pub mod Exact
mod Examples
use imece_ide.Base.{
  ℕ, String, Bool, true, false, ◌||◌, leb, Option, none, some, List, [], ◌∷◌, ◌++◌, Result, ok, err,
  Error, event_stream_closed, event_validation, if◌then◌else◌, ◌>>=◌,
}
use imece_ide.Run.Store.{Store, get_run}
use imece_ide.Run.Events.{RunEvent}
use imece_ide.Run.History.{EventPage, events, last_seq}

-- The tail; the subscription that it waits on holds no events.
pub record Tail : Type 0 where
  pub run_id : String
  pub cursor : ℕ
  pub closed : Bool

-- What a pass of the loop of `next_page` finds: other threads may have appended to the store or closed
-- the tail while it waited.
pub record Moment : Type 0 where
  pub store : Store
  pub closed : Bool
  pub now : ℕ

-- A call returns a page, or None, or raises, or it waits still after the moments that are given.
pub data Reply : Type 0 where
  page : EventPage → Reply
  nothing : Reply
  raised : Error → Reply
  waiting : Reply

-- remaining <= 0
abbrev pub is_past : Option ℕ → ℕ → Bool
is_past none now = false
is_past (some deadline) now = leb deadline now

-- The pass after its query; `rest` is what the loop does after a wait.
unfoldable pub after_query : Tail → Bool → Reply × Tail → Result EventPage → Reply × Tail
after_query t past rest (err e) = (raised e, t)
after_query t past rest (ok p) = elim p.events [
  | [] ↦ if past then (nothing, t) else rest
  | e ∷ es ↦ (page p, record t { cursor = last_seq t.cursor p.events })
]

-- next_page, by its limit, its deadline and the moments of its passes
unfoldable pub next_page : ℕ → Option ℕ → List Moment → Tail → Reply × Tail
unfolding after_query
next_page limit deadline [] t = (waiting, t)
next_page limit deadline (m ∷ ms) t =
    let rest = next_page limit deadline ms t in
    if t.closed || m.closed
    then (raised event_stream_closed, record t { closed = true })
    else after_query t (is_past deadline m.now) rest (events t.run_id t.cursor limit m.store)

-- RunRuntime.open_event_tail
unfoldable pub open_event_tail : String → ℕ → Store → Result Tail
open_event_tail run_id after_seq s = do
  run ← get_run run_id s
  ok (record { run_id = run_id; cursor = after_seq; closed = false })

-- A call of a reader: its limit, its deadline and the moments that it meets.
pub record Call : Type 0 where
  pub limit : ℕ
  pub deadline : Option ℕ
  pub moments : List Moment

abbrev pub events_of : Reply → List RunEvent
events_of (page p) = p.events
events_of _ = []

-- All that a reader is given by its calls, one after the other.
unfoldable pub follow : List Call → Tail → List RunEvent × Tail
unfolding next_page
follow [] t = ([], t)
follow (c ∷ cs) t =
    let (reply, after) = next_page c.limit c.deadline c.moments t in
    let (others, last) = follow cs after in (events_of reply ++ others, last)
