-- ===== src/Run/Tail/Examples.antt =====
-- A reader of `DurableEventTail` (run_runtime/service.py) that waits for a batch of events.
use imece_ide.Base.{◌<◌, ◌≡◌, refl, false, none, List, [], ◌∷◌, length, arith}
use imece_ide.Run.Models.{RunRecord, new_run}
use imece_ide.Json.{end}
use imece_ide.Run.Events.{RunEvent}
use imece_ide.Run.Store.{rows_of, get_run}
use imece_ide.Run.Store.Consistency.{IsNumbered}
use imece_ide.Run.History.{EventPage}
use imece_ide.Run.Samples.{sample_environment, sample_floats, opened, reviewed_runtime, from_ok}
use imece_ide.Run.Tail.{Tail, Moment, page, Call, next_page, follow}
use imece_ide.Run.Tail.Rows.{Shows, Moved}
use imece_ide.Run.Tail.Exact.{follow-exact, next_page-prompt}

unfoldable log : List RunEvent
unfolding reviewed_runtime
log = rows_of "r" reviewed_runtime.store.events

log-IsNumbered : IsNumbered 0 log (length log)
unfolding log
log-IsNumbered = ground arith

-- The store before the batch, and after it.
abbrev early : Moment
early = record { store = opened; closed = false; now = 0 }

abbrev late : Moment
late = record { store = reviewed_runtime.store; closed = false; now = 1 }

abbrev no_record : RunRecord
no_record = new_run "" "" 0 none end none none 0

early-Shows : Shows "r" log opened
unfolding log
early-Shows = record {
  run = from_ok no_record (get_run "r" opened);
  found = refl;
  count = 1;
  bound = ground arith;
  rows = refl;
}

late-Shows : Shows "r" log reviewed_runtime.store
unfolding log
late-Shows = record {
  run = from_ok no_record (get_run "r" reviewed_runtime.store);
  found = refl;
  count = 7;
  bound = ground arith;
  rows = refl;
}

abbrev calls : List Call
calls =
    record { limit = 2; deadline = none; moments = early ∷ late ∷ [] }
    ∷ record { limit = 200; deadline = none; moments = late ∷ [] }
    ∷ []

abbrev reader : Tail
reader = record { run_id = "r"; cursor = 1; closed = false }

follow-exact_example : Moved log 1 (follow calls reader).0 (follow calls reader).1.cursor
unfolding log
follow-exact_example =
    follow-exact "r" log log-IsNumbered calls reader refl (ground arith)
      ((early-Shows, (late-Shows, tt)), ((late-Shows, tt), tt))

next_page-prompt_example :
    (p : EventPage) × ((next_page 2 none (late ∷ []) reader).0 ≡ page p) × (0 < length p.events)
unfolding late-Shows
next_page-prompt_example =
    next_page-prompt "r" log log-IsNumbered 2 none late [] reader late-Shows refl refl refl
      (ground arith) (ground arith)

-- The first call waits, and then returns a page of two events; the second returns the other four.
followed : ((follow calls reader).1.cursor ≡ 7) × (length (follow calls reader).0 ≡ 6)
unfolding log follow next_page
followed = (refl, refl)
