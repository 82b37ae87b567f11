-- ===== src/Run/History.antt =====
-- The paged reads: `RunStore.events` of run_runtime/store.py and `load_full_event_history` of
-- run_runtime/readmodels.py. The fuel of the loop is the number of pages that it may read.
pub mod Pages
use Prim.Native.Nat.{min}
use imece_ide.Base.{
  ℕ, zero, suc, ◌+◌, ◌-◌, String, Bool, true, false, ◌&&◌, ◌==◌, ltb, leb, str_eq, Option, none,
  some, List, [], ◌∷◌, ◌++◌, length, take, Result, ok, err, run_store, other_error, ◌>>=◌, ◌>>◌,
  guard, refuse, if◌then◌else◌,
}
use imece_ide.Run.Events.{RunEvent}
use imece_ide.Run.Store.{Store, rows_of, get_run}

pub record EventPage : Type 0 where
  pub events : List RunEvent
  pub has_more : Bool

abbrev pub max_event_page_limit : ℕ
max_event_page_limit = 200

-- WHERE seq > after_seq
unfoldable pub rows_after : ℕ → List RunEvent → List RunEvent
rows_after a [] = []
rows_after a (e ∷ es) = let rest = rows_after a es in if ltb a e.seq then e ∷ rest else rest

-- ORDER BY seq ASC
unfoldable pub insert_by_seq : RunEvent → List RunEvent → List RunEvent
insert_by_seq e [] = e ∷ []
insert_by_seq e (x ∷ xs) = if leb e.seq x.seq then e ∷ x ∷ xs else x ∷ insert_by_seq e xs

unfoldable pub order_by_seq : List RunEvent → List RunEvent
unfolding insert_by_seq
order_by_seq [] = []
order_by_seq (e ∷ es) = insert_by_seq e (order_by_seq es)

-- SELECT … WHERE run_id = ? AND seq > ? ORDER BY seq ASC
unfoldable pub select_rows : String → ℕ → Store → List RunEvent
unfolding rows_after order_by_seq
select_rows run_id after s = order_by_seq (rows_after after (rows_of run_id s.events))

-- `LIMIT limit + 1`, and the page without the probe
unfoldable pub page_of : ℕ → List RunEvent → EventPage
page_of limit rows =
    let fetched = take (suc limit) rows in
    record { events = take limit fetched; has_more = ltb limit (length fetched) }

unfoldable pub events : String → ℕ → ℕ → Store → Result EventPage
unfolding page_of
events run_id after limit s = do
  refuse (limit == 0) run_store
  current ← get_run run_id s
  ok (page_of (min limit max_event_page_limit) (select_rows run_id after s))

-- events[-1].seq, or the default where there is none
abbrev pub last_seq : ℕ → List RunEvent → ℕ
last_seq d [] = d
last_seq d (e ∷ es) = last_seq e.seq es

abbrev pub is_nil : List RunEvent → Bool
is_nil [] = true
is_nil (_ ∷ _) = false

-- What the loop does after a page: leave, read on, or raise.
pub data Turn : Type 0 where
  stop again broken : Turn

unfoldable pub turn : Option ℕ → ℕ → Bool → Turn
turn none after has_more = if has_more then Turn.again else Turn.stop
turn (some n) after has_more =
    if leb n after then Turn.stop else if has_more then Turn.again else Turn.broken

unfoldable pub page_limit : Option ℕ → ℕ → ℕ → ℕ
page_limit none page_size after = page_size
page_limit (some n) page_size after = min page_size (n - after)

unfoldable pub checked_prefix : Option ℕ → List RunEvent → Result (List RunEvent)
checked_prefix none es = ok es
checked_prefix (some n) es = do guard (last_seq 0 es == n) run_store; ok es

unfoldable pub history_loop :
    ℕ → String → ℕ → Option ℕ → ℕ → List RunEvent → Store → Result (List RunEvent)
unfolding turn page_limit checked_prefix
history_loop zero run_id size through after acc s = err other_error
history_loop (suc fuel) run_id size through after acc s = do
  page ← events run_id after (page_limit through size after) s
  refuse (page.has_more && is_nil page.events) run_store
  elim (turn through (last_seq after page.events) page.has_more) [
    | Turn.stop ↦ checked_prefix through (acc ++ page.events)
    | Turn.broken ↦ err run_store
    | Turn.again ↦
        history_loop fuel run_id size through (last_seq after page.events) (acc ++ page.events) s
  ]

unfoldable pub load_full_event_history : ℕ → String → ℕ → Option ℕ → Store → Result (List RunEvent)
unfolding history_loop
load_full_event_history fuel run_id size (some zero) s = ok []
load_full_event_history fuel run_id size through s = history_loop fuel run_id size through 0 [] s
