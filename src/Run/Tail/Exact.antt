-- ===== src/Run/Tail/Exact.antt =====
-- What a reader gets from `DurableEventTail` (run_runtime/service.py): each event once, in order.
use Prim.Native.Nat.{min}
use imece_ide.Base.{
  take-nil, drop_all, ℕ, suc, ◌≤◌, ◌<◌, String, Bool, false, ◌≡◌, refl, sym, ap, ◌∙◌, subst, leb,
  ◌==◌, List, [], ◌∷◌, ◌++◌, ◌⊎◌, ◌||◌, Option, length, take, drop, take-take-suc, length-take, All,
  append_assoc, leb→le, leb→gt, Result, ok, err, arith, Bool-cases, inl, inr,
}
use imece_ide.Run.Models.{RunRecord}
use imece_ide.Run.Events.{RunEvent}
use imece_ide.Run.Store.{Store, get_run}
use imece_ide.Run.Store.Consistency.{IsNumbered}
use imece_ide.Run.History.{EventPage, select_rows, page_of, events, last_seq}
use imece_ide.Run.History.Pages.{length-IsNumbered}
use imece_ide.Run.Tail.{
  Tail, Moment, Reply, page, Call, next_page, after_query, is_past, follow, events_of,
}
use imece_ide.Run.Tail.Rows.{
  stays, Shows, Moved, shown-IsNumbered, tail-IsNumbered, unread, page-Moved,
}

events_inv :
    (k : String) (a limit : ℕ) (s : Store) (p : EventPage)
    → events k a limit s ≡ ok p
    → p.events ≡ take (min limit 200) (select_rows k a s)
unfolding events page_of
events_inv k a limit s p h =
    let same : take (min limit 200) (take (suc (min limit 200)) (select_rows k a s)) ≡ p.events =
      ground arith in
    sym same ∙ take-take-suc (min limit 200) (select_rows k a s)

Items-cases :
    (es : List RunEvent) → (es ≡ []) ⊎ ((e : RunEvent) × (r : List RunEvent) × (es ≡ e ∷ r))
Items-cases [] = inl refl
Items-cases (e ∷ r) = inr (e, r, refl)

module _ (k : String) (log : List RunEvent) (numbered : IsNumbered 0 log (length log)) where
  -- A call moves its reader on by what it returns.
  abbrev Moves : Tail → Reply × Tail → Type 0
  Moves t (r, t2) = Moved log t.cursor (events_of r) t2.cursor × (t2.run_id ≡ k)

  events_ok :
      (a limit : ℕ) (s : Store) (r : RunRecord)
      → get_run k s ≡ ok r
      → 0 < limit
      → events k a limit s ≡ ok (page_of (min limit 200) (select_rows k a s))
  unfolding events
  events_ok a limit s r found pos =
      let zero_test : (limit == 0) ≡ false = ground arith in rw (zero_test, found)

  page_lem :
      (a limit : ℕ) (s : Store) (p : EventPage) (e : RunEvent) (r : List RunEvent)
      → a ≤ length log
      → Shows k log s
      → events k a limit s ≡ ok p
      → p.events ≡ e ∷ r
      → Moved log a p.events (last_seq a p.events)
  page_lem a limit s p e r high w h some_events =
      let got =
        events_inv k a limit s p h ∙ ap (take (min limit 200)) (unread k log numbered a s w) in
      elim (Bool-cases (leb a w.count)) [
        | inl low ↦
            subst (λ es. Moved log a es (last_seq a es)) (sym got)
              (page-Moved k log numbered a (min limit 200) w.count (leb→le a w.count low) w.bound)
        | inr past ↦
            let size =
              length-IsNumbered 0 w.count (take w.count log)
                (shown-IsNumbered k log numbered w.count w.bound) in
            let none_left = drop_all a (take w.count log) (omega (arith, leb→gt a w.count past)) in
            let nothing_got =
              got ∙ ap (take (min limit 200)) none_left ∙ take-nil (min limit 200) in
            absurd (ground (arith, nothing_got))
      ]

  after_query-Moves :
      (t : Tail) (limit : ℕ) (s : Store) (past : Bool) (rest : Reply × Tail) (q : Result EventPage)
      → t.run_id ≡ k
      → t.cursor ≤ length log
      → Shows k log s
      → events k t.cursor limit s ≡ q
      → Moves t rest
      → Moves t (after_query t past rest q)
  unfolding after_query
  after_query-Moves t limit s past rest (err e) same high w h next = (stays log t.cursor high, same)
  after_query-Moves t limit s past rest (ok p) same high w h next = elim (Items-cases p.events) [
    | inl empty ↦ elim (Bool-cases past) [
      | inl late ↦ rw (empty, after_query, late) (stays log t.cursor high, same)
      | inr early ↦ rw (empty, after_query, early) next
    ]
    | inr (e, r, full) ↦
        let moved = page_lem t.cursor limit s p e r high w h full in
        rw (full, after_query) (moved, same)
  ]

  next_page-Moves :
      (limit : ℕ) (deadline : Option ℕ) (ms : List Moment) (t : Tail)
      → t.run_id ≡ k
      → t.cursor ≤ length log
      → All (λ m. Shows k log m.store) ms
      → Moves t (next_page limit deadline ms t)
  unfolding next_page
  next_page-Moves limit deadline [] t same high shows = (stays log t.cursor high, same)
  next_page-Moves limit deadline (m ∷ ms) t same high shows =
      elim (Bool-cases (t.closed || m.closed)) [
        | inl shut ↦ rw shut (stays log t.cursor high, same)
        | inr live ↦ rw live (
            after_query-Moves t limit m.store _ (next_page limit deadline ms t)
              (events t.run_id t.cursor limit m.store) same high shows.0
              (ap (λ j. events j t.cursor limit m.store) (sym same))
              (next_page-Moves limit deadline ms t same high shows.1))
      ]

  -- Whatever is appended between and during the calls of a reader, as long as it only extends the log,
  -- the reader is given the events after its cursor, each once, in order and without a gap, up to the
  -- cursor that it ends with.
  pub follow-exact :
      (calls : List Call) (t : Tail)
      → t.run_id ≡ k
      → t.cursor ≤ length log
      → All (λ c. All (λ m. Shows k log m.store) c.moments) calls
      → Moved log t.cursor (follow calls t).0 (follow calls t).1.cursor
  unfolding follow
  follow-exact [] t same high shows = stays log t.cursor high
  follow-exact (c ∷ cs) t same high shows =
      let (moved, kept) = next_page-Moves c.limit c.deadline c.moments t same high shows.0 in
      let (reply, after) = next_page c.limit c.deadline c.moments t in
      let rest = follow-exact cs after kept moved.bound shows.1 in
      record {
        joined =
            sym (append_assoc (take t.cursor log) (events_of reply) (follow cs after).0)
            ∙ ap (λ es. es ++ (follow cs after).0) moved.joined
            ∙ rest.joined;
        bound = rest.bound;
      }

  paged :
      (t : Tail) (past : Bool) (rest : Reply × Tail) (p : EventPage) (e : RunEvent)
      (r : List RunEvent)
      → p.events ≡ e ∷ r
      → (after_query t past rest (ok p)).0 ≡ page p
  unfolding after_query
  paged t past rest p e r some_events = ground arith

  -- An open reader never waits while the log holds an event beyond its cursor: it is given a page that is
  -- not empty, in its first pass.
  pub next_page-prompt :
      (limit : ℕ) (deadline : Option ℕ) (m : Moment) (ms : List Moment) (t : Tail)
      (w : Shows k log m.store)
      → t.run_id ≡ k
      → t.closed ≡ false
      → m.closed ≡ false
      → 0 < limit
      → t.cursor < w.count
      → (p : EventPage) × ((next_page limit deadline (m ∷ ms) t).0 ≡ page p) × (0 < length p.events)
  unfolding next_page
  next_page-prompt limit deadline m ms t w same open_tail live pos unread_left =
      let l = min limit 200 in
      let rows = drop t.cursor (take w.count log) in
      let p = page_of l (select_rows k t.cursor m.store) in
      let got : events t.run_id t.cursor limit m.store ≡ ok p =
        ap (λ j. events j t.cursor limit m.store) same
        ∙ events_ok t.cursor limit m.store w.run w.found pos in
      let size =
        length-IsNumbered t.cursor w.count rows
          (tail-IsNumbered k log numbered t.cursor w.count (omega arith) w.bound) in
      let taken : p.events ≡ take l rows =
        events_inv k t.cursor limit m.store p (events_ok t.cursor limit m.store w.run w.found pos)
        ∙ ap (take l) (unread k log numbered t.cursor m.store w) in
      let full : 0 < length p.events =
        omega (arith, length-take l rows, ap (length {A = RunEvent}) taken) in
      elim (Items-cases p.events) [
        | inl empty ↦ absurd (ground (arith, empty))
        | inr (e, r, some_events) ↦ (
          p,
          rw (open_tail, live, got)
              (paged (record t { closed = false }) (is_past deadline m.now)
                (next_page limit deadline ms (record t { closed = false })) p e r some_events),
          full,
        )
      ]
