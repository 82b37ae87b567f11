-- ===== src/Run/Store/Reachability.antt =====
-- Every store that the operations of run_runtime/store.py build from the empty one.
use imece_ide.Base.{
  ℕ, String, false, ◌≡◌, refl, subst, sym, str_eq, eq_iff, Option, none, some, List, [], ◌∷◌, ◌++◌,
  ok, err, Result-cases, Bool-cases, inl, inr, arith, any, if◌then◌else◌,
}
use imece_ide.Json.{Dict}
use imece_ide.Run.Models.{FloatOps, RunRecord, new_run}
use imece_ide.Run.Events.{RunEvent, RunEventSpec}
use imece_ide.Run.Store.{
  TaskRecord, Store, find_run, rows_of, create_task, create_run, append_row, append_event,
  append_rows, append_events,
}
use imece_ide.Run.Store.Rows.{append_row_inv, find_run_id}
use imece_ide.Run.Store.Consistency.{IsConsistent, append_row-IsConsistent, find_run-append}
use imece_ide.Run.Store.Concurrency.{append_event_inv, append_events_inv}

pub data Operation : Type 0 where
  task : TaskRecord → Operation
  run : String → String → ℕ → Option String → Dict → Option Dict → Option Dict → ℕ → Operation
  event : String → RunEventSpec → Option ℕ → Operation
  batch : String → List RunEventSpec → Option ℕ → Operation

abbrev pub empty_store : Store
empty_store = record { tasks = []; runs = []; events = [] }

find_run-snoc :
    (k : String) (rs : List RunRecord) (r : RunRecord)
    → find_run r.run_id rs ≡ none
    → find_run k (rs ++ r ∷ []) ≡ (if str_eq r.run_id k then some r else find_run k rs)
unfolding find_run
find_run-snoc k [] r h = refl
find_run-snoc k (x ∷ rs) r h =
    ground
      (arith, eq_iff x.run_id k, eq_iff r.run_id k, eq_iff x.run_id r.run_id, find_run-snoc k rs r)

not_any-none :
    (k : String) (rs : List RunRecord)
    → any (λ row. str_eq row.run_id k) rs ≡ false
    → find_run k rs ≡ none
unfolding find_run
not_any-none k [] h = refl
not_any-none k (x ∷ rs) h = ground (arith, not_any-none k rs)

module _ ⦃fp : FloatOps⦄ where
  -- An operation that raises leaves the store as it was.
  unfoldable pub step : Operation → Store → Store
  step (task t) s = elim (create_task t s) [ ok s' ↦ s' | err _ ↦ s ]
  step (run k t n retry routing budget snapshot now) s =
      elim (create_run k t n retry routing budget snapshot now s) [ ok (_, s') ↦ s' | err _ ↦ s ]
  step (event k spec expected) s = elim (append_event k spec expected s) [
    | ok (_, _, s') ↦ s'
    | err _ ↦ s
  ]
  step (batch k specs expected) s = elim (append_events k specs expected s) [
    | ok (_, _, s') ↦ s'
    | err _ ↦ s
  ]

  unfoldable pub steps : List Operation → Store → Store
  steps [] s = s
  steps (op ∷ ops) s = steps ops (step op s)

  event-IsConsistent :
      (k : String) (c : RunRecord) (spec : RunEventSpec) (s : Store) (e : RunEvent) (u : RunRecord)
      (s' : Store)
      → find_run k s.runs ≡ some c
      → append_row c spec s ≡ ok (e, u, s')
      → IsConsistent s
      → IsConsistent s'
  event-IsConsistent k c spec s e u s' found h w =
      append_row-IsConsistent c spec s e u s'
        (subst (λ j. find_run j s.runs ≡ some c) (sym (find_run_id k s.runs c found)) found)
        (append_row_inv c spec s e u s' h) w

  rows-IsConsistent :
      (k : String) (c : RunRecord) (specs : List RunEventSpec) (s : Store) (es : List RunEvent)
      (u : RunRecord) (s' : Store)
      → find_run k s.runs ≡ some c
      → append_rows c specs s ≡ ok (es, u, s')
      → IsConsistent s
      → IsConsistent s'
  unfolding append_rows
  rows-IsConsistent k c [] s es u s' found h w = subst IsConsistent (ground arith) w
  rows-IsConsistent k c (spec ∷ specs) s es u s' found h w =
      elim (Result-cases (append_row c spec s)) [
        | inr (x, p) ↦ absurd (ground arith)
        | inl ((e, v, s1), p) ↦ elim (Result-cases (append_rows v specs s1)) [
          | inr (x, q) ↦ absurd (ground arith)
          | inl ((es2, u2, s2), q) ↦ subst IsConsistent (ground arith) (
              rows-IsConsistent k v specs s1 es2 u2 s2 (find_run-append k c spec s e v s1 found p) q
                (event-IsConsistent k c spec s e v s1 found p w))
        ]
      ]

  insert-IsConsistent :
      (k t : String) (n : ℕ) (retry : Option String) (routing : Dict)
      (budget snapshot : Option Dict) (now : ℕ) (s : Store) (r : RunRecord) (s' : Store)
      → create_run k t n retry routing budget snapshot now s ≡ ok (r, s')
      → IsConsistent s
      → IsConsistent s'
  unfolding create_run new_run
  insert-IsConsistent k t n retry routing budget snapshot now s r s' h w =
      let r0 = new_run k t n retry routing budget snapshot now in
      let unused : find_run k s.runs ≡ none = not_any-none k s.runs (ground arith) in
      let stored : s' ≡ record s { runs = s.runs ++ r0 ∷ [] } = ground arith in
      rw stored (record {
        at = λ j. elim (Bool-cases (str_eq k j)) [
          | inl same ↦ rw (find_run-snoc j s.runs r0 unused) (
              rw same (
                let free = subst (λ i. find_run i s.runs ≡ none) ((eq_iff k j).0 same) unused in
                rw (rw free at (w.at j)) (refl, (r0, refl, refl))))
          | inr other ↦ rw (find_run-snoc j s.runs r0 unused) (rw other (w.at j))
        ];
      })

  task-IsConsistent :
      (t : TaskRecord) (s s' : Store) → create_task t s ≡ ok s' → IsConsistent s → IsConsistent s'
  unfolding create_task
  task-IsConsistent t s s' h w =
      let stored : s' ≡ record s { tasks = s.tasks ++ t ∷ [] } = ground arith in
      rw stored (record { at = w.at })

  step-IsConsistent : (op : Operation) (s : Store) → IsConsistent s → IsConsistent (step op s)
  unfolding step
  step-IsConsistent (task t) s w = elim (Result-cases (create_task t s)) [
    | inl (s', h) ↦ rw (h, step) (task-IsConsistent t s s' h w)
    | inr (x, h) ↦ rw (h, step) w
  ]
  step-IsConsistent (run k t n retry routing budget snapshot now) s w =
      elim (Result-cases (create_run k t n retry routing budget snapshot now s)) [
        | inl ((r, s'), h) ↦
            rw (h, step) (insert-IsConsistent k t n retry routing budget snapshot now s r s' h w)
        | inr (x, h) ↦ rw (h, step) w
      ]
  step-IsConsistent (event k spec expected) s w =
      elim (Result-cases (append_event k spec expected s)) [
        | inl ((e, u, s'), h) ↦
            let (c, found, _, row) = append_event_inv k spec expected s e u s' h in
            rw (h, step) (event-IsConsistent k c spec s e u s' found row w)
        | inr (x, h) ↦ rw (h, step) w
      ]
  step-IsConsistent (batch k specs expected) s w =
      elim (Result-cases (append_events k specs expected s)) [
        | inl ((es, u, s'), h) ↦
            let (c, found, _, rows) = append_events_inv k specs expected s es u s' h in
            rw (h, step) (rows-IsConsistent k c specs s es u s' found rows w)
        | inr (x, h) ↦ rw (h, step) w
      ]

  steps-IsConsistent :
      (ops : List Operation) (s : Store) → IsConsistent s → IsConsistent (steps ops s)
  unfolding steps
  steps-IsConsistent [] s w = w
  steps-IsConsistent (op ∷ ops) s w = steps-IsConsistent ops (step op s) (step-IsConsistent op s w)

  empty-IsConsistent : IsConsistent empty_store
  unfolding find_run rows_of
  empty-IsConsistent = record { at = λ k. refl }

  -- Whatever creates and appends are made, with errors among them, in the end each run's events are
  -- numbered 1, 2, … up to its `last_event_seq`, its record is the projection of those events from
  -- the record that `create_run` stored, and no event belongs to a run that does not exist.
  pub reachable-IsConsistent : (ops : List Operation) → IsConsistent (steps ops empty_store)
  reachable-IsConsistent ops = steps-IsConsistent ops empty_store empty-IsConsistent
