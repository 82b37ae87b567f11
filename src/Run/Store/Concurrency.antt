-- ===== src/Run/Store/Concurrency.antt =====
-- The optimistic precondition and the batches of run_runtime/store.py.
use imece_ide.Base.{
  ℕ, String, false, ◌≡◌, Option, none, some, List, [], ◌∷◌, Result, ok, err, event_sequence, ◌>>=◌,
  Result-cases, inl, inr, arith,
}
use imece_ide.Json.{validate_json_dict}
use imece_ide.Run.Models.{FloatOps, RunRecord}
use imece_ide.Run.Events.{RunEvent, RunEventSpec, build_event, check_event}
use imece_ide.Run.Store.{
  Store, find_run, get_run, is_stale, append_row, append_event, append_rows, append_events,
}
use imece_ide.Run.Store.Rows.{append_row_inv, some-get_run}
use imece_ide.Run.Store.Consistency.{updated_row, find_run-append}

module _ ⦃fp : FloatOps⦄ where
  -- A successful append found the run, was not stale, and inserted one row.
  pub append_event_inv :
      (k : String) (spec : RunEventSpec) (expected : Option ℕ) (s : Store) (e : RunEvent)
      (u : RunRecord) (s' : Store)
      → append_event k spec expected s ≡ ok (e, u, s')
      → (c : RunRecord) × (find_run k s.runs ≡ some c)
        × (is_stale expected c ≡ false)
        × (append_row c spec s ≡ ok (e, u, s'))
  unfolding append_event get_run
  append_event_inv k spec expected s e u s' h = ground arith

  pub append_events_inv :
      (k : String) (specs : List RunEventSpec) (expected : Option ℕ) (s : Store)
      (es : List RunEvent) (u : RunRecord) (s' : Store)
      → append_events k specs expected s ≡ ok (es, u, s')
      → (c : RunRecord) × (find_run k s.runs ≡ some c)
        × (is_stale expected c ≡ false)
        × (append_rows c specs s ≡ ok (es, u, s'))
  unfolding append_events get_run
  append_events_inv k specs expected s es u s' h = ground arith

  -- Of two writers that read the run at the same sequence number, the second is refused: after an
  -- append that expected `n`, one more that expects `n` raises EventSequenceError.
  pub second_writer_refused :
      (k : String) (n : ℕ) (spec late : RunEventSpec) (s : Store) (e : RunEvent) (u : RunRecord)
      (s' : Store)
      → append_event k spec (some n) s ≡ ok (e, u, s')
      → validate_json_dict late.payload ≡ ok tt
      → append_event k late (some n) s' ≡ err event_sequence
  unfolding append_event
  second_writer_refused k n spec late s e u s' h v =
      let (c, found, fresh, row) = append_event_inv k spec (some n) s e u s' h in
      let a = append_row_inv c spec s e u s' row in
      let now = find_run-append k c spec s e u s' found row in
      ground (arith, v, some-get_run k s' u now, updated_row c spec s e u s' a)

  -- A batch, written as one append after another.
  abbrev pub append_singles : String → List RunEventSpec → Store → Result (List RunEvent × Store)
  append_singles k [] s = ok ([], s)
  append_singles k (spec ∷ specs) s = append_event k spec none s >>= λ (e, u, s1).
      append_singles k specs s1 >>= λ (es, s2). ok (e ∷ es, s2)

  row_validates :
      (c : RunRecord) (spec : RunEventSpec) (s : Store) (e : RunEvent) (u : RunRecord) (s' : Store)
      → append_row c spec s ≡ ok (e, u, s')
      → validate_json_dict spec.payload ≡ ok tt
  unfolding append_row build_event check_event
  row_validates c spec s e u s' h = ground arith

  single_of_row :
      (k : String) (c : RunRecord) (spec : RunEventSpec) (s : Store) (e : RunEvent) (u : RunRecord)
      (s' : Store)
      → find_run k s.runs ≡ some c
      → append_row c spec s ≡ ok (e, u, s')
      → append_event k spec none s ≡ ok (e, u, s')
  unfolding append_event
  single_of_row k c spec s e u s' found h =
      rw (row_validates c spec s e u s' h, some-get_run k s c found) h

  append_rows_singles :
      (k : String) (c : RunRecord) (specs : List RunEventSpec) (s : Store) (es : List RunEvent)
      (u : RunRecord) (s' : Store)
      → find_run k s.runs ≡ some c
      → append_rows c specs s ≡ ok (es, u, s')
      → append_singles k specs s ≡ ok (es, s')
  unfolding append_rows
  append_rows_singles k c [] s es u s' found h = ground arith
  append_rows_singles k c (spec ∷ specs) s es u s' found h =
      elim (Result-cases (append_row c spec s)) [
        | inr (x, p) ↦ absurd (ground arith)
        | inl ((e, v, s1), p) ↦ elim (Result-cases (append_rows v specs s1)) [
          | inr (x, q) ↦ absurd (ground arith)
          | inl ((es2, u2, s2), q) ↦
              let now = find_run-append k c spec s e v s1 found p in
              ground (
                arith,
                single_of_row k c spec s e v s1 found p,
                append_rows_singles k v specs s1 es2 u2 s2 now q,
              )
        ]
      ]

  -- A batch that succeeds is the same as its events appended one by one: the same numbers, the same
  -- rows, the same records.
  pub append_events-eq-singles :
      (k : String) (specs : List RunEventSpec) (expected : Option ℕ) (s : Store)
      (es : List RunEvent) (u : RunRecord) (s' : Store)
      → append_events k specs expected s ≡ ok (es, u, s')
      → append_singles k specs s ≡ ok (es, s')
  append_events-eq-singles k specs expected s es u s' h =
      let (c, found, _, rows) = append_events_inv k specs expected s es u s' h in
      append_rows_singles k c specs s es u s' found rows
