-- ===== src/Run/Runtime/Recorded.antt =====
-- What one call of `RunRuntime.record` (run_runtime/service.py) does to its run.
use imece_ide.Base.{
  ℕ, ◌+◌, String, ◌≡◌, sym, ap, subst, ◌∙◌, Option, none, some, [], ◌∷◌, ◌++◌, ok, Result-cases,
  inl, inr, arith,
}
use imece_ide.Json.{Dict}
use imece_ide.Run.Models.{FloatOps, RunRecord}
use imece_ide.Run.Events.{RunEventType, RunEvent, RunEventSpec, make_event}
use imece_ide.Run.Projector.Laws.{status_after, project_run_status}
use imece_ide.Run.Store.{
  Store, find_run, rows_of, get_run, append_row, append_event, append_rows, append_events,
}
use imece_ide.Run.Store.Rows.{Appended, append_row_inv, build_event_lem, find_run_id, some-get_run}
use imece_ide.Run.Store.Consistency.{
  IsConsistent, updated_row, rows_of-append_self, find_run-append, append_row-IsConsistent,
}
use imece_ide.Run.Store.Concurrency.{append_event_inv, append_events_inv}
use imece_ide.Run.Runtime.{Environment, RunRuntime, spec_of, record_event, record_two}

module _ ⦃fp : FloatOps⦄ where
  -- One more event in the log of run `k`, and the record that it leads to.
  pub record Grew (k : String) (type : RunEventType) (payload : Dict) (s s' : Store) : Type 0 where
    pub before : RunRecord
    pub after : RunRecord
    pub event : RunEvent
    pub found : get_run k s ≡ ok before
    pub stored : get_run k s' ≡ ok after
    pub status : after.status ≡ status_after type before.status
    pub last : after.last_event_seq ≡ before.last_event_seq + 1
    pub rows : rows_of k s'.events ≡ rows_of k s.events ++ event ∷ []
    pub typed : event.type ≡ type
    pub carries : event.payload ≡ payload
    pub seq : event.seq ≡ before.last_event_seq + 1
    pub consistent : IsConsistent s → IsConsistent s'

  row_status :
      (c : RunRecord) (spec : RunEventSpec) (s : Store) (e : RunEvent) (u : RunRecord) (s' : Store)
      → Appended c spec s e u s'
      → (u.status ≡ status_after spec.type c.status)
        × (e.type ≡ spec.type)
        × (e.payload ≡ spec.payload)
  unfolding make_event
  row_status c spec s e u s' a =
      let built = build_event_lem c.run_id (c.last_event_seq + 1) spec e a.built in
      let type : e.type ≡ spec.type = ap (λ (x : RunEvent). x.type) built in
      (
        ap (λ (x : RunRecord). x.status) a.updated
            ∙ project_run_status c e a.projected a.project
            ∙ ap (λ t. status_after t c.status) type,
        type,
        ap (λ (x : RunEvent). x.payload) built,
      )

  pub row-Grew :
      (k : String) (c : RunRecord) (spec : RunEventSpec) (s : Store) (e : RunEvent) (u : RunRecord)
      (s' : Store)
      → find_run k s.runs ≡ some c
      → append_row c spec s ≡ ok (e, u, s')
      → Grew k spec.type spec.payload s s'
  row-Grew k c spec s e u s' found h =
      let id = find_run_id k s.runs c found in
      let a = append_row_inv c spec s e u s' h in
      let found_c = subst (λ j. find_run j s.runs ≡ some c) (sym id) found in
      let (status, type, payload) = row_status c spec s e u s' a in
      let (_, _, seq, last, _) = updated_row c spec s e u s' a in
      record {
        before = c;
        after = u;
        event = e;
        found = some-get_run k s c found;
        stored = some-get_run k s' u (find_run-append k c spec s e u s' found h);
        status = status;
        last = last;
        rows =
            subst (λ j. rows_of j s'.events ≡ rows_of j s.events ++ e ∷ []) id
              (rows_of-append_self c spec s e u s' found_c a);
        typed = type;
        carries = payload;
        seq = seq;
        consistent = append_row-IsConsistent c spec s e u s' found_c a;
      }

module _ ⦃fp : FloatOps⦄ ⦃env : Environment⦄ where
  pub record_event-Grew :
      (k : String) (type : RunEventType) (payload : Dict) (x corr : Option String) (src : String)
      (expected : Option ℕ) (rt rt' : RunRuntime)
      → record_event k type payload x corr src expected rt ≡ ok rt'
      → Grew k type payload rt.store rt'.store
  unfolding record_event
  record_event-Grew k type payload x corr src expected rt rt' h =
      let spec = spec_of type payload x corr src rt.tick in
      elim (Result-cases (append_event k spec expected rt.store)) [
        | inr (f, a) ↦ absurd (ground arith)
        | inl ((e, u, s'), a) ↦
            let (c, found, _, row) = append_event_inv k spec expected rt.store e u s' a in
            let same : s' ≡ rt'.store = ground arith in
            subst (Grew k type payload rt.store) same (row-Grew k c spec rt.store e u s' found row)
      ]

  -- Two events in one transaction.
  pub record_two-Grew :
      (k : String) (t : RunEventType) (p : Dict) (t2 : RunEventType) (p2 : Dict)
      (corr : Option String) (src : String) (expected : Option ℕ) (rt rt' : RunRuntime)
      → record_two k t p t2 p2 corr src expected rt ≡ ok rt'
      → (mid : Store) × Grew k t p rt.store mid × Grew k t2 p2 mid rt'.store
  unfolding record_two append_rows
  record_two-Grew k t p t2 p2 corr src expected rt rt' h =
      let one = spec_of t p none corr src rt.tick in
      let two = spec_of t2 p2 none corr src (rt.tick + 1) in
      elim (Result-cases (append_events k (one ∷ two ∷ []) expected rt.store)) [
        | inr (f, a) ↦ absurd (ground arith)
        | inl ((es, u, s'), a) ↦
            let (c, found, _, rows) =
              append_events_inv k (one ∷ two ∷ []) expected rt.store es u s' a in
            let same : s' ≡ rt'.store = ground arith in
            elim (Result-cases (append_row c one rt.store)) [
              | inr (f, b) ↦ absurd (ground arith)
              | inl ((e1, u1, s1), b) ↦ elim (Result-cases (append_row u1 two s1)) [
                | inr (f, d) ↦ absurd (ground arith)
                | inl ((e2, u2, s2), d) ↦
                    let same2 : s2 ≡ rt'.store = ground arith in
                    (
                      s1,
                      row-Grew k c one rt.store e1 u1 s1 found b,
                      subst (Grew k t2 p2 s1) same2 (
                          row-Grew k u1 two s1 e2 u2 s2
                            (find_run-append k c one rt.store e1 u1 s1 found b) d),
                    )
              ]
            ]
      ]
