-- ===== src/Run/Recovery/Interrupted.antt =====
-- What recover_running_runs of run_runtime/recovery.py leaves of a run.
use imece_ide.Base.{
  ℕ, ◌+◌, String, Bool, true, false, ◌≡◌, ◌⊎◌, subst, ap, ◌∙◌, none, some, List, [], ◌∷◌, ◌++◌,
  append_assoc, ok, Result-cases, Bool-cases, inl, inr, arith,
}
use imece_ide.Json.{Dict}
use imece_ide.Run.Models.{RunStatus, FloatOps, RunRecord}
use imece_ide.Run.Events.{RunEventType, RunEvent}
use imece_ide.Run.Store.{Store, find_run, rows_of, get_run, append_row, append_rows, append_events}
use imece_ide.Run.Store.Consistency.{IsConsistent, find_run-append}
use imece_ide.Run.Store.Concurrency.{append_events_inv}
use imece_ide.Run.Runtime.{Environment, RunRuntime, current_run}
use imece_ide.Run.Runtime.Recorded.{Grew, row-Grew, record_event-Grew}
use imece_ide.Run.Recovery.Drafts.{Draft, fields, reason}
use imece_ide.Run.Recovery.Scan.{
  unfinished, interruption, is_stale_error, spec_of_draft, stamped, record_drafts, whole_history,
  recover_run,
}

module _ ⦃fp : FloatOps⦄ where
  -- Run `k` is INTERRUPTED, and its log has only grown.
  pub record IsInterrupted (k : String) (s s' : Store) : Type 0 where
    pub run : RunRecord
    pub found : get_run k s' ≡ ok run
    pub status : run.status ≡ RunStatus.interrupted
    pub added : List RunEvent
    pub log : rows_of k s'.events ≡ rows_of k s.events ++ added
    pub consistent : IsConsistent s → IsConsistent s'

  of_Grew :
      (k : String) (payload : Dict) (s s' : Store)
      → Grew k RunEventType.run_interrupted payload s s'
      → IsInterrupted k s s'
  of_Grew k payload s s' g = record {
    run = g.after;
    found = g.stored;
    status = g.status;
    added = g.event ∷ [];
    log = g.rows;
    consistent = g.consistent;
  }

  -- One more event before.
  after-Grew :
      (k : String) (type : RunEventType) (payload : Dict) (s s1 s' : Store)
      → Grew k type payload s s1
      → IsInterrupted k s1 s'
      → IsInterrupted k s s'
  after-Grew k type payload s s1 s' g i = record {
    run = i.run;
    found = i.found;
    status = i.status;
    added = g.event ∷ i.added;
    log =
        i.log
        ∙ ap (λ xs. xs ++ i.added) g.rows
        ∙ append_assoc (rows_of k s.events) (g.event ∷ []) i.added;
    consistent = λ w. i.consistent (g.consistent w);
  }

module _ ⦃fp : FloatOps⦄ ⦃env : Environment⦄ where
  rows-IsInterrupted :
      (k : String) (c : RunRecord) (ds : List Draft) (tick : ℕ) (s : Store) (es : List RunEvent)
      (u : RunRecord) (s' : Store)
      → find_run k s.runs ≡ some c
      → append_rows c (stamped (ds ++ interruption ∷ []) tick) s ≡ ok (es, u, s')
      → IsInterrupted k s s'
  unfolding append_rows stamped
  rows-IsInterrupted k c [] tick s es u s' found h =
      elim (Result-cases (append_row c (spec_of_draft interruption tick) s)) [
        | inr (f, a) ↦ absurd (ground arith)
        | inl ((e, v, s1), a) ↦
            let same : s1 ≡ s' = ground arith in
            subst (IsInterrupted k s) same (
              of_Grew k interruption.payload s s1
                (row-Grew k c (spec_of_draft interruption tick) s e v s1 found a))
      ]
  rows-IsInterrupted k c (d ∷ ds) tick s es u s' found h =
      elim (Result-cases (append_row c (spec_of_draft d tick) s)) [
        | inr (f, a) ↦ absurd (ground arith)
        | inl ((e, v, s1), a) ↦
            elim (Result-cases (append_rows v (stamped (ds ++ interruption ∷ []) (tick + 1)) s1)) [
              | inr (f, b) ↦ absurd (ground arith)
              | inl ((es2, u2, s2), b) ↦
                  let same : s2 ≡ s' = ground arith in
                  let g = row-Grew k c (spec_of_draft d tick) s e v s1 found a in
                  subst (IsInterrupted k s) same (
                    after-Grew k d.type d.payload s s1 s2 g (
                      rows-IsInterrupted k v ds (tick + 1) s1 es2 u2 s2
                        (find_run-append k c (spec_of_draft d tick) s e v s1 found a) b))
            ]
      ]

  drafts-IsInterrupted :
      (c : RunRecord) (ds : List Draft) (rt rt' : RunRuntime)
      → record_drafts c ds rt ≡ ok rt'
      → IsInterrupted c.run_id rt.store rt'.store
  unfolding record_drafts
  drafts-IsInterrupted c [] rt rt' h = of_Grew c.run_id (fields (reason ∷ [])) rt.store rt'.store (
      record_event-Grew c.run_id RunEventType.run_interrupted (fields (reason ∷ [])) none none
        "recovery" (some c.last_event_seq) rt rt' h)
  drafts-IsInterrupted c (d ∷ ds) rt rt' h =
      let specs = stamped ((d ∷ ds) ++ interruption ∷ []) rt.tick in
      elim (Result-cases (append_events c.run_id specs (some c.last_event_seq) rt.store)) [
        | inr (f, a) ↦ absurd (ground arith)
        | inl ((es, u, s'), a) ↦
            let (now, found, _, rows) =
              append_events_inv c.run_id specs (some c.last_event_seq) rt.store es u s' a in
            let same : s' ≡ rt'.store = ground arith in
            subst (IsInterrupted c.run_id rt.store) same
              (rows-IsInterrupted c.run_id now (d ∷ ds) rt.tick rt.store es u s' found rows)
      ]

  -- A run that the recovery closes is INTERRUPTED, its log has only grown, and the store is consistent if it
  -- was; a run that it skips is left as it was.
  pub recover_run-IsInterrupted :
      (candidate : RunRecord) (rt rt' : RunRuntime) (closed : Bool)
      → recover_run candidate rt ≡ ok (closed, rt')
      → ((closed ≡ true) × IsInterrupted candidate.run_id rt.store rt'.store)
        ⊎ ((closed ≡ false) × (rt' ≡ rt))
  unfolding recover_run
  recover_run-IsInterrupted c rt rt' closed h = elim (Result-cases (whole_history c.run_id rt)) [
    | inr (e, a) ↦ absurd (ground arith)
    | inl (history, a) ↦ elim (Result-cases (record_drafts c (unfinished history) rt)) [
      | inl (after, b) ↦
          let same : after ≡ rt' = ground arith in
          inl (
            ground arith,
            subst (λ (z : RunRuntime). IsInterrupted c.run_id rt.store z.store) same
                (drafts-IsInterrupted c (unfinished history) rt after b),
          )
      | inr (e, b) ↦ elim (Bool-cases (is_stale_error e)) [
        | inr other ↦ absurd (ground arith)
        | inl stale ↦ elim (Result-cases (current_run c.run_id rt)) [
          | inr (f, d) ↦ absurd (ground arith)
          | inl (r, d) ↦ inr (ground arith, ground arith)
        ]
      ]
    ]
  ]
