-- ===== src/Run/Store/Consistency.antt =====
-- The event log of run_runtime/store.py: sequence numbers, and the stored record against the log.
use imece_ide.Base.{
  ℕ, suc, ◌+◌, String, false, ◌≡◌, refl, str_eq, eq_iff, eq_refl, none, some, List, [], ◌∷◌, ◌++◌,
  Result, ok, ◌>>=◌, if◌then◌else◌, arith, Bool-cases, Result-cases, Option, ap, ◌∙◌, subst, sym,
  inl, inr,
}
use imece_ide.Run.Models.{FloatOps, RunRecord, new_run}
use imece_ide.Run.Events.{RunEvent, RunEventSpec, make_event}
use imece_ide.Run.Projector.{project_run}
use imece_ide.Run.Store.{Store, find_run, rows_of, set_columns, append_row}
use imece_ide.Run.Store.Rows.{
  Appended, append_row_inv, build_event_lem, find_run-update_ne, find_run-update_self, find_run_id,
}
use imece_ide.Run.Projector.Laws.{project_run_keeps}

-- The rows are numbered `n + 1`, `n + 2`, … up to `m`.
abbrev pub IsNumbered : ℕ → List RunEvent → ℕ → Type 0
IsNumbered n [] m = n ≡ m
IsNumbered n (e ∷ es) m = (e.seq ≡ suc n) × IsNumbered (suc n) es m

pub IsNumbered-append :
    (n m : ℕ) (es : List RunEvent) (e : RunEvent)
    → IsNumbered n es m
    → e.seq ≡ m + 1
    → IsNumbered n (es ++ e ∷ []) (m + 1)
IsNumbered-append n m [] e h q = omega arith
IsNumbered-append n m (x ∷ es) e h q = (h.0, IsNumbered-append (suc n) m es e h.1 q)

-- What `create_run` stores.
abbrev pub IsNew : RunRecord → Type 0
IsNew r =
    r
    ≡ new_run r.run_id r.task_id r.attempt r.retry_of_run_id r.routing r.budget r.workspace_snapshot
        r.created_at

module _ ⦃fp : FloatOps⦄ where
  -- The projection of a whole log, as `append_event` makes it.
  abbrev pub replay : RunRecord → List RunEvent → Result RunRecord
  replay r [] = ok r
  replay r (e ∷ es) = project_run r e >>= λ p. replay (record p { last_event_seq = e.seq }) es

  pub replay-append :
      (r last p : RunRecord) (es : List RunEvent) (e : RunEvent)
      → replay r es ≡ ok last
      → project_run last e ≡ ok p
      → replay r (es ++ e ∷ []) ≡ ok (record p { last_event_seq = e.seq })
  replay-append r last p [] e h q = ground arith
  replay-append r last p (x ∷ es) e h q = elim (Result-cases (project_run r x)) [
    | inl (m, a) ↦
        rw a (replay-append (record m { last_event_seq = x.seq }) last p es e (rw a at h) q)
    | inr (f, a) ↦ absurd (ground arith)
  ]

  -- A run's record against its rows: numbered from 1 without a gap, and the record is the
  -- projection of the rows from the record that `create_run` stored. No run, no rows.
  abbrev pub Agrees : Option RunRecord → List RunEvent → Type 0
  Agrees none es = es ≡ []
  Agrees (some r) es =
      IsNumbered 0 es r.last_event_seq × ((new : RunRecord) × IsNew new × (replay new es ≡ ok r))

  pub record IsConsistent (s : Store) : Type 0 where
    pub at : (k : String) → Agrees (find_run k s.runs) (rows_of k s.events)

pub rows_of-append :
    (k : String) (es : List RunEvent) (e : RunEvent)
    → rows_of k (es ++ e ∷ [])
      ≡ (if str_eq e.run_id k then rows_of k es ++ e ∷ [] else rows_of k es)
unfolding rows_of
rows_of-append k [] e = refl
rows_of-append k (x ∷ es) e = ground (arith, rows_of-append k es e)

module _ ⦃fp : FloatOps⦄ where
  -- The facts about the row that was written.
  pub updated_row :
      (c : RunRecord) (spec : RunEventSpec) (s : Store) (e : RunEvent) (u : RunRecord) (s' : Store)
      → Appended c spec s e u s'
      → (e.run_id ≡ c.run_id)
        × (u.run_id ≡ c.run_id)
        × (e.seq ≡ c.last_event_seq + 1)
        × (u.last_event_seq ≡ c.last_event_seq + 1)
        × (set_columns c u ≡ u)
  unfolding set_columns make_event
  updated_row c spec s e u s' a = ground (
    arith,
    build_event_lem c.run_id (c.last_event_seq + 1) spec e a.built,
    project_run_keeps c e a.projected a.project,
  )

  Agrees-append :
      (c : RunRecord) (spec : RunEventSpec) (s : Store) (e : RunEvent) (u : RunRecord) (s' : Store)
      → Appended c spec s e u s'
      → (rows : List RunEvent) → Agrees (some c) rows
      → Agrees (some u) (rows ++ e ∷ [])
  Agrees-append c spec s e u s' a rows (n, (new, fresh, r)) =
      let (_, _, numbered, last, _) = updated_row c spec s e u s' a in
      (
        rw last (IsNumbered-append 0 c.last_event_seq rows e n numbered),
        (new, fresh, rw a.updated (replay-append new c a.projected rows e r a.project)),
      )

  module _ (c : RunRecord) (spec : RunEventSpec) (s : Store) (e : RunEvent) (u : RunRecord)
      (s' : Store) (found : find_run c.run_id s.runs ≡ some c) (a : Appended c spec s e u s') where
    pub find_run-append_self : find_run c.run_id s'.runs ≡ some u
    find_run-append_self =
        let (_, id, _, _, same) = updated_row c spec s e u s' a in
        rw a.stored (find_run-update_self c.run_id u s.runs c id found ∙ ap some same)

    pub rows_of-append_self : rows_of c.run_id s'.events ≡ rows_of c.run_id s.events ++ e ∷ []
    rows_of-append_self =
        let id = (updated_row c spec s e u s' a).0 in
        rw a.stored (rw (rows_of-append c.run_id s.events e) (rw (id, eq_refl c.run_id)))

    pub find_run-append_ne :
        (k : String) → str_eq c.run_id k ≡ false → find_run k s'.runs ≡ find_run k s.runs
    find_run-append_ne k ne =
        let id = (updated_row c spec s e u s' a).1 in
        rw a.stored (find_run-update_ne k u s.runs (rw id ne))

    pub rows_of-append_ne :
        (k : String) → str_eq c.run_id k ≡ false → rows_of k s'.events ≡ rows_of k s.events
    rows_of-append_ne k ne =
        let id = (updated_row c spec s e u s' a).0 in
        rw a.stored (rw (rows_of-append k s.events e) (rw (id, ne)))

    pub append_row-IsConsistent : IsConsistent s → IsConsistent s'
    append_row-IsConsistent w = record {
      at = λ k. elim (Bool-cases (str_eq c.run_id k)) [
        | inl same ↦
            subst (λ j. Agrees (find_run j s'.runs) (rows_of j s'.events))
              ((eq_iff c.run_id k).0 same)
              (rw (find_run-append_self, rows_of-append_self)
                (Agrees-append c spec s e u s' a (rows_of c.run_id s.events)
                  (rw found at (w.at c.run_id))))
        | inr other ↦ rw (find_run-append_ne k other, rows_of-append_ne k other) (w.at k)
      ];
    }

  -- After an append the run's row is the updated record.
  pub find_run-append :
      (k : String) (c : RunRecord) (spec : RunEventSpec) (s : Store) (e : RunEvent) (u : RunRecord)
      (s' : Store)
      → find_run k s.runs ≡ some c
      → append_row c spec s ≡ ok (e, u, s')
      → find_run k s'.runs ≡ some u
  find_run-append k c spec s e u s' found h =
      let id = find_run_id k s.runs c found in
      subst (λ j. find_run j s'.runs ≡ some u) id
        (find_run-append_self c spec s e u s'
          (subst (λ j. find_run j s.runs ≡ some c) (sym id) found)
          (append_row_inv c spec s e u s' h))
