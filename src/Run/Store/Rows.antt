-- ===== src/Run/Store/Rows.antt =====
-- What the statements of run_runtime/store.py do to the tables: lookups after updates, and the
-- inversion of a successful append.
use imece_ide.Base.{
  ℕ, ◌+◌, String, false, ◌≡◌, refl, str_eq, eq_iff, some, List, [], ◌∷◌, ◌++◌, ok, arith,
  Result-cases, inl, inr,
}
use imece_ide.Run.Models.{FloatOps, RunRecord}
use imece_ide.Run.Events.{RunEvent, RunEventSpec, build_event, make_event}
use imece_ide.Run.Projector.{project_run}
use imece_ide.Run.Store.{Store, find_run, set_columns, update_run, conflicts, get_run, append_row}

pub find_run_id :
    (k : String) (rs : List RunRecord) (r : RunRecord) → find_run k rs ≡ some r → r.run_id ≡ k
unfolding find_run
find_run_id k [] r h = cc
find_run_id k (x ∷ rs) r h = ground (arith, eq_iff x.run_id k, find_run_id k rs r)

-- Updating the row of one run leaves the other runs alone.
pub find_run-update_ne :
    (k : String) (u : RunRecord) (rs : List RunRecord)
    → str_eq u.run_id k ≡ false
    → find_run k (update_run u rs) ≡ find_run k rs
unfolding find_run update_run
find_run-update_ne k u [] h = refl
find_run-update_ne k u (x ∷ rs) h = ground (
  arith,
  eq_iff x.run_id k,
  eq_iff u.run_id k,
  eq_iff x.run_id u.run_id,
  find_run-update_ne k u rs h,
)

pub find_run-update_self :
    (k : String) (u : RunRecord) (rs : List RunRecord) (r : RunRecord)
    → u.run_id ≡ k
    → find_run k rs ≡ some r
    → find_run k (update_run u rs) ≡ some (set_columns r u)
unfolding find_run update_run
find_run-update_self k u [] r e h = cc
find_run-update_self k u (x ∷ rs) r e h = ground (
  arith,
  eq_iff x.run_id k,
  eq_iff u.run_id k,
  eq_iff x.run_id u.run_id,
  find_run-update_self k u rs r e,
)

pub get_run-some :
    (k : String) (s : Store) (r : RunRecord) → get_run k s ≡ ok r → find_run k s.runs ≡ some r
unfolding get_run
get_run-some k s r h = ground arith

pub some-get_run :
    (k : String) (s : Store) (r : RunRecord) → find_run k s.runs ≡ some r → get_run k s ≡ ok r
unfolding get_run
some-get_run k s r h = ground arith

pub build_event_lem :
    (k : String) (n : ℕ) (spec : RunEventSpec) (e : RunEvent)
    → build_event k n spec ≡ ok e
    → e ≡ make_event k n spec
unfolding build_event
build_event_lem k n spec e h = ground arith

-- The facts behind a successful insert.
pub record Appended ⦃fp : FloatOps⦄ (c : RunRecord) (spec : RunEventSpec) (s : Store) (e : RunEvent)
    (u : RunRecord) (s' : Store) : Type 0 where
  pub projected : RunRecord
  pub built : build_event c.run_id (c.last_event_seq + 1) spec ≡ ok e
  pub project : project_run c e ≡ ok projected
  pub fresh : conflicts e s.events ≡ false
  pub updated : u ≡ record projected { last_event_seq = e.seq }
  pub stored : s' ≡ record s { runs = update_run u s.runs; events = s.events ++ e ∷ [] }

module _ ⦃fp : FloatOps⦄ where
  pub append_row_inv :
      (c : RunRecord) (spec : RunEventSpec) (s : Store) (e : RunEvent) (u : RunRecord) (s' : Store)
      → append_row c spec s ≡ ok (e, u, s')
      → Appended c spec s e u s'
  unfolding append_row
  append_row_inv c spec s e u s' h =
      elim (Result-cases (project_run c (make_event c.run_id (c.last_event_seq + 1) spec))) [
        | inl (r, p) ↦ record {
          projected = r;
          built = ground arith;
          project = ground (arith, build_event_lem c.run_id (c.last_event_seq + 1) spec e);
          fresh = ground arith;
          updated = ground (arith, build_event_lem c.run_id (c.last_event_seq + 1) spec e);
          stored = ground arith;
        }
        | inr (x, p) ↦
            absurd (ground (arith, build_event_lem c.run_id (c.last_event_seq + 1) spec e))
      ]
