-- ===== src/Fix/Trail/Steps.antt =====
-- What each method of a recorder (run_runtime/fix_loop.py) asks of it, makes of it, and writes.
use imece_ide.Base.{
  ℕ, ◌+◌, String, Bool, true, false, ◌≡◌, none, some, List, [], ◌∷◌, ok, Result-cases, Option-cases,
  inl, inr, arith,
}
use imece_ide.Json.{Value}
use imece_ide.Run.Models.{FloatOps}
use imece_ide.Run.Events.{RunEventType}
use imece_ide.Run.Runtime.{Environment, RunRuntime, texts}
use imece_ide.Fix.Recorder.{
  Recorder, Attempt, commit, start, attempt_started, attempt_completed, attempt_interrupted,
  append_terminal, started_payload, completed_payload, interrupted_payload, fields,
}
use imece_ide.Fix.Trail.{Adds, commit-Adds}

module _ ⦃fp : FloatOps⦄ ⦃env : Environment⦄ where
  pub started_step :
      (a : Attempt) (kind : String) (r r' : Recorder) (rt rt' : RunRuntime)
      → attempt_started a kind r rt ≡ ok (r', rt')
      → (r.active_attempt_index ≡ none)
        × (a.attempt_index ≡ r.last_completed_attempt_index + 1)
        × (r'.started_persisted ≡ r.started_persisted)
        × (r'.terminal_recorded ≡ r.terminal_recorded)
        × (r'.active_attempt_index ≡ some a.attempt_index)
        × (r'.last_completed_attempt_index ≡ r.last_completed_attempt_index)
        × Adds r.run_id RunEventType.fix_attempt_started (started_payload r a kind) rt rt'
  unfolding attempt_started
  started_step a kind r r' rt rt' h =
      elim (Result-cases
        (commit r RunEventType.fix_attempt_started (started_payload r a kind) rt)) [
          | inr (e, c) ↦ absurd (ground arith)
          | inl (rt1, c) ↦ ground (
            arith,
            commit-Adds r RunEventType.fix_attempt_started (started_payload r a kind) rt rt1 c,
          )
        ]

  pub completed_step :
      (a : Attempt) (diff : String) (changed : Bool) (r r' : Recorder) (rt rt' : RunRuntime)
      → attempt_completed a diff changed r rt ≡ ok (r', rt')
      → (r.active_attempt_index ≡ some a.attempt_index)
        × (r'.started_persisted ≡ r.started_persisted)
        × (r'.terminal_recorded ≡ r.terminal_recorded)
        × (r'.active_attempt_index ≡ none)
        × (r'.last_completed_attempt_index ≡ a.attempt_index)
        × Adds r.run_id RunEventType.fix_attempt_completed
            (completed_payload r a diff changed)
            rt
            rt'
  unfolding attempt_completed
  completed_step a diff changed r r' rt rt' h =
      elim (Result-cases
        (commit r RunEventType.fix_attempt_completed (completed_payload r a diff changed) rt)) [
          | inr (e, c) ↦ absurd (ground arith)
          | inl (rt1, c) ↦ ground (
            arith,
            commit-Adds r RunEventType.fix_attempt_completed (completed_payload r a diff changed) rt
                rt1 c,
          )
        ]

  pub interrupted_step :
      (reason : String) (extra : List (String × Value)) (r r' : Recorder) (rt rt' : RunRuntime)
      → attempt_interrupted reason extra r rt ≡ ok (r', rt')
      → ((m : ℕ) × (r.active_attempt_index ≡ some m))
        × (r'.started_persisted ≡ r.started_persisted)
        × (r'.terminal_recorded ≡ r.terminal_recorded)
        × (r'.active_attempt_index ≡ none)
        × (r'.last_completed_attempt_index ≡ r.last_completed_attempt_index)
        × Adds r.run_id RunEventType.fix_attempt_interrupted
            (interrupted_payload r reason extra)
            rt
            rt'
  unfolding attempt_interrupted
  interrupted_step reason extra r r' rt rt' h =
      elim (Result-cases
        (commit r RunEventType.fix_attempt_interrupted (interrupted_payload r reason extra) rt)) [
          | inr (e, c) ↦ absurd (ground arith)
          | inl (rt1, c) ↦ elim (Option-cases r.active_attempt_index) [
            | inl q ↦ absurd (ground arith)
            | inr (m, q) ↦ (
              (m, q),
              ground arith,
              ground arith,
              ground arith,
              ground arith,
              ground (
                arith,
                commit-Adds r RunEventType.fix_attempt_interrupted
                    (interrupted_payload r reason extra) rt rt1 c,
              ),
            )
          ]
        ]

  pub terminal_step :
      (type : RunEventType) (extra : List (String × Value)) (r r' : Recorder) (rt rt' : RunRuntime)
      → append_terminal type extra r rt ≡ ok (r', rt')
      → (r.active_attempt_index ≡ none)
        × (r'.started_persisted ≡ true)
        × (r'.terminal_recorded ≡ true)
        × Adds r.run_id type (fields (("fix_loop_id", Value.str r.fix_loop_id) ∷ extra)) rt rt'
  unfolding append_terminal
  terminal_step type extra r r' rt rt' h =
      let payload = fields (("fix_loop_id", Value.str r.fix_loop_id) ∷ extra) in
      elim (Result-cases (commit r type payload rt)) [
        | inr (e, c) ↦ absurd (ground arith)
        | inl (rt1, c) ↦ ground (arith, commit-Adds r type payload rt rt1 c)
      ]

  pub start_step :
      (r r' : Recorder) (rt rt' : RunRuntime)
      → start r rt ≡ ok (r', rt')
      → (r.started_persisted ≡ false)
        × (r' ≡ record r { started_persisted = true })
        × Adds r.run_id RunEventType.fix_loop_started
            (texts (("fix_loop_id", r.fix_loop_id) ∷ []))
            rt
            rt'
  unfolding start
  start_step r r' rt rt' h =
      elim (Result-cases
        (commit r RunEventType.fix_loop_started (texts (("fix_loop_id", r.fix_loop_id) ∷ [])) rt)) [
          | inr (e, c) ↦ absurd (ground arith)
          | inl (rt1, c) ↦ ground (
            arith,
            commit-Adds r RunEventType.fix_loop_started
                (texts (("fix_loop_id", r.fix_loop_id) ∷ [])) rt rt1 c,
          )
        ]
