-- ===== src/Fix/Recorded.antt =====
-- What a method of the recorder (run_runtime/fix_loop.py) does to the run and to the recorder.
use imece_ide.Base.{
  String, Bool, true, ◌≡◌, subst, none, some, List, [], ◌∷◌, ok, Result-cases, Bool-cases, inl, inr,
  arith, bind_inv, guard_inv,
}
use imece_ide.Json.{Dict, Value}
use imece_ide.Run.Models.{FloatOps, RunRecord, RunStatus}
use imece_ide.Run.Events.{RunEventType}
use imece_ide.Run.Store.{get_run}
use imece_ide.Run.Runtime.{Environment, RunRuntime, current_run, texts}
use imece_ide.Run.Runtime.Recorded.{Grew, record_event-Grew}
use imece_ide.Run.Completion.Gate.{is_running}
use imece_ide.Fix.Recorder.{
  Recorder, Attempt, attempt_interrupted, interrupted_payload, commit, start, attempt_started,
  attempt_completed, started_payload, completed_payload, fields, append_terminal,
}

running_lem : (st : RunStatus) → is_running st ≡ true → st ≡ RunStatus.running
running_lem st h = ground arith

module _ ⦃fp : FloatOps⦄ ⦃env : Environment⦄ where
  -- An append by the recorder: one event of run `k`, which was RUNNING.
  pub record Wrote (k : String) (type : RunEventType) (rt rt' : RunRuntime) : Type 0 where
    pub before : RunRecord
    pub payload : Dict
    pub found : get_run k rt.store ≡ ok before
    pub running : before.status ≡ RunStatus.running
    pub grew : Grew k type payload rt.store rt'.store

  pub commit-Wrote :
      (r : Recorder) (type : RunEventType) (payload : Dict) (rt rt' : RunRuntime)
      → commit r type payload rt ≡ ok rt'
      → Wrote r.run_id type rt rt'
  unfolding commit current_run
  commit-Wrote r type payload rt rt' h = elim (Result-cases (get_run r.run_id rt.store)) [
    | inr (e, a) ↦ absurd (ground arith)
    | inl (run, a) ↦ elim (Bool-cases (is_running run.status)) [
      | inr b ↦ absurd (ground arith)
      | inl b ↦ record {
        before = run;
        payload = payload;
        found = a;
        running = running_lem run.status b;
        grew =
            record_event-Grew r.run_id type payload none (some r.fix_loop_id) "fix_loop"
              (some run.last_event_seq) rt rt' (ground arith);
      }
    ]
  ]

  pub commit-Grew :
      (r : Recorder) (type : RunEventType) (payload : Dict) (rt rt' : RunRuntime)
      → commit r type payload rt ≡ ok rt'
      → Grew r.run_id type payload rt.store rt'.store
  unfolding commit current_run
  commit-Grew r type payload rt rt' h =
      let (run, a, h) = bind_inv (get_run r.run_id rt.store) _ h in
      let (b, h) = guard_inv (is_running run.status) _ h in
      record_event-Grew r.run_id type payload none (some r.fix_loop_id) "fix_loop"
        (some run.last_event_seq) rt rt' h

  -- A method that returned has written one event of its run, and still writes to that run.
  pub record Advanced (type : RunEventType) (r r' : Recorder) (rt rt' : RunRuntime) : Type 0 where
    pub wrote : Wrote r.run_id type rt rt'
    pub same_run : r'.run_id ≡ r.run_id

  advanced :
      (type : RunEventType) (payload : Dict) (r r' : Recorder) (rt rt1 rt' : RunRuntime)
      → commit r type payload rt ≡ ok rt1
      → rt1 ≡ rt'
      → r'.run_id ≡ r.run_id
      → Advanced type r r' rt rt'
  advanced type payload r r' rt rt1 rt' h same run = record {
    wrote = subst (Wrote r.run_id type rt) same (commit-Wrote r type payload rt rt1 h);
    same_run = run;
  }

  pub attempt_started-Advanced :
      (a : Attempt) (kind : String) (r r' : Recorder) (rt rt' : RunRuntime)
      → attempt_started a kind r rt ≡ ok (r', rt')
      → Advanced RunEventType.fix_attempt_started r r' rt rt'
  unfolding attempt_started
  attempt_started-Advanced a kind r r' rt rt' h =
      let payload = started_payload r a kind in
      elim (Result-cases (commit r RunEventType.fix_attempt_started payload rt)) [
        | inr (e, c) ↦ absurd (ground arith)
        | inl (rt1, c) ↦
            advanced RunEventType.fix_attempt_started payload r r' rt rt1 rt' c (ground arith)
              (ground arith)
      ]

  pub attempt_completed-Advanced :
      (a : Attempt) (diff : String) (changed : Bool) (r r' : Recorder) (rt rt' : RunRuntime)
      → attempt_completed a diff changed r rt ≡ ok (r', rt')
      → Advanced RunEventType.fix_attempt_completed r r' rt rt'
  unfolding attempt_completed
  attempt_completed-Advanced a diff changed r r' rt rt' h =
      let payload = completed_payload r a diff changed in
      elim (Result-cases (commit r RunEventType.fix_attempt_completed payload rt)) [
        | inr (e, c) ↦ absurd (ground arith)
        | inl (rt1, c) ↦
            advanced RunEventType.fix_attempt_completed payload r r' rt rt1 rt' c (ground arith)
              (ground arith)
      ]

  pub attempt_interrupted-Advanced :
      (reason : String) (extra : List (String × Value)) (r r' : Recorder) (rt rt' : RunRuntime)
      → attempt_interrupted reason extra r rt ≡ ok (r', rt')
      → Advanced RunEventType.fix_attempt_interrupted r r' rt rt'
  unfolding attempt_interrupted
  attempt_interrupted-Advanced reason extra r r' rt rt' h =
      let payload = interrupted_payload r reason extra in
      elim (Result-cases (commit r RunEventType.fix_attempt_interrupted payload rt)) [
        | inr (e, c) ↦ absurd (ground arith)
        | inl (rt1, c) ↦
            advanced RunEventType.fix_attempt_interrupted payload r r' rt rt1 rt' c (ground arith)
              (ground arith)
      ]

  pub append_terminal-Advanced :
      (type : RunEventType) (extra : List (String × Value)) (r r' : Recorder) (rt rt' : RunRuntime)
      → append_terminal type extra r rt ≡ ok (r', rt')
      → Advanced type r r' rt rt'
  unfolding append_terminal
  append_terminal-Advanced type extra r r' rt rt' h =
      let payload = fields (("fix_loop_id", Value.str r.fix_loop_id) ∷ extra) in
      elim (Result-cases (commit r type payload rt)) [
        | inr (e, c) ↦ absurd (ground arith)
        | inl (rt1, c) ↦ advanced type payload r r' rt rt1 rt' c (ground arith) (ground arith)
      ]

  pub start-Advanced :
      (r r' : Recorder) (rt rt' : RunRuntime)
      → start r rt ≡ ok (r', rt')
      → Advanced RunEventType.fix_loop_started r r' rt rt'
  unfolding start
  start-Advanced r r' rt rt' h =
      let payload = texts (("fix_loop_id", r.fix_loop_id) ∷ []) in
      elim (Result-cases (commit r RunEventType.fix_loop_started payload rt)) [
        | inr (e, c) ↦ absurd (ground arith)
        | inl (rt1, c) ↦
            advanced RunEventType.fix_loop_started payload r r' rt rt1 rt' c (ground arith)
              (ground arith)
      ]
