-- ===== src/Run/Completion/Settlement.antt =====
-- What the gate of run_runtime/completion.py writes, and when.
use imece_ide.Base.{ℕ, String, true, ◌≡◌, subst, none, some, ok, Result-cases, inl, inr, arith}
use imece_ide.Json.{Dict, end}
use imece_ide.Run.Models.{RunStatus, FloatOps, RunRecord}
use imece_ide.Run.Events.{RunEventType, RunEvent}
use imece_ide.Run.Store.{Store, get_run, rows_of}
use imece_ide.Run.Store.Rows.{get_run-some}
use imece_ide.Run.Store.Consistency.{IsConsistent, IsNumbered}
use imece_ide.Run.History.Pages.{load-all}
use imece_ide.Run.Runtime.{Environment, RunRuntime, current_run}
use imece_ide.Run.Runtime.Recorded.{record_event-Grew, record_two-Grew}
use imece_ide.Run.Completion.Checks.{verified_execution}
use imece_ide.Run.Completion.Evidence.{IsVerifiedLog, verified-IsVerifiedLog}
use imece_ide.Run.Completion.Gate.{
  Settlement, complete, await_user, RunEvidence, is_running, evidence, settle, complete_verified,
  verified_payload,
}

-- The status that a successful settlement leaves.
abbrev pub settled_status : Settlement → RunStatus
settled_status complete = RunStatus.succeeded
settled_status await_user = RunStatus.waiting_user

running_lem : (st : RunStatus) → is_running st ≡ true → st ≡ RunStatus.running
running_lem st h = ground arith

module _ ⦃fp : FloatOps⦄ where
  IsNumbered-at :
      (k : String) (s : Store) (r : RunRecord)
      → IsConsistent s
      → get_run k s ≡ ok r
      → IsNumbered 0 (rows_of k s.events) r.last_event_seq
  IsNumbered-at k s r w found = (rw (get_run-some k s r found) at (w.at k)).0

module _ ⦃fp : FloatOps⦄ ⦃env : Environment⦄ where
  -- The evidence is the whole log of a RUNNING run, at its latest number.
  evidence_inv :
      (k : String) (rt : RunRuntime) (ev : RunEvidence)
      → IsConsistent rt.store
      → evidence k rt ≡ ok ev
      → (r : RunRecord) × (get_run k rt.store ≡ ok r)
        × (r.status ≡ RunStatus.running)
        × (ev.events ≡ rows_of k rt.store.events)
        × (ev.decision_seq ≡ r.last_event_seq)
  unfolding evidence current_run
  evidence_inv k rt ev w h = elim (Result-cases (get_run k rt.store)) [
    | inr (f, a) ↦ absurd (ground arith)
    | inl (r, a) ↦
        let all_events =
          load-all k 200 rt.store r a (IsNumbered-at k rt.store r w a) (omega arith) in
        (r, a, ground (arith, running_lem r.status), ground arith, ground arith)
  ]

  settle_status :
      (mode : Settlement) (k : String) (seq : ℕ) (payload : Dict) (rt rt' : RunRuntime)
      → settle mode k seq payload rt ≡ ok rt'
      → (r : RunRecord) × (get_run k rt'.store ≡ ok r) × (r.status ≡ settled_status mode)
  unfolding settle
  settle_status complete k seq payload rt rt' h =
      let g =
        record_event-Grew k RunEventType.run_completed payload none none "run_gate" (some seq) rt
          rt' h in
      (g.after, g.stored, g.status)
  settle_status await_user k seq payload rt rt' h =
      let (mid, _, g) =
        record_two-Grew k RunEventType.proposal_ready payload RunEventType.run_waiting_user end
          (some k) "run_gate" (some seq) rt rt' h in
      (g.after, g.stored, g.status)

  -- What a settled run rests on: it was RUNNING, its log showed a passed verification of a
  -- completed execution that nothing has followed, and now it has the status of the settlement.
  pub record IsSettled (mode : Settlement) (k verification_id : String) (terminal : RunEvent)
      (execution_id : String) (rt rt' : RunRuntime) : Type 0 where
    pub before : RunRecord
    pub after : RunRecord
    pub was : get_run k rt.store ≡ ok before
    pub running : before.status ≡ RunStatus.running
    pub log : IsVerifiedLog (rows_of k rt.store.events) verification_id terminal execution_id
    pub now : get_run k rt'.store ≡ ok after
    pub status : after.status ≡ settled_status mode

  pub IsSettled-of :
      (mode : Settlement) (k id : String) (rt rt' : RunRuntime) (ev : RunEvidence)
      (terminal : RunEvent) (x : String) (payload : Dict)
      → IsConsistent rt.store
      → evidence k rt ≡ ok ev
      → verified_execution ev.events id ≡ ok (terminal, x)
      → settle mode k ev.decision_seq payload rt ≡ ok rt'
      → IsSettled mode k id terminal x rt rt'
  IsSettled-of mode k id rt rt' ev terminal x payload w found check done =
      let (r, was, running, rows, seq) = evidence_inv k rt ev w found in
      let (u, now, status) = settle_status mode k ev.decision_seq payload rt rt' done in
      record {
        before = r;
        after = u;
        was = was;
        running = running;
        log =
            verified-IsVerifiedLog r.last_event_seq (rows_of k rt.store.events) id terminal x
              (IsNumbered-at k rt.store r w was)
              (subst (λ es. verified_execution es id ≡ ok (terminal, x)) rows check);
        now = now;
        status = status;
      }

  -- A run that `complete_verified` settles was RUNNING, and in its log the named verification is the
  -- latest, passed, follows a completed execution, and is followed by no execution event.
  pub complete_verified-IsSettled :
      (mode : Settlement) (k id : String) (rt rt' : RunRuntime)
      → IsConsistent rt.store
      → complete_verified mode k id rt ≡ ok rt'
      → (terminal : RunEvent) × (x : String) × IsSettled mode k id terminal x rt rt'
  unfolding complete_verified
  complete_verified-IsSettled mode k id rt rt' w h = elim (Result-cases (evidence k rt)) [
    | inr (f, a) ↦ absurd (ground arith)
    | inl (ev, a) ↦ elim (Result-cases (verified_execution ev.events id)) [
      | inr (f, b) ↦ absurd (ground arith)
      | inl ((t, x), b) ↦ (
        t,
        x,
        IsSettled-of mode k id rt rt' ev t x (verified_payload id x) w a b (rw (a, b) at h),
      )
    ]
  ]

  pub evidence_rows :
      (k : String) (rt : RunRuntime) (ev : RunEvidence)
      → IsConsistent rt.store
      → evidence k rt ≡ ok ev
      → ev.events ≡ rows_of k rt.store.events
  evidence_rows k rt ev w h = (evidence_inv k rt ev w h).3
