-- ===== src/Run/Completion/Reviewed.antt =====
-- `complete_reviewed` of run_runtime/completion.py, and what no gate operation does.
use imece_ide.Base.{
  is_sha256, ◌<◌, String, Bool, true, ◌&&◌, leb, ◌≡◌, ◌≢◌, some, List, ok, err, invalid_run_state,
  Result-cases, Bool-cases, inl, inr, subst, arith,
}
use imece_ide.Json.{holds_text}
use imece_ide.Run.Models.{RunStatus, FloatOps, RunRecord}
use imece_ide.Run.Events.{RunEventType, RunEvent}
use imece_ide.Run.Store.{get_run, rows_of}
use imece_ide.Run.Store.Consistency.{IsConsistent}
use imece_ide.Run.Runtime.{Environment, RunRuntime, current_run}
use imece_ide.Run.Completion.Kinds.{
  is_review_started, is_review_terminal, is_review_completed, is_verification_completed,
}
use imece_ide.Run.Completion.Checks.{
  last_where, require_latest_review, verified_execution, approved_review,
}
use imece_ide.Run.Completion.Evidence.{IsLast, last_where-some}
use imece_ide.Run.Completion.Gate.{
  Settlement, evidence, settle, complete_verified, complete_reviewed, fail_execution,
  fail_verification, fail_fix_loop, reviewed_payload,
}
use imece_ide.Run.Completion.Settlement.{IsSettled, IsSettled-of, evidence_rows}

abbrev reviews : RunEvent → Bool
reviews e = is_review_started e.type

abbrev review_ends : String → RunEvent → RunEvent → Bool
review_ends id start e =
    leb start.seq e.seq && (holds_text "review_id" e.payload id && is_review_terminal e.type)

-- The latest review began after the verification ended, and completed with APPROVED on the diff.
pub record IsApprovedLog (es : List RunEvent) (verification_id review_id diff : String)
    (terminal : RunEvent) : Type 0 where
  pub start : RunEvent
  pub review : RunEvent
  pub latest : IsLast reviews es start
  pub same : holds_text "review_id" start.payload review_id ≡ true
  pub later : terminal.seq < start.seq
  pub ended : IsLast (review_ends review_id start) es review
  pub completed : review.type ≡ RunEventType.review_completed
  pub approved : holds_text "verdict" review.payload "APPROVED" ≡ true
  pub on_verification : holds_text "verification_id" review.payload verification_id ≡ true
  pub on_pass : holds_text "verification_status" review.payload "pass" ≡ true
  pub on_diff : holds_text "diff_sha256" review.payload diff ≡ true

review_type :
    (e : RunEvent) → is_review_completed e.type ≡ true → e.type ≡ RunEventType.review_completed
unfolding is_review_completed
review_type e h = ground arith

review_inv :
    (es : List RunEvent) (id : String) (start review : RunEvent)
    → require_latest_review es id ≡ ok (start, review)
    → (last_where reviews es ≡ some start)
      × (holds_text "review_id" start.payload id ≡ true)
      × (last_where (review_ends id start) es ≡ some review)
unfolding require_latest_review
review_inv es id start review h = (ground arith, ground arith, ground arith)

pub approved-IsApprovedLog :
    (es : List RunEvent) (vid rid diff : String) (terminal : RunEvent)
    → approved_review es vid rid diff terminal ≡ ok tt
    → IsApprovedLog es vid rid diff terminal
unfolding approved_review
approved-IsApprovedLog es vid rid diff terminal h =
    elim (Result-cases (require_latest_review es rid)) [
      | inr (f, a) ↦ absurd (ground arith)
      | inl ((start, review), a) ↦
          let (s, same, e) = review_inv es rid start review a in
          record {
            start = start;
            review = review;
            latest = last_where-some reviews es start s;
            same = same;
            later = ground arith;
            ended = last_where-some (review_ends rid start) es review e;
            completed = review_type review (ground arith);
            approved = ground arith;
            on_verification = ground arith;
            on_pass = ground arith;
            on_diff = ground arith;
          }
    ]

evidence_refused :
    (k : String) (rt : RunRuntime) (r : RunRecord)
    → get_run k rt.store ≡ ok r
    → r.status ≢ RunStatus.running
    → evidence k rt ≡ err invalid_run_state
unfolding evidence current_run
evidence_refused k rt r found h = ground arith

module _ ⦃fp : FloatOps⦄ ⦃env : Environment⦄ where
  -- A run that `complete_reviewed` settles meets all that `complete_verified` asks for, and its
  -- latest review began after the verification ended, completed, and APPROVED the current diff.
  pub complete_reviewed-IsSettled :
      (mode : Settlement) (k vid rid diff : String) (rt rt' : RunRuntime)
      → IsConsistent rt.store
      → complete_reviewed mode k vid rid diff rt ≡ ok rt'
      → (terminal : RunEvent) × (x : String) × IsSettled mode k vid terminal x rt rt'
        × IsApprovedLog (rows_of k rt.store.events) vid rid diff terminal
  unfolding complete_reviewed
  complete_reviewed-IsSettled mode k vid rid diff rt rt' w h = elim (Result-cases (evidence k rt)) [
    | inr (f, a) ↦ absurd (ground arith)
    | inl (ev, a) ↦ elim (Result-cases (verified_execution ev.events vid)) [
      | inr (f, b) ↦ absurd (ground arith)
      | inl ((t, x), b) ↦ elim (Result-cases (approved_review ev.events vid rid diff t)) [
        | inr (f, c) ↦ absurd (ground arith)
        | inl (_, c) ↦ elim (Bool-cases (is_sha256 diff && is_verification_completed t.type)) [
          | inr bad ↦ absurd (ground arith)
          | inl fine ↦
              let done : settle mode k ev.decision_seq (reviewed_payload vid rid diff x) rt
                  ≡ ok rt' =
                ground arith in
              (
                t,
                x,
                IsSettled-of mode k vid rt rt' ev t x (reviewed_payload vid rid diff x) w a b done,
                subst (λ es. IsApprovedLog es vid rid diff t) (evidence_rows k rt ev w a)
                    (approved-IsApprovedLog ev.events vid rid diff t c),
              )
        ]
      ]
    ]
  ]

  -- A run that is not RUNNING is never settled again: every operation of the gate raises
  -- InvalidRunStateError.
  pub gate_refuses :
      (mode : Settlement) (k vid rid diff other : String) (rt : RunRuntime) (r : RunRecord)
      → get_run k rt.store ≡ ok r
      → r.status ≢ RunStatus.running
      → (complete_verified mode k vid rt ≡ err invalid_run_state)
        × (complete_reviewed mode k vid rid diff rt ≡ err invalid_run_state)
        × (fail_execution k other rt ≡ err invalid_run_state)
        × (fail_verification k vid rt ≡ err invalid_run_state)
        × (fail_fix_loop k other rt ≡ err invalid_run_state)
  unfolding complete_verified complete_reviewed fail_execution fail_verification fail_fix_loop
  gate_refuses mode k vid rid diff other rt r found not_running =
      let stopped = evidence_refused k rt r found not_running in
      (rw stopped, rw stopped, rw stopped, rw stopped, rw stopped)
