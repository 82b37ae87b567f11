-- ===== src/Run/Completion/Written.antt =====
-- The events that the gate of run_runtime/completion.py writes for a run that it settles on a review.
use imece_ide.Base.{
  is_sha256, ℕ, String, ◌≡◌, ap, ◌∙◌, append_assoc, none, some, List, [], ◌∷◌, ◌++◌, ok, bind_inv,
  guard_inv,
}
use imece_ide.Json.{Dict, Value, get, end}
use imece_ide.Run.Models.{FloatOps}
use imece_ide.Run.Events.{RunEventType, RunEvent}
use imece_ide.Run.Store.{rows_of}
use imece_ide.Run.Runtime.{Environment, RunRuntime}
use imece_ide.Run.Runtime.Recorded.{record_event-Grew, record_two-Grew}
use imece_ide.Run.Completion.Checks.{verified_execution, approved_review}
use imece_ide.Run.Completion.Kinds.{is_verification_completed}
use imece_ide.Run.Completion.Gate.{
  Settlement, complete, await_user, evidence, settle, complete_reviewed, reviewed_payload,
}

-- A payload that names what the run was settled on.
pub record RestsOn (verification_id review_id diff : String) (payload : Dict) : Type 0 where
  pub verification : get "verification_id" payload ≡ some (Value.str verification_id)
  pub review : get "review_id" payload ≡ some (Value.str review_id)
  pub on_diff : get "diff_sha256" payload ≡ some (Value.str diff)

-- What ends a log of a settled run: its completion, or its proposal and the wait for the user.
pub data Settles (verification_id review_id diff : String)
    : Settlement → List RunEvent → Type 0 where
  completes :
      {e : RunEvent}
      → e.type ≡ RunEventType.run_completed
      → RestsOn verification_id review_id diff e.payload
      → Settles verification_id review_id diff complete (e ∷ [])
  proposes :
      {e x : RunEvent}
      → e.type ≡ RunEventType.proposal_ready
      → RestsOn verification_id review_id diff e.payload
      → x.type ≡ RunEventType.run_waiting_user
      → Settles verification_id review_id diff await_user (e ∷ x ∷ [])

-- The log of the run `k` in `rt'` is the one in `rt`, with the settlement at its end.
pub record Written (mode : Settlement) (k verification_id review_id diff : String)
    (rows rows' : List RunEvent) : Type 0 where
  pub settlement : List RunEvent
  pub settles : Settles verification_id review_id diff mode settlement
  pub log : rows' ≡ rows ++ settlement

module _ ⦃fp : FloatOps⦄ ⦃env : Environment⦄ where
  rests_lem :
      (vid rid diff x : String) (d : Dict)
      → d ≡ reviewed_payload vid rid diff x
      → RestsOn vid rid diff d
  unfolding get
  rests_lem vid rid diff x d h = record {
    verification = ap (get "verification_id") h;
    review = ap (get "review_id") h;
    on_diff = ap (get "diff_sha256") h;
  }

  settle-Written :
      (mode : Settlement) (k vid rid diff x : String) (seq : ℕ) (rt rt' : RunRuntime)
      → settle mode k seq (reviewed_payload vid rid diff x) rt ≡ ok rt'
      → Written mode k vid rid diff (rows_of k rt.store.events) (rows_of k rt'.store.events)
  unfolding settle
  settle-Written complete k vid rid diff x seq rt rt' h =
      let g =
        record_event-Grew k RunEventType.run_completed (reviewed_payload vid rid diff x) none none
          "run_gate" (some seq) rt rt' h in
      record {
        settlement = g.event ∷ [];
        settles = completes g.typed (rests_lem vid rid diff x g.event.payload g.carries);
        log = g.rows;
      }
  settle-Written await_user k vid rid diff x seq rt rt' h =
      let (mid, g, u) =
        record_two-Grew k RunEventType.proposal_ready (reviewed_payload vid rid diff x)
          RunEventType.run_waiting_user end (some k) "run_gate" (some seq) rt rt' h in
      record {
        settlement = g.event ∷ u.event ∷ [];
        settles = proposes g.typed (rests_lem vid rid diff x g.event.payload g.carries) u.typed;
        log =
            u.rows
            ∙ ap (λ l. l ++ u.event ∷ []) g.rows
            ∙ append_assoc (rows_of k rt.store.events) (g.event ∷ []) (u.event ∷ []);
      }

  pub complete_reviewed-Written :
      (mode : Settlement) (k vid rid diff : String) (rt rt' : RunRuntime)
      → complete_reviewed mode k vid rid diff rt ≡ ok rt'
      → Written mode k vid rid diff (rows_of k rt.store.events) (rows_of k rt'.store.events)
  unfolding complete_reviewed
  complete_reviewed-Written mode k vid rid diff rt rt' h =
      let (ev, _, h) = bind_inv (evidence k rt) _ h in
      let (_, h) = guard_inv (is_sha256 diff) _ h in
      let ((t, x), _, h) = bind_inv (verified_execution ev.events vid) _ h in
      let (_, h) = guard_inv (is_verification_completed t.type) _ h in
      let (_, _, h) = bind_inv (approved_review ev.events vid rid diff t) _ h in
      settle-Written mode k vid rid diff x ev.decision_seq rt rt' h
