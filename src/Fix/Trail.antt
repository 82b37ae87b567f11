-- ===== src/Fix/Trail.antt =====
-- The order of the events that one recorder of run_runtime/fix_loop.py writes, whatever is asked of it.
pub mod Steps
pub mod Rules
use imece_ide.Base.{
  ℕ, zero, suc, ◌+◌, String, Bool, true, false, not, ◌≡◌, refl, sym, subst, ap, ◌∙◌, Option, none,
  some, List, [], ◌∷◌, Result, ok, err, Result-cases, Bool-cases, Option-cases, inl, inr, arith,
  ◌++◌, length, drop, drop-length-append,
}
use imece_ide.Json.{Value, Dict, pos, get}
use imece_ide.Run.Store.{rows_of}
use imece_ide.Fix.Recorded.{commit-Grew}
use imece_ide.Run.Models.{FloatOps}
use imece_ide.Run.Events.{RunEventType, RunEvent}
use imece_ide.Run.Runtime.{Environment, RunRuntime, texts}
use imece_ide.Fix.Recorder.{
  Recorder, Attempt, new_recorder, commit, start, attempt_started, attempt_completed,
  attempt_interrupted, append_terminal, started_payload, completed_payload, interrupted_payload,
  fields, completed, exhausted, failed, interrupted,
}

-- The calls of a recorder.
pub data Call : Type 0 where
  call_start : Call
  call_attempt_started : Attempt → String → Call
  call_attempt_completed : Attempt → String → Bool → Call
  call_attempt_interrupted : String → List (String × Value) → Call
  call_completed :
      (attempts_used : ℕ) → Option String → (verification_id review_id diff : String) → Call
  call_exhausted : String → (attempts_used most : ℕ) → List (String × Value) → Call
  call_failed : String → List (String × Value) → Call
  call_interrupted : String → List (String × Value) → Call

-- The types of the events that end a fix loop.
pub data IsTerminal : RunEventType → Type 0 where
  by_completion : IsTerminal RunEventType.fix_loop_completed
  by_exhaustion : IsTerminal RunEventType.fix_loop_exhausted
  by_failure : IsTerminal RunEventType.fix_loop_failed
  by_interruption : IsTerminal RunEventType.fix_loop_interrupted

-- An event of the given type whose payload has the number of an attempt.
pub record IsOf (type : RunEventType) (n : ℕ) (e : RunEvent) : Type 0 where
  pub typed : e.type ≡ type
  pub numbered : get "attempt_index" e.payload ≡ some (Value.int (pos n))

-- The events that may follow when `done` attempts are completed and `active` is the attempt under
-- way: attempts one at a time, numbered from the completed ones on, and at most one terminal, between
-- attempts, with nothing after it.
pub data Follows : ℕ → Option ℕ → List RunEvent → Type 0 where
  stop : {done : ℕ} {active : Option ℕ} → Follows done active []
  opens :
      {done : ℕ} {e : RunEvent} {es : List RunEvent}
      → IsOf RunEventType.fix_attempt_started (done + 1) e
      → Follows done (some (done + 1)) es
      → Follows done none (e ∷ es)
  closes :
      {done m : ℕ} {e : RunEvent} {es : List RunEvent}
      → IsOf RunEventType.fix_attempt_completed m e
      → Follows m none es
      → Follows done (some m) (e ∷ es)
  cuts :
      {done m : ℕ} {e : RunEvent} {es : List RunEvent}
      → IsOf RunEventType.fix_attempt_interrupted m e
      → Follows done none es
      → Follows done (some m) (e ∷ es)
  ends : {done : ℕ} {e : RunEvent} → IsTerminal e.type → Follows done none (e ∷ [])

-- One start, before all else.
pub data IsTrail : List RunEvent → Type 0 where
  nothing : IsTrail []
  begins :
      {e : RunEvent} {es : List RunEvent}
      → e.type ≡ RunEventType.fix_loop_started
      → Follows 0 none es
      → IsTrail (e ∷ es)

module _ ⦃fp : FloatOps⦄ ⦃env : Environment⦄ where
  unfoldable pub perform : Call → Recorder → RunRuntime → Result (Recorder × RunRuntime)
  perform call_start = start
  perform (call_attempt_started a kind) = attempt_started a kind
  perform (call_attempt_completed a diff changed) = attempt_completed a diff changed
  perform (call_attempt_interrupted reason extra) = attempt_interrupted reason extra
  perform (call_completed used x vid rid diff) = completed used x vid rid diff
  perform (call_exhausted reason used most extra) = exhausted reason used most extra
  perform (call_failed reason extra) = failed reason extra
  perform (call_interrupted reason extra) = interrupted reason extra

  -- What is in the log of the run after a call and was not there before.
  abbrev pub written : String → RunRuntime → RunRuntime → List RunEvent
  written k rt rt' = drop (length (rows_of k rt.store.events)) (rows_of k rt'.store.events)

  -- The events that the calls write, where each call finds the run in a state of its own: others write
  -- to it in between. A call that raises leaves the recorder and the run as they were.
  unfoldable pub trail : List (Call × RunRuntime) → Recorder → List RunEvent
  trail [] r = []
  trail (c ∷ cs) r = elim (perform c.0 r c.1) [
    | ok (r', rt') ↦ written r.run_id c.1 rt' ++ trail cs r'
    | err _ ↦ trail cs r
  ]

  -- The event that a commit writes.
  pub record Adds (k : String) (type : RunEventType) (payload : Dict) (rt rt' : RunRuntime)
      : Type 0 where
    pub event : RunEvent
    pub typed : event.type ≡ type
    pub carries : event.payload ≡ payload
    pub alone : written k rt rt' ≡ event ∷ []

  pub commit-Adds :
      (r : Recorder) (type : RunEventType) (payload : Dict) (rt rt' : RunRuntime)
      → commit r type payload rt ≡ ok rt'
      → Adds r.run_id type payload rt rt'
  commit-Adds r type payload rt rt' h =
      let g = commit-Grew r type payload rt rt' h in
      record {
        event = g.event;
        typed = g.typed;
        carries = g.carries;
        alone = rw g.rows (drop-length-append (rows_of r.run_id rt.store.events) (g.event ∷ []));
      }

  -- A recorder that has recorded its terminal refuses every call.
  finished_refuses :
      (c : Call) (r : Recorder) (rt : RunRuntime) (x : Recorder × RunRuntime)
      → r.started_persisted ≡ true
      → r.terminal_recorded ≡ true
      → perform c r rt ≡ ok x
      → ⊥
  unfolding perform completed exhausted failed interrupted start attempt_started attempt_completed
      attempt_interrupted append_terminal
  finished_refuses call_start r rt x a b h = ground arith
  finished_refuses (call_attempt_started t k) r rt x a b h = ground arith
  finished_refuses (call_attempt_completed t k z) r rt x a b h = ground arith
  finished_refuses (call_attempt_interrupted t k) r rt x a b h = ground arith
  finished_refuses (call_completed n t v w d) r rt x a b h = ground arith
  finished_refuses (call_exhausted t n m k) r rt x a b h = ground arith
  finished_refuses (call_failed t k) r rt x a b h = ground arith
  finished_refuses (call_interrupted t k) r rt x a b h = ground arith

  pub trail-finished :
      (cs : List (Call × RunRuntime)) (r : Recorder)
      → r.started_persisted ≡ true
      → r.terminal_recorded ≡ true
      → trail cs r ≡ []
  unfolding trail
  trail-finished [] r a b = refl
  trail-finished (c ∷ cs) r a b = elim (Result-cases (perform c.0 r c.1)) [
    | inl (x, q) ↦ absurd (finished_refuses c.0 r c.1 x a b q)
    | inr (e, q) ↦ rw (q, trail) (trail-finished cs r a b)
  ]
