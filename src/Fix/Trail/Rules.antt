-- ===== src/Fix/Trail/Rules.antt =====
-- The trail of a recorder of run_runtime/fix_loop.py: each call that returns extends it by the rules.
use imece_ide.Base.{
  ℕ, String, true, false, ◌≡◌, refl, sym, subst, ap, ◌∙◌, Option, none, some, List, ok, arith, ◌++◌,
}
use imece_ide.Json.{Value, Dict, pos, get}
use imece_ide.Run.Models.{FloatOps}
use imece_ide.Run.Events.{RunEventType, RunEvent}
use imece_ide.Run.Runtime.{Environment, RunRuntime}
use imece_ide.Fix.Recorder.{
  Recorder, append_terminal, started_payload, completed_payload, interrupted_payload, number_value,
  completed, exhausted, failed, interrupted,
}
use imece_ide.Fix.Trail.{
  Call, call_start, call_attempt_started, call_attempt_completed, call_attempt_interrupted,
  call_completed, call_exhausted, call_failed, call_interrupted, IsTerminal, by_completion,
  by_exhaustion, by_failure, by_interruption, IsOf, Follows, opens, closes, cuts, ends, perform,
  written, trail, Adds, trail-finished,
}
use imece_ide.Fix.Trail.Steps.{
  started_step, completed_step, interrupted_step, terminal_step, start_step,
}

follows_at :
    {n n' : ℕ} {a a' : Option ℕ} {ms : List RunEvent}
    → n ≡ n'
    → a ≡ a'
    → Follows n a ms
    → Follows n' a' ms
follows_at {n = n} {a' = a'} {ms = ms} p q t =
    subst (λ m. Follows m a' ms) p (subst (λ b. Follows n b ms) q t)

module _ ⦃fp : FloatOps⦄ ⦃env : Environment⦄ where
  -- A started recorder without a terminal: what it has still to write.
  abbrev Goes : List (Call × RunRuntime) → Type 0
  Goes cs =
      (r : Recorder)
      → r.started_persisted ≡ true
      → r.terminal_recorded ≡ false
      → Follows r.last_completed_attempt_index r.active_attempt_index (trail cs r)

  -- The event of an attempt, from what its payload says.
  Adds-IsOf :
      (k : String) (type : RunEventType) (payload : Dict) (n : ℕ) (rt rt' : RunRuntime)
      (a : Adds k type payload rt rt')
      → get "attempt_index" payload ≡ some (Value.int (pos n))
      → IsOf type n a.event
  Adds-IsOf k type payload n rt rt' a h = record {
    typed = a.typed;
    numbered = ap (get "attempt_index") a.carries ∙ h;
  }

  follow_terminal :
      (cs : List (Call × RunRuntime)) (type : RunEventType) (extra : List (String × Value))
      (r r' : Recorder) (rt rt' : RunRuntime)
      → IsTerminal type
      → append_terminal type extra r rt ≡ ok (r', rt')
      → Follows r.last_completed_attempt_index r.active_attempt_index
          (written r.run_id rt rt' ++ trail cs r')
  follow_terminal cs type extra r r' rt rt' t h =
      let (idle, c, d, adds) = terminal_step type extra r r' rt rt' h in
      rw (idle, adds.alone, trail-finished cs r' c d) (ends (subst IsTerminal (sym adds.typed) t))

  follow :
      (cs : List (Call × RunRuntime)) (c : Call) (r r' : Recorder) (rt rt' : RunRuntime)
      → Goes cs
      → r.started_persisted ≡ true
      → r.terminal_recorded ≡ false
      → perform c r rt ≡ ok (r', rt')
      → Follows r.last_completed_attempt_index r.active_attempt_index
          (written r.run_id rt rt' ++ trail cs r')
  unfolding perform completed exhausted failed interrupted get
  follow cs call_start r r' rt rt' goes a b h = absurd (ground (arith, start_step r r' rt rt' h))
  follow cs (call_attempt_started t kind) r r' rt rt' goes a b h =
      let (idle, index, c, d, now, last, adds) = started_step t kind r r' rt rt' h in
      let of =
        Adds-IsOf r.run_id RunEventType.fix_attempt_started (started_payload r t kind)
          t.attempt_index rt rt' adds refl in
      rw (idle, adds.alone)
        (opens (subst (λ n. IsOf RunEventType.fix_attempt_started n adds.event) index of)
          (follows_at last (now ∙ ap some index) (goes r' (c ∙ a) (d ∙ b))))
  follow cs (call_attempt_completed t diff changed) r r' rt rt' goes a b h =
      let (active, c, d, now, last, adds) = completed_step t diff changed r r' rt rt' h in
      let of =
        Adds-IsOf r.run_id RunEventType.fix_attempt_completed (completed_payload r t diff changed)
          t.attempt_index rt rt' adds refl in
      rw (active, adds.alone) (closes of (follows_at last now (goes r' (c ∙ a) (d ∙ b))))
  follow cs (call_attempt_interrupted reason extra) r r' rt rt' goes a b h =
      let ((m, active), c, d, now, last, adds) = interrupted_step reason extra r r' rt rt' h in
      let of =
        Adds-IsOf r.run_id RunEventType.fix_attempt_interrupted (interrupted_payload r reason extra)
          m rt rt' adds (ap (λ o. some (number_value o)) active) in
      rw (active, adds.alone) (cuts of (follows_at last now (goes r' (c ∙ a) (d ∙ b))))
  follow cs (call_completed n x v w d) r r' rt rt' goes a b h =
      follow_terminal cs RunEventType.fix_loop_completed _ r r' rt rt' by_completion h
  follow cs (call_exhausted x n m extra) r r' rt rt' goes a b h =
      follow_terminal cs RunEventType.fix_loop_exhausted _ r r' rt rt' by_exhaustion h
  follow cs (call_failed x extra) r r' rt rt' goes a b h =
      follow_terminal cs RunEventType.fix_loop_failed _ r r' rt rt' by_failure h
  follow cs (call_interrupted x extra) r r' rt rt' goes a b h =
      follow_terminal cs RunEventType.fix_loop_interrupted _ r r' rt rt' by_interruption h

  -- A recorder as `new_recorder` makes it.
  pub record IsFresh (r : Recorder) : Type 0 where
    pub unstarted : r.started_persisted ≡ false
    pub unsettled : r.terminal_recorded ≡ false
    pub idle : r.active_attempt_index ≡ none
    pub none_done : r.last_completed_attempt_index ≡ 0
