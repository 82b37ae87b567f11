-- ===== src/Run/Completion/Evidence.antt =====
-- What a successful check of run_runtime/completion.py says of the order of events in the log.
mod Search
pub use Search.{IsLast, last_where-some}
use imece_ide.Base.{
  ℕ, zero, suc, ◌+◌, ◌≤◌, ◌<◌, String, true, false, ◌&&◌, ◌≡◌, refl, sym, ap, subst, ◌∙◌, ltb, leb,
  Option, none, some, List, [], ◌∷◌, ◌++◌, any, Result, ok, Result-cases, arith, Bool, inl, inr,
  Option-cases,
}
use imece_ide.Json.{holds_text}
use imece_ide.Run.Events.{RunEventType, RunEvent}
use imece_ide.Run.Store.Consistency.{IsNumbered}
use imece_ide.Run.Completion.Kinds.{
  is_execution_lifecycle, is_verification_started, is_verification_terminal,
  is_verification_interrupted, is_execution_completed,
}
use imece_ide.Run.Completion.Checks.{
  last_where, verified_execution, settled_execution, require_latest_verification,
  latest_verification_start, verification_terminal, latest_execution_lifecycle_before,
  has_newer_execution_activity, execution_id_of,
}
use Search.{
  IsNumbered-split, IsNumbered-bounds, any_behind, any-append, last_where-append, last_where_before,
  last_where_not_before, last_where_from, last_where_skip, any_newer,
}

abbrev starts : RunEvent → Bool
starts e = is_verification_started e.type

abbrev runs : RunEvent → Bool
runs e = is_execution_lifecycle e.type

abbrev ends : String → RunEvent → Bool
ends id e = holds_text "verification_id" e.payload id && is_verification_terminal e.type

record Latest (es : List RunEvent) (id : String) (start : RunEvent) (terminal : RunEvent)
    : Type 0 where
  started : last_where starts es ≡ some start
  same : holds_text "verification_id" start.payload id ≡ true
  ended : last_where (λ e. leb start.seq e.seq && ends id e) es ≡ some terminal
  whole : is_verification_interrupted terminal.type ≡ false

record Settled (es : List RunEvent) (start : RunEvent) (terminal : RunEvent) (x : String)
    : Type 0 where
  execution : RunEvent
  passed : holds_text "status" terminal.payload "pass" ≡ true
  quiet : has_newer_execution_activity es start.seq ≡ false
  ran : last_where (λ e. ltb e.seq start.seq && runs e) es ≡ some execution
  complete : is_execution_completed execution.type ≡ true
  named : execution_id_of execution ≡ ok x

Latest-inv :
    (es : List RunEvent) (id : String) (start terminal : RunEvent)
    → require_latest_verification es id ≡ ok (start, terminal)
    → Latest es id start terminal
unfolding require_latest_verification
Latest-inv es id start terminal h = record {
  started = ground arith;
  same = ground arith;
  ended = ground arith;
  whole = ground arith;
}

Settled-inv :
    (es : List RunEvent) (start terminal : RunEvent) (x : String)
    → settled_execution es start terminal ≡ ok x
    → Settled es start terminal x
unfolding settled_execution
Settled-inv es start terminal x h =
    elim (Option-cases (last_where (λ e. ltb e.seq start.seq && runs e) es)) [
      | inl n ↦ absurd (ground arith)
      | inr (execution, r) ↦ record {
        execution = execution;
        passed = ground arith;
        quiet = ground arith;
        ran = r;
        complete = ground arith;
        named = ground arith;
      }
    ]

verified_inv :
    (es : List RunEvent) (id : String) (terminal : RunEvent) (x : String)
    → verified_execution es id ≡ ok (terminal, x)
    → (start : RunEvent) × Latest es id start terminal × Settled es start terminal x
unfolding verified_execution
verified_inv es id terminal x h = elim (Result-cases (require_latest_verification es id)) [
  | inr (f, a) ↦ absurd (ground arith)
  | inl ((start, t), a) ↦ elim (Result-cases (settled_execution es start t)) [
    | inr (f, b) ↦ absurd (ground arith)
    | inl (y, b) ↦
        let same_t : t ≡ terminal = ground arith in
        let same_x : y ≡ x = ground arith in
        (
          start,
          Latest-inv es id start terminal
              (subst (λ u. require_latest_verification es id ≡ ok (start, u)) same_t a),
          Settled-inv es start terminal x
              (subst (λ u. settled_execution es start u ≡ ok x) same_t (b ∙ ap ok same_x)),
        )
  ]
]

-- The shape of a log in which verification `id` passed on execution `x`: the execution completed,
-- then nothing ran, then the verification started, and behind its start no execution event and no
-- other verification start stand, but its own PASS, which is its last terminal event.
pub record IsVerifiedLog (es : List RunEvent) (id : String) (terminal : RunEvent) (x : String)
    : Type 0 where
  pub before : List RunEvent
  pub execution : RunEvent
  pub between : List RunEvent
  pub start : RunEvent
  pub after : List RunEvent
  pub split : es ≡ (before ++ execution ∷ between) ++ start ∷ after
  pub execution_done : execution.type ≡ RunEventType.execution_completed
  pub execution_named : execution.execution_id ≡ some x
  pub settled : any runs between ≡ false
  pub begins : start.type ≡ RunEventType.verification_started
  pub begins_same : holds_text "verification_id" start.payload id ≡ true
  pub latest : any starts after ≡ false
  pub quiet : any runs after ≡ false
  pub ended : IsLast (ends id) (start ∷ after) terminal
  pub terminal_done : terminal.type ≡ RunEventType.verification_completed
  pub passed : holds_text "status" terminal.payload "pass" ≡ true

execution_id_of_lem :
    (e : RunEvent) (x : String) → execution_id_of e ≡ ok x → e.execution_id ≡ some x
unfolding execution_id_of
execution_id_of_lem e x h = ground arith

completed_type :
    (e : RunEvent)
    → is_execution_completed e.type ≡ true
    → e.type ≡ RunEventType.execution_completed
unfolding is_execution_completed
completed_type e h = ground arith

started_type : (e : RunEvent) → starts e ≡ true → e.type ≡ RunEventType.verification_started
unfolding is_verification_started
started_type e h = ground arith

passed_type :
    (id : String) (e : RunEvent)
    → ends id e ≡ true
    → is_verification_interrupted e.type ≡ false
    → e.type ≡ RunEventType.verification_completed
unfolding is_verification_terminal is_verification_interrupted
passed_type id e h w = ground arith

-- A check that passes has found such a log.
pub verified-IsVerifiedLog :
    (n : ℕ) (es : List RunEvent) (id : String) (terminal : RunEvent) (x : String)
    → IsNumbered 0 es n
    → verified_execution es id ≡ ok (terminal, x)
    → IsVerifiedLog es id terminal x
unfolding has_newer_execution_activity
verified-IsVerifiedLog n es id terminal x num h =
    let (begin, l, c) = verified_inv es id terminal x h in
    let s = last_where-some starts es begin l.started in
    let (k, nb, at, na) =
      IsNumbered-split 0 n s.before s.after begin (subst (λ l. IsNumbered 0 l n) s.split num) in
    let cut =
      subst (λ l. last_where (λ e. ltb e.seq begin.seq && runs e) l ≡ some c.execution) s.split
        c.ran in
    let none_behind =
      last_where_not_before runs begin.seq k n (begin ∷ s.after) (at, na) (omega (arith, at)) in
    let ran =
      sym (last_where_before runs begin.seq 0 k s.before nb (omega (arith, at)))
      ∙ last_where-append _ s.before (begin ∷ s.after) {e = c.execution} cut none_behind in
    let r = last_where-some runs s.before c.execution ran in
    let ended =
      sym (last_where_from (ends id) begin.seq k n (begin ∷ s.after) (at, na) (omega (arith, at)))
      ∙ sym (
          last_where_skip (ends id) begin.seq 0 k s.before (begin ∷ s.after) nb (omega (arith, at)))
      ∙ subst (λ l. last_where (λ e. leb begin.seq e.seq && ends id e) l ≡ some terminal) s.split
          l.ended in
    let e = last_where-some (ends id) (begin ∷ s.after) terminal ended in
    record {
      before = r.before;
      execution = c.execution;
      between = r.after;
      start = begin;
      after = s.after;
      split = s.split ∙ ap (λ l. l ++ begin ∷ s.after) r.split;
      execution_done = completed_type c.execution c.complete;
      execution_named = execution_id_of_lem c.execution x c.named;
      settled = r.last;
      begins = started_type begin s.passes;
      begins_same = l.same;
      latest = s.last;
      quiet =
          any_newer runs k n s.before s.after begin at na
            (subst (λ l. any (λ e. ltb begin.seq e.seq && runs e) l ≡ false) s.split c.quiet);
      ended = e;
      terminal_done = passed_type id terminal e.passes l.whole;
      passed = c.passed;
    }
