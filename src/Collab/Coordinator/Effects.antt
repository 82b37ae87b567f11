-- ===== src/Collab/Coordinator/Effects.antt =====
-- What the writes of collab_runtime/coordinator.py make of a session's state, and what they leave alone.
use imece_ide.Base.{
  ◌≡◌, ◌≢◌, refl, sym, subst, ap, ◌∙◌, String, true, false, str_eq, eq_iff, none, some, List, [],
  ◌∷◌, ok, bind_inv, guard_inv, Bool-cases, inl, inr, leb, length, arith,
}
use imece_ide.Collab.Scopes.{is_safe_id, is_plain_text, is_sha_hex}
use imece_ide.Collab.Models.{
  SharedContext, TaskStatus, queued, Task, SessionState, find_task, put_task, with_context,
  with_task, all_plain, valid_interfaces, sort_interfaces, parse_context, parse_scopes, parse_task,
}
use imece_ide.Collab.Models.Stable.{Parsed, Parsed-parse_task}
use imece_ide.Collab.Models.States.{AllParsed, ParsedState}
use imece_ide.Collab.Coordinator.{is_key, new_task}

-- The names of the session, which no write changes.
pub record SameSession (s next : SessionState) : Type 0 where
  pub session_id : next.session_id ≡ s.session_id
  pub target_version : next.target_version ≡ s.target_version
  pub base_commit : next.base_commit ≡ s.base_commit

-- The context of `next` is `x` with its interfaces in order, and nothing else is changed.
pub record ContextSet (x : SharedContext) (s next : SessionState) : Type 0 where
  pub goal : next.context.goal ≡ x.goal
  pub decisions : next.context.decisions ≡ x.decisions
  pub interfaces : next.context.interfaces ≡ sort_interfaces x.interfaces
  pub tasks : next.tasks ≡ s.tasks
  pub session : SameSession s next

-- The task `id` of `next` is `u`, and nothing else is changed.
pub record TaskSet (id : String) (u : Task) (s next : SessionState) : Type 0 where
  pub now : find_task id next.tasks ≡ some u
  pub others : (k : String) → k ≢ id → find_task k next.tasks ≡ find_task k s.tasks
  pub context : next.context ≡ s.context
  pub session : SameSession s next

-- A task that was just assigned, at a revision.
pub record IsAssigned (id owner goal : String) (scopes : List String) (revision : String) (t : Task)
    : Type 0 where
  pub of_id : t.id ≡ id
  pub of_owner : t.owner ≡ owner
  pub of_goal : t.goal ≡ goal
  pub of_scopes : parse_scopes [] scopes ≡ ok t.scopes
  pub in_queue : t.status ≡ queued
  pub at_revision : t.context_revision ≡ revision

same_session : (s : SessionState) → SameSession s s
same_session s = record { session_id = refl; target_version = refl; base_commit = refl }

pub with_context-ContextSet :
    (x y : SharedContext) (s : SessionState)
    → parse_context x ≡ ok y
    → ContextSet x s (with_context y s)
unfolding with_context parse_context
with_context-ContextSet x y s h =
    let (_, h) = guard_inv (is_plain_text 4000 x.goal) _ h in
    let (_, h) = guard_inv (leb (length x.decisions) 64) _ h in
    let (_, h) = guard_inv (all_plain 2000 x.decisions) _ h in
    let (_, h) = guard_inv (leb (length x.interfaces) 64) _ h in
    let (_, h) = guard_inv (valid_interfaces x.interfaces) _ h in
    record {
      goal = ground arith;
      decisions = ground arith;
      interfaces = ground arith;
      tasks = refl;
      session = record { session_id = refl; target_version = refl; base_commit = refl };
    }

find-put_self : (t : Task) (ts : List (String × Task)) → find_task t.id (put_task t ts) ≡ some t
unfolding find_task put_task
find-put_self t [] = rw ((eq_iff t.id t.id).1 refl) refl
find-put_self t ((j, u) ∷ ts) = elim (Bool-cases (str_eq j t.id)) [
  | inl e ↦ rw (e, find_task, e) refl
  | inr e ↦ rw (e, find_task, e) (find-put_self t ts)
]

other_key : (j k id : String) → str_eq j id ≡ true → k ≢ id → str_eq j k ≡ false
other_key j k id e h = elim (Bool-cases (str_eq j k)) [
  | inl q ↦ absurd (h (sym ((eq_iff j k).0 q) ∙ (eq_iff j id).0 e))
  | inr q ↦ q
]

find-put_other :
    (t : Task) (ts : List (String × Task)) (k : String)
    → k ≢ t.id
    → find_task k (put_task t ts) ≡ find_task k ts
unfolding find_task put_task
find-put_other t [] k h = rw (other_key t.id k t.id ((eq_iff t.id t.id).1 refl) h) refl
find-put_other t ((j, u) ∷ ts) k h = elim (Bool-cases (str_eq j t.id)) [
  | inl e ↦ rw (e, find_task, other_key j k t.id e h) refl
  | inr e ↦ elim (Bool-cases (str_eq j k)) [
    | inl q ↦ rw (e, find_task, q) refl
    | inr q ↦ rw (e, find_task, q) (find-put_other t ts k h)
  ]
]

pub with_task-TaskSet :
    (id : String) (t : Task) (s : SessionState) → t.id ≡ id → TaskSet id t s (with_task t s)
unfolding with_task
with_task-TaskSet id t s e = record {
  now = subst (λ k. find_task k (put_task t s.tasks) ≡ some t) e (find-put_self t s.tasks);
  others = λ k h. find-put_other t s.tasks k (λ q. h (q ∙ e));
  context = refl;
  session = record { session_id = refl; target_version = refl; base_commit = refl };
}

find_task-Parsed :
    (k : String) (ts : List (String × Task)) (t : Task)
    → AllParsed ts
    → find_task k ts ≡ some t
    → Parsed k t
unfolding find_task AllParsed
find_task-Parsed k [] t a h = absurd (ground arith)
find_task-Parsed k ((j, u) ∷ ts) t a h = elim (Bool-cases (str_eq j k)) [
  | inl q ↦
      let same : u ≡ t = ground arith in
      subst (Parsed k) same (subst (λ i. Parsed i u) ((eq_iff j k).0 q) a.0)
  | inr q ↦ find_task-Parsed k ts t a.1 (ground arith)
]

-- A task of a state that was read differs in its status only, after it is validated again.
pub moved_task :
    (id : String) (status : TaskStatus) (s : SessionState) (t u : Task)
    → ParsedState s
    → find_task id s.tasks ≡ some t
    → parse_task t.id (record t { status = status }) ≡ ok u
    → (u ≡ record t { status = status }) × (u.id ≡ id)
unfolding ParsedState Parsed
moved_task id status s t u p found h =
    let q = find_task-Parsed id s.tasks t p.1 found in
    let same = Parsed-parse_task t.id (record t { status = status }) u (refl, q.1) h in
    (same, ap (λ (x : Task). x.id) same ∙ q.0)

pub new_task-IsAssigned :
    (id owner goal : String) (scopes : List String) (revision : String) (t : Task)
    → parse_task id (new_task id owner goal scopes revision) ≡ ok t
    → IsAssigned id owner goal scopes revision t
unfolding parse_task
new_task-IsAssigned id owner goal scopes revision t h =
    let (_, h) = guard_inv (is_safe_id owner) _ h in
    let (_, h) = guard_inv (is_plain_text 4000 goal) _ h in
    let (_, h) = guard_inv (leb (length scopes) 32) _ h in
    let (found, p, h) = bind_inv (parse_scopes [] scopes) _ h in
    let (_, h) = guard_inv (is_safe_id id) _ h in
    let (_, h) = guard_inv (is_sha_hex revision) _ h in
    record {
      of_id = ground arith;
      of_owner = ground arith;
      of_goal = ground arith;
      of_scopes = ground arith;
      in_queue = ground arith;
      at_revision = ground arith;
    }

pub is_key-none :
    (id : String) (ts : List (String × Task)) → is_key id ts ≡ false → find_task id ts ≡ none
unfolding find_task
is_key-none id [] h = refl
is_key-none id ((j, t) ∷ ts) h = elim (Bool-cases (str_eq j id)) [
  | inl q ↦ absurd (ground arith)
  | inr q ↦ rw (q, find_task) (is_key-none id ts (ground arith))
]
