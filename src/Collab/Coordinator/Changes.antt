-- ===== src/Collab/Coordinator/Changes.antt =====
-- What the writes of collab_runtime/coordinator.py may do to a session, and for whom.
use imece_ide.Base.{
  ◌≡◌, String, true, ◌||◌, leb, str_eq, some, List, length, Result, ok, is_blank, require,
  require_inv, collab_validation, bind_inv, guard_inv, refuse_inv, sym, subst, eq_iff, ap, ◌∙◌,
  arith, ◌<◌, ◌⊎◌, none, inl, inr, Bool-cases,
}
use imece_ide.Collab.Scopes.{is_sha_hex, is_safe_id}
use imece_ide.Collab.Models.{
  SharedContext, TaskStatus, Task, SessionState, find_task, with_context, with_task, parse_state,
  parse_task, parse_context, identity_of, same_identity,
}
use imece_ide.Collab.Models.States.{
  ParsedState, parse_state-ParsedState, ParsedState-parse_state, with_task-ParsedState,
  with_context-ParsedState,
}
use imece_ide.Collab.Coordinator.Effects.{
  ContextSet, TaskSet, IsAssigned, with_context-ContextSet, with_task-TaskSet, moved_task,
  new_task-IsAssigned, is_key-none,
}
use imece_ide.Collab.Hub.{Git, Meanwhile, max_json_bytes, fetch_state, publish}
use imece_ide.Collab.Coordinator.{
  Coordinator, authenticate, checked_state, fetch_checked, set_status, update_context,
  update_task_status, create_task, is_key, new_task, validated_context, distinct_names,
}

-- The writes of a coordinator.
pub data Write : Type 0 where
  share_context : SharedContext → Write
  move_task : String → TaskStatus → Write
  add_task : (id owner goal : String) → List String → Write

-- What a principal may do to the state at a revision, and what it makes of it.
pub data Change (c : Coordinator) (who revision : String) (s : SessionState)
    : Write → SessionState → Type 0 where
  shares :
      {next : SessionState} (x : SharedContext)
      → who ≡ c.owner_id
      → ContextSet x s next
      → Change c who revision s (share_context x) next
  sets :
      {next : SessionState} (id : String) (status : TaskStatus) (t : Task)
      → find_task id s.tasks ≡ some t
      → (who ≡ c.owner_id) ⊎ (who ≡ t.owner)
      → TaskSet id (record t { status = status }) s next
      → Change c who revision s (move_task id status) next
  adds :
      {next : SessionState} (id owner goal : String) (scopes : List String) (t : Task)
      → who ≡ c.owner_id
      → is_key owner c.credential_hashes ≡ true
      → find_task id s.tasks ≡ none
      → length s.tasks < 256
      → IsAssigned id owner goal scopes revision t
      → TaskSet id t s next
      → Change c who revision s (add_task id owner goal scopes) next

same_text : (a b : String) → str_eq a b ≡ true → a ≡ b
same_text a b h = (eq_iff a b).0 h

either_text : (a b d : String) → (str_eq a b || str_eq a d) ≡ true → (a ≡ b) ⊎ (a ≡ d)
either_text a b d h = elim (Bool-cases (str_eq a b)) [
  | inl e ↦ inl (same_text a b e)
  | inr e ↦ inr (same_text a d (ground arith))
]

publish_tests :
    (git : Git) (next : SessionState) (expected : String) (m : Meanwhile) (revision : String)
    → publish git next expected m ≡ ok revision
    → (str_eq m.fetched expected ≡ true)
      × (str_eq m.pushed m.fetched ≡ true)
      × ((stored : SessionState) × (parse_state next ≡ ok stored)
          × (revision ≡ git.commit stored m.fetched))
unfolding publish fetch_state
publish_tests git next expected m revision h = ground arith

publish_inv :
    (git : Git) (next : SessionState) (expected : String) (m : Meanwhile) (revision : String)
    → publish git next expected m ≡ ok revision
    → (stored : SessionState) × (parse_state next ≡ ok stored)
      × (revision ≡ git.commit stored expected)
      × (m.pushed ≡ expected)
publish_inv git next expected m revision h =
    let (same, pushed, (stored, parsed, made)) = publish_tests git next expected m revision h in
    let at = same_text m.fetched expected same in
    (stored, parsed, made ∙ ap (git.commit stored) at, same_text m.pushed m.fetched pushed ∙ at)

fetch_inv :
    (git : Git) (c : Coordinator) (head revision : String) (s : SessionState)
    → fetch_checked git c head ≡ ok (revision, s)
    → head ≡ revision
unfolding fetch_checked fetch_state
fetch_inv git c head revision s h = ground arith

fetched-ParsedState :
    (git : Git) (c : Coordinator) (head revision : String) (s : SessionState)
    → fetch_checked git c head ≡ ok (revision, s)
    → ParsedState s
unfolding fetch_checked checked_state
fetched-ParsedState git c head revision s h =
    let ((at, raw), f, h) = bind_inv (fetch_state git head) _ h in
    let (sha, h) = guard_inv (is_sha_hex at) _ h in
    let (state, k, h) = bind_inv (checked_state c raw) _ h in
    let (t, p, k) = bind_inv (parse_state raw) _ k in
    let (same, k) = guard_inv (same_identity (identity_of t) c.identity) _ k in
    let e : t ≡ s = ground arith in subst ParsedState e (parse_state-ParsedState raw t p)

validated_inv : (x y : SharedContext) → validated_context x ≡ ok y → parse_context x ≡ ok y
unfolding validated_context
validated_inv x y h = (guard_inv (distinct_names x.interfaces) _ h).1

module _ (sha256 : String → String) (git : Git) where
  unfoldable pub write : Coordinator → String → Write → String → String → Meanwhile → Result String
  write c credential (share_context x) expected head m =
      update_context sha256 git c credential x expected head m
  write c credential (move_task id status) expected head m =
      update_task_status sha256 git c credential id status expected head m
  write c credential (add_task id owner goal scopes) expected head m =
      create_task sha256 git c credential id owner goal scopes expected head m

  -- A write that published a revision: by whom, on what state, and what it changed.
  pub record Published (c : Coordinator) (credential : String) (w : Write) (expected : String)
      (m : Meanwhile) (revision : String) : Type 0 where
    who : String
    authenticated : authenticate sha256 c credential ≡ ok who
    current : SessionState
    fetched : fetch_checked git c expected ≡ ok (expected, current)
    next : SessionState
    change : Change c who expected current w next
    made : revision ≡ git.commit next expected
    at_head : m.pushed ≡ expected

  published :
      (c : Coordinator) (credential : String) (w : Write) (expected head : String) (m : Meanwhile)
      (revision who : String) (current next : SessionState) (at : String)
      → authenticate sha256 c credential ≡ ok who
      → fetch_checked git c head ≡ ok (at, current)
      → str_eq at expected ≡ true
      → Change c who expected current w next
      → ParsedState next
      → publish git next expected m ≡ ok revision
      → Published c credential w expected m revision
  published c credential w expected head m revision who current next at a f same change good p =
      let (stored, validated, made, at_head) = publish_inv git next expected m revision p in
      let there = fetch_inv git c head at current f ∙ same_text at expected same in
      record {
        who = who;
        authenticated = a;
        current = current;
        fetched =
            subst (λ r. fetch_checked git c r ≡ ok (r, current)) there
              (subst (λ r. fetch_checked git c head ≡ ok (r, current))
                (sym (fetch_inv git c head at current f)) f);
        next = next;
        change = change;
        made =
            made
            ∙ ap (λ x. git.commit x expected) (ParsedState-parse_state next stored good validated);
        at_head = at_head;
      }

  shares_inv :
      (c : Coordinator) (credential : String) (x : SharedContext) (expected head : String)
      (m : Meanwhile) (revision : String)
      → update_context sha256 git c credential x expected head m ≡ ok revision
      → Published c credential (share_context x) expected m revision
  unfolding update_context
  shares_inv c credential x expected head m revision h =
      let (who, a, h) = bind_inv (authenticate sha256 c credential) _ h in
      let (owner, h) = guard_inv (str_eq who c.owner_id) _ h in
      let (sha, h) = guard_inv (is_sha_hex expected) _ h in
      let (y, v, h) = bind_inv (validated_context x) _ h in
      let ((at, current), f, h) = bind_inv (fetch_checked git c head) _ h in
      let (same, h) = guard_inv (str_eq at expected) _ h in
      published c credential (share_context x) expected head m revision who current
        (with_context y current) at a f same
        (shares x (same_text who c.owner_id owner)
          (with_context-ContextSet x y current (validated_inv x y v)))
        (with_context-ParsedState x y current (validated_inv x y v)
          (fetched-ParsedState git c head at current f))
        h

  sets_inv :
      (c : Coordinator) (credential id : String) (status : TaskStatus) (expected head : String)
      (m : Meanwhile) (revision : String)
      → update_task_status sha256 git c credential id status expected head m ≡ ok revision
      → Published c credential (move_task id status) expected m revision
  unfolding update_task_status set_status
  sets_inv c credential id status expected head m revision h =
      let (who, a, h) = bind_inv (authenticate sha256 c credential) _ h in
      let (safe, h) = guard_inv (is_safe_id id) _ h in
      let (sha, h) = guard_inv (is_sha_hex expected) _ h in
      let ((at, current), f, h) = bind_inv (fetch_checked git c head) _ h in
      let (t, found, h) = bind_inv (require (find_task id current.tasks) collab_validation) _ h in
      let (by, h) = guard_inv (str_eq who c.owner_id || str_eq who t.owner) _ h in
      let (same, h) = guard_inv (str_eq at expected) _ h in
      let (known, h) = guard_inv (git.is_ancestor t.context_revision at) _ h in
      let (u, moved, h) = bind_inv (parse_task t.id (record t { status = status })) _ h in
      let task = require_inv (find_task id current.tasks) _ found in
      let (same_task, same_id) =
        moved_task id status current t u (fetched-ParsedState git c head at current f) task moved in
      published c credential (move_task id status) expected head m revision who current
        (with_task u current) at a f same
        (sets id status t task (either_text who c.owner_id t.owner by) (
          subst (λ v. TaskSet id v current (with_task u current)) same_task
            (with_task-TaskSet id u current same_id)))
        (with_task-ParsedState t.id (record t { status = status }) u current moved
          (fetched-ParsedState git c head at current f))
        h

  adds_inv :
      (c : Coordinator) (credential id owner goal : String) (scopes : List String)
      (expected head : String) (m : Meanwhile) (revision : String)
      → create_task sha256 git c credential id owner goal scopes expected head m ≡ ok revision
      → Published c credential (add_task id owner goal scopes) expected m revision
  unfolding create_task
  adds_inv c credential id owner goal scopes expected head m revision h =
      let (who, a, h) = bind_inv (authenticate sha256 c credential) _ h in
      let (by_owner, h) = guard_inv (str_eq who c.owner_id) _ h in
      let (safe, h) = guard_inv (is_safe_id id) _ h in
      let (safe_owner, h) = guard_inv (is_safe_id owner) _ h in
      let (known, h) = guard_inv (is_key owner c.credential_hashes) _ h in
      let (has_goal, h) = refuse_inv (is_blank goal) _ h in
      let (sha, h) = guard_inv (is_sha_hex expected) _ h in
      let (t, made, h) = bind_inv (parse_task id (new_task id owner goal scopes expected)) _ h in
      let ((at, current), f, h) = bind_inv (fetch_checked git c head) _ h in
      let (same, h) = guard_inv (str_eq at expected) _ h in
      let (fresh, h) = refuse_inv (is_key id current.tasks) _ h in
      let (room, h) = refuse_inv (leb 256 (length current.tasks)) _ h in
      let assigned = new_task-IsAssigned id owner goal scopes expected t made in
      let (small, h) =
        guard_inv (leb (git.canonical_bytes (with_task t current)) max_json_bytes) _ h in
      published c credential (add_task id owner goal scopes) expected head m revision who current
        (with_task t current) at a f same
        (adds id owner goal scopes t (same_text who c.owner_id by_owner) known
          (is_key-none id current.tasks fresh) (ground arith) assigned
          (with_task-TaskSet id t current assigned.of_id))
        (with_task-ParsedState id (new_task id owner goal scopes expected) t current made
          (fetched-ParsedState git c head at current f))
        h

  -- A write that returns a revision was made by an authenticated principal, and made what that
  -- principal may make of the state at the revision it expected, as the coordinator reads it: the owner
  -- replaces the context; the owner or the owner of a task changes the status of that task and nothing
  -- else of it; and the owner adds a queued task with a new id, for a configured member, while there are
  -- fewer than 256. Every other task, the context where it was not asked for, and the names of the
  -- session stay as they were. The revision is the child of the expected one that holds exactly the
  -- result, and the branch of the hub still stood at the expected revision when it was pushed.
  pub write-Published :
      (c : Coordinator) (credential : String) (w : Write) (expected head : String) (m : Meanwhile)
      (revision : String)
      → write c credential w expected head m ≡ ok revision
      → Published c credential w expected m revision
  unfolding write
  write-Published c credential (share_context x) = shares_inv c credential x
  write-Published c credential (move_task id status) = sets_inv c credential id status
  write-Published c credential (add_task id owner goal scopes) =
      adds_inv c credential id owner goal scopes
