-- ===== src/Collab/Models.antt =====
-- The session state of collab_runtime/models.py, and its validation. A state here has the types that
-- the parser checks; `canonical_bytes` is the length of its canonical JSON.
pub mod Order
pub mod Stable
pub mod States
use imece_ide.Base.{
  ℕ, String, Bool, true, false, not, ◌&&◌, leb, str_eq, if◌then◌else◌, Option, none, some, List, [],
  ◌∷◌, length, any, Result, ok, ◌>>=◌, ◌>>◌, guard, collab_validation,
}
use imece_ide.Collab.Scopes.{is_plain_text, is_safe_id, is_sha_hex, scope_path}
use Prim.Native.String.{compare}
use Prim.Native.Nat.{Ordering}

pub record SharedContext : Type 0 where
  pub goal : String
  pub decisions : List String
  pub interfaces : List (String × String)

pub data TaskStatus : Type 0 where
  queued running waiting done : TaskStatus

pub record Task : Type 0 where
  pub id : String
  pub owner : String
  pub goal : String
  pub scopes : List String
  pub status : TaskStatus
  pub context_revision : String

pub record SessionState : Type 0 where
  pub session_id : String
  pub target_version : String
  pub base_commit : String
  pub context : SharedContext
  pub tasks : List (String × Task)

-- tasks.get(task_id)
unfoldable pub find_task : String → List (String × Task) → Option Task
find_task k [] = none
find_task k ((j, t) ∷ ts) = if str_eq j k then some t else find_task k ts

-- tasks[task.id] = task
unfoldable pub put_task : Task → List (String × Task) → List (String × Task)
put_task t [] = (t.id, t) ∷ []
put_task t ((j, u) ∷ ts) = if str_eq j t.id then (j, t) ∷ ts else (j, u) ∷ put_task t ts

-- with_context
unfoldable pub with_context : SharedContext → SessionState → SessionState
with_context c s = record s { context = c }

-- with_task
unfoldable pub with_task : Task → SessionState → SessionState
with_task t s = record s { tasks = put_task t s.tasks }

-- Every text of a list is plain, and short enough.
unfoldable pub all_plain : ℕ → List String → Bool
all_plain limit [] = true
all_plain limit (x ∷ xs) = is_plain_text limit x && all_plain limit xs

unfoldable pub valid_interfaces : List (String × String) → Bool
valid_interfaces [] = true
valid_interfaces ((k, v) ∷ r) = is_safe_id k && is_plain_text 4000 v && valid_interfaces r

unfoldable pub precedes : String → String → Bool
precedes a b = elim (compare a b) [ Ordering.gt ↦ false | _ ↦ true ]

unfoldable pub insert_interface : String × String → List (String × String) → List (String × String)
unfolding precedes
insert_interface x [] = x ∷ []
insert_interface x (y ∷ ys) = if precedes x.0 y.0 then x ∷ y ∷ ys else y ∷ insert_interface x ys

-- sorted(…), whose keys are distinct
unfoldable pub sort_interfaces : List (String × String) → List (String × String)
unfolding insert_interface
sort_interfaces [] = []
sort_interfaces (x ∷ xs) = insert_interface x (sort_interfaces xs)

-- _parse_context
unfoldable pub parse_context : SharedContext → Result SharedContext
unfolding valid_interfaces
parse_context c = do
  guard (is_plain_text 4000 c.goal) collab_validation
  guard (leb (length c.decisions) 64) collab_validation
  guard (all_plain 2000 c.decisions) collab_validation
  guard (leb (length c.interfaces) 64) collab_validation
  guard (valid_interfaces c.interfaces) collab_validation
  ok (record c { interfaces = sort_interfaces c.interfaces })

-- The scopes, normalised, each once; `seen` are those before, the last one first.
unfoldable pub parse_scopes : List String → List String → Result (List String)
parse_scopes seen [] = ok []
parse_scopes seen (x ∷ xs) = do
  scope ← scope_path x
  rest ← parse_scopes (scope ∷ seen) xs
  ok (if any (λ y. str_eq y scope) seen then rest else scope ∷ rest)

-- _parse_task, by its id
unfoldable pub parse_task : String → Task → Result Task
parse_task id t = do
  guard (is_safe_id t.owner) collab_validation
  guard (is_plain_text 4000 t.goal) collab_validation
  guard (leb (length t.scopes) 32) collab_validation
  scopes ← parse_scopes [] t.scopes
  guard (is_safe_id id) collab_validation
  guard (is_sha_hex t.context_revision) collab_validation
  ok (record t { id = id; scopes = scopes })

unfoldable pub parse_tasks : List (String × Task) → Result (List (String × Task))
parse_tasks [] = ok []
parse_tasks ((k, t) ∷ ts) = do
  guard (is_safe_id k) collab_validation
  task ← parse_task k t
  rest ← parse_tasks ts
  ok ((k, task) ∷ rest)

-- parse_state_dict(state.to_dict())
unfoldable pub parse_state : SessionState → Result SessionState
parse_state s = do
  guard (is_safe_id s.session_id) collab_validation
  guard (is_plain_text 200 s.target_version) collab_validation
  guard (is_sha_hex s.base_commit) collab_validation
  context ← parse_context s.context
  guard (leb (length s.tasks) 256) collab_validation
  tasks ← parse_tasks s.tasks
  ok (record s { context = context; tasks = tasks })

-- (session_id, base_commit, target_version)
pub record Identity : Type 0 where
  pub session_id : String
  pub base_commit : String
  pub target_version : String

abbrev pub identity_of : SessionState → Identity
identity_of s = record {
  session_id = s.session_id;
  base_commit = s.base_commit;
  target_version = s.target_version;
}

abbrev pub same_identity : Identity → Identity → Bool
same_identity a b =
    str_eq a.session_id b.session_id
    && str_eq a.base_commit b.base_commit
    && str_eq a.target_version b.target_version
