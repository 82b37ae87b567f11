-- ===== src/Collab/Coordinator.antt =====
-- `Coordinator` of collab_runtime/coordinator.py: authenticated operations on the session of a hub.
-- Git and SHA-256 are parameters. Each write fetches the state where the branch of the hub is `head`,
-- and `publish` fetches it again.
pub mod Effects
pub mod Changes
pub mod Members
use imece_ide.Base.{
  ℕ, String, Bool, true, false, not, ◌&&◌, ◌||◌, ◌==◌, leb, ltb, str_eq, if◌then◌else◌, in_range,
  codes, is_blank, text_length, Option, none, some, List, [], ◌∷◌, length, any, all, Result, ok,
  err, ◌>>=◌, ◌>>◌, guard, refuse, require, collab_validation, access_denied, stale_revision,
  task_exists, task_capacity,
}
use imece_ide.Collab.Scopes.{is_safe_id, is_sha_hex}
use imece_ide.Collab.Models.{
  SharedContext, TaskStatus, queued, Task, SessionState, Identity, identity_of, same_identity,
  find_task, with_context, with_task, parse_context, parse_task, parse_state,
}
use imece_ide.Collab.Hub.{Git, Meanwhile, fetch_state, publish, max_json_bytes}

pub record Coordinator : Type 0 where
  pub owner_id : String
  pub credential_hashes : List (String × String)
  pub identity : Identity

pub record Snapshot : Type 0 where
  pub revision : String
  pub state : SessionState

-- _CREDENTIAL_RE, and the bounds on the length
unfoldable pub is_credential : String → Bool
is_credential s =
    leb 32 (text_length s)
    && leb (text_length s) 256
    && all
        (λ c.
          in_range b'A' b'Z' c
          || in_range b'a' b'z' c
          || in_range b'0' b'9' c
          || c == b'_'
          || c == b'-')
        (codes s)

-- The principal with a hash: the last one, of those that have it.
unfoldable pub principal_of : String → List (String × String) → Option String
principal_of digest [] = none
principal_of digest ((member, stored) ∷ rest) = elim (principal_of digest rest) [
  | some principal ↦ some principal
  | none ↦ if str_eq digest stored then some member else none
]

-- key in mapping
abbrev pub is_key {ℓ} : {A : Type ℓ} → String → List (String × A) → Bool
is_key k entries = any (λ e. str_eq e.0 k) entries

-- The names of the interfaces are distinct.
unfoldable pub distinct_names : List (String × String) → Bool
distinct_names [] = true
distinct_names ((k, v) ∷ rest) = not (any (λ x. str_eq x.0 k) rest) && distinct_names rest

-- _validated_context
unfoldable pub validated_context : SharedContext → Result SharedContext
validated_context c = do guard (distinct_names c.interfaces) collab_validation; parse_context c

-- A newly assigned task.
abbrev pub new_task : (id owner goal : String) → List String → String → Task
new_task id owner goal scopes revision = record {
  id = id;
  owner = owner;
  goal = goal;
  scopes = scopes;
  status = queued;
  context_revision = revision;
}

-- _checked_state
unfoldable pub checked_state : Coordinator → SessionState → Result SessionState
checked_state c raw = do
  state ← parse_state raw
  guard (same_identity (identity_of state) c.identity) collab_validation
  ok state

module _ (git : Git) where
  -- _fetch_state
  unfoldable pub fetch_checked : Coordinator → String → Result (String × SessionState)
  fetch_checked c head = do
    (revision, raw) ← fetch_state git head
    guard (is_sha_hex revision) collab_validation
    state ← checked_state c raw
    ok (revision, state)

  -- update_task_status, of a task that was found
  unfoldable pub set_status :
      (c : Coordinator) (principal revision : String)
      → Task
      → TaskStatus
      → String
      → SessionState
      → Meanwhile
      → Result String
  set_status c principal revision task status expected current m = do
    guard (str_eq principal c.owner_id || str_eq principal task.owner) access_denied
    guard (str_eq revision expected) stale_revision
    guard (git.is_ancestor task.context_revision revision) collab_validation
    updated ← parse_task task.id (record task { status = status })
    publish git (with_task updated current) expected m

module _ (sha256 : String → String) where
  -- _credential_hash
  unfoldable pub credential_hash : String → Option String
  credential_hash s = if is_credential s then some (sha256 s) else none

  -- The loop of __init__ over the credentials; `seen` are the hashes before.
  unfoldable pub hash_members :
      List String → List (String × String) → Result (List (String × String))
  hash_members seen [] = ok []
  hash_members seen ((member, credential) ∷ rest) = do
    guard (is_safe_id member) collab_validation
    digest ← require (credential_hash credential) collab_validation
    refuse (any (λ d. str_eq d digest) seen) collab_validation
    hashes ← hash_members (digest ∷ seen) rest
    ok ((member, digest) ∷ hashes)

  -- _authenticate
  unfoldable pub authenticate : Coordinator → String → Result String
  authenticate c credential = do
    digest ← require (credential_hash credential) access_denied
    require (principal_of digest c.credential_hashes) access_denied

  module _ (git : Git) where
    -- __init__
    unfoldable pub connect :
        (session_id owner_id : String) (members : List (String × String)) (head : String)
        → Result Coordinator
    connect session_id owner_id members head = do
      guard (is_safe_id session_id) collab_validation
      guard (is_safe_id owner_id) collab_validation
      guard (leb 1 (length members) && leb (length members) 256) collab_validation
      hashes ← hash_members [] members
      guard (is_key owner_id hashes) collab_validation
      (revision, raw) ← fetch_state git head
      guard (is_sha_hex revision) collab_validation
      state ← parse_state raw
      guard (str_eq state.session_id session_id) collab_validation
      ok (record { owner_id = owner_id; credential_hashes = hashes; identity = identity_of state })

    unfoldable pub snapshot : Coordinator → String → String → Result Snapshot
    snapshot c credential head = do
      principal ← authenticate c credential
      (revision, state) ← fetch_checked git c head
      ok (record { revision = revision; state = state })

    unfoldable pub update_context :
        Coordinator → String → SharedContext → String → String → Meanwhile → Result String
    update_context c credential context expected head m = do
      principal ← authenticate c credential
      guard (str_eq principal c.owner_id) access_denied
      guard (is_sha_hex expected) collab_validation
      validated ← validated_context context
      (revision, current) ← fetch_checked git c head
      guard (str_eq revision expected) stale_revision
      publish git (with_context validated current) expected m

    unfoldable pub update_task_status :
        Coordinator → String → String → TaskStatus → String → String → Meanwhile → Result String
    update_task_status c credential id status expected head m = do
      principal ← authenticate c credential
      guard (is_safe_id id) collab_validation
      guard (is_sha_hex expected) collab_validation
      (revision, current) ← fetch_checked git c head
      task ← require (find_task id current.tasks) collab_validation
      set_status git c principal revision task status expected current m

    unfoldable pub create_task :
        Coordinator
        → (credential id owner goal : String) → List String
        → String
        → String
        → Meanwhile
        → Result String
    create_task c credential id owner goal scopes expected head m = do
      principal ← authenticate c credential
      guard (str_eq principal c.owner_id) access_denied
      guard (is_safe_id id) collab_validation
      guard (is_safe_id owner) collab_validation
      guard (is_key owner c.credential_hashes) collab_validation
      refuse (is_blank goal) collab_validation
      guard (is_sha_hex expected) collab_validation
      task ← parse_task id (new_task id owner goal scopes expected)
      (revision, current) ← fetch_checked git c head
      guard (str_eq revision expected) stale_revision
      refuse (is_key id current.tasks) task_exists
      refuse (leb 256 (length current.tasks)) task_capacity
      guard (leb (git.canonical_bytes (with_task task current)) max_json_bytes) task_capacity
      publish git (with_task task current) expected m
