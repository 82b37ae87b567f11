-- ===== src/Collab/Hub.antt =====
-- `GitStore.publish` and `fetch_state` of collab_runtime/store.py: the revisions of a session on a hub.
-- Git is a parameter: a revision determines its state for good, and a push is accepted only where the
-- branch of the hub still stands at the parent of what is pushed.
use imece_ide.Base.{
  ℕ, String, Bool, leb, str_eq, Result, ok, ◌>>=◌, ◌>>◌, guard, refuse, collab_validation,
  stale_revision, List,
}
use imece_ide.Collab.Scopes.{is_sha_hex}
use imece_ide.Collab.Models.{SessionState, parse_state, identity_of, same_identity}

-- What git and the canonical JSON are to the store.
pub record Git : Type 0 where
  -- the state in the tree of a revision
  pub state_at : String → SessionState
  -- merge-base --is-ancestor
  pub is_ancestor : String → String → Bool
  -- the revision that commit-tree makes of a state and its parent
  pub commit : SessionState → String → String
  pub canonical_bytes : SessionState → ℕ
  -- rev-list --first-parent --parents, of the newest 65 revisions: each with its parents
  pub rev_list : String → List (String × List String)

-- What others did while a publication was under way: the branch of the hub when it was fetched and
-- when it was pushed to, and whether the local mirror had moved.
pub record Meanwhile : Type 0 where
  pub fetched : String
  pub pushed : String
  pub mirror_moved : Bool

abbrev pub max_json_bytes : ℕ
max_json_bytes = 65536

module _ (git : Git) where
  -- _read_state
  unfoldable pub read_state : String → Result SessionState
  read_state revision = do
    guard (leb (git.canonical_bytes (git.state_at revision)) max_json_bytes) collab_validation
    parse_state (git.state_at revision)

  -- fetch_state, where the branch of the hub stands at a revision
  unfoldable pub fetch_state : String → Result (String × SessionState)
  fetch_state head = do state ← read_state head; ok (head, state)

  -- publish: the new revision, which then is the branch of the hub
  unfoldable pub publish : SessionState → String → Meanwhile → Result String
  publish state expected m = do
    guard (is_sha_hex expected) collab_validation
    (head, current) ← fetch_state m.fetched
    guard (same_identity (identity_of state) (identity_of current)) collab_validation
    guard (str_eq head expected) stale_revision
    validated ← parse_state state
    guard (leb (git.canonical_bytes validated) max_json_bytes) collab_validation
    refuse m.mirror_moved stale_revision
    guard (str_eq m.pushed head) stale_revision
    ok (git.commit validated head)
