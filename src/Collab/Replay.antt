-- ===== src/Collab/Replay.antt =====
-- The replay of published states: `GitStore.replay_states` of collab_runtime/store.py, and
-- `Coordinator.replay` of collab_runtime/coordinator.py.
pub mod History
pub mod Reads
pub mod Pages
pub mod Same
pub mod Diffs
use imece_ide.Base.{
  ℕ, zero, suc, String, Bool, true, false, not, ◌&&◌, leb, ltb, str_eq, if◌then◌else◌, Option, none,
  some, List, [], ◌∷◌, ◌++◌, length, take, map, any, all, Result, ok, err, ◌>>=◌, ◌>>◌, guard,
  collab_validation, git_operation, replay_unavailable,
}
use mathlib.Core.List.{reverse}
use imece_ide.Collab.Scopes.{is_sha_hex}
use imece_ide.Collab.Models.{
  SharedContext, TaskStatus, queued, running, waiting, done, Task, SessionState, identity_of,
  same_identity, find_task, precedes,
}
use imece_ide.Collab.Hub.{Git, read_state, fetch_state}
use imece_ide.Collab.Coordinator.{Coordinator, authenticate, checked_state, is_key}

pub record StateReplay : Type 0 where
  pub head_revision : String
  pub after_revision : String
  pub previous_state : SessionState
  pub states : List (String × SessionState)
  pub has_more : Bool

pub record ReplayEvent : Type 0 where
  pub previous_revision : String
  pub revision : String
  pub context_changed : Bool
  pub changed_task_ids : List String

pub record ReplayPage : Type 0 where
  pub head_revision : String
  pub next_revision : String
  pub events : List ReplayEvent
  pub has_more : Bool

-- Each revision has one parent, which is the next one, and the last has one at most.
unfoldable pub is_linear : List (String × List String) → Bool
is_linear [] = true
is_linear ((c, ps) ∷ []) = leb (length ps) 1
is_linear ((c, ps) ∷ (d, qs) ∷ rest) = is_only d ps && is_linear ((d, qs) ∷ rest)
  where
    is_only : String → List String → Bool
    is_only d (p ∷ []) = str_eq p d
    is_only d ps = false

unfoldable pub starts_at : String → List (String × List String) → Bool
starts_at head [] = false
starts_at head ((c, ps) ∷ rest) = str_eq c head

-- The revisions after the first occurrence of one: chronological[index + 1:]
unfoldable pub since : String → List String → List String
since cursor [] = []
since cursor (c ∷ cs) = if str_eq c cursor then cs else since cursor cs

unfoldable pub same_texts : List String → List String → Bool
same_texts [] [] = true
same_texts (x ∷ xs) (y ∷ ys) = str_eq x y && same_texts xs ys
same_texts _ _ = false

unfoldable pub same_pairs : List (String × String) → List (String × String) → Bool
same_pairs [] [] = true
same_pairs (x ∷ xs) (y ∷ ys) = str_eq x.0 y.0 && str_eq x.1 y.1 && same_pairs xs ys
same_pairs _ _ = false

unfoldable pub same_status : TaskStatus → TaskStatus → Bool
same_status queued queued = true
same_status running running = true
same_status waiting waiting = true
same_status done done = true
same_status _ _ = false

-- == of the dataclasses
unfoldable pub same_context : SharedContext → SharedContext → Bool
same_context x y =
    str_eq x.goal y.goal
    && same_texts x.decisions y.decisions
    && same_pairs x.interfaces y.interfaces

unfoldable pub same_task : Task → Task → Bool
same_task t u =
    str_eq t.id u.id
    && str_eq t.owner u.owner
    && str_eq t.goal u.goal
    && same_texts t.scopes u.scopes
    && same_status t.status u.status
    && str_eq t.context_revision u.context_revision

unfoldable pub same_entry : Option Task → Option Task → Bool
same_entry none none = true
same_entry (some t) (some u) = same_task t u
same_entry _ _ = false

unfoldable pub insert_text : String → List String → List String
insert_text x [] = x ∷ []
insert_text x (y ∷ ys) = if precedes x y then x ∷ y ∷ ys else y ∷ insert_text x ys

-- The ids that hold a test, sorted.
unfoldable pub sorted_ids : (String → Bool) → List String → List String
unfolding insert_text
sorted_ids p [] = []
sorted_ids p (x ∷ xs) = let rest = sorted_ids p xs in if p x then insert_text x rest else rest

-- previous.tasks.keys() | state.tasks.keys()
unfoldable pub all_ids : List (String × Task) → List (String × Task) → List String
all_ids old [] = map (λ e. e.0) old
all_ids old ((k, t) ∷ ts) = let rest = all_ids old ts in if is_key k old then rest else k ∷ rest

unfoldable pub changed_ids : List (String × Task) → List (String × Task) → List String
changed_ids old new =
    sorted_ids (λ id. not (same_entry (find_task id old) (find_task id new))) (all_ids old new)

unfoldable pub replay_event : String → SessionState → String → SessionState → ReplayEvent
replay_event before old revision new = record {
  previous_revision = before;
  revision = revision;
  context_changed = not (same_context old.context new.context);
  changed_task_ids = changed_ids old.tasks new.tasks;
}

-- The loop of Coordinator.replay: the events, and the last revision.
unfoldable pub replay_events :
    Coordinator
    → String
    → SessionState
    → List (String × SessionState)
    → Result (List ReplayEvent × String)
replay_events c before old [] = ok ([], before)
replay_events c before old ((revision, raw) ∷ rest) = do
  guard (is_sha_hex revision) collab_validation
  new ← checked_state c raw
  (events, last) ← replay_events c revision new rest
  ok (replay_event before old revision new ∷ events, last)

abbrev pub replay_window : ℕ
replay_window = 64

abbrev pub max_replay_page : ℕ
max_replay_page = 32

module _ (git : Git) where
  -- _first_parent_chain: the revisions, the newest first
  unfoldable pub first_parent_chain : String → Result (List String)
  first_parent_chain head = do
    guard (all (λ r. is_sha_hex r.0 && all is_sha_hex r.1) (git.rev_list head)) git_operation
    guard
        (starts_at head (git.rev_list head) && leb (length (git.rev_list head)) (suc replay_window))
        git_operation
    guard (is_linear (git.rev_list head)) git_operation
    ok (map (λ r. r.0) (git.rev_list head))

  unfoldable pub read_states :
      String → SessionState → List String → Result (List (String × SessionState))
  read_states head head_state [] = ok []
  read_states head head_state (r ∷ rs) = do
    state ← if str_eq r head then ok head_state else read_state git r
    rest ← read_states head head_state rs
    ok ((r, state) ∷ rest)

  -- replay_states, of a cursor that is not the head
  unfoldable pub read_page : String → SessionState → String → ℕ → List String → Result StateReplay
  read_page head head_state after limit newer = do
    previous ← read_state git after
    states ← read_states head head_state (take limit newer)
    guard
        (same_identity (identity_of previous) (identity_of head_state)
          && all (λ s. same_identity (identity_of s.1) (identity_of head_state)) states)
        collab_validation
    ok (record {
      head_revision = head;
      after_revision = after;
      previous_state = previous;
      states = states;
      has_more = ltb limit (length newer);
    })

  unfoldable pub replay_states : String → ℕ → String → Result StateReplay
  replay_states after limit head = do
    guard (is_sha_hex after) collab_validation
    guard (leb 1 limit && leb limit max_replay_page) collab_validation
    (fetched, head_state) ← fetch_state git head
    chain ← first_parent_chain fetched
    guard (any (λ c. str_eq c after) chain) replay_unavailable
    if str_eq after fetched
        then ok (record {
          head_revision = fetched;
          after_revision = after;
          previous_state = head_state;
          states = [];
          has_more = false;
        })
        else read_page fetched head_state after limit (since after (reverse chain))

module _ (sha256 : String → String) (git : Git) where
  -- Coordinator.replay
  unfoldable pub replay : Coordinator → String → String → ℕ → String → Result ReplayPage
  replay c credential after limit head = do
    principal ← authenticate sha256 c credential
    guard (is_sha_hex after) collab_validation
    guard (leb 1 limit && leb limit max_replay_page) collab_validation
    page ← replay_states git after limit head
    guard (is_sha_hex page.head_revision) collab_validation
    previous ← checked_state c page.previous_state
    (events, next) ← replay_events c after previous page.states
    ok (record {
      head_revision = page.head_revision;
      next_revision = next;
      events = events;
      has_more = page.has_more;
    })
