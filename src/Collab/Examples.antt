-- ===== src/Collab/Examples.antt =====
-- A session of two members on a small hub.
use imece_ide.Collab.Coordinator.{
  create_task, Coordinator, connect, authenticate, credential_hash, hash_members, is_credential,
  principal_of, update_task_status, set_status, fetch_checked, checked_state,
}
use imece_ide.Collab.Scopes.{
  join_slash, is_git, split_slash, keep_parts, slashes, bad_chars, scope_path, is_drive, is_safe_id,
  is_plain_text, is_sha_hex, push_char, starts_with_slash, ends_with_slash, is_empty,
}
use imece_ide.Base.{
  append_text, has_nul, ◌≡◌, ◌≢◌, ◌↔◌, refl, String, true, false, str_eq, if◌then◌else◌, List, [],
  ◌∷◌, any, ok, err, collab_validation, access_denied,
}
use mathlib.Core.List.{Memᴰ}
use imece_ide.Collab.Scopes.Stable.{scope_path-stable}
use imece_ide.Collab.Models.{
  queued, done, Task, SessionState, parse_state, parse_context, parse_tasks, all_plain,
  sort_interfaces, parse_task, parse_scopes, find_task, put_task, with_task, valid_interfaces,
}
use imece_ide.Collab.Models.States.{parse_state-stable}
use imece_ide.Collab.Hub.{Git, Meanwhile, read_state, fetch_state, publish}
use imece_ide.Collab.Coordinator.Changes.{add_task, move_task, write, Published, write-Published}
use imece_ide.Collab.Coordinator.Members.{connect-authenticate}
use imece_ide.Collab.Replay.{
  ReplayPage, replay_event, replay, is_linear, starts_at, since, same_texts, same_pairs,
  same_status, same_context, same_task, same_entry, insert_text, sorted_ids, all_ids, changed_ids,
  replay_events, first_parent_chain, read_states, read_page, replay_states,
}
use imece_ide.Collab.Replay.History.{Distinct}
use imece_ide.Collab.Replay.Reads.{history}
use imece_ide.Collab.Replay.Pages.{Page, replay-Page}
use imece_ide.Collab.Replay.Diffs.{replay_event-changes}

abbrev first : String
first = "1111111111111111111111111111111111111111"

abbrev second : String
second = "2222222222222222222222222222222222222222"

abbrev third : String
third = "3333333333333333333333333333333333333333"

abbrev owner_credential : String
owner_credential = "owner-credential-owner-credential"

abbrev member_credential : String
member_credential = "member-credential-member-credential"

abbrev members : List (String × String)
members = ("ana", owner_credential) ∷ ("bo", member_credential) ∷ []

abbrev empty_session : SessionState
empty_session = record {
  session_id = "s1";
  target_version = "1.0";
  base_commit = first;
  context = record { goal = "ship"; decisions = []; interfaces = [] };
  tasks = [];
}

abbrev parser_task : Task
parser_task = record {
  id = "t1";
  owner = "bo";
  goal = "write the parser";
  scopes = "src/parser/" ∷ [];
  status = queued;
  context_revision = first;
}

abbrev session : SessionState
session = record empty_session { tasks = ("t1", parser_task) ∷ [] }

abbrev hub : Git
hub = record {
  state_at = λ r. if str_eq r first then empty_session else session;
  is_ancestor = λ r h. true;
  commit = λ s r. third;
  canonical_bytes = λ s. 400;
  rev_list = λ r. (second, first ∷ []) ∷ (first, []) ∷ [];
}

abbrev sha256 : String → String
sha256 s = s

abbrev coordinator : Coordinator
coordinator = record {
  owner_id = "ana";
  credential_hashes = members;
  identity = record { session_id = "s1"; base_commit = first; target_version = "1.0" };
}

connected : connect sha256 hub "s1" "ana" members first ≡ ok coordinator
unfolding connect hash_members credential_hash is_credential fetch_state read_state parse_state
    parse_context parse_tasks is_safe_id is_plain_text is_sha_hex all_plain sort_interfaces
connected = refl

connect-authenticate_example :
    ((member credential : String)
      → Memᴰ (member, credential) members
      → authenticate sha256 coordinator credential ≡ ok member)
    × ((credential who : String)
        → authenticate sha256 coordinator credential ≡ ok who
        → (own : String) × Memᴰ (who, own) members
          × (credential_hash sha256 credential ≡ credential_hash sha256 own))
connect-authenticate_example =
    connect-authenticate sha256 hub "s1" "ana" members first coordinator connected

abbrev quiet : Meanwhile
quiet = record { fetched = second; pushed = second; mirror_moved = false }

accepted : scope_path ".\\src//parser/" ≡ ok "src/parser/"
unfolding scope_path has_nul bad_chars slashes keep_parts split_slash is_git append_text join_slash
accepted = refl

scope_path-stable_example : scope_path "src/parser/" ≡ ok "src/parser/"
unfolding is_drive
scope_path-stable_example = scope_path-stable ".\\src//parser/" "src/parser/" accepted

-- A drive is refused, but not behind "./".
drives : (scope_path "C:/x" ≡ err collab_validation) × (scope_path "./C:/x" ≡ ok "C:/x")
unfolding scope_path has_nul bad_chars slashes keep_parts split_slash is_git join_slash append_text
drives = (refl, refl)

-- Interfaces come sorted, and scopes normalised.
abbrev untidy : SessionState
untidy = record session {
  context = record { goal = "ship"; decisions = []; interfaces = ("b", "2") ∷ ("a", "1") ∷ [] };
  tasks = ("t1", record parser_task { scopes = ".\\src//parser/" ∷ [] }) ∷ [];
}

abbrev tidy : SessionState
tidy = record session {
  context = record { goal = "ship"; decisions = []; interfaces = ("a", "1") ∷ ("b", "2") ∷ [] };
}

tidied : parse_state untidy ≡ ok tidy
unfolding parse_state is_safe_id is_plain_text is_sha_hex parse_context all_plain parse_tasks
    parse_task parse_scopes scope_path has_nul slashes keep_parts split_slash is_git sort_interfaces
    append_text join_slash
tidied = refl

tidied_again : parse_state tidy ≡ ok tidy
unfolding parse_state is_safe_id is_plain_text is_sha_hex parse_context all_plain parse_tasks
    parse_task parse_scopes scope_path has_nul slashes keep_parts split_slash is_git sort_interfaces
    append_text join_slash
tidied_again = refl

parse_state-stable_example : tidy ≡ tidy
parse_state-stable_example = parse_state-stable untidy tidy tidy tidied tidied_again

-- The member moves the own task.
moved :
    write sha256 hub coordinator member_credential (move_task "t1" done) second second quiet
    ≡ ok third
unfolding has_nul append_text bad_chars is_plain_text is_safe_id is_sha_hex slashes push_char
    split_slash join_slash keep_parts starts_with_slash ends_with_slash is_drive is_git is_empty
    scope_path find_task put_task with_task all_plain valid_interfaces sort_interfaces parse_context
    parse_scopes parse_task parse_tasks parse_state read_state fetch_state publish authenticate
    credential_hash is_credential principal_of checked_state fetch_checked write update_task_status
    set_status
moved = refl

write-Published_example :
    Published sha256 hub coordinator member_credential (move_task "t1" done) second quiet third
write-Published_example =
    write-Published sha256 hub coordinator member_credential (move_task "t1" done) second second
      quiet third moved

-- It may not add one.
refused :
    write sha256 hub coordinator member_credential
      (add_task "t2" "bo" "more" [])
      second
      second
      quiet
    ≡ err access_denied
unfolding write create_task authenticate credential_hash is_credential principal_of
refused = refl

abbrev page : ReplayPage
page = record {
  head_revision = second;
  next_revision = second;
  events =
      record {
        previous_revision = first;
        revision = second;
        context_changed = false;
        changed_task_ids = "t1" ∷ [];
      }
      ∷ [];
  has_more = false;
}

replayed : replay sha256 hub coordinator owner_credential first 32 second ≡ ok page
unfolding has_nul append_text bad_chars is_plain_text is_safe_id is_sha_hex slashes push_char
    split_slash join_slash keep_parts starts_with_slash ends_with_slash is_drive is_git is_empty
    scope_path find_task all_plain valid_interfaces sort_interfaces parse_context parse_scopes
    parse_task parse_tasks parse_state read_state fetch_state authenticate credential_hash
    is_credential principal_of checked_state fetch_checked is_linear starts_at since same_texts
    same_pairs same_status same_context same_task same_entry insert_text sorted_ids all_ids
    changed_ids replay_event replay_events first_parent_chain read_states read_page replay_states
    replay
replayed = refl

once : Distinct (history hub second)
unfolding Distinct
once = (refl, (refl, tt))

replay-Page_example : Page hub first 32 second page
replay-Page_example =
    replay-Page sha256 hub coordinator owner_credential first 32 second page once replayed

replay_event-changes_example :
    ((any (λ x. str_eq x "t1") (replay_event first empty_session second session).changed_task_ids
        ≡ true)
      ↔ (find_task "t1" empty_session.tasks ≢ find_task "t1" session.tasks))
    × (((replay_event first empty_session second session).context_changed ≡ true)
        ↔ (empty_session.context ≢ session.context))
replay_event-changes_example = replay_event-changes first second empty_session session "t1"
