-- ===== src/Collab/Replay/Reads.antt =====
-- What `GitStore.replay_states` of collab_runtime/store.py reads of the history of a session.
use imece_ide.Base.{
  ℕ, zero, suc, ◌≡◌, refl, sym, ap, subst, ◌∙◌, inl, inr, String, true, false, ◌&&◌, leb, ltb,
  str_eq, eq_iff, Bool-cases, if◌then◌else◌, List, [], ◌∷◌, ◌++◌, length, take, map, any, all, ok,
  bind_inv, guard_inv, arith,
}
use mathlib.Core.List.{reverse, reverse-cons}
use imece_ide.Collab.Replay.History.{Distinct, last_of, has, since_newest, has-reverse}
use imece_ide.Collab.Scopes.{is_sha_hex}
use imece_ide.Collab.Models.{SessionState, identity_of, same_identity}
use imece_ide.Collab.Hub.{Git, read_state, fetch_state}
use imece_ide.Collab.Coordinator.{Coordinator, checked_state}
use imece_ide.Collab.Replay.{
  StateReplay, ReplayEvent, is_linear, starts_at, since, replay_event, replay_events, replay_window,
  max_replay_page, first_parent_chain, read_states, read_page, replay_states,
}

-- The published revisions of a session whose branch is at a revision, the oldest first, as far back as
-- git lists them.
abbrev pub history : Git → String → List String
history git head = reverse (map (λ r. r.0) (git.rev_list head))

-- The events go from one revision to another, each from where the one before it ended.
pub Linked : String → List ReplayEvent → String → Type 0
Linked at [] end = at ≡ end
Linked at (e ∷ es) end = (e.previous_revision ≡ at) × Linked e.revision es end

pub events_lem :
    (c : Coordinator) (at : String) (old : SessionState) (states : List (String × SessionState))
    (events : List ReplayEvent) (next : String)
    → replay_events c at old states ≡ ok (events, next)
    → (map (λ e. e.revision) events ≡ map (λ s. s.0) states)
      × (next ≡ last_of at (map (λ s. s.0) states))
      × Linked at events next
unfolding replay_events replay_event last_of Linked
events_lem c at old [] events next h =
    let e : [] ≡ events = ground arith in
    let n : at ≡ next = ground arith in
    subst (λ es. (map (λ e. e.revision) es ≡ []) × (next ≡ at) × Linked at es next) e
      (refl, sym n, n)
events_lem c at old ((revision, raw) ∷ rest) events next h =
    let (_, h) = guard_inv (is_sha_hex revision) _ h in
    let (new, _, h) = bind_inv (checked_state c raw) _ h in
    let ((es, last), r, h) = bind_inv (replay_events c revision new rest) _ h in
    let (revisions, ends, linked) = events_lem c revision new rest es last r in
    let e : replay_event at old revision new ∷ es ≡ events = ground arith in
    let n : last ≡ next = ground arith in
    (
      ap (map (λ e. e.revision)) (sym e) ∙ ap (revision ∷◌) revisions,
      sym n ∙ ends,
      subst (λ es. Linked at es next) e (refl, subst (Linked revision es) n linked),
    )

read_states_lem :
    (git : Git) (head : String) (head_state : SessionState) (rs : List String)
    (states : List (String × SessionState))
    → read_states git head head_state rs ≡ ok states
    → map (λ s. s.0) states ≡ rs
unfolding read_states
read_states_lem git head head_state [] states h = ap (map (λ s. s.0)) (sym nothing)
  where
    nothing : [] ≡ states
    nothing = ground arith
read_states_lem git head head_state (r ∷ rs) states h =
    let (state, _, h) = bind_inv (if str_eq r head then ok head_state else read_state git r) _ h in
    let (rest, k, h) = bind_inv (read_states git head head_state rs) _ h in
    let made : (r, state) ∷ rest ≡ states = ground arith in
    ap (map (λ s. s.0)) (sym made) ∙ ap (r ∷◌) (read_states_lem git head head_state rs rest k)

-- The head is the newest revision of its history.
chain_lem :
    (git : Git) (head : String) (chain : List String)
    → first_parent_chain git head ≡ ok chain
    → (chain ≡ map (λ r. r.0) (git.rev_list head))
      × (cs : List String) × (history git head ≡ cs ++ head ∷ [])
unfolding first_parent_chain starts_at
chain_lem git head chain h =
    let (_, h) =
      guard_inv (all (λ r. is_sha_hex r.0 && all is_sha_hex r.1) (git.rev_list head)) _ h in
    let (begins, h) =
      guard_inv
        (starts_at head (git.rev_list head) && leb (length (git.rev_list head)) (suc replay_window))
        _ h in
    let (_, h) = guard_inv (is_linear (git.rev_list head)) _ h in
    let begins : starts_at head (git.rev_list head) ≡ true = ground arith in
    let (cs, e) = newest (git.rev_list head) begins in (sym (ground arith), cs, e)
  where
    newest :
        (rs : List (String × List String))
        → starts_at head rs ≡ true
        → (cs : List String) × (reverse (map (λ r. r.0) rs) ≡ cs ++ head ∷ [])
    newest [] b = absurd (ground arith)
    newest ((c, ps) ∷ rs) b = (
      reverse (map (λ r. r.0) rs),
      reverse-cons c (map (λ r. r.0) rs)
          ∙ ap (λ x. reverse (map (λ r. r.0) rs) ++ x ∷ []) ((eq_iff c head).0 b),
    )

fetch_state_lem :
    (git : Git) (head fetched : String) (s : SessionState)
    → fetch_state git head ≡ ok (fetched, s)
    → head ≡ fetched
unfolding fetch_state
fetch_state_lem git head fetched s h = ground arith

-- What the store answers, against the history.
pub record Replayed (git : Git) (after : String) (limit : ℕ) (head : String) (r : StateReplay)
    : Type 0 where
  pub same_head : r.head_revision ≡ head
  pub revisions : map (λ s. s.0) r.states ≡ take limit (since after (history git head))
  pub more : r.has_more ≡ ltb limit (length (since after (history git head)))
  pub newest_of : (cs : List String) × (history git head ≡ cs ++ head ∷ [])
  pub known : has after (history git head) ≡ true

page_lem :
    (git : Git) (head after : String) (head_state : SessionState) (limit : ℕ) (newer : List String)
    (r : StateReplay)
    → read_page git head head_state after limit newer ≡ ok r
    → (r.head_revision ≡ head)
      × (map (λ s. s.0) r.states ≡ take limit newer)
      × (r.has_more ≡ ltb limit (length newer))
unfolding read_page
page_lem git head after head_state limit newer r h =
    let (previous, _, h) = bind_inv (read_state git after) _ h in
    let (states, k, h) = bind_inv (read_states git head head_state (take limit newer)) _ h in
    let (_, h) =
      guard_inv
        (same_identity (identity_of previous) (identity_of head_state)
          && all (λ s. same_identity (identity_of s.1) (identity_of head_state)) states)
        _ h in
    let same : states ≡ r.states = ground arith in
    (
      ground arith,
      ap (map (λ s. s.0)) (sym same)
          ∙ read_states_lem git head head_state (take limit newer) states k,
      ground arith,
    )

pub replay_states_lem :
    (git : Git) (after : String) (limit : ℕ) (head : String) (r : StateReplay)
    → Distinct (history git head)
    → replay_states git after limit head ≡ ok r
    → Replayed git after limit head r
unfolding replay_states has
replay_states_lem git after limit head r d h =
    let (_, h) = guard_inv (is_sha_hex after) _ h in
    let (_, h) = guard_inv (leb 1 limit && leb limit max_replay_page) _ h in
    let ((fetched, head_state), f, h) = bind_inv (fetch_state git head) _ h in
    let (chain, c, h) = bind_inv (first_parent_chain git fetched) _ h in
    let (here, h) = guard_inv (any (λ c. str_eq c after) chain) _ h in
    let at = sym (fetch_state_lem git head fetched head_state f) in
    let (is_chain, cs, newest_of) = chain_lem git fetched chain c in
    let listed =
      subst (λ l. has after l ≡ true) (ap reverse is_chain) (has-reverse after chain here) in
    subst (λ x. Replayed git after limit x r) at
      (elim (Bool-cases (str_eq after fetched)) [
        | inl e ↦
            let none_newer : since after (history git fetched) ≡ [] =
              ap (λ x. since x (history git fetched)) ((eq_iff after fetched).0 e)
              ∙ ap (since fetched) newest_of
              ∙ since_newest fetched cs
                  (subst Distinct newest_of (subst (λ x. Distinct (history git x)) (sym at) d)) in
            let no_states : r.states ≡ [] = ground (arith, e, h) in
            let no_more : r.has_more ≡ false = ground (arith, e, h) in
            record {
              same_head = ground (arith, e, h);
              revisions =
                  ap (map (λ s. s.0)) no_states ∙ sym (ap (take limit) none_newer ∙ nothing limit);
              more = no_more ∙ sym (ap (λ l. ltb limit (length l)) none_newer ∙ ground arith);
              newest_of = (cs, newest_of);
              known = listed;
            }
        | inr e ↦
            let (same_head, revisions, more) =
              page_lem git fetched after head_state limit (since after (reverse chain)) r
                (ground (arith, e, h)) in
            let same = ap (λ l. since after (reverse l)) is_chain in
            record {
              same_head = same_head;
              revisions = revisions ∙ ap (take limit) same;
              more = more ∙ ap (λ l. ltb limit (length l)) same;
              newest_of = (cs, newest_of);
              known = listed;
            }
      ])
  where
    nothing : (n : ℕ) → take {A = String} n [] ≡ []
    nothing zero = refl
    nothing (suc n) = refl
