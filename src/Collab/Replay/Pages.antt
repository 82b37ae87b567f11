-- ===== src/Collab/Replay/Pages.antt =====
-- The pages of `Coordinator.replay` of collab_runtime/coordinator.py against the history of a session.
use imece_ide.Base.{
  drop_all, ltb→ge, ℕ, ◌≡◌, refl, sym, ap, subst, ◌∙◌, String, true, false, ◌&&◌, leb, ltb, [],
  length, take, drop, map, ok, bind_inv, guard_inv, arith,
}
use imece_ide.Collab.Replay.History.{Distinct, last_of, has, since-take, has-last, newest_lem}
use imece_ide.Collab.Scopes.{is_sha_hex}
use imece_ide.Collab.Hub.{Git}
use imece_ide.Collab.Coordinator.{Coordinator, authenticate, checked_state}
use imece_ide.Collab.Replay.{
  StateReplay, ReplayPage, since, replay_events, max_replay_page, replay_states, replay,
}
use imece_ide.Collab.Replay.Reads.{history, Linked, events_lem, replay_states_lem, Replayed}

-- What a page of a replay says of the history of the session.
pub record Page (git : Git) (after : String) (limit : ℕ) (head : String) (page : ReplayPage)
    : Type 0 where
  revisions : map (λ e. e.revision) page.events ≡ take limit (since after (history git head))
  linked : Linked after page.events page.next_revision
  remaining :
      since page.next_revision (history git head) ≡ drop limit (since after (history git head))
  more : page.has_more ≡ ltb limit (length (since after (history git head)))
  finished : page.has_more ≡ false → page.next_revision ≡ head

finished_lem :
    (git : Git) (after next : String) (limit : ℕ) (head : String) (r : StateReplay)
    → Distinct (history git head)
    → Replayed git after limit head r
    → next ≡ last_of after (take limit (since after (history git head)))
    → since next (history git head) ≡ drop limit (since after (history git head))
    → r.has_more ≡ false
    → next ≡ head
unfolding has
finished_lem git after next limit head r d a last remaining over =
    let newer = since after (history git head) in
    let (cs, shape) = a.newest_of in
    let none_left : since next (history git head) ≡ [] =
      remaining ∙ drop_all limit newer (ltb→ge limit (length newer) (sym a.more ∙ over)) in
    let here : has next (history git head) ≡ true =
      subst (λ x. has x (history git head) ≡ true) (sym last)
        (has-last limit after (history git head) newer d a.known refl) in
    newest_lem next head cs (subst (λ l. has next l ≡ true) shape here)
      (ap (since next) (sym shape) ∙ none_left)

-- Where no revision is twice in the history that git lists, an accepted replay gives the transitions
-- to the revisions after the cursor, as many as the limit and in order, each from the one before it.
-- The next revision is a cursor after which exactly the remaining ones follow, so pages neither skip
-- nor repeat a transition; more follow exactly if they exceed the limit, and otherwise it is the head.
pub replay-Page :
    (sha256 : String → String) (git : Git) (c : Coordinator) (credential after : String) (limit : ℕ)
    (head : String) (page : ReplayPage)
    → Distinct (history git head)
    → replay sha256 git c credential after limit head ≡ ok page
    → Page git after limit head page
unfolding replay
replay-Page sha256 git c credential after limit head page d h =
    let (_, _, h) = bind_inv (authenticate sha256 c credential) _ h in
    let (_, h) = guard_inv (is_sha_hex after) _ h in
    let (_, h) = guard_inv (leb 1 limit && leb limit max_replay_page) _ h in
    let (r, k, h) = bind_inv (replay_states git after limit head) _ h in
    let (_, h) = guard_inv (is_sha_hex r.head_revision) _ h in
    let (previous, _, h) = bind_inv (checked_state c r.previous_state) _ h in
    let ((events, next), e, h) = bind_inv (replay_events c after previous r.states) _ h in
    let a = replay_states_lem git after limit head r d k in
    let (revisions, ends, linked) = events_lem c after previous r.states events next e in
    let last : next ≡ last_of after (take limit (since after (history git head))) =
      ends ∙ ap (last_of after) a.revisions in
    let remaining =
      ap (λ x. since x (history git head)) last
      ∙ since-take limit after (history git head) (since after (history git head)) d refl in
    let same : record {
      head_revision = r.head_revision;
      next_revision = next;
      events = events;
      has_more = r.has_more;
    }
        ≡ page =
      ground arith in
    subst (Page git after limit head) same (record {
      revisions = revisions ∙ a.revisions;
      linked = linked;
      remaining = remaining;
      more = a.more;
      finished = finished_lem git after next limit head r d a last remaining;
    })
