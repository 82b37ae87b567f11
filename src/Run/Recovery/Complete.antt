-- ===== src/Run/Recovery/Complete.antt =====
-- Nothing that was started stays open: what run_runtime/recovery.py drafts for a history.
use imece_ide.Base.{String, ◌≡◌, ◌⊎◌, refl, some, List, ◌∷◌, ◌++◌, inl, inr}
use imece_ide.Json.{get}
use imece_ide.Run.Events.{RunEvent}
use imece_ide.Run.Recovery.Drafts.{Draft, family_drafts, text_at, close}
use imece_ide.Run.Recovery.Scan.{plans, verifications, reviews, fix_loops, unfinished}
use imece_ide.Run.Recovery.Among.{
  IsAmong, after-IsAmong, before-IsAmong, family_drafts-IsSettledStart,
}
use imece_ide.Run.Recovery.Ended.{
  Kind, plan, verification, review, fix_loop, key_of, IsStart, IsEnded, IsDrafted, family_of,
  starts_lem, key_lem, text_lem, closed-IsEnded,
}

unfinished-IsAmong :
    (kind : Kind) (history : List RunEvent) (d : Draft)
    → IsAmong d (family_drafts (family_of kind) history history)
    → IsAmong d (unfinished history)
unfolding unfinished
unfinished-IsAmong plan history d i =
    before-IsAmong d _ _ (before-IsAmong d _ _ (before-IsAmong d _ _ (after-IsAmong d _ _ i)))
unfinished-IsAmong verification history d i =
    before-IsAmong d _ _ (before-IsAmong d _ _ (after-IsAmong d _ _ i))
unfinished-IsAmong review history d i = before-IsAmong d _ _ (after-IsAmong d _ _ i)
unfinished-IsAmong fix_loop history d i = after-IsAmong d _ _ i

close-IsDrafted :
    (kind : Kind) (id : String) (e : RunEvent) (ds : List Draft)
    → IsAmong
        (close
          (family_of kind).interrupted
          (family_of kind).key
          id
          ((family_of kind).correlates e id))
        ds
    → IsDrafted kind id ds
unfolding get plans verifications reviews fix_loops
close-IsDrafted plan id e ds i = record {
  draft = _;
  among = i;
  typed = refl;
  named = refl;
  restart = refl;
}
close-IsDrafted verification id e ds i = record {
  draft = _;
  among = i;
  typed = refl;
  named = refl;
  restart = refl;
}
close-IsDrafted review id e ds i = record {
  draft = _;
  among = i;
  typed = refl;
  named = refl;
  restart = refl;
}
close-IsDrafted fix_loop id e ds i = record {
  draft = _;
  among = i;
  typed = refl;
  named = refl;
  restart = refl;
}

-- Every plan, verification, review and fix loop that a history starts has ended in it, by an event of a
-- type that ends its kind, with its identifier, after the start and before the next start of the same
-- identifier; or the recovery drafts the event that interrupts it, with its identifier.
pub unfinished-IsSettledStart :
    (kind : Kind) (earlier later : List RunEvent) (e : RunEvent) (id : String)
    → IsStart kind id e
    → IsEnded kind id (earlier ++ e ∷ later) e later
      ⊎ IsDrafted kind id (unfinished (earlier ++ e ∷ later))
unfinished-IsSettledStart kind earlier later e id (s, t) =
    let history = earlier ++ e ∷ later in
    let f = family_of kind in
    let found : text_at f.key e.payload ≡ some id =
      rw (key_lem kind) (text_lem (key_of kind) e.payload id t) in
    elim (family_drafts-IsSettledStart f history earlier later e id (starts_lem kind e.type s)
      found) [
        | inl closed ↦ inl (closed-IsEnded kind id history later e (rw (key_lem kind) at closed))
        | inr i ↦ inr (close-IsDrafted kind id e _ (unfinished-IsAmong kind history _ i))
      ]
