-- ===== src/Run/Bus/Examples.antt =====
-- A bus with two subscribers of one run, of which one has left.
use imece_ide.Run.Bus.{notify}
use imece_ide.Run.Bus.{mark_closed}
use imece_ide.Run.Bus.{change}
use imece_ide.Run.Bus.{remove_key}
use imece_ide.Run.Bus.{keep_entry}
use imece_ide.Run.Bus.{add_subscriber}
use imece_ide.Run.Bus.{remove_subscriber}
use imece_ide.Run.Bus.{subscribe}
use imece_ide.Run.Bus.{find_object}
use imece_ide.Run.Bus.{close_object}
use imece_ide.Run.Bus.{close}
use imece_ide.Run.Bus.{subscribers}
use imece_ide.Run.Bus.{notify_all}
use imece_ide.Base.{◌+◌, ◌≤◌, ◌≡◌, refl, true, false, List, [], ◌∷◌, any, length, map}
use imece_ide.Run.Bus.{EventNotice, EventSubscription, new_subscription, publish}
use imece_ide.Run.Bus.Wakes.{
  Act, notified, polled, closing as closed_now, notices, covers, count, is_notified, owed,
  notices-heard,
}
use imece_ide.Run.Bus.Registry.{IsTidy}
use imece_ide.Run.Bus.Notified.{wakes}
use imece_ide.Run.Bus.Tidy.{Call, subscribing, closing, after_calls, new_bus, publish-wakes}

abbrev acts : List Act
acts = notified 3 ∷ closed_now ∷ polled false ∷ polled false ∷ []

abbrev sub : EventSubscription
sub = new_subscription 0 "r"

fresh : sub.closed ≡ false
unfolding new_subscription
fresh = refl

notices-heard_example :
    (any (covers 5) (notices (notified 5 ∷ acts) sub) ≡ true)
    × (length (notices (notified 5 ∷ acts) sub)
        ≤ owed sub.dirty + count is_notified (notified 5 ∷ acts))
notices-heard_example = notices-heard 5 acts sub fresh refl

abbrev calls : List Call
calls = subscribing "r" ∷ subscribing "r" ∷ subscribing "q" ∷ closing 0 ∷ []

abbrev notice : EventNotice
notice = record { run_id = "r"; latest_seq = 4 }

-- The second subscription hears of it.
woken :
    map (λ s. s.dirty) (publish notice (after_calls calls new_bus)).objects
    ≡ false ∷ true ∷ false ∷ []
unfolding publish after_calls notify_all subscribers close close_object find_object subscribe
    new_subscription remove_subscriber add_subscriber keep_entry remove_key change mark_closed
    notify
woken = refl

publish-wakes_example :
    IsTidy (after_calls calls new_bus)
    × ((publish notice (after_calls calls new_bus)).objects
        ≡ map (wakes notice) (after_calls calls new_bus).objects)
publish-wakes_example = publish-wakes calls notice
