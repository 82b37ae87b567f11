-- ===== src/Run/Bus.antt =====
-- `EventSubscription` and `EventBus` of run_runtime/bus.py. A subscription is an object, known by its
-- key; the objects are those that were made, the first one first.
pub mod Wakes
pub mod Registry
pub mod Notified
pub mod Tidy
mod Examples
use imece_ide.Base.{
  ℕ, suc, ◌+◌, String, Bool, true, false, not, ◌&&◌, ◌||◌, ◌==◌, ltb, str_eq, if◌then◌else◌, Option,
  none, some, List, [], ◌∷◌, ◌++◌, length, map, Result, ok, ◌>>=◌, ◌>>◌, guard, refuse,
  event_validation,
}

pub record EventNotice : Type 0 where
  pub run_id : String
  pub latest_seq : ℕ

-- __post_init__, of a sequence number that is not negative
unfoldable pub new_notice : String → ℕ → Result EventNotice
new_notice run_id latest_seq = do
  refuse (str_eq run_id "") event_validation
  guard (ltb 0 latest_seq) event_validation
  ok (record { run_id = run_id; latest_seq = latest_seq })

pub record EventSubscription : Type 0 where
  pub key : ℕ
  pub run_id : String
  pub dirty : Bool
  pub latest_seq : ℕ
  pub closed : Bool

unfoldable pub new_subscription : ℕ → String → EventSubscription
new_subscription key run_id = record {
  key = key;
  run_id = run_id;
  dirty = false;
  latest_seq = 0;
  closed = false;
}

-- _notify
unfoldable pub notify : ℕ → EventSubscription → EventSubscription
notify latest_seq s = if s.closed then s else record s {
  latest_seq = (if ltb s.latest_seq latest_seq then latest_seq else s.latest_seq);
  dirty = true;
}

-- One pass of the loop of `wait`, by whether its deadline is past.
pub data Wait : Type 0 where
  woken : EventNotice → Wait
  nothing waiting : Wait

unfoldable pub wait : Bool → EventSubscription → Wait × EventSubscription
wait past s =
    if s.dirty
    then (
      woken (record { run_id = s.run_id; latest_seq = s.latest_seq }),
      record s { dirty = false },
    )
    else ((if s.closed || past then nothing else waiting), s)

-- close, without the callback
unfoldable pub mark_closed : EventSubscription → EventSubscription
mark_closed s = record s { closed = true }

pub record EventBus : Type 0 where
  pub subscriptions : List (String × List ℕ)
  pub objects : List EventSubscription

unfoldable pub subscribers : String → List (String × List ℕ) → List ℕ
subscribers r [] = []
subscribers r ((q, keys) ∷ rest) = if str_eq q r then keys else subscribers r rest

-- setdefault(run_id, []).append(subscription)
unfoldable pub add_subscriber : String → ℕ → List (String × List ℕ) → List (String × List ℕ)
add_subscriber r k [] = (r, k ∷ []) ∷ []
add_subscriber r k ((q, keys) ∷ rest) =
    if str_eq q r then (q, keys ++ k ∷ []) ∷ rest else (q, keys) ∷ add_subscriber r k rest

-- subs.remove(subscription), where a missing one is passed over
unfoldable pub remove_key : ℕ → List ℕ → List ℕ
remove_key k [] = []
remove_key k (j ∷ js) = if j == k then js else j ∷ remove_key k js

-- An entry of the dictionary, unless no subscriber is left.
unfoldable pub keep_entry : String → List ℕ → List (String × List ℕ) → List (String × List ℕ)
keep_entry q [] rest = rest
keep_entry q (j ∷ js) rest = (q, j ∷ js) ∷ rest

-- _unsubscribe, on the dictionary: a run without subscribers keeps no entry
unfoldable pub remove_subscriber : String → ℕ → List (String × List ℕ) → List (String × List ℕ)
remove_subscriber r k [] = []
remove_subscriber r k ((q, keys) ∷ rest) =
    if str_eq q r
    then keep_entry q (remove_key k keys) rest
    else (q, keys) ∷ remove_subscriber r k rest

-- What becomes of the object with a key.
unfoldable pub change :
    ℕ → (EventSubscription → EventSubscription) → List EventSubscription → List EventSubscription
change k f [] = []
change k f (s ∷ ss) = if s.key == k then f s ∷ ss else s ∷ change k f ss

unfoldable pub subscribe : String → EventBus → Result (ℕ × EventBus)
subscribe run_id bus = do
  refuse (str_eq run_id "") event_validation
  let key = length bus.objects
  ok (
    key,
    record {
      subscriptions = add_subscriber run_id key bus.subscriptions;
      objects = bus.objects ++ new_subscription key run_id ∷ [];
    },
  )

unfoldable pub find_object : ℕ → List EventSubscription → Option EventSubscription
find_object k [] = none
find_object k (s ∷ ss) = if s.key == k then some s else find_object k ss

-- close of an object that was found, with the callback of the bus
unfoldable pub close_object : ℕ → EventBus → Option EventSubscription → EventBus
close_object k bus none = bus
close_object k bus (some s) = if s.closed then bus else record {
  subscriptions = remove_subscriber s.run_id k bus.subscriptions;
  objects = change k mark_closed bus.objects;
}

unfoldable pub close : ℕ → EventBus → EventBus
close k bus = close_object k bus (find_object k bus.objects)

unfoldable pub notify_all : ℕ → List ℕ → List EventSubscription → List EventSubscription
notify_all latest_seq [] objects = objects
notify_all latest_seq (k ∷ ks) objects =
    notify_all latest_seq ks (change k (notify latest_seq) objects)

unfoldable pub publish : EventNotice → EventBus → EventBus
publish notice bus = record bus {
  objects = notify_all notice.latest_seq (subscribers notice.run_id bus.subscriptions) bus.objects;
}

unfoldable pub subscriber_count : String → EventBus → ℕ
subscriber_count run_id bus = length (subscribers run_id bus.subscriptions)
