-- ===== src/Run/Bus/Tidy.antt =====
-- `EventBus` of run_runtime/bus.py against its open subscriptions.
use imece_ide.Base.{
  ℕ, ◌+◌, ◌≡◌, refl, sym, ap, subst, ◌∙◌, inl, inr, String, str_eq, Option, some, none, List, [],
  ◌∷◌, ◌++◌, append-nil, length, map, Bool-cases, Result, Result-cases, ok, err, refuse_inv, arith,
}
use imece_ide.Run.Bus.{
  EventNotice, EventSubscription, new_subscription, mark_closed, EventBus, subscribers,
  add_subscriber, subscribe, find_object, close_object, close, notify_all, publish,
}
use imece_ide.Run.Bus.Notified.{wakes, notify_all-map, Counted-map, listeners-map}
use imece_ide.Run.Bus.Registry.{
  listeners, Counted, Filled, IsTidy, added, removed, listeners-append, subscribers-add, Filled-add,
  subscribers-remove, Filled-remove, listeners-close, Counted-append, Counted-change,
}

publish_lem :
    (e : EventNotice) (bus : EventBus)
    → IsTidy bus
    → (publish e bus).objects ≡ map (wakes e) bus.objects
unfolding publish
publish_lem e bus a =
    ap (λ ks. notify_all e.latest_seq ks bus.objects) (a.exact e.run_id)
    ∙ notify_all-map e 0 bus.objects a.counted

publish-IsTidy : (e : EventNotice) (bus : EventBus) → IsTidy bus → IsTidy (publish e bus)
unfolding publish
publish-IsTidy e bus a = record {
  counted = subst (Counted 0) (sym (publish_lem e bus a)) (Counted-map e 0 bus.objects a.counted);
  filled = a.filled;
  exact = λ r.
      a.exact r
      ∙ sym (listeners-map r e bus.objects)
      ∙ ap (listeners r) (sym (publish_lem e bus a));
}

newest :
    (r q : String) (n : ℕ) (keys : List ℕ)
    → keys ++ listeners q (new_subscription n r ∷ []) ≡ added r n q keys
unfolding new_subscription
newest r q n keys = elim (Bool-cases (str_eq r q)) [
  | inl e ↦ rw e refl
  | inr e ↦ rw e (append-nil keys)
]

subscribe-IsTidy :
    (r : String) (bus : EventBus) (k : ℕ) (next : EventBus)
    → IsTidy bus
    → subscribe r bus ≡ ok (k, next)
    → IsTidy next
unfolding subscribe
subscribe-IsTidy r bus k next a h =
    let (_, h) = refuse_inv (str_eq r "") _ h in
    let made : record {
      subscriptions = add_subscriber r (length bus.objects) bus.subscriptions;
      objects = bus.objects ++ new_subscription (length bus.objects) r ∷ [];
    }
        ≡ next =
      ground arith in
    subst IsTidy made (record {
      counted =
          let size : 0 + length bus.objects ≡ length bus.objects = omega arith in
          subst (λ n. Counted 0 (bus.objects ++ new_subscription n r ∷ [])) size
            (Counted-append 0 r bus.objects a.counted);
      filled = Filled-add r (length bus.objects) bus.subscriptions a.filled;
      exact = λ q.
          subscribers-add q r (length bus.objects) bus.subscriptions
          ∙ ap (added r (length bus.objects) q) (a.exact q)
          ∙ sym (
              listeners-append q bus.objects (new_subscription (length bus.objects) r ∷ [])
              ∙ newest r q (length bus.objects) (listeners q bus.objects));
    })

marked_key : (s : EventSubscription) → (mark_closed s).key ≡ s.key
unfolding mark_closed
marked_key s = refl

close_object-IsTidy :
    (k : ℕ) (bus : EventBus) (o : Option EventSubscription)
    → IsTidy bus
    → find_object k bus.objects ≡ o
    → IsTidy (close_object k bus o)
unfolding close_object
close_object-IsTidy k bus none a found = a
close_object-IsTidy k bus (some s) a found = elim (Bool-cases s.closed) [
  | inl c ↦ rw c a
  | inr c ↦ rw c (record {
    counted = Counted-change 0 k mark_closed bus.objects marked_key a.counted;
    filled = Filled-remove s.run_id k bus.subscriptions a.filled;
    exact = λ r.
        subscribers-remove r s.run_id k bus.subscriptions a.filled
        ∙ ap (removed s.run_id k r) (a.exact r)
        ∙ sym (listeners-close r k s bus.objects found c);
  })
]

close-IsTidy : (k : ℕ) (bus : EventBus) → IsTidy bus → IsTidy (close k bus)
unfolding close
close-IsTidy k bus a = close_object-IsTidy k bus (find_object k bus.objects) a refl

-- The calls of a bus.
pub data Call : Type 0 where
  subscribing : String → Call
  closing : ℕ → Call
  publishing : EventNotice → Call

-- A bus after some calls, those that raise included.
unfoldable pub after_calls : List Call → EventBus → EventBus
after_calls [] bus = bus
after_calls (subscribing r ∷ calls) bus = after_calls calls (subscribed (subscribe r bus) bus)
  where
    subscribed : Result (ℕ × EventBus) → EventBus → EventBus
    subscribed (err e) bus = bus
    subscribed (ok (k, next)) bus = next
after_calls (closing k ∷ calls) bus = after_calls calls (close k bus)
after_calls (publishing e ∷ calls) bus = after_calls calls (publish e bus)

abbrev pub new_bus : EventBus
new_bus = record { subscriptions = []; objects = [] }

after_calls-IsTidy :
    (calls : List Call) (bus : EventBus) → IsTidy bus → IsTidy (after_calls calls bus)
unfolding after_calls
after_calls-IsTidy [] bus a = a
after_calls-IsTidy (subscribing r ∷ calls) bus a = elim (Result-cases (subscribe r bus)) [
  | inl ((k, next), e) ↦ rw e (after_calls-IsTidy calls next (subscribe-IsTidy r bus k next a e))
  | inr (x, e) ↦ rw e (after_calls-IsTidy calls bus a)
]
after_calls-IsTidy (closing k ∷ calls) bus a =
    after_calls-IsTidy calls (close k bus) (close-IsTidy k bus a)
after_calls-IsTidy (publishing e ∷ calls) bus a =
    after_calls-IsTidy calls (publish e bus) (publish-IsTidy e bus a)

-- After any calls, the bus keeps exactly the open subscriptions of each run, in order, and no entry for
-- a run without one; and a notice that is published then wakes exactly the open subscriptions of its
-- run, and changes no other.
pub publish-wakes :
    (calls : List Call) (e : EventNotice)
    → IsTidy (after_calls calls new_bus)
      × ((publish e (after_calls calls new_bus)).objects
          ≡ map (wakes e) (after_calls calls new_bus).objects)
unfolding Counted Filled subscribers
publish-wakes calls e =
    let a =
      after_calls-IsTidy calls new_bus (record { counted = tt; filled = tt; exact = λ r. refl }) in
    (a, publish_lem e (after_calls calls new_bus) a)
