-- ===== src/Run/Bus/Notified.antt =====
-- What `EventBus.publish` of run_runtime/bus.py does to the subscriptions.
use imece_ide.Base.{
  ℕ, suc, ◌<◌, ◌≡◌, refl, sym, ap, subst, ◌∙◌, inl, inr, String, true, false, ◌==◌, if◌then◌else◌,
  List, [], ◌∷◌, map, Bool-cases, arith,
}
use imece_ide.Run.Bus.{EventNotice, EventSubscription, notify, change, notify_all}
use imece_ide.Run.Bus.Wakes.{notify_closed, notify-told}
use imece_ide.Run.Bus.Registry.{listens, listeners, Counted}

Above : ℕ → List ℕ → Type 0
Above m [] = Unit
Above m (k ∷ ks) = (m < k) × Above m ks

Counted-Above :
    (r : String) (m n : ℕ) (ss : List EventSubscription)
    → Counted n ss
    → m < n
    → Above m (listeners r ss)
unfolding Counted Above
Counted-Above r m n [] c h = tt
Counted-Above r m n (s ∷ ss) c h = elim (Bool-cases (listens r s)) [
  | inl e ↦ rw e (omega (arith, c.0, h), Counted-Above r m (suc n) ss c.1 (omega (arith, h)))
  | inr e ↦ rw e (Counted-Above r m (suc n) ss c.1 (omega (arith, h)))
]

below : (m k : ℕ) → m < k → (m == k) ≡ false
below m k h = ground (arith, h)

notify_all_later :
    (n : ℕ) (ks : List ℕ) (s : EventSubscription) (ss : List EventSubscription)
    → Above s.key ks
    → notify_all n ks (s ∷ ss) ≡ s ∷ notify_all n ks ss
unfolding notify_all change Above
notify_all_later n [] s ss a = refl
notify_all_later n (k ∷ ks) s ss a =
    ap (λ b. notify_all n ks (if b then notify n s ∷ ss else s ∷ change k (notify n) ss))
      (below s.key k a.0)
    ∙ notify_all_later n ks s (change k (notify n) ss) a.1

notify_key : (n : ℕ) (s : EventSubscription) → (notify n s).key ≡ s.key
notify_key n s = elim (Bool-cases s.closed) [
  | inl e ↦ ap (λ t. t.key) (notify_closed n s e)
  | inr e ↦ ap (λ t. t.key) (notify-told n s e)
]

listens-notify : (r : String) (n : ℕ) (s : EventSubscription) → listens r (notify n s) ≡ listens r s
listens-notify r n s = elim (Bool-cases s.closed) [
  | inl e ↦ ap (listens r) (notify_closed n s e)
  | inr e ↦ ap (listens r) (notify-told n s e)
]

-- What a notice does to a subscription.
abbrev pub wakes : EventNotice → EventSubscription → EventSubscription
wakes e s = if listens e.run_id s then notify e.latest_seq s else s

pub notify_all-map :
    (e : EventNotice) (m : ℕ) (ss : List EventSubscription)
    → Counted m ss
    → notify_all e.latest_seq (listeners e.run_id ss) ss ≡ map (wakes e) ss
unfolding notify_all change Counted
notify_all-map e m [] c = refl
notify_all-map e m (s ∷ ss) c =
    let n = e.latest_seq in
    let l = listeners e.run_id ss in
    let above : Above s.key l = Counted-Above e.run_id s.key (suc m) ss c.1 (omega (arith, c.0)) in
    let rest = notify_all-map e (suc m) ss c.1 in
    elim (Bool-cases (listens e.run_id s)) [
      | inl w ↦
          let here : (s.key == s.key) ≡ true = ground arith in
          let first : notify_all n (s.key ∷ l) (s ∷ ss) ≡ notify n s ∷ notify_all n l ss =
            ap (λ b. notify_all n l (if b then notify n s ∷ ss else s ∷ change s.key (notify n) ss))
              here
            ∙ notify_all_later n l (notify n s) ss
                (subst (λ k. Above k l) (sym (notify_key n s)) above) in
          ap (λ b. notify_all n (if b then s.key ∷ l else l) (s ∷ ss)) w
          ∙ first
          ∙ ap (notify n s ∷◌) rest
          ∙ ap (λ b. (if b then notify n s else s) ∷ map (wakes e) ss) (sym w)
      | inr w ↦
          ap (λ b. notify_all n (if b then s.key ∷ l else l) (s ∷ ss)) w
          ∙ notify_all_later n l s ss above
          ∙ ap (s ∷◌) rest
          ∙ ap (λ b. (if b then notify n s else s) ∷ map (wakes e) ss) (sym w)
    ]

wakes_key : (e : EventNotice) (s : EventSubscription) → (wakes e s).key ≡ s.key
wakes_key e s = elim (Bool-cases (listens e.run_id s)) [
  | inl w ↦ ap (λ b. (if b then notify e.latest_seq s else s).key) w ∙ notify_key e.latest_seq s
  | inr w ↦ ap (λ b. (if b then notify e.latest_seq s else s).key) w
]

listens-wakes :
    (r : String) (e : EventNotice) (s : EventSubscription) → listens r (wakes e s) ≡ listens r s
listens-wakes r e s = elim (Bool-cases (listens e.run_id s)) [
  | inl w ↦
      ap (λ b. listens r (if b then notify e.latest_seq s else s)) w
      ∙ listens-notify r e.latest_seq s
  | inr w ↦ ap (λ b. listens r (if b then notify e.latest_seq s else s)) w
]

pub Counted-map :
    (e : EventNotice) (n : ℕ) (ss : List EventSubscription)
    → Counted n ss
    → Counted n (map (wakes e) ss)
unfolding Counted
Counted-map e n [] c = tt
Counted-map e n (s ∷ ss) c = (wakes_key e s ∙ c.0, Counted-map e (suc n) ss c.1)

pub listeners-map :
    (r : String) (e : EventNotice) (ss : List EventSubscription)
    → listeners r (map (wakes e) ss) ≡ listeners r ss
listeners-map r e [] = refl
listeners-map r e (s ∷ ss) = (λ i.
    if listens-wakes r e s i
    then wakes_key e s i ∷ listeners-map r e ss i
    else listeners-map r e ss i)
