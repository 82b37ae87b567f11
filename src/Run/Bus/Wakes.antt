-- ===== src/Run/Bus/Wakes.antt =====
-- What the consumer of a subscription of run_runtime/bus.py is told.
use imece_ide.Base.{
  ℕ, ◌≤◌, ◌+◌, ◌≡◌, refl, sym, ap, subst, length, inl, inr, Bool, true, false, ◌||◌, leb, ltb,
  le→leb, if◌then◌else◌, List, [], ◌∷◌, any, Bool-cases, arith,
}
use imece_ide.Run.Bus.{
  EventNotice, EventSubscription, notify, Wait, woken, nothing, waiting, wait, mark_closed,
}

-- What happens to a subscription, in order.
pub data Act : Type 0 where
  notified : ℕ → Act
  polled : Bool → Act
  closing : Act

abbrev heard : Wait → List EventNotice → List EventNotice
heard (woken n) ns = n ∷ ns
heard nothing ns = ns
heard waiting ns = ns

-- The notices that the consumer is given.
unfoldable pub notices : List Act → EventSubscription → List EventNotice
notices [] s = []
notices (notified n ∷ acts) s = notices acts (notify n s)
notices (closing ∷ acts) s = notices acts (mark_closed s)
notices (polled past ∷ acts) s = let (w, t) = wait past s in heard w (notices acts t)

abbrev pub is_polled : Act → Bool
is_polled (polled past) = true
is_polled _ = false

abbrev pub covers : ℕ → EventNotice → Bool
covers n e = leb n e.latest_seq

later : (n k l : ℕ) → n ≤ l → n ≤ (if ltb l k then k else l)
later n k l h = ground arith

reached : (n l : ℕ) → n ≤ (if ltb l n then n else l)
reached n l = ground arith

-- An open subscription after a notification.
abbrev pub told : ℕ → EventSubscription → EventSubscription
told k s = record s { latest_seq = (if ltb s.latest_seq k then k else s.latest_seq); dirty = true }

pub notify_closed : (k : ℕ) (s : EventSubscription) → s.closed ≡ true → notify k s ≡ s
unfolding notify
notify_closed k s e = ap (λ b. if b then s else told k s) e

pub notify-told : (k : ℕ) (s : EventSubscription) → s.closed ≡ false → notify k s ≡ told k s
unfolding notify
notify-told k s e = ap (λ b. if b then s else told k s) e

wait_dirty :
    (past : Bool) (s : EventSubscription)
    → s.dirty ≡ true
    → wait past s ≡ (
      woken (record { run_id = s.run_id; latest_seq = s.latest_seq }),
      record s { dirty = false },
    )
unfolding wait
wait_dirty past s e =
    ap
      (λ b.
        if b
        then (
          woken (record { run_id = s.run_id; latest_seq = s.latest_seq }),
          record s { dirty = false },
        )
        else ((if s.closed || past then nothing else waiting), s))
      e

wait_clean :
    (past : Bool) (s : EventSubscription)
    → s.dirty ≡ false
    → wait past s ≡ ((if s.closed || past then nothing else waiting), s)
unfolding wait
wait_clean past s e =
    ap
      (λ b.
        if b
        then (
          woken (record { run_id = s.run_id; latest_seq = s.latest_seq }),
          record s { dirty = false },
        )
        else ((if s.closed || past then nothing else waiting), s))
      e

heard_none : (b : Bool) (ns : List EventNotice) → heard (if b then nothing else waiting) ns ≡ ns
heard_none true ns = refl
heard_none false ns = refl

dirty_lem :
    (n : ℕ) (acts : List Act) (s : EventSubscription)
    → s.dirty ≡ true
    → n ≤ s.latest_seq
    → any is_polled acts ≡ true
    → any (covers n) (notices acts s) ≡ true
unfolding notices mark_closed
dirty_lem n [] s d l p = absurd (ground arith)
dirty_lem n (notified k ∷ acts) s d l p = elim (Bool-cases s.closed) [
  | inl e ↦
      subst (λ t. any (covers n) (notices acts t) ≡ true) (sym (notify_closed k s e))
        (dirty_lem n acts s d l p)
  | inr e ↦
      subst (λ t. any (covers n) (notices acts t) ≡ true) (sym (notify-told k s e))
        (dirty_lem n acts (told k s) refl (later n k s.latest_seq l) p)
]
dirty_lem n (closing ∷ acts) s d l p = dirty_lem n acts (mark_closed s) d l p
dirty_lem n (polled past ∷ acts) s d l p =
    let c = le→leb n s.latest_seq l in
    subst (λ r. any (covers n) (heard r.0 (notices acts r.1)) ≡ true) (sym (wait_dirty past s d))
      (ground (arith, c))

abbrev pub is_notified : Act → Bool
is_notified (notified n) = true
is_notified _ = false

abbrev pub count : (Act → Bool) → List Act → ℕ
count f [] = 0
count f (a ∷ acts) = (if f a then 1 else 0) + count f acts

abbrev pub owed : Bool → ℕ
owed true = 1
owed false = 0

notices_bound :
    (acts : List Act) (s : EventSubscription)
    → length (notices acts s) ≤ owed s.dirty + count is_notified acts
unfolding notices mark_closed
notices_bound [] s = ground arith
notices_bound (notified k ∷ acts) s = elim (Bool-cases s.closed) [
  | inl e ↦
      subst (λ t. length (notices acts t) ≤ owed s.dirty + (1 + count is_notified acts))
        (sym (notify_closed k s e)) (omega (arith, notices_bound acts s))
  | inr e ↦
      subst (λ t. length (notices acts t) ≤ owed s.dirty + (1 + count is_notified acts))
        (sym (notify-told k s e)) (omega (arith, notices_bound acts (told k s)))
]
notices_bound (closing ∷ acts) s = omega (arith, notices_bound acts (mark_closed s))
notices_bound (polled past ∷ acts) s = elim (Bool-cases s.dirty) [
  | inl e ↦
      let one : owed s.dirty ≡ 1 = ap owed e in
      subst
        (λ r. length (heard r.0 (notices acts r.1)) ≤ owed s.dirty + (0 + count is_notified acts))
        (sym (wait_dirty past s e))
        (omega (arith, one, notices_bound acts (record s { dirty = false })))
  | inr e ↦
      subst
        (λ r. length (heard r.0 (notices acts r.1)) ≤ owed s.dirty + (0 + count is_notified acts))
        (sym (wait_clean past s e))
        (omega
          (arith, ap length (heard_none (s.closed || past) (notices acts s)), notices_bound acts s))
]

-- No wakeup is lost: what is notified to an open subscription is told to its consumer if it polls
-- later, by a notice of at least that sequence number, whatever else is notified or closed before. And
-- none is invented: the consumer gets at most one notice for each notification, and one for a wakeup
-- that was still owed.
pub notices-heard :
    (n : ℕ) (acts : List Act) (s : EventSubscription)
    → s.closed ≡ false
    → any is_polled acts ≡ true
    → (any (covers n) (notices (notified n ∷ acts) s) ≡ true)
      × (length (notices (notified n ∷ acts) s)
          ≤ owed s.dirty + count is_notified (notified n ∷ acts))
unfolding notices
notices-heard n acts s is_open p = (
  subst (λ t. any (covers n) (notices acts t) ≡ true) (sym (notify-told n s is_open))
      (dirty_lem n acts (told n s) refl (reached n s.latest_seq) p),
  notices_bound (notified n ∷ acts) s,
)
