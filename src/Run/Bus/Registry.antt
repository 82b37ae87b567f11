-- ===== src/Run/Bus/Registry.antt =====
-- The subscriptions that `EventBus` of run_runtime/bus.py keeps, and whom it wakes.
use imece_ide.Base.{
  ℕ, suc, ◌+◌, ◌≡◌, refl, sym, ap, subst, ◌∙◌, inl, inr, String, Bool, true, false, not, ◌&&◌, ◌==◌,
  str_eq, eq_iff, eq_refl, if◌then◌else◌, some, List, [], ◌∷◌, ◌++◌, length, Bool-cases, arith,
}
use imece_ide.Run.Bus.{
  EventSubscription, new_subscription, mark_closed, EventBus, subscribers, add_subscriber,
  keep_entry, remove_key, remove_subscriber, change, find_object,
}

-- An open subscription to a run.
abbrev pub listens : String → EventSubscription → Bool
listens r s = not s.closed && str_eq s.run_id r

-- The keys of the open subscriptions to a run, in the order in which they were made.
abbrev pub listeners : String → List EventSubscription → List ℕ
listeners r [] = []
listeners r (s ∷ ss) = if listens r s then s.key ∷ listeners r ss else listeners r ss

-- The keys of the objects count them, from a number on.
unfoldable pub Counted : ℕ → List EventSubscription → Type 0
Counted n [] = Unit
Counted n (s ∷ ss) = (s.key ≡ n) × Counted (suc n) ss

-- No entry is empty, and no run has two.
unfoldable pub Filled : List (String × List ℕ) → Type 0
Filled [] = Unit
Filled ((q, []) ∷ rest) = ⊥
Filled ((q, k ∷ ks) ∷ rest) = (subscribers q rest ≡ []) × Filled rest

-- The bus keeps exactly the open subscriptions of each run, and nothing for a run without one.
pub record IsTidy (bus : EventBus) : Type 0 where
  pub counted : Counted 0 bus.objects
  pub filled : Filled bus.subscriptions
  pub exact : (r : String) → subscribers r bus.subscriptions ≡ listeners r bus.objects

pub listeners-append :
    (r : String) (ss ts : List EventSubscription)
    → listeners r (ss ++ ts) ≡ listeners r ss ++ listeners r ts
listeners-append r [] ts = refl
listeners-append r (s ∷ ss) ts = elim (Bool-cases (listens r s)) [
  | inl e ↦ rw e (ap (s.key ∷◌) (listeners-append r ss ts))
  | inr e ↦ rw e (listeners-append r ss ts)
]

other_run : (p q r : String) → str_eq p q ≡ false → str_eq p r ≡ true → str_eq q r ≡ false
other_run p q r n e = elim (Bool-cases (str_eq q r)) [
  | inl f ↦
      let same : p ≡ q = (eq_iff p r).0 e ∙ sym ((eq_iff q r).0 f) in
      let yes : str_eq p q ≡ true = ap (λ x. str_eq x q) same ∙ eq_refl q in
      absurd (ground (arith, n, yes))
  | inr f ↦ f
]

same_run : (p q r : String) → str_eq p q ≡ true → str_eq p r ≡ str_eq q r
same_run p q r e = ap (λ x. str_eq x r) ((eq_iff p q).0 e)

-- What an operation on the dictionary does to the list of a run.
abbrev pub at : (String → List ℕ → List ℕ) → String → List (String × List ℕ) → List ℕ
at f r es = f r (subscribers r es)

abbrev pub added : String → ℕ → String → List ℕ → List ℕ
added q k r keys = if str_eq q r then keys ++ k ∷ [] else keys

abbrev pub removed : String → ℕ → String → List ℕ → List ℕ
removed q k r keys = if str_eq q r then remove_key k keys else keys

pub subscribers-add :
    (r q : String) (k : ℕ) (es : List (String × List ℕ))
    → subscribers r (add_subscriber q k es) ≡ at (added q k) r es
unfolding subscribers add_subscriber
subscribers-add r q k [] = refl
subscribers-add r q k ((p, keys) ∷ es) = elim (Bool-cases (str_eq p q)) [
  | inl e ↦ elim (Bool-cases (str_eq p r)) [
    | inl f ↦ rw (e, f, sym (same_run p q r e) ∙ f) refl
    | inr f ↦ rw (e, f, sym (same_run p q r e) ∙ f) refl
  ]
  | inr e ↦ elim (Bool-cases (str_eq p r)) [
    | inl f ↦ rw (e, f, other_run p q r e f) refl
    | inr f ↦ rw (e, f) (subscribers-add r q k es)
  ]
]

pub Filled-add :
    (q : String) (k : ℕ) (es : List (String × List ℕ)) → Filled es → Filled (add_subscriber q k es)
unfolding Filled add_subscriber subscribers
Filled-add q k [] f = (refl, tt)
Filled-add q k ((p, []) ∷ es) f = absurd f
Filled-add q k ((p, j ∷ js) ∷ es) f = elim (Bool-cases (str_eq p q)) [
  | inl e ↦ rw e f
  | inr e ↦
      let no : str_eq q p ≡ false = other_run p q p e (eq_refl p) in
      let none_there : subscribers p (add_subscriber q k es) ≡ [] =
        subscribers-add p q k es ∙ rw no f.0 in
      rw e (none_there, Filled-add q k es f.1)
]

kept :
    (r p : String) (ks : List ℕ) (es : List (String × List ℕ))
    → subscribers p es ≡ []
    → subscribers r (keep_entry p ks es) ≡ (if str_eq p r then ks else subscribers r es)
unfolding keep_entry subscribers
kept r p [] es none_there = elim (Bool-cases (str_eq p r)) [
  | inl e ↦ rw e (subst (λ x. subscribers x es ≡ []) ((eq_iff p r).0 e) none_there)
  | inr e ↦ rw e refl
]
kept r p (k ∷ ks) es none_there = refl

pub subscribers-remove :
    (r q : String) (k : ℕ) (es : List (String × List ℕ))
    → Filled es
    → subscribers r (remove_subscriber q k es) ≡ at (removed q k) r es
unfolding subscribers remove_subscriber Filled remove_key
subscribers-remove r q k [] f = ground arith
subscribers-remove r q k ((p, []) ∷ es) f = absurd f
subscribers-remove r q k ((p, j ∷ js) ∷ es) f = elim (Bool-cases (str_eq p q)) [
  | inl e ↦
      let now = kept r p (remove_key k (j ∷ js)) es f.0 in
      elim (Bool-cases (str_eq p r)) [
        | inl g ↦ rw (e, g, sym (same_run p q r e) ∙ g) (now ∙ rw g refl)
        | inr g ↦ rw (e, g, sym (same_run p q r e) ∙ g) (now ∙ rw g refl)
      ]
  | inr e ↦ elim (Bool-cases (str_eq p r)) [
    | inl g ↦ rw (e, g, other_run p q r e g) refl
    | inr g ↦ rw (e, g) (subscribers-remove r q k es f.1)
  ]
]

pub Filled-remove :
    (q : String) (k : ℕ) (es : List (String × List ℕ))
    → Filled es
    → Filled (remove_subscriber q k es)
unfolding Filled remove_subscriber subscribers keep_entry
Filled-remove q k [] f = tt
Filled-remove q k ((p, []) ∷ es) f = absurd f
Filled-remove q k ((p, j ∷ js) ∷ es) f = elim (Bool-cases (str_eq p q)) [
  | inl e ↦ rw e (entry p (remove_key k (j ∷ js)) es f.0 f.1)
  | inr e ↦
      let no : str_eq q p ≡ false = other_run p q p e (eq_refl p) in
      let none_there : subscribers p (remove_subscriber q k es) ≡ [] =
        subscribers-remove p q k es f.1 ∙ rw no f.0 in
      rw e (none_there, Filled-remove q k es f.1)
]
  where
    entry :
        (p : String) (ks : List ℕ) (es : List (String × List ℕ))
        → subscribers p es ≡ []
        → Filled es
        → Filled (keep_entry p ks es)
    entry p [] es n f = f
    entry p (k ∷ ks) es n f = (n, f)

unlisted :
    (q : String) (k : ℕ) (r : String) (j : ℕ) (b : Bool) (keys : List ℕ)
    → b ≡ str_eq q r
    → (j == k) ≡ true
    → removed q k r (if b then j ∷ keys else keys) ≡ keys
unfolding remove_key
unlisted q k r j b keys h e = elim (Bool-cases (str_eq q r)) [
  | inl f ↦ rw (h, f, e) refl
  | inr f ↦ rw (h, f) refl
]

listed :
    (q : String) (k : ℕ) (r : String) (j : ℕ) (b : Bool) (keys : List ℕ)
    → (j == k) ≡ false
    → removed q k r (if b then j ∷ keys else keys)
      ≡ (if b then j ∷ removed q k r keys else removed q k r keys)
unfolding remove_key
listed q k r j false keys e = refl
listed q k r j true keys e = elim (Bool-cases (str_eq q r)) [
  | inl f ↦ rw (f, e) refl
  | inr f ↦ rw f refl
]

pub listeners-close :
    (r : String) (k : ℕ) (s : EventSubscription) (ss : List EventSubscription)
    → find_object k ss ≡ some s
    → s.closed ≡ false
    → listeners r (change k mark_closed ss) ≡ removed s.run_id k r (listeners r ss)
unfolding find_object change mark_closed remove_key
listeners-close r k s [] h c = absurd (ground arith)
listeners-close r k s (t ∷ ts) h c = elim (Bool-cases (t.key == k)) [
  | inl e ↦
      let same : t ≡ s = ground (arith, e, h) in
      let listened : listens r t ≡ str_eq s.run_id r =
        ap (listens r) same ∙ ap (λ b. not b && str_eq s.run_id r) c in
      ap (λ b. listeners r (if b then mark_closed t ∷ ts else t ∷ change k mark_closed ts)) e
      ∙ sym (unlisted s.run_id k r t.key (listens r t) (listeners r ts) listened e)
  | inr e ↦
      let later : find_object k ts ≡ some s = ground (arith, e, h) in
      ap (λ b. listeners r (if b then mark_closed t ∷ ts else t ∷ change k mark_closed ts)) e
      ∙ ap (λ l. if listens r t then t.key ∷ l else l) (listeners-close r k s ts later c)
      ∙ sym (listed s.run_id k r t.key (listens r t) (listeners r ts) e)
]

-- How many the count goes to, after some.
pub Counted-append :
    (n : ℕ) (r : String) (ss : List EventSubscription)
    → Counted n ss
    → Counted n (ss ++ new_subscription (n + length ss) r ∷ [])
unfolding Counted new_subscription
Counted-append n r [] c = (omega arith, tt)
Counted-append n r (s ∷ ss) c = (
  c.0,
  let next : suc n + length ss ≡ n + suc (length ss) = omega arith in
      subst (λ k. Counted (suc n) (ss ++ new_subscription k r ∷ [])) next
        (Counted-append (suc n) r ss c.1),
)

pub Counted-change :
    (n k : ℕ) (f : EventSubscription → EventSubscription) (ss : List EventSubscription)
    → ((s : EventSubscription) → (f s).key ≡ s.key)
    → Counted n ss
    → Counted n (change k f ss)
unfolding Counted change
Counted-change n k f [] h c = tt
Counted-change n k f (s ∷ ss) h c = elim (Bool-cases (s.key == k)) [
  | inl e ↦ rw e (h s ∙ c.0, c.1)
  | inr e ↦ rw e (c.0, Counted-change (suc n) k f ss h c.1)
]
