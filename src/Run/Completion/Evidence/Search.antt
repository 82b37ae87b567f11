-- ===== src/Run/Completion/Evidence/Search.antt =====
-- The list comprehensions of run_runtime/completion.py over a log that is numbered in order.
use imece_ide.Base.{
  ℕ, suc, ◌≤◌, ◌<◌, Bool, true, false, ◌&&◌, ◌≡◌, refl, sym, ap, ◌∙◌, ltb, leb, none, some, List,
  [], ◌∷◌, ◌++◌, any, arith, Option-cases, inl, inr,
}
use imece_ide.Run.Events.{RunEvent}
use imece_ide.Run.Store.Consistency.{IsNumbered}
use imece_ide.Run.Completion.Checks.{last_where}

-- `e` passes the test, and nothing behind it does.
pub record IsLast (p : RunEvent → Bool) (es : List RunEvent) (e : RunEvent) : Type 0 where
  pub before : List RunEvent
  pub after : List RunEvent
  pub split : es ≡ before ++ e ∷ after
  pub passes : p e ≡ true
  pub last : any p after ≡ false

pub last_where-none :
    (p : RunEvent → Bool) (es : List RunEvent) → last_where p es ≡ none → any p es ≡ false
unfolding last_where
last_where-none p [] h = refl
last_where-none p (e ∷ es) h = ground (arith, last_where-none p es)

pub last_where-some :
    (p : RunEvent → Bool) (es : List RunEvent) (e : RunEvent)
    → last_where p es ≡ some e
    → IsLast p es e
unfolding last_where
last_where-some p [] e h = absurd (ground arith)
last_where-some p (x ∷ es) e h = elim (Option-cases (last_where p es)) [
  | inl no_later ↦ record {
    before = [];
    after = es;
    split = ground arith;
    passes = ground arith;
    last = last_where-none p es no_later;
  }
  | inr (y, later) ↦
      let rest = last_where-some p es e (later ∙ ground arith) in
      record {
        before = x ∷ rest.before;
        after = rest.after;
        split = ap (λ xs. x ∷ xs) rest.split;
        passes = rest.passes;
        last = rest.last;
      }
]

-- Where a numbered log is cut at an event, the numbers before it are smaller and behind it larger.
pub IsNumbered-split :
    (n m : ℕ) (xs ys : List RunEvent) (e : RunEvent)
    → IsNumbered n (xs ++ e ∷ ys) m
    → (k : ℕ) × IsNumbered n xs k × (e.seq ≡ suc k) × IsNumbered (suc k) ys m
IsNumbered-split n m [] ys e h = (n, refl, h.0, h.1)
IsNumbered-split n m (x ∷ xs) ys e h =
    let (k, a, b, c) = IsNumbered-split (suc n) m xs ys e h.1 in (k, (h.0, a), b, c)

pub IsNumbered-bounds : (n m : ℕ) (es : List RunEvent) → IsNumbered n es m → n ≤ m
IsNumbered-bounds n m [] h = omega arith
IsNumbered-bounds n m (e ∷ es) h = omega (arith, IsNumbered-bounds (suc n) m es h.1)

-- A test on the number splits a numbered log: it passes before, and fails behind.
pub any_behind :
    (q : RunEvent → Bool) (s n m : ℕ) (es : List RunEvent)
    → IsNumbered n es m
    → s ≤ n
    → any (λ e. ltb s e.seq && q e) es ≡ any q es
any_behind q s n m [] h le = refl
any_behind q s n m (e ∷ es) h le = ground (arith, any_behind q s (suc n) m es h.1 (omega arith))

pub any-append :
    (p : RunEvent → Bool) (xs ys : List RunEvent)
    → any p (xs ++ ys) ≡ false
    → (any p xs ≡ false) × (any p ys ≡ false)
any-append p [] ys h = (refl, h)
any-append p (x ∷ xs) ys h = ground (arith, any-append p xs ys)

last_where_absent :
    (p : RunEvent → Bool) (xs ys : List RunEvent)
    → last_where p (xs ++ ys) ≡ none
    → last_where p xs ≡ none
unfolding last_where
last_where_absent p [] ys h = refl
last_where_absent p (x ∷ xs) ys h = ground (arith, last_where_absent p xs ys)

pub last_where-append :
    (p : RunEvent → Bool) (xs ys : List RunEvent) {e : RunEvent}
    → last_where p (xs ++ ys) ≡ some e
    → last_where p ys ≡ none
    → last_where p xs ≡ some e
unfolding last_where
last_where-append p [] ys h no_later = absurd (ground arith)
last_where-append p (x ∷ xs) ys {e} h no_later = elim (Option-cases (last_where p (xs ++ ys))) [
  | inr (y, later) ↦
      let found = last_where-append p xs ys {e = e} (later ∙ ground arith) no_later in rw found
  | inl none_later ↦ ground (arith, last_where_absent p xs ys none_later)
]

-- Before the number `s`, the test on the number may be dropped.
pub last_where_before :
    (q : RunEvent → Bool) (s n m : ℕ) (es : List RunEvent)
    → IsNumbered n es m
    → m < s
    → last_where (λ e. ltb e.seq s && q e) es ≡ last_where q es
unfolding last_where
last_where_before q s n m [] h lt = refl
last_where_before q s n m (e ∷ es) h lt =
    rw (last_where_before q s (suc n) m es h.1 lt)
      (ground (arith, IsNumbered-bounds (suc n) m es h.1))

-- From the number `s` on, no event has a smaller number.
pub last_where_not_before :
    (q : RunEvent → Bool) (s n m : ℕ) (es : List RunEvent)
    → IsNumbered n es m
    → s ≤ suc n
    → last_where (λ e. ltb e.seq s && q e) es ≡ none
unfolding last_where
last_where_not_before q s n m [] h le = refl
last_where_not_before q s n m (e ∷ es) h le =
    rw (last_where_not_before q s (suc n) m es h.1 (omega arith)) (ground arith)

-- From the number `s` on, the test on the number may be dropped.
pub last_where_from :
    (q : RunEvent → Bool) (s n m : ℕ) (es : List RunEvent)
    → IsNumbered n es m
    → s ≤ suc n
    → last_where (λ e. leb s e.seq && q e) es ≡ last_where q es
unfolding last_where
last_where_from q s n m [] h le = refl
last_where_from q s n m (e ∷ es) h le =
    rw (last_where_from q s (suc n) m es h.1 (omega arith)) (ground arith)

-- The events before the number `s` do not pass.
pub last_where_skip :
    (q : RunEvent → Bool) (s n k : ℕ) (xs ys : List RunEvent)
    → IsNumbered n xs k
    → k < s
    → last_where (λ e. leb s e.seq && q e) (xs ++ ys) ≡ last_where (λ e. leb s e.seq && q e) ys
unfolding last_where
last_where_skip q s n k [] ys h lt = refl
last_where_skip q s n k (x ∷ xs) ys h lt =
    rw (last_where_skip q s (suc n) k xs ys h.1 lt)
      (ground (arith, IsNumbered-bounds (suc n) k xs h.1))

-- Behind an event nothing newer stands, where nothing newer than it is in the log.
pub any_newer :
    (q : RunEvent → Bool) (k n : ℕ) (xs ys : List RunEvent) (e : RunEvent)
    → e.seq ≡ suc k
    → IsNumbered (suc k) ys n
    → any (λ x. ltb e.seq x.seq && q x) (xs ++ e ∷ ys) ≡ false
    → any q ys ≡ false
any_newer q k n xs ys e at num h =
    let behind = (any-append (λ x. ltb e.seq x.seq && q x) xs (e ∷ ys) h).1 in
    sym (any_behind q e.seq (suc k) n ys num (omega arith))
    ∙ (any-append (λ x. ltb e.seq x.seq && q x) (e ∷ []) ys behind).1
