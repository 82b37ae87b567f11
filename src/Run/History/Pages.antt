-- ===== src/Run/History/Pages.antt =====
-- The pages of `load_full_event_history` (run_runtime/readmodels.py) make up the exact prefix.
use Prim.Native.Nat.{min}
use imece_ide.Base.{
  ℕ, zero, suc, ◌+◌, ◌-◌, ◌≤◌, ◌<◌, String, false, ◌≡◌, refl, sym, ap, ◌∙◌, subst, ltb, leb, ◌==◌,
  some, List, [], ◌∷◌, ◌++◌, length, take, drop, take-append-drop, take-take-suc, length-take,
  length-append, append_assoc, append-nil, ok, arith, Bool-cases, inl, inr,
}
use imece_ide.Run.Models.{RunRecord}
use imece_ide.Run.Events.{RunEvent}
use imece_ide.Run.Store.{Store, rows_of, get_run}
use imece_ide.Run.Store.Consistency.{IsNumbered}
use imece_ide.Run.History.{
  rows_after, order_by_seq, select_rows, page_of, events, last_seq, history_loop,
  load_full_event_history, is_nil,
}

IsNumbered-le : (n m : ℕ) (es : List RunEvent) → IsNumbered n es m → n ≤ m
IsNumbered-le n m [] h = omega arith
IsNumbered-le n m (e ∷ es) h = omega (arith, IsNumbered-le (suc n) m es h.1)

pub length-IsNumbered : (n m : ℕ) (es : List RunEvent) → IsNumbered n es m → n + length es ≡ m
length-IsNumbered n m [] h = omega arith
length-IsNumbered n m (e ∷ es) h = omega (arith, length-IsNumbered (suc n) m es h.1)

pub last_seq-IsNumbered : (n m : ℕ) (es : List RunEvent) → IsNumbered n es m → last_seq n es ≡ m
last_seq-IsNumbered n m [] h = h
last_seq-IsNumbered n m (e ∷ es) h = rw h.0 (last_seq-IsNumbered (suc n) m es h.1)

pub IsNumbered-append :
    (n m k : ℕ) (xs ys : List RunEvent)
    → IsNumbered n xs m
    → IsNumbered m ys k
    → IsNumbered n (xs ++ ys) k
IsNumbered-append n m k [] ys h q = rw h q
IsNumbered-append n m k (x ∷ xs) ys h q = (h.0, IsNumbered-append (suc n) m k xs ys h.1 q)

pub IsNumbered-take :
    (l n m : ℕ) (es : List RunEvent)
    → IsNumbered n es m
    → n + l ≤ m
    → IsNumbered n (take l es) (n + l)
IsNumbered-take zero n m es h q = omega arith
IsNumbered-take (suc l) n m [] h q = absurd (omega arith)
IsNumbered-take (suc l) n m (e ∷ es) h q = (
  h.0,
  subst (IsNumbered (suc n) (take l es)) (omega arith)
      (IsNumbered-take l (suc n) m es h.1 (omega arith)),
)

pub IsNumbered-drop :
    (l n m : ℕ) (es : List RunEvent)
    → IsNumbered n es m
    → n + l ≤ m
    → IsNumbered (n + l) (drop l es) m
IsNumbered-drop zero n m es h q = subst (λ k. IsNumbered k es m) (omega arith) h
IsNumbered-drop (suc l) n m [] h q = absurd (omega arith)
IsNumbered-drop (suc l) n m (e ∷ es) h q =
    subst (λ k. IsNumbered k (drop l es) m) (omega arith)
      (IsNumbered-drop l (suc n) m es h.1 (omega arith))

-- The rows beyond `a` of a log that is split at `a`.
rows_after_all : (a n m : ℕ) (es : List RunEvent) → a ≤ n → IsNumbered n es m → rows_after a es ≡ es
unfolding rows_after
rows_after_all a n m [] q h = refl
rows_after_all a n m (e ∷ es) q h = ground (arith, rows_after_all a (suc n) m es (omega arith) h.1)

rows_after-append :
    (n a m : ℕ) (xs ys : List RunEvent)
    → IsNumbered n xs a
    → IsNumbered a ys m
    → rows_after a (xs ++ ys) ≡ ys
unfolding rows_after
rows_after-append n a m [] ys h q = rows_after_all a a m ys (omega arith) q
rows_after-append n a m (x ∷ xs) ys h q =
    ground (arith, rows_after-append (suc n) a m xs ys h.1 q, IsNumbered-le (suc n) a xs h.1)

pub order-IsNumbered : (n m : ℕ) (es : List RunEvent) → IsNumbered n es m → order_by_seq es ≡ es
unfolding order_by_seq
order-IsNumbered n m [] h = refl
order-IsNumbered n m (e ∷ []) h = refl
order-IsNumbered n m (e ∷ x ∷ es) h = rw (order-IsNumbered (suc n) m (x ∷ es) h.1) (ground arith)

-- A page of at most `limit` rows of a numbered tail.
page_of_lem :
    (l a m : ℕ) (tail : List RunEvent)
    → IsNumbered a tail m
    → page_of l tail ≡ record { events = take l tail; has_more = ltb (a + l) m }
unfolding page_of
page_of_lem l a m tail h =
    let size = length-IsNumbered a m tail h in
    let fetched = length-take (suc l) tail in rw (take-take-suc l tail) (ground (arith, fetched))

select_rows_lem :
    (k : String) (a m : ℕ) (s : Store) (acc tail : List RunEvent)
    → rows_of k s.events ≡ acc ++ tail
    → IsNumbered 0 acc a
    → IsNumbered a tail m
    → select_rows k a s ≡ tail
unfolding select_rows
select_rows_lem k a m s acc tail split h q =
    rw (split, rows_after-append 0 a m acc tail h q) (order-IsNumbered a m tail q)

events_lem :
    (k : String) (a m limit : ℕ) (s : Store) (acc tail : List RunEvent) (r : RunRecord)
    → get_run k s ≡ ok r
    → rows_of k s.events ≡ acc ++ tail
    → IsNumbered 0 acc a
    → IsNumbered a tail m
    → 0 < limit
    → events k a limit s
      ≡ ok (record { events = take (min limit 200) tail; has_more = ltb (a + min limit 200) m })
unfolding events
events_lem k a m limit s acc tail r found split h q pos =
    let zero_test : (limit == 0) ≡ false = ground arith in
    rw (
      zero_test,
      found,
      select_rows_lem k a m s acc tail split h q,
      page_of_lem (min limit 200) a m tail q,
    )

-- The events `1 … n` of a run, and that they begin its log.
pub record IsPrefixOf (n : ℕ) (es : List RunEvent) (rows : List RunEvent) : Type 0 where
  pub rest : List RunEvent
  pub split : es ++ rest ≡ rows
  pub numbered : IsNumbered 0 es n

not_nil : (xs : List RunEvent) → 0 < length xs → is_nil xs ≡ false
not_nil [] h = absurd (omega arith)
not_nil (x ∷ xs) h = refl

history_exact :
    (fuel : ℕ) (k : String) (size a n m : ℕ) (s : Store) (acc tail : List RunEvent) (r : RunRecord)
    → get_run k s ≡ ok r
    → rows_of k s.events ≡ acc ++ tail
    → IsNumbered 0 acc a
    → IsNumbered a tail m
    → a < n
    → n ≤ m
    → 0 < size
    → n ≤ fuel + a
    → (es : List RunEvent) × (history_loop fuel k size (some n) a acc s ≡ ok es)
      × IsPrefixOf n es (rows_of k s.events)
unfolding history_loop
history_exact zero k size a n m s acc tail r found split h q low high pos enough =
    absurd (omega arith)
history_exact (suc fuel) k size a n m s acc tail r found split h q low high pos enough =
    let limit = min size (n - a) in
    let l = min limit 200 in
    let page = events_lem k a m limit s acc tail r found split h q (omega arith) in
    let taken = IsNumbered-take l a m tail q (omega arith) in
    let left = IsNumbered-drop l a m tail q (omega arith) in
    let last = last_seq-IsNumbered a (a + l) (take l tail) taken in
    let acc2 = acc ++ take l tail in
    let numbered = IsNumbered-append 0 a (a + l) acc (take l tail) h taken in
    let split2 : rows_of k s.events ≡ acc2 ++ drop l tail =
      split ∙ rw (append_assoc, take-append-drop l tail) in
    let full =
      not_nil (take l tail) (omega (arith, length-IsNumbered a (a + l) (take l tail) taken)) in
    elim (Bool-cases (leb n (a + l))) [
      | inl done ↦ (
        acc2,
        ground (arith, page, full, last, last_seq-IsNumbered 0 (a + l) acc2 numbered),
        record {
          rest = drop l tail;
          split = sym split2;
          numbered = subst (IsNumbered 0 acc2) (ground arith) numbered;
        },
      )
      | inr more ↦
          let (es, run, exact) =
            history_exact fuel k size (a + l) n m s acc2 (drop l tail) r found split2 numbered left
              (ground arith) high pos (omega arith) in
          (es, ground (arith, page, full, last, run), exact)
    ]

-- The events `1 … n` of a run are read whole and in order, with any page size, within any number of
-- pages that is at least the number of the events: reading takes at most one page for each event.
pub load-exact :
    (fuel : ℕ) (k : String) (size n : ℕ) (s : Store) (r : RunRecord)
    → get_run k s ≡ ok r
    → IsNumbered 0 (rows_of k s.events) r.last_event_seq
    → n ≤ r.last_event_seq
    → 0 < size
    → n ≤ fuel
    → (es : List RunEvent) × (load_full_event_history fuel k size (some n) s ≡ ok es)
      × IsPrefixOf n es (rows_of k s.events)
unfolding load_full_event_history
load-exact fuel k size zero s r found w high pos enough =
    ([], refl, record { rest = rows_of k s.events; split = refl; numbered = refl })
load-exact fuel k size (suc n) s r found w high pos enough =
    history_exact fuel k size 0 (suc n) r.last_event_seq s [] (rows_of k s.events) r found refl refl
      w (omega arith) high pos (omega (arith, enough))

no_rest :
    (n : ℕ) (es rest : List RunEvent)
    → IsNumbered 0 es n
    → IsNumbered 0 (es ++ rest) n
    → es ≡ es ++ rest
no_rest n es [] a b = sym (append-nil es)
no_rest n es (x ∷ rest) a b = absurd (
    omega (
      arith,
      length-IsNumbered 0 n es a,
      length-IsNumbered 0 n (es ++ x ∷ rest) b,
      length-append {0} es (x ∷ rest),
    ))

whole_prefix :
    (n : ℕ) (es rest rows : List RunEvent)
    → es ++ rest ≡ rows
    → IsNumbered 0 es n
    → IsNumbered 0 rows n
    → es ≡ rows
whole_prefix n es rest rows split a b =
    no_rest n es rest a (subst (λ l. IsNumbered 0 l n) (sym split) b) ∙ split

-- All events of a run, where the reader asks for the run's own `last_event_seq`.
pub load-all :
    (k : String) (size : ℕ) (s : Store) (r : RunRecord)
    → get_run k s ≡ ok r
    → IsNumbered 0 (rows_of k s.events) r.last_event_seq
    → 0 < size
    → load_full_event_history (suc r.last_event_seq) k size (some r.last_event_seq) s
      ≡ ok (rows_of k s.events)
load-all k size s r found w pos =
    let (es, run, p) =
      load-exact (suc r.last_event_seq) k size r.last_event_seq s r found w (omega arith) pos
        (omega arith) in
    run ∙ ap ok (whole_prefix r.last_event_seq es p.rest (rows_of k s.events) p.split p.numbered w)
