-- ===== src/Run/Tail/Rows.antt =====
-- The rows that a reader at a cursor has not read, for `DurableEventTail` of run_runtime/service.py.

use imece_ide.Base.{
  ℕ, zero, suc, ◌-◌, ◌≤◌, String, ◌≡◌, refl, sym, ap, ◌∙◌, subst, ltb, leb, List, [], ◌∷◌, ◌++◌,
  length, take, drop, take-append-drop, append_assoc, append-nil, leb→le, leb→gt, length-append,
  drop-nil, drop_all, ok, arith, Bool-cases, inl, inr,
}
use imece_ide.Run.Models.{RunRecord}
use imece_ide.Run.Events.{RunEvent}
use imece_ide.Run.Store.{Store, rows_of, get_run}
use imece_ide.Run.Store.Consistency.{IsNumbered}
use imece_ide.Run.History.{rows_after, order_by_seq, select_rows, last_seq}
use imece_ide.Run.History.Pages.{
  IsNumbered-append, IsNumbered-take, IsNumbered-drop, last_seq-IsNumbered, length-IsNumbered,
  order-IsNumbered,
}

rows_after-drop :
    (n a m : ℕ) (es : List RunEvent) → IsNumbered n es m → rows_after a es ≡ drop (a - n) es
unfolding rows_after
rows_after-drop n a m [] h = sym (drop-nil (a - n))
rows_after-drop n a m (e ∷ es) h = elim (Bool-cases (ltb a e.seq)) [
  | inl before ↦
      let here : a - n ≡ 0 = ground arith in
      let next : a - suc n ≡ 0 = ground arith in
      rw (before, here) (ap (e ∷◌) (rows_after-drop (suc n) a m es h.1 ∙ ap (λ k. drop k es) next))
  | inr after ↦
      let here : a - n ≡ suc (a - suc n) = ground arith in
      rw (after, here) (rows_after-drop (suc n) a m es h.1)
]

-- Some rows of a numbered list are numbered.
IsNumbered-some :
    (l n m : ℕ) (es : List RunEvent) → IsNumbered n es m → (c : ℕ) × IsNumbered n (take l es) c
IsNumbered-some zero n m es h = (n, refl)
IsNumbered-some (suc l) n m [] h = (n, refl)
IsNumbered-some (suc l) n m (e ∷ es) h =
    let (c, q) = IsNumbered-some l (suc n) m es h.1 in (c, (h.0, q))

take-take : (a j : ℕ) (es : List RunEvent) → a ≤ j → take a (take j es) ≡ take a es
take-take zero j es h = refl
take-take (suc a) zero es h = absurd (omega arith)
take-take (suc a) (suc j) [] h = refl
take-take (suc a) (suc j) (e ∷ es) h = ap (e ∷◌) (take-take a j es (omega arith))

take-append : (xs ys : List RunEvent) → take (length xs) (xs ++ ys) ≡ xs
take-append [] ys = refl
take-append (x ∷ xs) ys = ap (x ∷◌) (take-append xs ys)

order_nil : order_by_seq [] ≡ []
unfolding order_by_seq
order_nil = refl

-- The log of a run as far as a moment shows it: its first `j` events.
pub record Shows (k : String) (log : List RunEvent) (s : Store) : Type 0 where
  pub run : RunRecord
  pub found : get_run k s ≡ ok run
  pub count : ℕ
  pub bound : count ≤ length log
  pub rows : rows_of k s.events ≡ take count log

-- A reader that had the first `a` events is given `es`, and then has the first `b` events.
pub record Moved (log : List RunEvent) (a : ℕ) (es : List RunEvent) (b : ℕ) : Type 0 where
  pub joined : take a log ++ es ≡ take b log
  pub bound : b ≤ length log

pub stays : (log : List RunEvent) (a : ℕ) → a ≤ length log → Moved log a [] a
stays log a h = record { joined = append-nil (take a log); bound = h }

module _ (k : String) (log : List RunEvent) (numbered : IsNumbered 0 log (length log)) where
  pub shown-IsNumbered : (j : ℕ) → j ≤ length log → IsNumbered 0 (take j log) j
  shown-IsNumbered j h =
      subst (IsNumbered 0 (take j log)) (omega arith)
        (IsNumbered-take j 0 (length log) log numbered (omega arith))

  pub tail-IsNumbered : (a j : ℕ) → a ≤ j → j ≤ length log → IsNumbered a (drop a (take j log)) j
  tail-IsNumbered a j low high =
      subst (λ n. IsNumbered n (drop a (take j log)) j) (omega arith)
        (IsNumbered-drop a 0 j (take j log) (shown-IsNumbered j high) (omega arith))

  order_lem : (a j : ℕ) → j ≤ length log → order_by_seq (drop a (take j log)) ≡ drop a (take j log)
  order_lem a j high = elim (Bool-cases (leb a j)) [
    | inl low ↦ order-IsNumbered a j _ (tail-IsNumbered a j (leb→le a j low) high)
    | inr past ↦
        let size = length-IsNumbered 0 j (take j log) (shown-IsNumbered j high) in
        let gone = leb→gt a j past in rw (drop_all a (take j log) (omega arith)) order_nil
  ]

  pub unread :
      (a : ℕ) (s : Store) (w : Shows k log s) → select_rows k a s ≡ drop a (take w.count log)
  unfolding select_rows
  unread a s w =
      let shown = shown-IsNumbered w.count w.bound in
      let same : a - 0 ≡ a = omega arith in
      let after =
        rows_after-drop 0 a w.count (take w.count log) shown
        ∙ ap (λ n. drop n (take w.count log)) same in
      rw (w.rows, after) (order_lem a w.count w.bound)

  pub page-Moved :
      (a l j : ℕ)
      → a ≤ j
      → j ≤ length log
      → Moved log a (take l (drop a (take j log))) (last_seq a (take l (drop a (take j log))))
  page-Moved a l j low high =
      let tail = drop a (take j log) in
      let got = take l tail in
      let (c, counted) = IsNumbered-some l a j tail (tail-IsNumbered a j low high) in
      let last = last_seq-IsNumbered a c got counted in
      let before = take a log in
      let all = IsNumbered-append 0 a c before got (shown-IsNumbered a (omega arith)) counted in
      let rest = drop l tail ++ drop j log in
      let split : (before ++ got) ++ rest ≡ log =
        append_assoc before got rest
        ∙ ap (before ++◌) (sym (append_assoc got (drop l tail) (drop j log)))
        ∙ ap (λ t. before ++ (t ++ drop j log)) (take-append-drop l tail)
        ∙ ap (λ t. t ++ (tail ++ drop j log)) (sym (take-take a j log low))
        ∙ sym (append_assoc (take a (take j log)) tail (drop j log))
        ∙ ap (λ t. t ++ drop j log) (take-append-drop a (take j log))
        ∙ take-append-drop j log in
      let size = length-IsNumbered 0 c (before ++ got) all in
      let whole : take c log ≡ before ++ got =
        ap (take c) (sym split)
        ∙ ap (λ n. take n ((before ++ got) ++ rest)) (omega arith)
        ∙ take-append (before ++ got) rest in
      record {
        joined = rw last (sym whole);
        bound = rw last (
            omega
              (arith, length-append {0} (before ++ got) rest, ap (length {A = RunEvent}) split));
      }
