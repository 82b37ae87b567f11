-- ===== src/Run/Recovery/Among.antt =====
-- A draft among the drafts of run_runtime/recovery.py, and the two ends of a start in its scan.
use imece_ide.Base.{
  String, true, ◌≡◌, ◌⊎◌, refl, sym, ap, ◌∙◌, some, List, [], ◌∷◌, ◌++◌, append_assoc, Bool-cases,
  Option-cases, inl, inr,
}
use imece_ide.Run.Events.{RunEvent}
use imece_ide.Run.Recovery.Drafts.{
  Draft, Family, family_drafts, text_at, next_start_seq, is_closed, close,
}

-- A draft among others.
pub record IsAmong (d : Draft) (ds : List Draft) : Type 0 where
  pub before : List Draft
  pub after : List Draft
  pub split : ds ≡ before ++ d ∷ after

first-IsAmong : (d : Draft) (ds : List Draft) → IsAmong d (d ∷ ds)
first-IsAmong d ds = record { before = []; after = ds; split = refl }

pub after-IsAmong : (d : Draft) (xs ds : List Draft) → IsAmong d ds → IsAmong d (xs ++ ds)
after-IsAmong d xs ds i = record {
  before = xs ++ i.before;
  after = i.after;
  split = ap (λ l. xs ++ l) i.split ∙ sym (append_assoc xs i.before (d ∷ i.after));
}

pub before-IsAmong : (d : Draft) (ds xs : List Draft) → IsAmong d ds → IsAmong d (ds ++ xs)
before-IsAmong d ds xs i = record {
  before = i.before;
  after = i.after ++ xs;
  split = ap (λ l. l ++ xs) i.split ∙ append_assoc i.before (d ∷ i.after) xs;
}

-- The start `e` of the history counts as closed, or a draft closes it.
abbrev pub IsSettledStart :
    Family → List RunEvent → RunEvent → List RunEvent → String → List Draft → Type 0
IsSettledStart f history e later id ds =
    (is_closed f.ends f.key id (next_start_seq (λ x. f.starts x.type) f.key id later) e.seq history
      ≡ true)
    ⊎ IsAmong (close f.interrupted f.key id (f.correlates e id)) ds

here-IsSettledStart :
    (f : Family) (history later : List RunEvent) (e : RunEvent) (id : String)
    → f.starts e.type ≡ true
    → text_at f.key e.payload ≡ some id
    → IsSettledStart f history e later id (family_drafts f history (e ∷ later))
unfolding family_drafts
here-IsSettledStart f history later e id s t =
    let next = next_start_seq (λ x. f.starts x.type) f.key id later in
    elim (Bool-cases (is_closed f.ends f.key id next e.seq history)) [
      | inl closed ↦ inl closed
      | inr open_ ↦ inr (
          rw (s, t, family_drafts, open_)
            (after-IsAmong _ (f.parts history id next e) _ (first-IsAmong _ _)))
    ]

skip-IsAmong :
    (f : Family) (history events : List RunEvent) (x : RunEvent) (d : Draft)
    → IsAmong d (family_drafts f history events)
    → IsAmong d (family_drafts f history (x ∷ events))
unfolding family_drafts
skip-IsAmong f history events x d i = elim (Bool-cases (f.starts x.type)) [
  | inr s ↦ rw (s, family_drafts) i
  | inl s ↦ elim (Option-cases (text_at f.key x.payload)) [
    | inl t ↦ rw (s, t, family_drafts) i
    | inr (id, t) ↦
        let next = next_start_seq (λ y. f.starts y.type) f.key id events in
        elim (Bool-cases (is_closed f.ends f.key id next x.seq history)) [
          | inl c ↦ rw (s, t, c, family_drafts) (after-IsAmong d (f.parts history id next x) _ i)
          | inr c ↦
              rw (s, t, c, family_drafts)
                (after-IsAmong d (f.parts history id next x) _
                  (after-IsAmong d (close f.interrupted f.key id (f.correlates x id) ∷ []) _ i))
        ]
  ]
]

pub family_drafts-IsSettledStart :
    (f : Family) (history earlier later : List RunEvent) (e : RunEvent) (id : String)
    → f.starts e.type ≡ true
    → text_at f.key e.payload ≡ some id
    → IsSettledStart f history e later id (family_drafts f history (earlier ++ e ∷ later))
family_drafts-IsSettledStart f history [] later e id s t =
    here-IsSettledStart f history later e id s t
family_drafts-IsSettledStart f history (x ∷ earlier) later e id s t =
    elim (family_drafts-IsSettledStart f history earlier later e id s t) [
      | inl closed ↦ inl closed
      | inr i ↦ inr (skip-IsAmong f history (earlier ++ e ∷ later) x _ i)
    ]
