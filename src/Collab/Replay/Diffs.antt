-- ===== src/Collab/Replay/Diffs.antt =====
-- What the events of `Coordinator.replay` of collab_runtime/coordinator.py say of two states.
use imece_ide.Base.{
  ◌≡◌, ◌≢◌, ◌↔◌, refl, sym, ap, subst, ◌∙◌, inl, inr, String, Bool, true, false, not, ◌&&◌, ◌||◌,
  str_eq, eq_iff, Option, none, Bool-cases, List, [], ◌∷◌, map, any, arith,
}
use imece_ide.Collab.Models.{SharedContext, Task, SessionState, find_task, precedes}
use imece_ide.Collab.Coordinator.{is_key}
use imece_ide.Collab.Replay.Same.{same_context→≡, same_context_refl, same_entry→≡, same_entry_refl}
use imece_ide.Collab.Replay.{
  same_context, same_entry, insert_text, sorted_ids, all_ids, changed_ids, replay_event,
}

abbrev lists : String → List String → Bool
lists id xs = any (λ x. str_eq x id) xs

insert_lists :
    (id x : String) (ys : List String) → lists id (insert_text x ys) ≡ (str_eq x id || lists id ys)
unfolding insert_text
insert_lists id x [] = refl
insert_lists id x (y ∷ ys) = elim (Bool-cases (precedes x y)) [
  | inl e ↦ rw e refl
  | inr e ↦ rw e (ground (arith, insert_lists id x ys))
]

sorted_lists :
    (id : String) (p : String → Bool) (xs : List String)
    → lists id (sorted_ids p xs) ≡ (p id && lists id xs)
unfolding sorted_ids
sorted_lists id p [] = ground arith
sorted_lists id p (x ∷ xs) = elim (Bool-cases (str_eq x id)) [
  | inl e ↦
      let same : p x ≡ p id = ap p ((eq_iff x id).0 e) in
      elim (Bool-cases (p x)) [
        | inl k ↦ rw k (ground (arith, e, k, same, insert_lists id x (sorted_ids p xs)))
        | inr k ↦ rw k (ground (arith, e, k, same, sorted_lists id p xs))
      ]
  | inr e ↦ elim (Bool-cases (p x)) [
    | inl k ↦ rw k (ground (arith, e, insert_lists id x (sorted_ids p xs), sorted_lists id p xs))
    | inr k ↦ rw k (ground (arith, e, sorted_lists id p xs))
  ]
]

keys_lists : (id : String) (ts : List (String × Task)) → lists id (map (λ e. e.0) ts) ≡ is_key id ts
keys_lists id [] = refl
keys_lists id (e ∷ ts) = ap (str_eq e.0 id ||◌) (keys_lists id ts)

all_lists :
    (id : String) (old new : List (String × Task))
    → lists id (all_ids old new) ≡ (is_key id old || is_key id new)
unfolding all_ids
all_lists id old [] = ground (arith, keys_lists id old)
all_lists id old ((k, t) ∷ ts) = elim (Bool-cases (is_key k old)) [
  | inl e ↦ elim (Bool-cases (str_eq k id)) [
    | inl same ↦
        let there : is_key id old ≡ true =
          subst (λ x. is_key x old ≡ true) ((eq_iff k id).0 same) e in
        rw e (ground (arith, same, there, all_lists id old ts))
    | inr other ↦ rw e (ground (arith, other, all_lists id old ts))
  ]
  | inr e ↦ rw e (ground (arith, all_lists id old ts))
]

find_none :
    (id : String) (ts : List (String × Task)) → is_key id ts ≡ false → find_task id ts ≡ none
unfolding find_task
find_none id [] h = refl
find_none id ((k, t) ∷ ts) h =
    let other : str_eq k id ≡ false = ground arith in rw other (find_none id ts (ground arith))

entries_differ : (t u : Option Task) → (not (same_entry t u) ≡ true) ↔ (t ≢ u)
entries_differ t u = (
  λ h e.
      let same : same_entry t u ≡ true = subst (λ x. same_entry t x ≡ true) e (same_entry_refl t) in
      ground (arith, h, same),
  λ n. elim (Bool-cases (same_entry t u)) [
    | inl e ↦ absurd (n (same_entry→≡ t u e))
    | inr e ↦ ground (arith, e)
  ],
)

contexts_differ : (x y : SharedContext) → (not (same_context x y) ≡ true) ↔ (x ≢ y)
contexts_differ x y = (
  λ h e.
      let same : same_context x y ≡ true =
        subst (λ z. same_context x z ≡ true) e (same_context_refl x) in
      ground (arith, h, same),
  λ n. elim (Bool-cases (same_context x y)) [
    | inl e ↦ absurd (n (same_context→≡ x y e))
    | inr e ↦ ground (arith, e)
  ],
)

differ_key :
    (id : String) (old new : List (String × Task))
    → find_task id old ≢ find_task id new
    → (is_key id old || is_key id new) ≡ true
differ_key id old new n = elim (Bool-cases (is_key id old || is_key id new)) [
  | inl e ↦ e
  | inr e ↦ absurd (n (find_none id old (ground arith) ∙ sym (find_none id new (ground arith))))
]

changed_lists :
    (id : String) (old new : List (String × Task))
    → lists id (changed_ids old new)
      ≡ (not (same_entry (find_task id old) (find_task id new)) && (is_key id old || is_key id new))
unfolding changed_ids
changed_lists id old new =
    sorted_lists id (λ i. not (same_entry (find_task i old) (find_task i new))) (all_ids old new)
    ∙ ap (not (same_entry (find_task id old) (find_task id new)) &&◌) (all_lists id old new)

-- An event of a replay names exactly the tasks that differ between the two states, those that were
-- added or removed included, and says that the context changed exactly if it did.
pub replay_event-changes :
    (before revision : String) (old new : SessionState) (id : String)
    → ((any (λ x. str_eq x id) (replay_event before old revision new).changed_task_ids ≡ true)
        ↔ (find_task id old.tasks ≢ find_task id new.tasks))
      × (((replay_event before old revision new).context_changed ≡ true)
          ↔ (old.context ≢ new.context))
unfolding replay_event
replay_event-changes before revision old new id =
    let listed = changed_lists id old.tasks new.tasks in
    let differ = entries_differ (find_task id old.tasks) (find_task id new.tasks) in
    (
      (
        λ h. differ.0 (ground (arith, listed, h)),
        λ n. ground (arith, listed, differ.1 n, differ_key id old.tasks new.tasks n),
      ),
      contexts_differ old.context new.context,
    )
