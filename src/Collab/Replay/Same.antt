-- ===== src/Collab/Replay/Same.antt =====
-- Equality of the tasks and contexts of a session, as collab_runtime/coordinator.py compares them.
use imece_ide.Base.{
  ◌≡◌, refl, ap, String, true, str_eq, eq_iff, eq_refl, Option, none, some, List, [], ◌∷◌, arith,
}
use imece_ide.Collab.Models.{SharedContext, TaskStatus, queued, running, waiting, done, Task}
use imece_ide.Collab.Replay.{
  same_texts, same_pairs, same_status, same_context, same_task, same_entry,
}

text : (a b : String) → str_eq a b ≡ true → a ≡ b
text a b h = (eq_iff a b).0 h

same_texts→≡ : (xs ys : List String) → same_texts xs ys ≡ true → xs ≡ ys
unfolding same_texts
same_texts→≡ [] [] h = refl
same_texts→≡ [] (y ∷ ys) h = absurd (ground arith)
same_texts→≡ (x ∷ xs) [] h = absurd (ground arith)
same_texts→≡ (x ∷ xs) (y ∷ ys) h =
    let a : str_eq x y ≡ true = ground arith in
    let b : same_texts xs ys ≡ true = ground arith in rw (text x y a, same_texts→≡ xs ys b) refl

same_pairs→≡ : (xs ys : List (String × String)) → same_pairs xs ys ≡ true → xs ≡ ys
unfolding same_pairs
same_pairs→≡ [] [] h = refl
same_pairs→≡ [] (y ∷ ys) h = absurd (ground arith)
same_pairs→≡ (x ∷ xs) [] h = absurd (ground arith)
same_pairs→≡ ((k, v) ∷ xs) ((j, w) ∷ ys) h =
    let a : str_eq k j ≡ true = ground arith in
    let b : str_eq v w ≡ true = ground arith in
    let c : same_pairs xs ys ≡ true = ground arith in
    rw (text k j a, text v w b, same_pairs→≡ xs ys c) refl

same_texts_refl : (xs : List String) → same_texts xs xs ≡ true
unfolding same_texts
same_texts_refl [] = refl
same_texts_refl (x ∷ xs) = rw (eq_refl x, same_texts_refl xs) refl

same_pairs_refl : (xs : List (String × String)) → same_pairs xs xs ≡ true
unfolding same_pairs
same_pairs_refl [] = refl
same_pairs_refl ((k, v) ∷ xs) = rw (eq_refl k, eq_refl v, same_pairs_refl xs) refl

same_status→≡ : (s t : TaskStatus) → same_status s t ≡ true → s ≡ t
unfolding same_status
same_status→≡ s t h = ground arith

same_status_refl : (s : TaskStatus) → same_status s s ≡ true
unfolding same_status
same_status_refl queued = refl
same_status_refl running = refl
same_status_refl waiting = refl
same_status_refl done = refl

pub same_context→≡ : (x y : SharedContext) → same_context x y ≡ true → x ≡ y
unfolding same_context
same_context→≡ x y h =
    let a : str_eq x.goal y.goal ≡ true = ground arith in
    let b : same_texts x.decisions y.decisions ≡ true = ground arith in
    let c : same_pairs x.interfaces y.interfaces ≡ true = ground arith in
    λ i. record {
      goal = text x.goal y.goal a i;
      decisions = same_texts→≡ x.decisions y.decisions b i;
      interfaces = same_pairs→≡ x.interfaces y.interfaces c i;
    }

pub same_context_refl : (x : SharedContext) → same_context x x ≡ true
unfolding same_context
same_context_refl x =
    rw (eq_refl x.goal, same_texts_refl x.decisions, same_pairs_refl x.interfaces) refl

same_task→≡ : (t u : Task) → same_task t u ≡ true → t ≡ u
unfolding same_task
same_task→≡ t u h =
    let a : str_eq t.id u.id ≡ true = ground arith in
    let b : str_eq t.owner u.owner ≡ true = ground arith in
    let c : str_eq t.goal u.goal ≡ true = ground arith in
    let d : same_texts t.scopes u.scopes ≡ true = ground arith in
    let e : same_status t.status u.status ≡ true = ground arith in
    let f : str_eq t.context_revision u.context_revision ≡ true = ground arith in
    λ i. record {
      id = text t.id u.id a i;
      owner = text t.owner u.owner b i;
      goal = text t.goal u.goal c i;
      scopes = same_texts→≡ t.scopes u.scopes d i;
      status = same_status→≡ t.status u.status e i;
      context_revision = text t.context_revision u.context_revision f i;
    }

same_task_refl : (t : Task) → same_task t t ≡ true
unfolding same_task
same_task_refl t =
    rw
      (
        eq_refl t.id,
        eq_refl t.owner,
        eq_refl t.goal,
        same_texts_refl t.scopes,
        same_status_refl t.status,
        eq_refl t.context_revision,
      )
      refl

pub same_entry→≡ : (t u : Option Task) → same_entry t u ≡ true → t ≡ u
unfolding same_entry
same_entry→≡ none none h = refl
same_entry→≡ none (some u) h = absurd (ground arith)
same_entry→≡ (some t) none h = absurd (ground arith)
same_entry→≡ (some t) (some u) h = ap some (same_task→≡ t u h)

pub same_entry_refl : (t : Option Task) → same_entry t t ≡ true
unfolding same_entry
same_entry_refl none = refl
same_entry_refl (some t) = same_task_refl t
