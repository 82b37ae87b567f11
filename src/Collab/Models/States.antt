-- ===== src/Collab/Models/States.antt =====
-- The states that `parse_state_dict` of collab_runtime/models.py returned.
use imece_ide.Base.{
  ◌≡◌, refl, sym, subst, ◌∙◌, inl, inr, String, leb, str_eq, eq_iff, List, [], ◌∷◌, length,
  Bool-cases, ok, bind_inv, guard_inv, arith,
}
use imece_ide.Collab.Scopes.{is_plain_text, is_safe_id, is_sha_hex}
use imece_ide.Collab.Models.{
  SharedContext, Task, SessionState, sort_interfaces, valid_interfaces, all_plain, parse_context,
  parse_task, parse_tasks, parse_state, put_task, with_task, with_context,
}
use imece_ide.Collab.Models.Order.{Sorted, sort-Sorted, Sorted-sort}
use imece_ide.Collab.Models.Stable.{Parsed, parse_task-Parsed, Parsed-parse_task}

unfoldable pub AllParsed : List (String × Task) → Type 0
AllParsed [] = Unit
AllParsed ((k, t) ∷ ts) = Parsed k t × AllParsed ts

parse_tasks-AllParsed : (ts us : List (String × Task)) → parse_tasks ts ≡ ok us → AllParsed us
unfolding parse_tasks AllParsed
parse_tasks-AllParsed [] us h = subst AllParsed {x = []} (ground arith) tt
parse_tasks-AllParsed ((k, t) ∷ ts) us h =
    let (_, h) = guard_inv (is_safe_id k) _ h in
    let (u, p, h) = bind_inv (parse_task k t) _ h in
    let (rest, r, h) = bind_inv (parse_tasks ts) _ h in
    subst AllParsed {x = (k, u) ∷ rest} (ground arith)
      (parse_task-Parsed k t u p, parse_tasks-AllParsed ts rest r)

AllParsed-parse_tasks :
    (ts us : List (String × Task)) → AllParsed ts → parse_tasks ts ≡ ok us → us ≡ ts
unfolding parse_tasks AllParsed
AllParsed-parse_tasks [] us a h = ground arith
AllParsed-parse_tasks ((k, t) ∷ ts) us a h =
    let (_, h) = guard_inv (is_safe_id k) _ h in
    let (u, p, h) = bind_inv (parse_task k t) _ h in
    let (rest, r, h) = bind_inv (parse_tasks ts) _ h in
    let made : (k, u) ∷ rest ≡ us = ground arith in
    sym made ∙ rw (Parsed-parse_task k t u a.0 p, AllParsed-parse_tasks ts rest a.1 r) refl

-- What the parser returned: the interfaces of the context are sorted, and the tasks are normalised.
unfoldable pub ParsedState : SessionState → Type 0
ParsedState s = Sorted s.context.interfaces × AllParsed s.tasks

pub parse_context-Sorted : (x y : SharedContext) → parse_context x ≡ ok y → Sorted y.interfaces
unfolding parse_context
parse_context-Sorted x y h =
    let (_, h) = guard_inv (is_plain_text 4000 x.goal) _ h in
    let (_, h) = guard_inv (leb (length x.decisions) 64) _ h in
    let (_, h) = guard_inv (all_plain 2000 x.decisions) _ h in
    let (_, h) = guard_inv (leb (length x.interfaces) 64) _ h in
    let (_, h) = guard_inv (valid_interfaces x.interfaces) _ h in
    subst Sorted {x = sort_interfaces x.interfaces} (ground arith) (sort-Sorted x.interfaces)

Sorted-parse_context : (x y : SharedContext) → Sorted x.interfaces → parse_context x ≡ ok y → y ≡ x
unfolding parse_context
Sorted-parse_context x y s h =
    let (_, h) = guard_inv (is_plain_text 4000 x.goal) _ h in
    let (_, h) = guard_inv (leb (length x.decisions) 64) _ h in
    let (_, h) = guard_inv (all_plain 2000 x.decisions) _ h in
    let (_, h) = guard_inv (leb (length x.interfaces) 64) _ h in
    let (_, h) = guard_inv (valid_interfaces x.interfaces) _ h in
    let made : record x { interfaces = sort_interfaces x.interfaces } ≡ y = ground arith in
    sym made ∙ rw (Sorted-sort x.interfaces s) refl

pub parse_state-ParsedState : (s t : SessionState) → parse_state s ≡ ok t → ParsedState t
unfolding parse_state ParsedState
parse_state-ParsedState s t h =
    let (_, h) = guard_inv (is_safe_id s.session_id) _ h in
    let (_, h) = guard_inv (is_plain_text 200 s.target_version) _ h in
    let (_, h) = guard_inv (is_sha_hex s.base_commit) _ h in
    let (x, p, h) = bind_inv (parse_context s.context) _ h in
    let (_, h) = guard_inv (leb (length s.tasks) 256) _ h in
    let (ts, q, h) = bind_inv (parse_tasks s.tasks) _ h in
    let made : record s { context = x; tasks = ts } ≡ t = ground arith in
    subst ParsedState made (parse_context-Sorted s.context x p, parse_tasks-AllParsed s.tasks ts q)

pub ParsedState-parse_state : (s t : SessionState) → ParsedState s → parse_state s ≡ ok t → t ≡ s
unfolding parse_state ParsedState
ParsedState-parse_state s t a h =
    let (_, h) = guard_inv (is_safe_id s.session_id) _ h in
    let (_, h) = guard_inv (is_plain_text 200 s.target_version) _ h in
    let (_, h) = guard_inv (is_sha_hex s.base_commit) _ h in
    let (x, p, h) = bind_inv (parse_context s.context) _ h in
    let (_, h) = guard_inv (leb (length s.tasks) 256) _ h in
    let (ts, q, h) = bind_inv (parse_tasks s.tasks) _ h in
    let made : record s { context = x; tasks = ts } ≡ t = ground arith in
    sym made
    ∙ rw (Sorted-parse_context s.context x a.0 p, AllParsed-parse_tasks s.tasks ts a.1 q) refl

-- A state that was read back is read again as it is: what the parser returned, it returns unchanged or
-- refuses.
pub parse_state-stable :
    (s t u : SessionState) → parse_state s ≡ ok t → parse_state t ≡ ok u → u ≡ t
parse_state-stable s t u h k = ParsedState-parse_state t u (parse_state-ParsedState s t h) k

put_task-AllParsed :
    (t : Task) (ts : List (String × Task))
    → Parsed t.id t
    → AllParsed ts
    → AllParsed (put_task t ts)
unfolding put_task AllParsed
put_task-AllParsed t [] p a = (p, tt)
put_task-AllParsed t ((j, u) ∷ ts) p a = elim (Bool-cases (str_eq j t.id)) [
  | inl e ↦ rw e (subst (λ k. Parsed k t) (sym ((eq_iff j t.id).0 e)) p, a.1)
  | inr e ↦ rw e (a.0, put_task-AllParsed t ts p a.1)
]

pub with_task-ParsedState :
    (k : String) (raw t : Task) (s : SessionState)
    → parse_task k raw ≡ ok t
    → ParsedState s
    → ParsedState (with_task t s)
unfolding with_task ParsedState Parsed
with_task-ParsedState k raw t s h a =
    let p = parse_task-Parsed k raw t h in
    (a.0, put_task-AllParsed t s.tasks (subst (λ i. Parsed i t) (sym p.0) p) a.1)

pub with_context-ParsedState :
    (x y : SharedContext) (s : SessionState)
    → parse_context x ≡ ok y
    → ParsedState s
    → ParsedState (with_context y s)
unfolding with_context ParsedState
with_context-ParsedState x y s h a = (parse_context-Sorted x y h, a.1)
