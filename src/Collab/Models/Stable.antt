-- ===== src/Collab/Models/Stable.antt =====
-- The parsers of collab_runtime/models.py on what they returned.
use imece_ide.Base.{
  ◌≡◌, refl, sym, subst, ◌∙◌, inl, inr, String, false, leb, str_eq, codes, if◌then◌else◌, List, [],
  ◌∷◌, length, any, Bool-cases, ok, bind_inv, guard_inv, arith,
}
use imece_ide.Collab.Scopes.{scope_path, is_drive, is_plain_text, is_safe_id, is_sha_hex}
use imece_ide.Collab.Scopes.Stable.{scope_path-stable}
use imece_ide.Collab.Models.{Task, parse_scopes, parse_task}

scope_again : (v p q : String) → scope_path v ≡ ok p → scope_path p ≡ ok q → q ≡ p
scope_again v p q h k =
    let e = sym (scope_path-stable v p h) ∙ k in
    elim (Bool-cases (is_drive (codes p))) [
      | inl d ↦ absurd (ground (arith, d, e))
      | inr d ↦ ground (arith, d, e)
    ]

-- The scopes are new after those that were seen, and normalised.
pub Fresh : List String → List String → Type 0
Fresh seen [] = Unit
Fresh seen (y ∷ ys) =
    (any (λ x. str_eq x y) seen ≡ false)
    × ((q : String) → scope_path y ≡ ok q → q ≡ y)
    × Fresh (y ∷ seen) ys

Within : List String → List String → Type 0
Within small big =
    (y : String) → any (λ x. str_eq x y) big ≡ false → any (λ x. str_eq x y) small ≡ false

Fresh-Within : (small big ys : List String) → Within small big → Fresh big ys → Fresh small ys
unfolding Fresh Within
Fresh-Within small big [] w f = tt
Fresh-Within small big (y ∷ ys) w f =
    (w y f.0, f.1, Fresh-Within (y ∷ small) (y ∷ big) ys (λ z h. ground (arith, w z)) f.2)

Fresh-result : (seen xs ys : List String) → xs ≡ ys → Fresh seen xs → Fresh seen ys
Fresh-result seen xs ys e f = subst (Fresh seen) e f

parse_scopes-Fresh : (seen xs ys : List String) → parse_scopes seen xs ≡ ok ys → Fresh seen ys
unfolding parse_scopes Fresh Within
parse_scopes-Fresh seen [] ys h = Fresh-result seen [] ys (ground arith) tt
parse_scopes-Fresh seen (x ∷ xs) ys h =
    let (scope, s, h) = bind_inv (scope_path x) _ h in
    let (rest, r, h) = bind_inv (parse_scopes (scope ∷ seen) xs) _ h in
    let tail = parse_scopes-Fresh (scope ∷ seen) xs rest r in
    elim (Bool-cases (any (λ y. str_eq y scope) seen)) [
      | inl e ↦
          Fresh-result seen rest ys (ground (arith, e, h))
            (Fresh-Within seen (scope ∷ seen) rest (λ z k. ground (arith, k)) tail)
      | inr e ↦
          Fresh-result seen (scope ∷ rest) ys (ground (arith, e, h))
            (e, (λ q k. scope_again x scope q s k), tail)
    ]

Fresh-parse_scopes :
    (seen ys zs : List String) → Fresh seen ys → parse_scopes seen ys ≡ ok zs → zs ≡ ys
unfolding parse_scopes Fresh
Fresh-parse_scopes seen [] zs f h = ground arith
Fresh-parse_scopes seen (y ∷ ys) zs f h =
    let (scope, s, h) = bind_inv (scope_path y) _ h in
    let (rest, r, h) = bind_inv (parse_scopes (scope ∷ seen) ys) _ h in
    let same = f.1 scope s in
    let tail =
      Fresh-parse_scopes (y ∷ seen) ys rest f.2
        (subst (λ x. parse_scopes (x ∷ seen) ys ≡ ok rest) same r) in
    let now : (if any (λ x. str_eq x y) seen then rest else y ∷ rest) ≡ zs =
      ground (arith, h, same) in
    ground (arith, now, f.0, tail)

-- A task that the parser returned, and its id.
unfoldable pub Parsed : String → Task → Type 0
Parsed k u = (u.id ≡ k) × Fresh [] u.scopes

pub parse_task-Parsed : (k : String) (t u : Task) → parse_task k t ≡ ok u → Parsed k u
unfolding parse_task Parsed
parse_task-Parsed k t u h =
    let (_, h) = guard_inv (is_safe_id t.owner) _ h in
    let (_, h) = guard_inv (is_plain_text 4000 t.goal) _ h in
    let (_, h) = guard_inv (leb (length t.scopes) 32) _ h in
    let (scopes, p, h) = bind_inv (parse_scopes [] t.scopes) _ h in
    let (_, h) = guard_inv (is_safe_id k) _ h in
    let (_, h) = guard_inv (is_sha_hex t.context_revision) _ h in
    (
      ground arith,
      Fresh-result [] scopes u.scopes (ground arith) (parse_scopes-Fresh [] t.scopes scopes p),
    )

pub Parsed-parse_task : (k : String) (t u : Task) → Parsed k t → parse_task k t ≡ ok u → u ≡ t
unfolding parse_task Parsed
Parsed-parse_task k t u f h =
    let (_, h) = guard_inv (is_safe_id t.owner) _ h in
    let (_, h) = guard_inv (is_plain_text 4000 t.goal) _ h in
    let (_, h) = guard_inv (leb (length t.scopes) 32) _ h in
    let (scopes, p, h) = bind_inv (parse_scopes [] t.scopes) _ h in
    let (_, h) = guard_inv (is_safe_id k) _ h in
    let (_, h) = guard_inv (is_sha_hex t.context_revision) _ h in
    let same = Fresh-parse_scopes [] t.scopes scopes f.1 p in
    let made : record t { id = k; scopes = scopes } ≡ u = ground arith in
    sym made ∙ rw (same, sym f.0) refl
