-- ===== src/Collab/Scopes/Lengths.antt =====
-- How long a normalised path is, for scope_path of collab_runtime/models.py.
use Prim.Native.Char.{Char, code}
use imece_ide.Base.{
  ℕ, suc, ◌+◌, ◌≤◌, String, true, ◌==◌, ◌≡◌, refl, sym, ap, ◌∙◌, codes, text_length,
  text_length-append_text, List, [], ◌∷◌, ◌++◌, Bool-cases, inl, inr, arith,
}
use imece_ide.Collab.Scopes.Parts.{keep-append_empty}
use imece_ide.Collab.Scopes.{
  push_char, split_slash, join_slash, keep_parts, ends_with_slash, slashes,
}

-- The characters of some parts, each with a slash after it.
abbrev total : List String → ℕ
total [] = 0
total (p ∷ ps) = text_length p + 1 + total ps

total_join :
    (p : String) (ps : List String) → text_length (join_slash (p ∷ ps)) + 1 ≡ total (p ∷ ps)
unfolding join_slash
total_join p [] = omega arith
total_join p (q ∷ ps) =
    omega (arith, total_join q ps, text_length-append_text p (String.◌∷◌ "/" (join_slash (q ∷ ps))))

total_keep : (ps : List String) → total (keep_parts ps) ≤ total ps
unfolding keep_parts
total_keep [] = omega arith
total_keep (p ∷ ps) = ground (arith, total_keep ps)

split_cons : (s : String) → (p : String) × (ps : List String) × (split_slash s ≡ p ∷ ps)
unfolding split_slash push_char
split_cons String.[] = ("", [], refl)
split_cons (String.◌∷◌ c s) = elim (Bool-cases (code c == b'/')) [
  | inl e ↦ ("", split_slash s, rw e)
  | inr e ↦ let (p, ps, q) = split_cons s in (String.◌∷◌ c p, ps, rw (e, q) refl)
]

total_split : (s : String) → total (split_slash s) ≡ text_length s + 1
unfolding split_slash push_char
total_split String.[] = omega arith
total_split (String.◌∷◌ c s) = let (p, ps, q) = split_cons s in ground (arith, total_split s, q)

push_append :
    (c : Char) (p : String) (ps : List String)
    → push_char c ((p ∷ ps) ++ "" ∷ []) ≡ push_char c (p ∷ ps) ++ "" ∷ []
unfolding push_char
push_append c p ps = refl

-- What stands before a slash at the end.
pub ends_split :
    (s : String)
    → ends_with_slash (codes s) ≡ true
    → (t : String) × (text_length s ≡ text_length t + 1)
      × (split_slash s ≡ split_slash t ++ "" ∷ [])
unfolding ends_with_slash split_slash
ends_split String.[] h = absurd (cc)
ends_split (String.◌∷◌ c String.[]) h = ("", omega arith, rw h)
ends_split (String.◌∷◌ c (String.◌∷◌ d s)) h =
    let (t, size, split) = ends_split (String.◌∷◌ d s) h in
    (
      String.◌∷◌ c t,
      omega (arith, size),
      elim (Bool-cases (code c == b'/')) [
        | inl e ↦ rw e (ap ("" ∷◌) split)
        | inr e ↦
            let (p, ps, q) = split_cons t in
            rw e (ap (push_char c) split ∙ rw q (push_append c p ps))
      ],
    )

-- A normalised path is no longer than the path, also where its slash at the end is put back.
pub cleaned_length :
    (s p : String) (ps : List String)
    → keep_parts (split_slash s) ≡ p ∷ ps
    → text_length (join_slash (p ∷ ps)) ≤ text_length s
cleaned_length s p ps kept =
    omega (arith, total_join p ps, total_keep (split_slash s), total_split s, ap total kept)

pub cleaned_length_slash :
    (s p : String) (ps : List String)
    → ends_with_slash (codes s) ≡ true
    → keep_parts (split_slash s) ≡ p ∷ ps
    → text_length (join_slash (p ∷ ps)) + 1 ≤ text_length s
cleaned_length_slash s p ps ends kept =
    let (t, size, split) = ends_split s ends in
    let same = sym kept ∙ ap keep_parts split ∙ keep-append_empty (split_slash t) in
    omega (arith, total_join p ps, total_keep (split_slash t), total_split t, ap total same, size)

pub text_length-slashes : (s : String) → text_length (slashes s) ≡ text_length s
unfolding slashes
text_length-slashes String.[] = refl
text_length-slashes (String.◌∷◌ c s) = ap suc (text_length-slashes s)
