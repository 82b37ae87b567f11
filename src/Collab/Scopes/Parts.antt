-- ===== src/Collab/Scopes/Parts.antt =====
-- Splitting a path at its slashes, dropping parts, and joining what is left, for scope_path of
-- collab_runtime/models.py.
use Prim.Native.Char.{Char, code}
use imece_ide.Base.{
  ℕ, String, Bool, false, ◌||◌, ◌==◌, ◌≡◌, refl, ap, ◌∙◌, str_eq, codes, any, append_text,
  append_text_assoc, List, [], ◌∷◌, ◌++◌, Bool-cases, inl, inr, arith, ◌≢◌,
}
use text.Mathlib.TextLemmas.{cons≢nil}
use imece_ide.Collab.Scopes.{
  push_char, split_slash, join_slash, keep_parts, starts_with_slash, ends_with_slash,
}

-- Whether a text, or one of some texts, has a character of a kind.
abbrev pub has : (ℕ → Bool) → String → Bool
has f s = any f (codes s)

abbrev pub some_has : (ℕ → Bool) → List String → Bool
some_has f ps = any (has f) ps

abbrev pub slash : ℕ → Bool
slash c = c == b'/'

module _ (f : ℕ → Bool) where
  pub has-append_text : (s t : String) → has f (append_text s t) ≡ (has f s || has f t)
  unfolding append_text
  has-append_text String.[] t = refl
  has-append_text (String.◌∷◌ c s) t = ground (arith, has-append_text s t)

  push_has :
      (c : Char) (ps : List String) → some_has f (push_char c ps) ≡ (f (code c) || some_has f ps)
  unfolding push_char
  push_has c [] = ground arith
  push_has c (p ∷ ps) = ground arith

  -- The parts of a text have the characters of the text.
  pub split_has : (s : String) → has f s ≡ false → some_has f (split_slash s) ≡ false
  unfolding split_slash
  split_has String.[] h = refl
  split_has (String.◌∷◌ c s) h = ground (arith, split_has s, push_has c (split_slash s))

  pub keep_has : (ps : List String) → some_has f ps ≡ false → some_has f (keep_parts ps) ≡ false
  unfolding keep_parts
  keep_has [] h = refl
  keep_has (p ∷ ps) h = ground (arith, keep_has ps)

  pub join_has :
      (ps : List String)
      → f (code "/") ≡ false
      → some_has f ps ≡ false
      → has f (join_slash ps) ≡ false
  unfolding join_slash
  join_has [] free h = refl
  join_has (p ∷ []) free h = ground arith
  join_has (p ∷ q ∷ ps) free h =
      ground
        (arith, join_has (q ∷ ps) free, has-append_text p (String.◌∷◌ "/" (join_slash (q ∷ ps))))

-- No part has a slash.
pub split_free : (s : String) → some_has slash (split_slash s) ≡ false
unfolding split_slash
split_free String.[] = refl
split_free (String.◌∷◌ c s) = ground (arith, split_free s, push_has slash c (split_slash s))

-- A text without slashes is one part.
pub split_one : (s : String) → has slash s ≡ false → split_slash s ≡ s ∷ []
unfolding split_slash push_char
split_one String.[] h = refl
split_one (String.◌∷◌ c s) h = ground (arith, split_one s)

pub split-append_text :
    (s t : String)
    → has slash s ≡ false
    → split_slash (append_text s (String.◌∷◌ "/" t)) ≡ s ∷ split_slash t
unfolding split_slash push_char append_text
split-append_text String.[] t h = refl
split-append_text (String.◌∷◌ c s) t h = ground (arith, split-append_text s t)

-- Parts without slashes are the parts of what they are joined to.
pub split-join :
    (p : String) (ps : List String)
    → some_has slash (p ∷ ps) ≡ false
    → split_slash (join_slash (p ∷ ps)) ≡ p ∷ ps
unfolding join_slash
split-join p [] h = split_one p (ground arith)
split-join p (q ∷ ps) h =
    split-append_text p (join_slash (q ∷ ps)) (ground arith)
    ∙ ap (p ∷◌) (split-join q ps (ground arith))

-- The same where a slash follows.
pub split-join_slash :
    (p : String) (ps : List String)
    → some_has slash (p ∷ ps) ≡ false
    → split_slash (append_text (join_slash (p ∷ ps)) "/") ≡ (p ∷ ps) ++ "" ∷ []
unfolding join_slash split_slash append_text
split-join_slash p [] h = split-append_text p "" (ground arith)
split-join_slash p (q ∷ ps) h =
    ap split_slash (append_text_assoc p (String.◌∷◌ "/" (join_slash (q ∷ ps))) "/")
    ∙ split-append_text p (append_text (join_slash (q ∷ ps)) "/") (ground arith)
    ∙ ap (p ∷◌) (split-join_slash q ps (ground arith))

-- What is kept is kept again.
pub keep_keep : (ps : List String) → keep_parts (keep_parts ps) ≡ keep_parts ps
unfolding keep_parts
keep_keep [] = refl
keep_keep (p ∷ ps) = elim (Bool-cases (str_eq p "" || str_eq p ".")) [
  | inl out ↦ rw out (keep_keep ps)
  | inr kept ↦ rw (kept, keep_parts, kept) (ap (p ∷◌) (keep_keep ps))
]

pub keep-append_empty : (ps : List String) → keep_parts (ps ++ "" ∷ []) ≡ keep_parts ps
unfolding keep_parts
keep-append_empty [] = refl
keep-append_empty (p ∷ ps) = rw (keep-append_empty ps)

-- A part that is kept is not empty.
pub kept_ne : (ps : List String) → any (λ p. str_eq p "") (keep_parts ps) ≡ false
unfolding keep_parts
kept_ne [] = refl
kept_ne (p ∷ ps) = ground (arith, kept_ne ps)

-- A part that is not empty and has no slash neither begins nor ends with one, nor does a join of such.
pub join-starts :
    (p : String) (ps : List String)
    → str_eq p "" ≡ false
    → has slash p ≡ false
    → starts_with_slash (codes (join_slash (p ∷ ps))) ≡ false
unfolding join_slash starts_with_slash append_text
join-starts String.[] ps h free = absurd (cc)
join-starts (String.◌∷◌ c p) [] h free = ground arith
join-starts (String.◌∷◌ c p) (q ∷ ps) h free = ground arith

ends_free : (p : String) → has slash p ≡ false → ends_with_slash (codes p) ≡ false
unfolding ends_with_slash
ends_free String.[] free = refl
ends_free (String.◌∷◌ c String.[]) free = ground arith
ends_free (String.◌∷◌ c (String.◌∷◌ d p)) free = ground (arith, ends_free (String.◌∷◌ d p))

ends-cons :
    (c : Char) (s : String)
    → (s ≢ String.[])
    → ends_with_slash (codes (String.◌∷◌ c s)) ≡ ends_with_slash (codes s)
unfolding ends_with_slash
ends-cons c String.[] h = absurd (h refl)
ends-cons c (String.◌∷◌ d s) h = refl

append_ne : (s : String) (d : Char) (t : String) → append_text s (String.◌∷◌ d t) ≢ String.[]
unfolding append_text
append_ne String.[] d t e = cons≢nil e
append_ne (String.◌∷◌ c s) d t e = cons≢nil e

pub ends-append_text :
    (s : String) (d : Char) (t : String)
    → ends_with_slash (codes (append_text s (String.◌∷◌ d t)))
      ≡ ends_with_slash (codes (String.◌∷◌ d t))
unfolding append_text
ends-append_text String.[] d t = refl
ends-append_text (String.◌∷◌ c s) d t =
    ends-cons c (append_text s (String.◌∷◌ d t)) (append_ne s d t) ∙ ends-append_text s d t

pub join_ne :
    (p : String) (ps : List String) → str_eq p "" ≡ false → join_slash (p ∷ ps) ≢ String.[]
unfolding join_slash append_text
join_ne String.[] ps h e = absurd (cc)
join_ne (String.◌∷◌ c p) [] h e = cons≢nil e
join_ne (String.◌∷◌ c p) (q ∷ ps) h e = cons≢nil e

pub join-ends :
    (p : String) (ps : List String)
    → any (λ q. str_eq q "") (p ∷ ps) ≡ false
    → some_has slash (p ∷ ps) ≡ false
    → ends_with_slash (codes (join_slash (p ∷ ps))) ≡ false
unfolding join_slash
join-ends p [] h free = ends_free p (ground arith)
join-ends p (q ∷ ps) h free =
    ends-append_text p "/" (join_slash (q ∷ ps))
    ∙ ends-cons "/" (join_slash (q ∷ ps)) (join_ne q ps (ground arith))
    ∙ join-ends q ps (ground arith) (ground arith)
