-- ===== src/Collab/Scopes/Stable.antt =====
-- scope_path of collab_runtime/models.py at its own results.
use Prim.Native.Char.{code}
use imece_ide.Base.{
  ℕ, ◌≤◌, String, Bool, true, false, ◌||◌, ◌==◌, leb, ◌≡◌, refl, sym, ap, ◌∙◌, str_eq,
  if◌then◌else◌, codes, text_length, text_length-append_text, append_text, has_nul, any, List, [],
  ◌∷◌, Bool-cases, inl, inr, arith, ok, err, ◌⊎◌, collab_validation, ltb, not, ◌&&◌, in_range,
  subst, leb→le, le→leb,
}
use imece_ide.Collab.Scopes.{
  slashes, split_slash, join_slash, keep_parts, starts_with_slash, ends_with_slash, is_drive,
  is_git, bad_chars, scope_path,
}
use imece_ide.Collab.Scopes.Parts.{
  has, some_has, slash, has-append_text, split_has, keep_has, join_has, split_free, split-join,
  split-join_slash, keep_keep, keep-append_empty, kept_ne, join-starts, join-ends, ends-append_text,
}
use imece_ide.Collab.Scopes.Lengths.{cleaned_length, cleaned_length_slash, text_length-slashes}

backslash : ℕ → Bool
backslash c = c == b'\\'

glob : ℕ → Bool
glob c = c == b'*' || c == b'?' || c == b'['

bad : ℕ → Bool
bad c = ltb c 32 && not (c == 10) || c == 0x7f || in_range 0xd800 0xdfff c

slashes-has :
    (f : ℕ → Bool) (s : String) → f (code "/") ≡ false → has f s ≡ false → has f (slashes s) ≡ false
unfolding slashes
slashes-has f String.[] free h = refl
slashes-has f (String.◌∷◌ c s) free h = elim (Bool-cases (code c == b'\\')) [
  | inl e ↦ rw e (ground (arith, slashes-has f s))
  | inr e ↦ rw e (ground (arith, slashes-has f s))
]

slashes_none : (s : String) → has backslash (slashes s) ≡ false
unfolding slashes backslash
slashes_none String.[] = refl
slashes_none (String.◌∷◌ c s) = elim (Bool-cases (code c == b'\\')) [
  | inl e ↦ rw e (slashes_none s)
  | inr e ↦ rw (e, slashes, e) (slashes_none s)
]

slashes_free : (s : String) → has backslash s ≡ false → slashes s ≡ s
unfolding slashes backslash
slashes_free String.[] h = refl
slashes_free (String.◌∷◌ c s) h = ground (arith, slashes_free s)

List-cases : (ps : List String) → (ps ≡ []) ⊎ ((q : String) × (r : List String) × (ps ≡ q ∷ r))
List-cases [] = inl refl
List-cases (q ∷ r) = inr (q, r, refl)

-- The result, by the parts and by whether a slash ends the path.
abbrev built : Bool → List String → String
built ends parts = if ends then append_text (join_slash parts) "/" else join_slash parts

-- What a path is that `scope_path` accepts.
record Accepts (v p : String) : Type 0 where
  q : String
  ps : List String
  plain : (has_nul v || bad_chars v) ≡ false
  short : leb (text_length v) 512 ≡ true
  no_glob : has glob (slashes v) ≡ false
  parts : keep_parts (split_slash (slashes v)) ≡ q ∷ ps
  no_dots : any (λ x. str_eq x "..") (q ∷ ps) ≡ false
  no_git : any is_git (q ∷ ps) ≡ false
  result : p ≡ built (ends_with_slash (codes (slashes v))) (q ∷ ps)

Accepts-inv : (v p : String) → scope_path v ≡ ok p → Accepts v p
unfolding scope_path glob
Accepts-inv v p h = elim (List-cases (keep_parts (split_slash (slashes v)))) [
  | inl e ↦ absurd (ground (arith, e))
  | inr (q, ps, e) ↦ record {
    q = q;
    ps = ps;
    plain = ground arith;
    short = ground arith;
    no_glob = ground arith;
    parts = e;
    no_dots = ground (arith, e);
    no_git = ground (arith, e);
    result = ground (arith, e);
  }
]

-- The tests in turn, at a path that has no backslash and begins with no slash.
accepts_lem :
    (p q : String) (ps : List String)
    → (has_nul p || bad_chars p) ≡ false
    → leb (text_length p) 512 ≡ true
    → slashes p ≡ p
    → starts_with_slash (codes p) ≡ false
    → has glob p ≡ false
    → keep_parts (split_slash p) ≡ q ∷ ps
    → any (λ x. str_eq x "..") (q ∷ ps) ≡ false
    → any is_git (q ∷ ps) ≡ false
    → scope_path p ≡ (
        if is_drive (codes p)
        then err collab_validation
        else ok (built (ends_with_slash (codes p)) (q ∷ ps)))
unfolding scope_path glob
accepts_lem p q ps plain short same starts no_glob parts no_dots no_git =
    elim (Bool-cases (is_drive (codes p))) [
      | inl e ↦ rw (plain, short, same, starts, e)
      | inr e ↦ rw (plain, short, same, starts, e, no_glob, parts, no_dots, no_git)
    ]

built_has :
    (f : ℕ → Bool) (ends : Bool) (ps : List String)
    → f (code "/") ≡ false
    → some_has f ps ≡ false
    → has f (built ends ps) ≡ false
built_has f true ps free h =
    has-append_text f (join_slash ps) "/" ∙ rw (join_has f ps free h, free) refl
built_has f false ps free h = join_has f ps free h

-- A kind of character that a path has not, its normalised form has not.
result_has :
    (f : ℕ → Bool) (v p : String) (a : Accepts v p)
    → f (code "/") ≡ false
    → has f (slashes v) ≡ false
    → has f p ≡ false
result_has f v p a free h =
    let kept = keep_has f (split_slash (slashes v)) (split_has f (slashes v) h) in
    rw a.result (built_has f _ (a.q ∷ a.ps) free (subst (λ l. some_has f l ≡ false) a.parts kept))

built_parts :
    (ends : Bool) (q : String) (ps : List String)
    → some_has slash (q ∷ ps) ≡ false
    → keep_parts (q ∷ ps) ≡ q ∷ ps
    → keep_parts (split_slash (built ends (q ∷ ps))) ≡ q ∷ ps
built_parts true q ps free kept =
    ap keep_parts (split-join_slash q ps free) ∙ keep-append_empty (q ∷ ps) ∙ kept
built_parts false q ps free kept = ap keep_parts (split-join q ps free) ∙ kept

built_ends :
    (ends : Bool) (q : String) (ps : List String)
    → any (λ x. str_eq x "") (q ∷ ps) ≡ false
    → some_has slash (q ∷ ps) ≡ false
    → ends_with_slash (codes (built ends (q ∷ ps))) ≡ ends
unfolding ends_with_slash
built_ends true q ps full free = ends-append_text (join_slash (q ∷ ps)) "/" ""
built_ends false q ps full free = join-ends q ps full free

built_length :
    (s q : String) (ps : List String) (ends : Bool)
    → ends_with_slash (codes s) ≡ ends
    → keep_parts (split_slash s) ≡ q ∷ ps
    → text_length (built ends (q ∷ ps)) ≤ text_length s
built_length s q ps true e kept =
    omega
      (arith, text_length-append_text (join_slash (q ∷ ps)) "/", cleaned_length_slash s q ps e kept)
built_length s q ps false e kept = cleaned_length s q ps kept

built_starts :
    (ends : Bool) (q : String) (ps : List String)
    → str_eq q "" ≡ false
    → has slash q ≡ false
    → starts_with_slash (codes (built ends (q ∷ ps))) ≡ false
unfolding starts_with_slash append_text join_slash
built_starts false q ps full free = join-starts q ps full free
built_starts true String.[] ps full free = absurd (cc)
built_starts true (String.◌∷◌ c q) [] full free = ground arith
built_starts true (String.◌∷◌ c q) (x ∷ ps) full free = ground arith

plain_lem : (v : String) → (has_nul v || bad_chars v) ≡ (has (λ c. c == 0) v || has bad v)
unfolding has_nul bad_chars bad
plain_lem v = refl

or_false : (a b : Bool) → (a || b) ≡ false → (a ≡ false) × (b ≡ false)
or_false a b h = ground arith

-- A normalised scope is normalised to itself, unless it begins like a drive, as that of "./C:/x" does:
-- then it is refused, though it is what `scope_path` made of a scope that it accepted.
pub scope_path-stable :
    (v p : String)
    → scope_path v ≡ ok p
    → scope_path p ≡ (if is_drive (codes p) then err collab_validation else ok p)
unfolding bad backslash glob
scope_path-stable v p h =
    let a = Accepts-inv v p h in
    let (nul, fine) = or_false _ _ (sym (plain_lem v) ∙ a.plain) in
    let keep = λ (f : ℕ → Bool) (free : f (code "/") ≡ false) (none_in : has f v ≡ false).
      result_has f v p a free (slashes-has f v free none_in) in
    let free : some_has slash (a.q ∷ a.ps) ≡ false =
      subst (λ l. some_has slash l ≡ false) a.parts
        (keep_has slash (split_slash (slashes v)) (split_free (slashes v))) in
    let full : any (λ x. str_eq x "") (a.q ∷ a.ps) ≡ false =
      subst (λ l. any (λ x. str_eq x "") l ≡ false) a.parts (kept_ne (split_slash (slashes v))) in
    let kept : keep_parts (a.q ∷ a.ps) ≡ a.q ∷ a.ps =
      ap keep_parts (sym a.parts) ∙ keep_keep (split_slash (slashes v)) ∙ a.parts in
    let ends = ends_with_slash (codes (slashes v)) in
    let size = built_length (slashes v) a.q a.ps ends refl a.parts in
    let plain : (has_nul p || bad_chars p) ≡ false =
      plain_lem p ∙ rw (keep (λ c. c == 0) refl nul, keep bad refl fine) refl in
    let short : leb (text_length p) 512 ≡ true = le→leb (text_length p) 512 (
      omega (
        arith,
        ap text_length a.result,
        size,
        text_length-slashes v,
        leb→le (text_length v) 512 a.short,
      )) in
    let same = slashes_free p (result_has backslash v p a refl (slashes_none v)) in
    let starts : starts_with_slash (codes p) ≡ false =
      ap (λ x. starts_with_slash (codes x)) a.result
      ∙ built_starts ends a.q a.ps (or_false _ _ full).0 (or_false _ _ free).0 in
    let no_glob = result_has glob v p a refl a.no_glob in
    let parts : keep_parts (split_slash p) ≡ a.q ∷ a.ps =
      ap (λ x. keep_parts (split_slash x)) a.result ∙ built_parts ends a.q a.ps free kept in
    let same_end : ends_with_slash (codes p) ≡ ends =
      ap (λ x. ends_with_slash (codes x)) a.result ∙ built_ends ends a.q a.ps full free in
    accepts_lem p a.q a.ps plain short same starts no_glob parts a.no_dots a.no_git
    ∙ ap (λ x. if is_drive (codes p) then err collab_validation else ok x)
        (ap (λ e. built e (a.q ∷ a.ps)) same_end ∙ sym a.result)
