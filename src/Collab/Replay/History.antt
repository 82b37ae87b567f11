-- ===== src/Collab/Replay/History.antt =====
-- Cursors in a history of distinct revisions.
use imece_ide.Base.{
  ℕ, zero, suc, ◌≡◌, refl, sym, ap, subst, ◌∙◌, inl, inr, String, Bool, true, false, str_eq, eq_iff,
  eq_refl, Bool-cases, List, [], ◌∷◌, ◌++◌, take, drop, any, arith,
}
use mathlib.Core.List.{reverse, reverse-cons}
use imece_ide.Collab.Replay.{since}

-- No revision is twice in a list.
unfoldable pub Distinct : List String → Type 0
Distinct [] = Unit
Distinct (c ∷ cs) = (any (λ d. str_eq d c) cs ≡ false) × Distinct cs

-- The last of a list, or what stands before it.
unfoldable pub last_of : String → List String → String
last_of x [] = x
last_of x (y ∷ ys) = last_of y ys

unfoldable pub has : String → List String → Bool
has x cs = any (λ d. str_eq d x) cs

in_tail : (x y c : String) (cs ys : List String) → since x (c ∷ cs) ≡ y ∷ ys → has y cs ≡ true
unfolding since has
in_tail x y c [] ys h =
    absurd (elim (Bool-cases (str_eq c x)) [
      | inl e ↦ ground (arith, e, h)
      | inr e ↦ ground (arith, e, h)
    ])
in_tail x y c (d ∷ ds) ys h = elim (Bool-cases (str_eq c x)) [
  | inl e ↦
      let same : d ∷ ds ≡ y ∷ ys = ground (arith, e, h) in
      subst (λ l. any (λ d. str_eq d y) l ≡ true) (sym same) (ground (arith, eq_refl y))
  | inr e ↦
      let same : since x (d ∷ ds) ≡ y ∷ ys = ground (arith, e, h) in
      ground (arith, in_tail x y d ds ys same)
]

has-since : (x y : String) (cs ys : List String) → since x cs ≡ y ∷ ys → has y cs ≡ true
unfolding since has
has-since x y [] ys h = absurd (ground arith)
has-since x y (c ∷ cs) ys h = ground (arith, in_tail x y c cs ys h)

since_step :
    (x y : String) (cs ys : List String) → Distinct cs → since x cs ≡ y ∷ ys → since y cs ≡ ys
unfolding since Distinct has
since_step x y [] ys d h = absurd (ground arith)
since_step x y (c ∷ cs) ys d h = elim (Bool-cases (str_eq c y)) [
  | inl e ↦
      let again : has c cs ≡ true =
        subst (λ z. has z cs ≡ true) (sym ((eq_iff c y).0 e)) (in_tail x y c cs ys h) in
      absurd (ground (arith, again, d.0))
  | inr n ↦ elim (Bool-cases (str_eq c x)) [
    | inl e ↦
        let same : cs ≡ y ∷ ys = ground (arith, e, h) in
        let there : since y cs ≡ ys = ap (since y) same ∙ rw (eq_refl y) refl in
        ground (arith, n, there)
    | inr e ↦
        let same : since x cs ≡ y ∷ ys = ground (arith, e, h) in
        ground (arith, n, since_step x y cs ys d.1 same)
  ]
]

pub since-take :
    (n : ℕ) (x : String) (cs ys : List String)
    → Distinct cs
    → since x cs ≡ ys
    → since (last_of x (take n ys)) cs ≡ drop n ys
unfolding last_of
since-take zero x cs ys d h = h
since-take (suc n) x cs [] d h = h
since-take (suc n) x cs (y ∷ ys) d h = since-take n y cs ys d (since_step x y cs ys d h)

pub has-last :
    (n : ℕ) (x : String) (cs ys : List String)
    → Distinct cs
    → has x cs ≡ true
    → since x cs ≡ ys
    → has (last_of x (take n ys)) cs ≡ true
unfolding last_of
has-last zero x cs ys d k h = k
has-last (suc n) x cs [] d k h = k
has-last (suc n) x cs (y ∷ ys) d k h =
    has-last n y cs ys d (has-since x y cs ys h) (since_step x y cs ys d h)

differs : (c h : String) (cs : List String) → has c (cs ++ h ∷ []) ≡ false → str_eq c h ≡ false
unfolding has
differs c h cs k = elim (Bool-cases (str_eq c h)) [
  | inl e ↦ absurd (ground (arith, k, has_newest c h cs ((eq_iff c h).0 e)))
  | inr e ↦ e
]
  where
    has_newest : (c h : String) (cs : List String) → c ≡ h → has c (cs ++ h ∷ []) ≡ true
    has_newest c h [] e = subst (λ z. has c (z ∷ []) ≡ true) e (ground (arith, eq_refl c))
    has_newest c h (d ∷ ds) e = ground (arith, has_newest c h ds e)

-- After the newest revision there is none, and only there.
pub since_newest :
    (h : String) (cs : List String) → Distinct (cs ++ h ∷ []) → since h (cs ++ h ∷ []) ≡ []
unfolding since Distinct has
since_newest h [] d = rw (eq_refl h) refl
since_newest h (c ∷ cs) d =
    let other : str_eq c h ≡ false = differs c h cs d.0 in rw other (since_newest h cs d.1)

pub newest_lem :
    (x h : String) (cs : List String)
    → has x (cs ++ h ∷ []) ≡ true
    → since x (cs ++ h ∷ []) ≡ []
    → x ≡ h
unfolding since has
newest_lem x h [] k e = elim (Bool-cases (str_eq h x)) [
  | inl same ↦ sym ((eq_iff h x).0 same)
  | inr other ↦ absurd (ground (arith, other, k))
]
newest_lem x h (c ∷ cs) k e = elim (Bool-cases (str_eq c x)) [
  | inl same ↦ absurd (not_nil h cs (ground (arith, same, e)))
  | inr other ↦ newest_lem x h cs (ground (arith, other, k)) (ground (arith, other, e))
]
  where
    not_nil : (h : String) (cs : List String) → cs ++ h ∷ [] ≡ [] → ⊥
    not_nil h [] e = ground arith
    not_nil h (d ∷ ds) e = ground arith

pub has-reverse : (x : String) (cs : List String) → has x cs ≡ true → has x (reverse cs) ≡ true
unfolding has
has-reverse x [] h = h
has-reverse x (c ∷ cs) h =
    subst (λ l. any (λ d. str_eq d x) l ≡ true) (sym (reverse-cons c cs))
      (elim (Bool-cases (str_eq c x)) [
        | inl e ↦ last_has x c (reverse cs) e
        | inr e ↦ more_has x c (reverse cs) (has-reverse x cs (ground (arith, e, h)))
      ])
  where
    last_has : (x c : String) (ds : List String) → str_eq c x ≡ true → has x (ds ++ c ∷ []) ≡ true
    last_has x c [] e = ground (arith, e)
    last_has x c (d ∷ ds) e = ground (arith, last_has x c ds e)

    more_has : (x c : String) (ds : List String) → has x ds ≡ true → has x (ds ++ c ∷ []) ≡ true
    more_has x c [] h = absurd (ground arith)
    more_has x c (d ∷ ds) h = elim (Bool-cases (str_eq d x)) [
      | inl e ↦ ground (arith, e)
      | inr e ↦ ground (arith, e, more_has x c ds (ground (arith, e, h)))
    ]
