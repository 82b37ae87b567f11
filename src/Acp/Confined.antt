-- ===== src/Acp/Confined.antt =====
-- What the permission policy of acp_runtime/permission_policy.py may select.
use imece_ide.Base.{
  ap, str_eq, none, String, true, not, ◌&&◌, all, codes, ◌++◌, ◌≡◌, ◌⊎◌, refl, Option, some, List,
  [], ◌∷◌, arith, str_eq, Bool-cases, Option-cases, inl, inr, eq_iff,
}
use imece_ide.Json.{Value}
use mathlib.Core.List.{Memᴰ}
use imece_ide.Acp.Named.{IsNamed, candidate-IsNamed, named_candidate}
use imece_ide.Acp.{
  PermissionOption, selected, option_of_kind, select_option, allow_kinds, is_edit_kind,
  candidate_paths, FileSystem, is_confined, is_inside, is_nil, starts_with, reject, decide,
}

-- An offered option of the given kind and identifier.
pub data Offers (kind id : String) : List PermissionOption → Type 0 where
  here :
      {o : PermissionOption} {options : List PermissionOption}
      → o.kind ≡ some kind
      → o.option_id ≡ some id
      → Offers kind id (o ∷ options)
  there :
      {o : PermissionOption} {options : List PermissionOption}
      → Offers kind id options
      → Offers kind id (o ∷ options)

option_of_kind-Offers :
    (kind id : String) (options : List PermissionOption)
    → option_of_kind kind options ≡ some id
    → Offers kind id options
unfolding option_of_kind
option_of_kind-Offers kind id [] h = absurd (ground arith)
option_of_kind-Offers kind id (o ∷ options) h = elim (Option-cases o.kind) [
  | inl q ↦ there (option_of_kind-Offers kind id options (ground arith))
  | inr (k, q) ↦ elim (Option-cases o.option_id) [
    | inl r ↦ there (option_of_kind-Offers kind id options (ground arith))
    | inr (i, r) ↦ elim (Bool-cases (not (str_eq k "") && not (str_eq i "") && str_eq k kind)) [
      | inl t ↦ here (ground (arith, eq_iff k kind)) (ground arith)
      | inr f ↦ there (option_of_kind-Offers kind id options (ground arith))
    ]
  ]
]

-- The kinds of a call that changes files.
abbrev pub IsChange : Option String → Type 0
IsChange kind = (kind ≡ some "edit") ⊎ (kind ≡ some "delete") ⊎ (kind ≡ some "move")

-- The path is absolute, and what it resolves to is the root or lies below it.
pub record IsConfined (fs : FileSystem) (root path : String) : Type 0 where
  pub absolute : fs.isabs path ≡ true
  pub resolved : String
  pub resolves : fs.realpath path ≡ some resolved
  pub below : (resolved ≡ root) ⊎ (starts_with (codes resolved) (codes root ++ b'/' ∷ []) ≡ true)

is_confined-IsConfined :
    (fs : FileSystem) (root path : String)
    → is_confined fs root path ≡ true
    → IsConfined fs root path
unfolding is_confined is_inside
is_confined-IsConfined fs root path h = elim (Option-cases (fs.realpath path)) [
  | inl q ↦ absurd (ground arith)
  | inr (r, q) ↦ record {
    absolute = ground arith;
    resolved = r;
    resolves = q;
    below = elim (Bool-cases (str_eq r root)) [
      | inl same ↦ inl ((eq_iff r root).0 same)
      | inr other ↦ inr (ground arith)
    ];
  }
]

all-IsConfined :
    (fs : FileSystem) (root : String) (paths : List String)
    → all (is_confined fs root) paths ≡ true
    → (p : String) → Memᴰ p paths
    → IsConfined fs root p
all-IsConfined fs root [] h p m = elim m [ ]
all-IsConfined fs root (q ∷ ps) h p (Memᴰ.head e) =
    is_confined-IsConfined fs root p (rw e (ground arith))
all-IsConfined fs root (q ∷ ps) h p (Memᴰ.tail m) = all-IsConfined fs root ps (ground arith) p m

kind-IsChange : (kind : Option String) → is_edit_kind kind ≡ true → IsChange kind
unfolding is_edit_kind
kind-IsChange none h = absurd (ground arith)
kind-IsChange (some k) h = elim (Bool-cases (str_eq k "edit")) [
  | inl e ↦ inl (ap some ((eq_iff k "edit").0 e))
  | inr e ↦ elim (Bool-cases (str_eq k "delete")) [
    | inl d ↦ inr (inl (ap some ((eq_iff k "delete").0 d)))
    | inr d ↦ inr (inr (ap some ((eq_iff k "move").0 (ground arith))))
  ]
]

first_of : (paths : List String) → not (is_nil paths) ≡ true → (p : String) × Memᴰ p paths
first_of [] h = absurd (ground arith)
first_of (p ∷ ps) h = (p, Memᴰ.head refl)

allow-Offers :
    (options : List PermissionOption) (id : String)
    → select_option options allow_kinds ≡ some id
    → Offers "allow_once" id options
unfolding select_option
allow-Offers options id h =
    option_of_kind-Offers "allow_once" id options
      (elim (Option-cases (option_of_kind "allow_once" options)) [
        | inl q ↦ absurd (ground arith)
        | inr (x, q) ↦ ground arith
      ])

reject-Offers :
    (fs : FileSystem) (options : List PermissionOption) (id : String)
    → reject fs options ≡ selected id
    → Offers "reject_once" id options ⊎ Offers "reject_always" id options
unfolding reject select_option
reject-Offers fs options id h = elim (Option-cases (option_of_kind "reject_once" options)) [
  | inr (x, q) ↦ inl (option_of_kind-Offers "reject_once" id options (ground arith))
  | inl q ↦ elim (Option-cases (option_of_kind "reject_always" options)) [
    | inr (x, r) ↦ inr (option_of_kind-Offers "reject_always" id options (ground arith))
    | inl r ↦ absurd (ground arith)
  ]
]

-- The policy selects an option only if it is offered: an `allow_once`, or a rejecting option, never
-- `allow_always`. It selects an `allow_once` only for an edit, delete or move that names at least one
-- path, when every path it names is absolute and resolves to the worktree or below it. The paths it
-- names are its nonempty locations; where it has none, the texts of its raw input, alone or in a list, at
-- the nine keys for paths.
pub decide-Confined :
    (fs : FileSystem) (root : String) (kind : Option String) (locations : List String)
    (raw_input : Value) (options : List PermissionOption) (id : String)
    → decide fs root kind locations raw_input options ≡ selected id
    → (Offers "allow_once" id options
        × IsChange kind
        × ((p : String) × IsNamed locations raw_input p)
        × ((p : String) → IsNamed locations raw_input p → IsConfined fs root p))
      ⊎ (Offers "reject_once" id options ⊎ Offers "reject_always" id options)
unfolding decide
decide-Confined fs root kind locations raw_input options id h =
    let candidates = candidate_paths locations raw_input in
    elim (Bool-cases
      (is_edit_kind kind && not (is_nil candidates) && all (is_confined fs root) candidates)) [
        | inr refused ↦ inr (reject-Offers fs options id (ground arith))
        | inl fine ↦ elim (Option-cases (select_option options allow_kinds)) [
          | inl q ↦ inr (reject-Offers fs options id (ground arith))
          | inr (x, q) ↦
              let confined : all (is_confined fs root) candidates ≡ true = ground arith in
              let (p, m) = first_of candidates (ground arith) in
              inl (
                allow-Offers options id (ground arith),
                kind-IsChange kind (ground arith),
                (p, candidate-IsNamed locations raw_input p m),
                λ p n.
                    all-IsConfined fs root candidates confined p
                      (named_candidate locations raw_input p n),
              )
        ]
      ]
