-- ===== src/Acp.antt =====
-- acp_runtime/permission_policy.py: the permission policy of the worker. `realpath` and `isabs` of the
-- operating system are parameters, the separator of paths is "/".
pub mod Named
pub mod Confined
mod Examples
use imece_ide.Base.{
  ℕ, String, Bool, true, false, not, ◌&&◌, ◌||◌, if◌then◌else◌, str_eq, any, all, All, codes, ◌==◌,
  ◌≡◌, ◌≢◌, ◌⊎◌, refl, Option, none, some, List, [], ◌∷◌, ◌++◌, arith, Bool-cases, Option-cases,
  inl, inr,
}
use imece_ide.Json.{Value, Items, nil, item, Dict, get}

-- An option that the agent offers; a field that is missing is None.
pub record PermissionOption : Type 0 where
  pub kind : Option String
  pub option_id : Option String

pub data AcpPermissionDecision : Type 0 where
  selected : String → AcpPermissionDecision
  cancelled : AcpPermissionDecision

-- A field that Python takes for true.
abbrev is_given : Option String → Bool
is_given none = false
is_given (some s) = not (str_eq s "")

abbrev has_kind : String → PermissionOption → Bool
has_kind kind o = elim o.kind [ none ↦ false | some k ↦ str_eq k kind ]

-- by_kind.get(kind): the first option of the kind that has an identifier
unfoldable pub option_of_kind : String → List PermissionOption → Option String
option_of_kind kind [] = none
option_of_kind kind (o ∷ options) =
    if is_given o.kind && is_given o.option_id && has_kind kind o
    then o.option_id
    else option_of_kind kind options

-- _select_option
unfoldable pub select_option : List PermissionOption → List String → Option String
select_option options [] = none
select_option options (kind ∷ preference) = elim (option_of_kind kind options) [
  | some id ↦ some id
  | none ↦ select_option options preference
]

abbrev pub allow_kinds : List String
allow_kinds = "allow_once" ∷ []

abbrev pub reject_kinds : List String
reject_kinds = "reject_once" ∷ "reject_always" ∷ []

-- kind in _EDIT_KINDS
unfoldable pub is_edit_kind : Option String → Bool
is_edit_kind none = false
is_edit_kind (some kind) = str_eq kind "edit" || str_eq kind "delete" || str_eq kind "move"

abbrev raw_input_path_keys : List String
raw_input_path_keys =
    "path" ∷ "file_path" ∷ "filePath" ∷ "abs_path" ∷ "absPath" ∷ "new_path" ∷ "newPath" ∷ "old_path"
    ∷ "oldPath" ∷ []

-- The strings of a list.
unfoldable pub texts_of : Items → List String
texts_of nil = []
texts_of (item (Value.str s) items) = s ∷ texts_of items
texts_of (item _ items) = texts_of items

abbrev pub paths_at : Option Value → List String
paths_at (some (Value.str s)) = s ∷ []
paths_at (some (Value.list items)) = texts_of items
paths_at _ = []

unfoldable pub paths_of_keys : List String → Dict → List String
paths_of_keys [] d = []
paths_of_keys (key ∷ keys) d = paths_at (get key d) ++ paths_of_keys keys d

-- _raw_input_candidate_paths
unfoldable pub raw_input_candidate_paths : Value → List String
raw_input_candidate_paths (Value.dict d) = paths_of_keys raw_input_path_keys d
raw_input_candidate_paths _ = []

-- [path for path in locations if path]
unfoldable pub given_paths : List String → List String
given_paths [] = []
given_paths (path ∷ paths) =
    let rest = given_paths paths in if str_eq path "" then rest else path ∷ rest

abbrev pub is_nil : List String → Bool
is_nil [] = true
is_nil (_ ∷ _) = false

unfoldable pub candidate_paths : List String → Value → List String
candidate_paths locations raw_input =
    let given = given_paths locations in
    if is_nil given then raw_input_candidate_paths raw_input else given

-- str.startswith, on code points
unfoldable pub starts_with : List ℕ → List ℕ → Bool
starts_with s [] = true
starts_with [] (c ∷ cs) = false
starts_with (d ∷ s) (c ∷ cs) = d == c && starts_with s cs

pub record FileSystem : Type 0 where
  pub realpath : String → Option String
  pub isabs : String → Bool

module _ (fs : FileSystem) where
  -- _is_inside
  unfoldable pub is_inside : String → String → Bool
  is_inside root path = elim (fs.realpath path) [
    | none ↦ false
    | some resolved ↦ str_eq resolved root || starts_with (codes resolved) (codes root ++ b'/' ∷ [])
  ]

  -- An absolute path that is inside.
  unfoldable pub is_confined : String → String → Bool
  is_confined root path = fs.isabs path && is_inside root path

  -- _reject
  unfoldable pub reject : List PermissionOption → AcpPermissionDecision
  reject options = elim (select_option options reject_kinds) [
    | some id ↦ selected id
    | none ↦ cancelled
  ]

  -- WorktreeEditAcpPermissionPolicy.decide
  unfoldable pub decide :
      String → Option String → List String → Value → List PermissionOption → AcpPermissionDecision
  decide root kind locations raw_input options =
      let candidates = candidate_paths locations raw_input in
      if is_edit_kind kind && not (is_nil candidates) && all (is_confined root) candidates
      then elim (select_option options allow_kinds) [
        | some id ↦ selected id
        | none ↦ reject options
      ]
      else reject options
