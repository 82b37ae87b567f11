-- ===== src/Acp/Examples.antt =====
-- The theorems of the permission policy at concrete requests.
use imece_ide.Base.{String, codes, ◌≡◌, ◌⊎◌, refl, some, List, [], ◌∷◌}
use imece_ide.Json.{Value, end, entry}
use imece_ide.Acp.{
  PermissionOption, selected, option_of_kind, select_option, is_edit_kind, candidate_paths,
  given_paths, FileSystem, is_confined, is_inside, starts_with, reject, decide,
}
use imece_ide.Acp.Named.{IsNamed}
use imece_ide.Acp.Confined.{Offers, IsChange, IsConfined, decide-Confined}

-- A file system without links.
abbrev plain : FileSystem
plain = record {
  realpath = λ path. some path;
  isabs = λ path. starts_with (codes path) (b'/' ∷ []);
}

abbrev option : String → String → PermissionOption
option kind id = record { kind = some kind; option_id = some id }

abbrev offered : List PermissionOption
offered =
    option "allow_always" "always" ∷ option "allow_once" "once" ∷ option "reject_once" "no" ∷ []

abbrev inside_path : List String
inside_path = "/w/a.py" ∷ []

edit_allowed : decide plain "/w" (some "edit") inside_path Value.null offered ≡ selected "once"
unfolding decide is_edit_kind candidate_paths given_paths is_confined starts_with is_inside
    select_option option_of_kind
edit_allowed = refl

outside_rejected :
    decide plain "/w" (some "edit") ("/w2/a.py" ∷ []) Value.null offered ≡ selected "no"
unfolding decide is_edit_kind candidate_paths given_paths is_confined starts_with is_inside reject
    select_option option_of_kind
outside_rejected = refl

decide-Confined_example :
    (Offers "allow_once" "once" offered
      × IsChange (some "edit")
      × ((p : String) × IsNamed inside_path Value.null p)
      × ((p : String) → IsNamed inside_path Value.null p → IsConfined plain "/w" p))
    ⊎ (Offers "reject_once" "once" offered ⊎ Offers "reject_always" "once" offered)
decide-Confined_example =
    decide-Confined plain "/w" (some "edit") inside_path Value.null offered "once" edit_allowed

-- The raw input of a move out of the worktree.
abbrev move_out : Value
move_out = Value.dict (entry "new_path" (Value.str "/etc/a.py") end)
