-- ===== src/Json.antt =====
-- run_runtime/jsonutil.py: the JSON values that events and records carry. A number with a fraction
-- is its IEEE-754 bit pattern; a `dict` is its entries in order of insertion.
use imece_ide.Base.{
  ℕ, ◌/◌, ◌%◌, ◌^◌, String, Bool, false, not, ◌==◌, str_eq, Option, none, some, Result, ok,
  event_validation, ◌>>◌, guard, if◌then◌else◌,
}

-- `negsuc n` is -(n + 1).
pub data ℤ : Type 0 where
  pos : ℕ → ℤ
  negsuc : ℕ → ℤ

mutual
  pub data Value : Type 0 where
    null : Value
    bool : Bool → Value
    int : ℤ → Value
    float : ℕ → Value
    str : String → Value
    list : Items → Value
    dict : Dict → Value

  pub data Items : Type 0 where
    nil : Items
    item : Value → Items → Items

  pub data Dict : Type 0 where
    end : Dict
    entry : String → Value → Dict → Dict

-- payload.get(key)
unfoldable pub get : String → Dict → Option Value
get k end = none
get k (entry j v d) = if str_eq k j then some v else get k d

-- math.isfinite: the exponent is not all ones
unfoldable pub is_finite : ℕ → Bool
is_finite bits = not ((bits / 2 ^ 52) % 2048 == 2047)

unfoldable mutual
  unfolding is_finite

  pub validate_json_value : Value → Result (Unit {0})
  validate_json_value (float x) = guard (is_finite x) event_validation
  validate_json_value (list xs) = validate_items xs
  validate_json_value (dict d) = validate_json_dict d
  validate_json_value _ = ok tt

  pub validate_items : Items → Result (Unit {0})
  validate_items nil = ok tt
  validate_items (item v xs) = validate_json_value v >> validate_items xs

  pub validate_json_dict : Dict → Result (Unit {0})
  validate_json_dict end = ok tt
  validate_json_dict (entry k v d) = validate_json_value v >> validate_json_dict d

-- payload.get(key) == text
unfoldable pub holds_text : String → Dict → String → Bool
unfolding get
holds_text k d t = elim (get k d) [ some (str s) ↦ str_eq s t | _ ↦ false ]
