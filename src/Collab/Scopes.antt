-- ===== src/Collab/Scopes.antt =====
-- Texts, identifiers and scopes of collab_runtime/models.py.
pub mod Parts
pub mod Lengths
pub mod Stable
use Prim.Native.Char.{Char, code}
use imece_ide.Base.{
  ℕ, ◌+◌, String, Bool, true, false, not, ◌&&◌, ◌||◌, ◌==◌, leb, ltb, str_eq, if◌then◌else◌,
  in_range, codes, text_length, any, all, has_nul, append_text, map, List, [], ◌∷◌, Result, ok,
  ◌>>◌, guard, refuse, collab_validation,
}

-- _bad_chars
unfoldable pub bad_chars : String → Bool
bad_chars s =
    any (λ c. ltb c 32 && not (c == 10) || c == 0x7f || in_range 0xd800 0xdfff c) (codes s)

-- _bounded_text
unfoldable pub is_plain_text : ℕ → String → Bool
unfolding bad_chars
is_plain_text limit s = not (bad_chars s) && leb (text_length s) limit

alphanumeric : ℕ → Bool
alphanumeric c = in_range b'A' b'Z' c || in_range b'a' b'z' c || in_range b'0' b'9' c

starts_well : List ℕ → Bool
starts_well [] = false
starts_well (c ∷ cs) = alphanumeric c

-- safe_id
unfoldable pub is_safe_id : String → Bool
unfolding starts_well alphanumeric
is_safe_id s =
    starts_well (codes s)
    && leb (text_length s) 128
    && all (λ c. alphanumeric c || c == b'.' || c == b'_' || c == b'-') (codes s)

-- sha_hex
unfoldable pub is_sha_hex : String → Bool
is_sha_hex s =
    text_length s == 40 && all (λ c. in_range b'0' b'9' c || in_range b'a' b'f' c) (codes s)

-- value.replace("\\", "/")
unfoldable pub slashes : String → String
slashes String.[] = String.[]
slashes (String.◌∷◌ c s) = String.◌∷◌ (if code c == b'\\' then "/" else c) (slashes s)

unfoldable pub push_char : Char → List String → List String
push_char c [] = String.◌∷◌ c String.[] ∷ []
push_char c (p ∷ ps) = String.◌∷◌ c p ∷ ps

-- value.split("/")
unfoldable pub split_slash : String → List String
unfolding push_char
split_slash String.[] = "" ∷ []
split_slash (String.◌∷◌ c s) =
    let rest = split_slash s in if code c == b'/' then "" ∷ rest else push_char c rest

-- "/".join(parts)
unfoldable pub join_slash : List String → String
join_slash [] = ""
join_slash (p ∷ []) = p
join_slash (p ∷ q ∷ ps) = append_text p (String.◌∷◌ "/" (join_slash (q ∷ ps)))

-- [p for p in parts if p not in ("", ".")]
unfoldable pub keep_parts : List String → List String
keep_parts [] = []
keep_parts (p ∷ ps) =
    let rest = keep_parts ps in if str_eq p "" || str_eq p "." then rest else p ∷ rest

unfoldable pub starts_with_slash : List ℕ → Bool
starts_with_slash [] = false
starts_with_slash (c ∷ cs) = c == b'/'

unfoldable pub ends_with_slash : List ℕ → Bool
ends_with_slash [] = false
ends_with_slash (c ∷ []) = c == b'/'
ends_with_slash (c ∷ d ∷ cs) = ends_with_slash (d ∷ cs)

letter : ℕ → Bool
letter c = in_range b'A' b'Z' c || in_range b'a' b'z' c

-- ^[a-zA-Z]:
unfoldable pub is_drive : List ℕ → Bool
unfolding letter
is_drive [] = false
is_drive (c ∷ []) = false
is_drive (c ∷ d ∷ cs) = letter c && d == b':'

lower : ℕ → ℕ
lower c = if in_range b'A' b'Z' c then c + 32 else c

same_codes : List ℕ → List ℕ → Bool
same_codes [] [] = true
same_codes (a ∷ r) (b ∷ t) = a == b && same_codes r t
same_codes _ _ = false

-- p.casefold() == ".git": no character beyond ASCII folds to one of these
unfoldable pub is_git : String → Bool
unfolding lower same_codes
is_git p = same_codes (map lower (codes p)) (codes ".git")

unfoldable pub is_empty : List String → Bool
is_empty [] = true
is_empty (_ ∷ _) = false

-- scope_path
unfoldable pub scope_path : String → Result String
unfolding is_empty is_drive starts_with_slash ends_with_slash
scope_path value = do
  refuse (has_nul value || bad_chars value) collab_validation
  guard (leb (text_length value) 512) collab_validation
  let normalized = slashes value
  refuse (starts_with_slash (codes normalized)) collab_validation
  refuse (is_drive (codes normalized)) collab_validation
  refuse (any (λ c. c == b'*' || c == b'?' || c == b'[') (codes normalized)) collab_validation
  let parts = keep_parts (split_slash normalized)
  refuse (is_empty parts) collab_validation
  refuse (any (λ p. str_eq p "..") parts) collab_validation
  refuse (any is_git parts) collab_validation
  let cleaned = join_slash parts
  ok (if ends_with_slash (codes normalized) then append_text cleaned "/" else cleaned)
