-- ===== src/Base/Texts.antt =====
-- Python's `str`, as the native text: its code points, `len`, slices, `strip` and `replace`.
use Prim.Native.Nat.{ℕ, zero, suc, ◌+◌}
use mathlib.Core.Path.{◌≡◌, refl, ap}
use native.Mathlib.Omega.{arith}
use Prim.Native.Char.{code}
use Prim.Native.String.{String}
use mathlib.Core.Bool.{Bool, not, ◌&&◌, ◌||◌}
use mathlib.Core.List.{List, [], ◌∷◌}
use imece_ide.Base.Tests.{leb, ◌==◌, if◌then◌else◌}
use imece_ide.Base.Lists.{length, any, all}

abbrev pub codes : String → List ℕ
codes String.[] = []
codes (String.◌∷◌ c s) = code c ∷ codes s

-- len(value)
abbrev pub text_length : String → ℕ
text_length s = length (codes s)

abbrev pub in_range : ℕ → ℕ → ℕ → Bool
in_range lo hi c = leb lo c && leb c hi

-- str.isspace() of one character
unfoldable pub is_space : ℕ → Bool
is_space c =
    in_range 9 13 c
    || in_range 28 32 c
    || c == 0x85
    || c == 0xa0
    || c == 0x1680
    || in_range 0x2000 0x200a c
    || in_range 0x2028 0x2029 c
    || c == 0x202f
    || c == 0x205f
    || c == 0x3000

-- `not value.strip()`
unfoldable pub is_blank : String → Bool
is_blank s = all is_space (codes s)

-- "\x00" in value
unfoldable pub has_nul : String → Bool
has_nul s = any (λ c. c == 0) (codes s)

-- value[:n]
unfoldable pub take_text : ℕ → String → String
take_text zero s = String.[]
take_text (suc n) String.[] = String.[]
take_text (suc n) (String.◌∷◌ c s) = String.◌∷◌ c (take_text n s)

-- value + other
unfoldable pub append_text : String → String → String
append_text String.[] t = t
append_text (String.◌∷◌ c s) t = String.◌∷◌ c (append_text s t)

-- value.replace("\x00", "")
unfoldable pub drop_nul : String → String
drop_nul String.[] = String.[]
drop_nul (String.◌∷◌ c s) = let rest = drop_nul s in if code c == 0 then rest else String.◌∷◌ c rest

-- A value that matches [A-Za-z0-9._-]+ and has at most 128 characters: a bounded stable identifier.
id_char : ℕ → Bool
id_char c =
    in_range b'A' b'Z' c
    || in_range b'a' b'z' c
    || in_range b'0' b'9' c
    || c == b'.'
    || c == b'_'
    || c == b'-'

unfoldable pub is_stable_id : String → Bool
unfolding id_char
is_stable_id s = leb 1 (text_length s) && leb (text_length s) 128 && all id_char (codes s)

-- `_bounded_text` of several modules: text without NUL, with something in it unless `allow_empty`,
-- and of at most `max_chars` characters.
unfoldable pub is_bounded_text : ℕ → Bool → String → Bool
is_bounded_text max_chars allow_empty s =
    not (has_nul s) && (allow_empty || not (is_blank s)) && leb (text_length s) max_chars

-- [0-9a-f]{64}
unfoldable pub is_sha256 : String → Bool
is_sha256 s =
    text_length s == 64 && all (λ c. in_range b'0' b'9' c || in_range b'a' b'f' c) (codes s)

pub text_length-append_text :
    (s t : String) → text_length (append_text s t) ≡ text_length s + text_length t
unfolding append_text
text_length-append_text String.[] t = omega arith
text_length-append_text (String.◌∷◌ c s) t = omega (arith, text_length-append_text s t)

pub append_text_assoc :
    (s t u : String) → append_text (append_text s t) u ≡ append_text s (append_text t u)
unfolding append_text
append_text_assoc String.[] t u = refl
append_text_assoc (String.◌∷◌ c s) t u = ap (String.◌∷◌ c) (append_text_assoc s t u)
