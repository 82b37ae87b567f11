-- ===== src/Acp/Named.antt =====
-- The paths that a request names to the policy of acp_runtime/permission_policy.py.
use imece_ide.Base.{
  String, true, false, ◌≡◌, ◌≢◌, refl, sym, subst, ap, ◌∙◌, some, none, List, [], ◌∷◌, arith,
  str_eq, Bool-cases, Option-cases, inl, inr, eq_iff,
}
use mathlib.Core.List.{Memᴰ}
use mathlib.Core.List.Memᴰ
use imece_ide.Json.{Value, Items, nil, item, Dict, get}
use imece_ide.Acp.{
  texts_of, paths_at, paths_of_keys, raw_input_candidate_paths, given_paths, is_nil,
  candidate_paths,
}

-- The keys under which a raw input names its paths.
abbrev pub path_keys : List String
path_keys =
    "path" ∷ "file_path" ∷ "filePath" ∷ "abs_path" ∷ "absPath" ∷ "new_path" ∷ "newPath" ∷ "old_path"
    ∷ "oldPath" ∷ []

-- A text among the items of a list.
pub data IsItem (p : String) : Items → Type 0 where
  here : {items : Items} → IsItem p (item (Value.str p) items)
  there : {v : Value} {items : Items} → IsItem p items → IsItem p (item v items)

-- A text, or a text in a list.
pub data IsTextOf (p : String) : Value → Type 0 where
  alone : IsTextOf p (Value.str p)
  listed : {items : Items} → IsItem p items → IsTextOf p (Value.list items)

-- A path that the request names: a location that is not empty; or, where there is none, what the raw
-- input has at a key for paths.
pub data IsNamed (locations : List String) : Value → String → Type 0 where
  by_location : {v : Value} {p : String} → Memᴰ p locations → p ≢ "" → IsNamed locations v p
  by_input :
      {d : Dict} {key p : String} {v : Value}
      → ((q : String) → Memᴰ q locations → q ≡ "")
      → Memᴰ key path_keys
      → get key d ≡ some v
      → IsTextOf p v
      → IsNamed locations (Value.dict d) p

given_mem : (p : String) (ps : List String) → Memᴰ p ps → p ≢ "" → Memᴰ p (given_paths ps)
unfolding given_paths
given_mem p [] m h = elim m [ ]
given_mem p (q ∷ ps) (Memᴰ.head e) h = elim (Bool-cases (str_eq q "")) [
  | inl t ↦ absurd (h (e ∙ (eq_iff q "").0 t))
  | inr t ↦ rw t (Memᴰ.head e)
]
given_mem p (q ∷ ps) (Memᴰ.tail m) h = elim (Bool-cases (str_eq q "")) [
  | inl t ↦ rw t (given_mem p ps m h)
  | inr t ↦ rw t (Memᴰ.tail (given_mem p ps m h))
]

differs : (q p : String) → str_eq q "" ≡ false → p ≡ q → p ≢ ""
differs q p h e f = let t = (eq_iff q "").1 (sym e ∙ f) in ground arith

mem_given : (p : String) (ps : List String) → Memᴰ p (given_paths ps) → Memᴰ p ps × (p ≢ "")
unfolding given_paths
mem_given p [] m = elim m [ ]
mem_given p (q ∷ ps) m = elim (Bool-cases (str_eq q "")) [
  | inl t ↦ let (n, h) = mem_given p ps (rw t at m) in (Memᴰ.tail n, h)
  | inr t ↦
      let n : Memᴰ p (q ∷ given_paths ps) = rw t at m in
      elim n [
        | Memᴰ.head e ↦ (Memᴰ.head e, differs q p t e)
        | Memᴰ.tail k ↦ let (k, h) = mem_given p ps k in (Memᴰ.tail k, h)
      ]
]

no_member : (p : String) (ps : List String) → is_nil ps ≡ true → Memᴰ p ps → ⊥
no_member p [] h m = elim m [ ]
no_member p (q ∷ ps) h m = ground arith

all_empty : (ps : List String) → is_nil (given_paths ps) ≡ true → (q : String) → Memᴰ q ps → q ≡ ""
all_empty ps h q m = elim (Bool-cases (str_eq q "")) [
  | inl t ↦ (eq_iff q "").0 t
  | inr t ↦
      let n = given_mem q ps m (differs q q t refl) in absurd (no_member q (given_paths ps) h n)
]

none_given :
    (ps : List String) → ((q : String) → Memᴰ q ps → q ≡ "") → is_nil (given_paths ps) ≡ true
unfolding given_paths
none_given [] h = refl
none_given (q ∷ ps) h =
    let t = (eq_iff q "").1 (h q (Memᴰ.head refl)) in
    rw t (none_given ps (λ p m. h p (Memᴰ.tail m)))

text_skip :
    (p : String) (v : Value) (items : Items)
    → Memᴰ p (texts_of items)
    → Memᴰ p (texts_of (item v items))
unfolding texts_of
text_skip p (Value.str s) items m = Memᴰ.tail m
text_skip p Value.null items m = m
text_skip p (Value.bool b) items m = m
text_skip p (Value.int n) items m = m
text_skip p (Value.float n) items m = m
text_skip p (Value.list l) items m = m
text_skip p (Value.dict d) items m = m

item_text : (p : String) (items : Items) → IsItem p items → Memᴰ p (texts_of items)
unfolding texts_of
item_text p _ here = Memᴰ.head refl
item_text p _ (there {v = v} {items = items} i) = text_skip p v items (item_text p items i)

text-IsItem : (p : String) (items : Items) → Memᴰ p (texts_of items) → IsItem p items
unfolding texts_of
text-IsItem p nil m = elim m [ ]
text-IsItem p (item (Value.str s) items) (Memᴰ.head e) = rw e here
text-IsItem p (item (Value.str s) items) (Memᴰ.tail m) = there (text-IsItem p items m)
text-IsItem p (item Value.null items) m = there (text-IsItem p items m)
text-IsItem p (item (Value.bool b) items) m = there (text-IsItem p items m)
text-IsItem p (item (Value.int n) items) m = there (text-IsItem p items m)
text-IsItem p (item (Value.float n) items) m = there (text-IsItem p items m)
text-IsItem p (item (Value.list l) items) m = there (text-IsItem p items m)
text-IsItem p (item (Value.dict d) items) m = there (text-IsItem p items m)

value_path : (p : String) (v : Value) → IsTextOf p v → Memᴰ p (paths_at (some v))
value_path p _ alone = Memᴰ.head refl
value_path p _ (listed {items = items} i) = item_text p items i

path_value : (p : String) (v : Value) → Memᴰ p (paths_at (some v)) → IsTextOf p v
path_value p (Value.str s) (Memᴰ.head e) = rw e alone
path_value p Value.null m = elim m [ ]
path_value p (Value.bool b) m = elim m [ ]
path_value p (Value.int n) m = elim m [ ]
path_value p (Value.float n) m = elim m [ ]
path_value p (Value.dict d) m = elim m [ ]
path_value p (Value.str s) (Memᴰ.tail m) = elim m [ ]
path_value p (Value.list items) m = listed (text-IsItem p items m)

keys_path :
    (p key : String) (v : Value) (keys : List String) (d : Dict)
    → Memᴰ key keys
    → get key d ≡ some v
    → IsTextOf p v
    → Memᴰ p (paths_of_keys keys d)
unfolding paths_of_keys
keys_path p key v [] d m g t = elim m [ ]
keys_path p key v (k ∷ keys) d (Memᴰ.head e) g t =
    Memᴰ.append_left _
      (subst (λ o. Memᴰ p (paths_at o)) (sym g ∙ ap (λ j. get j d) e) (value_path p v t))
keys_path p key v (k ∷ keys) d (Memᴰ.tail m) g t =
    Memᴰ.append_right (paths_at (get k d)) (keys_path p key v keys d m g t)

keys_found :
    (p : String) (keys : List String) (d : Dict)
    → Memᴰ p (paths_of_keys keys d)
    → (key : String) × (v : Value) × Memᴰ key keys × (get key d ≡ some v) × IsTextOf p v
unfolding paths_of_keys
keys_found p [] d m = elim m [ ]
keys_found p (k ∷ keys) d m = elim (Memᴰ.append_cases (paths_at (get k d)) m) [
  | inr n ↦ let (key, v, i, g, t) = keys_found p keys d n in (key, v, Memᴰ.tail i, g, t)
  | inl n ↦ elim (Option-cases (get k d)) [
    | inl q ↦
        let none_at : Memᴰ p (paths_at none) = subst (λ o. Memᴰ p (paths_at o)) q n in
        elim none_at [ ]
    | inr (v, q) ↦ (k, v, Memᴰ.head refl, q, path_value p v (subst (λ o. Memᴰ p (paths_at o)) q n))
  ]
]

-- The code's candidates are the paths that the request names.
pub named_candidate :
    (locations : List String) (raw_input : Value) (p : String)
    → IsNamed locations raw_input p
    → Memᴰ p (candidate_paths locations raw_input)
unfolding candidate_paths raw_input_candidate_paths
named_candidate locations v p (by_location m h) =
    let n = given_mem p locations m h in
    elim (Bool-cases (is_nil (given_paths locations))) [
      | inl t ↦ absurd (no_member p (given_paths locations) t n)
      | inr t ↦ rw t n
    ]
named_candidate locations _ p (by_input {d = d} {key = key} {v = v} empty k g t) =
    rw (none_given locations empty) (keys_path p key v path_keys d k g t)

input-IsNamed :
    (locations : List String) (raw_input : Value) (p : String)
    → ((q : String) → Memᴰ q locations → q ≡ "")
    → Memᴰ p (raw_input_candidate_paths raw_input)
    → IsNamed locations raw_input p
unfolding raw_input_candidate_paths
input-IsNamed locations (Value.dict d) p empty m =
    let (key, v, k, g, t) = keys_found p path_keys d m in by_input empty k g t
input-IsNamed locations Value.null p empty m = elim m [ ]
input-IsNamed locations (Value.bool b) p empty m = elim m [ ]
input-IsNamed locations (Value.int n) p empty m = elim m [ ]
input-IsNamed locations (Value.float n) p empty m = elim m [ ]
input-IsNamed locations (Value.str s) p empty m = elim m [ ]
input-IsNamed locations (Value.list l) p empty m = elim m [ ]

pub candidate-IsNamed :
    (locations : List String) (raw_input : Value) (p : String)
    → Memᴰ p (candidate_paths locations raw_input)
    → IsNamed locations raw_input p
unfolding candidate_paths
candidate-IsNamed locations v p m = elim (Bool-cases (is_nil (given_paths locations))) [
  | inr t ↦
      let n : Memᴰ p (given_paths locations) = rw t at m in
      let (k, h) = mem_given p locations n in by_location k h
  | inl t ↦ input-IsNamed locations v p (all_empty locations t) (rw t at m)
]
