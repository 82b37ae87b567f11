-- ===== src/Process/Holds.antt =====
-- What a capture of process_runtime/capture.py holds of the bytes that it was given.
use Prim.Native.Nat.{min}
use imece_ide.Base.{
  ℕ, ◌+◌, ◌-◌, ◌/◌, ◌≤◌, ◌≡◌, refl, sym, ap, subst, ◌∙◌, inl, inr, ltb, ltb→ge, Bool-cases, List,
  [], ◌∷◌, ◌++◌, append-nil, length, take, drop, length-append, length-take, length-drop,
  take_append, drop_append, take_all, drop_all, drop-drop, arith,
}
use imece_ide.Process.{BoundedCapture, keep_last, extend_tail, feed}

-- The last of a list, as many as a number.
abbrev pub last : ℕ → List ℕ → List ℕ
last n xs = drop (length xs - n) xs

keep_last_lem : (n : ℕ) (xs : List ℕ) → keep_last n xs ≡ last n xs
unfolding keep_last
keep_last_lem n xs = elim (Bool-cases (ltb n (length xs))) [
  | inl e ↦ rw e refl
  | inr e ↦
      let z : 0 ≡ length xs - n = omega (arith, ltb→ge n (length xs) e) in
      rw e (ap (λ k. drop k xs) z)
]

last_last : (n : ℕ) (xs ys : List ℕ) → last n (last n xs ++ ys) ≡ last n (xs ++ ys)
last_last n xs ys =
    let k = length xs - n in
    let inside : k - length xs ≡ 0 = omega arith in
    let joined : drop k xs ++ ys ≡ drop k (xs ++ ys) =
      sym (drop_append k xs ys ∙ ap (λ j. drop k xs ++ drop j ys) inside) in
    let count : k + (length (drop k (xs ++ ys)) - n) ≡ length (xs ++ ys) - n =
      omega (arith, length-drop k (xs ++ ys), length-append xs ys) in
    ap (last n) joined
    ∙ drop-drop (length (drop k (xs ++ ys)) - n) k (xs ++ ys)
    ∙ ap (λ j. drop j (xs ++ ys)) count

length-last : (n : ℕ) (xs : List ℕ) → length (last n xs) ≤ n
length-last n xs = omega (arith, length-drop (length xs - n) xs)

pub last_all : (n : ℕ) (xs : List ℕ) → length xs ≤ n → last n xs ≡ xs
last_all n xs h = let z : length xs - n ≡ 0 = omega (arith, h) in ap (λ k. drop k xs) z

-- What a capture holds of the bytes that it was given.
pub record Holds (limit : ℕ) (c : BoundedCapture) (bytes : List ℕ) : Type 0 where
  pub all_limit : c.limit ≡ limit
  pub head_half : c.head_limit ≡ limit / 2
  pub tail_half : c.tail_limit ≡ limit - limit / 2
  pub head : c.head ≡ take c.head_limit bytes
  pub tail : c.tail ≡ last c.tail_limit (drop c.head_limit bytes)
  pub total : c.total ≡ length bytes

extend_tail_lem :
    (bytes : List ℕ) (c : BoundedCapture)
    → length c.tail ≤ c.tail_limit
    → extend_tail bytes c ≡ record c { tail = last c.tail_limit (c.tail ++ bytes) }
unfolding extend_tail
extend_tail_lem [] c h =
    let same : c.tail ≡ last c.tail_limit (c.tail ++ []) =
      sym (ap (last c.tail_limit) (append-nil c.tail) ∙ last_all c.tail_limit c.tail h) in
    ap (λ t. record c { tail = t }) same
extend_tail_lem (b ∷ bs) c h =
    ap (λ t. record c { tail = t }) (keep_last_lem c.tail_limit (c.tail ++ b ∷ bs))

take-min : (n : ℕ) (xs : List ℕ) → take (min n (length xs)) xs ≡ take n xs
take-min n xs = elim (Bool-cases (ltb n (length xs))) [
  | inl e ↦ let z : min n (length xs) ≡ n = ground (arith, e) in ap (λ k. take k xs) z
  | inr e ↦
      let short = ltb→ge n (length xs) e in
      let z : length xs ≤ min n (length xs) = omega (arith, short) in
      take_all (min n (length xs)) xs z ∙ sym (take_all n xs short)
]

drop-min : (n : ℕ) (xs : List ℕ) → drop (min n (length xs)) xs ≡ drop n xs
drop-min n xs = elim (Bool-cases (ltb n (length xs))) [
  | inl e ↦ let z : min n (length xs) ≡ n = ground (arith, e) in ap (λ k. drop k xs) z
  | inr e ↦
      let short = ltb→ge n (length xs) e in
      let z : length xs ≤ min n (length xs) = omega (arith, short) in
      drop_all (min n (length xs)) xs z ∙ sym (drop_all n xs short)
]

-- What a capture holds after its head and its tail are extended by parts of what was read.
extended :
    (limit : ℕ) (more bytes now later : List ℕ) (c : BoundedCapture)
    → Holds limit c bytes
    → now ≡ take (c.head_limit - length bytes) more
    → later ≡ drop (c.head_limit - length bytes) more
    → Holds limit
        (extend_tail later (record c { total = c.total + length more; head = c.head ++ now }))
        (bytes ++ more)
extended limit more bytes now later c a first rest =
    let d = record c { total = c.total + length more; head = c.head ++ now } in
    let fits : length c.tail ≤ c.tail_limit =
      subst (λ t. length t ≤ c.tail_limit) (sym a.tail)
        (length-last c.tail_limit (drop c.head_limit bytes)) in
    subst (λ x. Holds limit x (bytes ++ more)) (sym (extend_tail_lem later d fits))
      (record {
        all_limit = a.all_limit;
        head_half = a.head_half;
        tail_half = a.tail_half;
        head =
            ap (λ h. h ++ now) a.head
            ∙ ap (λ n. take c.head_limit bytes ++ n) first
            ∙ sym (take_append c.head_limit bytes more);
        tail =
            ap (λ t. last c.tail_limit (t ++ later)) a.tail
            ∙ last_last c.tail_limit (drop c.head_limit bytes) later
            ∙ ap (λ l. last c.tail_limit (drop c.head_limit bytes ++ l)) rest
            ∙ ap (last c.tail_limit) (sym (drop_append c.head_limit bytes more));
        total = ap (λ n. n + length more) a.total ∙ sym (length-append bytes more);
      })

pub feed-Holds :
    (limit : ℕ) (more bytes : List ℕ) (c : BoundedCapture)
    → Holds limit c bytes
    → Holds limit (feed more c) (bytes ++ more)
unfolding feed
feed-Holds limit more bytes c a =
    let size : length c.head ≡ min c.head_limit (length bytes) =
      ap length a.head ∙ length-take c.head_limit bytes in
    elim (Bool-cases (ltb (length c.head) c.head_limit)) [
      | inl e ↦
          let same : c.head_limit - length c.head ≡ c.head_limit - length bytes =
            ground (arith, e, size) in
          rw e (
            extended limit more bytes (take (min (c.head_limit - length c.head) (length more)) more)
              (drop (min (c.head_limit - length c.head) (length more)) more) c a
              (take-min (c.head_limit - length c.head) more ∙ ap (λ k. take k more) same)
              (drop-min (c.head_limit - length c.head) more ∙ ap (λ k. drop k more) same))
      | inr e ↦
          let full : 0 ≡ c.head_limit - length bytes =
            omega (arith, size, ltb→ge (length c.head) c.head_limit e) in
          let kept : c.head ++ [] ≡ c.head = append-nil c.head in
          rw e (
            subst
              (λ h.
                Holds limit
                  (extend_tail more (record c { total = c.total + length more; head = h }))
                  (bytes ++ more))
              kept
              (extended limit more bytes [] more c a (ap (λ k. take k more) full)
                (ap (λ k. drop k more) full)))
    ]
