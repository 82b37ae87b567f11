-- ===== src/Process/Exact.antt =====
-- What is kept of an output, whatever the reads cut it into.
use Prim.Native.Nat.{min}
use imece_ide.Base.{
  ℕ, ◌+◌, ◌-◌, ◌/◌, ◌≤◌, ◌≡◌, refl, sym, ap, subst, ◌∙◌, inl, inr, true, false, ltb, ltb→lt, ltb→ge,
  Bool-cases, if◌then◌else◌, List, [], ◌∷◌, ◌++◌, append_assoc, append-nil, length, take, drop,
  length-take, length-drop, drop-drop, drop-nil, take-nil, take-append-drop, ok, guard_inv, arith,
}
use imece_ide.Process.{
  BoundedCapture, Read, chunk, failure, new_capture, feed, consume, is_truncated, Shown, whole, cut,
  text,
}
use imece_ide.Process.Holds.{last, last_all, feed-Holds, Holds}

-- The bytes that are read before the end of the stream or an exception.
abbrev pub given : List Read → List ℕ
given [] = []
given (failure ∷ rest) = []
given (chunk [] ∷ rest) = []
given (chunk (b ∷ bs) ∷ rest) = (b ∷ bs) ++ given rest

consume-Holds :
    (limit : ℕ) (reads : List Read) (bytes : List ℕ) (c : BoundedCapture)
    → Holds limit c bytes
    → Holds limit (consume reads c) (bytes ++ given reads)
unfolding consume
consume-Holds limit [] bytes c a = subst (Holds limit c) (sym (append-nil bytes)) a
consume-Holds limit (failure ∷ rest) bytes c a =
    subst (Holds limit (record c { has_error = true })) (sym (append-nil bytes)) (record {
      all_limit = a.all_limit;
      head_half = a.head_half;
      tail_half = a.tail_half;
      head = a.head;
      tail = a.tail;
      total = a.total;
    })
consume-Holds limit (chunk [] ∷ rest) bytes c a = subst (Holds limit c) (sym (append-nil bytes)) a
consume-Holds limit (chunk (b ∷ bs) ∷ rest) bytes c a =
    subst (Holds limit (consume rest (feed (b ∷ bs) c))) (append_assoc bytes (b ∷ bs) (given rest))
      (consume-Holds limit rest (bytes ++ b ∷ bs) (feed (b ∷ bs) c)
        (feed-Holds limit (b ∷ bs) bytes c a))

last-nil : (n k : ℕ) → last n (drop k []) ≡ []
last-nil n k = ap (last n) (drop-nil k) ∙ drop-nil (0 - n)

new_capture-Holds : (limit : ℕ) (c : BoundedCapture) → new_capture limit ≡ ok c → Holds limit c []
unfolding new_capture
new_capture-Holds limit c h =
    let (_, h) = guard_inv (ltb 0 limit) _ h in
    let made : record {
      limit = limit;
      head_limit = limit / 2;
      tail_limit = limit - limit / 2;
      head = [];
      tail = [];
      total = 0;
      has_error = false;
    }
        ≡ c =
      ground arith in
    subst (λ x. Holds limit x []) made
      (record {
        all_limit = refl;
        head_half = refl;
        tail_half = refl;
        head = sym (take-nil (limit / 2));
        tail = sym (last-nil (limit - limit / 2) (limit / 2));
        total = refl;
      })

-- All bytes where they fit, or else the first half of the limit, and the last bytes.
abbrev pub shown : ℕ → List ℕ → Shown
shown limit bytes =
    if ltb limit (length bytes)
    then cut (take (limit / 2) bytes) (length bytes - limit) (last (limit - limit / 2) bytes)
    else whole bytes

Holds-text :
    (limit : ℕ) (bytes : List ℕ) (c : BoundedCapture)
    → Holds limit c bytes
    → (text c ≡ shown limit bytes) × (length c.head + length c.tail ≤ limit)
unfolding text is_truncated
Holds-text limit bytes c a =
    let head : c.head ≡ take (limit / 2) bytes = a.head ∙ ap (λ n. take n bytes) a.head_half in
    let tail : c.tail ≡ last (limit - limit / 2) (drop (limit / 2) bytes) =
      a.tail ∙ (λ i. last (a.tail_half i) (drop (a.head_half i) bytes)) in
    let heads : length c.head ≡ min (limit / 2) (length bytes) =
      ap length head ∙ length-take (limit / 2) bytes in
    let left = length-drop (limit / 2) bytes in
    let tails : length c.tail
        ≡ length bytes - limit / 2 - (length bytes - limit / 2 - (limit - limit / 2)) =
      ap length tail
      ∙ length-drop (length (drop (limit / 2) bytes) - (limit - limit / 2)) (drop (limit / 2) bytes)
      ∙ ap (λ n. n - (n - (limit - limit / 2))) left in
    let test : ltb c.limit c.total ≡ ltb limit (length bytes) =
      λ i. ltb (a.all_limit i) (a.total i) in
    (
      elim (Bool-cases (ltb limit (length bytes))) [
        | inl e ↦
            let long = ltb→lt limit (length bytes) e in
            let omitted : c.total - length c.head - length c.tail ≡ length bytes - limit =
              omega (arith, a.total, heads, tails, long) in
            let skipped : limit / 2 + (length (drop (limit / 2) bytes) - (limit - limit / 2))
                ≡ length bytes - (limit - limit / 2) =
              omega (arith, left, long) in
            let ends : c.tail ≡ last (limit - limit / 2) bytes =
              tail
              ∙ drop-drop (length (drop (limit / 2) bytes) - (limit - limit / 2)) (limit / 2) bytes
              ∙ ap (λ n. drop n bytes) skipped in
            rw (test, e) (λ i. cut (head i) (omitted i) (ends i))
        | inr e ↦
            let short = ltb→ge limit (length bytes) e in
            let fits : length (drop (limit / 2) bytes) ≤ limit - limit / 2 =
              omega (arith, left, short) in
            let all : c.head ++ c.tail ≡ bytes =
              (λ i. head i ++ tail i)
              ∙ ap (take (limit / 2) bytes ++◌)
                  (last_all (limit - limit / 2) (drop (limit / 2) bytes) fits)
              ∙ take-append-drop (limit / 2) bytes in
            rw (test, e) (ap whole all)
      ],
      omega (arith, heads, tails),
    )

-- What a capture shows of an output depends on the bytes alone, not on the reads that gave them: all
-- of them where they fit the limit, and otherwise the first and the last ones, as many as the limit,
-- with the number of those left out. It never holds more bytes than the limit.
pub consume-text :
    (limit : ℕ) (reads : List Read) (c : BoundedCapture)
    → new_capture limit ≡ ok c
    → (text (consume reads c) ≡ shown limit (given reads))
      × (length (consume reads c).head + length (consume reads c).tail ≤ limit)
consume-text limit reads c h =
    Holds-text limit (given reads) (consume reads c)
      (consume-Holds limit reads [] c (new_capture-Holds limit c h))
