-- ===== src/Collab/Models/Order.antt =====
-- The order of texts by code points, and sorting by it.
use imece_ide.Base.{
  ◌≡◌, refl, sym, ap, ◌∙◌, String, true, false, Bool-cases, inl, inr, List, [], ◌∷◌, arith,
}
use imece_ide.Collab.Models.{precedes, insert_interface, sort_interfaces}
use Prim.Native.Char.{code}
use Prim.Native.String.{compare, then as then_order}
use Prim.Native.String.compare
use Prim.Native.Nat.{ℕ, Ordering, compare as compare_ℕ}

then_swap :
    (a b : ℕ) (x y : Ordering)
    → (x ≡ Ordering.gt → y ≡ Ordering.lt)
    → then_order (compare_ℕ a b) x ≡ Ordering.gt
    → then_order (compare_ℕ b a) y ≡ Ordering.lt
then_swap a b x y f h = ground (arith, f)

compare-swap : (a b : String) → compare a b ≡ Ordering.gt → compare b a ≡ Ordering.lt
compare-swap String.[] String.[] h = absurd (ground (arith, h, compare.nil-nil))
compare-swap String.[] (String.◌∷◌ d t) h = absurd (ground (arith, h, compare.nil-cons d t))
compare-swap (String.◌∷◌ c s) String.[] h = compare.nil-cons c s
compare-swap (String.◌∷◌ c s) (String.◌∷◌ d t) h =
    compare.cons-cons d c t s
    ∙ then_swap (code c) (code d) (compare s t) (compare t s) (compare-swap s t)
        (sym (compare.cons-cons c d s t) ∙ h)

precedes_total : (a b : String) → precedes a b ≡ false → precedes b a ≡ true
unfolding precedes
precedes_total a b h = ground (arith, compare-swap a b)

-- An entry stands before the first of a list, if there is one.
Heads : String × String → List (String × String) → Type 0
Heads x [] = Unit
Heads x (y ∷ ys) = precedes x.0 y.0 ≡ true

pub Sorted : List (String × String) → Type 0
Sorted [] = Unit
Sorted (x ∷ xs) = Heads x xs × Sorted xs

Heads-insert :
    (x y : String × String) (ys : List (String × String))
    → precedes x.0 y.0 ≡ false
    → Heads y ys
    → Heads y (insert_interface x ys)
unfolding insert_interface Heads
Heads-insert x y [] h k = precedes_total x.0 y.0 h
Heads-insert x y (z ∷ zs) h k = elim (Bool-cases (precedes x.0 z.0)) [
  | inl e ↦ rw e (precedes_total x.0 y.0 h)
  | inr e ↦ rw e k
]

insert-Sorted :
    (x : String × String) (ys : List (String × String)) → Sorted ys → Sorted (insert_interface x ys)
unfolding insert_interface Sorted Heads
insert-Sorted x [] s = (tt, tt)
insert-Sorted x (y ∷ ys) s = elim (Bool-cases (precedes x.0 y.0)) [
  | inl e ↦ rw e (e, s)
  | inr e ↦ rw e (Heads-insert x y ys e s.0, insert-Sorted x ys s.1)
]

pub sort-Sorted : (xs : List (String × String)) → Sorted (sort_interfaces xs)
unfolding sort_interfaces Sorted
sort-Sorted [] = tt
sort-Sorted (x ∷ xs) = insert-Sorted x (sort_interfaces xs) (sort-Sorted xs)

insert-Heads :
    (x : String × String) (xs : List (String × String))
    → Heads x xs
    → insert_interface x xs ≡ x ∷ xs
unfolding insert_interface Heads
insert-Heads x [] h = refl
insert-Heads x (y ∷ ys) h = rw h refl

pub Sorted-sort : (xs : List (String × String)) → Sorted xs → sort_interfaces xs ≡ xs
unfolding sort_interfaces Sorted
Sorted-sort [] s = refl
Sorted-sort (x ∷ xs) s = ap (insert_interface x) (Sorted-sort xs s.1) ∙ insert-Heads x xs s.0
