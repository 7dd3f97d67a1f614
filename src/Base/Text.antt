-- ===== src/Base/Text.antt =====
-- The order of Go's strings, by bytes: for UTF-8 it is the order of the code points, which is the
-- native `compare`.
use Prim.Native.Nat.{ℕ, Ordering, compare as compare_ℕ}
use Prim.Native.Char.{code}
use Prim.Native.String.{String, compare, then}
use Prim.Native.String.compare
use mathlib.Core.Path.{◌≡◌, refl}
use mathlib.Core.Bool.{Bool, true, false}
use native.Mathlib.Omega.{arith}
use text.Mathlib.TextEquality.{path_by_compare}
use text.Mathlib.TextPositions.{compare_refl}

abbrev pub not_gt : Ordering → Bool
not_gt Ordering.gt = false
not_gt _ = true

abbrev pub text_leb : String → String → Bool
text_leb s t = not_gt (compare s t)

abbrev swap : Ordering → Ordering
swap Ordering.lt = Ordering.gt
swap Ordering.eq = Ordering.eq
swap Ordering.gt = Ordering.lt

compare-swap_ℕ : (a b : ℕ) → compare_ℕ a b ≡ swap (compare_ℕ b a)
compare-swap_ℕ a b = ground arith

then-swap : (a b : Ordering) → then (swap a) (swap b) ≡ swap (then a b)
then-swap Ordering.lt b = refl
then-swap Ordering.eq b = refl
then-swap Ordering.gt b = refl

compare-swap : (s t : String) → compare s t ≡ swap (compare t s)
compare-swap String.[] String.[] = refl
compare-swap String.[] (String.◌∷◌ d t) = rw (compare.nil-cons d t, compare.cons-nil d t)
compare-swap (String.◌∷◌ c s) String.[] = rw (compare.nil-cons c s, compare.cons-nil c s)
compare-swap (String.◌∷◌ c s) (String.◌∷◌ d t) =
    rw
      (
        compare.cons-cons c d s t,
        compare.cons-cons d c t s,
        compare-swap_ℕ (code c) (code d),
        compare-swap s t,
      )
      (then-swap (compare_ℕ (code d) (code c)) (compare t s))

then_trans :
    (a b c : ℕ) (o p q : Ordering)
    → (not_gt o ≡ true → not_gt p ≡ true → not_gt q ≡ true)
    → not_gt (then (compare_ℕ a b) o) ≡ true
    → not_gt (then (compare_ℕ b c) p) ≡ true
    → not_gt (then (compare_ℕ a c) q) ≡ true
then_trans a b c o p q ih h k = ground arith

pub text_leb_trans :
    (s t u : String) → text_leb s t ≡ true → text_leb t u ≡ true → text_leb s u ≡ true
text_leb_trans String.[] t String.[] h k = refl
text_leb_trans String.[] t (String.◌∷◌ e u) h k = rw (compare.nil-cons e u)
text_leb_trans (String.◌∷◌ c s) String.[] u h k = cc (compare.cons-nil c s)
text_leb_trans (String.◌∷◌ c s) (String.◌∷◌ d t) String.[] h k = cc (compare.cons-nil d t)
text_leb_trans (String.◌∷◌ c s) (String.◌∷◌ d t) (String.◌∷◌ e u) h k =
    rw (compare.cons-cons c e s u) (
      then_trans (code c) (code d) (code e) (compare s t) (compare t u) (compare s u)
        (text_leb_trans s t u) (rw (compare.cons-cons c d s t) at h)
        (rw (compare.cons-cons d e t u) at k))

swap-not_gt : (o : Ordering) → not_gt o ≡ false → not_gt (swap o) ≡ true
swap-not_gt o h = ground arith

pub text_leb_total : (s t : String) → text_leb s t ≡ false → text_leb t s ≡ true
text_leb_total s t h = rw (compare-swap t s) (swap-not_gt (compare s t) h)

eq_of_swap : (o : Ordering) → not_gt o ≡ true → not_gt (swap o) ≡ true → o ≡ Ordering.eq
eq_of_swap o h k = ground arith

pub text_leb_antisymm : (s t : String) → text_leb s t ≡ true → text_leb t s ≡ true → s ≡ t
text_leb_antisymm s t h k =
    path_by_compare s t (eq_of_swap (compare s t) h (rw (compare-swap t s) at k))

pub text_leb_refl : (s : String) → text_leb s s ≡ true
text_leb_refl s = rw (compare_refl s)
