-- ===== src/Common/Text.antt =====
-- The order of texts, Rust's `Ord` on `str`: the native comparison is by code points, which is the
-- order of the UTF-8 bytes.
use Prim.Native.Nat.{ℕ, compare as compare_ℕ, Ordering}
use Prim.Native.Char.{code}
use Prim.Native.String.compare
use Prim.Native.String.{String, [], ◌∷◌, compare, then}
use mathlib.Core.Path.{◌≡◌, refl}
use mathlib.Core.Bool.{Bool, true, false}
use native.Mathlib.Omega.{arith}
use text.Mathlib.TextEquality.{path_by_compare}

-- `s <= t`
abbrev pub text_le : String → String → Bool
text_le s t = elim (compare s t) [ Ordering.gt ↦ false | _ ↦ true ]

-- `s >= t`
abbrev pub text_ge : String → String → Bool
text_ge s t = elim (compare s t) [ Ordering.lt ↦ false | _ ↦ true ]

pub swap : Ordering → Ordering
swap Ordering.lt = Ordering.gt
swap Ordering.eq = Ordering.eq
swap Ordering.gt = Ordering.lt

compare_ℕ-swap : (m n : ℕ) → compare_ℕ n m ≡ swap (compare_ℕ m n)
unfolding swap
compare_ℕ-swap m n = ground arith

then-swap : (o p r q : Ordering) → p ≡ swap o → q ≡ swap r → then p q ≡ swap (then o r)
unfolding swap
then-swap Ordering.lt p r q e f = ground arith
then-swap Ordering.eq p r q e f = ground arith
then-swap Ordering.gt p r q e f = ground arith

pub compare-swap : (s t : String) → compare t s ≡ swap (compare s t)
compare-swap [] [] = unfold swap in refl
compare-swap [] (d ∷ t) = rw (compare.nil-cons d t, compare.cons-nil d t) (unfold swap in refl)
compare-swap (c ∷ s) [] = rw (compare.nil-cons c s, compare.cons-nil c s) (unfold swap in refl)
compare-swap (c ∷ s) (d ∷ t) =
    rw (compare.cons-cons c d s t, compare.cons-cons d c t s)
      (then-swap (compare_ℕ (code c) (code d)) (compare_ℕ (code d) (code c)) (compare s t)
        (compare t s) (compare_ℕ-swap _ _) (compare-swap s t))

-- The answer for two texts that share no first character is that of the first characters.
abbrev below : Ordering → Bool
below Ordering.gt = false
below _ = true

then-below :
    (m n k : ℕ) (a b c : Ordering)
    → (below a ≡ true → below b ≡ true → below c ≡ true)
    → below (then (compare_ℕ m n) a) ≡ true
    → below (then (compare_ℕ n k) b) ≡ true
    → below (then (compare_ℕ m k) c) ≡ true
then-below m n k a b c h p q = ground arith

compare-below :
    (s t u : String)
    → below (compare s t) ≡ true
    → below (compare t u) ≡ true
    → below (compare s u) ≡ true
compare-below [] t [] p q = refl
compare-below [] t (e ∷ u) p q = rw (compare.nil-cons e u) refl
compare-below (c ∷ s) [] u p q = let p' = rw (compare.cons-nil c s) at p in cc
compare-below (c ∷ s) (d ∷ t) [] p q = let q' = rw (compare.cons-nil d t) at q in cc
compare-below (c ∷ s) (d ∷ t) (e ∷ u) p q = rw (compare.cons-cons c e s u) (
    then-below (code c) (code d) (code e) (compare s t) (compare t u) (compare s u)
      (compare-below s t u) (rw (compare.cons-cons c d s t) at p)
      (rw (compare.cons-cons d e t u) at q))

pub text_le_trans : (s t u : String) → text_le s t ≡ true → text_le t u ≡ true → text_le s u ≡ true
text_le_trans s t u p q = compare-below s t u p q

pub text_le_total : (s t : String) → text_le s t ≡ false → text_le t s ≡ true
unfolding swap
text_le_total s t h = ground (arith, compare-swap s t)

pub text_le_antisymm : (s t : String) → text_le s t ≡ true → text_le t s ≡ true → s ≡ t
unfolding swap
text_le_antisymm s t p q = path_by_compare s t (ground (arith, compare-swap s t))

pub text_ge-flip : (s t : String) → text_ge s t ≡ text_le t s
unfolding swap
text_ge-flip s t = ground (arith, compare-swap s t)
