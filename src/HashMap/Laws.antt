-- ===== src/HashMap/Laws.antt =====
-- Lookup after a write and in a filtered map, and predicates of every entry.
use mathlib.Core.Path.{subst}
use mathlib.Core.Option.{some-injective}
use rust_high_throughput_sta.Common.{
  String, ◌≡◌, refl, Bool, Option, none, some, [], ◌∷◌, arith, eq_iff, eq_refl, All, inl, inr, ◌==◌,
  if◌then◌else◌, Bool-cases,
}
use rust_high_throughput_sta.HashMap.{HashMap, get, insert, filter_values}

module _ {ℓ} {V : Type ℓ} where
  pub get-insert :
      (k j : String) (v : V) (m : HashMap V)
      → get j (insert k v m) ≡ (if k == j then some v else get j m)
  unfolding get insert
  get-insert k j v [] = refl
  get-insert k j v ((i, w) ∷ m) =
      ground (arith, eq_iff k j, eq_iff i k, eq_iff i j, get-insert k j v m)

  pub get-insert_self : (k : String) (v : V) (m : HashMap V) → get k (insert k v m) ≡ some v
  get-insert_self k v m = simp (get-insert, eq_refl)

  -- Each key has one entry.
  abbrev pub IsDistinct : HashMap V → Type ℓ
  IsDistinct [] = Unit
  IsDistinct ((k, v) ∷ m) = (get k m ≡ none) × IsDistinct m

  pub insert-IsDistinct :
      (k : String) (v : V) (m : HashMap V) → IsDistinct m → IsDistinct (insert k v m)
  unfolding get insert
  insert-IsDistinct k v [] h = (refl, tt)
  insert-IsDistinct k v ((i, w) ∷ m) h =
      ground (arith, eq_iff i k, eq_iff k i, get-insert k i v m, insert-IsDistinct k v m h.1)

  -- What a filter leaves of a lookup.
  abbrev pub kept : (V → Bool) → Option V → Option V
  kept p none = none
  kept p (some v) = if p v then some v else none

  pub get-filter_values :
      (p : V → Bool) (k : String) (m : HashMap V)
      → IsDistinct m
      → get k (filter_values p m) ≡ kept p (get k m)
  unfolding get filter_values
  get-filter_values p k [] h = refl
  get-filter_values p k ((j, v) ∷ m) h = ground (arith, eq_iff j k, get-filter_values p k m h.1)

  pub filter_values-IsDistinct :
      (p : V → Bool) (m : HashMap V) → IsDistinct m → IsDistinct (filter_values p m)
  unfolding filter_values
  filter_values-IsDistinct p [] h = tt
  filter_values-IsDistinct p ((j, v) ∷ m) h =
      ground (arith, get-filter_values p j m h.1, filter_values-IsDistinct p m h.1)

module _ {ℓ κ} {V : Type ℓ} (P : String × V → Type κ) where
  pub All-insert : (k : String) (v : V) (m : HashMap V) → P (k, v) → All P m → All P (insert k v m)
  unfolding insert
  All-insert k v [] p h = (p, tt)
  All-insert k v ((j, w) ∷ m) p h = elim (Bool-cases (j == k)) [
    | inl e ↦ rw e (p, h.1)
    | inr e ↦ rw e (h.0, All-insert k v m p h.1)
  ]

  pub All-filter_values : (p : V → Bool) (m : HashMap V) → All P m → All P (filter_values p m)
  unfolding filter_values
  All-filter_values p [] h = tt
  All-filter_values p ((k, v) ∷ m) h = elim (Bool-cases (p v)) [
    | inl e ↦ rw e (h.0, All-filter_values p m h.1)
    | inr e ↦ rw e (All-filter_values p m h.1)
  ]

  pub All-get : (k : String) (v : V) (m : HashMap V) → All P m → get k m ≡ some v → P (k, v)
  unfolding get
  All-get k v [] h e = cc
  All-get k v ((j, w) ∷ m) h e = elim (Bool-cases (j == k)) [
    | inl t ↦ subst P (λ i. ((eq_iff j k).0 t i, some-injective w v (rw t at e) i)) h.0
    | inr f ↦ All-get k v m h.1 (rw f at e)
  ]

  pub All_of_get :
      (m : HashMap V)
      → IsDistinct m
      → ((k : String) (v : V) → get k m ≡ some v → P (k, v))
      → All P m
  unfolding get
  All_of_get [] d h = tt
  All_of_get ((j, w) ∷ m) d h =
      (h j w (rw eq_refl refl), All_of_get m d.1 λ k v e. h k v (ground (arith, eq_iff j k)))
