-- ===== src/HashMap.antt =====
-- std's `HashMap<String, V>` as the source uses it: an association list with one entry for each
-- key, in the order of iteration. No statement depends on that order.
pub mod Laws
use rust_high_throughput_sta.Common.{
  String, Bool, Option, none, some, List, [], ◌∷◌, ◌==◌, if◌then◌else◌,
}

abbrev pub HashMap {ℓ} : Type ℓ → Type ℓ
HashMap V = List (String × V)

module _ {ℓ} {V : Type ℓ} where
  unfoldable pub get : String → HashMap V → Option V
  get k [] = none
  get k ((j, v) ∷ m) = if j == k then some v else get k m

  -- The entry of a key that is there is overwritten in place.
  unfoldable pub insert : String → V → HashMap V → HashMap V
  insert k v [] = (k, v) ∷ []
  insert k v ((j, w) ∷ m) = if j == k then (k, v) ∷ m else (j, w) ∷ insert k v m

  -- `iter().filter(…)` on the values.
  unfoldable pub filter_values : (V → Bool) → HashMap V → HashMap V
  filter_values p [] = []
  filter_values p ((k, v) ∷ m) = let rest = filter_values p m in if p v then (k, v) ∷ rest else rest
