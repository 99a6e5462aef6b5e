-- ===== src/State/Store/Reads.antt =====
-- The reads: `delta_since`, `max_timestamp`, and the anti-entropy exchange that they make up.
use native.Mathlib.Nat.{le_trans}
use rust_high_throughput_sta.Common.{
  ℕ, String, ◌≡◌, ◌<◌, ◌≤◌, inl, inr, ◌↔◌, some, List, [], ◌∷◌, arith, Bool-cases, All, All-map,
  ltb, ltb→lt,
}
use rust_high_throughput_sta.HashMap.{get}
use rust_high_throughput_sta.HashMap.Laws.{IsDistinct, get-filter_values, All-get, All_of_get}
use rust_high_throughput_sta.State.Crdt.{LwwValue}
use rust_high_throughput_sta.State.Store.{
  StateStore, StateDelta, lookup, delta_since, max_of, max_timestamp, timestamps, merge_delta,
  unwrap_or,
}
use rust_high_throughput_sta.State.Store.Covers.{Covers, Covers-trans, Precedes-absorb}
use rust_high_throughput_sta.State.Store.View.{lookup-merge_delta}
use rust_high_throughput_sta.State.Store.Merge.{merge_delta-Covers}

-- In a store with one entry for each key, a delta holds an entry exactly if the store does and its
-- stamp is after `since`.
pub get-delta_since :
    (since : ℕ) (s : StateStore) (k : String) (v : LwwValue)
    → IsDistinct s.state
    → (get k (delta_since since s) ≡ some v) ↔ ((lookup k s ≡ some v) × (since < v.timestamp))
unfolding delta_since lookup
get-delta_since since s k v d = (
  λ h. ground (arith, get-filter_values (λ w. ltb since w.timestamp) k s.state d),
  λ h. ground (arith, get-filter_values (λ w. ltb since w.timestamp) k s.state d),
)

pub max_of_bound : (xs : List ℕ) → All (λ x. x ≤ unwrap_or 0 (max_of xs)) xs
unfolding max_of
max_of_bound [] = tt
max_of_bound (x ∷ xs) = (ground arith, All-map (λ y h. le_trans h grows) xs (max_of_bound xs))
  where
    grows : unwrap_or 0 (max_of xs) ≤ unwrap_or 0 (max_of (x ∷ xs))
    grows = ground arith

pub max_of_least : (b : ℕ) (xs : List ℕ) → All (λ x. x ≤ b) xs → unwrap_or 0 (max_of xs) ≤ b
unfolding max_of
max_of_least b [] h = omega arith
max_of_least b (x ∷ xs) h = ground (arith, max_of_least b xs h.1)

All-timestamps :
    (P : ℕ → Type 0) (d : StateDelta) → All P (timestamps d) → All (λ e. P e.1.timestamp) d
All-timestamps P [] h = tt
All-timestamps P (e ∷ d) h = (h.0, All-timestamps P d h.1)

pub timestamps-All :
    (P : ℕ → Type 0) (d : StateDelta) → All (λ e. P e.1.timestamp) d → All P (timestamps d)
timestamps-All P [] h = tt
timestamps-All P (e ∷ d) h = (h.0, timestamps-All P d h.1)

-- The stamp that a sender records for a delta bounds every entry of it.
pub max_of-timestamps :
    (d : StateDelta) → All (λ e. e.1.timestamp ≤ unwrap_or 0 (max_of (timestamps d))) d
max_of-timestamps d =
    All-timestamps (λ t. t ≤ unwrap_or 0 (max_of (timestamps d))) d (max_of_bound (timestamps d))

-- In a store with one entry for each key, `max_timestamp` is at most `b` exactly if every stamp is:
-- it is the least upper bound of the stamps, 0 if there are none.
pub max_timestamp-le_iff :
    (s : StateStore) (b : ℕ)
    → IsDistinct s.state
    → (max_timestamp s ≤ b) ↔ ((k : String) (v : LwwValue) → lookup k s ≡ some v → v.timestamp ≤ b)
unfolding max_timestamp lookup
max_timestamp-le_iff s b d = (
  λ h k v e.
      le_trans
        (All-get (λ x. x.1.timestamp ≤ max_timestamp s) k v s.state (max_of-timestamps s.state) e)
        h,
  λ h.
      max_of_least b (timestamps s.state)
        (timestamps-All (λ t. t ≤ b) s.state (All_of_get (λ x. x.1.timestamp ≤ b) s.state d h)),
)

-- Let `a` have one entry for each key. Merging what is newer than `since` into a replica that
-- covers every entry up to `since` leaves it with every entry or a newer one.
pub pull-Covers :
    (since : ℕ) (a b : StateStore)
    → IsDistinct a.state
    → ((k : String) (v : LwwValue)
        → lookup k a ≡ some v
        → v.timestamp ≤ since
        → Covers (lookup k b) v)
    → (k : String) (v : LwwValue) → lookup k a ≡ some v
    → Covers (lookup k (merge_delta (delta_since since a) b).0) v
pull-Covers since a b da have k v h = elim (Bool-cases (ltb since v.timestamp)) [
  | inl newer ↦
      All-get (λ e. Covers (lookup e.0 (merge_delta (delta_since since a) b).0) e.1) k v
        (delta_since since a) (merge_delta-Covers (delta_since since a) b)
        ((get-delta_since since a k v da).1 (h, ltb→lt _ _ newer))
  | inr old ↦ rw lookup-merge_delta (
      Covers-trans (lookup k b) _ v (Precedes-absorb k (lookup k b) (delta_since since a))
        (have k v h (ground arith)))
]
