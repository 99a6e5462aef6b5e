-- ===== src/State/Store/Stamps.antt =====
-- The greatest stamp of a store, as the store grows and as its entries are sent.
use mathlib.Core.Path.{subst}
use native.Mathlib.Nat.{le_refl}
use rust_high_throughput_sta.Common.{ℕ, ◌≤◌, ◌≡◌, refl, Option, none, some, arith, ltb}
use rust_high_throughput_sta.HashMap.Laws.{IsDistinct, All-filter_values}
use rust_high_throughput_sta.State.Crdt.{LwwValue}
use rust_high_throughput_sta.State.Crdt.Order.{stamp_le}
use rust_high_throughput_sta.State.Store.{
  StateStore, lookup, max_timestamp, max_of, timestamps, delta_since, unwrap_or,
}
use rust_high_throughput_sta.State.Store.Covers.{Covers, Precedes}
use rust_high_throughput_sta.State.Store.Reads.{
  max_timestamp-le_iff, max_of-timestamps, max_of_least, timestamps-All,
}
use rust_high_throughput_sta.State.Store.Effect.{Extends}

covered_stamp :
    (o : Option LwwValue) (v : LwwValue) (b : ℕ)
    → ((w : LwwValue) → o ≡ some w → w.timestamp ≤ b)
    → Covers o v
    → v.timestamp ≤ b
unfolding stamp_le
covered_stamp none v b h c = absurd c
covered_stamp (some w) v b h c = ground (arith, h w refl)

-- The greatest stamp of a store never falls.
pub max_timestamp_mono :
    (s t : StateStore) → IsDistinct s.state → Extends s t → max_timestamp s ≤ max_timestamp t
max_timestamp_mono s t d e = (max_timestamp-le_iff s (max_timestamp t) d).1 λ k v held.
    covered_stamp (lookup k t) v (max_timestamp t)
      ((max_timestamp-le_iff t (max_timestamp t) (e.distinct d)).0 (le_refl _) k)
      (subst (λ o. Precedes o (lookup k t)) held (e.precedes k))

pub delta_since-le-max_timestamp :
    (since : ℕ) (s : StateStore)
    → unwrap_or 0 (max_of (timestamps (delta_since since s))) ≤ max_timestamp s
unfolding delta_since max_timestamp
delta_since-le-max_timestamp since s =
    max_of_least (max_timestamp s) (timestamps (delta_since since s)) (
      timestamps-All (λ t. t ≤ max_timestamp s) (delta_since since s)
        (All-filter_values (λ e. e.1.timestamp ≤ max_timestamp s) (λ v. ltb since v.timestamp)
          s.state (max_of-timestamps s.state)))
