-- ===== src/Examples/State.antt =====
-- The theorems on values and stores at two concrete values.
use mathlib.Core.List.{mem-cons_self, mem-cons_of_mem}
use rust_high_throughput_sta.Common.{
  ◌≡◌, ◌≢◌, ◌⊎◌, ◌↔◌, ◌≤◌, ◌<◌, ◌/◌, ◌%◌, ◌^◌, inl, inr, refl, sym, ap, ◌∙◌, String, true, some,
  List, [], ◌∷◌, ◌++◌, arith, contains,
}
use rust_high_throughput_sta.HashMap.{get}
use rust_high_throughput_sta.State.Crdt.{LwwValue, since_epoch, merge}
use rust_high_throughput_sta.State.Crdt.Order.{SameStamp}
use rust_high_throughput_sta.State.Crdt.Laws.{merge_assoc, merge_comm_iff}
use rust_high_throughput_sta.State.Store
use rust_high_throughput_sta.State.Store.{
  StateStore, StateEvent, StateDelta, lookup, set, merge_delta, delta_since, max_timestamp,
}
use rust_high_throughput_sta.State.Store.Checks.{unit_tests, unit_tests_pass_iff}
use rust_high_throughput_sta.State.Store.View.{absorb, lookup-merge_delta}
use rust_high_throughput_sta.State.Store.Merge.{merge_delta-reports_changes}
use rust_high_throughput_sta.State.Store.Converge.{IsCoherent, same_entries_agree}
use rust_high_throughput_sta.State.Store.Events.{Announces, merge_delta-Announces}
use rust_high_throughput_sta.State.Store.Writes.{Wrote, stamped_value, set_lem, set_same_micro}
use rust_high_throughput_sta.State.Store.Reads.{get-delta_since, max_timestamp-le_iff}

abbrev pub older : LwwValue
older = record { value = "1"; timestamp = 5; node_id = "a" }

abbrev pub newer : LwwValue
newer = record { value = "2"; timestamp = 7; node_id = "b" }

abbrev pub replica : StateStore
replica = record { state = ("x", older) ∷ []; sent = []; channel_capacity = 16; node_id = "a" }

abbrev pub changes : StateDelta
changes = ("x", newer) ∷ ("y", older) ∷ []

abbrev repeated : StateDelta
repeated = ("y", older) ∷ ("x", newer) ∷ ("y", older) ∷ []

-- The two values, under any key.
abbrev Written : String → LwwValue → Type 0
Written k v = (v ≡ older) ⊎ (v ≡ newer)

Written-IsCoherent : IsCoherent Written
Written-IsCoherent k a b (inl p) (inl q) s = p ∙ sym q
Written-IsCoherent k a b (inl p) (inr q) s =
    ground (arith, ap (λ (v : LwwValue). v.timestamp) p, ap (λ (v : LwwValue). v.timestamp) q)
Written-IsCoherent k a b (inr p) (inl q) s =
    ground (arith, ap (λ (v : LwwValue). v.timestamp) p, ap (λ (v : LwwValue). v.timestamp) q)
Written-IsCoherent k a b (inr p) (inr q) s = p ∙ sym q

lookup-merge_delta_example :
    lookup "x" (merge_delta changes replica).0 ≡ absorb "x" (lookup "x" replica) changes
lookup-merge_delta_example = lookup-merge_delta "x" changes replica

same_entries_agree_example :
    lookup "x" (merge_delta changes (Store.created "a" 16)).0
    ≡ lookup "x" (merge_delta repeated (Store.created "b" 16)).0
same_entries_agree_example =
    same_entries_agree Written Written-IsCoherent changes repeated (inr refl, (inl refl, tt))
      (inl refl, (inr refl, (inl refl, tt)))
      (mem-cons_of_mem ("y", older) mem-cons_self, (mem-cons_self, tt))
      (
        mem-cons_of_mem ("x", newer) mem-cons_self,
        (mem-cons_self, (mem-cons_of_mem ("x", newer) mem-cons_self, tt)),
      )
      "x" "a" "b" 16 16

merge_delta-reports_changes_example :
    (contains (merge_delta changes replica).1 "x" ≡ true)
    ↔ (lookup "x" (merge_delta changes replica).0 ≢ lookup "x" replica)
merge_delta-reports_changes_example = merge_delta-reports_changes "x" changes replica

merge_delta-Announces_example :
    (events : List StateEvent) × ((merge_delta changes replica).0.sent ≡ [] ++ events)
    × Announces (merge_delta changes replica).0 (merge_delta changes replica).1 events
merge_delta-Announces_example = merge_delta-Announces changes replica

set_lem_example :
    (t : StateStore) × (winner : LwwValue) × (set (since_epoch 9000) "x" "3" replica
      ≡ some (t, winner))
    × Wrote "x" (stamped_value 9000 "3" replica) replica t winner
set_lem_example = set_lem 9000 "x" "3" replica

replica_old : (v : LwwValue) → lookup "x" replica ≡ some v → v.timestamp < 9
unfolding lookup get
replica_old v h = ground arith

set_same_micro_example :
    (t : StateStore) × (set (since_epoch 5000) "x" "3" replica ≡ some (t, older))
    × (lookup "x" t ≡ some older)
unfolding lookup get
set_same_micro_example = set_same_micro 5000 "x" "3" replica older refl refl refl

get-delta_since_example :
    (get "x" (delta_since 4 replica) ≡ some older) ↔ ((lookup "x" replica ≡ some older) × (4 < 5))
unfolding get
get-delta_since_example = get-delta_since 4 replica "x" older (refl, tt)

max_timestamp-le_iff_example :
    (max_timestamp replica ≤ 5)
    ↔ ((k : String) (v : LwwValue) → lookup k replica ≡ some v → v.timestamp ≤ 5)
unfolding get
max_timestamp-le_iff_example = max_timestamp-le_iff replica 5 (refl, tt)

stamps_after : (k : String) (v : LwwValue) → lookup k replica ≡ some v → 5 ≤ v.timestamp
unfolding lookup get
stamps_after k v h = ground arith

merge_assoc_example : merge (merge older newer) older ≡ merge older (merge newer older)
merge_assoc_example = merge_assoc older newer older

merge_comm_iff_example :
    (merge older newer ≡ merge newer older) ↔ (SameStamp older newer → older ≡ newer)
merge_comm_iff_example = merge_comm_iff older newer

unit_tests_pass_iff_example :
    (unit_tests 5000 7000 ≡ true) ↔ (5000 / 1000 % 2 ^ 64 < 7000 / 1000 % 2 ^ 64)
unit_tests_pass_iff_example = unit_tests_pass_iff 5000 7000 (omega arith) (omega arith)
