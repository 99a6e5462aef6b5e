-- ===== src/State/Store/Checks.antt =====
-- The unit tests of src/state/crdt.rs and src/state/store.rs, as functions of the readings of the
-- clock. An `unwrap` of `None` and a panic of the clock fail the test.
use Prim.Native.Nat.{◌-◌}
use rust_high_throughput_sta.Common.{
  ◌↔◌, ℕ, ◌+◌, ◌/◌, ◌%◌, ◌^◌, ◌<◌, String, ◌≡◌, refl, Bool, true, false, ◌&&◌, Option, none, some,
  List, [], ◌∷◌, arith, map, ◌==◌, eqb, length, ltb,
}
use rust_high_throughput_sta.HashMap.{get, insert, filter_values}
use rust_high_throughput_sta.State.Crdt
use rust_high_throughput_sta.State.Crdt.{
  LwwValue, SystemTime, since_epoch, merge, lww_eq, now_micros,
}
use rust_high_throughput_sta.State.Store.Writes.{stamped_value, set-after_set, after_set}
use rust_high_throughput_sta.State.Crdt.Laws.{merge_idem, merge_of_le, merge_of_gt}
use rust_high_throughput_sta.State.Crdt.Order.{stamp_le, lww_eq_iff}
use rust_high_throughput_sta.State.Store
use rust_high_throughput_sta.State.Store.{
  StateStore, StateDelta, lookup, set, merge_delta, delta_since, merge_entries, emit, publish, send,
}

abbrev passes : {A : Type 0} → (A → Bool) → Option A → Bool
passes test none = false
passes test (some a) = test a

-- `StateStore::new("node-1", 64)`, and a write to it.
abbrev on_new : {A : Type 0} → (StateStore → Option A) → Option A
on_new f = elim (Store.new "node-1" 64) [ none ↦ none | some store ↦ f store ]

abbrev is_single : String → List String → Bool
is_single k (j ∷ []) = j == k
is_single k keys = false

unfoldable pub merge_higher_timestamp_wins : Bool
unfolding merge
merge_higher_timestamp_wins =
    let old : LwwValue = record { value = "old"; timestamp = 100; node_id = "a" } in
    let new : LwwValue = record { value = "new"; timestamp = 200; node_id = "b" } in
    (merge old new).value == "new" && (merge new old).value == "new"

unfoldable pub merge_tie_broken_by_node_id : Bool
unfolding merge
merge_tie_broken_by_node_id =
    let a : LwwValue = record { value = "a"; timestamp = 100; node_id = "node-z" } in
    let b : LwwValue = record { value = "b"; timestamp = 100; node_id = "node-a" } in
    (merge a b).value == "a" && (merge b a).value == "a"

unfoldable pub merge_is_idempotent : SystemTime → Bool
merge_is_idempotent now = passes (λ v. lww_eq (merge v v) v) (Crdt.new now "x" "n")

unfoldable pub set_and_get_roundtrip : SystemTime → Bool
set_and_get_roundtrip now =
    passes (λ r. passes (λ v. v.value == "bar" && v.node_id == "node-1") (lookup "foo" r.0))
      (on_new (set now "foo" "bar"))

-- The sum of the time stamp and a second is a `u64`.
unfoldable pub merge_delta_updates_stale_entries : SystemTime → Bool
merge_delta_updates_stale_entries now =
    passes
      (λ r.
        passes
          (λ held.
            let remote : LwwValue = record {
              value = "remote";
              timestamp = held.timestamp + 1_000_000;
              node_id = "node-2";
            } in
            let (store, updated) = merge_delta (("k", remote) ∷ []) r.0 in
            ltb remote.timestamp (2 ^ 64)
            && is_single "k" updated
            && passes (λ v. v.value == "remote") (lookup "k" store))
          (lookup "k" r.0))
      (on_new (set now "k" "local"))

-- The difference of the time stamp and 1 is not below 0.
unfoldable pub merge_delta_does_not_regress : SystemTime → Bool
merge_delta_does_not_regress now =
    passes
      (λ r.
        passes
          (λ held.
            let stale : LwwValue = record {
              value = "stale";
              timestamp = held.timestamp - 1;
              node_id = "node-2";
            } in
            let (store, updated) = merge_delta (("k", stale) ∷ []) r.0 in
            ltb 0 held.timestamp
            && eqb (length updated) 0
            && passes (λ v. v.value == "current") (lookup "k" store))
          (lookup "k" r.0))
      (on_new (set now "k" "current"))

-- `later` is the clock after the sleep.
unfoldable pub delta_since_filters_correctly : SystemTime → SystemTime → Bool
delta_since_filters_correctly now later =
    passes
      (λ r.
        passes
          (λ held.
            passes (λ q. is_single "b" (map (λ e. e.0) (delta_since held.timestamp q.0)))
              (set later "b" "2" r.0))
          (lookup "a" r.0))
      (on_new (set now "a" "1"))

-- All of them, with the readings of the clock that they make.
abbrev pub unit_tests : ℕ → ℕ → Bool
unit_tests a b =
    merge_higher_timestamp_wins
    && (merge_tie_broken_by_node_id
        && (merge_is_idempotent (since_epoch a)
            && (set_and_get_roundtrip (since_epoch a)
                && (merge_delta_updates_stale_entries (since_epoch a)
                    && (merge_delta_does_not_regress (since_epoch a)
                        && delta_since_filters_correctly (since_epoch a) (since_epoch b))))))

-- The store after the first write.
abbrev after_first : ℕ → String → String → StateStore
after_first a key value =
    let v = stamped_value a value (Store.created "node-1" 64) in
    record (Store.created "node-1" 64) {
      state = (key, v) ∷ [];
      sent = record { key = key; value = v } ∷ [];
    }

first_set :
    (a : ℕ) (key value : String)
    → set (since_epoch a) key value (Store.created "node-1" 64)
      ≡ some (after_first a key value, stamped_value a value (Store.created "node-1" 64))
unfolding Store.created lookup get insert after_set
first_set a key value = set-after_set a key value (Store.created "node-1" 64)

idempotent_passes : (a : ℕ) → merge_is_idempotent (since_epoch a) ≡ true
unfolding merge_is_idempotent Crdt.new
idempotent_passes a =
    let v : LwwValue = record { value = "x"; timestamp = a / 1000 % 2 ^ 64; node_id = "n" } in
    rw (merge_idem v) ((lww_eq_iff v v).1 refl)

roundtrip_passes : (a : ℕ) → set_and_get_roundtrip (since_epoch a) ≡ true
unfolding set_and_get_roundtrip Store.new lookup get Store.created
roundtrip_passes a = rw first_set refl

updates_passes :
    (a : ℕ)
    → a / 1000 % 2 ^ 64 + 1_000_000 < 2 ^ 64
    → merge_delta_updates_stale_entries (since_epoch a) ≡ true
unfolding merge_delta_updates_stale_entries Store.new lookup get Store.created merge_delta
    merge_entries emit insert publish send
updates_passes a h =
    let t = a / 1000 % 2 ^ 64 in
    rw
      (
        first_set,
        merge_of_gt (stamped_value a "local" (Store.created "node-1" 64))
            (record { value = "remote"; timestamp = t + 1_000_000; node_id = "node-2" })
            (unfold stamp_le in ground arith),
      )
      (ground arith)

regress_passes :
    (a : ℕ) → 0 < a / 1000 % 2 ^ 64 → merge_delta_does_not_regress (since_epoch a) ≡ true
unfolding merge_delta_does_not_regress Store.new lookup get Store.created merge_delta merge_entries
    emit insert publish send
regress_passes a h =
    let t = a / 1000 % 2 ^ 64 in
    let v = stamped_value a "current" (Store.created "node-1" 64) in
    rw
      (
        first_set,
        merge_of_le v (record { value = "stale"; timestamp = t - 1; node_id = "node-2" })
            (unfold stamp_le in ground arith),
      )
      (ground (arith, lww_eq_iff v v))

filters_passes :
    (a b : ℕ)
    → delta_since_filters_correctly (since_epoch a) (since_epoch b)
      ≡ ltb (a / 1000 % 2 ^ 64) (b / 1000 % 2 ^ 64)
unfolding delta_since_filters_correctly Store.new lookup get Store.created after_set insert
    delta_since filter_values
filters_passes a b = rw (first_set, set-after_set b "b" "2" (after_first a "a" "1")) (ground arith)

constants_pass : (merge_higher_timestamp_wins ≡ true) × (merge_tie_broken_by_node_id ≡ true)
unfolding merge_higher_timestamp_wins merge_tie_broken_by_node_id merge
constants_pass = (refl, refl)

-- With a clock between the first microsecond and the last second that a `u64` counts, the unit tests
-- of values and stores pass exactly if the clock shows a later microsecond after the sleep.
pub unit_tests_pass_iff :
    (a b : ℕ)
    → 0 < a / 1000 % 2 ^ 64
    → a / 1000 % 2 ^ 64 + 1_000_000 < 2 ^ 64
    → (unit_tests a b ≡ true) ↔ (a / 1000 % 2 ^ 64 < b / 1000 % 2 ^ 64)
unit_tests_pass_iff a b low high =
    let (newer_wins, ties) = constants_pass in
    rw
      (
        newer_wins,
        ties,
        idempotent_passes,
        roundtrip_passes,
        updates_passes a high,
        regress_passes a low,
        filters_passes,
      )
      (ground arith)
