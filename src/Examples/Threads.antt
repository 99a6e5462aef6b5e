-- ===== src/Examples/Threads.antt =====
-- The theorems on a store with several threads, at one write whose event was sent.
use rust_high_throughput_sta.Common.{◌≡◌, refl, true, some, [], ◌∷◌, arith, All}
use rust_high_throughput_sta.HashMap.{get, insert}
use rust_high_throughput_sta.State.Crdt
use rust_high_throughput_sta.State.Crdt.{LwwValue, since_epoch, merge}
use rust_high_throughput_sta.State.Store
use rust_high_throughput_sta.State.Store.{StateStore, StateEvent, lookup, set_entry, send}
use rust_high_throughput_sta.State.Store.Covers.{Covers}
use rust_high_throughput_sta.State.Store.Writes.{stamped_value}
use rust_high_throughput_sta.State.Store.Threads.{
  Shared, Step, Reach, here, next, set_enters, set_sends, set_locked, idle,
}
use rust_high_throughput_sta.State.Store.Threads.Log.{Reach-told, told}
use rust_high_throughput_sta.State.Store.Threads.Order.{Reach-events_covered, events_out_of_order}

abbrev value : LwwValue
value = record { value = "1"; timestamp = 5; node_id = "a" }

abbrev entered : Shared
entered = set_locked "x" value (idle "a" 16)

abbrev event : StateEvent
event = record { key = "x"; value = value }

abbrev sent : Shared
sent = record { store = send event entered.store; pending = [] }

enters : Step (idle "a" 16) entered
unfolding Crdt.new Store.created
enters = set_enters (since_epoch 5000) "x" "1" value refl

leaves : Step entered sent
unfolding set_locked set_entry Store.created get insert merge
leaves = set_sends [] [] event refl

run : Reach (idle "a" 16) sent
run = next (next here enters) leaves

holds : lookup "x" sent.store ≡ some value
unfolding lookup send set_locked set_entry Store.created get insert merge
holds = refl

Reach-told_example : told "x" value sent.store.sent ≡ true
Reach-told_example = Reach-told "a" 16 sent run refl "x" value holds

Reach-events_covered_example :
    All (λ (ev : StateEvent). Covers (lookup ev.key sent.store) ev.value) sent.store.sent
Reach-events_covered_example = Reach-events_covered "a" 16 sent run

events_out_of_order_example :
    (s : Shared) × Reach (idle "a" 16) s
    × (s.pending ≡ [])
    × (lookup "x" s.store ≡ some (stamped_value 7000 "2" (Store.created "a" 16)))
    × (s.store.sent
        ≡ record { key = "x"; value = stamped_value 7000 "2" (Store.created "a" 16) }
          ∷ record { key = "x"; value = stamped_value 5000 "1" (Store.created "a" 16) }
          ∷ [])
events_out_of_order_example = events_out_of_order "a" 16 "x" "1" "2" 5000 7000 (omega arith)
