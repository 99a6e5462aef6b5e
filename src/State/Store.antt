-- ===== src/State/Store.antt =====
-- src/state/store.rs: the store of last-write-wins values and its log of published events.
-- `sent` is the sequence of events handed to the broadcast channel, oldest first; a receiver is the
-- position in it from which a subscriber reads on.
pub mod View
pub mod Covers
pub mod Merge
pub mod Converge
pub mod Events
pub mod Writes
pub mod Reads
pub mod Invariant
pub mod Threads
pub mod Checks
pub mod Stamps
pub mod Effect
use Prim.Native.Nat.{max}
use rust_high_throughput_sta.Common.{
  ◌&&◌, ◌^◌, ℕ, zero, String, Bool, not, true, false, Option, none, some, List, [], ◌∷◌, ◌++◌, map,
  ltb, length, if◌then◌else◌,
}
use rust_high_throughput_sta.HashMap.{HashMap, get, insert, filter_values}
use rust_high_throughput_sta.State.Crdt
use rust_high_throughput_sta.State.Crdt.{LwwValue, SystemTime, merge, lww_eq}

pub record StateEvent : Type 0 where
  pub key : String
  pub value : LwwValue

abbrev pub StateDelta : Type 0
StateDelta = List (String × LwwValue)

pub record StateStore : Type 0 where
  pub state : HashMap LwwValue
  pub sent : List StateEvent
  pub channel_capacity : ℕ
  pub node_id : String

abbrev pub Receiver : Type 0
Receiver = ℕ

-- The store that `new` makes.
unfoldable pub created : String → ℕ → StateStore
created node_id channel_capacity = record {
  state = [];
  sent = [];
  channel_capacity = channel_capacity;
  node_id = node_id;
}

-- `none` is the panic of `broadcast::channel`, which takes a capacity from 1 to `usize::MAX / 2`; a
-- `usize` has 64 bits.
unfoldable pub new : String → ℕ → Option StateStore
unfolding created
new node_id channel_capacity =
    if ltb 0 channel_capacity && ltb channel_capacity (2 ^ 63)
    then some (created node_id channel_capacity)
    else none

-- `StateStore::get`
unfoldable pub lookup : String → StateStore → Option LwwValue
lookup key s = get key s.state

unfoldable pub snapshot : StateStore → StateDelta
snapshot s = map (λ e. (e.0, e.1)) s.state

unfoldable pub delta_since : ℕ → StateStore → StateDelta
delta_since since s = filter_values (λ v. ltb since v.timestamp) s.state

-- `Iterator::max`
unfoldable pub max_of : List ℕ → Option ℕ
max_of [] = none
max_of (x ∷ xs) = some (elim (max_of xs) [ none ↦ x | some m ↦ max x m ])

abbrev pub unwrap_or {ℓ} : {A : Type ℓ} → A → Option A → A
unwrap_or d none = d
unwrap_or d (some a) = a

abbrev pub timestamps : StateDelta → List ℕ
timestamps = map (λ e. e.1.timestamp)

unfoldable pub max_timestamp : StateStore → ℕ
unfolding max_of
max_timestamp s = unwrap_or 0 (max_of (timestamps s.state))

unfoldable pub len : StateStore → ℕ
len s = length s.state

unfoldable pub is_empty : StateStore → Bool
is_empty s = elim s.state [ [] ↦ true | _ ∷ _ ↦ false ]

unfoldable pub send : StateEvent → StateStore → StateStore
send ev s = record s { sent = s.sent ++ ev ∷ [] }

-- `entry(key).or_insert_with(|| incoming)`, then the merge into that entry: the new map and the
-- winner.
unfoldable pub set_entry : String → LwwValue → HashMap LwwValue → HashMap LwwValue × LwwValue
set_entry key incoming state =
    let entry = unwrap_or incoming (get key state) in
    let winner = merge entry incoming in (insert key winner state, winner)

-- A write of this node at a reading of the clock; `none` is the panic of the clock.
unfoldable pub set : SystemTime → String → String → StateStore → Option (StateStore × LwwValue)
unfolding set_entry send
set now key value s = elim (Crdt.new now value s.node_id) [
  | none ↦ none
  | some incoming ↦
      let (state, winner) = set_entry key incoming s.state in
      some (send (record { key = key; value = winner }) (record s { state = state }), winner)
]

abbrev pub is_value : LwwValue → Option LwwValue → Bool
is_value v none = false
is_value v (some w) = lww_eq w v

-- The value that a merge of `incoming` leaves under a key.
abbrev pub winner_of : Option LwwValue → LwwValue → LwwValue
winner_of none incoming = incoming
winner_of (some existing) incoming = merge existing incoming

-- The loop under the write lock: the map, and the keys pushed so far.
unfoldable pub merge_entries :
    StateDelta → HashMap LwwValue → List String → HashMap LwwValue × List String
merge_entries [] state updated_keys = (state, updated_keys)
merge_entries ((key, incoming) ∷ delta) state updated_keys =
    let winner = winner_of (get key state) incoming in
    let changed = not (is_value winner (get key state)) in
    merge_entries delta (if changed then insert key winner state else state)
      (if changed then updated_keys ++ key ∷ [] else updated_keys)

-- One round of the loop after the lock is released: an event with the key's current value.
unfoldable pub publish : String → StateStore → StateStore
unfolding lookup send
publish key s = elim (lookup key s) [
  | none ↦ s
  | some val ↦ send (record { key = key; value = val }) s
]

unfoldable pub emit : List String → StateStore → StateStore
unfolding publish
emit [] s = s
emit (key ∷ keys) s = emit keys (publish key s)

unfoldable pub merge_delta : StateDelta → StateStore → StateStore × List String
unfolding merge_entries emit
merge_delta delta s =
    let (state, updated_keys) = merge_entries delta s.state [] in
    (emit updated_keys (record s { state = state }), updated_keys)

unfoldable pub subscribe : StateStore → Receiver
subscribe s = length s.sent
