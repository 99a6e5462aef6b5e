-- ===== src/State/Store/View.antt =====
-- The abstract store: what each key holds. A delta acts on one key by the merges of the entries
-- that name it, in the order of the delta.
use rust_high_throughput_sta.Common.{
  String, ◌≡◌, refl, ◌↔◌, true, not, Option, none, some, List, [], ◌∷◌, arith, eq_iff, ◌==◌,
  if◌then◌else◌,
}
use rust_high_throughput_sta.HashMap.{HashMap, get, insert}
use rust_high_throughput_sta.HashMap.Laws.{get-insert}
use rust_high_throughput_sta.State.Crdt.{LwwValue}
use rust_high_throughput_sta.State.Crdt.Order.{lww_eq_iff}
use rust_high_throughput_sta.State.Store.{
  StateDelta, StateStore, is_value, winner_of, merge_entries, emit, merge_delta, lookup, publish,
}

-- The value of `k` after the entries of a delta were merged into `o`.
unfoldable pub absorb : String → Option LwwValue → StateDelta → Option LwwValue
absorb k o [] = o
absorb k o ((j, v) ∷ d) = absorb k (if j == k then some (winner_of o v) else o) d

pub is_value_iff : (v : LwwValue) (o : Option LwwValue) → (is_value v o ≡ true) ↔ (o ≡ some v)
is_value_iff v none = (λ h. cc, λ h. cc)
is_value_iff v (some w) = (λ h. ground (arith, lww_eq_iff w v), λ h. ground (arith, lww_eq_iff w v))

abbrev pub step : String → LwwValue → HashMap LwwValue → HashMap LwwValue
step key incoming state =
    let winner = winner_of (get key state) incoming in
    if not (is_value winner (get key state)) then insert key winner state else state

pub get-step :
    (k j : String) (v : LwwValue) (m : HashMap LwwValue)
    → get k (step j v m) ≡ (if j == k then some (winner_of (get k m) v) else get k m)
get-step k j v m = ground (
  arith,
  eq_iff j k,
  get-insert j k (winner_of (get j m) v) m,
  is_value_iff (winner_of (get j m) v) (get j m),
)

pub get-merge_entries :
    (k : String) (d : StateDelta) (m : HashMap LwwValue) (u : List String)
    → get k (merge_entries d m u).0 ≡ absorb k (get k m) d
unfolding merge_entries absorb
get-merge_entries k [] m u = refl
get-merge_entries k ((j, v) ∷ d) m u =
    rw (← get-step k j v m) (get-merge_entries k d (step j v m) _)

-- Publishing changes nothing but the log.
abbrev pub SameButSent : StateStore → StateStore → Type 0
SameButSent s t =
    (s.state ≡ t.state) × (s.node_id ≡ t.node_id) × (s.channel_capacity ≡ t.channel_capacity)

pub publish-SameButSent : (k : String) (s : StateStore) → SameButSent (publish k s) s
unfolding publish
publish-SameButSent k s = ground arith

pub emit-SameButSent : (keys : List String) (s : StateStore) → SameButSent (emit keys s) s
unfolding emit
emit-SameButSent [] s = (refl, refl, refl)
emit-SameButSent (k ∷ keys) s =
    ground (arith, publish-SameButSent k s, emit-SameButSent keys (publish k s))

pub state-merge_delta :
    (d : StateDelta) (s : StateStore) → (merge_delta d s).0.state ≡ (merge_entries d s.state []).0
unfolding merge_delta
state-merge_delta d s =
    let r = merge_entries d s.state [] in (emit-SameButSent r.1 (record s { state = r.0 })).0

-- `merge_delta` implements the abstract store: each key gets the merges of its own entries.
pub lookup-merge_delta :
    (k : String) (d : StateDelta) (s : StateStore)
    → lookup k (merge_delta d s).0 ≡ absorb k (lookup k s) d
unfolding lookup
lookup-merge_delta k d s = rw state-merge_delta (get-merge_entries k d s.state [])
