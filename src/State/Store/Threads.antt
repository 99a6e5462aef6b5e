-- ===== src/State/Store/Threads.antt =====
-- src/state/store.rs with several threads: `set` and `merge_delta` let go of the lock before they
-- send their events, so the critical sections and the sends of different calls interleave.
pub mod Log
pub mod Order
use rust_high_throughput_sta.Common.{String, ◌≡◌, Option, none, some, List, [], ◌∷◌, ◌++◌, ℕ}
use rust_high_throughput_sta.State.Crdt
use rust_high_throughput_sta.State.Crdt.{LwwValue, SystemTime}
use rust_high_throughput_sta.State.Store
use rust_high_throughput_sta.State.Store.{
  StateStore, StateEvent, StateDelta, set_entry, merge_entries, send, lookup,
}

-- What a call has left to do once the lock is released: `set` sends the event that it made, and
-- `merge_delta` publishes the keys that it has not come to yet, for each of which it first takes the
-- lock again to read the value, lets go of it, and then sends the event that it made.
pub data Pending : Type 0 where
  announce : StateEvent → Pending
  announce_keys : List String → Pending
  announce_read : StateEvent → List String → Pending

pub record Shared : Type 0 where
  pub store : StateStore
  pub pending : List Pending

-- The critical section of `set`, and the event that it leaves to be sent.
unfoldable pub set_locked : String → LwwValue → Shared → Shared
unfolding set_entry
set_locked key incoming s =
    let (state, winner) = set_entry key incoming s.store.state in
    record {
      store = record s.store { state = state };
      pending = announce (record { key = key; value = winner }) ∷ s.pending;
    }

-- The critical section of `merge_delta`, and the keys that it leaves to be published.
unfoldable pub merge_locked : StateDelta → Shared → Shared
merge_locked delta s =
    let (state, updated_keys) = merge_entries delta s.store.state [] in
    record {
      store = record s.store { state = state };
      pending = announce_keys updated_keys ∷ s.pending;
    }

-- The threads go on in any order.
pub data Step (s : Shared) : Shared → Type 0 where
  set_enters :
      (now : SystemTime) (key value : String) (incoming : LwwValue)
      → Crdt.new now value s.store.node_id ≡ some incoming
      → Step s (set_locked key incoming s)
  merge_enters : (delta : StateDelta) → Step s (merge_locked delta s)
  set_sends :
      (before after : List Pending) (ev : StateEvent)
      → s.pending ≡ before ++ announce ev ∷ after
      → Step s (record { store = send ev s.store; pending = before ++ after })
  merge_reads :
      (before after : List Pending) (key : String) (keys : List String) (val : LwwValue)
      → s.pending ≡ before ++ announce_keys (key ∷ keys) ∷ after
      → lookup key s.store ≡ some val
      → Step s (record {
        store = s.store;
        pending = before ++ announce_read (record { key = key; value = val }) keys ∷ after;
      })
  merge_skips :
      (before after : List Pending) (key : String) (keys : List String)
      → s.pending ≡ before ++ announce_keys (key ∷ keys) ∷ after
      → lookup key s.store ≡ none
      → Step s (record { store = s.store; pending = before ++ announce_keys keys ∷ after })
  merge_sends :
      (before after : List Pending) (ev : StateEvent) (keys : List String)
      → s.pending ≡ before ++ announce_read ev keys ∷ after
      → Step s (record { store = send ev s.store; pending = before ++ announce_keys keys ∷ after })
  merge_returns :
      (before after : List Pending)
      → s.pending ≡ before ++ announce_keys [] ∷ after
      → Step s (record { store = s.store; pending = before ++ after })

pub data Reach (s : Shared) : Shared → Type 0 where
  here : Reach s s
  next : {t u : Shared} → Reach s t → Step t u → Reach s u

-- An empty store that no call has entered yet.
abbrev pub idle : String → ℕ → Shared
idle node_id capacity = record { store = Store.created node_id capacity; pending = [] }
