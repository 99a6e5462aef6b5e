-- ===== src/State/Store/Threads/Log.antt =====
-- The log of events of a store that several threads use.
use rust_high_throughput_sta.Common.{
  none, String, ℕ, ◌≡◌, refl, ap, Bool, true, false, ◌||◌, ◌&&◌, some, List, [], ◌∷◌, ◌++◌, arith,
  contains, ◌==◌, eq_iff, eq_refl,
}
use rust_high_throughput_sta.HashMap.{get}
use rust_high_throughput_sta.HashMap.Laws.{get-insert}
use rust_high_throughput_sta.State.Crdt.{LwwValue, lww_eq}
use rust_high_throughput_sta.State.Crdt.Order.{lww_eq_iff}
use rust_high_throughput_sta.State.Store
use rust_high_throughput_sta.State.Store.{
  StateStore, StateEvent, StateDelta, set_entry, merge_entries, send, publish, lookup,
}
use rust_high_throughput_sta.State.Store.Merge.{unreported}
use rust_high_throughput_sta.State.Store.Threads.{
  Pending, announce, announce_keys, announce_read, Shared, set_locked, merge_locked, Step,
  set_enters, merge_enters, set_sends, merge_reads, merge_skips, merge_sends, merge_returns, Reach,
  here, next, idle,
}

-- The event says that `k` holds `v`.
abbrev pub tells : String → LwwValue → StateEvent → Bool
tells k v ev = ev.key == k && lww_eq ev.value v

abbrev pub told : String → LwwValue → List StateEvent → Bool
told k v [] = false
told k v (ev ∷ events) = tells k v ev || told k v events

told-append :
    (k : String) (v : LwwValue) (xs ys : List StateEvent)
    → told k v (xs ++ ys) ≡ (told k v xs || told k v ys)
told-append k v [] ys = refl
told-append k v (x ∷ xs) ys = ground (arith, told-append k v xs ys)

-- A call that will still tell of `v`, or of whatever `k` then holds.
abbrev will_tell : String → LwwValue → List Pending → Bool
will_tell k v [] = false
will_tell k v (announce ev ∷ rest) = tells k v ev || will_tell k v rest
will_tell k v (announce_keys keys ∷ rest) = contains keys k || will_tell k v rest
will_tell k v (announce_read ev keys ∷ rest) =
    (tells k v ev || contains keys k) || will_tell k v rest

will_tell-announce :
    (k : String) (v : LwwValue) (before after : List Pending) (ev : StateEvent)
    → will_tell k v (before ++ announce ev ∷ after)
      ≡ (tells k v ev || will_tell k v (before ++ after))
will_tell-announce k v [] after ev = refl
will_tell-announce k v (announce e ∷ before) after ev =
    ground (arith, will_tell-announce k v before after ev)
will_tell-announce k v (announce_keys keys ∷ before) after ev =
    ground (arith, will_tell-announce k v before after ev)
will_tell-announce k v (announce_read e others ∷ before) after ev =
    ground (arith, will_tell-announce k v before after ev)

will_tell-announce_keys :
    (k : String) (v : LwwValue) (before after : List Pending) (keys : List String)
    → will_tell k v (before ++ announce_keys keys ∷ after)
      ≡ (contains keys k || will_tell k v (before ++ after))
will_tell-announce_keys k v [] after keys = refl
will_tell-announce_keys k v (announce e ∷ before) after keys =
    ground (arith, will_tell-announce_keys k v before after keys)
will_tell-announce_keys k v (announce_keys other ∷ before) after keys =
    ground (arith, will_tell-announce_keys k v before after keys)
will_tell-announce_keys k v (announce_read e other ∷ before) after keys =
    ground (arith, will_tell-announce_keys k v before after keys)

will_tell-announce_read :
    (k : String) (v : LwwValue) (before after : List Pending) (ev : StateEvent) (keys : List String)
    → will_tell k v (before ++ announce_read ev keys ∷ after)
      ≡ ((tells k v ev || contains keys k) || will_tell k v (before ++ after))
will_tell-announce_read k v [] after ev keys = refl
will_tell-announce_read k v (announce e ∷ before) after ev keys =
    ground (arith, will_tell-announce_read k v before after ev keys)
will_tell-announce_read k v (announce_keys other ∷ before) after ev keys =
    ground (arith, will_tell-announce_read k v before after ev keys)
will_tell-announce_read k v (announce_read e other ∷ before) after ev keys =
    ground (arith, will_tell-announce_read k v before after ev keys)

-- What a key holds was told, or will be.
abbrev IsTold : Shared → Type 0
IsTold s =
    (k : String) (v : LwwValue)
    → get k s.store.state ≡ some v
    → (told k v s.store.sent || will_tell k v s.pending) ≡ true

tells_self : (k : String) (v : LwwValue) → tells k v (record { key = k; value = v }) ≡ true
tells_self k v = ground (arith, eq_refl k, lww_eq_iff v v)

set_locked-IsTold :
    (key : String) (incoming : LwwValue) (s : Shared)
    → IsTold s
    → IsTold (set_locked key incoming s)
unfolding set_locked
set_locked-IsTold key incoming s h k v e =
    let winner = (set_entry key incoming s.store.state).1 in
    ground (arith, get-insert key k winner s.store.state, eq_iff key k, tells_self k v, h k v)

merge_locked-IsTold : (d : StateDelta) (s : Shared) → IsTold s → IsTold (merge_locked d s)
unfolding merge_locked
merge_locked-IsTold d s h k v e = ground (arith, unreported k d s.store.state [], h k v)

set_sends-IsTold :
    (s : Shared) (before after : List Pending) (ev : StateEvent)
    → s.pending ≡ before ++ announce ev ∷ after
    → IsTold s
    → IsTold (record { store = send ev s.store; pending = before ++ after })
unfolding send
set_sends-IsTold s before after ev e h k v held = ground (
  arith,
  h k v held,
  ap (will_tell k v) e,
  will_tell-announce k v before after ev,
  told-append k v s.store.sent (ev ∷ []),
)

merge_reads-IsTold :
    (s : Shared) (before after : List Pending) (key : String) (keys : List String) (val : LwwValue)
    → s.pending ≡ before ++ announce_keys (key ∷ keys) ∷ after
    → lookup key s.store ≡ some val
    → IsTold s
    → IsTold (record {
      store = s.store;
      pending = before ++ announce_read (record { key = key; value = val }) keys ∷ after;
    })
unfolding lookup
merge_reads-IsTold s before after key keys val e found h k v held = ground (
  arith,
  eq_iff key k,
  h k v held,
  ap (will_tell k v) e,
  will_tell-announce_keys k v before after (key ∷ keys),
  will_tell-announce_read k v before after (record { key = key; value = val }) keys,
  tells_self k v,
)

merge_skips-IsTold :
    (s : Shared) (before after : List Pending) (key : String) (keys : List String)
    → s.pending ≡ before ++ announce_keys (key ∷ keys) ∷ after
    → lookup key s.store ≡ none
    → IsTold s
    → IsTold (record { store = s.store; pending = before ++ announce_keys keys ∷ after })
unfolding lookup
merge_skips-IsTold s before after key keys e gone h k v held = ground (
  arith,
  eq_iff key k,
  h k v held,
  ap (will_tell k v) e,
  will_tell-announce_keys k v before after (key ∷ keys),
  will_tell-announce_keys k v before after keys,
)

merge_sends-IsTold :
    (s : Shared) (before after : List Pending) (ev : StateEvent) (keys : List String)
    → s.pending ≡ before ++ announce_read ev keys ∷ after
    → IsTold s
    → IsTold (record { store = send ev s.store; pending = before ++ announce_keys keys ∷ after })
unfolding send
merge_sends-IsTold s before after ev keys e h k v held = ground (
  arith,
  h k v held,
  ap (will_tell k v) e,
  will_tell-announce_read k v before after ev keys,
  will_tell-announce_keys k v before after keys,
  told-append k v s.store.sent (ev ∷ []),
)

Step-IsTold : {s t : Shared} → Step s t → IsTold s → IsTold t
Step-IsTold {s} (set_enters now key value incoming e) h k v held =
    set_locked-IsTold key incoming s h k v held
Step-IsTold {s} (merge_enters d) h k v held = merge_locked-IsTold d s h k v held
Step-IsTold {s} (set_sends before after ev e) h k v held =
    set_sends-IsTold s before after ev e h k v held
Step-IsTold {s} (merge_reads before after key keys val e f) h k v held =
    merge_reads-IsTold s before after key keys val e f h k v held
Step-IsTold {s} (merge_skips before after key keys e f) h k v held =
    merge_skips-IsTold s before after key keys e f h k v held
Step-IsTold {s} (merge_sends before after ev keys e) h k v held =
    merge_sends-IsTold s before after ev keys e h k v held
Step-IsTold {s} (merge_returns before after e) h k v held =
    ground (arith, h k v held, ap (will_tell k v) e, will_tell-announce_keys k v before after [])

Reach-IsTold : {s t : Shared} → Reach s t → IsTold s → IsTold t
Reach-IsTold here h = h
Reach-IsTold (next r st) h = Step-IsTold st (Reach-IsTold r h)

-- From an empty store, whatever calls of `set` and `merge_delta` interleave and however: once all
-- of them have returned, every value that the store holds was told in an event of its key.
pub Reach-told :
    (node_id : String) (capacity : ℕ) (s : Shared)
    → Reach (idle node_id capacity) s
    → s.pending ≡ []
    → (k : String) (v : LwwValue) → lookup k s.store ≡ some v
    → told k v s.store.sent ≡ true
unfolding lookup Store.created get
Reach-told node_id capacity s r quiet k v held =
    ground (arith, Reach-IsTold r (λ k v e. cc) k v held, ap (will_tell k v) quiet)
