-- ===== src/State/Store/Threads/Order.antt =====
-- The order of the events of a store that several threads use.
use mathlib.Core.Path.{subst}
use mathlib.Core.Option.{some-injective}
use rust_high_throughput_sta.Common.{
  ◌++◌, String, ℕ, ◌≡◌, refl, sym, ap, ◌∙◌, ◌<◌, ◌/◌, ◌%◌, ◌^◌, some, List, [], ◌∷◌, arith, ◌==◌,
  eq_iff, eq_refl, All, All-map, All-append, All-middle, All-insert_middle, inl, inr, Bool-cases,
}
use rust_high_throughput_sta.HashMap.{HashMap, get, insert}
use rust_high_throughput_sta.HashMap.Laws.{get-insert, get-insert_self}
use rust_high_throughput_sta.State.Crdt
use rust_high_throughput_sta.State.Crdt.{LwwValue, since_epoch}
use rust_high_throughput_sta.State.Crdt.Order.{stamp_le_refl}
use rust_high_throughput_sta.State.Store
use rust_high_throughput_sta.State.Store.{
  StateStore, StateEvent, StateDelta, set_entry, merge_entries, send, lookup, winner_of,
}
use rust_high_throughput_sta.State.Store.View.{get-merge_entries}
use rust_high_throughput_sta.State.Store.Covers.{
  Covers, Precedes, Covers-trans, Precedes-refl, Precedes-winner_of, Precedes-absorb,
}
use rust_high_throughput_sta.State.Store.Writes.{
  stamped_value, winner_of-unwrap_or, winner_of_newer,
}
use rust_high_throughput_sta.State.Store.Threads.{
  Pending, announce, announce_keys, Shared, set_locked, merge_locked, Step, set_enters,
  merge_enters, set_sends, announce_read, merge_reads, merge_skips, merge_sends, merge_returns,
  Reach, here, next, idle,
}

abbrev Covered : HashMap LwwValue → StateEvent → Type 0
Covered m ev = Covers (get ev.key m) ev.value

abbrev CoveredPending : HashMap LwwValue → Pending → Type 0
CoveredPending m (announce ev) = Covered m ev
CoveredPending m (announce_keys keys) = Unit
CoveredPending m (announce_read ev keys) = Covered m ev

-- No event, sent or to be sent, is newer than what the store holds.
abbrev IsCovered : Shared → Type 0
IsCovered s =
    All (Covered s.store.state) s.store.sent × All (CoveredPending s.store.state) s.pending

-- Under every key, `n` holds what `m` does or something newer.
abbrev Grows : HashMap LwwValue → HashMap LwwValue → Type 0
Grows m n = (k : String) → Precedes (get k m) (get k n)

grow_pending :
    (m n : HashMap LwwValue) → Grows m n → (p : Pending) → CoveredPending m p → CoveredPending n p
grow_pending m n g (announce ev) h =
    Covers-trans (get ev.key m) (get ev.key n) ev.value (g ev.key) h
grow_pending m n g (announce_keys keys) h = tt
grow_pending m n g (announce_read ev keys) h =
    Covers-trans (get ev.key m) (get ev.key n) ev.value (g ev.key) h

grow_events :
    (m n : HashMap LwwValue)
    → Grows m n
    → (events : List StateEvent) → All (Covered m) events
    → All (Covered n) events
grow_events m n g events =
    All-map (λ ev. Covers-trans (get ev.key m) (get ev.key n) ev.value (g ev.key)) events

insert-Grows :
    (key : String) (incoming : LwwValue) (m : HashMap LwwValue)
    → Grows m (insert key (winner_of (get key m) incoming) m)
insert-Grows key incoming m k = elim (Bool-cases (key == k)) [
  | inl e ↦
      rw (get-insert key k (winner_of (get key m) incoming) m, e, (eq_iff key k).0 e)
        (Precedes-winner_of (get k m) incoming)
  | inr e ↦ rw (get-insert key k (winner_of (get key m) incoming) m, e) (Precedes-refl (get k m))
]

-- The critical section of `set`, by the merge into what the key held.
set_locked_lem :
    (key : String) (incoming : LwwValue) (s : Shared)
    → set_locked key incoming s ≡ record {
      store = record s.store {
        state = insert key (winner_of (get key s.store.state) incoming) s.store.state;
      };
      pending =
          announce (record { key = key; value = winner_of (get key s.store.state) incoming })
          ∷ s.pending;
    }
unfolding set_locked
set_locked_lem key incoming s = rw winner_of-unwrap_or

set_locked-IsCovered :
    (key : String) (incoming : LwwValue) (s : Shared)
    → IsCovered s
    → IsCovered (set_locked key incoming s)
set_locked-IsCovered key incoming s (log, rest) =
    let m = s.store.state in
    let w = winner_of (get key m) incoming in
    let n = insert key w m in
    let grows = insert-Grows key incoming m in
    subst IsCovered (sym (set_locked_lem key incoming s)) (
      grow_events m n grows s.store.sent log,
      (rw get-insert_self (stamp_le_refl w), All-map (grow_pending m n grows) s.pending rest),
    )

merge_locked-IsCovered : (d : StateDelta) (s : Shared) → IsCovered s → IsCovered (merge_locked d s)
unfolding merge_locked
merge_locked-IsCovered d s (log, rest) =
    let m = s.store.state in
    let n = (merge_entries d m []).0 in
    let grows : Grows m n = λ k. rw get-merge_entries (Precedes-absorb k (get k m) d) in
    (grow_events m n grows s.store.sent log, (tt, All-map (grow_pending m n grows) s.pending rest))

-- A thread went on.
replaced :
    (s : Shared) (before after : List Pending) (old new : Pending)
    → s.pending ≡ before ++ old ∷ after
    → All (CoveredPending s.store.state) s.pending
    → CoveredPending s.store.state new
    → All (CoveredPending s.store.state) (before ++ new ∷ after)
replaced s before after old new e all h =
    let P = CoveredPending s.store.state in
    All-insert_middle P before new after h (All-middle P before old after (subst (All P) e all)).1

Step-IsCovered : {s t : Shared} → Step s t → IsCovered s → IsCovered t
Step-IsCovered {s} (set_enters now key value incoming e) h = set_locked-IsCovered key incoming s h
Step-IsCovered {s} (merge_enters d) h = merge_locked-IsCovered d s h
Step-IsCovered {s} (set_sends before after ev e) (log, rest) =
    let m = s.store.state in
    let (current, others) =
      All-middle (CoveredPending m) before (announce ev) after
        (subst (All (CoveredPending m)) e rest) in
    unfold send in (All-append (Covered m) s.store.sent (ev ∷ []) log (current, tt), others)
Step-IsCovered {s} (merge_reads before after key keys val e found) (log, rest) =
    (log, replaced s before after _ _ e rest (unfold lookup in rw found (stamp_le_refl val)))
Step-IsCovered {s} (merge_skips before after key keys e gone) (log, rest) =
    (log, replaced s before after _ _ e rest tt)
Step-IsCovered {s} (merge_sends before after ev keys e) (log, rest) =
    let m = s.store.state in
    let current =
      (All-middle (CoveredPending m) before (announce_read ev keys) after
        (subst (All (CoveredPending m)) e rest)).0 in
    unfold send in
    (
      All-append (Covered m) s.store.sent (ev ∷ []) log (current, tt),
      replaced s before after _ (announce_keys keys) e rest tt,
    )
Step-IsCovered {s} (merge_returns before after e) (log, rest) =
    let m = s.store.state in
    (
      log,
      (All-middle (CoveredPending m) before (announce_keys []) after
          (subst (All (CoveredPending m)) e rest)).1,
    )

Reach-IsCovered : {s t : Shared} → Reach s t → IsCovered s → IsCovered t
Reach-IsCovered here h = h
Reach-IsCovered (next r st) h = Step-IsCovered st (Reach-IsCovered r h)

-- From an empty store, whatever calls of `set` and `merge_delta` interleave and however: under the
-- key of each event that was sent, the store holds the value of the event or a newer one.
pub Reach-events_covered :
    (node_id : String) (capacity : ℕ) (s : Shared)
    → Reach (idle node_id capacity) s
    → All (λ (ev : StateEvent). Covers (lookup ev.key s.store) ev.value) s.store.sent
unfolding lookup Store.created
Reach-events_covered node_id capacity s r = (Reach-IsCovered r (tt, tt)).0

-- A store in which one key holds `v`, and the calls that have events to send.
abbrev holding : String → ℕ → String → LwwValue → List Pending → Shared
holding node_id capacity key v pending = record {
  store = record (Store.created node_id capacity) { state = (key, v) ∷ [] };
  pending = pending;
}

abbrev event_of : String → LwwValue → StateEvent
event_of key v = record { key = key; value = v }

first_write :
    (node_id : String) (capacity : ℕ) (key : String) (v : LwwValue)
    → set_locked key v (idle node_id capacity)
      ≡ holding node_id capacity key v (announce (event_of key v) ∷ [])
unfolding Store.created get insert
first_write node_id capacity key v = set_locked_lem key v (idle node_id capacity)

second_write :
    (node_id : String) (capacity : ℕ) (key : String) (v w : LwwValue) (pending : List Pending)
    → v.timestamp < w.timestamp
    → set_locked key w (holding node_id capacity key v pending)
      ≡ holding node_id capacity key w (announce (event_of key w) ∷ pending)
unfolding Store.created get insert
second_write node_id capacity key v w pending h =
    set_locked_lem key w (holding node_id capacity key v pending)
    ∙ rw (
      eq_refl key,
      winner_of_newer (some v) w
          (λ u e. omega (arith, ap (λ (x : LwwValue). x.timestamp) (some-injective v u e))),
    )

-- Two writes of a key at different microseconds can send their events in the other order: the last
-- event that a subscriber gets is then not what the store holds.
pub events_out_of_order :
    (node_id : String) (capacity : ℕ) (key v w : String) (a b : ℕ)
    → a / 1000 % 2 ^ 64 < b / 1000 % 2 ^ 64
    → (s : Shared) × Reach (idle node_id capacity) s
      × (s.pending ≡ [])
      × (lookup key s.store ≡ some (stamped_value b w (Store.created node_id capacity)))
      × (s.store.sent
          ≡ record { key = key; value = stamped_value b w (Store.created node_id capacity) }
            ∷ record { key = key; value = stamped_value a v (Store.created node_id capacity) }
            ∷ [])
events_out_of_order node_id capacity key v w a b h =
    let va = stamped_value a v (Store.created node_id capacity) in
    let vb = stamped_value b w (Store.created node_id capacity) in
    let ea = event_of key va in
    let eb = event_of key vb in
    let start = idle node_id capacity in
    let one = holding node_id capacity key va (announce ea ∷ []) in
    let two = holding node_id capacity key vb (announce eb ∷ announce ea ∷ []) in
    let enter_a : Step start one =
      subst (Step start) (first_write node_id capacity key va)
        (set_enters (since_epoch a) key v va (unfold Crdt.new in refl)) in
    let enter_b : Step one two =
      subst (Step one) (second_write node_id capacity key va vb (announce ea ∷ []) h)
        (set_enters (since_epoch b) key w vb (unfold Crdt.new Store.created in refl)) in
    let sent_b : Shared = record { store = send eb two.store; pending = announce ea ∷ [] } in
    (
      record { store = send ea sent_b.store; pending = [] },
      next (next (next (next here enter_a) enter_b) (set_sends [] (announce ea ∷ []) eb refl))
          (set_sends [] [] ea refl),
      refl,
      unfold lookup send get in rw (eq_refl key) refl,
      unfold send Store.created in refl,
    )
