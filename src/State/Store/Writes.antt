-- ===== src/State/Store/Writes.antt =====
-- `set`: what a local write stores, returns and publishes.
use mathlib.Core.Option.{some-injective}
use rust_high_throughput_sta.Common.{
  ℕ, String, ◌≡◌, refl, sym, ap, ◌∙◌, ◌<◌, Option, none, some, [], ◌∷◌, ◌++◌, arith, ◌==◌,
  if◌then◌else◌, eq_refl, ◌^◌, ◌%◌, ◌/◌,
}
use rust_high_throughput_sta.HashMap.{get, insert}
use rust_high_throughput_sta.HashMap.Laws.{get-insert}
use rust_high_throughput_sta.State.Crdt
use rust_high_throughput_sta.State.Crdt.{
  LwwValue, SystemTime, since_epoch, before_epoch, merge, now_micros,
}
use rust_high_throughput_sta.State.Crdt.Order.{stamp_le_of_SameStamp}
use rust_high_throughput_sta.State.Crdt.Laws.{merge_idem, merge_of_le}
use rust_high_throughput_sta.State.Store.{StateStore, set, lookup, winner_of, unwrap_or}

-- `or_insert_with` and then a merge is the merge into what was there.
pub winner_of-unwrap_or :
    (o : Option LwwValue) (v : LwwValue) → merge (unwrap_or v o) v ≡ winner_of o v
winner_of-unwrap_or none v = merge_idem v
winner_of-unwrap_or (some w) v = refl

-- The store after a write whose stamped value is `incoming`.
unfoldable pub after_set : String → LwwValue → StateStore → StateStore
after_set key incoming s =
    let winner = winner_of (lookup key s) incoming in
    record s {
      state = insert key winner s.state;
      sent = s.sent ++ record { key = key; value = winner } ∷ [];
    }

-- What is known of a store `t` that a write of `incoming` under `key` made from `s`.
pub record Wrote (key : String) (incoming : LwwValue) (s t : StateStore) (winner : LwwValue)
    : Type 0 where
  pub chosen : winner ≡ winner_of (lookup key s) incoming
  pub stored : (k : String) → lookup k t ≡ (if key == k then some winner else lookup k s)
  pub published : t.sent ≡ s.sent ++ record { key = key; value = winner } ∷ []
  pub same_node : t.node_id ≡ s.node_id

abbrev pub stamped_value : ℕ → String → StateStore → LwwValue
stamped_value nanos value s = record {
  value = value;
  timestamp = nanos / 1000 % 2 ^ 64;
  node_id = s.node_id;
}

pub set-after_set :
    (nanos : ℕ) (key value : String) (s : StateStore)
    → set (since_epoch nanos) key value s
      ≡ some (
        after_set key (stamped_value nanos value s) s,
        winner_of (lookup key s) (stamped_value nanos value s),
      )
unfolding set after_set Crdt.new lookup
set-after_set nanos key value s = rw winner_of-unwrap_or

pub set-eq-after_set :
    (nanos : ℕ) (key value : String) (s t : StateStore) (winner : LwwValue)
    → set (since_epoch nanos) key value s ≡ some (t, winner)
    → after_set key (stamped_value nanos value s) s ≡ t
set-eq-after_set nanos key value s t winner h =
    ap (λ (r : StateStore × LwwValue). r.0)
      (some-injective _ _ (sym (set-after_set nanos key value s) ∙ h))

pub lookup-after_set :
    (k key : String) (incoming : LwwValue) (s : StateStore)
    → lookup k (after_set key incoming s)
      ≡ (if key == k then some (winner_of (lookup key s) incoming) else lookup k s)
unfolding lookup after_set
lookup-after_set k key incoming s = get-insert key k (winner_of (get key s.state) incoming) s.state

pub lookup-after_set_self :
    (key : String) (incoming : LwwValue) (s : StateStore)
    → lookup key (after_set key incoming s) ≡ some (winner_of (lookup key s) incoming)
lookup-after_set_self key incoming s = rw (lookup-after_set, eq_refl)

-- With a clock at or after the epoch, `set` returns. The value that it stamps has the clock's
-- microseconds and this node's id. The winner of its merge with what the key held is returned, is
-- what the key holds afterwards, and is published; no other key changes.
pub set_lem :
    (nanos : ℕ) (key value : String) (s : StateStore)
    → (t : StateStore) × (winner : LwwValue) × (set (since_epoch nanos) key value s
        ≡ some (t, winner))
      × Wrote key (stamped_value nanos value s) s t winner
set_lem nanos key value s = (
  after_set key v s,
  winner_of (lookup key s) v,
  set-after_set nanos key value s,
  record {
    chosen = refl;
    stored = λ k. lookup-after_set k key v s;
    published = unfold after_set in refl;
    same_node = unfold after_set in refl;
  },
)
  where
    v : LwwValue
    v = stamped_value nanos value s

-- A clock before the epoch makes every write panic.
pub set_panics :
    (nanos : ℕ) (key value : String) (s : StateStore) → set (before_epoch nanos) key value s ≡ none
unfolding set Crdt.new
set_panics nanos key value s = refl

pub winner_of_newer :
    (o : Option LwwValue) (v : LwwValue)
    → ((w : LwwValue) → o ≡ some w → w.timestamp < v.timestamp)
    → winner_of o v ≡ v
winner_of_newer none v h = refl
winner_of_newer (some w) v h = unfold merge in ground (arith, h w refl)

-- With a clock at or after the epoch, a write whose microsecond is later than any stamp that the
-- key holds is returned and read back.
set-lookup :
    (nanos : ℕ) (key value : String) (s : StateStore)
    → ((v : LwwValue) → lookup key s ≡ some v → v.timestamp < nanos / 1000 % 2 ^ 64)
    → (t : StateStore) × (set (since_epoch nanos) key value s
        ≡ some (t, stamped_value nanos value s))
      × (lookup key t ≡ some (stamped_value nanos value s))
set-lookup nanos key value s newer =
    let v = stamped_value nanos value s in
    let wins : winner_of (lookup key s) v ≡ v = winner_of_newer (lookup key s) v newer in
    (after_set key v s, rw (set-after_set, wins), rw (lookup-after_set_self key v s, wins))

-- A write of this node to a key whose value has its id and the same microsecond is lost: it returns
-- and leaves the value that was there.
pub set_same_micro :
    (nanos : ℕ) (key value : String) (s : StateStore) (held : LwwValue)
    → lookup key s ≡ some held
    → held.timestamp ≡ nanos / 1000 % 2 ^ 64
    → held.node_id ≡ s.node_id
    → (t : StateStore) × (set (since_epoch nanos) key value s ≡ some (t, held))
      × (lookup key t ≡ some held)
set_same_micro nanos key value s held h st sn =
    let v = stamped_value nanos value s in
    let stays : winner_of (lookup key s) v ≡ held =
      rw h (merge_of_le held v (stamp_le_of_SameStamp v held (sym st, sym sn))) in
    (after_set key v s, rw (set-after_set, stays), rw (lookup-after_set_self key v s, stays))
