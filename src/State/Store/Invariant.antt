-- ===== src/State/Store/Invariant.antt =====
-- What the operations of the store keep.
use rust_high_throughput_sta.Common.{
  ℕ, String, ◌≡◌, ap, List, [], ◌∷◌, ◌==◌, Bool-cases, Option-cases, inl, inr, All, eq_iff,
}
use rust_high_throughput_sta.HashMap.{HashMap, get}
use rust_high_throughput_sta.HashMap.Laws.{IsDistinct, insert-IsDistinct, All-insert, All-get}
use rust_high_throughput_sta.State.Crdt.{LwwValue}
use rust_high_throughput_sta.State.Crdt.Laws.{merge_lub}
use rust_high_throughput_sta.State.Store
use rust_high_throughput_sta.State.Store.{
  StateStore, StateDelta, winner_of, is_value, merge_entries, merge_delta, set, lookup,
}
use rust_high_throughput_sta.State.Store.View.{
  emit-SameButSent, step, state-merge_delta, lookup-merge_delta,
}
use rust_high_throughput_sta.State.Store.Covers.{
  Precedes, Precedes-absorb, Precedes-refl, Precedes-winner_of,
}
use rust_high_throughput_sta.State.Store.Writes.{after_set, lookup-after_set}

new-IsDistinct : (n : String) (c : ℕ) → IsDistinct (Store.created n c).state
unfolding Store.created
new-IsDistinct n c = tt

step-IsDistinct :
    (j : String) (v : LwwValue) (m : HashMap LwwValue) → IsDistinct m → IsDistinct (step j v m)
step-IsDistinct j v m h = elim (Bool-cases (is_value (winner_of (get j m) v) (get j m))) [
  | inl e ↦ rw e h
  | inr e ↦ rw e (insert-IsDistinct j (winner_of (get j m) v) m h)
]

merge_entries-IsDistinct :
    (d : StateDelta) (m : HashMap LwwValue) (u : List String)
    → IsDistinct m
    → IsDistinct (merge_entries d m u).0
unfolding merge_entries
merge_entries-IsDistinct [] m u h = h
merge_entries-IsDistinct ((j, v) ∷ d) m u h =
    merge_entries-IsDistinct d (step j v m) _ (step-IsDistinct j v m h)

-- A merge into a store with one entry for each key leaves one entry for each key.
pub merge_delta-IsDistinct :
    (d : StateDelta) (s : StateStore) → IsDistinct s.state → IsDistinct (merge_delta d s).0.state
merge_delta-IsDistinct d s h = rw state-merge_delta (merge_entries-IsDistinct d s.state [] h)

pub after_set-IsDistinct :
    (key : String) (v : LwwValue) (s : StateStore)
    → IsDistinct s.state
    → IsDistinct (after_set key v s).state
unfolding after_set
after_set-IsDistinct key v s h = insert-IsDistinct key (winner_of (lookup key s) v) s.state h

-- A local write never lets a key fall back to an older stamp.
pub after_set-Precedes :
    (k key : String) (v : LwwValue) (s : StateStore)
    → Precedes (lookup k s) (lookup k (after_set key v s))
after_set-Precedes k key v s = elim (Bool-cases (key == k)) [
  | inl e ↦
      rw (lookup-after_set k key v s, e, ap (λ j. lookup j s) ((eq_iff key k).0 e))
        (Precedes-winner_of (lookup k s) v)
  | inr e ↦ rw (lookup-after_set k key v s, e) (Precedes-refl (lookup k s))
]

-- Neither does a merge.
pub merge_delta-Precedes :
    (k : String) (d : StateDelta) (s : StateStore)
    → Precedes (lookup k s) (lookup k (merge_delta d s).0)
merge_delta-Precedes k d s = rw lookup-merge_delta (Precedes-absorb k (lookup k s) d)

pub node_id-merge_delta :
    (d : StateDelta) (s : StateStore) → (merge_delta d s).0.node_id ≡ s.node_id
unfolding merge_delta
node_id-merge_delta d s =
    let r = merge_entries d s.state [] in (emit-SameButSent r.1 (record s { state = r.0 })).1

-- What holds of every entry of a map and of a delta holds of every entry after the merge.
module _ (P : String × LwwValue → Type 0) where
  All-winner_of :
      (k : String) (v : LwwValue) (m : HashMap LwwValue)
      → All P m
      → P (k, v)
      → P (k, winner_of (get k m) v)
  All-winner_of k v m h p = elim (Option-cases (get k m)) [
    | inl e ↦ rw e p
    | inr (w, e) ↦ elim (merge_lub w v).0 [
      | inl f ↦ rw (e, f) (All-get P k w m h e)
      | inr f ↦ rw (e, f) p
    ]
  ]

  All-step :
      (k : String) (v : LwwValue) (m : HashMap LwwValue) → All P m → P (k, v) → All P (step k v m)
  All-step k v m h p = elim (Bool-cases (is_value (winner_of (get k m) v) (get k m))) [
    | inl e ↦ rw e h
    | inr e ↦ rw e (All-insert P k (winner_of (get k m) v) m (All-winner_of k v m h p) h)
  ]

  All-merge_entries :
      (d : StateDelta) (m : HashMap LwwValue) (u : List String)
      → All P m
      → All P d
      → All P (merge_entries d m u).0
  unfolding merge_entries
  All-merge_entries [] m u h p = h
  All-merge_entries ((k, v) ∷ d) m u h p =
      All-merge_entries d (step k v m) _ (All-step k v m h p.0) p.1

  pub All-merge_delta :
      (d : StateDelta) (s : StateStore) → All P s.state → All P d → All P (merge_delta d s).0.state
  All-merge_delta d s h p = rw state-merge_delta (All-merge_entries d s.state [] h p)
