-- ===== src/State/Store/Effect.antt =====
-- How a store can change: not at all, by a `set`, or by a `merge_delta`.
use mathlib.Core.Path.{subst}
use rust_high_throughput_sta.Common.{String, ◌≡◌, refl, ◌∙◌, some}
use rust_high_throughput_sta.HashMap.Laws.{IsDistinct}
use rust_high_throughput_sta.State.Crdt.{LwwValue, SystemTime, since_epoch, before_epoch}
use rust_high_throughput_sta.State.Store.{StateStore, StateDelta, lookup, set, merge_delta}
use rust_high_throughput_sta.State.Store.Covers.{Precedes, Precedes-refl, Precedes-trans}
use rust_high_throughput_sta.State.Store.Writes.{
  after_set, stamped_value, set_panics, set-eq-after_set,
}
use rust_high_throughput_sta.State.Store.Invariant.{
  after_set-Precedes, merge_delta-Precedes, merge_delta-IsDistinct, after_set-IsDistinct,
  node_id-merge_delta,
}

pub data Effect (s : StateStore) : StateStore → Type 0 where
  kept : Effect s s
  wrote :
      (now : SystemTime) (key value : String) (t : StateStore) (winner : LwwValue)
      → set now key value s ≡ some (t, winner)
      → Effect s t
  merged : (delta : StateDelta) → Effect s (merge_delta delta s).0

-- What every effect keeps: `t` holds what `s` held or something newer, with one entry for each key
-- and the same node id.
pub record Extends (s t : StateStore) : Type 0 where
  pub precedes : (k : String) → Precedes (lookup k s) (lookup k t)
  pub distinct : IsDistinct s.state → IsDistinct t.state
  pub same_node : t.node_id ≡ s.node_id

pub Extends-refl : (s : StateStore) → Extends s s
Extends-refl s = record {
  precedes = λ k. Precedes-refl (lookup k s);
  distinct = λ h. h;
  same_node = refl;
}

pub Extends-trans : (s t u : StateStore) → Extends s t → Extends t u → Extends s u
Extends-trans s t u p q = record {
  precedes =
      λ k. Precedes-trans (lookup k s) (lookup k t) (lookup k u) (p.precedes k) (q.precedes k);
  distinct = λ h. q.distinct (p.distinct h);
  same_node = q.same_node ∙ p.same_node;
}

after_set-Extends : (key : String) (v : LwwValue) (s : StateStore) → Extends s (after_set key v s)
after_set-Extends key v s = record {
  precedes = λ k. after_set-Precedes k key v s;
  distinct = after_set-IsDistinct key v s;
  same_node = unfold after_set in refl;
}

pub Effect-Extends : {s t : StateStore} → Effect s t → Extends s t
Effect-Extends {s} kept = Extends-refl s
Effect-Extends {s} (wrote (since_epoch nanos) key value t winner e) =
    subst (Extends s) (set-eq-after_set nanos key value s t winner e)
      (after_set-Extends key (stamped_value nanos value s) s)
Effect-Extends {s} (wrote (before_epoch nanos) key value t winner e) =
    absurd (cc (e, set_panics nanos key value s))
Effect-Extends {s} (merged delta) = record {
  precedes = λ k. merge_delta-Precedes k delta s;
  distinct = merge_delta-IsDistinct delta s;
  same_node = node_id-merge_delta delta s;
}
