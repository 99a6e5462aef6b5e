-- ===== src/Gossip/Cluster/Exchange.antt =====
-- Progress of a cluster over its steps, and a push each way between two nodes.
use mathlib.Core.Path.{subst}
use rust_high_throughput_sta.Common.{ℕ, String, ◌≡◌, refl, Option, none, some, All}
use rust_high_throughput_sta.HashMap.Laws.{
  IsDistinct, All_of_get, All-filter_values, filter_values-IsDistinct,
}
use rust_high_throughput_sta.State.Crdt.{LwwValue, since_epoch, before_epoch}
use rust_high_throughput_sta.State.Crdt.Order.{stamp_le_refl}
use rust_high_throughput_sta.State.Store.{StateStore, lookup, merge_delta, delta_since}
use rust_high_throughput_sta.State.Store.View.{lookup-merge_delta}
use rust_high_throughput_sta.State.Store.Covers.{
  Covers, Precedes, Precedes-refl, Precedes-trans, absorb-least,
}
use rust_high_throughput_sta.State.Store.Converge.{IsCoherent, Holds, holdings_agree}
use rust_high_throughput_sta.State.Store.Writes.{set-eq-after_set, stamped_value, set_panics}
use rust_high_throughput_sta.State.Store.Reads.{get-delta_since, pull-Covers}
use rust_high_throughput_sta.State.Store.Invariant.{
  after_set-Precedes, merge_delta-Precedes, merge_delta-IsDistinct, All-merge_delta,
}
use rust_high_throughput_sta.Gossip.Peer.{PeerInfo}
use rust_high_throughput_sta.Gossip.PeerMap.{DashMap}
use rust_high_throughput_sta.Gossip.Manager.{receive}
use rust_high_throughput_sta.Gossip.Manager.Inbound.{IsSynced}
use rust_high_throughput_sta.Gossip.Cluster.{
  Cluster, start, Step, write, gossip, deliver, Reach, here, next,
}
use rust_high_throughput_sta.Gossip.Cluster.Coherence.{update_all}
use rust_high_throughput_sta.Gossip.Cluster.Safety.{Reach-IsCoherentCluster, at_W}

-- What a node pushes is covered by itself.
pub delta_since-covered :
    (since : ℕ) (s : StateStore) (k : String)
    → IsDistinct s.state
    → All (λ e. e.0 ≡ k → Covers (lookup k s) e.1) (delta_since since s)
delta_since-covered since s k d =
    All_of_get (λ e. e.0 ≡ k → Covers (lookup k s) e.1) (delta_since since s)
      (unfold delta_since in filter_values-IsDistinct _ s.state d)
      (λ j v h e.
        subst (λ i. Covers (lookup i s) v) e (covered j v ((get-delta_since since s j v d).0 h).0))
  where
    covered : (j : String) (v : LwwValue) → lookup j s ≡ some v → Covers (lookup j s) v
    covered j v h = rw h (stamp_le_refl v)

pub Precedes-of_Covers :
    (o p : Option LwwValue) → ((v : LwwValue) → o ≡ some v → Covers p v) → Precedes o p
Precedes-of_Covers none p h = tt
Precedes-of_Covers (some v) p h = h v refl

-- The store after a push of what is newer than `since`.
abbrev pub pushed : ℕ → StateStore → StateStore → StateStore
pushed since a b = (merge_delta (delta_since since a) b).0

delta_in :
    (W : String → LwwValue → Type 0) (since : ℕ) (s : StateStore)
    → All (λ e. W e.0 e.1) s.state
    → All (λ e. W e.0 e.1) (delta_since since s)
unfolding delta_since
delta_in W since s h = All-filter_values (λ e. W e.0 e.1) _ s.state h

module _ (W : String → LwwValue → Type 0) (coherent : IsCoherent W) where
  -- `a` pushes to `b`, then `b` back to `a`.
  push_both_ways :
      (p q : ℕ) (a b : StateStore)
      → IsDistinct a.state
      → IsDistinct b.state
      → IsSynced p a b
      → IsSynced q (pushed p a b) a
      → (k : String) → Holds (W k) (lookup k (pushed p a b))
      → Holds (W k) (lookup k (pushed q (pushed p a b) a))
      → lookup k (pushed q (pushed p a b) a) ≡ lookup k (pushed p a b)
  push_both_ways p q a b da db sab sba k hb hc =
      holdings_agree (W k) (coherent k) (lookup k a') (lookup k b') hc hb below above
    where
      b' : StateStore
      b' = pushed p a b

      a' : StateStore
      a' = pushed q b' a

      db' : IsDistinct b'.state
      db' = merge_delta-IsDistinct (delta_since p a) b db

      below : Precedes (lookup k a') (lookup k b')
      below = rw lookup-merge_delta (
          absorb-least k (lookup k a) (lookup k b') (delta_since q b')
            (Precedes-of_Covers (lookup k a) (lookup k b') (pull-Covers p a b da sab k))
            (delta_since-covered q b' k db'))

      above : Precedes (lookup k b') (lookup k a')
      above = Precedes-of_Covers (lookup k b') (lookup k a') (pull-Covers q b' a db' sba k)

module _ {M : Type 0} (dash : DashMap M PeerInfo) where
  Step-Precedes :
      {c d : Cluster}
      → Step dash c d
      → (i : ℕ) (k : String) → Precedes (lookup k (c.nodes i)) (lookup k (d.nodes i))
  Step-Precedes {c} (write i (since_epoch nanos) key value t winner h) j k =
      update_all (λ n s. Precedes (lookup k (c.nodes n)) (lookup k s)) c.nodes i t
        (subst (λ s. Precedes (lookup k (c.nodes i)) (lookup k s))
          (set-eq-after_set nanos key value (c.nodes i) t winner h)
          (after_set-Precedes k key (stamped_value nanos value (c.nodes i)) (c.nodes i)))
        (λ n. Precedes-refl (lookup k (c.nodes n))) j
  Step-Precedes {c} (write i (before_epoch nanos) key value t winner h) j k =
      absurd (cc (h, set_panics nanos key value (c.nodes i)))
  Step-Precedes {c} (gossip i mgr gen target s e known h) j k = Precedes-refl (lookup k (c.nodes j))
  Step-Precedes {c} (deliver i now peers msg m) j k =
      update_all (λ n s. Precedes (lookup k (c.nodes n)) (lookup k s)) c.nodes i
        (receive dash now msg (c.nodes i) peers).0
        (unfold receive in merge_delta-Precedes k msg.deltas (c.nodes i))
        (λ n. Precedes-refl (lookup k (c.nodes n))) j

  -- From any state, whatever steps a cluster takes, no node goes back: each key that a node holds
  -- keeps its value or gets one that is not older.
  pub Reach-Precedes :
      {c d : Cluster}
      → Reach dash c d
      → (i : ℕ) (k : String) → Precedes (lookup k (c.nodes i)) (lookup k (d.nodes i))
  Reach-Precedes {c} here i k = Precedes-refl (lookup k (c.nodes i))
  Reach-Precedes {c} (next {d} {e} r s) i k =
      Precedes-trans (lookup k (c.nodes i)) (lookup k (d.nodes i)) (lookup k (e.nodes i))
        (Reach-Precedes r i k) (Step-Precedes s i k)

  module _ (ids : ℕ → String) (unique : (i j : ℕ) → ids i ≡ ids j → i ≡ j) where
    -- In a state that a cluster of distinctly named nodes can reach from empty stores, let node `i`
    -- merge what is newer than `p` into node `j`, and `j` then what is newer than `q` into `i`. If
    -- each receiver covers the entries up to that stamp, both then hold the same value under every
    -- key.
    pub exchange_agrees :
        (capacity : ℕ) {c : Cluster}
        → Reach dash (start ids capacity) c
        → (i j p q : ℕ) → IsSynced p (c.nodes i) (c.nodes j)
        → IsSynced q (pushed p (c.nodes i) (c.nodes j)) (c.nodes i)
        → (k : String)
        → lookup k (pushed q (pushed p (c.nodes i) (c.nodes j)) (c.nodes i))
          ≡ lookup k (pushed p (c.nodes i) (c.nodes j))
    exchange_agrees capacity {c} r i j p q sij sji k =
        let (W, inv) = Reach-IsCoherentCluster dash ids unique capacity r in
        let a = c.nodes i in
        let b = c.nodes j in
        let wa = inv.stores i in
        let wb = inv.stores j in
        let wd = delta_in W p a wa in
        let wb' = All-merge_delta (λ x. W x.0 x.1) (delta_since p a) b wb wd in
        let wa' =
          All-merge_delta (λ x. W x.0 x.1) (delta_since q (pushed p a b)) a wa
            (delta_in W q (pushed p a b) wb') in
        push_both_ways W inv.coherent p q a b (inv.distinct i) (inv.distinct j) sij sji k
          (at_W W k (pushed p a b) wb') (at_W W k (pushed q (pushed p a b) a) wa')
