-- ===== src/Gossip/Cluster/Safety.antt =====
-- The states that a cluster of distinctly named nodes can reach.
use mathlib.Core.List.{Memᴰ}
use mathlib.Core.Path.{subst}
use rust_high_throughput_sta.Common.{
  ℕ, String, ◌≡◌, inl, inr, refl, some, arith, All, All-memᴰ, Option-cases,
}
use rust_high_throughput_sta.HashMap.Laws.{IsDistinct, All-get, All-filter_values}
use rust_high_throughput_sta.State.Crdt.{LwwValue, since_epoch, before_epoch}
use rust_high_throughput_sta.State.Crdt.Order.{SameStamp}
use rust_high_throughput_sta.State.Store
use rust_high_throughput_sta.State.Store.{
  StateStore, StateDelta, lookup, merge_delta, set, delta_since,
}
use rust_high_throughput_sta.State.Store.Covers.{Covers}
use rust_high_throughput_sta.State.Store.Converge.{Holds, merge_delta_comm}
use rust_high_throughput_sta.State.Store.Writes.{
  set-eq-after_set, after_set, stamped_value, set_panics,
}
use rust_high_throughput_sta.Gossip.Peer.{PeerInfo}
use rust_high_throughput_sta.Gossip.PeerMap.{DashMap}
use rust_high_throughput_sta.Gossip.Protocol.{GossipMessage}
use rust_high_throughput_sta.Gossip.Manager.{GossipManager, Send, send_to, receive}
use rust_high_throughput_sta.Gossip.Cluster.{
  Cluster, update, start, Step, write, gossip, deliver, Reach, here, next,
}
use rust_high_throughput_sta.Gossip.Cluster.Invariant.{Inv, Also, Covers-cases}
use rust_high_throughput_sta.Gossip.Cluster.Coherence.{write_lost, write_new, deliver-Inv}

-- The cluster's values are writes of its nodes, and a stamp names one write of a key.
abbrev pub IsCoherentCluster : (ℕ → String) → Cluster → Type 1
IsCoherentCluster ids c = (W : String → LwwValue → Type 0) × Inv ids W c

start-IsCoherentCluster :
    (ids : ℕ → String) (capacity : ℕ) → IsCoherentCluster ids (start ids capacity)
unfolding Store.created lookup
start-IsCoherentCluster ids capacity = (
  λ k v. ⊥,
  record {
    named = λ i. refl;
    distinct = λ i. tt;
    stores = λ i. tt;
    messages = tt;
    coherent = λ k a b h. absurd h;
    owned = λ k v h. absurd h;
  },
)

pub at_W :
    (W : String → LwwValue → Type 0) (k : String) (s : StateStore)
    → All (λ e. W e.0 e.1) s.state
    → Holds (W k) (lookup k s)
at_W W k s h = elim (Option-cases (lookup k s)) [
  | inl e ↦ rw e tt
  | inr (v, e) ↦ rw e (unfold lookup in All-get (λ x. W x.0 x.1) k v s.state h e)
]

module _ {M : Type 0} (dash : DashMap M PeerInfo) where
  send_to-deltas :
      (mgr : GossipManager M) (gen : ℕ) (k : String) (p : PeerInfo) (s : Send)
      → send_to dash mgr gen (k, p) ≡ some s
      → s.msg.deltas ≡ delta_since p.last_sync_ts mgr.store
  unfolding send_to
  send_to-deltas mgr gen k p s h = ground arith

  module _ (ids : ℕ → String) (unique : (i j : ℕ) → ids i ≡ ids j → i ≡ j) where
    write-IsCoherentCluster :
        {c : Cluster} (i nanos : ℕ) (key value : String)
        → IsCoherentCluster ids c
        → IsCoherentCluster ids (record c {
          nodes =
              update c.nodes i (after_set key (stamped_value nanos value (c.nodes i)) (c.nodes i));
        })
    write-IsCoherentCluster {c} i nanos key value (W, inv) =
        let v = stamped_value nanos value (c.nodes i) in
        elim (Covers-cases (lookup key (c.nodes i)) v) [
          | inl covered ↦ (W, write_lost ids inv i key v covered)
          | inr fresh ↦ (Also W key v, write_new ids unique inv i key v (inv.named i) fresh)
        ]

    Step-IsCoherentCluster :
        {c d : Cluster} → Step dash c d → IsCoherentCluster ids c → IsCoherentCluster ids d
    Step-IsCoherentCluster {c} (write i (since_epoch nanos) key value t winner h) w =
        subst (λ s. IsCoherentCluster ids (record c { nodes = update c.nodes i s }))
          (set-eq-after_set nanos key value (c.nodes i) t winner h)
          (write-IsCoherentCluster i nanos key value w)
    Step-IsCoherentCluster {c} (write i (before_epoch nanos) key value t winner h) w =
        absurd (cc (h, set_panics nanos key value (c.nodes i)))
    Step-IsCoherentCluster {c} (gossip i mgr gen (k, p) s e known h) (W, inv) = (
      W,
      record {
        named = inv.named;
        distinct = inv.distinct;
        stores = inv.stores;
        messages = (
          rw (send_to-deltas mgr gen k p s h, e)
              (unfold delta_since in
                All-filter_values (λ x. W x.0 x.1) _ (c.nodes i).state (inv.stores i)),
          inv.messages,
        );
        coherent = inv.coherent;
        owned = inv.owned;
      },
    )
    Step-IsCoherentCluster {c} (deliver j now peers msg m) (W, inv) = (
      W,
      unfold receive in
          deliver-Inv ids unique inv j msg.deltas (
            All-memᴰ (λ (x : GossipMessage). All (λ e. W e.0 e.1) x.deltas) msg c.network
              inv.messages m),
    )

    pub Reach-IsCoherentCluster :
        (capacity : ℕ) {c : Cluster} → Reach dash (start ids capacity) c → IsCoherentCluster ids c
    Reach-IsCoherentCluster capacity here = start-IsCoherentCluster ids capacity
    Reach-IsCoherentCluster capacity (next r s) =
        Step-IsCoherentCluster s (Reach-IsCoherentCluster capacity r)

    -- In a state that a cluster of distinctly named nodes can reach from empty stores, each store has
    -- one entry for each key and its node's name.
    pub Reach-IsDistinct :
        (capacity : ℕ) {c : Cluster}
        → Reach dash (start ids capacity) c
        → (i : ℕ) → IsDistinct (c.nodes i).state × ((c.nodes i).node_id ≡ ids i)
    Reach-IsDistinct capacity r i =
        let (W, inv) = Reach-IsCoherentCluster capacity r in (inv.distinct i, inv.named i)

    -- In a state that a cluster of distinctly named nodes can reach from empty stores, two nodes
    -- never hold different values of a key under one time stamp and node id.
    pub stamps_unique :
        (capacity : ℕ) {c : Cluster}
        → Reach dash (start ids capacity) c
        → (i j : ℕ) (k : String) (a b : LwwValue) → lookup k (c.nodes i) ≡ some a
        → lookup k (c.nodes j) ≡ some b
        → SameStamp a b
        → a ≡ b
    stamps_unique capacity {c} r i j k a b ha hb s =
        let (W, inv) = Reach-IsCoherentCluster capacity r in
        inv.coherent k a b
          (unfold lookup in All-get (λ x. W x.0 x.1) k a (c.nodes i).state (inv.stores i) ha)
          (unfold lookup in All-get (λ x. W x.0 x.1) k b (c.nodes j).state (inv.stores j) hb) s

    -- In a state that a cluster of distinctly named nodes can reach from empty stores, every value
    -- that a node holds carries the name of a node that holds it or a newer one.
    pub values_owned :
        (capacity : ℕ) {c : Cluster}
        → Reach dash (start ids capacity) c
        → (i : ℕ) (k : String) (v : LwwValue) → lookup k (c.nodes i) ≡ some v
        → (j : ℕ) × (v.node_id ≡ ids j) × Covers (lookup k (c.nodes j)) v
    values_owned capacity {c} r i k v h =
        let (W, inv) = Reach-IsCoherentCluster capacity r in
        inv.owned k v
          (unfold lookup in All-get (λ x. W x.0 x.1) k v (c.nodes i).state (inv.stores i) h)

    -- In a state that a cluster of distinctly named nodes can reach from empty stores, any two
    -- messages under way can be merged into a node in either order: each key holds the same
    -- afterwards.
    pub deliveries_commute :
        (capacity : ℕ) {c : Cluster}
        → Reach dash (start ids capacity) c
        → (i : ℕ) (m n : GossipMessage) → Memᴰ m c.network
        → Memᴰ n c.network
        → (k : String)
        → lookup k (merge_delta n.deltas (merge_delta m.deltas (c.nodes i)).0).0
          ≡ lookup k (merge_delta m.deltas (merge_delta n.deltas (c.nodes i)).0).0
    deliveries_commute capacity {c} r i m n hm hn k =
        let (W, inv) = Reach-IsCoherentCluster capacity r in
        merge_delta_comm W inv.coherent m.deltas n.deltas (c.nodes i)
          (All-memᴰ (λ (x : GossipMessage). All (λ e. W e.0 e.1) x.deltas) m c.network inv.messages
            hm)
          (All-memᴰ (λ (x : GossipMessage). All (λ e. W e.0 e.1) x.deltas) n c.network inv.messages
            hn)
          k (at_W W k (c.nodes i) (inv.stores i))
