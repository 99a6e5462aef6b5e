-- ===== src/Gossip/Manager/Reach.antt =====
-- A gossip round reaches every peer when the fan-out allows it.
use Prim.Native.Nat.{min}
use mathlib.Core.List.{Perm, Mem, Mem-prop, mem-cons_self, mem-cons_of_mem}
use mathlib.Core.List.{length as count}
use mathlib.Core.List.Perm
use native.Mathlib.Bridge.{from_ℕ}
use rust_high_throughput_sta.Common.{
  ◌<◌, ◌≤◌, String, ◌≡◌, refl, sym, ap, ◌∙◌, Option, none, some, List, [], ◌∷◌, length, zero, suc,
  ℕ, take, arith, All, All-map, All-mem,
}
use rust_high_throughput_sta.HashMap.{get}
use rust_high_throughput_sta.HashMap.Laws.{IsDistinct, All-get}
use rust_high_throughput_sta.Config.{gossip_addr}
use rust_high_throughput_sta.State.Crdt.{LwwValue}
use rust_high_throughput_sta.State.Store.{
  StateStore, lookup, merge_delta, delta_since, timestamps, max_of, unwrap_or,
}
use rust_high_throughput_sta.State.Store.Covers.{Covers}
use rust_high_throughput_sta.State.Store.Merge.{merge_delta-Covers}
use rust_high_throughput_sta.State.Store.Reads.{get-delta_since}
use rust_high_throughput_sta.Gossip.Peer.{PeerInfo, Instant}
use rust_high_throughput_sta.Gossip.PeerMap.{DashMap}
use rust_high_throughput_sta.Gossip.Manager.{
  GossipManager, Send, select_targets, send_to, sends, gossip_round, receive, spawn,
}
use rust_high_throughput_sta.Gossip.Manager.Round.{round-sends}

-- The send to a peer that is due something, written out.
abbrev pub due_send : {M : Type 0} → GossipManager M → String → PeerInfo → Send
due_send mgr k p = record {
  peer_id = k;
  peer_addr = p.gossip_addr;
  msg = record {
    from_node_id = mgr.store.node_id;
    from_gossip_addr = gossip_addr mgr.config;
    deltas = delta_since p.last_sync_ts mgr.store;
    generation = mgr.generation;
  };
  max_sent_ts = unwrap_or 0 (max_of (timestamps (delta_since p.last_sync_ts mgr.store)));
}

take_all : {A : Type 0} (n : ℕ) (xs : List A) → length xs ≤ n → take n xs ≡ xs
take_all zero [] h = refl
take_all zero (x ∷ xs) h = absurd (omega arith)
take_all (suc n) [] h = refl
take_all (suc n) (x ∷ xs) h = ap (λ ys. x ∷ ys) (take_all n xs (omega arith))

-- The length by the library's numbers.
from_ℕ-count : {A : Type 0} (xs : List A) → from_ℕ (count xs) ≡ length xs
from_ℕ-count [] = refl
from_ℕ-count (x ∷ xs) = ap suc (from_ℕ-count xs)

length_shuffled : {A : Type 0} {xs ys : List A} → Perm xs ys → length xs ≡ length ys
length_shuffled {xs = xs} {ys = ys} p =
    sym (from_ℕ-count xs) ∙ ap from_ℕ (Perm.length-eq p) ∙ from_ℕ-count ys

spawned : (o : Option Send) (s : Send) (later : List Send) → Mem s later → Mem s (spawn o later)
spawned none s later h = h
spawned (some t) s later h = mem-cons_of_mem t h

module _ {M : Type 0} (dash : DashMap M PeerInfo) where
  sends-Mem :
      (mgr : GossipManager M) (targets : List (String × PeerInfo))
      → All
          (λ t.
            (s : Send)
            → send_to dash mgr mgr.generation t ≡ some s
            → Mem s (sends dash mgr mgr.generation targets))
          targets
  unfolding sends
  sends-Mem mgr [] = tt
  sends-Mem mgr (t ∷ targets) = (
    λ s h. rw h mem-cons_self,
    All-map (λ u known s h. spawned (send_to dash mgr mgr.generation t) s _ (known s h)) targets
        (sends-Mem mgr targets),
  )

  send_to-due :
      (mgr : GossipManager M) (k j : String) (p : PeerInfo) (v : LwwValue)
      → get j (delta_since p.last_sync_ts mgr.store) ≡ some v
      → send_to dash mgr mgr.generation (k, p) ≡ some (due_send mgr k p)
  unfolding send_to get
  send_to-due mgr k j p v h = ground arith

  module _ (shuffle : List (String × PeerInfo) → List (String × PeerInfo))
      (shuffled : (l : List (String × PeerInfo)) → Perm (shuffle l) l) where
    all_selected :
        (mgr : GossipManager M)
        → dash.len mgr.peers ≤ mgr.config.gossip_fanout
        → select_targets dash shuffle mgr ≡ shuffle (dash.iter mgr.peers)
    unfolding select_targets
    all_selected mgr fits =
        let all = shuffle (dash.iter mgr.peers) in
        take_all (min mgr.config.gossip_fanout (length all)) all
          (omega (arith, dash.len-iter mgr.peers, length_shuffled (shuffled (dash.iter mgr.peers))))

    -- Let the shuffle permute its list, the fan-out be no less than the number of peers, and the
    -- store have one entry for each key. Then an entry that is newer than the stamp recorded for a
    -- peer of the table is on its way to it after the round: one of the sends goes to the address of
    -- that peer with all that is newer, and whatever the store of the node that receives it holds,
    -- it then has the entry or a newer one under that key.
    pub gossip_round_delivers :
        (mgr : GossipManager M) (k j : String) (p : PeerInfo) (v : LwwValue)
        → dash.len mgr.peers ≤ mgr.config.gossip_fanout
        → IsDistinct mgr.store.state
        → dash.get k mgr.peers ≡ some p
        → lookup j mgr.store ≡ some v
        → p.last_sync_ts < v.timestamp
        → Mem (due_send mgr k p) (gossip_round dash shuffle mgr).1
          × ((now : Instant) (b : StateStore) (peers : M)
              → Covers (lookup j (receive dash now (due_send mgr k p).msg b peers).0) v)
    unfolding receive
    gossip_round_delivers mgr k j p v fits d known held newer =
        let due = (get-delta_since p.last_sync_ts mgr.store j v d).1 (held, newer) in
        let listed =
          (Perm.mem_iff (shuffled (dash.iter mgr.peers))).1
            ((dash.mem-iter k p mgr.peers).1 known) in
        (
          rw (round-sends dash shuffle mgr, all_selected mgr fits)
              (All-mem
                (λ t.
                  (s : Send)
                  → send_to dash mgr mgr.generation t ≡ some s
                  → Mem s (sends dash mgr mgr.generation (shuffle (dash.iter mgr.peers))))
                (λ t. hlevel Mem-prop) (shuffle (dash.iter mgr.peers))
                (sends-Mem mgr (shuffle (dash.iter mgr.peers))) (k, p) listed (due_send mgr k p)
                (send_to-due mgr k j p v due)),
          λ now b peers.
              All-get
                (λ e.
                  Covers (lookup e.0 (merge_delta (delta_since p.last_sync_ts mgr.store) b).0) e.1)
                j v (delta_since p.last_sync_ts mgr.store)
                (merge_delta-Covers (delta_since p.last_sync_ts mgr.store) b) due,
        )
