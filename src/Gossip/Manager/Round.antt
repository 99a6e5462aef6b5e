-- ===== src/Gossip/Manager/Round.antt =====
-- A gossip round: whom it contacts, with what, and what it leaves out.
use Prim.Native.Nat.{min}
use mathlib.Core.List.{Perm}
use mathlib.Core.List.Perm
use mathlib.Core.Option.{some-injective}
use rust_high_throughput_sta.Common.{
  ◌<◌, ◌≤◌, String, ◌≡◌, ◌≢◌, ◌⊎◌, refl, sym, ap, ◌∙◌, Option, none, some, List, [], ◌∷◌, length,
  take, arith, if◌then◌else◌, All, All-map, All-take, All-self, length-take,
}
use rust_high_throughput_sta.HashMap.{get}
use rust_high_throughput_sta.HashMap.Laws.{IsDistinct}
use rust_high_throughput_sta.Config.{gossip_addr}
use rust_high_throughput_sta.State.Crdt.{LwwValue}
use rust_high_throughput_sta.State.Store.{delta_since, timestamps, max_of, unwrap_or}
use rust_high_throughput_sta.State.Store.Reads.{get-delta_since}
use rust_high_throughput_sta.Gossip.Peer.{PeerInfo}
use rust_high_throughput_sta.Gossip.PeerMap.{DashMap}
use rust_high_throughput_sta.Gossip.Manager.{
  GossipManager, Send, select_targets, send_to, sends, gossip_round, is_empty, spawn,
}

-- A send of a manager's round to the peer that it found as `p`.
pub record IsSendTo {M : Type 0} (mgr : GossipManager M) (k : String) (p : PeerInfo) (s : Send)
    : Type 0 where
  pub peer_id : s.peer_id ≡ k
  pub peer_addr : s.peer_addr ≡ p.gossip_addr
  pub from_node_id : s.msg.from_node_id ≡ mgr.store.node_id
  pub from_gossip_addr : s.msg.from_gossip_addr ≡ gossip_addr mgr.config
  pub deltas : s.msg.deltas ≡ delta_since p.last_sync_ts mgr.store
  pub generation : s.msg.generation ≡ mgr.generation
  pub max_sent : s.max_sent_ts ≡ unwrap_or 0 (max_of (timestamps s.msg.deltas))
  pub worth : (s.msg.deltas ≢ []) ⊎ (p.exchange_count ≡ 0)

All-spawn :
    (P : Send → Type 0) (o : Option Send) (later : List Send)
    → ((s : Send) → o ≡ some s → P s)
    → All P later
    → All P (spawn o later)
All-spawn P none later h k = k
All-spawn P (some s) later h k = (h s refl, k)

at_own_key :
    {M : Type 0} {mgr : GossipManager M} {k : String} {p : PeerInfo} {s : Send}
    → IsSendTo mgr k p s
    → IsSendTo mgr s.peer_id p s
at_own_key h = record {
  peer_id = refl;
  peer_addr = h.peer_addr;
  from_node_id = h.from_node_id;
  from_gossip_addr = h.from_gossip_addr;
  deltas = h.deltas;
  generation = h.generation;
  max_sent = h.max_sent;
  worth = h.worth;
}

module _ {M : Type 0} (dash : DashMap M PeerInfo) where
  send_to-IsSendTo :
      (mgr : GossipManager M) (k : String) (p : PeerInfo) (s : Send)
      → send_to dash mgr mgr.generation (k, p) ≡ some s
      → IsSendTo mgr k p s
  unfolding send_to
  send_to-IsSendTo mgr k p s h = ground arith

  found :
      (mgr : GossipManager M) (k : String) (p : PeerInfo) (s : Send)
      → dash.get k mgr.peers ≡ some p
      → send_to dash mgr mgr.generation (k, p) ≡ some s
      → dash.get s.peer_id mgr.peers ≡ some p
  found mgr k p s known h =
      ap (λ j. dash.get j mgr.peers) (send_to-IsSendTo mgr k p s h).peer_id ∙ known

  -- The skip: nothing new for a peer that has been heard of.
  send_to_skips :
      (mgr : GossipManager M) (k : String) (p : PeerInfo)
      → send_to dash mgr mgr.generation (k, p) ≡ none
      → delta_since p.last_sync_ts mgr.store ≡ []
  unfolding send_to
  send_to_skips mgr k p h = ground arith

  -- What holds of the send to each target holds of every send.
  sends-All :
      (P : Send → Type 0) (mgr : GossipManager M) (targets : List (String × PeerInfo))
      → All (λ t. (s : Send) → send_to dash mgr mgr.generation t ≡ some s → P s) targets
      → All P (sends dash mgr mgr.generation targets)
  unfolding sends
  sends-All P mgr [] h = tt
  sends-All P mgr (t ∷ targets) h =
      All-spawn P (send_to dash mgr mgr.generation t) (sends dash mgr mgr.generation targets) h.0
        (sends-All P mgr targets h.1)

  unless_empty :
      (mgr next : GossipManager M) (targets : List (String × PeerInfo))
      → (if◌then◌else◌ {A = GossipManager M × List Send}
          (is_empty targets)
          (mgr, [])
          (next, sends dash mgr mgr.generation targets)).1
        ≡ sends dash mgr mgr.generation targets
  unfolding sends
  unless_empty mgr next [] = refl
  unless_empty mgr next (t ∷ targets) = refl

  length-sends :
      (mgr : GossipManager M) (targets : List (String × PeerInfo))
      → length (sends dash mgr mgr.generation targets) ≤ length targets
  unfolding sends
  length-sends mgr [] = omega arith
  length-sends mgr (t ∷ targets) = ground (arith, length-sends mgr targets)

  left_out :
      (mgr : GossipManager M) (j k : String) (q p : PeerInfo) (s : Send) (v : LwwValue)
      → IsDistinct mgr.store.state
      → dash.get k mgr.peers ≡ some p
      → v.timestamp ≤ p.last_sync_ts
      → s.peer_id ≡ k
      → dash.get s.peer_id mgr.peers ≡ some q
      → IsSendTo mgr s.peer_id q s
      → get j s.msg.deltas ≢ some v
  left_out mgr j k q p s v d known old e at sent h =
      let same : q ≡ p = some-injective q p (sym at ∙ ap (λ i. dash.get i mgr.peers) e ∙ known) in
      let newer : q.last_sync_ts < v.timestamp =
        ((get-delta_since q.last_sync_ts mgr.store j v d).0 (ap (get j) (sym sent.deltas) ∙ h)).1 in
      let equal : q.last_sync_ts ≡ p.last_sync_ts = ap (λ (x : PeerInfo). x.last_sync_ts) same in
      omega arith

  module _ (shuffle : List (String × PeerInfo) → List (String × PeerInfo)) where
    -- A round's sends are those to the selected targets, none if there are none.
    pub round-sends :
        (mgr : GossipManager M)
        → (gossip_round dash shuffle mgr).1
          ≡ sends dash mgr mgr.generation (select_targets dash shuffle mgr)
    unfolding gossip_round
    round-sends mgr = unless_empty mgr _ (select_targets dash shuffle mgr)

    -- A round spawns at most `gossip_fanout` sends and changes no peer and no entry.
    gossip_round-fanout :
        (mgr : GossipManager M)
        → (length (gossip_round dash shuffle mgr).1 ≤ mgr.config.gossip_fanout)
          × ((gossip_round dash shuffle mgr).0.store ≡ mgr.store)
          × ((gossip_round dash shuffle mgr).0.peers ≡ mgr.peers)
    unfolding gossip_round select_targets
    gossip_round-fanout mgr =
        let all = shuffle (dash.iter mgr.peers) in
        let targets = take (min mgr.config.gossip_fanout (length all)) all in
        (
          ground (
            arith,
            length-sends mgr targets,
            length-take (min mgr.config.gossip_fanout (length all)) all,
          ),
          ground arith,
          ground arith,
        )

    module _ (shuffled : (l : List (String × PeerInfo)) → Perm (shuffle l) l) where
      -- Every selected target is an entry of the peer table.
      targets_known :
          (mgr : GossipManager M)
          → All (λ t. dash.get t.0 mgr.peers ≡ some t.1) (select_targets dash shuffle mgr)
      unfolding select_targets
      targets_known mgr =
          let all = shuffle (dash.iter mgr.peers) in
          All-take (λ t. dash.get t.0 mgr.peers ≡ some t.1)
            (min mgr.config.gossip_fanout (length all)) all
            (All-map
              (λ t m.
                (dash.mem-iter t.0 t.1 mgr.peers).0
                  ((Perm.mem_iff (shuffled (dash.iter mgr.peers))).0 m))
              all (All-self all))

      -- If the shuffle permutes its list, every send of a round goes to a peer in the table, at its
      -- address, with the delta since its sync stamp, this node's id and gossip address and the
      -- round's generation; it records the greatest stamp of the delta, and its delta is empty only
      -- for a peer with no exchange yet.
      pub gossip_round-IsSendTo :
          (mgr : GossipManager M)
          → All
              (λ s.
                (p : PeerInfo) × (dash.get s.peer_id mgr.peers ≡ some p)
                × IsSendTo mgr s.peer_id p s)
              (gossip_round dash shuffle mgr).1
      gossip_round-IsSendTo mgr = rw (round-sends mgr) (
          sends-All _ mgr (select_targets dash shuffle mgr) (
            All-map
              (λ t known s h.
                (t.1, found mgr t.0 t.1 s known h, at_own_key (send_to-IsSendTo mgr t.0 t.1 s h)))
              (select_targets dash shuffle mgr) (targets_known mgr)))

      -- If the shuffle permutes its list and the store has one entry for each key, an entry whose
      -- stamp is not after the stamp recorded for a peer is in no message of the round to that
      -- peer, whether or not the peer has it.
      pub gossip_round_leaves_out :
          (mgr : GossipManager M) (k j : String) (p : PeerInfo) (v : LwwValue)
          → IsDistinct mgr.store.state
          → dash.get k mgr.peers ≡ some p
          → v.timestamp ≤ p.last_sync_ts
          → All (λ s. s.peer_id ≡ k → get j s.msg.deltas ≢ some v) (gossip_round dash shuffle mgr).1
      gossip_round_leaves_out mgr k j p v d known old =
          All-map (λ s (q, at, sent) e. left_out mgr j k q p s v d known old e at sent)
            (gossip_round dash shuffle mgr).1 (gossip_round-IsSendTo mgr)
