-- ===== src/Node/Sync.antt =====
-- The sync stamps that a running node records for its peers.
pub mod Peers
use mathlib.Core.Path.{subst}
use mathlib.Core.List.{Perm}
use native.Mathlib.Nat.{le_refl, le_trans}
use rust_high_throughput_sta.Common.{
  ℕ, ◌≤◌, String, ◌≡◌, refl, sym, ap, Option, none, some, List, arith, All, All-map, All-append,
  All-middle, ltb,
}
use rust_high_throughput_sta.HashMap.Laws.{IsDistinct, All-filter_values}
use rust_high_throughput_sta.Config.{Config}
use rust_high_throughput_sta.State.Crdt.{LwwValue}
use rust_high_throughput_sta.State.Crdt.Order.{stamp_le}
use rust_high_throughput_sta.State.Store.{
  StateStore, lookup, max_timestamp, max_of, timestamps, delta_since, unwrap_or,
}
use rust_high_throughput_sta.State.Store.Covers.{Covers, Precedes}
use rust_high_throughput_sta.State.Store.Reads.{
  max_timestamp-le_iff, max_of-timestamps, max_of_least, timestamps-All,
}
use rust_high_throughput_sta.State.Store.Effect.{Extends, Effect-Extends}
use rust_high_throughput_sta.Gossip.Peer
use rust_high_throughput_sta.Gossip.Peer.{PeerInfo, Instant, mark_seen, record_exchange}
use rust_high_throughput_sta.Gossip.PeerMap.{DashMap, or_default}
use rust_high_throughput_sta.Gossip.Protocol.{
  GossipMessage, GossipAck, Result, ok, err, read_message,
}
use rust_high_throughput_sta.Gossip.Manager
use rust_high_throughput_sta.Gossip.Manager.{
  Send, after_read, handle_inbound, receive, finish_send, gossip_round,
}
use rust_high_throughput_sta.Gossip.Manager.Round.{IsSendTo, gossip_round-IsSendTo}
use rust_high_throughput_sta.Gossip.Manager.Seeds.{new-registers_seeds}
use rust_high_throughput_sta.Rpc.Server.{running, finished, failed, panicked}
use rust_high_throughput_sta.Rpc.Handler.{RpcHandler}
use rust_high_throughput_sta.Rpc.Handler.Effects.{Changes}
use rust_high_throughput_sta.Rpc.Server.Effects.{step-ChangesTo}
use rust_high_throughput_sta.Node.{
  Crates, Node, main, start_manager, manager_of, after_round, tick, serve_inbound, finish,
  handler_of, Step, serving, gossiping, server_binds, server_bind_fails, server_accepts,
  server_stops, connection_goes_on, manager_starts, listener_binds, listener_bind_fails,
  listener_accepts, listener_stops, inbound_served, scheduler_starts, scheduler_panics,
  scheduler_ticks, scheduler_stops, send_finishes, manager_stops, ctrl_c, ctrl_c_fails,
  main_returns, Reach, here, next,
}
use rust_high_throughput_sta.Node.Stores.{Step-Effect, begun, Reach-begun, begun-IsDistinct}
use rust_high_throughput_sta.State.Store.Stamps.{max_timestamp_mono, delta_since-le-max_timestamp}
use rust_high_throughput_sta.Node.Sync.Peers.{
  IsSyncedUpTo, after_read-IsSyncedUpTo, finish_send-IsSyncedUpTo, new-IsSyncedUpTo,
}

-- Neither a peer's sync stamp nor a stamp that a send will record is above the store's greatest.
record AreSynced {M : Type 0} (dash : DashMap M PeerInfo) (store : StateStore) (peers : M)
    (sends : List Send) : Type 0 where
  peers_synced : IsSyncedUpTo dash (max_timestamp store) peers
  sends_synced : All (λ (s : Send). s.max_sent_ts ≤ max_timestamp store) sends

abbrev IsSound : {Value M R W : Type 0} → Crates Value M R W → Node M R W → Type 0
IsSound crates n = AreSynced crates.dash n.store n.peers n.sends

module _ {Value M R W : Type 0} (crates : Crates Value M R W) where
  open crates use {dash, json, messages, acks, source, sink}

  tick-IsSound :
      (shuffle : List (String × PeerInfo) → List (String × PeerInfo)) (n : Node M R W)
      → ((l : List (String × PeerInfo)) → Perm (shuffle l) l)
      → IsSound crates n
      → IsSound crates (tick crates shuffle n)
  unfolding tick
  tick-IsSound shuffle n perm h = record {
    peers_synced = h.peers_synced;
    sends_synced =
        All-append (λ (s : Send). s.max_sent_ts ≤ max_timestamp n.store) _ n.sends
          (All-map (λ s (p, known, sent). bounded s p sent) _
            (gossip_round-IsSendTo dash shuffle perm (manager_of crates n)))
          h.sends_synced;
  }
    where
      bounded :
          (s : Send) (p : PeerInfo)
          → IsSendTo (manager_of crates n) s.peer_id p s
          → s.max_sent_ts ≤ max_timestamp n.store
      bounded s p sent = omega (
        arith,
        sent.max_sent,
        ap (λ d. unwrap_or 0 (max_of (timestamps d))) sent.deltas,
        delta_since-le-max_timestamp p.last_sync_ts n.store,
      )

  -- The store grew, and with it the bound.
  grown-IsSound :
      (n : Node M R W) (t : StateStore) (m : M)
      → IsDistinct n.store.state
      → Extends n.store t
      → IsSyncedUpTo dash (max_timestamp n.store) n.peers
      → ((b : ℕ) → IsSyncedUpTo dash b n.peers → IsSyncedUpTo dash b m)
      → All (λ (s : Send). s.max_sent_ts ≤ max_timestamp n.store) n.sends
      → IsSyncedUpTo dash (max_timestamp t) m
        × All (λ (s : Send). s.max_sent_ts ≤ max_timestamp t) n.sends
  grown-IsSound n t m d e p keep s =
      let up = max_timestamp_mono n.store t d e in
      (
        keep (max_timestamp t) (λ k q held. le_trans (p k q held) up),
        All-map (λ x low. le_trans low up) n.sends s,
      )

  -- What a connection leaves behind.
  changed-IsSound :
      (n : Node M R W) (hd : RpcHandler M)
      → IsDistinct n.store.state
      → Changes (handler_of crates n) hd
      → IsSound crates n
      → AreSynced dash hd.store hd.peers n.sends
  changed-IsSound n hd d g h =
      let (p, q) =
        grown-IsSound n hd.store hd.peers d (Effect-Extends g.effect) h.peers_synced
          (λ b old. subst (IsSyncedUpTo dash b) (sym g.same_peers) old) h.sends_synced in
      record { peers_synced = p; sends_synced = q }

  read-IsSyncedUpTo :
      (b : ℕ) (now : Instant) (w : W) (store : StateStore) (m : M) (r : Result (GossipMessage × R))
      → IsSyncedUpTo dash b m
      → IsSyncedUpTo dash b (after_read dash messages acks source sink now w store m r).peers
  read-IsSyncedUpTo b now w store m (ok (msg, r)) h =
      after_read-IsSyncedUpTo dash b now store msg m h
  read-IsSyncedUpTo b now w store m (err e) h = h

  Step-IsSound :
      {n m : Node M R W}
      → Step crates n m
      → IsDistinct n.store.state
      → IsSound crates n
      → IsSound crates m
  unfolding start_manager after_round serve_inbound finish handle_inbound
  Step-IsSound (serving (server_binds e)) d h = h
  Step-IsSound (serving (server_bind_fails e)) d h = h
  Step-IsSound (serving (server_accepts w e)) d h = h
  Step-IsSound (serving (server_stops e c)) d h = h
  Step-IsSound {n}
        (serving (connection_goes_on now instant before after k arm (running hd cn) e a st)) d h =
      changed-IsSound n hd d
        (step-ChangesTo json dash sink now instant (handler_of crates n) k arm (running hd cn) st) h
  Step-IsSound (serving (connection_goes_on now instant before after k arm finished e a st)) d h = h
  Step-IsSound {n} (serving (connection_goes_on now instant before after k arm (failed hd) e a st))
        d h =
      changed-IsSound n hd d
        (step-ChangesTo json dash sink now instant (handler_of crates n) k arm (failed hd) st) h
  Step-IsSound (serving (connection_goes_on now instant before after k arm panicked e a st)) d h = h
  Step-IsSound {n} (gossiping (manager_starts now e)) d h = record {
    peers_synced =
        new-IsSyncedUpTo dash (max_timestamp n.store) now n.config n.store n.peers h.peers_synced;
    sends_synced = h.sends_synced;
  }
  Step-IsSound (gossiping (listener_binds e f)) d h = h
  Step-IsSound (gossiping (listener_bind_fails e f)) d h = h
  Step-IsSound (gossiping (listener_accepts r w e)) d h = h
  Step-IsSound (gossiping (listener_stops e c)) d h = h
  Step-IsSound {n} (gossiping (inbound_served now r w before after e)) d h =
      let handled =
        after_read dash messages acks source sink now w n.store n.peers
          (read_message messages source r) in
      let (p, q) =
        grown-IsSound n handled.store handled.peers d
          (Effect-Extends
            (Step-Effect crates {n = n} (gossiping (inbound_served now r w before after e))))
          h.peers_synced
          (λ b. read-IsSyncedUpTo b now w n.store n.peers (read_message messages source r))
          h.sends_synced in
      record { peers_synced = p; sends_synced = q }
  Step-IsSound (gossiping (scheduler_starts e f z)) d h = h
  Step-IsSound (gossiping (scheduler_panics e f z)) d h = h
  Step-IsSound {n} (gossiping (scheduler_ticks shuffle p e)) d h = tick-IsSound shuffle n p h
  Step-IsSound (gossiping (scheduler_stops e c)) d h = h
  Step-IsSound {n} (gossiping (send_finishes now s answer before after e)) d h =
      let P = λ (x : Send). x.max_sent_ts ≤ max_timestamp n.store in
      let (low, rest) = All-middle P before s after (subst (All P) e h.sends_synced) in
      record {
        peers_synced =
            finish_send-IsSyncedUpTo dash (max_timestamp n.store) now s answer n.peers low
              h.peers_synced;
        sends_synced = rest;
      }
  Step-IsSound (gossiping (manager_stops e f g)) d h = h
  Step-IsSound (ctrl_c e f) d h = h
  Step-IsSound (ctrl_c_fails e f) d h = h
  Step-IsSound (main_returns e c f g) d h = h

  begun-IsSound :
      (fresh_uuid : String) (config : Config) → IsSound crates (begun crates fresh_uuid config)
  begun-IsSound fresh_uuid config = record {
    peers_synced = λ k p e. absurd (cc (e, dash.get-empty k));
    sends_synced = tt;
  }

  Reach-IsSound :
      (fresh_uuid : String) (config : Config) {n : Node M R W}
      → Reach crates (begun crates fresh_uuid config) n
      → IsSound crates n
  Reach-IsSound fresh_uuid config here = begun-IsSound fresh_uuid config
  Reach-IsSound fresh_uuid config (next r s) =
      Step-IsSound s (begun-IsDistinct crates fresh_uuid config r)
        (Reach-IsSound fresh_uuid config r)

  -- In every state that a node can reach from its start, if `main` does not panic, the sync stamp recorded for a peer is at
  -- most the greatest stamp in the node's store, and so is each stamp that a send under way will
  -- record.
  pub sync_stamps_bounded :
      (fresh_uuid : String) (config : Config) {n₀ n : Node M R W}
      → main crates fresh_uuid config ≡ some n₀
      → Reach crates n₀ n
      → ((k : String) (p : PeerInfo)
          → dash.get k n.peers ≡ some p
          → p.last_sync_ts ≤ max_timestamp n.store)
        × All (λ (s : Send). s.max_sent_ts ≤ max_timestamp n.store) n.sends
  sync_stamps_bounded fresh_uuid config started r =
      let h = Reach-IsSound fresh_uuid config (Reach-begun crates fresh_uuid config started r) in
      (h.peers_synced, h.sends_synced)
