-- ===== src/Gossip/Manager.antt =====
-- src/gossip/manager.rs: a node's gossip rounds, and what it does with a message that comes in.
-- A round reads the peer table and the store, and spawns its sends; what a send does to the peer
-- table when its answer is there is `finish_send`. The shuffle, the sockets and the clock are
-- arguments.
pub mod Round
pub mod Reach
pub mod Inbound
pub mod Seeds
use Prim.Native.Nat.{min}
use mathlib.Core.List.{filter_map}
use rust_high_throughput_sta.Common.{
  ℕ, ◌+◌, ◌%◌, ◌^◌, ◌<◌, String, Bool, true, false, not, ◌&&◌, Option, none, some, List, [], ◌∷◌,
  length, take, ◌==◌, ltb, eqb, if◌then◌else◌,
}
use rust_high_throughput_sta.Config.{Config, gossip_addr}
use rust_high_throughput_sta.State.Store.{
  StateStore, StateDelta, delta_since, max_of, timestamps, unwrap_or, merge_delta,
}
use rust_high_throughput_sta.Bincode.{Bincode}
use rust_high_throughput_sta.Gossip.Peer
use rust_high_throughput_sta.Gossip.Peer.{PeerInfo, Instant, record_exchange, mark_seen}
use rust_high_throughput_sta.Gossip.PeerMap.{DashMap}
use rust_high_throughput_sta.Gossip.Protocol.{
  GossipMessage, GossipAck, Result, ok, err, connect_timeout, connect_failed, ack_timeout,
  AsyncRead, AsyncWrite, write_message, read_message, ◌>>=◌,
}

-- `GossipManager`: the store and the peer table are shared with the RPC handler.
pub record GossipManager (M : Type 0) : Type 0 where
  pub config : Config
  pub store : StateStore
  pub peers : M
  pub generation : ℕ

-- A send that a round spawned: the key of the peer's entry, the address, the message, and the stamp
-- to record when the peer has acknowledged it.
pub record Send : Type 0 where
  pub peer_id : String
  pub peer_addr : String
  pub msg : GossipMessage
  pub max_sent_ts : ℕ

abbrev pub is_empty {ℓ} : {A : Type ℓ} → List A → Bool
is_empty [] = true
is_empty (x ∷ xs) = false

-- A target that is skipped spawns nothing.
abbrev pub spawn : Option Send → List Send → List Send
spawn none later = later
spawn (some s) later = s ∷ later

module _ {M : Type 0} (dash : DashMap M PeerInfo) where
  unfoldable pub register_seeds : Instant → List String → M → M
  register_seeds now [] peers = peers
  register_seeds now (addr ∷ seeds) peers =
      register_seeds now seeds
        (if addr == "" then peers else dash.entry addr (Peer.new now addr) (λ p. p) peers)

  unfoldable pub new : Instant → Config → StateStore → M → GossipManager M
  unfolding register_seeds
  new now config store peers = record {
    config = config;
    store = store;
    peers = register_seeds now config.seed_peers peers;
    generation = 0;
  }

  -- The targets of a round: the first `gossip_fanout` of the shuffled peers.
  unfoldable pub select_targets :
      (List (String × PeerInfo) → List (String × PeerInfo))
      → GossipManager M
      → List (String × PeerInfo)
  select_targets shuffle mgr =
      let all = shuffle (dash.iter mgr.peers) in
      take (min mgr.config.gossip_fanout (length all)) all

  -- The send to one target; `none` is the `continue` on an empty delta for a peer that is known.
  unfoldable pub send_to : GossipManager M → ℕ → String × PeerInfo → Option Send
  send_to mgr gen (peer_id, peer_info) =
      let delta = delta_since peer_info.last_sync_ts mgr.store in
      if is_empty delta && ltb 0 peer_info.exchange_count
      then none
      else some (record {
        peer_id = peer_id;
        peer_addr = peer_info.gossip_addr;
        msg = record {
          from_node_id = mgr.store.node_id;
          from_gossip_addr = gossip_addr mgr.config;
          deltas = delta;
          generation = gen;
        };
        max_sent_ts = unwrap_or 0 (max_of (timestamps delta));
      })

  unfoldable pub sends : GossipManager M → ℕ → List (String × PeerInfo) → List Send
  unfolding send_to
  sends mgr gen [] = []
  sends mgr gen (target ∷ targets) = spawn (send_to mgr gen target) (sends mgr gen targets)

  unfoldable pub gossip_round :
      (List (String × PeerInfo) → List (String × PeerInfo))
      → GossipManager M
      → GossipManager M × List Send
  unfolding select_targets sends
  gossip_round shuffle mgr =
      let targets = select_targets shuffle mgr in
      if is_empty targets then (mgr, []) else (
        record mgr { generation = (mgr.generation + 1) % 2 ^ 64 },
        sends mgr mgr.generation targets,
      )

  -- The answer of `send_and_ack` is there.
  unfoldable pub finish_send : Instant → Send → Result GossipAck → M → M
  finish_send now s (ok ack) peers =
      dash.entry s.peer_id (Peer.new now s.peer_addr) (record_exchange now s.max_sent_ts) peers
  finish_send now s (err e) peers = peers

  -- After the message was read: merge, mark the sender, and make the acknowledgement.
  unfoldable pub receive : Instant → GossipMessage → StateStore → M → StateStore × M × GossipAck
  receive now msg store peers =
      let (store', updated) = merge_delta msg.deltas store in
      (
        store',
        dash.entry msg.from_node_id (Peer.new now msg.from_gossip_addr) (mark_seen now) peers,
        record { from_node_id = store'.node_id; merged_count = length updated },
      )

-- What one inbound connection leaves behind, with or without an error.
pub record Handled (M W : Type 0) : Type 0 where
  pub store : StateStore
  pub peers : M
  pub result : Result W

module _ {M R W : Type 0} (dash : DashMap M PeerInfo) (messages : Bincode GossipMessage)
    (acks : Bincode GossipAck) (source : AsyncRead R) (sink : AsyncWrite W) where
  abbrev pub after_read : Instant → W → StateStore → M → Result (GossipMessage × R) → Handled M W
  after_read now w store peers (err e) = record { store = store; peers = peers; result = err e }
  after_read now w store peers (ok (msg, r)) =
      let (store', peers', ack) = receive dash now msg store peers in
      record { store = store'; peers = peers'; result = write_message acks sink ack w }

  unfoldable pub handle_inbound : Instant → R → W → StateStore → M → Handled M W
  unfolding receive
  handle_inbound now r w store peers = after_read now w store peers (read_message messages source r)

-- `tokio::time::timeout`: the answer was there in time or not.
pub data Timeout {ℓ} (A : Type ℓ) : Type ℓ where
  elapsed : Timeout A
  in_time : A → Timeout A

module _ {R W : Type 0} (messages : Bincode GossipMessage) (acks : Bincode GossipAck)
    (source : AsyncRead R) (sink : AsyncWrite W) where
  abbrev pub connected : Timeout (Option (R × W)) → Result (R × W)
  connected elapsed = err connect_timeout
  connected (in_time none) = err connect_failed
  connected (in_time (some s)) = ok s

  abbrev pub await_ack : Bool → Result (GossipAck × R) → Result GossipAck
  await_ack false answer = err ack_timeout
  await_ack true answer = do a ← answer; ok a.0

  -- `connection` is what connecting gave, and `ack_in_time` whether the five seconds were enough.
  unfoldable pub send_and_ack : Timeout (Option (R × W)) → Bool → GossipMessage → Result GossipAck
  send_and_ack connection ack_in_time msg = do
    stream ← connected connection
    sent ← write_message messages sink msg stream.1
    await_ack ack_in_time (read_message acks source stream.0)
