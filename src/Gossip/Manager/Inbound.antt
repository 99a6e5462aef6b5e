-- ===== src/Gossip/Manager/Inbound.antt =====
-- What a message that comes in does, and what an exchange establishes.
use rust_high_throughput_sta.Common.{
  Option, none, ◌+◌, ◌%◌, ◌^◌, ℕ, ◌≤◌, String, ◌≡◌, refl, some, arith, if◌then◌else◌, ◌==◌, eq_refl,
  eq_iff,
}
use Prim.Native.Nat.{max}
use rust_high_throughput_sta.HashMap.Laws.{IsDistinct}
use rust_high_throughput_sta.Bincode.{Bincode}
use rust_high_throughput_sta.State.Crdt.{LwwValue}
use rust_high_throughput_sta.State.Store.{StateStore, lookup}
use rust_high_throughput_sta.State.Store.View.{absorb, lookup-merge_delta}
use rust_high_throughput_sta.State.Store.Covers.{Covers}
use rust_high_throughput_sta.State.Store.Reads.{pull-Covers}
use rust_high_throughput_sta.Gossip.Peer
use rust_high_throughput_sta.Gossip.Peer.{PeerInfo, Instant, mark_seen, record_exchange}
use rust_high_throughput_sta.Gossip.PeerMap.{DashMap, or_default}
use rust_high_throughput_sta.Gossip.Protocol.{
  GossipMessage, GossipAck, Error, ok, err, AsyncRead, AsyncWrite, read_message,
}
use rust_high_throughput_sta.Gossip.Manager.{
  GossipManager, Send, receive, handle_inbound, finish_send,
}
use rust_high_throughput_sta.Gossip.Manager.Round.{IsSendTo}

-- What is recorded of a peer after its message came, written out.
abbrev pub heard_of : Instant → String → Option PeerInfo → PeerInfo
heard_of now addr none = record {
  gossip_addr = addr;
  last_seen = now;
  last_sync_ts = 0;
  exchange_count = 1;
}
heard_of now addr (some p) = record {
  gossip_addr = p.gossip_addr;
  last_seen = now;
  last_sync_ts = p.last_sync_ts;
  exchange_count = (p.exchange_count + 1) % 2 ^ 64;
}

module _ {M R W : Type 0} (dash : DashMap M PeerInfo) (messages : Bincode GossipMessage)
    (acks : Bincode GossipAck) (source : AsyncRead R) (sink : AsyncWrite W) where
  heard_of_default :
      (now : Instant) (addr : String) (o : Option PeerInfo)
      → mark_seen now (or_default (Peer.new now addr) o) ≡ heard_of now addr o
  unfolding mark_seen Peer.new
  heard_of_default now addr none = refl
  heard_of_default now addr (some p) = refl

  -- A message that cannot be read changes neither the store nor the peer table.
  handle_inbound_unreadable :
      (now : Instant) (r : R) (w : W) (store : StateStore) (peers : M) (e : Error)
      → read_message messages source r ≡ err e
      → handle_inbound dash messages acks source sink now r w store peers
        ≡ record { store = store; peers = peers; result = err e }
  unfolding handle_inbound
  handle_inbound_unreadable now r w store peers e h = rw h

  -- A message that was read is merged, and its sender is in the table with the time of now and one
  -- exchange more, whether or not the acknowledgement can be written. A sender that was known keeps
  -- its address and its sync stamp; a new one has the address of the message, stamp 0 and one
  -- exchange. No other peer changes.
  pub handle_inbound_merges :
      (now : Instant) (r u : R) (w : W) (store : StateStore) (peers : M) (msg : GossipMessage)
      → read_message messages source r ≡ ok (msg, u)
      → (k : String)
      → (lookup k (handle_inbound dash messages acks source sink now r w store peers).store
          ≡ absorb k (lookup k store) msg.deltas)
        × (dash.get k (handle_inbound dash messages acks source sink now r w store peers).peers ≡ (
            if msg.from_node_id == k
            then some (heard_of now msg.from_gossip_addr (dash.get k peers))
            else dash.get k peers))
  unfolding handle_inbound mark_seen Peer.new
  handle_inbound_merges now r u w store peers msg h k =
      rw (h, receive)
        (
          lookup-merge_delta k msg.deltas store,
          let known = heard_of_default now msg.from_gossip_addr (dash.get k peers) in
              ground (
                arith,
                known,
                eq_iff msg.from_node_id k,
                dash.get-entry msg.from_node_id k (Peer.new now msg.from_gossip_addr)
                    (mark_seen now) peers,
              ),
        )

-- Every entry of `a` with a stamp up to `since` is in `b`, or something newer is.
abbrev pub IsSynced : ℕ → StateStore → StateStore → Type 0
IsSynced since a b =
    (j : String) (v : LwwValue) → lookup j a ≡ some v → v.timestamp ≤ since → Covers (lookup j b) v

module _ {M : Type 0} (dash : DashMap M PeerInfo) where
  -- Let the sender have one entry for each key. If a peer covers every entry up to the stamp that
  -- the sender recorded for it, then after it received the message of a round it covers every entry
  -- of the sender, whatever the stamps.
  pub exchange-Covers :
      (mgr : GossipManager M) (k : String) (p : PeerInfo) (s : Send) (now : Instant)
      (b : StateStore) (peers : M)
      → IsDistinct mgr.store.state
      → IsSendTo mgr k p s
      → IsSynced p.last_sync_ts mgr.store b
      → (j : String) (v : LwwValue) → lookup j mgr.store ≡ some v
      → Covers (lookup j (receive dash now s.msg b peers).0) v
  unfolding receive
  exchange-Covers mgr k p s now b peers d sent synced j v held =
      rw sent.deltas (pull-Covers p.last_sync_ts mgr.store b d synced j v held)

  -- For a peer in the table, an acknowledged send moves its sync stamp to the greatest stamp that
  -- was sent, never back, marks it as seen and counts the exchange; a failed send changes nothing.
  pub finish_send_lem :
      (now : Instant) (s : Send) (ack : GossipAck) (e : Error) (peers : M) (p : PeerInfo)
      → dash.get s.peer_id peers ≡ some p
      → (dash.get s.peer_id (finish_send dash now s (ok ack) peers)
          ≡ some (record p {
            last_seen = now;
            last_sync_ts = max p.last_sync_ts s.max_sent_ts;
            exchange_count = (p.exchange_count + 1) % 2 ^ 64;
          }))
        × (finish_send dash now s (err e) peers ≡ peers)
  unfolding finish_send record_exchange
  finish_send_lem now s ack e peers p h = (rw (dash.get-entry, eq_refl s.peer_id, h), refl)
