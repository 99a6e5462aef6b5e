-- ===== src/Node/Sync/Peers.antt =====
-- The sync stamps of a peer table, through the operations on it.
use rust_high_throughput_sta.Common.{ℕ, ◌≤◌, String, ◌≡◌, refl, Option, none, some, arith}
use rust_high_throughput_sta.Config.{Config}
use rust_high_throughput_sta.State.Store.{StateStore}
use rust_high_throughput_sta.Gossip.Peer
use rust_high_throughput_sta.Gossip.Peer.{PeerInfo, Instant, mark_seen, record_exchange}
use rust_high_throughput_sta.Gossip.PeerMap.{DashMap, or_default}
use rust_high_throughput_sta.Gossip.Protocol.{GossipMessage, GossipAck, Result, ok, err}
use rust_high_throughput_sta.Gossip.Manager
use rust_high_throughput_sta.Gossip.Manager.{
  Send, after_read, handle_inbound, receive, finish_send, gossip_round,
}
use rust_high_throughput_sta.Gossip.Manager.Seeds.{new-registers_seeds}

or_default_low :
    (b : ℕ) (default : PeerInfo) (o : Option PeerInfo)
    → default.last_sync_ts ≤ b
    → ((p : PeerInfo) → o ≡ some p → p.last_sync_ts ≤ b)
    → (or_default default o).last_sync_ts ≤ b
or_default_low b default none low h = low
or_default_low b default (some p) low h = h p refl

module _ {M : Type 0} (dash : DashMap M PeerInfo) where
  -- No peer's sync stamp is above `b`.
  abbrev pub IsSyncedUpTo : ℕ → M → Type 0
  IsSyncedUpTo b m = (k : String) (p : PeerInfo) → dash.get k m ≡ some p → p.last_sync_ts ≤ b

  pub entry-IsSyncedUpTo :
      (b : ℕ) (key : String) (default : PeerInfo) (f : PeerInfo → PeerInfo) (m : M)
      → default.last_sync_ts ≤ b
      → ((p : PeerInfo) → p.last_sync_ts ≤ b → (f p).last_sync_ts ≤ b)
      → IsSyncedUpTo b m
      → IsSyncedUpTo b (dash.entry key default f m)
  entry-IsSyncedUpTo b key default f m low keep h k p e = ground (
    arith,
    dash.get-entry key k default f m,
    keep (or_default default (dash.get key m))
        (or_default_low b default (dash.get key m) low (h key)),
    h k p,
  )

  pub after_read-IsSyncedUpTo :
      (b : ℕ) (now : Instant) (store : StateStore) (msg : GossipMessage) (m : M)
      → IsSyncedUpTo b m
      → IsSyncedUpTo b (receive dash now msg store m).1
  unfolding receive Peer.new mark_seen
  after_read-IsSyncedUpTo b now store msg m h =
      entry-IsSyncedUpTo b msg.from_node_id (Peer.new now msg.from_gossip_addr) (mark_seen now) m
        (omega arith) (λ p low. low) h

  pub finish_send-IsSyncedUpTo :
      (b : ℕ) (now : Instant) (s : Send) (answer : Result GossipAck) (m : M)
      → s.max_sent_ts ≤ b
      → IsSyncedUpTo b m
      → IsSyncedUpTo b (finish_send dash now s answer m)
  unfolding finish_send Peer.new record_exchange
  finish_send-IsSyncedUpTo b now s (err e) m low h = h
  finish_send-IsSyncedUpTo b now s (ok ack) m low h =
      entry-IsSyncedUpTo b s.peer_id (Peer.new now s.peer_addr) (record_exchange now s.max_sent_ts)
        m (omega arith) (λ p old. omega arith) h

  pub new-IsSyncedUpTo :
      (b : ℕ) (now : Instant) (config : Config) (store : StateStore) (m : M)
      → IsSyncedUpTo b m
      → IsSyncedUpTo b (Manager.new dash now config store m).peers
  unfolding Peer.new
  new-IsSyncedUpTo b now config store m h k p e = ground (
    arith,
    (new-registers_seeds dash now config store m k).0,
    h k p,
    or_default_low b (Peer.new now k) (dash.get k m) (omega arith) (h k),
  )
