-- ===== src/Gossip/Peer.antt =====
-- src/gossip/peer.rs: what a node knows of a peer. An `Instant` is a number of nanoseconds of the
-- monotonic clock; `elapsed` stops at 0. The counters are `u64`, in the release profile's
-- arithmetic.
use Prim.Native.Nat.{max}
use rust_high_throughput_sta.Common.{ℕ, ◌+◌, ◌-◌, ◌/◌, ◌%◌, ◌^◌, String, Bool, leb}

abbrev pub Instant : Type 0
Instant = ℕ

pub record PeerInfo : Type 0 where
  pub gossip_addr : String
  pub last_seen : Instant
  pub last_sync_ts : ℕ
  pub exchange_count : ℕ

unfoldable pub new : Instant → String → PeerInfo
new now gossip_addr = record {
  gossip_addr = gossip_addr;
  last_seen = now;
  last_sync_ts = 0;
  exchange_count = 0;
}

abbrev pub increment : ℕ → ℕ
increment n = (n + 1) % 2 ^ 64

unfoldable pub record_exchange : Instant → ℕ → PeerInfo → PeerInfo
record_exchange now sync_ts p = record p {
  last_seen = now;
  last_sync_ts = max p.last_sync_ts sync_ts;
  exchange_count = increment p.exchange_count;
}

unfoldable pub mark_seen : Instant → PeerInfo → PeerInfo
mark_seen now p = record p { last_seen = now; exchange_count = increment p.exchange_count }

-- `self.last_seen.elapsed().as_secs()`
unfoldable pub seconds_since : Instant → PeerInfo → ℕ
seconds_since now p = (now - p.last_seen) / 1_000_000_000

unfoldable pub is_stale : Instant → ℕ → PeerInfo → Bool
unfolding seconds_since
is_stale now timeout_secs p = leb timeout_secs (seconds_since now p)
