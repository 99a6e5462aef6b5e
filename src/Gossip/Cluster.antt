-- ===== src/Gossip/Cluster.antt =====
-- A cluster: every node's store and the messages under way. A node may write at any reading of its
-- clock, may send to any peer of any peer table, whatever its own holds, and any message that was sent may
-- reach any node, at any time, any number of times or never.
pub mod Invariant
pub mod Coherence
pub mod Safety
pub mod Exchange
use mathlib.Core.List.{Memᴰ}
use rust_high_throughput_sta.Common.{
  ℕ, String, ◌≡◌, Option, some, List, [], ◌∷◌, eqb, if◌then◌else◌,
}
use rust_high_throughput_sta.State.Crdt.{LwwValue, SystemTime}
use rust_high_throughput_sta.State.Store
use rust_high_throughput_sta.State.Store.{StateStore, set}
use rust_high_throughput_sta.Gossip.Peer.{PeerInfo, Instant}
use rust_high_throughput_sta.Gossip.PeerMap.{DashMap}
use rust_high_throughput_sta.Gossip.Protocol.{GossipMessage}
use rust_high_throughput_sta.Gossip.Manager.{GossipManager, Send, send_to, receive}

pub record Cluster : Type 0 where
  pub nodes : ℕ → StateStore
  pub network : List GossipMessage

abbrev pub update : (ℕ → StateStore) → ℕ → StateStore → ℕ → StateStore
update nodes i s j = if eqb i j then s else nodes j

-- Node `i` is called `ids i`, and every store is empty.
abbrev pub start : (ℕ → String) → ℕ → Cluster
start ids capacity = record { nodes = λ i. Store.created (ids i) capacity; network = [] }

module _ {M : Type 0} (dash : DashMap M PeerInfo) where
  pub data Step (c : Cluster) : Cluster → Type 0 where
    write :
        (i : ℕ) (now : SystemTime) (key value : String) (t : StateStore) (winner : LwwValue)
        → set now key value (c.nodes i) ≡ some (t, winner)
        → Step c (record c { nodes = update c.nodes i t })
    gossip :
        (i : ℕ) (mgr : GossipManager M) (gen : ℕ) (target : String × PeerInfo) (s : Send)
        → mgr.store ≡ c.nodes i
        → dash.get target.0 mgr.peers ≡ some target.1
        → send_to dash mgr gen target ≡ some s
        → Step c (record c { network = s.msg ∷ c.network })
    deliver :
        (j : ℕ) (now : Instant) (peers : M) (msg : GossipMessage)
        → Memᴰ msg c.network
        → Step c (record c { nodes = update c.nodes j (receive dash now msg (c.nodes j) peers).0 })

  pub data Reach (c : Cluster) : Cluster → Type 0 where
    here : Reach c c
    next : {d e : Cluster} → Reach c d → Step d e → Reach c e
