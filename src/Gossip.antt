-- ===== src/Gossip.antt =====
-- src/gossip: what a node knows of its peers, the wire protocol, and the gossip rounds.
pub mod Peer
pub mod Protocol
pub mod PeerMap
pub mod Manager
pub mod Cluster
