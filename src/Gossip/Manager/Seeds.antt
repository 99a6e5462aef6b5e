-- ===== src/Gossip/Manager/Seeds.antt =====
-- The peer table that a node starts with.
use rust_high_throughput_sta.Common.{
  String, ◌≡◌, refl, not, ◌&&◌, Option, some, List, [], ◌∷◌, arith, eq_iff, contains, ◌==◌,
  if◌then◌else◌,
}
use rust_high_throughput_sta.Config.{Config}
use rust_high_throughput_sta.State.Store.{StateStore}
use rust_high_throughput_sta.Gossip.Peer
use rust_high_throughput_sta.Gossip.Peer.{PeerInfo, Instant}
use rust_high_throughput_sta.Gossip.PeerMap.{DashMap, or_default}
use rust_high_throughput_sta.Gossip.Manager
use rust_high_throughput_sta.Gossip.Manager.{GossipManager, register_seeds}

module _ {M : Type 0} (dash : DashMap M PeerInfo) where
  -- A peer that is a seed by a name that is not empty is there, as it was or new.
  abbrev pub seeded : Instant → List String → String → Option PeerInfo → Option PeerInfo
  seeded now seeds k o =
      if not (k == "") && contains seeds k then some (or_default (Peer.new now k) o) else o

  get-register_seeds :
      (now : Instant) (seeds : List String) (k : String) (peers : M)
      → dash.get k (register_seeds dash now seeds peers) ≡ seeded now seeds k (dash.get k peers)
  unfolding register_seeds
  get-register_seeds now [] k peers = ground arith
  get-register_seeds now (addr ∷ seeds) k peers = ground (
    arith,
    eq_iff addr k,
    eq_iff addr "",
    eq_iff k "",
    dash.get-entry addr k (Peer.new now addr) (λ p. p) peers,
    get-register_seeds now seeds k peers,
    get-register_seeds now seeds k (dash.entry addr (Peer.new now addr) (λ p. p) peers),
  )

  -- A new manager's table has every seed whose address is not empty, under its address: as it was
  -- if it was there, otherwise as a new peer. No other peer changes, and the store is the given one.
  pub new-registers_seeds :
      (now : Instant) (config : Config) (store : StateStore) (peers : M) (k : String)
      → (dash.get k (Manager.new dash now config store peers).peers ≡ (
          if not (k == "") && contains config.seed_peers k
          then some (or_default (Peer.new now k) (dash.get k peers))
          else dash.get k peers))
        × ((Manager.new dash now config store peers).store ≡ store)
  unfolding Manager.new
  new-registers_seeds now config store peers k =
      (get-register_seeds now config.seed_peers k peers, refl)
