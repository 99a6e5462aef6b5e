-- ===== src/Examples/Config.antt =====
-- The theorem on addresses at the settings of one node.
use rust_high_throughput_sta.Common.{◌≡◌, ◌↔◌, refl, arith}
use rust_high_throughput_sta.Config.{rpc_addr, gossip_addr}
use rust_high_throughput_sta.Config.Address.{rpc_addr-eq-gossip_addr_iff}
use rust_high_throughput_sta.Examples.Gossip.{settings}

rpc_addr-eq-gossip_addr_iff_example :
    (rpc_addr settings ≡ gossip_addr settings) ↔ (settings.rpc_port ≡ settings.gossip_port)
rpc_addr-eq-gossip_addr_iff_example =
    rpc_addr-eq-gossip_addr_iff settings settings refl (omega arith) (omega arith)
