-- ===== src/Config.antt =====
-- src/config.rs: the configuration of a node. Parsing the command line is clap's; the UUID that a
-- missing node id is replaced by is an argument.
pub mod Address
use rust_high_throughput_sta.Common.{
  ℕ, zero, suc, ◌/◌, ◌%◌, String, ◌≡◌, refl, Option, none, some, List, [], eqb, ltb, if◌then◌else◌,
}
use Prim.Native.String.{◌++◌}

pub record Config : Type 0 where
  pub host : String
  pub rpc_port : ℕ
  pub gossip_port : ℕ
  pub node_id : Option String
  pub seed_peers : List String
  pub gossip_interval_ms : ℕ
  pub gossip_fanout : ℕ
  pub event_channel_capacity : ℕ

-- One decimal digit.
abbrev digit : ℕ → String
digit n =
    if eqb n 0
    then "0"
    else if eqb n 1
    then "1"
    else if eqb n 2
    then "2"
    else if eqb n 3
    then "3"
    else if eqb n 4
    then "4"
    else if eqb n 5
    then "5"
    else if eqb n 6
    then "6"
    else if eqb n 7
    then "7"
    else if eqb n 8
    then "8"
    else "9"

-- `Display` of a number that has at most `fuel` digits.
unfoldable pub display : ℕ → ℕ → String
display zero n = ""
display (suc fuel) n =
    let front = display fuel (n / 10) in if ltb n 10 then digit n else front ++ digit (n % 10)

-- A `u16` has at most five digits.
unfoldable pub display_u16 : ℕ → String
unfolding display
display_u16 = display 5

unfoldable pub resolved_node_id : String → Config → String
resolved_node_id fresh_uuid c = elim c.node_id [ none ↦ fresh_uuid | some id ↦ id ]

unfoldable pub rpc_addr : Config → String
unfolding display_u16
rpc_addr c = c.host ++ (":" ++ display_u16 c.rpc_port)

unfoldable pub gossip_addr : Config → String
unfolding display_u16
gossip_addr c = c.host ++ (":" ++ display_u16 c.gossip_port)

abbrev local : Config
local = record {
  host = "127.0.0.1";
  rpc_port = 7070;
  gossip_port = 7071;
  node_id = none;
  seed_peers = [];
  gossip_interval_ms = 1000;
  gossip_fanout = 3;
  event_channel_capacity = 4096;
}

addrs : (rpc_addr local ≡ "127.0.0.1:7070") × (gossip_addr local ≡ "127.0.0.1:7071")
unfolding rpc_addr gossip_addr
addrs = (refl, refl)
