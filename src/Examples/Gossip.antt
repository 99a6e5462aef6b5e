-- ===== src/Examples/Gossip.antt =====
-- The theorems on rounds and inbound messages at one peer and a list of bytes.
use mathlib.Core.List.{Mem}
use mathlib.Core.List.Perm
use rust_high_throughput_sta.Gossip.Manager.Reach.{due_send, gossip_round_delivers}
use rust_high_throughput_sta.Common.{
  ◌≡◌, ◌≢◌, ◌≤◌, inl, refl, String, Bool, true, false, some, List, [], ◌∷◌, arith, All,
}
use rust_high_throughput_sta.HashMap.{get, filter_values}
use rust_high_throughput_sta.Bincode.{Bincode}
use rust_high_throughput_sta.Config.{Config, gossip_addr}
use rust_high_throughput_sta.State.Crdt.{LwwValue}
use rust_high_throughput_sta.State.Store
use rust_high_throughput_sta.State.Store.{StateStore, lookup, delta_since, max_of}
use rust_high_throughput_sta.State.Store.View.{absorb}
use rust_high_throughput_sta.State.Store.Covers.{Covers}
use rust_high_throughput_sta.Gossip.Peer.{PeerInfo, Instant}
use rust_high_throughput_sta.Gossip.Protocol.{GossipMessage, ok, err, io_failed, read_message}
use rust_high_throughput_sta.Gossip.Manager.{
  GossipManager, Send, gossip_round, receive, handle_inbound, finish_send,
}
use rust_high_throughput_sta.Gossip.Manager.Round.{
  IsSendTo, gossip_round-IsSendTo, gossip_round_leaves_out,
}
use rust_high_throughput_sta.Gossip.Manager.Inbound.{
  heard_of, handle_inbound_merges, exchange-Covers, finish_send_lem,
}
use rust_high_throughput_sta.Examples.{Table, table, buffer, bytes_to_come, encoding, get-nil}
use rust_high_throughput_sta.Examples.State.{older, replica, changes}
use rust_high_throughput_sta.Examples.Frames.{ack, ack_codec}

abbrev pub peer : PeerInfo
peer = record { gossip_addr = "b:1"; last_seen = 0; last_sync_ts = 4; exchange_count = 1 }

abbrev pub peer_table : Table
peer_table = (("b", peer) ∷ [], (get-nil "b", tt))

abbrev pub settings : Config
settings = record {
  host = "a";
  rpc_port = 7070;
  gossip_port = 7071;
  node_id = some "a";
  seed_peers = [];
  gossip_interval_ms = 1000;
  gossip_fanout = 3;
  event_channel_capacity = 16;
}

abbrev pub manager : GossipManager Table
manager = record { config = settings; store = replica; peers = peer_table; generation = 0 }

abbrev keep_order : List (String × PeerInfo) → List (String × PeerInfo)
keep_order l = l

gossip_round-IsSendTo_example :
    All
      (λ s.
        (p : PeerInfo) × (table.get s.peer_id peer_table ≡ some p) × IsSendTo manager s.peer_id p s)
      (gossip_round table keep_order manager).1
gossip_round-IsSendTo_example = gossip_round-IsSendTo table keep_order (λ l. Perm.refl l) manager

abbrev up_to_date : GossipManager Table
up_to_date = record manager {
  peers = (("b", record peer { last_sync_ts = 5 }) ∷ [], (get-nil "b", tt));
}

gossip_round_leaves_out_example :
    All
      (λ s. s.peer_id ≡ "b" → get "x" s.msg.deltas ≢ some older)
      (gossip_round table keep_order up_to_date).1
unfolding get
gossip_round_leaves_out_example =
    gossip_round_leaves_out table keep_order (λ l. Perm.refl l) up_to_date "b" "x"
      (record peer { last_sync_ts = 5 }) older (refl, tt) refl (omega arith)

gossip_round_delivers_example :
    Mem (due_send manager "b" peer) (gossip_round table keep_order manager).1
    × ((now : Instant) (b : StateStore) (peers : Table)
        → Covers (lookup "x" (receive table now (due_send manager "b" peer).msg b peers).0) older)
unfolding get lookup
gossip_round_delivers_example =
    gossip_round_delivers table keep_order (λ l. Perm.refl l) manager "b" "x" peer older
      (omega arith) (refl, tt) refl refl (omega arith)

abbrev message : GossipMessage
message = record { from_node_id = "b"; from_gossip_addr = "b:1"; deltas = changes; generation = 0 }

abbrev message_eq : GossipMessage → GossipMessage → Bool
message_eq a b = false

pub message_eq_sound : (a b : GossipMessage) → message_eq a b ≡ true → a ≡ b
message_eq_sound a b h = cc

-- It reads `message` from every payload.
abbrev pub message_codec : Bincode GossipMessage
message_codec = encoding message_eq message_eq_sound message []

abbrev handled_store : StateStore
handled_store =
    (handle_inbound table message_codec ack_codec bytes_to_come buffer 9 (0 ∷ 0 ∷ 0 ∷ 1 ∷ 7 ∷ []) []
      replica peer_table).store

abbrev handled_peers : Table
handled_peers =
    (handle_inbound table message_codec ack_codec bytes_to_come buffer 9 (0 ∷ 0 ∷ 0 ∷ 1 ∷ 7 ∷ []) []
      replica peer_table).peers

handle_inbound_merges_example :
    (lookup "b" handled_store ≡ absorb "b" (lookup "b" replica) changes)
    × (table.get "b" handled_peers ≡ some (heard_of 9 "b:1" (some peer)))
unfolding read_message get
handle_inbound_merges_example =
    handle_inbound_merges table message_codec ack_codec bytes_to_come buffer 9
      (0 ∷ 0 ∷ 0 ∷ 1 ∷ 7 ∷ []) [] [] replica peer_table message refl "b"

abbrev outgoing : Send
outgoing = record {
  peer_id = "b";
  peer_addr = "b:1";
  msg = record {
    from_node_id = "a";
    from_gossip_addr = "a:7071";
    deltas = ("x", older) ∷ [];
    generation = 0;
  };
  max_sent_ts = 5;
}

outgoing-IsSendTo : IsSendTo manager "b" peer outgoing
unfolding delta_since filter_values gossip_addr max_of
outgoing-IsSendTo = record {
  peer_id = refl;
  peer_addr = refl;
  from_node_id = refl;
  from_gossip_addr = refl;
  deltas = refl;
  generation = refl;
  max_sent = refl;
  worth = inl (λ h. cc);
}

stamps_after_four : (j : String) (v : LwwValue) → lookup j replica ≡ some v → 5 ≤ v.timestamp
unfolding lookup get
stamps_after_four j v h = ground arith

exchange-Covers_example :
    Covers (lookup "x" (receive table 9 outgoing.msg (Store.created "b" 16) peer_table).0) older
unfolding get lookup
exchange-Covers_example =
    exchange-Covers table manager "b" peer outgoing 9 (Store.created "b" 16) peer_table (refl, tt)
      outgoing-IsSendTo (λ j v h old. absurd (omega (arith, stamps_after_four j v h))) "x" older
      refl

finish_send_lem_example :
    (table.get "b" (finish_send table 9 outgoing (ok ack) peer_table)
      ≡ some (record { gossip_addr = "b:1"; last_seen = 9; last_sync_ts = 5; exchange_count = 2 }))
    × (finish_send table 9 outgoing (err io_failed) peer_table ≡ peer_table)
unfolding get
finish_send_lem_example = finish_send_lem table 9 outgoing ack io_failed peer_table peer refl

abbrev seeds : Config
seeds = record settings { seed_peers = "c:1" ∷ "" ∷ [] }
