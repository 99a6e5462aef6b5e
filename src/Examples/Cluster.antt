-- ===== src/Examples/Cluster.antt =====
-- The theorems on clusters at a run of two nodes: each writes the key "x" and sends its write, and
-- the first message is delivered.
use mathlib.Core.List.{Memᴰ}
use rust_high_throughput_sta.Common.{ℕ, ◌≡◌, refl, String, some, [], ◌∷◌, arith}
use rust_high_throughput_sta.HashMap.{get, insert, filter_values}
use rust_high_throughput_sta.Config.{gossip_addr}
use rust_high_throughput_sta.State.Crdt
use rust_high_throughput_sta.State.Crdt.{LwwValue, since_epoch, merge}
use rust_high_throughput_sta.State.Store
use rust_high_throughput_sta.State.Store.{
  StateStore, lookup, delta_since, max_of, set, merge_delta, merge_entries, winner_of, emit,
  publish, send,
}
use rust_high_throughput_sta.State.Store.Covers.{Covers, Precedes}
use rust_high_throughput_sta.State.Store.Writes.{after_set}
use rust_high_throughput_sta.Gossip.Manager.{GossipManager, Send, send_to, receive}
use rust_high_throughput_sta.Gossip.Manager.Inbound.{IsSynced}
use rust_high_throughput_sta.Gossip.Cluster.{Cluster, update, start, Step, Reach, here, next}
use rust_high_throughput_sta.Gossip.Cluster.Safety.{stamps_unique, values_owned, deliveries_commute}
use rust_high_throughput_sta.Gossip.Cluster.Exchange.{Reach-Precedes, exchange_agrees, pushed}
use rust_high_throughput_sta.Examples.{Table, table, unary, unary-injective}
use rust_high_throughput_sta.Examples.Gossip.{peer, settings, peer_table}

abbrev first : LwwValue
first = record { value = "1"; timestamp = 5; node_id = unary 0 }

abbrev second : LwwValue
second = record { value = "2"; timestamp = 7; node_id = unary 1 }

abbrev fresh : ℕ → StateStore
fresh i = Store.created (unary i) 16

abbrev store_0 : StateStore
store_0 = after_set "x" first (fresh 0)

abbrev store_1 : StateStore
store_1 = after_set "x" second (fresh 1)

abbrev started : Cluster
started = start unary 16

abbrev wrote_0 : Cluster
wrote_0 = record started { nodes = update started.nodes 0 store_0 }

abbrev wrote_1 : Cluster
wrote_1 = record wrote_0 { nodes = update wrote_0.nodes 1 store_1 }

abbrev manager_of : StateStore → GossipManager Table
manager_of s = record { config = settings; store = s; peers = peer_table; generation = 0 }

abbrev sent_of : String → LwwValue → Send
sent_of id v = record {
  peer_id = "b";
  peer_addr = "b:1";
  msg = record {
    from_node_id = id;
    from_gossip_addr = "a:7071";
    deltas = ("x", v) ∷ [];
    generation = 0;
  };
  max_sent_ts = v.timestamp;
}

abbrev sent_0 : Cluster
sent_0 = record wrote_1 { network = (sent_of (unary 0) first).msg ∷ [] }

abbrev sent_1 : Cluster
sent_1 = record wrote_1 {
  network = (sent_of (unary 1) second).msg ∷ (sent_of (unary 0) first).msg ∷ [];
}

write_0 : Step table started wrote_0
unfolding set Store.created Crdt.new lookup after_set merge get
write_0 = Step.write 0 (since_epoch 5000) "x" "1" store_0 first refl

write_1 : Step table wrote_0 wrote_1
unfolding set Store.created Crdt.new lookup after_set merge get
write_1 = Step.write 1 (since_epoch 7000) "x" "2" store_1 second refl

gossip_0 : Step table wrote_1 sent_0
unfolding send_to Store.created after_set delta_since filter_values gossip_addr max_of insert lookup
    get
gossip_0 = Step.gossip 0 (manager_of store_0) 0 ("b", peer) (sent_of (unary 0) first) refl refl refl

gossip_1 : Step table sent_0 sent_1
unfolding send_to Store.created after_set delta_since filter_values gossip_addr max_of insert lookup
    get
gossip_1 =
    Step.gossip 1 (manager_of store_1) 0 ("b", peer) (sent_of (unary 1) second) refl refl refl

run : Reach table started sent_1
run = next (next (next (next here write_0) write_1) gossip_0) gossip_1

abbrev delivered : Cluster
delivered = record sent_1 {
  nodes =
      update sent_1.nodes 0 (receive table 9 (sent_of (unary 1) second).msg store_0 peer_table).0;
}

deliver_0 : Step table sent_1 delivered
deliver_0 = Step.deliver 0 9 peer_table (sent_of (unary 1) second).msg (Memᴰ.head refl)

delivered_0 : lookup "x" (delivered.nodes 0) ≡ some second
unfolding lookup receive merge_delta merge_entries merge after_set insert get Store.created emit
delivered_0 = refl

delivered_1 : lookup "x" (delivered.nodes 1) ≡ some second
unfolding lookup after_set insert get Store.created
delivered_1 = refl

stamps_unique_example : second ≡ second
stamps_unique_example =
    stamps_unique table unary unary-injective 16 (next run deliver_0) 0 1 "x" second second
      delivered_0 delivered_1 (refl, refl)

values_owned_example :
    (j : ℕ) × (unary 1 ≡ unary j) × Covers (lookup "x" (delivered.nodes j)) second
values_owned_example =
    values_owned table unary unary-injective 16 (next run deliver_0) 0 "x" second delivered_0

deliveries_commute_example :
    lookup "x" (merge_delta (("x", first) ∷ []) (merge_delta (("x", second) ∷ []) store_0).0).0
    ≡ lookup "x" (merge_delta (("x", second) ∷ []) (merge_delta (("x", first) ∷ []) store_0).0).0
deliveries_commute_example =
    deliveries_commute table unary unary-injective 16 run 0 (sent_of (unary 1) second).msg
      (sent_of (unary 0) first).msg (Memᴰ.head refl) (Memᴰ.tail (Memᴰ.head refl)) "x"

Reach-Precedes_example : Precedes (lookup "x" store_0) (lookup "x" (delivered.nodes 0))
Reach-Precedes_example = Reach-Precedes table (next here deliver_0) 0 "x"

stamp_0 : (j : String) (v : LwwValue) → lookup j store_0 ≡ some v → v.timestamp ≡ 5
unfolding lookup after_set insert get Store.created
stamp_0 j v h = ground arith

stamp_1 :
    (j : String) (v : LwwValue) → lookup j (pushed 0 store_0 store_1) ≡ some v → v.timestamp ≡ 7
unfolding lookup after_set insert get Store.created merge_delta merge_entries emit merge delta_since
    filter_values
stamp_1 j v h = ground arith

store_0-IsSynced : IsSynced 0 store_0 store_1
store_0-IsSynced j v h old = absurd (omega (arith, stamp_0 j v h))

pushed-IsSynced : IsSynced 0 (pushed 0 store_0 store_1) store_0
pushed-IsSynced j v h old = absurd (omega (arith, stamp_1 j v h))

exchange_agrees_example :
    lookup "x" (pushed 0 (pushed 0 store_0 store_1) store_0) ≡ lookup "x" (pushed 0 store_0 store_1)
exchange_agrees_example =
    exchange_agrees table unary unary-injective 16 run 0 1 0 0 store_0-IsSynced pushed-IsSynced "x"
