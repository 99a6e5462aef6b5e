-- ===== src/Examples/Node.antt =====
-- The theorems on a running node, at a run in which no port can be bound and Ctrl-C follows.
use rust_high_throughput_sta.Common.{◌≡◌, ◌≤◌, refl, String, true, some, arith, All}
use rust_high_throughput_sta.Bincode.{Bytes}
use rust_high_throughput_sta.State.Store
use rust_high_throughput_sta.State.Store.{lookup, max_timestamp}
use rust_high_throughput_sta.State.Store.Covers.{Precedes}
use rust_high_throughput_sta.State.Store.Effect.{Effect}
use rust_high_throughput_sta.Gossip.Peer.{PeerInfo}
use rust_high_throughput_sta.Gossip.Manager.{Send}
use rust_high_throughput_sta.Node.{
  Crates, Node, stopped, main, start_manager, Step, serving, gossiping, server_bind_fails,
  manager_starts, listener_bind_fails, scheduler_starts, ctrl_c, scheduler_stops, manager_stops,
  main_returns, Reach, here, next, looping,
}
use rust_high_throughput_sta.Node.Stores.{Step-Effect, Reach-no_loss, begun}
use rust_high_throughput_sta.Node.Sync.{sync_stamps_bounded}
use rust_high_throughput_sta.Node.Shutdown.{main_returns_last, shutdown_terminates, work_left}
use rust_high_throughput_sta.Examples.{Table, table, buffer, bytes_to_come}
use rust_high_throughput_sta.Examples.Frames.{ack_codec}
use rust_high_throughput_sta.Examples.Gossip.{settings, message_codec}
use rust_high_throughput_sta.Examples.Rpc.{Value, json}

abbrev crates : Crates Value Table Bytes Bytes
crates = record {
  dash = table;
  json = json;
  messages = message_codec;
  acks = ack_codec;
  source = bytes_to_come;
  sink = buffer;
}

abbrev started : Node Table Bytes Bytes
started = begun crates "uuid" settings

abbrev unserved : Node Table Bytes Bytes
unserved = record started { server = stopped }

abbrev managed : Node Table Bytes Bytes
managed = start_manager crates 0 unserved

abbrev unheard : Node Table Bytes Bytes
unheard = record managed { listener = stopped }

abbrev scheduled : Node Table Bytes Bytes
scheduled = record unheard { scheduler = looping }

abbrev interrupted : Node Table Bytes Bytes
interrupted = record scheduled { cancel = true }

abbrev unscheduled : Node Table Bytes Bytes
unscheduled = record interrupted { scheduler = stopped }

abbrev unmanaged : Node Table Bytes Bytes
unmanaged = record unscheduled { manager = stopped }

abbrev left : Node Table Bytes Bytes
left = record unmanaged { exited = true }

main_starts : main crates "uuid" settings ≡ some started
unfolding main Store.new
main_starts = refl

to_interrupted : Reach crates started interrupted
unfolding start_manager
to_interrupted =
    next
      (next
        (next
          (next (next here (serving (server_bind_fails refl))) (gossiping (manager_starts 0 refl)))
          (gossiping (listener_bind_fails refl refl)))
        (gossiping (scheduler_starts refl refl (omega arith))))
      (ctrl_c refl refl)

leaves : Step crates unmanaged left
unfolding start_manager
leaves = main_returns refl refl refl refl

run : Reach crates started left
unfolding start_manager
run =
    next
      (next (next to_interrupted (gossiping (scheduler_stops refl refl)))
        (gossiping (manager_stops refl refl refl)))
      leaves

Step-Effect_example : Effect unmanaged.store left.store
Step-Effect_example = Step-Effect crates leaves

Reach-no_loss_example :
    ((k : String) → Precedes (lookup k started.store) (lookup k left.store))
    × (left.store.node_id ≡ started.store.node_id)
Reach-no_loss_example = Reach-no_loss crates run

sync_stamps_bounded_example :
    ((k : String) (p : PeerInfo)
      → table.get k left.peers ≡ some p
      → p.last_sync_ts ≤ max_timestamp left.store)
    × All (λ (s : Send). s.max_sent_ts ≤ max_timestamp left.store) left.sends
sync_stamps_bounded_example = sync_stamps_bounded crates "uuid" settings main_starts run

main_returns_last_example :
    (left.cancel ≡ true)
    × (left.server ≡ stopped)
    × (left.manager ≡ stopped)
    × (left.listener ≡ stopped)
    × (left.scheduler ≡ stopped)
main_returns_last_example = main_returns_last crates "uuid" settings main_starts run refl

shutdown_terminates_example :
    ((m : Node Table Bytes Bytes) × Reach crates interrupted m
      × (m.exited ≡ true)
      × (m.store ≡ interrupted.store))
    × (work_left interrupted ≤ 9)
    × ((m : Node Table Bytes Bytes)
        → Step crates interrupted m
        → work_left m ≤ work_left interrupted)
shutdown_terminates_example =
    shutdown_terminates crates "uuid" settings main_starts to_interrupted refl
