-- ===== src/Node.antt =====
-- One running node: src/main.rs, the accept loop of src/rpc/server.rs, and the loops of
-- src/gossip/manager.rs. The tasks share the store, the peer table and the cancellation token; a
-- step is what one task does between two waits, and the environment chooses which task goes on and
-- what its future returns.
pub mod Stores
pub mod Sync
pub mod Shutdown
use mathlib.Core.Option
use mathlib.Core.List.{Perm}
use rust_high_throughput_sta.Common.{
  ℕ, ◌+◌, String, ◌≡◌, ◌≢◌, Bool, true, false, Option, none, some, List, [], ◌∷◌, ◌++◌,
}
use rust_high_throughput_sta.Config.{Config, resolved_node_id}
use rust_high_throughput_sta.Bincode.{Bincode}
use rust_high_throughput_sta.State.Crdt.{SystemTime}
use rust_high_throughput_sta.State.Store
use rust_high_throughput_sta.State.Store.{StateStore}
use rust_high_throughput_sta.Gossip.Peer.{PeerInfo, Instant}
use rust_high_throughput_sta.Gossip.PeerMap.{DashMap}
use rust_high_throughput_sta.Gossip.Protocol.{
  GossipMessage, GossipAck, Result, AsyncRead, AsyncWrite,
}
use rust_high_throughput_sta.Gossip.Manager
use rust_high_throughput_sta.Gossip.Manager.{
  GossipManager, Send, gossip_round, finish_send, Handled, handle_inbound,
}
use rust_high_throughput_sta.Rpc.Json.{SerdeJson}
use rust_high_throughput_sta.Rpc.Handler.{RpcHandler}
use rust_high_throughput_sta.Rpc.Server
use rust_high_throughput_sta.Rpc.Server.{
  Connection, Outcome, running, finished, failed, panicked, Arm, request, push, cancelled,
}

-- The crates that the tasks of a node call.
pub record Crates (Value M R W : Type 0) : Type 0 where
  pub dash : DashMap M PeerInfo
  pub json : SerdeJson Value
  pub messages : Bincode GossipMessage
  pub acks : Bincode GossipAck
  pub source : AsyncRead R
  pub sink : AsyncWrite W

-- A task before its loop, in it, and after it.
pub data Phase : Type 0 where
  starting looping stopped : Phase

pub record Node (M R W : Type 0) : Type 0 where
  pub config : Config
  pub store : StateStore
  pub peers : M
  pub generation : ℕ
  pub cancel : Bool
  pub server : Phase
  pub manager : Phase
  pub listener : Phase
  pub scheduler : Phase
  -- The tasks that were spawned for a client, for a peer that connected, and for a send.
  pub connections : List (Connection W)
  pub inbound : List (R × W)
  pub sends : List Send
  -- `main` has returned `Ok`, or the error of `ctrl_c`.
  pub exited : Bool
  pub aborted : Bool

module _ {Value M R W : Type 0} (crates : Crates Value M R W) where
  open crates use {dash, json, messages, acks, source, sink}

  -- What `main` shares among the tasks that it spawns, and the tasks before they run.
  abbrev pub node_of : Config → StateStore → Node M R W
  node_of config store = record {
    config = config;
    store = store;
    peers = dash.empty;
    generation = 0;
    cancel = false;
    server = starting;
    manager = starting;
    listener = starting;
    scheduler = starting;
    connections = [];
    inbound = [];
    sends = [];
    exited = false;
    aborted = false;
  }

  -- `main`, up to the wait for Ctrl-C; `none` is the panic of `StateStore::new`. The manager's own
  -- tasks are spawned when it runs.
  unfoldable pub main : String → Config → Option (Node M R W)
  unfolding resolved_node_id
  main fresh_uuid config =
      Option.map (node_of config)
        (Store.new (resolved_node_id fresh_uuid config) config.event_channel_capacity)

  -- The manager that the gossip tasks share.
  abbrev pub manager_of : Node M R W → GossipManager M
  manager_of n = record {
    config = n.config;
    store = n.store;
    peers = n.peers;
    generation = n.generation;
  }

  abbrev pub handler_of : Node M R W → RpcHandler M
  handler_of n = record { store = n.store; peers = n.peers }

  -- A connection that was accepted: its locals.
  abbrev pub accepted : W → Connection W
  accepted w = record { writer = w; subscription = none; sub_prefix = none }

  -- `GossipManager::new`, and the spawns of `run`.
  unfoldable pub start_manager : Instant → Node M R W → Node M R W
  start_manager now n =
      let mgr = Manager.new dash now n.config n.store n.peers in
      record n { peers = mgr.peers; generation = mgr.generation; manager = looping }

  -- What a round of a connection's loop leaves behind: the task goes on or is gone.
  unfoldable pub after_round :
      Node M R W → List (Connection W) → List (Connection W) → Outcome M W → Node M R W
  after_round n before after (running h c) = record n {
    store = h.store;
    peers = h.peers;
    connections = before ++ c ∷ after;
  }
  after_round n before after finished = record n { connections = before ++ after }
  after_round n before after (failed h) = record n {
    store = h.store;
    peers = h.peers;
    connections = before ++ after;
  }
  after_round n before after panicked = record n { connections = before ++ after }

  -- A tick of the scheduler: a round, and its sends.
  unfoldable pub tick :
      (List (String × PeerInfo) → List (String × PeerInfo)) → Node M R W → Node M R W
  tick shuffle n =
      let (mgr, spawned) = gossip_round dash shuffle (manager_of n) in
      record n { generation = mgr.generation; sends = spawned ++ n.sends }

  -- A peer's connection is served to its end.
  unfoldable pub serve_inbound : Instant → R → W → List (R × W) → Node M R W → Node M R W
  serve_inbound now r w rest n =
      let handled = handle_inbound dash messages acks source sink now r w n.store n.peers in
      record n { store = handled.store; peers = handled.peers; inbound = rest }

  -- A send has its answer.
  unfoldable pub finish : Instant → Send → Result GossipAck → List Send → Node M R W → Node M R W
  finish now s answer rest n = record n {
    peers = finish_send dash now s answer n.peers;
    sends = rest;
  }

  -- `run` of the server, and the connections that it spawns.
  pub data ServerStep (n : Node M R W) : Node M R W → Type 0 where
    server_binds : n.server ≡ starting → ServerStep n (record n { server = looping })
    server_bind_fails : n.server ≡ starting → ServerStep n (record n { server = stopped })
    server_accepts :
        (w : W)
        → n.server ≡ looping
        → ServerStep n (record n { connections = accepted w ∷ n.connections })
    server_stops :
        n.server ≡ looping → n.cancel ≡ true → ServerStep n (record n { server = stopped })
    connection_goes_on :
        (now : SystemTime) (instant : Instant) (before after : List (Connection W))
        (c : Connection W) (arm : Arm) (o : Outcome M W)
        → n.connections ≡ before ++ c ∷ after
        → (arm ≡ cancelled → n.cancel ≡ true)
        → Server.step json dash sink now instant (handler_of n) c arm ≡ some o
        → ServerStep n (after_round n before after o)

  -- `run` of the manager, its listener and its scheduler, and what they spawn.
  pub data GossipStep (n : Node M R W) : Node M R W → Type 0 where
    manager_starts : (now : Instant) → n.manager ≡ starting → GossipStep n (start_manager now n)
    listener_binds :
        n.manager ≡ looping → n.listener ≡ starting → GossipStep n (record n { listener = looping })
    listener_bind_fails :
        n.manager ≡ looping → n.listener ≡ starting → GossipStep n (record n { listener = stopped })
    listener_accepts :
        (r : R) (w : W)
        → n.listener ≡ looping
        → GossipStep n (record n { inbound = (r, w) ∷ n.inbound })
    listener_stops :
        n.listener ≡ looping → n.cancel ≡ true → GossipStep n (record n { listener = stopped })
    inbound_served :
        (now : Instant) (r : R) (w : W) (before after : List (R × W))
        → n.inbound ≡ before ++ (r, w) ∷ after
        → GossipStep n (serve_inbound now r w (before ++ after) n)
    scheduler_starts :
        n.manager ≡ looping
        → n.scheduler ≡ starting
        → n.config.gossip_interval_ms ≢ 0
        → GossipStep n (record n { scheduler = looping })
    -- `interval` panics on a period of zero, and the task is gone.
    scheduler_panics :
        n.manager ≡ looping
        → n.scheduler ≡ starting
        → n.config.gossip_interval_ms ≡ 0
        → GossipStep n (record n { scheduler = stopped })
    scheduler_ticks :
        (shuffle : List (String × PeerInfo) → List (String × PeerInfo))
        → ((l : List (String × PeerInfo)) → Perm (shuffle l) l)
        → n.scheduler ≡ looping
        → GossipStep n (tick shuffle n)
    scheduler_stops :
        n.scheduler ≡ looping → n.cancel ≡ true → GossipStep n (record n { scheduler = stopped })
    send_finishes :
        (now : Instant) (s : Send) (answer : Result GossipAck) (before after : List Send)
        → n.sends ≡ before ++ s ∷ after
        → GossipStep n (finish now s answer (before ++ after) n)
    manager_stops :
        n.manager ≡ looping
        → n.listener ≡ stopped
        → n.scheduler ≡ stopped
        → GossipStep n (record n { manager = stopped })

  -- `main` after it spawned the server and the manager.
  pub data Step (n : Node M R W) : Node M R W → Type 0 where
    serving : {m : Node M R W} → ServerStep n m → Step n m
    gossiping : {m : Node M R W} → GossipStep n m → Step n m
    ctrl_c : n.cancel ≡ false → n.aborted ≡ false → Step n (record n { cancel = true })
    ctrl_c_fails : n.cancel ≡ false → n.aborted ≡ false → Step n (record n { aborted = true })
    main_returns :
        n.exited ≡ false
        → n.cancel ≡ true
        → n.server ≡ stopped
        → n.manager ≡ stopped
        → Step n (record n { exited = true })

  pub data Reach (n : Node M R W) : Node M R W → Type 0 where
    here : Reach n n
    next : {m o : Node M R W} → Reach n m → Step m o → Reach n o
