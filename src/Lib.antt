-- ===== src/Lib.antt =====
-- A distributed state-sync engine: each node keeps a map of last-write-wins values, serves it to
-- clients over line-delimited JSON-RPC, and pushes its changes to peers by gossip.
--
-- The parts and their files. A value with its time stamp and node id, and the merge of two values
-- (src/state/crdt.rs), is State.Crdt; a clock reading is an argument, in nanoseconds before or
-- after the epoch. The store (src/state/store.rs) is State.Store: a record of the map, the node id
-- and the sequence of events sent so far, with one function for each method (get is named lookup);
-- the critical section of set is set_entry, that of merge_delta is merge_entries, and the events
-- after it are emit. State.Store.Threads has the finer steps of several threads, in which a
-- critical section (set_locked, merge_locked) leaves its events to be sent later, and merge_delta
-- takes the lock again to read each value before it sends the event. created is the store that new
-- makes when the capacity is one that the channel takes. State.Store.Checks has the unit tests of
-- both files as functions of the clock. src/state/snapshot.rs is State.Snapshot, the configuration
-- (src/config.rs) Config, and the error type (src/error.rs) Error; nothing in the repository calls
-- the latter.
--
-- src/gossip/peer.rs is Gossip.Peer, src/gossip/protocol.rs is Gossip.Protocol, and
-- src/gossip/manager.rs is Gossip.Manager: gossip_round selects targets and yields the sends that
-- the source spawns, send_and_ack is one such send, finish_send is what its answer does to the peer
-- table, and handle_inbound reads a message, merges it (receive) and answers. Gossip.Cluster puts
-- the nodes together: a state is every node's store and the messages under way, and a step is a
-- write, a send or a delivery, in any order, with lost, repeated and late messages. A send there
-- goes to a peer of any table, whatever the table of the node is, so the table is not part of the
-- state: a cluster is meant to allow more runs than the program, and only what holds of all its
-- runs is stated of it.
--
-- src/rpc/types.rs is Rpc.Types and Rpc.Json, src/rpc/handler.rs is Rpc.Handler, and one connection
-- of src/rpc/server.rs is Rpc.Server: step is one round of its loop, given the arm that fired. An
-- error of the socket ends the connection, and what the request did before stays.
--
-- Node is one running node: the start of src/main.rs (main), and a step relation of its tasks on
-- the store, the peer table and the cancellation token that they share. ServerStep is run of
-- src/rpc/server.rs and its connections, GossipStep is run, run_listener and run_scheduler of
-- src/gossip/manager.rs and what they spawn, and Step adds the wait for Ctrl-C and the return of
-- main. The environment chooses the task that goes on and what its future returns.
-- State.Store.Effect is the interface to the store that the proofs about a node use.
--
-- Common holds the shared names and lemmas, HashMap std's hash map as an association list, and
-- Examples concrete instances of every parameter, at which the theorems are applied.
--
-- Code that is not in the repository is a parameter: bincode (Bincode), dashmap (Gossip.PeerMap),
-- serde_json (Rpc.Json), and tokio's readers and writers (Gossip.Protocol) are records of the
-- operations that the source calls with the laws that their documentation promises. The shuffle of
-- a round is a function that permutes, the answers of sockets, timeouts and channels are inputs,
-- and the UUID of an unnamed node is an argument.
--
-- Numbers. The wrap-around of the u64 counters and of the casts `as u64` and `as u32` is written
-- out, in the arithmetic of the release profile. An Instant is a number of nanoseconds. The only
-- fuel is that of display, which prints a u16 with five digits.
--
-- Not modelled: logging and the parsing of the command line; a node that restarts with an empty
-- store under its old name; that the runtime drops the tasks that are left when main returns, so
-- that connections may still go on in the model. A failed accept changes nothing and is no step. A
-- round reads one state of the store for all its targets, a call of a connection or of a peer's
-- message is one step of a node (State.Store.Threads has its finer steps), and a line from a client
-- is read whole. The capacity of the event channel is kept in the store but drops no events in the
-- model: a receiver that fell behind is an input of the connection. Time is an input: nothing says
-- when a timer fires.
pub mod Common
pub mod HashMap
pub mod Bincode
pub mod Config
pub mod Error
pub mod State
pub mod Gossip
pub mod Rpc
pub mod Node
pub mod Examples
