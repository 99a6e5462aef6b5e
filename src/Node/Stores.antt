-- ===== src/Node/Stores.antt =====
-- The store of a running node.
use mathlib.Core.Path.{subst}
use mathlib.Core.Option.{some-injective}
use rust_high_throughput_sta.Config.{resolved_node_id}
use rust_high_throughput_sta.Common.{◌^◌, ◌&&◌, ltb, Bool-cases, inl, inr, sym, some, String, ◌≡◌}
use rust_high_throughput_sta.HashMap.Laws.{IsDistinct}
use rust_high_throughput_sta.Config.{Config}
use rust_high_throughput_sta.State.Store
use rust_high_throughput_sta.State.Store.{StateStore, lookup, merge_delta}
use rust_high_throughput_sta.State.Store.Covers.{Precedes}
use rust_high_throughput_sta.State.Store.Effect.{
  Effect, kept, merged, Extends, Extends-refl, Extends-trans, Effect-Extends,
}
use rust_high_throughput_sta.Gossip.Peer.{Instant}
use rust_high_throughput_sta.Gossip.Protocol.{GossipMessage, Result, ok, err, read_message}
use rust_high_throughput_sta.Gossip.Manager.{after_read, handle_inbound, receive}
use rust_high_throughput_sta.Rpc.Server.{running, finished, failed, panicked}
use rust_high_throughput_sta.Rpc.Server.Effects.{step-ChangesTo}
use rust_high_throughput_sta.Node.{
  Crates, Node, main, node_of, start_manager, after_round, tick, serve_inbound, finish, handler_of,
  Step, serving, gossiping, server_binds, server_bind_fails, server_accepts, server_stops,
  connection_goes_on, manager_starts, listener_binds, listener_bind_fails, listener_accepts,
  listener_stops, inbound_served, scheduler_starts, scheduler_panics, scheduler_ticks,
  scheduler_stops, send_finishes, manager_stops, ctrl_c, ctrl_c_fails, main_returns, Reach, here,
  next,
}

module _ {Value M R W : Type 0} (crates : Crates Value M R W) where
  open crates use {dash, json, messages, acks, source, sink}

  after_read-Effect :
      (now : Instant) (w : W) (s : StateStore) (peers : M) (r : Result (GossipMessage × R))
      → Effect s (after_read dash messages acks source sink now w s peers r).store
  unfolding receive
  after_read-Effect now w s peers (ok (msg, r)) = merged msg.deltas
  after_read-Effect now w s peers (err e) = kept

  -- Every step of a node changes its store as a step of a cluster does: not at all, by a `set` with
  -- its own node id, or by the merge of a delta.
  pub Step-Effect : {n m : Node M R W} → Step crates n m → Effect n.store m.store
  unfolding start_manager after_round tick serve_inbound finish handle_inbound
  Step-Effect (serving (server_binds e)) = kept
  Step-Effect (serving (server_bind_fails e)) = kept
  Step-Effect (serving (server_accepts w e)) = kept
  Step-Effect (serving (server_stops e c)) = kept
  Step-Effect {n}
        (serving (connection_goes_on now instant before after k arm (running h cn) e a st)) =
      (step-ChangesTo json dash sink now instant (handler_of crates n) k arm (running h cn)
        st).effect
  Step-Effect (serving (connection_goes_on now instant before after k arm finished e a st)) = kept
  Step-Effect {n} (serving (connection_goes_on now instant before after k arm (failed h) e a st)) =
      (step-ChangesTo json dash sink now instant (handler_of crates n) k arm (failed h) st).effect
  Step-Effect (serving (connection_goes_on now instant before after k arm panicked e a st)) = kept
  Step-Effect (gossiping (manager_starts now e)) = kept
  Step-Effect (gossiping (listener_binds e f)) = kept
  Step-Effect (gossiping (listener_bind_fails e f)) = kept
  Step-Effect (gossiping (listener_accepts r w e)) = kept
  Step-Effect (gossiping (listener_stops e c)) = kept
  Step-Effect {n} (gossiping (inbound_served now r w before after e)) =
      after_read-Effect now w n.store n.peers (read_message messages source r)
  Step-Effect (gossiping (scheduler_starts e f z)) = kept
  Step-Effect (gossiping (scheduler_panics e f z)) = kept
  Step-Effect (gossiping (scheduler_ticks shuffle p e)) = kept
  Step-Effect (gossiping (scheduler_stops e c)) = kept
  Step-Effect (gossiping (send_finishes now s answer before after e)) = kept
  Step-Effect (gossiping (manager_stops e f g)) = kept
  Step-Effect (ctrl_c e f) = kept
  Step-Effect (ctrl_c_fails e f) = kept
  Step-Effect (main_returns e c f g) = kept

  Reach-Extends : {n m : Node M R W} → Reach crates n m → Extends n.store m.store
  Reach-Extends {n} here = Extends-refl n.store
  Reach-Extends {n} (next {m} {o} r s) =
      Extends-trans n.store m.store o.store (Reach-Extends r) (Effect-Extends (Step-Effect s))

  -- Whatever its tasks do and in whatever order, a node that runs on from any state never loses a
  -- value: each key keeps what it held or gets something that is not older, and the node its id.
  pub Reach-no_loss :
      {n m : Node M R W}
      → Reach crates n m
      → ((k : String) → Precedes (lookup k n.store) (lookup k m.store))
        × (m.store.node_id ≡ n.store.node_id)
  Reach-no_loss r = ((Reach-Extends r).precedes, (Reach-Extends r).same_node)

  -- The node that `main` starts with, if it does not panic.
  abbrev pub begun : String → Config → Node M R W
  begun fresh_uuid config =
      node_of crates config
        (Store.created (resolved_node_id fresh_uuid config) config.event_channel_capacity)

  pub Reach-begun :
      (fresh_uuid : String) (config : Config) {n₀ n : Node M R W}
      → main crates fresh_uuid config ≡ some n₀
      → Reach crates n₀ n
      → Reach crates (begun fresh_uuid config) n
  unfolding main Store.new
  Reach-begun fresh_uuid config {n = n} e r =
      elim (Bool-cases
        (ltb 0 config.event_channel_capacity && ltb config.event_channel_capacity (2 ^ 63))) [
          | inl small ↦ subst (λ m. Reach crates m n) (some-injective _ _ (sym (rw small at e))) r
          | inr panics ↦ cc (rw panics at e)
        ]

  pub begun-IsDistinct :
      (fresh_uuid : String) (config : Config) {n : Node M R W}
      → Reach crates (begun fresh_uuid config) n
      → IsDistinct n.store.state
  unfolding Store.created
  begun-IsDistinct fresh_uuid config r = (Reach-Extends r).distinct tt
