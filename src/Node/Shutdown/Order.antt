-- ===== src/Node/Shutdown/Order.antt =====
-- What the tasks of a node wait for.
use rust_high_throughput_sta.Common.{String, ◌≡◌, refl, true, arith}
use rust_high_throughput_sta.Node.Stores.{begun}
use rust_high_throughput_sta.Config.{Config}
use rust_high_throughput_sta.Rpc.Server.{running, finished, failed, panicked}
use rust_high_throughput_sta.Node.{
  Crates, starting, stopped, Node, start_manager, after_round, tick, serve_inbound, finish, Step,
  serving, gossiping, server_binds, server_bind_fails, server_accepts, server_stops,
  connection_goes_on, manager_starts, listener_binds, listener_bind_fails, listener_accepts,
  listener_stops, inbound_served, scheduler_starts, scheduler_panics, scheduler_ticks,
  scheduler_stops, send_finishes, manager_stops, ctrl_c, ctrl_c_fails, main_returns, Reach, here,
  next,
}

-- What the tasks wait for.
pub record IsOrderly {M R W : Type 0} (n : Node M R W) : Type 0 where
  pub not_started : n.manager ≡ starting → (n.listener ≡ starting) × (n.scheduler ≡ starting)
  pub joined : n.manager ≡ stopped → (n.listener ≡ stopped) × (n.scheduler ≡ stopped)
  pub returned : n.exited ≡ true → (n.cancel ≡ true) × (n.server ≡ stopped) × (n.manager ≡ stopped)

module _ {Value M R W : Type 0} (crates : Crates Value M R W) where
  pub Step-IsOrderly : {n m : Node M R W} → Step crates n m → IsOrderly n → IsOrderly m
  unfolding start_manager after_round tick serve_inbound finish
  Step-IsOrderly (serving (server_binds e)) h = ground arith
  Step-IsOrderly (serving (server_bind_fails e)) h = ground arith
  Step-IsOrderly (serving (server_accepts w e)) h = ground arith
  Step-IsOrderly (serving (server_stops e c)) h = ground arith
  Step-IsOrderly
        (serving (connection_goes_on now instant before after k arm (running hd cn) e a st)) h =
      ground arith
  Step-IsOrderly (serving (connection_goes_on now instant before after k arm finished e a st)) h =
      ground arith
  Step-IsOrderly (serving (connection_goes_on now instant before after k arm (failed hd) e a st))
        h =
      ground arith
  Step-IsOrderly (serving (connection_goes_on now instant before after k arm panicked e a st)) h =
      ground arith
  Step-IsOrderly (gossiping (manager_starts now e)) h = ground arith
  Step-IsOrderly (gossiping (listener_binds e f)) h = ground arith
  Step-IsOrderly (gossiping (listener_bind_fails e f)) h = ground arith
  Step-IsOrderly (gossiping (listener_accepts r w e)) h = ground arith
  Step-IsOrderly (gossiping (listener_stops e c)) h = ground arith
  Step-IsOrderly (gossiping (inbound_served now r w before after e)) h = ground arith
  Step-IsOrderly (gossiping (scheduler_starts e f z)) h = ground arith
  Step-IsOrderly (gossiping (scheduler_panics e f z)) h = ground arith
  Step-IsOrderly (gossiping (scheduler_ticks shuffle p e)) h = ground arith
  Step-IsOrderly (gossiping (scheduler_stops e c)) h = ground arith
  Step-IsOrderly (gossiping (send_finishes now s answer before after e)) h = ground arith
  Step-IsOrderly (gossiping (manager_stops e f g)) h = ground arith
  Step-IsOrderly (ctrl_c e f) h = ground arith
  Step-IsOrderly (ctrl_c_fails e f) h = ground arith
  Step-IsOrderly (main_returns e c f g) h = ground arith

  pub begun-IsOrderly :
      (fresh_uuid : String) (config : Config) → IsOrderly (begun crates fresh_uuid config)
  begun-IsOrderly fresh_uuid config = record {
    not_started = λ e. (refl, refl);
    joined = λ e. cc;
    returned = λ e. cc;
  }

  pub Reach-IsOrderly : {n m : Node M R W} → Reach crates n m → IsOrderly n → IsOrderly m
  Reach-IsOrderly here h = h
  Reach-IsOrderly (next r s) h = Step-IsOrderly s (Reach-IsOrderly r h)
