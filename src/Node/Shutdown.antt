-- ===== src/Node/Shutdown.antt =====
-- The life of a node's tasks, from the start to the return of `main`.
pub mod Order
use native.Mathlib.Nat.{le_refl}
use rust_high_throughput_sta.Common.{
  some, ℕ, zero, suc, ◌+◌, ◌<◌, ◌≤◌, String, ◌≡◌, refl, ◌∙◌, true, false, arith, eqb, Bool-cases,
  inl, inr, if◌then◌else◌,
}
use rust_high_throughput_sta.Node.Stores.{Reach-begun}
use rust_high_throughput_sta.Config.{Config}
use rust_high_throughput_sta.Rpc.Server.{running, finished, failed, panicked}
use rust_high_throughput_sta.Node.{
  Crates, Phase, starting, looping, stopped, Node, main, start_manager, after_round, tick,
  serve_inbound, finish, Step, serving, gossiping, server_binds, server_bind_fails, server_accepts,
  server_stops, connection_goes_on, manager_starts, listener_binds, listener_bind_fails,
  listener_accepts, listener_stops, inbound_served, scheduler_starts, scheduler_panics,
  scheduler_ticks, scheduler_stops, send_finishes, manager_stops, ctrl_c, ctrl_c_fails,
  main_returns, Reach, here, next,
}
use rust_high_throughput_sta.Node.Shutdown.Order.{
  IsOrderly, Step-IsOrderly, begun-IsOrderly, Reach-IsOrderly,
}

-- The changes of phase that a task has before it.
abbrev pub phases_left : Phase → ℕ
phases_left starting = 2
phases_left looping = 1
phases_left stopped = 0

-- Those of all tasks, and the return of `main`.
abbrev pub work_left : {M R W : Type 0} → Node M R W → ℕ
work_left n =
    phases_left n.server
    + phases_left n.manager
    + phases_left n.listener
    + phases_left n.scheduler
    + (if n.exited then 0 else 1)

module _ {Value M R W : Type 0} (crates : Crates Value M R W) where
  Step-work_left : {n m : Node M R W} → Step crates n m → work_left m ≤ work_left n
  unfolding start_manager after_round tick serve_inbound finish
  Step-work_left (serving (server_binds e)) = ground arith
  Step-work_left (serving (server_bind_fails e)) = ground arith
  Step-work_left (serving (server_accepts w e)) = ground arith
  Step-work_left (serving (server_stops e c)) = ground arith
  Step-work_left
        (serving (connection_goes_on now instant before after k arm (running hd cn) e a st)) =
      ground arith
  Step-work_left (serving (connection_goes_on now instant before after k arm finished e a st)) =
      ground arith
  Step-work_left (serving (connection_goes_on now instant before after k arm (failed hd) e a st)) =
      ground arith
  Step-work_left (serving (connection_goes_on now instant before after k arm panicked e a st)) =
      ground arith
  Step-work_left (gossiping (manager_starts now e)) = ground arith
  Step-work_left (gossiping (listener_binds e f)) = ground arith
  Step-work_left (gossiping (listener_bind_fails e f)) = ground arith
  Step-work_left (gossiping (listener_accepts r w e)) = ground arith
  Step-work_left (gossiping (listener_stops e c)) = ground arith
  Step-work_left (gossiping (inbound_served now r w before after e)) = ground arith
  Step-work_left (gossiping (scheduler_starts e f z)) = ground arith
  Step-work_left (gossiping (scheduler_panics e f z)) = ground arith
  Step-work_left (gossiping (scheduler_ticks shuffle p e)) = ground arith
  Step-work_left (gossiping (scheduler_stops e c)) = ground arith
  Step-work_left (gossiping (send_finishes now s answer before after e)) = ground arith
  Step-work_left (gossiping (manager_stops e f g)) = ground arith
  Step-work_left (ctrl_c e f) = ground arith
  Step-work_left (ctrl_c_fails e f) = ground arith
  Step-work_left (main_returns e c f g) = ground arith

  -- `main` returns last, if it did not panic at its start: when it has, without an error of `ctrl_c`, the cancellation was asked for,
  -- and the server, the manager, the listener and the scheduler are all gone.
  pub main_returns_last :
      (fresh_uuid : String) (config : Config) {n₀ n : Node M R W}
      → main crates fresh_uuid config ≡ some n₀
      → Reach crates n₀ n
      → n.exited ≡ true
      → (n.cancel ≡ true)
        × (n.server ≡ stopped)
        × (n.manager ≡ stopped)
        × (n.listener ≡ stopped)
        × (n.scheduler ≡ stopped)
  main_returns_last fresh_uuid config started r e =
      let h =
        Reach-IsOrderly crates (Reach-begun crates fresh_uuid config started r)
          (begun-IsOrderly crates fresh_uuid config) in
      let (asked, server, manager) = h.returned e in
      let (listener, scheduler) = h.joined manager in (asked, server, manager, listener, scheduler)

  -- One step of a task that ends, with nothing else changed that matters to the others.
  record Progress (n m : Node M R W) : Type 0 where
    taken : Step crates n m
    less : work_left m < work_left n
    still : (m.cancel ≡ true) × (m.store ≡ n.store)

  Progress-from :
      (server manager listener scheduler : Phase) (n : Node M R W)
      → n.server ≡ server
      → n.manager ≡ manager
      → n.listener ≡ listener
      → n.scheduler ≡ scheduler
      → n.cancel ≡ true
      → n.exited ≡ false
      → IsOrderly n
      → (m : Node M R W) × Progress n m
  unfolding start_manager
  Progress-from starting b c d n e f g h asked alive o =
      (_, record { taken = serving (server_binds e); less = ground arith; still = (asked, refl) })
  Progress-from looping b c d n e f g h asked alive o = (
    _,
    record { taken = serving (server_stops e asked); less = ground arith; still = (asked, refl) },
  )
  Progress-from stopped starting c d n e f g h asked alive o = (
    _,
    record { taken = gossiping (manager_starts 0 f); less = ground arith; still = (asked, refl) },
  )
  Progress-from stopped looping starting d n e f g h asked alive o = (
    _,
    record { taken = gossiping (listener_binds f g); less = ground arith; still = (asked, refl) },
  )
  Progress-from stopped looping looping d n e f g h asked alive o = (
    _,
    record {
      taken = gossiping (listener_stops g asked);
      less = ground arith;
      still = (asked, refl);
    },
  )
  Progress-from stopped looping stopped starting n e f g h asked alive o =
      elim (Bool-cases (eqb n.config.gossip_interval_ms 0)) [
        | inl zero_period ↦ (
          _,
          record {
            taken = gossiping (scheduler_panics f h (ground arith));
            less = ground arith;
            still = (asked, refl);
          },
        )
        | inr positive ↦ (
          _,
          record {
            taken = gossiping (scheduler_starts f h (ground arith));
            less = ground arith;
            still = (asked, refl);
          },
        )
      ]
  Progress-from stopped looping stopped looping n e f g h asked alive o = (
    _,
    record {
      taken = gossiping (scheduler_stops h asked);
      less = ground arith;
      still = (asked, refl);
    },
  )
  Progress-from stopped looping stopped stopped n e f g h asked alive o = (
    _,
    record { taken = gossiping (manager_stops f g h); less = ground arith; still = (asked, refl) },
  )
  Progress-from stopped stopped c d n e f g h asked alive o = (
    _,
    record { taken = main_returns alive asked e f; less = ground arith; still = (asked, refl) },
  )

  Reach-trans : {n m o : Node M R W} → Reach crates n m → Reach crates m o → Reach crates n o
  Reach-trans r here = r
  Reach-trans r (next q s) = next (Reach-trans r q) s

  -- What is left to do bounds the steps that it takes.
  runs_down :
      (fuel : ℕ) (n : Node M R W)
      → work_left n ≤ fuel
      → IsOrderly n
      → n.cancel ≡ true
      → (m : Node M R W) × Reach crates n m × (m.exited ≡ true) × (m.store ≡ n.store)
  runs_down zero n bound o asked = elim (Bool-cases n.exited) [
    | inl over ↦ (n, here, over, refl)
    | inr alive ↦ absurd (ground arith)
  ]
  runs_down (suc fuel) n bound o asked = elim (Bool-cases n.exited) [
    | inl over ↦ (n, here, over, refl)
    | inr alive ↦
        let (m, p) =
          Progress-from n.server n.manager n.listener n.scheduler n refl refl refl refl asked alive
            o in
        let (last, r, over, kept) =
          runs_down fuel m (omega (arith, p.less)) (Step-IsOrderly crates p.taken o) p.still.0 in
        (last, Reach-trans (next here p.taken) r, over, kept ∙ p.still.1)
  ]

  -- Once Ctrl-C was pressed in a node whose `main` did not panic at its start, `main` can still return, whatever the tasks were doing: there is a run
  -- to its return in which the store keeps what it held. And no step adds to the changes of phase
  -- that the tasks have left, of which there are at most nine.
  pub shutdown_terminates :
      (fresh_uuid : String) (config : Config) {n₀ n : Node M R W}
      → main crates fresh_uuid config ≡ some n₀
      → Reach crates n₀ n
      → n.cancel ≡ true
      → ((m : Node M R W) × Reach crates n m × (m.exited ≡ true) × (m.store ≡ n.store))
        × (work_left n ≤ 9)
        × ((m : Node M R W) → Step crates n m → work_left m ≤ work_left n)
  shutdown_terminates fresh_uuid config {n = n} started r asked = (
    runs_down (work_left n) n (le_refl _)
        (Reach-IsOrderly crates (Reach-begun crates fresh_uuid config started r)
          (begun-IsOrderly crates fresh_uuid config))
        asked,
    ground arith,
    λ m s. Step-work_left s,
  )
