-- ===== src/Rpc/Server/Subscription.antt =====
-- src/rpc/server.rs: what becomes of a connection's subscription.
use mathlib.Core.Path.{subst}
use mathlib.Core.Option
use mathlib.Core.Option.{some-injective}
use rust_high_throughput_sta.Common.{
  ◌+◌, String, ◌≡◌, inl, inr, refl, Option, none, some, Bool-cases, Option-cases,
}
use rust_high_throughput_sta.State.Crdt.{SystemTime}
use rust_high_throughput_sta.State.Store.{Receiver}
use rust_high_throughput_sta.Gossip.Peer.{PeerInfo, Instant}
use rust_high_throughput_sta.Gossip.PeerMap.{DashMap}
use rust_high_throughput_sta.Gossip.Protocol.{AsyncWrite}
use rust_high_throughput_sta.Rpc.Json.{SerdeJson, state_update, lag}
use rust_high_throughput_sta.Rpc.Handler.{RpcHandler}
use rust_high_throughput_sta.Rpc.Server.{
  Recv, received, lagged, channel_closed, push, poll_subscription, Connection, Outcome, running,
  finished, failed, panicked, matches, write_line, notify, handle_push, pushed, step, SubPoll,
  event, missed, idle,
}

module _ {Value M W : Type 0} (json : SerdeJson Value) (dash : DashMap M PeerInfo)
    (sink : AsyncWrite W) where
  -- What is left of a subscription after its receiver gave `r`.
  abbrev pub still_subscribed : Option Receiver → Recv → Option Receiver
  still_subscribed sub (received ev) = Option.map (λ rx. rx + 1) sub
  still_subscribed sub (lagged n) = Option.map (λ rx. rx + n) sub
  still_subscribed sub channel_closed = none

  -- `c` goes on with the subscription `sub` of `conn`.
  abbrev Keeps : RpcHandler M → Connection W → Option Receiver → Outcome M W → Type 0
  Keeps handler conn sub (running h c) =
      (h ≡ handler) × (c.subscription ≡ sub) × (c.sub_prefix ≡ conn.sub_prefix)
  Keeps handler conn sub finished = Unit
  Keeps handler conn sub (failed h) = h ≡ handler
  Keeps handler conn sub panicked = Unit

  notify-Keeps :
      (handler : RpcHandler M) (conn : Connection W) (text : Option String)
      → Keeps handler conn conn.subscription (notify json dash sink handler conn text)
  notify-Keeps handler conn none = refl
  notify-Keeps handler conn (some text) = elim (Option-cases (write_line sink text conn.writer)) [
    | inl e ↦ rw e refl
    | inr (u, e) ↦ rw e (refl, refl, refl)
  ]

  handle_push-Keeps :
      (handler : RpcHandler M) (conn : Connection W) (poll : SubPoll)
      → Keeps handler conn conn.subscription (handle_push json dash sink handler conn poll)
  unfolding handle_push
  handle_push-Keeps handler conn (event ev) = elim (Bool-cases (matches conn.sub_prefix ev)) [
    | inl e ↦ rw e (
        notify-Keeps handler conn (json.notification_to_string (state_update json ev.key ev.value)))
    | inr e ↦ rw e (refl, refl, refl)
  ]
  handle_push-Keeps handler conn (missed n) =
      notify-Keeps handler conn (json.notification_to_string (lag json n))
  handle_push-Keeps handler conn idle = (refl, refl, refl)

  poll-Keeps :
      (handler : RpcHandler M) (conn : Connection W) (sub : Option Receiver) (r : Recv)
      (o : Outcome M W)
      → Option.map (pushed json dash sink handler conn) (poll_subscription sub r) ≡ some o
      → Keeps handler conn (still_subscribed sub r) o
  unfolding poll_subscription
  poll-Keeps handler conn none r o h = cc
  poll-Keeps handler conn (some rx) (received ev) o h =
      subst (Keeps handler conn (some (rx + 1))) (some-injective _ o h)
        (handle_push-Keeps handler (record conn { subscription = some (rx + 1) }) (event ev))
  poll-Keeps handler conn (some rx) (lagged n) o h =
      subst (Keeps handler conn (some (rx + n))) (some-injective _ o h)
        (handle_push-Keeps handler (record conn { subscription = some (rx + n) }) (missed n))
  poll-Keeps handler conn (some rx) channel_closed o h =
      subst (Keeps handler conn none) (some-injective _ o h)
        (handle_push-Keeps handler (record conn { subscription = none }) idle)

  -- A push that goes on changes neither the handler nor the prefix. Its receiver moves
  -- past what it gave or missed, and only the end of the channel ends the subscription.
  pub push_keeps_subscription :
      (now : SystemTime) (instant : Instant) (handler h : RpcHandler M) (conn c : Connection W)
      (r : Recv)
      → step json dash sink now instant handler conn (push r) ≡ some (running h c)
      → (h ≡ handler)
        × (c.subscription ≡ still_subscribed conn.subscription r)
        × (c.sub_prefix ≡ conn.sub_prefix)
  unfolding step
  push_keeps_subscription now instant handler h conn c r e =
      poll-Keeps handler conn conn.subscription r (running h c) e
