-- ===== src/Rpc/Server/Effects.antt =====
-- src/rpc/server.rs: what a connection can change.

use mathlib.Core.Option
use mathlib.Core.Option.{some-injective}
use rust_high_throughput_sta.State.Store.{Receiver}
use mathlib.Core.Path.{subst}
use rust_high_throughput_sta.Common.{
  String, ◌≡◌, refl, Option, none, some, ◌==◌, Bool-cases, inl, inr,
}
use rust_high_throughput_sta.Common.Bytes.{trim}
use rust_high_throughput_sta.State.Crdt.{SystemTime}
use rust_high_throughput_sta.Gossip.Peer.{PeerInfo, Instant}
use rust_high_throughput_sta.Gossip.PeerMap.{DashMap}
use rust_high_throughput_sta.Gossip.Protocol.{AsyncWrite}
use rust_high_throughput_sta.Rpc.Json.{SerdeJson}
use rust_high_throughput_sta.Rpc.Handler.{
  DispatchResult, response, subscribed, notification, RpcHandler,
}
use rust_high_throughput_sta.Rpc.Handler.Effects.{Changes, Changes-refl, dispatch-Changes}
use rust_high_throughput_sta.Rpc.Server.{
  ReadLine, eof, read_error, line, Arm, request, push, cancelled, Connection, Outcome, running,
  finished, failed, panicked, written_or_failed, reply, dispatched, handle_request, step, notify,
  handle_push, pushed, SubPoll, event, missed, idle, matches,
}

module _ {Value M W : Type 0} (json : SerdeJson Value) (dash : DashMap M PeerInfo)
    (sink : AsyncWrite W) where
  abbrev pub ChangesTo : RpcHandler M → Outcome M W → Type 0
  ChangesTo self (running h c) = Changes self h
  ChangesTo self finished = Unit
  ChangesTo self (failed h) = Changes self h
  ChangesTo self panicked = Unit

  written-ChangesTo :
      (self h : RpcHandler M) (conn : Connection W) (o : Option W)
      → Changes self h
      → ChangesTo self (written_or_failed json dash sink h conn o)
  written-ChangesTo self h conn none g = g
  written-ChangesTo self h conn (some w) g = g

  reply-ChangesTo :
      (self h : RpcHandler M) (conn : Connection W) (r : DispatchResult)
      → Changes self h
      → ChangesTo self (reply json dash sink h conn r)
  reply-ChangesTo self h conn (response text) g = written-ChangesTo self h conn _ g
  reply-ChangesTo self h conn (subscribed text rx prefix) g =
      written-ChangesTo self h (record conn { subscription = some rx; sub_prefix = prefix }) _ g
  reply-ChangesTo self h conn notification g = g

  dispatched-ChangesTo :
      (self : RpcHandler M) (conn : Connection W) (o : Option (RpcHandler M × DispatchResult))
      → ((h : RpcHandler M) (r : DispatchResult) → o ≡ some (h, r) → Changes self h)
      → ChangesTo self (dispatched json dash sink conn o)
  dispatched-ChangesTo self conn none g = tt
  dispatched-ChangesTo self conn (some (h, r)) g = reply-ChangesTo self h conn r (g h r refl)

  request-ChangesTo :
      (now : SystemTime) (instant : Instant) (self : RpcHandler M) (conn : Connection W)
      (r : ReadLine)
      → ChangesTo self (handle_request json dash sink now instant self conn r)
  unfolding handle_request
  request-ChangesTo now instant self conn eof = tt
  request-ChangesTo now instant self conn read_error = tt
  request-ChangesTo now instant self conn (line text) = elim (Bool-cases (trim text == "")) [
    | inl e ↦ rw e (Changes-refl json dash self)
    | inr e ↦ rw e (
        dispatched-ChangesTo self conn _
          (λ h r f. dispatch-Changes json dash now instant self h (trim text) r f))
  ]

  notify-ChangesTo :
      (self : RpcHandler M) (conn : Connection W) (text : Option String)
      → ChangesTo self (notify json dash sink self conn text)
  notify-ChangesTo self conn none = Changes-refl json dash self
  notify-ChangesTo self conn (some text) =
      written-ChangesTo self self conn _ (Changes-refl json dash self)

  push-ChangesTo :
      (self : RpcHandler M) (conn : Connection W) (poll : SubPoll)
      → ChangesTo self (handle_push json dash sink self conn poll)
  unfolding handle_push
  push-ChangesTo self conn (event ev) = elim (Bool-cases (matches conn.sub_prefix ev)) [
    | inl e ↦ rw e (notify-ChangesTo self conn _)
    | inr e ↦ rw e (Changes-refl json dash self)
  ]
  push-ChangesTo self conn (missed n) = notify-ChangesTo self conn _
  push-ChangesTo self conn idle = Changes-refl json dash self

  poll-ChangesTo :
      (self : RpcHandler M) (conn : Connection W) (polled : Option (Option Receiver × SubPoll))
      (o : Outcome M W)
      → Option.map (pushed json dash sink self conn) polled ≡ some o
      → ChangesTo self o
  poll-ChangesTo self conn none o e = cc
  poll-ChangesTo self conn (some (sub, poll)) o e =
      subst (ChangesTo self) (some-injective _ o e)
        (push-ChangesTo self (record conn { subscription = sub }) poll)

  -- A round of a connection changes the store by an effect, and no peer, whether the connection
  -- goes on or fails.
  pub step-ChangesTo :
      (now : SystemTime) (instant : Instant) (self : RpcHandler M) (conn : Connection W) (arm : Arm)
      (o : Outcome M W)
      → step json dash sink now instant self conn arm ≡ some o
      → ChangesTo self o
  unfolding step
  step-ChangesTo now instant self conn (request r) o e =
      subst (ChangesTo self) (some-injective _ o e) (request-ChangesTo now instant self conn r)
  step-ChangesTo now instant self conn (push r) o e = poll-ChangesTo self conn _ o e
  step-ChangesTo now instant self conn cancelled o e =
      subst (ChangesTo self) (some-injective finished o e) tt
