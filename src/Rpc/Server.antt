-- ===== src/Rpc/Server.antt =====
-- src/rpc/server.rs: one connection of the JSON-RPC server. The `select!` loop waits for whichever
-- of its arms is ready first: here each arm that fired, with what its future returned, is an input
-- of `step`. The handler is shared with the other tasks, so each step is given it as it then is.
pub mod Output
pub mod Stream
pub mod Subscription
pub mod Effects
use mathlib.Core.Option
use text.Mathlib.Text.{starts_with}
use rust_high_throughput_sta.Common.{
  ℕ, ◌+◌, String, Bool, true, false, Option, none, some, List, [], ◌∷◌, ◌++◌, ◌==◌, if◌then◌else◌,
}
use rust_high_throughput_sta.Common.Bytes.{as_bytes, trim}
use rust_high_throughput_sta.State.Crdt.{SystemTime}
use rust_high_throughput_sta.State.Store.{StateEvent, Receiver}
use rust_high_throughput_sta.Gossip.Peer.{PeerInfo, Instant}
use rust_high_throughput_sta.Gossip.PeerMap.{DashMap}
use rust_high_throughput_sta.Gossip.Protocol.{AsyncWrite}
use rust_high_throughput_sta.Rpc.Json.{SerdeJson, state_update, lag}
use rust_high_throughput_sta.Rpc.Handler.{
  DispatchResult, response, subscribed, notification, RpcHandler, dispatch,
}

-- `read_line`: end of input, a line, or an error.
pub data ReadLine : Type 0 where
  eof read_error : ReadLine
  line : String → ReadLine

-- `Receiver::recv`: an event, the number of events that were missed, or the end of the channel.
pub data Recv : Type 0 where
  received : StateEvent → Recv
  lagged : ℕ → Recv
  channel_closed : Recv

-- The arm that fired.
pub data Arm : Type 0 where
  request : ReadLine → Arm
  push : Recv → Arm
  cancelled : Arm

pub data SubPoll : Type 0 where
  event : StateEvent → SubPoll
  missed : ℕ → SubPoll
  idle : SubPoll

-- The subscription afterwards, its receiver moved past what it gave or missed, and the result; `none` is the future that never resolves.
unfoldable pub poll_subscription : Option Receiver → Recv → Option (Option Receiver × SubPoll)
poll_subscription none r = none
poll_subscription (some rx) (received ev) = some (some (rx + 1), event ev)
poll_subscription (some rx) (lagged n) = some (some (rx + n), missed n)
poll_subscription (some rx) channel_closed = some (none, idle)

-- The local variables of the task.
pub record Connection (W : Type 0) : Type 0 where
  pub writer : W
  pub subscription : Option Receiver
  pub sub_prefix : Option String

-- The loop goes on, ends, ends with an error, or panics. The handler is shared: an error after a
-- request was dispatched leaves behind what the request did. The only panic is that of the clock,
-- before anything is changed.
pub data Outcome (M W : Type 0) : Type 0 where
  running : RpcHandler M → Connection W → Outcome M W
  failed : RpcHandler M → Outcome M W
  finished panicked : Outcome M W

abbrev pub matches : Option String → StateEvent → Bool
matches none ev = true
matches (some p) ev = starts_with ev.key p

module _ {W : Type 0} (sink : AsyncWrite W) where
  open sink use {write_all}

  abbrev pub and_then {ℓ κ} : {A : Type ℓ} {B : Type κ} → Option A → (A → Option B) → Option B
  and_then none f = none
  and_then (some a) f = f a

  -- `none` is an I/O error.
  unfoldable pub write_line : String → W → Option W
  write_line text w = and_then (write_all (as_bytes text) w) (write_all (10 ∷ []))

module _ {Value M W : Type 0} (json : SerdeJson Value) (dash : DashMap M PeerInfo)
    (sink : AsyncWrite W) where
  -- `write_line(…).await?`
  abbrev pub written_or_failed : RpcHandler M → Connection W → Option W → Outcome M W
  written_or_failed handler conn none = failed handler
  written_or_failed handler conn (some w) = running handler (record conn { writer = w })

  -- A result of `dispatch` is written, and a subscription is kept.
  abbrev pub reply : RpcHandler M → Connection W → DispatchResult → Outcome M W
  reply handler conn (response text) =
      written_or_failed handler conn (write_line sink text conn.writer)
  reply handler conn (subscribed initial receiver prefix) =
      written_or_failed handler (record conn { subscription = some receiver; sub_prefix = prefix })
        (write_line sink initial conn.writer)
  reply handler conn notification = running handler conn

  abbrev pub dispatched : Connection W → Option (RpcHandler M × DispatchResult) → Outcome M W
  dispatched conn none = panicked
  dispatched conn (some (handler, result)) = reply handler conn result

  unfoldable pub handle_request :
      SystemTime → Instant → RpcHandler M → Connection W → ReadLine → Outcome M W
  handle_request now instant handler conn eof = finished
  handle_request now instant handler conn read_error = finished
  handle_request now instant handler conn (line text) =
      let trimmed = trim text in
      if trimmed == ""
      then running handler conn
      else dispatched conn (dispatch json dash now instant handler trimmed)

  -- `serde_json::to_string(…)?` and `write_line(…).await?`
  abbrev pub notify : RpcHandler M → Connection W → Option String → Outcome M W
  notify handler conn none = failed handler
  notify handler conn (some text) =
      written_or_failed handler conn (write_line sink text conn.writer)

  unfoldable pub handle_push : RpcHandler M → Connection W → SubPoll → Outcome M W
  handle_push handler conn (event ev) =
      if matches conn.sub_prefix ev
      then notify handler conn (json.notification_to_string (state_update json ev.key ev.value))
      else running handler conn
  handle_push handler conn (missed n) =
      notify handler conn (json.notification_to_string (lag json n))
  handle_push handler conn idle = running handler conn

  abbrev pub pushed : RpcHandler M → Connection W → Option Receiver × SubPoll → Outcome M W
  pushed handler conn (sub, poll) = handle_push handler (record conn { subscription = sub }) poll

  -- One round of the loop; `none` if the arm cannot fire.
  unfoldable pub step :
      SystemTime → Instant → RpcHandler M → Connection W → Arm → Option (Outcome M W)
  unfolding handle_request handle_push poll_subscription
  step now instant handler conn (request r) = some (handle_request now instant handler conn r)
  step now instant handler conn (push r) =
      Option.map (pushed handler conn) (poll_subscription conn.subscription r)
  step now instant handler conn cancelled = some finished
