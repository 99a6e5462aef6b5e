-- ===== src/Rpc/Server/Output.antt =====
-- src/rpc/server.rs: what a connection writes.
use mathlib.Core.Path.{subst}
use mathlib.Core.Option
use mathlib.Core.Option.{some-injective}
use mathlib.Core.List.{append_assoc, append-nil}
use rust_high_throughput_sta.Common.{
  ℕ, ◌+◌, Bool, true, List, refl, String, ◌≡◌, inl, inr, sym, ap, ◌∙◌, Option, none, some, [], ◌∷◌,
  ◌++◌, ◌==◌, if◌then◌else◌, Bool-cases, Option-cases,
}
use rust_high_throughput_sta.Common.Prefix.{begins, starts_with-eq-begins}
use rust_high_throughput_sta.State.Crdt.{LwwValue}
use rust_high_throughput_sta.Common.Bytes.{as_bytes, trim}
use rust_high_throughput_sta.State.Crdt.{SystemTime}
use rust_high_throughput_sta.State.Store.{StateEvent, Receiver}
use rust_high_throughput_sta.Bincode.{Bytes}
use rust_high_throughput_sta.Gossip.Peer.{PeerInfo, Instant}
use rust_high_throughput_sta.Gossip.PeerMap.{DashMap}
use rust_high_throughput_sta.Gossip.Protocol.{AsyncWrite}
use rust_high_throughput_sta.Rpc.Json.{SerdeJson, state_update, lag}
use rust_high_throughput_sta.Rpc.Handler.{
  DispatchResult, response, subscribed, notification, RpcHandler, dispatch,
}
use rust_high_throughput_sta.Rpc.Server.{
  ReadLine, eof, read_error, line, Recv, received, lagged, channel_closed, Arm, request, push,
  cancelled, poll_subscription, Connection, Outcome, running, finished, failed, panicked, matches,
  write_line, written_or_failed, dispatched, handle_request, notify, handle_push, pushed, step,
  event,
}

-- A text and its end of line.
abbrev pub line_of : String → Bytes
line_of text = as_bytes text ++ 10 ∷ []

abbrev pub line_of_some : Option String → Bytes
line_of_some none = []
line_of_some (some text) = line_of text

-- The answer to a request: a line, or nothing for a notification.
abbrev pub answer_line : {M : Type 0} → Option (RpcHandler M × DispatchResult) → Bytes
answer_line none = []
answer_line (some (h, response text)) = line_of text
answer_line (some (h, subscribed text receiver prefix)) = line_of text
answer_line (some (h, notification)) = []

-- The key starts with the prefix of the subscription, if it has one.
abbrev pub is_wanted : Option String → String → Bool
is_wanted none key = true
is_wanted (some p) key = begins p key

matches-eq-is_wanted :
    (prefix : Option String) (ev : StateEvent) → matches prefix ev ≡ is_wanted prefix ev.key
matches-eq-is_wanted none ev = refl
matches-eq-is_wanted (some p) ev = starts_with-eq-begins ev.key p

module _ {Value : Type 0} (json : SerdeJson Value) where
  -- The line of a notification, written out.
  abbrev pub notification_line : String → List (String × Value) → Bytes
  notification_line method fields = line_of_some (
      json.notification_to_string
        (record { jsonrpc = "2.0"; method = method; params = json.object fields }))

  abbrev pub update_line : String → LwwValue → Bytes
  update_line key v = notification_line "state.update" (
      ("key", json.text key)
      ∷ ("value", json.text v.value)
      ∷ ("timestamp", json.number v.timestamp)
      ∷ ("node_id", json.text v.node_id)
      ∷ [])

  abbrev pub lag_line : ℕ → Bytes
  lag_line dropped = notification_line "state.lag" (("dropped", json.number dropped) ∷ [])

module _ {Value M W : Type 0} (json : SerdeJson Value) (dash : DashMap M PeerInfo)
    (sink : AsyncWrite W) where
  -- What an arm should write: the answer to a line that is not blank, an event whose key has the
  -- subscription's prefix, or the number of events that were missed.
  abbrev pub output : SystemTime → Instant → RpcHandler M → Option String → Arm → Bytes
  output now instant handler prefix (request (line text)) =
      if trim text == ""
      then []
      else answer_line (dispatch json dash now instant handler (trim text))
  output now instant handler prefix (request eof) = []
  output now instant handler prefix (request read_error) = []
  output now instant handler prefix (push (received ev)) =
      if is_wanted prefix ev.key then update_line json ev.key ev.value else []
  output now instant handler prefix (push (lagged n)) = lag_line json n
  output now instant handler prefix (push channel_closed) = []
  output now instant handler prefix cancelled = []

  written-write_line :
      (text : String) (w u : W)
      → write_line sink text w ≡ some u
      → sink.written u ≡ sink.written w ++ line_of text
  unfolding write_line
  written-write_line text w u h = elim (Option-cases (sink.write_all (as_bytes text) w)) [
    | inl e ↦ cc (rw e at h)
    | inr (v, e) ↦
        sink.written-write_all (10 ∷ []) v u (rw e at h)
        ∙ ap (λ bs. bs ++ 10 ∷ []) (sink.written-write_all (as_bytes text) w v e)
        ∙ append_assoc (sink.written w) (as_bytes text) (10 ∷ [])
  ]

  -- `c` goes on from a writer `w` that got `bytes`.
  abbrev Appended : W → Bytes → Outcome M W → Type 0
  Appended w bytes (running h c) = sink.written c.writer ≡ sink.written w ++ bytes
  Appended w bytes finished = Unit
  Appended w bytes (failed h) = Unit
  Appended w bytes panicked = Unit

  written_or_failed-Appended :
      (handler : RpcHandler M) (conn : Connection W) (text : String) (w : W)
      → Appended w
          (line_of text)
          (written_or_failed json dash sink handler conn (write_line sink text w))
  written_or_failed-Appended handler conn text w = elim (Option-cases (write_line sink text w)) [
    | inl e ↦ rw e tt
    | inr (u, e) ↦ rw e (written-write_line text w u e)
  ]

  dispatched-Appended :
      (conn : Connection W) (r : Option (RpcHandler M × DispatchResult))
      → Appended conn.writer (answer_line r) (dispatched json dash sink conn r)
  dispatched-Appended conn none = tt
  dispatched-Appended conn (some (h, response text)) =
      written_or_failed-Appended h conn text conn.writer
  dispatched-Appended conn (some (h, subscribed text receiver prefix)) =
      written_or_failed-Appended h
        (record conn { subscription = some receiver; sub_prefix = prefix }) text conn.writer
  dispatched-Appended conn (some (h, notification)) = sym (append-nil (sink.written conn.writer))

  notify-Appended :
      (handler : RpcHandler M) (conn : Connection W) (text : Option String)
      → Appended conn.writer (line_of_some text) (notify json dash sink handler conn text)
  notify-Appended handler conn none = tt
  notify-Appended handler conn (some text) =
      written_or_failed-Appended handler conn text conn.writer

  request-Appended :
      (now : SystemTime) (instant : Instant) (handler : RpcHandler M) (conn : Connection W)
      (r : ReadLine)
      → Appended conn.writer
          (output now instant handler conn.sub_prefix (request r))
          (handle_request json dash sink now instant handler conn r)
  unfolding handle_request
  request-Appended now instant handler conn eof = tt
  request-Appended now instant handler conn read_error = tt
  request-Appended now instant handler conn (line text) = elim (Bool-cases (trim text == "")) [
    | inl e ↦ rw e (sym (append-nil (sink.written conn.writer)))
    | inr e ↦ rw e (dispatched-Appended conn (dispatch json dash now instant handler (trim text)))
  ]

  event-Appended :
      (now : SystemTime) (instant : Instant) (handler : RpcHandler M) (conn : Connection W)
      (ev : StateEvent)
      → Appended conn.writer
          (output now instant handler conn.sub_prefix (push (received ev)))
          (handle_push json dash sink handler conn (event ev))
  unfolding handle_push state_update
  event-Appended now instant handler conn ev = elim (Bool-cases (matches conn.sub_prefix ev)) [
    | inl e ↦
        rw (e, sym (matches-eq-is_wanted conn.sub_prefix ev) ∙ e)
          (notify-Appended handler conn
            (json.notification_to_string (state_update json ev.key ev.value)))
    | inr e ↦
        rw (e, sym (matches-eq-is_wanted conn.sub_prefix ev) ∙ e)
          (sym (append-nil (sink.written conn.writer)))
  ]

  push-Appended :
      (now : SystemTime) (instant : Instant) (handler : RpcHandler M) (conn : Connection W)
      (sub : Option Receiver) (r : Recv) (o : Outcome M W)
      → Option.map (pushed json dash sink handler conn) (poll_subscription sub r) ≡ some o
      → Appended conn.writer (output now instant handler conn.sub_prefix (push r)) o
  unfolding poll_subscription handle_push lag
  push-Appended now instant handler conn none r o h = cc
  push-Appended now instant handler conn (some rx) (received ev) o h =
      subst (Appended conn.writer (output now instant handler conn.sub_prefix (push (received ev))))
        (some-injective _ o h)
        (event-Appended now instant handler (record conn { subscription = some (rx + 1) }) ev)
  push-Appended now instant handler conn (some rx) (lagged n) o h =
      subst (Appended conn.writer (output now instant handler conn.sub_prefix (push (lagged n))))
        (some-injective _ o h)
        (notify-Appended handler (record conn { subscription = some (rx + n) })
          (json.notification_to_string (lag json n)))
  push-Appended now instant handler conn (some rx) channel_closed o h =
      subst (Appended conn.writer []) (some-injective _ o h)
        (sym (append-nil (sink.written conn.writer)))

  -- A step that goes on has written what its arm calls for, and nothing else: the line of the answer
  -- of `dispatch` to a request that is not blank, the `state.update` line of an event whose key
  -- starts with the prefix, or the `state.lag` line with the number of events missed.
  pub step_writes :
      (now : SystemTime) (instant : Instant) (handler h : RpcHandler M) (conn c : Connection W)
      (arm : Arm)
      → step json dash sink now instant handler conn arm ≡ some (running h c)
      → sink.written c.writer
        ≡ sink.written conn.writer ++ output now instant handler conn.sub_prefix arm
  unfolding step
  step_writes now instant handler h conn c (request r) e =
      subst (Appended conn.writer (output now instant handler conn.sub_prefix (request r)))
        (some-injective _ (running h c) e) (request-Appended now instant handler conn r)
  step_writes now instant handler h conn c (push r) e =
      push-Appended now instant handler conn conn.subscription r (running h c) e
  step_writes now instant handler h conn c cancelled e = cc
