-- ===== src/Rpc/Server/Stream.antt =====
-- src/rpc/server.rs: the pushes of a subscription, one after the other.
use mathlib.Core.List.{append_assoc, append-nil}
use rust_high_throughput_sta.Common.{
  ◌+◌, ap, length, arith, String, ◌≡◌, ◌≢◌, inl, inr, refl, sym, ◌∙◌, Option, none, some, List, [],
  ◌∷◌, ◌++◌, map, if◌then◌else◌, Bool-cases, Option-cases,
}
use rust_high_throughput_sta.Common.Bytes.{as_bytes}
use rust_high_throughput_sta.State.Crdt.{SystemTime}
use rust_high_throughput_sta.State.Store.{StateEvent, Receiver}
use rust_high_throughput_sta.Bincode.{Bytes}
use rust_high_throughput_sta.Gossip.Peer.{PeerInfo, Instant}
use rust_high_throughput_sta.Gossip.PeerMap.{DashMap}
use rust_high_throughput_sta.Gossip.Protocol.{AsyncWrite}
use rust_high_throughput_sta.Rpc.Types.{RpcNotification}
use rust_high_throughput_sta.Rpc.Json.{SerdeJson, state_update}
use rust_high_throughput_sta.Rpc.Handler.{RpcHandler}
use rust_high_throughput_sta.Rpc.Server.{
  Recv, received, push, Connection, running, matches, step, write_line, poll_subscription,
  handle_push,
}
use rust_high_throughput_sta.Rpc.Server.Output.{is_wanted, update_line, step_writes}
use rust_high_throughput_sta.Rpc.Server.Subscription.{push_keeps_subscription}

module _ {Value : Type 0} (json : SerdeJson Value) where
  -- The lines of the events under a prefix.
  abbrev pub event_lines : Option String → List StateEvent → Bytes
  event_lines prefix [] = []
  event_lines prefix (ev ∷ events) =
      (if is_wanted prefix ev.key then update_line json ev.key ev.value else [])
      ++ event_lines prefix events

module _ {Value M W : Type 0} (json : SerdeJson Value) (dash : DashMap M PeerInfo)
    (sink : AsyncWrite W) where
  -- The loop of a connection takes these pushes, one after the other, and goes on. The clocks and
  -- the handler, which other tasks share, are as they are at each of them.
  pub data Pushes : Connection W → List Recv → Connection W → Type 0 where
    no_more : {c : Connection W} → Pushes c [] c
    then_pushes :
        (now : SystemTime) (instant : Instant) (handler h : RpcHandler M) {c e : Connection W}
        (d : Connection W) {r : Recv} {rs : List Recv}
        → step json dash sink now instant handler c (push r) ≡ some (running h d)
        → Pushes d rs e
        → Pushes c (r ∷ rs) e

  -- What a connection writes while it goes on is what the events call for, in their order.
  Pushes-written :
      (events : List StateEvent) {c d : Connection W}
      → Pushes c (map received events) d
      → sink.written d.writer ≡ sink.written c.writer ++ event_lines json c.sub_prefix events
  Pushes-written [] {c} no_more = sym (append-nil (sink.written c.writer))
  Pushes-written (ev ∷ events) {c} (then_pushes now instant handler h d st rest) =
      let (kept, still, same) =
        push_keeps_subscription json dash sink now instant handler h c d (received ev) st in
      Pushes-written events rest
      ∙ rw (step_writes json dash sink now instant handler h c d (push (received ev)) st, same)
          (append_assoc (sink.written c.writer) _ (event_lines json c.sub_prefix events))

  write_line_takes :
      (text : String) (w : W)
      → ((bytes : Bytes) (w : W) → sink.write_all bytes w ≢ none)
      → (u : W) × (write_line sink text w ≡ some u)
  unfolding write_line
  write_line_takes text w takes = elim (Option-cases (sink.write_all (as_bytes text) w)) [
    | inl e ↦ absurd (takes (as_bytes text) w e)
    | inr (v, e) ↦ elim (Option-cases (sink.write_all (10 ∷ []) v)) [
      | inl f ↦ absurd (takes (10 ∷ []) v f)
      | inr (u, f) ↦ (u, rw (e, f) refl)
    ]
  ]

  -- An event is taken by a connection that is subscribed, and the connection goes on.
  step_goes_on :
      (now : SystemTime) (instant : Instant) (handler : RpcHandler M) (c : Connection W)
      (rx : Receiver) (ev : StateEvent)
      → ((bytes : Bytes) (w : W) → sink.write_all bytes w ≢ none)
      → ((n : RpcNotification Value) → json.notification_to_string n ≢ none)
      → c.subscription ≡ some rx
      → (d : Connection W) × (step json dash sink now instant handler c (push (received ev))
          ≡ some (running handler d))
        × (d.subscription ≡ some (rx + 1))
        × (d.sub_prefix ≡ c.sub_prefix)
  unfolding step poll_subscription handle_push
  step_goes_on now instant handler c rx ev takes prints e =
      elim (Bool-cases (matches c.sub_prefix ev)) [
        | inr f ↦ (record c { subscription = some (rx + 1) }, rw (e, f) refl, refl, refl)
        | inl f ↦
            elim (Option-cases (json.notification_to_string (state_update json ev.key ev.value))) [
              | inl g ↦ absurd (prints (state_update json ev.key ev.value) g)
              | inr (text, g) ↦
                  let (u, t) = write_line_takes text c.writer takes in
                  (
                    record c { subscription = some (rx + 1); writer = u },
                    rw (e, f, g, t) refl,
                    refl,
                    refl,
                  )
            ]
      ]

  events_taken :
      (now : SystemTime) (instant : Instant) (handler : RpcHandler M) (rx : Receiver)
      (events : List StateEvent) (c : Connection W)
      → ((bytes : Bytes) (w : W) → sink.write_all bytes w ≢ none)
      → ((n : RpcNotification Value) → json.notification_to_string n ≢ none)
      → c.subscription ≡ some rx
      → (d : Connection W) × Pushes c (map received events) d
        × (d.subscription ≡ some (rx + length events))
  events_taken now instant handler rx [] c takes prints e = (c, no_more, e ∙ ap some (omega arith))
  events_taken now instant handler rx (ev ∷ events) c takes prints e =
      let (d, st, still, same) = step_goes_on now instant handler c rx ev takes prints e in
      let (last, rest, kept) =
        events_taken now instant handler (rx + 1) events d takes prints still in
      (last, then_pushes now instant handler handler d st rest, kept ∙ ap some (omega arith))

  -- A subscribed connection whose socket takes everything and whose notifications all have a text
  -- can take any sequence of events, and its receiver is then that many events further; and every
  -- connection that took them and goes on, with whatever clocks and handlers, has written the
  -- `state.update` lines of those whose key starts with the prefix, in their order, and nothing
  -- else.
  pub stream_events :
      (now : SystemTime) (instant : Instant) (handler : RpcHandler M) (c : Connection W)
      (rx : Receiver) (events : List StateEvent)
      → ((bytes : Bytes) (w : W) → sink.write_all bytes w ≢ none)
      → ((n : RpcNotification Value) → json.notification_to_string n ≢ none)
      → c.subscription ≡ some rx
      → ((d : Connection W) × Pushes c (map received events) d
          × (d.subscription ≡ some (rx + length events)))
        × ((d : Connection W)
            → Pushes c (map received events) d
            → sink.written d.writer ≡ sink.written c.writer ++ event_lines json c.sub_prefix events)
  stream_events now instant handler c rx events takes prints e =
      (events_taken now instant handler rx events c takes prints e, λ d r. Pushes-written events r)
