-- ===== src/Examples/Rpc.antt =====
-- The theorems on requests and connections with a small JSON library that knows two requests.
use mathlib.Core.Option
use mathlib.Core.Option.{some-injective}
use rust_high_throughput_sta.Common.{
  map, ℕ, ◌≡◌, refl, String, Bool, true, false, Option, none, some, List, [], ◌∷◌, ◌++◌ as append,
  arith, eq_iff, ◌==◌, length, if◌then◌else◌, Option-cases, inl, inr,
}
use rust_high_throughput_sta.Bincode.{Bytes}
use rust_high_throughput_sta.Common.Bytes.{as_bytes}
use rust_high_throughput_sta.State.Crdt.{since_epoch}
use rust_high_throughput_sta.State.Store.{StateEvent, unwrap_or}
use rust_high_throughput_sta.Rpc.Types.{RpcRequest}
use rust_high_throughput_sta.Rpc.Json
use rust_high_throughput_sta.Rpc.Json.{
  SerdeJson, Parsed, parsed, failed, field, HasDistinctNames, new_error,
}
use rust_high_throughput_sta.Rpc.Handler.{
  RpcHandler, response, dispatch, dispatch_request, call_method,
}
use rust_high_throughput_sta.Rpc.Handler.Errors.{set_missing}
use rust_high_throughput_sta.Rpc.Handler.Requests.{
  written, read_back, set-get, dispatch_request_reads,
}
use rust_high_throughput_sta.Rpc.Server.{
  Connection, push, received, step, poll_subscription, handle_push, write_line,
}
use rust_high_throughput_sta.Rpc.Server.Stream.{Pushes, event_lines, stream_events}
use rust_high_throughput_sta.Rpc.Server.Output.{step_writes, line_of}
use rust_high_throughput_sta.Examples.{Table, table, buffer}
use rust_high_throughput_sta.Examples.State.{older, replica}
use rust_high_throughput_sta.Examples.Gossip.{peer_table}

-- JSON values; an object is its lookup, and an array keeps its length.
pub data Value : Type 0 where
  nothing : Value
  string : String → Value
  integer : ℕ → Value
  items : ℕ → Value
  members : (String → Bool) → (String → Value) → Value

abbrev is_some : Option Value → Bool
is_some none = false
is_some (some v) = true

abbrev member : String → Value → Option Value
member k (members has at) = if has k then some (at k) else none
member k v = none

abbrev object_of : List (String × Value) → Value
object_of fields = members (λ k. is_some (field k fields)) (λ k. unwrap_or nothing (field k fields))

pub member-object_of :
    (k : String) (fields : List (String × Value)) → member k (object_of fields) ≡ field k fields
member-object_of k fields = elim (Option-cases (field k fields)) [
  | inl e ↦ rw e refl
  | inr (v, e) ↦ rw e refl
]

abbrev string_of : Value → Option String
string_of (string s) = some s
string_of v = none

abbrev integer_of : Value → Option ℕ
integer_of (integer n) = some n
integer_of v = none

abbrev call : String → Option Value → List (String × Value) → RpcRequest Value
call method id params = record {
  jsonrpc = "2.0";
  method = method;
  params = object_of params;
  id = id;
}

abbrev put : RpcRequest Value
put = call "state.set" (some (integer 1)) (("key", string "y") ∷ ("value", string "3") ∷ [])

abbrev query : RpcRequest Value
query = call "state.get" (some (integer 2)) (("key", string "y") ∷ [])

abbrev parse : String → Parsed (RpcRequest Value)
parse text =
    if text == "put"
    then parsed put
    else if text == "query"
    then parsed query
    else failed "expected value"

abbrev pub json : SerdeJson Value
json = record {
  null = nothing;
  text = string;
  number = integer;
  array = λ l. items (length l);
  object = object_of;
  get = member;
  as_str = string_of;
  as_u64 = integer_of;
  from_str = parse;
  response_to_string = λ r. some "response";
  error_to_string = λ e. some "error";
  notification_to_string = λ n. some n.method;
  get-object = λ k fields h. member-object_of k fields;
  get-null = λ k. refl;
  as_str-text = λ s. refl;
  as_u64-number = λ n h. refl;
}

abbrev handler : RpcHandler Table
handler = record { store = replica; peers = peer_table }

dispatch_request_reads_example :
    Option.map (λ r. r.0) (dispatch_request json table (since_epoch 9000) 0 handler query)
    ≡ some handler
dispatch_request_reads_example =
    dispatch_request_reads json table (since_epoch 9000) 0 handler query
      (λ h. absurd (ground (arith, eq_iff "state.get" "state.set")))

set-get_example :
    (reply : String) × (dispatch json table (since_epoch 9000) 0 handler "put"
      ≡ some (written json table 9000 handler "y" "3", response reply))
    × (dispatch json table (since_epoch 9001) 0 (written json table 9000 handler "y" "3") "query"
        ≡ some (
          written json table 9000 handler "y" "3",
          response (read_back json table 9000 handler "y" "3" (integer 2)),
        ))
set-get_example =
    set-get json table 9000 (since_epoch 9001) 0 0 handler "put" "query" "y" "3" put query
      (integer 1) (integer 2) refl refl refl refl refl refl refl refl refl

set_missing_example :
    call_method json table (since_epoch 9000) 0 handler "state.set" query.params (integer 1)
    ≡ some (handler, "error")
set_missing_example =
    set_missing json table (since_epoch 9000) 0 handler query.params (integer 1) "value" "error"
      refl refl

abbrev connection : Connection Bytes
connection = record { writer = []; subscription = some 0; sub_prefix = some "x" }

abbrev change : StateEvent
change = record { key = "x"; value = older }

step_writes_example : as_bytes "state.update\n" ≡ append [] (line_of "state.update")
unfolding step poll_subscription handle_push as_bytes write_line Json.state_update
step_writes_example =
    step_writes json table buffer (since_epoch 9000) 0 handler handler connection
      (record connection { writer = as_bytes "state.update\n"; subscription = some 1 })
      (push (received change)) refl

abbrev elsewhere : StateEvent
elsewhere = record { key = "y"; value = older }

stream_events_example :
    ((d : Connection Bytes) × Pushes json table buffer connection
        (map received (elsewhere ∷ change ∷ []))
        d
      × (d.subscription ≡ some 2))
    × ((d : Connection Bytes)
        → Pushes json table buffer connection (map received (elsewhere ∷ change ∷ [])) d
        → d.writer ≡ append [] (event_lines json (some "x") (elsewhere ∷ change ∷ [])))
stream_events_example =
    stream_events json table buffer (since_epoch 9000) 0 handler connection 0
      (elsewhere ∷ change ∷ []) (λ bytes w e. cc) (λ n e. cc) refl
