-- ===== src/Rpc/Handler.antt =====
-- src/rpc/handler.rs: the dispatch of a request against the store and the peer table. Reading the
-- clocks is explicit: `set` takes the system's, `node.peers` the monotonic one. `none` is the panic
-- of the system clock before the epoch.
pub mod Requests
pub mod Errors
pub mod Effects
use Prim.Native.String.{◌++◌}
use mathlib.Core.Option
use rust_high_throughput_sta.Common.{
  ℕ, String, Bool, Option, none, some, List, [], ◌∷◌, map, length, ◌==◌, if◌then◌else◌,
}
use rust_high_throughput_sta.State.Crdt.{LwwValue, SystemTime}
use rust_high_throughput_sta.State.Store.{
  StateStore, StateDelta, Receiver, lookup, set, snapshot, delta_since, len, max_timestamp,
  subscribe, unwrap_or,
}
use rust_high_throughput_sta.Gossip.Peer.{PeerInfo, Instant, seconds_since}
use rust_high_throughput_sta.Gossip.PeerMap.{DashMap}
use rust_high_throughput_sta.Rpc.Types.{
  ℤ, RpcRequest, RpcResponse, RpcError, parse_error, method_not_found, invalid_params,
}
use rust_high_throughput_sta.Rpc.Json
use rust_high_throughput_sta.Rpc.Json.{SerdeJson, parsed, failed, new_error, entry_value}

-- What the server does after a request.
pub data DispatchResult : Type 0 where
  response : String → DispatchResult
  subscribed : String → Receiver → Option String → DispatchResult
  notification : DispatchResult

pub record RpcHandler (M : Type 0) : Type 0 where
  pub store : StateStore
  pub peers : M

-- The response of a handler that cannot be serialized.
abbrev pub serialization_error : String
serialization_error =
    "{\"jsonrpc\":\"2.0\",\"error\":{\"code\":-32603,\"message\":\"Internal serialization error\"},\"id\":null}"

-- A required parameter, or the response that it is missing.
pub data Required : Type 0 where
  given : String → Required
  missing : String → Required

abbrev pub and_then {ℓ κ} : {A : Type ℓ} {B : Type κ} → Option A → (A → Option B) → Option B
and_then none f = none
and_then (some a) f = f a

abbrev pub or_else_missing : Option String → String → Required
or_else_missing none error = missing error
or_else_missing (some s) error = given s

module _ {Value M : Type 0} (json : SerdeJson Value) (dash : DashMap M PeerInfo) where
  open json use {null, text, number, array, object, get, as_str, as_u64, from_str}

  -- `to_json` of a response and of an error.
  unfoldable pub response_json : RpcResponse Value → String
  response_json r = unwrap_or serialization_error (json.response_to_string r)

  unfoldable pub error_json : RpcError Value → String
  error_json e = unwrap_or serialization_error (json.error_to_string e)

  unfoldable pub required_str : Value → String → Value → Required
  unfolding error_json
  required_str params field id = or_else_missing (and_then (get field params) as_str) (
      error_json
        (new_error json invalid_params ("Missing required param: \"" ++ (field ++ "\"")) id))

  unfoldable pub handle_state_get : RpcHandler M → Value → Value → String
  unfolding required_str response_json
  handle_state_get self params id = elim (required_str params "key" id) [
    | missing e ↦ e
    | given key ↦ response_json (
        Json.ok json
          (elim (lookup key self.store) [ none ↦ null | some v ↦ entry_value json key v ]) id)
  ]

  -- The write of `state.set`, and its response.
  unfoldable pub set_value :
      SystemTime → RpcHandler M → String → String → Value → Option (RpcHandler M × String)
  unfolding response_json
  set_value now self key value id = elim (set now key value self.store) [
    | none ↦ none
    | some (store, lww) ↦ some (
      record self { store = store },
      response_json (
          Json.ok json
            (object (("timestamp", number lww.timestamp) ∷ ("node_id", text lww.node_id) ∷ [])) id),
    )
  ]

  unfoldable pub handle_state_set :
      SystemTime → RpcHandler M → Value → Value → Option (RpcHandler M × String)
  unfolding required_str set_value
  handle_state_set now self params id = elim (required_str params "key" id) [
    | missing e ↦ some (self, e)
    | given key ↦ elim (required_str params "value" id) [
      | missing e ↦ some (self, e)
      | given value ↦ set_value now self key value id
    ]
  ]

  abbrev pub text_or_null : Option String → Value
  text_or_null none = null
  text_or_null (some s) = text s

  unfoldable pub handle_subscribe : RpcHandler M → Value → Value → DispatchResult
  unfolding response_json
  handle_subscribe self params id =
      let prefix = and_then (get "prefix" params) as_str in
      subscribed
        (response_json (
          Json.ok json
            (object (("status", text "subscribed") ∷ ("prefix", text_or_null prefix) ∷ [])) id))
        (subscribe self.store) prefix

  unfoldable pub handle_state_keys : RpcHandler M → Value → String
  unfolding response_json
  handle_state_keys self id =
      let keys = map (λ e. e.0) (snapshot self.store) in
      response_json (
        Json.ok json
          (object (("keys", array (map text keys)) ∷ ("count", number (length keys)) ∷ [])) id)

  unfoldable pub peer_value : Instant → String × PeerInfo → Value
  peer_value now (id, p) = object (
      ("id", text id)
      ∷ ("addr", text p.gossip_addr)
      ∷ ("last_seen_secs", number (seconds_since now p))
      ∷ ("exchange_count", number p.exchange_count)
      ∷ ("last_sync_ts", number p.last_sync_ts)
      ∷ [])

  unfoldable pub handle_node_peers : Instant → RpcHandler M → Value → String
  unfolding response_json peer_value
  handle_node_peers now self id =
      let peers = map (peer_value now) (dash.iter self.peers) in
      response_json
        (Json.ok json (object (("peers", array peers) ∷ ("count", number (length peers)) ∷ [])) id)

  unfoldable pub handle_sync_status : RpcHandler M → Value → String
  unfolding response_json
  handle_sync_status self id = response_json (
      Json.ok json
        (object (
          ("node_id", text self.store.node_id)
          ∷ ("state_size", number (len self.store))
          ∷ ("max_timestamp", number (max_timestamp self.store))
          ∷ ("peer_count", number (dash.len self.peers))
          ∷ []))
        id)

  unfoldable pub handle_sync_delta : RpcHandler M → Value → Value → String
  unfolding response_json
  handle_sync_delta self params id =
      let since = unwrap_or 0 (and_then (get "since" params) as_u64) in
      let entries =
        map (λ (e : String × LwwValue). entry_value json e.0 e.1) (delta_since since self.store) in
      response_json (
        Json.ok json (object (("entries", array entries) ∷ ("count", number (length entries)) ∷ []))
          id)

  -- The method table: the handler afterwards and the response text.
  unfoldable pub call_method :
      SystemTime → Instant → RpcHandler M → String → Value → Value → Option (RpcHandler M × String)
  unfolding handle_state_get handle_state_set handle_state_keys handle_node_peers handle_sync_status
      handle_sync_delta error_json
  call_method now instant self method params id =
      if method == "state.get"
      then some (self, handle_state_get self params id)
      else if method == "state.set"
      then handle_state_set now self params id
      else if method == "state.keys"
      then some (self, handle_state_keys self id)
      else if method == "node.peers"
      then some (self, handle_node_peers instant self id)
      else if method == "sync.status"
      then some (self, handle_sync_status self id)
      else if method == "sync.delta"
      then some (self, handle_sync_delta self params id)
      else some
          (self, error_json (new_error json method_not_found ("Method not found: " ++ method) id))

  -- A request without an id gets no response.
  abbrev pub answer : Option Value → RpcHandler M × String → RpcHandler M × DispatchResult
  answer none (self, text) = (self, notification)
  answer (some id) (self, text) = (self, response text)

  unfoldable pub dispatch_request :
      SystemTime
      → Instant
      → RpcHandler M
      → RpcRequest Value
      → Option (RpcHandler M × DispatchResult)
  unfolding handle_subscribe call_method
  dispatch_request now instant self req =
      let id = unwrap_or null req.id in
      if req.method == "state.subscribe"
      then some (self, handle_subscribe self req.params id)
      else Option.map (answer req.id) (call_method now instant self req.method req.params id)

  unfoldable pub dispatch :
      SystemTime → Instant → RpcHandler M → String → Option (RpcHandler M × DispatchResult)
  unfolding dispatch_request error_json
  dispatch now instant self raw = elim (from_str raw) [
    | failed e ↦ some (self, response (error_json (new_error json parse_error e null)))
    | parsed req ↦ dispatch_request now instant self req
  ]
