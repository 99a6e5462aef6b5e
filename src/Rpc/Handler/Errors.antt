-- ===== src/Rpc/Handler/Errors.antt =====
-- The requests that are answered with an error.

use mathlib.Core.Option.{some-injective}
use Prim.Native.String.{◌++◌}
use rust_high_throughput_sta.Common.{
  String, ◌≡◌, inl, inr, ap, ◌∙◌, false, Option, none, some, List, [], ◌∷◌, ◌==◌, arith, eq_iff,
  contains, Option-cases,
}
use rust_high_throughput_sta.State.Crdt.{SystemTime}
use rust_high_throughput_sta.State.Store.{unwrap_or}
use rust_high_throughput_sta.Gossip.Peer.{PeerInfo, Instant}
use rust_high_throughput_sta.Gossip.PeerMap.{DashMap}
use rust_high_throughput_sta.Rpc.Types.{RpcError, negsuc, parse_error, method_not_found}
use rust_high_throughput_sta.Rpc.Json.{SerdeJson, failed, new_error}
use rust_high_throughput_sta.Rpc.Handler.{
  response, RpcHandler, and_then, serialization_error, error_json, handle_state_set, call_method,
  dispatch,
}
use rust_high_throughput_sta.Rpc.Handler.Requests.{required_given, required_missing}

eq_swap : (s t : String) → (s == t) ≡ (t == s)
eq_swap s t = ground (arith, eq_iff s t, eq_iff t s)

module _ {Value M : Type 0} (json : SerdeJson Value) (dash : DashMap M PeerInfo) where
  abbrev pub methods : List String
  methods =
      "state.get" ∷ "state.set" ∷ "state.keys" ∷ "node.peers" ∷ "sync.status" ∷ "sync.delta" ∷ []

  -- A line that is no request changes nothing and is answered with code -32700 and a null id; a
  -- method that is not in the table changes nothing and is answered with code -32601.
  dispatch_errors :
      (now : SystemTime) (instant : Instant) (self : RpcHandler M) (line e : String)
      (method : String) (params id : Value)
      → json.from_str line ≡ failed e
      → contains methods method ≡ false
      → (dispatch json dash now instant self line
          ≡ some (self, response (error_json json dash (new_error json parse_error e json.null))))
        × (call_method json dash now instant self method params id
            ≡ some (
              self,
              error_json json dash
                  (new_error json method_not_found ("Method not found: " ++ method) id),
            ))
  unfolding dispatch call_method
  dispatch_errors now instant self line e method params id bad unknown = (
    ground arith,
    ground (
      arith,
      eq_swap "state.get" method,
      eq_swap "state.set" method,
      eq_swap "state.keys" method,
      eq_swap "node.peers" method,
      eq_swap "sync.status" method,
      eq_swap "sync.delta" method,
    ),
  )

  -- The first parameter of `state.set` that is missing or no text.
  abbrev pub missing_param : Value → Option String
  missing_param params = elim (and_then (json.get "key" params) json.as_str) [
    | none ↦ some "key"
    | some key ↦ elim (and_then (json.get "value" params) json.as_str) [
      | none ↦ some "value"
      | some value ↦ none
    ]
  ]

  -- The answer to a write that lacks a parameter, written out: -32602 is `negsuc 32601`.
  abbrev pub missing_error : String → Value → RpcError Value
  missing_error name id = record {
    jsonrpc = "2.0";
    error = record {
      code = negsuc 32601;
      message = "Missing required param: \"" ++ (name ++ "\"");
      data_value = none;
    };
    id = id;
  }

  refused :
      (now : SystemTime) (instant : Instant) (self : RpcHandler M) (params id : Value)
      (name : String)
      → missing_param params ≡ some name
      → call_method json dash now instant self "state.set" params id
        ≡ some (self, error_json json dash (missing_error name id))
  unfolding call_method handle_state_set new_error
  refused now instant self params id name h =
      elim (Option-cases (and_then (json.get "key" params) json.as_str)) [
        | inl e ↦ called_key e ∙ ap refusal (some-injective "key" name (ground arith))
        | inr (key, e) ↦ elim (Option-cases (and_then (json.get "value" params) json.as_str)) [
          | inl f ↦ called_value key e f ∙ ap refusal (some-injective "value" name (ground arith))
          | inr (value, f) ↦ absurd (ground arith)
        ]
      ]
    where
      refusal : String → Option (RpcHandler M × String)
      refusal n = some (self, error_json json dash (missing_error n id))

      called_key :
          and_then (json.get "key" params) json.as_str ≡ none
          → call_method json dash now instant self "state.set" params id ≡ refusal "key"
      called_key e = ground (arith, required_missing json dash params id "key" e)

      called_value :
          (key : String)
          → and_then (json.get "key" params) json.as_str ≡ some key
          → and_then (json.get "value" params) json.as_str ≡ none
          → call_method json dash now instant self "state.set" params id ≡ refusal "value"
      called_value key e f = ground (
        arith,
        required_given json dash params id "key" key e,
        required_missing json dash params id "value" f,
      )

  -- A write that lacks its key or its value changes nothing and is answered with the JSON text of an
  -- error that has code -32602, the name of the first parameter that is missing in its message, no
  -- data, and the id of the request, if that error has a JSON text.
  pub set_missing :
      (now : SystemTime) (instant : Instant) (self : RpcHandler M) (params id : Value)
      (name text : String)
      → missing_param params ≡ some name
      → json.error_to_string (missing_error name id) ≡ some text
      → call_method json dash now instant self "state.set" params id ≡ some (self, text)
  unfolding error_json
  set_missing now instant self params id name text h printed =
      refused now instant self params id name h
      ∙ (λ i. some (self, unwrap_or serialization_error (printed i)))
