-- ===== src/Rpc/Handler/Requests.antt =====
-- What a client sees of its requests.
use mathlib.Core.Option
use mathlib.Core.Option.{some-injective}
use Prim.Native.String.{◌++◌}
use rust_high_throughput_sta.Common.{
  ℕ, String, ◌≡◌, ◌≢◌, inl, inr, refl, false, Option, none, some, ◌==◌, arith, eq_iff, Bool-cases,
}
use rust_high_throughput_sta.State.Crdt.{LwwValue, SystemTime, since_epoch}
use rust_high_throughput_sta.State.Store.{lookup, winner_of, unwrap_or}
use rust_high_throughput_sta.State.Store.Writes.{
  after_set, stamped_value, set-after_set, lookup-after_set_self,
}
use rust_high_throughput_sta.Gossip.Peer.{PeerInfo, Instant}
use rust_high_throughput_sta.Gossip.PeerMap.{DashMap}
use rust_high_throughput_sta.Rpc.Types.{RpcRequest, invalid_params}
use rust_high_throughput_sta.Rpc.Json
use rust_high_throughput_sta.Rpc.Json.{SerdeJson, parsed, failed, new_error, entry_value}
use rust_high_throughput_sta.Rpc.Handler.{
  DispatchResult, response, notification, RpcHandler, given, missing, and_then, answer,
  response_json, error_json, required_str, handle_state_get, handle_state_set, set_value,
  call_method, dispatch_request, dispatch,
}

is_not_subscribe :
    (method : String) → (method == "state.subscribe") ≡ false → method ≢ "state.subscribe"
is_not_subscribe method h = ground (arith, eq_iff method "state.subscribe")

module _ {Value M : Type 0} (json : SerdeJson Value) (dash : DashMap M PeerInfo) where
  -- A request whose method is not `state.set` changes nothing and does not panic.
  pub dispatch_request_reads :
      (now : SystemTime) (instant : Instant) (self : RpcHandler M) (req : RpcRequest Value)
      → req.method ≢ "state.set"
      → Option.map (λ r. r.0) (dispatch_request json dash now instant self req) ≡ some self
  unfolding dispatch_request call_method
  dispatch_request_reads now instant self req h = ground (arith, eq_iff req.method "state.set")

  silent :
      (o : Option Value) (c : Option (RpcHandler M × String)) (h : RpcHandler M)
      (r : DispatchResult)
      → o ≡ none
      → Option.map (answer json dash o) c ≡ some (h, r)
      → r ≡ notification
  silent none none h r n e = cc
  silent none (some (t, reply)) h r n e = ground arith
  silent (some id) c h r n e = cc

  -- A request without an id, other than `state.subscribe`, is never answered.
  dispatch_request_notification :
      (now : SystemTime) (instant : Instant) (self h : RpcHandler M) (req : RpcRequest Value)
      (r : DispatchResult)
      → req.id ≡ none
      → req.method ≢ "state.subscribe"
      → dispatch_request json dash now instant self req ≡ some (h, r)
      → r ≡ notification
  unfolding dispatch_request
  dispatch_request_notification now instant self h req r anonymous other e =
      elim (Bool-cases (req.method == "state.subscribe")) [
        | inl same ↦ absurd (other ((eq_iff req.method "state.subscribe").0 same))
        | inr ne ↦
            silent req.id
              (call_method json dash now instant self req.method req.params
                (unwrap_or json.null req.id))
              h r anonymous (rw ne at e)
      ]

  pub required_given :
      (params id : Value) (name value : String)
      → and_then (json.get name params) json.as_str ≡ some value
      → required_str json dash params name id ≡ given value
  unfolding required_str
  required_given params id name value h = rw h

  pub required_missing :
      (params id : Value) (name : String)
      → and_then (json.get name params) json.as_str ≡ none
      → required_str json dash params name id
        ≡ missing (
            error_json json dash
              (new_error json invalid_params ("Missing required param: \"" ++ (name ++ "\"")) id))
  unfolding required_str
  required_missing params id name h = rw h

  -- The handler after a write of `key`, and the response to a later read of it.
  abbrev pub written : ℕ → RpcHandler M → String → String → RpcHandler M
  written nanos self key value = record self {
    store = after_set key (stamped_value nanos value self.store) self.store;
  }

  abbrev pub read_back : ℕ → RpcHandler M → String → String → Value → String
  read_back nanos self key value id = response_json json dash (
      Json.ok json
        (entry_value json key
          (winner_of (lookup key self.store) (stamped_value nanos value self.store)))
        id)

  set_value_returns :
      (nanos : ℕ) (self : RpcHandler M) (key value : String) (id : Value)
      → Option.map (λ r. r.0) (set_value json dash (since_epoch nanos) self key value id)
        ≡ some (written nanos self key value)
  unfolding set_value
  set_value_returns nanos self key value id =
      ground (arith, set-after_set nanos key value self.store)

  call_set :
      (nanos : ℕ) (instant : Instant) (self : RpcHandler M) (params id : Value) (key value : String)
      → and_then (json.get "key" params) json.as_str ≡ some key
      → and_then (json.get "value" params) json.as_str ≡ some value
      → Option.map
          (λ r. r.0)
          (call_method json dash (since_epoch nanos) instant self "state.set" params id)
        ≡ some (written nanos self key value)
  unfolding call_method handle_state_set
  call_set nanos instant self params id key value hk hv = ground (
    arith,
    required_given params id "key" key hk,
    required_given params id "value" value hv,
    set_value_returns nanos self key value id,
  )

  call_get :
      (now : SystemTime) (instant : Instant) (self : RpcHandler M) (params id : Value)
      (key : String) (v : LwwValue)
      → and_then (json.get "key" params) json.as_str ≡ some key
      → lookup key self.store ≡ some v
      → call_method json dash now instant self "state.get" params id
        ≡ some (self, response_json json dash (Json.ok json (entry_value json key v) id))
  unfolding call_method handle_state_get
  call_get now instant self params id key v hk held =
      ground (arith, required_given params id "key" key hk)

  dispatch_known :
      (now : SystemTime) (instant : Instant) (self h : RpcHandler M) (raw reply : String)
      (req : RpcRequest Value) (id : Value)
      → json.from_str raw ≡ parsed req
      → req.id ≡ some id
      → req.method ≢ "state.subscribe"
      → call_method json dash now instant self req.method req.params id ≡ some (h, reply)
      → dispatch json dash now instant self raw ≡ some (h, response reply)
  unfolding dispatch dispatch_request
  dispatch_known now instant self h raw reply req id line named other called =
      ground (arith, eq_iff req.method "state.subscribe")

  with_reply :
      (c : Option (RpcHandler M × String)) (h : RpcHandler M)
      → Option.map (λ r. r.0) c ≡ some h
      → (reply : String) × (c ≡ some (h, reply))
  with_reply none h e = cc
  with_reply (some (t, reply)) h e = (reply, cc)

  -- A line that sets a key and then a line that gets it, both with ids, with a clock at or after
  -- the epoch: the write is made and answered, and the answer to the second line is the value that
  -- won, the new one or a newer one that was there.
  pub set-get :
      (nanos : ℕ) (now : SystemTime) (instant later : Instant) (self : RpcHandler M)
      (line line' key value : String) (put query : RpcRequest Value) (id id' : Value)
      → json.from_str line ≡ parsed put
      → put.method ≡ "state.set"
      → put.id ≡ some id
      → and_then (json.get "key" put.params) json.as_str ≡ some key
      → and_then (json.get "value" put.params) json.as_str ≡ some value
      → json.from_str line' ≡ parsed query
      → query.method ≡ "state.get"
      → query.id ≡ some id'
      → and_then (json.get "key" query.params) json.as_str ≡ some key
      → (reply : String) × (dispatch json dash (since_epoch nanos) instant self line
          ≡ some (written nanos self key value, response reply))
        × (dispatch json dash now later (written nanos self key value) line'
            ≡ some (written nanos self key value, response (read_back nanos self key value id')))
  set-get nanos now instant later self line line' key value put query id id' hl hm hi hk hv gl gm gi
        gk =
      let (reply, called) =
        with_reply
          (call_method json dash (since_epoch nanos) instant self "state.set" put.params id)
          (written nanos self key value)
          (call_set nanos instant self put.params id key value hk hv) in
      (
        reply,
        dispatch_known (since_epoch nanos) instant self (written nanos self key value) line reply
            put id hl hi (rw hm (is_not_subscribe "state.set" refl)) (rw hm called),
        dispatch_known now later (written nanos self key value) (written nanos self key value) line'
            (read_back nanos self key value id') query id' gl gi
            (rw gm (is_not_subscribe "state.get" refl))
            (rw gm (
              call_get now later (written nanos self key value) query.params id' key
                (winner_of (lookup key self.store) (stamped_value nanos value self.store)) gk
                (lookup-after_set_self key (stamped_value nanos value self.store) self.store))),
      )
