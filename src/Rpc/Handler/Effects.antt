-- ===== src/Rpc/Handler/Effects.antt =====
-- What a request can change.
use mathlib.Core.Option
use mathlib.Core.Option.{some-injective}
use mathlib.Core.Path.{subst}
use rust_high_throughput_sta.Common.{
  String, ◌≡◌, refl, sym, false, Option, none, some, arith, ◌==◌, eq_iff, Bool-cases, Option-cases,
  inl, inr,
}
use rust_high_throughput_sta.State.Crdt.{SystemTime}
use rust_high_throughput_sta.State.Store.{set, unwrap_or}
use rust_high_throughput_sta.State.Store.Effect.{Effect, kept, wrote}
use rust_high_throughput_sta.Gossip.Peer.{PeerInfo, Instant}
use rust_high_throughput_sta.Gossip.PeerMap.{DashMap}
use rust_high_throughput_sta.Rpc.Types.{RpcRequest, parse_error}
use rust_high_throughput_sta.Rpc.Json.{SerdeJson, parsed, failed, new_error}
use rust_high_throughput_sta.Rpc.Handler.{
  DispatchResult, RpcHandler, given, missing, required_str, set_value, handle_state_set,
  call_method, answer, dispatch_request, dispatch, response, error_json,
}

-- The store changes by an effect, and the peer table not at all.
pub record Changes {M : Type 0} (self h : RpcHandler M) : Type 0 where
  pub effect : Effect self.store h.store
  pub same_peers : h.peers ≡ self.peers

module _ {Value M : Type 0} (json : SerdeJson Value) (dash : DashMap M PeerInfo) where
  pub Changes-refl : (self : RpcHandler M) → Changes self self
  Changes-refl self = record { effect = kept; same_peers = refl }

  -- Of a result, if there is one.
  abbrev ChangesBy : {A : Type 0} → RpcHandler M → Option (RpcHandler M × A) → Type 0
  ChangesBy self none = Unit
  ChangesBy self (some (h, a)) = Changes self h

  set_value-Changes :
      (now : SystemTime) (self : RpcHandler M) (key value : String) (id : Value)
      → ChangesBy self (set_value json dash now self key value id)
  unfolding set_value
  set_value-Changes now self key value id = elim (Option-cases (set now key value self.store)) [
    | inl e ↦ rw (e, ChangesBy, set_value) tt
    | inr ((t, winner), e) ↦
        rw (e, ChangesBy, set_value)
          (record { effect = wrote now key value t winner e; same_peers = refl })
  ]

  state_set-Changes :
      (now : SystemTime) (self : RpcHandler M) (params id : Value)
      → ChangesBy self (handle_state_set json dash now self params id)
  unfolding handle_state_set
  state_set-Changes now self params id =
      elim (required_str json dash params "key" id)
        as (λ r. ChangesBy self (elim r [
          | missing e ↦ some (self, e)
          | given key ↦ elim (required_str json dash params "value" id) [
            | missing e ↦ some (self, e)
            | given value ↦ set_value json dash now self key value id
          ]
        ])) [
          | missing e ↦ Changes-refl self
          | given key ↦
              elim (required_str json dash params "value" id)
                as (λ r. ChangesBy self (elim r [
                  | missing e ↦ some (self, e)
                  | given value ↦ set_value json dash now self key value id
                ])) [
                  | missing e ↦ Changes-refl self
                  | given value ↦ set_value-Changes now self key value id
                ]
        ]

  unchanged-Changes :
      {A : Type 0} (self : RpcHandler M) (c : Option (RpcHandler M × A))
      → Option.map (λ r. r.0) c ≡ some self
      → ChangesBy self c
  unchanged-Changes self none e = tt
  unchanged-Changes self (some (h, a)) e =
      subst (Changes self) (sym (some-injective h self e)) (Changes-refl self)

  call_method_reads :
      (now : SystemTime) (instant : Instant) (self : RpcHandler M) (method : String)
      (params id : Value)
      → (method == "state.set") ≡ false
      → Option.map (λ r. r.0) (call_method json dash now instant self method params id) ≡ some self
  unfolding call_method
  call_method_reads now instant self method params id other = ground arith

  call_method-Changes :
      (now : SystemTime) (instant : Instant) (self : RpcHandler M) (method : String)
      (params id : Value)
      → ChangesBy self (call_method json dash now instant self method params id)
  call_method-Changes now instant self method params id =
      elim (Bool-cases (method == "state.set")) [
        | inl e ↦
            subst (λ m. ChangesBy self (call_method json dash now instant self m params id))
              (sym ((eq_iff method "state.set").0 e))
              (unfold call_method in state_set-Changes now self params id)
        | inr e ↦ unchanged-Changes self _ (call_method_reads now instant self method params id e)
      ]

  answer-Changes :
      (self : RpcHandler M) (id : Option Value) (c : Option (RpcHandler M × String))
      → ChangesBy self c
      → ChangesBy self (Option.map (answer json dash id) c)
  answer-Changes self id none h = tt
  answer-Changes self none (some (t, reply)) h = h
  answer-Changes self (some id) (some (t, reply)) h = h

  dispatch_request-Changes :
      (now : SystemTime) (instant : Instant) (self : RpcHandler M) (req : RpcRequest Value)
      → ChangesBy self (dispatch_request json dash now instant self req)
  unfolding dispatch_request
  dispatch_request-Changes now instant self req =
      elim (Bool-cases (req.method == "state.subscribe")) [
        | inl e ↦ rw e (Changes-refl self)
        | inr e ↦ rw e (
            answer-Changes self req.id _ (
              call_method-Changes now instant self req.method req.params
                (unwrap_or json.null req.id)))
      ]

  -- The result of a line that was dispatched comes with the handler changed by an effect.
  pub dispatch-Changes :
      (now : SystemTime) (instant : Instant) (self h : RpcHandler M) (raw : String)
      (r : DispatchResult)
      → dispatch json dash now instant self raw ≡ some (h, r)
      → Changes self h
  unfolding dispatch
  dispatch-Changes now instant self h raw r e =
      subst (ChangesBy self) e
        (elim (json.from_str raw)
          as (λ p. ChangesBy self (elim p [
            | failed e ↦
                some
                  (self, response (error_json json dash (new_error json parse_error e json.null)))
            | parsed req ↦ dispatch_request json dash now instant self req
          ])) [
            | failed e ↦ Changes-refl self
            | parsed req ↦ dispatch_request-Changes now instant self req
          ])
