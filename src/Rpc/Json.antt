-- ===== src/Rpc/Json.antt =====
-- serde_json as the source uses it, with what its documentation promises, and the constructors of
-- src/rpc/types.rs.
use rust_high_throughput_sta.Common.{
  ℕ, ◌<◌, ◌^◌, String, ◌≡◌, Option, none, some, List, [], ◌∷◌, ◌==◌, if◌then◌else◌,
}
use rust_high_throughput_sta.State.Crdt.{LwwValue}
use rust_high_throughput_sta.Rpc.Types.{ℤ, RpcRequest, RpcResponse, RpcError, RpcNotification}

-- `from_str` of a request: the request, or the parser's message.
pub data Parsed (A : Type 0) : Type 0 where
  parsed : A → Parsed A
  failed : String → Parsed A

-- The first field of a name.
abbrev pub field {ℓ} : {V : Type ℓ} → String → List (String × V) → Option V
field k [] = none
field k ((j, v) ∷ fields) = if j == k then some v else field k fields

-- No name twice.
abbrev pub HasDistinctNames : {V : Type 0} → List (String × V) → Type 0
HasDistinctNames [] = Unit
HasDistinctNames ((k, v) ∷ fields) = (field k fields ≡ none) × HasDistinctNames fields

pub record SerdeJson (Value : Type 0) : Type 0 where
  pub null : Value
  pub text : String → Value
  pub number : ℕ → Value
  pub array : List Value → Value
  pub object : List (String × Value) → Value
  pub get : String → Value → Option Value
  pub as_str : Value → Option String
  pub as_u64 : Value → Option ℕ
  pub from_str : String → Parsed (RpcRequest Value)
  pub response_to_string : RpcResponse Value → Option String
  pub error_to_string : RpcError Value → Option String
  pub notification_to_string : RpcNotification Value → Option String
  pub get-object :
      (k : String) (fields : List (String × Value))
      → HasDistinctNames fields
      → get k (object fields) ≡ field k fields
  pub get-null : (k : String) → get k null ≡ none
  pub as_str-text : (s : String) → as_str (text s) ≡ some s
  pub as_u64-number : (n : ℕ) → n < 2 ^ 64 → as_u64 (number n) ≡ some n

module _ {Value : Type 0} (json : SerdeJson Value) where
  open json use {text, number, object}

  -- `RpcResponse::ok`
  unfoldable pub ok : Value → Value → RpcResponse Value
  ok result id = record { jsonrpc = "2.0"; result = result; id = id }

  -- `RpcError::new`
  unfoldable pub new_error : ℤ → String → Value → RpcError Value
  new_error code message id = record {
    jsonrpc = "2.0";
    error = record { code = code; message = message; data_value = none };
    id = id;
  }

  -- The four fields of a value, in a response and in a notification.
  abbrev pub entry_value : String → LwwValue → Value
  entry_value key v = object (
      ("key", text key)
      ∷ ("value", text v.value)
      ∷ ("timestamp", number v.timestamp)
      ∷ ("node_id", text v.node_id)
      ∷ [])

  unfoldable pub state_update : String → LwwValue → RpcNotification Value
  state_update key v = record {
    jsonrpc = "2.0";
    method = "state.update";
    params = entry_value key v;
  }

  unfoldable pub lag : ℕ → RpcNotification Value
  lag dropped = record {
    jsonrpc = "2.0";
    method = "state.lag";
    params = object (("dropped", number dropped) ∷ []);
  }
