-- ===== src/Rpc/Types.antt =====
-- src/rpc/types.rs: requests, responses, errors and notifications. `Value` is serde_json's, which
-- is not in the repository: it is a parameter, and so is the `Default` of a request's params, which
-- serde applies before the request is here.
use rust_high_throughput_sta.Common.{ℕ, String, Option}

-- An `i64`: `negsuc n` is -(n + 1).
pub data ℤ : Type 0 where
  pos : ℕ → ℤ
  negsuc : ℕ → ℤ

abbrev pub parse_error : ℤ
parse_error = negsuc 32699

abbrev pub invalid_request : ℤ
invalid_request = negsuc 32599

abbrev pub method_not_found : ℤ
method_not_found = negsuc 32600

abbrev pub invalid_params : ℤ
invalid_params = negsuc 32601

abbrev pub internal_error : ℤ
internal_error = negsuc 32602

module _ (Value : Type 0) where
  pub record RpcRequest : Type 0 where
    pub jsonrpc : String
    pub method : String
    pub params : Value
    pub id : Option Value

  pub record RpcResponse : Type 0 where
    pub jsonrpc : String
    pub result : Value
    pub id : Value

  pub record RpcErrorBody : Type 0 where
    pub code : ℤ
    pub message : String
    pub data_value : Option Value

  pub record RpcError : Type 0 where
    pub jsonrpc : String
    pub error : RpcErrorBody
    pub id : Value

  pub record RpcNotification : Type 0 where
    pub jsonrpc : String
    pub method : String
    pub params : Value
