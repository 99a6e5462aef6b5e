-- ===== src/Error.antt =====
-- src/error.rs: the error type, its messages and its conversions. The errors of the standard
-- library, of serde_json and of bincode are parameters, of which only the text is used.
use Prim.Native.String.{◌++◌}
use rust_high_throughput_sta.Common.{String, ◌≡◌, refl}

-- `Io` and `Json` are their own conversions.
pub data EngineError (IoError JsonError : Type 0) : Type 0 where
  io : IoError → EngineError IoError JsonError
  serialization : String → EngineError IoError JsonError
  json : JsonError → EngineError IoError JsonError
  peer : String → EngineError IoError JsonError
  method_not_found : String → EngineError IoError JsonError
  invalid_params : String → EngineError IoError JsonError
  internal : String → EngineError IoError JsonError

-- `From<Box<bincode::ErrorKind>>`, with the `to_string` of bincode's errors.
unfoldable pub from_bincode :
    {IoError JsonError BincodeError : Type 0}
    → (BincodeError → String)
    → BincodeError
    → EngineError IoError JsonError
from_bincode to_string e = serialization (to_string e)

module _ {IoError JsonError : Type 0} (io_text : IoError → String)
    (json_text : JsonError → String) where
  -- The `Display` that the `error` attributes derive.
  unfoldable pub display : EngineError IoError JsonError → String
  display (io e) = "I/O error: " ++ io_text e
  display (serialization s) = "Serialization error: " ++ s
  display (json e) = "JSON parse error: " ++ json_text e
  display (peer s) = "Gossip peer error: " ++ s
  display (method_not_found s) = "RPC method not found: " ++ s
  display (invalid_params s) = "Invalid RPC params: " ++ s
  display (internal s) = "Internal engine error: " ++ s

from_bincode-display :
    display {IoError = String} {JsonError = String}
      (λ e. e)
      (λ e. e)
      (from_bincode (λ e. e) "bad tag")
    ≡ "Serialization error: bad tag"
unfolding display from_bincode
from_bincode-display = refl
