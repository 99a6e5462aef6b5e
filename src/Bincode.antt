-- ===== src/Bincode.antt =====
-- The bincode crate, which is not in the repository: its operations for one type, with the round
-- trip that its documentation promises. A failed operation is `none`.
use rust_high_throughput_sta.Common.{ℕ, ◌≡◌, Option, some, List}

abbrev pub Bytes : Type 0
Bytes = List ℕ

-- bincode for one type: what was encoded decodes to itself.
pub record Bincode (T : Type 0) : Type 0 where
  pub serialize : T → Option Bytes
  pub deserialize : Bytes → Option T
  pub deserialize-serialize :
      (msg : T) (bytes : Bytes) → serialize msg ≡ some bytes → deserialize bytes ≡ some msg
