-- ===== src/State/Crdt.antt =====
-- src/state/crdt.rs: the last-write-wins value, its merge and its time stamp.
pub mod Order
pub mod Laws
use Prim.Native.Nat.{compare, Ordering}
use mathlib.Core.Option
use rust_high_throughput_sta.Common.{
  ℕ, ◌/◌, ◌%◌, ◌^◌, String, Bool, not, ◌&&◌, Option, none, some, eqb, ◌==◌, if◌then◌else◌,
}
use rust_high_throughput_sta.Common.Text.{text_ge}

pub record LwwValue : Type 0 where
  pub value : String
  pub timestamp : ℕ
  pub node_id : String

-- A reading of the system clock, in nanoseconds after or before the UNIX epoch.
pub data SystemTime : Type 0 where
  since_epoch : ℕ → SystemTime
  before_epoch : ℕ → SystemTime

-- `none` is the panic of `expect`; `as u64` drops the high bits of the `u128`.
unfoldable pub now_micros : SystemTime → Option ℕ
now_micros (since_epoch nanos) = some (nanos / 1000 % 2 ^ 64)
now_micros (before_epoch nanos) = none

unfoldable pub new : SystemTime → String → String → Option LwwValue
unfolding now_micros
new now value node_id =
    Option.map (λ t. record { value = value; timestamp = t; node_id = node_id }) (now_micros now)

unfoldable pub merge : LwwValue → LwwValue → LwwValue
merge a b = elim (compare a.timestamp b.timestamp) [
  | Ordering.gt ↦ a
  | Ordering.lt ↦ b
  | Ordering.eq ↦ if text_ge a.node_id b.node_id then a else b
]

-- The derived `PartialEq`.
abbrev pub lww_eq : LwwValue → LwwValue → Bool
lww_eq a b = a.value == b.value && eqb a.timestamp b.timestamp && a.node_id == b.node_id

unfoldable pub is_dominated_by : LwwValue → LwwValue → Bool
is_dominated_by self incoming = not (lww_eq (merge self incoming) self)
