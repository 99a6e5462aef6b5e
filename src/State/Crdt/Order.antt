-- ===== src/State/Crdt/Order.antt =====
-- The order by which a merge chooses: the time stamp first, then the node's id.
use rust_high_throughput_sta.Common.{
  ◌≡◌, ◌↔◌, Bool, true, false, ◌&&◌, arith, ltb, eqb, eq_iff, if◌then◌else◌,
}
use rust_high_throughput_sta.Common.Text.{text_le, text_le_trans, text_le_total, text_le_antisymm}
use rust_high_throughput_sta.State.Crdt.{LwwValue, lww_eq}

-- `a` is not newer than `b`.
unfoldable pub stamp_le : LwwValue → LwwValue → Bool
stamp_le a b =
    if ltb a.timestamp b.timestamp
    then true
    else (eqb a.timestamp b.timestamp && text_le a.node_id b.node_id)

-- The two values claim to be the same write.
abbrev pub SameStamp : LwwValue → LwwValue → Type 0
SameStamp a b = (a.timestamp ≡ b.timestamp) × (a.node_id ≡ b.node_id)

pub stamp_le_refl : (a : LwwValue) → stamp_le a a ≡ true
unfolding stamp_le
stamp_le_refl a = ground (arith, text_le_total a.node_id a.node_id)

pub stamp_le_trans :
    (a b c : LwwValue) → stamp_le a b ≡ true → stamp_le b c ≡ true → stamp_le a c ≡ true
unfolding stamp_le
stamp_le_trans a b c p q = ground (arith, text_le_trans a.node_id b.node_id c.node_id)

pub stamp_le_total : (a b : LwwValue) → stamp_le a b ≡ false → stamp_le b a ≡ true
unfolding stamp_le
stamp_le_total a b h = ground (arith, text_le_total a.node_id b.node_id)

pub stamp_le_antisymm : (a b : LwwValue) → stamp_le a b ≡ true → stamp_le b a ≡ true → SameStamp a b
unfolding stamp_le
stamp_le_antisymm a b p q = ground (arith, text_le_antisymm a.node_id b.node_id)

pub stamp_le_of_SameStamp : (a b : LwwValue) → SameStamp a b → stamp_le a b ≡ true
unfolding stamp_le
stamp_le_of_SameStamp a b h = ground (arith, text_le_total a.node_id a.node_id)

pub lww_eq_iff : (a b : LwwValue) → (lww_eq a b ≡ true) ↔ (a ≡ b)
lww_eq_iff a b = (
  λ h. ground (arith, eq_iff a.value b.value, eq_iff a.node_id b.node_id),
  λ h. ground (arith, eq_iff a.value b.value, eq_iff a.node_id b.node_id),
)
