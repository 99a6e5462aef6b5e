-- ===== src/State/Crdt/Laws.antt =====
-- The laws of `merge`.
use rust_high_throughput_sta.Common.{
  ◌≡◌, refl, sym, ◌↔◌, ◌⊎◌, inl, inr, true, false, arith, Bool-cases, if◌then◌else◌,
}
use rust_high_throughput_sta.Common.Text.{text_ge-flip}
use rust_high_throughput_sta.State.Crdt.{LwwValue, merge, is_dominated_by}
use rust_high_throughput_sta.State.Crdt.Order.{
  stamp_le, SameStamp, stamp_le_refl, stamp_le_trans, stamp_le_total, stamp_le_antisymm,
  stamp_le_of_SameStamp, lww_eq_iff,
}

-- The three-way comparison of the source is one test: the first value stays unless it is older.
pub merge-eq-if : (a b : LwwValue) → merge a b ≡ (if stamp_le b a then a else b)
unfolding merge stamp_le
merge-eq-if a b = ground (arith, text_ge-flip a.node_id b.node_id)

pub merge_of_le : (a b : LwwValue) → stamp_le b a ≡ true → merge a b ≡ a
merge_of_le a b h = ground (arith, merge-eq-if a b)

pub merge_of_gt : (a b : LwwValue) → stamp_le b a ≡ false → merge a b ≡ b
merge_of_gt a b h = ground (arith, merge-eq-if a b)

-- A merge returns one of its two values, and no value is newer than it.
pub merge_lub :
    (a b : LwwValue)
    → ((merge a b ≡ a) ⊎ (merge a b ≡ b))
      × (stamp_le a (merge a b) ≡ true)
      × (stamp_le b (merge a b) ≡ true)
merge_lub a b = elim (Bool-cases (stamp_le b a)) [
  | inl h ↦ rw (merge_of_le a b h) (inl refl, stamp_le_refl a, h)
  | inr h ↦ rw (merge_of_gt a b h) (inr refl, stamp_le_total b a h, stamp_le_refl b)
]

pub merge_idem : (a : LwwValue) → merge a a ≡ a
merge_idem a = merge_of_le a a (stamp_le_refl a)

pub merge_assoc : (a b c : LwwValue) → merge (merge a b) c ≡ merge a (merge b c)
merge_assoc a b c = ground (
  arith,
  merge-eq-if a b,
  merge-eq-if b c,
  merge-eq-if a c,
  stamp_le_trans c b a,
  stamp_le_trans b c a,
  stamp_le_trans b a c,
  stamp_le_trans c a b,
  stamp_le_total b a,
  stamp_le_total c b,
  stamp_le_total c a,
)

-- Two merges in either order agree exactly when the values differ in their stamp or are the same.
pub merge_comm_iff : (a b : LwwValue) → (merge a b ≡ merge b a) ↔ (SameStamp a b → a ≡ b)
merge_comm_iff a b = (
  λ h s. ground (
    arith,
    merge_of_le a b (stamp_le_of_SameStamp b a (sym s.0, sym s.1)),
    merge_of_le b a (stamp_le_of_SameStamp a b s),
  ),
  λ h.
      ground
        (arith, merge-eq-if a b, merge-eq-if b a, stamp_le_total a b, stamp_le_antisymm a b, h),
)

is_dominated_by_iff : (a b : LwwValue) → (is_dominated_by a b ≡ true) ↔ (stamp_le b a ≡ false)
unfolding is_dominated_by
is_dominated_by_iff a b = (
  λ h. ground (arith, lww_eq_iff (merge a b) a, merge_of_le a b),
  λ h. ground (arith, lww_eq_iff (merge a b) a, merge_of_gt a b, stamp_le_refl a),
)
