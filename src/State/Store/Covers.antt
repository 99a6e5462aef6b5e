-- ===== src/State/Store/Covers.antt =====
-- The information order on what a key holds: a key covers a value that is not newer than its own.
use rust_high_throughput_sta.Common.{
  String, ◌≡◌, inl, inr, true, Option, none, some, [], ◌∷◌, eq_iff, ◌==◌, if◌then◌else◌, Bool-cases,
  All,
}
use rust_high_throughput_sta.State.Crdt.{LwwValue}
use rust_high_throughput_sta.State.Crdt.Order.{stamp_le, stamp_le_refl, stamp_le_trans}
use rust_high_throughput_sta.State.Crdt.Laws.{merge_lub, merge_of_le}
use rust_high_throughput_sta.State.Store.{StateDelta, winner_of}
use rust_high_throughput_sta.State.Store.View.{absorb}

abbrev pub Covers : Option LwwValue → LwwValue → Type 0
Covers none v = ⊥
Covers (some w) v = stamp_le v w ≡ true

abbrev pub Precedes : Option LwwValue → Option LwwValue → Type 0
Precedes none p = Unit
Precedes (some v) p = Covers p v

pub Covers-trans : (o p : Option LwwValue) (v : LwwValue) → Precedes o p → Covers o v → Covers p v
Covers-trans none p v h c = absurd c
Covers-trans (some w) none v h c = absurd h
Covers-trans (some w) (some x) v h c = stamp_le_trans v w x c h

pub Precedes-refl : (o : Option LwwValue) → Precedes o o
Precedes-refl none = tt
Precedes-refl (some v) = stamp_le_refl v

pub Precedes-trans : (o p q : Option LwwValue) → Precedes o p → Precedes p q → Precedes o q
Precedes-trans none p q h k = tt
Precedes-trans (some v) p q h k = Covers-trans p q v k h

pub Precedes-winner_of : (o : Option LwwValue) (v : LwwValue) → Precedes o (some (winner_of o v))
Precedes-winner_of none v = tt
Precedes-winner_of (some w) v = (merge_lub w v).1

Covers-winner_of : (o : Option LwwValue) (v : LwwValue) → Covers (some (winner_of o v)) v
Covers-winner_of none v = stamp_le_refl v
Covers-winner_of (some w) v = (merge_lub w v).2

winner_of-least :
    (o p : Option LwwValue) (v : LwwValue) → Precedes o p → Covers p v → Covers p (winner_of o v)
winner_of-least none p v h c = c
winner_of-least (some w) p v h c = elim (merge_lub w v).0 [ inl e ↦ rw e h | inr e ↦ rw e c ]

pub winner_of-covered : (w v : LwwValue) → Covers (some w) v → winner_of (some w) v ≡ w
winner_of-covered w v c = merge_of_le w v c

-- An entry of another key leaves the value alone.
abbrev pub one : String → Option LwwValue → String × LwwValue → Option LwwValue
one k o (j, v) = if j == k then some (winner_of o v) else o

pub Precedes-one :
    (k : String) (o : Option LwwValue) (e : String × LwwValue) → Precedes o (one k o e)
Precedes-one k o (j, v) = elim (Bool-cases (j == k)) [
  | inl e ↦ rw e (Precedes-winner_of o v)
  | inr e ↦ rw e (Precedes-refl o)
]

-- Merging a delta never loses what a key held.
pub Precedes-absorb :
    (k : String) (o : Option LwwValue) (d : StateDelta) → Precedes o (absorb k o d)
unfolding absorb
Precedes-absorb k o [] = Precedes-refl o
Precedes-absorb k o ((j, v) ∷ d) =
    Precedes-trans o (one k o (j, v)) (absorb k (one k o (j, v)) d) (Precedes-one k o (j, v))
      (Precedes-absorb k (one k o (j, v)) d)

-- After a delta, a key covers each entry that named it.
pub Covers-absorb :
    (k : String) (o : Option LwwValue) (d : StateDelta)
    → All (λ e. e.0 ≡ k → Covers (absorb k o d) e.1) d
unfolding absorb
Covers-absorb k o [] = tt
Covers-absorb k o ((j, v) ∷ d) = (
  λ e. rw ((eq_iff j k).1 e) (
      Covers-trans (some (winner_of o v)) (absorb k (some (winner_of o v)) d) v
        (Precedes-absorb k (some (winner_of o v)) d) (Covers-winner_of o v)),
  Covers-absorb k (one k o (j, v)) d,
)

-- And holds no more than that: whatever covers the old value and the entries covers the result.
pub absorb-least :
    (k : String) (o p : Option LwwValue) (d : StateDelta)
    → Precedes o p
    → All (λ e. e.0 ≡ k → Covers p e.1) d
    → Precedes (absorb k o d) p
unfolding absorb
absorb-least k o p [] h c = h
absorb-least k o p ((j, v) ∷ d) h c = elim (Bool-cases (j == k)) [
  | inl e ↦ rw e (
      absorb-least k (some (winner_of o v)) p d (winner_of-least o p v h (c.0 ((eq_iff j k).0 e)))
        c.1)
  | inr e ↦ rw e (absorb-least k o p d h c.1)
]
