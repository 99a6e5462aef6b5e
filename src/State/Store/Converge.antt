-- ===== src/State/Store/Converge.antt =====
-- Replicas that see the same entries in different orders.
use mathlib.Core.List.{Mem}
use mathlib.Core.HLevel.{Π_prop}
use mathlib.Core.Path.{subst}
use rust_high_throughput_sta.Common.{
  String, ◌≡◌, refl, sym, ap, ◌∙◌, Option, none, some, [], ◌∷◌, ℕ, All, All-map, All-mem, ◌==◌,
  Bool-cases, inl, inr, eq_iff,
}
use rust_high_throughput_sta.HashMap.{get}
use rust_high_throughput_sta.State.Crdt.{LwwValue}
use rust_high_throughput_sta.State.Crdt.Order.{SameStamp, stamp_le_antisymm}
use rust_high_throughput_sta.State.Crdt.Laws.{merge_lub}
use rust_high_throughput_sta.State.Store.{StateDelta, StateStore, winner_of, merge_delta, lookup}
use rust_high_throughput_sta.State.Store
use rust_high_throughput_sta.State.Store.View.{absorb, lookup-merge_delta}
use rust_high_throughput_sta.State.Store.Covers.{
  Covers, Precedes, Precedes-trans, Precedes-absorb, Covers-absorb, absorb-least, Covers-trans,
}

-- A predicate that what a key holds satisfies, if it holds anything.
abbrev pub Holds : (LwwValue → Type 0) → Option LwwValue → Type 0
Holds P none = Unit
Holds P (some v) = P v

Holds-winner_of :
    (P : LwwValue → Type 0) (o : Option LwwValue) (v : LwwValue)
    → Holds P o
    → P v
    → P (winner_of o v)
Holds-winner_of P none v h p = p
Holds-winner_of P (some w) v h p = elim (merge_lub w v).0 [ inl e ↦ rw e h | inr e ↦ rw e p ]

-- A merge makes up no value: what holds of the old value and of the entries holds of the result.
pub Holds-absorb :
    (P : LwwValue → Type 0) (k : String) (o : Option LwwValue) (d : StateDelta)
    → Holds P o
    → All (λ e. e.0 ≡ k → P e.1) d
    → Holds P (absorb k o d)
unfolding absorb
Holds-absorb P k o [] h c = h
Holds-absorb P k o ((j, v) ∷ d) h c = elim (Bool-cases (j == k)) [
  | inl e ↦ rw e (
      Holds-absorb P k (some (winner_of o v)) d (Holds-winner_of P o v h (c.0 ((eq_iff j k).0 e)))
        c.1)
  | inr e ↦ rw e (Holds-absorb P k o d h c.1)
]

-- A set of writes in which a stamp names one write of a key.
abbrev pub IsCoherent : (String → LwwValue → Type 0) → Type 0
IsCoherent W = (k : String) (a b : LwwValue) → W k a → W k b → SameStamp a b → a ≡ b

-- Two holdings of one coherent key that cover one another are the same.
pub holdings_agree :
    (P : LwwValue → Type 0)
    → ((a b : LwwValue) → P a → P b → SameStamp a b → a ≡ b)
    → (o p : Option LwwValue) → Holds P o
    → Holds P p
    → Precedes o p
    → Precedes p o
    → o ≡ p
holdings_agree P c none none ho hp l r = refl
holdings_agree P c none (some w) ho hp l r = absurd r
holdings_agree P c (some v) none ho hp l r = absurd l
holdings_agree P c (some v) (some w) ho hp l r = ap some (c v w ho hp (stamp_le_antisymm v w l r))

absorb_comm-Precedes :
    (k : String) (o : Option LwwValue) (d e : StateDelta)
    → Precedes (absorb k (absorb k o d) e) (absorb k (absorb k o e) d)
absorb_comm-Precedes k o d e =
    absorb-least k (absorb k o d) both e
      (absorb-least k o both d (Precedes-trans o (absorb k o e) both (Precedes-absorb k o e) later)
        (Covers-absorb k (absorb k o e) d))
      (All-map (λ x c q. Covers-trans (absorb k o e) both x.1 later (c q)) e (Covers-absorb k o e))
  where
    both : Option LwwValue
    both = absorb k (absorb k o e) d

    later : Precedes (absorb k o e) both
    later = Precedes-absorb k (absorb k o e) d

Covers-prop : (o : Option LwwValue) (v : LwwValue) → IsProp (Covers o v)
Covers-prop none v = hlevel
Covers-prop (some w) v = hlevel

Includes-Precedes :
    (k : String) (d e : StateDelta)
    → All (λ x. Mem x e) d
    → Precedes (absorb k none d) (absorb k none e)
Includes-Precedes k d e h = absorb-least k none (absorb k none e) d tt (
    All-map
      (λ x m.
        All-mem (λ y. y.0 ≡ k → Covers (absorb k none e) y.1)
          (λ y. Π_prop (λ _. Covers-prop (absorb k none e) y.1)) e (Covers-absorb k none e) x m)
      d h)

module _ (W : String → LwwValue → Type 0) (coherent : IsCoherent W) where
  at_key : (k : String) (d : StateDelta) → All (λ x. W x.0 x.1) d → All (λ x. x.0 ≡ k → W k x.1) d
  at_key k d h = All-map (λ x w e. subst (λ j. W j x.1) e w) d h

  -- Two deltas of coherent writes can be merged in either order.
  pub merge_delta_comm :
      (d e : StateDelta) (s : StateStore)
      → All (λ x. W x.0 x.1) d
      → All (λ x. W x.0 x.1) e
      → (k : String) → Holds (W k) (lookup k s)
      → lookup k (merge_delta e (merge_delta d s).0).0
        ≡ lookup k (merge_delta d (merge_delta e s).0).0
  merge_delta_comm d e s hd he k hs =
      rw
        (
          lookup-merge_delta k e (merge_delta d s).0,
          lookup-merge_delta k d s,
          lookup-merge_delta k d (merge_delta e s).0,
          lookup-merge_delta k e s,
        )
        (holdings_agree (W k) (coherent k) (absorb k (absorb k o d) e) (absorb k (absorb k o e) d)
          (Holds-absorb (W k) k (absorb k o d) e (Holds-absorb (W k) k o d hs (at_key k d hd))
            (at_key k e he))
          (Holds-absorb (W k) k (absorb k o e) d (Holds-absorb (W k) k o e hs (at_key k e he))
            (at_key k d hd))
          (absorb_comm-Precedes k o d e) (absorb_comm-Precedes k o e d))
    where
      o : Option LwwValue
      o = lookup k s

  -- Let a stamp name one write of a key among the entries. Then two fresh replicas that merged
  -- deltas with the same entries, in any order and any number of times, hold the same value under
  -- every key.
  pub same_entries_agree :
      (d e : StateDelta)
      → All (λ x. W x.0 x.1) d
      → All (λ x. W x.0 x.1) e
      → All (λ x. Mem x e) d
      → All (λ x. Mem x d) e
      → (k n m : String) (c b : ℕ)
      → lookup k (merge_delta d (Store.created n c)).0
        ≡ lookup k (merge_delta e (Store.created m b)).0
  unfolding Store.created lookup get
  same_entries_agree d e hd he l r k n m c b =
      lookup-merge_delta k d (Store.created n c)
      ∙ holdings_agree (W k) (coherent k) (absorb k none d) (absorb k none e)
          (Holds-absorb (W k) k none d tt (at_key k d hd))
          (Holds-absorb (W k) k none e tt (at_key k e he)) (Includes-Precedes k d e l)
          (Includes-Precedes k e d r)
      ∙ sym (lookup-merge_delta k e (Store.created m b))
