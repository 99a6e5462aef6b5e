-- ===== src/Gossip/Cluster/Invariant.antt =====
-- The invariant of a cluster, about the writes that were ever made in it.
use rust_high_throughput_sta.Common.{
  ℕ, String, ◌≡◌, ◌⊎◌, inl, inr, refl, sym, ◌∙◌, Option, none, some, All, Bool-cases,
}
use mathlib.Core.Path.{subst}
use rust_high_throughput_sta.HashMap.Laws.{IsDistinct}
use rust_high_throughput_sta.State.Crdt.{LwwValue}
use rust_high_throughput_sta.State.Crdt.Order.{
  stamp_le, SameStamp, stamp_le_trans, stamp_le_of_SameStamp,
}
use rust_high_throughput_sta.State.Crdt.Laws.{merge_of_gt}
use rust_high_throughput_sta.State.Store.{lookup, winner_of}
use rust_high_throughput_sta.State.Store.Covers.{Covers}
use rust_high_throughput_sta.State.Store.Converge.{IsCoherent}
use rust_high_throughput_sta.Gossip.Protocol.{GossipMessage}
use rust_high_throughput_sta.Gossip.Cluster.{Cluster}

-- `W k v`: the value `v` was written under `k`.
pub record Inv (ids : ℕ → String) (W : String → LwwValue → Type 0) (c : Cluster) : Type 0 where
  pub named : (i : ℕ) → (c.nodes i).node_id ≡ ids i
  pub distinct : (i : ℕ) → IsDistinct (c.nodes i).state
  pub stores : (i : ℕ) → All (λ e. W e.0 e.1) (c.nodes i).state
  pub messages : All (λ (msg : GossipMessage). All (λ e. W e.0 e.1) msg.deltas) c.network
  pub coherent : IsCoherent W
  pub owned :
      (k : String) (v : LwwValue)
      → W k v
      → (i : ℕ) × (v.node_id ≡ ids i) × Covers (lookup k (c.nodes i)) v

-- A write of `v` beside those of `W`.
abbrev pub Also : (String → LwwValue → Type 0) → String → LwwValue → String → LwwValue → Type 0
Also W key v k x = W k x ⊎ ((k ≡ key) × (x ≡ v))

pub Covers-cases : (o : Option LwwValue) (v : LwwValue) → Covers o v ⊎ (¬ Covers o v)
Covers-cases none v = inr (λ h. h)
Covers-cases (some w) v = elim (Bool-cases (stamp_le v w)) [ inl e ↦ inl e | inr e ↦ inr (λ h. cc) ]

pub winner_of-fresh : (o : Option LwwValue) (v : LwwValue) → ¬ Covers o v → winner_of o v ≡ v
winner_of-fresh none v h = refl
winner_of-fresh (some w) v h = elim (Bool-cases (stamp_le v w)) [
  | inl e ↦ absurd (h e)
  | inr e ↦ merge_of_gt w v e
]

Covers-SameStamp : (o : Option LwwValue) (a v : LwwValue) → Covers o a → SameStamp a v → Covers o v
Covers-SameStamp none a v h s = absurd h
Covers-SameStamp (some w) a v h s =
    stamp_le_trans v a w (stamp_le_of_SameStamp v a (sym s.0, sym s.1)) h

module _ (ids : ℕ → String) (unique : (i j : ℕ) → ids i ≡ ids j → i ≡ j) where
  -- A node's own value that its store does not cover has a stamp that no earlier write has.
  no_earlier :
      {W : String → LwwValue → Type 0} {c : Cluster} (inv : Inv ids W c) (i : ℕ) (key : String)
      (v a : LwwValue)
      → v.node_id ≡ ids i
      → ¬ Covers (lookup key (c.nodes i)) v
      → W key a
      → ¬ SameStamp a v
  no_earlier {c} inv i key v a own fresh w s =
      let (j, by, covered) = inv.owned key a w in
      let e : j ≡ i = unique j i (sym by ∙ s.1 ∙ own) in
      fresh (
        Covers-SameStamp (lookup key (c.nodes i)) a v
          (subst (λ n. Covers (lookup key (c.nodes n)) a) e covered) s)

  pub Also-coherent :
      {W : String → LwwValue → Type 0} {c : Cluster} (inv : Inv ids W c) (i : ℕ) (key : String)
      (v : LwwValue)
      → v.node_id ≡ ids i
      → ¬ Covers (lookup key (c.nodes i)) v
      → IsCoherent (Also W key v)
  Also-coherent inv i key v own fresh k a b (inl p) (inl q) s = inv.coherent k a b p q s
  Also-coherent {W} inv i key v own fresh k a b (inl p) (inr (e, f)) s =
      absurd (no_earlier inv i key v a own fresh (subst (λ j. W j a) e p) (subst (SameStamp a) f s))
  Also-coherent {W} inv i key v own fresh k a b (inr (e, f)) (inl q) s = absurd (
      no_earlier inv i key v b own fresh (subst (λ j. W j b) e q)
        (subst (SameStamp b) f (sym s.0, sym s.1)))
  Also-coherent inv i key v own fresh k a b (inr (e, f)) (inr (g, h)) s = f ∙ sym h
