-- ===== src/Gossip/Cluster/Coherence.antt =====
-- The steps of a cluster and its invariant.
use mathlib.Core.Path.{subst}
use rust_high_throughput_sta.Common.{
  ℕ, String, ◌≡◌, ◌⊎◌, inl, inr, refl, sym, ap, ◌∙◌, true, some, eqb, arith, All, All-map,
  Bool-cases, Option-cases,
}
use rust_high_throughput_sta.HashMap.Laws.{IsDistinct, All-insert, All-get}
use rust_high_throughput_sta.State.Crdt.{LwwValue}
use rust_high_throughput_sta.State.Crdt.Order.{stamp_le_refl}
use rust_high_throughput_sta.State.Store.{StateStore, StateDelta, lookup, winner_of, merge_delta}
use rust_high_throughput_sta.State.Store.Covers.{
  Covers, Precedes, Covers-trans, Precedes-refl, winner_of-covered,
}
use rust_high_throughput_sta.State.Store.Converge.{IsCoherent}
use rust_high_throughput_sta.State.Store.Writes.{after_set, lookup-after_set_self}
use rust_high_throughput_sta.State.Store.Invariant.{
  after_set-IsDistinct, after_set-Precedes, merge_delta-IsDistinct, merge_delta-Precedes,
  All-merge_delta, node_id-merge_delta,
}
use rust_high_throughput_sta.Gossip.Protocol.{GossipMessage}
use rust_high_throughput_sta.Gossip.Cluster.{Cluster, update}
use rust_high_throughput_sta.Gossip.Cluster.Invariant.{Inv, Also, Also-coherent, winner_of-fresh}

-- A predicate of every node, after one node has changed.
pub update_all :
    (P : ℕ → StateStore → Type 0) (nodes : ℕ → StateStore) (i : ℕ) (s : StateStore)
    → P i s
    → ((j : ℕ) → P j (nodes j))
    → (j : ℕ) → P j (update nodes i s j)
update_all P nodes i s p h j = elim (Bool-cases (eqb i j)) [
  | inl e ↦ rw e (subst (λ n. P n s) (eqb→eq i j e) p)
  | inr e ↦ rw e (h j)
]
  where
    eqb→eq : (a b : ℕ) → eqb a b ≡ true → a ≡ b
    eqb→eq a b h = ground arith

module _ (ids : ℕ → String) where
  -- A node that keeps its name, one entry for each key, and covers what it covered.
  pub record Grown (W : String → LwwValue → Type 0) (i : ℕ) (s t : StateStore) : Type 0 where
    pub same_name : t.node_id ≡ s.node_id
    pub distinct : IsDistinct t.state
    pub written : All (λ e. W e.0 e.1) t.state
    pub grows : (k : String) → Precedes (lookup k s) (lookup k t)

  -- One node grows within `W'`, which holds the old writes and is owned.
  pub Inv-update :
      {W W' : String → LwwValue → Type 0} {c : Cluster} (inv : Inv ids W c) (i : ℕ) (t : StateStore)
      → ((k : String) (v : LwwValue) → W k v → W' k v)
      → IsCoherent W'
      → Grown W' i (c.nodes i) t
      → ((k : String) (v : LwwValue)
          → W' k v
          → W k v ⊎ ((v.node_id ≡ ids i) × Covers (lookup k t) v))
      → Inv ids W' (record c { nodes = update c.nodes i t })
  Inv-update {W} {W'} {c} inv i t weaken coherent g own = record {
    named = update_all (λ j s. s.node_id ≡ ids j) c.nodes i t (g.same_name ∙ inv.named i) inv.named;
    distinct = update_all (λ j s. IsDistinct s.state) c.nodes i t g.distinct inv.distinct;
    stores =
        update_all (λ j s. All (λ e. W' e.0 e.1) s.state) c.nodes i t g.written
          (λ j. All-map (λ e w. weaken e.0 e.1 w) (c.nodes j).state (inv.stores j));
    messages =
        All-map (λ (msg : GossipMessage) h. All-map (λ e w. weaken e.0 e.1 w) msg.deltas h)
          c.network inv.messages;
    coherent = coherent;
    owned = λ k v w. elim (own k v w) [
      | inl old ↦
          let (j, by, covered) = inv.owned k v old in
          (
            j,
            by,
            Covers-trans (lookup k (c.nodes j)) (lookup k (update c.nodes i t j)) v (grown k j)
                covered,
          )
      | inr (by, covered) ↦ (i, by, subst (λ s. Covers (lookup k s) v) (sym (at_i)) covered)
    ];
  }
    where
      grown :
          (k : String) (j : ℕ) → Precedes (lookup k (c.nodes j)) (lookup k (update c.nodes i t j))
      grown k =
          update_all (λ j s. Precedes (lookup k (c.nodes j)) (lookup k s)) c.nodes i t (g.grows k)
            (λ j. Precedes-refl (lookup k (c.nodes j)))

      at_i : update c.nodes i t i ≡ t
      at_i = ground arith

  -- A write that was already covered is lost, and the store holds what it held.
  pub write_lost :
      {W : String → LwwValue → Type 0} {c : Cluster} (inv : Inv ids W c) (i : ℕ) (key : String)
      (v : LwwValue)
      → Covers (lookup key (c.nodes i)) v
      → Inv ids W (record c { nodes = update c.nodes i (after_set key v (c.nodes i)) })
  write_lost {W} {c} inv i key v covered =
      Inv-update inv i (after_set key v s) (λ k x w. w) inv.coherent
        (record {
          same_name = unfold after_set in refl;
          distinct = after_set-IsDistinct key v s (inv.distinct i);
          written = written;
          grows = λ k. after_set-Precedes k key v s;
        })
        (λ k x w. inl w)
    where
      s : StateStore
      s = c.nodes i

      written : All (λ e. W e.0 e.1) (after_set key v s).state
      written = elim (Option-cases (lookup key s)) [
        | inl e ↦ absurd (rw e at covered)
        | inr (w, e) ↦
            unfold after_set in
            All-insert (λ x. W x.0 x.1) key (winner_of (lookup key s) v) s.state
              (rw (e, winner_of-covered w v (rw e at covered))
                (unfold lookup in All-get (λ x. W x.0 x.1) key w s.state (inv.stores i) e))
              (inv.stores i)
      ]

  module _ (unique : (i j : ℕ) → ids i ≡ ids j → i ≡ j) where
    -- A write that was not covered is new among all the writes of the cluster.
    pub write_new :
        {W : String → LwwValue → Type 0} {c : Cluster} (inv : Inv ids W c) (i : ℕ) (key : String)
        (v : LwwValue)
        → v.node_id ≡ ids i
        → ¬ Covers (lookup key (c.nodes i)) v
        → Inv ids
            (Also W key v)
            (record c { nodes = update c.nodes i (after_set key v (c.nodes i)) })
    write_new {W} {c} inv i key v own fresh =
        Inv-update inv i (after_set key v s) (λ k x w. inl w)
          (Also-coherent ids unique inv i key v own fresh)
          (record {
            same_name = unfold after_set in refl;
            distinct = after_set-IsDistinct key v s (inv.distinct i);
            written =
                unfold after_set in
                All-insert (λ x. Also W key v x.0 x.1) key (winner_of (lookup key s) v) s.state
                  (inr (refl, winner_of-fresh (lookup key s) v fresh))
                  (All-map (λ e w. inl w) s.state (inv.stores i));
            grows = λ k. after_set-Precedes k key v s;
          })
          (λ k x w. elim w [
            | inl old ↦ inl old
            | inr (e, f) ↦ inr (ap (λ (y : LwwValue). y.node_id) f ∙ own, held k x e f)
          ])
      where
        s : StateStore
        s = c.nodes i

        stored : lookup key (after_set key v s) ≡ some v
        stored = lookup-after_set_self key v s ∙ ap some (winner_of-fresh (lookup key s) v fresh)

        held :
            (k : String) (x : LwwValue) → k ≡ key → x ≡ v → Covers (lookup k (after_set key v s)) x
        held k x e f = rw (e, f, stored) (stamp_le_refl v)

    pub deliver-Inv :
        {W : String → LwwValue → Type 0} {c : Cluster} (inv : Inv ids W c) (j : ℕ) (d : StateDelta)
        → All (λ e. W e.0 e.1) d
        → Inv ids W (record c { nodes = update c.nodes j (merge_delta d (c.nodes j)).0 })
    deliver-Inv {W} {c} inv j d written =
        Inv-update inv j (merge_delta d s).0 (λ k x w. w) inv.coherent
          (record {
            same_name = node_id-merge_delta d s;
            distinct = merge_delta-IsDistinct d s (inv.distinct j);
            written = All-merge_delta (λ e. W e.0 e.1) d s (inv.stores j) written;
            grows = λ k. merge_delta-Precedes k d s;
          })
          (λ k x w. inl w)
      where
        s : StateStore
        s = c.nodes j
