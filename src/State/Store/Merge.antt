-- ===== src/State/Store/Merge.antt =====
-- `merge_delta`: which keys it reports, and what a second merge of the same delta does.
use rust_high_throughput_sta.Common.{
  String, ◌≡◌, ◌≢◌, ◌↔◌, refl, sym, ap, ◌∙◌, ◌⊎◌, inl, inr, Bool, true, false, not, Option, none,
  some, List, [], ◌∷◌, ◌++◌, arith, eq_iff, ◌==◌, ◌||◌, ◌&&◌, if◌then◌else◌, Bool-cases,
  Option-cases, All, All-diagonal, contains, contains-append,
}
use mathlib.Core.Path.{subst}
use rust_high_throughput_sta.HashMap.{HashMap, get}
use rust_high_throughput_sta.State.Crdt.{LwwValue}
use rust_high_throughput_sta.State.Crdt.Laws.{merge_of_le, merge_of_gt}
use rust_high_throughput_sta.State.Store.{
  StateDelta, StateStore, winner_of, is_value, merge_entries, emit, lookup, merge_delta,
}
use rust_high_throughput_sta.State.Store.View.{
  step, get-step, is_value_iff, get-merge_entries, lookup-merge_delta, state-merge_delta,
}
use rust_high_throughput_sta.State.Store.Covers.{
  Covers, Precedes, Precedes-one, one, Precedes-trans, Precedes-absorb, Precedes-refl,
  Covers-absorb, winner_of-covered,
}

-- A merge that changes a key makes it strictly newer.
winner_of-newer :
    (o : Option LwwValue) (v : LwwValue)
    → is_value (winner_of o v) o ≡ false
    → ¬ Covers o (winner_of o v)
winner_of-newer none v h = λ c. c
winner_of-newer (some w) v h =
    ground (arith, is_value_iff (winner_of (some w) v) (some w), merge_of_le w v, merge_of_gt w v)

abbrev pub pushed : String → LwwValue → HashMap LwwValue → List String → List String
pushed j v m u = if not (is_value (winner_of (get j m) v) (get j m)) then u ++ j ∷ [] else u

contains-pushed :
    (k j : String) (v : LwwValue) (m : HashMap LwwValue) (u : List String)
    → contains (pushed j v m u) k
      ≡ (contains u k || (j == k && not (is_value (winner_of (get j m) v) (get j m))))
contains-pushed k j v m u = ground (arith, contains-append k u (j ∷ []))

or_cases : (a b : Bool) → (a || b) ≡ true → (a ≡ true) ⊎ (b ≡ true)
or_cases a b h = ground arith

get-step-one :
    (k j : String) (v : LwwValue) (m : HashMap LwwValue)
    → get k (step j v m) ≡ one k (get k m) (j, v)
get-step-one = get-step

-- A key that was pushed by this round is newer than before.
pushed-newer :
    (k j : String) (v : LwwValue) (m : HashMap LwwValue)
    → (j == k && not (is_value (winner_of (get j m) v) (get j m))) ≡ true
    → ¬ Precedes (get k (step j v m)) (get k m)
pushed-newer k j v m h p =
    let e : j ≡ k = ground (arith, eq_iff j k) in
    let old : get k (step j v m) ≡ some (winner_of (get j m) v) =
      ground (arith, get-step k j v m, eq_iff j k) in
    winner_of-newer (get j m) v (ground arith)
      (subst (λ i. Covers (get i m) (winner_of (get j m) v)) (sym e) (rw old at p))

reported :
    (k : String) (d : StateDelta) (m : HashMap LwwValue) (u : List String)
    → contains (merge_entries d m u).1 k ≡ true
    → (contains u k ≡ true) ⊎ (¬ Precedes (get k (merge_entries d m u).0) (get k m))
unfolding merge_entries
reported k [] m u h = inl h
reported k ((j, v) ∷ d) m u h = elim (reported k d (step j v m) (pushed j v m u) h) [
  | inl c ↦ elim (or_cases (contains u k) _ (sym (contains-pushed k j v m u) ∙ c)) [
    | inl old ↦ inl old
    | inr new ↦ inr λ p. pushed-newer k j v m new (Precedes-trans _ _ _ (grows_step) p)
  ]
  | inr n ↦ inr λ p. n (Precedes-trans _ _ _ p older)
]
  where
    older : Precedes (get k m) (get k (step j v m))
    older = rw (get-step-one k j v m) (Precedes-one k (get k m) (j, v))

    grows_step :
        Precedes (get k (step j v m)) (get k (merge_entries d (step j v m) (pushed j v m u)).0)
    grows_step = rw get-merge_entries (Precedes-absorb k (get k (step j v m)) d)

pub unreported :
    (k : String) (d : StateDelta) (m : HashMap LwwValue) (u : List String)
    → contains (merge_entries d m u).1 k ≡ false
    → (contains u k ≡ false) × (get k (merge_entries d m u).0 ≡ get k m)
unfolding merge_entries
unreported k [] m u h = (h, refl)
unreported k ((j, v) ∷ d) m u h = ground (
  arith,
  unreported k d (step j v m) (pushed j v m u),
  contains-pushed k j v m u,
  get-step k j v m,
  is_value_iff (winner_of (get j m) v) (get j m),
  eq_iff j k,
)

-- The keys that `merge_delta` returns are exactly those whose value it changed.
pub merge_delta-reports_changes :
    (k : String) (d : StateDelta) (s : StateStore)
    → (contains (merge_delta d s).1 k ≡ true) ↔ (lookup k (merge_delta d s).0 ≢ lookup k s)
unfolding merge_delta lookup
merge_delta-reports_changes k d s = (
  λ h e. elim (reported k d s.state [] h) [
    | inl c ↦ cc
    | inr n ↦ n (
        subst (λ o. Precedes o (get k s.state)) (sym (sym (ap (get k) (state-merge_delta d s)) ∙ e))
          (Precedes-refl (get k s.state)))
  ],
  λ h. elim (Bool-cases (contains (merge_entries d s.state []).1 k)) [
    | inl c ↦ c
    | inr c ↦ absurd (h (ap (get k) (state-merge_delta d s) ∙ (unreported k d s.state [] c).1))
  ],
)

-- A delta whose entries are all covered changes nothing and reports nothing.
merge_entries_covered :
    (d : StateDelta) (m : HashMap LwwValue) (u : List String)
    → All (λ e. Covers (get e.0 m) e.1) d
    → merge_entries d m u ≡ (m, u)
unfolding merge_entries
merge_entries_covered [] m u h = refl
merge_entries_covered ((j, v) ∷ d) m u h = elim (Option-cases (get j m)) [
  | inl e ↦ absurd (rw e at h.0)
  | inr (w, e) ↦
      rw (e, winner_of-covered w v (rw e at h.0), (is_value_iff w (some w)).1 refl)
        (merge_entries_covered d m u h.1)
]

pub merge_delta_covered :
    (d : StateDelta) (s : StateStore)
    → All (λ e. Covers (lookup e.0 s) e.1) d
    → merge_delta d s ≡ (s, [])
unfolding merge_delta lookup emit
merge_delta_covered d s h = rw (merge_entries_covered d s.state [] h)

-- After a merge, each entry of the delta is covered.
pub merge_delta-Covers :
    (d : StateDelta) (s : StateStore) → All (λ e. Covers (lookup e.0 (merge_delta d s).0) e.1) d
merge_delta-Covers d s =
    All-diagonal (λ e. e.0) (λ k e. Covers (lookup k (merge_delta d s).0) e.1) d
      λ k. rw lookup-merge_delta (Covers-absorb k (lookup k s) d)

-- Merging the same delta again changes nothing, publishes nothing and reports nothing.
merge_delta_idem :
    (d : StateDelta) (s : StateStore)
    → merge_delta d (merge_delta d s).0 ≡ ((merge_delta d s).0, [])
merge_delta_idem d s = merge_delta_covered d (merge_delta d s).0 (merge_delta-Covers d s)
