-- ===== src/State/Store/Events.antt =====
-- What a merge publishes.
use mathlib.Core.List.{append_assoc, append-nil}
use rust_high_throughput_sta.Common.{
  String, ◌≡◌, refl, sym, ap, ◌∙◌, Bool, true, false, some, List, [], ◌∷◌, ◌++◌, arith, All,
  All-map, All-append, map, ◌==◌, if◌then◌else◌, eq_refl, not, Bool-cases, inl, inr,
}
use rust_high_throughput_sta.HashMap.{HashMap, get}
use rust_high_throughput_sta.State.Crdt.{LwwValue}
use rust_high_throughput_sta.State.Store.{
  StateDelta, StateStore, StateEvent, winner_of, is_value, merge_entries, emit, publish, lookup,
  send, merge_delta,
}
use rust_high_throughput_sta.State.Store.View.{step, get-step, emit-SameButSent}
use rust_high_throughput_sta.State.Store.Merge.{pushed}

abbrev IsPresent : HashMap LwwValue → String → Type 0
IsPresent m k = (v : LwwValue) × (get k m ≡ some v)

step-IsPresent :
    (j : String) (v : LwwValue) (m : HashMap LwwValue) (k : String)
    → IsPresent m k
    → IsPresent (step j v m) k
step-IsPresent j v m k (w, e) = elim (Bool-cases (j == k)) [
  | inl t ↦ (winner_of (get k m) v, ground (arith, get-step k j v m))
  | inr f ↦ (w, ground (arith, get-step k j v m))
]

All-push :
    (P : String → Type 0) (b : Bool) (u : List String) (j : String)
    → All P u
    → P j
    → All P (if b then u ++ j ∷ [] else u)
All-push P true u j h p = All-append P u (j ∷ []) h (p, tt)
All-push P false u j h p = h

pushed-IsPresent :
    (j : String) (v : LwwValue) (m : HashMap LwwValue) (u : List String)
    → All (IsPresent m) u
    → All (IsPresent (step j v m)) (pushed j v m u)
pushed-IsPresent j v m u h =
    All-push (IsPresent (step j v m)) (not (is_value (winner_of (get j m) v) (get j m))) u j
      (All-map (step-IsPresent j v m) u h)
      (winner_of (get j m) v, ground (arith, get-step j j v m, eq_refl j))

-- Every key that the loop pushed is in the map that it leaves.
merge_entries-IsPresent :
    (d : StateDelta) (m : HashMap LwwValue) (u : List String)
    → All (IsPresent m) u
    → All (IsPresent (merge_entries d m u).0) (merge_entries d m u).1
unfolding merge_entries
merge_entries-IsPresent [] m u h = h
merge_entries-IsPresent ((j, v) ∷ d) m u h =
    merge_entries-IsPresent d (step j v m) (pushed j v m u) (pushed-IsPresent j v m u h)

-- An event for each key, in order, with the value that the store holds.
abbrev pub Announces : StateStore → List String → List StateEvent → Type 0
Announces s keys events =
    (map (λ (e : StateEvent). e.key) events ≡ keys)
    × All (λ (e : StateEvent). lookup e.key s ≡ some e.value) events

publish_present :
    (k : String) (s : StateStore) (v : LwwValue)
    → lookup k s ≡ some v
    → publish k s ≡ send (record { key = k; value = v }) s
unfolding publish
publish_present k s v e = rw (e, publish)

sent-emit :
    (keys : List String) (s : StateStore)
    → All (IsPresent s.state) keys
    → (events : List StateEvent) × ((emit keys s).sent ≡ s.sent ++ events) × Announces s keys events
unfolding emit
sent-emit [] s h = ([], sym (append-nil s.sent), (refl, tt))
sent-emit (k ∷ keys) s ((v, e), h) =
    let t = send (record { key = k; value = v }) s in
    let (events, log, (named, current)) = sent-emit keys t (unfold send in h) in
    (
      record { key = k; value = v } ∷ events,
      rw (emit, publish_present k s v e)
          (log ∙ (unfold send in append_assoc s.sent (record { key = k; value = v } ∷ []) events)),
      (ap (◌∷◌ k) named, (e, unfold send lookup in current)),
    )

-- A merge publishes one event for each key that it reports, in that order, and each event carries
-- the value that the store holds under its key afterwards.
pub merge_delta-Announces :
    (d : StateDelta) (s : StateStore)
    → (events : List StateEvent) × ((merge_delta d s).0.sent ≡ s.sent ++ events)
      × Announces (merge_delta d s).0 (merge_delta d s).1 events
unfolding merge_delta lookup
merge_delta-Announces d s =
    let (m, u) = merge_entries d s.state [] in
    let (events, log, (named, current)) =
      sent-emit u (record s { state = m }) (merge_entries-IsPresent d s.state [] tt) in
    (events, log, (named, rw (emit-SameButSent u (record s { state = m })).0 current))
