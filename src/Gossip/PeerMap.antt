-- ===== src/Gossip/PeerMap.antt =====
-- The table of peers, a `DashMap<String, PeerInfo>`. dashmap is not in the repository: the record
-- has the operations that the source calls, each atomic, with what its documentation promises.
use mathlib.Core.List.{Mem}
use rust_high_throughput_sta.Common.{
  ℕ, String, ◌≡◌, ◌↔◌, Option, none, some, List, ◌==◌, if◌then◌else◌, length,
}

abbrev pub or_default {ℓ} : {A : Type ℓ} → A → Option A → A
or_default d none = d
or_default d (some a) = a

pub record DashMap (M V : Type 0) : Type 0 where
  pub empty : M
  pub get : String → M → Option V
  -- `entry(key).or_insert_with(|| default)`, and an update of the value that is then there.
  pub entry : String → V → (V → V) → M → M
  pub iter : M → List (String × V)
  pub len : M → ℕ
  pub get-empty : (k : String) → get k empty ≡ none
  pub get-entry :
      (k j : String) (default : V) (update : V → V) (m : M)
      → get j (entry k default update m)
        ≡ (if k == j then some (update (or_default default (get k m))) else get j m)
  pub mem-iter : (k : String) (v : V) (m : M) → Mem (k, v) (iter m) ↔ (get k m ≡ some v)
  pub len-iter : (m : M) → len m ≡ length (iter m)
