-- ===== src/State/Snapshot.antt =====
-- src/state/snapshot.rs: deltas to bytes and back. The two errors are the two failures of bincode.
use rust_high_throughput_sta.Common.{◌≡◌, arith, Option, none, some}
use rust_high_throughput_sta.Bincode.{Bincode, Bytes}
use rust_high_throughput_sta.State.Store.{StateDelta}

pub data SnapshotError : Type 0 where
  snapshot_serialize snapshot_deserialize : SnapshotError

pub data Result {ℓ} (A : Type ℓ) : Type ℓ where
  ok : A → Result A
  err : SnapshotError → Result A

abbrev map_err {ℓ} : {A : Type ℓ} → SnapshotError → Option A → Result A
map_err e none = err e
map_err e (some a) = ok a

module _ (codec : Bincode StateDelta) where
  unfoldable pub serialize_delta : StateDelta → Result Bytes
  serialize_delta delta = map_err snapshot_serialize (codec.serialize delta)

  unfoldable pub deserialize_delta : Bytes → Result StateDelta
  deserialize_delta bytes = map_err snapshot_deserialize (codec.deserialize bytes)

  -- A delta that was serialized is read back.
  pub deserialize-serialize :
      (delta : StateDelta) (bytes : Bytes)
      → serialize_delta delta ≡ ok bytes
      → deserialize_delta bytes ≡ ok delta
  unfolding serialize_delta deserialize_delta
  deserialize-serialize delta bytes h = ground (arith, codec.deserialize-serialize delta bytes)
