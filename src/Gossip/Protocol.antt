-- ===== src/Gossip/Protocol.antt =====
-- src/gossip/protocol.rs: the messages and their frames, `[4-byte length, big-endian][payload]`.
-- bincode (see Bincode), the reader and the writer are not in the repository: they are records of the operations
-- that the source calls, with what their documentation promises.
pub mod Frame
use rust_high_throughput_sta.Common.{
  ℕ, ◌+◌, ◌*◌, ◌/◌, ◌%◌, ◌^◌, ◌<◌, ◌≤◌, String, ◌≡◌, Bool, Option, none, some, List, [], ◌∷◌, ◌++◌,
  All, length, ltb, if◌then◌else◌,
}
use rust_high_throughput_sta.Bincode.{Bincode, Bytes}
use rust_high_throughput_sta.State.Store.{StateDelta}

pub record GossipMessage : Type 0 where
  pub from_node_id : String
  pub from_gossip_addr : String
  pub deltas : StateDelta
  pub generation : ℕ

pub record GossipAck : Type 0 where
  pub from_node_id : String
  pub merged_count : ℕ

pub data Error : Type 0 where
  encode_failed decode_failed io_failed connect_timeout connect_failed ack_timeout : Error
  too_large : ℕ → Error

pub data Result {ℓ} (A : Type ℓ) : Type ℓ where
  ok : A → Result A
  err : Error → Result A

infixl 10 ◌>>=◌
abbrev pub ◌>>=◌ {ℓ κ} : {A : Type ℓ} {B : Type κ} → Result A → (A → Result B) → Result B
ok a >>= f = f a
err e >>= f = err e

-- `map_err(…)?` and `?`
abbrev pub or_err {ℓ} : {A : Type ℓ} → Error → Option A → Result A
or_err e none = err e
or_err e (some a) = ok a

-- `AsyncWriteExt`: `write_all` writes all its bytes or fails, and `flush` writes none.
pub record AsyncWrite (W : Type 0) : Type 0 where
  pub write_all : Bytes → W → Option W
  pub flush : W → Option W
  pub written : W → Bytes
  pub written-write_all :
      (bytes : Bytes) (w u : W) → write_all bytes w ≡ some u → written u ≡ written w ++ bytes
  pub written-flush : (w u : W) → flush w ≡ some u → written u ≡ written w

-- `AsyncReadExt::read_exact`: fills the buffer from the bytes to come, or fails at their end.
pub record AsyncRead (R : Type 0) : Type 0 where
  pub read_exact : ℕ → R → Option (Bytes × R)
  pub pending : R → Bytes
  pub read_exact-pending :
      (n : ℕ) (bytes rest : Bytes) (r : R)
      → pending r ≡ bytes ++ rest
      → length bytes ≡ n
      → (u : R) × (read_exact n r ≡ some (bytes, u)) × (pending u ≡ rest)
  pub read_exact-length :
      (n : ℕ) (bytes : Bytes) (r u : R)
      → read_exact n r ≡ some (bytes, u)
      → (pending r ≡ bytes ++ pending u) × (length bytes ≡ n)

abbrev pub max_message_bytes : ℕ
max_message_bytes = 16 * 1024 * 1024

-- `u32::to_be_bytes` and `u32::from_be_bytes`
unfoldable pub to_be_bytes : ℕ → Bytes
to_be_bytes n = n / 2 ^ 24 % 256 ∷ n / 2 ^ 16 % 256 ∷ n / 2 ^ 8 % 256 ∷ n % 256 ∷ []

unfoldable pub from_be_bytes : Bytes → ℕ
from_be_bytes (a ∷ b ∷ c ∷ d ∷ []) = a * 2 ^ 24 + b * 2 ^ 16 + c * 2 ^ 8 + d
from_be_bytes _ = 0

module _ {T W : Type 0} (codec : Bincode T) (sink : AsyncWrite W) where
  open codec use {serialize}
  open sink use {write_all, flush}

  unfoldable pub write_message : T → W → Result W
  unfolding to_be_bytes
  write_message msg writer = do
    payload ← or_err encode_failed (serialize msg)
    let len = length payload % 2 ^ 32
    w ← or_err io_failed (write_all (to_be_bytes len) writer)
    u ← or_err io_failed (write_all payload w)
    or_err io_failed (flush u)

module _ {T R : Type 0} (codec : Bincode T) (source : AsyncRead R) where
  open codec use {deserialize}
  open source use {read_exact}

  unfoldable pub read_message : R → Result (T × R)
  unfolding from_be_bytes
  read_message reader = do
    head ← or_err io_failed (read_exact 4 reader)
    let (len_buf, r) = head
    let len = from_be_bytes len_buf
    if ltb max_message_bytes len then err (too_large len) else do
      body ← or_err io_failed (read_exact len r)
      let (payload, u) = body
      msg ← or_err decode_failed (deserialize payload)
      ok (msg, u)
