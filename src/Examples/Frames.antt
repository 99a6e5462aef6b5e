-- ===== src/Examples/Frames.antt =====
-- The theorems on frames at one acknowledgement and a list of bytes.
use rust_high_throughput_sta.Common.{
  ℕ, zero, suc, ◌+◌, ◌≡◌, ◌≤◌, refl, ap, Bool, true, some, [], ◌∷◌, ◌++◌, arith, eq_iff, ◌==◌, ◌&&◌,
  eqb, length,
}
use rust_high_throughput_sta.Bincode.{Bincode, Bytes}
use rust_high_throughput_sta.Gossip.Protocol.{
  GossipAck, ok, err, too_large, max_message_bytes, from_be_bytes, write_message, read_message,
}
use rust_high_throughput_sta.Gossip.Protocol.Frame.{
  read_message-write_message, oversized_refused, read_message_bounded,
}
use rust_high_throughput_sta.Examples.{buffer, bytes_to_come, encoding}

abbrev pub ack_eq : GossipAck → GossipAck → Bool
ack_eq a b = a.from_node_id == b.from_node_id && eqb a.merged_count b.merged_count

pub ack_eq_sound : (a b : GossipAck) → ack_eq a b ≡ true → a ≡ b
ack_eq_sound a b h = ground (arith, eq_iff a.from_node_id b.from_node_id)

abbrev pub ack : GossipAck
ack = record { from_node_id = "a"; merged_count = 2 }

abbrev pub encoded_ack : Bytes
encoded_ack = 97 ∷ 2 ∷ []

abbrev pub ack_codec : Bincode GossipAck
ack_codec = encoding ack_eq ack_eq_sound ack encoded_ack

read_message-write_message_example :
    (u : Bytes) × (read_message ack_codec bytes_to_come (0 ∷ 0 ∷ 0 ∷ 2 ∷ 97 ∷ 2 ∷ 7 ∷ [])
      ≡ ok (ack, u))
    × (u ≡ 7 ∷ [])
unfolding write_message
read_message-write_message_example =
    read_message-write_message ack_codec buffer bytes_to_come ack encoded_ack
      (0 ∷ 0 ∷ 0 ∷ 2 ∷ 97 ∷ 2 ∷ []) (7 ∷ []) [] (0 ∷ 0 ∷ 0 ∷ 2 ∷ 97 ∷ 2 ∷ [])
      (0 ∷ 0 ∷ 0 ∷ 2 ∷ 97 ∷ 2 ∷ 7 ∷ []) refl (omega arith) refl refl refl

abbrev Parts : Bytes → Bytes → Type 0
Parts r u =
    (head : Bytes) × (payload : Bytes) × (r ≡ head ++ (payload ++ u))
    × (length head ≡ 4)
    × (length payload ≡ from_be_bytes head)
    × (length payload ≤ max_message_bytes)
    × (ack_codec.deserialize payload ≡ some ack)

read_message_bounded_example : Parts (0 ∷ 0 ∷ 0 ∷ 2 ∷ 97 ∷ 2 ∷ 7 ∷ []) (7 ∷ [])
unfolding read_message
read_message_bounded_example =
    read_message_bounded ack_codec bytes_to_come (0 ∷ 0 ∷ 0 ∷ 2 ∷ 97 ∷ 2 ∷ 7 ∷ []) (7 ∷ []) ack refl

-- A payload that is too long.
zeros : ℕ → Bytes
zeros zero = []
zeros (suc n) = 0 ∷ zeros n

length-zeros : (n : ℕ) → length (zeros n) ≡ n
unfolding zeros
length-zeros zero = refl
length-zeros (suc n) = ap suc (length-zeros n)

abbrev long : Bytes
long = zeros (max_message_bytes + 1)

long-length : length long ≡ 16_777_217
long-length = length-zeros (max_message_bytes + 1)

abbrev long_codec : Bincode GossipAck
long_codec = encoding ack_eq ack_eq_sound ack long

oversized_refused_example :
    (v : Bytes) × (sent : Bytes) × (write_message long_codec buffer ack [] ≡ ok v)
    × (v ≡ sent)
    × ((rest r : Bytes)
        → r ≡ sent ++ rest
        → read_message long_codec bytes_to_come r ≡ err (too_large (length long)))
oversized_refused_example =
    oversized_refused long_codec buffer bytes_to_come ack long [] refl (λ bytes w e. cc) (λ w e. cc)
      (omega (arith, long-length)) (omega (arith, long-length))
