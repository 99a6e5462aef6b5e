-- ===== src/Gossip/Protocol/Frame.antt =====
-- Frames: writing, reading, and the limit on their length.
use mathlib.Core.List.{append_assoc, append_cancel_left}
use mathlib.Core.Option.{some-injective}
use rust_high_throughput_sta.Common.{
  ℕ, ◌%◌, ◌^◌, ◌<◌, ◌≤◌, ◌≡◌, ◌≢◌, refl, sym, ap, ◌∙◌, Option, none, some, ◌++◌, length, arith, ltb,
  if◌then◌else◌, Bool-cases, inl, inr, lt→ltb, false,
}
use rust_high_throughput_sta.Bincode.{Bincode, Bytes}
use rust_high_throughput_sta.Gossip.Protocol.{
  AsyncWrite, AsyncRead, Result, ok, err, Error, encode_failed, decode_failed, io_failed, too_large,
  max_message_bytes, to_be_bytes, from_be_bytes, write_message, read_message, or_err, ◌>>=◌,
}

pub from_be_bytes-to_be_bytes : (n : ℕ) → n < 2 ^ 32 → from_be_bytes (to_be_bytes n) ≡ n
unfolding to_be_bytes from_be_bytes
from_be_bytes-to_be_bytes n h = omega arith

length-to_be_bytes : (n : ℕ) → length (to_be_bytes n) ≡ 4
unfolding to_be_bytes
length-to_be_bytes n = refl

wrapped : (n : ℕ) → n < 2 ^ 32 → n % 2 ^ 32 ≡ n
wrapped n h = omega arith

abbrev pub frame : Bytes → Bytes
frame payload = to_be_bytes (length payload % 2 ^ 32) ++ payload

-- Inversion of a step that succeeded.
or_err-ok {ℓ κ} :
    {A : Type ℓ} {B : Type κ} (e : Error) (o : Option A) (f : A → Result B) {b : B}
    → (or_err e o >>= f) ≡ ok b
    → (a : A) × (o ≡ some a) × (f a ≡ ok b)
or_err-ok e none f h = cc
or_err-ok e (some a) f h = (a, refl, h)

or_err_inv {ℓ} : {A : Type ℓ} (e : Error) (o : Option A) (a : A) → or_err e o ≡ ok a → o ≡ some a
or_err_inv e none a h = cc
or_err_inv e (some b) a h = cc

module _ {T W : Type 0} (codec : Bincode T) (sink : AsyncWrite W) where
  -- A message that was written without an error is its frame, behind what was there.
  pub write_message-frame :
      (msg : T) (w u : W)
      → write_message codec sink msg w ≡ ok u
      → (payload : Bytes) × (codec.serialize msg ≡ some payload)
        × (sink.written u ≡ sink.written w ++ frame payload)
  unfolding write_message
  write_message-frame msg w u h =
      let (payload, encoded, h₁) = or_err-ok encode_failed (codec.serialize msg) _ h in
      let (a, wrote_len, h₂) =
        or_err-ok io_failed (sink.write_all (to_be_bytes (length payload % 2 ^ 32)) w) _ h₁ in
      let (b, wrote_all, h₃) = or_err-ok io_failed (sink.write_all payload a) _ h₂ in
      let flushed : sink.flush b ≡ some u = or_err_inv io_failed (sink.flush b) u h₃ in
      (
        payload,
        encoded,
        sink.written-flush b u flushed
            ∙ sink.written-write_all payload a b wrote_all
            ∙ ap (λ bs. bs ++ payload)
                (sink.written-write_all (to_be_bytes (length payload % 2 ^ 32)) w a wrote_len)
            ∙ append_assoc (sink.written w) (to_be_bytes (length payload % 2 ^ 32)) payload,
      )

taken {ℓ} : {A : Type ℓ} (o : Option A) → o ≢ none → (a : A) × (o ≡ some a)
taken none h = absurd (h refl)
taken (some a) h = (a, refl)

-- The test of the length let the rest run.
guarded {ℓ} :
    {A : Type ℓ} (n : ℕ) (k : Result A) {a : A}
    → (if ltb max_message_bytes n then err (too_large n) else k) ≡ ok a
    → (n ≤ max_message_bytes) × (k ≡ ok a)
guarded n k h = elim (Bool-cases (ltb max_message_bytes n)) [
  | inl long ↦ cc (rw long at h)
  | inr short ↦ (ground arith, rw short at h)
]

module _ {T R : Type 0} (codec : Bincode T) (source : AsyncRead R) where
  -- The length of a frame below 4 GiB is read from its first four bytes.
  read_length :
      (payload rest : Bytes) (r : R)
      → source.pending r ≡ frame payload ++ rest
      → (u : R) × (source.read_exact 4 r ≡ some (to_be_bytes (length payload % 2 ^ 32), u))
        × (source.pending u ≡ payload ++ rest)
  read_length payload rest r h =
      let len = to_be_bytes (length payload % 2 ^ 32) in
      source.read_exact-pending 4 len (payload ++ rest) r (h ∙ append_assoc len payload rest)
        (length-to_be_bytes (length payload % 2 ^ 32))

  -- A frame of at most 16 MiB is read whole, and its payload is decoded.
  pub read_message-frame :
      (payload rest : Bytes) (r : R)
      → length payload ≤ max_message_bytes
      → source.pending r ≡ frame payload ++ rest
      → (u : R) × (source.pending u ≡ rest)
        × (read_message codec source r
            ≡ (or_err decode_failed (codec.deserialize payload) >>= λ msg. ok (msg, u)))
  unfolding read_message
  read_message-frame payload rest r short h =
      let (a, read_len, left) = read_length payload rest r h in
      let (u, read_all, done) =
        source.read_exact-pending (length payload) payload rest a left refl in
      (
        u,
        done,
        rw (
          read_len,
          wrapped (length payload) (omega arith),
          from_be_bytes-to_be_bytes (length payload) (omega arith),
          test,
          read_all,
        ),
      )
    where
      test : ltb max_message_bytes (length payload) ≡ false
      test = ground arith

  -- A longer frame, below 4 GiB, is refused before its payload is read.
  pub read_message_too_large :
      (payload rest : Bytes) (r : R)
      → max_message_bytes < length payload
      → length payload < 2 ^ 32
      → source.pending r ≡ frame payload ++ rest
      → read_message codec source r ≡ err (too_large (length payload))
  unfolding read_message
  read_message_too_large payload rest r long fits h =
      let (a, read_len, left) = read_length payload rest r h in
      rw (
        read_len,
        wrapped (length payload) fits,
        from_be_bytes-to_be_bytes (length payload) fits,
        lt→ltb _ _ long,
      )

  -- What the steps of a reading that succeeded say together.
  read_parts :
      (r a b u : R) (head payload : Bytes) (m msg : T)
      → source.read_exact 4 r ≡ some (head, a)
      → from_be_bytes head ≤ max_message_bytes
      → source.read_exact (from_be_bytes head) a ≡ some (payload, b)
      → codec.deserialize payload ≡ some m
      → ◌≡◌ {A = Result (T × R)} (ok (m, b)) (ok (msg, u))
      → (source.pending r ≡ head ++ (payload ++ source.pending u))
        × (length head ≡ 4)
        × (length payload ≡ from_be_bytes head)
        × (length payload ≤ max_message_bytes)
        × (codec.deserialize payload ≡ some msg)
  read_parts r a b u head payload m msg read_len small read_all decoded e =
      let (split, four) = source.read_exact-length 4 head r a read_len in
      let (rest, len) = source.read_exact-length (from_be_bytes head) payload a b read_all in
      (
        split ∙ ap (λ bs. head ++ bs) rest ∙ ap (λ x. head ++ (payload ++ source.pending x)) (cc),
        four,
        len,
        omega arith,
        decoded ∙ ap some (cc),
      )

  -- What is decoded had at most 16 MiB, and the reader took the length and that payload.
  pub read_message_bounded :
      (r u : R) (msg : T)
      → read_message codec source r ≡ ok (msg, u)
      → (head : Bytes) × (payload : Bytes) × (source.pending r
          ≡ head ++ (payload ++ source.pending u))
        × (length head ≡ 4)
        × (length payload ≡ from_be_bytes head)
        × (length payload ≤ max_message_bytes)
        × (codec.deserialize payload ≡ some msg)
  unfolding read_message
  read_message_bounded r u msg h =
      let ((head, a), read_len, h₁) = or_err-ok io_failed (source.read_exact 4 r) _ h in
      let (small, h₂) = guarded (from_be_bytes head) _ h₁ in
      let ((payload, b), read_all, h₃) =
        or_err-ok io_failed (source.read_exact (from_be_bytes head) a) _ h₂ in
      let (m, decoded, h₄) = or_err-ok decode_failed (codec.deserialize payload) _ h₃ in
      let (p₀, p₁, p₂, p₃, p₄) =
        read_parts r a b u head payload m msg read_len small read_all decoded h₄ in
      (head, payload, p₀, p₁, p₂, p₃, p₄)

module _ {T W : Type 0} (codec : Bincode T) (sink : AsyncWrite W) where
  sent-frame :
      (msg : T) (payload sent : Bytes) (w v : W)
      → codec.serialize msg ≡ some payload
      → write_message codec sink msg w ≡ ok v
      → sink.written v ≡ sink.written w ++ sent
      → sent ≡ frame payload
  sent-frame msg payload sent w v encoded wrote appended =
      let (p, encoded', framed) = write_message-frame codec sink msg w v wrote in
      append_cancel_left (sink.written w) sent (frame payload) (
        sym appended
        ∙ framed
        ∙ ap (λ b. sink.written w ++ frame b) (some-injective p payload (sym encoded' ∙ encoded)))

module _ {T W R : Type 0} (codec : Bincode T) (sink : AsyncWrite W) (source : AsyncRead R) where
  -- The bytes that a write without an error appends, whatever follows them, are read back as the
  -- message, and what follows is left, if the encoding has at most 16 MiB.
  pub read_message-write_message :
      (msg : T) (payload sent rest : Bytes) (w v : W) (r : R)
      → codec.serialize msg ≡ some payload
      → length payload ≤ max_message_bytes
      → write_message codec sink msg w ≡ ok v
      → sink.written v ≡ sink.written w ++ sent
      → source.pending r ≡ sent ++ rest
      → (u : R) × (read_message codec source r ≡ ok (msg, u)) × (source.pending u ≡ rest)
  read_message-write_message msg payload sent rest w v r encoded short wrote appended pending =
      let (u, left, result) = read_message-frame codec source payload rest r short (
        pending
        ∙ ap (λ bs. bs ++ rest)
            (sent-frame codec sink msg payload sent w v encoded wrote appended)) in
      (u, rw (result, codec.deserialize-serialize msg payload encoded), left)

  -- A writer that takes everything lets every message through that can be encoded.
  write_message-ok :
      (msg : T) (payload : Bytes) (w : W)
      → codec.serialize msg ≡ some payload
      → ((bytes : Bytes) (w : W) → sink.write_all bytes w ≢ none)
      → ((w : W) → sink.flush w ≢ none)
      → (v : W) × (write_message codec sink msg w ≡ ok v)
  unfolding write_message
  write_message-ok msg payload w encoded takes flushes =
      let head = to_be_bytes (length payload % 2 ^ 32) in
      let (a, wrote_len) = taken (sink.write_all head w) (takes head w) in
      let (b, wrote_all) = taken (sink.write_all payload a) (takes payload a) in
      let (v, flushed) = taken (sink.flush b) (flushes b) in
      (v, rw (encoded, wrote_len, wrote_all, flushed))

  -- A message whose encoding is longer than 16 MiB, and below 4 GiB, is written without an error to
  -- every writer that takes its bytes: the writer has got the frame of the encoding, and every
  -- reader to which that frame comes refuses it as too large.
  pub oversized_refused :
      (msg : T) (payload : Bytes) (w : W)
      → codec.serialize msg ≡ some payload
      → ((bytes : Bytes) (w : W) → sink.write_all bytes w ≢ none)
      → ((w : W) → sink.flush w ≢ none)
      → max_message_bytes < length payload
      → length payload < 2 ^ 32
      → (v : W) × (sent : Bytes) × (write_message codec sink msg w ≡ ok v)
        × (sink.written v ≡ sink.written w ++ sent)
        × ((rest : Bytes) (r : R)
            → source.pending r ≡ sent ++ rest
            → read_message codec source r ≡ err (too_large (length payload)))
  oversized_refused msg payload w encoded takes flushes long fits =
      let (v, wrote) = write_message-ok msg payload w encoded takes flushes in
      let (p, encoded', framed) = write_message-frame codec sink msg w v wrote in
      (
        v,
        frame payload,
        wrote,
        framed
            ∙ ap (λ b. sink.written w ++ frame b)
                (some-injective p payload (sym encoded' ∙ encoded)),
        λ rest r. read_message_too_large codec source payload rest r long fits,
      )
