-- ===== src/Examples.antt =====
-- Concrete instances of what the development takes as parameters, and the theorems applied to
-- them: a peer table over an association list, readers and writers over a list of bytes, codecs
-- that know one value, and node names.
pub mod State
pub mod Frames
pub mod Gossip
pub mod Cluster
pub mod Rpc
pub mod Threads
pub mod Node
pub mod Config
use Prim.Native.String.{String}
use mathlib.Core.Path.{subst}
use mathlib.Core.HLevel.{hedberg}
use native.Mathlib.Decide.{ℕ_discrete}
use mathlib.Core.Option
use mathlib.Core.Option.{some-injective}
use mathlib.Core.List.{
  Mem, Memᴰ, mem-cons, not-mem-nil, mem-cons_self, mem-cons_of_mem, append_assoc,
}
use rust_high_throughput_sta.Common.{
  ℕ, zero, suc, ◌+◌, ◌≡◌, ◌↔◌, refl, sym, ap, ◌∙◌, Bool, true, false, Option, none, some, List, [],
  ◌∷◌, ◌++◌, length, arith, eq_iff, eq_refl, ◌==◌, if◌then◌else◌, inl, inr, Bool-cases,
  Option-cases, All-mem,
}
use rust_high_throughput_sta.HashMap.{HashMap, get, insert}
use rust_high_throughput_sta.HashMap.Laws.{IsDistinct, insert-IsDistinct, get-insert, All_of_get}
use rust_high_throughput_sta.Bincode.{Bincode, Bytes}
use rust_high_throughput_sta.Gossip.Peer.{PeerInfo}
use rust_high_throughput_sta.Gossip.PeerMap.{DashMap, or_default}
use rust_high_throughput_sta.Gossip.Protocol.{AsyncWrite, AsyncRead}

abbrev pub Table : Type 0
Table = (m : HashMap PeerInfo) × IsDistinct m

String-discrete : (s t : String) → Dec (s ≡ t)
String-discrete s t = elim (Bool-cases (s == t)) [
  | inl e ↦ yes ((eq_iff s t).0 e)
  | inr e ↦ no (λ h. cc (e, (eq_iff s t).1 h))
]

String-IsSet : IsSet String
String-IsSet = hedberg String-discrete

pub get-nil : (k : String) → get {V = PeerInfo} k [] ≡ none
unfolding get
get-nil k = refl

pub get_of_mem :
    (k : String) (v : PeerInfo) (m : HashMap PeerInfo)
    → IsDistinct m
    → Mem (k, v) m
    → get k m ≡ some v
get_of_mem k v m d h =
    All-mem (λ e. get e.0 m ≡ some e.1) (λ e. hlevel (String-IsSet, ℕ_discrete)) m
      (All_of_get (λ e. get e.0 m ≡ some e.1) m d (λ j w e. e)) (k, v) h

pub mem_of_get :
    (k : String) (v : PeerInfo) (m : HashMap PeerInfo) → get k m ≡ some v → Mem (k, v) m
unfolding get
mem_of_get k v [] e = cc
mem_of_get k v ((j, w) ∷ m) e = elim (Bool-cases (j == k)) [
  | inl t ↦
      subst (λ x. Mem x ((j, w) ∷ m)) (λ i. ((eq_iff j k).0 t i, some-injective w v (rw t at e) i))
        mem-cons_self
  | inr f ↦ mem-cons_of_mem (j, w) (mem_of_get k v m (rw f at e))
]

abbrev pub table : DashMap Table PeerInfo
table = record {
  empty = ([], tt);
  get = λ k m. get k m.0;
  entry = λ k d f m. (
    insert k (f (or_default d (get k m.0))) m.0,
    insert-IsDistinct k (f (or_default d (get k m.0))) m.0 m.1,
  );
  iter = λ m. m.0;
  len = λ m. length m.0;
  get-empty = get-nil;
  get-entry = λ k j d f m. get-insert k j (f (or_default d (get k m.0))) m.0;
  mem-iter = λ k v m. (get_of_mem k v m.0 m.1, mem_of_get k v m.0);
  len-iter = λ m. refl;
}

-- A writer that keeps what was written.
abbrev pub buffer : AsyncWrite Bytes
buffer = record {
  write_all = λ bytes w. some (w ++ bytes);
  flush = λ w. some w;
  written = λ w. w;
  written-write_all = λ bytes w u h. some-injective u (w ++ bytes) (sym h);
  written-flush = λ w u h. some-injective u w (sym h);
}

abbrev pub split_at : ℕ → Bytes → Option (Bytes × Bytes)
split_at zero r = some ([], r)
split_at (suc n) [] = none
split_at (suc n) (b ∷ r) = Option.map (λ p. (b ∷ p.0, p.1)) (split_at n r)

pub split_at-append :
    (bytes rest : Bytes) → split_at (length bytes) (bytes ++ rest) ≡ some (bytes, rest)
split_at-append [] rest = refl
split_at-append (b ∷ bytes) rest = rw (split_at-append bytes rest)

map-some :
    (o : Option (Bytes × Bytes)) (f : Bytes × Bytes → Bytes × Bytes) {b : Bytes × Bytes}
    → Option.map f o ≡ some b
    → (a : Bytes × Bytes) × (o ≡ some a) × (f a ≡ b)
map-some none f h = cc
map-some (some a) f h = (a, refl, some-injective (f a) _ h)

pub split_at_inv :
    (n : ℕ) (r bytes u : Bytes)
    → split_at n r ≡ some (bytes, u)
    → (r ≡ bytes ++ u) × (length bytes ≡ n)
split_at_inv zero r bytes u h = ground arith
split_at_inv (suc n) [] bytes u h = cc
split_at_inv (suc n) (b ∷ r) bytes u h =
    let ((p, q), e, f) = map-some (split_at n r) _ h in
    let (split, len) = split_at_inv n r p q e in ground (arith)

-- A reader of the bytes of a list.
abbrev pub bytes_to_come : AsyncRead Bytes
bytes_to_come = record {
  read_exact = split_at;
  pending = λ r. r;
  read_exact-pending =
      λ n bytes rest r h e. (rest, rw (h, sym e) (split_at-append bytes rest), refl);
  read_exact-length = λ n bytes r u h. split_at_inv n r bytes u h;
}

pub only_one :
    {T : Type 0} (eq : T → T → Bool) (sound : (a b : T) → eq a b ≡ true → a ≡ b) (t : T)
    (payload : Bytes) (m : T) (bytes : Bytes)
    → (if eq m t then some payload else none) ≡ some bytes
    → some t ≡ some m
only_one eq sound t payload m bytes h = elim (Bool-cases (eq m t)) [
  | inl e ↦ ap some (sym (sound m t e))
  | inr e ↦ cc (rw e at h)
]

-- A codec of one value and its encoding.
abbrev pub encoding :
    {T : Type 0} (eq : T → T → Bool) → ((a b : T) → eq a b ≡ true → a ≡ b) → T → Bytes → Bincode T
encoding eq sound t payload = record {
  serialize = λ m. if eq m t then some payload else none;
  deserialize = λ bytes. some t;
  deserialize-serialize = λ m bytes h. only_one eq sound t payload m bytes h;
}

-- A different name for each number.
abbrev pub unary : ℕ → String
unary zero = String.[]
unary (suc n) = String.◌∷◌ "n" (unary n)

abbrev count : String → ℕ
count String.[] = 0
count (String.◌∷◌ c s) = suc (count s)

count-unary : (n : ℕ) → count (unary n) ≡ n
count-unary zero = refl
count-unary (suc n) = ap suc (count-unary n)

pub unary-injective : (i j : ℕ) → unary i ≡ unary j → i ≡ j
unary-injective i j h = sym (count-unary i) ∙ ap count h ∙ count-unary j
