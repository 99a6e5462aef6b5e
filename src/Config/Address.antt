-- ===== src/Config/Address.antt =====
-- Addresses: the printing of ports, and telling addresses apart.
use Prim.Native.Char.{code}
use Prim.Native.String.{◌++◌}
use text.Mathlib.TextLemmas.{nil-append, cons-append, append_cancel_left}
use rust_high_throughput_sta.Common.{
  ℕ, zero, suc, ◌+◌, ◌-◌, ◌*◌, ◌/◌, ◌%◌, ◌^◌, ◌<◌, String, ◌≡◌, ◌↔◌, sym, ap, ◌∙◌, arith, ltb, eqb,
  Bool-cases, inl, inr,
}
use rust_high_throughput_sta.Config.{Config, display, digit, display_u16, rpc_addr, gossip_addr}

-- The number that a text of decimal digits stands for, behind the digits `acc` before it.
pub read_from : ℕ → String → ℕ
read_from acc String.[] = acc
read_from acc (String.◌∷◌ c s) = read_from (10 * acc + (code c - 48)) s

read_from-append : (acc : ℕ) (s t : String) → read_from acc (s ++ t) ≡ read_from (read_from acc s) t
unfolding read_from
read_from-append acc String.[] t = rw nil-append
read_from-append acc (String.◌∷◌ c s) t =
    rw (cons-append c s t) (read_from-append (10 * acc + (code c - 48)) s t)

-- What holds of each number below `k`.
abbrev Below : (ℕ → Type 0) → ℕ → Type 0
Below P zero = Unit
Below P (suc k) = P k × Below P k

below_ind : (P : ℕ → Type 0) (k : ℕ) → Below P k → (n : ℕ) → n < k → P n
below_ind P zero h n l = absurd (omega arith)
below_ind P (suc k) h n l = elim (Bool-cases (eqb n k)) [
  | inl e ↦ let same : n ≡ k = ground arith in rw same h.0
  | inr e ↦ below_ind P k h.1 n (ground arith)
]

read_from-digit : (acc n : ℕ) → n < 10 → read_from acc (digit n) ≡ 10 * acc + n
unfolding read_from
read_from-digit acc n h =
    below_ind (λ k. read_from acc (digit k) ≡ 10 * acc + k) 10 (omega arith) n h

-- The numbers of at most `fuel` digits.
abbrev limit : ℕ → ℕ
limit zero = 1
limit (suc fuel) = 10 * limit fuel

-- With as many digits as fuel, a printed number is read back.
read_from-display : (fuel n : ℕ) → n < limit fuel → read_from 0 (display fuel n) ≡ n
unfolding display read_from
read_from-display zero n h = omega arith
read_from-display (suc fuel) n h = elim (Bool-cases (ltb n 10)) [
  | inl small ↦ rw small (read_from-digit 0 n (ground arith) ∙ omega arith)
  | inr large ↦
      rw
        (
          large,
          read_from-append 0 (display fuel (n / 10)) (digit (n % 10)),
          read_from-display fuel (n / 10) (omega arith),
        )
        (read_from-digit (n / 10) (n % 10) (omega arith) ∙ omega arith)
]

-- A port that was printed is read back: the five digits are enough.
pub display_u16-read_from : (port : ℕ) → port < 2 ^ 16 → read_from 0 (display_u16 port) ≡ port
unfolding display_u16
display_u16-read_from port h = read_from-display 5 port (omega arith)

-- On one host, the RPC address of a configuration and the gossip address of another are the same
-- text exactly if the ports, both of 16 bits, are the same number.
pub rpc_addr-eq-gossip_addr_iff :
    (c d : Config)
    → c.host ≡ d.host
    → c.rpc_port < 2 ^ 16
    → d.gossip_port < 2 ^ 16
    → (rpc_addr c ≡ gossip_addr d) ↔ (c.rpc_port ≡ d.gossip_port)
unfolding rpc_addr gossip_addr
rpc_addr-eq-gossip_addr_iff c d same hc hd = (
  λ e.
      sym (display_u16-read_from c.rpc_port hc)
      ∙ ap (read_from 0) (
          append_cancel_left ":" (display_u16 c.rpc_port) (display_u16 d.gossip_port) (
            append_cancel_left d.host (":" ++ display_u16 c.rpc_port)
              (":" ++ display_u16 d.gossip_port)
              (ap (λ h. h ++ (":" ++ display_u16 c.rpc_port)) (sym same) ∙ e)))
      ∙ display_u16-read_from d.gossip_port hd,
  λ e i. same i ++ (":" ++ display_u16 (e i)),
)
