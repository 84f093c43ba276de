-- ===== src/Seqno.antt =====
-- datatypes.c: comparison and distance of 32-bit sequence numbers.
pub mod Order
use estimators.Prelude.{
  ℕ, ◌+◌, ◌-◌, ◌^◌, ◌%◌, Bool, ◌&&◌, ltb, leb, ◌==◌, if◌then◌else◌, u32_mod, sub32,
}

-- What `seqcmp` returns: -1, 0 or 1.
pub data Sign : Type 0 where
  minus null plus : Sign

-- `static SEQNO upper`
abbrev pub upper : ℕ
upper = 2 ^ 31

unfoldable pub seqcmp : ℕ → ℕ → Sign
seqcmp s t =
    let diff = sub32 t s in
    if ltb 0 diff && ltb diff upper then minus else if s == t then null else plus

-- The code adds `(SEQNO)-1`, which is 2 ^ 32 - 1, to a difference that has already wrapped.
unfoldable pub modular_distance : ℕ → ℕ → ℕ
modular_distance s t = if leb s t then t - s else (sub32 t s + (2 ^ 32 - 1)) % 2 ^ 32
