-- ===== src/Seqno/Order.antt =====
-- What `seqcmp` and `modular_distance` promise: a comparison on a half window of the circle, and the
-- number of steps from one sequence number to another.
use estimators.Prelude.{if◌then◌else◌, ltb, ℕ, ◌+◌, ◌-◌, ◌^◌, ◌%◌, ◌<◌, ◌≡◌, ◌≢◌, ◌↔◌, arith}
use estimators.Seqno.{Sign, minus, null, plus, seqcmp, modular_distance}

-- `flip` is the sign of the swapped comparison.
abbrev pub flip : Sign → Sign
flip minus = plus
flip null = null
flip plus = minus

-- On sequence numbers `seqcmp` answers 0 exactly for equal arguments, and -1 exactly when the second
-- argument lies 1 to 2 ^ 31 - 1 steps ahead of the first on the circle of 2 ^ 32 numbers.
pub seqcmp_window :
    (s t : ℕ)
    → s < 2 ^ 32
    → t < 2 ^ 32
    → ((seqcmp s t ≡ null) ↔ (s ≡ t))
      × ((seqcmp s t ≡ minus)
          ↔ ((0 < (t + 2 ^ 32 - s) % 2 ^ 32) × ((t + 2 ^ 32 - s) % 2 ^ 32 < 2 ^ 31)))
unfolding seqcmp
seqcmp_window s t hs ht = ground arith

-- Away from the antipode the comparison is antisymmetric.
seqcmp_swap :
    (s t : ℕ)
    → s < 2 ^ 32
    → t < 2 ^ 32
    → (t + 2 ^ 32 - s) % 2 ^ 32 ≢ 2 ^ 31
    → seqcmp t s ≡ flip (seqcmp s t)
unfolding seqcmp
seqcmp_swap s t hs ht h = ground arith

-- Inside a window of less than half the circle, counted from any base, also across the wrap,
-- `seqcmp` orders by the offset.
seqcmp_offsets :
    (base i j : ℕ)
    → i < 2 ^ 31
    → j < 2 ^ 31
    → (seqcmp ((base + i) % 2 ^ 32) ((base + j) % 2 ^ 32) ≡ minus) ↔ (i < j)
unfolding seqcmp
seqcmp_offsets base i j hi hj = ground arith

-- Walking the distance from `s` leads to `t` on the circle, but for a numerically smaller `t`, past
-- the wrap, where one more step is needed: there the distance is one too small. It fits 32 bits.
pub modular_distance_steps :
    (s t : ℕ)
    → s < 2 ^ 32
    → t < 2 ^ 32
    → ((s + modular_distance s t + (if ltb t s then 1 else 0)) % 2 ^ 32 ≡ t)
      × (modular_distance s t < 2 ^ 32)
unfolding modular_distance
modular_distance_steps s t hs ht = ground arith
