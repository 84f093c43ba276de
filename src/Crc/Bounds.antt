-- ===== src/Crc/Bounds.antt =====
-- How wide the checksum is: the table is never read past its end, and a buffer of four bytes or more
-- has a checksum of 32 bits, although the code starts from 64 bits that are set.
use estimators.Prelude.{
  ℕ, zero, suc, ◌-◌, ◌/◌, ◌%◌, ◌^◌, ◌≡◌, ◌≤◌, ◌<◌, arith, List, [], ◌∷◌, length, get_or, refl, ltb,
  ◌&&◌, Bool, true,
}
use estimators.Crc.{xor, crc_c, crc32c, crc_bytes, crc_generate}

-- No bit of the result stands above the bits of the arguments.
xor-lt : (n m a b : ℕ) → a < 2 ^ m → b < 2 ^ m → xor n a b < 2 ^ m
unfolding xor
xor-lt zero m a b h k = omega arith
xor-lt (suc n) zero a b h k = omega (arith, xor-lt n 0 (a / 2) (b / 2) (omega arith) (omega arith))
xor-lt (suc n) (suc m) a b h k =
    omega (arith, xor-lt n m (a / 2) (b / 2) (omega arith) (omega arith))

abbrev all_below : ℕ → List ℕ → Bool
all_below bound [] = true
all_below bound (x ∷ xs) = ltb x bound && all_below bound xs

get_or-lt :
    (bound : ℕ) (xs : List ℕ) (i : ℕ)
    → 0 < bound
    → all_below bound xs ≡ true
    → get_or xs i 0 < bound
get_or-lt bound [] i h e = omega arith
get_or-lt bound (x ∷ xs) zero h e = ground arith
get_or-lt bound (x ∷ xs) (suc i) h e = get_or-lt bound xs i h (ground arith)

table-lt : (i : ℕ) → get_or crc_c i 0 < 2 ^ 32
table-lt i = get_or-lt (2 ^ 32) crc_c i (omega arith) refl

crc32c-lt : (m c d : ℕ) → c / 2 ^ 8 < 2 ^ m → 2 ^ 32 ≤ 2 ^ m → crc32c c d < 2 ^ m
unfolding crc32c
crc32c-lt m c d h k =
    let i = xor 64 c d % 2 ^ 8 in
    xor-lt 64 m (c / 2 ^ 8) (get_or crc_c i 0) h (omega (arith, table-lt i))

crc_bytes-lt : (buffer : List ℕ) (c : ℕ) → c < 2 ^ 32 → crc_bytes c buffer < 2 ^ 32
unfolding crc_bytes
crc_bytes-lt [] c h = h
crc_bytes-lt (d ∷ buffer) c h =
    crc_bytes-lt buffer (crc32c c d) (crc32c-lt 32 c d (omega arith) (omega arith))

-- Each byte takes eight bits off the width, down to the 32 bits of the table's entries.
crc32c-56 : (c d : ℕ) → c < 2 ^ 64 → crc32c c d < 2 ^ 56
crc32c-56 c d h = crc32c-lt 56 c d (omega arith) (omega arith)

crc32c-48 : (c d : ℕ) → c < 2 ^ 56 → crc32c c d < 2 ^ 48
crc32c-48 c d h = crc32c-lt 48 c d (omega arith) (omega arith)

crc32c-40 : (c d : ℕ) → c < 2 ^ 48 → crc32c c d < 2 ^ 40
crc32c-40 c d h = crc32c-lt 40 c d (omega arith) (omega arith)

crc32c-32 : (c d : ℕ) → c < 2 ^ 40 → crc32c c d < 2 ^ 32
crc32c-32 c d h = crc32c-lt 32 c d (omega arith) (omega arith)

-- The checksum of a buffer of four bytes or more has 32 bits, although the code starts from 64 bits
-- that are all set.
crc_generate-lt : (buffer : List ℕ) → 4 ≤ length buffer → crc_generate buffer < 2 ^ 32
unfolding crc_generate crc_bytes
crc_generate-lt [] h = absurd (omega arith)
crc_generate-lt (b0 ∷ []) h = absurd (omega arith)
crc_generate-lt (b0 ∷ b1 ∷ []) h = absurd (omega arith)
crc_generate-lt (b0 ∷ b1 ∷ b2 ∷ []) h = absurd (omega arith)
crc_generate-lt (b0 ∷ b1 ∷ b2 ∷ b3 ∷ buffer) h =
    crc_bytes-lt buffer _
      (crc32c-32 _ b3 (crc32c-40 _ b2 (crc32c-48 _ b1 (crc32c-56 (2 ^ 64 - 1) b0 (omega arith)))))
