-- ===== src/Prelude/Count.antt =====
-- How many numbers of an interval pass a test.
use Prim.Native.Nat.{ℕ, zero, suc, ◌+◌, ◌-◌, ◌≤◌, ◌<◌}
use mathlib.Core.Path.{◌≡◌, refl}
use mathlib.Core.Bool.{Bool, not}
use native.Mathlib.Omega.{arith}
use estimators.Prelude.Tests.{leb, if◌then◌else◌}

-- Of the `n` numbers after `a`.
abbrev pub count : (ℕ → Bool) → ℕ → ℕ → ℕ
count P a zero = 0
count P a (suc n) = (if P (a + 1) then 1 else 0) + count P (a + 1) n

pub count-add :
    (P : ℕ → Bool) (n a b k m : ℕ) → b ≡ a + n → m ≡ n + k → count P a m ≡ count P a n + count P b k
count-add P zero a b k m e f =
    let same : b ≡ a = omega arith in
    let rest : m ≡ k = omega arith in rw (same, rest) (omega arith)
count-add P (suc n) a b k m e f =
    let more : m ≡ suc (n + k) = omega arith in
    rw more (omega (arith, count-add P n (a + 1) b k (n + k) (omega arith) refl))

pub count-ext :
    (P Q : ℕ → Bool) (n a : ℕ)
    → ((x : ℕ) → a < x → x ≤ a + n → P x ≡ Q x)
    → count P a n ≡ count Q a n
count-ext P Q zero a h = refl
count-ext P Q (suc n) a h =
    ground (arith, h (a + 1), count-ext P Q n (a + 1) (λ x p q. h x (omega arith) (omega arith)))

pub count-not : (P : ℕ → Bool) (n a : ℕ) → count P a n + count (λ x. not (P x)) a n ≡ n
count-not P zero a = omega arith
count-not P (suc n) a = ground (arith, count-not P n (a + 1))

-- The numbers from `l` on.
pub count-from : (l n a : ℕ) → count (λ x. leb l x) a n ≡ a + n + 1 - (if leb l a then a + 1 else l)
count-from l zero a = ground arith
count-from l (suc n) a = ground (arith, count-from l n (a + 1))
