-- ===== src/Schedule/Runs.antt =====
-- `schedule_reset` and `schedule_outlets`: when an item is due, and when it is due next.
use estimators.Prelude.{
  ℕ, zero, suc, ◌+◌, ◌-◌, ◌*◌, ◌^◌, ◌≤◌, ◌<◌, ◌≡◌, refl, arith, List, [], ◌∷◌, get_elem?, set, some,
  add64, sub64,
}
use estimators.Reorder.Containers.{ok, Ends}
use estimators.Schedule.{DoubleOps, RepeatingItem, Schedule, schedule_reset}

get_elem?-set :
    {A : Type 0}
    → (xs : List A) (i : ℕ) (old new : A) → get_elem? xs i ≡ some old
    → get_elem? (set xs i new) i ≡ some new
get_elem?-set [] i old new e = absurd (cc e)
get_elem?-set (x ∷ xs) zero old new e = refl
get_elem?-set (x ∷ xs) (suc i) old new e = get_elem?-set xs i old new e

-- The quotient rounded up.
abbrev pub IsCeil : (ℕ → ℕ → ℕ) → ℕ → ℕ → Type 0
IsCeil ceil_div a b = (a ≤ b * ceil_div a b) × (b * ceil_div a b < a + b)

-- What the arithmetic of doubles with 53 bits documents: a quotient of numbers below 2^53, rounded up,
-- is exact, and so is a product below 2^53.
pub record IsDouble (double : DoubleOps) : Type 0 where
  pub ceils : (a b : ℕ) → 0 < b → a < 2 ^ 53 → b < 2 ^ 53 → IsCeil double.ceil_div a b
  pub products : (a b : ℕ) → a * b < 2 ^ 53 → double.product a b ≡ a * b

pub reset-item :
    (double : DoubleOps) (time : ℕ) (sch : Schedule) (x : ℕ) (ri : RepeatingItem)
    → get_elem? sch.schedule x ≡ some ri
    → schedule_reset double time sch x
      ≡ ok (record sch {
        schedule = set sch.schedule x (record ri {
          next_run =
              add64 ri.next_run
                (double.product ri.interval (double.ceil_div (sub64 time ri.next_run) ri.interval));
        });
      })
unfolding schedule_reset
reset-item double time sch x ri e = rw (e, schedule_reset) refl

-- An item whose run is not in the future.
abbrev pub IsDue : ℕ → Schedule → ℕ → RepeatingItem → Type 0
IsDue time sch x ri = (get_elem? sch.schedule x ≡ some ri) × (ri.next_run ≤ time)

-- What is due is run next less than an interval after the time, at a whole number of intervals after
-- its last run.
abbrev pub RunsNext : ℕ → ℕ → RepeatingItem → Schedule → Type 0
RunsNext time x ri sch =
    (r : RepeatingItem) × (get_elem? sch.schedule x ≡ some r)
    × (r.outlets ≡ ri.outlets)
    × (r.interval ≡ ri.interval)
    × (time ≤ r.next_run)
    × (r.next_run < time + ri.interval)
    × ((late : ℕ) × (r.next_run ≡ ri.next_run + ri.interval * late))

next-lem :
    (time interval last product : ℕ)
    → last ≤ time
    → time + interval < 2 ^ 64
    → time - last ≤ product
    → product < time - last + interval
    → let next = add64 last product in
      (time ≤ next) × (next < time + interval) × (next ≡ last + product)
next-lem time interval last product d f lower upper = (omega arith, omega arith, omega arith)

sub64-le : (a b : ℕ) → b ≤ a → a < 2 ^ 64 → sub64 a b ≡ a - b
sub64-le a b h k = omega arith

-- An item that is due, and is reset, keeps its outlets and its interval, and its next run is at the
-- time or after it, less than an interval after the time, and a whole number of intervals after the
-- last run. This is for an interval that is not 0, a time below 2^64 with the interval added, and a
-- distance from the last run that is below 2^53 with the interval added, where the arithmetic of
-- doubles is exact.
pub reset-RunsNext :
    (double : DoubleOps) (time : ℕ) (sch : Schedule) (x : ℕ) (ri : RepeatingItem)
    → IsDouble double
    → IsDue time sch x ri
    → 0 < ri.interval
    → time + ri.interval < 2 ^ 64
    → time - ri.next_run + ri.interval < 2 ^ 53
    → Ends (RunsNext time x ri) (schedule_reset double time sch x)
reset-RunsNext double time sch x ri exact (found, due) runs fits near =
    let late = double.ceil_div (time - ri.next_run) ri.interval in
    let (lower, upper) =
      exact.ceils (time - ri.next_run) ri.interval runs (omega arith) (omega arith) in
    let product = exact.products ri.interval late (omega (arith, near, upper)) in
    let distance = sub64-le time ri.next_run due (omega (arith, fits)) in
    let (after, before, whole) =
      next-lem time ri.interval ri.next_run (ri.interval * late) due fits lower upper in
    let next : RepeatingItem = record ri { next_run = add64 ri.next_run (ri.interval * late) } in
    rw (reset-item double time sch x ri found, distance, product)
      (next, get_elem?-set sch.schedule x ri next found, refl, refl, after, before, (late, whole))
