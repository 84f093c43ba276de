-- ===== src/Tests/Schedules.antt =====
-- Runs of the schedule of reports.
use estimators.Prelude.{
  ℕ, zero, suc, ◌+◌, ◌-◌, ◌*◌, ◌≤◌, ◌<◌, ◌≡◌, refl, arith, Bool, true, false, ◌==◌, leb,
  if◌then◌else◌, Bool-cases, inl, inr, List, [], ◌∷◌, map, none, some,
}
use estimators.Reorder.Containers.{ok, fault, Ends}
use estimators.Schedule.{
  DoubleOps, RepeatingItem, Schedule, separators, set_schedule, schedule_reset,
}
use estimators.Schedule.Parse.{set_schedule-fault}
use estimators.Schedule.Print.{Spec, IsSpec, print_specs, meaning, set_schedule-print}
use estimators.Schedule.Runs.{IsDouble, RunsNext, reset-RunsNext}

-- A number of one digit stands for so many millionths.
abbrev digit : List ℕ → ℕ
digit [] = 0
digit (c ∷ s) = c - 48

abbrev never_zero : List ℕ → Bool
never_zero s = false

abbrev no_items : Schedule
no_items = record { timezero = 0; nitems = 0; schedule = [] }

-- `c,5;c,5,2`
abbrev first_spec : Spec
first_spec = record { outlets = 99 ∷ []; interval = 53 ∷ []; offset = none }

abbrev second_spec : Spec
second_spec = record { outlets = 99 ∷ []; interval = 53 ∷ []; offset = some (50 ∷ []) }

abbrev first_valid : IsSpec digit never_zero first_spec
first_valid = record {
  outlets = ((refl, tt), (refl, tt));
  interval = ((refl, tt), (refl, tt));
  number = refl;
  offset = tt;
}

abbrev second_valid : IsSpec digit never_zero second_spec
second_valid = record {
  outlets = ((refl, tt), (refl, tt));
  interval = ((refl, tt), (refl, tt));
  number = refl;
  offset = (refl, refl, (refl, tt), (refl, tt));
}

set_schedule-print_example :
    set_schedule digit never_zero true 100 (print_specs first_spec (second_spec ∷ [])) no_items
    ≡ ok (
      true,
      record {
        timezero = 100;
        nitems = 2;
        schedule = map (meaning digit never_zero 100) (first_spec ∷ second_spec ∷ []);
      },
    )
set_schedule-print_example =
    set_schedule-print digit never_zero 100 first_spec (second_spec ∷ []) no_items refl first_valid
      (second_valid, tt)

abbrev one_left : Schedule
one_left = record { timezero = 0; nitems = 1; schedule = [] }

set_schedule-fault_example : set_schedule digit never_zero true 100 (99 ∷ []) one_left ≡ fault
unfolding separators
set_schedule-fault_example =
    set_schedule-fault digit never_zero 100 (99 ∷ []) one_left (omega arith)

-- The quotient rounded up, by as many rounds as are granted.
abbrev rounds_up : ℕ → ℕ → ℕ → ℕ
rounds_up zero a b = 0
rounds_up (suc n) a b = let rest = rounds_up n (a - b) b in if a == 0 then 0 else 1 + rest

rounds_up-nothing : (n a b : ℕ) → a ≡ 0 → rounds_up n a b ≡ 0
rounds_up-nothing zero a b e = refl
rounds_up-nothing (suc n) a b e = rw e refl

rounds_up-bounds :
    (n a b : ℕ) → a ≤ n → 0 < b → (a ≤ b * rounds_up n a b) × (b * rounds_up n a b < a + b)
rounds_up-bounds zero a b h k = (omega arith, omega arith)
rounds_up-bounds (suc n) a b h k =
    let (lower, upper) = rounds_up-bounds n (a - b) b (omega arith) k in
    elim (Bool-cases (a == 0)) [
      | inl e ↦ (ground (arith, e), ground (arith, e))
      | inr e ↦ rw e (
        omega arith,
        elim (Bool-cases (leb a b)) [
          | inl low ↦ rw (rounds_up-nothing n (a - b) b (ground (arith, low))) (ground (arith, e))
          | inr high ↦ ground (arith, high, upper)
        ],
      )
    ]

abbrev exact_double : DoubleOps
exact_double = record { ceil_div = λ a b. rounds_up a a b; product = λ a b. a * b }

exact_double-IsDouble : IsDouble exact_double
exact_double-IsDouble = record {
  ceils = λ a b h k l. rounds_up-bounds a a b (omega arith) h;
  products = λ a b h. refl;
}

abbrev every_five : RepeatingItem
every_five = record { outlets = 99 ∷ []; interval = 5; next_run = 20 }

abbrev one_item : Schedule
one_item = record { timezero = 0; nitems = 1; schedule = every_five ∷ [] }

reset-RunsNext_example : Ends (RunsNext 27 0 every_five) (schedule_reset exact_double 27 one_item 0)
reset-RunsNext_example =
    reset-RunsNext exact_double 27 one_item 0 every_five exact_double-IsDouble (refl, omega arith)
      (omega arith) (omega arith) (omega arith)
