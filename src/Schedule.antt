-- ===== src/Schedule.antt =====
-- reportschedule.c: the schedule of the reports. A string is its bytes before the NUL. `atof`, the
-- arithmetic on `double` and the clock are parameters.
pub mod Parse
pub mod Runs
pub mod Print
use estimators.Prelude.{
  ℕ, zero, suc, ◌+◌, ◌-◌, ◌*◌, ◌%◌, ◌^◌, Bool, true, false, not, ◌&&◌, ◌||◌, ltb, leb, ◌==◌,
  if◌then◌else◌, List, [], ◌∷◌, length, get_elem?, set, replicate, Option, none, some, add64, sub64,
  u64_mod,
}
use estimators.Reorder.Containers.{Run, ok, fault, unfinished, ◌>>=◌}

pub record RepeatingItem : Type 0 where
  pub outlets : List ℕ
  pub interval : ℕ
  pub next_run : ℕ

-- The statics. `schedule` is the array that was allocated last.
pub record Schedule : Type 0 where
  pub timezero : ℕ
  pub nitems : ℕ
  pub schedule : List RepeatingItem

abbrev pub semicolon : ℕ
semicolon = 59

abbrev pub comma : ℕ
comma = 44

-- The bytes 0 that `calloc` gives.
abbrev pub no_item : RepeatingItem
no_item = record { outlets = []; interval = 0; next_run = 0 }

-- `tv_sec` and `tv_usec` of `gettimeofday`. The code adds them as `double`, which is exact below 2^53.
abbrev pub now : ℕ → ℕ → ℕ
now tv_sec tv_usec = (tv_sec * 1000000 + tv_usec) % 2 ^ 64

-- The token before the separator, and the string after it, if there is one.
unfoldable pub tokenize : ℕ → List ℕ → List ℕ × Option (List ℕ)
tokenize sep [] = ([], none)
tokenize sep (c ∷ s) =
    let (token, rest) = tokenize sep s in if c == sep then ([], some s) else (c ∷ token, rest)

-- The counting loop of `set_schedule`.
unfoldable pub separators : List ℕ → ℕ
separators [] = 0
separators (c ∷ s) = if c == semicolon then suc (separators s) else separators s

-- `isdigit(*sch) || *sch == '.'`
abbrev pub starts_number : List ℕ → Bool
starts_number [] = false
starts_number (c ∷ s) = (leb 48 c && leb c 57) || c == 46

-- `get_duration`, which is 0 for an item that there is not.
unfoldable pub get_duration : Schedule → ℕ → Run ℕ
get_duration sch x =
    if ltb x sch.nitems
    then elim (get_elem? sch.schedule x) [ none ↦ fault | some item ↦ ok item.interval ]
    else ok 0

abbrev pub schedule_parallelism : Schedule → ℕ
schedule_parallelism sch = sch.nitems

unfoldable pub destroy_schedule : Schedule → Schedule
destroy_schedule sch = record sch { nitems = 0; schedule = [] }

-- `none` as a value is NULL, when it is not time yet.
unfoldable pub schedule_outlets : ℕ → Schedule → ℕ → Run (Option (List ℕ))
schedule_outlets time sch x = elim (get_elem? sch.schedule x) [
  | none ↦ fault
  | some item ↦ ok (if ltb time item.next_run then none else some item.outlets)
]

-- `(TIMEINTERVAL) (1000000 * atof(s))` and `atof(s) == 0.0`.
module _ (micros : List ℕ → ℕ) (is_zero : List ℕ → Bool) where
  -- The part from the offset on. The flag tells that the item is valid.
  unfoldable pub parse_offset : ℕ → RepeatingItem → Option (List ℕ) → Bool × RepeatingItem
  parse_offset timezero item none = (true, item)
  parse_offset timezero item (some sch) =
      if is_zero sch
      then (true, item)
      else if not (starts_number sch)
      then (false, item)
      else (true, record item { next_run = add64 timezero (micros sch) })

  -- The part from the interval on.
  unfoldable pub parse_interval : ℕ → RepeatingItem → Option (List ℕ) → Bool × RepeatingItem
  unfolding parse_offset tokenize
  parse_interval timezero item none = (false, item)
  parse_interval timezero item (some sch) =
      if not (starts_number sch)
      then (false, item)
      else parse_offset timezero
          (record item { interval = micros sch; next_run = add64 timezero (micros sch) })
          (tokenize comma sch).1

  -- One specification, into what the item was.
  unfoldable pub parse_item : ℕ → RepeatingItem → List ℕ → Bool × RepeatingItem
  unfolding parse_interval tokenize
  parse_item timezero item sch =
      let (outlets, rest) = tokenize comma sch in
      parse_interval timezero (record item { outlets = outlets }) rest

  -- `while (sch)`. The flag is false for the return of -1.
  unfoldable pub parse_items : ℕ → Option (List ℕ) → Schedule → Run (Bool × Schedule)
  unfolding parse_item tokenize
  parse_items rounds none st = ok (true, st)
  parse_items zero (some sch) st = unfinished
  parse_items (suc rounds) (some sch) st =
      let (entry, t) = tokenize semicolon sch in
      elim (get_elem? st.schedule st.nitems) [
        | none ↦ fault
        | some old ↦
            let (valid, item) = parse_item st.timezero old entry in
            let st' = record st { schedule = set st.schedule st.nitems item } in
            let rest = parse_items rounds t (record st' { nitems = st.nitems + 1 }) in
            if valid then rest else ok (false, st')
      ]

  -- `calloc` tells whether there is memory.
  unfoldable pub set_schedule : Bool → ℕ → List ℕ → Schedule → Run (Bool × Schedule)
  unfolding separators parse_items
  set_schedule calloc time sch st =
      let n = 1 + separators sch in
      let st' : Schedule = record {
        timezero = time;
        nitems = st.nitems;
        schedule = replicate n no_item;
      } in
      let parsed = parse_items n (some sch) st' in
      if calloc then parsed else ok (false, record st { schedule = [] })

-- The arithmetic of doubles in `schedule_reset`: `ceil_div` is `ceil((double) a / (double) b)`, which
-- the code calls with an interval that may be 0, and `product` the product of an interval and such a
-- number, as a double that is then converted to a `TIMEINTERVAL`.
pub record DoubleOps : Type 0 where
  pub ceil_div : ℕ → ℕ → ℕ
  pub product : ℕ → ℕ → ℕ

unfoldable pub schedule_reset : DoubleOps → ℕ → Schedule → ℕ → Run Schedule
schedule_reset double time sch x = elim (get_elem? sch.schedule x) [
  | none ↦ fault
  | some ri ↦
      let late = double.ceil_div (sub64 time ri.next_run) ri.interval in
      ok (record sch {
        schedule =
            set sch.schedule x
              (record ri { next_run = add64 ri.next_run (double.product ri.interval late) });
      })
]
