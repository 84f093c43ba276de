-- ===== src/Schedule/Print.antt =====
-- `set_schedule` on a schedule written out as reportschedule.c describes it: specifications between
-- semicolons, each with its outlets, interval and offset between commas.
use mathlib.Core.List.{append_assoc, append-nil}
use estimators.Prelude.{
  ℕ, suc, ◌+◌, ◌≡◌, refl, ap, ap₂, ◌∙◌, arith, Bool, true, false, ◌==◌, List, [], ◌∷◌, ◌++◌, All,
  map, length, length-append, get_elem?, set, replicate, Option, none, some, add64,
}
use estimators.Reorder.Containers.{ok}
use estimators.Schedule.{
  RepeatingItem, Schedule, tokenize, separators, semicolon, comma, no_item, starts_number,
  parse_offset, parse_interval, parse_item, parse_items, set_schedule,
}
use estimators.Schedule.Parse.{parse_items-found}

-- The texts of a specification.
pub record Spec : Type 0 where
  pub outlets : List ℕ
  pub interval : List ℕ
  pub offset : Option (List ℕ)

abbrev pub Without : ℕ → List ℕ → Type 0
Without sep = All (λ c. (c == sep) ≡ false)

abbrev pub offset_text : Option (List ℕ) → List ℕ
offset_text none = []
offset_text (some o) = comma ∷ o

abbrev pub print_spec : Spec → List ℕ
print_spec s = s.outlets ++ comma ∷ (s.interval ++ offset_text s.offset)

abbrev pub print_specs : Spec → List Spec → List ℕ
print_specs s [] = print_spec s
print_specs s (t ∷ ts) = print_spec s ++ semicolon ∷ print_specs t ts

module _ (micros : List ℕ → ℕ) (is_zero : List ℕ → Bool) where
  -- An offset that is there has to be a number other than 0.
  abbrev pub IsOffset : Option (List ℕ) → Type 0
  IsOffset none = Unit
  IsOffset (some o) =
      (is_zero o ≡ false) × (starts_number o ≡ true) × Without comma o × Without semicolon o

  pub record IsSpec (s : Spec) : Type 0 where
    pub outlets : Without comma s.outlets × Without semicolon s.outlets
    pub interval : Without comma s.interval × Without semicolon s.interval
    pub number : starts_number (s.interval ++ offset_text s.offset) ≡ true
    pub offset : IsOffset s.offset

  -- What a specification means. `atof` reads the interval up to the comma.
  abbrev pub meaning : ℕ → Spec → RepeatingItem
  meaning timezero s = record {
    outlets = s.outlets;
    interval = micros (s.interval ++ offset_text s.offset);
    next_run = elim s.offset [
      | none ↦ add64 timezero (micros (s.interval ++ []))
      | some o ↦ add64 timezero (micros o)
    ];
  }

tokenize-before :
    (sep : ℕ) (xs rest : List ℕ)
    → Without sep xs
    → tokenize sep (xs ++ sep ∷ rest) ≡ (xs, some rest)
unfolding tokenize
tokenize-before sep [] rest w = let e : (sep == sep) ≡ true = ground arith in rw e refl
tokenize-before sep (x ∷ xs) rest w = rw (w.0, tokenize-before sep xs rest w.1) refl

tokenize-whole : (sep : ℕ) (xs : List ℕ) → Without sep xs → tokenize sep xs ≡ (xs, none)
unfolding tokenize
tokenize-whole sep [] w = refl
tokenize-whole sep (x ∷ xs) w = rw (w.0, tokenize-whole sep xs w.1) refl

Without-append :
    (sep : ℕ) (xs ys : List ℕ) → Without sep xs → Without sep ys → Without sep (xs ++ ys)
Without-append sep [] ys v w = w
Without-append sep (x ∷ xs) ys v w = (v.0, Without-append sep xs ys v.1 w)

separators-append : (xs ys : List ℕ) → separators (xs ++ ys) ≡ separators xs + separators ys
unfolding separators
separators-append [] ys = omega arith
separators-append (x ∷ xs) ys = ground (arith, separators-append xs ys)

separators-Without : (xs : List ℕ) → Without semicolon xs → separators xs ≡ 0
unfolding separators
separators-Without [] w = refl
separators-Without (x ∷ xs) w = rw (w.0) (separators-Without xs w.1)

length-meaning : (f : Spec → RepeatingItem) (ss : List Spec) → length (map f ss) ≡ length ss
length-meaning f [] = refl
length-meaning f (s ∷ ss) = ap suc (length-meaning f ss)

get-length :
    (done : List RepeatingItem) (x : RepeatingItem) (xs : List RepeatingItem)
    → get_elem? (done ++ x ∷ xs) (length done) ≡ some x
get-length [] x xs = refl
get-length (d ∷ done) x xs = get-length done x xs

set-length :
    (done : List RepeatingItem) (x y : RepeatingItem) (xs : List RepeatingItem)
    → set (done ++ x ∷ xs) (length done) y ≡ (done ++ y ∷ []) ++ xs
set-length [] x y xs = refl
set-length (d ∷ done) x y xs = ap (λ ys. d ∷ ys) (set-length done x y xs)

module _ (micros : List ℕ → ℕ) (is_zero : List ℕ → Bool) where
  offset-Without :
      (o : Option (List ℕ)) → IsOffset micros is_zero o → Without semicolon (offset_text o)
  offset-Without none v = tt
  offset-Without (some o) (z, n, c, s) = (refl, s)

  spec-Without : (s : Spec) → IsSpec micros is_zero s → Without semicolon (print_spec s)
  spec-Without s v =
      Without-append semicolon s.outlets (comma ∷ (s.interval ++ offset_text s.offset))
        (v.outlets.1)
        (
          refl,
          Without-append semicolon s.interval (offset_text s.offset) (v.interval.1)
              (offset-Without s.offset v.offset),
        )

  separators-print :
      (s : Spec) (ss : List Spec)
      → IsSpec micros is_zero s
      → All (IsSpec micros is_zero) ss
      → separators (print_specs s ss) ≡ length ss
  unfolding separators
  separators-print s [] v vs = separators-Without (print_spec s) (spec-Without s v)
  separators-print s (t ∷ ts) v vs = omega (
    arith,
    separators-append (print_spec s) (semicolon ∷ print_specs t ts),
    separators-Without (print_spec s) (spec-Without s v),
    separators-print t ts vs.0 vs.1,
  )

  open_interval :
      (timezero : ℕ) (item : RepeatingItem) (sch : List ℕ)
      → starts_number sch ≡ true
      → parse_interval micros is_zero timezero item (some sch)
        ≡ parse_offset micros is_zero timezero
            (record item { interval = micros sch; next_run = add64 timezero (micros sch) })
            (tokenize comma sch).1
  unfolding parse_interval
  open_interval timezero item sch e = rw e refl

  interval-meaning :
      (timezero : ℕ) (item : RepeatingItem) (interval : List ℕ) (offset : Option (List ℕ))
      → Without comma interval
      → starts_number (interval ++ offset_text offset) ≡ true
      → IsOffset micros is_zero offset
      → parse_interval micros is_zero timezero item (some (interval ++ offset_text offset)) ≡ (
        true,
        meaning micros is_zero timezero
            (record { outlets = item.outlets; interval = interval; offset = offset }),
      )
  unfolding parse_offset
  interval-meaning timezero item interval none w n v =
      let whole = tokenize-whole comma interval w in
      open_interval timezero item (interval ++ []) n ∙ rw (append-nil interval, whole) refl
  interval-meaning timezero item interval (some o) w n (z, number, c, s) =
      open_interval timezero item (interval ++ comma ∷ o) n
      ∙ rw (tokenize-before comma interval o w, z, number) refl

  item-meaning :
      (timezero : ℕ) (old : RepeatingItem) (s : Spec)
      → IsSpec micros is_zero s
      → parse_item micros is_zero timezero old (print_spec s)
        ≡ (true, meaning micros is_zero timezero s)
  unfolding parse_item
  item-meaning timezero old s v =
      rw (tokenize-before comma s.outlets (s.interval ++ offset_text s.offset) v.outlets.0) (
        interval-meaning timezero (record old { outlets = s.outlets }) s.interval s.offset
          v.interval.0 v.number v.offset)

  -- The state of the loop after some items, with `n` of them left.
  abbrev part_way : ℕ → List RepeatingItem → ℕ → Schedule
  part_way timezero done n = record {
    timezero = timezero;
    nitems = length done;
    schedule = done ++ replicate n no_item;
  }

  tokenize-print :
      (s : Spec) (ss : List Spec)
      → IsSpec micros is_zero s
      → tokenize semicolon (print_specs s ss)
        ≡ (print_spec s, elim ss [ [] ↦ none | t ∷ ts ↦ some (print_specs t ts) ])
  tokenize-print s [] v = tokenize-whole semicolon (print_spec s) (spec-Without s v)
  tokenize-print s (t ∷ ts) v =
      tokenize-before semicolon (print_spec s) (print_specs t ts) (spec-Without s v)

  -- One round of the loop.
  round-lem :
      (timezero rounds n : ℕ) (done : List RepeatingItem) (s : Spec) (ss : List Spec)
      → IsSpec micros is_zero s
      → parse_items micros is_zero
          (suc rounds)
          (some (print_specs s ss))
          (part_way timezero done (suc n))
        ≡ parse_items micros is_zero rounds
            (elim ss [ [] ↦ none | t ∷ ts ↦ some (print_specs t ts) ])
            (part_way timezero (done ++ meaning micros is_zero timezero s ∷ []) n)
  round-lem timezero rounds n done s ss v =
      let st = part_way timezero done (suc n) in
      let m = meaning micros is_zero timezero s in
      parse_items-found micros is_zero rounds (print_specs s ss) st no_item
        (get-length done no_item (replicate n no_item))
      ∙ rw
          (
            tokenize-print s ss v,
            item-meaning timezero no_item s v,
            set-length done no_item m (replicate n no_item),
            length-append done (m ∷ []),
          )
          refl

  parse-print :
      (timezero : ℕ) (done : List RepeatingItem) (s : Spec) (ss : List Spec)
      → IsSpec micros is_zero s
      → All (IsSpec micros is_zero) ss
      → parse_items micros is_zero
          (suc (length ss))
          (some (print_specs s ss))
          (part_way timezero done (suc (length ss)))
        ≡ ok (true, part_way timezero (done ++ map (meaning micros is_zero timezero) (s ∷ ss)) 0)
  unfolding parse_items
  parse-print timezero done s [] v vs = round-lem timezero 0 0 done s [] v
  parse-print timezero done s (t ∷ ts) v vs =
      let m = meaning micros is_zero timezero s in
      round-lem timezero (suc (length ts)) (suc (length ts)) done s (t ∷ ts) v
      ∙ parse-print timezero (done ++ m ∷ []) t ts vs.0 vs.1
      ∙ ap (λ xs. ok (true, part_way timezero xs 0))
          (append_assoc done (m ∷ []) (map (meaning micros is_zero timezero) (t ∷ ts)))

  -- A schedule that is written out, with at least one specification, none of whose texts contains a
  -- comma or a semicolon, whose intervals and offsets look like numbers, and whose offsets are not 0:
  -- `set_schedule`, called without items, accepts it, and the items are the meanings of the
  -- specifications, in order. The next run is after the offset, or after the interval if there is none.
  pub set_schedule-print :
      (time : ℕ) (s : Spec) (ss : List Spec) (st : Schedule)
      → st.nitems ≡ 0
      → IsSpec micros is_zero s
      → All (IsSpec micros is_zero) ss
      → set_schedule micros is_zero true time (print_specs s ss) st
        ≡ ok (
          true,
          record {
            timezero = time;
            nitems = suc (length ss);
            schedule = map (meaning micros is_zero time) (s ∷ ss);
          },
        )
  unfolding set_schedule
  set_schedule-print time s ss st e v vs =
      let items = map (meaning micros is_zero time) (s ∷ ss) in
      let next : 1 + length ss ≡ suc (length ss) = omega arith in
      rw (e, separators-print s ss v vs, next)
        (parse-print time [] s ss v vs
          ∙ ap₂ (λ n xs. ok (true, record { timezero = time; nitems = n; schedule = xs }))
              (length-meaning (meaning micros is_zero time) (s ∷ ss)) (append-nil items))
