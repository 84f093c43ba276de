-- ===== src/Schedule/Parse.antt =====
-- `set_schedule`: what it reads, and that the array it allocates has room for it.
use estimators.Prelude.{
  ℕ, zero, suc, ◌+◌, ◌≤◌, ◌<◌, ◌≡◌, refl, ap, ◌∙◌, arith, Bool, true, false, ◌==◌, Bool-cases, inl,
  inr, if◌then◌else◌, List, [], ◌∷◌, length, length-set, length-replicate, get_elem?, set,
  replicate, Option, none, some,
}
use estimators.Reorder.Containers.{ok, fault, Ends, Ends-if}
use estimators.Schedule.{
  RepeatingItem, Schedule, tokenize, separators, semicolon, no_item, parse_item, parse_items,
  set_schedule,
}

-- How many specifications are left to read.
abbrev pub entries_left : Option (List ℕ) → ℕ
entries_left none = 0
entries_left (some sch) = suc (separators sch)

tokenize-entries : (sch : List ℕ) → entries_left (tokenize semicolon sch).1 ≡ separators sch
unfolding tokenize separators
tokenize-entries [] = refl
tokenize-entries (c ∷ s) = elim (Bool-cases (c == semicolon)) [
  | inl e ↦ rw (e) refl
  | inr e ↦ rw (e) (tokenize-entries s)
]

get_elem?-some :
    {A : Type 0} → (xs : List A) (i : ℕ) → i < length xs → (x : A) × (get_elem? xs i ≡ some x)
get_elem?-some [] i h = absurd (omega arith)
get_elem?-some (x ∷ xs) zero h = (x, refl)
get_elem?-some (x ∷ xs) (suc i) h = get_elem?-some xs i (omega arith)

-- A schedule whose call was successful has an item for each specification.
abbrev pub Accepts : ℕ → Bool × Schedule → Type 0
Accepts n r = (r.0 ≡ true → r.1.nitems ≡ n) × (r.1.nitems ≤ n) × (length r.1.schedule ≡ n)

module _ (micros : List ℕ → ℕ) (is_zero : List ℕ → Bool) where
  pub parse_items-found :
      (rounds : ℕ) (sch : List ℕ) (st : Schedule) (old : RepeatingItem)
      → get_elem? st.schedule st.nitems ≡ some old
      → let parsed = parse_item micros is_zero st.timezero old (tokenize semicolon sch).0 in
        let st' = record st { schedule = set st.schedule st.nitems parsed.1 } in
        parse_items micros is_zero (suc rounds) (some sch) st ≡ (
          if parsed.0
          then parse_items micros is_zero rounds
              (tokenize semicolon sch).1
              (record st' { nitems = st.nitems + 1 })
          else ok (false, st'))
  unfolding parse_items parse_item
  parse_items-found rounds sch st old e = rw (e, parse_items) refl

  parse_items-Ends :
      (rounds n : ℕ) (sch : Option (List ℕ)) (st : Schedule)
      → entries_left sch ≤ rounds
      → st.nitems + entries_left sch ≡ n
      → length st.schedule ≡ n
      → Ends (Accepts n) (parse_items micros is_zero rounds sch st)
  unfolding parse_items
  parse_items-Ends zero n none st r e l = (λ t. omega arith, omega arith, l)
  parse_items-Ends (suc rounds) n none st r e l = (λ t. omega arith, omega arith, l)
  parse_items-Ends zero n (some sch) st r e l = absurd (omega arith)
  parse_items-Ends (suc rounds) n (some sch) st r e l =
      let (old, found) = get_elem?-some st.schedule st.nitems (omega arith) in
      let parsed = parse_item micros is_zero st.timezero old (tokenize semicolon sch).0 in
      let st' = record st { schedule = set st.schedule st.nitems parsed.1 } in
      let left = tokenize-entries sch in
      let l' : length st'.schedule ≡ n = length-set st.schedule st.nitems parsed.1 ∙ l in
      rw (parse_items-found rounds sch st old found) (
        Ends-if (Accepts n) parsed.0
          (parse_items micros is_zero rounds (tokenize semicolon sch).1
            (record st' { nitems = st.nitems + 1 }))
          (ok (false, st'))
          (λ valid.
            parse_items-Ends rounds n (tokenize semicolon sch).1
              (record st' { nitems = st.nitems + 1 }) (omega arith) (omega arith) l')
          (λ invalid. (λ t. absurd (cc t), omega arith, l')))

  -- A call of `set_schedule` that starts without items stays inside the array that it allocates and
  -- comes to an end; the array has one element for each specification, and if the call succeeds, there
  -- are as many items.
  pub set_schedule-Ends :
      (time : ℕ) (sch : List ℕ) (st : Schedule)
      → st.nitems ≡ 0
      → Ends (Accepts (1 + separators sch)) (set_schedule micros is_zero true time sch st)
  unfolding set_schedule
  set_schedule-Ends time sch st e =
      parse_items-Ends (1 + separators sch) (1 + separators sch) (some sch)
        (record {
          timezero = time;
          nitems = st.nitems;
          schedule = replicate (1 + separators sch) no_item;
        })
        (omega arith) (omega arith) (length-replicate (1 + separators sch) no_item)

get_elem?-replicate : (n i : ℕ) (x : RepeatingItem) → n ≤ i → get_elem? (replicate n x) i ≡ none
get_elem?-replicate zero i x h = refl
get_elem?-replicate (suc n) zero x h = absurd (omega arith)
get_elem?-replicate (suc n) (suc i) x h = get_elem?-replicate n i x (omega arith)

module _ (micros : List ℕ → ℕ) (is_zero : List ℕ → Bool) where
  no_room :
      (rounds : ℕ) (sch : List ℕ) (st : Schedule)
      → get_elem? st.schedule st.nitems ≡ none
      → parse_items micros is_zero (suc rounds) (some sch) st ≡ fault
  unfolding parse_items
  no_room rounds sch st e = rw (e, parse_items) refl

  -- Where items are left from an earlier schedule, as many as there are specifications or more, the
  -- first item that `set_schedule` writes is outside the array.
  pub set_schedule-fault :
      (time : ℕ) (sch : List ℕ) (st : Schedule)
      → 1 + separators sch ≤ st.nitems
      → set_schedule micros is_zero true time sch st ≡ fault
  unfolding set_schedule
  set_schedule-fault time sch st h =
      let n = 1 + separators sch in
      let st' : Schedule = record {
        timezero = time;
        nitems = st.nitems;
        schedule = replicate n no_item;
      } in
      let next : n ≡ suc (separators sch) = omega arith in
      ap (λ k. parse_items micros is_zero k (some sch) st') next
      ∙ no_room (separators sch) sch st' (get_elem?-replicate n st.nitems no_item h)
