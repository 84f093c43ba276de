-- ===== src/Estimator/Batches.antt =====
-- `reporter_min_batches`: how the loop of `reporter_thread` over the periods ends.
use estimators.Prelude.{ℕ, zero, suc, ◌≡◌, ◌≢◌, refl, arith, true, leb}
use estimators.Reorder.Containers.{Run, ok, fault, unfinished, ◌>>=◌}
use estimators.Estimator.Service.{Config}
use estimators.Estimator.Thread.{Setting, Reporter, ToldOf, process_earliest, process_hashmaps}

then_never :
    {A B : Type 0} (m : Run A) (f : A → Run B) (b : B) → ((a : A) → f a ≢ ok b) → (m >>= f) ≢ ok b
then_never (ok a) f b h e = h a e
then_never fault f b h e = absurd (cc e)
then_never unfinished f b h e = absurd (cc e)

first_never :
    {A B : Type 0} (m : Run A) (f : A → Run B) (b : B) → ((a : A) → m ≢ ok a) → (m >>= f) ≢ ok b
first_never (ok a) f b h e = absurd (h a refl)
first_never fault f b h e = absurd (cc e)
first_never unfinished f b h e = absurd (cc e)

module _ (env : Setting) where
  -- With `reporter_min_batches` 0 the loop never comes to an end by its condition, whatever the number
  -- of rounds, the maps and the clock: the rounds go on until one reads through NULL or is not finished.
  pub process_hashmaps-zero :
      Config.periods_to_wait env.config ≡ 0
      → (rounds : ℕ) (time time' : ℕ → ℕ → ℕ) (r : Reporter env)
        (result : ToldOf env × Reporter env)
      → process_hashmaps env rounds time time' r ≢ ok result
  unfolding process_hashmaps
  process_hashmaps-zero none_needed zero time time' r result e =
      let more : leb (Config.periods_to_wait env.config) r.service.rep.working.count ≡ true =
        ground (arith, none_needed) in
      absurd (cc (rw more at e))
  process_hashmaps-zero none_needed (suc rounds) time time' r result e =
      let more : leb (Config.periods_to_wait env.config) r.service.rep.working.count ≡ true =
        ground (arith, none_needed) in
      then_never (process_earliest env (time rounds) (time' rounds) r) _ result
        (λ first.
          first_never (process_hashmaps env rounds time time' first.1) _ result
            (λ second. process_hashmaps-zero none_needed rounds time time' first.1 second))
        (rw more at e)
