-- ===== src/Loader/Run.antt =====
-- Any interleaving of the loader's steps.
use serve_mlx.Base.{ℕ, ◌≡◌, List, [], ◌∷◌, Result, ok}
use serve_mlx.Policy.{ExpertKey}
use serve_mlx.Loader.{
  Origin, LoadRequest, AsyncExpertLoader, Event, init, prefetch, demand, settle, record_event,
  close, take, finish,
}
use serve_mlx.Loader.Bounded.{
  IsValid, left, init-IsValid, prefetch-IsValid, demand-IsValid, settle-IsValid,
  record_event-IsValid, close-IsValid, take-IsValid, finish-IsValid,
}

-- a stretch of code that holds the lock, of the model's thread or of a worker
pub data Step (B R : Type 0) : Type 0 where
  step_prefetch : ExpertKey → B → Origin → Step B R
  step_demand : ExpertKey → B → Step B R
  step_settle : ExpertKey → LoadRequest → Step B R
  step_record : Event → Step B R
  step_close : Step B R
  step_take : Step B R
  step_finish : ExpertKey → LoadRequest → Result R → Step B R

module _ {B R : Type 0} where
  unfoldable pub after : Step B R → AsyncExpertLoader B R → AsyncExpertLoader B R
  unfolding prefetch demand settle record_event close take finish
  after (step_prefetch key bundle origin) s = (prefetch key bundle origin s).1
  after (step_demand key bundle) s = (demand key bundle s).1
  after (step_settle key request) s = settle key request s
  after (step_record event) s = record_event event s
  after step_close s = close s
  after step_take s = left (take s) s
  after (step_finish key request result) s = finish key request result s

  unfoldable pub run : List (Step B R) → AsyncExpertLoader B R → AsyncExpertLoader B R
  unfolding after
  run [] s = s
  run (step ∷ steps) s = run steps (after step s)

  after-IsValid : (step : Step B R) (s : AsyncExpertLoader B R) → IsValid s → IsValid (after step s)
  unfolding after
  after-IsValid (step_prefetch key bundle origin) s v = prefetch-IsValid key bundle origin s v
  after-IsValid (step_demand key bundle) s v = demand-IsValid key bundle s v
  after-IsValid (step_settle key request) s v = settle-IsValid key request s v
  after-IsValid (step_record event) s v = record_event-IsValid event s v
  after-IsValid step_close s v = close-IsValid s v
  after-IsValid step_take s v = take-IsValid s v
  after-IsValid (step_finish key request result) s v = finish-IsValid key request result s v

  run-keeps :
      (steps : List (Step B R)) (s : AsyncExpertLoader B R) → IsValid s → IsValid (run steps s)
  unfolding run
  run-keeps [] s v = v
  run-keeps (step ∷ steps) s v = run-keeps steps (after step s) (after-IsValid step s v)

  -- From the constructor on, after any interleaving of steps, no key has two requests, there are at
  -- most as many requests as may be in flight, and the counts agree: each submitted, skipped or
  -- coalesced call is one of the calls, and predictions submitted are no more than predictions asked
  -- for.
  pub run_steps-IsValid :
      (workers max_inflight : ℕ) (s : AsyncExpertLoader B R) (steps : List (Step B R))
      → init workers max_inflight ≡ ok s
      → IsValid (run steps s)
  run_steps-IsValid workers max_inflight s steps h =
      run-keeps steps s (init-IsValid workers max_inflight s h).0
