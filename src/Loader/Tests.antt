-- ===== src/Loader/Tests.antt =====
-- A loader of one worker: a prefetch that a demand shares, and a close behind a second prefetch.
use serve_mlx.Base.{ℕ, ◌≡◌, refl, some, List, [], ◌∷◌, ok}
use serve_mlx.Dict.{put}
use serve_mlx.Policy.{ExpertKey, ExpertKey-discrete}
use serve_mlx.Loader.{AsyncExpertLoader, fresh, init, take, stop, by_prefetch, by_prediction}
use serve_mlx.Loader.Bounded.{IsValid, left}
use serve_mlx.Loader.Order.{OnlyStops}
use serve_mlx.Loader.Run.{
  Step, step_prefetch, step_demand, step_take, step_finish, step_settle, step_close, run,
  run_steps-IsValid,
}
use serve_mlx.Loader.Stopping.{run-take-OnlyStops}

abbrev first : ExpertKey
first = record { layer = 0; expert = 1 }

abbrev second : ExpertKey
second = record { layer = 0; expert = 2 }

abbrev idle : AsyncExpertLoader ℕ ℕ
idle = fresh 1 2

made : init 1 2 ≡ ok idle
unfolding init
made = refl

abbrev steps : List (Step ℕ ℕ)
steps =
    step_prefetch first 10 by_prefetch
    ∷ step_prefetch second 20 by_prediction
    ∷ step_demand first 10
    ∷ step_take
    ∷ step_finish first (record { id = 0; origin = by_prefetch }) (ok 7)
    ∷ step_settle first (record { id = 0; origin = by_prefetch })
    ∷ step_close
    ∷ step_take
    ∷ []

one_hit : (run steps idle).prefetch_hits ≡ 1
unfolding run ExpertKey-discrete put
one_hit = refl

run_steps-IsValid_example : IsValid (run steps idle)
run_steps-IsValid_example = run_steps-IsValid 1 2 idle steps made

abbrev ended : AsyncExpertLoader ℕ ℕ
ended = left (take (run steps idle)) (run steps idle)

stopped : take (run steps idle) ≡ some (stop, ended)
unfolding run take ExpertKey-discrete put
stopped = refl

run-take-OnlyStops_example : OnlyStops ended.queue
run-take-OnlyStops_example = run-take-OnlyStops 1 2 idle ended steps made stopped
