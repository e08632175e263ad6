-- ===== src/Loader/Stopping.antt =====
-- Workers stop only when no read is left for them.
use mathlib.Core.Path.{subst}
use serve_mlx.Base.{
  ℕ, ◌+◌, ◌≡◌, refl, sym, ap, some, true, false, List, [], ◌∷◌, ◌++◌, ok, arith, zero, suc,
  Option-cases, Bool-cases, inl, inr, if◌then◌else◌, ◌||◌,
}
use serve_mlx.Dict.{lookup}
use serve_mlx.Policy.{ExpertKey, ExpertKey-discrete}
use serve_mlx.Loader.{
  Origin, AsyncExpertLoader, Item, stop, read, Queued, stops, is_full, init, prefetch, demand,
  settle, record_event, close, closing, take, take_from, finish, count_prefetch, get_least,
}
use serve_mlx.Loader.Bounded.{left, init-IsValid}
use serve_mlx.Loader.Order.{
  Ranked, OnlyStops, Least-OnlyStops, get_least-Ranked, get_least-Least, HasRank, Least,
}
use serve_mlx.Loader.Run.{
  Step, after, run, step_prefetch, step_demand, step_settle, step_record, step_close, step_take,
  step_finish,
}

rank_of_stop : {B : Type 0} (i : Item B) (p : ℕ) → HasRank i p → i ≡ stop → p ≡ 2
rank_of_stop stop p h e = h
rank_of_stop (read key bundle request) p h e = absurd (let x = e in cc)

some_pair : {A C : Type 0} (x y : A × C) → some x ≡ some y → (x.0 ≡ y.0) × (x.1 ≡ y.1)
some_pair x y h = let e : x ≡ y = cc in (ap (λ p. p.0) e, ap (λ p. p.1) e)

stops-Ranked :
    {B : Type 0} (n sequence : ℕ) (q : List (Queued B)) → Ranked q → Ranked (stops n sequence ++ q)
unfolding stops
stops-Ranked zero sequence q h = h
stops-Ranked (suc n) sequence q h = (refl, stops-Ranked n (sequence + 1) q h)

module _ {B R : Type 0} where
  prefetch-Ranked :
      (key : ExpertKey) (bundle : B) (origin : Origin) (s : AsyncExpertLoader B R)
      → Ranked s.queue
      → Ranked (prefetch key bundle origin s).1.queue
  unfolding prefetch count_prefetch
  prefetch-Ranked key bundle origin s v =
      elim (Option-cases (lookup ExpertKey-discrete key s.requests)) [
        | inr (r, h) ↦ rw (prefetch, count_prefetch, h) v
        | inl h ↦ elim (Bool-cases (s.closed || is_full (count_prefetch origin s))) [
          | inl full ↦ rw (prefetch, h, full) v
          | inr free ↦ rw (prefetch, h, free) ((omega arith, v))
        ]
      ]

  demand-Ranked :
      (key : ExpertKey) (bundle : B) (s : AsyncExpertLoader B R)
      → Ranked s.queue
      → Ranked (demand key bundle s).1.queue
  unfolding demand
  demand-Ranked key bundle s v =
      let w = record s { demand_requests = s.demand_requests + 1 } in
      elim (Option-cases (lookup ExpertKey-discrete key s.requests)) [
        | inr (r, h) ↦ rw (demand, h) v
        | inl h ↦ elim (Bool-cases s.closed) [
          | inl shut ↦ rw (demand, h, shut) v
          | inr open_now ↦ elim (Bool-cases (is_full w)) [
            | inl full ↦ rw (demand, h, open_now, full) v
            | inr free ↦ rw (demand, h, open_now, free) ((omega arith, v))
          ]
        ]
      ]

  close-Ranked : (s : AsyncExpertLoader B R) → Ranked s.queue → Ranked (close s).queue
  unfolding close closing
  close-Ranked s v = elim s.closed as (λ c. Ranked (if c then s else closing s).queue) [
    | true ↦ v
    | false ↦ stops-Ranked s.workers s.sequence s.queue v
  ]

  take_from-Ranked :
      (q : List (Queued B)) (s : AsyncExpertLoader B R)
      → s.queue ≡ q
      → Ranked q
      → Ranked (left (take_from q s) s).queue
  unfolding take_from
  take_from-Ranked [] s e v = rw e v
  take_from-Ranked (q ∷ rest) s e v = (get_least-Ranked q rest v).1

  after-Ranked :
      (step : Step B R) (s : AsyncExpertLoader B R) → Ranked s.queue → Ranked (after step s).queue
  unfolding after settle record_event finish take
  after-Ranked (step_prefetch key bundle origin) s v = prefetch-Ranked key bundle origin s v
  after-Ranked (step_demand key bundle) s v = demand-Ranked key bundle s v
  after-Ranked (step_settle key request) s v = v
  after-Ranked (step_record event) s v = v
  after-Ranked step_close s v = close-Ranked s v
  after-Ranked step_take s v = take_from-Ranked s.queue s refl v
  after-Ranked (step_finish key request result) s v = v

  run-Ranked :
      (steps : List (Step B R)) (s : AsyncExpertLoader B R)
      → Ranked s.queue
      → Ranked (run steps s).queue
  unfolding run
  run-Ranked [] s v = v
  run-Ranked (step ∷ steps) s v = run-Ranked steps (after step s) (after-Ranked step s v)

  take_from-OnlyStops :
      (q : List (Queued B)) (s t : AsyncExpertLoader B R)
      → Ranked q
      → take_from q s ≡ some (stop, t)
      → OnlyStops t.queue
  unfolding take_from
  take_from-OnlyStops [] s t v h = absurd (let x = h in cc)
  take_from-OnlyStops (q ∷ rest) s t v h =
      let (ended, same) =
        some_pair ((get_least q rest).0.item, left (take_from (q ∷ rest) s) s) (stop, t) h in
      let (rank, ranked) = get_least-Ranked q rest v in
      let two = rank_of_stop (get_least q rest).0.item (get_least q rest).0.priority rank ended in
      let at_least = subst (λ p. Least p (get_least q rest).1) two (get_least-Least q rest).1 in
      subst OnlyStops (ap (λ (u : AsyncExpertLoader B R). u.queue) same)
        (Least-OnlyStops (get_least q rest).1 at_least ranked)

  -- From the constructor on, after any interleaving of steps: where a worker takes the entry that
  -- ends it, no read is left in the queue.
  pub run-take-OnlyStops :
      (workers max_inflight : ℕ) (s t : AsyncExpertLoader B R) (steps : List (Step B R))
      → init workers max_inflight ≡ ok s
      → take (run steps s) ≡ some (stop, t)
      → OnlyStops t.queue
  unfolding take
  run-take-OnlyStops workers max_inflight s t steps made h =
      take_from-OnlyStops (run steps s).queue (run steps s) t
        (run-Ranked steps s (subst Ranked (sym (init-IsValid workers max_inflight s made).4) tt)) h
