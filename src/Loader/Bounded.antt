-- ===== src/Loader/Bounded.antt =====
-- The bound on the requests, and the account of the counters.
use serve_mlx.Base.{
  ok-injective, ℕ, ◌+◌, ◌≤◌, ◌<◌, ◌≡◌, refl, ap, Option, none, some, Bool, true, false, List, [],
  ◌∷◌, Result, ok, arith, length, length-append, Option-cases, Bool-cases, inl, inr, leb, ltb,
  if◌then◌else◌, ◌||◌, ◌==◌,
}
use serve_mlx.Dict.{lookup, put, IsDict}
use serve_mlx.Dict.Laws.{put_new, put-IsDict, remove-IsDict, length-remove}
use serve_mlx.Policy.{ExpertKey, ExpertKey-discrete}
use serve_mlx.Loader.Counts.{
  Counted, demand-Counted, shared-Counted, coalesced-Counted, skipped-Counted, submitted-Counted,
}
use serve_mlx.Loader.{
  Origin, by_demand, LoadRequest, AsyncExpertLoader, init, count_prefetch, is_full, prefetch,
  demand, settle, record_event, close, take, take_from, finish, is_prediction, Item, Queued, Event,
  closing,
}

length-put_new :
    (key : ExpertKey) (r : LoadRequest) (d : List (ExpertKey × LoadRequest))
    → lookup ExpertKey-discrete key d ≡ none
    → length (put ExpertKey-discrete key r d) ≡ length d + 1
length-put_new key r d h =
    omega (arith, ap length (put_new ExpertKey-discrete key r d h), length-append d ((key, r) ∷ []))

free_lem : (closed full : Bool) → closed || full ≡ false → (closed ≡ false) × (full ≡ false)
free_lem closed full h = ground arith

module _ {B R : Type 0} where
  pub record IsValid (s : AsyncExpertLoader B R) : Type 0 where
    pub distinct : IsDict ExpertKey-discrete s.requests
    pub bounded : length s.requests ≤ s.max_inflight
    pub counts :
        Counted s.prefetch_requests s.demand_requests s.predictive_requests s.prefetch_submitted
          s.skipped_prefetches s.coalesced_requests s.predictive_submitted

  room_lem : (s : AsyncExpertLoader B R) → is_full s ≡ false → length s.requests < s.max_inflight
  unfolding is_full
  room_lem s h = ground arith

  pub prefetch-IsValid :
      (key : ExpertKey) (bundle : B) (origin : Origin) (s : AsyncExpertLoader B R)
      → IsValid s
      → IsValid (prefetch key bundle origin s).1
  unfolding prefetch count_prefetch
  prefetch-IsValid key bundle origin s v =
      elim (Option-cases (lookup ExpertKey-discrete key s.requests)) [
        | inr (r, h) ↦
            rw (prefetch, count_prefetch, h)
              (record {
                distinct = v.distinct;
                bounded = v.bounded;
                counts = coalesced-Counted v.counts (is_prediction origin);
              })
        | inl h ↦ elim (Bool-cases (s.closed || is_full (count_prefetch origin s))) [
          | inl full ↦
              rw (prefetch, h, full)
                (record {
                  distinct = v.distinct;
                  bounded = v.bounded;
                  counts = skipped-Counted v.counts (is_prediction origin);
                })
          | inr free ↦
              let r : LoadRequest = record { id = s.sequence; origin = origin } in
              rw (prefetch, h, free)
                (record {
                  distinct = put-IsDict ExpertKey-discrete key r s.requests v.distinct;
                  bounded = omega (
                    arith,
                    length-put_new key r s.requests h,
                    room_lem (count_prefetch origin s)
                        (free_lem s.closed (is_full (count_prefetch origin s)) free).1,
                  );
                  counts = submitted-Counted v.counts (is_prediction origin);
                })
        ]
      ]

  pub demand-IsValid :
      (key : ExpertKey) (bundle : B) (s : AsyncExpertLoader B R)
      → IsValid s
      → IsValid (demand key bundle s).1
  unfolding demand
  demand-IsValid key bundle s v =
      let w = record s { demand_requests = s.demand_requests + 1 } in
      let bumped : (c : Bool) → IsValid (record w { closed = c }) = λ c. record {
        distinct = v.distinct;
        bounded = v.bounded;
        counts = demand-Counted v.counts;
      } in
      elim (Option-cases (lookup ExpertKey-discrete key s.requests)) [
        | inr (r, h) ↦
            rw (demand, h)
              (record {
                distinct = v.distinct;
                bounded = v.bounded;
                counts = shared-Counted v.counts;
              })
        | inl h ↦ elim (Bool-cases s.closed) [
          | inl shut ↦ rw (demand, h, shut) (bumped true)
          | inr open_now ↦ elim (Bool-cases (is_full w)) [
            | inl full ↦ rw (demand, h, open_now, full) (bumped false)
            | inr free ↦
                let r : LoadRequest = record { id = s.sequence; origin = by_demand } in
                rw (demand, h, open_now, free)
                  (record {
                    distinct = put-IsDict ExpertKey-discrete key r s.requests v.distinct;
                    bounded = omega (arith, length-put_new key r s.requests h, room_lem w free);
                    counts = demand-Counted v.counts;
                  })
          ]
        ]
      ]

  -- the loader with at most the requests it had, and other fields that the bounds do not read
  keeps :
      (s : AsyncExpertLoader B R) {d : List (ExpertKey × LoadRequest)} {q : List (Queued B)}
      {n hits predicted unused : ℕ} {c : Bool} {events : List Event} {results : List (ℕ × Result R)}
      → IsValid s
      → IsDict ExpertKey-discrete d
      → length d ≤ length s.requests
      → IsValid (record s {
        requests = d;
        queue = q;
        sequence = n;
        closed = c;
        events = events;
        results = results;
        prefetch_hits = hits;
        predictive_hits = predicted;
        predictive_unused = unused;
      })
  keeps s v d n = record { distinct = d; bounded = omega (arith, n, v.bounded); counts = v.counts }

  pub settle-IsValid :
      (key : ExpertKey) (r : LoadRequest) (s : AsyncExpertLoader B R)
      → IsValid s
      → IsValid (settle key r s)
  unfolding settle
  settle-IsValid key r s v = elim (Option-cases (lookup ExpertKey-discrete key s.requests)) [
    | inl h ↦ rw (settle, h) (keeps s v v.distinct (omega arith))
    | inr (current, h) ↦ elim (Bool-cases (current.id == r.id)) [
      | inl same ↦
          rw (settle, h, same)
            (keeps s v (remove-IsDict ExpertKey-discrete key s.requests v.distinct)
              (omega (arith, length-remove ExpertKey-discrete key current s.requests h)))
      | inr other ↦ rw (settle, h, other) (keeps s v v.distinct (omega arith))
    ]
  ]

  pub close-IsValid : (s : AsyncExpertLoader B R) → IsValid s → IsValid (close s)
  unfolding close
  close-IsValid s v = elim s.closed as (λ c. IsValid (if c then s else closing s)) [
    | true ↦ v
    | false ↦ keeps s v v.distinct (omega arith)
  ]

  -- the loader after `take`, as it was where a worker waits
  abbrev pub left :
      Option (Item B × AsyncExpertLoader B R) → AsyncExpertLoader B R → AsyncExpertLoader B R
  left none s = s
  left (some (item, t)) s = t

  take_from-IsValid :
      (q : List (Queued B)) (s : AsyncExpertLoader B R)
      → IsValid s
      → IsValid (left (take_from q s) s)
  unfolding take_from
  take_from-IsValid [] s v = v
  take_from-IsValid (q ∷ rest) s v = keeps s v v.distinct (omega arith)

  pub take-IsValid : (s : AsyncExpertLoader B R) → IsValid s → IsValid (left (take s) s)
  unfolding take
  take-IsValid s v = take_from-IsValid s.queue s v

  pub finish-IsValid :
      (key : ExpertKey) (r : LoadRequest) (result : Result R) (s : AsyncExpertLoader B R)
      → IsValid s
      → IsValid (finish key r result s)
  unfolding finish
  finish-IsValid key r result s v = keeps s v v.distinct (omega arith)

  pub record_event-IsValid :
      (event : Event) (s : AsyncExpertLoader B R) → IsValid s → IsValid (record_event event s)
  unfolding record_event
  record_event-IsValid event s v = keeps s v v.distinct (omega arith)

  pub init-IsValid :
      (workers max_inflight : ℕ) (s : AsyncExpertLoader B R)
      → init workers max_inflight ≡ ok s
      → IsValid s
        × (0 < workers)
        × (workers ≤ max_inflight)
        × (s.max_inflight ≡ max_inflight)
        × (s.queue ≡ [])
  unfolding init
  init-IsValid workers max_inflight s h = elim (Bool-cases (leb workers 0)) [
    | inl e ↦ absurd (let y = (rw (init, e) at h) in cc)
    | inr e ↦ elim (Bool-cases (ltb max_inflight workers)) [
      | inl f ↦ absurd (let y = (rw (init, e, f) at h) in cc)
      | inr f ↦ rw (← ok-injective (rw (init, e, f) at h)) (
        record {
          distinct = tt;
          bounded = omega arith;
          counts = record {
            calls = omega arith;
            speculative = omega arith;
            asked = omega arith;
            answered = omega arith;
            among = omega arith;
          };
        },
        ground arith,
        ground arith,
        refl,
        refl,
      )
    ]
  ]
