-- ===== src/Loader.antt =====
-- src/mlx_moe_stream/prefetch/async_loader.py: exact reads of expert bundles by a pool of workers,
-- shared between speculative and demanded loads. The proofs are in the children.
--
-- Each stretch of code that holds the lock is one step. `demand` has two, before and after it waits
-- for its future; a worker has two, before and after it reads. What a read answers is an argument.
-- A request is known by the sequence number it took, which no other has. Bundles are of any type
-- `B`, bytes of any type `R`. Timestamps are left out of the events.
mod Counts
pub mod Bounded
pub mod Run
pub mod Order
pub mod Stopping
mod Tests
use serve_mlx.Base.{
  ℕ, zero, suc, ◌+◌, ◌≡◌, Option, none, some, Bool, true, false, List, [], ◌∷◌, ◌==◌, leb, ltb,
  length, Result, Exec, ok, raise, value_error, runtime_error, if◌then◌else◌, ◌>>=◌, ◌>>◌, guard,
  not, ◌||◌, ◌&&◌, ◌++◌,
}
use serve_mlx.Dict.{lookup, put, remove, total}
use serve_mlx.Policy.{ExpertKey, ExpertKey-discrete}

pub data Origin : Type 0 where
  by_demand by_prefetch by_prediction : Origin

-- `_LoadRequest`
pub record LoadRequest : Type 0 where
  pub id : ℕ
  pub origin : Origin

pub data Item (B : Type 0) : Type 0 where
  stop : Item B
  read : ExpertKey → B → LoadRequest → Item B

-- an entry of the priority queue
pub record Queued (B : Type 0) : Type 0 where
  pub priority : ℕ
  pub sequence : ℕ
  pub item : Item B

pub data Event : Type 0 where
  load_start load_end : ExpertKey → Event

pub record AsyncExpertLoader (B R : Type 0) : Type 0 where
  pub workers : ℕ
  pub max_inflight : ℕ
  pub queue : List (Queued B)
  pub requests : List (ExpertKey × LoadRequest)
  pub sequence : ℕ
  pub closed : Bool
  pub events : List Event
  -- the futures that have a result, by the ids of their requests
  pub results : List (ℕ × Result R)
  pub demand_requests : ℕ
  pub prefetch_requests : ℕ
  pub prefetch_submitted : ℕ
  pub prefetch_hits : ℕ
  pub coalesced_requests : ℕ
  pub skipped_prefetches : ℕ
  pub predictive_requests : ℕ
  pub predictive_submitted : ℕ
  pub predictive_hits : ℕ
  pub predictive_unused : ℕ

abbrev pub count_if : Bool → ℕ → ℕ
count_if true n = n + 1
count_if false n = n

abbrev pub is_prediction : Origin → Bool
is_prediction by_prediction = true
is_prediction _ = false

abbrev pub is_prefetch : Origin → Bool
is_prefetch by_prefetch = true
is_prefetch _ = false

-- what a demand waits for: its request, or a read of its own
pub data Ticket : Type 0 where
  direct : Ticket
  waiting : LoadRequest → Ticket

-- the entries that end the workers, as many as there are
unfoldable pub stops : {B : Type 0} → ℕ → ℕ → List (Queued B)
stops zero sequence = []
stops (suc n) sequence =
    record { priority = 2; sequence = sequence; item = stop } ∷ stops n (sequence + 1)

module _ {B R : Type 0} where
  -- the fields as `AsyncExpertLoader.__init__` sets them
  abbrev pub fresh : ℕ → ℕ → AsyncExpertLoader B R
  fresh workers max_inflight = record {
    workers = workers;
    max_inflight = max_inflight;
    queue = [];
    requests = [];
    sequence = 0;
    closed = false;
    events = [];
    results = [];
    demand_requests = 0;
    prefetch_requests = 0;
    prefetch_submitted = 0;
    prefetch_hits = 0;
    coalesced_requests = 0;
    skipped_prefetches = 0;
    predictive_requests = 0;
    predictive_submitted = 0;
    predictive_hits = 0;
    predictive_unused = 0;
  }

  -- `AsyncExpertLoader.__init__`
  unfoldable pub init : ℕ → ℕ → Result (AsyncExpertLoader B R)
  init workers max_inflight = do
    guard (not (leb workers 0)) value_error
    guard (not (ltb max_inflight workers)) value_error
    ok (fresh workers max_inflight)

  -- `_submit_locked`
  unfoldable pub submit :
      ExpertKey → B → ℕ → Origin → AsyncExpertLoader B R → LoadRequest × AsyncExpertLoader B R
  submit key bundle priority origin s =
      let request : LoadRequest = record { id = s.sequence; origin = origin } in
      (
        request,
        record s {
          requests = put ExpertKey-discrete key request s.requests;
          sequence = s.sequence + 1;
          queue =
              record { priority = priority; sequence = s.sequence; item = read key bundle request }
              ∷ s.queue;
        },
      )

  -- the two counts that `prefetch` begins with
  unfoldable pub count_prefetch : Origin → AsyncExpertLoader B R → AsyncExpertLoader B R
  count_prefetch origin s = record s {
    prefetch_requests = s.prefetch_requests + 1;
    predictive_requests = count_if (is_prediction origin) s.predictive_requests;
  }

  unfoldable pub is_full : AsyncExpertLoader B R → Bool
  is_full s = leb s.max_inflight (length s.requests)

  unfoldable pub prefetch :
      ExpertKey → B → Origin → AsyncExpertLoader B R → Bool × AsyncExpertLoader B R
  unfolding submit count_prefetch lookup is_full
  prefetch key bundle origin s0 =
      let s = count_prefetch origin s0 in
      elim (lookup ExpertKey-discrete key s.requests) [
        | some request ↦ (true, record s { coalesced_requests = s.coalesced_requests + 1 })
        | none ↦
            if s.closed || is_full s
            then (false, record s { skipped_prefetches = s.skipped_prefetches + 1 })
            else let t = (submit key bundle 1 origin s).1 in
              (
                true,
                record t {
                  prefetch_submitted = t.prefetch_submitted + 1;
                  predictive_submitted = count_if (is_prediction origin) t.predictive_submitted;
                },
              )
      ]

  -- `demand`, up to where it waits
  unfoldable pub demand : ExpertKey → B → Exec (AsyncExpertLoader B R) Ticket
  unfolding submit lookup is_full
  demand key bundle s0 =
      let s = record s0 { demand_requests = s0.demand_requests + 1 } in
      elim (lookup ExpertKey-discrete key s.requests) [
        | some request ↦
            (ok (waiting request), record s { coalesced_requests = s.coalesced_requests + 1 })
        | none ↦
            if s.closed
            then (raise runtime_error, s)
            else if is_full s
            then (ok direct, s)
            else let (request, t) = submit key bundle 0 by_demand s in (ok (waiting request), t)
      ]

  -- `demand`, once its future has a result: the `finally` block
  unfoldable pub settle : ExpertKey → LoadRequest → AsyncExpertLoader B R → AsyncExpertLoader B R
  unfolding lookup remove
  settle key request s = record s {
    requests = elim (lookup ExpertKey-discrete key s.requests) [
      | none ↦ s.requests
      | some current ↦
          if current.id == request.id then remove ExpertKey-discrete key s.requests else s.requests
    ];
    prefetch_hits = count_if (is_prefetch request.origin) s.prefetch_hits;
    predictive_hits = count_if (is_prediction request.origin) s.predictive_hits;
  }

  -- `record`, as a demand does before and after a read of its own
  unfoldable pub record_event : Event → AsyncExpertLoader B R → AsyncExpertLoader B R
  record_event event s = record s { events = event ∷ s.events }

  -- what `close` does to a loader that is open, up to where it joins the workers
  unfoldable pub closing : AsyncExpertLoader B R → AsyncExpertLoader B R
  unfolding stops
  closing s = record s {
    closed = true;
    predictive_unused =
        s.predictive_unused + total (λ r. count_if (is_prediction r.origin) 0) s.requests;
    queue = stops s.workers s.sequence ++ s.queue;
    sequence = s.sequence + s.workers;
  }

  unfoldable pub close : AsyncExpertLoader B R → AsyncExpertLoader B R
  unfolding closing
  close s = if s.closed then s else closing s

-- The order of the queue's entries, which are tuples: by priority, then by sequence number.
abbrev pub before : {B : Type 0} → Queued B → Queued B → Bool
before a b = ltb a.priority b.priority || a.priority == b.priority && ltb a.sequence b.sequence

-- `queue.get()`: the least entry, and the rest
unfoldable pub get_least : {B : Type 0} → Queued B → List (Queued B) → Queued B × List (Queued B)
get_least q [] = (q, [])
get_least q (r ∷ rest) =
    let (least, others) = get_least r rest in
    if before q least then (q, r ∷ rest) else (least, q ∷ others)

module _ {B R : Type 0} where
  unfoldable pub take_from :
      List (Queued B) → AsyncExpertLoader B R → Option (Item B × AsyncExpertLoader B R)
  unfolding get_least
  take_from [] s = none
  take_from (q ∷ rest) s =
      let (least, others) = get_least q rest in
      some (
        least.item,
        record s {
          queue = others;
          events = elim least.item [
            | stop ↦ s.events
            | read key bundle request ↦ load_start key ∷ s.events
          ];
        },
      )

  -- a worker takes an entry and starts its read; it waits while there is none
  unfoldable pub take : AsyncExpertLoader B R → Option (Item B × AsyncExpertLoader B R)
  unfolding take_from
  take s = take_from s.queue s

  -- a worker's read, with what it answered: the future gets its result
  unfoldable pub finish :
      ExpertKey → LoadRequest → Result R → AsyncExpertLoader B R → AsyncExpertLoader B R
  finish key request result s = record s {
    events = load_end key ∷ s.events;
    results = (request.id, result) ∷ s.results;
  }
