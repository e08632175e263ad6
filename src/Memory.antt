-- ===== src/Memory.antt =====
-- src/mlx_moe_stream/memory.py: safety margins, the M7 budget plan and staged pressure handling.
-- The proofs are in the children.
--
-- Differences that may be negative are integers. A snapshot is an argument of the call that takes
-- it, without its timestamp and device name, which nothing reads. `set_wired_limit` stands for the
-- import of MLX and `mx.set_wired_limit`. The pressure handler acts on a manager and a cache.
pub mod Margins
pub mod Plan
pub mod Pressure
pub mod Staged
mod Tests
use serve_mlx.Base.{
  ℕ, ◌+◌, ◌-◌, ◌*◌, ◌/◌, ◌^◌, Option, none, some, Bool, true, false, ◌&&◌, ◌||◌, List, [], ◌∷◌,
  ◌++◌, ltb, leb, ◌==◌, if◌then◌else◌, Exec, Result, ok, raise, Error, value_error, runtime_error,
  memory_budget, memory_pressure, min, max, ◌>>=◌, ◌>>◌, guard, is_some, not, continue,
}
use serve_mlx.Base.Int.{ℤ, pos, negsuc, ◌-ℤ◌, leb_ℤ, ltb_ℤ, pos_part}
use serve_mlx.Resident.{ResidentCache, evict_to, resize, minimum_entry_bytes}

abbrev pub gib : ℕ
gib = 1024 ^ 3

unfoldable pub automatic_safety_margin_bytes : ℕ → Result ℕ
automatic_safety_margin_bytes physical_memory_bytes =
    if leb physical_memory_bytes 0
    then raise value_error
    else ok (min (8 * gib) (max (2 * gib) (physical_memory_bytes / 4)))

unfoldable pub adaptive_safety_margin_bytes : ℕ → ℕ → Result ℕ
unfolding ◌-ℤ◌
adaptive_safety_margin_bytes physical_memory_bytes recommended_working_set_bytes =
    if leb physical_memory_bytes 0
    then raise value_error
    else (let already_withheld = pos physical_memory_bytes -ℤ pos recommended_working_set_bytes in
        let candidate = pos (physical_memory_bytes / 4) -ℤ already_withheld in
        ok (min (8 * gib) (max (1 * gib) (pos_part candidate))))

pub record MemorySnapshot : Type 0 where
  pub physical_memory_bytes : ℕ
  pub recommended_working_set_bytes : ℕ
  pub mlx_active_memory_bytes : ℕ
  pub mlx_cache_memory_bytes : ℕ
  pub mlx_peak_memory_bytes : ℕ
  pub process_rss_bytes : ℕ
  pub swap_total_bytes : Option ℕ
  pub swap_used_bytes : Option ℕ
  pub swap_free_bytes : Option ℕ

pub record MemoryBudgetConfig : Type 0 where
  pub safety_margin_bytes : ℕ
  pub kv_reserve_bytes : ℕ
  pub scratch_reserve_bytes : ℕ
  pub wired_limit_bytes : Option ℕ
  pub explicit_working_set_bytes : Option ℕ

-- `if value < 0: raise ValueError`
unfoldable pub nonnegative : ℤ → Result ℕ
nonnegative (pos n) = ok n
nonnegative (negsuc _) = raise value_error

-- `if value is not None and value <= 0: raise ValueError`
unfoldable pub positive_if_given : Option ℤ → Result (Option ℕ)
positive_if_given none = ok none
positive_if_given (some (pos n)) = if n == 0 then raise value_error else ok (some n)
positive_if_given (some (negsuc _)) = raise value_error

-- `MemoryBudgetConfig.__post_init__`
unfoldable pub check_config : ℤ → ℤ → ℤ → Option ℤ → Option ℤ → Result MemoryBudgetConfig
unfolding nonnegative positive_if_given
check_config safety_margin kv_reserve scratch_reserve wired_limit explicit_working_set = do
  safety ← nonnegative safety_margin
  kv ← nonnegative kv_reserve
  scratch ← nonnegative scratch_reserve
  wired ← positive_if_given wired_limit
  explicit ← positive_if_given explicit_working_set
  ok (record {
    safety_margin_bytes = safety;
    kv_reserve_bytes = kv;
    scratch_reserve_bytes = scratch;
    wired_limit_bytes = wired;
    explicit_working_set_bytes = explicit;
  })

pub data BudgetSource : Type 0 where
  auto explicit disabled : BudgetSource

pub data WorkingSetSource : Type 0 where
  from_recommended from_explicit : WorkingSetSource

pub record MemoryBudgetDecision : Type 0 where
  pub source : BudgetSource
  pub expert_budget_bytes : Option ℕ
  pub safe_working_set_bytes : ℤ
  pub shell_bytes : ℕ
  pub available_expert_bytes : ℤ
  pub snapshot : MemorySnapshot
  pub recommended_working_set_bytes : ℕ
  pub safety_margin_bytes : ℕ
  pub kv_reserve_bytes : ℕ
  pub scratch_reserve_bytes : ℕ
  pub working_set_bytes : ℕ
  pub working_set_source : WorkingSetSource

pub data PressureAction : Type 0 where
  no_action disable_prefetch evict shrink reject : PressureAction

pub record MemoryPressureEvent : Type 0 where
  pub action : PressureAction
  pub snapshot : MemorySnapshot
  pub resident_before_bytes : ℕ
  pub resident_after_bytes : ℕ
  pub cache_capacity_bytes : ℕ

pub record MemoryBudgetManager : Type 0 where
  pub config : MemoryBudgetConfig
  pub decision : Option MemoryBudgetDecision
  pub pressure_level : ℕ
  pub events : List MemoryPressureEvent

abbrev pub init : MemoryBudgetConfig → MemoryBudgetManager
init config = record { config = config; decision = none; pressure_level = 0; events = [] }

-- `x or y` on integers
abbrev pub or_else : ℕ → ℕ → ℕ
or_else x y = if x == 0 then y else x

unfoldable pub resolve_working_set :
    MemoryBudgetConfig → MemorySnapshot → Result (ℕ × WorkingSetSource)
resolve_working_set config snapshot = elim config.explicit_working_set_bytes [
  | none ↦ ok (
    or_else snapshot.recommended_working_set_bytes snapshot.physical_memory_bytes,
    from_recommended,
  )
  | some bytes ↦
      if not (snapshot.physical_memory_bytes == 0) && ltb snapshot.physical_memory_bytes bytes
      then raise value_error
      else ok (bytes, from_explicit)
]

-- a number that has passed its test, and `x or 1`
abbrev pub or_zero : Option ℕ → ℕ
or_zero none = 0
or_zero (some n) = n

abbrev pub or_one : Option ℕ → ℕ
or_one none = 1
or_one (some n) = or_else n 1

-- the tests on the arguments of `plan`
unfoldable pub check_request : ℤ → Option ℤ → Bool → ℤ → Result (ℕ × Option ℕ × ℕ)
unfolding nonnegative positive_if_given
check_request shell_bytes requested auto_enabled minimum = do
  shell ← nonnegative shell_bytes
  least ← positive_if_given (some minimum)
  budget ← positive_if_given requested
  guard (not (is_some budget && auto_enabled)) value_error
  ok (shell, budget, or_zero least)

-- the source and the budget of a decision, or `MemoryPressureError`
unfoldable pub choose_budget : Option ℕ → Bool → ℕ → ℤ → Result (BudgetSource × Option ℕ)
choose_budget requested auto_enabled minimum available = do
  guard (not ((is_some requested || auto_enabled) && ltb_ℤ available (pos minimum))) memory_pressure
  elim requested [
    | some budget ↦
        if ltb_ℤ available (pos budget) then raise memory_pressure else ok (explicit, some budget)
    | none ↦ if auto_enabled then ok (auto, some (pos_part available)) else ok (disabled, none)
  ]

unfoldable pub apply_wired_limit : MemoryBudgetConfig → (ℕ → Result (Unit {0})) → Result (Unit {0})
apply_wired_limit config set_wired_limit = elim config.wired_limit_bytes [
  | none ↦ ok tt
  | some limit ↦ set_wired_limit limit
]

-- `available` in `plan`
unfoldable pub available_bytes : MemoryBudgetConfig → ℕ → ℕ → ℤ
unfolding ◌-ℤ◌
available_bytes config working_set shell =
    pos working_set
    -ℤ pos config.safety_margin_bytes
    -ℤ pos shell
    -ℤ pos config.kv_reserve_bytes
    -ℤ pos config.scratch_reserve_bytes

-- the `MemoryBudgetDecision` that `plan` builds
unfoldable pub decision :
    MemoryBudgetConfig
    → MemorySnapshot
    → ℕ
    → ℕ × WorkingSetSource
    → BudgetSource × Option ℕ
    → MemoryBudgetDecision
unfolding available_bytes ◌-ℤ◌
decision config snapshot shell (working_set, working_set_source) (source, budget) = record {
  source = source;
  expert_budget_bytes = budget;
  safe_working_set_bytes = pos working_set -ℤ pos config.safety_margin_bytes;
  shell_bytes = shell;
  available_expert_bytes = available_bytes config working_set shell;
  snapshot = snapshot;
  recommended_working_set_bytes = snapshot.recommended_working_set_bytes;
  safety_margin_bytes = config.safety_margin_bytes;
  kv_reserve_bytes = config.kv_reserve_bytes;
  scratch_reserve_bytes = config.scratch_reserve_bytes;
  working_set_bytes = working_set;
  working_set_source = working_set_source;
}

-- the decision that `plan` comes to
unfoldable pub decide :
    MemoryBudgetConfig
    → (ℕ → Result (Unit {0}))
    → MemorySnapshot
    → ℤ
    → Option ℤ
    → Bool
    → ℤ
    → Result MemoryBudgetDecision
unfolding resolve_working_set check_request choose_budget apply_wired_limit decision
decide config set_wired_limit snapshot shell_bytes requested auto_enabled minimum = do
  (shell, budget, least) ← check_request shell_bytes requested auto_enabled minimum
  (working_set, working_set_source) ← resolve_working_set config snapshot
  let available = available_bytes config working_set shell
  (source, chosen) ← choose_budget budget auto_enabled least available
  apply_wired_limit config set_wired_limit
  ok (decision config snapshot shell (working_set, working_set_source) (source, chosen))

-- The snapshot is taken only once the arguments have passed their tests, and has no effect.
unfoldable pub plan :
    (ℕ → Result (Unit {0}))
    → MemorySnapshot
    → ℤ
    → Option ℤ
    → Bool
    → ℤ
    → Exec MemoryBudgetManager MemoryBudgetDecision
unfolding decide
plan set_wired_limit snapshot shell_bytes requested auto_enabled minimum m =
    elim (decide m.config set_wired_limit snapshot shell_bytes requested auto_enabled minimum) [
      | ok d ↦ (ok d, record m { decision = some d })
      | raise e ↦ (raise e, m)
    ]

-- the objects that `enforce` works on
pub record System (A : Type 0) : Type 0 where
  pub manager : MemoryBudgetManager
  pub cache : ResidentCache A

module _ {A : Type 0} where
  abbrev pub event : PressureAction → MemorySnapshot → ℕ → ResidentCache A → MemoryPressureEvent
  event action snapshot resident_before cache = record {
    action = action;
    snapshot = snapshot;
    resident_before_bytes = resident_before;
    resident_after_bytes = cache.resident_bytes;
    cache_capacity_bytes = cache.capacity_bytes;
  }

  abbrev pub at_level : ℕ → System A → System A
  at_level level s = record s { manager = record s.manager { pressure_level = level } }

  -- `return self._record(...)`
  unfoldable pub record_event :
      PressureAction → MemorySnapshot → ℕ → Exec (System A) MemoryPressureEvent
  record_event action snapshot resident_before s =
      let e = event action snapshot resident_before s.cache in
      (ok e, record s { manager = record s.manager { events = s.manager.events ++ e ∷ [] } })

  -- a call of the cache in a `try` that turns `MemoryBudgetError` into `MemoryPressureError`
  unfoldable pub try_cache : (Result (Unit {0}) × ResidentCache A) → Exec (System A) (Unit {0})
  try_cache (ok tt, cache) s = (ok tt, record s { cache = cache })
  try_cache (raise memory_budget, cache) s = (raise memory_pressure, record s { cache = cache })
  try_cache (raise e, cache) s = (raise e, record s { cache = cache })

  -- the stages after the first, under pressure
  unfoldable pub relieve : MemorySnapshot → ℕ → ℕ → ℕ → Exec (System A) MemoryPressureEvent
  unfolding record_event try_cache minimum_entry_bytes
  relieve snapshot level resident_before target s =
      if level == 1
      then continue (try_cache (evict_to (pos target) s.cache) (at_level 2 s))
          (λ _. record_event evict snapshot resident_before)
      else if level == 2
      then (let new_capacity = max (or_one (minimum_entry_bytes s.cache)) target in
          continue (try_cache (resize new_capacity s.cache) (at_level 3 s))
            (λ _. record_event shrink snapshot resident_before))
      else (raise memory_pressure, (record_event reject snapshot resident_before (at_level 4 s)).1)

  unfoldable pub enforce : MemorySnapshot → Exec (System A) MemoryPressureEvent
  unfolding relieve record_event ◌-ℤ◌
  enforce snapshot s = elim s.manager.decision [
    | none ↦ (raise runtime_error, s)
    | some decision ↦
        let resident_before = s.cache.resident_bytes in
        if leb_ℤ (pos snapshot.mlx_active_memory_bytes) decision.safe_working_set_bytes
        then (ok (event no_action snapshot resident_before s.cache), at_level 0 s)
        else if s.manager.pressure_level == 0
        then record_event disable_prefetch snapshot resident_before (at_level 1 s)
        else (let excess =
              pos_part (pos snapshot.mlx_active_memory_bytes -ℤ decision.safe_working_set_bytes) in
            let recovery_bytes = excess + s.manager.config.safety_margin_bytes / 4 in
            relieve snapshot s.manager.pressure_level resident_before
              (resident_before - recovery_bytes) s)
  ]
