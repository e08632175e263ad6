-- ===== src/Memory/Tests.antt =====
-- A plan for a 16 GiB machine, and the pressure handler on a small cache.
use serve_mlx.Base.{
  ℕ, ◌*◌, ◌≡◌, min, refl, some, none, true, List, [], ◌∷◌, Result, ok, arith, if◌then◌else◌, ◌+◌,
}
use serve_mlx.Base.Int.{pos}
use serve_mlx.Dict.{lookup, remove, put, put_last}
use serve_mlx.Policy.{ExpertKey-discrete}
use serve_mlx.Resident
use serve_mlx.Resident.{ResidentExpert, ResidentCache, admit}
use serve_mlx.Resident.Budget.{IsValid}
use serve_mlx.Resident.Run.{Call, call_admit, run, run-IsValid}
use serve_mlx.Memory.{
  MemorySnapshot, MemoryBudgetConfig, MemoryBudgetDecision, System, gib, init, decide, decision,
  auto, from_recommended, enforce,
}
use serve_mlx.Memory.Margins.{Margins, safety-Margins}
use serve_mlx.Memory.Plan.{Planned, decide-Planned}
use serve_mlx.Memory.Pressure.{Kept, enforce-Kept, under_pressure, enforce-level}
use serve_mlx.Memory.Staged.{Staged, enforce-Staged}

safety-Margins_example : (a : ℕ) × (b : ℕ) × Margins (16 * gib) (11 * gib) a b
safety-Margins_example = safety-Margins (16 * gib) (11 * gib) (omega arith) (omega arith)

abbrev config : MemoryBudgetConfig
config = record {
  safety_margin_bytes = 40;
  kv_reserve_bytes = 10;
  scratch_reserve_bytes = 10;
  wired_limit_bytes = none;
  explicit_working_set_bytes = none;
}

abbrev snapshot : MemorySnapshot
snapshot = record {
  physical_memory_bytes = 160;
  recommended_working_set_bytes = 120;
  mlx_active_memory_bytes = 90;
  mlx_cache_memory_bytes = 0;
  mlx_peak_memory_bytes = 90;
  process_rss_bytes = 0;
  swap_total_bytes = none;
  swap_used_bytes = none;
  swap_free_bytes = none;
}

abbrev no_limit : ℕ → Result (Unit {0})
no_limit n = ok tt

abbrev planned : MemoryBudgetDecision
planned = decision config snapshot 20 (120, from_recommended) (auto, some 40)

plan_made : decide config no_limit snapshot (pos 20) none true (pos 5) ≡ ok planned
unfolding decide
plan_made = refl

budget : planned.expert_budget_bytes ≡ some 40
unfolding decision
budget = refl

decide-Planned_example : Planned config snapshot (pos 20) (pos 5) planned 40
decide-Planned_example =
    decide-Planned config no_limit snapshot (pos 20) none true (pos 5) planned 40 plan_made budget

abbrev expert : ℕ → ResidentExpert ℕ
expert n = record {
  key = record { layer = 0; expert = n };
  arrays = 0;
  nbytes = 6;
  last_used_step = 0;
  pin_count = 0;
}

abbrev empty : ResidentCache ℕ
empty = record {
  capacity_bytes = 40;
  entries = [];
  resident_bytes = 0;
  step = 0;
  lookup_count = 0;
  hit_count = 0;
  miss_count = 0;
  byte_hits = 0;
  byte_misses = 0;
  eviction_count = 0;
  admission_bytes = 0;
  reload_bytes = 0;
  evicted_residence_steps = 0;
  ever_admitted = [];
  admitted_at = [];
  per_layer_hits = [];
  per_layer_misses = [];
}

init-empty : Resident.init 40 ≡ ok empty
unfolding Resident.init
init-empty = refl

abbrev calls : List (Call ℕ)
calls = call_admit (expert 1) ∷ call_admit (expert 2) ∷ []

abbrev system : ℕ → System ℕ
system level = record {
  manager = record (init config) { decision = some planned; pressure_level = level };
  cache = run calls empty;
}

cache-IsValid : IsValid (run calls empty)
cache-IsValid = run-IsValid 40 empty calls init-empty

pressed : under_pressure snapshot planned ≡ true
unfolding decision
pressed = refl

-- 10 bytes too many and a quarter of the margin: both experts go
evicted : (enforce snapshot (system 1)).1.cache.resident_bytes ≡ 0
unfolding enforce decision run lookup remove put put_last ExpertKey-discrete
evicted = refl

enforce-Kept_example : Kept (run calls empty) (enforce snapshot (system 1)).1.cache
enforce-Kept_example = enforce-Kept snapshot (system 1) cache-IsValid

enforce-level_example :
    (enforce snapshot (system 1)).1.manager.pressure_level
    ≡ (if under_pressure snapshot planned then min 4 (1 + 1) else 0)
enforce-level_example = enforce-level snapshot (system 1) planned refl

enforce-Staged_example : Staged snapshot planned (system 1) (enforce snapshot (system 1))
enforce-Staged_example = enforce-Staged snapshot (system 1) planned refl pressed cache-IsValid
