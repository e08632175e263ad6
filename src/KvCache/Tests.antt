-- ===== src/KvCache/Tests.antt =====
-- A model with a sliding layer, a full layer and a linear layer, and its KV cache.
use serve_mlx.Base.{ℕ, ◌+◌, ◌≤◌, ◌≡◌, refl, some, none, true, Result, ok, arith}
use serve_mlx.Base.Int.{pos}
use serve_mlx.Json.{Fields, field, end, int, str, arr, obj, nil, cons}
use serve_mlx.Memory.{
  MemorySnapshot, MemoryBudgetConfig, MemoryBudgetDecision, decide, decision, from_recommended,
}
use serve_mlx.Memory
use serve_mlx.KvCache.{
  KvCacheConfig, KvCacheDecision, default_config, estimate_bf16_kv_bytes, auto, bf16_exceeds,
  text_config_of, estimate, eight_bit, four_bit, resolve_kv_cache, with_kv_reserve,
}
use serve_mlx.KvCache.Estimate.{
  Counted, estimate_bf16_kv_bytes-Counted, estimate-estimate_bf16_anti,
}
use serve_mlx.KvCache.Resolve.{Resolved, resolve_kv_cache-Resolved, resolve-decide_room}

abbrev text_config : Fields ℕ
text_config = field "num_hidden_layers" (int (pos 3)) (
    field "num_attention_heads" (int (pos 4)) (
      field "hidden_size" (int (pos 32)) (
        field "sliding_window" (int (pos 10)) (
          field "layer_types"
            (arr (
              cons (str "sliding_attention")
                (cons (str "full_attention") (cons (str "linear_attention") nil))))
            end))))

abbrev model_config : Fields ℕ
model_config = field "text_config" (obj text_config) end

nested : text_config_of model_config ≡ ok text_config
unfolding text_config_of
nested = refl

-- (10 + 100) * 4 * 8 * 4
counted : estimate_bf16_kv_bytes model_config 100 ≡ ok 14080
unfolding estimate_bf16_kv_bytes
counted = refl

estimate_bf16_kv_bytes-Counted_example : Counted text_config 100 14080
estimate_bf16_kv_bytes-Counted_example =
    estimate_bf16_kv_bytes-Counted model_config text_config 100 14080 nested counted

estimate-estimate_bf16_anti_example :
    (estimate 14080 64 four_bit ≤ estimate 14080 64 eight_bit)
    × (estimate 14080 64 eight_bit ≤ 14080)
estimate-estimate_bf16_anti_example =
    estimate-estimate_bf16_anti model_config text_config 100 14080 64 nested counted (omega arith)

abbrev budget : MemoryBudgetConfig
budget = record {
  safety_margin_bytes = 1000;
  kv_reserve_bytes = 10;
  scratch_reserve_bytes = 1000;
  wired_limit_bytes = none;
  explicit_working_set_bytes = none;
}

abbrev snapshot : MemorySnapshot
snapshot = record {
  physical_memory_bytes = 160_000;
  recommended_working_set_bytes = 42_000;
  mlx_active_memory_bytes = 0;
  mlx_cache_memory_bytes = 0;
  mlx_peak_memory_bytes = 0;
  process_rss_bytes = 0;
  swap_total_bytes = none;
  swap_used_bytes = none;
  swap_free_bytes = none;
}

abbrev requested : KvCacheConfig
requested = record (default_config) { max_context_tokens = 100 }

-- The allowance is a quarter of 39,900 - 1: eight bits.
abbrev decided : KvCacheDecision
decided = record {
  requested_mode = auto;
  effective_mode = eight_bit;
  max_context_tokens = 100;
  kv_bits = some 8;
  group_size = 64;
  estimated_bf16_bytes = 14080;
  estimated_bytes = 7260;
  reserve_bytes = 7260;
  allowance_bytes = 9900;
  reason = bf16_exceeds;
}

resolved : resolve_kv_cache (some requested) model_config 400 (some budget) snapshot ≡ ok decided
unfolding resolve_kv_cache
resolved = refl

resolve_kv_cache-Resolved_example : Resolved requested budget model_config snapshot 400 decided
resolve_kv_cache-Resolved_example =
    resolve_kv_cache-Resolved (some requested) model_config 400 (some budget) snapshot decided
      resolved

abbrev no_limit : ℕ → Result (Unit {0})
no_limit n = ok tt

abbrev planned : MemoryBudgetDecision
planned =
    decision (with_kv_reserve (some budget) decided) snapshot 400 (42_000, from_recommended)
      (Memory.auto, some 32_340)

plan_made :
    decide (with_kv_reserve (some budget) decided) no_limit snapshot (pos 400) none true (pos 5)
    ≡ ok planned
unfolding decide with_kv_reserve
plan_made = refl

planned_budget : planned.expert_budget_bytes ≡ some 32_340
unfolding decision
planned_budget = refl

resolve-decide_room_example :
    32_340 + planned.shell_bytes + 7260 + 1000 + 1000 ≤ planned.working_set_bytes
resolve-decide_room_example =
    resolve-decide_room (some requested) model_config 400 (some budget) snapshot decided no_limit
      snapshot (pos 400) none true (pos 5) planned 32_340 resolved plan_made planned_budget
