-- ===== src/KvCache/Resolve.antt =====
-- What a resolved KV-cache decision guarantees.
use serve_mlx.Base.{
  ok-injective, ℕ, ◌+◌, ◌*◌, ◌/◌, ◌≤◌, ◌<◌, ◌≡◌, refl, Option, some, Result, ok, arith,
  Result-cases, inl, inr, leb-cases, Bool,
}
use serve_mlx.Base.Int.{ℤ, pos, pos_part, ◌-ℤ◌}
use serve_mlx.Json.{Fields}
use serve_mlx.Memory.Plan.{decide-Planned}
use serve_mlx.Memory.{decide, MemoryBudgetDecision, MemorySnapshot, MemoryBudgetConfig, or_else}
use serve_mlx.KvCache.{
  Precision, bf16, eight_bit, four_bit, KvCacheMode, auto, fixed, KvCacheConfig, KvCacheDecision,
  default_config, default_budget, or_default, with_kv_reserve, allowance, estimate, choose,
  estimate_bf16_kv_bytes, resolve_kv_cache, decision,
}

-- The precision is the one asked for, or the highest whose estimate fits `allowed`, the lowest if
-- none of the others does.
pub data Chosen (bf16_bytes group_size allowed : ℕ) : KvCacheMode → Precision → Type 0 where
  asked : (p : Precision) → Chosen bf16_bytes group_size allowed (fixed p) p
  full :
      estimate bf16_bytes group_size bf16 ≤ allowed → Chosen bf16_bytes group_size allowed auto bf16
  half :
      allowed < estimate bf16_bytes group_size bf16
      → estimate bf16_bytes group_size eight_bit ≤ allowed
      → Chosen bf16_bytes group_size allowed auto eight_bit
  quarter :
      allowed < estimate bf16_bytes group_size bf16
      → allowed < estimate bf16_bytes group_size eight_bit
      → Chosen bf16_bytes group_size allowed auto four_bit

choose-Chosen :
    (mode : KvCacheMode) (bytes group_size allowed : ℕ)
    → Chosen bytes group_size allowed mode (choose mode bytes group_size allowed).0
unfolding choose
choose-Chosen (fixed p) bytes g allowed = asked p
choose-Chosen auto bytes g allowed = elim (leb-cases (estimate bytes g bf16) allowed) [
  | inl (fit, e) ↦ rw (choose, e) (full fit)
  | inr (over, e) ↦ elim (leb-cases (estimate bytes g eight_bit) allowed) [
    | inl (fit, f) ↦ rw (choose, e, f) (half over fit)
    | inr (more, f) ↦ rw (choose, e, f) (quarter over more)
  ]
]

headroom_lem :
    (w m s c : ℕ)
    → 0 < pos_part (pos w -ℤ pos m -ℤ pos s -ℤ pos c)
    → pos_part (pos w -ℤ pos m -ℤ pos s -ℤ pos c) + s + c + m ≤ w
unfolding ◌-ℤ◌
headroom_lem w m s c h = ground arith

quarter_lem : (x s c m w : ℕ) → (0 < x → x + s + c + m ≤ w) → 0 < x / 4 → x / 4 * 4 + s + c + m ≤ w
quarter_lem x s c m w h p = omega (arith, h (omega (arith, p)))

allowance_lem :
    (budget : MemoryBudgetConfig) (snapshot : MemorySnapshot) (shell : ℕ)
    → 0 < allowance budget snapshot shell
    → allowance budget snapshot shell * 4
        + shell
        + budget.scratch_reserve_bytes
        + budget.safety_margin_bytes
      ≤ or_else snapshot.recommended_working_set_bytes snapshot.physical_memory_bytes
unfolding allowance
allowance_lem budget snapshot shell =
    let working_set =
      or_else snapshot.recommended_working_set_bytes snapshot.physical_memory_bytes in
    let margin = budget.safety_margin_bytes in
    let scratch = budget.scratch_reserve_bytes in
    quarter_lem (pos_part (pos working_set -ℤ pos margin -ℤ pos shell -ℤ pos scratch)) shell scratch
      margin working_set (headroom_lem working_set margin shell scratch)

-- What the decision of `resolve_kv_cache` guarantees.
pub record Resolved {F : Type 0} (requested : KvCacheConfig) (budget : MemoryBudgetConfig)
    (model_config : Fields F) (snapshot : MemorySnapshot) (shell_bytes : ℕ) (d : KvCacheDecision)
    : Type 0 where
  pub full_size :
      estimate_bf16_kv_bytes model_config requested.max_context_tokens ≡ ok d.estimated_bf16_bytes
  pub size :
      d.estimated_bytes ≡ estimate d.estimated_bf16_bytes requested.group_size d.effective_mode
  pub chosen :
      Chosen d.estimated_bf16_bytes requested.group_size d.allowance_bytes requested.mode
        d.effective_mode
  pub reserved : d.estimated_bytes ≤ d.reserve_bytes
  pub configured : budget.kv_reserve_bytes ≤ d.reserve_bytes
  pub allowed :
      0 < d.allowance_bytes
      → d.allowance_bytes * 4
          + shell_bytes
          + budget.scratch_reserve_bytes
          + budget.safety_margin_bytes
        ≤ or_else snapshot.recommended_working_set_bytes snapshot.physical_memory_bytes

decision-Resolved :
    {F : Type 0} (requested : KvCacheConfig) (budget : MemoryBudgetConfig) (model_config : Fields F)
    (snapshot : MemorySnapshot) (shell_bytes bytes : ℕ)
    → estimate_bf16_kv_bytes model_config requested.max_context_tokens ≡ ok bytes
    → Resolved requested budget model_config snapshot shell_bytes
        (decision requested budget (allowance budget snapshot shell_bytes) bytes)
unfolding decision
decision-Resolved requested budget model_config snapshot shell_bytes bytes h = record {
  full_size = h;
  size = refl;
  chosen =
      choose-Chosen requested.mode bytes requested.group_size
        (allowance budget snapshot shell_bytes);
  reserved = omega arith;
  configured = omega arith;
  allowed = allowance_lem budget snapshot shell_bytes;
}

-- A resolved KV cache has the estimate of the precision it chose: the one asked for, or, in the
-- automatic mode, the highest whose estimate fits the allowance, and four bits if none of the others
-- does. The reserve covers the estimate and the configured reserve. A positive allowance, taken four
-- times, leaves room in the working set for the shell, the scratch memory and the safety margin.
pub resolve_kv_cache-Resolved :
    {F : Type 0} (config : Option KvCacheConfig) (model_config : Fields F) (shell_bytes : ℕ)
    (memory_config : Option MemoryBudgetConfig) (snapshot : MemorySnapshot) (d : KvCacheDecision)
    → resolve_kv_cache config model_config shell_bytes memory_config snapshot ≡ ok d
    → Resolved
        (or_default config default_config)
        (or_default memory_config default_budget)
        model_config
        snapshot
        shell_bytes
        d
unfolding resolve_kv_cache
resolve_kv_cache-Resolved config model_config shell_bytes memory_config snapshot d h =
    elim (Result-cases
      (estimate_bf16_kv_bytes model_config (or_default config default_config).max_context_tokens)) [
        | inr (x, p) ↦ absurd (let y = (rw (resolve_kv_cache, p) at h) in cc)
        | inl (bytes, p) ↦ rw (← ok-injective (rw (resolve_kv_cache, p) at h)) (
            decision-Resolved (or_default config default_config)
              (or_default memory_config default_budget) model_config snapshot shell_bytes bytes p)
      ]

-- Where an expert budget is planned with the reserve of a resolved KV cache, the budget, the shell,
-- the whole estimated KV cache, the scratch memory and the safety margin fit the working set
-- together.
pub resolve-decide_room :
    {F : Type 0} (config : Option KvCacheConfig) (model_config : Fields F) (resolved_shell : ℕ)
    (memory_config : Option MemoryBudgetConfig) (before : MemorySnapshot) (d : KvCacheDecision)
    (set_wired_limit : ℕ → Result (Unit {0})) (snapshot : MemorySnapshot) (shell_bytes : ℤ)
    (requested : Option ℤ) (auto_enabled : Bool) (minimum : ℤ) (plan : MemoryBudgetDecision) (b : ℕ)
    → resolve_kv_cache config model_config resolved_shell memory_config before ≡ ok d
    → decide
        (with_kv_reserve memory_config d)
        set_wired_limit
        snapshot
        shell_bytes
        requested
        auto_enabled
        minimum
      ≡ ok plan
    → plan.expert_budget_bytes ≡ some b
    → b
        + plan.shell_bytes
        + d.estimated_bytes
        + (or_default memory_config default_budget).scratch_reserve_bytes
        + (or_default memory_config default_budget).safety_margin_bytes
      ≤ plan.working_set_bytes
unfolding with_kv_reserve
resolve-decide_room config model_config resolved_shell memory_config before d wired snapshot
      shell_bytes requested auto_enabled minimum plan b h k e =
    let room =
      decide-Planned (with_kv_reserve memory_config d) wired snapshot shell_bytes requested
        auto_enabled minimum plan b k e in
    let r = resolve_kv_cache-Resolved config model_config resolved_shell memory_config before d h in
    omega (arith, room.fits, r.reserved)
