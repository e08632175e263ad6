-- ===== src/Memory/Plan.antt =====
-- What a successful `plan` guarantees, and when it succeeds.
use serve_mlx.Base.{
  ok-injective, ℕ, ◌+◌, ◌≤◌, ◌<◌, ◌≡◌, refl, ap, ◌∙◌, Option, none, some, Bool, true, false, Result,
  ok, arith, Result-cases, inl, inr,
}
use serve_mlx.Base.Int.{ℤ, pos, pos_part, neg_part, -ℤ_parts, ◌≤ℤ◌}
use serve_mlx.Memory.{
  MemorySnapshot, MemoryBudgetConfig, MemoryBudgetDecision, BudgetSource, WorkingSetSource, auto,
  from_explicit, resolve_working_set, check_request, choose_budget, apply_wired_limit, decide,
  decision, available_bytes, nonnegative, positive_if_given,
}

choose_budget_lem :
    (requested : Option ℕ) (auto_enabled : Bool) (minimum : ℕ) (available : ℤ)
    (source : BudgetSource) (b : ℕ)
    → choose_budget requested auto_enabled minimum available ≡ ok (source, some b)
    → (pos b ≤ℤ available) × (pos minimum ≤ℤ available) × ((source ≡ auto) → pos b ≡ available)
unfolding choose_budget
choose_budget_lem none false minimum available source b h = ground arith
choose_budget_lem none true minimum available source b h = ground arith
choose_budget_lem (some r) a minimum available source b h = ground arith

check_request_lem :
    (shell_bytes : ℤ) (requested : Option ℤ) (auto_enabled : Bool) (minimum : ℤ) (shell least : ℕ)
    (budget : Option ℕ)
    → check_request shell_bytes requested auto_enabled minimum ≡ ok (shell, budget, least)
    → (shell_bytes ≡ pos shell) × (minimum ≡ pos least)
unfolding check_request nonnegative positive_if_given
check_request_lem shell_bytes requested auto_enabled minimum shell least budget h = ground arith

-- What a decision with a budget of `b` bytes guarantees.
pub record Planned (config : MemoryBudgetConfig) (snapshot : MemorySnapshot)
    (shell_bytes minimum : ℤ) (d : MemoryBudgetDecision) (b : ℕ) : Type 0 where
  pub shell : shell_bytes ≡ pos d.shell_bytes
  pub fits :
      b + d.shell_bytes + config.kv_reserve_bytes + config.scratch_reserve_bytes
        + config.safety_margin_bytes
      ≤ d.working_set_bytes
  pub one_expert :
      pos_part minimum
        + d.shell_bytes
        + config.kv_reserve_bytes
        + config.scratch_reserve_bytes
        + config.safety_margin_bytes
      ≤ d.working_set_bytes
  pub all_of_it :
      d.source ≡ auto
      → b + d.shell_bytes + config.kv_reserve_bytes + config.scratch_reserve_bytes
          + config.safety_margin_bytes
        ≡ d.working_set_bytes
  pub physical :
      d.working_set_source ≡ from_explicit
      → 0 < snapshot.physical_memory_bytes
      → d.working_set_bytes ≤ snapshot.physical_memory_bytes

resolve_lem :
    (config : MemoryBudgetConfig) (snapshot : MemorySnapshot) (n : ℕ) (w : WorkingSetSource)
    → resolve_working_set config snapshot ≡ ok (n, w)
    → w ≡ from_explicit
    → 0 < snapshot.physical_memory_bytes
    → n ≤ snapshot.physical_memory_bytes
unfolding resolve_working_set
resolve_lem config snapshot n w h e p = ground arith

decision-Planned :
    (config : MemoryBudgetConfig) (snapshot : MemorySnapshot) (shell least : ℕ)
    (requested : Option ℕ) (auto_enabled : Bool) (ws : ℕ) (source : WorkingSetSource)
    (src : BudgetSource) (chosen : Option ℕ) (b : ℕ)
    → resolve_working_set config snapshot ≡ ok (ws, source)
    → choose_budget requested auto_enabled least (available_bytes config ws shell)
      ≡ ok (src, chosen)
    → (decision config snapshot shell (ws, source) (src, chosen)).expert_budget_bytes ≡ some b
    → Planned config snapshot
        (pos shell)
        (pos least)
        (decision config snapshot shell (ws, source) (src, chosen))
        b
unfolding decision available_bytes
decision-Planned config snapshot shell least requested auto_enabled ws source src chosen b q r e =
    let (fit, one, all) =
      choose_budget_lem requested auto_enabled least (available_bytes config ws shell) src b
        (r ∙ ap (λ (c : Option ℕ). ok (src, c)) e) in
    record {
      shell = refl;
      fits = omega (arith, -ℤ_parts, fit);
      one_expert = omega (arith, -ℤ_parts, one);
      all_of_it = λ p. omega (arith, -ℤ_parts, fit, ap neg_part (all p), ap pos_part (all p));
      physical = resolve_lem config snapshot ws source q;
    }

-- Whenever `plan` comes to a decision with an expert budget, the budget, the shell, the reserves
-- and the safety margin fit the working set together, and so does one routed expert in place of the
-- budget. An automatic budget uses all that is left. An explicit working set is at most the
-- physical memory, where that is known.
pub decide-Planned :
    (config : MemoryBudgetConfig) (set_wired_limit : ℕ → Result (Unit {0}))
    (snapshot : MemorySnapshot) (shell_bytes : ℤ) (requested : Option ℤ) (auto_enabled : Bool)
    (minimum : ℤ) (d : MemoryBudgetDecision) (b : ℕ)
    → decide config set_wired_limit snapshot shell_bytes requested auto_enabled minimum ≡ ok d
    → d.expert_budget_bytes ≡ some b
    → Planned config snapshot shell_bytes minimum d b
unfolding decide
decide-Planned config wired snapshot shell_bytes requested auto_enabled minimum d b h e =
    elim (Result-cases (check_request shell_bytes requested auto_enabled minimum)) [
      | inr (x, p) ↦ absurd (let y = (rw (decide, p) at h) in cc)
      | inl ((shell, budget, least), p) ↦
          elim (Result-cases (resolve_working_set config snapshot)) [
            | inr (x, q) ↦ absurd (let y = (rw (decide, p, q) at h) in cc)
            | inl ((ws, source), q) ↦
                elim (Result-cases
                  (choose_budget budget auto_enabled least (available_bytes config ws shell))) [
                    | inr (x, r) ↦ absurd (let y = (rw (decide, p, q, r) at h) in cc)
                    | inl ((src, chosen), r) ↦
                        elim (Result-cases (apply_wired_limit config wired)) [
                          | inr (x, t) ↦ absurd (let y = (rw (decide, p, q, r, t) at h) in cc)
                          | inl (u, t) ↦
                              let same = ok-injective (rw (decide, p, q, r, t) at h) in
                              let (sh, mi) =
                                check_request_lem shell_bytes requested auto_enabled minimum shell
                                  least budget p in
                              rw (sh, mi, ← same)
                                (decision-Planned config snapshot shell least budget auto_enabled ws
                                  source src chosen b q r (rw (← same) at e))
                        ]
                  ]
          ]
    ]
