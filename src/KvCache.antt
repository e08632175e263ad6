-- ===== src/KvCache.antt =====
-- src/mlx_moe_stream/kv_cache.py: the KV-cache precision policy. The proofs are in the children.
--
-- Modes are an enumeration: `auto` is a request, the others also name the effective precision.
-- Configuration values that the source tests for their sign are integers.
pub mod Estimate
pub mod Resolve
mod Tests
use Prim.Native.String.{String}
use text.Mathlib.Text.{◌==◌ as str_eq}
use serve_mlx.Base.{
  ℕ, zero, suc, ◌+◌, ◌-◌, ◌*◌, ◌/◌, ◌%◌, Option, none, some, Bool, true, false, ◌&&◌, leb, ltb,
  ◌==◌, if◌then◌else◌, Result, ok, raise, value_error, min, max, ◌>>=◌, ◌>>◌, guard, not,
}
use serve_mlx.Base.Int.{ℤ, pos, negsuc, ◌-ℤ◌, pos_part}
use serve_mlx.Json.{Value, Items, Fields, obj, nil, cons, member, as_int, as_list, is_text}
use serve_mlx.Memory.{MemoryBudgetConfig, MemorySnapshot, or_else}

pub data Precision : Type 0 where
  bf16 eight_bit four_bit : Precision

pub data KvCacheMode : Type 0 where
  auto : KvCacheMode
  fixed : Precision → KvCacheMode

pub record KvCacheConfig : Type 0 where
  pub mode : KvCacheMode
  pub max_context_tokens : ℕ
  pub group_size : ℕ

-- the names of the modes
unfoldable pub mode_named : String → Option KvCacheMode
mode_named name =
    if str_eq name "auto"
    then some auto
    else if str_eq name "bf16"
    then some (fixed bf16)
    else if str_eq name "8bit"
    then some (fixed eight_bit)
    else if str_eq name "4bit"
    then some (fixed four_bit)
    else none

-- `KvCacheConfig.__post_init__`
unfoldable pub check_config : String → ℤ → ℤ → Result KvCacheConfig
unfolding mode_named
check_config mode (pos (suc tokens)) (pos (suc group)) = elim (mode_named mode) [
  | none ↦ raise value_error
  | some m ↦ ok (record { mode = m; max_context_tokens = suc tokens; group_size = suc group })
]
check_config mode _ _ = raise value_error

abbrev pub default_config : KvCacheConfig
default_config = record { mode = auto; max_context_tokens = 4096; group_size = 64 }

-- the defaults of `MemoryBudgetConfig`
abbrev pub default_budget : MemoryBudgetConfig
default_budget = record {
  safety_margin_bytes = 2_000_000_000;
  kv_reserve_bytes = 1_000_000_000;
  scratch_reserve_bytes = 1_000_000_000;
  wired_limit_bytes = none;
  explicit_working_set_bytes = none;
}

-- `config or Default()`
abbrev pub or_default {ℓ} : {A : Type ℓ} → Option A → A → A
or_default none d = d
or_default (some a) d = a

pub data Reason : Type 0 where
  bf16_fits bf16_exceeds eight_bit_exceeds explicit_selection : Reason

pub record KvCacheDecision : Type 0 where
  pub requested_mode : KvCacheMode
  pub effective_mode : Precision
  pub max_context_tokens : ℕ
  pub kv_bits : Option ℕ
  pub group_size : ℕ
  pub estimated_bf16_bytes : ℕ
  pub estimated_bytes : ℕ
  pub reserve_bytes : ℕ
  pub allowance_bytes : ℕ
  pub reason : Reason

unfoldable pub quantized_estimate : ℕ → ℕ → ℕ → ℕ
quantized_estimate bf16_bytes bits group_size =
    let elements = bf16_bytes / 2 in
    (elements * bits + 7) / 8 + (elements + group_size - 1) / group_size * 2

-- a quarter of what is left beside the shell, the margin and the scratch memory
unfoldable pub allowance : MemoryBudgetConfig → MemorySnapshot → ℕ → ℕ
unfolding ◌-ℤ◌
allowance budget snapshot shell_bytes =
    let safe_working_set =
      pos (or_else snapshot.recommended_working_set_bytes snapshot.physical_memory_bytes)
      -ℤ pos budget.safety_margin_bytes in
    let headroom =
      pos_part (safe_working_set -ℤ pos shell_bytes -ℤ pos budget.scratch_reserve_bytes) in
    headroom / 4

unfoldable pub estimate : ℕ → ℕ → Precision → ℕ
unfolding quantized_estimate
estimate bf16_bytes group_size bf16 = bf16_bytes
estimate bf16_bytes group_size eight_bit = quantized_estimate bf16_bytes 8 group_size
estimate bf16_bytes group_size four_bit = quantized_estimate bf16_bytes 4 group_size

unfoldable pub choose : KvCacheMode → ℕ → ℕ → ℕ → Precision × Reason
unfolding estimate
choose auto bf16_bytes group_size allowed =
    if leb (estimate bf16_bytes group_size bf16) allowed
    then (bf16, bf16_fits)
    else if leb (estimate bf16_bytes group_size eight_bit) allowed
    then (eight_bit, bf16_exceeds)
    else (four_bit, eight_bit_exceeds)
choose (fixed p) bf16_bytes group_size allowed = (p, explicit_selection)

unfoldable pub bits_of : Precision → Option ℕ
bits_of bf16 = none
bits_of eight_bit = some 8
bits_of four_bit = some 4

-- the decision that `resolve_kv_cache` returns
unfoldable pub decision : KvCacheConfig → MemoryBudgetConfig → ℕ → ℕ → KvCacheDecision
unfolding choose estimate bits_of
decision requested budget allowed bf16_bytes =
    let (effective, reason) = choose requested.mode bf16_bytes requested.group_size allowed in
    let estimated = estimate bf16_bytes requested.group_size effective in
    record {
      requested_mode = requested.mode;
      effective_mode = effective;
      max_context_tokens = requested.max_context_tokens;
      kv_bits = bits_of effective;
      group_size = requested.group_size;
      estimated_bf16_bytes = bf16_bytes;
      estimated_bytes = estimated;
      reserve_bytes = max budget.kv_reserve_bytes estimated;
      allowance_bytes = allowed;
      reason = reason;
    }

module _ {F : Type 0} where
  -- `value = config.get(key)`, and `config.get(fallback_key)` where that is `None`
  unfoldable pub get_or_fallback : Fields F → String → Option String → Option (Value F)
  get_or_fallback config key fallback = elim (member key config) [
    | some Value.null ↦ elim fallback [ none ↦ some Value.null | some k ↦ member k config ]
    | some v ↦ some v
    | none ↦ elim fallback [ none ↦ none | some k ↦ member k config ]
  ]

  -- an integer greater than zero
  unfoldable pub positive : Option (Value F) → Option ℕ
  positive none = none
  positive (some v) = elim (as_int v) [
    | none ↦ none
    | some (negsuc _) ↦ none
    | some (pos n) ↦ if n == 0 then none else some n
  ]

  unfoldable pub positive_int : Fields F → String → Option String → Result ℕ
  unfolding positive get_or_fallback member
  positive_int config key fallback = elim (positive (get_or_fallback config key fallback)) [
    | none ↦ raise value_error
    | some n ↦ ok n
  ]

  -- `head_dim`, given or computed
  unfoldable pub head_dimension : Fields F → Result ℕ
  unfolding positive_int
  head_dimension text_config = elim (positive (member "head_dim" text_config)) [
    | some n ↦ ok n
    | none ↦ do
      hidden ← positive_int text_config "hidden_size" none
      attention_heads ← positive_int text_config "num_attention_heads" none
      if hidden % attention_heads == 0 then ok (hidden / attention_heads) else raise value_error
  ]

  -- the tokens that one layer caches
  unfoldable pub layer_tokens : ℕ → Option (Value F) → Option ℤ → ℕ
  layer_tokens max_context none window = max_context
  layer_tokens max_context (some layer_type) window =
      if is_text layer_type "linear_attention"
      then 0
      else if is_text layer_type "sliding_attention"
      then elim window [ none ↦ max_context | some w ↦ min max_context (pos_part w) ]
      else max_context

  -- The loop over the layers. The list holds the types of the layers to come; a layer past its end
  -- has none.
  unfoldable pub total_tokens : ℕ → Items F → ℕ → Option ℤ → ℕ
  unfolding layer_tokens
  total_tokens zero layer_types max_context window = 0
  total_tokens (suc n) nil max_context window =
      layer_tokens max_context none window + total_tokens n nil max_context window
  total_tokens (suc n) (cons layer_type rest) max_context window =
      layer_tokens max_context (some layer_type) window + total_tokens n rest max_context window

  -- `isinstance(layer_types, list)` and `isinstance(sliding_window, int)`
  unfoldable pub list_or_nil : Option (Value F) → Items F
  list_or_nil none = nil
  list_or_nil (some v) = or_default (as_list v) nil

  unfoldable pub int_if_given : Option (Value F) → Option ℤ
  int_if_given none = none
  int_if_given (some v) = as_int v

  -- `model_config.get("text_config", model_config)`
  unfoldable pub text_config_of : Fields F → Result (Fields F)
  unfolding member
  text_config_of model_config = elim (member "text_config" model_config) [
    | none ↦ ok model_config
    | some (obj fields) ↦ ok fields
    | some _ ↦ raise value_error
  ]

  unfoldable pub estimate_bf16_kv_bytes : Fields F → ℕ → Result ℕ
  unfolding text_config_of positive_int head_dimension total_tokens list_or_nil int_if_given
  estimate_bf16_kv_bytes model_config max_context_tokens = do
    text_config ← text_config_of model_config
    layers ← positive_int text_config "num_hidden_layers" none
    heads ← positive_int text_config "num_key_value_heads" (some "num_attention_heads")
    head_dim ← head_dimension text_config
    let tokens =
        total_tokens layers (list_or_nil (member "layer_types" text_config)) max_context_tokens
          (int_if_given (member "sliding_window" text_config))
    ok (tokens * heads * head_dim * 2 * 2)

  unfoldable pub resolve_kv_cache :
      Option KvCacheConfig
      → Fields F
      → ℕ
      → Option MemoryBudgetConfig
      → MemorySnapshot
      → Result KvCacheDecision
  unfolding estimate_bf16_kv_bytes allowance decision
  resolve_kv_cache config model_config shell_bytes memory_config snapshot = do
    let requested = or_default config default_config
    let budget = or_default memory_config default_budget
    bf16_bytes ← estimate_bf16_kv_bytes model_config requested.max_context_tokens
    let allowed = allowance budget snapshot shell_bytes
    ok (decision requested budget allowed bf16_bytes)

-- `memory_config_with_kv_reserve`
unfoldable pub with_kv_reserve : Option MemoryBudgetConfig → KvCacheDecision → MemoryBudgetConfig
with_kv_reserve config decision = record (or_default config default_budget) {
  kv_reserve_bytes = decision.reserve_bytes;
}

-- `KvCacheDecision.generation_kwargs`: the bits and the group size, or nothing
unfoldable pub generation_kwargs : KvCacheDecision → Option (ℕ × ℕ)
generation_kwargs d = elim d.kv_bits [ none ↦ none | some bits ↦ some (bits, d.group_size) ]
