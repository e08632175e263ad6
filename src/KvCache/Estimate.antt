-- ===== src/KvCache/Estimate.antt =====
-- Bounds of the KV-cache estimates.
use native.Mathlib.Nat.{mul-div-le}
use serve_mlx.Base.{
  ok-injective, ℕ, zero, suc, ◌+◌, ◌-◌, ◌*◌, ◌/◌, ◌≤◌, ◌≡◌, sym, Option, none, some, ok, arith,
  Result-cases, inl, inr,
}
use serve_mlx.Base.Int.{ℤ}
use serve_mlx.Json.{Value, Items, Fields, nil, cons, member}
use serve_mlx.KvCache.{
  quantized_estimate, layer_tokens, total_tokens, estimate, eight_bit, four_bit,
  estimate_bf16_kv_bytes, text_config_of, positive_int, head_dimension, list_or_nil, int_if_given,
}

-- the groups of at least two elements that `e` elements fill, one of them partly
groups_lem : (e g q : ℕ) → 2 ≤ g → g * q ≤ e + g - 1 → q * 2 ≤ e + 1
groups_lem e g zero two h = omega arith
groups_lem e (suc (suc j)) (suc k) two h = omega (arith, h)
groups_lem e zero (suc k) two h = omega (arith, two)
groups_lem e (suc zero) (suc k) two h = omega (arith, two)

scales_lem : (e g : ℕ) → 2 ≤ g → (e + g - 1) / g * 2 ≤ e + 1
scales_lem e g h = groups_lem e g ((e + g - 1) / g) h (mul-div-le (e + g - 1) g)

-- The estimates of keys and values of `2 * n` elements: each step of the precision down is no larger.
pub estimate_anti :
    (n group_size : ℕ)
    → 2 ≤ group_size
    → (estimate (n * 4) group_size four_bit ≤ estimate (n * 4) group_size eight_bit)
      × (estimate (n * 4) group_size eight_bit ≤ n * 4)
unfolding estimate quantized_estimate
estimate_anti n g h = let s = scales_lem (n * 4 / 2) g h in (omega (arith, s), omega (arith, s))

times_four : (n : ℕ) → n * 2 * 2 ≡ n * 4
times_four n = omega arith

layer_tokens_lem :
    {F : Type 0} (max_context : ℕ) (t : Option (Value F)) (window : Option ℤ)
    → layer_tokens max_context t window ≤ max_context
unfolding layer_tokens
layer_tokens_lem max_context none window = omega arith
layer_tokens_lem max_context (some t) window = ground arith

-- no layer caches more than the context
pub total_tokens_lem :
    {F : Type 0} (layers : ℕ) (layer_types : Items F) (max_context : ℕ) (window : Option ℤ)
    → total_tokens layers layer_types max_context window ≤ layers * max_context
unfolding total_tokens
total_tokens_lem zero types c w = omega arith
total_tokens_lem {F} (suc n) nil c w =
    omega (arith, layer_tokens_lem {F = F} c none w, total_tokens_lem {F = F} n nil c w)
total_tokens_lem (suc n) (cons t ts) c w =
    omega (arith, layer_tokens_lem c (some t) w, total_tokens_lem n ts c w)

-- What an estimate for a context of `c` tokens says of the configuration.
pub record Counted {F : Type 0} (text_config : Fields F) (c bytes : ℕ) : Type 0 where
  pub layers : ℕ
  pub heads : ℕ
  pub head_dim : ℕ
  pub tokens : ℕ
  pub layers_given : positive_int text_config "num_hidden_layers" none ≡ ok layers
  pub heads_given :
      positive_int text_config "num_key_value_heads" (some "num_attention_heads") ≡ ok heads
  pub head_dim_given : head_dimension text_config ≡ ok head_dim
  pub bounded : tokens ≤ layers * c
  pub counted : bytes ≡ tokens * heads * head_dim * 2 * 2

pub estimate_bf16_kv_bytes-Counted :
    {F : Type 0} (model_config text_config : Fields F) (c bytes : ℕ)
    → text_config_of model_config ≡ ok text_config
    → estimate_bf16_kv_bytes model_config c ≡ ok bytes
    → Counted text_config c bytes
unfolding estimate_bf16_kv_bytes
estimate_bf16_kv_bytes-Counted model_config text_config c bytes t h =
    elim (Result-cases (positive_int text_config "num_hidden_layers" none)) [
      | inr (x, p) ↦ absurd (let y = (rw (estimate_bf16_kv_bytes, t, p) at h) in cc)
      | inl (layers, p) ↦
          elim (Result-cases
            (positive_int text_config "num_key_value_heads" (some "num_attention_heads"))) [
              | inr (x, q) ↦ absurd (let y = (rw (estimate_bf16_kv_bytes, t, p, q) at h) in cc)
              | inl (heads, q) ↦ elim (Result-cases (head_dimension text_config)) [
                | inr (x, r) ↦ absurd (let y = (rw (estimate_bf16_kv_bytes, t, p, q, r) at h) in cc)
                | inl (head_dim, r) ↦ record {
                  layers = layers;
                  heads = heads;
                  head_dim = head_dim;
                  tokens =
                      total_tokens layers (list_or_nil (member "layer_types" text_config)) c
                        (int_if_given (member "sliding_window" text_config));
                  layers_given = p;
                  heads_given = q;
                  head_dim_given = r;
                  bounded =
                      total_tokens_lem layers (list_or_nil (member "layer_types" text_config)) c
                        (int_if_given (member "sliding_window" text_config));
                  counted = sym (ok-injective (rw (estimate_bf16_kv_bytes, t, p, q, r) at h));
                }
              ]
            ]
    ]

-- The estimates of a configuration for groups of at least two elements: each step of the precision
-- down is no larger.
pub estimate-estimate_bf16_anti :
    {F : Type 0} (model_config text_config : Fields F) (c bytes group_size : ℕ)
    → text_config_of model_config ≡ ok text_config
    → estimate_bf16_kv_bytes model_config c ≡ ok bytes
    → 2 ≤ group_size
    → (estimate bytes group_size four_bit ≤ estimate bytes group_size eight_bit)
      × (estimate bytes group_size eight_bit ≤ bytes)
estimate-estimate_bf16_anti model_config text_config c bytes g t h two =
    let k = estimate_bf16_kv_bytes-Counted model_config text_config c bytes t h in
    rw (k.counted, times_four (k.tokens * k.heads * k.head_dim))
      (estimate_anti (k.tokens * k.heads * k.head_dim) g two)
