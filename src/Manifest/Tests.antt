-- ===== src/Manifest/Tests.antt =====
-- A manifest of one layer with one expert, whose two tensors lie in one file of eight bytes.
use serve_mlx.Base.{ℕ, zero, ◌≡◌, ◌↔◌, refl, Option, some, none, true, [], ◌∷◌, map, Passes, ok}
use serve_mlx.Base.Int.{ℤ, pos, ◌+ℤ◌}
use serve_mlx.Json.{null}
use serve_mlx.Policy.{ExpertKey, ExpertKey-discrete}
use serve_mlx.Manifest.{
  QuantizationSpec, TensorSpan, ExpertBundleSpec, ModelManifest, ExpertWorkingSet, validate,
  expert_working_set,
}
use serve_mlx.Manifest.Valid.{IsValid, validate-Passes}
use serve_mlx.Manifest.Summary.{Summarized, expert_working_set-Summarized}

abbrev quantization : QuantizationSpec ℕ
quantization = record { bits = some (pos 4); group_size = none; mode = null }

abbrev gate : TensorSpan ℕ
gate = record {
  file = 0;
  tensor_name = "gate";
  offset = pos 5;
  nbytes = pos 2;
  shape = pos 2 ∷ [];
  dtype = "U8";
  role = "gate_weight";
}

abbrev up : TensorSpan ℕ
up = record (gate) { tensor_name = "up"; offset = pos 2; nbytes = pos 3; role = "up_weight" }

abbrev pub key : ExpertKey
key = record { layer = 0; expert = 0 }

abbrev pub bundle : ExpertBundleSpec ℕ ℕ
bundle = record {
  key = key;
  tensors = gate ∷ up ∷ [];
  total_bytes = pos 5;
  quantization = quantization;
}

abbrev pub manifest : ModelManifest ℕ ℕ
manifest = record {
  format_version = pos 1;
  model_type = "gemma4";
  source_model = "m";
  source_model_path = 1;
  num_layers = pos 1;
  num_experts = pos 1;
  experts_per_token = pos 1;
  quantization = quantization;
  non_expert_weight_files = [];
  expert_bundles = (key, bundle) ∷ [];
}

abbrev pub file_size : ℕ → Option ℕ
file_size zero = some 8
file_size _ = none

pub accepted : Passes (validate file_size true manifest)
unfolding validate ExpertKey-discrete ◌+ℤ◌
accepted = refl

validate-Passes_example :
    Passes (validate file_size true manifest) ↔ IsValid file_size true manifest
validate-Passes_example = validate-Passes file_size true manifest

abbrev summary : ExpertWorkingSet ℤ
summary = record {
  total_bytes = pos 5;
  bundle_count = 1;
  mean_bundle_bytes = pos 5;
  min_bundle_bytes = pos 5;
  max_bundle_bytes = pos 5;
  per_token_full_miss_bytes = pos 5;
}

summarized : expert_working_set (λ n k. n) (λ a b m. m) manifest ≡ ok summary
unfolding expert_working_set ◌+ℤ◌
summarized = refl

expert_working_set-Summarized_example :
    Summarized (map (λ e. e.1.total_bytes) manifest.expert_bundles) summary
expert_working_set-Summarized_example =
    expert_working_set-Summarized (λ n k. n) (λ a b m. m) manifest summary summarized
