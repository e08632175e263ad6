-- ===== src/Manifest.antt =====
-- src/mlx_moe_stream/manifest.py: the manifest of a prepared model, which says where the bytes of
-- each expert are. The proofs are in the children.
--
-- A path is of any type `P`. What the file system says of a path is an argument: `file_size`, with
-- `none` for an OSError. The metadata of a quantization is any JSON value in `mode`.
pub mod Valid
pub mod Summary
pub mod Tests
use Prim.Native.String.{String}
use text.Mathlib.Text.{◌==◌ as str_eq}
use serve_mlx.Base.{
  ℕ, zero, suc, ◌+◌, ◌*◌, ◌≡◌, Option, none, some, Bool, true, false, List, [], ◌∷◌, length, map,
  Result, ok, raise, value_error, Check, guard, ◌>>◌, ◌>>=◌, for_each, for_range, ◌==◌, ◌&&◌, ◌||◌,
  not, if◌then◌else◌, min, max, decided,
}
use serve_mlx.Base.Int.{ℤ, pos, negsuc, ◌+ℤ◌, pos_part, leb_ℤ, eqb_ℤ}
use serve_mlx.Dict.{lookup}
use serve_mlx.Json.{Value}
use serve_mlx.Policy.{ExpertKey, ExpertKey-discrete}

pub record QuantizationSpec (F : Type 0) : Type 0 where
  pub bits : Option ℤ
  pub group_size : Option ℤ
  pub mode : Value F

pub record TensorSpan (P : Type 0) : Type 0 where
  pub file : P
  pub tensor_name : String
  pub offset : ℤ
  pub nbytes : ℤ
  pub shape : List ℤ
  pub dtype : String
  pub role : String

pub record ExpertBundleSpec (P F : Type 0) : Type 0 where
  pub key : ExpertKey
  pub tensors : List (TensorSpan P)
  pub total_bytes : ℤ
  pub quantization : QuantizationSpec F

pub record ModelManifest (P F : Type 0) : Type 0 where
  pub format_version : ℤ
  pub model_type : String
  pub source_model : String
  pub source_model_path : P
  pub num_layers : ℤ
  pub num_experts : ℤ
  pub experts_per_token : ℤ
  pub quantization : QuantizationSpec F
  pub non_expert_weight_files : List P
  pub expert_bundles : List (ExpertKey × ExpertBundleSpec P F)

-- `SUPPORTED_MODEL_TYPES`
unfoldable pub is_supported : String → Bool
is_supported t = str_eq t "qwen3_moe" || str_eq t "qwen3_5_moe" || str_eq t "gemma4"

unfoldable pub is_in : String → List String → Bool
is_in x [] = false
is_in x (y ∷ ys) = str_eq y x || is_in x ys

-- the elements of a set made from a list
unfoldable pub unique : List String → List String
unfolding is_in
unique [] = []
unique (x ∷ xs) = let rest = unique xs in if is_in x xs then rest else x ∷ rest

abbrev pub is_empty {ℓ} : {A : Type ℓ} → List A → Bool
is_empty [] = true
is_empty (x ∷ xs) = false

unfoldable pub sum_ℤ : List ℤ → ℤ
sum_ℤ [] = pos 0
sum_ℤ (x ∷ xs) = x +ℤ sum_ℤ xs

module _ {P : Type 0} (file_size : P → Option ℕ) (check_files : Bool) where
  -- the part of the loop body under `if check_files`
  unfoldable pub check_within : TensorSpan P → Check
  unfolding ◌+ℤ◌
  check_within t =
      if check_files
      then elim (file_size t.file) [
        | none ↦ raise value_error
        | some size ↦ guard (leb_ℤ (t.offset +ℤ t.nbytes) (pos size)) value_error
      ]
      else ok tt

  -- the loop body over the tensors of a bundle
  unfoldable pub check_tensor : TensorSpan P → Check
  unfolding check_within
  check_tensor t =
      guard (leb_ℤ (pos 0) t.offset && leb_ℤ (pos 1) t.nbytes && not (is_empty t.shape)) value_error
      >> check_within t

module _ {P F : Type 0} (file_size : P → Option ℕ) (check_files : Bool) where
  unfoldable pub check_bundle : ExpertKey → ExpertBundleSpec P F → Check
  unfolding check_tensor sum_ℤ unique for_each ExpertKey-discrete
  check_bundle key b =
      guard (decided (ExpertKey-discrete b.key key)) value_error
      >> guard (eqb_ℤ b.total_bytes (sum_ℤ (map (λ t. t.nbytes) b.tensors))) value_error
      >> guard
          (length (unique (map (λ t. t.role) b.tensors)) == length b.tensors
            && not (is_empty b.tensors))
          value_error
      >> for_each (check_tensor file_size check_files) b.tensors

  -- the loop body over the keys
  unfoldable pub check_key : List (ExpertKey × ExpertBundleSpec P F) → ℕ → ℕ → Check
  unfolding check_bundle lookup
  check_key bundles layer expert =
      let key : ExpertKey = record { layer = layer; expert = expert } in
      elim (lookup ExpertKey-discrete key bundles) [
        | none ↦ raise value_error
        | some b ↦ check_bundle key b
      ]

  unfoldable pub validate : ModelManifest P F → Check
  unfolding is_supported check_key for_range
  validate m =
      guard (eqb_ℤ m.format_version (pos 1)) value_error
      >> guard (is_supported m.model_type) value_error
      >> guard
          (leb_ℤ (pos 1) m.num_layers
            && leb_ℤ (pos 1) m.num_experts
            && leb_ℤ (pos 1) m.experts_per_token)
          value_error
      >> guard (length m.expert_bundles == pos_part m.num_layers * pos_part m.num_experts)
          value_error
      >> for_range (pos_part m.num_layers) 0 (λ layer.
        for_range (pos_part m.num_experts) 0 (λ expert. check_key m.expert_bundles layer expert))

-- `ExpertWorkingSet`, with floats of any type `G`
pub record ExpertWorkingSet (G : Type 0) : Type 0 where
  pub total_bytes : ℤ
  pub bundle_count : ℕ
  pub mean_bundle_bytes : G
  pub min_bundle_bytes : ℤ
  pub max_bundle_bytes : ℤ
  pub per_token_full_miss_bytes : G

-- `min` and `max` of a list that is not empty
unfoldable pub least : ℤ → List ℤ → ℤ
least x [] = x
least x (y ∷ ys) = let l = least y ys in if leb_ℤ x l then x else l

unfoldable pub greatest : ℤ → List ℤ → ℤ
greatest x [] = x
greatest x (y ∷ ys) = let g = greatest y ys in if leb_ℤ g x then x else g

module _ {P F G : Type 0} (divide : ℤ → ℕ → G) (per_token : ℤ → ℤ → G → G) where
  unfoldable pub summarize : ModelManifest P F → List ℤ → Result (ExpertWorkingSet G)
  unfolding sum_ℤ least greatest
  summarize m [] = raise value_error
  summarize m (x ∷ xs) =
      let mean = divide (sum_ℤ (x ∷ xs)) (length (x ∷ xs)) in
      ok (record {
        total_bytes = sum_ℤ (x ∷ xs);
        bundle_count = length (x ∷ xs);
        mean_bundle_bytes = mean;
        min_bundle_bytes = least x xs;
        max_bundle_bytes = greatest x xs;
        per_token_full_miss_bytes = per_token m.num_layers m.experts_per_token mean;
      })

  -- `expert_working_set`. The float division and the product with a float are arguments.
  unfoldable pub expert_working_set : ModelManifest P F → Result (ExpertWorkingSet G)
  unfolding summarize
  expert_working_set m = summarize m (map (λ e. e.1.total_bytes) m.expert_bundles)
