-- ===== src/Manifest/Valid.antt =====
-- What `validate` checks.
use serve_mlx.Base.{
  decided_iff, ℕ, ◌*◌, ◌<◌, ◌≡◌, ◌↔◌, refl, Option, some, Bool, true, false, List, length, map,
  value_error, Passes, All, for_range, both, guarded, and_both, Bool-cases, for_each-Passes,
  for_range-Passes, ==_iff, not, arith, Option-cases, inl, inr,
}
use serve_mlx.Base.Int.{ℤ, pos, ◌+ℤ◌, pos_part, leb_ℤ, eqb_ℤ, ◌≤ℤ◌, eq_of_parts}
use serve_mlx.Dict.{lookup}
use serve_mlx.Policy.{ExpertKey, ExpertKey-discrete}
use serve_mlx.Manifest.{
  TensorSpan, ExpertBundleSpec, ModelManifest, is_supported, unique, is_empty, sum_ℤ, check_tensor,
  check_bundle, check_key, validate, check_within,
}

pub leb_ℤ_iff : (a b : ℤ) → (leb_ℤ a b ≡ true) ↔ (a ≤ℤ b)
leb_ℤ_iff a b = ground arith

eqb_ℤ_iff : (a b : ℤ) → (eqb_ℤ a b ≡ true) ↔ (a ≡ b)
eqb_ℤ_iff a b = ((λ h. eq_of_parts a b ((==_iff _ _).0 h)), (λ e. rw e ((==_iff _ _).1 refl)))

holds_iff : (b : Bool) → (b ≡ true) ↔ (b ≡ true)
holds_iff b = ((λ h. h), (λ h. h))

pub not_iff : (b : Bool) → (not b ≡ true) ↔ (b ≡ false)
not_iff b = ground arith

module _ {P : Type 0} (file_size : P → Option ℕ) (check_files : Bool) where
  -- where files are checked, the file is there and the span ends within it
  abbrev pub IsWithin : TensorSpan P → Type 0
  IsWithin t =
      check_files ≡ true → (n : ℕ) × (file_size t.file ≡ some n) × ((t.offset +ℤ t.nbytes) ≤ℤ pos n)

  -- a span has bytes, a shape and a place in its file
  abbrev pub IsSpan : TensorSpan P → Type 0
  IsSpan t = (((pos 0 ≤ℤ t.offset) × (pos 1 ≤ℤ t.nbytes)) × (is_empty t.shape ≡ false)) × IsWithin t

  same_size :
      (t : TensorSpan P) (n : ℕ)
      → (m : ℕ) × (some n ≡ some m) × ((t.offset +ℤ t.nbytes) ≤ℤ pos m)
      → (t.offset +ℤ t.nbytes) ≤ℤ pos n
  same_size t n (m, e, h) = let f : n ≡ m = cc in rw f h

  check_within-Passes :
      (t : TensorSpan P) → Passes (check_within file_size check_files t) ↔ IsWithin t
  unfolding check_within
  check_within-Passes t = elim (Bool-cases check_files) [
    | inr h ↦ rw (check_within, h) ((λ p f. absurd (let x = f in cc)), (λ w. refl))
    | inl h ↦ elim (Option-cases (file_size t.file)) [
      | inl e ↦
          rw (check_within, h, e)
            ((λ p. absurd (let x = p in cc)), (λ w. absurd (let x = (w refl).1 in cc)))
      | inr (n, e) ↦
          let g = guarded value_error (leb_ℤ_iff (t.offset +ℤ t.nbytes) (pos n)) in
          rw (check_within, h, e) ((λ p f. (n, refl, g.0 p)), (λ w. g.1 (same_size t n (w refl))))
    ]
  ]

  check_tensor-Passes :
      (t : TensorSpan P) → Passes (check_tensor file_size check_files t) ↔ IsSpan t
  unfolding check_tensor
  check_tensor-Passes t =
      both
        (guarded value_error (
          and_both (and_both (leb_ℤ_iff (pos 0) t.offset) (leb_ℤ_iff (pos 1) t.nbytes))
            (not_iff (is_empty t.shape))))
        (check_within-Passes t)

module _ {P F : Type 0} (file_size : P → Option ℕ) (check_files : Bool) where
  -- A bundle stands under its key, its bytes are the sum over its spans, and it has a span, none of
  -- whose roles is there twice.
  abbrev pub IsBundle : ExpertKey → ExpertBundleSpec P F → Type 0
  IsBundle key b =
      (b.key ≡ key)
      × ((b.total_bytes ≡ sum_ℤ (map (λ t. t.nbytes) b.tensors))
          × (((length (unique (map (λ t. t.role) b.tensors)) ≡ length b.tensors)
                × (is_empty b.tensors ≡ false))
              × All (IsSpan file_size check_files) b.tensors))

  check_bundle-Passes :
      (key : ExpertKey) (b : ExpertBundleSpec P F)
      → Passes (check_bundle file_size check_files key b) ↔ IsBundle key b
  unfolding check_bundle
  check_bundle-Passes key b =
      both (guarded value_error (decided_iff (ExpertKey-discrete b.key key))) (
        both (guarded value_error (eqb_ℤ_iff b.total_bytes (sum_ℤ (map (λ t. t.nbytes) b.tensors))))
          (both
            (guarded value_error (
              and_both (==_iff (length (unique (map (λ t. t.role) b.tensors))) (length b.tensors))
                (not_iff (is_empty b.tensors))))
            (for_each-Passes (check_tensor file_size check_files)
              (check_tensor-Passes file_size check_files) b.tensors)))

  abbrev pub HasBundle : List (ExpertKey × ExpertBundleSpec P F) → ExpertKey → Type 0
  HasBundle bundles key =
      (b : ExpertBundleSpec P F) × (lookup ExpertKey-discrete key bundles ≡ some b) × IsBundle key b

  same-IsBundle :
      (key : ExpertKey) (b : ExpertBundleSpec P F)
      → (c : ExpertBundleSpec P F) × (some b ≡ some c) × IsBundle key c
      → IsBundle key b
  same-IsBundle key b (c, e, h) = let f : b ≡ c = cc in rw f h

  check_key-Passes :
      (bundles : List (ExpertKey × ExpertBundleSpec P F)) (layer expert : ℕ)
      → Passes (check_key file_size check_files bundles layer expert)
        ↔ HasBundle bundles (record { layer = layer; expert = expert })
  unfolding check_key
  check_key-Passes bundles layer expert =
      let key : ExpertKey = record { layer = layer; expert = expert } in
      elim (Option-cases (lookup ExpertKey-discrete key bundles)) [
        | inl e ↦
            rw (check_key, e) ((λ p. absurd (let x = p in cc)), (λ h. absurd (let x = h.1 in cc)))
        | inr (b, e) ↦
            let c = check_bundle-Passes key b in
            rw (check_key, e) ((λ p. (b, refl, c.0 p)), (λ h. c.1 (same-IsBundle key b h)))
      ]

  grid_Passes :
      (bundles : List (ExpertKey × ExpertBundleSpec P F)) (layers experts : ℕ)
      → Passes (
          for_range layers 0 (λ layer.
            for_range experts 0 (λ expert. check_key file_size check_files bundles layer expert)))
        ↔ ((layer : ℕ)
            → layer < layers
            → (expert : ℕ) → expert < experts
            → HasBundle bundles (record { layer = layer; expert = expert }))
  grid_Passes bundles layers experts =
      for_range-Passes
        (λ layer.
          for_range experts 0 (λ expert. check_key file_size check_files bundles layer expert))
        (λ layer.
          for_range-Passes (check_key file_size check_files bundles layer)
            (check_key-Passes bundles layer) experts)
        layers

  -- What `validate` accepts: the version, a model type, positive counts, as many bundles as there
  -- are keys, and a bundle for each key.
  abbrev pub IsValid : ModelManifest P F → Type 0
  IsValid m =
      (m.format_version ≡ pos 1)
      × ((is_supported m.model_type ≡ true)
          × ((((pos 1 ≤ℤ m.num_layers) × (pos 1 ≤ℤ m.num_experts)) × (pos 1 ≤ℤ m.experts_per_token))
              × ((length m.expert_bundles ≡ pos_part m.num_layers * pos_part m.num_experts)
                  × ((layer : ℕ)
                      → layer < pos_part m.num_layers
                      → (expert : ℕ) → expert < pos_part m.num_experts
                      → HasBundle m.expert_bundles (record { layer = layer; expert = expert })))))

  -- `validate` returns just on the manifests that are valid: version 1, a supported model type,
  -- positive counts, one bundle for each layer and expert and no others by count, each under its
  -- key, with distinct roles, as many bytes as its spans, and spans that have bytes and a shape and,
  -- where files are checked, lie within their files.
  pub validate-Passes :
      (m : ModelManifest P F) → Passes (validate file_size check_files m) ↔ IsValid m
  unfolding validate
  validate-Passes m = both (guarded value_error (eqb_ℤ_iff m.format_version (pos 1))) (
      both (guarded value_error (holds_iff (is_supported m.model_type))) (
        both
          (guarded value_error (
            and_both (and_both (leb_ℤ_iff (pos 1) m.num_layers) (leb_ℤ_iff (pos 1) m.num_experts))
              (leb_ℤ_iff (pos 1) m.experts_per_token)))
          (both
            (guarded value_error
              (==_iff (length m.expert_bundles) (pos_part m.num_layers * pos_part m.num_experts)))
            (grid_Passes m.expert_bundles (pos_part m.num_layers) (pos_part m.num_experts)))))
