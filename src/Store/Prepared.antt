-- ===== src/Store/Prepared.antt =====
-- Every bundle of a manifest that `validate` accepts can be read.
use Prim.Native.String.{String}
use text.Mathlib.Text.{◌==◌ as str_eq}
use text.Mathlib.TextEquality.{eq_iff}
use mathlib.Core.Path.{subst}
use mathlib.Core.List.{Mem, Nodup, Pairwise-cons, forall_mem-cons, not-mem-nil}
use mathlib.Core.HLevel.{¬_prop}
use mathlib.Core.List.Pairwise
use serve_mlx.Base.{
  ℕ, suc, ◌+◌, ◌≤◌, ◌<◌, ◌≡◌, ◌≢◌, refl, sym, ap, ◌∙◌, Option, some, Bool, true, false, List, [],
  ◌∷◌, map, arith, Bool-cases, inl, inr, All, le→leb, length, sum_by, eq_refl, Passes,
}
use serve_mlx.Base.Int.{ℤ, pos, negsuc, pos_part, neg_part, eqb_ℤ, ◌≤ℤ◌, ◌+ℤ◌, +ℤ_parts}
use serve_mlx.Dict.{lookup}
use serve_mlx.Policy.{ExpertKey, ExpertKey-discrete}
use serve_mlx.Manifest.{TensorSpan, ExpertBundleSpec, ModelManifest, is_in, unique, sum_ℤ, validate}
use serve_mlx.Manifest.Valid.{IsSpan, IsBundle, validate-Passes}
use serve_mlx.Store.{Bytes, Range, System, ExpertStore, is_checked, read_bundle}
use serve_mlx.Store.Disk.{IsDisk, IsOpen}
use serve_mlx.Store.Groups.{place}
use serve_mlx.Store.Bundle.{is_there}
use serve_mlx.Store.Exact.{IsReadable, ReadsBundle, read_bundle-ReadsBundle}

absent : (x : String) (l : List String) → is_in x l ≡ false → (y : String) → Mem y l → x ≢ y
unfolding is_in
absent x [] h = λ y m. absurd (not-mem-nil m)
absent x (z ∷ l) h = elim (Bool-cases (str_eq z x)) [
  | inl e ↦ absurd (let a = (rw e at h) in cc)
  | inr e ↦
      (forall_mem-cons (λ y. ¬_prop)).1
        ((λ same. let b = (eq_iff z x).1 (sym same) in cc), absent x l (rw e at h))
]

length-unique : (l : List String) → length (unique l) ≤ length l
unfolding unique
length-unique [] = omega arith
length-unique (x ∷ l) = elim (Bool-cases (is_in x l)) [
  | inl e ↦ rw (unique, e) (omega (arith, length-unique l))
  | inr e ↦ rw (unique, e) (omega (arith, length-unique l))
]

unique-Nodup : (l : List String) → length (unique l) ≡ length l → Nodup l
unfolding unique
unique-Nodup [] h = Pairwise.nil
unique-Nodup (x ∷ l) h = elim (Bool-cases (is_in x l)) [
  | inl e ↦ absurd (omega (arith, length-unique l, rw (unique, e) at h))
  | inr e ↦ Pairwise-cons.1 (absent x l e, unique-Nodup l (omega (arith, rw (unique, e) at h)))
]

neg_part-zero : (a : ℤ) → pos 0 ≤ℤ a → neg_part a ≡ 0
neg_part-zero (pos n) h = refl
neg_part-zero (negsuc n) h = absurd (omega (arith, h))

pos-add : (a : ℤ) (n : ℕ) → pos 1 ≤ℤ a → pos (pos_part a + n) ≡ a +ℤ pos n
unfolding ◌+ℤ◌
pos-add a n h = ground arith

span_check :
    {P : Type 0} (file_size : P → Option ℕ) (check_files : Bool) (t : TensorSpan P)
    → IsSpan file_size check_files t
    → is_checked t ≡ true
span_check file_size check_files t h = ground (arith, h.0.0.0, h.0.0.1)

sum_nbytes :
    {P D : Type 0} (system : System P D) (path_discrete : Discrete P) (file_size : P → Option ℕ)
    (ts : List (TensorSpan P))
    → All (IsSpan file_size true) ts
    → pos (sum_by (λ x. x.1.nbytes) (map (place system path_discrete) ts))
      ≡ sum_ℤ (map (λ t. t.nbytes) ts)
unfolding sum_ℤ
sum_nbytes system path_discrete file_size [] h = refl
sum_nbytes system path_discrete file_size (t ∷ ts) h =
    let rest = sum_nbytes system path_discrete file_size ts h.1 in
    pos-add t.nbytes _ h.0.0.0.1 ∙ ap (λ n. t.nbytes +ℤ n) rest

length-map : {P : Type 0} (ts : List (TensorSpan P)) → length (map (λ t. t.role) ts) ≡ length ts
length-map [] = refl
length-map (t ∷ ts) = ap suc (length-map ts)

checks :
    {P : Type 0} (file_size : P → Option ℕ) (check_files : Bool) (ts : List (TensorSpan P))
    → All (IsSpan file_size check_files) ts
    → All (λ t. is_checked t ≡ true) ts
checks file_size check_files [] h = tt
checks file_size check_files (t ∷ ts) h =
    (span_check file_size check_files t h.0, checks file_size check_files ts h.1)

module _ {P D : Type 0} (system : System P D) (path_discrete : Discrete P)
    (content : P → Option Bytes) (file_size : P → Option ℕ)
    (sized : (p : P) (n : ℕ)
      → file_size p ≡ some n
      → (l : Bytes) × (content (system.resolve p) ≡ some l) × (length l ≡ n)) where
  span_there :
      (t : TensorSpan P)
      → IsSpan file_size true t
      → is_there content (place system path_discrete t) ≡ true
  span_there t h =
      let (n, e, fits) = h.1 refl in
      let (l, there, size) = sized t.file n e in
      rw (is_there, there)
        (le→leb (pos_part t.offset + pos_part t.nbytes) (length l) (
          omega (
            arith,
            fits,
            +ℤ_parts t.offset t.nbytes,
            neg_part-zero t.offset h.0.0.0,
            neg_part-zero t.nbytes (omega (arith, h.0.0.1)),
            size,
          )))

  spans_there :
      (ts : List (TensorSpan P))
      → All (IsSpan file_size true) ts
      → (x : P × Range) → Mem x (map (place system path_discrete) ts)
      → is_there content x ≡ true
  spans_there [] h = λ x m. absurd (not-mem-nil m)
  spans_there (t ∷ ts) h = (forall_mem-cons (λ x. hlevel)).1 (span_there t h.0, spans_there ts h.1)

  pub IsBundle-IsReadable :
      {F : Type 0} (disk : IsDisk system content) (key : ExpertKey) (b : ExpertBundleSpec P F)
      → IsBundle file_size true key b
      → IsReadable system path_discrete content disk b
  IsBundle-IsReadable disk key b (_, (total, ((distinct, some_span), spans))) = record {
    roles = unique-Nodup (map (λ t. t.role) b.tensors) (distinct ∙ sym (length-map b.tensors));
    checked = checks file_size true b.tensors spans;
    there = spans_there b.tensors spans;
    bytes =
        let same = sum_nbytes system path_discrete file_size b.tensors spans ∙ sym total in
        subst
          (λ z.
            eqb_ℤ (pos (sum_by (λ x. x.1.nbytes) (map (place system path_discrete) b.tensors))) z
            ≡ true)
          same (eq_refl _);
  }

  -- Where `validate` accepted a manifest against the files as they are, the bundle of each layer and
  -- expert is there, and reading it from a store returns just the bytes of its tensors.
  pub validate-ReadsBundle :
      {F : Type 0} (disk : IsDisk system content) (m : ModelManifest P F) (layer expert : ℕ)
      (s : ExpertStore P D)
      → Passes (validate file_size true m)
      → layer < pos_part m.num_layers
      → expert < pos_part m.num_experts
      → IsOpen system path_discrete content disk s
      → (b : ExpertBundleSpec P F) × (lookup ExpertKey-discrete
            (record { layer = layer; expert = expert })
            m.expert_bundles
          ≡ some b)
        × ReadsBundle system path_discrete content disk b s
            (read_bundle system path_discrete b s).0
            (read_bundle system path_discrete b s).1
  validate-ReadsBundle disk m layer expert s passed l e v =
      let valid = (validate-Passes file_size true m).0 passed in
      let (b, found, good) = valid.1.1.1.1 layer l expert e in
      (
        b,
        found,
        read_bundle-ReadsBundle system path_discrete content disk b s
            (IsBundle-IsReadable disk (record { layer = layer; expert = expert }) b good) v,
      )
