-- ===== src/Store/Tests.antt =====
-- The bundle of the manifest's only expert, read from a file whose contents are its descriptor.
use serve_mlx.Base.{
  String-discrete, ℕ, zero, suc, ◌≡◌, refl, Option, some, none, true, [], ◌∷◌, length, ok,
  ℕ_discrete, arith,
}
use serve_mlx.Base.Int.{◌+ℤ◌}
use serve_mlx.Dict.{lookup, put}
use serve_mlx.Policy.{ExpertKey-discrete}
use serve_mlx.Manifest.{ExpertBundleSpec, sum_ℤ, unique}
use serve_mlx.Manifest.Tests.{manifest, bundle, key, file_size, accepted}
use serve_mlx.Store.{Bytes, System, ExpertStore, slice, read_bundle}
use serve_mlx.Store.Disk.{IsDisk, IsOpen}
use serve_mlx.Store.Exact.{ReadsBundle, IsReadable, read_bundle-ReadsBundle}
use serve_mlx.Store.Prepared.{validate-ReadsBundle, IsBundle-IsReadable}
use serve_mlx.Manifest.Valid.{IsBundle}

abbrev contents : Bytes
contents = 10 ∷ 11 ∷ 12 ∷ 13 ∷ 14 ∷ 15 ∷ 16 ∷ 17 ∷ []

abbrev content : ℕ → Option Bytes
content zero = some contents
content _ = none

abbrev system : System ℕ Bytes
system = record {
  resolve = λ p. p;
  open_file = content;
  size = λ d. some (length d);
  pread = λ d n o. some (slice o n d);
  close_file = λ d. some tt;
}

disk : IsDisk system content
disk = record {
  view = λ d. d;
  opens = λ p l e. (l, e, refl);
  sized = λ d. refl;
  reads = λ d n o. refl;
}

abbrev empty : ExpertStore ℕ Bytes
empty = record { descriptors = []; bytes_read = 0; read_count = 0 }

one_read : (read_bundle system ℕ_discrete bundle empty).1.read_count ≡ 1
unfolding read_bundle ℕ_discrete put String-discrete
one_read = refl

the_bytes :
    (read_bundle system ℕ_discrete bundle empty).0
    ≡ ok (("up_weight", 12 ∷ 13 ∷ 14 ∷ []) ∷ ("gate_weight", 15 ∷ 16 ∷ []) ∷ [])
unfolding read_bundle ℕ_discrete put String-discrete
the_bytes = refl

none-IsOpen : IsOpen system ℕ_discrete content disk empty
unfolding lookup
none-IsOpen p d l h = absurd (let x = h in cc)

sized : (p n : ℕ) → file_size p ≡ some n → (l : Bytes) × (content p ≡ some l) × (length l ≡ n)
sized zero n e = (contents, refl, (let f : 8 ≡ n = cc in f))
sized (suc p) n e = absurd (let x = e in cc)

validate-ReadsBundle_example :
    (b : ExpertBundleSpec ℕ ℕ) × (lookup ExpertKey-discrete key manifest.expert_bundles ≡ some b)
    × ReadsBundle system ℕ_discrete content disk b empty
        (read_bundle system ℕ_discrete b empty).0
        (read_bundle system ℕ_discrete b empty).1
validate-ReadsBundle_example =
    validate-ReadsBundle system ℕ_discrete content file_size sized disk manifest 0 0 empty accepted
      (omega arith) (omega arith) none-IsOpen

described : IsBundle file_size true key bundle
unfolding ◌+ℤ◌ sum_ℤ unique
described = (
  refl,
  (
    refl,
    (
      (refl, refl),
      (
        (((omega arith, omega arith), refl), (λ _. (8, refl, omega arith))),
        ((((omega arith, omega arith), refl), (λ _. (8, refl, omega arith))), tt),
      ),
    ),
  ),
)

readable : IsReadable system ℕ_discrete content disk bundle
readable = IsBundle-IsReadable system ℕ_discrete content file_size sized disk key bundle described

read_bundle-ReadsBundle_example :
    ReadsBundle system ℕ_discrete content disk bundle empty
      (read_bundle system ℕ_discrete bundle empty).0
      (read_bundle system ℕ_discrete bundle empty).1
read_bundle-ReadsBundle_example =
    read_bundle-ReadsBundle system ℕ_discrete content disk bundle empty readable none-IsOpen
