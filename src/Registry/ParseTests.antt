-- ===== src/Registry/ParseTests.antt =====
-- A model "m" with the manifest "p=1".
use Prim.Native.String.{String}
use serve_mlx.Base.{◌≡◌, refl, ok}
use serve_mlx.Registry.{ModelRegistration}
use serve_mlx.Registry.Parse.{parse, written, parse-written}

abbrev registration : ModelRegistration String
registration = record { model_id = "m"; manifest_path = "p=1" }

parsed : parse (λ s. s) (λ s. s) (λ p. p) "m=p=1" ≡ ok registration
unfolding parse
parsed = refl

parse-written_example : parse (λ s. s) (λ s. s) (λ p. p) (written "m" "p=1") ≡ ok registration
parse-written_example = parse-written (λ s. s) (λ s. s) (λ p. p) "m" "p=1" refl refl refl refl refl
