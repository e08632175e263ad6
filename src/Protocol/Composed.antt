-- ===== src/Protocol/Composed.antt =====
-- The stops of an accepted request in the stop buffer.
use Prim.Native.String.{String}
use serve_mlx.Base.{◌≡◌, refl, ap, ◌∙◌, none, Bool, List, [], ◌∷◌, map, ok, All, arith}
use serve_mlx.Base.Int.{ℤ}
use serve_mlx.Json.{Fields}
use serve_mlx.Protocol.Text.{Text, codes, find, starts_with, earliest, earlier}
use serve_mlx.Protocol.Stop.{init, stream}
use serve_mlx.Protocol.Stop.Reference.{collect, stream-collect}
use serve_mlx.Protocol.Options.{Numbers}
use serve_mlx.Protocol.Options.Ranges.{IsStop}
use serve_mlx.Protocol.Options.Request.{
  Endpoint, GenerationOptions, Bounds, parse_generation_options,
}
use serve_mlx.Protocol.Options.Request.Checked.{parse_generation_options-IsWithin}

find-codes : (s : String) → IsStop s → find (codes s) [] ≡ none
unfolding find starts_with
find-codes String.[] h = absurd (omega (arith, h.0))
find-codes (String.◌∷◌ c s) h = refl

earliest-codes : (stops : List String) → All IsStop stops → earliest (map codes stops) [] ≡ none
unfolding earliest
earliest-codes [] h = refl
earliest-codes (s ∷ stops) h =
    ap (λ i. earlier i (earliest (map codes stops) [])) (find-codes s h.0)
    ∙ earliest-codes stops h.1

-- With the stops of a request that was accepted, the stop buffer emits from any deltas what it would
-- if it withheld the whole text until a stop is in it.
pub parse_generation_options-stream :
    {F : Type 0} (numbers : Numbers F) (bounds : Bounds F) (valid_schema : Fields F → Bool)
    (model_exists : String → Bool) (endpoint : Endpoint) (payload : Fields F)
    (default_model_id : String) (limit : ℤ) (o : GenerationOptions F) (deltas : List Text)
    → parse_generation_options numbers bounds valid_schema model_exists endpoint payload
        default_model_id limit
      ≡ ok o
    → stream (map codes o.stop) deltas init ≡ collect (map codes o.stop) [] deltas
parse_generation_options-stream numbers bounds valid_schema model_exists endpoint payload
      default_model_id limit o deltas h =
    let w =
      parse_generation_options-IsWithin numbers bounds valid_schema model_exists endpoint payload
        default_model_id limit o h in
    stream-collect (map codes o.stop) deltas (earliest-codes o.stop w.0.stops.1)
