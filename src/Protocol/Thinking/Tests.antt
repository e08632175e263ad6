-- ===== src/Protocol/Thinking/Tests.antt =====
-- A marker cut by two deltas, between content and reasoning.
use serve_mlx.Base.{◌≡◌, refl, true, false, List, [], ◌∷◌}
use serve_mlx.Protocol.Text.{Text, codes}
use serve_mlx.Protocol.Thinking.{markers, join, init, stream, split_reasoning}
use serve_mlx.Protocol.Thinking.Whole.Label.{label, labels}
use serve_mlx.Protocol.Thinking.Whole.Stream.{concat}
use serve_mlx.Protocol.Thinking.Whole.Deltas.{stream-label, split_reasoning-stream}

abbrev deltas : List Text
deltas = codes "a<thi" ∷ codes "nk>b<" ∷ codes "c" ∷ []

abbrev whole : Text
whole = codes "a<think>b<c"

thought : join true (stream markers deltas (init false)) ≡ codes "b<c"
unfolding join stream
thought = refl

said : join false (stream markers deltas (init false)) ≡ codes "a"
unfolding join stream
said = refl

stream-label_example :
    labels (stream markers deltas (init false)) ≡ label markers 0 false (concat deltas)
stream-label_example = stream-label false deltas

split_reasoning-stream_example : split_reasoning (λ t. t) whole false ≡ (
  join true (stream markers deltas (init false)),
  join false (stream markers deltas (init false)),
)
split_reasoning-stream_example = split_reasoning-stream (λ t. t) false deltas
