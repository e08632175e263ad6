-- ===== src/Protocol/Stop/Tests.antt =====
-- The stop "12" spread over two deltas, with a 1 before it that could begin it.
use serve_mlx.Base.{◌≡◌, refl, false, List, [], ◌∷◌}
use serve_mlx.Protocol.Text.{Text, earliest}
use serve_mlx.Protocol.Stop.{init, feed, stream}
use serve_mlx.Protocol.Stop.Reference.{collect, stream-collect}

abbrev stops : List Text
stops = (1 ∷ 2 ∷ []) ∷ []

abbrev deltas : List Text
deltas = (7 ∷ 1 ∷ []) ∷ (1 ∷ []) ∷ (2 ∷ 9 ∷ []) ∷ (8 ∷ []) ∷ []

withheld : feed stops (7 ∷ 1 ∷ []) init ≡ (7 ∷ [], record { buffer = 1 ∷ []; stopped = false })
unfolding feed
withheld = refl

cut : stream stops deltas init ≡ 7 ∷ 1 ∷ []
unfolding stream
cut = refl

stream-collect_example : stream stops deltas init ≡ collect stops [] deltas
unfolding earliest
stream-collect_example = stream-collect stops deltas refl
