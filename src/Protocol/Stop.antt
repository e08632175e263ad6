-- ===== src/Protocol/Stop.antt =====
-- src/mlx_moe_stream/server/protocol.py: StopSequenceBuffer.
pub mod Reference
mod Tests
use serve_mlx.Base.{
  ℕ, ◌-◌, Option, none, some, Bool, true, false, List, [], ◌∷◌, ◌++◌, length, take, if◌then◌else◌,
}
use serve_mlx.Manifest.{is_empty}
use serve_mlx.Protocol.Text.{Text, earliest, longest_marker_prefixes}

pub record StopSequenceBuffer : Type 0 where
  pub buffer : Text
  pub stopped : Bool

abbrev pub init : StopSequenceBuffer
init = record { buffer = []; stopped = false }

module _ (stops : List Text) where
  -- `feed` once the text is in the buffer
  unfoldable pub emit : Text → Text × StopSequenceBuffer
  unfolding earliest longest_marker_prefixes
  emit buffer = elim (earliest stops buffer) [
    | some index ↦ (take index buffer, record { buffer = []; stopped = true })
    | none ↦
        let retained = longest_marker_prefixes buffer stops in
        (
          take (length buffer - length retained) buffer,
          record { buffer = retained; stopped = false },
        )
  ]

  unfoldable pub feed : Text → StopSequenceBuffer → Text × StopSequenceBuffer
  unfolding emit
  feed text s =
      let fed = emit (s.buffer ++ text) in
      if s.stopped then ([], s) else if is_empty text then ([], s) else fed

  abbrev pub flush : StopSequenceBuffer → Text
  flush s = if s.stopped then [] else s.buffer

  -- what a stream of deltas emits, and the flush at its end
  unfoldable pub stream : List Text → StopSequenceBuffer → Text
  unfolding feed
  stream [] s = flush s
  stream (text ∷ texts) s = let (emitted, t) = feed text s in emitted ++ stream texts t
