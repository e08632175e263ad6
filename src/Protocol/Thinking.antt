-- ===== src/Protocol/Thinking.antt =====
-- src/mlx_moe_stream/server/protocol.py: ThinkingStreamParser and split_reasoning.
--
-- The loop of `feed` is on fuel. `str.strip` is an argument.
pub mod Whole
mod Tests
use serve_mlx.Base.{
  ℕ, zero, suc, ◌+◌, ◌-◌, Option, none, some, Bool, true, false, List, [], ◌∷◌, ◌++◌, length, take,
  drop, map, if◌then◌else◌, leb,
}
use serve_mlx.Manifest.{is_empty}
use serve_mlx.Protocol.Text.{Text, codes, find, longest_marker_prefixes}

-- a marker, and whether it starts or ends the reasoning, or neither
pub record Marker : Type 0 where
  pub text : Text
  pub reasoning : Option Bool

abbrev marker_of : Text → Option Bool → Marker
marker_of text reasoning = record { text = text; reasoning = reasoning }

-- `_MARKERS`
abbrev pub markers : List Marker
markers =
    marker_of (codes "<|channel>thought\n") (some true)
    ∷ marker_of (codes "<|channel>analysis\n") (some true)
    ∷ marker_of (codes "<|channel>final\n") (some false)
    ∷ marker_of (codes "<|channel>commentary\n") (some false)
    ∷ marker_of (codes "<think>") (some true)
    ∷ marker_of (codes "</think>") (some false)
    ∷ marker_of (codes "<channel|>") none
    ∷ []

pub record Match : Type 0 where
  pub index : ℕ
  pub marker : Marker

abbrev pub match_at : ℕ → Marker → Match
match_at i m = record { index = i; marker = m }

-- where a marker is found, and the nearest of the markers after it
abbrev pub pick : Marker → Option ℕ → Option Match → Option Match
pick m none rest = rest
pick m (some i) none = some (match_at i m)
pick m (some i) (some n) = if leb i n.index then some (match_at i m) else some n

-- `min(matches, key=lambda match: match[0])`, the first of the least
unfoldable pub nearest : List Marker → Text → Option Match
unfolding find
nearest [] text = none
nearest (m ∷ ms) text = pick m (find m.text text) (nearest ms text)

pub record ThinkingStreamParser : Type 0 where
  pub in_reasoning : Bool
  pub buffer : Text

-- a fragment and whether its field is "reasoning_content"
abbrev pub Emitted : Type 0
Emitted = List (Bool × Text)

-- `if fragment: emitted.append((self._field, fragment))`
abbrev pub emit : Bool → Text → Emitted
emit field fragment = if is_empty fragment then [] else (field, fragment) ∷ []

-- the new `_in_reasoning` after a marker
abbrev pub mode_after : Bool → Option Bool → Bool
mode_after mode none = mode
mode_after mode (some b) = b

-- the parser after the marker of a match
abbrev pub pass : Match → ThinkingStreamParser → ThinkingStreamParser
pass m s = record {
  in_reasoning = mode_after s.in_reasoning m.marker.reasoning;
  buffer = drop (m.index + length m.marker.text) s.buffer;
}

abbrev pub texts : List Marker → List Text
texts ms = map (λ m. m.text) ms

module _ (ms : List Marker) where
  -- the rest of the loop body where there is no match
  unfoldable pub retain : ThinkingStreamParser → Emitted × ThinkingStreamParser
  unfolding longest_marker_prefixes
  retain s =
      let retained = longest_marker_prefixes s.buffer (texts ms) in
      (
        emit s.in_reasoning (take (length s.buffer - length retained) s.buffer),
        record s { buffer = retained },
      )

  -- the loop of `feed`
  unfoldable pub scan : ℕ → ThinkingStreamParser → Emitted × ThinkingStreamParser
  unfolding nearest retain
  scan zero s = ([], s)
  scan (suc n) s = if is_empty s.buffer then ([], s) else elim (nearest ms s.buffer) [
    | none ↦ retain s
    | some m ↦
        let (emitted, t) = scan n (pass m s) in
        (emit s.in_reasoning (take m.index s.buffer) ++ emitted, t)
  ]

  -- Each round with a match takes a marker off the buffer, so the rounds are at most the code points
  -- of the buffer.
  unfoldable pub feed : Text → ThinkingStreamParser → Emitted × ThinkingStreamParser
  unfolding scan
  feed text s = let t = record (s) { buffer = s.buffer ++ text } in scan (length t.buffer) t

-- `flush`
abbrev pub flush : ThinkingStreamParser → Emitted
flush s = emit s.in_reasoning s.buffer

abbrev pub init : Bool → ThinkingStreamParser
init initial_reasoning = record { in_reasoning = initial_reasoning; buffer = [] }

-- what a stream of deltas emits, and the flush at its end
unfoldable pub stream : List Marker → List Text → ThinkingStreamParser → Emitted
unfolding feed
stream ms [] s = flush s
stream ms (text ∷ deltas) s = let (emitted, t) = feed ms text s in emitted ++ stream ms deltas t

-- the fragments of a field, joined
unfoldable pub join : Bool → Emitted → Text
join field [] = []
join true ((true, fragment) ∷ rest) = fragment ++ join true rest
join true ((false, fragment) ∷ rest) = join true rest
join false ((true, fragment) ∷ rest) = join false rest
join false ((false, fragment) ∷ rest) = fragment ++ join false rest

unfoldable pub split_reasoning : (Text → Text) → Text → Bool → Text × Text
unfolding feed join
split_reasoning strip text initial_reasoning =
    let (emitted, s) = feed markers text (init initial_reasoning) in
    let all = emitted ++ flush s in (strip (join true all), strip (join false all))
