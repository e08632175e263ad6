-- ===== src/Protocol/Text.antt =====
-- src/mlx_moe_stream/server/protocol.py: the searches in a text that the stream transforms share.
--
-- A text is the list of its code points.
pub mod Prefix
pub mod Search
use Prim.Native.Char.{code}
use Prim.Native.String.{String}
use serve_mlx.Base.{
  ℕ, zero, suc, ◌+◌, ◌-◌, ◌≡◌, Option, none, some, Bool, true, false, List, [], ◌∷◌, length, take,
  drop, map, ◌==◌, ◌&&◌, ◌||◌, if◌then◌else◌, leb, min,
}

abbrev pub Text : Type 0
Text = List ℕ

-- the code points of a text
abbrev pub codes : String → Text
codes String.[] = []
codes (String.◌∷◌ c s) = code c ∷ codes s

unfoldable pub text_eq : Text → Text → Bool
text_eq [] [] = true
text_eq [] (y ∷ t) = false
text_eq (x ∷ s) [] = false
text_eq (x ∷ s) (y ∷ t) = x == y && text_eq s t

-- `text.startswith(marker)`
unfoldable pub starts_with : Text → Text → Bool
starts_with [] text = true
starts_with (x ∷ marker) [] = false
starts_with (x ∷ marker) (y ∷ text) = x == y && starts_with marker text

-- `text.endswith(tail)`
unfoldable pub ends_with : Text → Text → Bool
unfolding text_eq
ends_with tail text =
    leb (length tail) (length text) && text_eq (drop (length text - length tail) text) tail

abbrev pub later : Option ℕ → Option ℕ
later none = none
later (some i) = some (suc i)

-- `text.find(marker)`, with `none` for -1
unfoldable pub find : Text → Text → Option ℕ
unfolding starts_with
find marker [] = if starts_with marker [] then some 0 else none
find marker (x ∷ text) =
    let rest = find marker text in if starts_with marker (x ∷ text) then some 0 else later rest

abbrev pub earlier : Option ℕ → Option ℕ → Option ℕ
earlier none j = j
earlier (some i) none = some i
earlier (some i) (some j) = some (min i j)

-- the least of the places where a marker is found
unfoldable pub earliest : List Text → Text → Option ℕ
unfolding find
earliest [] text = none
earliest (marker ∷ markers) text = earlier (find marker text) (earliest markers text)

-- the loop of `_longest_marker_prefix` over the lengths down to 1
unfoldable pub longest_from : Text → Text → ℕ → Text
unfolding ends_with
longest_from text marker zero = []
longest_from text marker (suc n) =
    let rest = longest_from text marker n in
    if ends_with (take (suc n) marker) text then take (suc n) marker else rest

unfoldable pub longest_marker_prefix : Text → Text → Text
unfolding longest_from
longest_marker_prefix text marker = longest_from text marker (min (length text) (length marker - 1))

-- `max(..., key=len, default="")`, the first of the longest
unfoldable pub longest_marker_prefixes : Text → List Text → Text
unfolding longest_marker_prefix
longest_marker_prefixes text [] = []
longest_marker_prefixes text (marker ∷ markers) =
    let rest = longest_marker_prefixes text markers in
    let first = longest_marker_prefix text marker in
    if leb (length rest) (length first) then first else rest
