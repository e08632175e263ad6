-- ===== src/Protocol/Thinking/Whole/Deltas.antt =====
-- A stream of deltas is labelled as their whole text.
use serve_mlx.Base.{
  ◌≤◌, ◌≡◌, refl, sym, ap, ◌∙◌, Bool, true, false, List, [], ◌∷◌, ◌++◌, not, ◌||◌, ◌&&◌, &&_iff,
  leb→le, length, leb, append-nil, All,
}
use serve_mlx.Protocol.Text.{Text, starts_with}
use serve_mlx.Protocol.Thinking.{Marker, markers, Emitted, init, stream}
use serve_mlx.Protocol.Thinking.Whole.Apart.{is_marker, IsMarker, IsApart}
use serve_mlx.Protocol.Thinking.Whole.Label.{Labelled, mark, label, labels}
use serve_mlx.Protocol.Thinking.{join, split_reasoning}
use serve_mlx.Protocol.Thinking.Whole.Stream.{concat, stream-label_held}

all_apart : List Marker → Marker → Bool
all_apart [] m = true
all_apart (k ∷ ks) m =
    (not (starts_with m.text k.text) || leb (length k.text) (length m.text)) && all_apart ks m

all_apart_lem :
    (ks : List Marker) (m : Marker)
    → all_apart ks m ≡ true
    → All (λ k. (starts_with m.text k.text ≡ true) → length k.text ≤ length m.text) ks
unfolding all_apart
all_apart_lem [] m h = tt
all_apart_lem (k ∷ ks) m h =
    let (a, b) = (&&_iff _ (all_apart ks m)).0 h in
    ((λ e. leb→le (length k.text) (length m.text) (or_right _ _ e a)), all_apart_lem ks m b)
  where
    or_right : (a b : Bool) → a ≡ true → (not a || b) ≡ true → b ≡ true
    or_right true b e h = h
    or_right false b e h = absurd (let x = e in cc)

all_proper : List Marker → List Marker → Bool
unfolding all_apart
all_proper ms [] = true
all_proper ms (m ∷ ks) = (is_marker m.text && all_apart ms m) && all_proper ms ks

all_proper_lem :
    (ms ks : List Marker) → all_proper ms ks ≡ true → All IsMarker ks × All (IsApart ms) ks
unfolding all_proper
all_proper_lem ms [] h = (tt, tt)
all_proper_lem ms (m ∷ ks) h =
    let (a, b) = (&&_iff (is_marker m.text && all_apart ms m) (all_proper ms ks)).0 h in
    let (c, d) = (&&_iff (is_marker m.text) (all_apart ms m)).0 a in
    let (e, f) = all_proper_lem ms ks b in ((c, e), ((c, all_apart_lem ms m d), f))

markers_proper : all_proper markers markers ≡ true
unfolding all_proper starts_with
markers_proper = refl

-- However a text is cut into deltas, what the parser emits from them and at the flush is the
-- labelling of the whole text: each code point outside the markers once and in order, in the field
-- that the last marker before it set.
pub stream-label :
    (initial_reasoning : Bool) (deltas : List Text)
    → labels (stream markers deltas (init initial_reasoning))
      ≡ label markers 0 initial_reasoning (concat deltas)
unfolding label
stream-label initial_reasoning deltas =
    let (proper, apart) = all_proper_lem markers markers markers_proper in
    stream-label_held markers proper apart deltas (init initial_reasoning) refl

-- the code points of a field
abbrev field_text : Bool → Labelled → Text
field_text field [] = []
field_text true ((true, x) ∷ rest) = x ∷ field_text true rest
field_text true ((false, x) ∷ rest) = field_text true rest
field_text false ((true, x) ∷ rest) = field_text false rest
field_text false ((false, x) ∷ rest) = x ∷ field_text false rest

field_text-mark :
    (field mode : Bool) (t : Text) (rest : Labelled)
    → field_text field (mark mode t ++ rest) ≡ join field ((mode, t) ∷ []) ++ field_text field rest
unfolding join
field_text-mark true true [] rest = refl
field_text-mark true true (x ∷ t) rest = ap (◌∷◌ x) (field_text-mark true true t rest)
field_text-mark true false [] rest = refl
field_text-mark true false (x ∷ t) rest = field_text-mark true false t rest
field_text-mark false true [] rest = refl
field_text-mark false true (x ∷ t) rest = field_text-mark false true t rest
field_text-mark false false [] rest = refl
field_text-mark false false (x ∷ t) rest = ap (◌∷◌ x) (field_text-mark false false t rest)

join_cons :
    (field mode : Bool) (t : Text) (e : Emitted)
    → join field ((mode, t) ∷ e) ≡ join field ((mode, t) ∷ []) ++ join field e
unfolding join
join_cons true true t e = ap (λ z. z ++ join true e) (sym (append-nil t))
join_cons true false t e = refl
join_cons false true t e = refl
join_cons false false t e = ap (λ z. z ++ join false e) (sym (append-nil t))

join-labels : (field : Bool) (e : Emitted) → join field e ≡ field_text field (labels e)
unfolding join
join-labels true [] = refl
join-labels false [] = refl
join-labels field ((mode, t) ∷ e) =
    join_cons field mode t e
    ∙ ap (λ z. join field ((mode, t) ∷ []) ++ z) (join-labels field e)
    ∙ sym (field_text-mark field mode t (labels e))

-- The reasoning and the content that split_reasoning finds in a whole text are those of a stream of
-- the text, however it is cut into deltas, less the white space around them.
pub split_reasoning-stream :
    (strip : Text → Text) (initial_reasoning : Bool) (deltas : List Text)
    → split_reasoning strip (concat deltas) initial_reasoning ≡ (
      strip (join true (stream markers deltas (init initial_reasoning))),
      strip (join false (stream markers deltas (init initial_reasoning))),
    )
unfolding split_reasoning stream
split_reasoning-stream strip initial_reasoning deltas =
    let whole : List Text = concat deltas ∷ [] in
    let same : (field : Bool)
        → join field (stream markers whole (init initial_reasoning))
          ≡ join field (stream markers deltas (init initial_reasoning)) =
      λ field.
        join-labels field (stream markers whole (init initial_reasoning))
        ∙ ap (field_text field) (
            stream-label initial_reasoning whole
            ∙ ap (label markers 0 initial_reasoning) (append-nil (concat deltas))
            ∙ sym (stream-label initial_reasoning deltas))
        ∙ sym (join-labels field (stream markers deltas (init initial_reasoning))) in
    let a = same true in let b = same false in (λ i. (strip (a i), strip (b i)))
