-- ===== src/Protocol/Thinking/Whole/Near.antt =====
-- The nearest marker of a text, place by place, and in the continuations of the text.
use mathlib.Core.Path.{subst}
use serve_mlx.Base.{
  ℕ, suc, ◌≡◌, refl, sym, ap, ◌∙◌, Option, none, some, true, false, List, [], ◌∷◌, if◌then◌else◌,
  if_then, if_else, leb, leb-cases, le→leb, lt→leb_false, arith, Bool-cases, inl, inr, All,
}
use serve_mlx.Protocol.Text.{Text, starts_with, find, later}
use serve_mlx.Protocol.Text.Search.{begins}
use serve_mlx.Protocol.Thinking.{Marker, Match, match_at, pick, nearest, texts}

-- the first marker that starts the text
unfoldable pub starting : List Marker → Text → Option Marker
unfolding starts_with
starting [] text = none
starting (m ∷ ms) text =
    let rest = starting ms text in if starts_with m.text text then some m else rest

abbrev pub farther : Option Match → Option Match
farther none = none
farther (some n) = some (match_at (suc n.index) n.marker)

abbrev pub here_or : Option Marker → Option Match → Option Match
here_or none rest = farther rest
here_or (some m) rest = some (match_at 0 m)

pick_zero : (m : Marker) (rest : Option Match) → pick m (some 0) rest ≡ some (match_at 0 m)
pick_zero m none = refl
pick_zero m (some n) = if_then _ _ _ (let e : leb 0 n.index ≡ true = ground arith in e)

pick-later :
    (m : Marker) (i : Option ℕ) (s : Option Marker) (rest : Option Match)
    → pick m (later i) (here_or s rest) ≡ here_or s (pick m i rest)
pick-later m none s rest = refl
pick-later m (some i) (some k) rest =
    if_else _ _ _ (let e : leb (suc i) 0 ≡ false = ground arith in e)
pick-later m (some i) none none = refl
pick-later m (some i) none (some n) = elim (leb-cases i n.index) [
  | inl (l, e) ↦
      if_then (leb (suc i) (suc n.index)) (some (match_at (suc i) m))
        (some (match_at (suc n.index) n.marker)) (le→leb (suc i) (suc n.index) (omega (arith, l)))
      ∙ ap farther (sym (if_then (leb i n.index) (some (match_at i m)) (some n) e))
  | inr (l, e) ↦
      if_else (leb (suc i) (suc n.index)) (some (match_at (suc i) m))
        (some (match_at (suc n.index) n.marker))
        (lt→leb_false (suc i) (suc n.index) (omega (arith, l)))
      ∙ ap farther (sym (if_else (leb i n.index) (some (match_at i m)) (some n) e))
]

pub nearest_step :
    (ms : List Marker) (x : ℕ) (text : Text)
    → nearest ms (x ∷ text) ≡ here_or (starting ms (x ∷ text)) (nearest ms text)
unfolding nearest starting find
nearest_step [] x text = refl
nearest_step (m ∷ ms) x text = elim (Bool-cases (starts_with m.text (x ∷ text))) [
  | inl e ↦ rw (find, starting, e) (pick_zero m (nearest ms (x ∷ text)))
  | inr e ↦
      rw (find, starting, e, nearest_step ms x text)
        (pick-later m (find m.text text) (starting ms (x ∷ text)) (nearest ms text))
]

pub starting-none :
    (ms : List Marker) (text : Text) → starting ms text ≡ none → begins (texts ms) text ≡ false
unfolding starting begins
starting-none [] text h = refl
starting-none (m ∷ ms) text h = elim (Bool-cases (starts_with m.text text)) [
  | inl e ↦ absurd (let a = (rw (starting, e) at h) in cc)
  | inr e ↦ rw (begins, e) (starting-none ms text (rw (starting, e) at h))
]

pub begins-starting :
    (ms : List Marker) (text : Text) → begins (texts ms) text ≡ false → starting ms text ≡ none
unfolding starting begins
begins-starting [] text h = refl
begins-starting (m ∷ ms) text h = elim (Bool-cases (starts_with m.text text)) [
  | inl e ↦ absurd (let a = (rw (begins, e) at h) in cc)
  | inr e ↦ rw (starting, e) (begins-starting ms text (rw (begins, e) at h))
]

-- what a marker that starts a text is
pub starting_lem :
    (P : Marker → Type 0) (ms : List Marker) (text : Text) (m : Marker)
    → starting ms text ≡ some m
    → All P ms
    → P m × (starts_with m.text text ≡ true)
unfolding starting
starting_lem P [] text m h all = absurd (let a = h in cc)
starting_lem P (k ∷ ms) text m h all = elim (Bool-cases (starts_with k.text text)) [
  | inl e ↦
      let f : some k ≡ some m = rw (starting, e) at h in
      let same : k ≡ m = cc in subst (λ z. P z × (starts_with z.text text ≡ true)) same (all.0, e)
  | inr e ↦ starting_lem P ms text m (rw (starting, e) at h) all.1
]
