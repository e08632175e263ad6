-- ===== src/Protocol/Thinking/Whole/Label.antt =====
-- What the parser emits is the labelling of the whole text.
use mathlib.Core.Path.{subst}
use serve_mlx.Base.{
  ℕ, zero, suc, ◌-◌, ◌≡◌, refl, sym, ap, ◌∙◌, none, some, Bool, true, List, [], ◌∷◌, ◌++◌, length,
  take, drop, map, append_assoc, append-nil, arith, Option-cases, inl, inr, All,
}
use serve_mlx.Protocol.Text.{Text, find, starts_with}
use serve_mlx.Protocol.Text.Prefix.{take-drop}
use serve_mlx.Protocol.Text.Search.{begins, IsQuiet}
use serve_mlx.Protocol.Thinking.{
  Marker, Match, match_at, pick, nearest, texts, Emitted, emit, mode_after,
}
use serve_mlx.Protocol.Thinking.Whole.Near.{
  starting, here_or, farther, nearest_step, begins-starting, starting-none,
}
use serve_mlx.Protocol.Thinking.Whole.Apart.{is_marker, IsMarker}

-- code points, each with its field
abbrev pub Labelled : Type 0
Labelled = List (Bool × ℕ)

abbrev pub mark : Bool → Text → Labelled
mark mode text = map (λ x. (mode, x)) text

-- The labelling of a text, of which `skip` code points belong to a marker: a marker is left out and
-- sets the field of what follows.
unfoldable pub label : List Marker → ℕ → Bool → Text → Labelled
unfolding starting
label ms skip mode [] = []
label ms (suc skip) mode (x ∷ text) = label ms skip mode text
label ms zero mode (x ∷ text) = elim (starting ms (x ∷ text)) [
  | none ↦ (mode, x) ∷ label ms 0 mode text
  | some m ↦ label ms (length m.text - 1) (mode_after mode m.reasoning) text
]

-- the labels of what was emitted
abbrev pub labels : Emitted → Labelled
labels [] = []
labels ((mode, fragment) ∷ rest) = mark mode fragment ++ labels rest

pub labels-emit : (mode : Bool) (t : Text) → labels (emit mode t) ≡ mark mode t
labels-emit mode [] = refl
labels-emit mode (x ∷ t) = append-nil (mark mode (x ∷ t))

pub labels-append : (a b : Emitted) → labels (a ++ b) ≡ labels a ++ labels b
labels-append [] b = refl
labels-append ((mode, t) ∷ a) b =
    ap (λ z. mark mode t ++ z) (labels-append a b)
    ∙ sym (append_assoc (mark mode t) (labels a) (labels b))

find_nil : (k : Text) → is_marker k ≡ true → find k [] ≡ none
unfolding find starts_with
find_nil [] h = absurd (let a = h in cc)
find_nil (x ∷ k) h = refl

module _ (ms : List Marker) where
  label_skip :
      (k : Text) (mode : Bool) (t : Text) → label ms (length k) mode (k ++ t) ≡ label ms 0 mode t
  unfolding label
  label_skip [] mode t = refl
  label_skip (x ∷ k) mode t = label_skip k mode t

  label-none :
      (x : ℕ) (mode : Bool) (t : Text)
      → starting ms (x ∷ t) ≡ none
      → label ms 0 mode (x ∷ t) ≡ (mode, x) ∷ label ms 0 mode t
  unfolding label
  label-none x mode t h = rw (label, h) refl

  label-some :
      (x : ℕ) (mode : Bool) (t : Text) (m : Marker)
      → starting ms (x ∷ t) ≡ some m
      → label ms 0 mode (x ∷ t) ≡ label ms (length m.text - 1) (mode_after mode m.reasoning) t
  unfolding label
  label-some x mode t m h = rw (label, h) refl

  pub label_quiet :
      (p b : Text) (mode : Bool)
      → IsQuiet (texts ms) p b
      → label ms 0 mode (p ++ b) ≡ mark mode p ++ label ms 0 mode b
  label_quiet [] b mode q = refl
  label_quiet (x ∷ p) b mode q =
      label-none x mode (p ++ b) (begins-starting ms (x ∷ p ++ b) q.0)
      ∙ ap (◌∷◌ (mode, x)) (label_quiet p b mode q.1)

  pub label_marker :
      (m : Marker) (t : Text) (mode : Bool)
      → is_marker m.text ≡ true
      → starting ms (m.text ++ t) ≡ some m
      → label ms 0 mode (m.text ++ t) ≡ label ms 0 (mode_after mode m.reasoning) t
  label_marker m t mode i h = through m.text i refl
    where
      through :
          (k : Text)
          → is_marker k ≡ true
          → m.text ≡ k
          → label ms 0 mode (m.text ++ t) ≡ label ms 0 (mode_after mode m.reasoning) t
      through [] i e = absurd (let a = i in cc)
      through (x ∷ k) i e =
          let r = mode_after mode m.reasoning in
          let same : length m.text - 1 ≡ length k = omega (arith, ap length e) in
          ap (λ z. label ms 0 mode (z ++ t)) e
          ∙ label-some x mode (k ++ t) m (ap (λ z. starting ms (z ++ t)) (sym e) ∙ h)
          ∙ ap (λ n. label ms n r (k ++ t)) same
          ∙ label_skip k r t

  -- the nearest marker starts at its place, and none before
  abbrev pub IsFound : Text → Match → Type 0
  IsFound text n =
      (starting ms (drop n.index text) ≡ some n.marker)
      × IsQuiet (texts ms) (take n.index text) (drop n.index text)

  nearest_nil : (ks : List Marker) → All IsMarker ks → nearest ks [] ≡ none
  unfolding nearest find starts_with
  nearest_nil [] all = refl
  nearest_nil (k ∷ ks) all =
      ap (λ i. pick k i (nearest ks [])) (find_nil k.text all.0) ∙ nearest_nil ks all.1

  IsFound-next :
      (x : ℕ) (t : Text) (n : Match)
      → starting ms (x ∷ t) ≡ none
      → IsFound t n
      → IsFound (x ∷ t) (match_at (suc n.index) n.marker)
  IsFound-next x t n h (s, q) = (
    s,
    (ap (λ z. begins (texts ms) (x ∷ z)) (take-drop n.index t) ∙ starting-none ms (x ∷ t) h, q),
  )

  pub nearest-IsFound :
      All IsMarker ms → (text : Text) (n : Match) → nearest ms text ≡ some n → IsFound text n
  nearest-IsFound all [] n h = absurd (let a = nearest_nil ms all in cc)
  nearest-IsFound all (x ∷ t) n h =
      let step = sym (nearest_step ms x t) ∙ h in
      elim (Option-cases (starting ms (x ∷ t))) [
        | inr (m, e) ↦
            let f : some (match_at 0 m) ≡ some n =
              ap (λ s. here_or s (nearest ms t)) (sym e) ∙ step in
            let same : match_at 0 m ≡ n = cc in subst (IsFound (x ∷ t)) same (e, tt)
        | inl e ↦ elim (Option-cases (nearest ms t)) [
          | inl g ↦
              absurd
                (let f = sym (ap (λ s. here_or s (nearest ms t)) e ∙ ap farther g) ∙ step in cc)
          | inr (k, g) ↦
              let f : some (match_at (suc k.index) k.marker) ≡ some n =
                sym (ap (λ s. here_or s (nearest ms t)) e ∙ ap farther g) ∙ step in
              let same : match_at (suc k.index) k.marker ≡ n = cc in
              subst (IsFound (x ∷ t)) same (IsFound-next x t k e (nearest-IsFound all t k g))
        ]
      ]
