-- ===== src/Protocol/Thinking/Whole/Apart.antt =====
-- Markers in the continuations of a text.
use mathlib.Core.Path.{subst}
use serve_mlx.Base.{
  ℕ, zero, suc, ◌≤◌, ◌≡◌, refl, sym, ap, ◌∙◌, some, Bool, true, false, List, [], ◌∷◌, ◌++◌, length,
  take, drop, ◌==◌, ◌&&◌, not, if_then, ==_iff, &&_iff, append_assoc, arith, Bool-cases, inl, inr,
  All,
}
use serve_mlx.Protocol.Text.{Text, starts_with}
use serve_mlx.Protocol.Text.Prefix.{IsBegun}
use serve_mlx.Protocol.Text.Search.{begins, IsQuiet, starts_with-append}
use serve_mlx.Protocol.Thinking.{Marker, texts}
use serve_mlx.Protocol.Thinking.Whole.Near.{starting}

-- `<` is at the head of a marker and nowhere else in it
abbrev pub lacks : Text → Bool
lacks [] = true
lacks (x ∷ t) = not (x == b'<') && lacks t

abbrev pub is_marker : Text → Bool
is_marker [] = false
is_marker (x ∷ t) = x == b'<' && lacks t

-- a marker, and no other of the markers begins with it
abbrev pub IsApart : List Marker → Marker → Type 0
IsApart ms m =
    (is_marker m.text ≡ true)
    × All (λ k. (starts_with m.text k.text ≡ true) → length k.text ≤ length m.text) ms

pub starts_with_split :
    (k text : Text) → starts_with k text ≡ true → k ++ drop (length k) text ≡ text
unfolding starts_with
starts_with_split [] text h = refl
starts_with_split (x ∷ k) [] h = absurd (let a = h in cc)
starts_with_split (x ∷ k) (y ∷ text) h =
    let (e, r) = (&&_iff (x == y) (starts_with k text)).0 h in
    let same = (==_iff x y).0 e in let rest = starts_with_split k text r in cc

starts_with_self : (k t : Text) → starts_with k (k ++ t) ≡ true
unfolding starts_with
starts_with_self [] t = refl
starts_with_self (x ∷ k) t =
    (&&_iff (x == x) (starts_with k (k ++ t))).1 ((==_iff x x).1 refl, starts_with_self k t)

starts_with-take : (k t : Text) (n : ℕ) → starts_with k (take n t) ≡ true → starts_with k t ≡ true
unfolding starts_with
starts_with-take [] t n h = refl
starts_with-take (x ∷ k) t zero h = absurd (let a = h in cc)
starts_with-take (x ∷ k) [] (suc n) h = absurd (let a = h in cc)
starts_with-take (x ∷ k) (y ∷ t) (suc n) h =
    let (e, r) = (&&_iff (x == y) (starts_with k (take n t))).0 h in
    (&&_iff (x == y) (starts_with k t)).1 (e, starts_with-take k t n r)

starts_with-grow : (k t more : Text) → starts_with k t ≡ true → starts_with k (t ++ more) ≡ true
unfolding starts_with
starts_with-grow [] t more h = refl
starts_with-grow (x ∷ k) [] more h = absurd (let a = h in cc)
starts_with-grow (x ∷ k) (y ∷ t) more h =
    let (e, r) = (&&_iff (x == y) (starts_with k t)).0 h in
    (&&_iff (x == y) (starts_with k (t ++ more))).1 (e, starts_with-grow k t more r)

starts_with_bound : (k t : Text) → starts_with k t ≡ true → length k ≤ length t
unfolding starts_with
starts_with_bound [] t h = omega arith
starts_with_bound (x ∷ k) [] h = absurd (let a = h in cc)
starts_with_bound (x ∷ k) (y ∷ t) h =
    omega (arith, starts_with_bound k t ((&&_iff (x == y) (starts_with k t)).0 h).1)

-- A text that starts with a marker starts with the same one however it goes on.
pub starting-append :
    (ms : List Marker) (text more : Text) (m : Marker)
    → starts_with m.text text ≡ true
    → All (λ k. (starts_with m.text k.text ≡ true) → length k.text ≤ length m.text) ms
    → starting ms text ≡ some m
    → starting ms (text ++ more) ≡ some m
unfolding starting
starting-append [] text more m s all h = absurd (let a = h in cc)
starting-append (k ∷ ms) text more m s all h = elim (Bool-cases (starts_with k.text text)) [
  | inl e ↦
      let f : some k ≡ some m = rw (starting, e) at h in
      if_then _ _ _ (starts_with-grow k.text text more e) ∙ f
  | inr e ↦ elim (Bool-cases (starts_with k.text (text ++ more))) [
    | inr f ↦ rw (starting, f) (starting-append ms text more m s all.1 (rw (starting, e) at h))
    | inl f ↦ elim (starts_with-append k.text text more f) [
      | inl g ↦ absurd (let a = g in cc)
      | inr (l, g) ↦
          let g2 =
            starts_with-take m.text k.text (length text)
              (subst (λ z. starts_with m.text z ≡ true) (sym g) s) in
          absurd (omega (arith, l, all.0 g2, starts_with_bound m.text text s))
    ]
  ]
]

lacks-take : (n : ℕ) (t : Text) → lacks t ≡ true → lacks (take n t) ≡ true
lacks-take zero t h = refl
lacks-take (suc n) [] h = refl
lacks-take (suc n) (x ∷ t) h =
    let (a, b) = (&&_iff (not (x == b'<')) (lacks t)).0 h in
    (&&_iff (not (x == b'<')) (lacks (take n t))).1 (a, lacks-take n t b)

lacks-append : (s t : Text) → lacks t ≡ false → lacks (s ++ t) ≡ false
lacks-append [] t h = h
lacks-append (x ∷ s) t h = &&_false (not (x == b'<')) (lacks (s ++ t)) (lacks-append s t h)
  where
    &&_false : (a b : Bool) → b ≡ false → (a && b) ≡ false
    &&_false true b e = e
    &&_false false b e = refl

pub lacks-starts_with : (k t : Text) → is_marker k ≡ true → starts_with k t ≡ true → lacks t ≡ false
unfolding starts_with
lacks-starts_with [] t i h = absurd (let a = i in cc)
lacks-starts_with (x ∷ k) [] i h = absurd (let a = h in cc)
lacks-starts_with (x ∷ k) (y ∷ t) i h =
    let a : x ≡ b'<' = (==_iff x b'<').0 ((&&_iff (x == b'<') (lacks k)).0 i).0 in
    let b : x ≡ y = (==_iff x y).0 ((&&_iff (x == y) (starts_with k t)).0 h).0 in
    let c : (y == b'<') ≡ true = (==_iff y b'<').1 (sym b ∙ a) in ap (λ z. not z && lacks t) c

abbrev pub IsMarker : Marker → Type 0
IsMarker m = is_marker m.text ≡ true

-- no marker is begun by a text with `<` after its head
not_begun :
    (k : Text) (x : ℕ) (t : Text)
    → is_marker k ≡ true
    → lacks t ≡ false
    → IsBegun (x ∷ t) k
    → false ≡ true
not_begun [] x t i h b = absurd (let a = i in cc)
not_begun (y ∷ k) x t i h b =
    let same : take (length t) k ≡ t = ap (drop 1) b.1 in
    let a = lacks-take (length t) k ((&&_iff (y == b'<') (lacks k)).0 i).1 in
    sym h ∙ ap lacks (sym same) ∙ a

begins-append_quiet :
    (ms : List Marker) (x : ℕ) (t more : Text)
    → All IsMarker ms
    → lacks t ≡ false
    → begins (texts ms) (x ∷ t) ≡ false
    → begins (texts ms) (x ∷ t ++ more) ≡ false
unfolding begins
begins-append_quiet [] x t more all h q = refl
begins-append_quiet (k ∷ ms) x t more all h q = elim (Bool-cases (starts_with k.text (x ∷ t))) [
  | inl e ↦ absurd (let a = (rw (begins, e) at q) in cc)
  | inr e ↦ elim (Bool-cases (starts_with k.text (x ∷ t ++ more))) [
    | inr f ↦ rw (begins, f) (begins-append_quiet ms x t more all.1 h (rw (begins, e) at q))
    | inl f ↦ elim (starts_with-append k.text (x ∷ t) more f) [
      | inl g ↦ absurd (let a = g in cc)
      | inr g ↦ absurd (let a = not_begun k.text x t all.0 h g in cc)
    ]
  ]
]

-- Before a marker, no marker starts however the text goes on.
pub IsQuiet-append :
    (ms : List Marker) (p b more : Text)
    → All IsMarker ms
    → lacks b ≡ false
    → IsQuiet (texts ms) p b
    → IsQuiet (texts ms) p (b ++ more)
IsQuiet-append ms [] b more all h q = tt
IsQuiet-append ms (x ∷ p) b more all h q = (
  ap (λ t. begins (texts ms) (x ∷ t)) (sym (append_assoc p b more))
      ∙ begins-append_quiet ms x (p ++ b) more all (lacks-append p b h) q.0,
  IsQuiet-append ms p b more all h q.1,
)
