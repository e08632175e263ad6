-- ===== src/Protocol/Text/Prefix.antt =====
-- What `_longest_marker_prefix` finds.
use serve_mlx.Base.{
  ℕ, zero, suc, ◌-◌, ◌≤◌, ◌<◌, ◌≡◌, refl, sym, ap, ◌∙◌, true, List, [], ◌∷◌, ◌++◌, length, take,
  drop, ◌==◌, leb, min, le→leb, leb-cases, ==_iff, &&_iff, length-append, append-nil, arith,
  Bool-cases, inl, inr,
}
use serve_mlx.Protocol.Text.{
  Text, text_eq, ends_with, longest_from, longest_marker_prefix, longest_marker_prefixes,
}

pub length-take : (n : ℕ) (t : Text) → length (take n t) ≡ min n (length t)
length-take zero t = omega arith
length-take (suc n) [] = omega arith
length-take (suc n) (x ∷ t) = omega (arith, length-take n t)

pub take-drop : (n : ℕ) (t : Text) → take n t ++ drop n t ≡ t
take-drop zero t = refl
take-drop (suc n) [] = refl
take-drop (suc n) (x ∷ t) = ap (◌∷◌ x) (take-drop n t)

pub take-length : (t : Text) → take (length t) t ≡ t
take-length [] = refl
take-length (x ∷ t) = ap (◌∷◌ x) (take-length t)

pub take-append : (s t : Text) → take (length s) (s ++ t) ≡ s
take-append [] t = refl
take-append (x ∷ s) t = ap (◌∷◌ x) (take-append s t)

drop-append : (s t : Text) → drop (length s) (s ++ t) ≡ t
drop-append [] t = refl
drop-append (x ∷ s) t = drop-append s t

text_eq_lem : (s t : Text) → text_eq s t ≡ true → s ≡ t
unfolding text_eq
text_eq_lem [] [] h = refl
text_eq_lem [] (y ∷ t) h = absurd (let x = h in cc)
text_eq_lem (x ∷ s) [] h = absurd (let x = h in cc)
text_eq_lem (x ∷ s) (y ∷ t) h =
    let (e, r) = (&&_iff (x == y) (text_eq s t)).0 h in
    let a : x ≡ y = (==_iff x y).0 e in let b = text_eq_lem s t r in cc

text_eq_refl : (s : Text) → text_eq s s ≡ true
unfolding text_eq
text_eq_refl [] = refl
text_eq_refl (x ∷ s) = (&&_iff (x == x) (text_eq s s)).1 ((==_iff x x).1 refl, text_eq_refl s)

-- `tail` ends `text`
abbrev pub IsTail : Text → Text → Type 0
IsTail tail text = take (length text - length tail) text ++ tail ≡ text

ends_with-IsTail : (tail text : Text) → ends_with tail text ≡ true → IsTail tail text
unfolding ends_with
ends_with-IsTail tail text h =
    let (a, b) = (&&_iff _ _).0 h in
    let same = text_eq_lem (drop (length text - length tail) text) tail b in
    ap (λ z. take (length text - length tail) text ++ z) (sym same)
    ∙ take-drop (length text - length tail) text

ends_with-append : (u v : Text) → ends_with v (u ++ v) ≡ true
unfolding ends_with
ends_with-append u v =
    let n : length (u ++ v) - length v ≡ length u = omega (arith, length-append u v) in
    (&&_iff _ _).1 (
      le→leb (length v) (length (u ++ v)) (omega (arith, length-append u v)),
      ap (λ m. text_eq (drop m (u ++ v)) v) n
          ∙ ap (λ z. text_eq z v) (drop-append u v)
          ∙ text_eq_refl v,
    )

nil-IsTail : (text : Text) → IsTail [] text
nil-IsTail text =
    ap (λ m. take m text ++ []) (omega arith)
    ∙ append-nil (take (length text) text)
    ∙ take-length text

longest_from-IsTail : (text marker : Text) (n : ℕ) → IsTail (longest_from text marker n) text
unfolding longest_from
longest_from-IsTail text marker zero = nil-IsTail text
longest_from-IsTail text marker (suc n) = elim (Bool-cases (ends_with (take (suc n) marker) text)) [
  | inl e ↦ rw (longest_from, e) (ends_with-IsTail (take (suc n) marker) text e)
  | inr e ↦ rw (longest_from, e) (longest_from-IsTail text marker n)
]

pub longest_marker_prefixes-IsTail :
    (text : Text) (markers : List Text) → IsTail (longest_marker_prefixes text markers) text
unfolding longest_marker_prefixes longest_marker_prefix
longest_marker_prefixes-IsTail text [] = nil-IsTail text
longest_marker_prefixes-IsTail text (marker ∷ markers) =
    elim (Bool-cases (
      leb (length (longest_marker_prefixes text markers))
        (length (longest_marker_prefix text marker)))) [
          | inl e ↦
              rw (longest_marker_prefixes, e)
                (longest_from-IsTail text marker (min (length text) (length marker - 1)))
          | inr e ↦ rw (longest_marker_prefixes, e) (longest_marker_prefixes-IsTail text markers)
        ]

-- a marker begins with `v`, and does not end there
abbrev pub IsBegun : Text → Text → Type 0
IsBegun v marker = (length v < length marker) × (take (length v) marker ≡ v)

longest_from_longest :
    (u v marker : Text) (n : ℕ)
    → IsBegun v marker
    → n < length marker
    → length v ≤ n
    → length v ≤ length (longest_from (u ++ v) marker n)
unfolding longest_from
longest_from_longest u v marker zero b l h = omega (arith, h)
longest_from_longest u v marker (suc n) b l h =
    elim (Bool-cases (ends_with (take (suc n) marker) (u ++ v))) [
      | inl e ↦ rw (longest_from, e) (omega (arith, length-take (suc n) marker, h, l))
      | inr e ↦
          rw (longest_from, e)
            (elim (leb-cases (length v) n) [
              | inl a ↦ longest_from_longest u v marker n b (omega (arith, l)) a.0
              | inr a ↦
                  let same : suc n ≡ length v = omega (arith, a.0, h) in
                  let t = ap (λ m. ends_with (take m marker) (u ++ v)) same in
                  let f = ap (λ z. ends_with z (u ++ v)) b.1 ∙ ends_with-append u v in
                  absurd (let g = e in cc)
            ])
    ]

pub longest_marker_prefix_longest :
    (u v marker : Text)
    → IsBegun v marker
    → length v ≤ length (longest_marker_prefix (u ++ v) marker)
unfolding longest_marker_prefix
longest_marker_prefix_longest u v marker b =
    longest_from_longest u v marker (min (length (u ++ v)) (length marker - 1)) b
      (omega (arith, b.0)) (omega (arith, b.0, length-append u v))

-- what is retained is no shorter than what any of the markers would retain
pub longest_marker_prefixes_longest :
    (text marker : Text) (markers : List Text)
    → (length (longest_marker_prefix text marker)
        ≤ length (longest_marker_prefixes text (marker ∷ markers)))
      × (length (longest_marker_prefixes text markers)
          ≤ length (longest_marker_prefixes text (marker ∷ markers)))
unfolding longest_marker_prefixes
longest_marker_prefixes_longest text marker markers =
    elim (leb-cases (length (longest_marker_prefixes text markers))
      (length (longest_marker_prefix text marker))) [
        | inl e ↦ rw (longest_marker_prefixes, e.1) (omega arith, e.0)
        | inr e ↦ rw (longest_marker_prefixes, e.1) (omega (arith, e.0), omega arith)
      ]

longest_from-bound : (text marker : Text) (n : ℕ) → length (longest_from text marker n) ≤ n
unfolding longest_from
longest_from-bound text marker zero = omega arith
longest_from-bound text marker (suc n) = elim (Bool-cases (ends_with (take (suc n) marker) text)) [
  | inl e ↦ rw (longest_from, e) (omega (arith, length-take (suc n) marker))
  | inr e ↦ rw (longest_from, e) (omega (arith, longest_from-bound text marker n))
]
