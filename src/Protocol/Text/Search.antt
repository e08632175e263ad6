-- ===== src/Protocol/Text/Search.antt =====
-- What `find` and the least of several finds say of a text and of its continuations.
use mathlib.Core.Path.{subst}
use serve_mlx.Base.{
  if_then, if_else, append_assoc, ℕ, suc, ◌+◌, ◌-◌, ◌≤◌, ◌<◌, ◌≡◌, refl, sym, ap, ◌∙◌, ◌⊎◌, Option,
  none, some, Bool, true, false, List, [], ◌∷◌, ◌++◌, length, take, ◌==◌, ◌||◌, if◌then◌else◌,
  ==_iff, &&_iff, length-append, arith, Bool-cases, inl, inr,
}
use serve_mlx.Protocol.Text.{
  Text, starts_with, find, earliest, later, earlier, longest_marker_prefixes,
}
use serve_mlx.Protocol.Text.Prefix.{
  IsBegun, longest_marker_prefix_longest, longest_marker_prefixes_longest,
  longest_marker_prefixes-IsTail,
}

||_false : (a b : Bool) → (a || b) ≡ false → (a ≡ false) × (b ≡ false)
||_false true b h = absurd (let x = h in cc)
||_false false b h = (refl, h)

-- one of the markers starts the text
unfoldable pub begins : List Text → Text → Bool
begins [] text = false
begins (marker ∷ markers) text = starts_with marker text || begins markers text

later-earlier : (i j : Option ℕ) → later (earlier i j) ≡ earlier (later i) (later j)
later-earlier none j = refl
later-earlier (some i) none = refl
later-earlier (some i) (some j) = ap some (omega arith)

earlier_zero : (j : Option ℕ) → earlier (some 0) j ≡ some 0
earlier_zero none = refl
earlier_zero (some j) = ap some (omega arith)

earlier-later_zero : (i : Option ℕ) → earlier (later i) (some 0) ≡ some 0
earlier-later_zero none = refl
earlier-later_zero (some i) = ap some (omega arith)

earlier_if :
    (b : Bool) (i j : Option ℕ)
    → earlier (later i) (if b then some 0 else later j)
      ≡ (if b then some 0 else later (earlier i j))
earlier_if true i j = earlier-later_zero i
earlier_if false i j = sym (later-earlier i j)

-- `earliest`, place by place
pub earliest_step :
    (markers : List Text) (x : ℕ) (text : Text)
    → earliest markers (x ∷ text)
      ≡ (if begins markers (x ∷ text) then some 0 else later (earliest markers text))
unfolding earliest begins find
earliest_step [] x text = refl
earliest_step (marker ∷ markers) x text = elim (Bool-cases (starts_with marker (x ∷ text))) [
  | inl e ↦ rw (earliest, begins, find, e) (earlier_zero (earliest markers (x ∷ text)))
  | inr e ↦
      rw (earliest, begins, find, e, earliest_step markers x text)
        (earlier_if (begins markers (x ∷ text)) (find marker text) (earliest markers text))
]

-- no marker starts at a place of `e` in `e ++ b`
abbrev pub IsQuiet : List Text → Text → Text → Type 0
IsQuiet markers [] b = Unit {0}
IsQuiet markers (x ∷ e) b = (begins markers (x ∷ e ++ b) ≡ false) × IsQuiet markers e b

abbrev pub shifted : ℕ → Option ℕ → Option ℕ
shifted n none = none
shifted n (some i) = some (n + i)

shifted_zero : (i : Option ℕ) → i ≡ shifted 0 i
shifted_zero none = refl
shifted_zero (some i) = ap some (omega arith)

later-shifted : (n : ℕ) (i : Option ℕ) → later (shifted n i) ≡ shifted (suc n) i
later-shifted n none = refl
later-shifted n (some i) = ap some (omega arith)

pub earliest_shift :
    (markers : List Text) (e b : Text)
    → IsQuiet markers e b
    → earliest markers (e ++ b) ≡ shifted (length e) (earliest markers b)
earliest_shift markers [] b h = shifted_zero (earliest markers b)
earliest_shift markers (x ∷ e) b h =
    earliest_step markers x (e ++ b)
    ∙ if_else _ _ _ h.0
    ∙ ap later (earliest_shift markers e b h.1)
    ∙ later-shifted (length e) (earliest markers b)

pub starts_with-append :
    (marker v more : Text)
    → starts_with marker (v ++ more) ≡ true
    → (starts_with marker v ≡ true) ⊎ IsBegun v marker
unfolding starts_with
starts_with-append [] v more h = inl refl
starts_with-append (m ∷ marker) [] more h = inr (omega arith, refl)
starts_with-append (m ∷ marker) (x ∷ v) more h =
    let (e, r) = (&&_iff (m == x) (starts_with marker (v ++ more))).0 h in
    elim (starts_with-append marker v more r) [
      | inl s ↦ inl ((&&_iff (m == x) (starts_with marker v)).1 (e, s))
      | inr (l, s) ↦ let same = (==_iff m x).0 e in inr (omega (arith, l), (let a = s in cc))
    ]

begins-append :
    (markers : List Text) (u v more : Text)
    → begins markers v ≡ false
    → length (longest_marker_prefixes (u ++ v) markers) < length v
    → begins markers (v ++ more) ≡ false
unfolding begins
begins-append [] u v more h l = refl
begins-append (marker ∷ markers) u v more h l =
    let (a, b) = longest_marker_prefixes_longest (u ++ v) marker markers in
    let (absent, rest) = ||_false (starts_with marker v) (begins markers v) h in
    elim (Bool-cases (starts_with marker (v ++ more))) [
      | inr e ↦ rw (begins, e) (begins-append markers u v more rest (omega (arith, b, l)))
      | inl e ↦ elim (starts_with-append marker v more e) [
        | inl s ↦ absurd (let f = absent in cc)
        | inr s ↦ absurd (omega (arith, longest_marker_prefix_longest u v marker s, a, l))
      ]
    ]

later-none : (i : Option ℕ) → later i ≡ none → i ≡ none
later-none none h = refl
later-none (some i) h = absurd (let a = h in cc)

earlier-none : (i j : Option ℕ) → earlier i j ≡ none → (i ≡ none) × (j ≡ none)
earlier-none none j h = (refl, h)
earlier-none (some i) none h = absurd (let a = h in cc)
earlier-none (some i) (some j) h = absurd (let a = h in cc)

earliest_nil : (markers : List Text) → earliest markers [] ≡ none → begins markers [] ≡ false
unfolding earliest begins find
earliest_nil [] h = refl
earliest_nil (marker ∷ markers) h =
    let (a, b) = earlier-none _ _ h in
    elim (Bool-cases (starts_with marker [])) [
      | inr e ↦ rw (begins, e) (earliest_nil markers b)
      | inl e ↦ absurd (let c = sym (if_then _ (some 0) none e) ∙ a in cc)
    ]

if_none : (b : Bool) (i : Option ℕ) → (if b then some 0 else i) ≡ none → (b ≡ false) × (i ≡ none)
if_none true i h = absurd (let a = h in cc)
if_none false i h = (refl, h)

-- where nothing is found, no marker starts anywhere
pub earliest-begins :
    (markers : List Text) (u v : Text) → earliest markers (u ++ v) ≡ none → begins markers v ≡ false
earliest-begins markers [] [] h = earliest_nil markers h
earliest-begins markers [] (x ∷ v) h =
    (if_none (begins markers (x ∷ v)) _ (sym (earliest_step markers x v) ∙ h)).0
earliest-begins markers (x ∷ u) v h =
    earliest-begins markers u v
      (later-none _ (if_none _ _ (sym (earliest_step markers x (u ++ v)) ∙ h)).1)

emitted-IsQuiet :
    (markers : List Text) (u p r more : Text)
    → earliest markers (u ++ (p ++ r)) ≡ none
    → length (longest_marker_prefixes (u ++ (p ++ r)) markers) ≤ length r
    → IsQuiet markers p (r ++ more)
emitted-IsQuiet markers u [] r more h l = tt
emitted-IsQuiet markers u (x ∷ p) r more h l =
    let here =
      begins-append markers u (x ∷ p ++ r) more (earliest-begins markers u (x ∷ p ++ r) h)
        (omega (arith, l, length-append p r)) in
    let same : (u ++ x ∷ []) ++ (p ++ r) ≡ u ++ (x ∷ p ++ r) = append_assoc u (x ∷ []) (p ++ r) in
    (
      ap (λ t. begins markers (x ∷ t)) (sym (append_assoc p r more)) ∙ here,
      emitted-IsQuiet markers (u ++ x ∷ []) p r more (ap (earliest markers) same ∙ h)
          (subst (λ t. length (longest_marker_prefixes t markers) ≤ length r) (sym same) l),
    )

-- Where no marker is in a text, none will start in what is not retained of it.
pub retained-IsQuiet :
    (markers : List Text) (text more : Text)
    → earliest markers text ≡ none
    → IsQuiet markers
        (take (length text - length (longest_marker_prefixes text markers)) text)
        (longest_marker_prefixes text markers ++ more)
retained-IsQuiet markers text more h =
    let r = longest_marker_prefixes text markers in
    let p = take (length text - length r) text in
    let same : p ++ r ≡ text = longest_marker_prefixes-IsTail text markers in
    emitted-IsQuiet markers [] p r more (ap (earliest markers) same ∙ h)
      (subst (λ t. length (longest_marker_prefixes t markers) ≤ length r) (sym same) (omega arith))
