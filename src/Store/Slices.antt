-- ===== src/Store/Slices.antt =====
-- Slices of a file, and slices of slices.
use serve_mlx.Base.{
  ℕ, zero, suc, ◌+◌, ◌-◌, ◌≤◌, ◌≡◌, refl, sym, ap, ◌∙◌, List, [], ◌∷◌, length, take, drop, arith,
}
use serve_mlx.Store.{Bytes, slice}

module _ {A : Type 0} where
  length-drop : (k : ℕ) (l : List A) → length (drop k l) ≡ length l - k
  length-drop zero l = omega arith
  length-drop (suc k) [] = omega arith
  length-drop (suc k) (x ∷ l) = omega (arith, length-drop k l)

  length-take : (n : ℕ) (l : List A) → n ≤ length l → length (take n l) ≡ n
  length-take zero l h = refl
  length-take (suc n) [] h = omega (arith, h)
  length-take (suc n) (x ∷ l) h = omega (arith, length-take n l (omega (arith, h)))

  take-nil : (n : ℕ) → take {A = A} n [] ≡ []
  take-nil zero = refl
  take-nil (suc n) = refl

  drop-nil : (n : ℕ) → drop {A = A} n [] ≡ []
  drop-nil zero = refl
  drop-nil (suc n) = refl

  drop-drop : (k o : ℕ) (l : List A) → drop k (drop o l) ≡ drop (o + k) l
  drop-drop k zero l = let e : k ≡ 0 + k = omega arith in rw (← e) refl
  drop-drop k (suc o) [] = let e : suc (o + k) ≡ suc o + k = omega arith in rw (← e) (drop-nil k)
  drop-drop k (suc o) (x ∷ l) =
      let e : suc (o + k) ≡ suc o + k = omega arith in rw (← e) (drop-drop k o l)

  take-take : (n m : ℕ) (l : List A) → n ≤ m → take n (take m l) ≡ take n l
  take-take zero m l h = refl
  take-take (suc n) zero l h = absurd (omega (arith, h))
  take-take (suc n) (suc m) [] h = refl
  take-take (suc n) (suc m) (x ∷ l) h = ap (◌∷◌ x) (take-take n m l (omega (arith, h)))

  drop-take : (k t : ℕ) (l : List A) → drop k (take t l) ≡ take (t - k) (drop k l)
  drop-take zero t l = let e : t ≡ t - 0 = omega arith in rw (← e) refl
  drop-take (suc k) zero l = let e : 0 ≡ 0 - suc k = omega arith in rw (← e) refl
  drop-take (suc k) (suc t) [] = sym (take-nil (suc t - suc k))
  drop-take (suc k) (suc t) (x ∷ l) =
      let e : t - k ≡ suc t - suc k = omega arith in rw (← e) (drop-take k t l)

pub length-slice : (o n : ℕ) (l : Bytes) → o + n ≤ length l → length (slice o n l) ≡ n
length-slice o n l h = length-take n (drop o l) (omega (arith, length-drop o l, h))

-- a slice within what a slice covers is a slice of the whole
pub slice-slice :
    (o t p n : ℕ) (l : Bytes) → o ≤ p → p + n ≤ o + t → slice (p - o) n (slice o t l) ≡ slice p n l
slice-slice o t p n l le within =
    let same : o + (p - o) ≡ p = omega (arith, le) in
    ap (take n) (drop-take (p - o) t (drop o l))
    ∙ take-take n (t - (p - o)) (drop (p - o) (drop o l)) (omega (arith, le, within))
    ∙ ap (take n) (drop-drop (p - o) o l ∙ ap (λ k. drop k l) same)
