-- ===== src/Base/Loops.antt =====
-- Loops of checks: a body for each element or number, which may raise. What such code checks is
-- read off by the lemmas: it returns just if each of its checks does.
use Prim.Native.Nat.{ℕ, zero, suc, ◌+◌, ◌<◌, ◌≤◌}
use mathlib.Core.Path.{◌≡◌, refl}
use mathlib.Core.Logic.{◌↔◌}
use mathlib.Core.Bool.{Bool, true, false, ◌&&◌}
use mathlib.Core.List.{List, [], ◌∷◌}
use native.Mathlib.Omega.{arith}
use native.Mathlib.Decide.{ℕ_discrete}
use serve_mlx.Base.Tests.{&&_iff}
use serve_mlx.Base.Methods.{Result, Error, ok, raise, guard, ◌>>◌}

abbrev pub Check : Type 0
Check = Result (Unit {0})

-- the check returns
abbrev pub Passes : Check → Type 0
Passes m = m ≡ ok tt

-- `for x in xs: body(x)`
unfoldable pub for_each : {A : Type 0} → (A → Check) → List A → Check
for_each body [] = ok tt
for_each body (x ∷ xs) = body x >> for_each body xs

-- `for k in range(i, i + n): body(k)`
unfoldable pub for_range : ℕ → ℕ → (ℕ → Check) → Check
for_range zero i body = ok tt
for_range (suc n) i body = body i >> for_range n (i + 1) body

abbrev pub All {ℓ κ} : {A : Type ℓ} → (A → Type κ) → List A → Type κ
All p [] = Unit
All p (x ∷ xs) = p x × All p xs

pub guard-Passes : (b : Bool) (e : Error) → Passes (guard b e) ↔ (b ≡ true)
guard-Passes true e = ((λ h. refl), (λ h. refl))
guard-Passes false e = ((λ h. absurd (let x = h in cc)), (λ h. absurd (let x = h in cc)))

pub >>-Passes : (m k : Check) → Passes (m >> k) ↔ (Passes m × Passes k)
>>-Passes (ok tt) k = ((λ h. (refl, h)), (λ h. h.1))
>>-Passes (raise e) k = ((λ h. absurd (let x = h in cc)), (λ h. absurd (let x = h.0 in cc)))

module _ {A : Type 0} {P : A → Type 0} (body : A → Check)
    (each : (x : A) → Passes (body x) ↔ P x) where
  pub for_each-Passes : (xs : List A) → Passes (for_each body xs) ↔ All P xs
  unfolding for_each
  for_each-Passes [] = ((λ h. tt), (λ h. refl))
  for_each-Passes (x ∷ xs) =
      let s = >>-Passes (body x) (for_each body xs) in
      (
        (λ h. ((each x).0 (s.0 h).0, (for_each-Passes xs).0 (s.0 h).1)),
        (λ h. s.1 ((each x).1 h.0, (for_each-Passes xs).1 h.1)),
      )

module _ {P : ℕ → Type 0} (body : ℕ → Check) (each : (k : ℕ) → Passes (body k) ↔ P k) where
  for_range_from : (n i : ℕ) → Passes (for_range n i body) ↔ ((k : ℕ) → i ≤ k → k < i + n → P k)
  unfolding for_range
  for_range_from zero i = ((λ h k le lt. absurd (omega (arith, le, lt))), (λ h. refl))
  for_range_from (suc n) i =
      let s = >>-Passes (body i) (for_range n (i + 1) body) in
      let rest = for_range_from n (i + 1) in
      (
        (λ h k le lt. elim (ℕ_discrete i k) [
          | yes e ↦ rw (← e) ((each i).0 (s.0 h).0)
          | no ne ↦ rest.0 (s.0 h).1 k (omega (arith, le, ne)) (omega (arith, lt))
        ]),
        (λ h. s.1 (
          (each i).1 (h i (omega arith) (omega arith)),
          rest.1 (λ k le lt. h k (omega (arith, le)) (omega (arith, lt))),
        )),
      )

  pub for_range-Passes : (n : ℕ) → Passes (for_range n 0 body) ↔ ((k : ℕ) → k < n → P k)
  for_range-Passes n =
      let f = for_range_from n 0 in
      (
        (λ h k lt. f.0 h k (omega arith) (omega (arith, lt))),
        (λ h. f.1 (λ k le lt. h k (omega (arith, lt)))),
      )

-- What a sequence of checks checks, part by part.
pub both : {m k : Check} {A B : Type 0} → Passes m ↔ A → Passes k ↔ B → Passes (m >> k) ↔ (A × B)
both {m} {k} f g =
    let s = >>-Passes m k in ((λ h. (f.0 (s.0 h).0, g.0 (s.0 h).1)), (λ h. s.1 (f.1 h.0, g.1 h.1)))

pub guarded : {b : Bool} {A : Type 0} (e : Error) → (b ≡ true) ↔ A → Passes (guard b e) ↔ A
guarded {b} e f = let g = guard-Passes b e in ((λ h. f.0 (g.0 h)), (λ a. g.1 (f.1 a)))

pub and_both :
    {a b : Bool} {A B : Type 0} → (a ≡ true) ↔ A → (b ≡ true) ↔ B → ((a && b) ≡ true) ↔ (A × B)
and_both {a} {b} f g =
    let s = &&_iff a b in ((λ h. (f.0 (s.0 h).0, g.0 (s.0 h).1)), (λ h. s.1 (f.1 h.0, g.1 h.1)))
