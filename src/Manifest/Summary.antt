-- ===== src/Manifest/Summary.antt =====
-- The working set bounds every bundle, tightly.
use mathlib.Core.Path.{subst}
use serve_mlx.Base.{
  ℕ, ◌+◌, ◌<◌, ◌≡◌, refl, sym, List, [], ◌∷◌, length, map, ok, All, leb-cases, inl, inr, arith,
  ok-injective, if◌then◌else◌, if_then, if_else, ◌⊎◌,
}
use serve_mlx.Base.Int.{ℤ, pos_part, neg_part, leb_ℤ, ◌≤ℤ◌}
use serve_mlx.Manifest.{
  ModelManifest, ExpertWorkingSet, sum_ℤ, least, greatest, summarize, expert_working_set,
}

-- one of the elements
abbrev pub OneOf : ℤ → List ℤ → Type 0
OneOf x [] = ⊥
OneOf x (y ∷ ys) = (x ≡ y) ⊎ OneOf x ys

All-map {ℓ} :
    {A : Type ℓ} {P Q : A → Type 0} → ((x : A) → P x → Q x) → (xs : List A) → All P xs → All Q xs
All-map f [] h = tt
All-map f (x ∷ xs) h = (f x h.0, All-map f xs h.1)

abbrev IsLeast : List ℤ → ℤ → Type 0
IsLeast xs l = All (λ y. l ≤ℤ y) xs × OneOf l xs

abbrev IsGreatest : List ℤ → ℤ → Type 0
IsGreatest xs g = All (λ y. y ≤ℤ g) xs × OneOf g xs

least_step :
    (x y : ℤ) (ys : List ℤ) → least x (y ∷ ys) ≡ (if leb_ℤ x (least y ys) then x else least y ys)
unfolding least
least_step x y ys = refl

greatest_step :
    (x y : ℤ) (ys : List ℤ)
    → greatest x (y ∷ ys) ≡ (if leb_ℤ (greatest y ys) x then x else greatest y ys)
unfolding greatest
greatest_step x y ys = refl

choose-IsLeast :
    (x l : ℤ) (ys : List ℤ) → IsLeast ys l → IsLeast (x ∷ ys) (if leb_ℤ x l then x else l)
choose-IsLeast x l ys (below, among) =
    elim (leb-cases (pos_part x + neg_part l) (pos_part l + neg_part x)) [
      | inl (le, e) ↦
          subst (IsLeast (x ∷ ys)) (sym (if_then (leb_ℤ x l) x l e))
            ((omega arith, All-map (λ z h. omega (arith, h, le)) ys below), inl refl)
      | inr (lt, e) ↦
          subst (IsLeast (x ∷ ys)) (sym (if_else (leb_ℤ x l) x l e))
            ((omega (arith, lt), below), inr among)
    ]

choose-IsGreatest :
    (x g : ℤ) (ys : List ℤ) → IsGreatest ys g → IsGreatest (x ∷ ys) (if leb_ℤ g x then x else g)
choose-IsGreatest x g ys (above, among) =
    elim (leb-cases (pos_part g + neg_part x) (pos_part x + neg_part g)) [
      | inl (le, e) ↦
          subst (IsGreatest (x ∷ ys)) (sym (if_then (leb_ℤ g x) x g e))
            ((omega arith, All-map (λ z h. omega (arith, h, le)) ys above), inl refl)
      | inr (lt, e) ↦
          subst (IsGreatest (x ∷ ys)) (sym (if_else (leb_ℤ g x) x g e))
            ((omega (arith, lt), above), inr among)
    ]

least_lem : (x : ℤ) (xs : List ℤ) → IsLeast (x ∷ xs) (least x xs)
least_lem x [] = unfold least in ((omega arith, tt), inl refl)
least_lem x (y ∷ ys) =
    subst (IsLeast (x ∷ y ∷ ys)) (sym (least_step x y ys))
      (choose-IsLeast x (least y ys) (y ∷ ys) (least_lem y ys))

greatest_lem : (x : ℤ) (xs : List ℤ) → IsGreatest (x ∷ xs) (greatest x xs)
greatest_lem x [] = unfold greatest in ((omega arith, tt), inl refl)
greatest_lem x (y ∷ ys) =
    subst (IsGreatest (x ∷ y ∷ ys)) (sym (greatest_step x y ys))
      (choose-IsGreatest x (greatest y ys) (y ∷ ys) (greatest_lem y ys))

-- What a summary says of the byte counts of the bundles.
pub record Summarized {G : Type 0} (counts : List ℤ) (w : ExpertWorkingSet G) : Type 0 where
  pub total : w.total_bytes ≡ sum_ℤ counts
  pub count : w.bundle_count ≡ length counts
  pub some_bundle : 0 < w.bundle_count
  pub above : All (λ n. w.min_bundle_bytes ≤ℤ n) counts
  pub below : All (λ n. n ≤ℤ w.max_bundle_bytes) counts
  pub tight : OneOf w.min_bundle_bytes counts × OneOf w.max_bundle_bytes counts

module _ {P F G : Type 0} (divide : ℤ → ℕ → G) (per_token : ℤ → ℤ → G → G) where
  summarize-Summarized :
      (m : ModelManifest P F) (counts : List ℤ) (w : ExpertWorkingSet G)
      → summarize divide per_token m counts ≡ ok w
      → Summarized counts w
  unfolding summarize
  summarize-Summarized m [] w h = absurd (let x = h in cc)
  summarize-Summarized m (x ∷ xs) w h = rw (← ok-injective h) (record {
    total = refl;
    count = refl;
    some_bundle = omega arith;
    above = (least_lem x xs).0;
    below = (greatest_lem x xs).0;
    tight = ((least_lem x xs).1, (greatest_lem x xs).1);
  })

  -- A summary is made only of a manifest with bundles. It has their number and the sum of their
  -- bytes, and the least and the greatest of their byte counts, which bound each of them.
  pub expert_working_set-Summarized :
      (m : ModelManifest P F) (w : ExpertWorkingSet G)
      → expert_working_set divide per_token m ≡ ok w
      → Summarized (map (λ e. e.1.total_bytes) m.expert_bundles) w
  unfolding expert_working_set
  expert_working_set-Summarized m w h =
      summarize-Summarized m (map (λ e. e.1.total_bytes) m.expert_bundles) w h
