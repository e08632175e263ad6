-- ===== src/Policy/Tests.antt =====
-- Runs of the simulator, and the theorems at concrete traces.
use serve_mlx.Base.{
  ℕ, ◌+◌, ◌*◌, ◌/◌, ◌≤◌, ◌≡◌, ◌↔◌, refl, inl, none, Bool, List, [], ◌∷◌, ok, raise, value_error,
  arith, is_some, leb, ltb, ◌&&◌,
}
use serve_mlx.Dict.{lookup, put, put_last}
use serve_mlx.Policy.{
  ExpertKey, ExpertKey-discrete, LruCacheSimulator, Row, access, replay, simulate_lru_curve,
}
use serve_mlx.Policy.Access.{
  IsValid, Accessed, access-Accessed, IsRefused, access_raises, access-IsValid,
}
use serve_mlx.Policy.Curve.{fresh, simulate_lru_curve_mono}

abbrev key : ℕ → ExpertKey
key n = record { layer = 0; expert = n }

abbrev trace : List ExpertKey
trace = key 1 ∷ key 2 ∷ key 1 ∷ key 3 ∷ key 1 ∷ []

-- fractions in percent
abbrev in_range : ℕ → Bool
in_range f = ltb 0 f && leb f 100

abbrev scale : ℕ → ℕ → ℕ
scale n f = (n * f + 99) / 100

abbrev row : ℕ → ℕ → Row ℕ
row f n = record {
  stats = (replay 1 trace (fresh n)).1;
  capacity_fraction = f;
  capacity_experts = n;
}

curve :
    simulate_lru_curve in_range scale trace (20 ∷ 50 ∷ 100 ∷ [])
    ≡ ok (row 20 1 ∷ row 50 2 ∷ row 100 3 ∷ [])
unfolding simulate_lru_curve lookup put put_last ExpertKey-discrete
curve = refl

-- with room for one expert nothing hits, with room for two the returning one does
hits : ((replay 1 trace (fresh 1)).1.hits ≡ 0) × ((replay 1 trace (fresh 2)).1.hits ≡ 2)
unfolding replay lookup put put_last ExpertKey-discrete
hits = (refl, refl)

simulate_lru_curve_mono_example : (row 20 1).stats.hits ≤ (row 50 2).stats.hits
simulate_lru_curve_mono_example =
    simulate_lru_curve_mono in_range scale trace (20 ∷ 50 ∷ 100 ∷ [])
      (row 20 1 ∷ row 50 2 ∷ row 100 3 ∷ []) 0 1 (row 20 1) (row 50 2) curve refl refl (omega arith)

abbrev full : LruCacheSimulator
full = record (fresh 10) {
  entries = (key 1, 4) ∷ (key 2, 5) ∷ [];
  resident_bytes = 9;
  calls = 2;
  misses = 2;
  byte_misses = 9;
}

full-IsValid : IsValid full
unfolding lookup ExpertKey-discrete
full-IsValid = record {
  positive = omega arith;
  accounted = refl;
  within = omega arith;
  distinct = (refl, (refl, tt));
  counted = omega arith;
}

absent : lookup ExpertKey-discrete (key 3) full.entries ≡ none
unfolding lookup ExpertKey-discrete
absent = refl

access-Accessed_example :
    ((access (key 3) 5 full).0 ≡ ok (is_some (lookup ExpertKey-discrete (key 3) full.entries)))
    × Accessed (key 3) 5 full (access (key 3) 5 full).1
access-Accessed_example = access-Accessed (key 3) 5 full full-IsValid (omega arith) (inl absent)

access_raises_example :
    (((access (key 1) 5 full).0 ≡ raise value_error)
      ↔ ((value_error ≡ value_error) × IsRefused (key 1) 5 full))
    × ((access (key 1) 5 full).0 ≡ raise value_error
        → (access (key 1) 5 full).1.entries ≡ full.entries)
access_raises_example = access_raises (key 1) 5 full value_error full-IsValid

access-IsValid_example : IsValid (access (key 1) 5 full).1
access-IsValid_example = access-IsValid (key 1) 5 full full-IsValid
