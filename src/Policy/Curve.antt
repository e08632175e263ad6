-- ===== src/Policy/Curve.antt =====
-- The rows of `simulate_lru_curve`.
use serve_mlx.Base.{
  ℕ, suc, ◌==◌, lt→leb_false, value_error, Result-cases, ◌≤◌, ◌<◌, ◌≡◌, refl, Bool, List, [], ◌∷◌,
  arith, ok, raise, some, get_elem?, if◌then◌else◌, Bool-cases, inl, inr, max, zero,
}
use serve_mlx.Policy.{
  ExpertKey, LruCacheSimulator, init, replay, working_set, Row, curve_row, curve_rows,
  simulate_lru_curve,
}
use serve_mlx.Policy.Inclusion.{Includes, replay-Includes}

-- the simulator that `__init__` builds
abbrev pub fresh : ℕ → LruCacheSimulator
fresh n = record {
  capacity_bytes = n;
  entries = [];
  resident_bytes = 0;
  calls = 0;
  hits = 0;
  misses = 0;
  byte_hits = 0;
  byte_misses = 0;
  evictions = 0;
}

fresh-Includes : (a b : ℕ) → 0 < a → a ≤ b → Includes 1 (fresh a) (fresh b)
fresh-Includes a b h le = record {
  small = ground arith;
  large = ground arith;
  fits = h;
  wider = le;
  small_size = tt;
  large_size = tt;
  recent = ([], refl);
  fewer = omega arith;
  same = refl;
}

-- On any trace of unit-sized experts, a larger capacity has at least as many hits, and as many
-- hits and misses together.
pub replay-hits_mono :
    (a b : ℕ) (trace : List ExpertKey)
    → 0 < a
    → a ≤ b
    → (replay 1 trace (fresh a)).1.hits ≤ (replay 1 trace (fresh b)).1.hits
replay-hits_mono a b trace h le =
    (replay-Includes 1 trace (fresh a) (fresh b) (omega arith) (fresh-Includes a b h le)).2.fewer

replay_ok : (trace : List ExpertKey) (n : ℕ) → 0 < n → (replay 1 trace (fresh n)).0 ≡ ok tt
replay_ok trace n h =
    (replay-Includes 1 trace (fresh n) (fresh n) (omega arith)
      (fresh-Includes n n h (omega arith))).0

init-fresh : (n : ℕ) → 0 < n → init n ≡ ok (fresh n)
unfolding init
init-fresh n h = rw (lt→leb_false n 0 h)

module _ {F : Type 0} (in_range : F → Bool) (scale : ℕ → F → ℕ) (trace : List ExpertKey) where
  abbrev capacity : F → ℕ
  capacity f = max 1 (scale (working_set trace) f)

  abbrev row : F → Row F
  row f = record {
    stats = (replay 1 trace (fresh (capacity f))).1;
    capacity_fraction = f;
    capacity_experts = capacity f;
  }

  curve_row_lem :
      (f : F)
      → curve_row in_range scale trace f ≡ (if in_range f then ok (row f) else raise value_error)
  unfolding curve_row
  curve_row_lem f = elim (Bool-cases (in_range f)) [
    | inl p ↦
        rw (p, init-fresh (capacity f) (omega arith), replay_ok trace (capacity f) (omega arith))
    | inr p ↦ rw p
  ]

  rows_lem :
      (fs : List F) (i : ℕ) (rows : List (Row F)) (r : Row F)
      → curve_rows in_range scale trace fs ≡ ok rows
      → get_elem? rows i ≡ some r
      → (f : F) × (r ≡ row f)
  unfolding curve_rows
  rows_lem [] i rows r h e = absurd (ground arith)
  rows_lem (f ∷ fs) i rows r h e = elim (Bool-cases (in_range f)) [
    | inr p ↦ absurd (ground (arith, curve_row_lem f))
    | inl p ↦ elim (Result-cases (curve_rows in_range scale trace fs)) [
      | inr (x, q) ↦ absurd (ground (arith, curve_row_lem f))
      | inl (rest, q) ↦
          later i rest (λ j. rows_lem fs j rest r q) (ground (arith, curve_row_lem f)) e
    ]
  ]
    where
      later :
          (i : ℕ) (rest : List (Row F))
          → ((j : ℕ) → get_elem? rest j ≡ some r → (g : F) × (r ≡ row g))
          → rows ≡ row f ∷ rest
          → get_elem? rows i ≡ some r
          → (g : F) × (r ≡ row g)
      later zero rest ih p e = (f, ground arith)
      later (suc i) rest ih p e = ih i (rw p at e)

-- In a report of `simulate_lru_curve` a row with at least the capacity of another has at least its
-- hits: more cache never costs hits, whatever the trace, the fractions and their order.
pub simulate_lru_curve_mono :
    {F : Type 0} (in_range : F → Bool) (scale : ℕ → F → ℕ) (trace : List ExpertKey) (fs : List F)
    (rows : List (Row F)) (i j : ℕ) (r q : Row F)
    → simulate_lru_curve in_range scale trace fs ≡ ok rows
    → get_elem? rows i ≡ some r
    → get_elem? rows j ≡ some q
    → r.capacity_experts ≤ q.capacity_experts
    → r.stats.hits ≤ q.stats.hits
unfolding simulate_lru_curve
simulate_lru_curve_mono in_range scale trace fs rows i j r q h er eq le =
    elim (Bool-cases (working_set trace == 0)) [
      | inl p ↦ absurd (ground arith)
      | inr p ↦
          let (f, a) = rows_lem in_range scale trace fs i rows r (rw p at h) er in
          let (g, b) = rows_lem in_range scale trace fs j rows q (rw p at h) eq in
          rw (a, b) (replay-hits_mono _ _ trace (omega arith) (rw (a, b) at le))
    ]
