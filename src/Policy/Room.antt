-- ===== src/Policy/Room.antt =====
-- The eviction loop of the simulator, against the longest run of recent entries that fits.
use serve_mlx.Base.{
  ℕ, ◌+◌, ◌-◌, ◌≤◌, ◌≡◌, refl, ap, List, [], ◌∷◌, ◌++◌, arith, leb, ltb, ok, none, if◌then◌else◌,
  length, Bool-cases, inl, inr,
}
use serve_mlx.Dict.{lookup, IsDict, total}
use serve_mlx.Policy.{ExpertKey, ExpertKey-discrete, LruCacheSimulator, make_room}

abbrev pub bytes : List (ExpertKey × ℕ) → ℕ
bytes = total (λ n. n)

-- The longest run of most recent entries that holds at most `budget` bytes.
unfoldable pub keep : ℕ → List (ExpertKey × ℕ) → List (ExpertKey × ℕ)
keep budget [] = []
keep budget (e ∷ d) = if leb (bytes (e ∷ d)) budget then e ∷ d else keep budget d

pub keep_fits : (budget : ℕ) (d : List (ExpertKey × ℕ)) → bytes (keep budget d) ≤ budget
unfolding keep
keep_fits budget [] = omega arith
keep_fits budget (e ∷ d) = ground (arith, keep_fits budget d)

pub keep_all : (budget : ℕ) (d : List (ExpertKey × ℕ)) → bytes d ≤ budget → keep budget d ≡ d
unfolding keep
keep_all budget [] h = refl
keep_all budget (e ∷ d) h = ground arith

-- What is not kept is a run of the least recent entries.
pub keep_suffix :
    (budget : ℕ) (d : List (ExpertKey × ℕ))
    → (old : List (ExpertKey × ℕ)) × (d ≡ old ++ keep budget d)
unfolding keep
keep_suffix budget [] = ([], refl)
keep_suffix budget (e ∷ d) = elim (Bool-cases (leb (bytes (e ∷ d)) budget)) [
  | inl fits ↦ ([], rw fits)
  | inr over ↦ let (old, p) = keep_suffix budget d in (e ∷ old, rw over (ap (◌∷◌ e) p))
]

pub keep-lookup-none :
    (budget : ℕ) (k : ExpertKey) (d : List (ExpertKey × ℕ))
    → lookup ExpertKey-discrete k d ≡ none
    → lookup ExpertKey-discrete k (keep budget d) ≡ none
unfolding keep lookup
keep-lookup-none budget k [] h = h
keep-lookup-none budget k (e ∷ d) h = ground (arith, keep-lookup-none budget k d)

pub keep-IsDict :
    (budget : ℕ) (d : List (ExpertKey × ℕ))
    → IsDict ExpertKey-discrete d
    → IsDict ExpertKey-discrete (keep budget d)
unfolding keep
keep-IsDict budget [] h = h
keep-IsDict budget (e ∷ d) h = elim (Bool-cases (leb (bytes (e ∷ d)) budget)) [
  | inl fits ↦ rw fits h
  | inr over ↦ rw over (keep-IsDict budget d h.1)
]

-- What the loop leaves: it ends normally, and has evicted just what `keep` does not keep.
pub record Roomy (nbytes : ℕ) (s t : LruCacheSimulator) : Type 0 where
  pub capacity : t.capacity_bytes ≡ s.capacity_bytes
  pub kept : t.entries ≡ keep (s.capacity_bytes - nbytes) s.entries
  pub accounted : t.resident_bytes ≡ bytes t.entries
  pub counts :
      (t.calls ≡ s.calls)
      × (t.hits ≡ s.hits)
      × (t.misses ≡ s.misses)
      × (t.byte_hits ≡ s.byte_hits)
      × (t.byte_misses ≡ s.byte_misses)
  pub evicted : t.evictions + length t.entries ≡ s.evictions + length s.entries

pub make_room-Roomy :
    (nbytes : ℕ) (d : List (ExpertKey × ℕ)) (s : LruCacheSimulator)
    → s.entries ≡ d
    → s.resident_bytes ≡ bytes d
    → nbytes ≤ s.capacity_bytes
    → (t : LruCacheSimulator) × (make_room nbytes d s ≡ (ok tt, t)) × Roomy nbytes s t
unfolding make_room keep
make_room-Roomy nbytes [] s e r h = (s, ground arith, ground arith)
make_room-Roomy nbytes ((k, b) ∷ d) s e r h =
    elim (Bool-cases (ltb s.capacity_bytes (s.resident_bytes + nbytes))) [
      | inl over ↦
          let (t, p, q) =
            make_room-Roomy nbytes d
              (record s {
                entries = d;
                resident_bytes = s.resident_bytes - b;
                evictions = s.evictions + 1;
              })
              refl (omega arith) h in
          (t, rw over p, ground (arith, q.kept))
      | inr fits ↦ (s, rw fits, ground arith)
    ]
