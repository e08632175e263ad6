-- ===== src/Memory/Pressure.antt =====
-- The pressure handler keeps the cache sound, and its level.
use serve_mlx.Base.{
  ℕ, ◌+◌, ◌-◌, ◌/◌, ◌≤◌, ◌<◌, ◌≡◌, refl, ap, Option, some, Bool, true, false, not, Result, ok,
  raise, arith, ◌==◌, if◌then◌else◌, continue, min, max, Bool-cases, Option-cases, inl, inr, ◌∷◌,
  [],
}
use serve_mlx.Base.Int.{pos, ◌-ℤ◌, leb_ℤ, pos_part}
use serve_mlx.Dict.{lookup}
use serve_mlx.Policy.{ExpertKey, ExpertKey-discrete as K}
use serve_mlx.Resident.{
  ResidentCache, ResidentExpert, evict_to, resize, minimum_entry_bytes, minimum_bytes, Entries,
  bytes,
}
use serve_mlx.Resident.Shed.{shed-bytes-le}
use serve_mlx.Resident.Budget.{IsValid, Freed, evict_to-Freed, Resized, resize-Resized}
use serve_mlx.Memory.{
  MemorySnapshot, MemoryBudgetDecision, System, PressureAction, at_level, record_event, try_cache,
  relieve, enforce, or_one, evict, shrink,
}

-- the manager sees more active memory than the plan allows
abbrev pub under_pressure : MemorySnapshot → MemoryBudgetDecision → Bool
under_pressure snapshot d =
    not (leb_ℤ (pos snapshot.mlx_active_memory_bytes) d.safe_working_set_bytes)

pub or_one-pos : (o : Option ℕ) → 0 < or_one o
or_one-pos o = ground arith

module _ {A : Type 0} where
  -- A call of the cache that keeps it valid, keeps what is pinned, and frees or keeps bytes.
  pub record Kept (s t : ResidentCache A) : Type 0 where
    pub valid : IsValid t
    pub fewer : t.resident_bytes ≤ s.resident_bytes
    pub smaller : t.capacity_bytes ≤ s.capacity_bytes
    pub pinned :
        (q : ExpertKey) (e : ResidentExpert A)
        → lookup K q s.entries ≡ some e
        → 0 < e.pin_count
        → lookup K q t.entries ≡ some e

  Kept-refl : (s : ResidentCache A) → IsValid s → Kept s s
  Kept-refl s v = record {
    valid = v;
    fewer = omega arith;
    smaller = omega arith;
    pinned = λ q e h p. h;
  }

  Kept-of_Freed :
      (limit n : ℕ) (s : ResidentCache A) (r : Result (Unit {0}) × ResidentCache A)
      → IsValid s
      → Freed limit n s r
      → Kept s r.1
  Kept-of_Freed limit n s r v f = record {
    valid = f.valid;
    fewer = omega (
      arith,
      f.valid.sound.accounted,
      v.sound.accounted,
      ap bytes f.entries,
      shed-bytes-le (s.resident_bytes + n - limit) s.entries,
    );
    smaller = omega (arith, ap (λ (z : ResidentCache A). z.capacity_bytes) f.frame);
    pinned = f.pinned;
  }

  Kept-of_Resized :
      (c : ℕ) (s : ResidentCache A) (r : Result (Unit {0}) × ResidentCache A)
      → c ≤ s.capacity_bytes
      → IsValid s
      → Resized c s r
      → Kept s r.1
  Kept-of_Resized c s r h v f = record {
    valid = f.valid;
    fewer = omega (
      arith,
      f.valid.sound.accounted,
      v.sound.accounted,
      ap bytes f.entries,
      shed-bytes-le (s.resident_bytes - c) s.entries,
    );
    smaller = ground (arith, f.capacity);
    pinned = f.pinned;
  }

  try_cache-cache :
      (r : Result (Unit {0}) × ResidentCache A) (s : System A) → (try_cache r s).1.cache ≡ r.1
  unfolding try_cache
  try_cache-cache (ok tt, c) s = refl
  try_cache-cache (raise e, c) s = ground arith

  -- recording an event leaves the cache alone, also behind a call that may have raised
  continue-record_event-cache :
      (m : Result (Unit {0}) × System A) (a : PressureAction) (p : MemorySnapshot) (n : ℕ)
      → (continue m (λ _. record_event a p n)).1.cache ≡ m.1.cache
  unfolding record_event
  continue-record_event-cache (ok tt, s) a p n = refl
  continue-record_event-cache (raise e, s) a p n = refl

  minimum_bytes-le-bytes : (d : Entries A) (n : ℕ) → minimum_bytes d ≡ some n → n ≤ bytes d
  unfolding minimum_bytes
  minimum_bytes-le-bytes [] n h = absurd (cc)
  minimum_bytes-le-bytes ((k, e) ∷ d) n h = elim (Option-cases (minimum_bytes d)) [
    | inl nothing ↦ ground arith
    | inr (m, found) ↦ ground (arith, minimum_bytes-le-bytes d m)
  ]

  -- the new capacity is positive and at most the old one
  minimum_bytes-le :
      (s : ResidentCache A) → IsValid s → or_one (minimum_entry_bytes s) ≤ s.capacity_bytes
  minimum_bytes-le s v = elim (Option-cases (minimum_entry_bytes s)) [
    | inl nothing ↦ rw nothing v.positive
    | inr (n, found) ↦
        let least = minimum_bytes-le-bytes s.entries n found in
        rw found (ground (arith, v.positive, v.within, v.sound.accounted, least))
  ]

  relieve-Kept :
      (p : MemorySnapshot) (level before target : ℕ) (s : System A)
      → IsValid s.cache
      → target ≤ s.cache.capacity_bytes
      → Kept s.cache (relieve p level before target s).1.cache
  unfolding relieve
  relieve-Kept p level before target s v h = elim (Bool-cases (level == 1)) [
    | inl one ↦
        rw
          (
            one,
            continue-record_event-cache (try_cache (evict_to (pos target) s.cache) (at_level 2 s))
                evict p before,
            try_cache-cache (evict_to (pos target) s.cache) (at_level 2 s),
          )
          (Kept-of_Freed target 0 s.cache _ v (evict_to-Freed target s.cache v))
    | inr other ↦ elim (Bool-cases (level == 2)) [
      | inl two ↦
          let c = max (or_one (minimum_entry_bytes s.cache)) target in
          rw
            (
              other,
              two,
              continue-record_event-cache (try_cache (resize c s.cache) (at_level 3 s)) shrink p
                  before,
              try_cache-cache (resize c s.cache) (at_level 3 s),
            )
            (Kept-of_Resized c s.cache _ (omega (arith, minimum_bytes-le s.cache v)) v (
              resize-Resized c s.cache (omega (arith, or_one-pos (minimum_entry_bytes s.cache))) v))
      | inr last ↦ unfold record_event in rw (other, last) (Kept-refl s.cache v)
    ]
  ]

  abbrev pub target : MemorySnapshot → MemoryBudgetDecision → System A → ℕ
  target snapshot d s =
      s.cache.resident_bytes
      - (pos_part (pos snapshot.mlx_active_memory_bytes -ℤ d.safe_working_set_bytes)
          + s.manager.config.safety_margin_bytes / 4)

  -- under pressure, after the first stage
  pub enforce_later :
      (snapshot : MemorySnapshot) (s : System A) (d : MemoryBudgetDecision)
      → s.manager.decision ≡ some d
      → under_pressure snapshot d ≡ true
      → (s.manager.pressure_level == 0) ≡ false
      → enforce snapshot s
        ≡ relieve snapshot s.manager.pressure_level s.cache.resident_bytes (target snapshot d s) s
  unfolding enforce
  enforce_later snapshot s d planned over later = ground arith

  -- Whatever it observes and whatever it raises, the pressure handler keeps the cache valid, keeps
  -- every pinned expert as it is, and never lets the resident bytes or the capacity grow.
  pub enforce-Kept :
      (snapshot : MemorySnapshot) (s : System A)
      → IsValid s.cache
      → Kept s.cache (enforce snapshot s).1.cache
  unfolding enforce record_event
  enforce-Kept snapshot s v = elim (Option-cases s.manager.decision) [
    | inl unplanned ↦ rw unplanned (Kept-refl s.cache v)
    | inr (d, planned) ↦
        elim (Bool-cases (leb_ℤ (pos snapshot.mlx_active_memory_bytes) d.safe_working_set_bytes)) [
          | inl safe ↦ rw (planned, safe) (Kept-refl s.cache v)
          | inr over ↦ elim (Bool-cases (s.manager.pressure_level == 0)) [
            | inl first ↦ rw (planned, over, first) (Kept-refl s.cache v)
            | inr later ↦ rw (enforce_later snapshot s d planned (rw over) later) (
                relieve-Kept snapshot s.manager.pressure_level s.cache.resident_bytes
                  (target snapshot d s) s v (omega (arith, v.within)))
          ]
        ]
  ]

  try_cache-level :
      (r : Result (Unit {0}) × ResidentCache A) (s : System A)
      → (try_cache r s).1.manager.pressure_level ≡ s.manager.pressure_level
  unfolding try_cache
  try_cache-level (ok tt, c) s = refl
  try_cache-level (raise e, c) s = ground arith

  continue-record_event-level :
      (m : Result (Unit {0}) × System A) (a : PressureAction) (p : MemorySnapshot) (n : ℕ)
      → (continue m (λ _. record_event a p n)).1.manager.pressure_level ≡ m.1.manager.pressure_level
  unfolding record_event
  continue-record_event-level (ok tt, s) a p n = refl
  continue-record_event-level (raise e, s) a p n = refl

  relieve-level :
      (p : MemorySnapshot) (level before target : ℕ) (s : System A)
      → 0 < level
      → (relieve p level before target s).1.manager.pressure_level ≡ min 4 (level + 1)
  unfolding relieve record_event
  relieve-level p level before target s h = elim (Bool-cases (level == 1)) [
    | inl one ↦
        rw
          (
            one,
            continue-record_event-level (try_cache (evict_to (pos target) s.cache) (at_level 2 s))
                evict p before,
            try_cache-level (evict_to (pos target) s.cache) (at_level 2 s),
          )
          (ground arith)
    | inr other ↦ elim (Bool-cases (level == 2)) [
      | inl two ↦
          let c = max (or_one (minimum_entry_bytes s.cache)) target in
          rw
            (
              other,
              two,
              continue-record_event-level (try_cache (resize c s.cache) (at_level 3 s)) shrink p
                  before,
              try_cache-level (resize c s.cache) (at_level 3 s),
            )
            (ground arith)
      | inr last ↦ rw (other, last) (ground arith)
    ]
  ]

  -- Once planned, the pressure level goes back to 0 at every call without pressure, and up by one,
  -- to at most 4, at every call under pressure, also where the call raises.
  pub enforce-level :
      (snapshot : MemorySnapshot) (s : System A) (d : MemoryBudgetDecision)
      → s.manager.decision ≡ some d
      → (enforce snapshot s).1.manager.pressure_level
        ≡ (if under_pressure snapshot d then min 4 (s.manager.pressure_level + 1) else 0)
  unfolding enforce record_event
  enforce-level snapshot s d planned =
      elim (Bool-cases (leb_ℤ (pos snapshot.mlx_active_memory_bytes) d.safe_working_set_bytes)) [
        | inl safe ↦ rw (planned, safe)
        | inr over ↦ elim (Bool-cases (s.manager.pressure_level == 0)) [
          | inl first ↦ rw (planned, over, first) (ground arith)
          | inr later ↦
              rw (enforce_later snapshot s d planned (rw over) later, over)
                (relieve-level snapshot s.manager.pressure_level s.cache.resident_bytes
                  (target snapshot d s) s (ground arith))
        ]
      ]
