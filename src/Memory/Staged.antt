-- ===== src/Memory/Staged.antt =====
-- The stages of the pressure handler: what each answers, logs and does to the cache.
use mathlib.Core.Path.{subst}
use serve_mlx.Base.{
  ℕ, ◌+◌, ◌-◌, ◌≤◌, ◌<◌, ◌≡◌, refl, sym, ◌∙◌, ap, ◌⊎◌, append-nil, if_then, if_else, leb, leb-cases,
  List, some, true, Result, ok, raise, arith, if◌then◌else◌, memory_pressure, memory_budget,
  continue, max, inl, inr, ◌++◌, ◌∷◌, [],
}
use serve_mlx.Base.Int.{pos}
use serve_mlx.Resident.{ResidentCache, evict_to, resize, minimum_entry_bytes}
use serve_mlx.Resident.Shed.{shed, pinned_bytes}
use serve_mlx.Resident.Budget.{IsValid, evict_to-Freed, Resized, resize-Resized}
use serve_mlx.Memory.{
  MemorySnapshot, MemoryPressureEvent, MemoryBudgetDecision, System, PressureAction, event,
  at_level, record_event, try_cache, relieve, enforce, or_one, disable_prefetch, evict, shrink,
  reject,
}
use serve_mlx.Memory.Pressure.{under_pressure, or_one-pos, target, enforce_later}

zero_more : (n : ℕ) → n + 0 ≡ n
zero_more n = omega arith

module _ {A : Type 0} where
  -- the call returned an event of this action, and logged just that one
  abbrev pub Answered :
      PressureAction → MemorySnapshot → System A → Result MemoryPressureEvent × System A → Type 0
  Answered what snapshot s r =
      (r.0 ≡ ok (event what snapshot s.cache.resident_bytes r.1.cache))
      × (r.1.manager.events
          ≡ s.manager.events ++ event what snapshot s.cache.resident_bytes r.1.cache ∷ [])

  -- the call raised MemoryPressureError, and logged just these events
  abbrev pub Refused :
      List MemoryPressureEvent → System A → Result MemoryPressureEvent × System A → Type 0
  Refused logged s r =
      (r.0 ≡ raise memory_pressure) × (r.1.manager.events ≡ s.manager.events ++ logged)

  -- the call of the cache in the second and the third stage
  abbrev staged :
      PressureAction
      → ℕ
      → MemorySnapshot
      → System A
      → Result (Unit {0}) × ResidentCache A
      → Result MemoryPressureEvent × System A
  staged what level snapshot s m =
      continue (try_cache m (at_level level s))
        (λ _. record_event what snapshot s.cache.resident_bytes)

  staged-Answered :
      (what : PressureAction) (level : ℕ) (snapshot : MemorySnapshot) (s : System A)
      (m : Result (Unit {0}) × ResidentCache A)
      → m.0 ≡ ok tt
      → Answered what snapshot s (staged what level snapshot s m)
        × ((staged what level snapshot s m).1.cache ≡ m.1)
  unfolding try_cache record_event
  staged-Answered what level snapshot s (ok tt, c) h = ((refl, refl), refl)
  staged-Answered what level snapshot s (raise e, c) h = absurd (let x = h in cc)

  staged-Refused :
      (what : PressureAction) (level : ℕ) (snapshot : MemorySnapshot) (s : System A)
      (m : Result (Unit {0}) × ResidentCache A)
      → m.0 ≡ raise memory_budget
      → Refused [] s (staged what level snapshot s m)
        × ((staged what level snapshot s m).1.cache ≡ m.1)
  unfolding try_cache record_event
  staged-Refused what level snapshot s (ok tt, c) h = absurd (let x = h in cc)
  staged-Refused what level snapshot s (raise e, c) h =
      let same : e ≡ memory_budget = cc in rw same ((refl, sym (append-nil s.manager.events)), refl)

  -- a call of the cache that sheds entries, and either fits the limit or cannot for what is pinned
  abbrev Shedding :
      PressureAction
      → ℕ
      → MemorySnapshot
      → System A
      → Result MemoryPressureEvent × System A
      → Type 0
  Shedding what limit snapshot s r =
      (r.1.cache.entries ≡ shed (s.cache.resident_bytes - limit) s.cache.entries)
      × (((pinned_bytes s.cache.entries ≤ limit)
            × (Answered what snapshot s r × (r.1.cache.resident_bytes ≤ limit)))
          ⊎ ((limit < pinned_bytes s.cache.entries) × Refused [] s r))

  -- The stages under pressure: ask for no more prefetches, evict to the target, shrink the cache to
  -- the target or to its smallest entry, reject.
  pub record Staged (snapshot : MemorySnapshot) (d : MemoryBudgetDecision) (s : System A)
      (r : Result MemoryPressureEvent × System A) : Type 0 where
    pub first :
        s.manager.pressure_level ≡ 0
        → Answered disable_prefetch snapshot s r × (r.1.cache ≡ s.cache)
    pub second : s.manager.pressure_level ≡ 1 → Shedding evict (target snapshot d s) snapshot s r
    pub third :
        s.manager.pressure_level ≡ 2
        → (let c = max (or_one (minimum_entry_bytes s.cache)) (target snapshot d s) in
            Shedding shrink c snapshot s r
            × (r.1.cache.capacity_bytes
                ≡ (if leb (pinned_bytes s.cache.entries) c then c else s.cache.capacity_bytes)))
    pub last :
        3 ≤ s.manager.pressure_level
        → Refused (event reject snapshot s.cache.resident_bytes s.cache ∷ []) s r
          × (r.1.cache ≡ s.cache)

  staged-Shedding :
      (what : PressureAction) (level limit : ℕ) (snapshot : MemorySnapshot) (s : System A)
      (m : Result (Unit {0}) × ResidentCache A)
      → m.1.entries ≡ shed (s.cache.resident_bytes - limit) s.cache.entries
      → m.0 ≡ (if leb (pinned_bytes s.cache.entries) limit then ok tt else raise memory_budget)
      → (m.0 ≡ ok tt → m.1.resident_bytes ≤ limit)
      → Shedding what limit snapshot s (staged what level snapshot s m)
        × ((staged what level snapshot s m).1.cache ≡ m.1)
  staged-Shedding what level limit snapshot s m entries outcome fits =
      elim (leb-cases (pinned_bytes s.cache.entries) limit) [
        | inl (l, e) ↦
            let good = outcome ∙ if_then _ (ok tt) (raise memory_budget) e in
            let (answered, same) = staged-Answered what level snapshot s m good in
            (
              (
                ap (λ c. c.entries) same ∙ entries,
                inl (l, (answered, omega (arith, fits good, ap (λ c. c.resident_bytes) same))),
              ),
              same,
            )
        | inr (l, e) ↦
            let failed = outcome ∙ if_else _ (ok tt) (raise memory_budget) e in
            let (refused, same) = staged-Refused what level snapshot s m failed in
            ((ap (λ c. c.entries) same ∙ entries, inr (l, refused)), same)
      ]

  at_one :
      (snapshot : MemorySnapshot) (s : System A) (d : MemoryBudgetDecision)
      → s.manager.decision ≡ some d
      → under_pressure snapshot d ≡ true
      → s.manager.pressure_level ≡ 1
      → enforce snapshot s
        ≡ staged evict 2 snapshot s (evict_to (pos (target snapshot d s)) s.cache)
  unfolding relieve
  at_one snapshot s d planned over h =
      enforce_later snapshot s d planned over (ground (arith, h)) ∙ rw (h, relieve) refl

  at_two :
      (snapshot : MemorySnapshot) (s : System A) (d : MemoryBudgetDecision)
      → s.manager.decision ≡ some d
      → under_pressure snapshot d ≡ true
      → s.manager.pressure_level ≡ 2
      → enforce snapshot s
        ≡ staged shrink 3 snapshot s
            (resize (max (or_one (minimum_entry_bytes s.cache)) (target snapshot d s)) s.cache)
  unfolding relieve
  at_two snapshot s d planned over h =
      enforce_later snapshot s d planned over (ground (arith, h)) ∙ rw (h, relieve) refl

  Resized-fits :
      (c : ℕ) (s : ResidentCache A) (r : Result (Unit {0}) × ResidentCache A)
      → Resized c s r
      → r.0 ≡ ok tt
      → r.1.resident_bytes ≤ c
  Resized-fits c s r f h = elim (leb-cases (pinned_bytes s.entries) c) [
    | inl (l, e) ↦
        let same = f.capacity ∙ if_then _ c s.capacity_bytes e in
        omega (arith, f.valid.within, same)
    | inr (l, e) ↦
        let failed = sym h ∙ f.outcome ∙ if_else _ (ok tt) (raise memory_budget) e in
        absurd (let x = failed in cc)
  ]

  staged_first :
      (snapshot : MemorySnapshot) (s : System A) (d : MemoryBudgetDecision)
      → s.manager.decision ≡ some d
      → under_pressure snapshot d ≡ true
      → s.manager.pressure_level ≡ 0
      → Answered disable_prefetch snapshot s (enforce snapshot s)
        × ((enforce snapshot s).1.cache ≡ s.cache)
  unfolding enforce record_event
  staged_first snapshot s d planned over h = ground arith

  staged_last :
      (snapshot : MemorySnapshot) (s : System A) (d : MemoryBudgetDecision)
      → s.manager.decision ≡ some d
      → under_pressure snapshot d ≡ true
      → 3 ≤ s.manager.pressure_level
      → Refused (event reject snapshot s.cache.resident_bytes s.cache ∷ []) s (enforce snapshot s)
        × ((enforce snapshot s).1.cache ≡ s.cache)
  unfolding enforce relieve record_event
  staged_last snapshot s d planned over h = ground arith

  -- Once planned, on a valid cache and under pressure, the level chooses the stage. At 0 the call
  -- returns and logs just the request to stop prefetching, and leaves the cache alone. At 1 it evicts
  -- down to the target, and at 2 it resizes the cache to the larger of the target and its smallest
  -- entry: the least recently used unpinned experts go, no more than needed; if the pinned bytes fit,
  -- the rest fits, and the call returns and logs just the event of the stage; if not, it raises
  -- MemoryPressureError and logs nothing. From 3 on it logs just a rejection, leaves the cache alone
  -- and raises MemoryPressureError.
  pub enforce-Staged :
      (snapshot : MemorySnapshot) (s : System A) (d : MemoryBudgetDecision)
      → s.manager.decision ≡ some d
      → under_pressure snapshot d ≡ true
      → IsValid s.cache
      → Staged snapshot d s (enforce snapshot s)
  enforce-Staged snapshot s d planned over v = record {
    first = staged_first snapshot s d planned over;
    second = λ h.
        let t = target snapshot d s in
        let m = evict_to (pos t) s.cache in
        let f = evict_to-Freed t s.cache v in
        subst (Shedding evict t snapshot s) (sym (at_one snapshot s d planned over h))
          (staged-Shedding evict 2 t snapshot s m
            (f.entries ∙ ap (λ n. shed (n - t) s.cache.entries) (zero_more s.cache.resident_bytes))
            (f.outcome
              ∙ ap (λ n. if leb n t then ok tt else raise memory_budget)
                  (zero_more (pinned_bytes s.cache.entries)))
            (λ good. omega (arith, f.freed good))).0;
    third = λ h.
        let c = max (or_one (minimum_entry_bytes s.cache)) (target snapshot d s) in
        let m = resize c s.cache in
        let f =
          resize-Resized c s.cache (omega (arith, or_one-pos (minimum_entry_bytes s.cache))) v in
        let (shedding, same) =
          staged-Shedding shrink 3 c snapshot s m f.entries f.outcome
            (Resized-fits c s.cache m f) in
        subst
          (λ r.
            Shedding shrink c snapshot s r
            × (r.1.cache.capacity_bytes
                ≡ (if leb (pinned_bytes s.cache.entries) c then c else s.cache.capacity_bytes)))
          (sym (at_two snapshot s d planned over h))
          (shedding, ap (λ z. z.capacity_bytes) same ∙ f.capacity);
    last = staged_last snapshot s d planned over;
  }
