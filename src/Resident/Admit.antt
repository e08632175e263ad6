-- ===== src/Resident/Admit.antt =====
-- `reserve` and `admit`: what is evicted for a new expert, and that the budget holds.
use serve_mlx.Base.{
  ℕ, ◌+◌, ◌-◌, ◌≤◌, ◌<◌, ◌≡◌, ◌⊎◌, refl, ap, ◌∙◌, none, [], ◌∷◌, ◌++◌, ◌==◌, if◌then◌else◌, arith,
  Bool-cases, Option-cases, Result-cases, inl, inr, leb, ltb, ok, raise, Result, memory_budget,
  leb_false→lt, lt→leb_false, ltb→lt, ltb_false→le, le→leb, continue_ok, continue_raise,
}
use serve_mlx.Base.Int.{pos}
use serve_mlx.Dict.{lookup, put}
use serve_mlx.Dict.Laws.{put_new, total-append, lookup-put_self, lookup-put_ne, put-IsDict}
use serve_mlx.Policy.{ExpertKey-discrete as K, member}
use serve_mlx.Resident.{ResidentExpert, ResidentCache, evict_until, reserve, insert, admit}
use serve_mlx.Resident.Shed.{shed, pinned_bytes, shed_absent}
use serve_mlx.Resident.Evict.{IsSound}
use serve_mlx.Resident.Budget.{IsValid, evict_until-Freed, assert_invariant-IsSound}

module _ {A : Type 0} where
  abbrev stamp : ResidentCache A → ResidentExpert A → ResidentExpert A
  stamp s e = record e { last_used_step = s.step + 1 }

  -- What `insert` leaves, where there is room.
  pub record Inserted (e : ResidentExpert A) (s : ResidentCache A)
      (r : Result (ResidentExpert A) × ResidentCache A) : Type 0 where
    pub valid : IsValid r.1
    pub result : r.0 ≡ ok (stamp s e)
    pub entries : r.1.entries ≡ s.entries ++ (e.key, stamp s e) ∷ []
    pub capacity : r.1.capacity_bytes ≡ s.capacity_bytes

  abbrev inserted : ResidentExpert A → ResidentCache A → ResidentCache A
  inserted e s = record s {
    step = s.step + 1;
    entries = put K e.key (stamp s e) s.entries;
    admitted_at = put K e.key (s.step + 1) s.admitted_at;
    resident_bytes = s.resident_bytes + e.nbytes;
    admission_bytes = s.admission_bytes + e.nbytes;
    reload_bytes =
        if member e.key s.ever_admitted then s.reload_bytes + e.nbytes else s.reload_bytes;
    ever_admitted =
        if member e.key s.ever_admitted then s.ever_admitted else e.key ∷ s.ever_admitted;
  }

  inserted-IsSound :
      (e : ResidentExpert A) (s : ResidentCache A)
      → IsSound s
      → lookup K e.key s.entries ≡ none
      → IsSound (inserted e s)
  inserted-IsSound e s v h = record {
    accounted = rw (put_new K e.key (stamp s e) s.entries h) (
        omega (
          arith,
          v.accounted,
          total-append (λ (x : ResidentExpert A). x.nbytes) s.entries ((e.key, stamp s e) ∷ []),
        ));
    distinct = put-IsDict K e.key (stamp s e) s.entries v.distinct;
    admitted_distinct = put-IsDict K e.key (s.step + 1) s.admitted_at v.admitted_distinct;
    tracked = λ q. elim (K e.key q) [
      | yes p ↦ rw (← p) (
        (λ n. absurd (ground (arith, lookup-put_self K e.key (stamp s e) s.entries))),
        (λ n. absurd (ground (arith, lookup-put_self K e.key (s.step + 1) s.admitted_at))),
      )
      | no p ↦
          rw
            (
              lookup-put_ne K e.key q (stamp s e) s.entries p,
              lookup-put_ne K e.key q (s.step + 1) s.admitted_at p,
            )
            (v.tracked q)
    ];
  }

  insert-Inserted :
      (e : ResidentExpert A) (s : ResidentCache A)
      → IsValid s
      → lookup K e.key s.entries ≡ none
      → s.resident_bytes + e.nbytes ≤ s.capacity_bytes
      → Inserted e s (insert e s)
  unfolding insert
  insert-Inserted e s v h fits =
      let sound = inserted-IsSound e s v.sound h in
      rw (assert_invariant-IsSound (inserted e s) sound fits) (record {
        valid = record { positive = v.positive; sound = sound; within = fits };
        result = refl;
        entries = put_new K e.key (stamp s e) s.entries h;
        capacity = refl;
      })

  -- `reserve n` of a positive size: too large an expert changes nothing, any other makes room.
  reserve_cases :
      (n : ℕ) (s : ResidentCache A)
      → 0 < n
      → (reserve n s ≡ (raise memory_budget, s)) × (s.capacity_bytes < n)
        ⊎ (reserve n s ≡ evict_until (pos n) s) × (n ≤ s.capacity_bytes)
  unfolding reserve
  reserve_cases n s h = elim (Bool-cases (ltb s.capacity_bytes n)) [
    | inl big ↦ inl (rw (lt→leb_false n 0 h, big), ltb→lt _ _ big)
    | inr fits ↦ inr (rw (lt→leb_false n 0 h, fits), ltb_false→le _ _ fits)
  ]

  -- What `admit` does with an expert that is not resident.
  pub record Admitted (e : ResidentExpert A) (s : ResidentCache A)
      (r : Result (ResidentExpert A) × ResidentCache A) : Type 0 where
    pub valid : IsValid r.1
    pub result : r.0 ≡ (
        if leb (pinned_bytes s.entries + e.nbytes) s.capacity_bytes
        then ok (stamp s e)
        else raise memory_budget)
    pub entries :
        pinned_bytes s.entries + e.nbytes ≤ s.capacity_bytes
        → r.1.entries
          ≡ shed (s.resident_bytes + e.nbytes - s.capacity_bytes) s.entries
            ++ (e.key, stamp s e) ∷ []
    pub capacity : r.1.capacity_bytes ≡ s.capacity_bytes

  -- On a valid cache, an expert of positive size that is not resident is admitted just if it fits
  -- beside the pinned experts. The cache then holds what `shed` leaves for it, with the expert as
  -- the most recent entry; otherwise `MemoryBudgetError` is raised. The cache stays valid and keeps
  -- its capacity either way.
  pub admit-Admitted :
      (e : ResidentExpert A) (s : ResidentCache A)
      → IsValid s
      → 0 < e.nbytes
      → lookup K e.key s.entries ≡ none
      → Admitted e s (admit e s)
  unfolding admit
  admit-Admitted e s v h miss = elim (reserve_cases e.nbytes s h) [
    | inl (p, big) ↦
        rw (lt→leb_false e.nbytes 0 h, miss, p)
          (record {
            valid = v;
            result =
                rw
                  (lt→leb_false (pinned_bytes s.entries + e.nbytes) s.capacity_bytes (omega arith));
            entries = λ x. absurd (omega arith);
            capacity = refl;
          })
    | inr (p, fits) ↦
        let room = evict_until-Freed e.nbytes s v in
        let cap = ap (λ (z : ResidentCache A). z.capacity_bytes) room.frame in
        elim (Result-cases (evict_until (pos e.nbytes) s).0) [
          | inl (u, good) ↦
              let enough : pinned_bytes s.entries + e.nbytes ≤ s.capacity_bytes =
                ground (arith, room.outcome, good) in
              let ins =
                insert-Inserted e (evict_until (pos e.nbytes) s).1 room.valid
                  (rw room.entries (shed_absent _ e.key s.entries miss))
                  (omega (arith, room.freed good, cap)) in
              let step = ap (λ (z : ResidentCache A). stamp z e) room.frame in
              rw
                (
                  lt→leb_false e.nbytes 0 h,
                  miss,
                  p,
                  continue_ok (evict_until (pos e.nbytes) s) (λ _. insert e) u good,
                )
                (record {
                  valid = ins.valid;
                  result = ins.result ∙ ap ok step ∙ rw (le→leb _ _ enough);
                  entries = λ _. ins.entries ∙ cc (room.entries, step);
                  capacity = ins.capacity ∙ cap;
                })
          | inr (x, bad) ↦
              let short : s.capacity_bytes < pinned_bytes s.entries + e.nbytes =
                ground (arith, room.outcome, bad) in
              rw
                (
                  lt→leb_false e.nbytes 0 h,
                  miss,
                  p,
                  continue_raise (evict_until (pos e.nbytes) s) (λ _. insert e) x bad,
                )
                (record {
                  valid = room.valid;
                  result = ground (arith, room.outcome, bad);
                  entries = λ y. absurd (omega arith);
                  capacity = cap;
                })
        ]
  ]

  -- Every admission keeps the cache valid, whatever the expert, also where it raises.
  pub admit-IsValid :
      (e : ResidentExpert A) (s : ResidentCache A) → IsValid s → IsValid (admit e s).1
  unfolding admit
  admit-IsValid e s v = elim (Bool-cases (leb e.nbytes 0)) [
    | inl bad ↦ rw bad v
    | inr good ↦ elim (Option-cases (lookup K e.key s.entries)) [
      | inl miss ↦ unfold admit in (admit-Admitted e s v (leb_false→lt _ _ good) miss).valid
      | inr (x, hit) ↦ elim (Bool-cases (x.nbytes == e.nbytes)) [
        | inl same ↦ rw (good, hit, same) v
        | inr other ↦ rw (good, hit, other) v
      ]
    ]
  ]
