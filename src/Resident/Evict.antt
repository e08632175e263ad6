-- ===== src/Resident/Evict.antt =====
-- The eviction loop meets its specification `shed`.
use serve_mlx.Base.{
  ℕ, ◌+◌, ◌-◌, ◌≤◌, ◌<◌, ◌≡◌, ◌↔◌, refl, ap, sym, ◌∙◌, some, none, List, [], ◌∷◌, if◌then◌else◌,
  arith, Bool-cases, Option-cases, inl, inr, length, ltb, leb, ok, raise, Result, memory_budget,
  Bool, le→leb, lt→leb_false, ltb→lt, ltb_false→le, continue_ok,
}
use serve_mlx.Dict.{lookup, remove, IsDict}
use serve_mlx.Dict.Laws.{
  remove-IsDict, lookup-remove_self, lookup-remove_ne, total-remove, length-remove,
}
use serve_mlx.Policy.{ExpertKey, ExpertKey-discrete as K}
use serve_mlx.Resident.{
  ResidentExpert, ResidentCache, Entries, bytes, find_victim, evict, evict_rounds,
}
use serve_mlx.Resident.Shed.{
  shed, unpinned_bytes, shed-zero, find_victim_lem, find_victim-none, shed_no_victim, shed_round,
  unpinned_bytes_round,
}

module _ {A : Type 0} where
  -- the invariant that a loop keeps at any capacity
  pub record IsSound (s : ResidentCache A) : Type 0 where
    pub accounted : s.resident_bytes ≡ bytes s.entries
    pub distinct : IsDict K s.entries
    pub admitted_distinct : IsDict K s.admitted_at
    pub tracked :
        (q : ExpertKey) → (lookup K q s.entries ≡ none) ↔ (lookup K q s.admitted_at ≡ none)

  -- eviction changes these five fields and no other
  abbrev pub Frame : ResidentCache A → ResidentCache A → Type 0
  Frame s t = t ≡ record s {
    entries = t.entries;
    resident_bytes = t.resident_bytes;
    eviction_count = t.eviction_count;
    evicted_residence_steps = t.evicted_residence_steps;
    admitted_at = t.admitted_at;
  }

  pub record Evicted (k : ExpertKey) (e : ResidentExpert A) (s t : ResidentCache A) : Type 0 where
    pub sound : IsSound t
    pub frame : Frame s t
    pub removed : t.entries ≡ remove K k s.entries
    pub freed : t.resident_bytes + e.nbytes ≡ s.resident_bytes
    pub counted : t.eviction_count ≡ s.eviction_count + 1

  tracked-remove :
      (k q : ExpertKey) (d : Entries A) (a : List (ExpertKey × ℕ))
      → IsDict K d
      → IsDict K a
      → (lookup K q d ≡ none) ↔ (lookup K q a ≡ none)
      → (lookup K q (remove K k d) ≡ none) ↔ (lookup K q (remove K k a) ≡ none)
  tracked-remove k q d a w v h = elim (K k q) [
    | yes p ↦ rw (← p) ((λ _. lookup-remove_self K k a v), (λ _. lookup-remove_self K k d w))
    | no p ↦ rw (lookup-remove_ne K k q d p, lookup-remove_ne K k q a p) h
  ]

  pub evict-Evicted :
      (k : ExpertKey) (e : ResidentExpert A) (s : ResidentCache A)
      → IsSound s
      → lookup K k s.entries ≡ some e
      → ((evict k e s).0 ≡ ok tt) × Evicted k e s (evict k e s).1
  unfolding evict
  evict-Evicted k e s v h = elim (Option-cases (lookup K k s.admitted_at)) [
    | inl gone ↦ absurd (ground (arith, (v.tracked k).1 gone))
    | inr (at, found) ↦
        rw (evict, found)
          (
            refl,
            record {
              sound = record {
                accounted = omega (
                  arith,
                  v.accounted,
                  total-remove K (λ (x : ResidentExpert A). x.nbytes) k e s.entries h,
                );
                distinct = remove-IsDict K k s.entries v.distinct;
                admitted_distinct = remove-IsDict K k s.admitted_at v.admitted_distinct;
                tracked = λ q.
                    tracked-remove k q s.entries s.admitted_at v.distinct v.admitted_distinct
                      (v.tracked q);
              };
              frame = refl;
              removed = refl;
              freed = omega (
                arith,
                v.accounted,
                total-remove K (λ (x : ResidentExpert A). x.nbytes) k e s.entries h,
              );
              counted = refl;
            },
          )
  ]

  -- What a loop that stops once `resident + n <= limit` leaves, and when it raises.
  pub record Shed (limit n : ℕ) (s : ResidentCache A) (r : Result (Unit {0}) × ResidentCache A)
      : Type 0 where
    pub sound : IsSound r.1
    pub frame : Frame s r.1
    pub entries : r.1.entries ≡ shed (s.resident_bytes + n - limit) s.entries
    pub outcome : r.0 ≡ (
        if leb (s.resident_bytes + n) (limit + unpinned_bytes s.entries)
        then ok tt
        else raise memory_budget)
    pub counted : r.1.eviction_count + length r.1.entries ≡ s.eviction_count + length s.entries

  length_zero : (d : Entries A) → length d ≤ 0 → find_victim d ≡ none
  unfolding find_victim
  length_zero [] h = refl
  length_zero (x ∷ d) h = absurd (omega arith)

  pub stop-Shed :
      (limit n : ℕ) (s : ResidentCache A)
      → IsSound s
      → s.resident_bytes + n ≤ limit
      → Shed limit n s (ok tt, s)
  stop-Shed limit n s v h = record {
    sound = v;
    frame = refl;
    entries =
        let z : s.resident_bytes + n - limit ≡ 0 = omega arith in rw z (sym (shed-zero s.entries));
    outcome = rw (le→leb (s.resident_bytes + n) (limit + unpinned_bytes s.entries) (omega arith));
    counted = refl;
  }

  stuck-Shed :
      (limit n : ℕ) (s : ResidentCache A)
      → IsSound s
      → limit < s.resident_bytes + n
      → find_victim s.entries ≡ none
      → Shed limit n s (raise memory_budget, s)
  stuck-Shed limit n s v h none_left = record {
    sound = v;
    frame = refl;
    entries = sym (shed_no_victim _ s.entries none_left);
    outcome = rw (
        lt→leb_false (s.resident_bytes + n) (limit + unpinned_bytes s.entries)
          (omega (arith, find_victim-none s.entries none_left)));
    counted = refl;
  }

  round-Shed :
      (limit n : ℕ) (s t : ResidentCache A) (r : Result (Unit {0}) × ResidentCache A)
      (k : ExpertKey) (e : ResidentExpert A)
      → IsSound s
      → limit < s.resident_bytes + n
      → find_victim s.entries ≡ some (k, e)
      → Evicted k e s t
      → Shed limit n t r
      → Shed limit n s r
  round-Shed limit n s t r k e v h found x y =
      let need : t.resident_bytes + n - limit ≡ s.resident_bytes + n - limit - e.nbytes =
        omega (arith, x.freed) in
      let less = unpinned_bytes_round s.entries k e v.distinct found in
      let there = (find_victim_lem s.entries k e v.distinct found).0 in
      record {
        sound = y.sound;
        frame = cc (x.frame, y.frame);
        entries =
            y.entries
            ∙ (rw (need, x.removed)
                (sym (
                  shed_round (s.resident_bytes + n - limit) s.entries k e v.distinct (omega arith)
                    found)));
        outcome = y.outcome ∙ ground (arith, x.freed, less, ap unpinned_bytes x.removed);
        counted =
            omega (
              arith,
              y.counted,
              x.counted,
              length-remove K k e s.entries there,
              ap length x.removed,
            );
      }

  pub evict_rounds-Shed :
      (predicate : ResidentCache A → Bool) (limit n c : ℕ)
      → ((t : ResidentCache A)
          → t.capacity_bytes ≡ c
          → predicate t ≡ ltb limit (t.resident_bytes + n))
      → (rounds : Entries A) (s : ResidentCache A) → s.capacity_bytes ≡ c
      → IsSound s
      → length s.entries ≤ length rounds
      → Shed limit n s (evict_rounds predicate rounds s)
  unfolding evict_rounds
  evict_rounds-Shed predicate limit n c gauge [] s cap v l =
      elim (Bool-cases (ltb limit (s.resident_bytes + n))) [
        | inl over ↦
            rw (gauge s cap, over)
              (stuck-Shed limit n s v (ltb→lt _ _ over) (length_zero s.entries l))
        | inr done ↦ rw (gauge s cap, done) (stop-Shed limit n s v (ltb_false→le _ _ done))
      ]
  evict_rounds-Shed predicate limit n c gauge (x ∷ rounds) s cap v l =
      elim (Bool-cases (ltb limit (s.resident_bytes + n))) [
        | inr done ↦ rw (gauge s cap, done) (stop-Shed limit n s v (ltb_false→le _ _ done))
        | inl over ↦ elim (Option-cases (find_victim s.entries)) [
          | inl none_left ↦
              rw (gauge s cap, over, none_left) (stuck-Shed limit n s v (ltb→lt _ _ over) none_left)
          | inr ((k, e), found) ↦
              let there = (find_victim_lem s.entries k e v.distinct found).0 in
              let (p, q) = evict-Evicted k e s v there in
              let ih =
                evict_rounds-Shed predicate limit n c gauge rounds (evict k e s).1
                  (ap (λ (z : ResidentCache A). z.capacity_bytes) q.frame ∙ cap) q.sound
                  (omega (arith, length-remove K k e s.entries there, ap length q.removed)) in
              rw
                (
                  gauge s cap,
                  over,
                  found,
                  continue_ok (evict k e s) (λ _. evict_rounds predicate rounds) tt p,
                )
                (round-Shed limit n s (evict k e s).1 _ k e v (ltb→lt _ _ over) found q ih)
        ]
      ]
