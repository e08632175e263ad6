-- ===== src/Resident/Budget.antt =====
-- `evict_until`, `evict_to`, `reserve` and `resize`: the byte budget and the safety of pins.
use serve_mlx.Base.{
  le→leb, lt→leb_false, ℕ, ◌+◌, ◌-◌, ◌≤◌, ◌<◌, ◌≡◌, refl, ap, ◌∙◌, some, none, List, [], ◌∷◌,
  if◌then◌else◌, arith, Bool-cases, Option-cases, inl, inr, ltb, leb, ok, raise, Result,
  memory_budget, Bool, true, continue_ok, continue_raise, Result-cases, leb→le, leb_false→lt,
}
use serve_mlx.Base.Int.{pos}
use serve_mlx.Dict.{lookup, IsDict}
use serve_mlx.Policy.{ExpertKey, ExpertKey-discrete as K}
use serve_mlx.Resident.{
  ResidentExpert, ResidentCache, bytes, keys_within, assert_invariant, evict_rounds, evict_while,
  evict_until, evict_to, restore_on_raise, resize,
}
use serve_mlx.Resident.Shed.{
  shed, unpinned_bytes, pinned_bytes, bytes-split, shed_frees, shed-bytes-le, shed_pinned,
}
use serve_mlx.Resident.Evict.{IsSound, Shed, stop-Shed, Frame, evict_rounds-Shed}

keys_within_lem :
    {V W : Type 0} (d : List (ExpertKey × V)) (e : List (ExpertKey × W))
    → ((q : ExpertKey) → lookup K q e ≡ none → lookup K q d ≡ none)
    → IsDict K d
    → keys_within d e ≡ true
unfolding keys_within lookup
keys_within_lem [] e h w = refl
keys_within_lem ((k, v) ∷ d) e h w = elim (Option-cases (lookup K k e)) [
  | inl absent ↦ absurd (let x = h k absent in ground arith)
  | inr (u, there) ↦ rw there (keys_within_lem d e (λ q n. let x = h q n in ground arith) w.1)
]

module _ {A : Type 0} where
  -- the invariant of a cache between calls
  pub record IsValid (s : ResidentCache A) : Type 0 where
    pub positive : 0 < s.capacity_bytes
    pub sound : IsSound s
    pub within : s.resident_bytes ≤ s.capacity_bytes

  -- On a sound cache within its capacity the run-time check passes.
  pub assert_invariant-IsSound :
      (s : ResidentCache A)
      → IsSound s
      → s.resident_bytes ≤ s.capacity_bytes
      → assert_invariant s ≡ (ok tt, s)
  unfolding assert_invariant
  assert_invariant-IsSound s v h = ground (
    arith,
    v.accounted,
    keys_within_lem s.admitted_at s.entries (λ q. (v.tracked q).0) v.admitted_distinct,
    keys_within_lem s.entries s.admitted_at (λ q. (v.tracked q).1) v.distinct,
  )

  -- What a call that makes room does to a valid cache: the bytes that can be freed are those of
  -- unpinned experts, least recently used first, and it raises only if the pinned ones are too many.
  pub record Freed (limit n : ℕ) (s : ResidentCache A) (r : Result (Unit {0}) × ResidentCache A)
      : Type 0 where
    pub valid : IsValid r.1
    pub entries : r.1.entries ≡ shed (s.resident_bytes + n - limit) s.entries
    pub outcome :
        r.0 ≡ (if leb (pinned_bytes s.entries + n) limit then ok tt else raise memory_budget)
    pub freed : r.0 ≡ ok tt → r.1.resident_bytes + n ≤ limit
    pub pinned :
        (q : ExpertKey) (e : ResidentExpert A)
        → lookup K q s.entries ≡ some e
        → 0 < e.pin_count
        → lookup K q r.1.entries ≡ some e
    pub frame : Frame s r.1

  outcome_freed :
      (limit n : ℕ) (s : ResidentCache A) (r : Result (Unit {0}) × ResidentCache A)
      → s.resident_bytes ≡ bytes s.entries
      → Shed limit n s r
      → r.0 ≡ ok tt
      → r.1.resident_bytes + n ≤ limit
  outcome_freed limit n s r acc x good =
      let need = s.resident_bytes + n - limit in
      let enough : s.resident_bytes + n ≤ limit + unpinned_bytes s.entries =
        ground (arith, x.outcome) in
      omega (
        arith,
        shed_frees need s.entries (omega arith),
        x.sound.accounted,
        ap bytes x.entries,
        bytes-split s.entries,
      )

  evict_while-Shed :
      (predicate : ResidentCache A → Bool) (limit n : ℕ) (s : ResidentCache A)
      → ((t : ResidentCache A)
          → t.capacity_bytes ≡ s.capacity_bytes
          → predicate t ≡ ltb limit (t.resident_bytes + n))
      → IsSound s
      → limit ≤ s.capacity_bytes
      → Shed limit n s (evict_while predicate s)
  unfolding evict_while
  evict_while-Shed predicate limit n s gauge v fits =
      let loop =
        evict_rounds-Shed predicate limit n s.capacity_bytes gauge s.entries s refl v
          (omega arith) in
      let same = ap (λ (z : ResidentCache A). z.capacity_bytes) loop.frame in
      elim (Result-cases (evict_rounds predicate s.entries s).0) [
        | inr (e, bad) ↦
            rw (continue_raise (evict_rounds predicate s.entries s) (λ _. assert_invariant) e bad)
              (rw (← bad) loop)
        | inl (u, good) ↦
            rw
              (
                continue_ok (evict_rounds predicate s.entries s) (λ _. assert_invariant) u good,
                assert_invariant-IsSound (evict_rounds predicate s.entries s).1 loop.sound
                    (omega (arith, outcome_freed limit n s _ v.accounted loop good, same)),
              )
              (rw (← good) loop)
      ]

  Freed-of_Shed :
      (limit n : ℕ) (s : ResidentCache A) (r : Result (Unit {0}) × ResidentCache A)
      → IsValid s
      → Shed limit n s r
      → Freed limit n s r
  Freed-of_Shed limit n s r v x =
      let same = ap (λ (z : ResidentCache A). z.capacity_bytes) x.frame in
      let split = bytes-split s.entries in
      record {
        valid = record {
          positive = omega (arith, same, v.positive);
          sound = x.sound;
          within = omega (
            arith,
            same,
            v.within,
            v.sound.accounted,
            x.sound.accounted,
            ap bytes x.entries,
            shed-bytes-le (s.resident_bytes + n - limit) s.entries,
          );
        };
        entries = x.entries;
        outcome = x.outcome ∙ ground (arith, split, v.sound.accounted);
        freed = outcome_freed limit n s r v.sound.accounted x;
        pinned = λ q e h p. rw x.entries (shed_pinned _ q s.entries e v.sound.distinct h p);
        frame = x.frame;
      }

  -- On a valid cache `evict_until n` makes room for `n` bytes, or raises `MemoryBudgetError` if the
  -- pinned experts leave less than that.
  pub evict_until-Freed :
      (n : ℕ) (s : ResidentCache A) → IsValid s → Freed s.capacity_bytes n s (evict_until (pos n) s)
  unfolding evict_until
  evict_until-Freed n s v =
      Freed-of_Shed s.capacity_bytes n s _ v
        (evict_while-Shed _ s.capacity_bytes n s (λ t e. rw e refl) v.sound (omega arith))

  -- `evict_to n` brings the resident bytes down to `n`, or as far as the pinned experts allow.
  pub evict_to-Freed : (n : ℕ) (s : ResidentCache A) → IsValid s → Freed n 0 s (evict_to (pos n) s)
  unfolding evict_to
  evict_to-Freed n s v = elim (Bool-cases (leb s.resident_bytes n)) [
    | inl low ↦
        rw low (Freed-of_Shed n 0 s _ v (stop-Shed n 0 s v.sound (omega (arith, leb→le _ _ low))))
    | inr high ↦ rw high (
        Freed-of_Shed n 0 s _ v (
          evict_while-Shed _ n 0 s (λ t e. ap (ltb n) (omega arith)) v.sound
            (omega (arith, leb_false→lt _ _ high, v.within))))
  ]

  -- What `resize` to `c` does: a raise restores the capacity, though not what was evicted.
  pub record Resized (c : ℕ) (s : ResidentCache A) (r : Result (Unit {0}) × ResidentCache A)
      : Type 0 where
    pub valid : IsValid r.1
    pub outcome : r.0 ≡ (if leb (pinned_bytes s.entries) c then ok tt else raise memory_budget)
    pub capacity :
        r.1.capacity_bytes ≡ (if leb (pinned_bytes s.entries) c then c else s.capacity_bytes)
    pub entries : r.1.entries ≡ shed (s.resident_bytes - c) s.entries
    pub pinned :
        (q : ExpertKey) (e : ResidentExpert A)
        → lookup K q s.entries ≡ some e
        → 0 < e.pin_count
        → lookup K q r.1.entries ≡ some e

  Resized-of_Shed :
      (c : ℕ) (s : ResidentCache A) (r : Result (Unit {0}) × ResidentCache A)
      → 0 < c
      → IsValid s
      → Shed c 0 (record s { capacity_bytes = c }) r
      → Resized c s (restore_on_raise s.capacity_bytes r)
  unfolding restore_on_raise
  Resized-of_Shed c s (ok tt, t) h v x =
      let low =
        outcome_freed c 0 (record s { capacity_bytes = c }) (ok tt, t) v.sound.accounted x refl in
      let same = ap (λ (z : ResidentCache A). z.capacity_bytes) x.frame in
      let less : pinned_bytes s.entries ≤ c =
        ground (arith, x.outcome, bytes-split s.entries, v.sound.accounted) in
      rw (assert_invariant-IsSound t x.sound (omega (arith, low, same))) (record {
        valid = record {
          positive = omega (arith, same, h);
          sound = x.sound;
          within = omega (arith, low, same);
        };
        outcome = rw (le→leb (pinned_bytes s.entries) c less);
        capacity = rw (le→leb (pinned_bytes s.entries) c less) same;
        entries = x.entries ∙ ap (λ n. shed n s.entries) (omega arith);
        pinned = λ q e l p. rw x.entries (shed_pinned _ q s.entries e v.sound.distinct l p);
      })
  Resized-of_Shed c s (raise e, t) h v x =
      let more : c < pinned_bytes s.entries =
        ground (arith, x.outcome, bytes-split s.entries, v.sound.accounted) in
      let need = s.resident_bytes + 0 - c in
      let which : e ≡ memory_budget = ground (arith, x.outcome) in
      record {
        valid = record {
          positive = v.positive;
          sound = record {
            accounted = x.sound.accounted;
            distinct = x.sound.distinct;
            admitted_distinct = x.sound.admitted_distinct;
            tracked = x.sound.tracked;
          };
          within = omega (
            arith,
            v.within,
            v.sound.accounted,
            x.sound.accounted,
            ap bytes x.entries,
            shed-bytes-le need s.entries,
          );
        };
        outcome = rw (lt→leb_false (pinned_bytes s.entries) c more) (ap raise which);
        capacity = rw (lt→leb_false (pinned_bytes s.entries) c more);
        entries = x.entries ∙ ap (λ n. shed n s.entries) (omega arith);
        pinned = λ q d l p. rw x.entries (shed_pinned _ q s.entries d v.sound.distinct l p);
      }

  -- `resize` to a positive capacity, on a valid cache: it succeeds just if the pinned experts fit,
  -- and the cache stays valid either way.
  pub resize-Resized : (c : ℕ) (s : ResidentCache A) → 0 < c → IsValid s → Resized c s (resize c s)
  unfolding resize
  resize-Resized c s h v =
      let small = record s { capacity_bytes = c } in
      let sound : IsSound small = record {
        accounted = v.sound.accounted;
        distinct = v.sound.distinct;
        admitted_distinct = v.sound.admitted_distinct;
        tracked = v.sound.tracked;
      } in
      rw (lt→leb_false c 0 h) (
        Resized-of_Shed c s _ h v (
          evict_while-Shed _ c 0 small (λ t e. gauge t.capacity_bytes t.resident_bytes e) sound
            (omega arith)))
    where
      gauge : (a b : ℕ) → a ≡ c → ltb a b ≡ ltb c (b + 0)
      gauge a b e = ground arith
