-- ===== src/Resident/Methods.antt =====
-- `get`, `pin` and `unpin`: the invariant, and what they change.
use serve_mlx.Base.{
  ◌+◌, ◌-◌, ◌<◌, ◌≡◌, refl, ap, sym, ◌∙◌, some, ◌==◌, arith, Bool-cases, Option-cases, inl, inr,
  leb, ok, not, ◌&&◌, ◌≢◌, lt→leb_false,
}
use serve_mlx.Base.Int.{ℤ, pos, negsuc}
use serve_mlx.Dict.{lookup, put, put_last}
use serve_mlx.Dict.Laws.{
  lookup-put_last_self, lookup-put_last_ne, put_last-IsDict, total-put_last, lookup-put_self,
  lookup-put_ne, put-IsDict, total-put,
}
use serve_mlx.Policy.{ExpertKey, ExpertKey-discrete as K}
use serve_mlx.Resident.{ResidentExpert, ResidentCache, bytes, touch, get, pin, unpin}
use serve_mlx.Resident.Evict.{IsSound}
use serve_mlx.Resident.Budget.{IsValid}

module _ {A : Type 0} where
  -- An entry may be replaced by one of the same size, in place or at the recent end.
  IsSound-put_last :
      (k : ExpertKey) (e w : ResidentExpert A) (s : ResidentCache A)
      → lookup K k s.entries ≡ some e
      → w.nbytes ≡ e.nbytes
      → IsSound s
      → IsSound (record s { entries = put_last K k w s.entries })
  IsSound-put_last k e w s h same v = record {
    accounted = omega (
      arith,
      v.accounted,
      total-put_last K (λ (x : ResidentExpert A). x.nbytes) k w e s.entries h,
    );
    distinct = put_last-IsDict K k w s.entries v.distinct;
    admitted_distinct = v.admitted_distinct;
    tracked = λ q. elim (K k q) [
      | yes p ↦ rw (← p) (
        (λ n. absurd (ground (arith, lookup-put_last_self K k w s.entries v.distinct))),
        (λ n. absurd (ground (arith, (v.tracked k).1 n))),
      )
      | no p ↦ rw (lookup-put_last_ne K k q w s.entries p) (v.tracked q)
    ];
  }

  IsSound-put :
      (k : ExpertKey) (e w : ResidentExpert A) (s : ResidentCache A)
      → lookup K k s.entries ≡ some e
      → w.nbytes ≡ e.nbytes
      → IsSound s
      → IsSound (record s { entries = put K k w s.entries })
  IsSound-put k e w s h same v = record {
    accounted =
        omega
          (arith, v.accounted, total-put K (λ (x : ResidentExpert A). x.nbytes) k w e s.entries h);
    distinct = put-IsDict K k w s.entries v.distinct;
    admitted_distinct = v.admitted_distinct;
    tracked = λ q. elim (K k q) [
      | yes p ↦ rw (← p) (
        (λ n. absurd (ground (arith, lookup-put_self K k w s.entries))),
        (λ n. absurd (ground (arith, (v.tracked k).1 n))),
      )
      | no p ↦ rw (lookup-put_ne K k q w s.entries p) (v.tracked q)
    ];
  }

  abbrev SameFields : (s t : ResidentCache A) → Type 0
  SameFields s t =
      (t.capacity_bytes ≡ s.capacity_bytes)
      × (t.entries ≡ s.entries)
      × (t.resident_bytes ≡ s.resident_bytes)
      × (t.admitted_at ≡ s.admitted_at)

  -- the invariant reads four fields
  pub IsValid-of_same : (s t : ResidentCache A) → SameFields s t → IsValid s → IsValid t
  IsValid-of_same s t (c, e, r, a) v = record {
    positive = omega (arith, v.positive);
    sound = record {
      accounted = r ∙ v.sound.accounted ∙ ap bytes (sym e);
      distinct = rw e v.sound.distinct;
      admitted_distinct = rw a v.sound.admitted_distinct;
      tracked = λ q. rw (e, a) (v.sound.tracked q);
    };
    within = omega (arith, v.within);
  }

  IsValid-put_last :
      (k : ExpertKey) (e w : ResidentExpert A) (s : ResidentCache A)
      → lookup K k s.entries ≡ some e
      → w.nbytes ≡ e.nbytes
      → IsValid s
      → IsValid (record s { entries = put_last K k w s.entries })
  IsValid-put_last k e w s h same v = record {
    positive = v.positive;
    sound = IsSound-put_last k e w s h same v.sound;
    within = v.within;
  }

  -- A lookup keeps the cache valid, also where it raises.
  pub get-IsValid :
      (k : ExpertKey) (n : ℤ) (s : ResidentCache A) → IsValid s → IsValid (get k n s).1
  unfolding get touch
  get-IsValid k (negsuc n) s v = v
  get-IsValid k (pos n) s v = elim (Option-cases (lookup K k s.entries)) [
    | inl miss ↦ rw (get, miss) (IsValid-of_same s _ (refl, refl, refl, refl) v)
    | inr (e, hit) ↦ elim (Bool-cases (not (n == 0) && not (e.nbytes == n))) [
      | inl bad ↦ rw (get, hit, bad) (IsValid-of_same s _ (refl, refl, refl, refl) v)
      | inr good ↦
          rw (get, hit, good)
            (IsValid-of_same
              (record s {
                entries = put_last K k (record e { last_used_step = s.step + 1 }) s.entries;
              })
              _ (refl, refl, refl, refl) (IsValid-put_last k e _ s hit refl v))
    ]
  ]

  pub pin-IsValid : (k : ExpertKey) (s : ResidentCache A) → IsValid s → IsValid (pin k s).1
  unfolding pin
  pin-IsValid k s v = elim (Option-cases (lookup K k s.entries)) [
    | inl miss ↦ rw (pin, miss) v
    | inr (e, hit) ↦
        let w = record e { last_used_step = s.step + 1; pin_count = e.pin_count + 1 } in
        rw (pin, hit)
          (IsValid-of_same (record s { entries = put_last K k w s.entries }) _
            (refl, refl, refl, refl) (IsValid-put_last k e w s hit refl v))
  ]

  pub unpin-IsValid : (k : ExpertKey) (s : ResidentCache A) → IsValid s → IsValid (unpin k s).1
  unfolding unpin
  unpin-IsValid k s v = elim (Option-cases (lookup K k s.entries)) [
    | inl miss ↦ rw (unpin, miss) v
    | inr (e, hit) ↦ elim (Bool-cases (leb e.pin_count 0)) [
      | inl free ↦ rw (unpin, hit, free) v
      | inr held ↦
          rw (unpin, hit, held)
            (record {
              positive = v.positive;
              sound = IsSound-put k e (record e { pin_count = e.pin_count - 1 }) s hit refl v.sound;
              within = v.within;
            })
    ]
  ]

  -- the bytes, statistics and admissions of a cache
  abbrev Untouched : ResidentCache A → ResidentCache A → Type 0
  Untouched s t = t ≡ record s { entries = t.entries; step = t.step }

  abbrev pin_entry : ResidentCache A → ResidentExpert A → ResidentExpert A
  pin_entry s e = record e { last_used_step = s.step + 1; pin_count = e.pin_count + 1 }

  abbrev pinned_cache : ExpertKey → ResidentExpert A → ResidentCache A → ResidentCache A
  pinned_cache k e s = record s {
    entries = put_last K k (pin_entry s e) s.entries;
    step = s.step + 1;
  }

  pin_lem :
      (k : ExpertKey) (e : ResidentExpert A) (s : ResidentCache A)
      → lookup K k s.entries ≡ some e
      → pin k s ≡ (ok (pin_entry s e), pinned_cache k e s)
  unfolding pin
  pin_lem k e s h = rw (pin, h)

  unpin_lem :
      (k : ExpertKey) (e : ResidentExpert A) (s : ResidentCache A)
      → lookup K k s.entries ≡ some e
      → 0 < e.pin_count
      → unpin k s ≡ (
        ok tt,
        record s { entries = put K k (record e { pin_count = e.pin_count - 1 }) s.entries },
      )
  unfolding unpin
  unpin_lem k e s h p = rw (unpin, h, lt→leb_false e.pin_count 0 p)

  -- A resident expert before, between and after `pin` and `unpin`.
  pub record Pinned (k : ExpertKey) (e : ResidentExpert A) (s : ResidentCache A) : Type 0 where
    pub pins :
        pin k s
        ≡ (ok (record e { last_used_step = s.step + 1; pin_count = e.pin_count + 1 }), (pin k s).1)
    pub held :
        lookup K k (pin k s).1.entries
        ≡ some (record e { last_used_step = s.step + 1; pin_count = e.pin_count + 1 })
    pub unpins : unpin k (pin k s).1 ≡ (ok tt, (unpin k (pin k s).1).1)
    pub restored :
        lookup K k (unpin k (pin k s).1).1.entries ≡ some (record e { last_used_step = s.step + 1 })
    pub others :
        (q : ExpertKey) → k ≢ q → lookup K q (unpin k (pin k s).1).1.entries ≡ lookup K q s.entries
    pub accounts : Untouched s (unpin k (pin k s).1).1

  -- On a valid cache `pin` of a resident expert and then `unpin` both succeed. In between the expert
  -- has one pin more; afterwards it has its pin count back and only a new last step, every other
  -- expert is found as before, and nothing but the entries and the step has changed.
  pub pin-unpin :
      (k : ExpertKey) (e : ResidentExpert A) (s : ResidentCache A)
      → IsValid s
      → lookup K k s.entries ≡ some e
      → Pinned k e s
  pin-unpin k e s v h =
      let w = pin_entry s e in
      let held : lookup K k (pinned_cache k e s).entries ≡ some w =
        lookup-put_last_self K k w s.entries v.sound.distinct in
      let one : e.pin_count + 1 - 1 ≡ e.pin_count = omega arith in
      let released = unpin_lem k w (pinned_cache k e s) held (omega arith) in
      record {
        pins = rw (pin_lem k e s h) refl;
        held = rw (pin_lem k e s h) held;
        unpins = rw (pin_lem k e s h, released) refl;
        restored =
            rw (pin_lem k e s h, released, one)
              (lookup-put_self K k (record e { last_used_step = s.step + 1 }) _);
        others = λ q p.
            rw (pin_lem k e s h, released)
              (lookup-put_ne K k q _ _ p ∙ lookup-put_last_ne K k q w s.entries p);
        accounts = rw (pin_lem k e s h, released) refl;
      }
