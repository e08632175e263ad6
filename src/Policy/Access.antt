-- ===== src/Policy/Access.antt =====
-- `LruCacheSimulator.access` against a specification of the recency order.
use serve_mlx.Base.{
  is_some, ℕ, suc, ◌+◌, ◌-◌, ◌≤◌, ◌<◌, ◌≡◌, refl, sym, ap, ◌∙◌, true, false, List, [], ◌∷◌, ◌++◌,
  arith, ltb, ok, raise, value_error, none, some, if◌then◌else◌, Bool-cases, Option-cases,
  le→ltb_false, eq_refl, Error, Bool, ◌↔◌, lt→leb_false, ℕ_discrete, ◌≢◌, zero, inl, inr, ◌⊎◌,
}
use serve_mlx.Dict.{lookup, put, put_last, IsDict}
use serve_mlx.Dict.Laws.{put_new, append-IsDict, put_last-IsDict, total-append, total-put_last}
use serve_mlx.Policy.{ExpertKey, ExpertKey-discrete, LruCacheSimulator, init, touch, load, access}
use serve_mlx.Policy.Room.{
  bytes, keep, keep_fits, keep-lookup-none, keep-IsDict, make_room-Roomy, Roomy,
}

pub record IsValid (s : LruCacheSimulator) : Type 0 where
  pub positive : 0 < s.capacity_bytes
  pub accounted : s.resident_bytes ≡ bytes s.entries
  pub within : s.resident_bytes ≤ s.capacity_bytes
  pub distinct : IsDict ExpertKey-discrete s.entries
  pub counted : s.hits + s.misses ≤ s.calls

-- The recency order after an access: a hit moves to the end; a miss goes to the end, behind the
-- longest run of recent entries that leaves room for it; what can never fit changes nothing.
pub recency : ℕ → ExpertKey → ℕ → List (ExpertKey × ℕ) → List (ExpertKey × ℕ)
recency capacity key nbytes d = elim (lookup ExpertKey-discrete key d) [
  | some _ ↦ put_last ExpertKey-discrete key nbytes d
  | none ↦ if ltb capacity nbytes then d else keep (capacity - nbytes) d ++ (key, nbytes) ∷ []
]

-- the two cases of the recency order
pub recency_hit :
    (capacity : ℕ) (key : ExpertKey) (nbytes n : ℕ) (d : List (ExpertKey × ℕ))
    → lookup ExpertKey-discrete key d ≡ some n
    → recency capacity key nbytes d ≡ put_last ExpertKey-discrete key nbytes d
unfolding recency
recency_hit capacity key nbytes n d hit = rw (recency, hit)

pub recency_miss :
    (capacity : ℕ) (key : ExpertKey) (nbytes : ℕ) (d : List (ExpertKey × ℕ))
    → lookup ExpertKey-discrete key d ≡ none
    → nbytes ≤ capacity
    → recency capacity key nbytes d ≡ keep (capacity - nbytes) d ++ (key, nbytes) ∷ []
unfolding recency
recency_miss capacity key nbytes d miss fits = rw (recency, miss, le→ltb_false capacity nbytes fits)

pub init-IsValid :
    (n : ℕ) {s : LruCacheSimulator} → init n ≡ ok s → IsValid s × (s.capacity_bytes ≡ n)
unfolding init
init-IsValid n h = ground arith

-- What a miss leaves behind.
pub record Loaded (key : ExpertKey) (nbytes : ℕ) (s t : LruCacheSimulator) : Type 0 where
  pub valid : IsValid t
  pub order : t.entries ≡ recency s.capacity_bytes key nbytes s.entries
  pub capacity : t.capacity_bytes ≡ s.capacity_bytes
  pub missed : (t.misses ≡ s.misses + 1) × (t.hits ≡ s.hits) × (t.calls ≡ s.calls)

abbrev count_miss : ℕ → LruCacheSimulator → LruCacheSimulator
count_miss nbytes s = record s { misses = s.misses + 1; byte_misses = s.byte_misses + nbytes }

abbrev insert : ExpertKey → ℕ → LruCacheSimulator → LruCacheSimulator
insert key nbytes t = record t {
  entries = put ExpertKey-discrete key nbytes t.entries;
  resident_bytes = t.resident_bytes + nbytes;
}

insert-Loaded :
    (key : ExpertKey) (nbytes : ℕ) (s t : LruCacheSimulator)
    → IsValid s
    → s.hits + s.misses < s.calls
    → lookup ExpertKey-discrete key s.entries ≡ none
    → nbytes ≤ s.capacity_bytes
    → Roomy nbytes (count_miss nbytes s) t
    → Loaded key nbytes s (insert key nbytes t)
unfolding recency
insert-Loaded key nbytes s t v c miss fits r =
    let budget = s.capacity_bytes - nbytes in
    let absent : lookup ExpertKey-discrete key t.entries ≡ none =
      rw r.kept (keep-lookup-none budget key s.entries miss) in
    let appended = put_new ExpertKey-discrete key nbytes t.entries absent in
    let small : bytes t.entries ≤ budget = rw r.kept (keep_fits budget s.entries) in
    record {
      valid = record {
        positive = omega arith;
        accounted =
            rw appended (omega (arith, total-append (λ n. n) t.entries ((key, nbytes) ∷ [])));
        within = omega arith;
        distinct = rw appended (
            append-IsDict ExpertKey-discrete key nbytes t.entries absent
              (rw r.kept (keep-IsDict budget s.entries v.distinct)));
        counted = omega arith;
      };
      order = rw (appended, recency, miss, le→ltb_false s.capacity_bytes nbytes fits, r.kept);
      capacity = r.capacity;
      missed = (r.counts.2, r.counts.1, r.counts.0);
    }

load-Loaded :
    (key : ExpertKey) (nbytes : ℕ) (s : LruCacheSimulator)
    → IsValid s
    → s.hits + s.misses < s.calls
    → lookup ExpertKey-discrete key s.entries ≡ none
    → ((load key nbytes s).0 ≡ ok false) × Loaded key nbytes s (load key nbytes s).1
unfolding load recency
load-Loaded key nbytes s v c miss = elim (Bool-cases (ltb s.capacity_bytes nbytes)) [
  | inl big ↦ rw big (
    refl,
    record {
      valid = ground arith;
      order = rw (recency, miss, big);
      capacity = refl;
      missed = (refl, refl, refl);
    },
  )
  | inr fits ↦
      let (t, p, r) =
        make_room-Roomy nbytes s.entries (count_miss nbytes s) refl v.accounted (ground arith) in
      rw (fits, p) (refl, insert-Loaded key nbytes s t v c miss (ground arith) r)
]

-- What an accepted access leaves behind.
pub record Accessed (key : ExpertKey) (nbytes : ℕ) (s t : LruCacheSimulator) : Type 0 where
  pub valid : IsValid t
  pub order : t.entries ≡ recency s.capacity_bytes key nbytes s.entries
  pub capacity : t.capacity_bytes ≡ s.capacity_bytes
  pub hits : t.hits ≡ s.hits + (if is_some (lookup ExpertKey-discrete key s.entries) then 1 else 0)
  pub counted : t.hits + t.misses ≡ s.hits + s.misses + 1
  pub calls : t.calls ≡ s.calls + 1

touch-Accessed :
    (key : ExpertKey) (nbytes : ℕ) (s : LruCacheSimulator)
    → IsValid s
    → lookup ExpertKey-discrete key s.entries ≡ some nbytes
    → ((touch key nbytes nbytes (record s { calls = s.calls + 1 })).0 ≡ ok true)
      × Accessed key nbytes s (touch key nbytes nbytes (record s { calls = s.calls + 1 })).1
unfolding touch recency
touch-Accessed key nbytes s v hit = rw (eq_refl nbytes) (
  refl,
  record {
    valid = record {
      positive = v.positive;
      accounted = omega (
        arith,
        total-put_last ExpertKey-discrete (λ n. n) key nbytes nbytes s.entries hit,
        v.accounted,
      );
      within = v.within;
      distinct = put_last-IsDict ExpertKey-discrete key nbytes s.entries v.distinct;
      counted = omega (arith, v.counted);
    };
    order = rw (recency, hit);
    capacity = refl;
    hits = rw hit;
    counted = omega arith;
    calls = refl;
  },
)

-- On a valid simulator, at a positive size that the key already has if it is resident, an access
-- returns whether the key was resident. It keeps the invariant and the capacity, leaves the order
-- of `recency`, and counts one call and one hit or one miss, a hit just if the key was resident.
pub access-Accessed :
    (key : ExpertKey) (nbytes : ℕ) (s : LruCacheSimulator)
    → IsValid s
    → 0 < nbytes
    → (lookup ExpertKey-discrete key s.entries ≡ none)
      ⊎ (lookup ExpertKey-discrete key s.entries ≡ some nbytes)
    → ((access key nbytes s).0 ≡ ok (is_some (lookup ExpertKey-discrete key s.entries)))
      × Accessed key nbytes s (access key nbytes s).1
unfolding access
access-Accessed key nbytes s v h (inl miss) =
    let (p, q) =
      load-Loaded key nbytes (record s { calls = s.calls + 1 }) (ground arith)
        (omega (arith, v.counted)) miss in
    rw (lt→leb_false nbytes 0 h, miss)
      (
        p,
        record {
          valid = q.valid;
          order = q.order;
          capacity = q.capacity;
          hits = rw miss (omega (arith, q.missed));
          counted = omega (arith, q.missed);
          calls = q.missed.2;
        },
      )
access-Accessed key nbytes s v h (inr hit) =
    rw (lt→leb_false nbytes 0 h, hit) (touch-Accessed key nbytes s v hit)

-- a size of zero, or another than the resident one
abbrev pub IsRefused : ExpertKey → ℕ → LruCacheSimulator → Type 0
IsRefused key nbytes s =
    (nbytes ≡ 0) ⊎ ((n : ℕ) × ((lookup ExpertKey-discrete key s.entries ≡ some n) × (n ≢ nbytes)))

access-IsRefused :
    (key : ExpertKey) (nbytes : ℕ) (s : LruCacheSimulator)
    → IsRefused key nbytes s
    → ((access key nbytes s).0 ≡ raise value_error) × ((access key nbytes s).1.entries ≡ s.entries)
unfolding access touch
access-IsRefused key nbytes s (inl zero_size) = ground arith
access-IsRefused key nbytes s (inr (n, h)) = ground (arith, h)

-- an access is refused, or it returns
access-cases :
    (key : ExpertKey) (nbytes : ℕ) (s : LruCacheSimulator)
    → IsValid s
    → IsRefused key nbytes s ⊎ ((b : Bool) × ((access key nbytes s).0 ≡ ok b))
access-cases key zero s v = inl (inl refl)
access-cases key (suc n) s v = elim (Option-cases (lookup ExpertKey-discrete key s.entries)) [
  | inl miss ↦ inr (_, (access-Accessed key (suc n) s v (omega arith) (inl miss)).0)
  | inr (m, hit) ↦ elim (ℕ_discrete m (suc n)) [
    | yes p ↦ inr (_, (access-Accessed key (suc n) s v (omega arith) (inr (hit ∙ ap some p))).0)
    | no q ↦ inl (inr (m, (hit, q)))
  ]
]

-- On a valid simulator an access raises just if its size is zero or differs from the size of the
-- resident key. What it raises is a ValueError, so the loop that makes room never meets the KeyError
-- of an empty dictionary, and the entries stay as they are.
pub access_raises :
    (key : ExpertKey) (nbytes : ℕ) (s : LruCacheSimulator) (e : Error)
    → IsValid s
    → (((access key nbytes s).0 ≡ raise e) ↔ ((e ≡ value_error) × IsRefused key nbytes s))
      × ((access key nbytes s).0 ≡ raise e → (access key nbytes s).1.entries ≡ s.entries)
access_raises key nbytes s e v = elim (access-cases key nbytes s v) [
  | inl refused ↦
      let (raised, same) = access-IsRefused key nbytes s refused in
      (
        ((λ h. ((let x = h in let y = raised in cc), refused)), (λ w. raised ∙ ap raise (sym w.0))),
        (λ h. same),
      )
  | inr (b, returned) ↦ (
    (
      (λ h. absurd (let x = h in let y = returned in cc)),
      (λ w. let z = (access-IsRefused key nbytes s w.1).0 in absurd (let y = returned in cc)),
    ),
    (λ h. absurd (let x = h in let y = returned in cc)),
  )
]

-- Every access keeps the invariant, whatever its arguments, also where it raises.
pub access-IsValid :
    (key : ExpertKey) (nbytes : ℕ) (s : LruCacheSimulator)
    → IsValid s
    → IsValid (access key nbytes s).1
access-IsValid key zero s v = unfold access in v
access-IsValid key (suc n) s v = elim (Option-cases (lookup ExpertKey-discrete key s.entries)) [
  | inl miss ↦ (access-Accessed key (suc n) s v (omega arith) (inl miss)).1.valid
  | inr (m, hit) ↦ elim (ℕ_discrete m (suc n)) [
    | yes p ↦ (access-Accessed key (suc n) s v (omega arith) (inr (hit ∙ ap some p))).1.valid
    | no q ↦ rejected m hit q
  ]
]
  where
    rejected :
        (m : ℕ)
        → lookup ExpertKey-discrete key s.entries ≡ some m
        → m ≢ suc n
        → IsValid (access key (suc n) s).1
    rejected m hit q = unfold access touch in rw hit (ground arith)
