-- ===== src/Policy/Inclusion.antt =====
-- A larger cache holds what a smaller one holds: `simulate_lru_curve` never loses hits to capacity.
use serve_mlx.Base.{
  is_some, ℕ, ◌+◌, ◌-◌, ◌≤◌, ◌<◌, ◌≡◌, refl, ap, sym, ◌∙◌, Bool, false, List, [], ◌∷◌, ◌++◌, arith,
  leb, ok, none, some, append_assoc, ite, if◌then◌else◌, continue_ok, Bool-cases, Option-cases, inl,
  inr, ◌⊎◌,
}
use serve_mlx.Dict.{lookup, remove, put_last, IsDict}
use serve_mlx.Dict.Laws.{
  remove-append_miss, remove-append_hit, lookup_apart, lookup-append_miss, lookup-append_hit,
}
use serve_mlx.Policy.{ExpertKey, ExpertKey-discrete, LruCacheSimulator, access, replay}
use serve_mlx.Policy.Room.{bytes, keep, keep_suffix}
use serve_mlx.Policy.Access.{IsValid, access-Accessed, recency, recency_hit, recency_miss}

-- every entry has the size `n`
abbrev pub Uniform : ℕ → List (ExpertKey × ℕ) → Type 0
Uniform n [] = Unit
Uniform n ((k, m) ∷ d) = (m ≡ n) × Uniform n d

-- `small` is the recent end of `large`
abbrev pub Suffix : List (ExpertKey × ℕ) → List (ExpertKey × ℕ) → Type 0
Suffix small large = (old : List (ExpertKey × ℕ)) × (large ≡ old ++ small)

Suffix-bytes : (old d : List (ExpertKey × ℕ)) → bytes d ≤ bytes (old ++ d)
Suffix-bytes [] d = omega arith
Suffix-bytes (e ∷ old) d = omega (arith, Suffix-bytes old d)

keep_mono : (b c : ℕ) (d : List (ExpertKey × ℕ)) → b ≤ c → Suffix (keep b d) (keep c d)
unfolding keep
keep_mono b c [] h = ([], refl)
keep_mono b c (e ∷ d) h = elim (Bool-cases (leb (bytes (e ∷ d)) c)) [
  | inl fits ↦ rw fits (keep_suffix b (e ∷ d))
  | inr over ↦ rw (over, le_false over) (keep_mono b c d h)
]
  where
    le_false : leb (bytes (e ∷ d)) c ≡ false → leb (bytes (e ∷ d)) b ≡ false
    le_false p = ground arith

-- A smaller budget keeps less, also of a longer list.
keep-Suffix :
    (b c : ℕ) (old d : List (ExpertKey × ℕ)) → b ≤ c → Suffix (keep b d) (keep c (old ++ d))
unfolding keep
keep-Suffix b c [] d h = keep_mono b c d h
keep-Suffix b c (e ∷ old) d h = elim (Bool-cases (leb (bytes (e ∷ old ++ d)) c)) [
  | inl fits ↦
      let (x, p) = keep_suffix b d in
      rw fits (
        e ∷ old ++ x,
        ap (λ (t : List (ExpertKey × ℕ)). e ∷ old ++ t) p
            ∙ sym (append_assoc (e ∷ old) x (keep b d)),
      )
  | inr over ↦ rw over (keep-Suffix b c old d h)
]

Uniform-append :
    (n : ℕ) (k : ExpertKey) (d : List (ExpertKey × ℕ)) → Uniform n d → Uniform n (d ++ (k, n) ∷ [])
Uniform-append n k [] u = (refl, tt)
Uniform-append n k (e ∷ d) u = (u.0, Uniform-append n k d u.1)

Uniform-remove :
    (n : ℕ) (k : ExpertKey) (d : List (ExpertKey × ℕ))
    → Uniform n d
    → Uniform n (remove ExpertKey-discrete k d)
unfolding remove
Uniform-remove n k [] u = tt
Uniform-remove n k ((j, m) ∷ d) u =
    elim (ExpertKey-discrete j k)
      as (λ b. Uniform n (ite b d ((j, m) ∷ remove ExpertKey-discrete k d))) [
        | yes p ↦ u.1
        | no p ↦ (u.0, Uniform-remove n k d u.1)
      ]

Uniform-keep : (n b : ℕ) (d : List (ExpertKey × ℕ)) → Uniform n d → Uniform n (keep b d)
unfolding keep
Uniform-keep n b [] u = tt
Uniform-keep n b (e ∷ d) u = elim (Bool-cases (leb (bytes (e ∷ d)) b)) [
  | inl fits ↦ rw fits u
  | inr over ↦ rw over (Uniform-keep n b d u.1)
]

Uniform-lookup :
    (n : ℕ) (k : ExpertKey) (d : List (ExpertKey × ℕ))
    → Uniform n d
    → (lookup ExpertKey-discrete k d ≡ none) ⊎ (lookup ExpertKey-discrete k d ≡ some n)
unfolding lookup
Uniform-lookup n k [] u = inl refl
Uniform-lookup n k ((j, m) ∷ d) u = ground (arith, Uniform-lookup n k d u.1)

Uniform-recency :
    (n c : ℕ) (k : ExpertKey) (d : List (ExpertKey × ℕ))
    → n ≤ c
    → Uniform n d
    → Uniform n (recency c k n d)
unfolding put_last
Uniform-recency n c k d h u = elim (Option-cases (lookup ExpertKey-discrete k d)) [
  | inl miss ↦ rw (recency_miss c k n d miss h) (Uniform-append n k _ (Uniform-keep n (c - n) d u))
  | inr (m, hit) ↦ rw (recency_hit c k n m d hit) (Uniform-append n k _ (Uniform-remove n k d u))
]

abbrev K : Discrete ExpertKey
K = ExpertKey-discrete

regroup : (a b c d : List (ExpertKey × ℕ)) → a ++ (b ++ c) ++ d ≡ (a ++ b) ++ (c ++ d)
regroup a b c d = simp append_assoc

-- The recency orders of two caches, before and after one access.
recency-Suffix :
    (n b c : ℕ) (k : ExpertKey) (small large : List (ExpertKey × ℕ))
    → n ≤ b
    → b ≤ c
    → IsDict ExpertKey-discrete large
    → Suffix small large
    → Suffix (recency b k n small) (recency c k n large)
unfolding put_last
recency-Suffix n b c k small large h m w (old, p) = rw p (go (rw p at w))
  where
    go :
        IsDict ExpertKey-discrete (old ++ small)
        → Suffix (recency b k n small) (recency c k n (old ++ small))
    go w' = elim (Option-cases (lookup K k small)) [
      | inr (v, hit) ↦
          let apart = lookup_apart K k v old small w' hit in
          let both = lookup-append_miss K k old small apart ∙ hit in
          (
            old,
            rw (
              recency_hit b k n v small hit,
              recency_hit c k n v (old ++ small) both,
              remove-append_miss K k old small apart,
              append_assoc,
            ),
          )
      | inl miss ↦ elim (Option-cases (lookup K k old)) [
        | inr (v, there) ↦
            let both = lookup-append_hit K k old small there in
            let (x, q) = keep_suffix (b - n) small in
            (
              remove K k old ++ x,
              rw
                  (
                    recency_miss b k n small miss h,
                    recency_hit c k n v (old ++ small) both,
                    remove-append_hit K k v old small there,
                  )
                  (ap (λ (t : List (ExpertKey × ℕ)). (remove K k old ++ t) ++ (k, n) ∷ []) q
                    ∙ regroup (remove K k old) x _ _),
            )
        | inl gone ↦
            let both = lookup-append_miss K k old small gone ∙ miss in
            let (x, q) = keep-Suffix (b - n) (c - n) old small (omega arith) in
            (
              x,
              rw (
                recency_miss b k n small miss h,
                recency_miss c k n (old ++ small) both (omega arith),
                q,
                append_assoc,
              ),
            )
      ]
    ]

pub record Includes (n : ℕ) (a b : LruCacheSimulator) : Type 0 where
  pub small : IsValid a
  pub large : IsValid b
  pub fits : n ≤ a.capacity_bytes
  pub wider : a.capacity_bytes ≤ b.capacity_bytes
  pub small_size : Uniform n a.entries
  pub large_size : Uniform n b.entries
  pub recent : Suffix a.entries b.entries
  pub fewer : a.hits ≤ b.hits
  pub same : a.hits + a.misses ≡ b.hits + b.misses

is_some-Suffix :
    (k : ExpertKey) (old small : List (ExpertKey × ℕ))
    → IsDict ExpertKey-discrete (old ++ small)
    → (if is_some (lookup ExpertKey-discrete k small) then 1 else 0)
      ≤ (if is_some (lookup ExpertKey-discrete k (old ++ small)) then 1 else 0)
is_some-Suffix k old small w = elim (Option-cases (lookup ExpertKey-discrete k small)) [
  | inl miss ↦ rw miss (omega arith)
  | inr (v, hit) ↦
      rw
        (
          lookup-append_miss ExpertKey-discrete k old small
              (lookup_apart ExpertKey-discrete k v old small w hit),
          hit,
        )
        (omega arith)
]

access-Includes :
    (n : ℕ) (k : ExpertKey) (a b : LruCacheSimulator)
    → 0 < n
    → Includes n a b
    → ((r : Bool) × ((access k n a).0 ≡ ok r))
      × ((r : Bool) × ((access k n b).0 ≡ ok r))
      × Includes n (access k n a).1 (access k n b).1
access-Includes n k a b h i =
    let (p, s) = access-Accessed k n a i.small h (Uniform-lookup n k a.entries i.small_size) in
    let (q, t) = access-Accessed k n b i.large h (Uniform-lookup n k b.entries i.large_size) in
    let (old, e) = i.recent in
    let more = is_some-Suffix k old a.entries (rw e at i.large.distinct) in
    (
      (_, p),
      (_, q),
      record {
        small = s.valid;
        large = t.valid;
        fits = rw s.capacity i.fits;
        wider = rw (s.capacity, t.capacity) i.wider;
        small_size =
            rw s.order (Uniform-recency n a.capacity_bytes k a.entries i.fits i.small_size);
        large_size = rw t.order (
            Uniform-recency n b.capacity_bytes k b.entries (omega (arith, i.fits, i.wider))
              i.large_size);
        recent =
            rw (s.order, t.order)
              (recency-Suffix n a.capacity_bytes b.capacity_bytes k a.entries b.entries i.fits
                i.wider i.large.distinct i.recent);
        fewer = rw (s.hits, t.hits) (omega (arith, i.fewer, rw (← e) at more));
        same = omega (arith, s.counted, t.counted, i.same);
      },
    )

-- A replay never raises, and keeps the inclusion.
pub replay-Includes :
    (n : ℕ) (ks : List ExpertKey) (a b : LruCacheSimulator)
    → 0 < n
    → Includes n a b
    → ((replay n ks a).0 ≡ ok tt)
      × ((replay n ks b).0 ≡ ok tt)
      × Includes n (replay n ks a).1 (replay n ks b).1
unfolding replay
replay-Includes n [] a b h i = (refl, refl, i)
replay-Includes n (k ∷ ks) a b h i =
    let ((r, p), (q, t), j) = access-Includes n k a b h i in
    rw
      (
        continue_ok (access k n a) (λ _. replay n ks) r p,
        continue_ok (access k n b) (λ _. replay n ks) q t,
      )
      (replay-Includes n ks _ _ h j)
