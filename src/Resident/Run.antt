-- ===== src/Resident/Run.antt =====
-- Any sequence of calls on a resident cache.
use serve_mlx.Base.{
  ok-injective, ℕ, ◌≡◌, refl, ok, Bool-cases, inl, inr, List, [], ◌∷◌, arith, leb, ltb,
  leb_false→lt,
}
use serve_mlx.Base.Int.{ℤ, pos, negsuc}
use serve_mlx.Dict.{lookup}
use serve_mlx.Policy.{ExpertKey}
use serve_mlx.Resident.{
  ResidentExpert, ResidentCache, init, get, reserve, admit, pin, unpin, evict_until, evict_to,
  resize,
}
use serve_mlx.Resident.Budget.{IsValid, evict_until-Freed, evict_to-Freed, resize-Resized}
use serve_mlx.Resident.Methods.{get-IsValid, pin-IsValid, unpin-IsValid}
use serve_mlx.Resident.Admit.{admit-IsValid}

-- the public methods that change the cache
pub data Call (A : Type 0) : Type 0 where
  call_get : ExpertKey → ℤ → Call A
  call_reserve : ℕ → Call A
  call_admit : ResidentExpert A → Call A
  call_pin call_unpin : ExpertKey → Call A
  call_evict_until call_evict_to : ℤ → Call A
  call_resize : ℕ → Call A

module _ {A : Type 0} where
  -- the cache after a call, whether it returned or raised
  unfoldable pub after : Call A → ResidentCache A → ResidentCache A
  unfolding get reserve admit pin unpin evict_until evict_to resize
  after (call_get key nbytes) s = (get key nbytes s).1
  after (call_reserve nbytes) s = (reserve nbytes s).1
  after (call_admit expert) s = (admit expert s).1
  after (call_pin key) s = (pin key s).1
  after (call_unpin key) s = (unpin key s).1
  after (call_evict_until n) s = (evict_until n s).1
  after (call_evict_to n) s = (evict_to n s).1
  after (call_resize n) s = (resize n s).1

  unfoldable pub run : List (Call A) → ResidentCache A → ResidentCache A
  unfolding after
  run [] s = s
  run (c ∷ calls) s = run calls (after c s)

  init-IsValid : (n : ℕ) {s : ResidentCache A} → init n ≡ ok s → IsValid s
  unfolding init lookup
  init-IsValid n h = elim (Bool-cases (leb n 0)) [
    | inl bad ↦ absurd (let x = (rw bad at h) in cc)
    | inr good ↦ rw (← ok-injective (rw good at h)) (record {
      positive = leb_false→lt n 0 good;
      sound = record {
        accounted = refl;
        distinct = tt;
        admitted_distinct = tt;
        tracked = λ q. ((λ _. refl), (λ _. refl));
      };
      within = omega arith;
    })
  ]

  evict_until-IsValid : (n : ℤ) (s : ResidentCache A) → IsValid s → IsValid (evict_until n s).1
  evict_until-IsValid (pos n) s v = (evict_until-Freed n s v).valid
  evict_until-IsValid (negsuc n) s v = unfold evict_until in v

  evict_to-IsValid : (n : ℤ) (s : ResidentCache A) → IsValid s → IsValid (evict_to n s).1
  evict_to-IsValid (pos n) s v = (evict_to-Freed n s v).valid
  evict_to-IsValid (negsuc n) s v = unfold evict_to in v

  reserve-IsValid : (n : ℕ) (s : ResidentCache A) → IsValid s → IsValid (reserve n s).1
  unfolding reserve
  reserve-IsValid n s v = elim (Bool-cases (leb n 0)) [
    | inl bad ↦ rw bad v
    | inr good ↦ elim (Bool-cases (ltb s.capacity_bytes n)) [
      | inl big ↦ rw (good, big) v
      | inr fits ↦ rw (good, fits) (evict_until-IsValid (pos n) s v)
    ]
  ]

  resize-IsValid : (n : ℕ) (s : ResidentCache A) → IsValid s → IsValid (resize n s).1
  resize-IsValid n s v = elim (Bool-cases (leb n 0)) [
    | inl bad ↦ unfold resize in rw bad v
    | inr good ↦ (resize-Resized n s (leb_false→lt n 0 good) v).valid
  ]

  after-IsValid : (c : Call A) (s : ResidentCache A) → IsValid s → IsValid (after c s)
  unfolding after
  after-IsValid (call_get key nbytes) s v = get-IsValid key nbytes s v
  after-IsValid (call_reserve nbytes) s v = reserve-IsValid nbytes s v
  after-IsValid (call_admit expert) s v = admit-IsValid expert s v
  after-IsValid (call_pin key) s v = pin-IsValid key s v
  after-IsValid (call_unpin key) s v = unpin-IsValid key s v
  after-IsValid (call_evict_until n) s v = evict_until-IsValid n s v
  after-IsValid (call_evict_to n) s v = evict_to-IsValid n s v
  after-IsValid (call_resize n) s v = resize-IsValid n s v

  run-keeps : (calls : List (Call A)) (s : ResidentCache A) → IsValid s → IsValid (run calls s)
  unfolding run
  run-keeps [] s v = v
  run-keeps (c ∷ calls) s v = run-keeps calls (after c s) (after-IsValid c s v)

  -- From the constructor on, after any sequence of calls with any arguments, raising or not, the
  -- byte account is the sum over the entries and within the capacity, keys are distinct, and the
  -- admission record has the same keys.
  pub run-IsValid :
      (n : ℕ) (s : ResidentCache A) (calls : List (Call A)) → init n ≡ ok s → IsValid (run calls s)
  run-IsValid n s calls h = run-keeps calls s (init-IsValid n h)
