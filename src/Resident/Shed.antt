-- ===== src/Resident/Shed.antt =====
-- The specification of eviction: drop unpinned experts, least recently used first, until enough
-- bytes are free.
use serve_mlx.Base.{
  ℕ, ◌+◌, ◌-◌, ◌≤◌, ◌<◌, ◌≡◌, refl, some, none, [], ◌∷◌, ◌==◌, if◌then◌else◌, arith,
}
use serve_mlx.Dict.{lookup, remove, IsDict}
use serve_mlx.Policy.{ExpertKey, ExpertKey-discrete as K}
use serve_mlx.Resident.{ResidentExpert, Entries, bytes, find_victim}

module _ {A : Type 0} where
  unfoldable pub shed : ℕ → Entries A → Entries A
  shed need [] = []
  shed need ((k, e) ∷ d) =
      let later = shed need d in
      let rest = shed (need - e.nbytes) d in
      if e.pin_count == 0 then (if need == 0 then (k, e) ∷ d else rest) else (k, e) ∷ later

  -- the bytes that eviction can and cannot free
  unfoldable pub unpinned_bytes : Entries A → ℕ
  unpinned_bytes [] = 0
  unpinned_bytes ((k, e) ∷ d) = (if e.pin_count == 0 then e.nbytes else 0) + unpinned_bytes d

  unfoldable pub pinned_bytes : Entries A → ℕ
  pinned_bytes [] = 0
  pinned_bytes ((k, e) ∷ d) = (if e.pin_count == 0 then 0 else e.nbytes) + pinned_bytes d

  pub bytes-split : (d : Entries A) → bytes d ≡ unpinned_bytes d + pinned_bytes d
  unfolding unpinned_bytes pinned_bytes
  bytes-split [] = refl
  bytes-split ((k, e) ∷ d) = ground (arith, bytes-split d)

  pub shed-zero : (d : Entries A) → shed 0 d ≡ d
  unfolding shed
  shed-zero [] = refl
  shed-zero ((k, e) ∷ d) = ground (arith, shed-zero d)

  pub shed-bytes-le : (need : ℕ) (d : Entries A) → bytes (shed need d) ≤ bytes d
  unfolding shed
  shed-bytes-le need [] = omega arith
  shed-bytes-le need ((k, e) ∷ d) =
      ground (arith, shed-bytes-le need d, shed-bytes-le (need - e.nbytes) d)

  -- Enough is freed, if that many bytes are unpinned.
  pub shed_frees :
      (need : ℕ) (d : Entries A) → need ≤ unpinned_bytes d → bytes (shed need d) + need ≤ bytes d
  unfolding shed unpinned_bytes
  shed_frees need [] h = omega arith
  shed_frees need ((k, e) ∷ d) h =
      ground (
        arith,
        shed_frees need d,
        shed_frees (need - e.nbytes) d,
        shed-bytes-le (need - e.nbytes) d,
      )

  -- Otherwise the pinned experts alone are left.
  pub shed_exhausts :
      (need : ℕ) (d : Entries A) → unpinned_bytes d < need → bytes (shed need d) ≡ pinned_bytes d
  unfolding shed unpinned_bytes pinned_bytes
  shed_exhausts need [] h = refl
  shed_exhausts need ((k, e) ∷ d) h =
      ground (arith, shed_exhausts need d, shed_exhausts (need - e.nbytes) d)

  -- A pinned expert stays, as it is; nothing appears.
  pub shed_pinned :
      (need : ℕ) (q : ExpertKey) (d : Entries A) (e : ResidentExpert A)
      → IsDict K d
      → lookup K q d ≡ some e
      → 0 < e.pin_count
      → lookup K q (shed need d) ≡ some e
  unfolding shed lookup
  shed_pinned need q [] e w h p = cc
  shed_pinned need q ((k, x) ∷ d) e w h p =
      ground (arith, shed_pinned need q d e w.1, shed_pinned (need - x.nbytes) q d e w.1)

  pub shed_absent :
      (need : ℕ) (q : ExpertKey) (d : Entries A)
      → lookup K q d ≡ none
      → lookup K q (shed need d) ≡ none
  unfolding shed lookup
  shed_absent need q [] h = refl
  shed_absent need q ((k, x) ∷ d) h =
      ground (arith, shed_absent need q d, shed_absent (need - x.nbytes) q d)

  -- The loop finds its victim among the entries, unpinned.
  pub find_victim_lem :
      (d : Entries A) (k : ExpertKey) (e : ResidentExpert A)
      → IsDict K d
      → find_victim d ≡ some (k, e)
      → (lookup K k d ≡ some e) × (e.pin_count ≡ 0)
  unfolding find_victim lookup
  find_victim_lem [] k e w h = cc
  find_victim_lem ((j, x) ∷ d) k e w h = ground (arith, find_victim_lem d k e w.1)

  pub find_victim-none : (d : Entries A) → find_victim d ≡ none → unpinned_bytes d ≡ 0
  unfolding find_victim unpinned_bytes
  find_victim-none [] h = refl
  find_victim-none ((j, x) ∷ d) h = ground (arith, find_victim-none d)

  pub shed_no_victim : (need : ℕ) (d : Entries A) → find_victim d ≡ none → shed need d ≡ d
  unfolding find_victim shed
  shed_no_victim need [] h = refl
  shed_no_victim need ((j, x) ∷ d) h = ground (arith, shed_no_victim need d)

  -- One round of the loop is one step of the specification.
  pub shed_round :
      (need : ℕ) (d : Entries A) (k : ExpertKey) (e : ResidentExpert A)
      → IsDict K d
      → 0 < need
      → find_victim d ≡ some (k, e)
      → shed need d ≡ shed (need - e.nbytes) (remove K k d)
  unfolding find_victim shed remove lookup
  shed_round need [] k e w n h = cc
  shed_round need ((j, x) ∷ d) k e w n h =
      ground (arith, shed_round need d k e w.1 n, find_victim_lem d k e w.1)

  pub unpinned_bytes_round :
      (d : Entries A) (k : ExpertKey) (e : ResidentExpert A)
      → IsDict K d
      → find_victim d ≡ some (k, e)
      → unpinned_bytes (remove K k d) + e.nbytes ≡ unpinned_bytes d
  unfolding find_victim unpinned_bytes remove lookup
  unpinned_bytes_round [] k e w h = cc
  unpinned_bytes_round ((j, x) ∷ d) k e w h =
      ground (arith, unpinned_bytes_round d k e w.1, find_victim_lem d k e w.1)
