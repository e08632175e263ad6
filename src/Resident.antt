-- ===== src/Resident.antt =====
-- src/mlx_moe_stream/cache/resident.py: the resident expert cache. The proofs are in the children.
--
-- `_entries` and `_admitted_at` are dictionaries in insertion order, so the first entry is the least
-- recently used one. A method is an action of `Exec` over the cache: what it changed before a raise
-- stays changed. An argument that the source tests with `< 0` is an integer; byte counts, steps and
-- counters are natural numbers. The MLX arrays of an expert are of any type `A`. An expert is a
-- value here: what a method returns is the entry as the cache holds it at that time.
pub mod Shed
pub mod Evict
pub mod Budget
pub mod Methods
pub mod Admit
pub mod Run
mod Tests
use serve_mlx.Base.{
  ℕ, ◌+◌, ◌-◌, Option, none, some, Bool, true, false, ◌&&◌, not, List, [], ◌∷◌, ltb, leb, ◌==◌,
  if◌then◌else◌, Exec, Result, ok, raise, value_error, key_error, runtime_error, memory_budget,
  continue, ℕ_discrete, min,
}
use serve_mlx.Base.Int.{ℤ, pos, negsuc}
use serve_mlx.Dict.{lookup, remove, put, put_last, total}
use serve_mlx.Policy.{ExpertKey, ExpertKey-discrete as K, member}

pub record ResidentExpert (A : Type 0) : Type 0 where
  pub key : ExpertKey
  pub arrays : A
  pub nbytes : ℕ
  pub last_used_step : ℕ
  pub pin_count : ℕ

abbrev pub Entries : Type 0 → Type 0
Entries A = List (ExpertKey × ResidentExpert A)

pub record ResidentCache (A : Type 0) : Type 0 where
  pub capacity_bytes : ℕ
  pub entries : Entries A
  pub resident_bytes : ℕ
  pub step : ℕ
  pub lookup_count : ℕ
  pub hit_count : ℕ
  pub miss_count : ℕ
  pub byte_hits : ℕ
  pub byte_misses : ℕ
  pub eviction_count : ℕ
  pub admission_bytes : ℕ
  pub reload_bytes : ℕ
  pub evicted_residence_steps : ℕ
  pub ever_admitted : List ExpertKey
  pub admitted_at : List (ExpertKey × ℕ)
  pub per_layer_hits : List (ℕ × ℕ)
  pub per_layer_misses : List (ℕ × ℕ)

-- `counts[layer] += 1` on a `defaultdict(int)`
unfoldable pub bump : ℕ → List (ℕ × ℕ) → List (ℕ × ℕ)
unfolding ℕ_discrete lookup put
bump layer counts = elim (lookup ℕ_discrete layer counts) [
  | none ↦ put ℕ_discrete layer 1 counts
  | some n ↦ put ℕ_discrete layer (n + 1) counts
]

-- `a.keys() <= b.keys()`
unfoldable pub keys_within : {V W : Type 0} → List (ExpertKey × V) → List (ExpertKey × W) → Bool
keys_within [] e = true
keys_within ((k, _) ∷ d) e = elim (lookup K k e) [ none ↦ false | some _ ↦ true ] && keys_within d e

module _ {A : Type 0} where
  abbrev pub bytes : Entries A → ℕ
  bytes = total (λ e. e.nbytes)

  unfoldable pub init : ℕ → Result (ResidentCache A)
  init capacity_bytes =
      if leb capacity_bytes 0
      then raise value_error
      else ok (record {
        capacity_bytes = capacity_bytes;
        entries = [];
        resident_bytes = 0;
        step = 0;
        lookup_count = 0;
        hit_count = 0;
        miss_count = 0;
        byte_hits = 0;
        byte_misses = 0;
        eviction_count = 0;
        admission_bytes = 0;
        reload_bytes = 0;
        evicted_residence_steps = 0;
        ever_admitted = [];
        admitted_at = [];
        per_layer_hits = [];
        per_layer_misses = [];
      })

  -- the end of `get`, for a resident expert
  unfoldable pub touch :
      ExpertKey → ResidentExpert A → Exec (ResidentCache A) (Option (ResidentExpert A))
  unfolding bump
  touch key expert s =
      let used = record expert { last_used_step = s.step } in
      (
        ok (some used),
        record s {
          entries = put_last K key used s.entries;
          hit_count = s.hit_count + 1;
          byte_hits = s.byte_hits + expert.nbytes;
          per_layer_hits = bump key.layer s.per_layer_hits;
        },
      )

  unfoldable pub get : ExpertKey → ℤ → Exec (ResidentCache A) (Option (ResidentExpert A))
  unfolding touch bump
  get key (negsuc _) s = (raise value_error, s)
  get key (pos nbytes) s0 =
      let s = record s0 { step = s0.step + 1; lookup_count = s0.lookup_count + 1 } in
      elim (lookup K key s.entries) [
        | none ↦ (
          ok none,
          record s {
            miss_count = s.miss_count + 1;
            byte_misses = s.byte_misses + nbytes;
            per_layer_misses = bump key.layer s.per_layer_misses;
          },
        )
        | some expert ↦
            if not (nbytes == 0) && not (expert.nbytes == nbytes)
            then (raise value_error, s)
            else touch key expert s
      ]

  unfoldable pub contains : ExpertKey → ResidentCache A → Bool
  contains key s = elim (lookup K key s.entries) [ none ↦ false | some _ ↦ true ]

  -- `next((key for key, expert in self._entries.items() if expert.pin_count == 0), None)`, with the
  -- expert under that key
  unfoldable pub find_victim : Entries A → Option (ExpertKey × ResidentExpert A)
  find_victim [] = none
  find_victim ((key, expert) ∷ rest) =
      if expert.pin_count == 0 then some (key, expert) else find_victim rest

  -- the body of the eviction loops: `_entries.pop`, `_admitted_at.pop` and the accounting
  unfoldable pub evict : ExpertKey → ResidentExpert A → Exec (ResidentCache A) (Unit {0})
  evict victim_key victim s0 =
      let s = record s0 { entries = remove K victim_key s0.entries } in
      elim (lookup K victim_key s.admitted_at) [
        | none ↦ (raise key_error, s)
        | some admitted_at ↦ (
          ok tt,
          record s {
            admitted_at = remove K victim_key s.admitted_at;
            resident_bytes = s.resident_bytes - victim.nbytes;
            eviction_count = s.eviction_count + 1;
            evicted_residence_steps = s.evicted_residence_steps + (s.step - admitted_at);
          },
        )
      ]

  -- The loop of `evict_until` and `_evict_while`. A round takes one entry away, so the entries at
  -- its start bound the rounds: the list `rounds` is at least as long as the entries, and where it
  -- ends there is no victim.
  unfoldable pub evict_rounds :
      (ResidentCache A → Bool) → Entries A → Exec (ResidentCache A) (Unit {0})
  unfolding find_victim evict
  evict_rounds predicate [] s = if predicate s then (raise memory_budget, s) else (ok tt, s)
  evict_rounds predicate (_ ∷ rounds) s =
      let round : Result (Unit {0}) × ResidentCache A = elim (find_victim s.entries) [
        | none ↦ (raise memory_budget, s)
        | some (victim_key, victim) ↦
            continue (evict victim_key victim s) (λ _. evict_rounds predicate rounds)
      ] in
      if predicate s then round else (ok tt, s)

  unfoldable pub assert_invariant : Exec (ResidentCache A) (Unit {0})
  unfolding keys_within
  assert_invariant s =
      if not (s.resident_bytes == bytes s.entries)
      then (raise runtime_error, s)
      else if not (keys_within s.admitted_at s.entries && keys_within s.entries s.admitted_at)
      then (raise runtime_error, s)
      else if ltb s.capacity_bytes s.resident_bytes
      then (raise runtime_error, s)
      else (ok tt, s)

  unfoldable pub evict_while : (ResidentCache A → Bool) → Exec (ResidentCache A) (Unit {0})
  unfolding evict_rounds assert_invariant
  evict_while predicate s = continue (evict_rounds predicate s.entries s) (λ _. assert_invariant)

  unfoldable pub evict_until : ℤ → Exec (ResidentCache A) (Unit {0})
  unfolding evict_while
  evict_until (negsuc _) s = (raise value_error, s)
  evict_until (pos required_bytes) s =
      evict_while (λ t. ltb t.capacity_bytes (t.resident_bytes + required_bytes)) s

  unfoldable pub evict_to : ℤ → Exec (ResidentCache A) (Unit {0})
  unfolding evict_while
  evict_to (negsuc _) s = (raise value_error, s)
  evict_to (pos target_bytes) s =
      if leb s.resident_bytes target_bytes
      then (ok tt, s)
      else evict_while (λ t. ltb target_bytes t.resident_bytes) s

  unfoldable pub reserve : ℕ → Exec (ResidentCache A) (Unit {0})
  unfolding evict_until
  reserve nbytes s =
      if leb nbytes 0
      then (raise value_error, s)
      else if ltb s.capacity_bytes nbytes
      then (raise memory_budget, s)
      else evict_until (pos nbytes) s

  -- `admit` after `reserve`
  unfoldable pub insert : ResidentExpert A → Exec (ResidentCache A) (ResidentExpert A)
  unfolding assert_invariant member
  insert expert0 s0 =
      let s = record s0 { step = s0.step + 1 } in
      let expert = record expert0 { last_used_step = s.step } in
      continue
        (assert_invariant (record s {
          entries = put K expert.key expert s.entries;
          admitted_at = put K expert.key s.step s.admitted_at;
          resident_bytes = s.resident_bytes + expert.nbytes;
          admission_bytes = s.admission_bytes + expert.nbytes;
          reload_bytes =
              if member expert.key s.ever_admitted
              then s.reload_bytes + expert.nbytes
              else s.reload_bytes;
          ever_admitted =
              if member expert.key s.ever_admitted
              then s.ever_admitted
              else expert.key ∷ s.ever_admitted;
        }))
        (λ _ t. (ok expert, t))

  unfoldable pub admit : ResidentExpert A → Exec (ResidentCache A) (ResidentExpert A)
  unfolding reserve insert
  admit expert s =
      if leb expert.nbytes 0 then (raise value_error, s) else elim (lookup K expert.key s.entries) [
        | some existing ↦
            if existing.nbytes == expert.nbytes then (ok existing, s) else (raise value_error, s)
        | none ↦ continue (reserve expert.nbytes s) (λ _. insert expert)
      ]

  unfoldable pub pin : ExpertKey → Exec (ResidentCache A) (ResidentExpert A)
  pin key s0 = elim (lookup K key s0.entries) [
    | none ↦ (raise key_error, s0)
    | some expert0 ↦
        let s = record s0 { step = s0.step + 1 } in
        let expert = record expert0 {
          last_used_step = s.step;
          pin_count = expert0.pin_count + 1;
        } in
        (ok expert, record s { entries = put_last K key expert s.entries })
  ]

  unfoldable pub unpin : ExpertKey → Exec (ResidentCache A) (Unit {0})
  unpin key s = elim (lookup K key s.entries) [
    | none ↦ (raise key_error, s)
    | some expert ↦ if leb expert.pin_count 0 then (raise runtime_error, s) else (
      ok tt,
      record s {
        entries = put K key (record expert { pin_count = expert.pin_count - 1 }) s.entries;
      },
    )
  ]

  -- the `try` of `resize`: whatever was raised, the previous capacity comes back
  unfoldable pub restore_on_raise :
      ℕ → Result (Unit {0}) × ResidentCache A → Result (Unit {0}) × ResidentCache A
  unfolding assert_invariant
  restore_on_raise previous (ok tt, s) = assert_invariant s
  restore_on_raise previous (raise e, s) = (raise e, record s { capacity_bytes = previous })

  unfoldable pub resize : ℕ → Exec (ResidentCache A) (Unit {0})
  unfolding evict_while restore_on_raise
  resize capacity_bytes s =
      if leb capacity_bytes 0
      then (raise value_error, s)
      else restore_on_raise s.capacity_bytes (
          evict_while (λ t. ltb t.capacity_bytes t.resident_bytes)
            (record s { capacity_bytes = capacity_bytes }))

  -- `min((entry.nbytes for entry in self._entries.values()), default=None)`
  unfoldable pub minimum_bytes : Entries A → Option ℕ
  minimum_bytes [] = none
  minimum_bytes ((_, entry) ∷ rest) = elim (minimum_bytes rest) [
    | none ↦ some entry.nbytes
    | some n ↦ some (min entry.nbytes n)
  ]

  abbrev pub minimum_entry_bytes : ResidentCache A → Option ℕ
  minimum_entry_bytes s = minimum_bytes s.entries
