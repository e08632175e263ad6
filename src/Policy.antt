-- ===== src/Policy.antt =====
-- src/mlx_moe_stream/cache/policy.py: expert keys, and the LRU simulator with a byte budget.
-- The proofs are in the children.
--
-- `_entries` is a dictionary, least recently used first. A method is an action of `Exec` over the
-- simulator: what it counted before a raise stays counted. Sizes and counters are natural numbers:
-- a size of zero takes the branch of the sizes that are not positive.
pub mod Room
pub mod Access
pub mod Inclusion
pub mod Curve
mod Tests
use serve_mlx.Base.{
  ℕ, ◌+◌, ◌-◌, none, some, Bool, true, false, List, [], ◌∷◌, ltb, leb, ◌==◌, if◌then◌else◌, Exec,
  Result, ok, raise, value_error, key_error, continue, ℕ_discrete, ◌>>=◌, ◌>>◌, max, ite,
}
use serve_mlx.Dict.{lookup, put, put_last}

pub record ExpertKey : Type 0 where
  pub layer : ℕ
  pub expert : ℕ

unfoldable pub ExpertKey-discrete : Discrete ExpertKey
unfolding ℕ_discrete
ExpertKey-discrete = hlevel ℕ_discrete

pub record LruCacheSimulator : Type 0 where
  pub capacity_bytes : ℕ
  pub entries : List (ExpertKey × ℕ)
  pub resident_bytes : ℕ
  pub calls : ℕ
  pub hits : ℕ
  pub misses : ℕ
  pub byte_hits : ℕ
  pub byte_misses : ℕ
  pub evictions : ℕ

unfoldable pub init : ℕ → Result LruCacheSimulator
init capacity_bytes =
    if leb capacity_bytes 0
    then raise value_error
    else ok (record {
      capacity_bytes = capacity_bytes;
      entries = [];
      resident_bytes = 0;
      calls = 0;
      hits = 0;
      misses = 0;
      byte_hits = 0;
      byte_misses = 0;
      evictions = 0;
    })

-- `while self._resident_bytes + nbytes > self.capacity_bytes: self._entries.popitem(last=False)`.
-- The list is the dictionary that the loop has left; `popitem` on an empty one is a `KeyError`.
unfoldable pub make_room : ℕ → List (ExpertKey × ℕ) → Exec LruCacheSimulator (Unit {0})
make_room nbytes [] s =
    if ltb s.capacity_bytes (s.resident_bytes + nbytes) then (raise key_error, s) else (ok tt, s)
make_room nbytes ((_, evicted_bytes) ∷ rest) s =
    let evict = make_room nbytes rest (record s {
      entries = rest;
      resident_bytes = s.resident_bytes - evicted_bytes;
      evictions = s.evictions + 1;
    }) in
    if ltb s.capacity_bytes (s.resident_bytes + nbytes) then evict else (ok tt, s)

-- the branch of `access` for a key that is there
unfoldable pub touch : ExpertKey → ℕ → ℕ → Exec LruCacheSimulator Bool
touch key nbytes existing s =
    if existing == nbytes
    then (
      ok true,
      record s {
        entries = put_last ExpertKey-discrete key existing s.entries;
        hits = s.hits + 1;
        byte_hits = s.byte_hits + nbytes;
      },
    )
    else (raise value_error, s)

-- the branch for a key that is not there
unfoldable pub load : ExpertKey → ℕ → Exec LruCacheSimulator Bool
unfolding make_room
load key nbytes s0 =
    let s = record s0 { misses = s0.misses + 1; byte_misses = s0.byte_misses + nbytes } in
    if ltb s.capacity_bytes nbytes
    then (ok false, s)
    else continue (make_room nbytes s.entries s) (λ _ t. (
      ok false,
      record t {
        entries = put ExpertKey-discrete key nbytes t.entries;
        resident_bytes = t.resident_bytes + nbytes;
      },
    ))

unfoldable pub access : ExpertKey → ℕ → Exec LruCacheSimulator Bool
unfolding touch load
access key nbytes s0 =
    if leb nbytes 0
    then (raise value_error, s0)
    else (let s = record s0 { calls = s0.calls + 1 } in
        elim (lookup ExpertKey-discrete key s.entries) [
          | some existing ↦ touch key nbytes existing s
          | none ↦ load key nbytes s
        ])

-- `for key in access_list: simulator.access(key)`
unfoldable pub replay : ℕ → List ExpertKey → Exec LruCacheSimulator (Unit {0})
unfolding access
replay nbytes [] s = (ok tt, s)
replay nbytes (key ∷ rest) s = continue (access key nbytes s) (λ _. replay nbytes rest)

-- `(layer, expert)` in `set(access_list)`
unfoldable pub member : ExpertKey → List ExpertKey → Bool
member key [] = false
member key (k ∷ ks) = ite (ExpertKey-discrete k key) true (member key ks)

-- `len(set(access_list))`
unfoldable pub working_set : List ExpertKey → ℕ
unfolding member
working_set [] = 0
working_set (k ∷ ks) = (if member k ks then 0 else 1) + working_set ks

pub record Row (F : Type 0) : Type 0 where
  pub stats : LruCacheSimulator
  pub capacity_fraction : F
  pub capacity_experts : ℕ

-- The fractions are floats: `F`, with the test `0 < fraction <= 1` and `ceil(n * fraction)`.
module _ {F : Type 0} (in_range : F → Bool) (scale : ℕ → F → ℕ) where
  -- the body of the loop over the capacities
  unfoldable pub curve_row : List ExpertKey → F → Result (Row F)
  unfolding init replay working_set
  curve_row access_list fraction =
      if in_range fraction
      then (do
        simulator ← init (max 1 (scale (working_set access_list) fraction))
        let (result, after) = replay 1 access_list simulator
        result
        ok (record {
          stats = after;
          capacity_fraction = fraction;
          capacity_experts = simulator.capacity_bytes;
        }))
      else raise value_error

  unfoldable pub curve_rows : List ExpertKey → List F → Result (List (Row F))
  unfolding curve_row
  curve_rows access_list [] = ok []
  curve_rows access_list (fraction ∷ rest) = do
    row ← curve_row access_list fraction
    rows ← curve_rows access_list rest
    ok (row ∷ rows)

  unfoldable pub simulate_lru_curve : List ExpertKey → List F → Result (List (Row F))
  unfolding curve_rows working_set
  simulate_lru_curve access_list capacities =
      if working_set access_list == 0 then ok [] else curve_rows access_list capacities
