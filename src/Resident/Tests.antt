-- ===== src/Resident/Tests.antt =====
-- Runs of the resident cache, and the theorems at concrete caches.
use serve_mlx.Base.{ℕ, ◌≡◌, refl, some, none, List, [], ◌∷◌, ok, raise, memory_budget, arith}
use serve_mlx.Base.Int.{pos, negsuc}
use serve_mlx.Dict.{lookup, remove, put, put_last}
use serve_mlx.Policy.{ExpertKey, ExpertKey-discrete}
use serve_mlx.Resident.{ResidentExpert, ResidentCache, init, admit, evict_until, evict_to, resize}
use serve_mlx.Resident.Budget.{
  IsValid, Freed, Resized, evict_until-Freed, evict_to-Freed, resize-Resized,
}
use serve_mlx.Resident.Methods.{Pinned, pin-unpin}
use serve_mlx.Resident.Admit.{Admitted, admit-Admitted}
use serve_mlx.Resident.Run.{Call, call_get, call_admit, call_pin, call_resize, run, run-IsValid}

abbrev key : ℕ → ExpertKey
key n = record { layer = 0; expert = n }

abbrev expert : ℕ → ℕ → ResidentExpert ℕ
expert n size = record { key = key n; arrays = 0; nbytes = size; last_used_step = 0; pin_count = 0 }

abbrev empty : ResidentCache ℕ
empty = record {
  capacity_bytes = 10;
  entries = [];
  resident_bytes = 0;
  step = 0;
  lookup_count = 0;
  hit_count = 0;
  miss_count = 0;
  byte_hits = 0;
  byte_misses = 0;
  eviction_count = 0;
  admission_bytes = 0;
  reload_bytes = 0;
  evicted_residence_steps = 0;
  ever_admitted = [];
  admitted_at = [];
  per_layer_hits = [];
  per_layer_misses = [];
}

abbrev calls : List (Call ℕ)
calls =
    call_admit (expert 1 4)
    ∷ call_admit (expert 2 5)
    ∷ call_pin (key 1)
    ∷ call_get (key 2) (negsuc 0)
    ∷ call_resize 7
    ∷ []

-- Two experts of 4 and 5 bytes, the first pinned; the resize evicts the second.
run_entries : (run calls empty).resident_bytes ≡ 4
unfolding run lookup remove put put_last ExpertKey-discrete
run_entries = refl

init-empty : init 10 ≡ ok empty
unfolding init
init-empty = refl

abbrev busy : ResidentCache ℕ
busy = run (call_admit (expert 1 4) ∷ call_admit (expert 2 5) ∷ call_pin (key 1) ∷ []) empty

busy-IsValid : IsValid busy
busy-IsValid = run-IsValid 10 empty _ init-empty

run-IsValid_example : IsValid (run calls empty)
run-IsValid_example = run-IsValid 10 empty calls init-empty

evict_until-Freed_example : Freed busy.capacity_bytes 5 busy (evict_until (pos 5) busy)
evict_until-Freed_example = evict_until-Freed 5 busy busy-IsValid

-- the pinned expert leaves no room for 7 bytes
evict_until_raises : (evict_until (pos 7) busy).0 ≡ raise memory_budget
unfolding run lookup remove put put_last ExpertKey-discrete
evict_until_raises = refl

evict_to-Freed_example : Freed 4 0 busy (evict_to (pos 4) busy)
evict_to-Freed_example = evict_to-Freed 4 busy busy-IsValid

resize-Resized_example : Resized 3 busy (resize 3 busy)
resize-Resized_example = resize-Resized 3 busy (omega arith) busy-IsValid

miss : lookup ExpertKey-discrete (key 3) busy.entries ≡ none
unfolding run lookup remove put put_last ExpertKey-discrete
miss = refl

admit-Admitted_example : Admitted (expert 3 5) busy (admit (expert 3 5) busy)
admit-Admitted_example = admit-Admitted (expert 3 5) busy busy-IsValid (omega arith) miss

abbrev second : ResidentExpert ℕ
second = record (expert 2 5) { last_used_step = 2 }

hit : lookup ExpertKey-discrete (key 2) busy.entries ≡ some second
unfolding run lookup remove put put_last ExpertKey-discrete
hit = refl

pin-unpin_example : Pinned (key 2) second busy
pin-unpin_example = pin-unpin (key 2) second busy busy-IsValid hit
