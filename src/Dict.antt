-- ===== src/Dict.antt =====
-- Python's `dict` and `OrderedDict`, which keep their entries in insertion order: an association
-- list, oldest entry first. The proofs are in the child.
pub mod Laws
use serve_mlx.Base.{ℕ, ◌+◌, ◌≡◌, Option, none, some, List, [], ◌∷◌, ◌++◌, map, ite}

module _ {ℓ} {K V : Type ℓ} (dec : Discrete K) where
  -- d.get(k)
  unfoldable pub lookup : K → List (K × V) → Option V
  lookup k [] = none
  lookup k ((j, v) ∷ d) = ite (dec j k) (some v) (lookup k d)

  -- d.pop(k), del d[k]
  unfoldable pub remove : K → List (K × V) → List (K × V)
  remove k [] = []
  remove k ((j, v) ∷ d) = ite (dec j k) d ((j, v) ∷ remove k d)

  -- d[k] = v: a key that is there keeps its place, a new one goes to the end
  unfoldable pub put : K → V → List (K × V) → List (K × V)
  put k v [] = (k, v) ∷ []
  put k v ((j, w) ∷ d) = ite (dec j k) ((j, v) ∷ d) ((j, w) ∷ put k v d)

  -- d[k] = v; d.move_to_end(k), where k is a key
  unfoldable pub put_last : K → V → List (K × V) → List (K × V)
  unfolding remove
  put_last k v d = remove k d ++ (k, v) ∷ []

  -- no key twice
  abbrev pub IsDict : List (K × V) → Type ℓ
  IsDict [] = Unit
  IsDict ((k, v) ∷ d) = (lookup k d ≡ none) × IsDict d

module _ {ℓ} {K V : Type ℓ} where
  abbrev pub keys : List (K × V) → List K
  keys = map (λ e. e.0)

  -- sum(f(v) for v in d.values())
  abbrev pub total : (V → ℕ) → List (K × V) → ℕ
  total f [] = 0
  total f ((k, v) ∷ d) = f v + total f d
