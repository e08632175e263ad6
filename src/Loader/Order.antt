-- ===== src/Loader/Order.antt =====
-- The order in which workers take the entries of the queue.
use serve_mlx.Base.{ℕ, ◌≤◌, ◌≡◌, true, false, List, [], ◌∷◌, arith, Bool-cases, inl, inr}
use serve_mlx.Loader.{Queued, Item, stop, read, before, get_least}

module _ {B : Type 0} where
  -- the priority is at most that of each entry
  pub data Least (p : ℕ) : List (Queued B) → Type 0 where
    none_left : Least p []
    one_more :
        (q : Queued B) (rest : List (Queued B)) → p ≤ q.priority → Least p rest → Least p (q ∷ rest)

  Least-le : (p r : ℕ) (l : List (Queued B)) → r ≤ p → Least p l → Least r l
  Least-le p r [] h none_left = none_left
  Least-le p r (q ∷ l) h (one_more a b le m) =
      one_more q l (omega (arith, h, le)) (Least-le p r l h m)

  before_lem : (a b : Queued B) → before a b ≡ true → a.priority ≤ b.priority
  before_lem a b h = ground arith

  before_not : (a b : Queued B) → before a b ≡ false → b.priority ≤ a.priority
  before_not a b h = ground arith

  pub get_least-Least :
      (q : Queued B) (l : List (Queued B))
      → Least (get_least q l).0.priority (q ∷ l)
        × Least (get_least q l).0.priority (get_least q l).1
  unfolding get_least
  get_least-Least q [] = (one_more q [] (omega arith) none_left, none_left)
  get_least-Least q (r ∷ l) = elim (Bool-cases (before q (get_least r l).0)) [
    | inl h ↦
        let least =
          Least-le (get_least r l).0.priority q.priority (r ∷ l) (before_lem q (get_least r l).0 h)
            (get_least-Least r l).0 in
        rw (get_least, h) ((one_more q (r ∷ l) (omega arith) least, least))
    | inr h ↦
        let le = before_not q (get_least r l).0 h in
        rw (get_least, h)
          ((
            one_more q (r ∷ l) le (get_least-Least r l).0,
            one_more q (get_least r l).1 le (get_least-Least r l).1,
          ))
  ]

  -- Reads have the priorities 0 and 1, the entries that end workers have 2.
  abbrev pub HasRank : Item B → ℕ → Type 0
  HasRank stop p = p ≡ 2
  HasRank (read key bundle request) p = p ≤ 1

  abbrev pub Ranked : List (Queued B) → Type 0
  Ranked [] = Unit
  Ranked (q ∷ l) = HasRank q.item q.priority × Ranked l

  -- no read is left
  abbrev pub IsStop : Item B → Type 0
  IsStop stop = Unit
  IsStop (read key bundle request) = ⊥

  abbrev pub OnlyStops : List (Queued B) → Type 0
  OnlyStops [] = Unit
  OnlyStops (q ∷ l) = IsStop q.item × OnlyStops l

  pub get_least-Ranked :
      (q : Queued B) (l : List (Queued B))
      → Ranked (q ∷ l)
      → HasRank (get_least q l).0.item (get_least q l).0.priority × Ranked (get_least q l).1
  unfolding get_least
  get_least-Ranked q [] h = (h.0, tt)
  get_least-Ranked q (r ∷ l) h = elim (Bool-cases (before q (get_least r l).0)) [
    | inl e ↦ rw (get_least, e) h
    | inr e ↦
        rw (get_least, e) (((get_least-Ranked r l h.1).0, (h.0, (get_least-Ranked r l h.1).1)))
  ]

  stops_lem : (i : Item B) (p : ℕ) → 2 ≤ p → HasRank i p → IsStop i
  stops_lem stop p le h = tt
  stops_lem (read key bundle request) p le h = omega (arith, le, h)

  pub Least-OnlyStops : (l : List (Queued B)) → Least 2 l → Ranked l → OnlyStops l
  Least-OnlyStops [] none_left h = tt
  Least-OnlyStops (q ∷ l) (one_more a b le m) h =
      (stops_lem q.item q.priority le h.0, Least-OnlyStops l m h.1)
