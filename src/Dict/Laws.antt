-- ===== src/Dict/Laws.antt =====
-- The laws of dictionaries that the components share.
use serve_mlx.Base.{
  ap, ℕ, ◌+◌, ◌≡◌, ◌≢◌, refl, sym, ◌∙◌, none, some, List, [], ◌∷◌, ◌++◌, ite, arith, if_pos, if_neg,
  length,
}
use serve_mlx.Dict.{lookup, remove, put, put_last, IsDict, total}

module _ {ℓ} {K V : Type ℓ} (f : V → ℕ) where
  pub total-append : (d e : List (K × V)) → total f (d ++ e) ≡ total f d + total f e
  total-append [] e = omega arith
  total-append ((k, v) ∷ d) e = omega (arith, total-append d e)

module _ {ℓ} {K V : Type ℓ} (dec : Discrete K) where
  pub lookup-append :
      (k : K) (d e : List (K × V))
      → lookup dec k (d ++ e) ≡ elim (lookup dec k d) [ none ↦ lookup dec k e | some v ↦ some v ]
  unfolding lookup
  lookup-append k [] e = refl
  lookup-append k ((j, v) ∷ d) e = ground (arith, lookup-append k d e)

  pub lookup-append_miss :
      (k : K) (d e : List (K × V)) → lookup dec k d ≡ none → lookup dec k (d ++ e) ≡ lookup dec k e
  lookup-append_miss k d e h = ground (arith, lookup-append k d e)

  pub lookup-append_hit :
      (k : K) (d e : List (K × V)) {v : V}
      → lookup dec k d ≡ some v
      → lookup dec k (d ++ e) ≡ some v
  lookup-append_hit k d e h = ground (arith, lookup-append k d e)

  pub lookup-append_none :
      (k : K) (d e : List (K × V))
      → lookup dec k (d ++ e) ≡ none
      → (lookup dec k d ≡ none) × (lookup dec k e ≡ none)
  lookup-append_none k d e h = ground (arith, lookup-append k d e)

  pub lookup-remove_self :
      (k : K) (d : List (K × V)) → IsDict dec d → lookup dec k (remove dec k d) ≡ none
  unfolding lookup remove
  lookup-remove_self k [] h = refl
  lookup-remove_self k ((j, v) ∷ d) h = ground (arith, lookup-remove_self k d h.1)

  pub lookup-remove_ne :
      (k j : K) (d : List (K × V)) → k ≢ j → lookup dec j (remove dec k d) ≡ lookup dec j d
  unfolding lookup remove
  lookup-remove_ne k j [] h = refl
  lookup-remove_ne k j ((i, v) ∷ d) h = ground (arith, lookup-remove_ne k j d)

  pub lookup-remove-none :
      (k j : K) (d : List (K × V)) → lookup dec j d ≡ none → lookup dec j (remove dec k d) ≡ none
  unfolding lookup remove
  lookup-remove-none k j [] h = refl
  lookup-remove-none k j ((i, v) ∷ d) h = ground (arith, lookup-remove-none k j d)

  pub remove_absent : (k : K) (d : List (K × V)) → lookup dec k d ≡ none → remove dec k d ≡ d
  unfolding lookup remove
  remove_absent k [] h = refl
  remove_absent k ((j, v) ∷ d) h = ground (arith, remove_absent k d)

  pub remove-IsDict : (k : K) (d : List (K × V)) → IsDict dec d → IsDict dec (remove dec k d)
  unfolding lookup remove
  remove-IsDict k [] h = tt
  remove-IsDict k ((j, v) ∷ d) h =
      elim (dec j k) as (λ b. IsDict dec (ite b d ((j, v) ∷ remove dec k d))) [
        | yes p ↦ h.1
        | no p ↦ (lookup-remove-none k j d h.0, remove-IsDict k d h.1)
      ]

  pub append-IsDict :
      (k : K) (v : V) (d : List (K × V))
      → lookup dec k d ≡ none
      → IsDict dec d
      → IsDict dec (d ++ (k, v) ∷ [])
  unfolding lookup
  append-IsDict k v [] h w = (refl, tt)
  append-IsDict k v ((j, u) ∷ d) h w =
      (ground (arith, lookup-append j d ((k, v) ∷ [])), append-IsDict k v d (ground arith) w.1)

  -- `d[k] = v` at a new key
  pub put_new :
      (k : K) (v : V) (d : List (K × V)) → lookup dec k d ≡ none → put dec k v d ≡ d ++ (k, v) ∷ []
  unfolding lookup put
  put_new k v [] h = refl
  put_new k v ((j, w) ∷ d) h = ground (arith, put_new k v d)

  pub lookup-put_self : (k : K) (v : V) (d : List (K × V)) → lookup dec k (put dec k v d) ≡ some v
  unfolding lookup put
  lookup-put_self k v [] = if_pos (dec k k) refl _ _
  lookup-put_self k v ((j, w) ∷ d) = ground (arith, lookup-put_self k v d)

  pub lookup-put_ne :
      (k j : K) (v : V) (d : List (K × V)) → k ≢ j → lookup dec j (put dec k v d) ≡ lookup dec j d
  unfolding lookup put
  lookup-put_ne k j v [] h = ground arith
  lookup-put_ne k j v ((i, w) ∷ d) h = ground (arith, lookup-put_ne k j v d)

  pub put-IsDict : (k : K) (v : V) (d : List (K × V)) → IsDict dec d → IsDict dec (put dec k v d)
  unfolding lookup put
  put-IsDict k v [] h = (refl, tt)
  put-IsDict k v ((j, w) ∷ d) h =
      elim (dec j k) as (λ b. IsDict dec (ite b ((j, v) ∷ d) ((j, w) ∷ put dec k v d))) [
        | yes p ↦ h
        | no p ↦ (lookup-put_ne k j v d (λ e. p (sym e)) ∙ h.0, put-IsDict k v d h.1)
      ]

  pub lookup-put_last_self :
      (k : K) (v : V) (d : List (K × V)) → IsDict dec d → lookup dec k (put_last dec k v d) ≡ some v
  unfolding put_last lookup
  lookup-put_last_self k v d h =
      lookup-append_miss k (remove dec k d) ((k, v) ∷ []) (lookup-remove_self k d h)
      ∙ if_pos (dec k k) refl _ _

  pub lookup-put_last_ne :
      (k j : K) (v : V) (d : List (K × V))
      → k ≢ j
      → lookup dec j (put_last dec k v d) ≡ lookup dec j d
  unfolding put_last lookup
  lookup-put_last_ne k j v d h =
      ground (arith, lookup-append j (remove dec k d) ((k, v) ∷ []), lookup-remove_ne k j d)

  pub put_last-IsDict :
      (k : K) (v : V) (d : List (K × V)) → IsDict dec d → IsDict dec (put_last dec k v d)
  unfolding put_last
  put_last-IsDict k v d h =
      append-IsDict k v (remove dec k d) (lookup-remove_self k d h) (remove-IsDict k d h)

  pub total-remove :
      (f : V → ℕ) (k : K) (v : V) (d : List (K × V))
      → lookup dec k d ≡ some v
      → total f (remove dec k d) + f v ≡ total f d
  unfolding lookup remove
  total-remove f k v [] h = cc
  total-remove f k v ((j, w) ∷ d) h = ground (arith, total-remove f k v d)

  pub total-put_last :
      (f : V → ℕ) (k : K) (w v : V) (d : List (K × V))
      → lookup dec k d ≡ some v
      → total f (put_last dec k w d) + f v ≡ total f d + f w
  unfolding put_last
  total-put_last f k w v d h =
      omega (arith, total-append f (remove dec k d) ((k, w) ∷ []), total-remove f k v d h)

  pub total-put :
      (f : V → ℕ) (k : K) (w v : V) (d : List (K × V))
      → lookup dec k d ≡ some v
      → total f (put dec k w d) + f v ≡ total f d + f w
  unfolding lookup put
  total-put f k w v [] h = cc
  total-put f k w v ((j, u) ∷ d) h = ground (arith, total-put f k w v d)

  pub remove-append_miss :
      (k : K) (d e : List (K × V))
      → lookup dec k d ≡ none
      → remove dec k (d ++ e) ≡ d ++ remove dec k e
  unfolding lookup remove
  remove-append_miss k [] e h = refl
  remove-append_miss k ((j, v) ∷ d) e h = ground (arith, remove-append_miss k d e)

  pub remove-append_hit :
      (k : K) (v : V) (d e : List (K × V))
      → lookup dec k d ≡ some v
      → remove dec k (d ++ e) ≡ remove dec k d ++ e
  unfolding lookup remove
  remove-append_hit k v [] e h = cc
  remove-append_hit k v ((j, w) ∷ d) e h = ground (arith, remove-append_hit k v d e)

  -- the two parts of a dictionary have no key in common
  pub lookup_apart :
      (k : K) (v : V) (d e : List (K × V))
      → IsDict dec (d ++ e)
      → lookup dec k e ≡ some v
      → lookup dec k d ≡ none
  unfolding lookup
  lookup_apart k v [] e w h = refl
  lookup_apart k v ((j, u) ∷ d) e w h =
      ground (arith, lookup_apart k v d e w.1, lookup-append_none j d e)

  pub length-remove :
      (k : K) (v : V) (d : List (K × V))
      → lookup dec k d ≡ some v
      → length (remove dec k d) + 1 ≡ length d
  unfolding lookup remove
  length-remove k v [] h = cc
  length-remove k v ((j, w) ∷ d) h = ground (arith, length-remove k v d)

  -- an entry that is there, and what stands before and after it
  abbrev pub Split : K → V → List (K × V) → Type ℓ
  Split k v d =
      (pre : List (K × V)) × (post : List (K × V)) × (d ≡ pre ++ (k, v) ∷ post)
      × ((w : V) → put dec k w d ≡ pre ++ (k, w) ∷ post)

  pub lookup-Split : (k : K) (v : V) (d : List (K × V)) → lookup dec k d ≡ some v → Split k v d
  unfolding lookup put
  lookup-Split k v [] h = absurd (let x = h in cc)
  lookup-Split k v ((j, u) ∷ d) h = elim (dec j k) [
    | yes e ↦ (
      [],
      d,
      (let f = sym (if_pos (dec j k) e (some u) (lookup dec k d)) ∙ h in
          let g : u ≡ v = cc in cc (e, g)),
      (λ w. if_pos (dec j k) e ((j, w) ∷ d) ((j, u) ∷ put dec k w d) ∙ ap (λ i. (i, w) ∷ d) e),
    )
    | no n ↦
        let f = sym (if_neg (dec j k) n (some u) (lookup dec k d)) ∙ h in
        let (pre, post, same, puts) = lookup-Split k v d f in
        (
          (j, u) ∷ pre,
          post,
          ap (λ l. (j, u) ∷ l) same,
          (λ w.
              if_neg (dec j k) n ((j, w) ∷ d) ((j, u) ∷ put dec k w d)
              ∙ ap (λ l. (j, u) ∷ l) (puts w)),
        )
  ]
