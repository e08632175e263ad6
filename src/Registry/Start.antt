-- ===== src/Registry/Start.antt =====
-- The constructor accepts distinct model ids and keeps the order of the registrations.
use mathlib.Core.Path.{subst}
use Prim.Native.String.{String}
use serve_mlx.Base.{
  String-discrete, refl, map, ok-injective, ◌+◌, ◌≤◌, ◌<◌, ◌≡◌, sym, ap, ◌∙◌, some, List, [], ◌∷◌,
  ◌++◌, ok, arith, length, length-append, Option-cases, inl, inr, append_assoc, append-nil,
  Bool-cases, ==_iff, ◌==◌,
}
use serve_mlx.Dict.{lookup, put, IsDict}
use serve_mlx.Dict.Laws.{put_new, put-IsDict}
use serve_mlx.Registry.{ModelRegistration, ModelRegistry, init, fresh, register}

module _ {ℓ} {K V : Type ℓ} (dec : Discrete K) where
  length-put_old :
      (k : K) (v w : V) (d : List (K × V))
      → lookup dec k d ≡ some w
      → length (put dec k v d) ≡ length d
  unfolding lookup put
  length-put_old k v w [] h = cc
  length-put_old k v w ((j, u) ∷ d) h = ground (arith, length-put_old k v w d)

module _ {P : Type 0} where
  abbrev pub entries : List (ModelRegistration P) → List (String × ModelRegistration P)
  entries [] = []
  entries (m ∷ models) = (m.model_id, m) ∷ entries models

  register-length :
      (models : List (ModelRegistration P)) (d : List (String × ModelRegistration P))
      → length (register models d) ≤ length d + length models
  unfolding register
  register-length [] d = omega arith
  register-length (m ∷ models) d = elim (Option-cases (lookup String-discrete m.model_id d)) [
    | inl new ↦ omega (
      arith,
      register-length models (put String-discrete m.model_id m d),
      ap length (put_new String-discrete m.model_id m d new),
      length-append d ((m.model_id, m) ∷ []),
    )
    | inr (w, old) ↦ omega (
      arith,
      register-length models (put String-discrete m.model_id m d),
      length-put_old String-discrete m.model_id m w d old,
    )
  ]

  register_full :
      (models : List (ModelRegistration P)) (d : List (String × ModelRegistration P))
      → length (register models d) ≡ length d + length models
      → register models d ≡ d ++ entries models
  unfolding register
  register_full [] d h = sym (append-nil d)
  register_full (m ∷ models) d h = elim (Option-cases (lookup String-discrete m.model_id d)) [
    | inl new ↦
        let put_it = put_new String-discrete m.model_id m d new in
        register_full models (put String-discrete m.model_id m d)
          (omega (arith, h, ap length put_it, length-append d ((m.model_id, m) ∷ [])))
        ∙ ap (λ x. x ++ entries models) put_it
        ∙ append_assoc d ((m.model_id, m) ∷ []) (entries models)
    | inr (w, old) ↦ absurd (
        omega (
          arith,
          h,
          register-length models (put String-discrete m.model_id m d),
          length-put_old String-discrete m.model_id m w d old,
        ))
  ]

  pub init_lem :
      {E : Type 0} (models : List (ModelRegistration P)) (s : ModelRegistry P E)
      → init models ≡ ok s
      → (s ≡ fresh (register models []))
        × (length (register models []) ≡ length models)
        × (0 < length models)
  unfolding init
  init_lem models s h = elim (Bool-cases (length models == 0)) [
    | inl e ↦ absurd (let y = (rw (init, e) at h) in cc)
    | inr e ↦ elim (Bool-cases (length (register models []) == length models)) [
      | inr f ↦ absurd (let y = (rw (init, e, f) at h) in cc)
      | inl f ↦ (
        sym (ok-injective (rw (init, e, f) at h)),
        (==_iff (length (register models [])) (length models)).0 f,
        ground arith,
      )
    ]
  ]

  register-IsDict :
      (models : List (ModelRegistration P)) (d : List (String × ModelRegistration P))
      → IsDict String-discrete d
      → IsDict String-discrete (register models d)
  unfolding register
  register-IsDict [] d h = h
  register-IsDict (m ∷ models) d h =
      register-IsDict models (put String-discrete m.model_id m d)
        (put-IsDict String-discrete m.model_id m d h)

  -- The constructor succeeds on a list of registrations only if it is not empty and no model id is
  -- there twice. It then keeps them all, in their order, each under its model id, with no engine
  -- active.
  pub init_keeps :
      {E : Type 0} (models : List (ModelRegistration P)) (s : ModelRegistry P E)
      → init models ≡ ok s
      → (s ≡ fresh (entries models)) × IsDict String-discrete (entries models) × (0 < length models)
  init_keeps models s h =
      let (same, full, some_model) = init_lem models s h in
      let all = register_full models [] (omega (arith, full)) in
      (
        same ∙ ap fresh all,
        subst (IsDict String-discrete) all (register-IsDict models [] tt),
        some_model,
      )

  pub ids-entries :
      (models : List (ModelRegistration P))
      → map (λ r. r.model_id) (map (λ e. e.1) (entries models)) ≡ map (λ r. r.model_id) models
  ids-entries [] = refl
  ids-entries (m ∷ models) = ap (◌∷◌ m.model_id) (ids-entries models)
