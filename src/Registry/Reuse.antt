-- ===== src/Registry/Reuse.antt =====
-- The active engine of a valid registry: whether it is a model's, and the registry without it.
use Prim.Native.String.{String}
use text.Mathlib.Text.{◌==◌ as str_eq}
use text.Mathlib.TextEquality.{eq_iff}
use mathlib.Core.Path.{subst}
use serve_mlx.Base.{
  ℕ, ◌+◌, ◌≡◌, ◌≢◌, refl, sym, ap, ◌∙◌, ◌⊎◌, Option, none, some, List, ◌∷◌, Result, Error, ok,
  raise, arith, inl, inr, if◌then◌else◌, Option-cases, Bool-cases, Result-cases,
}
use serve_mlx.Registry.{
  ModelRegistration, Effect, closed, ModelRegistry, unload_active, reusable, had_active,
}
use serve_mlx.Registry.Live.{IsValid, Named, live, unload_nothing_lem, unload_engine_lem}

-- closing the live engine, if there is one, returns
abbrev pub IsClosing : {E : Type 0} → (E → Result (Unit {0})) → Option E → Type 0
IsClosing shut none = Unit {0}
IsClosing shut (some e) = shut e ≡ ok tt

has_no_engine :
    {P : Type 0} (E : Type 0) (d : List (String × ModelRegistration P)) (o : Option String)
    → Named {E = E} d o none
    → o ≡ none
has_no_engine E d none h = refl
has_no_engine E d (some id) h = absurd h

module _ {P E : Type 0} where
  -- the effects after the live engine, if there is one, was closed
  abbrev pub after_closing : Option E → List (Effect P E) → List (Effect P E)
  after_closing none effects = effects
  after_closing (some e) effects = closed e ∷ effects

  -- the registry whose live engine was unloaded
  abbrev pub without_engine : ModelRegistry P E → ModelRegistry P E
  without_engine s = record s {
    active_engine = none;
    active_model_id = none;
    unloads_total = s.unloads_total + live s.active_engine;
    effects = after_closing s.active_engine s.effects;
  }

  has_engine :
      (d : List (String × ModelRegistration P)) (id : String) (o : Option E)
      → Named d (some id) o
      → (e : E) × (o ≡ some e)
  has_engine d id none h = absurd h
  has_engine d id (some e) h = (e, refl)

  -- the engine to reuse is the active one of that model, and there is none for another model
  pub reusable-cases :
      (model_id : String) (s : ModelRegistry P E)
      → IsValid s
      → ((e : E) × ((reusable model_id s ≡ some e)
            × ((s.active_model_id ≡ some model_id) × (s.active_engine ≡ some e))))
        ⊎ ((reusable model_id s ≡ none) × (s.active_model_id ≢ some model_id))
  unfolding reusable
  reusable-cases model_id s v = elim (Option-cases s.active_model_id) [
    | inl h ↦ inr (rw (reusable, h) refl, (λ k. let x = h in let y = k in cc))
    | inr (id, h) ↦ elim (Bool-cases (str_eq id model_id)) [
      | inr e ↦ inr (
        rw (reusable, h, e) refl,
        (λ k.
            let x : some id ≡ some model_id = sym h ∙ k in
            let same : id ≡ model_id = cc in
            let y = (eq_iff id model_id).1 same in let z = e in cc),
      )
      | inl e ↦
          let (engine, there) =
            has_engine s.registrations id s.active_engine
              (subst (λ o. Named s.registrations o s.active_engine) h v.named) in
          let same = (eq_iff id model_id).0 e in
          inl (engine, (rw (reusable, h, e, there) refl, (h ∙ ap some same, there)))
    ]
  ]

  without_engine_lem :
      (s : ModelRegistry P E)
      → s.active_model_id ≡ none
      → s.active_engine ≡ none
      → without_engine s ≡ s
  without_engine_lem s h k =
      let unloads : s.unloads_total + live s.active_engine ≡ s.unloads_total =
        omega (arith, ap live k) in
      let effects = ap (λ o. after_closing o s.effects) k in
      (λ i. record s {
        active_engine = sym k i;
        active_model_id = sym h i;
        unloads_total = unloads i;
        effects = effects i;
      })

  same_engine :
      (s : ModelRegistry P E) (e : E)
      → s.active_engine ≡ some e
      → record s {
        active_engine = none;
        active_model_id = none;
        unloads_total = s.unloads_total + 1;
        effects = closed e ∷ s.effects;
      }
        ≡ without_engine s
  same_engine s e h =
      let unloads : s.unloads_total + 1 ≡ s.unloads_total + live s.active_engine =
        omega (arith, ap live h) in
      let effects = ap (λ o. after_closing o s.effects) (sym h) in
      (λ i. record s {
        active_engine = none;
        active_model_id = none;
        unloads_total = unloads i;
        effects = effects i;
      })

  -- what unloading leaves, and how it answers
  pub unload_active-without_engine :
      (shut : E → Result (Unit {0})) (s : ModelRegistry P E)
      → IsValid s
      → ((unload_active shut s).1 ≡ without_engine s)
        × ((((unload_active shut s).0 ≡ ok tt) × IsClosing shut s.active_engine)
            ⊎ ((e : E) × ((x : Error) × ((s.active_engine ≡ some e)
                    × ((shut e ≡ raise x) × ((unload_active shut s).0 ≡ raise x))))))
  unload_active-without_engine shut s v = elim (Option-cases s.active_engine) [
    | inl h ↦
        let (e, _) = unload_nothing_lem shut s h in
        let nothing =
          has_no_engine E s.registrations s.active_model_id
            (subst (Named s.registrations s.active_model_id) h v.named) in
        (
          ap (λ w. w.1) e ∙ sym (without_engine_lem s nothing h),
          inl (ap (λ w. w.0) e, subst (IsClosing shut) (sym h) tt),
        )
    | inr (engine, h) ↦
        let (e, _) = unload_engine_lem shut s engine h in
        (
          ap (λ w. w.1) e ∙ same_engine s engine h,
          elim (Result-cases (shut engine)) [
            | inl (u, good) ↦ inl (ap (λ w. w.0) e ∙ good, subst (IsClosing shut) (sym h) good)
            | inr (x, bad) ↦ inr (engine, (x, (h, (bad, ap (λ w. w.0) e ∙ bad))))
          ],
        )
  ]

  pub had_active-live :
      (s : ModelRegistry P E) (n : ℕ)
      → (if had_active s then n + 1 else n) ≡ n + live s.active_engine
  unfolding had_active
  had_active-live s n = ground arith
