-- ===== src/Registry/Live.antt =====
-- At most one engine is live, and none is while another loads.
use mathlib.Core.Path.{subst}
use Prim.Native.String.{String}
use serve_mlx.Base.{
  String-discrete, ℕ, ◌+◌, ◌≤◌, ◌≡◌, ◌≢◌, refl, ap, Option, none, some, Bool, true, false, List, [],
  ◌∷◌, Result, ok, arith, inl, inr, if◌then◌else◌, Option-cases,
}
use serve_mlx.Dict.{lookup}
use serve_mlx.Registry.{
  ModelRegistration, Effect, loaded, load_failed, closed, ModelRegistry, unload_active, had_active,
}

module _ {E : Type 0} where
  -- the number of live engines
  abbrev pub live : Option E → ℕ
  live none = 0
  live (some e) = 1

module _ {P E : Type 0} where
  -- Effects, latest first, and the engine they leave live: an engine is loaded only while none is
  -- live, and only the live engine is closed.
  pub data Alternating : List (Effect P E) → Option E → Type 0 where
    idle : Alternating [] none
    loading :
        {l : List (Effect P E)} (p : P) (e : E)
        → Alternating l none
        → Alternating (loaded p e ∷ l) (some e)
    failing :
        {l : List (Effect P E)} (p : P) → Alternating l none → Alternating (load_failed p ∷ l) none
    closing :
        {l : List (Effect P E)} (e : E) → Alternating l (some e) → Alternating (closed e ∷ l) none

  -- the active model is registered, and there is one just if there is an engine
  abbrev pub Named : List (String × ModelRegistration P) → Option String → Option E → Type 0
  Named d none none = Unit
  Named d (some id) (some e) = lookup String-discrete id d ≢ none
  Named d none (some e) = ⊥
  Named d (some id) none = ⊥

  pub record IsValid (s : ModelRegistry P E) : Type 0 where
    pub alternating : Alternating s.effects s.active_engine
    pub counted : s.loads_total ≡ s.unloads_total + live s.active_engine
    pub switched : s.switches_total ≤ s.unloads_total
    pub named : Named s.registrations s.active_model_id s.active_engine

  pub unload_nothing_lem :
      (shut : E → Result (Unit {0})) (s : ModelRegistry P E)
      → s.active_engine ≡ none
      → (unload_active shut s ≡ (ok tt, s)) × (had_active s ≡ false)
  unfolding unload_active had_active
  unload_nothing_lem shut s h = ground arith

  pub unload_engine_lem :
      (shut : E → Result (Unit {0})) (s : ModelRegistry P E) (engine : E)
      → s.active_engine ≡ some engine
      → (unload_active shut s ≡ (
        shut engine,
        record s {
          active_engine = none;
          active_model_id = none;
          unloads_total = s.unloads_total + 1;
          effects = closed engine ∷ s.effects;
        },
      ))
        × (had_active s ≡ true)
  unfolding unload_active had_active
  unload_engine_lem shut s engine h = ground arith

  -- what a registry is left as when its engine, if it had one, is unloaded
  pub record Unloaded (had : Bool) (s t : ModelRegistry P E) : Type 0 where
    pub valid : IsValid t
    pub empty : t.active_engine ≡ none
    pub same : t.registrations ≡ s.registrations
    pub room : (if had then t.switches_total + 1 else t.switches_total) ≤ t.unloads_total

  pub unload_active-Unloaded :
      (shut : E → Result (Unit {0})) (s : ModelRegistry P E)
      → IsValid s
      → Unloaded (had_active s) s (unload_active shut s).1
  unload_active-Unloaded shut s v = elim (Option-cases s.active_engine) [
    | inl h ↦
        let (e, f) = unload_nothing_lem shut s h in
        rw (e, f) (record { valid = v; empty = h; same = refl; room = v.switched })
    | inr (engine, h) ↦
        let (e, f) = unload_engine_lem shut s engine h in
        rw (e, f)
          (record {
            valid = record {
              alternating = closing engine (subst (Alternating s.effects) h v.alternating);
              counted = omega (arith, v.counted, ap live h);
              switched = omega (arith, v.switched);
              named = tt;
            };
            empty = refl;
            same = refl;
            room = omega (arith, v.switched);
          })
  ]
