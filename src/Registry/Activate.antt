-- ===== src/Registry/Activate.antt =====
-- Activating a model on any valid registry.
use mathlib.Core.Path.{subst}
use Prim.Native.String.{String}
use serve_mlx.Base.{
  String-discrete, ◌+◌, ◌≡◌, ◌≢◌, refl, sym, ap, ◌∙◌, none, some, Bool, ◌∷◌, Result, Error, ok,
  raise, value_error, arith, Result-cases, Option-cases, inl, inr, continue_ok, continue_raise,
}
use serve_mlx.Dict.{lookup}
use serve_mlx.Registry.{
  ModelRegistration, loaded, load_failed, ModelRegistry, unload_active, load_active, had_active,
  activate,
}
use serve_mlx.Registry.Live.{
  Alternating, IsValid, live, Unloaded, unload_active-Unloaded, loading, failing,
}
use serve_mlx.Registry.Reuse.{
  after_closing, without_engine, IsClosing, reusable-cases, unload_active-without_engine,
  had_active-live,
}

module _ {P E : Type 0} where
  -- the registry after the live engine was closed and loading another failed
  abbrev pub with_failure : P → ModelRegistry P E → ModelRegistry P E
  with_failure path s = record (without_engine s) {
    load_failures_total = s.load_failures_total + 1;
    effects = load_failed path ∷ after_closing s.active_engine s.effects;
  }

  -- the registry after the live engine was closed and another was loaded
  abbrev pub with_engine : String → P → E → ModelRegistry P E → ModelRegistry P E
  with_engine model_id path e s = record (without_engine s) {
    active_model_id = some model_id;
    active_engine = some e;
    loads_total = s.loads_total + 1;
    switches_total = s.switches_total + live s.active_engine;
    effects = loaded path e ∷ after_closing s.active_engine s.effects;
  }

  -- How activating a model on `s` ends: in an answer `r` and a registry `t`.
  pub data Outcome (load : P → Result E) (shut : E → Result (Unit {0})) (model_id : String)
      (s : ModelRegistry P E) (r : Result E) (t : ModelRegistry P E) : Type 0 where
    unknown :
        lookup String-discrete model_id s.registrations ≡ none
        → r ≡ raise value_error
        → t ≡ s
        → Outcome load shut model_id s r t
    reused :
        (m : ModelRegistration P) (e : E)
        → lookup String-discrete model_id s.registrations ≡ some m
        → s.active_model_id ≡ some model_id
        → s.active_engine ≡ some e
        → r ≡ ok e
        → t ≡ s
        → Outcome load shut model_id s r t
    unclosed :
        (m : ModelRegistration P) (e : E) (x : Error)
        → lookup String-discrete model_id s.registrations ≡ some m
        → s.active_model_id ≢ some model_id
        → s.active_engine ≡ some e
        → shut e ≡ raise x
        → r ≡ raise x
        → t ≡ without_engine s
        → Outcome load shut model_id s r t
    failed :
        (m : ModelRegistration P) (x : Error)
        → lookup String-discrete model_id s.registrations ≡ some m
        → s.active_model_id ≢ some model_id
        → IsClosing shut s.active_engine
        → load m.manifest_path ≡ raise x
        → r ≡ raise x
        → t ≡ with_failure m.manifest_path s
        → Outcome load shut model_id s r t
    started :
        (m : ModelRegistration P) (e : E)
        → lookup String-discrete model_id s.registrations ≡ some m
        → s.active_model_id ≢ some model_id
        → IsClosing shut s.active_engine
        → load m.manifest_path ≡ ok e
        → r ≡ ok e
        → t ≡ with_engine model_id m.manifest_path e s
        → Outcome load shut model_id s r t

  pub record Activated (load : P → Result E) (shut : E → Result (Unit {0})) (model_id : String)
      (s : ModelRegistry P E) (r : Result E) (t : ModelRegistry P E) : Type 0 where
    pub valid : IsValid t
    pub same : t.registrations ≡ s.registrations
    pub outcome : Outcome load shut model_id s r t

  load_active-IsValid :
      (load : P → Result E) (model_id : String) (m : ModelRegistration P) (had : Bool)
      (s t : ModelRegistry P E)
      → lookup String-discrete model_id t.registrations ≡ some m
      → Unloaded had s t
      → IsValid (load_active load model_id m had t).1
  unfolding load_active
  load_active-IsValid load model_id m had s t found u = elim (Result-cases (load m.manifest_path)) [
    | inl (e, h) ↦
        rw (load_active, h)
          (record {
            alternating =
                loading m.manifest_path e
                  (subst (Alternating t.effects) u.empty u.valid.alternating);
            counted = omega (arith, u.valid.counted, ap live u.empty);
            switched = u.room;
            named = λ missing. let clash = sym missing ∙ found in cc;
          })
    | inr (x, h) ↦
        rw (load_active, h)
          (record {
            alternating =
                subst (Alternating (load_failed m.manifest_path ∷ t.effects)) (sym u.empty) (
                  failing m.manifest_path
                    (subst (Alternating t.effects) u.empty u.valid.alternating));
            counted = u.valid.counted;
            switched = u.valid.switched;
            named = u.valid.named;
          })
  ]

  load_active_same :
      (load : P → Result E) (model_id : String) (m : ModelRegistration P) (had : Bool)
      (s : ModelRegistry P E)
      → (load_active load model_id m had s).1.registrations ≡ s.registrations
  unfolding load_active
  load_active_same load model_id m had s = elim (Result-cases (load m.manifest_path)) [
    | inl (e, h) ↦ rw (load_active, h) refl
    | inr (x, h) ↦ rw (load_active, h) refl
  ]

  load_active_raise :
      (load : P → Result E) (model_id : String) (m : ModelRegistration P) (had : Bool)
      (s : ModelRegistry P E) (x : Error)
      → load m.manifest_path ≡ raise x
      → load_active load model_id m had (without_engine s)
        ≡ (raise x, with_failure m.manifest_path s)
  unfolding load_active
  load_active_raise load model_id m had s x h = rw (load_active, h) refl

  load_active_ok :
      (load : P → Result E) (model_id : String) (m : ModelRegistration P) (s : ModelRegistry P E)
      (e : E)
      → load m.manifest_path ≡ ok e
      → load_active load model_id m (had_active s) (without_engine s)
        ≡ (ok e, with_engine model_id m.manifest_path e s)
  unfolding load_active
  load_active_ok load model_id m s e h =
      rw (load_active, h)
        (ap (λ n. (ok e, record (with_engine model_id m.manifest_path e s) { switches_total = n }))
          (had_active-live s s.switches_total))

  load_active-Outcome :
      (load : P → Result E) (shut : E → Result (Unit {0})) (model_id : String)
      (m : ModelRegistration P) (s : ModelRegistry P E)
      → lookup String-discrete model_id s.registrations ≡ some m
      → s.active_model_id ≢ some model_id
      → IsClosing shut s.active_engine
      → (let after = load_active load model_id m (had_active s) (without_engine s) in
          Outcome load shut model_id s after.0 after.1)
  load_active-Outcome load shut model_id m s found other closing =
      elim (Result-cases (load m.manifest_path)) [
        | inl (e, h) ↦
            rw (load_active_ok load model_id m s e h) (started m e found other closing h refl refl)
        | inr (x, h) ↦
            rw (load_active_raise load model_id m (had_active s) s x h)
              (failed m x found other closing h refl refl)
      ]

  -- Activating a model on a valid registry ends in one of five ways, which exclude each other. The
  -- model is not registered: a ValueError, and nothing changes. It is the active model: the active
  -- engine is returned, and nothing changes. Otherwise another model or none is active. The live
  -- engine does not close: its exception, and a registry without an engine. It closes, or there is
  -- none, and loading the manifest of the model fails: that exception, and a registry without an
  -- engine that counts the failure. Or loading returns an engine: that engine, which is the active
  -- one, under the model's id; the load is counted, and a switch just if an engine was closed. The
  -- registry stays valid and keeps its registrations in each.
  pub activate-Activated :
      (load : P → Result E) (shut : E → Result (Unit {0})) (model_id : String)
      (s : ModelRegistry P E)
      → IsValid s
      → Activated load shut model_id s
          (activate load shut model_id s).0
          (activate load shut model_id s).1
  unfolding activate
  activate-Activated load shut model_id s v =
      elim (Option-cases (lookup String-discrete model_id s.registrations)) [
        | inl missing ↦
            rw (activate, missing)
              (record { valid = v; same = refl; outcome = unknown missing refl refl })
        | inr (m, found) ↦ elim (reusable-cases model_id s v) [
          | inl (e, (reuse, (named, engine))) ↦
              rw (activate, found, reuse)
                (record {
                  valid = v;
                  same = refl;
                  outcome = reused m e found named engine refl refl;
                })
          | inr (none_reused, other) ↦
              let (after, answer) = unload_active-without_engine shut s v in
              let u = unload_active-Unloaded shut s v in
              elim answer [
                | inr (e, (x, (engine, (bad, h)))) ↦
                    rw
                      (
                        activate,
                        found,
                        none_reused,
                        continue_raise (unload_active shut s)
                            (λ _. load_active load model_id m (had_active s)) x h,
                      )
                      (record {
                        valid = u.valid;
                        same = u.same;
                        outcome = unclosed m e x found other engine bad refl after;
                      })
                | inl (h, closing) ↦
                    let good = subst (Unloaded (had_active s) s) after u in
                    rw
                      (
                        activate,
                        found,
                        none_reused,
                        continue_ok (unload_active shut s)
                            (λ _. load_active load model_id m (had_active s)) tt h,
                        after,
                      )
                      (record {
                        valid =
                            load_active-IsValid load model_id m (had_active s) s (without_engine s)
                              found good;
                        same = load_active_same load model_id m (had_active s) (without_engine s);
                        outcome = load_active-Outcome load shut model_id m s found other closing;
                      })
              ]
        ]
      ]
