-- ===== src/Registry/Run.antt =====
-- Any sequence of calls on a registry, and activating twice.
use mathlib.Core.Path.{subst}
use Prim.Native.String.{String}
use text.Mathlib.TextEquality.{eq_iff}
use serve_mlx.Base.{
  String-discrete, ◌≡◌, refl, some, List, [], ◌∷◌, Result, ok, ok-injective, arith,
}
use serve_mlx.Dict.{lookup}
use serve_mlx.Registry.{ModelRegistration, ModelRegistry, init, reusable, activate, close}
use serve_mlx.Registry.Start.{init_lem}
use serve_mlx.Registry.Live.{IsValid, idle, unload_active-Unloaded}
use serve_mlx.Registry.Activate.{
  Activated, activate-Activated, unknown, reused, unclosed, failed, started, with_engine,
}

-- a call of a method, with what the code outside answers it
pub data Call (P E : Type 0) : Type 0 where
  call_activate : (P → Result E) → (E → Result (Unit {0})) → String → Call P E
  call_close : (E → Result (Unit {0})) → Call P E

module _ {P E : Type 0} where
  -- the registry after a call, whether it returned or raised
  unfoldable pub after : Call P E → ModelRegistry P E → ModelRegistry P E
  unfolding activate close
  after (call_activate load shut model_id) s = (activate load shut model_id s).1
  after (call_close shut) s = (close shut s).1

  unfoldable pub run : List (Call P E) → ModelRegistry P E → ModelRegistry P E
  unfolding after
  run [] s = s
  run (c ∷ calls) s = run calls (after c s)

  pub after-IsValid : (c : Call P E) (s : ModelRegistry P E) → IsValid s → IsValid (after c s)
  unfolding after
  after-IsValid (call_activate load shut model_id) s v =
      (activate-Activated load shut model_id s v).valid
  after-IsValid (call_close shut) s v = unfold close in (unload_active-Unloaded shut s v).valid

  pub run-keeps :
      (calls : List (Call P E)) (s : ModelRegistry P E) → IsValid s → IsValid (run calls s)
  unfolding run
  run-keeps [] s v = v
  run-keeps (c ∷ calls) s v = run-keeps calls (after c s) (after-IsValid c s v)

  pub init-IsValid :
      (models : List (ModelRegistration P)) (s : ModelRegistry P E) → init models ≡ ok s → IsValid s
  init-IsValid models s h =
      rw ((init_lem models s h).0)
        (record { alternating = idle; counted = refl; switched = omega arith; named = tt })

  -- From the constructor on, after any sequence of calls, whatever loading and closing answer, a
  -- load starts only while no engine is live and only the live engine is closed; the active engine
  -- is the live one, and its model is registered; the loads are the unloads and the live engine; and
  -- there are no more switches than unloads.
  pub run_calls-IsValid :
      (models : List (ModelRegistration P)) (s : ModelRegistry P E) (calls : List (Call P E))
      → init models ≡ ok s
      → IsValid (run calls s)
  run_calls-IsValid models s calls h = run-keeps calls s (init-IsValid models s h)

  reusable_active :
      (model_id : String) (s : ModelRegistry P E) (e : E)
      → s.active_model_id ≡ some model_id
      → s.active_engine ≡ some e
      → reusable model_id s ≡ some e
  unfolding reusable
  reusable_active model_id s e named engine =
      let same = (eq_iff model_id model_id).1 refl in rw (reusable, named, same, engine) refl

  activate_reuse :
      (load : P → Result E) (shut : E → Result (Unit {0})) (model_id : String)
      (s : ModelRegistry P E) (m : ModelRegistration P) (e : E)
      → lookup String-discrete model_id s.registrations ≡ some m
      → reusable model_id s ≡ some e
      → activate load shut model_id s ≡ (ok e, s)
  unfolding activate
  activate_reuse load shut model_id s m e found reuse = rw (activate, found, reuse) refl

  outcome_reuse :
      (load again : P → Result E) (shut shut_again : E → Result (Unit {0})) (model_id : String)
      (s t : ModelRegistry P E) (e : E)
      → Activated load shut model_id s (ok e) t
      → activate again shut_again model_id t ≡ (ok e, t)
  outcome_reuse load again shut shut_again model_id s t e a = elim a.outcome [
    | unknown missing r u ↦ absurd (let x = r in cc)
    | reused m f found named engine r u ↦
        rw (u, ok-injective r)
          (activate_reuse again shut_again model_id s m f found
            (reusable_active model_id s f named engine))
    | unclosed m f x found other engine h r u ↦ absurd (let y = r in cc)
    | failed m x found other closing h r u ↦ absurd (let y = r in cc)
    | started m f found other closing h r u ↦
        rw (u, ok-injective r)
          (activate_reuse again shut_again model_id (with_engine model_id m.manifest_path f s) m f
            found (reusable_active model_id (with_engine model_id m.manifest_path f s) f refl refl))
  ]

  -- A model that was activated is active: activating it again returns the same engine, changes
  -- nothing, and asks nothing of the code outside.
  pub activate-activate :
      (load again : P → Result E) (shut shut_again : E → Result (Unit {0})) (model_id : String)
      (s : ModelRegistry P E) (e : E)
      → IsValid s
      → (activate load shut model_id s).0 ≡ ok e
      → activate again shut_again model_id (activate load shut model_id s).1
        ≡ (ok e, (activate load shut model_id s).1)
  activate-activate load again shut shut_again model_id s e v h =
      outcome_reuse load again shut shut_again model_id s (activate load shut model_id s).1 e (
        subst (λ r. Activated load shut model_id s r (activate load shut model_id s).1) h
          (activate-Activated load shut model_id s v))
