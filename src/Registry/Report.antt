-- ===== src/Registry/Report.antt =====
-- The snapshot against the record of what the registry asked of the code outside.
use mathlib.Core.Path.{subst}
use Prim.Native.String.{String}
use serve_mlx.Base.{
  String-discrete, ℕ, suc, ◌+◌, ◌≡◌, refl, sym, ap, ◌∙◌, Option, none, some, List, [], ◌∷◌, map,
  Result, ok, arith, if◌then◌else◌, ltb, ◌&&◌,
}
use serve_mlx.Dict.{lookup}
use serve_mlx.Registry.{
  ModelRegistration, Effect, loaded, load_failed, closed, ModelRegistry, init, Snapshot, snapshot,
  activate, close,
}
use serve_mlx.Registry.Start.{entries, init_keeps, ids-entries}
use serve_mlx.Registry.Live.{IsValid, live}
use serve_mlx.Registry.Reuse.{after_closing, without_engine, unload_active-without_engine}
use serve_mlx.Registry.Activate.{
  activate-Activated, Outcome, unknown, reused, unclosed, failed, started, with_engine,
  with_failure,
}
use serve_mlx.Registry.Run.{
  Call, call_activate, call_close, after, run, after-IsValid, init-IsValid,
}

module _ {P E : Type 0} where
  -- the loads that returned, the closes and the loads that failed
  unfoldable pub loads : List (Effect P E) → ℕ
  loads [] = 0
  loads (loaded p e ∷ l) = suc (loads l)
  loads (load_failed p ∷ l) = loads l
  loads (closed e ∷ l) = loads l

  unfoldable pub closes : List (Effect P E) → ℕ
  closes [] = 0
  closes (loaded p e ∷ l) = closes l
  closes (load_failed p ∷ l) = closes l
  closes (closed e ∷ l) = suc (closes l)

  unfoldable pub failures : List (Effect P E) → ℕ
  failures [] = 0
  failures (loaded p e ∷ l) = failures l
  failures (load_failed p ∷ l) = suc (failures l)
  failures (closed e ∷ l) = failures l

  -- 1 where a call both closed an engine and loaded one, by the effects before and behind it
  unfoldable pub swapped : List (Effect P E) → List (Effect P E) → ℕ
  unfolding loads closes
  swapped l k = if ltb (loads l) (loads k) && ltb (closes l) (closes k) then 1 else 0

  -- the calls of a run that did so
  unfoldable pub swaps : List (Call P E) → ModelRegistry P E → ℕ
  unfolding swapped after
  swaps [] s = 0
  swaps (c ∷ calls) s = swapped s.effects (after c s).effects + swaps calls (after c s)

  -- the model reported active is registered, and the latest effect is the load of its manifest;
  -- where none is, every engine that was loaded was closed
  abbrev pub IsLatest :
      List (String × ModelRegistration P) → List (Effect P E) → Option String → Type 0
  IsLatest d effects none = loads effects ≡ closes effects
  IsLatest d effects (some id) =
      (m : ModelRegistration P) × ((e : E) × ((l : List (Effect P E)) × ((lookup String-discrete id
                d
              ≡ some m)
            × (effects ≡ loaded m.manifest_path e ∷ l))))

  -- the counters are those of the effects
  pub record Tally (s : ModelRegistry P E) : Type 0 where
    pub loaded_engines : s.loads_total ≡ loads s.effects
    pub closed_engines : s.unloads_total ≡ closes s.effects
    pub failed_loads : s.load_failures_total ≡ failures s.effects
    pub latest : IsLatest s.registrations s.effects s.active_model_id

  -- what a closing adds to the counts
  after_closing_lem :
      (o : Option E) (l : List (Effect P E))
      → (loads (after_closing o l) ≡ loads l)
        × ((closes (after_closing o l) ≡ closes l + live o)
            × (failures (after_closing o l) ≡ failures l))
  unfolding loads closes failures
  after_closing_lem none l = (refl, (omega arith, refl))
  after_closing_lem (some e) l = (refl, (omega arith, refl))

  -- a call that keeps the tally and counts a switch just if it swapped engines
  pub record Counted (s t : ModelRegistry P E) : Type 0 where
    pub tally : Tally t
    pub switched : t.switches_total ≡ s.switches_total + swapped s.effects t.effects

  Counted-refl : (s : ModelRegistry P E) → Tally s → Counted s s
  unfolding swapped
  Counted-refl s k = record { tally = k; switched = ground arith }

  without_engine-Counted :
      (s : ModelRegistry P E) → IsValid s → Tally s → Counted s (without_engine s)
  unfolding swapped
  without_engine-Counted s v k =
      let (a, (b, c)) = after_closing_lem s.active_engine s.effects in
      record {
        tally = record {
          loaded_engines = k.loaded_engines ∙ sym a;
          closed_engines = omega (arith, k.closed_engines, b);
          failed_loads = k.failed_loads ∙ sym c;
          latest = omega (arith, a, b, v.counted, k.loaded_engines, k.closed_engines);
        };
        switched = ground (arith, a);
      }

  with_failure-Counted :
      (path : P) (s : ModelRegistry P E) → IsValid s → Tally s → Counted s (with_failure path s)
  unfolding swapped loads closes failures
  with_failure-Counted path s v k =
      let (a, (b, c)) = after_closing_lem s.active_engine s.effects in
      record {
        tally = record {
          loaded_engines = k.loaded_engines ∙ sym a;
          closed_engines = omega (arith, k.closed_engines, b);
          failed_loads = omega (arith, k.failed_loads, c);
          latest = omega (arith, a, b, v.counted, k.loaded_engines, k.closed_engines);
        };
        switched = ground (arith, a);
      }

  live-swapped :
      (o : Option E) (p : P) (e : E) (l : List (Effect P E))
      → live o ≡ swapped l (loaded p e ∷ after_closing o l)
  unfolding swapped loads closes
  live-swapped none p e l = ground arith
  live-swapped (some f) p e l = ground arith

  with_engine-Counted :
      (model_id : String) (m : ModelRegistration P) (e : E) (s : ModelRegistry P E)
      → lookup String-discrete model_id s.registrations ≡ some m
      → Tally s
      → Counted s (with_engine model_id m.manifest_path e s)
  unfolding swapped loads closes failures
  with_engine-Counted model_id m e s found k =
      let (a, (b, c)) = after_closing_lem s.active_engine s.effects in
      record {
        tally = record {
          loaded_engines = omega (arith, k.loaded_engines, a);
          closed_engines = omega (arith, k.closed_engines, b);
          failed_loads = k.failed_loads ∙ sym c;
          latest = (m, (e, (after_closing s.active_engine s.effects, (found, refl))));
        };
        switched =
            ap (λ n. s.switches_total + n)
              (live-swapped s.active_engine m.manifest_path e s.effects);
      }

  activate-Counted :
      (load : P → Result E) (shut : E → Result (Unit {0})) (model_id : String)
      (s t : ModelRegistry P E) (r : Result E)
      → IsValid s
      → Tally s
      → Outcome load shut model_id s r t
      → Counted s t
  activate-Counted load shut model_id s t r v k o = elim o [
    | unknown missing answer e ↦ rw e (Counted-refl s k)
    | reused m f found named engine answer e ↦ rw e (Counted-refl s k)
    | unclosed m f x found other engine h answer e ↦ rw e (without_engine-Counted s v k)
    | failed m x found other closing h answer e ↦ rw e (with_failure-Counted m.manifest_path s v k)
    | started m f found other closing h answer e ↦ rw e (with_engine-Counted model_id m f s found k)
  ]

  after-Counted :
      (c : Call P E) (s : ModelRegistry P E)
      → IsValid s
      → Tally s
      → Counted s (after c s) × ((after c s).registrations ≡ s.registrations)
  unfolding after close
  after-Counted (call_activate load shut model_id) s v k =
      let a = activate-Activated load shut model_id s v in
      (
        activate-Counted load shut model_id s (activate load shut model_id s).1
            (activate load shut model_id s).0 v k a.outcome,
        a.same,
      )
  after-Counted (call_close shut) s v k =
      let (e, _) = unload_active-without_engine shut s v in
      rw e (without_engine-Counted s v k, refl)

  -- the tally behind a run, its switches and its registrations
  abbrev Run : List (Call P E) → ModelRegistry P E → ModelRegistry P E → Type 0
  Run calls s t =
      Tally t
      × ((t.switches_total ≡ s.switches_total + swaps calls s)
          × (t.registrations ≡ s.registrations))

  run-Tally :
      (calls : List (Call P E)) (s : ModelRegistry P E)
      → IsValid s
      → Tally s
      → Run calls s (run calls s)
  unfolding run swaps
  run-Tally [] s v k = (k, (omega arith, refl))
  run-Tally (c ∷ calls) s v k =
      let (counted, same) = after-Counted c s v k in
      let (tally, (switches, kept)) =
        run-Tally calls (after c s) (after-IsValid c s v) counted.tally in
      (tally, (omega (arith, switches, counted.switched), kept ∙ same))

  -- What a snapshot says of the models and the effects.
  pub record Reported (models : List (ModelRegistration P)) (switches : ℕ)
      (effects : List (Effect P E)) (r : Snapshot) : Type 0 where
    pub models_listed : r.registered_model_ids ≡ map (λ m. m.model_id) models
    pub active : IsLatest (entries models) effects r.active_model_id
    pub loads_counted : r.loads_total ≡ loads effects
    pub unloads_counted : r.unloads_total ≡ closes effects
    pub switches_counted : r.switches_total ≡ switches
    pub failures_counted : r.load_failures_total ≡ failures effects

  -- From the constructor on, after any sequence of calls, whatever loading and closing answer, the
  -- snapshot agrees with what was asked of the code outside: its counters are the loads that
  -- returned, the engines closed, the loads that failed and the calls that did both a close and a
  -- load; the active model is the one whose manifest the latest effect loaded, and where none is
  -- reported every engine that was loaded was closed; the model ids are those given, in their order.
  pub run-snapshot :
      (models : List (ModelRegistration P)) (s : ModelRegistry P E) (calls : List (Call P E))
      → init models ≡ ok s
      → Reported models (swaps calls s) (run calls s).effects (snapshot (run calls s))
  unfolding loads closes failures
  run-snapshot models s calls h =
      let same = (init_keeps models s h).0 in
      let start : Tally s = rw same (record {
        loaded_engines = refl;
        closed_engines = refl;
        failed_loads = refl;
        latest = refl;
      }) in
      let (tally, (switches, kept)) = run-Tally calls s (init-IsValid models s h) start in
      let registered = kept ∙ ap (λ z. z.registrations) same in
      record {
        models_listed =
            ap (λ d. map (λ m. m.model_id) (map (λ e. e.1) d)) registered ∙ ids-entries models;
        active =
            subst (λ d. IsLatest d (run calls s).effects (run calls s).active_model_id) registered
              tally.latest;
        loads_counted = tally.loaded_engines;
        unloads_counted = tally.closed_engines;
        switches_counted = switches ∙ ap (λ z. z.switches_total + swaps calls s) same ∙ omega arith;
        failures_counted = tally.failed_loads;
      }
