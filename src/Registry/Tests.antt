-- ===== src/Registry/Tests.antt =====
-- Two models, of which one is loaded, replaced and closed. Engines are numbers and paths are texts.
use Prim.Native.String.{String}
use serve_mlx.Base.{
  some, String-discrete, ℕ, ◌≡◌, ◌<◌, refl, List, [], ◌∷◌, Result, ok, raise, runtime_error, length,
}
use serve_mlx.Dict.{IsDict}
use serve_mlx.Registry.{ModelRegistration, ModelRegistry, init, fresh, snapshot, activate}
use serve_mlx.Registry.Start.{entries, init_keeps}
use serve_mlx.Registry.Report.{swaps, Reported, run-snapshot}
use serve_mlx.Registry.Live.{IsValid}
use serve_mlx.Registry.Activate.{Activated, activate-Activated}
use serve_mlx.Registry.Run.{
  Call, call_activate, call_close, run, run_calls-IsValid, activate-activate,
}

abbrev models : List (ModelRegistration String)
models =
    record { model_id = "qwen"; manifest_path = "q.json" }
    ∷ record { model_id = "gemma"; manifest_path = "g.json" }
    ∷ []

abbrev started : ModelRegistry String ℕ
started = fresh (entries models)

made : init models ≡ ok started
unfolding init String-discrete
made = refl

abbrev load : ℕ → String → Result ℕ
load n path = ok n

abbrev broken : String → Result ℕ
broken path = raise runtime_error

abbrev shut : ℕ → Result (Unit {0})
shut n = ok tt

abbrev calls : List (Call String ℕ)
calls =
    call_activate (load 1) shut "qwen"
    ∷ call_activate (load 2) shut "gemma"
    ∷ call_activate broken shut "qwen"
    ∷ call_close shut
    ∷ call_activate (load 3) shut "gemma"
    ∷ []

three_loads : (run calls started).loads_total ≡ 3
unfolding run String-discrete
three_loads = refl

init_keeps_example :
    (started ≡ fresh (entries models))
    × IsDict String-discrete (entries models)
    × (0 < length models)
init_keeps_example = init_keeps models started made

-- two loads after the first, of which one swaps engines
reported : snapshot (run calls started) ≡ record {
  registered_model_ids = "qwen" ∷ "gemma" ∷ [];
  active_model_id = some "gemma";
  loads_total = 3;
  unloads_total = 2;
  switches_total = 1;
  load_failures_total = 1;
}
unfolding run String-discrete
reported = refl

run-snapshot_example :
    Reported models (swaps calls started) (run calls started).effects (snapshot (run calls started))
run-snapshot_example = run-snapshot models started calls made

run_calls-IsValid_example : IsValid (run calls started)
run_calls-IsValid_example = run_calls-IsValid models started calls made

activate-Activated_example :
    Activated broken shut "qwen"
      (run calls started)
      (activate broken shut "qwen" (run calls started)).0
      (activate broken shut "qwen" (run calls started)).1
activate-Activated_example =
    activate-Activated broken shut "qwen" (run calls started)
      (run_calls-IsValid models started calls made)

loaded_qwen : (activate (load 4) shut "qwen" (run calls started)).0 ≡ ok 4
unfolding run activate String-discrete
loaded_qwen = refl

activate-activate_example :
    activate broken shut "qwen" (activate (load 4) shut "qwen" (run calls started)).1
    ≡ (ok 4, (activate (load 4) shut "qwen" (run calls started)).1)
activate-activate_example =
    activate-activate (load 4) broken shut shut "qwen" (run calls started) 4
      (run_calls-IsValid models started calls made) loaded_qwen
