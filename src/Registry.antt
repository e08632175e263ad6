-- ===== src/Registry.antt =====
-- src/mlx_moe_stream/server/registry.py: the registered models and the one engine that is live. The
-- proofs are in the children.
--
-- Loading and closing an engine are code outside the registry. Each call of `activate` or `close`
-- is given what they answer this time: `load` for `self._load_engine`, `shut` for `engine.close`.
-- The field `effects` is the record of those calls, latest first. An engine is of any type `E`, a
-- path of any type `P`. The lock makes each method one step.
pub mod Start
pub mod Live
pub mod Reuse
pub mod Activate
pub mod Run
pub mod Report
pub mod Parse
mod Tests
mod ParseTests
use Prim.Native.String.{String}
use text.Mathlib.Text.{◌==◌ as str_eq}
use text.Mathlib.TextEquality.{eq_iff}
use serve_mlx.Base.{
  String-discrete, refl, ◌↔◌, ℕ, suc, ◌+◌, ◌≡◌, Option, none, some, Bool, true, false, List, [],
  ◌∷◌, ◌==◌, length, map, Result, Exec, ok, raise, value_error, Bool-cases, inl, inr, if◌then◌else◌,
  continue, ◌>>=◌, ◌>>◌, guard, not,
}
use serve_mlx.Dict.{lookup, put, keys}

pub record ModelRegistration (P : Type 0) : Type 0 where
  pub model_id : String
  pub manifest_path : P

-- what the registry asked of the code outside
pub data Effect (P E : Type 0) : Type 0 where
  loaded : P → E → Effect P E
  load_failed : P → Effect P E
  closed : E → Effect P E

pub record Snapshot : Type 0 where
  pub registered_model_ids : List String
  pub active_model_id : Option String
  pub loads_total : ℕ
  pub unloads_total : ℕ
  pub switches_total : ℕ
  pub load_failures_total : ℕ

pub record ModelRegistry (P E : Type 0) : Type 0 where
  pub registrations : List (String × ModelRegistration P)
  pub active_model_id : Option String
  pub active_engine : Option E
  pub loads_total : ℕ
  pub unloads_total : ℕ
  pub switches_total : ℕ
  pub load_failures_total : ℕ
  pub effects : List (Effect P E)

module _ {P : Type 0} where
  -- `{registration.model_id: registration for registration in models}`
  unfoldable pub register :
      List (ModelRegistration P)
      → List (String × ModelRegistration P)
      → List (String × ModelRegistration P)
  unfolding put
  register [] d = d
  register (m ∷ models) d = register models (put String-discrete m.model_id m d)

module _ {P E : Type 0} where
  abbrev pub fresh : List (String × ModelRegistration P) → ModelRegistry P E
  fresh d = record {
    registrations = d;
    active_model_id = none;
    active_engine = none;
    loads_total = 0;
    unloads_total = 0;
    switches_total = 0;
    load_failures_total = 0;
    effects = [];
  }

  -- `ModelRegistry.__init__`
  unfoldable pub init : List (ModelRegistration P) → Result (ModelRegistry P E)
  unfolding register
  init models = do
    guard (not (length models == 0)) value_error
    let d = register models []
    guard (length d == length models) value_error
    ok (fresh d)

  -- `contains`
  unfoldable pub contains : String → ModelRegistry P E → Bool
  unfolding lookup
  contains model_id s = elim (lookup String-discrete model_id s.registrations) [
    | none ↦ false
    | some _ ↦ true
  ]

  -- `default_model_id`, with `none` for a StopIteration
  abbrev pub default_model_id : ModelRegistry P E → Option String
  default_model_id s = first (keys s.registrations)
    where
      first : List String → Option String
      first [] = none
      first (k ∷ ks) = some k

  -- `registrations`
  abbrev pub registrations_of : ModelRegistry P E → List (ModelRegistration P)
  registrations_of s = map (λ e. e.1) s.registrations

  -- `snapshot`
  abbrev pub snapshot : ModelRegistry P E → Snapshot
  snapshot s = record {
    registered_model_ids = map (λ r. r.model_id) (registrations_of s);
    active_model_id = s.active_model_id;
    loads_total = s.loads_total;
    unloads_total = s.unloads_total;
    switches_total = s.switches_total;
    load_failures_total = s.load_failures_total;
  }

  -- `_unload_active_locked`: the count goes up whether closing raises or not
  unfoldable pub unload_active : (E → Result (Unit {0})) → Exec (ModelRegistry P E) (Unit {0})
  unload_active shut s = elim s.active_engine [
    | none ↦ (ok tt, s)
    | some engine ↦ (
      shut engine,
      record s {
        active_engine = none;
        active_model_id = none;
        unloads_total = s.unloads_total + 1;
        effects = closed engine ∷ s.effects;
      },
    )
  ]

  -- from the call of `load_engine` on
  unfoldable pub load_active :
      (P → Result E) → String → ModelRegistration P → Bool → Exec (ModelRegistry P E) E
  load_active load model_id registration had_active_model s =
      elim (load registration.manifest_path) [
        | raise e ↦ (
          raise e,
          record s {
            load_failures_total = s.load_failures_total + 1;
            effects = load_failed registration.manifest_path ∷ s.effects;
          },
        )
        | ok engine ↦ (
          ok engine,
          record s {
            active_model_id = some model_id;
            active_engine = some engine;
            loads_total = s.loads_total + 1;
            switches_total = if had_active_model then s.switches_total + 1 else s.switches_total;
            effects = loaded registration.manifest_path engine ∷ s.effects;
          },
        )
      ]

  -- the engine to reuse: the active one, where it is the model's
  unfoldable pub reusable : String → ModelRegistry P E → Option E
  reusable model_id s = elim s.active_model_id [
    | none ↦ none
    | some active ↦ if str_eq active model_id then s.active_engine else none
  ]

  unfoldable pub had_active : ModelRegistry P E → Bool
  had_active s = elim s.active_engine [ none ↦ false | some _ ↦ true ]

  unfoldable pub activate :
      (P → Result E) → (E → Result (Unit {0})) → String → Exec (ModelRegistry P E) E
  unfolding lookup reusable unload_active load_active had_active
  activate load shut model_id s = elim (lookup String-discrete model_id s.registrations) [
    | none ↦ (raise value_error, s)
    | some registration ↦ elim (reusable model_id s) [
      | some engine ↦ (ok engine, s)
      | none ↦
          continue (unload_active shut s)
            (λ _. load_active load model_id registration (had_active s))
    ]
  ]

  unfoldable pub close : (E → Result (Unit {0})) → Exec (ModelRegistry P E) (Unit {0})
  unfolding unload_active
  close shut s = unload_active shut s
