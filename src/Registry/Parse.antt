-- ===== src/Registry/Parse.antt =====
-- src/mlx_moe_stream/server/registry.py: ModelRegistration.parse and the checks of a registration.
--
-- `str.strip` and what a path is are arguments.
use Prim.Native.Char.{code}
use Prim.Native.String.{String}
use package.text.Mathlib.Text.{◌==◌ as str_eq}
use package.text.Mathlib.TextEquality.{eq_iff}
use serve_mlx.Base.{
  ◌≡◌, refl, ap, ◌∙◌, Bool, true, false, Result, ok, value_error, guard, ◌>>◌, ◌&&◌, &&_iff, not,
  if◌then◌else◌, if_else, ◌==◌,
}
use serve_mlx.Registry.{ModelRegistration}

-- `value.partition("=")`, with whether the separator was found
unfoldable pub partition : String → String × (Bool × String)
partition String.[] = (String.[], (false, String.[]))
partition (String.◌∷◌ c s) =
    let (head, rest) = partition s in
    if code c == b'=' then (String.[], (true, s)) else (String.◌∷◌ c head, rest)

module _ {P : Type 0} (strip : String → String) (path : String → P) (path_text : P → String) where
  -- the constructor, with the checks of `__post_init__`
  unfoldable pub make : String → P → Result (ModelRegistration P)
  make model_id manifest_path =
      guard (not (str_eq model_id "") && str_eq (strip model_id) model_id) value_error
      >> guard (not (str_eq (path_text manifest_path) "")) value_error
      >> ok (record { model_id = model_id; manifest_path = manifest_path })

  unfoldable pub parse : String → Result (ModelRegistration P)
  unfolding partition make
  parse value =
      let (model_id, (separator, manifest)) = partition value in
      guard (separator && not (str_eq model_id "") && not (str_eq manifest "")) value_error
      >> make model_id (path manifest)

-- `MODEL_ID=MANIFEST`
unfoldable pub written : String → String → String
written String.[] manifest = String.◌∷◌ "=" manifest
written (String.◌∷◌ c s) manifest = String.◌∷◌ c (written s manifest)

-- no "=" is in the text
abbrev pub lacks_separator : String → Bool
lacks_separator String.[] = true
lacks_separator (String.◌∷◌ c s) = not (code c == b'=') && lacks_separator s

partition-written :
    (model_id manifest : String)
    → lacks_separator model_id ≡ true
    → partition (written model_id manifest) ≡ (model_id, (true, manifest))
unfolding partition written
partition-written String.[] manifest h = refl
partition-written (String.◌∷◌ c s) manifest h =
    let (a, b) = (&&_iff (not (code c == b'=')) (lacks_separator s)).0 h in
    if_else (code c == b'=') _ _ (not_true (code c == b'=') a)
    ∙ ap (λ w. (String.◌∷◌ c w.0, w.1)) (partition-written s manifest b)
  where
    not_true : (b : Bool) → not b ≡ true → b ≡ false
    not_true true h = absurd (let x = h in cc)
    not_true false h = refl

-- A registration written as MODEL_ID=MANIFEST is parsed back: where the model id is not empty, has no
-- "=" and no white space around it, and neither the manifest nor the text of its path is empty.
pub parse-written :
    {P : Type 0} (strip : String → String) (path : String → P) (path_text : P → String)
    (model_id manifest : String)
    → lacks_separator model_id ≡ true
    → str_eq model_id "" ≡ false
    → str_eq manifest "" ≡ false
    → strip model_id ≡ model_id
    → str_eq (path_text (path manifest)) "" ≡ false
    → parse strip path path_text (written model_id manifest)
      ≡ ok (record { model_id = model_id; manifest_path = path manifest })
unfolding parse make
parse-written strip path path_text model_id manifest h a b c d =
    let e : str_eq (strip model_id) model_id ≡ true = (eq_iff (strip model_id) model_id).1 c in
    rw (parse, make, partition-written model_id manifest h, a, b, d, e) refl
