-- ===== src/Protocol/Options/Tools/Parsed.antt =====
-- What the tools of a request that was parsed are.
use Prim.Native.String.{String}
use text.Mathlib.Text.{◌==◌ as str_eq}
use mathlib.Core.Path.{subst}
use serve_mlx.Base.{
  suc, ◌≤◌, ◌≡◌, refl, sym, ap, Option, none, some, Bool, true, false, List, [], ◌∷◌, length, ok,
  raise, guard, ◌>>◌, ◌>>=◌, >>=_ok, guard_ok, ok-injective, &&_iff, leb, leb→le, arith, All,
}
use serve_mlx.Json.{Value, Items, Fields, null, str, arr, obj, nil, cons, is_text}
use serve_mlx.Manifest.{is_in}
use serve_mlx.Manifest.Valid.{not_iff}
use serve_mlx.Protocol.Options.{bad, get, count_items}
use serve_mlx.Protocol.Options.Tools.{
  Tool, Tools, names, is_tool_name, no_parameters, description_of, parse_function, parse_named,
  parse_tool, parse_each, parse_choice_name, choose_function, choose, without_tools, parse_tools,
}

-- none of the names is in `seen`, and none is there twice
abbrev pub IsFresh : List String → List String → Type 0
IsFresh seen [] = Unit {0}
IsFresh seen (n ∷ ns) = (is_in n seen ≡ false) × IsFresh (n ∷ seen) ns

module _ {F : Type 0} (valid_schema : Fields F → Bool) where
  -- a tool has the name of an identifier and a valid schema
  abbrev pub IsTool : Tool F → Type 0
  IsTool t = (is_tool_name t.name ≡ true) × (valid_schema t.parameters ≡ true)

  function_tool :
      (name : String) (function : Fields F) (parameters : Value F) (seen : List String)
      (tool : Tool F)
      → (is_tool_name name ≡ true) × (is_in name seen ≡ false)
      → (elim parameters [
        | obj parameters ↦
            guard (valid_schema parameters) (bad "tools")
            >> (description_of function >>= λ description.
                ok (record { name = name; parameters = parameters; description = description }))
        | _ ↦ raise (bad "tools")
      ])
        ≡ ok tool
      → IsTool tool × (is_in tool.name seen ≡ false)
  function_tool name function (obj parameters) seen tool n h =
      let made : Option String → Tool F =
        λ description. record { name = name; parameters = parameters; description = description } in
      let described = description_of function >>= λ description. ok (made description) in
      let (valid, more) = guard_ok (valid_schema parameters) (bad "tools") described tool h in
      let (description, (_, same)) =
        >>=_ok (description_of function) (λ description. ok (made description)) tool more in
      subst (λ t. IsTool t × (is_in t.name seen ≡ false)) {x = made description} (ok-injective same)
        ((n.0, valid), n.1)
  function_tool name function _ seen tool n h = absurd (let x = h in cc)

  parse_function-IsTool :
      (name : String) (function : Fields F) (seen : List String) (tool : Tool F)
      → parse_function valid_schema name function seen ≡ ok tool
      → IsTool tool × (is_in tool.name seen ≡ false)
  unfolding parse_function
  parse_function-IsTool name function seen tool h =
      let (c, rest) = guard_ok _ _ _ tool h in
      let (a, b) = (&&_iff _ _).0 c in
      function_tool name function (get "parameters" no_parameters function) seen tool
        (a, (not_iff (is_in name seen)).0 b) rest

  parse_named-IsTool :
      (function : Value F) (seen : List String) (tool : Tool F)
      → parse_named valid_schema function seen ≡ ok tool
      → IsTool tool × (is_in tool.name seen ≡ false)
  unfolding parse_named
  parse_named-IsTool (obj function) seen tool h = name_tool (get "name" null function) h
    where
      name_tool :
          (v : Value F)
          → (elim v [
            | str name ↦ parse_function valid_schema name function seen
            | _ ↦ raise (bad "tools")
          ])
            ≡ ok tool
          → IsTool tool × (is_in tool.name seen ≡ false)
      name_tool (str name) h = parse_function-IsTool name function seen tool h
      name_tool _ h = absurd (let x = h in cc)
  parse_named-IsTool _ seen tool h = absurd (let x = h in cc)

  parse_tool-IsTool :
      (v : Value F) (seen : List String) (tool : Tool F)
      → parse_tool valid_schema v seen ≡ ok tool
      → IsTool tool × (is_in tool.name seen ≡ false)
  unfolding parse_tool
  parse_tool-IsTool (obj raw_tool) seen tool h =
      parse_named-IsTool (get "function" null raw_tool) seen tool
        (guard_ok (is_text (get "type" null raw_tool) "function") (bad "tools")
          (parse_named valid_schema (get "function" null raw_tool) seen) tool h).1
  parse_tool-IsTool _ seen tool h = absurd (let x = h in cc)

  parse_each-IsTool :
      (items : Items F) (seen : List String) (tools : List (Tool F))
      → parse_each valid_schema items seen ≡ ok tools
      → (length tools ≡ count_items items) × (All IsTool tools × IsFresh seen (names tools))
  unfolding parse_each
  parse_each-IsTool nil seen tools h =
      subst (λ l. (length l ≡ 0) × (All IsTool l × IsFresh seen (names l))) (ok-injective h)
        (refl, (tt, tt))
  parse_each-IsTool (cons v rest) seen tools h =
      let (tool, (e, more)) = >>=_ok _ _ tools h in
      let (others, (f, same)) = >>=_ok _ _ tools more in
      let (good, fresh) = parse_tool-IsTool v seen tool e in
      let (size, (all, distinct)) = parse_each-IsTool rest (tool.name ∷ seen) others f in
      subst (λ l. (length l ≡ suc (count_items rest)) × (All IsTool l × IsFresh seen (names l)))
        {x = tool ∷ others} (ok-injective same) (ap suc size, ((good, all), (fresh, distinct)))

  -- the required tool is one of the tools
  abbrev pub IsRequired : List String → Option String → Option String → Type 0
  IsRequired ns choice none = Unit {0}
  IsRequired ns choice (some name) = (is_in name ns ≡ true) × (choice ≡ some "function")

  choose_name :
      (v : Value F) (tools : List (Tool F)) (name : String)
      → parse_choice_name valid_schema v (names tools) ≡ ok name
      → is_in name (names tools) ≡ true
  unfolding parse_choice_name
  choose_name (str n) tools name h =
      let (c, same) = guard_ok (is_in n (names tools)) (bad "tool_choice") (ok n) name h in
      subst (λ z. is_in z (names tools) ≡ true) (ok-injective same) c
  choose_name _ tools name h = absurd (let x = h in cc)

  choose_function-IsRequired :
      (v : Value F) (tools : List (Tool F)) (t : Tools F)
      → choose_function valid_schema v tools ≡ ok t
      → (t.tools ≡ tools) × IsRequired (names tools) t.choice t.required_name
  unfolding choose_function
  choose_function-IsRequired (obj function) tools t h =
      let (name, (e, same)) = >>=_ok _ _ t h in
      subst (λ z. (z.tools ≡ tools) × IsRequired (names tools) z.choice z.required_name)
        {x = record { tools = tools; choice = some "function"; required_name = some name }}
        (ok-injective same) (refl, (choose_name (get "name" null function) tools name e, refl))
  choose_function-IsRequired _ tools t h = absurd (let x = h in cc)

  choose-IsRequired :
      (v : Value F) (tools : List (Tool F)) (t : Tools F)
      → choose valid_schema v tools ≡ ok t
      → (t.tools ≡ tools) × IsRequired (names tools) t.choice t.required_name
  unfolding choose
  choose-IsRequired (str c) tools t h =
      let (_, same) = guard_ok _ _ _ t h in
      subst (λ z. (z.tools ≡ tools) × IsRequired (names tools) z.choice z.required_name)
        {x = record { tools = tools; choice = some c; required_name = none }} (ok-injective same)
        (refl, tt)
  choose-IsRequired (obj choice) tools t h =
      choose_function-IsRequired (get "function" null choice) tools t
        (guard_ok (is_text (get "type" null choice) "function") (bad "tool_choice")
          (choose_function valid_schema (get "function" null choice) tools) t h).1
  choose-IsRequired _ tools t h = absurd (let x = h in cc)

  -- The tools of a request: at most 128, each with the name of an identifier and a valid schema, no
  -- name twice, and the required one among them.
  abbrev pub IsTools : Tools F → Type 0
  IsTools t =
      (length t.tools ≤ 128)
      × (All IsTool t.tools
          × (IsFresh [] (names t.tools) × IsRequired (names t.tools) t.choice t.required_name))

  abbrev none_with : Option String → Tools F
  none_with choice = record { tools = []; choice = choice; required_name = none }

  no_tools : (choice : Option String) (t : Tools F) → none_with choice ≡ t → IsTools t
  no_tools choice t e = subst IsTools {x = none_with choice} e (omega arith, (tt, (tt, tt)))

  without_choice :
      (v : Value F) (t : Tools F)
      → (elim v [
        | null ↦ ok (none_with none)
        | str c ↦ guard (str_eq c "none") (bad "tool_choice") >> ok (none_with (some "none"))
        | _ ↦ raise (bad "tool_choice")
      ])
        ≡ ok t
      → IsTools t
  without_choice null t h = no_tools none t (ok-injective h)
  without_choice (str c) t h = no_tools (some "none") t (ok-injective (guard_ok _ _ _ t h).1)
  without_choice _ t h = absurd (let x = h in cc)

  with_tools :
      (v choice : Value F) (payload : Fields F) (t : Tools F)
      → (elim v [
        | null ↦ without_tools valid_schema payload
        | arr items ↦
            guard (leb 1 (count_items items)) (bad "tools")
            >> guard (leb (count_items items) 128) (bad "tools")
            >> (parse_each valid_schema items [] >>= λ tools. choose valid_schema choice tools)
        | _ ↦ raise (bad "tools")
      ])
        ≡ ok t
      → IsTools t
  unfolding without_tools
  with_tools null choice payload t h = without_choice (get "tool_choice" null payload) t h
  with_tools (arr items) choice payload t h =
      let parsed = parse_each valid_schema items [] in
      let chosen = parsed >>= λ tools. choose valid_schema choice tools in
      let checked = guard (leb (count_items items) 128) (bad "tools") >> chosen in
      let (_, rest) = guard_ok (leb 1 (count_items items)) (bad "tools") checked t h in
      let (size, more) = guard_ok (leb (count_items items) 128) (bad "tools") chosen t rest in
      let (tools, (e, last)) = >>=_ok parsed (choose valid_schema choice) t more in
      let (count, (all, distinct)) = parse_each-IsTool items [] tools e in
      let (same, required) = choose-IsRequired choice tools t last in
      subst
        (λ l.
          (length l ≤ 128)
          × (All IsTool l × (IsFresh [] (names l) × IsRequired (names l) t.choice t.required_name)))
        (sym same)
        (omega (arith, count, leb→le (count_items items) 128 size), (all, (distinct, required)))
  with_tools _ choice payload t h = absurd (let x = h in cc)

  pub parse_tools-IsTools :
      (payload : Fields F) (t : Tools F) → parse_tools valid_schema payload ≡ ok t → IsTools t
  unfolding parse_tools
  parse_tools-IsTools payload t h =
      with_tools (get "tools" null payload) (get "tool_choice" (str "auto") payload) payload t h
