-- ===== src/Protocol/Options/Tools/Offered.antt =====
-- The tools that the model is offered.
use Prim.Native.String.{String}
use text.Mathlib.Text.{◌==◌ as str_eq}
use text.Mathlib.TextEquality.{eq_iff}
use mathlib.Core.Path.{subst}
use mathlib.Core.List.{Mem, mem-cons_self, mem-cons_of_mem}
use serve_mlx.Base.{
  ◌≡◌, ◌≢◌, refl, ap, ◌∙◌, ◌⊎◌, Option, none, some, Bool, true, false, List, [], ◌∷◌, ok, if_then,
  if_else, arith, Bool-cases, Option-cases, inl, inr,
}
use serve_mlx.Json.{Fields}
use serve_mlx.Manifest.{is_in}
use serve_mlx.Protocol.Options.Tools.{
  Tool, Tools, names, named, is_none_choice, template_tools, parse_tools,
}
use serve_mlx.Protocol.Options.Tools.Parsed.{IsFresh, IsRequired, parse_tools-IsTools}

is_in_more : (y x : String) (l : List String) → is_in x l ≡ true → is_in x (y ∷ l) ≡ true
unfolding is_in
is_in_more y x l h = ground (arith, h)

is_none_choice_lem : (c : Option String) → is_none_choice c ≡ true → c ≡ some "none"
is_none_choice_lem none h = absurd (let x = h in cc)
is_none_choice_lem (some c) h = ap some ((eq_iff c "none").0 h)

module _ {F : Type 0} where
  -- a name that was seen is not in the rest
  named_absent :
      (name : String) (seen : List String) (tools : List (Tool F))
      → is_in name seen ≡ true
      → IsFresh seen (names tools)
      → named name tools ≡ []
  unfolding named is_in
  named_absent name seen [] h f = refl
  named_absent name seen (t ∷ tools) h f = elim (Bool-cases (str_eq t.name name)) [
    | inl e ↦
        let same = ap (λ n. is_in n seen) ((eq_iff t.name name).0 e) in
        absurd (let g : is_in t.name seen ≡ false = f.0 in cc)
    | inr e ↦
        rw (named, e) (named_absent name (t.name ∷ seen) tools (is_in_more t.name name seen h) f.1)
  ]

  named_one :
      (name : String) (seen : List String) (tools : List (Tool F))
      → is_in name (names tools) ≡ true
      → IsFresh seen (names tools)
      → (t : Tool F) × ((named name tools ≡ t ∷ []) × ((t.name ≡ name) × Mem t tools))
  unfolding named is_in
  named_one name seen [] h f = absurd (let x = h in cc)
  named_one name seen (t ∷ tools) h f = elim (Bool-cases (str_eq t.name name)) [
    | inl e ↦
        let same = (eq_iff t.name name).0 e in
        let here : is_in name (t.name ∷ seen) ≡ true = rw (is_in, e) refl in
        (
          t,
          (
            rw (named, e) (ap (◌∷◌ t) (named_absent name (t.name ∷ seen) tools here f.1)),
            (same, mem-cons_self),
          ),
        )
    | inr e ↦
        let (u, (only, (same, m))) =
          named_one name (t.name ∷ seen) tools (rw (is_in, e) at h) f.1 in
        (u, (rw (named, e) only, (same, mem-cons_of_mem t m)))
  ]

  -- The tools of a request that was parsed are in one of three cases, which exclude each other by the
  -- choice and the required name: the choice is the text none and the model is offered no tool; the
  -- choice is a function and it is offered just the tool with the required name; or neither is so,
  -- no name is required, and it is offered all the tools.
  pub parse_tools-template_tools :
      (valid_schema : Fields F → Bool) (payload : Fields F) (t : Tools F)
      → parse_tools valid_schema payload ≡ ok t
      → ((t.choice ≡ some "none") × (template_tools t ≡ []))
        ⊎ (((t.choice ≡ some "function")
              × ((name : String) × ((t.required_name ≡ some name)
                    × ((tool : Tool F) × ((template_tools t ≡ tool ∷ [])
                          × ((tool.name ≡ name) × Mem tool t.tools))))))
            ⊎ ((t.choice ≢ some "none")
                × ((t.required_name ≡ none) × (template_tools t ≡ t.tools))))
  unfolding template_tools
  parse_tools-template_tools valid_schema payload t h =
      let (_, (_, (fresh, required))) = parse_tools-IsTools valid_schema payload t h in
      elim (Option-cases t.required_name) [
        | inr (name, e) ↦
            let (there, function) =
              subst (IsRequired valid_schema (names t.tools) t.choice) e required in
            let (tool, (only, rest)) = named_one name [] t.tools there fresh in
            inr (inl (function, (name, (e, (tool, (rw (template_tools, e, function) only, rest))))))
        | inl e ↦ elim (Bool-cases (is_none_choice t.choice)) [
          | inl n ↦ inl (is_none_choice_lem t.choice n, if_then _ _ _ n)
          | inr n ↦ inr (
              inr (
                (λ c. let x = ap is_none_choice c in let y = n in cc),
                (e, if_else _ _ _ n ∙ rw (e, template_tools) refl),
              ))
        ]
      ]
