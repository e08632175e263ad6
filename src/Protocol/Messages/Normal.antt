-- ===== src/Protocol/Messages/Normal.antt =====
-- What the normalized messages of a request are.
use Prim.Native.String.{String}
use package.text.Mathlib.Text.{◌==◌ as str_eq}
use mathlib.Core.Path.{subst}
use serve_mlx.Base.{
  ℕ, ◌≤◌, ◌≡◌, refl, sym, ◌∙◌, Option, none, Bool, true, false, List, [], ◌∷◌, ◌++◌, length, Result,
  ok, guard, ◌>>◌, ◌>>=◌, >>=_ok, guard_ok, ok-injective, not, if◌then◌else◌, if_then, if_else, leb,
  leb→le, Bool-cases, inl, inr, All,
}
use serve_mlx.Json.{Value, Items, Fields, null, str, arr, obj, nil, cons}
use serve_mlx.Manifest.{is_in, is_empty}
use serve_mlx.Manifest.Valid.{not_iff}
use serve_mlx.Protocol.Options.{bad, get}
use serve_mlx.Protocol.Messages.{
  Role, system, user, assistant, tool, Part, text, image, Content, plain, parts, PriorCall, Message,
  is_user, is_system, has_image, source_text, url_of, image_source, text_part, typed_part,
  part_of_type, normalize_part, normalize_each, normalize_content_parts, normalize_content,
  parse_role, reasoning_of, calls_of, call_id_of, normalize_message, normalize_all,
  normalize_messages, is_nil, part_sources, content_sources, all_sources, image_sources,
}

abbrev pub IsSource : String → Type 0
IsSource s = not (str_eq s "") ≡ true

-- an image has a source and is in a message of the user
abbrev pub IsPart : Role → Part → Type 0
IsPart role (text s) = Unit {0}
IsPart role (image s) = (is_user role ≡ true) × IsSource s

-- a list of parts has an image, and otherwise is joined to a text
abbrev pub IsContent : Role → Content → Type 0
IsContent role (plain s) = Unit {0}
IsContent role (parts ps) = (has_image ps ≡ true) × All (IsPart role) ps

source_text-IsSource : {F : Type 0} (v : Value F) (s : String) → source_text v ≡ ok s → IsSource s
source_text-IsSource (str r) s h =
    let (c, same) = guard_ok (not (str_eq r "")) (bad "messages") (ok r) s h in
    subst IsSource (ok-injective same) c
source_text-IsSource _ s h = absurd (let x = h in cc)

text_part-IsPart :
    {F : Type 0} (role : Role) (v : Value F) (p : Part) → text_part v ≡ ok p → IsPart role p
text_part-IsPart role (str s) p h = subst (IsPart role) {x = text s} (ok-injective h) tt
text_part-IsPart role _ p h = absurd (let x = h in cc)

image_part-IsPart :
    {F : Type 0} (role : Role) (part : Fields F) (part_type : String) (p : Part)
    → guard (is_user role) (bad "messages") >> (image_source part part_type >>= λ s. ok (image s))
      ≡ ok p
    → IsPart role p
unfolding image_source
image_part-IsPart role part part_type p h =
    let rest = image_source part part_type >>= λ s. ok (image s) in
    let (c, more) = guard_ok (is_user role) (bad "messages") rest p h in
    let (s, (found, same)) = >>=_ok (image_source part part_type) (λ s. ok (image s)) p more in
    subst (IsPart role) {x = image s} (ok-injective same) (
      c,
      source_text-IsSource
          (url_of (get (if str_eq part_type "image" then "image" else "image_url") null part)) s
          found,
    )

if_cases :
    {A : Type 0} (P : A → Type 0) (b : Bool) (x y : Result A) (a : A)
    → (if b then x else y) ≡ ok a
    → (x ≡ ok a → P a)
    → (y ≡ ok a → P a)
    → P a
if_cases P true x y a h f g = f h
if_cases P false x y a h f g = g h

part-IsPart :
    {F : Type 0} (role : Role) (v : Value F) (p : Part)
    → normalize_part role v ≡ ok p
    → IsPart role p
unfolding normalize_part typed_part
part-IsPart {F = F} role (obj part) p h = by_type (get "type" null part) h
  where
    by_type : (v : Value F) → part_of_type role part v ≡ ok p → IsPart role p
    by_type (str t) h =
        if_cases (IsPart role) (str_eq t "text") _ _ p h
          (text_part-IsPart role (get "text" null part) p)
          (λ g.
            if_cases (IsPart role) (is_in t ("image_url" ∷ "input_image" ∷ "image" ∷ [])) _ _ p g
              (image_part-IsPart role part t p) (λ k. absurd (let x = k in cc)))
    by_type _ h = absurd (let x = h in cc)
part-IsPart role _ p h = absurd (let x = h in cc)

each-IsPart :
    {F : Type 0} (role : Role) (items : Items F) (ps : List Part)
    → normalize_each role items ≡ ok ps
    → All (IsPart role) ps
unfolding normalize_each
each-IsPart role nil ps h = subst (All (IsPart role)) (ok-injective h) tt
each-IsPart role (cons v rest) ps h =
    let (p, (e, more)) = >>=_ok (normalize_part role v) _ ps h in
    let (others, (f, same)) = >>=_ok (normalize_each role rest) _ ps more in
    subst (All (IsPart role)) {x = p ∷ others} (ok-injective same)
      (part-IsPart role v p e, each-IsPart role rest others f)

content-IsContent :
    {F : Type 0} (join_texts : List Part → String) (v : Value F) (role : Role) (c : Content)
    → normalize_content join_texts v role ≡ ok c
    → IsContent role c
unfolding normalize_content normalize_content_parts
content-IsContent join_texts (str s) role c h =
    subst (IsContent role) {x = plain s} (ok-injective h) tt
content-IsContent join_texts (arr items) role c h =
    let made : List Part → Result Content =
      λ ps. ok (if has_image ps then parts ps else plain (join_texts ps)) in
    let each = normalize_each role items >>= made in
    let checked = guard (not (is_nil items)) (bad "messages") >> each in
    let (_, h1) = guard_ok (not (is_system role)) (bad "messages") checked c h in
    let (_, h2) = guard_ok (not (is_nil items)) (bad "messages") each c h1 in
    let (ps, (e, same)) = >>=_ok (normalize_each role items) made c h2 in
    let all = each-IsPart role items ps e in
    elim (Bool-cases (has_image ps)) [
      | inl t ↦
          subst (IsContent role) {x = parts ps}
            (sym (if_then (has_image ps) (parts ps) (plain (join_texts ps)) t) ∙ ok-injective same)
            (t, all)
      | inr t ↦
          subst (IsContent role) {x = plain (join_texts ps)}
            (sym (if_else (has_image ps) (parts ps) (plain (join_texts ps)) t) ∙ ok-injective same)
            tt
    ]
content-IsContent join_texts null assistant c h =
    subst (IsContent assistant) {x = plain ""} (ok-injective h) tt
content-IsContent join_texts _ role c h = absurd (let x = h in cc)

-- only an assistant has reasoning and calls, and only a tool the id of a call
abbrev pub IsOwn {ℓ} : {A B C : Type ℓ} → Role → Option A → Option B → Option C → Type ℓ
IsOwn assistant r c i = i ≡ none
IsOwn tool r c i = (r ≡ none) × (c ≡ none)
IsOwn _ r c i = ((r ≡ none) × (c ≡ none)) × (i ≡ none)

part_sources-IsSource :
    (role : Role) (ps : List Part) → All (IsPart role) ps → All IsSource (part_sources ps)
unfolding part_sources
part_sources-IsSource role [] h = tt
part_sources-IsSource role (text s ∷ ps) h = part_sources-IsSource role ps h.1
part_sources-IsSource role (image s ∷ ps) h = (h.0.1, part_sources-IsSource role ps h.1)

content_sources-IsSource :
    (role : Role) (c : Content) → IsContent role c → All IsSource (content_sources c)
content_sources-IsSource role (plain s) h = tt
content_sources-IsSource role (parts ps) h = part_sources-IsSource role ps h.1

All-append : (xs ys : List String) → All IsSource xs → All IsSource ys → All IsSource (xs ++ ys)
All-append [] ys h k = k
All-append (x ∷ xs) ys h k = (h.0, All-append xs ys h.1 k)

module _ {F : Type 0} where
  abbrev pub IsNormal : Message F → Type 0
  IsNormal m =
      IsContent m.role m.content × IsOwn m.role m.reasoning_content m.tool_calls m.tool_call_id

  all_sources-IsSource : (ms : List (Message F)) → All IsNormal ms → All IsSource (all_sources ms)
  unfolding all_sources
  all_sources-IsSource [] h = tt
  all_sources-IsSource (m ∷ ms) h =
      All-append (content_sources m.content) (all_sources ms)
        (content_sources-IsSource m.role m.content h.0.0) (all_sources-IsSource ms h.1)

module _ {F : Type 0} (join_texts : List Part → String) (loads : String → Option (Value F))
    (prior_id : ℕ → Value F) where
  call_id_of-IsOwn :
      (role : Role) (message : Fields F) (r : Option String) (c : Option (List (PriorCall F)))
      (i : Option String)
      → reasoning_of join_texts loads prior_id role message ≡ ok r
      → calls_of join_texts loads prior_id role message ≡ ok c
      → call_id_of join_texts loads prior_id role message ≡ ok i
      → IsOwn role r c i
  unfolding reasoning_of calls_of call_id_of
  call_id_of-IsOwn assistant message r c i h1 h2 h3 = sym (ok-injective h3)
  call_id_of-IsOwn tool message r c i h1 h2 h3 = (sym (ok-injective h1), sym (ok-injective h2))
  call_id_of-IsOwn system message r c i h1 h2 h3 =
      ((sym (ok-injective h1), sym (ok-injective h2)), sym (ok-injective h3))
  call_id_of-IsOwn user message r c i h1 h2 h3 =
      ((sym (ok-injective h1), sym (ok-injective h2)), sym (ok-injective h3))

  message-IsNormal :
      (v : Value F) (m : Message F)
      → normalize_message join_texts loads prior_id v ≡ ok m
      → IsNormal m
  unfolding normalize_message
  message-IsNormal (obj message) m h =
      let (role, (_, h1)) = >>=_ok (parse_role (get "role" null message)) _ m h in
      let (content, (is_content, h2)) =
        >>=_ok (normalize_content join_texts (get "content" null message) role) _ m h1 in
      let (r, (is_r, h3)) = >>=_ok (reasoning_of join_texts loads prior_id role message) _ m h2 in
      let (c, (is_c, h4)) = >>=_ok (calls_of join_texts loads prior_id role message) _ m h3 in
      let (i, (is_i, same)) = >>=_ok (call_id_of join_texts loads prior_id role message) _ m h4 in
      subst IsNormal
        {x = record {
          role = role;
          content = content;
          reasoning_content = r;
          tool_calls = c;
          tool_call_id = i;
        }}
        (ok-injective same)
        (
          content-IsContent join_texts (get "content" null message) role content is_content,
          call_id_of-IsOwn role message r c i is_r is_c is_i,
        )
  message-IsNormal _ m h = absurd (let x = h in cc)

  normalize_all-IsNormal :
      (items : Items F) (ms : List (Message F))
      → normalize_all join_texts loads prior_id items ≡ ok ms
      → All IsNormal ms × (is_empty ms ≡ is_nil items)
  unfolding normalize_all
  normalize_all-IsNormal nil ms h =
      subst (λ l. All IsNormal l × (is_empty l ≡ true)) (ok-injective h) (tt, refl)
  normalize_all-IsNormal (cons v rest) ms h =
      let (m, (e, more)) = >>=_ok (normalize_message join_texts loads prior_id v) _ ms h in
      let (others, (f, same)) = >>=_ok (normalize_all join_texts loads prior_id rest) _ ms more in
      subst (λ l. All IsNormal l × (is_empty l ≡ false)) {x = m ∷ others} (ok-injective same)
        ((message-IsNormal v m e, (normalize_all-IsNormal rest others f).0), refl)

  normalize_messages-IsNormal :
      (v : Value F) (ms : List (Message F))
      → normalize_messages join_texts loads prior_id v ≡ ok ms
      → All IsNormal ms × (is_empty ms ≡ false)
  unfolding normalize_messages
  normalize_messages-IsNormal (arr items) ms h =
      let (c, rest) =
        guard_ok (not (is_nil items)) (bad "messages")
          (normalize_all join_texts loads prior_id items) ms h in
      let (all, same) = normalize_all-IsNormal items ms rest in
      (all, same ∙ (not_iff (is_nil items)).0 c)
  normalize_messages-IsNormal _ ms h = absurd (let x = h in cc)

  -- Normalized messages are not none. An image is in a message of the user and has a source, a
  -- content of parts has an image, only an assistant has reasoning or calls, and only a tool the id
  -- of a call. Where the sources of the images are extracted from them, there are at most four, and
  -- none is empty.
  pub normalize_messages-image_sources :
      (v : Value F) (ms : List (Message F))
      → normalize_messages join_texts loads prior_id v ≡ ok ms
      → (All IsNormal ms × (is_empty ms ≡ false))
        × ((sources : List String)
            → image_sources ms ≡ ok sources
            → (length sources ≤ 4) × All IsSource sources)
  unfolding image_sources
  normalize_messages-image_sources v ms h =
      let (all, some_message) = normalize_messages-IsNormal v ms h in
      (
        (all, some_message),
        (λ sources e.
            let (c, same) =
              guard_ok (leb (length (all_sources ms)) 4) (bad "messages") (ok (all_sources ms))
                sources e in
            subst (λ l. (length l ≤ 4) × All IsSource l) (ok-injective same)
              (leb→le (length (all_sources ms)) 4 c, all_sources-IsSource ms all)),
      )
