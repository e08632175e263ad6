-- ===== src/Protocol/Messages.antt =====
-- src/mlx_moe_stream/server/protocol.py: normalize_messages, image_sources and what they call.
--
-- Joining texts, decoding JSON text and the id of an earlier call without one are arguments.
pub mod Normal
mod Tests
use Prim.Native.String.{String}
use package.text.Mathlib.Text.{◌==◌ as str_eq}
use serve_mlx.Base.{
  ℕ, zero, suc, Option, none, some, Bool, true, false, List, [], ◌∷◌, ◌++◌, length, Result, ok,
  raise, type_error, guard, ◌>>◌, ◌>>=◌, not, if◌then◌else◌, leb,
}
use serve_mlx.Json.{
  Value, Items, Fields, null, bool, int, float, str, arr, obj, nil, cons, end, member,
}
use serve_mlx.Manifest.{is_in, is_empty}
use serve_mlx.Protocol.Options.{bad, get}

-- a normalized role: "developer" is "system"
pub data Role : Type 0 where
  system user assistant tool : Role

pub data Part : Type 0 where
  text image : String → Part

pub data Content : Type 0 where
  plain : String → Content
  parts : List Part → Content

pub record PriorCall (F : Type 0) : Type 0 where
  pub id : Value F
  pub name : String
  pub arguments : Fields F

pub record Message (F : Type 0) : Type 0 where
  pub role : Role
  pub content : Content
  pub reasoning_content : Option String
  pub tool_calls : Option (List (PriorCall F))
  pub tool_call_id : Option String

unfoldable pub role_named : String → Option Role
role_named s =
    if str_eq s "system"
    then some system
    else if str_eq s "developer"
    then some system
    else if str_eq s "user"
    then some user
    else if str_eq s "assistant"
    then some assistant
    else if str_eq s "tool"
    then some tool
    else none

abbrev pub is_user : Role → Bool
is_user user = true
is_user _ = false

abbrev pub is_system : Role → Bool
is_system system = true
is_system _ = false

abbrev pub is_image : Part → Bool
is_image (text s) = false
is_image (image s) = true

unfoldable pub has_image : List Part → Bool
has_image [] = false
has_image (p ∷ ps) = if is_image p then true else has_image ps

module _ {F : Type 0} where
  -- A list or an object has no hash, so its test for membership in a set is a TypeError.
  unfoldable pub parse_role : Value F → Result Role
  unfolding role_named
  parse_role (str s) = elim (role_named s) [ none ↦ raise (bad "messages") | some r ↦ ok r ]
  parse_role (arr items) = raise type_error
  parse_role (obj fields) = raise type_error
  parse_role _ = raise (bad "messages")

  -- a text that is not empty
  abbrev pub source_text : Value F → Result String
  source_text (str s) = guard (not (str_eq s "")) (bad "messages") >> ok s
  source_text _ = raise (bad "messages")

  abbrev pub url_of : Value F → Value F
  url_of (obj fields) = get "url" null fields
  url_of v = v

  unfoldable pub image_source : Fields F → String → Result String
  unfolding get
  image_source part part_type =
      source_text
        (url_of (get (if str_eq part_type "image" then "image" else "image_url") null part))

  abbrev pub text_part : Value F → Result Part
  text_part (str s) = ok (text s)
  text_part _ = raise (bad "messages")

  -- the loop body over the parts, by the type of the part
  unfoldable pub typed_part : Role → Fields F → String → Result Part
  unfolding image_source is_in
  typed_part role part part_type =
      if str_eq part_type "text"
      then text_part (get "text" null part)
      else if is_in part_type ("image_url" ∷ "input_image" ∷ "image" ∷ [])
      then guard (is_user role) (bad "messages")
        >> (image_source part part_type >>= λ s. ok (image s))
      else raise (bad "messages")

  abbrev pub part_of_type : Role → Fields F → Value F → Result Part
  part_of_type role part (str part_type) = typed_part role part part_type
  part_of_type role part (arr items) = raise type_error
  part_of_type role part (obj fields) = raise type_error
  part_of_type role part _ = raise (bad "messages")

  unfoldable pub normalize_part : Role → Value F → Result Part
  unfolding typed_part
  normalize_part role (obj part) = part_of_type role part (get "type" null part)
  normalize_part role _ = raise (bad "messages")

  unfoldable pub normalize_each : Role → Items F → Result (List Part)
  unfolding normalize_part
  normalize_each role nil = ok []
  normalize_each role (cons v rest) =
      normalize_part role v >>= λ p. normalize_each role rest >>= λ ps. ok (p ∷ ps)

  abbrev pub is_nil : Items F → Bool
  is_nil nil = true
  is_nil (cons v rest) = false

  -- `_normalize_content_parts`
  unfoldable pub normalize_content_parts : (List Part → String) → Items F → Role → Result Content
  unfolding normalize_each has_image
  normalize_content_parts join_texts items role =
      guard (not (is_system role)) (bad "messages")
      >> guard (not (is_nil items)) (bad "messages")
      >> (normalize_each role items >>= λ ps.
          ok (if has_image ps then parts ps else plain (join_texts ps)))

  unfoldable pub normalize_content : (List Part → String) → Value F → Role → Result Content
  unfolding normalize_content_parts
  normalize_content join_texts (str s) role = ok (plain s)
  normalize_content join_texts (arr items) role = normalize_content_parts join_texts items role
  normalize_content join_texts null assistant = ok (plain "")
  normalize_content join_texts _ role = raise (bad "messages")

  -- the arguments of an earlier call
  abbrev pub prior_arguments : (String → Option (Value F)) → Value F → Result (Fields F)
  prior_arguments loads (str s) = elim (loads s) [
    | some (obj fields) ↦ ok fields
    | _ ↦ raise (bad "messages")
  ]
  prior_arguments loads (obj fields) = ok fields
  prior_arguments loads _ = raise (bad "messages")

  abbrev pub prior_name : Fields F → Value F → Result (String × Fields F)
  prior_name call (obj function) = elim (get "name" null function) [
    | str name ↦ ok (name, function)
    | _ ↦ raise (bad "messages")
  ]
  prior_name call _ = raise (bad "messages")

module _ {F : Type 0} (join_texts : List Part → String) (loads : String → Option (Value F))
    (prior_id : ℕ → Value F) where
  -- the loop over the earlier calls, from `index` on
  unfoldable pub prior_calls : ℕ → Items F → Result (List (PriorCall F))
  unfolding get
  prior_calls index nil = ok []
  prior_calls index (cons (obj call) rest) = prior_name call (get "function" null call) >>= λ named.
      prior_arguments loads (get "arguments" (obj end) named.1) >>= λ arguments.
      prior_calls (suc index) rest >>= λ others. ok (
        record { id = get "id" (prior_id index) call; name = named.0; arguments = arguments }
        ∷ others)
  prior_calls index (cons _ rest) = raise (bad "messages")

  -- `_normalize_prior_tool_calls`
  unfoldable pub normalize_prior_tool_calls : Value F → Result (List (PriorCall F))
  unfolding prior_calls
  normalize_prior_tool_calls (arr items) =
      guard (not (is_nil items)) (bad "messages") >> prior_calls 0 items
  normalize_prior_tool_calls _ = raise (bad "messages")

  abbrev pub optional_text : Value F → Result (Option String)
  optional_text null = ok none
  optional_text (str s) = ok (some s)
  optional_text _ = raise (bad "messages")

  unfoldable pub reasoning_of : Role → Fields F → Result (Option String)
  unfolding get
  reasoning_of assistant message = optional_text (get "reasoning_content" null message)
  reasoning_of _ message = ok none

  unfoldable pub calls_of : Role → Fields F → Result (Option (List (PriorCall F)))
  unfolding member normalize_prior_tool_calls
  calls_of assistant message = elim (member "tool_calls" message) [
    | none ↦ ok none
    | some v ↦ normalize_prior_tool_calls v >>= λ calls. ok (some calls)
  ]
  calls_of _ message = ok none

  unfoldable pub call_id_of : Role → Fields F → Result (Option String)
  unfolding member
  call_id_of tool message = elim (member "tool_call_id" message) [
    | none ↦ ok none
    | some (str s) ↦ ok (some s)
    | some _ ↦ raise (bad "messages")
  ]
  call_id_of _ message = ok none

  -- the loop body over the messages
  unfoldable pub normalize_message : Value F → Result (Message F)
  unfolding parse_role normalize_content reasoning_of calls_of call_id_of
  normalize_message (obj message) = do
    role ← parse_role (get "role" null message)
    content ← normalize_content join_texts (get "content" null message) role
    reasoning ← reasoning_of role message
    calls ← calls_of role message
    call_id ← call_id_of role message
    ok (record {
      role = role;
      content = content;
      reasoning_content = reasoning;
      tool_calls = calls;
      tool_call_id = call_id;
    })
  normalize_message _ = raise (bad "messages")

  unfoldable pub normalize_all : Items F → Result (List (Message F))
  unfolding normalize_message
  normalize_all nil = ok []
  normalize_all (cons v rest) =
      normalize_message v >>= λ m. normalize_all rest >>= λ ms. ok (m ∷ ms)

  unfoldable pub normalize_messages : Value F → Result (List (Message F))
  unfolding normalize_all
  normalize_messages (arr items) =
      guard (not (is_nil items)) (bad "messages") >> normalize_all items
  normalize_messages _ = raise (bad "messages")

-- the sources of the images among parts
unfoldable pub part_sources : List Part → List String
part_sources [] = []
part_sources (text s ∷ ps) = part_sources ps
part_sources (image s ∷ ps) = s ∷ part_sources ps

abbrev pub content_sources : Content → List String
content_sources (plain s) = []
content_sources (parts ps) = part_sources ps

unfoldable pub all_sources : {F : Type 0} → List (Message F) → List String
unfolding part_sources
all_sources [] = []
all_sources (m ∷ ms) = content_sources m.content ++ all_sources ms

unfoldable pub image_sources : {F : Type 0} → List (Message F) → Result (List String)
unfolding all_sources
image_sources ms = guard (leb (length (all_sources ms)) 4) (bad "messages") >> ok (all_sources ms)
