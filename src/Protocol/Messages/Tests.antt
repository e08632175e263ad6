-- ===== src/Protocol/Messages/Tests.antt =====
-- A message of a developer and one of the user with an image.
use Prim.Native.String.{String}
use serve_mlx.Base.{◌≤◌, ◌≡◌, refl, none, false, List, [], ◌∷◌, length, ok, raise, type_error, All}
use serve_mlx.Base.Int.{ℤ, pos}
use serve_mlx.Json.{Value, Fields, int, str, arr, obj, nil, cons, end, field}
use serve_mlx.Manifest.{is_empty}
use serve_mlx.Protocol.Messages.{
  Role, Content, system, user, image, plain, parts, Message, normalize_messages, image_sources,
}
use serve_mlx.Protocol.Messages.Normal.{IsNormal, IsSource, normalize_messages-image_sources}

abbrev picture : Fields ℤ
picture = field "type" (str "image_url") (field "image_url" (obj (field "url" (str "u") end)) end)

abbrev instruction : Fields ℤ
instruction = field "role" (str "developer") (field "content" (str "be brief") end)

abbrev question : Fields ℤ
question = field "role" (str "user") (field "content" (arr (cons (obj picture) nil)) end)

abbrev request : Value ℤ
request = arr (cons (obj instruction) (cons (obj question) nil))

abbrev message_of : Role → Content → Message ℤ
message_of role content = record {
  role = role;
  content = content;
  reasoning_content = none;
  tool_calls = none;
  tool_call_id = none;
}

abbrev messages : List (Message ℤ)
messages = message_of system (plain "be brief") ∷ message_of user (parts (image "u" ∷ [])) ∷ []

normalized : normalize_messages (λ ps. "") (λ s. none) (λ n. int (pos n)) request ≡ ok messages
unfolding normalize_messages
normalized = refl

-- a role that no set can hold
no_hash :
    normalize_messages {F = ℤ}
      (λ ps. "")
      (λ s. none)
      (λ n. int (pos n))
      (arr (cons (obj (field "role" (arr nil) end)) nil))
    ≡ raise type_error
unfolding normalize_messages
no_hash = refl

normalize_messages-image_sources_example :
    (All IsNormal messages × (is_empty messages ≡ false))
    × ((sources : List String)
        → image_sources messages ≡ ok sources
        → (length sources ≤ 4) × All IsSource sources)
normalize_messages-image_sources_example =
    normalize_messages-image_sources (λ ps. "") (λ s. none) (λ n. int (pos n)) request messages
      normalized
