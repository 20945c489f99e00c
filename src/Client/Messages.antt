-- ===== src/Client/Messages.antt =====
-- src/acp_proxy/client.py: the messages of a request in OpenAI's format, and the text that a prompt sends.
pub mod Turns
use Prim.Native.String.{◌++◌ as ◌+++◌}
use mathlib.Core.List.{reverse}
use acp_test.Base.{
  String, Bool, true, false, not, ◌&&◌, Option, none, some, List, [], ◌∷◌, ◌is◌, if◌then◌else◌,
}
use acp_test.Json.{
  Value, null, str, arr, obj, Items, nil, cons, Fields, fields, get_field, get_or_null, is_str,
}
use acp_test.State.{Result, ok, err, fault, ◌>>=◌}

-- separator.join(texts)
unfoldable pub join : String → List String → String
join separator [] = ""
join separator (s ∷ []) = s
join separator (s ∷ t ∷ ts) = s +++ separator +++ join separator (t ∷ ts)

-- The texts of the text blocks: one without a text raises, by its key or in the join.
abbrev pub block_text : Fields → Result String
block_text block = elim (get_field "text" block) [ some (str s) ↦ ok s | _ ↦ err fault ]

unfoldable pub text_parts : Items → Result (List String)
text_parts nil = ok []
text_parts (cons (obj block) l) = elim (is_str (get_or_null "type" block) "text") [
  | true ↦ block_text block >>= λ s. text_parts l >>= λ parts. ok (s ∷ parts)
  | false ↦ text_parts l
]
text_parts (cons _ l) = text_parts l

-- _extract_text
unfoldable pub extract_text : Value → Result String
unfolding text_parts join
extract_text null = ok ""
extract_text (str s) = ok s
extract_text (arr l) = text_parts l >>= λ parts. ok (join "\n" parts)
extract_text _ = ok ""

abbrev pub is_user : Fields → Bool
is_user m = is_str (get_or_null "role" m) "user"

abbrev pub content_text : Fields → Result String
content_text m = extract_text (get_or_null "content" m)

unfoldable pub find_user : List Fields → Option Fields
find_user [] = none
find_user (m ∷ ms) = if is_user m then some m else find_user ms

abbrev pub text_or : Result String → Option Fields → Result String
text_or rest none = rest
text_or rest (some m) = content_text m

-- The texts that are not empty
unfoldable pub nonempty_texts : List Fields → Result (List String)
nonempty_texts [] = ok []
nonempty_texts (m ∷ ms) =
    content_text m >>= λ s. nonempty_texts ms >>= λ rest. ok (if s is "" then rest else s ∷ rest)

-- extract_last_user_message
unfoldable pub extract_last_user_message : List Fields → Result String
unfolding find_user nonempty_texts join
extract_last_user_message ms =
    text_or (nonempty_texts ms >>= λ texts. ok (join "\n\n" texts)) (find_user (reverse ms))

-- extract_first_user_message
unfoldable pub extract_first_user_message : List Fields → Result String
unfolding find_user
extract_first_user_message ms = text_or (ok "") (find_user ms)

-- _messages_to_prompt
unfoldable pub messages_to_prompt : List Fields → Result (List Fields)
unfolding extract_last_user_message
messages_to_prompt ms = extract_last_user_message ms >>= λ text.
    ok (fields (("type", str "text") ∷ ("text", str text) ∷ []) ∷ [])
