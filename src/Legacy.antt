-- ===== src/Legacy.antt =====
-- src/acp_proxy/server.py and src/acp_proxy/config.py: a completion of the OpenAI-compatible server, as one
-- response or as a stream of events. `IDs`, times and log lines are left out; json.dumps of an event is its
-- encoding.
pub mod Agreement
pub mod Sessions
use Prim.Native.String.{◌++◌ as ◌+++◌, count}
use acp_test.Base.{
  ℕ, zero, suc, ◌+◌, ◌/◌, String, Bool, true, false, not, ◌&&◌, Option, none, some, List, [], ◌∷◌,
  ◌is◌, if◌then◌else◌,
}
use acp_test.Dict
use acp_test.Dict.{Dict}
use acp_test.Json.{
  Value, null, bool, int, literal, str, arr, obj, Items, nil, cons, Fields, end, field, get_field,
  get_or_null, is_str, is_truthy,
}
use acp_test.Client.{as_dict, as_text, count_items}
use acp_test.Client.Updates.{or_end}

-- estimate_tokens, of a text of that many characters
abbrev pub estimate_tokens : ℕ → ℕ
estimate_tokens n = n / 4

-- _map_stop_reason
unfoldable pub map_stop_reason : String → String
map_stop_reason reason = if reason is "max_tokens" then "length" else "stop"

-- What the client's prompt yields, and its exceptions: PromptTimeout and the others.
pub data Item : Type 0 where
  yields : Fields → Item
  times_out raises : Item

-- What an update adds to the text of a completion, and whether it is malformed.
pub data Piece : Type 0 where
  says : Value → Piece
  silent malformed : Piece

abbrev pub text_or_empty : Option Value → Value
text_or_empty none = str ""
text_or_empty (some v) = v

abbrev pub said : Option Fields → Piece
said none = malformed
said (some content) =
    if is_str (get_or_null "type" content) "text"
    then says (text_or_empty (get_field "text" content))
    else silent

unfoldable pub piece_of : Fields → Piece
piece_of u =
    if is_str (get_or_null "sessionUpdate" u) "agent_message_chunk"
    then said (as_dict (or_end (get_field "content" u)))
    else silent

-- The stop reason of the update that ends a prompt, which the client gives as a text
abbrev pub reason_of : Option Value → String
reason_of none = "end_turn"
reason_of (some (str s)) = s
reason_of (some _) = ""

abbrev pub finish_reason : Fields → String
finish_reason u = map_stop_reason (reason_of (get_field "stopReason" u))

-- _non_streaming_response: how the collection of the text ends.
pub data Collected : Type 0 where
  completed : String → String → Collected
  exhausted : String → Collected
  timeout broken : Collected

-- One update, before the rest: full_text += text is a TypeError where the text is none.
collect_piece : Piece → String → (String → Collected) → Collected
collect_piece silent text next = next text
collect_piece malformed text next = broken
collect_piece (says (str s)) text next = next (text +++ s)
collect_piece (says _) text next = broken

unfoldable pub collect : List Item → String → Collected
unfolding map_stop_reason piece_of collect_piece
collect [] text = exhausted text
collect (times_out ∷ items) text = timeout
collect (raises ∷ items) text = broken
collect (yields u ∷ items) text =
    let rest = collect_piece (piece_of u) text (λ t. collect items t) in
    if is_truthy (get_or_null "done" u) then completed text (finish_reason u) else rest

-- _stream_response: its events, and the characters that it has counted at the end.
pub data Event : Type 0 where
  content : Value → Event
  finish : String → Event
  done_marker : Event
  timeout_error : Event

pub record Streamed : Type 0 where
  pub events : List Event
  pub counted : Option ℕ

abbrev pub before : Event → Streamed → Streamed
before e r = record r { events = e ∷ r.events }

abbrev count_fields : Fields → ℕ
count_fields end = 0
count_fields (field k v l) = suc (count_fields l)

-- len(text), where TypeError is `none`
abbrev pub size : Value → Option ℕ
size (str s) = some (count s)
size (arr l) = some (count_items l)
size (obj d) = some (count_fields d)
size _ = none

-- A stream that ends without more events: its prompt is over, or it has raised.
abbrev pub cut : Streamed
cut = record { events = []; counted = none }

stream_text : Value → Bool → Option ℕ → ℕ → (ℕ → Streamed) → Streamed
stream_text v false o chars next = next chars
stream_text v true none chars next = cut
stream_text v true (some n) chars next = before (content v) (next (chars + n))

stream_piece : Piece → ℕ → (ℕ → Streamed) → Streamed
unfolding stream_text
stream_piece silent chars next = next chars
stream_piece malformed chars next = cut
stream_piece (says v) chars next = stream_text v (is_truthy v) (size v) chars next

unfoldable pub stream : List Item → ℕ → Streamed
unfolding map_stop_reason piece_of stream_piece
stream [] chars = cut
stream (times_out ∷ items) chars = record {
  events = timeout_error ∷ done_marker ∷ [];
  counted = none;
}
stream (raises ∷ items) chars = cut
stream (yields u ∷ items) chars =
    let rest = stream_piece (piece_of u) chars (λ n. stream items n) in
    if is_truthy (get_or_null "done" u)
    then record { events = finish (finish_reason u) ∷ done_marker ∷ []; counted = some chars }
    else rest

-- The token counts of a session, and what a completion adds to them where the session has some.
pub record Tokens : Type 0 where
  pub prompt : ℕ
  pub completion : ℕ

unfoldable pub add_tokens : String → ℕ → ℕ → Dict Tokens → Dict Tokens
add_tokens s prompt completion tokens =
    Dict.modify tokens s
      (λ t. record { prompt = t.prompt + prompt; completion = t.completion + completion })
