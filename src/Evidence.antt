-- ===== src/Evidence.antt =====
-- src/acp_proxy/direct_service.py: _collect_prompt, the bounded retention of a prompt's updates. The
-- updates are the dicts that the ACP client yields, as a list; `raises` is an exception of the client.
-- `Python` holds the built-ins that are arguments: `json.dumps` of an update and `str` of a value that
-- is no text. `slice text 0 n` is `text.encode("utf-8")[:n].decode("utf-8", errors="ignore")`: the
-- whole characters among the first n bytes.
pub mod Excess
pub mod Result
pub mod Bounds
pub mod Order
use acp_test.Base.{
  ℕ, ◌+◌, ◌-◌, ◌≤◌, String, Bool, true, false, ◌&&◌, ◌||◌, not, Option, none, some, List, [], ◌∷◌,
  ◌++◌, ltb, any, ◌is◌, if◌then◌else◌,
}
use Prim.Native.String.{len, slice}
use acp_test.Json.{
  Value, str, bool, int, obj, fields, Fields, end, get_or_null, get_field, set_field, is_str,
  is_true, str_of,
}
use acp_test.Protocol.{DirectLimits}

pub record Python : Type 0 where
  pub dumps_update : Fields → String
  pub show : Value → String

pub data Item : Type 0 where
  update : Fields → Item
  raises : Item

-- DIRECT_STOP_REASONS of src/acp_proxy/client.py
abbrev pub direct_stop_reasons : List String
direct_stop_reasons = "end_turn" ∷ "max_tokens" ∷ "max_turn_requests" ∷ "refusal" ∷ "cancelled" ∷ []

-- EvidenceLimitExceeded
pub record Overflow : Type 0 where
  pub settled_cancelled : Bool
  pub retained_updates : List Fields
  pub event_bytes : ℕ
  pub response_bytes : ℕ
  pub event_limit_exceeded : Bool
  pub response_limit_exceeded : Bool

-- How the collection ends: with a result, by EvidenceLimitExceeded, or by another exception.
pub data Collected : Type 0 where
  collected : List Fields → String → Collected
  overflowed : Overflow → Collected
  failed : Collected

-- The local variables of the loop.
pub record Progress : Type 0 where
  pub updates : List Fields
  pub event_bytes : ℕ
  pub response_bytes : ℕ
  pub event_limit_exceeded : Bool
  pub response_limit_exceeded : Bool
  pub cancel_sent : Bool

abbrev pub start : Progress
start = record {
  updates = [];
  event_bytes = 0;
  response_bytes = 0;
  event_limit_exceeded = false;
  response_limit_exceeded = false;
  cancel_sent = false;
}

abbrev pub limit_exceeded : Progress → Bool
limit_exceeded p = p.event_limit_exceeded || p.response_limit_exceeded

abbrev pub overflow : Bool → Progress → Overflow
overflow settled p = record {
  settled_cancelled = settled;
  retained_updates = p.updates;
  event_bytes = p.event_bytes;
  response_bytes = p.response_bytes;
  event_limit_exceeded = p.event_limit_exceeded;
  response_limit_exceeded = p.response_limit_exceeded;
}

-- _utf8_prefix
unfoldable pub utf8_prefix : String → ℕ → String
utf8_prefix value max_bytes = if ltb 0 max_bytes then slice value 0 max_bytes else ""

-- What an update contributes to the response: `no_text`, a text with the content that holds it, or an
-- AttributeError where the content of a message chunk is no dict.
pub data Chunk : Type 0 where
  no_text : Chunk
  text : Fields → String → Chunk
  malformed : Chunk

abbrev pub text_or : Option Value → (Value → String) → String
text_or none show = ""
text_or (some v) show = str_of show v

abbrev pub content_chunk : (Value → String) → Fields → Chunk
content_chunk show content =
    if is_str (get_or_null "type" content) "text"
    then text content (text_or (get_field "text" content) show)
    else no_text

abbrev pub chunk_of_content : (Value → String) → Option Value → Chunk
chunk_of_content show none = content_chunk show end
chunk_of_content show (some (obj content)) = content_chunk show content
chunk_of_content show (some _) = malformed

unfoldable pub chunk : (Value → String) → Fields → Chunk
chunk show u =
    if is_str (get_or_null "sessionUpdate" u) "agent_message_chunk"
    then chunk_of_content show (get_field "content" u)
    else no_text

-- The update with its text cut, and the note of how long it was.
unfoldable pub bounded_prefix : Fields → Fields → String → ℕ → Fields
unfolding utf8_prefix
bounded_prefix u content t remaining =
    set_field "retention"
      (obj (fields (("boundedPrefix", bool true) ∷ ("originalUtf8Bytes", int (len t)) ∷ [])))
      (set_field "content" (obj (set_field "text" (str (utf8_prefix t remaining)) content)) u)

-- The counters after an update of so many bytes, and after a text.
abbrev pub count_event : DirectLimits → ℕ → Progress → Progress
count_event limits n p = record p {
  event_bytes = p.event_bytes + n;
  event_limit_exceeded = p.event_limit_exceeded || ltb limits.max_event_bytes (p.event_bytes + n);
}

abbrev pub count_text : DirectLimits → ℕ → Progress → Progress
count_text limits n p = record p {
  response_bytes = p.response_bytes + n;
  response_limit_exceeded =
      p.response_limit_exceeded || ltb limits.max_response_bytes (p.response_bytes + n);
}

-- What is kept of the update.
unfoldable pub retained : DirectLimits → Fields → Fields → String → Progress → Fields
unfolding bounded_prefix
retained limits u content t p =
    if ltb limits.max_response_bytes (p.response_bytes + len t)
    then bounded_prefix u content t (limits.max_response_bytes - p.response_bytes)
    else u

-- if not event_limit_exceeded: updates.append(retained_update)
abbrev pub keep : Fields → Progress → Progress
keep u p = record p { updates = if p.event_limit_exceeded then p.updates else p.updates ++ u ∷ [] }

-- The rest of the loop's body once the counters are up to date: the cancellation is sent at the first
-- excess, and its failure, `false`, ends the collection before the update is appended.
unfoldable pub retain : Bool → Fields → Progress → Progress × Bool
retain cancel_ok u p =
    if limit_exceeded p && not p.cancel_sent
    then (
      let sent = record p { cancel_sent = true } in if cancel_ok then keep u sent else sent,
      cancel_ok,
    )
    else (keep u p, true)

-- The loop's body; `none` is an exception other than the failed cancellation.
unfoldable pub collect_update :
    Python → DirectLimits → Bool → Fields → Progress → Option (Progress × Bool)
unfolding retain retained chunk
collect_update py limits cancel_ok u p =
    let counted = count_event limits (len (py.dumps_update u)) p in
    elim (chunk py.show u) [
      | malformed ↦ none
      | no_text ↦ some (retain cancel_ok u counted)
      | text content t ↦
          some
            (retain cancel_ok (retained limits u content t p) (count_text limits (len t) counted))
    ]

-- After the loop has met a stop reason.
abbrev pub stop : String → Progress → Collected
stop reason p =
    if limit_exceeded p
    then overflowed (overflow (reason is "cancelled") p)
    else collected p.updates reason

-- The update that ends the stream, with its stop reason.
abbrev pub finish : Value → Progress → Collected
finish (str reason) p = if any (λ r. r is reason) direct_stop_reasons then stop reason p else failed
finish _ p = failed

-- The loop; the updates that follow the last one are not read.
pub collect : Python → DirectLimits → Bool → List Item → Progress → Collected
collect py limits cancel_ok [] p = failed
collect py limits cancel_ok (raises ∷ rest) p = failed
collect py limits cancel_ok (update u ∷ rest) p =
    if is_true (get_or_null "done" u)
    then finish (get_or_null "stopReason" u) p
    else elim (collect_update py limits cancel_ok u p) [
      | none ↦ failed
      | some (q, true) ↦ collect py limits cancel_ok rest q
      | some (q, false) ↦ overflowed (overflow false q)
    ]

unfoldable pub collect_prompt : Python → DirectLimits → Bool → List Item → Collected
unfolding collect
collect_prompt py limits cancel_ok items = collect py limits cancel_ok items start
