-- ===== src/Evidence/Result.antt =====
-- src/acp_proxy/direct_service.py: _normalize_result, with the evidence models
-- of src/acp_proxy/direct_protocol.py.
use acp_test.Base.{
  ℕ, suc, String, Bool, ◌||◌, Option, none, some, List, [], ◌∷◌, ◌++◌, any, ◌is◌, if◌then◌else◌,
}
use Prim.Native.String.{◌++◌ as ◌+++◌}
use acp_test.Json.{
  Value, Fields, obj, null, get_field, get_or_null, is_null, is_truthy, is_str, str_of,
}
use acp_test.State.{OperationRecord, DirectSession, Result, ok, err, fault, raise_if, ◌>>=◌, ◌>>◌}
use acp_test.Protocol.{PromptRequest, is_initial}

pub record OrderedEvent : Type 0 where
  pub sequence : ℕ
  pub update_type : String
  pub raw : Fields

-- str(update.get("sessionUpdate", "unknown"))
abbrev pub type_of : (Value → String) → Fields → String
type_of show u = elim (get_field "sessionUpdate" u) [ none ↦ "unknown" | some v ↦ str_of show v ]

unfoldable pub ordered : (Value → String) → ℕ → List Fields → List OrderedEvent
ordered show n [] = []
ordered show n (u ∷ us) =
    record { sequence = n; update_type = type_of show u; raw = u } ∷ ordered show (suc n) us

abbrev pub has_type : List String → OrderedEvent → Bool
has_type types e = any (λ t. t is e.update_type) types

pub select : (OrderedEvent → Bool) → List OrderedEvent → List OrderedEvent
select p [] = []
select p (e ∷ es) = let rest = select p es in if p e then e ∷ rest else rest

abbrev pub tool_types : List String
tool_types = "tool_call" ∷ "tool_call_update" ∷ []

abbrev pub permission_types : List String
permission_types = "client_permission_request" ∷ "client_callback_denied" ∷ []

-- raw.get("toolCallId") or raw.get("id")
abbrev pub direct_id : Fields → Value
direct_id raw =
    if is_truthy (get_or_null "toolCallId" raw)
    then get_or_null "toolCallId" raw
    else get_or_null "id" raw

abbrev pub nested_id : Value → Value
nested_id (obj call) = direct_id call
nested_id _ = null

unfoldable pub candidate_id : Fields → Value
candidate_id raw =
    if is_null (direct_id raw) then nested_id (get_or_null "toolCall" raw) else direct_id raw

-- One round of the loop over the tool events.
unfoldable pub add_tool_id : (Value → String) → List String → Fields → List String
unfolding candidate_id
add_tool_id show ids raw =
    if is_null (candidate_id raw) || any (λ i. i is str_of show (candidate_id raw)) ids
    then ids
    else ids ++ str_of show (candidate_id raw) ∷ []

unfoldable pub tool_ids_from : (Value → String) → List String → List OrderedEvent → List String
tool_ids_from show ids [] = ids
tool_ids_from show ids (e ∷ es) = tool_ids_from show (add_tool_id show ids e.raw) es

unfoldable pub tool_ids : (Value → String) → List OrderedEvent → List String
unfolding tool_ids_from
tool_ids show events = tool_ids_from show [] events

-- update.get("content", {}), where `.get` of what is no dict is an AttributeError
abbrev pub response_content : (Value → String) → Option Value → Result String
response_content show none = ok ""
response_content show (some (obj c)) =
    if is_str (get_or_null "type" c) "text"
    then ok (elim (get_field "text" c) [ none ↦ "" | some v ↦ str_of show v ])
    else ok ""
response_content show (some _) = err fault

abbrev pub response_part : (Value → String) → Fields → Result String
response_part show u =
    if is_str (get_or_null "sessionUpdate" u) "agent_message_chunk"
    then response_content show (get_field "content" u)
    else ok ""

unfoldable pub response_text : (Value → String) → List Fields → Result String
response_text show [] = ok ""
response_text show (u ∷ us) = do
  part ← response_part show u
  rest ← response_text show us
  ok (part +++ rest)

pub record PromptResult : Type 0 where
  pub logical_session_id : String
  pub backend_session_id : String
  pub invocation_id : String
  pub operation_id : String
  pub continuity_generation_id : String
  pub model_id : String
  pub response_text : String
  pub acp_stop_reason : String
  pub events : List OrderedEvent
  pub tool_call_ids : List String
  pub tool_events : List OrderedEvent
  pub permission_events : List OrderedEvent
  pub effect_evidence : String
  pub usage_availability : String
  pub instruction_submission : String
  pub stable_instruction_digest : String
  pub output_contract_digest : String

abbrev pub or_blank : Option String → String
or_blank none = ""
or_blank (some s) = s

-- An Identifier has at least one character; its other checks are pydantic's and outside the model.
unfoldable pub normalize_result :
    (Value → String)
    → String
    → OperationRecord
    → DirectSession
    → PromptRequest
    → List Fields
    → String
    → Result PromptResult
unfolding ordered select tool_ids
normalize_result show generation rec x r updates stop_reason = do
  body ← response_text show updates
  let events = ordered show 0 updates
  let tools = select (has_type tool_types) events
  raise_if (or_blank x.backend_session_id is "") fault
  ok (record {
    logical_session_id = x.logical_session_id;
    backend_session_id = or_blank x.backend_session_id;
    invocation_id = r.invocation_id;
    operation_id = rec.operation_id;
    continuity_generation_id = generation;
    model_id = x.model_id;
    response_text = body;
    acp_stop_reason = stop_reason;
    events = events;
    tool_call_ids = tool_ids show tools;
    tool_events = tools;
    permission_events = select (has_type permission_types) events;
    effect_evidence = "unavailable";
    usage_availability = "unavailable";
    instruction_submission =
        if is_initial r.phase then "submitted_once" else "not_resubmitted_same_session";
    stable_instruction_digest = x.stable_instruction_digest;
    output_contract_digest = r.output_contract_digest;
  })
