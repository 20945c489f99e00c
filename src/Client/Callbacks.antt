-- ===== src/Client/Callbacks.antt =====
-- src/acp_proxy/client.py: the requests of the agent. The direct mode denies them all and records each in
-- the evidence; the legacy mode grants permissions. What a legacy request for a file or a terminal does
-- is outside the model.
pub mod Bounds
pub mod Follows
pub mod Denied
use acp_test.Base.{
  ℕ, String, Bool, true, false, not, ◌&&◌, ◌||◌, Option, none, some, List, [], ◌∷◌, ◌is◌, any,
  if◌then◌else◌,
}
use acp_test.Dict
use acp_test.Dict.{is_some}
use acp_test.Json.{
  Value, null, str, literal, arr, obj, Items, nil, cons, Fields, end, fields, items, get_field,
  get_or_null, is_str, str_of,
}
use acp_test.State.{Result, ok, err, fault, ◌>>=◌}
use acp_test.Client.{Client, revoke, contains, as_text, as_dict}
use acp_test.Client.Updates.{is_active, enqueue_direct_update, or_end}

-- What a `for` loop takes of a value: `none` is its TypeError; a text or a dict gives texts.
abbrev pub iterated : Option Value → Option Items
iterated none = some nil
iterated (some (arr l)) = some l
iterated (some (obj d)) = some nil
iterated (some (str s)) = some nil
iterated _ = none

abbrev pub has_kind : String → Value → Bool
has_kind kind (obj option) = is_str (get_or_null "kind" option) kind
has_kind kind _ = false

-- `kind in known_kinds` is a TypeError for a list or a dict, which have no hash.
abbrev pub is_hashable : Value → Bool
is_hashable (arr l) = false
is_hashable (obj d) = false
is_hashable _ = true

abbrev pub has_hashable_kind : Value → Bool
has_hashable_kind (obj option) = is_hashable (get_or_null "kind" option)
has_hashable_kind _ = true

unfoldable pub hashable_kinds : Items → Bool
hashable_kinds nil = true
hashable_kinds (cons v l) = has_hashable_kind v && hashable_kinds l

abbrev pub offers : Items → String → Bool
offers nil kind = false
offers (cons v l) kind = has_kind kind v || offers l kind

-- sorted({…}) of the known kinds that the options offer
offered : Items → List String → List Value
offered l [] = []
offered l (kind ∷ kinds) =
    let rest = offered l kinds in if offers l kind then str kind ∷ rest else rest

unfoldable pub offered_kinds : Items → Value
unfolding offered
offered_kinds l =
    arr (items (offered l ("allow_always" ∷ "allow_once" ∷ "reject_always" ∷ "reject_once" ∷ [])))

unfoldable pub permission_evidence : Items → Fields
permission_evidence l = fields (
    ("sessionUpdate", str "client_permission_request")
    ∷ ("outcome", str "cancelled")
    ∷ ("offeredKinds", offered_kinds l)
    ∷ [])

abbrev pub advertised_methods : List String
advertised_methods =
    "fs/read_text_file" ∷ "fs/write_text_file" ∷ "terminal/create" ∷ "terminal/output"
    ∷ "terminal/wait_for_exit" ∷ "terminal/release" ∷ "terminal/kill" ∷ []

unfoldable pub denial_evidence : String → Fields
denial_evidence method = fields (
    ("sessionUpdate", str "client_callback_denied")
    ∷ (
      "callbackMethod",
      str (if contains advertised_methods method then method else "unadvertised"),
    )
    ∷ ("outcome", str "denied")
    ∷ [])

-- The evidence of a request; `none` where the options, or the kind of one, raise.
unfoldable pub evidence_of : String → Fields → Option Fields
unfolding permission_evidence denial_evidence hashable_kinds
evidence_of method p =
    if method is "session/request_permission"
    then elim (iterated (get_field "options" p)) [
      | none ↦ none
      | some l ↦ if hashable_kinds l then some (permission_evidence l) else none
    ]
    else some (denial_evidence method)

-- What raises, the read loop answers by revoking continuity.
record_evidence : (Fields → Option String) → String → Option Fields → Client → Client
unfolding revoke
record_evidence dumps s none c = revoke "ACP protocol failure" c
record_evidence dumps s (some u) c = enqueue_direct_update dumps s u c

-- In an active prompt a request leaves its evidence.
observe_at : (Fields → Option String) → String → Option Fields → Bool → Client → Client
unfolding record_evidence
observe_at dumps s o true c = record_evidence dumps s o c
observe_at dumps s o false c = revoke "direct ACP callback correlation protocol failure" c

observe_in : (Fields → Option String) → String → Fields → Option String → Client → Client
observe_in dumps method p none c = revoke "direct ACP callback correlation protocol failure" c
observe_in dumps method p (some s) c =
    observe_at dumps s (evidence_of method p)
      (is_active (Dict.get c.prompt_phases s) && is_some (Dict.get c.update_queues s)) c

observe_params : (Fields → Option String) → String → Value → Client → Client
observe_params dumps method (obj p) c =
    observe_in dumps method p (as_text (get_or_null "sessionId" p)) c
observe_params dumps method _ c = revoke "direct ACP callback correlation protocol failure" c

-- str(msg.get("method", "")), where `show` is `str` of what is no text
abbrev pub method_of : (Value → String) → Option Value → String
method_of show none = ""
method_of show (some v) = str_of show v

-- _observe_agent_request
unfoldable pub observe_agent_request :
    (Value → String) → (Fields → Option String) → Fields → Client → Client
unfolding observe_params observe_in observe_at revoke
observe_agent_request show dumps m c =
    if c.direct
    then observe_params dumps (method_of show (get_field "method" m))
        (or_end (get_field "params" m)) c
    else c

-- _handle_agent_request: the answer, an exception, or a legacy handler of the files or the terminals.
pub data AgentAnswer : Type 0 where
  replies : Value → AgentAnswer
  denied : AgentAnswer
  performs : String → Value → AgentAnswer
  no_handler : AgentAnswer

abbrev pub cancelled_outcome : Value
cancelled_outcome =
    obj (fields (("outcome", obj (fields (("outcome", str "cancelled") ∷ []))) ∷ []))

abbrev pub selected_outcome : Value → Value
selected_outcome id =
    obj (
      fields (("outcome", obj (fields (("outcome", str "selected") ∷ ("optionId", id) ∷ []))) ∷ []))

-- The first option of a kind: an option that is no dict raises, and so does one without an ID.
abbrev pub option_id : Fields → Result Value
option_id o = elim (get_field "optionId" o) [ none ↦ err fault | some id ↦ ok id ]

unfoldable pub find_option : String → Items → Result (Option Fields)
find_option kind nil = ok none
find_option kind (cons (obj o) l) = elim (is_str (get_or_null "kind" o) kind) [
  | true ↦ ok (some o)
  | false ↦ find_option kind l
]
find_option kind (cons _ l) = err fault

abbrev pub select : Option Fields → Result Value → Result Value
select none rest = rest
select (some o) rest = option_id o >>= λ id. ok (selected_outcome id)

abbrev pub select_first : Items → Result Value
select_first nil = ok cancelled_outcome
select_first (cons (obj o) l) = option_id o >>= λ id. ok (selected_outcome id)
select_first (cons _ l) = err fault

-- _handle_permission_request, for options that are a list
unfoldable pub handle_permission_request : Items → Result Value
unfolding find_option
handle_permission_request l = do
  always ← find_option "allow_always" l
  once ← find_option "allow_once" l
  select always (select once (select_first l))

unfoldable pub handle_agent_request_direct : Value → AgentAnswer
handle_agent_request_direct method =
    if is_str method "session/request_permission" then replies cancelled_outcome else denied

-- send_response, and _handle_incoming_request around it: an exception is an internal error.
abbrev pub response_message : Value → String → Value → Fields
response_message id key v = fields (("jsonrpc", str "2.0") ∷ ("id", id) ∷ (key, v) ∷ [])

abbrev pub internal_error : Value
internal_error = obj (fields (("code", literal "-32603") ∷ ("message", str "Internal error") ∷ []))

unfoldable pub answer_request : Value → Result Value → Fields
answer_request id (ok v) = response_message id "result" v
answer_request id (err e) = response_message id "error" internal_error

abbrev pub direct_result : AgentAnswer → Result Value
direct_result (replies v) = ok v
direct_result _ = err fault

-- What the agent is told in the direct mode
unfoldable pub answer_direct : Fields → Fields
unfolding answer_request handle_agent_request_direct
answer_direct m =
    answer_request (get_or_null "id" m)
      (direct_result (handle_agent_request_direct (get_or_null "method" m)))
